-- ===== src/Process/Keeps.antt =====
-- What a piece of code keeps, however it ends: one rule for each way to compose code.
use ktb4_15th_ai.Prelude.{◌≡◌, refl, Bool, true, false, Option, none, some, if◌then◌else◌}
use ktb4_15th_ai.Payload.{Result, ok, err, bad_input, database}
use ktb4_15th_ai.Store.{Db}
use ktb4_15th_ai.Process.{
  Failure, Ended, done, raised, unfinished, Env, World, Proc, pure, throw, exhausted, and_then,
  ◌>>=◌, handled, catch, restored, ended_with, finally, need, emit, read_clock, tables, moved,
  committed,
}

module _ {E : Type 0} (J : World E → Type 0) where
  pub record Keeps {A : Type 0} (m : Proc E A) : Type 0 where
    pub at : (w : World E) → J w → J (m w).1

  module _ {A : Type 0} where
    pub Keeps-pure : (a : A) → Keeps (pure a)
    unfolding pure
    Keeps-pure a = record { at = λ w h. h }

    pub Keeps-throw : (f : Failure) → Keeps (throw {A = A} f)
    unfolding throw
    Keeps-throw f = record { at = λ w h. h }

    pub Keeps-exhausted : Keeps (exhausted {A = A})
    unfolding exhausted
    Keeps-exhausted = record { at = λ w h. h }

    pub Keeps-need : (o : Option A) → Keeps (need o)
    unfolding need
    Keeps-need none = record { at = λ w h. h }
    Keeps-need (some a) = record { at = λ w h. h }

    pub Keeps-if :
        (b : Bool) (m n : Proc E A)
        → (b ≡ true → Keeps m)
        → (b ≡ false → Keeps n)
        → Keeps (if b then m else n)
    Keeps-if true m n km kn = km refl
    Keeps-if false m n km kn = kn refl

    pub Keeps-both : (b : Bool) (m n : Proc E A) → Keeps m → Keeps n → Keeps (if b then m else n)
    Keeps-both true m n km kn = km
    Keeps-both false m n km kn = kn

  pub Keeps-read_clock : Keeps read_clock
  unfolding read_clock
  Keeps-read_clock = record { at = λ w h. h }

  pub Keeps-tables : Keeps tables
  unfolding tables
  Keeps-tables = record { at = λ w h. h }

  pub Keeps-emit : (event : E) → ((w : World E) → J w → J (emit event w).1) → Keeps (emit event)
  unfolding emit
  Keeps-emit event h = record { at = h }

  and_then-Keeps :
      {A B : Type 0} (f : A → Proc E B) (r : Ended A × World E)
      → J r.1
      → ((a : A) → Keeps (f a))
      → J (and_then f r).1
  and_then-Keeps f (done a, w) h k = (k a).at w h
  and_then-Keeps f (raised e, w) h k = h
  and_then-Keeps f (unfinished, w) h k = h

  pub Keeps-bind :
      {A B : Type 0} (m : Proc E A) (f : A → Proc E B)
      → Keeps m
      → ((a : A) → Keeps (f a))
      → Keeps (m >>= f)
  unfolding ◌>>=◌
  Keeps-bind m f km kf = record { at = λ w h. and_then-Keeps f (m w) (km.at w h) kf }

  handled-Keeps :
      {A : Type 0} (h : Failure → Proc E A) (r : Ended A × World E)
      → J r.1
      → ((e : Failure) → Keeps (h e))
      → J (handled h r).1
  handled-Keeps h (done a, w) p k = p
  handled-Keeps h (raised e, w) p k = (k e).at w p
  handled-Keeps h (unfinished, w) p k = p

  pub Keeps-catch :
      {A : Type 0} (m : Proc E A) (h : Failure → Proc E A)
      → Keeps m
      → ((e : Failure) → Keeps (h e))
      → Keeps (catch m h)
  unfolding catch
  Keeps-catch m h km kh = record { at = λ w p. handled-Keeps h (m w) (km.at w p) kh }

  restored-Keeps :
      {A : Type 0} (r : Ended A) (x : Ended (Unit {0}) × World E) → J x.1 → J (restored r x).1
  restored-Keeps r (done _, w) h = h
  restored-Keeps r (raised e, w) h = h
  restored-Keeps r (unfinished, w) h = h

  pub ended_with-Keeps :
      {A : Type 0} (last : Proc E (Unit {0})) (r : Ended A × World E)
      → J r.1
      → Keeps last
      → J (ended_with last r).1
  ended_with-Keeps last (r, w) h k = restored-Keeps r (last w) (k.at w h)

  pub Keeps-finally :
      {A : Type 0} (m : Proc E A) (last : Proc E (Unit {0}))
      → Keeps m
      → Keeps last
      → Keeps (finally m last)
  unfolding finally
  Keeps-finally m last km kl = record { at = λ w h. ended_with-Keeps last (m w) (km.at w h) kl }

  pub committed-Keeps :
      (e : Env) {A : Type 0} (w : World E) (r : Result A × Db)
      → J (record (moved e w) { db = r.1 })
      → J (committed e w r).1
  committed-Keeps e w (ok a, db) h = h
  committed-Keeps e w (err bad_input, db) h = h
  committed-Keeps e w (err database, db) h = h

pub ruleset keeps_rules = (
  Keeps-pure, Keeps-throw, Keeps-exhausted, Keeps-need, Keeps-both, Keeps-read_clock, Keeps-tables,
  Keeps-bind, Keeps-catch, Keeps-finally,
)
