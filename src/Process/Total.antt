-- ===== src/Process/Total.antt =====
-- Code that ends, by a return or a raise and never for want of fuel, and what it keeps of the clock and of
-- the calls outside that were made: one rule for each way to compose code.
use ktb4_15th_ai.Prelude.{ℕ, Bool, true, false, Option, none, some, List, ◌∷◌, ◌+◌, if◌then◌else◌}
use ktb4_15th_ai.Payload.{Result, ok, err, bad_input, database}
use ktb4_15th_ai.Store.{Db, Op}
use ktb4_15th_ai.Process.{
  Failure, Ended, done, raised, unfinished, Env, World, Proc, pure, throw, and_then, ◌>>=◌, handled,
  catch, restored, ended_with, finally, need, emit, read_clock, tables, ask, sleep, committed,
  meanwhile, call,
}

abbrev pub Finished : {A : Type 0} → Ended A → Type 0
Finished (done _) = Unit
Finished (raised _) = Unit
Finished unfinished = ⊥

module _ {E : Type 0} (T : ℕ → List E → Type 0) where
  abbrev pub Ends : {A : Type 0} → Ended A × World E → Type 0
  Ends r = T r.1.now r.1.trace × Finished r.0

  pub record Total {A : Type 0} (m : Proc E A) : Type 0 where
    pub at : (w : World E) → T w.now w.trace → Ends (m w)

  module _ {A : Type 0} where
    pub Total-pure : (a : A) → Total (pure a)
    unfolding pure
    Total-pure a = record { at = λ w h. (h, tt) }

    pub Total-throw : (f : Failure) → Total (throw {A = A} f)
    unfolding throw
    Total-throw f = record { at = λ w h. (h, tt) }

    pub Total-need : (o : Option A) → Total (need o)
    unfolding need throw pure
    Total-need none = record { at = λ w h. (h, tt) }
    Total-need (some a) = record { at = λ w h. (h, tt) }

    pub Total-both : (b : Bool) (m n : Proc E A) → Total m → Total n → Total (if b then m else n)
    Total-both true m n tm tn = tm
    Total-both false m n tm tn = tn

  pub Total-read_clock : Total read_clock
  unfolding read_clock
  Total-read_clock = record { at = λ w h. (h, tt) }

  pub Total-tables : Total tables
  unfolding tables
  Total-tables = record { at = λ w h. (h, tt) }

  and_then-Total :
      {A B : Type 0} (f : A → Proc E B) (r : Ended A × World E)
      → Ends r
      → ((a : A) → Total (f a))
      → Ends (and_then f r)
  and_then-Total f (done a, w) h k = (k a).at w h.0
  and_then-Total f (raised e, w) h k = h
  and_then-Total f (unfinished, w) h k = elim h.1 [ ]

  pub Total-bind :
      {A B : Type 0} (m : Proc E A) (f : A → Proc E B)
      → Total m
      → ((a : A) → Total (f a))
      → Total (m >>= f)
  unfolding ◌>>=◌
  Total-bind m f tm tf = record { at = λ w h. and_then-Total f (m w) (tm.at w h) tf }

  handled-Total :
      {A : Type 0} (h : Failure → Proc E A) (r : Ended A × World E)
      → Ends r
      → ((e : Failure) → Total (h e))
      → Ends (handled h r)
  handled-Total h (done a, w) p k = p
  handled-Total h (raised e, w) p k = (k e).at w p.0
  handled-Total h (unfinished, w) p k = elim p.1 [ ]

  pub Total-catch :
      {A : Type 0} (m : Proc E A) (h : Failure → Proc E A)
      → Total m
      → ((e : Failure) → Total (h e))
      → Total (catch m h)
  unfolding catch
  Total-catch m h tm th = record { at = λ w p. handled-Total h (m w) (tm.at w p) th }

  restored-Total :
      {A : Type 0} (r : Ended A) (x : Ended (Unit {0}) × World E)
      → Finished r
      → Ends x
      → Ends (restored r x)
  restored-Total r (done _, w) f h = (h.0, f)
  restored-Total r (raised e, w) f h = (h.0, tt)
  restored-Total r (unfinished, w) f h = elim h.1 [ ]

  ended_with-Total :
      {A : Type 0} (last : Proc E (Unit {0})) (r : Ended A × World E)
      → Ends r
      → Total last
      → Ends (ended_with last r)
  ended_with-Total last (r, w) h k = restored-Total r (last w) h.1 (k.at w h.0)

  pub Total-finally :
      {A : Type 0} (m : Proc E A) (last : Proc E (Unit {0}))
      → Total m
      → Total last
      → Total (finally m last)
  unfolding finally
  Total-finally m last tm tl = record { at = λ w h. ended_with-Total last (m w) (tm.at w h) tl }

  pub Total-emit :
      (event : E)
      → ((w : World E) → T w.now w.trace → T w.now (event ∷ w.trace))
      → Total (emit event)
  unfolding emit
  Total-emit event h = record { at = λ w p. (h w p, tt) }

module _ {E : Type 0} (T : ℕ → List E → Type 0)
    (later : (n d : ℕ) (trace : List E) → T n trace → T (n + d) trace) where
  pub Total-ask : (e : Env) {A : Type 0} (answer : ℕ → A) → Total T (ask e answer)
  unfolding ask
  Total-ask e answer = record { at = λ w h. (later w.now (e.lapse w.moment) w.trace h, tt) }

  pub Total-sleep : (e : Env) (d : ℕ) → Total T (sleep e d)
  unfolding sleep
  Total-sleep e d = record {
    at = λ w h. (later _ d w.trace (later w.now (e.lapse w.moment) w.trace h), tt);
  }

  committed-Total :
      (e : Env) {A : Type 0} (w : World E) (r : Result A × Db)
      → T w.now w.trace
      → Ends T (committed e w r)
  committed-Total e w (ok a, db) h = (later w.now (e.lapse w.moment) w.trace h, tt)
  committed-Total e w (err bad_input, db) h = (later w.now (e.lapse w.moment) w.trace h, tt)
  committed-Total e w (err database, db) h = (later w.now (e.lapse w.moment) w.trace h, tt)

  pub Total-call : (e : Env) {A : Type 0} (op : Op A) → Total T (call e op)
  unfolding call
  Total-call e op = record {
    at = λ w h. committed-Total e w (op (e.clock w.moment) (meanwhile e w)) h;
  }

pub ruleset total_rules = (
  Total-pure, Total-throw, Total-need, Total-both, Total-read_clock, Total-tables, Total-bind,
  Total-catch, Total-finally, Total-ask, Total-sleep, Total-call,
)
