-- ===== src/Process/Triples.antt =====
-- What holds before a piece of code holds in another form after it: rules for each way to compose code.
-- A triple also says that no loop runs out of fuel.
use ktb4_15th_ai.Process.Total.{Total, Ends}
use ktb4_15th_ai.Prelude.{
  ℕ, ◌≡◌, refl, Bool, true, false, Option, none, some, List, ◌∷◌, ◌+◌, if◌then◌else◌,
}
use ktb4_15th_ai.Payload.{Result, ok, err, bad_input, database}
use ktb4_15th_ai.Store.{Db, Op}
use ktb4_15th_ai.Process.{
  Failure, Ended, done, raised, unfinished, Env, World, Proc, pure, throw, and_then, ◌>>=◌, handled,
  catch, restored, ended_with, finally, need, moved, ask, committed, meanwhile, call, sleep,
  read_clock, tables, emit,
}

module _ {E A : Type 0} where
  abbrev pub Meets : (A → World E → Type 0) → (World E → Type 0) → Ended A × World E → Type 0
  Meets Q X (done a, w) = Q a w
  Meets Q X (raised e, w) = X w
  Meets Q X (unfinished, w) = ⊥

  -- From `P` the code returns with `Q`, or raises with `X`.
  pub record Triple (P : World E → Type 0) (m : Proc E A) (Q : A → World E → Type 0)
      (X : World E → Type 0) : Type 0 where
    pub at : (w : World E) → P w → Meets Q X (m w)

module _ {E A : Type 0} {Q : A → World E → Type 0} {X : World E → Type 0} where
  pub Triple-pure : (a : A) → Triple (Q a) (pure a) Q X
  unfolding pure
  Triple-pure a = record { at = λ w h. h }

  pub Triple-throw : (f : Failure) → Triple X (throw f) Q X
  unfolding throw
  Triple-throw f = record { at = λ w h. h }

  pub Triple-need :
      (P : World E → Type 0) (o : Option A)
      → ((w : World E) → P w → X w)
      → ((a : A) → o ≡ some a → (w : World E) → P w → Q a w)
      → Triple P (need o) Q X
  unfolding need
  Triple-need P none fails gives = record { at = λ w h. fails w h }
  Triple-need P (some a) fails gives = record { at = λ w h. gives a refl w h }

  pub Triple-if :
      (P : World E → Type 0) (b : Bool) (m n : Proc E A)
      → (b ≡ true → Triple P m Q X)
      → (b ≡ false → Triple P n Q X)
      → Triple P (if b then m else n) Q X
  Triple-if P true m n holds fails = holds refl
  Triple-if P false m n holds fails = fails refl

  pub Triple-strengthen :
      (P P' : World E → Type 0) (m : Proc E A)
      → ((w : World E) → P' w → P w)
      → Triple P m Q X
      → Triple P' m Q X
  Triple-strengthen P P' m weaker t = record { at = λ w h. t.at w (weaker w h) }

  -- The tables and the clock of the world stay as they are known.
  pub Triple-known :
      (P : World E → Type 0) (m : Proc E A)
      → ((w : World E) → P w → Triple P m Q X)
      → Triple P m Q X
  Triple-known P m t = record { at = λ w h. (t w h).at w h }

module _ {E A : Type 0} where
  Meets-weaken :
      (Q Q' : A → World E → Type 0) (X X' : World E → Type 0)
      → ((a : A) (w : World E) → Q a w → Q' a w)
      → ((w : World E) → X w → X' w)
      → (r : Ended A × World E) → Meets Q X r
      → Meets Q' X' r
  Meets-weaken Q Q' X X' q x (done a, w) h = q a w h
  Meets-weaken Q Q' X X' q x (raised e, w) h = x w h
  Meets-weaken Q Q' X X' q x (unfinished, w) h = elim h [ ]

  pub Triple-weaken :
      (P : World E → Type 0) (m : Proc E A) (Q Q' : A → World E → Type 0) (X X' : World E → Type 0)
      → ((a : A) (w : World E) → Q a w → Q' a w)
      → ((w : World E) → X w → X' w)
      → Triple P m Q X
      → Triple P m Q' X'
  Triple-weaken P m Q Q' X X' q x t = record {
    at = λ w h. Meets-weaken Q Q' X X' q x (m w) (t.at w h);
  }

module _ {E A B : Type 0} (Q : A → World E → Type 0) (R : B → World E → Type 0)
    (X : World E → Type 0) where
  and_then-Meets :
      (f : A → Proc E B) (r : Ended A × World E)
      → Meets Q X r
      → ((a : A) → Triple (Q a) (f a) R X)
      → Meets R X (and_then f r)
  and_then-Meets f (done a, w) h k = (k a).at w h
  and_then-Meets f (raised e, w) h k = h
  and_then-Meets f (unfinished, w) h k = elim h [ ]

module _ {E A B : Type 0} {P : World E → Type 0} {Q : A → World E → Type 0}
    {R : B → World E → Type 0} {X : World E → Type 0} where
  pub Triple-bind :
      (m : Proc E A) (f : A → Proc E B)
      → Triple P m Q X
      → ((a : A) → Triple (Q a) (f a) R X)
      → Triple P (m >>= f) R X
  unfolding ◌>>=◌
  Triple-bind m f t k = record { at = λ w h. and_then-Meets Q R X f (m w) (t.at w h) k }

module _ {E A : Type 0} (Q : A → World E → Type 0) (X Y : World E → Type 0) where
  handled-Meets :
      (h : Failure → Proc E A) (r : Ended A × World E)
      → Meets Q Y r
      → ((e : Failure) → Triple Y (h e) Q X)
      → Meets Q X (handled h r)
  handled-Meets h (done a, w) p k = p
  handled-Meets h (raised e, w) p k = (k e).at w p
  handled-Meets h (unfinished, w) p k = elim p [ ]

module _ {E A : Type 0} {P : World E → Type 0} {Q : A → World E → Type 0}
    {X Y : World E → Type 0} where
  pub Triple-catch :
      (m : Proc E A) (h : Failure → Proc E A)
      → Triple P m Q Y
      → ((e : Failure) → Triple Y (h e) Q X)
      → Triple P (catch m h) Q X
  unfolding catch
  Triple-catch m h t k = record { at = λ w p. handled-Meets Q X Y h (m w) (t.at w p) k }

module _ {E A : Type 0} (Q : A → World E → Type 0) (X : World E → Type 0) where
  restored-done :
      (a : A) (r : Ended (Unit {0}) × World E)
      → Meets (λ _. Q a) X r
      → Meets Q X (restored (done a) r)
  restored-done a (done _, w) h = h
  restored-done a (raised e, w) h = h
  restored-done a (unfinished, w) h = elim h [ ]

  restored-raised :
      (f : Failure) (r : Ended (Unit {0}) × World E)
      → Meets (λ _. X) X r
      → Meets Q X (restored (raised f) r)
  restored-raised f (done _, w) h = h
  restored-raised f (raised e, w) h = h
  restored-raised f (unfinished, w) h = elim h [ ]

  ended_with-Meets :
      (Q' : A → World E → Type 0) (Y : World E → Type 0) (last : Proc E (Unit {0}))
      (r : Ended A × World E)
      → Meets Q' Y r
      → ((a : A) → Triple (Q' a) last (λ _. Q a) X)
      → Triple Y last (λ _. X) X
      → Meets Q X (ended_with last r)
  ended_with-Meets Q' Y last (done a, w) h returns raises =
      restored-done a (last w) ((returns a).at w h)
  ended_with-Meets Q' Y last (raised e, w) h returns raises =
      restored-raised e (last w) (raises.at w h)
  ended_with-Meets Q' Y last (unfinished, w) h returns raises = elim h [ ]

module _ {E A : Type 0} {P : World E → Type 0} {Q Q' : A → World E → Type 0}
    {X Y : World E → Type 0} where
  pub Triple-finally :
      (m : Proc E A) (last : Proc E (Unit {0}))
      → Triple P m Q' Y
      → ((a : A) → Triple (Q' a) last (λ _. Q a) X)
      → Triple Y last (λ _. X) X
      → Triple P (finally m last) Q X
  unfolding finally
  Triple-finally m last t returns raises = record {
    at = λ w h. ended_with-Meets Q X Q' Y last (m w) (t.at w h) returns raises;
  }

module _ {E : Type 0} (e : Env) where
  committed-Meets :
      {A : Type 0} (Q : A → World E → Type 0) (X : World E → Type 0) (w : World E)
      (r : Result A × Db)
      → ((a : A) → r.0 ≡ ok a → Q a (record (moved e w) { db = r.1 }))
      → X (record (moved e w) { db = r.1 })
      → Meets Q X (committed e w r)
  committed-Meets Q X w (ok a, db) returns raises = returns a refl
  committed-Meets Q X w (err bad_input, db) returns raises = raises
  committed-Meets Q X w (err database, db) returns raises = raises

module _ {E : Type 0} (e : Env) {X : World E → Type 0} where
  pub Triple-ask :
      {A : Type 0} {Q : A → World E → Type 0} (P : World E → Type 0) (answer : ℕ → A)
      → ((w : World E) → P w → Q (answer w.moment) (moved e w))
      → Triple P (ask e answer) Q X
  unfolding ask
  Triple-ask P answer h = record { at = h }

  -- A transaction: from the tables that others leave it makes the tables `op` gives.
  pub Triple-call :
      {A : Type 0} {Q : A → World E → Type 0} (P : World E → Type 0) (op : Op A)
      → ((w : World E)
          → P w
          → ((a : A)
              → (op (e.clock w.moment) (meanwhile e w)).0 ≡ ok a
              → Q a (record (moved e w) { db = (op (e.clock w.moment) (meanwhile e w)).1 }))
            × X (record (moved e w) { db = (op (e.clock w.moment) (meanwhile e w)).1 }))
      → Triple P (call e op) Q X
  unfolding call
  Triple-call {Q = Q} P op h = record {
    at = λ w p.
        let both = h w p in
        committed-Meets e Q X w (op (e.clock w.moment) (meanwhile e w)) both.0 both.1;
  }

  pub Triple-sleep :
      {Q : Unit {0} → World E → Type 0} (P : World E → Type 0) (d : ℕ)
      → ((w : World E) → P w → Q tt (record (moved e w) { now = w.now + e.lapse w.moment + d }))
      → Triple P (sleep e d) Q X
  unfolding sleep
  Triple-sleep P d h = record { at = h }

module _ {E : Type 0} {X : World E → Type 0} where
  pub Triple-read_clock :
      {Q : ℕ → World E → Type 0} (P : World E → Type 0)
      → ((w : World E) → P w → Q w.now w)
      → Triple P read_clock Q X
  unfolding read_clock
  Triple-read_clock P h = record { at = h }

  pub Triple-tables :
      {Q : Db → World E → Type 0} (P : World E → Type 0)
      → ((w : World E) → P w → Q w.db w)
      → Triple P tables Q X
  unfolding tables
  Triple-tables P h = record { at = h }

  pub Triple-emit :
      {Q : Unit {0} → World E → Type 0} (P : World E → Type 0) (event : E)
      → ((w : World E) → P w → Q tt (record w { trace = event ∷ w.trace }))
      → Triple P (emit event) Q X
  unfolding emit
  Triple-emit P event h = record { at = h }

module _ {E A : Type 0} {Q : A → World E → Type 0} {X : World E → Type 0} where
  -- A value is returned where what is known is enough for it.
  pub Triple-return :
      (P : World E → Type 0) (a : A) → ((w : World E) → P w → Q a w) → Triple P (pure a) Q X
  unfolding pure
  Triple-return P a h = record { at = h }

  pub Triple-raise :
      (P : World E → Type 0) (f : Failure) → ((w : World E) → P w → X w) → Triple P (throw f) Q X
  unfolding throw
  Triple-raise P f h = record { at = h }

module _ {E A : Type 0} (T : ℕ → List E → Type 0) where
  ends-Meets :
      (r : Ended A × World E) → Ends T r → Meets (λ _ w. T w.now w.trace) (λ w. T w.now w.trace) r
  ends-Meets (done a, w) h = h.0
  ends-Meets (raised f, w) h = h.0
  ends-Meets (unfinished, w) h = h.1

  pub Total-Triple :
      (m : Proc E A)
      → Total T m
      → Triple (λ w. T w.now w.trace) m (λ _ w. T w.now w.trace) (λ w. T w.now w.trace)
  Total-Triple m t = record { at = λ w h. ends-Meets (m w) (t.at w h) }

  pub met-Ends :
      (r : Ended A × World E) → Meets (λ _ w. T w.now w.trace) (λ w. T w.now w.trace) r → Ends T r
  met-Ends (done a, w) h = (h, tt)
  met-Ends (raised f, w) h = (h, tt)
  met-Ends (unfinished, w) h = elim h [ ]

  pub Triple-Total :
      (m : Proc E A)
      → Triple (λ w. T w.now w.trace) m (λ _ w. T w.now w.trace) (λ w. T w.now w.trace)
      → Total T m
  Triple-Total m t = record { at = λ w h. met-Ends (m w) (t.at w h) }

module _ {E A B : Type 0} {T : ℕ → List E → Type 0} {R : B → World E → Type 0}
    {X : World E → Type 0} where
  -- First code that keeps what is known, then code that uses it.
  pub Triple-after :
      (m : Proc E A) (f : A → Proc E B)
      → Total T m
      → ((w : World E) → T w.now w.trace → X w)
      → ((a : A) → Triple (λ w. T w.now w.trace) (f a) R X)
      → Triple (λ w. T w.now w.trace) (m >>= f) R X
  Triple-after m f t raises k =
      Triple-bind m f
        (Triple-weaken _ m _ (λ _ w. T w.now w.trace) _ X (λ a w h. h) raises (Total-Triple T m t))
        k
