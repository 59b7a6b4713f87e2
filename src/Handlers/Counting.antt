-- ===== src/Handlers/Counting.antt =====
-- Calls outside against a column of the job's row that counts them before they are made.
use ktb4_15th_ai.Prelude.{
  ℕ, ◌+◌, ◌≤◌, ◌≡◌, refl, Bool, true, false, List, arith, All, count, Bool-cases, Option-cases, inl,
  inr, Rows, ap, find-All, if◌then◌else◌,
}
use ktb4_15th_ai.Payload.{Result, ok, err, bad_input, database}
use ktb4_15th_ai.Job.{Job}
use ktb4_15th_ai.Store.{Db, Op, Clock, find_job, has_id}
use ktb4_15th_ai.Rules.{IsValid, Evolves}
use ktb4_15th_ai.Rules.Rows.{Lawful}
use ktb4_15th_ai.History.{told}
use ktb4_15th_ai.History.Rules.{run-Advances}
use ktb4_15th_ai.History.Results.{Rows-Became}
use ktb4_15th_ai.History.Claims.{counted, count_in, Counts}
use ktb4_15th_ai.Process.{
  Failure, Ended, done, raised, unfinished, Env, World, pure, throw, exhausted, tables, finally,
  and_then, ◌>>=◌, emit, moved, ask, sleep, committed, meanwhile, call,
}
use ktb4_15th_ai.Process.Keeps.{Keeps, committed-Keeps, ended_with-Keeps}
use ktb4_15th_ai.Handlers.{Event, Run}

-- A column that counts calls, which events are such calls, and how many were counted at the start.
pub record Meter : Type 0 where
  pub id : ℕ
  pub is_call : Event → Bool
  pub start : ℕ
  pub column : Job → ℕ
  pub grows : (a b : Job) → Evolves a b → column a ≤ column b

column-le :
    (t : Meter) (before after : List Job)
    → Rows Evolves before after
    → counted t.column t.id before ≤ counted t.column t.id after
column-le t before after h = elim (Option-cases (find_job t.id before)) [
  | inl missing ↦ rw missing (omega arith)
  | inr (r, e) ↦
      let became = Rows-Became t.id before after h e in
      rw (e, became.found) (t.grows r became.row became.evolves)
]

module _ (t : Meter) where
  abbrev pub calls : List Event → ℕ
  calls trace = t.start + count t.is_call trace

  -- The rows keep the rules, and the column counts the calls that were made and `n` more.
  abbrev pub Paid : ℕ → World Event → Type 0
  Paid n w = All IsValid w.db.jobs × (n + calls w.trace ≤ counted t.column t.id w.db.jobs)

  -- The rules bound the column, and so the calls.
  pub Paid-le :
      (limit : ℕ) (w : World Event)
      → ((r : Job) → IsValid r → t.column r ≤ limit)
      → Paid 0 w
      → calls w.trace ≤ limit
  Paid-le limit w bounded h = elim (Option-cases (find_job t.id w.db.jobs)) [
    | inl missing ↦ omega (arith, h.1, ap (count_in t.column) missing)
    | inr (r, e) ↦
        let top = bounded r (find-All IsValid (has_id t.id) w.db.jobs h.0 e) in
        omega (arith, h.1, top, ap (count_in t.column) e)
  ]

  -- What code leaves of `Paid`, by what it returns.
  abbrev pub Left : {A : Type 0} → (A → ℕ) → Ended A × World Event → Type 0
  Left slack (done a, w) = Paid (slack a) w
  Left slack (raised f, w) = Paid 0 w
  Left slack (unfinished, w) = Paid 0 w

  pub record Costs {A : Type 0} (n : ℕ) (slack : A → ℕ) (m : Run A) : Type 0 where
    pub at : (w : World Event) → Paid n w → Left slack (m w)

  Left-Paid : {A : Type 0} (r : Ended A × World Event) → Left (λ _. 0) r → Paid 0 r.1
  Left-Paid (done a, w) h = h
  Left-Paid (raised f, w) h = h
  Left-Paid (unfinished, w) h = h

  Paid-Left : {A : Type 0} (r : Ended A × World Event) → Paid 0 r.1 → Left (λ _. 0) r
  Paid-Left (done a, w) h = h
  Paid-Left (raised f, w) h = h
  Paid-Left (unfinished, w) h = h

  pub Costs-Keeps : {A : Type 0} (m : Run A) → Costs 0 (λ _. 0) m → Keeps (Paid 0) m
  Costs-Keeps m c = record { at = λ w h. Left-Paid (m w) (c.at w h) }

  -- Code that makes no such call needs nothing, and may leave a claim unused.
  pub Keeps-Costs : {A : Type 0} (n : ℕ) (m : Run A) → Keeps (Paid 0) m → Costs n (λ _. 0) m
  Keeps-Costs n m k = record { at = λ w h. Paid-Left (m w) (k.at w (h.0, omega (arith, h.1))) }

  and_then-Costs :
      {A B : Type 0} (slack : A → ℕ) (rest : B → ℕ) (f : A → Run B) (r : Ended A × World Event)
      → Left slack r
      → ((a : A) → Costs (slack a) rest (f a))
      → Left rest (and_then f r)
  and_then-Costs slack rest f (done a, w) h k = (k a).at w h
  and_then-Costs slack rest f (raised e, w) h k = h
  and_then-Costs slack rest f (unfinished, w) h k = h

  pub Costs-bind :
      {A B : Type 0} (n : ℕ) (slack : A → ℕ) (rest : B → ℕ) (m : Run A) (f : A → Run B)
      → Costs n slack m
      → ((a : A) → Costs (slack a) rest (f a))
      → Costs n rest (m >>= f)
  unfolding ◌>>=◌
  Costs-bind n slack rest m f c k = record {
    at = λ w h. and_then-Costs slack rest f (m w) (c.at w h) k;
  }

  pub Costs-pure : {A : Type 0} (slack : A → ℕ) (a : A) → Costs (slack a) slack (pure a)
  unfolding pure
  Costs-pure slack a = record { at = λ w h. h }

  pub Costs-throw : {A : Type 0} (slack : A → ℕ) (f : Failure) → Costs 0 slack (throw f)
  unfolding throw
  Costs-throw slack f = record { at = λ w h. h }

  pub Costs-exhausted : {A : Type 0} (slack : A → ℕ) → Costs 0 slack exhausted
  unfolding exhausted
  Costs-exhausted slack = record { at = λ w h. h }

  pub Costs-after :
      {A B : Type 0} (rest : B → ℕ) (m : Run A) (f : A → Run B)
      → Keeps (Paid 0) m
      → ((a : A) → Costs 0 rest (f a))
      → Costs 0 rest (m >>= f)
  Costs-after rest m f k c = Costs-bind 0 (λ _. 0) rest m f (Keeps-Costs 0 m k) c

  -- What was claimed before is not needed.
  pub Costs-drop :
      {A : Type 0} (n : ℕ) (slack : A → ℕ) (m : Run A) → Costs 0 slack m → Costs n slack m
  Costs-drop n slack m c = record { at = λ w h. c.at w (h.0, omega (arith, h.1)) }

  pub Costs-if :
      {A : Type 0} (n : ℕ) (slack : A → ℕ) (b : Bool) (m k : Run A)
      → (b ≡ true → Costs n slack m)
      → (b ≡ false → Costs n slack k)
      → Costs n slack (if b then m else k)
  Costs-if n slack true m k cm ck = cm refl
  Costs-if n slack false m k cm ck = ck refl

  Left-same :
      {A : Type 0} (rest : A → ℕ) (r : Ended A × World Event)
      → ((a : A) → rest a ≡ 0)
      → Left (λ _. 0) r
      → Left rest r
  Left-same rest (done a, w) same h = (h.0, omega (arith, h.1, same a))
  Left-same rest (raised f, w) same h = h
  Left-same rest (unfinished, w) same h = h

  pub Costs-same :
      {A : Type 0} (n : ℕ) (rest : A → ℕ) (m : Run A)
      → ((a : A) → rest a ≡ 0)
      → Costs n (λ _. 0) m
      → Costs n rest m
  Costs-same n rest m same c = record { at = λ w h. Left-same rest (m w) same (c.at w h) }

  -- The tables may be looked at before a call.
  pub Costs-tables : (n : ℕ) → Costs n (λ _. n) tables
  unfolding tables
  Costs-tables n = record { at = λ w h. h }

  pub Costs-finally :
      {A : Type 0} (n : ℕ) (m : Run A) (last : Run (Unit {0}))
      → Costs n (λ _. 0) m
      → Keeps (Paid 0) last
      → Costs n (λ _. 0) (finally m last)
  unfolding finally
  Costs-finally n m last c k = record {
    at = λ w h.
        Paid-Left (finally m last w)
          (ended_with-Keeps (Paid 0) last (m w) (Left-Paid (m w) (c.at w h)) k);
  }

  pub Costs-both :
      {A : Type 0} (n : ℕ) (slack : A → ℕ) (b : Bool) (m k : Run A)
      → Costs n slack m
      → Costs n slack k
      → Costs n slack (if b then m else k)
  Costs-both n slack true m k cm ck = cm
  Costs-both n slack false m k cm ck = ck

  -- A call uses up what was claimed for it.
  pub emit-Costs : (event : Event) → Costs 1 (λ _. 0) (emit event)
  unfolding emit
  emit-Costs event = record { at = λ w h. (h.0, ground (arith, h.1)) }

  pub emit-Keeps : (event : Event) → t.is_call event ≡ false → Keeps (Paid 0) (emit event)
  unfolding emit
  emit-Keeps event other = record { at = λ w h. (h.0, ground (arith, h.1, other)) }

  module _ (e : Env) where
    pub ask-Keeps : {A : Type 0} (answer : ℕ → A) → Keeps (Paid 0) (ask e answer)
    unfolding ask
    ask-Keeps answer = record { at = λ w h. h }

    pub sleep-Keeps : (d : ℕ) → Keeps (Paid 0) (sleep e d)
    unfolding sleep
    sleep-Keeps d = record { at = λ w h. h }

    -- What others do keeps the rules and takes no count back.
    meanwhile-Paid :
        (n : ℕ) (w : World Event)
        → Paid n w
        → All IsValid (meanwhile e w).jobs
          × (n + calls w.trace ≤ counted t.column t.id (meanwhile e w).jobs)
    unfolding meanwhile
    meanwhile-Paid n w h =
        let others = run-Advances e.limits e.is_printable (e.others w.moment) w.db h.0 in
        let grown = column-le t w.db.jobs _ others.1 in (others.0, omega (arith, h.1, grown))

    call-Paid :
        {A : Type 0} (op : Op A)
        → Lawful op
        → (n : ℕ) (w : World Event) → Paid n w
        → Paid n (record (moved e w) { db = (op (e.clock w.moment) (meanwhile e w)).1 })
    call-Paid op lawful n w h =
        let (valid, paid) = meanwhile-Paid n w h in
        let after = lawful.at (e.clock w.moment) (meanwhile e w) valid in
        let grown = column-le t (meanwhile e w).jobs _ after.1 in
        (after.0, omega (arith, paid, grown))

    pub call-Keeps : {A : Type 0} (op : Op A) → Lawful op → Keeps (Paid 0) (call e op)
    unfolding call
    call-Keeps op lawful = record {
      at = λ w h.
          committed-Keeps (Paid 0) e w (op (e.clock w.moment) (meanwhile e w))
            (call-Paid op lawful 0 w h);
    }

    claimed-Left :
        {A : Type 0} (op : Op A) (reported : A → Bool) (w : World Event) (r : Result A × Db)
        → Paid 0 (record (moved e w) { db = r.1 })
        → ((told reported r).0 ≡ true
            → 1 + calls w.trace ≤ counted t.column t.id (told reported r).1.jobs)
        → Left (λ a. if reported a then 1 else 0) (committed e w r)
    claimed-Left op reported w (ok a, db) h paid = elim (Bool-cases (reported a)) [
      | inl did ↦ rw did (h.0, paid did)
      | inr did_not ↦ rw did_not h
    ]
    claimed-Left op reported w (err bad_input, db) h paid = h
    claimed-Left op reported w (err database, db) h paid = h

    -- A claim that reports a change pays for one call.
    pub claim-Costs :
        {A : Type 0} (op : Op A) (reported : A → Bool)
        → Lawful op
        → ((c : Clock) (db : Db)
            → Counts t.column t.id (counted t.column t.id db.jobs) (told reported (op c db)))
        → Costs 0 (λ a. if reported a then 1 else 0) (call e op)
    unfolding call
    claim-Costs op reported lawful counts = record {
      at = λ w h.
          let before = meanwhile-Paid 0 w h in
          let more = counts (e.clock w.moment) (meanwhile e w) in
          claimed-Left op reported w (op (e.clock w.moment) (meanwhile e w))
            (call-Paid op lawful 0 w h) λ did. omega (arith, before.1, more did);
    }

pub ruleset costs_rules = (Costs-both, Costs-after, Costs-throw, Costs-exhausted)
