-- ===== src/History/Results.antt =====
-- What stays of a job over a history of transactions: its row, its progress, its result.
use ktb4_15th_ai.Prelude.{
  ℕ, ◌≡◌, subst, Bool, true, some, List, [], ◌∷◌, arith, All, Rows, Bool-cases, inl, inr, ◌==◌,
}
use ktb4_15th_ai.Job.{Job, is_terminal}
use ktb4_15th_ai.Store.{Db, Clock, find_job}
use ktb4_15th_ai.Limiter.Slot.{Limits}
use ktb4_15th_ai.Rules.{IsValid, Evolves}
use ktb4_15th_ai.History.{Command, run}
use ktb4_15th_ai.History.Rules.{run-Advances}

-- A job and the row of it that was found later.
pub record Became (id : ℕ) (a : Job) (rows : List Job) : Type 0 where
  pub row : Job
  pub found : find_job id rows ≡ some row
  pub evolves : Evolves a row

-- The row that is found by an id is found after rows have evolved.
pub Rows-Became :
    (id : ℕ) (before after : List Job) {a : Job}
    → Rows Evolves before after
    → find_job id before ≡ some a
    → Became id a after
Rows-Became id [] after h e = cc
Rows-Became id (r ∷ before) [] h e = absurd h
Rows-Became id (r ∷ before) (s ∷ after) {a} h e = elim (Bool-cases (r.fitting_job_id == id)) [
  | inl here ↦ record { row = s; found = ground (arith, h.0.id); evolves = ground (arith, h.0) }
  | inr there ↦
      let later = Rows-Became id before after {a = a} h.1 (ground (arith, e)) in
      record {
        row = later.row;
        found = ground (arith, h.0.id, later.found);
        evolves = later.evolves;
      }
]

module _ (limits : Limits) (is_printable : ℕ → Bool) where
  -- If the rows of a table keep the rules of `IsValid`, they do so after every history of transactions.
  pub run-IsValid :
      (history : List (Command × Clock)) (db : Db)
      → All IsValid db.jobs
      → All IsValid (run limits is_printable history db).jobs
  run-IsValid history db v = (run-Advances limits is_printable history db v).0

  -- If the rows of a table keep the rules, the row of a job is there after every history, and has changed
  -- only as `Evolves` says.
  pub run-Became :
      (id : ℕ) (history : List (Command × Clock)) (db : Db) (r : Job)
      → All IsValid db.jobs
      → find_job id db.jobs ≡ some r
      → Became id r (run limits is_printable history db).jobs
  run-Became id history db r v e =
      Rows-Became id db.jobs _ (run-Advances limits is_printable history db v).1 e

  -- If the rows of a table keep the rules, the row of a job that has ended is the same after every
  -- history.
  pub run-ended :
      (id : ℕ) (history : List (Command × Clock)) (db : Db) (r : Job)
      → All IsValid db.jobs
      → find_job id db.jobs ≡ some r
      → is_terminal r.status ≡ true
      → find_job id (run limits is_printable history db).jobs ≡ some r
  run-ended id history db r v e ended =
      let became = run-Became id history db r v e in
      subst (λ s. find_job id (run limits is_printable history db).jobs ≡ some s)
        (became.evolves.frozen ended) became.found
