-- ===== src/Rules/Rows.antt =====
-- From the row to the table: a transaction that keeps the rules of the row that it changes keeps them
-- for every row.
use ktb4_15th_ai.Prelude.{
  ℕ, String, ◌≡◌, ◌⊎◌, refl, sym, subst, Bool, true, Option, none, some, List, [], ◌∷◌, arith, find,
  replace, Rows, Rows-refl, replace-Rows, All, find-All, replace-All, find-holds, ==→eq, Bool-cases,
  Option-cases, inl, inr, ◌∙◌,
}
use ktb4_15th_ai.Payload.{Result, ok, err, ◌>>◌}
use ktb4_15th_ai.Job.{Uuid, Time, Job}
use ktb4_15th_ai.Store.{Db, Clock, Op, checked, has_id, find_job, has_task, put_job, write, allowed}
use ktb4_15th_ai.JobState.Change.{
  Condition, Assignments, Diagnosis, change_applied, run_row, find_task, update, event_update,
  update_row, event_row, check_job_id, check_token, check_uuid, free_reason, lease_reason, mismatch,
  with_lease, with_event, touched,
}
use ktb4_15th_ai.Rules.{IsValid, Evolves, Sound}

pub Evolves-refl : (a : Job) → Evolves a a
Evolves-refl a = ground arith

pub Evolves-trans : (a b c : Job) → Evolves a b → Evolves b c → Evolves a c
Evolves-trans a b c p q = ground arith

-- The rows after a transaction: valid, and each as the row before may become.
abbrev pub Advances : List Job → List Job → Type 0
Advances before after = All IsValid after × Rows Evolves before after

pub Rows-trans :
    (xs ys zs : List Job) → Rows Evolves xs ys → Rows Evolves ys zs → Rows Evolves xs zs
Rows-trans [] ys zs p q = tt
Rows-trans (x ∷ xs) [] zs p q = absurd p
Rows-trans (x ∷ xs) (y ∷ ys) [] p q = absurd q
Rows-trans (x ∷ xs) (y ∷ ys) (z ∷ zs) p q =
    (Evolves-trans x y z p.0 q.0, Rows-trans xs ys zs p.1 q.1)

-- The row that is found by its id has that id.
pub find_job-id :
    (id : ℕ) (rows : List Job) {r : Job} → find_job id rows ≡ some r → r.fitting_job_id ≡ id
find_job-id id rows {r} e = ==→eq r.fitting_job_id id (find-holds (has_id id) rows e)

pub put-Advances :
    (id : ℕ) (rows : List Job) (r s : Job)
    → find_job id rows ≡ some r
    → All IsValid rows
    → IsValid s
    → Evolves r s
    → Advances rows (put_job s rows)
put-Advances id rows r s e v valid h =
    subst (λ k. Advances rows (replace (has_id k) s rows)) (sym (h.id ∙ find_job-id id rows e))
      (
        replace-All IsValid (has_id id) s rows v valid,
        replace-Rows Evolves Evolves-refl (has_id id) r s rows e h,
      )

-- A method that keeps the rules of the rows of jobs, whatever it returns or raises.
pub record Lawful {A : Type 0} (m : Op A) : Type 0 where
  pub at : (c : Clock) (db : Db) → All IsValid db.jobs → Advances db.jobs (m c db).1.jobs

pub Advances-refl : (rows : List Job) → All IsValid rows → Advances rows rows
Advances-refl rows v = (v, Rows-refl Evolves Evolves-refl rows)

pub write-Advances :
    {A : Type 0} (id : ℕ) (a : A) (r s : Job) (before db : Db)
    → find_job id db.jobs ≡ some r
    → db.jobs ≡ before.jobs
    → All IsValid db.jobs
    → IsValid s
    → Evolves r s
    → Advances before.jobs (write before a s db).1.jobs
unfolding write
write-Advances id a r s before db e same v valid h = elim (Bool-cases (allowed s db.jobs)) [
  | inl fits ↦ rw (fits, ← same) (put-Advances id db.jobs r s e v valid h)
  | inr breaks ↦ rw (breaks, ← same) (Advances-refl db.jobs v)
]

-- Where the checks of the arguments fail, nothing is changed.
pub checked-Lawful :
    {A B : Type 0} (m : Result A) (f : A → Op B)
    → ((a : A) → m ≡ ok a → Lawful (f a))
    → Lawful (checked m f)
checked-Lawful (ok a) f h = h a refl
checked-Lawful (err e) f h = record { at = λ c db v. Advances-refl db.jobs v }

-- One `UPDATE` of the row with an id.
pub run_row-Advances :
    (id : ℕ) (condition : Condition) (set : Assignments) (reason : Diagnosis) (c : Clock) (db : Db)
    → ((now : Time) (r : Job)
        → r.fitting_job_id ≡ id
        → IsValid r
        → condition now r ≡ true
        → IsValid (set now r) × Evolves r (set now r))
    → All IsValid db.jobs
    → Advances db.jobs (run_row condition set reason (find_job id db.jobs) c db).1.jobs
unfolding run_row
run_row-Advances id condition set reason c db sound v = elim (Option-cases (find_job id db.jobs)) [
  | inl missing ↦ rw missing (Advances-refl db.jobs v)
  | inr (r, e) ↦ rw e (elim (Bool-cases (condition c.now r)) [
    | inl holds ↦ rw holds (
        let (valid, h) =
          sound c.now r (find_job-id id db.jobs e) (find-All IsValid (has_id id) db.jobs v e)
            holds in
        write-Advances id (change_applied (set c.now r)) r (set c.now r) db db e refl v valid h)
    | inr fails ↦ rw fails (Advances-refl db.jobs v)
  ])
]

-- A row that a task names is found by its id too.
pub find_task-cases :
    (task : ℕ) (rows : List Job)
    → (find_task task rows ≡ none) ⊎ ((id : ℕ) × (find_task task rows ≡ find_job id rows))
find_task-cases task rows = elim (Option-cases (find (has_task task) rows)) [
  | inl missing ↦ inl (rw missing refl)
  | inr (r, e) ↦ inr (r.fitting_job_id, rw e refl)
]

module _ (id : ℕ) (token : String) (set : Assignments) (condition : Condition) (terminal_ok : Bool)
    (diagnose : Diagnosis) where
  -- A method that wants a lease.
  pub update-Lawful :
      ((now : Time) (r : Job)
        → r.fitting_job_id ≡ id
        → IsValid r
        → with_lease token condition now r ≡ true
        → IsValid (touched set now r) × Evolves r (touched set now r))
      → Lawful (update id token set condition terminal_ok diagnose)
  unfolding update
  update-Lawful sound =
      checked-Lawful (do check_job_id id; check_token token)
        (λ _. update_row id token set condition terminal_ok diagnose)
        λ _ e. record {
          at = λ c db v.
              run_row-Advances id (with_lease token condition) (touched set)
                (lease_reason token terminal_ok diagnose) c db sound v;
        }

-- The row that a task names, changed as `Sound` says.
pub run_task-Advances :
    (task : Uuid) (condition : Condition) (set : Assignments) (reason : Diagnosis) (c : Clock)
    (db : Db)
    → Sound condition set
    → All IsValid db.jobs
    → Advances db.jobs (run_row condition set reason (find_task task db.jobs) c db).1.jobs
unfolding run_row
run_task-Advances task condition set reason c db sound v = elim (find_task-cases task db.jobs) [
  | inl missing ↦ rw missing (Advances-refl db.jobs v)
  | inr (id, e) ↦ rw e (run_row-Advances id condition set reason c db (λ now r _. sound now r) v)
]

-- A method that a report of Runware calls.
pub event_update-Lawful :
    (task : Option Uuid) (set : Assignments) (condition : Condition)
    → ((task : Uuid) → Sound (with_event task condition) (touched set))
    → Lawful (event_update task set condition)
unfolding event_update
event_update-Lawful task set condition sound =
    checked-Lawful (check_uuid task) (event_row set condition) λ task e. record {
      at = λ c db v.
          run_task-Advances task (with_event task condition) (touched set) (free_reason mismatch) c
            db (sound task) v;
    }
