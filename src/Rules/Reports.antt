-- ===== src/Rules/Reports.antt =====
-- The records of non-acceptance keep the rules of the row.
use ktb4_15th_ai.Prelude.{
  ℕ, String, ◌≡◌, refl, Bool, true, Option, some, none, arith, inl, inr, Bool-cases, Option-cases,
  All, is_some, find-All, is_none, ◌||◌,
}
use ktb4_15th_ai.S3Key.{codes}
use ktb4_15th_ai.Texts.{is_code}
use ktb4_15th_ai.Payload.{ℤ}
use ktb4_15th_ai.Job.{Uuid, Time, Job, Attempt, NotAcceptedSource}
use ktb4_15th_ai.Store.{Db, Clock, find_job, has_id}
use ktb4_15th_ai.JobState.NotAccepted.{
  Verdict, repeated, mismatched, contradicting, fresh, judge, next_row, retry_time, record_fresh,
  act_on, judge_attempt, judge_started, judge_row, record_not_accepted, is_scheduled, hold_back,
  contradict_row, contradict, record_attempt_contradiction, report_row, check_report,
  contradict_task, check_reason,
}
use ktb4_15th_ai.Rules.{IsValid, Evolves}
use ktb4_15th_ai.Rules.Rows.{
  Advances, Advances-refl, write-Advances, find_task-cases, Lawful, checked-Lawful,
}

next_row-Sound :
    (retry_at : Option Time) (n : ℕ) (now : Time) (r : Job) (a : Attempt)
    → IsValid r
    → judge r a ≡ fresh
    → IsValid (next_row retry_at n now r) × Evolves r (next_row retry_at n now r)
unfolding judge
next_row-Sound retry_at n now r a v h = (ground arith, ground arith)

hold_back-Sound :
    (now : Time) (r : Job)
    → IsValid r
    → is_scheduled r ≡ true
    → IsValid (hold_back now r) × Evolves r (hold_back now r)
hold_back-Sound now r v h = (ground arith, ground arith)

module _ (task : Uuid) (code : String) (source : NotAcceptedSource) (retry_after : Option ℕ)
    (unrepresentable : Bool) (before : Db) (id : ℕ) (job : Job)
    (e : find_job id before.jobs ≡ some job) (v : All IsValid before.jobs)
    (valid : IsValid job) where
  record_fresh-Advances :
      (a : Attempt) (c : Clock) (db : Db)
      → db.jobs ≡ before.jobs
      → judge job a ≡ fresh
      → Advances before.jobs
          (record_fresh task code source retry_after unrepresentable before job a c db).1.jobs
  unfolding record_fresh
  record_fresh-Advances a c db same h =
      let retry_at = retry_time c a.attempt_no retry_after unrepresentable in
      let (sound, step) = next_row-Sound retry_at a.attempt_no c.now job a valid h in
      elim (Bool-cases (is_code (codes code))) [
        | inl fits ↦
            rw fits (write-Advances id _ job _ before _ (rw same e) same (rw same v) sound step)
        | inr breaks ↦ rw breaks (Advances-refl before.jobs v)
      ]

  act_on-Advances :
      (a : Attempt) (verdict : Verdict) (c : Clock) (db : Db)
      → db.jobs ≡ before.jobs
      → judge job a ≡ verdict
      → Advances before.jobs
          (act_on task code source retry_after unrepresentable before verdict job a c db).1.jobs
  unfolding act_on
  act_on-Advances a repeated c db same h = rw same (Advances-refl before.jobs v)
  act_on-Advances a mismatched c db same h = rw same (Advances-refl before.jobs v)
  act_on-Advances a contradicting c db same h = rw same (Advances-refl before.jobs v)
  act_on-Advances a fresh c db same h = record_fresh-Advances a c db same h

  judge_attempt-Advances :
      (a : Option Attempt) (c : Clock) (db : Db)
      → db.jobs ≡ before.jobs
      → Advances before.jobs
          (judge_attempt task code source retry_after unrepresentable before job a c db).1.jobs
  unfolding judge_attempt
  judge_attempt-Advances none c db same = rw same (Advances-refl before.jobs v)
  judge_attempt-Advances (some a) c db same = act_on-Advances a (judge job a) c db same refl

  judge_started-Advances :
      (started : Option Time) (c : Clock)
      → Advances before.jobs
          (judge_started task code source retry_after unrepresentable before job started c
            before).1.jobs
  unfolding judge_started
  judge_started-Advances none c = Advances-refl before.jobs v
  judge_started-Advances (some started) c = judge_attempt-Advances _ c _ refl

judge_row-Advances :
    (task : Uuid) (code : String) (source : NotAcceptedSource) (retry_after : Option ℕ)
    (unrepresentable : Bool) (c : Clock) (db : Db)
    → All IsValid db.jobs
    → Advances db.jobs (report_row code source unrepresentable (task, retry_after) c db).1.jobs
unfolding judge_row
judge_row-Advances task code source retry_after unrepresentable c db v =
    elim (find_task-cases task db.jobs) [
      | inl missing ↦ rw missing (Advances-refl db.jobs v)
      | inr (id, same) ↦ elim (Option-cases (find_job id db.jobs)) [
        | inl missing ↦ rw (same, missing) (Advances-refl db.jobs v)
        | inr (job, e) ↦
            rw (same, e)
              (judge_started-Advances task code source retry_after unrepresentable db id job e v
                (find-All IsValid (has_id id) db.jobs v e) job.pruna_submit_started_at c)
      ]
    ]

pub record_not_accepted-Lawful :
    (task : Option Uuid) (code : String) (source : NotAcceptedSource) (wait : Option ℤ)
    (unrepresentable : Bool)
    → Lawful (record_not_accepted task code source wait unrepresentable)
unfolding record_not_accepted
record_not_accepted-Lawful task code source wait unrepresentable =
    checked-Lawful (check_report task code wait) (report_row code source unrepresentable)
      λ a e. record { at = judge_row-Advances a.0 code source a.1 unrepresentable }

contradict_row-Advances :
    (id : ℕ) (before : Db) (c : Clock) (db : Db)
    → db.jobs ≡ before.jobs
    → All IsValid before.jobs
    → Advances before.jobs (contradict_row before (find_job id db.jobs) c db).1.jobs
unfolding contradict_row
contradict_row-Advances id before c db same v = elim (Option-cases (find_job id db.jobs)) [
  | inl missing ↦ rw (missing, same) (Advances-refl before.jobs v)
  | inr (r, e) ↦ elim (Bool-cases (is_scheduled r)) [
    | inl waits ↦
        let valid = find-All IsValid (has_id id) db.jobs (rw same v) e in
        let (sound, step) = hold_back-Sound c.now r valid waits in
        rw (e, waits)
          (write-Advances id true r (hold_back c.now r) before db e same (rw same v) sound step)
    | inr other ↦ rw (e, other, same) (Advances-refl before.jobs v)
  ]
]

contradict-Advances :
    (task : Uuid) (reason : String) (a : Option Attempt) (c : Clock) (db : Db)
    → All IsValid db.jobs
    → Advances db.jobs (contradict task reason a c db).1.jobs
unfolding contradict
contradict-Advances task reason none c db v = Advances-refl db.jobs v
contradict-Advances task reason (some a) c db v = elim (Bool-cases (is_none a.not_accepted_at)) [
  | inl open_attempt ↦ rw open_attempt (Advances-refl db.jobs v)
  | inr recorded ↦ elim (Bool-cases (is_some a.conflict_reason || is_code (codes reason))) [
    | inl fits ↦ rw (recorded, fits) (contradict_row-Advances a.fitting_job_id db c _ refl v)
    | inr breaks ↦ rw (recorded, breaks) (Advances-refl db.jobs v)
  ]
]

pub record_attempt_contradiction-Lawful :
    (task : Option Uuid) (reason : String) → Lawful (record_attempt_contradiction task reason)
unfolding record_attempt_contradiction
record_attempt_contradiction-Lawful task reason =
    checked-Lawful (check_reason task reason) (contradict_task reason)
      λ task e. record { at = λ c db. contradict-Advances task reason _ c db }
