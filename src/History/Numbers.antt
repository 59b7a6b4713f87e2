-- ===== src/History/Numbers.antt =====
-- At most four calls are recorded for a job, over any history of transactions.
use ktb4_15th_ai.Prelude.{
  ℕ, ◌≤◌, ◌≡◌, refl, sym, subst, String, Bool, false, ◌||◌, Option, none, some, List, [], ◌∷◌,
  arith, any, count, find, amend, coalesce, is_some, is_none, Bool-cases, inl, inr,
}
use ktb4_15th_ai.Payload.{ℤ, pos, negsuc, ◌>>◌}
use ktb4_15th_ai.Job.{Uuid, Time, Job, Attempt, NotAcceptedSource}
use ktb4_15th_ai.Store.{Db, Clock, find_job, write}
use ktb4_15th_ai.JobState.Change.{check_job_id, find_task}
use ktb4_15th_ai.JobState.NotAccepted
use ktb4_15th_ai.JobState.NotAccepted.{
  Verdict, repeated, mismatched, contradicting, fresh, of_task, of_job, ensure_attempt, judge,
  mark_conflict, mark_not_accepted, new_attempt, retry_time,
}
use ktb4_15th_ai.S3Key.{codes}
use ktb4_15th_ai.Texts.{is_code}
use ktb4_15th_ai.Limiter.Slot.{Limits}
use ktb4_15th_ai.Limiter.Release
use ktb4_15th_ai.Limiter.Release.{optional_uuid}
use ktb4_15th_ai.History.{
  Command, exec, run, begin_submission, begin_retry_submission, begin_fallback, finish_send,
  defer_sends, hold_sends, release_in_flight, cancel_unsent, record_not_accepted,
  record_attempt_contradiction,
}
use ktb4_15th_ai.History.Rest.{exec-SameRest}
use ktb4_15th_ai.History.Attempts.{
  Numbered, Numbered-le, numbered, Keeps, checked-Keeps, told-Keeps, amend-Numbered,
  append-Numbered, begin_submission-Keeps, begin_retry_submission-Keeps, begin_fallback-Keeps,
  cancel_unsent-Keeps,
}

mark_conflict-Numbered :
    (task : Uuid) (why : String) (now : Time) (rows : List Attempt)
    → Numbered rows
    → Numbered (mark_conflict task why now rows)
mark_conflict-Numbered task why now rows n =
    amend-Numbered (of_task task)
      (λ a. record a {
        conflict_reason = coalesce a.conflict_reason (some why);
        conflict_at = coalesce a.conflict_at (some now);
      })
      rows (λ a. refl) (λ a. refl) n

-- A job without attempts has none with a number.
none_numbered :
    (id n : ℕ) (rows : List Attempt)
    → any (of_job id) rows ≡ false
    → any (numbered id n) rows ≡ false
none_numbered id n [] h = refl
none_numbered id n (a ∷ rows) h = ground (arith, none_numbered id n rows)

ensure_attempt-Numbered :
    (id : ℕ) (task : Uuid) (started : Time) (rows : List Attempt)
    → Numbered rows
    → Numbered (ensure_attempt id task started rows)
ensure_attempt-Numbered id task started rows n =
    elim (Bool-cases (any (of_job id) rows || any (of_task task) rows)) [
      | inl there ↦ rw there n
      | inr missing ↦ rw missing (
          append-Numbered (new_attempt id 1 task started) rows (omega arith)
            (none_numbered id 1 rows (ground (arith, missing))) n)
    ]

module _ (task : Uuid) (code : String) (source : NotAcceptedSource) (retry_after : Option ℕ)
    (unrepresentable : Bool) (before : Db) (c : Clock) where
  record_fresh-holds :
      (job : Job) (a : Attempt) (db : Db) (P : List Attempt → Type 0)
      → P before.attempts
      → P (
          amend
            (of_task task)
            (mark_not_accepted code source
              (retry_time c a.attempt_no retry_after unrepresentable)
              a.attempt_no
              c.now)
            db.attempts)
      → P
          (NotAccepted.record_fresh task code source retry_after unrepresentable before job a c
            db).1.attempts
  unfolding NotAccepted.record_fresh write
  record_fresh-holds job a db P h k = ground (arith, h, k)

  record_fresh-Keeps :
      (job : Job) (a : Attempt) (db : Db)
      → (Numbered before.attempts → Numbered db.attempts)
      → Keeps before
          (NotAccepted.record_fresh task code source retry_after unrepresentable before job a c db)
  unfolding NotAccepted.record_fresh
  record_fresh-Keeps job a db h n = record_fresh-holds job a db Numbered n (
      amend-Numbered (of_task task)
        (mark_not_accepted code source (retry_time c a.attempt_no retry_after unrepresentable)
          a.attempt_no c.now)
        db.attempts (λ a. refl) (λ a. refl) (h n))

  act_on-Keeps :
      (v : Verdict) (job : Job) (a : Attempt) (db : Db)
      → (Numbered before.attempts → Numbered db.attempts)
      → Keeps before
          (NotAccepted.act_on task code source retry_after unrepresentable before v job a c db)
  unfolding NotAccepted.act_on
  act_on-Keeps repeated job a db h = h
  act_on-Keeps mismatched job a db h = h
  act_on-Keeps contradicting job a db h =
      λ n. mark_conflict-Numbered task "not_accepted_after_progress" c.now db.attempts (h n)
  act_on-Keeps fresh job a db h = record_fresh-Keeps job a db h

  judge_attempt-Keeps :
      (job : Job) (a : Option Attempt) (db : Db)
      → (Numbered before.attempts → Numbered db.attempts)
      → Keeps before
          (NotAccepted.judge_attempt task code source retry_after unrepresentable before job a c db)
  unfolding NotAccepted.judge_attempt
  judge_attempt-Keeps job none db h = h
  judge_attempt-Keeps job (some a) db h = act_on-Keeps (judge job a) job a db h

  judge_started-Keeps :
      (job : Job) (started : Option Time)
      → Keeps before (
          NotAccepted.judge_started task code source retry_after unrepresentable before job started
            c before)
  unfolding NotAccepted.judge_started
  judge_started-Keeps job none = λ n. n
  judge_started-Keeps job (some started) =
      judge_attempt-Keeps job
        (find (of_task task) (ensure_attempt job.fitting_job_id task started before.attempts)) _
        λ n. ensure_attempt-Numbered job.fitting_job_id task started before.attempts n

  judge_row-Keeps :
      (job : Option Job)
      → Keeps before
          (NotAccepted.judge_row task code source retry_after unrepresentable before job c before)
  unfolding NotAccepted.judge_row
  judge_row-Keeps none = λ n. n
  judge_row-Keeps (some job) = judge_started-Keeps job job.pruna_submit_started_at

module _ (c : Clock) (db : Db) where
  record_not_accepted-Keeps :
      (task : Option Uuid) (code : String) (source : NotAcceptedSource) (wait : Option ℤ)
      (unrepresentable : Bool)
      → Keeps db (NotAccepted.record_not_accepted task code source wait unrepresentable c db)
  unfolding NotAccepted.record_not_accepted
  record_not_accepted-Keeps task code source wait unrepresentable =
      checked-Keeps (NotAccepted.check_report task code wait)
        (NotAccepted.report_row code source unrepresentable) c db
        λ a. judge_row-Keeps a.0 code source a.1 unrepresentable db c (find_task a.0 db.jobs)

  contradict_row-holds :
      (task : Uuid) (why : String) (r : Option Job) (P : List Attempt → Type 0)
      → P db.attempts
      → P (mark_conflict task why c.now db.attempts)
      → P
          (NotAccepted.contradict_row db r c
            (record db { attempts = mark_conflict task why c.now db.attempts })).1.attempts
  unfolding NotAccepted.contradict_row write
  contradict_row-holds task why none P h k = k
  contradict_row-holds task why (some r) P h k = ground (arith, h, k)

  contradict_row-Keeps :
      (task : Uuid) (why : String) (r : Option Job)
      → Keeps db (
          NotAccepted.contradict_row db r c
            (record db { attempts = mark_conflict task why c.now db.attempts }))
  unfolding NotAccepted.contradict_row
  contradict_row-Keeps task why r n =
      contradict_row-holds task why r Numbered n
        (mark_conflict-Numbered task why c.now db.attempts n)

  contradict-Keeps :
      (task : Uuid) (why : String) (a : Option Attempt)
      → Keeps db (NotAccepted.contradict task why a c db)
  unfolding NotAccepted.contradict
  contradict-Keeps task why none = λ n. n
  contradict-Keeps task why (some a) = elim (Bool-cases (is_none a.not_accepted_at)) [
    | inl unknown ↦ rw unknown λ n. n
    | inr recorded ↦ elim (Bool-cases (is_some a.conflict_reason || is_code (codes why))) [
      | inl fits ↦
          rw (recorded, fits) (contradict_row-Keeps task why (find_job a.fitting_job_id db.jobs))
      | inr breaks ↦ rw (recorded, breaks) λ n. n
    ]
  ]

  contradiction-Keeps :
      (task : Option Uuid) (why : String)
      → Keeps db (NotAccepted.record_attempt_contradiction task why c db)
  unfolding NotAccepted.record_attempt_contradiction
  contradiction-Keeps task why =
      checked-Keeps (NotAccepted.check_reason task why) (NotAccepted.contradict_task why) c db
        λ task. contradict-Keeps task why (find (of_task task) db.attempts)

  defer-holds :
      (n : ℕ) (P : List Attempt → Type 0)
      → P db.attempts
      → P (Release.defer_sends (pos n) c db).1.attempts
  unfolding Release.defer_sends
  defer-holds n P h = ground (arith, h)

  hold-holds :
      (why : String) (P : List Attempt → Type 0)
      → P db.attempts
      → P (Release.hold_sends why c db).1.attempts
  unfolding Release.hold_sends
  hold-holds why P h = ground (arith, h)

  defer_sends-Keeps : (d : ℤ) → Keeps db (Release.defer_sends d c db)
  unfolding Release.defer_sends
  defer_sends-Keeps (negsuc n) = λ h. h
  defer_sends-Keeps (pos n) = λ h. defer-holds n Numbered h

  hold_sends-Keeps : (why : String) → Keeps db (Release.hold_sends why c db)
  unfolding Release.hold_sends
  hold_sends-Keeps why = λ h. hold-holds why Numbered h

module _ (l : Limits) (is_printable : ℕ → Bool) where
  exec-Numbered :
      (command : Command) (c : Clock) (db : Db)
      → Numbered db.attempts
      → Numbered (exec l is_printable command c db).1.attempts
  unfolding exec Release.finish_send Release.release_in_flight
  exec-Numbered (begin_submission id t u) c db =
      told-Keeps db _ _ (begin_submission-Keeps l c db id t u)
  exec-Numbered (begin_retry_submission id t p u) c db =
      told-Keeps db _ _ (begin_retry_submission-Keeps l c db id t p u)
  exec-Numbered (begin_fallback id t u) c db =
      told-Keeps db _ _ (begin_fallback-Keeps l c db id t u)
  exec-Numbered (record_not_accepted u code s w q) c db =
      told-Keeps db _ _ (record_not_accepted-Keeps c db u code s w q)
  exec-Numbered (record_attempt_contradiction u why) c db =
      told-Keeps db _ _ (contradiction-Keeps c db u why)
  exec-Numbered (finish_send id) c db =
      told-Keeps db _ _ (checked-Keeps (check_job_id id) _ c db λ _ n. n)
  exec-Numbered (defer_sends d) c db = told-Keeps db _ _ (defer_sends-Keeps c db d)
  exec-Numbered (hold_sends why) c db = told-Keeps db _ _ (hold_sends-Keeps c db why)
  exec-Numbered (release_in_flight id u) c db =
      told-Keeps db _ _ (checked-Keeps (do check_job_id id; optional_uuid u) _ c db λ _ n. n)
  exec-Numbered (cancel_unsent id t u) c db = told-Keeps db _ _ (cancel_unsent-Keeps l c db id t u)
  exec-Numbered command c db = λ n.
      let same = (exec-SameRest l is_printable command c db (ground arith)).0 in
      subst Numbered (sym same) n

  run-Numbered :
      (history : List (Command × Clock)) (db : Db)
      → Numbered db.attempts
      → Numbered (run l is_printable history db).attempts
  unfolding run
  run-Numbered [] db n = n
  run-Numbered ((command, c) ∷ rest) db n =
      run-Numbered rest (exec l is_printable command c db).1 (exec-Numbered command c db n)

  -- If the attempts of each job have numbers from 1 to 4 and no two the same, then after every history
  -- at most four calls of Pruna are recorded for a job.
  pub attempts-le :
      (id : ℕ) (history : List (Command × Clock)) (db : Db)
      → Numbered db.attempts
      → count (of_job id) (run l is_printable history db).attempts ≤ 4
  attempts-le id history db n = Numbered-le id _ (run-Numbered history db n)
