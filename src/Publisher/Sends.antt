-- ===== src/Publisher/Sends.antt =====
-- How many messages `publish` sends.
use ktb4_15th_ai.Prelude.{
  ℕ, ◌+◌, ◌≤◌, ◌≡◌, refl, sym, subst, Bool, Option, none, some, List, [], ◌∷◌, arith, All, length,
  Bool-cases, Option-cases, inl, inr, ap, find-All,
}
use ktb4_15th_ai.Payload.{Payload, Result, ok, err}
use ktb4_15th_ai.Job.{Job, publish_result}
use ktb4_15th_ai.Store.{Db, find_job, has_id}
use ktb4_15th_ai.JobState.Change.{StateChange, result_message_limit}
use ktb4_15th_ai.JobState.Lease.{LeaseGrant, acquire_lease, release_lease}
use ktb4_15th_ai.Limiter.Slot.{Limits}
use ktb4_15th_ai.Rules.{IsValid}
use ktb4_15th_ai.Rules.Methods.{acquire_lease-Lawful, release_lease-Lawful}
use ktb4_15th_ai.History.Claims.{count_in}
use ktb4_15th_ai.Publisher.Counts.{
  Since, SinceBody, SinceRun, messages, step-Since, send_result-Body, GrantOf,
  acquire_lease-GrantOf,
}
use ktb4_15th_ai.Publisher.{
  Meeting, Body, Outcome, meanwhile, send_result, released, finally, granted_job, granted, publish,
}

module _ (limits : Limits) (is_printable : ℕ → Bool) (w : Meeting) (id : ℕ) where
  released-Run :
      (n : ℕ) (o : Outcome) (sent : List Payload) (x : Result StateChange × Db)
      → Since id (length sent + n) x.1
      → SinceRun id n (released limits is_printable w o sent x)
  released-Run n o sent (ok change, db) s = s
  released-Run n o sent (err e, db) s = s

  finally-Run :
      (n : ℕ) (b : Body) → SinceBody id n b → SinceRun id n (finally limits is_printable w id b)
  unfolding finally
  finally-Run n b s = elim (Bool-cases b.release) [
    | inl does ↦ rw does (
        released-Run n b.outcome b.sent _ (
          step-Since limits is_printable w id (release_lease id w.token) (length b.sent + n) 4 b.db
            (release_lease-Lawful id w.token) s))
    | inr kept ↦ rw kept s
  ]

  granted_job-Run :
      (n : ℕ) (job : Option Job) (db : Db)
      → ((r : Job) → job ≡ some r → r.fitting_job_id ≡ id)
      → Since id n db
      → SinceRun id n (granted_job limits is_printable w job db)
  granted_job-Run n none db same s = (s.0, omega (arith, s.1))
  granted_job-Run n (some job) db same s =
      let body =
        send_result-Body limits is_printable w id n job.result_payload job db (same job refl) s in
      subst
        (λ k. SinceRun id n (
          finally limits is_printable w k
            (send_result limits is_printable w job.result_payload job db)))
        (sym (same job refl))
        (finally-Run n (send_result limits is_printable w job.result_payload job db) body)

  granted-Run :
      (n : ℕ) (x : Result LeaseGrant × Db)
      → GrantOf id x.0
      → Since id n x.1
      → SinceRun id n (granted limits is_printable w x)
  granted-Run n (err e, db) same s = (s.0, omega (arith, s.1))
  granted-Run n (ok g, db) same s = elim (Bool-cases g.acquired) [
    | inl does ↦ rw does (granted_job-Run n g.job db same s)
    | inr refused ↦ rw refused (s.0, omega (arith, s.1))
  ]

  publish-Run :
      (n : ℕ) (db : Db) → Since id n db → SinceRun id n (publish limits is_printable w id db)
  unfolding publish
  publish-Run n db s =
      granted-Run n _
        (acquire_lease-GrantOf w.token id w.lease (w.clock 0)
          (meanwhile limits is_printable w 0 db))
        (step-Since limits is_printable w id (acquire_lease w.token id publish_result w.lease) n 0
          db (acquire_lease-Lawful w.token id publish_result w.lease) s)

-- Runs for one job, one after another, and the number of messages that they send.
unfoldable pub publish_all : Limits → (ℕ → Bool) → ℕ → List Meeting → Db → ℕ × Db
unfolding publish
publish_all limits is_printable id [] db = (0, db)
publish_all limits is_printable id (w ∷ rest) db =
    let (_, sent, after) = publish limits is_printable w id db in
    let (more, end) = publish_all limits is_printable id rest after in (length sent + more, end)

publish_all-Since :
    (limits : Limits) (is_printable : ℕ → Bool) (id n : ℕ) (runs : List Meeting) (db : Db)
    → Since id n db
    → Since id
        ((publish_all limits is_printable id runs db).0 + n)
        (publish_all limits is_printable id runs db).1
unfolding publish_all
publish_all-Since limits is_printable id n [] db s = (s.0, omega (arith, s.1))
publish_all-Since limits is_printable id n (w ∷ rest) db s =
    let (valid, first) = publish-Run limits is_printable w id n db s in
    let (end, all) =
      publish_all-Since limits is_printable id (length (publish limits is_printable w id db).1 + n)
        rest (publish limits is_printable w id db).2 (valid, first) in
    (end, omega (arith, all))

-- If the rows keep the rules, runs of `publish` for a job, one after another, whatever other processes do
-- between their transactions, however the queue answers and whatever is raised, send together at most
-- `result_message_limit` messages, less those that the row of the job has counted before.
pub publish_all-le :
    (limits : Limits) (is_printable : ℕ → Bool) (id : ℕ) (runs : List Meeting) (db : Db)
    → All IsValid db.jobs
    → (publish_all limits is_printable id runs db).0 + messages id db ≤ result_message_limit
publish_all-le limits is_printable id runs db v =
    let (valid, total) =
      publish_all-Since limits is_printable id (messages id db) runs db (v, omega arith) in
    elim (Option-cases (find_job id (publish_all limits is_printable id runs db).1.jobs)) [
      | inl missing ↦
          omega (arith, total, ap (count_in (λ r. r.result_message_attempt_count)) missing)
      | inr (r, e) ↦
          let rules = find-All IsValid (has_id id) _ valid e in
          omega
            (arith, total, rules.messages, ap (count_in (λ r. r.result_message_attempt_count)) e)
    ]
