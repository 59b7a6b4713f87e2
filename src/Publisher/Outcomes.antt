-- ===== src/Publisher/Outcomes.antt =====
-- What it means that `publish` reports a publication.
use ktb4_15th_ai.Prelude.{
  ℕ, ◌≡◌, refl, sym, subst, String, Bool, true, false, not, ◌||◌, Option, none, some, List, [], ◌∷◌,
  arith, leb, is_some, if◌then◌else◌, Bool-cases, Option-cases, inl, inr,
}
use ktb4_15th_ai.Payload.{Payload, Result, ok, err, ◌>>◌, guard}
use ktb4_15th_ai.Job.{Status, MessageStatus, Time, Job, publish_result, is_pending, is_terminal}
use ktb4_15th_ai.Job
use ktb4_15th_ai.Store.{Db, Clock, Op, find_job, write, allowed, checked}
use ktb4_15th_ai.JobState.Change.{
  StateChange, result_message_limit, Condition, Diagnosis, run_row, check_job_id, check_token,
  touched, update, update_row, with_lease, lease_reason, mismatch, change_applied,
}
use ktb4_15th_ai.JobState.Publication
use ktb4_15th_ai.JobState.Publication.{mark_result_published, can_publish}
use ktb4_15th_ai.Limiter.Slot.{Limits}
use ktb4_15th_ai.Rules.Rows.{find_job-id}
use ktb4_15th_ai.History.Claims.{put_job-found}
use ktb4_15th_ai.Publisher.{
  Meeting, Body, Outcome, published, retry_later, held, SqsOutcome, succeeded, failed, unknown,
  meanwhile, hold, exhaust, hold_for, retry, marked, send, send_claimed, claimed, send_result,
  payload_problem, released, finally, granted_job, granted, publish, is_limit, final_status,
  backoff_of,
}
use ktb4_15th_ai.JobState.Lease.{LeaseGrant}
use ktb4_15th_ai.Publisher.Counts.{GrantOf, acquire_lease-GrantOf}

-- The job has ended with the status of a result, and its message is published.
pub record Published (id : ℕ) (p : Payload) (db : Db) : Type 0 where
  pub row : Job
  pub found : find_job id db.jobs ≡ some row
  pub status : row.status ≡ final_status p
  pub message : row.result_message_status ≡ Job.published
  pub action : row.next_action ≡ none

-- A change of the row of a job that is reported.
abbrev Marks : ℕ → Payload → Result StateChange × Db → Type 0
Marks id p (err e, db) = Unit
Marks id p (ok change, db) = change.applied ≡ true → Published id p db

write-Marks :
    (id : ℕ) (p : Payload) (r : Job) (row : Job) (db : Db)
    → find_job id db.jobs ≡ some r
    → row.fitting_job_id ≡ id
    → row.status ≡ final_status p
    → row.result_message_status ≡ Job.published
    → row.next_action ≡ none
    → Marks id p (write db (change_applied row) row db)
unfolding write
write-Marks id p r row db e same status message action = elim (Bool-cases (allowed row db.jobs)) [
  | inl fits ↦ rw fits λ _. record {
    row = row;
    found = put_job-found id row r db.jobs same e;
    status = status;
    message = message;
    action = action;
  }
  | inr breaks ↦ rw breaks tt
]

checked-Marks :
    {A : Type 0} (id : ℕ) (p : Payload) (m : Result A) (f : A → Op StateChange) (c : Clock)
    (db : Db)
    → ((a : A) → Marks id p (f a c db))
    → Marks id p (checked m f c db)
checked-Marks id p (ok a) f c db h = h a
checked-Marks id p (err e) f c db h = tt

run_row-Marks :
    (id : ℕ) (p : Payload) (condition : Condition) (reason : Diagnosis) (c : Clock) (db : Db)
    → Marks id p (
        run_row condition
          (touched (Publication.publish (final_status p)))
          reason
          (find_job id db.jobs)
          c
          db)
unfolding run_row
run_row-Marks id p condition reason c db = elim (Option-cases (find_job id db.jobs)) [
  | inl missing ↦ rw missing λ h. cc
  | inr (r, e) ↦ elim (Bool-cases (condition c.now r)) [
    | inl holds ↦
        rw (e, holds)
          (write-Marks id p r (touched (Publication.publish (final_status p)) c.now r) db e
            (find_job-id id db.jobs e) refl refl refl)
    | inr fails ↦ rw (e, fails) λ h. cc
  ]
]

mark_result_published-Marks :
    (id : ℕ) (p : Payload) (token : String) (c : Clock) (db : Db)
    → Marks id p (mark_result_published id token (final_status p) c db)
unfolding mark_result_published update
mark_result_published-Marks id p token c db =
    checked-Marks id p (guard (is_terminal (final_status p)))
      (λ _.
        update id token (Publication.publish (final_status p)) (can_publish (final_status p)) false
          mismatch)
      c db
      λ _.
        checked-Marks id p (do check_job_id id; check_token token)
          (λ _.
            update_row id token (Publication.publish (final_status p))
              (can_publish (final_status p)) false mismatch)
          c db
          λ _.
            run_row-Marks id p (with_lease token (can_publish (final_status p)))
              (lease_reason token false mismatch) c db

-- One message was sent, and the job has ended with its status.
abbrev pub Ended : ℕ → List Payload → Db → Type 0
Ended id sent db = (p : Payload) × (sent ≡ p ∷ []) × Published id p db

abbrev EndedBody : ℕ → Body → Type 0
EndedBody id b = b.outcome ≡ published → (b.release ≡ false) × Ended id b.sent b.db

abbrev is_published : Outcome → Bool
is_published published = true
is_published _ = false

-- Where the outcome is another one, there is nothing to show.
other-Ended : (id : ℕ) (b : Body) → is_published b.outcome ≡ false → EndedBody id b
other-Ended id b other e = ground (arith, other, e)

module _ (limits : Limits) (is_printable : ℕ → Bool) (w : Meeting) (id : ℕ) where
  hold-other :
      (o : Outcome) (sent : List Payload) (seconds i : ℕ) (db : Db)
      → is_published o ≡ false
      → is_published (hold limits is_printable w id o sent seconds i db).outcome ≡ false
  unfolding hold
  hold-other o sent seconds i db h = ground (arith, h)

  exhaust-other :
      (sent : List Payload) (i : ℕ) (db : Db)
      → is_published (exhaust limits is_printable w id sent i db).outcome ≡ false
  unfolding exhaust
  exhaust-other sent i db = ground arith

  hold_for-other :
      (sent : List Payload) (seconds : Option ℕ) (db : Db)
      → is_published (hold_for limits is_printable w id sent seconds db).outcome ≡ false
  hold_for-other sent none db = refl
  hold_for-other sent (some seconds) db = hold-other retry_later sent seconds 3 db refl

  retry-other :
      (p : Payload) (attempt : ℕ) (config : Bool) (db : Db)
      → is_published (retry limits is_printable w id p attempt config db).outcome ≡ false
  unfolding retry
  retry-other p attempt config db = elim (Bool-cases (leb result_message_limit attempt)) [
    | inl last ↦ rw last (exhaust-other (p ∷ []) 3 db)
    | inr early ↦ rw early (
        hold_for-other (p ∷ [])
          (if config then some w.config_backoff else backoff_of attempt w.backoffs) db)
  ]

  marked-Ended :
      (p : Payload) (attempt : ℕ) (x : Result StateChange × Db)
      → Marks id p x
      → EndedBody id (marked limits is_printable w id p attempt x)
  marked-Ended p attempt (err e, db) h = λ k. cc
  marked-Ended p attempt (ok change, db) h = elim (Bool-cases change.applied) [
    | inl done ↦ rw done λ _. (refl, (p, refl, h done))
    | inr refused ↦ rw refused (other-Ended id _ (retry-other p attempt false db))
  ]

  send-Ended :
      (answer : SqsOutcome) (p : Payload) (attempt : ℕ) (db : Db)
      → EndedBody id (send limits is_printable w answer id p attempt db)
  unfolding send
  send-Ended succeeded p attempt db =
      marked-Ended p attempt _ (
        mark_result_published-Marks id p w.token (w.clock 2) (meanwhile limits is_printable w 2 db))
  send-Ended failed p attempt db = other-Ended id _ (retry-other p attempt w.config_reason db)
  send-Ended unknown p attempt db = other-Ended id _ (retry-other p attempt w.config_reason db)

  send_claimed-Ended :
      (p : Payload) (job : Option Job) (db : Db)
      → EndedBody id (send_claimed limits is_printable w id p job db)
  send_claimed-Ended p none db = λ k. cc
  send_claimed-Ended p (some job) db = send-Ended w.answer p job.result_message_attempt_count db

  claimed-Ended :
      (p : Payload) (x : Result StateChange × Db)
      → EndedBody id (claimed limits is_printable w id p x)
  claimed-Ended p (err e, db) = λ k. cc
  claimed-Ended p (ok change, db) = elim (Bool-cases change.applied) [
    | inl done ↦ rw done (send_claimed-Ended p change.job db)
    | inr refused ↦ elim (Bool-cases (is_limit change.reason)) [
      | inl limit ↦ rw (refused, limit) (other-Ended id _ (exhaust-other [] 2 db))
      | inr other ↦ rw (refused, other) λ k. cc
    ]
  ]

  send_result-Ended :
      (p : Option Payload) (job : Job) (db : Db)
      → job.fitting_job_id ≡ id
      → EndedBody id (send_result limits is_printable w p job db)
  unfolding send_result
  send_result-Ended none job db same = λ k. cc
  send_result-Ended (some p) job db same =
      let claim = claimed-Ended p in
      let full = other-Ended id _ (exhaust-other [] 1 db) in
      let waits = other-Ended id _ (hold-other held [] w.config_backoff 1 db refl) in
      elim (Bool-cases (not (is_pending job.result_message_status))) [
        | inl ended ↦ rw ended λ k. cc
        | inr open_result ↦
            elim (Bool-cases (leb result_message_limit job.result_message_attempt_count)) [
              | inl used ↦ rw (open_result, used, same) full
              | inr left ↦ elim (Bool-cases (is_some (payload_problem p job) || not w.queue_set)) [
                | inl problem ↦ rw (open_result, left, problem, same) waits
                | inr ready ↦ rw (open_result, left, ready, same) (claim _)
              ]
            ]
      ]

  released-published :
      (o : Outcome) (sent : List Payload) (x : Result StateChange × Db)
      → (released limits is_printable w o sent x).0 ≡ published
      → o ≡ published
  released-published o sent (ok change, db) e = e
  released-published o sent (err x, db) e = cc

  finally-Ended :
      (b : Body)
      → EndedBody id b
      → (finally limits is_printable w id b).0 ≡ published
      → Ended id (finally limits is_printable w id b).1 (finally limits is_printable w id b).2
  unfolding finally
  finally-Ended b h = elim (Bool-cases b.release) [
    | inl releases ↦
        rw releases λ e. let kept = (h (released-published b.outcome b.sent _ e)).0 in cc
    | inr kept ↦ rw kept λ e. (h e).1
  ]

  granted_job-Ended :
      (job : Option Job) (db : Db)
      → ((r : Job) → job ≡ some r → r.fitting_job_id ≡ id)
      → (granted_job limits is_printable w job db).0 ≡ published
      → Ended id
          (granted_job limits is_printable w job db).1
          (granted_job limits is_printable w job db).2
  granted_job-Ended none db same = λ e. cc
  granted_job-Ended (some job) db same =
      let body = send_result limits is_printable w job.result_payload job db in
      subst
        (λ k.
          (finally limits is_printable w k body).0 ≡ published
          → Ended id (finally limits is_printable w k body).1
              (finally limits is_printable w k body).2)
        (sym (same job refl))
        (finally-Ended body (send_result-Ended job.result_payload job db (same job refl)))

  granted-Ended :
      (x : Result LeaseGrant × Db)
      → GrantOf id x.0
      → (granted limits is_printable w x).0 ≡ published
      → Ended id (granted limits is_printable w x).1 (granted limits is_printable w x).2
  granted-Ended (err e, db) same = λ k. cc
  granted-Ended (ok g, db) same = elim (Bool-cases g.acquired) [
    | inl does ↦ rw does (granted_job-Ended g.job db same)
    | inr refused ↦ rw refused λ k. cc
  ]

  -- If `publish` reports a publication, whatever other processes have done between its transactions, it
  -- has sent one message, and the job has ended: its status is the one of the message, the message is
  -- marked as published, and there is no next action.
  pub publish-Ended :
      (db : Db)
      → (publish limits is_printable w id db).0 ≡ published
      → Ended id (publish limits is_printable w id db).1 (publish limits is_printable w id db).2
  unfolding publish
  publish-Ended db =
      granted-Ended _ (
        acquire_lease-GrantOf w.token id w.lease (w.clock 0) (meanwhile limits is_printable w 0 db))
