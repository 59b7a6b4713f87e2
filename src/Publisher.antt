-- ===== src/Publisher.antt =====
-- `ResultPublishProcessor.publish` of app/virtual_fitting/result_publisher.py: the result of one job is
-- sent to the queue be-fitting-response. Each call of the repository is one transaction; before it, other
-- processes make any history of transactions. The queue is a parameter.
pub mod Counts
pub mod Sends
pub mod Outcomes
use ktb4_15th_ai.Prelude.{
  ℕ, zero, suc, ◌-◌, String, Bool, true, false, not, ◌||◌, Option, none, some, List, [], ◌∷◌, leb,
  length, min, is_some, is_none, is_text, if◌then◌else◌,
}
use ktb4_15th_ai.Payload.{
  Payload, payload_job, is_pos, to_fields, check_result_payload, Result, ok, err,
}
use ktb4_15th_ai.Job.{Status, Job, publish_result, is_pending}
use ktb4_15th_ai.Store.{Db, Clock}
use ktb4_15th_ai.JobState.Change.{ChangeReason, limit_reached, StateChange, result_message_limit}
use ktb4_15th_ai.JobState.Lease.{LeaseGrant, acquire_lease, renew_lease, release_lease}
use ktb4_15th_ai.JobState.Publication.{
  claim_result_message_attempt, mark_result_published, mark_result_retry_exhausted,
}
use ktb4_15th_ai.Limiter.Slot.{Limits}
use ktb4_15th_ai.History.{Command, run}

-- `PublishOutcome`, and an exception.
pub data Outcome : Type 0 where
  published retry_later exhausted skipped held raised : Outcome

-- `SqsOutcome` of app/clients/sqs.py.
pub data SqsOutcome : Type 0 where
  succeeded failed unknown : SqsOutcome

-- What `payload_problem` finds.
pub data Problem : Type 0 where
  invalid_payload job_id_mismatch image_key_mismatch image_key_on_failure : Problem

-- The settings of the processor, and what it meets in a run: the token, the clock of each transaction, what
-- others do before it, whether the queue has an address, and the queue's answer, with whether its reason
-- is one of `_CONFIG_REASONS`.
pub record Meeting : Type 0 where
  pub lease : ℕ
  pub backoffs : List ℕ
  pub config_backoff : ℕ
  pub token : String
  pub clock : ℕ → Clock
  pub others : ℕ → List (Command × Clock)
  pub queue_set : Bool
  pub answer : SqsOutcome
  pub config_reason : Bool

-- How the part between the grant and the release of the lease ends: whether the lease is to be released,
-- and the messages sent.
pub record Body : Type 0 where
  pub outcome : Outcome
  pub release : Bool
  pub sent : List Payload
  pub db : Db

abbrev pub image_problem : Payload → Option String → Option Problem
image_problem (Payload.completed _ key _ _) image =
    if is_text image key then none else some image_key_mismatch
image_problem (Payload.failed _ _ _) image =
    if is_some image then some image_key_on_failure else none

abbrev pub checked_problem : Result Payload → Job → Option Problem
checked_problem (err e) job = some invalid_payload
checked_problem (ok p) job =
    if is_pos (payload_job p) job.fitting_job_id
    then image_problem p job.result_image_key
    else some job_id_mismatch

-- `payload_problem`, of the stored result.
unfoldable pub payload_problem : Payload → Job → Option Problem
unfolding check_result_payload to_fields
payload_problem p job = checked_problem (check_result_payload (to_fields p)) job

abbrev pub is_limit : ChangeReason → Bool
is_limit limit_reached = true
is_limit _ = false

abbrev pub final_status : Payload → Status
final_status (Payload.completed _ _ _ _) = Status.completed
final_status (Payload.failed _ _ _) = Status.failed

-- `backoff[i]`, which raises where there is none.
abbrev pub entry : ℕ → List ℕ → Option ℕ
entry n [] = none
entry zero (t ∷ rest) = some t
entry (suc n) (t ∷ rest) = entry n rest

-- The last entry stands for all later attempts.
abbrev pub backoff_of : ℕ → List ℕ → Option ℕ
backoff_of attempt times = entry (min attempt (length times) - 1) times

module _ (limits : Limits) (is_printable : ℕ → Bool) (w : Meeting) where
  -- The tables when the processor makes its transaction `i`.
  unfoldable pub meanwhile : ℕ → Db → Db
  unfolding run
  meanwhile i db = run limits is_printable (w.others i) db

  -- `_hold`: the lease is kept for a time, or released where it cannot be.
  abbrev pub held_by : Outcome → List Payload → Result StateChange × Db → Body
  held_by o sent (err e, db) = record { outcome = raised; release = true; sent = sent; db = db }
  held_by o sent (ok change, db) = record {
    outcome = o;
    release = not change.applied;
    sent = sent;
    db = db;
  }

  unfoldable pub hold : ℕ → Outcome → List Payload → ℕ → ℕ → Db → Body
  unfolding meanwhile renew_lease
  hold id o sent seconds i db =
      held_by o sent (renew_lease id w.token seconds (w.clock i) (meanwhile i db))

  abbrev pub exhausted_by : List Payload → Result StateChange × Db → Body
  exhausted_by sent (err e, db) = record { outcome = raised; release = true; sent = sent; db = db }
  exhausted_by sent (ok change, db) = record {
    outcome = exhausted;
    release = true;
    sent = sent;
    db = db;
  }

  -- `_exhaust`.
  unfoldable pub exhaust : ℕ → List Payload → ℕ → Db → Body
  unfolding meanwhile mark_result_retry_exhausted
  exhaust id sent i db =
      exhausted_by sent (mark_result_retry_exhausted id w.token (w.clock i) (meanwhile i db))

  abbrev pub hold_for : ℕ → List Payload → Option ℕ → Db → Body
  hold_for id sent none db = record { outcome = raised; release = true; sent = sent; db = db }
  hold_for id sent (some seconds) db = hold id retry_later sent seconds 3 db

  -- A message was sent, and its success was not recorded.
  unfoldable pub retry : ℕ → Payload → ℕ → Bool → Db → Body
  unfolding exhaust hold
  retry id p attempt config db =
      if leb result_message_limit attempt
      then exhaust id (p ∷ []) 3 db
      else hold_for id (p ∷ [])
          (if config then some w.config_backoff else backoff_of attempt w.backoffs) db

  abbrev pub marked : ℕ → Payload → ℕ → Result StateChange × Db → Body
  marked id p attempt (err e, db) = record {
    outcome = raised;
    release = true;
    sent = p ∷ [];
    db = db;
  }
  marked id p attempt (ok change, db) =
      if change.applied
      then record { outcome = published; release = false; sent = p ∷ []; db = db }
      else retry id p attempt false db

  -- The message is sent, by the claim of an attempt.
  unfoldable pub send : SqsOutcome → ℕ → Payload → ℕ → Db → Body
  unfolding meanwhile retry mark_result_published
  send succeeded id p attempt db =
      marked id p attempt
        (mark_result_published id w.token (final_status p) (w.clock 2) (meanwhile 2 db))
  send failed id p attempt db = retry id p attempt w.config_reason db
  send unknown id p attempt db = retry id p attempt w.config_reason db

  abbrev pub send_claimed : ℕ → Payload → Option Job → Db → Body
  send_claimed id p none db = record { outcome = raised; release = true; sent = []; db = db }
  send_claimed id p (some job) db = send w.answer id p job.result_message_attempt_count db

  abbrev pub claimed : ℕ → Payload → Result StateChange × Db → Body
  claimed id p (err e, db) = record { outcome = raised; release = true; sent = []; db = db }
  claimed id p (ok change, db) =
      if change.applied
      then send_claimed id p change.job db
      else if is_limit change.reason
      then exhaust id [] 2 db
      else record { outcome = skipped; release = true; sent = []; db = db }

  -- The result of the job that the grant gives.
  unfoldable pub send_result : Option Payload → Job → Db → Body
  unfolding meanwhile exhaust hold send claim_result_message_attempt payload_problem
  send_result none job db = record { outcome = skipped; release = true; sent = []; db = db }
  send_result (some p) job db =
      let id = job.fitting_job_id in
      if not (is_pending job.result_message_status)
      then record { outcome = skipped; release = true; sent = []; db = db }
      else if leb result_message_limit job.result_message_attempt_count
      then exhaust id [] 1 db
      else if is_some (payload_problem p job) || not w.queue_set
      then hold id held [] w.config_backoff 1 db
      else claimed id p (claim_result_message_attempt id w.token (w.clock 1) (meanwhile 1 db))

  abbrev pub released :
      Outcome → List Payload → Result StateChange × Db → Outcome × List Payload × Db
  released o sent (err e, db) = (raised, sent, db)
  released o sent (ok change, db) = (o, sent, db)

  -- `finally`.
  unfoldable pub finally : ℕ → Body → Outcome × List Payload × Db
  unfolding meanwhile release_lease
  finally id b =
      if b.release
      then released b.outcome b.sent (release_lease id w.token (w.clock 4) (meanwhile 4 b.db))
      else (b.outcome, b.sent, b.db)

  abbrev pub granted_job : Option Job → Db → Outcome × List Payload × Db
  granted_job none db = (raised, [], db)
  granted_job (some job) db = finally job.fitting_job_id (send_result job.result_payload job db)

  abbrev pub granted : Result LeaseGrant × Db → Outcome × List Payload × Db
  granted (err e, db) = (raised, [], db)
  granted (ok g, db) = if g.acquired then granted_job g.job db else (skipped, [], db)

  unfoldable pub publish : ℕ → Db → Outcome × List Payload × Db
  unfolding meanwhile acquire_lease finally send_result
  publish id db =
      granted (acquire_lease w.token id publish_result w.lease (w.clock 0) (meanwhile 0 db))
