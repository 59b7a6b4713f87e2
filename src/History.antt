-- ===== src/History.antt =====
-- All transactions that the servers, Workers and Webhooks make on the jobs, in the order in which the
-- database makes them: whatever they interleave to is such a list.
pub mod Rules
pub mod Results
pub mod Claims
pub mod Leases
pub mod Rest
pub mod Places
pub mod Spacing
pub mod Attempts
pub mod Numbers
pub mod Fallbacks
use ktb4_15th_ai.Prelude.{ℕ, String, Bool, true, false, Option, List, [], ◌∷◌}
use ktb4_15th_ai.Payload.{ℤ, Fields, Result, ok, err}
use ktb4_15th_ai.Job.{Uuid, Status, NextAction, NotAcceptedSource}
use ktb4_15th_ai.Store.{Db, Clock, Op}
use ktb4_15th_ai.JobState.Lease
use ktb4_15th_ai.JobState.Submission
use ktb4_15th_ai.JobState.Events
use ktb4_15th_ai.JobState.Postprocess
use ktb4_15th_ai.JobState.Fallback
use ktb4_15th_ai.JobState.Publication
use ktb4_15th_ai.JobState.NotAccepted
use ktb4_15th_ai.JobState.NotAccepted.{applied}
use ktb4_15th_ai.JobState.Fallback.{S3ObjectState}
use ktb4_15th_ai.JobTable
use ktb4_15th_ai.JobTable.{NewJob}
use ktb4_15th_ai.Limiter.Slot.{Limits}
use ktb4_15th_ai.Limiter.Begin
use ktb4_15th_ai.Limiter.Release

-- A call of a method that may change a table, with its arguments.
pub data Command : Type 0 where
  create : NewJob → Command
  acquire_lease : String → ℕ → NextAction → ℕ → Command
  renew_lease : ℕ → String → ℕ → Command
  release_lease : ℕ → String → Command
  prepare_pruna_submission : ℕ → String → Option Uuid → String → Bool → Command
  mark_pruna_submit_started : ℕ → String → Command
  record_runware_accepted : ℕ → String → Option Uuid → Command
  record_submission_accepted : Option Uuid → Command
  record_auth_hold : Option Uuid → String → Command
  record_pruna_succeeded : Option Uuid → Option String → Option (Option Uuid) → Command
  fill_pruna_image_ref : Option Uuid → Option String → Option (Option Uuid) → Bool → Command
  record_pruna_failed : Option Uuid → Bool → Option Fields → Command
  record_not_accepted : Option Uuid → String → NotAcceptedSource → Option ℤ → Bool → Command
  record_attempt_contradiction : Option Uuid → String → Command
  claim_s3_check_attempt : ℕ → String → Command
  record_image_verified : ℕ → String → String → Command
  claim_llm_generation_attempt : ℕ → String → Command
  move_to_fallback : ℕ → String → S3ObjectState → Command
  prepare_fallback : ℕ → String → Option Uuid → Command
  record_fallback_image : ℕ → String → String → Command
  claim_fallback_attempt : ℕ → String → Command
  save_final_result : ℕ → String → Fields → Option String → Command
  claim_result_message_attempt : ℕ → String → Command
  mark_result_published : ℕ → String → Status → Command
  mark_result_retry_exhausted : ℕ → String → Command
  begin_submission : ℕ → String → Option Uuid → Command
  begin_retry_submission : ℕ → String → Option Uuid → Option Uuid → Command
  begin_fallback : ℕ → String → Option Uuid → Command
  finish_send : ℕ → Command
  defer_sends : ℤ → Command
  hold_sends : String → Command
  release_in_flight : ℕ → Option (Option Uuid) → Command
  cancel_unsent : ℕ → String → Option Uuid → Command

-- Whether the call reports a change, and the tables after it.
abbrev pub told : {A : Type 0} → (A → Bool) → Result A × Db → Bool × Db
told changed (ok a, db) = (changed a, db)
told changed (err e, db) = (false, db)

module _ (limits : Limits) (is_printable : ℕ → Bool) where
  unfoldable pub exec : Command → Clock → Db → Bool × Db
  exec (create n) c db = told (λ r. r.created) (JobTable.create n c db)
  exec (acquire_lease t id a d) c db = told (λ r. r.acquired) (Lease.acquire_lease t id a d c db)
  exec (renew_lease id t d) c db = told (λ r. r.applied) (Lease.renew_lease id t d c db)
  exec (release_lease id t) c db = told (λ r. r.applied) (Lease.release_lease id t c db)
  exec (prepare_pruna_submission id t u k ai) c db =
      told (λ r. r.applied) (Submission.prepare_pruna_submission id t u k ai c db)
  exec (mark_pruna_submit_started id t) c db =
      told (λ r. r.applied) (Submission.mark_pruna_submit_started id t c db)
  exec (record_runware_accepted id t u) c db =
      told (λ r. r.applied) (Submission.record_runware_accepted id t u c db)
  exec (record_submission_accepted u) c db =
      told (λ r. r.applied) (Events.record_submission_accepted u c db)
  exec (record_auth_hold u why) c db = told (λ r. r.applied) (Events.record_auth_hold u why c db)
  exec (record_pruna_succeeded u url i) c db =
      told (λ r. r.applied) (Events.record_pruna_succeeded is_printable u url i c db)
  exec (fill_pruna_image_ref u url i q) c db =
      told (λ r. r.applied) (Events.fill_pruna_image_ref is_printable u url i q c db)
  exec (record_pruna_failed u rec p) c db =
      told (λ r. r.applied) (Events.record_pruna_failed u rec p c db)
  exec (record_not_accepted u code s w q) c db =
      told (λ r. applied r.outcome) (NotAccepted.record_not_accepted u code s w q c db)
  exec (record_attempt_contradiction u why) c db =
      told (λ r. r) (NotAccepted.record_attempt_contradiction u why c db)
  exec (claim_s3_check_attempt id t) c db =
      told (λ r. r.applied) (Postprocess.claim_s3_check_attempt id t c db)
  exec (record_image_verified id t k) c db =
      told (λ r. r.applied) (Postprocess.record_image_verified id t k c db)
  exec (claim_llm_generation_attempt id t) c db =
      told (λ r. r.applied) (Postprocess.claim_llm_generation_attempt id t c db)
  exec (move_to_fallback id t s) c db =
      told (λ r. r.applied) (Fallback.move_to_fallback id t s c db)
  exec (prepare_fallback id t u) c db =
      told (λ r. r.applied) (Fallback.prepare_fallback id t u c db)
  exec (record_fallback_image id t k) c db =
      told (λ r. r.applied) (Fallback.record_fallback_image id t k c db)
  exec (claim_fallback_attempt id t) c db =
      told (λ r. r.applied) (Fallback.claim_fallback_attempt id t c db)
  exec (save_final_result id t p k) c db =
      told (λ r. r.applied) (Publication.save_final_result id t p k c db)
  exec (claim_result_message_attempt id t) c db =
      told (λ r. r.applied) (Publication.claim_result_message_attempt id t c db)
  exec (mark_result_published id t s) c db =
      told (λ r. r.applied) (Publication.mark_result_published id t s c db)
  exec (mark_result_retry_exhausted id t) c db =
      told (λ r. r.applied) (Publication.mark_result_retry_exhausted id t c db)
  exec (begin_submission id t u) c db =
      told (λ r. r.granted) (Begin.begin_submission limits id t u c db)
  exec (begin_retry_submission id t p u) c db =
      told (λ r. r.granted) (Begin.begin_retry_submission limits id t p u c db)
  exec (begin_fallback id t u) c db =
      told (λ r. r.granted) (Begin.begin_fallback limits id t u c db)
  exec (finish_send id) c db = told (λ _. true) (Release.finish_send id c db)
  exec (defer_sends d) c db = told (λ r. r) (Release.defer_sends d c db)
  exec (hold_sends why) c db = told (λ _. true) (Release.hold_sends why c db)
  exec (release_in_flight id u) c db = told (λ r. r) (Release.release_in_flight id u c db)
  exec (cancel_unsent id t u) c db = told (λ r. r) (Release.cancel_unsent id t u c db)

  -- The tables after a history.
  unfoldable pub run : List (Command × Clock) → Db → Db
  unfolding exec
  run [] db = db
  run ((command, c) ∷ rest) db = run rest (exec command c db).1
