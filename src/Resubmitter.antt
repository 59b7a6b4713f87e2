-- ===== src/Resubmitter.antt =====
-- `PrunaResubmitter` of app/virtual_fitting/pruna_resubmit.py: the call of Runware that was not accepted is
-- made again once it is due. Its inputs are checked before it.
pub mod Ends
use Prim.Native.String.{◌++◌}
use ktb4_15th_ai.Prelude.{
  ℕ, String, Bool, true, false, not, ◌||◌, Option, none, some, List, [], ◌∷◌, is_none, ◌==◌,
  if◌then◌else◌,
}
use ktb4_15th_ai.Job.{Uuid, Job, submit_pruna}
use ktb4_15th_ai.JobState.Change.{ChangeReason, applied, already_recorded, StateChange}
use ktb4_15th_ai.JobState.Lease.{LeaseGrant, acquire_lease, release_lease}
use ktb4_15th_ai.JobState.Publication.{save_final_result}
use ktb4_15th_ai.JobTable.{find_by_fitting_job_id}
use ktb4_15th_ai.NextStep.{not_accepted_pending}
use ktb4_15th_ai.Process
use ktb4_15th_ai.Process.{Failure, other_error, pure, throw, ◌>>=◌, ◌>>◌, catch, ask, call}
use ktb4_15th_ai.Handlers.{Run, Check, fine, fails_with, postponed, broken, reason_value}
use ktb4_15th_ai.Precheck.{Checks, run_precheck}
use ktb4_15th_ai.Sending.{Meeting, failure_payload, ignore}
use ktb4_15th_ai.Submitter.{submit}

-- The settings of the resubmitter, and what it meets. `m.beat` extends the lease.
pub record Resubmission : Type 0 where
  pub meeting : Meeting
  pub lease : ℕ
  pub stopping : ℕ → Bool
  pub checks : Checks

-- The inputs that the job was made with are still there.
abbrev pub no_inputs : Option String → Option (List String) → Bool
no_inputs (some key) (some (p ∷ products)) = false
no_inputs _ _ = true

-- `APPLIED` or `ALREADY_RECORDED`.
abbrev pub is_saved : ChangeReason → Bool
is_saved applied = true
is_saved already_recorded = true
is_saved _ = false

-- The two are the same, or both are missing.
abbrev pub equal_task : Option Uuid → Option Uuid → Bool
equal_task none none = true
equal_task (some a) (some b) = a == b
equal_task _ _ = false

-- Whether the row has another task now: the call was made.
abbrev pub sent_text : Option Uuid → Option Job → String
sent_text before none = "not_sent"
sent_text before (some latest) = if equal_task latest.task_uuid before then "not_sent" else "sent"

module _ (s : Resubmission) (id : ℕ) (token : String) where
  abbrev pub failure_saved : String → StateChange → Run String
  failure_saved code saved = pure (
      if is_saved saved.reason
      then "precheck_failed_" ++ code
      else "precheck_failure_not_saved_" ++ reason_value saved.reason)

  abbrev pub looked_up : Job → Bool → Run String
  looked_up job deletable = call s.meeting.env (find_by_fitting_job_id id) >>= λ latest.
      pure (sent_text job.task_uuid latest)

  abbrev pub when_alive : Job → Bool → Run String
  when_alive job alive =
      if alive then submit s.meeting id token job >>= looked_up job else pure "heartbeat_failed"

  abbrev pub prechecked : Job → Check → Run String
  prechecked job fine = ask s.meeting.env s.meeting.beat >>= when_alive job
  prechecked job (postponed reason) = pure ("precheck_retry_" ++ reason)
  prechecked job (fails_with code message) =
      call s.meeting.env (save_final_result id token (failure_payload id code message) none)
      >>= failure_saved code
  prechecked job broken = throw other_error

  -- What is done with the lease.
  unfoldable pub with_lease : Option Job → Run String
  unfolding submit run_precheck call ask find_by_fitting_job_id save_final_result
      not_accepted_pending reason_value
  with_lease none = pure "not_scheduled"
  with_lease (some job) =
      if not (not_accepted_pending job) || is_none job.pruna_retry_at
      then pure "not_scheduled"
      else if no_inputs job.user_image_key job.products
      then pure "input_missing"
      else run_precheck s.meeting.env s.checks >>= prechecked job

  abbrev pub leased : LeaseGrant → Run String
  leased grant =
      if grant.acquired
      then Process.finally (with_lease grant.job)
          (ignore (call s.meeting.env (release_lease id token)))
      else pure ("lease_" ++ reason_value grant.reason)

  abbrev pub unless_stopping : Bool → Run String
  unless_stopping stop =
      if stop
      then pure "stopping"
      else call s.meeting.env (acquire_lease token id submit_pruna s.lease) >>= leased

  -- `_run`; `token` is the one that `acquire_lease` makes.
  unfoldable pub run : Run String
  unfolding with_lease ask call acquire_lease release_lease reason_value
  run = ask s.meeting.env s.stopping >>= unless_stopping

  -- `PrunaResubmitter.__call__`.
  unfoldable pub resubmit_job : Run String
  unfolding run
  resubmit_job = catch run λ _. pure "error"
