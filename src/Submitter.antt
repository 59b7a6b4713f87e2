-- ===== src/Submitter.antt =====
-- `PrunaSubmitter` of app/virtual_fitting/pruna_submitter.py: a job is prepared, waits for a place, and is
-- sent to Runware once: `_recheck`, `_wait_for_slot`, `_resubmit` and `__call__`.
pub mod Grants
pub mod Sends
pub mod Waits
pub mod Ends
use ktb4_15th_ai.Prelude.{
  ℕ, zero, suc, ◌+◌, ◌-◌, String, Bool, true, false, not, ◌&&◌, ◌||◌, Option, none, some, List, [],
  ◌∷◌, ◌==◌, leb, min, find, is_some, is_none, str_eq, if◌then◌else◌,
}
use ktb4_15th_ai.Payload.{ℤ, Fields, failed, pos, to_fields}
use ktb4_15th_ai.Job.{
  Uuid, Job, fallback_running, run_fallback, submit_response, is_status, is_action,
}
use ktb4_15th_ai.Store.{Db, Op}
use ktb4_15th_ai.JobState.Change.{StateChange}
use ktb4_15th_ai.JobState.Submission.{prepare_pruna_submission}
use ktb4_15th_ai.JobState.Events.{record_submission_accepted, record_auth_hold, record_pruna_failed}
use ktb4_15th_ai.JobState.NotAccepted.{record_not_accepted}
use ktb4_15th_ai.JobState.Publication.{save_final_result}
use ktb4_15th_ai.JobTable.{find_by_fitting_job_id}
use ktb4_15th_ai.Limiter.Slot.{SubmissionGrant}
use ktb4_15th_ai.Limiter.Begin.{begin_submission, begin_retry_submission}
use ktb4_15th_ai.Limiter.Release.{
  finish_send, defer_sends, hold_sends, release_in_flight, cancel_unsent,
}
use ktb4_15th_ai.NextStep.{NextStep, not_accepted_pending, deletion_allowed}
use ktb4_15th_ai.Publisher.{SqsOutcome, succeeded}
use ktb4_15th_ai.Async.{async_result_key}
use ktb4_15th_ai.Process
use ktb4_15th_ai.Process.{
  other_error, Env, pure, throw, exhausted, ◌>>=◌, ◌>>◌, catch, need, emit, tables, read_clock, ask,
  sleep, call,
}
use ktb4_15th_ai.Handlers.{submitted, queued, Run, Check, fine, fails_with, postponed, broken}
use ktb4_15th_ai.Handlers.Texts.{recorded_before}
use ktb4_15th_ai.Handlers.Fallback.{waits_for_slot, wait_or, unless_fitting}
use ktb4_15th_ai.Sending.{
  AsyncSubmission, Meeting, SubmissionOutcome, SubmitAnswer, accepted, after_submit, auth_status,
  crashed, decide, decide_on, defer, failure_payload, handed_over, hold_for, if_recorded, ignore,
  input_rejected, is_auth_code, is_not_accepted_code, is_sent, keep_wait, key_or, not_begun,
  record_outcome, refuse, refused_by, rejected, replied, send, send_once, settle, take_back,
  unknown, unless_failed, waiting_for_fallback,
}

module _ (m : Meeting) (id : ℕ) (token : String) where
  abbrev pub money_rechecked : Check → Run Bool
  money_rechecked fine = pure true
  money_rechecked (fails_with code message) =
      ignore (call m.env (save_final_result id token (failure_payload id code message) none))
      >> pure false
  money_rechecked (postponed code) = pure false
  money_rechecked broken = throw other_error

  -- `_recheck`.
  unfoldable pub recheck : Run Bool
  unfolding ask call save_final_result to_fields
  recheck = ask m.env m.money >>= money_rechecked

  module _ (task retry_task : Option Uuid) (started : ℕ) where
    -- `begin_submission`, or `begin_retry_submission` where there is a new task for it.
    unfoldable pub begin : Option Uuid → Op SubmissionGrant
    unfolding begin_submission begin_retry_submission
    begin none = begin_submission m.env.limits id token task
    begin (some retry) = begin_retry_submission m.env.limits id token task (some retry)

    abbrev pub refused_slot : (ℕ → Run Bool) → ℕ → SubmissionGrant → Run Bool
    refused_slot again last g = if not (waits_for_slot g.reason) then pure false else do
      now ← read_clock
      if leb m.max_wait (now - started) then pure false else do
        sleep m.env (min (min m.poll (wait_or g.wait m.poll)) (m.max_wait - (now - started)))
        again last

    abbrev pub slot_answer : (ℕ → Run Bool) → ℕ → SubmissionGrant → Run Bool
    slot_answer again last g = if g.granted then pure true else refused_slot again last g

    abbrev pub signed_slot : (ℕ → Run Bool) → ℕ → Bool → Run Bool
    signed_slot again last signed =
        if signed
        then call m.env (begin retry_task) >>= slot_answer again last
        else throw other_error

    abbrev pub try_slot : (ℕ → Run Bool) → ℕ → Run Bool
    try_slot again last = ask m.env m.signed >>= signed_slot again last

    abbrev pub rechecked : (ℕ → Run Bool) → Bool → Run Bool
    rechecked again still = if still then read_clock >>= try_slot again else pure false

    abbrev pub recheck_due : (ℕ → Run Bool) → ℕ → ℕ → Run Bool
    recheck_due again last now =
        if leb m.recheck_after (now - last)
        then recheck >>= rechecked again
        else try_slot again last

    abbrev pub beaten : (ℕ → Run Bool) → ℕ → Bool → Run Bool
    beaten again last alive = if alive then read_clock >>= recheck_due again last else pure false

    abbrev pub if_running : (ℕ → Run Bool) → ℕ → Bool → Run Bool
    if_running again last stop = if stop then pure false else ask m.env m.beat >>= beaten again last

    -- `_wait_for_slot`: whether a place was taken; `last` is the time of the last check.
    unfoldable pub wait_for_slot : ℕ → ℕ → Run Bool
    unfolding ask call sleep begin recheck
    wait_for_slot zero last = exhausted
    wait_for_slot (suc fuel) last = ask m.env m.should_stop >>= if_running (wait_for_slot fuel) last

  abbrev pub if_granted : Option Uuid → Bool → Run Bool
  if_granted task granted = if granted then send m id token task else pure false

  -- The wait for a place, and the call with the task that it is for.
  unfoldable pub wait_and_send : Option Uuid → Option Uuid → Option Uuid → Run Bool
  unfolding wait_for_slot send
  wait_and_send task retry_task sent_task = read_clock >>= λ started.
      (wait_for_slot task retry_task started (suc m.max_wait) started >>= if_granted sent_task)

  -- `_resubmit`.
  unfoldable pub resubmit : Job → Run Bool
  unfolding ask wait_and_send
  resubmit job =
      ask m.env m.new_task_uuid >>= λ retry. wait_and_send job.task_uuid (some retry) (some retry)

  abbrev pub submit_job : Job → Run Bool
  submit_job job =
      if not_accepted_pending job
      then (if is_none job.pruna_retry_at then pure false else resubmit job)
      else if is_some job.pruna_submit_started_at
      then decide m id token
      else wait_and_send job.task_uuid none job.task_uuid

  abbrev pub prepared : StateChange → Run Bool
  prepared change =
      if change.applied || recorded_before change.reason
      then need change.job >>= submit_job
      else pure false

  abbrev pub prepare_with : Option String → Uuid → Run Bool
  prepare_with key task =
      call m.env
        (prepare_pruna_submission id token (some task) (key_or key (async_result_key id)) true)
      >>= prepared

  abbrev pub with_task : Option Uuid → (Uuid → Run Bool) → Run Bool
  with_task none f = ask m.env m.new_task_uuid >>= f
  with_task (some task) f = f task

  -- `PrunaSubmitter.__call__`: whether the request message may be deleted.
  unfoldable pub submit : Job → Run Bool
  unfolding call ask prepare_pruna_submission async_result_key not_accepted_pending resubmit decide
      wait_and_send
  submit job =
      if m.webhook_ready
      then with_task job.task_uuid (prepare_with job.async_image_key)
      else pure false
