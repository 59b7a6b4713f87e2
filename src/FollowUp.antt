-- ===== src/FollowUp.antt =====
-- `FollowUpProcessor` of app/virtual_fitting/postprocess_worker.py and `publish_follow_up` of
-- app/virtual_fitting/follow_up_queue.py: one message of ai-fitting-response is handled, and it is decided
-- whether it may be deleted. The handlers are parameters, as they are in the source.
pub mod Reasons
pub mod Deletes
use Prim.Native.String.{◌++◌}
use ktb4_15th_ai.Prelude.{
  ℕ, String, Bool, true, false, not, ◌&&◌, ◌||◌, Option, none, some, if◌then◌else◌,
}
use ktb4_15th_ai.Job.{
  Uuid, Status, completed, failed, NextAction, submit_pruna, publish_result, Job, MessageStatus,
  published, fallback_running, is_status, is_action,
}
use ktb4_15th_ai.Job
use ktb4_15th_ai.Store.{has_task}
use ktb4_15th_ai.JobState.Change.{ChangeReason, state_mismatch}
use ktb4_15th_ai.JobState.Lease.{LeaseGrant, acquire_lease, release_lease}
use ktb4_15th_ai.JobTable.{find_by_fitting_job_id}
use ktb4_15th_ai.NextStep.{NextStep, deletion_allowed}
use ktb4_15th_ai.Publisher.{SqsOutcome}
use ktb4_15th_ai.Process
use ktb4_15th_ai.Process.{Env, pure, ◌>>=◌, ◌>>◌, catch, emit, ask, call}
use ktb4_15th_ai.Handlers.{
  found, queued, delivered, Run, HandlerResult, finished, deferred, reason_value,
}
use ktb4_15th_ai.Sending.{ignore, is_sent}

-- `FollowUpMessage`.
pub record FollowUpMessage : Type 0 where
  pub fitting_job_id : ℕ
  pub task_uuid : Uuid
  pub action : NextAction

-- `ValidFollowUp` and `InvalidFollowUp`, each with the id of its message.
pub data FollowUp : Type 0 where
  valid : String → FollowUpMessage → FollowUp
  invalid : String → Option ℕ → FollowUp

-- `RequestOutcome`.
pub record RequestOutcome : Type 0 where
  pub message_id : String
  pub fitting_job_id : Option ℕ
  pub action : String
  pub delete : Bool

-- `ActionHandler`: what it does with the token of the lease and the row of the job.
abbrev pub ActionHandler : Type 0
ActionHandler = String → Job → Run HandlerResult

-- `PostprocessHandlers`.
pub record PostprocessHandlers : Type 0 where
  pub postprocess : Option ActionHandler
  pub run_fallback : Option ActionHandler

abbrev pub for_action : PostprocessHandlers → NextAction → Option ActionHandler
for_action h Job.postprocess = h.postprocess
for_action h Job.run_fallback = h.run_fallback
for_action h _ = none

-- The settings of the Worker, and what it meets at each moment.
pub record Processor : Type 0 where
  pub env : Env
  pub handlers : PostprocessHandlers
  pub lease : ℕ
  pub stopping : ℕ → Bool
  pub may_continue : ℕ → Bool
  pub keepalive_failed : ℕ → Bool
  pub send_json : ℕ → SqsOutcome
  pub ready_for : ℕ → Job → NextStep → Bool

-- `_published`.
abbrev pub message_sent : MessageStatus → Bool
message_sent published = true
message_sent _ = false

abbrev pub row_published : Option Job → Bool
row_published none = false
row_published (some r) =
    (is_status r.status completed || is_status r.status Status.failed)
    && message_sent r.result_message_status

-- `EXPECTED_STATUS` and `_waiting_for`.
abbrev pub in_status_for : NextAction → Status → Bool
in_status_for Job.postprocess s = is_status s Job.postprocessing
in_status_for Job.run_fallback s = is_status s fallback_running
in_status_for _ s = false

abbrev pub waiting_for : NextAction → Job → Bool
waiting_for action r = in_status_for action r.status && is_action r.next_action action

abbrev pub is_mismatch : ChangeReason → Bool
is_mismatch state_mismatch = true
is_mismatch _ = false

abbrev pub hands_to : Job → Option NextAction → Option NextAction
hands_to r none = none
hands_to r (some action) = if waiting_for action r then some action else none

module _ (s : Processor) (id : ℕ) (message_id : String) where
  abbrev pub outcome : String → Bool → Run RequestOutcome
  outcome name delete =
      pure (record {
        message_id = message_id;
        fitting_job_id = some id;
        action = name;
        delete = delete;
      })

  -- `find_by_fitting_job_id`, and the row that it gives.
  abbrev pub look_up : Run (Option Job)
  look_up = call s.env (find_by_fitting_job_id id) >>= λ row. emit (found id row) >> pure row

  -- The message may go if the result is out, or if there is a path for the rest.
  abbrev pub judge : String → Option Job → Run RequestOutcome
  judge name row = ask s.env s.ready_for >>= λ ready.
      outcome name (row_published row || deletion_allowed row ready)

  abbrev pub when_sent : NextAction → String → Bool → Run RequestOutcome
  when_sent action name sent =
      if sent
      then emit (delivered id action) >> outcome (name ++ "_deleted") true
      else outcome (name ++ "_publish_failed_kept") false

  abbrev pub publish_to : NextAction → String → Option ActionHandler → Run RequestOutcome
  publish_to action name none = outcome (name ++ "_target_not_connected_kept") false
  publish_to action name (some h) =
      emit (queued id action)
      >> (ask s.env s.send_json >>= λ answer. when_sent action name (is_sent answer))

  -- `_hand_off`.
  unfoldable pub hand_off : NextAction → String → Run RequestOutcome
  unfolding ask
  hand_off action name = publish_to action name (for_action s.handlers action)

  abbrev pub hand_or_judge : Job → Option NextAction → Run RequestOutcome
  hand_or_judge latest none = judge "handler_done" (some latest)
  hand_or_judge latest (some action) = hand_off action "handed_off"

  abbrev pub after_done : NextAction → Option NextAction → Option Job → Run RequestOutcome
  after_done action handoff none = outcome "handler_done_not_recorded_kept" false
  after_done action handoff (some latest) =
      if waiting_for action latest && not (row_published (some latest))
      then outcome "handler_done_not_recorded_kept" false
      else hand_or_judge latest (hands_to latest handoff)

  -- The handler says what it did; the tables decide.
  abbrev pub after_result : NextAction → HandlerResult → Run RequestOutcome
  after_result action (deferred reason) = outcome "handler_deferred_kept" false
  after_result action (finished reason handoff) = look_up >>= after_done action handoff

  abbrev pub if_kept_alive : NextAction → HandlerResult → Bool → Run RequestOutcome
  if_kept_alive action result lost =
      if lost then outcome "keepalive_failed_kept" false else after_result action result

  abbrev pub after_handler : NextAction → Option HandlerResult → Run RequestOutcome
  after_handler action none = outcome "handler_error_kept" false
  after_handler action (some result) = ask s.env s.keepalive_failed >>= if_kept_alive action result

  abbrev pub handled_by : ActionHandler → String → Job → Run (Option HandlerResult)
  handled_by h token job = catch (h token job >>= λ r. pure (some r)) λ _. pure none

  abbrev pub if_may : ActionHandler → String → NextAction → Job → Bool → Run RequestOutcome
  if_may h token action job may =
      if may
      then handled_by h token job >>= after_handler action
      else outcome "not_started_kept" false

  -- What is done with the lease, after another look at the row.
  unfoldable pub with_lease :
      ActionHandler → String → FollowUpMessage → Option Job → Run RequestOutcome
  unfolding ask call find_by_fitting_job_id deletion_allowed hand_off
  with_lease h token message none = outcome "state_changed_kept" false
  with_lease h token message (some job) =
      if not (has_task message.task_uuid job) || not (waiting_for message.action job)
      then outcome "state_changed_kept" false
      else ask s.env s.may_continue >>= if_may h token message.action job

  abbrev pub refused_lease : LeaseGrant → Run RequestOutcome
  refused_lease grant =
      if is_mismatch grant.reason
      then look_up >>= judge ("lease_" ++ reason_value grant.reason)
      else outcome ("lease_" ++ reason_value grant.reason) false

  abbrev pub leased : ActionHandler → String → FollowUpMessage → LeaseGrant → Run RequestOutcome
  leased h token message grant =
      if grant.acquired
      then Process.finally (with_lease h token message grant.job)
          (ignore (call s.env (release_lease id token)))
      else refused_lease grant

  abbrev pub unless_stopping : ActionHandler → String → FollowUpMessage → Bool → Run RequestOutcome
  unless_stopping h token message stop =
      if stop
      then outcome "stopping_kept" false
      else call s.env (acquire_lease token id message.action s.lease) >>= leased h token message

  abbrev pub handle_with : String → FollowUpMessage → Option ActionHandler → Run RequestOutcome
  handle_with token message none = outcome "handler_not_connected_kept" false
  handle_with token message (some h) = ask s.env s.stopping >>= unless_stopping h token message

  abbrev pub other_state : FollowUpMessage → Job → Run RequestOutcome
  other_state message job =
      if is_action (some message.action) Job.postprocess && waiting_for Job.run_fallback job
      then hand_off Job.run_fallback "republished"
      else ask s.env s.ready_for >>= λ ready.
          outcome "state_mismatch" (deletion_allowed (some job) ready)

  abbrev pub with_row : String → FollowUpMessage → Option Job → Run RequestOutcome
  with_row token message none = outcome "unknown_job_kept" false
  with_row token message (some job) =
      if not (has_task message.task_uuid job)
      then outcome "task_mismatch_kept" false
      else if row_published (some job)
      then outcome "already_published_deleted" true
      else if not (waiting_for message.action job)
      then other_state message job
      else handle_with token message (for_action s.handlers message.action)

  -- `_valid`.
  unfoldable pub process_valid : String → FollowUpMessage → Run RequestOutcome
  unfolding with_lease call ask find_by_fitting_job_id deletion_allowed hand_off acquire_lease
      release_lease reason_value
  process_valid token message = look_up >>= with_row token message

-- `process`; `token` is the one that `acquire_lease` makes.
unfoldable pub process : Processor → String → FollowUp → Run RequestOutcome
unfolding process_valid
process s token (invalid message_id id) = pure (record {
  message_id = message_id;
  fitting_job_id = id;
  action = "invalid_kept";
  delete = false;
})
process s token (valid message_id message) =
    catch (process_valid s message.fitting_job_id message_id token message)
      λ _. outcome s message.fitting_job_id message_id "error_kept" false
