-- ===== src/NextStep.antt =====
-- How a request message ends: `NextStep`, `auth_hold_active`, `awaiting_result_url`,
-- `not_accepted_pending`, `next_step_for` and `deletion_allowed` of
-- app/virtual_fitting/pruna_submitter.py. The paths that a deployment has are a parameter.
use ktb4_15th_ai.Prelude.{
  Bool, true, false, ◌&&◌, ◌||◌, Option, none, some, is_some, is_none, is_number, if◌then◌else◌,
}
use ktb4_15th_ai.Job.{
  Uuid, Job, received, waiting_pruna, postprocessing, submit_pruna, MessageStatus, published,
  is_status, is_action, is_terminal,
}
use ktb4_15th_ai.Job

pub data NextStep : Type 0 where
  await_webhook postprocess run_fallback publish_result recover_unknown resubmit_pruna : NextStep
  recover_result_ref operator_review : NextStep

abbrev same_task : Option Uuid → Option Uuid → Bool
same_task none b = false
same_task (some a) b = is_number b a

unfoldable pub auth_hold_active : Job → Bool
auth_hold_active r =
    is_some r.auth_hold_task_uuid
    && same_task r.auth_hold_task_uuid r.task_uuid
    && (is_status r.status received || is_status r.status waiting_pruna)
    && is_none r.result_payload
    && (is_none r.next_action || is_action r.next_action submit_pruna)

unfoldable pub awaiting_result_url : Job → Bool
awaiting_result_url r =
    r.ai_stores_result
    && is_none r.verified_image_key
    && is_none r.runware_image_url
    && is_status r.status postprocessing
    && is_action r.next_action Job.postprocess
    && is_none r.result_payload

unfoldable pub not_accepted_pending : Job → Bool
not_accepted_pending r =
    is_status r.status received
    && is_action r.next_action submit_pruna
    && is_none r.result_payload
    && is_some r.pruna_not_accepted_at

-- The call may have been sent, and nothing is known of it.
unfoldable pub is_unknown : Job → Bool
is_unknown r =
    is_status r.status received
    && is_action r.next_action submit_pruna
    && is_some r.task_uuid
    && is_some r.pruna_submit_started_at
    && is_none r.runware_accepted_at

unfoldable pub next_step_for : Job → Option NextStep
unfolding auth_hold_active awaiting_result_url not_accepted_pending is_unknown
next_step_for r =
    if is_terminal r.status
    then none
    else if auth_hold_active r
    then some operator_review
    else if is_action r.next_action Job.publish_result && is_some r.result_payload
    then some publish_result
    else if is_action r.next_action Job.run_fallback
    then some run_fallback
    else if is_action r.next_action Job.postprocess
    then some (if awaiting_result_url r then recover_result_ref else postprocess)
    else if is_status r.status waiting_pruna
        && is_none r.next_action
        && is_some r.runware_accepted_at
    then some await_webhook
    else if not_accepted_pending r
    then some (if is_some r.pruna_retry_at then resubmit_pruna else operator_review)
    else if is_unknown r
    then some recover_unknown
    else none

abbrev is_sent : MessageStatus → Bool
is_sent published = true
is_sent _ = false

abbrev pub path_ready : (Job → NextStep → Bool) → Job → Option NextStep → Bool
path_ready ready_for r none = false
path_ready ready_for r (some step) = ready_for r step

unfoldable pub deletion_allowed : Option Job → (Job → NextStep → Bool) → Bool
unfolding next_step_for
deletion_allowed none ready_for = false
deletion_allowed (some r) ready_for =
    is_terminal r.status && is_sent r.result_message_status
    || path_ready ready_for r (next_step_for r)
