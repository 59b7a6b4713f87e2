-- ===== src/Paths.antt =====
-- Which paths a deployment has for the rest of a job, from app/virtual_fitting/watchdog.py (`WatchdogPaths`,
-- `PostprocessPaths`, `AnyFollowUpPaths`, `follow_up_paths`) and app/virtual_fitting/result_publisher.py
-- (`ResultPublishPaths`); and what these mean for the request message of the job.
use ktb4_15th_ai.Prelude.{◌≡◌, Bool, true, false, not, ◌&&◌, ◌||◌, some, arith, is_some, is_none}
use ktb4_15th_ai.Job.{Job, MessageStatus, published, pending, is_pending, is_action, is_terminal}
use ktb4_15th_ai.Job
use ktb4_15th_ai.Rules.{IsValid}
use ktb4_15th_ai.NextStep.{
  NextStep, await_webhook, postprocess, publish_result, recover_unknown, resubmit_pruna,
  recover_result_ref, auth_hold_active, awaiting_result_url, not_accepted_pending, is_unknown,
  next_step_for, deletion_allowed,
}

-- The Workers of the process that are registered and alive, whether the Watchdog can send again, and
-- whether the address of each queue passes its check.
pub record Deployment : Type 0 where
  pub publisher_alive : Bool
  pub watchdog_alive : Bool
  pub watchdog_resubmits : Bool
  pub postprocess_running : Bool
  pub result_queue : Bool
  pub follow_up_queue : Bool

-- `ResultPublishPaths.ready_for`.
abbrev pub publisher_ready : Deployment → Job → NextStep → Bool
publisher_ready d r publish_result =
    d.publisher_alive
    && is_action r.next_action Job.publish_result
    && is_some r.result_payload
    && is_pending r.result_message_status
    && d.result_queue
publisher_ready d r _ = false

-- `WatchdogPaths.ready_for`.
abbrev pub watchdog_ready : Deployment → Job → NextStep → Bool
watchdog_ready d r await_webhook = d.watchdog_alive && is_some r.task_uuid && d.follow_up_queue
watchdog_ready d r recover_unknown = d.watchdog_alive && is_some r.task_uuid && d.follow_up_queue
watchdog_ready d r recover_result_ref = d.watchdog_alive && is_some r.task_uuid && d.follow_up_queue
watchdog_ready d r resubmit_pruna =
    d.watchdog_alive && is_some r.task_uuid && (d.watchdog_resubmits && is_some r.pruna_retry_at)
watchdog_ready d r _ = false

-- `PostprocessPaths.ready_for`.
abbrev pub postprocess_ready : Deployment → Job → NextStep → Bool
postprocess_ready d r postprocess =
    is_action r.next_action Job.postprocess
    && is_none r.result_payload
    && is_some r.task_uuid
    && d.postprocess_running
    && d.watchdog_alive
    && d.follow_up_queue
postprocess_ready d r _ = false

-- `follow_up_paths`, with `AnyFollowUpPaths.ready_for`.
unfoldable pub follow_up_paths : Deployment → Job → NextStep → Bool
follow_up_paths d r step =
    publisher_ready d r step || watchdog_ready d r step || postprocess_ready d r step

-- All the Workers are alive, and all the queues have an address.
abbrev pub full : Deployment
full = record {
  publisher_alive = true;
  watchdog_alive = true;
  watchdog_resubmits = true;
  postprocess_running = true;
  result_queue = true;
  follow_up_queue = true;
}

-- A job that nobody would go on with: it waits for an operator, its fallback hangs on the message, or the
-- attempts to send its result are used up.
abbrev pub needs_message : Job → Bool
needs_message r =
    auth_hold_active r
    || is_action r.next_action Job.run_fallback
    || not_accepted_pending r && is_none r.pruna_retry_at
    || is_action r.next_action Job.publish_result && not (is_pending r.result_message_status)

-- If a job keeps the rules and the call of Pruna may have been sent, then in a deployment that has all its
-- Workers its request message may be deleted just if the job does not wait for an operator, for its
-- fallback, or with a result whose attempts to be sent are used up.
pub deletion_allowed-full :
    (r : Job)
    → IsValid r
    → is_some r.pruna_submit_started_at ≡ true
    → deletion_allowed (some r) (follow_up_paths full) ≡ not (needs_message r)
unfolding deletion_allowed next_step_for follow_up_paths auth_hold_active awaiting_result_url
    not_accepted_pending is_unknown
deletion_allowed-full r v started = ground arith
