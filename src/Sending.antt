-- ===== src/Sending.antt =====
-- The one call of Runware by `PrunaSubmitter` of app/virtual_fitting/pruna_submitter.py, what is done about its
-- answer, and the decision about the request message: `_decide`, `_rejected` and `_send`. What the thread
-- of `keepalive` and `heartbeat.beat` write is among what happens before the next transaction.
use ktb4_15th_ai.Prelude.{
  ℕ, String, Bool, true, false, ◌&&◌, ◌||◌, Option, none, some, List, ◌==◌, find, is_some, is_none,
  str_eq, if◌then◌else◌,
}
use ktb4_15th_ai.Payload.{ℤ, Fields, failed, pos, to_fields}
use ktb4_15th_ai.Job.{
  Uuid, Job, fallback_running, run_fallback, submit_response, is_status, is_action,
}
use ktb4_15th_ai.JobState.Events.{record_submission_accepted, record_auth_hold, record_pruna_failed}
use ktb4_15th_ai.JobState.NotAccepted.{record_not_accepted}
use ktb4_15th_ai.JobState.Publication.{save_final_result}
use ktb4_15th_ai.JobTable.{find_by_fitting_job_id}
use ktb4_15th_ai.Limiter.Release.{
  finish_send, defer_sends, hold_sends, release_in_flight, cancel_unsent,
}
use ktb4_15th_ai.NextStep.{NextStep, deletion_allowed}
use ktb4_15th_ai.Publisher.{SqsOutcome, succeeded}
use ktb4_15th_ai.Process
use ktb4_15th_ai.Process.{
  other_error, Env, pure, throw, exhausted, ◌>>=◌, ◌>>◌, catch, need, emit, tables, read_clock, ask,
  sleep, call,
}
use ktb4_15th_ai.Handlers.{submitted, queued, Run, Check}
use ktb4_15th_ai.Handlers.Fallback.{unless_fitting}

-- `SubmissionOutcome`.
pub data SubmissionOutcome : Type 0 where
  accepted rejected unknown : SubmissionOutcome

-- `AsyncSubmission`.
pub record AsyncSubmission : Type 0 where
  pub outcome : SubmissionOutcome
  pub reason : String
  pub http_status : Option ℕ
  pub error_codes : List String
  pub retry_after : Option ℤ
  pub retry_after_unrepresentable : Bool

-- How the call of the provider ends: with a result, with `ValueError` before it was sent, with another
-- exception after that, or with an exception of `keepalive` before it.
pub data SubmitAnswer : Type 0 where
  replied : AsyncSubmission → SubmitAnswer
  input_rejected crashed not_begun : SubmitAnswer

-- The settings of the submitter, and what it meets at each moment.
pub record Meeting : Type 0 where
  pub env : Env
  pub webhook_ready : Bool
  pub queue_set : Bool
  pub max_wait : ℕ
  pub poll : ℕ
  pub recheck_after : ℕ
  pub should_stop : ℕ → Bool
  pub beat : ℕ → Bool
  pub keepalive_failed : ℕ → Bool
  pub new_task_uuid : ℕ → Uuid
  pub signed : ℕ → Bool
  pub money : ℕ → Check
  pub submit : ℕ → SubmitAnswer
  pub send_json : ℕ → SqsOutcome
  pub ready_for : ℕ → Job → NextStep → Bool

-- `failure_payload`.
abbrev pub failure_payload : ℕ → String → String → Fields
failure_payload id code message = to_fields (failed (pos id) code message)

-- `waiting_for_fallback`.
abbrev pub waiting_for_fallback : Option Job → Bool
waiting_for_fallback none = false
waiting_for_fallback (some r) =
    is_status r.status fallback_running
    && is_action r.next_action run_fallback
    && is_none r.result_payload

-- `NOT_ACCEPTED_CODES` and `AUTH_ERROR_CODES`.
abbrev pub is_not_accepted_code : String → Bool
is_not_accepted_code c = str_eq c "serviceOverloaded" || str_eq c "inferenceRateLimitExceeded"

abbrev pub is_auth_code : String → Bool
is_auth_code c = str_eq c "invalidApiKey"

-- The status that tells a refusal of our rights, as the reason of a hold.
abbrev pub auth_status : Option ℕ → Option String
auth_status none = none
auth_status (some code) =
    if code == 401 then some "http_401" else if code == 403 then some "http_403" else none

abbrev pub is_sent : SqsOutcome → Bool
is_sent succeeded = true
is_sent _ = false

-- `job.async_image_key or async_result_key(job_id)`.
abbrev pub key_or : Option String → String → String
key_or none key = key
key_or (some t) key = if str_eq t "" then key else t

abbrev pub ignore : {A : Type 0} → Run A → Run (Unit {0})
ignore m = m >>= λ _. pure tt

module _ (m : Meeting) (id : ℕ) (token : String) where
  abbrev pub handed_over : SqsOutcome → Run Bool
  handed_over answer = pure (is_sent answer)

  abbrev pub decide_on : Option Job → Run Bool
  decide_on latest =
      if waiting_for_fallback latest && m.queue_set
      then emit (queued id run_fallback) >> (ask m.env m.send_json >>= handed_over)
      else ask m.env m.ready_for >>= λ ready. pure (deletion_allowed latest ready)

  -- `_decide`: whether the request message may be deleted.
  unfoldable pub decide : Run Bool
  unfolding ask call find_by_fitting_job_id deletion_allowed
  decide = call m.env (find_by_fitting_job_id id) >>= decide_on

  abbrev pub hold_for : Uuid → Option String → List String → Run (Unit {0})
  hold_for task (some reason) codes = ignore (call m.env (record_auth_hold (some task) reason))
  hold_for task none codes = need (find is_auth_code codes) >>= λ code.
      ignore (call m.env (record_auth_hold (some task) code))

  abbrev pub refused_by : Uuid → AsyncSubmission → Run (Unit {0})
  refused_by task r =
      if str_eq r.reason "generation_fallback"
      then ignore (call m.env (record_pruna_failed (some task) true none))
      else if str_eq r.reason "generation_failed"
      then ignore (
          call m.env (
            record_pruna_failed (some task) false
              (some (failure_payload id "FITTING_MODEL_FAILED" "가상 피팅 이미지 생성에 실패했습니다."))))
      else if str_eq r.reason "balance_exhausted"
      then ignore (
          call m.env (
            save_final_result id token
              (failure_payload id "FITTING_BALANCE_EXHAUSTED"
                "현재 가상 피팅 서비스를 이용할 수 없습니다. 잠시 후 다시 시도해주세요.")
              none))
      else if str_eq r.reason "auth_error" || is_some (auth_status r.http_status)
      then hold_for task (auth_status r.http_status) r.error_codes
      else pure tt

  -- `_rejected`.
  unfoldable pub refuse : Uuid → AsyncSubmission → Run (Unit {0})
  unfolding call record_not_accepted record_auth_hold record_pruna_failed save_final_result
      release_in_flight to_fields
  refuse task r =
      if str_eq r.reason "not_accepted"
      then (need (find is_not_accepted_code r.error_codes) >>= λ code. ignore (
          call m.env (
            record_not_accepted (some task) code submit_response r.retry_after
              r.retry_after_unrepresentable)))
      else (ignore (call m.env (release_in_flight id (some (some task)))) >> refused_by task r)

  abbrev pub defer : Option ℤ → Run (Unit {0})
  defer none = pure tt
  defer (some d) = ignore (call m.env (defer_sends d))

  -- The wait that Runware asks for is kept for all Workers.
  unfoldable pub keep_wait : AsyncSubmission → Run (Unit {0})
  unfolding call defer_sends hold_sends
  keep_wait r =
      if r.retry_after_unrepresentable
      then call m.env (hold_sends "retry_after_unrepresentable")
      else defer r.retry_after

  -- The outcome is recorded: `false` where an acceptance could not be.
  unfoldable pub record_outcome : Uuid → AsyncSubmission → SubmissionOutcome → Run Bool
  unfolding call record_submission_accepted refuse
  record_outcome task r accepted =
      call m.env (record_submission_accepted (some task)) >>= λ change. pure change.applied
  record_outcome task r rejected = refuse task r >> pure true
  record_outcome task r unknown = pure true

  abbrev pub unless_failed : Bool → Run Bool
  unless_failed broken_off = if broken_off then pure false else decide

  abbrev pub if_recorded : Bool → Run Bool
  if_recorded recorded =
      if recorded then ask m.env m.keepalive_failed >>= unless_failed else pure false

  -- What is done about the answer of Runware, and whether the request message may be deleted.
  unfoldable pub settle : Uuid → Option AsyncSubmission → Run Bool
  unfolding keep_wait record_outcome ask decide
  settle task none = pure false
  settle task (some r) = keep_wait r >> (record_outcome task r r.outcome >>= if_recorded)

  -- What was not sent gives its place back.
  abbrev pub take_back : Uuid → Run (Unit {0})
  take_back task = ignore (call m.env (cancel_unsent id token (some task)))

  -- What follows from the call: the answer, or `none` where there is nothing to be done about it.
  abbrev pub after_submit : Uuid → SubmitAnswer → Run (Option AsyncSubmission)
  after_submit task (replied r) = tables >>= λ db. emit (submitted id task db) >> pure (some r)
  after_submit task crashed = tables >>= λ db. emit (submitted id task db) >> pure none
  after_submit task input_rejected = take_back task >> pure none
  after_submit task not_begun = take_back task >> throw other_error

  -- The one call of Runware, after which the place of the call is released.
  unfoldable pub send_once : Uuid → Run (Option AsyncSubmission)
  unfolding ask call cancel_unsent finish_send
  send_once task =
      Process.finally (ask m.env m.submit >>= after_submit task)
        (catch (call m.env (finish_send id)) unless_fitting)

  -- `_send`.
  unfoldable pub send : Option Uuid → Run Bool
  unfolding send_once settle
  send task = need task >>= λ task. (send_once task >>= settle task)
