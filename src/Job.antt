-- ===== src/Job.antt =====
-- The row of a job: the enumerations and `AsyncFittingJob` of
-- app/virtual_fitting/repositories/async_job_repository.py, and `PrunaAttempt` with the columns of
-- scripts/db/virtual_fitting_pruna_retry.sql. A time is a number of microseconds since the epoch, as
-- PostgreSQL's `timestamptz` holds it. A UUID is its 128-bit number.
use ktb4_15th_ai.Prelude.{ℕ, String, Bool, true, false, Option, List}
use ktb4_15th_ai.Payload.{Payload}

abbrev pub Uuid : Type 0
Uuid = ℕ

abbrev pub Time : Type 0
Time = ℕ

-- `AsyncJobStatus`.
pub data Status : Type 0 where
  received waiting_pruna postprocessing fallback_running completed failed : Status

pub data NextAction : Type 0 where
  submit_pruna postprocess run_fallback publish_result : NextAction

-- `ResultMessageStatus`.
pub data MessageStatus : Type 0 where
  pending published retry_exhausted : MessageStatus

-- `status = s`.
abbrev pub is_status : Status → Status → Bool
is_status received received = true
is_status waiting_pruna waiting_pruna = true
is_status postprocessing postprocessing = true
is_status fallback_running fallback_running = true
is_status completed completed = true
is_status failed failed = true
is_status _ _ = false

-- `status = ANY(terminal)`.
abbrev pub is_terminal : Status → Bool
is_terminal completed = true
is_terminal failed = true
is_terminal _ = false

-- `next_action = a`, which a NULL does not meet.
abbrev pub is_action : Option NextAction → NextAction → Bool
is_action (Option.some submit_pruna) submit_pruna = true
is_action (Option.some postprocess) postprocess = true
is_action (Option.some run_fallback) run_fallback = true
is_action (Option.some publish_result) publish_result = true
is_action _ _ = false

abbrev pub is_pending : MessageStatus → Bool
is_pending pending = true
is_pending _ = false

-- `AsyncFittingJob`.
pub record Job : Type 0 where
  pub fitting_job_id : ℕ
  pub request_fingerprint : String
  pub user_image_key : Option String
  pub products : Option (List String)
  pub task_uuid : Option Uuid
  pub async_image_key : Option String
  pub result_image_key : Option String
  pub status : Status
  pub requested_at : Time
  pub created_at : Time
  pub updated_at : Time
  pub pruna_submit_started_at : Option Time
  pub runware_accepted_at : Option Time
  pub next_action : Option NextAction
  pub verified_image_key : Option String
  pub image_verified_at : Option Time
  pub result_payload : Option Payload
  pub result_message_status : MessageStatus
  pub result_message_attempt_count : ℕ
  pub llm_generation_attempt_count : ℕ
  pub fallback_attempt_count : ℕ
  pub s3_check_attempt_count : ℕ
  pub worker_lease_token : Option String
  pub worker_lease_until : Option Time
  pub fallback_task_uuid : Option Uuid
  pub fallback_started_at : Option Time
  pub fallback_image_key : Option String
  pub auth_hold_task_uuid : Option Uuid
  pub auth_hold_reason : Option String
  pub auth_hold_at : Option Time
  pub runware_image_url : Option String
  pub runware_image_uuid : Option Uuid
  pub ai_stores_result : Bool
  pub pruna_not_accepted_at : Option Time
  pub pruna_retry_at : Option Time

-- `NotAcceptedSource`.
pub data NotAcceptedSource : Type 0 where
  submit_response webhook status_query : NotAcceptedSource

-- A row of virtual_fitting_pruna_attempts.
pub record Attempt : Type 0 where
  pub fitting_job_id : ℕ
  pub attempt_no : ℕ
  pub task_uuid : Uuid
  pub started_at : Time
  pub not_accepted_code : Option String
  pub not_accepted_source : Option NotAcceptedSource
  pub not_accepted_at : Option Time
  pub next_attempt_at : Option Time
  pub conflict_reason : Option String
  pub conflict_at : Option Time
