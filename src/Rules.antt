-- ===== src/Rules.antt =====
-- What holds of a job's row between two transactions, and what a transaction may do to it.
pub mod Rows
pub mod Worker
pub mod External
pub mod Reports
pub mod Calls
pub mod Releases
pub mod Methods
use ktb4_15th_ai.Prelude.{
  ℕ, ◌≤◌, String, ◌≡◌, Bool, true, false, Option, none, some, ◌==◌, is_some, is_none,
}
use ktb4_15th_ai.Payload.{Payload, payload_job, is_pos}
use ktb4_15th_ai.Job.{
  Status, received, waiting_pruna, postprocessing, fallback_running, NextAction, submit_pruna,
  postprocess, run_fallback, publish_result, MessageStatus, Time, Job, is_terminal, is_status,
}

-- The next action that belongs to a status and a result.
abbrev pub due : Status → Option Payload → Option NextAction
due Status.completed p = none
due Status.failed p = none
due s (some p) = some publish_result
due received none = some submit_pruna
due waiting_pruna none = none
due postprocessing none = some postprocess
due fallback_running none = some run_fallback

-- An ended job has the result that its status names.
abbrev pub settled : Status → Option Payload → Bool
settled Status.completed (some (Payload.completed _ _ _ _)) = true
settled Status.completed _ = false
settled Status.failed (some (Payload.failed _ _ _)) = true
settled Status.failed _ = false
settled _ _ = true

-- The image of a result: a failure has none.
abbrev pub image_of : Option Payload → Option String
image_of (some (Payload.completed _ k _ _)) = some k
image_of _ = none

abbrev pub owned : ℕ → Option Payload → Bool
owned id none = true
owned id (some p) = is_pos (payload_job p) id

abbrev pub is_published : MessageStatus → Bool
is_published MessageStatus.published = true
is_published _ = false

-- Runware has accepted the call.
abbrev pub is_under_way : Status → Bool
is_under_way waiting_pruna = true
is_under_way postprocessing = true
is_under_way fallback_running = true
is_under_way _ = false

-- The outcome of the call to Pruna is not known yet.
abbrev pub is_awaiting : Status → Bool
is_awaiting received = true
is_awaiting waiting_pruna = true
is_awaiting _ = false

pub record IsValid (r : Job) : Type 0 where
  pub s3_checks : r.s3_check_attempt_count ≤ 2
  pub llm_calls : r.llm_generation_attempt_count ≤ 4
  pub fallbacks : r.fallback_attempt_count ≤ 1
  pub messages : r.result_message_attempt_count ≤ 3
  pub action : r.next_action ≡ due r.status r.result_payload
  pub result : settled r.status r.result_payload ≡ true
  pub image : r.result_image_key ≡ image_of r.result_payload
  pub owner : owned r.fitting_job_id r.result_payload ≡ true
  pub announced : is_published r.result_message_status ≡ is_terminal r.status
  pub sent : is_terminal r.status ≡ true → 1 ≤ r.result_message_attempt_count
  pub unleased : is_terminal r.status ≡ true → r.worker_lease_token ≡ none
  pub lease : is_some r.worker_lease_token ≡ is_some r.worker_lease_until
  pub accepted : is_some r.runware_accepted_at ≡ true → is_some r.pruna_submit_started_at ≡ true
  pub started : is_some r.pruna_submit_started_at ≡ true → is_some r.task_uuid ≡ true
  pub under_way : is_under_way r.status ≡ true → is_some r.runware_accepted_at ≡ true
  pub fallback_once : is_some r.fallback_started_at ≡ true → r.fallback_attempt_count ≡ 1
  pub fallback_named : is_some r.fallback_started_at ≡ true → is_some r.fallback_task_uuid ≡ true
  pub fallback_stored : is_some r.fallback_image_key ≡ true → is_some r.fallback_started_at ≡ true
  pub verified : is_some r.verified_image_key ≡ is_some r.image_verified_at
  pub unreferenced : is_awaiting r.status ≡ true → r.runware_image_url ≡ none
  pub unreferenced_uuid : is_awaiting r.status ≡ true → r.runware_image_uuid ≡ none
  pub unaccepted :
      is_status r.status received ≡ true → r.result_payload ≡ none → r.runware_accepted_at ≡ none
  pub held : is_some r.auth_hold_task_uuid ≡ is_some r.auth_hold_reason

-- The order in which a job goes through its statuses.
abbrev pub rank : Status → ℕ
rank received = 0
rank waiting_pruna = 1
rank postprocessing = 2
rank fallback_running = 3
rank Status.completed = 4
rank Status.failed = 4

-- A value that was written stays.
abbrev pub Kept : {A : Type 0} → Option A → Option A → Type 0
Kept none b = Unit
Kept (some a) b = b ≡ some a

pub record Evolves (a b : Job) : Type 0 where
  pub id : b.fitting_job_id ≡ a.fitting_job_id
  pub fingerprint : b.request_fingerprint ≡ a.request_fingerprint
  pub user_image : b.user_image_key ≡ a.user_image_key
  pub products : b.products ≡ a.products
  pub requested : b.requested_at ≡ a.requested_at
  pub created : b.created_at ≡ a.created_at
  pub status : rank a.status ≤ rank b.status
  pub frozen : is_terminal a.status ≡ true → b ≡ a
  pub result : Kept a.result_payload b.result_payload
  pub accepted : Kept a.runware_accepted_at b.runware_accepted_at
  pub verified : Kept a.verified_image_key b.verified_image_key
  pub fallback_task : Kept a.fallback_task_uuid b.fallback_task_uuid
  pub fallback_start : Kept a.fallback_started_at b.fallback_started_at
  pub fallback_image : Kept a.fallback_image_key b.fallback_image_key
  pub image_url : Kept a.runware_image_url b.runware_image_url
  pub image_uuid : Kept a.runware_image_uuid b.runware_image_uuid
  pub hold : Kept a.auth_hold_reason b.auth_hold_reason
  pub s3_checks : a.s3_check_attempt_count ≤ b.s3_check_attempt_count
  pub llm_calls : a.llm_generation_attempt_count ≤ b.llm_generation_attempt_count
  pub fallbacks : a.fallback_attempt_count ≤ b.fallback_attempt_count
  pub messages : a.result_message_attempt_count ≤ b.result_message_attempt_count

-- An `UPDATE` under a condition keeps the rules, and changes the row as `Evolves` says.
abbrev pub Sound : (Time → Job → Bool) → (Time → Job → Job) → Type 0
Sound condition set =
    (now : Time) (r : Job)
    → IsValid r
    → condition now r ≡ true
    → IsValid (set now r) × Evolves r (set now r)
