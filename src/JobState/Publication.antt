-- ===== src/JobState/Publication.antt =====
-- `save_final_result`, `claim_result_message_attempt`, `mark_result_published` and
-- `mark_result_retry_exhausted`: the result is stored once and sent at most three times.
use ktb4_15th_ai.Prelude.{
  ℕ, ◌+◌, String, Bool, true, false, not, ◌&&◌, Option, none, some, is_some, is_none, is_text, leb,
  if◌then◌else◌,
}
use ktb4_15th_ai.Payload.{
  Fields, Payload, payload_job, is_pos, check_result_payload, Result, ok, ◌>>=◌, ◌>>◌, guard,
}
use ktb4_15th_ai.Job.{
  Status, publish_result, published, retry_exhausted, is_terminal, is_action, is_pending,
}
use ktb4_15th_ai.Store.{Op, checked}
use ktb4_15th_ai.JobState.Change.{
  StateChange, already_recorded, state_mismatch, Condition, Assignments, Diagnosis, check_job_id,
  mismatch, result_message_limit, update, claim,
}

-- The image of a success is the key in its payload, and a failure has none.
abbrev pub check_image : Payload → Option String → Result (Unit {0})
check_image (Payload.completed _ key _ _) image = guard (is_text image key)
check_image (Payload.failed _ _ _) image = guard (is_none image)

abbrev pub check_final : ℕ → Fields → Option String → Result Payload
check_final id fields image = do
  p ← check_result_payload fields
  id ← check_job_id id
  guard (is_pos (payload_job p) id)
  check_image p image
  ok p

abbrev pub can_save : Condition
can_save now r = not (is_terminal r.status) && is_none r.result_payload

-- `result_image_key` as `check_image` has found it.
abbrev pub final_image : Payload → Option String
final_image (Payload.completed _ key _ _) = some key
final_image (Payload.failed _ _ _) = none

abbrev pub save : Payload → Assignments
save p now r = record r {
  result_payload = some p;
  result_image_key = final_image p;
  next_action = some publish_result;
}

abbrev pub save_reason : Diagnosis
save_reason r now = if is_some r.result_payload then already_recorded else state_mismatch

unfoldable pub save_final_result : ℕ → String → Fields → Option String → Op StateChange
unfolding update check_result_payload
save_final_result id token fields image =
    checked (check_final id fields image) λ p. update id token (save p) can_save false save_reason

-- The result waits to be sent.
abbrev pub can_send : Condition
can_send now r =
    not (is_terminal r.status)
    && is_action r.next_action publish_result
    && is_some r.result_payload
    && is_pending r.result_message_status

abbrev pub count_message : Assignments
count_message now r = record r { result_message_attempt_count = r.result_message_attempt_count + 1 }

unfoldable pub claim_result_message_attempt : ℕ → String → Op StateChange
unfolding claim
claim_result_message_attempt id token =
    claim id token count_message (λ r. r.result_message_attempt_count) result_message_limit can_send
      (λ r. not (is_pending r.result_message_status))

-- `result_payload ->> 'status' = final`.
abbrev pub has_final : Status → Option Payload → Bool
has_final Status.completed (some (Payload.completed _ _ _ _)) = true
has_final Status.failed (some (Payload.failed _ _ _)) = true
has_final _ _ = false

abbrev pub can_publish : Status → Condition
can_publish final now r =
    can_send now r && leb 1 r.result_message_attempt_count && has_final final r.result_payload

abbrev pub publish : Status → Assignments
publish final now r = record r {
  result_message_status = published;
  status = final;
  next_action = none;
  worker_lease_token = none;
  worker_lease_until = none;
}

unfoldable pub mark_result_published : ℕ → String → Status → Op StateChange
unfolding update
mark_result_published id token final =
    checked (guard (is_terminal final))
      λ _. update id token (publish final) (can_publish final) false mismatch

abbrev pub is_exhausted : Condition
is_exhausted now r = can_send now r && leb result_message_limit r.result_message_attempt_count

abbrev pub exhaust : Assignments
exhaust now r = record r {
  result_message_status = retry_exhausted;
  worker_lease_token = none;
  worker_lease_until = none;
}

unfoldable pub mark_result_retry_exhausted : ℕ → String → Op StateChange
unfolding update
mark_result_retry_exhausted id token = update id token exhaust is_exhausted false mismatch
