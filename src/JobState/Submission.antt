-- ===== src/JobState/Submission.antt =====
-- `prepare_pruna_submission`, `mark_pruna_submit_started` and `record_runware_accepted`: a Worker with
-- the lease prepares the call of Runware and records that it was accepted.
use ktb4_15th_ai.Prelude.{
  ℕ, String, Bool, false, not, ◌&&◌, Option, none, some, is_some, is_none, coalesce, if◌then◌else◌,
}
use ktb4_15th_ai.Payload.{Result, ok, ◌>>=◌}
use ktb4_15th_ai.Job.{
  Uuid, Job, received, waiting_pruna, submit_pruna, is_status, is_action, is_terminal,
}
use ktb4_15th_ai.Store.{Op, checked, has_task}
use ktb4_15th_ai.JobState.Change.{
  StateChange, already_recorded, state_mismatch, Condition, Assignments, Diagnosis, check_uuid,
  check_key, mismatch, update,
}

-- `status = 'RECEIVED' AND next_action = 'SUBMIT_PRUNA'`.
abbrev pub awaits_submission : Job → Bool
awaits_submission r = is_status r.status received && is_action r.next_action submit_pruna

abbrev pub can_prepare : Condition
can_prepare now r = awaits_submission r && is_none r.task_uuid && is_none r.pruna_submit_started_at

abbrev pub prepared : Uuid → String → Bool → Assignments
prepared task key ai now r = record r {
  task_uuid = some task;
  async_image_key = some key;
  ai_stores_result = ai;
}

abbrev pub prepare_reason : Diagnosis
prepare_reason r now = if is_some r.task_uuid then already_recorded else state_mismatch

-- The UUID and the key as they passed their checks.
abbrev pub uuid_and_key : Option Uuid → String → Result (Uuid × String)
uuid_and_key task key = do task ← check_uuid task; key ← check_key key; ok (task, key)

unfoldable pub prepare_pruna_submission : ℕ → String → Option Uuid → String → Bool → Op StateChange
unfolding update
prepare_pruna_submission id token task key ai =
    checked (uuid_and_key task key)
      λ tk. update id token (prepared tk.0 tk.1 ai) can_prepare false prepare_reason

abbrev pub can_start : Condition
can_start now r = awaits_submission r && is_some r.task_uuid && is_none r.pruna_submit_started_at

abbrev pub mark_started : Assignments
mark_started now r = record r { pruna_submit_started_at = some now }

abbrev pub start_reason : Diagnosis
start_reason r now = if is_some r.pruna_submit_started_at then already_recorded else state_mismatch

unfoldable pub mark_pruna_submit_started : ℕ → String → Op StateChange
unfolding update
mark_pruna_submit_started id token = update id token mark_started can_start false start_reason

-- The assignments of both methods that record an acceptance: a job that has moved on already keeps
-- its status and next action, and the first time of acceptance stays.
abbrev pub mark_accepted : Assignments
mark_accepted now r = record r {
  runware_accepted_at = coalesce r.runware_accepted_at (some now);
  status = if awaits_submission r then waiting_pruna else r.status;
  next_action = if awaits_submission r then none else r.next_action;
}

abbrev pub can_accept : Uuid → Condition
can_accept task now r =
    not (is_terminal r.status) && has_task task r && is_some r.pruna_submit_started_at

unfoldable pub record_runware_accepted : ℕ → String → Option Uuid → Op StateChange
unfolding update
record_runware_accepted id token task =
    checked (check_uuid task) λ task. update id token mark_accepted (can_accept task) false mismatch
