-- ===== src/JobState/Events.antt =====
-- What Runware reports of a task, by Webhook, response or query: `record_submission_accepted`,
-- `record_auth_hold`, `record_pruna_succeeded`, `fill_pruna_image_ref` and `record_pruna_failed`.
-- These want no lease, but the registered task and the record that its call was started.
use ktb4_15th_ai.Prelude.{
  ℕ, String, Bool, true, false, not, ◌&&◌, ◌||◌, Option, none, some, is_some, is_none, is_number,
  is_text, coalesce, ltb, if◌then◌else◌,
}
use ktb4_15th_ai.Texts.{is_safe_code, is_image_url}
use ktb4_15th_ai.Payload.{
  ℤ, Fields, Payload, is_pos, check_result_payload, Result, ok, err, bad_input, ◌>>=◌, ◌>>◌, guard,
}
use ktb4_15th_ai.Job.{
  Uuid, Job, received, waiting_pruna, postprocessing, fallback_running, submit_pruna, postprocess,
  run_fallback, publish_result, is_status, is_action,
}
use ktb4_15th_ai.Store.{Db, Op, checked, has_task}
use ktb4_15th_ai.JobState.Change.{
  StateChange, change_refused, already_recorded, Condition, Assignments, check_uuid, mismatch,
  free_reason, fallback_limit, find_task, run_row, event_update,
}
use ktb4_15th_ai.JobState.Submission.{mark_accepted}

abbrev pub always : Condition
always now r = true

unfoldable pub record_submission_accepted : Option Uuid → Op StateChange
unfolding event_update
record_submission_accepted task = event_update task mark_accepted always

-- `status IN ('RECEIVED', 'WAITING_PRUNA') AND result_payload IS NULL`.
abbrev pub awaits_result : Job → Bool
awaits_result r =
    (is_status r.status received || is_status r.status waiting_pruna) && is_none r.result_payload

abbrev pub can_hold : Condition
can_hold now r =
    awaits_result r
    && (is_none r.next_action || is_action r.next_action submit_pruna)
    && is_none r.auth_hold_task_uuid

abbrev pub mark_held : String → Assignments
mark_held reason now r = record r {
  auth_hold_task_uuid = r.task_uuid;
  auth_hold_reason = some reason;
  auth_hold_at = some now;
}

abbrev pub held_before : Job → Bool
held_before r = elim r.auth_hold_task_uuid [ none ↦ false | some t ↦ is_number r.task_uuid t ]

-- A refusal at a job that is held for its present task reads as a repetition.
abbrev pub recheck_hold : Bool → Option Job → StateChange → StateChange
recheck_hold false (some r) change =
    if held_before r then change_refused already_recorded r else change
recheck_hold _ _ change = change

abbrev pub hold_result : Result StateChange × Db → Result StateChange × Db
hold_result (err e, db) = (err e, db)
hold_result (ok change, db) = (ok (recheck_hold change.applied change.job change), db)

abbrev pub checked_code : String → Result String
checked_code t = if is_safe_code t then ok t else err bad_input

unfoldable pub record_auth_hold : Option Uuid → String → Op StateChange
unfolding event_update
record_auth_hold task reason c db =
    hold_result
      (checked (checked_code reason) (λ reason. event_update task (mark_held reason) can_hold) c db)

abbrev pub can_succeed : Condition
can_succeed now r = awaits_result r

abbrev pub mark_succeeded : Option String → Option Uuid → Assignments
mark_succeeded url uuid now r = record r {
  status = postprocessing;
  next_action = some postprocess;
  runware_accepted_at = coalesce r.runware_accepted_at (some now);
  runware_image_url = url;
  runware_image_uuid = uuid;
}

-- An optional argument that is checked if it is there.
abbrev pub optional : {A B : Type 0} → (A → Result B) → Option A → Result (Option B)
optional check none = ok none
optional check (some a) = do b ← check a; ok (some b)

module _ (is_printable : ℕ → Bool) where
  abbrev pub check_runware_image_url : String → Result String
  check_runware_image_url url = if is_image_url is_printable url then ok url else err bad_input

  -- The references of a result. The UUID is given as `uuid.UUID` reads it.
  abbrev pub check_references :
      Option String → Option (Option Uuid) → Result (Option String × Option Uuid)
  check_references url uuid = do
    url ← optional check_runware_image_url url
    uuid ← optional check_uuid uuid
    ok (url, uuid)

  unfoldable pub record_pruna_succeeded :
      Option Uuid → Option String → Option (Option Uuid) → Op StateChange
  unfolding event_update
  record_pruna_succeeded task url uuid =
      checked (check_references url uuid)
        λ refs. event_update task (mark_succeeded refs.0 refs.1) can_succeed

-- Both are there and differ.
abbrev text_differs : Option String → Option String → Bool
text_differs (some a) (some b) = not (is_text (some a) b)
text_differs _ _ = false

abbrev uuid_differs : Option Uuid → Option Uuid → Bool
uuid_differs (some a) (some b) = not (is_number (some a) b)
uuid_differs _ _ = false

abbrev same_text : Option String → Option String → Bool
same_text a (some b) = is_text a b
same_text a none = false

abbrev same_uuid : Option Uuid → Option Uuid → Bool
same_uuid a (some b) = is_number a b
same_uuid a none = false

abbrev pub can_fill : Uuid → Option String → Option Uuid → Bool → Condition
can_fill task url uuid confirmed now r =
    has_task task r
    && is_some r.pruna_submit_started_at
    && is_status r.status postprocessing
    && is_action r.next_action postprocess
    && is_none r.result_payload
    && not (text_differs r.runware_image_url url)
    && not (uuid_differs r.runware_image_uuid uuid)
    && (same_text r.runware_image_url url
        || same_uuid r.runware_image_uuid uuid
        || confirmed && r.ai_stores_result)
    && (is_none r.runware_image_url && is_some url || is_none r.runware_image_uuid && is_some uuid)

-- Only empty references are filled, and `updated_at` stays.
abbrev pub filled : Option String → Option Uuid → Assignments
filled url uuid now r = record r {
  runware_image_url = coalesce r.runware_image_url url;
  runware_image_uuid = coalesce r.runware_image_uuid uuid;
}

-- The transaction of `fill_pruna_image_ref`.
abbrev pub fill_row : Bool → Uuid × Option String × Option Uuid → Op StateChange
fill_row confirmed a c db =
    run_row (can_fill a.0 a.1 a.2 confirmed) (filled a.1 a.2) (free_reason mismatch)
      (find_task a.0 db.jobs) c db

module _ (is_printable : ℕ → Bool) where
  abbrev pub check_fill :
      Option Uuid
      → Option String
      → Option (Option Uuid)
      → Result (Uuid × Option String × Option Uuid)
  check_fill task url uuid = do
    guard (is_some url || is_some uuid)
    task ← check_uuid task
    refs ← check_references is_printable url uuid
    ok (task, refs.0, refs.1)

  unfoldable pub fill_pruna_image_ref :
      Option Uuid → Option String → Option (Option Uuid) → Bool → Op StateChange
  unfolding run_row
  fill_pruna_image_ref task url uuid confirmed =
      checked (check_fill task url uuid) (fill_row confirmed)

-- The guard of `record_pruna_failed`.
abbrev pub can_fail : Condition
can_fail now r =
    awaits_result r && is_none r.verified_image_key && ltb r.fallback_attempt_count fallback_limit

abbrev pub to_fallback_failed : Assignments
to_fallback_failed now r = record r {
  status = fallback_running;
  next_action = some run_fallback;
  runware_accepted_at = coalesce r.runware_accepted_at (some now);
}

-- The job, the code and the message of a failure.
abbrev pub Failure : Type 0
Failure = ℤ × String × String

abbrev pub fails_with : Failure → Condition
fails_with f now r = can_fail now r && is_pos f.0 r.fitting_job_id

abbrev pub mark_failed : Failure → Assignments
mark_failed f now r = record r {
  result_payload = some (Payload.failed f.0 f.1 f.2);
  next_action = some publish_result;
  runware_accepted_at = coalesce r.runware_accepted_at (some now);
}

-- `payload["status"] != "FAILED"` raises.
abbrev pub only_failure : Payload → Result Failure
only_failure (Payload.failed j c m) = ok (j, c, m)
only_failure (Payload.completed _ _ _ _) = err bad_input

abbrev pub check_failed : Option Fields → Result Failure
check_failed none = err bad_input
check_failed (some fields) = do p ← check_result_payload fields; only_failure p

-- A failure that V1 may still repair comes with no result.
abbrev pub no_payload : Option Fields → Result (Unit {0})
no_payload none = ok tt
no_payload (some _) = err bad_input

unfoldable pub record_pruna_failed : Option Uuid → Bool → Option Fields → Op StateChange
unfolding event_update check_result_payload
record_pruna_failed task true fields =
    checked (no_payload fields) λ _. event_update task to_fallback_failed can_fail
record_pruna_failed task false fields =
    checked (check_failed fields) λ f. event_update task (mark_failed f) (fails_with f)
