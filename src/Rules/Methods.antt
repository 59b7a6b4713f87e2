-- ===== src/Rules/Methods.antt =====
-- Every method of `AsyncJobStateRepository` that changes a row keeps the rules of the rows.
use ktb4_15th_ai.Prelude.{ℕ, String, ◌≡◌, refl, true, Bool, Option, arith, false}
use ktb4_15th_ai.Payload.{Fields, Payload, is_pos, payload_job, Result, ok, err, ◌>>◌, guard}
use ktb4_15th_ai.Job.{Uuid, Status, NextAction, is_terminal}
use ktb4_15th_ai.Store.{Db}
use ktb4_15th_ai.JobState.Change.{
  StateChange, check_job_id, check_seconds, check_uuid, check_key, mismatch, update, event_update,
  touched, free_reason, below, s3_check_limit, llm_generation_limit, fallback_limit,
  result_message_limit,
}
use ktb4_15th_ai.JobState.Lease.{
  acquire_lease, to_grant, acquire_row, can_acquire, hold_until, acquire_reason, renew_lease,
  can_renew, extend_until, release_lease, always, drop_lease,
}
use ktb4_15th_ai.JobState.Submission.{
  prepare_pruna_submission, uuid_and_key, prepared, can_prepare, prepare_reason,
  mark_pruna_submit_started, mark_started, can_start, start_reason, record_runware_accepted,
  mark_accepted, can_accept,
}
use ktb4_15th_ai.JobState.Events.{
  record_submission_accepted, record_auth_hold, checked_code, mark_held, can_hold, hold_result,
  record_pruna_succeeded, check_references, mark_succeeded, can_succeed, fill_pruna_image_ref,
  check_fill, fill_row, can_fill, filled, record_pruna_failed, no_payload, to_fallback_failed,
  can_fail, check_failed, mark_failed, fails_with,
}
use ktb4_15th_ai.JobState.Events
use ktb4_15th_ai.JobState.Postprocess.{
  claim_s3_check_attempt, count_s3_check, lacks_image, record_image_verified, mark_verified,
  verify_reason, claim_llm_generation_attempt, count_llm_call, has_image,
}
use ktb4_15th_ai.JobState.Fallback.{
  S3ObjectState, check_missing, move_to_fallback, to_fallback, can_fall_back, fall_back_reason,
  prepare_fallback, name_fallback, can_name_fallback, name_reason, record_fallback_image,
  store_fallback, can_store_fallback, store_reason, claim_fallback_attempt, count_fallback,
  may_fall_back,
}
use ktb4_15th_ai.JobState.Publication.{
  save_final_result, check_final, save, can_save, save_reason, claim_result_message_attempt,
  count_message, can_send, mark_result_published, publish, can_publish, mark_result_retry_exhausted,
  exhaust, is_exhausted,
}
use ktb4_15th_ai.Rules.Rows.{
  Lawful, checked-Lawful, update-Lawful, event_update-Lawful, run_row-Advances, run_task-Advances,
}
use ktb4_15th_ai.Rules.Worker.{
  can_acquire-Sound, can_renew-Sound, always-Sound, can_prepare-Sound, can_start-Sound,
  can_accept-Sound, lacks_image-Sound, mark_verified-Sound, has_image-Sound, can_fall_back-Sound,
  can_name_fallback-Sound, can_store_fallback-Sound, may_fall_back-Sound, can_send-Sound,
  can_publish-Sound, is_exhausted-Sound, can_save-Sound,
}
use ktb4_15th_ai.Rules.External.{
  mark_accepted-Sound, can_hold-Sound, can_succeed-Sound, can_fill-Sound, can_fail-Sound,
  fails_with-Sound,
}

to_grant-db : (token : String) (x : Result StateChange × Db) → (to_grant token x).1 ≡ x.1
to_grant-db token (ok change, db) = refl
to_grant-db token (err e, db) = refl

hold_result-db : (x : Result StateChange × Db) → (hold_result x).1 ≡ x.1
hold_result-db (ok change, db) = refl
hold_result-db (err e, db) = refl

-- The result that passes the checks names the job.
check_final-owned :
    (id : ℕ) (fields : Fields) (image : Option String) (p : Payload)
    → check_final id fields image ≡ ok p
    → is_pos (payload_job p) id ≡ true
check_final-owned id fields image p e = ground arith

pub acquire_lease-Lawful :
    (token : String) (id : ℕ) (action : NextAction) (lease : ℕ)
    → Lawful (acquire_lease token id action lease)
unfolding acquire_lease
acquire_lease-Lawful token id action lease = record {
  at = λ c db v. rw (to_grant-db token) (
      (checked-Lawful (do check_seconds lease; check_job_id id)
          (λ _. acquire_row token id action lease)
          λ _ _. record {
            at = λ c db v.
                run_row-Advances id (can_acquire action) (touched (hold_until token lease))
                  (free_reason (acquire_reason action)) c db
                  (λ now r _. can_acquire-Sound action token lease now r) v;
          }).at
        c db v);
}

module _ (id : ℕ) (token : String) where
  pub renew_lease-Lawful : (lease : ℕ) → Lawful (renew_lease id token lease)
  unfolding renew_lease
  renew_lease-Lawful lease =
      checked-Lawful (check_seconds lease)
        (λ lease. update id token (extend_until lease) can_renew false mismatch)
        λ lease _.
          update-Lawful id token (extend_until lease) can_renew false mismatch
            λ now r _. can_renew-Sound token lease now r

  pub release_lease-Lawful : Lawful (release_lease id token)
  unfolding release_lease
  release_lease-Lawful =
      update-Lawful id token drop_lease always true mismatch λ now r _. always-Sound token now r

  pub prepare_pruna_submission-Lawful :
      (task : Option Uuid) (key : String) (ai : Bool)
      → Lawful (prepare_pruna_submission id token task key ai)
  unfolding prepare_pruna_submission
  prepare_pruna_submission-Lawful task key ai =
      checked-Lawful (uuid_and_key task key)
        (λ tk. update id token (prepared tk.0 tk.1 ai) can_prepare false prepare_reason)
        λ tk _.
          update-Lawful id token (prepared tk.0 tk.1 ai) can_prepare false prepare_reason
            λ now r _. can_prepare-Sound token tk.0 tk.1 ai now r

  pub mark_pruna_submit_started-Lawful : Lawful (mark_pruna_submit_started id token)
  unfolding mark_pruna_submit_started
  mark_pruna_submit_started-Lawful =
      update-Lawful id token mark_started can_start false start_reason
        λ now r _. can_start-Sound token now r

  pub record_runware_accepted-Lawful :
      (task : Option Uuid) → Lawful (record_runware_accepted id token task)
  unfolding record_runware_accepted
  record_runware_accepted-Lawful task =
      checked-Lawful (check_uuid task)
        (λ task. update id token mark_accepted (can_accept task) false mismatch)
        λ task _.
          update-Lawful id token mark_accepted (can_accept task) false mismatch
            λ now r _. can_accept-Sound token task now r

  pub claim_s3_check_attempt-Lawful : Lawful (claim_s3_check_attempt id token)
  unfolding claim_s3_check_attempt
  claim_s3_check_attempt-Lawful =
      update-Lawful id token count_s3_check
        (below (λ r. r.s3_check_attempt_count) s3_check_limit lacks_image) false _
        λ now r _. lacks_image-Sound token now r

  pub record_image_verified-Lawful : (key : String) → Lawful (record_image_verified id token key)
  unfolding record_image_verified
  record_image_verified-Lawful key =
      checked-Lawful (check_key key)
        (λ key. update id token (mark_verified key) lacks_image false verify_reason)
        λ key _.
          update-Lawful id token (mark_verified key) lacks_image false verify_reason
            λ now r _. mark_verified-Sound token key now r

  pub claim_llm_generation_attempt-Lawful : Lawful (claim_llm_generation_attempt id token)
  unfolding claim_llm_generation_attempt
  claim_llm_generation_attempt-Lawful =
      update-Lawful id token count_llm_call
        (below (λ r. r.llm_generation_attempt_count) llm_generation_limit has_image) false _
        λ now r _. has_image-Sound token now r

  pub move_to_fallback-Lawful : (seen : S3ObjectState) → Lawful (move_to_fallback id token seen)
  unfolding move_to_fallback
  move_to_fallback-Lawful seen =
      checked-Lawful (check_missing seen)
        (λ _. update id token to_fallback can_fall_back false fall_back_reason)
        λ _ _.
          update-Lawful id token to_fallback can_fall_back false fall_back_reason
            λ now r _. can_fall_back-Sound token now r

  pub prepare_fallback-Lawful : (task : Option Uuid) → Lawful (prepare_fallback id token task)
  unfolding prepare_fallback
  prepare_fallback-Lawful task =
      checked-Lawful (check_uuid task)
        (λ task. update id token (name_fallback task) (can_name_fallback task) false name_reason)
        λ task _.
          update-Lawful id token (name_fallback task) (can_name_fallback task) false name_reason
            λ now r _. can_name_fallback-Sound token task now r

  pub record_fallback_image-Lawful : (key : String) → Lawful (record_fallback_image id token key)
  unfolding record_fallback_image
  record_fallback_image-Lawful key =
      checked-Lawful (check_key key)
        (λ key. update id token (store_fallback key) can_store_fallback false store_reason)
        λ key _.
          update-Lawful id token (store_fallback key) can_store_fallback false store_reason
            λ now r _. can_store_fallback-Sound token key now r

  pub claim_fallback_attempt-Lawful : Lawful (claim_fallback_attempt id token)
  unfolding claim_fallback_attempt
  claim_fallback_attempt-Lawful =
      update-Lawful id token count_fallback
        (below (λ r. r.fallback_attempt_count) fallback_limit may_fall_back) false _
        λ now r _. may_fall_back-Sound token now r

  pub claim_result_message_attempt-Lawful : Lawful (claim_result_message_attempt id token)
  unfolding claim_result_message_attempt
  claim_result_message_attempt-Lawful =
      update-Lawful id token count_message
        (below (λ r. r.result_message_attempt_count) result_message_limit can_send) false _
        λ now r _. can_send-Sound token now r

  pub mark_result_published-Lawful :
      (final : Status) → Lawful (mark_result_published id token final)
  unfolding mark_result_published
  mark_result_published-Lawful final =
      checked-Lawful (guard (is_terminal final))
        (λ _. update id token (publish final) (can_publish final) false mismatch)
        λ _ _.
          update-Lawful id token (publish final) (can_publish final) false mismatch
            λ now r _. can_publish-Sound token final now r

  pub mark_result_retry_exhausted-Lawful : Lawful (mark_result_retry_exhausted id token)
  unfolding mark_result_retry_exhausted
  mark_result_retry_exhausted-Lawful =
      update-Lawful id token exhaust is_exhausted false mismatch
        λ now r _. is_exhausted-Sound token now r

pub record_submission_accepted-Lawful :
    (task : Option Uuid) → Lawful (record_submission_accepted task)
unfolding record_submission_accepted
record_submission_accepted-Lawful task =
    event_update-Lawful task mark_accepted Events.always mark_accepted-Sound

pub record_auth_hold-Lawful :
    (task : Option Uuid) (reason : String) → Lawful (record_auth_hold task reason)
unfolding record_auth_hold
record_auth_hold-Lawful task reason = record {
  at = λ c db v. rw hold_result-db (
      (checked-Lawful (checked_code reason)
          (λ reason. event_update task (mark_held reason) can_hold)
          λ reason _.
            event_update-Lawful task (mark_held reason) can_hold
              λ task. can_hold-Sound task reason).at
        c db v);
}

module _ (is_printable : ℕ → Bool) (task : Option Uuid) where
  pub record_pruna_succeeded-Lawful :
      (url : Option String) (uuid : Option (Option Uuid))
      → Lawful (record_pruna_succeeded is_printable task url uuid)
  unfolding record_pruna_succeeded
  record_pruna_succeeded-Lawful url uuid =
      checked-Lawful (check_references is_printable url uuid)
        (λ refs. event_update task (mark_succeeded refs.0 refs.1) can_succeed)
        λ refs _.
          event_update-Lawful task (mark_succeeded refs.0 refs.1) can_succeed
            λ task. can_succeed-Sound task refs.0 refs.1

  pub fill_pruna_image_ref-Lawful :
      (url : Option String) (uuid : Option (Option Uuid)) (confirmed : Bool)
      → Lawful (fill_pruna_image_ref is_printable task url uuid confirmed)
  unfolding fill_pruna_image_ref
  fill_pruna_image_ref-Lawful url uuid confirmed =
      checked-Lawful (check_fill is_printable task url uuid) (fill_row confirmed) λ a _. record {
        at = λ c db v.
            run_task-Advances a.0 (can_fill a.0 a.1 a.2 confirmed) (filled a.1 a.2)
              (free_reason mismatch) c db (can_fill-Sound a.0 a.1 a.2 confirmed) v;
      }

pub record_pruna_failed-Lawful :
    (task : Option Uuid) (recoverable : Bool) (fields : Option Fields)
    → Lawful (record_pruna_failed task recoverable fields)
unfolding record_pruna_failed
record_pruna_failed-Lawful task true fields =
    checked-Lawful (no_payload fields) (λ _. event_update task to_fallback_failed can_fail)
      λ _ _. event_update-Lawful task to_fallback_failed can_fail can_fail-Sound
record_pruna_failed-Lawful task false fields =
    checked-Lawful (check_failed fields) (λ f. event_update task (mark_failed f) (fails_with f))
      λ f _. event_update-Lawful task (mark_failed f) (fails_with f) λ task. fails_with-Sound task f

pub save_final_result-Lawful :
    (id : ℕ) (token : String) (fields : Fields) (image : Option String)
    → Lawful (save_final_result id token fields image)
unfolding save_final_result
save_final_result-Lawful id token fields image =
    checked-Lawful (check_final id fields image)
      (λ p. update id token (save p) can_save false save_reason)
      λ p e.
        update-Lawful id token (save p) can_save false save_reason λ now r same.
          can_save-Sound token p now r (rw same (check_final-owned id fields image p e))
