-- ===== src/JobState/Postprocess.antt =====
-- `claim_s3_check_attempt`, `record_image_verified` and `claim_llm_generation_attempt`: the image is
-- looked for in S3, and title and comment are generated from it.
use ktb4_15th_ai.Prelude.{
  ℕ, ◌+◌, String, Bool, false, ◌&&◌, ◌||◌, some, is_some, is_none, if◌then◌else◌,
}
use ktb4_15th_ai.Job.{
  Job, postprocessing, fallback_running, postprocess, run_fallback, is_status, is_action,
}
use ktb4_15th_ai.Store.{Op, checked}
use ktb4_15th_ai.JobState.Change.{
  StateChange, already_recorded, state_mismatch, Condition, Assignments, Diagnosis, check_key,
  s3_check_limit, llm_generation_limit, update, claim,
}

-- `status = 'POSTPROCESSING' AND next_action = 'POSTPROCESS'`.
abbrev pub is_postprocessing : Job → Bool
is_postprocessing r = is_status r.status postprocessing && is_action r.next_action postprocess

-- `status = 'FALLBACK_RUNNING' AND next_action = 'RUN_FALLBACK'`.
abbrev pub runs_fallback : Job → Bool
runs_fallback r = is_status r.status fallback_running && is_action r.next_action run_fallback

abbrev pub lacks_image : Condition
lacks_image now r = is_postprocessing r && is_none r.verified_image_key && is_none r.result_payload

abbrev pub count_s3_check : Assignments
count_s3_check now r = record r { s3_check_attempt_count = r.s3_check_attempt_count + 1 }

unfoldable pub claim_s3_check_attempt : ℕ → String → Op StateChange
unfolding claim
claim_s3_check_attempt id token =
    claim id token count_s3_check (λ r. r.s3_check_attempt_count) s3_check_limit lacks_image
      (λ r. is_some r.verified_image_key)

abbrev pub mark_verified : String → Assignments
mark_verified key now r = record r { verified_image_key = some key; image_verified_at = some now }

abbrev pub verify_reason : Diagnosis
verify_reason r now = if is_some r.verified_image_key then already_recorded else state_mismatch

unfoldable pub record_image_verified : ℕ → String → String → Op StateChange
unfolding update
record_image_verified id token key =
    checked (check_key key)
      λ key. update id token (mark_verified key) lacks_image false verify_reason

-- There is an image: verified in S3, or stored by the fallback.
abbrev pub has_image : Condition
has_image now r =
    is_none r.result_payload
    && (is_postprocessing r && is_some r.verified_image_key
        || runs_fallback r && is_some r.fallback_image_key)

abbrev pub count_llm_call : Assignments
count_llm_call now r = record r {
  llm_generation_attempt_count = r.llm_generation_attempt_count + 1;
}

unfoldable pub claim_llm_generation_attempt : ℕ → String → Op StateChange
unfolding claim
claim_llm_generation_attempt id token =
    claim id token count_llm_call (λ r. r.llm_generation_attempt_count) llm_generation_limit
      has_image (λ r. is_some r.result_payload)
