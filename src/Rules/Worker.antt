-- ===== src/Rules/Worker.antt =====
-- Each `UPDATE` that a Worker makes under its lease keeps the rules of the row.
use ktb4_15th_ai.Prelude.{ℕ, String, ◌≡◌, Bool, true, arith}
use ktb4_15th_ai.Payload.{Payload, is_pos, payload_job}
use ktb4_15th_ai.Job.{Uuid, Time, Status, NextAction, Job}
use ktb4_15th_ai.JobState.Change.{
  touched, with_lease, lease_valid, below, s3_check_limit, llm_generation_limit, fallback_limit,
  result_message_limit,
}
use ktb4_15th_ai.JobState.Lease.{
  can_acquire, hold_until, can_renew, extend_until, always, drop_lease,
}
use ktb4_15th_ai.JobState.Submission.{
  can_prepare, prepared, can_start, mark_started, can_accept, mark_accepted,
}
use ktb4_15th_ai.JobState.Postprocess.{
  lacks_image, count_s3_check, mark_verified, has_image, count_llm_call,
}
use ktb4_15th_ai.JobState.Fallback.{
  can_fall_back, to_fallback, can_name_fallback, name_fallback, can_store_fallback, store_fallback,
  may_fall_back, count_fallback,
}
use ktb4_15th_ai.JobState.Publication.{
  can_save, save, can_send, count_message, can_publish, publish, is_exhausted, exhaust,
}
use ktb4_15th_ai.Rules.{IsValid, Evolves, Sound}

pub can_acquire-Sound :
    (action : NextAction) (token : String) (lease : ℕ)
    → Sound (can_acquire action) (touched (hold_until token lease))
can_acquire-Sound action token lease now r v h = (ground arith, ground arith)

module _ (token : String) where
  pub can_renew-Sound :
      (lease : ℕ) → Sound (with_lease token can_renew) (touched (extend_until lease))
  unfolding lease_valid
  can_renew-Sound lease now r v h = (ground arith, ground arith)

  pub always-Sound : Sound (with_lease token always) (touched drop_lease)
  unfolding lease_valid
  always-Sound now r v h = (ground arith, ground arith)

  pub can_prepare-Sound :
      (task : Uuid) (key : String) (ai : Bool)
      → Sound (with_lease token can_prepare) (touched (prepared task key ai))
  can_prepare-Sound task key ai now r v h = (ground arith, ground arith)

  pub can_start-Sound : Sound (with_lease token can_start) (touched mark_started)
  can_start-Sound now r v h = (ground arith, ground arith)

  pub can_accept-Sound :
      (task : Uuid) → Sound (with_lease token (can_accept task)) (touched mark_accepted)
  can_accept-Sound task now r v h = (ground arith, ground arith)

  pub lacks_image-Sound :
      Sound
        (with_lease token (below (λ r. r.s3_check_attempt_count) s3_check_limit lacks_image))
        (touched count_s3_check)
  lacks_image-Sound now r v h = (ground arith, ground arith)

  pub mark_verified-Sound :
      (key : String) → Sound (with_lease token lacks_image) (touched (mark_verified key))
  mark_verified-Sound key now r v h = (ground arith, ground arith)

  pub has_image-Sound :
      Sound
        (with_lease token
          (below (λ r. r.llm_generation_attempt_count) llm_generation_limit has_image))
        (touched count_llm_call)
  has_image-Sound now r v h = (ground arith, ground arith)

  pub can_fall_back-Sound : Sound (with_lease token can_fall_back) (touched to_fallback)
  can_fall_back-Sound now r v h = (ground arith, ground arith)

  pub can_name_fallback-Sound :
      (task : Uuid)
      → Sound (with_lease token (can_name_fallback task)) (touched (name_fallback task))
  can_name_fallback-Sound task now r v h = (ground arith, ground arith)

  pub can_store_fallback-Sound :
      (key : String) → Sound (with_lease token can_store_fallback) (touched (store_fallback key))
  can_store_fallback-Sound key now r v h = (ground arith, ground arith)

  pub may_fall_back-Sound :
      Sound
        (with_lease token (below (λ r. r.fallback_attempt_count) fallback_limit may_fall_back))
        (touched count_fallback)
  may_fall_back-Sound now r v h = (ground arith, ground arith)

  pub can_send-Sound :
      Sound
        (with_lease token
          (below (λ r. r.result_message_attempt_count) result_message_limit can_send))
        (touched count_message)
  can_send-Sound now r v h = (ground arith, ground arith)

  pub can_publish-Sound :
      (final : Status) → Sound (with_lease token (can_publish final)) (touched (publish final))
  can_publish-Sound final now r v h = (ground arith, ground arith)

  pub is_exhausted-Sound : Sound (with_lease token is_exhausted) (touched exhaust)
  is_exhausted-Sound now r v h = (ground arith, ground arith)

-- The result that is saved names the job whose row is changed.
pub can_save-Sound :
    (token : String) (p : Payload) (now : Time) (r : Job)
    → is_pos (payload_job p) r.fitting_job_id ≡ true
    → IsValid r
    → with_lease token can_save now r ≡ true
    → IsValid (touched (save p) now r) × Evolves r (touched (save p) now r)
can_save-Sound token p now r own v h = (ground arith, ground arith)
