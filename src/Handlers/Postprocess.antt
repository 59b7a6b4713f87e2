-- ===== src/Handlers/Postprocess.antt =====
-- `PostprocessHandler` of app/virtual_fitting/postprocess_handler.py: the image of Pruna is stored by the
-- AI server, or looked for in S3, and then the texts are made and the result is saved.
use Prim.Native.String.{◌++◌}
use ktb4_15th_ai.Prelude.{
  ℕ, zero, suc, ◌+◌, ◌-◌, String, Bool, true, false, not, ◌&&◌, Option, none, some, List, [], ◌∷◌,
  leb, min, is_some, is_text, if◌then◌else◌,
}
use ktb4_15th_ai.Job.{Job, run_fallback}
use ktb4_15th_ai.JobState.Change.{StateChange}
use ktb4_15th_ai.JobState.Postprocess.{
  is_postprocessing, claim_s3_check_attempt, record_image_verified,
}
use ktb4_15th_ai.JobState.Fallback.{
  S3ObjectState, exists, not_found, access_denied, error, move_to_fallback,
}
use ktb4_15th_ai.Publisher.{is_limit}
use ktb4_15th_ai.Process.{
  other_error, pure, throw, exhausted, ◌>>=◌, ◌>>◌, emit, read_clock, ask, sleep, call,
}
use ktb4_15th_ai.Handlers.{
  looked, Run, HandlerResult, finished, deferred, Part, gives, StoreAnswer, stored_key, image_error,
  invalid_input, store_crashes, deferred_by, onward, last_part, stop_with, Services,
}
use ktb4_15th_ai.Handlers.Texts.{title_and_comment, recorded_before, save_completed}

-- `postprocess_stage`.
abbrev pub postprocess_stage : String → Job → Bool
postprocess_stage key r = is_postprocessing r && is_text r.verified_image_key key

-- `WAIT_SLICE_SECONDS`, in microseconds.
abbrev pub wait_slice : ℕ
wait_slice = 500000

abbrev pub is_present : S3ObjectState → Bool
is_present exists = true
is_present _ = false

abbrev pub is_absent : S3ObjectState → Bool
is_absent not_found = true
is_absent _ = false

module _ (s : Services) (id : ℕ) (token : String) where
  -- The key that is kept of an image, where the record of it is asked for; `wrong` starts the reason.
  abbrev pub kept_key : Option Job → HandlerResult → Run (Part (Option String))
  kept_key none r = stop_with r
  kept_key (some job) r = pure (gives job.verified_image_key)

  abbrev pub recorded_key : String → StateChange → Run (Part (Option String))
  recorded_key key change =
      if change.applied
      then pure (gives (some key))
      else if recorded_before change.reason
      then kept_key change.job (deferred_by "verify_save_" change.reason)
      else stop_with (deferred_by "verify_save_" change.reason)

  -- `record_image_verified`, if the handler may continue.
  unfoldable pub verify : String → Run (Part (Option String))
  unfolding ask call record_image_verified deferred_by
  verify key = do
    may ← ask s.env s.may_continue
    if may
        then call s.env (record_image_verified id token key) >>= recorded_key key
        else stop_with (deferred "stopped_before_verify_save")

  abbrev pub stored : StoreAnswer → Run (Part (Option String))
  stored (stored_key key) = verify key
  stored (image_error why) = stop_with (deferred ("result_store_" ++ why))
  stored invalid_input = stop_with (deferred "result_store_invalid_input")
  stored store_crashes = throw other_error

  abbrev pub store_from : Option String → Option String → Run (Part (Option String))
  store_from none url = stop_with (deferred "no_async_image_key")
  store_from (some key) none = stop_with (deferred "result_url_missing")
  store_from (some key) (some url) = do
    may ← ask s.env s.may_continue
    if may
        then ask s.env s.store_result >>= stored
        else stop_with (deferred "stopped_before_result_store")

  -- `_store_image`: the job's image is fetched from Runware and stored.
  unfoldable pub store_image : Job → Run (Part (Option String))
  unfolding ask verify
  store_image job = store_from job.async_image_key job.runware_image_url

  -- `_wait_until`, for a time that the clock has to reach.
  unfoldable pub wait_until : ℕ → ℕ → Run Bool
  unfolding ask sleep
  wait_until zero until = exhausted
  wait_until (suc fuel) until = do
    now ← read_clock
    if leb until now then ask s.env s.may_continue else do
      may ← ask s.env s.may_continue
      if not may
          then pure false
          else do sleep s.env (min wait_slice (until - now)); wait_until fuel until

  -- One look: `again` is for the looks that are left.
  abbrev pub after_look :
      Run (Part (Option S3ObjectState)) → S3ObjectState → Run (Part (Option S3ObjectState))
  after_look again exists = pure (gives (some exists))
  after_look again access_denied = stop_with (deferred "s3_access_denied")
  after_look again error = stop_with (deferred "s3_error")
  after_look again seen = again

  -- The looks of one bundle: the image is there, it is not, or S3 wants an operator.
  unfoldable pub look : ℕ → List ℕ → Option S3ObjectState → Run (Part (Option S3ObjectState))
  unfolding wait_until ask
  look start [] last = pure (gives last)
  look start (offset ∷ rest) last = do
    now ← read_clock
    may ← wait_until (suc (start + offset - now)) (start + offset)
    if not may then stop_with (deferred "stopped_during_s3_check") else do
      emit (looked id)
      seen ← ask s.env s.head
      after_look (look start rest (some seen)) seen

  abbrev pub moved_on : StateChange → Run (Part (Option String))
  moved_on change =
      if change.applied
      then stop_with (finished "moved_to_fallback" (some run_fallback))
      else stop_with (deferred_by "fallback_" change.reason)

  abbrev pub is_seen : (S3ObjectState → Bool) → Option S3ObjectState → Bool
  is_seen test none = false
  is_seen test (some seen) = test seen

  abbrev pub move : Run (Part (Option String))
  move = do
    may ← ask s.env s.may_continue
    if may
        then call s.env (move_to_fallback id token not_found) >>= moved_on
        else stop_with (deferred "stopped_before_fallback")

  -- The last bundle has not found the image.
  unfoldable pub give_up : Option S3ObjectState → Run (Part (Option String))
  unfolding ask call move_to_fallback deferred_by
  give_up last =
      if is_seen is_absent last then move else stop_with (deferred "s3_unconfirmed_transient")

  abbrev pub judged :
      String → Run (Part (Option String)) → ℕ → Option S3ObjectState → Run (Part (Option String))
  judged key again bundle last =
      if is_seen is_present last then verify key else if leb 2 bundle then give_up last else again

  abbrev pub refused_check : StateChange → Run (Part (Option String))
  refused_check change =
      if recorded_before change.reason
      then kept_key change.job (deferred_by "s3_claim_" change.reason)
      else if is_limit change.reason
      then stop_with (deferred "s3_checks_unconfirmed")
      else stop_with (deferred_by "s3_claim_" change.reason)

  abbrev pub checked_job :
      String → Run (Part (Option String)) → Option Job → Run (Part (Option String))
  checked_job key again none = throw other_error
  checked_job key again (some job) = do
    start ← read_clock
    last ← look start s.offsets none
    onward (judged key again job.s3_check_attempt_count) last

  abbrev pub claimed_check :
      String → Run (Part (Option String)) → StateChange → Run (Part (Option String))
  claimed_check key again change =
      if change.applied then checked_job key again change.job else refused_check change

  -- The bundles of looks, each counted before it.
  unfoldable pub bundles : ℕ → String → Run (Part (Option String))
  unfolding ask call claim_s3_check_attempt look verify give_up deferred_by
  bundles zero key = exhausted
  bundles (suc fuel) key = do
    may ← ask s.env s.may_continue
    if may
        then call s.env (claim_s3_check_attempt id token) >>= claimed_check key (bundles fuel key)
        else stop_with (deferred "stopped_before_s3_check")

  abbrev pub verify_from : Option String → Run (Part (Option String))
  verify_from none = stop_with (deferred "no_async_image_key")
  verify_from (some key) = bundles 3 key

  -- `_verify_image`.
  unfoldable pub verify_image : Job → Run (Part (Option String))
  unfolding bundles
  verify_image job = verify_from job.async_image_key

  abbrev pub verified_image : Job → Run (Part (Option String))
  verified_image job =
      if is_some job.verified_image_key
      then pure (gives job.verified_image_key)
      else if job.ai_stores_result
      then store_image job
      else verify_image job

  -- The result is saved, if the handler may continue.
  unfoldable pub save_texts : String → String × String → Run (Part HandlerResult)
  unfolding ask save_completed
  save_texts key texts = do
    may ← ask s.env s.may_continue
    if may
        then (save_completed s id token key texts >>= λ r. pure (gives r))
        else stop_with (deferred "stopped_before_save")

  -- A job whose image was recorded before has its key.
  abbrev pub texts_of : (String → Job → Bool) → Option String → Run (Part HandlerResult)
  texts_of stage none = throw other_error
  texts_of stage (some key) = title_and_comment s id token (stage key) >>= onward (save_texts key)

  -- `PostprocessHandler.__call__`.
  unfoldable pub postprocess : Job → Run HandlerResult
  unfolding store_image verify_image title_and_comment save_texts
  postprocess job =
      if is_some job.result_payload
      then pure (finished "result_already_saved" none)
      else verified_image job >>= onward (texts_of postprocess_stage) >>= last_part
