-- ===== src/Handlers/Calls/Images.antt =====
-- The image of Pruna, stored or looked for, costs no call that is counted.
use ktb4_15th_ai.Prelude.{ℕ, zero, suc, ◌≡◌, String, Bool, false, Option, none, some, List, [], ◌∷◌}
use ktb4_15th_ai.Job.{Job}
use ktb4_15th_ai.JobState.Fallback.{
  S3ObjectState, exists, not_found, access_denied, error, transient_error,
}
use ktb4_15th_ai.Rules.Methods.{
  record_image_verified-Lawful, claim_s3_check_attempt-Lawful, move_to_fallback-Lawful,
}
use ktb4_15th_ai.Process.{◌>>=◌, emit}
use ktb4_15th_ai.Process.Keeps.{Keeps}
use ktb4_15th_ai.Handlers.{
  looked, Run, HandlerResult, Part, gives, stops, StoreAnswer, stored_key, image_error,
  invalid_input, store_crashes, onward, last_part, Services,
}
use ktb4_15th_ai.Handlers.Counting.{Meter, Paid, emit-Keeps}
use ktb4_15th_ai.Handlers.Texts.{title_and_comment}
use ktb4_15th_ai.Handlers.Postprocess.{
  verify, kept_key, stored, store_from, store_image, wait_until, look, after_look, give_up, judged,
  checked_job, bundles, verify_from, verify_image, verified_image, save_texts, texts_of,
  postprocess_stage, postprocess,
}
use ktb4_15th_ai.Handlers.Calls.{paid_rules}
use ktb4_15th_ai.Handlers.Calls.Texts.{save_completed-Keeps}

module _ (t : Meter) (s : Services) (id : ℕ) (token : String)
    (texts : (stage_ok : Job → Bool)
      → Keeps (Paid t 0) (title_and_comment s id token stage_ok)) where
  last_part-Keeps : (p : Part HandlerResult) → Keeps (Paid t 0) (last_part p)
  last_part-Keeps (gives r) = search paid_rules
  last_part-Keeps (stops r) = search paid_rules

  save_texts-Keeps :
      (key : String) (made : String × String) → Keeps (Paid t 0) (save_texts s id token key made)
  unfolding save_texts
  save_texts-Keeps key made = search (paid_rules, save_completed-Keeps)

  pub texts_of-Keeps :
      (stage : String → Job → Bool) (key : Option String)
      → Keeps (Paid t 0) (texts_of s id token stage key)
  texts_of-Keeps stage none = search paid_rules
  texts_of-Keeps stage (some key) = search (paid_rules, texts, save_texts-Keeps)

  pub ended-Keeps :
      (stage : String → Job → Bool) (m : Run (Part (Option String)))
      → Keeps (Paid t 0) m
      → Keeps (Paid t 0) (m >>= onward (texts_of s id token stage) >>= last_part)
  ended-Keeps stage m k = search (paid_rules, texts_of-Keeps, last_part-Keeps)

module _ (t : Meter) (s : Services) (id : ℕ) (token : String)
    (quiet : t.is_call (looked id) ≡ false) where
  kept_key-Keeps :
      (job : Option Job) (r : HandlerResult) → Keeps (Paid t 0) (kept_key s id token job r)
  kept_key-Keeps none r = search paid_rules
  kept_key-Keeps (some job) r = search paid_rules

  verify-Keeps : (key : String) → Keeps (Paid t 0) (verify s id token key)
  unfolding verify
  verify-Keeps key = search (paid_rules, record_image_verified-Lawful, kept_key-Keeps) depth 8

  stored-Keeps : (a : StoreAnswer) → Keeps (Paid t 0) (stored s id token a)
  stored-Keeps (stored_key key) = verify-Keeps key
  stored-Keeps (image_error why) = search paid_rules
  stored-Keeps invalid_input = search paid_rules
  stored-Keeps store_crashes = search paid_rules

  store_from-Keeps : (key url : Option String) → Keeps (Paid t 0) (store_from s id token key url)
  store_from-Keeps none url = search paid_rules
  store_from-Keeps (some key) none = search paid_rules
  store_from-Keeps (some key) (some url) = search (paid_rules, stored-Keeps)

  store_image-Keeps : (job : Job) → Keeps (Paid t 0) (store_image s id token job)
  unfolding store_image
  store_image-Keeps job = store_from-Keeps job.async_image_key job.runware_image_url

  wait_until-Keeps : (fuel until : ℕ) → Keeps (Paid t 0) (wait_until s id token fuel until)
  unfolding wait_until
  wait_until-Keeps zero until = search paid_rules
  wait_until-Keeps (suc fuel) until =
      let again = wait_until-Keeps fuel until in search paid_rules depth 9

  after_look-Keeps :
      (again : Run (Part (Option S3ObjectState)))
      → Keeps (Paid t 0) again
      → (seen : S3ObjectState) → Keeps (Paid t 0) (after_look s id token again seen)
  after_look-Keeps again k exists = search paid_rules
  after_look-Keeps again k not_found = k
  after_look-Keeps again k access_denied = search paid_rules
  after_look-Keeps again k transient_error = k
  after_look-Keeps again k error = search paid_rules

  looked-Keeps : Keeps (Paid t 0) (emit (looked id))
  looked-Keeps = emit-Keeps t (looked id) quiet

  look-Keeps :
      (start : ℕ) (offsets : List ℕ) (last : Option S3ObjectState)
      → Keeps (Paid t 0) (look s id token start offsets last)
  unfolding look
  look-Keeps start [] last = search paid_rules
  look-Keeps start (offset ∷ rest) last =
      let again = λ (seen : S3ObjectState). look-Keeps start rest (some seen) in
      let after = λ (seen : S3ObjectState). after_look-Keeps _ (again seen) seen in
      search (paid_rules, wait_until-Keeps, looked-Keeps) depth 12

  give_up-Keeps : (last : Option S3ObjectState) → Keeps (Paid t 0) (give_up s id token last)
  unfolding give_up
  give_up-Keeps last = search (paid_rules, move_to_fallback-Lawful) depth 8

  judged-Keeps :
      (key : String) (again : Run (Part (Option String))) (bundle : ℕ) (last : Option S3ObjectState)
      → Keeps (Paid t 0) again
      → Keeps (Paid t 0) (judged s id token key again bundle last)
  judged-Keeps key again bundle last k = search (paid_rules, verify-Keeps, give_up-Keeps)

  checked_job-Keeps :
      (key : String) (again : Run (Part (Option String)))
      → Keeps (Paid t 0) again
      → (job : Option Job) → Keeps (Paid t 0) (checked_job s id token key again job)
  checked_job-Keeps key again k none = search paid_rules
  checked_job-Keeps key again k (some job) =
      let judge =
        λ (last : Option S3ObjectState). judged-Keeps key again job.s3_check_attempt_count last k in
      search (paid_rules, look-Keeps)

  bundles-Keeps : (fuel : ℕ) (key : String) → Keeps (Paid t 0) (bundles s id token fuel key)
  unfolding bundles
  bundles-Keeps zero key = search paid_rules
  bundles-Keeps (suc fuel) key =
      let check = checked_job-Keeps key (bundles s id token fuel key) (bundles-Keeps fuel key) in
      search (paid_rules, claim_s3_check_attempt-Lawful, kept_key-Keeps) depth 9

  verify_from-Keeps : (key : Option String) → Keeps (Paid t 0) (verify_from s id token key)
  verify_from-Keeps none = search paid_rules
  verify_from-Keeps (some key) = bundles-Keeps 3 key

  verify_image-Keeps : (job : Job) → Keeps (Paid t 0) (verify_image s id token job)
  unfolding verify_image
  verify_image-Keeps job = verify_from-Keeps job.async_image_key

  pub verified_image-Keeps : (job : Job) → Keeps (Paid t 0) (verified_image s id token job)
  verified_image-Keeps job = search (paid_rules, store_image-Keeps, verify_image-Keeps)

  -- The handler of POSTPROCESS, where the texts keep what is paid.
  pub postprocess-Keeps :
      ((stage_ok : Job → Bool) → Keeps (Paid t 0) (title_and_comment s id token stage_ok))
      → (job : Job) → Keeps (Paid t 0) (postprocess s id token job)
  unfolding postprocess
  postprocess-Keeps texts job =
      let ended = ended-Keeps t s id token texts postprocess_stage _ (verified_image-Keeps job) in
      search paid_rules
