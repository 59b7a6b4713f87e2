-- ===== src/Handlers/Fallback.antt =====
-- `RunFallbackHandler` of app/virtual_fitting/fallback_handler.py: the synchronous generation, at most once
-- for a job, then the texts and the result.
use Prim.Native.String.{◌++◌}
use ktb4_15th_ai.Prelude.{
  ℕ, zero, suc, ◌-◌, String, Bool, true, false, not, ◌&&◌, ◌||◌, Option, none, some, List, [], ◌∷◌,
  ◌==◌, leb, ltb, min, is_some, is_text, str_eq, if◌then◌else◌,
}
use ktb4_15th_ai.Payload.{failed, pos, to_fields}
use ktb4_15th_ai.Job.{Uuid, Job}
use ktb4_15th_ai.JobState.Change.{StateChange, fallback_limit}
use ktb4_15th_ai.JobState.Postprocess.{runs_fallback}
use ktb4_15th_ai.JobState.Fallback.{
  S3ObjectState, exists, access_denied, error, transient_error, prepare_fallback,
  record_fallback_image,
}
use ktb4_15th_ai.JobState.Publication.{save_final_result}
use ktb4_15th_ai.Limiter.Slot.{
  SubmissionGrant, SubmissionReason, granted, not_found, lease_invalid, state_mismatch,
  already_started, in_flight_full, interval_wait, send_hold, fallback_limit_reached,
  other_attempt_in_flight, sends_full, retry_wait, retry_limit_reached,
}
use ktb4_15th_ai.Limiter.Slot
use ktb4_15th_ai.Limiter.Begin.{begin_fallback}
use ktb4_15th_ai.Limiter.Release.{finish_send, release_in_flight}
use ktb4_15th_ai.Process.{
  Failure, value_error, fitting_error, other_error, pure, throw, exhausted, ◌>>=◌, ◌>>◌, catch,
  need, emit, tables, read_clock, ask, sleep, call,
}
use ktb4_15th_ai.Handlers.{
  generated, Run, HandlerResult, finished, deferred, Part, gives, Answer, value, refuses, crashes,
  Check, fine, fails_with, postponed, broken, SyncError, no_balance, model_error, any_error,
  Generation, image, failure, deferred_by, answered, onward, last_part, stop_with, Services,
}
use ktb4_15th_ai.Handlers.Texts.{recorded_before}
use ktb4_15th_ai.Handlers.Postprocess.{texts_of}
use ktb4_15th_ai.Process
use ktb4_15th_ai.Async.{decimal}

-- `fallback_result_key`.
unfoldable pub fallback_result_key : ℕ → String
unfolding decimal
fallback_result_key id = "virtual-fitting/results/" ++ decimal id ++ "/pruna-sync.jpg"

-- `fallback_stage`.
abbrev pub fallback_stage : String → Job → Bool
fallback_stage key r = runs_fallback r && is_text r.fallback_image_key key

-- What `classify_sync_error` makes of an exception.
pub data ErrorKind : Type 0 where
  balance auth rejected unknown : ErrorKind

abbrev pub kind_of_code : ℕ → ErrorKind
kind_of_code code =
    if code == 401 || code == 403
    then auth
    else if leb 400 code
        && ltb code 500
        && not (code == 408)
        && not (code == 409)
        && not (code == 429)
    then rejected
    else unknown

-- `classify_sync_error`.
abbrev pub classify_sync_error : SyncError → ErrorKind
classify_sync_error no_balance = balance
classify_sync_error (model_error none) = unknown
classify_sync_error (model_error (some code)) = kind_of_code code
classify_sync_error any_error = unknown

-- `_WAIT_REASONS`.
abbrev pub waits_for_slot : SubmissionReason → Bool
waits_for_slot interval_wait = true
waits_for_slot in_flight_full = true
waits_for_slot sends_full = true
waits_for_slot _ = false

-- `SubmissionReason.value`.
abbrev pub refusal_value : SubmissionReason → String
refusal_value granted = "granted"
refusal_value Slot.not_found = "not_found"
refusal_value lease_invalid = "lease_invalid"
refusal_value state_mismatch = "state_mismatch"
refusal_value already_started = "already_started"
refusal_value in_flight_full = "in_flight_full"
refusal_value interval_wait = "interval_wait"
refusal_value send_hold = "send_hold"
refusal_value fallback_limit_reached = "fallback_limit_reached"
refusal_value other_attempt_in_flight = "other_attempt_in_flight"
refusal_value sends_full = "sends_full"
refusal_value retry_wait = "retry_wait"
refusal_value retry_limit_reached = "retry_limit_reached"

abbrev pub is_missing : Option String → Bool
is_missing none = true
is_missing (some t) = str_eq t ""

abbrev pub no_products : Option (List String) → Bool
no_products none = true
no_products (some []) = true
no_products (some (_ ∷ _)) = false

-- `grant.wait_seconds or self._poll`.
abbrev pub wait_or : Option ℕ → ℕ → ℕ
wait_or none poll = poll
wait_or (some w) poll = if w == 0 then poll else w

abbrev pub user_image_value : S3ObjectState → String
user_image_value exists = "user_image_exists"
user_image_value S3ObjectState.not_found = "user_image_not_found"
user_image_value access_denied = "user_image_access_denied"
user_image_value transient_error = "user_image_transient_error"
user_image_value error = "user_image_error"

-- An error of the package is logged, any other exception is raised again.
abbrev pub unless_fitting : Failure → Run (Unit {0})
unless_fitting fitting_error = pure tt
unless_fitting f = throw f

module _ (s : Services) (id : ℕ) (token : String) where
  abbrev pub failure_saved : String → StateChange → Run HandlerResult
  failure_saved code change =
      if change.applied || recorded_before change.reason
      then pure (finished ("failure_saved_" ++ code) none)
      else pure (deferred_by "failure_not_saved_" change.reason)

  -- `_fail`.
  unfoldable pub fail : {A : Type 0} → String → String → Run (Part A)
  unfolding call save_final_result to_fields deferred_by
  fail code message =
      call s.env (save_final_result id token (to_fields (failed (pos id) code message)) none)
      >>= failure_saved code
      >>= stop_with

  abbrev pub money_checked : Check → Run (Part (Unit {0}))
  money_checked fine = pure (gives tt)
  money_checked (fails_with code message) = fail code message
  money_checked (postponed code) = stop_with (deferred ("check_" ++ code))
  money_checked broken = throw other_error

  -- `_check_budget`.
  unfoldable pub check_money : Run (Part (Unit {0}))
  unfolding ask fail
  check_money = ask s.env s.money >>= money_checked

  module _ (task : Uuid) (started : ℕ) where
    abbrev pub refused_slot :
        (ℕ → Run (Part SubmissionGrant)) → ℕ → SubmissionGrant → Run (Part SubmissionGrant)
    refused_slot again last g =
        if not (waits_for_slot g.reason)
        then stop_with (deferred ("fallback_" ++ refusal_value g.reason))
        else do
          now ← read_clock
          if leb s.max_wait (now - started) then stop_with (deferred "fallback_slot_wait") else do
            sleep s.env (min (min s.poll (wait_or g.wait s.poll)) (s.max_wait - (now - started)))
            again last

    abbrev pub slot_answer :
        (ℕ → Run (Part SubmissionGrant)) → ℕ → SubmissionGrant → Run (Part SubmissionGrant)
    slot_answer again last g = if g.granted then pure (gives g) else refused_slot again last g

    abbrev pub signed_slot :
        (ℕ → Run (Part SubmissionGrant)) → ℕ → Answer (Unit {0}) → Run (Part SubmissionGrant)
    signed_slot again last =
        answered
          (λ _.
            call s.env (begin_fallback s.env.limits id token (some task))
            >>= slot_answer again last)
          (stop_with (deferred "user_image_presign_failed"))

    abbrev pub try_slot : (ℕ → Run (Part SubmissionGrant)) → ℕ → Run (Part SubmissionGrant)
    try_slot again last = ask s.env s.sign >>= signed_slot again last

    -- The money has been checked again, at the time that is read now.
    abbrev pub rechecked :
        (ℕ → Run (Part SubmissionGrant)) → Part (Unit {0}) → Run (Part SubmissionGrant)
    rechecked again = onward λ _. (read_clock >>= try_slot again)

    -- The loop that waits for a place; `last` is the time of the last check of the money.
    unfoldable pub wait_for_slot : ℕ → ℕ → Run (Part SubmissionGrant)
    unfolding ask call sleep begin_fallback check_money
    wait_for_slot zero last = exhausted
    wait_for_slot (suc fuel) last = do
      may ← ask s.env s.may_continue
      if not may then stop_with (deferred "stopped_waiting_for_slot") else do
        now ← read_clock
        if leb s.recheck_after (now - last)
            then (check_money >>= rechecked (wait_for_slot fuel))
            else try_slot (wait_for_slot fuel) last

  module _ (task : Uuid) where
    abbrev pub released_error : ErrorKind → Run (Part (Option ℕ))
    released_error balance =
        fail "FITTING_BALANCE_EXHAUSTED" "현재 가상 피팅 서비스를 이용할 수 없습니다. 잠시 후 다시 시도해주세요."
    released_error auth = stop_with (deferred "fallback_auth_operator_check")
    released_error _ = fail "FITTING_MODEL_FAILED" "가상 피팅 이미지 생성에 실패했습니다."

    abbrev pub after_known : ErrorKind → Run (Part (Option ℕ))
    after_known kind = do
      _ ← call s.env (release_in_flight id (some (some task)))
      released_error kind

    -- `_after_error`.
    unfoldable pub after_error : ErrorKind → Run (Part (Option ℕ))
    unfolding call release_in_flight fail
    after_error unknown = stop_with (deferred "fallback_result_unknown")
    after_error balance = after_known balance
    after_error auth = after_known auth
    after_error rejected = after_known rejected

    abbrev pub generation : Generation → Run (Part (Option ℕ))
    generation (image cost) = pure (gives cost)
    generation (failure e) = after_error (classify_sync_error e)

    abbrev pub finish : Run (Unit {0})
    finish = catch (call s.env (finish_send id)) unless_fitting

    -- The one call of the synchronous generation, after which the place of the call is released.
    unfoldable pub generate_once : Run (Part (Option ℕ))
    unfolding ask after_error call finish_send
    generate_once =
        Process.finally
          (do
            db ← tables
            emit (generated id task db)
            answer ← ask s.env s.try_on
            generation answer)
          finish

    abbrev pub cost_recorded : Answer (Unit {0}) → Run (Unit {0})
    cost_recorded (value _) = pure tt
    cost_recorded refuses = pure tt
    cost_recorded crashes = throw other_error

    -- `_record_cost`.
    abbrev pub record_cost : Option ℕ → SubmissionGrant → Run (Unit {0})
    record_cost none g = pure tt
    record_cost (some cost) g = do
      _ ← need g.started_at
      answer ← ask s.env s.record_cost
      cost_recorded answer

    abbrev pub image_recorded : String → StateChange → Run (Part (Option String))
    image_recorded key change =
        if change.applied || recorded_before change.reason
        then pure (gives (some key))
        else stop_with (deferred_by "fallback_image_record_" change.reason)

    -- The image is there: the place is released, and cost and image are kept.
    unfoldable pub keep_image : SubmissionGrant → Option ℕ → Run (Part (Option String))
    unfolding ask call release_in_flight record_fallback_image fallback_result_key deferred_by
    keep_image g cost = do
      _ ← call s.env (release_in_flight id (some (some task)))
      record_cost cost g
      answer ← ask s.env s.store_image
      answered
          (λ _.
            call s.env (record_fallback_image id token (fallback_result_key id))
            >>= image_recorded (fallback_result_key id))
          (stop_with (deferred "fallback_image_store_failed")) answer

    -- The place for the call, the call, and its image.
    unfoldable pub generate_with : Run (Part (Option String))
    unfolding wait_for_slot generate_once keep_image
    generate_with = do
      started ← read_clock
      slot ← wait_for_slot task started (suc s.max_wait) started
      onward (λ g. generate_once >>= onward (keep_image g)) slot

  abbrev pub task_of : Option Job → Run Uuid
  task_of none = throw other_error
  task_of (some job) = need job.fallback_task_uuid

  abbrev pub named : StateChange → Run (Part (Option String))
  named change =
      if change.applied || recorded_before change.reason
      then (task_of change.job >>= generate_with)
      else stop_with (deferred_by "fallback_task_" change.reason)

  -- The task of the fallback is stored before anything is sent.
  unfoldable pub name_task : Run (Part (Option String))
  unfolding ask call prepare_fallback generate_with deferred_by
  name_task = do
    task ← ask s.env s.new_task_uuid
    change ← call s.env (prepare_fallback id token (some task))
    named change

  abbrev pub headed : S3ObjectState → Run (Part (Option String))
  headed S3ObjectState.not_found = fail "INVALID_REQUEST" "가상 피팅에 사용할 사진을 찾을 수 없습니다."
  headed exists = check_money >>= onward λ _. name_task
  headed seen = stop_with (deferred (user_image_value seen))

  abbrev pub prepared : Check → Run (Part (Option String))
  prepared fine = ask s.env s.head >>= headed
  prepared (fails_with code message) = fail code message
  prepared (postponed code) = throw fitting_error
  prepared broken = throw other_error

  -- `_generate`.
  unfoldable pub generate : Job → Run (Part (Option String))
  unfolding ask fail check_money name_task
  generate job = do
    may ← ask s.env s.may_continue
    if not may
        then stop_with (deferred "stopped_before_input")
        else if is_missing job.user_image_key || no_products job.products
        then stop_with (deferred "no_original_input")
        else do
          signed ← ask s.env s.sign
          answered (λ _. ask s.env s.inputs >>= prepared)
              (stop_with (deferred "user_image_presign_failed")) signed

  abbrev pub fallback_image : Job → Run (Part (Option String))
  fallback_image job =
      if is_some job.fallback_image_key
      then pure (gives job.fallback_image_key)
      else if is_some job.fallback_started_at || leb fallback_limit job.fallback_attempt_count
      then stop_with (deferred "fallback_started_unconfirmed")
      else generate job

  -- `RunFallbackHandler.__call__`.
  unfoldable pub run_fallback : Job → Run HandlerResult
  unfolding generate
  run_fallback job =
      if is_some job.result_payload
      then pure (finished "result_already_saved" none)
      else fallback_image job >>= onward (texts_of s id token fallback_stage) >>= last_part
