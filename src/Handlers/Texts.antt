-- ===== src/Handlers/Texts.antt =====
-- `title_and_comment` and `save_completed` of app/virtual_fitting/postprocess_handler.py.
use Prim.Native.Char.{code}
use ktb4_15th_ai.Prelude.{
  ℕ, zero, suc, String, Bool, true, false, not, ◌||◌, Option, none, some, List, [], ◌∷◌, leb, ltb,
  length, is_some, if◌then◌else◌,
}
use ktb4_15th_ai.S3Key.{codes, is_space, is_blank}
use ktb4_15th_ai.Payload.{completed, pos, to_fields}
use ktb4_15th_ai.Job.{Job}
use ktb4_15th_ai.JobState.Change.{ChangeReason, already_recorded, StateChange, llm_generation_limit}
use ktb4_15th_ai.JobState.Lease.{holds_lease}
use ktb4_15th_ai.JobState.Postprocess.{claim_llm_generation_attempt}
use ktb4_15th_ai.JobState.Publication.{save_final_result}
use ktb4_15th_ai.Publisher.{is_limit}
use ktb4_15th_ai.JobTable.{find_by_fitting_job_id}
use ktb4_15th_ai.Process.{fitting_error, other_error, pure, throw, ◌>>=◌, ◌>>◌, emit, ask, call}
use ktb4_15th_ai.Handlers.{
  asked_llm, Run, HandlerResult, finished, deferred, Part, gives, Answer, value, refuses, crashes,
  answered, onward, stop_with, deferred_by, Services,
}

abbrev pub fallback_title : String
fallback_title = "가상 피팅 결과"

abbrev pub fallback_comment : String
fallback_comment = "선택하신 상품으로 완성한 가상 피팅 결과입니다."

abbrev pub title_max_length : ℕ
title_max_length = 100

abbrev pub attempt_limit : ℕ
attempt_limit = 2

unfoldable pub strip_left : String → String
unfolding is_space
strip_left String.[] = ""
strip_left (String.◌∷◌ c s) = if is_space (code c) then strip_left s else String.◌∷◌ c s

abbrev pub attach : Bool → String → String → String
attach space whole String.[] = if space then "" else whole
attach space whole (String.◌∷◌ d r) = whole

unfoldable pub strip_right : String → String
unfolding is_space
strip_right String.[] = ""
strip_right (String.◌∷◌ c s) =
    let rest = strip_right s in attach (is_space (code c)) (String.◌∷◌ c rest) rest

-- `str.strip`.
unfoldable pub strip : String → String
unfolding strip_left strip_right
strip t = strip_right (strip_left t)

-- `_usable`.
abbrev pub usable : String → Bool
usable t = not (is_blank (codes t))

-- `len(text) > TITLE_MAX_LENGTH`.
abbrev pub too_long : String → Bool
too_long t = ltb title_max_length (length (codes t))

module _ (s : Services) (id : ℕ) (token : String) (stage_ok : Job → Bool) where
  unfoldable pub gate_job : Option Job → Run (Part Job)
  unfolding holds_lease call
  gate_job none = stop_with (deferred "job_missing")
  gate_job (some latest) =
      if is_some latest.result_payload
      then stop_with (finished "result_already_saved" none)
      else if not (stage_ok latest)
      then stop_with (deferred "llm_state_changed")
      else do
        held ← call s.env (holds_lease id token)
        if held then pure (gives latest) else stop_with (deferred "llm_lease_lost")

  -- `gate`, before each call of the LLM.
  unfoldable pub gate : String → Run (Part Job)
  unfolding gate_job ask call find_by_fitting_job_id
  gate stopped = do
    may ← ask s.env s.may_continue
    if not may
        then stop_with (deferred stopped)
        else call s.env (find_by_fitting_job_id id) >>= gate_job

  -- Whether one more call is counted, or the budget of calls is used up.
  abbrev pub claimed_change : StateChange → Run (Part Bool)
  claimed_change change =
      if change.applied
      then pure (gives true)
      else if is_limit change.reason
      then pure (gives false)
      else stop_with (deferred_by "llm_claim_" change.reason)

  unfoldable pub claim_call : Run (Part Bool)
  unfolding call claim_llm_generation_attempt deferred_by
  claim_call = call s.env (claim_llm_generation_attempt id token) >>= claimed_change

  abbrev pub comment_answer :
      Run (Part (Option String)) → Answer String → Run (Part (Option String))
  comment_answer again (value t) = if usable t then pure (gives (some (strip t))) else again
  comment_answer again refuses = again
  comment_answer again crashes = throw other_error

  abbrev pub ask_comment : Run (Part (Option String)) → Bool → Run (Part (Option String))
  ask_comment again counted = if not counted then pure (gives none) else do
    emit (asked_llm id)
    answer ← ask s.env s.generate_comment
    comment_answer again answer

  abbrev pub sign_and_ask : Run (Part (Option String)) → Job → Run (Part (Option String))
  sign_and_ask again latest =
      if leb llm_generation_limit latest.llm_generation_attempt_count then pure (gives none) else do
        signed ← ask s.env s.sign
        answered (λ _. claim_call >>= onward (ask_comment again))
            (stop_with (deferred "s3_presign_failed")) signed

  -- The loop of the comment, by the attempts that are left: the comment, or `none` where all failed.
  unfoldable pub comment_attempts : ℕ → Run (Part (Option String))
  unfolding gate ask claim_call strip
  comment_attempts zero = pure (gives none)
  comment_attempts (suc n) =
      gate "stopped_before_llm" >>= onward (sign_and_ask (comment_attempts n))

  abbrev pub title_answer : Run (Part (Option String)) → Answer String → Run (Part (Option String))
  title_answer again (value t) =
      if not (usable t)
      then again
      else if too_long (strip t)
      then again
      else pure (gives (some (strip t)))
  title_answer again refuses = again
  title_answer again crashes = throw other_error

  abbrev pub ask_title : Run (Part (Option String)) → Bool → Run (Part (Option String))
  ask_title again counted =
      if not counted
      then pure (gives none)
      else do emit (asked_llm id); answer ← ask s.env s.generate_title; title_answer again answer

  -- The loop of the title, with the comment that was made.
  unfoldable pub title_attempts : ℕ → Run (Part (Option String))
  unfolding gate ask claim_call strip
  title_attempts zero = pure (gives none)
  title_attempts (suc n) =
      gate "stopped_before_title"
      >>= onward λ _. claim_call >>= onward (ask_title (title_attempts n))

  abbrev pub titled : String → Option String → Run (Part (String × String))
  titled comment none = pure (gives (fallback_title, comment))
  titled comment (some title) = pure (gives (title, comment))

  abbrev pub commented : Option String → Run (Part (String × String))
  commented none = pure (gives (fallback_title, fallback_comment))
  commented (some comment) = title_attempts attempt_limit >>= onward (titled comment)

  abbrev pub with_summaries : List String → Run (Part (String × String))
  with_summaries [] = pure (gives (fallback_title, fallback_comment))
  with_summaries (_ ∷ _) = comment_attempts attempt_limit >>= onward commented

  unfoldable pub title_and_comment : Run (Part (String × String))
  unfolding ask comment_attempts title_attempts
  title_and_comment = ask s.env s.summaries >>= answered with_summaries (throw fitting_error)

abbrev pub recorded_before : ChangeReason → Bool
recorded_before already_recorded = true
recorded_before _ = false

abbrev pub saved_result : StateChange → Run HandlerResult
saved_result change =
    if change.applied || recorded_before change.reason
    then pure (finished "result_saved" none)
    else pure (deferred_by "save_" change.reason)

unfoldable pub save_completed : Services → ℕ → String → String → String × String → Run HandlerResult
unfolding call save_final_result to_fields deferred_by
save_completed s id token key texts =
    call s.env
      (save_final_result id token (to_fields (completed (pos id) key texts.0 texts.1)) (some key))
    >>= saved_result
