-- ===== src/Precheck.antt =====
-- `RequestPrecheck.run` of app/virtual_fitting/request_worker.py: what is looked at before Pruna is called.
-- How the products, the budget and the balance are looked up are parameters, with the error of each.
pub mod Keeps
pub mod Passes
use ktb4_15th_ai.Prelude.{ℕ, String, Bool, if◌then◌else◌}
use ktb4_15th_ai.JobState.Fallback.{S3ObjectState, exists, not_found}
use ktb4_15th_ai.Process.{Env, pure, ◌>>=◌, ask}
use ktb4_15th_ai.Handlers.{Run, Check, fine, fails_with, postponed, broken}
use ktb4_15th_ai.Handlers.Fallback.{user_image_value}

-- What the checks meet at each moment; `crash` is the name of an exception that was not foreseen.
pub record Checks : Type 0 where
  pub before_step : ℕ → Bool
  pub products : ℕ → Check
  pub image : ℕ → S3ObjectState
  pub budget : ℕ → Check
  pub balance : ℕ → Check
  pub crash : String

module _ (e : Env) (c : Checks) where
  -- The next look is not begun where `before_step` says no.
  abbrev pub unless_stopped : String → Run Check → Bool → Run Check
  unless_stopped reason rest may = if may then rest else pure (postponed reason)

  abbrev pub before : String → Run Check → Run Check
  before reason rest = ask e c.before_step >>= unless_stopped reason rest

  -- An error that is certain fails, any other one postpones.
  abbrev pub when_fine : Run Check → Check → Run Check
  when_fine rest fine = rest
  when_fine rest broken = pure (postponed c.crash)
  when_fine rest (fails_with code message) = pure (fails_with code message)
  when_fine rest (postponed code) = pure (postponed code)

  abbrev pub when_there : Run Check → S3ObjectState → Run Check
  when_there rest exists = rest
  when_there rest not_found = pure (fails_with "INVALID_REQUEST" "가상 피팅에 사용할 사진을 찾을 수 없습니다.")
  when_there rest state = pure (postponed (user_image_value state))

  abbrev pub balance_step : Run Check
  balance_step = before "stopped_before_balance" (ask e c.balance >>= when_fine (pure fine))

  abbrev pub budget_step : Run Check
  budget_step = before "stopped_before_budget" (ask e c.budget >>= when_fine balance_step)

  abbrev pub image_step : Run Check
  image_step = before "stopped_before_image" (ask e c.image >>= when_there budget_step)

  -- `run`.
  unfoldable pub run_precheck : Run Check
  unfolding ask
  run_precheck = before "stopped_before_products" (ask e c.products >>= when_fine image_step)
