-- ===== src/Precheck/Keeps.antt =====
-- The checks before a call of Runware make no call of it, and pass only where everything is in order.
use ktb4_15th_ai.JobState.Fallback.{
  S3ObjectState, exists, not_found, access_denied, transient_error, error,
}
use ktb4_15th_ai.Process.{Env}
use ktb4_15th_ai.Process.Total.{Total, total_rules}
use ktb4_15th_ai.Handlers.{Run, Check, fine, fails_with, postponed, broken}
use ktb4_15th_ai.Submitter.Sends.{Calls}
use ktb4_15th_ai.Precheck.{
  Checks, when_fine, when_there, balance_step, budget_step, image_step, run_precheck,
}

module _ (e : Env) (c : Checks) where
  when_fine-Calls :
      (rest : Run Check) (check : Check)
      → Total (Calls 1) rest
      → Total (Calls 1) (when_fine e c rest check)
  when_fine-Calls rest fine h = h
  when_fine-Calls rest (fails_with code message) h = search total_rules
  when_fine-Calls rest (postponed code) h = search total_rules
  when_fine-Calls rest broken h = search total_rules

  when_there-Calls :
      (rest : Run Check) (state : S3ObjectState)
      → Total (Calls 1) rest
      → Total (Calls 1) (when_there e c rest state)
  when_there-Calls rest exists h = h
  when_there-Calls rest not_found h = search total_rules
  when_there-Calls rest access_denied h = search total_rules
  when_there-Calls rest transient_error h = search total_rules
  when_there-Calls rest error h = search total_rules

  balance_step-Calls : Total (Calls 1) (balance_step e c)
  balance_step-Calls = search (total_rules, when_fine-Calls) depth 12

  budget_step-Calls : Total (Calls 1) (budget_step e c)
  budget_step-Calls = search (total_rules, when_fine-Calls, balance_step-Calls) depth 12

  image_step-Calls : Total (Calls 1) (image_step e c)
  image_step-Calls = search (total_rules, when_there-Calls, budget_step-Calls) depth 12

  pub run_precheck-Calls : Total (Calls 1) (run_precheck e c)
  unfolding run_precheck
  run_precheck-Calls = search (total_rules, when_fine-Calls, image_step-Calls) depth 12
