-- ===== src/Examples/Steps.antt =====
-- The theorems on fallbacks and on next steps, at concrete values.
use ktb4_15th_ai.Prelude.{◌+◌, ◌≤◌, ◌≡◌, refl, arith, true, false, not, some, List, [], ◌∷◌}
use ktb4_15th_ai.Job.{Job, fallback_running, run_fallback}
use ktb4_15th_ai.Store.{Clock}
use ktb4_15th_ai.Rules.{IsValid}
use ktb4_15th_ai.History.{Command, prepare_fallback, begin_fallback, claim_fallback_attempt}
use ktb4_15th_ai.History.Claims.{claims, counted}
use ktb4_15th_ai.History.Fallbacks.{starts_fallback, fallbacks-le}
use ktb4_15th_ai.NextStep.{next_step_for, deletion_allowed}
use ktb4_15th_ai.Paths.{full, follow_up_paths, needs_message, deletion_allowed-full}
use ktb4_15th_ai.Examples.{limits, printable, at, new_job, holding}

-- A job whose call was sent, and one that waits for its fallback under a lease.
abbrev pub sent_job : Job
sent_job = record new_job { task_uuid = some 99; pruna_submit_started_at = some 50 }

abbrev pub failed_job : Job
failed_job = record sent_job {
  status = fallback_running;
  next_action = some run_fallback;
  runware_accepted_at = some 55;
  worker_lease_token = some "a";
  worker_lease_until = some 200;
}

sent_job-IsValid : IsValid sent_job
sent_job-IsValid = ground arith

pub failed_job-IsValid : IsValid failed_job
failed_job-IsValid = ground arith

abbrev fallback_history : List (Command × Clock)
fallback_history =
    (prepare_fallback 7 "a" (some 100), at 60)
    ∷ (begin_fallback 7 "a" (some 100), at 70)
    ∷ (begin_fallback 7 "a" (some 100), at 80)
    ∷ (claim_fallback_attempt 7 "a", at 90)
    ∷ []

fallbacks-le_example :
    claims limits printable (starts_fallback 7) fallback_history (holding failed_job)
      + counted (λ r. r.fallback_attempt_count) 7 (failed_job ∷ [])
    ≤ 1
fallbacks-le_example =
    fallbacks-le limits printable 7 fallback_history (holding failed_job) (failed_job-IsValid, tt)

deletion_allowed-full_example :
    deletion_allowed (some sent_job) (follow_up_paths full) ≡ not (needs_message sent_job)
deletion_allowed-full_example = deletion_allowed-full sent_job sent_job-IsValid refl

-- The outcome of its call is looked up by the Watchdog; the message of a fallback is kept.
sent_job-deletable : deletion_allowed (some sent_job) (follow_up_paths full) ≡ true
unfolding deletion_allowed next_step_for follow_up_paths
sent_job-deletable = refl

failed_job-kept : deletion_allowed (some failed_job) (follow_up_paths full) ≡ false
unfolding deletion_allowed next_step_for follow_up_paths
failed_job-kept = refl
