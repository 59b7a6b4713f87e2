-- ===== src/Examples/Handling.antt =====
-- The theorems on the handlers, for a job that waits for its texts and one that waits for its fallback.
use ktb4_15th_ai.Prelude.{
  ℕ, ◌+◌, ◌≤◌, ◌≡◌, refl, arith, true, false, some, none, List, [], ◌∷◌, count,
}
use ktb4_15th_ai.Job.{Job, postprocessing, postprocess}
use ktb4_15th_ai.JobState.Change.{llm_generation_limit, fallback_limit}
use ktb4_15th_ai.JobState.Fallback.{exists}
use ktb4_15th_ai.Rules.{IsValid}
use ktb4_15th_ai.History.Claims.{counted}
use ktb4_15th_ai.Process.{Env, pure, ◌>>=◌, emit}
use ktb4_15th_ai.Handlers.{Services, value, refuses, fine, image, stored_key}
use ktb4_15th_ai.Handlers.Calls.Totals.{
  Handling, handle_all, fresh, is_llm_call, is_generation, llm_calls-le, generations-le,
}
use ktb4_15th_ai.Examples.{limits, printable, at, holding}
use ktb4_15th_ai.Examples.Steps.{sent_job, failed_job, failed_job-IsValid}

abbrev pub env : ℕ → Env
env t = record {
  limits = limits;
  is_printable = printable;
  clock = λ i. at (t + i);
  others = λ _. [];
  lapse = λ _. 1;
}

-- All goes well, except that the first title is refused.
abbrev services : Services
services = record {
  env = env 100;
  may_continue = λ _. true;
  summaries = λ _. value ("a shirt" ∷ []);
  sign = λ _. value tt;
  generate_comment = λ _. value " nice ";
  generate_title = λ _. refuses;
  head = λ _. exists;
  store_result = λ _. stored_key "results/7.webp";
  offsets = 0 ∷ [];
  max_wait = 5;
  poll = 1;
  recheck_after = 3;
  inputs = λ _. fine;
  money = λ _. fine;
  new_task_uuid = λ _. 100;
  try_on = λ _. image none;
  record_cost = λ _. value tt;
  store_image = λ _. value tt;
}

abbrev pub imaged_job : Job
imaged_job = record sent_job {
  status = postprocessing;
  next_action = some postprocess;
  runware_accepted_at = some 55;
  verified_image_key = some "results/7.png";
  image_verified_at = some 60;
  worker_lease_token = some "a";
  worker_lease_until = some 200;
}

imaged_job-IsValid : IsValid imaged_job
imaged_job-IsValid = ground arith

abbrev postprocessings : List Handling
postprocessings =
    record { services = services; token = "a"; job = imaged_job; is_fallback = false } ∷ []

abbrev fallbacks : List Handling
fallbacks =
    record { services = services; token = "a"; job = failed_job; is_fallback = true }
    ∷ record { services = services; token = "a"; job = failed_job; is_fallback = true }
    ∷ []

llm_calls-le_example :
    counted (λ r. r.llm_generation_attempt_count) 7 (holding imaged_job).jobs
      + count is_llm_call (handle_all 7 postprocessings (fresh (holding imaged_job) 0)).trace
    ≤ llm_generation_limit
llm_calls-le_example =
    llm_calls-le 7 postprocessings (holding imaged_job) 0 (imaged_job-IsValid, tt)

generations-le_example :
    counted (λ r. r.fallback_attempt_count) 7 (holding failed_job).jobs
      + count is_generation (handle_all 7 fallbacks (fresh (holding failed_job) 0)).trace
    ≤ fallback_limit
generations-le_example = generations-le 7 fallbacks (holding failed_job) 0 (failed_job-IsValid, tt)

three_calls :
    count is_llm_call (handle_all 7 postprocessings (fresh (holding imaged_job) 0)).trace ≡ 3
unfolding handle_all ◌>>=◌ pure emit
three_calls = refl
