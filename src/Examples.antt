-- ===== src/Examples.antt =====
-- The theorems at a small history of one job: it is created, two Workers want its lease, it is prepared
-- and sent, and both try to send its result.
pub mod Records
pub mod Publishing
pub mod Steps
pub mod Money
pub mod Handling
pub mod Submitting
pub mod Requesting
pub mod FollowingUp
use ktb4_15th_ai.Prelude.{
  ℕ, ◌+◌, ◌≤◌, ◌≡◌, ◌≢◌, refl, String, Bool, true, false, none, some, List, [], ◌∷◌, arith, All,
  eq_iff,
}
use ktb4_15th_ai.Payload.{Payload, pos}
use ktb4_15th_ai.Job.{Status, Job, submit_pruna, published}
use ktb4_15th_ai.Store.{Db, Clock, find_job}
use ktb4_15th_ai.JobTable.{NewJob, new_row}
use ktb4_15th_ai.JobState.Change.{
  lease_valid, result_message_limit, llm_generation_limit, s3_check_limit,
}
use ktb4_15th_ai.Limiter.Slot.{Limits}
use ktb4_15th_ai.Rules.{IsValid}
use ktb4_15th_ai.History.{
  Command, create, acquire_lease, prepare_pruna_submission, begin_submission,
  claim_result_message_attempt, claim_llm_generation_attempt, claim_s3_check_attempt, run, exec,
}
use ktb4_15th_ai.History.Results.{Became, run-IsValid, run-Became, run-ended}
use ktb4_15th_ai.History.Leases.{lease-excludes}
use ktb4_15th_ai.History.Places.{Within}
use ktb4_15th_ai.History.Spacing.{Spaced, start_times, run-Within, start_times-Spaced}
use ktb4_15th_ai.History.Claims.{
  claims, counted, claims_message, claims_llm_call, claims_s3_check, message-claims-le,
  llm_call-claims-le, s3_check-claims-le,
}

abbrev pub limits : Limits
limits = record {
  max_in_flight = 2;
  max_concurrent_sends = 1;
  min_send_interval = 1000000;
  send_hold = 60000000;
}

abbrev pub printable : ℕ → Bool
printable c = true

abbrev pub at : ℕ → Clock
at t = record { lock = t; now = t; later = t; fits = λ _ _. true }

abbrev pub request : NewJob
request = record {
  fitting_job_id = 7;
  request_fingerprint = "f";
  user_image_key = "users/7.png";
  products = "shirt" ∷ [];
  requested_at = 5;
}

abbrev pub empty_db : Db
empty_db = record {
  jobs = [];
  attempts = [];
  limiter = some (record { next_send_at = 0; send_hold_reason = none; send_hold_at = none });
  in_flight = [];
  sends = [];
}

abbrev pub history : List (Command × Clock)
history =
    (create request, at 10)
    ∷ (acquire_lease "a" 7 submit_pruna 100, at 20)
    ∷ (acquire_lease "b" 7 submit_pruna 100, at 30)
    ∷ (prepare_pruna_submission 7 "a" (some 99) "results/7.png" true, at 40)
    ∷ (begin_submission 7 "a" (some 99), at 50)
    ∷ (claim_s3_check_attempt 7 "a", at 60)
    ∷ (claim_llm_generation_attempt 7 "a", at 70)
    ∷ (claim_result_message_attempt 7 "a", at 80)
    ∷ []

-- The job as it was created, held by a Worker, and ended.
abbrev pub new_job : Job
new_job = new_row request 10

abbrev held_job : Job
held_job = record new_job { worker_lease_token = some "a"; worker_lease_until = some 120 }

abbrev ended_job : Job
ended_job = record new_job {
  status = Status.failed;
  next_action = none;
  result_payload = some (Payload.failed (pos 7) "CODE" "message");
  result_message_status = published;
  result_message_attempt_count = 1;
}

abbrev pub holding : Job → Db
holding job = record empty_db { jobs = job ∷ [] }

new_job-IsValid : IsValid new_job
new_job-IsValid = ground arith

ended_job-IsValid : IsValid ended_job
ended_job-IsValid = ground arith

run-IsValid_example : All IsValid (run limits printable history empty_db).jobs
run-IsValid_example = run-IsValid limits printable history empty_db tt

run-Became_example : Became 7 new_job (run limits printable history (holding new_job)).jobs
run-Became_example =
    run-Became limits printable 7 history (holding new_job) new_job (new_job-IsValid, tt) refl

run-ended_example :
    find_job 7 (run limits printable history (holding ended_job)).jobs ≡ some ended_job
run-ended_example =
    run-ended limits printable 7 history (holding ended_job) ended_job (ended_job-IsValid, tt) refl
      refl

lease_valid_a : lease_valid "a" 30 held_job ≡ true
unfolding lease_valid
lease_valid_a = refl

abbrev token_a : String
token_a = "a"

abbrev token_b : String
token_b = "b"

a_not_b : token_a ≢ token_b
a_not_b h = let same = (eq_iff token_a token_b).1 h in cc

lease-excludes_example :
    exec limits printable (claim_result_message_attempt 7 "b") (at 30) (holding held_job)
    ≡ (false, holding held_job)
lease-excludes_example =
    lease-excludes (at 30) (holding held_job) limits printable (claim_result_message_attempt 7 "b")
      7 token_a token_b held_job refl lease_valid_a refl a_not_b

run-Within_example : Within limits (run limits printable history empty_db)
run-Within_example =
    run-Within limits printable history empty_db
      (record { in_flight = omega arith; sends = omega arith })

start_times-Spaced_example : Spaced 1000000 (start_times limits printable history empty_db)
start_times-Spaced_example = start_times-Spaced limits printable history empty_db

message-claims-le_example :
    claims limits printable (claims_message 7) history empty_db
      + counted (λ r. r.result_message_attempt_count) 7 []
    ≤ result_message_limit
message-claims-le_example = message-claims-le limits printable 7 history empty_db tt

llm_call-claims-le_example :
    claims limits printable (claims_llm_call 7) history empty_db
      + counted (λ r. r.llm_generation_attempt_count) 7 []
    ≤ llm_generation_limit
llm_call-claims-le_example = llm_call-claims-le limits printable 7 history empty_db tt

s3_check-claims-le_example :
    claims limits printable (claims_s3_check 7) history empty_db
      + counted (λ r. r.s3_check_attempt_count) 7 []
    ≤ s3_check_limit
s3_check-claims-le_example = s3_check-claims-le limits printable 7 history empty_db tt
