-- ===== src/Examples/Submitting.antt =====
-- The theorems on the submitter, for a new job that is sent at its first attempt.
use ktb4_15th_ai.Prelude.{◌≤◌, ◌≡◌, refl, arith, ◌∷◌, true, false, some, none, [], count, All}
use ktb4_15th_ai.Job.{Job}
use ktb4_15th_ai.Process.{done, World, pure, ◌>>=◌, emit, need, read_clock, finally, catch, tables}
use ktb4_15th_ai.Process.Total.{Finished}
use ktb4_15th_ai.Publisher.{succeeded}
use ktb4_15th_ai.Handlers.{Event, fine}
use ktb4_15th_ai.Sending.{Meeting, replied, accepted}
use ktb4_15th_ai.Submitter.{submit}
use ktb4_15th_ai.Submitter.Sends.{is_submission, Sound}
use ktb4_15th_ai.Submitter.Ends.{submit-Finished, submit-Calls}
use ktb4_15th_ai.JobState.NotAccepted.{new_attempt}
use ktb4_15th_ai.JobState.Fallback.{exists}
use ktb4_15th_ai.Precheck.{Checks}
use ktb4_15th_ai.Resubmitter.{Resubmission, resubmit_job}
use ktb4_15th_ai.Resubmitter.Ends.{Returned, resubmit_job-Calls}
use ktb4_15th_ai.Examples.{new_job, holding}
use ktb4_15th_ai.Examples.Handling.{env}

abbrev leased_job : Job
leased_job = record new_job { worker_lease_token = some "a"; worker_lease_until = some 200 }

-- Runware takes the job.
abbrev pub meeting : Meeting
meeting = record {
  env = env 100;
  webhook_ready = true;
  queue_set = true;
  max_wait = 5;
  poll = 1;
  recheck_after = 3;
  should_stop = λ _. false;
  beat = λ _. true;
  keepalive_failed = λ _. false;
  new_task_uuid = λ _. 99;
  signed = λ _. true;
  money = λ _. fine;
  submit = λ _. replied (record {
    outcome = accepted;
    reason = "accepted";
    http_status = some 200;
    error_codes = [];
    retry_after = none;
    retry_after_unrepresentable = false;
  });
  send_json = λ _. succeeded;
  ready_for = λ _ _ _. true;
}

abbrev pub start : World Event
start = record { db = holding leased_job; now = 0; moment = 0; trace = [] }

submit-Finished_example : Finished (submit meeting 7 "a" leased_job start).0
submit-Finished_example = submit-Finished meeting 7 "a" leased_job start (omega arith) refl

submit-Calls_example :
    (count is_submission (submit meeting 7 "a" leased_job start).1.trace ≤ 1)
    × All Sound (submit meeting 7 "a" leased_job start).1.trace
submit-Calls_example = submit-Calls meeting 7 "a" leased_job start (omega arith) refl

one_call : count is_submission (submit meeting 7 "a" leased_job start).1.trace ≡ 1
unfolding submit ◌>>=◌ pure emit need read_clock finally catch tables
one_call = refl

-- A call that was not accepted, and is due again.
abbrev refused_job : Job
refused_job = record new_job {
  task_uuid = some 98;
  async_image_key = some "results/7.png";
  ai_stores_result = true;
  pruna_submit_started_at = some 50;
  pruna_not_accepted_at = some 60;
  pruna_retry_at = some 70;
}

-- Everything is in order.
abbrev pub checks : Checks
checks = record {
  before_step = λ _. true;
  products = λ _. fine;
  image = λ _. exists;
  budget = λ _. fine;
  balance = λ _. fine;
  crash = "KeyError";
}

abbrev resubmission : Resubmission
resubmission = record { meeting = meeting; lease = 100; stopping = λ _. false; checks = checks }

abbrev waiting : World Event
waiting = record start {
  db = record (holding refused_job) {
    attempts =
        record (new_attempt 7 1 98 50) { not_accepted_at = some 60; next_attempt_at = some 70 }
        ∷ [];
  };
}

resubmit_job-Calls_example :
    Returned (resubmit_job resubmission 7 "a" waiting).0
    × (count is_submission (resubmit_job resubmission 7 "a" waiting).1.trace ≤ 1)
    × All Sound (resubmit_job resubmission 7 "a" waiting).1.trace
resubmit_job-Calls_example = resubmit_job-Calls resubmission 7 "a" waiting (omega arith) refl

sent_again : (resubmit_job resubmission 7 "a" waiting).0 ≡ done "sent"
unfolding resubmit_job ◌>>=◌ pure emit need read_clock finally catch tables
sent_again = refl
