-- ===== src/Examples/Publishing.antt =====
-- The theorems on the publication of results, for a job whose result waits: the queue fails once, and
-- then takes the message.
use ktb4_15th_ai.Prelude.{ℕ, ◌+◌, ◌≤◌, ◌≡◌, refl, arith, true, false, some, [], ◌∷◌}
use ktb4_15th_ai.Payload.{
  pos, failed, check_result_payload, check_by_status, check_failure, text_of, lookup, to_fields,
}
use ktb4_15th_ai.Job.{Job, publish_result}
use ktb4_15th_ai.Store.{write, allowed}
use ktb4_15th_ai.JobState.Change.{update, claim, run_row, lease_valid, result_message_limit}
use ktb4_15th_ai.JobState.Lease.{acquire_lease, lease_free}
use ktb4_15th_ai.JobState.Publication.{claim_result_message_attempt, mark_result_published}
use ktb4_15th_ai.Rules.{IsValid}
use ktb4_15th_ai.History.{run}
use ktb4_15th_ai.Publisher.{
  Meeting, SqsOutcome, succeeded, published, publish, meanwhile, send_result, payload_problem, send,
  finally,
}
use ktb4_15th_ai.Publisher.Counts.{messages}
use ktb4_15th_ai.Publisher.Sends.{publish_all, publish_all-le}
use ktb4_15th_ai.Publisher.Outcomes.{Ended, publish-Ended}
use ktb4_15th_ai.Examples.{limits, printable, at, new_job, holding}

abbrev ready_job : Job
ready_job = record new_job {
  next_action = some publish_result;
  result_payload = some (failed (pos 7) "CODE" "message");
}

abbrev meeting : ℕ → SqsOutcome → Meeting
meeting t answer = record {
  lease = 1000;
  backoffs = 5 ∷ 30 ∷ [];
  config_backoff = 300;
  token = "t";
  clock = λ i. at (t + i);
  others = λ _. [];
  queue_set = true;
  answer = answer;
  config_reason = false;
}

ready_job-IsValid : IsValid ready_job
ready_job-IsValid = ground arith

publish_all-le_example :
    (publish_all limits printable 7
        (meeting 100 SqsOutcome.failed ∷ meeting 2000 succeeded ∷ meeting 4000 succeeded ∷ [])
        (holding ready_job)).0
      + messages 7 (holding ready_job)
    ≤ result_message_limit
publish_all-le_example =
    publish_all-le limits printable 7
      (meeting 100 SqsOutcome.failed ∷ meeting 2000 succeeded ∷ meeting 4000 succeeded ∷ [])
      (holding ready_job) (ready_job-IsValid, tt)

publishes : (publish limits printable (meeting 100 succeeded) 7 (holding ready_job)).0 ≡ published
unfolding publish meanwhile run acquire_lease lease_free run_row write allowed send_result
    payload_problem check_result_payload check_by_status check_failure text_of lookup to_fields
    claim_result_message_attempt claim update lease_valid send mark_result_published finally
publishes = refl

publish-Ended_example :
    Ended 7
      (publish limits printable (meeting 100 succeeded) 7 (holding ready_job)).1
      (publish limits printable (meeting 100 succeeded) 7 (holding ready_job)).2
publish-Ended_example =
    publish-Ended limits printable (meeting 100 succeeded) 7 (holding ready_job) publishes
