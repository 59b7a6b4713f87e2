-- ===== src/Examples/Records.antt =====
-- The theorems on the records of calls, on requests and on results, at concrete values.
use ktb4_15th_ai.Prelude.{
  ℕ, ◌≤◌, ◌≡◌, refl, arith, true, false, none, some, List, [], ◌∷◌, All, count, any, ==_refl,
}
use ktb4_15th_ai.Texts.{is_code, is_safe_code}
use ktb4_15th_ai.Payload.{
  pos, Fields, Payload, failed, integer, text, ok, check_result_payload, check_by_status,
  check_failure, text_of, lookup, to_fields,
}
use ktb4_15th_ai.Payload.RoundTrip.{check-to_fields, well_formed}
use ktb4_15th_ai.Payload.Exact.{SameFields, check_result_payload-SameFields}
use ktb4_15th_ai.Job.{Job, Attempt, publish_result, webhook, submit_response}
use ktb4_15th_ai.Store.{Db, find_job, allowed, write}
use ktb4_15th_ai.JobTable.{NewJob, create, check_new_job}
use ktb4_15th_ai.JobTable.Creation.{create-once}
use ktb4_15th_ai.Rules.{IsValid}
use ktb4_15th_ai.JobTable.Due.{is_due, insert, sort, due_rows, find_result_publish_due}
use ktb4_15th_ai.JobTable.Due.Oldest.{Answers, find_result_publish_due-Answers}
use ktb4_15th_ai.JobState.NotAccepted.{
  of_job, record_not_accepted, already_recorded, scheduled, check_report, judge_row, judge_started,
  judge_attempt, judge, act_on, record_fresh, new_attempt, holds_slot,
}
use ktb4_15th_ai.JobState.Repeats.{Recorded, record_not_accepted-Effects}
use ktb4_15th_ai.JobState.Twice.{record_not_accepted-twice}
use ktb4_15th_ai.History.{run}
use ktb4_15th_ai.History.Attempts.{Numbered}
use ktb4_15th_ai.History.Numbers.{attempts-le}
use ktb4_15th_ai.Examples.{limits, printable, at, request, empty_db, history, new_job, holding}

no_attempts-Numbered : Numbered []
no_attempts-Numbered = record { range = tt; unique = λ id n. omega arith }

attempts-le_example : count (of_job 7) (run limits printable history empty_db).attempts ≤ 4
attempts-le_example = attempts-le limits printable 7 history empty_db no_attempts-Numbered

-- A second delivery, which asks for something else.
abbrev other_request : NewJob
other_request = record request { request_fingerprint = "g"; user_image_key = "users/8.png" }

request-fits : check_new_job request ≡ ok request
unfolding check_new_job
request-fits = refl

other_request-fits : check_new_job other_request ≡ ok other_request
unfolding check_new_job
other_request-fits = refl

create-once_example :
    (find_job 7 (create request (at 10) empty_db).1.jobs ≡ some new_job)
    × (create other_request (at 20) (create request (at 10) empty_db).1
        ≡ (ok (record { job = new_job; created = false }), (create request (at 10) empty_db).1))
create-once_example =
    create-once request other_request (at 10) (at 20) empty_db request-fits other_request-fits refl

-- Two jobs with a result that waits to be sent, and one without.
abbrev waiting : ℕ → ℕ → Job
waiting id t = record new_job {
  fitting_job_id = id;
  updated_at = t;
  next_action = some publish_result;
  result_payload = some (failed (pos id) "CODE" "message");
}

abbrev jobs : List Job
jobs = waiting 1 30 ∷ new_job ∷ waiting 2 20 ∷ []

abbrev waiting_db : Db
waiting_db = record empty_db { jobs = jobs }

waiting-IsValid : (id t : ℕ) → IsValid (waiting id t)
waiting-IsValid id t = ground (arith, ==_refl id)

new_job-IsValid : IsValid new_job
new_job-IsValid = ground arith

jobs-IsValid : All IsValid jobs
jobs-IsValid = (waiting-IsValid 1 30, (new_job-IsValid, (waiting-IsValid 2 20, tt)))

find_result_publish_due-Answers_example :
    Answers 10 40 waiting_db (find_result_publish_due 10 (at 40) waiting_db)
find_result_publish_due-Answers_example =
    find_result_publish_due-Answers 10 (at 40) waiting_db jobs-IsValid

older_first : find_result_publish_due 10 (at 40) waiting_db ≡ (ok (2 ∷ 1 ∷ []), waiting_db)
unfolding find_result_publish_due due_rows sort insert is_due
older_first = refl

abbrev failure : Payload
failure = failed (pos 7) "CODE" "message"

-- The same entries in another order.
abbrev given : Fields
given =
    ("status", text "FAILED")
    ∷ ("error_message", text "message")
    ∷ ("error_code", text "CODE")
    ∷ ("fitting_job_id", integer (pos 7))
    ∷ []

failure-well_formed : well_formed failure ≡ true
unfolding well_formed
failure-well_formed = refl

given-fits : check_result_payload given ≡ ok failure
unfolding check_result_payload check_by_status check_failure text_of lookup
given-fits = refl

check-to_fields_example : check_result_payload (to_fields failure) ≡ ok failure
check-to_fields_example = check-to_fields failure failure-well_formed

check_result_payload-SameFields_example : (well_formed failure ≡ true) × SameFields given failure
check_result_payload-SameFields_example = check_result_payload-SameFields given failure given-fits

-- A job whose call was started, before and after a report that it was not accepted.
abbrev sent_job : Job
sent_job = record new_job { task_uuid = some 99; pruna_submit_started_at = some 50 }

abbrev sent_db : Db
sent_db = record (holding sent_job) {
  attempts = new_attempt 7 1 99 50 ∷ [];
  in_flight = record { fitting_job_id = 7; task_uuid = 99; acquired_at = 50 } ∷ [];
}

abbrev recorded_attempt : Attempt
recorded_attempt = record (new_attempt 7 1 99 50) {
  not_accepted_code = some "code";
  not_accepted_source = some submit_response;
  not_accepted_at = some 60;
  next_attempt_at = some 10000060;
}

abbrev recorded_job : Job
recorded_job = record sent_job {
  pruna_not_accepted_at = some 60;
  pruna_retry_at = some 10000060;
  updated_at = 60;
}

abbrev recorded_db : Db
recorded_db = record (holding recorded_job) { attempts = recorded_attempt ∷ [] }

report-fits : check_report (some 99) "code" none ≡ ok (99, none)
unfolding is_safe_code
report-fits = refl

sent-reported : record_not_accepted (some 99) "code" submit_response none false (at 60) sent_db ≡ (
  ok (record { outcome = scheduled; job = some recorded_job; attempt_no = some 1 }),
  recorded_db,
)
unfolding record_not_accepted judge_row judge_started judge_attempt judge act_on record_fresh write
    allowed is_safe_code is_code
sent-reported = refl

record_not_accepted-Effects_example :
    (any (holds_slot 7 99) recorded_db.in_flight ≡ false) × Recorded 99 recorded_db.attempts
record_not_accepted-Effects_example =
    record_not_accepted-Effects 99 "code" submit_response none false (at 60) sent_db
      (record { outcome = scheduled; job = some recorded_job; attempt_no = some 1 }) recorded_db
      recorded_job sent-reported refl refl

record_not_accepted-twice_example :
    record_not_accepted (some 99) "code" webhook none false (at 70) recorded_db ≡ (
      ok (record { outcome = already_recorded; job = some recorded_job; attempt_no = some 1 }),
      recorded_db,
    )
record_not_accepted-twice_example =
    record_not_accepted-twice 99 sent_db recorded_db sent_job 50
      (record { outcome = scheduled; job = some recorded_job; attempt_no = some 1 }) "code" "code"
      submit_response webhook none none none false false (at 60) (at 70) refl refl refl
      sent-reported refl report-fits
