-- ===== src/Examples/Requesting.antt =====
-- The theorems on the Worker for be-fitting-request, for the message of a job that is new.
use ktb4_15th_ai.Prelude.{◌≡◌, ◌≤◌, refl, true, false, some, arith, count, All}
use ktb4_15th_ai.Process.{World, pure, ◌>>=◌, emit, finally, catch, tables, need, read_clock, done}
use ktb4_15th_ai.Process.Triples.{Meets}
use ktb4_15th_ai.Handlers.{Event}
use ktb4_15th_ai.Submitter.Sends.{is_submission, Sound}
use ktb4_15th_ai.Precheck.{run_precheck}
use ktb4_15th_ai.Precheck.Passes.{PassedFor, InOrder, run_precheck-InOrder}
use ktb4_15th_ai.Resubmitter.Ends.{Returned}
use ktb4_15th_ai.Requests.{RequestMessage, valid, Requests, process}
use ktb4_15th_ai.Requests.Ends.{process-Calls}
use ktb4_15th_ai.Examples.{request, empty_db}
use ktb4_15th_ai.Examples.Handling.{env}
use ktb4_15th_ai.Examples.Submitting.{meeting, checks, start}

abbrev requests : Requests
requests = record {
  meeting = meeting;
  checks = checks;
  lease = 100;
  stopping = λ _. false;
  connected = true;
}

abbrev item : RequestMessage
item = valid "m" request

abbrev empty_start : World Event
empty_start = record start { db = empty_db }

process-Calls_example :
    Returned (process requests "a" item empty_start).0
    × (count is_submission (process requests "a" item empty_start).1.trace ≤ 1)
    × All Sound (process requests "a" item empty_start).1.trace
process-Calls_example = process-Calls requests "a" item empty_start (omega arith) refl

run_precheck-InOrder_example :
    Meets
      (PassedFor (InOrder (env 100) checks 0))
      (λ _. ⊥)
      (run_precheck (env 100) checks empty_start)
run_precheck-InOrder_example = run_precheck-InOrder (env 100) checks empty_start

sent_once :
    (process requests "a" item empty_start).0
    ≡ done
        (record { message_id = "m"; fitting_job_id = some 7; action = "submitted"; delete = true })
unfolding process ◌>>=◌ pure emit finally catch tables need read_clock
sent_once = refl
