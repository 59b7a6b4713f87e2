-- ===== src/Requests.antt =====
-- `RequestProcessor` of app/virtual_fitting/request_worker.py: one message of be-fitting-request is saved as a
-- job, checked and sent to Runware, and it is decided whether it may be deleted.
pub mod Ends
use Prim.Native.String.{◌++◌}
use ktb4_15th_ai.Prelude.{
  ℕ, String, Bool, true, false, not, ◌&&◌, ◌||◌, Option, none, some, is_some, str_eq, if◌then◌else◌,
}
use ktb4_15th_ai.Job.{
  NextAction, submit_pruna, postprocess, run_fallback, publish_result, Job, is_action,
}
use ktb4_15th_ai.JobState.Change.{StateChange}
use ktb4_15th_ai.JobState.Lease.{LeaseGrant, acquire_lease, release_lease}
use ktb4_15th_ai.JobState.Publication.{save_final_result}
use ktb4_15th_ai.JobTable.{NewJob, CreateResult, create, find_by_fitting_job_id}
use ktb4_15th_ai.NextStep.{deletion_allowed}
use ktb4_15th_ai.Process
use ktb4_15th_ai.Process.{other_error, pure, throw, ◌>>=◌, ◌>>◌, catch, emit, ask, call}
use ktb4_15th_ai.Handlers.{
  queued, delivered, Run, Check, fine, fails_with, postponed, broken, reason_value,
}
use ktb4_15th_ai.Sending.{Meeting, failure_payload, waiting_for_fallback, ignore, is_sent}
use ktb4_15th_ai.Submitter.{submit}
use ktb4_15th_ai.Precheck.{Checks, run_precheck}
use ktb4_15th_ai.Resubmitter.{is_saved}
use ktb4_15th_ai.FollowUp.{RequestOutcome, row_published}

-- `ValidRequestMessage`, with the job that it asks for and the fingerprint of its inputs, and
-- `InvalidRequestMessage`; each with the id of its message.
pub data RequestMessage : Type 0 where
  valid : String → NewJob → RequestMessage
  invalid : String → Option ℕ → RequestMessage

-- The settings of the Worker, and what it meets. `m.beat` extends the lease and the visibility; `connected`
-- says whether there is a submitter.
pub record Requests : Type 0 where
  pub meeting : Meeting
  pub checks : Checks
  pub lease : ℕ
  pub stopping : ℕ → Bool
  pub connected : Bool

-- `next_action.value.lower()`.
abbrev pub action_text : Option NextAction → String
action_text none = "none"
action_text (some submit_pruna) = "submit_pruna"
action_text (some postprocess) = "postprocess"
action_text (some run_fallback) = "run_fallback"
action_text (some publish_result) = "publish_result"

abbrev pub may_be_sent : Option Job → Bool
may_be_sent none = false
may_be_sent (some job) = is_some job.pruna_submit_started_at

module _ (s : Requests) (message_id : String) (n : NewJob) (token : String) where
  abbrev pub outcome : String → Bool → Run RequestOutcome
  outcome name delete = pure (record {
    message_id = message_id;
    fitting_job_id = some n.fitting_job_id;
    action = name;
    delete = delete;
  })

  -- The message may go if the newest row has a path on.
  abbrev pub judge_row : String → Option Job → Run RequestOutcome
  judge_row name row =
      ask s.meeting.env s.meeting.ready_for >>= λ ready. outcome name (deletion_allowed row ready)

  abbrev pub judge : String → Run RequestOutcome
  judge name = call s.meeting.env (find_by_fitting_job_id n.fitting_job_id) >>= judge_row name

  abbrev pub when_sent : Bool → Run RequestOutcome
  when_sent sent =
      if sent
      then emit (delivered n.fitting_job_id run_fallback) >> outcome "run_fallback_published" true
      else outcome "run_fallback_publish_failed_kept" false

  abbrev pub publish_again : Job → Option Job → Run RequestOutcome
  publish_again job latest =
      if waiting_for_fallback latest && s.meeting.queue_set
      then emit (queued n.fitting_job_id run_fallback)
        >> (ask s.meeting.env s.meeting.send_json >>= λ answer. when_sent (is_sent answer))
      else judge ("waiting_" ++ action_text job.next_action)

  -- The job is past its submission.
  abbrev pub passed_on : Job → Run RequestOutcome
  passed_on job = call s.meeting.env (find_by_fitting_job_id n.fitting_job_id) >>= publish_again job

  abbrev pub failure_saved : String → StateChange → Run RequestOutcome
  failure_saved code saved =
      if is_saved saved.reason
      then judge ("failure_saved_" ++ code)
      else outcome ("failure_not_saved_" ++ reason_value saved.reason) false

  abbrev pub when_alive : Job → Bool → Run RequestOutcome
  when_alive job alive =
      if alive
      then submit s.meeting n.fitting_job_id token job >>= outcome "submitted"
      else outcome "heartbeat_failed_before_submit" false

  abbrev pub prechecked : Job → Check → Run RequestOutcome
  prechecked job (postponed reason) = outcome ("retry_" ++ reason) false
  prechecked job (fails_with code message) =
      call s.meeting.env (
        save_final_result n.fitting_job_id token (failure_payload n.fitting_job_id code message)
          none)
      >>= failure_saved code
  prechecked job fine =
      if s.connected
      then ask s.meeting.env s.meeting.beat >>= when_alive job
      else outcome "prechecked_awaiting_submit" false
  prechecked job broken = throw other_error

  -- What is done with the lease; `job` is the row that `create` gave.
  unfoldable pub with_lease : Job → Option Job → Run RequestOutcome
  unfolding ask call find_by_fitting_job_id save_final_result deletion_allowed submit reason_value
      run_precheck
  with_lease job held =
      if may_be_sent held
      then judge "submit_already_started"
      else run_precheck s.meeting.env s.checks >>= prechecked job

  abbrev pub leased : Job → LeaseGrant → Run RequestOutcome
  leased job grant =
      if grant.acquired
      then Process.finally (with_lease job grant.job)
          (ignore (call s.meeting.env (release_lease n.fitting_job_id token)))
      else outcome ("lease_" ++ reason_value grant.reason) false

  abbrev pub unless_stopping : Job → Bool → Run RequestOutcome
  unless_stopping job stop =
      if stop
      then outcome "stopping_kept" false
      else call s.meeting.env (acquire_lease token n.fitting_job_id submit_pruna s.lease)
        >>= leased job

  abbrev pub with_job : CreateResult → Run RequestOutcome
  with_job r =
      if not r.created && not (str_eq r.job.request_fingerprint n.request_fingerprint)
      then outcome "input_conflict_kept" false
      else if row_published (some r.job)
      then outcome "already_published_deleted" true
      else if not (is_action r.job.next_action submit_pruna)
      then passed_on r.job
      else ask s.meeting.env s.stopping >>= unless_stopping r.job

  -- `_valid`.
  unfoldable pub process_valid : Run RequestOutcome
  unfolding call ask create find_by_fitting_job_id deletion_allowed with_lease acquire_lease
      release_lease reason_value
  process_valid = call s.meeting.env (create n) >>= with_job

-- `process`; `token` is the one that `acquire_lease` makes.
unfoldable pub process : Requests → String → RequestMessage → Run RequestOutcome
unfolding process_valid
process s token (invalid message_id id) = pure (record {
  message_id = message_id;
  fitting_job_id = id;
  action = "invalid_kept";
  delete = false;
})
process s token (valid message_id n) =
    catch (process_valid s message_id n token) λ _. outcome s message_id n token "error" false
