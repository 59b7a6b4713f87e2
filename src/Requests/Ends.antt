-- ===== src/Requests/Ends.antt =====
-- `RequestProcessor.process` as a whole: it returns, and calls Runware at most once.
use ktb4_15th_ai.Prelude.{
  ◌≤◌, ◌≡◌, String, Bool, not, ◌&&◌, Option, some, [], arith, All, count, str_eq,
}
use ktb4_15th_ai.Job.{Job, submit_pruna, run_fallback, is_action}
use ktb4_15th_ai.JobState.Change.{StateChange}
use ktb4_15th_ai.JobState.Lease.{LeaseGrant, release_lease}
use ktb4_15th_ai.JobTable.{NewJob, CreateResult}
use ktb4_15th_ai.Process.{World, emit, call}
use ktb4_15th_ai.Process.Total.{Total, total_rules, Total-emit}
use ktb4_15th_ai.Process.Triples.{
  Triple, Triple-after, Triple-bind, Triple-if, Triple-finally, Triple-catch, Triple-return,
  Total-Triple,
}
use ktb4_15th_ai.Handlers.{Event, queued, delivered, Check, fine, fails_with, postponed, broken}
use ktb4_15th_ai.Sending.{ignore}
use ktb4_15th_ai.Submitter.Sends.{Calls, One, None, One-None, Sound, is_submission}
use ktb4_15th_ai.Submitter.Ends.{Once, quiet-Once, submit-Once, fresh-One}
use ktb4_15th_ai.Precheck.Keeps.{run_precheck-Calls}
use ktb4_15th_ai.Resubmitter.Ends.{Returned, met-Returned}
use ktb4_15th_ai.FollowUp.{row_published}
use ktb4_15th_ai.Requests.{
  RequestMessage, valid, invalid, Requests, may_be_sent, judge, when_sent, publish_again, passed_on,
  failure_saved, when_alive, prechecked, with_lease, leased, unless_stopping, with_job,
  process_valid, process,
}

module _ (s : Requests) (message_id : String) (n : NewJob) (token : String) where
  judge-Total : (name : String) → Total (Calls 1) (judge s message_id n token name)
  judge-Total name = search total_rules

  delivered-Total : Total (Calls 1) (emit (delivered n.fitting_job_id run_fallback))
  delivered-Total = Total-emit (Calls 1) _ λ w h. ((tt, h.0), omega (arith, h.1))

  queued-Total : Total (Calls 1) (emit (queued n.fitting_job_id run_fallback))
  queued-Total = Total-emit (Calls 1) _ λ w h. ((tt, h.0), omega (arith, h.1))

  when_sent-Total : (sent : Bool) → Total (Calls 1) (when_sent s message_id n token sent)
  when_sent-Total sent = search (total_rules, delivered-Total)

  publish_again-Total :
      (job : Job) (latest : Option Job)
      → Total (Calls 1) (publish_again s message_id n token job latest)
  publish_again-Total job latest =
      search (total_rules, queued-Total, when_sent-Total, judge-Total) depth 12

  passed_on-Total : (job : Job) → Total (Calls 1) (passed_on s message_id n token job)
  passed_on-Total job = search (total_rules, publish_again-Total)

  failure_saved-Total :
      (code : String) (saved : StateChange)
      → Total (Calls 1) (failure_saved s message_id n token code saved)
  failure_saved-Total code saved = search (total_rules, judge-Total)

  module _ (poll : 1 ≤ s.meeting.poll) where
    when_alive-Once : (job : Job) (alive : Bool) → Once (when_alive s message_id n token job alive)
    when_alive-Once job alive =
        Triple-if _ alive _ _
          (λ _.
            Triple-bind _ _ (submit-Once s.meeting n.fitting_job_id token poll job)
              λ _. Total-Triple (Calls 0) _ (search total_rules))
          λ _. quiet-Once _ (search total_rules)

    prechecked-Once : (job : Job) (check : Check) → Once (prechecked s message_id n token job check)
    prechecked-Once job (postponed reason) = quiet-Once _ (search total_rules)
    prechecked-Once job (fails_with code message) =
        quiet-Once _ (search (total_rules, failure_saved-Total))
    prechecked-Once job fine =
        Triple-if _ s.connected _ _
          (λ _. Triple-after _ _ (search total_rules) One-None (when_alive-Once job))
          λ _. quiet-Once _ (search total_rules)
    prechecked-Once job broken = quiet-Once _ (search total_rules)

    with_lease-Once :
        (job : Job) (held : Option Job) → Once (with_lease s message_id n token job held)
    unfolding with_lease
    with_lease-Once job held =
        Triple-if _ (may_be_sent held) _ _
          (λ _. quiet-Once _ (judge-Total "submit_already_started"))
          λ _.
            Triple-after _ _ (run_precheck-Calls s.meeting.env s.checks) One-None
              (prechecked-Once job)

    leased-Once : (job : Job) (grant : LeaseGrant) → Once (leased s message_id n token job grant)
    leased-Once job grant =
        let released : Total (Calls 0)
            (ignore (call s.meeting.env (release_lease n.fitting_job_id token))) =
          search total_rules in
        Triple-if _ grant.acquired _ _
          (λ _.
            Triple-finally (with_lease s message_id n token job grant.job) _
              (with_lease-Once job grant.job) (λ _. Total-Triple (Calls 0) _ released)
              (Total-Triple (Calls 0) _ released))
          λ _. quiet-Once _ (search total_rules)

    unless_stopping-Once :
        (job : Job) (stop : Bool) → Once (unless_stopping s message_id n token job stop)
    unless_stopping-Once job stop =
        Triple-if _ stop _ _ (λ _. quiet-Once _ (search total_rules))
          λ _. Triple-after _ _ (search total_rules) One-None (leased-Once job)

    with_job-Once : (r : CreateResult) → Once (with_job s message_id n token r)
    with_job-Once r =
        Triple-if _ (not r.created && not (str_eq r.job.request_fingerprint n.request_fingerprint))
          _ _ (λ _. quiet-Once _ (search total_rules))
          λ _.
            Triple-if _ (row_published (some r.job)) _ _ (λ _. quiet-Once _ (search total_rules))
              λ _.
                Triple-if _ (not (is_action r.job.next_action submit_pruna)) _ _
                  (λ _. quiet-Once _ (passed_on-Total r.job))
                  λ _. Triple-after _ _ (search total_rules) One-None (unless_stopping-Once r.job)

    process_valid-Once : Once (process_valid s message_id n token)
    unfolding process_valid
    process_valid-Once = Triple-after _ _ (search total_rules) One-None with_job-Once

process-Triple :
    (s : Requests) (token : String) (item : RequestMessage)
    → 1 ≤ s.meeting.poll
    → Triple One (process s token item) (λ _. None) (λ _. ⊥)
unfolding process
process-Triple s token (invalid message_id id) poll = Triple-return _ _ λ w h. One-None w h
process-Triple s token (valid message_id n) poll =
    Triple-catch (process_valid s message_id n token) _
      (process_valid-Once s message_id n token poll) λ _. Triple-return _ _ λ w h. h

-- If the time between two polls of the submitter is not zero, `RequestProcessor.process` returns, whatever is
-- raised in it; and it has called Runware at most once, for a call that the
-- tables record as the transaction of its grant has left them.
pub process-Calls :
    (s : Requests) (token : String) (item : RequestMessage) (w : World Event)
    → 1 ≤ s.meeting.poll
    → w.trace ≡ []
    → Returned (process s token item w).0
      × (count is_submission (process s token item w).1.trace ≤ 1)
      × All Sound (process s token item w).1.trace
process-Calls s token item w poll fresh =
    let h =
      met-Returned (process s token item w)
        ((process-Triple s token item poll).at w (fresh-One w fresh)) in
    (h.0, omega (arith, h.1.1), h.1.0)
