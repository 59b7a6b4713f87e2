-- ===== src/Resubmitter/Ends.antt =====
-- `PrunaResubmitter.__call__` as a whole: it returns, and calls Runware at most once.
use ktb4_15th_ai.Prelude.{
  ℕ, ◌≤◌, ◌≡◌, String, Bool, not, ◌||◌, Option, none, some, [], arith, All, count, is_none,
}
use ktb4_15th_ai.Job.{Job}
use ktb4_15th_ai.NextStep.{not_accepted_pending}
use ktb4_15th_ai.JobState.Lease.{LeaseGrant, release_lease}
use ktb4_15th_ai.Process.{Ended, done, raised, unfinished, World, call}
use ktb4_15th_ai.Process.Total.{Total, total_rules}
use ktb4_15th_ai.Process.Triples.{
  Triple, Meets, Triple-after, Triple-bind, Triple-if, Triple-finally, Triple-catch, Triple-pure,
  Total-Triple,
}
use ktb4_15th_ai.Handlers.{Event, Check, fine, fails_with, postponed, broken}
use ktb4_15th_ai.Sending.{ignore}
use ktb4_15th_ai.Submitter.Sends.{Calls, One, None, One-None, Sound, is_submission}
use ktb4_15th_ai.Submitter.Ends.{Once, quiet-Once, submit-Once, fresh-One}
use ktb4_15th_ai.Precheck.Keeps.{run_precheck-Calls}
use ktb4_15th_ai.Resubmitter.{
  Resubmission, no_inputs, when_alive, prechecked, with_lease, leased, unless_stopping, run,
  resubmit_job,
}

-- It has returned.
abbrev pub Returned : {A : Type 0} → Ended A → Type 0
Returned (done _) = Unit
Returned (raised _) = ⊥
Returned unfinished = ⊥

pub met-Returned :
    {A : Type 0} (r : Ended A × World Event)
    → Meets (λ _. None) (λ _. ⊥) r
    → Returned r.0 × (Calls 0 r.1.now r.1.trace)
met-Returned (done a, w) h = (tt, h)
met-Returned (raised f, w) h = elim h [ ]
met-Returned (unfinished, w) h = elim h [ ]

module _ (s : Resubmission) (id : ℕ) (token : String) (poll : 1 ≤ s.meeting.poll) where
  when_alive-Once : (job : Job) (alive : Bool) → Once (when_alive s id token job alive)
  when_alive-Once job alive =
      Triple-if _ alive _ _
        (λ _.
          Triple-bind _ _ (submit-Once s.meeting id token poll job)
            λ _. Total-Triple (Calls 0) _ (search total_rules))
        λ _. quiet-Once _ (search total_rules)

  prechecked-Once : (job : Job) (check : Check) → Once (prechecked s id token job check)
  prechecked-Once job fine = Triple-after _ _ (search total_rules) One-None (when_alive-Once job)
  prechecked-Once job (postponed reason) = quiet-Once _ (search total_rules)
  prechecked-Once job (fails_with code message) = quiet-Once _ (search total_rules)
  prechecked-Once job broken = quiet-Once _ (search total_rules)

  with_lease-Once : (job : Option Job) → Once (with_lease s id token job)
  unfolding with_lease
  with_lease-Once none = quiet-Once _ (search total_rules)
  with_lease-Once (some job) =
      Triple-if _ (not (not_accepted_pending job) || is_none job.pruna_retry_at) _ _
        (λ _. quiet-Once _ (search total_rules))
        λ _.
          Triple-if _ (no_inputs job.user_image_key job.products) _ _
            (λ _. quiet-Once _ (search total_rules))
            λ _.
              Triple-after _ _ (run_precheck-Calls s.meeting.env s.checks) One-None
                (prechecked-Once job)

  leased-Once : (grant : LeaseGrant) → Once (leased s id token grant)
  leased-Once grant =
      let released : Total (Calls 0) (ignore (call s.meeting.env (release_lease id token))) =
        search total_rules in
      Triple-if _ grant.acquired _ _
        (λ _.
          Triple-finally (with_lease s id token grant.job) _ (with_lease-Once grant.job)
            (λ _. Total-Triple (Calls 0) _ released) (Total-Triple (Calls 0) _ released))
        λ _. quiet-Once _ (search total_rules)

  unless_stopping-Once : (stop : Bool) → Once (unless_stopping s id token stop)
  unless_stopping-Once stop =
      Triple-if _ stop _ _ (λ _. quiet-Once _ (search total_rules))
        λ _. Triple-after _ _ (search total_rules) One-None leased-Once

  run-Once : Once (run s id token)
  unfolding run
  run-Once = Triple-after _ _ (search total_rules) One-None unless_stopping-Once

  resubmit_job-Triple : Triple One (resubmit_job s id token) (λ _. None) (λ _. ⊥)
  unfolding resubmit_job
  resubmit_job-Triple = Triple-catch (run s id token) _ run-Once λ _. Triple-pure "error"

-- If the time between two polls of the submitter is not zero, `PrunaResubmitter.__call__` returns, whatever
-- is raised in it; and it has called Runware at most once, for a call that the
-- tables record as the transaction of its grant has left them.
pub resubmit_job-Calls :
    (s : Resubmission) (id : ℕ) (token : String) (w : World Event)
    → 1 ≤ s.meeting.poll
    → w.trace ≡ []
    → Returned (resubmit_job s id token w).0
      × (count is_submission (resubmit_job s id token w).1.trace ≤ 1)
      × All Sound (resubmit_job s id token w).1.trace
resubmit_job-Calls s id token w poll fresh =
    let h =
      met-Returned (resubmit_job s id token w)
        ((resubmit_job-Triple s id token poll).at w (fresh-One w fresh)) in
    (h.0, omega (arith, h.1.1), h.1.0)
