-- ===== src/Submitter/Ends.antt =====
-- `PrunaSubmitter.__call__` as a whole: it ends, and calls Runware at most once.
use ktb4_15th_ai.Prelude.{
  ℕ, suc, ◌≤◌, ◌≡◌, refl, String, Bool, false, Option, none, some, [], arith, All, count, subst,
  sym, is_some, is_none, ◌||◌,
}
use ktb4_15th_ai.Job.{Uuid, Job}
use ktb4_15th_ai.NextStep.{not_accepted_pending}
use ktb4_15th_ai.JobState.Change.{StateChange}
use ktb4_15th_ai.Process.{World, pure, need, read_clock}
use ktb4_15th_ai.Process.Total.{Total, Ends, Finished, total_rules}
use ktb4_15th_ai.Process.Triples.{
  Triple, Triple-after, Triple-bind, Triple-if, Triple-return, Triple-strengthen, Triple-weaken,
  Triple-need, Total-Triple, Triple-read_clock, met-Ends,
}
use ktb4_15th_ai.Handlers.{Event, Run}
use ktb4_15th_ai.Handlers.Texts.{recorded_before}
use ktb4_15th_ai.Sending.{Meeting, settle, send_once, send}
use ktb4_15th_ai.Submitter.{
  wait_for_slot, if_granted, wait_and_send, resubmit, submit_job, prepared, prepare_with, with_task,
  submit,
}
use ktb4_15th_ai.Submitter.Grants.{RecordedFor}
use ktb4_15th_ai.Submitter.Sends.{
  Calls, One, None, One-None, Sending, Sound, is_submission, send_once-Triple, settle-Total,
  decide-Total,
}
use ktb4_15th_ai.Submitter.Waits.{task_of, Taken, wait_for_slot-Waits}

pub fresh-One : (w : World Event) → w.trace ≡ [] → One w
fresh-One w h = subst (Calls 1 w.now) (sym h) (tt, omega arith)

-- Code that ends, and makes the one call that is left at most.
abbrev pub Once : {A : Type 0} → Run A → Type 0
Once code = Triple One code (λ _. None) None

pub quiet-Once : {A : Type 0} (code : Run A) → Total (Calls 1) code → Once code
quiet-Once code t =
    Triple-weaken One code _ _ _ _ (λ _. One-None) One-None (Total-Triple (Calls 1) code t)

pure-Once : (b : Bool) → Once (pure b)
pure-Once b = quiet-Once (pure b) (search total_rules)

module _ (m : Meeting) (id : ℕ) (token : String) (poll : 1 ≤ m.poll) where
  if_granted-Once :
      (task : Option Uuid) (granted : Bool)
      → Triple (Taken id task granted) (if_granted m id token task granted) (λ _. None) None
  unfolding send
  if_granted-Once task granted =
      Triple-if _ granted _ _
        (λ yes.
          Triple-bind (need task) _
            (Triple-need {Q = Sending id} _ task (λ w h. One-None w h.0)
              λ a e w h. (h.0, subst (λ t. RecordedFor id t w.db) e (h.1 yes)))
            λ task.
              Triple-bind (send_once m id token task) (settle m id token task)
                (send_once-Triple m id token task)
                λ r. Total-Triple (Calls 0) _ (settle-Total m id token 0 task r))
        λ _. Triple-return _ false λ w h. One-None w h.0

  wait_and_send-Once :
      (task retry_task : Option Uuid)
      → Once (wait_and_send m id token task retry_task (task_of task retry_task))
  unfolding wait_and_send
  wait_and_send-Once task retry_task =
      Triple-bind read_clock _
        (Triple-read_clock {Q = λ now w. One w × (now ≡ w.now)} _ λ w h. (h, refl))
        λ started.
          Triple-bind (wait_for_slot m id token task retry_task started (suc m.max_wait) started) _
            (Triple-weaken _ _ _ (Taken id (task_of task retry_task)) One None (λ _ _ h. h) One-None
              (Triple-strengthen _ _ _ (λ w h. (omega arith, (omega (arith, h.1), h.0)))
                (wait_for_slot-Waits m id token task retry_task started poll (suc m.max_wait)
                  started)))
            (if_granted-Once (task_of task retry_task))

  resubmit-Once : (job : Job) → Once (resubmit m id token job)
  unfolding resubmit
  resubmit-Once job =
      Triple-after _ _ (search total_rules) One-None
        λ retry. wait_and_send-Once job.task_uuid (some retry)

  submit_job-Once : (job : Job) → Once (submit_job m id token job)
  submit_job-Once job =
      Triple-if _ (not_accepted_pending job) _ _
        (λ _.
          Triple-if _ (is_none job.pruna_retry_at) _ _ (λ _. pure-Once false)
            λ _. resubmit-Once job)
        λ _.
          Triple-if _ (is_some job.pruna_submit_started_at) _ _
            (λ _. quiet-Once _ (decide-Total m id token 1))
            λ _. wait_and_send-Once job.task_uuid none

  prepared-Once : (change : StateChange) → Once (prepared m id token change)
  prepared-Once change =
      Triple-if _ (change.applied || recorded_before change.reason) _ _
        (λ _. Triple-after _ _ (search total_rules) One-None submit_job-Once) λ _. pure-Once false

  prepare_with-Once : (key : Option String) (task : Uuid) → Once (prepare_with m id token key task)
  prepare_with-Once key task = Triple-after _ _ (search total_rules) One-None prepared-Once

  with_task-Once :
      (task : Option Uuid) (f : Uuid → Run Bool)
      → ((task : Uuid) → Once (f task))
      → Once (with_task m id token task f)
  with_task-Once none f h = Triple-after _ _ (search total_rules) One-None h
  with_task-Once (some task) f h = h task

  pub submit-Once : (job : Job) → Once (submit m id token job)
  unfolding submit
  submit-Once job =
      Triple-if _ m.webhook_ready _ _
        (λ _. with_task-Once job.task_uuid _ (prepare_with-Once job.async_image_key))
        λ _. pure-Once false

  pub submit_lem : (job : Job) (w : World Event) → One w → Ends (Calls 0) (submit m id token job w)
  submit_lem job w h = met-Ends (Calls 0) (submit m id token job w) ((submit-Once job).at w h)

-- If the time between two polls is not zero, `__call__` ends: it returns or raises, and no
-- wait for a place goes on for ever.
pub submit-Finished :
    (m : Meeting) (id : ℕ) (token : String) (job : Job) (w : World Event)
    → 1 ≤ m.poll
    → w.trace ≡ []
    → Finished (submit m id token job w).0
submit-Finished m id token job w poll fresh =
    (submit_lem m id token poll job w (fresh-One w fresh)).1

-- If the time between two polls is not zero, `__call__` calls Runware at most once; when it
-- does, the tables that the transaction of its grant has left name the task of the call, in the
-- row of the job with the time of the call and as an attempt.
pub submit-Calls :
    (m : Meeting) (id : ℕ) (token : String) (job : Job) (w : World Event)
    → 1 ≤ m.poll
    → w.trace ≡ []
    → (count is_submission (submit m id token job w).1.trace ≤ 1)
      × All Sound (submit m id token job w).1.trace
submit-Calls m id token job w poll fresh =
    let calls : Calls 0 (submit m id token job w).1.now (submit m id token job w).1.trace =
      (submit_lem m id token poll job w (fresh-One w fresh)).0 in
    (omega (arith, calls.1), calls.0)
