-- ===== src/Submitter/Sends.antt =====
-- `PrunaSubmitter` ends, and calls Runware at most once, for a call that is recorded.
use ktb4_15th_ai.Prelude.{
  ℕ, ◌+◌, ◌≤◌, String, Bool, true, false, Option, none, some, List, arith, All, count,
}
use ktb4_15th_ai.Payload.{ℤ}
use ktb4_15th_ai.Job.{Uuid, Job, run_fallback}
use ktb4_15th_ai.Process.{
  Failure, value_error, fitting_error, other_error, World, pure, ◌>>=◌, ◌>>◌, catch, emit, tables,
  ask, call,
}
use ktb4_15th_ai.Process.Total.{Total, total_rules, Total-emit}
use ktb4_15th_ai.Process.Triples.{
  Triple, Triple-pure, Triple-bind, Triple-ask, Triple-tables, Triple-emit, Triple-finally,
  Triple-strengthen, Total-Triple,
}
use ktb4_15th_ai.Handlers.{Event, submitted, queued, Check, fine, fails_with, postponed, broken}
use ktb4_15th_ai.Limiter.Release.{finish_send}
use ktb4_15th_ai.Handlers.Fallback.{unless_fitting}
use ktb4_15th_ai.Sending.{
  Meeting, AsyncSubmission, SubmissionOutcome, accepted, rejected, unknown, SubmitAnswer, replied,
  input_rejected, crashed, not_begun, decide_on, decide, hold_for, refused_by, refuse, defer,
  keep_wait, record_outcome, if_recorded, settle, take_back, after_submit, send_once,
}
use ktb4_15th_ai.Submitter.{money_rechecked}
use ktb4_15th_ai.Submitter.Grants.{Recorded}

abbrev pub is_submission : Event → Bool
is_submission (submitted id task db) = true
is_submission _ = false

-- A call of Runware is recorded in the tables that its grant has left.
abbrev pub Sound : Event → Type 0
Sound (submitted id task db) = Recorded id task db
Sound _ = Unit

-- The calls so far are recorded, and with `n` more there is at most one.
abbrev pub Calls : ℕ → ℕ → List Event → Type 0
Calls n now trace = All Sound trace × (count is_submission trace + n ≤ 1)

module _ (m : Meeting) (id : ℕ) (token : String) (n : ℕ) where
  queued-Total : Total (Calls n) (emit (queued id run_fallback))
  queued-Total =
      Total-emit (Calls n) (queued id run_fallback) λ w h. ((tt, h.0), omega (arith, h.1))

  decide_on-Total : (latest : Option Job) → Total (Calls n) (decide_on m id token latest)
  decide_on-Total latest = search (total_rules, queued-Total) depth 9

  pub decide-Total : Total (Calls n) (decide m id token)
  unfolding decide
  decide-Total = search (total_rules, decide_on-Total)

  hold_for-Total :
      (task : Uuid) (reason : Option String) (codes : List String)
      → Total (Calls n) (hold_for m id token task reason codes)
  hold_for-Total task none codes = search total_rules
  hold_for-Total task (some reason) codes = search total_rules

  refused_by-Total :
      (task : Uuid) (r : AsyncSubmission) → Total (Calls n) (refused_by m id token task r)
  refused_by-Total task r = search (total_rules, hold_for-Total) depth 12

  refuse-Total : (task : Uuid) (r : AsyncSubmission) → Total (Calls n) (refuse m id token task r)
  unfolding refuse
  refuse-Total task r = search (total_rules, refused_by-Total) depth 9

  defer-Total : (d : Option ℤ) → Total (Calls n) (defer m id token d)
  defer-Total none = search total_rules
  defer-Total (some d) = search total_rules

  keep_wait-Total : (r : AsyncSubmission) → Total (Calls n) (keep_wait m id token r)
  unfolding keep_wait
  keep_wait-Total r = search (total_rules, defer-Total)

  record_outcome-Total :
      (task : Uuid) (r : AsyncSubmission) (o : SubmissionOutcome)
      → Total (Calls n) (record_outcome m id token task r o)
  unfolding record_outcome
  record_outcome-Total task r accepted = search total_rules
  record_outcome-Total task r rejected = search (total_rules, refuse-Total)
  record_outcome-Total task r unknown = search total_rules

  if_recorded-Total : (recorded : Bool) → Total (Calls n) (if_recorded m id token recorded)
  if_recorded-Total recorded = search (total_rules, decide-Total) depth 9

  pub settle-Total :
      (task : Uuid) (r : Option AsyncSubmission) → Total (Calls n) (settle m id token task r)
  unfolding settle
  settle-Total task none = search total_rules
  settle-Total task (some r) =
      search (total_rules, keep_wait-Total, record_outcome-Total, if_recorded-Total)

  take_back-Total : (task : Uuid) → Total (Calls n) (take_back m id token task)
  take_back-Total task = search total_rules

  unless_fitting-Total : (f : Failure) → Total (Calls n) (unless_fitting f)
  unless_fitting-Total value_error = search total_rules
  unless_fitting-Total fitting_error = search total_rules
  unless_fitting-Total other_error = search total_rules

  money_rechecked-Total : (c : Check) → Total (Calls n) (money_rechecked m id token c)
  money_rechecked-Total fine = search total_rules
  money_rechecked-Total (fails_with code message) = search total_rules
  money_rechecked-Total (postponed code) = search total_rules
  money_rechecked-Total broken = search total_rules

-- One more call may be made, or none.
abbrev pub One : World Event → Type 0
One w = Calls 1 w.now w.trace

abbrev pub None : World Event → Type 0
None w = Calls 0 w.now w.trace

-- A call that the tables record may be made.
abbrev pub Sending : ℕ → Uuid → World Event → Type 0
Sending id task w = One w × Recorded id task w.db

pub One-None : (w : World Event) → One w → None w
One-None w h = (h.0, omega (arith, h.1))

module _ (m : Meeting) (id : ℕ) (token : String) (task : Uuid) where
  sent-Triple :
      {A : Type 0} (a : A)
      → Triple
          (Sending id task)
          (tables >>= λ db. emit (submitted id task db) >> pure a)
          (λ _. None)
          None
  sent-Triple a =
      Triple-bind tables (λ db. emit (submitted id task db) >> pure a)
        (Triple-tables {Q = λ db w. One w × Recorded id task db} (Sending id task) λ w h. h)
        λ db.
          Triple-bind (emit (submitted id task db)) (λ _. pure a)
            (Triple-emit {Q = λ _. None} (λ w. One w × Recorded id task db) (submitted id task db)
              λ w h. ((h.1, h.0.0), omega (arith, h.0.1)))
            λ _. Triple-pure a

  after_submit-Triple :
      (answer : SubmitAnswer)
      → Triple (Sending id task) (after_submit m id token task answer) (λ _. None) None
  after_submit-Triple (replied r) = sent-Triple (some r)
  after_submit-Triple crashed = sent-Triple none
  after_submit-Triple input_rejected =
      Triple-strengthen None (Sending id task) _ (λ w h. One-None w h.0)
        (Total-Triple (Calls 0) _ (search (total_rules, take_back-Total)))
  after_submit-Triple not_begun =
      Triple-strengthen None (Sending id task) _ (λ w h. One-None w h.0)
        (Total-Triple (Calls 0) _ (search (total_rules, take_back-Total)))

  pub send_once-Triple : Triple (Sending id task) (send_once m id token task) (λ _. None) None
  unfolding send_once
  send_once-Triple =
      let released : Total (Calls 0) (catch (call m.env (finish_send id)) unless_fitting) =
        search (total_rules, unless_fitting-Total) in
      Triple-finally (ask m.env m.submit >>= after_submit m id token task)
        (catch (call m.env (finish_send id)) unless_fitting)
        (Triple-bind (ask m.env m.submit) (after_submit m id token task)
          (Triple-ask m.env {Q = λ _. Sending id task} (Sending id task) m.submit λ w h. h)
          after_submit-Triple)
        (λ a. Total-Triple (Calls 0) _ released) (Total-Triple (Calls 0) _ released)
