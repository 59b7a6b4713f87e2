-- ===== src/Submitter/Waits.antt =====
-- The wait for a place ends, and a place that is taken records the call it is for.
use ktb4_15th_ai.Prelude.{
  ℕ, zero, suc, ◌+◌, ◌-◌, ◌≤◌, ◌<◌, ◌≡◌, refl, String, Bool, true, false, not, Option, none, some,
  List, arith, leb, min,
}
use ktb4_15th_ai.Job.{Uuid}
use ktb4_15th_ai.Payload.{Result, ok, err}
use ktb4_15th_ai.Store.{Db, Clock}
use ktb4_15th_ai.Process.{World, pure, read_clock}
use ktb4_15th_ai.Process.Total.{Total, total_rules}
use ktb4_15th_ai.Process.Triples.{
  Triple, Triple-after, Triple-bind, Triple-if, Triple-call, Triple-sleep, Triple-read_clock,
  Triple-return, Triple-raise, Triple-strengthen,
}
use ktb4_15th_ai.Handlers.{Event, Run, Check, fine, fails_with, postponed, broken}
use ktb4_15th_ai.Handlers.Fallback.{wait_or, waits_for_slot}
use ktb4_15th_ai.Limiter.Slot.{SubmissionGrant}
use ktb4_15th_ai.Sending.{Meeting}
use ktb4_15th_ai.Submitter.{
  recheck, money_rechecked, begin, refused_slot, slot_answer, signed_slot, try_slot, rechecked,
  recheck_due, beaten, if_running, wait_for_slot,
}
use ktb4_15th_ai.Submitter.Grants.{
  RecordedFor, RecordsFor, begin_submission-Records, begin_retry_submission-Records,
}
use ktb4_15th_ai.Submitter.Sends.{Calls, One}

-- The task of the call: the new one, where there is one.
abbrev pub task_of : Option Uuid → Option Uuid → Option Uuid
task_of task none = task
task_of task (some retry) = some retry

-- There is fuel for the seconds that are left.
abbrev pub Slots : Meeting → ℕ → ℕ → ℕ → List Event → Type 0
Slots m started fuel now trace = (m.max_wait + started < now + fuel) × Calls 1 now trace

-- A place that was taken is for a call that is recorded.
abbrev pub Taken : ℕ → Option Uuid → Bool → World Event → Type 0
Taken id task granted w = One w × (granted ≡ true → RecordedFor id task w.db)

begin-Records :
    (m : Meeting) (id : ℕ) (token : String) (task retry_task : Option Uuid) (started : ℕ)
    (c : Clock) (db : Db)
    → RecordsFor id
        (task_of task retry_task)
        (begin m id token task retry_task started retry_task c db)
unfolding begin
begin-Records m id token task none started c db =
    begin_submission-Records m.env.limits id token c db task
begin-Records m id token task (some retry) started c db =
    begin_retry_submission-Records m.env.limits id token c db task retry

wait_or-positive : (wait : Option ℕ) (poll : ℕ) → 1 ≤ poll → 1 ≤ wait_or wait poll
wait_or-positive none poll h = h
wait_or-positive (some w) poll h = ground arith

nap-positive : (poll wait left : ℕ) → 1 ≤ poll → 1 ≤ wait → 1 ≤ left → 1 ≤ min (min poll wait) left
nap-positive poll wait left h k l = ground arith

nap-enough :
    (wait started now lapse nap fuel : ℕ)
    → wait + started < now + suc fuel
    → 1 ≤ nap
    → wait + started < now + lapse + nap + fuel
nap-enough wait started now lapse nap fuel h k = omega (arith, h, k)

fuel-left :
    (wait started now now' fuel : ℕ)
    → leb wait (now - started) ≡ false
    → wait + started < now' + suc fuel
    → now ≡ now'
    → 1 ≤ fuel
fuel-left wait started now now' fuel left h e = grind arith

left-positive : (wait spent : ℕ) → leb wait spent ≡ false → 1 ≤ wait - spent
left-positive wait spent h = ground (arith, h)

-- What the transaction leaves, as `RecordsFor` says it, is what is known of a grant.
granted-Recorded :
    (id : ℕ) (task : Option Uuid) (x : Result SubmissionGrant × Db) (g : SubmissionGrant)
    → RecordsFor id task x
    → x.0 ≡ ok g
    → g.granted ≡ true
    → RecordedFor id task x.1
granted-Recorded id task (ok g', db) g h e = λ y. h (cc)
granted-Recorded id task (err f, db) g h e = λ y. ground (arith, e)

module _ (m : Meeting) (id : ℕ) (token : String) (started fuel : ℕ) where
  later-Slots :
      (now d : ℕ) (trace : List Event)
      → Slots m started fuel now trace
      → Slots m started fuel (now + d) trace
  later-Slots now d trace h = (omega (arith, h.0), h.1)

  money_rechecked-Slots : (c : Check) → Total (Slots m started fuel) (money_rechecked m id token c)
  money_rechecked-Slots fine = search total_rules
  money_rechecked-Slots (fails_with code message) = search (total_rules, later-Slots)
  money_rechecked-Slots (postponed code) = search total_rules
  money_rechecked-Slots broken = search total_rules

  recheck-Slots : Total (Slots m started fuel) (recheck m id token)
  unfolding recheck
  recheck-Slots = search (total_rules, later-Slots, money_rechecked-Slots)

module _ (m : Meeting) (id : ℕ) (token : String) (task retry_task : Option Uuid) (started fuel : ℕ)
    (poll : 1 ≤ m.poll) where
  -- What is known before a pass of the loop, and the promise of the passes that follow it.
  abbrev Waiting : ℕ → World Event → Type 0
  Waiting n w = Slots m started n w.now w.trace

  abbrev Ready : ℕ → World Event → Type 0
  Ready n w = (1 ≤ n) × Waiting n w

  abbrev Waits : ℕ → Run Bool → Type 0
  Waits n code = Triple (Waiting n) code (Taken id (task_of task retry_task)) One

  no_place :
      (P : World Event → Type 0)
      → ((w : World Event) → P w → One w)
      → Triple P (pure false) (Taken id (task_of task retry_task)) One
  no_place P h = Triple-return P false λ w p. (h w p, λ e. ground (arith, e))

  module _ (again : ℕ → Run Bool)
      (goes : (last : ℕ)
        → Triple (Ready fuel) (again last) (Taken id (task_of task retry_task)) One) where
    refused_slot-Waits :
        (last : ℕ) (g : SubmissionGrant)
        → Waits (suc fuel) (refused_slot m id token task retry_task started again last g)
    refused_slot-Waits last g =
        Triple-if _ (not (waits_for_slot g.reason)) _ _ (λ _. no_place _ λ w h. h.1)
          λ _.
            Triple-bind read_clock _
              (Triple-read_clock {Q = λ now w. Waiting (suc fuel) w × (now ≡ w.now)} _
                λ w h. (h, refl))
              λ now.
                Triple-if _ (leb m.max_wait (now - started)) _ _ (λ _. no_place _ λ w h. h.0.1)
                  λ left.
                    Triple-bind _ (λ _. again last)
                      (Triple-sleep m.env {Q = λ _. Ready fuel} _ _ λ w h. (
                        fuel-left m.max_wait started now w.now fuel left h.0.0 h.1,
                        (
                          nap-enough m.max_wait started w.now (m.env.lapse w.moment) _ fuel h.0.0 (
                              nap-positive m.poll (wait_or g.wait m.poll)
                                (m.max_wait - (now - started)) poll
                                (wait_or-positive g.wait m.poll poll)
                                (left-positive m.max_wait (now - started) left)),
                          h.0.1,
                        ),
                      ))
                      λ _. goes last

    slot_answer-Waits :
        (last : ℕ) (g : SubmissionGrant)
        → Triple
            (λ w.
              Waiting (suc fuel) w
              × (g.granted ≡ true → RecordedFor id (task_of task retry_task) w.db))
            (slot_answer m id token task retry_task started again last g)
            (Taken id (task_of task retry_task))
            One
    slot_answer-Waits last g =
        Triple-if _ g.granted _ _ (λ yes. Triple-return _ true λ w h. (h.0.1, λ _. h.1 yes))
          λ _. Triple-strengthen _ _ _ (λ w h. h.0) (refused_slot-Waits last g)

    signed_slot-Waits :
        (last : ℕ) (signed : Bool)
        → Waits (suc fuel) (signed_slot m id token task retry_task started again last signed)
    signed_slot-Waits last signed =
        Triple-if _ signed _ _
          (λ _.
            Triple-bind _ _
              (Triple-call m.env
                {Q = λ g w.
                  Waiting (suc fuel) w
                  × (g.granted ≡ true → RecordedFor id (task_of task retry_task) w.db)}
                _ _
                λ w h. (
                  λ g e. (
                    (later-Slots m id token started (suc fuel) w.now _ w.trace h),
                    granted-Recorded id (task_of task retry_task) _ g
                        (begin-Records m id token task retry_task started _ _) e,
                  ),
                  h.1,
                ))
              (slot_answer-Waits last))
          λ _. Triple-raise _ _ λ w h. h.1

    try_slot-Waits :
        (last : ℕ) → Waits (suc fuel) (try_slot m id token task retry_task started again last)
    try_slot-Waits last =
        Triple-after _ _ (search (total_rules, later-Slots)) (λ w h. h.1) (signed_slot-Waits last)

    rechecked-Waits :
        (still : Bool) → Waits (suc fuel) (rechecked m id token task retry_task started again still)
    rechecked-Waits still =
        Triple-if _ still _ _
          (λ _. Triple-after _ _ (search total_rules) (λ w h. h.1) try_slot-Waits)
          λ _. no_place _ λ w h. h.1

    recheck_due-Waits :
        (last now : ℕ)
        → Waits (suc fuel) (recheck_due m id token task retry_task started again last now)
    recheck_due-Waits last now =
        Triple-if _ (leb m.recheck_after (now - last)) _ _
          (λ _.
            Triple-after _ _ (recheck-Slots m id token started (suc fuel)) (λ w h. h.1)
              rechecked-Waits)
          λ _. try_slot-Waits last

    beaten-Waits :
        (last : ℕ) (alive : Bool)
        → Waits (suc fuel) (beaten m id token task retry_task started again last alive)
    beaten-Waits last alive =
        Triple-if _ alive _ _
          (λ _. Triple-after _ _ (search total_rules) (λ w h. h.1) (recheck_due-Waits last))
          λ _. no_place _ λ w h. h.1

    if_running-Waits :
        (last : ℕ) (stop : Bool)
        → Waits (suc fuel) (if_running m id token task retry_task started again last stop)
    if_running-Waits last stop =
        Triple-if _ stop _ _ (λ _. no_place _ λ w h. h.1)
          λ _. Triple-after _ _ (search (total_rules, later-Slots)) (λ w h. h.1) (beaten-Waits last)

module _ (m : Meeting) (id : ℕ) (token : String) (task retry_task : Option Uuid) (started : ℕ)
    (poll : 1 ≤ m.poll) where
  pub wait_for_slot-Waits :
      (fuel last : ℕ)
      → Triple
          (λ w. (1 ≤ fuel) × Slots m started fuel w.now w.trace)
          (wait_for_slot m id token task retry_task started fuel last)
          (Taken id (task_of task retry_task))
          One
  unfolding wait_for_slot
  wait_for_slot-Waits zero last = record {
    at = λ w h. let never : ⊥ = omega (arith, h.0) in elim never [ ];
  }
  wait_for_slot-Waits (suc fuel) last =
      let goes : (last : ℕ) → _ = wait_for_slot-Waits fuel in
      Triple-strengthen _ _ _ (λ w h. h.1)
        (Triple-after _ _ (search (total_rules, later-Slots)) (λ w h. h.1)
          (if_running-Waits m id token task retry_task started fuel poll
            (wait_for_slot m id token task retry_task started fuel) goes last))
