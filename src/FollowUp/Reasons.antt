-- ===== src/FollowUp/Reasons.antt =====
-- The reasons for which `FollowUpProcessor` lets its message be deleted, where it looks at a row or hands the
-- job on.
use ktb4_15th_ai.Prelude.{
  ℕ, ◌≡◌, refl, String, Bool, true, false, not, ◌&&◌, ◌||◌, Option, none, some, List, [], arith,
  Bool-cases, inl, inr, subst, sym, ◌∷◌,
}
use ktb4_15th_ai.Job.{NextAction, Job}
use ktb4_15th_ai.NextStep.{NextStep, next_step_for, deletion_allowed, path_ready}
use ktb4_15th_ai.Process.{World, pure, ◌>>=◌, emit, ask}
use ktb4_15th_ai.Process.Total.{total_rules}
use ktb4_15th_ai.Process.Triples.{
  Triple, Triple-after, Triple-bind, Triple-if, Triple-return, Triple-ask, Triple-emit, Triple-pure,
  Triple-strengthen, Triple-known,
}
use ktb4_15th_ai.Handlers.{Event, found, delivered, queued, Run}
use ktb4_15th_ai.Sending.{is_sent}
use ktb4_15th_ai.FollowUp.{
  FollowUp, valid, invalid, RequestOutcome, ActionHandler, for_action, Processor, row_published,
  waiting_for, hands_to, outcome, look_up, judge, publish_to, hand_off, hand_or_judge, after_done,
}

-- The trace begins with these events, the last first.
abbrev pub Starts : List Event → List Event → Type 0
Starts [] trace = Unit
Starts (e ∷ events) [] = ⊥
Starts (e ∷ events) (x ∷ trace) = (x ≡ e) × Starts events trace

-- When it was asked, the deployment had the path for the next step of the row.
pub record PathReady (s : Processor) (r : Job) : Type 0 where
  pub step : NextStep
  pub moment : ℕ
  pub next : next_step_for r ≡ some step
  pub ready : s.ready_for moment r step ≡ true

-- Why a message of the job may be deleted, as the last events show it: the row that was read last has its
-- result message published, or a path for its next step; or SQS has taken a message for the action that
-- the row that was read just before waits for.
pub data Excused (s : Processor) (id : ℕ) (trace : List Event) : Type 0 where
  result_out :
      (r : Job)
      → Starts (found id (some r) ∷ []) trace
      → row_published (some r) ≡ true
      → Excused s id trace
  path_there :
      (r : Job) → Starts (found id (some r) ∷ []) trace → PathReady s r → Excused s id trace
  handed_on :
      (r : Job) (action : NextAction)
      → Starts (delivered id action ∷ queued id action ∷ found id (some r) ∷ []) trace
      → waiting_for action r ≡ true
      → Excused s id trace

-- The id that an item names, which a message that cannot be read may lack.
abbrev pub item_id : FollowUp → ℕ
item_id (valid message_id message) = message.fitting_job_id
item_id (invalid message_id id) = 0

-- A message is deleted for a reason that the calls outside show.
abbrev pub DeletedFor : Processor → ℕ → RequestOutcome → World Event → Type 0
DeletedFor s id o w = o.delete ≡ true → Excused s id w.trace

abbrev pub Always : ℕ → List Event → Type 0
Always now trace = Unit

-- The row was read last.
abbrev pub Known : ℕ → Option Job → World Event → Type 0
Known id row w = Starts (found id row ∷ []) w.trace

pub right_of : (a b : Bool) → (a && b) ≡ true → b ≡ true
right_of a b h = ground (arith, h)

module _ (s : Processor) (id : ℕ) where
  abbrev pub Fair : (World Event → Type 0) → Run RequestOutcome → Type 0
  Fair P code = Triple P code (DeletedFor s id) (λ _. Unit)

  path_ready-PathReady :
      (moment : ℕ) (r : Job) (step : Option NextStep)
      → next_step_for r ≡ step
      → path_ready (s.ready_for moment) r step ≡ true
      → PathReady s r
  path_ready-PathReady moment r none e h = cc
  path_ready-PathReady moment r (some step) e h = record {
    step = step;
    moment = moment;
    next = e;
    ready = h;
  }

  unpublished-path :
      (r : Job) (ready : Job → NextStep → Bool)
      → row_published (some r) ≡ false
      → deletion_allowed (some r) ready ≡ true
      → path_ready ready r (next_step_for r) ≡ true
  unfolding deletion_allowed
  unpublished-path r ready out h = ground (arith, out, h)

  -- A row that was read last, and is judged to need its message no more, excuses.
  pub judged-Excused :
      (row : Option Job) (moment : ℕ) (trace : List Event)
      → Starts (found id row ∷ []) trace
      → (row_published row || deletion_allowed row (s.ready_for moment)) ≡ true
      → Excused s id trace
  unfolding deletion_allowed
  judged-Excused none moment trace known h = cc
  judged-Excused (some r) moment trace known h = elim (Bool-cases (row_published (some r))) [
    | inl out ↦ result_out r known out
    | inr not_out ↦ path_there r known (
        path_ready-PathReady moment r (next_step_for r) refl
          (unpublished-path r (s.ready_for moment) not_out (ground (arith, h, not_out))))
  ]

module _ (s : Processor) (id : ℕ) (message_id : String) where
  pub kept-Fair :
      (P : World Event → Type 0) (name : String) → Fair s id P (outcome s id message_id name false)
  kept-Fair P name = Triple-return P _ λ w h kept. ground (arith, kept)

  pub look_up-then :
      (f : Option Job → Run RequestOutcome)
      → ((row : Option Job) → Fair s id (Known id row) (f row))
      → Fair s id (λ _. Unit) (look_up s id message_id >>= f)
  look_up-then f k =
      Triple-bind (look_up s id message_id) f
        (Triple-after {T = Always} _ _ (search total_rules) (λ w h. tt)
          λ row.
            Triple-bind (emit (found id row)) (λ _. pure row)
              (Triple-emit {Q = λ _. Known id row} _ (found id row) λ w h. (refl, tt))
              λ _. Triple-pure row)
        k

  -- The paths are asked for, and what is said of them is what `ready_for` says at that moment.
  pub judge-then :
      (row : Option Job) (f : (Job → NextStep → Bool) → Run RequestOutcome)
      → ((moment : ℕ) → Fair s id (Known id row) (f (s.ready_for moment)))
      → Fair s id (Known id row) (ask s.env s.ready_for >>= f)
  judge-then row f k =
      Triple-bind (ask s.env s.ready_for) f
        (Triple-ask s.env
          {Q = λ ready w. Known id row w × ((moment : ℕ) × (ready ≡ s.ready_for moment))}
          (Known id row) s.ready_for λ w h. (h, (w.moment, refl)))
        λ ready. Triple-known _ (f ready) λ w h.
          Triple-strengthen (Known id row) _ (f ready) (λ w h. h.0)
            (subst (λ x. Fair s id (Known id row) (f x)) (sym h.1.1) (k h.1.0))

  pub judge-Fair :
      (name : String) (row : Option Job) → Fair s id (Known id row) (judge s id message_id name row)
  judge-Fair name row =
      judge-then row _
        λ moment. Triple-return _ _ λ w known yes_. judged-Excused s id row moment _ known yes_

  -- SQS is given a message for the action that the row waits for.
  publish_to-Fair :
      (r : Job) (action : NextAction) (name : String) (h : Option ActionHandler)
      → waiting_for action r ≡ true
      → Fair s id (Known id (some r)) (publish_to s id message_id action name h)
  publish_to-Fair r action name none waits = kept-Fair _ _
  publish_to-Fair r action name (some h) waits =
      Triple-bind (emit (queued id action)) _
        (Triple-emit {Q = λ _ w. Starts (queued id action ∷ found id (some r) ∷ []) w.trace} _
          (queued id action) λ w known. (refl, known))
        λ _.
          Triple-after {T = λ _ trace. Starts (queued id action ∷ found id (some r) ∷ []) trace} _ _
            (search total_rules) (λ w h. tt)
            λ answer.
              Triple-if _ (is_sent answer) _ _
                (λ _.
                  Triple-bind (emit (delivered id action)) _
                    (Triple-emit
                      {Q = λ _ w.
                        Starts (delivered id action ∷ queued id action ∷ found id (some r) ∷ [])
                          w.trace}
                      _ (delivered id action) λ w known. (refl, known))
                    λ _. Triple-return _ _ λ w known yes_. handed_on r action known waits)
                λ _. kept-Fair _ _

  pub hand_off-Fair :
      (r : Job) (action : NextAction) (name : String)
      → waiting_for action r ≡ true
      → Fair s id (Known id (some r)) (hand_off s id message_id action name)
  unfolding hand_off
  hand_off-Fair r action name waits =
      publish_to-Fair r action name (for_action s.handlers action) waits

  pub forgetting :
      (P : World Event → Type 0) (code : Run RequestOutcome)
      → Fair s id (λ _. Unit) code
      → Fair s id P code
  forgetting P code t = Triple-strengthen _ P code (λ w h. tt) t

  hands_to-waiting :
      (latest : Job) (handoff : Option NextAction) (action : NextAction)
      → hands_to latest handoff ≡ some action
      → waiting_for action latest ≡ true
  hands_to-waiting latest none action e = cc
  hands_to-waiting latest (some a) action e = elim (Bool-cases (waiting_for a latest)) [
    | inl waits ↦
        let same : some a ≡ some action = ground (arith, e, waits) in
        let this : a ≡ action = cc in subst (λ x. waiting_for x latest ≡ true) this waits
    | inr other ↦ let bad : none ≡ some action = ground (arith, e, other) in cc
  ]

  hand_or_judge-Fair :
      (latest : Job) (action : Option NextAction)
      → ((a : NextAction) → action ≡ some a → waiting_for a latest ≡ true)
      → Fair s id (Known id (some latest)) (hand_or_judge s id message_id latest action)
  hand_or_judge-Fair latest none waits = judge-Fair "handler_done" (some latest)
  hand_or_judge-Fair latest (some action) waits =
      hand_off-Fair latest action "handed_off" (waits action refl)

  pub after_done-Fair :
      (action : NextAction) (handoff : Option NextAction) (row : Option Job)
      → Fair s id (Known id row) (after_done s id message_id action handoff row)
  after_done-Fair action handoff none = kept-Fair _ _
  after_done-Fair action handoff (some latest) =
      Triple-if _ (waiting_for action latest && not (row_published (some latest))) _ _
        (λ _. kept-Fair _ _)
        λ _.
          hand_or_judge-Fair latest (hands_to latest handoff)
            (λ a. hands_to-waiting latest handoff a)
