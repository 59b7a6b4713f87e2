-- ===== src/FollowUp/Deletes.antt =====
-- When `FollowUpProcessor` lets its message be deleted.
use ktb4_15th_ai.Prelude.{
  ℕ, ◌≡◌, refl, String, Bool, true, not, ◌&&◌, ◌||◌, Option, none, some, [], arith,
}
use ktb4_15th_ai.Job.{NextAction, Job, is_action}
use ktb4_15th_ai.Job
use ktb4_15th_ai.Store.{has_task}
use ktb4_15th_ai.JobState.Lease.{LeaseGrant, release_lease}
use ktb4_15th_ai.Process.{World, call}
use ktb4_15th_ai.Process.Total.{Total, Finished, total_rules}
use ktb4_15th_ai.Process.Triples.{
  Triple, Meets, Triple-after, Triple-if, Triple-finally, Triple-catch, Triple-return, Total-Triple,
  Triple-weaken,
}
use ktb4_15th_ai.Handlers.{Event, HandlerResult, finished, deferred}
use ktb4_15th_ai.Sending.{ignore}
use ktb4_15th_ai.FollowUp.{
  FollowUpMessage, FollowUp, valid, invalid, RequestOutcome, ActionHandler, PostprocessHandlers,
  for_action, Processor, row_published, waiting_for, is_mismatch, after_result, after_handler,
  if_may, with_lease, refused_lease, leased, handle_with, other_state, with_row, process_valid,
  process,
}
use ktb4_15th_ai.FollowUp.Reasons.{
  Always, Fair, Known, Excused, result_out, DeletedFor, item_id, right_of, judged-Excused,
  kept-Fair, look_up-then, judge-then, judge-Fair, hand_off-Fair, forgetting, after_done-Fair,
}

module _ (s : Processor) (id : ℕ) (message_id : String) where
  after_result-Fair :
      (action : NextAction) (result : HandlerResult)
      → Fair s id (λ _. Unit) (after_result s id message_id action result)
  after_result-Fair action (deferred reason) = kept-Fair s id message_id _ _
  after_result-Fair action (finished reason handoff) =
      look_up-then s id message_id _ (after_done-Fair s id message_id action handoff)

  after_handler-Fair :
      (action : NextAction) (result : Option HandlerResult)
      → Fair s id (λ _. Unit) (after_handler s id message_id action result)
  after_handler-Fair action none = kept-Fair s id message_id _ _
  after_handler-Fair action (some result) =
      Triple-after {T = Always} _ _ (search total_rules) (λ w h. tt)
        λ lost.
          Triple-if _ lost _ _ (λ _. kept-Fair s id message_id _ _)
            λ _. after_result-Fair action result

  module _ (h : ActionHandler) (token : String)
      (ends : (job : Job) → Total Always (h token job)) where
    if_may-Fair :
        (action : NextAction) (job : Job) (may : Bool)
        → Fair s id (λ _. Unit) (if_may s id message_id h token action job may)
    if_may-Fair action job may =
        Triple-if _ may _ _
          (λ _.
            Triple-after {T = Always} _ _ (search (total_rules, ends)) (λ w h. tt)
              (after_handler-Fair action))
          λ _. kept-Fair s id message_id _ _

    with_lease-Fair :
        (message : FollowUpMessage) (job : Option Job)
        → Fair s id (λ _. Unit) (with_lease s id message_id h token message job)
    unfolding with_lease
    with_lease-Fair message none = kept-Fair s id message_id _ _
    with_lease-Fair message (some job) =
        Triple-if _ (not (has_task message.task_uuid job) || not (waiting_for message.action job)) _
          _ (λ _. kept-Fair s id message_id _ _)
          λ _.
            Triple-after {T = Always} _ _ (search total_rules) (λ w h. tt)
              (if_may-Fair message.action job)

    refused_lease-Fair :
        (grant : LeaseGrant) → Fair s id (λ _. Unit) (refused_lease s id message_id grant)
    refused_lease-Fair grant =
        Triple-if _ (is_mismatch grant.reason) _ _
          (λ _. look_up-then s id message_id _ (judge-Fair s id message_id _))
          λ _. kept-Fair s id message_id _ _

    -- The lease is given back after it, which changes no reason to delete.
    released-Fair :
        (o : RequestOutcome)
        → Triple
            (DeletedFor s id o)
            (ignore (call s.env (release_lease id token)))
            (λ _. DeletedFor s id o)
            (λ _. Unit)
    released-Fair o =
        Triple-weaken _ _ _ _ _ _ (λ _ w h. h) (λ w h. tt)
          (Total-Triple (λ now trace. o.delete ≡ true → Excused s id trace) _ (search total_rules))

    leased-Fair :
        (message : FollowUpMessage) (grant : LeaseGrant)
        → Fair s id (λ _. Unit) (leased s id message_id h token message grant)
    leased-Fair message grant =
        Triple-if _ grant.acquired _ _
          (λ _.
            Triple-finally _ _ (with_lease-Fair message grant.job) released-Fair
              (Total-Triple Always _ (search total_rules)))
          λ _. refused_lease-Fair grant

    handle_with-Fair :
        (message : FollowUpMessage)
        → Fair s id (λ _. Unit) (handle_with s id message_id token message (some h))
    handle_with-Fair message =
        Triple-after {T = Always} _ _ (search total_rules) (λ w h. tt)
          λ stop.
            Triple-if _ stop _ _ (λ _. kept-Fair s id message_id _ _)
              λ _.
                Triple-after {T = Always} _ _ (search total_rules) (λ w h. tt) (leased-Fair message)

  module _ (token : String)
      (ends : (action : NextAction) (h : ActionHandler)
        → for_action s.handlers action ≡ some h
        → (job : Job) → Total Always (h token job)) where
    handler-Fair :
        (message : FollowUpMessage) (h : Option ActionHandler)
        → for_action s.handlers message.action ≡ h
        → Fair s id (λ _. Unit) (handle_with s id message_id token message h)
    handler-Fair message none e = kept-Fair s id message_id _ _
    handler-Fair message (some h) e = handle_with-Fair h token (ends message.action h e) message

    other_state-Fair :
        (message : FollowUpMessage) (job : Job)
        → Fair s id (Known id (some job)) (other_state s id message_id message job)
    other_state-Fair message job =
        Triple-if _
          (is_action (some message.action) Job.postprocess && waiting_for Job.run_fallback job) _ _
          (λ both.
            hand_off-Fair s id message_id job Job.run_fallback "republished" (right_of _ _ both))
          λ _. judge-then s id message_id (some job) _ λ moment.
            Triple-return _ _ λ w known allowed_.
              judged-Excused s id (some job) moment _ known (ground (arith, allowed_))

    with_row-Fair :
        (message : FollowUpMessage) (row : Option Job)
        → Fair s id (Known id row) (with_row s id message_id token message row)
    with_row-Fair message none = kept-Fair s id message_id _ _
    with_row-Fair message (some job) =
        Triple-if _ (not (has_task message.task_uuid job)) _ _ (λ _. kept-Fair s id message_id _ _)
          λ _.
            Triple-if _ (row_published (some job)) _ _
              (λ out. Triple-return _ _ λ w known _. result_out job known out)
              λ _.
                Triple-if _ (not (waiting_for message.action job)) _ _
                  (λ _. other_state-Fair message job)
                  λ _.
                    forgetting s id message_id _ _
                      (handler-Fair message (for_action s.handlers message.action) refl)

    process_valid-Fair :
        (message : FollowUpMessage)
        → Fair s id (λ _. Unit) (process_valid s id message_id token message)
    unfolding process_valid
    process_valid-Fair message = look_up-then s id message_id _ (with_row-Fair message)

-- The handlers of the Worker end: they return or raise.
abbrev pub HandlersEnd : PostprocessHandlers → String → Type 0
HandlersEnd handlers token =
    (action : NextAction) (h : ActionHandler)
    → for_action handlers action ≡ some h
    → (job : Job) (w : World Event) → Finished (h token job w).0

process-Triple :
    (s : Processor) (token : String) (item : FollowUp)
    → HandlersEnd s.handlers token
    → Triple (λ _. Unit) (process s token item) (DeletedFor s (item_id item)) (λ _. ⊥)
unfolding process
process-Triple s token (invalid message_id id) ends =
    Triple-return _ _ λ w h kept. ground (arith, kept)
process-Triple s token (valid message_id message) ends =
    Triple-catch (process_valid s message.fitting_job_id message_id token message) _
      (process_valid-Fair s message.fitting_job_id message_id token
        (λ action h e job. record { at = λ w p. (tt, ends action h e job w) }) message)
      λ _. Triple-return _ _ λ w h kept. ground (arith, kept)

-- If its handlers end, `FollowUpProcessor.process` returns, whatever is raised in it. If it lets the message
-- be deleted, then the last that it did outside was to read a row of the job of which the result message is
-- published, or for whose next step `ready_for` said at some moment that there is a path; or else it has
-- read a row that waits for an action, and SQS has taken a message for this action.
pub process-Deletes :
    (s : Processor) (token : String) (item : FollowUp) (w : World Event)
    → HandlersEnd s.handlers token
    → Meets (DeletedFor s (item_id item)) (λ _. ⊥) (process s token item (record w { trace = [] }))
process-Deletes s token item w ends =
    (process-Triple s token item ends).at (record w { trace = [] }) tt
