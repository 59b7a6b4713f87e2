-- ===== src/History/Rest.antt =====
-- The promises of `PrunaLimiter`, over any history of transactions.
use ktb4_15th_ai.Prelude.{
  ℕ, not, is_some, ◌≡◌, refl, String, Bool, true, false, Option, none, some, arith,
}
use ktb4_15th_ai.Payload.{Result, ok, err, ◌>>◌, guard}
use ktb4_15th_ai.Job.{Uuid, Job, NextAction, is_pending, is_terminal}
use ktb4_15th_ai.Store.{Db, Clock, Op, checked, find_job, write}
use ktb4_15th_ai.JobState.Change
use ktb4_15th_ai.JobState.Change.{Condition, Assignments, Diagnosis}
use ktb4_15th_ai.JobState.Lease
use ktb4_15th_ai.JobState.Submission
use ktb4_15th_ai.JobState.Events
use ktb4_15th_ai.JobState.Postprocess
use ktb4_15th_ai.JobState.Fallback
use ktb4_15th_ai.JobState.Publication
use ktb4_15th_ai.JobTable
use ktb4_15th_ai.Limiter.Slot.{Limits}
use ktb4_15th_ai.History.{
  Command, told, exec, record_not_accepted, record_attempt_contradiction, begin_submission,
  begin_retry_submission, begin_fallback, finish_send, defer_sends, hold_sends, release_in_flight,
  cancel_unsent, create, acquire_lease, renew_lease, release_lease, prepare_pruna_submission,
  mark_pruna_submit_started, record_runware_accepted, record_submission_accepted, record_auth_hold,
  record_pruna_succeeded, fill_pruna_image_ref, record_pruna_failed, claim_s3_check_attempt,
  record_image_verified, claim_llm_generation_attempt, move_to_fallback, prepare_fallback,
  record_fallback_image, claim_fallback_attempt, save_final_result, claim_result_message_attempt,
  mark_result_published, mark_result_retry_exhausted,
}

-- Only jobs have changed.
abbrev pub SameRest : Db → Db → Type 0
SameRest a b =
    (b.attempts ≡ a.attempts)
    × (b.limiter ≡ a.limiter)
    × (b.in_flight ≡ a.in_flight)
    × (b.sends ≡ a.sends)

run_row-SameRest :
    (condition : Condition) (set : Assignments) (reason : Diagnosis) (r : Option Job) (c : Clock)
    (db : Db)
    → SameRest db (Change.run_row condition set reason r c db).1
unfolding Change.run_row write
run_row-SameRest condition set reason r c db = ground arith

-- A method that leaves the other tables as they are, whatever it returns or raises.
abbrev pub KeepsRest : {A : Type 0} → Op A → Type 0
KeepsRest m = (c : Clock) (db : Db) → SameRest db (m c db).1

checked-SameRest :
    {A B : Type 0} (m : Result A) (f : A → Op B)
    → ((a : A) → KeepsRest (f a))
    → KeepsRest (checked m f)
checked-SameRest (ok a) f h c db = h a c db
checked-SameRest (err e) f h c db = (refl, refl, refl, refl)

told-SameRest :
    {A : Type 0} (changed : A → Bool) (db : Db) (x : Result A × Db)
    → SameRest db x.1
    → SameRest db (told changed x).1
told-SameRest changed db (ok a, after) h = h
told-SameRest changed db (err e, after) h = h

update-SameRest :
    (id : ℕ) (u : String) (set : Assignments) (condition : Condition) (terminal_ok : Bool)
    (diagnose : Diagnosis)
    → KeepsRest (Change.update id u set condition terminal_ok diagnose)
unfolding Change.update
update-SameRest id u set condition terminal_ok diagnose =
    checked-SameRest (do Change.check_job_id id; Change.check_token u)
      (λ _. Change.update_row id u set condition terminal_ok diagnose)
      λ _ c db.
        run_row-SameRest (Change.with_lease u condition) (Change.touched set)
          (Change.lease_reason u terminal_ok diagnose) (find_job id db.jobs) c db

then-SameRest :
    {A : Type 0} (m : Result A) (id : ℕ) (u : String) (set : A → Assignments)
    (condition : A → Condition) (diagnose : Diagnosis)
    → KeepsRest (checked m λ a. Change.update id u (set a) (condition a) false diagnose)
then-SameRest m id u set condition diagnose =
    checked-SameRest m (λ a. Change.update id u (set a) (condition a) false diagnose)
      λ a. update-SameRest id u (set a) (condition a) false diagnose

claim-SameRest :
    (id : ℕ) (u : String) (grow : Assignments) (count : Job → ℕ) (limit : ℕ) (condition : Condition)
    (done : Job → Bool)
    → KeepsRest (Change.claim id u grow count limit condition done)
unfolding Change.claim
claim-SameRest id u grow count limit condition done =
    update-SameRest id u grow (Change.below count limit condition) false
      (Change.claim_reason count limit done)

event_update-SameRest :
    (task : Option Uuid) (set : Assignments) (condition : Condition)
    → KeepsRest (Change.event_update task set condition)
unfolding Change.event_update
event_update-SameRest task set condition =
    checked-SameRest (Change.check_uuid task) (Change.event_row set condition) λ task c db.
      run_row-SameRest (Change.with_event task condition) (Change.touched set)
        (Change.free_reason Change.mismatch) (Change.find_task task db.jobs) c db

hold_result-SameRest :
    (db : Db) (x : Result Change.StateChange × Db)
    → SameRest db x.1
    → SameRest db (Events.hold_result x).1
hold_result-SameRest db (ok change, after) h = h
hold_result-SameRest db (err e, after) h = h

hold-SameRest : (task : Option Uuid) (why : String) → KeepsRest (Events.record_auth_hold task why)
unfolding Events.record_auth_hold
hold-SameRest task why c db = hold_result-SameRest db _ (
    checked-SameRest (Events.checked_code why)
      (λ why. Change.event_update task (Events.mark_held why) Events.can_hold)
      (λ why. event_update-SameRest task (Events.mark_held why) Events.can_hold) c db)

to_grant-SameRest :
    (token : String) (db : Db) (x : Result Change.StateChange × Db)
    → SameRest db x.1
    → SameRest db (Lease.to_grant token x).1
to_grant-SameRest token db (ok change, after) h = h
to_grant-SameRest token db (err e, after) h = h

acquire_lease-SameRest :
    (u : String) (id : ℕ) (action : NextAction) (lease : ℕ)
    → KeepsRest (Lease.acquire_lease u id action lease)
unfolding Lease.acquire_lease
acquire_lease-SameRest u id action lease c db = to_grant-SameRest u db _ (
    checked-SameRest (do Change.check_seconds lease; Change.check_job_id id)
      (λ _. Lease.acquire_row u id action lease)
      (λ _ c db.
        run_row-SameRest (Lease.can_acquire action) (Change.touched (Lease.hold_until u lease))
          (Change.free_reason (Lease.acquire_reason action)) (find_job id db.jobs) c db)
      c db)

insert_row-SameRest : (n : JobTable.NewJob) (r : Option Job) → KeepsRest (JobTable.insert_row n r)
unfolding JobTable.insert_row
insert_row-SameRest n none c db = (refl, refl, refl, refl)
insert_row-SameRest n (some r) c db = (refl, refl, refl, refl)

create-SameRest : (n : JobTable.NewJob) → KeepsRest (JobTable.create n)
unfolding JobTable.create
create-SameRest n =
    checked-SameRest (JobTable.check_new_job n) JobTable.create_row
      λ n c db. insert_row-SameRest n (find_job n.fitting_job_id db.jobs) c db

-- The calls that go to the attempts, to the limiter or to its places.
abbrev pub is_limiter_call : Command → Bool
is_limiter_call (record_not_accepted _ _ _ _ _) = true
is_limiter_call (record_attempt_contradiction _ _) = true
is_limiter_call (begin_submission _ _ _) = true
is_limiter_call (begin_retry_submission _ _ _ _) = true
is_limiter_call (begin_fallback _ _ _) = true
is_limiter_call (finish_send _) = true
is_limiter_call (defer_sends _) = true
is_limiter_call (hold_sends _) = true
is_limiter_call (release_in_flight _ _) = true
is_limiter_call (cancel_unsent _ _ _) = true
is_limiter_call _ = false

module _ (limits : Limits) (is_printable : ℕ → Bool) where
  -- All other calls leave those tables as they are.
  pub exec-SameRest :
      (command : Command) (c : Clock) (db : Db)
      → is_limiter_call command ≡ false
      → SameRest db (exec limits is_printable command c db).1
  unfolding exec Lease.renew_lease Lease.release_lease Submission.prepare_pruna_submission
      Submission.mark_pruna_submit_started Submission.record_runware_accepted
      Postprocess.claim_s3_check_attempt Postprocess.record_image_verified
      Postprocess.claim_llm_generation_attempt Fallback.move_to_fallback Fallback.prepare_fallback
      Fallback.record_fallback_image Fallback.claim_fallback_attempt Publication.save_final_result
      Publication.claim_result_message_attempt Publication.mark_result_published
      Publication.mark_result_retry_exhausted Events.record_submission_accepted
      Events.record_pruna_succeeded Events.fill_pruna_image_ref Events.record_pruna_failed
  exec-SameRest (create n) c db h = told-SameRest (λ r. r.created) db _ (create-SameRest n c db)
  exec-SameRest (acquire_lease u id a d) c db h =
      told-SameRest (λ r. r.acquired) db _ (acquire_lease-SameRest u id a d c db)
  exec-SameRest (renew_lease id u d) c db h =
      told-SameRest (λ r. r.applied) db _
        (then-SameRest (Change.check_seconds d) id u Lease.extend_until (λ _. Lease.can_renew)
          Change.mismatch c db)
  exec-SameRest (release_lease id u) c db h =
      told-SameRest (λ r. r.applied) db _
        (update-SameRest id u Lease.drop_lease Lease.always true Change.mismatch c db)
  exec-SameRest (prepare_pruna_submission id u t k ai) c db h =
      told-SameRest (λ r. r.applied) db _
        (then-SameRest (Submission.uuid_and_key t k) id u (λ tk. Submission.prepared tk.0 tk.1 ai)
          (λ _. Submission.can_prepare) Submission.prepare_reason c db)
  exec-SameRest (mark_pruna_submit_started id u) c db h =
      told-SameRest (λ r. r.applied) db _
        (update-SameRest id u Submission.mark_started Submission.can_start false
          Submission.start_reason c db)
  exec-SameRest (record_runware_accepted id u t) c db h =
      told-SameRest (λ r. r.applied) db _
        (then-SameRest (Change.check_uuid t) id u (λ _. Submission.mark_accepted)
          Submission.can_accept Change.mismatch c db)
  exec-SameRest (record_submission_accepted t) c db h =
      told-SameRest (λ r. r.applied) db _
        (event_update-SameRest t Submission.mark_accepted Events.always c db)
  exec-SameRest (record_auth_hold t why) c db h =
      told-SameRest (λ r. r.applied) db _ (hold-SameRest t why c db)
  exec-SameRest (record_pruna_succeeded t url i) c db h =
      told-SameRest (λ r. r.applied) db _
        (checked-SameRest (Events.check_references is_printable url i)
          (λ refs. Change.event_update t (Events.mark_succeeded refs.0 refs.1) Events.can_succeed)
          (λ refs. event_update-SameRest t (Events.mark_succeeded refs.0 refs.1) Events.can_succeed)
          c db)
  exec-SameRest (fill_pruna_image_ref t url i q) c db h =
      told-SameRest (λ r. r.applied) db _
        (checked-SameRest (Events.check_fill is_printable t url i) (Events.fill_row q)
          (λ a c db.
            run_row-SameRest (Events.can_fill a.0 a.1 a.2 q) (Events.filled a.1 a.2)
              (Change.free_reason Change.mismatch) (Change.find_task a.0 db.jobs) c db)
          c db)
  exec-SameRest (record_pruna_failed t true p) c db h =
      told-SameRest (λ r. r.applied) db _
        (checked-SameRest (Events.no_payload p)
          (λ _. Change.event_update t Events.to_fallback_failed Events.can_fail)
          (λ _. event_update-SameRest t Events.to_fallback_failed Events.can_fail) c db)
  exec-SameRest (record_pruna_failed t false p) c db h =
      told-SameRest (λ r. r.applied) db _
        (checked-SameRest (Events.check_failed p)
          (λ f. Change.event_update t (Events.mark_failed f) (Events.fails_with f))
          (λ f. event_update-SameRest t (Events.mark_failed f) (Events.fails_with f)) c db)
  exec-SameRest (claim_s3_check_attempt id u) c db h =
      told-SameRest (λ r. r.applied) db _
        (claim-SameRest id u Postprocess.count_s3_check (λ r. r.s3_check_attempt_count)
          Change.s3_check_limit Postprocess.lacks_image (λ r. is_some r.verified_image_key) c db)
  exec-SameRest (record_image_verified id u k) c db h =
      told-SameRest (λ r. r.applied) db _
        (then-SameRest (Change.check_key k) id u Postprocess.mark_verified
          (λ _. Postprocess.lacks_image) Postprocess.verify_reason c db)
  exec-SameRest (claim_llm_generation_attempt id u) c db h =
      told-SameRest (λ r. r.applied) db _
        (claim-SameRest id u Postprocess.count_llm_call (λ r. r.llm_generation_attempt_count)
          Change.llm_generation_limit Postprocess.has_image (λ r. is_some r.result_payload) c db)
  exec-SameRest (move_to_fallback id u s) c db h =
      told-SameRest (λ r. r.applied) db _
        (then-SameRest (Fallback.check_missing s) id u (λ _. Fallback.to_fallback)
          (λ _. Fallback.can_fall_back) Fallback.fall_back_reason c db)
  exec-SameRest (prepare_fallback id u t) c db h =
      told-SameRest (λ r. r.applied) db _
        (then-SameRest (Change.check_uuid t) id u Fallback.name_fallback Fallback.can_name_fallback
          Fallback.name_reason c db)
  exec-SameRest (record_fallback_image id u k) c db h =
      told-SameRest (λ r. r.applied) db _
        (then-SameRest (Change.check_key k) id u Fallback.store_fallback
          (λ _. Fallback.can_store_fallback) Fallback.store_reason c db)
  exec-SameRest (claim_fallback_attempt id u) c db h =
      told-SameRest (λ r. r.applied) db _
        (claim-SameRest id u Fallback.count_fallback (λ r. r.fallback_attempt_count)
          Change.fallback_limit Fallback.may_fall_back (λ r. is_some r.result_payload) c db)
  exec-SameRest (save_final_result id u p k) c db h =
      told-SameRest (λ r. r.applied) db _
        (then-SameRest (Publication.check_final id p k) id u Publication.save
          (λ _. Publication.can_save) Publication.save_reason c db)
  exec-SameRest (claim_result_message_attempt id u) c db h =
      told-SameRest (λ r. r.applied) db _
        (claim-SameRest id u Publication.count_message (λ r. r.result_message_attempt_count)
          Change.result_message_limit Publication.can_send
          (λ r. not (is_pending r.result_message_status)) c db)
  exec-SameRest (mark_result_published id u s) c db h =
      told-SameRest (λ r. r.applied) db _
        (then-SameRest (guard (is_terminal s)) id u (λ _. Publication.publish s)
          (λ _. Publication.can_publish s) Change.mismatch c db)
  exec-SameRest (mark_result_retry_exhausted id u) c db h =
      told-SameRest (λ r. r.applied) db _
        (update-SameRest id u Publication.exhaust Publication.is_exhausted false Change.mismatch c
          db)
  exec-SameRest command c db h = ground (arith, h)
