-- ===== src/History/Leases.antt =====
-- A Worker without the lease changes nothing of the job that another one holds.
use ktb4_15th_ai.Prelude.{
  ℕ, ◌≡◌, ◌≢◌, ◌⊎◌, refl, sym, subst, ◌∙◌, String, Bool, true, false, Option, none, some, arith,
  str_eq, eq_iff, Bool-cases, inl, inr, is_text, not, is_some,
}
use ktb4_15th_ai.Payload.{Error, Result, ok, err, ◌>>◌, guard}
use ktb4_15th_ai.Job.{Uuid, Time, Job, NextAction, is_pending, is_terminal}
use ktb4_15th_ai.Store.{Db, LimiterRow, Clock, Op, checked, find_job}
use ktb4_15th_ai.JobState.Change
use ktb4_15th_ai.JobState.Change.{
  lease_valid, lease_invalid, terminal, StateChange, Condition, Assignments, Diagnosis, with_lease,
}
use ktb4_15th_ai.JobState.Lease
use ktb4_15th_ai.JobState.Submission
use ktb4_15th_ai.JobState.Postprocess
use ktb4_15th_ai.JobState.Fallback
use ktb4_15th_ai.JobState.Publication
use ktb4_15th_ai.Limiter.Slot.{Limits, SubmissionGrant, refusal}
use ktb4_15th_ai.Limiter.Slot
use ktb4_15th_ai.Limiter.Begin
use ktb4_15th_ai.Limiter.Release
use ktb4_15th_ai.History.{
  Command, acquire_lease, renew_lease, release_lease, prepare_pruna_submission,
  mark_pruna_submit_started, record_runware_accepted, claim_s3_check_attempt, record_image_verified,
  claim_llm_generation_attempt, move_to_fallback, prepare_fallback, record_fallback_image,
  claim_fallback_attempt, save_final_result, claim_result_message_attempt, mark_result_published,
  mark_result_retry_exhausted, begin_submission, begin_retry_submission, begin_fallback,
  cancel_unsent, told, exec,
}

-- The job and the token of a call by a Worker; `acquire_lease` comes with a token that is new.
abbrev pub worker_call : Command → Option (ℕ × String)
worker_call (acquire_lease t id _ _) = some (id, t)
worker_call (renew_lease id t _) = some (id, t)
worker_call (release_lease id t) = some (id, t)
worker_call (prepare_pruna_submission id t _ _ _) = some (id, t)
worker_call (mark_pruna_submit_started id t) = some (id, t)
worker_call (record_runware_accepted id t _) = some (id, t)
worker_call (claim_s3_check_attempt id t) = some (id, t)
worker_call (record_image_verified id t _) = some (id, t)
worker_call (claim_llm_generation_attempt id t) = some (id, t)
worker_call (move_to_fallback id t _) = some (id, t)
worker_call (prepare_fallback id t _) = some (id, t)
worker_call (record_fallback_image id t _) = some (id, t)
worker_call (claim_fallback_attempt id t) = some (id, t)
worker_call (save_final_result id t _ _) = some (id, t)
worker_call (claim_result_message_attempt id t) = some (id, t)
worker_call (mark_result_published id t _) = some (id, t)
worker_call (mark_result_retry_exhausted id t) = some (id, t)
worker_call (begin_submission id t _) = some (id, t)
worker_call (begin_retry_submission id t _ _) = some (id, t)
worker_call (begin_fallback id t _) = some (id, t)
worker_call (cancel_unsent id t _) = some (id, t)
worker_call _ = none

-- A text is one token, and no other.
other-token :
    (held : Option String) (t u : String) → is_text held t ≡ true → t ≢ u → is_text held u ≡ false
other-token none t u h d = cc
other-token (some s) t u h d = elim (Bool-cases (str_eq s u)) [
  | inl same ↦ absurd (d (sym ((eq_iff s t).0 h) ∙ (eq_iff s u).0 same))
  | inr differs ↦ differs
]

-- While one token's lease is valid, no other token's is.
lease-exclusive :
    (t u : String) (now : Time) (r : Job)
    → lease_valid t now r ≡ true
    → t ≢ u
    → lease_valid u now r ≡ false
unfolding lease_valid
lease-exclusive t u now r h d = ground (arith, other-token r.worker_lease_token t u)

-- The call reports no change and leaves all tables as they are.
abbrev Idle : {A : Type 0} → (A → Bool) → Op A → Clock → Db → Type 0
Idle changed m c db = told changed (m c db) ≡ (false, db)

checked-Idle :
    {A B : Type 0} (changed : B → Bool) (m : Result A) (f : A → Op B) (c : Clock) (db : Db)
    → ((a : A) → Idle changed (f a) c db)
    → Idle changed (checked m f) c db
checked-Idle changed (ok a) f c db h = h a
checked-Idle changed (err e) f c db h = refl

-- Another token than `u` holds the job.
record Held (c : Clock) (db : Db) (id : ℕ) (u : String) : Type 0 where
  holder : String
  row : Job
  found : find_job id db.jobs ≡ some row
  holds : lease_valid holder c.now row ≡ true
  other : holder ≢ u

abbrev HeldCall : Clock → Db → Option (ℕ × String) → Type 0
HeldCall c db none = ⊥
HeldCall c db (some (id, u)) = Held c db id u

Result-cases : {A : Type 0} (m : Result A) → ((a : A) × (m ≡ ok a)) ⊎ ((e : Error) × (m ≡ err e))
Result-cases (ok a) = inl (a, refl)
Result-cases (err e) = inr (e, refl)

module _ (c : Clock) (db : Db) where
  -- The condition fails, whatever else it is.
  invalid : {id : ℕ} {u : String} (h : Held c db id u) → lease_valid u c.now h.row ≡ false
  invalid {id} {u} h = lease-exclusive h.holder u c.now h.row h.holds h.other

  update-Idle :
      (id : ℕ) (u : String) (set : Assignments) (condition : Condition) (terminal_ok : Bool)
      (diagnose : Diagnosis)
      → Held c db id u
      → Idle (λ r. r.applied) (Change.update id u set condition terminal_ok diagnose) c db
  unfolding Change.update Change.run_row
  update-Idle id u set condition terminal_ok diagnose h =
      checked-Idle (λ r. r.applied) (do Change.check_job_id id; Change.check_token u)
        (λ _. Change.update_row id u set condition terminal_ok diagnose) c db
        λ _. let fails = invalid h in rw h.found (ground (arith, fails))

  -- A method that checks its other arguments first.
  then-Idle :
      {A : Type 0} (m : Result A) (id : ℕ) (u : String) (set : A → Assignments)
      (condition : A → Condition) (diagnose : Diagnosis)
      → Held c db id u
      → Idle
          (λ r. r.applied)
          (checked m λ a. Change.update id u (set a) (condition a) false diagnose)
          c
          db
  then-Idle m id u set condition diagnose h =
      checked-Idle (λ r. r.applied) m (λ a. Change.update id u (set a) (condition a) false diagnose)
        c db λ a. update-Idle id u (set a) (condition a) false diagnose h

  claim-Idle :
      (id : ℕ) (u : String) (grow : Assignments) (count : Job → ℕ) (limit : ℕ)
      (condition : Condition) (done : Job → Bool)
      → Held c db id u
      → Idle (λ r. r.applied) (Change.claim id u grow count limit condition done) c db
  unfolding Change.claim
  claim-Idle id u grow count limit condition done h =
      update-Idle id u grow (Change.below count limit condition) false
        (Change.claim_reason count limit done) h

  acquire-Idle :
      (u : String) (id : ℕ) (action : NextAction) (lease : ℕ)
      → Held c db id u
      → Idle (λ r. r.acquired) (Lease.acquire_lease u id action lease) c db
  unfolding Lease.acquire_lease Change.run_row lease_valid
  acquire-Idle u id action lease h =
      elim (Result-cases (do Change.check_seconds lease; Change.check_job_id id)) [
        | inl (a, fits) ↦ rw (fits, h.found) (ground (arith, h.holds))
        | inr (e, fails) ↦ rw fails refl
      ]

  limited-Idle :
      (id : ℕ) (u : String) (f : LimiterRow → Job → Op SubmissionGrant) (h : Held c db id u)
      → ((row : LimiterRow) → f row h.row c db ≡ (ok (refusal Slot.lease_invalid), db))
      → (row : Option LimiterRow)
      → told (λ r. r.granted) (Begin.limited (λ row. Begin.with_job id (f row)) row c db)
        ≡ (false, db)
  limited-Idle id u f h refuses none = refl
  limited-Idle id u f h refuses (some row) = rw (h.found, refuses row) refl

  -- A method that locks the limiter's row and the job's row, and finds that the lease is not valid.
  locked-Idle :
      {A : Type 0} (m : Result A) (id : ℕ) (u : String)
      (f : A → LimiterRow → Job → Op SubmissionGrant) (h : Held c db id u)
      → ((a : A) (row : LimiterRow) → f a row h.row c db ≡ (ok (refusal Slot.lease_invalid), db))
      → Idle
          (λ r. r.granted)
          (checked m λ a. Begin.with_limiter λ row. Begin.with_job id (f a row))
          c
          db
  locked-Idle m id u f h refuses =
      checked-Idle (λ r. r.granted) m (λ a. Begin.with_limiter λ row. Begin.with_job id (f a row)) c
        db λ a. limited-Idle id u (f a) h (refuses a) db.limiter

  module _ (limits : Limits) where
    submit-Idle :
        (id : ℕ) (u : String) (task : Option Uuid)
        → Held c db id u
        → Idle (λ r. r.granted) (Begin.begin_submission limits id u task) c db
    unfolding Begin.begin_submission Begin.submit_locked
    submit-Idle id u task h =
        locked-Idle (do Change.check_job_id id; Change.check_uuid task) id u
          (Begin.submit_locked limits id u) h λ task row. rw (invalid h) refl

    retry-Idle :
        (id : ℕ) (u : String) (previous task : Option Uuid)
        → Held c db id u
        → Idle (λ r. r.granted) (Begin.begin_retry_submission limits id u previous task) c db
    unfolding Begin.begin_retry_submission Begin.retry_locked
    retry-Idle id u previous task h =
        locked-Idle (do Change.check_job_id id; Begin.check_uuids previous task) id u
          (λ tasks. Begin.retry_locked limits id u tasks.0 tasks.1) h
          λ tasks row. rw (invalid h) refl

    fallback-Idle :
        (id : ℕ) (u : String) (task : Option Uuid)
        → Held c db id u
        → Idle (λ r. r.granted) (Begin.begin_fallback limits id u task) c db
    unfolding Begin.begin_fallback Begin.fallback_locked
    fallback-Idle id u task h =
        locked-Idle (do Change.check_job_id id; Change.check_uuid task) id u
          (Begin.fallback_locked limits id u) h λ task row. rw (invalid h) refl

  cancel-Idle :
      (id : ℕ) (u : String) (task : Option Uuid)
      → Held c db id u
      → Idle (λ r. r) (Release.cancel_unsent id u task) c db
  unfolding Release.cancel_unsent Release.cancel_row
  cancel-Idle id u task h =
      checked-Idle (λ r. r) (do Change.check_job_id id; Change.check_uuid task)
        (λ task c db. Release.cancel_row id u task (find_job id db.jobs) c db) c db
        λ task. let fails = invalid h in rw h.found (ground (arith, fails))

  module _ (limits : Limits) (is_printable : ℕ → Bool) where
    held-Idle :
        (command : Command)
        → HeldCall c db (worker_call command)
        → exec limits is_printable command c db ≡ (false, db)
    unfolding exec Lease.renew_lease Lease.release_lease Submission.prepare_pruna_submission
        Submission.mark_pruna_submit_started Submission.record_runware_accepted
        Postprocess.claim_s3_check_attempt Postprocess.record_image_verified
        Postprocess.claim_llm_generation_attempt Fallback.move_to_fallback Fallback.prepare_fallback
        Fallback.record_fallback_image Fallback.claim_fallback_attempt Publication.save_final_result
        Publication.claim_result_message_attempt Publication.mark_result_published
        Publication.mark_result_retry_exhausted
    held-Idle (acquire_lease u id a d) h = acquire-Idle u id a d h
    held-Idle (renew_lease id u d) h =
        then-Idle (Change.check_seconds d) id u Lease.extend_until (λ _. Lease.can_renew)
          Change.mismatch h
    held-Idle (release_lease id u) h =
        update-Idle id u Lease.drop_lease Lease.always true Change.mismatch h
    held-Idle (prepare_pruna_submission id u t k ai) h =
        then-Idle (Submission.uuid_and_key t k) id u (λ tk. Submission.prepared tk.0 tk.1 ai)
          (λ _. Submission.can_prepare) Submission.prepare_reason h
    held-Idle (mark_pruna_submit_started id u) h =
        update-Idle id u Submission.mark_started Submission.can_start false Submission.start_reason
          h
    held-Idle (record_runware_accepted id u t) h =
        then-Idle (Change.check_uuid t) id u (λ _. Submission.mark_accepted) Submission.can_accept
          Change.mismatch h
    held-Idle (claim_s3_check_attempt id u) h =
        claim-Idle id u Postprocess.count_s3_check (λ r. r.s3_check_attempt_count)
          Change.s3_check_limit Postprocess.lacks_image (λ r. is_some r.verified_image_key) h
    held-Idle (record_image_verified id u k) h =
        then-Idle (Change.check_key k) id u Postprocess.mark_verified (λ _. Postprocess.lacks_image)
          Postprocess.verify_reason h
    held-Idle (claim_llm_generation_attempt id u) h =
        claim-Idle id u Postprocess.count_llm_call (λ r. r.llm_generation_attempt_count)
          Change.llm_generation_limit Postprocess.has_image (λ r. is_some r.result_payload) h
    held-Idle (move_to_fallback id u s) h =
        then-Idle (Fallback.check_missing s) id u (λ _. Fallback.to_fallback)
          (λ _. Fallback.can_fall_back) Fallback.fall_back_reason h
    held-Idle (prepare_fallback id u t) h =
        then-Idle (Change.check_uuid t) id u Fallback.name_fallback Fallback.can_name_fallback
          Fallback.name_reason h
    held-Idle (record_fallback_image id u k) h =
        then-Idle (Change.check_key k) id u Fallback.store_fallback
          (λ _. Fallback.can_store_fallback) Fallback.store_reason h
    held-Idle (claim_fallback_attempt id u) h =
        claim-Idle id u Fallback.count_fallback (λ r. r.fallback_attempt_count)
          Change.fallback_limit Fallback.may_fall_back (λ r. is_some r.result_payload) h
    held-Idle (save_final_result id u p k) h =
        then-Idle (Publication.check_final id p k) id u Publication.save (λ _. Publication.can_save)
          Publication.save_reason h
    held-Idle (claim_result_message_attempt id u) h =
        claim-Idle id u Publication.count_message (λ r. r.result_message_attempt_count)
          Change.result_message_limit Publication.can_send
          (λ r. not (is_pending r.result_message_status)) h
    held-Idle (mark_result_published id u s) h =
        then-Idle (guard (is_terminal s)) id u (λ _. Publication.publish s)
          (λ _. Publication.can_publish s) Change.mismatch h
    held-Idle (mark_result_retry_exhausted id u) h =
        update-Idle id u Publication.exhaust Publication.is_exhausted false Change.mismatch h
    held-Idle (begin_submission id u t) h = submit-Idle limits id u t h
    held-Idle (begin_retry_submission id u p t) h = retry-Idle limits id u p t h
    held-Idle (begin_fallback id u t) h = fallback-Idle limits id u t h
    held-Idle (cancel_unsent id u t) h = cancel-Idle id u t h
    held-Idle command h = ground (arith, h)

    -- While the lease that one token holds on a job is valid, a call of a Worker for that job with another
    -- token reports no change, and leaves all tables as they are.
    pub lease-excludes :
        (command : Command) (id : ℕ) (t u : String) (r : Job)
        → find_job id db.jobs ≡ some r
        → lease_valid t c.now r ≡ true
        → worker_call command ≡ some (id, u)
        → t ≢ u
        → exec limits is_printable command c db ≡ (false, db)
    lease-excludes command id t u r found holds call other = held-Idle command (
        subst (HeldCall c db) (sym call)
          (record { holder = t; row = r; found = found; holds = holds; other = other }))
