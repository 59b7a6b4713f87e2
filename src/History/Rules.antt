-- ===== src/History/Rules.antt =====
-- Every transaction, and so every history, keeps the rules of the rows.
use ktb4_15th_ai.Prelude.{
  ℕ, ◌≡◌, refl, Bool, true, Option, some, none, List, [], ◌∷◌, arith, All, append-All, append-Rows,
}
use ktb4_15th_ai.Payload.{Result, ok, err}
use ktb4_15th_ai.Job.{Time, Job}
use ktb4_15th_ai.Store.{Db, Clock, Op, find_job}
use ktb4_15th_ai.JobTable.{NewJob, new_row, insert_row, create_row, check_new_job}
use ktb4_15th_ai.JobState.Lease
use ktb4_15th_ai.JobState.Submission
use ktb4_15th_ai.JobState.Events
use ktb4_15th_ai.JobState.Postprocess
use ktb4_15th_ai.JobState.Fallback
use ktb4_15th_ai.JobState.Publication
use ktb4_15th_ai.JobState.NotAccepted
use ktb4_15th_ai.JobState.NotAccepted.{applied}
use ktb4_15th_ai.JobTable
use ktb4_15th_ai.Limiter.Slot.{Limits}
use ktb4_15th_ai.Limiter.Begin
use ktb4_15th_ai.Limiter.Release
use ktb4_15th_ai.Rules.{IsValid, Evolves}
use ktb4_15th_ai.Rules.Rows.{
  Advances, Advances-refl, Evolves-refl, Rows-trans, Lawful, checked-Lawful,
}
use ktb4_15th_ai.Rules.Methods.{
  acquire_lease-Lawful, renew_lease-Lawful, release_lease-Lawful, prepare_pruna_submission-Lawful,
  mark_pruna_submit_started-Lawful, record_runware_accepted-Lawful, claim_s3_check_attempt-Lawful,
  record_image_verified-Lawful, claim_llm_generation_attempt-Lawful, move_to_fallback-Lawful,
  prepare_fallback-Lawful, record_fallback_image-Lawful, claim_fallback_attempt-Lawful,
  claim_result_message_attempt-Lawful, mark_result_published-Lawful,
  mark_result_retry_exhausted-Lawful, record_submission_accepted-Lawful, record_auth_hold-Lawful,
  record_pruna_succeeded-Lawful, fill_pruna_image_ref-Lawful, record_pruna_failed-Lawful,
  save_final_result-Lawful,
}
use ktb4_15th_ai.Rules.Reports.{record_not_accepted-Lawful, record_attempt_contradiction-Lawful}
use ktb4_15th_ai.Rules.Calls.{
  begin_submission-Lawful, begin_retry_submission-Lawful, begin_fallback-Lawful,
}
use ktb4_15th_ai.Rules.Releases.{
  cancel_unsent-Lawful, finish_send-Lawful, defer_sends-Lawful, hold_sends-Lawful,
  release_in_flight-Lawful,
}
use ktb4_15th_ai.History.{
  Command, create, acquire_lease, renew_lease, release_lease, prepare_pruna_submission,
  mark_pruna_submit_started, record_runware_accepted, record_submission_accepted, record_auth_hold,
  record_pruna_succeeded, fill_pruna_image_ref, record_pruna_failed, record_not_accepted,
  record_attempt_contradiction, claim_s3_check_attempt, record_image_verified,
  claim_llm_generation_attempt, move_to_fallback, prepare_fallback, record_fallback_image,
  claim_fallback_attempt, save_final_result, claim_result_message_attempt, mark_result_published,
  mark_result_retry_exhausted, begin_submission, begin_retry_submission, begin_fallback,
  finish_send, defer_sends, hold_sends, release_in_flight, cancel_unsent, told, exec, run,
}

-- A new row keeps the rules.
new_row-IsValid : (n : NewJob) (now : Time) → IsValid (new_row n now)
new_row-IsValid n now = ground arith

insert_row-Advances :
    (n : NewJob) (r : Option Job) (c : Clock) (db : Db)
    → All IsValid db.jobs
    → Advances db.jobs (insert_row n r c db).1.jobs
unfolding insert_row
insert_row-Advances n (some r) c db v = Advances-refl db.jobs v
insert_row-Advances n none c db v = (
  append-All IsValid db.jobs (new_row n c.lock ∷ []) v (new_row-IsValid n c.lock, tt),
  append-Rows Evolves Evolves-refl db.jobs (new_row n c.lock ∷ []),
)

create-Lawful : (n : NewJob) → Lawful (JobTable.create n)
unfolding JobTable.create
create-Lawful n =
    checked-Lawful (check_new_job n) create_row
      λ n _. record { at = λ c db. insert_row-Advances n (find_job n.fitting_job_id db.jobs) c db }

-- What a call reports does not change what it does.
told-db : {A : Type 0} (changed : A → Bool) (x : Result A × Db) → (told changed x).1 ≡ x.1
told-db changed (ok a, db) = refl
told-db changed (err e, db) = refl

-- A command that keeps the rules.
abbrev pub LawfulCommand : (Clock → Db → Bool × Db) → Type 0
LawfulCommand m = (c : Clock) (db : Db) → All IsValid db.jobs → Advances db.jobs (m c db).1.jobs

told-Lawful :
    {A : Type 0} (changed : A → Bool) (m : Op A)
    → Lawful m
    → LawfulCommand (λ c db. told changed (m c db))
told-Lawful changed m h c db v = rw (told-db changed) (h.at c db v)

module _ (limits : Limits) (is_printable : ℕ → Bool) where
  pub exec-Lawful : (command : Command) → LawfulCommand (exec limits is_printable command)
  unfolding exec
  exec-Lawful (create n) = told-Lawful (λ r. r.created) (JobTable.create n) (create-Lawful n)
  exec-Lawful (acquire_lease t id a d) =
      told-Lawful (λ r. r.acquired) (Lease.acquire_lease t id a d) (acquire_lease-Lawful t id a d)
  exec-Lawful (renew_lease id t d) =
      told-Lawful (λ r. r.applied) (Lease.renew_lease id t d) (renew_lease-Lawful id t d)
  exec-Lawful (release_lease id t) =
      told-Lawful (λ r. r.applied) (Lease.release_lease id t) (release_lease-Lawful id t)
  exec-Lawful (prepare_pruna_submission id t u k ai) =
      told-Lawful (λ r. r.applied) (Submission.prepare_pruna_submission id t u k ai)
        (prepare_pruna_submission-Lawful id t u k ai)
  exec-Lawful (mark_pruna_submit_started id t) =
      told-Lawful (λ r. r.applied) (Submission.mark_pruna_submit_started id t)
        (mark_pruna_submit_started-Lawful id t)
  exec-Lawful (record_runware_accepted id t u) =
      told-Lawful (λ r. r.applied) (Submission.record_runware_accepted id t u)
        (record_runware_accepted-Lawful id t u)
  exec-Lawful (record_submission_accepted u) =
      told-Lawful (λ r. r.applied) (Events.record_submission_accepted u)
        (record_submission_accepted-Lawful u)
  exec-Lawful (record_auth_hold u why) =
      told-Lawful (λ r. r.applied) (Events.record_auth_hold u why) (record_auth_hold-Lawful u why)
  exec-Lawful (record_pruna_succeeded u url i) =
      told-Lawful (λ r. r.applied) (Events.record_pruna_succeeded is_printable u url i)
        (record_pruna_succeeded-Lawful is_printable u url i)
  exec-Lawful (fill_pruna_image_ref u url i q) =
      told-Lawful (λ r. r.applied) (Events.fill_pruna_image_ref is_printable u url i q)
        (fill_pruna_image_ref-Lawful is_printable u url i q)
  exec-Lawful (record_pruna_failed u rec p) =
      told-Lawful (λ r. r.applied) (Events.record_pruna_failed u rec p)
        (record_pruna_failed-Lawful u rec p)
  exec-Lawful (record_not_accepted u code s w q) =
      told-Lawful (λ r. applied r.outcome) (NotAccepted.record_not_accepted u code s w q)
        (record_not_accepted-Lawful u code s w q)
  exec-Lawful (record_attempt_contradiction u why) =
      told-Lawful (λ r. r) (NotAccepted.record_attempt_contradiction u why)
        (record_attempt_contradiction-Lawful u why)
  exec-Lawful (claim_s3_check_attempt id t) =
      told-Lawful (λ r. r.applied) (Postprocess.claim_s3_check_attempt id t)
        (claim_s3_check_attempt-Lawful id t)
  exec-Lawful (record_image_verified id t k) =
      told-Lawful (λ r. r.applied) (Postprocess.record_image_verified id t k)
        (record_image_verified-Lawful id t k)
  exec-Lawful (claim_llm_generation_attempt id t) =
      told-Lawful (λ r. r.applied) (Postprocess.claim_llm_generation_attempt id t)
        (claim_llm_generation_attempt-Lawful id t)
  exec-Lawful (move_to_fallback id t s) =
      told-Lawful (λ r. r.applied) (Fallback.move_to_fallback id t s)
        (move_to_fallback-Lawful id t s)
  exec-Lawful (prepare_fallback id t u) =
      told-Lawful (λ r. r.applied) (Fallback.prepare_fallback id t u)
        (prepare_fallback-Lawful id t u)
  exec-Lawful (record_fallback_image id t k) =
      told-Lawful (λ r. r.applied) (Fallback.record_fallback_image id t k)
        (record_fallback_image-Lawful id t k)
  exec-Lawful (claim_fallback_attempt id t) =
      told-Lawful (λ r. r.applied) (Fallback.claim_fallback_attempt id t)
        (claim_fallback_attempt-Lawful id t)
  exec-Lawful (save_final_result id t p k) =
      told-Lawful (λ r. r.applied) (Publication.save_final_result id t p k)
        (save_final_result-Lawful id t p k)
  exec-Lawful (claim_result_message_attempt id t) =
      told-Lawful (λ r. r.applied) (Publication.claim_result_message_attempt id t)
        (claim_result_message_attempt-Lawful id t)
  exec-Lawful (mark_result_published id t s) =
      told-Lawful (λ r. r.applied) (Publication.mark_result_published id t s)
        (mark_result_published-Lawful id t s)
  exec-Lawful (mark_result_retry_exhausted id t) =
      told-Lawful (λ r. r.applied) (Publication.mark_result_retry_exhausted id t)
        (mark_result_retry_exhausted-Lawful id t)
  exec-Lawful (begin_submission id t u) =
      told-Lawful (λ r. r.granted) (Begin.begin_submission limits id t u)
        (begin_submission-Lawful limits id t u)
  exec-Lawful (begin_retry_submission id t p u) =
      told-Lawful (λ r. r.granted) (Begin.begin_retry_submission limits id t p u)
        (begin_retry_submission-Lawful limits id t p u)
  exec-Lawful (begin_fallback id t u) =
      told-Lawful (λ r. r.granted) (Begin.begin_fallback limits id t u)
        (begin_fallback-Lawful limits id t u)
  exec-Lawful (finish_send id) =
      told-Lawful (λ _. true) (Release.finish_send id) (finish_send-Lawful id)
  exec-Lawful (defer_sends d) = told-Lawful (λ r. r) (Release.defer_sends d) (defer_sends-Lawful d)
  exec-Lawful (hold_sends why) =
      told-Lawful (λ _. true) (Release.hold_sends why) (hold_sends-Lawful why)
  exec-Lawful (release_in_flight id u) =
      told-Lawful (λ r. r) (Release.release_in_flight id u) (release_in_flight-Lawful id u)
  exec-Lawful (cancel_unsent id t u) =
      told-Lawful (λ r. r) (Release.cancel_unsent id t u) (cancel_unsent-Lawful id t u)

  pub run-Advances :
      (history : List (Command × Clock)) (db : Db)
      → All IsValid db.jobs
      → Advances db.jobs (run limits is_printable history db).jobs
  unfolding run
  run-Advances [] db v = Advances-refl db.jobs v
  run-Advances ((command, c) ∷ rest) db v =
      let (valid, first) = exec-Lawful command c db v in
      let (end, then) = run-Advances rest (exec limits is_printable command c db).1 valid in
      (end, Rows-trans db.jobs _ _ first then)
