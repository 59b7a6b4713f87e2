-- ===== src/Rules/Releases.antt =====
-- The methods that give places back keep the rules of the row: only `cancel_unsent` changes it.
use ktb4_15th_ai.Prelude.{
  ℕ, String, ◌≡◌, refl, true, Option, some, none, arith, inl, inr, Bool-cases, Option-cases,
  find-All, All,
}
use ktb4_15th_ai.Payload.{ℤ, pos, negsuc, ◌>>◌}
use ktb4_15th_ai.Job.{Uuid, Time, Job, Attempt}
use ktb4_15th_ai.Store.{Db, Clock, find_job, has_id}
use ktb4_15th_ai.JobState.Change.{check_job_id, check_uuid}
use ktb4_15th_ai.Limiter.Release.{
  finish_send, defer_sends, hold_sends, release_in_flight, unsent, can_cancel, previous_attempt,
  cancel_row, cancel_unsent,
}
use ktb4_15th_ai.Rules.{IsValid, Evolves}
use ktb4_15th_ai.Rules.Rows.{Advances, Advances-refl, write-Advances, Lawful, checked-Lawful}

unsent-Sound :
    (p : Option Attempt) (task : Uuid) (token : String) (now : Time) (r : Job)
    → IsValid r
    → can_cancel task token now r ≡ true
    → IsValid (unsent p now r) × Evolves r (unsent p now r)
unsent-Sound none task token now r v h = (ground arith, ground arith)
unsent-Sound (some p) task token now r v h = (ground arith, ground arith)

cancel_row-Advances :
    (id : ℕ) (token : String) (task : Uuid) (c : Clock) (db : Db)
    → All IsValid db.jobs
    → Advances db.jobs (cancel_row id token task (find_job id db.jobs) c db).1.jobs
unfolding cancel_row
cancel_row-Advances id token task c db v = elim (Option-cases (find_job id db.jobs)) [
  | inl missing ↦ rw missing (Advances-refl db.jobs v)
  | inr (r, e) ↦ elim (Bool-cases (can_cancel task token c.now r)) [
    | inl fits ↦
        let valid = find-All IsValid (has_id id) db.jobs v e in
        let (sound, step) =
          unsent-Sound (previous_attempt id task db.attempts) task token c.now r valid fits in
        rw (e, fits) (write-Advances id true r _ db _ e refl v sound step)
    | inr breaks ↦ rw (e, breaks) (Advances-refl db.jobs v)
  ]
]

pub cancel_unsent-Lawful :
    (id : ℕ) (token : String) (task : Option Uuid) → Lawful (cancel_unsent id token task)
unfolding cancel_unsent
cancel_unsent-Lawful id token task =
    checked-Lawful (do check_job_id id; check_uuid task)
      (λ task c db. cancel_row id token task (find_job id db.jobs) c db)
      λ task _. record { at = cancel_row-Advances id token task }

pub finish_send-Lawful : (id : ℕ) → Lawful (finish_send id)
unfolding finish_send
finish_send-Lawful id = record { at = λ c db v. ground (arith, Advances-refl db.jobs v) }

pub defer_sends-Lawful : (delay : ℤ) → Lawful (defer_sends delay)
unfolding defer_sends
defer_sends-Lawful (negsuc n) = record { at = λ c db v. Advances-refl db.jobs v }
defer_sends-Lawful (pos n) = record { at = λ c db v. ground (arith, Advances-refl db.jobs v) }

pub hold_sends-Lawful : (reason : String) → Lawful (hold_sends reason)
unfolding hold_sends
hold_sends-Lawful reason = record { at = λ c db v. ground (arith, Advances-refl db.jobs v) }

pub release_in_flight-Lawful :
    (id : ℕ) (task : Option (Option Uuid)) → Lawful (release_in_flight id task)
unfolding release_in_flight
release_in_flight-Lawful id none = record { at = λ c db v. ground (arith, Advances-refl db.jobs v) }
release_in_flight-Lawful id (some task) = record {
  at = λ c db v. ground (arith, Advances-refl db.jobs v);
}
