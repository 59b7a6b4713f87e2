-- ===== src/Limiter/Release.antt =====
-- `finish_send`, `defer_sends`, `hold_sends`, `release_in_flight` and `cancel_unsent`.
use ktb4_15th_ai.Prelude.{
  ℕ, suc, ◌+◌, String, Bool, true, false, not, ◌&&◌, Option, none, some, List, ◌==◌, any, find,
  keep, max, is_some, is_none, coalesce, if◌then◌else◌,
}
use ktb4_15th_ai.Payload.{ℤ, pos, negsuc, Result, ok, ◌>>=◌, ◌>>◌}
use ktb4_15th_ai.Job.{Uuid, Time, Job, Attempt, received, is_status}
use ktb4_15th_ai.Store.{Db, LimiterRow, InFlight, Op, checked, find_job, has_task, write}
use ktb4_15th_ai.JobState.Change.{check_job_id, check_uuid, lease_valid}
use ktb4_15th_ai.JobState.NotAccepted.{of_task, of_job}
use ktb4_15th_ai.Limiter.Slot.{in_flight_of, send_of}

unfoldable pub finish_send : ℕ → Op (Unit {0})
finish_send id =
    checked (check_job_id id)
      λ id c db. (ok tt, record db { sends = keep (λ s. not (send_of id s)) db.sends })

abbrev pub hold_row : String → Time → LimiterRow → LimiterRow
hold_row reason now row = record row {
  send_hold_reason = coalesce row.send_hold_reason (some reason);
  send_hold_at = coalesce row.send_hold_at (some now);
}

-- `UPDATE` of the limiter's row, if it is there.
abbrev pub on_limiter : (LimiterRow → LimiterRow) → Db → Db
on_limiter f db = elim db.limiter [ none ↦ db | some row ↦ record db { limiter = some (f row) } ]

-- `GREATEST(next_send_at, now + seconds)`.
abbrev pub defer_row : Time → LimiterRow → LimiterRow
defer_row until row = record row { next_send_at = max row.next_send_at until }

-- A wait that cannot be represented as a time holds all calls.
unfoldable pub defer_sends : ℤ → Op Bool
defer_sends (negsuc n) c db = (ok false, db)
defer_sends (pos n) c db =
    if n == 0
    then (ok false, db)
    else if c.fits c.now n
    then (ok true, on_limiter (defer_row (c.now + n)) db)
    else (ok true, on_limiter (hold_row "retry_after_out_of_range" c.now) db)

unfoldable pub hold_sends : String → Op (Unit {0})
hold_sends reason c db = (ok tt, on_limiter (hold_row reason c.now) db)

-- The place of the job, of one task only if it is given.
abbrev pub released : ℕ → Option Uuid → InFlight → Bool
released id none f = in_flight_of id f
released id (some task) f = in_flight_of id f && f.task_uuid == task

abbrev pub optional_uuid : Option (Option Uuid) → Result (Option Uuid)
optional_uuid none = ok none
optional_uuid (some task) = do task ← check_uuid task; ok (some task)

unfoldable pub release_in_flight : ℕ → Option (Option Uuid) → Op Bool
release_in_flight id task =
    checked (do check_job_id id; optional_uuid task)
      λ task c db. (
        ok (any (released id task) db.in_flight),
        record db { in_flight = keep (λ f. not (released id task f)) db.in_flight },
      )

-- The attempt before the one with the task.
abbrev pub before_attempt : ℕ → List Attempt → Option Attempt → Option Attempt
before_attempt id rows none = none
before_attempt id rows (some a) = find (λ p. of_job id p && suc p.attempt_no == a.attempt_no) rows

abbrev pub previous_attempt : ℕ → Uuid → List Attempt → Option Attempt
previous_attempt id task rows =
    before_attempt id rows (find (λ a. of_task task a && of_job id a) rows)

-- The row as it was before the call that was not sent.
abbrev pub unsent : Option Attempt → Time → Job → Job
unsent none now r = record r { pruna_submit_started_at = none; updated_at = now }
unsent (some p) now r = record r {
  task_uuid = some p.task_uuid;
  pruna_submit_started_at = some p.started_at;
  pruna_not_accepted_at = p.not_accepted_at;
  pruna_retry_at = coalesce p.next_attempt_at (some now);
  updated_at = now;
}

abbrev pub can_cancel : Uuid → String → Time → Job → Bool
can_cancel task token now r =
    has_task task r
    && is_status r.status received
    && is_none r.runware_accepted_at
    && is_some r.pruna_submit_started_at
    && lease_valid token now r

unfoldable pub cancel_row : ℕ → String → Uuid → Option Job → Op Bool
unfolding lease_valid write
cancel_row id token task none c db = (ok false, db)
cancel_row id token task (some job) c db =
    if can_cancel task token c.now job
    then write db true (unsent (previous_attempt id task db.attempts) c.now job) (record db {
      attempts = keep (λ a. not (of_task task a)) db.attempts;
      in_flight = keep (λ f. not (in_flight_of id f)) db.in_flight;
      sends = keep (λ s. not (send_of id s)) db.sends;
    })
    else (ok false, db)

unfoldable pub cancel_unsent : ℕ → String → Option Uuid → Op Bool
unfolding cancel_row
cancel_unsent id token task =
    checked (do check_job_id id; check_uuid task)
      λ task c db. cancel_row id token task (find_job id db.jobs) c db
