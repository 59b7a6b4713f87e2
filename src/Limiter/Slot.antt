-- ===== src/Limiter/Slot.antt =====
-- The settings and the answers of `PrunaLimiter`, and `_take_slot`.
use ktb4_15th_ai.Prelude.{
  ℕ, ◌+◌, ◌-◌, Bool, true, false, not, ◌&&◌, Option, none, some, List, [], ◌∷◌, ◌++◌, ◌==◌, ltb,
  leb, any, keep, count, is_some, if◌then◌else◌,
}
use ktb4_15th_ai.Job.{Uuid, Time}
use ktb4_15th_ai.Store.{Db, LimiterRow, InFlight, Send}

-- The settings of the limiter; durations in microseconds.
pub record Limits : Type 0 where
  pub max_in_flight : ℕ
  pub max_concurrent_sends : ℕ
  pub min_send_interval : ℕ
  pub send_hold : ℕ

-- `__init__` refuses other settings.
unfoldable pub valid_limits : Limits → Bool
valid_limits l = leb 1 l.max_in_flight && leb 1 l.max_concurrent_sends && ltb 0 l.send_hold

-- `SubmissionReason`.
pub data SubmissionReason : Type 0 where
  granted not_found lease_invalid state_mismatch already_started : SubmissionReason
  in_flight_full interval_wait send_hold fallback_limit_reached : SubmissionReason
  other_attempt_in_flight sends_full retry_wait retry_limit_reached : SubmissionReason

-- `SubmissionGrant`.
pub record SubmissionGrant : Type 0 where
  pub granted : Bool
  pub reason : SubmissionReason
  pub wait : Option ℕ
  pub started_at : Option Time

abbrev pub refusal : SubmissionReason → SubmissionGrant
refusal why = record { granted = false; reason = why; wait = none; started_at = none }

abbrev pub wait_refusal : SubmissionReason → ℕ → SubmissionGrant
wait_refusal why wait = record {
  granted = false;
  reason = why;
  wait = some wait;
  started_at = none;
}

abbrev pub grant : Time → SubmissionGrant
grant now = record { granted = true; reason = granted; wait = none; started_at = some now }

abbrev pub in_flight_of : ℕ → InFlight → Bool
in_flight_of id f = f.fitting_job_id == id

abbrev pub send_of : ℕ → Send → Bool
send_of id s = s.fitting_job_id == id

abbrev pub is_running : Time → Send → Bool
is_running now s = ltb now s.held_until

-- `INSERT ... ON CONFLICT (fitting_job_id) DO NOTHING`.
abbrev pub add_in_flight : ℕ → Uuid → Time → List InFlight → List InFlight
add_in_flight id task now rows =
    if any (in_flight_of id) rows
    then rows
    else rows ++ record { fitting_job_id = id; task_uuid = task; acquired_at = now } ∷ []

-- The place of another job has the task: the table does not take it twice.
abbrev pub task_taken : ℕ → Uuid → List InFlight → Bool
task_taken id task rows = not (any (in_flight_of id) rows) && any (λ f. f.task_uuid == task) rows

-- `INSERT ... ON CONFLICT (fitting_job_id) DO UPDATE SET held_until`.
abbrev pub add_send : ℕ → Time → List Send → List Send
add_send id until rows =
    keep (λ s. not (send_of id s)) rows ++ record { fitting_job_id = id; held_until = until } ∷ []

-- What `_take_slot` does once nothing refuses the call.
abbrev pub slot_taken : Limits → ℕ → Uuid → Time → LimiterRow → Db → Db
slot_taken l id task now row db = record db {
  in_flight = add_in_flight id task now db.in_flight;
  sends = add_send id (now + l.send_hold) (keep (is_running now) db.sends);
  limiter = some (record row { next_send_at = now + l.min_send_interval });
}

-- How `_take_slot` ends: with a refusal, whose changes stay, with the place taken, or with an error.
pub data Slot : Type 0 where
  refused : SubmissionGrant → Db → Slot
  taken : Db → Slot
  clash : Slot

module _ (l : Limits) (id : ℕ) (task : Uuid) (now : Time) (row : LimiterRow) where
  -- The places of calls that are being sent: those that have run out are cleared first.
  unfoldable pub take_send : Db → Slot
  take_send db =
      let running = keep (is_running now) db.sends in
      if leb l.max_concurrent_sends (count (λ s. not (send_of id s)) running)
      then refused (refusal sends_full) (record db { sends = running })
      else if task_taken id task db.in_flight
      then clash
      else taken (slot_taken l id task now row db)

  unfoldable pub take_slot : Db → Slot
  unfolding take_send
  take_slot db =
      if not (any (in_flight_of id) db.in_flight)
        && leb l.max_in_flight (count (λ f. not (in_flight_of id f)) db.in_flight)
      then refused (refusal in_flight_full) db
      else if is_some row.send_hold_reason
      then refused (refusal send_hold) db
      else if ltb now row.next_send_at
      then refused (wait_refusal interval_wait (row.next_send_at - now)) db
      else take_send db
