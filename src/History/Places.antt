-- ===== src/History/Places.antt =====
-- The promises of `PrunaLimiter`, over any history of transactions: at most so many jobs are in flight,
-- at most so many calls are being sent, and there is a time between two calls.
use ktb4_15th_ai.Prelude.{
  ℕ, ◌+◌, ◌≤◌, ◌≡◌, refl, String, Bool, true, false, not, ◌&&◌, Option, none, some, List, arith,
  length, any, keep, count, ltb, leb, length-keep-le, length-append_one, count-not-any,
  length-keep-count, Bool-cases, inl, inr,
}
use ktb4_15th_ai.Payload.{Result, ok, err, ◌>>◌}
use ktb4_15th_ai.Job.{Uuid, Time, Job, Attempt}
use ktb4_15th_ai.Store.{Db, LimiterRow, InFlight, Send, Clock, Op, checked, write, find_job}
use ktb4_15th_ai.Limiter.Slot.{
  Limits, SubmissionGrant, Slot, refused, taken, clash, take_slot, take_send, add_in_flight,
  add_send, in_flight_of, send_of, is_running, slot_taken, task_taken, grant,
}
use ktb4_15th_ai.Limiter.Begin.{
  write_attempt, first_taken, retry_taken, fallback_taken, submit_locked, retry_locked,
  fallback_locked, located, limited, with_job, with_limiter, begin_submission,
  begin_retry_submission, begin_fallback, check_uuids,
}
use ktb4_15th_ai.JobState.Change.{check_job_id, check_uuid}
use ktb4_15th_ai.History.{told}

-- The tables are within the limits.
pub record Within (l : Limits) (db : Db) : Type 0 where
  pub in_flight : length db.in_flight ≤ l.max_in_flight
  pub sends : length db.sends ≤ l.max_concurrent_sends

add_in_flight-le :
    (l : Limits) (id : ℕ) (task : Uuid) (now : Time) (rows : List InFlight)
    → length rows ≤ l.max_in_flight
    → (not (any (in_flight_of id) rows)
        && leb l.max_in_flight (count (λ f. not (in_flight_of id f)) rows))
      ≡ false
    → length (add_in_flight id task now rows) ≤ l.max_in_flight
add_in_flight-le l id task now rows h k = ground (
  arith,
  count-not-any (in_flight_of id) rows,
  length-append_one rows (record { fitting_job_id = id; task_uuid = task; acquired_at = now }),
)

add_send-le :
    (l : Limits) (id : ℕ) (until : Time) (rows : List Send)
    → leb l.max_concurrent_sends (count (λ s. not (send_of id s)) rows) ≡ false
    → length (add_send id until rows) ≤ l.max_concurrent_sends
add_send-le l id until rows h = ground (
  arith,
  length-keep-count (λ s. not (send_of id s)) rows,
  length-append_one (keep (λ s. not (send_of id s)) rows)
      (record { fitting_job_id = id; held_until = until }),
)

-- The time before which no call is sent; without the row no call is sent at all.
abbrev pub next_of : Option LimiterRow → Time
next_of none = 0
next_of (some row) = row.next_send_at

-- What a call at a time leaves: the limits are kept, and the next call is not sooner than before. If
-- the place for a call was granted, it was its time, and the next one is an interval later.
pub record Orderly (l : Limits) (now : Time) (before : Db) (granted : Bool) (after : Db)
    : Type 0 where
  pub within : Within l before → Within l after
  pub later : next_of before.limiter ≤ next_of after.limiter
  pub spaced : granted ≡ true → next_of before.limiter ≤ now
  pub waits : granted ≡ true → now + l.min_send_interval ≤ next_of after.limiter

abbrev pub OrderlySlot : Limits → Time → Db → Slot → Type 0
OrderlySlot l now before (refused g db) = Orderly l now before false db × (g.granted ≡ false)
OrderlySlot l now before (taken db) = Orderly l now before true db
OrderlySlot l now before clash = Unit

pub Orderly-refl : (l : Limits) (now : Time) (db : Db) → Orderly l now db false db
Orderly-refl l now db = ground arith

module _ (l : Limits) (id : ℕ) (task : Uuid) (now : Time) (row : LimiterRow) (db : Db)
    (there : db.limiter ≡ some row) where
  slot_taken-Orderly :
      ltb now row.next_send_at ≡ false
      → (not (any (in_flight_of id) db.in_flight)
          && leb l.max_in_flight (count (λ f. not (in_flight_of id f)) db.in_flight))
        ≡ false
      → leb l.max_concurrent_sends
          (count (λ s. not (send_of id s)) (keep (is_running now) db.sends))
        ≡ false
      → Orderly l now db true (slot_taken l id task now row db)
  slot_taken-Orderly soon full busy = record {
    within = λ h. record {
      in_flight = add_in_flight-le l id task now db.in_flight h.in_flight full;
      sends = add_send-le l id (now + l.send_hold) (keep (is_running now) db.sends) busy;
    };
    later = ground (arith, there);
    spaced = ground (arith, there);
    waits = λ _. omega arith;
  }

  take_send-Orderly :
      ltb now row.next_send_at ≡ false
      → (not (any (in_flight_of id) db.in_flight)
          && leb l.max_in_flight (count (λ f. not (in_flight_of id f)) db.in_flight))
        ≡ false
      → OrderlySlot l now db (take_send l id task now row db)
  unfolding take_send
  take_send-Orderly soon full =
      elim (Bool-cases (
        leb l.max_concurrent_sends
          (count (λ s. not (send_of id s)) (keep (is_running now) db.sends)))) [
            | inl busy ↦ rw busy (ground (arith, length-keep-le (is_running now) db.sends))
            | inr free ↦ elim (Bool-cases (task_taken id task db.in_flight)) [
              | inl same ↦ rw (free, same) tt
              | inr new ↦ rw (free, new) (slot_taken-Orderly soon full free)
            ]
          ]

  take_slot-Orderly : OrderlySlot l now db (take_slot l id task now row db)
  unfolding take_slot
  take_slot-Orderly = ground (arith, Orderly-refl l now db, take_send-Orderly)

-- `Orderly`, of what a start of a call returns or raises.
abbrev pub OrderlyStart : Limits → Time → Db → Result SubmissionGrant × Db → Type 0
OrderlyStart l now before x =
    Orderly l now before (told (λ r. r.granted) x).0 (told (λ r. r.granted) x).1

module _ (l : Limits) (now : Time) (before : Db) where
  write-Orderly :
      (row : Job) (db : Db)
      → Orderly l now before true db
      → OrderlyStart l now before (write before (grant now) row db)
  unfolding write
  write-Orderly row db h = ground (arith, Orderly-refl l now before)

  write_attempt-Orderly :
      (row : Job) (a : Attempt) (db : Db)
      → Orderly l now before true db
      → OrderlyStart l now before (write_attempt before (grant now) row a db)
  unfolding write_attempt write
  write_attempt-Orderly row a db h = ground (arith, Orderly-refl l now before)

  first_taken-Orderly :
      (id : ℕ) (task : Uuid) (job : Job) (s : Slot)
      → OrderlySlot l now before s
      → OrderlyStart l now before (first_taken id task now before job s)
  first_taken-Orderly id task job (refused g db) h = rw h.1 h.0
  first_taken-Orderly id task job clash h = Orderly-refl l now before
  first_taken-Orderly id task job (taken db) h = write_attempt-Orderly _ _ db h

  retry_taken-Orderly :
      (id : ℕ) (task : Uuid) (job : Job) (s : Slot)
      → OrderlySlot l now before s
      → OrderlyStart l now before (retry_taken id task now before job s)
  retry_taken-Orderly id task job (refused g db) h = rw h.1 h.0
  retry_taken-Orderly id task job clash h = Orderly-refl l now before
  retry_taken-Orderly id task job (taken db) h = write_attempt-Orderly _ _ db h

  fallback_taken-Orderly :
      (job : Job) (s : Slot)
      → OrderlySlot l now before s
      → OrderlyStart l now before (fallback_taken now before job s)
  fallback_taken-Orderly job (refused g db) h = rw h.1 h.0
  fallback_taken-Orderly job clash h = Orderly-refl l now before
  fallback_taken-Orderly job (taken db) h = write-Orderly _ db h

module _ (l : Limits) (id : ℕ) (token : String) (row : LimiterRow) (job : Job) (c : Clock) (db : Db)
    (there : db.limiter ≡ some row) where
  submit_locked-Orderly :
      (task : Uuid) → OrderlyStart l c.now db (submit_locked l id token task row job c db)
  unfolding submit_locked
  submit_locked-Orderly task = ground (
    arith,
    Orderly-refl l c.now db,
    first_taken-Orderly l c.now db id task job (take_slot l id task c.now row db)
        (take_slot-Orderly l id task c.now row db there),
  )

  retry_locked-Orderly :
      (previous task : Uuid)
      → OrderlyStart l c.now db (retry_locked l id token previous task row job c db)
  unfolding retry_locked
  retry_locked-Orderly previous task = ground (
    arith,
    Orderly-refl l c.now db,
    retry_taken-Orderly l c.now db id task job (take_slot l id task c.now row db)
        (take_slot-Orderly l id task c.now row db there),
  )

  fallback_locked-Orderly :
      (task : Uuid) → OrderlyStart l c.now db (fallback_locked l id token task row job c db)
  unfolding fallback_locked
  fallback_locked-Orderly task = ground (
    arith,
    Orderly-refl l c.now db,
    fallback_taken-Orderly l c.now db job (take_slot l id task c.now row db)
        (take_slot-Orderly l id task c.now row db there),
  )

module _ (l : Limits) (id : ℕ) (f : LimiterRow → Job → Op SubmissionGrant)
    (h : (row : LimiterRow) (job : Job) (c : Clock) (db : Db)
      → db.limiter ≡ some row
      → OrderlyStart l c.now db (f row job c db)) where
  located-Orderly :
      (row : LimiterRow) (job : Option Job) (c : Clock) (db : Db)
      → db.limiter ≡ some row
      → OrderlyStart l c.now db (located (f row) job c db)
  located-Orderly row none c db e = Orderly-refl l c.now db
  located-Orderly row (some job) c db e = h row job c db e

  limited-Orderly :
      (row : Option LimiterRow) (c : Clock) (db : Db)
      → db.limiter ≡ row
      → OrderlyStart l c.now db (limited (λ row. with_job id (f row)) row c db)
  limited-Orderly none c db e = Orderly-refl l c.now db
  limited-Orderly (some row) c db e = located-Orderly row (find_job id db.jobs) c db e

checked-Orderly :
    {A : Type 0} (l : Limits) (m : Result A) (f : A → Op SubmissionGrant) (c : Clock) (db : Db)
    → ((a : A) → OrderlyStart l c.now db (f a c db))
    → OrderlyStart l c.now db (checked m f c db)
checked-Orderly l (ok a) f c db h = h a
checked-Orderly l (err e) f c db h = Orderly-refl l c.now db

module _ (l : Limits) (id : ℕ) (token : String) (c : Clock) (db : Db) where
  pub begin_submission-Orderly :
      (task : Option Uuid) → OrderlyStart l c.now db (begin_submission l id token task c db)
  unfolding begin_submission
  begin_submission-Orderly task =
      checked-Orderly l (do check_job_id id; check_uuid task)
        (λ task. with_limiter λ row. with_job id (submit_locked l id token task row)) c db
        λ task.
          limited-Orderly l id (submit_locked l id token task)
            (λ row job c db e. submit_locked-Orderly l id token row job c db e task) db.limiter c db
            refl

  pub begin_retry_submission-Orderly :
      (previous task : Option Uuid)
      → OrderlyStart l c.now db (begin_retry_submission l id token previous task c db)
  unfolding begin_retry_submission
  begin_retry_submission-Orderly previous task =
      checked-Orderly l (do check_job_id id; check_uuids previous task)
        (λ tasks. with_limiter λ row. with_job id (retry_locked l id token tasks.0 tasks.1 row)) c
        db
        λ tasks.
          limited-Orderly l id (retry_locked l id token tasks.0 tasks.1)
            (λ row job c db e. retry_locked-Orderly l id token row job c db e tasks.0 tasks.1)
            db.limiter c db refl

  pub begin_fallback-Orderly :
      (task : Option Uuid) → OrderlyStart l c.now db (begin_fallback l id token task c db)
  unfolding begin_fallback
  begin_fallback-Orderly task =
      checked-Orderly l (do check_job_id id; check_uuid task)
        (λ task. with_limiter λ row. with_job id (fallback_locked l id token task row)) c db
        λ task.
          limited-Orderly l id (fallback_locked l id token task)
            (λ row job c db e. fallback_locked-Orderly l id token row job c db e task) db.limiter c
            db refl
