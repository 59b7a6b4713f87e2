-- ===== src/History/Attempts.antt =====
-- The calls that are recorded for a job over a history: numbered 1 to 4, each number once.
use ktb4_15th_ai.Prelude.{
  ℕ, ◌+◌, ◌≤◌, ◌≡◌, refl, String, Bool, false, not, ◌&&◌, Option, none, some, List, [], ◌∷◌, ◌++◌,
  arith, ◌==◌, All, any, count, keep, amend, count-append, count-amend, count-none, count-keep-le,
  amend-All, keep-All, append-All, Bool-cases, inl, inr,
}
use ktb4_15th_ai.Job.{Uuid, Time, Job, Attempt}
use ktb4_15th_ai.JobState.NotAccepted.{of_job, of_task}
use ktb4_15th_ai.Payload.{Result, ok, err, ◌>>◌}
use ktb4_15th_ai.Store.{Db, LimiterRow, Clock, Op, checked, write, find_job}
use ktb4_15th_ai.JobState.Change.{check_job_id, check_uuid}
use ktb4_15th_ai.Limiter.Slot.{
  Limits, SubmissionGrant, Slot, refused, taken, clash, take_slot, take_send,
}
use ktb4_15th_ai.Limiter.Begin.{
  attempt_fits, write_attempt, first_taken, retry_taken, fallback_taken, submit_locked,
  retry_locked, fallback_locked, located, limited, with_job, with_limiter, check_uuids,
}
use ktb4_15th_ai.Limiter.Begin
use ktb4_15th_ai.Limiter.Release
use ktb4_15th_ai.History.{told}

-- The attempt of a job with a number.
abbrev pub numbered : ℕ → ℕ → Attempt → Bool
numbered id n a = of_job id a && a.attempt_no == n

abbrev pub InRange : Attempt → Type 0
InRange a = (1 ≤ a.attempt_no) × (a.attempt_no ≤ 4)

-- The numbers of a job's attempts are 1 to 4, and no two are the same.
pub record Numbered (rows : List Attempt) : Type 0 where
  pub range : All InRange rows
  pub unique : (id n : ℕ) → count (numbered id n) rows ≤ 1

-- So there are at most four.
count-split :
    (id : ℕ) (rows : List Attempt)
    → All InRange rows
    → count (of_job id) rows
      ≡ count (numbered id 1) rows
        + count (numbered id 2) rows
        + count (numbered id 3) rows
        + count (numbered id 4) rows
count-split id [] h = refl
count-split id (a ∷ rows) h = ground (arith, count-split id rows h.1)

pub Numbered-le : (id : ℕ) (rows : List Attempt) → Numbered rows → count (of_job id) rows ≤ 4
Numbered-le id rows h =
    omega (
      arith,
      count-split id rows h.range,
      h.unique id 1,
      h.unique id 2,
      h.unique id 3,
      h.unique id 4,
    )

keep-Numbered : (p : Attempt → Bool) (rows : List Attempt) → Numbered rows → Numbered (keep p rows)
keep-Numbered p rows h = record {
  range = keep-All InRange p rows h.range;
  unique = λ id n. omega (arith, count-keep-le (numbered id n) p rows, h.unique id n);
}

-- A change that keeps the job and the number of an attempt.
pub amend-Numbered :
    (p : Attempt → Bool) (f : Attempt → Attempt) (rows : List Attempt)
    → ((a : Attempt) → (f a).fitting_job_id ≡ a.fitting_job_id)
    → ((a : Attempt) → (f a).attempt_no ≡ a.attempt_no)
    → Numbered rows
    → Numbered (amend p f rows)
amend-Numbered p f rows job number h = record {
  range = amend-All p f InRange rows (λ a r. ground (arith, number a)) h.range;
  unique = λ id n. omega (
    arith,
    count-amend p f (numbered id n) rows (λ a. ground (arith, job a, number a)),
    h.unique id n,
  );
}

count-one : (p : Attempt → Bool) (a : Attempt) → count p (a ∷ []) ≤ 1
count-one p a = ground arith

count-other : (p : Attempt → Bool) (a : Attempt) → p a ≡ false → count p (a ∷ []) ≡ 0
count-other p a h = ground (arith, h)

-- A new attempt with a number that its job does not have yet.
pub append-Numbered :
    (a : Attempt) (rows : List Attempt)
    → InRange a
    → any (numbered a.fitting_job_id a.attempt_no) rows ≡ false
    → Numbered rows
    → Numbered (rows ++ a ∷ [])
append-Numbered a rows range new h = record {
  range = append-All InRange rows (a ∷ []) h.range (range, tt);
  unique = λ id n.
      let total = count-append (numbered id n) rows (a ∷ []) in
      elim (Bool-cases (numbered id n a)) [
        | inl same ↦ omega (
          arith,
          total,
          count-one (numbered id n) a,
          count-none (numbered a.fitting_job_id a.attempt_no) (numbered id n) rows
              (λ b k. ground arith) new,
        )
        | inr other ↦ omega (arith, total, count-other (numbered id n) a other, h.unique id n)
      ];
}

-- What a method leaves, whatever it returns or raises.
abbrev pub Keeps : {A : Type 0} → Db → Result A × Db → Type 0
Keeps before x = Numbered before.attempts → Numbered x.1.attempts

pub checked-Keeps :
    {A B : Type 0} (m : Result A) (f : A → Op B) (c : Clock) (db : Db)
    → ((a : A) → Keeps db (f a c db))
    → Keeps db (checked m f c db)
checked-Keeps (ok a) f c db h = h a
checked-Keeps (err e) f c db h = λ n. n

pub told-Keeps :
    {A : Type 0} (before : Db) (changed : A → Bool) (x : Result A × Db)
    → Keeps before x
    → Numbered before.attempts
    → Numbered (told changed x).1.attempts
told-Keeps before changed (ok a, db) h = h
told-Keeps before changed (err e, db) h = h

-- `_take_slot` does not touch the attempts.
abbrev SameAttempts : Db → Slot → Type 0
SameAttempts before (refused g db) = db.attempts ≡ before.attempts
SameAttempts before (taken db) = db.attempts ≡ before.attempts
SameAttempts before clash = Unit

module _ (before : Db) where
  take_slot-SameAttempts :
      (l : Limits) (id : ℕ) (task : Uuid) (now : Time) (row : LimiterRow)
      → SameAttempts before (take_slot l id task now row before)
  unfolding take_slot take_send
  take_slot-SameAttempts l id task now row = ground arith

  pub write-Keeps :
      {A : Type 0} (a : A) (row : Job) (db : Db)
      → (Numbered before.attempts → Numbered db.attempts)
      → Keeps before (write before a row db)
  unfolding write
  write-Keeps a row db h = λ n. let kept = h n in ground (arith, kept, n)

  write_attempt-Keeps :
      (g : SubmissionGrant) (row : Job) (a : Attempt) (db : Db)
      → db.attempts ≡ before.attempts
      → Keeps before (write_attempt before g row a db)
  unfolding write_attempt
  write_attempt-Keeps g row a db same = elim (Bool-cases (attempt_fits a db.attempts)) [
    | inl fits ↦ rw fits (
        write-Keeps g row (record db { attempts = db.attempts ++ a ∷ [] })
          λ n. append-Numbered a db.attempts (ground arith) (ground (arith, fits)) (rw same n))
    | inr breaks ↦ rw breaks λ n. n
  ]

  first_taken-Keeps :
      (id : ℕ) (task : Uuid) (now : Time) (job : Job) (s : Slot)
      → SameAttempts before s
      → Keeps before (first_taken id task now before job s)
  first_taken-Keeps id task now job (refused g db) same = rw same λ n. n
  first_taken-Keeps id task now job clash same = λ n. n
  first_taken-Keeps id task now job (taken db) same = write_attempt-Keeps _ _ _ db same

  retry_taken-Keeps :
      (id : ℕ) (task : Uuid) (now : Time) (job : Job) (s : Slot)
      → SameAttempts before s
      → Keeps before (retry_taken id task now before job s)
  retry_taken-Keeps id task now job (refused g db) same = rw same λ n. n
  retry_taken-Keeps id task now job clash same = λ n. n
  retry_taken-Keeps id task now job (taken db) same = write_attempt-Keeps _ _ _ db same

  fallback_taken-Keeps :
      (now : Time) (job : Job) (s : Slot)
      → SameAttempts before s
      → Keeps before (fallback_taken now before job s)
  fallback_taken-Keeps now job (refused g db) same = rw same λ n. n
  fallback_taken-Keeps now job clash same = λ n. n
  fallback_taken-Keeps now job (taken db) same = write-Keeps _ _ db (rw same λ n. n)

module _ (l : Limits) (id : ℕ) (token : String) (row : LimiterRow) (job : Job) (c : Clock)
    (db : Db) where
  submit_locked-holds :
      (P : List Attempt → Type 0) (task : Uuid)
      → P db.attempts
      → P (first_taken id task c.now db job (take_slot l id task c.now row db)).1.attempts
      → P (submit_locked l id token task row job c db).1.attempts
  unfolding submit_locked
  submit_locked-holds P task start sent = ground (arith, start, sent)

  submit_locked-Keeps : (task : Uuid) → Keeps db (submit_locked l id token task row job c db)
  submit_locked-Keeps task n = submit_locked-holds Numbered task n (
      first_taken-Keeps db id task c.now job (take_slot l id task c.now row db)
        (take_slot-SameAttempts db l id task c.now row) n)

  retry_locked-holds :
      (P : List Attempt → Type 0) (previous task : Uuid)
      → P db.attempts
      → P (retry_taken id task c.now db job (take_slot l id task c.now row db)).1.attempts
      → P (retry_locked l id token previous task row job c db).1.attempts
  unfolding retry_locked
  retry_locked-holds P previous task start sent = ground (arith, start, sent)

  retry_locked-Keeps :
      (previous task : Uuid) → Keeps db (retry_locked l id token previous task row job c db)
  retry_locked-Keeps previous task n = retry_locked-holds Numbered previous task n (
      retry_taken-Keeps db id task c.now job (take_slot l id task c.now row db)
        (take_slot-SameAttempts db l id task c.now row) n)

  fallback_locked-holds :
      (P : List Attempt → Type 0) (task : Uuid)
      → P db.attempts
      → P (fallback_taken c.now db job (take_slot l id task c.now row db)).1.attempts
      → P (fallback_locked l id token task row job c db).1.attempts
  unfolding fallback_locked
  fallback_locked-holds P task start sent = ground (arith, start, sent)

  fallback_locked-Keeps : (task : Uuid) → Keeps db (fallback_locked l id token task row job c db)
  fallback_locked-Keeps task n = fallback_locked-holds Numbered task n (
      fallback_taken-Keeps db c.now job (take_slot l id task c.now row db)
        (take_slot-SameAttempts db l id task c.now row) n)

module _ (id : ℕ) (f : LimiterRow → Job → Op SubmissionGrant)
    (h : (row : LimiterRow) (job : Job) (c : Clock) (db : Db) → Keeps db (f row job c db)) where
  located-Keeps :
      (row : LimiterRow) (job : Option Job) (c : Clock) (db : Db)
      → Keeps db (located (f row) job c db)
  located-Keeps row none c db = λ n. n
  located-Keeps row (some job) c db = h row job c db

  limited-Keeps :
      (row : Option LimiterRow) (c : Clock) (db : Db)
      → Keeps db (limited (λ row. with_job id (f row)) row c db)
  limited-Keeps none c db = λ n. n
  limited-Keeps (some row) c db = located-Keeps row (find_job id db.jobs) c db

module _ (l : Limits) (c : Clock) (db : Db) where
  pub begin_submission-Keeps :
      (id : ℕ) (token : String) (task : Option Uuid)
      → Keeps db (Begin.begin_submission l id token task c db)
  unfolding Begin.begin_submission
  begin_submission-Keeps id token task =
      checked-Keeps (do check_job_id id; check_uuid task)
        (λ task. with_limiter λ row. with_job id (submit_locked l id token task row)) c db
        λ task.
          limited-Keeps id (submit_locked l id token task)
            (λ row job c db. submit_locked-Keeps l id token row job c db task) db.limiter c db

  pub begin_retry_submission-Keeps :
      (id : ℕ) (token : String) (previous task : Option Uuid)
      → Keeps db (Begin.begin_retry_submission l id token previous task c db)
  unfolding Begin.begin_retry_submission
  begin_retry_submission-Keeps id token previous task =
      checked-Keeps (do check_job_id id; check_uuids previous task)
        (λ tasks. with_limiter λ row. with_job id (retry_locked l id token tasks.0 tasks.1 row)) c
        db
        λ tasks.
          limited-Keeps id (retry_locked l id token tasks.0 tasks.1)
            (λ row job c db. retry_locked-Keeps l id token row job c db tasks.0 tasks.1) db.limiter
            c db

  pub begin_fallback-Keeps :
      (id : ℕ) (token : String) (task : Option Uuid)
      → Keeps db (Begin.begin_fallback l id token task c db)
  unfolding Begin.begin_fallback
  begin_fallback-Keeps id token task =
      checked-Keeps (do check_job_id id; check_uuid task)
        (λ task. with_limiter λ row. with_job id (fallback_locked l id token task row)) c db
        λ task.
          limited-Keeps id (fallback_locked l id token task)
            (λ row job c db. fallback_locked-Keeps l id token row job c db task) db.limiter c db

  cancel_row-Keeps :
      (id : ℕ) (token : String) (task : Uuid) (job : Option Job)
      → Keeps db (Release.cancel_row id token task job c db)
  unfolding Release.cancel_row write
  cancel_row-Keeps id token task none = λ n. n
  cancel_row-Keeps id token task (some job) = λ n.
      let kept = keep-Numbered (λ a. not (of_task task a)) db.attempts n in ground (arith, kept, n)

  pub cancel_unsent-Keeps :
      (id : ℕ) (token : String) (task : Option Uuid)
      → Keeps db (Release.cancel_unsent id token task c db)
  unfolding Release.cancel_unsent
  cancel_unsent-Keeps id token task =
      checked-Keeps (do check_job_id id; check_uuid task) _ c db
        λ task. cancel_row-Keeps id token task (find_job id db.jobs)
