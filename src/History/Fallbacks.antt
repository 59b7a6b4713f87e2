-- ===== src/History/Fallbacks.antt =====
-- The synchronous generation of V1 is started at most once for a job, over any history.
use ktb4_15th_ai.Prelude.{
  ℕ, ◌+◌, ◌≤◌, ◌≡◌, refl, subst, String, Bool, true, false, Option, none, some, List, arith, All,
  ◌==◌, ==→eq, is_some, Bool-cases, inl, inr,
}
use ktb4_15th_ai.Payload.{Result, ok, err, ◌>>◌}
use ktb4_15th_ai.Job.{Uuid, Time, Job}
use ktb4_15th_ai.Store.{Db, LimiterRow, Clock, Op, checked, find_job, write, allowed}
use ktb4_15th_ai.JobState.Change.{check_job_id, check_uuid, fallback_limit}
use ktb4_15th_ai.JobState.Fallback
use ktb4_15th_ai.JobState.Fallback.{count_fallback, may_fall_back}
use ktb4_15th_ai.Limiter.Slot.{
  Limits, SubmissionGrant, Slot, refused, taken, clash, take_slot, grant, refusal,
}
use ktb4_15th_ai.Limiter.Slot
use ktb4_15th_ai.Limiter.Begin
use ktb4_15th_ai.Limiter.Begin.{
  mark_fallback_sent, fallback_taken, fallback_locked, located, limited, with_job, with_limiter,
}
use ktb4_15th_ai.Rules.{IsValid}
use ktb4_15th_ai.Rules.Rows.{find_job-id}
use ktb4_15th_ai.Rules.Calls.{SameJobs, take_slot-SameJobs}
use ktb4_15th_ai.History.{Command, claim_fallback_attempt, begin_fallback, told, exec}
use ktb4_15th_ai.History.Claims.{
  counted, count_in, Counts, claim-Counts, put_job-found, claims, run-limited,
}

-- The calls by which a fallback is started.
abbrev pub starts_fallback : ℕ → Command → Bool
starts_fallback id (claim_fallback_attempt j _) = j == id
starts_fallback id (begin_fallback j _ _) = j == id
starts_fallback id _ = false

abbrev fallbacks : Job → ℕ
fallbacks r = r.fallback_attempt_count

abbrev CountsStart : ℕ → ℕ → Result SubmissionGrant × Db → Type 0
CountsStart id n x = Counts fallbacks id n (told (λ r. r.granted) x)

-- A refusal grants nothing.
abbrev pub Refuses : Slot → Type 0
Refuses (refused g db) = g.granted ≡ false
Refuses (taken db) = Unit
Refuses clash = Unit

pub take_slot-Refuses :
    (l : Limits) (id : ℕ) (task : Uuid) (now : Time) (row : LimiterRow) (db : Db)
    → Refuses (take_slot l id task now row db)
unfolding take_slot
take_slot-Refuses l id task now row db = ground arith

module _ (id : ℕ) (before : Db) (job : Job) (e : find_job id before.jobs ≡ some job) where
  write-Counts :
      (now : Time) (db : Db)
      → db.jobs ≡ before.jobs
      → CountsStart id job.fallback_attempt_count
          (write before (grant now) (mark_fallback_sent now job) db)
  unfolding write
  write-Counts now db same = elim (Bool-cases (allowed (mark_fallback_sent now job) db.jobs)) [
    | inl fits ↦
        let put =
          put_job-found id (mark_fallback_sent now job) job db.jobs (find_job-id id before.jobs e)
            (rw same e) in
        rw (fits, put) λ _. omega arith
    | inr breaks ↦ rw breaks λ h. cc
  ]

  fallback_taken-Counts :
      (now : Time) (s : Slot)
      → SameJobs before s
      → Refuses s
      → CountsStart id job.fallback_attempt_count (fallback_taken now before job s)
  fallback_taken-Counts now (refused g db) same none_granted = λ h. ground (arith, h, none_granted)
  fallback_taken-Counts now clash same none_granted = λ h. cc
  fallback_taken-Counts now (taken db) same none_granted = write-Counts now db same

  fallback_locked-holds :
      (l : Limits) (token : String) (task : Uuid) (row : LimiterRow) (c : Clock)
      (P : Result SubmissionGrant × Db → Type 0)
      → ((g : SubmissionGrant) → g.granted ≡ false → P (ok g, before))
      → P (fallback_taken c.now before job (take_slot l id task c.now row before))
      → P (fallback_locked l id token task row job c before)
  unfolding fallback_locked
  fallback_locked-holds l token task row c P refuses starts = ground (
    arith,
    refuses (refusal Slot.lease_invalid) refl,
    refuses (refusal Slot.already_started) refl,
    refuses (refusal Slot.fallback_limit_reached) refl,
    refuses (refusal Slot.state_mismatch) refl,
    refuses (refusal Slot.other_attempt_in_flight) refl,
    starts,
  )

  fallback_locked-Counts :
      (l : Limits) (token : String) (task : Uuid) (row : LimiterRow) (c : Clock)
      → CountsStart id job.fallback_attempt_count (fallback_locked l id token task row job c before)
  fallback_locked-Counts l token task row c =
      fallback_locked-holds l token task row c (CountsStart id job.fallback_attempt_count)
        (λ g not_granted h. ground (arith, h, not_granted))
        (fallback_taken-Counts c.now (take_slot l id task c.now row before)
          (take_slot-SameJobs l id task c.now row before)
          (take_slot-Refuses l id task c.now row before))

module _ (l : Limits) (id : ℕ) (token : String) (task : Uuid) where
  located-Counts :
      (row : LimiterRow) (job : Option Job) (c : Clock) (db : Db)
      → find_job id db.jobs ≡ job
      → CountsStart id
          (count_in fallbacks job)
          (located (fallback_locked l id token task row) job c db)
  located-Counts row none c db e = λ h. cc
  located-Counts row (some job) c db e = fallback_locked-Counts id db job e l token task row c

  limited-Counts :
      (row : Option LimiterRow) (c : Clock) (db : Db)
      → CountsStart id
          (counted fallbacks id db.jobs)
          (limited (λ row. with_job id (fallback_locked l id token task row)) row c db)
  limited-Counts none c db = λ h. cc
  limited-Counts (some row) c db = located-Counts row (find_job id db.jobs) c db refl

checked-CountsStart :
    {A : Type 0} (id n : ℕ) (m : Result A) (f : A → Op SubmissionGrant) (c : Clock) (db : Db)
    → ((a : A) → CountsStart id n (f a c db))
    → CountsStart id n (checked m f c db)
checked-CountsStart id n (ok a) f c db h = h a
checked-CountsStart id n (err e) f c db h = λ k. cc

pub begin_fallback-Counts :
    (l : Limits) (id : ℕ) (token : String) (task : Option Uuid) (c : Clock) (db : Db)
    → CountsStart id (counted fallbacks id db.jobs) (Begin.begin_fallback l id token task c db)
unfolding Begin.begin_fallback
begin_fallback-Counts l id token task c db =
    checked-CountsStart id (counted fallbacks id db.jobs) (do check_job_id id; check_uuid task)
      (λ task. with_limiter λ row. with_job id (fallback_locked l id token task row)) c db
      λ task. limited-Counts l id token task db.limiter c db

module _ (l : Limits) (is_printable : ℕ → Bool) where
  fallback-Counts :
      (id : ℕ) (command : Command) (c : Clock) (db : Db)
      → starts_fallback id command ≡ true
      → Counts fallbacks id (counted fallbacks id db.jobs) (exec l is_printable command c db)
  unfolding exec Fallback.claim_fallback_attempt
  fallback-Counts id (claim_fallback_attempt j token) c db h =
      subst
        (λ k.
          Counts fallbacks k (counted fallbacks k db.jobs)
            (exec l is_printable (claim_fallback_attempt j token) c db))
        (==→eq j id h)
        (claim-Counts j token count_fallback fallbacks (λ _ _. refl) (λ _ r. omega arith)
          fallback_limit may_fall_back (λ r. is_some r.result_payload) c db)
  fallback-Counts id (begin_fallback j token task) c db h =
      subst
        (λ k.
          Counts fallbacks k (counted fallbacks k db.jobs)
            (exec l is_printable (begin_fallback j token task) c db))
        (==→eq j id h) (begin_fallback-Counts l j token task c db)
  fallback-Counts id command c db h = ground (arith, h)

  -- If the rows keep the rules, the starts of a fallback of a job that are granted over any history, by
  -- the limiter or by a claim, and the count that its row has before, are together at most one.
  pub fallbacks-le :
      (id : ℕ) (history : List (Command × Clock)) (db : Db)
      → All IsValid db.jobs
      → claims l is_printable (starts_fallback id) history db
          + counted (λ r. r.fallback_attempt_count) id db.jobs
        ≤ 1
  fallbacks-le id history db v =
      run-limited l is_printable id fallbacks (starts_fallback id) (fallback-Counts id)
        (λ _ _ h. h.fallbacks) 1 history db (λ _ h. h.fallbacks) v
