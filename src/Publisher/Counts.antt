-- ===== src/Publisher/Counts.antt =====
-- Each part of `publish` counts a message before it sends it.
use ktb4_15th_ai.Prelude.{
  ℕ, suc, ◌+◌, ◌≤◌, ◌≡◌, refl, String, Bool, true, false, not, ◌||◌, Option, none, some, List, [],
  ◌∷◌, arith, All, length, leb, is_some, if◌then◌else◌, Bool-cases, Option-cases, inl, inr,
}
use ktb4_15th_ai.Payload.{Payload, Result, ok, err, ◌>>◌}
use ktb4_15th_ai.Job.{Time, Job, publish_result, is_pending}
use ktb4_15th_ai.Store.{Db, Clock, Op, find_job, write, checked}
use ktb4_15th_ai.JobState.Change.{
  StateChange, result_message_limit, Condition, Assignments, Diagnosis, run_row, check_seconds,
  check_job_id, touched, free_reason,
}
use ktb4_15th_ai.JobState.Lease.{
  LeaseGrant, acquire_lease, renew_lease, to_grant, acquire_row, can_acquire, hold_until,
  acquire_reason,
}
use ktb4_15th_ai.JobState.Publication.{
  claim_result_message_attempt, mark_result_published, mark_result_retry_exhausted, count_message,
  can_send,
}
use ktb4_15th_ai.Limiter.Slot.{Limits}
use ktb4_15th_ai.Rules.{IsValid}
use ktb4_15th_ai.Rules.Rows.{Advances, Lawful, find_job-id}
use ktb4_15th_ai.Rules.Methods.{
  renew_lease-Lawful, claim_result_message_attempt-Lawful, mark_result_published-Lawful,
  mark_result_retry_exhausted-Lawful,
}
use ktb4_15th_ai.History.{run, told}
use ktb4_15th_ai.History.Rules.{run-Advances}
use ktb4_15th_ai.History.Results.{Rows-Became}
use ktb4_15th_ai.History.Claims.{counted, claim-Counts}
use ktb4_15th_ai.Publisher.{
  Meeting, Body, Outcome, retry_later, held, SqsOutcome, succeeded, failed, unknown, meanwhile,
  held_by, hold, exhausted_by, exhaust, hold_for, retry, marked, send, send_claimed, claimed,
  send_result, payload_problem, is_limit, final_status, backoff_of,
}

-- The count of messages in the row of a job.
abbrev pub messages : ℕ → Db → ℕ
messages id db = counted (λ r. r.result_message_attempt_count) id db.jobs

-- The rows keep the rules, and so many messages are counted for the job.
abbrev pub Since : ℕ → ℕ → Db → Type 0
Since id n db = All IsValid db.jobs × (n ≤ messages id db)

abbrev pub SinceBody : ℕ → ℕ → Body → Type 0
SinceBody id n b = Since id (length b.sent + n) b.db

abbrev pub SinceRun : ℕ → ℕ → Outcome × List Payload × Db → Type 0
SinceRun id n x = Since id (length x.1 + n) x.2

messages-le :
    (id : ℕ) (before after : Db)
    → Advances before.jobs after.jobs
    → messages id before ≤ messages id after
messages-le id before after h = elim (Option-cases (find_job id before.jobs)) [
  | inl missing ↦ rw missing (omega arith)
  | inr (r, e) ↦
      let became = Rows-Became id before.jobs after.jobs h.1 e in
      rw (e, became.found) became.evolves.messages
]

Advances-Since :
    (id n : ℕ) (before after : Db)
    → Advances before.jobs after.jobs
    → Since id n before
    → Since id n after
Advances-Since id n before after h s =
    let grown = messages-le id before after h in (h.0, omega (arith, s.1, grown))

-- The job of a grant is the one that was asked for.
abbrev pub GrantOf : ℕ → Result LeaseGrant → Type 0
GrantOf id (err e) = Unit
GrantOf id (ok g) = (r : Job) → g.job ≡ some r → r.fitting_job_id ≡ id

abbrev ChangeOf : ℕ → Result StateChange → Type 0
ChangeOf id (err e) = Unit
ChangeOf id (ok change) = (r : Job) → change.job ≡ some r → r.fitting_job_id ≡ id

to_grant-GrantOf :
    (id : ℕ) (token : String) (x : Result StateChange × Db)
    → ChangeOf id x.0
    → GrantOf id (to_grant token x).0
to_grant-GrantOf id token (ok change, db) h = h
to_grant-GrantOf id token (err e, db) h = h

run_row-ChangeOf :
    (id : ℕ) (condition : Condition) (set : Assignments) (reason : Diagnosis) (c : Clock) (db : Db)
    (job : Option Job)
    → ((now : Time) (r : Job) → (set now r).fitting_job_id ≡ r.fitting_job_id)
    → ((r : Job) → job ≡ some r → r.fitting_job_id ≡ id)
    → ChangeOf id (run_row condition set reason job c db).0
unfolding run_row write
run_row-ChangeOf id condition set reason c db none kept same = λ r e. cc
run_row-ChangeOf id condition set reason c db (some r) kept same =
    let named = same r refl in let named_after = kept c.now r in ground (arith, named, named_after)

checked-ChangeOf :
    {A : Type 0} (id : ℕ) (m : Result A) (f : A → Op StateChange) (c : Clock) (db : Db)
    → ((a : A) → ChangeOf id (f a c db).0)
    → ChangeOf id (checked m f c db).0
checked-ChangeOf id (ok a) f c db h = h a
checked-ChangeOf id (err e) f c db h = tt

pub acquire_lease-GrantOf :
    (token : String) (id lease : ℕ) (c : Clock) (db : Db)
    → GrantOf id (acquire_lease token id publish_result lease c db).0
unfolding acquire_lease
acquire_lease-GrantOf token id lease c db = to_grant-GrantOf id token _ (
    checked-ChangeOf id (do check_seconds lease; check_job_id id)
      (λ _. acquire_row token id publish_result lease) c db
      λ _.
        run_row-ChangeOf id (can_acquire publish_result) (touched (hold_until token lease))
          (free_reason (acquire_reason publish_result)) c db (find_job id db.jobs) (λ _ _. refl)
          (λ r e. find_job-id id db.jobs e))

module _ (limits : Limits) (is_printable : ℕ → Bool) (w : Meeting) (id : ℕ) where
  meanwhile-Since :
      (k i : ℕ) (db : Db) → Since id k db → Since id k (meanwhile limits is_printable w i db)
  unfolding meanwhile
  meanwhile-Since k i db s =
      Advances-Since id k db (run limits is_printable (w.others i) db)
        (run-Advances limits is_printable (w.others i) db s.0) s

  pub step-Since :
      {A : Type 0} (m : Op A) (k i : ℕ) (db : Db)
      → Lawful m
      → Since id k db
      → Since id k (m (w.clock i) (meanwhile limits is_printable w i db)).1
  step-Since m k i db lawful s =
      let s = meanwhile-Since k i db s in
      Advances-Since id k (meanwhile limits is_printable w i db)
        (m (w.clock i) (meanwhile limits is_printable w i db)).1
        (lawful.at (w.clock i) (meanwhile limits is_printable w i db) s.0) s

  held_by-Since :
      (k : ℕ) (o : Outcome) (sent : List Payload) (x : Result StateChange × Db)
      → Since id k x.1
      → Since id k (held_by limits is_printable w o sent x).db
  held_by-Since k o sent (ok change, db) s = s
  held_by-Since k o sent (err e, db) s = s

  hold-Since :
      (k : ℕ) (o : Outcome) (sent : List Payload) (seconds i : ℕ) (db : Db)
      → Since id k db
      → Since id k (hold limits is_printable w id o sent seconds i db).db
  unfolding hold
  hold-Since k o sent seconds i db s =
      held_by-Since k o sent _ (
        step-Since (renew_lease id w.token seconds) k i db (renew_lease-Lawful id w.token seconds)
          s)

  exhausted_by-Since :
      (k : ℕ) (sent : List Payload) (x : Result StateChange × Db)
      → Since id k x.1
      → Since id k (exhausted_by limits is_printable w sent x).db
  exhausted_by-Since k sent (ok change, db) s = s
  exhausted_by-Since k sent (err e, db) s = s

  exhaust-Since :
      (k : ℕ) (sent : List Payload) (i : ℕ) (db : Db)
      → Since id k db
      → Since id k (exhaust limits is_printable w id sent i db).db
  unfolding exhaust
  exhaust-Since k sent i db s = exhausted_by-Since k sent _ (
      step-Since (mark_result_retry_exhausted id w.token) k i db
        (mark_result_retry_exhausted-Lawful id w.token) s)

  -- What was sent is what the steps were given.
  hold-sent :
      (o : Outcome) (sent : List Payload) (seconds i : ℕ) (db : Db)
      → (hold limits is_printable w id o sent seconds i db).sent ≡ sent
  unfolding hold
  hold-sent o sent seconds i db = ground arith

  exhaust-sent :
      (sent : List Payload) (i : ℕ) (db : Db)
      → (exhaust limits is_printable w id sent i db).sent ≡ sent
  unfolding exhaust
  exhaust-sent sent i db = ground arith

  hold-Body :
      (n : ℕ) (o : Outcome) (sent : List Payload) (seconds i : ℕ) (db : Db)
      → Since id (length sent + n) db
      → SinceBody id n (hold limits is_printable w id o sent seconds i db)
  hold-Body n o sent seconds i db s =
      rw (hold-sent o sent seconds i db) (hold-Since (length sent + n) o sent seconds i db s)

  exhaust-Body :
      (n : ℕ) (sent : List Payload) (i : ℕ) (db : Db)
      → Since id (length sent + n) db
      → SinceBody id n (exhaust limits is_printable w id sent i db)
  exhaust-Body n sent i db s =
      rw (exhaust-sent sent i db) (exhaust-Since (length sent + n) sent i db s)

  hold_for-Body :
      (n : ℕ) (sent : List Payload) (seconds : Option ℕ) (db : Db)
      → Since id (length sent + n) db
      → SinceBody id n (hold_for limits is_printable w id sent seconds db)
  hold_for-Body n sent none db s = s
  hold_for-Body n sent (some seconds) db s = hold-Body n retry_later sent seconds 3 db s

  retry-Body :
      (n : ℕ) (p : Payload) (attempt : ℕ) (config : Bool) (db : Db)
      → Since id (suc n) db
      → SinceBody id n (retry limits is_printable w id p attempt config db)
  unfolding retry
  retry-Body n p attempt config db s = elim (Bool-cases (leb result_message_limit attempt)) [
    | inl last ↦ rw last (exhaust-Body n (p ∷ []) 3 db (s.0, omega (arith, s.1)))
    | inr early ↦ rw early (
        hold_for-Body n (p ∷ [])
          (if config then some w.config_backoff else backoff_of attempt w.backoffs) db
          (s.0, omega (arith, s.1)))
  ]

  marked-Body :
      (n : ℕ) (p : Payload) (attempt : ℕ) (x : Result StateChange × Db)
      → Since id (suc n) x.1
      → SinceBody id n (marked limits is_printable w id p attempt x)
  marked-Body n p attempt (err e, db) s = (s.0, omega (arith, s.1))
  marked-Body n p attempt (ok change, db) s = elim (Bool-cases change.applied) [
    | inl done ↦ rw done (s.0, omega (arith, s.1))
    | inr refused ↦ rw refused (retry-Body n p attempt false db s)
  ]

  send-Body :
      (answer : SqsOutcome) (n : ℕ) (p : Payload) (attempt : ℕ) (db : Db)
      → Since id (suc n) db
      → SinceBody id n (send limits is_printable w answer id p attempt db)
  unfolding send
  send-Body succeeded n p attempt db s = marked-Body n p attempt _ (
      step-Since (mark_result_published id w.token (final_status p)) (suc n) 2 db
        (mark_result_published-Lawful id w.token (final_status p)) s)
  send-Body failed n p attempt db s = retry-Body n p attempt w.config_reason db s
  send-Body unknown n p attempt db s = retry-Body n p attempt w.config_reason db s

  send_claimed-Body :
      (n : ℕ) (p : Payload) (job : Option Job) (db : Db)
      → Since id (suc n) db
      → SinceBody id n (send_claimed limits is_printable w id p job db)
  send_claimed-Body n p none db s = (s.0, omega (arith, s.1))
  send_claimed-Body n p (some job) db s =
      send-Body w.answer n p job.result_message_attempt_count db s

  -- A claim that was applied has counted the message before it is sent.
  claimed-Body :
      (n : ℕ) (p : Payload) (x : Result StateChange × Db)
      → Since id n x.1
      → ((told (λ r. r.applied) x).0 ≡ true → suc n ≤ messages id (told (λ r. r.applied) x).1)
      → SinceBody id n (claimed limits is_printable w id p x)
  claimed-Body n p (err e, db) s more = (s.0, omega (arith, s.1))
  claimed-Body n p (ok change, db) s more = elim (Bool-cases change.applied) [
    | inl done ↦ rw done (send_claimed-Body n p change.job db (s.0, more done))
    | inr refused ↦ elim (Bool-cases (is_limit change.reason)) [
      | inl limit ↦ rw (refused, limit) (exhaust-Body n [] 2 db (s.0, omega (arith, s.1)))
      | inr other ↦ rw (refused, other) (s.0, omega (arith, s.1))
    ]
  ]

  claim-more :
      (n i : ℕ) (db : Db)
      → Since id n db
      → (told
          (λ r. r.applied)
          (claim_result_message_attempt id w.token
            (w.clock i)
            (meanwhile limits is_printable w i db))).0
        ≡ true
      → suc n
        ≤ messages id
            (told
              (λ r. r.applied)
              (claim_result_message_attempt id w.token
                (w.clock i)
                (meanwhile limits is_printable w i db))).1
  unfolding claim_result_message_attempt
  claim-more n i db s applied =
      let before = meanwhile-Since n i db s in
      let grown =
        claim-Counts id w.token count_message (λ r. r.result_message_attempt_count) (λ _ _. refl)
          (λ _ r. omega arith) result_message_limit can_send
          (λ r. not (is_pending r.result_message_status)) (w.clock i)
          (meanwhile limits is_printable w i db) applied in
      omega (arith, before.1, grown)

  pub send_result-Body :
      (n : ℕ) (p : Option Payload) (job : Job) (db : Db)
      → job.fitting_job_id ≡ id
      → Since id n db
      → SinceBody id n (send_result limits is_printable w p job db)
  unfolding send_result
  send_result-Body n none job db same s = (s.0, omega (arith, s.1))
  send_result-Body n (some p) job db same s =
      let claim =
        claimed-Body n p _
          (step-Since (claim_result_message_attempt id w.token) n 1 db
            (claim_result_message_attempt-Lawful id w.token) s)
          (claim-more n 1 db s) in
      let full = exhaust-Body n [] 1 db (s.0, omega (arith, s.1)) in
      let waits = hold-Body n held [] w.config_backoff 1 db (s.0, omega (arith, s.1)) in
      elim (Bool-cases (not (is_pending job.result_message_status))) [
        | inl ended ↦ rw ended (s.0, omega (arith, s.1))
        | inr open_result ↦
            elim (Bool-cases (leb result_message_limit job.result_message_attempt_count)) [
              | inl used ↦ rw (open_result, used, same) full
              | inr left ↦ elim (Bool-cases (is_some (payload_problem p job) || not w.queue_set)) [
                | inl problem ↦ rw (open_result, left, problem, same) waits
                | inr ready ↦ rw (open_result, left, ready, same) claim
              ]
            ]
      ]
