-- ===== src/History/Claims.antt =====
-- How often an attempt is claimed for a job, over a history of transactions: a Worker makes a call only
-- after a claim that reported a change.
use ktb4_15th_ai.Prelude.{
  ℕ, suc, not, is_some, ◌+◌, ◌≤◌, ◌≡◌, refl, String, Bool, true, false, ◌&&◌, Option, none, some,
  List, [], ◌∷◌, arith, All, Rows, ◌==◌, ==→eq, ==_refl, find-All, replace, subst, sym, ap,
  if◌then◌else◌, Bool-cases, Option-cases, inl, inr, ◌∙◌,
}
use ktb4_15th_ai.Payload.{ok, err, Result, ◌>>◌}
use ktb4_15th_ai.Job.{Time, Job}
use ktb4_15th_ai.Store.{Db, Clock, Op, checked, find_job, has_id, put_job, write, allowed}
use ktb4_15th_ai.JobState.Change.{
  StateChange, Condition, Assignments, Diagnosis, run_row, update, update_row, claim, check_job_id,
  check_token, with_lease, touched, lease_reason, below, claim_reason, s3_check_limit,
  llm_generation_limit, result_message_limit,
}
use ktb4_15th_ai.JobState.Postprocess.{count_s3_check, lacks_image, count_llm_call, has_image}
use ktb4_15th_ai.JobState.Postprocess
use ktb4_15th_ai.JobState.Publication
use ktb4_15th_ai.JobState.Publication.{count_message, can_send}
use ktb4_15th_ai.Job.{is_pending}
use ktb4_15th_ai.Limiter.Slot.{Limits}
use ktb4_15th_ai.Rules.{IsValid, Evolves}
use ktb4_15th_ai.Rules.Rows.{find_job-id}
use ktb4_15th_ai.History.{
  Command, claim_s3_check_attempt, claim_llm_generation_attempt, claim_result_message_attempt, told,
  exec, run,
}
use ktb4_15th_ai.History.Rules.{exec-Lawful}
use ktb4_15th_ai.History.Results.{Rows-Became, run-IsValid}

-- The count in the row of a job, 0 if there is no row.
abbrev pub count_in : (Job → ℕ) → Option Job → ℕ
count_in count none = 0
count_in count (some r) = count r

abbrev pub counted : (Job → ℕ) → ℕ → List Job → ℕ
counted count id rows = count_in count (find_job id rows)

-- The row that was put is found.
find-replace :
    (id : ℕ) (row r : Job) (rows : List Job)
    → row.fitting_job_id ≡ id
    → find_job id rows ≡ some r
    → find_job id (replace (has_id id) row rows) ≡ some row
find-replace id row r [] same e = cc
find-replace id row r (s ∷ rows) same e =
    ground (arith, find-replace id row r rows same, ==_refl id)

pub put_job-found :
    (id : ℕ) (row r : Job) (rows : List Job)
    → row.fitting_job_id ≡ id
    → find_job id rows ≡ some r
    → find_job id (put_job row rows) ≡ some row
put_job-found id row r rows same e =
    subst (λ k. find_job id (replace (has_id k) row rows) ≡ some row) (sym same)
      (find-replace id row r rows same e)

-- What a method reports and leaves, where a report of a change has added one to a count.
abbrev pub Counts : (Job → ℕ) → ℕ → ℕ → Bool × Db → Type 0
Counts count id before x = x.0 ≡ true → counted count id x.1.jobs ≡ suc before

write-Counts :
    (count : Job → ℕ) (id : ℕ) (change : StateChange) (row r : Job) (db : Db)
    → row.fitting_job_id ≡ id
    → find_job id db.jobs ≡ some r
    → count row ≡ suc (count r)
    → Counts count id (count r) (told (λ r. r.applied) (write db change row db))
unfolding write
write-Counts count id change row r db same e more = elim (Bool-cases (allowed row db.jobs)) [
  | inl fits ↦ rw (fits, put_job-found id row r db.jobs same e) λ _. more
  | inr breaks ↦ rw breaks λ h. cc
]

module _ (id : ℕ) (token : String) (grow : Assignments) (count : Job → ℕ)
    (same : (now : Time) (r : Job) → (grow now r).fitting_job_id ≡ r.fitting_job_id)
    (grows : (now : Time) (r : Job) → count (touched grow now r) ≡ suc (count r)) where
  run_row-Counts :
      (condition : Condition) (reason : Diagnosis) (c : Clock) (db : Db)
      → Counts count id (counted count id db.jobs) (
          told
            (λ r. r.applied)
            (run_row condition (touched grow) reason (find_job id db.jobs) c db))
  unfolding run_row
  run_row-Counts condition reason c db = elim (Option-cases (find_job id db.jobs)) [
    | inl missing ↦ rw missing λ h. cc
    | inr (r, e) ↦ elim (Bool-cases (condition c.now r)) [
      | inl holds ↦
          rw (e, holds)
            (write-Counts count id _ (touched grow c.now r) r db
              (same c.now r ∙ find_job-id id db.jobs e) e (grows c.now r))
      | inr fails ↦ rw (e, fails) λ h. cc
    ]
  ]

  checked-Counts :
      {A : Type 0} (m : Result A) (f : A → Op StateChange) (n : ℕ) (c : Clock) (db : Db)
      → ((a : A) → Counts count id n (told (λ r. r.applied) (f a c db)))
      → Counts count id n (told (λ r. r.applied) (checked m f c db))
  checked-Counts (ok a) f n c db h = h a
  checked-Counts (err e) f n c db h = λ k. cc

  -- A claim that reports a change has counted one attempt.
  pub claim-Counts :
      (limit : ℕ) (condition : Condition) (done : Job → Bool) (c : Clock) (db : Db)
      → Counts count id
          (counted count id db.jobs)
          (told (λ r. r.applied) (claim id token grow count limit condition done c db))
  unfolding claim update
  claim-Counts limit condition done c db =
      checked-Counts (do check_job_id id; check_token token)
        (λ _.
          update_row id token grow (below count limit condition) false
            (claim_reason count limit done))
        (counted count id db.jobs) c db
        λ _.
          run_row-Counts (with_lease token (below count limit condition))
            (lease_reason token false (claim_reason count limit done)) c db

-- Claims of attempts for one job.
abbrev pub claims_message : ℕ → Command → Bool
claims_message id (claim_result_message_attempt j _) = j == id
claims_message id _ = false

abbrev pub claims_llm_call : ℕ → Command → Bool
claims_llm_call id (claim_llm_generation_attempt j _) = j == id
claims_llm_call id _ = false

abbrev pub claims_s3_check : ℕ → Command → Bool
claims_s3_check id (claim_s3_check_attempt j _) = j == id
claims_s3_check id _ = false

module _ (limits : Limits) (is_printable : ℕ → Bool) where
  -- The calls in a history that are such claims and report a change.
  unfoldable pub claims : (Command → Bool) → List (Command × Clock) → Db → ℕ
  unfolding exec
  claims is_claim [] db = 0
  claims is_claim ((command, c) ∷ rest) db =
      let (reported, after) = exec limits is_printable command c db in
      (if is_claim command && reported then 1 else 0) + claims is_claim rest after

  module _ (id : ℕ) (count : Job → ℕ) (is_claim : Command → Bool)
      (counts : (command : Command) (c : Clock) (db : Db)
        → is_claim command ≡ true
        → Counts count id (counted count id db.jobs) (exec limits is_printable command c db))
      (more : (a b : Job) → Evolves a b → count a ≤ count b) where
    pub Rows-counted :
        (before after : List Job)
        → Rows Evolves before after
        → counted count id before ≤ counted count id after
    Rows-counted before after h = elim (Option-cases (find_job id before)) [
      | inl missing ↦ rw missing (omega arith)
      | inr (r, e) ↦
          let became = Rows-Became id before after h e in
          rw (e, became.found) (more r became.row became.evolves)
    ]

    step-counted :
        (command : Command) (c : Clock) (db : Db)
        → All IsValid db.jobs
        → (if is_claim command && (exec limits is_printable command c db).0 then 1 else 0)
            + counted count id db.jobs
          ≤ counted count id (exec limits is_printable command c db).1.jobs
    step-counted command c db v =
        let grown = Rows-counted db.jobs _ (exec-Lawful limits is_printable command c db v).1 in
        let claimed = counts command c db in ground (arith, grown, claimed)

    run-counted :
        (history : List (Command × Clock)) (db : Db)
        → All IsValid db.jobs
        → claims is_claim history db + counted count id db.jobs
          ≤ counted count id (run limits is_printable history db).jobs
    unfolding claims run
    run-counted [] db v = omega arith
    run-counted ((command, c) ∷ rest) db v =
        let (valid, _) = exec-Lawful limits is_printable command c db v in
        let later = run-counted rest (exec limits is_printable command c db).1 valid in
        let first = step-counted command c db v in omega (arith, later, first)

    pub run-limited :
        (limit : ℕ) (history : List (Command × Clock)) (db : Db)
        → ((r : Job) → IsValid r → count r ≤ limit)
        → All IsValid db.jobs
        → claims is_claim history db + counted count id db.jobs ≤ limit
    run-limited limit history db bounded v =
        let total = run-counted history db v in
        elim (Option-cases (find_job id (run limits is_printable history db).jobs)) [
          | inl missing ↦ omega (arith, total, ap (count_in count) missing)
          | inr (r, e) ↦
              let top =
                bounded r (
                  find-All IsValid (has_id id) _ (run-IsValid limits is_printable history db v)
                    e) in
              omega (arith, total, top, ap (count_in count) e)
        ]

  message-Counts :
      (id : ℕ) (command : Command) (c : Clock) (db : Db)
      → claims_message id command ≡ true
      → Counts
          (λ r. r.result_message_attempt_count)
          id
          (counted (λ r. r.result_message_attempt_count) id db.jobs)
          (exec limits is_printable command c db)
  unfolding exec Publication.claim_result_message_attempt
  message-Counts id (claim_result_message_attempt j token) c db h =
      subst
        (λ k.
          Counts (λ r. r.result_message_attempt_count) k
            (counted (λ r. r.result_message_attempt_count) k db.jobs)
            (exec limits is_printable (claim_result_message_attempt j token) c db))
        (==→eq j id h)
        (claim-Counts j token count_message (λ r. r.result_message_attempt_count) (λ _ _. refl)
          (λ _ r. omega arith) result_message_limit can_send
          (λ r. not (is_pending r.result_message_status)) c db)
  message-Counts id command c db h = ground (arith, h)

  llm_call-Counts :
      (id : ℕ) (command : Command) (c : Clock) (db : Db)
      → claims_llm_call id command ≡ true
      → Counts
          (λ r. r.llm_generation_attempt_count)
          id
          (counted (λ r. r.llm_generation_attempt_count) id db.jobs)
          (exec limits is_printable command c db)
  unfolding exec Postprocess.claim_llm_generation_attempt
  llm_call-Counts id (claim_llm_generation_attempt j token) c db h =
      subst
        (λ k.
          Counts (λ r. r.llm_generation_attempt_count) k
            (counted (λ r. r.llm_generation_attempt_count) k db.jobs)
            (exec limits is_printable (claim_llm_generation_attempt j token) c db))
        (==→eq j id h)
        (claim-Counts j token count_llm_call (λ r. r.llm_generation_attempt_count) (λ _ _. refl)
          (λ _ r. omega arith) llm_generation_limit has_image (λ r. is_some r.result_payload) c db)
  llm_call-Counts id command c db h = ground (arith, h)

  s3_check-Counts :
      (id : ℕ) (command : Command) (c : Clock) (db : Db)
      → claims_s3_check id command ≡ true
      → Counts
          (λ r. r.s3_check_attempt_count)
          id
          (counted (λ r. r.s3_check_attempt_count) id db.jobs)
          (exec limits is_printable command c db)
  unfolding exec Postprocess.claim_s3_check_attempt
  s3_check-Counts id (claim_s3_check_attempt j token) c db h =
      subst
        (λ k.
          Counts (λ r. r.s3_check_attempt_count) k
            (counted (λ r. r.s3_check_attempt_count) k db.jobs)
            (exec limits is_printable (claim_s3_check_attempt j token) c db))
        (==→eq j id h)
        (claim-Counts j token count_s3_check (λ r. r.s3_check_attempt_count) (λ _ _. refl)
          (λ _ r. omega arith) s3_check_limit lacks_image (λ r. is_some r.verified_image_key) c db)
  s3_check-Counts id command c db h = ground (arith, h)

  -- If the rows keep the rules, the claims of results to be sent that report a change for a job, over any
  -- history, and the count that its row has before, are together at most the limit, `result_message_limit`.
  pub message-claims-le :
      (id : ℕ) (history : List (Command × Clock)) (db : Db)
      → All IsValid db.jobs
      → claims (claims_message id) history db
          + counted (λ r. r.result_message_attempt_count) id db.jobs
        ≤ result_message_limit
  message-claims-le id history db v =
      run-limited id (λ r. r.result_message_attempt_count) (claims_message id) (message-Counts id)
        (λ _ _ h. h.messages) result_message_limit history db (λ _ h. h.messages) v

  -- If the rows keep the rules, the claims of calls of the LLM that report a change for a job, over any
  -- history, and the count that its row has before, are together at most the limit, `llm_generation_limit`.
  pub llm_call-claims-le :
      (id : ℕ) (history : List (Command × Clock)) (db : Db)
      → All IsValid db.jobs
      → claims (claims_llm_call id) history db
          + counted (λ r. r.llm_generation_attempt_count) id db.jobs
        ≤ llm_generation_limit
  llm_call-claims-le id history db v =
      run-limited id (λ r. r.llm_generation_attempt_count) (claims_llm_call id) (llm_call-Counts id)
        (λ _ _ h. h.llm_calls) llm_generation_limit history db (λ _ h. h.llm_calls) v

  -- If the rows keep the rules, the claims of looks at S3 that report a change for a job, over any
  -- history, and the count that its row has before, are together at most the limit, `s3_check_limit`.
  pub s3_check-claims-le :
      (id : ℕ) (history : List (Command × Clock)) (db : Db)
      → All IsValid db.jobs
      → claims (claims_s3_check id) history db + counted (λ r. r.s3_check_attempt_count) id db.jobs
        ≤ s3_check_limit
  s3_check-claims-le id history db v =
      run-limited id (λ r. r.s3_check_attempt_count) (claims_s3_check id) (s3_check-Counts id)
        (λ _ _ h. h.s3_checks) s3_check_limit history db (λ _ h. h.s3_checks) v
