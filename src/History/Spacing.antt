-- ===== src/History/Spacing.antt =====
-- The promises of `PrunaLimiter` over a history: the tables stay within the limits, and the starts of
-- calls are apart.
use ktb4_15th_ai.Prelude.{
  ℕ, ◌+◌, ◌≤◌, ◌≡◌, refl, String, Bool, true, false, not, ◌&&◌, Option, none, some, List, [], ◌∷◌,
  arith, All, find, length-keep-le, Bool-cases, inl, inr, if◌then◌else◌,
}
use ktb4_15th_ai.Payload.{ℤ, pos, negsuc, Result, ok, err, ◌>>◌}
use ktb4_15th_ai.Job.{Uuid, Time, Job, Attempt, NotAcceptedSource}
use ktb4_15th_ai.Store.{Db, Clock, Op, checked, write, find_job}
use ktb4_15th_ai.JobState.Change.{check_job_id, check_uuid, find_task}
use ktb4_15th_ai.JobState.NotAccepted
use ktb4_15th_ai.JobState.NotAccepted.{
  Verdict, repeated, mismatched, contradicting, fresh, of_task, ensure_attempt, judge,
}
use ktb4_15th_ai.Limiter.Slot.{Limits, send_of, in_flight_of}
use ktb4_15th_ai.Limiter.Release
use ktb4_15th_ai.Limiter.Release.{on_limiter, released, hold_row, defer_row, optional_uuid}
use ktb4_15th_ai.History.{
  Command, begin_submission, begin_retry_submission, begin_fallback, finish_send, defer_sends,
  hold_sends, release_in_flight, cancel_unsent, record_not_accepted, record_attempt_contradiction,
  told, exec, run,
}
use ktb4_15th_ai.History.Rest.{SameRest, exec-SameRest}
use ktb4_15th_ai.History.Places.{
  Within, Orderly, Orderly-refl, next_of, begin_submission-Orderly, begin_retry_submission-Orderly,
  begin_fallback-Orderly,
}

-- No place is taken, and no call is sent sooner.
abbrev Calm : Limits → Time → Db → {A : Type 0} → Result A × Db → Type 0
Calm l now before x = Orderly l now before false x.1

checked-Calm :
    {A B : Type 0} (l : Limits) (m : Result A) (f : A → Op B) (c : Clock) (db : Db)
    → ((a : A) → Calm l c.now db (f a c db))
    → Calm l c.now db (checked m f c db)
checked-Calm l (ok a) f c db h = h a
checked-Calm l (err e) f c db h = Orderly-refl l c.now db

told-Calm :
    {A : Type 0} (l : Limits) (now : Time) (before : Db) (changed : A → Bool) (x : Result A × Db)
    → Calm l now before x
    → Orderly l now before false (told changed x).1
told-Calm l now before changed (ok a, db) h = h
told-Calm l now before changed (err e, db) h = h

module _ (l : Limits) (c : Clock) (db : Db) where
  finish_send-Calm : (id : ℕ) → Calm l c.now db (Release.finish_send id c db)
  unfolding Release.finish_send
  finish_send-Calm id = ground (arith, length-keep-le (λ s. not (send_of id s)) db.sends)

  defer_sends-Calm : (d : ℤ) → Calm l c.now db (Release.defer_sends d c db)
  unfolding Release.defer_sends
  defer_sends-Calm (negsuc n) = Orderly-refl l c.now db
  defer_sends-Calm (pos n) = ground arith

  hold_sends-Calm : (why : String) → Calm l c.now db (Release.hold_sends why c db)
  unfolding Release.hold_sends
  hold_sends-Calm why = ground arith

  release_in_flight-Calm :
      (id : ℕ) (task : Option (Option Uuid))
      → Calm l c.now db (Release.release_in_flight id task c db)
  unfolding Release.release_in_flight
  release_in_flight-Calm id task =
      checked-Calm l (do check_job_id id; optional_uuid task) _ c db
        λ task. ground (arith, length-keep-le (λ f. not (released id task f)) db.in_flight)

  cancel_row-Calm :
      (id : ℕ) (token : String) (task : Uuid) (job : Option Job)
      → Calm l c.now db (Release.cancel_row id token task job c db)
  unfolding Release.cancel_row write
  cancel_row-Calm id token task none = Orderly-refl l c.now db
  cancel_row-Calm id token task (some job) = ground (
    arith,
    Orderly-refl l c.now db,
    length-keep-le (λ f. not (in_flight_of id f)) db.in_flight,
    length-keep-le (λ s. not (send_of id s)) db.sends,
  )

  cancel_unsent-Calm :
      (id : ℕ) (token : String) (task : Option Uuid)
      → Calm l c.now db (Release.cancel_unsent id token task c db)
  unfolding Release.cancel_unsent
  cancel_unsent-Calm id token task =
      checked-Calm l (do check_job_id id; check_uuid task) _ c db
        λ task. cancel_row-Calm id token task (find_job id db.jobs)

-- Only attempts have changed.
abbrev Alike : Db → Db → Type 0
Alike a b = (b.limiter ≡ a.limiter) × (b.in_flight ≡ a.in_flight) × (b.sends ≡ a.sends)

module _ (l : Limits) (task : Uuid) (code : String) (source : NotAcceptedSource)
    (retry_after : Option ℕ) (unrepresentable : Bool) (before : Db) (c : Clock) where
  Alike-Orderly : (db : Db) → Alike before db → Orderly l c.now before false db
  Alike-Orderly db h = ground arith

  record_fresh-Calm :
      (job : Job) (a : Attempt) (db : Db)
      → Alike before db
      → Calm l c.now before
          (NotAccepted.record_fresh task code source retry_after unrepresentable before job a c db)
  unfolding NotAccepted.record_fresh write
  record_fresh-Calm job a db h = ground (
    arith,
    Orderly-refl l c.now before,
    length-keep-le (λ f. not (NotAccepted.holds_slot job.fitting_job_id task f)) db.in_flight,
  )

  act_on-Calm :
      (v : Verdict) (job : Job) (a : Attempt) (db : Db)
      → Alike before db
      → Calm l c.now before
          (NotAccepted.act_on task code source retry_after unrepresentable before v job a c db)
  unfolding NotAccepted.act_on
  act_on-Calm repeated job a db h = Alike-Orderly db h
  act_on-Calm mismatched job a db h = Alike-Orderly db h
  act_on-Calm contradicting job a db h = Alike-Orderly _ h
  act_on-Calm fresh job a db h = record_fresh-Calm job a db h

  judge_attempt-Calm :
      (job : Job) (a : Option Attempt) (db : Db)
      → Alike before db
      → Calm l c.now before
          (NotAccepted.judge_attempt task code source retry_after unrepresentable before job a c db)
  unfolding NotAccepted.judge_attempt
  judge_attempt-Calm job none db h = Alike-Orderly db h
  judge_attempt-Calm job (some a) db h = act_on-Calm (judge job a) job a db h

  judge_started-Calm :
      (job : Job) (started : Option Time) (db : Db)
      → Alike before db
      → Calm l c.now before (
          NotAccepted.judge_started task code source retry_after unrepresentable before job started
            c db)
  unfolding NotAccepted.judge_started
  judge_started-Calm job none db h = Alike-Orderly db h
  judge_started-Calm job (some started) db h =
      judge_attempt-Calm job
        (find (of_task task) (ensure_attempt job.fitting_job_id task started db.attempts)) _ h

  judge_row-Calm :
      (job : Option Job)
      → Calm l c.now before
          (NotAccepted.judge_row task code source retry_after unrepresentable before job c before)
  unfolding NotAccepted.judge_row
  judge_row-Calm none = Orderly-refl l c.now before
  judge_row-Calm (some job) =
      judge_started-Calm job job.pruna_submit_started_at before (refl, refl, refl)

module _ (l : Limits) (c : Clock) (db : Db) where
  record_not_accepted-Calm :
      (task : Option Uuid) (code : String) (source : NotAcceptedSource) (wait : Option ℤ)
      (unrepresentable : Bool)
      → Calm l c.now db (NotAccepted.record_not_accepted task code source wait unrepresentable c db)
  unfolding NotAccepted.record_not_accepted
  record_not_accepted-Calm task code source wait unrepresentable =
      checked-Calm l (NotAccepted.check_report task code wait)
        (NotAccepted.report_row code source unrepresentable) c db
        λ a. judge_row-Calm l a.0 code source a.1 unrepresentable db c (find_task a.0 db.jobs)

  contradict-Calm :
      (task : Uuid) (why : String) (a : Option Attempt)
      → Calm l c.now db (NotAccepted.contradict task why a c db)
  unfolding NotAccepted.contradict NotAccepted.contradict_row write
  contradict-Calm task why none = Orderly-refl l c.now db
  contradict-Calm task why (some a) = ground (arith, Orderly-refl l c.now db)

  contradiction-Calm :
      (task : Option Uuid) (why : String)
      → Calm l c.now db (NotAccepted.record_attempt_contradiction task why c db)
  unfolding NotAccepted.record_attempt_contradiction
  contradiction-Calm task why =
      checked-Calm l (NotAccepted.check_reason task why) (NotAccepted.contradict_task why) c db
        λ task. contradict-Calm task why (find (of_task task) db.attempts)

-- The starts of calls.
abbrev pub is_start : Command → Bool
is_start (begin_submission _ _ _) = true
is_start (begin_retry_submission _ _ _ _) = true
is_start (begin_fallback _ _ _) = true
is_start _ = false

-- Each time is followed by times that are an interval later.
abbrev pub Spaced : ℕ → List Time → Type 0
Spaced interval [] = Unit
Spaced interval (t ∷ later) = All (λ u. t + interval ≤ u) later × Spaced interval later

module _ (l : Limits) (is_printable : ℕ → Bool) where
  rest-Orderly :
      (now : Time) (before after : Db) → SameRest before after → Orderly l now before false after
  rest-Orderly now before after h = ground arith

  -- A call that does not start one.
  calm-Orderly :
      (command : Command) (c : Clock) (db : Db)
      → is_start command ≡ false
      → Orderly l c.now db false (exec l is_printable command c db).1
  unfolding exec
  calm-Orderly (record_not_accepted u code s w q) c db h =
      told-Calm l c.now db _ _ (record_not_accepted-Calm l c db u code s w q)
  calm-Orderly (record_attempt_contradiction u why) c db h =
      told-Calm l c.now db _ _ (contradiction-Calm l c db u why)
  calm-Orderly (finish_send id) c db h = told-Calm l c.now db _ _ (finish_send-Calm l c db id)
  calm-Orderly (defer_sends d) c db h = told-Calm l c.now db _ _ (defer_sends-Calm l c db d)
  calm-Orderly (hold_sends why) c db h = told-Calm l c.now db _ _ (hold_sends-Calm l c db why)
  calm-Orderly (release_in_flight id u) c db h =
      told-Calm l c.now db _ _ (release_in_flight-Calm l c db id u)
  calm-Orderly (cancel_unsent id t u) c db h =
      told-Calm l c.now db _ _ (cancel_unsent-Calm l c db id t u)
  calm-Orderly command c db h =
      rest-Orderly c.now db _ (exec-SameRest l is_printable command c db (ground (arith, h)))

  exec-Orderly :
      (command : Command) (c : Clock) (db : Db)
      → Orderly l c.now db
          (is_start command && (exec l is_printable command c db).0)
          (exec l is_printable command c db).1
  unfolding exec
  exec-Orderly (begin_submission id t u) c db = begin_submission-Orderly l id t c db u
  exec-Orderly (begin_retry_submission id t p u) c db =
      begin_retry_submission-Orderly l id t c db p u
  exec-Orderly (begin_fallback id t u) c db = begin_fallback-Orderly l id t c db u
  exec-Orderly command c db = calm-Orderly command c db (ground arith)

  -- The tables stay within the limits: if at most `max_in_flight` jobs are in flight and at most
  -- `max_concurrent_sends` calls are being sent, this is so after every history.
  pub run-Within :
      (history : List (Command × Clock)) (db : Db)
      → Within l db
      → Within l (run l is_printable history db)
  unfolding run
  run-Within [] db h = h
  run-Within ((command, c) ∷ rest) db h =
      run-Within rest (exec l is_printable command c db).1 ((exec-Orderly command c db).within h)

  -- The times at which the starts of calls were granted.
  unfoldable pub start_times : List (Command × Clock) → Db → List Time
  unfolding exec
  start_times [] db = []
  start_times ((command, c) ∷ rest) db =
      let (reported, after) = exec l is_printable command c db in
      let later = start_times rest after in
      if is_start command && reported then c.now ∷ later else later

  -- No call is started before the time in the limiter's row.
  start_times-later :
      (n : Time) (history : List (Command × Clock)) (db : Db)
      → n ≤ next_of db.limiter
      → All (λ t. n ≤ t) (start_times history db)
  unfolding start_times
  start_times-later n [] db h = tt
  start_times-later n ((command, c) ∷ rest) db h =
      let step = exec-Orderly command c db in
      let all =
        start_times-later n rest (exec l is_printable command c db).1
          (omega (arith, h, step.later)) in
      elim (Bool-cases (is_start command && (exec l is_printable command c db).0)) [
        | inl granted ↦ rw granted (omega (arith, h, step.spaced granted), all)
        | inr none_granted ↦ rw none_granted all
      ]

  -- Each of two calls in a history, submission or fallback of any jobs, is started at least
  -- `min_send_interval` after the one before.
  pub start_times-Spaced :
      (history : List (Command × Clock)) (db : Db)
      → Spaced l.min_send_interval (start_times history db)
  unfolding start_times
  start_times-Spaced [] db = tt
  start_times-Spaced ((command, c) ∷ rest) db =
      let step = exec-Orderly command c db in
      let spaced = start_times-Spaced rest (exec l is_printable command c db).1 in
      elim (Bool-cases (is_start command && (exec l is_printable command c db).0)) [
        | inl granted ↦ rw granted (
          start_times-later (c.now + l.min_send_interval) rest (exec l is_printable command c db).1
              (step.waits granted),
          spaced,
        )
        | inr none_granted ↦ rw none_granted spaced
      ]
