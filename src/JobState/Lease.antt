-- ===== src/JobState/Lease.antt =====
-- `acquire_lease`, `renew_lease`, `release_lease` and `holds_lease`.
use ktb4_15th_ai.Prelude.{
  ℕ, ◌+◌, String, Bool, true, false, not, ◌&&◌, ◌||◌, Option, none, some, leb, is_none,
  if◌then◌else◌,
}
use ktb4_15th_ai.Payload.{Result, ok, err, ◌>>◌}
use ktb4_15th_ai.Job.{Time, NextAction, Job, is_terminal, is_action}
use ktb4_15th_ai.Store.{Db, Op, checked, find_job}
use ktb4_15th_ai.JobState.Change.{
  StateChange, ChangeReason, state_mismatch, lease_held, Condition, Assignments, Diagnosis,
  check_job_id, check_seconds, check_token, lease_valid, touched, free_reason, mismatch, run_row,
  update,
}

-- `LeaseGrant`.
pub record LeaseGrant : Type 0 where
  pub acquired : Bool
  pub reason : ChangeReason
  pub token : Option String
  pub job : Option Job

-- `column <= now`, not met by a NULL.
abbrev pub is_past : Option Time → Time → Bool
is_past none now = false
is_past (some t) now = leb t now

-- Nobody holds the lease, or it has run out.
unfoldable pub lease_free : Condition
lease_free now r = is_none r.worker_lease_token || is_past r.worker_lease_until now

abbrev pub can_acquire : NextAction → Condition
can_acquire action now r =
    not (is_terminal r.status) && is_action r.next_action action && lease_free now r

abbrev pub hold_until : String → ℕ → Assignments
hold_until token lease now r = record r {
  worker_lease_token = some token;
  worker_lease_until = some (now + lease);
}

abbrev pub acquire_reason : NextAction → Diagnosis
acquire_reason action r now = if is_action r.next_action action then lease_held else state_mismatch

abbrev pub to_grant : String → Result StateChange × Db → Result LeaseGrant × Db
to_grant token (err e, db) = (err e, db)
to_grant token (ok change, db) = (
  ok (record {
    acquired = change.applied;
    reason = change.reason;
    token = if change.applied then some token else none;
    job = change.job;
  }),
  db,
)

-- The transaction of `acquire_lease`.
abbrev pub acquire_row : String → ℕ → NextAction → ℕ → Op StateChange
acquire_row token id action lease c db =
    run_row (can_acquire action) (touched (hold_until token lease))
      (free_reason (acquire_reason action)) (find_job id db.jobs) c db

-- `token` is the fresh `uuid4` of the call.
unfoldable pub acquire_lease : String → ℕ → NextAction → ℕ → Op LeaseGrant
unfolding run_row lease_free
acquire_lease token id action lease c db = to_grant token (
    checked (do check_seconds lease; check_job_id id) (λ _. acquire_row token id action lease) c db)

abbrev pub can_renew : Condition
can_renew now r = not (is_terminal r.status)

abbrev pub extend_until : ℕ → Assignments
extend_until lease now r = record r { worker_lease_until = some (now + lease) }

unfoldable pub renew_lease : ℕ → String → ℕ → Op StateChange
unfolding update
renew_lease id token lease =
    checked (check_seconds lease)
      λ lease. update id token (extend_until lease) can_renew false mismatch

abbrev pub always : Condition
always now r = true

abbrev pub drop_lease : Assignments
drop_lease now r = record r { worker_lease_token = none; worker_lease_until = none }

unfoldable pub release_lease : ℕ → String → Op StateChange
unfolding update
release_lease id token = update id token drop_lease always true mismatch

abbrev row_holds : String → Time → Option Job → Bool
row_holds token now none = false
row_holds token now (some r) = lease_valid token now r

unfoldable pub holds_lease : ℕ → String → Op Bool
unfolding lease_valid
holds_lease id token =
    checked (do check_job_id id; check_token token)
      λ _ c db. (ok (row_holds token c.now (find_job id db.jobs)), db)
