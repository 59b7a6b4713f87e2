-- ===== src/JobTable/Due.antt =====
-- `find_result_publish_due`: the jobs whose result waits to be sent, the oldest first.
pub mod Order
pub mod Oldest
use ktb4_15th_ai.Prelude.{
  ℕ, ◌≡◌, Bool, true, not, ◌&&◌, ◌||◌, List, [], ◌∷◌, ltb, leb, ◌==◌, keep, take, map, is_some, All,
  if◌then◌else◌,
}
use ktb4_15th_ai.Payload.{Result, ok, err, bad_input}
use ktb4_15th_ai.Job.{Time, Job, publish_result, is_terminal, is_action, is_pending}
use ktb4_15th_ai.Store.{Op, checked}
use ktb4_15th_ai.JobState.Lease.{lease_free}

-- The `WHERE` of the query.
unfoldable pub is_due : Time → Job → Bool
unfolding lease_free
is_due now r =
    is_action r.next_action publish_result
    && is_some r.result_payload
    && is_pending r.result_message_status
    && not (is_terminal r.status)
    && lease_free now r

-- `ORDER BY updated_at, fitting_job_id`.
abbrev pub comes_before : Job → Job → Bool
comes_before a b =
    ltb a.updated_at b.updated_at
    || a.updated_at == b.updated_at && leb a.fitting_job_id b.fitting_job_id

unfoldable pub insert : Job → List Job → List Job
insert r [] = r ∷ []
insert r (s ∷ rows) = if comes_before r s then r ∷ s ∷ rows else s ∷ insert r rows

unfoldable pub sort : List Job → List Job
unfolding insert
sort [] = []
sort (r ∷ rows) = insert r (sort rows)

abbrev pub check_limit : ℕ → Result ℕ
check_limit n = if leb 1 n && leb n 100 then ok n else err bad_input

-- The rows that the query gives, of which the method returns the ids.
unfoldable pub due_rows : ℕ → Time → List Job → List Job
unfolding sort is_due
due_rows limit now rows = take limit (sort (keep (is_due now) rows))

unfoldable pub find_result_publish_due : ℕ → Op (List ℕ)
unfolding due_rows
find_result_publish_due limit =
    checked (check_limit limit)
      λ limit c db. (ok (map (λ r. r.fitting_job_id) (due_rows limit c.now db.jobs)), db)

-- Each row is not behind the one after it.
abbrev pub IsSorted : List Job → Type 0
IsSorted [] = Unit
IsSorted (a ∷ rows) = All (λ b. comes_before a b ≡ true) rows × IsSorted rows
