-- ===== src/JobTable.antt =====
-- `AsyncJobRepository` of app/virtual_fitting/repositories/async_job_repository.py: jobs are created
-- once for each fitting_job_id, and read.
pub mod Due
pub mod Creation
use ktb4_15th_ai.Prelude.{
  ℕ, String, Bool, true, false, not, ◌&&◌, Option, none, some, List, [], ◌∷◌, ◌++◌, ltb, leb, any,
  all, length, find, is_some, if◌then◌else◌,
}
use ktb4_15th_ai.S3Key.{codes, is_blank, valid_s3_key}
use ktb4_15th_ai.Payload.{Result, ok, err, bad_input, ◌>>=◌, ◌>>◌, guard}
use ktb4_15th_ai.Job.{Uuid, Time, Job, Attempt, received, submit_pruna, pending}
use ktb4_15th_ai.Store.{Db, Clock, Op, checked, find_job, has_task}
use ktb4_15th_ai.JobState.Change.{check_job_id, check_uuid}
use ktb4_15th_ai.JobState.NotAccepted.{of_task}

-- `NewAsyncFittingJob`; `requested_at` has a time zone.
pub record NewJob : Type 0 where
  pub fitting_job_id : ℕ
  pub request_fingerprint : String
  pub user_image_key : String
  pub products : List String
  pub requested_at : Time

-- `AsyncJobCreateResult`.
pub record CreateResult : Type 0 where
  pub job : Job
  pub created : Bool

abbrev pub max_products : ℕ
max_products = 2

-- `_check_new_job`.
unfoldable pub check_new_job : NewJob → Result NewJob
unfolding is_blank valid_s3_key
check_new_job n = do
  check_job_id n.fitting_job_id
  guard (not (is_blank (codes n.request_fingerprint)))
  guard (valid_s3_key n.user_image_key)
  guard (leb 1 (length n.products) && leb (length n.products) max_products)
  guard (not (any (λ p. is_blank (codes p)) n.products))
  ok n

-- The row that `INSERT` writes: the values of the request, and the defaults of the table; `now()` is
-- the time at which the transaction starts.
abbrev pub new_row : NewJob → Time → Job
new_row n now = record {
  fitting_job_id = n.fitting_job_id;
  request_fingerprint = n.request_fingerprint;
  user_image_key = some n.user_image_key;
  products = some n.products;
  task_uuid = none;
  async_image_key = none;
  result_image_key = none;
  status = received;
  requested_at = n.requested_at;
  created_at = now;
  updated_at = now;
  pruna_submit_started_at = none;
  runware_accepted_at = none;
  next_action = some submit_pruna;
  verified_image_key = none;
  image_verified_at = none;
  result_payload = none;
  result_message_status = pending;
  result_message_attempt_count = 0;
  llm_generation_attempt_count = 0;
  fallback_attempt_count = 0;
  s3_check_attempt_count = 0;
  worker_lease_token = none;
  worker_lease_until = none;
  fallback_task_uuid = none;
  fallback_started_at = none;
  fallback_image_key = none;
  auth_hold_task_uuid = none;
  auth_hold_reason = none;
  auth_hold_at = none;
  runware_image_url = none;
  runware_image_uuid = none;
  ai_stores_result = false;
  pruna_not_accepted_at = none;
  pruna_retry_at = none;
}

-- `INSERT ... ON CONFLICT (fitting_job_id) DO NOTHING`, and the row that is there otherwise.
unfoldable pub insert_row : NewJob → Option Job → Op CreateResult
insert_row n (some r) c db = (ok (record { job = r; created = false }), db)
insert_row n none c db =
    let row = new_row n c.lock in
    (ok (record { job = row; created = true }), record db { jobs = db.jobs ++ row ∷ [] })

-- The transaction of `create`.
abbrev pub create_row : NewJob → Op CreateResult
create_row n c db = insert_row n (find_job n.fitting_job_id db.jobs) c db

unfoldable pub create : NewJob → Op CreateResult
unfolding insert_row check_new_job
create n = checked (check_new_job n) create_row

unfoldable pub find_by_fitting_job_id : ℕ → Op (Option Job)
find_by_fitting_job_id id = checked (check_job_id id) λ id c db. (ok (find_job id db.jobs), db)

unfoldable pub find_by_task_uuid : Option Uuid → Op (Option Job)
find_by_task_uuid task =
    checked (check_uuid task) λ task c db. (ok (find (has_task task) db.jobs), db)

-- The attempt with a task, current or past.
unfoldable pub find_attempt : Option Uuid → Op (Option Attempt)
find_attempt task =
    checked (check_uuid task) λ task c db. (ok (find (of_task task) db.attempts), db)
