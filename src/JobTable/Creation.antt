-- ===== src/JobTable/Creation.antt =====
-- `create` makes one job for a fitting_job_id, however often the request is delivered.
use ktb4_15th_ai.Prelude.{
  ℕ, ◌≡◌, refl, ap, ◌∙◌, false, Option, none, some, List, [], ◌∷◌, ◌++◌, arith, ==_refl,
}
use ktb4_15th_ai.Payload.{ok}
use ktb4_15th_ai.Job.{Job}
use ktb4_15th_ai.Store.{Db, Clock, find_job}
use ktb4_15th_ai.JobTable.{NewJob, check_new_job, new_row, insert_row, create}

find-append :
    (id : ℕ) (rows : List Job) (r : Job)
    → find_job id rows ≡ none
    → r.fitting_job_id ≡ id
    → find_job id (rows ++ r ∷ []) ≡ some r
find-append id [] r h e = ground (arith, h, e, ==_refl id)
find-append id (s ∷ rows) r h e = ground (arith, h, find-append id rows r)

-- The row that a request finds, or makes.
abbrev pub row_for : NewJob → Clock → Option Job → Job
row_for n c none = new_row n c.lock
row_for n c (some r) = r

insert_row-found :
    (n : NewJob) (c : Clock) (db : Db) (r : Option Job)
    → find_job n.fitting_job_id db.jobs ≡ r
    → find_job n.fitting_job_id (insert_row n r c db).1.jobs ≡ some (row_for n c r)
unfolding insert_row
insert_row-found n c db none e = find-append n.fitting_job_id db.jobs (new_row n c.lock) e refl
insert_row-found n c db (some r) e = e

create-found :
    (n : NewJob) (c : Clock) (db : Db)
    → check_new_job n ≡ ok n
    → find_job n.fitting_job_id (create n c db).1.jobs
      ≡ some (row_for n c (find_job n.fitting_job_id db.jobs))
unfolding create
create-found n c db fits =
    rw fits (insert_row-found n c db (find_job n.fitting_job_id db.jobs) refl)

create-again :
    (m : NewJob) (d : Clock) (db : Db) (r : Job)
    → check_new_job m ≡ ok m
    → find_job m.fitting_job_id db.jobs ≡ some r
    → create m d db ≡ (ok (record { job = r; created = false }), db)
unfolding create insert_row
create-again m d db r fits there = rw (fits, there) refl

-- After a request that passes the check, the row that its id had before, or else the row of the request,
-- is found by the id; and a later request with this id, whatever else it asks for, gives this row,
-- reports that it made none, and leaves all tables as they are.
pub create-once :
    (n m : NewJob) (c d : Clock) (db : Db)
    → check_new_job n ≡ ok n
    → check_new_job m ≡ ok m
    → m.fitting_job_id ≡ n.fitting_job_id
    → (find_job n.fitting_job_id (create n c db).1.jobs
        ≡ some (row_for n c (find_job n.fitting_job_id db.jobs)))
      × (create m d (create n c db).1 ≡ (
        ok (record { job = row_for n c (find_job n.fitting_job_id db.jobs); created = false }),
        (create n c db).1,
      ))
create-once n m c d db fits refits same =
    let found = create-found n c db fits in
    (
      found,
      create-again m d (create n c db).1 (row_for n c (find_job n.fitting_job_id db.jobs)) refits
          (ap (λ id. find_job id (create n c db).1.jobs) same ∙ found),
    )
