-- ===== src/JobTable/Due/Oldest.antt =====
-- The jobs that `find_result_publish_due` gives are those whose result can be leased to be sent, the oldest first.
use ktb4_15th_ai.Prelude.{
  ℕ, zero, suc, ◌≤◌, ◌<◌, ◌≡◌, refl, sym, subst, ◌⊎◌, inl, inr, Bool, true, false, ◌&&◌, List, [],
  ◌∷◌, arith, All, keep, count, take, length, map, min, leb, ltb, ltb→lt, Bool-cases, keep-All,
  length-keep-count, count-keep-le,
}
use ktb4_15th_ai.Payload.{Result, ok, err}
use ktb4_15th_ai.Job.{Time, Job, publish_result, is_pending}
use ktb4_15th_ai.Store.{Db, Clock}
use ktb4_15th_ai.Rules.{IsValid}
use ktb4_15th_ai.JobState.Lease.{can_acquire, lease_free}
use ktb4_15th_ai.JobTable.Due.{
  is_due, comes_before, insert, sort, due_rows, find_result_publish_due, IsSorted,
}
use ktb4_15th_ai.JobTable.Due.Order.{
  sort-All, take-All, sort-IsSorted, take-IsSorted, keep-holds, length-sort, length-take,
  count-sort, count-take-le,
}

-- `acquire_lease` would lease the job to a publisher, and its message waits.
abbrev pub publishable : Time → Job → Bool
publishable now r = can_acquire publish_result now r && is_pending r.result_message_status

-- The job has waited longer, or as long with a smaller id.
abbrev pub Older : Job → Job → Type 0
Older a b =
    (a.updated_at < b.updated_at)
    ⊎ ((a.updated_at ≡ b.updated_at) × (a.fitting_job_id ≤ b.fitting_job_id))

abbrev pub OldestFirst : List Job → Type 0
OldestFirst [] = Unit
OldestFirst (a ∷ rows) = All (Older a) rows × OldestFirst rows

abbrev pub In : Job → List Job → Type 0
In r [] = ⊥
In r (x ∷ rows) = (r ≡ x) ⊎ In r rows

-- What the query gives: rows of the table that can be published, in their order, up to the limit; a job
-- that is left out has waited no longer than any of them.
pub record Chosen (limit : ℕ) (now : Time) (jobs : List Job) (ids : List ℕ) : Type 0 where
  pub rows : List Job
  pub ids_are : ids ≡ map (λ r. r.fitting_job_id) rows
  pub ordered : OldestFirst rows
  pub each : All (λ r. publishable now r ≡ true) rows
  pub size : length rows ≡ min limit (count (publishable now) jobs)
  pub once : (p : Job → Bool) → count p rows ≤ count p jobs
  pub oldest :
      (r : Job) → In r jobs → publishable now r ≡ true → In r rows ⊎ All (λ s. Older s r) rows

abbrev pub Answers : ℕ → Time → Db → Result (List ℕ) × Db → Type 0
Answers limit now db (ok ids, after) =
    (1 ≤ limit) × (limit ≤ 100) × Chosen limit now db.jobs ids × (after ≡ db)
Answers limit now db (err e, after) = ((limit < 1) ⊎ (100 < limit)) × (after ≡ db)

is_due-publishable : (now : Time) (r : Job) → IsValid r → is_due now r ≡ publishable now r
unfolding is_due lease_free
is_due-publishable now r v = let action = v.action in ground (arith, action)

count-publishable :
    (now : Time) (rows : List Job)
    → All IsValid rows
    → count (is_due now) rows ≡ count (publishable now) rows
count-publishable now [] v = refl
count-publishable now (r ∷ rows) v =
    rw (is_due-publishable now r v.0, count-publishable now rows v.1) refl

due-publishable :
    (now : Time) (rows : List Job)
    → All IsValid rows
    → All (λ r. is_due now r ≡ true) rows
    → All (λ r. publishable now r ≡ true) rows
due-publishable now [] v h = tt
due-publishable now (r ∷ rows) v h =
    (subst (λ b. b ≡ true) (is_due-publishable now r v.0) h.0, due-publishable now rows v.1 h.1)

before-Older : (a b : Job) → comes_before a b ≡ true → Older a b
before-Older a b h = elim (Bool-cases (ltb a.updated_at b.updated_at)) [
  | inl earlier ↦ inl (ltb→lt _ _ earlier)
  | inr other ↦ inr (ground (arith, h, other), ground (arith, h, other))
]

All-Older :
    (a : Job) (rows : List Job) → All (λ b. comes_before a b ≡ true) rows → All (Older a) rows
All-Older a [] h = tt
All-Older a (b ∷ rows) h = (before-Older a b h.0, All-Older a rows h.1)

sorted-OldestFirst : (rows : List Job) → IsSorted rows → OldestFirst rows
sorted-OldestFirst [] h = tt
sorted-OldestFirst (a ∷ rows) h = (All-Older a rows h.0, sorted-OldestFirst rows h.1)

All-In : (P : Job → Type 0) (r : Job) (rows : List Job) → All P rows → In r rows → P r
All-In P r [] h i = elim i [ ]
All-In P r (x ∷ rows) h (inl e) = subst P (sym e) h.0
All-In P r (x ∷ rows) h (inr i) = All-In P r rows h.1 i

In-keep : (p : Job → Bool) (r : Job) (rows : List Job) → p r ≡ true → In r rows → In r (keep p rows)
In-keep p r [] h i = elim i [ ]
In-keep p r (x ∷ rows) h (inl e) = rw (subst (λ y. p y ≡ true) e h) (inl e)
In-keep p r (x ∷ rows) h (inr i) = elim (Bool-cases (p x)) [
  | inl kept ↦ rw kept (inr (In-keep p r rows h i))
  | inr out ↦ rw out (In-keep p r rows h i)
]

insert-first :
    (r x y : Job) (rows later : List Job)
    → (In r (x ∷ rows) → In r later)
    → In r (x ∷ y ∷ rows)
    → In r (y ∷ later)
insert-first r x y rows later h (inl e) = inr (h (inl e))
insert-first r x y rows later h (inr (inl e)) = inl e
insert-first r x y rows later h (inr (inr i)) = inr (h (inr i))

In-insert : (r x : Job) (rows : List Job) → In r (x ∷ rows) → In r (insert x rows)
unfolding insert
In-insert r x [] i = i
In-insert r x (y ∷ rows) i =
    let later = insert-first r x y rows (insert x rows) (In-insert r x rows) i in
    elim (Bool-cases (comes_before x y)) [
      | inl first ↦ rw first i
      | inr not_first ↦ rw not_first later
    ]

In-sort : (r : Job) (rows : List Job) → In r rows → In r (sort rows)
unfolding sort
In-sort r [] i = i
In-sort r (x ∷ rows) (inl e) = In-insert r x (sort rows) (inl e)
In-sort r (x ∷ rows) (inr i) = In-insert r x (sort rows) (inr (In-sort r rows i))

-- Of rows in order, those taken first come before each that is not taken.
In-take :
    (n : ℕ) (r : Job) (rows : List Job)
    → OldestFirst rows
    → In r rows
    → In r (take n rows) ⊎ All (λ s. Older s r) (take n rows)
In-take zero r rows h i = inr tt
In-take (suc n) r [] h i = inr tt
In-take (suc n) r (x ∷ rows) h (inl e) = inl (inl e)
In-take (suc n) r (x ∷ rows) h (inr i) = elim (In-take n r rows h.1 i) [
  | inl taken ↦ inl (inr taken)
  | inr older ↦ inr (All-In (Older x) r rows h.0 i, older)
]

due_rows-Chosen :
    (limit : ℕ) (now : Time) (jobs : List Job)
    → All IsValid jobs
    → Chosen limit now jobs (map (λ r. r.fitting_job_id) (due_rows limit now jobs))
unfolding due_rows
due_rows-Chosen limit now jobs valid =
    let due = keep (is_due now) jobs in
    record {
      rows = take limit (sort due);
      ids_are = refl;
      ordered = sorted-OldestFirst _ (take-IsSorted limit _ (sort-IsSorted due));
      each =
          take-All (λ r. publishable now r ≡ true) limit _
            (sort-All (λ r. publishable now r ≡ true) due
              (due-publishable now due (keep-All _ (is_due now) jobs valid)
                (keep-holds (is_due now) jobs)));
      size = omega (
        arith,
        length-take limit (sort due),
        length-sort due,
        length-keep-count (is_due now) jobs,
        count-publishable now jobs valid,
      );
      once = λ p. omega (
        arith,
        count-take-le p limit (sort due),
        count-sort p due,
        count-keep-le p (is_due now) jobs,
      );
      oldest = λ r i free. In-take limit r (sort due) (sorted-OldestFirst _ (sort-IsSorted due)) (
          In-sort r due (
            In-keep (is_due now) r jobs
              (subst (λ b. b ≡ true)
                (sym (is_due-publishable now r (All-In IsValid r jobs valid i))) free)
              i));
    }

out_of : (limit : ℕ) → (leb 1 limit && leb limit 100) ≡ false → (limit < 1) ⊎ (100 < limit)
out_of limit h = elim (Bool-cases (leb 1 limit)) [
  | inl some_ ↦ inr (ground (arith, h, some_))
  | inr none_ ↦ inl (ground (arith, none_))
]

-- If the rows keep the rules, `find_result_publish_due` gives, for a limit from 1 to 100, the ids of jobs whose
-- result `acquire_lease` would lease to be sent: the oldest first, by `updated_at` and then by id, none more
-- often than it is in the table, as many as there are up to the limit, and none instead of one that has
-- waited longer. For another limit it raises. It changes no table.
pub find_result_publish_due-Answers :
    (limit : ℕ) (c : Clock) (db : Db)
    → All IsValid db.jobs
    → Answers limit c.now db (find_result_publish_due limit c db)
unfolding find_result_publish_due
find_result_publish_due-Answers limit c db valid =
    elim (Bool-cases (leb 1 limit && leb limit 100)) [
      | inl within ↦ rw within (
        ground (arith, within),
        ground (arith, within),
        due_rows-Chosen limit c.now db.jobs valid,
        refl,
      )
      | inr outside ↦ rw outside (out_of limit outside, refl)
    ]
