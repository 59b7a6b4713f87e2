-- ===== src/Usage/Totals.antt =====
-- The amount of a day is the greater of what was recorded, each task once, and of the greatest total that
-- Runware has reported.
use ktb4_15th_ai.Prelude.{
  ℕ, ◌+◌, ◌≡◌, refl, Bool, true, false, Option, none, some, List, [], ◌∷◌, ◌++◌, arith, ◌==◌, max,
  any, find, All, if◌then◌else◌, Bool-cases, inl, inr, find-All, ==→eq, subst, ◌||◌,
}
use ktb4_15th_ai.Job.{Uuid, Time}
use ktb4_15th_ai.Usage.{
  DayRow, CostRow, UsageDb, upsert, added, first_cost, add, reconciled, first_total, reconcile,
  is_day, usage_of, get, record_row,
}

-- What changes the tables: a cost of V1, the cost of a task, and a total of Runware.
pub data Entry : Type 0 where
  paid : ℕ → ℕ → Entry
  task_cost : Uuid → ℕ → ℕ → ℕ → Entry
  total : ℕ → ℕ → Time → Entry

abbrev pub enter : Entry → UsageDb → UsageDb
enter (paid day cost) db = add day cost db
enter (task_cost task id cost day) db = (record_row task id cost day db).1
enter (total day sum now) db = (reconcile day sum now db).1

unfoldable pub enter_all : List Entry → UsageDb → UsageDb
unfolding add record_row reconcile
enter_all [] db = db
enter_all (e ∷ rest) db = enter_all rest (enter e db)

-- The independent account of a day: costs of V1, costs of tasks that are in no earlier entry, and the
-- greatest total.
abbrev pub is_task : Uuid → Entry → Bool
is_task task (task_cost u _ _ _) = u == task
is_task task _ = false

abbrev pub cost_on : ℕ → List Uuid → Entry → ℕ
cost_on day seen (paid d cost) = if d == day then cost else 0
cost_on day seen (task_cost task _ cost d) =
    if any (λ u. u == task) seen then 0 else if d == day then cost else 0
cost_on day seen (total _ _ _) = 0

abbrev pub see : Entry → List Uuid → List Uuid
see (task_cost task _ _ _) seen = task ∷ seen
see _ seen = seen

abbrev pub costs_on : ℕ → List Uuid → List Entry → ℕ
costs_on day seen [] = 0
costs_on day seen (e ∷ rest) = cost_on day seen e + costs_on day (see e seen) rest

abbrev pub total_on : ℕ → Entry → ℕ
total_on day (total d sum _) = if d == day then sum else 0
total_on day _ = 0

abbrev pub greatest_on : ℕ → List Entry → ℕ
greatest_on day [] = 0
greatest_on day (e ∷ rest) = max (total_on day e) (greatest_on day rest)

abbrev recorded : Option DayRow → ℕ
recorded none = 0
recorded (some r) = r.recorded_amount

abbrev known : Option DayRow → ℕ
known none = 0
known (some r) = r.reconciled_amount

abbrev recorded_on : ℕ → UsageDb → ℕ
recorded_on day db = recorded (find (is_day day) db.days)

abbrev known_on : ℕ → UsageDb → ℕ
known_on day db = known (find (is_day day) db.days)

-- A row that the code has made, with the amount that it keeps.
abbrev Balanced : DayRow → Type 0
Balanced r = (r.legacy_amount ≡ 0) × (r.amount ≡ max r.recorded_amount r.reconciled_amount)

add-recorded :
    (d day cost : ℕ) (rows : List DayRow)
    → recorded (find (is_day d) (upsert (first_cost day cost) (added cost) rows))
      ≡ (if day == d then cost else 0) + recorded (find (is_day d) rows)
add-recorded d day cost [] = ground arith
add-recorded d day cost (r ∷ rows) = ground (arith, add-recorded d day cost rows)

add-known :
    (d day cost : ℕ) (rows : List DayRow)
    → known (find (is_day d) (upsert (first_cost day cost) (added cost) rows))
      ≡ known (find (is_day d) rows)
add-known d day cost [] = ground arith
add-known d day cost (r ∷ rows) = ground (arith, add-known d day cost rows)

add-Balanced :
    (day cost : ℕ) (rows : List DayRow)
    → All Balanced rows
    → All Balanced (upsert (first_cost day cost) (added cost) rows)
add-Balanced day cost [] h = ground arith
add-Balanced day cost (r ∷ rows) h = ground (arith, add-Balanced day cost rows h.1)

reconcile-recorded :
    (d day sum : ℕ) (now : Time) (rows : List DayRow)
    → recorded (find (is_day d) (upsert (first_total day sum now) (reconciled sum now) rows))
      ≡ recorded (find (is_day d) rows)
reconcile-recorded d day sum now [] = ground arith
reconcile-recorded d day sum now (r ∷ rows) = ground (arith, reconcile-recorded d day sum now rows)

reconcile-known :
    (d day sum : ℕ) (now : Time) (rows : List DayRow)
    → known (find (is_day d) (upsert (first_total day sum now) (reconciled sum now) rows))
      ≡ max (if day == d then sum else 0) (known (find (is_day d) rows))
reconcile-known d day sum now [] = ground arith
reconcile-known d day sum now (r ∷ rows) = ground (arith, reconcile-known d day sum now rows)

reconcile-Balanced :
    (day sum : ℕ) (now : Time) (rows : List DayRow)
    → All Balanced rows
    → All Balanced (upsert (first_total day sum now) (reconciled sum now) rows)
reconcile-Balanced day sum now [] h = ground arith
reconcile-Balanced day sum now (r ∷ rows) h =
    ground (arith, reconcile-Balanced day sum now rows h.1)

-- The tasks that have a cost are the ones that were seen.
abbrev Seen : List Uuid → UsageDb → Type 0
Seen seen db = (task : Uuid) → any (λ r. r.task_uuid == task) db.costs ≡ any (λ u. u == task) seen

any-append :
    (p : CostRow → Bool) (rows : List CostRow) (r : CostRow)
    → any p (rows ++ r ∷ []) ≡ (any p rows || p r)
any-append p [] r = ground arith
any-append p (x ∷ rows) r = ground (arith, any-append p rows r)

any_same :
    (task u : Uuid) (seen : List Uuid)
    → any (λ v. v == task) seen ≡ true
    → (task == u) ≡ true
    → any (λ v. v == u) seen ≡ true
any_same task u seen h e = subst (λ w. any (λ v. v == w) seen ≡ true) (==→eq task u e) h

record_row-Seen :
    (task : Uuid) (id cost day : ℕ) (seen : List Uuid) (db : UsageDb)
    → Seen seen db
    → Seen (task ∷ seen) (record_row task id cost day db).1
unfolding record_row add
record_row-Seen task id cost day seen db h u =
    elim (Bool-cases (any (λ r. r.task_uuid == task) db.costs)) [
      | inl there ↦
          let same = h task in
          let later = h u in rw there (ground (arith, same, there, later, any_same task u seen))
      | inr new ↦
          let later = h u in
          let at_end =
            any-append (λ r. r.task_uuid == u) db.costs
              (record { task_uuid = task; fitting_job_id = id; cost = cost; day = day }) in
          rw new (ground (arith, later, at_end))
    ]

enter-Seen :
    (e : Entry) (seen : List Uuid) (db : UsageDb) → Seen seen db → Seen (see e seen) (enter e db)
unfolding add reconcile
enter-Seen (paid day cost) seen db h = h
enter-Seen (task_cost task id cost day) seen db h = record_row-Seen task id cost day seen db h
enter-Seen (total day sum now) seen db h = h

enter-recorded :
    (d : ℕ) (e : Entry) (seen : List Uuid) (db : UsageDb)
    → Seen seen db
    → recorded_on d (enter e db) ≡ cost_on d seen e + recorded_on d db
unfolding add reconcile record_row
enter-recorded d (paid day cost) seen db h = add-recorded d day cost db.days
enter-recorded d (total day sum now) seen db h =
    omega (arith, reconcile-recorded d day sum now db.days)
enter-recorded d (task_cost task id cost day) seen db h =
    let same = h task in ground (arith, same, add-recorded d day cost db.days)

enter-known :
    (d : ℕ) (e : Entry) (db : UsageDb)
    → known_on d (enter e db) ≡ max (total_on d e) (known_on d db)
unfolding add reconcile record_row
enter-known d (paid day cost) db = ground (arith, add-known d day cost db.days)
enter-known d (total day sum now) db = reconcile-known d day sum now db.days
enter-known d (task_cost task id cost day) db = ground (arith, add-known d day cost db.days)

record_row-holds :
    (task : Uuid) (id cost day : ℕ) (db : UsageDb) (P : List DayRow → Type 0)
    → P db.days
    → P (upsert (first_cost day cost) (added cost) db.days)
    → P (record_row task id cost day db).1.days
unfolding record_row add
record_row-holds task id cost day db P same more = ground (arith, same, more)

enter-Balanced : (e : Entry) (db : UsageDb) → All Balanced db.days → All Balanced (enter e db).days
unfolding add reconcile record_row
enter-Balanced (paid day cost) db h = add-Balanced day cost db.days h
enter-Balanced (total day sum now) db h = reconcile-Balanced day sum now db.days h
enter-Balanced (task_cost task id cost day) db h =
    record_row-holds task id cost day db (λ rows. All Balanced rows) h
      (add-Balanced day cost db.days h)

usage_of-amount :
    (r : Option DayRow)
    → ((x : DayRow) → r ≡ some x → Balanced x)
    → (usage_of r).amount ≡ max (recorded r) (known r)
usage_of-amount none h = ground arith
usage_of-amount (some r) h = let balanced = h r refl in ground (arith, balanced)

enter_all-amount :
    (day : ℕ) (entries : List Entry) (seen : List Uuid) (db : UsageDb)
    → All Balanced db.days
    → Seen seen db
    → (get day (enter_all entries db)).amount
      ≡ max
          (costs_on day seen entries + recorded_on day db)
          (max (greatest_on day entries) (known_on day db))
unfolding enter_all get
enter_all-amount day [] seen db h s =
    let here =
      usage_of-amount (find (is_day day) db.days)
        (λ x e. find-All Balanced (is_day day) db.days h e) in
    omega (arith, here)
enter_all-amount day (e ∷ rest) seen db h s =
    let later =
      enter_all-amount day rest (see e seen) (enter e db) (enter-Balanced e db h)
        (enter-Seen e seen db s) in
    omega (arith, later, enter-recorded day e seen db s, enter-known day e db)

abbrev pub no_usage : UsageDb
no_usage = record { days = []; costs = [] }

-- From empty tables, whatever is recorded and reported in whatever order, the amount of each day is the
-- greater of the sum of its costs, where the cost of a task counts once, with its first entry, and of
-- the greatest total that Runware has reported for it.
pub get-enter_all :
    (day : ℕ) (entries : List Entry)
    → (get day (enter_all entries no_usage)).amount
      ≡ max (costs_on day [] entries) (greatest_on day entries)
unfolding get
get-enter_all day entries =
    let all = enter_all-amount day entries [] no_usage tt (λ task. refl) in omega (arith, all)
