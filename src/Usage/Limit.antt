-- ===== src/Usage/Limit.antt =====
-- The check of the budget of a day.
use ktb4_15th_ai.Prelude.{
  ℕ, ◌≤◌, ◌<◌, ◌≡◌, refl, Bool, true, false, Option, none, some, List, [], ◌∷◌, arith, subst, leb,
  find, Bool-cases, inl, inr, ==_refl,
}
use ktb4_15th_ai.Job.{Time}
use ktb4_15th_ai.Usage.{
  DayRow, UsageDb, upsert, reconciled, first_total, reconcile, is_day, row_amount, usage_of, get,
  Budget, Availability, available, exceeded, lookup_failed, decide, looked_up, is_stale,
  ensure_available,
}

-- After a reconciliation the stored amount is the effective one, and covers the total.
reconcile-row :
    (day total : ℕ) (now : Time) (rows : List DayRow)
    → (row_amount
          (find (is_day day) (upsert (first_total day total now) (reconciled total now) rows))
        ≡ (usage_of (
            find
              (is_day day)
              (upsert (first_total day total now) (reconciled total now) rows))).amount)
      × (total
          ≤ row_amount
              (find (is_day day) (upsert (first_total day total now) (reconciled total now) rows)))
reconcile-row day total now [] = ground (arith, ==_refl day)
reconcile-row day total now (r ∷ rows) =
    ground (arith, ==_refl day, reconcile-row day total now rows)

-- What is known of the amount of the day after the check: it covers what Runware has just reported, or no
-- report was due and nothing was written.
abbrev pub Covered : Bool → Option ℕ → ℕ → UsageDb → UsageDb → Type 0
Covered true none today before after = ⊥
Covered true (some total) today before after = total ≤ (get today after).amount
Covered false report today before after = after ≡ before

-- How the check ends, by whether a report was due and what it said.
abbrev pub Checked : Budget → Bool → Option ℕ → ℕ → UsageDb → Availability × UsageDb → Type 0
Checked b stale report today before (available, after) =
    ((get today after).amount < b.daily_limit) × Covered stale report today before after
Checked b stale report today before (exceeded, after) =
    (b.daily_limit ≤ (get today after).amount) × Covered stale report today before after
Checked b stale report today before (lookup_failed, after) =
    (stale ≡ true) × (report ≡ none) × (after ≡ before)

decide-Checked :
    (b : Budget) (stale : Bool) (report : Option ℕ) (today amount : ℕ) (before after : UsageDb)
    → amount ≡ (get today after).amount
    → Covered stale report today before after
    → Checked b stale report today before (decide b (amount, after))
decide-Checked b stale report today amount before after same covered =
    elim (Bool-cases (leb b.daily_limit amount)) [
      | inl reached ↦ rw reached (grind (arith, reached, same), covered)
      | inr below ↦ rw below (grind (arith, below, same), covered)
    ]

module _ (b : Budget) (spend_on : ℕ → Option ℕ) (today : ℕ) (now db_now : Time) (db : UsageDb) where
  looked_up-Checked :
      (report : Option ℕ) → Checked b true report today db (looked_up b today db_now db report)
  unfolding reconcile get
  looked_up-Checked none = (refl, refl, refl)
  looked_up-Checked (some total) =
      let row = reconcile-row today total db_now db.days in
      decide-Checked b true (some total) today _ db (reconcile today total db_now db).1 row.0
        (subst (λ a. total ≤ a) row.0 row.1)

  -- `ensure_available` returns only if the amount of the day, as it is then, is below the limit, and raises the
  -- error of the budget only if it is not; if the last reconciliation was too long ago, this amount is at least
  -- what Runware reports as spent, and otherwise nothing is written. The check fails in the lookup only if a
  -- report was due and the lookup raised, and then nothing is written.
  pub ensure_available-Checked :
      Checked b
        (is_stale b (get today db).reconciled_at now)
        (spend_on today)
        today
        db
        (ensure_available b spend_on today now db_now db)
  unfolding ensure_available
  ensure_available-Checked = elim (Bool-cases (is_stale b (get today db).reconciled_at now)) [
    | inl stale ↦ rw stale (looked_up-Checked (spend_on today))
    | inr recent ↦
        rw recent
          (decide-Checked b false (spend_on today) today (get today db).amount db db refl refl)
  ]
