-- ===== src/JobTable/Due/Order.antt =====
-- The sort of `find_result_publish_due`: what it keeps of its rows, and their order.
use ktb4_15th_ai.Prelude.{
  ℕ, zero, suc, ◌≤◌, ◌≡◌, refl, Bool, true, false, List, [], ◌∷◌, arith, All, keep, count, take,
  length, min, Bool-cases, inl, inr,
}
use ktb4_15th_ai.Job.{Job}
use ktb4_15th_ai.JobTable.Due.{comes_before, insert, sort, IsSorted}

comes_before_trans :
    (a b c : Job) → comes_before a b ≡ true → comes_before b c ≡ true → comes_before a c ≡ true
comes_before_trans a b c h k = ground (arith, h, k)

comes_before_total : (a b : Job) → comes_before a b ≡ false → comes_before b a ≡ true
comes_before_total a b h = ground (arith, h)

All-before :
    (a b : Job) (rows : List Job)
    → comes_before a b ≡ true
    → All (λ c. comes_before b c ≡ true) rows
    → All (λ c. comes_before a c ≡ true) rows
All-before a b [] h k = tt
All-before a b (c ∷ rows) h k = (comes_before_trans a b c h k.0, All-before a b rows h k.1)

module _ (P : Job → Type 0) where
  pub insert-All : (r : Job) (rows : List Job) → P r → All P rows → All P (insert r rows)
  unfolding insert
  insert-All r [] p h = (p, tt)
  insert-All r (s ∷ rows) p h = elim (Bool-cases (comes_before r s)) [
    | inl first ↦ rw first (p, h)
    | inr later ↦ rw later (h.0, insert-All r rows p h.1)
  ]

  pub sort-All : (rows : List Job) → All P rows → All P (sort rows)
  unfolding sort
  sort-All [] h = tt
  sort-All (r ∷ rows) h = insert-All r (sort rows) h.0 (sort-All rows h.1)

  pub take-All : (n : ℕ) (rows : List Job) → All P rows → All P (take n rows)
  take-All zero rows h = tt
  take-All (suc n) [] h = tt
  take-All (suc n) (r ∷ rows) h = (h.0, take-All n rows h.1)

insert-IsSorted : (r : Job) (rows : List Job) → IsSorted rows → IsSorted (insert r rows)
unfolding insert
insert-IsSorted r [] h = (tt, tt)
insert-IsSorted r (s ∷ rows) h = elim (Bool-cases (comes_before r s)) [
  | inl first ↦ rw first ((first, All-before r s rows first h.0), h)
  | inr later ↦ rw later (
    insert-All (λ c. comes_before s c ≡ true) r rows (comes_before_total r s later) h.0,
    insert-IsSorted r rows h.1,
  )
]

pub sort-IsSorted : (rows : List Job) → IsSorted (sort rows)
unfolding sort
sort-IsSorted [] = tt
sort-IsSorted (r ∷ rows) = insert-IsSorted r (sort rows) (sort-IsSorted rows)

pub take-IsSorted : (n : ℕ) (rows : List Job) → IsSorted rows → IsSorted (take n rows)
take-IsSorted zero rows h = tt
take-IsSorted (suc n) [] h = tt
take-IsSorted (suc n) (r ∷ rows) h =
    (take-All (λ c. comes_before r c ≡ true) n rows h.0, take-IsSorted n rows h.1)

pub keep-holds : (p : Job → Bool) (rows : List Job) → All (λ r. p r ≡ true) (keep p rows)
keep-holds p [] = tt
keep-holds p (r ∷ rows) = elim (Bool-cases (p r)) [
  | inl met ↦ rw met (met, keep-holds p rows)
  | inr not_met ↦ rw not_met (keep-holds p rows)
]

length-insert : (r : Job) (rows : List Job) → length (insert r rows) ≡ suc (length rows)
unfolding insert
length-insert r [] = refl
length-insert r (s ∷ rows) = ground (arith, length-insert r rows)

pub length-sort : (rows : List Job) → length (sort rows) ≡ length rows
unfolding sort
length-sort [] = refl
length-sort (r ∷ rows) = omega (arith, length-insert r (sort rows), length-sort rows)

pub length-take : (n : ℕ) (rows : List Job) → length (take n rows) ≡ min n (length rows)
length-take zero rows = ground arith
length-take (suc n) [] = ground arith
length-take (suc n) (r ∷ rows) = ground (arith, length-take n rows)

-- A row is where the sort left it.
count-insert :
    (p : Job → Bool) (r : Job) (rows : List Job) → count p (insert r rows) ≡ count p (r ∷ rows)
unfolding insert
count-insert p r [] = refl
count-insert p r (s ∷ rows) = ground (arith, count-insert p r rows)

pub count-sort : (p : Job → Bool) (rows : List Job) → count p (sort rows) ≡ count p rows
unfolding sort
count-sort p [] = refl
count-sort p (r ∷ rows) = omega (arith, count-insert p r (sort rows), count-sort p rows)

pub count-take-le :
    (p : Job → Bool) (n : ℕ) (rows : List Job) → count p (take n rows) ≤ count p rows
count-take-le p zero rows = ground arith
count-take-le p (suc n) [] = ground arith
count-take-le p (suc n) (r ∷ rows) = omega (arith, count-take-le p n rows)
