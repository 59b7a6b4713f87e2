-- ===== src/Prelude/Lists.antt =====
-- Lists as the rows of a table: the first row that meets a test, counts, and rows related one by one.
use Prim.Native.Nat.{ℕ, zero, suc, ◌+◌, ◌≤◌}
use mathlib.Core.Path.{◌≡◌, refl}
use mathlib.Core.Bool.{Bool, true, false, not, ◌&&◌, ◌||◌}
use mathlib.Core.Option.{Option, none, some}
use mathlib.Core.List.{List, [], ◌∷◌, ◌++◌}
use native.Mathlib.Omega.{arith}
use ktb4_15th_ai.Prelude.Tests.{if◌then◌else◌}

module _ {ℓ} {A : Type ℓ} where
  abbrev pub length : List A → ℕ
  length [] = 0
  length (x ∷ xs) = suc (length xs)

  -- The first row that meets the test.
  abbrev pub find : (A → Bool) → List A → Option A
  find p [] = none
  find p (x ∷ xs) = if p x then some x else find p xs

  -- The rows that meet the test: `WHERE`, and `DELETE` with the test negated.
  abbrev pub keep : (A → Bool) → List A → List A
  keep p [] = []
  keep p (x ∷ xs) = let rest = keep p xs in if p x then x ∷ rest else rest

  -- `count(*) FILTER (WHERE p)`.
  abbrev pub count : (A → Bool) → List A → ℕ
  count p [] = 0
  count p (x ∷ xs) = (if p x then 1 else 0) + count p xs

  abbrev pub any : (A → Bool) → List A → Bool
  any p [] = false
  any p (x ∷ xs) = p x || any p xs

  abbrev pub all : (A → Bool) → List A → Bool
  all p [] = true
  all p (x ∷ xs) = p x && all p xs

  abbrev pub take : ℕ → List A → List A
  take zero xs = []
  take (suc n) [] = []
  take (suc n) (x ∷ xs) = x ∷ take n xs

  -- `UPDATE ... WHERE p`, where at most one row meets `p`.
  abbrev pub replace : (A → Bool) → A → List A → List A
  replace p y [] = []
  replace p y (x ∷ xs) = if p x then y ∷ xs else x ∷ replace p y xs

  -- `UPDATE ... WHERE p`.
  abbrev pub amend : (A → Bool) → (A → A) → List A → List A
  amend p f [] = []
  amend p f (x ∷ xs) = (if p x then f x else x) ∷ amend p f xs

  pub length-keep-le : (p : A → Bool) (xs : List A) → length (keep p xs) ≤ length xs
  length-keep-le p [] = omega arith
  length-keep-le p (x ∷ xs) = ground (arith, length-keep-le p xs)

  pub length-append_one : (xs : List A) (y : A) → length (xs ++ y ∷ []) ≡ suc (length xs)
  length-append_one [] y = refl
  length-append_one (x ∷ xs) y = omega (arith, length-append_one xs y)

  pub count-append : (p : A → Bool) (xs ys : List A) → count p (xs ++ ys) ≡ count p xs + count p ys
  count-append p [] ys = omega arith
  count-append p (x ∷ xs) ys = omega (arith, count-append p xs ys)

  pub count-keep-le : (p q : A → Bool) (xs : List A) → count p (keep q xs) ≤ count p xs
  count-keep-le p q [] = omega arith
  count-keep-le p q (x ∷ xs) = ground (arith, count-keep-le p q xs)

  pub count-le-length : (p : A → Bool) (xs : List A) → count p xs ≤ length xs
  count-le-length p [] = omega arith
  count-le-length p (x ∷ xs) = ground (arith, count-le-length p xs)

  -- A row that was found meets the test.
  pub find-holds : (p : A → Bool) (xs : List A) {x : A} → find p xs ≡ some x → p x ≡ true
  find-holds p [] h = cc
  find-holds p (y ∷ xs) {x} h = ground (arith, find-holds p xs {x = x})

module _ {ℓ κ} {A : Type ℓ} (P : A → Type κ) where
  -- Every row has the property.
  abbrev pub All : List A → Type κ
  All [] = Unit
  All (x ∷ xs) = P x × All xs

module _ {ℓ κ} {A : Type ℓ} (P : A → Type κ) where
  pub find-All : (p : A → Bool) (xs : List A) {x : A} → All P xs → find p xs ≡ some x → P x
  find-All p [] h e = cc
  find-All p (y ∷ xs) {x} h e = ground (arith, find-All p xs {x = x} h.1)

  pub replace-All : (p : A → Bool) (y : A) (xs : List A) → All P xs → P y → All P (replace p y xs)
  replace-All p y [] h hy = tt
  replace-All p y (x ∷ xs) h hy = ground (arith, replace-All p y xs h.1 hy)

  pub append-All : (xs ys : List A) → All P xs → All P ys → All P (xs ++ ys)
  append-All [] ys h k = k
  append-All (x ∷ xs) ys h k = (h.0, append-All xs ys h.1 k)

  pub keep-All : (p : A → Bool) (xs : List A) → All P xs → All P (keep p xs)
  keep-All p [] h = tt
  keep-All p (x ∷ xs) h = ground (arith, keep-All p xs h.1)

module _ {ℓ} {A : Type ℓ} (R : A → A → Type 0) where
  -- The rows after a change, each related to the row that stood there; rows are added at the end.
  abbrev pub Rows : List A → List A → Type 0
  Rows [] ys = Unit
  Rows (x ∷ xs) [] = ⊥
  Rows (x ∷ xs) (y ∷ ys) = R x y × Rows xs ys

module _ {ℓ} {A : Type ℓ} (R : A → A → Type 0) (reflexive : (a : A) → R a a) where
  pub Rows-refl : (xs : List A) → Rows R xs xs
  Rows-refl [] = tt
  Rows-refl (x ∷ xs) = (reflexive x, Rows-refl xs)

  -- An `UPDATE` of the row that was found.
  pub replace-Rows :
      (p : A → Bool) (r y : A) (xs : List A)
      → find p xs ≡ some r
      → R r y
      → Rows R xs (replace p y xs)
  replace-Rows p r y [] e h = tt
  replace-Rows p r y (x ∷ xs) e h = ground (arith, reflexive x, Rows-refl xs, replace-Rows p r y xs)

  -- An `INSERT` behind the rows that are there.
  pub append-Rows : (xs ys : List A) → Rows R xs (xs ++ ys)
  append-Rows [] ys = tt
  append-Rows (x ∷ xs) ys = (reflexive x, append-Rows xs ys)

-- How `UPDATE ... WHERE p` and the counts go together.
module _ {ℓ} {A : Type ℓ} (p : A → Bool) (f : A → A) where
  pub count-amend :
      (q : A → Bool) (xs : List A) → ((x : A) → q (f x) ≡ q x) → count q (amend p f xs) ≡ count q xs
  count-amend q [] same = refl
  count-amend q (x ∷ xs) same = ground (arith, same x, count-amend q xs same)

module _ {ℓ κ} {A : Type ℓ} (p : A → Bool) (f : A → A) where
  pub amend-All :
      (P : A → Type κ) (xs : List A) → ((x : A) → P x → P (f x)) → All P xs → All P (amend p f xs)
  amend-All P [] kept h = tt
  amend-All P (x ∷ xs) kept h = ground (arith, kept x h.0, amend-All P xs kept h.1)

module _ {ℓ} {A : Type ℓ} where
  -- No row meets a test that implies one that no row meets.
  pub count-none :
      (p q : A → Bool) (xs : List A)
      → ((x : A) → q x ≡ true → p x ≡ true)
      → any p xs ≡ false
      → count q xs ≡ 0
  count-none p q [] implies h = refl
  count-none p q (x ∷ xs) implies h = ground (arith, implies x, count-none p q xs implies)

  -- Where no row meets a test, all meet its negation.
  pub count-not-any :
      (p : A → Bool) (xs : List A) → any p xs ≡ false → count (λ x. not (p x)) xs ≡ length xs
  count-not-any p [] h = refl
  count-not-any p (x ∷ xs) h = ground (arith, count-not-any p xs)

  pub length-keep-count : (p : A → Bool) (xs : List A) → length (keep p xs) ≡ count p xs
  length-keep-count p [] = refl
  length-keep-count p (x ∷ xs) = ground (arith, length-keep-count p xs)
