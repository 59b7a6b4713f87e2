-- ===== src/Precheck/Passes.antt =====
-- The checks before a call of Runware pass only where everything is in order.
use ktb4_15th_ai.Prelude.{ℕ, zero, suc, ◌≡◌, refl, String, arith, ap, sym, subst}
use ktb4_15th_ai.JobState.Fallback.{
  S3ObjectState, exists, not_found, access_denied, transient_error, error,
}
use ktb4_15th_ai.Process.{Env, World, pure, ◌>>=◌, ask}
use ktb4_15th_ai.Process.Triples.{
  Triple, Meets, Triple-bind, Triple-if, Triple-ask, Triple-return, Triple-weaken,
  Triple-strengthen, Triple-known,
}
use ktb4_15th_ai.Handlers.{Event, Run, Check, fine, fails_with, postponed, broken}
use ktb4_15th_ai.Precheck.{
  Checks, before, when_fine, when_there, balance_step, budget_step, image_step, run_precheck,
}

-- The moment that comes `n` steps after `k`.
abbrev pub after : ℕ → ℕ → ℕ
after zero k = k
after (suc n) k = suc (after n k)

-- What is known where the checks pass.
abbrev pub PassedFor : Type 0 → Check → World Event → Type 0
PassedFor F check w = check ≡ fine → F

-- Checks that begin at the moment `k` do not raise, and if they pass, `F` holds.
abbrev Passes : ℕ → Type 0 → Run Check → Type 0
Passes k F code = Triple (λ w. w.moment ≡ k) code (PassedFor F) (λ _. ⊥)

module _ (e : Env) (c : Checks) where
  refused-Passes :
      (P : World Event → Type 0) (F : Type 0) (check : Check)
      → (check ≡ fine → ⊥)
      → Triple P (pure check) (PassedFor F) (λ _. ⊥)
  refused-Passes P F check other = Triple-return P check λ w h yes. elim (other yes) [ ]

  when_fine-Passes :
      (k : ℕ) (F : Type 0) (rest : Run Check) (check : Check)
      → Passes k F rest
      → Passes k ((check ≡ fine) × F) (when_fine e c rest check)
  when_fine-Passes k F rest fine t =
      Triple-weaken _ _ _ _ _ _ (λ a w h yes. (refl, h yes)) (λ w h. h) t
  when_fine-Passes k F rest (fails_with code message) t =
      refused-Passes _ _ _ λ yes. ground (arith, yes)
  when_fine-Passes k F rest (postponed code) t = refused-Passes _ _ _ λ yes. ground (arith, yes)
  when_fine-Passes k F rest broken t = refused-Passes _ _ _ λ yes. ground (arith, yes)

  when_there-Passes :
      (k : ℕ) (F : Type 0) (rest : Run Check) (state : S3ObjectState)
      → Passes k F rest
      → Passes k ((state ≡ exists) × F) (when_there e c rest state)
  when_there-Passes k F rest exists t =
      Triple-weaken _ _ _ _ _ _ (λ a w h yes. (refl, h yes)) (λ w h. h) t
  when_there-Passes k F rest not_found t = refused-Passes _ _ _ λ yes. ground (arith, yes)
  when_there-Passes k F rest access_denied t = refused-Passes _ _ _ λ yes. ground (arith, yes)
  when_there-Passes k F rest transient_error t = refused-Passes _ _ _ λ yes. ground (arith, yes)
  when_there-Passes k F rest error t = refused-Passes _ _ _ λ yes. ground (arith, yes)

  -- A look, and what follows from what it sees.
  look-Passes :
      {A : Type 0} (k : ℕ) (F : Type 0) (reason : String) (look : ℕ → A) (f : A → Run Check)
      → Passes (after 2 k) F (f (look (after 1 k)))
      → Passes k F (before e c reason (ask e look >>= f))
  look-Passes k F reason look f t =
      Triple-bind _ _
        (Triple-ask e {Q = λ _ w. w.moment ≡ after 1 k} _ c.before_step λ w h. omega (arith, h))
        λ may.
          Triple-if _ may _ _
            (λ _.
              Triple-bind (ask e look) f
                (Triple-ask e {Q = λ a w. (a ≡ look (after 1 k)) × (w.moment ≡ after 2 k)} _ look
                  λ w h. (ap look h, omega (arith, h)))
                λ a. Triple-known _ (f a) λ w h.
                  Triple-strengthen _ _ (f a) (λ w h. h.1)
                    (subst (λ x. Passes (after 2 k) F (f x)) (sym h.0) t))
            λ _. refused-Passes _ _ _ λ yes. ground (arith, yes)

  balance_step-Passes :
      (k : ℕ) → Passes k ((c.balance (after 1 k) ≡ fine) × Unit {0}) (balance_step e c)
  balance_step-Passes k =
      look-Passes k _ "stopped_before_balance" c.balance (when_fine e c (pure fine)) (
        when_fine-Passes (after 2 k) Unit (pure fine) (c.balance (after 1 k))
          (Triple-return _ fine λ w h yes. tt))

  -- The looks of a run that begins at `k` were at these moments, and each was in order.
  abbrev pub InOrder : ℕ → Type 0
  InOrder k =
      (c.products (after 1 k) ≡ fine)
      × (c.image (after 3 k) ≡ exists)
      × (c.budget (after 5 k) ≡ fine)
      × (c.balance (after 7 k) ≡ fine)

  image_step-Passes :
      (k : ℕ)
      → Passes k
          ((c.image (after 1 k) ≡ exists)
            × ((c.budget (after 3 k) ≡ fine) × ((c.balance (after 5 k) ≡ fine) × Unit {0})))
          (image_step e c)
  image_step-Passes k =
      look-Passes k _ "stopped_before_image" c.image (when_there e c (budget_step e c)) (
        when_there-Passes (after 2 k) _ (budget_step e c) (c.image (after 1 k)) (
          look-Passes (after 2 k) _ "stopped_before_budget" c.budget
            (when_fine e c (balance_step e c))
            (when_fine-Passes (after 4 k) _ (balance_step e c) (c.budget (after 3 k))
              (balance_step-Passes (after 4 k)))))

  run_precheck-Passes : (k : ℕ) → Passes k (InOrder k) (run_precheck e c)
  unfolding run_precheck
  run_precheck-Passes k =
      look-Passes k (InOrder k) "stopped_before_products" c.products
        (when_fine e c (image_step e c))
        (Triple-weaken _ _
          (PassedFor (
            (c.products (after 1 k) ≡ fine)
            × ((c.image (after 3 k) ≡ exists)
                × ((c.budget (after 5 k) ≡ fine) × ((c.balance (after 7 k) ≡ fine) × Unit {0})))))
          _ _ _ (λ a w h yes. let all = h yes in (all.0, all.1.0, all.1.1.0, all.1.1.1.0))
          (λ w h. h)
          (when_fine-Passes (after 2 k) _ (image_step e c) (c.products (after 1 k))
            (image_step-Passes (after 2 k))))

-- `RequestPrecheck.run` returns, whatever its looks raise; and if it passes, then the products, the photo, the
-- budget and the balance were all in order when it looked, in this order.
pub run_precheck-InOrder :
    (e : Env) (c : Checks) (w : World Event)
    → Meets (PassedFor (InOrder e c w.moment)) (λ _. ⊥) (run_precheck e c w)
run_precheck-InOrder e c w = (run_precheck-Passes e c w.moment).at w refl
