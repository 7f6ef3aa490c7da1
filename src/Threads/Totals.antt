-- ===== src/Threads/Totals.antt =====
-- Totals over a list of threads, one of which makes a step.
use bd_tarantul.Common.{ℕ, ◌+◌, ◌≤◌, ◌≡◌, refl, ap, ◌∙◌, arith, List, [], ◌∷◌, ◌++◌}

module _ {ℓ} {A : Type ℓ} where
  abbrev pub total : (A → ℕ) → List A → ℕ
  total f [] = 0
  total f (x ∷ xs) = f x + total f xs

  pub total-append : (f : A → ℕ) (xs ys : List A) → total f (xs ++ ys) ≡ total f xs + total f ys
  total-append f [] ys = omega arith
  total-append f (x ∷ xs) ys = omega (arith, total-append f xs ys)

  pub total-le : {f g : A → ℕ} (h : (x : A) → f x ≤ g x) (xs : List A) → total f xs ≤ total g xs
  total-le h [] = omega arith
  total-le h (x ∷ xs) = omega (arith, h x, total-le h xs)

  pub total_same : {f g : A → ℕ} (h : (x : A) → f x ≡ g x) (xs : List A) → total f xs ≡ total g xs
  total_same h [] = refl
  total_same h (x ∷ xs) = omega (arith, h x, total_same h xs)

  -- One of the threads apart from the others.
  pub total_put :
      (f : A → ℕ) (xs : List A) (x : A) (ys : List A)
      → total f (xs ++ x ∷ ys) ≡ f x + total f (xs ++ ys)
  total_put f xs x ys = omega (arith, total-append f xs (x ∷ ys), total-append f xs ys)

  pub total_at :
      (f : A → ℕ) (xs : List A) (x : A) (ys : List A) {zs : List A}
      → zs ≡ xs ++ x ∷ ys
      → total f zs ≡ f x + total f (xs ++ ys)
  total_at f xs x ys e = ap (total f) e ∙ total_put f xs x ys
