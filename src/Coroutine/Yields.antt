-- ===== src/Coroutine/Yields.antt =====
-- Which routines get control.
use bd_tarantul.Common.{
  ℕ, zero, suc, ◌≡◌, ◌≢◌, refl, ap, ◌∙◌, true, false, none, some, List, [], ◌∷◌, ◌==◌, ◌>>=◌, arith,
  ◌⊎◌, inl, inr,
}
use bd_tarantul.Coroutine.{Engine, unlink, yield, yields, finish}

abbrev engine : List ℕ → ℕ → Engine
engine alive c = record { alive = alive; cur_routine = some c }

-- The one of two that is reached from `a` by `n` changes to the other.
abbrev pub in_turn : ℕ → ℕ → ℕ → ℕ
in_turn zero a b = a
in_turn (suc n) a b = in_turn n b a

module _ (a b : ℕ) (rest : List ℕ) (h : a ≢ b) where
  yield-first : yield (engine (a ∷ b ∷ rest) a) ≡ some (engine (a ∷ b ∷ rest) b)
  unfolding yield
  yield-first = let e : (a == a) ≡ true = ground arith in rw (e, yield) refl

  yield-other : (c : ℕ) → a ≢ c → yield (engine (a ∷ b ∷ rest) c) ≡ some (engine (a ∷ b ∷ rest) a)
  unfolding yield
  yield-other c n = let e : (a == c) ≡ false = ground (arith, n) in rw (e, yield) refl

  -- From one of the two routines at the head of `alive`, the calls of `yield` give control to the two
  -- in turn: after an even number of calls it is where it was, after an odd number with the other. A
  -- third routine never runs.
  pub yields-pair :
      (n : ℕ)
      → (yields n (engine (a ∷ b ∷ rest) a) ≡ some (engine (a ∷ b ∷ rest) (in_turn n a b)))
        × (yields n (engine (a ∷ b ∷ rest) b) ≡ some (engine (a ∷ b ∷ rest) (in_turn n b a)))
  unfolding yields
  yields-pair zero = (refl, refl)
  yields-pair (suc n) =
      let (from_a, from_b) = yields-pair n in
      (
        ap (λ o. o >>= yields n) yield-first ∙ from_b,
        ap (λ o. o >>= yields n) (yield-other b h) ∙ from_a,
      )

-- The end of a routine ends the program exactly when no other one is alive: with another one `yield`
-- writes through the null `cur_routine`.
pub finish_ends :
    (pc : ℕ) (e : Engine)
    → ((unlink pc e.alive ≡ []) × (finish pc e ≡ some (record { alive = []; cur_routine = none })))
      ⊎ ((unlink pc e.alive ≢ []) × (finish pc e ≡ none))
unfolding finish yield
finish_ends pc e = by_rest (unlink pc e.alive)
  where
    by_rest :
        (rs : List ℕ)
        → ((rs ≡ [])
            × (yield (record { alive = rs; cur_routine = none })
                ≡ some (record { alive = []; cur_routine = none })))
          ⊎ ((rs ≢ []) × (yield (record { alive = rs; cur_routine = none }) ≡ none))
    by_rest [] = inl (refl, refl)
    by_rest (r ∷ rs) = inr (λ q. cc, refl)
