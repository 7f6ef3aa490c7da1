-- ===== src/Schedule.antt =====
-- Two processes that take turns: a run under a schedule, and when the two come to an end.
use bd_tarantul.Common.{
  ℕ, zero, suc, ◌≤◌, ◌<◌, ◌≡◌, refl, sym, ap, subst, arith, Bool, true, false, ◌⊎◌, inl, inr, List,
  [], ◌∷◌, ◌++◌,
}

module _ {S : Type 0} (step : Bool → S → S) where
  -- `true` is a step of the first process.
  abbrev pub runs : List Bool → S → S
  runs [] s = s
  runs (b ∷ bs) s = runs bs (step b s)

  pub runs-append : (bs cs : List Bool) (s : S) → runs (bs ++ cs) s ≡ runs cs (runs bs s)
  runs-append [] cs s = refl
  runs-append (b ∷ bs) cs s = runs-append bs cs (step b s)

  pub runs-keeps :
      (P : S → Type 0)
      → ((b : Bool) (s : S) → P s → P (step b s))
      → (bs : List Bool) (s : S) → P s
      → P (runs bs s)
  runs-keeps P keeps [] s p = p
  runs-keeps P keeps (b ∷ bs) s p = runs-keeps P keeps bs (step b s) (keeps b s p)

-- A turn of the first process, then one of the second, `n` times.
unfoldable pub alternate : ℕ → List Bool
alternate zero = []
alternate (suc n) = true ∷ false ∷ alternate n

-- A step brings the end nearer or changes nothing, and changes nothing for both only at the end.
module _ {S : Type 0} (step : Bool → S → S) (left : S → ℕ) (Inv IsOver : S → Type 0)
    (keeps : (b : Bool) (s : S) → Inv s → Inv (step b s))
    (moves : (b : Bool) (s : S) → (step b s ≡ s) ⊎ (left (step b s) < left s))
    (ends : (s : S) → Inv s → step true s ≡ s → step false s ≡ s → IsOver s)
    (rests : (b : Bool) (s : S) → IsOver s → step b s ≡ s) where
  turns_less : (s : S) → Inv s → IsOver s ⊎ (left (step false (step true s)) < left s)
  turns_less s v = elim (moves true s) [
    | inl e ↦ elim (moves false s) [
      | inl f ↦ inl (ends s v e f)
      | inr h ↦ inr (subst (λ t. left (step false t) < left s) (sym e) h)
    ]
    | inr h ↦ elim (moves false (step true s)) [
      | inl f ↦ inr (subst (λ t. left t < left s) (sym f) h)
      | inr k ↦ inr (omega (arith, h, k))
    ]
  ]

  rests_long : (bs : List Bool) (s : S) → IsOver s → IsOver (runs step bs s)
  rests_long [] s o = o
  rests_long (b ∷ bs) s o = rests_long bs (step b s) (subst IsOver (sym (rests b s o)) o)

  alternate-IsOver : (n : ℕ) (s : S) → Inv s → left s ≤ n → IsOver (runs step (alternate n) s)
  unfolding alternate
  alternate-IsOver zero s v h = elim (turns_less s v) [
    | inl o ↦ o
    | inr k ↦ absurd (omega (arith, h, k))
  ]
  alternate-IsOver (suc n) s v h = elim (turns_less s v) [
    | inl o ↦ rests_long (alternate (suc n)) s o
    | inr k ↦
        alternate-IsOver n (step false (step true s)) (keeps false (step true s) (keeps true s v))
          (omega (arith, h, k))
  ]

  runs_less : (bs : List Bool) (s : S) → left (runs step bs s) ≤ left s
  runs_less [] s = omega arith
  runs_less (b ∷ bs) s = elim (moves b s) [
    | inl e ↦ omega (arith, runs_less bs (step b s), ap left e)
    | inr h ↦ omega (arith, runs_less bs (step b s), h)
  ]

  -- Whatever steps come first, enough turns in alternation end both processes.
  pub runs-IsOver :
      (n : ℕ) (bs : List Bool) (s : S)
      → Inv s
      → left s ≤ n
      → IsOver (runs step (bs ++ alternate n) s)
  runs-IsOver n bs s v h = subst IsOver (sym (runs-append step bs (alternate n) s)) (
      alternate-IsOver n (runs step bs s) (runs-keeps step Inv keeps bs s v)
        (omega (arith, h, runs_less bs s)))
