-- ===== src/Execute/Decimal.antt =====
-- The decimal text of a number, as `std::ostream` writes a `size_t`.
use bd_tarantul.Common.{
  ℕ, zero, suc, ◌+◌, ◌/◌, ◌%◌, ◌<◌, ◌≡◌, refl, ap, ◌∙◌, [], ◌∷◌, arith, Bytes, ltb, if◌then◌else◌,
  Bool-cases, inl, inr,
}
use bd_tarantul.Protocol.Parser.Numbers.{decimal}

-- The digits of `n` before `rest`, with fuel; `n + 1` is enough.
unfoldable pub show_digits : ℕ → ℕ → Bytes → Bytes
show_digits zero n rest = rest
show_digits (suc f) n rest =
    let more = show_digits f (n / 10) ((48 + n % 10) ∷ rest) in
    if ltb n 10 then (48 + n) ∷ rest else more

unfoldable pub show_number : ℕ → Bytes
unfolding show_digits
show_number n = show_digits (suc n) n []

decimal-show_digits :
    (f n : ℕ) (rest : Bytes) → n < f → decimal 0 (show_digits f n rest) ≡ decimal n rest
unfolding show_digits
decimal-show_digits zero n rest h = absurd (omega arith)
decimal-show_digits (suc f) n rest h = elim (Bool-cases (ltb n 10)) [
  | inl last ↦ rw last (unfold decimal in ap (λ k. decimal k rest) (omega arith))
  | inr more ↦ rw more (
      decimal-show_digits f (n / 10) ((48 + n % 10) ∷ rest) (ground arith)
      ∙ unfold decimal in ap (λ k. decimal k rest) (omega arith))
]

-- The text of a number reads back as the number.
pub decimal-show_number : (n : ℕ) → decimal 0 (show_number n) ≡ n
unfolding show_number
decimal-show_number n = decimal-show_digits (suc n) n [] (omega arith) ∙ unfold decimal in refl
