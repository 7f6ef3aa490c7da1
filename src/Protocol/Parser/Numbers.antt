-- ===== src/Protocol/Parser/Numbers.antt =====
-- Parser.cpp: what the parser makes of the numbers of a command line.
use bd_tarantul.Common.{
  ℕ, zero, suc, ◌+◌, ◌-◌, ◌*◌, ◌^◌, ◌≤◌, ◌<◌, ◌≡◌, refl, sym, ap, ◌∙◌, Bool, true, false, [], ◌∷◌,
  ◌++◌, arith, Bytes, length, pos, ℤ, negsuc,
}
use native.Mathlib.Nat.{add-zero}
use bd_tarantul.Protocol.Parser.{
  Parser, State, Error, flags_overflow, bytes_overflow, ok, dispatch, parse_from, is_digit,
  step_flags, step_expr_time, step_bytes, push_digit, push_expr_digit,
}
use bd_tarantul.Protocol.Parser.Segments.{Each, IsDigit, At, step_to}

-- A number read on from `n`, in decimal; and the sum of its digits.
unfoldable pub decimal : ℕ → Bytes → ℕ
decimal n [] = n
decimal n (c ∷ cs) = decimal (n * 10 + (c - 48)) cs

unfoldable pub digit_sum : ℕ → Bytes → ℕ
digit_sum n [] = n
digit_sum n (c ∷ cs) = digit_sum (n + (c - 48)) cs

le-decimal : (n : ℕ) (cs : Bytes) → n ≤ decimal n cs
unfolding decimal
le-decimal n [] = omega arith
le-decimal n (c ∷ cs) = omega (arith, le-decimal (n * 10 + (c - 48)) cs)

le-digit_sum : (n : ℕ) (cs : Bytes) → n ≤ digit_sum n cs
unfolding digit_sum
le-digit_sum n [] = omega arith
le-digit_sum n (c ∷ cs) = omega (arith, le-digit_sum (n + (c - 48)) cs)

-- A digit that does not take the number over 32 bits is pushed exactly.
pub push_digit-exact :
    (n c : ℕ) (e : Error)
    → IsDigit c
    → n * 10 + (c - 48) < 2 ^ 32
    → push_digit n c e ≡ ok (n * 10 + (c - 48))
unfolding push_digit
push_digit-exact n c e d h = ground arith

digit_test : (c : ℕ) → IsDigit c → is_digit c ≡ true
digit_test c d = ground arith

pub reads_flags :
    (i : ℕ) (cs rest : Bytes) (p : Parser)
    → Each IsDigit cs
    → decimal p.flags cs < 2 ^ 32
    → At State.sp_flags p
    → parse_from i (cs ++ rest) p
      ≡ parse_from (i + length cs) rest (record p { flags = decimal p.flags cs })
unfolding decimal
reads_flags i [] rest p w h a = rw (add-zero)
reads_flags i (c ∷ cs) rest p w h a =
    step_to i c (cs ++ rest) a taken
    ∙ reads_flags (i + 1) cs rest next w.1 h (record { waits = a.waits; state_is = a.state_is })
    ∙ ap (λ n. parse_from n rest (record p { flags = decimal (p.flags * 10 + (c - 48)) cs }))
        (omega arith)
  where
    next : Parser
    next = record p { flags = p.flags * 10 + (c - 48) }

    exact : push_digit p.flags c flags_overflow ≡ ok (p.flags * 10 + (c - 48))
    exact =
        push_digit-exact p.flags c flags_overflow w.0
          (omega (arith, le-decimal (p.flags * 10 + (c - 48)) cs))

    taken : dispatch State.sp_flags i c p ≡ ok next
    taken = unfold dispatch step_flags in ground (arith, exact, w.0)

pub reads_bytes :
    (i : ℕ) (cs rest : Bytes) (p : Parser)
    → Each IsDigit cs
    → decimal p.bytes cs < 2 ^ 32
    → At State.sp_bytes p
    → parse_from i (cs ++ rest) p
      ≡ parse_from (i + length cs) rest (record p { bytes = decimal p.bytes cs })
unfolding decimal
reads_bytes i [] rest p w h a = rw (add-zero)
reads_bytes i (c ∷ cs) rest p w h a =
    step_to i c (cs ++ rest) a taken
    ∙ reads_bytes (i + 1) cs rest next w.1 h (record { waits = a.waits; state_is = a.state_is })
    ∙ ap (λ n. parse_from n rest (record p { bytes = decimal (p.bytes * 10 + (c - 48)) cs }))
        (omega arith)
  where
    next : Parser
    next = record p { bytes = p.bytes * 10 + (c - 48) }

    exact : push_digit p.bytes c bytes_overflow ≡ ok (p.bytes * 10 + (c - 48))
    exact =
        push_digit-exact p.bytes c bytes_overflow w.0
          (omega (arith, le-decimal (p.bytes * 10 + (c - 48)) cs))

    taken : dispatch State.sp_bytes i c p ≡ ok next
    taken = unfold dispatch step_bytes in ground (arith, exact, w.0)

-- The number that `negative` and a magnitude stand for.
abbrev pub signed : Bool → ℕ → ℤ
signed false n = pos n
signed true zero = pos 0
signed true (suc n) = negsuc n

-- A digit adds to the magnitude: the source does not multiply what it has read by ten.
push_expr_digit-exact :
    (b : Bool) (n c : ℕ)
    → IsDigit c
    → n + (c - 48) < 2 ^ 31
    → push_expr_digit b (signed b n) c ≡ ok (signed b (n + (c - 48)))
unfolding push_expr_digit
push_expr_digit-exact false n c d h = ground arith
push_expr_digit-exact true zero c d h = ground arith
push_expr_digit-exact true (suc n) c d h = ground arith

pub reads_expr_time :
    (i n : ℕ) (cs rest : Bytes) (p : Parser)
    → Each IsDigit cs
    → digit_sum n cs < 2 ^ 31
    → p.exprtime ≡ signed p.negative n
    → At State.sp_expr_time p
    → parse_from i (cs ++ rest) p
      ≡ parse_from (i + length cs) rest (record p { exprtime = signed p.negative (digit_sum n cs) })
unfolding digit_sum
reads_expr_time i n [] rest p w h e a =
    ap (λ k. parse_from k rest p) (sym (add-zero i))
    ∙ ap (λ t. parse_from (i + 0) rest (record p { exprtime = t })) e
reads_expr_time i n (c ∷ cs) rest p w h e a =
    step_to i c (cs ++ rest) a taken
    ∙ reads_expr_time (i + 1) (n + (c - 48)) cs rest next w.1 h refl
        (record { waits = a.waits; state_is = a.state_is })
    ∙ ap
        (λ k.
          parse_from k rest
            (record p { exprtime = signed p.negative (digit_sum (n + (c - 48)) cs) }))
        (omega arith)
  where
    next : Parser
    next = record p { exprtime = signed p.negative (n + (c - 48)) }

    exact : push_expr_digit p.negative p.exprtime c ≡ ok (signed p.negative (n + (c - 48)))
    exact =
        ap (λ t. push_expr_digit p.negative t c) e
        ∙ push_expr_digit-exact p.negative n c w.0 (omega (arith, le-digit_sum (n + (c - 48)) cs))

    taken : dispatch State.sp_expr_time i c p ≡ ok next
    taken = unfold dispatch step_expr_time in ground (arith, exact, w.0)
