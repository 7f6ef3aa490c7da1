-- ===== src/Protocol/Parser/Errors.antt =====
-- Parser.cpp: which exceptions `Parse` throws, and how much of its input it takes.
use bd_tarantul.Common.{
  ℕ, ◌+◌, ◌-◌, ◌*◌, ◌%◌, ◌^◌, ◌≤◌, ◌<◌, ◌≡◌, ◌≢◌, ◌↔◌, sym, subst, ◌∙◌, Bool, true, false, [], ◌∷◌,
  arith, Bytes, length, Bool-cases, inl, inr, pos, negsuc, ℤ,
}
use bd_tarantul.Protocol.Parser.{
  Parser, State, Error, no_key, expire_overflow, Result, ok, throw, undefined, ◌>>=◌, dispatch,
  end_name, step_name, step_key, step_get_key, step_flags, step_expr_time_start, step_expr_time,
  step_bytes, step_lf, push_digit, push_expr_digit, parse_from, parse,
}
use bd_tarantul.Protocol.Parser.Chunks.{parse_from_complete, parse_from-more}
use bd_tarantul.Protocol.Parser.Segments.{is_empty-append, IsDigit}

-- An error that no step throws is not thrown by the loop.
parse_from_never :
    (e : Error)
    → ((s : State) (i c : ℕ) (p : Parser) → dispatch s i c p ≢ throw e)
    → (i : ℕ) (cs : Bytes) (p : Parser) → parse_from i cs p ≢ throw e
parse_from_never e never i [] p h = unfold parse_from in cc
parse_from_never e never i (c ∷ cs) p h = elim (Bool-cases p.parse_complete) [
  | inl done ↦ ok_not (sym (parse_from_complete i (c ∷ cs) p done) ∙ h)
  | inr more ↦
      bind_not (dispatch p.state i c p) (never p.state i c p) (parse_from_never e never (i + 1) cs)
        (sym (parse_from-more i c cs p more) ∙ h)
]
  where
    ok_not : {x : Parser × ℕ} → ok x ≡ throw e → ⊥
    ok_not q = cc

    bind_not :
        (r : Result Parser)
        → r ≢ throw e
        → ((q : Parser) → parse_from (i + 1) cs q ≢ throw e)
        → (r >>= parse_from (i + 1) cs) ≢ throw e
    bind_not (ok q) here later h = later q h
    bind_not (throw e') here later h = here (ground (arith, h))
    bind_not undefined here later h = cc

push_expr_digit-ne-overflow :
    (b : Bool) (t : ℤ) (c : ℕ) → push_expr_digit b t c ≢ throw expire_overflow
unfolding push_expr_digit
push_expr_digit-ne-overflow true (pos n) c h = ground arith
push_expr_digit-ne-overflow true (negsuc n) c h = ground arith
push_expr_digit-ne-overflow false (pos n) c h = ground arith
push_expr_digit-ne-overflow false (negsuc n) c h = ground arith

dispatch-ne-expire_overflow :
    (s : State) (i c : ℕ) (p : Parser) → dispatch s i c p ≢ throw expire_overflow
unfolding dispatch end_name step_name step_key step_get_key step_flags step_expr_time_start
    step_expr_time step_bytes step_lf
dispatch-ne-expire_overflow State.sp_expr_time i c p h =
    ground (arith, push_expr_digit-ne-overflow p.negative p.exprtime c)
dispatch-ne-expire_overflow s i c p h = ground arith

dispatch-ne-no_key : (s : State) (i c : ℕ) (p : Parser) → dispatch s i c p ≢ throw no_key
unfolding dispatch end_name step_name step_key step_get_key step_flags step_expr_time_start
    step_expr_time step_bytes step_lf
dispatch-ne-no_key State.sg_key i c p h = ground (arith, is_empty-append p.keys p.cur_key)
dispatch-ne-no_key s i c p h = ground arith

-- Two of the exceptions are never thrown, on any input in any state: that of a `get` without keys,
-- since the empty word before the end of line counts as a key, and that of an overflow of the time
-- of expiration, since its test asks what only an undefined operation could make true.
pub parse-ne-dead_errors :
    (input : Bytes) (p : Parser)
    → (parse input p ≢ throw no_key) × (parse input p ≢ throw expire_overflow)
unfolding parse
parse-ne-dead_errors input p = (
  parse_from_never no_key dispatch-ne-no_key 0 input p,
  parse_from_never expire_overflow dispatch-ne-expire_overflow 0 input p,
)

-- What is consumed: no byte beyond the input, and all of it unless a line is complete.
abbrev pub Consumes : ℕ → Bytes → Result (Parser × ℕ) → Type 0
Consumes i cs (ok (q, n)) =
    (i ≤ n) × (n ≤ i + length cs) × (q.parse_complete ≡ false → n ≡ i + length cs)
Consumes i cs _ = Unit

pub parse_from-Consumes : (i : ℕ) (cs : Bytes) (p : Parser) → Consumes i cs (parse_from i cs p)
parse_from-Consumes i [] p = unfold parse_from in omega arith
parse_from-Consumes i (c ∷ cs) p = elim (Bool-cases p.parse_complete) [
  | inl done ↦
      rw (parse_from_complete i (c ∷ cs) p done)
        (omega arith, omega arith, λ h. absurd (ground arith))
  | inr more ↦
      rw (parse_from-more i c cs p more)
        (next (dispatch p.state i c p) (parse_from-Consumes (i + 1) cs))
]
  where
    widen : (r : Result (Parser × ℕ)) → Consumes (i + 1) cs r → Consumes i (c ∷ cs) r
    widen (ok (q, n)) h = (omega arith, omega arith, λ e. omega (arith, h.2 e))
    widen (throw e) h = tt
    widen undefined h = tt

    next :
        (r : Result Parser)
        → ((q : Parser) → Consumes (i + 1) cs (parse_from (i + 1) cs q))
        → Consumes i (c ∷ cs) (r >>= parse_from (i + 1) cs)
    next (ok q) h = widen (parse_from (i + 1) cs q) (h q)
    next (throw e) h = tt
    next undefined h = tt

-- `Parse` consumes no more than it is given, and all of it where no line is complete after it.
pub parse_consumes :
    (input : Bytes) (p q : Parser) (n : ℕ)
    → parse input p ≡ ok (q, n)
    → (n ≤ length input) × (q.parse_complete ≡ false → n ≡ length input)
unfolding parse
parse_consumes input p q n h =
    let (low, high, all) = subst (Consumes 0 input) h (parse_from-Consumes 0 input p) in
    (omega arith, λ e. omega (arith, all e))

-- A digit is read exactly when the number still fits 32 bits. One that wraps to a value no smaller
-- than before passes the test for overflow, and the wrapped value is taken.
pub push_digit-exact_iff :
    (n c : ℕ) (e : Error)
    → IsDigit c
    → n < 2 ^ 32
    → ((push_digit n c e ≡ ok (n * 10 + (c - 48))) ↔ (n * 10 + (c - 48) < 2 ^ 32))
      × (n ≤ (n * 10 + (c - 48)) % 2 ^ 32 → push_digit n c e ≡ ok ((n * 10 + (c - 48)) % 2 ^ 32))
unfolding push_digit
push_digit-exact_iff n c e d h = ((λ q. ground arith, λ q. ground arith), λ q. ground arith)
