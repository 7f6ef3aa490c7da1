-- ===== src/Protocol/Parser/Lines.antt =====
-- Command lines of the protocol, and the parser that has read one.
use bd_tarantul.Common.{
  ℕ, suc, ◌+◌, ◌-◌, ◌^◌, ◌<◌, ◌≡◌, ◌≢◌, refl, sym, ap, ◌∙◌, Bool, true, false, [], ◌∷◌, ◌++◌, arith,
  Bytes, bytes_eq, codes, length, pos,
}
use native.Mathlib.Nat.{add_assoc, zero-add}
use bd_tarantul.Protocol.Parser.{
  Parser, State, ok, dispatch, parse_from, end_name, step_expr_time_start,
}
use bd_tarantul.Protocol.Parser.Segments.{Each, IsWordByte, IsDigit, At, step_to}
use bd_tarantul.Protocol.Parser.Numbers.{decimal, digit_sum, signed, reads_expr_time}

-- The field for the time of expiration: a sign, and at least one digit.
abbrev pub expr_field : Bool → ℕ → Bytes → Bytes
expr_field true d ds = b'-' ∷ d ∷ ds
expr_field false d ds = d ∷ ds

pub moved :
    (i j : ℕ) (rest : Bytes) (p : Parser) → i ≡ j → parse_from i rest p ≡ parse_from j rest p
moved i j rest p h = ap (λ k. parse_from k rest p) h

digit_sum-cons : (d : ℕ) (ds : Bytes) → digit_sum 0 (d ∷ ds) ≡ digit_sum (d - 48) ds
unfolding digit_sum
digit_sum-cons d ds = ap (λ n. digit_sum n ds) (zero-add (d - 48))

pub reads_expr_field :
    (negative : Bool) (i d : ℕ) (ds rest : Bytes) (p : Parser)
    → Each IsDigit (d ∷ ds)
    → digit_sum 0 (d ∷ ds) < 2 ^ 31
    → p.exprtime ≡ pos 0
    → p.negative ≡ false
    → At State.sp_expr_time_start p
    → parse_from i (expr_field negative d ds ++ rest) p
      ≡ parse_from (i + length (expr_field negative d ds)) rest (record p {
        state = State.sp_expr_time;
        negative = negative;
        exprtime = signed negative (digit_sum 0 (d ∷ ds));
      })
reads_expr_field true i d ds rest p w h e ne a =
    step_to i b'-' (d ∷ ds ++ rest) a minus
    ∙ reads_expr_time (i + 1) 0 (d ∷ ds) rest
        (record p { state = State.sp_expr_time; negative = true }) w h e
        (record { waits = a.waits; state_is = refl })
    ∙ moved _ _ rest _ (add_assoc i 1 (suc (length ds)) ∙ ap (λ k. i + k) (omega arith))
  where
    minus :
        dispatch State.sp_expr_time_start i b'-' p
        ≡ ok (record p { state = State.sp_expr_time; negative = true })
    minus = unfold dispatch step_expr_time_start in refl
reads_expr_field false i d ds rest p w h e ne a =
    step_to i d (ds ++ rest) a first
    ∙ reads_expr_time (i + 1) (d - 48) ds rest next w.1 (rw (digit_sum-cons d ds) at h)
        (ap (λ b. signed b (d - 48)) (sym ne)) (record { waits = a.waits; state_is = refl })
    ∙ moved _ _ rest _ (add_assoc i 1 (length ds) ∙ ap (λ k. i + k) (omega arith))
    ∙ ap (parse_from (i + suc (length ds)) rest) (
        ap (λ b. record next { exprtime = signed b (digit_sum (d - 48) ds); negative = b }) ne
        ∙ ap (λ n. record next { exprtime = pos n; negative = false }) (sym (digit_sum-cons d ds)))
  where
    next : Parser
    next = record p { state = State.sp_expr_time; exprtime = pos (d - 48) }

    first : dispatch State.sp_expr_time_start i d p ≡ ok next
    first = unfold dispatch step_expr_time_start in ground (arith, w.0)

pub data Verb : Type 0 where
  set add append prepend : Verb

abbrev pub verb_bytes : Verb → Bytes
verb_bytes set = codes "set"
verb_bytes add = codes "add"
verb_bytes append = codes "append"
verb_bytes prepend = codes "prepend"

-- A line that stores: `<verb> <key> <flags> <exptime> <bytes>\r\n`, and what follows it.
pub record StoreLine : Type 0 where
  pub verb : Verb
  pub key : Bytes
  pub flags : Bytes
  pub negative : Bool
  pub first_digit : ℕ
  pub digits : Bytes
  pub bytes : Bytes

abbrev pub print : StoreLine → Bytes → Bytes
print l rest =
    verb_bytes l.verb
    ++ b' '
      ∷ (l.key
          ++ b' '
            ∷ (l.flags
                ++ b' '
                  ∷ (expr_field l.negative l.first_digit l.digits
                      ++ b' ' ∷ (l.bytes ++ 13 ∷ 10 ∷ rest))))

-- The key has no space, the numbers are digits, and they fit their fields: the time of expiration
-- by the sum of its digits.
pub record IsStoreLine (l : StoreLine) : Type 0 where
  pub key_word : Each (λ c. c ≢ 32) l.key
  pub flags_digits : Each IsDigit l.flags
  pub flags_fit : decimal 0 l.flags < 2 ^ 32
  pub expr_digits : Each IsDigit (l.first_digit ∷ l.digits)
  pub expr_fits : digit_sum 0 (l.first_digit ∷ l.digits) < 2 ^ 31
  pub bytes_digits : Each IsDigit l.bytes
  pub bytes_fit : decimal 0 l.bytes < 2 ^ 32

-- The parser that has read a line.
unfoldable pub after_line : StoreLine → Parser → Parser
after_line l p = record p {
  state = State.s_lf;
  name = verb_bytes l.verb;
  keys = l.key ∷ [];
  cur_key = l.key;
  flags = decimal 0 l.flags;
  negative = l.negative;
  exprtime = signed l.negative (digit_sum 0 (l.first_digit ∷ l.digits));
  bytes = decimal 0 l.bytes;
  parse_complete = true;
}

pub verb_name : (v : Verb) → Each IsWordByte (verb_bytes v)
verb_name set = omega arith
verb_name add = omega arith
verb_name append = omega arith
verb_name prepend = omega arith

pub verb_end :
    (v : Verb) (p : Parser)
    → end_name (record p { name = verb_bytes v })
      ≡ ok (record p { name = verb_bytes v; state = State.sp_key })
unfolding end_name bytes_eq
verb_end set p = refl
verb_end add p = refl
verb_end append p = refl
verb_end prepend p = refl
