-- ===== src/Protocol/Parser/RoundTrip.antt =====
-- Parser.cpp: the command lines of the protocol are read back.
use bd_tarantul.Common.{
  ℕ, ◌+◌, ◌≡◌, refl, ap, ◌∙◌, false, [], ◌∷◌, ◌++◌, arith, Option, some, Bytes, bytes_eq, length,
  length-append, ℤ,
}
use bd_tarantul.Protocol.Command.{Command, set_command, add_command, append_command}
use bd_tarantul.Protocol.Parser.{
  Parser, State, unsupported_command, Result, ok, throw, ◌>>=◌, dispatch, parse_from, parse, build,
  reset, step_name, step_key, step_flags, step_expr_time, step_bytes, step_lf,
}
use bd_tarantul.Protocol.Parser.Chunks.{parse_from_complete}
use bd_tarantul.Protocol.Parser.Segments.{step_to, reads_name, reads_key}
use bd_tarantul.Protocol.Parser.Numbers.{decimal, digit_sum, signed, reads_flags, reads_bytes}
use bd_tarantul.Protocol.Parser.Lines.{
  Verb, verb_bytes, StoreLine, print, IsStoreLine, after_line, expr_field, reads_expr_field,
  verb_name, verb_end,
}

module _ (l : StoreLine) (ok_line : IsStoreLine l) (p : Parser) (rest : Bytes) where
  open l use {verb, key, flags, negative, first_digit, digits, bytes}

  abbrev named : Parser
  named = record (reset p) { name = verb_bytes verb }

  abbrev keyed : Parser
  keyed = record named { state = State.sp_flags; keys = key ∷ []; cur_key = key }

  abbrev flagged : Parser
  flagged = record keyed {
    state = State.sp_expr_time_start;
    flags = decimal 0 flags;
    negative = false;
  }

  abbrev timed : Parser
  timed = record flagged {
    state = State.sp_bytes;
    negative = negative;
    exprtime = signed negative (digit_sum 0 (first_digit ∷ digits));
  }

  reads_verb :
      (i : ℕ) (cs : Bytes)
      → parse_from i (verb_bytes verb ++ b' ' ∷ cs) (reset p)
        ≡ parse_from (i + length (verb_bytes verb) + 1) cs (record named { state = State.sp_key })
  unfolding reset
  reads_verb i cs =
      reads_name i (verb_bytes verb) (b' ' ∷ cs) (reset p) (verb_name verb)
        (record { waits = refl; state_is = refl })
      ∙ step_to _ b' ' cs (record { waits = refl; state_is = refl }) space
    where
      space :
          dispatch State.s_name (i + length (verb_bytes verb)) b' ' named
          ≡ ok (record named { state = State.sp_key })
      space = unfold dispatch step_name in verb_end verb (reset p)

  reads_key_field :
      (i : ℕ) (cs : Bytes)
      → parse_from i (key ++ b' ' ∷ cs) (record named { state = State.sp_key })
        ≡ parse_from (i + length key + 1) cs keyed
  unfolding reset
  reads_key_field i cs =
      reads_key i key (b' ' ∷ cs) (record named { state = State.sp_key }) ok_line.key_word
        (record { waits = refl; state_is = refl })
      ∙ step_to _ b' ' cs (record { waits = refl; state_is = refl }) space
    where
      space :
          dispatch State.sp_key
            (i + length key)
            b' '
            (record named { state = State.sp_key; cur_key = key })
          ≡ ok keyed
      space = unfold dispatch step_key in refl

  reads_flags_field :
      (i : ℕ) (cs : Bytes)
      → parse_from i (flags ++ b' ' ∷ cs) keyed ≡ parse_from (i + length flags + 1) cs flagged
  unfolding reset
  reads_flags_field i cs =
      reads_flags i flags (b' ' ∷ cs) keyed ok_line.flags_digits ok_line.flags_fit
        (record { waits = refl; state_is = refl })
      ∙ step_to _ b' ' cs (record { waits = refl; state_is = refl }) space
    where
      space :
          dispatch State.sp_flags (i + length flags) b' ' (record keyed { flags = decimal 0 flags })
          ≡ ok flagged
      space = unfold dispatch step_flags in refl

  reads_time_field :
      (i : ℕ) (cs : Bytes)
      → parse_from i (expr_field negative first_digit digits ++ b' ' ∷ cs) flagged
        ≡ parse_from (i + length (expr_field negative first_digit digits) + 1) cs timed
  unfolding reset
  reads_time_field i cs =
      reads_expr_field negative i first_digit digits (b' ' ∷ cs) flagged ok_line.expr_digits
        ok_line.expr_fits refl refl (record { waits = refl; state_is = refl })
      ∙ step_to _ b' ' cs (record { waits = refl; state_is = refl }) space
    where
      space :
          dispatch State.sp_expr_time
            (i + length (expr_field negative first_digit digits))
            b' '
            (record timed { state = State.sp_expr_time })
          ≡ ok timed
      space = unfold dispatch step_expr_time in refl

  reads_bytes_field :
      (i : ℕ)
      → parse_from i (bytes ++ 13 ∷ 10 ∷ rest) timed
        ≡ ok (after_line l (reset p), i + length bytes + 1 + 1)
  unfolding reset after_line
  reads_bytes_field i =
      reads_bytes i bytes (13 ∷ 10 ∷ rest) timed ok_line.bytes_digits ok_line.bytes_fit
        (record { waits = refl; state_is = refl })
      ∙ step_to _ 13 (10 ∷ rest) (record { waits = refl; state_is = refl }) cr
      ∙ step_to _ 10 rest (record { waits = refl; state_is = refl }) lf
      ∙ parse_from_complete _ rest (after_line l (reset p)) refl
    where
      cr :
          dispatch State.sp_bytes (i + length bytes) 13 (record timed { bytes = decimal 0 bytes })
          ≡ ok (record timed { bytes = decimal 0 bytes; state = State.s_lf })
      cr = unfold dispatch step_bytes in refl

      lf :
          dispatch State.s_lf
            (i + length bytes + 1)
            10
            (record timed { bytes = decimal 0 bytes; state = State.s_lf })
          ≡ ok (after_line l (reset p))
      lf = unfold dispatch step_lf in refl

  -- A line that stores is read up to its end of line, whatever follows, and all its fields are read
  -- back; of the time of expiration, the sum of the digits.
  pub parse-print :
      parse (print l rest) (reset p) ≡ ok (after_line l (reset p), length (print l []))
  unfolding parse
  parse-print =
      reads_verb 0 _
      ∙ reads_key_field _ _
      ∙ reads_flags_field _ _
      ∙ reads_time_field _ _
      ∙ reads_bytes_field _
      ∙ ap (λ n. ok (after_line l (reset p), n))
          (omega (
            arith,
            length-append (verb_bytes verb) (b' ' ∷ after_verb),
            length-append key (b' ' ∷ after_key),
            length-append flags (b' ' ∷ after_flags),
            length-append (expr_field negative first_digit digits) (b' ' ∷ after_time),
            length-append bytes (13 ∷ 10 ∷ []),
          ))
    where
      after_time : Bytes
      after_time = bytes ++ 13 ∷ 10 ∷ []

      after_flags : Bytes
      after_flags = expr_field negative first_digit digits ++ b' ' ∷ after_time

      after_key : Bytes
      after_key = flags ++ b' ' ∷ after_flags

      after_verb : Bytes
      after_verb = key ++ b' ' ∷ after_key

-- What `Build` makes of a line that stores: `prepend` is read and then refused.
abbrev pub built_as : Verb → Bytes → ℕ → ℤ → ℕ → Result (Option (Command × ℕ))
built_as Verb.set k f e n = ok (some (set_command k f e, n))
built_as Verb.add k f e n = ok (some (add_command k f e, n))
built_as Verb.append k f e n = ok (some (append_command k f e, n))
built_as Verb.prepend k f e n = throw unsupported_command

pub build-verb :
    (v : Verb) (k : Bytes) (q : Parser)
    → build (record q { state = State.s_lf; name = verb_bytes v; keys = k ∷ [] })
      ≡ built_as v k q.flags q.exprtime q.bytes
unfolding build bytes_eq
build-verb Verb.set k q = refl
build-verb Verb.add k q = refl
build-verb Verb.append k q = refl
build-verb Verb.prepend k q = refl

-- A line that stores gives its command, with the key, the flags and the size of the body as
-- printed, and as the time of expiration the sum of its digits with their sign; `prepend` is
-- refused.
pub build-parse-print :
    (l : StoreLine) (p : Parser) (rest : Bytes)
    → IsStoreLine l
    → (parse (print l rest) (reset p) >>= λ r. build r.0)
      ≡ built_as l.verb l.key
          (decimal 0 l.flags)
          (signed l.negative (digit_sum 0 (l.first_digit ∷ l.digits)))
          (decimal 0 l.bytes)
unfolding after_line
build-parse-print l p rest h =
    ap (λ r. r >>= λ q. build q.0) (parse-print l h p rest)
    ∙ build-verb l.verb l.key (after_line l (reset p))
