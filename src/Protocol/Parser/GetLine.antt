-- ===== src/Protocol/Parser/GetLine.antt =====
-- Parser.cpp: `get` with its keys is read back.
use bd_tarantul.Common.{
  ℕ, ◌+◌, ◌≡◌, refl, ap, ◌∙◌, true, List, [], ◌∷◌, ◌++◌, append_assoc, arith, some, Bytes, bytes_eq,
  codes, length, length-append, if_false,
}
use native.Mathlib.Nat.{add_assoc}
use bd_tarantul.Protocol.Command.{get_command}
use bd_tarantul.Protocol.Parser.{
  Parser, State, ok, dispatch, parse_from, parse, build, reset, is_empty, step_name, step_get_key,
  step_lf,
}
use bd_tarantul.Protocol.Parser.Chunks.{parse_from_complete}
use bd_tarantul.Protocol.Parser.Segments.{
  Each, IsWordByte, At, is_empty-append, step_to, reads_name, reads_get_key,
}
use bd_tarantul.Protocol.Parser.Lines.{moved}

-- Keys one after another, up to the carriage return.
unfoldable pub print_keys : Bytes → List Bytes → Bytes → Bytes
print_keys k [] rest = k ++ 13 ∷ rest
print_keys k (j ∷ js) rest = k ++ b' ' ∷ print_keys j js rest

unfoldable pub keys_length : Bytes → List Bytes → ℕ
keys_length k [] = length k + 1
keys_length k (j ∷ js) = length k + 1 + keys_length j js

abbrev pub print_get : Bytes → List Bytes → Bytes → Bytes
print_get k ks rest = codes "get" ++ b' ' ∷ print_keys k ks (10 ∷ rest)

reads_one_key :
    (i c : ℕ) (k rest : Bytes) (p q : Parser)
    → Each IsWordByte k
    → At State.sg_key p
    → p.cur_key ≡ []
    → dispatch State.sg_key (i + length k) c (record p { cur_key = k }) ≡ ok q
    → parse_from i (k ++ c ∷ rest) p ≡ parse_from (i + (length k + 1)) rest q
reads_one_key i c k rest p q w a e h =
    reads_get_key i k (c ∷ rest) p w a
    ∙ ap (λ n. parse_from (i + length k) (c ∷ rest) (record p { cur_key = n ++ k })) e
    ∙ step_to (i + length k) c rest (record { waits = a.waits; state_is = a.state_is }) h
    ∙ moved _ _ rest q (add_assoc i (length k) 1)

reads_keys :
    (i : ℕ) (k : Bytes) (ks : List Bytes) (rest : Bytes) (p : Parser)
    → Each IsWordByte k
    → Each (Each IsWordByte) ks
    → At State.sg_key p
    → p.cur_key ≡ []
    → parse_from i (print_keys k ks rest) p
      ≡ parse_from
          (i + keys_length k ks)
          rest
          (record p { state = State.s_lf; keys = p.keys ++ k ∷ ks; cur_key = [] })
unfolding print_keys keys_length
reads_keys i k [] rest p w ws a e = reads_one_key i 13 k rest p _ w a e last_key
  where
    last_key :
        dispatch State.sg_key (i + length k) 13 (record p { cur_key = k })
        ≡ ok (record p { state = State.s_lf; keys = p.keys ++ k ∷ []; cur_key = [] })
    last_key =
        unfold dispatch step_get_key in
        if_false (is_empty (p.keys ++ k ∷ [])) _ _ (is_empty-append p.keys k)
reads_keys i k (j ∷ js) rest p w ws a e =
    reads_one_key i b' ' k (print_keys j js rest) p next w a e space
    ∙ reads_keys (i + (length k + 1)) j js rest next ws.0 ws.1
        (record { waits = a.waits; state_is = refl }) refl
    ∙ moved _ _ rest _ (add_assoc i (length k + 1) (keys_length j js))
    ∙ ap
        (λ l.
          parse_from (i + (length k + 1 + keys_length j js)) rest
            (record next { state = State.s_lf; keys = l; cur_key = [] }))
        (append_assoc p.keys (k ∷ []) (j ∷ js))
  where
    next : Parser
    next = record p { state = State.sg_key; keys = p.keys ++ k ∷ []; cur_key = [] }

    space : dispatch State.sg_key (i + length k) b' ' (record p { cur_key = k }) ≡ ok next
    space = unfold dispatch step_get_key in refl

-- The parser that has read a `get` line.
unfoldable pub after_get_line : Bytes → List Bytes → Parser → Parser
after_get_line k ks p = record p {
  state = State.s_lf;
  name = codes "get";
  keys = k ∷ ks;
  parse_complete = true;
}

length-print_keys :
    (k : Bytes) (ks : List Bytes) → length (print_keys k ks (10 ∷ [])) ≡ keys_length k ks + 1
unfolding print_keys keys_length
length-print_keys k [] = omega (arith, length-append k (13 ∷ 10 ∷ []))
length-print_keys k (j ∷ js) =
    omega (arith, length-append k (b' ' ∷ print_keys j js (10 ∷ [])), length-print_keys j js)

module _ (k : Bytes) (ks : List Bytes) (p : Parser) (rest : Bytes) where
  abbrev start : Parser
  start = record (reset p) { state = State.sg_key; name = codes "get" }

  -- A `get` line is read up to its end of line, whatever follows.
  parse-print_get :
      Each IsWordByte k
      → Each (Each IsWordByte) ks
      → parse (print_get k ks rest) (reset p)
        ≡ ok (after_get_line k ks (reset p), length (print_get k ks []))
  unfolding parse reset after_get_line
  parse-print_get w ws =
      reads_name 0 (codes "get") (b' ' ∷ print_keys k ks (10 ∷ rest)) (reset p) (omega arith)
        (record { waits = refl; state_is = refl })
      ∙ step_to {s = State.s_name} {p = record (reset p) { name = codes "get" }} 3 b' '
          (print_keys k ks (10 ∷ rest)) (record { waits = refl; state_is = refl }) space
      ∙ reads_keys 4 k ks (10 ∷ rest) start w ws (record { waits = refl; state_is = refl }) refl
      ∙ step_to {s = State.s_lf} {p = record start { state = State.s_lf; keys = k ∷ ks }}
          (4 + keys_length k ks) 10 rest (record { waits = refl; state_is = refl }) lf
      ∙ parse_from_complete _ rest (after_get_line k ks (reset p)) refl
      ∙ ap (λ n. ok (after_get_line k ks (reset p), n)) (omega (arith, length-print_keys k ks))
    where
      space : dispatch State.s_name 3 b' ' (record (reset p) { name = codes "get" }) ≡ ok start
      space = unfold dispatch step_name bytes_eq in refl

      lf :
          dispatch State.s_lf
            (4 + keys_length k ks)
            10
            (record start { state = State.s_lf; keys = k ∷ ks })
          ≡ ok (after_get_line k ks (reset p))
      lf = unfold dispatch step_lf in refl

  build-get_line : build (after_get_line k ks (reset p)) ≡ ok (some (get_command (k ∷ ks), 0))
  unfolding build after_get_line reset bytes_eq
  build-get_line = refl

-- A `get` line is read up to its end of line, whatever follows, and gives the command with exactly
-- its keys, in order, and no body.
pub build-parse-print_get :
    (k : Bytes) (ks : List Bytes) (p : Parser) (rest : Bytes)
    → Each IsWordByte k
    → Each (Each IsWordByte) ks
    → (q : Parser) × (parse (print_get k ks rest) (reset p) ≡ ok (q, length (print_get k ks [])))
      × (q.parse_complete ≡ true)
      × (build q ≡ ok (some (get_command (k ∷ ks), 0)))
unfolding after_get_line
build-parse-print_get k ks p rest w ws = (
  after_get_line k ks (reset p),
  parse-print_get k ks p rest w ws,
  refl,
  build-get_line k ks p rest,
)
