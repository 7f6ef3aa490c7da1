-- ===== src/Protocol/Parser/Chunks.antt =====
-- Parser.cpp: a stream may reach `Parse` in chunks cut at any place.
use bd_tarantul.Common.{
  ℕ, ◌+◌, ◌≡◌, refl, sym, ap, ◌∙◌, fun_ext, true, false, List, [], ◌∷◌, ◌++◌, arith, Bytes,
  Bool-cases, if_true, if_false, inl, inr,
}
use native.Mathlib.Nat.{add_assoc, add-zero}
use bd_tarantul.Protocol.Parser.{
  Parser, State, Error, invalid_char, Result, ok, throw, undefined, ◌>>=◌, dispatch, step_name,
  step_key, step_get_key, step_flags, step_expr_time_start, step_expr_time, step_bytes, step_lf,
  parse_from, parse,
}

-- The outcome with its positions counted from `k` bytes earlier.
unfoldable pub shift_error : ℕ → Error → Error
shift_error k (invalid_char c i) = invalid_char c (k + i)
shift_error k e = e

unfoldable pub shift : ℕ → Result (Parser × ℕ) → Result (Parser × ℕ)
unfolding shift_error
shift k (ok (p, n)) = ok (p, k + n)
shift k (throw e) = throw (shift_error k e)
shift k undefined = undefined

abbrev pub shift_step : ℕ → Result Parser → Result Parser
shift_step k (ok p) = ok p
shift_step k (throw e) = throw (shift_error k e)
shift_step k undefined = undefined

pub dispatch-shift :
    (k i c : ℕ) (s : State) (p : Parser) → dispatch s (k + i) c p ≡ shift_step k (dispatch s i c p)
unfolding dispatch step_name step_key step_get_key step_flags step_expr_time_start step_expr_time
    step_bytes step_lf shift_error
dispatch-shift k i c State.s_lf p = ground arith
dispatch-shift k i c s p = ground arith

>>=_assoc :
    {B C : Type 0} (f : Parser → Result B) (g : B → Result C) (r : Result Parser)
    → (r >>= f >>= g) ≡ (r >>= λ q. f q >>= g)
>>=_assoc f g (throw e) = refl
>>=_assoc f g undefined = refl
>>=_assoc f g (ok q) = refl

shift->>= :
    (k : ℕ) (r : Result Parser) (f g : Parser → Result (Parser × ℕ))
    → ((q : Parser) → f q ≡ shift k (g q))
    → (shift_step k r >>= f) ≡ shift k (r >>= g)
unfolding shift
shift->>= k (ok q) f g h = h q
shift->>= k (throw e) f g h = refl
shift->>= k undefined f g h = refl

pub parse_from_complete :
    (i : ℕ) (cs : Bytes) (p : Parser) → p.parse_complete ≡ true → parse_from i cs p ≡ ok (p, i)
unfolding parse_from
parse_from_complete i [] p h = refl
parse_from_complete i (c ∷ cs) p h = if_true p.parse_complete _ _ h

pub parse_from-more :
    (i c : ℕ) (cs : Bytes) (p : Parser)
    → p.parse_complete ≡ false
    → parse_from i (c ∷ cs) p ≡ (dispatch p.state i c p >>= parse_from (i + 1) cs)
unfolding parse_from
parse_from-more i c cs p h = if_false p.parse_complete _ _ h

-- Positions are counted from wherever the reading starts.
parse_from-shift :
    (k i : ℕ) (cs : Bytes) (p : Parser) → parse_from (k + i) cs p ≡ shift k (parse_from i cs p)
parse_from-shift k i [] p = unfold parse_from shift in refl
parse_from-shift k i (c ∷ cs) p = elim (Bool-cases p.parse_complete) [
  | inl done ↦
      parse_from_complete (k + i) (c ∷ cs) p done
      ∙ unfold shift in ap (shift k) (sym (parse_from_complete i (c ∷ cs) p done))
  | inr more ↦
      parse_from-more (k + i) c cs p more
      ∙ ap (λ r. r >>= parse_from (k + i + 1) cs) (dispatch-shift k i c p.state p)
      ∙ ap (λ n. shift_step k (dispatch p.state i c p) >>= parse_from n cs) (add_assoc k i 1)
      ∙ shift->>= k (dispatch p.state i c p) _ _ (parse_from-shift k (i + 1) cs)
      ∙ ap (shift k) (sym (parse_from-more i c cs p more))
]

parse_from-append :
    (i : ℕ) (xs ys : Bytes) (p : Parser)
    → parse_from i (xs ++ ys) p ≡ (parse_from i xs p >>= λ r. parse_from r.1 ys r.0)
parse_from-append i [] ys p = unfold parse_from in refl
parse_from-append i (x ∷ xs) ys p = elim (Bool-cases p.parse_complete) [
  | inl done ↦
      parse_from_complete i (x ∷ xs ++ ys) p done
      ∙ sym (parse_from_complete i ys p done)
      ∙ ap (λ m. m >>= λ r. parse_from r.1 ys r.0) (sym (parse_from_complete i (x ∷ xs) p done))
  | inr more ↦
      parse_from-more i x (xs ++ ys) p more
      ∙ ap (λ f. dispatch p.state i x p >>= f) (fun_ext (parse_from-append (i + 1) xs ys))
      ∙ sym
          (>>=_assoc (parse_from (i + 1) xs) (λ r. parse_from r.1 ys r.0) (dispatch p.state i x p))
      ∙ ap (λ m. m >>= λ r. parse_from r.1 ys r.0) (sym (parse_from-more i x xs p more))
]

parse-nil : (p : Parser) → parse [] p ≡ ok (p, 0)
unfolding parse
parse-nil p = refl

-- One `Parse` of two chunks that arrive together is a `Parse` of each in turn: the same parser and
-- verdict, the bytes consumed added up, and the same exception with its position counted from the
-- start.
pub parse-append :
    (xs ys : Bytes) (p : Parser)
    → parse (xs ++ ys) p ≡ (parse xs p >>= λ r. shift r.1 (parse ys r.0))
unfolding parse
parse-append xs ys p =
    parse_from-append 0 xs ys p
    ∙ ap (λ f. parse_from 0 xs p >>= f)
        (fun_ext (λ (r : Parser × ℕ).
          ap (λ n. parse_from n ys r.0) (sym (add-zero r.1)) ∙ parse_from-shift r.1 0 ys r.0))

abbrev pub concat : List Bytes → Bytes
concat [] = []
concat (xs ∷ xss) = xs ++ concat xss

-- The bytes consumed, after `k` others; an exception is as the last `Parse` throws it.
abbrev pub count : ℕ → Result (Parser × ℕ) → Result (Parser × ℕ)
count k (ok (p, n)) = ok (p, k + n)
count k r = r

-- The reads of a stream, one `Parse` to a chunk.
unfoldable pub feed : List Bytes → Parser → Result (Parser × ℕ)
feed [] p = ok (p, 0)
feed (xs ∷ xss) p = parse xs p >>= λ r. count r.1 (feed xss r.0)

-- An outcome but for the position in the text of an exception.
abbrev pub unplaced : Result (Parser × ℕ) → Result (Parser × ℕ)
unplaced (throw (invalid_char c i)) = throw (invalid_char c 0)
unplaced r = r

unplaced-count :
    (k : ℕ) (r q : Result (Parser × ℕ))
    → unplaced r ≡ unplaced q
    → unplaced (count k r) ≡ unplaced (shift k q)
unfolding shift shift_error
unplaced-count k r q h = ground (arith, h)

-- However a stream is cut into chunks, reading them in turn is reading it whole: the same parser, the
-- same number of bytes consumed, and where the one throws the other throws the same exception, but
-- for the position that its text gives, which is counted from the chunk.
pub feed-concat :
    (xss : List Bytes) (p : Parser) → unplaced (feed xss p) ≡ unplaced (parse (concat xss) p)
unfolding feed
feed-concat [] p = ap unplaced (sym (parse-nil p))
feed-concat (xs ∷ xss) p =
    by_first (feed-concat xss) (parse xs p) ∙ ap unplaced (sym (parse-append xs (concat xss) p))
  where
    by_first :
        ((q : Parser) → unplaced (feed xss q) ≡ unplaced (parse (concat xss) q))
        → (m : Result (Parser × ℕ))
        → unplaced (m >>= λ r. count r.1 (feed xss r.0))
          ≡ unplaced (m >>= λ r. shift r.1 (parse (concat xss) r.0))
    by_first ih (ok (q, k)) = unplaced-count k (feed xss q) (parse (concat xss) q) (ih q)
    by_first ih (throw e) = refl
    by_first ih undefined = refl
