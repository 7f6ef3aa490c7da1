-- ===== src/Shell/Scan/Flat.antt =====
-- Outside of double quotes no end of line gets into a token.
use bd_tarantul.Common.{
  ℕ, ◌≡◌, ◌≢◌, refl, Bool, true, false, not, ◌||◌, Option, none, some, List, [], ◌∷◌, ◌++◌, Bytes,
  length, ltb, ◌==◌, if◌then◌else◌, ◌>>=◌, arith,
}
use bd_tarantul.Protocol.Parser.Segments.{Each}
use bd_tarantul.Shell.Scan.{
  Line, Mode, has_place, put, end_token, outside_char, escaped_char, single_char, next_char, is_end,
  scan, bar,
}

-- A result that satisfies `P`, if there is one.
pub data IfSome {A : Type 0} (P : A → Type 0) : Option A → Type 0 where
  absent : IfSome P none
  present : {a : A} → P a → IfSome P (some a)

pub if_some : {A : Type 0} {P : A → Type 0} (a : A) → IfSome P (some a) → P a
if_some a (present h) = h

pub either_IfSome :
    {A : Type 0} {P : A → Type 0} (z : Bool) {x y : Option A}
    → (z ≡ true → IfSome P x)
    → (z ≡ false → IfSome P y)
    → IfSome P (if z then x else y)
either_IfSome true h k = h refl
either_IfSome false h k = k refl

pub bind_IfSome :
    {A B : Type 0} {P : A → Type 0} {Q : B → Type 0} (o : Option A) {f : A → Option B}
    → IfSome P o
    → ((a : A) → P a → IfSome Q (f a))
    → IfSome Q (o >>= f)
bind_IfSome o absent k = absent
bind_IfSome o (present {a} h) k = k a h

abbrev pub IsNot : ℕ → ℕ → Type 0
IsNot b c = c ≢ b

pub Each-append :
    {A : Type 0} (P : A → Type 0) (xs ys : List A) → Each P xs → Each P ys → Each P (xs ++ ys)
Each-append P [] ys h k = k
Each-append P (x ∷ xs) ys h k = (h.0, Each-append P xs ys h.1 k)

-- No end of line in a token.
abbrev pub IsFlatToken : Bytes → Type 0
IsFlatToken t = Each (IsNot 10) t

pub record IsFlat (l : Line) : Type 0 where
  pub flat_tokens : Each IsFlatToken l.tokens
  pub flat_token : Each (IsNot 10) l.token

put-IsFlat : (c p : ℕ) (l : Line) → c ≢ 10 → IsFlat l → IfSome IsFlat (put c p l)
unfolding put
put-IsFlat c p l n h =
    either_IfSome (ltb (length l.token) l.max_len)
      (λ _. present (record {
        flat_tokens = h.flat_tokens;
        flat_token = Each-append (IsNot 10) l.token (c ∷ []) h.flat_token (n, tt);
      }))
      (λ _. absent)

end_token-IsFlat : (p : ℕ) (l : Line) → IsFlat l → IfSome IsFlat (end_token p l)
unfolding end_token
end_token-IsFlat p l h =
    either_IfSome (has_place l)
      (λ _. present (record {
        flat_tokens =
            Each-append IsFlatToken l.tokens (l.token ∷ []) h.flat_tokens (h.flat_token, tt);
        flat_token = tt;
      }))
      (λ _. absent)

-- The loop is not within double quotes.
abbrev NotDouble : Mode → Type 0
NotDouble Mode.double = ⊥
NotDouble m = Unit {0}

abbrev Flat : Line × Mode → Type 0
Flat r = IsFlat r.0 × NotDouble r.1

put_on :
    (c p : ℕ) (l : Line) (m : Mode)
    → NotDouble m
    → c ≢ 10
    → IsFlat l
    → IfSome Flat (put c p l >>= λ l'. some (l', m))
put_on c p l m d n h = bind_IfSome (put c p l) (put-IsFlat c p l n h) (λ l' f. present (f, d))

end_on :
    (p : ℕ) (l : Line) (m : Mode)
    → NotDouble m
    → IsFlat l
    → IfSome Flat (end_token p l >>= λ l'. some (l', m))
end_on p l m d h = bind_IfSome (end_token p l) (end_token-IsFlat p l h) (λ l' f. present (f, d))

next_char-Flat :
    (m : Mode) (c : ℕ) (l : Line)
    → NotDouble m
    → c ≢ b'"'
    → is_end m c ≡ false
    → IsFlat l
    → IfSome Flat (next_char m c l)
unfolding next_char outside_char escaped_char single_char
next_char-Flat Mode.outside c l d q e h =
    let n : c ≢ 10 = ground (arith, e) in
    either_IfSome (c == b' ') (λ _. end_on c l Mode.outside tt h)
      (λ _.
        either_IfSome (c == b'"') (λ z. absurd (ground (arith, z, q)))
          (λ _.
            either_IfSome (c == b'>') (λ _. present (h, tt))
              (λ _.
                either_IfSome (c == 39) (λ _. present (h, tt))
                  (λ _.
                    either_IfSome (c == b'|')
                      (λ _.
                        put_on c c (bar l) Mode.outside tt n
                          (record { flat_tokens = h.flat_tokens; flat_token = h.flat_token }))
                      (λ _.
                        either_IfSome (c == 92) (λ _. present (h, tt))
                          (λ _. put_on c c l Mode.outside tt n h))))))
next_char-Flat Mode.escaped c l d q e h =
    either_IfSome (c == 10) (λ _. present (h, tt))
      (λ _. put_on 92 c l Mode.outside tt (omega arith) h)
next_char-Flat Mode.double c l d q e h = absurd d
next_char-Flat Mode.single c l d q e h =
    either_IfSome (c == 10) (λ _. present (h, tt))
      (λ z.
        either_IfSome (not (c == 39) || l.prev == 92)
          (λ _. put_on c c l Mode.single tt (ground (arith, z)) h)
          (λ _. end_on c l Mode.outside tt h))

abbrev pub FlatLine : Line × Bytes → Type 0
FlatLine r = IsFlat r.0

pub scan-FlatLine :
    (m : Mode) (cs : Bytes) (l : Line)
    → NotDouble m
    → Each (IsNot b'"') cs
    → IsFlat l
    → IfSome FlatLine (scan m cs l)
unfolding scan
scan-FlatLine Mode.outside [] l d q h = present h
scan-FlatLine Mode.escaped [] l d q h =
    bind_IfSome (put 92 255 l) (put-IsFlat 92 255 l (omega arith) h) (λ l' f. present f)
scan-FlatLine Mode.double [] l d q h = absurd d
scan-FlatLine Mode.single [] l d q h = present h
scan-FlatLine m (c ∷ cs) l d q h =
    either_IfSome (is_end m c) (λ _. present h)
      (λ e.
        bind_IfSome (next_char m c l) (next_char-Flat m c l d q.0 e h)
          (λ r f. scan-FlatLine r.1 cs r.0 f.1 q.1 f.0))
