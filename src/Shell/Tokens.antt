-- ===== src/Shell/Tokens.antt =====
-- The loop of `parse_line` reads back the tokens of a line that has one space between them.
use bd_tarantul.Common.{
  ℕ, ◌+◌, ◌<◌, ◌≡◌, ◌≢◌, refl, sym, ap, ap₂, ◌∙◌, subst, true, Option, none, some, List, [], ◌∷◌,
  ◌++◌, map, append-nil, append_assoc, Bytes, codes, length, ltb, ◌>>=◌, arith,
}
use bd_tarantul.Protocol.Parser.Segments.{Each}
use bd_tarantul.Shell.Scan.{
  Line, Mode, write_token, put, end_token, outside_char, next_char, scan, bar, alloc1,
}
use bd_tarantul.Shell.Scan.Room.{
  HasRoom, Gives, given_of, put-HasRoom, has_place-true, end_token-HasRoom,
}
use bd_tarantul.Shell.Build.{last_token}

-- A character that stands for itself.
abbrev pub IsPlain : ℕ → Type 0
IsPlain c =
    (c ≢ 0) × (c ≢ 10) × (c ≢ b' ') × (c ≢ b'"') × (c ≢ b'>') × (c ≢ 39) × (c ≢ b'|') × (c ≢ 92)

pub data Token : Type 0 where
  word : Bytes → Token
  pipe : Token

abbrev pub text : Token → Bytes
text (word w) = w
text pipe = codes "|"

abbrev pub pipes : List Token → ℕ
pipes [] = 0
pipes (word w ∷ ts) = pipes ts
pipes (pipe ∷ ts) = pipes ts + 1

-- A word is not empty and has plain characters.
abbrev pub IsToken : Token → Type 0
IsToken (word w) = (0 < length w) × Each IsPlain w
IsToken pipe = Unit {0}

abbrev pub join : Bytes → List Bytes → Bytes
join t [] = t
join t (u ∷ us) = t ++ b' ' ∷ join u us

-- What the loop has read of `t` since `l`.
record Reads (l : Line) (t : Bytes) (n : ℕ) (l' : Line) : Type 0 where
  same_tokens : l'.tokens ≡ l.tokens
  read : l'.token ≡ l.token ++ t
  counted : l'.cmd_count ≡ l.cmd_count + n
  room : HasRoom l'

step_plain :
    (c : ℕ) (cs : Bytes) (l : Line)
    → IsPlain c
    → HasRoom l
    → scan Mode.outside (c ∷ cs) l ≡ (put c c l >>= scan Mode.outside cs)
unfolding scan next_char outside_char
step_plain c cs l p h = ground (arith, p)

then_scan :
    (o : Option Line) (cs : Bytes)
    → (let read : Option (Line × Mode) = o >>= λ l. some (l, Mode.outside) in
        read >>= λ r. scan r.1 cs r.0)
      ≡ (o >>= scan Mode.outside cs)
then_scan none cs = refl
then_scan (some l) cs = refl

step_space :
    (cs : Bytes) (l : Line)
    → scan Mode.outside (b' ' ∷ cs) l ≡ (end_token b' ' l >>= scan Mode.outside cs)
unfolding scan next_char outside_char
step_space cs l = then_scan (end_token b' ' l) cs

step_bar :
    (cs : Bytes) (l : Line)
    → scan Mode.outside (b'|' ∷ cs) l ≡ (put b'|' b'|' (bar l) >>= scan Mode.outside cs)
unfolding scan next_char outside_char
step_bar cs l = then_scan (put b'|' b'|' (bar l)) cs

-- What `put` and `end_token` make of a line that has room.
abbrev typed : ℕ → Line → Line
typed c l = record l {
  token = l.token ++ c ∷ [];
  max_len = alloc1 l.max_len (length l.token + 1);
  prev = c;
}

abbrev ended : Line → Line
ended l = record l {
  tokens = l.tokens ++ l.token ∷ [];
  slots = length l.tokens + 1 + 1;
  token = [];
  max_len = 5;
  prev = b' ';
}

end-is : (p : ℕ) (l : Line) → HasRoom l → end_token p l ≡ some (record (ended l) { prev = p })
unfolding end_token
end-is p l h = rw (has_place-true l h) refl

put-is :
    (c p : ℕ) (l : Line)
    → HasRoom l
    → put c p l
      ≡ some (record l {
        token = l.token ++ c ∷ [];
        max_len = alloc1 l.max_len (length l.token + 1);
        prev = p;
      })
unfolding put
put-is c p l h = let e : ltb (length l.token) l.max_len ≡ true = ground (arith, h.0) in rw e refl

-- A run of plain characters.
Reads-word :
    (w cs : Bytes) (l : Line)
    → Each IsPlain w
    → HasRoom l
    → (l' : Line) × (scan Mode.outside (w ++ cs) l ≡ scan Mode.outside cs l') × Reads l w 0 l'
Reads-word [] cs l p h = (
  l,
  refl,
  record { same_tokens = refl; read = sym (append-nil l.token); counted = omega arith; room = h },
)
Reads-word (c ∷ w) cs l p h =
    let l1 = typed c l in
    let room : HasRoom l1 =
      given_of l1 (subst (Gives HasRoom) (put-is c c l h) (put-HasRoom c c l h)) in
    let (l2, e, r) = Reads-word w cs l1 p.1 room in
    (
      l2,
      step_plain c (w ++ cs) l p.0 h
          ∙ ap (λ o. o >>= scan Mode.outside (w ++ cs)) (put-is c c l h)
          ∙ e,
      record {
        same_tokens = r.same_tokens;
        read = r.read ∙ append_assoc l.token (c ∷ []) w;
        counted = r.counted;
        room = r.room;
      },
    )

Reads-token :
    (t : Token) (cs : Bytes) (l : Line)
    → IsToken t
    → HasRoom l
    → (l' : Line) × (scan Mode.outside (text t ++ cs) l ≡ scan Mode.outside cs l')
      × Reads l (text t) (pipes (t ∷ [])) l'
Reads-token (word w) cs l p h = Reads-word w cs l p.1 h
Reads-token pipe cs l p h = (
  typed b'|' (bar l),
  step_bar cs l ∙ ap (λ o. o >>= scan Mode.outside cs) (put-is b'|' b'|' (bar l) h),
  record {
    same_tokens = refl;
    read = refl;
    counted = omega arith;
    room =
        given_of (typed b'|' (bar l))
          (subst (Gives HasRoom) (put-is b'|' b'|' (bar l) h) (put-HasRoom b'|' b'|' (bar l) h));
  },
)

last_token-is :
    (l : Line) → 0 < length l.token → HasRoom l → last_token l ≡ some (l.tokens ++ l.token ∷ [])
last_token-is l h room = by_token l.token h
  where
    by_token :
        (x : Bytes)
        → 0 < length x
        → (elim x as (λ x. Option (List Bytes)) [
          | [] ↦ some l.tokens
          | _ ∷ _ ↦ write_token l (l.tokens ++ l.token ∷ [])
        ])
          ≡ some (l.tokens ++ l.token ∷ [])
    by_token [] h = absurd (omega (arith, h))
    by_token (c ∷ cs) h = rw (has_place-true l room) refl

token_length : (t : Token) → IsToken t → 0 < length (text t)
token_length (word w) p = p.0
token_length pipe p = omega arith

pipes-cons : (t : Token) (ts : List Token) → pipes (t ∷ ts) ≡ pipes (t ∷ []) + pipes ts
pipes-cons (word w) ts = omega arith
pipes-cons pipe ts = omega arith

token-is : {l l' : Line} {t : Bytes} {n : ℕ} → l.token ≡ [] → Reads l t n l' → l'.token ≡ t
token-is {t = t} e r = r.read ∙ ap (λ x. x ++ t) e

-- A token that has been read, as the last of its line.
Reads-last :
    (t : Token) (l l' : Line) (n : ℕ)
    → IsToken t
    → l.token ≡ []
    → Reads l (text t) n l'
    → last_token l' ≡ some (l.tokens ++ text t ∷ [])
Reads-last t l l' n p e r =
    let k : l'.token ≡ text t = token-is e r in
    last_token-is l' (subst (λ x. 0 < length x) (sym k) (token_length t p)) r.room
    ∙ ap₂ (λ ts x. some (ts ++ x ∷ [])) r.same_tokens k

module _ (rest : Bytes) where
  abbrev line_end : Bytes
  line_end = 10 ∷ rest

  -- Tokens with one space between them, up to the end of the line.
  pub reads_line :
      (t : Token) (ts : List Token) (l : Line)
      → Each IsToken (t ∷ ts)
      → l.token ≡ []
      → HasRoom l
      → (l' : Line) × (scan Mode.outside (join (text t) (map text ts) ++ line_end) l
          ≡ some (l', rest))
        × (last_token l' ≡ some (l.tokens ++ map text (t ∷ ts)))
        × (l'.cmd_count ≡ l.cmd_count + pipes (t ∷ ts))
        × HasRoom l'
  reads_line t [] l p e h =
      let (l1, s, r) = Reads-token t line_end l p.0 h in
      (l1, s ∙ unfold scan in refl, Reads-last t l l1 _ p.0 e r, r.counted, r.room)
  reads_line t (u ∷ us) l p e h =
      let (l1, s, r) = Reads-token t (b' ' ∷ (join (text u) (map text us) ++ line_end)) l p.0 h in
      let (l2, s', last, n, room) = reads_line u us (ended l1) p.1 refl (
        given_of (ended l1)
          (subst (Gives HasRoom) (end-is b' ' l1 r.room) (end_token-HasRoom b' ' l1 r.room))) in
      (
        l2,
        ap (λ cs. scan Mode.outside cs l)
              (append_assoc (text t) (b' ' ∷ join (text u) (map text us)) line_end)
            ∙ s
            ∙ step_space (join (text u) (map text us) ++ line_end) l1
            ∙ ap (λ o. o >>= scan Mode.outside (join (text u) (map text us) ++ line_end))
                (end-is b' ' l1 r.room)
            ∙ s',
        last
            ∙ ap some (
                append_assoc l1.tokens (l1.token ∷ []) (map text (u ∷ us))
                ∙ ap₂ (λ ts x. ts ++ x ∷ map text (u ∷ us)) r.same_tokens (token-is e r)),
        omega (arith, n, r.counted, pipes-cons t (u ∷ us)),
        room,
      )
