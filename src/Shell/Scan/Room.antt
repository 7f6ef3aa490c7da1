-- ===== src/Shell/Scan/Room.antt =====
-- The buffer of a token always has room for the next character, and the array for the token.
use bd_tarantul.Common.{
  ℕ, ◌+◌, ◌*◌, ◌<◌, ◌≡◌, refl, Bool, true, false, not, ◌||◌, Option, some, [], ◌∷◌, ◌++◌, Bytes,
  length, length-append, ltb, ◌==◌, if◌then◌else◌, ◌>>=◌, arith,
}
use bd_tarantul.Shell.Scan.{
  Line, Mode, has_place, put, end_token, outside_char, escaped_char, double_char, single_char,
  next_char, at_end, is_end, scan, bar,
}

abbrev pub HasRoom : Line → Type 0
HasRoom l = (length l.token < l.max_len) × (length l.tokens < l.slots)

-- A result that is there, and satisfies `P`.
pub data Gives {A : Type 0} (P : A → Type 0) : Option A → Type 0 where
  given : {a : A} → P a → Gives P (some a)

pub either_Gives :
    {A : Type 0} {P : A → Type 0} (z : Bool) {x y : Option A}
    → Gives P x
    → Gives P y
    → Gives P (if z then x else y)
either_Gives true h k = h
either_Gives false h k = k

pub bind_Gives :
    {A B : Type 0} {P : A → Type 0} {Q : B → Type 0} (o : Option A) {f : A → Option B}
    → Gives P o
    → ((a : A) → P a → Gives Q (f a))
    → Gives Q (o >>= f)
bind_Gives o (given {a} h) k = k a h

pub given_of : {A : Type 0} {P : A → Type 0} (a : A) → Gives P (some a) → P a
given_of a (given h) = h

pub put-HasRoom : (c p : ℕ) (l : Line) → HasRoom l → Gives HasRoom (put c p l)
unfolding put
put-HasRoom c p l h =
    let e : ltb (length l.token) l.max_len ≡ true = ground arith in
    rw e (given (grown (length l.token + 1 == l.max_len) refl, h.1))
  where
    grown :
        (z : Bool)
        → (length l.token + 1 == l.max_len) ≡ z
        → length (l.token ++ c ∷ []) < (if z then l.max_len * 2 else l.max_len)
    grown true e = ground (arith, e, h.0, length-append l.token (c ∷ []))
    grown false e = ground (arith, e, h.0, length-append l.token (c ∷ []))

pub has_place-true : (l : Line) → HasRoom l → has_place l ≡ true
has_place-true l h = ground (arith, h.0, h.1)

pub end_token-HasRoom : (p : ℕ) (l : Line) → HasRoom l → Gives HasRoom (end_token p l)
unfolding end_token
end_token-HasRoom p l h =
    rw (has_place-true l h)
      (given (omega arith, omega (arith, length-append l.tokens (l.token ∷ []))))

abbrev RoomLeft : Line × Mode → Type 0
RoomLeft r = HasRoom r.0

put_on :
    (c p : ℕ) (l : Line) (m : Mode) → HasRoom l → Gives RoomLeft (put c p l >>= λ l'. some (l', m))
put_on c p l m h = bind_Gives (put c p l) (put-HasRoom c p l h) (λ l' r. given r)

end_on :
    (p : ℕ) (l : Line) (m : Mode)
    → HasRoom l
    → Gives RoomLeft (end_token p l >>= λ l'. some (l', m))
end_on p l m h = bind_Gives (end_token p l) (end_token-HasRoom p l h) (λ l' r. given r)

next_char-RoomLeft : (m : Mode) (c : ℕ) (l : Line) → HasRoom l → Gives RoomLeft (next_char m c l)
unfolding next_char outside_char escaped_char double_char single_char
next_char-RoomLeft Mode.outside c l h = either_Gives (c == b' ') (end_on c l Mode.outside h) (
    either_Gives (c == b'"') (given h) (
      either_Gives (c == b'>') (given h) (
        either_Gives (c == 39) (given h) (
          either_Gives (c == b'|') (put_on c c (bar l) Mode.outside h)
            (either_Gives (c == 92) (given h) (put_on c c l Mode.outside h))))))
next_char-RoomLeft Mode.escaped c l h =
    either_Gives (c == 10) (given h) (put_on 92 c l Mode.outside h)
next_char-RoomLeft Mode.double c l h =
    either_Gives (not (c == b'"') || l.prev == 92) (put_on c c l Mode.double h)
      (end_on l.prev l Mode.outside h)
next_char-RoomLeft Mode.single c l h = either_Gives (c == 10) (given h) (
    either_Gives (not (c == 39) || l.prev == 92) (put_on c c l Mode.single h)
      (end_on c l Mode.outside h))

abbrev pub LeavesRoom : Line × Bytes → Type 0
LeavesRoom r = HasRoom r.0

at_end-HasRoom : (m : Mode) (l : Line) → HasRoom l → Gives HasRoom (at_end m l)
at_end-HasRoom Mode.outside l h = given h
at_end-HasRoom Mode.escaped l h = put-HasRoom 92 255 l h
at_end-HasRoom Mode.double l h = given h
at_end-HasRoom Mode.single l h = given h

-- Where the buffer of the token has room for a byte and the array of the tokens for a pointer, the loop
-- reads its line, whatever the input, without a write outside of a buffer of a token or of the array,
-- and leaves as much room for the end of the last token.
pub scan-LeavesRoom :
    (m : Mode) (cs : Bytes) (l : Line) → HasRoom l → Gives LeavesRoom (scan m cs l)
unfolding scan
scan-LeavesRoom m [] l h = bind_Gives (at_end m l) (at_end-HasRoom m l h) (λ l' r. given r)
scan-LeavesRoom m (c ∷ cs) l h = either_Gives (is_end m c) (given h) (
    bind_Gives (next_char m c l) (next_char-RoomLeft m c l h)
      (λ r room. scan-LeavesRoom r.1 cs r.0 room))
