-- ===== src/Shell/Scan.antt =====
-- sysprog/2/parser.cpp, `parse_line`: the loop that reads a line and splits it into tokens.
pub mod Room
pub mod Flat
use bd_tarantul.Common.{
  ℕ, suc, ◌+◌, ◌*◌, Bool, true, false, not, ◌||◌, ◌&&◌, Option, none, some, List, [], ◌∷◌, ◌++◌,
  Bytes, length, ltb, ◌==◌, if◌then◌else◌, ◌>>=◌,
}

-- The variables of the loop. `token` holds what is written of its buffer, so its length is `j`; the
-- array of the tokens has room for `slots` pointers.
pub record Line : Type 0 where
  pub tokens : List Bytes
  pub slots : ℕ
  pub token : Bytes
  pub max_len : ℕ
  pub cmd_count : ℕ
  pub prev : ℕ

-- `token[j] = c`: outside of the buffer it is undefined.
abbrev pub write : {A : Type 0} → Line → A → Option A
write l a = if ltb (length l.token) l.max_len then some a else none

-- `token[j] = 0; tokens[tokens_count] = token`: outside of the buffer or of the array it is undefined.
abbrev pub has_place : Line → Bool
has_place l = ltb (length l.token) l.max_len && ltb (length l.tokens) l.slots

abbrev pub write_token : {A : Type 0} → Line → A → Option A
write_token l a = if has_place l then some a else none

-- `alloc1`
abbrev pub alloc1 : ℕ → ℕ → ℕ
alloc1 max_len len = if len == max_len then max_len * 2 else max_len

-- `token[j] = c; j++; alloc1(token, max_len, j); prev = p`
unfoldable pub put : ℕ → ℕ → Line → Option Line
put c p l = write l (record l {
  token = l.token ++ c ∷ [];
  max_len = alloc1 l.max_len (length l.token + 1);
  prev = p;
})

-- The token becomes one of the line, the array gets room for one more, and a new buffer is made.
unfoldable pub end_token : ℕ → Line → Option Line
end_token p l = write_token l (record l {
  tokens = l.tokens ++ l.token ∷ [];
  slots = length l.tokens + 1 + 1;
  token = [];
  max_len = 5;
  prev = p;
})

-- Where the loop is: outside of quotes, after a backslash there, or within quotes.
pub data Mode : Type 0 where
  outside escaped double single : Mode

-- `'|'`: the character is one of the token, and there is a command more.
abbrev pub bar : Line → Line
bar l = record l { cmd_count = l.cmd_count + 1 }

-- The switch on a character outside of quotes, and where the loop is then.
unfoldable pub outside_char : ℕ → Line → Option (Line × Mode)
unfolding put end_token
outside_char c l =
    if c == b' '
    then (end_token c l >>= λ l'. some (l', Mode.outside))
    else if c == b'"'
    then some (record l { prev = 0 }, Mode.double)
    else if c == b'>'
    then some (l, Mode.outside)
    else if c == 39
    then some (l, Mode.single)
    else if c == b'|'
    then (put c c (bar l) >>= λ l'. some (l', Mode.outside))
    else if c == 92
    then some (l, Mode.escaped)
    else (put c c l >>= λ l'. some (l', Mode.outside))

-- The character after a backslash: the backslash is kept and the character is not.
unfoldable pub escaped_char : ℕ → Line → Option (Line × Mode)
unfolding put
escaped_char c l =
    if c == 10 then some (l, Mode.outside) else (put 92 c l >>= λ l'. some (l', Mode.outside))

-- A character within double quotes.
unfoldable pub double_char : ℕ → Line → Option (Line × Mode)
unfolding put end_token
double_char c l =
    if not (c == b'"') || l.prev == 92
    then (put c c l >>= λ l'. some (l', Mode.double))
    else (end_token l.prev l >>= λ l'. some (l', Mode.outside))

-- A character within single quotes: an end of line is dropped.
unfoldable pub single_char : ℕ → Line → Option (Line × Mode)
unfolding put end_token
single_char c l =
    if c == 10
    then some (l, Mode.single)
    else if not (c == 39) || l.prev == 92
    then (put c c l >>= λ l'. some (l', Mode.single))
    else (end_token c l >>= λ l'. some (l', Mode.outside))

unfoldable pub next_char : Mode → ℕ → Line → Option (Line × Mode)
unfolding outside_char escaped_char double_char single_char
next_char Mode.outside c l = outside_char c l
next_char Mode.escaped c l = escaped_char c l
next_char Mode.double c l = double_char c l
next_char Mode.single c l = single_char c l

-- The end of the input: after a backslash `getchar` returns EOF as a character, which is kept as a
-- backslash too.
abbrev pub at_end : Mode → Line → Option Line
at_end Mode.escaped l = put 92 255 l
at_end m l = some l

abbrev pub is_end : Mode → ℕ → Bool
is_end Mode.outside c = c == 10
is_end m c = false

-- `while (true) {...}`: the line, and the input that follows it.
unfoldable pub scan : Mode → Bytes → Line → Option (Line × Bytes)
unfolding next_char
scan m [] l = at_end m l >>= λ l'. some (l', [])
scan m (c ∷ cs) l = if is_end m c then some (l, cs) else (next_char m c l >>= λ r. scan r.1 cs r.0)
