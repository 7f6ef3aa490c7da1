-- ===== src/Shell/RoundTrip.antt =====
-- sysprog/2/parser.cpp: the commands of a line that is printed with one space between its words are
-- read back by `parse_line`.
use bd_tarantul.Common.{
  ℕ, ◌+◌, ◌<◌, ◌≡◌, refl, sym, ap, ◌∙◌, true, false, Option, some, List, [], ◌∷◌, ◌++◌, map,
  append-nil, append_assoc, Bytes, bytes_eq, codes, length, length-append, ltb, ◌==◌, ◌>>=◌, arith,
}
use bd_tarantul.Protocol.Parser.Segments.{Each}
use bd_tarantul.Shell.Scan.{Line, Mode, scan}
use bd_tarantul.Shell.Build.{
  Cmd, CmdLine, is_bar, add_cmd, split_commands, last_token, first_line, parse_line,
}
use bd_tarantul.Shell.Tokens.{Token, word, pipe, text, pipes, IsToken, join, reads_line}

-- The words of a command, none of which is empty.
abbrev pub IsCommand : List Bytes → Type 0
IsCommand c = Each (λ w. IsToken (word w)) c

-- The tokens of a pipeline, `c` its first command.
abbrev pub tokens_of : List Bytes → List (List Bytes) → List Token
tokens_of c [] = map word c
tokens_of c (d ∷ ds) = map word c ++ pipe ∷ tokens_of d ds

abbrev pub print_tokens : List Token → Bytes
print_tokens [] = []
print_tokens (t ∷ ts) = join (text t) (map text ts)

abbrev pub cmd_of : List Bytes → Cmd
cmd_of c = record { argc = length c; argv = c }

words-IsToken : (c : List Bytes) → IsCommand c → Each IsToken (map word c)
words-IsToken [] h = h
words-IsToken (w ∷ c) h = (h.0, words-IsToken c h.1)

Each-append : (xs ys : List Token) → Each IsToken xs → Each IsToken ys → Each IsToken (xs ++ ys)
Each-append [] ys h k = k
Each-append (x ∷ xs) ys h k = (h.0, Each-append xs ys h.1 k)

tokens-IsToken :
    (c : List Bytes) (cs : List (List Bytes))
    → Each IsCommand (c ∷ cs)
    → Each IsToken (tokens_of c cs)
tokens-IsToken c [] h = words-IsToken c h.0
tokens-IsToken c (d ∷ ds) h =
    Each-append (map word c) (pipe ∷ tokens_of d ds) (words-IsToken c h.0)
      (tt, tokens-IsToken d ds h.1)

pipes-words : (c : List Bytes) (ts : List Token) → pipes (map word c ++ ts) ≡ pipes ts
pipes-words [] ts = refl
pipes-words (w ∷ c) ts = pipes-words c ts

pipes-tokens : (c : List Bytes) (cs : List (List Bytes)) → pipes (tokens_of c cs) ≡ length cs
pipes-tokens c [] = ap pipes (sym (append-nil (map word c))) ∙ pipes-words c []
pipes-tokens c (d ∷ ds) = pipes-words c (pipe ∷ tokens_of d ds) ∙ omega (arith, pipes-tokens d ds)

word-not_bar : (w : Bytes) → IsToken (word w) → is_bar w ≡ false
unfolding is_bar bytes_eq
word-not_bar [] h = absurd (omega (arith, h.0))
word-not_bar (c ∷ w) h =
    let p = h.1.0 in
    let e : (c == 0) ≡ false = ground (arith, p) in
    let f : (c == 124) ≡ false = ground (arith, p) in rw e (rw f refl)

split-words :
    (n : ℕ) (c : List Bytes) (ts : List Token) (argv : List Bytes) (cmds : List Cmd)
    → IsCommand c
    → split_commands n (map text (map word c ++ ts)) argv cmds
      ≡ split_commands n (map text ts) (argv ++ c) cmds
unfolding split_commands
split-words n [] ts argv cmds h =
    ap (λ v. split_commands n (map text ts) v cmds) (sym (append-nil argv))
split-words n (w ∷ c) ts argv cmds h =
    let e : is_bar w ≡ false = word-not_bar w h.0 in
    rw e (split-words n c ts (argv ++ w ∷ []) cmds h.1)
    ∙ ap (λ v. split_commands n (map text ts) v cmds) (append_assoc argv (w ∷ []) c)

add_cmd-is :
    (n : ℕ) (argv : List Bytes) (cmds : List Cmd)
    → length cmds < n
    → add_cmd n argv cmds ≡ some (cmds ++ cmd_of argv ∷ [])
add_cmd-is n argv cmds h = let e : ltb (length cmds) n ≡ true = ground arith in rw e refl

split-pipe :
    (n : ℕ) (ts argv : List Bytes) (cmds : List Cmd)
    → length cmds < n
    → split_commands n (codes "|" ∷ ts) argv cmds
      ≡ split_commands n ts [] (cmds ++ cmd_of argv ∷ [])
unfolding split_commands is_bar bytes_eq
split-pipe n ts argv cmds h = ap (λ o. o >>= split_commands n ts []) (add_cmd-is n argv cmds h)

split-end :
    (n : ℕ) (argv : List Bytes) (cmds : List Cmd)
    → length cmds < n
    → split_commands n [] argv cmds ≡ some (cmds ++ cmd_of argv ∷ [])
unfolding split_commands
split-end n argv cmds h = add_cmd-is n argv cmds h

split-tokens :
    (n : ℕ) (c : List Bytes) (cs : List (List Bytes)) (argv : List Bytes) (cmds : List Cmd)
    → Each IsCommand (c ∷ cs)
    → length cmds + length cs < n
    → split_commands n (map text (tokens_of c cs)) argv cmds
      ≡ some (cmds ++ map cmd_of ((argv ++ c) ∷ cs))
split-tokens n c [] argv cmds h l =
    ap (λ ts. split_commands n (map text ts) argv cmds) (sym (append-nil (map word c)))
    ∙ split-words n c [] argv cmds h.0
    ∙ split-end n (argv ++ c) cmds (omega arith)
split-tokens n c (d ∷ ds) argv cmds h l =
    split-words n c (pipe ∷ tokens_of d ds) argv cmds h.0
    ∙ split-pipe n (map text (tokens_of d ds)) (argv ++ c) cmds (omega arith)
    ∙ split-tokens n d ds [] (cmds ++ cmd_of (argv ++ c) ∷ []) h.1
        (omega (arith, length-append cmds (cmd_of (argv ++ c) ∷ [])))
    ∙ ap some (append_assoc cmds (cmd_of (argv ++ c) ∷ []) (map cmd_of (d ∷ ds)))

scan-tokens :
    (usable : ℕ) (ts : List Token) (rest : Bytes)
    → 0 < usable
    → Each IsToken ts
    → (l : Line) × (scan Mode.outside (print_tokens ts ++ 10 ∷ rest) (first_line usable)
        ≡ some (l, rest))
      × (last_token l ≡ some (map text ts))
      × (l.cmd_count ≡ 1 + pipes ts)
scan-tokens usable [] rest u h = (first_line usable, unfold scan in refl, refl, omega arith)
scan-tokens usable (t ∷ ts) rest u h =
    let (l, s, last, n, room) =
      reads_line rest t ts (first_line usable) h refl (omega arith, omega (arith, u)) in
    (l, s, last, n)

abbrev made : ℕ → Bytes → List Bytes → Option (CmdLine × Bytes)
made n rest tokens =
    split_commands n tokens [] [] >>= λ cmds. some (record { count = n; commands = cmds }, rest)

-- Where the block of `malloc(0)` has room for a pointer, a pipeline of commands whose words are plain
-- and not empty, printed with one space between them, gives its commands, each with its words as
-- arguments, and leaves what follows the line.
pub parse_line-print :
    (usable : ℕ) (c : List Bytes) (cs : List (List Bytes)) (rest : Bytes)
    → 0 < usable
    → Each IsCommand (c ∷ cs)
    → parse_line usable (print_tokens (tokens_of c cs) ++ 10 ∷ rest)
      ≡ some (record { count = length (c ∷ cs); commands = map cmd_of (c ∷ cs) }, rest)
unfolding parse_line
parse_line-print usable c cs rest u h =
    let (l, s, last, n) = scan-tokens usable (tokens_of c cs) rest u (tokens-IsToken c cs h) in
    let count : l.cmd_count ≡ length (c ∷ cs) = omega (arith, n, pipes-tokens c cs) in
    ap (λ o. o >>= λ r. last_token r.0 >>= λ ts. made r.0.cmd_count r.1 ts) s
    ∙ ap (λ o. o >>= made l.cmd_count rest) last
    ∙ ap (λ k. made k rest (map text (tokens_of c cs))) count
    ∙ ap (λ o. o >>= λ cmds. some (record { count = length (c ∷ cs); commands = cmds }, rest))
        (split-tokens (length (c ∷ cs)) c cs [] [] h (omega arith))
