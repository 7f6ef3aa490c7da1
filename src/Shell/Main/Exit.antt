-- ===== src/Shell/Main/Exit.antt =====
-- When the shell leaves its loop.
use bd_tarantul.Common.{
  ℕ, ◌≡◌, ◌≢◌, refl, subst, Bool, true, false, Option, none, some, List, [], ◌∷◌, ◌++◌, Bytes,
  bytes_eq, bytes_eq_iff, codes, length, ltb, ◌==◌, if◌then◌else◌, arith, Bool-cases, inl, inr,
}
use bd_tarantul.Protocol.Parser.Segments.{Each}
use bd_tarantul.Shell.Scan.{Line, Mode, has_place, write_token, scan}
use bd_tarantul.Shell.Build.{
  Cmd, CmdLine, name_of, c_string, is_bar, add_cmd, split_commands, last_token, first_line,
  parse_line,
}
use bd_tarantul.Shell.Main.{Action, leave, is_exit, main_round}
use bd_tarantul.Shell.Scan.Flat.{
  IfSome, absent, present, if_some, either_IfSome, bind_IfSome, IsNot, Each-append, IsFlatToken,
  IsFlat, scan-FlatLine,
}

abbrev FlatCmd : Cmd → Type 0
FlatCmd c = Each IsFlatToken c.argv

abbrev FlatCmds : List Cmd → Type 0
FlatCmds cs = Each FlatCmd cs

add_cmd-FlatCmds :
    (n : ℕ) (argv : List Bytes) (cmds : List Cmd)
    → Each IsFlatToken argv
    → FlatCmds cmds
    → IfSome FlatCmds (add_cmd n argv cmds)
add_cmd-FlatCmds n argv cmds a c =
    either_IfSome (ltb (length cmds) n)
      (λ _.
        present
          (Each-append FlatCmd cmds (record { argc = length argv; argv = argv } ∷ []) c (a, tt)))
      (λ _. absent)

split-FlatCmds :
    (n : ℕ) (ts argv : List Bytes) (cmds : List Cmd)
    → Each IsFlatToken ts
    → Each IsFlatToken argv
    → FlatCmds cmds
    → IfSome FlatCmds (split_commands n ts argv cmds)
unfolding split_commands
split-FlatCmds n [] argv cmds t a c = add_cmd-FlatCmds n argv cmds a c
split-FlatCmds n (x ∷ ts) argv cmds t a c =
    either_IfSome (is_bar x)
      (λ _.
        bind_IfSome (add_cmd n argv cmds) (add_cmd-FlatCmds n argv cmds a c)
          (λ cmds' f. split-FlatCmds n ts [] cmds' t.1 tt f))
      (λ _.
        split-FlatCmds n ts (argv ++ x ∷ []) cmds t.1
          (Each-append IsFlatToken argv (x ∷ []) a (t.0, tt)) c)

abbrev FlatTokens : List Bytes → Type 0
FlatTokens ts = Each IsFlatToken ts

last_token-FlatTokens : (l : Line) → IsFlat l → IfSome FlatTokens (last_token l)
last_token-FlatTokens l h = by_token l.token
  where
    by_token :
        (x : Bytes)
        → IfSome FlatTokens (elim x as (λ x. Option (List Bytes)) [
          | [] ↦ some l.tokens
          | _ ∷ _ ↦ write_token l (l.tokens ++ l.token ∷ [])
        ])
    by_token [] = present h.flat_tokens
    by_token (_ ∷ _) =
        either_IfSome (has_place l)
          (λ _.
            present
              (Each-append IsFlatToken l.tokens (l.token ∷ []) h.flat_tokens (h.flat_token, tt)))
          (λ _. absent)

abbrev FlatResult : CmdLine × Bytes → Type 0
FlatResult r = FlatCmds r.0.commands

parse_line-FlatResult :
    (usable : ℕ) (input : Bytes)
    → Each (IsNot b'"') input
    → IfSome FlatResult (parse_line usable input)
unfolding parse_line
parse_line-FlatResult usable input q =
    bind_IfSome (scan Mode.outside input (first_line usable))
      (scan-FlatLine Mode.outside input (first_line usable) tt q
        (record { flat_tokens = tt; flat_token = tt }))
      (λ r f. bind_IfSome (last_token r.0) (last_token-FlatTokens r.0 f) (λ ts t.
        bind_IfSome (split_commands r.0.cmd_count ts [] [])
          (split-FlatCmds r.0.cmd_count ts [] [] t tt tt) (λ cmds c. present c)))

c_string-flat : (t : Bytes) → IsFlatToken t → IsFlatToken (c_string t)
c_string-flat [] h = h
c_string-flat (c ∷ t) h = at_zero (c == 0) (c_string-flat t h.1)
  where
    at_zero : (z : Bool) → IsFlatToken (c_string t) → IsFlatToken (if z then [] else c ∷ c_string t)
    at_zero true k = tt
    at_zero false k = (h.0, k)

flat-not_exit : (t : Bytes) → IsFlatToken t → is_exit t ≡ false
unfolding is_exit
flat-not_exit t h = elim (Bool-cases (bytes_eq (c_string t) (codes "exit" ++ 10 ∷ []))) [
  | inl e ↦
      let k =
        subst IsFlatToken ((bytes_eq_iff (c_string t) (codes "exit" ++ 10 ∷ [])).0 e)
          (c_string-flat t h) in
      absurd (k.1.1.1.1.0 refl)
  | inr e ↦ e
]

abbrev NotLeave : Action → Type 0
NotLeave a = a ≢ leave

main_round-NotLeave :
    (cs : List Cmd) (n : ℕ)
    → FlatCmds cs
    → IfSome NotLeave (main_round (record { count = n; commands = cs }))
unfolding main_round
main_round-NotLeave [] n h = absent
main_round-NotLeave (c ∷ cs) n h = bind_IfSome (name_of c) (named c.argv h.0) (λ name f.
    either_IfSome (is_exit name) (λ z. absurd (ground (arith, z, flat-not_exit name f)))
      (λ _.
        either_IfSome (n == 1) (λ _. present (λ e. cc))
          (λ _. either_IfSome (length (c ∷ cs) == n) (λ _. present (λ e. cc)) (λ _. absent))))
  where
    named :
        (argv : List Bytes)
        → Each IsFlatToken argv
        → IfSome IsFlatToken (elim argv as (λ x. Option Bytes) [ [] ↦ none | x ∷ _ ↦ some x ])
    named [] k = absent
    named (x ∷ argv) k = present k.0

-- No line without double quotes makes the shell leave its loop: `exit` does not, since the end of
-- the line is not a part of any word.
pub parse_line-not_leave :
    (usable : ℕ) (input rest : Bytes) (l : CmdLine)
    → Each (IsNot b'"') input
    → parse_line usable input ≡ some (l, rest)
    → main_round l ≢ some leave
parse_line-not_leave usable input rest l q e = λ stays.
    if_some leave
      (subst (IfSome NotLeave) stays (
        main_round-NotLeave l.commands l.count
          (if_some (l, rest) (subst (IfSome FlatResult) e (parse_line-FlatResult usable input q)))))
      refl
