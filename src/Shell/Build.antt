-- ===== src/Shell/Build.antt =====
-- sysprog/2/parser.cpp, `parse_line`: the commands that the tokens of a line make.
use bd_tarantul.Common.{
  ℕ, Bool, Option, none, some, List, [], ◌∷◌, ◌++◌, Bytes, bytes_eq, codes, length, ltb, ◌==◌,
  if◌then◌else◌, ◌>>=◌,
}
use bd_tarantul.Shell.Scan.{Line, Mode, write_token, scan}

-- `struct cmd`: its name is the first argument, NULL where there is none.
pub record Cmd : Type 0 where
  pub argc : ℕ
  pub argv : List Bytes

abbrev pub name_of : Cmd → Option Bytes
name_of c = elim c.argv [ [] ↦ none | x ∷ _ ↦ some x ]

-- `struct cmd_line`, with the commands that are written of its `count`.
pub record CmdLine : Type 0 where
  pub count : ℕ
  pub commands : List Cmd

-- A token is a string of C, which its first zero byte ends.
abbrev pub c_string : Bytes → Bytes
c_string [] = []
c_string (c ∷ cs) = if c == 0 then [] else c ∷ c_string cs

unfoldable pub is_bar : Bytes → Bool
unfolding bytes_eq
is_bar t = bytes_eq (c_string t) (codes "|")

-- `cmds[cmd_num] = ...`: beyond the `cmd_count` commands it is undefined.
abbrev pub add_cmd : ℕ → List Bytes → List Cmd → Option (List Cmd)
add_cmd cmd_count argv cmds =
    if ltb (length cmds) cmd_count
    then some (cmds ++ record { argc = length argv; argv = argv } ∷ [])
    else none

-- The loop over the tokens: `argv` are those since the last "|".
unfoldable pub split_commands : ℕ → List Bytes → List Bytes → List Cmd → Option (List Cmd)
unfolding is_bar
split_commands cmd_count [] argv cmds = add_cmd cmd_count argv cmds
split_commands cmd_count (t ∷ ts) argv cmds =
    if is_bar t
    then (add_cmd cmd_count argv cmds >>= split_commands cmd_count ts [])
    else split_commands cmd_count ts (argv ++ t ∷ []) cmds

-- `if (j > 0) {...}`: the last token.
abbrev pub last_token : Line → Option (List Bytes)
last_token l = elim l.token [
  | [] ↦ some l.tokens
  | _ ∷ _ ↦ write_token l (l.tokens ++ l.token ∷ [])
]

-- The array of the tokens is `malloc(0)`, a block with room for `usable` pointers: that is up to the
-- allocator, which promises none.
abbrev pub first_line : (usable : ℕ) → Line
first_line usable = record {
  tokens = [];
  slots = usable;
  token = [];
  max_len = 3;
  cmd_count = 1;
  prev = 0;
}

-- `parse_line`: the commands, and the input that follows the line.
unfoldable pub parse_line : (usable : ℕ) → Bytes → Option (CmdLine × Bytes)
unfolding scan split_commands
parse_line usable input = scan Mode.outside input (first_line usable) >>= λ r.
    last_token r.0 >>= λ tokens. split_commands r.0.cmd_count tokens [] [] >>= λ cmds.
    some (record { count = r.0.cmd_count; commands = cmds }, r.1)
