-- ===== src/Shell/Main.antt =====
-- sysprog/2/main.cpp: what the shell does with a line, and the pipes between its commands.
pub mod Exit
pub mod Wiring
use bd_tarantul.Common.{
  ℕ, zero, suc, ◌+◌, Bool, true, false, Option, none, some, List, [], ◌∷◌, ◌++◌, Bytes, bytes_eq,
  codes, length, ◌==◌, if◌then◌else◌, ◌>>=◌,
}
use bd_tarantul.Shell.Build.{Cmd, CmdLine, name_of, c_string}

-- What a round of the main loop does: leave the loop, start one command, or start a pipeline.
pub data Action : Type 0 where
  leave : Action
  alone : Cmd → Action
  pipeline : List Cmd → Action

-- `strcmp(name, "exit\n") == 0`
unfoldable pub is_exit : Bytes → Bool
unfolding bytes_eq
is_exit name = bytes_eq (c_string name) (codes "exit" ++ 10 ∷ [])

-- A round of the main loop on a line. A line with no word has a null name, which `strcmp` reads; a
-- pipeline reads `count` commands, also those that were not written.
unfoldable pub main_round : CmdLine → Option Action
unfolding is_exit
main_round l = elim l.commands [
  | [] ↦ none
  | c ∷ cs ↦ name_of c >>= λ name.
      if is_exit name
      then some leave
      else if l.count == 1
      then some (alone c)
      else if length (c ∷ cs) == l.count
      then some (pipeline (c ∷ cs))
      else none
]

-- An end of the pipe that round `i` of the loop over the commands makes.
pub data End : Type 0 where
  console : End
  reads writes : ℕ → End

-- The table of descriptors of a process; one that is `none`, or beyond the list, is closed.
abbrev pub Fds : Type 0
Fds = List (Option End)

abbrev pub open_lowest : End → Fds → ℕ × Fds
open_lowest e [] = (0, some e ∷ [])
open_lowest e (none ∷ t) = (0, some e ∷ t)
open_lowest e (some x ∷ t) = let r = open_lowest e t in (r.0 + 1, some x ∷ r.1)

abbrev pub end_at : ℕ → Fds → Option End
end_at fd [] = none
end_at zero (x ∷ t) = x
end_at (suc fd) (x ∷ t) = end_at fd t

abbrev pub set_end : ℕ → Option End → Fds → Fds
set_end zero x [] = x ∷ []
set_end zero x (y ∷ t) = x ∷ t
set_end (suc fd) x [] = none ∷ set_end fd x []
set_end (suc fd) x (y ∷ t) = y ∷ set_end fd x t

-- `dup2`, which fails where `from` is closed.
abbrev pub dup2 : ℕ → ℕ → Fds → Fds
dup2 from to t = elim (end_at from t) [ none ↦ t | some e ↦ set_end to (some e) t ]

abbrev pub close : ℕ → Fds → Fds
close fd t = set_end fd none t

-- `pipefd[0]`, `pipefd[1]`, and the table with them, where `pipe` makes a pair.
abbrev pub make_pipe : ℕ → Fds → ℕ × ℕ × Fds
make_pipe i t =
    let r = open_lowest (reads i) t in let w = open_lowest (writes i) r.1 in (r.0, w.0, w.1)

-- The standard input and output of the child that is forked with the pipe.
abbrev pub child : ℕ → ℕ → Fds → Option End × Option End
child pipe0 pipe1 t =
    let t' = close pipe1 (dup2 pipe1 1 (close pipe0 (dup2 pipe0 0 t))) in (end_at 0 t', end_at 1 t')

-- A round of the loop in the parent, `in_fd` the descriptor that the round before left: the pipe
-- and the child's ends, the new `in_fd` and the table.
unfoldable pub pipe_round : ℕ → ℕ → Fds → (Option End × Option End) × ℕ × Fds
pipe_round i in_fd t =
    let p = make_pipe i t in
    let t' : Fds = if i == 0 then p.2 else dup2 in_fd p.0 p.2 in
    (child p.0 p.1 t', p.1, close p.1 t')

-- `for (int i = 0; i < cmds.count; i++) {...}` from round `i`, with `n` rounds to come.
unfoldable pub pipe_rounds : ℕ → ℕ → ℕ → Fds → List (Option End × Option End)
unfolding pipe_round
pipe_rounds zero i in_fd t = []
pipe_rounds (suc n) i in_fd t = let r = pipe_round i in_fd t in r.0 ∷ pipe_rounds n (i + 1) r.1 r.2

abbrev pub at_start : Fds
at_start = some console ∷ some console ∷ some console ∷ []
