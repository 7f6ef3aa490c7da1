-- ===== src/Shell/Tests.antt =====
-- Lines given to the shell, and the theorems on it applied there.
use bd_tarantul.Common.{
  ◌≡◌, refl, Option, none, some, List, [], ◌∷◌, ◌++◌, arith, Bytes, bytes_eq, codes, ◌>>=◌,
}
use bd_tarantul.Shell.Scan.{
  Mode, put, end_token, outside_char, escaped_char, double_char, single_char, next_char, scan,
}
use bd_tarantul.Shell.Scan.Room
use bd_tarantul.Shell.Scan.Room.{Gives, LeavesRoom}
use bd_tarantul.Shell.Build.{CmdLine, is_bar, split_commands, first_line, parse_line}
use bd_tarantul.Shell.RoundTrip
use bd_tarantul.Shell.RoundTrip.{tokens_of, print_tokens, cmd_of}
use bd_tarantul.Shell.Main.{leave, is_exit, main_round, pipe_round, pipe_rounds, at_start}
use bd_tarantul.Shell.Main.Wiring
use bd_tarantul.Shell.Main.Wiring.{own_pipes}

program : Unit {0}
unfolding bytes_eq put end_token outside_char escaped_char double_char single_char next_char scan
    is_bar split_commands parse_line is_exit main_round pipe_round pipe_rounds
program = tt

abbrev line : Bytes → Bytes
line s = s ++ 10 ∷ []

abbrev commands_of : Bytes → Option CmdLine
commands_of input = parse_line 3 input >>= λ r. some r.0

-- A bar that is not between spaces is counted as one, and is a character of its word.
bar_in_word :
    commands_of (line (codes "ls|wc"))
    ≡ some (record { count = 2; commands = cmd_of (codes "ls|wc" ∷ []) ∷ [] })
unfolding program
bar_in_word = refl

-- A bar within quotes makes a command more than were counted: beyond the array.
quoted_bar : parse_line 3 (line (codes "echo \"|\"")) ≡ none
unfolding program
quoted_bar = refl

-- The space after a quoted word ends a token of its own, with no characters.
after_quotes :
    commands_of (line (codes "echo \"a\" b"))
    ≡ some (record {
      count = 1;
      commands = cmd_of (codes "echo" ∷ codes "a" ∷ [] ∷ codes "b" ∷ []) ∷ [];
    })
unfolding program
after_quotes = refl

-- The allocator need not give `malloc(0)` any room, and then the first token has no place.
no_place : parse_line 0 (line (codes "ls")) ≡ none
unfolding program
no_place = refl

-- A backslash is kept, and the character after it is not.
backslash :
    commands_of (line (codes "a\\ b"))
    ≡ some (record { count = 1; commands = cmd_of (codes "a\\b" ∷ []) ∷ [] })
unfolding program
backslash = refl

-- The name of the command of an empty line is null.
empty_line : (parse_line 3 (line []) >>= λ r. main_round r.0) ≡ none
unfolding program
empty_line = refl

-- `exit` within double quotes that hold the end of the line.
quoted_exit :
    (parse_line 3 (line (codes "\"exit" ++ 10 ∷ codes "\"")) >>= λ r. main_round r.0) ≡ some leave
unfolding program
quoted_exit = refl

abbrev ls : List Bytes
ls = codes "ls" ∷ codes "-l" ∷ []

abbrev wc : List Bytes
wc = codes "wc" ∷ []

parse_line-print_example :
    parse_line 3 (print_tokens (tokens_of ls (wc ∷ [])) ++ 10 ∷ codes "ps")
    ≡ some (record { count = 2; commands = cmd_of ls ∷ cmd_of wc ∷ [] }, codes "ps")
parse_line-print_example =
    RoundTrip.parse_line-print 3 ls (wc ∷ []) (codes "ps") (omega arith) (omega arith)

scan-LeavesRoom_example : Gives LeavesRoom (scan Mode.outside (codes "echo \"a") (first_line 3))
scan-LeavesRoom_example =
    Room.scan-LeavesRoom Mode.outside (codes "echo \"a") (first_line 3) (omega arith, omega arith)

pipe_rounds-own_example : pipe_rounds 3 0 0 at_start ≡ own_pipes 3 0
pipe_rounds-own_example = Wiring.pipe_rounds-own 3 0
