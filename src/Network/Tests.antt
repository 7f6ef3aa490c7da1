-- ===== src/Network/Tests.antt =====
-- A connection served at inputs, and the theorems on its processing applied there.
use bd_tarantul.Common.{
  ◌≡◌, refl, false, Option, none, some, List, [], ◌∷◌, ◌++◌, arith, Bytes, codes, pos,
}
use bd_tarantul.Protocol.Command.{set_command}
use bd_tarantul.Protocol.Parser.{reset}
use bd_tarantul.Protocol.Parser.Chunks.{concat}
use bd_tarantul.Protocol.Parser.Lines.{Verb, StoreLine, IsStoreLine, print, after_line}
use bd_tarantul.Storage.Implementation.{simple_lru}
use bd_tarantul.Storage.Lru.{Lru}
use bd_tarantul.Network.Session.{Session, done, serve}
use bd_tarantul.Network.Session.Refines.{session}
use bd_tarantul.Network.Session.Reads
use bd_tarantul.Network.Session.Commands
use bd_tarantul.Network.Connection.{crlf, buffer}
use bd_tarantul.Network.Loads.{thread_serve}
use bd_tarantul.Network.Loads.Running
use bd_tarantul.Network.Inputs.{program, fresh, empty, line, at_first, get_line}

-- What a connection has sent after its bytes.
abbrev sent_of : List Bytes → Option Bytes
sent_of inputs = elim (serve simple_lru crlf buffer inputs at_first) [
  | done s ↦ some s.out
  | _ ↦ none
]

-- `set` keeps the line end of its body, and `get` answers with it.
set_and_get :
    sent_of ((line (codes "set a 0 0 2") ++ line (codes "11")) ∷ get_line ∷ [])
    ≡ some (
        line (codes "STORED")
        ++ line (codes "VALUE a 0 4")
        ++ line (line (codes "11"))
        ++ line (codes "END"))
unfolding program
set_and_get = refl

serve-concat_example :
    serve simple_lru crlf buffer (codes "ge" ∷ (line (codes "t a") ++ codes "se") ∷ []) at_first
    ≡ serve simple_lru crlf buffer
        (concat (codes "ge" ∷ (line (codes "t a") ++ codes "se") ∷ []) ∷ [])
        at_first
serve-concat_example =
    Reads.serve-concat simple_lru crlf buffer (codes "ge" ∷ (line (codes "t a") ++ codes "se") ∷ [])
      at_first refl

abbrev store_line : StoreLine
store_line = record {
  verb = Verb.set;
  key = codes "a";
  flags = codes "0";
  negative = false;
  first_digit = b'0';
  digits = [];
  bytes = codes "2";
}

store_line-IsStoreLine : IsStoreLine store_line
unfolding program
store_line-IsStoreLine = record {
  key_word = omega arith;
  flags_digits = omega arith;
  flags_fit = omega arith;
  expr_digits = omega arith;
  expr_fits = omega arith;
  bytes_digits = omega arith;
  bytes_fit = omega arith;
}

abbrev stored : Lru
stored = record {
  max_size = 10;
  current_size = 5;
  nodes = record { key = codes "a"; value = line (codes "11") } ∷ [];
  index = codes "a" ∷ [];
}

store_line-executes_example :
    serve simple_lru crlf buffer
      (print store_line (codes "11" ++ 13 ∷ 10 ∷ get_line) ∷ [])
      (session (reset fresh) none 0 [] empty [])
    ≡ serve simple_lru crlf buffer (get_line ∷ []) (
        session
          (reset (after_line store_line (reset fresh)))
          none
          0
          []
          stored
          ([] ++ (codes "STORED" ++ crlf)))
unfolding program
store_line-executes_example =
    Commands.store_line-executes simple_lru crlf buffer store_line store_line-IsStoreLine fresh
      (set_command (codes "a") 0 (pos 0)) 0 (codes "11") get_line empty [] refl (omega arith) stored
      (codes "STORED") refl refl

-- Twenty loads of `running` are enough for a thread with one line, which takes three of them.
abbrev thread_answered : Session Lru
thread_answered = session (reset fresh) none 0 [] empty (codes "END")

thread_ran : thread_serve simple_lru buffer 20 (get_line ∷ []) at_first ≡ done (thread_answered, 16)
unfolding program
thread_ran = refl

thread_serve-serve_example :
    serve simple_lru [] buffer (get_line ∷ []) at_first ≡ done thread_answered
thread_serve-serve_example =
    Running.thread_serve-serve simple_lru buffer (get_line ∷ []) 20 at_first thread_answered 15 refl
      thread_ran
