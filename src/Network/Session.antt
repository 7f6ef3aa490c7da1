-- ===== src/Network/Session.antt =====
-- sysprog/afina/src/network/st_blocking/ServerImpl.cpp: the processing of a connection, which parses
-- the bytes that arrive, executes the commands and sends the answers. The other servers do the same
-- with another end of the answers (mt_blocking) or with a buffer in place of `send`
-- (st_nonblocking, mt_nonblocking).
pub mod Bytewise
pub mod Refines
pub mod Rounds
pub mod Split
pub mod Reads
pub mod Commands
use bd_tarantul.Common.{
  ℕ, zero, suc, ◌+◌, ◌-◌, min, Bool, true, false, ◌&&◌, Option, none, some, is_some, List, [], ◌∷◌,
  ◌++◌, Bytes, length, take, drop, ltb, ◌==◌, if◌then◌else◌,
}
use bd_tarantul.Protocol.Command.{Command}
use bd_tarantul.Protocol.Parser.{Parser, Result, ok, throw, undefined, parse, build, reset}
use bd_tarantul.Storage.Interface.{Storage}
use bd_tarantul.Execute.{execute}

-- The state of a connection, with the storage that it works on and the bytes it has sent.
pub record Session (S : Type 0) : Type 0 where
  pub parser : Parser
  pub command : Option Command  -- command_to_execute
  pub arg_remains : ℕ
  pub argument : Bytes  -- argument_for_command
  pub store : S
  pub out : Bytes

-- `failed` is an exception: the connection is closed, with what was stored and sent so far.
pub data Served (S : Type 0) (A : Type 0) : Type 0 where
  done : A → Served S A
  failed : S → Bytes → Served S A
  fault : Served S A

infixl 5 ◌>>=◌
abbrev pub ◌>>=◌ : {S A B : Type 0} → Served S A → (A → Served S B) → Served S B
done a >>= f = f a
failed s out >>= f = failed s out
fault >>= f = fault

-- `if (arg_remains > 0) { arg_remains += 2; }`
abbrev pub with_line_end : ℕ → ℕ
with_line_end n = if ltb 0 n then n + 2 else n

module _ {S : Type 0} where
  -- `command_to_execute = parser.Build(arg_remains)`, and the line end of the argument.
  abbrev pub got_command : Option (Command × ℕ) → Session S → Session S
  got_command none s = record s { command = none; arg_remains = with_line_end s.arg_remains }
  got_command (some (c, n)) s = record s { command = some c; arg_remains = with_line_end n }

  abbrev pub built_of : Result (Option (Command × ℕ)) → Session S → Served S (Session S)
  built_of (ok o) s = done (got_command o s)
  built_of (throw e) s = failed s.store s.out
  built_of undefined s = fault

  unfoldable pub built : Session S → Served S (Session S)
  built s = built_of (build s.parser) s

  abbrev pub built_if : Bool → Session S → Served S (Session S)
  built_if true s = built s
  built_if false s = done s

  -- What follows `Parse`.
  abbrev pub parsed : Bytes → Result (Parser × ℕ) → Session S → Served S (Session S × Bytes × Bool)
  parsed input (ok (p, n)) s =
      built_if p.parse_complete (record s { parser = p }) >>= λ s'. done (s', drop n input, n == 0)
  parsed input (throw e) s = failed s.store s.out
  parsed input undefined s = fault

  -- `if (!command_to_execute) {...}`: the rest of the input, and whether nothing was consumed.
  unfoldable pub parse_part : Bytes → Session S → Served S (Session S × Bytes × Bool)
  unfolding built
  parse_part input s = elim s.command [
    | some _ ↦ done (s, input, false)
    | none ↦ parsed input (parse input s.parser) s
  ]

  -- `if (command_to_execute && arg_remains > 0) {...}`
  unfoldable pub fill_part : Bytes → Session S → Session S × Bytes
  fill_part input s =
      if is_some s.command && ltb 0 s.arg_remains
      then (let to_read = min s.arg_remains (length input) in
          (
            record s {
              argument = s.argument ++ take to_read input;
              arg_remains = s.arg_remains - to_read;
            },
            drop to_read input,
          ))
      else (s, input)

-- `ending` is what follows an answer, `send` whether the socket takes an answer after what it has
-- sent.
module _ (storage : Storage) (ending : Bytes) (send : Bytes → Bytes → Bool) where
  open storage use {State}

  -- `Execute`, the answer, and the preparation for the next command.
  unfoldable pub perform : Command → Session State → Served State (Session State)
  unfolding execute
  perform c s = elim (execute storage c s.argument s.store) [
    | none ↦ fault
    | some (store, result) ↦
        if send s.out (result ++ ending)
        then done (record s {
          store = store;
          out = s.out ++ (result ++ ending);
          command = none;
          argument = [];
          parser = reset s.parser;
        })
        else failed store s.out
  ]

  -- `if (command_to_execute && arg_remains == 0) {...}`
  unfoldable pub run_part : Session State → Served State (Session State)
  unfolding perform
  run_part s = elim s.command [
    | none ↦ done s
    | some c ↦ if s.arg_remains == 0 then perform c s else done s
  ]

  -- `while (readed_bytes > 0) {...}`, with the length of the input as fuel.
  unfoldable pub process_from : ℕ → Bytes → Session State → Served State (Session State)
  unfolding parse_part fill_part run_part
  process_from zero input s = done s
  process_from (suc fuel) [] s = done s
  process_from (suc fuel) (b ∷ bs) s = parse_part (b ∷ bs) s >>= λ r. elim r.2 [
    | true ↦ done r.0
    | false ↦ let filled = fill_part r.1 r.0 in run_part filled.0 >>= process_from fuel filled.1
  ]

  unfoldable pub process : Bytes → Session State → Served State (Session State)
  unfolding process_from
  process input s = process_from (length input) input s

  -- `while ((readed_bytes = read(...)) > 0) {...}` over what each read returns.
  unfoldable pub serve : List Bytes → Session State → Served State (Session State)
  unfolding process
  serve [] s = done s
  serve (input ∷ inputs) s = process input s >>= serve inputs

-- The state at the start of a connection.
abbrev pub connected : {S : Type 0} → Parser → S → Session S
connected p store = record {
  parser = p;
  command = none;
  arg_remains = 0;
  argument = [];
  store = store;
  out = [];
}
