-- ===== src/Network/Loads.antt =====
-- sysprog/afina/src/network/mt_blocking/ServerImpl.cpp, `_connection_processing`: a thread serves a
-- connection until `running` is reset.
pub mod Parts
pub mod Running
use bd_tarantul.Common.{
  ℕ, zero, suc, ◌+◌, ◌-◌, Bool, true, false, not, Option, none, some, List, [], ◌∷◌, Bytes, length,
  leb, ltb, min, take, drop, ◌++◌, ◌==◌, if◌then◌else◌,
}
use bd_tarantul.Storage.Interface.{Storage}
use bd_tarantul.Protocol.Command.{Command}
use bd_tarantul.Protocol.Parser.{Result, ok, throw, undefined, parse, build, reset}
use bd_tarantul.Execute.{execute}
use bd_tarantul.Network.Session.{Session, Served, done, failed, fault, ◌>>=◌}

module _ {S : Type 0} where
  -- `parser.Build(arg_remains)`, which leaves `arg_remains` alone where it makes no command.
  unfoldable pub thread_build : Session S → Served S (Session S)
  thread_build s = elim (build s.parser) [
    | ok none ↦ done (record s {
      command = none;
      arg_remains = if ltb 0 s.arg_remains then s.arg_remains + 2 else s.arg_remains;
    })
    | ok (some (c, n)) ↦
        done (record s { command = some c; arg_remains = if ltb 0 n then n + 2 else n })
    | throw e ↦ failed s.store s.out
    | undefined ↦ fault
  ]

  -- `if (!command_to_execute) {...}`: the rest of the input, and whether the loop breaks.
  unfoldable pub thread_parse : Bytes → Session S → Served S (Session S × Bytes × Bool)
  unfolding thread_build
  thread_parse input s = elim s.command [
    | some c ↦ done (s, input, false)
    | none ↦ elim (parse input s.parser) [
      | ok (p, n) ↦
          let next = record s { parser = p } in
          let found = if p.parse_complete then thread_build next else done next in
          found >>= λ s'. done (s', drop n input, n == 0)
      | throw e ↦ failed s.store s.out
      | undefined ↦ fault
    ]
  ]

  -- `if (command_to_execute && arg_remains > 0) {...}`
  unfoldable pub thread_fill : Bytes → Session S → Session S × Bytes
  thread_fill input s = elim s.command [
    | none ↦ (s, input)
    | some c ↦
        let to_read = min s.arg_remains (length input) in
        if ltb 0 s.arg_remains
        then (
          record s {
            argument = s.argument ++ take to_read input;
            arg_remains = s.arg_remains - to_read;
          },
          drop to_read input,
        )
        else (s, input)
  ]

module _ (storage : Storage) (send : Bytes → Bytes → Bool) where
  open storage use {State}

  -- `Execute` and `send` of the result as it is, and the three resets.
  unfoldable pub thread_execute : Command → Session State → Served State (Session State)
  unfolding execute
  thread_execute c s = elim (execute storage c s.argument s.store) [
    | none ↦ fault
    | some (store, result) ↦
        if send s.out result
        then done (record s {
          store = store;
          out = s.out ++ result;
          command = none;
          argument = [];
          parser = reset s.parser;
        })
        else failed store s.out
  ]

  -- `if (command_to_execute && arg_remains == 0) {...}`
  unfoldable pub thread_run : Session State → Served State (Session State)
  unfolding thread_execute
  thread_run s = elim s.command [
    | none ↦ done s
    | some c ↦ if s.arg_remains == 0 then thread_execute c s else done s
  ]

  -- `while (running.load() && readed_bytes > 0) {...}`, where `loads` more loads of `running` find it
  -- set; the answers have no line end. What is left of the loads is a result.
  unfoldable pub thread_process : ℕ → Bytes → Session State → Served State (Session State × ℕ)
  unfolding thread_parse thread_fill thread_run
  thread_process zero input s = done (s, 0)
  thread_process (suc loads) [] s = done (s, loads)
  thread_process (suc loads) (b ∷ bs) s = thread_parse (b ∷ bs) s >>= λ r. elim r.2 [
    | true ↦ done (r.0, loads)
    | false ↦
        let filled = thread_fill r.1 r.0 in thread_run filled.0 >>= thread_process loads filled.1
  ]

  -- `while (running.load() && (readed_bytes = read(...)) > 0) {...}` over what the reads return.
  unfoldable pub thread_serve : ℕ → List Bytes → Session State → Served State (Session State × ℕ)
  unfolding thread_process
  thread_serve zero inputs s = done (s, 0)
  thread_serve (suc loads) [] s = done (s, loads)
  thread_serve (suc loads) (input ∷ inputs) s =
      thread_process loads input s >>= λ r. thread_serve r.1 inputs r.0
