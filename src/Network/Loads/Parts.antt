-- ===== src/Network/Loads/Parts.antt =====
-- The three parts of a round of mt_blocking against those of st_blocking.
use bd_tarantul.Common.{
  ℕ, ◌+◌, ◌≡◌, refl, ap, Bool, true, false, Option, none, some, [], ◌++◌, append-nil, Bytes, drop,
  ltb, ◌==◌, if◌then◌else◌, arith, Option-cases,
}
use bd_tarantul.Protocol.Command.{Command}
use bd_tarantul.Protocol.Parser.{Parser, Result, ok, throw, undefined, parse, build, reset}
use bd_tarantul.Storage.Interface.{Storage}
use bd_tarantul.Execute.{execute}
use bd_tarantul.Network.Session.{
  Session, Served, done, failed, fault, ◌>>=◌, built, built_of, built_if, parsed, parse_part,
  fill_part, perform, run_part,
}
use bd_tarantul.Network.Loads.{thread_build, thread_parse, thread_fill, thread_execute, thread_run}

module _ {S : Type 0} where
  thread_build-is : (s : Session S) → thread_build s ≡ built s
  unfolding thread_build built
  thread_build-is s = by_result (build s.parser)
    where
      by_result :
          (r : Result (Option (Command × ℕ)))
          → (elim r as (λ r. Served S (Session S)) [
            | ok none ↦ done (record s {
              command = none;
              arg_remains = if ltb 0 s.arg_remains then s.arg_remains + 2 else s.arg_remains;
            })
            | ok (some (c, n)) ↦
                done (record s { command = some c; arg_remains = if ltb 0 n then n + 2 else n })
            | throw e ↦ failed s.store s.out
            | undefined ↦ fault
          ])
            ≡ built_of r s
      by_result (ok none) = refl
      by_result (ok (some (c, n))) = refl
      by_result (throw e) = refl
      by_result undefined = refl

  pub thread_parse-is : (input : Bytes) (s : Session S) → thread_parse input s ≡ parse_part input s
  unfolding thread_parse parse_part
  thread_parse-is input s = by_command s.command
    where
      found :
          (p : Parser) (b : Bool)
          → (if b then thread_build (record s { parser = p }) else done (record s { parser = p }))
            ≡ built_if b (record s { parser = p })
      found p true = thread_build-is (record s { parser = p })
      found p false = refl

      by_result :
          (r : Result (Parser × ℕ))
          → (elim r as (λ r. Served S (Session S × Bytes × Bool)) [
            | ok (p, n) ↦
                let next = record s { parser = p } in
                let found = if p.parse_complete then thread_build next else done next in
                found >>= λ s'. done (s', drop n input, n == 0)
            | throw e ↦ failed s.store s.out
            | undefined ↦ fault
          ])
            ≡ parsed input r s
      by_result (ok (p, n)) =
          ap (λ m. m >>= λ s'. done (s', drop n input, n == 0)) (found p p.parse_complete)
      by_result (throw e) = refl
      by_result undefined = refl

      by_command :
          (o : Option Command)
          → (elim o as (λ o. Served S (Session S × Bytes × Bool)) [
            | some c ↦ done (s, input, false)
            | none ↦ elim (parse input s.parser) as (λ r. Served S (Session S × Bytes × Bool)) [
              | ok (p, n) ↦
                  let next = record s { parser = p } in
                  let found = if p.parse_complete then thread_build next else done next in
                  found >>= λ s'. done (s', drop n input, n == 0)
              | throw e ↦ failed s.store s.out
              | undefined ↦ fault
            ]
          ])
            ≡ (elim o as (λ o. Served S (Session S × Bytes × Bool)) [
              | some _ ↦ done (s, input, false)
              | none ↦ parsed input (parse input s.parser) s
            ])
      by_command (some c) = refl
      by_command none = by_result (parse input s.parser)

  pub thread_fill-is : (input : Bytes) (s : Session S) → thread_fill input s ≡ fill_part input s
  unfolding thread_fill fill_part
  thread_fill-is input s = ground (arith, Option-cases s.command)

module _ (storage : Storage) (send : Bytes → Bytes → Bool) where
  open storage use {State}

  -- The answers of st_blocking with no line end.
  thread_execute-is :
      (c : Command) (s : Session State)
      → thread_execute storage send c s ≡ perform storage [] send c s
  unfolding thread_execute perform
  thread_execute-is c s = by_result (execute storage c s.argument s.store)
    where
      by_result :
          (o : Option (State × Bytes))
          → (elim o as (λ o. Served State (Session State)) [
            | none ↦ fault
            | some (store, result) ↦
                if send s.out result
                then done (record s {
                  store = store;
                  out = s.out ++ result;
                  command = none;
                  argument = [];
                  parser = reset s.parser;
                })
                else failed store s.out
          ])
            ≡ (elim o as (λ o. Served State (Session State)) [
              | none ↦ fault
              | some (store, result) ↦
                  if send s.out (result ++ [])
                  then done (record s {
                    store = store;
                    out = s.out ++ (result ++ []);
                    command = none;
                    argument = [];
                    parser = reset s.parser;
                  })
                  else failed store s.out
            ])
      by_result none = refl
      by_result (some (store, result)) = rw (append-nil result)

  pub thread_run-is : (s : Session State) → thread_run storage send s ≡ run_part storage [] send s
  unfolding thread_run run_part
  thread_run-is s = by_command s.command
    where
      by_command :
          (o : Option Command)
          → (elim o as (λ o. Served State (Session State)) [
            | none ↦ done s
            | some c ↦ if s.arg_remains == 0 then thread_execute storage send c s else done s
          ])
            ≡ (elim o as (λ o. Served State (Session State)) [
              | none ↦ done s
              | some c ↦ if s.arg_remains == 0 then perform storage [] send c s else done s
            ])
      by_command none = refl
      by_command (some c) =
          ap (λ m. if s.arg_remains == 0 then m else done s) (thread_execute-is c s)
