-- ===== src/Network/Connection/Prefix.antt =====
-- The answers that a connection has in its buffer do not matter for those that follow.
use bd_tarantul.Common.{
  ℕ, ◌-◌, ◌≡◌, refl, sym, ap, ◌∙◌, Bool, true, false, Option, none, some, List, [], ◌∷◌, ◌++◌,
  append_assoc, Bytes, ◌==◌, if◌then◌else◌,
}
use bd_tarantul.Protocol.Command.{Command}
use bd_tarantul.Protocol.Parser.{Parser, Result, ok, throw, undefined, dispatch, build, reset}
use bd_tarantul.Storage.Interface.{Storage}
use bd_tarantul.Execute.{execute}
use bd_tarantul.Network.Session.{
  Session, Served, done, failed, fault, ◌>>=◌, built_of, built, built_if, run_part, perform, serve,
}
use bd_tarantul.Network.Session.Bytewise.{after_byte, take_byte, take_bytes, IsBetween}
use bd_tarantul.Network.Session.Refines.{session}
use bd_tarantul.Network.Session.Reads.{serve-bytes}
use bd_tarantul.Protocol.Parser.Chunks.{concat}
use bd_tarantul.Network.Connection.{buffer}

module _ {S : Type 0} (before : Bytes) where
  -- The session with `before` in its buffer already.
  abbrev pub prefix : Session S → Session S
  prefix s = record s { out = before ++ s.out }

  abbrev pub prefixed : Served S (Session S) → Served S (Session S)
  prefixed (done s) = done (prefix s)
  prefixed (failed store out) = failed store (before ++ out)
  prefixed fault = fault

  prefixed-bind :
      (m : Served S (Session S)) (f : Session S → Served S (Session S))
      → ((s : Session S) → f (prefix s) ≡ prefixed (f s))
      → (prefixed m >>= f) ≡ prefixed (m >>= f)
  prefixed-bind (done s) f h = h s
  prefixed-bind (failed store out) f h = refl
  prefixed-bind fault f h = refl

module _ (storage : Storage) (ending before : Bytes) where
  open storage use {State as Store}

  abbrev run : Session Store → Served Store (Session Store)
  run s = run_part storage ending buffer s

  perform-prefix :
      (c : Command) (s : Session Store)
      → perform storage ending buffer c (prefix before s)
        ≡ prefixed before (perform storage ending buffer c s)
  unfolding perform
  perform-prefix c s = answered (execute storage c s.argument s.store)
    where
      answered :
          (o : Option (Store × Bytes))
          → (elim o as (λ x. Served Store (Session Store)) [
            | none ↦ fault
            | some (store, result) ↦ done (
                session
                  (reset s.parser)
                  none
                  s.arg_remains
                  []
                  store
                  (before ++ s.out ++ (result ++ ending)))
          ])
            ≡ prefixed before (elim o as (λ x. Served Store (Session Store)) [
              | none ↦ fault
              | some (store, result) ↦ done (
                  session
                    (reset s.parser)
                    none
                    s.arg_remains
                    []
                    store
                    (s.out ++ (result ++ ending)))
            ])
      answered none = refl
      answered (some (store, result)) =
          ap (λ out. done (session (reset s.parser) none s.arg_remains [] store out))
            (append_assoc before s.out (result ++ ending))

  run-prefix : (s : Session Store) → run (prefix before s) ≡ prefixed before (run s)
  unfolding run_part
  run-prefix s = by_command s.command
    where
      full :
          (c : Command) (z : Bool)
          → (if z
              then perform storage ending buffer c (prefix before s)
              else done (prefix before s))
            ≡ prefixed before (if z then perform storage ending buffer c s else done s)
      full c true = perform-prefix c s
      full c false = refl

      by_command :
          (o : Option Command)
          → (elim o as (λ x. Served Store (Session Store)) [
            | none ↦ done (prefix before s)
            | some c ↦
                if s.arg_remains == 0
                then perform storage ending buffer c (prefix before s)
                else done (prefix before s)
          ])
            ≡ prefixed before (elim o as (λ x. Served Store (Session Store)) [
              | none ↦ done s
              | some c ↦ if s.arg_remains == 0 then perform storage ending buffer c s else done s
            ])
      by_command none = refl
      by_command (some c) = full c (s.arg_remains == 0)

  built-prefix :
      (z : Bool) (s : Session Store) → built_if z (prefix before s) ≡ prefixed before (built_if z s)
  unfolding built
  built-prefix false s = refl
  built-prefix true s = of_result (build s.parser)
    where
      of_result :
          (r : Result (Option (Command × ℕ)))
          → built_of r (prefix before s) ≡ prefixed before (built_of r s)
      of_result (ok none) = refl
      of_result (ok (some (c, n))) = refl
      of_result (throw e) = refl
      of_result undefined = refl

  after_byte-prefix :
      (r : Result Parser) (s : Session Store)
      → after_byte storage ending buffer r (prefix before s)
        ≡ prefixed before (after_byte storage ending buffer r s)
  after_byte-prefix (ok p) s =
      ap (λ m. m >>= run) (built-prefix p.parse_complete (record s { parser = p }))
      ∙ prefixed-bind before (built_if p.parse_complete (record s { parser = p })) run run-prefix
  after_byte-prefix (throw e) s = refl
  after_byte-prefix undefined s = refl

  take_byte-prefix :
      (b : ℕ) (s : Session Store)
      → take_byte storage ending buffer b (prefix before s)
        ≡ prefixed before (take_byte storage ending buffer b s)
  unfolding take_byte
  take_byte-prefix b s = by_command s.command
    where
      by_command :
          (o : Option Command)
          → take_byte storage ending buffer b
              (session s.parser o s.arg_remains s.argument s.store (before ++ s.out))
            ≡ prefixed before (
                take_byte storage ending buffer b
                  (session s.parser o s.arg_remains s.argument s.store s.out))
      by_command none =
          after_byte-prefix (dispatch s.parser.state 0 b s.parser)
            (session s.parser none s.arg_remains s.argument s.store s.out)
      by_command (some c) =
          run-prefix
            (session s.parser (some c) (s.arg_remains - 1) (s.argument ++ b ∷ []) s.store s.out)

  pub take_bytes-prefix :
      (bs : Bytes) (s : Session Store)
      → take_bytes storage ending buffer bs (prefix before s)
        ≡ prefixed before (take_bytes storage ending buffer bs s)
  unfolding take_bytes
  take_bytes-prefix [] s = refl
  take_bytes-prefix (b ∷ bs) s =
      ap (λ m. m >>= take_bytes storage ending buffer bs) (take_byte-prefix b s)
      ∙ prefixed-bind before (take_byte storage ending buffer b s)
          (take_bytes storage ending buffer bs) (take_bytes-prefix bs)

  -- The answers in the buffer are followed by those of an empty buffer.
  pub serve-prefix :
      (inputs : List Bytes) (s : Session Store)
      → IsBetween storage ending buffer s
      → serve storage ending buffer inputs (prefix before s)
        ≡ prefixed before (serve storage ending buffer inputs s)
  serve-prefix inputs s h =
      serve-bytes storage ending buffer inputs (prefix before s) h
      ∙ take_bytes-prefix (concat inputs) s
      ∙ ap (prefixed before) (sym (serve-bytes storage ending buffer inputs s h))
