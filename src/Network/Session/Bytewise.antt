-- ===== src/Network/Session/Bytewise.antt =====
-- The processing of a connection as a machine that takes one byte at a time.
use bd_tarantul.Common.{ℕ, ◌-◌, ◌<◌, ◌≡◌, Bool, false, none, some, [], ◌∷◌, ◌++◌, Bytes}
use bd_tarantul.Protocol.Parser.{Parser, Result, ok, throw, undefined, dispatch}
use bd_tarantul.Storage.Interface.{Storage}
use bd_tarantul.Network.Session.{Session, Served, done, failed, fault, ◌>>=◌, built_if, run_part}

module _ (storage : Storage) (ending : Bytes) (send : Bytes → Bytes → Bool) where
  open storage use {State}

  -- A byte of a command line, after which the line may be complete.
  abbrev pub after_byte : Result Parser → Session State → Served State (Session State)
  after_byte (ok p) s =
      built_if p.parse_complete (record s { parser = p }) >>= run_part storage ending send
  after_byte (throw e) s = failed s.store s.out
  after_byte undefined s = fault

  abbrev pub line_byte : ℕ → Session State → Served State (Session State)
  line_byte b s = after_byte (dispatch s.parser.state 0 b s.parser) s

  -- A byte of an argument, after which the argument may be complete.
  abbrev pub argument_byte : ℕ → Session State → Served State (Session State)
  argument_byte b s =
      run_part storage ending send
        (record s { argument = s.argument ++ b ∷ []; arg_remains = s.arg_remains - 1 })

  unfoldable pub take_byte : ℕ → Session State → Served State (Session State)
  take_byte b s = elim s.command [ none ↦ line_byte b s | some _ ↦ argument_byte b s ]

  unfoldable pub take_bytes : Bytes → Session State → Served State (Session State)
  take_bytes [] s = done s
  take_bytes (b ∷ bs) s = take_byte b s >>= take_bytes bs

  -- Between two bytes a command line or an argument is incomplete.
  abbrev pub IsBetween : Session State → Type 0
  IsBetween s = elim s.command [
    | none ↦ s.parser.parse_complete ≡ false
    | some _ ↦ 0 < s.arg_remains
  ]
