-- ===== src/Execute.antt =====
-- sysprog/afina/src/execute: what each command does to a storage, and the answer that it writes.
pub mod Decimal
pub mod Replies
mod Tests
use bd_tarantul.Common.{
  ℕ, ◌≡◌, Bool, true, false, Option, none, some, List, [], ◌∷◌, ◌++◌, Bytes, codes, length,
  if◌then◌else◌, ◌>>=◌,
}
use bd_tarantul.Protocol.Command.{
  Command, set_command, add_command, append_command, replace_command, get_command, stats_command,
}
use bd_tarantul.Storage.Interface.{Storage}
use Decimal.{show_number}

module _ (storage : Storage) where
  open storage use {State, put, put_if_absent, set, get}

  -- `Set::Execute`: the answer of `Put` is dropped.
  unfoldable pub execute_set : Bytes → Bytes → State → Option (State × Bytes)
  execute_set key args s = do (s', _) ← put key args s; some (s', codes "STORED")

  -- `Add::Execute`
  unfoldable pub execute_add : Bytes → Bytes → State → Option (State × Bytes)
  execute_add key args s = do
    (s', b) ← put_if_absent key args s
    some (s', if b then codes "STORED" else codes "NOT_STORED")

  -- `Append::Execute`: the answer of `Put` is dropped.
  unfoldable pub execute_append : Bytes → Bytes → State → Option (State × Bytes)
  execute_append key args s = get key s >>= λ r. elim r.1 [
    | none ↦ some (r.0, codes "NOT_STORED")
    | some value ↦ put key (value ++ args) r.0 >>= λ q. some (q.0, codes "STORED")
  ]

  -- `Replace::Execute`: the answer of `Set` is dropped.
  unfoldable pub execute_replace : Bytes → Bytes → State → Option (State × Bytes)
  execute_replace key args s = get key s >>= λ r. elim r.1 [
    | none ↦ some (r.0, codes "NOT_STORED")
    | some value ↦ set key args r.0 >>= λ q. some (q.0, codes "STORED")
  ]

  -- `VALUE <key> 0 <bytes>\r\n<data>\r\n`
  unfoldable pub item : Bytes → Bytes → Bytes
  unfolding show_number
  item key value =
      codes "VALUE "
      ++ (key ++ (codes " 0 " ++ (show_number (length value) ++ 13 ∷ 10 ∷ (value ++ 13 ∷ 10 ∷ []))))

  -- The loop of `Get::Execute` over the keys, from the text written so far.
  unfoldable pub get_items : List Bytes → Bytes → State → Option (State × Bytes)
  unfolding item
  get_items [] out s = some (s, out ++ codes "END")
  get_items (key ∷ keys) out s = get key s >>= λ r.
      get_items keys (elim r.1 [ none ↦ out | some value ↦ out ++ item key value ]) r.0

  -- `Command::Execute`, with the body of the command and the answer without its line end.
  unfoldable pub execute : Command → Bytes → State → Option (State × Bytes)
  unfolding execute_set execute_add execute_append execute_replace get_items
  execute (set_command key _ _) args s = execute_set key args s
  execute (add_command key _ _) args s = execute_add key args s
  execute (append_command key _ _) args s = execute_append key args s
  execute (replace_command key _ _) args s = execute_replace key args s
  execute (get_command keys) args s = get_items keys [] s
  execute stats_command args s = some (s, codes "END")
