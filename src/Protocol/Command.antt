-- ===== src/Protocol/Command.antt =====
-- sysprog/afina/include/afina/execute: the commands that the parser builds.
use bd_tarantul.Common.{ℕ, List, Bytes, ℤ}

pub data Command : Type 0 where
  set_command : (key : Bytes) → (flags : ℕ) → (expire : ℤ) → Command
  add_command : (key : Bytes) → (flags : ℕ) → (expire : ℤ) → Command
  append_command : (key : Bytes) → (flags : ℕ) → (expire : ℤ) → Command
  replace_command : (key : Bytes) → (flags : ℕ) → (expire : ℤ) → Command
  get_command : (keys : List Bytes) → Command
  stats_command : Command
