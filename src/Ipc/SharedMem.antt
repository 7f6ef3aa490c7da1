-- ===== src/Ipc/SharedMem.antt =====
-- sysprog/lecture_examples/7_ipc/3_mem_sort.c: a writer and a reader pass bytes through a page of
-- shared memory, with two flags that each of them waits on. A step is one access to the flags, with
-- the copy that follows it; the processes are scheduled in any order.
pub mod Invariant
pub mod Writes
pub mod Reads
pub mod Delivery
pub mod Transfer
mod Tests
use bd_tarantul.Common.{
  ℕ, zero, suc, ◌+◌, ◌-◌, Bool, true, false, List, [], ◌∷◌, ◌++◌, Bytes, length, take, drop, min,
  if◌then◌else◌,
}
use bd_tarantul.Schedule.{runs}

-- Where `write_to_shared_mem` stands.
pub data WriterPc : Type 0 where
  w_wait : WriterPc  -- while (! *is_writable)
  w_clear : WriterPc  -- *is_writable = 0
  w_set : WriterPc  -- *is_readable = 1
  w_check : WriterPc  -- if (size == 0)
  w_done : WriterPc

-- Where `read_from_shared_mem` stands.
pub data ReaderPc : Type 0 where
  r_wait : ReaderPc  -- while (! *is_readable)
  r_clear : ReaderPc  -- *is_readable = 0
  r_set : ReaderPc  -- *is_writable = 1
  r_check : ReaderPc  -- if (size == 0)
  r_done : ReaderPc

pub record Shared : Type 0 where
  pub is_readable : Bool
  pub is_writable : Bool
  pub mem : Bytes  -- what follows the two flags
  pub writer : WriterPc
  pub src : Bytes  -- `size` bytes from `src` on
  pub reader : ReaderPc
  pub dst : Bytes  -- written before `dst`
  pub size : ℕ  -- that the reader still wants

-- MEM_SIZE - MEM_META_SIZE
abbrev pub mem_size : ℕ
mem_size = 65534

-- `if (size == 0) break;`, by the bytes that are left.
abbrev pub next_write : ℕ → WriterPc
next_write zero = WriterPc.w_done
next_write (suc n) = WriterPc.w_wait

abbrev pub next_read : ℕ → ReaderPc
next_read zero = ReaderPc.r_done
next_read (suc n) = ReaderPc.r_wait

-- The flags as `main` sets them, at the start of a transfer of `source`.
unfoldable pub begin : Bytes → Bytes → Shared
begin mem source = record {
  is_readable = false;
  is_writable = true;
  mem = mem;
  writer = WriterPc.w_wait;
  src = source;
  reader = ReaderPc.r_wait;
  dst = [];
  size = length source;
}

module _ (room : ℕ) where
  -- `memcpy(mem, src, to_copy)` and the steps over what was copied.
  unfoldable pub copy_in : Shared → Shared
  copy_in s =
      let n = min room (length s.src) in
      record s { writer = w_clear; mem = take n s.src ++ drop n s.mem; src = drop n s.src }

  unfoldable pub write_at : WriterPc → Shared → Shared
  unfolding copy_in
  write_at w_wait s = if s.is_writable then copy_in s else s
  write_at w_clear s = record s { is_writable = false; writer = w_set }
  write_at w_set s = record s { is_readable = true; writer = w_check }
  write_at w_check s = record s { writer = next_write (length s.src) }
  write_at w_done s = s

  -- A step of `write_to_shared_mem`.
  unfoldable pub write_step : Shared → Shared
  unfolding write_at
  write_step s = write_at s.writer s

  -- `memcpy(dst, mem, to_copy)`
  unfoldable pub copy_out : Shared → Shared
  copy_out s =
      let n = min room s.size in
      record s { reader = r_clear; dst = s.dst ++ take n s.mem; size = s.size - n }

  unfoldable pub read_at : ReaderPc → Shared → Shared
  unfolding copy_out
  read_at r_wait s = if s.is_readable then copy_out s else s
  read_at r_clear s = record s { is_readable = false; reader = r_set }
  read_at r_set s = record s { is_writable = true; reader = r_check }
  read_at r_check s = record s { reader = next_read s.size }
  read_at r_done s = s

  -- A step of `read_from_shared_mem`.
  unfoldable pub read_step : Shared → Shared
  unfolding read_at
  read_step s = read_at s.reader s

  unfoldable pub turn : Bool → Shared → Shared
  unfolding write_step read_step
  turn true s = write_step s
  turn false s = read_step s

  -- A run under a schedule: `true` is a step of the writer.
  abbrev pub run : List Bool → Shared → Shared
  run bs s = runs turn bs s
