-- ===== src/Ipc/SharedMem/Transfer.antt =====
-- 3_mem_sort.c: that a transfer through the shared page ends.
use bd_tarantul.Common.{
  ℕ, suc, zero, ◌+◌, ◌*◌, ◌≤◌, ◌<◌, ◌≡◌, refl, ap, Bool, true, false, List, ◌++◌, arith, Bytes,
  length, min, max, ◌⊎◌, inl, inr, length-drop,
}
use bd_tarantul.Schedule.{alternate, runs-IsOver}
use bd_tarantul.Ipc.SharedMem.{
  WriterPc, w_wait, w_clear, w_set, w_check, w_done, ReaderPc, r_wait, r_clear, r_set, r_check,
  r_done, Shared, begin, copy_in, write_at, write_step, copy_out, read_at, read_step, turn, run,
  next_write, next_read,
}
use bd_tarantul.Ipc.SharedMem.Invariant.{Inv, state}
use bd_tarantul.Ipc.SharedMem.Delivery.{IsOver, turn-Inv, begin-Inv, run-delivers}

-- The steps that a side still has to make from each place, with `n` bytes left.
abbrev pub writes_left : WriterPc → ℕ → ℕ
writes_left w_wait n = 4 * max n 1
writes_left w_clear n = 4 * n + 3
writes_left w_set n = 4 * n + 2
writes_left w_check n = 4 * n + 1
writes_left w_done n = 0

abbrev pub reads_left : ReaderPc → ℕ → ℕ
reads_left r_wait n = 4 * max n 1
reads_left r_clear n = 4 * n + 3
reads_left r_set n = 4 * n + 2
reads_left r_check n = 4 * n + 1
reads_left r_done n = 0

abbrev pub steps_left : Shared → ℕ
steps_left s = writes_left s.writer (length s.src) + reads_left s.reader s.size

-- Where a step leaves the state as it is.
abbrev pub WriterWaits : WriterPc → Bool → Type 0
WriterWaits w_wait writable = writable ≡ false
WriterWaits w_done writable = Unit {0}
WriterWaits _ writable = ⊥

abbrev pub ReaderWaits : ReaderPc → Bool → Type 0
ReaderWaits r_wait readable = readable ≡ false
ReaderWaits r_done readable = Unit {0}
ReaderWaits _ readable = ⊥

next_write-less : (n : ℕ) → writes_left (next_write n) n < 4 * n + 1
next_write-less zero = omega arith
next_write-less (suc n) = omega arith

next_read-less : (n : ℕ) → reads_left (next_read n) n < 4 * n + 1
next_read-less zero = omega arith
next_read-less (suc n) = omega arith

module _ (room : ℕ) (some_room : 0 < room) (mem src dst : Bytes) (size : ℕ) where
  write_at-less :
      (w : WriterPc) (r : ReaderPc) (readable writable : Bool)
      → (WriterWaits w writable
          × (write_at room w (state readable writable mem w src r dst size)
              ≡ state readable writable mem w src r dst size))
        ⊎ (steps_left (write_at room w (state readable writable mem w src r dst size))
            < steps_left (state readable writable mem w src r dst size))
  unfolding write_at copy_in
  write_at-less w_wait r readable false = inl (refl, refl)
  write_at-less w_wait r readable true =
      inr (omega (arith, some_room, length-drop (min room (length src)) src))
  write_at-less w_clear r readable writable = inr (omega arith)
  write_at-less w_set r readable writable = inr (omega arith)
  write_at-less w_check r readable writable = inr (omega (arith, next_write-less (length src)))
  write_at-less w_done r readable writable = inl (tt, refl)

  read_at-less :
      (w : WriterPc) (r : ReaderPc) (readable writable : Bool)
      → (ReaderWaits r readable
          × (read_at room r (state readable writable mem w src r dst size)
              ≡ state readable writable mem w src r dst size))
        ⊎ (steps_left (read_at room r (state readable writable mem w src r dst size))
            < steps_left (state readable writable mem w src r dst size))
  unfolding read_at copy_out
  read_at-less w r_wait false writable = inl (refl, refl)
  read_at-less w r_wait true writable = inr (omega (arith, some_room))
  read_at-less w r_clear readable writable = inr (omega arith)
  read_at-less w r_set readable writable = inr (omega arith)
  read_at-less w r_check readable writable = inr (omega (arith, next_read-less size))
  read_at-less w r_done readable writable = inl (tt, refl)

-- Both wait only where both are done: there is no deadlock.
waits-done :
    (room : ℕ) (source mem src dst : Bytes) (size : ℕ) (w : WriterPc) (r : ReaderPc)
    (readable writable : Bool)
    → Inv room source (state readable writable mem w src r dst size)
    → WriterWaits w writable
    → ReaderWaits r readable
    → (w ≡ w_done) × (r ≡ r_done)
waits-done room source mem src dst size w_wait r_wait readable writable v hw hr =
    ground (arith, v.turn, hw, hr)
waits-done room source mem src dst size w_wait r_done readable writable v hw hr = absurd v.rounds
waits-done room source mem src dst size w_done r_wait readable writable v hw hr =
    ground (arith, v.rounds, hr)
waits-done room source mem src dst size w_done r_done readable writable v hw hr = (refl, refl)
waits-done room source mem src dst size w_wait r_clear readable writable v hw hr = absurd hr
waits-done room source mem src dst size w_wait r_set readable writable v hw hr = absurd hr
waits-done room source mem src dst size w_wait r_check readable writable v hw hr = absurd hr
waits-done room source mem src dst size w_clear r readable writable v hw hr = absurd hw
waits-done room source mem src dst size w_set r readable writable v hw hr = absurd hw
waits-done room source mem src dst size w_check r readable writable v hw hr = absurd hw
waits-done room source mem src dst size w_done r_clear readable writable v hw hr = absurd hr
waits-done room source mem src dst size w_done r_set readable writable v hw hr = absurd hr
waits-done room source mem src dst size w_done r_check readable writable v hw hr = absurd hr

write_done : (room : ℕ) (s : Shared) → s.writer ≡ w_done → write_step room s ≡ s
unfolding write_step write_at
write_done room s e = ap (λ w. write_at room w s) e

read_done : (room : ℕ) (s : Shared) → s.reader ≡ r_done → read_step room s ≡ s
unfolding read_step read_at
read_done room s e = ap (λ r. read_at room r s) e

turn_rests : (room : ℕ) (b : Bool) (s : Shared) → IsOver s → turn room b s ≡ s
unfolding turn
turn_rests room true s o = write_done room s o.0
turn_rests room false s o = read_done room s o.1

module _ (room : ℕ) (some_room : 0 < room) where
  write_less :
      (s : Shared)
      → (WriterWaits s.writer s.is_writable × (write_step room s ≡ s))
        ⊎ (steps_left (write_step room s) < steps_left s)
  unfolding write_step
  write_less s =
      write_at-less room some_room s.mem s.src s.dst s.size s.writer s.reader s.is_readable
        s.is_writable

  read_less :
      (s : Shared)
      → (ReaderWaits s.reader s.is_readable × (read_step room s ≡ s))
        ⊎ (steps_left (read_step room s) < steps_left s)
  unfolding read_step
  read_less s =
      read_at-less room some_room s.mem s.src s.dst s.size s.writer s.reader s.is_readable
        s.is_writable

  turn_moves :
      (b : Bool) (s : Shared) → (turn room b s ≡ s) ⊎ (steps_left (turn room b s) < steps_left s)
  unfolding turn
  turn_moves true s = elim (write_less s) [ inl (_, e) ↦ inl e | inr h ↦ inr h ]
  turn_moves false s = elim (read_less s) [ inl (_, e) ↦ inl e | inr h ↦ inr h ]

  turn_ends :
      (source : Bytes) (s : Shared)
      → Inv room source s
      → turn room true s ≡ s
      → turn room false s ≡ s
      → IsOver s
  unfolding turn
  turn_ends source s v e f = elim (write_less s) [
    | inl (hw, _) ↦ elim (read_less s) [
      | inl (hr, _) ↦
          waits-done room source s.mem s.src s.dst s.size s.writer s.reader s.is_readable
            s.is_writable v hw hr
      | inr h ↦ absurd (omega (arith, h, ap steps_left f))
    ]
    | inr h ↦ absurd (omega (arith, h, ap steps_left e))
  ]

begin_steps : (mem source : Bytes) → steps_left (begin mem source) ≤ 8 * length source + 8
unfolding begin
begin_steps mem source = omega arith

-- With room for a byte in the page, no order of steps leads to a deadlock or to a state from which
-- the transfer cannot end: whatever steps were taken, `8 * length source + 8` turns of the writer and
-- of the reader in alternation are enough for both to return, and the reader then holds the bytes sent.
pub run-ends :
    (room : ℕ) (mem source : Bytes) (bs : List Bool)
    → 0 < room
    → IsOver (run room (bs ++ alternate (8 * length source + 8)) (begin mem source))
      × ((run room (bs ++ alternate (8 * length source + 8)) (begin mem source)).dst ≡ source)
run-ends room mem source bs h =
    let o =
      runs-IsOver (turn room) steps_left (Inv room source) IsOver (turn-Inv room source)
        (turn_moves room h) (turn_ends room h source) (turn_rests room) (8 * length source + 8) bs
        (begin mem source) (begin-Inv room mem source) (begin_steps mem source) in
    (o, (run-delivers room mem source (bs ++ alternate (8 * length source + 8)) o).0)
