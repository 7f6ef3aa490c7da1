-- ===== src/Ipc/SharedMem/Invariant.antt =====
-- 3_mem_sort.c: what holds between the steps of the writer and the reader.
use bd_tarantul.Common.{
  ℕ, suc, zero, ◌+◌, ◌≤◌, ◌<◌, ◌≡◌, refl, ap, ◌∙◌, Bool, true, false, [], ◌∷◌, ◌++◌, arith, Bytes,
  length, take, drop, min, if◌then◌else◌, ◌⊎◌, take-append-drop,
}
use bd_tarantul.Ipc.SharedMem.{
  WriterPc, w_wait, w_clear, w_set, w_check, w_done, ReaderPc, r_wait, r_clear, r_set, r_check,
  r_done, Shared,
}

-- Whether a chunk in memory waits to be copied out, by where the two stand and by the flag.
abbrev pub in_flight : WriterPc → ReaderPc → Bool → Bool
in_flight w_clear r readable = true
in_flight w_set r readable = true
in_flight w r_wait readable = readable
in_flight w r_check readable = readable
in_flight w r readable = false

-- Which places and flags go together: whose turn it is.
abbrev pub InTurn : WriterPc → ReaderPc → Bool → Bool → Type 0
InTurn w_clear r_wait readable writable = (readable ≡ false) × (writable ≡ true)
InTurn w_clear r_check readable writable = (readable ≡ false) × (writable ≡ true)
InTurn w_set r_wait readable writable = (readable ≡ false) × (writable ≡ false)
InTurn w_set r_check readable writable = (readable ≡ false) × (writable ≡ false)
InTurn w_clear _ readable writable = ⊥
InTurn w_set _ readable writable = ⊥
InTurn w r_clear readable writable = (readable ≡ true) × (writable ≡ false)
InTurn w r_set readable writable = (readable ≡ false) × (writable ≡ false)
InTurn w r_done readable writable = (readable ≡ false) × (writable ≡ true)
InTurn w r readable writable =
    ((readable ≡ false) × (writable ≡ true)) ⊎ ((readable ≡ true) × (writable ≡ false))

-- Who still has a round to make: the first chunk is sent even if it is empty, and each side goes
-- round again exactly while bytes are left.
abbrev pub Rounds : WriterPc → ReaderPc → Bool → (left : ℕ) → (size : ℕ) → Type 0
Rounds w_wait r_wait readable left size = (readable ≡ true → 0 < left)
Rounds w_wait r_done readable left size = ⊥
Rounds w_wait r readable left size = 0 < left
Rounds w_clear r_check readable left size = 0 < size
Rounds w_set r_check readable left size = 0 < size
Rounds w_clear r readable left size = Unit {0}
Rounds w_set r readable left size = Unit {0}
Rounds w_check r_wait readable left size = (readable ≡ false → 0 < size)
Rounds w_check r_check readable left size = (readable ≡ true → 0 < size)
Rounds w_check r_done readable left size = size ≡ 0
Rounds w_check r readable left size = Unit {0}
Rounds w_done r_wait readable left size = (left ≡ 0) × (readable ≡ true)
Rounds w_done r_check readable left size = (left ≡ 0) × (readable ≡ true → 0 < size)
Rounds w_done r_done readable left size = (left ≡ 0) × (size ≡ 0)
Rounds w_done r readable left size = left ≡ 0

pub record Inv (room : ℕ) (source : Bytes) (s : Shared) : Type 0 where
  pub turn : InTurn s.writer s.reader s.is_readable s.is_writable
  pub rounds : Rounds s.writer s.reader s.is_readable (length s.src) s.size
  pub wanted :
      s.size
      ≡ (if in_flight s.writer s.reader s.is_readable then min room s.size else 0) + length s.src
  pub kept :
      s.dst
        ++ ((if in_flight s.writer s.reader s.is_readable then take (min room s.size) s.mem else [])
            ++ s.src)
      ≡ source

-- What a `memcpy` of the first bytes of `src` leaves at the head of the page.
take-copied : (n : ℕ) (src rest : Bytes) → n ≤ length src → take n (take n src ++ rest) ≡ take n src
take-copied zero src rest h = refl
take-copied (suc n) [] rest h = absurd (omega arith)
take-copied (suc n) (x ∷ src) rest h = ap (◌∷◌ x) (take-copied n src rest (omega arith))

pub chunk-copied :
    (m n : ℕ) (src rest : Bytes)
    → m ≡ n
    → n ≤ length src
    → take m (take n src ++ rest) ++ drop n src ≡ src
chunk-copied m n src rest e h =
    ap (λ k. take k (take n src ++ rest) ++ drop n src) e
    ∙ ap (λ t. t ++ drop n src) (take-copied n src rest h)
    ∙ take-append-drop n src

abbrev pub state : Bool → Bool → Bytes → WriterPc → Bytes → ReaderPc → Bytes → ℕ → Shared
state readable writable mem w src r dst size = record {
  is_readable = readable;
  is_writable = writable;
  mem = mem;
  writer = w;
  src = src;
  reader = r;
  dst = dst;
  size = size;
}
