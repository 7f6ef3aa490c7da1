-- ===== src/Ipc/SharedMem/Reads.antt =====
-- 3_mem_sort.c: a step of the reader keeps what holds.
use bd_tarantul.Common.{
  ℕ, suc, zero, ◌+◌, ◌-◌, ◌≡◌, refl, ◌∙◌, Bool, true, false, ◌++◌, append_assoc, arith, Bytes,
  length, take, min,
}
use bd_tarantul.Ipc.SharedMem.{
  WriterPc, w_wait, w_clear, w_set, w_check, w_done, ReaderPc, r_wait, r_clear, r_set, r_check,
  r_done, copy_out, read_at,
}
use bd_tarantul.Ipc.SharedMem.Invariant.{Inv, InTurn, state}

module _ (room : ℕ) (source mem src dst : Bytes) (size : ℕ) where
  copied_out :
      size ≡ min room size + length src
      → dst ++ (take (min room size) mem ++ src) ≡ source
      → (size - min room size ≡ 0 + length src) × (dst ++ take (min room size) mem ++ src ≡ source)
  copied_out e k = (omega arith, append_assoc dst (take (min room size) mem) src ∙ k)

  copy_out-Inv :
      (w : WriterPc)
      → Inv room source (state true false mem w src r_wait dst size)
      → Inv room source (copy_out room (state true false mem w src r_wait dst size))
  unfolding copy_out
  copy_out-Inv w_wait v =
      let (e, k) = copied_out v.wanted v.kept in
      record { turn = (refl, refl); rounds = v.rounds refl; wanted = e; kept = k }
  copy_out-Inv w_check v =
      let (e, k) = copied_out v.wanted v.kept in
      record { turn = (refl, refl); rounds = tt; wanted = e; kept = k }
  copy_out-Inv w_done v =
      let (e, k) = copied_out v.wanted v.kept in
      record { turn = (refl, refl); rounds = v.rounds.0; wanted = e; kept = k }
  copy_out-Inv w_clear v = ground (arith, v.turn)
  copy_out-Inv w_set v = ground (arith, v.turn)

  -- The reader's test `size == 0`.
  check_read :
      (w : WriterPc) (size : ℕ) (readable writable : Bool)
      → Inv room source (state readable writable mem w src r_check dst size)
      → Inv room source (read_at room r_check (state readable writable mem w src r_check dst size))
  unfolding read_at
  check_read w_wait zero false writable v = absurd (omega (arith, v.rounds, v.wanted))
  check_read w_wait zero true writable v = absurd (omega (arith, v.rounds, v.wanted))
  check_read w_wait (suc n) readable writable v = ground arith
  check_read w_clear zero readable writable v = absurd (omega (arith, v.rounds))
  check_read w_clear (suc n) readable writable v = ground arith
  check_read w_set zero readable writable v = absurd (omega (arith, v.rounds))
  check_read w_set (suc n) readable writable v = ground arith
  check_read w_check zero true writable v = absurd (omega (arith, v.rounds refl))
  check_read w_check zero false writable v = ground arith
  check_read w_check (suc n) readable writable v = ground arith
  check_read w_done zero true writable v = absurd (omega (arith, v.rounds.1 refl))
  check_read w_done zero false writable v = ground arith
  check_read w_done (suc n) true writable v = ground arith
  check_read w_done (suc n) false writable v = absurd (omega (arith, v.wanted, v.rounds.0))

  -- A step of the reader from each place.
  pub read_at-Inv :
      (w : WriterPc) (r : ReaderPc) (readable writable : Bool)
      → Inv room source (state readable writable mem w src r dst size)
      → Inv room source (read_at room r (state readable writable mem w src r dst size))
  unfolding read_at
  read_at-Inv w r_wait false writable v = v
  read_at-Inv w r_wait true false v = copy_out-Inv w v
  read_at-Inv w r_wait true true v = absurd (both_flags w v.turn)
    where
      both_flags : (w : WriterPc) → InTurn w r_wait true true → ⊥
      both_flags w_wait t = ground (arith, t)
      both_flags w_clear t = ground (arith, t)
      both_flags w_set t = ground (arith, t)
      both_flags w_check t = ground (arith, t)
      both_flags w_done t = ground (arith, t)
  read_at-Inv w_wait r_clear readable writable v = ground arith
  read_at-Inv w_check r_clear readable writable v = ground arith
  read_at-Inv w_done r_clear readable writable v = ground arith
  read_at-Inv w_clear r_clear readable writable v = absurd v.turn
  read_at-Inv w_set r_clear readable writable v = absurd v.turn
  read_at-Inv w_wait r_set false writable v = ground arith
  read_at-Inv w_wait r_set true writable v = absurd (ground (arith, v.turn))
  read_at-Inv w_check r_set false writable v = ground arith
  read_at-Inv w_check r_set true writable v = absurd (ground (arith, v.turn))
  read_at-Inv w_done r_set false writable v = ground arith
  read_at-Inv w_done r_set true writable v = absurd (ground (arith, v.turn))
  read_at-Inv w_clear r_set readable writable v = absurd v.turn
  read_at-Inv w_set r_set readable writable v = absurd v.turn
  read_at-Inv w r_check readable writable v = check_read w size readable writable v
  read_at-Inv w r_done readable writable v = v
