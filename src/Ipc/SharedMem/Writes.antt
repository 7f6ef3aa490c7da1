-- ===== src/Ipc/SharedMem/Writes.antt =====
-- 3_mem_sort.c: a step of the writer keeps what holds.
use bd_tarantul.Common.{
  ℕ, ◌+◌, ◌≡◌, refl, ap, ◌∙◌, Bool, true, false, [], ◌∷◌, ◌++◌, arith, Bytes, length, take, drop,
  min, length-drop,
}
use bd_tarantul.Ipc.SharedMem.{
  WriterPc, w_wait, w_clear, w_set, w_check, w_done, ReaderPc, r_wait, r_clear, r_set, r_check,
  r_done, copy_in, write_at,
}
use bd_tarantul.Ipc.SharedMem.Invariant.{Inv, InTurn, chunk-copied, state}

module _ (room : ℕ) (source mem dst : Bytes) (size : ℕ) (readable writable : Bool) where
  -- The writer's test `size == 0`.
  check_write :
      (src : Bytes) (r : ReaderPc)
      → Inv room source (state readable writable mem w_check src r dst size)
      → Inv room source (write_at room w_check (state readable writable mem w_check src r dst size))
  unfolding write_at
  check_write [] r v = ground arith
  check_write (x ∷ src) r v = ground arith

module _ (room : ℕ) (source mem src dst : Bytes) (size : ℕ) where
  copied_in :
      size ≡ length src
      → dst ++ src ≡ source
      → (size ≡ min room size + length (drop (min room (length src)) src))
        × (dst
              ++ (take
                    (min room size)
                    (take (min room (length src)) src ++ drop (min room (length src)) mem)
                  ++ drop (min room (length src)) src)
            ≡ source)
  copied_in e k = (
    omega (arith, length-drop (min room (length src)) src),
    ap (λ t. dst ++ t) (chunk-copied _ _ src _ (ap (min room) e) (omega arith)) ∙ k,
  )

  copy_in-Inv :
      (r : ReaderPc)
      → Inv room source (state false true mem w_wait src r dst size)
      → Inv room source (copy_in room (state false true mem w_wait src r dst size))
  unfolding copy_in
  copy_in-Inv r_wait v =
      let (w, k) = copied_in (omega (arith, v.wanted)) v.kept in
      record { turn = (refl, refl); rounds = tt; wanted = w; kept = k }
  copy_in-Inv r_check v =
      let (w, k) = copied_in (omega (arith, v.wanted)) v.kept in
      record {
        turn = (refl, refl);
        rounds = omega (arith, v.rounds, v.wanted);
        wanted = w;
        kept = k;
      }
  copy_in-Inv r_clear v = ground (arith, v.turn)
  copy_in-Inv r_set v = ground (arith, v.turn)
  copy_in-Inv r_done v = absurd v.rounds

  -- A step of the writer from each place.
  pub write_at-Inv :
      (w : WriterPc) (r : ReaderPc) (readable writable : Bool)
      → Inv room source (state readable writable mem w src r dst size)
      → Inv room source (write_at room w (state readable writable mem w src r dst size))
  unfolding write_at
  write_at-Inv w_wait r readable false v = v
  write_at-Inv w_wait r false true v = copy_in-Inv r v
  write_at-Inv w_wait r true true v = absurd (no_turn r v.turn)
    where
      no_turn : (r : ReaderPc) → InTurn w_wait r true true → ⊥
      no_turn r_wait t = ground (arith, t)
      no_turn r_clear t = ground (arith, t)
      no_turn r_set t = ground (arith, t)
      no_turn r_check t = ground (arith, t)
      no_turn r_done t = ground (arith, t)
  write_at-Inv w_clear r_wait readable writable v = ground arith
  write_at-Inv w_clear r_check readable writable v = ground arith
  write_at-Inv w_clear r readable writable v = absurd v.turn
  write_at-Inv w_set r_wait readable writable v = ground arith
  write_at-Inv w_set r_check readable writable v = ground arith
  write_at-Inv w_set r readable writable v = absurd v.turn
  write_at-Inv w_check r readable writable v =
      check_write room source mem dst size readable writable src r v
  write_at-Inv w_done r readable writable v = v
