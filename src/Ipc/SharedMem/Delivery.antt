-- ===== src/Ipc/SharedMem/Delivery.antt =====
-- 3_mem_sort.c: what a transfer through the shared page delivers.
use bd_tarantul.Common.{
  ℕ, ◌≡◌, refl, sym, subst, ◌∙◌, Bool, true, false, List, [], ◌∷◌, append-nil, arith, Bytes, inl,
}
use bd_tarantul.Schedule.{runs-keeps}
use bd_tarantul.Ipc.SharedMem.{w_done, r_done, Shared, begin, write_step, read_step, turn, run}
use bd_tarantul.Ipc.SharedMem.Invariant.{Inv, state}
use bd_tarantul.Ipc.SharedMem.Writes.{write_at-Inv}
use bd_tarantul.Ipc.SharedMem.Reads.{read_at-Inv}

abbrev pub IsOver : Shared → Type 0
IsOver s = (s.writer ≡ w_done) × (s.reader ≡ r_done)

pub turn-Inv :
    (room : ℕ) (source : Bytes) (b : Bool) (s : Shared)
    → Inv room source s
    → Inv room source (turn room b s)
unfolding turn write_step read_step
turn-Inv room source true s v =
    write_at-Inv room source s.mem s.src s.dst s.size s.writer s.reader s.is_readable s.is_writable
      v
turn-Inv room source false s v =
    read_at-Inv room source s.mem s.src s.dst s.size s.writer s.reader s.is_readable s.is_writable v

pub begin-Inv : (room : ℕ) (mem source : Bytes) → Inv room source (begin mem source)
unfolding begin
begin-Inv room mem source = record {
  turn = inl (refl, refl);
  rounds = λ h. ground (arith, h);
  wanted = omega arith;
  kept = refl;
}

-- What `Inv` says where both are done.
done-Inv :
    (room : ℕ) (source mem src dst : Bytes) (size : ℕ) (readable writable : Bool)
    → Inv room source (state readable writable mem w_done src r_done dst size)
    → (dst ≡ source) × ((readable ≡ false) × (writable ≡ true))
done-Inv room source mem [] dst size readable writable v = (sym (append-nil dst) ∙ v.kept, v.turn)
done-Inv room source mem (x ∷ src) dst size readable writable v = absurd (omega (arith, v.rounds.0))

over-Inv :
    (room : ℕ) (source : Bytes) (s : Shared)
    → Inv room source s
    → IsOver s
    → (s.dst ≡ source) × ((s.is_readable ≡ false) × (s.is_writable ≡ true))
over-Inv room source s v o =
    done-Inv room source s.mem s.src s.dst s.size s.is_readable s.is_writable (
      subst (λ w. Inv room source (record s { writer = w; reader = r_done })) o.0
        (subst (λ r. Inv room source (record s { reader = r })) o.1 v))

-- Whatever the order in which the steps of the writer and of the reader are taken, and whatever the
-- page held before, once both have returned the reader holds exactly the bytes sent, in their order,
-- and the flags stand as before the transfer, so the next one can begin.
pub run-delivers :
    (room : ℕ) (mem source : Bytes) (bs : List Bool)
    → IsOver (run room bs (begin mem source))
    → ((run room bs (begin mem source)).dst ≡ source)
      × (((run room bs (begin mem source)).is_readable ≡ false)
          × ((run room bs (begin mem source)).is_writable ≡ true))
run-delivers room mem source bs o =
    over-Inv room source (run room bs (begin mem source))
      (runs-keeps (turn room) (Inv room source) (turn-Inv room source) bs (begin mem source)
        (begin-Inv room mem source))
      o
