-- ===== src/Ipc/SharedMem/Tests.antt =====
-- 3_mem_sort.c: transfers of a few bytes through a page with room for two.
use bd_tarantul.Common.{
  ◌+◌, ◌*◌, ◌≡◌, refl, arith, Bool, true, false, List, [], ◌∷◌, ◌++◌, Bytes, length,
}
use bd_tarantul.Schedule.{alternate}
use bd_tarantul.Ipc.SharedMem.{
  w_done, r_done, begin, turn, run, write_step, read_step, write_at, read_at, copy_in, copy_out,
}
use bd_tarantul.Ipc.SharedMem.Delivery.{run-delivers}
use bd_tarantul.Ipc.SharedMem.Transfer.{run-ends}

abbrev page : Bytes
page = 0 ∷ 0 ∷ []

abbrev letters : Bytes
letters = 97 ∷ 98 ∷ 99 ∷ []

-- The writer starts its second round while the reader still tests its size.
abbrev schedule : List Bool
schedule =
    false ∷ true ∷ true ∷ false ∷ true ∷ true ∷ true ∷ false ∷ false ∷ false ∷ true ∷ true ∷ true
    ∷ true ∷ false ∷ false ∷ false ∷ false ∷ false ∷ []

over :
    (run 2 schedule (begin page letters)).writer ≡ w_done
    × (run 2 schedule (begin page letters)).reader ≡ r_done
unfolding turn write_step read_step write_at read_at copy_in copy_out begin
over = (refl, refl)

run-delivers_example :
    ((run 2 schedule (begin page letters)).dst ≡ letters)
    × (((run 2 schedule (begin page letters)).is_readable ≡ false)
        × ((run 2 schedule (begin page letters)).is_writable ≡ true))
run-delivers_example = run-delivers 2 page letters schedule over

run-ends_example :
    (((run 2 ((true ∷ true ∷ []) ++ alternate (8 * length letters + 8)) (begin page letters)).writer
        ≡ w_done)
      × ((run 2
            ((true ∷ true ∷ []) ++ alternate (8 * length letters + 8))
            (begin page letters)).reader
          ≡ r_done))
    × ((run 2 ((true ∷ true ∷ []) ++ alternate (8 * length letters + 8)) (begin page letters)).dst
        ≡ letters)
run-ends_example = run-ends 2 page letters (true ∷ true ∷ []) (omega arith)
