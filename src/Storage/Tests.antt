-- ===== src/Storage/Tests.antt =====
-- Runs of the store at concrete inputs, and the theorems on it applied there.
use bd_tarantul.Common.{
  ◌≡◌, refl, true, not, none, some, List, [], ◌∷◌, arith, Bytes, bytes_eq, codes, inr,
}
use bd_tarantul.Storage.Nodes.{
  Node, total_size, find, last, unlink, contains, erase, to_fresh_end, move_to_fresh_data,
  write_value,
}
use bd_tarantul.Storage.Lru.{
  Lru, init, remove_behind, remove_links, remove_node, remove_head, evict, insert_new_value,
  update_value, index_find, too_large, put, put_if_absent, set, delete, get,
}
use bd_tarantul.Storage.Lru.Evict.{IsValid}
use bd_tarantul.Storage.Lru.Outcomes
use bd_tarantul.Storage.Lru.Outcomes.{Outcome}
use bd_tarantul.Storage.Lru.Deletes
use bd_tarantul.Storage.Lru.Reads.{Deleted, after_get}
use bd_tarantul.Storage.Lru.Accounting.{IsCounted}
use bd_tarantul.Storage.History
use bd_tarantul.Storage.History.{
  Call, put_call, get_call, delete_call, call, Memory, note, run, Serves,
}

program : Unit {0}
unfolding bytes_eq total_size find last unlink contains erase to_fresh_end move_to_fresh_data
    write_value init remove_behind remove_links remove_node remove_head evict insert_new_value
    update_value index_find put put_if_absent set delete get call note run after_get
program = tt

abbrev node : Bytes → Bytes → Node
node k v = record { key = k; value = v }

-- Entries of three and five bytes in a cache of ten.
abbrev two : Lru
two = record {
  max_size = 10;
  current_size = 8;
  nodes = node (codes "a") (codes "11") ∷ node (codes "b") (codes "2222") ∷ [];
  index = codes "b" ∷ codes "a" ∷ [];
}

two-IsValid : IsValid two
unfolding contains find bytes_eq
two-IsValid = record { distinct = (refl, (refl, tt)); synced = λ k. ground arith }

two-IsCounted : IsCounted two
unfolding total_size
two-IsCounted = record { counted = refl; bounded = omega arith; word = omega arith }

-- A `Put` that evicts the head takes the size of the tail off the count: 8 - 5 + 4 is 7, where the
-- entries that stay hold 9 bytes.
put_evicts :
    put (codes "c") (codes "333") two
    ≡ some (
      record {
        max_size = 10;
        current_size = 7;
        nodes = node (codes "b") (codes "2222") ∷ node (codes "c") (codes "333") ∷ [];
        index = codes "c" ∷ codes "b" ∷ [];
      },
      true,
    )
unfolding program
put_evicts = refl

get_moves :
    get (codes "a") two
    ≡ some (
      record two { nodes = node (codes "b") (codes "2222") ∷ node (codes "a") (codes "11") ∷ [] },
      some (codes "11"),
    )
unfolding program
get_moves = refl

abbrev after_put : Lru
after_put = record {
  max_size = 10;
  current_size = 7;
  nodes = node (codes "b") (codes "2222") ∷ node (codes "c") (codes "333") ∷ [];
  index = codes "c" ∷ codes "b" ∷ [];
}

put-Outcome_example :
    (true ≡ not (too_large (codes "c") (codes "333") two))
    × Outcome (codes "c") (codes "333") two (after_put, true)
unfolding program
put-Outcome_example =
    Outcomes.put-Outcome (codes "c") (codes "333") two after_put true two-IsValid refl

abbrev after_set : Lru
after_set = record two {
  current_size = 7;
  nodes = node (codes "b") (codes "2222") ∷ node (codes "a") (codes "9") ∷ [];
}

abbrev three : Lru
three = record {
  max_size = 20;
  current_size = 12;
  nodes =
      node (codes "a") (codes "11")
      ∷ node (codes "b") (codes "2222")
      ∷ node (codes "c") (codes "333")
      ∷ [];
  index = codes "c" ∷ codes "b" ∷ codes "a" ∷ [];
}

three-IsValid : IsValid three
unfolding contains find bytes_eq
three-IsValid = record { distinct = (refl, (refl, (refl, tt))); synced = λ k. ground arith }

delete-Deleted_example :
    (s' : Lru) × (delete (codes "c") three ≡ some (s', true)) × Deleted (codes "c") three s'
delete-Deleted_example =
    Deletes.delete-Deleted three
      (node (codes "a") (codes "11") ∷ node (codes "b") (codes "2222") ∷ [])
      (node (codes "c") (codes "333")) [] three-IsValid refl (inr (λ e. cc, refl))

delete_faults_example : delete (codes "b") three ≡ none
delete_faults_example =
    Deletes.delete_faults three (node (codes "a") (codes "11") ∷ [])
      (node (codes "b") (codes "2222")) (node (codes "c") (codes "333") ∷ []) three-IsValid refl
      (inr (λ e. cc, λ e. cc))

abbrev after_delete : Lru
after_delete = record {
  max_size = 10;
  current_size = 3;
  nodes = node (codes "b") (codes "2222") ∷ [];
  index = codes "b" ∷ [];
}

abbrev nothing : Memory
nothing _ = none

init-IsValid : IsValid (init 10)
unfolding init find contains
init-IsValid = record { distinct = tt; synced = λ k. refl }

init-Serves : Serves (init 10) nothing
unfolding init find
init-Serves k n h = cc

abbrev calls : List Call
calls =
    put_call (codes "a") (codes "11")
    ∷ put_call (codes "b") (codes "2222")
    ∷ get_call (codes "a")
    ∷ delete_call (codes "b")
    ∷ []

abbrev final : Lru
final = record {
  max_size = 10;
  current_size = 5;
  nodes = node (codes "a") (codes "11") ∷ [];
  index = codes "a" ∷ [];
}

abbrev final_memory : Memory
final_memory =
    unfold note in
    note (delete_call (codes "b")) true (
      note (put_call (codes "b") (codes "2222")) true
        (note (put_call (codes "a") (codes "11")) true nothing))

run-Serves_example :
    IsValid final × (final.max_size ≡ (init 10).max_size) × Serves final final_memory
unfolding program
run-Serves_example =
    History.run-Serves calls (init 10) final nothing final_memory init-IsValid init-Serves refl
