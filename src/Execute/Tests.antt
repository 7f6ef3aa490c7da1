-- ===== src/Execute/Tests.antt =====
-- Commands run over the store, and the theorems on their answers applied there.
use bd_tarantul.Common.{◌≡◌, refl, Bool, not, ◌&&◌, some, [], ◌∷◌, ◌++◌, bytes_eq, codes, is_some}
use bd_tarantul.Protocol.Command.{get_command}
use bd_tarantul.Storage.Implementation.{simple_lru, view}
use bd_tarantul.Storage.Nodes.{
  find, last, unlink, contains, erase, to_fresh_end, move_to_fresh_data, write_value,
}
use bd_tarantul.Storage.Lru.{
  Lru, remove_behind, remove_links, remove_node, remove_head, evict, insert_new_value, update_value,
  index_find, too_large, put, put_if_absent, set, delete, get,
}
use bd_tarantul.Execute.{execute}
use bd_tarantul.Execute.Replies
use bd_tarantul.Execute.Replies.{StoredIfFits}

program : Unit {0}
unfolding bytes_eq find last unlink contains erase to_fresh_end move_to_fresh_data write_value
    remove_behind remove_links remove_node remove_head evict insert_new_value update_value
    index_find put put_if_absent set delete get execute
program = tt

abbrev one : Lru
one = record {
  max_size = 10;
  current_size = 3;
  nodes = record { key = codes "a"; value = codes "11" } ∷ [];
  index = codes "a" ∷ [];
}

get_answer :
    execute simple_lru (get_command (codes "x" ∷ codes "a" ∷ [])) [] one
    ≡ some (one, codes "VALUE a 0 2" ++ 13 ∷ 10 ∷ (codes "11" ++ 13 ∷ 10 ∷ codes "END"))
unfolding program
get_answer = refl

abbrev taken : Bool
taken = not (too_large (codes "a") (codes "9") one) && not (is_some (view one (codes "a")))

abbrev longer : Lru
longer = record one {
  current_size = 5;
  nodes = record { key = codes "a"; value = codes "1134" } ∷ [];
}
