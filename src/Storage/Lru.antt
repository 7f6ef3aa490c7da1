-- ===== src/Storage/Lru.antt =====
-- SimpleLRU.cpp: the operations of `SimpleLRU`. A step that reads through a null or a dangling
-- pointer is undefined behaviour, and returns `none`.
pub mod Evict
pub mod Stored
pub mod Outcomes
pub mod Reads
pub mod Deletes
pub mod Accounting
use bd_tarantul.Common.{
  ℕ, zero, suc, Bool, true, false, Option, none, some, List, [], ◌∷◌, ◌++◌, Bytes, bytes_eq, length,
  ltb, if◌then◌else◌, add64, sub64, ◌>>=◌,
}
use bd_tarantul.Storage.Nodes.{
  node_size, Node, find, last, move_to_fresh_data, write_value, contains, erase,
}

pub record Lru : Type 0 where
  pub max_size : ℕ
  pub current_size : ℕ
  pub nodes : List Node
  pub index : List Bytes

unfoldable pub init : ℕ → Lru
init max_size = record { max_size = max_size; current_size = 0; nodes = []; index = [] }

-- A write through a `unique_ptr`, given as the nodes that it owns: `none` where it is null.
abbrev pub write_through : List Node → Option (Unit {0})
write_through [] = none
write_through (_ ∷ _) = some tt

-- `a.swap(b)` on two of them.
abbrev pub swap_links : List Node × List Node → List Node × List Node
swap_links (a, b) = (b, a)

-- `_lru_head` once the head is taken out: `tmp.swap(_lru_head)` and `_lru_head.swap(tmp->next)`, where
-- `next` is what the head's `next` owns; then `_lru_head->prev` is written.
abbrev pub remove_first : List Node → Option (List Node)
remove_first next = let links = swap_links ([], next) in write_through links.0 >>= λ _. some links.0

-- `node_to_delete.prev->next` once a node between two others is taken out: `tmp.swap` of it leaves
-- it null, it is swapped with `tmp->next`, and then `tmp->next->prev` is written.
abbrev pub remove_middle : List Node → Option (List Node)
remove_middle next =
    let links = swap_links ([], next) in write_through links.1 >>= λ _. some links.0

-- The nodes behind the head, without the one of key `k`: the tail is reset.
unfoldable pub remove_behind : Bytes → List Node → Option (List Node)
remove_behind k [] = none
remove_behind k (n ∷ []) = if bytes_eq n.key k then some [] else none
remove_behind k (n ∷ m ∷ ns) =
    let rest = remove_behind k (m ∷ ns) >>= λ ms. some (n ∷ ms) in
    if bytes_eq n.key k then remove_middle (m ∷ ns) else rest

-- The links after the node of key `k` is taken out.
unfoldable pub remove_links : Bytes → List Node → Option (List Node)
unfolding remove_behind
remove_links k [] = none
remove_links k (n ∷ ns) =
    if bytes_eq n.key k then remove_first ns else (remove_behind k ns >>= λ ms. some (n ∷ ms))

-- `_remove_node`: the size that is subtracted is that of the tail.
unfoldable pub remove_node : Bytes → Lru → Option Lru
unfolding remove_links last
remove_node k s = do
  tail ← last s.nodes
  nodes ← remove_links k s.nodes
  some (record s {
    current_size = sub64 s.current_size (node_size tail);
    nodes = nodes;
    index = erase k s.index;
  })

-- `_remove_node(*_lru_head)`
unfoldable pub remove_head : Lru → List Node → Option Lru
remove_head s [] = none
remove_head s (n ∷ _) = remove_node n.key s

-- `while (over(_current_size)) _remove_node(*_lru_head);`, with the number of nodes as fuel: each
-- round takes one node out, and a round with no node reads the null head.
unfoldable pub evict : (ℕ → Bool) → ℕ → Lru → Option Lru
evict over zero s = if over s.current_size then none else some s
evict over (suc f) s =
    let rest = remove_head s s.nodes >>= evict over f in
    if over s.current_size then rest else some s

abbrev pub make_room : (ℕ → Bool) → Lru → Option Lru
make_room over s = evict over (length s.nodes) s

-- `_insert_new_value`
unfoldable pub insert_new_value : Bytes → Bytes → Lru → Option Lru
insert_new_value key value s = do
  s' ← make_room (ltb (sub64 (sub64 s.max_size (length key)) (length value))) s
  some (record s' {
    current_size = add64 s'.current_size (add64 (length key) (length value));
    nodes = s'.nodes ++ record { key = key; value = value } ∷ [];
    index = key ∷ s'.index;
  })

-- `_update_value` on the node of key `k`. The loop may take that node itself out, and the code
-- then writes to freed memory.
unfoldable pub update_value : Bytes → Bytes → Node → Lru → Option Lru
update_value k v old s = do
  let delta = sub64 (length v) (length old.value)
  s' ← make_room (λ c. ltb s.max_size (add64 c delta)) s
  node ← find k s'.nodes
  some (record s' {
    current_size = add64 s'.current_size delta;
    nodes = move_to_fresh_data k v (write_value k v s'.nodes);
  })

-- `_lru_index.find`: a key that the index holds leads to its node.
unfoldable pub index_find : Bytes → Lru → Option (Option Node)
index_find k s = if contains k s.index then (do n ← find k s.nodes; some (some n)) else some none

abbrev pub too_large : Bytes → Bytes → Lru → Bool
too_large key value s = ltb s.max_size (add64 (length key) (length value))

abbrev pub answer : Bool → Option Lru → Option (Lru × Bool)
answer b m = m >>= λ s. some (s, b)

unfoldable pub put : Bytes → Bytes → Lru → Option (Lru × Bool)
put key value s =
    if too_large key value s
    then some (s, false)
    else (index_find key s >>= λ it. elim it [
      | none ↦ answer true (insert_new_value key value s)
      | some node ↦ answer true (update_value key value node s)
    ])

unfoldable pub put_if_absent : Bytes → Bytes → Lru → Option (Lru × Bool)
put_if_absent key value s =
    if too_large key value s
    then some (s, false)
    else (index_find key s >>= λ it. elim it [
      | none ↦ answer true (insert_new_value key value s)
      | some node ↦ some (s, false)
    ])

unfoldable pub set : Bytes → Bytes → Lru → Option (Lru × Bool)
set key value s =
    if too_large key value s
    then some (s, false)
    else (index_find key s >>= λ it. elim it [
      | none ↦ some (s, false)
      | some node ↦ answer true (update_value key value node s)
    ])

unfoldable pub delete : Bytes → Lru → Option (Lru × Bool)
delete key s = index_find key s >>= λ it. elim it [
  | none ↦ some (s, false)
  | some node ↦ answer true (remove_node key s)
]

-- The value read, where the key is found: `none` leaves the caller's string alone.
unfoldable pub get : Bytes → Lru → Option (Lru × Option Bytes)
get key s = index_find key s >>= λ it. elim it [
  | none ↦ some (s, none)
  | some node ↦
      some (record s { nodes = move_to_fresh_data key node.value s.nodes }, some node.value)
]
