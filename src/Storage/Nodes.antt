-- ===== src/Storage/Nodes.antt =====
-- SimpleLRU.h: the nodes of the store as a list, the node at the head of the source's list first,
-- and the keys of `_lru_index`.
pub mod Unlink
pub mod Fresh
pub mod Position
use bd_tarantul.Common.{
  ℕ, ◌+◌, ◌≡◌, Bool, true, false, ◌||◌, Option, none, some, List, [], ◌∷◌, ◌++◌, Bytes, bytes_eq,
  length, if◌then◌else◌,
}

-- `lru_node`: the links `next` and `prev` are the neighbours in the list of nodes.
pub record Node : Type 0 where
  pub key : Bytes
  pub value : Bytes

abbrev pub node_size : Node → ℕ
node_size n = length n.key + length n.value

abbrev pub keys : List Node → List Bytes
keys [] = []
keys (n ∷ ns) = n.key ∷ keys ns

unfoldable pub total_size : List Node → ℕ
total_size [] = 0
total_size (n ∷ ns) = node_size n + total_size ns

-- `_lru_index.find`, as the node that the reference under the key names.
unfoldable pub find : Bytes → List Node → Option Node
find k [] = none
find k (n ∷ ns) = if bytes_eq n.key k then some n else find k ns

-- The node that `_lru_tail` points to; the null pointer where there is none.
unfoldable pub last : List Node → Option Node
last [] = none
last (n ∷ []) = some n
last (n ∷ m ∷ ns) = last (m ∷ ns)

-- The list without the node of the key: the neighbours of the node are linked to each other.
unfoldable pub unlink : Bytes → List Node → List Node
unlink k [] = []
unlink k (n ∷ ns) = if bytes_eq n.key k then ns else n ∷ unlink k ns

-- The list after the node of key `k` has gone to the fresh end, with the value `v`.
unfoldable pub to_fresh_end : Bytes → Bytes → List Node → List Node
unfolding unlink
to_fresh_end k v ns = unlink k ns ++ record { key = k; value = v } ∷ []

-- `_move_to_fresh_data` on the node of key `k`, whose value is `v`.
unfoldable pub move_to_fresh_data : Bytes → Bytes → List Node → List Node
move_to_fresh_data k v ns = elim (last ns) [
  | none ↦ ns
  | some tail ↦ if bytes_eq tail.key k then ns else to_fresh_end k v ns
]

-- Writes a value into the node of key `k`.
unfoldable pub write_value : Bytes → Bytes → List Node → List Node
write_value k v [] = []
write_value k v (n ∷ ns) =
    if bytes_eq n.key k then record n { value = v } ∷ ns else n ∷ write_value k v ns

unfoldable pub contains : Bytes → List Bytes → Bool
contains k [] = false
contains k (j ∷ js) = bytes_eq j k || contains k js

-- `_lru_index.erase`
unfoldable pub erase : Bytes → List Bytes → List Bytes
erase k [] = []
erase k (j ∷ js) = if bytes_eq j k then erase k js else j ∷ erase k js

-- No key has two nodes.
abbrev pub Distinct : List Node → Type 0
Distinct [] = Unit {0}
Distinct (n ∷ ns) = (find n.key ns ≡ none) × Distinct ns
