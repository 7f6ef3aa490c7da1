-- ===== src/Storage/Nodes/Position.antt =====
-- Lookups of a node of which the place in the list is known.
use bd_tarantul.Common.{
  ◌≡◌, ◌∙◌, false, none, some, List, [], ◌∷◌, ◌++◌, Bytes, bytes_eq, bytes_eq_refl, bytes_eq_sym,
  arith, Option-cases, inl, inr,
}
use bd_tarantul.Storage.Nodes.{Node, find, Distinct}

find-middle :
    (j : Bytes) (xs : List Node) (n : Node) (ys : List Node)
    → find j (xs ++ n ∷ ys) ≡ none
    → bytes_eq n.key j ≡ false
unfolding find
find-middle j [] n ys h = ground arith
find-middle j (x ∷ xs) n ys h = find-middle j xs n ys (ground arith)

-- In a list without doubles no node before `n` has the key of `n`.
pub other_key :
    (x : Node) (xs : List Node) (n : Node) (ys : List Node)
    → Distinct (x ∷ xs ++ n ∷ ys)
    → bytes_eq x.key n.key ≡ false
other_key x xs n ys d = bytes_eq_sym x.key n.key ∙ find-middle x.key xs n ys d.0

pub find-there :
    (xs : List Node) (n : Node) (ys : List Node) → (m : Node) × (find n.key (xs ++ n ∷ ys) ≡ some m)
find-there xs n ys = elim (Option-cases (find n.key (xs ++ n ∷ ys))) [
  | inl absent ↦ cc (find-middle n.key xs n ys absent, bytes_eq_refl n.key)
  | inr found ↦ found
]
