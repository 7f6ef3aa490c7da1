-- ===== src/Storage/Lru/Stored.antt =====
-- SimpleLRU.cpp: what `Put`, `PutIfAbsent` and `Set` leave in the store, against the view of the
-- store as a list of entries ordered by use.
use bd_tarantul.Common.{
  is_some, ℕ, zero, suc, ◌≡◌, refl, ap, ◌∙◌, Bool, true, false, ◌||◌, Option, none, some, List, [],
  ◌∷◌, ◌++◌, arith, Bytes, bytes_eq, bytes_eq_iff, bytes_eq_refl, length, drop, if◌then◌else◌,
  Bool-cases, Option-cases, inl, inr, >>=-eq-some,
}
use bd_tarantul.Storage.Nodes.{
  Node, find, contains, Distinct, to_fresh_end, move_to_fresh_data, write_value,
}
use bd_tarantul.Storage.Nodes.Unlink.{unlink_absent, find-congr}
use bd_tarantul.Storage.Nodes.Fresh.{
  move_to_fresh_data-eq, find-write_value, unlink-write_value, write_value-Distinct,
  to_fresh_end-Distinct, find-to_fresh_end,
}
use bd_tarantul.Storage.Lru.{Lru, make_room, insert_new_value, update_value, index_find}
use bd_tarantul.Storage.Lru.Evict.{IsValid, Evicted, evict-Evicted}

-- The store after an entry is stored: entries have gone from the oldest end only, the entry stands
-- at the fresh end, and the others keep their order.
pub record Stored (k v : Bytes) (s s' : Lru) : Type 0 where
  pub max_kept : s'.max_size ≡ s.max_size
  pub gone : ℕ
  pub ordered : s'.nodes ≡ to_fresh_end k v (drop gone s.nodes)
  pub valid : IsValid s'

-- In a valid store the index leads to the node of the key, where there is one.
pub index_find-find : (k : Bytes) (s : Lru) → IsValid s → index_find k s ≡ some (find k s.nodes)
unfolding index_find
index_find-find k s v = elim (Option-cases (find k s.nodes)) [
  | inl absent ↦ rw (v.synced k, absent)
  | inr (n, found) ↦ rw (v.synced k, found)
]

contains-cons :
    (j k : Bytes) (is : List Bytes) → contains j (k ∷ is) ≡ (bytes_eq k j || contains j is)
unfolding contains
contains-cons j k is = refl

pub fresh-IsValid :
    (k v : Bytes) (s s' : Lru)
    → IsValid s
    → s'.nodes ≡ to_fresh_end k v s.nodes
    → ((j : Bytes) → contains j s'.index ≡ (bytes_eq k j || contains j s.index))
    → IsValid s'
fresh-IsValid k v s s' ok nodes index = record {
  distinct = rw nodes (to_fresh_end-Distinct k v s.nodes ok.distinct);
  synced = λ j.
      rw (index j, nodes, find-to_fresh_end j k v s.nodes ok.distinct, ok.synced j)
        (both (bytes_eq k j) (find j s.nodes));
}
  where
    both :
        (b : Bool) (o : Option Node)
        → (b || is_some o) ≡ is_some (if b then some (record { key = k; value = v }) else o)
    both true o = refl
    both false o = refl

find-drop : (k : Bytes) (n : ℕ) (ns : List Node) → find k ns ≡ none → find k (drop n ns) ≡ none
unfolding find
find-drop k zero ns h = h
find-drop k (suc n) [] h = refl
find-drop k (suc n) (m ∷ ns) h = find-drop k n ns (ground arith)

pub drop-Distinct : (n : ℕ) (ns : List Node) → Distinct ns → Distinct (drop n ns)
drop-Distinct zero ns d = d
drop-Distinct (suc n) [] d = d
drop-Distinct (suc n) (m ∷ ns) d = drop-Distinct n ns d.1

-- A key that is found after a drop was found before, at the same node.
pub find_in_drop :
    (j : Bytes) (i : ℕ) (ns : List Node) (n : Node)
    → Distinct ns
    → find j (drop i ns) ≡ some n
    → find j ns ≡ some n
unfolding find
find_in_drop j zero ns n d h = h
find_in_drop j (suc i) [] n d h = h
find_in_drop j (suc i) (m ∷ ns) n d h =
    let later = find_in_drop j i ns n d.1 h in
    ground (arith, later, bytes_eq_iff m.key j, d.0, find-congr m.key j ns)

Stored-after :
    (k v : Bytes) (over : ℕ → Bool) (s s1 s' : Lru)
    → Evicted over s s1
    → s'.max_size ≡ s1.max_size
    → s'.nodes ≡ to_fresh_end k v s1.nodes
    → ((j : Bytes) → contains j s'.index ≡ (bytes_eq k j || contains j s1.index))
    → Stored k v s s'
Stored-after k v over s s1 s' e max nodes index = record {
  max_kept = max ∙ e.max_kept;
  gone = e.gone;
  ordered = nodes ∙ ap (to_fresh_end k v) e.oldest;
  valid = fresh-IsValid k v s1 s' e.valid nodes index;
}

pub insert_new_value-Stored :
    (k v : Bytes) (s s' : Lru)
    → IsValid s
    → find k s.nodes ≡ none
    → insert_new_value k v s ≡ some s'
    → Stored k v s s'
unfolding insert_new_value
insert_new_value-Stored k v s s' ok absent h =
    let (s1, room, rest) = >>=-eq-some (make_room _ s) _ h in
    let e = evict-Evicted _ (length s.nodes) s s1 ok room in
    let gone : find k s1.nodes ≡ none = rw e.oldest (find-drop k e.gone s.nodes absent) in
    let nodes : s'.nodes ≡ s1.nodes ++ record { key = k; value = v } ∷ [] = ground arith in
    let index : s'.index ≡ k ∷ s1.index = ground arith in
    Stored-after k v _ s s1 s' e (ground arith) (nodes ∙ fresh_end s1.nodes gone)
      (λ j. ap (contains j) index ∙ contains-cons j k s1.index)
  where
    fresh_end :
        (ns : List Node)
        → find k ns ≡ none
        → ns ++ record { key = k; value = v } ∷ [] ≡ to_fresh_end k v ns
    fresh_end ns gone = unfold to_fresh_end in rw (unlink_absent k ns gone)

pub index_covers :
    (k : Bytes) (s : Lru) (n : Node)
    → IsValid s
    → find k s.nodes ≡ some n
    → (j : Bytes) → contains j s.index ≡ (bytes_eq k j || contains j s.index)
index_covers k s n ok found j = elim (Bool-cases (bytes_eq k j)) [
  | inl e ↦ rw (e, ok.synced j, ← (bytes_eq_iff k j).0 e, found)
  | inr e ↦ rw e
]

updated_nodes :
    (k v : Bytes) (ns : List Node) (n : Node)
    → Distinct ns
    → find k ns ≡ some n
    → move_to_fresh_data k v (write_value k v ns) ≡ to_fresh_end k v ns
updated_nodes k v ns n d found =
    move_to_fresh_data-eq k (write_value k v ns) (record n { value = v })
      (write_value-Distinct k v ns d)
      (ground (arith, find-write_value k k v ns, bytes_eq_refl k, found))
    ∙ unfold to_fresh_end in rw (unlink-write_value k v ns)

pub update_value-Stored :
    (k v : Bytes) (old : Node) (s s' : Lru)
    → IsValid s
    → update_value k v old s ≡ some s'
    → Stored k v s s'
unfolding update_value
update_value-Stored k v old s s' ok h =
    let (s1, room, rest) = >>=-eq-some (make_room _ s) _ h in
    let (n, found, rest') = >>=-eq-some (find k s1.nodes) _ rest in
    let e = evict-Evicted _ (length s.nodes) s s1 ok room in
    let nodes : s'.nodes ≡ move_to_fresh_data k v (write_value k v s1.nodes) = ground arith in
    let index : s'.index ≡ s1.index = ground arith in
    Stored-after k v _ s s1 s' e (ground arith)
      (nodes ∙ updated_nodes k v s1.nodes n e.valid.distinct found)
      (λ j. ap (contains j) index ∙ index_covers k s1 n e.valid found j)
