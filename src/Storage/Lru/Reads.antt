-- ===== src/Storage/Lru/Reads.antt =====
-- SimpleLRU.cpp: `Get` and `Delete` on a valid store.
use bd_tarantul.Common.{
  is_some, ◌≡◌, refl, sym, ap, subst, >>=-eq-some, ◌∙◌, Bool, true, false, Option, none, some,
  arith, Bytes, bytes_eq, bytes_eq_iff, if◌then◌else◌, Bool-cases, Option-cases, inl, inr, ◌>>=◌,
}
use bd_tarantul.Storage.Nodes.{Node, find, unlink, to_fresh_end}
use bd_tarantul.Storage.Nodes.Unlink.{find-unlink, unlink_absent}
use bd_tarantul.Storage.Nodes.Fresh.{move_to_fresh_data-eq, find-to_fresh_end}
use bd_tarantul.Storage.Lru.{Lru, answer, remove_node, delete, get}
use bd_tarantul.Storage.Lru.Evict.{IsValid, Removed, remove_node-Removed, Removed-IsValid}
use bd_tarantul.Storage.Lru.Stored.{index_find-find, fresh-IsValid, index_covers}

-- The store after a `Get`: a hit goes to the fresh end, a miss changes nothing.
unfoldable pub after_get : Bytes → Lru → Lru
after_get k s = elim (find k s.nodes) [
  | none ↦ s
  | some n ↦ record s { nodes = to_fresh_end k n.value s.nodes }
]

abbrev pub value_of : Option Node → Option Bytes
value_of none = none
value_of (some n) = some n.value

-- `Get` never faults. It reads the value of the key, makes a hit the freshest entry, and keeps the
-- sizes, the validity and what every lookup finds.
pub get-reads :
    (k : Bytes) (s : Lru) → IsValid s → get k s ≡ some (after_get k s, value_of (find k s.nodes))
unfolding get after_get
get-reads k s v = elim (Option-cases (find k s.nodes)) [
  | inl absent ↦ rw (index_find-find k s v, absent, after_get)
  | inr (n, found) ↦
      rw (
        index_find-find k s v,
        found,
        move_to_fresh_data-eq k s.nodes n v.distinct found,
        after_get,
      )
]

pub after_get-IsValid : (k : Bytes) (s : Lru) → IsValid s → IsValid (after_get k s)
unfolding after_get
after_get-IsValid k s v = elim (Option-cases (find k s.nodes)) [
  | inl absent ↦ rw (absent, after_get) v
  | inr (n, found) ↦
      rw (found, after_get)
        (fresh-IsValid k n.value s (record s { nodes = to_fresh_end k n.value s.nodes }) v refl
          (index_covers k s n v found))
]

pub find-after_get :
    (j k : Bytes) (s : Lru)
    → IsValid s
    → value_of (find j (after_get k s).nodes) ≡ value_of (find j s.nodes)
unfolding after_get
find-after_get j k s v = elim (Option-cases (find k s.nodes)) [
  | inl absent ↦ rw (absent, after_get)
  | inr (n, found) ↦
      rw (found, after_get) (rw (find-to_fresh_end j k n.value s.nodes v.distinct) (same n found))
]
  where
    same :
        (n : Node)
        → find k s.nodes ≡ some n
        → value_of
            (if bytes_eq k j then some (record { key = k; value = n.value }) else find j s.nodes)
          ≡ value_of (find j s.nodes)
    same n found = elim (Bool-cases (bytes_eq k j)) [
      | inl e ↦ rw (e, ← (bytes_eq_iff k j).0 e, found)
      | inr e ↦ rw e
    ]

pub max_size-after_get : (k : Bytes) (s : Lru) → (after_get k s).max_size ≡ s.max_size
unfolding after_get
max_size-after_get k s = ground arith

-- `Delete` of an absent key answers `false` and changes nothing.
delete_absent :
    (k : Bytes) (s : Lru) → IsValid s → find k s.nodes ≡ none → delete k s ≡ some (s, false)
unfolding delete
delete_absent k s v absent = rw (index_find-find k s v, absent)

pub delete_present :
    (k : Bytes) (s : Lru) (n : Node)
    → IsValid s
    → find k s.nodes ≡ some n
    → delete k s ≡ (remove_node k s >>= λ s'. some (s', true))
unfolding delete
delete_present k s n v found = rw (index_find-find k s v, found)

-- The store without the entry: every other key reads as before.
pub record Deleted (k : Bytes) (s s' : Lru) : Type 0 where
  pub nodes_left : s'.nodes ≡ unlink k s.nodes
  pub valid : IsValid s'
  pub unread : (j : Bytes) → find j s'.nodes ≡ (if bytes_eq k j then none else find j s.nodes)

pub Removed-Deleted : (k : Bytes) (s s' : Lru) → IsValid s → Removed k s s' → Deleted k s s'
Removed-Deleted k s s' v r = record {
  nodes_left = r.nodes_left;
  valid = Removed-IsValid k s s' r v;
  unread = λ j. rw r.nodes_left (find-unlink j k s.nodes v.distinct);
}

absent-Deleted : (k : Bytes) (s : Lru) → IsValid s → find k s.nodes ≡ none → Deleted k s s
absent-Deleted k s v absent = record {
  nodes_left = sym (unlink_absent k s.nodes absent);
  valid = v;
  unread =
      λ j. ap (find j) (sym (unlink_absent k s.nodes absent)) ∙ find-unlink j k s.nodes v.distinct;
}

-- A `Delete` that does not fault has done what it promises.
pub delete_some-Deleted :
    (k : Bytes) (s s' : Lru) (b : Bool)
    → IsValid s
    → delete k s ≡ some (s', b)
    → Deleted k s s' × (s'.max_size ≡ s.max_size) × (b ≡ is_some (find k s.nodes))
delete_some-Deleted k s s' b v h = elim (Option-cases (find k s.nodes)) [
  | inl absent ↦
      let q : answer false (some s) ≡ some (s', b) = sym (delete_absent k s v absent) ∙ h in
      let e : s ≡ s' = ground arith in
      (subst (Deleted k s) e (absent-Deleted k s v absent), ground arith, rw absent (ground arith))
  | inr (n, found) ↦
      let (s1, removed, q) =
        >>=-eq-some (remove_node k s) (λ s1. some (s1, true)) {b = (s', b)}
          (sym (delete_present k s n v found) ∙ h) in
      let e : s1 ≡ s' = ground arith in
      let r = remove_node-Removed k s s1 removed in
      (
        subst (Deleted k s) e (Removed-Deleted k s s1 v r),
        ap (λ (x : Lru). x.max_size) (sym e) ∙ r.max_kept,
        rw found (ground arith),
      )
]
