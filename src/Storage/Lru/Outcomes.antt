-- ===== src/Storage/Lru/Outcomes.antt =====
-- SimpleLRU.cpp: what `Put`, `PutIfAbsent` and `Set` answer, and what can be read after them.
use bd_tarantul.Common.{
  is_some, ◌≡◌, refl, ap, subst, Bool, true, false, Option, none, some, arith, Bytes, bytes_eq,
  bytes_eq_refl, drop, Bool-cases, inl, inr, ◌⊎◌, not, ◌&&◌,
}
use bd_tarantul.Storage.Nodes.{Node, find, Distinct}
use bd_tarantul.Storage.Nodes.Fresh.{find-to_fresh_end}
use bd_tarantul.Storage.Lru.{
  Lru, insert_new_value, update_value, too_large, answer, put, put_if_absent, set,
}
use bd_tarantul.Storage.Lru.Evict.{IsValid}
use bd_tarantul.Storage.Lru.Stored.{
  Stored, drop-Distinct, find_in_drop, index_find-find, insert_new_value-Stored,
  update_value-Stored,
}

-- The answer of a storing operation: `false` with nothing changed, or `true` with the entry stored.
abbrev pub Outcome : Bytes → Bytes → Lru → Lru × Bool → Type 0
Outcome k v s (s', b) = ((b ≡ false) × (s' ≡ s)) ⊎ ((b ≡ true) × Stored k v s s')

answer-Stored :
    (k v : Bytes) (s s' : Lru) (b : Bool) (m : Option Lru)
    → ((s1 : Lru) → m ≡ some s1 → Stored k v s s1)
    → answer true m ≡ some (s', b)
    → (b ≡ true) × Outcome k v s (s', b)
answer-Stored k v s s' b none stores h = cc
answer-Stored k v s s' b (some s1) stores h =
    let e : s1 ≡ s' = ground arith in
    (ground arith, inr (ground arith, subst (Stored k v s) e (stores s1 refl)))

refused :
    (k v : Bytes) (s s' : Lru) (b : Bool)
    → answer false (some s) ≡ some (s', b)
    → (b ≡ false) × Outcome k v s (s', b)
refused k v s s' b h = (ground arith, inl (ground arith, ground arith))

module _ (k v : Bytes) (s s' : Lru) (b : Bool) (ok : IsValid s) where
  -- A `Put` that does not fault answers whether the entry fits the whole cache; one that does not
  -- leaves the store as it is, and any other is stored.
  pub put-Outcome : put k v s ≡ some (s', b) → (b ≡ not (too_large k v s)) × Outcome k v s (s', b)
  unfolding put
  put-Outcome h = elim (Bool-cases (too_large k v s)) [
    | inl large ↦ rw large (refused k v s s' b (rw large at h))
    | inr fits ↦ rw fits (found (find k s.nodes) refl (rw (fits, index_find-find k s ok) at h))
  ]
    where
      found :
          (o : Option Node)
          → find k s.nodes ≡ o
          → elim o [
            | none ↦ answer true (insert_new_value k v s)
            | some node ↦ answer true (update_value k v node s)
          ]
            ≡ some (s', b)
          → (b ≡ true) × Outcome k v s (s', b)
      found none e h = answer-Stored k v s s' b _ (λ s1. insert_new_value-Stored k v s s1 ok e) h
      found (some n) e h = answer-Stored k v s s' b _ (λ s1. update_value-Stored k v n s s1 ok) h

  -- `PutIfAbsent` stores exactly an entry that fits the whole cache and whose key is absent.
  pub put_if_absent-Outcome :
      put_if_absent k v s ≡ some (s', b)
      → (b ≡ (not (too_large k v s) && not (is_some (find k s.nodes)))) × Outcome k v s (s', b)
  unfolding put_if_absent
  put_if_absent-Outcome h = elim (Bool-cases (too_large k v s)) [
    | inl large ↦ rw large (refused k v s s' b (rw large at h))
    | inr fits ↦ rw fits (found (find k s.nodes) refl (rw (fits, index_find-find k s ok) at h))
  ]
    where
      found :
          (o : Option Node)
          → find k s.nodes ≡ o
          → elim o [
            | none ↦ answer true (insert_new_value k v s)
            | some node ↦ answer false (some s)
          ]
            ≡ some (s', b)
          → (b ≡ not (is_some (find k s.nodes))) × Outcome k v s (s', b)
      found none e h =
          rw e (answer-Stored k v s s' b _ (λ s1. insert_new_value-Stored k v s s1 ok e) h)
      found (some n) e h = rw e (refused k v s s' b h)

  -- `Set` stores exactly an entry that fits the whole cache and whose key is present.
  pub set-Outcome :
      set k v s ≡ some (s', b)
      → (b ≡ (not (too_large k v s) && is_some (find k s.nodes))) × Outcome k v s (s', b)
  unfolding set
  set-Outcome h = elim (Bool-cases (too_large k v s)) [
    | inl large ↦ rw large (refused k v s s' b (rw large at h))
    | inr fits ↦ rw fits (found (find k s.nodes) refl (rw (fits, index_find-find k s ok) at h))
  ]
    where
      found :
          (o : Option Node)
          → find k s.nodes ≡ o
          → elim o [
            | none ↦ answer false (some s)
            | some node ↦ answer true (update_value k v node s)
          ]
            ≡ some (s', b)
          → (b ≡ is_some (find k s.nodes)) × Outcome k v s (s', b)
      found none e h = rw e (refused k v s s' b h)
      found (some n) e h =
          rw e (answer-Stored k v s s' b _ (λ s1. update_value-Stored k v n s s1 ok) h)

-- After a store, the key reads as the value, and any other key reads as before or not at all.
pub Stored-find :
    (k v : Bytes) (s s' : Lru)
    → IsValid s
    → Stored k v s s'
    → (find k s'.nodes ≡ some (record { key = k; value = v }))
      × ((j : Bytes) (n : Node)
          → bytes_eq k j ≡ false
          → find j s'.nodes ≡ some n
          → find j s.nodes ≡ some n)
Stored-find k v s s' ok st = (
  rw (st.ordered, find-to_fresh_end k k v _ d, bytes_eq_refl k),
  λ j n ne h.
      find_in_drop j st.gone s.nodes n ok.distinct
        (ground (arith, ap (find j) st.ordered, find-to_fresh_end j k v (drop st.gone s.nodes) d)),
)
  where
    d : Distinct (drop st.gone s.nodes)
    d = drop-Distinct st.gone s.nodes ok.distinct
