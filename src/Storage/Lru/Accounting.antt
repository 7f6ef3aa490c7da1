-- ===== src/Storage/Lru/Accounting.antt =====
-- SimpleLRU.cpp: whether `_current_size` is the size of the entries.
use bd_tarantul.Common.{
  ℕ, zero, suc, ◌+◌, ◌≤◌, ◌<◌, ◌^◌, ◌≡◌, ◌↔◌, refl, sym, ap, ◌∙◌, Bool, true, false, none, some,
  List, [], ◌∷◌, ◌++◌, arith, Bytes, length, ltb, le→ltb, sub64, add64, >>=-eq-some,
}
use bd_tarantul.Storage.Nodes.{Node, node_size, total_size, find, last, unlink}
use bd_tarantul.Storage.Nodes.Unlink.{total_size-unlink, total_size-append}
use bd_tarantul.Storage.Lru.{Lru, make_room, evict, insert_new_value, remove_node, delete, put}
use bd_tarantul.Storage.Lru.Evict.{IsValid, remove_node-Removed, remove_node-size}
use bd_tarantul.Storage.Lru.Stored.{index_find-find}
use bd_tarantul.Storage.Lru.Reads.{delete_present}

-- The size field is the size of the entries, and these fit the cache.
pub record IsCounted (s : Lru) : Type 0 where
  pub counted : s.current_size ≡ total_size s.nodes
  pub bounded : s.current_size ≤ s.max_size
  pub word : s.max_size < 2 ^ 64

no_eviction : (over : ℕ → Bool) (s : Lru) → over s.current_size ≡ false → make_room over s ≡ some s
no_eviction over s h = go (length s.nodes)
  where
    go : (f : ℕ) → evict over f s ≡ some s
    go zero = unfold evict in rw h
    go (suc f) = unfold evict in rw h

last_size : (ns : List Node) (t : Node) → last ns ≡ some t → node_size t ≤ total_size ns
unfolding last total_size
last_size [] t h = cc
last_size (n ∷ []) t h = ground arith
last_size (n ∷ m ∷ ns) t h = omega (arith, last_size (m ∷ ns) t h)

-- `Put` of a new key, where the entry fits beside the others: nothing is evicted, the entry is
-- appended and the count stays exact.
pub put_new-IsCounted :
    (k v : Bytes) (s : Lru)
    → IsValid s
    → IsCounted s
    → find k s.nodes ≡ none
    → total_size s.nodes + length k + length v ≤ s.max_size
    → (s' : Lru) × (put k v s ≡ some (s', true))
      × (s'.nodes ≡ s.nodes ++ record { key = k; value = v } ∷ [])
      × IsCounted s'
put_new-IsCounted k v s ok c absent fits = (
  appended,
  stored,
  refl,
  record {
    counted = omega (arith, c.counted, total_size-append s.nodes (n ∷ []), one n);
    bounded = omega (arith, c.counted);
    word = c.word;
  },
)
  where
    n : Node
    n = record { key = k; value = v }

    appended : Lru
    appended = record s {
      current_size = add64 s.current_size (add64 (length k) (length v));
      nodes = s.nodes ++ n ∷ [];
      index = k ∷ s.index;
    }

    one : (m : Node) → total_size (m ∷ []) ≡ node_size m
    one m = unfold total_size in omega arith

    large : ltb s.max_size (add64 (length k) (length v)) ≡ false
    large = le→ltb _ _ (omega arith)

    room : ltb (sub64 (sub64 s.max_size (length k)) (length v)) s.current_size ≡ false
    room = le→ltb _ _ (omega arith)

    stored : put k v s ≡ some (appended, true)
    stored =
        unfold put insert_new_value in
        rw (large, index_find-find k s ok, absent, no_eviction _ s room)

-- `Delete` takes the size of the freshest entry off the count, whichever entry goes: the count
-- stays exact exactly when the two entries have one size.
pub delete-IsCounted_iff :
    (k : Bytes) (s s' : Lru) (n t : Node) (b : Bool)
    → IsValid s
    → IsCounted s
    → find k s.nodes ≡ some n
    → last s.nodes ≡ some t
    → delete k s ≡ some (s', b)
    → (s'.current_size ≡ total_size s'.nodes) ↔ (node_size n ≡ node_size t)
delete-IsCounted_iff k s s' n t b ok c found tail h = (
  λ e.
      omega (arith, c.counted, left, total_size-unlink k s.nodes n found, last_size s.nodes t tail),
  λ e.
      omega (arith, c.counted, left, total_size-unlink k s.nodes n found, last_size s.nodes t tail),
)
  where
    left :
        (s'.current_size ≡ sub64 s.current_size (node_size t))
        × (total_size s'.nodes ≡ total_size (unlink k s.nodes))
    left =
        let (s1, removed, q) =
          >>=-eq-some (remove_node k s) (λ s1. some (s1, true)) {b = (s', b)}
            (sym (delete_present k s n ok found) ∙ h) in
        let e : s1 ≡ s' = ground arith in
        let r = remove_node-Removed k s s1 removed in
        (
          ap (λ (x : Lru). x.current_size) (sym e) ∙ remove_node-size k s s1 t tail removed,
          ap (λ (x : Lru). total_size x.nodes) (sym e) ∙ ap total_size r.nodes_left,
        )
