-- ===== src/Storage/Nodes/Fresh.antt =====
-- Moving a node to the fresh end of the list, and writing its value.
use bd_tarantul.Common.{
  is_some, ◌≡◌, refl, sym, ap, ◌∙◌, true, none, some, List, [], ◌∷◌, ◌++◌, arith, Bytes, bytes_eq,
  bytes_eq_iff, bytes_eq_refl, if◌then◌else◌, Bool-cases, inl, inr,
}
use bd_tarantul.Storage.Nodes.{
  Node, find, last, unlink, to_fresh_end, move_to_fresh_data, write_value, Distinct,
}
use bd_tarantul.Storage.Nodes.Unlink.{
  find-congr, find-unlink, find-unlink_self, unlink-Distinct, find-append, append-Distinct,
}

-- The last node is found under its key.
pub find-last-ne-none :
    (ns : List Node) (n : Node) → last ns ≡ some n → is_some (find n.key ns) ≡ true
unfolding last find
find-last-ne-none [] n h = cc
find-last-ne-none (m ∷ []) n h = ground (arith, bytes_eq_refl n.key)
find-last-ne-none (m ∷ m' ∷ ns) n h = ground (arith, find-last-ne-none (m' ∷ ns) n h)

pub last_of_ne : (n : Node) (ns : List Node) → (t : Node) × (last (n ∷ ns) ≡ some t)
unfolding last
last_of_ne n [] = (n, refl)
last_of_ne n (m ∷ ns) = last_of_ne m ns

not-found_twice :
    (j k : Bytes) (ns : List Node)
    → bytes_eq j k ≡ true
    → find j ns ≡ none
    → is_some (find k ns) ≡ true
    → ⊥
not-found_twice j k ns e absent found = cc (find-congr j k ns e)

-- A node that is last, and once only, is back in its place after it is moved to the end.
unlink-last :
    (k : Bytes) (ns : List Node) (n : Node)
    → Distinct ns
    → last ns ≡ some n
    → n.key ≡ k
    → unlink k ns ++ n ∷ [] ≡ ns
unfolding last unlink find
unlink-last k [] n d h e = cc
unlink-last k (m ∷ []) n d h e = ground (arith, bytes_eq_refl k)
unlink-last k (m ∷ m' ∷ ns) n d h e = elim (Bool-cases (bytes_eq m.key k)) [
  | inl same ↦
      let q : bytes_eq m.key n.key ≡ true =
        (bytes_eq_iff m.key n.key).1 ((bytes_eq_iff m.key k).0 same ∙ sym e) in
      absurd (not-found_twice m.key n.key (m' ∷ ns) q d.0 (find-last-ne-none (m' ∷ ns) n h))
  | inr ne ↦ rw ne (ap (◌∷◌ m) (unlink-last k (m' ∷ ns) n d.1 h e))
]

find-last-Distinct :
    (ns : List Node) (t : Node) → Distinct ns → last ns ≡ some t → find t.key ns ≡ some t
unfolding last find
find-last-Distinct [] t d h = cc
find-last-Distinct (m ∷ []) t d h = ground (arith, bytes_eq_refl t.key)
find-last-Distinct (m ∷ m' ∷ ns) t d h = elim (Bool-cases (bytes_eq m.key t.key)) [
  | inl same ↦
      absurd (not-found_twice m.key t.key (m' ∷ ns) same d.0 (find-last-ne-none (m' ∷ ns) t h))
  | inr ne ↦ rw ne (find-last-Distinct (m' ∷ ns) t d.1 h)
]

move_to_fresh_data-last :
    (k v : Bytes) (ns : List Node) (t : Node)
    → last ns ≡ some t
    → move_to_fresh_data k v ns ≡ (if bytes_eq t.key k then ns else to_fresh_end k v ns)
unfolding move_to_fresh_data
move_to_fresh_data-last k v ns t h = ground arith

not-find-nil : (k : Bytes) (n : Node) → find k [] ≡ some n → ⊥
unfolding find
not-find-nil k n h = cc

-- The node that is moved, with its value, stands at the fresh end, and the other nodes keep their
-- order: also where it stood there before.
pub move_to_fresh_data-eq :
    (k : Bytes) (ns : List Node) (n : Node)
    → Distinct ns
    → find k ns ≡ some n
    → move_to_fresh_data k n.value ns ≡ to_fresh_end k n.value ns
unfolding move_to_fresh_data to_fresh_end
move_to_fresh_data-eq k [] n d h = absurd (not-find-nil k n h)
move_to_fresh_data-eq k (m ∷ ns) n d h =
    let (t, tail) = last_of_ne m ns in
    elim (Bool-cases (bytes_eq t.key k)) [
      | inl same ↦
          let e : t.key ≡ k = (bytes_eq_iff t.key k).0 same in
          let q : t ≡ n = t-eq t tail e in
          rw (move_to_fresh_data-last k n.value (m ∷ ns) t tail, same)
            (sym (stays t q e (unlink-last k (m ∷ ns) t d tail e)))
      | inr other ↦ rw (move_to_fresh_data-last k n.value (m ∷ ns) t tail, other)
    ]
  where
    t-eq : (t : Node) → last (m ∷ ns) ≡ some t → t.key ≡ k → t ≡ n
    t-eq t tail e =
        ground (arith, ap (λ x. find x (m ∷ ns)) e, find-last-Distinct (m ∷ ns) t d tail, h)

    stays :
        (t : Node)
        → t ≡ n
        → t.key ≡ k
        → unlink k (m ∷ ns) ++ t ∷ [] ≡ m ∷ ns
        → to_fresh_end k n.value (m ∷ ns) ≡ m ∷ ns
    stays t q e h' = let r : t ≡ record { key = k; value = n.value } = ground arith in rw r at h'

pub find-write_value :
    (j k v : Bytes) (ns : List Node)
    → find j (write_value k v ns) ≡ elim (find j ns) [
      | none ↦ none
      | some n ↦ some (if bytes_eq k j then record n { value = v } else n)
    ]
unfolding find write_value
find-write_value j k v [] = refl
find-write_value j k v (n ∷ ns) =
    ground (
      arith,
      bytes_eq_iff n.key k,
      bytes_eq_iff n.key j,
      bytes_eq_iff k j,
      find-write_value j k v ns,
    )

pub unlink-write_value :
    (k v : Bytes) (ns : List Node) → unlink k (write_value k v ns) ≡ unlink k ns
unfolding unlink write_value
unlink-write_value k v [] = refl
unlink-write_value k v (n ∷ ns) = ground (arith, unlink-write_value k v ns)

pub write_value-Distinct :
    (k v : Bytes) (ns : List Node) → Distinct ns → Distinct (write_value k v ns)
unfolding write_value
write_value-Distinct k v [] d = tt
write_value-Distinct k v (n ∷ ns) d = elim (Bool-cases (bytes_eq n.key k)) [
  | inl e ↦ rw e d
  | inr e ↦
      rw e (ground (arith, find-write_value n.key k v ns, d.0), write_value-Distinct k v ns d.1)
]

-- The list after a move has every key once, and answers each lookup with the moved node or as
-- before.
pub to_fresh_end-Distinct :
    (k v : Bytes) (ns : List Node) → Distinct ns → Distinct (to_fresh_end k v ns)
unfolding to_fresh_end
to_fresh_end-Distinct k v ns d =
    append-Distinct (unlink k ns) (record { key = k; value = v }) (unlink-Distinct k ns d)
      (find-unlink_self k ns d)

pub find-to_fresh_end :
    (j k v : Bytes) (ns : List Node)
    → Distinct ns
    → find j (to_fresh_end k v ns)
      ≡ (if bytes_eq k j then some (record { key = k; value = v }) else find j ns)
unfolding to_fresh_end find
find-to_fresh_end j k v ns d =
    ground (
      arith,
      find-append j (unlink k ns) (record { key = k; value = v } ∷ []),
      find-unlink j k ns d,
    )
