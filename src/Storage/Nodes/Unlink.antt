-- ===== src/Storage/Nodes/Unlink.antt =====
-- What unlinking a node does to the lookups, the lengths and the sizes of the list.
use bd_tarantul.Common.{
  ◌+◌, ◌≡◌, refl, ap, ◌∙◌, true, false, none, some, List, [], ◌∷◌, ◌++◌, arith, Bytes, bytes_eq,
  bytes_eq_iff, bytes_eq_refl, bytes_eq_sym, if◌then◌else◌, Bool-cases, inl, inr,
}
use bd_tarantul.Storage.Nodes.{Node, node_size, total_size, find, unlink, contains, erase, Distinct}

pub find-key : (k : Bytes) (ns : List Node) (n : Node) → find k ns ≡ some n → n.key ≡ k
unfolding find
find-key k [] n h = cc
find-key k (m ∷ ns) n h = ground (arith, bytes_eq_iff m.key k, find-key k ns n)

-- Equal keys are found alike.
pub find-congr : (j k : Bytes) (ns : List Node) → bytes_eq j k ≡ true → find j ns ≡ find k ns
find-congr j k ns h = ap (λ x. find x ns) ((bytes_eq_iff j k).0 h)

pub find-unlink_ne :
    (j k : Bytes) (ns : List Node) → bytes_eq k j ≡ false → find j (unlink k ns) ≡ find j ns
unfolding find unlink
find-unlink_ne j k [] h = refl
find-unlink_ne j k (n ∷ ns) h =
    ground (arith, bytes_eq_iff n.key k, bytes_eq_iff n.key j, find-unlink_ne j k ns h)

pub find-unlink_self : (k : Bytes) (ns : List Node) → Distinct ns → find k (unlink k ns) ≡ none
unfolding find unlink
find-unlink_self k [] d = refl
find-unlink_self k (n ∷ ns) d =
    ground (arith, bytes_eq_iff n.key k, find-congr n.key k ns, find-unlink_self k ns d.1)

-- A lookup after an unlink, at every key.
pub find-unlink :
    (j k : Bytes) (ns : List Node)
    → Distinct ns
    → find j (unlink k ns) ≡ (if bytes_eq k j then none else find j ns)
find-unlink j k ns d = elim (Bool-cases (bytes_eq k j)) [
  | inl e ↦ rw (e, ← (bytes_eq_iff k j).0 e) (find-unlink_self k ns d)
  | inr e ↦ rw e (find-unlink_ne j k ns e)
]

pub unlink-Distinct : (k : Bytes) (ns : List Node) → Distinct ns → Distinct (unlink k ns)
unfolding unlink
unlink-Distinct k [] d = tt
unlink-Distinct k (n ∷ ns) d = elim (Bool-cases (bytes_eq n.key k)) [
  | inl e ↦ rw e d.1
  | inr e ↦
      rw e (find-unlink_ne n.key k ns (bytes_eq_sym k n.key ∙ e) ∙ d.0, unlink-Distinct k ns d.1)
]

pub unlink_absent : (k : Bytes) (ns : List Node) → find k ns ≡ none → unlink k ns ≡ ns
unfolding find unlink
unlink_absent k [] h = refl
unlink_absent k (n ∷ ns) h = ground (arith, unlink_absent k ns)

pub find-append :
    (j : Bytes) (ns ms : List Node)
    → find j (ns ++ ms) ≡ elim (find j ns) [ none ↦ find j ms | some n ↦ some n ]
unfolding find
find-append j [] ms = refl
find-append j (n ∷ ns) ms = ground (arith, find-append j ns ms)

pub append-Distinct :
    (ns : List Node) (m : Node) → Distinct ns → find m.key ns ≡ none → Distinct (ns ++ m ∷ [])
unfolding find
append-Distinct [] m d h = (refl, tt)
append-Distinct (n ∷ ns) m d h = (
  ground (arith, find-append n.key ns (m ∷ []), d.0, bytes_eq_sym n.key m.key),
  append-Distinct ns m d.1 (ground arith),
)

pub total_size-unlink :
    (k : Bytes) (ns : List Node) (n : Node)
    → find k ns ≡ some n
    → total_size (unlink k ns) + node_size n ≡ total_size ns
unfolding find unlink total_size
total_size-unlink k [] n h = cc
total_size-unlink k (m ∷ ns) n h = ground (arith, total_size-unlink k ns n)

pub total_size-append : (ns ms : List Node) → total_size (ns ++ ms) ≡ total_size ns + total_size ms
unfolding total_size
total_size-append [] ms = omega arith
total_size-append (n ∷ ns) ms = omega (arith, total_size-append ns ms)

pub contains-erase :
    (j k : Bytes) (is : List Bytes)
    → contains j (erase k is) ≡ (if bytes_eq k j then false else contains j is)
unfolding contains erase
contains-erase j k [] = ground arith
contains-erase j k (i ∷ is) = ground (
  arith,
  bytes_eq_iff i k,
  bytes_eq_iff k j,
  bytes_eq_iff i j,
  bytes_eq_refl j,
  contains-erase j k is,
)
