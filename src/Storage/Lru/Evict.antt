-- ===== src/Storage/Lru/Evict.antt =====
-- SimpleLRU.cpp: what `_remove_node` and the eviction loops keep.
use bd_tarantul.Common.{
  is_some, ℕ, zero, suc, ◌≡◌, refl, sym, ap, subst, ◌∙◌, Bool, true, false, Option, none, some,
  List, [], ◌∷◌, arith, Bytes, bytes_eq, bytes_eq_refl, length, drop, if◌then◌else◌, Bool-cases,
  Option-cases, inl, inr, sub64, ◌>>=◌, >>=-eq-some,
}
use bd_tarantul.Storage.Nodes.{Node, node_size, find, last, unlink, contains, erase, Distinct}
use bd_tarantul.Storage.Nodes.Unlink.{find-unlink, unlink-Distinct, contains-erase}
use bd_tarantul.Storage.Nodes.Fresh.{last_of_ne}
use bd_tarantul.Storage.Lru.{
  Lru, remove_behind, remove_links, remove_node, remove_head, evict, make_room,
}

-- No key has two nodes, and the index holds the keys of the nodes and no other.
pub record IsValid (s : Lru) : Type 0 where
  pub distinct : Distinct s.nodes
  pub synced : (k : Bytes) → contains k s.index ≡ is_some (find k s.nodes)

remove_behind-unlink :
    (k : Bytes) (ns ms : List Node) → remove_behind k ns ≡ some ms → ms ≡ unlink k ns
unfolding remove_behind unlink
remove_behind-unlink k [] ms h = cc
remove_behind-unlink k (n ∷ []) ms h = ground arith
remove_behind-unlink k (n ∷ m ∷ ns) ms h = elim (Bool-cases (bytes_eq n.key k)) [
  | inl e ↦ cc (rw e at h)
  | inr e ↦
      let (ls, rest, q) = >>=-eq-some (remove_behind k (m ∷ ns)) _ (rw e at h) in
      let r = remove_behind-unlink k (m ∷ ns) ls rest in rw e (ground (arith, r, q))
]

remove_links-unlink :
    (k : Bytes) (ns ms : List Node) → remove_links k ns ≡ some ms → ms ≡ unlink k ns
unfolding remove_links unlink
remove_links-unlink k [] ms h = cc
remove_links-unlink k (n ∷ []) ms h = ground arith
remove_links-unlink k (n ∷ m ∷ ns) ms h = elim (Bool-cases (bytes_eq n.key k)) [
  | inl e ↦ ground (arith, e, h)
  | inr e ↦
      let (ls, rest, q) = >>=-eq-some (remove_behind k (m ∷ ns)) _ (rw e at h) in
      let r = remove_behind-unlink k (m ∷ ns) ls rest in rw e (ground (arith, r, q))
]

-- What is left after a removal, where it does not fault.
pub record Removed (k : Bytes) (s s' : Lru) : Type 0 where
  pub max_kept : s'.max_size ≡ s.max_size
  pub nodes_left : s'.nodes ≡ unlink k s.nodes
  pub index_left : s'.index ≡ erase k s.index

pub remove_node-Removed : (k : Bytes) (s s' : Lru) → remove_node k s ≡ some s' → Removed k s s'
unfolding remove_node
remove_node-Removed k s s' h =
    let (t, tail, h1) = >>=-eq-some (last s.nodes) _ h in
    let (ns, links, h2) = >>=-eq-some (remove_links k s.nodes) _ h1 in
    let e = remove_links-unlink k s.nodes ns links in
    record { max_kept = ground arith; nodes_left = ground arith; index_left = ground arith }

-- The size of the tail is taken off the count.
pub remove_node-size :
    (k : Bytes) (s s' : Lru) (t : Node)
    → last s.nodes ≡ some t
    → remove_node k s ≡ some s'
    → s'.current_size ≡ sub64 s.current_size (node_size t)
unfolding remove_node
remove_node-size k s s' t tail h =
    let (ns, links, h2) = >>=-eq-some (remove_links k s.nodes) _ (rw tail at h) in ground arith

pub remove_node-some :
    (k : Bytes) (s : Lru) (ms : List Node)
    → remove_links k s.nodes ≡ some ms
    → (s' : Lru) × (remove_node k s ≡ some s')
remove_node-some k s ms links = go s.nodes refl
  where
    go : (ns : List Node) → s.nodes ≡ ns → (s' : Lru) × (remove_node k s ≡ some s')
    go [] e = let h : remove_links k [] ≡ some ms = rw e at links in unfold remove_links in cc h
    go (n ∷ ns) e =
        let (t, tail) = last_of_ne n ns in
        let q : last s.nodes ≡ some t = ap last e ∙ tail in
        (
          record s {
            current_size = sub64 s.current_size (node_size t);
            nodes = ms;
            index = erase k s.index;
          },
          unfold remove_node in rw (q, links),
        )

pub remove_node-none :
    (k : Bytes) (s : Lru) → remove_links k s.nodes ≡ none → remove_node k s ≡ none
unfolding remove_node
remove_node-none k s links = ground (arith, links, Option-cases (last s.nodes))

pub Removed-IsValid : (k : Bytes) (s s' : Lru) → Removed k s s' → IsValid s → IsValid s'
Removed-IsValid k s s' r v = record {
  distinct = rw r.nodes_left (unlink-Distinct k s.nodes v.distinct);
  synced = λ j.
      rw
        (
          r.nodes_left,
          r.index_left,
          find-unlink j k s.nodes v.distinct,
          contains-erase j k s.index,
          v.synced j,
        )
        (if-is_some (bytes_eq k j) (find j s.nodes));
}
  where
    if-is_some :
        (b : Bool) (o : Option Node)
        → (if b then false else is_some o) ≡ is_some (if b then none else o)
    if-is_some true o = refl
    if-is_some false o = refl

-- The result of an eviction: the oldest nodes are gone, and the loop's test has failed.
pub record Evicted (over : ℕ → Bool) (s s' : Lru) : Type 0 where
  pub max_kept : s'.max_size ≡ s.max_size
  pub gone : ℕ
  pub oldest : s'.nodes ≡ drop gone s.nodes
  pub enough : over s'.current_size ≡ false
  pub valid : IsValid s'

Evicted-here :
    (over : ℕ → Bool) (s s' : Lru)
    → IsValid s
    → over s.current_size ≡ false
    → s ≡ s'
    → Evicted over s s'
Evicted-here over s s' v done e =
    subst (Evicted over s) e
      (record { max_kept = refl; gone = 0; oldest = refl; enough = done; valid = v })

remove_node-drop :
    (n : Node) (ns : List Node) (s s' : Lru)
    → s.nodes ≡ n ∷ ns
    → Removed n.key s s'
    → s'.nodes ≡ drop 1 s.nodes
unfolding unlink
remove_node-drop n ns s s' e r = rw (r.nodes_left, e, bytes_eq_refl n.key)

remove_head-Removed :
    (ns : List Node) (s s' : Lru)
    → s.nodes ≡ ns
    → remove_head s ns ≡ some s'
    → (k : Bytes) × Removed k s s' × (s'.nodes ≡ drop 1 s.nodes)
unfolding remove_head
remove_head-Removed [] s s' e h = cc
remove_head-Removed (n ∷ ns) s s' e h =
    let r = remove_node-Removed n.key s s' h in (n.key, r, remove_node-drop n ns s s' e r)

drop-drop_one {ℓ} : {A : Type ℓ} (n : ℕ) (xs : List A) → drop n (drop 1 xs) ≡ drop (suc n) xs
drop-drop_one zero [] = refl
drop-drop_one (suc n) [] = refl
drop-drop_one n (x ∷ xs) = refl

Evicted-later :
    (over : ℕ → Bool) (s s1 s' : Lru) (k : Bytes)
    → Removed k s s1
    → s1.nodes ≡ drop 1 s.nodes
    → Evicted over s1 s'
    → Evicted over s s'
Evicted-later over s s1 s' k r d e = record {
  max_kept = e.max_kept ∙ r.max_kept;
  gone = suc e.gone;
  oldest = e.oldest ∙ ap (drop e.gone) d ∙ drop-drop_one e.gone s.nodes;
  enough = e.enough;
  valid = e.valid;
}

pub evict-Evicted :
    (over : ℕ → Bool) (f : ℕ) (s s' : Lru)
    → IsValid s
    → evict over f s ≡ some s'
    → Evicted over s s'
unfolding evict
evict-Evicted over zero s s' v h = elim (Bool-cases (over s.current_size)) [
  | inl more ↦ cc (ap (λ b. if b then none else some s) (sym more) ∙ h)
  | inr done ↦ Evicted-here over s s' v done (ground arith)
]
evict-Evicted over (suc f) s s' v h = elim (Bool-cases (over s.current_size)) [
  | inl more ↦
      let (s1, first, later) =
        >>=-eq-some (remove_head s s.nodes) (evict over f) {b = s'} (rw more at h) in
      let (k, r, d) = remove_head-Removed s.nodes s s1 refl first in
      Evicted-later over s s1 s' k r d
        (evict-Evicted over f s1 s' (Removed-IsValid k s s1 r v) later)
  | inr done ↦ Evicted-here over s s' v done (ground arith)
]

remove_head-length :
    (n : Node) (ns : List Node) (s s' : Lru)
    → s.nodes ≡ n ∷ ns
    → remove_head s (n ∷ ns) ≡ some s'
    → length s'.nodes ≡ length ns
remove_head-length n ns s s' e h =
    let (k, r, d) = remove_head-Removed (n ∷ ns) s s' e h in ap length (rw e at d)

-- The loop unrolls as the source writes it, whatever fuel the nodes give: it tests, takes the head
-- out and starts again; with no node left, a failed test reads through the null head.
pub make_room-unroll :
    (over : ℕ → Bool) (s : Lru)
    → make_room over s ≡ (
        if over s.current_size then remove_head s s.nodes >>= (λ s'. make_room over s') else some s)
make_room-unroll over s = go s.nodes refl
  where
    next :
        (n : Node) (ns : List Node)
        → s.nodes ≡ n ∷ ns
        → (o : Option Lru) → remove_head s s.nodes ≡ o
        → (o >>= evict over (length ns)) ≡ (o >>= λ s'. make_room over s')
    next n ns e none h = refl
    next n ns e (some s') h =
        ap (λ f. evict over f s')
          (sym (remove_head-length n ns s s' e (subst (λ l. remove_head s l ≡ some s') e h)))

    no_head : s.nodes ≡ [] → remove_head s s.nodes ≡ none
    no_head e = subst (λ l. remove_head s l ≡ none) (sym e) (unfold remove_head in refl)

    go :
        (ns : List Node)
        → s.nodes ≡ ns
        → evict over (length ns) s ≡ (
            if over s.current_size
            then remove_head s s.nodes >>= (λ s'. make_room over s')
            else some s)
    go [] e =
        unfold evict in
        ap (λ (o : Option Lru). if over s.current_size then o else some s)
          (sym (ap (λ (o : Option Lru). o >>= λ s'. make_room over s') (no_head e)))
    go (n ∷ ns) e =
        unfold evict in
        ap (λ (o : Option Lru). if over s.current_size then o else some s) (next n ns e _ refl)
