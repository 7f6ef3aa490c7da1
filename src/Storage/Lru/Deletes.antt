-- ===== src/Storage/Lru/Deletes.antt =====
-- SimpleLRU.cpp: for which entries `Delete` works.
use bd_tarantul.Common.{
  ◌≡◌, ◌≢◌, ◌⊎◌, refl, ap, subst, ◌∙◌, true, none, some, List, [], ◌∷◌, ◌++◌, bytes_eq_refl, inl,
  inr, ◌>>=◌,
}
use bd_tarantul.Storage.Nodes.{Node, find, Distinct}
use bd_tarantul.Storage.Nodes.Position.{other_key, find-there}
use bd_tarantul.Storage.Lru.{Lru, remove_behind, remove_links, delete}
use bd_tarantul.Storage.Lru.Evict.{IsValid, remove_node-some, remove_node-none, remove_node-Removed}
use bd_tarantul.Storage.Lru.Reads.{Deleted, Removed-Deleted, delete_present}

-- The tail is taken off.
remove_behind-tail :
    (xs : List Node) (n : Node)
    → Distinct (xs ++ n ∷ [])
    → remove_behind n.key (xs ++ n ∷ []) ≡ some xs
unfolding remove_behind
remove_behind-tail [] n d = rw (bytes_eq_refl n.key)
remove_behind-tail (x ∷ []) n d = rw (other_key x [] n [] d, bytes_eq_refl n.key)
remove_behind-tail (x ∷ y ∷ xs) n d =
    rw (other_key x (y ∷ xs) n [] d)
      (ap (λ o. o >>= λ ms. some (x ∷ ms)) (remove_behind-tail (y ∷ xs) n d.1))

-- A node with one behind it is not.
remove_behind-middle :
    (xs : List Node) (n m : Node) (ys : List Node)
    → Distinct (xs ++ n ∷ m ∷ ys)
    → remove_behind n.key (xs ++ n ∷ m ∷ ys) ≡ none
unfolding remove_behind
remove_behind-middle [] n m ys d = rw (bytes_eq_refl n.key)
remove_behind-middle (x ∷ []) n m ys d = rw (other_key x [] n (m ∷ ys) d, bytes_eq_refl n.key)
remove_behind-middle (x ∷ y ∷ xs) n m ys d =
    rw (other_key x (y ∷ xs) n (m ∷ ys) d)
      (ap (λ o. o >>= λ ms. some (x ∷ ms)) (remove_behind-middle (y ∷ xs) n m ys d.1))

-- The oldest of two entries or more, or the freshest.
abbrev pub IsEnd : List Node → List Node → Type 0
IsEnd xs ys = ((xs ≡ []) × (ys ≢ [])) ⊎ ((xs ≢ []) × (ys ≡ []))

-- The only entry, or one between two others.
abbrev pub IsInner : List Node → List Node → Type 0
IsInner xs ys = ((xs ≡ []) × (ys ≡ [])) ⊎ ((xs ≢ []) × (ys ≢ []))

remove_links-end :
    (xs : List Node) (n : Node) (ys : List Node)
    → Distinct (xs ++ n ∷ ys)
    → IsEnd xs ys
    → (ms : List Node) × (remove_links n.key (xs ++ n ∷ ys) ≡ some ms)
unfolding remove_links
remove_links-end [] n [] d (inl (e, ne)) = absurd (ne refl)
remove_links-end [] n [] d (inr (ne, e)) = absurd (ne refl)
remove_links-end [] n (m ∷ ys) d h = (m ∷ ys, rw (bytes_eq_refl n.key))
remove_links-end (x ∷ xs) n [] d h = (
  x ∷ xs,
  rw (other_key x xs n [] d) (ap (λ o. o >>= λ ms. some (x ∷ ms)) (remove_behind-tail xs n d.1)),
)
remove_links-end (x ∷ xs) n (m ∷ ys) d (inl (e, ne)) = cc
remove_links-end (x ∷ xs) n (m ∷ ys) d (inr (ne, e)) = cc

remove_links-inner :
    (xs : List Node) (n : Node) (ys : List Node)
    → Distinct (xs ++ n ∷ ys)
    → IsInner xs ys
    → remove_links n.key (xs ++ n ∷ ys) ≡ none
unfolding remove_links
remove_links-inner [] n [] d h = rw (bytes_eq_refl n.key)
remove_links-inner [] n (m ∷ ys) d (inl (e, q)) = cc
remove_links-inner [] n (m ∷ ys) d (inr (ne, q)) = absurd (ne refl)
remove_links-inner (x ∷ xs) n [] d (inl (e, q)) = cc
remove_links-inner (x ∷ xs) n [] d (inr (ne, q)) = absurd (q refl)
remove_links-inner (x ∷ xs) n (m ∷ ys) d h =
    rw (other_key x xs n (m ∷ ys) d)
      (ap (λ o. o >>= λ ms. some (x ∷ ms)) (remove_behind-middle xs n m ys d.1))

module _ (s : Lru) (xs : List Node) (n : Node) (ys : List Node) (v : IsValid s)
    (there : s.nodes ≡ xs ++ n ∷ ys) where
  distinct : Distinct (xs ++ n ∷ ys)
  distinct = subst Distinct there v.distinct

  found : (m : Node) × (find n.key s.nodes ≡ some m)
  found = let (m, e) = find-there xs n ys in (m, ap (find n.key) there ∙ e)

  -- `Delete` of the oldest of two entries or more, or of the freshest, answers `true`; after it the
  -- key is gone, the other entries keep their order, and every other key reads as before.
  pub delete-Deleted :
      IsEnd xs ys → (s' : Lru) × (delete n.key s ≡ some (s', true)) × Deleted n.key s s'
  delete-Deleted h =
      let (ms, links) = remove_links-end xs n ys distinct h in
      let (s', removed) = remove_node-some n.key s ms (ap (remove_links n.key) there ∙ links) in
      (
        s',
        delete_present n.key s found.0 v found.1 ∙ ap (λ o. o >>= λ s'. some (s', true)) removed,
        Removed-Deleted n.key s s' v (remove_node-Removed n.key s s' removed),
      )

  -- `Delete` of the only entry writes through the null head, and that of an entry between two others
  -- through the null `tmp->next`.
  pub delete_faults : IsInner xs ys → delete n.key s ≡ none
  delete_faults h =
      delete_present n.key s found.0 v found.1
      ∙ ap (λ o. o >>= λ s'. some (s', true))
          (remove_node-none n.key s
            (ap (remove_links n.key) there ∙ remove_links-inner xs n ys distinct h))
