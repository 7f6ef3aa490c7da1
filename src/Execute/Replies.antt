-- ===== src/Execute/Replies.antt =====
-- What the answers of the commands say of the storage.
use bd_tarantul.Common.{
  ℕ, ◌≡◌, refl, sym, ap, subst, fun_ext, ◌∙◌, Bool, true, false, not, ◌&&◌, Option, none, some,
  List, [], ◌∷◌, ◌++◌, Bytes, codes, is_some, if◌then◌else◌, ◌>>=◌, >>=-eq-some, ◌⊎◌, inl, inr,
  some-pair,
}
use bd_tarantul.Protocol.Command.{set_command, add_command, append_command}
use bd_tarantul.Storage.Interface.{Storage, Stores}
use bd_tarantul.Execute.{execute, item}
use bd_tarantul.Common.{ℤ}

module _ (storage : Storage) where
  open storage use {
    State, IsGood, view, fits, put, get, set, put_if_absent, get_view, put_view, put_if_absent_view,
    set_view,
  }

  -- A view that may have changed only by a store that fits.
  abbrev pub StoredIfFits : Bytes → Bytes → State → State → Type 0
  StoredIfFits k v s s' =
      ((fits k v s ≡ true) × Stores k v (view s) (view s'))
      ⊎ ((fits k v s ≡ false) × ((j : Bytes) → view s' j ≡ view s j))

  stored_if :
      (k v : Bytes) (s t : State) (b : Bool)
      → b ≡ fits k v s
      → ((b ≡ false) × (t ≡ s)) ⊎ ((b ≡ true) × Stores k v (view s) (view t))
      → StoredIfFits k v s t
  stored_if k v s t b e (inl (n, q)) = inr (sym e ∙ n, λ j. ap (λ x. view x j) q)
  stored_if k v s t b e (inr (y, st)) = inl (sym e ∙ y, st)

  StoredIfFits-before :
      (k v : Bytes) (s t s' : State)
      → ((j : Bytes) → view t j ≡ view s j)
      → fits k v t ≡ fits k v s
      → StoredIfFits k v t s'
      → StoredIfFits k v s s'
  StoredIfFits-before k v s t s' same fit (inl (e, st)) =
      inl (sym fit ∙ e, subst (λ f. Stores k v f (view s')) (fun_ext same) st)
  StoredIfFits-before k v s t s' same fit (inr (e, kept)) = inr (sym fit ∙ e, λ j. kept j ∙ same j)

  module _ (k args : Bytes) (flags : ℕ) (expire : ℤ) (s s' : State) (out : Bytes)
      (good : IsGood s) where
    -- `set` answers `STORED` whether or not the storage took the value: one that does not fit is
    -- dropped without a word.
    pub set_reply :
        execute storage (set_command k flags expire) args s ≡ some (s', out)
        → (out ≡ codes "STORED") × IsGood s' × StoredIfFits k args s s'
    unfolding execute
    set_reply h =
        let (r, called, rest) = >>=-eq-some (put k args s) _ h in
        let (e, ok, o) = put_view k args s r.0 r.1 good called in
        let (q, text) = some-pair rest in
        (
          sym text,
          subst IsGood q ok,
          subst (StoredIfFits k args s) q (stored_if k args s r.0 r.1 e o),
        )

    -- `add` answers `STORED` exactly when the value fits and the key is absent, and then stores it;
    -- else it leaves the storage as it is.
    pub add_reply :
        execute storage (add_command k flags expire) args s ≡ some (s', out)
        → (((fits k args s && not (is_some (view s k))) ≡ true)
            × (out ≡ codes "STORED")
            × Stores k args (view s) (view s'))
          ⊎ (((fits k args s && not (is_some (view s k))) ≡ false)
              × (out ≡ codes "NOT_STORED")
              × (s' ≡ s))
    unfolding execute
    add_reply h =
        let (r, called, rest) = >>=-eq-some (put_if_absent k args s) _ h in
        let (e, ok, o) = put_if_absent_view k args s r.0 r.1 good called in
        let (q, text) = some-pair rest in answered r.0 r.1 e q text o
      where
        answered :
            (t : State) (b : Bool)
            → b ≡ (fits k args s && not (is_some (view s k)))
            → t ≡ s'
            → (if b then codes "STORED" else codes "NOT_STORED") ≡ out
            → ((b ≡ false) × (t ≡ s)) ⊎ ((b ≡ true) × Stores k args (view s) (view t))
            → (((fits k args s && not (is_some (view s k))) ≡ true)
                × (out ≡ codes "STORED")
                × Stores k args (view s) (view s'))
              ⊎ (((fits k args s && not (is_some (view s k))) ≡ false)
                  × (out ≡ codes "NOT_STORED")
                  × (s' ≡ s))
        answered t b e q text (inl (n, same)) = inr (
          sym e ∙ n,
          sym text ∙ ap (λ c. if c then codes "STORED" else codes "NOT_STORED") n,
          sym q ∙ same,
        )
        answered t b e q text (inr (y, st)) = inl (
          sym e ∙ y,
          sym text ∙ ap (λ c. if c then codes "STORED" else codes "NOT_STORED") y,
          subst (λ x. Stores k args (view s) (view x)) q st,
        )

    -- `append` to an absent key answers `NOT_STORED`. To a present key it answers `STORED`, and the
    -- key reads as its old value with the new bytes behind it if that fits; where it does not,
    -- nothing that can be read has changed.
    pub append_reply :
        execute storage (append_command k flags expire) args s ≡ some (s', out)
        → ((view s k ≡ none) × (out ≡ codes "NOT_STORED") × ((j : Bytes) → view s' j ≡ view s j))
          ⊎ ((old : Bytes) × (view s k ≡ some old)
              × (out ≡ codes "STORED")
              × StoredIfFits k (old ++ args) s s')
    unfolding execute
    append_reply h =
        let (t, got, good1, same, fit) = get_view k s good in
        answered t good1 same (λ v. fit k v) (view s k) refl
          (ap (λ m. m >>= appended) (sym got) ∙ h)
      where
        appended : State × Option Bytes → Option (State × Bytes)
        appended r = elim r.1 [
          | none ↦ some (r.0, codes "NOT_STORED")
          | some value ↦ put k (value ++ args) r.0 >>= λ q. some (q.0, codes "STORED")
        ]

        answered :
            (t : State)
            → IsGood t
            → ((j : Bytes) → view t j ≡ view s j)
            → ((v : Bytes) → fits k v t ≡ fits k v s)
            → (o : Option Bytes) → view s k ≡ o
            → appended (t, o) ≡ some (s', out)
            → ((view s k ≡ none)
                × (out ≡ codes "NOT_STORED")
                × ((j : Bytes) → view s' j ≡ view s j))
              ⊎ ((old : Bytes) × (view s k ≡ some old)
                  × (out ≡ codes "STORED")
                  × StoredIfFits k (old ++ args) s s')
        answered t good1 same fit none e h =
            let (q, text) = some-pair h in
            inl (e, sym text, subst (λ x. (j : Bytes) → view x j ≡ view s j) q same)
        answered t good1 same fit (some old) e h =
            let (r, called, rest) = >>=-eq-some (put k (old ++ args) t) _ h in
            let (eb, ok, o) = put_view k (old ++ args) t r.0 r.1 good1 called in
            let (q, text) = some-pair rest in
            inr (
              old,
              e,
              sym text,
              StoredIfFits-before k (old ++ args) s t s' same (fit (old ++ args)) (
                  subst (StoredIfFits k (old ++ args) t) q
                    (stored_if k (old ++ args) t r.0 r.1 eb o)),
            )

  -- The text of the items that a view holds, in the order of the keys.
  unfoldable pub items : (Bytes → Option Bytes) → List Bytes → Bytes
  items v [] = []
  items v (k ∷ ks) = elim (v k) [
    | none ↦ items v ks
    | some value ↦ item storage k value ++ items v ks
  ]
