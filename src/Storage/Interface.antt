-- ===== src/Storage/Interface.antt =====
-- sysprog/afina/include/afina/Storage.h: the interface of a storage, with what its comments
-- promise of each method as laws over a view of the stored associations.
use bd_tarantul.Common.{
  is_some, ◌≡◌, Bool, true, false, not, ◌&&◌, Option, none, some, Bytes, bytes_eq, ◌⊎◌,
}

-- What a storing method may do to a view: the key reads as the value, and any other key as before,
-- or not at all where a bounded storage has dropped it.
pub record Stores (k v : Bytes) (before after : Bytes → Option Bytes) : Type 0 where
  pub stored : after k ≡ some v
  pub others : (j w : Bytes) → bytes_eq k j ≡ false → after j ≡ some w → before j ≡ some w

pub record Storage : Type 1 where
  pub State : Type 0
  pub put : Bytes → Bytes → State → Option (State × Bool)
  pub put_if_absent : Bytes → Bytes → State → Option (State × Bool)
  pub set : Bytes → Bytes → State → Option (State × Bool)
  pub delete : Bytes → State → Option (State × Bool)
  pub get : Bytes → State → Option (State × Option Bytes)
  pub IsGood : State → Type 0
  pub view : State → Bytes → Option Bytes
  pub fits : Bytes → Bytes → State → Bool
  -- `Get` returns, and changes nothing that can be seen.
  pub get_view :
      (k : Bytes) (s : State)
      → IsGood s
      → (s' : State) × (get k s ≡ some (s', view s k))
        × IsGood s'
        × ((j : Bytes) → view s' j ≡ view s j)
        × ((j v : Bytes) → fits j v s' ≡ fits j v s)
  pub put_view :
      (k v : Bytes) (s s' : State) (b : Bool)
      → IsGood s
      → put k v s ≡ some (s', b)
      → (b ≡ fits k v s)
        × IsGood s'
        × (((b ≡ false) × (s' ≡ s)) ⊎ ((b ≡ true) × Stores k v (view s) (view s')))
  pub put_if_absent_view :
      (k v : Bytes) (s s' : State) (b : Bool)
      → IsGood s
      → put_if_absent k v s ≡ some (s', b)
      → (b ≡ (fits k v s && not (is_some (view s k))))
        × IsGood s'
        × (((b ≡ false) × (s' ≡ s)) ⊎ ((b ≡ true) × Stores k v (view s) (view s')))
  pub set_view :
      (k v : Bytes) (s s' : State) (b : Bool)
      → IsGood s
      → set k v s ≡ some (s', b)
      → (b ≡ (fits k v s && is_some (view s k)))
        × IsGood s'
        × (((b ≡ false) × (s' ≡ s)) ⊎ ((b ≡ true) × Stores k v (view s) (view s')))
  pub delete_view :
      (k : Bytes) (s s' : State) (b : Bool)
      → IsGood s
      → delete k s ≡ some (s', b)
      → (b ≡ is_some (view s k))
        × IsGood s'
        × (view s' k ≡ none)
        × ((j : Bytes) → bytes_eq k j ≡ false → view s' j ≡ view s j)
