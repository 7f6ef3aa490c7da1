-- ===== src/SharedLock.antt =====
-- sysprog/afina/materials/09-advanced-synchronization/code/shared_mutex.h: `shared_lock`, which owns a
-- shared hold of a mutex and gives it back at its end. A mutex is its number.
pub mod Owners
mod Tests
use bd_tarantul.Common.{
  ℕ, suc, ◌+◌, ◌-◌, ◌<◌, ◌≡◌, Bool, true, false, Option, none, some, List, [], ◌∷◌, ◌++◌,
  if◌then◌else◌, ◌==◌,
}

pub record SharedLock : Type 0 where
  pub pm : Option ℕ
  pub owns : Bool

abbrev pub empty : SharedLock
empty = record { pm = none; owns = false }

pub data Error : Type 0 where
  no_lock : Error  -- "No lock"
  deadlock : Error
  not_owned : Error  -- "Unlock not owned lock"

-- What a member does to the mutexes.
pub data Effect : Type 0 where
  nothing : Effect
  takes : ℕ → Effect  -- lock_shared, or try_lock_shared that succeeds
  gives : ℕ → Effect  -- unlock_shared
  adopts : ℕ → Effect  -- becomes the owner of a hold that no lock owns
  leaves : ℕ → Effect  -- leaves its hold without an owner

pub data Used (A : Type 0) : Type 0 where
  did : A → Effect → Used A
  threw : Error → Used A
  fault : Used A  -- a call through a null pointer

-- The constructors, by their tags; `got` is what `try_lock_shared` returns.
pub data Tag : Type 0 where
  default : Tag
  blocking : ℕ → Tag
  defer_lock : ℕ → Tag
  try_to_lock : ℕ → (got : Bool) → Tag
  adopt_lock : ℕ → Tag

unfoldable pub construct : Tag → Used SharedLock
construct default = did empty nothing
construct (blocking m) = did (record { pm = some m; owns = true }) (takes m)
construct (defer_lock m) = did (record { pm = some m; owns = false }) nothing
construct (try_to_lock m got) =
    did (record { pm = some m; owns = got }) (if got then takes m else nothing)
construct (adopt_lock m) = did (record { pm = some m; owns = true }) (adopts m)

abbrev pub deref {ℓ} : {A : Type ℓ} → Option ℕ → A → (ℕ → A) → A
deref none null f = null
deref (some m) null f = f m

unfoldable pub destroy : SharedLock → Effect × Bool
destroy l = if l.owns then deref l.pm (nothing, false) (λ m. (gives m, true)) else (nothing, true)

-- `_M_lockable`, then `f` on the mutex.
abbrev pub lockable : SharedLock → (ℕ → Used SharedLock) → Used SharedLock
lockable l f = deref l.pm (threw no_lock) (λ m. if l.owns then threw deadlock else f m)

pub data Member : Type 0 where
  lock : Member
  try_lock : (got : Bool) → Member
  unlock : Member
  release : Member

unfoldable pub member : Member → SharedLock → Used SharedLock
member lock l = lockable l (λ m. did (record l { owns = true }) (takes m))
member (try_lock got) l =
    lockable l (λ m. did (record l { owns = got }) (if got then takes m else nothing))
member unlock l =
    if l.owns
    then deref l.pm fault (λ m. did (record l { owns = false }) (gives m))
    else threw not_owned
member release l = did empty (if l.owns then deref l.pm nothing leaves else nothing)

-- The locks that exist, how often each mutex is held shared through them, and how many of these holds
-- have no owner.
pub record World : Type 0 where
  pub locks : List SharedLock
  pub held : ℕ → ℕ
  pub loose : ℕ → ℕ

abbrev pub more : ℕ → (ℕ → ℕ) → ℕ → ℕ
more m f k = if m == k then f k + 1 else f k

abbrev pub less : ℕ → (ℕ → ℕ) → ℕ → ℕ
less m f k = if m == k then f k - 1 else f k

abbrev pub apply : Effect → List SharedLock → World → World
apply nothing ls w = record w { locks = ls }
apply (takes m) ls w = record w { locks = ls; held = more m w.held }
apply (gives m) ls w = record w { locks = ls; held = less m w.held }
apply (adopts m) ls w = record w { locks = ls; loose = less m w.loose }
apply (leaves m) ls w = record w { locks = ls; loose = more m w.loose }

-- `adopt_lock` is used only for a hold that has no owner.
abbrev pub IsDue : Effect → World → Type 0
IsDue (adopts m) w = 0 < w.loose m
IsDue _ w = Unit {0}

pub data Step (w : World) : World → Type 0 where
  constructs :
      (tag : Tag) {l : SharedLock} {e : Effect}
      → construct tag ≡ did l e
      → IsDue e w
      → Step w (apply e (l ∷ w.locks) w)
  uses :
      (xs : List SharedLock) (l : SharedLock) (ys : List SharedLock) (m : Member) {l' : SharedLock}
      {e : Effect}
      → w.locks ≡ xs ++ l ∷ ys
      → member m l ≡ did l' e
      → Step w (apply e (xs ++ l' ∷ ys) w)
  destroys :
      (xs : List SharedLock) (l : SharedLock) (ys : List SharedLock)
      → w.locks ≡ xs ++ l ∷ ys
      → Step w (apply (destroy l).0 (xs ++ ys) w)
  -- `swap`, in either order of the two.
  swaps :
      (xs : List SharedLock) (a : SharedLock) (ys : List SharedLock) (b : SharedLock)
      (zs : List SharedLock)
      → w.locks ≡ xs ++ (a ∷ (ys ++ b ∷ zs))
      → Step w (record w { locks = xs ++ (b ∷ (ys ++ a ∷ zs)) })
  -- The move constructor. The move assignment makes a lock in this way, swaps it with `*this` and
  -- destroys it.
  moves :
      (xs : List SharedLock) (l : SharedLock) (ys : List SharedLock)
      → w.locks ≡ xs ++ l ∷ ys
      → Step w (record w { locks = l ∷ (xs ++ empty ∷ ys) })
  -- Holds that are taken and given back without a lock.
  takes_loose : (m : ℕ) → Step w (record w { held = more m w.held; loose = more m w.loose })
  gives_loose :
      (m : ℕ) → 0 < w.loose m → Step w (record w { held = less m w.held; loose = less m w.loose })

abbrev pub start : World
start = record { locks = []; held = λ m. 0; loose = λ m. 0 }

pub data Reaches : World → Type 0 where
  here : Reaches start
  after : {w w' : World} → Reaches w → Step w w' → Reaches w'
