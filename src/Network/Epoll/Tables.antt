-- ===== src/Network/Epoll/Tables.antt =====
-- The tables of the connections and of what `epoll` watches, changed alike.
use bd_tarantul.Common.{
  ℕ, ◌≡◌, refl, sym, ap, Bool, true, false, ◌&&◌, some, List, [], ◌∷◌, ◌==◌, if◌then◌else◌, arith,
}
use mathlib.Core.Option.{some-injective}
use bd_tarantul.Network.Connection.{Mask}
use bd_tarantul.Network.Epoll.{find, erase, replace, same, same_mask}

module _ {A B : Type 0} (f : A → B) where
  abbrev pub values : List (ℕ × A) → List (ℕ × B)
  values [] = []
  values ((k, a) ∷ xs) = (k, f a) ∷ values xs

  pub values-erase : (fd : ℕ) (xs : List (ℕ × A)) → values (erase fd xs) ≡ erase fd (values xs)
  values-erase fd [] = refl
  values-erase fd ((k, a) ∷ xs) = by_key (k == fd) (values-erase fd xs)
    where
      by_key :
          (z : Bool)
          → values (erase fd xs) ≡ erase fd (values xs)
          → values (if z then xs else (k, a) ∷ erase fd xs)
            ≡ (if z then values xs else (k, f a) ∷ erase fd (values xs))
      by_key true rest = refl
      by_key false rest = ap (λ ys. (k, f a) ∷ ys) rest

  pub values-replace :
      (fd : ℕ) (b : A) (xs : List (ℕ × A)) → values (replace fd b xs) ≡ replace fd (f b) (values xs)
  values-replace fd b [] = refl
  values-replace fd b ((k, a) ∷ xs) = by_key (k == fd) (values-replace fd b xs)
    where
      by_key :
          (z : Bool)
          → values (replace fd b xs) ≡ replace fd (f b) (values xs)
          → values (if z then (k, b) ∷ xs else (k, a) ∷ replace fd b xs)
            ≡ (if z then (k, f b) ∷ values xs else (k, f a) ∷ replace fd (f b) (values xs))
      by_key true rest = refl
      by_key false rest = ap (λ ys. (k, f a) ∷ ys) rest

  -- An entry with the same value as before leaves the values as they are.
  pub replace-same :
      (fd : ℕ) (a : A) (xs : List (ℕ × A))
      → find fd xs ≡ some a
      → replace fd (f a) (values xs) ≡ values xs
  replace-same fd a [] h = refl
  replace-same fd a ((k, b) ∷ xs) h = by_key (k == fd) h (replace-same fd a xs)
    where
      by_key :
          (z : Bool)
          → (if z then some b else find fd xs) ≡ some a
          → (find fd xs ≡ some a → replace fd (f a) (values xs) ≡ values xs)
          → (if z then (k, f a) ∷ values xs else (k, f b) ∷ replace fd (f a) (values xs))
            ≡ (k, f b) ∷ values xs
      by_key true h rest = ap (λ c. (k, f c) ∷ values xs) (sym (some-injective b a h))
      by_key false h rest = ap (λ ys. (k, f b) ∷ ys) (rest h)

abbrev mask : Bool → Bool → Bool → Bool → Mask
mask i o r e = record { epollin = i; epollout = o; epollrdhup = r; epollerr = e }

mask_same :
    {i o r e i' o' r' e' : Bool}
    → i ≡ i'
    → o ≡ o'
    → r ≡ r'
    → e ≡ e'
    → mask i o r e ≡ mask i' o' r' e'
mask_same a b c d = cc

same-eq : (a b : Bool) → same a b ≡ true → a ≡ b
same-eq true b h = sym h
same-eq false false h = refl
same-eq false true h = absurd (ground (arith, h))

both : (a b : Bool) → (a && b) ≡ true → (a ≡ true) × (b ≡ true)
both true b h = (refl, h)
both false b h = absurd (ground (arith, h))

pub same_mask-eq : (a b : Mask) → same_mask a b ≡ true → a ≡ b
same_mask-eq a b h =
    let (i, h1) = both (same a.epollin b.epollin) _ h in
    let (o, h2) = both (same a.epollout b.epollout) _ h1 in
    let (r, e) = both (same a.epollrdhup b.epollrdhup) _ h2 in
    mask_same (same-eq a.epollin b.epollin i) (same-eq a.epollout b.epollout o)
      (same-eq a.epollrdhup b.epollrdhup r) (same-eq a.epollerr b.epollerr e)
