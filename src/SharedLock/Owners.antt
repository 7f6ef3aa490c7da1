-- ===== src/SharedLock/Owners.antt =====
-- shared_mutex.h, `shared_lock`: every hold has its owner.
use bd_tarantul.Common.{
  ℕ, ◌+◌, ◌-◌, ◌<◌, ◌≡◌, ◌≢◌, refl, arith, ap, subst, Bool, true, false, Option, none, some, List,
  ◌∷◌, ◌++◌, if◌then◌else◌, ◌==◌,
}
use bd_tarantul.Threads.Totals.{total, total-append, total_put, total_at}
use bd_tarantul.SharedLock.{
  SharedLock, empty, Effect, nothing, takes, gives, adopts, leaves, did, fault, Tag, default,
  blocking, defer_lock, try_to_lock, adopt_lock, construct, deref, destroy, Member, lock, try_lock,
  unlock, release, member, World, more, apply, IsDue, Step, constructs, uses, destroys, swaps,
  moves, takes_loose, gives_loose, Reaches, here, after,
}

-- Whether a lock owns a hold of a mutex, and whether it owns one of no mutex.
abbrev pub owner : ℕ → SharedLock → ℕ
owner m l = if l.owns then deref l.pm 0 (λ k. if k == m then 1 else 0) else 0

abbrev pub astray : SharedLock → ℕ
astray l = if l.owns then deref l.pm 1 (λ k. 0) else 0

pub record Inv (w : World) : Type 0 where
  pub owned : (m : ℕ) → w.held m ≡ total (owner m) w.locks + w.loose m
  pub sound : total astray w.locks ≡ 0

-- What an effect makes of the holds of one mutex, and of those without an owner.
abbrev held_after : Effect → ℕ → ℕ → ℕ
held_after (takes k) m n = if k == m then n + 1 else n
held_after (gives k) m n = if k == m then n - 1 else n
held_after _ m n = n

abbrev loose_after : Effect → ℕ → ℕ → ℕ
loose_after (leaves k) m n = if k == m then n + 1 else n
loose_after (adopts k) m n = if k == m then n - 1 else n
loose_after _ m n = n

apply-Inv :
    (e : Effect) (ls : List SharedLock) (w : World)
    → ((m : ℕ) → held_after e m (w.held m) ≡ total (owner m) ls + loose_after e m (w.loose m))
    → total astray ls ≡ 0
    → Inv (apply e ls w)
apply-Inv nothing ls w h s = record { owned = h; sound = s }
apply-Inv (takes k) ls w h s = record { owned = h; sound = s }
apply-Inv (gives k) ls w h s = record { owned = h; sound = s }
apply-Inv (adopts k) ls w h s = record { owned = h; sound = s }
apply-Inv (leaves k) ls w h s = record { owned = h; sound = s }

construct-owner :
    (tag : Tag) (l : SharedLock) (e : Effect) (w : World) (m t : ℕ)
    → construct tag ≡ did l e
    → IsDue e w
    → w.held m ≡ t + w.loose m
    → held_after e m (w.held m) ≡ (owner m l + t) + loose_after e m (w.loose m)
unfolding construct
construct-owner default l e w m t c due h = ground arith
construct-owner (blocking k) l e w m t c due h = ground arith
construct-owner (defer_lock k) l e w m t c due h = ground arith
construct-owner (try_to_lock k true) l e w m t c due h = ground arith
construct-owner (try_to_lock k false) l e w m t c due h = ground arith
construct-owner (adopt_lock k) l e w m t c due h =
    let q : e ≡ adopts k = ground arith in
    let some_loose : 0 < w.loose k = subst (λ x. IsDue x w) q due in ground arith

construct-astray :
    (tag : Tag) (l : SharedLock) (e : Effect) → construct tag ≡ did l e → astray l ≡ 0
unfolding construct
construct-astray tag l e c = ground arith

member-owner :
    (u : Member) (p : Option ℕ) (o : Bool) (l' : SharedLock) (e : Effect) (m a b t : ℕ)
    → member u (record { pm = p; owns = o }) ≡ did l' e
    → astray (record { pm = p; owns = o }) ≡ 0
    → a ≡ (owner m (record { pm = p; owns = o }) + t) + b
    → held_after e m a ≡ (owner m l' + t) + loose_after e m b
unfolding member
member-owner u none o l' e m a b t c s h = ground arith
member-owner lock (some k) o l' e m a b t c s h = ground arith
member-owner (try_lock got) (some k) o l' e m a b t c s h = ground arith
member-owner unlock (some k) o l' e m a b t c s h = ground arith
member-owner release (some k) o l' e m a b t c s h = ground arith

member-astray :
    (u : Member) (l l' : SharedLock) (e : Effect)
    → member u l ≡ did l' e
    → astray l ≡ 0
    → astray l' ≡ 0
unfolding member
member-astray u l l' e c s = ground arith

destroy-owner :
    (p : Option ℕ) (o : Bool) (m a b t : ℕ)
    → astray (record { pm = p; owns = o }) ≡ 0
    → a ≡ (owner m (record { pm = p; owns = o }) + t) + b
    → held_after (destroy (record { pm = p; owns = o })).0 m a
      ≡ t + loose_after (destroy (record { pm = p; owns = o })).0 m b
unfolding destroy
destroy-owner none true m a b t s h = cc
destroy-owner none false m a b t s h = ground arith
destroy-owner (some k) true m a b t s h = ground arith
destroy-owner (some k) false m a b t s h = ground arith

destroy-Inv :
    (w : World) (xs : List SharedLock) (l : SharedLock) (ys : List SharedLock)
    → w.locks ≡ xs ++ l ∷ ys
    → Inv w
    → Inv (apply (destroy l).0 (xs ++ ys) w)
destroy-Inv w xs l ys q inv =
    let clean : astray l + total astray (xs ++ ys) ≡ 0 =
      omega (arith, inv.sound, total_at astray xs l ys q) in
    apply-Inv (destroy l).0 (xs ++ ys) w
      (λ m.
        destroy-owner l.pm l.owns m (w.held m) (w.loose m) (total (owner m) (xs ++ ys))
          (omega (arith, clean)) (omega (arith, inv.owned m, total_at (owner m) xs l ys q)))
      (omega (arith, clean))

-- The totals do not see the order of the locks.
swapped :
    (f : SharedLock → ℕ) (xs : List SharedLock) (a : SharedLock) (ys : List SharedLock)
    (b : SharedLock) (zs : List SharedLock)
    → total f (xs ++ (b ∷ (ys ++ a ∷ zs))) ≡ total f (xs ++ (a ∷ (ys ++ b ∷ zs)))
swapped f xs a ys b zs = omega (
  arith,
  total-append f xs (b ∷ (ys ++ a ∷ zs)),
  total-append f xs (a ∷ (ys ++ b ∷ zs)),
  total_put f ys a zs,
  total_put f ys b zs,
)

Step-Inv : {w w' : World} → Step w w' → Inv w → Inv w'
Step-Inv {w} (constructs tag {l} {e} c due) inv =
    apply-Inv e (l ∷ w.locks) w
      (λ m. construct-owner tag l e w m (total (owner m) w.locks) c due (inv.owned m))
      (omega (arith, inv.sound, construct-astray tag l e c))
Step-Inv {w} (uses xs l ys u {l'} {e} q c) inv =
    let clean : astray l + total astray (xs ++ ys) ≡ 0 =
      omega (arith, inv.sound, total_at astray xs l ys q) in
    apply-Inv e (xs ++ l' ∷ ys) w
      (λ m. omega (
        arith,
        member-owner u l.pm l.owns l' e m (w.held m) (w.loose m) (total (owner m) (xs ++ ys)) c
            (omega (arith, clean)) (omega (arith, inv.owned m, total_at (owner m) xs l ys q)),
        total_put (owner m) xs l' ys,
      ))
      (omega
        (arith, clean, member-astray u l l' e c (omega (arith, clean)), total_put astray xs l' ys))
Step-Inv {w} (destroys xs l ys q) inv = destroy-Inv w xs l ys q inv
Step-Inv {w} (swaps xs a ys b zs q) inv = record {
  owned = λ m. omega (arith, inv.owned m, ap (total (owner m)) q, swapped (owner m) xs a ys b zs);
  sound = omega (arith, inv.sound, ap (total astray) q, swapped astray xs a ys b zs);
}
Step-Inv {w} (moves xs l ys q) inv = record {
  owned = λ m.
      omega (arith, inv.owned m, total_at (owner m) xs l ys q, total_put (owner m) xs empty ys);
  sound = omega (arith, inv.sound, total_at astray xs l ys q, total_put astray xs empty ys);
}
Step-Inv {w} (takes_loose k) inv = ground arith
Step-Inv {w} (gives_loose k more) inv = ground arith

Reaches-Inv : {w : World} → Reaches w → Inv w
Reaches-Inv here = record { owned = λ m. refl; sound = refl }
Reaches-Inv (after r s) = Step-Inv s (Reaches-Inv r)

-- Through any constructions, uses, moves, swaps and destructions of locks each mutex is held shared
-- exactly as often as there are locks that own a hold of it and holds that were left without an owner.
pub Reaches-owned :
    {w : World} → Reaches w → (m : ℕ) → w.held m ≡ total (owner m) w.locks + w.loose m
Reaches-owned r m = (Reaches-Inv r).owned m

-- No member of a lock that exists calls through a null pointer, its destructor included.
pub Reaches-no_fault :
    {w : World} (xs : List SharedLock) (l : SharedLock) (ys : List SharedLock) (u : Member)
    → Reaches w
    → w.locks ≡ xs ++ l ∷ ys
    → (member u l ≢ fault) × ((destroy l).1 ≡ true)
unfolding member destroy
Reaches-no_fault xs l ys u r q =
    let clean : astray l ≡ 0 = omega (arith, (Reaches-Inv r).sound, total_at astray xs l ys q) in
    (λ e. ground arith, ground arith)
