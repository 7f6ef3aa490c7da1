-- ===== src/Storage/Locked/Serves.antt =====
-- ThreadSafeSimpleLRU.h: what a thread reads is what some thread stored last.
use bd_tarantul.Common.{ℕ, ◌≡◌, ◌⊎◌, arith, none, some, List, [], ◌∷◌, Option-cases, inl, inr}
use bd_tarantul.Storage.Nodes.{find}
use bd_tarantul.Storage.Lru.{Lru}
use bd_tarantul.Storage.Lru.Evict.{IsValid}
use bd_tarantul.Storage.Lru.Reads.{get-reads}
use bd_tarantul.Storage.History.{
  Call, put_call, put_if_absent_call, set_call, delete_call, get_call, call, call-Serves, Memory,
  note, Serves,
}
use bd_tarantul.Storage.Locked.{Answer, perform, World, Reaches}
use bd_tarantul.Storage.Locked.Serial.{Replays, nothing, later, Reaches-Inv}

-- What the calls, the last one first, leave in a memory that drops nothing.
unfoldable pub recall : List (ℕ × Call × Answer) → Memory → Memory
recall [] m = m
recall ((i, c, a) ∷ log) m = note c a.result (recall log m)

-- A `Get` that found a value found the one stored last under its key.
abbrev pub ReadsLast : Call → Answer → Memory → Type 0
ReadsLast (get_call k) a m = (a.value ≡ none) ⊎ (a.value ≡ m k)
ReadsLast _ a m = Unit {0}

unfoldable pub Consistent : List (ℕ × Call × Answer) → Memory → Type 0
Consistent [] m = Unit {0}
Consistent ((i, c, a) ∷ log) m = ReadsLast c a (recall log m) × Consistent log m

perform-call :
    (c : Call) (s s' : Lru) (a : Answer)
    → perform c s ≡ some (s', a)
    → call c s ≡ some (s', a.result)
unfolding perform call
perform-call (put_call k v) s s' a h = ground arith
perform-call (put_if_absent_call k v) s s' a h = ground arith
perform-call (set_call k v) s s' a h = ground arith
perform-call (delete_call k) s s' a h = ground arith
perform-call (get_call k) s s' a h = ground arith

perform-ReadsLast :
    (c : Call) (s s' : Lru) (a : Answer) (m : Memory)
    → IsValid s
    → Serves s m
    → perform c s ≡ some (s', a)
    → ReadsLast c a m
unfolding perform
perform-ReadsLast (get_call k) s s' a m ok sv h = elim (Option-cases (find k s.nodes)) [
  | inl absent ↦ inl (ground (arith, get-reads k s ok))
  | inr (n, found) ↦ inr (ground (arith, get-reads k s ok, sv k n found))
]
perform-ReadsLast (put_call k v) s s' a m ok sv h = tt
perform-ReadsLast (put_if_absent_call k v) s s' a m ok sv h = tt
perform-ReadsLast (set_call k v) s s' a m ok sv h = tt
perform-ReadsLast (delete_call k) s s' a m ok sv h = tt

Replays-Serves :
    {s s' : Lru} {log : List (ℕ × Call × Answer)} (m : Memory)
    → IsValid s
    → Serves s m
    → Replays s log s'
    → IsValid s' × Serves s' (recall log m) × Consistent log m
unfolding recall Consistent
Replays-Serves m ok sv nothing = (ok, sv, tt)
Replays-Serves m ok sv (later i c a {log} {s1} {s2} r e) =
    let (ok1, sv1, con) = Replays-Serves m ok sv r in
    let (ok2, _, sv2) =
      call-Serves c s1 s2 a.result (recall log m) ok1 sv1 (perform-call c s1 s2 a e) in
    (ok2, sv2, (perform-ReadsLast c s1 s2 a (recall log m) ok1 sv1 e, con))

-- From a valid store, in every interleaving: the store stays valid, and each `Get` that found a value
-- found the one that the last storing call before it in the order of the ends stored under its key,
-- whichever threads made the two calls.
pub Reaches-Consistent :
    {s : Lru} {programs : ℕ → List Call} {w : World} (m : Memory)
    → IsValid s
    → Serves s m
    → Reaches s programs w
    → IsValid w.store × Consistent w.log m
Reaches-Consistent m ok sv r =
    let (ok', _, con) = Replays-Serves m ok sv (Reaches-Inv r).serial in (ok', con)
