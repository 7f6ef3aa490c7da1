-- ===== src/Storage/History.antt =====
-- Runs of `SimpleLRU`, against a memory that keeps what the answers said was stored.
use bd_tarantul.Common.{
  is_some, ◌≡◌, sym, ap, subst, ◌∙◌, Bool, Option, none, some, List, [], ◌∷◌, arith, Bytes,
  bytes_eq, bytes_eq_iff, if◌then◌else◌, Bool-cases, Option-cases, inl, inr, ◌>>=◌, >>=-eq-some,
}
use bd_tarantul.Storage.Nodes.{Node, find}
use bd_tarantul.Storage.Lru.{Lru, put, put_if_absent, set, delete, get}
use bd_tarantul.Storage.Lru.Evict.{IsValid}
use bd_tarantul.Storage.Lru.Outcomes.{
  Outcome, Stored-find, put-Outcome, put_if_absent-Outcome, set-Outcome,
}
use bd_tarantul.Storage.Lru.Reads.{
  Deleted, after_get, get-reads, max_size-after_get, after_get-IsValid, find-after_get,
  delete_some-Deleted,
}

pub data Call : Type 0 where
  put_call : Bytes → Bytes → Call
  put_if_absent_call : Bytes → Bytes → Call
  set_call : Bytes → Bytes → Call
  delete_call : Bytes → Call
  get_call : Bytes → Call

-- One call of the interface of Storage.h, with its answer.
unfoldable pub call : Call → Lru → Option (Lru × Bool)
call (put_call k v) s = put k v s
call (put_if_absent_call k v) s = put_if_absent k v s
call (set_call k v) s = set k v s
call (delete_call k) s = delete k s
call (get_call k) s = get k s >>= λ r. some (r.0, is_some r.1)

abbrev pub Memory : Type 0
Memory = Bytes → Option Bytes

abbrev pub remember : Bytes → Option Bytes → Memory → Memory
remember k v m j = if bytes_eq k j then v else m j

-- What a client that forgets nothing knows after the answer to a call.
unfoldable pub note : Call → Bool → Memory → Memory
note (put_call k v) b m = if b then remember k (some v) m else m
note (put_if_absent_call k v) b m = if b then remember k (some v) m else m
note (set_call k v) b m = if b then remember k (some v) m else m
note (delete_call k) b m = remember k none m
note (get_call k) b m = m

unfoldable pub run : List Call → Lru → Memory → Option (Lru × Memory)
run [] s m = some (s, m)
run (c ∷ cs) s m = do (s', b) ← call c s; run cs s' (note c b m)

-- Whatever the store finds is what was stored last under the key.
abbrev pub Serves : Lru → Memory → Type 0
Serves s m = (k : Bytes) (n : Node) → find k s.nodes ≡ some n → m k ≡ some n.value

Outcome-Serves :
    (k v : Bytes) (s s' : Lru) (b : Bool) (m : Memory)
    → IsValid s
    → Serves s m
    → Outcome k v s (s', b)
    → IsValid s' × (s'.max_size ≡ s.max_size) × Serves s' (if b then remember k (some v) m else m)
Outcome-Serves k v s s' b m ok sv (inl (e, q)) = (
  subst IsValid (sym q) ok,
  ap (λ (r : Lru). r.max_size) q,
  λ j n h. rw e (sv j n (ap (λ (r : Lru). find j r.nodes) (sym q) ∙ h)),
)
Outcome-Serves k v s s' b m ok sv (inr (e, st)) =
    (st.valid, st.max_kept, λ j n h. rw e (served j n h))
  where
    served :
        (j : Bytes) (n : Node) → find j s'.nodes ≡ some n → remember k (some v) m j ≡ some n.value
    served j n h = elim (Bool-cases (bytes_eq k j)) [
      | inl same ↦ ground (
        arith,
        same,
        (Stored-find k v s s' ok st).0,
        ap (λ x. find x s'.nodes) ((bytes_eq_iff k j).0 same),
        h,
      )
      | inr other ↦ rw other (sv j n ((Stored-find k v s s' ok st).1 j n other h))
    ]

Deleted-Serves :
    (k : Bytes) (s s' : Lru) (m : Memory)
    → Serves s m
    → Deleted k s s'
    → Serves s' (remember k none m)
Deleted-Serves k s s' m sv d j n h = elim (Bool-cases (bytes_eq k j)) [
  | inl same ↦ ground (arith, same, d.unread j, h)
  | inr other ↦ rw other (sv j n (ground (arith, other, d.unread j, h)))
]

get-Serves : (k : Bytes) (s : Lru) (m : Memory) → IsValid s → Serves s m → Serves (after_get k s) m
get-Serves k s m ok sv j n h = elim (Option-cases (find j s.nodes)) [
  | inl absent ↦ cc (h, find-after_get j k s ok, absent)
  | inr (n', found) ↦ sv j n' found ∙ ground (arith, found, h, find-after_get j k s ok)
]

pub call-Serves :
    (c : Call) (s s' : Lru) (b : Bool) (m : Memory)
    → IsValid s
    → Serves s m
    → call c s ≡ some (s', b)
    → IsValid s' × (s'.max_size ≡ s.max_size) × Serves s' (note c b m)
unfolding call note
call-Serves (put_call k v) s s' b m ok sv h =
    Outcome-Serves k v s s' b m ok sv (put-Outcome k v s s' b ok h).1
call-Serves (put_if_absent_call k v) s s' b m ok sv h =
    Outcome-Serves k v s s' b m ok sv (put_if_absent-Outcome k v s s' b ok h).1
call-Serves (set_call k v) s s' b m ok sv h =
    Outcome-Serves k v s s' b m ok sv (set-Outcome k v s s' b ok h).1
call-Serves (delete_call k) s s' b m ok sv h =
    let (d, max, e) = delete_some-Deleted k s s' b ok h in
    (d.valid, max, Deleted-Serves k s s' m sv d)
call-Serves (get_call k) s s' b m ok sv h =
    let e : after_get k s ≡ s' = ground (arith, get-reads k s ok, h) in
    (
      subst IsValid e (after_get-IsValid k s ok),
      ap (λ (r : Lru). r.max_size) (sym e) ∙ max_size-after_get k s,
      subst (λ r. Serves r m) e (get-Serves k s m ok sv),
    )

-- Through any run of calls that does not fault the store stays valid and its bound stays, and no
-- lookup finds a value other than the one stored last under its key.
pub run-Serves :
    (cs : List Call) (s s' : Lru) (m m' : Memory)
    → IsValid s
    → Serves s m
    → run cs s m ≡ some (s', m')
    → IsValid s' × (s'.max_size ≡ s.max_size) × Serves s' m'
unfolding run
run-Serves [] s s' m m' ok sv h =
    let e : s ≡ s' = ground arith in
    let q : m ≡ m' = ground arith in
    (subst IsValid e ok, ap (λ (r : Lru). r.max_size) (sym e), moved e q)
  where
    moved : s ≡ s' → m ≡ m' → Serves s' m'
    moved e q = subst (λ x. Serves s' x) q (subst (λ r. Serves r m) e sv)
run-Serves (c ∷ cs) s s' m m' ok sv h =
    let (r, first, later) = >>=-eq-some (call c s) _ h in
    let (s1, b) = r in
    let (ok1, max1, sv1) = call-Serves c s s1 b m ok sv first in
    let (ok', max', sv') = run-Serves cs s1 s' (note c b m) m' ok1 sv1 later in
    (ok', max' ∙ max1, sv')
