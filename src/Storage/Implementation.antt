-- ===== src/Storage/Implementation.antt =====
-- `SimpleLRU` keeps what Storage.h promises, on every call that does not fault.
use bd_tarantul.Common.{
  is_some, ◌≡◌, refl, sym, ap, ◌∙◌, subst, Bool, true, false, not, ◌&&◌, Option, none, some, Bytes,
  bytes_eq, bytes_eq_refl, ◌⊎◌, inl, inr,
}
use bd_tarantul.Storage.Interface.{Storage, Stores}
use bd_tarantul.Storage.Nodes.{Node, find}
use bd_tarantul.Storage.Lru.{Lru, put, put_if_absent, set, delete, get, too_large}
use bd_tarantul.Storage.Lru.Evict.{IsValid}
use bd_tarantul.Storage.Lru.Stored.{Stored}
use bd_tarantul.Storage.Lru.Outcomes.{
  Outcome, Stored-find, put-Outcome, put_if_absent-Outcome, set-Outcome,
}
use bd_tarantul.Storage.Lru.Reads.{
  after_get, value_of, get-reads, max_size-after_get, after_get-IsValid, find-after_get,
  delete_some-Deleted,
}

-- What a client can read under a key.
abbrev pub view : Lru → Bytes → Option Bytes
view s k = value_of (find k s.nodes)

pub is_some-value_of : (o : Option Node) → is_some (value_of o) ≡ is_some o
is_some-value_of none = refl
is_some-value_of (some n) = refl

Stored-Stores :
    (k v : Bytes) (s s' : Lru) → IsValid s → Stored k v s s' → Stores k v (view s) (view s')
Stored-Stores k v s s' ok st = record {
  stored = ap value_of (Stored-find k v s s' ok st).0;
  others = λ j w ne h. seen j w ne (find j s'.nodes) refl h;
}
  where
    seen :
        (j w : Bytes)
        → bytes_eq k j ≡ false
        → (o : Option Node) → find j s'.nodes ≡ o
        → value_of o ≡ some w
        → view s j ≡ some w
    seen j w ne none e h = cc
    seen j w ne (some n) e h = ap value_of ((Stored-find k v s s' ok st).1 j n ne e) ∙ h

pub Outcome-view :
    (k v : Bytes) (s s' : Lru) (b : Bool)
    → IsValid s
    → Outcome k v s (s', b)
    → IsValid s' × (((b ≡ false) × (s' ≡ s)) ⊎ ((b ≡ true) × Stores k v (view s) (view s')))
Outcome-view k v s s' b ok (inl (e, q)) = (subst IsValid (sym q) ok, inl (e, q))
Outcome-view k v s s' b ok (inr (e, st)) = (st.valid, inr (e, Stored-Stores k v s s' ok st))

pub get_view :
    (k : Bytes) (s : Lru)
    → IsValid s
    → (s' : Lru) × (get k s ≡ some (s', view s k))
      × IsValid s'
      × ((j : Bytes) → view s' j ≡ view s j)
      × ((j v : Bytes) → not (too_large j v s') ≡ not (too_large j v s))
get_view k s ok = (
  after_get k s,
  get-reads k s ok,
  after_get-IsValid k s ok,
  λ j. find-after_get j k s ok,
  λ j v. rw (max_size-after_get k s),
)

pub delete_view :
    (k : Bytes) (s s' : Lru) (b : Bool)
    → IsValid s
    → delete k s ≡ some (s', b)
    → (b ≡ is_some (view s k))
      × IsValid s'
      × (view s' k ≡ none)
      × ((j : Bytes) → bytes_eq k j ≡ false → view s' j ≡ view s j)
delete_view k s s' b ok h =
    let (d, max, e) = delete_some-Deleted k s s' b ok h in
    (
      e ∙ sym (is_some-value_of (find k s.nodes)),
      d.valid,
      ap value_of (d.unread k) ∙ rw (bytes_eq_refl k),
      λ j ne. ap value_of (d.unread j) ∙ rw ne,
    )

-- The store as an implementation of the interface: every law of the interface holds of it.
abbrev pub simple_lru : Storage
simple_lru = record {
  State = Lru;
  put = put;
  put_if_absent = put_if_absent;
  set = set;
  delete = delete;
  get = get;
  IsGood = IsValid;
  view = view;
  fits = λ k v s. not (too_large k v s);
  get_view = get_view;
  put_view = λ k v s s' b ok h.
      let (e, o) = put-Outcome k v s s' b ok h in
      let (v', r) = Outcome-view k v s s' b ok o in (e, v', r);
  put_if_absent_view = λ k v s s' b ok h.
      let (e, o) = put_if_absent-Outcome k v s s' b ok h in
      let (v', r) = Outcome-view k v s s' b ok o in
      (
        e ∙ ap (λ t. not (too_large k v s) && not t) (sym (is_some-value_of (find k s.nodes))),
        v',
        r,
      );
  set_view = λ k v s s' b ok h.
      let (e, o) = set-Outcome k v s s' b ok h in
      let (v', r) = Outcome-view k v s s' b ok o in
      (e ∙ ap (λ t. not (too_large k v s) && t) (sym (is_some-value_of (find k s.nodes))), v', r);
  delete_view = delete_view;
}
