-- ===== src/Storage/Locked/Tests.antt =====
-- ThreadSafeSimpleLRU.h: a thread that puts an entry and one that gets it.
use bd_tarantul.Common.{
  ℕ, ◌≡◌, refl, none, some, List, [], ◌∷◌, Bytes, bytes_eq, codes, true, if◌then◌else◌, ◌==◌,
}
use bd_tarantul.Storage.Nodes.{
  total_size, find, last, unlink, contains, to_fresh_end, move_to_fresh_data,
}
use bd_tarantul.Storage.Lru.{Lru, evict, insert_new_value, update_value, index_find, put, get}
use bd_tarantul.Storage.Lru.Evict.{IsValid}
use bd_tarantul.Storage.History.{Call, put_call, get_call}
use bd_tarantul.Storage.Locked.{
  Answer, perform, World, lock, enter, leave, unlock, Reaches, here, after,
}
use bd_tarantul.Storage.Locked.Serial.{Replays, own, whole, Reaches-replays}
use bd_tarantul.Storage.Locked.Serves.{Consistent, Reaches-Consistent}

abbrev key : Bytes
key = codes "k"

abbrev value : Bytes
value = codes "v"

abbrev empty : Lru
empty = record { max_size = 8; current_size = 0; nodes = []; index = [] }

abbrev full : Lru
full = record {
  max_size = 8;
  current_size = 2;
  nodes = record { key = key; value = value } ∷ [];
  index = key ∷ [];
}

abbrev programs : ℕ → List Call
programs i = if i == 0 then put_call key value ∷ [] else if i == 1 then get_call key ∷ [] else []

abbrev stored : Answer
stored = record { result = true; value = none }

abbrev found : Answer
found = record { result = true; value = some value }

performs_put : perform (put_call key value) empty ≡ some (full, stored)
unfolding perform put insert_new_value evict index_find contains find last bytes_eq total_size
    update_value
performs_put = refl

performs_get : perform (get_call key) full ≡ some (full, found)
unfolding perform get index_find contains find bytes_eq move_to_fresh_data to_fresh_end unlink last
performs_get = refl

both_done :
    (w : World) × Reaches empty programs w
    × (w.log ≡ (1, get_call key, found) ∷ (0, put_call key value, stored) ∷ [])
both_done = (
  _,
  after
      (after
        (after
          (after
            (after
              (after (after here (lock 0 (put_call key value) [] refl refl refl)) (enter 0 refl))
              (leave 0 (put_call key value) [] empty full stored refl refl performs_put))
            (unlock 0 refl))
          (lock 1 (get_call key) [] refl refl refl))
        (enter 1 refl))
      (leave 1 (get_call key) [] full full found refl refl performs_get),
  refl,
)

empty-IsValid : IsValid empty
unfolding contains find bytes_eq
empty-IsValid = record { distinct = tt; synced = λ k. refl }

Reaches-replays_example :
    Replays empty both_done.0.log both_done.0.store
    × (own 1 both_done.0.log ≡ (both_done.0.threads 1).done)
    × (whole (both_done.0.threads 1).done (both_done.0.threads 1).todo ≡ programs 1)
Reaches-replays_example = Reaches-replays both_done.1 1

Reaches-Consistent_example : IsValid both_done.0.store × Consistent both_done.0.log (λ k. none)
unfolding find
Reaches-Consistent_example = Reaches-Consistent (λ k. none) empty-IsValid (λ k n h. cc) both_done.1
