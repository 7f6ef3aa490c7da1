-- ===== src/Ipc/Events/Messages.antt =====
-- 9_sem_event_source.c and 9_sem_event_cons.c: the bytes of a message, with a long of eight bytes and
-- an int of four, the low byte first.
use bd_tarantul.Common.{
  ℕ, zero, suc, ◌+◌, ◌*◌, ◌/◌, ◌%◌, ◌≤◌, ◌<◌, ◌≡◌, ◌^◌, ◌>>=◌, leb, Bool-cases, inl, inr,
  length-take, arith, Option, none, some, [], ◌∷◌, ◌++◌, Bytes, length, take, drop, ltb,
  if◌then◌else◌, length-append,
}

pub record Message : Type 0 where
  pub type : ℕ
  pub text : Bytes  -- from `data` on: `data_size` bytes and what follows them
  pub size : ℕ  -- data_size
  pub next : ℕ  -- pos - msg

abbrev pub to_bytes : ℕ → ℕ → Bytes
to_bytes zero n = []
to_bytes (suc k) n = n % 256 ∷ to_bytes k (n / 256)

abbrev pub of_bytes : Bytes → ℕ
of_bytes [] = 0
of_bytes (b ∷ bs) = b + 256 * of_bytes bs

unfoldable pub pack_msg : ℕ → Bytes → Bytes
pack_msg type text = to_bytes 8 type ++ (to_bytes 4 (length text) ++ text)

unfoldable pub unpack_msg : Bytes → Message
unpack_msg msg =
    let size = of_bytes (take 4 (drop 8 msg)) in
    record { type = of_bytes (take 8 msg); text = drop 12 msg; size = size; next = 12 + size }

-- `send_msg` packs into 512 bytes: beyond them it writes outside of the array. Otherwise `msgsnd`
-- takes the type and `size` bytes after it, eight more than were packed: `after` is what the array
-- holds there.
unfoldable pub send : ℕ → Bytes → (after : Bytes) → Option Bytes
send type text after =
    let msg = pack_msg type text in
    if ltb 512 (length msg) then none else some (msg ++ take 8 after)

-- `recv_msg` takes what was sent into an array of 512 bytes too.
unfoldable pub recv_msg : Bytes → Option Message
recv_msg msg = if ltb 512 (length msg) then none else some (unpack_msg msg)

bytes_below : ℕ → ℕ
bytes_below zero = 1
bytes_below (suc k) = 256 * bytes_below k

of_bytes-to_bytes : (k n : ℕ) → n < bytes_below k → of_bytes (to_bytes k n) ≡ n
unfolding bytes_below
of_bytes-to_bytes zero n h = omega (arith, h)
of_bytes-to_bytes (suc k) n h = omega (arith, of_bytes-to_bytes k (n / 256) (omega (arith, h)))

type_back : (type : ℕ) → type < 2 ^ 63 → of_bytes (to_bytes 8 type) ≡ type
unfolding bytes_below
type_back type h = of_bytes-to_bytes 8 type (omega (arith, h))

size_back : (n : ℕ) → n ≤ 492 → of_bytes (to_bytes 4 n) ≡ n
unfolding bytes_below
size_back n h = of_bytes-to_bytes 4 n (omega (arith, h))

-- The text of a message arrives with its type, and with eight bytes that were not packed, exactly when
-- it has at most 492 bytes. A longer one is written or read beyond an array of 512 bytes.
pub recv_msg-send :
    (type : ℕ) (text after : Bytes)
    → type < 2 ^ 63
    → 8 ≤ length after
    → (send type text after >>= recv_msg) ≡ (
        if leb (length text) 492
        then some (record {
          type = type;
          text = text ++ take 8 after;
          size = length text;
          next = 12 + length text;
        })
        else none)
unfolding send recv_msg pack_msg unpack_msg
recv_msg-send type text after h le = elim (Bool-cases (leb (length text) 492)) [
  | inl fits ↦ ground (
    arith,
    length-append text (take 8 after),
    length-take 8 after,
    type_back type h,
    size_back (length text),
  )
  | inr long ↦ ground (arith, length-append text (take 8 after), length-take 8 after)
]
