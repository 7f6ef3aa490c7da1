-- ===== src/Echo/Rounds.antt =====
-- echo.c: what is sent for what is received, through any series of partial and interrupted writes.
use bd_tarantul.Common.{
  ℕ, zero, suc, ◌+◌, ◌-◌, ◌≤◌, ◌<◌, ◌≡◌, refl, sym, ap, ap₂, ◌∙◌, arith, Bool, true, false, Option,
  some, List, [], ◌∷◌, ◌++◌, map, ltb, Bytes, length, take, drop, append_assoc, append-nil,
  length-append, length-drop,
}
use bd_tarantul.Echo.{
  Interest, epollin, epollout, Conn, kept, Written, failed, wrote, handle_out, readable, writable,
  on_client, and_then, run,
}

-- Answers of `write` that take `n` bytes in all: failures, whatever their reason, partial writes, and
-- at last one that takes all the rest.
pub data Sends : ℕ → List Written → Type 0 where
  last : (n : ℕ) → Sends n (wrote n ∷ [])
  again : {n : ℕ} {ws : List Written} (eintr : Bool) → Sends n ws → Sends n (failed eintr ∷ ws)
  part : {n k : ℕ} {ws : List Written} → k < n → Sends (n - k) ws → Sends n (wrote k ∷ ws)

-- How many bytes the partial writes take.
abbrev pub parts : {n : ℕ} {ws : List Written} → Sends n ws → ℕ
parts (last n) = 0
parts (again _ s) = parts s
parts (part {k = k} _ s) = k + parts s

take-nil : (n : ℕ) → ◌≡◌ {A = Bytes} (take n []) []
take-nil zero = refl
take-nil (suc n) = refl

drop-nil : (n : ℕ) → ◌≡◌ {A = Bytes} (drop n []) []
drop-nil zero = refl
drop-nil (suc n) = refl

take-plus : (k n : ℕ) (xs : Bytes) → take k xs ++ take n (drop k xs) ≡ take (k + n) xs
take-plus zero n xs = ap (λ m. take m xs) (omega arith)
take-plus (suc k) n [] = take-nil n ∙ sym (take-nil (suc k + n))
take-plus (suc k) n (x ∷ xs) =
    let e : suc (k + n) ≡ suc k + n = omega arith in
    ap (◌∷◌ x) (take-plus k n xs) ∙ ap (λ m. take m (x ∷ xs)) e

drop-plus : (o k : ℕ) (xs : Bytes) → drop k (drop o xs) ≡ drop (o + k) xs
drop-plus zero k xs = ap (λ m. drop m xs) (omega arith)
drop-plus (suc o) k [] = drop-nil k ∙ sym (drop-nil (suc o + k))
drop-plus (suc o) k (x ∷ xs) =
    let e : suc (o + k) ≡ suc o + k = omega arith in drop-plus o k xs ∙ ap (λ m. drop m (x ∷ xs)) e

abbrev pub conn : Bytes → ℕ → ℕ → Option Interest → Bytes → Conn
conn d n o watched sent = record {
  echo = record { echo_data = d; echo_length = n; echo_offset = o };
  watched = watched;
  sent = sent;
}

same_conn :
    {d : Bytes} {m n o q : ℕ} {i : Option Interest} {s t : Bytes}
    → m ≡ n
    → o ≡ q
    → s ≡ t
    → kept (conn d m o i s) ≡ kept (conn d n q i t)
same_conn e f g = cc

module _ (d : Bytes) where
  sent_parts :
      (o k n : ℕ) (sent : Bytes)
      → k ≤ n
      → (sent ++ take k (drop o d)) ++ take (n - k) (drop (o + k) d) ≡ sent ++ take n (drop o d)
  sent_parts o k n sent h =
      let e : k + (n - k) ≡ n = omega (arith, h) in
      append_assoc sent (take k (drop o d)) (take (n - k) (drop (o + k) d))
      ∙ ap (λ t. sent ++ t)
          (ap (λ t. take k (drop o d) ++ take (n - k) t) (sym (drop-plus o k d))
            ∙ take-plus k (n - k) (drop o d)
            ∙ ap (λ m. take m (drop o d)) e)

  sends_last :
      (n o : ℕ) (sent : Bytes)
      → o + n ≤ length d
      → on_client (writable (wrote n)) (conn d n o (some epollout) sent)
        ≡ kept (conn d n o (some epollin) (sent ++ take n (drop o d)))
  unfolding on_client handle_out
  sends_last n o sent h =
      let e : ltb (length d) (o + n) ≡ false = ground (arith, h) in
      let f : ltb n n ≡ false = ground arith in rw (e, f)

  sends_failed :
      (n o : ℕ) (sent : Bytes) (eintr : Bool)
      → on_client (writable (failed eintr)) (conn d n o (some epollout) sent)
        ≡ kept (conn d n o (some epollout) (sent ++ []))
  unfolding on_client handle_out
  sends_failed n o sent true = refl
  sends_failed n o sent false = refl

  sends_part :
      (n o k : ℕ) (sent : Bytes)
      → o + n ≤ length d
      → k < n
      → on_client (writable (wrote k)) (conn d n o (some epollout) sent)
        ≡ kept (conn d (n - k) (o + k) (some epollout) (sent ++ take k (drop o d)))
  unfolding on_client handle_out
  sends_part n o k sent h l =
      let e : ltb (length d) (o + k) ≡ false = ground (arith, h, l) in
      let f : ltb k n ≡ true = ground (arith, l) in rw (e, f)

  writes-sent :
      {n : ℕ} {ws : List Written} (s : Sends n ws) (o : ℕ) (sent : Bytes)
      → o + n ≤ length d
      → run (map writable ws) (conn d n o (some epollout) sent)
        ≡ kept (conn d (n - parts s) (o + parts s) (some epollin) (sent ++ take n (drop o d)))
  unfolding run
  writes-sent (last n) o sent h =
      ap (λ r. and_then r (run [])) (sends_last n o sent h)
      ∙ ap₂ (λ m q. kept (conn d m q (some epollin) (sent ++ take n (drop o d))))
          (let e : n ≡ n - 0 = omega arith in e) (let e : o ≡ o + 0 = omega arith in e)
  writes-sent {n} (again {ws = ws} eintr s) o sent h =
      ap (λ r. and_then r (run (map writable ws))) (sends_failed n o sent eintr)
      ∙ writes-sent s o (sent ++ []) h
      ∙ ap (λ t. kept (conn d (n - parts s) (o + parts s) (some epollin) (t ++ take n (drop o d))))
          (append-nil sent)
  writes-sent {n} (part {k = k} {ws = ws} l s) o sent h =
      ap (λ r. and_then r (run (map writable ws))) (sends_part n o k sent h l)
      ∙ writes-sent s (o + k) (sent ++ take k (drop o d)) (omega (arith, h, l))
      ∙ same_conn (let e : (n - k) - parts s ≡ n - (k + parts s) = omega arith in e)
          (let e : (o + k) + parts s ≡ o + (k + parts s) = omega arith in e)
          (sent_parts o k n sent (omega (arith, l)))

take-length : (xs ys : Bytes) → take (length xs) (xs ++ ys) ≡ xs
take-length [] ys = refl
take-length (x ∷ xs) ys = ap (◌∷◌ x) (take-length xs ys)

length-overwrite :
    (xs d : Bytes) → length xs ≤ length d → length (xs ++ drop (length xs) d) ≡ length d
length-overwrite xs d h =
    omega (arith, h, length-append xs (drop (length xs) d), length-drop (length xs) d)

-- After a read of `bs`, any writes that fail, are interrupted or are partial, followed by the one
-- that takes the rest, send `length bs` bytes of `data` from `offset` on, and then the connection is
-- watched for input again. `offset` keeps what the partial writes added to it: it is not set back.
pub run-echo :
    (b : ℕ) (bs d : Bytes) (m o : ℕ) (sent : Bytes) {ws : List Written}
    (s : Sends (length (b ∷ bs)) ws)
    → o + length (b ∷ bs) ≤ length d
    → run (readable (some (b ∷ bs)) ∷ map writable ws) (conn d m o (some epollin) sent)
      ≡ kept (
          conn
            ((b ∷ bs) ++ drop (length (b ∷ bs)) d)
            (length (b ∷ bs) - parts s)
            (o + parts s)
            (some epollin)
            (sent ++ take (length (b ∷ bs)) (drop o ((b ∷ bs) ++ drop (length (b ∷ bs)) d))))
unfolding run on_client
run-echo b bs d m o sent s h =
    writes-sent ((b ∷ bs) ++ drop (length (b ∷ bs)) d) s o sent
      (omega (arith, h, length-overwrite (b ∷ bs) d (omega (arith, h))))

-- On a connection with `offset` 0, such a round sends exactly the bytes that were read, in order.
pub run-echo_fresh :
    (b : ℕ) (bs d : Bytes) (m : ℕ) (sent : Bytes) {ws : List Written}
    (s : Sends (length (b ∷ bs)) ws)
    → length (b ∷ bs) ≤ length d
    → run (readable (some (b ∷ bs)) ∷ map writable ws) (conn d m 0 (some epollin) sent)
      ≡ kept (
          conn
            ((b ∷ bs) ++ drop (length (b ∷ bs)) d)
            (length (b ∷ bs) - parts s)
            (parts s)
            (some epollin)
            (sent ++ b ∷ bs))
run-echo_fresh b bs d m sent s h =
    run-echo b bs d m 0 sent s (omega (arith, h))
    ∙ same_conn refl (let e : 0 + parts s ≡ parts s = omega arith in e)
        (ap (λ t. sent ++ t) (take-length (b ∷ bs) (drop (length (b ∷ bs)) d)))
