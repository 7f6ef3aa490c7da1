-- ===== src/Ipc/Transactions/Atomic.antt =====
-- 8_sem.c: a transaction is one call of `semop`, or none.
use bd_tarantul.Common.{
  ℕ, ◌+◌, ◌≤◌, ◌<◌, ◌≡◌, refl, ap, ◌∙◌, arith, ℤ, true, false, Option, none, some, List, [], ◌∷◌,
  ◌++◌, append_assoc, append-nil, Bytes, bytes_eq, codes, length, length-append, leb, Bool-cases,
  inl, inr,
}
use bd_tarantul.Ipc.Transactions.{
  Delta, Sembuf, Scanned, Shell, goes_on, overflow, is_keyword, delta, operation, commit, round,
  run,
}

module _ {S : Type 0} (semop : List Sembuf → S → Option S)
    (sscanf : Bytes → Scanned → Scanned) where
  -- Lines that `sscanf` reads as these operations, whatever it has read before.
  pub data Reads : List Bytes → List Sembuf → Type 0 where
    nothing : Reads [] []
    line :
        (l : Bytes) (num : ℤ) (cmd : ℕ) (d : Delta) {ls : List Bytes} {ops : List Sembuf}
        → is_keyword l ≡ false
        → ((old : Scanned) → sscanf l old ≡ record { num = num; cmd = cmd })
        → delta cmd ≡ some d
        → Reads ls ops
        → Reads (l ∷ ls) (record { sem_num = num; sem_op = d } ∷ ops)

  -- What `sscanf` has read last after such lines.
  abbrev pub read_last : {ls : List Bytes} {ops : List Sembuf} → Reads ls ops → Scanned → Scanned
  read_last nothing old = old
  read_last (line l num cmd d no_key reads is_op more) old =
      read_last more (record { num = num; cmd = cmd })

  run-goes_on :
      (l : Bytes) (ls : List Bytes) (s s' : Shell S)
      → round semop sscanf l s ≡ goes_on s'
      → run semop sscanf (l ∷ ls) s ≡ run semop sscanf ls s'
  unfolding run
  run-goes_on l ls s s' e = rw (e, run)

  -- Within a transaction the lines are only collected.
  collects :
      {ls : List Bytes} {ops : List Sembuf} (r : Reads ls ops) (rest : List Bytes) (s : Shell S)
      → s.is_inside_txn ≡ true
      → length s.ops + length ops ≤ 100
      → run semop sscanf (ls ++ rest) s
        ≡ run semop sscanf rest (record s { ops = s.ops ++ ops; scanned = read_last r s.scanned })
  unfolding run round operation
  collects nothing rest s inside le = rw (append-nil s.ops)
  collects (line l num cmd d {ls} {ops} no_key reads is_op more) rest s inside le =
      let r : Scanned = record { num = num; cmd = cmd } in
      let op : Sembuf = record { sem_num = num; sem_op = d } in
      let s1 = record s { ops = s.ops ++ op ∷ []; scanned = r } in
      let one : round semop sscanf l s ≡ goes_on s1 = ground (arith, reads s.scanned) in
      run-goes_on l (ls ++ rest) s s1 one
      ∙ collects more rest s1 inside (omega (arith, le, length-append s.ops (op ∷ [])))
      ∙ rw (append_assoc s.ops (op ∷ []) ops)

  -- More operations than the array holds are written beyond it.
  overflows :
      {ls : List Bytes} {ops : List Sembuf}
      → Reads ls ops
      → (rest : List Bytes) (s : Shell S) → s.is_inside_txn ≡ true
      → length s.ops ≤ 100
      → 100 < length s.ops + length ops
      → run semop sscanf (ls ++ rest) s ≡ overflow
  unfolding run round operation
  overflows nothing rest s inside le lt = absurd (omega (arith, le, lt))
  overflows (line l num cmd d {ls} {ops} no_key reads is_op more) rest s inside le lt =
      elim (Bool-cases (leb 100 (length s.ops))) [
        | inl full ↦
            let one : round semop sscanf l s ≡ overflow = ground (arith, reads s.scanned) in
            rw (one, run)
        | inr room ↦
            let r : Scanned = record { num = num; cmd = cmd } in
            let op : Sembuf = record { sem_num = num; sem_op = d } in
            let s1 = record s { ops = s.ops ++ op ∷ []; scanned = r } in
            let one : round semop sscanf l s ≡ goes_on s1 = ground (arith, reads s.scanned) in
            run-goes_on l (ls ++ rest) s s1 one
            ∙ (overflows more rest s1 inside (ground (arith, length-append s.ops (op ∷ [])))
                (omega (arith, lt, length-append s.ops (op ∷ []))))
      ]

  -- The shell after `commit`, by what `semop` answered to all the operations at once.
  abbrev pub settled : Option S → List Sembuf → S → Scanned → Shell S
  settled (some sems) ops old sc = record {
    sems = sems;
    ops = [];
    is_inside_txn = false;
    scanned = sc;
  }
  settled none ops old sc = record { sems = old; ops = ops; is_inside_txn = true; scanned = sc }

  commit-settled :
      (ops : List Sembuf) (sems : S) (sc : Scanned) (o : Option S)
      → semop ops sems ≡ o
      → commit semop sscanf (record { sems = sems; ops = ops; is_inside_txn = true; scanned = sc })
        ≡ settled o ops sems sc
  unfolding commit
  commit-settled ops sems sc none e = rw (e, commit)
  commit-settled ops sems sc (some sems') e = rw (e, commit)

  -- A transaction of at most 100 operations is atomic: up to `commit` nothing is called, and `commit`
  -- makes one call with all of them, in order; where it fails, the semaphores are as before and the
  -- transaction stays open. `rollback` calls nothing.
  pub run-transaction :
      {ls : List Bytes} {ops : List Sembuf} (reads : Reads ls ops) (rest : List Bytes) (s : Shell S)
      → s.ops ≡ []
      → length ops ≤ 100
      → (run semop sscanf (codes "begin" ∷ (ls ++ (codes "commit" ∷ rest))) s
          ≡ run semop sscanf rest
              (settled (semop ops s.sems) ops s.sems (read_last reads s.scanned)))
        × (run semop sscanf (codes "begin" ∷ (ls ++ (codes "rollback" ∷ rest))) s
            ≡ run semop sscanf rest (record {
              sems = s.sems;
              ops = [];
              is_inside_txn = false;
              scanned = read_last reads s.scanned;
            }))
  unfolding round bytes_eq
  run-transaction {ls} {ops} reads rest s none_yet le =
      let opened = record s { is_inside_txn = true } in
      let inside : Shell S = record {
        sems = s.sems;
        ops = ops;
        is_inside_txn = true;
        scanned = read_last reads s.scanned;
      } in
      let few : length s.ops + length ops ≤ 100 = omega (arith, le, ap length none_yet) in
      let body = λ (after : List Bytes).
        run-goes_on (codes "begin") (ls ++ after) s opened refl
        ∙ collects reads after opened refl few
        ∙ ap (λ (os : List Sembuf). run semop sscanf after (record inside { ops = os ++ ops }))
            none_yet in
      (
        body (codes "commit" ∷ rest)
            ∙ run-goes_on (codes "commit") rest inside _
                (ap goes_on (commit-settled ops s.sems _ _ refl)),
        body (codes "rollback" ∷ rest) ∙ run-goes_on (codes "rollback") rest inside _ refl,
      )

  -- With more than 100 operations the shell writes beyond its array, whatever follows.
  pub run-overflow :
      {ls : List Bytes} {ops : List Sembuf}
      → Reads ls ops
      → (rest : List Bytes) (s : Shell S) → s.ops ≡ []
      → 100 < length ops
      → run semop sscanf (codes "begin" ∷ (ls ++ rest)) s ≡ overflow
  unfolding run round bytes_eq
  run-overflow reads rest s e lt =
      overflows reads rest (record s { is_inside_txn = true }) refl (omega (arith, ap length e))
        (omega (arith, ap length e, lt))
