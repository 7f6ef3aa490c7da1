-- ===== src/Ipc/Transactions.antt =====
-- sysprog/lecture_examples/7_ipc/8_sem.c: a shell on an array of semaphores, which collects operations
-- between `begin` and `commit`. The calls `semop` and `sscanf` are parameters; a line is what was read
-- without its end.
pub mod Atomic
mod Tests
use bd_tarantul.Common.{
  ℕ, suc, ◌+◌, ◌≡◌, ℤ, Bool, true, false, Option, none, some, List, [], ◌∷◌, ◌++◌, Bytes, bytes_eq,
  codes, length, leb, ◌||◌, ◌==◌, if◌then◌else◌,
}

pub data Delta : Type 0 where
  down : Delta  -- sem_op = -1
  up : Delta  -- sem_op = 1

pub record Sembuf : Type 0 where
  pub sem_num : ℤ  -- the number as read, one more than the index
  pub sem_op : Delta

-- What `sscanf` leaves in `sem_num` and `cmd`.
pub record Scanned : Type 0 where
  pub num : ℤ
  pub cmd : ℕ

pub record Shell (S : Type 0) : Type 0 where
  pub sems : S
  pub ops : List Sembuf  -- the first ops_count entries of `ops`
  pub is_inside_txn : Bool
  pub scanned : Scanned

pub data Round (S : Type 0) : Type 0 where
  goes_on : Shell S → Round S
  leaves : S → Round S
  deletes : Round S
  overflow : Round S  -- a write beyond `ops[100]`

abbrev pub is_keyword : Bytes → Bool
is_keyword line =
    bytes_eq line (codes "begin")
    || bytes_eq line (codes "commit")
    || bytes_eq line (codes "rollback")
    || bytes_eq line (codes "delete")
    || bytes_eq line (codes "quit")
    || bytes_eq line (codes "show")

abbrev pub delta : ℕ → Option Delta
delta cmd = if cmd == b'-' then some down else if cmd == b'+' then some up else none

module _ {S : Type 0} (semop : List Sembuf → S → Option S)
    (sscanf : Bytes → Scanned → Scanned) where
  -- The branch for the lines that are no keyword.
  unfoldable pub operation : Bytes → Shell S → Round S
  operation line s =
      let r = sscanf line s.scanned in
      elim (delta r.cmd) [
        | none ↦ goes_on (record s { scanned = r })
        | some d ↦
            let op : Sembuf = record { sem_num = r.num; sem_op = d } in
            if leb 100 (length s.ops)
            then overflow
            else if s.is_inside_txn
            then goes_on (record s { ops = s.ops ++ op ∷ []; scanned = r })
            else elim (semop (op ∷ []) s.sems) [
              | none ↦ goes_on (record s { scanned = r })
              | some sems ↦ goes_on (record s { sems = sems; scanned = r })
            ]
      ]

  unfoldable pub commit : Shell S → Shell S
  commit s = elim (semop s.ops s.sems) [
    | none ↦ s
    | some sems ↦ record s { sems = sems; ops = []; is_inside_txn = false }
  ]

  unfoldable pub round : Bytes → Shell S → Round S
  unfolding operation commit
  round line s =
      if bytes_eq line (codes "begin")
      then goes_on (record s { is_inside_txn = true })
      else if bytes_eq line (codes "commit")
      then goes_on (commit s)
      else if bytes_eq line (codes "rollback")
      then goes_on (record s { is_inside_txn = false; ops = [] })
      else if bytes_eq line (codes "delete")
      then deletes
      else if bytes_eq line (codes "quit")
      then leaves s.sems
      else if bytes_eq line (codes "show")
      then goes_on s
      else operation line s

  -- The main loop over the lines.
  unfoldable pub run : List Bytes → Shell S → Round S
  unfolding round
  run [] s = goes_on s
  run (line ∷ lines) s = elim (round line s) [ goes_on s' ↦ run lines s' | other ↦ other ]
