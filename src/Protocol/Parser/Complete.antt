-- ===== src/Protocol/Parser/Complete.antt =====
-- Parser.cpp: a parser that has read a complete line has a command for `Build`.
use bd_tarantul.Common.{
  ℕ, ◌+◌, ◌≡◌, ◌≢◌, refl, true, false, none, [], ◌∷◌, Bytes, Bool-cases, inl, inr, arith, subst,
  sym,
}
use bd_tarantul.Protocol.Parser.{
  Parser, State, Result, ok, throw, undefined, ◌>>=◌, dispatch, step_name, end_name, step_key,
  step_get_key, step_flags, step_expr_time_start, step_expr_time, step_bytes, step_lf, parse_from,
  build,
}
use bd_tarantul.Protocol.Parser.Chunks.{parse_from_complete, parse_from-more}

abbrev pub IsWhole : Parser → Type 0
IsWhole q = q.parse_complete ≡ true → q.state ≡ State.s_lf

abbrev pub EndsWhole : Result Parser → Type 0
EndsWhole (ok q) = IsWhole q
EndsWhole _ = Unit {0}

abbrev pub LeavesWhole : Result (Parser × ℕ) → Type 0
LeavesWhole (ok (q, n)) = IsWhole q
LeavesWhole _ = Unit {0}

pub dispatch-EndsWhole :
    (t : State) (i c : ℕ) (p : Parser)
    → p.parse_complete ≡ false
    → p.state ≡ t
    → EndsWhole (dispatch t i c p)
unfolding dispatch step_name end_name step_key step_get_key step_flags step_expr_time_start
    step_expr_time step_bytes step_lf
dispatch-EndsWhole State.s_cr i c p h e = ground arith
dispatch-EndsWhole State.s_lf i c p h e = ground arith
dispatch-EndsWhole State.s_name i c p h e = ground arith
dispatch-EndsWhole State.sp_key i c p h e = ground arith
dispatch-EndsWhole State.sp_flags i c p h e = ground arith
dispatch-EndsWhole State.sp_expr_time_start i c p h e = ground arith
dispatch-EndsWhole State.sp_expr_time i c p h e = ground arith
dispatch-EndsWhole State.sp_bytes i c p h e = ground arith
dispatch-EndsWhole State.sg_key i c p h e = ground arith

pub build-ne-none : (p : Parser) → p.state ≡ State.s_lf → build p ≢ ok none
unfolding build
build-ne-none p h = ground arith

-- Whatever `Parse` reads from a parser that waits, where it stops with a complete line it waits for
-- the command to be built.
pub parse_from-LeavesWhole :
    (i : ℕ) (cs : Bytes) (p : Parser) → p.parse_complete ≡ false → LeavesWhole (parse_from i cs p)
parse_from-LeavesWhole i [] p h = unfold parse_from in λ e. absurd (ground arith)
parse_from-LeavesWhole i (c ∷ cs) p h = subst LeavesWhole (sym (parse_from-more i c cs p h)) (
    next (dispatch p.state i c p) (dispatch-EndsWhole p.state i c p h refl)
      (parse_from-LeavesWhole (i + 1) cs))
  where
    next :
        (r : Result Parser)
        → EndsWhole r
        → ((q : Parser) → q.parse_complete ≡ false → LeavesWhole (parse_from (i + 1) cs q))
        → LeavesWhole (r >>= parse_from (i + 1) cs)
    next (ok q) whole rest = elim (Bool-cases q.parse_complete) [
      | inl done ↦ subst LeavesWhole (sym (parse_from_complete (i + 1) cs q done)) whole
      | inr more ↦ rest q more
    ]
    next (throw e) whole rest = tt
    next undefined whole rest = tt
