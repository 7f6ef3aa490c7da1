-- ===== src/Network/Session/Split.antt =====
-- The processing of one read is that of its bytes one at a time.
use bd_tarantul.Common.{
  ℕ, zero, suc, ◌+◌, ◌-◌, min, ◌≤◌, ◌<◌, ◌≡◌, ◌≢◌, refl, sym, subst, ◌∙◌, Bool, true, false, Option,
  none, some, [], ◌∷◌, Bytes, length, drop, length-drop, arith, ◌==◌,
}
use bd_tarantul.Protocol.Command.{Command}
use bd_tarantul.Protocol.Parser
use bd_tarantul.Protocol.Parser.{
  Parser, State, Result, ok, throw, undefined, dispatch, parse_from, parse, build, reset,
}
use bd_tarantul.Protocol.Parser.Chunks.{parse_from-more}
use bd_tarantul.Protocol.Parser.Errors.{Consumes, parse_from-Consumes}
use bd_tarantul.Protocol.Parser.Complete.{LeavesWhole, parse_from-LeavesWhole, build-ne-none}
use bd_tarantul.Storage.Interface.{Storage}
use bd_tarantul.Network.Session.{
  Session, Served, done, ◌>>=◌, with_line_end, built_of, built, built_if, parsed, parse_part,
  fill_part, run_part, process_from, process,
}
use bd_tarantul.Network.Session.Bytewise.{take_bytes, IsBetween}
use bd_tarantul.Network.Session.Refines.{session, resume, bytes-parse, >>=_assoc}
use bd_tarantul.Network.Session.Rounds.{run, bytes, Agrees, rounds, rounds-waiting, rounds-ready}

abbrev TakesSome : ℕ → Result (Parser × ℕ) → Type 0
TakesSome i (ok (q, k)) = i < k
TakesSome i _ = Unit {0}

takes_some :
    (i b : ℕ) (bs : Bytes) (p : Parser)
    → p.parse_complete ≡ false
    → TakesSome i (parse_from i (b ∷ bs) p)
takes_some i b bs p h =
    subst (TakesSome i) (sym (parse_from-more i b bs p h)) (next (dispatch p.state i b p))
  where
    further : (r : Result (Parser × ℕ)) → Consumes (i + 1) bs r → TakesSome i r
    further (ok (q, k)) c = omega (arith, c.0)
    further (throw e) c = tt
    further undefined c = tt

    next : (r : Result Parser) → TakesSome i (Parser.◌>>=◌ r (parse_from (i + 1) bs))
    next (ok q) = further (parse_from (i + 1) bs q) (parse_from-Consumes (i + 1) bs q)
    next (throw e) = tt
    next undefined = tt

module _ (storage : Storage) (ending : Bytes) (send : Bytes → Bytes → Bool) where
  open storage use {State as Store}

  abbrev go_on : ℕ → Session Store × Bytes × Bool → Served Store (Session Store)
  go_on fuel t = elim t.2 [ true ↦ done t.0 | false ↦ rounds storage ending send fuel t.1 t.0 ]

  module _ (fuel : ℕ) (ih : Agrees storage ending send fuel) (n : ℕ) (arg : Bytes) (store : Store)
      (out : Bytes) where
    -- The command of a complete line, and what follows the line.
    built-agrees :
        (q : Parser) (r : Result (Option (Command × ℕ))) (rest : Bytes)
        → r ≢ ok none
        → length rest ≤ fuel
        → (built_of r (session q none n arg store out) >>= λ s. go_on fuel (s, rest, false)) ≡ (
            built_of r (session q none n arg store out)
            >>= run storage ending send
            >>= bytes storage ending send rest)
    built-agrees q (throw e) rest some_built l = refl
    built-agrees q undefined rest some_built l = refl
    built-agrees q (ok none) rest some_built l = absurd (some_built refl)
    built-agrees q (ok (some (c, m))) rest some_built l =
        rounds-ready storage ending send fuel ih q c arg store out (with_line_end m) rest l

    line-agrees :
        (b : ℕ) (bs : Bytes) (p : Parser) (r : Result (Parser × ℕ))
        → length (b ∷ bs) ≤ suc fuel
        → TakesSome 0 r
        → LeavesWhole r
        → (parsed (b ∷ bs) r (session p none n arg store out) >>= go_on fuel)
          ≡ resume storage ending send 0 (b ∷ bs) (session p none n arg store out) r
    unfolding resume
    line-agrees b bs p (throw e) l t w = refl
    line-agrees b bs p undefined l t w = refl
    line-agrees b bs p (ok (q, k)) l t w =
        let e : (k == 0) ≡ false = ground (arith, t) in
        let f : k - 0 ≡ k = omega arith in rw (e, f) (complete q.parse_complete refl)
      where
        short : length (drop k (b ∷ bs)) ≤ fuel
        short = omega (arith, l, t, length-drop k (b ∷ bs))

        complete :
            (z : Bool)
            → q.parse_complete ≡ z
            → ((built_if z (session q none n arg store out) >>= λ s.
                  done (s, drop k (b ∷ bs), false))
                >>= go_on fuel)
              ≡ (built_if z (session q none n arg store out)
                  >>= run storage ending send
                  >>= bytes storage ending send (drop k (b ∷ bs)))
        complete true e =
            >>=_assoc (built_if true (session q none n arg store out))
              (λ s. done (s, drop k (b ∷ bs), false)) (go_on fuel)
            ∙ unfold built in
              built-agrees q (build q) (drop k (b ∷ bs)) (build-ne-none q (w e)) short
        complete false e =
            unfold rounds fill_part run_part in
            ih (drop k (b ∷ bs)) (session q none n arg store out) short e

  module _ (fuel : ℕ) (ih : Agrees storage ending send fuel) where
    input-agrees :
        (b : ℕ) (bs : Bytes) (s : Session Store) (o : Option Command)
        → length (b ∷ bs) ≤ suc fuel
        → IsBetween storage ending send (session s.parser o s.arg_remains s.argument s.store s.out)
        → process_from storage ending send
            (suc fuel)
            (b ∷ bs)
            (session s.parser o s.arg_remains s.argument s.store s.out)
          ≡ bytes storage ending send
              (b ∷ bs)
              (session s.parser o s.arg_remains s.argument s.store s.out)
    unfolding process_from parse_part rounds
    input-agrees b bs s none l h =
        unfold parse in
        line-agrees fuel ih s.arg_remains s.argument s.store s.out b bs s.parser
          (parse_from 0 (b ∷ bs) s.parser) l (takes_some 0 b bs s.parser h)
          (parse_from-LeavesWhole 0 (b ∷ bs) s.parser h)
        ∙ sym (
            bytes-parse storage ending send 0 (b ∷ bs) s.parser s.arg_remains s.argument s.store
              s.out h)
    input-agrees b bs s (some c) l h =
        rounds-waiting storage ending send fuel ih s.parser c s.argument s.store s.out s.arg_remains
          (b ∷ bs) h
          (omega (arith, l, h, length-drop (min s.arg_remains (length (b ∷ bs))) (b ∷ bs)))

  pub process_from-Agrees : (fuel : ℕ) → Agrees storage ending send fuel
  process_from-Agrees zero [] s l h = unfold take_bytes process_from in refl
  process_from-Agrees zero (b ∷ bs) s l h = absurd (omega (arith, l))
  process_from-Agrees (suc fuel) [] s l h = unfold take_bytes process_from in refl
  process_from-Agrees (suc fuel) (b ∷ bs) s l h =
      input-agrees fuel (process_from-Agrees fuel) b bs s s.command l h

  pub process-bytes :
      (input : Bytes) (s : Session Store)
      → IsBetween storage ending send s
      → process storage ending send input s ≡ take_bytes storage ending send input s
  unfolding process
  process-bytes input s h = process_from-Agrees (length input) input s (omega arith) h
