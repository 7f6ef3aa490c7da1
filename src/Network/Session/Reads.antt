-- ===== src/Network/Session/Reads.antt =====
-- However the bytes of a connection are cut into reads, it is served alike.
use bd_tarantul.Common.{
  subst, ℕ, ◌-◌, ◌≡◌, ◌≢◌, refl, sym, ap, ◌∙◌, fun_ext, Bool, true, false, Option, none, some, List,
  [], ◌∷◌, ◌++◌, append-nil, Bytes,
}
use bd_tarantul.Protocol.Command.{Command}
use bd_tarantul.Protocol.Parser.{Parser, Result, ok, throw, undefined, dispatch, build}
use bd_tarantul.Protocol.Parser.Chunks.{concat}
use bd_tarantul.Protocol.Parser.Complete.{EndsWhole, dispatch-EndsWhole, build-ne-none}
use bd_tarantul.Storage.Interface.{Storage}
use bd_tarantul.Network.Session.{
  process, Session, Served, done, failed, fault, ◌>>=◌, with_line_end, built_of, built, built_if,
  run_part, serve,
}
use bd_tarantul.Network.Session.Bytewise.{after_byte, take_byte, take_bytes, IsBetween}
use bd_tarantul.Network.Session.Rounds.{Leaves, bind_same, run-Leaves}
use bd_tarantul.Network.Session.Split.{process-bytes}
use bd_tarantul.Network.Session.Refines.{session, >>=_assoc}

module _ (storage : Storage) (ending : Bytes) (send : Bytes → Bytes → Bool) where
  open storage use {State as Store}

  after_byte-Leaves :
      (r : Result Parser) (p : Parser) (n : ℕ) (arg : Bytes) (store : Store) (out : Bytes)
      → EndsWhole r
      → Leaves
          (IsBetween storage ending send)
          (after_byte storage ending send r (session p none n arg store out))
  after_byte-Leaves (throw e) p n arg store out w = tt
  after_byte-Leaves undefined p n arg store out w = tt
  after_byte-Leaves (ok q) p n arg store out w = ended q.parse_complete refl
    where
      made :
          (r : Result (Option (Command × ℕ)))
          → r ≢ ok none
          → Leaves
              (IsBetween storage ending send)
              (built_of r (session q none n arg store out) >>= run_part storage ending send)
      made (throw e) some_built = tt
      made undefined some_built = tt
      made (ok none) some_built = absurd (some_built refl)
      made (ok (some (c, m))) some_built =
          run-Leaves storage ending send q c (with_line_end m) arg store out

      ended :
          (z : Bool)
          → q.parse_complete ≡ z
          → Leaves
              (IsBetween storage ending send)
              (built_if z (session q none n arg store out) >>= run_part storage ending send)
      ended true e = unfold built in made (build q) (build-ne-none q (w e))
      ended false e = unfold run_part in e

  take_byte-Leaves :
      (b : ℕ) (s : Session Store)
      → IsBetween storage ending send s
      → Leaves (IsBetween storage ending send) (take_byte storage ending send b s)
  unfolding take_byte
  take_byte-Leaves b s h = by_command s.command h
    where
      by_command :
          (o : Option Command)
          → IsBetween storage ending send
              (session s.parser o s.arg_remains s.argument s.store s.out)
          → Leaves (IsBetween storage ending send) (
              take_byte storage ending send b
                (session s.parser o s.arg_remains s.argument s.store s.out))
      by_command none h =
          after_byte-Leaves (dispatch s.parser.state 0 b s.parser) s.parser s.arg_remains s.argument
            s.store s.out (dispatch-EndsWhole s.parser.state 0 b s.parser h refl)
      by_command (some c) h =
          run-Leaves storage ending send s.parser c (s.arg_remains - 1) (s.argument ++ b ∷ [])
            s.store s.out

  bind-Leaves :
      (m : Served Store (Session Store)) (f : Session Store → Served Store (Session Store))
      → Leaves (IsBetween storage ending send) m
      → ((s : Session Store)
          → IsBetween storage ending send s
          → Leaves (IsBetween storage ending send) (f s))
      → Leaves (IsBetween storage ending send) (m >>= f)
  bind-Leaves (done s) f h e = e s h
  bind-Leaves (failed s out) f h e = tt
  bind-Leaves fault f h e = tt

  pub take_bytes-Leaves :
      (bs : Bytes) (s : Session Store)
      → IsBetween storage ending send s
      → Leaves (IsBetween storage ending send) (take_bytes storage ending send bs s)
  unfolding take_bytes
  take_bytes-Leaves [] s h = h
  take_bytes-Leaves (b ∷ bs) s h =
      bind-Leaves (take_byte storage ending send b s) (take_bytes storage ending send bs)
        (take_byte-Leaves b s h) (take_bytes-Leaves bs)

  take_bytes-append :
      (xs ys : Bytes) (s : Session Store)
      → take_bytes storage ending send (xs ++ ys) s
        ≡ (take_bytes storage ending send xs s >>= take_bytes storage ending send ys)
  unfolding take_bytes
  take_bytes-append [] ys s = refl
  take_bytes-append (x ∷ xs) ys s =
      ap (λ f. take_byte storage ending send x s >>= f) (fun_ext (take_bytes-append xs ys))
      ∙ sym (
          >>=_assoc (take_byte storage ending send x s) (take_bytes storage ending send xs)
            (take_bytes storage ending send ys))

  pub serve-bytes :
      (inputs : List Bytes) (s : Session Store)
      → IsBetween storage ending send s
      → serve storage ending send inputs s ≡ take_bytes storage ending send (concat inputs) s
  unfolding serve
  serve-bytes [] s h = unfold take_bytes in refl
  serve-bytes (input ∷ inputs) s h =
      ap (λ m. m >>= serve storage ending send inputs) (process-bytes storage ending send input s h)
      ∙ bind_same (IsBetween storage ending send) (take_bytes storage ending send input s)
          (serve storage ending send inputs) (take_bytes storage ending send (concat inputs))
          (take_bytes-Leaves input s h) (serve-bytes inputs)
      ∙ sym (take_bytes-append input (concat inputs) s)

  pub serve-Leaves :
      (inputs : List Bytes) (s : Session Store)
      → IsBetween storage ending send s
      → Leaves (IsBetween storage ending send) (serve storage ending send inputs s)
  serve-Leaves inputs s h =
      subst (Leaves (IsBetween storage ending send)) (sym (serve-bytes inputs s h))
        (take_bytes-Leaves (concat inputs) s h)

  pub serve-append :
      (xs ys : List Bytes) (s : Session Store)
      → serve storage ending send (xs ++ ys) s
        ≡ (serve storage ending send xs s >>= serve storage ending send ys)
  unfolding serve
  serve-append [] ys s = refl
  serve-append (x ∷ xs) ys s =
      ap (λ f. process storage ending send x s >>= f) (fun_ext (serve-append xs ys))
      ∙ sym (
          >>=_assoc (process storage ending send x s) (serve storage ending send xs)
            (serve storage ending send ys))

  -- A connection that is between two bytes (of a command line that is not complete, or of an argument
  -- that has bytes to come) is served alike, in what it stores, sends and waits for and in how it
  -- fails, however its bytes are cut into reads.
  pub serve-concat :
      (inputs : List Bytes) (s : Session Store)
      → IsBetween storage ending send s
      → serve storage ending send inputs s ≡ serve storage ending send (concat inputs ∷ []) s
  serve-concat inputs s h =
      serve-bytes inputs s h
      ∙ ap (λ bs. take_bytes storage ending send bs s) (sym (append-nil (concat inputs)))
      ∙ sym (serve-bytes (concat inputs ∷ []) s h)
