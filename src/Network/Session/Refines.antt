-- ===== src/Network/Session/Refines.antt =====
-- The processing of a connection is that of its bytes one at a time.
use bd_tarantul.Common.{
  ℕ, suc, ◌+◌, ◌-◌, min, ◌≤◌, ◌<◌, ◌≡◌, refl, sym, ap, ◌∙◌, Bool, false, Option, none, some, [],
  ◌∷◌, ◌++◌, append-nil, append_assoc, Bytes, length, take, drop, dec_lt, Bool-cases, inl, inr,
  arith, ◌==◌,
}
use bd_tarantul.Protocol.Command.{Command}
use bd_tarantul.Protocol.Parser
use bd_tarantul.Protocol.Parser.{
  Parser, State, Result, Error, ok, throw, undefined, dispatch, parse_from, parse, build, reset,
  step_lf, step_name, step_key, step_get_key, step_flags, step_expr_time_start, step_expr_time,
  step_bytes,
}
use bd_tarantul.Protocol.Parser.Chunks.{
  parse_from_complete, parse_from-more, dispatch-shift, shift_step,
}
use bd_tarantul.Protocol.Parser.Errors.{Consumes, parse_from-Consumes}
use bd_tarantul.Storage.Interface.{Storage}
use bd_tarantul.Network.Session.{Session, Served, done, failed, fault, ◌>>=◌, built_if, run_part}
use bd_tarantul.Network.Session.Bytewise.{take_byte, take_bytes, after_byte}

abbrev no_bytes : Bytes
no_bytes = []

-- A session by its fields.
abbrev pub session : {S : Type 0} → Parser → Option Command → ℕ → Bytes → S → Bytes → Session S
session p c n arg store out = record {
  parser = p;
  command = c;
  arg_remains = n;
  argument = arg;
  store = store;
  out = out;
}

pub >>=_assoc :
    {S A B C : Type 0} (m : Served S A) (f : A → Served S B) (g : B → Served S C)
    → (m >>= f >>= g) ≡ (m >>= λ a. f a >>= g)
>>=_assoc (done a) f g = refl
>>=_assoc (failed s out) f g = refl
>>=_assoc fault f g = refl

drop-next : (i n c : ℕ) (cs : Bytes) → i + 1 ≤ n → drop (n - i) (c ∷ cs) ≡ drop (n - (i + 1)) cs
drop-next i n c cs h =
    let e : n - i ≡ suc (n - (i + 1)) = omega arith in ap (λ m. drop m (c ∷ cs)) e

drop_all : (n : ℕ) (cs : Bytes) → n ≡ length cs → drop n cs ≡ []
drop_all n [] h = ap (λ (m : ℕ). drop m []) (let e : n ≡ 0 = omega arith in e)
drop_all n (c ∷ cs) h = ap (λ m. drop m (c ∷ cs)) h ∙ drop_all (length cs) cs refl

module _ (storage : Storage) (ending : Bytes) (send : Bytes → Bytes → Bool) where
  open storage use {State as Store}

  abbrev run : Session Store → Served Store (Session Store)
  run s = run_part storage ending send s

  abbrev bytes : Bytes → Session Store → Served Store (Session Store)
  bytes cs s = take_bytes storage ending send cs s

  -- What follows a `Parse` that started at position `i` of `cs`.
  unfoldable pub resume :
      ℕ → Bytes → Session Store → Result (Parser × ℕ) → Served Store (Session Store)
  resume i cs s (ok (q, n)) =
      built_if q.parse_complete (record s { parser = q }) >>= run >>= bytes (drop (n - i) cs)
  resume i cs s (throw e) = failed s.store s.out
  resume i cs s undefined = fault

  resume-next :
      (i c : ℕ) (cs : Bytes) (s : Session Store) (r : Result (Parser × ℕ))
      → Consumes (i + 1) cs r
      → resume (i + 1) cs s r ≡ resume i (c ∷ cs) s r
  unfolding resume
  resume-next i c cs s (ok (q, n)) h =
      ap (λ ds. built_if q.parse_complete (record s { parser = q }) >>= run >>= bytes ds)
        (sym (drop-next i n c cs h.0))
  resume-next i c cs s (throw e) h = refl
  resume-next i c cs s undefined h = refl

  after-shift_step :
      (k : ℕ) (r : Result Parser) (s : Session Store)
      → after_byte storage ending send (shift_step k r) s ≡ after_byte storage ending send r s
  after-shift_step k (ok q) s = refl
  after-shift_step k (throw e) s = refl
  after-shift_step k undefined s = refl

  -- The position is only for the message of an exception.
  after-dispatch :
      (i c : ℕ) (t : State) (p : Parser) (s : Session Store)
      → after_byte storage ending send (dispatch t 0 c p) s
        ≡ after_byte storage ending send (dispatch t i c p) s
  after-dispatch i c t p s =
      sym (after-shift_step i (dispatch t 0 c p) s)
      ∙ ap (λ r. after_byte storage ending send r s) (sym (dispatch-shift i 0 c t p))
      ∙ ap (λ k. after_byte storage ending send (dispatch t k c p) s)
          (let e : i + 0 ≡ i = omega arith in e)

  module _ (i c n : ℕ) (cs arg : Bytes) (store : Store) (out : Bytes) where
    bytes-more :
        (r : Result Parser) (p : Parser)
        → ((q : Parser)
            → q.parse_complete ≡ false
            → bytes cs (session q none n arg store out)
              ≡ resume (i + 1) cs (session q none n arg store out) (parse_from (i + 1) cs q))
        → (after_byte storage ending send r (session p none n arg store out) >>= bytes cs)
          ≡ resume i
              (c ∷ cs)
              (session p none n arg store out)
              (Parser.◌>>=◌ r (parse_from (i + 1) cs))
    unfolding resume run_part
    bytes-more (throw e) p rest = refl
    bytes-more undefined p rest = refl
    bytes-more (ok q) p rest = elim (Bool-cases q.parse_complete) [
      | inl complete ↦ rw (parse_from_complete (i + 1) cs q complete) (
          ap (λ ds. built_if q.parse_complete (session q none n arg store out) >>= run >>= bytes ds)
            (ap (λ m. drop m (c ∷ cs)) (let e : 1 ≡ i + 1 - i = omega arith in e)))
      | inr more ↦
          ap (λ b. built_if b (session q none n arg store out) >>= run >>= bytes cs) more
          ∙ rest q more
          ∙ resume-next i c cs (session p none n arg store out) (parse_from (i + 1) cs q)
              (parse_from-Consumes (i + 1) cs q)
    ]

  pub bytes-parse :
      (i : ℕ) (cs : Bytes) (p : Parser) (n : ℕ) (arg : Bytes) (store : Store) (out : Bytes)
      → p.parse_complete ≡ false
      → bytes cs (session p none n arg store out)
        ≡ resume i cs (session p none n arg store out) (parse_from i cs p)
  unfolding take_bytes take_byte
  bytes-parse i [] p n arg store out h =
      unfold resume parse_from run_part in
      ap (λ ds. bytes ds (session p none n arg store out))
        (ap (λ m. drop m no_bytes) (let e : 0 ≡ i - i = omega arith in e))
      ∙ ap
          (λ b.
            built_if b (session p none n arg store out) >>= run >>= bytes (drop (i - i) no_bytes))
          (sym h)
  bytes-parse i (c ∷ cs) p n arg store out h =
      ap (λ m. m >>= bytes cs) (after-dispatch i c p.state p (session p none n arg store out))
      ∙ bytes-more i c n cs arg store out (dispatch p.state i c p) p
          (λ q more. bytes-parse (i + 1) cs q n arg store out more)
      ∙ ap (resume i (c ∷ cs) (session p none n arg store out)) (sym (parse_from-more i c cs p h))

  -- A command waits for the rest of its argument.
  pub run_waits :
      (p : Parser) (c : Command) (n : ℕ) (arg : Bytes) (store : Store) (out : Bytes)
      → 0 < n
      → run (session p (some c) n arg store out) ≡ done (session p (some c) n arg store out)
  unfolding run_part
  run_waits p c n arg store out h = let e : (n == 0) ≡ false = ground arith in rw e

  module _ (p : Parser) (c : Command) (store : Store) (out : Bytes) where
    -- An argument of which `k` bytes of `cs` are read, and `n` are still to come.
    abbrev pub filled : ℕ → Bytes → Bytes → Served Store (Session Store)
    filled n arg cs = run (session p (some c) n arg store out) >>= bytes cs

    pub filled_same :
        {m n : ℕ} {a b cs ds : Bytes} → m ≡ n → a ≡ b → cs ≡ ds → filled m a cs ≡ filled n b ds
    filled_same e f g = cc

    -- The bytes of an argument, one at a time, are those that `fill_part` takes.
    pub bytes-fill :
        (cs : Bytes) (n : ℕ) (arg : Bytes)
        → 0 < n
        → bytes cs (session p (some c) n arg store out)
          ≡ filled
              (n - min n (length cs))
              (arg ++ take (min n (length cs)) cs)
              (drop (min n (length cs)) cs)
    unfolding take_bytes take_byte
    bytes-fill [] n arg h =
        let e : 0 ≡ min n 0 = omega arith in
        ap (λ m. m >>= bytes []) (sym (run_waits p c n arg store out h))
        ∙ filled_same (let f : n ≡ n - min n 0 = omega arith in f)
            (sym (append-nil arg) ∙ ap (λ m. arg ++ take m no_bytes) e)
            (ap (λ m. drop m no_bytes) e)
    bytes-fill (b ∷ bs) n arg h = elim (dec_lt 1 n) [
      | yes more ↦
          let e : suc (min (n - 1) (length bs)) ≡ min n (suc (length bs)) = omega arith in
          ap (λ m. m >>= bytes bs) (run_waits p c (n - 1) (arg ++ b ∷ []) store out (omega arith))
          ∙ bytes-fill bs (n - 1) (arg ++ b ∷ []) (omega arith)
          ∙ filled_same
              (let f : n - 1 - min (n - 1) (length bs) ≡ n - min n (suc (length bs)) =
                  omega arith in
                f)
              (append_assoc arg (b ∷ []) (take (min (n - 1) (length bs)) bs)
                ∙ ap (λ m. arg ++ take m (b ∷ bs)) e)
              (ap (λ m. drop m (b ∷ bs)) e)
      | no last ↦
          let e : 1 ≡ min n (suc (length bs)) = omega arith in
          filled_same (let f : n - 1 ≡ n - min n (suc (length bs)) = omega arith in f)
            (ap (λ m. arg ++ take m (b ∷ bs)) e) (ap (λ m. drop m (b ∷ bs)) e)
    ]
