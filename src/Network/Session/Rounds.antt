-- ===== src/Network/Session/Rounds.antt =====
-- The rounds of the reading loop that follow a parsed command: its argument, then its execution.
use bd_tarantul.Common.{
  ℕ, ◌-◌, min, ◌≤◌, ◌<◌, ◌≡◌, refl, sym, ap, ◌∙◌, Bool, true, false, Option, none, some, [], ◌++◌,
  Bytes, length, take, drop, length-drop, dec_lt, arith, ltb, ◌==◌, if◌then◌else◌,
}
use bd_tarantul.Protocol.Command.{Command}
use bd_tarantul.Protocol.Parser.{Parser, reset}
use bd_tarantul.Storage.Interface.{Storage}
use bd_tarantul.Execute.{execute}
use bd_tarantul.Network.Session.{
  Session, Served, done, failed, fault, ◌>>=◌, fill_part, perform, run_part, process_from,
}
use bd_tarantul.Network.Session.Bytewise.{take_bytes, IsBetween}
use bd_tarantul.Network.Session.Refines.{session, bytes-fill, run_waits}

abbrev pub Leaves : {S A : Type 0} → (A → Type 0) → Served S A → Type 0
Leaves P (done a) = P a
Leaves P _ = Unit {0}

pub bind_same :
    {S A B : Type 0} (P : A → Type 0) (m : Served S A) (f g : A → Served S B)
    → Leaves P m
    → ((a : A) → P a → f a ≡ g a)
    → (m >>= f) ≡ (m >>= g)
bind_same P (done a) f g h e = e a h
bind_same P (failed s out) f g h e = refl
bind_same P fault f g h e = refl

module _ (storage : Storage) (ending : Bytes) (send : Bytes → Bytes → Bool) where
  open storage use {State as Store}

  abbrev pub run : Session Store → Served Store (Session Store)
  run s = run_part storage ending send s

  abbrev pub bytes : Bytes → Session Store → Served Store (Session Store)
  bytes cs s = take_bytes storage ending send cs s

  abbrev Between : Session Store → Type 0
  Between s = IsBetween storage ending send s

  -- Where a command has got its argument it is executed, and the next line begins.
  pub run-Leaves :
      (p : Parser) (c : Command) (n : ℕ) (arg : Bytes) (store : Store) (out : Bytes)
      → Leaves Between (run (session p (some c) n arg store out))
  unfolding run_part perform reset
  run-Leaves p c n arg store out = performed (execute storage c arg store) (n == 0) refl
    where
      sent :
          (b : Bool) (store' : Store) (out' : Bytes)
          → Leaves Between
              (if b then done (session (reset p) none n [] store' out') else failed store' out)
      sent true store' out' = refl
      sent false store' out' = tt

      performed :
          (o : Option (Store × Bytes)) (z : Bool)
          → (n == 0) ≡ z
          → Leaves Between (
              if z
              then (elim o [
                | none ↦ fault
                | some (store', result) ↦
                    if send out (result ++ ending)
                    then done (session (reset p) none n [] store' (out ++ (result ++ ending)))
                    else failed store' out
              ])
              else done (session p (some c) n arg store out))
      performed none true e = tt
      performed (some (store', result)) true e =
          sent (send out (result ++ ending)) store' (out ++ (result ++ ending))
      performed o false e = ground (arith, e)

  abbrev pub Agrees : ℕ → Type 0
  Agrees fuel =
      (cs : Bytes) (s : Session Store)
      → length cs ≤ fuel
      → Between s
      → process_from storage ending send fuel cs s ≡ bytes cs s

  -- `fill_part`, `run_part` and the rounds that follow, for a command with its argument to come.
  unfoldable pub rounds : ℕ → Bytes → Session Store → Served Store (Session Store)
  rounds fuel cs s =
      let filled = fill_part cs s in run filled.0 >>= process_from storage ending send fuel filled.1

  module _ (fuel : ℕ) (ih : Agrees fuel) (p : Parser) (c : Command) (arg : Bytes) (store : Store)
      (out : Bytes) where
    after_run :
        (n : ℕ) (a cs : Bytes)
        → length cs ≤ fuel
        → (run (session p (some c) n a store out) >>= process_from storage ending send fuel cs)
          ≡ (run (session p (some c) n a store out) >>= bytes cs)
    after_run n a cs h =
        bind_same Between (run (session p (some c) n a store out)) _ _
          (run-Leaves p c n a store out) (λ s b. ih cs s h b)

    pub rounds-waiting :
        (n : ℕ) (cs : Bytes)
        → 0 < n
        → length (drop (min n (length cs)) cs) ≤ fuel
        → rounds fuel cs (session p (some c) n arg store out)
          ≡ bytes cs (session p (some c) n arg store out)
    unfolding rounds fill_part
    rounds-waiting n cs h l =
        let e : ltb 0 n ≡ true = ground arith in
        rw e (
          after_run (n - min n (length cs)) (arg ++ take (min n (length cs)) cs)
            (drop (min n (length cs)) cs) l
          ∙ sym (bytes-fill storage ending send p c store out cs n arg h))

    pub rounds-ready :
        (n : ℕ) (cs : Bytes)
        → length cs ≤ fuel
        → rounds fuel cs (session p (some c) n arg store out)
          ≡ (run (session p (some c) n arg store out) >>= bytes cs)
    rounds-ready n cs l = elim (dec_lt 0 n) [
      | yes more ↦
          rounds-waiting n cs more (omega (arith, l, length-drop (min n (length cs)) cs))
          ∙ ap (λ m. m >>= bytes cs) (sym (run_waits storage ending send p c n arg store out more))
      | no full ↦
          unfold rounds fill_part in
          (let e : ltb 0 n ≡ false = ground (arith, full) in rw e (after_run n arg cs l))
    ]
