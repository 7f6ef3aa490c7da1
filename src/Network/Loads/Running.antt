-- ===== src/Network/Loads/Running.antt =====
-- While `running` is set a thread serves its connection as the server without threads does.
use bd_tarantul.Common.{
  ℕ, zero, suc, ◌+◌, ◌≡◌, refl, sym, ap, ◌∙◌, subst, fun_ext, Bool, true, false, List, [], ◌∷◌,
  Bytes, length, arith,
}
use bd_tarantul.Storage.Interface.{Storage}
use bd_tarantul.Network.Session.{
  Session, Served, done, failed, fault, ◌>>=◌, parse_part, fill_part, run_part, process_from,
  process, serve,
}
use bd_tarantul.Network.Session.Bytewise.{IsBetween}
use bd_tarantul.Network.Session.Refines.{>>=_assoc}
use bd_tarantul.Network.Session.Reads.{take_bytes-Leaves}
use bd_tarantul.Network.Session.Rounds.{Leaves}
use bd_tarantul.Network.Session.Split.{process_from-Agrees, process-bytes}
use bd_tarantul.Network.Loads.{thread_parse, thread_fill, thread_run, thread_process, thread_serve}
use bd_tarantul.Network.Loads.Parts.{thread_parse-is, thread_fill-is, thread_run-is}

-- With `k` more loads left.
abbrev spare : {S T : Type 0} → ℕ → Served S (T × ℕ) → Served S (T × ℕ)
spare k (done (s, j)) = done (s, j + k)
spare k (failed store out) = failed store out
spare k fault = fault

abbrev first : {S T : Type 0} → Served S (T × ℕ) → Served S T
first m = m >>= λ r. done r.0

bind_spare :
    {S A T : Type 0} (k : ℕ) (x : T × ℕ) (m : Served S A) (f g : A → Served S (T × ℕ))
    → (m >>= f) ≡ done x
    → ((a : A) → f a ≡ done x → g a ≡ spare k (f a))
    → (m >>= g) ≡ spare k (m >>= f)
bind_spare k x (done a) f g h e = e a h
bind_spare k x (failed store out) f g h e = refl
bind_spare k x fault f g h e = refl

loads_of : {S T : Type 0} → Served S (T × ℕ) → ℕ
loads_of (done (s, j)) = j
loads_of _ = 0

module _ (storage : Storage) (send : Bytes → Bytes → Bool) where
  open storage use {State as Store}

  -- What follows `parse_part` in a round of the loop.
  abbrev go_on : ℕ → Session Store × Bytes × Bool → Served Store (Session Store × ℕ)
  go_on n r = elim r.2 [
    | true ↦ done (r.0, n)
    | false ↦
        let filled = thread_fill r.1 r.0 in
        thread_run storage send filled.0 >>= thread_process storage send n filled.1
  ]

  -- A run with a load to spare is the same with more of them.
  process-more :
      (n k : ℕ) (cs : Bytes) (s s' : Session Store) (j : ℕ)
      → thread_process storage send n cs s ≡ done (s', suc j)
      → thread_process storage send (n + k) cs s ≡ spare k (thread_process storage send n cs s)
  unfolding thread_process loads_of
  process-more zero k cs s s' j h = absurd (let e : 0 ≡ suc j = ap loads_of h in omega (arith, e))
  process-more (suc n) k [] s s' j h =
      ap (λ m. thread_process storage send m [] s)
        (let e : suc n + k ≡ suc (n + k) = omega arith in e)
  process-more (suc n) k (b ∷ bs) s s' j h =
      ap (λ m. thread_process storage send m (b ∷ bs) s)
        (let e : suc n + k ≡ suc (n + k) = omega arith in e)
      ∙ bind_spare k (s', suc j) (thread_parse (b ∷ bs) s) (go_on n) (go_on (n + k)) h
          (λ r e. by_end (λ cs s2 e2. process-more n k cs s2 s' j e2) r.0 r.1 r.2 e)
    where
      by_end :
          ((cs : Bytes) (s2 : Session Store)
            → thread_process storage send n cs s2 ≡ done (s', suc j)
            → thread_process storage send (n + k) cs s2
              ≡ spare k (thread_process storage send n cs s2))
          → (s1 : Session Store) (rest : Bytes) (z : Bool)
          → go_on n (s1, rest, z) ≡ done (s', suc j)
          → go_on (n + k) (s1, rest, z) ≡ spare k (go_on n (s1, rest, z))
      by_end ih s1 rest true e = refl
      by_end ih s1 rest false e =
          let filled = thread_fill rest s1 in
          bind_spare k (s', suc j) (thread_run storage send filled.0)
            (thread_process storage send n filled.1) (thread_process storage send (n + k) filled.1)
            e (ih filled.1)

  -- But for the loads the loop is `process_from` with the loads as fuel.
  process-fuel :
      (n : ℕ) (cs : Bytes) (s : Session Store)
      → first (thread_process storage send n cs s) ≡ process_from storage [] send n cs s
  unfolding thread_process process_from
  process-fuel zero cs s = refl
  process-fuel (suc n) [] s = refl
  process-fuel (suc n) (b ∷ bs) s =
      >>=_assoc (thread_parse (b ∷ bs) s) (go_on n) (λ r. done r.0)
      ∙ ap (λ m. m >>= λ r. go_on n r >>= λ r. done r.0) (thread_parse-is (b ∷ bs) s)
      ∙ ap (λ f. parse_part (b ∷ bs) s >>= f) (fun_ext (λ r. by_end (process-fuel n) r.0 r.1 r.2))
    where
      by_end :
          ((cs : Bytes) (s2 : Session Store)
            → first (thread_process storage send n cs s2) ≡ process_from storage [] send n cs s2)
          → (s1 : Session Store) (rest : Bytes) (z : Bool)
          → first (go_on n (s1, rest, z)) ≡ (elim z as (λ z. Served Store (Session Store)) [
            | true ↦ done s1
            | false ↦
                let filled = fill_part rest s1 in
                run_part storage [] send filled.0 >>= process_from storage [] send n filled.1
          ])
      by_end ih s1 rest true = refl
      by_end ih s1 rest false =
          let filled = fill_part rest s1 in
          ap
            (λ (filled : Session Store × Bytes).
              first (thread_run storage send filled.0 >>= thread_process storage send n filled.1))
            (thread_fill-is rest s1)
          ∙ >>=_assoc (thread_run storage send filled.0) (thread_process storage send n filled.1)
              (λ r. done r.0)
          ∙ ap (λ m. m >>= λ s2. first (thread_process storage send n filled.1 s2))
              (thread_run-is storage send filled.0)
          ∙ ap (λ f. run_part storage [] send filled.0 >>= f) (fun_ext (ih filled.1))

  -- A read that is processed with a load to spare is processed whole.
  process-whole :
      (n : ℕ) (cs : Bytes) (s s' : Session Store) (j : ℕ)
      → IsBetween storage [] send s
      → thread_process storage send n cs s ≡ done (s', suc j)
      → process storage [] send cs s ≡ done s'
  process-whole n cs s s' j b h =
      process-bytes storage [] send cs s b
      ∙ sym (process_from-Agrees storage [] send (n + length cs) cs s (omega arith) b)
      ∙ sym (process-fuel (n + length cs) cs s)
      ∙ ap first (process-more n (length cs) cs s s' j h ∙ ap (spare (length cs)) h)

  -- A thread that never found `running` reset, on a connection that was between two bytes at first and
  -- has not failed, has served it as the server without threads does with answers without line ends.
  pub thread_serve-serve :
      (inputs : List Bytes) (n : ℕ) (s s' : Session Store) (j : ℕ)
      → IsBetween storage [] send s
      → thread_serve storage send n inputs s ≡ done (s', suc j)
      → serve storage [] send inputs s ≡ done s'
  unfolding thread_serve serve loads_of
  thread_serve-serve inputs zero s s' j b h =
      absurd (let e : 0 ≡ suc j = ap loads_of h in omega (arith, e))
  thread_serve-serve [] (suc n) s s' j b h = ap first h
  thread_serve-serve (input ∷ inputs) (suc n) s s' j b h =
      of_process (thread_serve-serve inputs) (thread_process storage send n input s) refl h
    where
      of_process :
          ((n : ℕ) (s s' : Session Store) (j : ℕ)
            → IsBetween storage [] send s
            → thread_serve storage send n inputs s ≡ done (s', suc j)
            → serve storage [] send inputs s ≡ done s')
          → (m : Served Store (Session Store × ℕ)) → thread_process storage send n input s ≡ m
          → (m >>= λ r. thread_serve storage send r.1 inputs r.0) ≡ done (s', suc j)
          → (process storage [] send input s >>= serve storage [] send inputs) ≡ done s'
      of_process ih (done (s1, zero)) e f =
          absurd (let g : 0 ≡ suc j = ap loads_of f in omega (arith, g))
      of_process ih (done (s1, suc i)) e f =
          let whole : process storage [] send input s ≡ done s1 =
            process-whole n input s s1 i b e in
          ap (λ m. m >>= serve storage [] send inputs) whole
          ∙ ih (suc i) s1 s' j
              (subst (Leaves (IsBetween storage [] send))
                (sym (process-bytes storage [] send input s b) ∙ whole)
                (take_bytes-Leaves storage [] send input s b))
              f
      of_process ih (failed store out) e f =
          absurd (let g : 0 ≡ suc j = ap loads_of f in omega (arith, g))
      of_process ih fault e f = absurd (let g : 0 ≡ suc j = ap loads_of f in omega (arith, g))
