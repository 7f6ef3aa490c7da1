-- ===== src/Shell/Main/Wiring.antt =====
-- Which pipes the commands of a pipeline read and write.
use bd_tarantul.Common.{
  ℕ, zero, suc, ◌+◌, ◌≡◌, Bool, true, false, if_true, refl, sym, ap, ap₂, ◌∙◌, Option, none, some,
  List, [], ◌∷◌, ◌++◌, length, length-append, arith, ◌⊎◌, inl, inr, ◌==◌, if◌then◌else◌,
  append_assoc,
}
use bd_tarantul.Shell.Main.{
  End, console, reads, writes, Fds, open_lowest, end_at, set_end, dup2, close, make_pipe, child,
  pipe_round, pipe_rounds, at_start,
}

-- Descriptors that are all open.
abbrev opened : List End → Fds
opened [] = []
opened (e ∷ es) = some e ∷ opened es

-- The table between two rounds, whose descriptor after `es` is closed: the last `pipefd[1]`.
abbrev Between : List End → Fds
Between es = opened es ++ none ∷ []

open-after :
    (es : List End) (e : End) → open_lowest e (Between es) ≡ (length es, opened es ++ some e ∷ [])
open-after [] e = refl
open-after (x ∷ es) e =
    let h = open-after es e in
    ap (λ (r : ℕ × Fds). (r.0 + 1, some x ∷ r.1)) h
    ∙ ap (λ n. (n, some x ∷ (opened es ++ some e ∷ []))) (omega arith)

end_at-opened :
    (es : List End) (x : Option End) (t : Fds) → end_at (length es) (opened es ++ x ∷ t) ≡ x
end_at-opened [] x t = refl
end_at-opened (e ∷ es) x t = end_at-opened es x t

set_end-opened :
    (es : List End) (x y : Option End) (t : Fds)
    → set_end (length es) y (opened es ++ x ∷ t) ≡ opened es ++ y ∷ t
set_end-opened [] x y t = refl
set_end-opened (e ∷ es) x y t = ap (λ s. some e ∷ s) (set_end-opened es x y t)

open-opened :
    (es : List End) (e : End) → open_lowest e (opened es) ≡ (length es, opened es ++ some e ∷ [])
open-opened [] e = refl
open-opened (x ∷ es) e =
    let h = open-opened es e in
    ap (λ (r : ℕ × Fds). (r.0 + 1, some x ∷ r.1)) h
    ∙ ap (λ n. (n, some x ∷ (opened es ++ some e ∷ []))) (omega arith)

opened-append : (es fs : List End) → opened (es ++ fs) ≡ opened es ++ opened fs
opened-append [] fs = refl
opened-append (e ∷ es) fs = ap (λ t. some e ∷ t) (opened-append es fs)

-- The descriptor after the first of two that follow `es`.
at_second :
    (es : List End) (x y : Option End) → end_at (suc (length es)) (opened es ++ x ∷ y ∷ []) ≡ y
at_second [] x y = refl
at_second (e ∷ es) x y = at_second es x y

set_second :
    (es : List End) (x y z : Option End)
    → set_end (suc (length es)) z (opened es ++ x ∷ y ∷ []) ≡ opened es ++ x ∷ z ∷ []
set_second [] x y z = refl
set_second (e ∷ es) x y z = ap (λ t. some e ∷ t) (set_second es x y z)

-- `n` children from the one of pipe `i` on, each with both ends of its own pipe.
abbrev pub own_pipes : ℕ → ℕ → List (Option End × Option End)
own_pipes zero i = []
own_pipes (suc n) i = (some (reads i), some (writes i)) ∷ own_pipes n (i + 1)

module _ (i : ℕ) (a b : End) (es : List End) where
  abbrev k : ℕ
  k = length es

  -- The table when the child is forked.
  abbrev forked : Fds
  forked = some a ∷ some b ∷ (opened es ++ some (reads i) ∷ some (writes i) ∷ [])

  abbrev dup_to : ℕ → Fds → Option End → Fds
  dup_to fd t o = elim o [ none ↦ t | some e ↦ set_end fd (some e) t ]

  abbrev ends : Fds → Option End × Option End
  ends t = (end_at 0 t, end_at 1 t)

  child-ends : child (suc (suc k)) (suc (suc (suc k))) forked ≡ (some (reads i), some (writes i))
  child-ends =
      let in0 : Fds =
        some (reads i) ∷ some b ∷ (opened es ++ some (reads i) ∷ some (writes i) ∷ []) in
      let closed0 : Fds = some (reads i) ∷ some b ∷ (opened es ++ none ∷ some (writes i) ∷ []) in
      let rest : Fds → Option End × Option End =
        λ t. ends (close (suc (suc (suc k))) (dup2 (suc (suc (suc k))) 1 t)) in
      ap (λ o. rest (close (suc (suc k)) (dup_to 0 forked o)))
        (end_at-opened es (some (reads i)) (some (writes i) ∷ []))
      ∙ ap (λ t. rest (some (reads i) ∷ some b ∷ t))
          (set_end-opened es (some (reads i)) none (some (writes i) ∷ []))
      ∙ ap (λ o. ends (close (suc (suc (suc k))) (dup_to 1 closed0 o)))
          (at_second es none (some (writes i)))

  dup-same : dup2 (suc (suc k)) (suc (suc k)) forked ≡ forked
  dup-same =
      ap (dup_to (suc (suc k)) forked) (end_at-opened es (some (reads i)) (some (writes i) ∷ []))
      ∙ ap (λ t. some a ∷ some b ∷ t)
          (set_end-opened es (some (reads i)) (some (reads i)) (some (writes i) ∷ []))

  close-last : close (suc (suc (suc k))) forked ≡ Between (a ∷ b ∷ es ++ reads i ∷ [])
  close-last =
      ap (λ t. some a ∷ some b ∷ t)
        (set_second es (some (reads i)) (some (writes i)) none
          ∙ sym (append_assoc (opened es) (some (reads i) ∷ []) (none ∷ []))
          ∙ ap (λ t. t ++ none ∷ []) (sym (opened-append es (reads i ∷ []))))

  -- The two ends of a pipe take the lowest descriptors.
  makes_pipe :
      (t : Fds)
      → open_lowest (reads i) t ≡ (suc (suc k), opened (a ∷ b ∷ es) ++ some (reads i) ∷ [])
      → make_pipe i t ≡ (suc (suc k), suc (suc (suc k)), forked)
  makes_pipe t h =
      let out = open-opened (a ∷ b ∷ es ++ reads i ∷ []) (writes i) in
      let e : opened (a ∷ b ∷ es) ++ some (reads i) ∷ [] ≡ opened (a ∷ b ∷ es ++ reads i ∷ []) =
        sym (opened-append (a ∷ b ∷ es) (reads i ∷ [])) in
      ap (λ (r : ℕ × Fds). (r.0, (open_lowest (writes i) r.1).0, (open_lowest (writes i) r.1).1)) h
      ∙ ap (λ t. (suc (suc k), (open_lowest (writes i) t).0, (open_lowest (writes i) t).1)) e
      ∙ ap (λ (w : ℕ × Fds). (suc (suc k), w.0, w.1)) out
      ∙ ap₂ (λ n t. (suc (suc k), n, some a ∷ some b ∷ t))
          (let l : suc (suc (length (es ++ reads i ∷ []))) ≡ suc (suc (suc k)) =
              omega (arith, length-append es (reads i ∷ [])) in
            l)
          (ap (λ t. t ++ some (writes i) ∷ []) (opened-append es (reads i ∷ []))
            ∙ append_assoc (opened es) (some (reads i) ∷ []) (some (writes i) ∷ []))

  same_table :
      (in_fd : ℕ)
      → (i ≡ 0) ⊎ (in_fd ≡ suc (suc k))
      → (if i == 0 then forked else dup2 in_fd (suc (suc k)) forked) ≡ forked
  same_table in_fd (inl z) = let e : (i == 0) ≡ true = ground (arith, z) in if_true (i == 0) _ _ e
  same_table in_fd (inr z) =
      ap (λ fd. if i == 0 then forked else dup2 fd (suc (suc k)) forked) z
      ∙ ap (λ t. if i == 0 then forked else t) dup-same
      ∙ either_same (i == 0)
    where
      either_same : (z : Bool) → (if z then forked else forked) ≡ forked
      either_same true = refl
      either_same false = refl

  -- A round whose pipe takes the two lowest descriptors: `dup2` finds `in_fd` to be `pipefd[0]`.
  round-ends :
      (t : Fds) (in_fd : ℕ)
      → make_pipe i t ≡ (suc (suc k), suc (suc (suc k)), forked)
      → (i ≡ 0) ⊎ (in_fd ≡ suc (suc k))
      → pipe_round i in_fd t ≡ (
        (some (reads i), some (writes i)),
        suc (suc (suc k)),
        Between (a ∷ b ∷ es ++ reads i ∷ []),
      )
  unfolding pipe_round
  round-ends t in_fd p h =
      ap
        (λ (p : ℕ × ℕ × Fds).
          let t' : Fds = if i == 0 then p.2 else dup2 in_fd p.0 p.2 in
          (child p.0 p.1 t', p.1, close p.1 t'))
        p
      ∙ ap
          (λ t'. (
            child (suc (suc k)) (suc (suc (suc k))) t',
            suc (suc (suc k)),
            close (suc (suc (suc k))) t',
          ))
          (same_table in_fd h)
      ∙ ap₂ (λ c t'. (c, suc (suc (suc k)), t')) child-ends close-last

-- The loop from round `i` on, from the table that the round before left.
rounds-ends :
    (n i : ℕ) (a b : End) (es : List End)
    → pipe_rounds n (suc i) (suc (suc (length es))) (Between (a ∷ b ∷ es)) ≡ own_pipes n (suc i)
unfolding pipe_rounds
rounds-ends zero i a b es = refl
rounds-ends (suc n) i a b es =
    let fd : ℕ = suc (suc (length es)) in
    let l : suc fd ≡ suc (suc (length (es ++ reads (suc i) ∷ []))) =
      omega (arith, length-append es (reads (suc i) ∷ [])) in
    let next : suc i + 1 ≡ suc (suc i) = omega arith in
    ap (λ (r : (Option End × Option End) × ℕ × Fds). r.0 ∷ pipe_rounds n (suc i + 1) r.1 r.2)
      (round-ends (suc i) a b es (Between (a ∷ b ∷ es)) fd
        (makes_pipe (suc i) a b es (Between (a ∷ b ∷ es)) (open-after (a ∷ b ∷ es) (reads (suc i))))
        (inr refl))
    ∙ ap₂
        (λ j fd.
          (some (reads (suc i)), some (writes (suc i)))
          ∷ pipe_rounds n j fd (Between (a ∷ b ∷ es ++ reads (suc i) ∷ [])))
        next l
    ∙ ap (λ rs. (some (reads (suc i)), some (writes (suc i))) ∷ rs)
        (rounds-ends n (suc i) a b (es ++ reads (suc i) ∷ []) ∙ ap (own_pipes n) (sym next))

-- In a pipeline of any length each command reads from the pipe that it writes to itself, and from no
-- other command.
pub pipe_rounds-own : (n in_fd : ℕ) → pipe_rounds n 0 in_fd at_start ≡ own_pipes n 0
unfolding pipe_rounds
pipe_rounds-own zero in_fd = refl
pipe_rounds-own (suc n) in_fd =
    let std : List End = console ∷ [] in
    let next : 0 + 1 ≡ 1 = omega arith in
    ap (λ (r : (Option End × Option End) × ℕ × Fds). r.0 ∷ pipe_rounds n (0 + 1) r.1 r.2)
      (round-ends 0 console console std at_start in_fd
        (makes_pipe 0 console console std at_start
          (open-opened (console ∷ console ∷ console ∷ []) (reads 0)))
        (inl refl))
    ∙ ap (λ rs. (some (reads 0), some (writes 0)) ∷ rs)
        (rounds-ends n 0 console console (console ∷ reads 0 ∷ []))
