-- ===== src/Protocol/Parser/Segments.antt =====
-- Parser.cpp: what the parser makes of each field of a command line.
use bd_tarantul.Common.{
  ℕ, suc, ◌+◌, ◌≤◌, ◌≡◌, ◌≢◌, refl, ap, ◌∙◌, false, List, [], ◌∷◌, ◌++◌, append-nil, append_assoc,
  arith, Bytes, length,
}
use native.Mathlib.Nat.{add-zero}
use bd_tarantul.Protocol.Parser.{
  Parser, State, ok, ◌>>=◌, dispatch, parse_from, is_empty, step_name, step_key, step_get_key,
}
use bd_tarantul.Protocol.Parser.Chunks.{parse_from-more}

abbrev pub Each {ℓ} : {A : Type ℓ} → (A → Type 0) → List A → Type 0
Each P (x ∷ xs) = P x × Each P xs
Each P [] = Unit {0}

abbrev pub IsWordByte : ℕ → Type 0
IsWordByte c = (c ≢ 32) × (c ≢ 13)

abbrev pub IsDigit : ℕ → Type 0
IsDigit c = (48 ≤ c) × (c ≤ 57)

pub is_empty-append : (ks : List Bytes) (k : Bytes) → is_empty (ks ++ k ∷ []) ≡ false
is_empty-append [] k = refl
is_empty-append (j ∷ ks) k = refl

-- The parser waits for more in state `s`.
pub record At (s : State) (p : Parser) : Type 0 where
  pub waits : p.parse_complete ≡ false
  pub state_is : p.state ≡ s

pub step_to :
    {s : State} {p q : Parser} (i c : ℕ) (cs : Bytes)
    → At s p
    → dispatch s i c p ≡ ok q
    → parse_from i (c ∷ cs) p ≡ parse_from (i + 1) cs q
step_to {s} {p} i c cs a h =
    parse_from-more i c cs p a.waits
    ∙ ap (λ t. dispatch t i c p >>= parse_from (i + 1) cs) a.state_is
    ∙ ap (λ r. r >>= parse_from (i + 1) cs) h

-- A run of bytes in one state, each of which `f` takes in.
module _ (s : State) (P : ℕ → Type 0) (f : Bytes → Parser → Parser) where
  pub record Takes : Type 0 where
    pub none_read : (p : Parser) → f [] p ≡ p
    pub stays : (c : ℕ) (p : Parser) → At s p → At s (f (c ∷ []) p)
    pub takes : (i c : ℕ) (p : Parser) → P c → dispatch s i c p ≡ ok (f (c ∷ []) p)
    pub joins : (c : ℕ) (cs : Bytes) (p : Parser) → f cs (f (c ∷ []) p) ≡ f (c ∷ cs) p

  pub reads :
      Takes
      → (i : ℕ) (cs rest : Bytes) (p : Parser) → Each P cs
      → At s p
      → parse_from i (cs ++ rest) p ≡ parse_from (i + length cs) rest (f cs p)
  reads t i [] rest p w a = rw (add-zero, t.none_read p)
  reads t i (c ∷ cs) rest p w a =
      step_to i c (cs ++ rest) a (t.takes i c p w.0)
      ∙ reads t (i + 1) cs rest (f (c ∷ []) p) w.1 (t.stays c p a)
      ∙ ap (λ n. parse_from n rest (f cs (f (c ∷ []) p))) (omega arith)
      ∙ ap (parse_from (i + suc (length cs)) rest) (t.joins c cs p)

pub reads_name :
    (i : ℕ) (cs rest : Bytes) (p : Parser)
    → Each IsWordByte cs
    → At State.s_name p
    → parse_from i (cs ++ rest) p
      ≡ parse_from (i + length cs) rest (record p { name = p.name ++ cs })
reads_name =
    reads State.s_name IsWordByte (λ cs p. record p { name = p.name ++ cs })
      (record {
        none_read = λ p. ap (λ n. record p { name = n }) (append-nil p.name);
        stays = λ c p a. record { waits = a.waits; state_is = a.state_is };
        takes = λ i c p w. unfold dispatch step_name in ground arith;
        joins = λ c cs p. ap (λ n. record p { name = n }) (append_assoc p.name (c ∷ []) cs);
      })

pub reads_key :
    (i : ℕ) (cs rest : Bytes) (p : Parser)
    → Each (λ c. c ≢ 32) cs
    → At State.sp_key p
    → parse_from i (cs ++ rest) p
      ≡ parse_from (i + length cs) rest (record p { cur_key = p.cur_key ++ cs })
reads_key =
    reads State.sp_key (λ c. c ≢ 32) (λ cs p. record p { cur_key = p.cur_key ++ cs })
      (record {
        none_read = λ p. ap (λ n. record p { cur_key = n }) (append-nil p.cur_key);
        stays = λ c p a. record { waits = a.waits; state_is = a.state_is };
        takes = λ i c p w. unfold dispatch step_key in ground arith;
        joins = λ c cs p. ap (λ n. record p { cur_key = n }) (append_assoc p.cur_key (c ∷ []) cs);
      })

pub reads_get_key :
    (i : ℕ) (cs rest : Bytes) (p : Parser)
    → Each IsWordByte cs
    → At State.sg_key p
    → parse_from i (cs ++ rest) p
      ≡ parse_from (i + length cs) rest (record p { cur_key = p.cur_key ++ cs })
reads_get_key =
    reads State.sg_key IsWordByte (λ cs p. record p { cur_key = p.cur_key ++ cs })
      (record {
        none_read = λ p. ap (λ n. record p { cur_key = n }) (append-nil p.cur_key);
        stays = λ c p a. record { waits = a.waits; state_is = a.state_is };
        takes = λ i c p w. unfold dispatch step_get_key in ground arith;
        joins = λ c cs p. ap (λ n. record p { cur_key = n }) (append_assoc p.cur_key (c ∷ []) cs);
      })
