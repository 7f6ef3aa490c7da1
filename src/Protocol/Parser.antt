-- ===== src/Protocol/Parser.antt =====
-- sysprog/afina/src/protocol/Parser.h and Parser.cpp: the parser reads a byte at a time, and keeps
-- its state between the chunks of a stream.
pub mod Chunks
pub mod Segments
pub mod Numbers
pub mod Lines
pub mod RoundTrip
pub mod Errors
pub mod GetLine
pub mod Complete
use bd_tarantul.Common.{
  ℕ, zero, suc, ◌+◌, ◌-◌, ◌*◌, ◌%◌, ◌^◌, Bool, true, false, ◌&&◌, ◌||◌, List, [], ◌∷◌, ◌++◌, Option,
  none, some, Bytes, bytes_eq, codes, ltb, leb, ◌==◌, if◌then◌else◌, ℤ, pos, negsuc, ◌+ℤ◌, ◌-ℤ◌,
  ltb_ℤ,
}
use bd_tarantul.Protocol.Command.{
  Command, set_command, add_command, append_command, get_command, stats_command,
}

-- `enum State`
pub data State : Type 0 where
  s_cr s_lf s_name sp_key sp_flags sp_expr_time_start sp_expr_time sp_bytes sg_key : State

-- The exceptions that `Parse` and `Build` throw.
pub data Error : Type 0 where
  unknown_command : Bytes → Error
  no_key flags_overflow expire_overflow bytes_overflow unknown_state unsupported_command : Error
  invalid_char : (c : ℕ) → (position : ℕ) → Error

-- `undefined` is the signed overflow of `int32_t`, and a read of the first key of an empty vector.
pub data Result {ℓ} (A : Type ℓ) : Type ℓ where
  ok : A → Result A
  throw : Error → Result A
  undefined : Result A

infixl 5 ◌>>=◌
abbrev pub ◌>>=◌ {ℓ κ} : {A : Type ℓ} {B : Type κ} → Result A → (A → Result B) → Result B
ok a >>= f = f a
throw e >>= f = throw e
undefined >>= f = undefined

pub record Parser : Type 0 where
  pub state : State
  pub name : Bytes
  pub keys : List Bytes
  pub flags : ℕ  -- uint32_t
  pub exprtime : ℤ  -- int32_t
  pub bytes : ℕ  -- uint32_t
  pub negative : Bool
  pub cur_key : Bytes
  pub parse_complete : Bool

abbrev pub is_digit : ℕ → Bool
is_digit c = leb b'0' c && leb c b'9'

abbrev pub add32 : ℕ → ℕ → ℕ
add32 a b = (a + b) % 2 ^ 32

-- `case State::sName`, at the end of the name
unfoldable pub end_name : Parser → Result Parser
end_name p =
    if bytes_eq p.name (codes "set")
      || bytes_eq p.name (codes "add")
      || bytes_eq p.name (codes "append")
      || bytes_eq p.name (codes "prepend")
    then ok (record p { state = State.sp_key })
    else if bytes_eq p.name (codes "get") || bytes_eq p.name (codes "gets")
    then ok (record p { state = State.sg_key })
    else if bytes_eq p.name (codes "stats")
    then ok (record p { state = State.s_lf })
    else throw (unknown_command p.name)

unfoldable pub step_name : ℕ → Parser → Result Parser
unfolding end_name
step_name c p =
    if c == b' ' || c == 13 then end_name p else ok (record p { name = p.name ++ c ∷ [] })

-- `case State::spKey`
unfoldable pub step_key : ℕ → Parser → Result Parser
step_key c p =
    if c == b' '
    then ok (record p { state = State.sp_flags; keys = p.keys ++ p.cur_key ∷ [] })
    else ok (record p { cur_key = p.cur_key ++ c ∷ [] })

abbrev pub is_empty : List Bytes → Bool
is_empty [] = true
is_empty (_ ∷ _) = false

-- `case State::sgKey`
unfoldable pub step_get_key : ℕ → Parser → Result Parser
step_get_key c p =
    if c == 13
    then (let keys = p.keys ++ p.cur_key ∷ [] in
        if is_empty keys
        then throw no_key
        else ok (record p { state = State.s_lf; keys = keys; cur_key = [] }))
    else if c == b' '
    then ok (record p { state = State.sg_key; keys = p.keys ++ p.cur_key ∷ []; cur_key = [] })
    else ok (record p { cur_key = p.cur_key ++ c ∷ [] })

-- A digit more on a `uint32_t`, with the test for overflow of the source.
unfoldable pub push_digit : ℕ → ℕ → Error → Result ℕ
push_digit n c overflow =
    let f = add32 (n * 10 % 2 ^ 32) (c - b'0') in if ltb f n then throw overflow else ok f

-- `case State::spFlags`
unfoldable pub step_flags : ℕ → Parser → Result Parser
unfolding push_digit
step_flags c p =
    if c == b' '
    then ok (record p { state = State.sp_expr_time_start; negative = false })
    else if is_digit c
    then push_digit p.flags c flags_overflow >>= (λ f. ok (record p { flags = f }))
    else ok p

-- `case State::spExprTimeStart`
unfoldable pub step_expr_time_start : ℕ → Parser → Result Parser
step_expr_time_start c p =
    if c == b'-'
    then ok (record p { state = State.sp_expr_time; negative = true })
    else if is_digit c
    then ok (record p { state = State.sp_expr_time; exprtime = pos (c - b'0') })
    else ok p

-- The value of an `int32_t` operation, which is undefined out of range.
unfoldable pub int32 : ℤ → Result ℤ
int32 (pos n) = if ltb n (2 ^ 31) then ok (pos n) else undefined
int32 (negsuc n) = if ltb n (2 ^ 31) then ok (negsuc n) else undefined

unfoldable pub push_expr_digit : Bool → ℤ → ℕ → Result ℤ
unfolding int32 ◌+ℤ◌ ◌-ℤ◌
push_expr_digit negative t c =
    if negative
    then int32 (t -ℤ pos (c - b'0')) >>= (λ et. if ltb_ℤ t et then throw expire_overflow else ok et)
    else int32 (t +ℤ pos (c - b'0')) >>= (λ et. if ltb_ℤ et t then throw expire_overflow else ok et)

-- `case State::spExprTime`
unfoldable pub step_expr_time : ℕ → Parser → Result Parser
unfolding push_expr_digit
step_expr_time c p =
    if c == b' '
    then ok (record p { state = State.sp_bytes })
    else if is_digit c
    then push_expr_digit p.negative p.exprtime c >>= (λ et. ok (record p { exprtime = et }))
    else ok p

-- `case State::spBytes`
unfoldable pub step_bytes : ℕ → Parser → Result Parser
unfolding push_digit
step_bytes c p =
    if c == 13
    then ok (record p { state = State.s_lf })
    else if is_digit c
    then push_digit p.bytes c bytes_overflow >>= (λ b. ok (record p { bytes = b }))
    else ok p

-- `case State::sLF`, with the position for the message.
unfoldable pub step_lf : ℕ → ℕ → Parser → Result Parser
step_lf position c p =
    if c == 10 then ok (record p { parse_complete = true }) else throw (invalid_char c position)

-- The body of the loop: the `switch`.
unfoldable pub dispatch : State → ℕ → ℕ → Parser → Result Parser
dispatch s_name i c p = step_name c p
dispatch sp_key i c p = step_key c p
dispatch sg_key i c p = step_get_key c p
dispatch sp_flags i c p = step_flags c p
dispatch sp_expr_time_start i c p = step_expr_time_start c p
dispatch sp_expr_time i c p = step_expr_time c p
dispatch sp_bytes i c p = step_bytes c p
dispatch s_lf i c p = step_lf i c p
dispatch s_cr i c p = throw unknown_state

-- The loop of `Parse` from position `i`: the parser, and the bytes consumed.
unfoldable pub parse_from : ℕ → Bytes → Parser → Result (Parser × ℕ)
unfolding dispatch
parse_from i [] p = ok (p, i)
parse_from i (c ∷ cs) p =
    if p.parse_complete then ok (p, i) else (dispatch p.state i c p >>= parse_from (i + 1) cs)

-- `Parse`: its result is `parse_complete` of the parser that it leaves.
unfoldable pub parse : Bytes → Parser → Result (Parser × ℕ)
unfolding parse_from
parse input p = parse_from 0 input p

abbrev pub first_key : List Bytes → Result Bytes
first_key [] = undefined
first_key (k ∷ _) = ok k

abbrev pub is_state_lf : State → Bool
is_state_lf s_lf = true
is_state_lf _ = false

-- `Build`: the command and the size of its body, or no command yet.
unfoldable pub build : Parser → Result (Option (Command × ℕ))
build p =
    if is_state_lf p.state
    then (if bytes_eq p.name (codes "set")
        then first_key p.keys >>= (λ k. ok (some (set_command k p.flags p.exprtime, p.bytes)))
        else if bytes_eq p.name (codes "add")
        then first_key p.keys >>= (λ k. ok (some (add_command k p.flags p.exprtime, p.bytes)))
        else if bytes_eq p.name (codes "append")
        then first_key p.keys >>= (λ k. ok (some (append_command k p.flags p.exprtime, p.bytes)))
        else if bytes_eq p.name (codes "get")
        then ok (some (get_command p.keys, p.bytes))
        else if bytes_eq p.name (codes "stats")
        then ok (some (stats_command, p.bytes))
        else throw unsupported_command)
    else ok none

-- `Reset`, which leaves `negative` alone.
unfoldable pub reset : Parser → Parser
reset p = record p {
  state = State.s_name;
  name = [];
  keys = [];
  cur_key = [];
  parse_complete = false;
  flags = 0;
  bytes = 0;
  exprtime = pos 0;
}
