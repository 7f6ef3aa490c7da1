-- ===== src/Protocol/Tests.antt =====
-- The parser on the lines of MemcachedParserTest.cpp, and the theorems on it applied at inputs.
use Prim.Native.String.{String}
use bd_tarantul.Common.{
  ◌≡◌, refl, true, false, some, [], ◌∷◌, ◌++◌, arith, Bytes, bytes_eq, codes, pos, negsuc,
}
use bd_tarantul.Protocol.Command.{set_command, add_command}
use bd_tarantul.Protocol.Parser.{
  Parser, State, ok, ◌>>=◌, dispatch, end_name, step_name, step_key, step_get_key, step_flags,
  step_expr_time_start, step_expr_time, step_bytes, step_lf, push_digit, push_expr_digit,
  parse_from, parse, build, reset,
}
use bd_tarantul.Protocol.Parser.Chunks
use bd_tarantul.Protocol.Parser.Chunks.{concat, feed, unplaced, shift, shift_error}
use bd_tarantul.Protocol.Parser.Numbers.{decimal, digit_sum, signed}
use bd_tarantul.Protocol.Parser.Lines.{Verb, StoreLine, IsStoreLine, print}
use bd_tarantul.Protocol.Parser.RoundTrip
use bd_tarantul.Protocol.Parser.RoundTrip.{built_as}
use bd_tarantul.Protocol.Parser.GetLine.{print_keys}

program : Unit {0}
unfolding bytes_eq dispatch end_name step_name step_key step_get_key step_flags step_expr_time_start
    step_expr_time step_bytes step_lf push_digit push_expr_digit parse_from parse build reset shift
    shift_error feed decimal digit_sum print_keys
program = tt

abbrev fresh : Parser
fresh = record {
  state = State.s_name;
  name = [];
  keys = [];
  flags = 0;
  exprtime = pos 0;
  bytes = 0;
  negative = false;
  cur_key = [];
  parse_complete = false;
}

abbrev line : String → Bytes
line s = codes s ++ 13 ∷ 10 ∷ []

-- SimpleSet, SimpleAdd and SimpleGet
simple_set :
    (parse (line "set foo 0 0 6") fresh >>= λ r. build r.0)
    ≡ ok (some (set_command (codes "foo") 0 (pos 0), 6))
unfolding program
simple_set = refl

simple_add :
    (parse (line "add bar 10 -1 60") fresh >>= λ r. build r.0)
    ≡ ok (some (add_command (codes "bar") 10 (negsuc 0), 60))
unfolding program
simple_add = refl

-- A time of expiration of 100 is read as 1.
expire_summed :
    (parse (line "set foo 0 100 6") fresh >>= λ r. build r.0)
    ≡ ok (some (set_command (codes "foo") 0 (pos 1), 6))
unfolding program
expire_summed = refl

feed-concat_example :
    unplaced (feed (codes "se" ∷ codes "t foo 0" ∷ line " 0 6" ∷ []) fresh)
    ≡ unplaced (parse (concat (codes "se" ∷ codes "t foo 0" ∷ line " 0 6" ∷ [])) fresh)
feed-concat_example = Chunks.feed-concat (codes "se" ∷ codes "t foo 0" ∷ line " 0 6" ∷ []) fresh

abbrev store_line : StoreLine
store_line = record {
  verb = Verb.add;
  key = codes "bar";
  flags = codes "10";
  negative = true;
  first_digit = b'1';
  digits = codes "2";
  bytes = codes "60";
}

store_line-IsStoreLine : IsStoreLine store_line
unfolding decimal digit_sum
store_line-IsStoreLine = omega arith

build-parse-print_example :
    (parse (print store_line (codes "x")) (reset fresh) >>= λ r. build r.0)
    ≡ built_as store_line.verb store_line.key
        (decimal 0 store_line.flags)
        (signed store_line.negative (digit_sum 0 (store_line.first_digit ∷ store_line.digits)))
        (decimal 0 store_line.bytes)
build-parse-print_example =
    RoundTrip.build-parse-print store_line fresh (codes "x") store_line-IsStoreLine
