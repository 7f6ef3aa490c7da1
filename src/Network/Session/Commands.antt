-- ===== src/Network/Session/Commands.antt =====
-- A command with its argument, from the bytes of a connection to its answer.
use bd_tarantul.Common.{
  ℕ, if◌then◌else◌, Bool, ◌+◌, ◌-◌, ◌≡◌, ◌<◌, refl, sym, ap, ap₂, ◌∙◌, min, ltb, true, Option, some,
  none, [], ◌∷◌, ◌++◌, arith, Bytes, length, drop, take, length-append, append-nil, append_assoc,
  drop-append, take-append,
}
use bd_tarantul.Protocol.Command.{Command}
use bd_tarantul.Protocol.Parser.{Parser, ok, parse, reset, build}
use bd_tarantul.Protocol.Parser.Numbers.{decimal, digit_sum, signed}
use bd_tarantul.Protocol.Parser.Lines.{StoreLine, print, IsStoreLine, after_line}
use bd_tarantul.Protocol.Parser.RoundTrip.{built_as, parse-print, build-verb}
use bd_tarantul.Storage.Interface.{Storage}
use bd_tarantul.Execute.{execute}
use bd_tarantul.Network.Session.{
  Session, Served, done, failed, fault, ◌>>=◌, built, built_of, run_part, perform, serve,
}
use bd_tarantul.Network.Session.Bytewise.{take_bytes}
use bd_tarantul.Network.Session.Refines.{
  session, filled_same, resume, bytes-parse, bytes-fill, run_waits,
}
use bd_tarantul.Network.Session.Reads.{serve-bytes}

print-append : (l : StoreLine) (rest : Bytes) → print l rest ≡ print l [] ++ rest
print-append l rest = simp (append_assoc)

module _ (storage : Storage) (ending : Bytes) (send : Bytes → Bytes → Bool) (l : StoreLine)
    (h : IsStoreLine l) (p : Parser) (c : Command) (n : ℕ) (body rest : Bytes)
    (store : storage.State) (out : Bytes) where
  open storage use {State as Store}

  abbrev crlf : Bytes
  crlf = 13 ∷ 10 ∷ []

  abbrev read_line : Parser
  read_line = after_line l (reset p)

  abbrev bytes : Bytes → Session Store → Served Store (Session Store)
  bytes cs s = take_bytes storage ending send cs s

  abbrev input : Bytes
  input = print l (body ++ 13 ∷ 10 ∷ rest)

  abbrev start : Session Store
  start = session (reset p) none n [] store out

  reads_line :
      bytes input start
      ≡ resume storage ending send 0 input start (ok (read_line, length (print l [])))
  unfolding reset parse
  reads_line =
      bytes-parse storage ending send 0 input (reset p) n [] store out refl
      ∙ ap (resume storage ending send 0 input start) (parse-print l h p (body ++ 13 ∷ 10 ∷ rest))

  module _
      (makes : built_as l.verb l.key
          (decimal 0 l.flags)
          (signed l.negative (digit_sum 0 (l.first_digit ∷ l.digits)))
          (decimal 0 l.bytes)
        ≡ ok (some (c, length body)))
      (some_body : 0 < length body) where
    build-line : build read_line ≡ ok (some (c, length body))
    unfolding after_line
    build-line = build-verb l.verb l.key read_line ∙ makes

    -- A line whose command has a body that is not empty waits for the body and its line end.
    line-waits :
        resume storage ending send 0 input start (ok (read_line, length (print l [])))
        ≡ bytes (body ++ 13 ∷ 10 ∷ rest) (session read_line (some c) (length body + 2) [] store out)
    unfolding resume built take_bytes after_line build
    line-waits =
        let e : ltb 0 (length body) ≡ true = ground arith in
        ap
          (λ r.
            built_of r (session read_line none n [] store out)
            >>= run_part storage ending send
            >>= bytes (drop (length (print l []) - 0) input))
          build-line
        ∙ rw e (
            ap (λ m. m >>= bytes (drop (length (print l []) - 0) input))
              (run_waits storage ending send read_line c (length body + 2) [] store out
                (omega arith))
            ∙ ap (λ cs. bytes cs (session read_line (some c) (length body + 2) [] store out))
                (ap₂ drop (let z : length (print l []) - 0 ≡ length (print l []) = omega arith in z)
                    (print-append l (body ++ 13 ∷ 10 ∷ rest))
                  ∙ drop-append (print l []) (body ++ 13 ∷ 10 ∷ rest)))

    body-runs :
        bytes (body ++ 13 ∷ 10 ∷ rest) (session read_line (some c) (length body + 2) [] store out)
        ≡ (run_part storage ending send (session read_line (some c) 0 (body ++ crlf) store out)
            >>= bytes rest)
    body-runs =
        let m : ℕ = min (length body + 2) (length (body ++ 13 ∷ 10 ∷ rest)) in
        let whole : m ≡ length (body ++ crlf) =
          omega (arith, length-append body crlf, length-append body (13 ∷ 10 ∷ rest)) in
        let cut : body ++ 13 ∷ 10 ∷ rest ≡ (body ++ crlf) ++ rest =
          sym (append_assoc body crlf rest) in
        bytes-fill storage ending send read_line c store out (body ++ 13 ∷ 10 ∷ rest)
          (length body + 2) [] (omega arith)
        ∙ filled_same storage ending send read_line c store out
            (omega (arith, whole, length-append body crlf))
            (ap₂ take whole cut ∙ take-append (body ++ crlf) rest)
            (ap₂ drop whole cut ∙ drop-append (body ++ crlf) rest)

    abbrev answered : Option (Store × Bytes) → Served Store (Session Store)
    answered none = fault
    answered (some (store', result)) =
        if send out (result ++ ending)
        then done (session (reset read_line) none 0 [] store' (out ++ (result ++ ending)))
        else failed store' out

    executes :
        (store' : Store) (result : Bytes)
        → execute storage c (body ++ crlf) store ≡ some (store', result)
        → send out (result ++ ending) ≡ true
        → (run_part storage ending send (session read_line (some c) 0 (body ++ crlf) store out)
            >>= bytes rest)
          ≡ bytes rest (session (reset read_line) none 0 [] store' (out ++ (result ++ ending)))
    unfolding run_part perform
    executes store' result e sent = ap (λ o. answered o >>= bytes rest) e ∙ rw sent refl

    -- The bytes of a line that stores and of its body, which is not empty and as long as the line
    -- says, execute the command on the body with its line end, and leave the connection ready for
    -- the next line, the answer sent.
    pub store_line-executes :
        (store' : Store) (result : Bytes)
        → execute storage c (body ++ crlf) store ≡ some (store', result)
        → send out (result ++ ending) ≡ true
        → serve storage ending send (input ∷ []) start
          ≡ serve storage ending send
              (rest ∷ [])
              (session (reset read_line) none 0 [] store' (out ++ (result ++ ending)))
    unfolding reset
    store_line-executes store' result e sent =
        serve-bytes storage ending send (input ∷ []) start refl
        ∙ ap (λ cs. bytes cs start) (append-nil input)
        ∙ reads_line
        ∙ line-waits
        ∙ body-runs
        ∙ executes store' result e sent
        ∙ sym (
            serve-bytes storage ending send (rest ∷ [])
              (session (reset read_line) none 0 [] store' (out ++ (result ++ ending))) refl
            ∙ ap
                (λ cs.
                  bytes cs (session (reset read_line) none 0 [] store' (out ++ (result ++ ending))))
                (append-nil rest))
