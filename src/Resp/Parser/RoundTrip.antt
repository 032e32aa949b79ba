-- ===== src/Resp/Parser/RoundTrip.antt =====
-- `parseCommand` on a request that is written with the reply encoders.
use mathlib.Core.Path.{subst}
use tiny_redis.Base.Bytes.{Bytes}
use tiny_redis.Base.{
  ℕ, ◌+◌, ◌-◌, ◌≤◌, List, [], ◌∷◌, ◌++◌, append_assoc, append-nil, ◌≡◌, ◌≢◌, refl, sym, ap, ◌∙◌,
  arith, length, take, replicate, length-append,
}
use tiny_redis.Resp.Parser.Stable.{parse_command-append}
use tiny_redis.Resp.Parser.Bounds.{Outcome, parse_command-Outcome}
use tiny_redis.Resp.Parser.{finish_array, after_header, parse_array, clear_unless_ok, parse_command}
use tiny_redis.Resp.Reply.Wire.{line_bytes}
use tiny_redis.Resp.Reply.{decimal}
use tiny_redis.Resp.{Command, ParseStatus, ParseResult, max_args, publish, incomplete_result}
use tiny_redis.Resp.Parser.Written.{
  elems_bytes, request_bytes, AreShort, write_all, array_elems_found, take-write_all,
  read_header_found,
}

publish_all :
    (args : List Bytes) (out : Command)
    → length args ≤ length out.argv
    → publish (record out { argv = write_all 0 args out.argv }) (length args)
      ≡ record { argv = args ++ replicate (max_args - length args) []; argc = length args }
unfolding publish
publish_all args out h = rw (
    ap (λ (k : ℕ). take k (write_all 0 args out.argv))
      (let e : length args ≡ 0 + length args = omega arith in e)
    ∙ take-write_all args 0 out.argv (omega arith))

abbrev consumed_all : ℕ → ParseResult
consumed_all n = record { status = ParseStatus.ok; consumed = n; error = [] }

-- The result of a request that is read whole: all of it is consumed, the arguments stand in the first
-- slots and the other slots are empty.
abbrev pub read_back : List Bytes → ParseResult × Command
read_back args = (
  record { status = ParseStatus.ok; consumed = length (request_bytes args); error = [] },
  record { argv = args ++ replicate (max_args - length args) []; argc = length args },
)

parse_array_request :
    (args : List Bytes) (rest : Bytes) (out : Command)
    → length args ≤ max_args
    → AreShort args
    → length out.argv ≡ max_args
    → parse_array (request_bytes args ++ rest) out ≡ read_back args
unfolding parse_array after_header finish_array
parse_array_request args rest out h short slots =
    let head = line_bytes b'*' (decimal (length args)) in
    let split : request_bytes args ++ rest ≡ head ++ (elems_bytes args ++ rest) =
      append_assoc head (elems_bytes args) rest in
    let consumed : length head + length (elems_bytes args) ≡ length (request_bytes args) =
      sym (length-append head (elems_bytes args)) in
    rw
      (
        split,
        read_header_found (length args) (elems_bytes args ++ rest) h,
        array_elems_found args 0 head rest out.argv short,
      )
      (ap
          (λ (k : ℕ). (
            consumed_all k,
            publish (record out { argv = write_all 0 args out.argv }) (length args),
          ))
          consumed
        ∙ ap (λ (c : Command). (consumed_all (length (request_bytes args)), c))
            (publish_all args out (omega arith)))

-- A request of at most 16 arguments, each within the bulk limit, that is written as an array header
-- and bulk strings is read back: `parseCommand` consumes exactly its bytes, whatever follows them,
-- gives its arguments in order, and leaves the slots past them empty.
pub parse_command-request :
    (args : List Bytes) (rest : Bytes) (out : Command)
    → length args ≤ max_args
    → AreShort args
    → length out.argv ≡ max_args
    → parse_command (request_bytes args ++ rest) out ≡ read_back args
unfolding parse_command clear_unless_ok
parse_command-request args rest out h short slots =
    rw (parse_array_request args rest out h short slots)

eq-nil : (xs : Bytes) → length xs ≡ 0 → xs ≡ []
eq-nil [] h = refl
eq-nil (x ∷ xs) h = absurd (omega arith)

-- A verdict on the front of a request is the verdict on the whole.
verdict_of_front :
    (front back : Bytes) (out : Command) (whole : Bytes)
    → (parse_command front out).0.status ≢ ParseStatus.incomplete
    → front ++ back ≡ whole
    → (parse_command whole out).0 ≡ consumed_all (length whole)
    → (parse_command front out).0 ≡ consumed_all (length whole)
verdict_of_front front back out whole ne split read =
    ap (λ (r : ParseResult × Command). r.0)
      (sym (parse_command-append front back out ne) ∙ ap (λ (t : Bytes). parse_command t out) split)
    ∙ read

prefix_waits :
    (front back : Bytes) (out : Command) (whole : Bytes) (s : ParseStatus)
    → (parse_command front out).0.status ≡ s
    → front ++ back ≡ whole
    → back ≢ []
    → length out.argv ≡ max_args
    → (parse_command whole out).0 ≡ consumed_all (length whole)
    → (parse_command front out).0 ≡ incomplete_result
prefix_waits front back out whole ParseStatus.incomplete e split more_left slots read =
    (subst (λ t. Outcome t front (parse_command front out).0 (parse_command front out).1) e
      (parse_command-Outcome front out slots).0).0
prefix_waits front back out whole ParseStatus.ok e split more_left slots read =
    let same = verdict_of_front front back out whole (λ i. let x = sym e ∙ i in cc) split read in
    let bound =
      (subst (λ t. Outcome t front (parse_command front out).0 (parse_command front out).1) e
        (parse_command-Outcome front out slots).0).1 in
    let eaten : (parse_command front out).0.consumed ≡ length whole =
      ap (λ (r : ParseResult). r.consumed) same in
    let total : length front + length back ≡ length whole =
      sym (length-append front back) ∙ ap length split in
    absurd (more_left (eq-nil back (omega arith)))
prefix_waits front back out whole ParseStatus.protocol_error e split more_left slots read =
    let same = verdict_of_front front back out whole (λ i. let x = sym e ∙ i in cc) split read in
    let status : ParseStatus.protocol_error ≡ ParseStatus.ok =
      sym e ∙ ap (λ (r : ParseResult). r.status) same in
    absurd (cc)

-- A strict prefix of such a request is not a verdict: `parseCommand` waits for more and consumes
-- nothing.
pub parse_command_prefix :
    (args : List Bytes) (front back : Bytes) (out : Command)
    → length args ≤ max_args
    → AreShort args
    → length out.argv ≡ max_args
    → front ++ back ≡ request_bytes args
    → back ≢ []
    → (parse_command front out).0 ≡ incomplete_result
parse_command_prefix args front back out h short slots split more_left =
    prefix_waits front back out (request_bytes args) (parse_command front out).0.status refl split
      more_left slots
      (ap (λ (t : Bytes). (parse_command t out).0) (sym (append-nil (request_bytes args)))
        ∙ ap (λ (r : ParseResult × Command). r.0) (parse_command-request args [] out h short slots))
