-- ===== src/Tests/Parse.antt =====
-- Runs of the parser of src/core/resp.cpp and of the encoders.
use tiny_redis.Base.Bytes.{Bytes, codes, equal}
use tiny_redis.Base.{List, ◌<◌, ◌↔◌, arith, ◌++◌, [], ◌∷◌, some, ◌≡◌, refl, replicate}
use tiny_redis.Resp.Parser.{
  parse_command, parse_array, parse_inline, read_header, array_elem, array_elems, inline_args,
  skip_blanks, first_word, after_word,
}
use tiny_redis.Resp.Outcome.{accept}
use tiny_redis.Resp.Reader.{
  line_end, line_verdict, read_line, take_bytes, read_digits, read_int, header_value,
}
use tiny_redis.Resp.Reply.{decimal, decimal_from}
use tiny_redis.Resp.Parser.Stable.{parse_command-append}
use tiny_redis.Resp.Parser.Bounds.{Outcome, parse_command-Outcome}
use tiny_redis.Resp.Parser.Rounds.{IsClean}
use tiny_redis.Resp.Parser.RoundTrip.{read_back, parse_command-request, parse_command_prefix}
use tiny_redis.Resp.Parser.Written.{request_bytes}
use tiny_redis.Resp.Reader.Numbers.{read_int_iff}
use tiny_redis.Bits.{word}
use tiny_redis.Resp.{
  Error, Command, ParseStatus, fail, clear, publish, error_to_string, incomplete_result,
}

abbrev pub blank_command : Command
blank_command = record { argv = replicate 16 []; argc = 0 }

parser : Unit {0}
unfolding parse_command parse_array parse_inline read_header array_elem array_elems inline_args
    skip_blanks first_word after_word accept line_end line_verdict read_line take_bytes read_digits
    read_int header_value fail clear publish equal error_to_string
parser = tt

parse_get : parse_command (codes "*2\r\n$3\r\nGET\r\n$1\r\nk\r\n*1\r\n") blank_command ≡ (
  record { status = ParseStatus.ok; consumed = 20; error = [] },
  record { argv = codes "GET" ∷ codes "k" ∷ replicate 14 []; argc = 2 },
)
unfolding parser
parse_get = refl

parse_inline_get : parse_command (codes " GET\t k \nPING") blank_command ≡ (
  record { status = ParseStatus.ok; consumed = 9; error = [] },
  record { argv = codes "GET" ∷ codes "k" ∷ replicate 14 []; argc = 2 },
)
unfolding parser
parse_inline_get = refl

parse_half :
    (parse_command (codes "*2\r\n$3\r\nGET\r\n$1\r\nk\r") blank_command).0 ≡ incomplete_result
unfolding parser
parse_half = refl

parse_bad_length : (parse_command (codes "*1\r\n$007\r\n") blank_command).0 ≡ fail Error.bulk_length
unfolding parser
parse_bad_length = refl

abbrev get_k : List Bytes
get_k = codes "GET" ∷ codes "k" ∷ []

parse_command-append_example :
    parse_command (codes "PING\r\n" ++ codes "PI") blank_command
    ≡ parse_command (codes "PING\r\n") blank_command
parse_command-append_example =
    parse_command-append (codes "PING\r\n") (codes "PI") blank_command (unfold parser in (λ e. cc))

parse_command-Outcome_example :
    (let r = parse_command (codes "*2\r\n$9") blank_command in
      Outcome r.0.status (codes "*2\r\n$9") r.0 r.1 × IsClean r.1)
parse_command-Outcome_example = parse_command-Outcome (codes "*2\r\n$9") blank_command refl

parse_command-request_example :
    parse_command (request_bytes get_k ++ codes "*1") blank_command ≡ read_back get_k
parse_command-request_example =
    parse_command-request get_k (codes "*1") blank_command (omega arith) (omega arith) refl

parse_command_prefix_example :
    (parse_command (codes "*1\r\n$4\r\nPI") blank_command).0 ≡ incomplete_result
parse_command_prefix_example =
    parse_command_prefix (codes "PING" ∷ []) (codes "*1\r\n$4\r\nPI") (codes "NG\r\n") blank_command
      (omega arith) (omega arith) refl (unfold decimal decimal_from in refl) (λ e. cc)

read_int_iff_example :
    (read_int (codes "1024") ≡ some 1024) ↔ ((codes "1024" ≡ decimal 1024) × (1024 < word))
read_int_iff_example = read_int_iff (codes "1024") 1024
