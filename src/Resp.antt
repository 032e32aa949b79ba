-- ===== src/Resp.antt =====
-- src/core/resp.h: the data of the request parser and of the reply encoders. The children translate
-- src/core/resp.cpp: Reader the line and number readers, Parser the two command forms, Reply the
-- encoders. A view into the input buffer is the list of bytes that it shows.
pub mod Outcome
pub mod Reader
pub mod Parser
pub mod Reply
use tiny_redis.Base.Bytes.{Bytes, codes}
use tiny_redis.Base.{ℕ, ◌*◌, List, [], ◌++◌, take, replicate, ◌-◌}

pub data Error : Type 0 where
  arg_length bulk_length inline_length : Error

unfoldable pub error_to_string : Error → Bytes
error_to_string Error.arg_length = codes "ERR Protocol error: invalid multibulk length"
error_to_string Error.bulk_length = codes "ERR Protocol error: invalid bulk length"
error_to_string Error.inline_length = codes "ERR Protocol error: too big inline request"

abbrev pub max_args : ℕ
max_args = 16

abbrev pub max_bulk_length : ℕ
max_bulk_length = 64 * 1024 * 1024

abbrev pub max_inline_length : ℕ
max_inline_length = 64 * 1024

-- `argv` has 16 slots.
pub record Command : Type 0 where
  pub argv : List Bytes
  pub argc : ℕ

pub data ParseStatus : Type 0 where
  ok incomplete protocol_error : ParseStatus

pub record ParseResult : Type 0 where
  pub status : ParseStatus
  pub consumed : ℕ
  pub error : Bytes

abbrev pub max_header_length : ℕ
max_header_length = 32

pub data LineStatus : Type 0 where
  found incomplete too_long bad_trailer : LineStatus

pub record Line : Type 0 where
  pub status : LineStatus
  pub text : Bytes
  pub next : ℕ

pub data Framing : Type 0 where
  strict inline : Framing

-- `ParseResult{}`
abbrev pub incomplete_result : ParseResult
incomplete_result = record { status = ParseStatus.incomplete; consumed = 0; error = [] }

unfoldable pub fail : Error → ParseResult
fail e = record { status = ParseStatus.protocol_error; consumed = 0; error = error_to_string e }

unfoldable pub clear : Command → Command
clear cmd = record { argv = replicate max_args []; argc = 0 }

-- `argc` is set and the slots from there on are blanked.
unfoldable pub publish : Command → ℕ → Command
publish out argc = record {
  argv = take argc out.argv ++ replicate (max_args - argc) [];
  argc = argc;
}
