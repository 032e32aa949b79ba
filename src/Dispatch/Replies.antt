-- ===== src/Dispatch/Replies.antt =====
-- src/core/command.cpp: what a command adds to the output.
use tiny_redis.Base.Bytes.{Bytes, codes}
use tiny_redis.Base.Int.{ℤ, pos}
use tiny_redis.Base.{
  true, false, Option, none, some, [], ◌∷◌, ◌++◌, ◌≡◌, refl, length, ltb, ◌==◌, if◌then◌else◌,
}
use tiny_redis.Buffer.Queue.{IsValid as IsQueue}
use tiny_redis.Buffer.{Buffer}
use tiny_redis.Dispatch.Line.{is_line-append, is_line-append_sanitized, is_line-quoted_args}
use tiny_redis.Dispatch.Reads.{bulk_or_null}
use tiny_redis.Dispatch.Words.{
  arg, args_from, append_sanitized, unknown_command, wrong_arity, invalid_expire,
}
use tiny_redis.Dispatch.{cmd_ping}
use tiny_redis.Resp.Reply.Wire.{Appends, replies-Appends}
use tiny_redis.Resp.Reply.{
  is_line, crlf, decimal, signed_decimal, simple_string, error, integer, bulk, null_bulk,
}
use tiny_redis.Resp.{Command}

-- A reply: what RESP puts behind its type, a line without a line end for the first two.
pub data Reply : Type 0 where
  simple_reply error_reply : (s : Bytes) → is_line s ≡ true → Reply
  integer_reply : ℤ → Reply
  bulk_reply : Bytes → Reply
  null_reply : Reply

abbrev pub encoded : Reply → Bytes
encoded (simple_reply s h) = b'+' ∷ (s ++ crlf)
encoded (error_reply s h) = b'-' ∷ (s ++ crlf)
encoded (integer_reply v) = b':' ∷ (signed_decimal v ++ crlf)
encoded (bulk_reply s) = b'$' ∷ (decimal (length s) ++ crlf) ++ (s ++ crlf)
encoded null_reply = codes "$-1\r\n"

-- One reply is added to the output.
abbrev pub Replies : Buffer → Buffer → Type 0
Replies out out' = (r : Reply) × Appends out out' (encoded r)

module _ (out : Buffer) (v : IsQueue out) where
  pub simple_string-Replies : (s : Bytes) → is_line s ≡ true → Replies out (simple_string out s)
  simple_string-Replies s h =
      let (a, _, _, _, _, _) = replies-Appends out s [] (pos 0) 0 v h in (simple_reply s h, a)

  pub error-Replies : (s : Bytes) → is_line s ≡ true → Replies out (error out s)
  error-Replies s h =
      let (_, a, _, _, _, _) = replies-Appends out s [] (pos 0) 0 v h in (error_reply s h, a)

  pub integer-Replies : (n : ℤ) → Replies out (integer out n)
  integer-Replies n =
      let (_, _, a, _, _, _) = replies-Appends out [] [] n 0 v refl in (integer_reply n, a)

  pub bulk-Replies : (s : Bytes) → Replies out (bulk out s)
  bulk-Replies s =
      let (_, _, _, a, _, _) = replies-Appends out [] s (pos 0) 0 v refl in (bulk_reply s, a)

  pub null_bulk-Replies : Replies out (null_bulk out)
  null_bulk-Replies =
      let (_, _, _, _, a, _) = replies-Appends out [] [] (pos 0) 0 v refl in (null_reply, a)

  pub wrong_arity-Replies :
      (name : Bytes) → is_line name ≡ true → Replies out (wrong_arity name out)
  unfolding wrong_arity
  wrong_arity-Replies name h = error-Replies _ (
      is_line-append (codes "ERR wrong number of arguments for '") (name ++ codes "' command") refl
        (is_line-append name (codes "' command") h refl))

  pub invalid_expire-Replies :
      (name : Bytes) → is_line name ≡ true → Replies out (invalid_expire name out)
  unfolding invalid_expire
  invalid_expire-Replies name h = error-Replies _ (
      is_line-append (codes "ERR invalid expire time in '") (name ++ codes "' command") refl
        (is_line-append name (codes "' command") h refl))

  pub unknown_command-Replies : (cmd : Command) → Replies out (unknown_command cmd out)
  unfolding unknown_command
  unknown_command-Replies cmd =
      let msg = append_sanitized (codes "ERR unknown command '") (arg cmd 0) in
      error-Replies _ (
        is_line-quoted_args (msg ++ codes "', with args beginning with: ") (args_from cmd 1) (
          is_line-append msg (codes "', with args beginning with: ")
            (is_line-append_sanitized (codes "ERR unknown command '") (arg cmd 0) refl) refl))

  pub cmd_ping-Replies : (cmd : Command) → Replies out (cmd_ping cmd out)
  unfolding cmd_ping
  cmd_ping-Replies cmd =
      let wrong = wrong_arity-Replies (codes "ping") refl in
      let echoed = bulk-Replies (arg cmd 1) in
      let pong = simple_string-Replies (codes "PONG") refl in
      elim (ltb 2 cmd.argc)
        as (λ b. Replies out (
          if b
          then wrong_arity (codes "ping") out
          else if cmd.argc == 2
          then bulk out (arg cmd 1)
          else simple_string out (codes "PONG"))) [
            | true ↦ wrong
            | false ↦
                elim (cmd.argc == 2)
                  as (λ b.
                    Replies out
                      (if b then bulk out (arg cmd 1) else simple_string out (codes "PONG"))) [
                        | true ↦ echoed
                        | false ↦ pong
                      ]
          ]

  pub bulk_or_null-Replies : (o : Option Bytes) → Replies out (bulk_or_null out o)
  bulk_or_null-Replies none = null_bulk-Replies
  bulk_or_null-Replies (some w) = bulk-Replies w
