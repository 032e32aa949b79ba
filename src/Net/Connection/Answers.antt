-- ===== src/Net/Connection/Answers.antt =====
-- Replies that are added to an output, and requests that are taken from an input.
use mathlib.Core.Path.{subst}
use tiny_redis.Base.Bytes.{Bytes}
use tiny_redis.Base.{
  ℕ, ◌+◌, Bool, true, false, List, [], ◌∷◌, ◌++◌, append-nil, append_assoc, ◌≡◌, refl, sym, ap, ◌∙◌,
  arith, length, length-append, drop, ◌==◌, if◌then◌else◌,
}
use tiny_redis.Buffer.Queue.{IsValid as IsQueue}
use tiny_redis.Buffer.{Buffer, readable}
use tiny_redis.Dispatch.Replies.{Reply, encoded, Replies}
use tiny_redis.Resp.Parser.Slots.{AllShort}
use tiny_redis.Resp.Parser.{parse_command}
use tiny_redis.Resp.Reply.Wire.{Appends, Appends-trans}
use tiny_redis.Resp.{Command, ParseStatus, max_args}

abbrev all_encoded : List Reply → Bytes
all_encoded [] = []
all_encoded (r ∷ rs) = encoded r ++ all_encoded rs

-- `n` whole replies, and nothing else, are added to the output.
abbrev pub Gains : ℕ → Buffer → Buffer → Type 0
Gains n out out' = (rs : List Reply) × (length rs ≡ n) × Appends out out' (all_encoded rs)

pub Gains-none : (out : Buffer) → IsQueue out → Gains 0 out out
Gains-none out q = ([], refl, record { valid = q; shows = sym (append-nil (readable out)) })

pub Gains-one : (a b : Buffer) → Replies a b → Gains 1 a b
Gains-one a b (r, one) = (r ∷ [], refl, subst (Appends a b) (sym (append-nil (encoded r))) one)

-- The requests at the front of `input`, one parsed after the other with the slots of `cmd`, that ask for
-- `n` replies, and what is left behind them: a request without an argument asks for none, any other for
-- one, and a protocol error, which ends the connection, for one.
pub data Takes : Bytes → Command → ℕ → Bytes → Type 0 where
  leaves : (input : Bytes) (cmd : Command) → Takes input cmd 0 input
  refuses :
      (input : Bytes) (cmd : Command)
      → (parse_command input cmd).0.status ≡ ParseStatus.protocol_error
      → Takes input cmd 1 input
  takes :
      (input : Bytes) (cmd : Command) (n : ℕ) (rest : Bytes)
      → (parse_command input cmd).0.status ≡ ParseStatus.ok
      → Takes (drop (parse_command input cmd).0.consumed input) (parse_command input cmd).1 n rest
      → Takes input cmd ((if (parse_command input cmd).1.argc == 0 then 0 else 1) + n) rest

-- The command that the loop reuses: its slots are as the parser leaves them.
abbrev pub IsReused : Command → Type 0
IsReused cmd = (length cmd.argv ≡ max_args) × AllShort cmd.argv

all_encoded-append :
    (rs qs : List Reply) → all_encoded (rs ++ qs) ≡ all_encoded rs ++ all_encoded qs
all_encoded-append [] qs = refl
all_encoded-append (r ∷ rs) qs =
    ap (λ (x : Bytes). encoded r ++ x) (all_encoded-append rs qs)
    ∙ sym (append_assoc (encoded r) (all_encoded rs) (all_encoded qs))

pub Gains-trans : (m n : ℕ) (a b c : Buffer) → Gains m a b → Gains n b c → Gains (m + n) a c
Gains-trans m n a b c (rs, l, one) (qs, l', more) = (
  rs ++ qs,
  rw length-append (omega (arith, l, l')),
  subst (Appends a c) (sym (all_encoded-append rs qs)) (Appends-trans one more),
)

pub dispatched-Gains :
    (b : Bool) (out out' : Buffer)
    → IsQueue out
    → (if b then out' ≡ out else Replies out out')
    → Gains (if b then 0 else 1) out out'
dispatched-Gains true out out' q e = subst (λ x. Gains 0 out x) (sym e) (Gains-none out q)
dispatched-Gains false out out' q r = Gains-one out out' r
