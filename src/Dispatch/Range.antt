-- ===== src/Dispatch/Range.antt =====
-- src/core/command.cpp: the range of the deadlines that SET and EXPIRE compute.
use tiny_redis.Base.Bytes.{Bytes, codes}
use tiny_redis.Base.Int.{ℤ, pos, ltb_ℤ, ◌+ℤ◌, ◌-ℤ◌, ◌*ℤ◌}
use tiny_redis.Base.{
  ℕ, Bool, true, false, ◌&&◌, ◌||◌, not, Option, none, some, List, [], ◌∷◌, ◌≡◌, refl, arith,
  if◌then◌else◌,
}
use tiny_redis.Dispatch.Words.{iequals, parse_int, div_ℤ, deadline, not_integer, syntax_error}
use tiny_redis.Dispatch.{SetOptions, refused, invalid, deadline_at, option_deadline, set_options}
use tiny_redis.Store.Timely.{IsInt64}
use tiny_redis.Store.{keep_ttl}

pub deadline-IsInt64 :
    (n : ℤ) (seconds : Bool) (clock : ℕ) (at : ℤ)
    → ltb_ℤ (pos 0) n ≡ true
    → deadline n (if seconds then 1000 else 1) (pos clock) ≡ some at
    → IsInt64 at
unfolding deadline div_ℤ ◌+ℤ◌ ◌-ℤ◌ ◌*ℤ◌
deadline-IsInt64 n true clock at later e = ground (arith, later, e)
deadline-IsInt64 n false clock at later e = ground (arith, later, e)

-- The value of an option, where it gives a deadline.
abbrev OptionFits : Option (Option ℤ) → Type 0
OptionFits none = Unit
OptionFits (some none) = Unit
OptionFits (some (some at)) = IsInt64 at

option_deadline-OptionFits :
    (o : Option ℤ) (seconds : Bool) (clock : ℕ)
    → OptionFits (option_deadline o (if seconds then 1000 else 1) (pos clock))
unfolding option_deadline
option_deadline-OptionFits none seconds clock = tt
option_deadline-OptionFits (some n) seconds clock =
    on (ltb_ℤ (pos 0) n) refl (deadline n (if seconds then 1000 else 1) (pos clock)) refl
  where
    on :
        (b : Bool)
        → ltb_ℤ (pos 0) n ≡ b
        → (d : Option ℤ) → deadline n (if seconds then 1000 else 1) (pos clock) ≡ d
        → OptionFits (some (if b then d else none))
    on false e d f = tt
    on true e none f = tt
    on true e (some at) f = deadline-IsInt64 n seconds clock at e f

abbrev pub OptionsFit : SetOptions → Type 0
OptionsFit (refused msg) = Unit
OptionsFit invalid = Unit
OptionsFit (deadline_at at) = IsInt64 at

pub set_options-OptionsFit :
    (args : List Bytes) (clock : ℕ) (at : ℤ) (have : Bool)
    → IsInt64 at
    → OptionsFit (set_options args (pos clock) at have)
unfolding set_options
set_options-OptionsFit [] clock at have fits = fits
set_options-OptionsFit (opt ∷ []) clock at have fits =
    on (iequals opt (codes "keepttl") && not have)
  where
    on : (b : Bool) → OptionsFit (if b then deadline_at keep_ttl else refused syntax_error)
    on true = refl
    on false = tt
set_options-OptionsFit (opt ∷ n ∷ rest) clock at have fits =
    next (iequals opt (codes "keepttl") && not have)
      (not (iequals opt (codes "ex") || iequals opt (codes "px")) || have)
      (option_deadline (parse_int n) (if iequals opt (codes "ex") then 1000 else 1) (pos clock))
      (option_deadline-OptionFits (parse_int n) (iequals opt (codes "ex")) clock)
      (set_options-OptionsFit (n ∷ rest) clock keep_ttl true refl)
      (λ at' h. set_options-OptionsFit rest clock at' true h)
  where
    next :
        (keeps bad : Bool) (o : Option (Option ℤ))
        → OptionFits o
        → OptionsFit (set_options (n ∷ rest) (pos clock) keep_ttl true)
        → ((at' : ℤ) → IsInt64 at' → OptionsFit (set_options rest (pos clock) at' true))
        → OptionsFit (elim keeps [
          | true ↦ set_options (n ∷ rest) (pos clock) keep_ttl true
          | false ↦ elim bad [
            | true ↦ refused syntax_error
            | false ↦ elim o [
              | none ↦ refused not_integer
              | some none ↦ invalid
              | some (some at') ↦ set_options rest (pos clock) at' true
            ]
          ]
        ])
    next true bad o h kept set = kept
    next false true o h kept set = tt
    next false false none h kept set = tt
    next false false (some none) h kept set = tt
    next false false (some (some at')) h kept set = set at' h
