-- ===== src/Dispatch/Line.antt =====
-- src/core/command.cpp: the texts that go into a simple string or an error, as lines.
use tiny_redis.Base.Bytes.{Bytes, codes}
use tiny_redis.Base.Int.{ℤ}
use tiny_redis.Base.{
  Bool, true, false, ◌&&◌, ◌||◌, not, Option, none, some, List, [], ◌∷◌, ◌++◌, ◌≡◌, refl, arith,
  take, if◌then◌else◌,
}
use tiny_redis.Dispatch.Words.{
  Spec, specs, find_spec, find_in_specs, sanitized, append_sanitized, quoted_args, not_integer,
  syntax_error, parse_int, iequals,
}
use tiny_redis.Dispatch.{SetOptions, refused, invalid, deadline_at, option_deadline, set_options}
use tiny_redis.Resp.Reply.{is_line}
use tiny_redis.Store.{keep_ttl}

pub is_line-append :
    (xs ys : Bytes) → is_line xs ≡ true → is_line ys ≡ true → is_line (xs ++ ys) ≡ true
is_line-append [] ys h k = k
is_line-append (x ∷ xs) ys h k = ground (arith, is_line-append xs ys, k)

is_line-sanitized : (s : Bytes) → is_line (sanitized s) ≡ true
unfolding sanitized
is_line-sanitized [] = refl
is_line-sanitized (c ∷ cs) = ground (arith, is_line-sanitized cs)

pub is_line-append_sanitized :
    (dst s : Bytes) → is_line dst ≡ true → is_line (append_sanitized dst s) ≡ true
unfolding append_sanitized
is_line-append_sanitized dst s h =
    is_line-append dst (sanitized (take 128 s)) h (is_line-sanitized (take 128 s))

pub is_line-quoted_args :
    (msg : Bytes) (args : List Bytes) → is_line msg ≡ true → is_line (quoted_args msg args) ≡ true
unfolding quoted_args
is_line-quoted_args msg [] h = h
is_line-quoted_args msg (a ∷ rest) h =
    is_line-quoted_args (append_sanitized (msg ++ codes "'") a ++ codes "' ") rest (
      is_line-append (append_sanitized (msg ++ codes "'") a) (codes "' ")
        (is_line-append_sanitized (msg ++ codes "'") a (is_line-append msg (codes "'") h refl))
        refl)

-- The names of the commands, the only ones that are echoed as they are.
abbrev names_are_lines : List Spec → Bool
names_are_lines [] = true
names_are_lines (s ∷ ss) = is_line s.name && names_are_lines ss

is_line-find_in_specs :
    (ss : List Spec) (name : Bytes) (s : Spec)
    → names_are_lines ss ≡ true
    → find_in_specs ss name ≡ some s
    → is_line s.name ≡ true
unfolding find_in_specs
is_line-find_in_specs [] name s h e = ground arith
is_line-find_in_specs (x ∷ xs) name s h e = ground (arith, is_line-find_in_specs xs name s)

pub is_line-find_spec : (name : Bytes) (s : Spec) → find_spec name ≡ some s → is_line s.name ≡ true
unfolding find_spec
is_line-find_spec name s e = is_line-find_in_specs specs name s refl e

abbrev pub LineError : SetOptions → Type 0
LineError (refused msg) = is_line msg ≡ true
LineError invalid = Unit
LineError (deadline_at at) = Unit

pub set_options-LineError :
    (args : List Bytes) (now at : ℤ) (have : Bool) → LineError (set_options args now at have)
unfolding set_options
set_options-LineError [] now at have = tt
set_options-LineError (opt ∷ []) now at have = ground arith
set_options-LineError (opt ∷ n ∷ rest) now at have =
    next (iequals opt (codes "keepttl") && not have)
      (not (iequals opt (codes "ex") || iequals opt (codes "px")) || have)
      (option_deadline (parse_int n) (if iequals opt (codes "ex") then 1000 else 1) now)
      (set_options-LineError (n ∷ rest) now keep_ttl true)
      (λ at'. set_options-LineError rest now at' true)
  where
    next :
        (keeps bad : Bool) (o : Option (Option ℤ))
        → LineError (set_options (n ∷ rest) now keep_ttl true)
        → ((at' : ℤ) → LineError (set_options rest now at' true))
        → LineError (elim keeps [
          | true ↦ set_options (n ∷ rest) now keep_ttl true
          | false ↦ elim bad [
            | true ↦ refused syntax_error
            | false ↦ elim o [
              | none ↦ refused not_integer
              | some none ↦ invalid
              | some (some at') ↦ set_options rest now at' true
            ]
          ]
        ])
    next true bad o kept set = kept
    next false true o kept set = refl
    next false false none kept set = refl
    next false false (some none) kept set = tt
    next false false (some (some at')) kept set = set at'
