-- ===== src/Net/UniqueFd.antt =====
-- src/net/unique_fd.h and src/net/unique_fd.cpp: a descriptor with an owner. `none` is -1. What a
-- method hands to `close` is part of its result.
use tiny_redis.Base.{ℕ, Bool, true, false, Option, none, some, List, [], ◌∷◌, ◌==◌, if◌then◌else◌}

pub record UniqueFd : Type 0 where
  pub fd : Option ℕ

abbrev pub no_fd : UniqueFd
no_fd = record { fd = none }

abbrev pub owner : ℕ → UniqueFd
owner n = record { fd = some n }

-- `fd_ != -1`
unfoldable pub is_valid : UniqueFd → Bool
is_valid u = elim u.fd [ none ↦ false | some _ ↦ true ]

unfoldable pub same_fd : Option ℕ → Option ℕ → Bool
same_fd none none = true
same_fd (some a) (some b) = a == b
same_fd _ _ = false

unfoldable pub close_fd : Option ℕ → List ℕ
close_fd none = []
close_fd (some n) = n ∷ []

-- What the call returns, and the owner after it.
unfoldable pub release : UniqueFd → Option ℕ × UniqueFd
release u = (u.fd, no_fd)

unfoldable pub reset : Option ℕ → UniqueFd → UniqueFd × List ℕ
unfolding same_fd close_fd
reset new_fd u = if same_fd new_fd u.fd then (u, []) else (record { fd = new_fd }, close_fd u.fd)

-- The move constructor: the new owner, and the other one.
unfoldable pub move_from : UniqueFd → UniqueFd × UniqueFd
unfolding release
move_from other = let (fd, other') = release other in (record { fd = fd }, other')

-- The move assignment from another owner: both after it, and what was closed.
unfoldable pub move_assign : UniqueFd → UniqueFd → UniqueFd × UniqueFd × List ℕ
unfolding release reset
move_assign u other =
    let (fd, other') = release other in let (u', closed) = reset fd u in (u', other', closed)

-- The destructor.
unfoldable pub destroy : UniqueFd → List ℕ
unfolding close_fd
destroy u = close_fd u.fd
