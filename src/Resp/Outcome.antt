-- ===== src/Resp/Outcome.antt =====
-- The early returns of the parser as values: go on with a result, wait for more input, or fail.
use tiny_redis.Base.{Option, none, some, ◌≡◌, ◌⊎◌, inl, inr, refl}
use tiny_redis.Resp.{Error, Line, LineStatus}

pub data Step {ℓ} (A : Type ℓ) : Type ℓ where
  done : A → Step A
  more : Step A
  bad : Error → Step A

infixl 5 ◌>>=◌
abbrev pub ◌>>=◌ {ℓ κ} : {A : Type ℓ} {B : Type κ} → Step A → (A → Step B) → Step B
done a >>= f = f a
more >>= f = more
bad e >>= f = bad e

-- The tests on a line's status: `kIncomplete` waits, `kTooLong` and `kBadTrailer` fail with the
-- caller's error.
step_of : LineStatus → Error → Line → Step Line
step_of LineStatus.found e line = done line
step_of LineStatus.incomplete e line = more
step_of LineStatus.too_long e line = bad e
step_of LineStatus.bad_trailer e line = bad e

unfoldable pub accept : Error → Line → Step Line
unfolding step_of
accept e line = step_of line.status e line

-- `if (!v.has_value()) return fail(e)`
abbrev pub require {ℓ} : {A : Type ℓ} → Error → Option A → Step A
require e none = bad e
require e (some v) = done v

pub Step-cases {ℓ} :
    {A : Type ℓ} (m : Step A) → (m ≡ more) ⊎ ((a : A) × (m ≡ done a)) ⊎ ((e : Error) × (m ≡ bad e))
Step-cases more = inl refl
Step-cases (done a) = inr (inl (a, refl))
Step-cases (bad e) = inr (inr (e, refl))

step_of_done :
    (s : LineStatus) (e : Error) (line l : Line)
    → step_of s e line ≡ done l
    → (l ≡ line) × (s ≡ LineStatus.found)
unfolding step_of
step_of_done LineStatus.found e line l h = (cc, refl)
step_of_done LineStatus.incomplete e line l h = cc
step_of_done LineStatus.too_long e line l h = cc
step_of_done LineStatus.bad_trailer e line l h = cc

pub accept_done :
    (e : Error) (line l : Line)
    → accept e line ≡ done l
    → (l ≡ line) × (line.status ≡ LineStatus.found)
unfolding accept
accept_done e line l h = step_of_done line.status e line l h

pub bind_done {ℓ κ} :
    {A : Type ℓ} {B : Type κ} (m : Step A) (f : A → Step B) (b : B)
    → (m >>= f) ≡ done b
    → (a : A) × (m ≡ done a) × (f a ≡ done b)
bind_done (done a) f b h = (a, refl, h)
bind_done more f b h = cc
bind_done (bad e) f b h = cc

pub require_done {ℓ} :
    {A : Type ℓ} (e : Error) (o : Option A) (a : A) → require e o ≡ done a → o ≡ some a
require_done e none a h = cc
require_done e (some x) a h = cc
