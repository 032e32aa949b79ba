-- ===== src/Net/Server/Clients.antt =====
-- Lists of clients: how often a descriptor is among them, and what erasing and writing back change.
use tiny_redis.Base.{ℕ, ◌+◌, none, some, List, [], ◌∷◌, ◌++◌, ◌≡◌, refl, arith, ◌==◌, if◌then◌else◌}
use tiny_redis.Net.Server.{Client, fd_of, find_client, erase_client, put_client}

-- How often `d` is in a log of descriptors.
abbrev pub times : ℕ → List ℕ → ℕ
times d [] = 0
times d (n ∷ ns) = (if n == d then 1 else 0) + times d ns

-- How many clients have the descriptor `d`.
abbrev pub count : ℕ → List Client → ℕ
count d [] = 0
count d (c ∷ cs) = (if fd_of c == d then 1 else 0) + count d cs

abbrev pub Each : (Client → Type 0) → List Client → Type 0
Each P [] = Unit
Each P (c ∷ cs) = P c × Each P cs

pub times-append : (d : ℕ) (xs ys : List ℕ) → times d (xs ++ ys) ≡ times d xs + times d ys
times-append d [] ys = omega arith
times-append d (x ∷ xs) ys = omega (arith, times-append d xs ys)

pub count-append : (d : ℕ) (xs ys : List Client) → count d (xs ++ ys) ≡ count d xs + count d ys
count-append d [] ys = omega arith
count-append d (x ∷ xs) ys = omega (arith, count-append d xs ys)

pub Each-append :
    (P : Client → Type 0) (xs ys : List Client) → Each P xs → Each P ys → Each P (xs ++ ys)
Each-append P [] ys h k = k
Each-append P (x ∷ xs) ys h k = (h.0, Each-append P xs ys (h.1) k)

pub find_client-fd :
    (fd : ℕ) (cs : List Client) (c : Client) → find_client fd cs ≡ some c → fd_of c ≡ fd
unfolding find_client
find_client-fd fd [] c h = ground arith
find_client-fd fd (x ∷ xs) c h = ground (arith, find_client-fd fd xs c)

pub find_client-Each :
    (P : Client → Type 0) (fd : ℕ) (cs : List Client) (c : Client)
    → find_client fd cs ≡ some c
    → Each P cs
    → P c
unfolding find_client
find_client-Each P fd [] c h k = ground arith
find_client-Each P fd (x ∷ xs) c h k = ground (arith, find_client-Each P fd xs c)

pub find_client-append :
    (fd : ℕ) (xs ys : List Client)
    → find_client fd (xs ++ ys)
      ≡ elim (find_client fd xs) [ none ↦ find_client fd ys | some c ↦ some c ]
unfolding find_client
find_client-append fd [] ys = refl
find_client-append fd (x ∷ xs) ys = ground (arith, find_client-append fd xs ys)

pub count-erase_client :
    (d fd : ℕ) (cs : List Client) (c : Client)
    → find_client fd cs ≡ some c
    → count d cs ≡ (if fd_of c == d then 1 else 0) + count d (erase_client fd cs)
unfolding find_client erase_client
count-erase_client d fd [] c h = ground arith
count-erase_client d fd (x ∷ xs) c h = ground (arith, count-erase_client d fd xs c)

pub count-put_client :
    (d fd : ℕ) (new : Client) (cs : List Client)
    → fd_of new ≡ fd
    → count d (put_client fd new cs) ≡ count d cs
unfolding put_client
count-put_client d fd new [] h = refl
count-put_client d fd new (x ∷ xs) h = ground (arith, count-put_client d fd new xs h)

pub find_client-put_client :
    (fd : ℕ) (new c : Client) (cs : List Client)
    → find_client fd cs ≡ some c
    → fd_of new ≡ fd
    → find_client fd (put_client fd new cs) ≡ some new
unfolding find_client put_client
find_client-put_client fd new c [] h e = ground arith
find_client-put_client fd new c (x ∷ xs) h e = ground (arith, find_client-put_client fd new c xs)

pub Each-put_client :
    (P : Client → Type 0) (fd : ℕ) (new : Client) (cs : List Client)
    → P new
    → Each P cs
    → Each P (put_client fd new cs)
unfolding put_client
Each-put_client P fd new [] h k = k
Each-put_client P fd new (x ∷ xs) h k = ground (arith, Each-put_client P fd new xs h)

-- Erasing the client that was written back leaves the others.
pub erase_client-put_client :
    (fd : ℕ) (new c : Client) (cs : List Client)
    → find_client fd cs ≡ some c
    → fd_of new ≡ fd
    → erase_client fd (put_client fd new cs) ≡ erase_client fd cs
unfolding find_client put_client erase_client
erase_client-put_client fd new c [] h e = refl
erase_client-put_client fd new c (x ∷ xs) h e = ground (arith, erase_client-put_client fd new c xs)

pub Each-erase_client :
    (P : Client → Type 0) (fd : ℕ) (cs : List Client) → Each P cs → Each P (erase_client fd cs)
unfolding erase_client
Each-erase_client P fd [] k = k
Each-erase_client P fd (x ∷ xs) k = ground (arith, Each-erase_client P fd xs)

pub put_client_absent :
    (fd : ℕ) (new : Client) (cs : List Client)
    → find_client fd cs ≡ none
    → put_client fd new cs ≡ cs
unfolding find_client put_client
put_client_absent fd new [] h = refl
put_client_absent fd new (x ∷ xs) h = ground (arith, put_client_absent fd new xs)
