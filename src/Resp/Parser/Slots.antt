-- ===== src/Resp/Parser/Slots.antt =====
-- The lengths of what the slots of a command hold.
use tiny_redis.Base.Bytes.{Bytes}
use tiny_redis.Base.{
  ℕ, zero, suc, ◌+◌, ◌-◌, ◌≤◌, Bool, true, false, Option, none, some, List, [], ◌∷◌, ◌++◌, arith,
  length, take, set, get_or, replicate, ◌==◌, if◌then◌else◌,
}
use tiny_redis.Resp.Parser.{skip_blanks, first_word, after_word, inline_args}
use tiny_redis.Resp.{Command, max_args, max_bulk_length, publish}

-- Every slot holds at most as many bytes as a bulk string may have.
abbrev pub AllShort : List Bytes → Type 0
AllShort [] = Unit
AllShort (x ∷ xs) = (length x ≤ max_bulk_length) × AllShort xs

pub AllShort-replicate : (n : ℕ) → AllShort (replicate n [])
AllShort-replicate zero = tt
AllShort-replicate (suc n) = (omega arith, AllShort-replicate n)

AllShort-append : (xs ys : List Bytes) → AllShort xs → AllShort ys → AllShort (xs ++ ys)
AllShort-append [] ys h k = k
AllShort-append (x ∷ xs) ys h k = (h.0, AllShort-append xs ys (h.1) k)

AllShort-take : (n : ℕ) (xs : List Bytes) → AllShort xs → AllShort (take n xs)
AllShort-take zero xs h = tt
AllShort-take (suc n) [] h = tt
AllShort-take (suc n) (x ∷ xs) h = (h.0, AllShort-take n xs (h.1))

pub AllShort-set :
    (xs : List Bytes) (i : ℕ) (v : Bytes)
    → AllShort xs
    → length v ≤ max_bulk_length
    → AllShort (set xs i v)
AllShort-set [] i v h k = tt
AllShort-set (x ∷ xs) zero v h k = (k, h.1)
AllShort-set (x ∷ xs) (suc i) v h k = (h.0, AllShort-set xs i v (h.1) k)

pub AllShort-get_or :
    (xs : List Bytes) (i : ℕ) → AllShort xs → length (get_or xs i []) ≤ max_bulk_length
AllShort-get_or [] i h = omega arith
AllShort-get_or (x ∷ xs) zero h = h.0
AllShort-get_or (x ∷ xs) (suc i) h = AllShort-get_or xs i (h.1)

pub publish-AllShort : (out : Command) (n : ℕ) → AllShort out.argv → AllShort (publish out n).argv
unfolding publish
publish-AllShort out n h =
    AllShort-append (take n out.argv) (replicate (max_args - n) []) (AllShort-take n out.argv h)
      (AllShort-replicate (max_args - n))

length-first_word : (s : Bytes) → length (first_word s) ≤ length s
unfolding first_word
length-first_word [] = omega arith
length-first_word (c ∷ cs) = ground (arith, length-first_word cs)

length-after_word : (s : Bytes) → length (after_word s) ≤ length s
unfolding after_word
length-after_word [] = omega arith
length-after_word (c ∷ cs) = ground (arith, length-after_word cs)

length-skip_blanks : (s : Bytes) → length (skip_blanks s) ≤ length s
unfolding skip_blanks
length-skip_blanks [] = omega arith
length-skip_blanks (c ∷ cs) = ground (arith, length-skip_blanks cs)

abbrev pub ShortArgs : Option (ℕ × List Bytes) → Type 0
ShortArgs none = Unit
ShortArgs (some (n, argv)) = AllShort argv

pub inline_args-ShortArgs :
    (fuel : ℕ) (text : Bytes) (n : ℕ) (argv : List Bytes)
    → length text ≤ max_bulk_length
    → AllShort argv
    → ShortArgs (inline_args fuel text n argv)
unfolding inline_args
inline_args-ShortArgs zero text n argv small h = h
inline_args-ShortArgs (suc fuel) text n argv small h =
    next (skip_blanks text) (length-skip_blanks text)
      (λ left argv' k h'. inline_args-ShortArgs fuel left (n + 1) argv' k h')
  where
    guarded :
        (b : Bool) (rest : Option (ℕ × List Bytes))
        → ShortArgs rest
        → ShortArgs (if b then none else rest)
    guarded true rest k = tt
    guarded false rest k = k

    next :
        (word : Bytes)
        → length word ≤ length text
        → ((left : Bytes) (argv' : List Bytes)
            → length left ≤ max_bulk_length
            → AllShort argv'
            → ShortArgs (inline_args fuel left (n + 1) argv'))
        → ShortArgs (elim word [
          | [] ↦ some (n, argv)
          | c ∷ cs ↦
              let rest =
                inline_args fuel (after_word (c ∷ cs)) (n + 1) (set argv n (first_word (c ∷ cs))) in
              if n == max_args then none else rest
        ])
    next [] less ih = h
    next (c ∷ cs) less ih =
        guarded (n == max_args)
          (inline_args fuel (after_word (c ∷ cs)) (n + 1) (set argv n (first_word (c ∷ cs))))
          (ih (after_word (c ∷ cs)) (set argv n (first_word (c ∷ cs)))
            (omega (arith, length-after_word (c ∷ cs), less, small))
            (AllShort-set argv n (first_word (c ∷ cs)) h
              (omega (arith, length-first_word (c ∷ cs), less, small))))
