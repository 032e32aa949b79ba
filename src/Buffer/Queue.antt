-- ===== src/Buffer/Queue.antt =====
-- Each operation of the buffer against the bytes between the cursors.
use tiny_redis.Base.Bytes.{Bytes}
use tiny_redis.Base.{
  ℕ, ◌+◌, ◌-◌, ◌*◌, ◌≤◌, max, ◌≡◌, refl, sym, ap, ◌∙◌, arith, true, [], ◌∷◌, ◌++◌, append-nil,
  length, take, drop, replicate, length-append, length-take, length-drop, length-replicate,
  take_all, take-append_left, drop-append_left, take-append_more, drop-drop, drop-take,
  take-append_length, leb, leb→le, drop_all, ◌↔◌, ◌==◌, Bool-cases, inl, inr,
}
use tiny_redis.Buffer.Copy.{length-copy_at}
use tiny_redis.Buffer.{
  new, Buffer, resize, size, readable, is_empty, capacity, writable_bytes, compact, ensure_writable,
  commit, write_tail, consume, append, append_byte,
}

-- The cursors are in order and inside the buffer.
pub record IsValid (b : Buffer) : Type 0 where
  pub ordered : b.read_idx ≤ b.write_idx
  pub inside : b.write_idx ≤ length b.buf

pub new-IsValid : (n : ℕ) → IsValid (new n)
new-IsValid n = record { ordered = omega arith; inside = omega arith }

pub length-readable : (b : Buffer) → IsValid b → length (readable b) ≡ size b
unfolding readable
length-readable b v = rw (length-take, length-drop) (omega arith)

-- A buffer whose array has grown at the end shows the same bytes.
readable-grow :
    (b : Buffer) (zs : Bytes) → IsValid b → readable (record b { buf = b.buf ++ zs }) ≡ readable b
unfolding readable
readable-grow b zs v =
    rw (drop-append_left b.read_idx b.buf zs (omega arith))
      (take-append_left (size b) (drop b.read_idx b.buf) zs (rw length-drop (omega arith)))

resize-append :
    (xs : Bytes) (n : ℕ) → length xs ≤ n → resize xs n ≡ xs ++ replicate (n - length xs) 0
resize-append xs n h = rw take_all

compact_lem :
    (b : Buffer)
    → IsValid b
    → IsValid (compact b)
      × (readable (compact b) ≡ readable b)
      × ((compact b).read_idx ≡ 0)
      × ((compact b).write_idx ≡ size b)
      × (length (compact b).buf ≡ length b.buf)
unfolding compact readable
compact_lem b v =
    let l : Bytes = take (size b) (drop b.read_idx b.buf) in
    let live : length l ≡ size b = length-readable b v in
    let same = length-copy_at b.buf 0 l (omega (arith, live)) in
    (
      record { ordered = omega arith; inside = omega (arith, same) },
      ap (λ (k : ℕ). take k (l ++ drop (0 + length l) b.buf))
            (let e : size b - 0 ≡ length l = omega (arith, live) in e)
          ∙ take-append_length l (drop (0 + length l) b.buf),
      refl,
      refl,
      same,
    )

grow_lem :
    (c : Buffer) (n : ℕ)
    → IsValid c
    → c.read_idx ≡ 0
    → (let g : Buffer = record c { buf = resize c.buf (max (2 * capacity c) (size c + n)) } in
        IsValid g × (readable g ≡ readable c) × (n ≤ writable_bytes g))
grow_lem c n v start =
    let m : ℕ = max (2 * capacity c) (size c + n) in
    let zs : Bytes = replicate (m - length c.buf) 0 in
    let width : length c.buf ≤ m = omega arith in
    rw (resize-append c.buf m width) (
      record { ordered = v.ordered; inside = rw length-append (omega arith) },
      readable-grow c zs v,
      rw (length-append, length-replicate) (omega arith),
    )

-- On a valid buffer `ensureWritable(n)` keeps the invariant and the unread bytes, and leaves room for
-- at least `n` bytes to write.
pub ensure_writable_lem :
    (b : Buffer) (n : ℕ)
    → IsValid b
    → IsValid (ensure_writable b n)
      × (readable (ensure_writable b n) ≡ readable b)
      × (n ≤ writable_bytes (ensure_writable b n))
unfolding ensure_writable
ensure_writable_lem b n v = elim (Bool-cases (leb n (writable_bytes b))) [
  | inl fits ↦ rw fits (v, refl, leb→le _ _ fits)
  | inr short ↦
      let (cv, reads, start, end, width) = compact_lem b v in
      elim (Bool-cases (leb n (writable_bytes (compact b)))) [
        | inl fits ↦ rw (short, fits) (cv, reads, leb→le _ _ fits)
        | inr tight ↦
            rw (short, tight)
              (let (gv, grown, room) = grow_lem (compact b) n cv start in (gv, grown ∙ reads, room))
      ]
]

-- On a valid buffer, bytes that fit the tail, are written there and are then committed follow the
-- unread ones, and the buffer stays valid.
pub fill_lem :
    (b : Buffer) (bytes : Bytes)
    → IsValid b
    → length bytes ≤ writable_bytes b
    → IsValid (commit (write_tail b bytes) (length bytes))
      × (readable (commit (write_tail b bytes) (length bytes)) ≡ readable b ++ bytes)
unfolding commit write_tail readable
fill_lem b bytes v h =
    let same = length-copy_at b.buf b.write_idx bytes (omega arith) in
    let old : Bytes = take (size b) (drop b.read_idx b.buf) in
    let live : length old ≡ size b = length-readable b v in
    let z : Bytes = drop (b.write_idx + length bytes) b.buf in
    (
      record { ordered = omega arith; inside = omega (arith, same) },
      rw (
        drop-append_left b.read_idx (take b.write_idx b.buf) (bytes ++ z)
            (rw length-take (omega arith)),
        drop-take b.read_idx b.write_idx b.buf,
        (let e : b.write_idx + length bytes - b.read_idx ≡ length old + length bytes =
              omega (arith, live) in
            e),
        take-append_more (length bytes) old (bytes ++ z),
        take-append_length bytes z,
      ),
    )

-- On a valid buffer `append` adds its bytes behind the unread ones, whatever compaction or growth it
-- takes, and the buffer stays valid.
pub append_lem :
    (b : Buffer) (bytes : Bytes)
    → IsValid b
    → IsValid (append b bytes) × (readable (append b bytes) ≡ readable b ++ bytes)
unfolding append
append_lem b [] v = (v, sym (append-nil _))
append_lem b (x ∷ xs) v =
    let (ev, reads, room) = ensure_writable_lem b (length (x ∷ xs)) v in
    let (fv, filled) = fill_lem (ensure_writable b (length (x ∷ xs))) (x ∷ xs) ev room in
    (fv, filled ∙ ap (λ (r : Bytes). r ++ x ∷ xs) reads)

pub append_byte_lem :
    (b : Buffer) (c : ℕ)
    → IsValid b
    → IsValid (append_byte b c) × (readable (append_byte b c) ≡ readable b ++ c ∷ [])
unfolding append_byte
append_byte_lem b c v =
    let (ev, reads, room) = ensure_writable_lem b 1 v in
    let (fv, filled) = fill_lem (ensure_writable b 1) (c ∷ []) ev room in
    (fv, filled ∙ ap (λ (r : Bytes). r ++ c ∷ []) reads)

-- On a valid buffer `consume(n)`, for `n` at most the unread bytes, takes `n` bytes from the front of
-- them, and the buffer stays valid.
pub consume_lem :
    (b : Buffer) (n : ℕ)
    → IsValid b
    → n ≤ size b
    → IsValid (consume b n) × (readable (consume b n) ≡ drop n (readable b))
unfolding consume readable
consume_lem b n v h = elim (Bool-cases (b.read_idx + n == b.write_idx)) [
  | inl all ↦ rw all (
    record { ordered = omega arith; inside = omega arith },
    sym (drop_all n (readable b) (ground (arith, length-readable b v))),
  )
  | inr some_left ↦ rw some_left (
    record { ordered = omega arith; inside = omega arith },
    ap (λ (k : ℕ). take k (drop (b.read_idx + n) b.buf))
          (let e : b.write_idx - (b.read_idx + n) ≡ size b - n = omega arith in e)
        ∙ ap (take (size b - n)) (sym (drop-drop n b.read_idx b.buf))
        ∙ sym (drop-take n (size b) (drop b.read_idx b.buf)),
  )
]

take_none : (b : Buffer) → size b ≡ 0 → readable b ≡ []
unfolding readable
take_none b e = rw e

-- On a valid buffer `empty()` is true exactly when no unread bytes are left.
pub is_empty_iff : (b : Buffer) → IsValid b → (is_empty b ≡ true) ↔ (readable b ≡ [])
unfolding is_empty
is_empty_iff b v = (
  λ e. take_none b (ground arith),
  λ e. let none_left : size b ≡ 0 = sym (length-readable b v) ∙ ap length e in ground arith,
)
