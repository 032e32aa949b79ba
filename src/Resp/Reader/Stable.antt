-- ===== src/Resp/Reader/Stable.antt =====
-- The readers on an input, and on more of it.
use tiny_redis.Base.Bytes.{Bytes}
use tiny_redis.Base.{
  ℕ, suc, ◌+◌, ◌-◌, ◌≤◌, ◌<◌, min, Bool, false, none, some, [], ◌∷◌, ◌++◌, ◌≡◌, ◌≢◌, refl, sym, ap,
  ◌∙◌, arith, inl, inr, length, take, drop, get_or, leb, leb→le, ◌==◌, if◌then◌else◌, Bool-cases,
  Option-cases, append-nil, length-append, take_all, take-append, take-append_left,
  take-append_more, take-min-length, drop-append_left, get_or-append_left, length-take, length-drop,
}
use tiny_redis.Resp.Reader.{verdict, line_end, line_verdict, read_line, take_bytes}
use tiny_redis.Resp.{Line, LineStatus, Framing}

-- Whether the byte before the end is a CR.
pub ends_cr : Bool → Bytes → Bool
ends_cr cr [] = cr
ends_cr cr (c ∷ cs) = ends_cr (c == b'\r') cs

ends_cr-get_or :
    (cr : Bool) (xs : Bytes)
    → 0 < length xs
    → ends_cr cr xs ≡ (get_or xs (length xs - 1) 0 == b'\r')
unfolding ends_cr
ends_cr-get_or cr [] h = absurd (omega arith)
ends_cr-get_or cr (x ∷ []) h = refl
ends_cr-get_or cr (x ∷ y ∷ xs) h =
    ends_cr-get_or (x == b'\r') (y ∷ xs) (omega arith)
    ∙ ap (λ (k : ℕ). get_or (x ∷ y ∷ xs) k 0 == b'\r')
        (let e : suc (length (y ∷ xs) - 1) ≡ length (x ∷ y ∷ xs) - 1 = omega arith in e)

module _ (framing : Framing) where
  line_end-append_some :
      (cr : Bool) (i : ℕ) (xs ys : Bytes) (r : ℕ × Bool)
      → line_end framing cr i xs ≡ some r
      → line_end framing cr i (xs ++ ys) ≡ some r
  unfolding line_end
  line_end-append_some cr i [] ys r e = cc
  line_end-append_some cr i (x ∷ xs) ys r e =
      ground (arith, line_end-append_some (x == b'\r') (i + 1) xs ys r)

  pub line_end-append_none :
      (cr : Bool) (i : ℕ) (xs ys : Bytes)
      → line_end framing cr i xs ≡ none
      → line_end framing cr i (xs ++ ys) ≡ line_end framing (ends_cr cr xs) (i + length xs) ys
  unfolding line_end ends_cr
  line_end-append_none cr i [] ys e =
      ap (λ (k : ℕ). line_end framing cr k ys) (let e : i ≡ i + 0 = omega arith in e)
  line_end-append_none cr i (x ∷ xs) ys e =
      let last = ends_cr (x == b'\r') xs in
      let far : line_end framing last (i + 1 + length xs) ys
          ≡ line_end framing last (i + suc (length xs)) ys =
        ap (λ (k : ℕ). line_end framing last k ys)
          (let e : i + 1 + length xs ≡ i + suc (length xs) = omega arith in e) in
      ground (arith, line_end-append_none (x == b'\r') (i + 1) xs ys, far)

  pub line_end-bounds :
      (cr : Bool) (i : ℕ) (xs : Bytes) (lf : ℕ) (b : Bool)
      → line_end framing cr i xs ≡ some (lf, b)
      → (i ≤ lf) × (lf < i + length xs)
  unfolding line_end
  line_end-bounds cr i [] lf b e = cc
  line_end-bounds cr i (x ∷ xs) lf b e =
      ground (arith, line_end-bounds (x == b'\r') (i + 1) xs lf b)

  -- The window of `readLine` on `rest`.
  abbrev scan_of : ℕ → Bytes → Bytes
  scan_of max_len rest = take (min (length rest) (max_len + 2)) rest

  abbrev verdict_on : ℕ → ℕ → Bytes → Line
  verdict_on at max_len rest =
      line_verdict rest at max_len (scan_of max_len rest)
        (line_end framing false 0 (scan_of max_len rest))

  verdict_on-found :
      (at max_len : ℕ) (rest ys : Bytes) (lf : ℕ) (cr : Bool)
      → line_end framing false 0 (scan_of max_len rest) ≡ some (lf, cr)
      → verdict_on at max_len (rest ++ ys) ≡ verdict_on at max_len rest
  verdict_on-found at max_len rest ys lf cr e =
      let wide : scan_of max_len (rest ++ ys)
          ≡ scan_of max_len rest ++ take (max_len + 2 - length rest) ys =
        take-min-length (max_len + 2) (rest ++ ys)
        ∙ take-append (max_len + 2) rest ys
        ∙ ap (λ (z : Bytes). z ++ take (max_len + 2 - length rest) ys)
            (sym (take-min-length (max_len + 2) rest)) in
      let e' =
        line_end-append_some false 0 (scan_of max_len rest) (take (max_len + 2 - length rest) ys)
          (lf, cr) e in
      let low = line_end-bounds false 0 (scan_of max_len rest) lf cr e in
      let inside : lf ≤ length rest =
        omega (arith, low, length-take (min (length rest) (max_len + 2)) rest) in
      let len : ℕ = if cr then lf - 1 else lf in
      let text : take len (rest ++ ys) ≡ take len rest =
        take-append_left len rest ys (ground arith) in
      rw (wide, e', e) (unfold line_verdict in rw text)

  line_verdict_wide :
      (rest scan : Bytes) (at max_len : ℕ)
      → max_len + 2 ≤ length rest
      → line_verdict rest at max_len scan none ≡ verdict LineStatus.too_long
  unfolding line_verdict
  line_verdict_wide rest scan at max_len h = ground arith

  -- One byte behind a line of `max_len + 1` bytes with no terminator and no CR at its end.
  verdict_on_full :
      (at max_len : ℕ) (rest : Bytes) (y : ℕ) (ys : Bytes)
      → length rest ≡ max_len + 1
      → ends_cr false rest ≡ false
      → line_end framing false 0 rest ≡ none
      → verdict_on at max_len (rest ++ y ∷ ys) ≡ verdict LineStatus.too_long
  verdict_on_full at max_len rest y ys n cr e =
      let scan' : scan_of max_len (rest ++ y ∷ ys) ≡ rest ++ y ∷ [] =
        take-min-length (max_len + 2) (rest ++ y ∷ ys)
        ∙ ap (λ (k : ℕ). take k (rest ++ y ∷ ys))
            (let e : max_len + 2 ≡ length rest + 1 = omega arith in e)
        ∙ take-append_more 1 rest (y ∷ ys) in
      let found' : line_end framing false 0 (rest ++ y ∷ [])
          ≡ line_end framing false (0 + length rest) (y ∷ []) =
        line_end-append_none false 0 rest (y ∷ []) e
        ∙ ap (λ (b : Bool). line_end framing b (0 + length rest) (y ∷ [])) cr in
      rw (scan', found')
        (unfold line_end line_verdict in ground (arith, length-append rest (y ∷ ys)))

  -- A short input with no terminator is refused only in that case.
  refused_short :
      (at max_len : ℕ) (rest : Bytes)
      → length rest < max_len + 2
      → (line_verdict rest at max_len rest none).status ≢ LineStatus.incomplete
      → (length rest ≡ max_len + 1)
        × (ends_cr false rest ≡ false)
        × (line_verdict rest at max_len rest none ≡ verdict LineStatus.too_long)
  unfolding line_verdict
  refused_short at max_len rest h ne = ground (arith, ends_cr-get_or false rest)

  verdict_on-append_narrow :
      (at max_len : ℕ) (rest ys : Bytes)
      → length rest < max_len + 2
      → line_end framing false 0 rest ≡ none
      → (line_verdict rest at max_len rest none).status ≢ LineStatus.incomplete
      → verdict_on at max_len (rest ++ ys) ≡ line_verdict rest at max_len rest none
  verdict_on-append_narrow at max_len rest [] h e ne =
      rw (
        append-nil,
        take-min-length (max_len + 2) rest,
        take_all (max_len + 2) rest (omega arith),
        e,
      )
  verdict_on-append_narrow at max_len rest (y ∷ ys) h e ne =
      let (n, cr, same) = refused_short at max_len rest h ne in
      verdict_on_full at max_len rest y ys n cr e ∙ sym same

  verdict_on-none :
      (at max_len : ℕ) (rest ys : Bytes)
      → line_end framing false 0 (scan_of max_len rest) ≡ none
      → (verdict_on at max_len rest).status ≢ LineStatus.incomplete
      → verdict_on at max_len (rest ++ ys) ≡ verdict_on at max_len rest
  verdict_on-none at max_len rest ys e h = elim (Bool-cases (leb (max_len + 2) (length rest))) [
    | inl wide ↦
        let le = leb→le _ _ wide in
        let same : scan_of max_len (rest ++ ys) ≡ scan_of max_len rest =
          take-min-length (max_len + 2) (rest ++ ys)
          ∙ take-append_left (max_len + 2) rest ys le
          ∙ sym (take-min-length (max_len + 2) rest) in
        rw (same, e)
          (line_verdict_wide (rest ++ ys) _ at max_len (omega (arith, length-append rest ys))
            ∙ sym (line_verdict_wide rest _ at max_len le))
    | inr narrow ↦
        let lt : length rest < max_len + 2 = ground arith in
        let whole : scan_of max_len rest ≡ rest =
          take-min-length (max_len + 2) rest ∙ take_all (max_len + 2) rest (omega arith) in
        let here : verdict_on at max_len rest ≡ line_verdict rest at max_len rest none =
          rw (e, whole) in
        verdict_on-append_narrow at max_len rest ys lt (rw whole at e) (rw here at h) ∙ sym here
  ]

  -- A verdict that is out stays, whatever follows.
  pub verdict_on-append :
      (at max_len : ℕ) (rest ys : Bytes)
      → (verdict_on at max_len rest).status ≢ LineStatus.incomplete
      → verdict_on at max_len (rest ++ ys) ≡ verdict_on at max_len rest
  verdict_on-append at max_len rest ys h =
      elim (Option-cases (line_end framing false 0 (scan_of max_len rest))) [
        | inl e ↦ verdict_on-none at max_len rest ys e h
        | inr ((lf, cr), e) ↦ verdict_on-found at max_len rest ys lf cr e
      ]

  pub read_line-append :
      (input ys : Bytes) (at max_len : ℕ)
      → (read_line input at max_len framing).status ≢ LineStatus.incomplete
      → read_line (input ++ ys) at max_len framing ≡ read_line input at max_len framing
  unfolding read_line
  read_line-append input ys at max_len h = elim (Bool-cases (leb (length input) at)) [
    | inl past ↦ absurd (h (rw past))
    | inr inside ↦
        let lt : at < length input = ground arith in
        let inside' : leb (length (input ++ ys)) at ≡ false =
          ground (arith, length-append input ys) in
        rw (inside, inside', drop-append_left at input ys (omega arith))
          (verdict_on-append at max_len (drop at input) ys (rw inside at h))
  ]

pub take_bytes-append :
    (input ys : Bytes) (at len : ℕ)
    → (take_bytes input at len).status ≢ LineStatus.incomplete
    → take_bytes (input ++ ys) at len ≡ take_bytes input at len
unfolding take_bytes
take_bytes-append input ys at len h = ground (
  arith,
  length-append input ys,
  get_or-append_left input ys (at + len) 0,
  get_or-append_left input ys (at + len + 1) 0,
  drop-append_left at input ys,
  take-append_left len (drop at input) ys,
  length-drop at input,
)
