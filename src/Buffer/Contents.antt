-- ===== src/Buffer/Contents.antt =====
-- The bytes of a buffer as a list: what each operation does to them, and when it fails.
use par_diff_vpn.Prelude.{
  ℕ, ◌+◌, ◌-◌, ◌≤◌, ◌<◌, ◌≡◌, refl, none, some, List, ◌++◌, length, take, drop, arith, ap, sym, ◌∙◌,
  ◌⊎◌, length-take, length-drop, inl, inr, dec_lt,
}
use par_diff_vpn.Buffer.Splice.{
  length-splice, drop-splice, take-splice_append, slice-splice_self, take-take, drop-take,
  drop-drop,
}
use par_diff_vpn.Buffer.{Buffer, buf_size_max, splice, slice, write, write_prepend, read, contents}

-- A buffer whose bytes lie inside its memory, which is `d`.
pub record IsOver (b : Buffer) (d : List ℕ) : Type 0 where
  pub memory : b.bytes ≡ some d
  pub size : length d ≡ b.capacity
  pub within : b.offset + b.len ≤ b.capacity

abbrev pub IsValid : Buffer → Type 0
IsValid b = (d : List ℕ) × IsOver b d

length-slice : (d : List ℕ) (o n : ℕ) → o + n ≤ length d → length (slice d o n) ≡ n
length-slice d o n h = omega (arith, length-take n (drop o d), length-drop o d)

module _ {b : Buffer} {d : List ℕ} (v : IsOver b d) where
  pub contents_over : contents b ≡ slice d b.offset b.len
  unfolding contents
  contents_over = ground (arith, v.memory)

  pub length-contents : length (contents b) ≡ b.len
  length-contents =
      rw contents_over (length-slice d b.offset b.len (omega (arith, v.size, v.within)))

module _ (src : List ℕ) (b : Buffer) {d : List ℕ} (v : IsOver b d) where
  -- What a write that fits leaves: its bytes behind the contents.
  pub write_fits :
      b.offset + b.len + length src ≤ b.capacity
      → length src < buf_size_max
      → (b' : Buffer) × (write src b ≡ some b')
        × IsOver b' (splice d (b.offset + b.len) src)
        × (contents b' ≡ contents b ++ src)
        × (b'.offset ≡ b.offset)
        × (b'.len ≡ b.len + length src)
        × (b'.capacity ≡ b.capacity)
  unfolding write contents
  write_fits fits small = (
    record b { len = b.len + length src; bytes = some (splice d (b.offset + b.len) src) },
    ground (arith, v.memory),
    record {
      memory = refl;
      size = length-splice d (b.offset + b.len) src ∙ v.size;
      within = omega arith;
    },
    rw (drop-splice d b.offset b.len src) (
        take-splice_append (drop b.offset d) src b.len
          (omega (arith, length-drop b.offset d, v.size))
        ∙ ap (λ t. t ++ src) (sym (contents_over v))),
    refl,
    refl,
    refl,
  )

  write_too_long :
      (b.capacity < b.offset + b.len + length src) ⊎ (buf_size_max ≤ length src)
      → write src b ≡ none
  unfolding write
  write_too_long long = ground (arith, v.memory)

  -- A write appends its bytes to the contents, and moves nothing else; it fails exactly when they
  -- do not fit behind the contents or are too many for any buffer.
  pub write_lem :
      ((b' : Buffer) × (write src b ≡ some b')
        × IsValid b'
        × (contents b' ≡ contents b ++ src)
        × (b'.offset ≡ b.offset)
        × (b'.len ≡ b.len + length src)
        × (b'.capacity ≡ b.capacity))
      ⊎ (((b.capacity < b.offset + b.len + length src) ⊎ (buf_size_max ≤ length src))
          × (write src b ≡ none))
  write_lem = elim (dec_lt b.capacity (b.offset + b.len + length src)) [
    | yes long ↦ inr (inl long, write_too_long (inl long))
    | no fits ↦ elim (dec_lt (length src) buf_size_max) [
      | no long ↦ inr (inr (omega arith), write_too_long (inr (omega arith)))
      | yes small ↦
          (let (b', e, over, c, o, l, k) = write_fits (omega arith) small in
            inl (b', e, (_, over), c, o, l, k))
    ]
  ]

  pub prepend_fits :
      length src ≤ b.offset
      → (b' : Buffer) × (write_prepend src b ≡ some b')
        × IsOver b' (splice d (b.offset - length src) src)
        × (contents b' ≡ src ++ contents b)
        × (b'.offset + length src ≡ b.offset)
        × (b'.len ≡ b.len + length src)
        × (b'.capacity ≡ b.capacity)
  unfolding write_prepend contents
  prepend_fits fits =
      let at = b.offset - length src in
      (
        record b { offset = at; len = b.len + length src; bytes = some (splice d at src) },
        ground (arith, v.memory),
        record {
          memory = refl;
          size = length-splice d at src ∙ v.size;
          within = omega (arith, v.within);
        },
        slice-splice_self d src at b.len (omega (arith, v.size, v.within))
            ∙ ap (λ t. src ++ t) (ap (λ k. slice d k b.len) (omega arith) ∙ sym (contents_over v)),
        omega arith,
        refl,
        refl,
      )

  -- Prepending puts the bytes before the contents, in the room that the offset leaves; it fails
  -- exactly when that room is too small.
  pub write_prepend_lem :
      ((length src ≤ b.offset)
        × (b' : Buffer) × (write_prepend src b ≡ some b')
        × IsValid b'
        × (contents b' ≡ src ++ contents b)
        × (b'.offset + length src ≡ b.offset)
        × (b'.len ≡ b.len + length src)
        × (b'.capacity ≡ b.capacity))
      ⊎ ((b.offset < length src) × (write_prepend src b ≡ none))
  write_prepend_lem = elim (dec_lt b.offset (length src)) [
    | yes long ↦ inr (long, unfold write_prepend in ground (arith, v.memory))
    | no fits ↦
        (let (b', e, over, c, o, l, k) = prepend_fits (omega arith) in
          inl (omega arith, b', e, (_, over), c, o, l, k))
  ]

module _ (n : ℕ) (b : Buffer) {d : List ℕ} (v : IsOver b d) where
  pub read_fits :
      n ≤ b.len
      → (b' : Buffer) × (read n b ≡ some (take n (contents b), b'))
        × IsOver b' d
        × (contents b' ≡ drop n (contents b))
        × (b'.offset ≡ b.offset + n)
        × (b'.len + n ≡ b.len)
        × (b'.capacity ≡ b.capacity)
  unfolding read
  read_fits fits = (
    after,
    ground (arith, v.memory, contents_over v, take-take (drop b.offset d) b.len n fits),
    over,
    contents_over over
        ∙ sym (
            ap (λ t. drop n t) (contents_over v)
            ∙ drop-take (drop b.offset d) b.len n
            ∙ ap (λ t. take (b.len - n) t) (drop-drop d b.offset n)),
    refl,
    omega arith,
    refl,
  )
    where
      after : Buffer
      after = record b { offset = b.offset + n; len = b.len - n }

      over : IsOver after d
      over = record { memory = v.memory; size = v.size; within = omega (arith, v.within) }

  -- A read takes the first bytes of the contents and leaves the rest; it fails exactly when there
  -- are too few.
  pub read_lem :
      ((b' : Buffer) × (read n b ≡ some (take n (contents b), b'))
        × IsValid b'
        × (contents b' ≡ drop n (contents b))
        × (b'.len + n ≡ b.len))
      ⊎ ((b.len < n) × (read n b ≡ none))
  read_lem = elim (dec_lt b.len n) [
    | yes short ↦ inr (short, unfold read in ground arith)
    | no fits ↦
        (let (b', e, over, c, o, l, k) = read_fits (omega arith) in inl (b', e, (_, over), c, l))
  ]
