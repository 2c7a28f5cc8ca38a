-- ===== src/Fragment/Stored.antt =====
-- One piece in its slot: the datagram is complete when every piece has come.
use par_diff_vpn.Prelude.{
  ℕ, zero, suc, ◌*◌, ◌≤◌, ◌<◌, ◌≡◌, refl, sym, ap, ◌∙◌, Bool, true, false, ◌&&◌, none, some, List,
  ◌∷◌, length, arith, ◌==◌, dec_lt, Bool-cases, inl, inr, ◌⊎◌,
}
use par_diff_vpn.Buffer.{Buffer, slice, contents}
use par_diff_vpn.Buffer.Bytes.{get_elem?-slice, list_ext, length-slice-min}
use par_diff_vpn.Buffer.Contents.{IsOver, contents_over}
use par_diff_vpn.Fragment.{Slot, all_set, store}
use par_diff_vpn.Fragment.Bits.{all_set-true, all_set_of}
use par_diff_vpn.Fragment.Pieces.{piece, block}
use par_diff_vpn.Fragment.Assemble.{has, IsCut, IsPartial, next_bits, copied}

-- Every piece below `k` has come.
abbrev pub covers : ℕ → List ℕ → Bool
covers zero R = true
covers (suc k) R = has k R && covers k R

covers-has : (k : ℕ) (R : List ℕ) → covers k R ≡ true → (i : ℕ) → i < k → has i R ≡ true
covers-has zero R h i lt = absurd (omega arith)
covers-has (suc k) R h i lt = elim (dec_lt i k) [
  | yes low ↦ covers-has k R (ground (arith, h, Bool-cases (has k R))) i low
  | no high ↦
      (let e : k ≡ i = omega arith in
        ap (λ t. has t R) (sym e) ∙ ground (arith, h, Bool-cases (has k R)))
]

covers_of : (k : ℕ) (R : List ℕ) → ((i : ℕ) → i < k → has i R ≡ true) → covers k R ≡ true
covers_of zero R h = refl
covers_of (suc k) R h = rw (h k (omega arith)) (covers_of k R (λ i lt. h i (omega arith)))

module _ {p : List ℕ} {s m : ℕ} (cut : IsCut p s m) where
  all_set-covers :
      (o : ℕ) (R : List ℕ) (frag : Slot) (d : List ℕ)
      → IsPartial p s m o R frag d
      → all_set frag.received ≡ covers (suc m) R
  all_set-covers o R frag d h = elim (Bool-cases (covers (suc m) R)) [
    | inl full ↦
        (let last_in : has m R ≡ true = covers-has (suc m) R full m (omega arith) in
          all_set_of frag.received (λ i lt. elim (dec_lt i m) [
            | yes low ↦
                h.bits i (omega (arith, h.width))
                ∙ rw (covers-has (suc m) R full i (omega arith)) refl
            | no high ↦
                h.bits i (omega (arith, h.width)) ∙ ground (arith, last_in, Bool-cases (has i R))
          ])
          ∙ sym full)
    | inr missing ↦ elim (Bool-cases (all_set frag.received)) [
      | inr open_ ↦ open_ ∙ sym missing
      | inl full ↦
          (let bit = λ (i : ℕ) (lt : i < 32).
              sym (h.bits i lt) ∙ all_set-true frag.received full i (omega (arith, h.width)) in
            let c : covers (suc m) R ≡ true = covers_of (suc m) R (λ i lt.
              let small : i < 32 = omega (arith, cut.few) in
              ground (arith, bit i small, Bool-cases (has i R), Bool-cases (has m R))) in
            absurd (cc))
    ]
  ]

  -- The datagram in the slot, when every piece has come.
  contents_complete :
      (o : ℕ) (R : List ℕ) (frag : Slot) (d : List ℕ)
      → IsPartial p s m o R frag d
      → covers (suc m) R ≡ true
      → contents frag.buf ≡ p
  contents_complete o R frag d h full =
      let len : frag.buf.len ≡ length p =
        h.to_the_end (covers-has (suc m) R full m (omega arith)) in
      let seen : contents frag.buf ≡ slice d o (length p) =
        contents_over h.memory
        ∙ ap (λ t. slice d t frag.buf.len) h.place
        ∙ ap (λ t. slice d o t) len in
      let cut_ends = cut.ends in
      seen
      ∙ list_ext (slice d o (length p)) p
          (length-slice-min d o (length p) ∙ omega (arith, h.memory.size, h.room))
          (λ i lt.
            let within : i < suc m * s = grind arith in
            let (n, small, low, high) = block (suc m) s i within in
            get_elem?-slice d o (length p) i lt
            ∙ h.bytes n i (covers-has (suc m) R full n small) low high lt)

  -- What the piece `n` leaves in the slot, and what is handed on.
  pub stored :
      (now o n : ℕ) (R : List ℕ) (frag : Slot) (d : List ℕ) (body : Buffer) (sd : List ℕ)
      → IsPartial p s m o R frag d
      → n ≤ m
      → IsOver body sd
      → contents body ≡ piece p s n
      → ((covers (suc m) (n ∷ R) ≡ true)
          × (frag' : Slot) × (b : Buffer) × (store now (n == m) n s body frag
              ≡ some (frag', some b))
          × (contents b ≡ p))
        ⊎ ((covers (suc m) (n ∷ R) ≡ false)
            × (frag' : Slot) × (d' : List ℕ) × (store now (n == m) n s body frag
                ≡ some (frag', none))
            × IsPartial p s m o (n ∷ R) frag' d')
  unfolding store
  stored now o n R frag d body sd h le v e =
      let (b, d', done, part) = copied cut now o n R frag d body sd h le v e in
      let frag' : Slot = record frag {
        buf = b;
        received = next_bits cut n frag;
        timestamp = now;
      } in
      let same = all_set-covers o (n ∷ R) frag' d' part in
      elim (Bool-cases (covers (suc m) (n ∷ R))) [
        | inl full ↦ inl (
          full,
          record frag' { is_defined = false },
          b,
          rw (store, done, same, full),
          contents_complete o (n ∷ R) frag' d' part full,
        )
        | inr missing ↦ inr (missing, frag', d', rw (store, done, same, missing), part)
      ]
