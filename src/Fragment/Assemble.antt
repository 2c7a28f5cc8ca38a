-- ===== src/Fragment/Assemble.antt =====
-- What a slot holds while the pieces of one datagram come in, in any order and with repeats.
use par_diff_vpn.Prelude.{
  ℕ, suc, ◌+◌, ◌-◌, ◌*◌, ◌≤◌, ◌<◌, ◌≡◌, ◌≢◌, refl, sym, ap, ◌∙◌, Bool, true, false, ◌&&◌, ◌||◌,
  some, List, [], ◌∷◌, length, get_or, get_elem?, arith, leb, ltb, ◌==◌, if◌then◌else◌, dec_lt,
  Bool-cases, inl, inr,
}
use par_diff_vpn.Buffer.{Buffer, splice, slice, contents, copy_range}
use par_diff_vpn.Buffer.Splice.{length-splice}
use par_diff_vpn.Buffer.Bytes.{
  get_elem?-slice, get_elem?-splice_in, get_elem?-splice_before, get_elem?-splice_after,
}
use par_diff_vpn.Buffer.Contents.{IsOver, contents_over, length-contents}
use par_diff_vpn.Fragment.{Slot, set_bit, set_from}
use par_diff_vpn.Fragment.Bits.{length-set_bit, length-set_from, get_or-set_bit, get_or-set_from}
use par_diff_vpn.Fragment.Pieces.{piece, length-piece, mul_mono}

-- Whether piece `n` is among those that came.
abbrev pub has : ℕ → List ℕ → Bool
has n [] = false
has n (x ∷ xs) = x == n || has n xs

-- A datagram `p` that is cut every `s` bytes, with `m` the number of its last piece.
pub record IsCut (p : List ℕ) (s m : ℕ) : Type 0 where
  pub positive : 0 < s
  pub few : m < 32
  pub starts : m * s < length p
  pub ends : length p ≤ m * s + s

-- The slot after the pieces of `R`: `d` is its memory and `o` the offset of the datagram.
pub record IsPartial (p : List ℕ) (s m o : ℕ) (R : List ℕ) (frag : Slot) (d : List ℕ) : Type 0 where
  pub in_use : frag.is_defined ≡ true
  pub same_size : frag.max_frag_size ≡ s
  pub width : length frag.received ≡ 32
  pub bits : (i : ℕ) → i < 32 → get_or frag.received i false ≡ (has i R || has m R && leb m i)
  pub memory : IsOver frag.buf d
  pub place : frag.buf.offset ≡ o
  pub room : o + length p ≤ frag.buf.capacity
  pub bytes :
      (n x : ℕ)
      → has n R ≡ true
      → n * s ≤ x
      → x < n * s + s
      → x < length p
      → get_elem? d (o + x) ≡ get_elem? p x
  pub not_longer : frag.buf.len ≤ length p
  pub to_the_end : has m R ≡ true → frag.buf.len ≡ length p

or_last : (e b c l : Bool) → (e ≡ true → l ≡ true) → (l || (b || c && l)) ≡ ((e || b) || true && l)
or_last true b c l h = rw (h refl)
or_last false true c true h = refl
or_last false true c false h = refl
or_last false false c true h = refl
or_last false false true false h = refl
or_last false false false false h = refl

or_other : (e b c l : Bool) → (e || (b || c && l)) ≡ ((e || b) || (false || c) && l)
or_other true b c l = refl
or_other false b c l = refl

module _ {p : List ℕ} {s m : ℕ} (cut : IsCut p s m) where
  -- Where the piece `n` lies in the datagram.
  pub piece-bounds :
      (n : ℕ)
      → n ≤ m
      → (n * s + length (piece p s n) ≤ length p)
        × (n < m → length (piece p s n) ≡ s)
        × (n ≡ m → n * s + length (piece p s n) ≡ length p)
        × (n * s < length p)
  piece-bounds n h =
      let len = length-piece p s n in
      let low = mul_mono n m s h in
      let c = cut.starts in
      let e = cut.ends in
      (
        omega arith,
        λ lt.
            (let next = mul_mono (suc n) m s lt in
              let q : suc n * s ≡ n * s + s = grind arith in omega arith),
        λ same. (let q : n * s ≡ m * s = ap (λ t. t * s) same in omega arith),
        omega arith,
      )

  abbrev pub next_bits : ℕ → Slot → List Bool
  next_bits n frag = if n == m then set_from n frag.received else set_bit n frag.received

  next_bits-bits :
      (n : ℕ) (R : List ℕ) (frag : Slot) (i : ℕ)
      → length frag.received ≡ 32
      → get_or frag.received i false ≡ (has i R || has m R && leb m i)
      → i < 32
      → get_or (next_bits n frag) i false ≡ (has i (n ∷ R) || has m (n ∷ R) && leb m i)
  next_bits-bits n R frag i w h lt = elim (Bool-cases (n == m)) [
    | inl same ↦
        (let e : n ≡ m = ground arith in
          let l : leb n i ≡ leb m i = ap (λ t. leb t i) e in
          rw same (
            get_or-set_from n i frag.received (omega arith)
            ∙ ap (λ t. leb n i || t) h
            ∙ ap (λ t. t || (has i R || has m R && leb m i)) l
            ∙ or_last (n == i) (has i R) (has m R) (leb m i) (λ here. ground (arith, here, e))))
    | inr other ↦ rw other (
        get_or-set_bit n i frag.received (omega arith)
        ∙ ap (λ t. (n == i) || t) h
        ∙ or_other (n == i) (has i R) (has m R) (leb m i))
  ]

  -- The bytes in memory after the piece `n` is copied.
  copied-bytes :
      (o n : ℕ) (R : List ℕ) (d : List ℕ) (cap : ℕ)
      → length d ≡ cap
      → o + length p ≤ cap
      → n ≤ m
      → ((k x : ℕ)
          → has k R ≡ true
          → k * s ≤ x
          → x < k * s + s
          → x < length p
          → get_elem? d (o + x) ≡ get_elem? p x)
      → (k x : ℕ) → has k (n ∷ R) ≡ true
      → k * s ≤ x
      → x < k * s + s
      → x < length p
      → get_elem? (splice d (o + n * s) (piece p s n)) (o + x) ≡ get_elem? p x
  copied-bytes o n R d cap size room le old k x r low high short =
      let (inside, exact, end, below) = piece-bounds n le in
      let len = length-piece p s n in
      elim (dec_lt x (n * s)) [
        | yes before ↦
            (let other : n ≢ k =
                λ same. (let q : n * s ≡ k * s = ap (λ t. t * s) same in omega arith) in
              get_elem?-splice_before d (o + n * s) (piece p s n) (o + x) (omega arith)
              ∙ old k x (ground (arith, other)) low high short)
        | no after ↦ elim (dec_lt x (n * s + length (piece p s n))) [
          | yes within ↦
              (let place : o + n * s + (x - n * s) ≡ o + x = omega arith in
                let index : n * s + (x - n * s) ≡ x = omega arith in
                ap (λ t. get_elem? (splice d (o + n * s) (piece p s n)) t) (sym place)
                ∙ get_elem?-splice_in d (o + n * s) (piece p s n) (x - n * s) (omega arith)
                    (omega arith)
                ∙ get_elem?-slice p (n * s) s (x - n * s) (omega arith)
                ∙ ap (λ t. get_elem? p t) index)
          | no beyond ↦
              (let other : n ≢ k =
                  λ same. (let q : n * s ≡ k * s = ap (λ t. t * s) same in omega arith) in
                get_elem?-splice_after d (o + n * s) (piece p s n) (o + x) (omega arith)
                ∙ old k x (ground (arith, other)) low high short)
        ]
      ]

  length-next_bits : (n : ℕ) (frag : Slot) → length (next_bits n frag) ≡ length frag.received
  length-next_bits n frag = elim (Bool-cases (n == m)) [
    | inl same ↦ rw same (length-set_from n frag.received)
    | inr other ↦ rw other (length-set_bit n frag.received)
  ]

  -- A piece is copied to its place, and what came before stays.
  pub copied :
      (now o n : ℕ) (R : List ℕ) (frag : Slot) (d : List ℕ) (body : Buffer) (sd : List ℕ)
      → IsPartial p s m o R frag d
      → n ≤ m
      → IsOver body sd
      → contents body ≡ piece p s n
      → (b : Buffer) × (d' : List ℕ) × (copy_range frag.buf (n * s) body 0 body.len ≡ some b)
        × IsPartial p s m o
            (n ∷ R)
            (record frag { buf = b; received = next_bits n frag; timestamp = now })
            d'
  unfolding copy_range
  copied now o n R frag d body sd h le v e =
      let (inside, exact, end, below) = piece-bounds n le in
      let len : body.len ≡ length (piece p s n) = sym (length-contents v) ∙ ap length e in
      let src : List ℕ = piece p s n in
      let taken : slice sd (body.offset + 0) body.len ≡ src =
        (let z : body.offset + 0 ≡ body.offset = omega arith in
          ap (λ k. slice sd k body.len) z ∙ sym (contents_over v) ∙ e) in
      let d' : List ℕ = splice d (o + n * s) src in
      let b : Buffer = record (frag.buf) {
        bytes = some d';
        len = if ltb frag.buf.len (n * s + body.len) then n * s + body.len else frag.buf.len;
      } in
      let plain : copy_range frag.buf (n * s) body 0 body.len
          ≡ some (record (frag.buf) {
            bytes = some (splice d (frag.buf.offset + n * s) (slice sd (body.offset + 0) body.len));
            len = if ltb frag.buf.len (n * s + body.len) then n * s + body.len else frag.buf.len;
          }) =
        ground (arith, v.memory, h.memory.memory, h.place, h.room) in
      let done : copy_range frag.buf (n * s) body 0 body.len ≡ some b =
        plain
        ∙ ap
            (λ t. some (record (frag.buf) {
              bytes = some (splice d (frag.buf.offset + n * s) t);
              len = if ltb frag.buf.len (n * s + body.len) then n * s + body.len else frag.buf.len;
            }))
            taken
        ∙ ap
            (λ k. some (record (frag.buf) {
              bytes = some (splice d (k + n * s) src);
              len = if ltb frag.buf.len (n * s + body.len) then n * s + body.len else frag.buf.len;
            }))
            h.place in
      (
        b,
        d',
        done,
        record {
          in_use = h.in_use;
          same_size = h.same_size;
          width = length-next_bits n frag ∙ h.width;
          bits = λ i lt. next_bits-bits n R frag i h.width (h.bits i lt) lt;
          memory = record {
            memory = refl;
            size = length-splice d (o + n * s) src ∙ h.memory.size;
            within =
                ground (
                  arith, h.place, h.room, h.not_longer, inside, len, h.memory.size, h.memory.within,
                );
          };
          place = h.place;
          room = h.room;
          bytes = λ k x r low high short.
              copied-bytes o n R d frag.buf.capacity h.memory.size h.room le h.bytes k x r low high
                short;
          not_longer = ground (arith, h.not_longer, inside, len);
          to_the_end = λ r. ground (
            arith,
            h.to_the_end,
            h.not_longer,
            inside,
            end,
            len,
            Bool-cases (n == m),
            Bool-cases (has m R),
          );
        },
      )
