-- ===== src/Fragment/Outgoing.antt =====
-- fragment_outgoing and fragment_ready_to_send: the pieces of a datagram, one after the other.
use par_diff_vpn.Prelude.{
  ℕ, zero, suc, ◌+◌, ◌-◌, ◌*◌, ◌≤◌, ◌<◌, ◌≡◌, refl, sym, ap, ◌∙◌, Bool, true, false, none, some,
  List, [], ◌∷◌, ◌++◌, length, take, drop, length-drop, arith, leb, ◌==◌, Bool-cases, inl, inr,
}
use par_diff_vpn.Buffer
use par_diff_vpn.Buffer.{Buffer, contents, be32, slice}
use par_diff_vpn.Buffer.Splice.{drop-drop}
use par_diff_vpn.Buffer.Contents.{
  IsOver, IsValid, length-contents, contents_over, read_fits, write_fits, prepend_fits,
}
use par_diff_vpn.Frame.{Frame, headroom}
use par_diff_vpn.Fragment.{Master, ready_to_send, prepend_flags, flags_of}
use par_diff_vpn.Fragment.Pieces.{piece, length-piece, mul_mono, suc_mul}
use par_diff_vpn.Fragment.Assemble.{IsCut, piece-bounds}
use par_diff_vpn.Fragment.Header.{piece_type}

-- The sender before the piece `n` of the datagram `p`: what is left of the datagram, and a buffer
-- with room for a piece and its header.
pub record IsSending (frame : Frame) (p : List ℕ) (s n : ℕ) (f : Master) (d rd : List ℕ)
    : Type 0 where
  pub size : f.outgoing_frag_size ≡ s
  pub next : f.outgoing_frag_id ≡ n
  pub memory : IsOver f.outgoing d
  pub left : contents f.outgoing ≡ drop (n * s) p
  pub return_memory : IsOver f.outgoing_return rd
  pub room : headroom frame none + s ≤ f.outgoing_return.capacity
  pub header_room : 4 ≤ headroom frame none
  pub small : s < 1000000

take_enough : (d : List ℕ) (n : ℕ) → length d ≤ n → take n d ≡ d
take_enough [] zero h = refl
take_enough [] (suc n) h = refl
take_enough (x ∷ d) zero h = absurd (omega arith)
take_enough (x ∷ d) (suc n) h = ap (λ t. x ∷ t) (take_enough d n (omega arith))

take-take-length : (n : ℕ) (d : List ℕ) → take (length (take n d)) d ≡ take n d
take-take-length zero d = refl
take-take-length (suc n) [] = refl
take-take-length (suc n) (x ∷ d) = ap (λ t. x ∷ t) (take-take-length n d)

pub init_lem :
    (o : ℕ) (b : Buffer) (d : List ℕ)
    → o ≤ b.capacity
    → b.bytes ≡ some d
    → Buffer.init o b ≡ some (record b { len = 0; offset = o })
unfolding Buffer.init
init_lem o b d h e = ground arith

copy_n_lem :
    (dest src dest' left : Buffer) (n : ℕ) (bytes : List ℕ)
    → Buffer.read n src ≡ some (bytes, left)
    → Buffer.write bytes dest ≡ some dest'
    → Buffer.copy_n dest src n ≡ (true, dest', left)
unfolding Buffer.copy_n
copy_n_lem dest src dest' left n bytes r w = rw (Buffer.copy_n, r, w)

prepend_flags_lem :
    (b b' : Buffer) (t seq n s : ℕ) (f : Master)
    → f.outgoing_frag_id ≡ n
    → f.outgoing_frag_size ≡ s
    → Buffer.write_prepend (be32 (flags_of t seq n s)) b ≡ some b'
    → prepend_flags b t seq f.outgoing_frag_id f.outgoing_frag_size ≡ some b'
unfolding prepend_flags
prepend_flags_lem b b' t seq n s f e g w =
    ap (λ k. Buffer.write_prepend (be32 (flags_of t seq k f.outgoing_frag_size)) b) e
    ∙ ap (λ k. Buffer.write_prepend (be32 (flags_of t seq n k)) b) g
    ∙ w

-- fragment_ready_to_send in terms of its parts.
assembled :
    (frame : Frame) (f : Master) (is_last : Bool) (sz : ℕ) (b0 b1 b2 left : Buffer)
    → (f.outgoing.len == 0) ≡ false
    → leb f.outgoing.len f.outgoing_frag_size ≡ is_last
    → (is_last ≡ true → f.outgoing.len ≡ sz)
    → (is_last ≡ false → f.outgoing_frag_size ≡ sz)
    → Buffer.init (headroom frame none) f.outgoing_return ≡ some b0
    → Buffer.copy_n b0 f.outgoing sz ≡ (true, b1, left)
    → prepend_flags b1
        (piece_type is_last)
        f.outgoing_seq_id
        f.outgoing_frag_id
        f.outgoing_frag_size
      ≡ some b2
    → (is_last ≡ true → left.len ≡ 0)
    → ready_to_send frame f
      ≡ some (some b2, record f { outgoing = left; outgoing_frag_id = f.outgoing_frag_id + 1 })
unfolding ready_to_send
assembled frame f true sz b0 b1 b2 left full l a b i c p z =
    let copied : Buffer.copy_n b0 f.outgoing f.outgoing.len ≡ (true, b1, left) =
      ap (λ k. Buffer.copy_n b0 f.outgoing k) (a refl) ∙ c in
    rw (ready_to_send, full, l, i, copied, p, z refl)
assembled frame f false sz b0 b1 b2 left full l a b i c p z =
    let copied : Buffer.copy_n b0 f.outgoing f.outgoing_frag_size ≡ (true, b1, left) =
      ap (λ k. Buffer.copy_n b0 f.outgoing k) (b refl) ∙ c in
    rw (ready_to_send, full, l, i, copied, p)

module _ {p : List ℕ} {s m : ℕ} (cut : IsCut p s m) (frame : Frame) where
  left-length :
      (n : ℕ) (f : Master) (d rd : List ℕ)
      → IsSending frame p s n f d rd
      → f.outgoing.len ≡ length p - n * s
  left-length n f d rd h = sym (length-contents h.memory) ∙ ap length h.left ∙ length-drop (n * s) p

  is_last-size :
      (n : ℕ) (f : Master) (d rd : List ℕ)
      → IsSending frame p s n f d rd
      → n ≤ m
      → (leb f.outgoing.len f.outgoing_frag_size ≡ (n == m))
        × ((n == m) ≡ true → f.outgoing.len ≡ length (piece p s n))
        × ((n == m) ≡ false → f.outgoing_frag_size ≡ length (piece p s n))
  is_last-size n f d rd h le =
      let (inside, exact, end, below) = piece-bounds cut n le in
      let len : f.outgoing.len ≡ length p - n * s = left-length n f d rd h in
      let plen = length-piece p s n in
      let starts = cut.starts in
      elim (Bool-cases (n == m)) [
        | inl same ↦
            (let e = end (ground (arith, same)) in
              (ground (arith, same, e, len, plen, h.size), λ _. omega arith, λ o. absurd (cc)))
        | inr other ↦
            (let lt : n < m = ground (arith, other, le) in
              let e = exact lt in
              let next : n * s + s ≤ m * s = omega (arith, mul_mono (suc n) m s lt, suc_mul n s) in
              (
                ground (arith, other, len, h.size, next, starts),
                λ o. absurd (cc),
                λ _. h.size ∙ sym e,
              ))
      ]

  -- The piece `n` and the sender after it.
  pub sends :
      (n : ℕ) (f : Master) (d rd : List ℕ)
      → IsSending frame p s n f d rd
      → n ≤ m
      → (b : Buffer) × (f' : Master) × (ready_to_send frame f ≡ some (some b, f'))
        × IsValid b
        × (contents b ≡ be32 (flags_of (piece_type (n == m)) f.outgoing_seq_id n s) ++ piece p s n)
        × (f'.outgoing_seq_id ≡ f.outgoing_seq_id)
        × (n < m → IsSending frame p s (suc n) f' d rd)
        × (n ≡ m → f'.outgoing.len ≡ 0)
  sends n f d rd h le =
      let (inside, exact, end, below) = piece-bounds cut n le in
      let len : f.outgoing.len ≡ length p - n * s = left-length n f d rd h in
      let plen = length-piece p s n in
      let (lastness, at_last, before) = is_last-size n f d rd h le in
      let sz : ℕ = length (piece p s n) in
      let b0 : Buffer = record (f.outgoing_return) { len = 0; offset = headroom frame none } in
      let v0 : IsOver b0 rd = record {
        memory = h.return_memory.memory;
        size = h.return_memory.size;
        within = omega (arith, h.room);
      } in
      let started : Buffer.init (headroom frame none) f.outgoing_return ≡ some b0 =
        init_lem (headroom frame none) f.outgoing_return rd (omega (arith, h.room))
          h.return_memory.memory in
      let (left, r, over, c, o, l, k) = read_fits sz f.outgoing h.memory (omega arith) in
      let taken : take sz (contents f.outgoing) ≡ piece p s n =
        ap (λ t. take sz t) h.left ∙ take-take-length s (drop (n * s) p) in
      let (b1, w, over1, c1, o1, l1, k1) =
        write_fits (piece p s n) b0 v0 (omega (arith, h.room)) (omega (arith, h.small)) in
      let copied : Buffer.copy_n b0 f.outgoing sz ≡ (true, b1, left) =
        copy_n_lem b0 f.outgoing b1 left sz (piece p s n) (r ∙ ap (λ t. some (t, left)) taken) w in
      let flags : List ℕ = be32 (flags_of (piece_type (n == m)) f.outgoing_seq_id n s) in
      let (b2, w2, over2, c2, o2, l2, k2) =
        prepend_fits flags b1 over1 (omega (arith, h.header_room)) in
      let headed : prepend_flags b1 (piece_type (n == m)) f.outgoing_seq_id f.outgoing_frag_id
            f.outgoing_frag_size
          ≡ some b2 =
        prepend_flags_lem b1 b2 (piece_type (n == m)) f.outgoing_seq_id n s f h.next h.size w2 in
      let full : (f.outgoing.len == 0) ≡ false = ground (arith, len, below) in
      (
        b2,
        record f { outgoing = left; outgoing_frag_id = f.outgoing_frag_id + 1 },
        assembled frame f (n == m) sz b0 b1 b2 left full lastness at_last before started copied
            headed (λ same. let e = at_last same in omega arith),
        (_, over2),
        c2 ∙ ap (λ t. flags ++ t) (c1 ∙ ap (λ t. t ++ piece p s n) (contents_over v0)),
        refl,
        λ lt. record {
          size = h.size;
          next = omega (arith, h.next);
          memory = over;
          left =
              c
              ∙ ap (λ t. drop sz t) h.left
              ∙ drop-drop p (n * s) sz
              ∙ ap (λ t. drop t p) (let q = exact lt in omega (arith, suc_mul n s));
          return_memory = h.return_memory;
          room = h.room;
          header_room = h.header_room;
          small = h.small;
        },
        λ same. (let q = end same in omega arith),
      )
