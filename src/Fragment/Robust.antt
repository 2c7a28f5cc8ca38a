-- ===== src/Fragment/Robust.antt =====
-- fragment_incoming on any packet, also from a peer that does not follow the protocol.
use par_diff_vpn.Prelude.{
  ℕ, ◌+◌, ◌*◌, ◌/◌, ◌%◌, ◌^◌, ◌<◌, ◌≡◌, refl, ap, ◌∙◌, subst, Bool, true, false, not, ◌||◌, none,
  some, List, length-set, get_elem?_total, replicate, set, arith, ltb, ◌==◌, if◌then◌else◌, ◌>>=◌,
  Bool-cases, Option-cases, inl, inr, ◌⊎◌,
}
use par_diff_vpn.Buffer
use par_diff_vpn.Buffer.{Buffer, splice, slice, copy_range}
use par_diff_vpn.Buffer.Splice.{length-splice}
use par_diff_vpn.Buffer.Contents.{IsOver, IsValid, read_lem}
use par_diff_vpn.Frame
use par_diff_vpn.Frame.{Frame, headroom}
use par_diff_vpn.Fragment.Outgoing.{init_lem}
use par_diff_vpn.Fragment.{
  Slot, Master, ready, store, fill_slot, incoming_piece, incoming, emptied, all_set, set_bit,
  set_from,
}
use par_diff_vpn.Fragment.Receiver.{IsSlot, IsList, get-AreSlots, set-AreSlots, get_buf-IsList}

module _ (frame : Frame) where
  -- Copying into a slot leaves its memory as large as it was.
  copy_range-IsOver :
      (dest src b : Buffer) (d : List ℕ) (place n : ℕ)
      → IsOver dest d
      → copy_range dest place src 0 n ≡ some b
      → ((d' : List ℕ) × IsOver b d') × (b.capacity ≡ dest.capacity)
  unfolding copy_range
  copy_range-IsOver dest src b d place n v e =
      elim (Bool-cases (ltb src.len (0 + n) || ltb dest.capacity (dest.offset + place + n))) [
        | inl over ↦ (let q : copy_range dest place src 0 n ≡ none = rw over refl in absurd (cc))
        | inr fits ↦ elim (Option-cases src.bytes) [
          | inl missing ↦
              (let q : copy_range dest place src 0 n ≡ none = rw (fits, missing) refl in
                absurd (cc))
          | inr (s, found) ↦
              (let d' : List ℕ = splice d (dest.offset + place) (slice s (src.offset + 0) n) in
                let b' : Buffer = record dest {
                  bytes = some d';
                  len = if ltb dest.len (place + n) then place + n else dest.len;
                } in
                let done : copy_range dest place src 0 n ≡ some b' =
                  rw (fits, found, v.memory) refl in
                let q : b' ≡ b = cc in
                subst (λ t. ((d' : List ℕ) × IsOver t d') × (t.capacity ≡ dest.capacity)) q
                  (
                    (
                      d',
                      record {
                        memory = refl;
                        size =
                            length-splice d (dest.offset + place) (slice s (src.offset + 0) n)
                            ∙ v.size;
                        within = ground (arith, fits, v.within);
                      },
                    ),
                    refl,
                  ))
        ]
      ]

  emptied-IsValid : (buf : Buffer) → IsValid buf → IsValid (emptied buf)
  emptied-IsValid buf (d, v) =
      (d, record { memory = v.memory; size = v.size; within = omega (arith, v.within) })

  ready-IsSlot :
      (size : ℕ) (frag : Slot)
      → IsSlot frame frag
      → (frag1 : Slot) × (ready frame size frag ≡ some frag1) × IsSlot frame frag1
  unfolding ready
  ready-IsSlot size frag (d, v, room) =
      elim (Bool-cases (not frag.is_defined || not (frag.max_frag_size == size))) [
        | inr kept ↦ (frag, rw kept refl, (d, v, room))
        | inl first ↦
            (let b : Buffer = record (frag.buf) {
              len = 0;
              offset = headroom frame (some Frame.fragment);
            } in
              let started =
                init_lem (headroom frame (some Frame.fragment)) frag.buf d room v.memory in
              (
                record frag {
                  is_defined = true;
                  max_frag_size = size;
                  received = replicate 32 false;
                  buf = b;
                },
                rw (first, started) refl,
                (
                  d,
                  record { memory = v.memory; size = v.size; within = omega (arith, room) },
                  room,
                ),
              ))
      ]

  fill_slot-IsSlot :
      (now : ℕ) (is_last : Bool) (n size : ℕ) (buf : Buffer) (frag : Slot)
      → IsSlot frame frag
      → IsValid buf
      → (frag' : Slot) × (out : Buffer) × (fill_slot now frame is_last n size buf frag
          ≡ some (frag', out))
        × IsSlot frame frag'
        × IsValid out
  unfolding fill_slot store
  fill_slot-IsSlot now is_last n size buf frag h valid = elim (Bool-cases (size % 4 == 0)) [
    | inr uneven ↦ (frag, emptied buf, rw uneven refl, h, emptied-IsValid buf valid)
    | inl even ↦
        (let (frag1, readied, (d, v, room)) = ready-IsSlot size frag h in
          elim (Option-cases (copy_range frag1.buf (n * size) buf 0 buf.len)) [
            | inl over ↦ (
              frag1,
              emptied buf,
              rw (even, readied, over) refl,
              (d, v, room),
              emptied-IsValid buf valid,
            )
            | inr (b, copied) ↦
                (let ((d', v'), same) =
                    copy_range-IsOver frag1.buf buf b d (n * size) buf.len v copied in
                  let bits : List Bool =
                    if is_last then set_from n frag1.received else set_bit n frag1.received in
                  let filled : Slot = record frag1 { buf = b; received = bits; timestamp = now } in
                  elim (Bool-cases (all_set bits)) [
                    | inl complete ↦ (
                      record filled { is_defined = false },
                      b,
                      rw (even, readied, copied, complete) refl,
                      (d', v', omega (arith, room)),
                      (d', v'),
                    )
                    | inr incomplete ↦ (
                      filled,
                      emptied buf,
                      rw (even, readied, copied, incomplete) refl,
                      (d', v', omega (arith, room)),
                      emptied-IsValid buf valid,
                    )
                  ])
          ])
  ]

  incoming_piece-IsList :
      (now : ℕ) (is_last : Bool) (seq n size : ℕ) (buf : Buffer) (f : Master)
      → seq < 256
      → IsValid buf
      → IsList frame f.incoming
      → (out : Buffer) × (f' : Master) × (incoming_piece now frame is_last seq n size buf f
          ≡ some (out, f'))
        × IsValid out
        × IsList frame f'.incoming
  unfolding incoming_piece
  incoming_piece-IsList now is_last seq n size buf f small valid h =
      let (i, list, found, lt, h') = get_buf-IsList frame f.incoming seq h small in
      let (frag, slot) = get_elem?_total list.fragments i (omega (arith, h'.slots)) in
      let (frag', out, filled, s, v) =
        fill_slot-IsSlot now is_last n size buf frag
          (get-AreSlots frame list.fragments i frag h'.all slot) valid in
      (
        out,
        record f { incoming = record list { fragments = set list.fragments i frag' } },
        rw (found, slot, filled) refl,
        v,
        record {
          small = h'.small;
          index_small = h'.index_small;
          slots = length-set list.fragments i frag' ∙ h'.slots;
          all = set-AreSlots frame list.fragments i frag' h'.all s;
        },
      )

  read_u32_total :
      (buf : Buffer)
      → IsValid buf
      → (Buffer.read_u32 buf ≡ none)
        ⊎ ((x : ℕ) × (b : Buffer) × (Buffer.read_u32 buf ≡ some (x, b)) × IsValid b)
  unfolding Buffer.read_u32
  read_u32_total buf (d, v) = elim (read_lem 4 buf v) [
    | inl (b, e, valid, _, _) ↦
        (let q = ap (λ t. t >>= λ (r : List ℕ × Buffer). some (Buffer.from_be (r.0) 0, r.1)) e in
          inr (_, b, q, valid))
    | inr (_, e) ↦ inl (rw e refl)
  ]

  -- Let the receiver be in bounds: a sequence id below 256, a slot index below 25, and 25 slots whose
  -- memory has room for the headroom. Then fragment_incoming fails no ASSERT whatever bytes a valid
  -- buffer holds, what it hands on is a valid buffer, and the receiver stays in bounds.
  pub incoming-IsList :
      (now : ℕ) (buf : Buffer) (f : Master)
      → IsValid buf
      → IsList frame f.incoming
      → (out : Buffer) × (f' : Master) × (incoming now frame buf f ≡ some (out, f'))
        × IsValid out
        × IsList frame f'.incoming
  unfolding incoming
  incoming-IsList now buf f valid h = elim (Bool-cases (buf.len == 0)) [
    | inl empty ↦ (buf, f, rw empty refl, valid, h)
    | inr full ↦ elim (read_u32_total buf valid) [
      | inl short ↦ (emptied buf, f, rw (full, short) refl, emptied-IsValid buf valid, h)
      | inr (flags, b, got, v) ↦
          (let seq_small : flags / 2 ^ 2 % 256 < 256 = omega arith in
            let typ : ℕ = flags % 4 in
            elim (Bool-cases (flags % 4 == 0)) [
              | inl is_whole ↦ elim (Bool-cases (flags % 256 == 0)) [
                | inl fair ↦ (b, f, rw (full, got, is_whole, fair) refl, v, h)
                | inr spurious ↦
                    (emptied b, f, rw (full, got, is_whole, spurious) refl, emptied-IsValid b v, h)
              ]
              | inr split ↦ elim (Bool-cases (flags % 4 == 1)) [
                | inl not_last_one ↦
                    (let (out, f', e, w, h') =
                        incoming_piece-IsList now false (flags / 2 ^ 2 % 256) (flags / 2 ^ 10 % 32)
                          b.len b f seq_small v h in
                      (out, f', rw (full, got, split, not_last_one) e, w, h'))
                | inr later ↦ elim (Bool-cases (flags % 4 == 2)) [
                  | inl last_one ↦
                      (let (out, f', e, w, h') =
                          incoming_piece-IsList now true (flags / 2 ^ 2 % 256) (flags / 2 ^ 10 % 32)
                            (flags / 2 ^ 15 % 2 ^ 14 * 4) b f seq_small v h in
                        (out, f', rw (full, got, split, later, last_one) e, w, h'))
                  | inr unknown ↦ (
                    emptied b,
                    f,
                    rw (full, got, split, later, unknown) refl,
                    emptied-IsValid b v,
                    h,
                  )
                ]
              ]
            ])
    ]
  ]
