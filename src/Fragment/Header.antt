-- ===== src/Fragment/Header.antt =====
-- The header of a piece, from fragment_prepend_flags to fragment_incoming.
use par_diff_vpn.Prelude.{
  ℕ, ◌+◌, ◌*◌, ◌/◌, ◌%◌, ◌^◌, ◌<◌, ◌≡◌, refl, sym, ap, ◌∙◌, Bool, true, false, some, List, ◌++◌,
  length, length-append, arith, ◌==◌,
}
use par_diff_vpn.Buffer
use par_diff_vpn.Buffer.{Buffer, be32, contents}
use par_diff_vpn.Buffer.Contents.{IsValid, length-contents}
use par_diff_vpn.Buffer.Numbers.{read_u32-append}
use par_diff_vpn.Frame.{Frame}
use par_diff_vpn.Fragment.{Master, flags_of, incoming, incoming_piece, not_last, last}

abbrev pub piece_type : Bool → ℕ
piece_type true = last
piece_type false = not_last

pub flags_of-fields :
    (is_last : Bool) (seq n size : ℕ)
    → seq < 256
    → n < 32
    → size % 4 ≡ 0
    → size < 2 ^ 16
    → (flags_of (piece_type is_last) seq n size < 2 ^ 32)
      × (flags_of (piece_type is_last) seq n size % 4 ≡ piece_type is_last)
      × (flags_of (piece_type is_last) seq n size / 2 ^ 2 % 256 ≡ seq)
      × (flags_of (piece_type is_last) seq n size / 2 ^ 10 % 32 ≡ n)
      × (is_last ≡ true → flags_of (piece_type is_last) seq n size / 2 ^ 15 % 2 ^ 14 * 4 ≡ size)
unfolding flags_of
flags_of-fields true seq n size a b c d =
    (omega arith, omega arith, omega arith, omega arith, λ _. omega arith)
flags_of-fields false seq n size a b c d =
    (omega arith, omega arith, omega arith, omega arith, λ e. absurd (cc))

dispatch :
    (now : ℕ) (frame : Frame) (buf b : Buffer) (f : Master) (flags : ℕ)
    → Buffer.read_u32 buf ≡ some (flags, b)
    → (buf.len == 0) ≡ false
    → (flags % 4 ≡ 1
        → incoming now frame buf f
          ≡ incoming_piece now frame false (flags / 2 ^ 2 % 256) (flags / 2 ^ 10 % 32) b.len b f)
      × (flags % 4 ≡ 2
          → incoming now frame buf f
            ≡ incoming_piece now frame true
                (flags / 2 ^ 2 % 256)
                (flags / 2 ^ 10 % 32)
                (flags / 2 ^ 15 % 2 ^ 14 * 4)
                b
                f)
unfolding incoming
dispatch now frame buf b f flags got full =
    (λ t. rw (incoming, full, got, t), λ t. rw (incoming, full, got, t))

piece_of :
    (now : ℕ) (frame : Frame) (buf b : Buffer) (f : Master) (is_last : Bool) (flags seq n size : ℕ)
    → Buffer.read_u32 buf ≡ some (flags, b)
    → (buf.len == 0) ≡ false
    → flags % 4 ≡ piece_type is_last
    → flags / 2 ^ 2 % 256 ≡ seq
    → flags / 2 ^ 10 % 32 ≡ n
    → (is_last ≡ true → flags / 2 ^ 15 % 2 ^ 14 * 4 ≡ size)
    → (is_last ≡ false → b.len ≡ size)
    → incoming now frame buf f ≡ incoming_piece now frame is_last seq n size b f
piece_of now frame buf b f true flags seq n size got full t q k z l =
    (dispatch now frame buf b f flags got full).1 t ∙ rw (q, k, z refl)
piece_of now frame buf b f false flags seq n size got full t q k z l =
    (dispatch now frame buf b f flags got full).0 t
    ∙ rw (q, k) (ap (λ w. incoming_piece now frame false seq n w b f) (l refl))

-- What follows the header of a packet.
pub opens :
    (now : ℕ) (frame : Frame) (buf : Buffer) (is_last : Bool) (seq n size : ℕ) (body : List ℕ)
    → seq < 256
    → n < 32
    → size % 4 ≡ 0
    → size < 2 ^ 16
    → IsValid buf
    → contents buf ≡ be32 (flags_of (piece_type is_last) seq n size) ++ body
    → (is_last ≡ false → length body ≡ size)
    → (b : Buffer) × IsValid b
      × (contents b ≡ body)
      × ((f : Master) → incoming now frame buf f ≡ incoming_piece now frame is_last seq n size b f)
opens now frame buf is_last seq n size body hs hn hq hz v e full =
    let flags : ℕ = flags_of (piece_type is_last) seq n size in
    let (small, typ, sq, num, sz) = flags_of-fields is_last seq n size hs hn hq hz in
    let (b, got, valid, c) = read_u32-append flags body buf small v e in
    let len : b.len ≡ length body = sym (length-contents valid.1) ∙ ap length c in
    let total : buf.len ≡ 4 + length body =
      sym (length-contents v.1) ∙ ap length e ∙ length-append (be32 flags) body in
    let some_bytes : (buf.len == 0) ≡ false = ground (arith, total) in
    (
      b,
      valid,
      c,
      λ f.
          piece_of now frame buf b f is_last flags seq n size got some_bytes typ sq num sz
            (λ o. len ∙ full o),
    )
