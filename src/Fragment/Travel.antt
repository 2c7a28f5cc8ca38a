-- ===== src/Fragment/Travel.antt =====
-- fragment_incoming on the packets of one datagram, as the link brings them.
use par_diff_vpn.Prelude.{
  ℕ, suc, ◌%◌, ◌^◌, ◌≤◌, ◌<◌, ◌≡◌, refl, sym, ap, ◌∙◌, Bool, true, false, Option, some, List, [],
  ◌∷◌, ◌++◌, length, length-set, get_elem?, get_elem?-set_self, set, arith, subst, >>=-eq-some,
  ◌==◌, ◌>>=◌,
}
use par_diff_vpn.Buffer.{Buffer, contents, be32}
use par_diff_vpn.Buffer.Contents.{IsValid}
use par_diff_vpn.Frame.{Frame}
use par_diff_vpn.Fragment.{Slot, Master, fill_slot, incoming_piece, incoming, flags_of, get_buf}
use par_diff_vpn.Fragment.Slots.{get_buf_same}
use par_diff_vpn.Fragment.Header.{piece_type, opens}
use par_diff_vpn.Fragment.Pieces.{piece}
use par_diff_vpn.Fragment.Assemble.{IsCut, piece-bounds}
use par_diff_vpn.Fragment.Stored.{covers}
use par_diff_vpn.Fragment.Join.{
  Arrival, fill_all, numbers, ArePieces, IsPiece, AreEmpty, IsFreeFor, joins,
}

-- A packet that the link brings: when, and which piece it carries.
pub record Delivery : Type 0 where
  pub at_time : ℕ
  pub number : ℕ
  pub packet : Buffer

-- The packets one after the other: what is handed on for each.
unfoldable pub receive : Frame → List Delivery → Master → Option (List Buffer × Master)
receive frame [] f = some ([], f)
receive frame (w ∷ ws) f = do
  r ← incoming w.at_time frame w.packet f
  rest_r ← receive frame ws (r.1)
  some (r.0 ∷ rest_r.0, rest_r.1)

abbrev pub delivered : List ℕ → List Delivery → List ℕ
delivered R [] = R
delivered R (w ∷ ws) = delivered (w.number ∷ R) ws

-- A packet with the piece `n` of the datagram `p`.
abbrev pub IsWire : List ℕ → ℕ → ℕ → ℕ → ℕ → Buffer → Type 0
IsWire p s m seq n b =
    (n ≤ m)
    × IsValid b
    × (contents b ≡ be32 (flags_of (piece_type (n == m)) seq n s) ++ piece p s n)

abbrev pub AreWire : List ℕ → ℕ → ℕ → ℕ → List Delivery → Type 0
AreWire p s m seq [] = Unit
AreWire p s m seq (w ∷ ws) = IsWire p s m seq w.number w.packet × AreWire p s m seq ws

-- The receiver at work on the datagram `seq`, in the slot `frag`.
pub record IsAt (seq : ℕ) (f : Master) (frag : Slot) : Type 0 where
  pub same : f.incoming.seq_id ≡ seq
  pub small : f.incoming.seq_id < 256
  pub index_small : f.incoming.index < 25
  pub slots : length f.incoming.fragments ≡ 25
  pub slot : get_elem? f.incoming.fragments f.incoming.index ≡ some frag

-- One piece, in terms of its slot.
take_piece :
    {seq : ℕ} (now : ℕ) (frame : Frame) (is_last : Bool) (n size : ℕ) (b out : Buffer) (f : Master)
    (frag frag' : Slot)
    → IsAt seq f frag
    → fill_slot now frame is_last n size b frag ≡ some (frag', out)
    → (f' : Master) × (incoming_piece now frame is_last seq n size b f ≡ some (out, f'))
      × IsAt seq f' frag'
unfolding incoming_piece
take_piece {seq} now frame is_last n size b out f frag frag' h e =
    let found : get_buf f.incoming seq ≡ some (f.incoming.index, f.incoming) =
      ap (λ t. get_buf f.incoming t) (sym h.same) ∙ get_buf_same f.incoming h.small h.index_small in
    (
      record f {
        incoming = record (f.incoming) {
          fragments = set f.incoming.fragments f.incoming.index frag';
        };
      },
      rw (incoming_piece, found, h.slot, e),
      record {
        same = h.same;
        small = h.small;
        index_small = h.index_small;
        slots = length-set f.incoming.fragments f.incoming.index frag' ∙ h.slots;
        slot =
            get_elem?-set_self f.incoming.fragments f.incoming.index frag'
              (omega (arith, h.index_small, h.slots));
      },
    )

module _ {p : List ℕ} {s m : ℕ} (cut : IsCut p s m) (frame : Frame) (even : s % 4 ≡ 0)
    (short : s < 2 ^ 16) (seq : ℕ) (seq_small : seq < 256) where
  -- A packet that carries a piece, with its header read.
  pub opened :
      (w : Delivery)
      → IsWire p s m seq w.number w.packet
      → (a : Arrival) × (a.number ≡ w.number)
        × IsPiece p s m a
        × ((f : Master)
            → incoming w.at_time frame w.packet f
              ≡ incoming_piece a.at_time frame (a.number == m) seq a.number s a.body f)
  opened w (le, v, e) =
      let (inside, exact, end, below) = piece-bounds cut w.number le in
      let few : m < 32 = cut.few in
      let (b, valid, c, step) =
        opens w.at_time frame w.packet (w.number == m) seq w.number s (piece p s w.number) seq_small
          (omega arith) even short v e (λ other. exact (ground (arith, other, le))) in
      (
        record { at_time = w.at_time; number = w.number; body = b },
        refl,
        (le, valid.0, valid.1, c),
        step,
      )

  all_opened :
      (ws : List Delivery)
      → AreWire p s m seq ws
      → (arrivals : List Arrival) × ArePieces p s m arrivals
        × ((R : List ℕ) → numbers R arrivals ≡ delivered R ws)
        × ((f : Master) (frag frag' : Slot) (outs : List Buffer)
            → IsAt seq f frag
            → fill_all frame s m arrivals frag ≡ some (frag', outs)
            → (f' : Master) × (receive frame ws f ≡ some (outs, f')) × IsAt seq f' frag')
  unfolding receive fill_all
  all_opened [] h = (
    [],
    tt,
    λ R. refl,
    λ f frag frag' outs here e.
        (f, cc, (let q : frag ≡ frag' = cc in subst (λ t. IsAt seq f t) q here)),
  )
  all_opened (w ∷ ws) h =
      let (a, same, is_piece, step) = opened w h.0 in
      let (arrivals, are_pieces, all_same, steps) = all_opened ws h.1 in
      (
        a ∷ arrivals,
        (is_piece, are_pieces),
        λ R. all_same (a.number ∷ R) ∙ ap (λ t. delivered (t ∷ R) ws) same,
        λ f frag frag' outs here e.
            (let ((frag1, out), first, others) =
                >>=-eq-some (fill_slot a.at_time frame (a.number == m) a.number s a.body frag) _
                  e in
              let ((frag2, outs2), second, last) =
                >>=-eq-some (fill_all frame s m arrivals frag1) _ others in
              let (f1, got, here1) =
                take_piece a.at_time frame (a.number == m) a.number s a.body out f frag frag1 here
                  first in
              let (f2, rest_got, here2) = steps f1 frag1 frag2 outs2 here1 second in
              let q : frag2 ≡ frag' = cc in
              let r : out ∷ outs2 ≡ outs = cc in
              (
                f2,
                rw (step f, got, rest_got) (ap (λ t. some (t, f2)) r),
                subst (λ t. IsAt seq f2 t) q here2,
              )),
      )

  -- Once the slot is there.
  pub arrives_at :
      (before : List Delivery) (w : Delivery) (f : Master) (frag : Slot) (d : List ℕ)
      → IsAt seq f frag
      → IsFreeFor frame p frag d
      → AreWire p s m seq before
      → IsWire p s m seq w.number w.packet
      → covers (suc m) (delivered [] before) ≡ false
      → covers (suc m) (w.number ∷ delivered [] before) ≡ true
      → (outs : List Buffer) × (f1 : Master) × (out : Buffer) × (f2 : Master) × (receive frame
            before f
          ≡ some (outs, f1))
        × AreEmpty outs
        × (incoming w.at_time frame w.packet f1 ≡ some (out, f2))
        × (contents out ≡ p)
  arrives_at before w f frag d here free hs h missing full =
      let (arrivals, are_pieces, same, steps) = all_opened before hs in
      let (a, same_number, is_piece, step) = opened w h in
      let gap : covers (suc m) (numbers [] arrivals) ≡ false =
        ap (λ t. covers (suc m) t) (same []) ∙ missing in
      let all : covers (suc m) (a.number ∷ numbers [] arrivals) ≡ true =
        ap (λ t. covers (suc m) (t ∷ numbers [] arrivals)) same_number
        ∙ ap (λ t. covers (suc m) (w.number ∷ t)) (same [])
        ∙ full in
      let (frag1, outs, frag2, out, filled, empty, done, joined) =
        joins cut frame even arrivals a frag d free are_pieces is_piece gap all in
      let (f1, got, here1) = steps f frag frag1 outs here filled in
      let (f2, last, _) =
        take_piece a.at_time frame (a.number == m) a.number s a.body out f1 frag1 frag2 here1
          done in
      (outs, f1, out, f2, got, empty, step f1 ∙ last, joined)
