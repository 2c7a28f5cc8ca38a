-- ===== src/Fragment/Arrive.antt =====
-- fragment_incoming from the first packet of a datagram on.
use par_diff_vpn.Prelude.{
  ℕ, suc, ◌+◌, ◌%◌, ◌^◌, ◌≤◌, ◌<◌, ◌≡◌, refl, sym, ap, ◌∙◌, Bool, true, false, some, List, [], ◌∷◌,
  length, length-set, get_elem?, get_elem?-set_self, arith, ◌==◌,
}
use par_diff_vpn.Buffer.{Buffer, contents}
use par_diff_vpn.Buffer.Contents.{IsOver}
use par_diff_vpn.Frame
use par_diff_vpn.Frame.{Frame, headroom}
use par_diff_vpn.Integer.Laws.{forward}
use par_diff_vpn.Fragment.{Slot, Master, incoming_piece, incoming, forget}
use par_diff_vpn.Fragment.Slots.{get_buf_same, get_buf_next, next_list}
use par_diff_vpn.Fragment.Assemble.{IsCut}
use par_diff_vpn.Fragment.Stored.{covers}
use par_diff_vpn.Fragment.Join.{AreEmpty}
use par_diff_vpn.Fragment.Travel.{
  Delivery, receive, delivered, IsWire, AreWire, IsAt, opened, arrives_at,
}

-- The receiver before a datagram whose number follows the latest: the slot `frag` is the next one.
pub record IsAwaiting (frame : Frame) (p : List ℕ) (f : Master) (frag : Slot) (d : List ℕ)
    : Type 0 where
  pub small : f.incoming.seq_id < 256
  pub index_small : f.incoming.index < 25
  pub slots : length f.incoming.fragments ≡ 25
  pub slot : get_elem? f.incoming.fragments (forward f.incoming.index 1 25) ≡ some frag
  pub memory : IsOver frag.buf d
  pub room : headroom frame (some Frame.fragment) + length p ≤ frag.buf.capacity

-- The receiver with that slot taken.
abbrev turned : Master → Slot → Master
turned f frag = record f { incoming = next_list f.incoming frag }

forward_lt : (x n : ℕ) → x < n → forward x 1 n < n
forward_lt x n h = ground arith

turned-IsAt :
    {frame : Frame} {p : List ℕ} {f : Master} {frag : Slot} {d : List ℕ}
    → IsAwaiting frame p f frag d
    → IsAt (forward f.incoming.seq_id 1 256) (turned f frag) (forget frag)
turned-IsAt {frame} {p} {f} {frag} h = record {
  same = refl;
  small = forward_lt f.incoming.seq_id 256 h.small;
  index_small = forward_lt f.incoming.index 25 h.index_small;
  slots = length-set f.incoming.fragments (forward f.incoming.index 1 25) (forget frag) ∙ h.slots;
  slot =
      get_elem?-set_self f.incoming.fragments (forward f.incoming.index 1 25) (forget frag)
        (let lt = forward_lt f.incoming.index 25 h.index_small in omega (arith, h.slots));
}

turned-piece :
    {frame : Frame} {p : List ℕ} {f : Master} {frag : Slot} {d : List ℕ} (now : ℕ) (is_last : Bool)
    (n size : ℕ) (b : Buffer)
    → IsAwaiting frame p f frag d
    → incoming_piece now frame is_last (forward f.incoming.seq_id 1 256) n size b f
      ≡ incoming_piece now frame is_last (forward f.incoming.seq_id 1 256) n size b (turned f frag)
unfolding incoming_piece
turned-piece {frame} {p} {f} {frag} now is_last n size b h =
    let here = turned-IsAt h in
    let first = get_buf_next f.incoming frag h.small h.index_small h.slot in
    let again = get_buf_same (next_list f.incoming frag) here.small here.index_small in
    rw (first, again)

module _ {p : List ℕ} {s m : ℕ} (cut : IsCut p s m) (frame : Frame) (even : s % 4 ≡ 0)
    (short : s < 2 ^ 16) where
  turned-incoming :
      (w : Delivery) (f : Master) (frag : Slot) (d : List ℕ)
      → IsAwaiting frame p f frag d
      → IsWire p s m (forward f.incoming.seq_id 1 256) w.number w.packet
      → incoming w.at_time frame w.packet f ≡ incoming w.at_time frame w.packet (turned f frag)
  turned-incoming w f frag d h wire =
      let (a, _, _, step) =
        opened cut frame even short (forward f.incoming.seq_id 1 256)
          (forward_lt f.incoming.seq_id 256 h.small) w wire in
      step f
      ∙ turned-piece a.at_time (a.number == m) a.number s a.body h
      ∙ sym (step (turned f frag))

  turned-receive :
      (w : Delivery) (ws : List Delivery) (f : Master) (frag : Slot) (d : List ℕ)
      → IsAwaiting frame p f frag d
      → IsWire p s m (forward f.incoming.seq_id 1 256) w.number w.packet
      → receive frame (w ∷ ws) f ≡ receive frame (w ∷ ws) (turned f frag)
  unfolding receive
  turned-receive w ws f frag d h wire = rw (turned-incoming w f frag d h wire) refl

  arrives_turned :
      (before : List Delivery) (w : Delivery) (f : Master) (frag : Slot) (d : List ℕ)
      → IsAwaiting frame p f frag d
      → AreWire p s m (forward f.incoming.seq_id 1 256) before
      → IsWire p s m (forward f.incoming.seq_id 1 256) w.number w.packet
      → covers (suc m) (delivered [] before) ≡ false
      → covers (suc m) (w.number ∷ delivered [] before) ≡ true
      → (outs : List Buffer) × (f1 : Master) × (out : Buffer) × (f2 : Master) × (receive frame
            before
            (turned f frag)
          ≡ some (outs, f1))
        × AreEmpty outs
        × (incoming w.at_time frame w.packet f1 ≡ some (out, f2))
        × (contents out ≡ p)
  unfolding forget
  arrives_turned before w f frag d h hs wire missing full =
      arrives_at cut frame even short (forward f.incoming.seq_id 1 256)
        (forward_lt f.incoming.seq_id 256 h.small) before w (turned f frag) (forget frag) d
        (turned-IsAt h) (record { free = refl; memory = h.memory; room = h.room }) hs wire missing
        full

  pub arrives :
      (before : List Delivery) (w : Delivery) (f : Master) (frag : Slot) (d : List ℕ)
      → IsAwaiting frame p f frag d
      → AreWire p s m (forward f.incoming.seq_id 1 256) before
      → IsWire p s m (forward f.incoming.seq_id 1 256) w.number w.packet
      → covers (suc m) (delivered [] before) ≡ false
      → covers (suc m) (w.number ∷ delivered [] before) ≡ true
      → (outs : List Buffer) × (f1 : Master) × (out : Buffer) × (f2 : Master) × (receive frame
            before f
          ≡ some (outs, f1))
        × AreEmpty outs
        × (incoming w.at_time frame w.packet f1 ≡ some (out, f2))
        × (contents out ≡ p)
  unfolding receive
  arrives [] w f frag d h hs wire missing full =
      let (outs, f1, out, f2, got, empty, last, joined) =
        arrives_turned [] w f frag d h hs wire missing full in
      let q : turned f frag ≡ f1 = cc in
      (
        [],
        f,
        out,
        f2,
        refl,
        tt,
        turned-incoming w f frag d h wire ∙ ap (λ t. incoming w.at_time frame w.packet t) q ∙ last,
        joined,
      )
  arrives (first ∷ before) w f frag d h hs wire missing full =
      let (outs, f1, out, f2, got, empty, last, joined) =
        arrives_turned (first ∷ before) w f frag d h hs wire missing full in
      (outs, f1, out, f2, turned-receive first before f frag d h hs.0 ∙ got, empty, last, joined)
