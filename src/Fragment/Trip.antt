-- ===== src/Fragment/Trip.antt =====
-- A datagram from fragment_outgoing to fragment_incoming.
use par_diff_vpn.Prelude.{
  ℕ, zero, suc, ◌+◌, ◌-◌, ◌/◌, ◌≤◌, ◌≡◌, sym, ap, ◌∙◌, subst, true, false, some, List, [], ◌∷◌,
  length, get_elem?, arith, subst,
}
use par_diff_vpn.Buffer.{Buffer, contents}
use par_diff_vpn.Frame.{Frame}
use par_diff_vpn.Integer.Laws.{forward}
use par_diff_vpn.Fragment.{Slot, Master, incoming, outgoing}
use par_diff_vpn.Fragment.Stored.{covers}
use par_diff_vpn.Fragment.Join.{AreEmpty}
use par_diff_vpn.Fragment.Travel.{Delivery, receive, delivered, IsWire, AreWire}
use par_diff_vpn.Fragment.Arrive.{IsAwaiting, arrives}
use par_diff_vpn.Fragment.Start.{IsLarge, IsIdle, large-size}
use par_diff_vpn.Fragment.Drain.{drain, AreSent, sends_all}

-- The link brings packets that were sent, each of them any number of times and in any order.
abbrev pub AreOf : List Buffer → List Delivery → Type 0
AreOf packets [] = Unit
AreOf packets (w ∷ ws) = (get_elem? packets w.number ≡ some w.packet) × AreOf packets ws

get-AreSent :
    (p : List ℕ) (s m seq n k : ℕ) (packets : List Buffer) (i : ℕ) (b : Buffer)
    → AreSent p s m seq n packets
    → get_elem? packets i ≡ some b
    → n + i ≡ k
    → IsWire p s m seq k b
get-AreSent p s m seq n k [] i b h e at_k = absurd (cc)
get-AreSent p s m seq n k (x ∷ packets) zero b h e at_k =
    let q : x ≡ b = cc in
    let z : n ≡ k = omega arith in
    subst (λ k. IsWire p s m seq k b) z (subst (λ t. IsWire p s m seq n t) q h.0)
get-AreSent p s m seq n k (x ∷ packets) (suc i) b h e at_k =
    get-AreSent p s m seq (suc n) k packets i b h.1 e (omega arith)

AreOf-AreWire :
    (p : List ℕ) (s m seq : ℕ) (packets : List Buffer) (ws : List Delivery)
    → AreSent p s m seq 0 packets
    → AreOf packets ws
    → AreWire p s m seq ws
AreOf-AreWire p s m seq packets [] sent h = tt
AreOf-AreWire p s m seq packets (w ∷ ws) sent h = (
  get-AreSent p s m seq 0 w.number packets w.number w.packet sent h.0 (omega arith),
  AreOf-AreWire p s m seq packets ws sent h.1,
)

-- The sender cuts a datagram, larger than one packet may be and needing at most 32 pieces, into
-- `first` and the packets `bs`, with buffers that have room for it. The receiver has the number of
-- the sender's last datagram, and a slot with room for this one. The link brings some of these packets, in any order and with repeats,
-- until every piece but that of `w` has come, and then `w`. Then nothing comes out before `w`, and `w`
-- brings out the bytes of the datagram.
pub round_trip :
    (frame far_frame : Frame) (s fuel : ℕ) (buf : Buffer) (f f1 f2 g : Master) (d rd gd : List ℕ)
    (frag : Slot) (first : Buffer) (bs : List Buffer) (before : List Delivery) (w : Delivery)
    → IsLarge frame buf s
    → IsIdle frame (contents buf) s f d rd
    → 32 ≤ fuel
    → outgoing frame buf f ≡ some (first, f1)
    → drain frame fuel f1 ≡ some (bs, f2)
    → IsAwaiting far_frame (contents buf) g frag gd
    → g.incoming.seq_id ≡ f.outgoing_seq_id
    → AreOf (first ∷ bs) before
    → get_elem? (first ∷ bs) w.number ≡ some w.packet
    → covers (length (first ∷ bs)) (delivered [] before) ≡ false
    → covers (length (first ∷ bs)) (w.number ∷ delivered [] before) ≡ true
    → (outs : List Buffer) × (g1 : Master) × (out : Buffer) × (g2 : Master) × (receive far_frame
          before g
        ≡ some (outs, g1))
      × AreEmpty outs
      × (incoming w.at_time far_frame w.packet g1 ≡ some (out, g2))
      × (contents out ≡ contents buf)
round_trip frame far_frame s fuel buf f f1 f2 g d rd gd frag first bs before w lg idle enough
      first_sent rest_sent awaiting follows hs h missing full =
    let (even, positive, short, below, cut) = large-size frame buf s lg in
    let m : ℕ = (buf.len - 1) / s in
    let (first', f1', bs', f2', first_sent', rest_sent', empty, seq, number, sent) =
      sends_all frame s fuel buf f d rd lg idle enough in
    let same_first : first' ≡ first = cc in
    let same_f1 : f1' ≡ f1 = cc in
    let same_bs : bs' ≡ bs =
      (let again : drain frame fuel f1 ≡ some (bs', f2') =
          ap (λ t. drain frame fuel t) (sym same_f1) ∙ rest_sent' in
        cc) in
    let same_packets : first' ∷ bs' ≡ first ∷ bs = cc in
    let count : length (first ∷ bs) ≡ suc m = ap length (sym same_packets) ∙ number in
    let next : f1'.outgoing_seq_id ≡ forward g.incoming.seq_id 1 256 =
      seq ∙ ap (λ t. forward t 1 256) (sym follows) in
    let all : AreSent (contents buf) s m (forward g.incoming.seq_id 1 256) 0 (first ∷ bs) =
      subst (λ t. AreSent (contents buf) s m t 0 (first ∷ bs)) next
        (subst (λ t. AreSent (contents buf) s m f1'.outgoing_seq_id 0 t) same_packets sent) in
    arrives cut far_frame even short before w g frag gd awaiting
      (AreOf-AreWire (contents buf) s m _ (first ∷ bs) before all hs)
      (get-AreSent (contents buf) s m _ 0 w.number (first ∷ bs) w.number w.packet all h
        (omega arith))
      (ap (λ k. covers k (delivered [] before)) (sym count) ∙ missing)
      (ap (λ k. covers k (w.number ∷ delivered [] before)) (sym count) ∙ full)
