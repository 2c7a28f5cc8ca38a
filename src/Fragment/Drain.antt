-- ===== src/Fragment/Drain.antt =====
-- fragment_outgoing on a datagram that is sent in pieces, and the calls of fragment_ready_to_send
-- that follow it.
use par_diff_vpn.Prelude.{
  ℕ, zero, suc, ◌+◌, ◌-◌, ◌/◌, ◌≤◌, ◌<◌, ◌≡◌, refl, sym, ap, subst, Option, none, some, ◌++◌, List,
  [], ◌∷◌, length, arith, ◌==◌, ◌>>=◌,
}
use par_diff_vpn.Integer.Laws.{forward}
use par_diff_vpn.Buffer.{Buffer, contents, be32}
use par_diff_vpn.Frame.{Frame}
use par_diff_vpn.Fragment.{Master, ready_to_send, outgoing, flags_of}
use par_diff_vpn.Fragment.Pieces.{piece}
use par_diff_vpn.Fragment.Assemble.{IsCut}
use par_diff_vpn.Fragment.Header.{piece_type}
use par_diff_vpn.Fragment.Travel.{IsWire}
use par_diff_vpn.Fragment.Outgoing.{IsSending, sends}
use par_diff_vpn.Fragment.Start.{IsLarge, IsIdle, large-size, outgoing_starts, begun, several}

-- fragment_ready_to_send until nothing is left, at most `fuel` times.
unfoldable pub drain : Frame → ℕ → Master → Option (List Buffer × Master)
drain frame zero f = some ([], f)
drain frame (suc fuel) f = do
  r ← ready_to_send frame f
  elim (r.0) [
    | none ↦ some ([], r.1)
    | some b ↦ (do rest_r ← drain frame fuel (r.1); some (b ∷ rest_r.0, rest_r.1))
  ]

-- The packets of the pieces from `n` on, in their order.
abbrev pub AreSent : List ℕ → ℕ → ℕ → ℕ → ℕ → List Buffer → Type 0
AreSent p s m seq n [] = Unit
AreSent p s m seq n (b ∷ bs) = IsWire p s m seq n b × AreSent p s m seq (suc n) bs

drain_empty :
    (frame : Frame) (fuel : ℕ) (f : Master) → f.outgoing.len ≡ 0 → drain frame fuel f ≡ some ([], f)
unfolding drain ready_to_send
drain_empty frame zero f h = refl
drain_empty frame (suc fuel) f h = rw h refl

module _ {p : List ℕ} {s m : ℕ} (cut : IsCut p s m) (frame : Frame) where
  pub drained :
      (k n fuel : ℕ) (f : Master) (d rd : List ℕ)
      → IsSending frame p s n f d rd
      → n + k ≡ m
      → k < fuel
      → (bs : List Buffer) × (f' : Master) × (drain frame fuel f ≡ some (bs, f'))
        × (length bs ≡ suc k)
        × AreSent p s m f.outgoing_seq_id n bs
        × (f'.outgoing.len ≡ 0)
  unfolding drain
  drained k n zero f d rd h e lt = absurd (omega arith)
  drained zero n (suc fuel) f d rd h e lt =
      let (b, f1, got, valid, c, same, _, at_last) = sends cut frame n f d rd h (omega arith) in
      let empty = at_last (omega arith) in
      (
        b ∷ [],
        f1,
        rw (got, drain_empty frame fuel f1 empty),
        refl,
        ((omega arith, valid, c), tt),
        empty,
      )
  drained (suc k) n (suc fuel) f d rd h e lt =
      let (b, f1, got, valid, c, same, next, _) = sends cut frame n f d rd h (omega arith) in
      let (bs, f2, rest_got, len, sent, empty) =
        drained k (suc n) fuel f1 d rd (next (omega arith)) (omega arith) (omega arith) in
      (
        b ∷ bs,
        f2,
        rw (got, rest_got),
        ap suc len,
        ((omega arith, valid, c), subst (λ t. AreSent p s m t (suc n) bs) same sent),
        empty,
      )

-- The sender is given a datagram that is larger than one packet may be and needs at most 32 pieces,
-- and its buffers have room for it. Then fragment_outgoing gives the first packet, and 32 calls of
-- fragment_ready_to_send are enough for the others: they carry the pieces in their order, all under
-- the next sequence id, and nothing of the datagram is left.
pub sends_all :
    (frame : Frame) (s fuel : ℕ) (buf : Buffer) (f : Master) (d rd : List ℕ)
    → IsLarge frame buf s
    → IsIdle frame (contents buf) s f d rd
    → 32 ≤ fuel
    → (first : Buffer) × (f1 : Master) × (bs : List Buffer) × (f2 : Master) × (outgoing frame buf f
        ≡ some (first, f1))
      × (drain frame fuel f1 ≡ some (bs, f2))
      × (f2.outgoing.len ≡ 0)
      × (f1.outgoing_seq_id ≡ forward f.outgoing_seq_id 1 256)
      × (length (first ∷ bs) ≡ suc ((buf.len - 1) / s))
      × AreSent (contents buf) s ((buf.len - 1) / s) f1.outgoing_seq_id 0 (first ∷ bs)
sends_all frame s fuel buf f d rd lg idle enough =
    let m : ℕ = (buf.len - 1) / s in
    let (even, positive, short, below, cut) = large-size frame buf s lg in
    let more : 0 < m = several buf.len s positive below in
    let (b, b', d', started, copied, sending) =
      begun frame s buf f d rd lg.valid lg.small (omega arith) idle in
    let (first, f1, got, valid, c, seq, next, _) =
      sends cut frame 0 _ d' rd sending (omega arith) in
    let (bs, f2, drained_all, number, sent, empty) =
      drained cut frame (m - 1) 1 fuel f1 d' rd (next more) (omega arith)
        (let h = cut.few in omega arith) in
    (
      first,
      f1,
      bs,
      f2,
      outgoing_starts frame s buf b b' first f f1 lg.large lg.size lg.few idle.number started copied
          got,
      drained_all,
      empty,
      seq,
      omega arith,
      (
        (
          omega arith,
          valid,
          subst
              (λ t.
                contents first
                ≡ be32 (flags_of (piece_type (0 == m)) t 0 s) ++ piece (contents buf) s 0)
              (sym seq) c,
        ),
        sent,
      ),
    )
