-- ===== src/PacketId/Linear.antt =====
-- The mode without backtracking (TCP), and the sender's side of packet_id.h.
use par_diff_vpn.Prelude.{
  ℕ, ◌+◌, ◌^◌, ◌<◌, ◌≤◌, ◌≡◌, ◌≢◌, refl, Bool, true, false, some, none, arith, ◌⊎◌, inl, inr,
  Bool-cases, leb, if◌then◌else◌, not, ◌&&◌, ◌==◌,
}
use par_diff_vpn.Buffer.{Buffer, contents}
use par_diff_vpn.Buffer.Contents.{IsValid}
use par_diff_vpn.PacketId.Wire.{size, read, write, write-read}
use par_diff_vpn.PacketId.{
  Net, Send, Rec, reap_test, reap, test, test_linear, add, receive, alloc_outgoing,
}

-- A receiver in the mode without backtracking.
pub record IsLinear (p : Rec) : Type 0 where
  pub ready : p.initialized ≡ true
  pub no_list : p.seq_list ≡ none
  pub no_window : p.seq_backtrack ≡ 0
  pub no_expiry : p.time_backtrack ≡ 0
  pub in_range : p.id < 2 ^ 32

-- What packet_id_reap_test leaves in this mode: only the time of the last reaping changes.
reap_test-IsLinear :
    (now : ℕ) (p : Rec)
    → IsLinear p
    → (t : ℕ) × (reap_test now p ≡ some (record p { last_reap = t }))
unfolding reap_test reap
reap_test-IsLinear now p w = elim (Bool-cases (leb (p.last_reap + 5) now)) [
  | inl due ↦ (now, ground (arith, w.no_expiry))
  | inr early ↦ (p.last_reap, ground arith)
]

-- One packet, after the reaping.
step : Rec → Net → Bool × Rec
step p pin =
    if not (pin.id == 0) && test_linear p pin
    then (true, record p { time = pin.time; id = pin.id })
    else (false, p)

receive-step :
    (now : ℕ) (p : Rec) (pin : Net)
    → IsLinear p
    → (t : ℕ) × (receive now p pin ≡ some (step (record p { last_reap = t }) pin))
unfolding receive step test add
receive-step now p pin w =
    let (t, e) = reap_test-IsLinear now p w in
    (t, ground (arith, e, w.ready, w.no_list, w.no_window))

-- Without backtracking and after the first packet, an accepted id follows the last one in the
-- same time, or is the first one of a later time; either way it becomes the state, and a refused
-- one changes neither time nor id.
pub IsLinear-in_order :
    (now : ℕ) (p : Rec) (pin : Net) {p' : Rec} {b : Bool}
    → IsLinear p
    → pin.id < 2 ^ 32
    → p.id ≢ 0
    → receive now p pin ≡ some (b, p')
    → IsLinear p'
      × (((b ≡ true)
            × (p'.time ≡ pin.time)
            × (p'.id ≡ pin.id)
            × (((pin.time ≡ p.time) × (pin.id ≡ p.id + 1)) ⊎ ((p.time < pin.time) × (pin.id ≡ 1))))
          ⊎ ((b ≡ false) × (p'.time ≡ p.time) × (p'.id ≡ p.id)))
unfolding step test_linear
IsLinear-in_order now p pin {p'} {b} w r n e =
    let (t, f) = receive-step now p pin w in
    let same : (b, p') ≡ step (record p { last_reap = t }) pin = cc in
    ground (arith, same, w.ready, w.no_list, w.no_window, w.no_expiry, w.in_range)

-- For a sender with a time that is not 0, a sent id is never 0 and becomes the state. It follows
-- the last one at the same time, or, when the 32 bits are used up in the long form, is 1 at the
-- time of the clock.
pub alloc_outgoing_lem :
    (now : ℕ) (s : Send) (long_form : Bool) {pin : Net} {s' : Send}
    → s.id < 2 ^ 32
    → s.time ≢ 0
    → alloc_outgoing now s long_form ≡ some (pin, s')
    → (s'.id ≡ pin.id)
      × (s'.time ≡ pin.time)
      × (0 < pin.id)
      × (pin.id < 2 ^ 32)
      × (((pin.time ≡ s.time) × (pin.id ≡ s.id + 1))
          ⊎ ((pin.time ≡ now) × (pin.id ≡ 1) × (s.id + 1 ≡ 2 ^ 32) × (long_form ≡ true)))
unfolding alloc_outgoing
alloc_outgoing_lem now s long_form r n e = ground arith

-- The time that the packets of a sender carry: the short form has none, and it is read as 0.
abbrev pub carried : Bool → ℕ → ℕ
carried long_form time = if long_form then time else 0

-- The receiver accepts the sender's next id with the time that the form carries.
accepts_next :
    (now later : ℕ) (s : Send) (p : Rec) (long_form : Bool) {pin : Net} {s' : Send}
    → IsLinear p
    → p.id ≡ s.id
    → p.time ≡ carried long_form s.time
    → s.time ≢ 0
    → s.time < now
    → alloc_outgoing now s long_form ≡ some (pin, s')
    → (p' : Rec) × (receive later p (record { id = pin.id; time = carried long_form pin.time })
        ≡ some (true, p'))
      × IsLinear p'
      × (p'.id ≡ s'.id)
      × (p'.time ≡ carried long_form s'.time)
unfolding step test_linear
accepts_next now later s p true {pin} w e f n l eq =
    let (t, g) = receive-step later p pin w in
    let sent = alloc_outgoing_lem now s true (omega (arith, w.in_range)) n eq in
    (
      record p { last_reap = t; time = pin.time; id = pin.id },
      ground (arith, g, sent),
      ground (arith, sent, w.ready, w.no_list, w.no_window, w.no_expiry),
      ground (arith, sent),
      ground (arith, sent),
    )
accepts_next now later s p false {pin} w e f n l eq =
    let (t, g) = receive-step later p (record { id = pin.id; time = 0 }) w in
    let sent = alloc_outgoing_lem now s false (omega (arith, w.in_range)) n eq in
    (
      record p { last_reap = t; time = 0; id = pin.id },
      ground (arith, g, sent),
      ground (arith, sent, w.ready, w.no_list, w.no_window, w.no_expiry),
      ground (arith, sent),
      refl,
    )

-- Let the sender have a time that is not 0 and before the clock, which is below 2 ^ 32, and let the
-- receiver be in step: it has the sender's id, and its time in the long form, 0 in the short one.
-- The packet id that packet_id_alloc_outgoing makes next and packet_id_write writes in front of
-- a packet, if there is room, is read by packet_id_read and accepted, and the receiver stays in step.
pub IsLinear-follows :
    (now later : ℕ) (s : Send) (p : Rec) (long_form : Bool) (b : Buffer) {pin : Net} {s' : Send}
    → IsLinear p
    → p.id ≡ s.id
    → p.time ≡ carried long_form s.time
    → s.time ≢ 0
    → s.time < now
    → now < 2 ^ 32
    → IsValid b
    → size long_form ≤ b.offset
    → alloc_outgoing now s long_form ≡ some (pin, s')
    → (b1 b2 : Buffer) × (got : Net) × (p' : Rec) × (write pin b long_form true ≡ some b1)
      × (read b1 long_form ≡ some (got, b2))
      × (contents b2 ≡ contents b)
      × (receive later p got ≡ some (true, p'))
      × IsLinear p'
      × (p'.id ≡ s'.id)
      × (p'.time ≡ carried long_form s'.time)
IsLinear-follows now later s p long_form b {pin} {s'} w e f n l c v room eq =
    let sent = alloc_outgoing_lem now s long_form (omega (arith, w.in_range)) n eq in
    let (b1, b2, written, was_read, left) =
      write-read pin b long_form (ground (arith, sent)) (ground (arith, sent)) v room in
    let (p', accepted, linear, id, time) = accepts_next now later s p long_form w e f n l eq in
    (
      b1,
      b2,
      record { id = pin.id; time = carried long_form pin.time },
      p',
      written,
      was_read,
      left,
      accepted,
      linear,
      id,
      time,
    )
