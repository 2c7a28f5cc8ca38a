-- ===== src/PacketId/Replay.antt =====
-- No packet id is accepted twice: the replay protection of packet_id.c over any traffic.
use par_diff_vpn.Prelude.{
  ℕ, ◌+◌, ◌-◌, ◌≤◌, ◌<◌, ◌≡◌, ◌≢◌, refl, Bool, true, false, some, arith, List, [], ◌∷◌, inl, inr,
  ◌⊎◌, dec_lt, ◌∙◌, ℕ_discrete, Option, sym,
}
use par_diff_vpn.CircList.{CircList, item, reset}
use par_diff_vpn.CircList
use par_diff_vpn.CircList.Laws.{alloc-IsValid}
use mathlib.Core.Path.{subst}
use par_diff_vpn.PacketId.{Net, Rec, PacketId, starts_sequence, receive, receive_all, Arrival, init}
use par_diff_vpn.PacketId.Window.{
  Fresh-or_Refused, Fresh-test, Refused-test, IsWindow, Fresh, newer_time, newer_id, unseen,
  Refused, zero_id, old_time, left_window, taken,
}
use par_diff_vpn.PacketId.Reap.{ReapedState, reap_test_lem, ReapedState-Refused}
use par_diff_vpn.PacketId.Added.{add_lem, Added, AddCase, restarted, continued}

module _ (p : Rec) (c : CircList ℕ) (pin : Net) where
  pub continues :
      starts_sequence p c pin ≡ false
      → (0 < c.x_size) × (pin.time ≤ p.time) × (pin.id - p.seq_backtrack ≤ p.id)
  unfolding starts_sequence
  continues e = (ground arith, ground arith, ground arith)

  pub starts :
      starts_sequence p c pin ≡ true
      → (c.x_size ≡ 0) ⊎ (p.time < pin.time) ⊎ (p.id < pin.id - p.seq_backtrack)
  unfolding starts_sequence
  starts e = ground arith

pub Fresh-time : {p : Rec} {c : CircList ℕ} {pin : Net} → Fresh p c pin → p.time ≤ pin.time
Fresh-time (newer_time n h) = omega arith
Fresh-time (newer_id e h) = omega arith
Fresh-time (unseen n e h k i) = omega arith

pub Fresh-id : {p : Rec} {c : CircList ℕ} {pin : Net} → Fresh p c pin → pin.id ≢ 0
Fresh-id (newer_time n h) = n
Fresh-id (newer_id e h) = omega arith
Fresh-id (unseen n e h k i) = n

pub size-reset : (c : CircList ℕ) → (reset c).x_size ≡ 0
unfolding reset
size-reset c = refl

Added-Refused :
    {now first : ℕ} {q : Rec} {d : CircList ℕ} {pin : Net} {p' : Rec} {c' : CircList ℕ}
    → 1 < now
    → Added now q first d pin p' c'
    → pin.time ≡ p'.time
    → Refused p' c' pin
Added-Refused {now} {pin = pin} {p' = p'} {c' = c'} late a e =
    elim (dec_lt (p'.id - pin.id) c'.x_size) [
      | yes k ↦ taken e (omega (arith, a.id)) k now (a.here k late) (omega arith)
      | no k ↦ left_window e (omega (arith, a.id)) (omega arith)
    ]

module _ {now : ℕ} {p : Rec} {c : CircList ℕ} {pin : Net} {p' : Rec} {c' : CircList ℕ} where
  -- An accepted id is refused from then on.
  AddCase-Refused : 1 < now → Fresh p c pin → AddCase now p c pin p' c' → Refused p' c' pin
  AddCase-Refused late f (restarted e a) = Added-Refused late a (omega (arith, a.time))
  AddCase-Refused late f (continued e a) =
      Added-Refused late a (omega (arith, a.time, Fresh-time f, continues p c pin e))

  -- After an accepted packet the list is never empty.
  AddCase-nonempty : 0 < p.seq_backtrack → Fresh p c pin → AddCase now p c pin p' c' → 0 < c'.x_size
  AddCase-nonempty h f (restarted e a) = omega (arith, a.size, size-reset c, Fresh-id f)
  AddCase-nonempty h f (continued e a) = omega (arith, a.size, continues p c pin e)

  pub AddCase-backtrack :
      AddCase now p c pin p' c'
      → (p'.seq_backtrack ≡ p.seq_backtrack)
        × (p'.time_backtrack ≡ p.time_backtrack)
        × IsWindow p' c'
  AddCase-backtrack (restarted e a) = (a.same_backtrack, a.same_time_backtrack, a.window)
  AddCase-backtrack (continued e a) = (a.same_backtrack, a.same_time_backtrack, a.window)

  module _ (late : 1 < now) (old : Net) where
    restarted-keeps :
        IsWindow p c
        → 0 < c.x_size
        → starts_sequence p c pin ≡ true
        → Added now (record p { time = pin.time }) (pin.id - p.seq_backtrack) (reset c) pin p' c'
        → old.id ≤ p.id
        → old.time ≤ p.time
        → p.time ≤ pin.time
        → Refused p' c' old
    restarted-keeps w some_seen e a h k l = elim (dec_lt p.time pin.time) [
      | yes m ↦ old_time (omega (arith, a.time))
      | no m ↦ elim (dec_lt old.time p.time) [
        | yes q ↦ old_time (omega (arith, a.time))
        | no q ↦
            left_window (omega (arith, a.time)) (omega (arith, a.id, starts p c pin e))
              (omega (arith, a.id, a.size, size-reset c, starts p c pin e))
      ]
    ]

    continued-keeps :
        Added now p p.id c pin p' c'
        → old.time ≡ p.time
        → old.id ≤ p.id
        → (t : ℕ) → item c (p.id - old.id) ≡ some t
        → t ≢ 0
        → Refused p' c' old
    continued-keeps a e h t i ne = elim (dec_lt (p'.id - old.id) c'.x_size) [
      | no k ↦ left_window (omega (arith, a.time)) (omega (arith, a.id)) (omega arith)
      | yes k ↦ elim (ℕ_discrete old.id pin.id) [
        | yes same ↦
            taken (omega (arith, a.time)) (omega (arith, a.id)) k now
              (let e : p'.id - pin.id ≡ p'.id - old.id = omega arith in
                rw (← e) (a.here (omega arith) late))
              (omega arith)
        | no other ↦
            taken (omega (arith, a.time)) (omega (arith, a.id)) k t
              (let e : pin.id - p.id + (p.id - old.id) ≡ p'.id - old.id = omega (arith, a.id) in
                rw (← e) (a.older (p.id - old.id) (omega arith) (omega (arith, a.id)) ∙ i))
              ne
      ]
    ]

    -- A refused id stays refused, whatever fresh packet is added, once a packet has been seen.
    AddCase-keeps :
        IsWindow p c
        → 0 < c.x_size
        → Fresh p c pin
        → Refused p c old
        → AddCase now p c pin p' c'
        → Refused p' c' old
    AddCase-keeps w n f (zero_id z) d = zero_id z
    AddCase-keeps w n f (old_time h) (restarted e a) =
        old_time (omega (arith, a.time, Fresh-time f))
    AddCase-keeps w n f (old_time h) (continued e a) = old_time (omega (arith, a.time))
    AddCase-keeps w n f (left_window e h k) (restarted s a) =
        restarted-keeps w n s a h (omega arith) (Fresh-time f)
    AddCase-keeps w n f (left_window e h k) (continued s a) =
        left_window (omega (arith, a.time)) (omega (arith, a.id)) (omega (arith, a.id, a.size))
    AddCase-keeps w n f (taken e h k t i ne) (restarted s a) =
        restarted-keeps w n s a h (omega arith) (Fresh-time f)
    AddCase-keeps w n f (taken e h k t i ne) (continued s a) = continued-keeps a e h t i ne

-- What one packet does: accepted, it is added after the reaping; refused, only the reaping is left.
pub data Received (now : ℕ) (p : Rec) (c : CircList ℕ) (pin : Net) (p' : Rec) (c' : CircList ℕ)
    : Bool → Type 0 where
  accepted :
      (q : Rec) (d : CircList ℕ)
      → ReapedState p c q d
      → Fresh q d pin
      → AddCase now q d pin p' c'
      → Received now p c pin p' c' true
  dropped : ReapedState p c p' c' → Refused p' c' pin → Received now p c pin p' c' false

pub receive_lem :
    (now : ℕ) (p : Rec) (c : CircList ℕ) (pin : Net)
    → IsWindow p c
    → (b : Bool) × (p' : Rec) × (c' : CircList ℕ) × (receive now p pin ≡ some (b, p'))
      × Received now p c pin p' c' b
unfolding receive
receive_lem now p c pin w =
    let (q, d, e, r) = reap_test_lem now p c w in
    elim (Fresh-or_Refused r.window pin) [
      | inl f ↦
          (let (p', c', e', a) = add_lem now r.window pin in
            (true, p', c', rw (e, Fresh-test r.window pin f, e'), accepted q d r f a))
      | inr f ↦ (false, q, d, rw (e, Refused-test r.window pin f), dropped r f)
    ]

module _ {now : ℕ} {p : Rec} {c : CircList ℕ} {pin : Net} {p' : Rec} {c' : CircList ℕ} where
  pub Received-IsWindow :
      {b : Bool}
      → Received now p c pin p' c' b
      → IsWindow p' c' × (p'.seq_backtrack ≡ p.seq_backtrack)
  Received-IsWindow (accepted q d r f a) =
      ((AddCase-backtrack a).2, omega (arith, AddCase-backtrack a, r.same_backtrack))
  Received-IsWindow (dropped r f) = (r.window, r.same_backtrack)

  Received-Refused : {b : Bool} → 1 < now → Received now p c pin p' c' b → Refused p' c' pin
  Received-Refused late (accepted q d r f a) = AddCase-Refused late f a
  Received-Refused late (dropped r f) = f

  Received-nonempty : 0 < p.seq_backtrack → Received now p c pin p' c' true → 0 < c'.x_size
  Received-nonempty h (accepted q d r f a) = AddCase-nonempty (omega (arith, r.same_backtrack)) f a

  Received-keeps :
      {b : Bool} (old : Net)
      → 1 < now
      → 0 < c.x_size
      → 0 < p.seq_backtrack
      → Refused p c old
      → Received now p c pin p' c' b
      → Refused p' c' old × (0 < c'.x_size)
  Received-keeps old late n h o (accepted q d r f a) = (
    AddCase-keeps late old r.window (omega (arith, r.items.same_size)) f (ReapedState-Refused r o)
        a,
    AddCase-nonempty (omega (arith, r.same_backtrack)) f a,
  )
  Received-keeps old late n h o (dropped r f) =
      (ReapedState-Refused r o, omega (arith, r.items.same_size))

-- Every packet of the traffic arrives after second 1 of the clock: `now` is a real time, and the
-- times 0 and 1 are the marks SEQ_UNSEEN and SEQ_EXPIRED.
abbrev pub Late : List Arrival → Type 0
Late [] = Unit
Late (a ∷ rest) = (1 < a.at) × Late rest

-- A state in backtrack mode.
abbrev pub Backtracks : Rec → Type 0
Backtracks p = (c : CircList ℕ) × IsWindow p c × (0 < p.seq_backtrack)

-- A state in backtrack mode that has seen a packet and refuses the id `old`.
abbrev Refusing : Rec → Net → Type 0
Refusing p old =
    (c : CircList ℕ) × IsWindow p c × (0 < p.seq_backtrack) × Refused p c old × (0 < c.x_size)

receive_all-Backtracks :
    (traffic : List Arrival) (p : Rec)
    → Backtracks p
    → (p' : Rec) × (receive_all traffic p ≡ some p') × Backtracks p'
unfolding receive_all
receive_all-Backtracks [] p s = (p, refl, s)
receive_all-Backtracks (a ∷ rest) p (c, w, h) =
    let (b, p1, c1, e, r) = receive_lem a.at p c a.pin w in
    let (w1, same) = Received-IsWindow r in
    let (p', e', s') = receive_all-Backtracks rest p1 (c1, w1, omega arith) in (p', rw e e', s')

receive_all-Refusing :
    (traffic : List Arrival) (p : Rec) (old : Net)
    → Late traffic
    → Refusing p old
    → (p' : Rec) × (receive_all traffic p ≡ some p') × Refusing p' old
unfolding receive_all
receive_all-Refusing [] p old late s = (p, refl, s)
receive_all-Refusing (a ∷ rest) p old late (c, w, h, o, n) =
    let (b, p1, c1, e, r) = receive_lem a.at p c a.pin w in
    let (w1, same) = Received-IsWindow r in
    let (o1, n1) = Received-keeps old late.0 n h o r in
    let (p', e', s') = receive_all-Refusing rest p1 old late.1 (c1, w1, omega arith, o1, n1) in
    (p', rw e e', s')

init-Backtracks : (sb tb : ℕ) {s : PacketId} → 0 < sb → init sb tb ≡ some s → Backtracks s.rcv
unfolding init CircList.alloc
init-Backtracks sb tb {s} h e =
    (CircList.alloc 0 sb, ground (arith, alloc-IsValid {A = ℕ} 0 sb h), ground arith)

reached-Backtracks :
    (traffic : List Arrival) (p : Rec) {p' : Rec}
    → Backtracks p
    → receive_all traffic p ≡ some p'
    → Backtracks p'
reached-Backtracks traffic p {p'} s e =
    let (q, e', s') = receive_all-Backtracks traffic p s in
    let same : q ≡ p' = cc in subst Backtracks same s'

-- The verdict on a packet that the window refuses.
receive-Refused :
    (now : ℕ) {p : Rec} {c : CircList ℕ} {old : Net}
    → IsWindow p c
    → Refused p c old
    → (p' : Rec) × (receive now p old ≡ some (false, p'))
unfolding receive
receive-Refused now {p} {c} {old} w o =
    let (q, d, e, r) = reap_test_lem now p c w in
    (q, rw (e, Refused-test r.window old (ReapedState-Refused r o)))

accepted-Refusing :
    {now : ℕ} {p : Rec} {c : CircList ℕ} {pin : Net} {b : Bool} {q : Rec} {c' : CircList ℕ}
    {p1 : Rec}
    → 1 < now
    → 0 < p.seq_backtrack
    → ◌≡◌ {A = Option (Bool × Rec)} (some (b, q)) (some (true, p1))
    → Received now p c pin q c' b
    → Refusing p1 pin
accepted-Refusing {pin = pin} {q = q} {c' = c'} {p1 = p1} late h e (accepted x d r f a) =
    let same : q ≡ p1 = cc in
    let rcv = accepted x d r f a in
    let (w, sb) = Received-IsWindow rcv in
    subst (λ y. Refusing y pin) same
      (c', w, omega arith, Received-Refused late rcv, Received-nonempty h rcv)
accepted-Refusing late h e (dropped r f) = absurd (cc)

-- In backtrack mode, after any traffic that a fresh state takes without a failure: once an id
-- has been accepted at a time later than 1, every later packet with the same id and time is
-- refused, whatever comes in between at times later than 1.
pub no_replay :
    (sb tb : ℕ) {s : PacketId} (before after : List Arrival) (now later : ℕ) (pin : Net)
    {p p1 : Rec}
    → 0 < sb
    → init sb tb ≡ some s
    → receive_all before s.rcv ≡ some p
    → 1 < now
    → receive now p pin ≡ some (true, p1)
    → Late after
    → (p2 : Rec) × (p3 : Rec) × (receive_all after p1 ≡ some p2)
      × (receive later p2 pin ≡ some (false, p3))
no_replay sb tb before after now later pin h start reached late ok after_late =
    let (c, w, h') = reached-Backtracks before _ (init-Backtracks sb tb h start) reached in
    let (b, q, c', e, r) = receive_lem now _ c pin w in
    let seen = accepted-Refusing late h' (sym e ∙ ok) r in
    let (p2, e2, refusing) = receive_all-Refusing after _ pin after_late seen in
    let (d, w2, _, o, _) = refusing in let (p3, e3) = receive-Refused later w2 o in (p2, p3, e2, e3)
