-- ===== src/PacketId/Exact.antt =====
-- With no expiry in time, packet_id.c accepts exactly what the specification accepts.
use par_diff_vpn.Prelude.{
  ℕ, ◌+◌, ◌-◌, ◌≤◌, ◌<◌, ◌≡◌, ◌≢◌, refl, Bool, true, false, some, arith, min, List, [], ◌∷◌,
  if◌then◌else◌, Bool-cases, inl, inr, ◌⊎◌, dec_lt, ap, ◌∙◌, ℕ_discrete, Option, sym,
}
use par_diff_vpn.CircList
use par_diff_vpn.CircList.{CircList, item, reset}
use par_diff_vpn.CircList.Laws.{alloc-IsValid}
use par_diff_vpn.PacketId.{Net, Rec, PacketId, starts_sequence, receive, receive_all, Arrival, init}
use par_diff_vpn.PacketId.Window.{
  IsWindow, Fresh, newer_time, newer_id, unseen, Refused, zero_id, old_time, left_window, taken,
}
use par_diff_vpn.PacketId.Added.{Added, AddCase, restarted, continued}
use par_diff_vpn.PacketId.Reap.{ReapedState}
use par_diff_vpn.PacketId.Replay.{
  Received, accepted, dropped, receive_lem, Late, AddCase-backtrack, continues, starts, size-reset,
  Fresh-time, Fresh-id,
}
use par_diff_vpn.PacketId.Spec.{top, seen, accepts, history}

-- What is in the history is not above its top.
seen-le-top :
    (h : List Net) (t i : ℕ)
    → seen h t i ≡ true
    → (t ≤ (top h).time) × (t ≡ (top h).time → i ≤ (top h).id)
unfolding seen top
seen-le-top [] t i e = absurd (cc)
seen-le-top (n ∷ h) t i e = elim (Bool-cases (seen h t i)) [
  | inl old ↦ (let (a, b) = seen-le-top h t i old in (ground arith, λ k. ground (arith)))
  | inr new ↦ (ground arith, λ k. ground arith)
]

-- An item of the window, and whether its id is in the history.
data Mark (o : Option ℕ) (b : Bool) : Type 0 where
  free : o ≡ some 0 → b ≡ false → Mark o b
  used : (t : ℕ) → o ≡ some t → t ≢ 0 → b ≡ true → Mark o b

Mark-free : {o : Option ℕ} {b : Bool} → Mark o b → o ≡ some 0 → b ≡ false
Mark-free (free e f) z = f
Mark-free (used t e n f) z = absurd (n (let k : t ≡ 0 = cc in k))

Mark-used : {o : Option ℕ} {b : Bool} (t : ℕ) → Mark o b → o ≡ some t → t ≢ 0 → b ≡ true
Mark-used t (free e f) z n = absurd (n (let k : t ≡ 0 = cc in k))
Mark-used t (used _ e _ f) z n = f

Mark-cong : {o o' : Option ℕ} {b b' : Bool} → Mark o b → o' ≡ o → b' ≡ b → Mark o' b'
Mark-cong (free e f) k l = free (k ∙ e) (l ∙ f)
Mark-cong (used t e n f) k l = used t (k ∙ e) n (l ∙ f)

-- The state holds the history `h`.
record Holds (p : Rec) (c : CircList ℕ) (h : List Net) : Type 0 where
  time : p.time ≡ (top h).time
  id : p.id ≡ (top h).id
  size : c.x_size ≡ min p.id p.seq_backtrack
  marks : (i : ℕ) → i < c.x_size → Mark (item c i) (seen h p.time (p.id - i))

seen_cong : (h : List Net) {t t' i i' : ℕ} → t ≡ t' → i ≡ i' → seen h t i ≡ seen h t' i'
seen_cong h e f = cc

module _ {p : Rec} {c : CircList ℕ} {h : List Net} (s : Holds p c h) (pin : Net) where
  Mark-of :
      pin.time ≡ p.time
      → pin.id ≤ p.id
      → p.id - pin.id < c.x_size
      → Mark (item c (p.id - pin.id)) (seen h pin.time pin.id)
  Mark-of e k l = Mark-cong (s.marks (p.id - pin.id) l) refl (seen_cong h e (omega arith))

  Fresh-accepts : Fresh p c pin → accepts p.seq_backtrack h pin ≡ true
  unfolding accepts
  Fresh-accepts (newer_time n k) = ground (arith, s.time)
  Fresh-accepts (newer_id e k) = ground (arith, s.time, s.id)
  Fresh-accepts (unseen n e k l i) =
      ground (arith, s.time, s.id, s.size, Mark-free (Mark-of e k l) i)

  Refused-accepts : Refused p c pin → accepts p.seq_backtrack h pin ≡ false
  unfolding accepts
  Refused-accepts (zero_id z) = ground arith
  Refused-accepts (old_time k) = ground (arith, s.time)
  Refused-accepts (left_window e k l) = ground (arith, s.time, s.id, s.size)
  Refused-accepts (taken e k l t i ne) =
      ground (arith, s.time, s.id, s.size, Mark-used t (Mark-of e k l) i ne)

-- An id above the top is not in the history.
above-top :
    (h : List Net) (t i : ℕ)
    → ((top h).time < t) ⊎ ((t ≡ (top h).time) × ((top h).id < i))
    → seen h t i ≡ false
above-top h t i k = elim (Bool-cases (seen h t i)) [
  | inr no_place ↦ no_place
  | inl e ↦ absurd (let (a, b) = seen-le-top h t i e in ground arith)
]

seen-cons : (h : List Net) (pin : Net) (t i : ℕ) → i ≢ pin.id → seen (pin ∷ h) t i ≡ seen h t i
unfolding seen
seen-cons h pin t i ne = ground arith

seen-cons_self :
    (h : List Net) (pin : Net) (t i : ℕ) → t ≡ pin.time → i ≡ pin.id → seen (pin ∷ h) t i ≡ true
unfolding seen
seen-cons_self h pin t i e f = ground arith

module _ {now : ℕ} {p : Rec} {c : CircList ℕ} {h : List Net} {pin : Net} {p' : Rec}
    {c' : CircList ℕ} (late : 1 < now) (s : Holds p c h) where
  module _ (a : Added now p p.id c pin p' c') (e : pin.time ≡ p.time) where
    older-Mark :
        (i j : ℕ)
        → pin.id - p.id + j ≡ i
        → i < c'.x_size
        → i ≢ p'.id - pin.id
        → Mark (item c' i) (seen (pin ∷ h) p'.time (p'.id - i))
    older-Mark i j f k elsewhere =
        Mark-cong (s.marks j (omega (arith, a.size)))
          (rw (← f) (a.older j (omega arith) (omega arith)))
          (seen-cons h pin p'.time (p'.id - i) (omega (arith, a.id, a.size, s.size))
            ∙ seen_cong h a.time (omega (arith, a.id)))

    continued-Mark : (i : ℕ) → i < c'.x_size → Mark (item c' i) (seen (pin ∷ h) p'.time (p'.id - i))
    continued-Mark i k = elim (ℕ_discrete i (p'.id - pin.id)) [
      | yes here ↦
          used now (rw here (a.here (omega arith) late)) (omega arith)
            (seen-cons_self h pin p'.time (p'.id - i) (omega (arith, a.time)) (omega (arith, a.id)))
      | no elsewhere ↦ elim (dec_lt i (pin.id - p.id)) [
        | yes between ↦ free (a.between i between k elsewhere) (
            seen-cons h pin p'.time (p'.id - i) (omega (arith, a.id))
            ∙ above-top h p'.time (p'.id - i)
                (inr (omega (arith, a.time, s.time), omega (arith, a.id, s.id))))
        | no old ↦ older-Mark i (i - (pin.id - p.id)) (omega arith) k elsewhere
      ]
    ]

    continued-Holds : Holds p' c' (pin ∷ h)
    unfolding top
    continued-Holds = record {
      time = ground (arith, s.time, s.id, a.time);
      id = ground (arith, s.time, s.id, a.time, a.id);
      size = omega (arith, a.size, a.id, s.size, a.same_backtrack);
      marks = continued-Mark;
    }

  module _
      (a : Added now (record p { time = pin.time }) (pin.id - p.seq_backtrack) (reset c) pin p' c')
      (e : p.time ≤ pin.time) (n : pin.id ≢ 0) (b : 0 < p.seq_backtrack)
      (start : starts_sequence p c pin ≡ true) where
    -- Every id of the new window is above the top of the history.
    ahead :
        (i : ℕ)
        → i < c'.x_size
        → ((top h).time < p'.time) ⊎ ((p'.time ≡ (top h).time) × ((top h).id < p'.id - i))
    ahead i k =
        ground
          (arith, starts p c pin start, a.time, a.id, a.size, size-reset c, s.time, s.id, s.size)

    restarted-Mark : (i : ℕ) → i < c'.x_size → Mark (item c' i) (seen (pin ∷ h) p'.time (p'.id - i))
    restarted-Mark i k = elim (ℕ_discrete i (p'.id - pin.id)) [
      | yes here ↦
          used now (rw here (a.here (omega arith) late)) (omega arith)
            (seen-cons_self h pin p'.time (p'.id - i) (omega (arith, a.time)) (omega (arith, a.id)))
      | no elsewhere ↦ free (a.between i (omega (arith, a.size, size-reset c)) k elsewhere) (
          seen-cons h pin p'.time (p'.id - i) (omega (arith, a.id, a.size, size-reset c))
          ∙ above-top h p'.time (p'.id - i) (ahead i k))
    ]

    restarted-Holds : Holds p' c' (pin ∷ h)
    unfolding top
    restarted-Holds = record {
      time = ground (arith, s.time, s.id, a.time, ahead 0);
      id = ground (arith, s.time, s.id, a.time, a.id, ahead 0, a.size, size-reset c);
      size = omega (arith, a.size, a.id, size-reset c, a.same_backtrack);
      marks = restarted-Mark;
    }

Reaped-Holds :
    {p : Rec} {c : CircList ℕ} {q : Rec} {d : CircList ℕ} {h : List Net}
    → ReapedState p c q d
    → p.time_backtrack ≡ 0
    → Holds p c h
    → Holds q d h
Reaped-Holds {p} {c} {q} {d} {h} r z s = record {
  time = r.time ∙ s.time;
  id = r.id ∙ s.id;
  size = omega (arith, r.items.same_size, r.id, r.same_backtrack, s.size);
  marks = λ i k.
      let same = r.unchanged z in
      Mark-cong (s.marks i (omega (arith, r.items.same_size))) (ap (λ l. item l i) same)
        (seen_cong h r.time (omega (arith, r.id)));
}

AddCase-Holds :
    {now : ℕ} {p : Rec} {c : CircList ℕ} {h : List Net} {pin : Net} {p' : Rec} {c' : CircList ℕ}
    → 1 < now
    → 0 < p.seq_backtrack
    → Holds p c h
    → Fresh p c pin
    → AddCase now p c pin p' c'
    → Holds p' c' (pin ∷ h)
AddCase-Holds late b s f (restarted e a) = restarted-Holds late s a (Fresh-time f) (Fresh-id f) b e
AddCase-Holds {p = p} {c = c} {pin = pin} late b s f (continued e a) =
    continued-Holds late s a (omega (arith, Fresh-time f, continues p c pin e))

-- The state of a receiver with no expiry in time, after the accepted packets `h`.
abbrev Exact : ℕ → List Net → Rec → Type 0
Exact window h p =
    (c : CircList ℕ) × IsWindow p c
    × Holds p c h
    × (p.seq_backtrack ≡ window)
    × (p.time_backtrack ≡ 0)

module _ {now : ℕ} {p : Rec} {c : CircList ℕ} {h : List Net} {pin : Net} {p' : Rec}
    {c' : CircList ℕ} (late : 1 < now) (pos : 0 < p.seq_backtrack) (z : p.time_backtrack ≡ 0)
    (s : Holds p c h) where
  Received-accepts : {b : Bool} → Received now p c pin p' c' b → b ≡ accepts p.seq_backtrack h pin
  Received-accepts (accepted q d r f a) =
      sym (rw (← r.same_backtrack) (Fresh-accepts (Reaped-Holds r z s) pin f))
  Received-accepts (dropped r f) =
      sym (rw (← r.same_backtrack) (Refused-accepts (Reaped-Holds r z s) pin f))

  Received-Exact :
      {b : Bool}
      → Received now p c pin p' c' b
      → Exact p.seq_backtrack (if b then pin ∷ h else h) p'
  Received-Exact (accepted q d r f a) = (
    c',
    (AddCase-backtrack a).2,
    AddCase-Holds late (omega (arith, r.same_backtrack)) (Reaped-Holds r z s) f a,
    omega (arith, AddCase-backtrack a, r.same_backtrack),
    omega (arith, AddCase-backtrack a, r.same_time_backtrack),
  )
  Received-Exact (dropped r f) =
      (c', r.window, Reaped-Holds r z s, r.same_backtrack, omega (arith, r.same_time_backtrack))

-- One packet gets the verdict of the specification.
receive-Exact :
    (now window : ℕ) (h : List Net) (p : Rec) (pin : Net)
    → 1 < now
    → 0 < window
    → Exact window h p
    → (p' : Rec) × (receive now p pin ≡ some (accepts window h pin, p'))
      × Exact window (if accepts window h pin then pin ∷ h else h) p'
receive-Exact now window h p pin late pos (c, w, s, e, z) =
    let (b, p', c', eq, r) = receive_lem now p c pin w in
    let same : b ≡ accepts window h pin = rw (← e) (Received-accepts late (omega arith) z s r) in
    (p', rw (← same) eq, rw (← same, ← e) (Received-Exact late (omega arith) z s r))

receive_all-Exact :
    (window : ℕ) (traffic : List Arrival) (h : List Net) (p : Rec)
    → Late traffic
    → 0 < window
    → Exact window h p
    → (p' : Rec) × (receive_all traffic p ≡ some p') × Exact window (history window h traffic) p'
unfolding receive_all history
receive_all-Exact window [] h p late pos x = (p, refl, x)
receive_all-Exact window (a ∷ rest) h p late pos x =
    let (p1, e1, x1) = receive-Exact a.at window h p a.pin late.0 pos x in
    let (p', e', x') = receive_all-Exact window rest _ p1 late.1 pos x1 in (p', rw e1 e', x')

init-Exact : (sb : ℕ) {s : PacketId} → 0 < sb → init sb 0 ≡ some s → Exact sb [] s.rcv
unfolding init CircList.alloc top
init-Exact sb {s} h e = (
  CircList.alloc 0 sb,
  ground (arith, alloc-IsValid {A = ℕ} 0 sb h),
  record {
    time = ground arith;
    id = ground arith;
    size = ground arith;
    marks = λ i k. absurd (ground arith);
  },
  ground arith,
  ground arith,
)

-- With a window of `sb` ids and no expiry in time, packet_id_test and packet_id_add accept
-- exactly what the specification accepts, after any traffic from the start at times later than
-- 1, and never fail.
pub window_exact :
    (sb : ℕ) {s : PacketId} (traffic : List Arrival) (now : ℕ) (pin : Net)
    → 0 < sb
    → init sb 0 ≡ some s
    → Late traffic
    → 1 < now
    → (p p' : Rec) × (receive_all traffic s.rcv ≡ some p)
      × (receive now p pin ≡ some (accepts sb (history sb [] traffic) pin, p'))
window_exact sb traffic now pin h start traffic_late late =
    let (p, e, x) = receive_all-Exact sb traffic [] _ traffic_late h (init-Exact sb h start) in
    let (p', e', _) = receive-Exact now sb (history sb [] traffic) p pin late h x in (p, p', e, e')
