-- ===== src/PacketId/Window.antt =====
-- The replay window of packet_id.c: what packet_id_add and packet_id_reap do to the items.
use par_diff_vpn.Prelude.{
  ℕ, zero, suc, ◌+◌, ◌-◌, ◌≤◌, ◌<◌, ◌≡◌, ◌≢◌, refl, true, false, some, arith, min, inl, inr, ◌⊎◌,
  ◌↔◌, ◌∙◌, ap, dec_lt, ℕ_discrete,
}
use par_diff_vpn.CircList.{CircList, item}
use par_diff_vpn.CircList.Laws.{
  IsValid, pushed, push_lem, pushed-IsValid, item-pushed_zero, item-pushed-suc, item_total,
}
use par_diff_vpn.PacketId.{Net, Rec, catch_up, test_window, test}

-- What `n` rounds of the loop of packet_id_add leave of the list `c`.
pub record CaughtUp (n : ℕ) (c c' : CircList ℕ) : Type 0 where
  pub valid : IsValid c'
  pub same_cap : c'.x_cap ≡ c.x_cap
  pub size : c'.x_size ≡ min (c.x_size + n) c.x_cap
  pub unseen : (i : ℕ) → i < n → i < c'.x_size → item c' i ≡ some 0
  pub older : (i : ℕ) → n + i < c'.x_size → item c' (n + i) ≡ item c i

CaughtUp-zero : (c : CircList ℕ) → IsValid c → CaughtUp 0 c c
CaughtUp-zero c ok = record {
  valid = ok;
  same_cap = refl;
  size = omega (arith, ok.size_in);
  unseen = λ i h. absurd (omega arith);
  older = λ i h. let e : 0 + i ≡ i = omega arith in rw e;
}

CaughtUp-suc :
    (n : ℕ) (c c' : CircList ℕ) → IsValid c → CaughtUp n (pushed c 0) c' → CaughtUp (suc n) c c'
CaughtUp-suc n c c' ok rest = record {
  valid = rest.valid;
  same_cap = rest.same_cap;
  size = omega (arith, rest.size);
  unseen = λ i h k. ground (arith, rest.unseen i, rest.older 0, item-pushed_zero c 0 ok);
  older = λ i h. ground (arith, rest.older (suc i), item-pushed-suc c 0 i ok);
}

pub catch_up_lem :
    (n id : ℕ) (c : CircList ℕ)
    → IsValid c
    → (c' : CircList ℕ) × (catch_up n id c ≡ some (id + n, c')) × CaughtUp n c c'
unfolding catch_up
catch_up_lem zero id c ok = (c, ground arith, CaughtUp-zero c ok)
catch_up_lem (suc n) id c ok =
    let (c', e, done) = catch_up_lem n (id + 1) (pushed c 0) (pushed-IsValid c 0 ok) in
    (c', ground (arith, push_lem c 0 ok, e), CaughtUp-suc n c c' ok done)

-- A packet id that packet_id_test refuses, in backtrack mode: the state has no place for it, or
-- its place is taken.
pub data Refused (p : Rec) (c : CircList ℕ) (pin : Net) : Type 0 where
  zero_id : pin.id ≡ 0 → Refused p c pin
  old_time : pin.time < p.time → Refused p c pin
  left_window : pin.time ≡ p.time → pin.id ≤ p.id → c.x_size ≤ p.id - pin.id → Refused p c pin
  taken :
      pin.time ≡ p.time
      → pin.id ≤ p.id
      → p.id - pin.id < c.x_size
      → (t : ℕ) → item c (p.id - pin.id) ≡ some t
      → t ≢ 0
      → Refused p c pin

-- A packet id that packet_id_test accepts, in backtrack mode.
pub data Fresh (p : Rec) (c : CircList ℕ) (pin : Net) : Type 0 where
  newer_time : pin.id ≢ 0 → p.time < pin.time → Fresh p c pin
  newer_id : pin.time ≡ p.time → p.id < pin.id → Fresh p c pin
  unseen :
      pin.id ≢ 0
      → pin.time ≡ p.time
      → pin.id ≤ p.id
      → p.id - pin.id < c.x_size
      → item c (p.id - pin.id) ≡ some 0
      → Fresh p c pin

-- A state in backtrack mode with the sequence list `c`.
pub record IsWindow (p : Rec) (c : CircList ℕ) : Type 0 where
  pub ready : p.initialized ≡ true
  pub has_list : p.seq_list ≡ some c
  pub valid : IsValid c
  pub cap : c.x_cap ≡ p.seq_backtrack

module _ {p : Rec} {c : CircList ℕ} (w : IsWindow p c) (pin : Net) where
  pub Fresh-test : Fresh p c pin → test p pin ≡ some true
  unfolding test test_window
  Fresh-test (newer_time n h) = ground (arith, w.ready, w.has_list, w.valid, w.cap)
  Fresh-test (newer_id e h) = ground (arith, w.ready, w.has_list, w.valid, w.cap)
  Fresh-test (unseen n e h k i) = ground (arith, w.ready, w.has_list, w.valid, w.cap)

  pub Refused-test : Refused p c pin → test p pin ≡ some false
  unfolding test test_window
  Refused-test (zero_id e) = ground (arith, w.ready)
  Refused-test (old_time h) = ground (arith, w.ready, w.has_list, w.valid, w.cap)
  Refused-test (left_window e h k) = ground (arith, w.ready, w.has_list, w.valid, w.cap)
  Refused-test (taken e h k t i ne) = ground (arith, w.ready, w.has_list, w.valid, w.cap)

  taken_or_unseen :
      pin.id ≢ 0
      → pin.time ≡ p.time
      → pin.id ≤ p.id
      → p.id - pin.id < c.x_size
      → Fresh p c pin ⊎ Refused p c pin
  taken_or_unseen n e h k =
      let (t, i) = item_total c (p.id - pin.id) w.valid k in
      elim (ℕ_discrete t 0) [
        | yes z ↦ inl (unseen n e h k (i ∙ ap some z))
        | no z ↦ inr (taken e h k t i z)
      ]

  same_time : pin.id ≢ 0 → pin.time ≡ p.time → Fresh p c pin ⊎ Refused p c pin
  same_time n e = elim (dec_lt p.id pin.id) [
    | yes h ↦ inl (newer_id e h)
    | no h ↦ elim (dec_lt (p.id - pin.id) c.x_size) [
      | yes k ↦ taken_or_unseen n e (omega arith) k
      | no k ↦ inr (left_window e (omega arith) (omega arith))
    ]
  ]

  pub Fresh-or_Refused : Fresh p c pin ⊎ Refused p c pin
  Fresh-or_Refused = elim (ℕ_discrete pin.id 0) [
    | yes z ↦ inr (zero_id z)
    | no n ↦ elim (ℕ_discrete pin.time p.time) [
      | yes e ↦ same_time n e
      | no ne ↦ elim (dec_lt pin.time p.time) [
        | yes h ↦ inr (old_time h)
        | no h ↦ inl (newer_time n (omega arith))
      ]
    ]
  ]

  -- In backtrack mode packet_id_test always answers, and accepts exactly the fresh ids.
  pub test_iff : (test p pin ≡ some true) ↔ Fresh p c pin
  test_iff =
      (λ e. elim Fresh-or_Refused [ inl f ↦ f | inr r ↦ absurd (cc (Refused-test r)) ], Fresh-test)

  pub test-Refused : test p pin ≡ some false → Refused p c pin
  test-Refused e = elim Fresh-or_Refused [ inl f ↦ absurd (cc (Fresh-test f)) | inr r ↦ r ]
