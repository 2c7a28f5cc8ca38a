-- ===== src/PacketId/Reap.antt =====
-- What packet_id_reap does to the items: it only replaces some of them by SEQ_EXPIRED.
use par_diff_vpn.Prelude.{
  ℕ, zero, suc, ◌+◌, ◌-◌, ◌≤◌, ◌<◌, ◌≡◌, refl, Bool, true, false, some, arith, ltb, leb, ◌&&◌, ◌||◌,
  not, ◌==◌, if◌then◌else◌, Bool-cases, inl, inr, ◌⊎◌, ℕ_discrete, ◌∙◌,
}
use par_diff_vpn.CircList.{CircList, item, set_item}
use par_diff_vpn.CircList.Laws.{
  IsValid, stored, set_item_lem, stored-IsValid, item-stored_self, item-stored_ne, item_total,
}
use par_diff_vpn.PacketId.{Net, Rec, reap_from, reap, reap_test}
use par_diff_vpn.PacketId.Window.{IsWindow, Refused, zero_id, old_time, left_window, taken}

pub record Reaped (c c' : CircList ℕ) : Type 0 where
  pub valid : IsValid c'
  pub same_cap : c'.x_cap ≡ c.x_cap
  pub same_size : c'.x_size ≡ c.x_size
  pub kept_or_expired : (j : ℕ) → j < c.x_size → (item c' j ≡ item c j) ⊎ (item c' j ≡ some 1)

Reaped-refl : (c : CircList ℕ) → IsValid c → Reaped c c
Reaped-refl c ok = record {
  valid = ok;
  same_cap = refl;
  same_size = refl;
  kept_or_expired = λ j h. inl refl;
}

Reaped-trans : {a b c : CircList ℕ} → Reaped a b → Reaped b c → Reaped a c
Reaped-trans {a} {b} {c} r s = record {
  valid = s.valid;
  same_cap = s.same_cap ∙ r.same_cap;
  same_size = s.same_size ∙ r.same_size;
  kept_or_expired = λ j h.
      let k : j < b.x_size = omega (arith, r.same_size) in
      ground (arith, r.kept_or_expired j h, s.kept_or_expired j k);
}

-- One item of the loop: expired, or left alone.
expire_one : Bool → CircList ℕ → ℕ → CircList ℕ
expire_one true c i = stored c i 1
expire_one false c i = c

expire_one-Reaped :
    (b : Bool) (c : CircList ℕ) (i : ℕ) → IsValid c → i < c.x_size → Reaped c (expire_one b c i)
unfolding expire_one
expire_one-Reaped true c i ok h = record {
  valid = stored-IsValid c i 1 ok;
  same_cap = refl;
  same_size = refl;
  kept_or_expired = λ j k. elim (ℕ_discrete i j) [
    | yes e ↦ inr (rw (← e) (item-stored_self c i 1 ok h))
    | no ne ↦ inl (item-stored_ne c i j 1 ok h k ne)
  ];
}
expire_one-Reaped false c i ok h = Reaped-refl c ok

expire_one_lem :
    (b : Bool) (c : CircList ℕ) (i : ℕ)
    → IsValid c
    → i < c.x_size
    → (if b then set_item c i 1 else some c) ≡ some (expire_one b c i)
unfolding expire_one
expire_one_lem true c i ok h = set_item_lem c i 1 ok h
expire_one_lem false c i ok h = refl

module _ (now tb n i t : ℕ) (expire : Bool) (c : CircList ℕ) (e : item c i ≡ some t) where
  reap_from_stop : (t == 1) ≡ true → reap_from now tb (suc n) i expire c ≡ some c
  unfolding reap_from
  reap_from_stop stop = ground (arith, e)

  reap_from_next :
      IsValid c
      → i < c.x_size
      → (t == 1) ≡ false
      → let b = expire || not (t == 0) && ltb (t + tb) now in
        reap_from now tb (suc n) i expire c ≡ reap_from now tb n (i + 1) b (expire_one b c i)
  unfolding reap_from
  reap_from_next ok h more =
      ground (arith, e, expire_one_lem (expire || not (t == 0) && ltb (t + tb) now) c i ok h)

reap_from_lem :
    (now tb n i : ℕ) (expire : Bool) (c : CircList ℕ)
    → IsValid c
    → i + n ≤ c.x_size
    → (c' : CircList ℕ) × (reap_from now tb n i expire c ≡ some c') × Reaped c c'
unfolding reap_from
reap_from_lem now tb zero i expire c ok h = (c, refl, Reaped-refl c ok)
reap_from_lem now tb (suc n) i expire c ok h =
    let (t, e) = item_total c i ok (omega arith) in
    let b = expire || not (t == 0) && ltb (t + tb) now in
    let next = expire_one b c i in
    let done = expire_one-Reaped b c i ok (omega arith) in
    let (c', eq, rest) =
      reap_from_lem now tb n (i + 1) b next done.valid (omega (arith, done.same_size)) in
    elim (Bool-cases (t == 1)) [
      | inl stop ↦ (c, reap_from_stop now tb n i t expire c e stop, Reaped-refl c ok)
      | inr more ↦ (
        c',
        reap_from_next now tb n i t expire c e ok (omega arith) more ∙ eq,
        Reaped-trans done rest,
      )
    ]

-- packet_id_reap and packet_id_reap_test never fail in backtrack mode, and leave the sequence and
-- the window's size alone.
pub record ReapedState (p : Rec) (c : CircList ℕ) (p' : Rec) (c' : CircList ℕ) : Type 0 where
  pub window : IsWindow p' c'
  pub items : Reaped c c'
  pub unchanged : p.time_backtrack ≡ 0 → c' ≡ c
  pub time : p'.time ≡ p.time
  pub id : p'.id ≡ p.id
  pub same_backtrack : p'.seq_backtrack ≡ p.seq_backtrack
  pub same_time_backtrack : p'.time_backtrack ≡ p.time_backtrack

ReapedState-same :
    (p : Rec) (c : CircList ℕ) (t : ℕ)
    → IsWindow p c
    → ReapedState p c (record p { last_reap = t }) c
ReapedState-same p c t w = record {
  window = record { ready = w.ready; has_list = w.has_list; valid = w.valid; cap = w.cap };
  items = Reaped-refl c w.valid;
  unchanged = λ _. refl;
  time = refl;
  id = refl;
  same_backtrack = refl;
  same_time_backtrack = refl;
}

reap_lem :
    (now : ℕ) (p : Rec) (c : CircList ℕ)
    → IsWindow p c
    → (p' : Rec) × (c' : CircList ℕ) × (reap now p ≡ some p') × ReapedState p c p' c'
unfolding reap
reap_lem now p c w = elim (Bool-cases (p.time_backtrack == 0)) [
  | inl off ↦ (record p { last_reap = now }, c, rw off, ReapedState-same p c now w)
  | inr on ↦
      (let (c', eq, r) =
          reap_from_lem now p.time_backtrack c.x_size 0 false c w.valid (omega arith) in
        (
          record p { seq_list = some c'; last_reap = now },
          c',
          ground (arith, w.has_list, eq),
          record {
            window = record {
              ready = w.ready;
              has_list = refl;
              valid = r.valid;
              cap = r.same_cap ∙ w.cap;
            };
            items = r;
            unchanged = λ z. absurd (ground arith);
            time = refl;
            id = refl;
            same_backtrack = refl;
            same_time_backtrack = refl;
          },
        ))
]

pub reap_test_lem :
    (now : ℕ) (p : Rec) (c : CircList ℕ)
    → IsWindow p c
    → (p' : Rec) × (c' : CircList ℕ) × (reap_test now p ≡ some p') × ReapedState p c p' c'
unfolding reap_test
reap_test_lem now p c w = elim (Bool-cases (leb (p.last_reap + 5) now)) [
  | inl due ↦ (let (p', c', e, r) = reap_lem now p c w in (p', c', rw due e, r))
  | inr early ↦ (p, c, rw early, ReapedState-same p c p.last_reap w)
]

-- Expiring items never makes a refused id acceptable.
pub ReapedState-Refused :
    {p p' : Rec} {c c' : CircList ℕ} {pin : Net}
    → ReapedState p c p' c'
    → Refused p c pin
    → Refused p' c' pin
ReapedState-Refused r (zero_id z) = zero_id z
ReapedState-Refused r (old_time h) = old_time (omega (arith, r.time))
ReapedState-Refused r (left_window e h k) =
    left_window (omega (arith, r.time)) (omega (arith, r.id))
      (omega (arith, r.id, r.items.same_size))
ReapedState-Refused {p} {p'} {c} {c'} {pin} r (taken e h k t i ne) =
    let same : p'.id - pin.id ≡ p.id - pin.id = omega (arith, r.id) in
    elim (r.items.kept_or_expired (p.id - pin.id) k) [
      | inl kept ↦
          taken (omega (arith, r.time)) (omega (arith, r.id))
            (omega (arith, r.id, r.items.same_size)) t (rw same (kept ∙ i)) ne
      | inr expired ↦
          taken (omega (arith, r.time)) (omega (arith, r.id))
            (omega (arith, r.id, r.items.same_size)) 1 (rw same expired) (omega arith)
    ]
