-- ===== src/PacketId/Added.antt =====
-- What packet_id_add leaves of the state and the items, in backtrack mode.
use par_diff_vpn.Prelude.{
  ℕ, ◌+◌, ◌-◌, ◌<◌, ◌≡◌, ◌≢◌, refl, true, false, some, arith, min, ltb, if◌then◌else◌, Bool-cases,
  inl, inr, dec_lt, ◌∙◌,
}
use par_diff_vpn.CircList.{CircList, item, reset}
use par_diff_vpn.CircList.Laws.{
  IsValid, stored, set_item_lem, stored-IsValid, item-stored_self, item-stored_ne, reset-IsValid,
}
use par_diff_vpn.PacketId.{Net, Rec, starts_sequence, mark, add_from, add_window, add}
use par_diff_vpn.PacketId.Window.{catch_up_lem, IsWindow}

record Marked (now diff : ℕ) (c c' : CircList ℕ) : Type 0 where
  valid : IsValid c'
  same_cap : c'.x_cap ≡ c.x_cap
  same_size : c'.x_size ≡ c.x_size
  here : diff < c.x_size → 1 < now → item c' diff ≡ some now
  there : (j : ℕ) → j < c.x_size → j ≢ diff → item c' j ≡ item c j

module _ (now diff : ℕ) (c : CircList ℕ) (ok : IsValid c) where
  Marked-stored : diff < c.x_size → Marked now diff c (stored c diff now)
  Marked-stored h = record {
    valid = stored-IsValid c diff now ok;
    same_cap = refl;
    same_size = refl;
    here = λ _ _. item-stored_self c diff now ok h;
    there = λ j k ne. item-stored_ne c diff j now ok h k (λ e. ne (omega arith));
  }

  Marked-same : (diff < c.x_size → 1 < now → ⊥) → Marked now diff c c
  Marked-same no_room = record {
    valid = ok;
    same_cap = refl;
    same_size = refl;
    here = λ h k. absurd (no_room h k);
    there = λ j k ne. refl;
  }

  mark_lem : (c' : CircList ℕ) × (mark now c diff ≡ some c') × Marked now diff c c'
  unfolding mark
  mark_lem = elim (dec_lt diff c.x_size) [
    | yes h ↦ elim (dec_lt 1 now) [
      | yes k ↦ (stored c diff now, ground (arith, set_item_lem c diff now ok h), Marked-stored h)
      | no k ↦ (c, ground arith, Marked-same (λ _ l. k l))
    ]
    | no h ↦ (c, ground arith, Marked-same (λ l _. h l))
  ]

-- `p'` and `c'` are what packet_id_add makes of `p`, from the highest id `first` and the list `c`.
pub record Added (now : ℕ) (p : Rec) (first : ℕ) (c : CircList ℕ) (pin : Net) (p' : Rec)
    (c' : CircList ℕ) : Type 0 where
  pub window : IsWindow p' c'
  pub time : p'.time ≡ p.time
  pub id : p'.id ≡ first + (pin.id - first)
  pub size : c'.x_size ≡ min (c.x_size + (pin.id - first)) p.seq_backtrack
  pub here : p'.id - pin.id < c'.x_size → 1 < now → item c' (p'.id - pin.id) ≡ some now
  pub between :
      (i : ℕ) → i < pin.id - first → i < c'.x_size → i ≢ p'.id - pin.id → item c' i ≡ some 0
  pub older :
      (i : ℕ)
      → pin.id - first + i < c'.x_size
      → pin.id - first + i ≢ p'.id - pin.id
      → item c' (pin.id - first + i) ≡ item c i
  pub same_backtrack : p'.seq_backtrack ≡ p.seq_backtrack
  pub same_time_backtrack : p'.time_backtrack ≡ p.time_backtrack

pub add_from_lem :
    (now : ℕ) (p : Rec) (first : ℕ) (c : CircList ℕ) (pin : Net)
    → p.initialized ≡ true
    → IsValid c
    → c.x_cap ≡ p.seq_backtrack
    → (p' : Rec) × (c' : CircList ℕ) × (add_from now p first c pin ≡ some p')
      × Added now p first c pin p' c'
unfolding add_from
add_from_lem now p first c pin ready ok cap =
    let n = pin.id - first in
    let (c1, e1, up) = catch_up_lem n first c ok in
    let (c2, e2, marked) = mark_lem now (first + n - pin.id) c1 up.valid in
    (
      record p { id = first + n; seq_list = some c2 },
      c2,
      ground (arith, e1, e2),
      record {
        window = record {
          ready = ready;
          has_list = refl;
          valid = marked.valid;
          cap = omega (arith, marked.same_cap, up.same_cap);
        };
        time = refl;
        id = refl;
        size = omega (arith, marked.same_size, up.size);
        here = λ h k. marked.here (omega (arith, marked.same_size)) k;
        between = λ i h k ne. ground (arith, marked.same_size, marked.there i, up.unseen i);
        older = λ i h ne. ground (arith, marked.same_size, marked.there (n + i), up.older i);
        same_backtrack = refl;
        same_time_backtrack = refl;
      },
    )

-- The two ways of packet_id_add: a new sequence, or the old one continued.
pub data AddCase (now : ℕ) (p : Rec) (c : CircList ℕ) (pin : Net) (p' : Rec) (c' : CircList ℕ)
    : Type 0 where
  restarted :
      starts_sequence p c pin ≡ true
      → Added now (record p { time = pin.time }) (pin.id - p.seq_backtrack) (reset c) pin p' c'
      → AddCase now p c pin p' c'
  continued :
      starts_sequence p c pin ≡ false → Added now p p.id c pin p' c' → AddCase now p c pin p' c'

module _ (now : ℕ) {p : Rec} {c : CircList ℕ} (w : IsWindow p c) (pin : Net) where
  add-add_window : add now p pin ≡ add_window now p c pin
  unfolding add
  add-add_window = ground (arith, w.has_list)

  truncated :
      (if ltb p.seq_backtrack pin.id then pin.id - p.seq_backtrack else 0)
      ≡ pin.id - p.seq_backtrack
  truncated = ground arith

  add_restarted :
      starts_sequence p c pin ≡ true
      → add now p pin
        ≡ add_from now (record p { time = pin.time }) (pin.id - p.seq_backtrack) (reset c) pin
  unfolding add_window
  add_restarted e = add-add_window ∙ rw e (rw truncated)

  add_continued : starts_sequence p c pin ≡ false → add now p pin ≡ add_from now p p.id c pin
  unfolding add_window
  add_continued e = add-add_window ∙ rw e

  cap-reset : c.x_cap ≡ p.seq_backtrack → (reset c).x_cap ≡ p.seq_backtrack
  unfolding reset
  cap-reset h = h

  -- packet_id_add never fails in backtrack mode.
  pub add_lem :
      (p' : Rec) × (c' : CircList ℕ) × (add now p pin ≡ some p') × AddCase now p c pin p' c'
  add_lem = elim (Bool-cases (starts_sequence p c pin)) [
    | inl e ↦
        (let (p', c', eq, a) =
            add_from_lem now (record p { time = pin.time }) (pin.id - p.seq_backtrack) (reset c) pin
              w.ready (reset-IsValid c w.valid) (cap-reset w.cap) in
          (p', c', add_restarted e ∙ eq, restarted e a))
    | inr e ↦
        (let (p', c', eq, a) = add_from_lem now p p.id c pin w.ready w.valid w.cap in
          (p', c', add_continued e ∙ eq, continued e a))
  ]
