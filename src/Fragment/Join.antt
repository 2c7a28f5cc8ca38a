-- ===== src/Fragment/Join.antt =====
-- fragment_incoming on the pieces of one datagram, in any order and with repeats.
use par_diff_vpn.Prelude.{
  ℕ, zero, suc, ◌+◌, ◌%◌, ◌≤◌, ◌≡◌, refl, sym, ap, ◌∙◌, true, false, Option, some, List, [], ◌∷◌,
  length, arith, ◌==◌, Bool-cases, inl, inr, ◌⊎◌, ◌>>=◌, replicate,
}
use par_diff_vpn.Buffer
use par_diff_vpn.Buffer.{Buffer, contents}
use par_diff_vpn.Buffer.Contents.{IsOver}
use par_diff_vpn.Frame
use par_diff_vpn.Frame.{Frame, headroom}
use par_diff_vpn.Fragment.{Slot, ready, fill_slot, emptied}
use par_diff_vpn.Fragment.Bits.{get_or-replicate}
use par_diff_vpn.Fragment.Pieces.{piece}
use par_diff_vpn.Fragment.Assemble.{has, IsCut, IsPartial}
use par_diff_vpn.Fragment.Stored.{covers, stored}

-- A piece as it comes in: the time, its number, and its bytes.
pub record Arrival : Type 0 where
  pub at_time : ℕ
  pub number : ℕ
  pub body : Buffer

-- The pieces that come in one after the other: the slot, and what is handed on for each.
unfoldable pub fill_all : Frame → ℕ → ℕ → List Arrival → Slot → Option (Slot × List Buffer)
fill_all frame s m [] frag = some (frag, [])
fill_all frame s m (a ∷ rest) frag = do
  r ← fill_slot a.at_time frame (a.number == m) a.number s a.body frag
  rest_r ← fill_all frame s m rest (r.0)
  some (rest_r.0, r.1 ∷ rest_r.1)

-- The numbers of the pieces, the latest first, in front of those before.
abbrev pub numbers : List ℕ → List Arrival → List ℕ
numbers R [] = R
numbers R (a ∷ rest) = numbers (a.number ∷ R) rest

abbrev pub IsPiece : List ℕ → ℕ → ℕ → Arrival → Type 0
IsPiece p s m a =
    (a.number ≤ m) × (sd : List ℕ) × IsOver a.body sd × (contents a.body ≡ piece p s a.number)

abbrev pub ArePieces : List ℕ → ℕ → ℕ → List Arrival → Type 0
ArePieces p s m [] = Unit
ArePieces p s m (a ∷ rest) = IsPiece p s m a × ArePieces p s m rest

-- Nothing is handed on.
abbrev pub AreEmpty : List Buffer → Type 0
AreEmpty [] = Unit
AreEmpty (b ∷ bs) = (b.len ≡ 0) × AreEmpty bs

-- A slot that the pieces of another datagram have left, with room for this one.
pub record IsFreeFor (frame : Frame) (p : List ℕ) (frag : Slot) (d : List ℕ) : Type 0 where
  pub free : frag.is_defined ≡ false
  pub memory : IsOver frag.buf d
  pub room : headroom frame (some Frame.fragment) + length p ≤ frag.buf.capacity

covers-cons : (k n : ℕ) (R : List ℕ) → covers k (n ∷ R) ≡ false → covers k R ≡ false
covers-cons zero n R h = h
covers-cons (suc k) n R h =
    ground (arith, covers-cons k n R, Bool-cases (has k R), Bool-cases (covers k (n ∷ R)))

covers-numbers :
    (k : ℕ) (R : List ℕ) (before : List Arrival)
    → covers k (numbers R before) ≡ false
    → covers k R ≡ false
covers-numbers k R [] h = h
covers-numbers k R (a ∷ rest) h = covers-cons k a.number R (covers-numbers k (a.number ∷ R) rest h)

nothing-has : (R : List ℕ) (n : ℕ) → R ≡ [] → has n R ≡ true → ⊥
nothing-has R n e r = (let q : has n [] ≡ true = ap (λ t. has n t) (sym e) ∙ r in cc)

module _ {p : List ℕ} {s m : ℕ} (cut : IsCut p s m) (frame : Frame) (even : s % 4 ≡ 0) where
  -- The slot is in use for this datagram, or still free.
  abbrev Stage : List ℕ → Slot → List ℕ → Type 0
  Stage R frag d =
      IsPartial p s m (headroom frame (some Frame.fragment)) R frag d
      ⊎ ((R ≡ []) × IsFreeFor frame p frag d)

  ready-IsPartial :
      (R : List ℕ) (frag : Slot) (d : List ℕ)
      → Stage R frag d
      → (frag1 : Slot) × (ready frame s frag ≡ some frag1)
        × IsPartial p s m (headroom frame (some Frame.fragment)) R frag1 d
  unfolding ready Buffer.init
  ready-IsPartial R frag d (inl h) = (frag, ground (arith, h.in_use, h.same_size), h)
  ready-IsPartial R frag d (inr (none_yet, h)) =
      let frag1 : Slot = record frag {
        is_defined = true;
        max_frag_size = s;
        received = replicate 32 false;
        buf = record (frag.buf) { len = 0; offset = headroom frame (some Frame.fragment) };
      } in
      (
        frag1,
        ground (arith, h.free, h.room, h.memory.memory),
        record {
          in_use = refl;
          same_size = refl;
          width = refl;
          bits = λ i lt. rw none_yet (get_or-replicate 32 i);
          memory = record {
            memory = h.memory.memory;
            size = h.memory.size;
            within = omega (arith, h.room);
          };
          place = refl;
          room = h.room;
          bytes = λ n x r low high short. absurd (nothing-has R n none_yet r);
          not_longer = omega arith;
          to_the_end = λ r. absurd (nothing-has R m none_yet r);
        },
      )

  step :
      (R : List ℕ) (frag : Slot) (d : List ℕ) (a : Arrival)
      → Stage R frag d
      → IsPiece p s m a
      → ((covers (suc m) (a.number ∷ R) ≡ true)
          × (frag' : Slot) × (b : Buffer) × (fill_slot a.at_time frame
                (a.number == m)
                a.number
                s
                a.body
                frag
              ≡ some (frag', b))
          × (contents b ≡ p))
        ⊎ ((covers (suc m) (a.number ∷ R) ≡ false)
            × (frag' : Slot) × (d' : List ℕ) × (fill_slot a.at_time frame
                  (a.number == m)
                  a.number
                  s
                  a.body
                  frag
                ≡ some (frag', emptied a.body))
            × IsPartial p s m (headroom frame (some Frame.fragment)) (a.number ∷ R) frag' d')
  unfolding fill_slot
  step R frag d a h (le, sd, v, e) =
      let (frag1, readied, part) = ready-IsPartial R frag d h in
      elim (stored cut a.at_time (headroom frame (some Frame.fragment)) a.number R frag1 _ a.body sd
        part le v e) [
          | inl (full, frag', b, done, same) ↦
              inl (full, frag', b, rw (fill_slot, even, readied, done), same)
          | inr (missing, frag', d', done, part') ↦
              inr (missing, frag', d', rw (fill_slot, even, readied, done), part')
        ]

  -- Until every piece has come, nothing is handed on.
  waits :
      (R : List ℕ) (frag : Slot) (d : List ℕ) (before : List Arrival)
      → Stage R frag d
      → ArePieces p s m before
      → covers (suc m) (numbers R before) ≡ false
      → (frag' : Slot) × (d' : List ℕ) × (outs : List Buffer) × (fill_all frame s m before frag
          ≡ some (frag', outs))
        × AreEmpty outs
        × Stage (numbers R before) frag' d'
  unfolding fill_all
  waits R frag d [] h ps missing = (frag, d, [], refl, tt, h)
  waits R frag d (a ∷ rest) h ps missing = elim (step R frag d a h ps.0) [
    | inl done ↦
        (let full = done.0 in
          let early : covers (suc m) (a.number ∷ R) ≡ false =
            covers-numbers (suc m) (a.number ∷ R) rest missing in
          absurd (cc))
    | inr (_, frag1, d1, done, part) ↦
        (let (frag', d', outs, all, empty, stage) =
            waits (a.number ∷ R) frag1 d1 rest (inl part) ps.1 missing in
          (frag', d', emptied a.body ∷ outs, rw (done, all), (refl, empty), stage))
  ]

  pub joins :
      (before : List Arrival) (a : Arrival) (frag : Slot) (d : List ℕ)
      → IsFreeFor frame p frag d
      → ArePieces p s m before
      → IsPiece p s m a
      → covers (suc m) (numbers [] before) ≡ false
      → covers (suc m) (a.number ∷ numbers [] before) ≡ true
      → (frag1 : Slot) × (outs : List Buffer) × (frag2 : Slot) × (out : Buffer) × (fill_all frame s
            m before frag
          ≡ some (frag1, outs))
        × AreEmpty outs
        × (fill_slot a.at_time frame (a.number == m) a.number s a.body frag1 ≡ some (frag2, out))
        × (contents out ≡ p)
  joins before a frag d h ps q missing full =
      let (frag1, d1, outs, all, empty, stage) =
        waits [] frag d before (inr (refl, h)) ps missing in
      elim (step (numbers [] before) frag1 d1 a stage q) [
        | inl (_, frag2, out, done, same) ↦ (frag1, outs, frag2, out, all, empty, done, same)
        | inr other ↦ (let gap = other.0 in absurd (cc))
      ]
