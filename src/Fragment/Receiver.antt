-- ===== src/Fragment/Receiver.antt =====
-- The receiver's slots, and fragment_list_get_buf for any sequence id.
use par_diff_vpn.Prelude.{
  ℕ, zero, suc, ◌+◌, ◌≤◌, ◌<◌, ◌≡◌, refl, ap, ◌∙◌, subst, none, some, List, [], ◌∷◌, length,
  length-set, map, get_elem?, get_elem?_total, set, arith, leb, Bool-cases, Option-cases, inl, inr,
}
use par_diff_vpn.Prelude.Int.{ℤ, pos, negsuc, pos_part, neg_part}
use par_diff_vpn.Integer.{modulo_add, modulo_subtract}
use par_diff_vpn.Integer.Laws.{forward, modulo_add-forward}
use par_diff_vpn.Buffer.Contents.{IsOver}
use par_diff_vpn.Frame
use par_diff_vpn.Frame.{Frame, headroom}
use par_diff_vpn.Fragment.{Slot, FragmentList, get_buf, advance_to, forget}

-- A slot whose memory has room for the headroom.
abbrev pub IsSlot : Frame → Slot → Type 0
IsSlot frame frag =
    (d : List ℕ) × IsOver frag.buf d × (headroom frame (some Frame.fragment) ≤ frag.buf.capacity)

abbrev pub AreSlots : Frame → List Slot → Type 0
AreSlots frame [] = Unit
AreSlots frame (frag ∷ frags) = IsSlot frame frag × AreSlots frame frags

pub record IsList (frame : Frame) (list : FragmentList) : Type 0 where
  pub small : list.seq_id < 256
  pub index_small : list.index < 25
  pub slots : length list.fragments ≡ 25
  pub all : AreSlots frame list.fragments

forward_lt : (x n : ℕ) → x < n → forward x 1 n < n
forward_lt x n h = ground arith

modulo_subtract-none :
    (x y : ℕ) → x < 256 → y < 256 → modulo_subtract (pos x) (pos y) (pos 256) ≡ none → ⊥
unfolding modulo_subtract
modulo_subtract-none x y hx hy e = ground arith

modulo_add-none :
    (x : ℕ) (d : ℤ)
    → x < 25
    → pos_part d + neg_part d < 25
    → modulo_add (pos x) d (pos 25) ≡ none
    → ⊥
unfolding modulo_add
modulo_add-none x (pos d) hx hd e = ground arith
modulo_add-none x (negsuc d) hx hd e = ground arith

modulo_add_bound :
    (x : ℕ) (d i : ℤ)
    → x < 25
    → pos_part d + neg_part d < 25
    → modulo_add (pos x) d (pos 25) ≡ some i
    → pos_part i < 25
unfolding modulo_add
modulo_add_bound x (pos d) i hx hd e = ground arith
modulo_add_bound x (negsuc d) i hx hd e = ground arith

modulo_add_total :
    (x : ℕ) (d : ℤ)
    → x < 25
    → pos_part d + neg_part d < 25
    → (i : ℤ) × (modulo_add (pos x) d (pos 25) ≡ some i) × (pos_part i < 25)
modulo_add_total x d hx hd = elim (Option-cases (modulo_add (pos x) d (pos 25))) [
  | inl failed ↦ absurd (modulo_add-none x d hx hd failed)
  | inr (i, e) ↦ (i, e, modulo_add_bound x d i hx hd e)
]

module _ (frame : Frame) where
  pub get-AreSlots :
      (frags : List Slot) (i : ℕ) (frag : Slot)
      → AreSlots frame frags
      → get_elem? frags i ≡ some frag
      → IsSlot frame frag
  get-AreSlots [] i frag h e = absurd (cc)
  get-AreSlots (x ∷ frags) zero frag h e =
      (let q : x ≡ frag = cc in subst (λ t. IsSlot frame t) q h.0)
  get-AreSlots (x ∷ frags) (suc i) frag h e = get-AreSlots frags i frag h.1 e

  pub set-AreSlots :
      (frags : List Slot) (i : ℕ) (frag : Slot)
      → AreSlots frame frags
      → IsSlot frame frag
      → AreSlots frame (set frags i frag)
  set-AreSlots [] i frag h s = tt
  set-AreSlots (x ∷ frags) zero frag h s = (s, h.1)
  set-AreSlots (x ∷ frags) (suc i) frag h s = (h.0, set-AreSlots frags i frag h.1 s)

  forget-AreSlots :
      (frags : List Slot)
      → AreSlots frame frags
      → (length (map forget frags) ≡ length frags) × AreSlots frame (map forget frags)
  unfolding forget
  forget-AreSlots [] h = (refl, tt)
  forget-AreSlots (x ∷ frags) h =
      (let (same, all) = forget-AreSlots frags h.1 in (ap suc same, (h.0, all)))

  advance_to-IsList :
      (k : ℕ) (list : FragmentList)
      → IsList frame list
      → (list' : FragmentList) × (advance_to k list ≡ some list') × IsList frame list'
  unfolding advance_to forget
  advance_to-IsList zero list h = (list, refl, h)
  advance_to-IsList (suc k) list h =
      let i = modulo_add-forward list.index 1 25 h.index_small (omega arith) in
      let s = modulo_add-forward list.seq_id 1 256 h.small (omega arith) in
      let lt = forward_lt list.index 25 h.index_small in
      let (frag, found) =
        get_elem?_total list.fragments (forward list.index 1 25) (omega (arith, h.slots)) in
      let list1 : FragmentList = record {
        seq_id = forward list.seq_id 1 256;
        index = forward list.index 1 25;
        fragments = set list.fragments (forward list.index 1 25) (forget frag);
      } in
      let h1 : IsList frame list1 = record {
        small = forward_lt list.seq_id 256 h.small;
        index_small = lt;
        slots = length-set list.fragments (forward list.index 1 25) (forget frag) ∙ h.slots;
        all =
            set-AreSlots list.fragments (forward list.index 1 25) (forget frag) h.all
              (get-AreSlots list.fragments (forward list.index 1 25) frag h.all found);
      } in
      let (list', done, h') = advance_to-IsList k list1 h1 in (list', rw (i, s, found) done, h')

  pub get_buf-IsList :
      (list : FragmentList) (seq : ℕ)
      → IsList frame list
      → seq < 256
      → (i : ℕ) × (list' : FragmentList) × (get_buf list seq ≡ some (i, list'))
        × (i < 25)
        × IsList frame list'
  unfolding get_buf
  get_buf-IsList list seq h small =
      elim (Option-cases (modulo_subtract (pos seq) (pos list.seq_id) (pos 256))) [
        | inl failed ↦ absurd (modulo_subtract-none seq list.seq_id small h.small failed)
        | inr (d, e) ↦ elim (Bool-cases (leb 25 (pos_part d + neg_part d))) [
          | inl far ↦
              (let (same, all) = forget-AreSlots list.fragments h.all in
                let start : FragmentList = record {
                  seq_id = seq;
                  index = 0;
                  fragments = map forget list.fragments;
                } in
                let start-IsList : IsList frame start = record {
                  small = small;
                  index_small = omega arith;
                  slots = same ∙ h.slots;
                  all = all;
                } in
                let (list', done, h') = advance_to-IsList 0 start start-IsList in
                let (i, at, lt) =
                  modulo_add_total list'.index (pos 0) h'.index_small (omega arith) in
                (pos_part i, list', rw (e, far, done, at), lt, h'))
          | inr near ↦
              (let (list', done, h') = advance_to-IsList (pos_part d) list h in
                elim (Bool-cases (leb (pos_part d) 0)) [
                  | inl behind ↦
                      (let (i, at, lt) =
                          modulo_add_total list'.index d h'.index_small (ground (arith, near)) in
                        (pos_part i, list', rw (e, near, done, behind, at), lt, h'))
                  | inr ahead ↦
                      (let (i, at, lt) =
                          modulo_add_total list'.index (pos 0) h'.index_small (omega arith) in
                        (pos_part i, list', rw (e, near, done, ahead, at), lt, h'))
                ])
        ]
      ]
