-- ===== src/Buffer/Bytes.antt =====
-- The bytes of memory by their index, before and after a copy.
use par_diff_vpn.Prelude.{
  ℕ, zero, suc, ◌+◌, ◌-◌, ◌≤◌, ◌<◌, ◌≡◌, refl, ap, ◌∙◌, none, List, [], ◌∷◌, length, take, drop,
  get_elem?, arith, length-take, length-drop, min,
}
use par_diff_vpn.Buffer.{splice, slice}

pub get_elem?-drop : (d : List ℕ) (o i : ℕ) → get_elem? (drop o d) i ≡ get_elem? d (o + i)
get_elem?-drop d zero i = let e : 0 + i ≡ i = omega arith in rw e
get_elem?-drop [] (suc o) i = refl
get_elem?-drop (x ∷ d) (suc o) i =
    let e : suc o + i ≡ suc (o + i) = omega arith in rw e (get_elem?-drop d o i)

pub get_elem?-take : (d : List ℕ) (n i : ℕ) → i < n → get_elem? (take n d) i ≡ get_elem? d i
get_elem?-take d zero i h = absurd (omega arith)
get_elem?-take [] (suc n) i h = refl
get_elem?-take (x ∷ d) (suc n) zero h = refl
get_elem?-take (x ∷ d) (suc n) (suc i) h = get_elem?-take d n i (omega arith)

pub get_elem?-slice :
    (d : List ℕ) (o n i : ℕ) → i < n → get_elem? (slice d o n) i ≡ get_elem? d (o + i)
get_elem?-slice d o n i h = get_elem?-take (drop o d) n i h ∙ get_elem?-drop d o i

pub get_elem?-past : (d : List ℕ) (i : ℕ) → length d ≤ i → get_elem? d i ≡ none
get_elem?-past [] i h = refl
get_elem?-past (x ∷ d) zero h = absurd (omega arith)
get_elem?-past (x ∷ d) (suc i) h = get_elem?-past d i (omega arith)

pub get_elem?-splice_in :
    (d : List ℕ) (at_ : ℕ) (src : List ℕ) (j : ℕ)
    → at_ + length src ≤ length d
    → j < length src
    → get_elem? (splice d at_ src) (at_ + j) ≡ get_elem? src j
unfolding splice
get_elem?-splice_in [] at_ src j h k = absurd (omega arith)
get_elem?-splice_in (x ∷ d) zero [] j h k = absurd (omega arith)
get_elem?-splice_in (x ∷ d) zero (y ∷ src) zero h k = refl
get_elem?-splice_in (x ∷ d) zero (y ∷ src) (suc j) h k =
    let e : 0 + suc j ≡ suc (0 + j) = omega arith in
    rw e (get_elem?-splice_in d 0 src j (omega arith) (omega arith))
get_elem?-splice_in (x ∷ d) (suc at_) src j h k =
    let e : suc at_ + j ≡ suc (at_ + j) = omega arith in
    rw e (get_elem?-splice_in d at_ src j (omega arith) k)

pub get_elem?-splice_before :
    (d : List ℕ) (at_ : ℕ) (src : List ℕ) (i : ℕ)
    → i < at_
    → get_elem? (splice d at_ src) i ≡ get_elem? d i
unfolding splice
get_elem?-splice_before [] at_ src i h = refl
get_elem?-splice_before (x ∷ d) zero src i h = absurd (omega arith)
get_elem?-splice_before (x ∷ d) (suc at_) src zero h = refl
get_elem?-splice_before (x ∷ d) (suc at_) src (suc i) h =
    get_elem?-splice_before d at_ src i (omega arith)

pub get_elem?-splice_after :
    (d : List ℕ) (at_ : ℕ) (src : List ℕ) (i : ℕ)
    → at_ + length src ≤ i
    → get_elem? (splice d at_ src) i ≡ get_elem? d i
unfolding splice
get_elem?-splice_after [] at_ src i h = refl
get_elem?-splice_after (x ∷ d) zero [] i h = refl
get_elem?-splice_after (x ∷ d) zero (y ∷ src) zero h = absurd (omega arith)
get_elem?-splice_after (x ∷ d) zero (y ∷ src) (suc i) h =
    get_elem?-splice_after d 0 src i (omega arith)
get_elem?-splice_after (x ∷ d) (suc at_) src zero h = absurd (omega arith)
get_elem?-splice_after (x ∷ d) (suc at_) src (suc i) h =
    get_elem?-splice_after d at_ src i (omega arith)

-- Lists of one length that agree at each index are equal.
pub list_ext :
    (xs ys : List ℕ)
    → length xs ≡ length ys
    → ((i : ℕ) → i < length ys → get_elem? xs i ≡ get_elem? ys i)
    → xs ≡ ys
list_ext [] [] e h = refl
list_ext [] (y ∷ ys) e h = absurd (omega arith)
list_ext (x ∷ xs) [] e h = absurd (omega arith)
list_ext (x ∷ xs) (y ∷ ys) e h =
    let head : x ≡ y = (let k = h 0 (omega arith) in cc) in
    rw head (ap (λ t. y ∷ t) (list_ext xs ys (omega arith) (λ i lt. h (suc i) (omega arith))))

pub length-slice-min : (d : List ℕ) (o n : ℕ) → length (slice d o n) ≡ min n (length d - o)
length-slice-min d o n = length-take n (drop o d) ∙ ap (λ k. min n k) (length-drop o d)
