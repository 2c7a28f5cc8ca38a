-- ===== src/Fragment/Bits.antt =====
-- The map of the pieces received, bit by bit.
use par_diff_vpn.Prelude.{
  ℕ, zero, suc, ◌<◌, ◌≡◌, refl, Bool, true, false, ◌||◌, List, [], ◌∷◌, length, get_or, leb, ◌==◌,
  arith, Bool-cases, ap, replicate,
}
use par_diff_vpn.Fragment.{set_bit, set_from, all_set}

pub length-set_bit : (n : ℕ) (bs : List Bool) → length (set_bit n bs) ≡ length bs
unfolding set_bit
length-set_bit n [] = refl
length-set_bit zero (b ∷ bs) = refl
length-set_bit (suc n) (b ∷ bs) = ap suc (length-set_bit n bs)

pub length-set_from : (n : ℕ) (bs : List Bool) → length (set_from n bs) ≡ length bs
unfolding set_from
length-set_from n [] = refl
length-set_from zero (b ∷ bs) = ap suc (length-set_from zero bs)
length-set_from (suc n) (b ∷ bs) = ap suc (length-set_from n bs)

pub get_or-set_bit :
    (n i : ℕ) (bs : List Bool)
    → i < length bs
    → get_or (set_bit n bs) i false ≡ (n == i || get_or bs i false)
unfolding set_bit
get_or-set_bit n i [] h = absurd (omega arith)
get_or-set_bit zero zero (b ∷ bs) h = refl
get_or-set_bit zero (suc i) (b ∷ bs) h = ground arith
get_or-set_bit (suc n) zero (b ∷ bs) h = ground arith
get_or-set_bit (suc n) (suc i) (b ∷ bs) h = ground (arith, get_or-set_bit n i bs)

pub get_or-set_from :
    (n i : ℕ) (bs : List Bool)
    → i < length bs
    → get_or (set_from n bs) i false ≡ (leb n i || get_or bs i false)
unfolding set_from
get_or-set_from n i [] h = absurd (omega arith)
get_or-set_from zero zero (b ∷ bs) h = refl
get_or-set_from zero (suc i) (b ∷ bs) h = ground (arith, get_or-set_from zero i bs)
get_or-set_from (suc n) zero (b ∷ bs) h = ground arith
get_or-set_from (suc n) (suc i) (b ∷ bs) h = ground (arith, get_or-set_from n i bs)

pub all_set-true :
    (bs : List Bool) → all_set bs ≡ true → (i : ℕ) → i < length bs → get_or bs i false ≡ true
unfolding all_set
all_set-true [] e i h = absurd (omega arith)
all_set-true (b ∷ bs) e zero h = ground (arith, Bool-cases b)
all_set-true (b ∷ bs) e (suc i) h = all_set-true bs (ground (arith, Bool-cases b)) i (omega arith)

pub all_set_of :
    (bs : List Bool) → ((i : ℕ) → i < length bs → get_or bs i false ≡ true) → all_set bs ≡ true
unfolding all_set
all_set_of [] h = refl
all_set_of (b ∷ bs) h =
    ground (arith, h 0 (omega arith), all_set_of bs (λ i lt. h (suc i) (omega arith)))

pub get_or-replicate : (n i : ℕ) → get_or (replicate n false) i false ≡ false
get_or-replicate zero i = refl
get_or-replicate (suc n) zero = refl
get_or-replicate (suc n) (suc i) = get_or-replicate n i
