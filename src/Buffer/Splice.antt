-- ===== src/Buffer/Splice.antt =====
-- Copying into memory, and taking out again.
use par_diff_vpn.Prelude.{
  ℕ, zero, suc, ◌+◌, ◌-◌, ◌≤◌, ◌≡◌, refl, List, [], ◌∷◌, ◌++◌, length, length-drop, take, drop,
  arith, ap, sym, ◌∙◌,
}
use mathlib.Core.List.{append-nil}
use par_diff_vpn.Buffer.{splice}

pub length-splice : (d : List ℕ) (p : ℕ) (s : List ℕ) → length (splice d p s) ≡ length d
unfolding splice
length-splice [] p s = refl
length-splice (x ∷ d) zero [] = refl
length-splice (x ∷ d) zero (y ∷ s) = ap suc (length-splice d zero s)
length-splice (x ∷ d) (suc p) s = ap suc (length-splice d p s)

pub splice-nil : (d : List ℕ) (p : ℕ) → splice d p [] ≡ d
unfolding splice
splice-nil [] p = refl
splice-nil (x ∷ d) zero = refl
splice-nil (x ∷ d) (suc p) = ap (λ t. x ∷ t) (splice-nil d p)

pub drop-splice :
    (d : List ℕ) (o p : ℕ) (s : List ℕ) → drop o (splice d (o + p) s) ≡ splice (drop o d) p s
unfolding splice
drop-splice d zero p s = let e : 0 + p ≡ p = omega arith in rw e
drop-splice [] (suc o) p s = refl
drop-splice (x ∷ d) (suc o) p s =
    let e : suc o + p ≡ suc (o + p) = omega arith in rw e (drop-splice d o p s)

-- What stands at the start after a copy to the start.
pub take-splice_zero :
    (d s : List ℕ) (k : ℕ)
    → length s ≤ length d
    → take (length s + k) (splice d 0 s) ≡ s ++ take k (drop (length s) d)
unfolding splice
take-splice_zero [] [] k h = let e : 0 + k ≡ k = omega arith in rw e
take-splice_zero [] (y ∷ s) k h = absurd (omega arith)
take-splice_zero (x ∷ d) [] k h = let e : 0 + k ≡ k = omega arith in rw e
take-splice_zero (x ∷ d) (y ∷ s) k h =
    let e : suc (length s) + k ≡ suc (length s + k) = omega arith in
    rw e (ap (λ t. y ∷ t) (take-splice_zero d s k (omega arith)))

-- A copy behind the first `n` bytes appends to them.
pub take-splice_append :
    (d s : List ℕ) (n : ℕ)
    → n + length s ≤ length d
    → take (n + length s) (splice d n s) ≡ take n d ++ s
unfolding splice
take-splice_append d s zero h =
    let e : 0 + length s ≡ length s + 0 = omega arith in
    rw e (take-splice_zero d s 0 (omega arith) ∙ append-nil s)
take-splice_append [] s (suc n) h = absurd (omega arith)
take-splice_append (x ∷ d) s (suc n) h =
    let e : suc n + length s ≡ suc (n + length s) = omega arith in
    rw e (ap (λ t. x ∷ t) (take-splice_append d s n (omega arith)))

pub drop-drop : (d : List ℕ) (m n : ℕ) → drop n (drop m d) ≡ drop (m + n) d
drop-drop d zero n = let e : 0 + n ≡ n = omega arith in rw e
drop-drop [] (suc m) zero = let e : suc m + 0 ≡ suc m = omega arith in rw e
drop-drop [] (suc m) (suc n) = let e : suc m + suc n ≡ suc (m + suc n) = omega arith in rw e
drop-drop (x ∷ d) (suc m) n =
    let e : suc m + n ≡ suc (m + n) = omega arith in rw e (drop-drop d m n)

pub take-take : (d : List ℕ) (m n : ℕ) → n ≤ m → take n (take m d) ≡ take n d
take-take d m zero h = refl
take-take d zero (suc n) h = absurd (omega arith)
take-take [] (suc m) (suc n) h = refl
take-take (x ∷ d) (suc m) (suc n) h = ap (λ t. x ∷ t) (take-take d m n (omega arith))

pub take-nil : (n : ℕ) → take {A = ℕ} n [] ≡ []
take-nil zero = refl
take-nil (suc n) = refl

pub drop-take : (d : List ℕ) (m n : ℕ) → drop n (take m d) ≡ take (m - n) (drop n d)
drop-take d m zero = let e : m - 0 ≡ m = omega arith in rw e
drop-take d zero (suc n) = let e : 0 - suc n ≡ 0 = omega arith in rw e
drop-take [] (suc m) (suc n) =
    let e : suc m - suc n ≡ m - n = omega arith in rw e (sym (take-nil (m - n)))
drop-take (x ∷ d) (suc m) (suc n) =
    let e : suc m - suc n ≡ m - n = omega arith in rw e (drop-take d m n)

-- What stands from `p` on after a copy to `p`.
pub slice-splice_self :
    (d s : List ℕ) (p n : ℕ)
    → p + length s ≤ length d
    → take (n + length s) (drop p (splice d p s)) ≡ s ++ take n (drop (p + length s) d)
slice-splice_self d s p n h =
    let e : p ≡ p + 0 = omega arith in
    let f : n + length s ≡ length s + n = omega arith in
    let g : drop p (splice d p s) ≡ splice (drop p d) 0 s =
      ap (λ k. drop p (splice d k s)) e ∙ drop-splice d p 0 s in
    rw (g, f)
      (take-splice_zero (drop p d) s n (omega (arith, length-drop p d))
        ∙ ap (λ t. s ++ take n t) (drop-drop d p (length s)))
