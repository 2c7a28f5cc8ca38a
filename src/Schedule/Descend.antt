-- ===== src/Schedule/Descend.antt =====
-- The way down of schedule_insert: where it ends, and when it does not.
use Prim.Native.Nat.{Ordering}
use par_diff_vpn.Prelude.{
  ℕ, ◌≡◌, refl, ap, subst, Bool, true, false, ◌||◌, none, some, List, [], ◌∷◌, ◌++◌, arith, ◌==◌,
  Bool-cases, ◌⊎◌, inl, inr,
}
use par_diff_vpn.Schedule.{Entry, Tree, leaf, node, Link, lt_of, gt_of, compare, plug, descend}
use par_diff_vpn.Schedule.Order.{
  Before, compare-gt, AllAfter, AllBefore, AllAfter-append, AllBefore-append, AllAfter-trans,
  AllBefore-trans, IsSorted, sorted-around, AllAfter-split,
}
use par_diff_vpn.Schedule.Contents.{inorder, before, after}

Ordering-cases : (o : Ordering) → (o ≡ Ordering.lt) ⊎ (o ≡ Ordering.gt) ⊎ (o ≡ Ordering.eq)
Ordering-cases Ordering.lt = inl refl
Ordering-cases Ordering.gt = inr (inl refl)
Ordering-cases Ordering.eq = inr (inr refl)

-- Whether the priority `n` is that of an entry of the list.
abbrev pub uses : ℕ → List Entry → Bool
uses n [] = false
uses n (x ∷ xs) = (x.pri == n) || uses n xs

uses-append_left : (n : ℕ) (xs ys : List Entry) → uses n xs ≡ true → uses n (xs ++ ys) ≡ true
uses-append_left n [] ys h = absurd (cc)
uses-append_left n (x ∷ xs) ys h = ground (arith, uses-append_left n xs ys, Bool-cases (uses n xs))

uses-append_right : (n : ℕ) (xs ys : List Entry) → uses n ys ≡ true → uses n (xs ++ ys) ≡ true
uses-append_right n [] ys h = h
uses-append_right n (x ∷ xs) ys h = ground (arith, uses-append_right n xs ys h)

pub uses-skip :
    (n : ℕ) (x : Entry) (xs ys : List Entry)
    → uses n (xs ++ ys) ≡ true
    → uses n (xs ++ (x ∷ ys)) ≡ true
uses-skip n x [] ys h = ground arith
uses-skip n x (z ∷ xs) ys h = ground (arith, uses-skip n x xs ys, Bool-cases (uses n (xs ++ ys)))

compare-eq : (a b : Entry) → compare a b ≡ Ordering.eq → b.pri ≡ a.pri
unfolding compare
compare-eq a b h = ground arith

-- Where the way down ends, the tree is the same.
pub descend-plug :
    (e : Entry) (t : Tree) (up : List Link) {up' : List Link}
    → descend e t up ≡ some up'
    → plug leaf up' ≡ plug t up
unfolding descend
descend-plug e leaf up {up'} h = (let q : up' ≡ up = cc in ap (λ u. plug leaf u) q)
descend-plug e (node l c g) up h = elim (Ordering-cases (compare e c)) [
  | inl low ↦ descend-plug e l (lt_of c g ∷ up) (rw (low, descend) at h)
  | inr (inl high) ↦ descend-plug e g (gt_of l c ∷ up) (rw (high, descend) at h)
  | inr (inr same) ↦ (let q = rw (same, descend) at h in absurd (cc))
]

pub IsSorted-parts :
    (c : Entry) (xs ys : List Entry) → IsSorted (xs ++ (c ∷ ys)) → IsSorted xs × IsSorted ys
IsSorted-parts c [] ys h = (tt, h.1)
IsSorted-parts c (x ∷ xs) ys h =
    (let r = IsSorted-parts c xs ys h.1 in (((AllAfter-split x xs (c ∷ ys) h.0).0, r.0), r.1))

-- Where it ends, everything on the left is before the entry and everything on the right after it.
pub descend-between :
    (e : Entry) (t : Tree) (up : List Link) {up' : List Link}
    → descend e t up ≡ some up'
    → IsSorted (inorder t)
    → AllBefore e (before up)
    → AllAfter e (after up)
    → AllBefore e (before up') × AllAfter e (after up')
unfolding descend
descend-between e leaf up {up'} h s b a =
    (let q : up ≡ up' = cc in subst (λ u. AllBefore e (before u) × AllAfter e (after u)) q (b, a))
descend-between e (node l c g) up h s b a =
    let (sl, sg) = IsSorted-parts c (inorder l) (inorder g) s in
    let (left, right) = sorted-around c (inorder l) (inorder g) s in
    elim (Ordering-cases (compare e c)) [
      | inl low ↦ descend-between e l (lt_of c g ∷ up) (rw (low, descend) at h) sl b (
        low,
        AllAfter-append e (inorder g) (after up) (AllAfter-trans e c (inorder g) low right) a,
      )
      | inr (inl high) ↦
          (let above : Before c e = compare-gt e c high in
            descend-between e g (gt_of l c ∷ up) (rw (high, descend) at h) sg
              (AllBefore-append e (before up) (inorder l ++ (c ∷ [])) b (
                AllBefore-append e (inorder l) (c ∷ []) (AllBefore-trans c e (inorder l) above left)
                  (above, tt)))
              a)
      | inr (inr same) ↦ (let q = rw (same, descend) at h in absurd (cc))
    ]

-- The way down fails only at an entry with the same priority.
pub descend-uses :
    (e : Entry) (t : Tree) (up : List Link) → descend e t up ≡ none → uses e.pri (inorder t) ≡ true
unfolding descend
descend-uses e leaf up h = absurd (cc)
descend-uses e (node l c g) up h = elim (Ordering-cases (compare e c)) [
  | inl low ↦
      uses-append_left e.pri (inorder l) (c ∷ inorder g)
        (descend-uses e l (lt_of c g ∷ up) (rw (low, descend) at h))
  | inr (inl high) ↦
      uses-append_right e.pri (inorder l) (c ∷ inorder g)
        (let r = descend-uses e g (gt_of l c ∷ up) (rw (high, descend) at h) in ground arith)
  | inr (inr same) ↦
      uses-append_right e.pri (inorder l) (c ∷ inorder g)
        (let r = compare-eq e c same in ground arith)
]
