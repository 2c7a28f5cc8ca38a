-- ===== src/Schedule/Heap.antt =====
-- The priorities: no entry has a smaller one than its parent, and rotations keep this.
use par_diff_vpn.Prelude.{
  ℕ, ◌≤◌, sym, subst, List, [], ◌∷◌, arith, ltb, Bool-cases, Option-cases, inl, inr,
}
use par_diff_vpn.Schedule.{
  Entry, Tree, leaf, node, Link, lt_of, gt_of, plug, remove_node, rise, find_node, take_out,
}
use par_diff_vpn.Schedule.Contents.{IsAt, find_node-IsAt}

-- The root of the tree, if there is one, has a priority of `n` or more.
abbrev pub AtLeast : ℕ → Tree → Type 0
AtLeast n leaf = Unit
AtLeast n (node l e g) = n ≤ e.pri

abbrev pub IsHeap : Tree → Type 0
IsHeap leaf = Unit
IsHeap (node l e g) = AtLeast e.pri l × AtLeast e.pri g × IsHeap l × IsHeap g

-- The parent of a place, if there is one, has a priority of `n` or less.
abbrev pub ParentAtMost : ℕ → List Link → Type 0
ParentAtMost n [] = Unit
ParentAtMost n (lt_of p g ∷ up) = p.pri ≤ n
ParentAtMost n (gt_of l p ∷ up) = p.pri ≤ n

-- A subtree whose root may stand below the parent of the place.
abbrev pub Fits : Tree → List Link → Type 0
Fits leaf up = Unit
Fits (node l e g) up = ParentAtMost e.pri up

abbrev pub UpIsHeap : List Link → Type 0
UpIsHeap [] = Unit
UpIsHeap (lt_of p g ∷ up) = AtLeast p.pri g × IsHeap g × ParentAtMost p.pri up × UpIsHeap up
UpIsHeap (gt_of l p ∷ up) = AtLeast p.pri l × IsHeap l × ParentAtMost p.pri up × UpIsHeap up

AtLeast-of : (p : Entry) (g t : Tree) (up : List Link) → Fits t (lt_of p g ∷ up) → AtLeast p.pri t
AtLeast-of p g leaf up h = tt
AtLeast-of p g (node l e r) up h = h

Fits-of : (p : Entry) (g t : Tree) (up : List Link) → AtLeast p.pri t → Fits t (lt_of p g ∷ up)
Fits-of p g leaf up h = tt
Fits-of p g (node l e r) up h = h

-- The same on the other side.
AtLeast-right :
    (l : Tree) (p : Entry) (t : Tree) (up : List Link) → Fits t (gt_of l p ∷ up) → AtLeast p.pri t
AtLeast-right l p leaf up h = tt
AtLeast-right l p (node a e r) up h = h

Fits-right :
    (l : Tree) (p : Entry) (t : Tree) (up : List Link) → AtLeast p.pri t → Fits t (gt_of l p ∷ up)
Fits-right l p leaf up h = tt
Fits-right l p (node a e r) up h = h

pub plug-IsHeap :
    (t : Tree) (up : List Link) → IsHeap t → UpIsHeap up → Fits t up → IsHeap (plug t up)
plug-IsHeap t [] h k f = h
plug-IsHeap t (lt_of p g ∷ up) h (a, hg, b, k) f =
    plug-IsHeap (node t p g) up (AtLeast-of p g t up f, a, h, hg) k b
plug-IsHeap t (gt_of l p ∷ up) h (a, hl, b, k) f =
    plug-IsHeap (node l p t) up (a, AtLeast-right l p t up f, hl, h) k b

-- A subtree of a heap, and the way up from it.
pub IsHeap-plug :
    (t : Tree) (up : List Link) → IsHeap (plug t up) → IsHeap t × UpIsHeap up × Fits t up
IsHeap-plug leaf [] h = (h, tt, tt)
IsHeap-plug (node l e g) [] h = (h, tt, tt)
IsHeap-plug t (lt_of p g ∷ up) h =
    let ((low, right, ht, hg), k, f) = IsHeap-plug (node t p g) up h in
    (ht, (right, hg, f, k), Fits-of p g t up low)
IsHeap-plug t (gt_of l p ∷ up) h =
    let ((left, low, hl, ht), k, f) = IsHeap-plug (node l p t) up h in
    (ht, (left, hl, f, k), Fits-right l p t up low)

AtLeast-trans : (m n : ℕ) (t : Tree) → m ≤ n → AtLeast n t → AtLeast m t
AtLeast-trans m n leaf h k = tt
AtLeast-trans m n (node l e g) h k = omega arith

ParentAtMost-Fits :
    (n : ℕ) (t : Tree) (up : List Link) → ParentAtMost n up → AtLeast n t → Fits t up
ParentAtMost-Fits n leaf up h k = tt
ParentAtMost-Fits n (node l e g) [] h k = tt
ParentAtMost-Fits n (node l e g) (lt_of p r ∷ up) h k = omega arith
ParentAtMost-Fits n (node l e g) (gt_of r p ∷ up) h k = omega arith

pub remove_node-IsHeap :
    (lt gt : Tree) (up : List Link)
    → IsHeap lt
    → IsHeap gt
    → UpIsHeap up
    → Fits lt up
    → Fits gt up
    → IsHeap (remove_node lt gt up)
unfolding remove_node
remove_node-IsHeap leaf leaf up hl hg k fl fg = plug-IsHeap leaf up tt k tt
remove_node-IsHeap (node a x b) leaf up (xa, xb, ha, hb) hg k fl fg =
    remove_node-IsHeap b leaf (gt_of a x ∷ up) hb tt (xa, ha, fl, k) (Fits-right a x b up xb) tt
remove_node-IsHeap leaf (node c y d) up hl (yc, yd, hc, hd) k fl fg =
    remove_node-IsHeap leaf c (lt_of y d ∷ up) tt hc (yd, hd, fg, k) tt (Fits-of y d c up yc)
remove_node-IsHeap (node a x b) (node c y d) up (xa, xb, ha, hb) (yc, yd, hc, hd) k fl fg =
    elim (Bool-cases (ltb x.pri y.pri)) [
      | inl less ↦
          (let le : x.pri ≤ y.pri = ground arith in
            rw (less, remove_node)
              (remove_node-IsHeap b (node c y d) (gt_of a x ∷ up) hb (yc, yd, hc, hd)
                (xa, ha, fl, k) (Fits-right a x b up xb) le))
      | inr more ↦
          (let le : y.pri ≤ x.pri = ground arith in
            rw (more, remove_node)
              (remove_node-IsHeap (node a x b) c (lt_of y d ∷ up) (xa, xb, ha, hb) hc
                (yd, hd, fg, k) le (Fits-of y d c up yc)))
    ]

pub rise-IsHeap :
    (lt : Tree) (e : Entry) (gt : Tree) (up : List Link)
    → IsHeap lt
    → IsHeap gt
    → AtLeast e.pri lt
    → AtLeast e.pri gt
    → UpIsHeap up
    → Fits lt up
    → Fits gt up
    → IsHeap (rise lt e gt up)
unfolding rise
rise-IsHeap lt e gt [] hl hg el eg k fl fg = (el, eg, hl, hg)
rise-IsHeap lt e gt (gt_of l p ∷ up) hl hg el eg (pl, hp, b, k) fl fg =
    elim (Bool-cases (ltb e.pri p.pri)) [
      | inl less ↦
          (let le : e.pri ≤ p.pri = ground arith in
            rw (less, rise)
              (rise-IsHeap (node l p lt) e gt up (pl, AtLeast-right l p lt up fl, hp, hl) hg le eg k
                b (ParentAtMost-Fits p.pri gt up b (AtLeast-right l p gt up fg))))
      | inr more ↦
          (let le : p.pri ≤ e.pri = ground arith in
            rw (more, rise)
              (plug-IsHeap (node lt e gt) (gt_of l p ∷ up) (el, eg, hl, hg) (pl, hp, b, k) le))
    ]
rise-IsHeap lt e gt (lt_of p g ∷ up) hl hg el eg (pg, hp, b, k) fl fg =
    elim (Bool-cases (ltb e.pri p.pri)) [
      | inl less ↦
          (let le : e.pri ≤ p.pri = ground arith in
            rw (less, rise)
              (rise-IsHeap lt e (node gt p g) up hl (AtLeast-of p g gt up fg, pg, hg, hp) el le k
                (ParentAtMost-Fits p.pri lt up b (AtLeast-of p g lt up fl)) b))
      | inr more ↦
          (let le : p.pri ≤ e.pri = ground arith in
            rw (more, rise)
              (plug-IsHeap (node lt e gt) (lt_of p g ∷ up) (el, eg, hl, hg) (pg, hp, b, k) le))
    ]

pub take_out-IsHeap : (root : Tree) (who : ℕ) → IsHeap root → IsHeap (take_out root who)
unfolding take_out
take_out-IsHeap root who h = elim (Option-cases (find_node who root [])) [
  | inl missing ↦ rw (missing, take_out) h
  | inr (n, found) ↦
      (let (whole, named) = subst (λ o. IsAt who root o) found (find_node-IsAt who root []) in
        let ((el, eg, hl, hg), k, f) =
          IsHeap-plug (node n.lt n.entry n.gt) n.up (subst (λ t. IsHeap t) (sym whole) h) in
        rw (found, take_out)
          (remove_node-IsHeap n.lt n.gt n.up hl hg k (ParentAtMost-Fits n.entry.pri n.lt n.up f el)
            (ParentAtMost-Fits n.entry.pri n.gt n.up f eg)))
]
