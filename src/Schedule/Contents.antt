-- ===== src/Schedule/Contents.antt =====
-- The entries of the tree from the left to the right: what each operation does to that list.
use mathlib.Core.List.{append-nil, append_assoc}
use par_diff_vpn.Prelude.{
  ℕ, ◌≡◌, refl, sym, ap, ◌∙◌, subst, false, Option, none, some, List, [], ◌∷◌, ◌++◌, arith, ltb,
  ◌==◌, Bool-cases, Option-cases, ◌⊎◌, inl, inr,
}
use par_diff_vpn.Schedule.{
  Entry, Tree, leaf, node, Link, lt_of, gt_of, Node, plug, rotate_up, remove_node, rise, find_node,
  take_out,
}

abbrev pub inorder : Tree → List Entry
inorder leaf = []
inorder (node l e g) = inorder l ++ (e ∷ inorder g)

-- The entries on the left and on the right of the place that the links lead to.
abbrev pub before : List Link → List Entry
before [] = []
before (lt_of p g ∷ up) = before up
before (gt_of l p ∷ up) = before up ++ (inorder l ++ (p ∷ []))

abbrev pub after : List Link → List Entry
after [] = []
after (lt_of p g ∷ up) = p ∷ (inorder g ++ after up)
after (gt_of l p ∷ up) = after up

pub inorder-plug :
    (t : Tree) (up : List Link) → inorder (plug t up) ≡ before up ++ (inorder t ++ after up)
inorder-plug t [] = sym (append-nil (inorder t))
inorder-plug t (lt_of p g ∷ up) = simp (inorder-plug (node t p g) up, append_assoc) refl
inorder-plug t (gt_of l p ∷ up) = simp (inorder-plug (node l p t) up, append_assoc) refl

-- A rotation leaves the whole tree as it is, read from the left to the right.
pub inorder-rotate_up :
    (lt : Tree) (e : Entry) (gt : Tree) (up : List Link)
    → let n = rotate_up lt e gt up in
      inorder (plug (node n.lt n.entry n.gt) n.up) ≡ inorder (plug (node lt e gt) up)
unfolding rotate_up
inorder-rotate_up lt e gt [] = refl
inorder-rotate_up lt e gt (gt_of l p ∷ up) =
    inorder-plug (node (node l p lt) e gt) up
    ∙ simp append_assoc refl
    ∙ sym (inorder-plug (node l p (node lt e gt)) up)
inorder-rotate_up lt e gt (lt_of p g ∷ up) =
    inorder-plug (node lt e (node gt p g)) up
    ∙ simp append_assoc refl
    ∙ sym (inorder-plug (node (node lt e gt) p g) up)

-- Removing takes the entry out of the list.
pub inorder-remove_node :
    (lt gt : Tree) (up : List Link)
    → inorder (remove_node lt gt up) ≡ before up ++ (inorder lt ++ (inorder gt ++ after up))
unfolding remove_node
inorder-remove_node leaf leaf up = inorder-plug leaf up
inorder-remove_node (node a x b) leaf up =
    inorder-remove_node b leaf (gt_of a x ∷ up) ∙ simp append_assoc refl
inorder-remove_node leaf (node c y d) up =
    inorder-remove_node leaf c (lt_of y d ∷ up) ∙ simp append_assoc refl
inorder-remove_node (node a x b) (node c y d) up = elim (Bool-cases (ltb x.pri y.pri)) [
  | inl h ↦
      rw (h, remove_node)
        (inorder-remove_node b (node c y d) (gt_of a x ∷ up) ∙ simp append_assoc refl)
  | inr h ↦
      rw (h, remove_node)
        (inorder-remove_node (node a x b) c (lt_of y d ∷ up) ∙ simp append_assoc refl)
]

-- Rising puts the entry between the two sides of its place.
pub inorder-rise :
    (lt : Tree) (e : Entry) (gt : Tree) (up : List Link)
    → inorder (rise lt e gt up) ≡ inorder (plug (node lt e gt) up)
unfolding rise rotate_up
inorder-rise lt e gt [] = refl
inorder-rise lt e gt (gt_of l p ∷ up) = elim (Bool-cases (ltb e.pri p.pri)) [
  | inl h ↦
      rw (h, rise) (inorder-rise (node l p lt) e gt up ∙ inorder-rotate_up lt e gt (gt_of l p ∷ up))
  | inr h ↦ rw (h, rise) refl
]
inorder-rise lt e gt (lt_of p g ∷ up) = elim (Bool-cases (ltb e.pri p.pri)) [
  | inl h ↦
      rw (h, rise) (inorder-rise lt e (node gt p g) up ∙ inorder-rotate_up lt e gt (lt_of p g ∷ up))
  | inr h ↦ rw (h, rise) refl
]

-- What is found is in the tree, at the place that its links lead to.
abbrev pub IsAt : ℕ → Tree → Option Node → Type 0
IsAt who whole none = Unit
IsAt who whole (some n) = (plug (node n.lt n.entry n.gt) n.up ≡ whole) × (n.entry.self ≡ who)

pub find_node-IsAt :
    (who : ℕ) (t : Tree) (up : List Link) → IsAt who (plug t up) (find_node who t up)
unfolding find_node
find_node-IsAt who leaf up = tt
find_node-IsAt who (node l e g) up = elim (Bool-cases (e.self == who)) [
  | inl here ↦ rw here (refl, ground (arith, here))
  | inr other ↦ elim (Option-cases (find_node who l (lt_of e g ∷ up))) [
    | inl missing ↦ rw (other, missing) (find_node-IsAt who g (gt_of l e ∷ up))
    | inr (n, found) ↦
        rw (other, found)
          (subst (λ o. IsAt who (plug (node l e g) up) o) found
            (find_node-IsAt who l (lt_of e g ∷ up)))
  ]
]

-- No entry of the list has the address.
abbrev pub Lacks : ℕ → List Entry → Type 0
Lacks who [] = Unit
Lacks who (e ∷ es) = ((e.self == who) ≡ false) × Lacks who es

Lacks-append : (who : ℕ) (xs ys : List Entry) → Lacks who xs → Lacks who ys → Lacks who (xs ++ ys)
Lacks-append who [] ys h k = k
Lacks-append who (x ∷ xs) ys h k = (h.0, Lacks-append who xs ys h.1 k)

pub find_node-Lacks :
    (who : ℕ) (t : Tree) (up : List Link) → find_node who t up ≡ none → Lacks who (inorder t)
unfolding find_node
find_node-Lacks who leaf up h = tt
find_node-Lacks who (node l e g) up h = elim (Bool-cases (e.self == who)) [
  | inl here ↦ (let q = rw here at h in absurd (cc))
  | inr other ↦ elim (Option-cases (find_node who l (lt_of e g ∷ up))) [
    | inl missing ↦
        (let rest = rw (other, missing) at h in
          Lacks-append who (inorder l) (e ∷ inorder g)
            (find_node-Lacks who l (lt_of e g ∷ up) missing)
            (other, find_node-Lacks who g (gt_of l e ∷ up) rest))
    | inr (n, found) ↦ (let q = rw (other, found) at h in absurd (cc))
  ]
]

-- Taking an entry out by its address takes it out of the list, or changes nothing if it is not
-- there.
pub take_out-inorder :
    (root : Tree) (who : ℕ)
    → (Lacks who (inorder root) × (take_out root who ≡ root))
      ⊎ ((xs ys : List Entry) × (e : Entry) × (inorder root ≡ xs ++ (e ∷ ys))
          × (e.self ≡ who)
          × (inorder (take_out root who) ≡ xs ++ ys))
unfolding take_out
take_out-inorder root who = elim (Option-cases (find_node who root [])) [
  | inl missing ↦ inl (find_node-Lacks who root [] missing, rw (missing, take_out) refl)
  | inr (n, found) ↦
      (let (whole, named) = subst (λ o. IsAt who root o) found (find_node-IsAt who root []) in
        inr (
          before n.up ++ inorder n.lt,
          inorder n.gt ++ after n.up,
          n.entry,
          ap inorder (sym whole)
              ∙ inorder-plug (node n.lt n.entry n.gt) n.up
              ∙ simp append_assoc refl,
          named,
          rw (found, take_out) (inorder-remove_node n.lt n.gt n.up ∙ simp append_assoc refl),
        ))
]
