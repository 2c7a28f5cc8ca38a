-- ===== src/Schedule/Insert.antt =====
-- schedule_add_modify: the new entry stands at its place in the order, and rises to its place
-- among the priorities.
use par_diff_vpn.Prelude.{
  ℕ, ◌≡◌, refl, sym, ap, ◌∙◌, subst, Bool, true, false, not, ◌||◌, some, List, [], ◌∷◌, ◌++◌, arith,
  ltb, if◌then◌else◌, Bool-cases, Option-cases, ◌⊎◌, inl, inr,
}
use par_diff_vpn.Schedule.{
  Entry, Tree, leaf, node, Link, rise, take_out, descend, insert, set_pri, add_modify, in_tree,
}
use par_diff_vpn.Schedule.Order.{IsSorted, insert-IsSorted, remove-IsSorted}
use par_diff_vpn.Schedule.Contents.{
  inorder, before, after, inorder-plug, inorder-rise, take_out-inorder,
}
use par_diff_vpn.Schedule.Heap.{IsHeap, IsHeap-plug, rise-IsHeap, take_out-IsHeap}
use par_diff_vpn.Schedule.Descend.{uses, uses-skip, descend-plug, descend-between, descend-uses}

-- schedule_insert ends with an entry whose key is not in the tree.
insert-descend :
    (e : Entry) (root : Tree) (randoms : List ℕ) {e' : Entry} {up : List Link} {rest : List ℕ}
    → insert e root randoms ≡ some (e', up, rest)
    → (descend e' root [] ≡ some up) × (e'.self ≡ e.self) × (e'.tv ≡ e.tv)
unfolding insert set_pri
insert-descend e root [] h = elim (Option-cases (descend e root [])) [
  | inl missing ↦ (let q = rw (missing, insert) at h in absurd (cc))
  | inr (up0, found) ↦ (let q = rw (found, insert) at h in (cc, cc, cc))
]
insert-descend e root (r ∷ randoms) h = elim (Option-cases (descend e root [])) [
  | inl missing ↦ insert-descend (set_pri r e) root randoms (rw (missing, insert) at h)
  | inr (up0, found) ↦ (let q = rw (found, insert) at h in (cc, cc, cc))
]

-- One of the random numbers gives a priority that no entry of the list has.
abbrev pub has_fresh : List Entry → List ℕ → Bool
has_fresh xs [] = false
has_fresh xs (r ∷ randoms) = not (uses (if ltb r 1 then 1 else r) xs) || has_fresh xs randoms

insert_total :
    (e : Entry) (root : Tree) (randoms : List ℕ)
    → (uses e.pri (inorder root) ≡ false) ⊎ (has_fresh (inorder root) randoms ≡ true)
    → (e' : Entry) × (up : List Link) × (rest : List ℕ) × (insert e root randoms
        ≡ some (e', up, rest))
unfolding insert set_pri
insert_total e root [] h = elim (Option-cases (descend e root [])) [
  | inr (up, found) ↦ (e, up, [], rw (found, insert) refl)
  | inl missing ↦ (let used = descend-uses e root [] missing in absurd (ground (arith, used)))
]
insert_total e root (r ∷ randoms) h = elim (Option-cases (descend e root [])) [
  | inr (up, found) ↦ (e, up, r ∷ randoms, rw (found, insert) refl)
  | inl missing ↦
      (let used = descend-uses e root [] missing in
        let later : (uses (if ltb r 1 then 1 else r) (inorder root) ≡ false)
            ⊎ (has_fresh (inorder root) randoms ≡ true) =
          elim (Bool-cases (uses (if ltb r 1 then 1 else r) (inorder root))) [
            | inr fresh ↦ inl fresh
            | inl taken ↦ inr (ground (arith, used, taken, h))
          ] in
        let (e', up, rest, done) = insert_total (set_pri r e) root randoms later in
        (e', up, rest, rw (missing, insert) done))
]

-- The tree without the entry that is added.
abbrev pub base : Tree → Entry → Tree
base root e = if in_tree e then take_out root e.self else root

base-parts :
    (root : Tree) (e : Entry)
    → IsHeap root
    → IsSorted (inorder root)
    → IsHeap (base root e)
      × IsSorted (inorder (base root e))
      × ((n : ℕ) → uses n (inorder root) ≡ false → uses n (inorder (base root e)) ≡ false)
base-parts root e h s = elim (Bool-cases (in_tree e)) [
  | inr out ↦ rw out (h, s, λ n u. u)
  | inl inside ↦ elim (take_out-inorder root e.self) [
    | inl (lacks, same) ↦ rw (inside, same) (h, s, λ n u. u)
    | inr (xs, ys, x, whole, named, left) ↦
        rw (inside, left)
          (
            take_out-IsHeap root e.self h,
            remove-IsSorted x xs ys (subst (λ l. IsSorted l) whole s),
            λ n u. elim (Bool-cases (uses n (xs ++ ys))) [
              | inr free ↦ free
              | inl taken ↦
                  (let still = uses-skip n x xs ys taken in
                    let same : uses n (inorder root) ≡ uses n (xs ++ (x ∷ ys)) =
                      ap (λ l. uses n l) whole in
                    absurd (ground (arith, still, same, u)))
            ],
          )
  ]
]

has_fresh-imp :
    (xs ys : List Entry) (randoms : List ℕ)
    → ((n : ℕ) → uses n xs ≡ false → uses n ys ≡ false)
    → has_fresh xs randoms ≡ true
    → has_fresh ys randoms ≡ true
has_fresh-imp xs ys [] imp h = h
has_fresh-imp xs ys (r ∷ randoms) imp h = ground (
  arith,
  has_fresh-imp xs ys randoms imp,
  imp (if ltb r 1 then 1 else r),
  Bool-cases (uses (if ltb r 1 then 1 else r) xs),
  Bool-cases (uses (if ltb r 1 then 1 else r) ys),
)

pub add_modify_lem :
    (root : Tree) (e : Entry) (randoms : List ℕ)
    → IsHeap root
    → IsSorted (inorder root)
    → has_fresh (inorder root) randoms ≡ true
    → (root' : Tree) × (e' : Entry) × (rest : List ℕ) × (xs ys : List Entry) × (add_modify root e
          randoms
        ≡ some (root', e', rest))
      × IsHeap root'
      × IsSorted (inorder root')
      × (inorder (base root e) ≡ xs ++ ys)
      × (inorder root' ≡ xs ++ (e' ∷ ys))
      × (e'.self ≡ e.self)
      × (e'.tv ≡ e.tv)
unfolding add_modify set_pri
add_modify_lem root e [] h s f = absurd (cc)
add_modify_lem root e (r ∷ randoms) h s f =
    let (hb, sb, imp) = base-parts root e h s in
    let fresh = has_fresh-imp (inorder root) (inorder (base root e)) (r ∷ randoms) imp f in
    let first : (uses (set_pri r e).pri (inorder (base root e)) ≡ false)
        ⊎ (has_fresh (inorder (base root e)) randoms ≡ true) =
      elim (Bool-cases (uses (set_pri r e).pri (inorder (base root e)))) [
        | inr free ↦ inl free
        | inl taken ↦ inr (ground (arith, fresh, taken))
      ] in
    let (e', up, rest, done) = insert_total (set_pri r e) (base root e) randoms first in
    let (path, same_self, same_tv) = insert-descend (set_pri r e) (base root e) randoms done in
    let whole = descend-plug e' (base root e) [] path in
    let (left, right) = descend-between e' (base root e) [] path sb tt tt in
    let (_, hup, _) = IsHeap-plug leaf up (subst (λ t. IsHeap t) (sym whole) hb) in
    let sides : inorder (base root e) ≡ before up ++ after up =
      ap inorder (sym whole) ∙ inorder-plug leaf up in
    let placed : inorder (rise leaf e' leaf up) ≡ before up ++ (e' ∷ after up) =
      inorder-rise leaf e' leaf up ∙ inorder-plug (node leaf e' leaf) up in
    (
      rise leaf e' leaf up,
      e',
      rest,
      before up,
      after up,
      rw done refl,
      rise-IsHeap leaf e' leaf up tt tt tt tt hup tt tt,
      subst (λ l. IsSorted l) (sym placed)
          (insert-IsSorted e' (before up) (after up) (subst (λ l. IsSorted l) sides sb) left right),
      sides,
      placed,
      same_self,
      same_tv,
    )
