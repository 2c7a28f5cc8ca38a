-- ===== src/Schedule/Earliest.antt =====
-- The public operations of schedule.h: the cached earliest wakeup is always that of the tree.
use par_diff_vpn.Prelude.{
  ℕ, ◌<◌, ◌≡◌, refl, sym, ap, ◌∙◌, subst, Bool, true, false, not, ◌||◌, Option, none, some, List,
  [], ◌∷◌, ◌++◌, arith, ◌==◌, Bool-cases, Option-cases, ◌⊎◌, inl, inr,
}
use par_diff_vpn.Otime.{Timeval, tv_lt, tv_within_sigma}
use par_diff_vpn.Schedule.{
  Entry, Tree, leaf, node, Schedule, add_entry, remove_entry, get_earliest_wakeup, find_least,
  take_out, in_tree,
}
use par_diff_vpn.Schedule.Order.{Before, Before-elim, AllAfter, IsSorted, remove-IsSorted}
use par_diff_vpn.Schedule.Contents.{inorder, Lacks, take_out-inorder}
use par_diff_vpn.Schedule.Heap.{IsHeap, take_out-IsHeap}
use par_diff_vpn.Schedule.Insert.{base, has_fresh, add_modify_lem}

abbrev pub first : List Entry → Option Entry
first [] = none
first (e ∷ es) = some e

-- The cache is empty, or holds the first entry of the list.
abbrev pub IsCached : Option Entry → List Entry → Type 0
IsCached none es = Unit
IsCached (some e) es = first es ≡ some e

pub record IsValid (s : Schedule) : Type 0 where
  pub heap : IsHeap s.root
  pub sorted : IsSorted (inorder s.root)
  pub cached : IsCached s.earliest_wakeup (inorder s.root)

first_left : (l r : List Entry) (e : Entry) → first l ≡ some e → first (l ++ r) ≡ some e
first_left [] r e h = absurd (cc)
first_left (x ∷ l) r e h = h

first_node :
    (l : List Entry) (a : Entry) (m : List Entry) → (x : Entry) × (first (l ++ (a ∷ m)) ≡ some x)
first_node [] a m = (a, refl)
first_node (x ∷ l) a m = (x, refl)

find_least-first : (t : Tree) → find_least t ≡ first (inorder t)
unfolding find_least
find_least-first leaf = refl
find_least-first (node leaf e g) = refl
find_least-first (node (node a x b) e g) =
    let (y, h) = first_node (inorder a) x (inorder b) in
    find_least-first (node a x b)
    ∙ h
    ∙ sym (first_left (inorder a ++ (x ∷ inorder b)) (e ∷ inorder g) y h)

-- No entry of the list is to be woken up before `tv`.
abbrev pub NoneEarlier : Timeval → List Entry → Type 0
NoneEarlier tv [] = Unit
NoneEarlier tv (x ∷ xs) = (tv_lt x.tv tv ≡ false) × NoneEarlier tv xs

Before-tv_lt : (a b : Entry) → Before a b → tv_lt b.tv a.tv ≡ false
unfolding tv_lt
Before-tv_lt a b h = (let r = Before-elim a b h in ground arith)

AllAfter-NoneEarlier : (e : Entry) (xs : List Entry) → AllAfter e xs → NoneEarlier e.tv xs
AllAfter-NoneEarlier e [] h = tt
AllAfter-NoneEarlier e (x ∷ xs) h = (Before-tv_lt e x h.0, AllAfter-NoneEarlier e xs h.1)

first-IsCached : (es : List Entry) → IsCached (first es) es
first-IsCached [] = tt
first-IsCached (e ∷ es) = refl

-- What is returned is the first entry, from the cache or not.
wakeup-first :
    (s : Schedule)
    → IsValid s
    → (s' : Schedule) × (s'.root ≡ s.root)
      × IsValid s'
      × (get_earliest_wakeup s ≡ (first (inorder s.root), s'))
unfolding get_earliest_wakeup
wakeup-first s v = elim (Option-cases s.earliest_wakeup) [
  | inr (e, full) ↦
      (let same : first (inorder s.root) ≡ some e =
          subst (λ c. IsCached c (inorder s.root)) full v.cached in
        (s, refl, v, ground (arith, full, same)))
  | inl empty ↦ (
    record s { earliest_wakeup = find_least s.root },
    refl,
    record {
      heap = v.heap;
      sorted = v.sorted;
      cached = rw (find_least-first s.root) (first-IsCached (inorder s.root));
    },
    rw (empty, get_earliest_wakeup)
        (ap (λ o. (o, record s { earliest_wakeup = find_least s.root })) (find_least-first s.root)),
  )
]

List-cases : (es : List Entry) → (es ≡ []) ⊎ ((x : Entry) × (xs : List Entry) × (es ≡ x ∷ xs))
List-cases [] = inl refl
List-cases (x ∷ xs) = inr (x, xs, refl)

-- In a valid schedule schedule_get_earliest_wakeup returns NULL if the tree is empty, and otherwise
-- the first entry of the tree's order, and no other is to be woken up before it. The tree stays as it is and the schedule
-- valid.
pub get_earliest_wakeup_lem :
    (s : Schedule)
    → IsValid s
    → (s' : Schedule) × (s'.root ≡ s.root)
      × IsValid s'
      × (((inorder s.root ≡ []) × (get_earliest_wakeup s ≡ (none, s')))
          ⊎ ((e : Entry) × (es : List Entry) × (inorder s.root ≡ e ∷ es)
              × NoneEarlier e.tv es
              × (get_earliest_wakeup s ≡ (some e, s'))))
get_earliest_wakeup_lem s v =
    let (s', same, v', got) = wakeup-first s v in
    (
      s',
      same,
      v',
      elim (List-cases (inorder s.root)) [
        | inl empty ↦ inl (empty, got ∙ ap (λ l. (first l, s')) empty)
        | inr (e, es, whole) ↦ inr (
          e,
          es,
          whole,
          AllAfter-NoneEarlier e es (subst (λ l. IsSorted l) whole v.sorted).0,
          got ∙ ap (λ l. (first l, s')) whole,
        )
      ],
    )

-- When schedule_add_entry takes the entry out and puts it in again.
outside :
    (inside : Bool) (sigma : ℕ) (close : Bool)
    → (not inside || (sigma == 0 || not close)) ≡ true
    → (inside ≡ false) ⊎ (sigma ≡ 0) ⊎ (close ≡ false)
outside false sigma close h = inl refl
outside true sigma false h = inr (inr refl)
outside true sigma true h = inr (inl (ground arith))

-- Let one of the random numbers be a priority that no entry of the tree has. Then
-- schedule_add_entry ends and keeps the schedule valid. If the entry is in the tree, `sigma` is not 0
-- and the time is within `sigma` of the entry's, nothing changes. Otherwise, that is, if one
-- of the three does not hold, it takes the entry out, if it was there, and puts it in with the new
-- time at its place in the order.
pub add_entry_lem :
    (s : Schedule) (e : Entry) (tv : Timeval) (sigma : ℕ) (randoms : List ℕ)
    → IsValid s
    → has_fresh (inorder s.root) randoms ≡ true
    → ((in_tree e ≡ true)
        × (0 < sigma)
        × (tv_within_sigma tv e.tv sigma ≡ true)
        × (add_entry s e tv sigma randoms ≡ some (s, e, randoms)))
      ⊎ (((in_tree e ≡ false) ⊎ (sigma ≡ 0) ⊎ (tv_within_sigma tv e.tv sigma ≡ false))
          × (s' : Schedule) × (e' : Entry) × (rest : List ℕ) × (xs ys : List Entry) × (add_entry s e
                tv sigma randoms
              ≡ some (s', e', rest))
          × IsValid s'
          × (inorder (base s.root e) ≡ xs ++ ys)
          × (inorder s'.root ≡ xs ++ (e' ∷ ys))
          × (e'.self ≡ e.self)
          × (e'.tv ≡ tv))
unfolding add_entry
add_entry_lem s e tv sigma randoms v fresh =
    elim (Bool-cases (not (in_tree e) || (sigma == 0 || not (tv_within_sigma tv e.tv sigma)))) [
      | inr kept ↦ inl (
        ground (arith, kept),
        ground (arith, kept),
        ground (arith, kept),
        rw (kept, add_entry) refl,
      )
      | inl added ↦
          (let (root', e', rest, xs, ys, done, heap, sorted, left, placed, named, timed) =
              add_modify_lem s.root (record e { tv = tv }) randoms v.heap v.sorted fresh in
            inr (
              outside (in_tree e) sigma (tv_within_sigma tv e.tv sigma) added,
              record { earliest_wakeup = none; root = root' },
              e',
              rest,
              xs,
              ys,
              rw (added, done, add_entry) refl,
              record { heap = heap; sorted = sorted; cached = tt },
              left,
              placed,
              named,
              timed,
            ))
    ]

-- schedule_remove_entry keeps a valid schedule valid and marks the entry as out of the tree. It
-- takes an entry with this address out of the order and leaves the others, or changes nothing if
-- there is none.
pub remove_entry_lem :
    (s : Schedule) (e : Entry)
    → IsValid s
    → IsValid (remove_entry s e).0
      × (in_tree (remove_entry s e).1 ≡ false)
      × ((Lacks e.self (inorder s.root) × ((remove_entry s e).0.root ≡ s.root))
          ⊎ ((xs ys : List Entry) × (x : Entry) × (inorder s.root ≡ xs ++ (x ∷ ys))
              × (x.self ≡ e.self)
              × (inorder (remove_entry s e).0.root ≡ xs ++ ys)))
unfolding remove_entry
remove_entry_lem s e v =
    let cases = take_out-inorder s.root e.self in
    let sorted : IsSorted (inorder (take_out s.root e.self)) = elim cases [
      | inl (lacks, same) ↦ rw same v.sorted
      | inr (xs, ys, x, whole, named, left) ↦
          rw left (remove-IsSorted x xs ys (subst (λ l. IsSorted l) whole v.sorted))
    ] in
    (
      record { heap = take_out-IsHeap s.root e.self v.heap; sorted = sorted; cached = tt },
      refl,
      cases,
    )
