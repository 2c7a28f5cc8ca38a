-- ===== src/Schedule.antt =====
-- src/openvpn-2.1.1/schedule.c and schedule.h: the times at which the clients of a server are to be
-- served, in a binary search tree with random priorities. A struct schedule_entry is named by its
-- address `self`. The tree with its parent links is a tree and, for an entry in it, the path from the
-- entry to the root; following a pointer to an entry is `find_node`. The results of `random` are a
-- list, and `none` is the end of that list. The mutex is left out.
pub mod Order
pub mod Contents
pub mod Heap
pub mod Descend
pub mod Insert
pub mod Earliest
pub mod Tests
use Prim.Native.Nat.{Ordering}
use par_diff_vpn.Prelude.{
  ℕ, ◌+◌, Bool, true, false, not, ◌||◌, Option, none, some, List, [], ◌∷◌, ◌>>=◌, ltb, ◌==◌,
  if◌then◌else◌,
}
use par_diff_vpn.Otime.{Timeval, tv_within_sigma}

-- struct schedule_entry, without its links
pub record Entry : Type 0 where
  pub self : ℕ
  pub tv : Timeval
  pub pri : ℕ

pub data Tree : Type 0 where
  leaf : Tree
  node : Tree → Entry → Tree → Tree

-- The link from a child to its parent, with the parent's other subtree: the child is the field
-- `lt` or the field `gt` of the parent.
pub data Link : Type 0 where
  lt_of : Entry → Tree → Link
  gt_of : Tree → Entry → Link

-- An entry in the tree: its subtrees, and the way up.
pub record Node : Type 0 where
  pub lt : Tree
  pub entry : Entry
  pub gt : Tree
  pub up : List Link

-- struct schedule
pub record Schedule : Type 0 where
  pub earliest_wakeup : Option Entry
  pub root : Tree

-- schedule_init
abbrev pub init : Schedule
init = record { earliest_wakeup = none; root = leaf }

-- The whole tree around a subtree.
abbrev pub plug : Tree → List Link → Tree
plug t [] = t
plug t (lt_of p g ∷ up) = plug (node t p g) up
plug t (gt_of l p ∷ up) = plug (node l p t) up

-- schedule_set_pri
unfoldable pub set_pri : ℕ → Entry → Entry
set_pri random e = record e { pri = if ltb random 1 then 1 else random }

-- schedule_entry_compare: -1, 0 and 1 are `lt`, `eq` and `gt`.
unfoldable pub compare : Entry → Entry → Ordering
compare e1 e2 =
    if ltb e1.tv.tv_sec e2.tv.tv_sec
    then Ordering.lt
    else if ltb e2.tv.tv_sec e1.tv.tv_sec
    then Ordering.gt
    else if ltb e1.tv.tv_usec e2.tv.tv_usec
    then Ordering.lt
    else if ltb e2.tv.tv_usec e1.tv.tv_usec
    then Ordering.gt
    else if ltb e1.pri e2.pri
    then Ordering.lt
    else if ltb e2.pri e1.pri
    then Ordering.gt
    else Ordering.eq

-- schedule_rotate_up, for the entry `e` between its subtrees
unfoldable pub rotate_up : Tree → Entry → Tree → List Link → Node
rotate_up lt e gt [] = record { lt = lt; entry = e; gt = gt; up = [] }
rotate_up lt e gt (gt_of l p ∷ up) = record { lt = node l p lt; entry = e; gt = gt; up = up }
rotate_up lt e gt (lt_of p g ∷ up) = record { lt = lt; entry = e; gt = node gt p g; up = up }

-- The loop of schedule_remove_node and schedule_detach_parent, for an entry `e` that goes down: its
-- child `x`, rotated up, becomes its parent, as rotated_down shows.
unfoldable pub remove_node : Tree → Tree → List Link → Tree
remove_node leaf leaf up = plug leaf up
remove_node (node a x b) leaf up = remove_node b leaf (gt_of a x ∷ up)
remove_node leaf (node c y d) up = remove_node leaf c (lt_of y d ∷ up)
remove_node (node a x b) (node c y d) up = elim (ltb x.pri y.pri) [
  | true ↦ remove_node b (node c y d) (gt_of a x ∷ up)
  | false ↦ remove_node (node a x b) c (lt_of y d ∷ up)
]

-- The way down of schedule_insert, from a subtree on: the links above the new entry, or `none` for
-- a key that is already there.
unfoldable pub descend : Entry → Tree → List Link → Option (List Link)
unfolding compare
descend e leaf up = some up
descend e (node l c g) up = elim (compare e c) [
  | Ordering.lt ↦ descend e l (lt_of c g ∷ up)
  | Ordering.gt ↦ descend e g (gt_of l c ∷ up)
  | Ordering.eq ↦ none
]

-- schedule_insert: the entry, with another priority where keys collided, its links and the random
-- numbers left.
unfoldable pub insert : Entry → Tree → List ℕ → Option (Entry × List Link × List ℕ)
unfolding set_pri
insert e root [] = elim (descend e root []) [ some up ↦ some (e, up, []) | none ↦ none ]
insert e root (r ∷ randoms) = elim (descend e root []) [
  | some up ↦ some (e, up, r ∷ randoms)
  | none ↦ insert (set_pri r e) root randoms
]

-- The last loop of schedule_add_modify: up to a parent of no greater priority.
unfoldable pub rise : Tree → Entry → Tree → List Link → Tree
rise lt e gt [] = node lt e gt
rise lt e gt (gt_of l p ∷ up) = elim (ltb e.pri p.pri) [
  | true ↦ rise (node l p lt) e gt up
  | false ↦ plug (node l p (node lt e gt)) up
]
rise lt e gt (lt_of p g ∷ up) = elim (ltb e.pri p.pri) [
  | true ↦ rise lt e (node gt p g) up
  | false ↦ plug (node (node lt e gt) p g) up
]

-- The entry at an address, searched below the links `up`.
unfoldable pub find_node : ℕ → Tree → List Link → Option Node
find_node who leaf up = none
find_node who (node l e g) up =
    if e.self == who
    then some (record { lt = l; entry = e; gt = g; up = up })
    else elim (find_node who l (lt_of e g ∷ up)) [
      | some n ↦ some n
      | none ↦ find_node who g (gt_of l e ∷ up)
    ]

-- IN_TREE
abbrev pub in_tree : Entry → Bool
in_tree e = not (e.pri == 0)

-- schedule_remove_node, for an entry by its address; one that is in no tree has no links, and
-- nothing happens.
unfoldable pub take_out : Tree → ℕ → Tree
take_out root who = elim (find_node who root []) [
  | none ↦ root
  | some n ↦ remove_node n.lt n.gt n.up
]

-- schedule_add_modify: the tree, the entry and the random numbers left. In an empty tree the entry
-- has no links above it.
unfoldable pub add_modify : Tree → Entry → List ℕ → Option (Tree × Entry × List ℕ)
unfolding set_pri
add_modify root e [] = none
add_modify root e (r ∷ randoms) = do
  i ← insert (set_pri r e) (if in_tree e then take_out root e.self else root) randoms
  some (rise leaf (i.0) leaf (i.1), i.0, i.2)

-- schedule_find_least
unfoldable pub find_least : Tree → Option Entry
find_least leaf = none
find_least (node leaf e g) = some e
find_least (node (node a x b) e g) = find_least (node a x b)

-- schedule_remove_entry: the entry's priority is 0 after it.
unfoldable pub remove_entry : Schedule → Entry → Schedule × Entry
remove_entry s e =
    (record { earliest_wakeup = none; root = take_out s.root e.self }, record e { pri = 0 })

-- schedule_add_entry
unfoldable pub add_entry :
    Schedule → Entry → Timeval → ℕ → List ℕ → Option (Schedule × Entry × List ℕ)
add_entry s e tv sigma randoms =
    if not (in_tree e) || (sigma == 0 || not (tv_within_sigma tv e.tv sigma))
    then (do
      r ← add_modify s.root (record e { tv = tv }) randoms
      some (record { earliest_wakeup = none; root = r.0 }, r.1, r.2))
    else some (s, e, randoms)

-- schedule_get_earliest_wakeup
unfoldable pub get_earliest_wakeup : Schedule → Option Entry × Schedule
get_earliest_wakeup s = elim s.earliest_wakeup [
  | some e ↦ (some e, s)
  | none ↦ (find_least s.root, record s { earliest_wakeup = find_least s.root })
]
