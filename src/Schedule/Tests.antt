-- ===== src/Schedule/Tests.antt =====
-- The theorems on the schedule at concrete entries.
use par_diff_vpn.Prelude.{
  ℕ, ◌<◌, ◌≡◌, refl, true, false, Option, none, some, List, [], ◌∷◌, ◌++◌, arith, ◌⊎◌, ◌>>=◌,
}
use par_diff_vpn.Otime.{Timeval, tv_within_sigma}
use par_diff_vpn.Schedule.{
  Entry, leaf, node, Schedule, init, add_entry, remove_entry, get_earliest_wakeup, in_tree, compare,
}
use par_diff_vpn.Schedule.Contents.{inorder, Lacks}
use par_diff_vpn.Schedule.Insert.{base}
use par_diff_vpn.Schedule.Earliest.{
  IsValid, NoneEarlier, get_earliest_wakeup_lem, add_entry_lem, remove_entry_lem,
}

abbrev at_time : ℕ → Timeval
at_time n = record { tv_sec = n; tv_usec = 0 }

abbrev entry : ℕ → ℕ → ℕ → Entry
entry who n pri = record { self = who; tv = at_time n; pri = pri }

init-IsValid : IsValid init
init-IsValid = record { heap = tt; sorted = tt; cached = tt }

-- Three clients at 20, 10 and 30 seconds with the priorities 3, 8 and 5.
abbrev three : Schedule
three = record {
  earliest_wakeup = none;
  root = node (node leaf (entry 2 10 8) leaf) (entry 1 20 3) (node leaf (entry 3 30 5) leaf);
}

built : Option Schedule
unfolding add_entry
built = do
  a ← add_entry init (entry 1 0 0) (at_time 20) 0 (3 ∷ 8 ∷ 5 ∷ [])
  b ← add_entry (a.0) (entry 2 0 0) (at_time 10) 0 (a.2)
  c ← add_entry (b.0) (entry 3 0 0) (at_time 30) 0 (b.2)
  some (c.0)

three-IsValid : IsValid three
unfolding compare
three-IsValid = record {
  heap = (omega arith, omega arith, (tt, tt, tt, tt), (tt, tt, tt, tt));
  sorted = ((refl, (refl, tt)), ((refl, tt), (tt, tt)));
  cached = tt;
}

get_earliest_wakeup_lem_example :
    (s' : Schedule) × (s'.root ≡ three.root)
    × IsValid s'
    × (((inorder three.root ≡ []) × (get_earliest_wakeup three ≡ (none, s')))
        ⊎ ((e : Entry) × (es : List Entry) × (inorder three.root ≡ e ∷ es)
            × NoneEarlier e.tv es
            × (get_earliest_wakeup three ≡ (some e, s'))))
get_earliest_wakeup_lem_example = get_earliest_wakeup_lem three three-IsValid

-- The first client again, later than all others; the priority 8 is free once it is at another time.
add_entry_lem_example :
    ((in_tree (entry 1 20 3) ≡ true)
      × (0 < 5)
      × (tv_within_sigma (at_time 40) (at_time 20) 5 ≡ true)
      × (add_entry three (entry 1 20 3) (at_time 40) 5 (8 ∷ 2 ∷ [])
          ≡ some (three, entry 1 20 3, 8 ∷ 2 ∷ [])))
    ⊎ (((in_tree (entry 1 20 3) ≡ false)
          ⊎ ◌≡◌ {A = ℕ} 5 0
          ⊎ (tv_within_sigma (at_time 40) (at_time 20) 5 ≡ false))
        × (s' : Schedule) × (e' : Entry) × (rest : List ℕ) × (xs ys : List Entry) × (add_entry three
              (entry 1 20 3)
              (at_time 40)
              5
              (8 ∷ 2 ∷ [])
            ≡ some (s', e', rest))
        × IsValid s'
        × (inorder (base three.root (entry 1 20 3)) ≡ xs ++ ys)
        × (inorder s'.root ≡ xs ++ (e' ∷ ys))
        × (e'.self ≡ 1)
        × (e'.tv ≡ at_time 40))
add_entry_lem_example =
    add_entry_lem three (entry 1 20 3) (at_time 40) 5 (8 ∷ 2 ∷ []) three-IsValid refl

remove_entry_lem_example :
    IsValid (remove_entry three (entry 1 20 3)).0
    × (in_tree (remove_entry three (entry 1 20 3)).1 ≡ false)
    × ((Lacks 1 (inorder three.root) × ((remove_entry three (entry 1 20 3)).0.root ≡ three.root))
        ⊎ ((xs ys : List Entry) × (x : Entry) × (inorder three.root ≡ xs ++ (x ∷ ys))
            × (x.self ≡ 1)
            × (inorder (remove_entry three (entry 1 20 3)).0.root ≡ xs ++ ys)))
remove_entry_lem_example = remove_entry_lem three (entry 1 20 3) three-IsValid
