-- ===== src/CircList/Tests.antt =====
-- The theorems on circular lists at concrete inputs.
use par_diff_vpn.Prelude.{ℕ, suc, ◌+◌, ◌<◌, ◌≡◌, refl, some, [], ◌∷◌, arith, min}
use par_diff_vpn.CircList.{CircList, push, item}
use par_diff_vpn.CircList.Laws.{IsValid, push_refines}

-- Full, with 30 the newest and 10 the oldest.
abbrev full : CircList ℕ
full = record { x_head = 1; x_size = 3; x_cap = 3; x_list = 10 ∷ 30 ∷ 20 ∷ [] }

full-IsValid : IsValid full
full-IsValid = record {
  nonempty_cap = omega arith;
  head_in = omega arith;
  size_in = omega arith;
  storage = refl;
}

push_refines_example :
    (c' : CircList ℕ) × (push full 40 ≡ some c')
    × IsValid c'
    × (c'.x_size ≡ min (3 + 1) 3)
    × (item c' 0 ≡ some 40)
    × ((i : ℕ) → suc i < c'.x_size → item c' (suc i) ≡ item full i)
push_refines_example = push_refines full 40 full-IsValid
