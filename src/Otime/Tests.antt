-- ===== src/Otime/Tests.antt =====
-- The theorems on times at concrete times.
use par_diff_vpn.Prelude.{◌+◌, ◌-◌, ◌*◌, ◌^◌, ◌≡◌, refl, arith, min, ltb, leb, ◌==◌, if◌then◌else◌}
use par_diff_vpn.Prelude.Int.{negsuc, pos_part, neg_part}
use par_diff_vpn.Otime.{Timeval, tv_subtract, tv_add, tv_lt, tv_le, tv_ge, tv_gt, tv_eq}
use par_diff_vpn.Otime.Laws.{IsNormal, micros, tv_add_lem, comparisons_agree, tv_subtract_lem}

abbrev earlier : Timeval
earlier = record { tv_sec = 3; tv_usec = 700000 }

abbrev later : Timeval
later = record { tv_sec = 5; tv_usec = 600000 }

tv_add_lem_example :
    IsNormal (tv_add later earlier)
    × (micros (tv_add later earlier) + (if ltb (600000 + 700000) (2 ^ 20) then 0 else 48576)
        ≡ micros later + micros earlier)
tv_add_lem_example = tv_add_lem later earlier (omega arith) (omega arith)

-- 5.6 + 3.7 seconds, short of 9.3.
tv_add_short : tv_add later earlier ≡ record { tv_sec = 9; tv_usec = 251424 }
unfolding tv_add
tv_add_short = refl

comparisons_agree_example :
    (tv_lt later earlier ≡ ltb (micros later) (micros earlier))
    × (tv_le later earlier ≡ leb (micros later) (micros earlier))
    × (tv_ge later earlier ≡ leb (micros earlier) (micros later))
    × (tv_gt later earlier ≡ ltb (micros earlier) (micros later))
    × (tv_eq later earlier ≡ (micros later == micros earlier))
comparisons_agree_example = comparisons_agree later earlier (omega arith) (omega arith)

tv_subtract_lem_example :
    (pos_part (tv_subtract later earlier 1) ≡ min (micros later - micros earlier) (1 * 1000000))
    × (neg_part (tv_subtract later earlier 1) ≡ min (micros earlier - micros later) (1 * 1000000))
tv_subtract_lem_example =
    tv_subtract_lem later earlier 1 (omega arith) (omega arith) (omega arith) (omega arith)
      (omega arith)

-- Above the bound the products overflow: 2148 seconds come out as a negative number.
overflow :
    tv_subtract (record { tv_sec = 4000; tv_usec = 0 }) (record { tv_sec = 0; tv_usec = 0 }) 2148
    ≡ negsuc 2146967295
unfolding tv_subtract
overflow = refl
