-- ===== src/Reliable/Range.antt =====
-- The tests of reliable.c on packet ids that may have wrapped around 2 ^ 32, against the distance
-- on that circle.
use par_diff_vpn.Prelude.{ℕ, ◌+◌, ◌-◌, ◌%◌, ◌^◌, ◌≤◌, ◌<◌, ◌≡◌, true, false, ltb, arith, ◌↔◌}
use par_diff_vpn.Reliable.{pid_in_range1, pid_in_range2, pid_min}

-- How far `test` is ahead of `base`.
abbrev pub ahead : ℕ → ℕ → ℕ
ahead test base = (test + 2 ^ 32 - base) % 2 ^ 32

-- For ids of 32 bits, reliable_pid_in_range1 tests how far `test` is ahead of `base` on the
-- circle.
pub pid_in_range1_lem :
    (test base extent : ℕ)
    → test < 2 ^ 32
    → base < 2 ^ 32
    → pid_in_range1 test base extent ≡ ltb (ahead test base) extent
unfolding pid_in_range1
pid_in_range1_lem test base extent h k = ground arith

-- For ids of 32 bits, reliable_pid_min holds exactly of a first id that is half a circle or more
-- ahead of the second.
pub pid_min_lem :
    (p1 p2 : ℕ) → p1 < 2 ^ 32 → p2 < 2 ^ 32 → (pid_min p1 p2 ≡ true) ↔ (2 ^ 31 ≤ ahead p1 p2)
unfolding pid_min
pid_min_lem p1 p2 h k = (λ e. ground arith, λ e. ground arith)

-- With `base` in the lower half and an extent of at most 8, reliable_pid_in_range2 tests how far
-- `test` is ahead of `base` on the circle, if `test` is not before `base` for reliable_pid_min.
pub pid_in_range2_lem :
    (test base extent : ℕ)
    → test < 2 ^ 32
    → base < 2 ^ 31
    → extent ≤ 8
    → pid_min test base ≡ false
    → pid_in_range2 test base extent ≡ ltb (ahead test base) extent
unfolding pid_min pid_in_range2
pid_in_range2_lem test base extent h k l m = ground arith

-- With `base` in the upper half, ids that have wrapped around and are more than half a circle below
-- `base` as numbers pass both tests, however far ahead they are.
pub pid_in_range2_gap :
    (test base extent : ℕ)
    → base + extent < 2 ^ 32
    → 0 < extent
    → test + 2 ^ 31 < base
    → (pid_min test base ≡ false)
      × (pid_in_range2 test base extent ≡ true)
      × (extent ≤ ahead test base)
unfolding pid_min pid_in_range2
pid_in_range2_gap test base extent h k l = (ground arith, ground arith, ground arith)
