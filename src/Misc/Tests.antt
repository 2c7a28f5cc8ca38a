-- ===== src/Misc/Tests.antt =====
-- adjust_power_of_2 at a concrete size.
use par_diff_vpn.Prelude.{ℕ, ◌*◌, ◌≤◌, ◌<◌, ◌≡◌, some, arith, ◌⊎◌}
use par_diff_vpn.Misc.{adjust_power_of_2}
use par_diff_vpn.Misc.Power.{power, adjust_power_of_2_lem}

adjust_power_of_2_lem_example :
    (j : ℕ) × (adjust_power_of_2 100 ≡ some (power j))
    × (100 ≤ power j)
    × ((power j ≡ 1) ⊎ (power j < 100 * 2))
adjust_power_of_2_lem_example = adjust_power_of_2_lem 100 (omega arith)
