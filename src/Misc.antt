-- ===== src/Misc.antt =====
-- src/openvpn-2.1.1/misc.c: the size of a table.
pub mod Power
pub mod Tests
use par_diff_vpn.Prelude.{
  ℕ, zero, suc, ◌*◌, ◌%◌, ◌^◌, true, false, Option, none, some, guard, ◌>>=◌, ◌>>◌, ltb,
  if◌then◌else◌,
}

-- The loop of adjust_power_of_2, with at most `rounds` rounds of its loop on a 64-bit size_t; `none`
-- is its ASSERT.
unfoldable pub power_from : ℕ → ℕ → ℕ → Option ℕ
power_from zero ret u = if ltb ret u then none else some ret
power_from (suc rounds) ret u = elim (ltb ret u) [
  | false ↦ some ret
  | true ↦ (do guard (ltb 0 (ret * 2 % 2 ^ 64)); power_from rounds (ret * 2 % 2 ^ 64) u)
]

-- adjust_power_of_2
unfoldable pub adjust_power_of_2 : ℕ → Option ℕ
unfolding power_from
adjust_power_of_2 u = power_from 64 1 u
