-- ===== src/Mss/Checksum.antt =====
-- ADJUST_CHECKSUM in one's complement arithmetic.
use par_diff_vpn.Prelude.{ℕ, ◌+◌, ◌%◌, ◌^◌, ◌<◌, ◌≡◌, arith}
use par_diff_vpn.Prelude.Int.{pos, ◌-ℤ◌, ◌+ℤ◌}
use par_diff_vpn.Mss.{fold, adjust_checksum}

-- A word of a packet goes from `old` to `new`: the word and the checksum together stay the same up
-- to multiples of 65535.
pub adjust_checksum_lem :
    (old new check : ℕ)
    → old < 2 ^ 16
    → new < 2 ^ 16
    → check < 2 ^ 16
    → (adjust_checksum (pos old -ℤ pos new) check < 2 ^ 16)
      × ((adjust_checksum (pos old -ℤ pos new) check + new) % 65535 ≡ (check + old) % 65535)
unfolding adjust_checksum ◌-ℤ◌ ◌+ℤ◌ fold
adjust_checksum_lem old new check h k l = (ground arith, ground arith)
