-- ===== src/Otime.antt =====
-- src/openvpn-2.1.1/otime.h: arithmetic on times of seconds and microseconds, and the time to the
-- next wakeup. The fields are natural numbers, and a difference is an integer. An int has 32 bits and
-- wraps around in two's complement; where C leaves the overflow of an int undefined, this is a choice.
pub mod Laws
pub mod Tests
use par_diff_vpn.Prelude.{
  ℕ, zero, suc, ◌+◌, ◌-◌, ◌*◌, ◌/◌, ◌%◌, ◌^◌, Bool, true, false, ◌&&◌, ltb, leb, ◌==◌,
  if◌then◌else◌,
}
use par_diff_vpn.Prelude.Int.{ℤ, pos, negsuc, pos_part, neg_part, ◌-ℤ◌, ◌+ℤ◌, ◌*ℤ◌, ltb_ℤ}
use par_diff_vpn.Integer.{constrain_int}

-- struct timeval of the C library, of which the source uses these two fields.
pub record Timeval : Type 0 where
  pub tv_sec : ℕ
  pub tv_usec : ℕ

-- The int of 32 bits that an integer becomes.
unfoldable pub to_int : ℤ → ℤ
to_int z =
    let low = (pos_part z + (2 ^ 32 - neg_part z % 2 ^ 32)) % 2 ^ 32 in
    if ltb low (2 ^ 31) then pos low else negsuc (2 ^ 32 - 1 - low)

unfoldable pub tv_subtract : Timeval → Timeval → ℕ → ℤ
unfolding ◌-ℤ◌ ◌+ℤ◌ ◌*ℤ◌ constrain_int to_int
tv_subtract tv1 tv2 max_seconds =
    let max_usec = to_int (pos (max_seconds * 1000000 % 2 ^ 32)) in
    let sec_diff = to_int (pos tv1.tv_sec -ℤ pos tv2.tv_sec) in
    let usec_diff = pos tv1.tv_usec -ℤ pos tv2.tv_usec in
    let limit = to_int (to_int (pos max_seconds) +ℤ pos 10) in
    if ltb_ℤ limit sec_diff
    then max_usec
    else if ltb_ℤ sec_diff (to_int (pos 0 -ℤ limit))
    then to_int (pos 0 -ℤ max_usec)
    else constrain_int (to_int (to_int (sec_diff *ℤ pos 1000000) +ℤ usec_diff))
        (to_int (pos 0 -ℤ max_usec)) max_usec

-- tv_add; the shift by 20 and the mask 0x000FFFFF are a quotient and a remainder.
unfoldable pub tv_add : Timeval → Timeval → Timeval
tv_add dest src =
    let usec = dest.tv_usec + src.tv_usec in
    let sec = dest.tv_sec + src.tv_sec + usec / 2 ^ 20 in
    let low = usec % 2 ^ 20 in
    if leb 1000000 low
    then record { tv_sec = sec + 1; tv_usec = low - 1000000 }
    else record { tv_sec = sec; tv_usec = low }

unfoldable pub tv_lt : Timeval → Timeval → Bool
tv_lt t1 t2 =
    if ltb t1.tv_sec t2.tv_sec
    then true
    else if ltb t2.tv_sec t1.tv_sec
    then false
    else ltb t1.tv_usec t2.tv_usec

unfoldable pub tv_le : Timeval → Timeval → Bool
tv_le t1 t2 =
    if ltb t1.tv_sec t2.tv_sec
    then true
    else if ltb t2.tv_sec t1.tv_sec
    then false
    else leb t1.tv_usec t2.tv_usec

unfoldable pub tv_ge : Timeval → Timeval → Bool
tv_ge t1 t2 =
    if ltb t2.tv_sec t1.tv_sec
    then true
    else if ltb t1.tv_sec t2.tv_sec
    then false
    else leb t2.tv_usec t1.tv_usec

unfoldable pub tv_gt : Timeval → Timeval → Bool
tv_gt t1 t2 =
    if ltb t2.tv_sec t1.tv_sec
    then true
    else if ltb t1.tv_sec t2.tv_sec
    then false
    else ltb t2.tv_usec t1.tv_usec

unfoldable pub tv_eq : Timeval → Timeval → Bool
tv_eq t1 t2 = (t1.tv_sec == t2.tv_sec) && (t1.tv_usec == t2.tv_usec)

unfoldable pub tv_within_sigma : Timeval → Timeval → ℕ → Bool
unfolding ◌-ℤ◌ tv_subtract
tv_within_sigma t1 t2 sigma =
    let delta = tv_subtract t1 t2 600 in leb (pos_part delta) sigma && leb (neg_part delta) sigma

-- interval_earliest_wakeup: the new value of `wakeup`.
unfoldable pub interval_earliest_wakeup : ℤ → ℕ → ℕ → ℤ
interval_earliest_wakeup wakeup at current =
    let delta = pos (at - current) in
    let sooner = if ltb_ℤ delta wakeup then delta else wakeup in
    if ltb current at then (if ltb_ℤ sooner (pos 0) then pos 0 else sooner) else wakeup
