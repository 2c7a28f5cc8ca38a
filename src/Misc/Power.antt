-- ===== src/Misc/Power.antt =====
-- adjust_power_of_2 of misc.c.
use par_diff_vpn.Prelude.{
  ℕ, zero, suc, ◌+◌, ◌*◌, ◌%◌, ◌^◌, ◌≤◌, ◌<◌, ◌≡◌, refl, true, false, some, arith, ◌⊎◌, inl, inr,
  Bool-cases, dec_lt, ltb,
}
use par_diff_vpn.Misc.{power_from, adjust_power_of_2}

pub power : ℕ → ℕ
power zero = 1
power (suc k) = power k * 2

power_mono : (j k : ℕ) → j ≤ k → power j ≤ power k
unfolding power
power_mono j zero h = (let e : j ≡ 0 = omega arith in rw e (omega arith))
power_mono j (suc k) h = elim (dec_lt k j) [
  | yes eq ↦ (let e : j ≡ suc k = omega arith in rw e (omega arith))
  | no le ↦ (let r = power_mono j k (omega arith) in omega arith)
]

power_positive : (k : ℕ) → 0 < power k
unfolding power
power_positive zero = omega arith
power_positive (suc k) = (let r = power_positive k in omega arith)

power_top : power 63 ≡ 2 ^ 63
unfolding power
power_top = refl

power-suc : (k : ℕ) → power (suc k) ≡ power k * 2
unfolding power
power-suc k = refl

doubled : (k : ℕ) → power k < 2 ^ 63 → power k * 2 % 2 ^ 64 ≡ power (suc k)
unfolding power
doubled k h = omega arith

power_from_lem :
    (rounds k u : ℕ)
    → u ≤ 2 ^ 63
    → 63 ≤ k + rounds
    → (j : ℕ) × (power_from rounds (power k) u ≡ some (power j))
      × (u ≤ power j)
      × ((power j ≡ power k) ⊎ (power j < u * 2))
unfolding power_from
power_from_lem zero k u small enough =
    let top = power_mono 63 k (omega arith) in
    let t = power_top in
    let over : ltb (power k) u ≡ false = ground (arith, top, t, small) in
    (k, rw (over, power_from) refl, omega (arith, top, t), inl refl)
power_from_lem (suc rounds) k u small enough = elim (Bool-cases (ltb (power k) u)) [
  | inr done ↦ (k, rw (done, power_from) refl, ground (arith, done), inl refl)
  | inl under ↦
      (let lt : power k < u = ground (arith, under) in
        let next : power k * 2 % 2 ^ 64 ≡ power (suc k) = doubled k (omega arith) in
        let positive : ltb 0 (power (suc k)) ≡ true =
          (let p = power_positive (suc k) in ground arith) in
        let (j, found, enough_j, least) = power_from_lem rounds (suc k) u small (omega arith) in
        (
          j,
          rw (under, next, positive, power_from) found,
          enough_j,
          elim least [
            | inl same ↦ inr (let s = power-suc k in omega arith)
            | inr below ↦ inr below
          ],
        ))
]

-- For a size up to 2 ^ 63 adjust_power_of_2 ends before its ASSERT can fail, with a power of two
-- that is large enough, and that is 1 or less than twice the size.
pub adjust_power_of_2_lem :
    (u : ℕ)
    → u ≤ 2 ^ 63
    → (j : ℕ) × (adjust_power_of_2 u ≡ some (power j))
      × (u ≤ power j)
      × ((power j ≡ 1) ⊎ (power j < u * 2))
unfolding adjust_power_of_2 power
adjust_power_of_2_lem u small = power_from_lem 64 0 u small (omega arith)
