-- ===== src/Otime/Laws.antt =====
-- The times of otime.h as numbers of microseconds.
use par_diff_vpn.Prelude.{
  ℕ, ◌+◌, ◌-◌, ◌*◌, ◌%◌, ◌^◌, ◌≤◌, ◌<◌, ◌≡◌, refl, ap, true, false, ◌&&◌, ltb, leb, ◌==◌, arith,
  min, dec_lt, ◌∙◌, if◌then◌else◌,
}
use par_diff_vpn.Prelude.Int.{ℤ, pos, negsuc, pos_part, neg_part, ◌-ℤ◌, ◌+ℤ◌, ◌*ℤ◌, ltb_ℤ}
use par_diff_vpn.Integer.{constrain_int}
use par_diff_vpn.Otime.{
  Timeval, to_int, tv_subtract, tv_add, tv_lt, tv_le, tv_ge, tv_gt, tv_eq, tv_within_sigma,
}

abbrev pub IsNormal : Timeval → Type 0
IsNormal t = t.tv_usec < 1000000

abbrev pub micros : Timeval → ℕ
micros t = t.tv_sec * 1000000 + t.tv_usec

-- For two times with less than a second of microseconds, the sum has again less than a second of
-- microseconds. It is exact if the microseconds together are below 2 ^ 20, and 48576 too small if
-- they are not.
pub tv_add_lem :
    (dest src : Timeval)
    → IsNormal dest
    → IsNormal src
    → IsNormal (tv_add dest src)
      × (micros (tv_add dest src) + (if ltb (dest.tv_usec + src.tv_usec) (2 ^ 20) then 0 else 48576)
          ≡ micros dest + micros src)
unfolding tv_add
tv_add_lem dest src h k = ground arith

-- For two times with less than a second of microseconds, the five comparisons are those of the
-- numbers of microseconds.
pub comparisons_agree :
    (t1 t2 : Timeval)
    → IsNormal t1
    → IsNormal t2
    → (tv_lt t1 t2 ≡ ltb (micros t1) (micros t2))
      × (tv_le t1 t2 ≡ leb (micros t1) (micros t2))
      × (tv_ge t1 t2 ≡ leb (micros t2) (micros t1))
      × (tv_gt t1 t2 ≡ ltb (micros t2) (micros t1))
      × (tv_eq t1 t2 ≡ (micros t1 == micros t2))
unfolding tv_lt tv_le tv_ge tv_gt tv_eq
comparisons_agree t1 t2 h k = (ground arith, ground arith, ground arith, ground arith, ground arith)

not_far : (a b m : ℕ) → a ≤ b + m + 10 → ltb_ℤ (pos (m + 10)) (pos a -ℤ pos b) ≡ false
unfolding ◌-ℤ◌
not_far a b m h = ground arith

not_behind : (a b m : ℕ) → b ≤ a + m + 10 → ltb_ℤ (pos a -ℤ pos b) (pos 0 -ℤ pos (m + 10)) ≡ false
unfolding ◌-ℤ◌
not_behind a b m h = ground arith

is_far : (a b m : ℕ) → b + m + 10 < a → ltb_ℤ (pos (m + 10)) (pos a -ℤ pos b) ≡ true
unfolding ◌-ℤ◌
is_far a b m h = ground arith

is_behind : (a b m : ℕ) → a + m + 10 < b → ltb_ℤ (pos a -ℤ pos b) (pos 0 -ℤ pos (m + 10)) ≡ true
unfolding ◌-ℤ◌
is_behind a b m h = ground arith

-- An integer that fits an int.
to_int-same : (z : ℤ) → pos_part z < 2 ^ 31 → neg_part z ≤ 2 ^ 31 → to_int z ≡ z
unfolding to_int
to_int-same (pos n) h k = ground arith
to_int-same (negsuc n) h k = ground arith

sub_fits : (a b : ℕ) → a < 2 ^ 31 + b → b ≤ 2 ^ 31 + a → to_int (pos a -ℤ pos b) ≡ pos a -ℤ pos b
unfolding ◌-ℤ◌
sub_fits a b h k = to_int-same (pos a -ℤ pos b) (ground arith) (ground arith)

abbrev IsSmall : Timeval → Type 0
IsSmall t = t.tv_sec < 2 ^ 31

-- The numbers that tv_subtract works with.
seconds_fit :
    (t1 t2 : Timeval)
    → IsSmall t1
    → IsSmall t2
    → to_int (pos t1.tv_sec -ℤ pos t2.tv_sec) ≡ pos t1.tv_sec -ℤ pos t2.tv_sec
seconds_fit t1 t2 h k = sub_fits t1.tv_sec t2.tv_sec (omega arith) (omega arith)

max_fits : (m : ℕ) → m ≤ 2136 → to_int (pos (m * 1000000 % 2 ^ 32)) ≡ pos (m * 1000000)
max_fits m h =
    let e : m * 1000000 % 2 ^ 32 ≡ m * 1000000 = omega arith in
    rw e (to_int-same (pos (m * 1000000)) (omega arith) (omega arith))

plus_ten : (m : ℕ) → pos m +ℤ pos 10 ≡ pos (m + 10)
unfolding ◌+ℤ◌
plus_ten m = ground arith

limit_fits : (m : ℕ) → m ≤ 2136 → to_int (to_int (pos m) +ℤ pos 10) ≡ pos (m + 10)
limit_fits m h =
    let inner = to_int-same (pos m) (omega arith) (omega arith) in
    rw (inner, plus_ten m) (to_int-same (pos (m + 10)) (omega arith) (omega arith))

negative_fits : (n : ℕ) → n ≤ 2 ^ 31 → to_int (pos 0 -ℤ pos n) ≡ pos 0 -ℤ pos n
negative_fits n h = sub_fits 0 n (omega arith) (omega arith)

-- The three ways through tv_subtract.
subtract-far :
    (t1 t2 : Timeval) (m : ℕ)
    → IsSmall t1
    → IsSmall t2
    → m ≤ 2136
    → t2.tv_sec + m + 10 < t1.tv_sec
    → tv_subtract t1 t2 m ≡ pos (m * 1000000)
unfolding tv_subtract
subtract-far t1 t2 m small small' bound h =
    let far : ltb_ℤ (pos (m + 10)) (pos t1.tv_sec -ℤ pos t2.tv_sec) ≡ true =
      is_far t1.tv_sec t2.tv_sec m h in
    rw (tv_subtract, seconds_fit t1 t2 small small', max_fits m bound, limit_fits m bound, far) refl

subtract-behind :
    (t1 t2 : Timeval) (m : ℕ)
    → IsSmall t1
    → IsSmall t2
    → m ≤ 2136
    → t1.tv_sec + m + 10 < t2.tv_sec
    → tv_subtract t1 t2 m ≡ pos 0 -ℤ pos (m * 1000000)
unfolding tv_subtract
subtract-behind t1 t2 m small small' bound h =
    let near = not_far t1.tv_sec t2.tv_sec m (omega arith) in
    let behind = is_behind t1.tv_sec t2.tv_sec m h in
    rw
      (
        tv_subtract,
        seconds_fit t1 t2 small small',
        max_fits m bound,
        limit_fits m bound,
        near,
        negative_fits (m + 10) (omega arith),
        behind,
      )
      (negative_fits (m * 1000000) (omega arith))

difference :
    (t1 t2 : Timeval)
    → (pos t1.tv_sec -ℤ pos t2.tv_sec) *ℤ pos 1000000 +ℤ (pos t1.tv_usec -ℤ pos t2.tv_usec)
      ≡ pos (micros t1) -ℤ pos (micros t2)
unfolding ◌-ℤ◌ ◌+ℤ◌ ◌*ℤ◌
difference t1 t2 = ground arith

-- The product and the sum fit when the seconds are near to one another.
product_fits :
    (a b : ℕ)
    → a ≤ b + 2146
    → b ≤ a + 2146
    → to_int ((pos a -ℤ pos b) *ℤ pos 1000000) ≡ (pos a -ℤ pos b) *ℤ pos 1000000
unfolding ◌-ℤ◌ ◌*ℤ◌
product_fits a b h k = to_int-same ((pos a -ℤ pos b) *ℤ pos 1000000) (ground arith) (ground arith)

subtract-near :
    (t1 t2 : Timeval) (m : ℕ)
    → IsNormal t1
    → IsNormal t2
    → IsSmall t1
    → IsSmall t2
    → m ≤ 2136
    → t1.tv_sec ≤ t2.tv_sec + m + 10
    → t2.tv_sec ≤ t1.tv_sec + m + 10
    → tv_subtract t1 t2 m
      ≡ constrain_int
          (pos (micros t1) -ℤ pos (micros t2))
          (pos 0 -ℤ pos (m * 1000000))
          (pos (m * 1000000))
unfolding tv_subtract
subtract-near t1 t2 m normal normal' small small' bound h k =
    let near = not_far t1.tv_sec t2.tv_sec m h in
    let ahead = not_behind t1.tv_sec t2.tv_sec m k in
    let sum_fits = sub_fits (micros t1) (micros t2) (omega arith) (omega arith) in
    rw
      (
        tv_subtract,
        seconds_fit t1 t2 small small',
        max_fits m bound,
        limit_fits m bound,
        near,
        negative_fits (m + 10) (omega arith),
        ahead,
        product_fits t1.tv_sec t2.tv_sec (omega arith) (omega arith),
        difference t1 t2,
        sum_fits,
        negative_fits (m * 1000000) (omega arith),
      )
      refl

negated : (n : ℕ) → (pos_part (pos 0 -ℤ pos n) ≡ 0) × (neg_part (pos 0 -ℤ pos n) ≡ n)
unfolding ◌-ℤ◌
negated n = (ground arith, ground arith)

constrained :
    (a b n : ℕ)
    → (pos_part (constrain_int (pos a -ℤ pos b) (pos 0 -ℤ pos n) (pos n)) ≡ min (a - b) n)
      × (neg_part (constrain_int (pos a -ℤ pos b) (pos 0 -ℤ pos n) (pos n)) ≡ min (b - a) n)
unfolding constrain_int ◌-ℤ◌
constrained a b n = (ground arith, ground arith)

-- For two times with less than a second of microseconds and seconds below 2 ^ 31, and for at most 2136
-- as `max_seconds`, so that no int overflows, tv_subtract is the difference in microseconds,
-- cut off at `max_seconds` in both directions.
pub tv_subtract_lem :
    (t1 t2 : Timeval) (max_seconds : ℕ)
    → IsNormal t1
    → IsNormal t2
    → t1.tv_sec < 2 ^ 31
    → t2.tv_sec < 2 ^ 31
    → max_seconds ≤ 2136
    → (pos_part (tv_subtract t1 t2 max_seconds)
        ≡ min (micros t1 - micros t2) (max_seconds * 1000000))
      × (neg_part (tv_subtract t1 t2 max_seconds)
          ≡ min (micros t2 - micros t1) (max_seconds * 1000000))
tv_subtract_lem t1 t2 max_seconds h k small small' bound =
    elim (dec_lt (t2.tv_sec + max_seconds + 10) t1.tv_sec) [
      | yes far ↦
          (let e = subtract-far t1 t2 max_seconds small small' bound far in
            (rw e (omega arith), rw e (omega arith)))
      | no near ↦ elim (dec_lt (t1.tv_sec + max_seconds + 10) t2.tv_sec) [
        | yes behind ↦
            (let (p, n) = negated (max_seconds * 1000000) in
              let e = subtract-behind t1 t2 max_seconds small small' bound behind in
              (rw (e, p) (omega arith), rw (e, n) (omega arith)))
        | no ahead ↦
            (let e =
                subtract-near t1 t2 max_seconds h k small small' bound (omega arith)
                  (omega arith) in
              let (p, n) = constrained (micros t1) (micros t2) (max_seconds * 1000000) in
              (ap pos_part e ∙ p, ap neg_part e ∙ n))
      ]
    ]

capped : (d sigma : ℕ) → sigma < 600000000 → leb (min d (600 * 1000000)) sigma ≡ leb d sigma
capped d sigma h = ground arith

within_sigma_lem :
    (t1 t2 : Timeval) (sigma : ℕ)
    → IsNormal t1
    → IsNormal t2
    → t1.tv_sec < 2 ^ 31
    → t2.tv_sec < 2 ^ 31
    → sigma < 600000000
    → tv_within_sigma t1 t2 sigma
      ≡ (leb (micros t1 - micros t2) sigma && leb (micros t2 - micros t1) sigma)
unfolding tv_within_sigma
within_sigma_lem t1 t2 sigma h k small small' close =
    let (p, n) = tv_subtract_lem t1 t2 600 h k small small' (omega arith) in
    rw
      (p, n, capped (micros t1 - micros t2) sigma close, capped (micros t2 - micros t1) sigma close)
      refl
