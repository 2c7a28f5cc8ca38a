-- ===== src/Fragment/Size.antt =====
-- The size of the pieces: optimal_fragment_size against its comment, that it does not change the
-- number of pieces.
use par_diff_vpn.Prelude.{
  ℕ, ◌+◌, ◌-◌, ◌*◌, ◌/◌, ◌%◌, ◌≤◌, ◌<◌, ◌≡◌, ap, ◌∙◌, false, ◌&&◌, some, dec_lt, min, arith, ltb,
  ◌==◌, Bool-cases, inl, inr,
}
use native.Mathlib.Nat.{div-add-mod', mul-div-le, mod-lt}
use par_diff_vpn.Fragment.{optimal_fragment_size}

-- The largest aligned size.
abbrev pub aligned : ℕ → ℕ
aligned n = n - n % 4

mul_mono_right : (k a b : ℕ) → a ≤ b → k * a ≤ k * b
mul_mono_right k a b h = grind arith

mul_mono_left : (m n s : ℕ) → m ≤ n → m * s ≤ n * s
mul_mono_left m n s h = grind arith

mul_lt_cancel : (a b c : ℕ) → a * c < b * c → a < b
mul_lt_cancel a b c h = elim (dec_lt a b) [
  | yes lt ↦ lt
  | no ge ↦ (let k = mul_mono_left b a c (omega arith) in absurd (omega arith))
]

mul_one_le : (d q : ℕ) → q ≤ (d + 1) * q
mul_one_le d q = grind arith

distribute : (k t q : ℕ) → k * (t + q) ≡ k * t + k * q
distribute k t q = grind arith

add_one_mul : (d t : ℕ) → (d + 1) * t ≡ d * t + t
add_one_mul d t = grind arith

-- Pieces of `s` bytes, a little less than `a` each, with the number of pieces `d + 1` kept.
enough :
    (a top d rem q s k : ℕ)
    → a ≤ top
    → rem ≤ top
    → (d + 1) * q ≤ top - rem
    → top - q ≤ s
    → d + 1 ≤ k
    → d * a + rem ≤ k * s
enough a top d rem q s k h r hq hs hk =
    let one : q ≤ (d + 1) * q = mul_one_le d q in
    let t : ℕ = top - q in
    let whole : (d + 1) * top ≡ (d + 1) * t + (d + 1) * q =
      (let e : top ≡ t + q = omega arith in ap (λ z. (d + 1) * z) e ∙ distribute (d + 1) t q) in
    let split : (d + 1) * top ≡ d * top + top = add_one_mul d top in
    let low = mul_mono_right d a top h in
    let up = mul_mono_right (d + 1) t s hs in let most = mul_mono_left (d + 1) k s hk in omega arith

min_mod : (a b : ℕ) → a % 4 ≡ 0 → b % 4 ≡ 0 → min a b % 4 ≡ 0
min_mod a b h k = ground arith

pub size_found :
    (len max_size : ℕ)
    → 4 ≤ max_size
    → (s : ℕ) × (optimal_fragment_size len max_size ≡ some s)
      × (s % 4 ≡ 0)
      × (0 < s)
      × (s ≤ aligned max_size)
      × ((k : ℕ) → len ≤ k * aligned max_size → len ≤ k * s)
unfolding optimal_fragment_size
size_found len max_size h =
    elim (Bool-cases (
      ltb 0 (len / aligned max_size)
      && ltb 0 (len % aligned max_size)
      && ltb (len % aligned max_size) (aligned max_size * 3 / 4))) [
        | inr plain ↦
            (let nonzero : (aligned max_size == 0) ≡ false = ground arith in
              (
                aligned max_size,
                rw (optimal_fragment_size, nonzero, plain),
                omega arith,
                omega arith,
                omega arith,
                λ k le. le,
              ))
        | inl uneven ↦
            (let a : ℕ = aligned max_size in
              let d : ℕ = len / aligned max_size in
              let rem : ℕ = len % aligned max_size in
              let q : ℕ = (max_size - rem) / (d + 1) in
              let even : ℕ = max_size - q + 3 in
              let nonzero : (aligned max_size == 0) ≡ false = ground arith in
              let d_pos : 0 < d = ground (arith, uneven) in
              let rem_pos : 0 < rem = ground (arith, uneven) in
              let rem_lt : rem < a = mod-lt len (omega arith) in
              let total : d * a + rem ≡ len = div-add-mod' len a in
              let part : (d + 1) * q ≤ max_size - rem = mul-div-le (max_size - rem) (d + 1) in
              let one : q ≤ (d + 1) * q = mul_one_le d q in
              let found : optimal_fragment_size len max_size ≡ some (min a (even - even % 4)) =
                rw (optimal_fragment_size, nonzero, uneven) in
              (
                min a (even - even % 4),
                found,
                min_mod a (even - even % 4) (omega arith) (omega arith),
                omega arith,
                omega arith,
                λ k le. elim (dec_lt (even - even % 4) a) [
                  | no big ↦ (let e : min a (even - even % 4) ≡ a = omega arith in rw e le)
                  | yes small ↦
                      (let e : min a (even - even % 4) ≡ even - even % 4 = omega arith in
                        let more : d < k = mul_lt_cancel d k a (omega arith) in
                        let all =
                          enough a max_size d rem q (even - even % 4) k (omega arith) (omega arith)
                            part (omega arith) (omega arith) in
                        rw e (omega arith))
                ],
              ))
      ]

-- For sizes from 4 on, optimal_fragment_size gives a positive multiple of 4 that is at most the
-- largest aligned size, and if `k` pieces of that largest size are enough, then `k` pieces of this
-- size are enough as well.
pub size_lem :
    (len max_size k : ℕ)
    → 4 ≤ max_size
    → len ≤ k * aligned max_size
    → (s : ℕ) × (optimal_fragment_size len max_size ≡ some s)
      × (s % 4 ≡ 0)
      × (0 < s)
      × (s ≤ aligned max_size)
      × (len ≤ k * s)
size_lem len max_size k h le =
    let (s, found, even, positive, most, fewer) = size_found len max_size h in
    (s, found, even, positive, most, fewer k le)
