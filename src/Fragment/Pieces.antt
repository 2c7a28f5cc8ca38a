-- ===== src/Fragment/Pieces.antt =====
-- Which piece of a datagram a byte falls into.
use par_diff_vpn.Prelude.{
  ℕ, zero, suc, ◌+◌, ◌*◌, ◌≤◌, ◌<◌, ◌≡◌, arith, dec_lt, List, length, min, ◌-◌,
}
use par_diff_vpn.Buffer.{slice}
use par_diff_vpn.Buffer.Bytes.{length-slice-min}

-- The number of the piece that an index below `k * s` falls into.
pub block : (k s x : ℕ) → x < k * s → (n : ℕ) × (n < k) × (n * s ≤ x) × (x < n * s + s)
block zero s x h = absurd (omega arith)
block (suc k) s x h = elim (dec_lt x (k * s)) [
  | yes low ↦ (let (n, a, b, c) = block k s x low in (n, omega arith, b, c))
  | no high ↦ (k, omega arith, omega arith, grind arith)
]

pub mul_mono : (m n s : ℕ) → m ≤ n → m * s ≤ n * s
mul_mono m n s h = grind arith

pub suc_mul : (n s : ℕ) → suc n * s ≡ n * s + s
suc_mul n s = grind arith

-- The piece `n` of a datagram that is cut every `s` bytes.
abbrev pub piece : List ℕ → ℕ → ℕ → List ℕ
piece p s n = slice p (n * s) s

pub length-piece : (p : List ℕ) (s n : ℕ) → length (piece p s n) ≡ min s (length p - n * s)
length-piece p s n = length-slice-min p (n * s) s
