-- ===== src/Integer/Laws.antt =====
-- What the index arithmetic of integer.h computes, on the ranges that its callers keep to.
use par_diff_vpn.Prelude.{ℕ, zero, suc, ◌+◌, ◌-◌, ◌≤◌, ◌<◌, ◌≡◌, some, arith, leb, if◌then◌else◌}
use par_diff_vpn.Prelude.Int.{pos, negsuc}
use par_diff_vpn.Integer.{modulo_add, index_verify}

-- The index `i` steps forward from `head` on a circle of `cap` places.
abbrev pub forward : ℕ → ℕ → ℕ → ℕ
forward head i cap = if leb cap (head + i) then head + i - cap else head + i

-- The place before `head`.
abbrev pub backward : ℕ → ℕ → ℕ
backward zero cap = cap - 1
backward (suc n) cap = n

pub modulo_add-forward :
    (x y modulus : ℕ)
    → x < modulus
    → y ≤ modulus
    → modulo_add (pos x) (pos y) (pos modulus) ≡ some (pos (forward x y modulus))
unfolding modulo_add
modulo_add-forward x y modulus hx hy = ground arith

pub modulo_add-backward :
    (x modulus : ℕ)
    → x < modulus
    → modulo_add (pos x) (negsuc 0) (pos modulus) ≡ some (pos (backward x modulus))
unfolding modulo_add
modulo_add-backward zero modulus h = ground arith
modulo_add-backward (suc x) modulus h = ground arith

pub index_verify_within : (i size : ℕ) → i < size → index_verify (pos i) (pos size) ≡ some (pos i)
unfolding index_verify
index_verify_within i size h = ground arith
