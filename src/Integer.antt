-- ===== src/Integer.antt =====
-- src/openvpn-2.1.1/integer.h: bounded integers and the index arithmetic of circular buffers.
-- C's `int` is an integer here; the callers keep every value far inside 32 bits.
pub mod Laws
use par_diff_vpn.Prelude.{ℕ, Bool, ◌&&◌, ◌||◌, Option, none, some, if◌then◌else◌, not}
use par_diff_vpn.Prelude.Int.{ℤ, pos, ◌+ℤ◌, ◌-ℤ◌, ltb_ℤ, pos_part, neg_part}

abbrev leb_ℤ : ℤ → ℤ → Bool
leb_ℤ a b = not (ltb_ℤ b a)

unfoldable pub min_int : ℤ → ℤ → ℤ
min_int x y = if ltb_ℤ x y then x else y

unfoldable pub max_int : ℤ → ℤ → ℤ
max_int x y = if ltb_ℤ y x then x else y

unfoldable pub constrain_int : ℤ → ℤ → ℤ → ℤ
constrain_int x min max =
    if ltb_ℤ max min then min else if ltb_ℤ x min then min else if ltb_ℤ max x then max else x

abbrev abs : ℤ → ℕ
abs x = if ltb_ℤ x (pos 0) then neg_part x else pos_part x

-- `none` is the failed ASSERT.
unfoldable pub modulo_subtract : ℤ → ℤ → ℤ → Option ℤ
unfolding ◌+ℤ◌ ◌-ℤ◌
modulo_subtract x y modulus =
    let d1 = x -ℤ y in
    let d2 = (if ltb_ℤ y x then pos 0 -ℤ modulus else modulus) +ℤ d1 in
    if leb_ℤ (pos 0) x && ltb_ℤ x modulus && leb_ℤ (pos 0) y && ltb_ℤ y modulus
    then some (if ltb_ℤ (pos (abs d2)) (pos (abs d1)) then d2 else d1)
    else none

unfoldable pub modulo_add : ℤ → ℤ → ℤ → Option ℤ
unfolding ◌+ℤ◌ ◌-ℤ◌
modulo_add x y modulus =
    let sum = x +ℤ y in
    let low = if leb_ℤ modulus sum then sum -ℤ modulus else sum in
    if leb_ℤ (pos 0) x && ltb_ℤ x modulus && leb_ℤ (pos 0 -ℤ modulus) y && leb_ℤ y modulus
    then some (if ltb_ℤ low (pos 0) then low +ℤ modulus else low)
    else none

-- `none` is the fatal message of an index out of range.
unfoldable pub index_verify : ℤ → ℤ → Option ℤ
index_verify index size = if ltb_ℤ index (pos 0) || leb_ℤ size index then none else some index
