-- ===== src/CircList.antt =====
-- src/openvpn-2.1.1/circ_list.h: the macros of a circular list of fixed capacity.
-- The `int` fields are never negative. `none` is a failed ASSERT, the fatal index check, or an
-- access outside the allocated array.
pub mod Laws
pub mod Tests
use par_diff_vpn.Prelude.{
  ℕ, ◌+◌, Option, none, some, List, guard, ◌>>=◌, ◌>>◌, ltb, length, get_elem?, set, replicate, min,
}
use par_diff_vpn.Prelude.Int.{pos, negsuc, pos_part}
use par_diff_vpn.Integer.{modulo_add, index_verify}

pub record CircList {ℓ} (A : Type ℓ) : Type ℓ where
  pub x_head : ℕ
  pub x_size : ℕ
  pub x_cap : ℕ
  pub x_list : List A

module _ {ℓ} {A : Type ℓ} where
  -- An assignment to `x_list[k]`.
  store : List A → ℕ → A → Option (List A)
  store xs k v = do guard (ltb k (length xs)); some (set xs k v)

  -- CIRC_LIST_PUSH
  unfoldable pub push : CircList A → A → Option (CircList A)
  unfolding store
  push c v = do
    head ← modulo_add (pos c.x_head) (negsuc 0) (pos c.x_cap)
    xs ← store c.x_list (pos_part head) v
    some (record c { x_head = pos_part head; x_list = xs; x_size = min (c.x_size + 1) c.x_cap })

  -- CIRC_LIST_INDEX
  unfoldable pub index : CircList A → ℕ → Option ℕ
  index c i = do
    k ← index_verify (pos i) (pos c.x_size)
    j ← modulo_add (pos c.x_head) k (pos c.x_cap)
    some (pos_part j)

  -- CIRC_LIST_ITEM, read
  unfoldable pub item : CircList A → ℕ → Option A
  unfolding index
  item c i = do j ← index c i; get_elem? c.x_list j

  -- CIRC_LIST_ITEM, assigned
  unfoldable pub set_item : CircList A → ℕ → A → Option (CircList A)
  unfolding index store
  set_item c i v = do j ← index c i; xs ← store c.x_list j v; some (record c { x_list = xs })

  -- CIRC_LIST_RESET
  unfoldable pub reset : CircList A → CircList A
  reset c = record c { x_head = 0; x_size = 0 }

  -- CIRC_LIST_ALLOC: `memset` writes `zero_item` in every place.
  unfoldable pub alloc : A → ℕ → CircList A
  alloc zero_item size = record {
    x_head = 0;
    x_size = 0;
    x_cap = size;
    x_list = replicate size zero_item;
  }
