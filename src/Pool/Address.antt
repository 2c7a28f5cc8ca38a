-- ===== src/Pool/Address.antt =====
-- The addresses of a pool and its handles.
use par_diff_vpn.Prelude.{
  ℕ, ◌+◌, ◌-◌, ◌*◌, ◌/◌, ◌%◌, ◌^◌, ◌≤◌, ◌<◌, ◌≡◌, ◌≢◌, Bool, some, List, length, length-replicate,
  replicate, arith,
}
use par_diff_vpn.Pool.{
  Pool, PoolType, net30, indiv, Entry, init, init_base, init_size, ip_base_to_handle,
  handle_to_ip_base, addresses, free_entry, pool_max,
}

abbrev pub stride : PoolType → ℕ
stride net30 = 4
stride indiv = 1

-- The addresses of the pool do not run past the end of the address space.
abbrev pub IsPool : Pool → Type 0
IsPool pool =
    (length pool.list ≤ pool_max) × (pool.base + stride pool.pool_type * length pool.list ≤ 2 ^ 32)

abbrev make : ℕ → PoolType → Bool → List Entry → Pool
make b t d l = record { base = b; pool_type = t; duplicate_cn = d; list = l }

handle-ip_base_at :
    (b : ℕ) (t : PoolType) (d : Bool) (l : List Entry) (hand : ℕ)
    → IsPool (make b t d l)
    → hand < length l
    → ip_base_to_handle (make b t d l) (handle_to_ip_base (make b t d l) hand) ≡ some hand
unfolding ip_base_to_handle handle_to_ip_base
handle-ip_base_at b net30 d l hand p h =
    let far : b + 4 * length l ≤ 2 ^ 32 = p.1 in
    let n : length l ≤ 65536 = p.0 in
    let same : ((b + hand * 4) % 2 ^ 32 + 2 ^ 32 - b) % 2 ^ 32 / 4 ≡ hand = omega arith in
    ground (arith, same)
handle-ip_base_at b indiv d l hand p h =
    let far : b + 1 * length l ≤ 2 ^ 32 = p.1 in
    let n : length l ≤ 65536 = p.0 in
    let same : ((b + hand) % 2 ^ 32 + 2 ^ 32 - b) % 2 ^ 32 ≡ hand = omega arith in
    ground (arith, same)

-- In a pool that stays within the address space, ifconfig_pool_ip_base_to_handle takes the
-- address of a handle back to the handle.
pub handle-ip_base :
    (pool : Pool) (hand : ℕ)
    → IsPool pool
    → hand < length pool.list
    → ip_base_to_handle pool (handle_to_ip_base pool hand) ≡ some hand
handle-ip_base pool = handle-ip_base_at pool.base pool.pool_type pool.duplicate_cn pool.list

addresses_apart_at :
    (b : ℕ) (t : PoolType) (d : Bool) (l : List Entry) (i j : ℕ)
    → IsPool (make b t d l)
    → i < length l
    → j < length l
    → i ≢ j
    → (addresses (make b t d l) i).1 ≢ (addresses (make b t d l) j).1
unfolding addresses
addresses_apart_at b net30 d l i j p h k ne same =
    let far : b + 4 * length l ≤ 2 ^ 32 = p.1 in omega arith
addresses_apart_at b indiv d l i j p h k ne same =
    let far : b + 1 * length l ≤ 2 ^ 32 = p.1 in omega arith

-- Two handles of a pool that stays within the address space have different remote addresses.
pub addresses_apart :
    (pool : Pool) (i j : ℕ)
    → IsPool pool
    → i < length pool.list
    → j < length pool.list
    → i ≢ j
    → (addresses pool i).1 ≢ (addresses pool j).1
addresses_apart pool = addresses_apart_at pool.base pool.pool_type pool.duplicate_cn pool.list

-- ifconfig_pool_init accepts a range in order that is shorter than IFCONFIG_POOL_MAX, the pool stays
-- within the address space, and every address of the range has a handle.
pub init_lem :
    (pool_type : PoolType) (start end : ℕ) (dup : Bool)
    → end < 2 ^ 32
    → start ≤ end
    → end - start < pool_max
    → (pool : Pool) × (init pool_type start end dup ≡ some pool)
      × IsPool pool
      × ((addr : ℕ)
          → start ≤ addr
          → addr ≤ end
          → (h : ℕ) × (ip_base_to_handle pool addr ≡ some h) × (h < length pool.list))
unfolding init init_base init_size ip_base_to_handle
init_lem net30 start end dup below order size =
    let n : ℕ = init_size net30 start end in
    let l : List Entry = replicate n free_entry in
    let len : length l ≡ n = length-replicate n free_entry in
    let count : n * 4 ≡ end - end % 4 + 4 - (start - start % 4) = omega arith in
    let here : init net30 start end dup ≡ some (make (start - start % 4) net30 dup l) =
      ground arith in
    (
      make (start - start % 4) net30 dup l,
      here,
      (omega arith, omega arith),
      λ addr low high.
          let distance : (addr + 2 ^ 32 - (start - start % 4)) % 2 ^ 32
              ≡ addr - (start - start % 4) =
            omega arith in
          let h : ℕ = (addr + 2 ^ 32 - (start - start % 4)) % 2 ^ 32 / 4 in
          let short : h < length l = omega arith in (h, ground arith, short),
    )
init_lem indiv start end dup below order size =
    let l : List Entry = replicate (end - start + 1) free_entry in
    let len : length l ≡ end - start + 1 = length-replicate (end - start + 1) free_entry in
    let here : init indiv start end dup ≡ some (make start indiv dup l) = ground arith in
    (
      make start indiv dup l,
      here,
      (omega arith, omega arith),
      λ addr low high.
          let h : ℕ = (addr + 2 ^ 32 - start) % 2 ^ 32 in
          let short : h < length l = omega arith in (h, ground arith, short),
    )
