-- ===== src/Pool/Tests.antt =====
-- The theorems on the address pool at concrete inputs.
use par_diff_vpn.Prelude.{
  ℕ, ◌≤◌, ◌<◌, ◌≡◌, ◌≢◌, refl, true, false, none, some, List, [], ◌∷◌, arith, ◌⊎◌, length,
  get_elem?,
}
use par_diff_vpn.Pool.{
  Pool, Entry, net30, init, find, was_used_by, name_equal, acquire, taken, addresses,
  ip_base_to_handle, handle_to_ip_base, free_entry,
}
use par_diff_vpn.Pool.Address.{IsPool, handle-ip_base, init_lem}
use par_diff_vpn.Pool.Find.{IsFree, find-previous}
use par_diff_vpn.Pool.Acquire.{acquire_lem}

abbrev alice : List ℕ
alice = 97 ∷ 108 ∷ []

-- Alice's old entry is free, another one is in use.
abbrev alice_entry : Entry
alice_entry = record { in_use = false; common_name = some alice; last_release = 9; fixed = false }

abbrev busy_entry : Entry
busy_entry = record free_entry { in_use = true }

abbrev small_pool : Pool
small_pool = record {
  base = 1000;
  pool_type = net30;
  duplicate_cn = false;
  list = busy_entry ∷ free_entry ∷ alice_entry ∷ [];
}

small_pool-IsPool : IsPool small_pool
small_pool-IsPool = (omega arith, omega arith)

acquire_lem_example :
    ((find small_pool (some alice) ≡ none)
      × (acquire small_pool (some alice) ≡ some (none, small_pool)))
    ⊎ ((i : ℕ) × (e : Entry) × (pool' : Pool) × (find small_pool (some alice) ≡ some i)
        × (get_elem? small_pool.list i ≡ some e)
        × (e.in_use ≡ false)
        × (acquire small_pool (some alice)
            ≡ some (some (i, (addresses small_pool i).0, (addresses small_pool i).1), pool'))
        × (get_elem? pool'.list i ≡ some (taken (some alice) e))
        × ((j : ℕ) → j ≢ i → get_elem? pool'.list j ≡ get_elem? small_pool.list j))
acquire_lem_example = acquire_lem small_pool (some alice)

find-previous_example :
    (i : ℕ) × (find small_pool (some alice) ≡ some i)
    × IsFree (λ e. was_used_by (some alice) e ≡ true) small_pool.list i
unfolding was_used_by name_equal
find-previous_example = find-previous small_pool (some alice) 2 refl (alice_entry, refl, refl, refl)

handle-ip_base_example : ip_base_to_handle small_pool (handle_to_ip_base small_pool 2) ≡ some 2
handle-ip_base_example = handle-ip_base small_pool 2 small_pool-IsPool (omega arith)

init_lem_example :
    (pool : Pool) × (init net30 1000 1009 false ≡ some pool)
    × IsPool pool
    × ((addr : ℕ)
        → 1000 ≤ addr
        → addr ≤ 1009
        → (h : ℕ) × (ip_base_to_handle pool addr ≡ some h) × (h < length pool.list))
init_lem_example = init_lem net30 1000 1009 false (omega arith) (omega arith) (omega arith)
