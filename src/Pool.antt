-- ===== src/Pool.antt =====
-- src/openvpn-2.1.1/pool.c and pool.h: the pool of client addresses of --ifconfig-pool. `now` is an
-- argument, a common name is its list of bytes, an address is a number below 2 ^ 32, and a handle
-- of -1 is `none`. The list's length is the field `size`. An outer `none` is a failed ASSERT.
pub mod Address
pub mod Find
pub mod Acquire
pub mod Tests
use par_diff_vpn.Prelude.{
  ℕ, zero, suc, ◌+◌, ◌-◌, ◌*◌, ◌/◌, ◌%◌, ◌^◌, Bool, true, false, not, ◌&&◌, ◌||◌, Option, none,
  some, List, [], ◌∷◌, guard, ◌>>=◌, ◌>>◌, ltb, leb, ◌==◌, if◌then◌else◌, length, get_elem?, set,
  replicate,
}

abbrev pub pool_max : ℕ
pool_max = 65536

-- IFCONFIG_POOL_30NET and IFCONFIG_POOL_INDIV
pub data PoolType : Type 0 where
  net30 indiv : PoolType

-- struct ifconfig_pool_entry
pub record Entry : Type 0 where
  pub in_use : Bool
  pub common_name : Option (List ℕ)
  pub last_release : ℕ
  pub fixed : Bool

-- struct ifconfig_pool
pub record Pool : Type 0 where
  pub base : ℕ
  pub pool_type : PoolType
  pub duplicate_cn : Bool
  pub list : List Entry

-- strcmp gives 0.
unfoldable pub name_equal : List ℕ → List ℕ → Bool
name_equal [] [] = true
name_equal [] (y ∷ ys) = false
name_equal (x ∷ xs) [] = false
name_equal (x ∷ xs) (y ∷ ys) = x == y && name_equal xs ys

-- ifconfig_pool_entry_free
unfoldable pub entry_free : ℕ → Bool → Entry → Entry
entry_free now hard e = record e {
  in_use = false;
  common_name = if hard then none else e.common_name;
  last_release = if hard then 0 else now;
}

-- The variables of ifconfig_pool_find.
pub record Search : Type 0 where
  pub earliest_release : ℕ
  pub previous_usage : Option ℕ
  pub new_usage : Option ℕ

-- Whether the entry was last used under the name.
unfoldable pub was_used_by : Option (List ℕ) → Entry → Bool
was_used_by none e = false
was_used_by (some name) e = elim e.common_name [ none ↦ false | some old ↦ name_equal name old ]

-- The entry at `i`, which is free, in the loop of ifconfig_pool_find.
unfoldable pub note_released : ℕ → Entry → Search → Search
note_released i e s =
    if (elim s.new_usage [ none ↦ true | some j ↦ ltb e.last_release s.earliest_release ])
      && not e.fixed
    then record s { earliest_release = e.last_release; new_usage = some i }
    else s

unfoldable pub note_previous : Option (List ℕ) → ℕ → Entry → Search → Search
note_previous name i e s = elim s.previous_usage [
  | some j ↦ s
  | none ↦ (if was_used_by name e then record s { previous_usage = some i } else s)
]

-- The loop of ifconfig_pool_find, from index `i`.
unfoldable pub find_from : Bool → Option (List ℕ) → ℕ → Search → List Entry → Search
find_from dup name i s [] = s
find_from dup name i s (e ∷ es) =
    let next = if e.in_use then s else note_previous name i e (note_released i e s) in
    let rest = find_from dup name (i + 1) next es in
    if not e.in_use && dup then record s { new_usage = some i } else rest

-- ifconfig_pool_find
unfoldable pub find : Pool → Option (List ℕ) → Option ℕ
find pool name =
    let s =
      find_from pool.duplicate_cn name 0
        (record { earliest_release = 0; previous_usage = none; new_usage = none }) pool.list in
    elim s.previous_usage [ some i ↦ some i | none ↦ s.new_usage ]

-- ifconfig_pool_verify_range
unfoldable pub verify_range : ℕ → ℕ → Bool
verify_range start end = leb start end && ltb ((end + 2 ^ 32 - start) % 2 ^ 32) pool_max

abbrev pub free_entry : Entry
free_entry = record { in_use = false; common_name = none; last_release = 0; fixed = false }

-- The field `base` that ifconfig_pool_init sets, and the field `size`.
unfoldable pub init_base : PoolType → ℕ → ℕ
init_base net30 start = start - start % 4
init_base indiv start = start

unfoldable pub init_size : PoolType → ℕ → ℕ → ℕ
init_size net30 start end =
    ((end - end % 4 + 4) % 2 ^ 32 + 2 ^ 32 - (start - start % 4)) % 2 ^ 32 / 4
init_size indiv start end = end - start + 1

-- ifconfig_pool_init
unfoldable pub init : PoolType → ℕ → ℕ → Bool → Option Pool
init pool_type start end duplicate_cn = do
  guard (leb start end && ltb (end - start) pool_max)
  some (record {
    base = init_base pool_type start;
    pool_type = pool_type;
    duplicate_cn = duplicate_cn;
    list = replicate (init_size pool_type start end) free_entry;
  })

-- The addresses `local` and `remote` of a handle, in ifconfig_pool_acquire.
unfoldable pub addresses : Pool → ℕ → ℕ × ℕ
addresses pool i = elim pool.pool_type [
  | net30 ↦
      ((((pool.base + i * 4) % 2 ^ 32 + 1) % 2 ^ 32, ((pool.base + i * 4) % 2 ^ 32 + 2) % 2 ^ 32))
  | indiv ↦ (0, (pool.base + i) % 2 ^ 32)
]

-- The entry that ifconfig_pool_acquire hands out.
unfoldable pub taken : Option (List ℕ) → Entry → Entry
taken name e = record e { in_use = true; common_name = name; last_release = 0 }

-- ifconfig_pool_acquire: the handle with its addresses, or `none` for -1.
unfoldable pub acquire : Pool → Option (List ℕ) → Option (Option (ℕ × ℕ × ℕ) × Pool)
acquire pool name = elim (find pool name) [
  | none ↦ some (none, pool)
  | some i ↦ (do
    e ← get_elem? pool.list i
    guard (not e.in_use)
    some (
      some (i, (addresses pool i).0, (addresses pool i).1),
      record pool { list = set pool.list i (taken name e) },
    ))
]

-- ifconfig_pool_release; a handle is a number or -1.
unfoldable pub release : ℕ → Pool → Option ℕ → Bool → Bool × Pool
release now pool none hard = (false, pool)
release now pool (some hand) hard = elim (get_elem? pool.list hand) [
  | none ↦ (false, pool)
  | some e ↦ (true, record pool { list = set pool.list hand (entry_free now hard e) })
]

-- ifconfig_pool_ip_base_to_handle; the unsigned difference is turned into an int.
unfoldable pub ip_base_to_handle : Pool → ℕ → Option ℕ
ip_base_to_handle pool addr =
    let distance = (addr + 2 ^ 32 - pool.base) % 2 ^ 32 in
    let ret : ℕ = elim pool.pool_type [ net30 ↦ distance / 4 | indiv ↦ distance ] in
    if leb (2 ^ 31) ret || leb (length pool.list) ret then none else some ret

-- ifconfig_pool_handle_to_ip_base; 0 for a handle that is out of range.
unfoldable pub handle_to_ip_base : Pool → ℕ → ℕ
handle_to_ip_base pool hand =
    if ltb hand (length pool.list)
    then elim pool.pool_type [
      | net30 ↦ (pool.base + hand * 4) % 2 ^ 32
      | indiv ↦ (pool.base + hand) % 2 ^ 32
    ]
    else 0

-- ifconfig_pool_set
unfoldable pub set_entry : ℕ → Pool → List ℕ → ℕ → Bool → Pool
set_entry now pool cn addr fixed = elim (ip_base_to_handle pool addr) [
  | none ↦ pool
  | some h ↦ elim (get_elem? pool.list h) [
    | none ↦ pool
    | some e ↦ record pool {
      list =
          set pool.list h
            (record e { in_use = false; common_name = some cn; last_release = now; fixed = fixed });
    }
  ]
]

-- ifconfig_pool_list: the lines written, each a common name and the entry's address.
unfoldable pub list_from : Pool → ℕ → List Entry → List (List ℕ × ℕ)
list_from pool i [] = []
list_from pool i (e ∷ es) = elim e.common_name [
  | none ↦ list_from pool (i + 1) es
  | some cn ↦ (cn, handle_to_ip_base pool i) ∷ list_from pool (i + 1) es
]

-- ifconfig_pool_read: the lines of the persist file, already taken apart.
unfoldable pub read : ℕ → Bool → List (List ℕ × ℕ) → Pool → Pool
read now fixed [] pool = pool
read now fixed (line ∷ lines) pool =
    read now fixed lines (set_entry now pool (line.0) (line.1) fixed)
