-- ===== src/HashTable.antt =====
-- src/openvpn-2.1.1/list.c and list.h: hash tables. The functions that hash and compare keys are
-- given by the user of a table, the record KeyOps; a value is a pointer, a number here. The number of
-- buckets is a power of two, so that the mask is a remainder. `none` is an access outside the array
-- of buckets. No key is NULL, which marks an element to be removed. The mutexes and freeing are left
-- out.
pub mod Bucket
pub mod Table
pub mod Cases
pub mod Map
pub mod Update
pub mod Tests
use par_diff_vpn.Misc.{adjust_power_of_2}
use par_diff_vpn.Prelude.{
  ℕ, zero, suc, ◌+◌, ◌-◌, ◌%◌, ◌^◌, Bool, true, false, ◌&&◌, Option, none, some, List, [], ◌∷◌,
  guard, ◌>>=◌, ◌>>◌, ltb, ◌==◌, if◌then◌else◌, get_elem?, set, map, replicate,
}

-- The fields `hash_function` and `compare_function` of struct hash
pub record KeyOps (K : Type 0) : Type 0 where
  pub hash_function : K → ℕ → ℕ
  pub compare_function : K → K → Bool

-- struct hash_element
pub record Element (K : Type 0) : Type 0 where
  pub value : ℕ
  pub key : K
  pub hash_value : ℕ

-- struct hash; a bucket is the list of its elements.
pub record Hash (K : Type 0) : Type 0 where
  pub n_buckets : ℕ
  pub n_elements : ℕ
  pub iv : ℕ
  pub buckets : List (List (Element K))

-- hash_init; `none` is its ASSERT, or an array too large to allocate, for a number of buckets that is
-- negative as an int.
unfoldable pub init : {K : Type 0} → ℕ → ℕ → Option (Hash K)
unfolding adjust_power_of_2
init n_buckets iv = do
  guard (ltb 0 n_buckets)
  n ← adjust_power_of_2 n_buckets
  guard (ltb n (2 ^ 31))
  some (record { n_buckets = n; n_elements = 0; iv = iv; buckets = replicate n [] })

module _ {K : Type 0} (ops : KeyOps K) where
  -- The loop of hash_lookup_fast and hash_remove_fast: the element that matches, and the others.
  unfoldable pub pick : K → ℕ → List (Element K) → Option (Element K × List (Element K))
  pick key hv [] = none
  pick key hv (he ∷ es) = elim (hv == he.hash_value && ops.compare_function key he.key) [
    | true ↦ some (he, es)
    | false ↦ elim (pick key hv es) [ none ↦ none | some r ↦ some (r.0, he ∷ r.1) ]
  ]

  -- hash_lookup_fast: the element that matches, moved to the head of the list.
  unfoldable pub lookup_fast : K → ℕ → List (Element K) → Option (Element K) × List (Element K)
  unfolding pick
  lookup_fast key hv bucket = elim (pick key hv bucket) [
    | none ↦ (none, bucket)
    | some r ↦ (some (r.0), r.0 ∷ r.1)
  ]

  -- hash_lookup
  unfoldable pub lookup : Hash K → K → Option (Option ℕ × Hash K)
  unfolding lookup_fast
  lookup h key =
      let hv = ops.hash_function key h.iv in
      do
        bucket ← get_elem? h.buckets (hv % h.n_buckets)
        let r = lookup_fast key hv bucket
        some (
          elim (r.0) [ none ↦ none | some he ↦ some he.value ],
          record h { buckets = set h.buckets (hv % h.n_buckets) (r.1) },
        )

  -- hash_add, with hash_add_fast
  unfoldable pub add : Hash K → K → ℕ → Bool → Option (Bool × Hash K)
  unfolding pick
  add h key value replace =
      let hv = ops.hash_function key h.iv in
      do
        bucket ← get_elem? h.buckets (hv % h.n_buckets)
        some (elim (pick key hv bucket) [
          | none ↦ (
            true,
            record h {
              n_elements = h.n_elements + 1;
              buckets =
                  set h.buckets (hv % h.n_buckets)
                    (record { value = value; key = key; hash_value = hv } ∷ bucket);
            },
          )
          | some r ↦ (
            replace,
            record h {
              buckets =
                  set h.buckets (hv % h.n_buckets)
                    ((if replace then record (r.0) { value = value } else r.0) ∷ r.1);
            },
          )
        ])

  -- hash_remove, with hash_remove_fast
  unfoldable pub remove : Hash K → K → Option (Bool × Hash K)
  unfolding pick
  remove h key =
      let hv = ops.hash_function key h.iv in
      do
        bucket ← get_elem? h.buckets (hv % h.n_buckets)
        some (elim (pick key hv bucket) [
          | none ↦ (false, h)
          | some r ↦ (
            true,
            record h {
              n_elements = h.n_elements - 1;
              buckets = set h.buckets (hv % h.n_buckets) (r.1);
            },
          )
        ])

-- hash_iterator_delete_element on the elements of a bucket with this value
unfoldable pub mark : {K : Type 0} → ℕ → List (Element K) → List (Bool × Element K)
mark value [] = []
mark value (he ∷ es) = (he.value == value, he) ∷ mark value es

-- hash_remove_marked: the elements left, and their number in the table.
unfoldable pub remove_marked : {K : Type 0} → List (Bool × Element K) → ℕ → List (Element K) × ℕ
remove_marked [] n = ([], n)
remove_marked ((true, he) ∷ es) n = remove_marked es (n - 1)
remove_marked ((false, he) ∷ es) n = (let r = remove_marked es n in (he ∷ r.0, r.1))

-- The loop of hash_remove_by_value over the buckets.
unfoldable pub remove_value_from :
    {K : Type 0} → ℕ → List (List (Element K)) → ℕ → List (List (Element K)) × ℕ
unfolding mark remove_marked
remove_value_from value [] n = ([], n)
remove_value_from value (b ∷ bs) n =
    (let r = remove_marked (mark value b) n in
      let rest = remove_value_from value bs (r.1) in (r.0 ∷ rest.0, rest.1))

-- hash_remove_by_value
unfoldable pub remove_by_value : {K : Type 0} → Hash K → ℕ → Hash K
unfolding remove_value_from
remove_by_value h value =
    (let r = remove_value_from value h.buckets h.n_elements in
      record h { n_elements = r.1; buckets = r.0 })
