-- ===== src/HashTable/Tests.antt =====
-- The theorems on hash tables at a table of numbers.
use par_diff_vpn.Prelude.{
  ℕ, ◌+◌, ◌%◌, ◌^◌, ◌≡◌, refl, ap, true, ◌&&◌, none, some, [], ◌∷◌, arith, ◌==◌, if◌then◌else◌,
}
use par_diff_vpn.HashTable.{KeyOps, Element, Hash, init, lookup, add, remove, remove_by_value}
use par_diff_vpn.HashTable.Bucket.{IsKeyOps}
use par_diff_vpn.HashTable.Table.{IsTable, value_of}
use par_diff_vpn.HashTable.Map.{lookup_lem}
use par_diff_vpn.HashTable.Update.{accepts, is_there, add_lem, remove_lem}

-- Numbers as keys, hashed by a sum.
abbrev numbers : KeyOps ℕ
numbers = record { hash_function = λ k iv. (k + iv) % 2 ^ 32; compare_function = λ a b. a == b }

numbers-IsKeyOps : IsKeyOps numbers
numbers-IsKeyOps = record {
  equal_refl = λ a. ground arith;
  equal_sym = λ a b e. ground arith;
  equal_trans = λ a b c e f. ground arith;
  same_hash = λ a b iv e. (let q : a ≡ b = ground arith in ap (λ k. (k + iv) % 2 ^ 32) q);
}

abbrev element : ℕ → ℕ → Element ℕ
element k v = record { value = v; key = k; hash_value = k + 7 }

-- Two buckets; the keys 1 and 5 share one.
abbrev filled : Hash ℕ
filled = record {
  n_buckets = 2;
  n_elements = 3;
  iv = 7;
  buckets = (element 5 50 ∷ element 1 10 ∷ []) ∷ (element 2 20 ∷ []) ∷ [];
}

filled-IsTable : IsTable numbers filled
filled-IsTable = record {
  nonempty = omega arith;
  size = refl;
  buckets_ok = (((refl, (refl, tt)), ((refl, tt), (tt, tt))), (((refl, tt), (tt, tt)), tt));
  counted = refl;
}

filled_moved :
    lookup numbers filled 1
    ≡ some (
      some 10,
      record filled { buckets = (element 1 10 ∷ element 5 50 ∷ []) ∷ (element 2 20 ∷ []) ∷ [] },
    )
unfolding lookup
filled_moved = refl

filled_without :
    remove_by_value filled 10
    ≡ record filled { n_elements = 2; buckets = (element 5 50 ∷ []) ∷ (element 2 20 ∷ []) ∷ [] }
unfolding remove_by_value
filled_without = refl

three_buckets :
    init {K = ℕ} 3 7
    ≡ some (record { n_buckets = 4; n_elements = 0; iv = 7; buckets = [] ∷ [] ∷ [] ∷ [] ∷ [] })
unfolding init
three_buckets = refl

lookup_lem_example :
    (h' : Hash ℕ) × (lookup numbers filled 1 ≡ some (value_of numbers filled 1, h'))
    × IsTable numbers h'
    × (value_of numbers h' 5 ≡ value_of numbers filled 5)
lookup_lem_example = lookup_lem numbers-IsKeyOps filled 1 5 filled-IsTable

add_lem_example :
    (h' : Hash ℕ) × (add numbers filled 5 55 true
      ≡ some (accepts (value_of numbers filled 5) true, h'))
    × IsTable numbers h'
    × (value_of numbers h' 5 ≡ (
        if 5 == 5 && accepts (value_of numbers filled 5) true
        then some 55
        else value_of numbers filled 5))
add_lem_example = add_lem numbers-IsKeyOps filled 5 55 true 5 filled-IsTable

remove_lem_example :
    (h' : Hash ℕ) × (remove numbers filled 5 ≡ some (is_there (value_of numbers filled 5), h'))
    × IsTable numbers h'
    × (value_of numbers h' 1 ≡ (if 1 == 5 then none else value_of numbers filled 1))
remove_lem_example = remove_lem numbers-IsKeyOps filled 5 1 filled-IsTable
