-- ===== src/HashTable/Cases.antt =====
-- What the operations of a hash table do in the two cases of the search of the bucket.
use par_diff_vpn.Prelude.{
  ℕ, ◌+◌, ◌-◌, ◌≡◌, refl, Bool, true, false, none, some, List, ◌∷◌, if◌then◌else◌, get_elem?,
}
use par_diff_vpn.HashTable.{KeyOps, Element, Hash, pick, lookup_fast, lookup, add, remove}
use par_diff_vpn.HashTable.Table.{place, with_bucket}

module _ {K : Type 0} (ops : KeyOps K) (h : Hash K) (key : K) (es : List (Element K)) where
  fast_missing :
      pick ops key (ops.hash_function key h.iv) es ≡ none
      → lookup_fast ops key (ops.hash_function key h.iv) es ≡ (none, es)
  unfolding lookup_fast
  fast_missing missing = rw (missing, lookup_fast) refl

  pub lookup_missing :
      get_elem? h.buckets (place ops h key) ≡ some es
      → pick ops key (ops.hash_function key h.iv) es ≡ none
      → lookup ops h key ≡ some (none, with_bucket ops h (place ops h key) es h.n_elements)
  unfolding lookup
  lookup_missing e missing = rw (e, fast_missing missing) refl

  pub add_new :
      (value : ℕ) (replace : Bool)
      → get_elem? h.buckets (place ops h key) ≡ some es
      → pick ops key (ops.hash_function key h.iv) es ≡ none
      → add ops h key value replace
        ≡ some (
          true,
          with_bucket ops h
              (place ops h key)
              (record { value = value; key = key; hash_value = ops.hash_function key h.iv } ∷ es)
              (h.n_elements + 1),
        )
  unfolding add
  add_new value replace e missing = rw (e, missing) refl

  pub remove_missing :
      get_elem? h.buckets (place ops h key) ≡ some es
      → pick ops key (ops.hash_function key h.iv) es ≡ none
      → remove ops h key ≡ some (false, h)
  unfolding remove
  remove_missing e missing = rw (e, missing) refl

  module _ (he : Element K) (rest : List (Element K)) where
    fast_found :
        pick ops key (ops.hash_function key h.iv) es ≡ some (he, rest)
        → lookup_fast ops key (ops.hash_function key h.iv) es ≡ (some he, he ∷ rest)
    unfolding lookup_fast
    fast_found found = rw (found, lookup_fast) refl

    pub lookup_found :
        get_elem? h.buckets (place ops h key) ≡ some es
        → pick ops key (ops.hash_function key h.iv) es ≡ some (he, rest)
        → lookup ops h key
          ≡ some (some he.value, with_bucket ops h (place ops h key) (he ∷ rest) h.n_elements)
    unfolding lookup
    lookup_found e found = rw (e, fast_found found) refl

    pub add_old :
        (value : ℕ) (replace : Bool)
        → get_elem? h.buckets (place ops h key) ≡ some es
        → pick ops key (ops.hash_function key h.iv) es ≡ some (he, rest)
        → add ops h key value replace
          ≡ some (
            replace,
            with_bucket ops h
                (place ops h key)
                ((if replace then record he { value = value } else he) ∷ rest)
                h.n_elements,
          )
    unfolding add
    add_old value replace e found = rw (e, found) refl

    pub remove_found :
        get_elem? h.buckets (place ops h key) ≡ some es
        → pick ops key (ops.hash_function key h.iv) es ≡ some (he, rest)
        → remove ops h key
          ≡ some (true, with_bucket ops h (place ops h key) rest (h.n_elements - 1))
    unfolding remove
    remove_found e found = rw (e, found) refl
