-- ===== src/HashTable/Map.antt =====
-- hash_lookup, hash_add and hash_remove as operations on a map.
use native.Mathlib.Nat.{mod-lt}
use par_diff_vpn.Prelude.{
  ℕ, ◌%◌, ◌≡◌, ◌≢◌, refl, sym, ap, ◌∙◌, false, Option, none, some, List, ◌∷◌, arith, inl, inr,
  Bool-cases, if◌then◌else◌, get_elem?, get_elem?_total,
}
use par_diff_vpn.HashTable.{KeyOps, Element, Hash, lookup}
use par_diff_vpn.HashTable.Cases.{lookup_missing, lookup_found}
use par_diff_vpn.HashTable.Bucket.{
  IsKeyOps, get, AreApart, Absent-get, Absent-same, IsPicked, pick-cases,
}
use par_diff_vpn.HashTable.Table.{
  IsBucket, IsTable, place, value_in, value_of, with_bucket, get-AreBuckets, with_bucket-IsTable,
  with_bucket-value_of,
}

module _ {K : Type 0} {ops : KeyOps K} (laws : IsKeyOps ops) where
  -- The bucket of a key.
  pub own-IsBucket :
      (h : Hash K) (key : K)
      → IsTable ops h
      → (es : List (Element K)) × (get_elem? h.buckets (place ops h key) ≡ some es)
        × IsBucket ops h.iv es
  own-IsBucket h key t =
      let (es, e) =
        get_elem?_total h.buckets (place ops h key) (
          let m = mod-lt (ops.hash_function key h.iv) t.nonempty in
          let z = t.size in omega arith) in
      (es, e, get-AreBuckets ops h.iv h.buckets (place ops h key) es t.buckets_ok e)

  elsewhere :
      (h : Hash K) (key k : K)
      → place ops h k ≢ place ops h key
      → ops.compare_function k key ≡ false
  elsewhere h key k ne = elim (Bool-cases (ops.compare_function k key)) [
    | inr other ↦ other
    | inl equal ↦ absurd (ne (ap (λ v. v % h.n_buckets) (laws.same_hash k key h.iv equal)))
  ]

  -- A bucket that changes the value of the key only, to `v`, does so in the table.
  pub changed :
      (h : Hash K) (key : K) (old es : List (Element K)) (n : ℕ) (v : Option ℕ) (k : K)
      → IsTable ops h
      → get_elem? h.buckets (place ops h key) ≡ some old
      → get ops k es ≡ (if ops.compare_function k key then v else get ops k old)
      → value_of ops (with_bucket ops h (place ops h key) es n) k
        ≡ (if ops.compare_function k key then v else value_of ops h k)
  changed h key old es n v k t e c = elim (with_bucket-value_of ops h key old es n k t e) [
    | inl (same, after, before) ↦
        after ∙ c ∙ ap (λ r. if ops.compare_function k key then v else r) (sym before)
    | inr (other, after) ↦ rw (elsewhere h key k other) after
  ]

  pub same_everywhere :
      (h : Hash K) (key : K) (old es : List (Element K)) (n : ℕ) (k : K)
      → IsTable ops h
      → get_elem? h.buckets (place ops h key) ≡ some old
      → get ops k es ≡ get ops k old
      → value_of ops (with_bucket ops h (place ops h key) es n) k ≡ value_of ops h k
  same_everywhere h key old es n k t e c = elim (with_bucket-value_of ops h key old es n k t e) [
    | inl (same, after, before) ↦ after ∙ c ∙ sym before
    | inr (other, after) ↦ after
  ]

  pub picked-IsBucket :
      (h : Hash K) (key : K) (es : List (Element K)) (he : Element K) (rest : List (Element K))
      → IsBucket ops h.iv es
      → IsPicked laws key h.iv es he rest
      → IsBucket ops h.iv (he ∷ rest)
  picked-IsBucket h key es he rest b p = ((p.hashed, p.others_hashed), p.apart b.1)

  pub picked-get :
      (key : K) (iv : ℕ) (es : List (Element K)) (he : Element K) (rest : List (Element K))
      → IsPicked laws key iv es he rest
      → get ops key es ≡ some he.value
  picked-get key iv es he rest p = sym (p.same_map key) ∙ rw (p.matching) refl

  -- A picked element stands for the same keys as the key itself.
  picked-row :
      (key : K) (iv : ℕ) (es : List (Element K)) (he : Element K) (rest : List (Element K)) (k : K)
      → IsPicked laws key iv es he rest
      → ops.compare_function k he.key ≡ ops.compare_function k key
  picked-row key iv es he rest k p = elim (Bool-cases (ops.compare_function k key)) [
    | inl equal ↦ laws.equal_trans k key he.key equal p.matching ∙ sym equal
    | inr other ↦ elim (Bool-cases (ops.compare_function k he.key)) [
      | inl equal ↦
          (let q = laws.equal_trans k he.key key equal (laws.equal_sym key he.key p.matching) in
            absurd (cc))
      | inr differ ↦ differ ∙ sym other
    ]
  ]

  picked-get_other :
      (key : K) (iv : ℕ) (es : List (Element K)) (he : Element K) (rest : List (Element K)) (k : K)
      → IsPicked laws key iv es he rest
      → ops.compare_function k key ≡ false
      → get ops k rest ≡ get ops k es
  picked-get_other key iv es he rest k p other =
      let row = picked-row key iv es he rest k p ∙ other in
      let whole = p.same_map k in rw row at whole

  -- The bucket with another value at its head.
  pub revalued-get :
      (key : K) (iv : ℕ) (es : List (Element K)) (he : Element K) (rest : List (Element K)) (v : ℕ)
      (k : K)
      → IsPicked laws key iv es he rest
      → get ops k (record he { value = v } ∷ rest)
        ≡ (if ops.compare_function k key then some v else get ops k es)
  revalued-get key iv es he rest v k p = elim (Bool-cases (ops.compare_function k key)) [
    | inl equal ↦ rw (picked-row key iv es he rest k p, equal) refl
    | inr other ↦
        rw (picked-row key iv es he rest k p, other) (picked-get_other key iv es he rest k p other)
  ]

  -- The bucket without the picked element.
  pub dropped-get :
      (key : K) (iv : ℕ) (es : List (Element K)) (he : Element K) (rest : List (Element K)) (k : K)
      → IsPicked laws key iv es he rest
      → AreApart ops es
      → get ops k rest ≡ (if ops.compare_function k key then none else get ops k es)
  dropped-get key iv es he rest k p a = elim (Bool-cases (ops.compare_function k key)) [
    | inl equal ↦
        (let same = laws.equal_sym k he.key (picked-row key iv es he rest k p ∙ equal) in
          rw equal (Absent-get laws k rest (Absent-same laws he.key k rest same ((p.apart a).0))))
    | inr other ↦ rw other (picked-get_other key iv es he rest k p other)
  ]

  -- Let keys be compared by an equivalence that their hash values respect. In a well-formed table
  -- hash_lookup gives the value of the key, or NULL for a key that is not there, and the table
  -- stays well-formed and gives every key `k` the same value as before.
  pub lookup_lem :
      (h : Hash K) (key k : K)
      → IsTable ops h
      → (h' : Hash K) × (lookup ops h key ≡ some (value_of ops h key, h'))
        × IsTable ops h'
        × (value_of ops h' k ≡ value_of ops h k)
  lookup_lem h key k t =
      let (es, e, b) = own-IsBucket h key t in
      let here : value_of ops h key ≡ get ops key es = ap (value_in ops key) e in
      elim (pick-cases laws key h.iv es b.0) [
        | inl (missing, absent) ↦
            (let h' = with_bucket ops h (place ops h key) es h.n_elements in
              let value = here ∙ Absent-get laws key es absent in
              (
                h',
                lookup_missing ops h key es e missing ∙ ap (λ v. some (v, h')) (sym value),
                with_bucket-IsTable ops h (place ops h key) es es h.n_elements t e b refl,
                same_everywhere h key es es h.n_elements k t e refl,
              ))
        | inr (he, rest, found, p) ↦
            (let h' = with_bucket ops h (place ops h key) (he ∷ rest) h.n_elements in
              let value = here ∙ picked-get key h.iv es he rest p in
              (
                h',
                lookup_found ops h key es he rest e found ∙ ap (λ v. some (v, h')) (sym value),
                with_bucket-IsTable ops h (place ops h key) es (he ∷ rest) h.n_elements t e
                    (picked-IsBucket h key es he rest b p) (let z = p.size in omega arith),
                same_everywhere h key es (he ∷ rest) h.n_elements k t e (p.same_map k),
              ))
      ]
