-- ===== src/HashTable/Update.antt =====
-- hash_add and hash_remove as updates of a map.
use par_diff_vpn.Prelude.{
  ℕ, ◌+◌, ◌-◌, ◌%◌, ◌≤◌, ◌≡◌, refl, sym, ap, ◌∙◌, Bool, true, false, ◌&&◌, Option, none, some, List,
  [], ◌∷◌, length, arith, inl, inr, Bool-cases, if◌then◌else◌, get_elem?,
}
use par_diff_vpn.HashTable.{KeyOps, Element, Hash, add, remove}
use par_diff_vpn.HashTable.Bucket.{IsKeyOps, get, Absent-get, get_same, IsPicked, pick-cases}
use par_diff_vpn.HashTable.Cases.{add_new, add_old, remove_missing, remove_found}
use par_diff_vpn.HashTable.Table.{
  IsBucket, IsTable, place, value_in, value_of, with_bucket, with_bucket-IsTable, total-set,
}
use par_diff_vpn.HashTable.Map.{
  own-IsBucket, changed, same_everywhere, picked-IsBucket, picked-get, revalued-get, dropped-get,
}

-- What hash_add returns: a new key is added, an old one replaced if that is asked for.
abbrev pub accepts : Option ℕ → Bool → Bool
accepts none replace = true
accepts (some v) replace = replace

-- What hash_remove returns.
abbrev pub is_there : Option ℕ → Bool
is_there none = false
is_there (some v) = true

and_true : {A : Type 0} (c : Bool) (x y : A) → (if c then x else y) ≡ (if c && true then x else y)
and_true true x y = refl
and_true false x y = refl

and_false : {A : Type 0} (c : Bool) (x y : A) → y ≡ (if c && false then x else y)
and_false true x y = refl
and_false false x y = refl

module _ {K : Type 0} {ops : KeyOps K} (laws : IsKeyOps ops) where
  -- The table as hash_add leaves it when the key is there.
  abbrev kept : Element K → ℕ → Bool → Element K
  kept he v replace = if replace then record he { value = v } else he

  kept-IsBucket :
      (h : Hash K) (key : K) (es : List (Element K)) (he : Element K) (rest : List (Element K))
      (v : ℕ) (replace : Bool)
      → IsBucket ops h.iv es
      → IsPicked laws key h.iv es he rest
      → IsBucket ops h.iv (kept he v replace ∷ rest)
  kept-IsBucket h key es he rest v true b p = picked-IsBucket laws h key es he rest b p
  kept-IsBucket h key es he rest v false b p = picked-IsBucket laws h key es he rest b p

  kept-value_of :
      (h : Hash K) (key : K) (es : List (Element K)) (he : Element K) (rest : List (Element K))
      (v : ℕ) (replace : Bool) (k : K)
      → IsTable ops h
      → get_elem? h.buckets (place ops h key) ≡ some es
      → IsPicked laws key h.iv es he rest
      → value_of ops (with_bucket ops h (place ops h key) (kept he v replace ∷ rest) h.n_elements) k
        ≡ (if ops.compare_function k key && replace then some v else value_of ops h k)
  kept-value_of h key es he rest v true k t e p =
      changed laws h key es (record he { value = v } ∷ rest) h.n_elements (some v) k t e
        (revalued-get laws key h.iv es he rest v k p)
      ∙ and_true (ops.compare_function k key) _ _
  kept-value_of h key es he rest v false k t e p =
      same_everywhere laws h key es (he ∷ rest) h.n_elements k t e (p.same_map k)
      ∙ and_false (ops.compare_function k key) _ _

  value_in_same :
      (a b : K) (o : Option (List (Element K)))
      → ops.compare_function a b ≡ true
      → value_in ops a o ≡ value_in ops b o
  value_in_same a b none e = refl
  value_in_same a b (some es) e = get_same laws a b es e

  -- Equal keys have one value.
  same_value :
      (h : Hash K) (a b : K) → ops.compare_function a b ≡ true → value_of ops h a ≡ value_of ops h b
  same_value h a b e =
      let same : place ops h a ≡ place ops h b =
        ap (λ v. v % h.n_buckets) (laws.same_hash a b h.iv e) in
      ap (λ i. value_in ops a (get_elem? h.buckets i)) same
      ∙ value_in_same a b (get_elem? h.buckets (place ops h b)) e

  -- A bucket is not larger than the table.
  room :
      (h : Hash K) (i : ℕ) (es : List (Element K))
      → IsTable ops h
      → get_elem? h.buckets i ≡ some es
      → length es ≤ h.n_elements
  room h i es t e = (let q = total-set ops h.buckets i es [] e in let c = t.counted in omega arith)

  -- Let keys be compared by an equivalence that their hash values respect. In a well-formed table
  -- hash_add succeeds just when the key is new or replacing it is asked for. The table stays
  -- well-formed. If hash_add succeeds, the keys equal to `key` have the new value; each other key
  -- `k`, and each key if it fails, keeps its value.
  pub add_lem :
      (h : Hash K) (key : K) (value : ℕ) (replace : Bool) (k : K)
      → IsTable ops h
      → (h' : Hash K) × (add ops h key value replace
          ≡ some (accepts (value_of ops h key) replace, h'))
        × IsTable ops h'
        × (value_of ops h' k ≡ (
            if ops.compare_function k key && accepts (value_of ops h key) replace
            then some value
            else value_of ops h k))
  add_lem h key value replace k t =
      let (es, e, b) = own-IsBucket laws h key t in
      let here : value_of ops h key ≡ get ops key es = ap (value_in ops key) e in
      elim (pick-cases laws key h.iv es b.0) [
        | inl (missing, absent) ↦
            (let new : Element K = record {
              value = value;
              key = key;
              hash_value = ops.hash_function key h.iv;
            } in
              let h' = with_bucket ops h (place ops h key) (new ∷ es) (h.n_elements + 1) in
              let fresh = here ∙ Absent-get laws key es absent in
              (
                h',
                add_new ops h key es value replace e missing
                    ∙ ap (λ v. some (accepts v replace, h')) (sym fresh),
                with_bucket-IsTable ops h (place ops h key) es (new ∷ es) (h.n_elements + 1) t e
                    ((refl, b.0), (absent, b.1)) (omega arith),
                changed laws h key es (new ∷ es) (h.n_elements + 1) (some value) k t e refl
                    ∙ and_true (ops.compare_function k key) _ _
                    ∙ ap
                        (λ v.
                          if ops.compare_function k key && accepts v replace
                          then some value
                          else value_of ops h k)
                        (sym fresh),
              ))
        | inr (he, rest, found, p) ↦
            (let new = kept he value replace in
              let h' = with_bucket ops h (place ops h key) (new ∷ rest) h.n_elements in
              let old = here ∙ picked-get laws key h.iv es he rest p in
              (
                h',
                add_old ops h key es he rest value replace e found
                    ∙ ap (λ v. some (accepts v replace, h')) (sym old),
                with_bucket-IsTable ops h (place ops h key) es (new ∷ rest) h.n_elements t e
                    (kept-IsBucket h key es he rest value replace b p)
                    (let z = p.size in omega arith),
                kept-value_of h key es he rest value replace k t e p
                    ∙ ap
                        (λ v.
                          if ops.compare_function k key && accepts v replace
                          then some value
                          else value_of ops h k)
                        (sym old),
              ))
      ]

  -- Let keys be compared by an equivalence that their hash values respect. In a well-formed table
  -- hash_remove succeeds just when the key is there. The table stays well-formed, the keys equal
  -- to `key` have no value afterwards, and each other key `k` keeps its value.
  pub remove_lem :
      (h : Hash K) (key k : K)
      → IsTable ops h
      → (h' : Hash K) × (remove ops h key ≡ some (is_there (value_of ops h key), h'))
        × IsTable ops h'
        × (value_of ops h' k ≡ (if ops.compare_function k key then none else value_of ops h k))
  remove_lem h key k t =
      let (es, e, b) = own-IsBucket laws h key t in
      let here : value_of ops h key ≡ get ops key es = ap (value_in ops key) e in
      elim (pick-cases laws key h.iv es b.0) [
        | inl (missing, absent) ↦
            (let value = here ∙ Absent-get laws key es absent in
              (
                h,
                remove_missing ops h key es e missing ∙ ap (λ v. some (is_there v, h)) (sym value),
                t,
                elim (Bool-cases (ops.compare_function k key)) [
                  | inl equal ↦ same_value h k key equal ∙ value ∙ rw equal refl
                  | inr other ↦ rw other refl
                ],
              ))
        | inr (he, rest, found, p) ↦
            (let h' = with_bucket ops h (place ops h key) rest (h.n_elements - 1) in
              let value = here ∙ picked-get laws key h.iv es he rest p in
              (
                h',
                remove_found ops h key es he rest e found
                    ∙ ap (λ v. some (is_there v, h')) (sym value),
                with_bucket-IsTable ops h (place ops h key) es rest (h.n_elements - 1) t e
                    (p.others_hashed, (p.apart b.1).1)
                    (let z = p.size in let r = room h (place ops h key) es t e in omega arith),
                changed laws h key es rest (h.n_elements - 1) none k t e
                    (dropped-get laws key h.iv es he rest k p b.1),
              ))
      ]
