-- ===== src/HashTable/Table.antt =====
-- A hash table as a map from keys to values.
use native.Mathlib.Nat.{mod-lt}
use par_diff_vpn.Prelude.{
  ℕ, zero, suc, ◌+◌, ◌%◌, ◌<◌, ◌≡◌, ◌≢◌, sym, ap, ◌∙◌, subst, Option, none, some, List, [], ◌∷◌,
  length, arith, ◌⊎◌, inl, inr, get_elem?, get_elem?-set_self, get_elem?-set_ne, set, length-set,
  ℕ_discrete,
}
use par_diff_vpn.HashTable.{KeyOps, Element, Hash}
use par_diff_vpn.HashTable.Bucket.{get, AreHashed, AreApart}

module _ {K : Type 0} (ops : KeyOps K) where
  -- A bucket in order.
  abbrev pub IsBucket : ℕ → List (Element K) → Type 0
  IsBucket iv es = AreHashed ops iv es × AreApart ops es

  abbrev pub AreBuckets : ℕ → List (List (Element K)) → Type 0
  AreBuckets iv [] = Unit
  AreBuckets iv (b ∷ bs) = IsBucket iv b × AreBuckets iv bs

  abbrev pub total : List (List (Element K)) → ℕ
  total [] = 0
  total (b ∷ bs) = length b + total bs

  pub record IsTable (h : Hash K) : Type 0 where
    pub nonempty : 0 < h.n_buckets
    pub size : length h.buckets ≡ h.n_buckets
    pub buckets_ok : AreBuckets h.iv h.buckets
    pub counted : h.n_elements ≡ total h.buckets

  abbrev pub place : Hash K → K → ℕ
  place h k = ops.hash_function k h.iv % h.n_buckets

  abbrev pub value_in : K → Option (List (Element K)) → Option ℕ
  value_in k none = none
  value_in k (some es) = get ops k es

  -- The value that the table gives a key.
  abbrev pub value_of : Hash K → K → Option ℕ
  value_of h k = value_in k (get_elem? h.buckets (place h k))

  pub get-AreBuckets :
      (iv : ℕ) (bs : List (List (Element K))) (i : ℕ) (es : List (Element K))
      → AreBuckets iv bs
      → get_elem? bs i ≡ some es
      → IsBucket iv es
  get-AreBuckets iv [] i es h e = absurd (cc)
  get-AreBuckets iv (b ∷ bs) zero es h e = (let q : b ≡ es = cc in subst (λ t. IsBucket iv t) q h.0)
  get-AreBuckets iv (b ∷ bs) (suc i) es h e = get-AreBuckets iv bs i es h.1 e

  set-AreBuckets :
      (iv : ℕ) (bs : List (List (Element K))) (i : ℕ) (es : List (Element K))
      → AreBuckets iv bs
      → IsBucket iv es
      → AreBuckets iv (set bs i es)
  set-AreBuckets iv [] i es h b = tt
  set-AreBuckets iv (x ∷ bs) zero es h b = (b, h.1)
  set-AreBuckets iv (x ∷ bs) (suc i) es h b = (h.0, set-AreBuckets iv bs i es h.1 b)

  pub total-set :
      (bs : List (List (Element K))) (i : ℕ) (old es : List (Element K))
      → get_elem? bs i ≡ some old
      → total (set bs i es) + length old ≡ total bs + length es
  total-set [] i old es e = absurd (cc)
  total-set (b ∷ bs) zero old es e =
      (let q : length b ≡ length old = (let r : b ≡ old = cc in ap length r) in omega arith)
  total-set (b ∷ bs) (suc i) old es e = (let r = total-set bs i old es e in omega arith)

  -- The table with another bucket at one place.
  abbrev pub with_bucket : Hash K → ℕ → List (Element K) → ℕ → Hash K
  with_bucket h i es n = record h { n_elements = n; buckets = set h.buckets i es }

  pub with_bucket-IsTable :
      (h : Hash K) (i : ℕ) (old es : List (Element K)) (n : ℕ)
      → IsTable h
      → get_elem? h.buckets i ≡ some old
      → IsBucket h.iv es
      → n + length old ≡ h.n_elements + length es
      → IsTable (with_bucket h i es n)
  with_bucket-IsTable h i old es n t e b c = record {
    nonempty = t.nonempty;
    size = length-set h.buckets i es ∙ t.size;
    buckets_ok = set-AreBuckets h.iv h.buckets i es t.buckets_ok b;
    counted = (let r = total-set h.buckets i old es e in let k = t.counted in omega arith);
  }

  -- A bucket that changes the value of one key only, or of none, changes the table in the same way.
  pub with_bucket-value_of :
      (h : Hash K) (key : K) (old es : List (Element K)) (n : ℕ) (k : K)
      → IsTable h
      → get_elem? h.buckets (place h key) ≡ some old
      → (place h k ≡ place h key)
          × (value_of (with_bucket h (place h key) es n) k ≡ get ops k es)
          × (value_of h k ≡ get ops k old)
        ⊎ (place h k ≢ place h key) × (value_of (with_bucket h (place h key) es n) k ≡ value_of h k)
  with_bucket-value_of h key old es n k t e = elim (ℕ_discrete (place h k) (place h key)) [
    | yes same ↦
        (let lt : place h key < length h.buckets =
            (let m = mod-lt (ops.hash_function key h.iv) t.nonempty in
              let z = t.size in omega arith) in
          let there = get_elem?-set_self h.buckets (place h key) es lt in
          inl (
            same,
            ap (value_in k) (ap (λ i. get_elem? (set h.buckets (place h key) es) i) same ∙ there),
            ap (value_in k) (ap (λ i. get_elem? h.buckets i) same ∙ e),
          ))
    | no other ↦ inr (other, ap (value_in k) (get_elem?-set_ne h.buckets es (λ q. other (sym q))))
  ]
