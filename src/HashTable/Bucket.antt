-- ===== src/HashTable/Bucket.antt =====
-- One bucket as a map from keys to values: the first element with an equal key counts.
use par_diff_vpn.Prelude.{
  ℕ, suc, ◌≡◌, refl, sym, ap, ◌∙◌, true, false, ◌&&◌, Option, none, some, List, [], ◌∷◌, length,
  arith, ◌⊎◌, inl, inr, Bool-cases, if◌then◌else◌, ◌==◌,
}
use par_diff_vpn.HashTable.{KeyOps, Element, pick}

-- What hash tables ask of the two functions: keys are compared by an equivalence, and equal keys
-- have the same hash value.
pub record IsKeyOps {K : Type 0} (ops : KeyOps K) : Type 0 where
  pub equal_refl : (a : K) → ops.compare_function a a ≡ true
  pub equal_sym : (a b : K) → ops.compare_function a b ≡ true → ops.compare_function b a ≡ true
  pub equal_trans :
      (a b c : K)
      → ops.compare_function a b ≡ true
      → ops.compare_function b c ≡ true
      → ops.compare_function a c ≡ true
  pub same_hash :
      (a b : K) (iv : ℕ)
      → ops.compare_function a b ≡ true
      → ops.hash_function a iv ≡ ops.hash_function b iv

module _ {K : Type 0} (ops : KeyOps K) where
  abbrev pub get : K → List (Element K) → Option ℕ
  get k [] = none
  get k (he ∷ es) = if ops.compare_function k he.key then some he.value else get k es

  -- Every element holds the hash value of its key.
  abbrev pub AreHashed : ℕ → List (Element K) → Type 0
  AreHashed iv [] = Unit
  AreHashed iv (he ∷ es) = (he.hash_value ≡ ops.hash_function he.key iv) × AreHashed iv es

  -- No element has a key equal to `k`.
  abbrev pub Absent : K → List (Element K) → Type 0
  Absent k [] = Unit
  Absent k (he ∷ es) = (ops.compare_function k he.key ≡ false) × Absent k es

  abbrev pub AreApart : List (Element K) → Type 0
  AreApart [] = Unit
  AreApart (he ∷ es) = Absent he.key es × AreApart es

module _ {K : Type 0} {ops : KeyOps K} (laws : IsKeyOps ops) where
  -- Keys equal to one another are equal to the same keys.
  pub same_row :
      (a b c : K)
      → ops.compare_function a b ≡ true
      → ops.compare_function a c ≡ ops.compare_function b c
  same_row a b c e = elim (Bool-cases (ops.compare_function a c)) [
    | inl yes_a ↦ yes_a ∙ sym (laws.equal_trans b a c (laws.equal_sym a b e) yes_a)
    | inr no_a ↦ elim (Bool-cases (ops.compare_function b c)) [
      | inl yes_b ↦ (let q = laws.equal_trans a b c e yes_b in absurd (cc))
      | inr no_b ↦ no_a ∙ sym no_b
    ]
  ]

  pub Absent-get : (k : K) (es : List (Element K)) → Absent ops k es → get ops k es ≡ none
  Absent-get k [] h = refl
  Absent-get k (he ∷ es) h = rw h.0 (Absent-get k es h.1)

  pub Absent-same :
      (a b : K) (es : List (Element K))
      → ops.compare_function a b ≡ true
      → Absent ops a es
      → Absent ops b es
  Absent-same a b [] e h = tt
  Absent-same a b (he ∷ es) e h = (sym (same_row a b he.key e) ∙ h.0, Absent-same a b es e h.1)

  pub get_same :
      (a b : K) (es : List (Element K))
      → ops.compare_function a b ≡ true
      → get ops a es ≡ get ops b es
  get_same a b [] e = refl
  get_same a b (he ∷ es) e =
      rw (same_row a b he.key e)
        (ap (λ r. if ops.compare_function b he.key then some he.value else r) (get_same a b es e))

  -- What `pick` finds, and that the bucket with it at the head is the same map.
  pub record IsPicked (key : K) (iv : ℕ) (es : List (Element K)) (he : Element K)
      (rest : List (Element K)) : Type 0 where
    pub matching : ops.compare_function key he.key ≡ true
    pub hashed : he.hash_value ≡ ops.hash_function he.key iv
    pub others_hashed : AreHashed ops iv rest
    pub size : suc (length rest) ≡ length es
    pub same_map : (k : K) → get ops k (he ∷ rest) ≡ get ops k es
    pub still_absent : (k : K) → Absent ops k es → Absent ops k rest
    pub apart : AreApart ops es → AreApart ops (he ∷ rest)

  -- An element that does not match stays where it is.
  passed :
      (key : K) (iv : ℕ) (x he : Element K) (es rest : List (Element K))
      → ops.compare_function key x.key ≡ false
      → x.hash_value ≡ ops.hash_function x.key iv
      → IsPicked key iv es he rest
      → IsPicked key iv (x ∷ es) he (x ∷ rest)
  passed key iv x he es rest other h p = record {
    matching = p.matching;
    hashed = p.hashed;
    others_hashed = (h, p.others_hashed);
    size = omega (arith, p.size);
    same_map = λ k. elim (Bool-cases (ops.compare_function k he.key)) [
      | inl is_he ↦
          (let not_x : ops.compare_function k x.key ≡ false =
              same_row k key x.key
                (laws.equal_trans k he.key key is_he (laws.equal_sym key he.key p.matching))
              ∙ other in
            let found = p.same_map k in rw not_x (rw is_he (rw is_he at found)))
      | inr not_he ↦
          (let found = p.same_map k in
            rw not_he (
              ap (λ r. if ops.compare_function k x.key then some x.value else r)
                (rw not_he at found)))
    ];
    still_absent = λ k a. (a.0, p.still_absent k a.1);
    apart = λ a.
        (let (ha, ra) = p.apart a.1 in
          (
            (same_row he.key key x.key (laws.equal_sym key he.key p.matching) ∙ other, ha),
            (p.still_absent x.key a.0, ra),
          ));
  }

  -- The comparison of hash values changes nothing.
  same_test :
      (key : K) (iv : ℕ) (x : Element K)
      → x.hash_value ≡ ops.hash_function x.key iv
      → (ops.hash_function key iv == x.hash_value && ops.compare_function key x.key)
        ≡ ops.compare_function key x.key
  same_test key iv x h = elim (Bool-cases (ops.compare_function key x.key)) [
    | inl equal ↦ (let e = laws.same_hash key x.key iv equal in ground arith)
    | inr other ↦ ground (arith, other)
  ]

  pub pick-cases :
      (key : K) (iv : ℕ) (es : List (Element K))
      → AreHashed ops iv es
      → ((pick ops key (ops.hash_function key iv) es ≡ none) × Absent ops key es)
        ⊎ ((he : Element K) × (rest : List (Element K)) × (pick ops key
                (ops.hash_function key iv)
                es
              ≡ some (he, rest))
            × IsPicked key iv es he rest)
  unfolding pick
  pick-cases key iv [] h = inl (refl, tt)
  pick-cases key iv (x ∷ es) h =
      let test = same_test key iv x h.0 in
      elim (Bool-cases (ops.compare_function key x.key)) [
        | inl equal ↦ inr (
          x,
          es,
          rw (test, equal, pick) refl,
          record {
            matching = equal;
            hashed = h.0;
            others_hashed = h.1;
            size = refl;
            same_map = λ k. refl;
            still_absent = λ k a. a.1;
            apart = λ a. a;
          },
        )
        | inr other ↦ elim (pick-cases key iv es h.1) [
          | inl (missing, absent) ↦ inl (rw (test, other, missing, pick) refl, (other, absent))
          | inr (he, rest, found, p) ↦ inr (
            he,
            x ∷ rest,
            rw (test, other, found, pick) refl,
            passed key iv x he es rest other h.0 p,
          )
        ]
      ]
