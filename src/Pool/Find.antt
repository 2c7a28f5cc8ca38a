-- ===== src/Pool/Find.antt =====
-- What ifconfig_pool_find finds.
use par_diff_vpn.Prelude.{
  ℕ, zero, suc, ◌+◌, ◌≡◌, refl, sym, ap, ◌∙◌, subst, Bool, true, false, not, ◌&&◌, Option, none,
  some, List, [], ◌∷◌, get_elem?, if◌then◌else◌, Bool-cases, Option-cases, inl, inr, arith, ltb,
}
use par_diff_vpn.Pool.{
  Pool, Entry, Search, find, find_from, note_released, note_previous, was_used_by,
}

-- The handle stands for a free entry that satisfies `P`.
abbrev pub IsFree : (Entry → Type 0) → List Entry → ℕ → Type 0
IsFree P es i = (e : Entry) × (get_elem? es i ≡ some e) × (e.in_use ≡ false) × P e

abbrev IsUsedBy : Option (List ℕ) → Entry → Type 0
IsUsedBy name e = was_used_by name e ≡ true

abbrev IsFound : Option (List ℕ) → List Entry → Search → Type 0
IsFound name es s =
    ((i : ℕ) → s.previous_usage ≡ some i → IsFree (IsUsedBy name) es i)
    × ((i : ℕ) → s.new_usage ≡ some i → IsFree (λ _. Unit) es i)

note_released-IsFound :
    (name : Option (List ℕ)) (es : List Entry) (i : ℕ) (e : Entry) (s : Search)
    → get_elem? es i ≡ some e
    → e.in_use ≡ false
    → IsFound name es s
    → IsFound name es (note_released i e s)
unfolding note_released
note_released-IsFound name es i e s g f h =
    elim (Bool-cases (
      (elim s.new_usage [ none ↦ true | some j ↦ ltb e.last_release s.earliest_release ])
      && not e.fixed)) [
        | inl better ↦
            rw better (
              h.0,
              λ j eq. let same : i ≡ j = cc in subst (IsFree (λ _. Unit) es) same (e, g, f, tt),
            )
        | inr worse ↦ rw worse h
      ]

note_previous-IsFound :
    (name : Option (List ℕ)) (es : List Entry) (i : ℕ) (e : Entry) (s : Search)
    → get_elem? es i ≡ some e
    → e.in_use ≡ false
    → IsFound name es s
    → IsFound name es (note_previous name i e s)
unfolding note_previous
note_previous-IsFound name es i e s g f h = elim (Option-cases s.previous_usage) [
  | inr (k, seen) ↦ rw (note_previous, seen) h
  | inl unseen ↦ elim (Bool-cases (was_used_by name e)) [
    | inl ours ↦
        rw (note_previous, unseen, ours)
          (
            λ j eq. let same : i ≡ j = cc in subst (IsFree (IsUsedBy name) es) same (e, g, f, ours),
            h.1,
          )
    | inr other ↦ rw (note_previous, unseen, other) h
  ]
]

-- One entry of the loop, by the two tests on it.
choose :
    (u dup : Bool) (broken s noted : Search) (f : Search → Search)
    → (u ≡ true → (if not u && dup then broken else f (if u then s else noted)) ≡ f s)
      × (u ≡ false
          → dup ≡ true
          → (if not u && dup then broken else f (if u then s else noted)) ≡ broken)
      × (u ≡ false
          → dup ≡ false
          → (if not u && dup then broken else f (if u then s else noted)) ≡ f noted)
choose true dup broken s noted f = (λ _. refl, λ a. absurd (cc), λ a. absurd (cc))
choose false true broken s noted f = (λ a. absurd (cc), λ _ _. refl, λ _ b. absurd (cc))
choose false false broken s noted f = (λ a. absurd (cc), λ _ b. absurd (cc), λ _ _. refl)

find_from_cons :
    (dup : Bool) (name : Option (List ℕ)) (i : ℕ) (s : Search) (e : Entry) (es : List Entry)
    → (e.in_use ≡ true → find_from dup name i s (e ∷ es) ≡ find_from dup name (i + 1) s es)
      × (e.in_use ≡ false
          → dup ≡ true
          → find_from dup name i s (e ∷ es) ≡ record s { new_usage = some i })
      × (e.in_use ≡ false
          → dup ≡ false
          → find_from dup name i s (e ∷ es)
            ≡ find_from dup name (i + 1) (note_previous name i e (note_released i e s)) es)
unfolding find_from
find_from_cons dup name i s e es =
    choose e.in_use dup (record s { new_usage = some i }) s
      (note_previous name i e (note_released i e s)) (λ t. find_from dup name (i + 1) t es)

find_from-IsFound :
    (dup : Bool) (name : Option (List ℕ)) (all : List Entry) (i : ℕ) (s : Search) (es : List Entry)
    → ((j : ℕ) → get_elem? all (i + j) ≡ get_elem? es j)
    → IsFound name all s
    → IsFound name all (find_from dup name i s es)
unfolding find_from
find_from-IsFound dup name all i s [] at_ h = h
find_from-IsFound dup name all i s (e ∷ es) at_ h =
    let here : get_elem? all i ≡ some e =
      (let z : i ≡ i + 0 = omega arith in ap (λ k. get_elem? all k) z ∙ at_ 0) in
    let later : (j : ℕ) → get_elem? all (i + 1 + j) ≡ get_elem? es j =
      λ j. (let eq : i + 1 + j ≡ i + suc j = omega arith in rw eq (at_ (suc j))) in
    elim (Bool-cases e.in_use) [
      | inl busy ↦
          subst (IsFound name all) (sym ((find_from_cons dup name i s e es).0 busy))
            (find_from-IsFound dup name all (i + 1) s es later h)
      | inr free ↦
          (let noted =
              note_previous-IsFound name all i e (note_released i e s) here free
                (note_released-IsFound name all i e s here free h) in
            elim (Bool-cases dup) [
              | inl first ↦
                  subst (IsFound name all) (sym ((find_from_cons dup name i s e es).1 free first)) (
                    h.0,
                    λ j eq.
                        let same : i ≡ j = cc in
                        subst (IsFree (λ _. Unit) all) same (e, here, free, tt),
                  )
              | inr best ↦
                  subst (IsFound name all) (sym ((find_from_cons dup name i s e es).2 free best)) (
                    find_from-IsFound dup name all (i + 1)
                      (note_previous name i e (note_released i e s)) es later noted)
            ])
    ]

abbrev start : Search
start = record { earliest_release = 0; previous_usage = none; new_usage = none }

-- ifconfig_pool_find gives the handle of a free entry.
pub find-IsFree :
    (pool : Pool) (name : Option (List ℕ)) {i : ℕ}
    → find pool name ≡ some i
    → IsFree (λ _. Unit) pool.list i
unfolding find
find-IsFree pool name {i = i} h =
    let found =
      find_from-IsFound pool.duplicate_cn name pool.list 0 start pool.list
        (λ j. let z : 0 + j ≡ j = omega arith in ap (λ k. get_elem? pool.list k) z)
        (λ j eq. absurd (cc), λ j eq. absurd (cc)) in
    let s = find_from pool.duplicate_cn name 0 start pool.list in
    elim (Option-cases s.previous_usage) [
      | inr (k, ours) ↦
          (let same : find pool name ≡ some k = rw (find, ours) in
            let (e, g, f, u) = found.0 k ours in
            let eq : k ≡ i = cc in subst (IsFree (λ _. Unit) pool.list) eq (e, g, f, tt))
      | inl nobody ↦
          (let same : find pool name ≡ s.new_usage = rw (find, nobody) in found.1 i (sym same ∙ h))
    ]

keeps_previous :
    (name : Option (List ℕ)) (i : ℕ) (s : Search) (es : List Entry) {k : ℕ}
    → s.previous_usage ≡ some k
    → (find_from false name i s es).previous_usage ≡ some k
unfolding find_from note_previous note_released
keeps_previous name i s [] h = h
keeps_previous name i s (e ∷ es) {k = k} h = elim (Bool-cases e.in_use) [
  | inl busy ↦
      ap (λ (t : Search). t.previous_usage) ((find_from_cons false name i s e es).0 busy)
      ∙ keeps_previous name (i + 1) s es h
  | inr free ↦
      (let noted : (note_released i e s).previous_usage ≡ some k =
          elim (Bool-cases (
            (elim s.new_usage [ none ↦ true | some j ↦ ltb e.last_release s.earliest_release ])
            && not e.fixed)) [ inl better ↦ rw better h | inr worse ↦ rw worse h ] in
        let same : (note_previous name i e (note_released i e s)).previous_usage ≡ some k =
          rw (note_previous, noted) noted in
        ap (λ (t : Search). t.previous_usage) ((find_from_cons false name i s e es).2 free refl)
        ∙ keeps_previous name (i + 1) (note_previous name i e (note_released i e s)) es same)
]

finds_previous :
    (name : Option (List ℕ)) (i : ℕ) (s : Search) (es : List Entry) (j : ℕ)
    → IsFree (IsUsedBy name) es j
    → (k : ℕ) × ((find_from false name i s es).previous_usage ≡ some k)
unfolding find_from note_previous
finds_previous name i s [] j (e, g, f, u) = absurd (cc)
finds_previous name i s (x ∷ es) (suc j) (e, g, f, u) = elim (Bool-cases x.in_use) [
  | inl busy ↦
      (let (k, q) = finds_previous name (i + 1) s es j (e, g, f, u) in
        (
          k,
          ap (λ (t : Search). t.previous_usage) ((find_from_cons false name i s x es).0 busy) ∙ q,
        ))
  | inr free ↦
      (let (k, q) =
          finds_previous name (i + 1) (note_previous name i x (note_released i x s)) es j
            (e, g, f, u) in
        (
          k,
          ap (λ (t : Search). t.previous_usage) ((find_from_cons false name i s x es).2 free refl)
              ∙ q,
        ))
]
finds_previous name i s (x ∷ es) zero (e, g, f, u) =
    let same : x ≡ e = cc in
    let free : x.in_use ≡ false = ap (λ (y : Entry). y.in_use) same ∙ f in
    let ours : was_used_by name x ≡ true = ap (λ y. was_used_by name y) same ∙ u in
    elim (Option-cases (note_released i x s).previous_usage) [
      | inr (k, seen) ↦
          (let kept : (note_previous name i x (note_released i x s)).previous_usage ≡ some k =
              rw (note_previous, seen) seen in
            (
              k,
              ap (λ (t : Search). t.previous_usage)
                    ((find_from_cons false name i s x es).2 free refl)
                  ∙ keeps_previous name (i + 1) (note_previous name i x (note_released i x s)) es
                      kept,
            ))
      | inl unseen ↦
          (let now_seen : (note_previous name i x (note_released i x s)).previous_usage ≡ some i =
              rw (note_previous, unseen, ours) refl in
            (
              i,
              ap (λ (t : Search). t.previous_usage)
                    ((find_from_cons false name i s x es).2 free refl)
                  ∙ keeps_previous name (i + 1) (note_previous name i x (note_released i x s)) es
                      now_seen,
            ))
    ]

-- Without duplicate_cn, a client whose common name some free entry was last used under gets such an
-- entry.
pub find-previous :
    (pool : Pool) (name : Option (List ℕ)) (j : ℕ)
    → pool.duplicate_cn ≡ false
    → IsFree (λ e. was_used_by name e ≡ true) pool.list j
    → (i : ℕ) × (find pool name ≡ some i) × IsFree (λ e. was_used_by name e ≡ true) pool.list i
unfolding find
find-previous pool name j dup was =
    let found =
      find_from-IsFound false name pool.list 0 start pool.list
        (λ j. let z : 0 + j ≡ j = omega arith in ap (λ k. get_elem? pool.list k) z)
        (λ j eq. absurd (cc), λ j eq. absurd (cc)) in
    let (k, ours) = finds_previous name 0 start pool.list j was in
    (k, rw (find, dup, ours), found.0 k ours)
