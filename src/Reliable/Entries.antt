-- ===== src/Reliable/Entries.antt =====
-- The entries of a reliable array: which ids are held, and what changing one entry does.
use par_diff_vpn.Prelude.{
  ℕ, zero, suc, ◌+◌, ◌≡◌, ◌≢◌, refl, true, false, ◌&&◌, none, some, List, [], ◌∷◌, get_elem?, set,
  arith, ◌==◌, ap, Bool-cases, inl, inr, sym, ◌∙◌, subst,
}
use par_diff_vpn.Reliable.{Entry, holds_id, find_id, free_from}

-- Every active entry satisfies `P`.
abbrev pub AllActive : (Entry → Type 0) → List Entry → Type 0
AllActive P [] = Unit
AllActive P (e ∷ es) = (e.active ≡ true → P e) × AllActive P es

-- No two active entries have the same id.
abbrev pub Distinct : List Entry → Type 0
Distinct [] = Unit
Distinct (e ∷ es) = (e.active ≡ true → holds_id e.packet_id es ≡ false) × Distinct es

pub AllActive-set :
    (P : Entry → Type 0) (es : List Entry) (i : ℕ) (e : Entry)
    → AllActive P es
    → (e.active ≡ true → P e)
    → AllActive P (set es i e)
AllActive-set P [] i e h p = tt
AllActive-set P (x ∷ es) zero e h p = (p, h.1)
AllActive-set P (x ∷ es) (suc i) e h p = (h.0, AllActive-set P es i e h.1 p)

pub AllActive-map :
    (P Q : Entry → Type 0) (es : List Entry)
    → ((e : Entry) → P e → Q e)
    → AllActive P es
    → AllActive Q es
AllActive-map P Q [] f h = tt
AllActive-map P Q (x ∷ es) f h = (λ a. f x (h.0 a), AllActive-map P Q es f h.1)

pub holds_id-set :
    (id : ℕ) (es : List Entry) (i : ℕ) (e : Entry)
    → holds_id id es ≡ false
    → (e.active ≡ true → e.packet_id ≢ id)
    → holds_id id (set es i e) ≡ false
unfolding holds_id
holds_id-set id [] i e h n = refl
holds_id-set id (x ∷ es) zero e h n = ground (arith, Bool-cases e.active, n)
holds_id-set id (x ∷ es) (suc i) e h n = ground (arith, holds_id-set id es i e)

-- A new id that nobody holds keeps the ids distinct, and so does freeing an entry.
pub Distinct-set :
    (es : List Entry) (i : ℕ) (e : Entry)
    → Distinct es
    → (e.active ≡ true → holds_id e.packet_id es ≡ false)
    → Distinct (set es i e)
unfolding holds_id
Distinct-set [] i e d n = tt
Distinct-set (x ∷ es) zero e d n = (λ a. ground (arith, n a), d.1)
Distinct-set (x ∷ es) (suc i) e d n = (
  λ a. holds_id-set x.packet_id es i e (d.0 a) (λ b. ground (arith, n b)),
  Distinct-set es i e d.1 (λ b. ground (arith, n b)),
)

-- What find_id finds.
pub find_id_found :
    (id k : ℕ) (es : List Entry) {i : ℕ}
    → find_id id k es ≡ some i
    → (j : ℕ) × (e : Entry) × (i ≡ k + j)
      × (get_elem? es j ≡ some e)
      × (e.active ≡ true)
      × (e.packet_id ≡ id)
unfolding find_id
find_id_found id k [] h = absurd (cc)
find_id_found id k (x ∷ es) {i} h = elim (Bool-cases (x.active && x.packet_id == id)) [
  | inl here ↦ (0, x, ground arith, refl, ground arith, ground arith)
  | inr there ↦
      (let (j, e, eq, g, a, s) = find_id_found id (k + 1) es {i = i} (ground arith) in
        (suc j, e, omega arith, g, a, s))
]

pub find_id-none : (id k : ℕ) (es : List Entry) → holds_id id es ≡ false → find_id id k es ≡ none
unfolding find_id holds_id
find_id-none id k [] h = refl
find_id-none id k (x ∷ es) h = ground (arith, find_id-none id (k + 1) es)

pub find_id-some :
    (id k : ℕ) (es : List Entry) → holds_id id es ≡ true → (i : ℕ) × (find_id id k es ≡ some i)
unfolding find_id holds_id
find_id-some id k [] h = absurd (cc)
find_id-some id k (x ∷ es) h = elim (Bool-cases (x.active && x.packet_id == id)) [
  | inl here ↦ (k, rw here)
  | inr there ↦ rw there (find_id-some id (k + 1) es (ground arith))
]

-- An entry with an id that nobody holds is not active.
holds_id_conflict :
    (es : List Entry) (i : ℕ) {id : ℕ} {e : Entry}
    → holds_id id es ≡ false
    → get_elem? es i ≡ some e
    → e.active ≡ true
    → id ≡ e.packet_id
    → ⊥
unfolding holds_id
holds_id_conflict [] i n g a s = absurd (cc)
holds_id_conflict (x ∷ es) zero {id = id} {e = e} n g a s =
    let same : x ≡ e = cc in
    let act : x.active ≡ true = ap (λ (y : Entry). y.active) same ∙ a in
    let pid : x.packet_id ≡ e.packet_id = ap (λ (y : Entry). y.packet_id) same in ground arith
holds_id_conflict (x ∷ es) (suc i) {id = id} {e = e} n g a s =
    holds_id_conflict es i {id = id} {e = e} (ground (arith, Bool-cases x.active)) g a s

-- The entry that is found is the only one with its id.
pub holds_id_freed :
    (es : List Entry) (i : ℕ) {e : Entry} (f : Entry)
    → Distinct es
    → get_elem? es i ≡ some e
    → e.active ≡ true
    → f.active ≡ false
    → holds_id e.packet_id (set es i f) ≡ false
unfolding holds_id
holds_id_freed [] i f d g a b = absurd (cc)
holds_id_freed (x ∷ es) zero {e = e} f d g a b =
    let same : x ≡ e = cc in
    let gone : holds_id x.packet_id es ≡ false = d.0 (ap (λ (y : Entry). y.active) same ∙ a) in
    let gone' : holds_id e.packet_id es ≡ false =
      sym (ap (λ y. holds_id y.packet_id es) same) ∙ gone in
    rw b gone'
holds_id_freed (x ∷ es) (suc i) {e = e} f d g a b =
    let rest = holds_id_freed es i {e = e} f d.1 g a b in
    elim (Bool-cases (x.active && x.packet_id == e.packet_id)) [
      | inl here ↦ absurd (holds_id_conflict es i (d.0 (ground arith)) g a (ground arith))
      | inr there ↦ rw there rest
    ]

pub AllActive-other :
    (P : Entry → Type 0) (id : ℕ) (es : List Entry)
    → AllActive P es
    → holds_id id es ≡ false
    → AllActive (λ e. P e × (e.packet_id ≢ id)) es
unfolding holds_id
AllActive-other P id [] h n = tt
AllActive-other P id (x ∷ es) h n = (
  λ a. (h.0 a, λ same. ground (arith, Bool-cases x.active)),
  AllActive-other P id es h.1 (ground (arith, Bool-cases x.active)),
)

pub AllActive-get_elem :
    (P : Entry → Type 0) (es : List Entry) (i : ℕ) {e : Entry}
    → AllActive P es
    → get_elem? es i ≡ some e
    → e.active ≡ true
    → P e
AllActive-get_elem P [] i h g a = absurd (cc)
AllActive-get_elem P (x ∷ es) zero {e = e} h g a =
    let same : x ≡ e = cc in subst P same (h.0 (ap (λ (y : Entry). y.active) same ∙ a))
AllActive-get_elem P (x ∷ es) (suc i) h g a = AllActive-get_elem P es i h.1 g a

-- A free entry is free.
pub free_from_found :
    (k : ℕ) (es : List Entry) {i : ℕ}
    → free_from k es ≡ some i
    → (j : ℕ) × (e : Entry) × (i ≡ k + j) × (get_elem? es j ≡ some e) × (e.active ≡ false)
unfolding free_from
free_from_found k [] h = absurd (cc)
free_from_found k (x ∷ es) {i} h = elim (Bool-cases x.active) [
  | inl here ↦
      (let (j, e, eq, g, a) = free_from_found (k + 1) es {i = i} (ground arith) in
        (suc j, e, omega arith, g, a))
  | inr there ↦ (0, x, ground arith, refl, there)
]
