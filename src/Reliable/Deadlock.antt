-- ===== src/Reliable/Deadlock.antt =====
-- reliable_wont_break_sequentiality is there so that the receive buffer cannot deadlock: a full
-- window always holds the packet that comes next.
use par_diff_vpn.Prelude.{
  ℕ, zero, suc, ◌+◌, ◌-◌, ◌^◌, ◌≤◌, ◌<◌, ◌≡◌, ◌≢◌, refl, sym, ap, ◌∙◌, Bool, true, false, ◌||◌,
  List, [], ◌∷◌, some, length, map, length-map, arith, ◌==◌, if◌then◌else◌, Bool-cases, inl, inr,
}
use par_diff_vpn.Reliable.{Entry, Reliable, holds_id, can_get, can_get_entries}
use par_diff_vpn.Reliable.Range.{ahead}
use par_diff_vpn.Reliable.Entries.{AllActive, Distinct}
use par_diff_vpn.Reliable.Window.{IsNear, IsWindow, deliver_cases, delivered}
use par_diff_vpn.Reliable.Control.{deliver}

abbrev occurs : ℕ → List ℕ → Bool
occurs y [] = false
occurs y (x ∷ xs) = x == y || occurs y xs

abbrev AreDistinct : List ℕ → Type 0
AreDistinct [] = Unit
AreDistinct (x ∷ xs) = (occurs x xs ≡ false) × AreDistinct xs

abbrev AreBetween : ℕ → ℕ → List ℕ → Type 0
AreBetween low high [] = Unit
AreBetween low high (x ∷ xs) = (low ≤ x) × (x < high) × AreBetween low high xs

abbrev remove : ℕ → List ℕ → List ℕ
remove y [] = []
remove y (x ∷ xs) = if x == y then xs else x ∷ remove y xs

occurs-remove : (y a : ℕ) (xs : List ℕ) → occurs y xs ≡ false → occurs y (remove a xs) ≡ false
occurs-remove y a [] h = refl
occurs-remove y a (x ∷ xs) h = elim (Bool-cases (x == a)) [
  | inl here ↦ rw here (ground arith)
  | inr there ↦ rw there (ground (arith, occurs-remove y a xs, Bool-cases (x == y)))
]

AreDistinct-remove : (a : ℕ) (xs : List ℕ) → AreDistinct xs → AreDistinct (remove a xs)
AreDistinct-remove a [] h = tt
AreDistinct-remove a (x ∷ xs) h = elim (Bool-cases (x == a)) [
  | inl here ↦ rw here h.1
  | inr there ↦ rw there (occurs-remove x a xs h.0, AreDistinct-remove a xs h.1)
]

length-remove : (a : ℕ) (xs : List ℕ) → length xs ≤ suc (length (remove a xs))
length-remove a [] = omega arith
length-remove a (x ∷ xs) = elim (Bool-cases (x == a)) [
  | inl here ↦ rw here (omega arith)
  | inr there ↦ rw there (omega (arith, length-remove a xs))
]

AreBetween-other :
    (low high : ℕ) (xs : List ℕ)
    → AreBetween low high xs
    → occurs low xs ≡ false
    → AreBetween (low + 1) high xs
AreBetween-other low high [] b n = tt
AreBetween-other low high (x ∷ xs) b n = (
  ground (arith, b.0),
  b.1,
  AreBetween-other low high xs b.2 (ground (arith, Bool-cases (x == low))),
)

AreBetween-remove :
    (low high : ℕ) (xs : List ℕ)
    → AreBetween low high xs
    → AreDistinct xs
    → AreBetween (low + 1) high (remove low xs)
AreBetween-remove low high [] b d = tt
AreBetween-remove low high (x ∷ xs) b d = elim (Bool-cases (x == low)) [
  | inl here ↦
      (let same : x ≡ low = ground arith in
        rw here (AreBetween-other low high xs b.2 (ap (λ t. occurs t xs) (sym same) ∙ d.0)))
  | inr there ↦ rw there (ground (arith, b.0), b.1, AreBetween-remove low high xs b.2 d.1)
]

-- The pigeonhole principle, for a range of `n` numbers.
length-AreBetween :
    (n low : ℕ) (xs : List ℕ) → AreBetween low (low + n) xs → AreDistinct xs → length xs ≤ n
length-AreBetween n low [] b d = omega arith
length-AreBetween zero low (x ∷ xs) b d =
    let p : low ≤ x = b.0 in let q : x < low + 0 = b.1 in omega arith
length-AreBetween (suc n) low (x ∷ xs) b d =
    let eq : (low + 1) + n ≡ low + suc n = omega arith in
    let rest =
      length-AreBetween n (low + 1) (remove low (x ∷ xs))
        (rw eq (AreBetween-remove low (low + suc n) (x ∷ xs) b d))
        (AreDistinct-remove low (x ∷ xs) d) in
    let step = length-remove low (x ∷ xs) in omega arith

abbrev distances : ℕ → List Entry → List ℕ
distances base es = map (λ e. ahead e.packet_id base) es

distances_apart :
    (base n id : ℕ) (es : List Entry)
    → base < 2 ^ 32
    → id < 2 ^ 32
    → can_get_entries es ≡ false
    → holds_id id es ≡ false
    → AllActive (IsNear base n) es
    → occurs (ahead id base) (distances base es) ≡ false
unfolding can_get_entries holds_id
distances_apart base n id [] b h full free near = refl
distances_apart base n id (x ∷ es) b h full free near =
    let act : x.active ≡ true = ground (arith, Bool-cases x.active) in
    let below : x.packet_id < 2 ^ 32 = (near.0 act).0 in
    let apart : x.packet_id ≢ id = λ same. ground arith in
    let rest : occurs (ahead id base) (distances base es) ≡ false =
      distances_apart base n id es b h (ground arith)
        (ground (arith, Bool-cases (x.packet_id == id))) near.1 in
    let ne : ahead x.packet_id base ≢ ahead id base = λ same. omega arith in rw rest (ground arith)

distances-AreDistinct :
    (base n : ℕ) (es : List Entry)
    → base < 2 ^ 32
    → can_get_entries es ≡ false
    → Distinct es
    → AllActive (IsNear base n) es
    → AreDistinct (distances base es)
unfolding can_get_entries
distances-AreDistinct base n [] b full d near = tt
distances-AreDistinct base n (x ∷ es) b full d near =
    let act : x.active ≡ true = ground (arith, Bool-cases x.active) in
    let full' : can_get_entries es ≡ false = ground arith in
    (
      distances_apart base n x.packet_id es b ((near.0 act).0) full' (d.0 act) near.1,
      distances-AreDistinct base n es b full' d.1 near.1,
    )

distances-AreBetween :
    (base n : ℕ) (es : List Entry)
    → base < 2 ^ 32
    → can_get_entries es ≡ false
    → holds_id base es ≡ false
    → AllActive (IsNear base n) es
    → AreBetween 1 n (distances base es)
unfolding can_get_entries holds_id
distances-AreBetween base n [] b full free near = tt
distances-AreBetween base n (x ∷ es) b full free near =
    let act : x.active ≡ true = ground (arith, Bool-cases x.active) in
    let below : x.packet_id < 2 ^ 32 = (near.0 act).0 in
    let apart : x.packet_id ≢ base = λ same. ground arith in
    let close : ahead x.packet_id base < n = (near.0 act).1 in
    (
      omega arith,
      close,
      distances-AreBetween base n es b (ground arith)
          (ground (arith, Bool-cases (x.packet_id == base))) near.1,
    )

-- When every entry of a window of at least one entry is in use, one of them holds the expected
-- id, and a delivery hands it over.
pub full-delivers :
    (rel : Reliable)
    → IsWindow rel
    → 0 < length rel.array
    → can_get rel ≡ false
    → (i : ℕ) × (e : Entry) × (e.packet_id ≡ rel.packet_id)
      × (deliver rel ≡ some (some e, delivered rel i e))
full-delivers rel (small, below, distinct, near) some_entry full = elim (deliver_cases rel) [
  | inr (i, e, g, a, s, d) ↦ (i, e, s, d)
  | inl (free, d) ↦
      (let xs = distances rel.packet_id rel.array in
        let n = length rel.array in
        let eq : 1 + (n - 1) ≡ n = omega arith in
        let short : length xs ≤ n - 1 =
          length-AreBetween (n - 1) 1 xs
            (rw eq (distances-AreBetween rel.packet_id n rel.array below full free near))
            (distances-AreDistinct rel.packet_id n rel.array below full distinct near) in
        let same : length xs ≡ n = length-map rel.array (λ e. ahead e.packet_id rel.packet_id) in
        absurd (omega arith))
]
