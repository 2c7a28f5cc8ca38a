-- ===== src/Mbuf/Ring.antt =====
-- The items of a queue in their order, and the places they have in the array.
use native.Mathlib.Nat.{mod-add-mod, mod-eq_of_lt, mod-eq-sub-mod, mod-lt}
use par_diff_vpn.Prelude.{
  ℕ, suc, ◌+◌, ◌-◌, ◌%◌, ◌≤◌, ◌<◌, ◌≡◌, ◌≢◌, sym, ap, ◌∙◌, subst, some, List, [], ◌∷◌, ◌++◌, length,
  arith, ◌⊎◌, get_elem?, get_elem?-set_ne, get_elem?-set_self, set, dec_lt,
}
use par_diff_vpn.Integer.Laws.{forward}
use par_diff_vpn.Mbuf.{Item, MbufSet, index}

pub index-forward : (h i n : ℕ) → h < n → i < n → index h i n ≡ forward h i n
index-forward h i n p q = elim (dec_lt (h + i) n) [
  | yes low ↦ mod-eq_of_lt low ∙ ground (arith, low)
  | no high ↦
      mod-eq-sub-mod {n = h + i} {m = n} (omega arith)
      ∙ mod-eq_of_lt {n = h + i - n} {m = n} (omega arith)
      ∙ ground (arith, high)
]

pub index-lt : (h i n : ℕ) → 0 < n → index h i n < n
index-lt h i n p = mod-lt (h + i) p

forward_apart : (h i j n : ℕ) → h < n → i < n → j < n → i ≢ j → forward h i n ≢ forward h j n
forward_apart h i j n p q r ne = ground arith

pub index_apart : (h i j n : ℕ) → h < n → i < n → j < n → i ≢ j → index h i n ≢ index h j n
index_apart h i j n p q r ne e =
    forward_apart h i j n p q r ne (sym (index-forward h i n p q) ∙ e ∙ index-forward h j n p r)

-- A step of the head shifts the indices by one.
pub index_shift : (h i n : ℕ) → index (index h 1 n) i n ≡ index h (1 + i) n
index_shift h i n = mod-add-mod (h + 1) n i ∙ ap (λ k. k % n) (omega arith)

-- Whether the list is what stands in the array from the index `i` on.
abbrev pub Stands : List Item → ℕ → ℕ → ℕ → List Item → Type 0
Stands a cap h i [] = Unit
Stands a cap h i (x ∷ xs) = (get_elem? a (index h i cap) ≡ some x) × Stands a cap h (i + 1) xs

pub record IsQueue (ms : MbufSet) (xs : List Item) : Type 0 where
  pub nonempty : 0 < ms.capacity
  pub head_in : ms.head < ms.capacity
  pub size : length xs ≡ ms.len
  pub fits : ms.len ≤ ms.capacity
  pub storage : length ms.array ≡ ms.capacity
  pub items : Stands ms.array ms.capacity ms.head 0 xs

pub Stands-shift :
    (a : List Item) (cap h i : ℕ) (xs : List Item)
    → Stands a cap h (1 + i) xs
    → Stands a cap (index h 1 cap) i xs
Stands-shift a cap h i [] s = tt
Stands-shift a cap h i (x ∷ xs) s = (
  ap (λ k. get_elem? a k) (index_shift h i cap) ∙ s.0,
  Stands-shift a cap h (i + 1) xs (subst (λ k. Stands a cap h k xs) (omega arith) s.1),
)

-- Writing at another index leaves the list.
pub Stands-set :
    (a : List Item) (cap h i j : ℕ) (xs : List Item) (v : Item)
    → h < cap
    → i + length xs ≤ cap
    → j < cap
    → (j < i) ⊎ (i + length xs ≤ j)
    → Stands a cap h i xs
    → Stands (set a (index h j cap) v) cap h i xs
Stands-set a cap h i j [] v p q r apart s = tt
Stands-set a cap h i j (x ∷ xs) v p q r apart s = (
  get_elem?-set_ne a v (index_apart h j i cap p r (omega arith) (omega arith)) ∙ s.0,
  Stands-set a cap h (i + 1) j xs v p (omega arith) r (omega arith) s.1,
)

-- Writing just behind the list adds the item to it.
pub Stands-append :
    (a : List Item) (cap h i : ℕ) (xs : List Item) (v : Item)
    → h < cap
    → i + length xs < cap
    → length a ≡ cap
    → Stands a cap h i xs
    → Stands (set a (index h (i + length xs) cap) v) cap h i (xs ++ (v ∷ []))
Stands-append a cap h i [] v p q size s = (
  ap (λ k. get_elem? (set a (index h k cap) v) (index h i cap)) (omega arith)
      ∙ get_elem?-set_self a (index h i cap) v
          (let lt = index-lt h i cap (omega arith) in omega arith),
  tt,
)
Stands-append a cap h i (x ∷ xs) v p q size s = (
  get_elem?-set_ne a v
        (index_apart h (i + suc (length xs)) i cap p (omega arith) (omega arith) (omega arith))
      ∙ s.0,
  subst (λ k. Stands (set a (index h k cap) v) cap h (i + 1) (xs ++ (v ∷ []))) (omega arith)
      (Stands-append a cap h (i + 1) xs v p (omega arith) size s.1),
)
