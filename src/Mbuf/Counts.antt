-- ===== src/Mbuf/Counts.antt =====
-- The reference counts: at each address the holders outside the queue and the items in it.
use par_diff_vpn.Prelude.{
  ℕ, ◌+◌, ◌-◌, ◌≡◌, refl, ap, ◌∙◌, true, false, not, ◌||◌, Option, none, some, List, [], ◌∷◌, ◌++◌,
  arith, inl, inr, Bool-cases, Option-cases, if◌then◌else◌, ◌==◌, ltb,
}
use par_diff_vpn.Mbuf.{Item, Memory, write, is_some, free_buf}
use par_diff_vpn.Mbuf.Extract.{take_live}

abbrev pub refs : ℕ → Option ℕ → ℕ
refs b none = 0
refs b (some c) = if b == c then 1 else 0

abbrev pub count : ℕ → List Item → ℕ
count b [] = 0
count b (x ∷ xs) = refs b x.buffer + count b xs

-- Each count is what is held outside, `held`, and what the items hold.
abbrev pub IsCounted : (ℕ → ℕ) → Memory → List Item → Type 0
IsCounted held s xs = (b : ℕ) → s b ≡ held b + count b xs

-- An item without an instance has no buffer.
abbrev pub AreLinked : List Item → Type 0
AreLinked [] = Unit
AreLinked (x ∷ xs) = (is_some x.mi || not (is_some x.buffer) ≡ true) × AreLinked xs

pub count-append : (b : ℕ) (xs ys : List Item) → count b (xs ++ ys) ≡ count b xs + count b ys
count-append b [] ys = omega arith
count-append b (x ∷ xs) ys = omega (arith, count-append b xs ys)

pub AreLinked-append : (xs ys : List Item) → AreLinked xs → AreLinked ys → AreLinked (xs ++ ys)
AreLinked-append [] ys h k = k
AreLinked-append (x ∷ xs) ys h k = (h.0, AreLinked-append xs ys h.1 k)

-- What the queue loses when its first item with an instance is taken.
abbrev pub lost : ℕ → Option Item → ℕ
lost b none = 0
lost b (some x) = refs b x.buffer

dead-refs :
    (b : ℕ) (x : Item)
    → (is_some x.mi || not (is_some x.buffer)) ≡ true
    → is_some x.mi ≡ false
    → refs b x.buffer ≡ 0
dead-refs b x h k = elim (Option-cases x.buffer) [
  | inl gone ↦ rw gone refl
  | inr (c, there) ↦ (let q = rw (k, there) at h in absurd (cc))
]

pub count-take_live :
    (b : ℕ) (xs : List Item)
    → AreLinked xs
    → (count b xs ≡ lost b (take_live xs).0 + count b (take_live xs).1) × AreLinked (take_live xs).1
unfolding take_live
count-take_live b [] h = (refl, tt)
count-take_live b (x ∷ xs) h = elim (Bool-cases (is_some x.mi)) [
  | inl live ↦ rw (live, take_live) (refl, h.1)
  | inr dead ↦
      (let (rest, linked) = count-take_live b xs h.1 in
        let gone = dead-refs b x h.0 dead in rw (dead, take_live) (omega arith, linked))
]

-- Giving back a reference that is counted.
pub free_buf-IsCounted :
    (held : ℕ → ℕ) (s : Memory) (o : Option ℕ) (xs : List Item)
    → ((b : ℕ) → s b ≡ held b + (refs b o + count b xs))
    → (s' : Memory) × (free_buf s o ≡ some s') × IsCounted held s' xs
unfolding free_buf
free_buf-IsCounted held s none xs h = (s, refl, λ b. (let q = h b in omega arith))
free_buf-IsCounted held s (some c) xs h =
    let here : s c ≡ held c + (1 + count c xs) = (let q = h c in ground arith) in
    let positive : ltb 0 (s c) ≡ true = ground (arith, here) in
    (
      write s c (s c - 1),
      rw (positive, free_buf) refl,
      λ b.
          (let q = h b in
            elim (Bool-cases (b == c)) [
              | inl same ↦
                  (let e : b ≡ c = ground (arith, same) in
                    rw same (omega (arith, here, ap held e, ap (λ t. count t xs) e)))
              | inr other ↦ rw other (q ∙ rw other (omega arith))
            ]),
    )
