-- ===== src/Mbuf/Extract.antt =====
-- mbuf_extract_item and mbuf_peek, on the queue as a list.
use par_diff_vpn.Prelude.{
  ℕ, suc, ◌+◌, ◌-◌, ◌%◌, ◌≡◌, refl, sym, ap, ◌∙◌, subst, true, false, Option, none, some, List, [],
  ◌∷◌, length, arith, inl, inr, get_elem?, Bool-cases, Option-cases, ◌==◌,
}
use native.Mathlib.Nat.{mod-eq_of_lt}
use par_diff_vpn.Mbuf.{Item, MbufSet, index, is_some, extract_from, extract_item, peek_from, peek}
use par_diff_vpn.Mbuf.Ring.{IsQueue, Stands, Stands-shift, index-lt}

-- The first item that has an instance, and what is behind it.
unfoldable pub take_live : List Item → Option Item × List Item
take_live [] = (none, [])
take_live (x ∷ xs) = elim (is_some x.mi) [ true ↦ (some x, xs) | false ↦ take_live xs ]

-- The instance of the first item that has one.
unfoldable pub first_live : List Item → Option ℕ
first_live [] = none
first_live (x ∷ xs) = elim x.mi [ none ↦ first_live xs | some m ↦ some m ]

abbrev pub stepped : MbufSet → MbufSet
stepped ms = record ms { head = index ms.head 1 ms.capacity; len = ms.len - 1 }

pub stepped-IsQueue :
    (x : Item) (xs : List Item) (ms : MbufSet) → IsQueue ms (x ∷ xs) → IsQueue (stepped ms) xs
stepped-IsQueue x xs ms q = record {
  nonempty = q.nonempty;
  head_in = index-lt ms.head 1 ms.capacity q.nonempty;
  size = omega (arith, q.size);
  fits = omega (arith, q.fits);
  storage = q.storage;
  items =
      Stands-shift ms.array ms.capacity ms.head 0 xs
        (subst (λ k. Stands ms.array ms.capacity ms.head k xs) (omega arith) (q.items).1);
}

pub head-item :
    (x : Item) (xs : List Item) (ms : MbufSet)
    → IsQueue ms (x ∷ xs)
    → get_elem? ms.array ms.head ≡ some x
head-item x xs ms q =
    ap (λ k. get_elem? ms.array k)
      (let h = q.head_in in sym (ap (λ k. k % ms.capacity) (omega arith) ∙ mod-eq_of_lt h))
    ∙ (q.items).0

extract_from-step :
    (n : ℕ) (x : Item) (ms : MbufSet)
    → get_elem? ms.array ms.head ≡ some x
    → extract_from (suc n) ms ≡ elim (is_some x.mi) as (λ b. Option (Option Item × MbufSet)) [
      | true ↦ some (some x, stepped ms)
      | false ↦ extract_from n (stepped ms)
    ]
unfolding extract_from
extract_from-step n x ms found = rw found refl

extract_from-refines :
    (xs : List Item) (ms : MbufSet)
    → IsQueue ms xs
    → (ms' : MbufSet) × (extract_from (length xs) ms ≡ some ((take_live xs).0, ms'))
      × IsQueue ms' ((take_live xs).1)
      × (ms'.capacity ≡ ms.capacity)
unfolding take_live extract_from
extract_from-refines [] ms q = (ms, refl, q, refl)
extract_from-refines (x ∷ xs) ms q =
    let found = head-item x xs ms q in
    let next = stepped-IsQueue x xs ms q in
    elim (Bool-cases (is_some x.mi)) [
      | inl live ↦ (
        stepped ms,
        extract_from-step (length xs) x ms found ∙ rw (live, take_live) refl,
        rw (live, take_live) next,
        refl,
      )
      | inr dead ↦
          (let (ms', done, q', c) = extract_from-refines xs (stepped ms) next in
            (
              ms',
              extract_from-step (length xs) x ms found ∙ rw (dead, take_live) done,
              rw (dead, take_live) q',
              c,
            ))
    ]

-- In a queue with the items `xs`, mbuf_extract_item never fails: it returns the first item that has
-- an instance, or false if there is none, and leaves the items behind it.
pub extract_item_refines :
    (xs : List Item) (ms : MbufSet)
    → IsQueue ms xs
    → (ms' : MbufSet) × (extract_item ms ≡ some ((take_live xs).0, ms'))
      × IsQueue ms' ((take_live xs).1)
      × (ms'.capacity ≡ ms.capacity)
unfolding extract_item
extract_item_refines xs ms q =
    subst
      (λ n.
        (ms' : MbufSet) × (extract_from n ms ≡ some ((take_live xs).0, ms'))
        × IsQueue ms' ((take_live xs).1)
        × (ms'.capacity ≡ ms.capacity))
      q.size (extract_from-refines xs ms q)

peek_from-first :
    (xs : List Item) (i : ℕ) (ms : MbufSet)
    → Stands ms.array ms.capacity ms.head i xs
    → peek_from (length xs) i ms ≡ some (first_live xs)
unfolding peek_from first_live
peek_from-first [] i ms s = refl
peek_from-first (x ∷ xs) i ms s = elim (Option-cases x.mi) [
  | inl gone ↦ rw (s.0, gone) (peek_from-first xs (i + 1) ms s.1)
  | inr (m, there) ↦ rw (s.0, there) refl
]

pub peek_lem : (xs : List Item) (ms : MbufSet) → IsQueue ms xs → peek ms ≡ some (first_live xs)
unfolding peek first_live
peek_lem [] ms q = (let z = q.size in ground (arith, z))
peek_lem (x ∷ xs) ms q =
    let z : (ms.len == 0) ≡ false = (let n = q.size in ground (arith, n)) in
    rw (z, peek) (ap (λ n. peek_from n 0 ms) (sym q.size) ∙ peek_from-first (x ∷ xs) 0 ms q.items)
