-- ===== src/Mbuf/Drop.antt =====
-- mbuf_dereference_instance: a client that goes away leaves no item and no reference behind.
use mathlib.Core.List.{append_assoc}
use par_diff_vpn.Prelude.{
  ℕ, suc, ◌+◌, ◌≤◌, ◌<◌, ◌≡◌, refl, sym, ap, ◌∙◌, subst, none, some, List, [], ◌∷◌, ◌++◌, map,
  length, length-append, length-set, arith, inl, inr, Bool-cases, if◌then◌else◌, get_elem?,
  get_elem?-set_self, get_elem?-set_ne, set,
}
use par_diff_vpn.Mbuf.{
  Item, MbufSet, Memory, index, names, clear_item, dereference_from, dereference_instance,
}
use par_diff_vpn.Mbuf.Ring.{IsQueue, Stands, Stands-set, index_apart, index-lt}
use par_diff_vpn.Mbuf.Counts.{refs, count, IsCounted, count-append, free_buf-IsCounted}

abbrev pub empty_item : Item
empty_item = record { buffer = none; mi = none }

-- The item after the client `m` has gone.
abbrev pub cleared : ℕ → Item → Item
cleared m x = if names m x then empty_item else x

Stands-at :
    (a : List Item) (cap h i : ℕ) (pre : List Item) (x : Item) (post : List Item)
    → Stands a cap h i (pre ++ (x ∷ post))
    → get_elem? a (index h (i + length pre) cap) ≡ some x
Stands-at a cap h i [] x post s = ap (λ k. get_elem? a (index h k cap)) (omega arith) ∙ s.0
Stands-at a cap h i (y ∷ pre) x post s =
    ap (λ k. get_elem? a (index h k cap)) (omega arith) ∙ Stands-at a cap h (i + 1) pre x post s.1

Stands-replace :
    (a : List Item) (cap h i : ℕ) (pre : List Item) (x v : Item) (post : List Item)
    → h < cap
    → i + length (pre ++ (x ∷ post)) ≤ cap
    → length a ≡ cap
    → Stands a cap h i (pre ++ (x ∷ post))
    → Stands (set a (index h (i + length pre) cap) v) cap h i (pre ++ (v ∷ post))
Stands-replace a cap h i [] x v post p fits size s = (
  ap (λ k. get_elem? (set a (index h k cap) v) (index h i cap)) (omega arith)
      ∙ get_elem?-set_self a (index h i cap) v
          (let lt = index-lt h i cap (omega arith) in omega arith),
  Stands-set a cap h (i + 1) (i + 0) post v p (omega arith) (omega arith) (inl (omega arith)) s.1,
)
Stands-replace a cap h i (y ∷ pre) x v post p fits size s = (
  get_elem?-set_ne a v (
        index_apart h (i + suc (length pre)) i cap p
          (let n = length-append pre (x ∷ post) in omega arith) (omega arith) (omega arith))
      ∙ s.0,
  subst (λ k. Stands (set a (index h k cap) v) cap h (i + 1) (pre ++ (v ∷ post))) (omega arith)
      (Stands-replace a cap h (i + 1) pre x v post p (omega arith) size s.1),
)

-- One round of the loop.
clear_item_lem :
    (held : ℕ → ℕ) (m : ℕ) (pre : List Item) (x : Item) (post : List Item) (ms : MbufSet)
    (s : Memory)
    → IsQueue ms (pre ++ (x ∷ post))
    → IsCounted held s (pre ++ (x ∷ post))
    → (ms' : MbufSet) × (s' : Memory) × (clear_item m
          (index ms.head (length pre) ms.capacity)
          x
          ms
          s
        ≡ some (ms', s'))
      × (ms'.head ≡ ms.head)
      × (ms'.capacity ≡ ms.capacity)
      × IsQueue ms' (pre ++ (cleared m x ∷ post))
      × IsCounted held s' (pre ++ (cleared m x ∷ post))
unfolding clear_item
clear_item_lem held m pre x post ms s q counted = elim (Bool-cases (names m x)) [
  | inr other ↦ (ms, s, rw (other, clear_item) refl, refl, refl, rw other q, rw other counted)
  | inl same ↦
      (let less : (b : ℕ)
            → s b ≡ held b + (refs b x.buffer + count b (pre ++ (empty_item ∷ post))) =
          λ b.
            (let c = counted b in
              let u = count-append b pre (x ∷ post) in
              let w = count-append b pre (empty_item ∷ post) in omega arith) in
        let (s', freed, counted') =
          free_buf-IsCounted held s x.buffer (pre ++ (empty_item ∷ post)) less in
        let place : index ms.head (0 + length pre) ms.capacity
            ≡ index ms.head (length pre) ms.capacity =
          ap (λ k. index ms.head k ms.capacity) (omega arith) in
        (
          record ms { array = set ms.array (index ms.head (length pre) ms.capacity) empty_item },
          s',
          rw (same, freed, clear_item) refl,
          refl,
          refl,
          rw same (record {
            nonempty = q.nonempty;
            head_in = q.head_in;
            size =
                length-append pre (empty_item ∷ post) ∙ sym (length-append pre (x ∷ post)) ∙ q.size;
            fits = q.fits;
            storage =
                length-set ms.array (index ms.head (length pre) ms.capacity) empty_item ∙ q.storage;
            items =
                subst
                  (λ k.
                    Stands (set ms.array k empty_item) ms.capacity ms.head 0
                      (pre ++ (empty_item ∷ post)))
                  place
                  (Stands-replace ms.array ms.capacity ms.head 0 pre x empty_item post q.head_in
                    (let n = q.size in let f = q.fits in omega arith) q.storage q.items);
          }),
          rw same counted',
        ))
]

dereference_from-refines :
    (held : ℕ → ℕ) (m : ℕ) (pre rest : List Item) (ms : MbufSet) (s : Memory) (i : ℕ)
    → IsQueue ms (pre ++ rest)
    → IsCounted held s (pre ++ rest)
    → i ≡ length pre
    → (ms' : MbufSet) × (s' : Memory) × (dereference_from (length rest) i m ms s ≡ some (ms', s'))
      × IsQueue ms' (pre ++ map (cleared m) rest)
      × IsCounted held s' (pre ++ map (cleared m) rest)
unfolding dereference_from
dereference_from-refines held m pre [] ms s i q counted e = (ms, s, refl, q, counted)
dereference_from-refines held m pre (x ∷ rest) ms s i q counted e =
    let found : get_elem? ms.array (index ms.head i ms.capacity) ≡ some x =
      ap (λ k. get_elem? ms.array (index ms.head k ms.capacity)) (omega arith)
      ∙ Stands-at ms.array ms.capacity ms.head 0 pre x rest q.items in
    let (ms1, s1, done, h, c, q1, counted1) = clear_item_lem held m pre x rest ms s q counted in
    let done' : clear_item m (index ms.head i ms.capacity) x ms s ≡ some (ms1, s1) =
      ap (λ k. clear_item m (index ms.head k ms.capacity) x ms s) e ∙ done in
    let joined : pre ++ (cleared m x ∷ rest) ≡ (pre ++ (cleared m x ∷ [])) ++ rest =
      sym (append_assoc pre (cleared m x ∷ []) rest) in
    let (ms2, s2, others, q2, counted2) =
      dereference_from-refines held m (pre ++ (cleared m x ∷ [])) rest ms1 s1 (i + 1)
        (subst (λ l. IsQueue ms1 l) joined q1) (subst (λ l. IsCounted held s1 l) joined counted1)
        (let n = length-append pre (cleared m x ∷ []) in omega arith) in
    let whole = append_assoc pre (cleared m x ∷ []) (map (cleared m) rest) in
    (
      ms2,
      s2,
      rw (found, done') others,
      subst (λ l. IsQueue ms2 l) whole q2,
      subst (λ l. IsCounted held s2 l) whole counted2,
    )

-- With right counts mbuf_dereference_instance never fails: in the queue the items of the client are
-- emptied and the others stay as they are, and the counts are right again, so that each of its
-- buffers is given back once.
pub dereference_instance_lem :
    (held : ℕ → ℕ) (m : ℕ) (xs : List Item) (ms : MbufSet) (s : Memory)
    → IsQueue ms xs
    → IsCounted held s xs
    → (ms' : MbufSet) × (s' : Memory) × (dereference_instance m ms s ≡ some (ms', s'))
      × IsQueue ms' (map (cleared m) xs)
      × IsCounted held s' (map (cleared m) xs)
unfolding dereference_instance
dereference_instance_lem held m xs ms s q counted =
    subst
      (λ n.
        (ms' : MbufSet) × (s' : Memory) × (dereference_from n 0 m ms s ≡ some (ms', s'))
        × IsQueue ms' (map (cleared m) xs)
        × IsCounted held s' (map (cleared m) xs))
      q.size (dereference_from-refines held m [] xs ms s 0 q counted refl)
