-- ===== src/Mbuf/Add.antt =====
-- mbuf_add_item: what it does with a full queue, and its reference count.
use par_diff_vpn.Prelude.{
  ℕ, ◌+◌, ◌<◌, ◌≡◌, refl, ap, ◌∙◌, subst, true, false, none, some, List, [], ◌∷◌, ◌++◌, length,
  length-append, length-set, arith, ◌⊎◌, inl, inr, Bool-cases, Option-cases, ◌==◌, ltb, set, max,
  dec_lt,
}
use par_diff_vpn.Mbuf.{
  Item, MbufSet, Memory, write, index, is_some, free_buf, extract_item, make_room, add_item,
}
use par_diff_vpn.Mbuf.Ring.{IsQueue, Stands, Stands-append}
use par_diff_vpn.Mbuf.Extract.{take_live, extract_item_refines}
use par_diff_vpn.Mbuf.Counts.{
  refs, count, IsCounted, AreLinked, AreLinked-append, count-append, lost, count-take_live,
  free_buf-IsCounted,
}

abbrev pub put : MbufSet → Item → MbufSet
put ms item = record ms {
  array = set ms.array (index ms.head ms.len ms.capacity) item;
  len = ms.len + 1;
  max_queued = max (ms.len + 1) ms.max_queued;
}

put-IsQueue :
    (xs : List Item) (ms : MbufSet) (item : Item)
    → IsQueue ms xs
    → ms.len < ms.capacity
    → IsQueue (put ms item) (xs ++ (item ∷ []))
put-IsQueue xs ms item q lt = record {
  nonempty = q.nonempty;
  head_in = q.head_in;
  size = (let n = q.size in let k = length-append xs (item ∷ []) in omega arith);
  fits = omega arith;
  storage = length-set ms.array (index ms.head ms.len ms.capacity) item ∙ q.storage;
  items =
      (let n = q.size in
        subst
          (λ k.
            Stands (set ms.array (index ms.head k ms.capacity) item) ms.capacity ms.head 0
              (xs ++ (item ∷ [])))
          (omega arith)
          (Stands-append ms.array ms.capacity ms.head 0 xs item q.head_in (omega arith) q.storage
            q.items));
}

-- A reference more at one address, held by the new item.
count_more :
    (held : ℕ → ℕ) (s : Memory) (xs : List Item) (item : Item) (b : ℕ)
    → IsCounted held s xs
    → item.buffer ≡ some b
    → IsCounted held (write s b (s b + 1)) (xs ++ (item ∷ []))
count_more held s xs item b h e c =
    let more : count c (xs ++ (item ∷ [])) ≡ count c xs + (refs c (some b) + 0) =
      count-append c xs (item ∷ []) ∙ ap (λ o. count c xs + (refs c o + 0)) e in
    let here = h c in
    elim (Bool-cases (c == b)) [
      | inl same ↦
          (let q : c ≡ b = ground (arith, same) in
            let at_b = ap s q in
            let more' : count c (xs ++ (item ∷ [])) ≡ count c xs + (1 + 0) = more ∙ rw same refl in
            rw same (omega arith))
      | inr other ↦
          (let more' : count c (xs ++ (item ∷ [])) ≡ count c xs + (0 + 0) = more ∙ rw other refl in
            rw other (omega arith))
    ]

-- The end of mbuf_add_item, once there is room.
added :
    (ms : MbufSet) (s : Memory) (item : Item) (b : ℕ) (ms0 : MbufSet) (s0 : Memory)
    → make_room ms0 s0 ≡ some (ms, s)
    → item.buffer ≡ some b
    → ms.len < ms.capacity
    → 0 < s b
    → add_item ms0 s0 item ≡ some (put ms item, write s b (s b + 1))
unfolding add_item
added ms s item b ms0 s0 room e lt pos =
    let l : ltb ms.len ms.capacity ≡ true = ground arith in
    let p : ltb 0 (s b) ≡ true = ground arith in rw (room, e, l, p, add_item) refl

kept : (ms : MbufSet) (s : Memory) → (ms.len == ms.capacity) ≡ false → make_room ms s ≡ some (ms, s)
unfolding make_room
kept ms s full = rw (full, make_room) refl

room_made :
    (ms ms1 : MbufSet) (s s1 : Memory) (rm : Item)
    → (ms.len == ms.capacity) ≡ true
    → extract_item ms ≡ some (some rm, ms1)
    → free_buf s rm.buffer ≡ some s1
    → make_room ms s ≡ some (ms1, s1)
unfolding make_room
room_made ms ms1 s s1 rm full got freed = rw (full, got, freed, make_room) refl

no_room :
    (ms ms1 : MbufSet) (s : Memory) (item : Item)
    → (ms.len == ms.capacity) ≡ true
    → extract_item ms ≡ some (none, ms1)
    → add_item ms s item ≡ none
unfolding add_item make_room
no_room ms ms1 s item full got = rw (full, got, add_item, make_room) refl

shorter :
    (xs : List Item) (rm : Item) → (take_live xs).0 ≡ some rm → length (take_live xs).1 < length xs
unfolding take_live
shorter [] rm h = absurd (cc)
shorter (x ∷ xs) rm h = elim (Bool-cases (is_some x.mi)) [
  | inl live ↦ rw (live, take_live) (omega arith)
  | inr dead ↦
      (let r = shorter xs rm (rw (dead, take_live) at h) in rw (dead, take_live) (omega arith))
]

-- Let the counts be right, the new item have an instance and a buffer that the caller holds, and no
-- item without an instance have a buffer. A queue that is not full gets the item at its end. A full
-- queue first loses the items up to the first that has an instance, whose buffer is given back; but if
-- none of them has an instance, mbuf_add_item fails its ASSERT. Where it ends the counts are right
-- again.
pub add_item_lem :
    (held : ℕ → ℕ) (xs : List Item) (ms : MbufSet) (s : Memory) (item : Item) (b : ℕ)
    → IsQueue ms xs
    → AreLinked xs
    → IsCounted held s xs
    → is_some item.mi ≡ true
    → item.buffer ≡ some b
    → 0 < held b
    → ((ms.len < ms.capacity)
        × (ms' : MbufSet) × (s' : Memory) × (add_item ms s item ≡ some (ms', s'))
        × IsQueue ms' (xs ++ (item ∷ []))
        × IsCounted held s' (xs ++ (item ∷ []))
        × AreLinked (xs ++ (item ∷ [])))
      ⊎ ((ms.len ≡ ms.capacity)
          × (rm : Item) × (ms' : MbufSet) × (s' : Memory) × ((take_live xs).0 ≡ some rm)
          × (add_item ms s item ≡ some (ms', s'))
          × IsQueue ms' ((take_live xs).1 ++ (item ∷ []))
          × IsCounted held s' ((take_live xs).1 ++ (item ∷ []))
          × AreLinked ((take_live xs).1 ++ (item ∷ [])))
      ⊎ ((ms.len ≡ ms.capacity) × ((take_live xs).0 ≡ none) × (add_item ms s item ≡ none))
add_item_lem held xs ms s item b q linked counted live has holds =
    let one : AreLinked (item ∷ []) = (rw live refl, tt) in
    elim (dec_lt ms.len ms.capacity) [
      | yes lt ↦
          (let full : (ms.len == ms.capacity) ≡ false = ground arith in
            let room : make_room ms s ≡ some (ms, s) = kept ms s full in
            let here : 0 < s b = (let c = counted b in omega arith) in
            inl (
              lt,
              put ms item,
              write s b (s b + 1),
              added ms s item b ms s room has lt here,
              put-IsQueue xs ms item q lt,
              count_more held s xs item b counted has,
              AreLinked-append xs (item ∷ []) linked one,
            ))
      | no ge ↦
          (let fits = q.fits in
            let e : ms.len ≡ ms.capacity = omega arith in
            let full : (ms.len == ms.capacity) ≡ true = ground arith in
            let (ms1, got, q1, same) = extract_item_refines xs ms q in
            elim (Option-cases (take_live xs).0) [
              | inl dead ↦
                  inr
                    (inr (e, dead, no_room ms ms1 s item full (got ∙ ap (λ o. some (o, ms1)) dead)))
              | inr (rm, first) ↦
                  (let rest : List Item = (take_live xs).1 in
                    let taken : (c : ℕ) → s c ≡ held c + (refs c rm.buffer + count c rest) = λ c.
                      counted c
                      ∙ ap (λ n. held c + n)
                          ((count-take_live c xs linked).0
                            ∙ ap (λ o. lost c o + count c rest) first) in
                    let (s1, freed, counted1) = free_buf-IsCounted held s rm.buffer rest taken in
                    let room : make_room ms s ≡ some (ms1, s1) =
                      room_made ms ms1 s s1 rm full (got ∙ ap (λ o. some (o, ms1)) first) freed in
                    let lt : ms1.len < ms1.capacity =
                      (let r = shorter xs rm first in
                        let n = q1.size in let k = q.size in omega arith) in
                    let here : 0 < s1 b = (let c = counted1 b in omega arith) in
                    inr (
                      inl (
                        e,
                        rm,
                        put ms1 item,
                        write s1 b (s1 b + 1),
                        first,
                        added ms1 s1 item b ms s room has lt here,
                        put-IsQueue rest ms1 item q1 lt,
                        count_more held s1 rest item b counted1 has,
                        AreLinked-append rest (item ∷ []) (count-take_live 0 xs linked).1 one,
                      )))
            ])
    ]
