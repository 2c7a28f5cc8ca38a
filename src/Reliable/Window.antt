-- ===== src/Reliable/Window.antt =====
-- The control channel's receive window: the ids that wait in the receive array lie within its
-- size of the next id to deliver, and each is held once.
use par_diff_vpn.Prelude.{
  Option, ℕ, ◌+◌, ◌%◌, ◌^◌, ◌≤◌, ◌<◌, ◌≡◌, ◌≢◌, refl, sym, ap, ◌∙◌, true, false, none, some,
  get_elem?, set, length, length-set, arith, Bool-cases, inl, inr, ◌⊎◌,
}
use par_diff_vpn.Reliable.{Entry, Reliable, holds_id, mark_deleted}
use par_diff_vpn.Reliable.Range.{ahead}
use par_diff_vpn.Reliable.Entries.{
  AllActive, Distinct, AllActive-set, AllActive-map, AllActive-other, Distinct-set, find_id_found,
  find_id-none, find_id-some, holds_id_freed,
}
use par_diff_vpn.Reliable.Control.{deliver}

-- An id that lies less than `n` ahead of `base`.
abbrev pub IsNear : ℕ → ℕ → Entry → Type 0
IsNear base n e = (e.packet_id < 2 ^ 32) × (ahead e.packet_id base < n)

abbrev pub IsWindow : Reliable → Type 0
IsWindow rel =
    (length rel.array ≤ 8)
    × (rel.packet_id < 2 ^ 32)
    × Distinct rel.array
    × AllActive (IsNear rel.packet_id (length rel.array)) rel.array

-- The receive array after the entry at `i`, of id `packet_id`, is delivered.
abbrev pub delivered : Reliable → ℕ → Entry → Reliable
delivered rel i e = record rel {
  packet_id = (rel.packet_id + 1) % 2 ^ 32;
  array = set rel.array i (record e { active = false });
}

pub deliver_cases :
    (rel : Reliable)
    → ((holds_id rel.packet_id rel.array ≡ false) × (deliver rel ≡ some (none, rel)))
      ⊎ ((i : ℕ) × (e : Entry) × (get_elem? rel.array i ≡ some e)
          × (e.active ≡ true)
          × (e.packet_id ≡ rel.packet_id)
          × (deliver rel ≡ some (some e, delivered rel i e)))
unfolding deliver mark_deleted
deliver_cases rel = elim (Bool-cases (holds_id rel.packet_id rel.array)) [
  | inl held ↦
      (let (i, f) = find_id-some rel.packet_id 0 rel.array held in
        let (j, e, eq, g, a, s) = find_id_found rel.packet_id 0 rel.array {i = i} f in
        let same : i ≡ j = omega arith in
        let done : deliver rel ≡ some (some e, delivered rel i e) =
          rw (deliver, f, sym (ap (λ k. get_elem? rel.array k) (sym same)) ∙ g, mark_deleted, s) in
        inr (i, e, sym (ap (λ k. get_elem? rel.array k) (sym same)) ∙ g, a, s, done))
  | inr free ↦ inl (free, rw (deliver, find_id-none rel.packet_id 0 rel.array free))
]

IsNear-next :
    (base n : ℕ) (e : Entry)
    → base < 2 ^ 32
    → IsNear base n e × (e.packet_id ≢ base)
    → IsNear ((base + 1) % 2 ^ 32) n e
IsNear-next base n e b h =
    let p : e.packet_id < 2 ^ 32 = h.0.0 in
    let q : ahead e.packet_id base < n = h.0.1 in
    let r : e.packet_id ≢ base = h.1 in (p, ground arith)

-- Freeing the entry that holds the expected id, and expecting the next one, keeps the window.
-- Freeing the entry that holds the expected id, and expecting the next one, keeps the window.
-- Freeing the entry that holds the expected id, and expecting the next one, keeps the window.
-- Freeing the entry that holds the expected id, and expecting the next one, keeps the window.
-- Freeing the entry that holds the expected id, and expecting the next one, keeps the window.
-- Freeing the entry that holds the expected id, and expecting the next one, keeps the window.
-- Freeing the entry that holds the expected id, and expecting the next one, keeps the window.
-- Freeing the entry that holds the expected id, and expecting the next one, keeps the window.
-- Freeing the entry that holds the expected id, and expecting the next one, keeps the window.
-- Freeing the entry that holds the expected id, and expecting the next one, keeps the window.
-- Freeing the entry that holds the expected id, and expecting the next one, keeps the window.
-- Freeing the entry that holds the expected id, and expecting the next one, keeps the window.
-- Freeing the entry that holds the expected id, and expecting the next one, keeps the window.
-- Freeing the entry that holds the expected id, and expecting the next one, keeps the window.
-- Freeing the entry that holds the expected id, and expecting the next one, keeps the window.
-- Freeing the entry that holds the expected id, and expecting the next one, keeps the window.
-- Freeing the entry that holds the expected id, and expecting the next one, keeps the window.
-- Freeing the entry that holds the expected id, and expecting the next one, keeps the window.
-- Freeing the entry that holds the expected id, and expecting the next one, keeps the window.
pub delivered-IsWindow :
    (rel : Reliable) (i : ℕ) (e : Entry)
    → IsWindow rel
    → get_elem? rel.array i ≡ some e
    → e.active ≡ true
    → e.packet_id ≡ rel.packet_id
    → IsWindow (delivered rel i e)
delivered-IsWindow rel i e (small, below, distinct, near) g a s =
    let f : Entry = record e { active = false } in
    let same = length-set rel.array i f in
    let gone : holds_id rel.packet_id (set rel.array i f) ≡ false =
      rw (sym s) (holds_id_freed rel.array i f distinct g a refl) in
    let kept =
      AllActive-set (IsNear rel.packet_id (length rel.array)) rel.array i f near
        (λ b. absurd (cc)) in
    (
      omega arith,
      omega arith,
      Distinct-set rel.array i f distinct (λ b. absurd (cc)),
      rw same (
          AllActive-map
            (λ x. IsNear rel.packet_id (length rel.array) x × (x.packet_id ≢ rel.packet_id))
            (IsNear ((rel.packet_id + 1) % 2 ^ 32) (length rel.array)) (set rel.array i f)
            (λ x h. IsNear-next rel.packet_id (length rel.array) x below h)
            (AllActive-other (IsNear rel.packet_id (length rel.array)) rel.packet_id
              (set rel.array i f) kept gone)),
    )

-- A delivery never fails and keeps the window. It hands over nothing and changes nothing when the
-- expected id is not held; otherwise it hands over an entry with that id, which is then held no
-- more, and the id after it is expected.
pub deliver-IsWindow :
    (rel : Reliable)
    → IsWindow rel
    → (out : Option Entry) × (rel' : Reliable) × (deliver rel ≡ some (out, rel'))
      × IsWindow rel'
      × (((out ≡ none) × (rel' ≡ rel) × (holds_id rel.packet_id rel.array ≡ false))
          ⊎ ((e : Entry) × (out ≡ some e)
              × (e.packet_id ≡ rel.packet_id)
              × (rel'.packet_id ≡ (rel.packet_id + 1) % 2 ^ 32)
              × (holds_id rel.packet_id rel'.array ≡ false)))
deliver-IsWindow rel w = elim (deliver_cases rel) [
  | inl (free, d) ↦ (none, rel, d, w, inl (refl, refl, free))
  | inr (i, e, g, a, s, d) ↦
      (let (small, below, distinct, near) = w in
        let gone : holds_id e.packet_id (delivered rel i e).array ≡ false =
          holds_id_freed rel.array i (record e { active = false }) distinct g a refl in
        (
          some e,
          delivered rel i e,
          d,
          delivered-IsWindow rel i e w g a s,
          inr (e, refl, s, refl, ap (λ k. holds_id k (delivered rel i e).array) (sym s) ∙ gone),
        ))
]
