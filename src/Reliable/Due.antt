-- ===== src/Reliable/Due.antt =====
-- The entries that are due: reliable_can_send and reliable_send.
use par_diff_vpn.Prelude.{
  ℕ, ◌+◌, ◌<◌, ◌≡◌, refl, true, false, ◌&&◌, none, some, List, [], ◌∷◌, set, arith, leb, Bool-cases,
  inl, inr, ◌⊎◌,
}
use par_diff_vpn.Reliable.{Entry, Reliable, count_current, can_send, best_from, send, pid_min}

best_from-some :
    (now i : ℕ) (b : ℕ × Entry) (es : List Entry)
    → (c : ℕ × Entry) × (best_from now i (some b) es ≡ some c)
unfolding best_from
best_from-some now i b [] = (b, refl)
best_from-some now i b (e ∷ es) = elim (Bool-cases (e.active && leb e.next_try now)) [
  | inr waits ↦ (let (c, q) = best_from-some now (i + 1) b es in (c, ground (arith, waits, q)))
  | inl due ↦ elim (Bool-cases (pid_min e.packet_id b.1.packet_id)) [
    | inl less ↦
        (let (c, q) = best_from-some now (i + 1) (i, e) es in (c, ground (arith, due, less, q)))
    | inr more ↦ (let (c, q) = best_from-some now (i + 1) b es in (c, ground (arith, due, more, q)))
  ]
]

best_from-none :
    (now i : ℕ) (es : List Entry)
    → ((count_current now es ≡ 0) × (best_from now i none es ≡ none))
      ⊎ ((0 < count_current now es) × (c : ℕ × Entry) × (best_from now i none es ≡ some c))
unfolding best_from count_current
best_from-none now i [] = inl (refl, refl)
best_from-none now i (e ∷ es) = elim (Bool-cases (e.active && leb e.next_try now)) [
  | inr waits ↦ elim (best_from-none now (i + 1) es) [
    | inl (z, q) ↦ inl (ground (arith, waits, z), ground (arith, waits, q))
    | inr (p, c, q) ↦ inr (ground (arith, waits, p), c, ground (arith, waits, q))
  ]
  | inl due ↦
      (let (c, q) = best_from-some now (i + 1) (i, e) es in
        inr (ground (arith, due), c, ground (arith, due, q)))
]

-- While the layer does not hold, reliable_can_send says true exactly when reliable_send has an entry
-- to send; otherwise reliable_send changes nothing.
pub can_send-send :
    (now : ℕ) (rel : Reliable)
    → rel.hold ≡ false
    → ((can_send now rel ≡ true)
        × (r : ℕ × ℕ) × (rel' : Reliable) × (send now rel ≡ (some r, rel')))
      ⊎ ((can_send now rel ≡ false) × (send now rel ≡ (none, rel)))
unfolding can_send send
can_send-send now rel h = elim (best_from-none now 0 rel.array) [
  | inl (z, q) ↦ inr (ground (arith, z, h), rw (send, q))
  | inr (p, c, q) ↦ inl (
    ground (arith, p, h),
    (c.0, c.1.opcode),
    record rel { array = set rel.array c.0 (record (c.1) { next_try = now + c.1.timeout }) },
    rw (send, q),
  )
]
