-- ===== src/Reliable/Order.antt =====
-- Runs of the control channel's receive side: packets from the network and deliveries to the TLS
-- object, in any order.
use par_diff_vpn.Prelude.{
  ℕ, zero, suc, ◌+◌, ◌%◌, ◌^◌, ◌<◌, ◌≡◌, refl, sym, ap, ◌∙◌, subst, Option, none, some, List, [],
  ◌∷◌, length, arith, Option-cases, inl, inr, ◌>>=◌, >>=-eq-some, map,
}
use par_diff_vpn.Buffer
use par_diff_vpn.Buffer.{Buffer}
use par_diff_vpn.Reliable.{Entry, Reliable}
use par_diff_vpn.Reliable.Control.{receive, deliver}
use par_diff_vpn.Reliable.Window.{IsWindow, delivered, deliver_cases, delivered-IsWindow}
use par_diff_vpn.Reliable.Saved.{receive-IsWindow, receive_unread}

-- What happens next: a packet arrives with its opcode, or the TLS object takes the next packet.
pub data Event : Type 0 where
  arrive : ℕ → Buffer → Event
  take_next : Event

unfoldable pub emit : Option Entry → List Entry → List Entry
emit none out = out
emit (some e) out = e ∷ out

-- A run of tls_pre_decrypt and tls_process: the entries delivered, in order.
unfoldable pub run : List Event → Reliable → List ℕ → Option (List Entry × Reliable)
run [] rel ack = some ([], rel)
run (arrive op packet ∷ events) rel ack = do r ← receive op packet rel ack; run events (r.0) (r.1)
run (take_next ∷ events) rel ack = do
  d ← deliver rel
  rest ← run events (d.1) ack
  some (emit (d.0) (rest.0), rest.1)

-- Every packet that arrives has an id below 2 ^ 32, as its four bytes give.
abbrev pub AreIds : List Event → Type 0
AreIds [] = Unit
AreIds (arrive op packet ∷ events) =
    ((id : ℕ) (body : Buffer) → Buffer.read_u32 packet ≡ some (id, body) → id < 2 ^ 32)
    × AreIds events
AreIds (take_next ∷ events) = AreIds events

-- `base`, `base + 1`, …
abbrev pub consecutive : ℕ → ℕ → List ℕ
consecutive base zero = []
consecutive base (suc n) = base ∷ consecutive (base + 1) n

abbrev pub ids : List Entry → List ℕ
ids es = map (λ e. e.packet_id) es

-- The ids delivered count up from `base` to the one expected at the end.
abbrev pub IsInOrder : ℕ → List Entry × Reliable → Type 0
IsInOrder base r =
    (ids (r.0) ≡ consecutive base (length (r.0)))
    × ((r.1).packet_id ≡ base + length (r.0))
    × IsWindow (r.1)

arrive_keeps :
    (op : ℕ) (packet : Buffer) (rel : Reliable) (ack : List ℕ) (r : Reliable × List ℕ)
    → IsWindow rel
    → rel.packet_id < 2 ^ 31
    → ((id : ℕ) (body : Buffer) → Buffer.read_u32 packet ≡ some (id, body) → id < 2 ^ 32)
    → receive op packet rel ack ≡ some r
    → IsWindow (r.0) × ((r.0).packet_id ≡ rel.packet_id)
arrive_keeps op packet rel ack r w h a e = elim (Option-cases (Buffer.read_u32 packet)) [
  | inl short ↦
      (let kept : receive op packet rel ack ≡ some (rel, ack) =
          receive_unread op packet rel ack short in
        let same : r ≡ (rel, ack) = cc in
        (
          subst (λ t. IsWindow (t.0)) (sym same) w,
          ap (λ (t : Reliable × List ℕ). (t.0).packet_id) same,
        ))
  | inr ((id, body), got) ↦
      (let (w', same, _) =
          receive-IsWindow op id packet body rel (r.0) ack (r.1) w h got (a id body got) e in
        (w', same))
]

-- A run that starts in a window, fails no ASSERT, sees packets with ids below 2 ^ 32 and cannot
-- bring the expected id to 2 ^ 31 delivers packets with consecutive ids from the expected one.
-- It ends in a window that expects the id after the last one delivered.
pub run-IsInOrder :
    (events : List Event) (rel rel' : Reliable) (ack : List ℕ) (out : List Entry)
    → IsWindow rel
    → AreIds events
    → rel.packet_id + length events < 2 ^ 31
    → run events rel ack ≡ some (out, rel')
    → IsInOrder rel.packet_id (out, rel')
unfolding run emit
run-IsInOrder [] rel rel' ack out w a h e =
    let both : ([], rel) ≡ (out, rel') = cc in
    subst (IsInOrder rel.packet_id) both (refl, omega arith, w)
run-IsInOrder (arrive op packet ∷ events) rel rel' ack out w a h e =
    let (r, got, k) = >>=-eq-some (receive op packet rel ack) _ e in
    let (kept, same) = arrive_keeps op packet rel ack r w (omega arith) a.0 got in
    let (order, next, w') =
      run-IsInOrder events (r.0) rel' (r.1) out kept a.1 (rw same (omega arith)) k in
    (rw (sym same) order, rw (sym same) next, w')
run-IsInOrder (take_next ∷ events) rel rel' ack out w a h e = elim (deliver_cases rel) [
  | inl (free, d) ↦
      (let (p, got, k) = >>=-eq-some (deliver rel) _ e in
        let (rest, after, k') = >>=-eq-some (run events (p.1) ack) _ k in
        let same : p ≡ (none, rel) = cc in
        let after' : run events rel ack ≡ some rest =
          ap (λ t. run events (t.1) ack) (sym same) ∙ after in
        let end : some (rest.0, rest.1) ≡ some (out, rel') =
          ap (λ t. some (emit (t.0) (rest.0), rest.1)) (sym same) ∙ k' in
        let both : (rest.0, rest.1) ≡ (out, rel') = cc in
        subst (IsInOrder rel.packet_id) both
          (run-IsInOrder events rel (rest.1) ack (rest.0) w a (omega arith) after'))
  | inr (i, x, g, act, s, d) ↦
      (let (p, got, k) = >>=-eq-some (deliver rel) _ e in
        let (rest, after, k') = >>=-eq-some (run events (p.1) ack) _ k in
        let same : p ≡ (some x, delivered rel i x) = cc in
        let after' : run events (delivered rel i x) ack ≡ some rest =
          ap (λ t. run events (t.1) ack) (sym same) ∙ after in
        let end : some (x ∷ rest.0, rest.1) ≡ some (out, rel') =
          ap (λ t. some (emit (t.0) (rest.0), rest.1)) (sym same) ∙ k' in
        let both : (x ∷ rest.0, rest.1) ≡ (out, rel') = cc in
        let step : (rel.packet_id + 1) % 2 ^ 32 ≡ rel.packet_id + 1 = omega arith in
        let (order, next, w') =
          run-IsInOrder events (delivered rel i x) (rest.1) ack (rest.0)
            (delivered-IsWindow rel i x w g act s) a (rw step (omega arith)) after' in
        subst (IsInOrder rel.packet_id) both (
          rw s (
              ap (λ t. rel.packet_id ∷ t) (order ∙ ap (λ t. consecutive t (length (rest.0))) step)),
          next ∙ rw step (omega arith),
          w',
        ))
]
