-- ===== src/Reliable/AckWire.antt =====
-- An acknowledgement record from reliable_ack_write to reliable_ack_read.
use par_diff_vpn.Prelude.{
  ℕ, zero, suc, ◌+◌, ◌*◌, ◌^◌, ◌≤◌, ◌<◌, ◌≡◌, refl, sym, ap, ◌∙◌, true, false, some, List, [], ◌∷◌,
  ◌++◌, length, length-append, length-take, take, drop, arith, ltb, ◌==◌, if◌then◌else◌,
  >>=-eq-some, Bool-cases, inl, inr,
}
use mathlib.Core.List.{append-nil, append_assoc}
use par_diff_vpn.Buffer
use par_diff_vpn.Buffer.{Buffer, be32, contents}
use par_diff_vpn.Buffer.Contents.{IsValid, prepend_fits}
use par_diff_vpn.Buffer.Numbers.{read_u32-append, read-append, read_u8-append}
use par_diff_vpn.Reliable.Ack.{
  bytes_equal, session_id_equal, session_id_defined, read_ids, read, record_size, ids_wire, wire,
  write,
}

-- The ids are 32-bit numbers.
abbrev pub AreIds : List ℕ → Type 0
AreIds [] = Unit
AreIds (pid ∷ pids) = (pid < 2 ^ 32) × AreIds pids

bytes_equal_self : (sid : List ℕ) → bytes_equal sid sid ≡ true
unfolding bytes_equal
bytes_equal_self [] = refl
bytes_equal_self (x ∷ sid) = let rest = bytes_equal_self sid in ground arith

length-ids_wire : (pids : List ℕ) → length (ids_wire pids) ≡ 4 * length pids
unfolding ids_wire
length-ids_wire [] = refl
length-ids_wire (pid ∷ pids) = (let rest = length-ids_wire pids in omega arith)

length-wire :
    (pids sid : List ℕ) → length sid ≡ 8 → length (wire pids sid) ≡ record_size (length pids)
unfolding wire record_size
length-wire [] sid h = refl
length-wire (pid ∷ pids) sid h =
    let rest = length-ids_wire (pid ∷ pids) in
    let both = length-append (ids_wire (pid ∷ pids)) sid in grind arith

read_ids-wire :
    (pids ack rest : List ℕ) (b : Buffer)
    → AreIds pids
    → IsValid b
    → contents b ≡ ids_wire pids ++ rest
    → length ack + length pids ≤ 8
    → (b' : Buffer) × (read_ids (length pids) ack b ≡ some (ack ++ pids, b'))
      × IsValid b'
      × (contents b' ≡ rest)
unfolding read_ids ids_wire
read_ids-wire [] ack rest b h v e le = (b, ap (λ t. some (t, b)) (sym (append-nil ack)), v, e)
read_ids-wire (pid ∷ pids) ack rest b h v e le =
    let (b1, got, v1, e1) = read_u32-append pid (ids_wire pids ++ rest) b h.0 v e in
    let one : length (ack ++ (pid ∷ [])) ≡ length ack + 1 = length-append ack (pid ∷ []) in
    let (b2, others, v2, e2) =
      read_ids-wire pids (ack ++ (pid ∷ [])) rest b1 h.1 v1 e1 (omega arith) in
    let room : ltb (length ack) 8 ≡ true = ground arith in
    (b2, rw (got, room, others) (ap (λ t. some (t, b2)) (append_assoc ack (pid ∷ []) pids)), v2, e2)

-- The ids that go into the packet.
abbrev pub sent : ℕ → List ℕ → ℕ
sent limit ack = if ltb limit (length ack) then limit else length ack

write-wire :
    (ack sid : List ℕ) (b b' : Buffer) (limit : ℕ)
    → length sid ≡ 8
    → session_id_defined sid ≡ true
    → length (take (sent limit ack) ack) ≡ sent limit ack
    → Buffer.write_prepend (wire (take (sent limit ack) ack) sid) b ≡ some b'
    → write ack b sid limit true ≡ some (some (drop (sent limit ack) ack, b'))
unfolding write Buffer.write_prepend Buffer.write_alloc_prepend
write-wire ack sid b b' limit h defined count e =
    let len : length (wire (take (sent limit ack) ack) sid) ≡ record_size (sent limit ack) =
      length-wire (take (sent limit ack) ack) sid h ∙ ap record_size count in
    let (place, first, second) =
      >>=-eq-some (Buffer.prepend (length (wire (take (sent limit ack) ack) sid)) b) _ e in
    let first' : Buffer.prepend (record_size (sent limit ack)) b ≡ some place =
      ap (λ n. Buffer.prepend n b) (sym len) ∙ first in
    elim (Bool-cases (sent limit ack == 0)) [
      | inl z ↦ rw (write, Buffer.write_alloc_prepend, first', z, second) refl
      | inr s ↦ rw (write, Buffer.write_alloc_prepend, first', s, defined, second) refl
    ]

take-AreIds : (n : ℕ) (ack : List ℕ) → AreIds ack → AreIds (take n ack)
take-AreIds zero ack h = tt
take-AreIds (suc n) [] h = tt
take-AreIds (suc n) (pid ∷ ack) h = (h.0, take-AreIds n ack h.1)

read-wire :
    (pids sid rest : List ℕ) (b : Buffer)
    → AreIds pids
    → length pids ≤ 8
    → length sid ≡ 8
    → session_id_defined sid ≡ true
    → IsValid b
    → contents b ≡ wire pids sid ++ rest
    → (b' : Buffer) × (read [] b sid ≡ some (pids, b')) × IsValid b' × (contents b' ≡ rest)
unfolding wire read read_ids session_id_equal
read-wire [] sid rest b ids few h defined v e =
    let (b', got, v', e') = read_u8-append 0 rest b v e in (b', rw got refl, v', e')
read-wire (pid ∷ pids) sid rest b ids few h defined v e =
    let n : ℕ = length (pid ∷ pids) in
    let whole : contents b ≡ n ∷ (ids_wire (pid ∷ pids) ++ (sid ++ rest)) =
      e ∙ ap (λ t. n ∷ t) (append_assoc (ids_wire (pid ∷ pids)) sid rest) in
    let (b1, counted, v1, e1) = read_u8-append n _ b v whole in
    let (b2, got, v2, e2) =
      read_ids-wire (pid ∷ pids) [] (sid ++ rest) b1 ids v1 e1 (omega arith) in
    let (b3, named, v3, e3, _) = read-append sid rest b2 v2 e2 in
    let some_ids : (n == 0) ≡ false = ground arith in
    let named8 : Buffer.read 8 b2 ≡ some (sid, b3) = ap (λ k. Buffer.read k b2) (sym h) ∙ named in
    (b3, rw (counted, got, some_ids, named8, defined, bytes_equal_self sid) refl, v3, e3)

-- A record of at most 8 ids of 32 bits, a session id of 8 bytes that is not all zero, and a valid
-- packet with headroom for the ids that go into it, `limit` at most. Then reliable_ack_write puts them in
-- front of the packet and takes them off the record, and reliable_ack_read gets just these ids and
-- leaves the packet as it was.
pub ack_roundtrip :
    (ack sid : List ℕ) (b : Buffer) (limit : ℕ)
    → AreIds ack
    → length ack ≤ 8
    → length sid ≡ 8
    → session_id_defined sid ≡ true
    → IsValid b
    → record_size (sent limit ack) ≤ b.offset
    → (b1 b2 : Buffer) × (write ack b sid limit true ≡ some (some (drop (sent limit ack) ack, b1)))
      × IsValid b1
      × (read [] b1 sid ≡ some (take (sent limit ack) ack, b2))
      × IsValid b2
      × (contents b2 ≡ contents b)
ack_roundtrip ack sid b limit ids few h defined (d, v) room =
    let pids : List ℕ = take (sent limit ack) ack in
    let count : length pids ≡ sent limit ack =
      (let k = length-take (sent limit ack) ack in ground arith) in
    let size : length (wire pids sid) ≡ record_size (sent limit ack) =
      length-wire pids sid h ∙ ap record_size count in
    let (b1, w, v1, c1, _, _, _) = prepend_fits (wire pids sid) b v (omega arith) in
    let (b2, r, v2, c2) =
      read-wire pids sid (contents b) b1 (take-AreIds (sent limit ack) ack ids) (ground arith) h
        defined (_, v1) c1 in
    (b1, b2, write-wire ack sid b b1 limit h defined count w, (_, v1), r, v2, c2)
