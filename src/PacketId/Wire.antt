-- ===== src/PacketId/Wire.antt =====
-- packet_id_read and packet_id_write of packet_id.c: packet ids in a buffer. A time is sent as a
-- 32-bit number. `none` is the result false; its callers drop the packet.
use par_diff_vpn.Prelude.{
  ℕ, ◌+◌, ◌^◌, ◌≤◌, ◌<◌, ◌≡◌, Option, some, List, ◌++◌, Bool, true, false, if◌then◌else◌, ◌>>=◌,
  arith, ap, ◌∙◌,
}
use par_diff_vpn.Buffer
use par_diff_vpn.Buffer.{Buffer, contents, be32, read_u32, write_prepend}
use par_diff_vpn.Buffer.Contents.{IsValid, prepend_fits}
use par_diff_vpn.Buffer.Numbers.{read_u32-append}
use par_diff_vpn.PacketId.{Net}

-- packet_id_size
unfoldable pub size : Bool → ℕ
size long_form = 4 + (if long_form then 4 else 0)

-- packet_id_read
pub read : Buffer → Bool → Option (Net × Buffer)
read b long_form = do
  r ← read_u32 b
  elim long_form [
    | true ↦ (do t ← read_u32 r.1; some (record { id = r.0; time = t.0 }, t.1))
    | false ↦ some (record { id = r.0; time = 0 }, r.1)
  ]

-- packet_id_write
pub write : Net → Buffer → Bool → Bool → Option Buffer
write pin b long_form before =
    if before
    then (do
      b' ← if long_form then write_prepend (be32 pin.time) b else some b
      write_prepend (be32 pin.id) b')
    else (do
      b' ← Buffer.write (be32 pin.id) b
      if long_form then Buffer.write (be32 pin.time) b' else some b')

-- The bytes of a packet id.
abbrev pub wire : Net → Bool → List ℕ
wire pin true = be32 pin.id ++ be32 pin.time
wire pin false = be32 pin.id

-- A packet id written before the contents stands in front of them.
pub write-wire :
    (pin : Net) (b : Buffer) (long_form : Bool)
    → IsValid b
    → size long_form ≤ b.offset
    → (b' : Buffer) × (write pin b long_form true ≡ some b')
      × IsValid b'
      × (contents b' ≡ wire pin long_form ++ contents b)
unfolding write size
write-wire pin b true (d, v) h =
    let (b1, e1, v1, c1, o1, _, _) = prepend_fits (be32 pin.time) b v (omega arith) in
    let (b2, e2, v2, c2, _, _, _) = prepend_fits (be32 pin.id) b1 v1 (omega arith) in
    (b2, rw e1 e2, (_, v2), c2 ∙ ap (λ t. be32 pin.id ++ t) c1)
write-wire pin b false (d, v) h =
    let (b2, e2, v2, c2, _, _, _) = prepend_fits (be32 pin.id) b v (omega arith) in
    (b2, e2, (_, v2), c2)

read-wire :
    (pin : Net) (b : Buffer) (long_form : Bool) (rest : List ℕ)
    → pin.id < 2 ^ 32
    → pin.time < 2 ^ 32
    → IsValid b
    → contents b ≡ wire pin long_form ++ rest
    → (b' : Buffer) × (read b long_form
        ≡ some (record { id = pin.id; time = (if long_form then pin.time else 0) }, b'))
      × IsValid b'
      × (contents b' ≡ rest)
unfolding read
read-wire pin b true rest h k v e =
    let (b1, e1, v1, c1) = read_u32-append pin.id (be32 pin.time ++ rest) b h v e in
    let (b2, e2, v2, c2) = read_u32-append pin.time rest b1 k v1 c1 in (b2, rw (e1, e2), v2, c2)
read-wire pin b false rest h k v e =
    let (b1, e1, v1, c1) = read_u32-append pin.id rest b h v e in (b1, rw e1, v1, c1)

-- A packet id of 32 bits with a time of 32 bits, written in front of a packet with room for it,
-- is read back, and the packet is left behind it; the short form does not carry the time.
pub write-read :
    (pin : Net) (b : Buffer) (long_form : Bool)
    → pin.id < 2 ^ 32
    → pin.time < 2 ^ 32
    → IsValid b
    → size long_form ≤ b.offset
    → (b1 b2 : Buffer) × (write pin b long_form true ≡ some b1)
      × (read b1 long_form
          ≡ some (record { id = pin.id; time = (if long_form then pin.time else 0) }, b2))
      × (contents b2 ≡ contents b)
write-read pin b long_form h k v room =
    let (b1, e1, v1, c1) = write-wire pin b long_form v room in
    let (b2, e2, v2, c2) = read-wire pin b1 long_form (contents b) h k v1 c1 in (b1, b2, e1, e2, c2)
