-- ===== src/Fragment.antt =====
-- src/openvpn-2.1.1/fragment.c and fragment.h: datagrams sent in pieces and put together again.
-- A datagram that is put together is handed on in the memory of its slot; here it is a value. The
-- 32-bit map of the pieces is a list of 32 Booleans, the lowest bit first. `none` is a failed
-- ASSERT, or a division by zero.
pub mod Header
pub mod Size
pub mod Bits
pub mod Pieces
pub mod Assemble
pub mod Stored
pub mod Join
pub mod Outgoing
pub mod Slots
pub mod Travel
pub mod Arrive
pub mod Start
pub mod Drain
pub mod Trip
pub mod Receiver
pub mod Robust
pub mod Tests
use par_diff_vpn.Prelude.{
  ℕ, zero, suc, ◌+◌, ◌-◌, ◌*◌, ◌/◌, ◌%◌, ◌^◌, Bool, true, false, not, ◌&&◌, ◌||◌, Option, none,
  some, List, [], ◌∷◌, guard, ◌>>=◌, ◌>>◌, ltb, leb, ◌==◌, if◌then◌else◌, get_elem?, set, map, min,
  replicate,
}
use par_diff_vpn.Prelude.Int.{ℤ, pos, negsuc, pos_part, neg_part}
use par_diff_vpn.Integer.{modulo_add, modulo_subtract}
use par_diff_vpn.Buffer
use par_diff_vpn.Buffer.{Buffer, be32}
use par_diff_vpn.Frame
use par_diff_vpn.Frame.{Frame, payload_size_dynamic}

abbrev pub n_frag_buf : ℕ
n_frag_buf = 25

abbrev pub n_seq_id : ℕ
n_seq_id = 256

abbrev pub max_frags : ℕ
max_frags = 32

abbrev pub ttl_sec : ℕ
ttl_sec = 10

-- struct fragment; `map` is reserved for lists.
pub record Slot : Type 0 where
  pub is_defined : Bool
  pub max_frag_size : ℕ
  pub received : List Bool
  pub timestamp : ℕ
  pub buf : Buffer

-- struct fragment_list
pub record FragmentList : Type 0 where
  pub seq_id : ℕ
  pub index : ℕ
  pub fragments : List Slot

-- struct fragment_master, without the timer
pub record Master : Type 0 where
  pub outgoing_seq_id : ℕ
  pub outgoing_frag_size : ℕ
  pub outgoing_frag_id : ℕ
  pub outgoing : Buffer
  pub outgoing_return : Buffer
  pub incoming : FragmentList

-- FRAG_WHOLE, FRAG_YES_NOTLAST, FRAG_YES_LAST
abbrev pub whole : ℕ
whole = 0

abbrev pub not_last : ℕ
not_last = 1

abbrev pub last : ℕ
last = 2

-- The header of fragment_prepend_flags; the fields do not overlap, so `|` is a sum.
unfoldable pub flags_of : ℕ → ℕ → ℕ → ℕ → ℕ
flags_of frag_type seq_id frag_id frag_size =
    let low = frag_type % 4 + seq_id % 256 * 2 ^ 2 + frag_id % 32 * 2 ^ 10 in
    if frag_type == whole || frag_type == not_last
    then low
    else low + frag_size / 4 % 2 ^ 14 * 2 ^ 15

-- fragment_prepend_flags
unfoldable pub prepend_flags : Buffer → ℕ → ℕ → ℕ → ℕ → Option Buffer
prepend_flags buf frag_type seq_id frag_id frag_size =
    Buffer.write_prepend (be32 (flags_of frag_type seq_id frag_id frag_size)) buf

-- optimal_fragment_size
unfoldable pub optimal_fragment_size : ℕ → ℕ → Option ℕ
optimal_fragment_size len max_frag_size =
    let aligned = max_frag_size - max_frag_size % 4 in
    let div = len / aligned in
    let rem = len % aligned in
    let even = max_frag_size - (max_frag_size - rem) / (div + 1) + 3 in
    if aligned == 0
    then none
    else if ltb 0 div && ltb 0 rem && ltb rem (aligned * 3 / 4)
    then some (min aligned (even - even % 4))
    else some aligned

-- The reset in fragment_list_get_buf.
unfoldable pub forget : Slot → Slot
forget frag = record frag { is_defined = false }

-- The loop of fragment_list_get_buf, with `diff` rounds to go.
unfoldable pub advance_to : ℕ → FragmentList → Option FragmentList
advance_to zero list = some list
advance_to (suc diff) list = do
  i ← modulo_add (pos list.index) (pos 1) (pos n_frag_buf)
  frag ← get_elem? list.fragments (pos_part i)
  s ← modulo_add (pos list.seq_id) (pos 1) (pos n_seq_id)
  advance_to diff (record {
    seq_id = pos_part s;
    index = pos_part i;
    fragments = set list.fragments (pos_part i) (forget frag);
  })

-- fragment_list_get_buf: the index of the slot.
unfoldable pub get_buf : FragmentList → ℕ → Option (ℕ × FragmentList)
get_buf list seq_id = do
  diff ← modulo_subtract (pos seq_id) (pos list.seq_id) (pos n_seq_id)
  let far = leb n_frag_buf (pos_part diff + neg_part diff)
  let start =
      if far
      then record { seq_id = seq_id; index = 0; fragments = map forget list.fragments }
      else list
  list' ← advance_to (if far then 0 else pos_part diff) start
  i ←
      modulo_add (pos list'.index)
        (if far then pos 0 else (if leb (pos_part diff) 0 then diff else pos 0)) (pos n_frag_buf)
  some (pos_part i, list')

-- Setting bit `n`, and setting bit `n` and all above it.
unfoldable pub set_bit : ℕ → List Bool → List Bool
set_bit n [] = []
set_bit zero (b ∷ bs) = true ∷ bs
set_bit (suc n) (b ∷ bs) = b ∷ set_bit n bs

unfoldable pub set_from : ℕ → List Bool → List Bool
set_from n [] = []
set_from zero (b ∷ bs) = true ∷ set_from zero bs
set_from (suc n) (b ∷ bs) = b ∷ set_from n bs

unfoldable pub all_set : List Bool → Bool
all_set [] = true
all_set (b ∷ bs) = b && all_set bs

-- The first piece of a datagram readies the slot.
unfoldable pub ready : Frame → ℕ → Slot → Option Slot
ready frame size frag =
    if not frag.is_defined || not (frag.max_frag_size == size)
    then (do
      b ← Buffer.init (Frame.headroom frame (some Frame.fragment)) frag.buf
      some (record frag {
        is_defined = true;
        max_frag_size = size;
        received = replicate max_frags false;
        buf = b;
      }))
    else some frag

-- The rest of a piece's way into its slot: the slot, and the datagram if it is complete. `none` is
-- a piece that does not fit.
unfoldable pub store : ℕ → Bool → ℕ → ℕ → Buffer → Slot → Option (Slot × Option Buffer)
store now is_last n size buf frag = do
  b ← Buffer.copy_range frag.buf (n * size) buf 0 buf.len
  let bits = if is_last then set_from n frag.received else set_bit n frag.received
  let filled = record frag { buf = b; received = bits; timestamp = now }
  some (if all_set bits then (record filled { is_defined = false }, some b) else (filled, none))

abbrev pub emptied : Buffer → Buffer
emptied buf = record buf { len = 0 }

-- fragment_incoming for a piece in its slot, behind the header: the slot, and the buffer handed on.
unfoldable pub fill_slot : ℕ → Frame → Bool → ℕ → ℕ → Buffer → Slot → Option (Slot × Buffer)
unfolding ready
fill_slot now frame is_last n size buf frag =
    if not (size % 4 == 0) then some (frag, emptied buf) else (do
      frag1 ← ready frame size frag
      some (elim (store now is_last n size buf frag1) [
        | none ↦ (frag1, emptied buf)
        | some r ↦ (r.0, elim (r.1) [ none ↦ emptied buf | some joined ↦ joined ])
      ]))

unfoldable pub incoming_piece :
    ℕ → Frame → Bool → ℕ → ℕ → ℕ → Buffer → Master → Option (Buffer × Master)
incoming_piece now frame is_last seq_id n size buf f = do
  found ← get_buf f.incoming seq_id
  frag ← get_elem? ((found.1).fragments) (found.0)
  r ← fill_slot now frame is_last n size buf frag
  some (
    r.1,
    record f {
      incoming = record (found.1) { fragments = set ((found.1).fragments) (found.0) (r.0) };
    },
  )

-- fragment_incoming. The test of a whole datagram's header is on the low eight bits.
unfoldable pub incoming : ℕ → Frame → Buffer → Master → Option (Buffer × Master)
incoming now frame buf f = if buf.len == 0 then some (buf, f) else elim (Buffer.read_u32 buf) [
  | none ↦ some (emptied buf, f)
  | some r ↦
      (let frag_type = r.0 % 4 in
        let seq_id = r.0 / 2 ^ 2 % 256 in
        let n = r.0 / 2 ^ 10 % 32 in
        if frag_type == whole
        then some (if r.0 % 256 == 0 then r.1 else emptied (r.1), f)
        else if frag_type == not_last
        then incoming_piece now frame false seq_id n ((r.1).len) (r.1) f
        else if frag_type == last
        then incoming_piece now frame true seq_id n (r.0 / 2 ^ 15 % 2 ^ 14 * 4) (r.1) f
        else some (emptied (r.1), f))
]

-- fragment_ready_to_send: the piece, if there is one.
unfoldable pub ready_to_send : Frame → Master → Option (Option Buffer × Master)
ready_to_send frame f = if f.outgoing.len == 0 then some (none, f) else (do
  let is_last = leb f.outgoing.len f.outgoing_frag_size
  let size = if is_last then f.outgoing.len else f.outgoing_frag_size
  b ← Buffer.init (Frame.headroom frame none) f.outgoing_return
  let r = Buffer.copy_n b f.outgoing size
  guard (r.0)
  piece ←
      prepend_flags (r.1) (if is_last then last else not_last) f.outgoing_seq_id f.outgoing_frag_id
        f.outgoing_frag_size
  guard (not is_last || (r.2).len == 0)
  some (some piece, record f { outgoing = r.2; outgoing_frag_id = f.outgoing_frag_id + 1 }))

-- The part of fragment_outgoing for a datagram that is sent in pieces of `size` bytes.
unfoldable pub outgoing_pieces : Frame → ℕ → Buffer → Master → Option (Buffer × Master)
outgoing_pieces frame size buf f = do
  b ← Buffer.init (Frame.headroom frame none) f.outgoing
  b' ← Buffer.copy b buf
  s ← modulo_add (pos f.outgoing_seq_id) (pos 1) (pos n_seq_id)
  r ← ready_to_send frame (record f {
    outgoing_frag_size = size;
    outgoing = b';
    outgoing_seq_id = pos_part s;
    outgoing_frag_id = 0;
  })
  piece ← r.0
  some (piece, r.1)

-- fragment_outgoing
unfoldable pub outgoing : Frame → Buffer → Master → Option (Buffer × Master)
outgoing frame buf f =
    if buf.len == 0
    then some (buf, f)
    else if ltb (payload_size_dynamic frame) buf.len
    then elim (optimal_fragment_size buf.len (payload_size_dynamic frame)) [
      | none ↦ none
      | some size ↦
          (if ltb (size * max_frags) buf.len
            then some (emptied buf, record f { outgoing_frag_size = size })
            else outgoing_pieces frame size buf f)
    ]
    else (do b ← prepend_flags buf whole 0 0 0; some (b, f))

-- fragment_ttl_reap, which fragment_wakeup calls
unfoldable pub expire : ℕ → Slot → Slot
unfolding forget
expire now frag =
    if frag.is_defined && leb (frag.timestamp + ttl_sec) now then forget frag else frag

unfoldable pub ttl_reap : ℕ → Master → Master
unfolding expire
ttl_reap now f = record f {
  incoming = record (f.incoming) { fragments = map (expire now) f.incoming.fragments };
}
