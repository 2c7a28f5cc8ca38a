-- ===== src/Reliable/Ack.antt =====
-- struct reliable_ack and session_id.h: acknowledgement records, in memory and in a packet.
-- The record is the list of its first `len` ids. A session id is a list of 8 bytes.
use par_diff_vpn.Prelude.{
  ℕ, zero, suc, ◌+◌, ◌*◌, Bool, true, false, not, ◌&&◌, ◌||◌, Option, none, some, List, [], ◌∷◌,
  ◌++◌, guard, ◌>>=◌, ◌>>◌, ltb, ◌==◌, if◌then◌else◌, length, take, drop, replicate,
}
use par_diff_vpn.Buffer
use par_diff_vpn.Buffer.{Buffer, be32}

abbrev pub ack_size : ℕ
ack_size = 8

abbrev pub sid_size : ℕ
sid_size = 8

unfoldable pub bytes_equal : List ℕ → List ℕ → Bool
bytes_equal [] [] = true
bytes_equal [] (y ∷ ys) = false
bytes_equal (x ∷ xs) [] = false
bytes_equal (x ∷ xs) (y ∷ ys) = (x == y) && bytes_equal xs ys

-- session_id_equal and session_id_defined
unfoldable pub session_id_equal : List ℕ → List ℕ → Bool
unfolding bytes_equal
session_id_equal sid1 sid2 = bytes_equal sid1 sid2

unfoldable pub session_id_defined : List ℕ → Bool
unfolding bytes_equal
session_id_defined sid = not (bytes_equal sid (replicate sid_size 0))

-- reliable_ack_empty
unfoldable pub empty : List ℕ → Bool
empty ack = length ack == 0

-- reliable_ack_packet_id_present
unfoldable pub present : List ℕ → ℕ → Bool
present [] pid = false
present (x ∷ xs) pid = x == pid || present xs pid

-- reliable_ack_acknowledge_packet_id
unfoldable pub acknowledge : List ℕ → ℕ → Bool × List ℕ
acknowledge ack pid =
    if not (present ack pid) && ltb (length ack) ack_size
    then (true, ack ++ (pid ∷ []))
    else (false, ack)

-- The loop of reliable_ack_read: `n` ids are read behind those that the record holds.
unfoldable pub read_ids : ℕ → List ℕ → Buffer → Option (List ℕ × Buffer)
read_ids zero ack b = some (ack, b)
read_ids (suc n) ack b = do
  r ← Buffer.read_u32 b
  guard (ltb (length ack) ack_size)
  read_ids n (ack ++ (r.0 ∷ [])) r.1

-- reliable_ack_read; `none` is the result false.
unfoldable pub read : List ℕ → Buffer → List ℕ → Option (List ℕ × Buffer)
read ack b sid = do
  count ← Buffer.read_u8 b
  r ← read_ids count.0 ack count.1
  if count.0 == 0 then some r else (do
    s ← Buffer.read sid_size r.1
    guard (session_id_defined s.0 && session_id_equal s.0 sid)
    some (r.0, s.1))

-- ACK_SIZE
unfoldable pub record_size : ℕ → ℕ
record_size n = 1 + (if n == 0 then 0 else sid_size) + 4 * n

unfoldable pub ids_wire : List ℕ → List ℕ
ids_wire [] = []
ids_wire (pid ∷ pids) = be32 pid ++ ids_wire pids

-- The bytes that reliable_ack_write puts into the sub-buffer.
unfoldable pub wire : List ℕ → List ℕ → List ℕ
unfolding ids_wire
wire [] sid = 0 ∷ []
wire (pid ∷ pids) sid = length (pid ∷ pids) ∷ ids_wire (pid ∷ pids) ++ sid

-- reliable_ack_write: at most `limit` ids go into the packet and leave the record. The sub-buffer
-- has just the size of the record, so writing it piece by piece is one copy. The outer `none` is a
-- failed ASSERT, the inner one the result false.
unfoldable pub write : List ℕ → Buffer → List ℕ → ℕ → Bool → Option (Option (List ℕ × Buffer))
unfolding wire record_size
write ack b sid limit before =
    let n = if ltb limit (length ack) then limit else length ack in
    elim (Buffer.write_alloc_prepend before (record_size n) b) [
      | none ↦ some none
      | some place ↦ (do
        guard (n == 0 || session_id_defined sid)
        b' ← Buffer.fill place (wire (take n ack) sid)
        some (some (drop n ack, b')))
    ]
