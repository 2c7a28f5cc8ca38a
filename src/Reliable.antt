-- ===== src/Reliable.antt =====
-- src/openvpn-2.1.1/reliable.c and reliable.h: the reliability layer of the control channel, with
-- session_id.h. `now` is an argument; a packet id is a number below 2 ^ 32, and the source's
-- unsigned arithmetic is written with its wrap. A buffer of an entry is named by its index in the
-- array. `none` is a failed ASSERT. Printing is left out.
pub mod Range
pub mod Entries
pub mod Ack
pub mod AckWire
pub mod Control
pub mod Window
pub mod Saved
pub mod Order
pub mod Deadlock
pub mod Due
pub mod Tests
use par_diff_vpn.Prelude.{
  ℕ, zero, suc, ◌+◌, ◌-◌, ◌*◌, ◌%◌, ◌^◌, Bool, true, false, not, ◌&&◌, ◌||◌, Option, none, some,
  List, [], ◌∷◌, guard, ◌>>=◌, ◌>>◌, ltb, leb, ◌==◌, if◌then◌else◌, length, get_elem?, set, map,
  min,
}
use par_diff_vpn.Buffer
use par_diff_vpn.Buffer.{Buffer}

abbrev pub capacity : ℕ
capacity = 8

abbrev pub big_timeout : ℕ
big_timeout = 60 * 60 * 24 * 7

-- reliable_pid_in_range1
unfoldable pub pid_in_range1 : ℕ → ℕ → ℕ → Bool
pid_in_range1 test base extent =
    if leb base test
    then ltb (test - base) extent
    else ltb (((test + 0x80000000) % 2 ^ 32 + 2 ^ 32 - (base + 0x80000000) % 2 ^ 32) % 2 ^ 32)
        extent

-- reliable_pid_in_range2
unfoldable pub pid_in_range2 : ℕ → ℕ → ℕ → Bool
pid_in_range2 test base extent =
    if leb base ((base + extent) % 2 ^ 32)
    then ltb test ((base + extent) % 2 ^ 32)
    else ltb ((test + 0x80000000) % 2 ^ 32) (((base + 0x80000000) % 2 ^ 32 + extent) % 2 ^ 32)

-- reliable_pid_min
unfoldable pub pid_min : ℕ → ℕ → Bool
unfolding pid_in_range1
pid_min p1 p2 = not (pid_in_range1 p1 p2 0x80000000)

-- struct reliable_entry
pub record Entry : Type 0 where
  pub active : Bool
  pub timeout : ℕ
  pub next_try : ℕ
  pub packet_id : ℕ
  pub opcode : ℕ
  pub buf : Buffer

-- struct reliable; `array` holds the first `size` entries, those in use.
pub record Reliable : Type 0 where
  pub initial_timeout : ℕ
  pub packet_id : ℕ
  pub offset : ℕ
  pub hold : Bool
  pub array : List Entry

-- reliable_set_timeout
unfoldable pub set_timeout : ℕ → Reliable → Reliable
set_timeout timeout rel = record rel { initial_timeout = timeout }

init_entries : ℕ → ℕ → ℕ → Option (List Entry)
init_entries zero buf_size offset = some []
init_entries (suc n) buf_size offset = do
  b ← Buffer.alloc buf_size
  b' ← Buffer.init offset b
  rest ← init_entries n buf_size offset
  some (
      record { active = false; timeout = 0; next_try = 0; packet_id = 0; opcode = 0; buf = b' }
      ∷ rest)

-- reliable_init
unfoldable pub init : ℕ → ℕ → ℕ → Bool → Option Reliable
unfolding init_entries
init buf_size offset array_size hold = do
  guard (ltb 0 array_size && leb array_size capacity)
  entries ← init_entries array_size buf_size offset
  some
      (record { initial_timeout = 0; packet_id = 0; offset = offset; hold = hold; array = entries })

-- reliable_empty
unfoldable pub empty_entries : List Entry → Bool
empty_entries [] = true
empty_entries (e ∷ es) = if e.active then false else empty_entries es

abbrev pub empty : Reliable → Bool
empty rel = empty_entries rel.array

-- The inner loop of reliable_send_purge: the first active entry with the id is freed.
unfoldable pub purge_one : ℕ → List Entry → List Entry
purge_one pid [] = []
purge_one pid (e ∷ es) =
    if e.active && e.packet_id == pid
    then record e { active = false } ∷ es
    else e ∷ purge_one pid es

-- reliable_send_purge, for the ids of an acknowledgement
unfoldable pub purge_all : List ℕ → List Entry → List Entry
purge_all [] es = es
purge_all (pid ∷ pids) es = purge_all pids (purge_one pid es)

unfoldable pub send_purge : Reliable → List ℕ → Reliable
send_purge rel acked = record rel { array = purge_all acked rel.array }

-- reliable_can_get
unfoldable pub can_get_entries : List Entry → Bool
can_get_entries [] = false
can_get_entries (e ∷ es) = if e.active then can_get_entries es else true

abbrev pub can_get : Reliable → Bool
can_get rel = can_get_entries rel.array

-- Whether an active entry holds the id.
unfoldable pub holds_id : ℕ → List Entry → Bool
holds_id id [] = false
holds_id id (e ∷ es) = e.active && e.packet_id == id || holds_id id es

-- reliable_not_replay
unfoldable pub not_replay : Reliable → ℕ → Bool
not_replay rel id = if pid_min id rel.packet_id then false else not (holds_id id rel.array)

-- reliable_wont_break_sequentiality
unfoldable pub wont_break_sequentiality : Reliable → ℕ → Bool
wont_break_sequentiality rel id = pid_in_range2 id rel.packet_id (length rel.array)

-- The first free entry, counted from `i`.
unfoldable pub free_from : ℕ → List Entry → Option ℕ
free_from i [] = none
free_from i (e ∷ es) = if e.active then free_from (i + 1) es else some i

-- reliable_get_buf: the index of a free entry, whose buffer is initialised; the outer `none` is
-- the failed ASSERT, the inner one the result NULL.
unfoldable pub get_buf : Reliable → Option (Option ℕ × Reliable)
get_buf rel = elim (free_from 0 rel.array) [
  | none ↦ some (none, rel)
  | some i ↦ (do
    e ← get_elem? rel.array i
    b ← Buffer.init rel.offset e.buf
    some (some i, record rel { array = set rel.array i (record e { buf = b }) }))
]

-- The loop of reliable_get_buf_output_sequenced: the least id of an active entry.
unfoldable pub min_id : Option ℕ → List Entry → Option ℕ
min_id best [] = best
min_id best (e ∷ es) =
    min_id
      (if e.active
        then elim best [
          | none ↦ some e.packet_id
          | some m ↦ (if pid_min e.packet_id m then some e.packet_id else some m)
        ]
        else best)
      es

-- reliable_get_buf_output_sequenced
unfoldable pub get_buf_output_sequenced : Reliable → Option (Option ℕ × Reliable)
get_buf_output_sequenced rel = elim (min_id none rel.array) [
  | none ↦ get_buf rel
  | some m ↦
      (if pid_in_range1 rel.packet_id m (length rel.array) then get_buf rel else some (none, rel))
]

-- The first active entry with the id, counted from `i`.
unfoldable pub find_id : ℕ → ℕ → List Entry → Option ℕ
find_id id i [] = none
find_id id i (e ∷ es) = if e.active && e.packet_id == id then some i else find_id id (i + 1) es

-- reliable_get_buf_sequenced
abbrev pub get_buf_sequenced : Reliable → Option ℕ
get_buf_sequenced rel = find_id rel.packet_id 0 rel.array

-- reliable_can_send; the count of the entries that are due.
unfoldable pub count_current : ℕ → List Entry → ℕ
count_current now [] = 0
count_current now (e ∷ es) =
    (if e.active && leb e.next_try now then 1 else 0) + count_current now es

unfoldable pub can_send : ℕ → Reliable → Bool
can_send now rel = ltb 0 (count_current now rel.array) && not rel.hold

-- The loop of reliable_send: the due entry with the least id.
unfoldable pub best_from : ℕ → ℕ → Option (ℕ × Entry) → List Entry → Option (ℕ × Entry)
best_from now i best [] = best
best_from now i best (e ∷ es) =
    best_from now (i + 1)
      (if e.active && leb e.next_try now
        then elim best [
          | none ↦ some (i, e)
          | some b ↦ (if pid_min e.packet_id b.1.packet_id then some (i, e) else some b)
        ]
        else best)
      es

-- reliable_send, with a constant timeout: the entry to send and its opcode.
unfoldable pub send : ℕ → Reliable → Option (ℕ × ℕ) × Reliable
send now rel = elim (best_from now 0 none rel.array) [
  | none ↦ (none, rel)
  | some b ↦ (
    some (b.0, b.1.opcode),
    record rel { array = set rel.array b.0 (record (b.1) { next_try = now + b.1.timeout }) },
  )
]

-- reliable_schedule_now
unfoldable pub schedule_entry : ℕ → ℕ → Entry → Entry
schedule_entry now timeout e =
    if e.active then record e { next_try = now; timeout = timeout } else e

unfoldable pub schedule_now : ℕ → Reliable → Reliable
unfolding schedule_entry
schedule_now now rel = record rel {
  hold = false;
  array = map (schedule_entry now rel.initial_timeout) rel.array;
}

-- reliable_send_timeout; the loop stops at the first entry that is due.
unfoldable pub timeout_from : ℕ → ℕ → List Entry → ℕ
timeout_from now ret [] = ret
timeout_from now ret (e ∷ es) =
    let rest = timeout_from now (if e.active then min ret (e.next_try - now) else ret) es in
    if e.active && leb e.next_try now then 0 else rest

unfoldable pub send_timeout : ℕ → Reliable → ℕ
send_timeout now rel = timeout_from now big_timeout rel.array

-- reliable_mark_active_incoming
unfoldable pub mark_active_incoming : Reliable → ℕ → ℕ → ℕ → Option Reliable
mark_active_incoming rel i pid opcode = do
  e ← get_elem? rel.array i
  guard (not (pid_min pid rel.packet_id))
  some (record rel {
    array =
        set rel.array i
          (record e { active = true; packet_id = pid; opcode = opcode; next_try = 0; timeout = 0 });
  })

-- reliable_mark_active_outgoing: the next id is put in front of the packet.
unfoldable pub mark_active_outgoing : Reliable → ℕ → ℕ → Option Reliable
mark_active_outgoing rel i opcode = do
  e ← get_elem? rel.array i
  b ← Buffer.write_prepend (Buffer.be32 rel.packet_id) e.buf
  some (record rel {
    packet_id = (rel.packet_id + 1) % 2 ^ 32;
    array = set rel.array i (record e {
      packet_id = rel.packet_id;
      buf = b;
      active = true;
      opcode = opcode;
      next_try = 0;
      timeout = rel.initial_timeout;
    });
  })

-- reliable_mark_deleted
unfoldable pub mark_deleted : Reliable → ℕ → Bool → Option Reliable
mark_deleted rel i inc_pid = do
  e ← get_elem? rel.array i
  some (record rel {
    packet_id = if inc_pid then (e.packet_id + 1) % 2 ^ 32 else rel.packet_id;
    array = set rel.array i (record e { active = false });
  })
