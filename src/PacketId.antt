-- ===== src/PacketId.antt =====
-- src/openvpn-2.1.1/packet_id.c and packet_id.h: sequence numbers of packets and the replay window.
-- `now`, a global of the program, is an argument. A `time_t` or a packet id is a number; ids are
-- below 2 ^ 32, and where the source's unsigned arithmetic can wrap the wrap is written out.
-- `none` is a failed ASSERT or a bad access. Log messages and the counter `max_backtrack_stat`,
-- which is only logged, are left out.
pub mod Window
pub mod Added
pub mod Reap
pub mod Replay
pub mod Spec
pub mod Exact
pub mod Linear
pub mod Wire
pub mod Persist
pub mod Reload
mod Tests
use par_diff_vpn.Prelude.{
  ℕ, zero, suc, ◌+◌, ◌-◌, ◌%◌, ◌^◌, Bool, true, false, not, ◌&&◌, ◌||◌, Option, none, some, guard,
  ◌>>=◌, ◌>>◌, ltb, leb, ◌==◌, if◌then◌else◌, List, [], ◌∷◌,
}
use par_diff_vpn.CircList
use par_diff_vpn.CircList.{CircList}

abbrev pub seq_unseen : ℕ
seq_unseen = 0

abbrev pub seq_expired : ℕ
seq_expired = 1

abbrev pub max_seq_backtrack : ℕ
max_seq_backtrack = 65536

abbrev pub max_time_backtrack : ℕ
max_time_backtrack = 600

abbrev pub seq_reap_interval : ℕ
seq_reap_interval = 5

-- struct packet_id_net
pub record Net : Type 0 where
  pub id : ℕ
  pub time : ℕ

-- struct packet_id_send
pub record Send : Type 0 where
  pub id : ℕ
  pub time : ℕ

-- struct packet_id_rec
pub record Rec : Type 0 where
  pub last_reap : ℕ
  pub time : ℕ
  pub id : ℕ
  pub seq_backtrack : ℕ
  pub time_backtrack : ℕ
  pub initialized : Bool
  pub seq_list : Option (CircList ℕ)

-- struct packet_id
pub record PacketId : Type 0 where
  pub send : Send
  pub rcv : Rec

abbrev cleared : Rec
cleared = record {
  last_reap = 0;
  time = 0;
  id = 0;
  seq_backtrack = 0;
  time_backtrack = 0;
  initialized = false;
  seq_list = none;
}

-- packet_id_init
unfoldable pub init : ℕ → ℕ → Option PacketId
init seq_backtrack time_backtrack =
    if seq_backtrack == 0
    then some
        (record { send = record { id = 0; time = 0 }; rcv = record cleared { initialized = true } })
    else (do
      guard (leb seq_backtrack max_seq_backtrack)
      guard (leb time_backtrack max_time_backtrack)
      some (record {
        send = record { id = 0; time = 0 };
        rcv = record cleared {
          initialized = true;
          seq_backtrack = seq_backtrack;
          time_backtrack = time_backtrack;
          seq_list = some (CircList.alloc seq_unseen seq_backtrack);
        };
      }))

-- The test of packet_id_add that starts a new sequence.
pub starts_sequence : Rec → CircList ℕ → Net → Bool
starts_sequence p list pin =
    list.x_size == 0
    || ltb p.time pin.time
    || leb p.seq_backtrack pin.id && ltb p.id (pin.id - p.seq_backtrack)

-- The loop of packet_id_add that pushes an unseen item for each id up to the packet's.
pub catch_up : ℕ → ℕ → CircList ℕ → Option (ℕ × CircList ℕ)
catch_up zero id list = some (id, list)
catch_up (suc n) id list = do list' ← CircList.push list seq_unseen; catch_up n (id + 1) list'

-- The end of packet_id_add: the packet's own item gets the time.
pub mark : ℕ → CircList ℕ → ℕ → Option (CircList ℕ)
mark now list diff =
    if ltb diff list.x_size && ltb seq_expired now
    then CircList.set_item list diff now
    else some list

-- packet_id_add from the loop on: `p` with the highest id `first` and the sequence list `start`.
pub add_from : ℕ → Rec → ℕ → CircList ℕ → Net → Option Rec
add_from now p first start pin = do
  r ← catch_up (pin.id - first) first start
  list ← mark now r.1 (r.0 - pin.id)
  some (record p { id = r.0; seq_list = some list })

-- packet_id_add with a sequence list.
pub add_window : ℕ → Rec → CircList ℕ → Net → Option Rec
unfolding starts_sequence
add_window now p list pin =
    if starts_sequence p list pin
    then add_from now (record p { time = pin.time })
        (if ltb p.seq_backtrack pin.id then pin.id - p.seq_backtrack else 0) (CircList.reset list)
        pin
    else add_from now p p.id list pin

-- packet_id_add
pub add : ℕ → Rec → Net → Option Rec
add now p pin = elim p.seq_list [
  | none ↦ some (record p { time = pin.time; id = pin.id })
  | some list ↦ add_window now p list pin
]

-- The loop of packet_id_reap, with `n` items left from index `i` on.
pub reap_from : ℕ → ℕ → ℕ → ℕ → Bool → CircList ℕ → Option (CircList ℕ)
reap_from now time_backtrack zero i expire list = some list
reap_from now time_backtrack (suc n) i expire list = do
  t ← CircList.item list i
  elim (t == seq_expired) [
    | true ↦ some list
    | false ↦ (do
      let expire' = expire || not (t == 0) && ltb (t + time_backtrack) now
      list' ← if expire' then CircList.set_item list i seq_expired else some list
      reap_from now time_backtrack n (i + 1) expire' list')
  ]

-- packet_id_reap
pub reap : ℕ → Rec → Option Rec
reap now p = if p.time_backtrack == 0 then some (record p { last_reap = now }) else (do
  list ← p.seq_list
  list' ← reap_from now p.time_backtrack list.x_size 0 false list
  some (record p { seq_list = some list'; last_reap = now }))

-- packet_id_reap_test
pub reap_test : ℕ → Rec → Option Rec
reap_test now p = if leb (p.last_reap + seq_reap_interval) now then reap now p else some p

-- packet_id_test in backtrack mode (UDP).
pub test_window : Rec → CircList ℕ → Net → Option Bool
test_window p list pin =
    if pin.time == p.time
    then (if ltb p.id pin.id
        then some true
        else if leb list.x_size (p.id - pin.id)
        then some false
        else (do t ← CircList.item list (p.id - pin.id); some (t == 0)))
    else some (not (ltb pin.time p.time))

-- packet_id_test in the mode without backtracking (TCP).
pub test_linear : Rec → Net → Bool
test_linear p pin =
    if pin.time == p.time
    then p.id == 0 || pin.id == (p.id + 1) % 2 ^ 32
    else if ltb pin.time p.time
    then false
    else pin.id == 1

-- packet_id_test
pub test : Rec → Net → Option Bool
test p pin = do
  guard p.initialized
  (if pin.id == 0
      then some false
      else if p.seq_backtrack == 0
      then some (test_linear p pin)
      else (do list ← p.seq_list; test_window p list pin))

-- What openvpn_decrypt does with the id of an authenticated packet (crypto.c): whether it accepts
-- the packet, and the state it leaves.
pub receive : ℕ → Rec → Net → Option (Bool × Rec)
receive now p pin = do
  p1 ← reap_test now p
  fresh ← test p1 pin
  elim fresh [ true ↦ (do p2 ← add now p1 pin; some (true, p2)) | false ↦ some (false, p1) ]

-- A packet and the time at which it arrives.
pub record Arrival : Type 0 where
  pub at : ℕ
  pub pin : Net

-- The state that a sequence of packets leaves.
pub receive_all : List Arrival → Rec → Option Rec
receive_all [] p = some p
receive_all (a ∷ rest) p = do r ← receive a.at p a.pin; receive_all rest r.1

-- packet_id_alloc_outgoing; a 32-bit id that wraps restarts at 1 with a new time, which only the
-- long form may do.
pub alloc_outgoing : ℕ → Send → Bool → Option (Net × Send)
alloc_outgoing now p long_form =
    let time = if p.time == 0 then now else p.time in
    let id = (p.id + 1) % 2 ^ 32 in
    if id == 0
    then (do guard long_form; some (record { id = 1; time = now }, record { id = 1; time = now }))
    else some (record { id = id; time = time }, record { id = id; time = time })

-- packet_id_close_to_wrapping
pub close_to_wrapping : Send → Bool
close_to_wrapping p = leb 0xFF000000 p.id
