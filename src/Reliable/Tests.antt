-- ===== src/Reliable/Tests.antt =====
-- The theorems on the reliability layer at concrete inputs.
use par_diff_vpn.Prelude.{
  ◌+◌, ℕ, ◌%◌, ◌≤◌, ◌≡◌, ◌^◌, refl, sym, ◌∙◌, true, false, Option, none, some, List, [], ◌∷◌, arith,
  ◌⊎◌, replicate, ◌++◌,
}
use par_diff_vpn.Buffer
use par_diff_vpn.Buffer.{Buffer, contents}
use par_diff_vpn.Buffer.Contents.{IsValid}
use par_diff_vpn.Reliable.{
  Entry, Reliable, pid_in_range1, pid_in_range2, pid_min, holds_id, can_send, send, can_get_entries,
  free_from, get_buf, find_id, mark_active_incoming, mark_deleted, not_replay,
  wont_break_sequentiality,
}
use par_diff_vpn.Reliable.Control.{receive, save, deliver}
use par_diff_vpn.Reliable.Ack
use par_diff_vpn.Reliable.AckWire.{ack_roundtrip}
use par_diff_vpn.Reliable.Range.{ahead, pid_in_range2_gap}
use par_diff_vpn.Reliable.Window.{IsWindow, delivered, deliver-IsWindow}
use par_diff_vpn.Reliable.Saved.{IsAcknowledged, IsIgnored, receive-IsWindow}
use par_diff_vpn.Reliable.Order.{
  Event, arrive, take_next, run, emit, AreIds, IsInOrder, run-IsInOrder,
}
use par_diff_vpn.Reliable.Due.{can_send-send}
use par_diff_vpn.Reliable.Deadlock.{full-delivers}

pid_in_range2_gap_example :
    (pid_min 100 3000000000 ≡ false)
    × (pid_in_range2 100 3000000000 8 ≡ true)
    × (8 ≤ ahead 100 3000000000)
pid_in_range2_gap_example =
    pid_in_range2_gap 100 3000000000 8 (omega arith) (omega arith) (omega arith)

abbrev memory : Buffer
memory = record { capacity = 8; offset = 0; len = 0; bytes = some (replicate 8 0) }

-- A packet with the id 5 and one more byte.
abbrev packet : Buffer
packet = record { capacity = 5; offset = 0; len = 5; bytes = some (0 ∷ 0 ∷ 0 ∷ 5 ∷ 77 ∷ []) }

abbrev body : Buffer
body = record packet { offset = 4; len = 1 }

abbrev free_slot : Entry
free_slot = record {
  active = false;
  timeout = 0;
  next_try = 0;
  packet_id = 0;
  opcode = 0;
  buf = memory;
}

abbrev sixth : Entry
sixth = record free_slot { active = true; packet_id = 6; opcode = 4 }

abbrev fifth : Entry
fifth = record free_slot { active = true; packet_id = 5; opcode = 4 }

-- The packet 5 is expected, and 6 is already there.
abbrev window : Reliable
window = record {
  initial_timeout = 2;
  packet_id = 5;
  offset = 0;
  hold = false;
  array = sixth ∷ free_slot ∷ [];
}

abbrev full_window : Reliable
full_window = record window { array = sixth ∷ fifth ∷ [] }

window-IsWindow : IsWindow window
unfolding holds_id
window-IsWindow = (
  omega arith,
  omega arith,
  (λ a. refl, (λ a. refl, tt)),
  (λ a. (omega arith, omega arith), (λ a. absurd (cc), tt)),
)

full_window-IsWindow : IsWindow full_window
unfolding holds_id
full_window-IsWindow = (
  omega arith,
  omega arith,
  (λ a. refl, (λ a. refl, tt)),
  (λ a. (omega arith, omega arith), (λ a. (omega arith, omega arith), tt)),
)

full-delivers_example :
    (i : ℕ) × (e : Entry) × (e.packet_id ≡ full_window.packet_id)
    × (deliver full_window ≡ some (some e, delivered full_window i e))
unfolding can_get_entries
full-delivers_example = full-delivers full_window full_window-IsWindow (omega arith) refl

deliver-IsWindow_example :
    (out : Option Entry) × (rel' : Reliable) × (deliver full_window ≡ some (out, rel'))
    × IsWindow rel'
    × (((out ≡ none)
          × (rel' ≡ full_window)
          × (holds_id full_window.packet_id full_window.array ≡ false))
        ⊎ ((e : Entry) × (out ≡ some e)
            × (e.packet_id ≡ full_window.packet_id)
            × (rel'.packet_id ≡ (full_window.packet_id + 1) % 2 ^ 32)
            × (holds_id full_window.packet_id rel'.array ≡ false)))
deliver-IsWindow_example = deliver-IsWindow full_window full_window-IsWindow

-- What a step leaves.
received : Option (Reliable × List ℕ) → Reliable × List ℕ
received none = (window, [])
received (some r) = r

read_packet : Buffer.read_u32 packet ≡ some (5, body)
unfolding Buffer.read_u32 Buffer.read Buffer.read_alloc
read_packet = refl

step_one :
    receive 4 packet window []
    ≡ some ((received (receive 4 packet window [])).0, (received (receive 4 packet window [])).1)
unfolding received receive save get_buf free_from mark_active_incoming not_replay holds_id pid_min
    pid_in_range1 pid_in_range2 wont_break_sequentiality can_get_entries Buffer.read_u32 Buffer.read
    Buffer.read_alloc Buffer.init Buffer.copy Buffer.write Buffer.write_alloc
step_one = refl

receive-IsWindow_example :
    IsWindow ((received (receive 4 packet window [])).0)
    × (((received (receive 4 packet window [])).0).packet_id ≡ window.packet_id)
    × ((((received (receive 4 packet window [])).0 ≡ window)
          × ((received (receive 4 packet window [])).1 ≡ [])
          × IsIgnored 4 5 window)
        ⊎ (IsAcknowledged [] 5 ((received (receive 4 packet window [])).1)
            × ((((received (receive 4 packet window [])).0 ≡ window)
                  × ((pid_min 5 window.packet_id ≡ true) ⊎ (holds_id 5 window.array ≡ true)))
                ⊎ ((pid_min 5 window.packet_id ≡ false)
                    × (holds_id 5 window.array ≡ false)
                    × (holds_id 5 ((received (receive 4 packet window [])).0).array ≡ true)))))
receive-IsWindow_example =
    receive-IsWindow 4 5 packet body window ((received (receive 4 packet window [])).0) []
      ((received (receive 4 packet window [])).1) window-IsWindow (omega arith) read_packet
      (omega arith) step_one

abbrev events : List Event
events = arrive 4 packet ∷ take_next ∷ take_next ∷ []

outcome : Option (List Entry × Reliable) → List Entry × Reliable
outcome none = ([], window)
outcome (some r) = r

run_ends :
    run events window []
    ≡ some ((outcome (run events window [])).0, (outcome (run events window [])).1)
unfolding outcome run emit deliver find_id mark_deleted receive save get_buf free_from
    mark_active_incoming not_replay holds_id pid_min pid_in_range1 pid_in_range2
    wont_break_sequentiality can_get_entries Buffer.read_u32 Buffer.read Buffer.read_alloc
    Buffer.init Buffer.copy Buffer.write Buffer.write_alloc
run_ends = refl

id_injective :
    {x y : ℕ} {b c : Buffer} → ◌≡◌ {A = Option (ℕ × Buffer)} (some (x, b)) (some (y, c)) → x ≡ y
id_injective e = cc

only_five : AreIds events
only_five = (λ id rest e. let five : 5 ≡ id = id_injective (sym read_packet ∙ e) in omega arith, tt)

run-IsInOrder_example :
    IsInOrder 5 ((outcome (run events window [])).0, (outcome (run events window [])).1)
run-IsInOrder_example =
    run-IsInOrder events window ((outcome (run events window [])).1) []
      ((outcome (run events window [])).0) window-IsWindow only_five (omega arith) run_ends

can_send-send_example :
    ((can_send 3 window ≡ true)
      × (r : ℕ × ℕ) × (rel' : Reliable) × (send 3 window ≡ (some r, rel')))
    ⊎ ((can_send 3 window ≡ false) × (send 3 window ≡ (none, window)))
can_send-send_example = can_send-send 3 window refl

abbrev packet_behind_headroom : Buffer
packet_behind_headroom = record {
  capacity = 32;
  offset = 30;
  len = 2;
  bytes = some (replicate 30 0 ++ (7 ∷ 9 ∷ []));
}

abbrev session : List ℕ
session = 1 ∷ 2 ∷ 3 ∷ 4 ∷ 5 ∷ 6 ∷ 7 ∷ 8 ∷ []

ack_roundtrip_example :
    (b1 b2 : Buffer) × (Ack.write (4 ∷ 4294967295 ∷ 6 ∷ []) packet_behind_headroom session 2 true
      ≡ some (some (6 ∷ [], b1)))
    × IsValid b1
    × (Ack.read [] b1 session ≡ some (4 ∷ 4294967295 ∷ [], b2))
    × IsValid b2
    × (contents b2 ≡ contents packet_behind_headroom)
unfolding Ack.session_id_defined Ack.bytes_equal Ack.record_size
ack_roundtrip_example =
    ack_roundtrip (4 ∷ 4294967295 ∷ 6 ∷ []) session packet_behind_headroom 2
      (omega arith, (omega arith, (omega arith, tt))) (omega arith) refl refl
      (_, record { memory = refl; size = refl; within = omega arith }) (omega arith)
