-- ===== src/PacketId/Tests.antt =====
-- The theorems on packet ids at concrete inputs.
use par_diff_vpn.Prelude.{
  ℕ, ◌+◌, ◌<◌, ◌≡◌, refl, true, false, none, some, List, [], ◌∷◌, arith, ◌⊎◌, inr, ◌≡◌,
}
use par_diff_vpn.CircList
use par_diff_vpn.CircList.{CircList}
use par_diff_vpn.Integer
use par_diff_vpn.PacketId.{
  Net, Rec, PacketId, init, cleared, test, add, receive, receive_all, Arrival, alloc_outgoing,
  starts_sequence, add_window, add_from, catch_up, mark, reap, reap_test, test_window, test_linear,
}
use mathlib.Core.Option.{get_or}
use par_diff_vpn.Prelude.{replicate}
use par_diff_vpn.Prelude.Int.{pos}
use par_diff_vpn.Buffer.{Buffer, contents}
use par_diff_vpn.Buffer.Contents.{IsValid}
use par_diff_vpn.PacketId.Wire
use par_diff_vpn.PacketId.Wire.{write-read}
use par_diff_vpn.PacketId.Persist
use par_diff_vpn.PacketId.Persist.{Persist, enabled, load, load_obj, save, save_obj}
use par_diff_vpn.PacketId.Reload.{persist_roundtrip, reload_refuses, reload_forgets}
use par_diff_vpn.PacketId.Spec.{accepts, history}
use par_diff_vpn.PacketId.Replay.{no_replay}
use par_diff_vpn.PacketId.Exact.{window_exact}
use par_diff_vpn.PacketId.Linear.{IsLinear, IsLinear-in_order, IsLinear-follows}

abbrev fresh : PacketId
fresh = record {
  send = record { id = 0; time = 0 };
  rcv = record cleared {
    initialized = true;
    seq_backtrack = 2;
    seq_list = some (CircList.alloc 0 2);
  };
}

abbrev first : Net
first = record { id = 1; time = 50 }

abbrev second : Net
second = record { id = 2; time = 50 }

state_after : ℕ → Rec → Net → Rec
state_after now p pin = elim (receive now p pin) [ none ↦ p | some r ↦ r.1 ]

abbrev later_packets : List Arrival
later_packets = record { at = 11; pin = second } ∷ []

accepted_first : receive 10 fresh.rcv first ≡ some (true, state_after 10 fresh.rcv first)
unfolding state_after receive receive_all test add reap reap_test init starts_sequence add_window
    add_from catch_up mark test_window CircList.alloc CircList.push CircList.reset CircList.set_item
    CircList.item CircList.index Integer.modulo_add Integer.index_verify
accepted_first = refl

no_replay_example :
    (p2 : Rec) × (p3 : Rec) × (receive_all later_packets (state_after 10 fresh.rcv first) ≡ some p2)
    × (receive 12 p2 first ≡ some (false, p3))
unfolding init receive_all
no_replay_example =
    no_replay 2 0 {s = fresh} [] later_packets 10 12 first {p = fresh.rcv}
      {p1 = state_after 10 fresh.rcv first} (omega arith) refl refl (omega arith) accepted_first
      (omega arith, tt)

window_exact_example :
    (p p' : Rec) × (receive_all (record { at = 10; pin = first } ∷ later_packets) fresh.rcv
      ≡ some p)
    × (receive 12 p first
        ≡ some
            (accepts 2 (history 2 [] (record { at = 10; pin = first } ∷ later_packets)) first, p'))
unfolding init
window_exact_example =
    window_exact 2 {s = fresh} (record { at = 10; pin = first } ∷ later_packets) 12 first
      (omega arith) refl (omega arith, (omega arith, tt)) (omega arith)

abbrev linear_state : Rec
linear_state = record cleared { initialized = true; time = 50; id = 3 }

abbrev fourth : Net
fourth = record { id = 4; time = 50 }

linear_state-IsLinear : IsLinear linear_state
linear_state-IsLinear = record {
  ready = refl;
  no_list = refl;
  no_window = refl;
  no_expiry = refl;
  in_range = omega arith;
}

abbrev accepted_state : Rec
accepted_state = record linear_state { last_reap = 10; id = 4 }

IsLinear-in_order_example :
    IsLinear accepted_state
    × (((true ≡ true)
          × (accepted_state.time ≡ 50)
          × (accepted_state.id ≡ 4)
          × (((fourth.time ≡ linear_state.time) × (fourth.id ≡ linear_state.id + 1))
              ⊎ ((linear_state.time < fourth.time) × (fourth.id ≡ 1))))
        ⊎ ((true ≡ false) × (accepted_state.time ≡ 50) × (accepted_state.id ≡ 3)))
unfolding receive test add reap reap_test test_linear
IsLinear-in_order_example =
    IsLinear-in_order 10 linear_state fourth {p' = accepted_state} {b = true} linear_state-IsLinear
      (omega arith) (omega arith) refl

abbrev header_room : Buffer
header_room = record { capacity = 12; offset = 8; len = 2; bytes = some (replicate 12 7) }

header_room-IsValid : IsValid header_room
header_room-IsValid = (replicate 12 7, record { memory = refl; size = refl; within = omega arith })

IsLinear-follows_example :
    (b1 b2 : Buffer) × (got : Net) × (p' : Rec) × (Wire.write fourth header_room true true
      ≡ some b1)
    × (Wire.read b1 true ≡ some (got, b2))
    × (contents b2 ≡ contents header_room)
    × (receive 61 linear_state got ≡ some (true, p'))
    × IsLinear p'
    × (p'.id ≡ 4)
    × (p'.time ≡ 50)
unfolding alloc_outgoing Wire.size
IsLinear-follows_example =
    IsLinear-follows 60 61 (record { id = 3; time = 50 }) linear_state true header_room
      {pin = fourth} {s' = record { id = 4; time = 50 }} linear_state-IsLinear refl refl
      (omega arith) (omega arith) (omega arith) header_room-IsValid (omega arith) refl

-- The short form, for a receiver that has seen no time.
follows_short :
    (b1 b2 : Buffer) × (got : Net) × (p' : Rec) × (Wire.write fourth header_room false true
      ≡ some b1)
    × (Wire.read b1 false ≡ some (got, b2))
    × (contents b2 ≡ contents header_room)
    × (receive 61 (record linear_state { time = 0 }) got ≡ some (true, p'))
    × IsLinear p'
    × (p'.id ≡ 4)
    × (p'.time ≡ 0)
unfolding alloc_outgoing Wire.size
follows_short =
    IsLinear-follows 60 61 (record { id = 3; time = 50 }) (record linear_state { time = 0 }) false
      header_room {pin = fourth} {s' = record { id = 4; time = 50 }}
      (record {
        ready = refl;
        no_list = refl;
        no_window = refl;
        no_expiry = refl;
        in_range = omega arith;
      })
      refl refl (omega arith) (omega arith) (omega arith) header_room-IsValid (omega arith) refl

write-read_example :
    (b1 b2 : Buffer) × (Wire.write first header_room true true ≡ some b1)
    × (Wire.read b1 true ≡ some (record { id = 1; time = 50 }, b2))
    × (contents b2 ≡ contents header_room)
unfolding Wire.size
write-read_example =
    write-read first header_room true (omega arith) (omega arith) header_room-IsValid (omega arith)

abbrev session : Persist
session = record {
  filename = some "replay";
  fd = pos 5;
  time = 50;
  id = 2;
  time_last_written = 50;
  id_last_written = 2;
}

abbrev after_second : PacketId
after_second = record fresh { rcv = record (fresh.rcv) { time = 50; id = 3 } }

persist_roundtrip_example :
    let (q, image) = save true true (save_obj session after_second) in
    let written = get_or image (record { time = 50; id = 2 }) in
    (written ≡ record { time = 50; id = 3 })
    × (q.time_last_written ≡ written.time)
    × (q.id_last_written ≡ written.id)
    × (r : Persist) × (load "replay" (pos 6) true (some written) Persist.init ≡ some r)
    × (enabled r ≡ true)
    × ((load_obj r fresh).rcv.time ≡ 50)
    × ((load_obj r fresh).rcv.id ≡ 3)
unfolding enabled
persist_roundtrip_example =
    persist_roundtrip session after_second fresh "replay" 6 (record { time = 50; id = 2 }) refl
      (omega arith) refl refl

reload_refuses_example : test (load_obj session fresh).rcv second ≡ some false
unfolding init enabled
reload_refuses_example =
    reload_refuses 2 0 {s = fresh} session (omega arith) refl refl (omega arith) second
      (inr (refl, omega arith))

reload_forgets_example :
    (p' : Rec) × (test (load_obj session fresh).rcv second ≡ some false)
    × (test (load_obj session fresh).rcv (record { id = 3; time = 50 }) ≡ some true)
    × (add 60 (load_obj session fresh).rcv (record { id = 3; time = 50 }) ≡ some p')
    × (test p' second ≡ some true)
unfolding init enabled
reload_forgets_example =
    reload_forgets 2 0 {s = fresh} session (omega arith) refl refl (omega arith) 60
      (record { id = 3; time = 50 }) second refl (omega arith) refl (omega arith) (omega arith)
      (omega arith)
