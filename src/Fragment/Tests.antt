-- ===== src/Fragment/Tests.antt =====
-- The theorems on pieces of datagrams at concrete inputs: 20 bytes in pieces of 8.
use par_diff_vpn.Prelude.{
  ℕ, zero, suc, ◌-◌, ◌≡◌, refl, true, false, some, List, [], ◌∷◌, ◌++◌, length, arith, replicate,
  length-replicate, ◌/◌,
}
use par_diff_vpn.Buffer
use par_diff_vpn.Buffer.{Buffer, contents}
use par_diff_vpn.Buffer.Contents.{IsOver, IsValid}
use par_diff_vpn.Frame
use par_diff_vpn.Frame.{Frame, AlignFlags, headroom}
use par_diff_vpn.Fragment.{
  Slot, Master, outgoing, incoming, optimal_fragment_size, outgoing_pieces, ready_to_send,
  prepend_flags, flags_of,
}
use par_diff_vpn.Integer.{modulo_add}
use par_diff_vpn.Integer.Laws.{forward}
use par_diff_vpn.Fragment.Join.{AreEmpty}
use par_diff_vpn.Fragment.Travel.{Delivery, receive}
use par_diff_vpn.Fragment.Arrive.{IsAwaiting}
use par_diff_vpn.Fragment.Start.{IsLarge, IsIdle}
use par_diff_vpn.Fragment.Drain.{drain, AreSent, sends_all}
use par_diff_vpn.Fragment.Receiver.{IsSlot, AreSlots, IsList}
use par_diff_vpn.Fragment.Robust.{incoming-IsList}
use par_diff_vpn.Fragment.Trip.{round_trip}

abbrev small_frame : Frame
small_frame = record {
  link_mtu = 200;
  link_mtu_dynamic = 12;
  extra_frame = 4;
  extra_buffer = 4;
  extra_tun = 0;
  extra_link = 0;
  align_flags = record {
    at_decrypt = false;
    at_fragment = true;
    at_read_link = false;
    at_read_stream = false;
  };
  align_adjust = 0;
}

abbrev datagram_bytes : List ℕ
datagram_bytes =
    1 ∷ 2 ∷ 3 ∷ 4 ∷ 5 ∷ 6 ∷ 7 ∷ 8 ∷ 9 ∷ 10 ∷ 11 ∷ 12 ∷ 13 ∷ 14 ∷ 15 ∷ 16 ∷ 17 ∷ 18 ∷ 19 ∷ 20 ∷ []

abbrev datagram : Buffer
datagram = record { capacity = 20; offset = 0; len = 20; bytes = some datagram_bytes }

abbrev fresh : ℕ → Buffer
fresh n = record { capacity = n; offset = 0; len = 0; bytes = some (replicate n 0) }

abbrev slot : Slot
slot = record {
  is_defined = false;
  max_frag_size = 0;
  received = [];
  timestamp = 0;
  buf = fresh 28;
}

abbrev idle : Master
idle = record {
  outgoing_seq_id = 255;
  outgoing_frag_size = 0;
  outgoing_frag_id = 0;
  outgoing = fresh 28;
  outgoing_return = fresh 16;
  incoming = record { seq_id = 255; index = 24; fragments = replicate 25 slot };
}

abbrev packet0 : Buffer
packet0 = record {
  capacity = 16;
  offset = 4;
  len = 12;
  bytes = some (0 ∷ 0 ∷ 0 ∷ 0 ∷ 0 ∷ 0 ∷ 0 ∷ 1 ∷ 1 ∷ 2 ∷ 3 ∷ 4 ∷ 5 ∷ 6 ∷ 7 ∷ 8 ∷ []);
}

abbrev packet1 : Buffer
packet1 = record {
  capacity = 16;
  offset = 4;
  len = 12;
  bytes = some (0 ∷ 0 ∷ 0 ∷ 0 ∷ 0 ∷ 0 ∷ 4 ∷ 1 ∷ 9 ∷ 10 ∷ 11 ∷ 12 ∷ 13 ∷ 14 ∷ 15 ∷ 16 ∷ []);
}

abbrev packet2 : Buffer
packet2 = record {
  capacity = 16;
  offset = 4;
  len = 8;
  bytes = some (0 ∷ 0 ∷ 0 ∷ 0 ∷ 0 ∷ 1 ∷ 8 ∷ 2 ∷ 17 ∷ 18 ∷ 19 ∷ 20 ∷ 0 ∷ 0 ∷ 0 ∷ 0 ∷ []);
}

-- The memory of the datagram that is under way.
abbrev copied : List ℕ
copied = replicate 8 0 ++ datagram_bytes

-- After the first packet, and after the last.
abbrev started : Master
started = record idle {
  outgoing_seq_id = 0;
  outgoing_frag_size = 8;
  outgoing_frag_id = 1;
  outgoing = record { capacity = 28; offset = 16; len = 12; bytes = some copied };
}

abbrev finished : Master
finished = record started {
  outgoing_frag_id = 3;
  outgoing = record { capacity = 28; offset = 28; len = 0; bytes = some copied };
}

datagram-IsLarge : IsLarge small_frame datagram 8
unfolding optimal_fragment_size
datagram-IsLarge = record {
  valid = (datagram_bytes, record { memory = refl; size = refl; within = omega arith });
  low = omega arith;
  high = omega arith;
  large = omega arith;
  small = omega arith;
  size = refl;
  few = omega arith;
}

fresh-IsOver : (n : ℕ) → IsOver (fresh n) (replicate n 0)
fresh-IsOver n = record { memory = refl; size = length-replicate n 0; within = omega arith }

idle-IsIdle : IsIdle small_frame (contents datagram) 8 idle (replicate 28 0) (replicate 16 0)
unfolding headroom contents Frame.adjustment
idle-IsIdle = record {
  memory = fresh-IsOver 28;
  room = omega arith;
  return_memory = fresh-IsOver 16;
  return_room = omega arith;
  header_room = omega arith;
  number = omega arith;
}

sends_all_example :
    (first : Buffer) × (f1 : Master) × (bs : List Buffer) × (f2 : Master) × (outgoing small_frame
        datagram idle
      ≡ some (first, f1))
    × (drain small_frame 32 f1 ≡ some (bs, f2))
    × (f2.outgoing.len ≡ 0)
    × (f1.outgoing_seq_id ≡ forward 255 1 256)
    × (length (first ∷ bs) ≡ suc ((20 - 1) / 8))
    × AreSent (contents datagram) 8 ((20 - 1) / 8) f1.outgoing_seq_id 0 (first ∷ bs)
sends_all_example =
    sends_all small_frame 8 32 datagram idle (replicate 28 0) (replicate 16 0) datagram-IsLarge
      idle-IsIdle (omega arith)

outgoing_first : outgoing small_frame datagram idle ≡ some (packet0, started)
unfolding outgoing optimal_fragment_size outgoing_pieces ready_to_send prepend_flags flags_of
    Buffer.init Buffer.copy Buffer.copy_n Buffer.read Buffer.write Buffer.write_prepend
    Buffer.splice headroom Frame.adjustment modulo_add contents
outgoing_first = refl

drain_rest : drain small_frame 32 started ≡ some (packet1 ∷ packet2 ∷ [], finished)
unfolding drain ready_to_send prepend_flags flags_of Buffer.init Buffer.copy_n Buffer.read
    Buffer.write Buffer.write_prepend Buffer.splice headroom Frame.adjustment
drain_rest = refl

idle-IsAwaiting : IsAwaiting small_frame (contents datagram) idle slot (replicate 28 0)
unfolding headroom contents Frame.adjustment
idle-IsAwaiting = record {
  small = omega arith;
  index_small = omega arith;
  slots = refl;
  slot = refl;
  memory = fresh-IsOver 28;
  room = omega arith;
}

-- The last piece comes first, then the first one twice; the one in the middle makes it complete.
abbrev early : List Delivery
early =
    record { at_time = 100; number = 2; packet = packet2 }
    ∷ record { at_time = 101; number = 0; packet = packet0 }
    ∷ record { at_time = 101; number = 0; packet = packet0 }
    ∷ []

abbrev completing : Delivery
completing = record { at_time = 102; number = 1; packet = packet1 }

round_trip_example :
    (outs : List Buffer) × (g1 : Master) × (out : Buffer) × (g2 : Master) × (receive small_frame
        early idle
      ≡ some (outs, g1))
    × AreEmpty outs
    × (incoming 102 small_frame packet1 g1 ≡ some (out, g2))
    × (contents out ≡ contents datagram)
round_trip_example =
    round_trip small_frame small_frame 8 32 datagram idle started finished idle (replicate 28 0)
      (replicate 16 0) (replicate 28 0) slot packet0 (packet1 ∷ packet2 ∷ []) early completing
      datagram-IsLarge idle-IsIdle (omega arith) outgoing_first drain_rest idle-IsAwaiting refl
      (refl, (refl, (refl, tt))) refl refl refl

slot-IsSlot : IsSlot small_frame slot
unfolding headroom Frame.adjustment
slot-IsSlot = (replicate 28 0, fresh-IsOver 28, omega arith)

replicate-AreSlots : (n : ℕ) → AreSlots small_frame (replicate n slot)
replicate-AreSlots zero = tt
replicate-AreSlots (suc n) = (slot-IsSlot, replicate-AreSlots n)

idle-IsList : IsList small_frame idle.incoming
idle-IsList = record {
  small = omega arith;
  index_small = omega arith;
  slots = refl;
  all = replicate-AreSlots 25;
}

-- A piece that would lie behind the end of its slot, far ahead of the latest datagram.
abbrev hostile : Buffer
hostile = record {
  capacity = 8;
  offset = 0;
  len = 8;
  bytes = some (0 ∷ 0 ∷ 124 ∷ 201 ∷ 1 ∷ 2 ∷ 3 ∷ 4 ∷ []);
}

incoming-IsList_example :
    (out : Buffer) × (f' : Master) × (incoming 100 small_frame hostile idle ≡ some (out, f'))
    × IsValid out
    × IsList small_frame f'.incoming
incoming-IsList_example =
    incoming-IsList small_frame 100 hostile idle
      (_, record { memory = refl; size = refl; within = omega arith }) idle-IsList
