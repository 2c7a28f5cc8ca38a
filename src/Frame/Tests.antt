-- ===== src/Frame/Tests.antt =====
-- The theorems on frames at a concrete frame.
use par_diff_vpn.Prelude.{◌+◌, ◌%◌, ◌≤◌, ◌≡◌, refl, true, false, some, none, arith}
use par_diff_vpn.Buffer.{Buffer}
use par_diff_vpn.Frame
use par_diff_vpn.Frame.{
  Frame, AlignFlags, headroom, adjustment, alloc_buf_sock_tun, finalize, set_mtu_dynamic,
}
use par_diff_vpn.Frame.Room.{IsFinal, alloc_buf_sock_tun_lem}

abbrev options_frame : Frame
options_frame = record {
  link_mtu = 0;
  link_mtu_dynamic = 0;
  extra_frame = 41;
  extra_buffer = 10;
  extra_tun = 4;
  extra_link = 3;
  align_flags = record {
    at_decrypt = true;
    at_fragment = false;
    at_read_link = true;
    at_read_stream = false;
  };
  align_adjust = 2;
}

abbrev final_frame : Frame
final_frame = record options_frame { link_mtu = 1545; link_mtu_dynamic = 1545; extra_buffer = 14 }

final_frame-IsFinal : IsFinal final_frame
final_frame-IsFinal = (omega arith, omega arith, omega arith, omega arith)

alloc_buf_sock_tun_lem_example :
    (b : Buffer) × (alloc_buf_sock_tun final_frame true (some Frame.read_link) ≡ some b)
    × (b.offset ≡ headroom final_frame (some Frame.read_link))
    × ((headroom final_frame (some Frame.read_link) + adjustment final_frame (some Frame.read_link))
          % 4
        ≡ 0)
    × (b.len ≡ 1504)
    × (b.offset + b.len ≤ b.capacity)
alloc_buf_sock_tun_lem_example =
    alloc_buf_sock_tun_lem final_frame true (some Frame.read_link) final_frame-IsFinal (omega arith)

finalize_tun : finalize none (some 1500) options_frame ≡ some final_frame
unfolding finalize
finalize_tun = refl
