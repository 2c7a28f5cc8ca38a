-- ===== src/Frame/Room.antt =====
-- The room that a frame leaves: alignment of the headroom, and buffers that are large enough.
use par_diff_vpn.Prelude.{
  ℕ, ◌+◌, ◌%◌, ◌≤◌, ◌<◌, ◌≡◌, refl, Bool, Option, none, some, arith, if◌then◌else◌, replicate,
}
use par_diff_vpn.Integer.{constrain_int}
use par_diff_vpn.Buffer
use par_diff_vpn.Buffer.{Buffer}
use par_diff_vpn.Frame.{
  Frame, Marker, headroom, headroom_base, adjustment, tun_link_delta, tun_mtu_min, buf_size,
  max_rw_size_link, payload_size, alloc_buf_sock_tun, finalize, set_mtu_dynamic,
}

pub headroom_bounds :
    (f : Frame) (m : Option Marker)
    → ((headroom f m + adjustment f m) % 4 ≡ 0)
      × (headroom_base f ≤ headroom f m)
      × (headroom f m ≤ headroom_base f + 3)
unfolding headroom
headroom_bounds f m = (omega arith, omega arith, omega arith)

-- A frame after frame_finalize.
abbrev pub IsFinal : Frame → Type 0
IsFinal f =
    (tun_mtu_min + tun_link_delta f ≤ f.link_mtu)
    × (tun_mtu_min + tun_link_delta f ≤ f.link_mtu_dynamic)
    × (f.link_mtu_dynamic ≤ f.link_mtu)
    × (4 ≤ f.extra_buffer)

pub finalize-IsFinal :
    (link_mtu tun_mtu : Option ℕ) (f : Frame) {f' : Frame}
    → finalize link_mtu tun_mtu f ≡ some f'
    → IsFinal f'
unfolding finalize
finalize-IsFinal none none f e = absurd (cc)
finalize-IsFinal (some l) (some t) f e = absurd (cc)
finalize-IsFinal (some l) none f e = ground arith
finalize-IsFinal none (some t) f e = ground arith

-- If the sizes of a frame are as frame_finalize leaves them, between the smallest frame and the
-- link's, then frame_set_mtu_dynamic keeps them there, whatever size and flags it is given.
pub set_mtu_dynamic-IsFinal :
    (mtu : ℕ) (tun upper_bound : Bool) (f : Frame)
    → IsFinal f
    → IsFinal (set_mtu_dynamic mtu tun upper_bound f)
unfolding set_mtu_dynamic constrain_int
set_mtu_dynamic-IsFinal mtu tun upper_bound f w = ground arith

-- For a finished frame with buffers below the limit of a buffer's size, alloc_buf_sock_tun fails no
-- ASSERT: its buffer starts where the headroom ends, that place is aligned once the adjustment is
-- added, its length is that of a read, and that many bytes fit behind the headroom.
pub alloc_buf_sock_tun_lem :
    (f : Frame) (tuntap_buffer : Bool) (m : Option Marker)
    → IsFinal f
    → buf_size f < 1000000
    → (b : Buffer) × (alloc_buf_sock_tun f tuntap_buffer m ≡ some b)
      × (b.offset ≡ headroom f m)
      × ((headroom f m + adjustment f m) % 4 ≡ 0)
      × (b.len ≡ (if tuntap_buffer then payload_size f else max_rw_size_link f))
      × (b.offset + b.len ≤ b.capacity)
unfolding alloc_buf_sock_tun Buffer.alloc Buffer.init Buffer.safe
alloc_buf_sock_tun_lem f tuntap_buffer m w small =
    let (aligned, low, high) = headroom_bounds f m in
    (
      record {
        capacity = buf_size f;
        offset = headroom f m;
        len = if tuntap_buffer then payload_size f else max_rw_size_link f;
        bytes = some (replicate (buf_size f) 0);
      },
      ground arith,
      refl,
      aligned,
      refl,
      ground arith,
    )
