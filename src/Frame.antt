-- ===== src/Frame.antt =====
-- src/openvpn-2.1.1/mtu.h and mtu.c: the sizes of packets and the room kept in front of them.
-- The int fields are natural numbers, and a subtraction stops at 0: frame_finalize lets no frame
-- through for which one would go below. The flags are one Boolean each. `none` is a fatal message
-- or a failed ASSERT.
pub mod Room
pub mod Tests
use par_diff_vpn.Prelude.{
  ℕ, ◌+◌, ◌-◌, ◌*◌, ◌%◌, Bool, true, false, not, ◌&&◌, ◌||◌, Option, none, some, guard, ◌>>=◌, ◌>>◌,
  ltb, leb, if◌then◌else◌,
}
use par_diff_vpn.Prelude.Int.{pos, pos_part}
use par_diff_vpn.Integer.{constrain_int}
use par_diff_vpn.Buffer
use par_diff_vpn.Buffer.{Buffer}

abbrev pub tun_mtu_min : ℕ
tun_mtu_min = 100

abbrev pub payload_align : ℕ
payload_align = 4

-- FRAME_HEADROOM_MARKER_DECRYPT and the others
pub data Marker : Type 0 where
  decrypt fragment read_link read_stream : Marker

-- The field `align_flags`.
pub record AlignFlags : Type 0 where
  pub at_decrypt : Bool
  pub at_fragment : Bool
  pub at_read_link : Bool
  pub at_read_stream : Bool

-- struct frame
pub record Frame : Type 0 where
  pub link_mtu : ℕ
  pub link_mtu_dynamic : ℕ
  pub extra_frame : ℕ
  pub extra_buffer : ℕ
  pub extra_tun : ℕ
  pub extra_link : ℕ
  pub align_flags : AlignFlags
  pub align_adjust : ℕ

-- TUN_LINK_DELTA, TUN_MTU_SIZE, PAYLOAD_SIZE, PAYLOAD_SIZE_DYNAMIC, EXPANDED_SIZE_MIN,
-- MAX_RW_SIZE_LINK, FRAME_HEADROOM_BASE and BUF_SIZE
abbrev pub tun_link_delta : Frame → ℕ
tun_link_delta f = f.extra_frame + f.extra_tun

abbrev pub tun_mtu_size : Frame → ℕ
tun_mtu_size f = f.link_mtu - tun_link_delta f

abbrev pub payload_size : Frame → ℕ
payload_size f = f.link_mtu - f.extra_frame

abbrev pub payload_size_dynamic : Frame → ℕ
payload_size_dynamic f = f.link_mtu_dynamic - f.extra_frame

abbrev pub expanded_size_min : Frame → ℕ
expanded_size_min f = tun_mtu_min + tun_link_delta f

abbrev pub max_rw_size_link : Frame → ℕ
max_rw_size_link f = f.link_mtu + f.extra_link

abbrev pub headroom_base : Frame → ℕ
headroom_base f = tun_link_delta f + f.extra_buffer + f.extra_link

abbrev pub buf_size : Frame → ℕ
buf_size f = tun_mtu_size f + headroom_base f * 2

abbrev pub is_marked : Frame → Marker → Bool
is_marked f decrypt = f.align_flags.at_decrypt
is_marked f fragment = f.align_flags.at_fragment
is_marked f read_link = f.align_flags.at_read_link
is_marked f read_stream = f.align_flags.at_read_stream

-- The adjustment of frame_headroom; no marker is the mask 0.
unfoldable pub adjustment : Frame → Option Marker → ℕ
adjustment f none = 0
adjustment f (some m) = if is_marked f m then f.align_adjust else 0

-- frame_headroom; the low two bits of a difference from a multiple of 4.
unfoldable pub headroom : Frame → Option Marker → ℕ
headroom f m =
    headroom_base f
    + (payload_align - (headroom_base f + adjustment f m) % payload_align) % payload_align

-- alloc_buf_sock_tun
unfoldable pub alloc_buf_sock_tun : Frame → Bool → Option Marker → Option Buffer
alloc_buf_sock_tun f tuntap_buffer marker = do
  empty ← Buffer.alloc (buf_size f)
  b ← Buffer.init (headroom f marker) empty
  let sized = record b { len = if tuntap_buffer then payload_size f else max_rw_size_link f }
  guard (Buffer.safe sized 0)
  some sized

-- frame_finalize: the options `link_mtu` and `tun_mtu`, one of which is given.
unfoldable pub finalize : Option ℕ → Option ℕ → Frame → Option Frame
finalize link_mtu tun_mtu f = do
  mtu ← elim tun_mtu [
    | some tun ↦ (do
      guard (elim link_mtu [ none ↦ true | some l ↦ false ])
      some (tun + tun_link_delta f))
    | none ↦ link_mtu
  ]
  guard (leb tun_mtu_min (mtu - tun_link_delta f))
  some (record f {
    link_mtu = mtu;
    link_mtu_dynamic = mtu;
    extra_buffer = f.extra_buffer + payload_align;
  })

-- frame_set_mtu_dynamic, with the flags SET_MTU_TUN and SET_MTU_UPPER_BOUND
unfoldable pub set_mtu_dynamic : ℕ → Bool → Bool → Frame → Frame
set_mtu_dynamic mtu tun upper_bound f =
    let wanted = if tun then mtu + tun_link_delta f else mtu in
    if not upper_bound || ltb wanted f.link_mtu_dynamic
    then record f {
      link_mtu_dynamic =
          pos_part (constrain_int (pos wanted) (pos (expanded_size_min f)) (pos f.link_mtu));
    }
    else f

-- frame_subtract_extra
unfoldable pub subtract_extra : Frame → Frame → Frame
subtract_extra f src = record f {
  extra_frame = f.extra_frame - src.extra_frame;
  extra_tun = f.extra_tun + src.extra_frame;
}
