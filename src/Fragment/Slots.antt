-- ===== src/Fragment/Slots.antt =====
-- fragment_list_get_buf: the slot of a datagram that comes after the latest one, and of the latest.
use par_diff_vpn.Prelude.{ℕ, ◌<◌, ◌≡◌, some, get_elem?, set, arith}
use par_diff_vpn.Prelude.Int.{pos}
use par_diff_vpn.Integer.{modulo_subtract}
use par_diff_vpn.Integer.Laws.{forward, modulo_add-forward}
use par_diff_vpn.Fragment.{Slot, FragmentList, get_buf, advance_to, forget}

modulo_subtract_self : (x : ℕ) → x < 256 → modulo_subtract (pos x) (pos x) (pos 256) ≡ some (pos 0)
unfolding modulo_subtract
modulo_subtract_self x h = ground arith

modulo_subtract_next :
    (x : ℕ) → x < 256 → modulo_subtract (pos (forward x 1 256)) (pos x) (pos 256) ≡ some (pos 1)
unfolding modulo_subtract
modulo_subtract_next x h = ground arith

forward_zero : (x n : ℕ) → x < n → forward x 0 n ≡ x
forward_zero x n h = ground arith

-- The latest datagram keeps its slot.
pub get_buf_same :
    (list : FragmentList)
    → list.seq_id < 256
    → list.index < 25
    → get_buf list list.seq_id ≡ some (list.index, list)
unfolding get_buf advance_to
get_buf_same list hs hi =
    let a = modulo_subtract_self list.seq_id hs in
    let b = modulo_add-forward list.index 0 25 hi (omega arith) in
    let c = forward_zero list.index 25 hi in rw (get_buf, a, b, c)

-- The list once the slot for the next datagram is taken.
abbrev pub next_list : FragmentList → Slot → FragmentList
next_list list frag = record {
  seq_id = forward list.seq_id 1 256;
  index = forward list.index 1 25;
  fragments = set list.fragments (forward list.index 1 25) (forget frag);
}

pub get_buf_next :
    (list : FragmentList) (frag : Slot)
    → list.seq_id < 256
    → list.index < 25
    → get_elem? list.fragments (forward list.index 1 25) ≡ some frag
    → get_buf list (forward list.seq_id 1 256) ≡ some (forward list.index 1 25, next_list list frag)
unfolding get_buf advance_to
get_buf_next list frag hs hi e =
    let a = modulo_subtract_next list.seq_id hs in
    let b = modulo_add-forward list.index 1 25 hi (omega arith) in
    let s = modulo_add-forward list.seq_id 1 256 hs (omega arith) in
    let small : forward list.index 1 25 < 25 = ground arith in
    let c = modulo_add-forward (forward list.index 1 25) 0 25 small (omega arith) in
    let z = forward_zero (forward list.index 1 25) 25 small in rw (get_buf, a, b, e, s, c, z)
