-- ===== src/PacketId/Persist.antt =====
-- The file that keeps the receiver's time and id across sessions (--replay-persist), in
-- packet_id.c. What `open`, `flock`, `read`, `lseek` and `write` return are arguments.
use par_diff_vpn.Prelude.{ℕ, Bool, not, ◌&&◌, ◌||◌, Option, none, some, ◌==◌, if◌then◌else◌}
use par_diff_vpn.Prelude.Int.{ℤ, pos, negsuc, ltb_ℤ}
use Prim.Native.String.{String}
use par_diff_vpn.PacketId.{PacketId}

-- struct packet_id_persist
pub record Persist : Type 0 where
  pub filename : Option String
  pub fd : ℤ
  pub time : ℕ
  pub id : ℕ
  pub time_last_written : ℕ
  pub id_last_written : ℕ

-- struct packet_id_persist_file_image
pub record FileImage : Type 0 where
  pub time : ℕ
  pub id : ℕ

-- packet_id_persist_enabled
unfoldable pub enabled : Persist → Bool
enabled p = not (ltb_ℤ p.fd (pos 0))

-- packet_id_persist_init
unfoldable pub init : Persist
init = record {
  filename = none;
  fd = negsuc 0;
  time = 0;
  id = 0;
  time_last_written = 0;
  id_last_written = 0;
}

-- packet_id_persist_close; the descriptor is closed on the way.
unfoldable pub close : Persist → Persist
unfolding enabled init
close p = if enabled p then init else p

-- packet_id_persist_load: `fd` is what `open` returns, `locked` whether `flock` succeeds (a failure
-- is fatal, `none`), and `image` what a complete `read` finds.
unfoldable pub load : String → ℤ → Bool → Option FileImage → Persist → Option Persist
unfolding enabled
load filename fd locked image p =
    if enabled p
    then some p
    else if not (ltb_ℤ fd (pos 0)) || ltb_ℤ fd (negsuc 0)
    then (if locked
        then some (elim image [
          | none ↦ record p { filename = some filename; fd = fd }
          | some i ↦ record p {
            filename = some filename;
            fd = fd;
            time = i.time;
            id = i.id;
            time_last_written = i.time;
            id_last_written = i.id;
          }
        ])
        else none)
    else some (record p { fd = fd })

-- packet_id_persist_save: `seek` and `written` say whether `lseek` returns 0 and `write` is
-- complete. The second result is the image handed to `write`.
unfoldable pub save : Bool → Bool → Persist → Persist × Option FileImage
unfolding enabled
save seek written p =
    if enabled p
      && not (p.time == 0)
      && (not (p.time == p.time_last_written) || not (p.id == p.id_last_written))
      && seek
    then (
      if written then record p { time_last_written = p.time; id_last_written = p.id } else p,
      some (record { time = p.time; id = p.id }),
    )
    else (p, none)

-- packet_id_persist_load_obj
unfoldable pub load_obj : Persist → PacketId → PacketId
unfolding enabled
load_obj p pid =
    if enabled p && not (p.time == 0)
    then record pid { rcv = record (pid.rcv) { time = p.time; id = p.id } }
    else pid

-- packet_id_persist_save_obj
unfoldable pub save_obj : Persist → PacketId → Persist
unfolding enabled
save_obj p pid =
    if enabled p && not (pid.rcv.time == 0)
    then record p { time = pid.rcv.time; id = pid.rcv.id }
    else p
