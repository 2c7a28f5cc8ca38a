-- ===== src/PacketId/Reload.antt =====
-- Replay protection across sessions: what the persisted time and id do for the next session, and
-- what they fail to do.
use par_diff_vpn.Prelude.{ℕ, ◌-◌, ◌≤◌, ◌<◌, ◌≡◌, ◌≢◌, true, false, some, arith, ◌⊎◌, inl, inr}
use par_diff_vpn.Prelude.Int.{pos}
use mathlib.Core.Option.{get_or}
use Prim.Native.String.{String}
use par_diff_vpn.CircList
use par_diff_vpn.CircList.{CircList, item, reset}
use par_diff_vpn.CircList.Laws.{alloc-IsValid}
use par_diff_vpn.PacketId
use par_diff_vpn.PacketId.{Net, Rec, PacketId, starts_sequence, add, test}
use par_diff_vpn.PacketId.Window.{
  IsWindow, Fresh, newer_id, unseen, old_time, left_window, Refused-test, Fresh-test,
}
use par_diff_vpn.PacketId.Added.{AddCase, restarted, continued, add_lem}
use par_diff_vpn.PacketId.Replay.{continues, size-reset, AddCase-backtrack}
use par_diff_vpn.PacketId.Persist
use par_diff_vpn.PacketId.Persist.{Persist, FileImage, enabled, load, load_obj, save, save_obj}

-- A receiver's time and id go through the file: with `file` the content last written, saving
-- leaves the receiver's in the file, and the next session that loads it starts from them.
pub persist_roundtrip :
    (p : Persist) (pid next : PacketId) (name : String) (fd : ℕ) (file : FileImage)
    → enabled p ≡ true
    → pid.rcv.time ≢ 0
    → file.time ≡ p.time_last_written
    → file.id ≡ p.id_last_written
    → let (q, image) = save true true (save_obj p pid) in
      let written = get_or image file in
      (written ≡ record { time = pid.rcv.time; id = pid.rcv.id })
      × (q.time_last_written ≡ written.time)
      × (q.id_last_written ≡ written.id)
      × (r : Persist) × (load name (pos fd) true (some written) Persist.init ≡ some r)
      × (enabled r ≡ true)
      × ((load_obj r next).rcv.time ≡ pid.rcv.time)
      × ((load_obj r next).rcv.id ≡ pid.rcv.id)
unfolding enabled save save_obj load load_obj Persist.init
persist_roundtrip p pid next name fd file e n f g = (
  ground arith,
  ground arith,
  ground arith,
  record {
    filename = some name;
    fd = pos fd;
    time = pid.rcv.time;
    id = pid.rcv.id;
    time_last_written = pid.rcv.time;
    id_last_written = pid.rcv.id;
  },
  ground arith,
  ground arith,
  ground arith,
  ground arith,
)

module _ (sb tb : ℕ) {s : PacketId} (p : Persist) (h : 0 < sb)
    (start : PacketId.init sb tb ≡ some s) (on : enabled p ≡ true) (n : p.time ≢ 0) where
  -- The state of a session that has reloaded its time and id: the window is still empty.
  reloaded :
      IsWindow (load_obj p s).rcv (CircList.alloc 0 sb)
      × ((load_obj p s).rcv.time ≡ p.time)
      × ((load_obj p s).rcv.id ≡ p.id)
      × ((load_obj p s).rcv.seq_backtrack ≡ sb)
      × ((CircList.alloc {A = ℕ} 0 sb).x_size ≡ 0)
  unfolding load_obj PacketId.init CircList.alloc
  reloaded = ground (arith, alloc-IsValid {A = ℕ} 0 sb h)

  -- In backtrack mode, right after a persisted time that is not 0 has been reloaded, every
  -- packet of an older time is refused, and so is every id up to the persisted one in the same
  -- time.
  pub reload_refuses :
      (old : Net)
      → (old.time < p.time) ⊎ ((old.time ≡ p.time) × (old.id ≤ p.id))
      → test (load_obj p s).rcv old ≡ some false
  reload_refuses old o =
      let (w, t, i, b, z) = reloaded in
      Refused-test w old (elim o [
        | inl k ↦ old_time (omega arith)
        | inr k ↦ left_window (omega arith) (omega arith) (omega arith)
      ])

  -- In the same situation, the first packet of the persisted time with a higher id is accepted
  -- and opens a window below its id. An id that is not 0, was refused a moment ago as not above
  -- the persisted one, and lies within that window is then accepted.
  pub reload_forgets :
      (now : ℕ) (new old : Net)
      → new.time ≡ p.time
      → p.id < new.id
      → old.time ≡ p.time
      → 0 < old.id
      → old.id ≤ p.id
      → new.id - old.id < sb
      → (p' : Rec) × (test (load_obj p s).rcv old ≡ some false)
        × (test (load_obj p s).rcv new ≡ some true)
        × (add now (load_obj p s).rcv new ≡ some p')
        × (test p' old ≡ some true)
  reload_forgets now new old nt ni ot oz oi near =
      let (w, t, i, b, z) = reloaded in
      let (p', c', e, a) = add_lem now w new in
      (
        p',
        reload_refuses old (inr (omega arith)),
        Fresh-test w new (newer_id (omega arith) (omega arith)),
        e,
        Fresh-test ((AddCase-backtrack a).2) old (reopened a),
      )
    where
      reopened :
          {p' : Rec} {c' : CircList ℕ}
          → AddCase now (load_obj p s).rcv (CircList.alloc 0 sb) new p' c'
          → Fresh p' c' old
      reopened (continued e a) =
          let (_, t, i, b, z) = reloaded in
          absurd (omega (arith, continues (load_obj p s).rcv (CircList.alloc 0 sb) new e))
      reopened {p'} (restarted e a) =
          let (_, t, i, b, z) = reloaded in
          let empty = size-reset (CircList.alloc {A = ℕ} 0 sb) in
          unseen (omega arith) (omega (arith, a.time)) (omega (arith, a.id))
            (omega (arith, a.id, a.size, empty))
            (a.between (p'.id - old.id) (omega (arith, a.id)) (omega (arith, a.id, a.size, empty))
              (omega (arith, a.id)))
