-- ===== src/Reliable/Control.antt =====
-- The control channel's use of the reliability layer in ssl.c: taking a packet off the network in
-- tls_pre_decrypt, and handing packets to the TLS object in order in tls_process.
use par_diff_vpn.Prelude.{
  ℕ, true, not, ◌&&◌, Option, none, some, List, ◌>>=◌, ◌==◌, if◌then◌else◌, get_elem?, set,
}
use par_diff_vpn.Buffer
use par_diff_vpn.Buffer.{Buffer}
use par_diff_vpn.Reliable.{
  Entry, Reliable, can_get, wont_break_sequentiality, not_replay, get_buf, mark_active_incoming,
  get_buf_sequenced, mark_deleted,
}
use par_diff_vpn.Reliable.Ack.{acknowledge}

abbrev p_ack_v1 : ℕ
p_ack_v1 = 5

-- A packet that is not a replay is saved in a free entry.
unfoldable pub save : Reliable → ℕ → Buffer → ℕ → Option Reliable
save rel id packet op = do
  g ← get_buf rel
  i ← g.0
  e ← get_elem? (g.1.array) i
  b ← Buffer.copy e.buf packet
  mark_active_incoming (record (g.1) { array = set (g.1.array) i (record e { buf = b }) }) i id op

-- The end of tls_pre_decrypt: the receive buffer and the acknowledgements to send. `none` is a
-- failed ASSERT.
unfoldable pub receive : ℕ → Buffer → Reliable → List ℕ → Option (Reliable × List ℕ)
receive op packet rel ack =
    if not (op == p_ack_v1) && can_get rel
    then elim (Buffer.read_u32 packet) [
      | none ↦ some (rel, ack)
      | some r ↦
          (if wont_break_sequentiality rel r.0
            then (do
              rel' ← if not_replay rel r.0 then save rel r.0 r.1 op else some rel
              some (rel', (acknowledge ack r.0).1))
            else some (rel, ack))
    ]
    else some (rel, ack)

-- The delivery in tls_process, when the TLS object takes the packet: the entry delivered. When it
-- does not take the packet, the receive buffer stays as it is.
unfoldable pub deliver : Reliable → Option (Option Entry × Reliable)
deliver rel = elim (get_buf_sequenced rel) [
  | none ↦ some (none, rel)
  | some i ↦ (do e ← get_elem? rel.array i; rel' ← mark_deleted rel i true; some (some e, rel'))
]
