-- ===== src/Fragment/Start.antt =====
-- fragment_outgoing on a large datagram: when it is cut into pieces, and the sender before the first.
use par_diff_vpn.Prelude.{
  ℕ, ◌+◌, ◌-◌, ◌*◌, ◌/◌, ◌%◌, ◌≤◌, ◌<◌, ◌≡◌, refl, ap, ◌∙◌, subst, true, false, none, some, dec_lt,
  ◌++◌, List, [], length, drop, arith, ltb, ◌==◌,
}
use native.Mathlib.Nat.{div-add-mod', mod-lt}
use par_diff_vpn.Integer.Laws.{forward, modulo_add-forward}
use par_diff_vpn.Buffer
use par_diff_vpn.Buffer.{Buffer, contents, be32}
use par_diff_vpn.Buffer.Contents.{IsOver, IsValid, length-contents, contents_over, write_fits}
use par_diff_vpn.Frame.{Frame, headroom, payload_size_dynamic}
use par_diff_vpn.Fragment.{Master, ready_to_send, outgoing, outgoing_pieces, optimal_fragment_size}
use par_diff_vpn.Fragment.Pieces.{mul_mono, piece}
use par_diff_vpn.Fragment.Assemble.{IsCut}
use par_diff_vpn.Fragment.Size.{size_found}
use par_diff_vpn.Fragment.Outgoing.{IsSending, init_lem}

-- The number of the last piece.
pub pieces-IsCut :
    (p : List ℕ) (s : ℕ) → 0 < s → 0 < length p → length p ≤ s * 32 → IsCut p s ((length p - 1) / s)
pieces-IsCut p s hs hp few =
    let e = div-add-mod' (length p - 1) s in
    let lt = mod-lt (length p - 1) hs in
    record {
      positive = hs;
      few = elim (dec_lt ((length p - 1) / s) 32) [
        | yes low ↦ low
        | no high ↦
            (let big : 32 * s ≤ (length p - 1) / s * s =
                mul_mono 32 ((length p - 1) / s) s (omega arith) in
              absurd (omega arith))
      ];
      starts = omega arith;
      ends = omega arith;
    }

-- A datagram that is sent in pieces of `s` bytes.
pub record IsLarge (frame : Frame) (buf : Buffer) (s : ℕ) : Type 0 where
  pub valid : IsValid buf
  pub low : 4 ≤ payload_size_dynamic frame
  pub high : payload_size_dynamic frame < 65536
  pub large : payload_size_dynamic frame < buf.len
  pub small : buf.len < 1000000
  pub size : optimal_fragment_size buf.len (payload_size_dynamic frame) ≡ some s
  pub few : buf.len ≤ s * 32

-- The sender with nothing under way, and with room for the datagram and for a piece.
pub record IsIdle (frame : Frame) (p : List ℕ) (s : ℕ) (f : Master) (d rd : List ℕ) : Type 0 where
  pub memory : IsOver f.outgoing d
  pub room : headroom frame none + length p ≤ f.outgoing.capacity
  pub return_memory : IsOver f.outgoing_return rd
  pub return_room : headroom frame none + s ≤ f.outgoing_return.capacity
  pub header_room : 4 ≤ headroom frame none
  pub number : f.outgoing_seq_id < 256

copy_lem :
    (dest src dest' : Buffer)
    → Buffer.write (contents src) dest ≡ some dest'
    → Buffer.copy dest src ≡ some dest'
unfolding Buffer.copy Buffer.write
copy_lem dest src dest' w = w

-- fragment_outgoing in terms of its parts.
pub outgoing_starts :
    (frame : Frame) (s : ℕ) (buf b b' piece : Buffer) (f f1 : Master)
    → payload_size_dynamic frame < buf.len
    → optimal_fragment_size buf.len (payload_size_dynamic frame) ≡ some s
    → buf.len ≤ s * 32
    → f.outgoing_seq_id < 256
    → Buffer.init (headroom frame none) f.outgoing ≡ some b
    → Buffer.copy b buf ≡ some b'
    → ready_to_send frame (record f {
      outgoing_frag_size = s;
      outgoing = b';
      outgoing_seq_id = forward f.outgoing_seq_id 1 256;
      outgoing_frag_id = 0;
    })
      ≡ some (some piece, f1)
    → outgoing frame buf f ≡ some (piece, f1)
unfolding outgoing outgoing_pieces
outgoing_starts frame s buf b b' piece f f1 large size few small i c got =
    let nonzero : (buf.len == 0) ≡ false = ground arith in
    let over : ltb (payload_size_dynamic frame) buf.len ≡ true = ground arith in
    let fits : ltb (s * 32) buf.len ≡ false = ground arith in
    let next = modulo_add-forward f.outgoing_seq_id 1 256 small (omega arith) in
    rw (nonzero, over, size, fits, i, c, next, got)

-- The datagram is copied, and the sender stands before its first piece.
pub begun :
    (frame : Frame) (s : ℕ) (buf : Buffer) (f : Master) (d rd : List ℕ)
    → IsValid buf
    → buf.len < 1000000
    → s < 1000000
    → IsIdle frame (contents buf) s f d rd
    → (b b' : Buffer) × (d' : List ℕ) × (Buffer.init (headroom frame none) f.outgoing ≡ some b)
      × (Buffer.copy b buf ≡ some b')
      × IsSending frame
          (contents buf)
          s
          0
          (record f {
            outgoing_frag_size = s;
            outgoing = b';
            outgoing_seq_id = forward f.outgoing_seq_id 1 256;
            outgoing_frag_id = 0;
          })
          d'
          rd
begun frame s buf f d rd v small s_small idle =
    let len : length (contents buf) ≡ buf.len = length-contents v.1 in
    let b : Buffer = record (f.outgoing) { len = 0; offset = headroom frame none } in
    let started : Buffer.init (headroom frame none) f.outgoing ≡ some b =
      init_lem (headroom frame none) f.outgoing d (omega (arith, idle.room)) idle.memory.memory in
    let over : IsOver b d = record {
      memory = idle.memory.memory;
      size = idle.memory.size;
      within = omega (arith, idle.room);
    } in
    let (b', w, over', c, o, l, k) =
      write_fits (contents buf) b over (omega (arith, idle.room)) (omega arith) in
    let none_yet : contents b ≡ [] = contents_over over in
    let start : 0 ≡ 0 * s = omega arith in
    (
      b,
      b',
      _,
      started,
      copy_lem b buf b' w,
      record {
        size = refl;
        next = refl;
        memory = over';
        left = c ∙ ap (λ t. t ++ contents buf) none_yet ∙ ap (λ k. drop k (contents buf)) start;
        return_memory = idle.return_memory;
        room = idle.return_room;
        header_room = idle.header_room;
        small = s_small;
      },
    )

pub several : (len s : ℕ) → 0 < s → s < len → 0 < (len - 1) / s
several len s h lt =
    let e = div-add-mod' (len - 1) s in
    let r = mod-lt (len - 1) h in
    elim (dec_lt 0 ((len - 1) / s)) [
      | yes some_more ↦ some_more
      | no ge ↦
          (let q : (len - 1) / s ≡ 0 = omega arith in
            let z : (len - 1) / s * s ≡ 0 = ap (λ t. t * s) q ∙ omega arith in absurd (omega arith))
    ]

pub large-size :
    (frame : Frame) (buf : Buffer) (s : ℕ)
    → IsLarge frame buf s
    → (s % 4 ≡ 0)
      × (0 < s)
      × (s < 65536)
      × (s < buf.len)
      × IsCut (contents buf) s ((buf.len - 1) / s)
large-size frame buf s lg =
    let len : length (contents buf) ≡ buf.len = length-contents (lg.valid).1 in
    let large = lg.large in
    let few = lg.few in
    let high = lg.high in
    let size = lg.size in
    let (s0, found, even, positive, at_most, _) =
      size_found buf.len (payload_size_dynamic frame) lg.low in
    let same : s0 ≡ s = cc in
    (
      omega arith,
      omega arith,
      omega arith,
      omega arith,
      subst (λ n. IsCut (contents buf) s ((n - 1) / s)) len
          (pieces-IsCut (contents buf) s (omega arith) (omega arith) (omega arith)),
    )
