-- ===== src/Reliable/Saved.antt =====
-- Taking a packet off the network into the receive window: reliable_get_buf, buf_copy and
-- reliable_mark_active_incoming in tls_pre_decrypt.
use par_diff_vpn.Prelude.{
  ℕ, zero, suc, ◌^◌, ◌<◌, ◌≡◌, refl, sym, ap, ◌∙◌, subst, true, false, not, ◌&&◌, none, some, List,
  [], ◌∷◌, get_elem?, set, length, length-set, get_elem?-set_self, arith, ◌==◌, Bool-cases,
  Option-cases, inl, inr, ◌⊎◌, ◌>>=◌, ◌++◌, ◌||◌, leb, if◌then◌else◌,
}
use par_diff_vpn.Buffer
use par_diff_vpn.Buffer.{Buffer}
use par_diff_vpn.Reliable.{
  Entry, Reliable, holds_id, free_from, get_buf, mark_active_incoming, can_get, not_replay,
  wont_break_sequentiality, pid_min,
}
use par_diff_vpn.Reliable.Range.{ahead, pid_in_range2_lem}
use par_diff_vpn.Reliable.Ack.{acknowledge, present}
use par_diff_vpn.Reliable.Entries.{AllActive-set, Distinct-set, free_from_found}
use par_diff_vpn.Reliable.Control.{receive, save}
use par_diff_vpn.Reliable.Window.{IsNear, IsWindow}

-- The entry that a packet of id `id` and opcode `op` is saved in, in place of the free `e`.
abbrev pub saved : Entry → Buffer → ℕ → ℕ → Entry
saved e b id op = record e {
  active = true;
  timeout = 0;
  next_try = 0;
  packet_id = id;
  opcode = op;
  buf = b;
}

-- What reliable_get_buf does.
get_buf_cases :
    (rel : Reliable)
    → (get_buf rel ≡ some (none, rel))
      ⊎ ((i : ℕ) × (e : Entry) × (get_elem? rel.array i ≡ some e)
          × (e.active ≡ false)
          × (get_buf rel ≡ (do
            b ← Buffer.init rel.offset e.buf
            some (some i, record rel { array = set rel.array i (record e { buf = b }) }))))
unfolding get_buf
get_buf_cases rel = elim (Option-cases (free_from 0 rel.array)) [
  | inl full ↦ inl (rw (get_buf, full))
  | inr (i, f) ↦
      (let (j, e, eq, g, a) = free_from_found 0 rel.array {i = i} f in
        let same : i ≡ j = omega arith in
        let here : get_elem? rel.array i ≡ some e = ap (λ k. get_elem? rel.array k) same ∙ g in
        let done : get_buf rel ≡ (do
          b ← Buffer.init rel.offset e.buf
          some (some i, record rel { array = set rel.array i (record e { buf = b }) })) =
          rw (get_buf, f, here) in
        inr (i, e, here, a, done))
]

set-set : (es : List Entry) (i : ℕ) (e f : Entry) → set (set es i e) i f ≡ set es i f
set-set [] i e f = refl
set-set (x ∷ es) zero e f = refl
set-set (x ∷ es) (suc i) e f = rw (set-set es i e f)

get_elem-bound : (es : List Entry) (i : ℕ) {e : Entry} → get_elem? es i ≡ some e → i < length es
get_elem-bound [] i h = absurd (cc)
get_elem-bound (x ∷ es) zero h = omega arith
get_elem-bound (x ∷ es) (suc i) h = let rest = get_elem-bound es i h in omega arith

-- Saving a packet fills a free entry.
pub save_found :
    (rel : Reliable) (id : ℕ) (packet : Buffer) (op : ℕ) {rel' : Reliable}
    → save rel id packet op ≡ some rel'
    → (i : ℕ) × (e : Entry) × (b b' : Buffer) × (get_elem? rel.array i ≡ some e)
      × (e.active ≡ false)
      × (Buffer.init rel.offset e.buf ≡ some b)
      × (Buffer.copy b packet ≡ some b')
      × (pid_min id rel.packet_id ≡ false)
      × (rel' ≡ record rel { array = set rel.array i (saved e b' id op) })
unfolding save mark_active_incoming
save_found rel id packet op {rel' = rel'} h = elim (get_buf_cases rel) [
  | inl full ↦ (let fails : save rel id packet op ≡ none = rw (save, full) in absurd (cc))
  | inr (i, e, g, a, found) ↦ elim (Option-cases (Buffer.init rel.offset e.buf)) [
    | inl none_b ↦
        (let fails : save rel id packet op ≡ none = rw (save, found, none_b) in absurd (cc))
    | inr (b, room) ↦
        (let e1 : Entry = record e { buf = b } in
          let back : get_elem? (set rel.array i e1) i ≡ some e1 =
            get_elem?-set_self rel.array i e1 (get_elem-bound rel.array i g) in
          elim (Option-cases (Buffer.copy b packet)) [
            | inl none_c ↦
                (let fails : save rel id packet op ≡ none = rw (save, found, room, back, none_c) in
                  absurd (cc))
            | inr (b', copied) ↦
                (let e2 : Entry = record e { buf = b' } in
                  let back' : get_elem? (set (set rel.array i e1) i e2) i ≡ some e2 =
                    get_elem?-set_self (set rel.array i e1) i e2
                      (rw (length-set rel.array i e1) (get_elem-bound rel.array i g)) in
                  elim (Bool-cases (pid_min id rel.packet_id)) [
                    | inl old ↦
                        (let fails : save rel id packet op ≡ none =
                            rw
                              (save, found, room, back, copied, mark_active_incoming, back', old) in
                          absurd (cc))
                    | inr new ↦
                        (let done : save rel id packet op
                              ≡ some (record rel { array = set rel.array i (saved e b' id op) }) =
                            rw (
                              save,
                              found,
                              room,
                              back,
                              copied,
                              mark_active_incoming,
                              back',
                              new,
                              set-set (set rel.array i e1) i e2 (saved e b' id op),
                              set-set rel.array i e1 (saved e b' id op),
                            ) in
                          (i, e, b, b', g, a, room, copied, new, cc))
                  ])
          ])
  ]
]

holds_id-set_self :
    (id : ℕ) (es : List Entry) (i : ℕ) (e : Entry)
    → i < length es
    → e.active ≡ true
    → e.packet_id ≡ id
    → holds_id id (set es i e) ≡ true
unfolding holds_id
holds_id-set_self id [] i e h a s = absurd (omega arith)
holds_id-set_self id (x ∷ es) zero e h a s = ground arith
holds_id-set_self id (x ∷ es) (suc i) e h a s =
    ground (arith, holds_id-set_self id es i e, Bool-cases (x.active && x.packet_id == id))

saved-IsWindow :
    (rel : Reliable) (i id op : ℕ) (e : Entry) (b : Buffer)
    → IsWindow rel
    → id < 2 ^ 32
    → ahead id rel.packet_id < length rel.array
    → holds_id id rel.array ≡ false
    → IsWindow (record rel { array = set rel.array i (saved e b id op) })
saved-IsWindow rel i id op e b (small, below, distinct, near) h k free =
    let f : Entry = saved e b id op in
    let same = length-set rel.array i f in
    (
      omega arith,
      below,
      Distinct-set rel.array i f distinct (λ _. free),
      rw same (
          AllActive-set (IsNear rel.packet_id (length rel.array)) rel.array i f near (λ _. (h, k))),
    )

-- Why a packet is ignored: it only carries acknowledgements, the window is full, or the id is too far
-- ahead of the window.
abbrev pub IsIgnored : ℕ → ℕ → Reliable → Type 0
IsIgnored op id rel = (op ≡ 5) ⊎ (can_get rel ≡ false) ⊎ (wont_break_sequentiality rel id ≡ false)

unwanted-IsIgnored :
    (op id : ℕ) (rel : Reliable) → (not (op == 5) && can_get rel) ≡ false → IsIgnored op id rel
unwanted-IsIgnored op id rel h = elim (Bool-cases (can_get rel)) [
  | inr full ↦ inr (inl full)
  | inl room ↦ inl (ground (arith, h, room))
]

-- How tls_pre_decrypt ends for a packet with the id `id`.
pub receive_cases :
    (op id : ℕ) (packet body : Buffer) (rel rel' : Reliable) (ack ack' : List ℕ)
    → Buffer.read_u32 packet ≡ some (id, body)
    → receive op packet rel ack ≡ some (rel', ack')
    → ((rel' ≡ rel)
        × (((ack' ≡ ack) × IsIgnored op id rel)
            ⊎ ((ack' ≡ (acknowledge ack id).1) × (not_replay rel id ≡ false))))
      ⊎ ((wont_break_sequentiality rel id ≡ true)
          × (not_replay rel id ≡ true)
          × (save rel id body op ≡ some rel')
          × (ack' ≡ (acknowledge ack id).1))
unfolding receive
receive_cases op id packet body rel rel' ack ack' r h =
    elim (Bool-cases (not (op == 5) && can_get rel)) [
      | inr unwanted ↦
          (let done : receive op packet rel ack ≡ some (rel, ack) = rw (receive, unwanted) in
            inl (cc, inl (cc, unwanted-IsIgnored op id rel unwanted)))
      | inl wanted ↦ elim (Bool-cases (wont_break_sequentiality rel id)) [
        | inr far ↦
            (let done : receive op packet rel ack ≡ some (rel, ack) =
                rw (receive, wanted, r, far) in
              inl (cc, inl (cc, inr (inr far))))
        | inl near ↦ elim (Bool-cases (not_replay rel id)) [
          | inr old ↦
              (let done : receive op packet rel ack ≡ some (rel, (acknowledge ack id).1) =
                  rw (receive, wanted, r, near, old) in
                inl (cc, inr (cc, old)))
          | inl new ↦ elim (Option-cases (save rel id body op)) [
            | inl fails ↦
                (let done : receive op packet rel ack ≡ none =
                    rw (receive, wanted, r, near, new, fails) in
                  absurd (cc))
            | inr (rel2, done) ↦
                (let all : receive op packet rel ack ≡ some (rel2, (acknowledge ack id).1) =
                    rw (receive, wanted, r, near, new, done) in
                  let same : rel2 ≡ rel' = cc in inr (near, new, done ∙ ap some same, cc))
          ]
        ]
      ]
    ]

not_replay_cases :
    (rel : Reliable) (id : ℕ)
    → not_replay rel id ≡ false
    → (pid_min id rel.packet_id ≡ true) ⊎ (holds_id id rel.array ≡ true)
unfolding not_replay
not_replay_cases rel id h = elim (Bool-cases (pid_min id rel.packet_id)) [
  | inl old ↦ inl old
  | inr new ↦ inr (ground (arith, Bool-cases (holds_id id rel.array)))
]

-- The acknowledgements after one more id: it goes to the end, unless it is there or eight are waiting.
abbrev pub IsAcknowledged : List ℕ → ℕ → List ℕ → Type 0
IsAcknowledged ack id ack' =
    (ack' ≡ (if present ack id || leb 8 (length ack) then ack else ack ++ (id ∷ [])))

acknowledge-IsAcknowledged : (ack : List ℕ) (id : ℕ) → IsAcknowledged ack id (acknowledge ack id).1
unfolding acknowledge
acknowledge-IsAcknowledged ack id = ground (arith, Bool-cases (present ack id))

-- In a window that expects an id below 2 ^ 31, take a packet with an id off the network, and let no
-- ASSERT fail. The window stays well-formed and expects the same id. Either nothing changes, and the packet
-- only carries acknowledgements, every entry is in use, or reliable_wont_break_sequentiality refuses
-- the id; or the packet's own id, and no other, is acknowledged, unless it already is or eight are waiting. In
-- that case the id is behind the expected one by reliable_pid_min or was held, and the window
-- stays as it is; or it was neither, and it is held now.
pub receive-IsWindow :
    (op id : ℕ) (packet body : Buffer) (rel rel' : Reliable) (ack ack' : List ℕ)
    → IsWindow rel
    → rel.packet_id < 2 ^ 31
    → Buffer.read_u32 packet ≡ some (id, body)
    → id < 2 ^ 32
    → receive op packet rel ack ≡ some (rel', ack')
    → IsWindow rel'
      × (rel'.packet_id ≡ rel.packet_id)
      × (((rel' ≡ rel) × (ack' ≡ ack) × IsIgnored op id rel)
          ⊎ (IsAcknowledged ack id ack'
              × (((rel' ≡ rel)
                    × ((pid_min id rel.packet_id ≡ true) ⊎ (holds_id id rel.array ≡ true)))
                  ⊎ ((pid_min id rel.packet_id ≡ false)
                      × (holds_id id rel.array ≡ false)
                      × (holds_id id rel'.array ≡ true)))))
unfolding not_replay wont_break_sequentiality
receive-IsWindow op id packet body rel rel' ack ack' w h r k e =
    elim (receive_cases op id packet body rel rel' ack ack' r e) [
      | inl (same, inl (quiet, why)) ↦ (
        subst IsWindow (sym same) w,
        ap (λ (t : Reliable). t.packet_id) same,
        inl (same, quiet, why),
      )
      | inl (same, inr (said, replay)) ↦ (
        subst IsWindow (sym same) w,
        ap (λ (t : Reliable). t.packet_id) same,
        inr (said ∙ acknowledge-IsAcknowledged ack id, inl (same, not_replay_cases rel id replay)),
      )
      | inr (near, new, stored, said) ↦
          (let (i, x, b, b', g, a, room, copied, ahead_of, same) =
              save_found rel id body op stored in
            let free : holds_id id rel.array ≡ false =
              ground (arith, Bool-cases (holds_id id rel.array)) in
            let exact = pid_in_range2_lem id rel.packet_id (length rel.array) k h w.0 ahead_of in
            let within : ahead id rel.packet_id < length rel.array = ground (arith, exact, near) in
            let held : holds_id id rel'.array ≡ true =
              subst (λ t. holds_id id t.array ≡ true) (sym same)
                (holds_id-set_self id rel.array i (saved x b' id op) (get_elem-bound rel.array i g)
                  refl refl) in
            (
              subst IsWindow (sym same) (saved-IsWindow rel i id op x b' w k within free),
              ap (λ (t : Reliable). t.packet_id) same,
              inr (said ∙ acknowledge-IsAcknowledged ack id, inr (ahead_of, free, held)),
            ))
    ]

-- A packet too short for an id changes nothing.
pub receive_unread :
    (op : ℕ) (packet : Buffer) (rel : Reliable) (ack : List ℕ)
    → Buffer.read_u32 packet ≡ none
    → receive op packet rel ack ≡ some (rel, ack)
unfolding receive
receive_unread op packet rel ack r = elim (Bool-cases (not (op == 5) && can_get rel)) [
  | inl wanted ↦ rw (receive, wanted, r)
  | inr unwanted ↦ rw (receive, unwanted)
]
