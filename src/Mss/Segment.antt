-- ===== src/Mss/Segment.antt =====
-- mss_fixup_dowork on a TCP segment whose options are as they should be.
use par_diff_vpn.Prelude.{
  ℕ, ◌+◌, ◌-◌, ◌^◌, ◌%◌, ◌<◌, ◌≤◌, ◌≡◌, refl, ap, ◌∙◌, arith, Bool, true, ltb, leb, ◌||◌, some,
  List, ◌∷◌, ◌++◌, length, take, drop, inl, inr, Bool-cases, length-append, length-drop, get_or,
}
use par_diff_vpn.Mss.{word, first_byte, second_byte, fixup_dowork}
use par_diff_vpn.Mss.Sum.{AreBytes, weigh, Keeps}
use par_diff_vpn.Mss.Loop.{
  header_length, well_placed, options_from-Keeps, parts, weigh-segment, bytes-word, word_small,
  get_or-AreBytes, drop-AreBytes, join-AreBytes, left_alone, changed_by,
}

abbrev pub checksum : Bool → List ℕ → ℕ
checksum little tc = word little (get_or tc 16 0) (get_or tc 17 0)

-- The segment with another checksum and other bytes from the options on.
abbrev pub rebuilt : Bool → List ℕ → ℕ → List ℕ → List ℕ
rebuilt little tc check bs =
    take 16 tc
    ++ (first_byte little check
        ∷ (second_byte little check ∷ (get_or tc 18 0 ∷ (get_or tc 19 0 ∷ bs))))

add_up :
    (p q c c' t t' : ℕ) {s s' : ℕ}
    → s ≡ p + c + q + t
    → s' ≡ p + c' + q + t'
    → (t' + c') % 65535 ≡ (t + c) % 65535
    → s' % 65535 ≡ s % 65535
add_up p q c c' t t' x y z = omega arith

weigh-rebuilt :
    (little : Bool) (tc bs' : List ℕ) (check' : ℕ)
    → 20 ≤ length tc
    → Keeps little true (drop 20 tc) (checksum little tc) bs' check'
    → weigh little true (rebuilt little tc check' bs') % 65535 ≡ weigh little true tc % 65535
weigh-rebuilt little tc bs' check' n p =
    let (whole, two, size) = parts tc n in
    let after =
      weigh-segment little (take 16 tc) (first_byte little check') (second_byte little check')
        (get_or tc 18 0) (get_or tc 19 0) bs' size in
    let before =
      weigh-segment little (take 16 tc) (get_or tc 16 0) (get_or tc 17 0) (get_or tc 18 0)
        (get_or tc 19 0) (drop 20 tc) size in
    add_up (weigh little true (take 16 tc)) (word little (get_or tc 18 0) (get_or tc 19 0))
      (checksum little tc) check' (weigh little true (drop 20 tc)) (weigh little true bs')
      (ap (weigh little true) whole ∙ before)
      (after
        ∙ ap
            (λ w.
              weigh little true (take 16 tc)
              + w
              + word little (get_or tc 18 0) (get_or tc 19 0)
              + weigh little true bs')
            ((bytes-word little check' p.small).0))
      p.sum

rebuilt-AreBytes :
    (little : Bool) (tc bs' : List ℕ) (check' : ℕ)
    → AreBytes tc
    → check' < 2 ^ 16
    → AreBytes bs'
    → AreBytes (rebuilt little tc check' bs')
rebuilt-AreBytes little tc bs' check' h s k =
    let (same, first, second) = bytes-word little check' s in
    join-AreBytes 16 tc _ h
      (first, (second, (get_or-AreBytes 18 tc h, (get_or-AreBytes 19 tc h, k))))

length-rebuilt :
    (little : Bool) (tc bs' : List ℕ) (check' : ℕ)
    → 20 ≤ length tc
    → length bs' ≡ length (drop 20 tc)
    → length (rebuilt little tc check' bs') ≡ length tc
length-rebuilt little tc bs' check' n e =
    let (whole, two, size) = parts tc n in
    let d = length-drop 20 tc in
    let z = length-append (take 16 tc) (
      first_byte little check'
      ∷ (second_byte little check' ∷ (get_or tc 18 0 ∷ (get_or tc 19 0 ∷ bs')))) in
    omega arith

-- Let a TCP segment of at least 20 bytes have a length for every option in the packet, and every
-- maximum segment size at an even place. Then mss_fixup_dowork reads nothing outside the segment and
-- ends. The segment keeps its length, its bytes stay bytes, and the one's complement sum of its words, the
-- checksum included, is the same as before, so that a right checksum stays right.
pub fixup_dowork_lem :
    (little : Bool) (maxmss : ℕ) (tc : List ℕ)
    → maxmss < 2 ^ 16
    → 20 ≤ length tc
    → AreBytes tc
    → well_placed
        (header_length tc - 20)
        little
        maxmss
        true
        (header_length tc - 20)
        (drop 20 tc)
        (checksum little tc)
      ≡ true
    → (tc' : List ℕ) × (fixup_dowork little maxmss tc ≡ some tc')
      × (length tc' ≡ length tc)
      × AreBytes tc'
      × (weigh little true tc' % 65535 ≡ weigh little true tc % 65535)
fixup_dowork_lem little maxmss tc m n h a =
    elim (Bool-cases (leb (header_length tc) 20 || ltb (length tc) (header_length tc))) [
      | inl alone ↦ (tc, left_alone little maxmss tc n alone, refl, h, refl)
      | inr options ↦
          (let within : header_length tc ≤ length tc = ground arith in
            let check_small =
              word_small little (get_or tc 16 0) (get_or tc 17 0) (get_or-AreBytes 16 tc h)
                (get_or-AreBytes 17 tc h) in
            let (bs', check', run, p) =
              options_from-Keeps (header_length tc - 20) little maxmss true (header_length tc - 20)
                (drop 20 tc) (checksum little tc) m (omega arith)
                (let d = length-drop 20 tc in omega arith) (drop-AreBytes 20 tc h) check_small a in
            (
              rebuilt little tc check' bs',
              changed_by little maxmss tc bs' check' n options run,
              length-rebuilt little tc bs' check' n p.size,
              rebuilt-AreBytes little tc bs' check' h p.small p.bytes,
              weigh-rebuilt little tc bs' check' n p,
            ))
    ]
