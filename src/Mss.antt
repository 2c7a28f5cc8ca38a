-- ===== src/Mss.antt =====
-- src/openvpn-2.1.1/mss.c, with the macros of proto.h: lowering the maximum segment size in a TCP SYN
-- packet that goes through the tunnel, and correcting the checksum. A packet is its list of bytes.
-- `little` says that the machine stores the low byte of a word first; ntohs and htons make the code
-- read and write the segment size with the high byte first on every machine, while the checksum is
-- read and changed in the machine's own order. `none` is a read outside the packet.
pub mod Checksum
pub mod Sum
pub mod Loop
pub mod Segment
pub mod Tests
use par_diff_vpn.Prelude.{
  ℕ, zero, suc, ◌+◌, ◌-◌, ◌*◌, ◌/◌, ◌%◌, ◌^◌, Bool, true, false, ◌&&◌, ◌||◌, Option, none, some,
  List, [], ◌∷◌, ◌++◌, ◌>>=◌, ltb, leb, ◌==◌, if◌then◌else◌, get_elem?, get_or, take, drop, length,
}
use par_diff_vpn.Prelude.Int.{ℤ, pos, negsuc, ◌+ℤ◌, ◌-ℤ◌}

-- A word of memory as a number of the machine, from its two bytes.
abbrev pub word : Bool → ℕ → ℕ → ℕ
word little a b = if little then a + 256 * b else 256 * a + b

-- Its two bytes again.
abbrev pub first_byte : Bool → ℕ → ℕ
first_byte little w = if little then w % 256 else w / 256 % 256

abbrev pub second_byte : Bool → ℕ → ℕ
second_byte little w = if little then w / 256 % 256 else w % 256

-- The folding of ADJUST_CHECKSUM
unfoldable pub fold : ℕ → ℕ
fold acc = (let folded = acc / 2 ^ 16 + acc % 2 ^ 16 in folded + folded / 2 ^ 16)

-- ADJUST_CHECKSUM
unfoldable pub adjust_checksum : ℤ → ℕ → ℕ
unfolding fold ◌+ℤ◌
adjust_checksum acc cksum = elim (acc +ℤ pos cksum) [
  | pos n ↦ fold n % 2 ^ 16
  | negsuc n ↦ 2 ^ 16 - 1 - fold (suc n) % 2 ^ 16
]

-- The segment size in front of `rest`, lowered to `maxmss`, and the checksum.
unfoldable pub clamp : Bool → ℕ → List ℕ → ℕ → Option (List ℕ × ℕ)
unfolding adjust_checksum ◌-ℤ◌
clamp little maxmss [] check = none
clamp little maxmss (a ∷ []) check = none
clamp little maxmss (a ∷ b ∷ rest) check =
    if ltb maxmss (256 * a + b)
    then some (
      maxmss / 256 ∷ maxmss % 256 ∷ rest,
      adjust_checksum (pos (word little a b) -ℤ pos (word little (maxmss / 256) (maxmss % 256)))
          check,
    )
    else some (a ∷ b ∷ rest, check)

-- One round of the loop: it ends, or goes on `optlen` bytes further, with the bytes and the checksum
-- as they are now.
pub data Round : Type 0 where
  stop : Round
  next : ℕ → List ℕ → ℕ → Round

-- An option with a length, the bytes after its kind being `bs`.
unfoldable pub long_option : Bool → ℕ → ℕ → ℕ → List ℕ → ℕ → Option Round
unfolding clamp
long_option little maxmss olen kind [] check = none
long_option little maxmss olen kind (optlen ∷ bs) check =
    if optlen == 0 || ltb olen optlen
    then some stop
    else if kind == 2 && optlen == 4
    then (do r ← clamp little maxmss bs check; some (next optlen (kind ∷ optlen ∷ r.0) (r.1)))
    else some (next optlen (kind ∷ optlen ∷ bs) check)

-- The body of the loop of mss_fixup_dowork
unfoldable pub round : Bool → ℕ → ℕ → List ℕ → ℕ → Option Round
unfolding long_option
round little maxmss olen [] check = none
round little maxmss olen (kind ∷ bs) check =
    if kind == 0
    then some stop
    else if kind == 1
    then some (next 1 (kind ∷ bs) check)
    else long_option little maxmss olen kind bs check

-- The loop, with `olen` bytes of options to go and at most `rounds` rounds: the bytes from the
-- first option on, and the checksum.
unfoldable pub options_from : ℕ → Bool → ℕ → ℕ → List ℕ → ℕ → Option (List ℕ × ℕ)
unfolding round
options_from zero little maxmss olen bs check = if olen == 0 then some (bs, check) else none
options_from (suc rounds) little maxmss olen bs check = if olen == 0 then some (bs, check) else (do
  r ← round little maxmss olen bs check
  elim r [
    | stop ↦ some (bs, check)
    | next optlen bs' check' ↦ (do
      rest ← options_from rounds little maxmss (olen - optlen) (drop optlen bs') check'
      some (take optlen bs' ++ rest.0, rest.1))
  ])

-- mss_fixup_dowork, for a packet of at least 20 bytes, which its ASSERT asks for
unfoldable pub fixup_dowork : Bool → ℕ → List ℕ → Option (List ℕ)
unfolding options_from
fixup_dowork little maxmss tc =
    let hlen = get_or tc 12 0 / 16 % 16 * 4 in
    if leb (length tc) 19
    then none
    else if leb hlen 20 || ltb (length tc) hlen
    then some tc
    else (do
      r ←
          options_from (hlen - 20) little maxmss (hlen - 20) (drop 20 tc)
            (word little (get_or tc 16 0) (get_or tc 17 0))
      some (
          take 16 tc
          ++ (first_byte little (r.1) ∷ (second_byte little (r.1) ∷ (take 2 (drop 18 tc) ++ r.0)))))

-- mss_fixup; `maxmss` is an int that is not negative.
unfoldable pub fixup : Bool → ℕ → List ℕ → Option (List ℕ)
unfolding fixup_dowork
fixup little maxmss buf =
    let hlen = get_or buf 0 0 % 16 * 4 in
    if leb 20 (length buf)
      && get_or buf 9 0 == 6
      && 256 * get_or buf 2 0 + get_or buf 3 0 == length buf
      && (256 * get_or buf 6 0 + get_or buf 7 0) % 2 ^ 13 == 0
      && leb hlen (length buf)
      && leb 20 (length buf - hlen)
      && get_or (drop hlen buf) 13 0 / 2 % 2 == 1
    then (do tc ← fixup_dowork little (maxmss % 2 ^ 16) (drop hlen buf); some (take hlen buf ++ tc))
    else some buf
