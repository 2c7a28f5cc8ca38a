-- ===== src/Mss/Tests.antt =====
-- mss_fixup_dowork at concrete segments.
use par_diff_vpn.Prelude.{
  ℕ, ◌+◌, ◌*◌, ◌%◌, ◌≡◌, ◌≢◌, ◌&&◌, ltb, Bool-cases, inl, inr, refl, Bool, true, false, none, some,
  List, [], ◌∷◌, ◌++◌, length, arith,
}
use par_diff_vpn.Mss.{round, fixup_dowork, fixup}
use par_diff_vpn.Mss.Sum.{AreBytes, weigh}
use par_diff_vpn.Mss.Loop.{well_placed}
use par_diff_vpn.Mss.Segment.{fixup_dowork_lem}

abbrev all_bytes : List ℕ → Bool
all_bytes [] = true
all_bytes (b ∷ bs) = ltb b 256 && all_bytes bs

all_bytes-AreBytes : (bs : List ℕ) → all_bytes bs ≡ true → AreBytes bs
all_bytes-AreBytes [] h = tt
all_bytes-AreBytes (b ∷ bs) h = elim (Bool-cases (ltb b 256)) [
  | inl small ↦ (ground arith, all_bytes-AreBytes bs (rw small at h))
  | inr large ↦ absurd (let q = rw large at h in cc)
]

-- Ports, numbers, the length of the header in words, the flags, window, checksum and urgent pointer.
abbrev header : ℕ → ℕ → ℕ → List ℕ
header words check_first check_second =
    195
    ∷ 80
    ∷ 0
    ∷ 80
    ∷ 0
    ∷ 0
    ∷ 0
    ∷ 1
    ∷ 0
    ∷ 0
    ∷ 0
    ∷ 0
    ∷ words * 16
    ∷ 2
    ∷ 22
    ∷ 208
    ∷ check_first
    ∷ check_second
    ∷ 0
    ∷ 0
    ∷ []

-- A SYN with the segment size 1460, which becomes 1300.
abbrev syn : List ℕ
syn = header 6 18 52 ++ 2 ∷ 4 ∷ 5 ∷ 180 ∷ []

syn_lowered : fixup_dowork false 1300 syn ≡ some (header 6 18 212 ++ 2 ∷ 4 ∷ 5 ∷ 20 ∷ [])
unfolding fixup_dowork
syn_lowered = refl

syn_lowered_little : fixup_dowork true 1300 syn ≡ some (header 6 18 212 ++ 2 ∷ 4 ∷ 5 ∷ 20 ∷ [])
unfolding fixup_dowork
syn_lowered_little = refl

-- A segment size that does not start a word, behind a no-operation: the checksum goes wrong.
syn_odd :
    fixup_dowork false 1300 (header 7 18 52 ++ 1 ∷ 2 ∷ 4 ∷ 5 ∷ 180 ∷ 1 ∷ 1 ∷ 0 ∷ [])
    ≡ some (header 7 18 212 ++ 1 ∷ 2 ∷ 4 ∷ 5 ∷ 20 ∷ 1 ∷ 1 ∷ 0 ∷ [])
unfolding fixup_dowork
syn_odd = refl

syn_odd_sum :
    weigh false true (header 7 18 212 ++ 1 ∷ 2 ∷ 4 ∷ 5 ∷ 20 ∷ 1 ∷ 1 ∷ 0 ∷ []) % 65535
    ≢ weigh false true (header 7 18 52 ++ 1 ∷ 2 ∷ 4 ∷ 5 ∷ 180 ∷ 1 ∷ 1 ∷ 0 ∷ []) % 65535
syn_odd_sum = λ e. omega (arith, e)

-- An option that is cut off after its kind at the end of the segment: its length is read outside.
syn_cut : fixup_dowork false 1300 (header 6 18 52 ++ 1 ∷ 1 ∷ 1 ∷ 8 ∷ []) ≡ none
unfolding fixup_dowork
syn_cut = refl

-- The same in an IP packet of 44 bytes.
abbrev ip_header : List ℕ
ip_header = 69 ∷ 0 ∷ 0 ∷ 44 ∷ 0 ∷ 1 ∷ 64 ∷ 0 ∷ 64 ∷ 6 ∷ 0 ∷ 0 ∷ 10 ∷ 8 ∷ 0 ∷ 6 ∷ 10 ∷ 8 ∷ 0 ∷ 1 ∷ []

packet_lowered :
    fixup false 1300 (ip_header ++ syn) ≡ some (ip_header ++ header 6 18 212 ++ 2 ∷ 4 ∷ 5 ∷ 20 ∷ [])
unfolding fixup
packet_lowered = refl

syn_bytes : AreBytes syn
syn_bytes = all_bytes-AreBytes syn refl

syn_placed : well_placed 4 false 1300 true 4 (2 ∷ 4 ∷ 5 ∷ 180 ∷ []) (256 * 18 + 52) ≡ true
unfolding round
syn_placed = refl

fixup_dowork_lem_example :
    (tc' : List ℕ) × (fixup_dowork false 1300 syn ≡ some tc')
    × (length tc' ≡ 24)
    × AreBytes tc'
    × (weigh false true tc' % 65535 ≡ weigh false true syn % 65535)
fixup_dowork_lem_example =
    fixup_dowork_lem false 1300 syn (omega arith) (omega arith) syn_bytes syn_placed
