-- ===== src/Mss/Loop.antt =====
-- The loop over the options, and the whole of mss_fixup_dowork.
use par_diff_vpn.Prelude.{
  ℕ, zero, suc, ◌+◌, ◌-◌, ◌*◌, ◌/◌, ◌%◌, ◌^◌, ◌<◌, ◌≤◌, ◌≡◌, refl, sym, ap, ◌∙◌, arith, Bool, true,
  false, not, ltb, leb, ◌==◌, ◌&&◌, ◌||◌, none, some, List, [], ◌∷◌, ◌++◌, length, take, drop, inl,
  inr, Bool-cases, length-append, length-take, length-drop, take-append-drop, get_or,
}
use par_diff_vpn.Mss.{word, stop, next, round, options_from, first_byte, second_byte, fixup_dowork}
use par_diff_vpn.Mss.Sum.{
  AreBytes, weigh, further, weigh-append, weigh-word, Keeps, unchanged, is_size, is_lone,
  round-cases, sum_before,
}

-- Every option that the loop meets has its length in the packet, and every segment size that it
-- meets starts a word.
abbrev pub well_placed : ℕ → Bool → ℕ → Bool → ℕ → List ℕ → ℕ → Bool
well_placed zero little maxmss even olen bs check = true
well_placed (suc rounds) little maxmss even olen bs check = elim (olen == 0) [
  | true ↦ true
  | false ↦ not (is_lone bs) && elim (round little maxmss olen bs check) [
    | none ↦ true
    | some r ↦ elim r [
      | stop ↦ true
      | next l bs' check' ↦
          (not (is_size bs) || even)
          && well_placed rounds little maxmss (further l even) (olen - l) (drop l bs') check'
    ]
  ]
]

pub drop-AreBytes : (n : ℕ) (bs : List ℕ) → AreBytes bs → AreBytes (drop n bs)
drop-AreBytes zero bs h = h
drop-AreBytes (suc n) [] h = tt
drop-AreBytes (suc n) (b ∷ bs) h = drop-AreBytes n bs h.1

pub join-AreBytes :
    (n : ℕ) (bs rest : List ℕ) → AreBytes bs → AreBytes rest → AreBytes (take n bs ++ rest)
join-AreBytes zero bs rest h k = k
join-AreBytes (suc n) [] rest h k = k
join-AreBytes (suc n) (b ∷ bs) rest h k = (h.0, join-AreBytes n bs rest h.1 k)

-- The bytes stepped over, and then what the rest of the loop leaves.
joined-Keeps :
    (little even : Bool) (l : ℕ) (bs bs' rest : List ℕ) (check check' check'' : ℕ)
    → l ≤ length bs'
    → Keeps little even bs check bs' check'
    → Keeps little (further l even) (drop l bs') check' rest check''
    → Keeps little even bs check (take l bs' ++ rest) check''
joined-Keeps little even l bs bs' rest check check' check'' n p q =
    let e : length (take l bs') ≡ l = (let z = length-take l bs' in omega arith) in
    let whole =
      ap (weigh little even) (sym (take-append-drop l bs'))
      ∙ weigh-append little even (take l bs') (drop l bs') in
    let joined = weigh-append little even (take l bs') rest in
    record {
      size =
          (let z = length-drop l bs' in
            let y = length-append (take l bs') rest in
            let u = p.size in let v = q.size in omega arith);
      bytes = join-AreBytes l bs' rest p.bytes q.bytes;
      small = q.small;
      sum =
          sum_before (weigh little even (take l bs')) (weigh little (further l even) (drop l bs'))
            (weigh little (further l even) rest) check' check'' (rw e at whole) (rw e at joined)
            q.sum
          ∙ p.sum;
    }

both : (a b : Bool) → (a && b) ≡ true → (a ≡ true) × (b ≡ true)
both true b h = (refl, h)
both false b h = absurd (cc)

of_not : {a : Bool} → not a ≡ true → a ≡ false
of_not {a = true} h = absurd (cc)
of_not {a = false} h = refl

goes_on :
    (rounds : ℕ) (little : Bool) (maxmss olen l : ℕ) (bs bs' rest : List ℕ)
    (check check' check'' : ℕ)
    → (olen == 0) ≡ false
    → round little maxmss olen bs check ≡ some (next l bs' check')
    → options_from rounds little maxmss (olen - l) (drop l bs') check' ≡ some (rest, check'')
    → options_from (suc rounds) little maxmss olen bs check ≡ some (take l bs' ++ rest, check'')
unfolding options_from
goes_on rounds little maxmss olen l bs bs' rest check check' check'' more run go =
    rw (more, run, go) refl

pub options_from-Keeps :
    (rounds : ℕ) (little : Bool) (maxmss : ℕ) (even : Bool) (olen : ℕ) (bs : List ℕ) (check : ℕ)
    → maxmss < 2 ^ 16
    → olen ≤ rounds
    → olen ≤ length bs
    → AreBytes bs
    → check < 2 ^ 16
    → well_placed rounds little maxmss even olen bs check ≡ true
    → (bs' : List ℕ) × (check' : ℕ) × (options_from rounds little maxmss olen bs check
        ≡ some (bs', check'))
      × Keeps little even bs check bs' check'
unfolding options_from
options_from-Keeps zero little maxmss even olen bs check m n g h s a =
    let e : (olen == 0) ≡ true = ground arith in
    (bs, check, rw e refl, unchanged little even bs check h s)
options_from-Keeps (suc rounds) little maxmss even olen bs check m n g h s a =
    elim (Bool-cases (olen == 0)) [
      | inl done ↦ (bs, check, rw done refl, unchanged little even bs check h s)
      | inr more ↦
          (let (room, rest_placed) = both _ _ (rw (well_placed, more) at a) in
            elim (round-cases little maxmss olen bs check m g (ground arith) (of_not room) h s) [
              | inl ends ↦ (bs, check, rw (more, ends) refl, unchanged little even bs check h s)
              | inr (l, bs', check', run, step) ↦
                  (let (here, later) = both _ _ (rw run at rest_placed) in
                    let p = step.kept even here in
                    let (rest, check'', go, q) =
                      options_from-Keeps rounds little maxmss (further l even) (olen - l)
                        (drop l bs') check' m (let z = step.forward in omega arith)
                        (let z = step.within in
                          let y = length-drop l bs' in let u = p.size in omega arith)
                        (drop-AreBytes l bs' p.bytes) p.small later in
                    (
                      take l bs' ++ rest,
                      check'',
                      goes_on rounds little maxmss olen l bs bs' rest check check' check'' more run
                          go,
                      joined-Keeps little even l bs bs' rest check check' check''
                          (let z = step.within in let u = p.size in omega arith) p q,
                    ))
            ])
    ]

-- The number of bytes of the header, with its options.
abbrev pub header_length : List ℕ → ℕ
header_length tc = get_or tc 12 0 / 16 % 16 * 4

drop-head : (n : ℕ) (xs : List ℕ) → n < length xs → drop n xs ≡ get_or xs n 0 ∷ drop (suc n) xs
drop-head n [] h = absurd (omega arith)
drop-head zero (x ∷ xs) h = refl
drop-head (suc n) (x ∷ xs) h = drop-head n xs (omega arith)

pub get_or-AreBytes : (n : ℕ) (xs : List ℕ) → AreBytes xs → get_or xs n 0 < 256
get_or-AreBytes n [] h = omega arith
get_or-AreBytes zero (x ∷ xs) h = h.0
get_or-AreBytes (suc n) (x ∷ xs) h = get_or-AreBytes n xs h.1

pub bytes-word :
    (little : Bool) (w : ℕ)
    → w < 2 ^ 16
    → (word little (first_byte little w) (second_byte little w) ≡ w)
      × (first_byte little w < 256)
      × (second_byte little w < 256)
bytes-word true w h = (omega arith, omega arith, omega arith)
bytes-word false w h = (omega arith, omega arith, omega arith)

pub word_small : (little : Bool) (a b : ℕ) → a < 256 → b < 256 → word little a b < 2 ^ 16
word_small true a b h k = omega arith
word_small false a b h k = omega arith

add_up : (p ab xy r : ℕ) {s q t : ℕ} → s ≡ p + q → q ≡ ab + t → t ≡ xy + r → s ≡ p + ab + xy + r
add_up p ab xy r e f g = omega arith

-- A segment: sixteen bytes, the checksum, two more, and the rest.
pub weigh-segment :
    (little : Bool) (p : List ℕ) (a b x y : ℕ) (rest : List ℕ)
    → length p ≡ 16
    → weigh little true (p ++ a ∷ b ∷ x ∷ y ∷ rest)
      ≡ weigh little true p + word little a b + word little x y + weigh little true rest
weigh-segment little p a b x y rest e =
    let whole = weigh-append little true p (a ∷ b ∷ x ∷ y ∷ rest) in
    let inner = weigh-word little a b (x ∷ y ∷ rest) in
    let last = weigh-word little x y rest in
    add_up (weigh little true p) (word little a b) (word little x y) (weigh little true rest)
      (rw e at whole) inner last

-- The parts of a segment.
pub parts :
    (tc : List ℕ)
    → 20 ≤ length tc
    → (tc
        ≡ take 16 tc
          ++ get_or tc 16 0 ∷ get_or tc 17 0 ∷ get_or tc 18 0 ∷ get_or tc 19 0 ∷ drop 20 tc)
      × (take 2 (drop 18 tc) ≡ get_or tc 18 0 ∷ get_or tc 19 0 ∷ [])
      × (length (take 16 tc) ≡ 16)
parts tc h =
    let d16 = drop-head 16 tc (omega arith) in
    let d17 = drop-head 17 tc (omega arith) in
    let d18 = drop-head 18 tc (omega arith) in
    let d19 = drop-head 19 tc (omega arith) in
    let tail = d18 ∙ ap (λ d. get_or tc 18 0 ∷ d) d19 in
    (
      sym (take-append-drop 16 tc)
          ∙ ap (λ d. take 16 tc ++ d)
              (d16 ∙ ap (λ d. get_or tc 16 0 ∷ d) (d17 ∙ ap (λ d. get_or tc 17 0 ∷ d) tail)),
      ap (take 2) tail,
      (let z = length-take 16 tc in omega arith),
    )

-- A header without options, or longer than the segment, is left alone.
pub left_alone :
    (little : Bool) (maxmss : ℕ) (tc : List ℕ)
    → 20 ≤ length tc
    → (leb (header_length tc) 20 || ltb (length tc) (header_length tc)) ≡ true
    → fixup_dowork little maxmss tc ≡ some tc
unfolding fixup_dowork
left_alone little maxmss tc n e =
    (let big : leb (length tc) 19 ≡ false = ground arith in rw (big, e) refl)

pub changed_by :
    (little : Bool) (maxmss : ℕ) (tc bs' : List ℕ) (check' : ℕ)
    → 20 ≤ length tc
    → (leb (header_length tc) 20 || ltb (length tc) (header_length tc)) ≡ false
    → options_from
        (header_length tc - 20)
        little
        maxmss
        (header_length tc - 20)
        (drop 20 tc)
        (word little (get_or tc 16 0) (get_or tc 17 0))
      ≡ some (bs', check')
    → fixup_dowork little maxmss tc
      ≡ some (
          take 16 tc
          ++ first_byte little check'
            ∷ second_byte little check'
            ∷ get_or tc 18 0
            ∷ get_or tc 19 0
            ∷ bs')
unfolding fixup_dowork
changed_by little maxmss tc bs' check' n e run =
    let big : leb (length tc) 19 ≡ false = ground arith in
    let two = (parts tc n).1 in rw (big, e, run, two) refl
