-- ===== src/Mss/Sum.antt =====
-- The sum of the words of a packet, and what one round of the loop does to it.
use par_diff_vpn.Prelude.{
  ℕ, zero, suc, ◌+◌, ◌*◌, ◌/◌, ◌%◌, ◌^◌, ◌<◌, ◌≤◌, ◌≡◌, refl, sym, subst, arith, Bool, true, false,
  not, ltb, leb, ◌==◌, ◌&&◌, ◌||◌, if◌then◌else◌, some, List, [], ◌∷◌, ◌++◌, length, ◌⊎◌, inl, inr,
  Bool-cases,
}
use par_diff_vpn.Prelude.Int.{pos, ◌-ℤ◌}
use par_diff_vpn.Mss.{adjust_checksum, word, clamp, stop, next, long_option, round}
use par_diff_vpn.Mss.Checksum.{adjust_checksum_lem}

abbrev pub AreBytes : List ℕ → Type 0
AreBytes [] = Unit
AreBytes (b ∷ bs) = (b < 256) × AreBytes bs

-- The sum of the words of a packet from here on; `even` says that the first byte starts a word. A
-- last byte alone is a word with a zero.
abbrev pub weigh : Bool → Bool → List ℕ → ℕ
weigh little even [] = 0
weigh little true (b ∷ bs) = (if little then b else 256 * b) + weigh little false bs
weigh little false (b ∷ bs) = (if little then 256 * b else b) + weigh little true bs

-- The place `n` bytes further.
abbrev pub further : ℕ → Bool → Bool
further zero even = even
further (suc n) even = further n (not even)

pub weigh-append :
    (little even : Bool) (xs ys : List ℕ)
    → weigh little even (xs ++ ys)
      ≡ weigh little even xs + weigh little (further (length xs) even) ys
weigh-append little even [] ys = omega arith
weigh-append little true (x ∷ xs) ys = (let r = weigh-append little false xs ys in omega arith)
weigh-append little false (x ∷ xs) ys = (let r = weigh-append little true xs ys in omega arith)

-- The bytes from `bs` on became `bs'` and the checksum `check` became `check'`, and the sum of both is
-- the same up to multiples of 65535.
pub record Keeps (little even : Bool) (bs : List ℕ) (check : ℕ) (bs' : List ℕ) (check' : ℕ)
    : Type 0 where
  pub size : length bs' ≡ length bs
  pub bytes : AreBytes bs'
  pub small : check' < 2 ^ 16
  pub sum : (weigh little even bs' + check') % 65535 ≡ (weigh little even bs + check) % 65535

pub unchanged :
    (little even : Bool) (bs : List ℕ) (check : ℕ)
    → AreBytes bs
    → check < 2 ^ 16
    → Keeps little even bs check bs check
unchanged little even bs check b s = record { size = refl; bytes = b; small = s; sum = refl }

word_lt : (little : Bool) (a b : ℕ) → a < 256 → b < 256 → word little a b < 2 ^ 16
word_lt true a b h k = omega arith
word_lt false a b h k = omega arith

pub weigh-word :
    (little : Bool) (a b : ℕ) (rest : List ℕ)
    → weigh little true (a ∷ b ∷ rest) ≡ word little a b + weigh little true rest
weigh-word true a b rest = omega arith
weigh-word false a b rest = omega arith

-- One word of a sum changes together with the checksum.
sum_word :
    (w w' t c c' : ℕ) {s s' : ℕ}
    → s ≡ w + t
    → s' ≡ w' + t
    → (c' + w') % 65535 ≡ (c + w) % 65535
    → (s' + c') % 65535 ≡ (s + c) % 65535
sum_word w w' t c c' x y z = omega arith

-- The bytes before.
pub sum_before :
    (p t t' c c' : ℕ) {s s' : ℕ}
    → s ≡ p + t
    → s' ≡ p + t'
    → (t' + c') % 65535 ≡ (t + c) % 65535
    → (s' + c') % 65535 ≡ (s + c) % 65535
sum_before p t t' c c' x y z = omega arith

clamp-Keeps :
    (little : Bool) (maxmss a b : ℕ) (rest : List ℕ) (check : ℕ)
    → maxmss < 2 ^ 16
    → AreBytes (a ∷ b ∷ rest)
    → check < 2 ^ 16
    → (bs' : List ℕ) × (check' : ℕ) × (clamp little maxmss (a ∷ b ∷ rest) check
        ≡ some (bs', check'))
      × Keeps little true (a ∷ b ∷ rest) check bs' check'
unfolding clamp
clamp-Keeps little maxmss a b rest check m h s = elim (Bool-cases (ltb maxmss (256 * a + b))) [
  | inr fits ↦ (a ∷ b ∷ rest, check, rw fits refl, unchanged little true (a ∷ b ∷ rest) check h s)
  | inl large ↦
      (let hi : maxmss / 256 < 256 = omega arith in
        let lo : maxmss % 256 < 256 = omega arith in
        let old = word_lt little a b h.0 (h.1.0) in
        let new = word_lt little (maxmss / 256) (maxmss % 256) hi lo in
        let r =
          adjust_checksum_lem (word little a b) (word little (maxmss / 256) (maxmss % 256)) check
            old new s in
        (
          maxmss / 256 ∷ maxmss % 256 ∷ rest,
          adjust_checksum (pos (word little a b) -ℤ pos (word little (maxmss / 256) (maxmss % 256)))
              check,
          rw large refl,
          record {
            size = refl;
            bytes = (hi, (lo, h.1.1));
            small = r.0;
            sum =
                sum_word (word little a b) (word little (maxmss / 256) (maxmss % 256))
                  (weigh little true rest) check
                  (adjust_checksum
                    (pos (word little a b) -ℤ pos (word little (maxmss / 256) (maxmss % 256)))
                    check)
                  (weigh-word little a b rest)
                  (weigh-word little (maxmss / 256) (maxmss % 256) rest) (r.1);
          },
        ))
]

-- An option that holds a segment size.
abbrev pub is_size : List ℕ → Bool
is_size [] = false
is_size (kind ∷ []) = false
is_size (kind ∷ optlen ∷ bs) = kind == 2 && optlen == 4

-- The last byte of the packet is the kind of an option that has a length.
abbrev pub is_lone : List ℕ → Bool
is_lone [] = false
is_lone (kind ∷ []) = leb 2 kind
is_lone (kind ∷ l ∷ bs) = false

-- What a round that goes on does: it steps over one option, and keeps the sum if a segment size starts
-- a word.
pub record IsStep (little : Bool) (olen : ℕ) (bs : List ℕ) (check : ℕ) (l : ℕ) (bs' : List ℕ)
    (check' : ℕ) : Type 0 where
  pub forward : 0 < l
  pub within : l ≤ olen
  pub kept :
      (even : Bool) → (not (is_size bs) || even) ≡ true → Keeps little even bs check bs' check'

two_before :
    (little : Bool) (k l : ℕ) (bs bs' : List ℕ) (check check' : ℕ)
    → k < 256
    → l < 256
    → Keeps little true bs check bs' check'
    → Keeps little true (k ∷ l ∷ bs) check (k ∷ l ∷ bs') check'
two_before little k l bs bs' check check' h h' p = record {
  size = (let z = p.size in omega arith);
  bytes = (h, (h', p.bytes));
  small = p.small;
  sum =
      sum_before (word little k l) (weigh little true bs) (weigh little true bs') check check'
        (weigh-word little k l bs) (weigh-word little k l bs') p.sum;
}

plain-IsStep :
    (little : Bool) (olen l : ℕ) (bs : List ℕ) (check : ℕ)
    → 0 < l
    → l ≤ olen
    → AreBytes bs
    → check < 2 ^ 16
    → IsStep little olen bs check l bs check
plain-IsStep little olen l bs check f w h s = record {
  forward = f;
  within = w;
  kept = λ even a. unchanged little even bs check h s;
}

starts_word :
    (little even : Bool) {bs bs' : List ℕ} {check check' : ℕ}
    → (not true || even) ≡ true
    → Keeps little true bs check bs' check'
    → Keeps little even bs check bs' check'
starts_word little true a p = p
starts_word little false a p = absurd (cc)

size-IsStep :
    (little : Bool) (maxmss olen k l : ℕ) (bs : List ℕ) (check : ℕ)
    → maxmss < 2 ^ 16
    → 4 ≤ olen
    → olen ≤ length (k ∷ l ∷ bs)
    → AreBytes (k ∷ l ∷ bs)
    → check < 2 ^ 16
    → (k == 2 && l == 4) ≡ true
    → (bs' : List ℕ) × (check' : ℕ) × (clamp little maxmss bs check ≡ some (bs', check'))
      × IsStep little olen (k ∷ l ∷ bs) check 4 (k ∷ l ∷ bs') check'
size-IsStep little maxmss olen k l [] check m g n h s e = absurd (omega arith)
size-IsStep little maxmss olen k l (a ∷ []) check m g n h s e = absurd (omega arith)
size-IsStep little maxmss olen k l (a ∷ b ∷ rest) check m g n h s e =
    let (bs', check', run, kept) = clamp-Keeps little maxmss a b rest check m (h.1.1) s in
    (
      bs',
      check',
      run,
      record {
        forward = omega arith;
        within = g;
        kept = λ even aligned.
            starts_word little even (rw e at aligned)
              (two_before little k l (a ∷ b ∷ rest) bs' check check' h.0 (h.1.0) kept);
      },
    )

long_option-cases :
    (little : Bool) (maxmss olen kind : ℕ) (bs : List ℕ) (check : ℕ)
    → maxmss < 2 ^ 16
    → olen ≤ length (kind ∷ bs)
    → 0 < olen
    → leb 2 kind ≡ true
    → is_lone (kind ∷ bs) ≡ false
    → AreBytes (kind ∷ bs)
    → check < 2 ^ 16
    → (long_option little maxmss olen kind bs check ≡ some stop)
      ⊎ ((l : ℕ) × (bs' : List ℕ) × (check' : ℕ) × (long_option little maxmss olen kind bs check
            ≡ some (next l bs' check'))
          × IsStep little olen (kind ∷ bs) check l bs' check')
unfolding long_option
long_option-cases little maxmss olen kind [] check m n g t a h s = absurd (cc)
long_option-cases little maxmss olen kind (l ∷ bs) check m n g t a h s =
    elim (Bool-cases (l == 0 || ltb olen l)) [
      | inl over ↦ inl (rw over refl)
      | inr inside ↦ elim (Bool-cases (kind == 2 && l == 4)) [
        | inl size ↦
            (let four : 4 ≤ olen = ground arith in
              let e : l ≡ 4 = ground arith in
              let (bs', check', run, step) =
                size-IsStep little maxmss olen kind l bs check m four n h s size in
              inr (
                l,
                kind ∷ l ∷ bs',
                check',
                rw (inside, size, run) refl,
                subst (λ v. IsStep little olen (kind ∷ l ∷ bs) check v (kind ∷ l ∷ bs') check')
                    (sym e) step,
              ))
        | inr other ↦ inr (
          l,
          kind ∷ l ∷ bs,
          check,
          rw (inside, other) refl,
          plain-IsStep little olen l (kind ∷ l ∷ bs) check (ground arith) (ground arith) h s,
        )
      ]
    ]

pub round-cases :
    (little : Bool) (maxmss olen : ℕ) (bs : List ℕ) (check : ℕ)
    → maxmss < 2 ^ 16
    → olen ≤ length bs
    → 0 < olen
    → is_lone bs ≡ false
    → AreBytes bs
    → check < 2 ^ 16
    → (round little maxmss olen bs check ≡ some stop)
      ⊎ ((l : ℕ) × (bs' : List ℕ) × (check' : ℕ) × (round little maxmss olen bs check
            ≡ some (next l bs' check'))
          × IsStep little olen bs check l bs' check')
unfolding round
round-cases little maxmss olen [] check m n g a h s = absurd (omega arith)
round-cases little maxmss olen (kind ∷ bs) check m n g a h s = elim (Bool-cases (kind == 0)) [
  | inl ends ↦ inl (rw ends refl)
  | inr goes ↦ elim (Bool-cases (kind == 1)) [
    | inl nop ↦ inr (
      1,
      kind ∷ bs,
      check,
      rw (goes, nop) refl,
      plain-IsStep little olen 1 (kind ∷ bs) check (omega arith) g h s,
    )
    | inr long ↦
        elim (long_option-cases little maxmss olen kind bs check m n g (ground arith) a h s) [
          | inl ends ↦ inl (rw (goes, long) ends)
          | inr (l, bs', check', run, step) ↦ inr (l, bs', check', rw (goes, long) run, step)
        ]
  ]
]
