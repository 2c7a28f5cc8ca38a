-- ===== src/Buffer/Numbers.antt =====
-- Numbers in a buffer: what is written in network order is read back.
use par_diff_vpn.Prelude.{
  ℕ, ◌+◌, ◌^◌, ◌<◌, ◌≡◌, refl, some, List, [], ◌∷◌, ◌++◌, length, take, drop, arith, ap, sym, ◌∙◌,
  length-append,
}
use par_diff_vpn.Buffer.{Buffer, contents, read, be16, be32, from_be, read_u8, read_u16, read_u32}
use par_diff_vpn.Buffer.Contents.{IsValid, read_fits, length-contents}

pub take-append_self {ℓ} : {A : Type ℓ} (xs ys : List A) → take (length xs) (xs ++ ys) ≡ xs
take-append_self [] ys = refl
take-append_self (x ∷ xs) ys = ap (λ t. x ∷ t) (take-append_self xs ys)

pub drop-append_self {ℓ} : {A : Type ℓ} (xs ys : List A) → drop (length xs) (xs ++ ys) ≡ ys
drop-append_self [] ys = refl
drop-append_self (x ∷ xs) ys = drop-append_self xs ys

-- A buffer that starts with `xs` gives `xs`, and keeps the rest.
pub read-append :
    (xs rest : List ℕ) (b : Buffer)
    → IsValid b
    → contents b ≡ xs ++ rest
    → (b' : Buffer) × (read (length xs) b ≡ some (xs, b'))
      × IsValid b'
      × (contents b' ≡ rest)
      × (b'.len ≡ length rest)
read-append xs rest b (d, v) e =
    let size : b.len ≡ length xs + length rest =
      sym (length-contents v) ∙ ap length e ∙ length-append xs rest in
    let (b', eq, over, c, o, l, k) = read_fits (length xs) b v (omega arith) in
    (
      b',
      eq ∙ ap (λ t. some (t, b')) (ap (λ t. take (length xs) t) e ∙ take-append_self xs rest),
      (d, over),
      c ∙ ap (λ t. drop (length xs) t) e ∙ drop-append_self xs rest,
      omega arith,
    )

from_be-be32 : (x : ℕ) → x < 2 ^ 32 → from_be (be32 x) 0 ≡ x
from_be-be32 x h = omega arith

-- In a valid buffer whose contents start with the four bytes of a number below 2 ^ 32,
-- buf_read_u32 gives the number and leaves the rest.
pub read_u32-append :
    (x : ℕ) (rest : List ℕ) (b : Buffer)
    → x < 2 ^ 32
    → IsValid b
    → contents b ≡ be32 x ++ rest
    → (b' : Buffer) × (read_u32 b ≡ some (x, b')) × IsValid b' × (contents b' ≡ rest)
unfolding read_u32
read_u32-append x rest b h v e =
    let (b', eq, valid, c, _) = read-append (be32 x) rest b v e in
    (b', rw eq (ap (λ t. some (t, b')) (from_be-be32 x h)), valid, c)

pub read_u16-append :
    (x : ℕ) (rest : List ℕ) (b : Buffer)
    → x < 2 ^ 16
    → IsValid b
    → contents b ≡ be16 x ++ rest
    → (b' : Buffer) × (read_u16 b ≡ some (x, b')) × IsValid b' × (contents b' ≡ rest)
unfolding read_u16
read_u16-append x rest b h v e =
    let (b', eq, valid, c, _) = read-append (be16 x) rest b v e in
    (b', rw eq (ap (λ t. some (t, b')) (omega arith)), valid, c)

pub read_u8-append :
    (x : ℕ) (rest : List ℕ) (b : Buffer)
    → IsValid b
    → contents b ≡ x ∷ rest
    → (b' : Buffer) × (read_u8 b ≡ some (x, b')) × IsValid b' × (contents b' ≡ rest)
unfolding read_u8
read_u8-append x rest b v e =
    let (b', eq, valid, c, _) = read-append (x ∷ []) rest b v e in
    (b', rw eq (ap (λ t. some (t, b')) (omega arith)), valid, c)
