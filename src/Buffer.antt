-- ===== src/Buffer.antt =====
-- src/openvpn-2.1.1/buffer.h and buffer.c: the buffer that packets are built and parsed in.
-- A byte is a number below 256. Capacities, offsets and lengths are never negative here, so the
-- source's tests against 0 hold and are left out; where a caller may pass a negative length the
-- argument is an integer. An operation that returns false or NULL leaves its buffer as it was and
-- is `none`; the three that may have changed a buffer before they return false give the result and
-- the buffers in every case. A multi-byte number is written in network order.
pub mod Splice
pub mod Bytes
pub mod Contents
pub mod Numbers
pub mod Tests
use par_diff_vpn.Prelude.{
  ℕ, zero, suc, ◌+◌, ◌-◌, ◌*◌, ◌/◌, ◌%◌, ◌^◌, Bool, true, false, not, ◌&&◌, ◌||◌, Option, none,
  some, guard, ◌>>=◌, ◌>>◌, ltb, leb, ◌==◌, if◌then◌else◌, List, [], ◌∷◌, length, take, drop,
  replicate,
}
use par_diff_vpn.Prelude.Int.{ℤ, pos, negsuc, pos_part, ◌+ℤ◌, ltb_ℤ}

-- struct buffer; `bytes` is the memory that `data` points to, `none` for NULL.
pub record Buffer : Type 0 where
  pub capacity : ℕ
  pub offset : ℕ
  pub len : ℕ
  pub bytes : Option (List ℕ)

abbrev pub buf_size_max : ℕ
buf_size_max = 1000000

-- memcpy of `src` into the memory from `place` on. Outside the memory nothing is written.
unfoldable pub splice : List ℕ → ℕ → List ℕ → List ℕ
splice [] place src = []
splice (x ∷ d) zero [] = x ∷ d
splice (x ∷ d) zero (y ∷ src) = y ∷ splice d zero src
splice (x ∷ d) (suc place) src = x ∷ splice d place src

-- The `n` bytes of the memory from `place` on.
abbrev pub slice : List ℕ → ℕ → ℕ → List ℕ
slice d place n = take n (drop place d)

-- buf_defined
abbrev pub defined : Buffer → Bool
defined b = elim b.bytes [ none ↦ false | some d ↦ true ]

-- alloc_buf; memory is zeroed here, which the source does not promise but for the first byte.
unfoldable pub alloc : ℕ → Option Buffer
alloc size = do
  guard (ltb size buf_size_max)
  some (record { capacity = size; offset = 0; len = 0; bytes = some (replicate size 0) })

-- buf_init_dowork
unfoldable pub init : ℕ → Buffer → Option Buffer
init offset b =
    if ltb b.capacity offset || not (defined b)
    then none
    else some (record b { len = 0; offset = offset })

-- buf_set_read
unfoldable pub set_read : List ℕ → Option Buffer
set_read src = do
  guard (ltb (length src) buf_size_max)
  some (record { capacity = length src; offset = 0; len = length src; bytes = some src })

-- buf_safe
unfoldable pub safe : Buffer → ℕ → Bool
safe b n = defined b && ltb n buf_size_max && leb (b.offset + b.len + n) b.capacity

-- buf_safe_bidir
unfoldable pub safe_bidir : Buffer → ℤ → Bool
unfolding ◌+ℤ◌
safe_bidir b n =
    let newlen = pos b.len +ℤ n in
    defined b
    && not (ltb_ℤ n (negsuc (buf_size_max - 1)))
    && ltb_ℤ n (pos buf_size_max)
    && not (ltb_ℤ newlen (pos 0))
    && leb (b.offset + pos_part newlen) b.capacity

-- buf_inc_len
unfoldable pub inc_len : ℤ → Buffer → Option Buffer
unfolding safe_bidir ◌+ℤ◌
inc_len n b = if safe_bidir b n then some (record b { len = pos_part (pos b.len +ℤ n) }) else none

-- buf_forward_capacity
unfoldable pub forward_capacity : Buffer → ℕ
forward_capacity b = if defined b then b.capacity - (b.offset + b.len) else 0

-- buf_reverse_capacity
unfoldable pub reverse_capacity : Buffer → ℕ
reverse_capacity b = if defined b then b.offset else 0

-- buf_prepend: the place of the new bytes, and the buffer that holds them.
unfoldable pub prepend : ℕ → Buffer → Option (ℕ × Buffer)
prepend n b =
    if not (defined b) || ltb b.offset n
    then none
    else some (b.offset - n, record b { offset = b.offset - n; len = b.len + n })

-- buf_advance
unfoldable pub advance : ℕ → Buffer → Option Buffer
advance n b =
    if not (defined b) || ltb b.len n
    then none
    else some (record b { offset = b.offset + n; len = b.len - n })

-- buf_write_alloc
unfoldable pub write_alloc : ℕ → Buffer → Option (ℕ × Buffer)
unfolding safe
write_alloc n b = if safe b n then some (b.offset + b.len, record b { len = b.len + n }) else none

-- buf_write_alloc_prepend
unfoldable pub write_alloc_prepend : Bool → ℕ → Buffer → Option (ℕ × Buffer)
unfolding prepend write_alloc
write_alloc_prepend before n b = if before then prepend n b else write_alloc n b

-- buf_read_alloc
unfoldable pub read_alloc : ℕ → Buffer → Option (ℕ × Buffer)
read_alloc n b =
    if ltb b.len n || not (defined b)
    then none
    else some (b.offset, record b { offset = b.offset + n; len = b.len - n })

-- memcpy to a place of the buffer's memory
unfoldable pub fill : ℕ × Buffer → List ℕ → Option Buffer
fill (place, b) src = do d ← b.bytes; some (record b { bytes = some (splice d place src) })

-- buf_write
unfoldable pub write : List ℕ → Buffer → Option Buffer
unfolding write_alloc fill
write src b = do r ← write_alloc (length src) b; fill r src

-- buf_write_prepend
unfoldable pub write_prepend : List ℕ → Buffer → Option Buffer
unfolding prepend fill
write_prepend src b = do r ← prepend (length src) b; fill r src

-- buf_read: the bytes read, and the buffer after them.
unfoldable pub read : ℕ → Buffer → Option (List ℕ × Buffer)
unfolding read_alloc
read n b = do r ← read_alloc n b; d ← b.bytes; some (slice d r.0 n, r.1)

-- The bytes of a buffer, BPTR and BLEN of them.
unfoldable pub contents : Buffer → List ℕ
contents b = elim b.bytes [ none ↦ [] | some d ↦ slice d b.offset b.len ]

-- buf_copy
unfoldable pub copy : Buffer → Buffer → Option Buffer
unfolding write contents
copy dest src = write (contents src) dest

-- buf_copy_n: the result, the destination and the source after it. A source that was read stays read
-- if the destination has no room.
unfoldable pub copy_n : Buffer → Buffer → ℕ → Bool × Buffer × Buffer
unfolding read write
copy_n dest src n = elim (read n src) [
  | none ↦ (false, dest, src)
  | some (bytes, src') ↦ elim (write bytes dest) [
    | none ↦ (false, dest, src')
    | some dest' ↦ (true, dest', src')
  ]
]

-- buf_copy_range
unfoldable pub copy_range : Buffer → ℕ → Buffer → ℕ → ℕ → Option Buffer
copy_range dest dest_index src src_index src_len =
    if ltb src.len (src_index + src_len) || ltb dest.capacity (dest.offset + dest_index + src_len)
    then none
    else do
      s ← src.bytes
      d ← dest.bytes
      some (record dest {
        bytes =
            some (splice d (dest.offset + dest_index) (slice s (src.offset + src_index) src_len));
        len = if ltb dest.len (dest_index + src_len) then dest_index + src_len else dest.len;
      })

-- buf_assign: the result and the destination, which is emptied even if the source does not fit.
unfoldable pub assign : Buffer → Buffer → Bool × Buffer
unfolding init write contents
assign dest src = elim (init src.offset dest) [
  | none ↦ (false, dest)
  | some b ↦ elim (write (contents src) b) [ none ↦ (false, b) | some b' ↦ (true, b') ]
]

-- buf_copy_excess: the result, the destination, and the source, which is truncated even if the excess
-- does not fit.
unfoldable pub copy_excess : Buffer → Buffer → ℕ → Bool × Buffer × Buffer
unfolding advance copy
copy_excess dest src n =
    let truncated = record src { len = n } in
    if ltb n src.len
    then elim (advance n src) [
      | none ↦ (false, dest, truncated)
      | some b ↦ elim (copy dest b) [
        | none ↦ (false, dest, truncated)
        | some dest' ↦ (true, dest', truncated)
      ]
    ]
    else (true, dest, src)

-- htons and htonl of a number, as the bytes in memory.
abbrev pub be16 : ℕ → List ℕ
be16 x = x / 2 ^ 8 % 256 ∷ x % 256 ∷ []

abbrev pub be32 : ℕ → List ℕ
be32 x = x / 2 ^ 24 % 256 ∷ x / 2 ^ 16 % 256 ∷ x / 2 ^ 8 % 256 ∷ x % 256 ∷ []

-- ntohs and ntohl of bytes in memory
abbrev pub from_be : List ℕ → ℕ → ℕ
from_be [] acc = acc
from_be (x ∷ xs) acc = from_be xs (acc * 256 + x)

-- buf_write_u8, buf_write_u16, buf_write_u32
unfoldable pub write_u8 : ℕ → Buffer → Option Buffer
write_u8 x b = write (x % 256 ∷ []) b

unfoldable pub write_u16 : ℕ → Buffer → Option Buffer
write_u16 x b = write (be16 x) b

unfoldable pub write_u32 : ℕ → Buffer → Option Buffer
write_u32 x b = write (be32 x) b

-- buf_read_u8, buf_read_u16, buf_read_u32; `none` is the result -1, or `good` set to false.
unfoldable pub read_u8 : Buffer → Option (ℕ × Buffer)
read_u8 b = do r ← read 1 b; some (from_be r.0 0, r.1)

unfoldable pub read_u16 : Buffer → Option (ℕ × Buffer)
read_u16 b = do r ← read 2 b; some (from_be r.0 0, r.1)

unfoldable pub read_u32 : Buffer → Option (ℕ × Buffer)
read_u32 b = do r ← read 4 b; some (from_be r.0 0, r.1)
