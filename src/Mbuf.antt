-- ===== src/Mbuf.antt =====
-- src/openvpn-2.1.1/mbuf.c and mbuf.h: the queue of packets that go to several clients, whose
-- buffers are shared and counted. A struct mbuf_buffer is named by its address, and the memory gives
-- the reference count at each address, 0 for one that is free; a struct multi_instance is a number.
-- The capacity is a power of two, so that the mask of MBUF_INDEX is a remainder. `none` is a
-- failed ASSERT or an access to a buffer that is free or NULL. The mutex is left out.
pub mod Ring
pub mod Extract
pub mod Counts
pub mod Add
pub mod Drop
pub mod Tests
use par_diff_vpn.Misc.{adjust_power_of_2}
use par_diff_vpn.Prelude.{
  ℕ, zero, suc, ◌+◌, ◌-◌, ◌*◌, ◌%◌, ◌^◌, Bool, true, false, not, ◌&&◌, Option, none, some, List, [],
  ◌∷◌, guard, ◌>>=◌, ◌>>◌, ltb, leb, ◌==◌, if◌then◌else◌, get_elem?, set, replicate, max,
}

-- struct mbuf_item, with `mi` for the field `instance`
pub record Item : Type 0 where
  pub buffer : Option ℕ
  pub mi : Option ℕ

-- struct mbuf_set
pub record MbufSet : Type 0 where
  pub head : ℕ
  pub len : ℕ
  pub capacity : ℕ
  pub max_queued : ℕ
  pub array : List Item

abbrev pub Memory : Type 0
Memory = ℕ → ℕ

abbrev pub write : Memory → ℕ → ℕ → Memory
write s b n x = if x == b then n else s x

abbrev pub is_some : Option ℕ → Bool
is_some none = false
is_some (some x) = true

-- MBUF_INDEX
abbrev pub index : ℕ → ℕ → ℕ → ℕ
index head offset size = (head + offset) % size

-- mbuf_init; the array is not cleared, and its items stand for anything.
unfoldable pub init : ℕ → Option MbufSet
unfolding adjust_power_of_2
init size = do
  capacity ← adjust_power_of_2 size
  some (record {
    head = 0;
    len = 0;
    capacity = capacity;
    max_queued = 0;
    array = replicate capacity (record { buffer = none; mi = none });
  })

-- mbuf_alloc_buf, at an address that is free
unfoldable pub alloc_buf : Memory → ℕ → Memory
alloc_buf s b = write s b 1

-- mbuf_free_buf
unfoldable pub free_buf : Memory → Option ℕ → Option Memory
free_buf s none = some s
free_buf s (some b) = do guard (ltb 0 (s b)); some (write s b (s b - 1))

-- The loop of mbuf_extract_item, with `n` items to go.
unfoldable pub extract_from : ℕ → MbufSet → Option (Option Item × MbufSet)
extract_from zero ms = some (none, ms)
extract_from (suc n) ms = do
  item ← get_elem? ms.array ms.head
  let ms' = record ms { head = index ms.head 1 ms.capacity; len = ms.len - 1 }
  elim (is_some item.mi) [ true ↦ some (some item, ms') | false ↦ extract_from n ms' ]

-- mbuf_extract_item: the item, if it returns true.
unfoldable pub extract_item : MbufSet → Option (Option Item × MbufSet)
extract_item ms = extract_from ms.len ms

-- The part of mbuf_add_item for a full queue.
unfoldable pub make_room : MbufSet → Memory → Option (MbufSet × Memory)
unfolding extract_item
make_room ms s =
    if ms.len == ms.capacity
    then (do r ← extract_item ms; rm ← r.0; s' ← free_buf s rm.buffer; some (r.1, s'))
    else some (ms, s)

-- mbuf_add_item
unfoldable pub add_item : MbufSet → Memory → Item → Option (MbufSet × Memory)
unfolding make_room
add_item ms s item = do
  r ← make_room ms s
  guard (ltb (r.0).len (r.0).capacity)
  b ← item.buffer
  guard (ltb 0 ((r.1) b))
  some (
    record (r.0) {
      array = set (r.0).array (index (r.0).head (r.0).len (r.0).capacity) item;
      len = (r.0).len + 1;
      max_queued = max ((r.0).len + 1) (r.0).max_queued;
    },
    write (r.1) b ((r.1) b + 1),
  )

-- The loop of mbuf_peek_dowork, with `n` items to go from the index `i` on.
unfoldable pub peek_from : ℕ → ℕ → MbufSet → Option (Option ℕ)
peek_from zero i ms = some none
peek_from (suc n) i ms = do
  item ← get_elem? ms.array (index ms.head i ms.capacity)
  elim item.mi [ none ↦ peek_from n (i + 1) ms | some m ↦ some (some m) ]

-- mbuf_peek
unfoldable pub peek : MbufSet → Option (Option ℕ)
unfolding peek_from
peek ms = if ms.len == 0 then some none else peek_from ms.len 0 ms

abbrev pub names : ℕ → Item → Bool
names m item = elim item.mi [ none ↦ false | some m' ↦ m' == m ]

-- The body of the loop of mbuf_dereference_instance, for the item at a place of the array.
unfoldable pub clear_item : ℕ → ℕ → Item → MbufSet → Memory → Option (MbufSet × Memory)
unfolding free_buf
clear_item m place item ms s = elim (names m item) [
  | false ↦ some (ms, s)
  | true ↦ (do
    s' ← free_buf s item.buffer
    some (record ms { array = set ms.array place (record { buffer = none; mi = none }) }, s'))
]

-- The loop of mbuf_dereference_instance, with `n` items to go from the index `i` on.
unfoldable pub dereference_from : ℕ → ℕ → ℕ → MbufSet → Memory → Option (MbufSet × Memory)
unfolding clear_item
dereference_from zero i m ms s = some (ms, s)
dereference_from (suc n) i m ms s = do
  item ← get_elem? ms.array (index ms.head i ms.capacity)
  r ← clear_item m (index ms.head i ms.capacity) item ms s
  dereference_from n (i + 1) m (r.0) (r.1)

-- mbuf_dereference_instance
unfoldable pub dereference_instance : ℕ → MbufSet → Memory → Option (MbufSet × Memory)
unfolding dereference_from
dereference_instance m ms s = dereference_from ms.len 0 m ms s
