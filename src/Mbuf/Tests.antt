-- ===== src/Mbuf/Tests.antt =====
-- The theorems on the packet queue at concrete queues.
use par_diff_vpn.Prelude.{
  ℕ, ◌<◌, ◌≡◌, refl, none, some, List, [], ◌∷◌, ◌++◌, map, arith, ◌⊎◌, if◌then◌else◌, ◌==◌,
}
use par_diff_vpn.Mbuf.{
  Item, MbufSet, Memory, add_item, extract_item, extract_from, dereference_instance,
}
use par_diff_vpn.Mbuf.Ring.{IsQueue}
use par_diff_vpn.Mbuf.Extract.{take_live, extract_item_refines}
use par_diff_vpn.Mbuf.Counts.{IsCounted, AreLinked}
use par_diff_vpn.Mbuf.Add.{add_item_lem}
use par_diff_vpn.Mbuf.Drop.{cleared, dereference_instance_lem}

-- The packet at `b` for the client `m`.
abbrev item_for : ℕ → ℕ → Item
item_for b m = record { buffer = some b; mi = some m }

abbrev gone : Item
gone = record { buffer = none; mi = none }

-- Two clients, 7 and 8, and two packets, at 1 and 2; the queue goes round the end of the array.
abbrev queued : List Item
queued = item_for 1 7 ∷ item_for 1 8 ∷ item_for 2 7 ∷ []

abbrev queue : MbufSet
queue = record {
  head = 3;
  len = 3;
  capacity = 4;
  max_queued = 3;
  array = item_for 1 8 ∷ item_for 2 7 ∷ gone ∷ item_for 1 7 ∷ [];
}

queue-IsQueue : IsQueue queue queued
queue-IsQueue = record {
  nonempty = omega arith;
  head_in = omega arith;
  size = refl;
  fits = omega arith;
  storage = refl;
  items = (refl, (refl, (refl, tt)));
}

-- The caller holds the packet at 2.
abbrev held : ℕ → ℕ
held b = if b == 2 then 1 else 0

abbrev memory : Memory
memory b = if b == 1 then 2 else if b == 2 then 2 else 0

memory-IsCounted : IsCounted held memory queued
memory-IsCounted b = ground arith

extract_item_refines_example :
    (ms' : MbufSet) × (extract_item queue ≡ some ((take_live queued).0, ms'))
    × IsQueue ms' ((take_live queued).1)
    × (ms'.capacity ≡ 4)
extract_item_refines_example = extract_item_refines queued queue queue-IsQueue

add_item_lem_example :
    ((3 < 4)
      × (ms' : MbufSet) × (s' : Memory) × (add_item queue memory (item_for 2 8) ≡ some (ms', s'))
      × IsQueue ms' (queued ++ (item_for 2 8 ∷ []))
      × IsCounted held s' (queued ++ (item_for 2 8 ∷ []))
      × AreLinked (queued ++ (item_for 2 8 ∷ [])))
    ⊎ ((◌≡◌ {A = ℕ} 3 4)
        × (rm : Item) × (ms' : MbufSet) × (s' : Memory) × ((take_live queued).0 ≡ some rm)
        × (add_item queue memory (item_for 2 8) ≡ some (ms', s'))
        × IsQueue ms' ((take_live queued).1 ++ (item_for 2 8 ∷ []))
        × IsCounted held s' ((take_live queued).1 ++ (item_for 2 8 ∷ []))
        × AreLinked ((take_live queued).1 ++ (item_for 2 8 ∷ [])))
    ⊎ ((◌≡◌ {A = ℕ} 3 4)
        × ((take_live queued).0 ≡ none)
        × (add_item queue memory (item_for 2 8) ≡ none))
add_item_lem_example =
    add_item_lem held queued queue memory (item_for 2 8) 2 queue-IsQueue (refl, (refl, (refl, tt)))
      memory-IsCounted refl refl (omega arith)

-- A full queue whose clients have all gone, and a packet for another one.
abbrev abandoned : MbufSet
abandoned = record { head = 0; len = 2; capacity = 2; max_queued = 2; array = gone ∷ gone ∷ [] }

add_item_fails : add_item abandoned memory (item_for 2 8) ≡ none
unfolding add_item extract_item extract_from
add_item_fails = refl

dereference_instance_lem_example :
    (ms' : MbufSet) × (s' : Memory) × (dereference_instance 7 queue memory ≡ some (ms', s'))
    × IsQueue ms' (map (cleared 7) queued)
    × IsCounted held s' (map (cleared 7) queued)
dereference_instance_lem_example =
    dereference_instance_lem held 7 queued queue memory queue-IsQueue memory-IsCounted
