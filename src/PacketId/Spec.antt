-- ===== src/PacketId/Spec.antt =====
-- An independent description of the sliding window: which packets are new, told from the list of
-- the packets accepted so far and no other state.
use par_diff_vpn.Prelude.{
  ℕ, ◌-◌, Bool, false, not, ◌&&◌, ◌||◌, List, [], ◌∷◌, ltb, ◌==◌, if◌then◌else◌,
}
use par_diff_vpn.PacketId.{Net, Arrival}

-- The packet with the highest time, and among those the highest id.
unfoldable pub top : List Net → Net
top [] = record { id = 0; time = 0 }
top (n ∷ h) =
    let t = top h in
    if ltb t.time n.time then n else if (t.time == n.time) && ltb t.id n.id then n else t

unfoldable pub seen : List Net → ℕ → ℕ → Bool
seen [] time id = false
seen (n ∷ h) time id = (n.time == time) && (n.id == id) || seen h time id

-- New: later than all that was accepted, or ahead of it, or within the last `window` ids and not
-- accepted yet.
unfoldable pub accepts : ℕ → List Net → Net → Bool
accepts window h pin =
    let t = top h in
    not (pin.id == 0)
    && (ltb t.time pin.time
        || (t.time == pin.time)
          && (ltb t.id pin.id || ltb (t.id - pin.id) window && not (seen h pin.time pin.id)))

-- The accepted packets, newest first, after the traffic that follows `h`.
unfoldable pub history : ℕ → List Net → List Arrival → List Net
history window h [] = h
history window h (a ∷ rest) = history window (if accepts window h a.pin then a.pin ∷ h else h) rest
