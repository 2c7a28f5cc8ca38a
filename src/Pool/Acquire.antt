-- ===== src/Pool/Acquire.antt =====
-- ifconfig_pool_acquire and ifconfig_pool_release: which entries are in use.
use par_diff_vpn.Prelude.{
  ℕ, zero, suc, ◌≡◌, ◌≢◌, sym, Bool, true, false, Option, none, some, List, [], ◌∷◌, get_elem?,
  get_elem?-set_self, get_elem?-set_ne, set, length, Option-cases, inl, inr, ◌⊎◌, arith, ◌<◌,
}
use par_diff_vpn.Pool.{Pool, Entry, find, acquire, release, taken, addresses, entry_free}
use par_diff_vpn.Pool.Find.{find-IsFree}

get_elem-bound : (es : List Entry) (i : ℕ) {e : Entry} → get_elem? es i ≡ some e → i < length es
get_elem-bound [] i h = absurd (cc)
get_elem-bound (x ∷ es) zero h = omega arith
get_elem-bound (x ∷ es) (suc i) h = let rest = get_elem-bound es i h in omega arith

-- ifconfig_pool_acquire never fails its ASSERT. It returns -1 with the pool as it was, when
-- ifconfig_pool_find finds nothing, or the handle of an entry that was free, with its addresses;
-- that entry is then in use under the name, and no other entry has changed.
pub acquire_lem :
    (pool : Pool) (name : Option (List ℕ))
    → ((find pool name ≡ none) × (acquire pool name ≡ some (none, pool)))
      ⊎ ((i : ℕ) × (e : Entry) × (pool' : Pool) × (find pool name ≡ some i)
          × (get_elem? pool.list i ≡ some e)
          × (e.in_use ≡ false)
          × (acquire pool name ≡ some (some (i, (addresses pool i).0, (addresses pool i).1), pool'))
          × (get_elem? pool'.list i ≡ some (taken name e))
          × ((j : ℕ) → j ≢ i → get_elem? pool'.list j ≡ get_elem? pool.list j))
unfolding acquire
acquire_lem pool name = elim (Option-cases (find pool name)) [
  | inl nothing ↦ inl (nothing, rw (acquire, nothing))
  | inr (i, found) ↦
      (let (e, g, f, _) = find-IsFree pool name {i = i} found in
        let pool' : Pool = record pool { list = set pool.list i (taken name e) } in
        let done : acquire pool name
            ≡ some (some (i, (addresses pool i).0, (addresses pool i).1), pool') =
          rw (acquire, found, g, f) in
        inr (
          i,
          e,
          pool',
          found,
          g,
          f,
          done,
          get_elem?-set_self pool.list i (taken name e) (get_elem-bound pool.list i g),
          λ j ne. get_elem?-set_ne pool.list (taken name e) (λ same. ne (sym same)),
        ))
]

-- Releasing the handle of an entry returns true, frees that entry, and changes no other.
pub release_lem :
    (now : ℕ) (pool : Pool) (i : ℕ) (hard : Bool) (e : Entry)
    → get_elem? pool.list i ≡ some e
    → (pool' : Pool) × (release now pool (some i) hard ≡ (true, pool'))
      × (get_elem? pool'.list i ≡ some (entry_free now hard e))
      × ((j : ℕ) → j ≢ i → get_elem? pool'.list j ≡ get_elem? pool.list j)
unfolding release
release_lem now pool i hard e g = (
  record pool { list = set pool.list i (entry_free now hard e) },
  rw (release, g),
  get_elem?-set_self pool.list i (entry_free now hard e) (get_elem-bound pool.list i g),
  λ j ne. get_elem?-set_ne pool.list (entry_free now hard e) (λ same. ne (sym same)),
)
