-- ===== src/CircList/Laws.antt =====
-- The circular list as the sequence of its items, newest first: on a well-formed list no macro
-- fails, and each has the effect on the items that its name promises.
use par_diff_vpn.Prelude.{
  ℕ, zero, suc, ◌+◌, ◌≤◌, ◌<◌, ◌≡◌, ◌≢◌, refl, some, arith, length, get_elem?_total, sym, ◌∙◌,
  get_elem?, set, length-set, get_elem?-set_self, get_elem?-set_ne, min, length-replicate,
}
use par_diff_vpn.Integer.Laws.{
  forward, backward, modulo_add-forward, modulo_add-backward, index_verify_within,
}
use par_diff_vpn.CircList.{CircList, push, index, item, set_item, reset, alloc}

pub record IsValid {ℓ} {A : Type ℓ} (c : CircList A) : Type 0 where
  pub nonempty_cap : 0 < c.x_cap
  pub head_in : c.x_head < c.x_cap
  pub size_in : c.x_size ≤ c.x_cap
  pub storage : length c.x_list ≡ c.x_cap

backward-lt : (h n : ℕ) → h < n → backward h n < n
backward-lt zero n h = omega arith
backward-lt (suc k) n h = omega arith

forward-lt : (h i n : ℕ) → h < n → i ≤ n → forward h i n < n
forward-lt h i n p q = ground arith

forward_injective : (h i j n : ℕ) → h < n → i < n → j < n → i ≢ j → forward h i n ≢ forward h j n
forward_injective h i j n p q r ne = ground arith

-- One step on from the place before `h` is `h`; so for all the places that follow.
forward-backward :
    (h i n : ℕ) → h < n → suc i < n → forward (backward h n) (suc i) n ≡ forward h i n
forward-backward zero i n p q = ground arith
forward-backward (suc h) i n p q = ground arith

forward-ne-backward : (h i n : ℕ) → h < n → suc i < n → forward h i n ≢ backward h n
forward-ne-backward zero i n p q = ground arith
forward-ne-backward (suc h) i n p q = ground arith

forward_zero : (h n : ℕ) → h < n → forward h 0 n ≡ h
forward_zero h n p = ground arith

module _ {ℓ} {A : Type ℓ} where
  -- The list that `push` leaves.
  abbrev pub pushed : CircList A → A → CircList A
  pushed c v = record c {
    x_head = backward c.x_head c.x_cap;
    x_list = set c.x_list (backward c.x_head c.x_cap) v;
    x_size = min (c.x_size + 1) c.x_cap;
  }

  abbrev pub stored : CircList A → ℕ → A → CircList A
  stored c i v = record c { x_list = set c.x_list (forward c.x_head i c.x_cap) v }

  pub push_lem : (c : CircList A) (v : A) → IsValid c → push c v ≡ some (pushed c v)
  unfolding push
  push_lem c v ok = ground (
    arith,
    modulo_add-backward c.x_head c.x_cap ok.head_in,
    backward-lt c.x_head c.x_cap ok.head_in,
  )

  pub pushed-IsValid : (c : CircList A) (v : A) → IsValid c → IsValid (pushed c v)
  pushed-IsValid c v ok = ground (
    arith,
    backward-lt c.x_head c.x_cap ok.head_in,
    length-set c.x_list (backward c.x_head c.x_cap) v,
  )

  pub index_lem :
      (c : CircList A) (i : ℕ)
      → IsValid c
      → i < c.x_size
      → index c i ≡ some (forward c.x_head i c.x_cap)
  unfolding index
  index_lem c i ok h =
      ground
        (arith, index_verify_within i c.x_size h, modulo_add-forward c.x_head i c.x_cap ok.head_in)

  pub item_lem :
      (c : CircList A) (i : ℕ)
      → IsValid c
      → i < c.x_size
      → item c i ≡ get_elem? c.x_list (forward c.x_head i c.x_cap)
  unfolding item
  item_lem c i ok h = rw (index_lem c i ok h)

  pub item_total :
      (c : CircList A) (i : ℕ) → IsValid c → i < c.x_size → (a : A) × (item c i ≡ some a)
  item_total c i ok h =
      let k = forward c.x_head i c.x_cap in
      let (a, e) =
        get_elem?_total c.x_list k
          (omega (arith, forward-lt c.x_head i c.x_cap ok.head_in, ok.storage, ok.size_in)) in
      (a, item_lem c i ok h ∙ e)

  pub item-pushed_zero : (c : CircList A) (v : A) → IsValid c → item (pushed c v) 0 ≡ some v
  item-pushed_zero c v ok =
      item_lem (pushed c v) 0 (pushed-IsValid c v ok) (omega (arith, ok.nonempty_cap))
      ∙ (rw (forward_zero (backward c.x_head c.x_cap) c.x_cap (backward-lt _ _ ok.head_in)) (
          get_elem?-set_self c.x_list (backward c.x_head c.x_cap) v
            (rw ok.storage (backward-lt _ _ ok.head_in))))

  pub item-pushed-suc :
      (c : CircList A) (v : A) (i : ℕ)
      → IsValid c
      → suc i < (pushed c v).x_size
      → item (pushed c v) (suc i) ≡ item c i
  item-pushed-suc c v i ok h =
      item_lem (pushed c v) (suc i) (pushed-IsValid c v ok) h
      ∙ (rw (forward-backward c.x_head i c.x_cap ok.head_in (omega arith)) (
          get_elem?-set_ne c.x_list v
            (λ e. forward-ne-backward c.x_head i c.x_cap ok.head_in (omega arith) (sym e))))
      ∙ sym (item_lem c i ok (omega arith))

  pub set_item_lem :
      (c : CircList A) (i : ℕ) (v : A)
      → IsValid c
      → i < c.x_size
      → set_item c i v ≡ some (stored c i v)
  unfolding set_item
  set_item_lem c i v ok h = ground (
    arith,
    index_verify_within i c.x_size h,
    modulo_add-forward c.x_head i c.x_cap ok.head_in,
    forward-lt c.x_head i c.x_cap ok.head_in,
  )

  pub stored-IsValid : (c : CircList A) (i : ℕ) (v : A) → IsValid c → IsValid (stored c i v)
  stored-IsValid c i v ok = ground (arith, length-set c.x_list (forward c.x_head i c.x_cap) v)

  pub item-stored_self :
      (c : CircList A) (i : ℕ) (v : A) → IsValid c → i < c.x_size → item (stored c i v) i ≡ some v
  item-stored_self c i v ok h =
      item_lem (stored c i v) i (stored-IsValid c i v ok) h
      ∙ get_elem?-set_self c.x_list (forward c.x_head i c.x_cap) v
          (rw ok.storage (forward-lt _ _ _ ok.head_in (omega (arith, ok.size_in))))

  pub item-stored_ne :
      (c : CircList A) (i j : ℕ) (v : A)
      → IsValid c
      → i < c.x_size
      → j < c.x_size
      → i ≢ j
      → item (stored c i v) j ≡ item c j
  item-stored_ne c i j v ok hi hj ne =
      item_lem (stored c i v) j (stored-IsValid c i v ok) hj
      ∙ get_elem?-set_ne c.x_list v (
          forward_injective c.x_head i j c.x_cap ok.head_in (omega (arith, ok.size_in))
            (omega (arith, ok.size_in)) ne)
      ∙ sym (item_lem c j ok hj)

  pub reset-IsValid : (c : CircList A) → IsValid c → IsValid (reset c)
  unfolding reset
  reset-IsValid c ok = ground arith

  pub alloc-IsValid : (z : A) (n : ℕ) → 0 < n → IsValid (alloc z n)
  unfolding alloc
  alloc-IsValid z n h = ground (arith, length-replicate n z)

  -- A push on a well-formed list never fails: the new item is the newest, every item still within
  -- the capacity moves one place back, and the oldest falls off when the list is full.
  pub push_refines :
      (c : CircList A) (v : A)
      → IsValid c
      → (c' : CircList A) × (push c v ≡ some c')
        × IsValid c'
        × (c'.x_size ≡ min (c.x_size + 1) c.x_cap)
        × (item c' 0 ≡ some v)
        × ((i : ℕ) → suc i < c'.x_size → item c' (suc i) ≡ item c i)
  push_refines c v ok = (
    pushed c v,
    push_lem c v ok,
    pushed-IsValid c v ok,
    refl,
    item-pushed_zero c v ok,
    λ i h. item-pushed-suc c v i ok h,
  )

  -- Assigning an item within the size never fails, and changes that item alone.
  pub set_item_refines :
      (c : CircList A) (i : ℕ) (v : A)
      → IsValid c
      → i < c.x_size
      → (c' : CircList A) × (set_item c i v ≡ some c')
        × IsValid c'
        × (c'.x_size ≡ c.x_size)
        × (item c' i ≡ some v)
        × ((j : ℕ) → j < c.x_size → i ≢ j → item c' j ≡ item c j)
  set_item_refines c i v ok h = (
    stored c i v,
    set_item_lem c i v ok h,
    stored-IsValid c i v ok,
    refl,
    item-stored_self c i v ok h,
    λ j hj ne. item-stored_ne c i j v ok h hj ne,
  )
