-- ===== src/Schedule/Order.antt =====
-- The order of schedule_entry_compare, and lists of entries in that order.
use Prim.Native.Nat.{Ordering}
use par_diff_vpn.Prelude.{◌<◌, ◌≡◌, List, [], ◌∷◌, ◌++◌, arith, ◌⊎◌}
use par_diff_vpn.Schedule.{Entry, compare}

abbrev pub Before : Entry → Entry → Type 0
Before a b = compare a b ≡ Ordering.lt

-- The order in numbers.
pub Before-elim :
    (a b : Entry)
    → Before a b
    → (a.tv.tv_sec < b.tv.tv_sec)
      ⊎ (a.tv.tv_sec ≡ b.tv.tv_sec)
        × ((a.tv.tv_usec < b.tv.tv_usec) ⊎ (a.tv.tv_usec ≡ b.tv.tv_usec) × (a.pri < b.pri))
unfolding compare
Before-elim a b h = ground arith

pub Before-trans : (a b c : Entry) → Before a b → Before b c → Before a c
unfolding compare
Before-trans a b c h k = ground arith

pub compare-gt : (a b : Entry) → compare a b ≡ Ordering.gt → Before b a
unfolding compare
compare-gt a b h = ground arith

-- Every entry comes after `e`, or before it.
abbrev pub AllAfter : Entry → List Entry → Type 0
AllAfter e [] = Unit
AllAfter e (x ∷ xs) = Before e x × AllAfter e xs

abbrev pub AllBefore : Entry → List Entry → Type 0
AllBefore e [] = Unit
AllBefore e (x ∷ xs) = Before x e × AllBefore e xs

abbrev pub IsSorted : List Entry → Type 0
IsSorted [] = Unit
IsSorted (x ∷ xs) = AllAfter x xs × IsSorted xs

pub AllAfter-append :
    (e : Entry) (xs ys : List Entry) → AllAfter e xs → AllAfter e ys → AllAfter e (xs ++ ys)
AllAfter-append e [] ys h k = k
AllAfter-append e (x ∷ xs) ys h k = (h.0, AllAfter-append e xs ys h.1 k)

pub AllAfter-split :
    (e : Entry) (xs ys : List Entry) → AllAfter e (xs ++ ys) → AllAfter e xs × AllAfter e ys
AllAfter-split e [] ys h = (tt, h)
AllAfter-split e (x ∷ xs) ys h = (let r = AllAfter-split e xs ys h.1 in ((h.0, r.0), r.1))

pub AllAfter-trans : (a b : Entry) (xs : List Entry) → Before a b → AllAfter b xs → AllAfter a xs
AllAfter-trans a b [] h k = tt
AllAfter-trans a b (x ∷ xs) h k = (Before-trans a b x h k.0, AllAfter-trans a b xs h k.1)

-- Putting an entry between those before it and those after it.
pub insert-IsSorted :
    (e : Entry) (xs ys : List Entry)
    → IsSorted (xs ++ ys)
    → AllBefore e xs
    → AllAfter e ys
    → IsSorted (xs ++ (e ∷ ys))
insert-IsSorted e [] ys h b a = (a, h)
insert-IsSorted e (x ∷ xs) ys h b a =
    let (low, high) = AllAfter-split x xs ys h.0 in
    (AllAfter-append x xs (e ∷ ys) low (b.0, high), insert-IsSorted e xs ys h.1 b.1 a)

-- Taking one out.
pub remove-IsSorted :
    (e : Entry) (xs ys : List Entry) → IsSorted (xs ++ (e ∷ ys)) → IsSorted (xs ++ ys)
remove-IsSorted e [] ys h = h.1
remove-IsSorted e (x ∷ xs) ys h =
    let (low, high) = AllAfter-split x xs (e ∷ ys) h.0 in
    (AllAfter-append x xs ys low high.1, remove-IsSorted e xs ys h.1)

-- What is before the middle of a sorted list, and what is after it.
pub sorted-around :
    (c : Entry) (xs ys : List Entry) → IsSorted (xs ++ (c ∷ ys)) → AllBefore c xs × AllAfter c ys
sorted-around c [] ys h = (tt, h.0)
sorted-around c (x ∷ xs) ys h =
    let (low, high) = AllAfter-split x xs (c ∷ ys) h.0 in
    let r = sorted-around c xs ys h.1 in ((high.0, r.0), r.1)

pub AllBefore-append :
    (e : Entry) (xs ys : List Entry) → AllBefore e xs → AllBefore e ys → AllBefore e (xs ++ ys)
AllBefore-append e [] ys h k = k
AllBefore-append e (x ∷ xs) ys h k = (h.0, AllBefore-append e xs ys h.1 k)

pub AllBefore-split :
    (e : Entry) (xs ys : List Entry) → AllBefore e (xs ++ ys) → AllBefore e xs × AllBefore e ys
AllBefore-split e [] ys h = (tt, h)
AllBefore-split e (x ∷ xs) ys h = (let r = AllBefore-split e xs ys h.1 in ((h.0, r.0), r.1))

pub AllBefore-trans : (a b : Entry) (xs : List Entry) → Before a b → AllBefore a xs → AllBefore b xs
AllBefore-trans a b [] h k = tt
AllBefore-trans a b (x ∷ xs) h k = (Before-trans x a b k.0 h, AllBefore-trans a b xs h k.1)
