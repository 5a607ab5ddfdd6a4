-- ===== src/Bbo/Venues.antt =====
-- `VenueQuote` and the attribution list of a consolidated level: a venue's entry found, rewritten or
-- erased by its slot.
use mathlib.Core.List.{Perm}
use mathlib.Core.List.Perm
use aggregated_order_book.Base.{
  Bool-cases, inl, inr, ℕ, ◌+◌, ◌≡◌, refl, List, [], ◌∷◌, ◌++◌, Option, none, some, ◌==◌,
  if◌then◌else◌, arith,
}

pub record VenueQuote : Type 0 where
  pub slot : ℕ
  pub qty : ℕ

-- `find_if` by slot: the quantity of the first entry.
unfoldable pub find_slot : List VenueQuote → ℕ → Option ℕ
find_slot [] s = none
find_slot (v ∷ vs) s = if v.slot == s then some v.qty else find_slot vs s

-- `exist_it->qty = qty`
unfoldable pub set_slot : List VenueQuote → ℕ → ℕ → List VenueQuote
set_slot [] s q = []
set_slot (v ∷ vs) s q = if v.slot == s then record v { qty = q } ∷ vs else v ∷ set_slot vs s q

-- `venues.erase(exist_it)`
unfoldable pub erase_slot : List VenueQuote → ℕ → List VenueQuote
erase_slot [] s = []
erase_slot (v ∷ vs) s = if v.slot == s then vs else v ∷ erase_slot vs s

-- No slot stands twice.
abbrev pub DistinctSlots : List VenueQuote → Type 0
DistinctSlots [] = Unit
DistinctSlots (v ∷ vs) = (find_slot vs v.slot ≡ none) × DistinctSlots vs

abbrev pub sum_qty : List VenueQuote → ℕ
sum_qty [] = 0
sum_qty (v ∷ vs) = v.qty + sum_qty vs

abbrev pub qty_or_zero : Option ℕ → ℕ
qty_or_zero none = 0
qty_or_zero (some q) = q

pub find_slot-append :
    (vs : List VenueQuote) (w : VenueQuote) (i : ℕ)
    → find_slot vs w.slot ≡ none
    → find_slot (vs ++ w ∷ []) i ≡ (if i == w.slot then some w.qty else find_slot vs i)
unfolding find_slot
find_slot-append [] w i h = ground arith
find_slot-append (v ∷ vs) w i h = ground (arith, find_slot-append vs w i)

pub DistinctSlots-append :
    (vs : List VenueQuote) (w : VenueQuote)
    → find_slot vs w.slot ≡ none
    → DistinctSlots vs
    → DistinctSlots (vs ++ w ∷ [])
unfolding find_slot
DistinctSlots-append [] w h d = (refl, tt)
DistinctSlots-append (v ∷ vs) w h d =
    ground (arith, find_slot-append vs w v.slot, DistinctSlots-append vs w)

pub sum_qty-append :
    (vs : List VenueQuote) (w : VenueQuote) → sum_qty (vs ++ w ∷ []) ≡ sum_qty vs + w.qty
sum_qty-append [] w = omega arith
sum_qty-append (v ∷ vs) w = omega (arith, sum_qty-append vs w)

pub find_slot-set_slot :
    (vs : List VenueQuote) (s q o i : ℕ)
    → find_slot vs s ≡ some o
    → find_slot (set_slot vs s q) i ≡ (if i == s then some q else find_slot vs i)
unfolding find_slot set_slot
find_slot-set_slot [] s q o i h = cc
find_slot-set_slot (v ∷ vs) s q o i h = ground (arith, find_slot-set_slot vs s q o i)

find_slot-set_slot-none :
    (vs : List VenueQuote) (s q i : ℕ)
    → find_slot vs i ≡ none
    → find_slot (set_slot vs s q) i ≡ none
unfolding find_slot set_slot
find_slot-set_slot-none [] s q i h = refl
find_slot-set_slot-none (v ∷ vs) s q i h = ground (arith, find_slot-set_slot-none vs s q i)

pub DistinctSlots-set_slot :
    (vs : List VenueQuote) (s q : ℕ) → DistinctSlots vs → DistinctSlots (set_slot vs s q)
unfolding find_slot set_slot
DistinctSlots-set_slot [] s q d = tt
DistinctSlots-set_slot (v ∷ vs) s q d =
    ground (arith, DistinctSlots-set_slot vs s q d.1, find_slot-set_slot-none vs s q v.slot d.0)

pub sum_qty-set_slot :
    (vs : List VenueQuote) (s q o : ℕ)
    → find_slot vs s ≡ some o
    → sum_qty (set_slot vs s q) + o ≡ sum_qty vs + q
unfolding find_slot set_slot
sum_qty-set_slot [] s q o h = absurd (cc)
sum_qty-set_slot (v ∷ vs) s q o h = ground (arith, sum_qty-set_slot vs s q o)

pub find_slot-erase_slot :
    (vs : List VenueQuote) (s i : ℕ)
    → DistinctSlots vs
    → find_slot (erase_slot vs s) i ≡ (if i == s then none else find_slot vs i)
unfolding find_slot erase_slot
find_slot-erase_slot [] s i d = ground arith
find_slot-erase_slot (v ∷ vs) s i d = ground (arith, find_slot-erase_slot vs s i d.1)

pub DistinctSlots-erase_slot :
    (vs : List VenueQuote) (s : ℕ) → DistinctSlots vs → DistinctSlots (erase_slot vs s)
unfolding erase_slot
DistinctSlots-erase_slot [] s d = tt
DistinctSlots-erase_slot (v ∷ vs) s d =
    ground (arith, DistinctSlots-erase_slot vs s d.1, find_slot-erase_slot vs s v.slot d.1)

pub sum_qty-erase_slot :
    (vs : List VenueQuote) (s o : ℕ)
    → find_slot vs s ≡ some o
    → sum_qty (erase_slot vs s) + o ≡ sum_qty vs
unfolding find_slot erase_slot
sum_qty-erase_slot [] s o h = absurd (cc)
sum_qty-erase_slot (v ∷ vs) s o h = ground (arith, sum_qty-erase_slot vs s o)

pub find_slot_first :
    (v : VenueQuote) (vs : List VenueQuote) → find_slot (v ∷ vs) v.slot ≡ some v.qty
unfolding find_slot
find_slot_first v vs = ground arith

-- An entry found can be brought to the front.
pub erase_slot-perm :
    (vs : List VenueQuote) (v : VenueQuote)
    → find_slot vs v.slot ≡ some v.qty
    → Perm vs (v ∷ erase_slot vs v.slot)
unfolding find_slot erase_slot
erase_slot-perm [] v h = absurd (cc)
erase_slot-perm (w ∷ ws) v h = elim (Bool-cases (w.slot == v.slot)) [
  | inl e ↦ rw e (Perm.cons' (ground arith) Perm.rfl)
  | inr e ↦ rw e (Perm.trans (Perm.cons w (erase_slot-perm ws v (ground arith))) (Perm.swap v w _))
]
