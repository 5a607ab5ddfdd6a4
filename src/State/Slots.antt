-- ===== src/State/Slots.antt =====
-- A venue put into, rewritten in or taken out of a level's attribution, which stays sorted by slot.
use aggregated_order_book.Base.{
  ℕ, suc, ◌+◌, ◌≤◌, ◌<◌, ◌≡◌, refl, inl, inr, true, none, some, List, [], ◌∷◌, arith, ltb, ◌==◌,
  if◌then◌else◌, ltb→lt, lt→ltb, Bool-cases, length,
}
use aggregated_order_book.Types.{max_venues}
use aggregated_order_book.Bbo.Venues.{
  VenueQuote, find_slot, set_slot, erase_slot, DistinctSlots, sum_qty,
}
use aggregated_order_book.Merged.Held.{SlotsFrom-le, IsQty, SlotsFrom, find_slot-SlotsFrom}
use aggregated_order_book.State.{insert_slot}

pub SlotsFrom-DistinctSlots : (i : ℕ) (vs : List VenueQuote) → SlotsFrom i vs → DistinctSlots vs
SlotsFrom-DistinctSlots i [] h = tt
SlotsFrom-DistinctSlots i (v ∷ vs) (a, b, c, h) = (
  find_slot-SlotsFrom v.slot (suc v.slot) vs (omega arith) h,
  SlotsFrom-DistinctSlots (suc v.slot) vs h,
)

pub SlotsFrom-erase_slot :
    (i : ℕ) (vs : List VenueQuote) (s : ℕ) → SlotsFrom i vs → SlotsFrom i (erase_slot vs s)
unfolding erase_slot
SlotsFrom-erase_slot i [] s h = tt
SlotsFrom-erase_slot i (v ∷ vs) s (a, b, c, h) = elim (Bool-cases (v.slot == s)) [
  | inl e ↦ rw e (SlotsFrom-le i (suc v.slot) vs (omega (arith, a)) h)
  | inr e ↦ rw e (a, b, c, SlotsFrom-erase_slot (suc v.slot) vs s h)
]

pub SlotsFrom-set_slot :
    (i : ℕ) (vs : List VenueQuote) (s q : ℕ)
    → IsQty q
    → SlotsFrom i vs
    → SlotsFrom i (set_slot vs s q)
unfolding set_slot
SlotsFrom-set_slot i [] s q n h = tt
SlotsFrom-set_slot i (v ∷ vs) s q n (a, b, c, h) = elim (Bool-cases (v.slot == s)) [
  | inl e ↦ rw e (a, b, n, h)
  | inr e ↦ rw e (a, b, c, SlotsFrom-set_slot (suc v.slot) vs s q n h)
]

pub SlotsFrom-insert_slot :
    (i : ℕ) (vs : List VenueQuote) (s q : ℕ)
    → i ≤ s
    → s < max_venues
    → IsQty q
    → find_slot vs s ≡ none
    → SlotsFrom i vs
    → SlotsFrom i (insert_slot vs s q)
unfolding find_slot insert_slot
SlotsFrom-insert_slot i [] s q l u n f h = (l, u, n, tt)
SlotsFrom-insert_slot i (v ∷ vs) s q l u n f (a, b, c, h) = elim (Bool-cases (ltb v.slot s)) [
  | inl e ↦ rw e (
    a,
    b,
    c,
    SlotsFrom-insert_slot (suc v.slot) vs s q (ltb→lt v.slot s e) u n (ground (arith, f, e)) h,
  )
  | inr e ↦ rw e (l, u, n, (ground (arith, e, f), b, c, h))
]

pub find_slot-insert_slot :
    (vs : List VenueQuote) (s q i : ℕ)
    → find_slot vs s ≡ none
    → find_slot (insert_slot vs s q) i ≡ (if i == s then some q else find_slot vs i)
unfolding find_slot insert_slot
find_slot-insert_slot [] s q i f = ground arith
find_slot-insert_slot (v ∷ vs) s q i f = ground (arith, find_slot-insert_slot vs s q i)

pub sum_qty-insert_slot :
    (vs : List VenueQuote) (s q : ℕ) → sum_qty (insert_slot vs s q) ≡ sum_qty vs + q
unfolding insert_slot
sum_qty-insert_slot [] s q = omega arith
sum_qty-insert_slot (v ∷ vs) s q = ground (arith, sum_qty-insert_slot vs s q)

length-insert_slot :
    (vs : List VenueQuote) (s q : ℕ) → length (insert_slot vs s q) ≡ suc (length vs)
unfolding insert_slot
length-insert_slot [] s q = refl
length-insert_slot (v ∷ vs) s q = ground (arith, length-insert_slot vs s q)

length-SlotsFrom :
    (i : ℕ) (vs : List VenueQuote) → i ≤ max_venues → SlotsFrom i vs → i + length vs ≤ max_venues
length-SlotsFrom i [] l h = omega (arith, l)
length-SlotsFrom i (v ∷ vs) l (a, b, c, h) =
    omega (arith, a, length-SlotsFrom (suc v.slot) vs (omega (arith, b)) h)

-- A level that a venue can join has room for it.
pub room_lem :
    (vs : List VenueQuote) (s : ℕ)
    → s < max_venues
    → find_slot vs s ≡ none
    → SlotsFrom 0 vs
    → ltb (length vs) max_venues ≡ true
room_lem vs s u f h =
    let full = length-SlotsFrom 0 (insert_slot vs s 1) (omega arith) (
      SlotsFrom-insert_slot 0 vs s 1 (omega arith) u ((λ e. absurd (omega (arith, e))), omega arith)
        f h) in
    lt→ltb (length vs) max_venues (omega (arith, full, length-insert_slot vs s 1))
