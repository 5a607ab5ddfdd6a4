-- ===== src/Bbo/Top.antt =====
-- What a consolidated level has to say of the venues' offers, and that each way of folding one
-- venue's offer into a level keeps it. An offer is a price and a quantity per slot; price 0 is no
-- offer.
use aggregated_order_book.Base.{
  ℕ, ◌%◌, ◌^◌, ◌<◌, ◌≡◌, ◌≢◌, refl, true, false, List, ◌∷◌, Option, none, some, ◌==◌, if◌then◌else◌,
  arith, ◌||◌,
}
use aggregated_order_book.Bbo.Venues.{
  VenueQuote, find_slot, set_slot, erase_slot, DistinctSlots, sum_qty, find_slot-append,
  DistinctSlots-append, sum_qty-append, find_slot_first, find_slot-set_slot, DistinctSlots-set_slot,
  sum_qty-set_slot, find_slot-erase_slot, DistinctSlots-erase_slot, sum_qty-erase_slot,
}
use aggregated_order_book.Bbo.{
  Side, Level, better, set_single_venue, append_venue, add64, sub64, empty_level,
}

abbrev pub IsUint64 : ℕ → Type 0
IsUint64 n = n < 2 ^ 64

-- The quantity that the venue in slot `i` has at price `p`.
abbrev pub quote_at : (ℕ → ℕ) → (ℕ → ℕ) → ℕ → ℕ → Option ℕ
quote_at f g p i = if f i == 0 then none else if f i == p then some (g i) else none

-- The level is the top of the offers `f` (prices) and `g` (quantities): no offer is better, the price
-- is offered, the attribution lists exactly the venues at that price, each once with its quantity,
-- and the total is their sum in uint64_t.
pub record IsTop (side : Side) (f g : ℕ → ℕ) (l : Level) : Type 0 where
  pub best : (i : ℕ) → f i ≢ 0 → (l.price ≢ 0) × (better side (f i) l.price ≡ false)
  pub held : l.price ≢ 0 → (i : ℕ) × (f i ≡ l.price)
  pub venues : (i : ℕ) → find_slot l.venues i ≡ quote_at f g l.price i
  pub distinct : DistinctSlots l.venues
  pub total : l.total_qty ≡ sum_qty l.venues % 2 ^ 64

-- One slot's value replaced.
abbrev pub with_slot : (ℕ → ℕ) → ℕ → ℕ → ℕ → ℕ
with_slot f k v i = if i == k then v else f i

pub IsTop-empty : (side : Side) (g : ℕ → ℕ) → IsTop side (λ i. 0) g empty_level
unfolding find_slot
IsTop-empty side g = record {
  best = λ i h. absurd (h refl);
  held = λ h. absurd (h refl);
  venues = λ i. refl;
  distinct = tt;
  total = refl;
}

module _ (side : Side) (f g : ℕ → ℕ) (l : Level) (t : IsTop side f g l) (k p q : ℕ) where
  -- A strictly better price, or the first one, owns the level alone.
  pub IsTop-single :
      IsUint64 q
      → p ≢ 0
      → (l.price == 0 || better side p l.price) ≡ true
      → IsTop side (with_slot f k p) (with_slot g k q) (set_single_venue p k q)
  unfolding find_slot
  IsTop-single u z b = record {
    best = λ i h. (z, ground (arith, t.best i));
    held = λ h. (k, ground arith);
    venues = λ i. ground (arith, t.best i);
    distinct = (refl, tt);
    total = ground arith;
  }

  -- A tie of a venue that had no offer at the level joins it.
  pub IsTop-append :
      p ≢ 0
      → p ≡ l.price
      → find_slot l.venues k ≡ none
      → IsTop side (with_slot f k p) (with_slot g k q) (append_venue l k q)
  IsTop-append z e n = record {
    best = λ i h. ground (arith, t.best i);
    held = λ h. (k, ground arith);
    venues = λ i.
        ground (arith, find_slot-append l.venues (record { slot = k; qty = q }) i n, t.venues i);
    distinct = DistinctSlots-append l.venues (record { slot = k; qty = q }) n t.distinct;
    total = ground (arith, t.total, sum_qty-append l.venues (record { slot = k; qty = q }));
  }

  -- A tie of a venue already there replaces its quantity.
  pub IsTop-replace :
      (o : ℕ)
      → o < 2 ^ 64
      → p ≢ 0
      → p ≡ l.price
      → find_slot l.venues k ≡ some o
      → IsTop side
          (with_slot f k p)
          (with_slot g k q)
          (record l { total_qty = add64 (sub64 l.total_qty o) q; venues = set_slot l.venues k q })
  IsTop-replace o u z e n = record {
    best = λ i h. ground (arith, t.best i);
    held = λ h. (k, ground arith);
    venues = λ i. ground (arith, find_slot-set_slot l.venues k q o i n, t.venues i);
    distinct = DistinctSlots-set_slot l.venues k q t.distinct;
    total = ground (arith, t.total, sum_qty-set_slot l.venues k q o n);
  }

  -- An offer that is none, or worse than the level, of a venue that is not part of the level.
  pub IsTop-ignore :
      (p ≢ 0 → (l.price ≢ 0) × (p ≢ l.price) × (better side p l.price ≡ false))
      → find_slot l.venues k ≡ none
      → IsTop side (with_slot f k p) (with_slot g k q) l
  IsTop-ignore z n = record {
    best = λ i h. ground (arith, t.best i, z);
    held = λ h. let (i, e) = t.held h in (i, ground (arith, t.venues k));
    venues = λ i. ground (arith, t.venues i, t.venues k, z);
    distinct = t.distinct;
    total = t.total;
  }

  -- The same of a venue that leaves the level to others.
  pub IsTop-leave :
      (o : ℕ) (w : VenueQuote) (ws : List VenueQuote)
      → o < 2 ^ 64
      → (p ≢ 0 → (l.price ≢ 0) × (p ≢ l.price) × (better side p l.price ≡ false))
      → find_slot l.venues k ≡ some o
      → erase_slot l.venues k ≡ w ∷ ws
      → IsTop side
          (with_slot f k p)
          (with_slot g k q)
          (record l { total_qty = sub64 l.total_qty o; venues = erase_slot l.venues k })
  IsTop-leave o w ws u z n r = record {
    best = λ i h. ground (arith, t.best i, z);
    held = λ h. (w.slot, stays);
    venues = λ i. ground (arith, find_slot-erase_slot l.venues k i t.distinct, t.venues i, z);
    distinct = DistinctSlots-erase_slot l.venues k t.distinct;
    total = ground (arith, t.total, sum_qty-erase_slot l.venues k o n);
  }
    where
      first : find_slot (erase_slot l.venues k) w.slot ≡ some w.qty
      first = rw r (find_slot_first w ws)

      stays : with_slot f k p w.slot ≡ l.price
      stays =
          ground (arith, first, find_slot-erase_slot l.venues k w.slot t.distinct, t.venues w.slot)
