-- ===== src/Bbo/Unique.antt =====
-- The top of the quotes is unique up to the order of the attribution list, so the incremental update
-- and the full scan agree.
use mathlib.Core.List.{Perm}
use mathlib.Core.List.Perm
use aggregated_order_book.Base.{
  ℕ, ◌<◌, ◌≡◌, refl, sym, ◌∙◌, ap, List, [], ◌∷◌, Option, some, ◌==◌, arith, Bool-cases, inl, inr,
  set, length, ◌%◌, ◌^◌,
}
use aggregated_order_book.Types.{BboQuote, VenueQuoteArray, VenueHealthArray, max_venues}
use aggregated_order_book.Bbo.Venues.{
  VenueQuote, find_slot, erase_slot, DistinctSlots, sum_qty, find_slot_first, find_slot-erase_slot,
  DistinctSlots-erase_slot, sum_qty-erase_slot, erase_slot-perm,
}
use aggregated_order_book.Bbo.Top.{IsUint64, IsTop}
use aggregated_order_book.Bbo.Update.{
  IsBbo, FitsQuotes, FitsQuotes-set, update_bbo_with_quote-IsBbo, compute_bbo_from_quotes-IsBbo,
}
use aggregated_order_book.Bbo.{
  Side, Level, Bbo, is_crossed, update_bbo_with_quote, compute_bbo_from_quotes,
}

SameVenues : List VenueQuote → List VenueQuote → Type 0
SameVenues xs ys = Perm xs ys × (sum_qty xs ≡ sum_qty ys)

same_of_find :
    (xs ys : List VenueQuote)
    → DistinctSlots xs
    → DistinctSlots ys
    → ((i : ℕ) → find_slot xs i ≡ find_slot ys i)
    → SameVenues xs ys
unfolding SameVenues find_slot
same_of_find [] [] dx dy h = (Perm.refl [], refl)
same_of_find [] (y ∷ ys) dx dy h = absurd (ground (arith, h y.slot))
same_of_find (x ∷ xs) ys dx dy h =
    let here : find_slot ys x.slot ≡ some x.qty = sym (h x.slot) ∙ find_slot_first x xs in
    let rest =
      same_of_find xs (erase_slot ys x.slot) dx.1 (DistinctSlots-erase_slot ys x.slot dy)
        (λ i. ground (arith, h i, find_slot-erase_slot ys x.slot i dy, dx.0)) in
    (
      Perm.trans (Perm.cons x rest.0) (Perm.symm (erase_slot-perm ys x here)),
      omega (arith, rest.1, sum_qty-erase_slot ys x.slot x.qty here),
    )

-- Two levels that say the same up to the order of their venues.
pub record SameLevel (l m : Level) : Type 0 where
  pub price : l.price ≡ m.price
  pub total : l.total_qty ≡ m.total_qty
  pub venues : Perm l.venues m.venues

IsTop-price :
    (side : Side) (f g : ℕ → ℕ) (l m : Level)
    → IsTop side f g l
    → IsTop side f g m
    → l.price ≡ m.price
IsTop-price side f g l m t s = elim (Bool-cases (l.price == 0)) [
  | inl a ↦ elim (Bool-cases (m.price == 0)) [
    | inl b ↦ ground arith
    | inr b ↦
        let (i, e) = s.held (ground arith) in absurd ((t.best i (ground arith)).0 (ground arith))
  ]
  | inr a ↦ elim (Bool-cases (m.price == 0)) [
    | inl b ↦
        let (i, e) = t.held (ground arith) in absurd ((s.best i (ground arith)).0 (ground arith))
    | inr b ↦
        let (i, e) = t.held (ground arith) in
        let (j, d) = s.held (ground arith) in ground (arith, t.best j, s.best i)
  ]
]

IsTop-SameLevel :
    (side : Side) (f g : ℕ → ℕ) (l m : Level) → IsTop side f g l → IsTop side f g m → SameLevel l m
unfolding SameVenues
IsTop-SameLevel side f g l m t s =
    let p = IsTop-price side f g l m t s in
    let v =
      same_of_find l.venues m.venues t.distinct s.distinct
        (λ i. ground (arith, p, t.venues i, s.venues i)) in
    record { price = p; total = t.total ∙ ap (λ n. n % 2 ^ 64) v.1 ∙ sym s.total; venues = v.0 }

-- The incremental path against the oracle: the same prices, totals and `crossed`, and the same venues
-- in some order.
pub record SameBbo (a b : Bbo) : Type 0 where
  pub bids : SameLevel a.best_bid b.best_bid
  pub asks : SameLevel a.best_ask b.best_ask
  pub crossing : a.crossed ≡ b.crossed

is_crossed-equal :
    (b b' a a' : Level)
    → b.price ≡ b'.price
    → a.price ≡ a'.price
    → is_crossed b a ≡ is_crossed b' a'
unfolding is_crossed
is_crossed-equal b b' a a' p q = rw (p, q)

IsBbo-SameBbo :
    (quotes : VenueQuoteArray) (health : Option VenueHealthArray) (a b : Bbo)
    → IsBbo quotes health a
    → IsBbo quotes health b
    → SameBbo a b
IsBbo-SameBbo quotes health a b s t =
    let bids = IsTop-SameLevel _ _ _ a.best_bid b.best_bid s.bids t.bids in
    let asks = IsTop-SameLevel _ _ _ a.best_ask b.best_ask s.asks t.asks in
    record {
      bids = bids;
      asks = asks;
      crossing =
          s.crossing
          ∙ is_crossed-equal a.best_bid b.best_bid a.best_ask b.best_ask bids.price asks.price
          ∙ sym t.crossing;
    }

-- `UpdateBBOWithQuote` on a top of the old quotes gives what `ComputeBBOFromQuotes` gives on the new
-- ones, up to the order of each level's venues, if the quote has been stored in its slot first and
-- the verdicts are those the old top was built with.
pub update_bbo_with_quote-SameBbo :
    (current : Bbo) (u : BboQuote) (k : ℕ) (quotes : VenueQuoteArray)
    (health : Option VenueHealthArray)
    → k < length quotes
    → length quotes ≡ max_venues
    → FitsQuotes quotes
    → IsUint64 u.bid_qty
    → IsUint64 u.ask_qty
    → IsBbo quotes health current
    → SameBbo
        (update_bbo_with_quote current u k (set quotes k u) health)
        (compute_bbo_from_quotes (set quotes k u) health)
update_bbo_with_quote-SameBbo current u k quotes health inside size fits ub ua t =
    IsBbo-SameBbo (set quotes k u) health _ _
      (update_bbo_with_quote-IsBbo current u k quotes health inside size fits ub ua t)
      (compute_bbo_from_quotes-IsBbo (set quotes k u) health (FitsQuotes-set quotes k u fits ub ua))
