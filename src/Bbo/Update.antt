-- ===== src/Bbo/Update.antt =====
-- `UpdateBBOWithQuote`: folding one venue's new quote into the running top of book keeps it the top of
-- the quotes, on every branch, the rescan included.
use aggregated_order_book.Base.{
  ℕ, zero, suc, ◌<◌, ◌≡◌, ◌≢◌, refl, sym, false, List, [], ◌∷◌, Option, none, some, ◌==◌,
  if◌then◌else◌, arith, ◌||◌, Bool-cases, Option-cases, inl, inr, set, length, get_or-set_self,
  get_or-set_ne,
}
use aggregated_order_book.Types.{BboQuote, VenueQuoteArray, VenueHealthArray, no_quote, max_venues}
use aggregated_order_book.Bbo.Venues.{VenueQuote, find_slot, erase_slot}
use aggregated_order_book.Bbo.Top.{
  IsUint64, IsTop, with_slot, IsTop-single, IsTop-append, IsTop-replace, IsTop-ignore, IsTop-leave,
}
use aggregated_order_book.Bbo.Scan.{offer, offer_qty, FitsQty, IsTop-ext, scan_best-IsTop}
use aggregated_order_book.Bbo.{
  Side, bid, ask, Level, Bbo, better, price_of, qty_of, admits, admitted, scan_best, is_crossed,
  is_empty, update_worst_price, update_equal_price, leave, update_side, update_bbo_with_quote,
  compute_bbo_from_quotes,
}

not_empty :
    (vs : List VenueQuote)
    → is_empty vs ≡ false
    → (w : VenueQuote) × (ws : List VenueQuote) × (vs ≡ w ∷ ws)
not_empty [] h = absurd (cc)
not_empty (v ∷ vs) h = (v, vs, refl)

module _ (side : Side) (f g : ℕ → ℕ) (l : Level) (t : IsTop side f g l) (k p q : ℕ)
    (quotes : VenueQuoteArray) (health : Option VenueHealthArray) (fits : IsUint64 (g k))
    (rescan : IsTop side (with_slot f k p) (with_slot g k q) (scan_best side quotes health)) where
  held_fits : {o : ℕ} → find_slot l.venues k ≡ some o → IsUint64 o
  held_fits e = ground (arith, t.venues k)

  leave-IsTop :
      (p ≢ 0 → (l.price ≢ 0) × (p ≢ l.price) × (better side p l.price ≡ false))
      → IsTop side (with_slot f k p) (with_slot g k q) (leave side l k quotes health)
  unfolding leave
  leave-IsTop z = elim (Option-cases (find_slot l.venues k)) [
    | inl e ↦ rw (e, update_worst_price) (IsTop-ignore side f g l t k p q z e)
    | inr (o, e) ↦ elim (Bool-cases (is_empty (erase_slot l.venues k))) [
      | inl b ↦ rw (e, update_worst_price, b) rescan
      | inr b ↦
          let (w, ws, r) = not_empty (erase_slot l.venues k) b in
          rw (e, update_worst_price, b) (IsTop-leave side f g l t k p q o w ws (held_fits e) z e r)
    ]
  ]

  equal-IsTop :
      p ≢ 0
      → p ≡ l.price
      → IsTop side (with_slot f k p) (with_slot g k q) (update_equal_price l k q)
  unfolding update_equal_price
  equal-IsTop z s = elim (Option-cases (find_slot l.venues k)) [
    | inl e ↦ rw (e, update_equal_price) (IsTop-append side f g l t k p q z s e)
    | inr (o, e) ↦
        rw (e, update_equal_price) (IsTop-replace side f g l t k p q o (held_fits e) z s e)
  ]

  pub update_side-IsTop :
      IsUint64 q
      → IsTop side (with_slot f k p) (with_slot g k q) (update_side side l p q k quotes health)
  unfolding update_side
  update_side-IsTop u = elim (Bool-cases (p == 0)) [
    | inl a ↦ rw a (leave-IsTop (λ h. absurd (h (ground arith))))
    | inr a ↦ elim (Bool-cases (l.price == 0 || better side p l.price)) [
      | inl b ↦ rw (a, b) (IsTop-single side f g l t k p q u (ground arith) b)
      | inr b ↦ elim (Bool-cases (p == l.price)) [
        | inl c ↦ rw (a, b, c) (equal-IsTop (ground arith) (ground arith))
        | inr c ↦ rw (a, b, c) (leave-IsTop (λ h. (ground arith, ground arith, ground arith)))
      ]
    ]
  ]

-- The arrays after the caller has stored the quote in its slot.
module _ (side : Side) (health : Option VenueHealthArray) (quotes : VenueQuoteArray) (k : ℕ)
    (u : BboQuote) (inside : k < length quotes) where
  offer-set :
      (i : ℕ)
      → with_slot (offer side health quotes) k (if admits health k then price_of side u else 0) i
        ≡ offer side health (set quotes k u) i
  offer-set i = elim (Bool-cases (i == k)) [
    | inl e ↦ ground (arith, get_or-set_self quotes k u no_quote inside)
    | inr e ↦ ground (arith, get_or-set_ne quotes k i u no_quote (ground arith))
  ]

  offer_qty-set :
      (i : ℕ)
      → with_slot (offer_qty side quotes) k (qty_of side u) i ≡ offer_qty side (set quotes k u) i
  offer_qty-set i = elim (Bool-cases (i == k)) [
    | inl e ↦ ground (arith, get_or-set_self quotes k u no_quote inside)
    | inr e ↦ ground (arith, get_or-set_ne quotes k i u no_quote (ground arith))
  ]

FitsQty-get_or :
    (side : Side) (qs : VenueQuoteArray) (k : ℕ) → FitsQty side qs → IsUint64 (offer_qty side qs k)
FitsQty-get_or bid [] k h = omega arith
FitsQty-get_or ask [] k h = omega arith
FitsQty-get_or side (q ∷ qs) zero h = h.0
FitsQty-get_or side (q ∷ qs) (suc k) h = FitsQty-get_or side qs k h.1

FitsQty-set :
    (side : Side) (qs : VenueQuoteArray) (k : ℕ) (u : BboQuote)
    → FitsQty side qs
    → IsUint64 (qty_of side u)
    → FitsQty side (set qs k u)
FitsQty-set side [] k u h v = tt
FitsQty-set side (q ∷ qs) zero u h v = (v, h.1)
FitsQty-set side (q ∷ qs) (suc k) u h v = (h.0, FitsQty-set side qs k u h.1 v)

-- One side of the top of book.
abbrev pub IsTopOf : Side → VenueQuoteArray → Option VenueHealthArray → Level → Type 0
IsTopOf side quotes health l = IsTop side (offer side health quotes) (offer_qty side quotes) l

update_side-IsTopOf :
    (side : Side) (l : Level) (u : BboQuote) (k : ℕ) (quotes : VenueQuoteArray)
    (health : Option VenueHealthArray)
    → k < length quotes
    → FitsQty side quotes
    → IsUint64 (qty_of side u)
    → IsTopOf side quotes health l
    → IsTopOf side (set quotes k u) health (
        update_side side l
          (if admits health k then price_of side u else 0)
          (qty_of side u)
          k
          (set quotes k u)
          health)
update_side-IsTopOf side l u k quotes health inside fits uf t =
    IsTop-ext side _ _ _ _ _ (offer-set side health quotes k u inside)
      (offer_qty-set side health quotes k u inside)
      (update_side-IsTop side _ _ l t k _ _ (set quotes k u) health
        (FitsQty-get_or side quotes k fits)
        (IsTop-ext side _ _ _ _ _ (λ i. sym (offer-set side health quotes k u inside i))
          (λ i. sym (offer_qty-set side health quotes k u inside i))
          (scan_best-IsTop side (set quotes k u) health (FitsQty-set side quotes k u fits uf)))
        uf)

-- Both sides are the top of the quotes, and `crossed` says whether the bid has reached the ask.
pub record IsBbo (quotes : VenueQuoteArray) (health : Option VenueHealthArray) (b : Bbo)
    : Type 0 where
  pub bids : IsTopOf bid quotes health b.best_bid
  pub asks : IsTopOf ask quotes health b.best_ask
  pub crossing : b.crossed ≡ is_crossed b.best_bid b.best_ask

-- Quantities are uint64_t values.
pub record FitsQuotes (quotes : VenueQuoteArray) : Type 0 where
  pub bids : FitsQty bid quotes
  pub asks : FitsQty ask quotes

-- `ComputeBBOFromQuotes` yields the top of the admitted quotes on both sides.
pub compute_bbo_from_quotes-IsBbo :
    (quotes : VenueQuoteArray) (health : Option VenueHealthArray)
    → FitsQuotes quotes
    → IsBbo quotes health (compute_bbo_from_quotes quotes health)
unfolding compute_bbo_from_quotes scan_best
compute_bbo_from_quotes-IsBbo quotes health fits = record {
  bids = scan_best-IsTop bid quotes health fits.bids;
  asks = scan_best-IsTop ask quotes health fits.asks;
  crossing = refl;
}

admitted_inside :
    (health : Option VenueHealthArray) (k : ℕ)
    → k < max_venues
    → admitted health k ≡ admits health k
admitted_inside none k h = refl
admitted_inside (some hs) k h = ground arith

-- With the quote already stored in its slot and the verdicts unchanged, `UpdateBBOWithQuote` turns a
-- top of the old quotes into a top of the new ones: better, equal and worse prices, a quote with no
-- price, a venue that is not admitted, and the rescan when the last venue leaves the level.
pub update_bbo_with_quote-IsBbo :
    (current : Bbo) (u : BboQuote) (k : ℕ) (quotes : VenueQuoteArray)
    (health : Option VenueHealthArray)
    → k < length quotes
    → length quotes ≡ max_venues
    → FitsQuotes quotes
    → IsUint64 u.bid_qty
    → IsUint64 u.ask_qty
    → IsBbo quotes health current
    → IsBbo (set quotes k u) health (update_bbo_with_quote current u k (set quotes k u) health)
unfolding update_bbo_with_quote
update_bbo_with_quote-IsBbo current u k quotes health inside size fits ub ua t =
    rw (admitted_inside health k (omega arith)) (record {
      bids = update_side-IsTopOf bid current.best_bid u k quotes health inside fits.bids ub t.bids;
      asks = update_side-IsTopOf ask current.best_ask u k quotes health inside fits.asks ua t.asks;
      crossing = refl;
    })

pub FitsQuotes-set :
    (quotes : VenueQuoteArray) (k : ℕ) (u : BboQuote)
    → FitsQuotes quotes
    → IsUint64 u.bid_qty
    → IsUint64 u.ask_qty
    → FitsQuotes (set quotes k u)
FitsQuotes-set quotes k u fits ub ua = record {
  bids = FitsQty-set bid quotes k u fits.bids ub;
  asks = FitsQty-set ask quotes k u fits.asks ua;
}
