-- ===== src/Bbo.antt =====
-- md_core/consolidated_bbo.h and .cpp: the consolidated best bid and offer over the venues' own
-- top-of-book quotes. The two sides of the source are copies of each other; here each is the one
-- definition at its side. The arrays are lists indexed by venue slot.
pub mod Venues
pub mod Top
pub mod Scan
pub mod Update
pub mod Unique
pub mod Books
mod Tests
use aggregated_order_book.Base.{
  ℕ, ◌+◌, ◌-◌, ◌%◌, ◌^◌, Bool, true, false, not, ◌&&◌, ◌||◌, List, [], ◌∷◌, ◌++◌, Option, none,
  some, ltb, leb, ◌==◌, if◌then◌else◌, get_or,
}
use aggregated_order_book.Types.{
  BboQuote, VenueQuoteArray, VenueHealth, VenueHealthArray, is_admissible, max_venues, no_data,
}
use aggregated_order_book.Book.{FlatOrderBook, best_bid, best_ask}
use Venues.{VenueQuote, find_slot, set_slot, erase_slot}

pub data Side : Type 0 where
  bid ask : Side

-- "better means HIGHER" for bids, LOWER for asks.
abbrev pub better : Side → ℕ → ℕ → Bool
better bid a b = ltb b a
better ask a b = ltb a b

abbrev pub price_of : Side → BboQuote → ℕ
price_of bid q = q.bid_price
price_of ask q = q.ask_price

abbrev pub qty_of : Side → BboQuote → ℕ
qty_of bid q = q.bid_qty
qty_of ask q = q.ask_qty

-- `ConsolidatedPriceLevel`; price 0 says that nothing has been seen.
pub record Level : Type 0 where
  pub price : ℕ
  pub total_qty : ℕ
  pub venues : List VenueQuote

-- `BBO`
pub record Bbo : Type 0 where
  pub best_bid : Level
  pub best_ask : Level
  pub crossed : Bool

abbrev pub empty_level : Level
empty_level = record { price = 0; total_qty = 0; venues = [] }

-- uint64_t sum and difference.
abbrev pub add64 : ℕ → ℕ → ℕ
add64 a b = (a + b) % 2 ^ 64

abbrev pub sub64 : ℕ → ℕ → ℕ
sub64 a b = (a + 2 ^ 64 - b) % 2 ^ 64

-- `SetSingleVenue`
abbrev pub set_single_venue : ℕ → ℕ → ℕ → Level
set_single_venue price slot qty = record {
  price = price;
  total_qty = qty;
  venues = record { slot = slot; qty = qty } ∷ [];
}

-- A tie: `total_qty += qty; venues.push_back({slot, qty})`.
abbrev pub append_venue : Level → ℕ → ℕ → Level
append_venue l slot qty = record l {
  total_qty = add64 l.total_qty qty;
  venues = l.venues ++ record { slot = slot; qty = qty } ∷ [];
}

-- nullptr admits everyone.
abbrev pub admits : Option VenueHealthArray → ℕ → Bool
admits none i = true
admits (some hs) i = is_admissible (get_or hs i no_data)

-- One turn of the loop of `ScanBestBid` or `ScanBestAsk`.
pub scan_step : Side → Option VenueHealthArray → ℕ → BboQuote → Level → Level
scan_step side health i q out =
    if price_of side q == 0
    then out
    else if not (admits health i)
    then out
    else if out.price == 0 || better side (price_of side q) out.price
    then set_single_venue (price_of side q) i (qty_of side q)
    else if price_of side q == out.price
    then append_venue out i (qty_of side q)
    else out

pub scan_from : Side → Option VenueHealthArray → ℕ → List BboQuote → Level → Level
unfolding scan_step
scan_from side health i [] out = out
scan_from side health i (q ∷ qs) out =
    scan_from side health (i + 1) qs (scan_step side health i q out)

pub scan_best_bid : VenueQuoteArray → Option VenueHealthArray → Level
unfolding scan_from
scan_best_bid quotes health = scan_from bid health 0 quotes empty_level

pub scan_best_ask : VenueQuoteArray → Option VenueHealthArray → Level
unfolding scan_from
scan_best_ask quotes health = scan_from ask health 0 quotes empty_level

pub scan_best : Side → VenueQuoteArray → Option VenueHealthArray → Level
unfolding scan_best_bid scan_best_ask
scan_best bid quotes health = scan_best_bid quotes health
scan_best ask quotes health = scan_best_ask quotes health

-- `UpdateEqualPrice`
pub update_equal_price : Level → ℕ → ℕ → Level
update_equal_price l slot qty = elim (find_slot l.venues slot) [
  | none ↦ append_venue l slot qty
  | some old ↦ record l {
    total_qty = add64 (sub64 l.total_qty old) qty;
    venues = set_slot l.venues slot qty;
  }
]

-- `UpdateWorstPrice`: the level, and whether the venue was present.
pub update_worst_price : Level → ℕ → Level × Bool
update_worst_price l slot = elim (find_slot l.venues slot) [
  | none ↦ (l, false)
  | some old ↦
      (record l { total_qty = sub64 l.total_qty old; venues = erase_slot l.venues slot }, true)
]

abbrev pub is_empty : List VenueQuote → Bool
is_empty [] = true
is_empty (v ∷ vs) = false

-- The venue leaves the level; the side is scanned again if it was the last one there.
pub leave : Side → Level → ℕ → VenueQuoteArray → Option VenueHealthArray → Level
unfolding update_worst_price scan_best
leave side l slot quotes health =
    let (l', present) = update_worst_price l slot in
    if present && is_empty l'.venues then scan_best side quotes health else l'

-- One side of `UpdateBBOWithQuote`, at the price that admission leaves.
pub update_side : Side → Level → ℕ → ℕ → ℕ → VenueQuoteArray → Option VenueHealthArray → Level
unfolding leave update_equal_price
update_side side l price qty slot quotes health =
    if price == 0
    then leave side l slot quotes health
    else if l.price == 0 || better side price l.price
    then set_single_venue price slot qty
    else if price == l.price
    then update_equal_price l slot qty
    else leave side l slot quotes health

-- `IsCrossed`
unfoldable pub is_crossed : Level → Level → Bool
is_crossed b a = not (b.price == 0) && not (a.price == 0) && leb a.price b.price

-- `ComputeBBOFromQuotes` and `ComputeBBOFromQuotesInto`
pub compute_bbo_from_quotes : VenueQuoteArray → Option VenueHealthArray → Bbo
unfolding scan_best_bid scan_best_ask is_crossed
compute_bbo_from_quotes quotes health =
    let b = scan_best_bid quotes health in
    let a = scan_best_ask quotes health in
    record { best_bid = b; best_ask = a; crossed = is_crossed b a }

-- `UpdateBBOWithQuote`. A slot beyond the array is admitted.
abbrev pub admitted : Option VenueHealthArray → ℕ → Bool
admitted none slot = true
admitted (some hs) slot = leb max_venues slot || is_admissible (get_or hs slot no_data)

pub update_bbo_with_quote : Bbo → BboQuote → ℕ → VenueQuoteArray → Option VenueHealthArray → Bbo
unfolding update_side is_crossed
update_bbo_with_quote current update slot quotes health =
    let bid_price = if admitted health slot then update.bid_price else 0 in
    let ask_price = if admitted health slot then update.ask_price else 0 in
    let b = update_side bid current.best_bid bid_price update.bid_qty slot quotes health in
    let a = update_side ask current.best_ask ask_price update.ask_qty slot quotes health in
    record { best_bid = b; best_ask = a; crossed = is_crossed b a }

-- One side of one turn of the loop of `ComputeBBO`, over the depth books' best levels.
pub fold_best : Side → ℕ → Option (ℕ × ℕ) → Level → Level
fold_best side slot none l = l
fold_best side slot (some (price, qty)) l =
    if l.price == 0 || better side price l.price
    then set_single_venue price slot qty
    else if price == l.price
    then append_venue l slot qty
    else l

pub compute_bbo_from : ℕ → List (Option FlatOrderBook) → Level → Level → Level × Level
unfolding fold_best
compute_bbo_from i [] b a = (b, a)
compute_bbo_from i (none ∷ books) b a = compute_bbo_from (i + 1) books b a
compute_bbo_from i (some book ∷ books) b a =
    compute_bbo_from (i + 1) books (fold_best bid i (best_bid book) b)
      (fold_best ask i (best_ask book) a)

-- `ComputeBBO`
pub compute_bbo : List (Option FlatOrderBook) → Bbo
unfolding compute_bbo_from is_crossed
compute_bbo books =
    let (b, a) = compute_bbo_from 0 books empty_level empty_level in
    record { best_bid = b; best_ask = a; crossed = is_crossed b a }
