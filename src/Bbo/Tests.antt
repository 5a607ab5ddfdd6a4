-- ===== src/Bbo/Tests.antt =====
-- Runs of the top of book on small inputs, and the theorems at inputs where their hypotheses hold.
use aggregated_order_book.Base.{
  ℕ, ◌≡◌, refl, [], ◌∷◌, map, Option, none, some, arith, set, replicate,
}
use aggregated_order_book.Types.{
  BboQuote, VenueQuoteArray, VenueHealthArray, live, stale, no_quote, is_admissible, okx,
}
use aggregated_order_book.Book.{FlatOrderBook, new_book, best_bid, best_ask}
use aggregated_order_book.Bbo.Venues.{VenueQuote, find_slot, erase_slot}
use aggregated_order_book.Bbo.Scan.{offer, offer_qty, scan_best-IsTop}
use aggregated_order_book.Bbo.Top.{IsTop}
use aggregated_order_book.Bbo.Update.{
  IsBbo, FitsQuotes, compute_bbo_from_quotes-IsBbo, update_bbo_with_quote-IsBbo,
}
use aggregated_order_book.Bbo.Unique.{SameBbo, update_bbo_with_quote-SameBbo}
use aggregated_order_book.Bbo.Books.{quote_of_book, compute_bbo-compute_bbo_from_quotes}
use aggregated_order_book.Bbo.{
  bid, Bbo, scan_best, scan_best_bid, compute_bbo, compute_bbo_from_quotes, update_bbo_with_quote,
}

abbrev two_sided : ℕ → ℕ → ℕ → ℕ → BboQuote
two_sided bp bq ap aq = record no_quote {
  bid_price = bp;
  bid_qty = bq;
  ask_price = ap;
  ask_qty = aq;
}

-- Venues 0 and 2 tie at the bid; the rest of the eight slots are silent.
abbrev quotes : VenueQuoteArray
quotes = two_sided 100 5 103 2 ∷ two_sided 99 4 102 3 ∷ two_sided 100 7 104 1 ∷ replicate 5 no_quote

abbrev entry : ℕ → ℕ → VenueQuote
entry s q = record { slot = s; qty = q }

abbrev all_live : Option VenueHealthArray
all_live = some (replicate 8 live)

abbrev venue_two_stale : Option VenueHealthArray
venue_two_stale = some (live ∷ live ∷ stale ∷ replicate 5 live)

scan_run :
    scan_best_bid quotes all_live
    ≡ record { price = 100; total_qty = 12; venues = entry 0 5 ∷ entry 2 7 ∷ [] }
unfolding scan_best_bid is_admissible
scan_run = refl

scan_skips_stale :
    scan_best_bid quotes venue_two_stale
    ≡ record { price = 100; total_qty = 5; venues = entry 0 5 ∷ [] }
unfolding scan_best_bid is_admissible
scan_skips_stale = refl

abbrev start : Bbo
unfolding compute_bbo_from_quotes is_admissible
start = compute_bbo_from_quotes quotes venue_two_stale

-- The only venue left at the bid moves down: the side is scanned again and venue 1 takes over.
abbrev lower : BboQuote
lower = two_sided 98 9 103 2

rescan_run :
    (update_bbo_with_quote start lower 0 (set quotes 0 lower) venue_two_stale).best_bid
    ≡ record { price = 99; total_qty = 4; venues = entry 1 4 ∷ [] }
unfolding update_bbo_with_quote compute_bbo_from_quotes scan_best is_admissible find_slot erase_slot
rescan_run = refl

quotes_fit : FitsQuotes quotes
quotes_fit = omega arith

scan_best-IsTop_example :
    IsTop bid (offer bid all_live quotes) (offer_qty bid quotes) (scan_best bid quotes all_live)
scan_best-IsTop_example = scan_best-IsTop bid quotes all_live (quotes_fit.bids)

compute_bbo_from_quotes-IsBbo_run :
    IsBbo quotes venue_two_stale (compute_bbo_from_quotes quotes venue_two_stale)
compute_bbo_from_quotes-IsBbo_run = compute_bbo_from_quotes-IsBbo quotes venue_two_stale quotes_fit

update_bbo_with_quote-IsBbo_example : IsBbo (set quotes 0 lower) venue_two_stale (
    update_bbo_with_quote
      (compute_bbo_from_quotes quotes venue_two_stale)
      lower
      0
      (set quotes 0 lower)
      venue_two_stale)
update_bbo_with_quote-IsBbo_example =
    update_bbo_with_quote-IsBbo (compute_bbo_from_quotes quotes venue_two_stale) lower 0 quotes
      venue_two_stale (omega arith) refl quotes_fit (omega arith) (omega arith)
      (compute_bbo_from_quotes-IsBbo quotes venue_two_stale quotes_fit)

update_bbo_with_quote-SameBbo_example :
    SameBbo
      (update_bbo_with_quote
        (compute_bbo_from_quotes quotes venue_two_stale)
        lower
        0
        (set quotes 0 lower)
        venue_two_stale)
      (compute_bbo_from_quotes (set quotes 0 lower) venue_two_stale)
update_bbo_with_quote-SameBbo_example =
    update_bbo_with_quote-SameBbo (compute_bbo_from_quotes quotes venue_two_stale) lower 0 quotes
      venue_two_stale (omega arith) refl quotes_fit (omega arith) (omega arith)
      (compute_bbo_from_quotes-IsBbo quotes venue_two_stale quotes_fit)

abbrev depth_book : FlatOrderBook
unfolding new_book
depth_book = record (new_book okx (record { packed = 0 })) {
  bids = record { price = 7; qty = 2 } ∷ record { price = 9; qty = 3 } ∷ [];
}

compute_bbo-compute_bbo_from_quotes_example :
    compute_bbo (none ∷ some depth_book ∷ [])
    ≡ compute_bbo_from_quotes (map quote_of_book (none ∷ some depth_book ∷ [])) none
unfolding new_book best_bid best_ask
compute_bbo-compute_bbo_from_quotes_example =
    compute_bbo-compute_bbo_from_quotes (none ∷ some depth_book ∷ []) (tt, ((omega arith, tt), tt))
