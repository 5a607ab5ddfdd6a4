-- ===== src/Merged.antt =====
-- The consolidated depth book of md_core/consolidated_book.h.
pub mod Held
pub mod Unique
use aggregated_order_book.Base.{ℕ, List}
use aggregated_order_book.Base.Int.{ℤ}
use aggregated_order_book.Bbo.Venues.{VenueQuote}

-- `MergedLevel`: the fixed array `venues` with its `venue_count` is the list of the entries in use.
pub record MergedLevel : Type 0 where
  pub price : ℕ
  pub venues : List VenueQuote
  pub qty : ℕ

-- `consolidated::Book`: both sides best first.
pub record MergedBook : Type 0 where
  pub bids : List MergedLevel
  pub asks : List MergedLevel
  pub source_mono_ns : ℤ
  pub venue_levels : List ℕ
