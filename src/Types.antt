-- ===== src/Types.antt =====
-- The vocabulary of types/venue.h, md_core/types.h and md_core/venue_health.h: venue and instrument
-- keys, one price level, one level's transition, what a provider hands to Core, and the verdicts of
-- the staleness policy.
--
-- Prices and quantities are uint64_t: plain numbers, with a wrap written wherever the source adds
-- or subtracts them. Time stamps and Binance's or OKX's `prev_seq` are int64_t: signed numbers.
use aggregated_order_book.Base.{ℕ, Bool, true, false, List, ◌==◌}
use aggregated_order_book.Base.Int.{ℤ, pos}

pub data VenueId : Type 0 where
  binance bybit okx count : VenueId

pub data MarketType : Type 0 where
  spot futures : MarketType

-- `InstrumentKey`: the symbol's number above the market's byte.
pub record InstrumentKey : Type 0 where
  pub packed : ℕ

-- `operator==` compares the packed words.
abbrev pub key_eq : InstrumentKey → InstrumentKey → Bool
key_eq a b = a.packed == b.packed

pub record PriceLevel : Type 0 where
  pub price : ℕ
  pub qty : ℕ

pub record LevelChange : Type 0 where
  pub price : ℕ
  pub old_qty : ℕ
  pub new_qty : ℕ

pub record BookUpdate : Type 0 where
  pub venue : VenueId
  pub instrument : InstrumentKey
  pub seq : ℕ
  pub prev_seq : ℤ
  pub recv_ts_ns : ℤ
  pub exch_ts_ns : ℤ
  pub recv_mono_ns : ℤ
  pub is_snapshot : Bool
  pub bids : List PriceLevel
  pub asks : List PriceLevel

pub record BboQuote : Type 0 where
  pub venue : VenueId
  pub instrument : InstrumentKey
  pub seq : ℕ
  pub recv_ts_ns : ℤ
  pub exch_ts_ns : ℤ
  pub recv_mono_ns : ℤ
  pub bid_price : ℕ
  pub bid_qty : ℕ
  pub ask_price : ℕ
  pub ask_qty : ℕ

-- `BboQuote{}`: the slot of a venue that has not spoken.
abbrev pub no_quote : BboQuote
no_quote = record {
  venue = binance;
  instrument = record { packed = 0 };
  seq = 0;
  recv_ts_ns = pos 0;
  exch_ts_ns = pos 0;
  recv_mono_ns = pos 0;
  bid_price = 0;
  bid_qty = 0;
  ask_price = 0;
  ask_qty = 0;
}

-- `kMaxVenues`
abbrev pub max_venues : ℕ
max_venues = 8

-- `VenueQuoteArray` as the list of its cells; a `VenueSlot` is an index into it.
abbrev pub VenueQuoteArray : Type 0
VenueQuoteArray = List BboQuote

-- A byte from the wire is cast without a test, so that a value without a name occurs as well.
pub data VenueHealth : Type 0 where
  no_data live disconnected resyncing stale : VenueHealth
  unnamed_health : ℕ → VenueHealth

abbrev pub VenueHealthArray : Type 0
VenueHealthArray = List VenueHealth

unfoldable pub is_admissible : VenueHealth → Bool
is_admissible live = true
is_admissible _ = false

pub data StreamKind : Type 0 where
  depth bbo : StreamKind
  unnamed_stream : ℕ → StreamKind

pub record VenueHealthEvent : Type 0 where
  pub venue : VenueId
  pub stream : StreamKind
  pub health : VenueHealth
  pub decided_mono_ns : ℤ
