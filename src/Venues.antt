-- ===== src/Venues.antt =====
-- types/venue.h: instrument keys as packed words, and the names of venues, markets and instruments.
--
-- An enumerator that is cast from an integer or to one stands as that integer: an `InstrumentId`, and
-- the market byte of a key.
pub mod Names
pub mod Keys
mod Tests
use aggregated_order_book.Base.{
  ℕ, ◌+◌, ◌*◌, ◌/◌, ◌%◌, ◌^◌, Option, none, some, [], ◌∷◌, ◌++◌, ◌==◌, if◌then◌else◌,
}
use aggregated_order_book.Base.Text.{Text, text_eq}
use aggregated_order_book.Types.{
  VenueId, binance, bybit, okx, count, MarketType, spot, futures, InstrumentKey,
}

-- "BINANCE"
abbrev pub binance_name : Text
binance_name = 66 ∷ 73 ∷ 78 ∷ 65 ∷ 78 ∷ 67 ∷ 69 ∷ []

-- "BYBIT"
abbrev pub bybit_name : Text
bybit_name = 66 ∷ 89 ∷ 66 ∷ 73 ∷ 84 ∷ []

-- "OKX"
abbrev pub okx_name : Text
okx_name = 79 ∷ 75 ∷ 88 ∷ []

-- "UNKNOWN"
abbrev pub unknown_name : Text
unknown_name = 85 ∷ 78 ∷ 75 ∷ 78 ∷ 79 ∷ 87 ∷ 78 ∷ []

-- "spot"
abbrev pub spot_name : Text
spot_name = 115 ∷ 112 ∷ 111 ∷ 116 ∷ []

-- "futures"
abbrev pub futures_name : Text
futures_name = 102 ∷ 117 ∷ 116 ∷ 117 ∷ 114 ∷ 101 ∷ 115 ∷ []

-- "BTCUSDT"
abbrev pub btcusdt_name : Text
btcusdt_name = 66 ∷ 84 ∷ 67 ∷ 85 ∷ 83 ∷ 68 ∷ 84 ∷ []

-- "ETHUSDT"
abbrev pub ethusdt_name : Text
ethusdt_name = 69 ∷ 84 ∷ 72 ∷ 85 ∷ 83 ∷ 68 ∷ 84 ∷ []

-- "SOLUSDT"
abbrev pub solusdt_name : Text
solusdt_name = 83 ∷ 79 ∷ 76 ∷ 85 ∷ 83 ∷ 68 ∷ 84 ∷ []

-- static_cast<size_t>(VenueId)
unfoldable pub venue_index : VenueId → ℕ
venue_index binance = 0
venue_index bybit = 1
venue_index okx = 2
venue_index count = 3

-- static_cast<uint32_t>(MarketType)
unfoldable pub market_value : MarketType → ℕ
market_value spot = 0
market_value futures = 1

-- `MakeKey`: the two fields are disjoint bits, so that `|` is a sum.
pub make_key : ℕ → MarketType → InstrumentKey
make_key symbol market = record {
  packed = ((symbol % 2 ^ 16) * 2 ^ 8 + market_value market) % 2 ^ 32;
}

-- `Symbol` and `Market`
pub symbol_of : InstrumentKey → ℕ
symbol_of key = (key.packed / 2 ^ 8) % 2 ^ 16

pub market_of : InstrumentKey → ℕ
market_of key = key.packed % 2 ^ 8

-- `ToVenueString`
unfoldable pub to_venue_string : VenueId → Text
to_venue_string binance = binance_name
to_venue_string bybit = bybit_name
to_venue_string okx = okx_name
to_venue_string count = unknown_name

-- `ToVenueId`
unfoldable pub to_venue_id : Text → VenueId
to_venue_id name =
    if text_eq name binance_name
    then binance
    else if text_eq name bybit_name
    then bybit
    else if text_eq name okx_name
    then okx
    else count

-- `ToMarketString`
pub to_market_string : ℕ → Text
to_market_string market = if market == 0 then spot_name else futures_name

-- `ToMarketType`
pub to_market_type : Text → Option MarketType
to_market_type name =
    if text_eq name spot_name
    then some spot
    else if text_eq name futures_name
    then some futures
    else none

-- `ToInstrumentString`
pub to_instrument_string : ℕ → Text
to_instrument_string id =
    if id == 0
    then btcusdt_name
    else if id == 1
    then ethusdt_name
    else if id == 2
    then solusdt_name
    else unknown_name

-- `ToInstrumentId`
pub to_instrument_id : Text → Option ℕ
to_instrument_id name =
    if text_eq name btcusdt_name
    then some 0
    else if text_eq name ethusdt_name
    then some 1
    else if text_eq name solusdt_name
    then some 2
    else none

-- `ToInstrumentString` of a key: symbol, colon, market.
pub key_string : InstrumentKey → Text
key_string key = to_instrument_string (symbol_of key) ++ 58 ∷ to_market_string (market_of key)
