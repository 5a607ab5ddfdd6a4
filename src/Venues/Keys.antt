-- ===== src/Venues/Keys.antt =====
-- An instrument key is its symbol and its market.
use aggregated_order_book.Base.{ℕ, ◌^◌, ◌<◌, ◌≡◌, arith}
use aggregated_order_book.Types.{MarketType, spot, futures}
use aggregated_order_book.Venues.{market_value, make_key, symbol_of, market_of}

-- A key made of a symbol and a market gives both back.
make_key-fields :
    (symbol : ℕ) (market : MarketType)
    → symbol < 2 ^ 16
    → (symbol_of (make_key symbol market) ≡ symbol)
      × (market_of (make_key symbol market) ≡ market_value market)
unfolding symbol_of market_of make_key market_value
make_key-fields symbol spot h = (omega arith, omega arith)
make_key-fields symbol futures h = (omega arith, omega arith)
