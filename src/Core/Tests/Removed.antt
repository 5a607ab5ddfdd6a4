-- ===== src/Core/Tests/Removed.antt =====
-- The venue leaves after a quote, and another venue joins and quotes.
use aggregated_order_book.Base.{List, ◌+◌, ℕ, ◌<◌, ◌≡◌, refl, some, [], ◌∷◌, arith, All}
use aggregated_order_book.Base.Text.{text_eq}
use aggregated_order_book.Types.{VenueId, BboQuote, no_quote, okx, binance}
use aggregated_order_book.Venues.{to_venue_id}
use aggregated_order_book.Registry.{find_name, add_name, register_in, register}
use aggregated_order_book.Core.{bbo_quote, ProviderMessage, Core, venue_count, venue_registration}
use aggregated_order_book.Core.Maps.{lookup, assign}
use aggregated_order_book.Core.Ingest.{
  process_quote, update_quote, set_verdict, mark_all_for_rebuild, process_health,
}
use aggregated_order_book.Core.Membership.{
  activate_as, register_as, add_instrument, init, register_venue_name, activate,
  process_registration, remove_venue,
}
use aggregated_order_book.Core.Queues.{dispatch}
use aggregated_order_book.Core.Drain.{IsCore, FitsMessage, dispatch-IsCore}
use aggregated_order_book.Core.Unnamed.{
  IsUnnamed, run_dispatches, OthersFit, remove_venue-IsUnnamed,
}
use aggregated_order_book.Core.Routing.{venue_at}
use aggregated_order_book.Core.Quotes.{FitsQuote, HasVersion}
use aggregated_order_book.Core.Tests.{key, live_core, live-IsCore}

abbrev quote_of_venue : VenueId → ℕ → BboQuote
quote_of_venue v price = record no_quote {
  venue = v;
  instrument = key;
  bid_price = price;
  bid_qty = 4;
  ask_price = price + 1;
  ask_qty = 6;
}

quote_fits : (v : VenueId) (price slot : ℕ) → slot < 8 → FitsQuote slot (quote_of_venue v price)
quote_fits v price slot l = record { inside = l; bid_qty = omega arith; ask_qty = omega arith }

-- With a quote of the venue that leaves.
abbrev quoted_core : Core
quoted_core = (dispatch 0 (bbo_quote (quote_of_venue binance 100)) live_core).0

quoted-IsCore : IsCore quoted_core
unfolding FitsMessage
quoted-IsCore =
    dispatch-IsCore 0 (bbo_quote (quote_of_venue binance 100)) live_core
      (quote_fits binance 100 0 (omega arith)) live-IsCore

quoted_facts :
    HasVersion quoted_core × (0 < venue_count quoted_core) × (venue_at quoted_core 0 ≡ some binance)
unfolding dispatch process_registration register_venue_name register_as register to_venue_id text_eq
    activate_as activate mark_all_for_rebuild init add_instrument find_name add_name register_in
    process_health set_verdict process_quote update_quote lookup assign
quoted_facts = (omega arith, omega arith, refl)

-- Another venue joins and sends a worse quote.
abbrev others : List (ℕ × ProviderMessage)
others = (1, venue_registration) ∷ (1, bbo_quote (quote_of_venue okx 90)) ∷ []

others-OthersFit : OthersFit 0 others (remove_venue 0 quoted_core)
unfolding OthersFit FitsMessage
others-OthersFit =
    ((λ e. absurd (cc)), tt, ((λ e. absurd (cc)), quote_fits okx 90 1 (omega arith), tt))

remove_venue-IsUnnamed_example :
    All (IsUnnamed 0) (run_dispatches others (remove_venue 0 quoted_core)).1
remove_venue-IsUnnamed_example =
    remove_venue-IsUnnamed 0 binance quoted_core others quoted-IsCore quoted_facts.0 quoted_facts.1
      quoted_facts.2 others-OthersFit
