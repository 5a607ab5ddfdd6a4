-- ===== src/Health.antt =====
-- md_core/venue_health.h: the staleness policy. Times and ages are int64_t, taken not to overflow.
pub mod Ages
use aggregated_order_book.Base.{Bool, not, if◌then◌else◌}
use aggregated_order_book.Base.Int.{ℤ, ◌-ℤ◌, ltb_ℤ, is_zero_ℤ}
use aggregated_order_book.Types.{VenueHealth, no_data, live, disconnected, stale}

-- `ClassifyVenue`
unfoldable pub classify_venue : ℤ → ℤ → ℤ → VenueHealth
classify_venue last now stale_after =
    if is_zero_ℤ last then no_data else if ltb_ℤ stale_after (now -ℤ last) then stale else live

-- `ClassifyFeed`
unfoldable pub classify_feed : Bool → ℤ → ℤ → ℤ → VenueHealth
classify_feed connected last now backstop =
    if not connected then disconnected else classify_venue last now backstop
