-- ===== src/Core.antt =====
-- md_core/md_core.h, md_core.cpp and provider_message.h: the consolidator. `Core` holds the venues'
-- slots, their queues and verdicts, and for each instrument the venues' books and quotes, the running
-- top of book and the standing consolidated book.
--
-- Each `unordered_map` is an association list that is read by its first entry under a key. A queue is
-- what stands in the ring, oldest first; Spsc has the ring itself. Logging and the timings are left
-- out.
pub mod Maps
pub mod Ingest
pub mod Membership
pub mod Queues
pub mod Arrays
pub mod Standing
pub mod Markets
pub mod Members
pub mod Publish
pub mod Frames
pub mod Drain
pub mod Enqueue
pub mod Routing
pub mod Start
pub mod Removal
pub mod Silent
pub mod Unnamed
pub mod Changes
mod Tests
pub mod Emptied
pub mod Quotes
pub mod Verdicts
use aggregated_order_book.Base.{ℕ, Bool, false, Option, none, List, [], get_or, replicate}
use aggregated_order_book.Types.{
  VenueId, InstrumentKey, BookUpdate, BboQuote, no_quote, max_venues, VenueQuoteArray, no_data,
  VenueHealthArray, VenueHealthEvent,
}
use aggregated_order_book.Bbo.{Bbo, empty_level}
use aggregated_order_book.Merged.{MergedBook}
use aggregated_order_book.Merge.{FlatBookArray}
use aggregated_order_book.State.{State}
use aggregated_order_book.Registry.{VenueRegistry, new_registry, registered}
use aggregated_order_book.Venues.{venue_index}

-- `ProviderMessage`, the variant
pub data ProviderMessage : Type 0 where
  book_update : BookUpdate → ProviderMessage
  bbo_quote : BboQuote → ProviderMessage
  health_event : VenueHealthEvent → ProviderMessage
  venue_registration venue_disconnect : ProviderMessage

-- What the callbacks are given.
pub data Published : Type 0 where
  published_bbo : InstrumentKey → Bbo → Published
  published_book : InstrumentKey → MergedBook → Published

abbrev pub KeyMap : Type 0 → Type 0
KeyMap A = List (InstrumentKey × A)

-- `publishes_bbo` and `publishes_book` say whether the constructor was given the callbacks.
pub record Core : Type 0 where
  pub publishes_bbo : Bool
  pub publishes_book : Bool
  pub active_venues : List (Option VenueId)
  pub venue_id_to_slot : List (Option ℕ)
  pub venue_registry : VenueRegistry
  pub queues : List (List ProviderMessage)
  pub overflow_count : List ℕ
  pub quote_drop_count : List ℕ
  pub depth_health : VenueHealthArray
  pub bbo_health : VenueHealthArray
  pub bbo_health_version : ℕ
  pub bbo_health_version_seen : KeyMap ℕ
  pub venue_books : KeyMap FlatBookArray
  pub venue_quotes : KeyMap VenueQuoteArray
  pub consolidated_bbo : KeyMap Bbo
  pub consolidated_state : KeyMap State

-- The constructor, with the member initialisers of the header.
abbrev pub new_core : Bool → Bool → Core
new_core publishes_bbo publishes_book = record {
  publishes_bbo = publishes_bbo;
  publishes_book = publishes_book;
  active_venues = replicate max_venues none;
  venue_id_to_slot = replicate 3 none;
  venue_registry = new_registry;
  queues = replicate max_venues [];
  overflow_count = replicate max_venues 0;
  quote_drop_count = replicate max_venues 0;
  depth_health = replicate max_venues no_data;
  bbo_health = replicate max_venues no_data;
  bbo_health_version = 0;
  bbo_health_version_seen = [];
  venue_books = [];
  venue_quotes = [];
  consolidated_bbo = [];
  consolidated_state = [];
}

-- `VenueQuoteArray{}` and `consolidated::BBO{}`
abbrev pub no_quotes : VenueQuoteArray
no_quotes = replicate max_venues no_quote

abbrev pub empty_bbo : Bbo
empty_bbo = record { best_bid = empty_level; best_ask = empty_level; crossed = false }

-- `venue_count`
abbrev pub venue_count : Core → ℕ
venue_count c = registered c.venue_registry

-- `SlotFor`: no slot for a venue outside the table or one that is not active.
unfoldable pub slot_for : Core → VenueId → Option ℕ
slot_for c venue = get_or c.venue_id_to_slot (venue_index venue) none
