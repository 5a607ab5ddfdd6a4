-- ===== src/Core/Membership.antt =====
-- md_core/md_core.cpp: instruments and venues joining and leaving the consolidator.
use aggregated_order_book.Base.{
  ℕ, ◌+◌, ◌%◌, ◌^◌, Option, none, some, List, [], ◌∷◌, leb, if◌then◌else◌, get_or, set,
}
use aggregated_order_book.Base.Text.{Text}
use aggregated_order_book.Types.{VenueId, InstrumentKey, no_quote, count, no_data}
use aggregated_order_book.Venues.{venue_index, to_venue_id}
use aggregated_order_book.Registry.{register, name_at}
use aggregated_order_book.Book.{new_book}
use aggregated_order_book.Merge.{FlatBookArray}
use aggregated_order_book.State.{new_state}
use aggregated_order_book.Core.{Core, no_quotes, empty_bbo, venue_count}
use aggregated_order_book.Core.Maps.{lookup, value_or, assign, for_each}
use aggregated_order_book.Core.Ingest.{mark_all_for_rebuild}

-- A new instrument's books: one for each active venue.
unfoldable pub books_for : InstrumentKey → List (Option VenueId) → FlatBookArray
books_for key [] = []
books_for key (none ∷ venues) = none ∷ books_for key venues
books_for key (some v ∷ venues) = some (new_book v key) ∷ books_for key venues

-- `AddInstrument`: `consolidated_state_[instrument]` makes an entry when there is none.
unfoldable pub add_instrument : InstrumentKey → Core → Core
unfolding books_for
add_instrument key c = record c {
  venue_books = assign c.venue_books key (books_for key c.active_venues);
  venue_quotes = assign c.venue_quotes key no_quotes;
  consolidated_state =
      assign c.consolidated_state key (value_or (lookup c.consolidated_state key) new_state);
}

-- `Init`: each instrument of the configuration, with its running top of book.
unfoldable pub init : List InstrumentKey → Core → Core
unfolding add_instrument
init [] c = c
init (key ∷ keys) c =
    let c' = add_instrument key c in
    init keys (record c' {
      consolidated_bbo =
          assign c'.consolidated_bbo key (value_or (lookup c'.consolidated_bbo key) empty_bbo);
    })

-- `RegisterVenueName` for a name of this venue; `count` stands for none.
unfoldable pub register_as : VenueId → Text → Core → Option ℕ × Core
register_as count name c = (none, c)
register_as v name c =
    let (slot, registry) = register c.venue_registry name in
    (slot, record c { venue_registry = registry })

-- `RegisterVenueName`: refused unless the name is a venue's.
unfoldable pub register_venue_name : Text → Core → Option ℕ × Core
register_venue_name name c = register_as (to_venue_id name) name c

-- The books of one instrument after a venue has joined: one is made where there is none.
unfoldable pub join_books : ℕ → VenueId → InstrumentKey → FlatBookArray → FlatBookArray
join_books slot venue key books = elim (get_or books slot none) [
  | none ↦ set books slot (some (new_book venue key))
  | some b ↦ books
]

-- `ProcessRegistration` for a slot whose name is a venue's.
unfoldable pub activate : ℕ → VenueId → Core → Core
activate slot venue c = mark_all_for_rebuild (record c {
  active_venues = set c.active_venues slot (some venue);
  venue_id_to_slot = set c.venue_id_to_slot (venue_index venue) (some slot);
  venue_books = for_each (join_books slot venue) c.venue_books;
})

-- `ProcessRegistration` for a slot of this venue; `count` stands for none.
unfoldable pub activate_as : VenueId → ℕ → Core → Core
activate_as count slot c = c
activate_as v slot c = activate slot v c

-- `ProcessRegistration`: ignored for a slot whose name is no venue's.
unfoldable pub process_registration : ℕ → Core → Core
process_registration slot c = activate_as (to_venue_id (name_at c.venue_registry slot)) slot c

-- `RegisterVenue`
unfoldable pub register_venue : Text → Core → Option ℕ × Core
unfolding register_venue_name process_registration
register_venue name c =
    let (slot, c') = register_venue_name name c in
    elim slot [ none ↦ (none, c') | some i ↦ (some i, process_registration i c') ]

-- `RemoveVenue` for an active slot: its venue has no slot any more, its books and quotes are emptied
-- and its verdicts taken back.
unfoldable pub deactivate : ℕ → VenueId → Core → Core
deactivate slot venue c = mark_all_for_rebuild (record c {
  venue_id_to_slot = set c.venue_id_to_slot (venue_index venue) none;
  active_venues = set c.active_venues slot none;
  venue_books = for_each (λ k books. set books slot none) c.venue_books;
  venue_quotes = for_each (λ k quotes. set quotes slot no_quote) c.venue_quotes;
  depth_health = set c.depth_health slot no_data;
  bbo_health = set c.bbo_health slot no_data;
  bbo_health_version = (c.bbo_health_version + 1) % 2 ^ 64;
})

unfoldable pub deactivate_as : Option VenueId → ℕ → Core → Core
deactivate_as none slot c = c
deactivate_as (some v) slot c = deactivate slot v c

-- `RemoveVenue`: ignored for a slot that is not registered or not active.
unfoldable pub remove_venue : ℕ → Core → Core
remove_venue slot c =
    if leb (venue_count c) slot then c else deactivate_as (get_or c.active_venues slot none) slot c
