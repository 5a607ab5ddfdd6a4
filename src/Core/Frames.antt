-- ===== src/Core/Frames.antt =====
-- What the dispatch of a message leaves alone: the queues, the registered names and the callbacks.
use aggregated_order_book.Base.{
  ℕ, ◌≡◌, refl, inl, inr, Option, none, some, leb, ◌==◌, Bool-cases, Option-cases, get_or,
}
use aggregated_order_book.Types.{
  unnamed_stream, VenueId, BookUpdate, BboQuote, VenueHealth, StreamKind, VenueHealthEvent, binance,
  bybit, okx, count, depth, bbo,
}
use aggregated_order_book.Venues.{to_venue_id}
use aggregated_order_book.Registry.{name_at}
use aggregated_order_book.Book.{FlatOrderBook}
use aggregated_order_book.Merge.{FlatBookArray}
use aggregated_order_book.Core.{
  ProviderMessage, Core, venue_count, book_update, bbo_quote, health_event, venue_registration,
  venue_disconnect,
}
use aggregated_order_book.Core.Maps.{lookup}
use aggregated_order_book.Core.Ingest.{
  verdict, set_verdict, publish_book, update_book, process_update, update_quote, process_quote,
  mark_all_for_rebuild, health_value, process_health,
}
use aggregated_order_book.Core.Membership.{
  deactivate_as, activate_as, activate, process_registration, deactivate, remove_venue,
}
use aggregated_order_book.Core.Publish.{applied, dropped, update_case, dropped}
use aggregated_order_book.Core.Queues.{dispatch}

pub record Keeps (c c' : Core) : Type 0 where
  pub queues : c'.queues ≡ c.queues
  pub registry : c'.venue_registry ≡ c.venue_registry
  pub publishes : c'.publishes_book ≡ c.publishes_book

kept : (c : Core) → Keeps c c
kept c = record { queues = refl; registry = refl; publishes = refl }

update_book-Keeps :
    (slot : ℕ) (u : BookUpdate) (c : Core) (books : FlatBookArray) (old : FlatOrderBook)
    → Keeps c (update_book slot u c books old).0
unfolding update_book publish_book
update_book-Keeps slot u c books old = elim (Bool-cases c.publishes_book) [
  | inl a ↦ rw (update_book, a) (record { queues = refl; registry = refl; publishes = refl })
  | inr a ↦ rw (update_book, a) (record { queues = refl; registry = refl; publishes = refl })
]

process_update-Keeps : (slot : ℕ) (u : BookUpdate) (c : Core) → Keeps c (process_update slot u c).0
process_update-Keeps slot u c = elim (update_case slot u c) [
  | dropped r ↦ rw r (kept c)
  | applied books old a b r ↦ rw r (update_book-Keeps slot u c books old)
]

process_quote-Keeps : (slot : ℕ) (q : BboQuote) (c : Core) → Keeps c (process_quote slot q c).0
unfolding process_quote update_quote
process_quote-Keeps slot q c = elim (Option-cases (lookup c.venue_quotes q.instrument)) [
  | inl a ↦ rw (process_quote, a) (kept c)
  | inr (quotes, a) ↦
      rw (process_quote, a) (record { queues = refl; registry = refl; publishes = refl })
]

set_verdict-Keeps :
    (stream : StreamKind) (slot : ℕ) (health : VenueHealth) (c : Core)
    → Keeps c (set_verdict stream slot health c)
unfolding set_verdict mark_all_for_rebuild
set_verdict-Keeps depth slot health c = record { queues = refl; registry = refl; publishes = refl }
set_verdict-Keeps bbo slot health c = record { queues = refl; registry = refl; publishes = refl }
set_verdict-Keeps (unnamed_stream n) slot health c = record {
  queues = refl;
  registry = refl;
  publishes = refl;
}

process_health-Keeps :
    (slot : ℕ) (e : VenueHealthEvent) (c : Core) → Keeps c (process_health slot e c)
unfolding process_health
process_health-Keeps slot e c =
    elim (Bool-cases (health_value (verdict e.stream c slot) == health_value e.health)) [
      | inl a ↦ rw (process_health, a) (kept c)
      | inr a ↦ rw (process_health, a) (set_verdict-Keeps e.stream slot e.health c)
    ]

activate_as-Keeps : (v : VenueId) (slot : ℕ) (c : Core) → Keeps c (activate_as v slot c)
unfolding activate_as activate mark_all_for_rebuild
activate_as-Keeps count slot c = kept c
activate_as-Keeps binance slot c = record { queues = refl; registry = refl; publishes = refl }
activate_as-Keeps bybit slot c = record { queues = refl; registry = refl; publishes = refl }
activate_as-Keeps okx slot c = record { queues = refl; registry = refl; publishes = refl }

deactivate_as-Keeps : (v : Option VenueId) (slot : ℕ) (c : Core) → Keeps c (deactivate_as v slot c)
unfolding deactivate_as deactivate mark_all_for_rebuild
deactivate_as-Keeps none slot c = kept c
deactivate_as-Keeps (some v) slot c = record { queues = refl; registry = refl; publishes = refl }

remove_venue-Keeps : (slot : ℕ) (c : Core) → Keeps c (remove_venue slot c)
unfolding remove_venue
remove_venue-Keeps slot c = elim (Bool-cases (leb (venue_count c) slot)) [
  | inl a ↦ rw (remove_venue, a) (kept c)
  | inr a ↦ rw (remove_venue, a) (deactivate_as-Keeps (get_or c.active_venues slot none) slot c)
]

pub dispatch-Keeps : (slot : ℕ) (m : ProviderMessage) (c : Core) → Keeps c (dispatch slot m c).0
unfolding dispatch process_registration
dispatch-Keeps slot (book_update u) c = process_update-Keeps slot u c
dispatch-Keeps slot (bbo_quote q) c = process_quote-Keeps slot q c
dispatch-Keeps slot (health_event e) c = process_health-Keeps slot e c
dispatch-Keeps slot venue_registration c =
    activate_as-Keeps (to_venue_id (name_at c.venue_registry slot)) slot c
dispatch-Keeps slot venue_disconnect c = remove_venue-Keeps slot c
