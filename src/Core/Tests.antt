-- ===== src/Core/Tests.antt =====
-- One instrument, one venue that joins, sends a depth update and a quote, and leaves.
mod Removed
use aggregated_order_book.Base.{
  List, ◌+◌, ℕ, ◌<◌, ◌≡◌, refl, sym, ap, subst, ◌∙◌, true, false, none, some, [], ◌∷◌, arith,
  length, get_elem?, get_or, set, replicate, All,
}
use aggregated_order_book.Base.Text.{text_eq}
use aggregated_order_book.Base.Int.{pos}
use aggregated_order_book.Types.{
  VenueId, BboQuote, no_quote, okx, InstrumentKey, BookUpdate, is_admissible, StreamKind,
  VenueHealthEvent, binance, live, depth,
}
use aggregated_order_book.Venues.{binance_name, okx_name, to_venue_id}
use aggregated_order_book.Registry.{find_name, add_name, register_in, register}
use aggregated_order_book.Book.{FlatOrderBook, new_book, apply_update}
use aggregated_order_book.Book.Update.{IsWellFormed}
use aggregated_order_book.Merge.{FlatBookArray}
use aggregated_order_book.Merge.Books.{IsUint}
use aggregated_order_book.State.Refine.{Fits}
use aggregated_order_book.Core.{
  bbo_quote, ProviderMessage, Core, new_core, venue_count, book_update, health_event,
  venue_registration,
}
use aggregated_order_book.Core.Maps.{some-injective, lookup, assign, for_each}
use aggregated_order_book.Core.Ingest.{
  process_quote, update_quote, set_verdict, publish_book, update_book, process_update,
  mark_all_for_rebuild, process_health,
}
use aggregated_order_book.Core.Membership.{
  activate_as, register_as, books_for, add_instrument, init, register_venue_name, join_books,
  activate, process_registration, remove_venue,
}
use aggregated_order_book.Book.{bids_view, asks_view}
use aggregated_order_book.Merge.{begin_all, views}
use aggregated_order_book.Core.Members.{register_venue_name-AreMarkets}
use aggregated_order_book.Core.Verdicts.{register_venue_name-AreQuoted}
use aggregated_order_book.Core.Queues.{
  try_push, try_enqueue_bounded, offer_message, enqueue, dispatch, drain_slots, drain_once,
  has_pending,
}
use aggregated_order_book.Core.Publish.{FitsUpdate, IsPublication}
use aggregated_order_book.Core.Drain.{
  IsCore, FitsMessage, dispatch-IsCore, dispatch-IsPublication, AllFit, PassFits, drain_once-IsCore,
}
use aggregated_order_book.Core.Emptied.{drain_once-has_pending}
use aggregated_order_book.Core.Enqueue.{EnqueueCase, enqueue-EnqueueCase}
use aggregated_order_book.Core.Unnamed.{
  IsUnnamed, run_dispatches, OthersFit, remove_venue-IsUnnamed,
}
use aggregated_order_book.Core.Changes.{
  run_changes, run_changes-IsRouted, name_registered, venue_activated, venue_removed,
}
use aggregated_order_book.Core.Routing.{venue_at, IsRouted}
use aggregated_order_book.Core.Start.{init-IsCore}
use aggregated_order_book.Core.Quotes.{FitsQuote, HasVersion}

abbrev key : InstrumentKey
key = record { packed = 256 }

-- Initialised, the venue's name registered.
abbrev named_core : Core
named_core = (register_venue_name binance_name (init (key ∷ []) (new_core true true))).1

named-IsCore : IsCore named_core
unfolding register_venue_name to_venue_id register_as text_eq register
named-IsCore =
    let h = init-IsCore (key ∷ []) true in
    record {
      publishing = h.publishing;
      markets =
          register_venue_name-AreMarkets binance_name (init (key ∷ []) (new_core true true))
            h.markets;
      quoted =
          register_venue_name-AreQuoted binance_name (init (key ∷ []) (new_core true true))
            h.quoted;
    }

abbrev active_core : Core
active_core = (dispatch 0 venue_registration named_core).0

active-IsCore : IsCore active_core
unfolding FitsMessage
active-IsCore = dispatch-IsCore 0 venue_registration named_core tt named-IsCore

abbrev live_event : StreamKind → VenueHealthEvent
live_event stream = record {
  venue = binance;
  stream = stream;
  health = live;
  decided_mono_ns = pos 7;
}

abbrev live_core : Core
live_core = (dispatch 0 (health_event (live_event depth)) active_core).0

live-IsCore : IsCore live_core
unfolding FitsMessage dispatch process_registration register_venue_name register_as register
    to_venue_id text_eq activate_as activate mark_all_for_rebuild init add_instrument find_name
    add_name register_in
live-IsCore =
    dispatch-IsCore 0 (health_event (live_event depth)) active_core (refl, omega arith)
      active-IsCore

abbrev delta : BookUpdate
delta = record {
  venue = binance;
  instrument = key;
  seq = 5;
  prev_seq = pos 5;
  recv_ts_ns = pos 0;
  exch_ts_ns = pos 0;
  recv_mono_ns = pos 9;
  is_snapshot = false;
  bids = record { price = 100; qty = 5 } ∷ [];
  asks = record { price = 101; qty = 3 } ∷ [];
}

abbrev empty_book : FlatOrderBook
empty_book = new_book binance key

abbrev empty_books : FlatBookArray
empty_books = some empty_book ∷ replicate 7 none

live_books : lookup live_core.venue_books key ≡ some empty_books
unfolding lookup assign for_each dispatch process_registration register_venue_name register_as
    register to_venue_id text_eq activate_as activate mark_all_for_rebuild init add_instrument
    find_name add_name register_in process_health set_verdict books_for join_books
live_books = refl

-- A message fits when it does for the books that are there.
FitsUpdate-at :
    (slot : ℕ) (u : BookUpdate) (c : Core) (books : FlatBookArray) (old : FlatOrderBook)
    → lookup c.venue_books u.instrument ≡ some books
    → get_elem? books slot ≡ some (some old)
    → IsWellFormed u
    → IsUint (apply_update old u).bids × IsUint (apply_update old u).asks
    → Fits (some c.depth_health) (venue_count c) books
    → Fits (some c.depth_health) (venue_count c) (set books slot (some (apply_update old u)))
    → FitsUpdate slot u c
FitsUpdate-at slot u c books old at stands w n f g = record {
  well_formed = w;
  new_bids = λ bs o e d.
      let same_books = some-injective (sym at ∙ e) in
      let same_book =
        some-injective (some-injective (sym stands ∙ ap (λ x. get_elem? x slot) same_books ∙ d)) in
      subst (λ x. IsUint (apply_update x u).bids × IsUint (apply_update x u).asks) same_book n;
  fits = λ bs e. subst (Fits (some c.depth_health) (venue_count c)) (some-injective (sym at ∙ e)) f;
  new_fits = λ bs o e d.
      let same_books = some-injective (sym at ∙ e) in
      let same_book =
        some-injective (some-injective (sym stands ∙ ap (λ x. get_elem? x slot) same_books ∙ d)) in
      subst
        (λ x. Fits (some c.depth_health) (venue_count c) (set bs slot (some (apply_update x u))))
        same_book
        (subst
          (λ x. Fits (some c.depth_health) (venue_count c) (set x slot (some (apply_update old u))))
          same_books g);
}

delta-FitsMessage : FitsMessage 0 (book_update delta) live_core
unfolding FitsMessage dispatch process_registration register_venue_name register_as register
    to_venue_id text_eq activate_as activate mark_all_for_rebuild init add_instrument find_name
    add_name register_in process_health set_verdict apply_update new_book bids_view asks_view
    begin_all views is_admissible
delta-FitsMessage =
    FitsUpdate-at 0 delta live_core empty_books empty_book live_books refl
      (record { bids = (refl, tt); asks = (refl, tt) }) ((omega arith, tt), (omega arith, tt))
      (record { bids = omega arith; asks = omega arith })
      (record { bids = omega arith; asks = omega arith })

dispatch-IsPublication_example :
    All
      (IsPublication (dispatch 0 (book_update delta) live_core).0)
      (dispatch 0 (book_update delta) live_core).1
dispatch-IsPublication_example =
    dispatch-IsPublication 0 (book_update delta) live_core delta-FitsMessage live-IsCore

-- One book is published.
delta_run : length (dispatch 0 (book_update delta) live_core).1 ≡ 1
unfolding lookup assign for_each dispatch process_registration register_venue_name register_as
    register to_venue_id text_eq activate_as activate mark_all_for_rebuild init add_instrument
    find_name add_name register_in process_health set_verdict books_for join_books process_update
    update_book publish_book
delta_run = refl

-- The same messages in the queue of the slot.
abbrev queued_core : Core
queued_core =
    (enqueue 0 (health_event (live_event depth)) (enqueue 0 venue_registration named_core).1).1

queued_run :
    get_or queued_core.queues 0 [] ≡ venue_registration ∷ health_event (live_event depth) ∷ []
unfolding enqueue offer_message try_enqueue_bounded try_push register_venue_name register_as
    register to_venue_id text_eq init add_instrument find_name add_name register_in
queued_run = refl

queued-IsCore : IsCore queued_core
unfolding enqueue offer_message try_enqueue_bounded try_push register_venue_name register_as
    register to_venue_id text_eq init add_instrument find_name add_name register_in
queued-IsCore = record {
  publishing = named-IsCore.publishing;
  markets = named-IsCore.markets;
  quoted = named-IsCore.quoted;
}

queued-PassFits : PassFits (venue_count queued_core) 0 queued_core
unfolding PassFits AllFit FitsMessage enqueue offer_message try_enqueue_bounded try_push
    register_venue_name register_as register to_venue_id text_eq init add_instrument find_name
    add_name register_in dispatch process_registration activate_as activate mark_all_for_rebuild
queued-PassFits = ((tt, ((refl, omega arith), tt)), tt)

drain_once-IsCore_example : IsCore (drain_once queued_core).1.0
drain_once-IsCore_example = drain_once-IsCore queued_core queued-PassFits queued-IsCore

drain_once-has_pending_example : has_pending (drain_once queued_core).1.0 ≡ false
drain_once-has_pending_example = drain_once-has_pending queued_core

drain_once_run : (drain_once queued_core).0 ≡ 2
unfolding drain_once drain_slots enqueue offer_message try_enqueue_bounded try_push
    register_venue_name register_as register to_venue_id text_eq init add_instrument find_name
    add_name register_in
drain_once_run = refl

enqueue-EnqueueCase_example :
    EnqueueCase 0 venue_registration named_core (enqueue 0 venue_registration named_core)
enqueue-EnqueueCase_example = enqueue-EnqueueCase 0 venue_registration named_core

run_changes-IsRouted_example : IsRouted (
    run_changes
      (name_registered okx_name
        ∷ venue_activated 0
        ∷ name_registered binance_name
        ∷ venue_activated 1
        ∷ venue_removed 0
        ∷ [])
      (new_core true true))
run_changes-IsRouted_example =
    run_changes-IsRouted
      (name_registered okx_name
        ∷ venue_activated 0
        ∷ name_registered binance_name
        ∷ venue_activated 1
        ∷ venue_removed 0
        ∷ [])
      true true
