-- ===== src/Core/Ingest.antt =====
-- md_core/md_core.cpp: a venue's depth update, quote and health verdict, as the consolidator applies
-- them. Each yields the state and what the callbacks were given.
use aggregated_order_book.Base.{
  ℕ, zero, suc, ◌+◌, ◌%◌, ◌^◌, not, ◌||◌, Option, none, some, List, [], ◌∷◌, ◌==◌, if◌then◌else◌,
  length, get_or, set, replicate,
}
use aggregated_order_book.Base.Int.{ℤ}
use aggregated_order_book.Types.{
  unnamed_stream, unnamed_health, InstrumentKey, BookUpdate, BboQuote, max_venues, VenueQuoteArray,
  VenueHealth, VenueHealthArray, is_admissible, StreamKind, VenueHealthEvent, no_data, live,
  disconnected, resyncing, stale, depth, bbo,
}
use aggregated_order_book.Book.{FlatOrderBook, bids_view, apply_update}
use aggregated_order_book.Bbo.{Bbo, compute_bbo_from_quotes, update_bbo_with_quote}
use aggregated_order_book.Merge.{FlatBookArray}
use aggregated_order_book.State.{
  State, new_state, full_rebuild, apply_depth_delta, mark_for_rebuild, stamp_for_publish,
}
use aggregated_order_book.Core.{
  Published, Core, empty_bbo, venue_count, slot_for, published_bbo, published_book,
}
use aggregated_order_book.Core.Maps.{lookup, value_or, assign, for_each}

-- The number of levels that a venue reports with a publication: 0 without a book.
abbrev levels_of : Option FlatOrderBook → ℕ
levels_of none = 0
levels_of (some b) = length (bids_view b) % 2 ^ 32

-- `venue_levels`: the first `venue_count` of the kMaxVenues cells are filled.
unfoldable pub venue_levels : ℕ → ℕ → FlatBookArray → List ℕ
venue_levels zero n books = []
venue_levels (suc cells) zero books = replicate (suc cells) 0
venue_levels (suc cells) (suc n) [] = replicate (suc cells) 0
venue_levels (suc cells) (suc n) (b ∷ books) = levels_of b ∷ venue_levels cells n books

-- A rebuild, a repair by this venue's changes, or nothing for a venue that is not admitted.
unfoldable pub consolidate :
    State → FlatBookArray → ℕ → VenueHealthArray → ℕ → FlatOrderBook → State
consolidate s books n health slot book =
    if not book.last_changes_complete || s.needs_rebuild
    then full_rebuild s books n (some health)
    else if is_admissible (get_or health slot no_data)
    then apply_depth_delta s slot book.last_bid_changes book.last_ask_changes
    else s

-- The part of `ProcessUpdate` that runs with a book callback.
unfoldable pub publish_book :
    Core → InstrumentKey → FlatBookArray → ℕ → FlatOrderBook → ℤ → Core × List Published
publish_book c key books slot book recv_mono_ns =
    let standing = value_or (lookup c.consolidated_state key) new_state in
    let merged = consolidate standing books (venue_count c) c.depth_health slot book in
    let stamped =
      stamp_for_publish merged recv_mono_ns (venue_levels max_venues (venue_count c) books) in
    (
      record c { consolidated_state = assign c.consolidated_state key stamped },
      published_book key stamped.book ∷ [],
    )

-- `ProcessUpdate` for an instrument and a venue that have a book.
unfoldable pub update_book :
    ℕ → BookUpdate → Core → FlatBookArray → FlatOrderBook → Core × List Published
update_book slot u c books old =
    let book = apply_update old u in
    let stored = set books slot (some book) in
    let c' = record c { venue_books = assign c.venue_books u.instrument stored } in
    if c.publishes_book
    then publish_book c' u.instrument stored slot book u.recv_mono_ns
    else (c', [])

-- `ProcessUpdate`: dropped for an instrument that is unknown and for a venue without a book.
unfoldable pub process_update : ℕ → BookUpdate → Core → Core × List Published
process_update slot u c = elim (lookup c.venue_books u.instrument) [
  | none ↦ (c, [])
  | some books ↦ elim (get_or books slot none) [
    | none ↦ (c, [])
    | some old ↦ update_book slot u c books old
  ]
]

-- `ApplyUpdate`: a venue without a slot is dropped.
unfoldable pub apply_update_message : BookUpdate → Core → Core × List Published
apply_update_message u c = elim (slot_for c u.venue) [
  | none ↦ (c, [])
  | some slot ↦ process_update slot u c
]

-- The running top of book after the quote: scanned anew when the verdicts have changed since.
unfoldable pub fold_quote : Core → ℕ → BboQuote → VenueQuoteArray → Bbo
fold_quote c slot q quotes =
    let running = value_or (lookup c.consolidated_bbo q.instrument) empty_bbo in
    let seen = value_or (lookup c.bbo_health_version_seen q.instrument) 0 in
    if seen == c.bbo_health_version
    then update_bbo_with_quote running q slot quotes (some c.bbo_health)
    else compute_bbo_from_quotes quotes (some c.bbo_health)

-- `ProcessQuote` for an instrument that has quotes. Both branches leave the version seen at the
-- current one.
unfoldable pub update_quote : ℕ → BboQuote → Core → VenueQuoteArray → Core × List Published
update_quote slot q c quotes =
    let stored = set quotes slot q in
    let top = fold_quote c slot q stored in
    (
      record c {
        venue_quotes = assign c.venue_quotes q.instrument stored;
        consolidated_bbo = assign c.consolidated_bbo q.instrument top;
        bbo_health_version_seen =
            assign c.bbo_health_version_seen q.instrument c.bbo_health_version;
      },
      if c.publishes_bbo then published_bbo q.instrument top ∷ [] else [],
    )

-- `ProcessQuote`: dropped for an instrument that is unknown.
unfoldable pub process_quote : ℕ → BboQuote → Core → Core × List Published
process_quote slot q c = elim (lookup c.venue_quotes q.instrument) [
  | none ↦ (c, [])
  | some quotes ↦ update_quote slot q c quotes
]

-- `ApplyQuote`: a venue without a slot is dropped.
unfoldable pub apply_quote : BboQuote → Core → Core × List Published
apply_quote q c = elim (slot_for c q.venue) [ none ↦ (c, []) | some slot ↦ process_quote slot q c ]

-- `MarkAllForRebuild`
unfoldable pub mark_all_for_rebuild : Core → Core
mark_all_for_rebuild c = record c {
  consolidated_state = for_each (λ k s. mark_for_rebuild s) c.consolidated_state;
}

-- The enumerator's value.
abbrev pub health_value : VenueHealth → ℕ
health_value no_data = 0
health_value live = 1
health_value disconnected = 2
health_value resyncing = 3
health_value stale = 4
health_value (unnamed_health n) = n

-- The verdict that stands: `target[index]`.
abbrev pub verdict : StreamKind → Core → ℕ → VenueHealth
verdict depth c slot = get_or c.depth_health slot no_data
verdict bbo c slot = get_or c.bbo_health slot no_data
verdict (unnamed_stream n) c slot = get_or c.bbo_health slot no_data

-- A new verdict: for quotes it moves the version, otherwise it marks every consolidated book. A stream
-- without a name is not depth, so that the verdict is for quotes, and not quotes either.
unfoldable pub set_verdict : StreamKind → ℕ → VenueHealth → Core → Core
set_verdict depth slot health c =
    mark_all_for_rebuild (record c { depth_health = set c.depth_health slot health })
set_verdict bbo slot health c = record c {
  bbo_health = set c.bbo_health slot health;
  bbo_health_version = (c.bbo_health_version + 1) % 2 ^ 64;
}
set_verdict (unnamed_stream n) slot health c =
    mark_all_for_rebuild (record c { bbo_health = set c.bbo_health slot health })

-- `ProcessHealth`: a verdict that stands already changes nothing.
unfoldable pub process_health : ℕ → VenueHealthEvent → Core → Core
process_health slot e c =
    if health_value (verdict e.stream c slot) == health_value e.health
    then c
    else set_verdict e.stream slot e.health c

-- `OnVenueHealth`: a venue without a slot is dropped.
unfoldable pub on_venue_health : VenueHealthEvent → Core → Core
on_venue_health e c = elim (slot_for c e.venue) [ none ↦ c | some slot ↦ process_health slot e c ]
