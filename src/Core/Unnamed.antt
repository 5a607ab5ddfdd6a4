-- ===== src/Core/Unnamed.antt =====
-- After a removal, whatever is published shows nothing of the removed venue.
use aggregated_order_book.Base.{
  ℕ, ◌<◌, ◌≡◌, ◌≢◌, ap, ◌∙◌, inl, inr, none, some, List, [], ◌∷◌, ◌++◌, arith, Bool-cases,
  Option-cases, set, All, All-append,
}
use aggregated_order_book.Types.{
  VenueId, InstrumentKey, BookUpdate, BboQuote, VenueQuoteArray, VenueHealthArray,
}
use aggregated_order_book.Merge.{FlatBookArray}
use aggregated_order_book.Merge.Result.{brought}
use aggregated_order_book.Merged.Held.{held}
use aggregated_order_book.Book.{asks_view, bids_view, apply_update}
use aggregated_order_book.Bbo.{Side, Bbo, bid, ask}
use aggregated_order_book.Bbo.Venues.{find_slot}
use aggregated_order_book.Bbo.Update.{IsBbo}
use aggregated_order_book.Core.{
  Core, ProviderMessage, Published, venue_count, book_update, bbo_quote, health_event,
  venue_registration, venue_disconnect, published_bbo, published_book,
}
use aggregated_order_book.Core.Maps.{lookup}
use aggregated_order_book.Core.Ingest.{process_update, fold_quote, update_quote, process_quote}
use aggregated_order_book.Core.Membership.{remove_venue}
use aggregated_order_book.Core.Routing.{venue_at}
use aggregated_order_book.Core.Standing.{IsMergeOf}
use aggregated_order_book.Core.Publish.{
  FitsUpdate, update_case, update_book-updated, stamped, stamped-IsMergeOf, dropped, applied,
}
use aggregated_order_book.Core.Quotes.{FitsQuote, HasVersion, fold_quote-IsBbo}
use aggregated_order_book.Core.Queues.{dispatch}
use aggregated_order_book.Core.Drain.{IsCore, FitsMessage, dispatch-IsCore}
use aggregated_order_book.Core.Silent.{
  NoBook, NoQuote, IsSilent, set-NoBook, set-NoQuote, remove_venue-IsSilent, dispatch-IsSilent,
}
use aggregated_order_book.Merged.{MergedBook}
use aggregated_order_book.Bbo.Top.{quote_at}
use aggregated_order_book.Bbo.Scan.{offer_qty, offer}

-- A publication that shows no quantity of the slot at any price.
unfoldable pub IsUnnamed : ℕ → Published → Type 0
IsUnnamed slot (published_book key b) =
    (p : ℕ) → (held b.bids slot p ≡ 0) × (held b.asks slot p ≡ 0)
IsUnnamed slot (published_bbo key b) =
    (find_slot b.best_bid.venues slot ≡ none) × (find_slot b.best_ask.venues slot ≡ none)

IsMergeOf-IsUnnamed :
    (slot : ℕ) (key : InstrumentKey) (health : VenueHealthArray) (books : FlatBookArray)
    (b : MergedBook)
    → NoBook slot books
    → IsMergeOf health books b
    → IsUnnamed slot (published_book key b)
unfolding IsUnnamed
IsMergeOf-IsUnnamed slot key health books b n h p = (
  h.bids.quantities slot p ∙ ap (λ o. brought bids_view (some health) slot o p) n,
  h.asks.quantities slot p ∙ ap (λ o. brought asks_view (some health) slot o p) n,
)

IsBbo-IsUnnamed :
    (slot : ℕ) (key : InstrumentKey) (health : VenueHealthArray) (quotes : VenueQuoteArray)
    (b : Bbo)
    → NoQuote slot quotes
    → IsBbo quotes (some health) b
    → IsUnnamed slot (published_bbo key b)
unfolding IsUnnamed
IsBbo-IsUnnamed slot key health quotes b n h = (
  h.bids.venues slot ∙ nothing bid b.best_bid.price,
  h.asks.venues slot ∙ nothing ask b.best_ask.price,
)
  where
    nothing :
        (side : Side) (p : ℕ)
        → quote_at (offer side (some health) quotes) (offer_qty side quotes) p slot ≡ none
    nothing bid p = rw n (ground arith)
    nothing ask p = rw n (ground arith)

-- The messages of another slot.
module _ (slot i : ℕ) (other : i ≢ slot) (c : Core) (h : IsCore c) (quiet : IsSilent slot c) where
  process_update-IsUnnamed :
      (u : BookUpdate) → FitsUpdate i u c → All (IsUnnamed slot) (process_update i u c).1
  process_update-IsUnnamed u f = elim (update_case i u c) [
    | dropped r ↦ rw r tt
    | applied books old a b r ↦
        rw (r, update_book-updated i u c books old a b h.markets f h.publishing)
          (
            IsMergeOf-IsUnnamed slot u.instrument c.depth_health
                (set books i (some (apply_update old u)))
                (stamped i u c books old a b h.markets f h.publishing).book
                (set-NoBook slot i other books (some (apply_update old u))
                  (quiet.books u.instrument books a))
                (stamped-IsMergeOf i u c books old a b h.markets f h.publishing),
            tt,
          )
  ]

  process_quote-IsUnnamed :
      (q : BboQuote) → FitsQuote i q → All (IsUnnamed slot) (process_quote i q c).1
  unfolding process_quote update_quote fold_quote
  process_quote-IsUnnamed q f = elim (Option-cases (lookup c.venue_quotes q.instrument)) [
    | inl a ↦ rw (process_quote, a) tt
    | inr (quotes, a) ↦ elim (Bool-cases c.publishes_bbo) [
      | inr b ↦ rw (process_quote, a, update_quote, b) tt
      | inl b ↦
          rw (process_quote, a, update_quote, b)
            (
              IsBbo-IsUnnamed slot q.instrument c.bbo_health (set quotes i q)
                  (fold_quote c i q (set quotes i q))
                  (set-NoQuote slot i other quotes q (quiet.quotes q.instrument quotes a))
                  (fold_quote-IsBbo i q c quotes f (h.quoted q.instrument quotes a)),
              tt,
            )
    ]
  ]

  dispatch-IsUnnamed :
      (m : ProviderMessage) → FitsMessage i m c → All (IsUnnamed slot) (dispatch i m c).1
  unfolding dispatch FitsMessage
  dispatch-IsUnnamed (book_update u) f = process_update-IsUnnamed u f
  dispatch-IsUnnamed (bbo_quote q) f = process_quote-IsUnnamed q f
  dispatch-IsUnnamed (health_event e) f = tt
  dispatch-IsUnnamed venue_registration f = tt
  dispatch-IsUnnamed venue_disconnect f = tt

-- Messages of slots, dispatched one after the other.
unfoldable pub run_dispatches : List (ℕ × ProviderMessage) → Core → Core × List Published
run_dispatches [] c = (c, [])
run_dispatches (x ∷ xs) c =
    let (c', out) = dispatch x.0 x.1 c in
    let (c'', rest) = run_dispatches xs c' in (c'', out ++ rest)

-- Each of another slot, and fit for the state that it meets.
unfoldable pub OthersFit : ℕ → List (ℕ × ProviderMessage) → Core → Type 0
OthersFit slot [] c = Unit
OthersFit slot (x ∷ xs) c =
    (x.0 ≢ slot) × FitsMessage x.0 x.1 c × OthersFit slot xs (dispatch x.0 x.1 c).0

run_dispatches-IsUnnamed :
    (slot : ℕ) (xs : List (ℕ × ProviderMessage)) (c : Core)
    → IsCore c
    → IsSilent slot c
    → OthersFit slot xs c
    → All (IsUnnamed slot) (run_dispatches xs c).1
unfolding run_dispatches OthersFit
run_dispatches-IsUnnamed slot [] c h q f = tt
run_dispatches-IsUnnamed slot (x ∷ xs) c h q (other, fits, f) =
    All-append (IsUnnamed slot) (dispatch x.0 x.1 c).1 (run_dispatches xs (dispatch x.0 x.1 c).0).1
      (dispatch-IsUnnamed slot x.0 other c h q x.1 fits)
      (run_dispatches-IsUnnamed slot xs (dispatch x.0 x.1 c).0 (dispatch-IsCore x.0 x.1 c fits h)
        (dispatch-IsSilent slot x.0 other x.1 c q) f)

removed-IsCore : (slot : ℕ) (c : Core) → IsCore c → HasVersion c → IsCore (remove_venue slot c)
unfolding dispatch FitsMessage
removed-IsCore slot c h w = dispatch-IsCore slot venue_disconnect c w h

-- Core with a book callback and its invariant, before 2^64 changes of the quote verdicts: once the
-- venue of an active slot has been removed, nothing that any fitting messages of other slots
-- publish, updates, quotes, verdicts, registrations and removals in any order, shows a quantity of the
-- removed slot: no level of a consolidated book holds one, and no top of book names the slot.
pub remove_venue-IsUnnamed :
    (slot : ℕ) (v : VenueId) (c : Core) (xs : List (ℕ × ProviderMessage))
    → IsCore c
    → HasVersion c
    → slot < venue_count c
    → venue_at c slot ≡ some v
    → OthersFit slot xs (remove_venue slot c)
    → All (IsUnnamed slot) (run_dispatches xs (remove_venue slot c)).1
remove_venue-IsUnnamed slot v c xs h w l a f =
    run_dispatches-IsUnnamed slot xs (remove_venue slot c) (removed-IsCore slot c h w)
      (remove_venue-IsSilent slot v c l a) f
