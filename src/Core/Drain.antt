-- ===== src/Core/Drain.antt =====
-- A pass of the consolidator: the invariant of Core through every message that the queues hold, and
-- the queues after it.
use aggregated_order_book.Base.{
  ℕ, zero, suc, ◌≡◌, sym, subst, ◌∙◌, inl, inr, true, some, List, [], ◌∷◌, Bool-cases, Option-cases,
  get_or, set, All,
}
use aggregated_order_book.Types.{BookUpdate, BboQuote}
use aggregated_order_book.Book.{FlatOrderBook}
use aggregated_order_book.Merge.{FlatBookArray}
use aggregated_order_book.Core.{
  ProviderMessage, Core, venue_count, book_update, bbo_quote, health_event, venue_registration,
  venue_disconnect,
}
use aggregated_order_book.Core.Maps.{some-injective, lookup-assign_self, lookup}
use aggregated_order_book.Core.Ingest.{
  publish_book, update_book, process_update, fold_quote, update_quote, process_quote,
}
use aggregated_order_book.Core.Markets.{
  AreMarkets, process_health-AreMarkets, process_quote-AreMarkets,
}
use aggregated_order_book.Bbo.Update.{IsBbo}
use aggregated_order_book.Core.Members.{process_registration-AreMarkets, remove_venue-AreMarkets}
use aggregated_order_book.Core.Publish.{
  applied, dropped, FitsUpdate, update_case, process_update-AreMarkets, IsPublication,
  process_update-IsPublication, dropped,
}
use aggregated_order_book.Core.Quotes.{
  fold_quote-IsBbo, AreQuoted, HasVersion, FitsQuote, process_quote-AreQuoted,
}
use aggregated_order_book.Core.Verdicts.{
  is_named, process_health-AreQuoted, process_registration-AreQuoted, remove_venue-AreQuoted,
}
use aggregated_order_book.Core.Queues.{dispatch, drain_queue, drain_slots, drain_once}
use aggregated_order_book.Core.Frames.{dispatch-Keeps}

-- Core with a book callback between two messages.
pub record IsCore (c : Core) : Type 0 where
  pub publishing : c.publishes_book ≡ true
  pub markets : AreMarkets c
  pub quoted : AreQuoted c

-- What a message has to be when it is dispatched.
unfoldable pub FitsMessage : ℕ → ProviderMessage → Core → Type 0
FitsMessage slot (book_update u) c = FitsUpdate slot u c
FitsMessage slot (bbo_quote q) c = FitsQuote slot q
FitsMessage slot (health_event e) c = (is_named e.stream ≡ true) × HasVersion c
FitsMessage slot venue_registration c = Unit
FitsMessage slot venue_disconnect c = HasVersion c

dispatch-AreMarkets :
    (slot : ℕ) (m : ProviderMessage) (c : Core)
    → FitsMessage slot m c
    → IsCore c
    → AreMarkets (dispatch slot m c).0
unfolding dispatch FitsMessage
dispatch-AreMarkets slot (book_update u) c f h =
    process_update-AreMarkets slot u c h.publishing f h.markets
dispatch-AreMarkets slot (bbo_quote q) c f h = process_quote-AreMarkets slot q c h.markets
dispatch-AreMarkets slot (health_event e) c f h = process_health-AreMarkets slot e c h.markets
dispatch-AreMarkets slot venue_registration c f h = process_registration-AreMarkets slot c h.markets
dispatch-AreMarkets slot venue_disconnect c f h = remove_venue-AreMarkets slot c h.markets

update_book-AreQuoted :
    (slot : ℕ) (u : BookUpdate) (c : Core) (books : FlatBookArray) (old : FlatOrderBook)
    → AreQuoted c
    → AreQuoted (update_book slot u c books old).0
unfolding update_book publish_book
update_book-AreQuoted slot u c books old h = elim (Bool-cases c.publishes_book) [
  | inl a ↦ rw (update_book, a) h
  | inr a ↦ rw (update_book, a) h
]

process_update-AreQuoted :
    (slot : ℕ) (u : BookUpdate) (c : Core) → AreQuoted c → AreQuoted (process_update slot u c).0
process_update-AreQuoted slot u c h = elim (update_case slot u c) [
  | dropped r ↦ rw r h
  | applied books old a b r ↦ rw r (update_book-AreQuoted slot u c books old h)
]

dispatch-AreQuoted :
    (slot : ℕ) (m : ProviderMessage) (c : Core)
    → FitsMessage slot m c
    → IsCore c
    → AreQuoted (dispatch slot m c).0
unfolding dispatch FitsMessage
dispatch-AreQuoted slot (book_update u) c f h = process_update-AreQuoted slot u c h.quoted
dispatch-AreQuoted slot (bbo_quote q) c f h = process_quote-AreQuoted slot q c f h.quoted
dispatch-AreQuoted slot (health_event e) c f h = process_health-AreQuoted slot e c f.0 f.1 h.quoted
dispatch-AreQuoted slot venue_registration c f h = process_registration-AreQuoted slot c h.quoted
dispatch-AreQuoted slot venue_disconnect c f h = remove_venue-AreQuoted slot c f h.quoted

-- Core with a book callback: the dispatch of any message that the wire types admit keeps every
-- consolidated book that is not marked the merge of its venues' books under the depth verdicts, and
-- every top of book that has been scanned under the present quote verdicts the top of its quotes.
pub dispatch-IsCore :
    (slot : ℕ) (m : ProviderMessage) (c : Core)
    → FitsMessage slot m c
    → IsCore c
    → IsCore (dispatch slot m c).0
dispatch-IsCore slot m c f h = record {
  publishing = (dispatch-Keeps slot m c).publishes ∙ h.publishing;
  markets = dispatch-AreMarkets slot m c f h;
  quoted = dispatch-AreQuoted slot m c f h;
}

process_quote-IsPublication :
    (slot : ℕ) (q : BboQuote) (c : Core)
    → FitsQuote slot q
    → AreQuoted c
    → All (IsPublication (process_quote slot q c).0) (process_quote slot q c).1
unfolding process_quote update_quote IsPublication fold_quote
process_quote-IsPublication slot q c f h =
    elim (Option-cases (lookup c.venue_quotes q.instrument)) [
      | inl a ↦ rw (process_quote, a) tt
      | inr (quotes, a) ↦ elim (Bool-cases c.publishes_bbo) [
        | inr b ↦ rw (process_quote, a, update_quote, b) tt
        | inl b ↦
            let stored = set quotes slot q in
            let top = fold_quote-IsBbo slot q c quotes f (h q.instrument quotes a) in
            rw (process_quote, a, update_quote, b)
              (
                λ qs e.
                    subst (λ x. IsBbo x (some c.bbo_health) (fold_quote c slot q stored))
                      (some-injective
                        (sym (lookup-assign_self c.venue_quotes q.instrument stored) ∙ e))
                      top,
                tt,
              )
      ]
    ]

-- Core with a book callback: whatever the dispatch of a message publishes is right for the state it
-- leaves. A book is the merge of the instrument's venues' books under the depth verdicts, whether it
-- was rebuilt, repaired by the venue's changes or left alone; a top of book is the top of the
-- instrument's quotes under the quote verdicts.
pub dispatch-IsPublication :
    (slot : ℕ) (m : ProviderMessage) (c : Core)
    → FitsMessage slot m c
    → IsCore c
    → All (IsPublication (dispatch slot m c).0) (dispatch slot m c).1
unfolding dispatch FitsMessage
dispatch-IsPublication slot (book_update u) c f h =
    process_update-IsPublication slot u c h.publishing f h.markets
dispatch-IsPublication slot (bbo_quote q) c f h = process_quote-IsPublication slot q c f h.quoted
dispatch-IsPublication slot (health_event e) c f h = tt
dispatch-IsPublication slot venue_registration c f h = tt
dispatch-IsPublication slot venue_disconnect c f h = tt

-- The messages of one queue, each fit for the state that it meets.
unfoldable pub AllFit : ℕ → List ProviderMessage → Core → Type 0
AllFit slot [] c = Unit
AllFit slot (m ∷ ms) c =
    let c' = record c { queues = set c.queues slot ms } in
    FitsMessage slot m c' × AllFit slot ms (dispatch slot m c').0

-- The invariant does not read the queues.
IsCore-queues :
    (c : Core) (queues : List (List ProviderMessage))
    → IsCore c
    → IsCore (record c { queues = queues })
IsCore-queues c queues h = record {
  publishing = h.publishing;
  markets = h.markets;
  quoted = h.quoted;
}

pub drain_queue-IsCore :
    (slot : ℕ) (ms : List ProviderMessage) (c : Core)
    → AllFit slot ms c
    → IsCore c
    → IsCore (drain_queue slot ms c).0
unfolding drain_queue AllFit
drain_queue-IsCore slot [] c f h = h
drain_queue-IsCore slot (m ∷ ms) c f h =
    let c' = record c { queues = set c.queues slot ms } in
    drain_queue-IsCore slot ms (dispatch slot m c').0 f.1
      (dispatch-IsCore slot m c' f.0 (IsCore-queues c (set c.queues slot ms) h))

-- The messages of all queues of a pass.
unfoldable pub PassFits : ℕ → ℕ → Core → Type 0
PassFits zero slot c = Unit
PassFits (suc todo) slot c =
    let queue = get_or c.queues slot [] in
    AllFit slot queue c × PassFits todo (suc slot) (drain_queue slot queue c).0

drain_slots-IsCore :
    (todo slot : ℕ) (c : Core)
    → PassFits todo slot c
    → IsCore c
    → IsCore (drain_slots todo slot c).1.0
unfolding drain_slots PassFits
drain_slots-IsCore zero slot c f h = h
drain_slots-IsCore (suc todo) slot c f h =
    drain_slots-IsCore todo (suc slot) (drain_queue slot (get_or c.queues slot []) c).0 f.1
      (drain_queue-IsCore slot (get_or c.queues slot []) c f.0 h)

-- Core with a book callback: a pass over messages that each fit the state they meet keeps the
-- consolidated books the merges of the venues' books and the tops of book the tops of the quotes, as
-- the dispatch of one message does.
pub drain_once-IsCore :
    (c : Core) → PassFits (venue_count c) 0 c → IsCore c → IsCore (drain_once c).1.0
unfolding drain_once
drain_once-IsCore c f h = drain_slots-IsCore (venue_count c) 0 c f h
