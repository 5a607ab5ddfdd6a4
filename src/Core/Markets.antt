-- ===== src/Core/Markets.antt =====
-- The consolidated books of all instruments: each that is not marked for a rebuild is the merge of its
-- venues' books under the depth verdicts, after every operation.
use aggregated_order_book.Base.{
  ℕ, ◌≡◌, refl, inl, inr, true, false, some, arith, ◌==◌, Bool-cases, Option-cases, set,
}
use aggregated_order_book.Types.{
  unnamed_stream, InstrumentKey, BboQuote, VenueHealth, VenueHealthArray, StreamKind,
  VenueHealthEvent, depth, bbo,
}
use aggregated_order_book.Merge.{FlatBookArray}
use aggregated_order_book.State.{State, new_state, mark_for_rebuild}
use aggregated_order_book.Core.{KeyMap, Core, venue_count}
use aggregated_order_book.Core.Maps.{
  lookup-for_each-some, lookup-for_each-none, lookup, value_or, for_each,
}
use aggregated_order_book.Core.Arrays.{AreBooks}
use aggregated_order_book.Core.Standing.{IsMergeOf}
use aggregated_order_book.Core.Ingest.{
  set_verdict, verdict, update_quote, process_quote, mark_all_for_rebuild, health_value,
  process_health,
}

-- `consolidated_state_[key]`
abbrev pub state_of : Core → InstrumentKey → State
state_of c key = value_or (lookup c.consolidated_state key) new_state

-- One instrument's venues' books and its standing book.
pub record IsMarket (n : ℕ) (health : VenueHealthArray) (books : FlatBookArray) (s : State)
    : Type 0 where
  pub books_ok : AreBooks n books
  pub standing : s.needs_rebuild ≡ false → IsMergeOf health books s.book

abbrev pub AreMarkets : Core → Type 0
AreMarkets c =
    (key : InstrumentKey) (books : FlatBookArray)
    → lookup c.venue_books key ≡ some books
    → IsMarket (venue_count c) c.depth_health books (state_of c key)

-- Every standing book is marked, those that are not there yet included.
pub marked_lem :
    (m : KeyMap State) (key : InstrumentKey)
    → (value_or (lookup (for_each (λ k s. mark_for_rebuild s) m) key) new_state).needs_rebuild
      ≡ true
unfolding mark_for_rebuild
marked_lem m key = elim (Option-cases (lookup m key)) [
  | inl a ↦ rw (lookup-for_each-none (λ k s. mark_for_rebuild s) m key a) refl
  | inr (s, a) ↦ rw (lookup-for_each-some (λ k s. mark_for_rebuild s) m key s a) refl
]

-- After a change that marks every book, only the venues' books matter.
pub mark_all_for_rebuild-AreMarkets :
    (c : Core)
    → ((key : InstrumentKey) (books : FlatBookArray)
        → lookup c.venue_books key ≡ some books
        → AreBooks (venue_count c) books)
    → AreMarkets (mark_all_for_rebuild c)
unfolding mark_all_for_rebuild
mark_all_for_rebuild-AreMarkets c h key books e = record {
  books_ok = h key books e;
  standing = λ s. absurd (ground (arith, s, marked_lem c.consolidated_state key));
}

-- A verdict, for depth or for quotes.
set_verdict-AreMarkets :
    (stream : StreamKind) (slot : ℕ) (health : VenueHealth) (c : Core)
    → AreMarkets c
    → AreMarkets (set_verdict stream slot health c)
unfolding set_verdict
set_verdict-AreMarkets depth slot health c h =
    mark_all_for_rebuild-AreMarkets (record c { depth_health = set c.depth_health slot health })
      (λ key books e. (h key books e).books_ok)
set_verdict-AreMarkets bbo slot health c h = h
set_verdict-AreMarkets (unnamed_stream n) slot health c h =
    mark_all_for_rebuild-AreMarkets (record c { bbo_health = set c.bbo_health slot health })
      (λ key books e. (h key books e).books_ok)

pub process_health-AreMarkets :
    (slot : ℕ) (e : VenueHealthEvent) (c : Core)
    → AreMarkets c
    → AreMarkets (process_health slot e c)
unfolding process_health
process_health-AreMarkets slot e c h =
    elim (Bool-cases (health_value (verdict e.stream c slot) == health_value e.health)) [
      | inl a ↦ rw (process_health, a) h
      | inr a ↦ rw (process_health, a) (set_verdict-AreMarkets e.stream slot e.health c h)
    ]

pub process_quote-AreMarkets :
    (slot : ℕ) (q : BboQuote) (c : Core) → AreMarkets c → AreMarkets (process_quote slot q c).0
unfolding process_quote update_quote
process_quote-AreMarkets slot q c h = elim (Option-cases (lookup c.venue_quotes q.instrument)) [
  | inl a ↦ rw (process_quote, a) h
  | inr (quotes, a) ↦ rw (process_quote, a) h
]
