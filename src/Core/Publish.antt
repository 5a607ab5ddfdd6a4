-- ===== src/Core/Publish.antt =====
-- A depth update: what it publishes, and the books of all instruments after it.
use aggregated_order_book.Base.{
  ℕ, zero, suc, ◌≡◌, refl, sym, ap, subst, ◌∙◌, inl, inr, true, none, some, [], ◌∷◌, Bool-cases,
  Option-cases, get_elem?, get_or, set, All,
}
use aggregated_order_book.Types.{key_eq, BookUpdate, max_venues, VenueQuoteArray}
use aggregated_order_book.Book.{FlatOrderBook, apply_update}
use aggregated_order_book.Book.Update.{IsWellFormed}
use aggregated_order_book.Merge.{FlatBookArray}
use aggregated_order_book.Merge.Books.{IsUint}
use aggregated_order_book.State.{State, new_state, stamp_for_publish}
use aggregated_order_book.State.Refine.{Fits}
use aggregated_order_book.Core.{Published, Core, venue_count, published_bbo, published_book}
use aggregated_order_book.Bbo.Update.{IsBbo}
use aggregated_order_book.Core.Maps.{
  some-injective, lookup-assign_ne, lookup-assign_self, lookup, value_or, assign, key_eq→≡,
}
use aggregated_order_book.Core.Standing.{
  consolidate-IsConsolidated, IsConsolidated, update-AreBooks, IsMergeOf, IsUpdate,
}
use aggregated_order_book.Core.Ingest.{
  venue_levels, consolidate, publish_book, update_book, process_update,
}
use aggregated_order_book.Core.Markets.{state_of, IsMarket, AreMarkets}

-- What a depth update for this slot has to be, if a book is there for it.
pub record FitsUpdate (slot : ℕ) (u : BookUpdate) (c : Core) : Type 0 where
  pub well_formed : IsWellFormed u
  pub new_bids :
      (books : FlatBookArray) (old : FlatOrderBook)
      → lookup c.venue_books u.instrument ≡ some books
      → get_elem? books slot ≡ some (some old)
      → IsUint (apply_update old u).bids × IsUint (apply_update old u).asks
  pub fits :
      (books : FlatBookArray)
      → lookup c.venue_books u.instrument ≡ some books
      → Fits (some c.depth_health) (venue_count c) books
  pub new_fits :
      (books : FlatBookArray) (old : FlatOrderBook)
      → lookup c.venue_books u.instrument ≡ some books
      → get_elem? books slot ≡ some (some old)
      → Fits (some c.depth_health) (venue_count c) (set books slot (some (apply_update old u)))

get_or→get_elem? :
    (books : FlatBookArray) (slot : ℕ) (old : FlatOrderBook)
    → get_or books slot none ≡ some old
    → get_elem? books slot ≡ some (some old)
get_or→get_elem? [] slot old e = absurd (cc)
get_or→get_elem? (b ∷ books) zero old e = ap some e
get_or→get_elem? (b ∷ books) (suc slot) old e = get_or→get_elem? books slot old e

-- The three ways of an update.
pub data UpdateCase (slot : ℕ) (u : BookUpdate) (c : Core) : Type 0 where
  dropped : process_update slot u c ≡ (c, []) → UpdateCase slot u c
  applied :
      (books : FlatBookArray) (old : FlatOrderBook)
      → lookup c.venue_books u.instrument ≡ some books
      → get_elem? books slot ≡ some (some old)
      → process_update slot u c ≡ update_book slot u c books old
      → UpdateCase slot u c

pub update_case : (slot : ℕ) (u : BookUpdate) (c : Core) → UpdateCase slot u c
unfolding process_update
update_case slot u c = elim (Option-cases (lookup c.venue_books u.instrument)) [
  | inl a ↦ dropped (rw (process_update, a) refl)
  | inr (books, a) ↦ elim (Option-cases (get_or books slot none)) [
    | inl b ↦ dropped (rw (process_update, a, b) refl)
    | inr (old, b) ↦
        applied books old a (get_or→get_elem? books slot old b) (rw (process_update, a, b) refl)
  ]
]

-- The state that the publication leaves for the instrument.
module _ (slot : ℕ) (u : BookUpdate) (c : Core) (books : FlatBookArray) (old : FlatOrderBook)
    (at : lookup c.venue_books u.instrument ≡ some books)
    (stands : get_elem? books slot ≡ some (some old)) (h : AreMarkets c) (f : FitsUpdate slot u c)
    (on : c.publishes_book ≡ true) where
  abbrev pub stored : FlatBookArray
  stored = set books slot (some (apply_update old u))

  update-IsUpdate : IsUpdate (venue_count c) c.depth_health books slot old u
  update-IsUpdate = record {
    books_ok = (h u.instrument books at).books_ok;
    stands = stands;
    well_formed = f.well_formed;
    new_bids = (f.new_bids books old at stands).0;
    new_asks = (f.new_bids books old at stands).1;
    fits = f.fits books at;
    new_fits = f.new_fits books old at stands;
  }

  abbrev merged : State
  merged =
      consolidate (state_of c u.instrument) stored (venue_count c) c.depth_health slot
        (apply_update old u)

  merged-IsConsolidated :
      IsConsolidated (venue_count c) c.depth_health books slot old u update-IsUpdate merged
  merged-IsConsolidated =
      consolidate-IsConsolidated (venue_count c) c.depth_health books slot old u update-IsUpdate
        (state_of c u.instrument) (h u.instrument books at).standing

  abbrev pub stamped : State
  stamped = stamp_for_publish merged u.recv_mono_ns (venue_levels max_venues (venue_count c) stored)

  stamped-IsMarket : IsMarket (venue_count c) c.depth_health stored stamped
  unfolding stamp_for_publish
  stamped-IsMarket = record {
    books_ok = update-AreBooks (venue_count c) c.depth_health books slot old u update-IsUpdate;
    standing = λ e. record {
      bids = merged-IsConsolidated.merged.bids;
      asks = merged-IsConsolidated.merged.asks;
    };
  }

  -- The state after the update.
  abbrev updated : Core
  updated = record c {
    venue_books = assign c.venue_books u.instrument stored;
    consolidated_state = assign c.consolidated_state u.instrument stamped;
  }

  pub update_book-updated :
      update_book slot u c books old ≡ (updated, published_book u.instrument stamped.book ∷ [])
  unfolding update_book publish_book
  update_book-updated = rw on refl

  updated-AreMarkets : AreMarkets updated
  updated-AreMarkets key bs e = elim (Bool-cases (key_eq u.instrument key)) [
    | inl a ↦
        let same : u.instrument ≡ key = key_eq→≡ u.instrument key a in
        let at_key =
          subst (λ k. lookup (assign c.venue_books u.instrument stored) k ≡ some stored) same
            (lookup-assign_self c.venue_books u.instrument stored) in
        let books_eq : stored ≡ bs = some-injective (sym at_key ∙ e) in
        let state_eq =
          subst
            (λ k.
              value_or (lookup (assign c.consolidated_state u.instrument stamped) k) new_state
              ≡ stamped)
            same
            (ap (λ o. value_or o new_state)
              (lookup-assign_self c.consolidated_state u.instrument stamped)) in
        subst (λ x. IsMarket (venue_count c) c.depth_health x (state_of updated key)) books_eq
          (subst (IsMarket (venue_count c) c.depth_health stored) (sym state_eq) stamped-IsMarket)
    | inr a ↦
        let state_eq =
          ap (λ o. value_or o new_state)
            (lookup-assign_ne c.consolidated_state u.instrument key stamped a) in
        subst (IsMarket (venue_count c) c.depth_health bs) (sym state_eq)
          (h key bs (sym (lookup-assign_ne c.venue_books u.instrument key stored a) ∙ e))
  ]

  -- What the subscribers get is the merge of the venues' books with this update applied.
  pub stamped-IsMergeOf : IsMergeOf c.depth_health stored stamped.book
  unfolding stamp_for_publish consolidate
  stamped-IsMergeOf = stamped-IsMarket.standing merged-IsConsolidated.settled

-- Core with a book callback: `ProcessUpdate` keeps every instrument's consolidated book that is not
-- marked for a rebuild the merge of its venues' books under the depth verdicts.
pub process_update-AreMarkets :
    (slot : ℕ) (u : BookUpdate) (c : Core)
    → c.publishes_book ≡ true
    → FitsUpdate slot u c
    → AreMarkets c
    → AreMarkets (process_update slot u c).0
process_update-AreMarkets slot u c on f h = elim (update_case slot u c) [
  | dropped r ↦ rw r h
  | applied books old a b r ↦
      rw (r, update_book-updated slot u c books old a b h f on)
        (updated-AreMarkets slot u c books old a b h f on)
]

-- What a callback has been given is right for the state that Core is in: a book is the merge of the
-- instrument's venues' books, a top of book the top of the venues' quotes.
unfoldable pub IsPublication : Core → Published → Type 0
IsPublication c (published_bbo key b) =
    (quotes : VenueQuoteArray)
    → lookup c.venue_quotes key ≡ some quotes
    → IsBbo quotes (some c.bbo_health) b
IsPublication c (published_book key b) =
    (books : FlatBookArray)
    → lookup c.venue_books key ≡ some books
    → IsMergeOf c.depth_health books b

-- Core with a book callback: each book that `ProcessUpdate` publishes is the merge of the
-- instrument's venues' books, with the update applied, under the depth verdicts: whether it was
-- rebuilt, repaired by the venue's changes, or left alone for a venue that is not admitted.
pub process_update-IsPublication :
    (slot : ℕ) (u : BookUpdate) (c : Core)
    → c.publishes_book ≡ true
    → FitsUpdate slot u c
    → AreMarkets c
    → All (IsPublication (process_update slot u c).0) (process_update slot u c).1
unfolding IsPublication
process_update-IsPublication slot u c on f h = elim (update_case slot u c) [
  | dropped r ↦ rw r tt
  | applied books old a b r ↦
      rw (r, update_book-updated slot u c books old a b h f on)
        (
          λ bs e.
              subst (λ x. IsMergeOf c.depth_health x (stamped slot u c books old a b h f on).book)
                (some-injective (sym (lookup-assign_self c.venue_books u.instrument _) ∙ e))
                (stamped-IsMergeOf slot u c books old a b h f on),
          tt,
        )
]
