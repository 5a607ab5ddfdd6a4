-- ===== src/Core/Silent.antt =====
-- What a removed venue leaves behind: nothing that a later publication could show.
use aggregated_order_book.Base.{
  ℕ, ◌<◌, ◌≡◌, ◌≢◌, sym, subst, ◌∙◌, inl, inr, false, Option, none, some, arith, leb, ◌==◌,
  Bool-cases, Option-cases, get_or, set, get_or-set_ne, get_or-set_default,
}
use aggregated_order_book.Types.{
  VenueId, InstrumentKey, key_eq, BookUpdate, BboQuote, no_quote, VenueQuoteArray, VenueHealth,
  VenueHealthEvent, StreamKind, binance, bybit, okx, count, depth, bbo, unnamed_stream,
}
use aggregated_order_book.Venues.{to_venue_id}
use aggregated_order_book.Registry.{name_at}
use aggregated_order_book.Merge.{FlatBookArray}
use aggregated_order_book.Book.{FlatOrderBook, apply_update}
use aggregated_order_book.Core.{
  KeyMap, Core, ProviderMessage, venue_count, book_update, bbo_quote, health_event,
  venue_registration, venue_disconnect,
}
use aggregated_order_book.Core.Maps.{
  some-injective, key_eq→≡, lookup, assign, for_each, lookup-assign_self, lookup-assign_ne,
  lookup-for_each_inv,
}
use aggregated_order_book.Core.Ingest.{
  verdict, health_value, set_verdict, publish_book, update_book, process_update, update_quote,
  process_quote, mark_all_for_rebuild, process_health,
}
use aggregated_order_book.Core.Membership.{
  join_books, activate, activate_as, process_registration, deactivate, deactivate_as, remove_venue,
}
use aggregated_order_book.Core.Routing.{venue_at}
use aggregated_order_book.Core.Publish.{update_case, dropped, applied}
use aggregated_order_book.Core.Queues.{dispatch}

-- Every value of a map.
abbrev pub EachHas : {A : Type 0} → (A → Type 0) → KeyMap A → Type 0
EachHas P m = (key : InstrumentKey) (x : _) → lookup m key ≡ some x → P x

module _ {A : Type 0} (P : A → Type 0) (m : KeyMap A) where
  EachHas-assign : (k : InstrumentKey) (v : A) → P v → EachHas P m → EachHas P (assign m k v)
  EachHas-assign k v p h key x e = elim (Bool-cases (key_eq k key)) [
    | inl a ↦
        let at : lookup (assign m k v) key ≡ some v =
          subst (λ j. lookup (assign m k v) j ≡ some v) (key_eq→≡ k key a)
            (lookup-assign_self m k v) in
        subst P (some-injective (sym at ∙ e)) p
    | inr a ↦ h key x (sym (lookup-assign_ne m k key v a) ∙ e)
  ]

  EachHas-for_each :
      (f : InstrumentKey → A → A)
      → ((k : InstrumentKey) (x : A) → P x → P (f k x))
      → EachHas P m
      → EachHas P (for_each f m)
  EachHas-for_each f step h key x e =
      let (old, a, b) = lookup-for_each_inv f m key x e in
      subst P (sym b) (step key old (h key old a))

  EachHas-made :
      (f : InstrumentKey → A → A)
      → ((k : InstrumentKey) (x : A) → P (f k x))
      → EachHas P (for_each f m)
  EachHas-made f step key x e =
      let (old, a, b) = lookup-for_each_inv f m key x e in subst P (sym b) (step key old)

abbrev pub NoBook : ℕ → FlatBookArray → Type 0
NoBook slot books = get_or books slot none ≡ none

abbrev pub NoQuote : ℕ → VenueQuoteArray → Type 0
NoQuote slot quotes = get_or quotes slot no_quote ≡ no_quote

-- No instrument has a book or a quote of the slot.
pub record IsSilent (slot : ℕ) (c : Core) : Type 0 where
  pub books : EachHas (NoBook slot) c.venue_books
  pub quotes : EachHas (NoQuote slot) c.venue_quotes

pub remove_venue-IsSilent :
    (slot : ℕ) (v : VenueId) (c : Core)
    → slot < venue_count c
    → venue_at c slot ≡ some v
    → IsSilent slot (remove_venue slot c)
unfolding remove_venue deactivate_as deactivate mark_all_for_rebuild
remove_venue-IsSilent slot v c l a =
    let inside : leb (venue_count c) slot ≡ false = ground (arith, l) in
    rw (remove_venue, inside, a)
      (record {
        books =
            EachHas-made (NoBook slot) c.venue_books (λ k b. set b slot none)
              (λ k b. get_or-set_default b slot none);
        quotes =
            EachHas-made (NoQuote slot) c.venue_quotes (λ k q. set q slot no_quote)
              (λ k q. get_or-set_default q slot no_quote);
      })

-- The messages of another slot.
module _ (slot i : ℕ) (other : i ≢ slot) where
  pub set-NoBook :
      (books : FlatBookArray) (b : Option FlatOrderBook)
      → NoBook slot books
      → NoBook slot (set books i b)
  set-NoBook books b h = get_or-set_ne books i slot b none other ∙ h

  pub set-NoQuote :
      (quotes : VenueQuoteArray) (q : BboQuote)
      → NoQuote slot quotes
      → NoQuote slot (set quotes i q)
  set-NoQuote quotes q h = get_or-set_ne quotes i slot q no_quote other ∙ h

  update_book-IsSilent :
      (u : BookUpdate) (c : Core) (books : FlatBookArray) (old : FlatOrderBook)
      → NoBook slot books
      → IsSilent slot c
      → IsSilent slot (update_book i u c books old).0
  unfolding update_book publish_book
  update_book-IsSilent u c books old n h =
      let stored =
        EachHas-assign (NoBook slot) c.venue_books u.instrument
          (set books i (some (apply_update old u))) (set-NoBook books (some (apply_update old u)) n)
          h.books in
      elim (Bool-cases c.publishes_book) [
        | inl a ↦ rw (update_book, a) (record { books = stored; quotes = h.quotes })
        | inr a ↦ rw (update_book, a) (record { books = stored; quotes = h.quotes })
      ]

  process_update-IsSilent :
      (u : BookUpdate) (c : Core) → IsSilent slot c → IsSilent slot (process_update i u c).0
  process_update-IsSilent u c h = elim (update_case i u c) [
    | dropped r ↦ rw r h
    | applied books old a b r ↦
        rw r (update_book-IsSilent u c books old (h.books u.instrument books a) h)
  ]

  process_quote-IsSilent :
      (q : BboQuote) (c : Core) → IsSilent slot c → IsSilent slot (process_quote i q c).0
  unfolding process_quote update_quote
  process_quote-IsSilent q c h = elim (Option-cases (lookup c.venue_quotes q.instrument)) [
    | inl a ↦ rw (process_quote, a) h
    | inr (quotes, a) ↦
        rw (process_quote, a)
          (record {
            books = h.books;
            quotes =
                EachHas-assign (NoQuote slot) c.venue_quotes q.instrument (set quotes i q)
                  (set-NoQuote quotes q (h.quotes q.instrument quotes a)) h.quotes;
          })
  ]

  set_verdict-IsSilent :
      (stream : StreamKind) (health : VenueHealth) (c : Core)
      → IsSilent slot c
      → IsSilent slot (set_verdict stream i health c)
  unfolding set_verdict mark_all_for_rebuild
  set_verdict-IsSilent depth health c h = record { books = h.books; quotes = h.quotes }
  set_verdict-IsSilent bbo health c h = record { books = h.books; quotes = h.quotes }
  set_verdict-IsSilent (unnamed_stream n) health c h = record { books = h.books; quotes = h.quotes }

  process_health-IsSilent :
      (e : VenueHealthEvent) (c : Core) → IsSilent slot c → IsSilent slot (process_health i e c)
  unfolding process_health
  process_health-IsSilent e c h =
      elim (Bool-cases (health_value (verdict e.stream c i) == health_value e.health)) [
        | inl a ↦ rw (process_health, a) h
        | inr a ↦ rw (process_health, a) (set_verdict-IsSilent e.stream e.health c h)
      ]

  join_books-NoBook :
      (v : VenueId) (k : InstrumentKey) (books : FlatBookArray)
      → NoBook slot books
      → NoBook slot (join_books i v k books)
  unfolding join_books
  join_books-NoBook v k books h = elim (Option-cases (get_or books i none)) [
    | inl a ↦ rw (join_books, a) (set-NoBook books _ h)
    | inr (b, a) ↦ rw (join_books, a) h
  ]

  activate-IsSilent : (v : VenueId) (c : Core) → IsSilent slot c → IsSilent slot (activate i v c)
  unfolding activate mark_all_for_rebuild
  activate-IsSilent v c h = record {
    books =
        EachHas-for_each (NoBook slot) c.venue_books (join_books i v) (join_books-NoBook v) h.books;
    quotes = h.quotes;
  }

  activate_as-IsSilent :
      (v : VenueId) (c : Core) → IsSilent slot c → IsSilent slot (activate_as v i c)
  unfolding activate_as
  activate_as-IsSilent count c h = h
  activate_as-IsSilent binance c h = activate-IsSilent binance c h
  activate_as-IsSilent bybit c h = activate-IsSilent bybit c h
  activate_as-IsSilent okx c h = activate-IsSilent okx c h

  deactivate_as-IsSilent :
      (v : Option VenueId) (c : Core) → IsSilent slot c → IsSilent slot (deactivate_as v i c)
  unfolding deactivate_as deactivate mark_all_for_rebuild
  deactivate_as-IsSilent none c h = h
  deactivate_as-IsSilent (some v) c h = record {
    books =
        EachHas-for_each (NoBook slot) c.venue_books (λ k b. set b i none)
          (λ k b n. set-NoBook b none n) h.books;
    quotes =
        EachHas-for_each (NoQuote slot) c.venue_quotes (λ k q. set q i no_quote)
          (λ k q n. set-NoQuote q no_quote n) h.quotes;
  }

  other_removed-IsSilent : (c : Core) → IsSilent slot c → IsSilent slot (remove_venue i c)
  unfolding remove_venue
  other_removed-IsSilent c h = elim (Bool-cases (leb (venue_count c) i)) [
    | inl a ↦ rw (remove_venue, a) h
    | inr a ↦ rw (remove_venue, a) (deactivate_as-IsSilent (get_or c.active_venues i none) c h)
  ]

  pub dispatch-IsSilent :
      (m : ProviderMessage) (c : Core) → IsSilent slot c → IsSilent slot (dispatch i m c).0
  unfolding dispatch process_registration
  dispatch-IsSilent (book_update u) c h = process_update-IsSilent u c h
  dispatch-IsSilent (bbo_quote q) c h = process_quote-IsSilent q c h
  dispatch-IsSilent (health_event e) c h = process_health-IsSilent e c h
  dispatch-IsSilent venue_registration c h =
      activate_as-IsSilent (to_venue_id (name_at c.venue_registry i)) c h
  dispatch-IsSilent venue_disconnect c h = other_removed-IsSilent c h
