-- ===== src/Core/Members.antt =====
-- Venues and instruments that join and leave: the books stay the merge of what the venues have.
use aggregated_order_book.Base.{
  ℕ, zero, suc, ◌+◌, ◌%◌, ◌^◌, ◌≤◌, ◌<◌, ◌≡◌, refl, sym, subst, ◌≢◌, inl, inr, Option, none, some,
  List, [], ◌∷◌, arith, leb, Bool-cases, Option-cases, length, get_or, set,
}
use aggregated_order_book.Base.Text.{Text, text_eq}
use aggregated_order_book.Types.{
  VenueId, InstrumentKey, no_quote, VenueHealthArray, binance, bybit, okx, count, no_data,
}
use aggregated_order_book.Venues.{venue_index, to_venue_id}
use aggregated_order_book.Registry.{name_at}
use aggregated_order_book.Book.{new_book}
use aggregated_order_book.Book.Update.{new_book-IsValidBook}
use aggregated_order_book.Merge.{FlatBookArray}
use aggregated_order_book.Merge.Books.{IsSound}
use aggregated_order_book.State.{State}
use aggregated_order_book.Core.{KeyMap, Core, venue_count}
use aggregated_order_book.Core.Maps.{lookup-for_each_inv, lookup, for_each}
use aggregated_order_book.Core.Arrays.{AreBooks, set-AreBooks}
use aggregated_order_book.Core.Membership.{
  deactivate_as, activate_as, register_as, register_venue_name, join_books, activate,
  process_registration, deactivate, remove_venue,
}
use aggregated_order_book.Core.Markets.{IsMarket, AreMarkets, mark_all_for_rebuild-AreMarkets}
use aggregated_order_book.Registry.Register.{register-grows}

new_book-IsSound : (v : VenueId) (key : InstrumentKey) → IsSound (some (new_book v key))
unfolding new_book
new_book-IsSound v key = (new_book-IsValidBook v key, tt, tt)

join_books-AreBooks :
    (n slot : ℕ) (v : VenueId) (key : InstrumentKey) (books : FlatBookArray)
    → slot < n
    → AreBooks n books
    → AreBooks n (join_books slot v key books)
unfolding join_books
join_books-AreBooks n slot v key books l h = elim (Option-cases (get_or books slot none)) [
  | inl a ↦ rw (join_books, a) (set-AreBooks n books slot _ (inl l) (new_book-IsSound v key) h)
  | inr (b, a) ↦ rw (join_books, a) h
]

-- A loop that changes every instrument's books, with everything marked.
for_each-AreBooks :
    (f : InstrumentKey → FlatBookArray → FlatBookArray) (n : ℕ) (m : KeyMap FlatBookArray)
    → ((key : InstrumentKey) (books : FlatBookArray) → AreBooks n books → AreBooks n (f key books))
    → ((key : InstrumentKey) (books : FlatBookArray) → lookup m key ≡ some books → AreBooks n books)
    → (key : InstrumentKey) (books : FlatBookArray) → lookup (for_each f m) key ≡ some books
    → AreBooks n books
for_each-AreBooks f n m k h key books e =
    let (old, a, b) = lookup-for_each_inv f m key books e in
    subst (AreBooks n) (sym b) (k key old (h key old a))

activate-AreMarkets :
    (v : VenueId) (slot : ℕ) (c : Core)
    → slot < venue_count c
    → AreMarkets c
    → AreMarkets (activate slot v c)
unfolding activate
activate-AreMarkets v slot c l h =
    mark_all_for_rebuild-AreMarkets
      (record c {
        active_venues = set c.active_venues slot (some v);
        venue_id_to_slot = set c.venue_id_to_slot (venue_index v) (some slot);
        venue_books = for_each (join_books slot v) c.venue_books;
      })
      (for_each-AreBooks (join_books slot v) (venue_count c) c.venue_books
        (λ key books k. join_books-AreBooks (venue_count c) slot v key books l k)
        (λ key books e. (h key books e).books_ok))

activate_as-AreMarkets :
    (v : VenueId) (slot : ℕ) (c : Core)
    → (v ≢ count → slot < venue_count c)
    → AreMarkets c
    → AreMarkets (activate_as v slot c)
unfolding activate_as
activate_as-AreMarkets count slot c l h = h
activate_as-AreMarkets binance slot c l h =
    activate-AreMarkets binance slot c (l (λ e. absurd (cc))) h
activate_as-AreMarkets bybit slot c l h = activate-AreMarkets bybit slot c (l (λ e. absurd (cc))) h
activate_as-AreMarkets okx slot c l h = activate-AreMarkets okx slot c (l (λ e. absurd (cc))) h

-- A slot whose name is a venue's is registered.
pub named-inside :
    (names : List Text) (slot : ℕ)
    → to_venue_id (get_or names slot []) ≢ count
    → slot < length names
unfolding to_venue_id text_eq
named-inside [] slot h = absurd (h refl)
named-inside (n ∷ names) zero h = omega arith
named-inside (n ∷ names) (suc slot) h = omega (arith, named-inside names slot h)

pub process_registration-AreMarkets :
    (slot : ℕ) (c : Core) → AreMarkets c → AreMarkets (process_registration slot c)
unfolding process_registration
process_registration-AreMarkets slot c h =
    activate_as-AreMarkets (to_venue_id (name_at c.venue_registry slot)) slot c
      (named-inside c.venue_registry.names slot) h

deactivate-AreMarkets :
    (v : VenueId) (slot : ℕ) (c : Core) → AreMarkets c → AreMarkets (deactivate slot v c)
unfolding deactivate
deactivate-AreMarkets v slot c h =
    mark_all_for_rebuild-AreMarkets
      (record c {
        venue_id_to_slot = set c.venue_id_to_slot (venue_index v) none;
        active_venues = set c.active_venues slot none;
        venue_books = for_each (λ k books. set books slot none) c.venue_books;
        venue_quotes = for_each (λ k quotes. set quotes slot no_quote) c.venue_quotes;
        depth_health = set c.depth_health slot no_data;
        bbo_health = set c.bbo_health slot no_data;
        bbo_health_version = (c.bbo_health_version + 1) % 2 ^ 64;
      })
      (for_each-AreBooks (λ k books. set books slot none) (venue_count c) c.venue_books
        (λ key books k. set-AreBooks (venue_count c) books slot none (inr refl) tt k)
        (λ key books e. (h key books e).books_ok))

deactivate_as-AreMarkets :
    (v : Option VenueId) (slot : ℕ) (c : Core) → AreMarkets c → AreMarkets (deactivate_as v slot c)
unfolding deactivate_as
deactivate_as-AreMarkets none slot c h = h
deactivate_as-AreMarkets (some v) slot c h = deactivate-AreMarkets v slot c h

pub remove_venue-AreMarkets :
    (slot : ℕ) (c : Core) → AreMarkets c → AreMarkets (remove_venue slot c)
unfolding remove_venue
remove_venue-AreMarkets slot c h = elim (Bool-cases (leb (venue_count c) slot)) [
  | inl a ↦ rw (remove_venue, a) h
  | inr a ↦
      rw (remove_venue, a) (deactivate_as-AreMarkets (get_or c.active_venues slot none) slot c h)
]

-- One more name in the registry.
grow-AreMarkets :
    (n m : ℕ) (health : VenueHealthArray) (books : FlatBookArray) (s : State)
    → n ≤ m
    → IsMarket n health books s
    → IsMarket m health books s
grow-AreMarkets n m health books s l h = record {
  books_ok = record {
    size = h.books_ok.size;
    sound = h.books_ok.sound;
    beyond = λ i k. h.books_ok.beyond i (omega (arith, l, k));
  };
  standing = h.standing;
}

register_as-AreMarkets :
    (v : VenueId) (name : Text) (c : Core) → AreMarkets c → AreMarkets (register_as v name c).1
unfolding register_as
register_as-AreMarkets count name c h key books e = h key books e
register_as-AreMarkets binance name c h key books e =
    grow-AreMarkets _ _ _ _ _ (register-grows c.venue_registry name) (h key books e)
register_as-AreMarkets bybit name c h key books e =
    grow-AreMarkets _ _ _ _ _ (register-grows c.venue_registry name) (h key books e)
register_as-AreMarkets okx name c h key books e =
    grow-AreMarkets _ _ _ _ _ (register-grows c.venue_registry name) (h key books e)

pub register_venue_name-AreMarkets :
    (name : Text) (c : Core) → AreMarkets c → AreMarkets (register_venue_name name c).1
unfolding register_venue_name
register_venue_name-AreMarkets name c h = register_as-AreMarkets (to_venue_id name) name c h
