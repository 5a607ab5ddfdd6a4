-- ===== src/Core/Start.antt =====
-- Core as `Init` leaves it: the invariants hold before the first message.
use aggregated_order_book.Base.{
  get_or-replicate, ℕ, zero, suc, ◌≤◌, ◌≡◌, refl, sym, ap, subst, ◌∙◌, inl, inr, Bool, true, Option,
  none, some, List, [], ◌∷◌, arith, Bool-cases, get_or, replicate,
}
use aggregated_order_book.Types.{
  InstrumentKey, key_eq, BboQuote, no_quote, max_venues, VenueQuoteArray, VenueHealthArray,
}
use aggregated_order_book.Book.{FlatOrderBook}
use aggregated_order_book.Merge.{FlatBookArray}
use aggregated_order_book.State.{State, new_state}
use aggregated_order_book.Core.{KeyMap, Core, new_core, no_quotes, empty_bbo, venue_count}
use aggregated_order_book.Core.Maps.{
  some-injective, lookup-assign_self, lookup-assign_ne, lookup, value_or, assign, key_eq→≡,
}
use aggregated_order_book.Core.Membership.{books_for, add_instrument, init}
use aggregated_order_book.Core.Markets.{state_of, IsMarket}
use aggregated_order_book.Bbo.{Bbo, is_crossed, Side, bid, ask}
use aggregated_order_book.Bbo.Top.{IsUint64, IsTop-empty}
use aggregated_order_book.Bbo.Scan.{FitsQty, IsTop-ext, offer, offer_qty}
use aggregated_order_book.Bbo.Update.{IsBbo}
use aggregated_order_book.Core.Quotes.{bbo_of, seen_of, IsQuoted}
use aggregated_order_book.Core.Drain.{IsCore}

none_offered :
    (side : Side) (health : VenueHealthArray) (i : ℕ) → offer side (some health) no_quotes i ≡ 0
none_offered bid health i =
    ground (arith, ap (λ (q : BboQuote). q.bid_price) (get_or-replicate 8 i no_quote))
none_offered ask health i =
    ground (arith, ap (λ (q : BboQuote). q.ask_price) (get_or-replicate 8 i no_quote))

-- Eight venues that have not spoken have no top.
no_quotes-IsBbo : (health : VenueHealthArray) → IsBbo no_quotes (some health) empty_bbo
unfolding is_crossed
no_quotes-IsBbo health = record {
  bids =
      IsTop-ext bid _ _ _ _ _ (λ i. sym (none_offered bid health i)) (λ i. refl)
        (IsTop-empty bid (offer_qty bid no_quotes));
  asks =
      IsTop-ext ask _ _ _ _ _ (λ i. sym (none_offered ask health i)) (λ i. refl)
        (IsTop-empty ask (offer_qty ask no_quotes));
  crossing = refl;
}

-- No message has been dispatched yet.
record IsFresh (c : Core) : Type 0 where
  pub publishing : c.publishes_book ≡ true
  pub unregistered : venue_count c ≡ 0
  pub actives : c.active_venues ≡ replicate max_venues none
  pub version : c.bbo_health_version ≡ 0
  pub books :
      (key : InstrumentKey) (bs : FlatBookArray)
      → lookup c.venue_books key ≡ some bs
      → bs ≡ replicate max_venues none
  pub quotes :
      (key : InstrumentKey) (qs : VenueQuoteArray)
      → lookup c.venue_quotes key ≡ some qs
      → qs ≡ no_quotes
  pub states : (key : InstrumentKey) → state_of c key ≡ new_state
  pub tops : (key : InstrumentKey) → bbo_of c key ≡ empty_bbo
  pub seen : (key : InstrumentKey) → seen_of c key ≡ 0

books_for-none : (key : InstrumentKey) (n : ℕ) → books_for key (replicate n none) ≡ replicate n none
unfolding books_for
books_for-none key zero = refl
books_for-none key (suc n) = ap (λ x. none ∷ x) (books_for-none key n)

-- A write of `v` where every entry is `v`, and where every missing entry stands for it.
lookup-assign_all :
    {A : Type 0}
    → (m : KeyMap A) (k : InstrumentKey) (v : A)
    → ((j : InstrumentKey) (x : A) → lookup m j ≡ some x → x ≡ v)
    → (j : InstrumentKey) (x : A) → lookup (assign m k v) j ≡ some x
    → x ≡ v
lookup-assign_all m k v h j x e = elim (Bool-cases (key_eq k j)) [
  | inl a ↦ some-injective (
      sym e
      ∙ subst (λ y. lookup (assign m k v) y ≡ some v) (key_eq→≡ k j a) (lookup-assign_self m k v))
  | inr a ↦ h j x (sym (lookup-assign_ne m k j v a) ∙ e)
]

value_or-assign_same :
    {A : Type 0}
    → (m : KeyMap A) (k j : InstrumentKey) (v d : A)
    → ((i : InstrumentKey) → value_or (lookup m i) d ≡ d)
    → v ≡ d
    → value_or (lookup (assign m k v) j) d ≡ d
value_or-assign_same m k j v d h r = elim (Bool-cases (key_eq k j)) [
  | inl a ↦
      ap (λ o. value_or o d)
        (subst (λ y. lookup (assign m k v) y ≡ some v) (key_eq→≡ k j a) (lookup-assign_self m k v))
      ∙ r
  | inr a ↦ ap (λ o. value_or o d) (lookup-assign_ne m k j v a) ∙ h j
]

add_instrument-IsFresh :
    (key : InstrumentKey) (c : Core) → IsFresh c → IsFresh (add_instrument key c)
unfolding add_instrument
add_instrument-IsFresh key c h =
    let empty_books = ap (books_for key) h.actives ∙ books_for-none key max_venues in
    record {
      publishing = h.publishing;
      unregistered = h.unregistered;
      actives = h.actives;
      version = h.version;
      books = λ j x e.
          lookup-assign_all c.venue_books key (replicate max_venues none) h.books j x
            (subst (λ b. lookup (assign c.venue_books key b) j ≡ some x) empty_books e);
      quotes = lookup-assign_all c.venue_quotes key no_quotes h.quotes;
      states =
          λ j. value_or-assign_same c.consolidated_state key j _ new_state h.states (h.states key);
      tops = h.tops;
      seen = h.seen;
    }

init-IsFresh : (keys : List InstrumentKey) (c : Core) → IsFresh c → IsFresh (init keys c)
unfolding init
init-IsFresh [] c h = h
init-IsFresh (key ∷ keys) c h =
    let k = add_instrument-IsFresh key c h in
    init-IsFresh keys _ (record {
      publishing = k.publishing;
      unregistered = k.unregistered;
      actives = k.actives;
      version = k.version;
      books = k.books;
      quotes = k.quotes;
      states = k.states;
      tops = λ j. value_or-assign_same _ key j _ empty_bbo k.tops (k.tops key);
      seen = k.seen;
    })

none_beyond :
    (i : ℕ) → 0 ≤ i → get_or {A = Option FlatOrderBook} (replicate max_venues none) i none ≡ none
none_beyond i l = get_or-replicate 8 i none

fresh-IsMarket :
    (s : State) (health : VenueHealthArray) (bs : FlatBookArray)
    → bs ≡ replicate max_venues none
    → s ≡ new_state
    → IsMarket 0 health bs s
fresh-IsMarket s health bs e f =
    rw (e, f)
      (record {
        books_ok = record {
          size = refl;
          sound = (tt, (tt, (tt, (tt, (tt, (tt, (tt, (tt, tt))))))));
          beyond = none_beyond;
        };
        standing = λ x. absurd (cc);
      })

no_quotes_fit : (side : Side) → FitsQty side no_quotes
no_quotes_fit bid = let z : IsUint64 0 = omega arith in (z, (z, (z, (z, (z, (z, (z, (z, tt))))))))
no_quotes_fit ask = let z : IsUint64 0 = omega arith in (z, (z, (z, (z, (z, (z, (z, (z, tt))))))))

fresh-IsQuoted :
    (health : VenueHealthArray) (version seen : ℕ) (qs : VenueQuoteArray) (b : Bbo)
    → qs ≡ no_quotes
    → b ≡ empty_bbo
    → seen ≡ 0
    → IsQuoted health version seen qs b
fresh-IsQuoted health version seen qs b e f g =
    rw (e, f, g)
      (record {
        size = refl;
        fits = record { bids = no_quotes_fit bid; asks = no_quotes_fit ask };
        known = omega arith;
        top = λ x. no_quotes-IsBbo health;
      })

new_core-IsFresh : (publishes_bbo : Bool) → IsFresh (new_core publishes_bbo true)
unfolding lookup
new_core-IsFresh publishes_bbo = record {
  publishing = refl;
  unregistered = refl;
  actives = refl;
  version = refl;
  books = λ key bs e. absurd (cc);
  quotes = λ key qs e. absurd (cc);
  states = λ key. refl;
  tops = λ key. refl;
  seen = λ key. refl;
}

IsFresh-IsCore : (c : Core) → IsFresh c → IsCore c
IsFresh-IsCore c h = record {
  publishing = h.publishing;
  markets = λ key bs e.
      subst (λ n. IsMarket n c.depth_health bs (state_of c key)) (sym h.unregistered)
        (fresh-IsMarket (state_of c key) c.depth_health bs (h.books key bs e) (h.states key));
  quoted = λ key qs e.
      fresh-IsQuoted c.bbo_health c.bbo_health_version (seen_of c key) qs (bbo_of c key)
        (h.quotes key qs e) (h.tops key) (h.seen key);
}

-- For any list of instruments, even with repetitions, and any BBO callback: the Core that `Init`
-- leaves, with a book callback, satisfies the invariant of the message loop.
pub init-IsCore :
    (keys : List InstrumentKey) (publishes_bbo : Bool)
    → IsCore (init keys (new_core publishes_bbo true))
init-IsCore keys publishes_bbo =
    IsFresh-IsCore (init keys (new_core publishes_bbo true))
      (init-IsFresh keys (new_core publishes_bbo true) (new_core-IsFresh publishes_bbo))
