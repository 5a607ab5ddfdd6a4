-- ===== src/Core/Quotes.antt =====
-- The tops of book of all instruments: each that has been scanned under the present quote verdicts is
-- the top of its venues' quotes, after every quote too.
use aggregated_order_book.Base.{
  ℕ, ◌+◌, ◌^◌, ◌≤◌, ◌<◌, ◌≡◌, sym, subst, ◌∙◌, inl, inr, some, arith, ◌==◌, Bool-cases,
  Option-cases, length, set, length-set,
}
use aggregated_order_book.Types.{
  InstrumentKey, key_eq, BboQuote, max_venues, VenueQuoteArray, VenueHealthArray,
}
use aggregated_order_book.Core.{Core, empty_bbo}
use aggregated_order_book.Core.Maps.{
  lookup-assign_ne, some-injective, lookup-assign_self, lookup, value_or, assign, key_eq→≡,
}
use aggregated_order_book.Core.Ingest.{fold_quote, update_quote, process_quote}
use aggregated_order_book.Bbo.{Bbo}
use aggregated_order_book.Bbo.Top.{IsUint64}
use aggregated_order_book.Bbo.Update.{
  IsBbo, FitsQuotes, FitsQuotes-set, compute_bbo_from_quotes-IsBbo, update_bbo_with_quote-IsBbo,
}

-- `consolidated_bbo_[key]` and `bbo_health_version_seen_[key]`
abbrev pub bbo_of : Core → InstrumentKey → Bbo
bbo_of c key = value_or (lookup c.consolidated_bbo key) empty_bbo

abbrev pub seen_of : Core → InstrumentKey → ℕ
seen_of c key = value_or (lookup c.bbo_health_version_seen key) 0

-- One instrument's quotes and its running top of book. The versions are compared as the natural
-- numbers they count, up to 2^64 changes of verdict.
pub record IsQuoted (health : VenueHealthArray) (version seen : ℕ) (quotes : VenueQuoteArray)
    (b : Bbo) : Type 0 where
  pub size : length quotes ≡ max_venues
  pub fits : FitsQuotes quotes
  pub known : seen ≤ version
  pub top : seen ≡ version → IsBbo quotes (some health) b

abbrev pub AreQuoted : Core → Type 0
AreQuoted c =
    (key : InstrumentKey) (quotes : VenueQuoteArray)
    → lookup c.venue_quotes key ≡ some quotes
    → IsQuoted c.bbo_health c.bbo_health_version (seen_of c key) quotes (bbo_of c key)

-- The next change of a quote verdict does not wrap the counter.
abbrev pub HasVersion : Core → Type 0
HasVersion c = c.bbo_health_version + 1 < 2 ^ 64

-- A quote of uint64_t quantities for a slot of the arrays.
pub record FitsQuote (slot : ℕ) (q : BboQuote) : Type 0 where
  pub inside : slot < max_venues
  pub bid_qty : IsUint64 q.bid_qty
  pub ask_qty : IsUint64 q.ask_qty

module _ (slot : ℕ) (q : BboQuote) (c : Core) (quotes : VenueQuoteArray) (f : FitsQuote slot q)
    (h : IsQuoted c.bbo_health c.bbo_health_version
      (seen_of c q.instrument)
      quotes
      (bbo_of c q.instrument)) where
  stored-FitsQuotes : FitsQuotes (set quotes slot q)
  stored-FitsQuotes = FitsQuotes-set quotes slot q h.fits f.bid_qty f.ask_qty

  -- Folded in or scanned anew, the top is the top of the quotes with this one stored.
  pub fold_quote-IsBbo :
      IsBbo (set quotes slot q) (some c.bbo_health) (fold_quote c slot q (set quotes slot q))
  unfolding fold_quote
  fold_quote-IsBbo = elim (Bool-cases (seen_of c q.instrument == c.bbo_health_version)) [
    | inl a ↦
        rw (fold_quote, a)
          (update_bbo_with_quote-IsBbo (bbo_of c q.instrument) q slot quotes (some c.bbo_health)
            (omega (arith, h.size, f.inside)) h.size h.fits f.bid_qty f.ask_qty
            (h.top (ground (arith, a))))
    | inr a ↦
        rw (fold_quote, a)
          (compute_bbo_from_quotes-IsBbo (set quotes slot q) (some c.bbo_health) stored-FitsQuotes)
  ]

  stored-IsQuoted :
      IsQuoted c.bbo_health c.bbo_health_version c.bbo_health_version
        (set quotes slot q)
        (fold_quote c slot q (set quotes slot q))
  stored-IsQuoted = record {
    size = length-set quotes slot q ∙ h.size;
    fits = stored-FitsQuotes;
    known = omega arith;
    top = λ e. fold_quote-IsBbo;
  }

-- A quote of a known instrument.
update_quote-AreQuoted :
    (slot : ℕ) (q : BboQuote) (c : Core) (quotes : VenueQuoteArray)
    → FitsQuote slot q
    → lookup c.venue_quotes q.instrument ≡ some quotes
    → AreQuoted c
    → AreQuoted (update_quote slot q c quotes).0
unfolding update_quote
update_quote-AreQuoted slot q c quotes f at h key qs e =
    elim (Bool-cases (key_eq q.instrument key)) [
      | inl a ↦
          let same : q.instrument ≡ key = key_eq→≡ q.instrument key a in
          let stored = set quotes slot q in
          let top = fold_quote c slot q stored in
          let start = stored-IsQuoted slot q c quotes f (h q.instrument quotes at) in
          subst
            (λ k.
              (xs : VenueQuoteArray)
              → lookup (assign c.venue_quotes q.instrument stored) k ≡ some xs
              → IsQuoted c.bbo_health c.bbo_health_version
                  (value_or
                    (lookup (assign c.bbo_health_version_seen q.instrument c.bbo_health_version) k)
                    0)
                  xs (value_or (lookup (assign c.consolidated_bbo q.instrument top) k) empty_bbo))
            same
            (λ xs e'.
              rw
                (
                  lookup-assign_self c.bbo_health_version_seen q.instrument c.bbo_health_version,
                  lookup-assign_self c.consolidated_bbo q.instrument top,
                )
                (subst (λ x. IsQuoted c.bbo_health c.bbo_health_version c.bbo_health_version x top)
                  (some-injective
                    (sym (lookup-assign_self c.venue_quotes q.instrument stored) ∙ e'))
                  start))
            qs e
      | inr a ↦
          rw
            (
              lookup-assign_ne c.bbo_health_version_seen q.instrument key c.bbo_health_version a,
              lookup-assign_ne c.consolidated_bbo q.instrument key
                  (fold_quote c slot q (set quotes slot q)) a,
            )
            (h key qs
              (sym (lookup-assign_ne c.venue_quotes q.instrument key (set quotes slot q) a) ∙ e))
    ]

pub process_quote-AreQuoted :
    (slot : ℕ) (q : BboQuote) (c : Core)
    → FitsQuote slot q
    → AreQuoted c
    → AreQuoted (process_quote slot q c).0
unfolding process_quote
process_quote-AreQuoted slot q c f h = elim (Option-cases (lookup c.venue_quotes q.instrument)) [
  | inl a ↦ rw (process_quote, a) h
  | inr (quotes, a) ↦ rw (process_quote, a) (update_quote-AreQuoted slot q c quotes f a h)
]
