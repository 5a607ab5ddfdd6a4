-- ===== src/Bbo/Scan.antt =====
-- `ScanBestBid` and `ScanBestAsk`: a full scan yields the top of the admitted venues' quotes.
use mathlib.Core.Path.{fun_ext}
use aggregated_order_book.Base.{
  ℕ, suc, ◌+◌, ◌≡◌, refl, ap, subst, ◌-◌, false, List, [], ◌∷◌, Option, none, ◌==◌, if◌then◌else◌,
  arith, ◌||◌, Bool-cases, inl, inr, ltb, get_or, All,
}
use aggregated_order_book.Types.{BboQuote, VenueQuoteArray, VenueHealthArray, no_quote}
use aggregated_order_book.Bbo.Venues.{find_slot}
use aggregated_order_book.Bbo.Top.{
  IsUint64, IsTop, with_slot, IsTop-empty, IsTop-single, IsTop-append, IsTop-ignore,
}
use aggregated_order_book.Bbo.{
  Side, bid, ask, Level, better, price_of, qty_of, admits, scan_step, scan_from, scan_best,
  scan_best_bid, scan_best_ask, empty_level,
}

-- What the venue in slot `i` offers: nothing unless it is admitted.
abbrev pub offer : Side → Option VenueHealthArray → VenueQuoteArray → ℕ → ℕ
offer side health quotes i = if admits health i then price_of side (get_or quotes i no_quote) else 0

abbrev pub offer_qty : Side → VenueQuoteArray → ℕ → ℕ
offer_qty side quotes i = qty_of side (get_or quotes i no_quote)

-- Every quantity is a uint64_t.
abbrev pub FitsQty : Side → List BboQuote → Type 0
FitsQty side = All (λ q. IsUint64 (qty_of side q))

pub IsTop-ext :
    (side : Side) (f f' g g' : ℕ → ℕ) (l : Level)
    → ((i : ℕ) → f i ≡ f' i)
    → ((i : ℕ) → g i ≡ g' i)
    → IsTop side f g l
    → IsTop side f' g' l
IsTop-ext side f f' g g' l hf hg t =
    subst (λ h. IsTop side f' h l) (fun_ext hg) (subst (λ h. IsTop side h g l) (fun_ext hf) t)

-- One turn folds the venue's offer in.
IsTop-scan_step :
    (side : Side) (health : Option VenueHealthArray) (k : ℕ) (q : BboQuote) (f g : ℕ → ℕ)
    (l : Level)
    → IsUint64 (qty_of side q)
    → f k ≡ 0
    → IsTop side f g l
    → IsTop side
        (with_slot f k (if admits health k then price_of side q else 0))
        (with_slot g k (qty_of side q))
        (scan_step side health k q l)
unfolding scan_step
IsTop-scan_step side health k q f g l u z t = elim (Bool-cases (price_of side q == 0)) [
  | inl a ↦ rw a (IsTop-ignore side f g l t k _ _ (λ h. absurd (h (ground arith))) unseen)
  | inr a ↦ elim (Bool-cases (admits health k)) [
    | inr b ↦ rw (a, b) (IsTop-ignore side f g l t k _ _ (λ h. absurd (h refl)) unseen)
    | inl b ↦ elim (Bool-cases (l.price == 0 || better side (price_of side q) l.price)) [
      | inl c ↦ rw (a, b, c) (IsTop-single side f g l t k _ _ u (ground arith) c)
      | inr c ↦ elim (Bool-cases (price_of side q == l.price)) [
        | inl d ↦
            rw (a, b, c, d) (IsTop-append side f g l t k _ _ (ground arith) (ground arith) unseen)
        | inr d ↦
            rw (a, b, c, d)
              (IsTop-ignore side f g l t k _ _ (λ h. (ground arith, ground arith, ground arith))
                unseen)
      ]
    ]
  ]
]
  where
    unseen : find_slot l.venues k ≡ none
    unseen = ground (arith, t.venues k)

-- The slots below `k` alone.
abbrev below : ℕ → (ℕ → ℕ) → ℕ → ℕ
below k f i = if ltb i k then f i else 0

-- The offers of the quotes from slot `k` on.
record OffersFrom (side : Side) (health : Option VenueHealthArray) (k : ℕ) (qs : List BboQuote)
    (f g : ℕ → ℕ) : Type 0 where
  prices :
      (j : ℕ)
      → f (k + j) ≡ (if admits health (k + j) then price_of side (get_or qs j no_quote) else 0)
  quantities : (j : ℕ) → g (k + j) ≡ qty_of side (get_or qs j no_quote)

OffersFrom-tail :
    (side : Side) (health : Option VenueHealthArray) (k : ℕ) (q : BboQuote) (qs : List BboQuote)
    (f g : ℕ → ℕ)
    → OffersFrom side health k (q ∷ qs) f g
    → OffersFrom side health (k + 1) qs f g
OffersFrom-tail side health k q qs f g o = record {
  prices = λ j. rw (shift j) (o.prices (suc j));
  quantities = λ j. rw (shift j) (o.quantities (suc j));
}
  where
    shift : (j : ℕ) → k + 1 + j ≡ k + suc j
    shift j = omega arith

OffersFrom-done :
    (side : Side) (health : Option VenueHealthArray) (k : ℕ) (f g : ℕ → ℕ) (l : Level)
    → OffersFrom side health k [] f g
    → IsTop side (below k f) (below k g) l
    → IsTop side f g l
OffersFrom-done side health k f g l o t =
    IsTop-ext side (below k f) f (below k g) g l prices quantities t
  where
    back : (i : ℕ) → ltb i k ≡ false → k + (i - k) ≡ i
    back i h = ground arith

    prices : (i : ℕ) → below k f i ≡ f i
    prices i = elim (Bool-cases (ltb i k)) [
      | inl e ↦ rw e
      | inr e ↦ let p = o.prices (i - k) in rw e (ground (arith, p, back i e, ap f (back i e)))
    ]

    quantities : (i : ℕ) → below k g i ≡ g i
    quantities i = elim (Bool-cases (ltb i k)) [
      | inl e ↦ rw e
      | inr e ↦ let p = o.quantities (i - k) in rw e (ground (arith, p, back i e, ap g (back i e)))
    ]

scan_from-IsTop :
    (side : Side) (health : Option VenueHealthArray) (f g : ℕ → ℕ) (k : ℕ) (qs : List BboQuote)
    (l : Level)
    → FitsQty side qs
    → OffersFrom side health k qs f g
    → IsTop side (below k f) (below k g) l
    → IsTop side f g (scan_from side health k qs l)
unfolding scan_from
scan_from-IsTop side health f g k [] l u o t = OffersFrom-done side health k f g l o t
scan_from-IsTop side health f g k (q ∷ qs) l u o t =
    scan_from-IsTop side health f g (k + 1) qs (scan_step side health k q l) u.1
      (OffersFrom-tail side health k q qs f g o)
      (IsTop-ext side _ (below (k + 1) f) _ (below (k + 1) g) (scan_step side health k q l) prices
        quantities (IsTop-scan_step side health k q (below k f) (below k g) l u.0 (ground arith) t))
  where
    at : k + 0 ≡ k
    at = omega arith

    prices :
        (i : ℕ)
        → with_slot (below k f) k (if admits health k then price_of side q else 0) i
          ≡ below (k + 1) f i
    prices i = let p = rw at at (o.prices 0) in ground (arith, p)

    quantities : (i : ℕ) → with_slot (below k g) k (qty_of side q) i ≡ below (k + 1) g i
    quantities i = let p = rw at at (o.quantities 0) in ground (arith, p)

scan_zero-IsTop :
    (side : Side) (quotes : VenueQuoteArray) (health : Option VenueHealthArray)
    → FitsQty side quotes
    → IsTop side
        (offer side health quotes)
        (offer_qty side quotes)
        (scan_from side health 0 quotes empty_level)
scan_zero-IsTop side quotes health u =
    scan_from-IsTop side health (offer side health quotes) (offer_qty side quotes) 0 quotes
      empty_level u (record { prices = λ j. rw (from_zero j); quantities = λ j. rw (from_zero j) })
      (IsTop-ext side (λ i. 0) (below 0 (offer side health quotes)) (λ i. 0)
        (below 0 (offer_qty side quotes)) empty_level (λ i. ground arith) (λ i. ground arith)
        (IsTop-empty side (λ i. 0)))
  where
    from_zero : (j : ℕ) → 0 + j ≡ j
    from_zero j = omega arith

-- The full scan of either side is the top of the admitted venues' quotes: no admitted quote is
-- better, the price is quoted (or nobody quotes and it is 0), the attribution lists exactly the
-- venues at that price, each once, and the total is their sum in uint64_t.
pub scan_best-IsTop :
    (side : Side) (quotes : VenueQuoteArray) (health : Option VenueHealthArray)
    → FitsQty side quotes
    → IsTop side (offer side health quotes) (offer_qty side quotes) (scan_best side quotes health)
unfolding scan_best scan_best_bid scan_best_ask
scan_best-IsTop bid quotes health u = scan_zero-IsTop bid quotes health u
scan_best-IsTop ask quotes health u = scan_zero-IsTop ask quotes health u
