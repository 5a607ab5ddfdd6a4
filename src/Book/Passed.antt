-- ===== src/Book/Passed.antt =====
-- What the walk of `ApplySide` leaves of the book: order, prices and quantities.
use aggregated_order_book.Base.{
  ℕ, Bool, true, false, List, [], ◌∷◌, ◌++◌, ◌≡◌, refl, sym, subst, ◌∙◌, ap, arith,
}
use aggregated_order_book.Types.{PriceLevel}
use aggregated_order_book.Book.Prices.{qty_at, has_price, NonZero}
use aggregated_order_book.Book.Order.{
  StorageLess, storage_less, flip, Before, Sorted, Across, Before-trans,
}
use aggregated_order_book.Book.Merge.{
  overridden, overridden_keep, overridden_new, overridden_replace,
}
use aggregated_order_book.Book.Turns.{walk-Turn, absent, insert, pass, erase, update}
use aggregated_order_book.Book.{Walk, walk, walk_rest, count_update}

-- The side after the in-place writes, best first.
abbrev pub written : Walk → List PriceLevel
written w = w.seen ++ w.rest

walk_rest-written : (c : Bool) (ds : List PriceLevel) → written (walk_rest c ds) ≡ []
unfolding walk_rest
walk_rest-written c [] = refl
walk_rest-written c (d ∷ ds) = ground (arith, walk_rest-written c ds)

walk_rest-rest : (c : Bool) (ds : List PriceLevel) → (walk_rest c ds).rest ≡ []
unfolding walk_rest
walk_rest-rest c [] = refl
walk_rest-rest c (d ∷ ds) = ground (arith, walk_rest-rest c ds)

-- A counted update writes the quantity of the delta, changed or not.
written-count_update :
    (c : Bool) (b : PriceLevel) (q : ℕ) (w : Walk)
    → written (count_update c b q w) ≡ record b { qty = q } ∷ written w
written-count_update c b q w = ground arith

rest-count_update :
    (c : Bool) (b : PriceLevel) (q : ℕ) (w : Walk) → (count_update c b q w).rest ≡ w.rest
rest-count_update c b q w = ground arith

inserts-count_update :
    (c : Bool) (b : PriceLevel) (q : ℕ) (w : Walk) → (count_update c b q w).inserts ≡ w.inserts
inserts-count_update c b q w = ground arith

erases-count_update :
    (c : Bool) (b : PriceLevel) (q : ℕ) (w : Walk) → (count_update c b q w).erases ≡ w.erases
erases-count_update c b q w = ground arith

-- A rest of the delta that inserts nothing holds removals only.
walk_rest_idle :
    (c : Bool) (ds : List PriceLevel) (p : ℕ) → (walk_rest c ds).inserts ≡ 0 → qty_at ds p ≡ 0
unfolding walk_rest
walk_rest_idle c [] p i = refl
walk_rest_idle c (d ∷ ds) p i = ground (arith, walk_rest_idle c ds p)

-- The walk moves no price.
pub Before-walk :
    (s t : StorageLess) (c : Bool) (p : ℕ) (bs ds : List PriceLevel)
    → Before t p bs
    → Before t p (written (walk s c bs ds))
unfolding walk
Before-walk s t c p [] ds h = rw (walk_rest-written c ds) tt
Before-walk s t c p (b ∷ bs) [] h = h
Before-walk s t c p (b ∷ bs) (d ∷ ds) h = elim (walk-Turn s c b bs d ds) [
  | absent o z e ↦ rw e (Before-walk s t c p (b ∷ bs) ds h)
  | insert o z e ↦ rw e (Before-walk s t c p (b ∷ bs) ds h)
  | pass o e ↦ rw e (h.0, Before-walk s t c p bs (d ∷ ds) h.1)
  | erase o z e ↦ rw e (h.0, Before-walk s t c p bs ds h.1)
  | update o z e ↦ rw (e, written-count_update) (h.0, Before-walk s t c p bs ds h.1)
]

pub Sorted-walk :
    (s t : StorageLess) (c : Bool) (bs ds : List PriceLevel)
    → Sorted t bs
    → Sorted t (written (walk s c bs ds))
unfolding walk
Sorted-walk s t c [] ds h = rw (walk_rest-written c ds) tt
Sorted-walk s t c (b ∷ bs) [] h = h
Sorted-walk s t c (b ∷ bs) (d ∷ ds) h = elim (walk-Turn s c b bs d ds) [
  | absent o z e ↦ rw e (Sorted-walk s t c (b ∷ bs) ds h)
  | insert o z e ↦ rw e (Sorted-walk s t c (b ∷ bs) ds h)
  | pass o e ↦ rw e (Before-walk s t c b.price bs (d ∷ ds) h.0, Sorted-walk s t c bs (d ∷ ds) h.1)
  | erase o z e ↦ rw e (Before-walk s t c b.price bs ds h.0, Sorted-walk s t c bs ds h.1)
  | update o z e ↦
      rw (e, written-count_update)
        (Before-walk s t c b.price bs ds h.0, Sorted-walk s t c bs ds h.1)
]

pub NonZero-walk :
    (s : StorageLess) (c : Bool) (bs ds : List PriceLevel)
    → NonZero bs
    → NonZero (written (walk s c bs ds))
unfolding walk
NonZero-walk s c [] ds h = rw (walk_rest-written c ds) tt
NonZero-walk s c (b ∷ bs) [] h = h
NonZero-walk s c (b ∷ bs) (d ∷ ds) h = elim (walk-Turn s c b bs d ds) [
  | absent o z e ↦ rw e (NonZero-walk s c (b ∷ bs) ds h)
  | insert o z e ↦ rw e (NonZero-walk s c (b ∷ bs) ds h)
  | pass o e ↦ rw e (h.0, NonZero-walk s c bs (d ∷ ds) h.1)
  | erase o z e ↦ rw e (h.0, NonZero-walk s c bs ds h.1)
  | update o z e ↦ rw (e, written-count_update) (z, NonZero-walk s c bs ds h.1)
]

-- The walk stops in a tail of the book.
Before-rest :
    (s t : StorageLess) (c : Bool) (p : ℕ) (bs ds : List PriceLevel)
    → Before t p bs
    → Before t p (walk s c bs ds).rest
unfolding walk
Before-rest s t c p [] ds h = rw (walk_rest-rest c ds) tt
Before-rest s t c p (b ∷ bs) [] h = h
Before-rest s t c p (b ∷ bs) (d ∷ ds) h = elim (walk-Turn s c b bs d ds) [
  | absent o z e ↦ rw e (Before-rest s t c p (b ∷ bs) ds h)
  | insert o z e ↦ rw e (Before-rest s t c p (b ∷ bs) ds h)
  | pass o e ↦ rw e (Before-rest s t c p bs (d ∷ ds) h.1)
  | erase o z e ↦ rw e (Before-rest s t c p bs ds h.1)
  | update o z e ↦ rw (e, rest-count_update) (Before-rest s t c p bs ds h.1)
]

walk_rest-Across :
    (s : StorageLess) (c : Bool) (es ds : List PriceLevel) → Across s es (walk_rest c ds).rest
walk_rest-Across s c [] ds = tt
walk_rest-Across s c (e ∷ es) ds = (rw (walk_rest-rest c ds) tt, walk_rest-Across s c es ds)

Across-equal :
    (s : StorageLess) (ds : List PriceLevel) {xs ys : List PriceLevel}
    → xs ≡ ys
    → Across s ds ys
    → Across s ds xs
Across-equal s ds e h = subst (Across s ds) (sym e) h

-- What the walk never reads ranks behind the whole delta: relocating the region alone is enough.
pub Across-rest :
    (s : StorageLess) (c : Bool) (bs ds : List PriceLevel)
    → Sorted (flip s) bs
    → Sorted (flip s) ds
    → Across (flip s) ds (walk s c bs ds).rest
unfolding walk
Across-rest s c [] ds hb hd = walk_rest-Across (flip s) c ds ds
Across-rest s c (b ∷ bs) [] hb hd = tt
Across-rest s c (b ∷ bs) (d ∷ ds) hb hd = elim (walk-Turn s c b bs d ds) [
  | absent o z e ↦
      Across-equal (flip s) (d ∷ ds) (ap (λ w. w.rest) e)
        (front o, Across-rest s c (b ∷ bs) ds hb hd.1)
  | insert o z e ↦
      Across-equal (flip s) (d ∷ ds) (ap (λ w. w.rest) e)
        (front o, Across-rest s c (b ∷ bs) ds hb hd.1)
  | pass o e ↦
      Across-equal (flip s) (d ∷ ds) (ap (λ w. w.rest) e) (Across-rest s c bs (d ∷ ds) hb.1 hd)
  | erase o z e ↦
      Across-equal (flip s) (d ∷ ds) (ap (λ w. w.rest) e) (level o, Across-rest s c bs ds hb.1 hd.1)
  | update o z e ↦
      Across-equal (flip s) (d ∷ ds)
        (ap (λ w. w.rest) e ∙ rest-count_update c b d.qty (walk s c bs ds))
        (level o, Across-rest s c bs ds hb.1 hd.1)
]
  where
    front :
        storage_less (flip s) d.price b.price ≡ true
        → Before (flip s) d.price (walk s c (b ∷ bs) ds).rest
    front o =
        Before-rest s (flip s) c d.price (b ∷ bs) ds
          (o, Before-trans (flip s) d.price b.price bs o hb.0)

    level : b.price ≡ d.price → Before (flip s) d.price (walk s c bs ds).rest
    level q = Before-rest s (flip s) c d.price bs ds (rw (← q) hb.0)

-- A price that the delta does not name keeps its quantity.
pub qty_at-walk_absent :
    (s : StorageLess) (c : Bool) (bs ds : List PriceLevel) (p : ℕ)
    → has_price ds p ≡ false
    → qty_at (written (walk s c bs ds)) p ≡ qty_at bs p
unfolding walk
qty_at-walk_absent s c [] ds p h = rw (walk_rest-written c ds)
qty_at-walk_absent s c (b ∷ bs) [] p h = refl
qty_at-walk_absent s c (b ∷ bs) (d ∷ ds) p h = elim (walk-Turn s c b bs d ds) [
  | absent o z e ↦ rw e (qty_at-walk_absent s c (b ∷ bs) ds p (ground arith))
  | insert o z e ↦ rw e (qty_at-walk_absent s c (b ∷ bs) ds p (ground arith))
  | pass o e ↦ rw e (omega (arith, qty_at-walk_absent s c bs (d ∷ ds) p h))
  | erase o z e ↦ rw e (ground (arith, qty_at-walk_absent s c bs ds p))
  | update o z e ↦ rw (e, written-count_update) (ground (arith, qty_at-walk_absent s c bs ds p))
]

-- Nothing entered and nothing left: the writes in place are the whole update.
pub qty_at-walk_in_place :
    (s : StorageLess) (c : Bool) (bs ds : List PriceLevel) (p : ℕ)
    → Sorted (flip s) bs
    → Sorted (flip s) ds
    → (walk s c bs ds).inserts ≡ 0
    → (walk s c bs ds).erases ≡ 0
    → qty_at (written (walk s c bs ds)) p ≡ overridden bs ds p
unfolding walk
qty_at-walk_in_place s c [] ds p hb hd i x =
    rw (walk_rest-written c ds) (ground (arith, walk_rest_idle c ds p i))
qty_at-walk_in_place s c (b ∷ bs) [] p hb hd i x = refl
qty_at-walk_in_place s c (b ∷ bs) (d ∷ ds) p hb hd i x = elim (walk-Turn s c b bs d ds) [
  | absent o z e ↦ rw e (
      ground (
        arith,
        overridden_new (flip s) d (b ∷ bs) ds p _
            (o, Before-trans (flip s) d.price b.price bs o hb.0) hd.0
            (qty_at-walk_in_place s c (b ∷ bs) ds p hb hd.1 (rw e at i) (rw e at x)),
      ))
  | insert o z e ↦ absurd (omega (arith, ap (λ w. w.inserts) e))
  | pass o e ↦ rw e (
      overridden_keep (flip s) b bs (d ∷ ds) p _
        (o, Before-trans (flip s) b.price d.price ds o hd.0)
        (qty_at-walk_in_place s c bs (d ∷ ds) p hb.1 hd (rw e at i) (rw e at x)))
  | erase o z e ↦ absurd (omega (arith, ap (λ w. w.erases) e))
  | update o z e ↦
      rw (e, written-count_update)
        (ground (
          arith,
          o,
          overridden_replace (flip s) b d bs ds p _ o (rw (← o) hb.0) hd.0 (
              qty_at-walk_in_place s c bs ds p hb.1 hd.1
                (sym (inserts-count_update c b d.qty (walk s c bs ds)) ∙ (rw e at i))
                (sym (erases-count_update c b d.qty (walk s c bs ds)) ∙ (rw e at x))),
        ))
]
