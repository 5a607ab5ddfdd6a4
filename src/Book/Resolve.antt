-- ===== src/Book/Resolve.antt =====
-- The order that `ApplySide` brings a delta into: the same levels, strictly sorted if no price
-- stands twice.
use aggregated_order_book.Base.{
  ℕ, ◌+◌, true, false, List, [], ◌∷◌, ◌++◌, ◌≡◌, refl, ◌∙◌, arith, if◌then◌else◌, ◌==◌, reverse,
  reverse-cons, Bool-cases, inl, inr, ◌||◌,
}
use aggregated_order_book.Types.{PriceLevel}
use aggregated_order_book.Book.Prices.{
  qty_at, has_price, Distinct, qty_at-reverse, has_price-reverse, has_price-append,
}
use aggregated_order_book.Book.Order.{StorageLess, storage_less, Before, Sorted, Before-trans}
use aggregated_order_book.Book.{ordered_from, insert_sorted, sort_levels, resolve_order}

Distinct-snoc :
    (xs : List PriceLevel) (x : PriceLevel)
    → has_price xs x.price ≡ false
    → Distinct xs
    → Distinct (xs ++ x ∷ [])
Distinct-snoc [] x h d = (refl, tt)
Distinct-snoc (y ∷ ys) x h d = (
  rw (has_price-append ys (x ∷ []) y.price) (ground arith),
  Distinct-snoc ys x (ground arith) d.1,
)

Distinct-reverse : (xs : List PriceLevel) → Distinct xs → Distinct (reverse xs)
Distinct-reverse [] d = tt
Distinct-reverse (x ∷ xs) d =
    rw (reverse-cons x xs)
      (Distinct-snoc (reverse xs) x (has_price-reverse xs x.price ∙ d.0) (Distinct-reverse xs d.1))

ordered_from-Sorted :
    (s : StorageLess) (xs : List PriceLevel) → ordered_from s xs ≡ true → Distinct xs → Sorted s xs
unfolding ordered_from
ordered_from-Sorted s [] h d = tt
ordered_from-Sorted s (x ∷ []) h d = (tt, tt)
ordered_from-Sorted s (x ∷ y ∷ ys) h d =
    let rest : Sorted s (y ∷ ys) = ordered_from-Sorted s (y ∷ ys) (ground arith) d.1 in
    let lt : storage_less s x.price y.price ≡ true = ground arith in
    ((lt, Before-trans s x.price y.price ys lt rest.0), rest)

has_price-insert_sorted :
    (s : StorageLess) (x : PriceLevel) (ys : List PriceLevel) (p : ℕ)
    → has_price (insert_sorted s x ys) p ≡ (x.price == p || has_price ys p)
unfolding insert_sorted
has_price-insert_sorted s x [] p = refl
has_price-insert_sorted s x (y ∷ ys) p = ground (arith, has_price-insert_sorted s x ys p)

qty_at-insert_sorted :
    (s : StorageLess) (x : PriceLevel) (ys : List PriceLevel) (p : ℕ)
    → qty_at (insert_sorted s x ys) p ≡ (if x.price == p then x.qty else 0) + qty_at ys p
unfolding insert_sorted
qty_at-insert_sorted s x [] p = refl
qty_at-insert_sorted s x (y ∷ ys) p = ground (arith, qty_at-insert_sorted s x ys p)

Before-insert_sorted :
    (s : StorageLess) (p : ℕ) (x : PriceLevel) (ys : List PriceLevel)
    → storage_less s p x.price ≡ true
    → Before s p ys
    → Before s p (insert_sorted s x ys)
unfolding insert_sorted
Before-insert_sorted s p x [] h b = (h, tt)
Before-insert_sorted s p x (y ∷ ys) h b = elim (Bool-cases (storage_less s y.price x.price)) [
  | inl e ↦ rw e (b.0, Before-insert_sorted s p x ys h b.1)
  | inr e ↦ rw e (h, b)
]

Sorted-insert_sorted :
    (s : StorageLess) (x : PriceLevel) (ys : List PriceLevel)
    → has_price ys x.price ≡ false
    → Sorted s ys
    → Sorted s (insert_sorted s x ys)
unfolding insert_sorted
Sorted-insert_sorted s x [] h k = (tt, tt)
Sorted-insert_sorted s x (y ∷ ys) h k = elim (Bool-cases (storage_less s y.price x.price)) [
  | inl e ↦
      rw e
        (Before-insert_sorted s y.price x ys e k.0, Sorted-insert_sorted s x ys (ground arith) k.1)
  | inr e ↦
      let lt : storage_less s x.price y.price ≡ true = ground arith in
      rw e ((lt, Before-trans s x.price y.price ys lt k.0), k)
]

has_price-sort_levels :
    (s : StorageLess) (xs : List PriceLevel) (p : ℕ)
    → has_price (sort_levels s xs) p ≡ has_price xs p
unfolding sort_levels
has_price-sort_levels s [] p = refl
has_price-sort_levels s (x ∷ xs) p =
    rw (has_price-insert_sorted s x (sort_levels s xs) p, has_price-sort_levels s xs p)

qty_at-sort_levels :
    (s : StorageLess) (xs : List PriceLevel) (p : ℕ) → qty_at (sort_levels s xs) p ≡ qty_at xs p
unfolding sort_levels
qty_at-sort_levels s [] p = refl
qty_at-sort_levels s (x ∷ xs) p =
    rw (qty_at-insert_sorted s x (sort_levels s xs) p, qty_at-sort_levels s xs p)

Sorted-sort_levels :
    (s : StorageLess) (xs : List PriceLevel) → Distinct xs → Sorted s (sort_levels s xs)
unfolding sort_levels
Sorted-sort_levels s [] d = tt
Sorted-sort_levels s (x ∷ xs) d =
    Sorted-insert_sorted s x (sort_levels s xs) (has_price-sort_levels s xs x.price ∙ d.0)
      (Sorted-sort_levels s xs d.1)

pub has_price-resolve_order :
    (s : StorageLess) (xs : List PriceLevel) (p : ℕ)
    → has_price (resolve_order s xs) p ≡ has_price xs p
unfolding resolve_order
has_price-resolve_order s xs p =
    ground (arith, has_price-reverse xs p, has_price-sort_levels s xs p)

pub qty_at-resolve_order :
    (s : StorageLess) (xs : List PriceLevel) (p : ℕ) → qty_at (resolve_order s xs) p ≡ qty_at xs p
unfolding resolve_order
qty_at-resolve_order s xs p = ground (arith, qty_at-reverse xs p, qty_at-sort_levels s xs p)

-- Whatever order the venue sent, the merge gets a strictly sorted delta.
pub Sorted-resolve_order :
    (s : StorageLess) (xs : List PriceLevel) → Distinct xs → Sorted s (resolve_order s xs)
unfolding resolve_order
Sorted-resolve_order s xs d = elim (Bool-cases (ordered_from s xs)) [
  | inl e ↦ rw e (ordered_from-Sorted s xs e d)
  | inr e ↦ elim (Bool-cases (ordered_from s (reverse xs))) [
    | inl f ↦ rw (e, f) (ordered_from-Sorted s (reverse xs) f (Distinct-reverse xs d))
    | inr f ↦ rw (e, f) (Sorted-sort_levels s xs d)
  ]
]
