-- ===== src/Merge/Books.antt =====
-- The iterators of an array of books: which venue contributes what, and one book replaced.
use aggregated_order_book.Base.{
  ℕ, zero, suc, ◌+◌, ◌^◌, ◌≤◌, ◌<◌, ◌≡◌, refl, ap, ◌∙◌, inl, inr, true, Option, none, some, List,
  [], ◌∷◌, reverse, arith, Bool-cases, length, get_elem?, get_or, set, take, All,
}
use aggregated_order_book.Types.{PriceLevel, VenueHealthArray}
use aggregated_order_book.Book.{FlatOrderBook, bids_view, asks_view}
use aggregated_order_book.Book.Order.{StorageLess, less, greater, flip, Sorted-reverse, All-reverse}
use aggregated_order_book.Book.Prices.{NonZero}
use aggregated_order_book.Book.Side.{IsValidSide}
use aggregated_order_book.Book.Update.{IsValidBook}
use aggregated_order_book.Bbo.{admits}
use aggregated_order_book.Merged.Held.{IsQty}
use aggregated_order_book.Merge.{
  FlatBookArray, begin, merge_loop, begin, begin_all, merge_side, FlatBookArray, views,
}
use aggregated_order_book.Merge.Iters.{IsIter}

-- The iterators that `MergeBooks` starts with.
abbrev pub iterators :
    (FlatOrderBook → List PriceLevel)
    → Option VenueHealthArray
    → ℕ
    → FlatBookArray
    → List (List PriceLevel)
iterators view health venue_count books = begin_all health 0 (views view (take venue_count books))

pub merge_side-merge_loop :
    (t : StorageLess) (view : FlatOrderBook → List PriceLevel) (health : Option VenueHealthArray)
    (depth venue_count : ℕ) (books : FlatBookArray)
    → merge_side t health depth (views view (take venue_count books))
      ≡ merge_loop t depth (iterators view health venue_count books)
unfolding merge_side
merge_side-merge_loop t view health depth venue_count books = refl

-- A book whose quantities are uint64_t and whose sides are valid.
abbrev pub IsUint : List PriceLevel → Type 0
IsUint = All (λ l. l.qty < 2 ^ 64)

abbrev pub IsSound : Option FlatOrderBook → Type 0
IsSound none = Unit
IsSound (some b) = IsValidBook b × IsUint b.bids × IsUint b.asks

IsQty-levels : (ls : List PriceLevel) → NonZero ls → IsUint ls → All (λ l. IsQty l.qty) ls
IsQty-levels [] h k = tt
IsQty-levels (l ∷ ls) h k = ((h.0, k.0), IsQty-levels ls h.1 k.1)

-- A side read from its best level is an iterator.
reverse-IsIter :
    (s : StorageLess) (side : List PriceLevel)
    → IsValidSide s side
    → IsUint side
    → IsIter (flip s) (reverse side)
reverse-IsIter s side v u = (
  Sorted-reverse s side v.sorted,
  All-reverse (λ l. IsQty l.qty) side (IsQty-levels side v.filled u),
)

module _ (health : Option VenueHealthArray) (view : FlatOrderBook → List PriceLevel)
    (t : StorageLess) (ok : (b : FlatOrderBook) → IsSound (some b) → IsIter t (view b)) where
  begin-IsIter :
      (i : ℕ) (b : FlatOrderBook) → IsSound (some b) → IsIter t (begin health i (some (view b)))
  begin-IsIter i b h = elim (Bool-cases (admits health i)) [
    | inl e ↦ rw e (ok b h)
    | inr e ↦ rw e (tt, tt)
  ]

  pub begin_all-IsIter :
      (i n : ℕ) (books : FlatBookArray)
      → All IsSound books
      → All (IsIter t) (begin_all health i (views view (take n books)))
  unfolding begin_all views
  begin_all-IsIter i zero books h = tt
  begin_all-IsIter i (suc n) [] h = tt
  begin_all-IsIter i (suc n) (none ∷ books) h = ((tt, tt), begin_all-IsIter (i + 1) n books h.1)
  begin_all-IsIter i (suc n) (some b ∷ books) h =
      (begin-IsIter i b h.0, begin_all-IsIter (i + 1) n books h.1)

  pub length-begin_all :
      (i n : ℕ) (books : FlatBookArray)
      → length (begin_all health i (views view (take n books))) ≤ length books
  unfolding begin_all views
  length-begin_all i zero books = omega arith
  length-begin_all i (suc n) [] = omega arith
  length-begin_all i (suc n) (none ∷ books) = omega (arith, length-begin_all (i + 1) n books)
  length-begin_all i (suc n) (some b ∷ books) = omega (arith, length-begin_all (i + 1) n books)

  admits_at : (i j : ℕ) → i ≡ j → admits health j ≡ true → admits health i ≡ true
  admits_at i j e a = ap (admits health) e ∙ a

  begin_admitted :
      (i : ℕ) (b : FlatOrderBook) → admits health i ≡ true → begin health i (some (view b)) ≡ view b
  begin_admitted i b a = rw a refl

  -- The venue `k` slots on, if it is there and admitted.
  pub begin_all-at :
      (i n : ℕ) (books : FlatBookArray) (k : ℕ) (old : FlatOrderBook)
      → get_elem? (take n books) k ≡ some (some old)
      → admits health (i + k) ≡ true
      → (get_or (begin_all health i (views view (take n books))) k [] ≡ view old)
        × (k < length (begin_all health i (views view (take n books))))
  unfolding begin_all views
  begin_all-at i zero books k old e a = absurd (cc)
  begin_all-at i (suc n) [] k old e a = absurd (cc)
  begin_all-at i (suc n) (none ∷ books) zero old e a = absurd (cc)
  begin_all-at i (suc n) (some b ∷ books) zero old e a =
      let same_book : b ≡ old = cc in
      (begin_admitted i b (admits_at i (i + 0) (omega arith) a) ∙ ap view same_book, omega arith)
  begin_all-at i (suc n) (none ∷ books) (suc k) old e a =
      let (v, l) =
        begin_all-at (i + 1) n books k old e (admits_at (i + 1 + k) (i + suc k) (omega arith) a) in
      (v, omega (arith, l))
  begin_all-at i (suc n) (some b ∷ books) (suc k) old e a =
      let (v, l) =
        begin_all-at (i + 1) n books k old e (admits_at (i + 1 + k) (i + suc k) (omega arith) a) in
      (v, omega (arith, l))

  pub begin_all-set :
      (i n : ℕ) (books : FlatBookArray) (k : ℕ) (new : FlatOrderBook)
      → admits health (i + k) ≡ true
      → begin_all health i (views view (take n (set books k (some new))))
        ≡ set (begin_all health i (views view (take n books))) k (view new)
  unfolding begin_all views
  begin_all-set i zero books k new a = refl
  begin_all-set i (suc n) [] k new a = refl
  begin_all-set i (suc n) (none ∷ books) zero new a =
      ap (λ x. x ∷ begin_all health (i + 1) (views view (take n books)))
        (begin_admitted i new (admits_at i (i + 0) (omega arith) a))
  begin_all-set i (suc n) (some b ∷ books) zero new a =
      ap (λ x. x ∷ begin_all health (i + 1) (views view (take n books)))
        (begin_admitted i new (admits_at i (i + 0) (omega arith) a))
  begin_all-set i (suc n) (none ∷ books) (suc k) new a =
      ap (λ xs. [] ∷ xs)
        (begin_all-set (i + 1) n books k new (admits_at (i + 1 + k) (i + suc k) (omega arith) a))
  begin_all-set i (suc n) (some b ∷ books) (suc k) new a =
      ap (λ xs. begin health i (some (view b)) ∷ xs)
        (begin_all-set (i + 1) n books k new (admits_at (i + 1 + k) (i + suc k) (omega arith) a))

pub bids_view-IsIter : (b : FlatOrderBook) → IsSound (some b) → IsIter greater (bids_view b)
unfolding bids_view
bids_view-IsIter b h = reverse-IsIter less b.bids h.0.bids h.1

pub asks_view-IsIter : (b : FlatOrderBook) → IsSound (some b) → IsIter less (asks_view b)
unfolding asks_view
asks_view-IsIter b h = reverse-IsIter greater b.asks h.0.asks h.2
