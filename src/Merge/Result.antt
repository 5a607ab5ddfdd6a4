-- ===== src/Merge/Result.antt =====
-- What `MergeBooks` promises, from the books.
use aggregated_order_book.Base.{
  ℕ, zero, suc, ◌+◌, ◌≤◌, ◌≡◌, refl, ap, ◌∙◌, inl, inr, Option, none, some, List, [], ◌∷◌, arith,
  if◌then◌else◌, Bool-cases, length, get_or, take, All,
}
use aggregated_order_book.Types.{PriceLevel, VenueHealthArray, max_venues}
use aggregated_order_book.Book.{FlatOrderBook, bids_view, asks_view}
use aggregated_order_book.Book.Prices.{qty_at}
use aggregated_order_book.Book.Order.{StorageLess, less, greater}
use aggregated_order_book.Bbo.{admits}
use aggregated_order_book.Merged.{MergedLevel, MergedBook}
use aggregated_order_book.Merged.Held.{held, IsMergedSide}
use aggregated_order_book.Merge.{
  begin, FlatBookArray, begin, begin_all, merge_side, FlatBookArray, views, merge_books,
}
use aggregated_order_book.Merge.Iters.{IsIter}
use aggregated_order_book.Merge.Loop.{total}
use aggregated_order_book.Merge.Whole.{merge_loop-IsMergeOf}
use aggregated_order_book.Merge.Books.{
  length-begin_all, begin_all-IsIter, iterators, merge_side-merge_loop, IsSound, bids_view-IsIter,
  asks_view-IsIter,
}

-- The quantity at `p` that the book of venue `i` brings in: none without a book or admission.
abbrev pub brought :
    (FlatOrderBook → List PriceLevel) → Option VenueHealthArray → ℕ → Option FlatOrderBook → ℕ → ℕ
brought view health i none p = 0
brought view health i (some b) p = if admits health i then qty_at (view b) p else 0

module _ (view : FlatOrderBook → List PriceLevel) (health : Option VenueHealthArray) where
  begin-brought :
      (i : ℕ) (b : FlatOrderBook) (p : ℕ)
      → qty_at (begin health i (some (view b))) p ≡ brought view health i (some b) p
  begin-brought i b p = elim (Bool-cases (admits health i)) [
    | inl e ↦ rw e refl
    | inr e ↦ rw e refl
  ]

  begin_all-brought :
      (j : ℕ) (books : FlatBookArray) (i p : ℕ)
      → qty_at (get_or (begin_all health j (views view books)) i []) p
        ≡ brought view health (j + i) (get_or books i none) p
  unfolding begin_all views
  begin_all-brought j [] i p = refl
  begin_all-brought j (none ∷ books) zero p = refl
  begin_all-brought j (some b ∷ books) zero p =
      begin-brought j b p ∙ ap (λ k. brought view health k (some b) p) (omega arith)
  begin_all-brought j (none ∷ books) (suc i) p =
      begin_all-brought (j + 1) books i p
      ∙ ap (λ k. brought view health k (get_or books i none) p) (omega arith)
  begin_all-brought j (some b ∷ books) (suc i) p =
      begin_all-brought (j + 1) books i p
      ∙ ap (λ k. brought view health k (get_or books i none) p) (omega arith)

-- A side of the merge: well-formed, and each venue's quantity at each price.
pub record Merges (t : StorageLess) (view : FlatOrderBook → List PriceLevel)
    (health : Option VenueHealthArray) (books : FlatBookArray) (side : List MergedLevel)
    : Type 0 where
  pub side_ok : IsMergedSide t side
  pub quantities : (i p : ℕ) → held side i p ≡ brought view health i (get_or books i none) p

merge_side-Merges :
    (t : StorageLess) (view : FlatOrderBook → List PriceLevel) (health : Option VenueHealthArray)
    (books : FlatBookArray) (n depth : ℕ)
    → ((b : FlatOrderBook) → IsSound (some b) → IsIter t (view b))
    → length books ≤ max_venues
    → All IsSound books
    → total (iterators view health n books) ≤ depth
    → Merges t view health (take n books) (merge_side t health depth (views view (take n books)))
merge_side-Merges t view health books n depth ok h k f =
    let its = iterators view health n books in
    let m =
      merge_loop-IsMergeOf t depth its
        (omega (arith, h, length-begin_all health view t ok 0 n books))
        (begin_all-IsIter health view t ok 0 n books k) f in
    rw (merge_side-merge_loop t view health depth n books) (record {
      side_ok = m.side;
      quantities = λ i p.
          m.quantities i p
          ∙ begin_all-brought view health 0 (take n books) i p
          ∙ ap (λ j. brought view health j (get_or (take n books) i none) p) (omega arith);
    })

-- If the admitted books' levels fit max_depth, both sides that `MergeBooks` leaves are strictly best
-- first, with every level attributed to ascending slots and its quantity the sum of theirs as
-- uint64_t; and each venue among the first venue_count has at each price the quantity that its book
-- has there if it is admitted, and nothing otherwise.
pub merge_books-Merges :
    (out : MergedBook) (books : FlatBookArray) (n depth : ℕ) (health : Option VenueHealthArray)
    → length books ≤ max_venues
    → All IsSound books
    → total (iterators bids_view health n books) ≤ depth
    → total (iterators asks_view health n books) ≤ depth
    → Merges greater bids_view health (take n books) (merge_books out books n depth health).bids
      × Merges less asks_view health (take n books) (merge_books out books n depth health).asks
unfolding merge_books
merge_books-Merges out books n depth health h k f g = (
  merge_side-Merges greater bids_view health books n depth bids_view-IsIter h k f,
  merge_side-Merges less asks_view health books n depth asks_view-IsIter h k g,
)
