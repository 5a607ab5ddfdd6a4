-- ===== src/State/Tests.antt =====
-- Two venues' books, and a delta of the second one.
use aggregated_order_book.Base.{
  ℕ, ◌≤◌, ◌≡◌, refl, Bool, true, false, none, some, List, [], ◌∷◌, arith, set, All,
}
use aggregated_order_book.Base.Int.{pos}
use aggregated_order_book.Types.{PriceLevel, BookUpdate, bybit}
use aggregated_order_book.Book.{FlatOrderBook, new_book, bids_view, asks_view, apply_update}
use aggregated_order_book.Book.Order.{less, greater}
use aggregated_order_book.Book.Update.{IsWellFormed, new_book-IsValidBook, apply_update-IsValidBook}
use aggregated_order_book.Merge.{FlatBookArray, begin_all, FlatBookArray, views, merge_books}
use aggregated_order_book.Merge.Loop.{total}
use aggregated_order_book.Merge.Books.{iterators, IsSound}
use aggregated_order_book.Merge.Result.{Merges, merge_books-Merges}
use aggregated_order_book.State.{new_state, new_state, apply_depth_delta, full_rebuild}
use aggregated_order_book.State.Refine.{Fits, IsStep, apply_depth_delta-full_rebuild}

abbrev level : ℕ → ℕ → PriceLevel
level p q = record { price = p; qty = q }

abbrev message : Bool → List PriceLevel → List PriceLevel → BookUpdate
message snapshot bids asks = record {
  venue = bybit;
  instrument = record { packed = 256 };
  seq = 1;
  prev_seq = pos 0;
  recv_ts_ns = pos 0;
  exch_ts_ns = pos 0;
  recv_mono_ns = pos 0;
  is_snapshot = snapshot;
  bids = bids;
  asks = asks;
}

abbrev first_message : BookUpdate
first_message = message true (level 100 5 ∷ level 99 1 ∷ []) (level 101 3 ∷ [])

abbrev first_book : FlatOrderBook
first_book = apply_update (new_book bybit (record { packed = 256 })) first_message

abbrev delta_message : BookUpdate
delta_message = message false (level 100 0 ∷ level 98 4 ∷ []) (level 101 7 ∷ [])

abbrev books : FlatBookArray
books = some first_book ∷ none ∷ some first_book ∷ []

first-IsWellFormed : IsWellFormed first_message
first-IsWellFormed = record { bids = (refl, (refl, tt)); asks = (refl, tt) }

first-IsSound : IsSound (some first_book)
unfolding apply_update new_book
first-IsSound = (
  apply_update-IsValidBook (new_book bybit (record { packed = 256 })) first_message
      (new_book-IsValidBook bybit (record { packed = 256 })) first-IsWellFormed,
  (omega arith, (omega arith, tt)),
  (omega arith, tt),
)

books-IsSound : All IsSound books
books-IsSound = (first-IsSound, (tt, (first-IsSound, tt)))

books_bids : total (iterators bids_view none 3 books) ≡ 4
unfolding apply_update new_book bids_view begin_all views
books_bids = refl

books_asks : total (iterators asks_view none 3 books) ≡ 2
unfolding apply_update new_book asks_view begin_all views
books_asks = refl

books-Fits : Fits none 3 books
unfolding apply_update new_book bids_view asks_view begin_all views
books-Fits = record { bids = omega arith; asks = omega arith }

few_bids : total (iterators bids_view none 3 books) ≤ 1500
few_bids = omega (arith, books_bids)

few_asks : total (iterators asks_view none 3 books) ≤ 1500
few_asks = omega (arith, books_asks)

merge_books-Merges_example :
    Merges greater bids_view none books (merge_books new_state.book books 3 1500 none).bids
    × Merges less asks_view none books (merge_books new_state.book books 3 1500 none).asks
merge_books-Merges_example =
    merge_books-Merges new_state.book books 3 1500 none (omega arith) books-IsSound few_bids
      few_asks

abbrev second_book : FlatOrderBook
second_book = apply_update first_book delta_message

delta-IsStep : IsStep none 3 books 2 first_book delta_message
unfolding apply_update new_book bids_view asks_view begin_all views
delta-IsStep = record {
  size = omega arith;
  sound = books-IsSound;
  old_sound = first-IsSound;
  stands = refl;
  admitted = refl;
  delta = refl;
  well_formed = record { bids = (refl, (refl, tt)); asks = (refl, tt) };
  new_bids = (omega arith, (omega arith, tt));
  new_asks = (omega arith, tt);
  fits = books-Fits;
  new_fits = record { bids = omega arith; asks = omega arith };
}

apply_depth_delta-full_rebuild_example :
    (apply_depth_delta
      (full_rebuild new_state books 3 none)
      2
      second_book.last_bid_changes
      second_book.last_ask_changes).book
    ≡ (full_rebuild new_state (set books 2 (some second_book)) 3 none).book
apply_depth_delta-full_rebuild_example =
    apply_depth_delta-full_rebuild new_state none 3 books 2 first_book delta_message delta-IsStep
