-- ===== src/Book/Tests.antt =====
-- Runs of the book on small inputs, and the theorems at inputs where their hypotheses hold.
use aggregated_order_book.Base.{ℕ, true, false, List, [], ◌∷◌, ◌≡◌, refl, arith}
use aggregated_order_book.Base.Int.{pos}
use aggregated_order_book.Types.{binance, PriceLevel, LevelChange, BookUpdate}
use aggregated_order_book.Book.Prices.{qty_at, Distinct}
use aggregated_order_book.Book.Order.{less, greater}
use aggregated_order_book.Book.Side.{IsValidSide, qty_at-apply_side}
use aggregated_order_book.Book.Transition.{IsTransition, apply_side-IsTransition}
use aggregated_order_book.Book.Update.{
  IsValidBook, IsWellFormed, ReportsTransition, apply_update-IsValidBook, qty_at-apply_update,
  apply_update_delta,
}
use aggregated_order_book.Book.{FlatOrderBook, new_book, apply_side, apply_update}

abbrev level : ℕ → ℕ → PriceLevel
level p q = record { price = p; qty = q }

abbrev change : ℕ → ℕ → ℕ → LevelChange
change p o n = record { price = p; old_qty = o; new_qty = n }

abbrev two_bids : List PriceLevel
two_bids = level 10 5 ∷ level 12 7 ∷ []

-- Best first, as venues send it: one new price, one removal, one repeated quantity.
abbrev three_changes : List PriceLevel
three_changes = level 13 1 ∷ level 12 0 ∷ level 10 5 ∷ []

apply_side_run : (apply_side less true two_bids three_changes).side ≡ level 10 5 ∷ level 13 1 ∷ []
unfolding apply_side
apply_side_run = refl

apply_side_changes :
    (apply_side less true two_bids three_changes).changes ≡ change 13 0 1 ∷ change 12 7 0 ∷ []
unfolding apply_side
apply_side_changes = refl

-- An ask side, with a delta in no order.
apply_side_unsorted :
    (apply_side greater true
      (level 22 1 ∷ level 20 2 ∷ [])
      (level 21 3 ∷ level 20 4 ∷ level 23 6 ∷ [])).side
    ≡ level 23 6 ∷ level 22 1 ∷ level 21 3 ∷ level 20 4 ∷ []
unfolding apply_side
apply_side_unsorted = refl

abbrev book : FlatOrderBook
unfolding new_book
book = record (new_book binance (record { packed = 0 })) { bids = two_bids; asks = level 20 2 ∷ [] }

abbrev delta : BookUpdate
delta = record {
  venue = binance;
  instrument = record { packed = 0 };
  seq = 9;
  prev_seq = pos 9;
  recv_ts_ns = pos 0;
  exch_ts_ns = pos 0;
  recv_mono_ns = pos 1;
  is_snapshot = false;
  bids = three_changes;
  asks = [];
}

two_bids_valid : IsValidSide less two_bids
two_bids_valid = record {
  sorted = ((refl, tt), (tt, tt));
  filled = (omega arith, (omega arith, tt));
}

three_changes_distinct : Distinct three_changes
three_changes_distinct = (refl, (refl, (refl, tt)))

book_valid : IsValidBook book
unfolding new_book
book_valid = record {
  bids = two_bids_valid;
  asks = record { sorted = (tt, tt); filled = (omega arith, tt) };
}

delta-IsWellFormed : IsWellFormed delta
delta-IsWellFormed = record { bids = three_changes_distinct; asks = tt }

qty_at-apply_side_run : qty_at (apply_side less true two_bids three_changes).side 12 ≡ 0
qty_at-apply_side_run =
    qty_at-apply_side less true two_bids three_changes 12 two_bids_valid three_changes_distinct

apply_side-IsTransition_run :
    IsTransition less two_bids
      (apply_side less true two_bids three_changes).side
      (apply_side less true two_bids three_changes).changes
apply_side-IsTransition_run =
    apply_side-IsTransition less two_bids three_changes two_bids_valid three_changes_distinct

apply_update-IsValidBook_example : IsValidBook (apply_update book delta)
apply_update-IsValidBook_example = apply_update-IsValidBook book delta book_valid delta-IsWellFormed

qty_at-apply_update_example :
    (qty_at (apply_update book delta).bids 13 ≡ 1) × (qty_at (apply_update book delta).asks 13 ≡ 0)
unfolding new_book
qty_at-apply_update_example = qty_at-apply_update book delta 13 book_valid delta-IsWellFormed

apply_update_delta_example : ReportsTransition book (apply_update book delta)
apply_update_delta_example = apply_update_delta book delta refl book_valid delta-IsWellFormed
