-- ===== src/Book/Update.antt =====
-- `FlatOrderBook::ApplyUpdate`: the two sides of a book across snapshots and deltas.
use aggregated_order_book.Base.{
  ℕ, Bool, true, false, not, List, [], ◌≡◌, refl, arith, if◌then◌else◌,
}
use aggregated_order_book.Types.{VenueId, InstrumentKey, PriceLevel, BookUpdate}
use aggregated_order_book.Book.Prices.{qty_at, has_price, Distinct}
use aggregated_order_book.Book.Order.{StorageLess, less, greater}
use aggregated_order_book.Book.Side.{IsValidSide, IsValidSide-apply_side, qty_at-apply_side}
use aggregated_order_book.Book.Transition.{IsTransition, apply_side-IsTransition}
use aggregated_order_book.Book.{FlatOrderBook, new_book, apply_update}

-- The representation invariant: both sides sorted for their storage order, no empty level.
pub record IsValidBook (b : FlatOrderBook) : Type 0 where
  pub bids : IsValidSide less b.bids
  pub asks : IsValidSide greater b.asks

-- What the theorems ask of a message: no side names a price twice.
pub record IsWellFormed (u : BookUpdate) : Type 0 where
  pub bids : Distinct u.bids
  pub asks : Distinct u.asks

empty-IsValidSide : (s : StorageLess) → IsValidSide s []
empty-IsValidSide s = record { sorted = tt; filled = tt }

pub new_book-IsValidBook : (v : VenueId) (k : InstrumentKey) → IsValidBook (new_book v k)
unfolding new_book
new_book-IsValidBook v k = record {
  bids = empty-IsValidSide less;
  asks = empty-IsValidSide greater;
}

-- The side that a message is applied to: a snapshot clears it first.
abbrev start : Bool → List PriceLevel → List PriceLevel
start snapshot side = if snapshot then [] else side

start-IsValidSide :
    (s : StorageLess) (snapshot : Bool) (side : List PriceLevel)
    → IsValidSide s side
    → IsValidSide s (start snapshot side)
start-IsValidSide s true side v = empty-IsValidSide s
start-IsValidSide s false side v = v

-- `ApplyUpdate` keeps a book's invariant, for a snapshot and for a delta in any order, if no side of
-- the message names a price twice.
pub apply_update-IsValidBook :
    (b : FlatOrderBook) (u : BookUpdate)
    → IsValidBook b
    → IsWellFormed u
    → IsValidBook (apply_update b u)
unfolding apply_update
apply_update-IsValidBook b u v w = record {
  bids =
      IsValidSide-apply_side less _ _ u.bids (start-IsValidSide less u.is_snapshot b.bids v.bids)
        w.bids;
  asks =
      IsValidSide-apply_side greater _ _ u.asks
        (start-IsValidSide greater u.is_snapshot b.asks v.asks) w.asks;
}

-- After `ApplyUpdate` of a message that names no price twice to a valid book, each price holds the
-- message's quantity if its side of the message names it; otherwise a snapshot leaves nothing there
-- and a delta leaves what the book held.
pub qty_at-apply_update :
    (b : FlatOrderBook) (u : BookUpdate) (p : ℕ)
    → IsValidBook b
    → IsWellFormed u
    → (qty_at (apply_update b u).bids p ≡ (
        if has_price u.bids p
        then qty_at u.bids p
        else if u.is_snapshot
        then 0
        else qty_at b.bids p))
      × (qty_at (apply_update b u).asks p ≡ (
          if has_price u.asks p
          then qty_at u.asks p
          else if u.is_snapshot
          then 0
          else qty_at b.asks p))
unfolding apply_update
qty_at-apply_update b u p v w = (
  ground (
    arith,
    qty_at-apply_side less (not u.is_snapshot) (start u.is_snapshot b.bids) u.bids p
        (start-IsValidSide less u.is_snapshot b.bids v.bids) w.bids,
  ),
  ground (
    arith,
    qty_at-apply_side greater (not u.is_snapshot) (start u.is_snapshot b.asks) u.asks p
        (start-IsValidSide greater u.is_snapshot b.asks v.asks) w.asks,
  ),
)

-- What a book reports of its last update.
pub record ReportsTransition (old new : FlatOrderBook) : Type 0 where
  pub complete : new.last_changes_complete ≡ true
  pub bids : IsTransition less old.bids new.bids new.last_bid_changes
  pub asks : IsTransition greater old.asks new.asks new.last_ask_changes

-- After a delta that names no price twice, a valid book's last_changes_complete() is true and its
-- two change spans are exactly the difference to the book before: best first, with the quantities
-- before and after, and every other price unchanged.
pub apply_update_delta :
    (b : FlatOrderBook) (u : BookUpdate)
    → u.is_snapshot ≡ false
    → IsValidBook b
    → IsWellFormed u
    → ReportsTransition b (apply_update b u)
unfolding apply_update
apply_update_delta b u e v w = rw e (record {
  complete = refl;
  bids = apply_side-IsTransition less b.bids u.bids v.bids w.bids;
  asks = apply_side-IsTransition greater b.asks u.asks v.asks w.asks;
})
