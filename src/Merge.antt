-- ===== src/Merge.antt =====
-- `MergeBooks` of md_core/consolidated_book.cpp: the k-way merge of the venues' books into one side,
-- best first. The two blocks of the source are copies of each other; here each is the one definition
-- at its order, in which `greater` ranks bids and `less` ranks asks. A venue's iterator is the list
-- of the levels it has still to visit; a venue that is missing, excluded or exhausted has none.
pub mod Iters
pub mod Level
pub mod Loop
pub mod Whole
pub mod Books
pub mod Result
use aggregated_order_book.Base.{
  ℕ, zero, suc, ◌+◌, Option, none, some, List, [], ◌∷◌, ◌++◌, ltb, ◌==◌, if◌then◌else◌, length,
  take,
}
use aggregated_order_book.Types.{PriceLevel, VenueHealthArray, max_venues}
use aggregated_order_book.Book.{FlatOrderBook, bids_view, asks_view}
use aggregated_order_book.Book.Order.{StorageLess, less, greater, storage_less}
use aggregated_order_book.Bbo.{add64, admits}
use aggregated_order_book.Merged.{MergedLevel, MergedBook}

-- The choice of `best` over the active iterators: none is `!found`.
pub pick_best : StorageLess → Option ℕ → List (List PriceLevel) → Option ℕ
pick_best t best [] = best
pick_best t best ([] ∷ its) = pick_best t best its
pick_best t none ((l ∷ ls) ∷ its) = pick_best t (some l.price) its
pick_best t (some b) ((l ∷ ls) ∷ its) =
    pick_best t (some (if storage_less t l.price b then l.price else b)) its

-- One venue at `best`: its quantity joins the level, its name the attribution while there is room.
pub join_level : ℕ → ℕ → MergedLevel → MergedLevel
join_level i qty level = record level {
  venues =
      if ltb (length level.venues) max_venues
      then level.venues ++ record { slot = i; qty = qty } ∷ []
      else level.venues;
  qty = add64 level.qty qty;
}

-- The loop that fills one level from slot `i` on, and the iterators it leaves.
pub fill_level : ℕ → MergedLevel → List (List PriceLevel) → MergedLevel × List (List PriceLevel)
unfolding join_level
fill_level i level [] = (level, [])
fill_level i level ([] ∷ its) = let rest = fill_level (i + 1) level its in (rest.0, [] ∷ rest.1)
fill_level i level ((l ∷ ls) ∷ its) =
    let taken = fill_level (i + 1) (join_level i l.qty level) its in
    let passed_over = fill_level (i + 1) level its in
    if l.price == level.price
    then (taken.0, ls ∷ taken.1)
    else (passed_over.0, (l ∷ ls) ∷ passed_over.1)

abbrev pub new_level : ℕ → MergedLevel
new_level price = record { price = price; venues = []; qty = 0 }

-- The while loop of one side, which adds at most `room` levels.
pub merge_loop : StorageLess → ℕ → List (List PriceLevel) → List MergedLevel
unfolding pick_best fill_level
merge_loop t zero its = []
merge_loop t (suc room) its = elim (pick_best t none its) [
  | none ↦ []
  | some price ↦
      (fill_level 0 (new_level price) its).0
      ∷ merge_loop t room (fill_level 0 (new_level price) its).1
]

-- The iterators at the start: those of the books that are there and admitted.
abbrev pub begin : Option VenueHealthArray → ℕ → Option (List PriceLevel) → List PriceLevel
begin health i none = []
begin health i (some levels) = if admits health i then levels else []

unfoldable pub begin_all :
    Option VenueHealthArray → ℕ → List (Option (List PriceLevel)) → List (List PriceLevel)
begin_all health i [] = []
begin_all health i (b ∷ bs) = begin health i b ∷ begin_all health (i + 1) bs

pub merge_side :
    StorageLess → Option VenueHealthArray → ℕ → List (Option (List PriceLevel)) → List MergedLevel
unfolding merge_loop begin_all
merge_side t health max_depth books = merge_loop t max_depth (begin_all health 0 books)

-- `FlatBookArray`: a book for each slot that has one.
abbrev pub FlatBookArray : Type 0
FlatBookArray = List (Option FlatOrderBook)

unfoldable pub views :
    (FlatOrderBook → List PriceLevel) → FlatBookArray → List (Option (List PriceLevel))
views view [] = []
views view (none ∷ books) = none ∷ views view books
views view (some b ∷ books) = some (view b) ∷ views view books

-- `MergeBooks` into `out`, whose two sides it replaces. The loops run to the smaller of venue_count
-- and the array's size.
unfoldable pub merge_books :
    MergedBook → FlatBookArray → ℕ → ℕ → Option VenueHealthArray → MergedBook
unfolding merge_side views
merge_books out books venue_count max_depth health =
    let active = take venue_count books in
    record out {
      bids = merge_side greater health max_depth (views bids_view active);
      asks = merge_side less health max_depth (views asks_view active);
    }
