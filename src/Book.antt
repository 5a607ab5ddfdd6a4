-- ===== src/Book.antt =====
-- md_core/flat_order_book.h and .cpp: one venue's depth book, two sorted vectors whose best price
-- stands at back(). A vector is the list of its elements in storage order.
--
-- scratch_ and merged_ are staging buffers that every call overwrites before it reads them, so they
-- are no part of the state; neither are the capacities that the constructor reserves.
pub mod Prices
pub mod Order
pub mod Merge
pub mod Turns
pub mod Passed
pub mod Resolve
pub mod Side
pub mod Changes
pub mod Transition
pub mod Update
pub mod Best
mod Tests
use aggregated_order_book.Base.{
  ℕ, suc, ◌+◌, ◌*◌, ◌%◌, ◌^◌, Bool, true, false, not, ◌&&◌, List, [], ◌∷◌, ◌++◌, Option, none, some,
  reverse, ltb, ◌==◌, if◌then◌else◌, length, take, drop,
}
use aggregated_order_book.Base.Int.{ℤ, pos}
use aggregated_order_book.Types.{VenueId, InstrumentKey, PriceLevel, LevelChange, BookUpdate}
use Order.{StorageLess, less, greater, storage_less}

pub record FlatOrderBook : Type 0 where
  pub venue : VenueId
  pub instrument : InstrumentKey
  pub last_seq : ℕ
  pub last_update_mono_ns : ℤ
  pub bids : List PriceLevel
  pub asks : List PriceLevel
  pub last_bid_changes : List LevelChange
  pub last_ask_changes : List LevelChange
  pub last_changes_complete : Bool
  pub last_bytes_moved : ℕ
  pub total_bytes_moved : ℕ
  pub last_fast_path_sides : ℕ
  pub last_applied_sides : ℕ

-- The constructor, with the member initialisers of the header.
unfoldable pub new_book : VenueId → InstrumentKey → FlatOrderBook
new_book v k = record {
  venue = v;
  instrument = k;
  last_seq = 0;
  last_update_mono_ns = pos 0;
  bids = [];
  asks = [];
  last_bid_changes = [];
  last_ask_changes = [];
  last_changes_complete = false;
  last_bytes_moved = 0;
  total_bytes_moved = 0;
  last_fast_path_sides = 0;
  last_applied_sides = 0;
}

-- The level at back().
abbrev pub back : List PriceLevel → Option (ℕ × ℕ)
back [] = none
back (l ∷ []) = some (l.price, l.qty)
back (l ∷ m ∷ ls) = back (m ∷ ls)

unfoldable pub best_bid : FlatOrderBook → Option (ℕ × ℕ)
best_bid b = back b.bids

unfoldable pub best_ask : FlatOrderBook → Option (ℕ × ℕ)
best_ask b = back b.asks

-- `bids()` and `asks()`: the reversed views, best price first.
unfoldable pub bids_view : FlatOrderBook → List PriceLevel
bids_view b = reverse b.bids

unfoldable pub asks_view : FlatOrderBook → List PriceLevel
asks_view b = reverse b.asks

-- `if (level.qty != 0) merged_.push_back(level)`, ahead of what the loop pushes later.
abbrev pub push_nonzero : PriceLevel → List PriceLevel → List PriceLevel
push_nonzero l ls = if l.qty == 0 then ls else l ∷ ls

-- The last loop of `Relocate`: the delta's levels beyond the region.
pub push_rest : List PriceLevel → List PriceLevel
push_rest [] = []
push_rest (d ∷ ds) = push_nonzero d (push_rest ds)

-- The three loops of `Relocate`, over the region and the delta from their current positions.
pub merge_region : StorageLess → List PriceLevel → List PriceLevel → List PriceLevel
unfolding push_rest
merge_region s [] ds = push_rest ds
merge_region s (b ∷ bs) [] = b ∷ bs
merge_region s (b ∷ bs) (d ∷ ds) =
    let keep_book = b ∷ merge_region s bs (d ∷ ds) in
    let take_new = push_nonzero d (merge_region s (b ∷ bs) ds) in
    let replace = push_nonzero d (merge_region s bs ds) in
    if storage_less s b.price d.price
    then keep_book
    else if storage_less s d.price b.price
    then take_new
    else replace

-- sizeof(PriceLevel)
abbrev pub level_size : ℕ
level_size = 16

-- `Relocate`: the side with the merged region written back, and the bytes moved.
pub relocate : StorageLess → List PriceLevel → ℕ → List PriceLevel → List PriceLevel × ℕ
unfolding merge_region
relocate s side deepest delta =
    let merged = merge_region s (drop deepest side) delta in
    (take deepest side ++ merged, (level_size * length merged) % 2 ^ 64)

-- `ordered_from`: no element ranks before the one ahead of it.
pub ordered_from : StorageLess → List PriceLevel → Bool
ordered_from s [] = true
ordered_from s (x ∷ []) = true
ordered_from s (x ∷ y ∷ ys) = not (storage_less s y.price x.price) && ordered_from s (y ∷ ys)

pub insert_sorted : StorageLess → PriceLevel → List PriceLevel → List PriceLevel
insert_sorted s x [] = x ∷ []
insert_sorted s x (y ∷ ys) =
    if storage_less s y.price x.price then y ∷ insert_sorted s x ys else x ∷ y ∷ ys

-- `std::sort` of the copy in scratch_.
pub sort_levels : StorageLess → List PriceLevel → List PriceLevel
unfolding insert_sorted
sort_levels s [] = []
sort_levels s (x ∷ xs) = insert_sorted s x (sort_levels s xs)

-- The delta in storage order: as it came, read backwards, or sorted.
pub resolve_order : StorageLess → List PriceLevel → List PriceLevel
unfolding ordered_from sort_levels
resolve_order s levels =
    if ordered_from s levels
    then levels
    else if ordered_from s (reverse levels)
    then reverse levels
    else sort_levels s levels

-- What the walk of `ApplySide` leaves: its counts, the changes pushed, the levels it has passed with
-- their quantities rewritten (best first), and those below, which it never reads (`deepest` is
-- their number).
pub record Walk : Type 0 where
  pub inserts : ℕ
  pub erases : ℕ
  pub changes : List LevelChange
  pub seen : List PriceLevel
  pub rest : List PriceLevel

-- `if (changes) changes->push_back(c)`
abbrev pub note_change : Bool → LevelChange → List LevelChange → List LevelChange
note_change collect c cs = if collect then c ∷ cs else cs

-- `++inserts` and its change; later steps push behind this one.
abbrev pub count_insert : Bool → PriceLevel → Walk → Walk
count_insert collect d w = record w {
  inserts = suc w.inserts;
  changes =
      note_change collect (record { price = d.price; old_qty = 0; new_qty = d.qty }) w.changes;
}

abbrev pub count_erase : Bool → PriceLevel → Walk → Walk
count_erase collect b w = record w {
  erases = suc w.erases;
  changes =
      note_change collect (record { price = b.price; old_qty = b.qty; new_qty = 0 }) w.changes;
  seen = b ∷ w.seen;
}

-- The equal-price branch with a quantity: a repeated quantity is no change.
abbrev pub count_update : Bool → PriceLevel → ℕ → Walk → Walk
count_update collect b q w = if b.qty == q then record w { seen = b ∷ w.seen } else record w {
  changes =
      note_change collect (record { price = b.price; old_qty = b.qty; new_qty = q }) w.changes;
  seen = record b { qty = q } ∷ w.seen;
}

-- The loop over what is left of the delta once the book is exhausted.
pub walk_rest : Bool → List PriceLevel → Walk
walk_rest collect [] = record { inserts = 0; erases = 0; changes = []; seen = []; rest = [] }
walk_rest collect (d ∷ ds) =
    let w = walk_rest collect ds in if d.qty == 0 then w else count_insert collect d w

-- The walk of `ApplySide` over the book and the delta, both best first.
pub walk : StorageLess → Bool → List PriceLevel → List PriceLevel → Walk
unfolding walk_rest
walk s collect [] ds = walk_rest collect ds
walk s collect (b ∷ bs) [] = record {
  inserts = 0;
  erases = 0;
  changes = [];
  seen = [];
  rest = b ∷ bs;
}
walk s collect (b ∷ bs) (d ∷ ds) =
    let new_price = walk s collect (b ∷ bs) ds in
    let not_named = walk s collect bs (d ∷ ds) in
    let matched = walk s collect bs ds in
    if storage_less s b.price d.price
    then (if d.qty == 0 then new_price else count_insert collect d new_price)
    else if storage_less s d.price b.price
    then record not_named { seen = b ∷ not_named.seen }
    else if d.qty == 0
    then count_erase collect b matched
    else count_update collect b d.qty matched

-- What one `ApplySide` leaves: the side, its changes, the bytes moved, and by how much it advanced
-- last_fast_path_sides_ and last_applied_sides_.
pub record SideResult : Type 0 where
  pub side : List PriceLevel
  pub changes : List LevelChange
  pub bytes : ℕ
  pub fast : ℕ
  pub applied : ℕ

-- The end of `ApplySide`: quantities alone were written in place, anything else is relocated.
pub finish_side : StorageLess → List PriceLevel → Walk → SideResult
unfolding relocate
finish_side s delta w =
    let written = reverse (w.seen ++ w.rest) in
    let moved = relocate s written (length w.rest) delta in
    if w.inserts == 0 && w.erases == 0
    then record { side = written; changes = w.changes; bytes = 0; fast = 1; applied = 1 }
    else record { side = moved.0; changes = w.changes; bytes = moved.1; fast = 0; applied = 1 }

-- `ApplySide`. `collect` says whether `changes` is a vector or nullptr.
pub apply_side : StorageLess → Bool → List PriceLevel → List PriceLevel → SideResult
unfolding finish_side resolve_order walk
apply_side s collect side [] = record {
  side = side;
  changes = [];
  bytes = 0;
  fast = 0;
  applied = 0;
}
apply_side s collect side (l ∷ ls) =
    let delta = resolve_order s (l ∷ ls) in
    finish_side s delta (walk s collect (reverse side) (reverse delta))

-- `FlatOrderBook::ApplyUpdate`.
unfoldable pub apply_update : FlatOrderBook → BookUpdate → FlatOrderBook
unfolding apply_side
apply_update book u =
    let collect = not u.is_snapshot in
    let old_bids = if u.is_snapshot then [] else book.bids in
    let old_asks = if u.is_snapshot then [] else book.asks in
    let b = apply_side less collect old_bids u.bids in
    let a = apply_side greater collect old_asks u.asks in
    let bytes = (b.bytes + a.bytes) % 2 ^ 64 in
    record book {
      last_seq = u.seq;
      last_update_mono_ns = u.recv_mono_ns;
      bids = b.side;
      asks = a.side;
      last_bid_changes = b.changes;
      last_ask_changes = a.changes;
      last_changes_complete = not u.is_snapshot;
      last_bytes_moved = bytes;
      total_bytes_moved = (book.total_bytes_moved + bytes) % 2 ^ 64;
      last_fast_path_sides = b.fast + a.fast;
      last_applied_sides = b.applied + a.applied;
    }
