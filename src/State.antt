-- ===== src/State.antt =====
-- md_core/consolidated_state.h and .cpp: the standing consolidated book, repaired by the level
-- changes of one venue at a time, or rebuilt by the full merge. Order `greater` ranks bids, `less`
-- ranks asks, as in the merge.
pub mod Slots
pub mod Level
pub mod Change
pub mod Repair
pub mod Delta
pub mod Side
pub mod Refine
mod Tests
use aggregated_order_book.Base.{
  ℕ, ◌-◌, ◌*◌, ◌%◌, ◌^◌, Bool, true, false, not, Option, none, some, List, [], ◌∷◌, ◌++◌, ltb, ◌==◌,
  if◌then◌else◌, length, replicate,
}
use aggregated_order_book.Base.Int.{ℤ, pos}
use aggregated_order_book.Types.{LevelChange, VenueHealthArray, max_venues}
use aggregated_order_book.Book.Order.{StorageLess, less, greater, storage_less}
use aggregated_order_book.Bbo.Venues.{VenueQuote, find_slot, set_slot, erase_slot}
use aggregated_order_book.Bbo.{add64, sub64}
use aggregated_order_book.Merged.{MergedLevel, MergedBook}
use aggregated_order_book.Merge.{FlatBookArray, merge_books}

-- `State`; the reserved capacity is no part of it.
pub record State : Type 0 where
  pub book : MergedBook
  pub needs_rebuild : Bool
  pub last_bytes_moved : ℕ
  pub total_bytes_moved : ℕ

abbrev pub new_state : State
new_state = record {
  book = record {
    bids = [];
    asks = [];
    source_mono_ns = pos 0;
    venue_levels = replicate max_venues 0;
  };
  needs_rebuild = true;
  last_bytes_moved = 0;
  total_bytes_moved = 0;
}

-- `LowerBoundByRank`: what ranks ahead of `price`, and the rest.
pub lower_bound : StorageLess → ℕ → List MergedLevel → List MergedLevel × List MergedLevel
lower_bound t price [] = ([], [])
lower_bound t price (l ∷ ls) =
    let (ahead, from) = lower_bound t price ls in
    if storage_less t l.price price then (l ∷ ahead, from) else ([], l ∷ ls)

-- The shift that puts a venue into the attribution, sorted by slot.
pub insert_slot : List VenueQuote → ℕ → ℕ → List VenueQuote
insert_slot [] slot qty = record { slot = slot; qty = qty } ∷ []
insert_slot (v ∷ vs) slot qty =
    let rest = insert_slot vs slot qty in
    if ltb v.slot slot then v ∷ rest else record { slot = slot; qty = qty } ∷ v ∷ vs

-- A removal at a level that is there: `level.qty` by the recorded quantity, and the gap closed.
pub remove_venue : MergedLevel → ℕ → MergedLevel
remove_venue l slot = elim (find_slot l.venues slot) [
  | none ↦ l
  | some old ↦ record l { venues = erase_slot l.venues slot; qty = sub64 l.qty old }
]

-- A quantity at a level that is there: rewritten, or a venue that joins while there is room.
pub put_venue : MergedLevel → ℕ → ℕ → MergedLevel
unfolding insert_slot
put_venue l slot qty = elim (find_slot l.venues slot) [
  | none ↦
      if ltb (length l.venues) max_venues
      then record l { venues = insert_slot l.venues slot qty; qty = add64 l.qty qty }
      else l
  | some old ↦ record l { venues = set_slot l.venues slot qty; qty = add64 (sub64 l.qty old) qty }
]

-- sizeof(MergedLevel): a price, eight entries of slot and quantity, their count and the total.
abbrev pub merged_level_size : ℕ
merged_level_size = 152

-- The level that a price without one gets, and the levels behind it shifted.
pub insert_change : List MergedLevel → ℕ → LevelChange → List MergedLevel × ℕ
insert_change from slot c = if c.new_qty == 0 then (from, 0) else (
  record { price = c.price; venues = record { slot = slot; qty = c.new_qty } ∷ []; qty = c.new_qty }
      ∷ from,
  (merged_level_size * length from) % 2 ^ 64,
)

-- A level that its last venue has left goes.
pub keep_level : MergedLevel → List MergedLevel → List MergedLevel × ℕ
keep_level l from = elim l.venues [
  | [] ↦ (from, (merged_level_size * length from) % 2 ^ 64)
  | v ∷ vs ↦ (l ∷ from, 0)
]

-- From index on.
pub change_from : List MergedLevel → ℕ → LevelChange → List MergedLevel × ℕ
unfolding insert_change keep_level remove_venue put_venue
change_from [] slot c = insert_change [] slot c
change_from (l ∷ ls) slot c =
    if not (l.price == c.price)
    then insert_change (l ∷ ls) slot c
    else if c.new_qty == 0
    then elim (find_slot l.venues slot) [
      | none ↦ (l ∷ ls, 0)
      | some old ↦ keep_level (remove_venue l slot) ls
    ]
    else (put_venue l slot c.new_qty ∷ ls, 0)

-- `ApplyOneChange`
pub apply_one_change : StorageLess → List MergedLevel → ℕ → LevelChange → List MergedLevel × ℕ
unfolding lower_bound change_from
apply_one_change t side slot c =
    let (ahead, from) = lower_bound t c.price side in
    let (changed, moved) = change_from from slot c in (ahead ++ changed, moved)

-- The loop over one side's changes.
pub apply_changes : StorageLess → ℕ → List MergedLevel → List LevelChange → List MergedLevel × ℕ
unfolding apply_one_change
apply_changes t slot side [] = (side, 0)
apply_changes t slot side (c ∷ cs) =
    let (side', moved) = apply_one_change t side slot c in
    let (side'', rest) = apply_changes t slot side' cs in (side'', add64 moved rest)

-- `State::ApplyDepthDelta`
unfoldable pub apply_depth_delta : State → ℕ → List LevelChange → List LevelChange → State
unfolding apply_changes
apply_depth_delta s slot bid_changes ask_changes =
    let (bids, bid_bytes) = apply_changes greater slot s.book.bids bid_changes in
    let (asks, ask_bytes) = apply_changes less slot s.book.asks ask_changes in
    let moved = add64 bid_bytes ask_bytes in
    record s {
      book = record s.book { bids = bids; asks = asks };
      last_bytes_moved = moved;
      total_bytes_moved = add64 s.total_bytes_moved moved;
    }

-- kUnboundedDepth
abbrev pub unbounded_depth : ℕ
unbounded_depth = 2 ^ 64 - 1

-- `State::FullRebuild`
unfoldable pub full_rebuild : State → FlatBookArray → ℕ → Option VenueHealthArray → State
full_rebuild s books venue_count health = record s {
  book = merge_books s.book books venue_count unbounded_depth health;
  last_bytes_moved = 0;
  needs_rebuild = false;
}

-- `State::MarkForRebuild`
unfoldable pub mark_for_rebuild : State → State
mark_for_rebuild s = record s { needs_rebuild = true }

-- `State::StampForPublish`
unfoldable pub stamp_for_publish : State → ℤ → List ℕ → State
stamp_for_publish s source_mono_ns venue_levels = record s {
  book = record s.book { source_mono_ns = source_mono_ns; venue_levels = venue_levels };
}
