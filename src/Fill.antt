-- ===== src/Fill.antt =====
-- The band walks of md_core/consolidated_book.h and .cpp: how much of one side of the consolidated
-- book a target notional, or a band in basis points, takes.
--
-- PriceTicks, QtyUnits and the quoted notional are uint64_t, Notional is an unsigned 128-bit number
-- and the counts are uint32_t: every sum, difference and narrowing has its wrap written out.
pub mod Notional
pub mod Bounds
pub mod Bps
mod Tests
use aggregated_order_book.Base.{
  ℕ, suc, ◌+◌, ◌-◌, ◌*◌, ◌/◌, ◌%◌, ◌^◌, Bool, true, false, ◌&&◌, List, [], ◌∷◌, Option, none, some,
  ltb, leb, ◌==◌, if◌then◌else◌, length, replicate,
}
use aggregated_order_book.Merged.{MergedLevel}

-- `kScaleFactor`
abbrev pub scale_factor : ℕ
scale_factor = 100_000_000

abbrev pub u32 : ℕ → ℕ
u32 n = n % 2 ^ 32

abbrev pub u64 : ℕ → ℕ
u64 n = n % 2 ^ 64

abbrev pub u128 : ℕ → ℕ
u128 n = n % 2 ^ 128

pub record NotionalFill : Type 0 where
  pub vwap : ℕ
  pub worst_price : ℕ
  pub filled_qty : ℕ
  pub filled_notional : ℕ
  pub level_count : ℕ
  pub insufficient_depth : Bool

abbrev pub no_fill : NotionalFill
no_fill = record {
  vwap = 0;
  worst_price = 0;
  filled_qty = 0;
  filled_notional = 0;
  level_count = 0;
  insufficient_depth = false;
}

-- `level.price * level.qty` in 128 bits.
abbrev pub level_notional : MergedLevel → ℕ
level_notional l = u128 (l.price * l.qty)

-- The quantity of `FillAtCrossing`: as much as the rest of the target pays for, at most the level.
abbrev pub partial_qty : MergedLevel → ℕ → ℕ → ℕ
partial_qty l filled_before target_raw =
    let needed = u64 (u128 (target_raw + 2 ^ 128 - filled_before) / l.price) in
    if ltb l.qty needed then l.qty else needed

-- `FillAtCrossing`, at the level with index `crossing`.
pub fill_at_crossing : MergedLevel → ℕ → ℕ → ℕ → ℕ → NotionalFill
fill_at_crossing l crossing qty_before filled_before target_raw =
    let partial = partial_qty l filled_before target_raw in
    let filled_raw = u128 (filled_before + u128 (l.price * partial)) in
    let filled_qty = u64 (qty_before + partial) in
    record {
      vwap = if filled_qty == 0 then 0 else u64 (filled_raw / filled_qty);
      worst_price = l.price;
      filled_qty = filled_qty;
      filled_notional = u64 (filled_raw / scale_factor);
      level_count = u32 (crossing + 1);
      insufficient_depth = false;
    }

abbrev pub back_price : List MergedLevel → ℕ
back_price [] = 0
back_price (l ∷ []) = l.price
back_price (l ∷ m ∷ ls) = back_price (m ∷ ls)

-- `FillExhausted`
pub fill_exhausted : List MergedLevel → ℕ → ℕ → NotionalFill
fill_exhausted side cum_qty cum_notional = record {
  vwap = if cum_qty == 0 then 0 else u64 (cum_notional / cum_qty);
  worst_price = back_price side;
  filled_qty = cum_qty;
  filled_notional = u64 (cum_notional / scale_factor);
  level_count = u32 (length side);
  insufficient_depth = true;
}

-- The loop of `FillToNotional`, at index `i` with the totals of the levels before it.
pub fill_loop : List MergedLevel → ℕ → ℕ → ℕ → ℕ → List MergedLevel → NotionalFill
unfolding fill_at_crossing fill_exhausted
fill_loop side target i cum_qty cum_notional [] = fill_exhausted side cum_qty cum_notional
fill_loop side target i cum_qty cum_notional (l ∷ ls) =
    let next = u128 (cum_notional + level_notional l) in
    let rest = fill_loop side target (i + 1) (u64 (cum_qty + l.qty)) next ls in
    if leb target next then fill_at_crossing l i cum_qty cum_notional target else rest

abbrev pub raw_target : ℕ → ℕ
raw_target target = u128 (target * scale_factor)

-- An empty side reaches no target but 0.
abbrev pub fill_empty : ℕ → NotionalFill
fill_empty target_raw = record no_fill { insufficient_depth = ltb 0 target_raw }

-- `FillToNotional`
pub fill_to_notional : List MergedLevel → ℕ → NotionalFill
fill_to_notional [] target = fill_empty (raw_target target)
fill_to_notional (l ∷ ls) target =
    if raw_target target == 0
    then no_fill
    else fill_loop (l ∷ ls) (raw_target target) 0 0 0 (l ∷ ls)

-- The running position of `FillToNotionalBands`: the index, the totals before it, the levels left.
pub record Cursor : Type 0 where
  pub index : ℕ
  pub cum_qty : ℕ
  pub cum_notional : ℕ
  pub left : List MergedLevel

-- The inner while loop: where it stops, and whether the target has been crossed there.
pub advance : ℕ → ℕ → ℕ → ℕ → List MergedLevel → Cursor × Bool
advance target i cum_qty cum_notional [] =
    (record { index = i; cum_qty = cum_qty; cum_notional = cum_notional; left = [] }, false)
advance target i cum_qty cum_notional (l ∷ ls) =
    let next = u128 (cum_notional + level_notional l) in
    let rest = advance target (i + 1) (u64 (cum_qty + l.qty)) next ls in
    if leb target next
    then (record { index = i; cum_qty = cum_qty; cum_notional = cum_notional; left = l ∷ ls }, true)
    else rest

abbrev pub is_empty : List MergedLevel → Bool
is_empty [] = true
is_empty (l ∷ ls) = false

-- What is pushed for one target.
pub fill_at : List MergedLevel → ℕ → Cursor × Bool → NotionalFill
unfolding fill_at_crossing fill_exhausted
fill_at side target (c, crossed) = elim c.left [
  | [] ↦ fill_exhausted side c.cum_qty c.cum_notional
  | l ∷ ls ↦
      if crossed
      then fill_at_crossing l c.index c.cum_qty c.cum_notional target
      else fill_exhausted side c.cum_qty c.cum_notional
]

-- The outer loop, over the targets that are left.
pub bands_loop : List MergedLevel → Cursor → List ℕ → List NotionalFill
unfolding advance fill_at
bands_loop side c [] = []
bands_loop side c (target ∷ targets) =
    let t = raw_target target in
    let stop = advance t c.index c.cum_qty c.cum_notional c.left in
    let skip = bands_loop side c targets in
    let go = bands_loop side stop.0 targets in
    if is_empty side
    then fill_empty t ∷ skip
    else if t == 0
    then no_fill ∷ skip
    else fill_at side t stop ∷ go

-- `FillToNotionalBands`
pub fill_to_notional_bands : List MergedLevel → List ℕ → List NotionalFill
unfolding bands_loop
fill_to_notional_bands side targets =
    bands_loop side (record { index = 0; cum_qty = 0; cum_notional = 0; left = side }) targets

pub record BpsFill : Type 0 where
  pub vwap : ℕ
  pub limit_price : ℕ
  pub cum_qty : ℕ
  pub cum_notional : ℕ
  pub level_count : ℕ
  pub insufficient_depth : Bool

abbrev pub no_bps_fill : BpsFill
no_bps_fill = record {
  vwap = 0;
  limit_price = 0;
  cum_qty = 0;
  cum_notional = 0;
  level_count = 0;
  insufficient_depth = false;
}

-- The boundary of a band around the top price. A bid band wider than 100% is clamped.
pub bps_limit : Bool → ℕ → ℕ → ℕ
bps_limit is_bid top bps =
    let clamped = if is_bid && ltb 10000 bps then 10000 else bps in
    let factor = if is_bid then 10000 - clamped else u32 (10000 + clamped) in
    u64 (u128 (top * factor) / 10000)

abbrev pub inside : Bool → ℕ → MergedLevel → Bool
inside is_bid limit l = if is_bid then leb limit l.price else leb l.price limit

-- The while loop: it stops at the first level outside the boundary.
pub bps_advance : Bool → ℕ → ℕ → ℕ → ℕ → List MergedLevel → Cursor
bps_advance is_bid limit i cum_qty cum_notional [] = record {
  index = i;
  cum_qty = cum_qty;
  cum_notional = cum_notional;
  left = [];
}
bps_advance is_bid limit i cum_qty cum_notional (l ∷ ls) =
    let rest =
      bps_advance is_bid limit (i + 1) (u64 (cum_qty + l.qty))
        (u128 (cum_notional + level_notional l)) ls in
    if inside is_bid limit l
    then rest
    else record { index = i; cum_qty = cum_qty; cum_notional = cum_notional; left = l ∷ ls }

-- The result at the position where the loop stopped; with no level inside, only the boundary.
pub bps_fill_at : List MergedLevel → ℕ → Cursor → BpsFill
bps_fill_at side limit c =
    let insufficient = c.index == length side in
    if c.index == 0
    then record no_bps_fill { limit_price = limit; insufficient_depth = insufficient }
    else record {
      vwap = if c.cum_qty == 0 then 0 else u64 (c.cum_notional / c.cum_qty);
      limit_price = limit;
      cum_qty = c.cum_qty;
      cum_notional = u64 (c.cum_notional / scale_factor);
      level_count = u32 c.index;
      insufficient_depth = insufficient;
    }

-- `FillToBps`
pub fill_to_bps : List MergedLevel → ℕ → Bool → BpsFill
unfolding bps_limit bps_advance bps_fill_at
fill_to_bps [] bps is_bid = no_bps_fill
fill_to_bps (l ∷ ls) bps is_bid =
    let limit = bps_limit is_bid l.price bps in
    bps_fill_at (l ∷ ls) limit (bps_advance is_bid limit 0 0 0 (l ∷ ls))

-- The outer loop of `FillToBpsBands`.
pub bps_bands_loop : List MergedLevel → Bool → ℕ → Cursor → List ℕ → List BpsFill
unfolding bps_limit bps_advance bps_fill_at
bps_bands_loop side is_bid top c [] = []
bps_bands_loop side is_bid top c (bps ∷ bands) =
    let limit = bps_limit is_bid top bps in
    let stop = bps_advance is_bid limit c.index c.cum_qty c.cum_notional c.left in
    bps_fill_at side limit stop ∷ bps_bands_loop side is_bid top stop bands

-- `FillToBpsBands`
pub fill_to_bps_bands : List MergedLevel → List ℕ → Bool → List BpsFill
unfolding bps_bands_loop
fill_to_bps_bands [] bands is_bid = replicate (length bands) no_bps_fill
fill_to_bps_bands (l ∷ ls) bands is_bid =
    bps_bands_loop (l ∷ ls) is_bid l.price
      (record { index = 0; cum_qty = 0; cum_notional = 0; left = l ∷ ls }) bands
