-- ===== src/Fill/Bps.antt =====
-- One walk for all basis-point bands gives what a walk for each would.
use aggregated_order_book.Base.{
  ℕ, ◌+◌, ◌-◌, ◌*◌, ◌/◌, ◌^◌, ◌≤◌, ◌<◌, ◌≡◌, refl, ◌∙◌, ap, ap₂, Bool, true, false, List, [], ◌∷◌,
  map, arith, ltb, if◌then◌else◌, Bool-cases, inl, inr, replicate, length,
}
use aggregated_order_book.Merged.{MergedLevel}
use aggregated_order_book.Fill.{
  Cursor, u32, u64, u128, inside, bps_limit, bps_advance, bps_fill_at, fill_to_bps, bps_bands_loop,
  fill_to_bps_bands, no_bps_fill,
}

-- The second boundary lies no closer to the top than the first.
abbrev Wider : Bool → ℕ → ℕ → Type 0
Wider true l m = m ≤ l
Wider false l m = l ≤ m

abbrev resume : Bool → ℕ → Cursor → Cursor
resume is_bid m c = bps_advance is_bid m c.index c.cum_qty c.cum_notional c.left

resume-bps_advance :
    (is_bid : Bool) (m l i q n : ℕ) (left : List MergedLevel)
    → Wider is_bid l m
    → resume is_bid m (bps_advance is_bid l i q n left) ≡ bps_advance is_bid m i q n left
unfolding bps_advance
resume-bps_advance is_bid m l i q n [] h = refl
resume-bps_advance is_bid m l i q n (x ∷ xs) h = elim (Bool-cases (inside is_bid l x)) [
  | inl e ↦ rw (e, inside_wider is_bid m l x h e) (resume-bps_advance is_bid m l (i + 1) _ _ xs h)
  | inr e ↦ rw e
]
  where
    inside_wider :
        (b : Bool) (m l : ℕ) (x : MergedLevel)
        → Wider b l m
        → inside b l x ≡ true
        → inside b m x ≡ true
    inside_wider true m l x h e = ground arith
    inside_wider false m l x h e = ground arith

-- Ascending bands that fit: an ask boundary stays a uint64_t and its factor a uint32_t.
abbrev pub BandsFit : Bool → ℕ → ℕ → List ℕ → Type 0
BandsFit is_bid top low [] = Unit {0}
BandsFit true top low (b ∷ bs) = (low ≤ b) × BandsFit true top b bs
BandsFit false top low (b ∷ bs) =
    (low ≤ b)
    × (10000 + b < 2 ^ 32)
    × (top * (10000 + b) < 2 ^ 64 * 10000)
    × BandsFit false top b bs

mul_mono : (t x y : ℕ) → x ≤ y → t * x ≤ t * y
mul_mono t x y h = grind arith

factor_mono :
    (top x y : ℕ)
    → x ≤ y
    → top * y < 2 ^ 64 * 10000
    → u64 (u128 (top * x) / 10000) ≤ u64 (u128 (top * y) / 10000)
factor_mono top x y h k = omega (arith, mul_mono top x y h)

bid_fits : (top y : ℕ) → top < 2 ^ 64 → y ≤ 10000 → top * y < 2 ^ 64 * 10000
bid_fits top y h k = omega (arith, mul_mono top y 10000 k)

abbrev bid_factor : ℕ → ℕ
bid_factor b = 10000 - (if ltb 10000 b then 10000 else b)

bid_factor_mono : (low b : ℕ) → low ≤ b → bid_factor b ≤ bid_factor low
bid_factor_mono low b h = ground arith

bid_factor-le : (b : ℕ) → bid_factor b ≤ 10000
bid_factor-le b = ground arith

bid_wider : (top low b : ℕ) → top < 2 ^ 64 → low ≤ b → bps_limit true top b ≤ bps_limit true top low
unfolding bps_limit
bid_wider top low b h k =
    factor_mono top (bid_factor b) (bid_factor low) (bid_factor_mono low b k)
      (bid_fits top (bid_factor low) h (bid_factor-le low))

ask_wider :
    (top low b : ℕ)
    → low ≤ b
    → 10000 + b < 2 ^ 32
    → top * (10000 + b) < 2 ^ 64 * 10000
    → bps_limit false top low ≤ bps_limit false top b
unfolding bps_limit
ask_wider top low b h k m =
    let x : u32 (10000 + low) ≡ 10000 + low = omega arith in
    let y : u32 (10000 + b) ≡ 10000 + b = omega arith in
    rw (x, y) (factor_mono top (10000 + low) (10000 + b) (omega arith) m)

-- The next band's boundary lies no closer to the top.
Wider-next :
    (is_bid : Bool) (top low b : ℕ) (bs : List ℕ)
    → top < 2 ^ 64
    → BandsFit is_bid top low (b ∷ bs)
    → Wider is_bid (bps_limit is_bid top low) (bps_limit is_bid top b)
Wider-next true top low b bs h f = bid_wider top low b h f.0
Wider-next false top low b bs h f = ask_wider top low b f.0 f.1 f.2

later :
    (is_bid : Bool) (top low b : ℕ) (bs : List ℕ)
    → BandsFit is_bid top low (b ∷ bs)
    → BandsFit is_bid top b bs
later true top low b bs f = f.1
later false top low b bs f = f.3

Wider-trans : (is_bid : Bool) (l m n : ℕ) → Wider is_bid l m → Wider is_bid m n → Wider is_bid l n
Wider-trans true l m n h k = omega arith
Wider-trans false l m n h k = omega arith

abbrev start : List MergedLevel → Cursor
start side = record { index = 0; cum_qty = 0; cum_notional = 0; left = side }

bps_bands_loop-map :
    (l : MergedLevel) (ls : List MergedLevel) (is_bid : Bool) (low : ℕ) (c : Cursor) (bs : List ℕ)
    → l.price < 2 ^ 64
    → BandsFit is_bid l.price low bs
    → ((m : ℕ)
        → Wider is_bid (bps_limit is_bid l.price low) m
        → resume is_bid m c ≡ resume is_bid m (start (l ∷ ls)))
    → bps_bands_loop (l ∷ ls) is_bid l.price c bs ≡ map (λ b. fill_to_bps (l ∷ ls) b is_bid) bs
unfolding bps_bands_loop fill_to_bps
bps_bands_loop-map l ls is_bid low c [] h f r = refl
bps_bands_loop-map l ls is_bid low c (b ∷ bs) h f r =
    let out = Wider-next is_bid l.price low b bs h f in
    ap₂ ◌∷◌
      (ap (bps_fill_at (l ∷ ls) (bps_limit is_bid l.price b)) (r (bps_limit is_bid l.price b) out))
      (bps_bands_loop-map l ls is_bid b (resume is_bid (bps_limit is_bid l.price b) c) bs h
        (later is_bid l.price low b bs f)
        (λ m w.
          resume-bps_advance is_bid m (bps_limit is_bid l.price b) c.index c.cum_qty c.cum_notional
            c.left w
          ∙ r m (Wider-trans is_bid _ _ m out w)))

replicate-map :
    (is_bid : Bool) (bs : List ℕ)
    → replicate (length bs) no_bps_fill ≡ map (λ b. fill_to_bps [] b is_bid) bs
unfolding fill_to_bps
replicate-map is_bid [] = refl
replicate-map is_bid (b ∷ bs) = ap (◌∷◌ no_bps_fill) (replicate-map is_bid bs)

-- The top price of a side, 0 where it is empty.
abbrev pub top_price : List MergedLevel → ℕ
top_price [] = 0
top_price (l ∷ ls) = l.price

-- For ascending bands `FillToBpsBands` pushes exactly what `FillToBps` returns for each band, on
-- bids (where a band wider than 100% is clamped) and on asks, if the top price is a uint64_t and no
-- ask boundary overflows its uint32_t factor or its uint64_t price.
pub fill_to_bps_bands-map :
    (side : List MergedLevel) (bands : List ℕ) (is_bid : Bool)
    → top_price side < 2 ^ 64
    → BandsFit is_bid (top_price side) 0 bands
    → fill_to_bps_bands side bands is_bid ≡ map (λ b. fill_to_bps side b is_bid) bands
unfolding fill_to_bps_bands
fill_to_bps_bands-map [] bands is_bid h f = replicate-map is_bid bands
fill_to_bps_bands-map (l ∷ ls) bands is_bid h f =
    bps_bands_loop-map l ls is_bid 0 (start (l ∷ ls)) bands h f (λ m w. refl)
