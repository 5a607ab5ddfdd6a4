-- ===== src/Fill/Bounds.antt =====
-- How far a notional fill goes: never past the target, never past the book, and short of the target
-- only by what one unit of quantity costs, or because the book has run out.
use aggregated_order_book.Base.{
  ℕ, zero, suc, ◌+◌, ◌-◌, ◌*◌, ◌/◌, ◌^◌, ◌≤◌, ◌<◌, ◌≡◌, ◌↔◌, refl, sym, subst, true, false, List,
  [], ◌∷◌, arith, leb, ◌==◌, Bool-cases, inl, inr, All,
}
use aggregated_order_book.Merged.{MergedLevel}
use aggregated_order_book.Fill.{
  NotionalFill, u64, u128, level_notional, partial_qty, raw_target, fill_loop, fill_to_notional,
  fill_at_crossing, fill_exhausted, scale_factor,
}

-- The sums of a side with no wrap.
abbrev pub total_notional : List MergedLevel → ℕ
total_notional [] = 0
total_notional (l ∷ ls) = l.price * l.qty + total_notional ls

abbrev pub total_qty : List MergedLevel → ℕ
total_qty [] = 0
total_qty (l ∷ ls) = l.qty + total_qty ls

div_bounds : (a p : ℕ) → 0 < p → (p * (a / p) ≤ a) × (a < p * (a / p) + p)
div_bounds a p h = (grind arith, grind arith)

mul_mono : (t x y : ℕ) → x ≤ y → t * x ≤ t * y
mul_mono t x y h = grind arith

-- The numbers of one crossing, with no wrap.
record Crossing (l : MergedLevel) (t n partial : ℕ) : Type 0 where
  below : n + l.price * partial ≤ t
  near : t < n + l.price * partial + l.price
  inside : partial ≤ l.qty

quotient_inside : (p q a : ℕ) → 0 < p → a ≤ p * q → a / p ≤ q
quotient_inside p q a h k = elim (Bool-cases (leb (a / p) q)) [
  | inl e ↦ ground arith
  | inr e ↦ absurd (omega (arith, mul_mono p (q + 1) (a / p) (ground arith), div_bounds a p h))
]

price_pos : (p q n t : ℕ) → n < t → t ≤ n + p * q → 0 < p
price_pos zero q n t h k = absurd (omega arith)
price_pos (suc p) q n t h k = omega arith

partial_exact :
    (l : MergedLevel) (t n : ℕ)
    → n < t
    → t ≤ n + l.price * l.qty
    → t < 2 ^ 128
    → l.qty < 2 ^ 64
    → partial_qty l n t ≡ (t - n) / l.price
partial_exact l t n h k m u =
    let rest : u128 (t + 2 ^ 128 - n) ≡ t - n = omega arith in
    let q : (t - n) / l.price ≤ l.qty =
      quotient_inside l.price l.qty (t - n) (price_pos l.price l.qty n t h k) (omega arith) in
    let r : u64 ((t - n) / l.price) ≡ (t - n) / l.price = omega arith in rw (rest, r) (ground arith)

partial-Crossing :
    (l : MergedLevel) (t n : ℕ)
    → n < t
    → t ≤ n + l.price * l.qty
    → t < 2 ^ 128
    → l.qty < 2 ^ 64
    → Crossing l t n (partial_qty l n t)
partial-Crossing l t n h k m u =
    let p = price_pos l.price l.qty n t h k in
    let d = div_bounds (t - n) l.price p in
    rw (partial_exact l t n h k m u) (record {
      below = omega (arith, d.0);
      near = omega (arith, d.1);
      inside = quotient_inside l.price l.qty (t - n) p (omega arith);
    })

-- What a fill promises for the raw target `t`, on a side that holds `notional` and `qty` in all.
pub record IsFill (t notional qty : ℕ) (r : NotionalFill) : Type 0 where
  pub within : r.filled_notional * scale_factor ≤ t
  pub held : r.filled_qty ≤ qty
  pub short : (r.insufficient_depth ≡ true) ↔ (notional < t)
  pub near :
      r.insufficient_depth ≡ false
      → t < r.filled_notional * scale_factor + scale_factor + r.worst_price

crossing-IsFill :
    (l : MergedLevel) (i t q n notional qty : ℕ)
    → n < t
    → t ≤ n + l.price * l.qty
    → l.qty < 2 ^ 64
    → n + l.price * l.qty ≤ notional
    → q + l.qty ≤ qty
    → t < 2 ^ 64 * scale_factor
    → IsFill t notional qty (fill_at_crossing l i q n t)
unfolding fill_at_crossing
crossing-IsFill l i t q n notional qty h k m bn bq ft =
    let c = partial-Crossing l t n h k (omega (arith, ft)) m in
    let raw : u128 (n + u128 (l.price * partial_qty l n t)) ≡ n + l.price * partial_qty l n t =
      omega (arith, c.below, ft) in
    let counted : u64 (q + partial_qty l n t) ≤ q + partial_qty l n t = omega arith in
    rw raw (record {
      within = omega (arith, c.below);
      held = omega (arith, c.inside, counted);
      short = (λ e. cc, λ lt. absurd (omega arith));
      near = λ e. omega (arith, c.near, c.below);
    })

exhausted-IsFill :
    (side : List MergedLevel) (t q n qty : ℕ)
    → n < t
    → t < 2 ^ 64 * scale_factor
    → q ≤ qty
    → IsFill t n qty (fill_exhausted side q n)
unfolding fill_exhausted
exhausted-IsFill side t q n qty h ft k = record {
  within = omega arith;
  held = k;
  short = (λ e. h, λ lt. refl);
  near = λ e. cc;
}

-- A uint64_t quantity, and a value that fits in 128 bits on top of the target.
abbrev pub FitsFill : ℕ → MergedLevel → Type 0
FitsFill t l = (l.qty < 2 ^ 64) × (t + l.price * l.qty ≤ 2 ^ 128)

fill_loop-IsFill :
    (side : List MergedLevel) (t i q n qty : ℕ) (left : List MergedLevel)
    → n < t
    → t < 2 ^ 64 * scale_factor
    → All (FitsFill t) left
    → q + total_qty left ≤ qty
    → IsFill t (n + total_notional left) qty (fill_loop side t i q n left)
unfolding fill_loop
fill_loop-IsFill side t i q n qty [] h ft f fq =
    let a : n + 0 ≡ n = omega arith in
    rw a (exhausted-IsFill side t q n qty h ft (omega (arith, fq)))
fill_loop-IsFill side t i q n qty (l ∷ ls) h ft f fq =
    let next : u128 (n + level_notional l) ≡ n + l.price * l.qty = omega (arith, f.0.1, h) in
    let counted : u64 (q + l.qty) ≤ q + l.qty = omega arith in
    elim (Bool-cases (leb t (n + l.price * l.qty))) [
      | inl e ↦
          rw (next, e)
            (crossing-IsFill l i t q n (n + (l.price * l.qty + total_notional ls)) qty h
              (ground (arith, e)) f.0.0 (omega arith) (omega (arith, fq)) ft)
      | inr e ↦
          let a : n + (l.price * l.qty + total_notional ls)
              ≡ n + l.price * l.qty + total_notional ls =
            omega arith in
          rw (next, e, a)
            (fill_loop-IsFill side t (i + 1) (u64 (q + l.qty)) (n + l.price * l.qty) qty ls
              (ground (arith, e)) ft f.1 (omega (arith, fq, counted)))
    ]

-- For a uint64_t target, on a side each of whose levels has a uint64_t quantity and a value that with
-- the scaled target fits in 128 bits, however much the whole side holds: `FillToNotional` never fills
-- more than the target nor more than the side holds; it reports insufficient depth exactly when the
-- side is worth less than the target; and otherwise it stops short of the target by less than the
-- worst price taken and one unit of the quoted notional.
pub fill_to_notional-IsFill :
    (side : List MergedLevel) (target : ℕ)
    → target < 2 ^ 64
    → All (FitsFill (target * scale_factor)) side
    → IsFill
        (target * scale_factor)
        (total_notional side)
        (total_qty side)
        (fill_to_notional side target)
unfolding fill_to_notional
fill_to_notional-IsFill [] target ft f = record {
  within = omega arith;
  held = omega arith;
  short = (λ e. ground arith, λ lt. ground arith);
  near = λ e. ground arith;
}
fill_to_notional-IsFill (l ∷ ls) target ft f =
    let t : raw_target target ≡ target * scale_factor = omega arith in
    elim (Bool-cases (target * scale_factor == 0)) [
      | inl e ↦
          rw (t, e)
            (record {
              within = omega arith;
              held = omega arith;
              short = (λ f. cc, λ lt. absurd (ground arith));
              near = λ f. ground arith;
            })
      | inr e ↦
          let a : total_notional (l ∷ ls) ≡ 0 + total_notional (l ∷ ls) = omega arith in
          rw (t, e)
            (subst
              (λ x.
                IsFill (target * scale_factor) x (total_qty (l ∷ ls))
                  (fill_loop (l ∷ ls) (target * scale_factor) 0 0 0 (l ∷ ls)))
              (sym a)
              (fill_loop-IsFill (l ∷ ls) (target * scale_factor) 0 0 0 (total_qty (l ∷ ls)) (l ∷ ls)
                (ground (arith, e)) (omega (arith, ft)) f (omega arith)))
    ]
