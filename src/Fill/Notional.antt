-- ===== src/Fill/Notional.antt =====
-- One walk for all notional targets gives what a walk for each would.
use aggregated_order_book.Base.{
  ℕ, ◌+◌, ◌^◌, ◌≤◌, ◌<◌, ◌≡◌, refl, sym, ◌∙◌, ap, ap₂, Bool, false, List, [], ◌∷◌, map, arith, leb,
  ◌==◌, Bool-cases, inl, inr,
}
use aggregated_order_book.Merged.{MergedLevel}
use aggregated_order_book.Fill.{
  Cursor, u128, level_notional, raw_target, fill_empty, no_fill, fill_loop, fill_to_notional,
  advance, fill_at, bands_loop, fill_to_notional_bands,
}

-- The loop of the single walk is `advance` and what is pushed where it stops.
fill_loop-advance :
    (side : List MergedLevel) (t i q n : ℕ) (left : List MergedLevel)
    → fill_loop side t i q n left ≡ fill_at side t (advance t i q n left)
unfolding fill_loop advance fill_at
fill_loop-advance side t i q n [] = refl
fill_loop-advance side t i q n (l ∷ ls) = elim (Bool-cases (leb t (u128 (n + level_notional l)))) [
  | inl e ↦ rw e
  | inr e ↦ rw e (fill_loop-advance side t (i + 1) _ _ ls)
]

abbrev resume : ℕ → Cursor → Cursor × Bool
resume t c = advance t c.index c.cum_qty c.cum_notional c.left

-- A wider target may start where a narrower one stopped: every level passed by then had a running
-- total below the narrower target.
resume-advance :
    (s t i q n : ℕ) (left : List MergedLevel)
    → s ≤ t
    → resume t (advance s i q n left).0 ≡ advance t i q n left
unfolding advance
resume-advance s t i q n [] h = refl
resume-advance s t i q n (l ∷ ls) h = elim (Bool-cases (leb s (u128 (n + level_notional l)))) [
  | inl e ↦ rw e
  | inr e ↦
      let f : leb t (u128 (n + level_notional l)) ≡ false = ground arith in
      rw (e, f) (resume-advance s t (i + 1) _ _ ls h)
]

-- Ascending targets, each a uint64_t.
abbrev pub Ascending : ℕ → List ℕ → Type 0
Ascending low [] = Unit {0}
Ascending low (t ∷ ts) = (low ≤ t) × (t < 2 ^ 64) × Ascending t ts

raw_target_mono : (s t : ℕ) → s ≤ t → t < 2 ^ 64 → raw_target s ≤ raw_target t
raw_target_mono s t h k = omega arith

abbrev start : List MergedLevel → Cursor
start side = record { index = 0; cum_qty = 0; cum_notional = 0; left = side }

bands_loop-map :
    (l : MergedLevel) (ls : List MergedLevel) (low : ℕ) (c : Cursor) (ts : List ℕ)
    → Ascending low ts
    → ((t : ℕ) → raw_target low ≤ t → resume t c ≡ resume t (start (l ∷ ls)))
    → bands_loop (l ∷ ls) c ts ≡ map (fill_to_notional (l ∷ ls)) ts
unfolding bands_loop fill_to_notional
bands_loop-map l ls low c [] a r = refl
bands_loop-map l ls low c (t ∷ ts) a r =
    let up : raw_target low ≤ raw_target t = raw_target_mono low t a.0 a.1 in
    elim (Bool-cases (raw_target t == 0)) [
      | inl e ↦
          rw e
            (ap (◌∷◌ no_fill) (bands_loop-map l ls t c ts a.2 (λ t' h. r t' (omega (arith, up)))))
      | inr e ↦ rw e (
          ap₂ ◌∷◌ (head up) (
            bands_loop-map l ls t (resume (raw_target t) c).0 ts a.2 (λ t' h.
              resume-advance (raw_target t) t' c.index c.cum_qty c.cum_notional c.left h
              ∙ r t' (omega (arith, up)))))
    ]
  where
    head :
        raw_target low ≤ raw_target t
        → fill_at (l ∷ ls) (raw_target t) (resume (raw_target t) c)
          ≡ fill_loop (l ∷ ls) (raw_target t) 0 0 0 (l ∷ ls)
    head up =
        ap (fill_at (l ∷ ls) (raw_target t)) (r (raw_target t) up)
        ∙ sym (fill_loop-advance (l ∷ ls) (raw_target t) 0 0 0 (l ∷ ls))

bands_loop-nil : (c : Cursor) (ts : List ℕ) → bands_loop [] c ts ≡ map (fill_to_notional []) ts
unfolding bands_loop fill_to_notional
bands_loop-nil c [] = refl
bands_loop-nil c (t ∷ ts) = ap (◌∷◌ (fill_empty (raw_target t))) (bands_loop-nil c ts)

-- On every side of a book and for uint64_t targets in ascending order, `FillToNotionalBands` pushes
-- exactly what `FillToNotional` returns for each target, wrapped sums included.
pub fill_to_notional_bands-map :
    (side : List MergedLevel) (targets : List ℕ)
    → Ascending 0 targets
    → fill_to_notional_bands side targets ≡ map (fill_to_notional side) targets
unfolding fill_to_notional_bands
fill_to_notional_bands-map [] ts a = bands_loop-nil (start []) ts
fill_to_notional_bands-map (l ∷ ls) ts a = bands_loop-map l ls 0 (start (l ∷ ls)) ts a (λ t h. refl)
