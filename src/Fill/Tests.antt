-- ===== src/Fill/Tests.antt =====
-- Runs of the band walks, and the theorems at inputs where their hypotheses hold.
use aggregated_order_book.Base.{ℕ, ◌*◌, ◌≡◌, refl, false, List, [], ◌∷◌, map, arith}
use aggregated_order_book.Merged.{MergedLevel}
use aggregated_order_book.Fill.Notional.{fill_to_notional_bands-map}
use aggregated_order_book.Fill.Bounds.{IsFill, total_notional, total_qty, fill_to_notional-IsFill}
use aggregated_order_book.Fill.Bps.{fill_to_bps_bands-map}
use aggregated_order_book.Fill.{
  scale_factor, fill_loop, fill_to_notional, fill_to_notional_bands, fill_to_bps, fill_to_bps_bands,
}

abbrev merged : ℕ → ℕ → MergedLevel
merged p q = record { price = p; venues = []; qty = q }

-- Asks at 100.0, 101.0 and 102.0, each for one unit of quantity.
abbrev asks : List MergedLevel
asks =
    merged 10_000_000_000 100_000_000
    ∷ merged 10_100_000_000 100_000_000
    ∷ merged 10_200_000_000 100_000_000
    ∷ []

-- 150.5 in quote currency takes the first level and half of the second.
fill_run : fill_to_notional asks 15_050_000_000 ≡ record {
  vwap = 10_033_333_333;
  worst_price = 10_100_000_000;
  filled_qty = 150_000_000;
  filled_notional = 15_050_000_000;
  level_count = 2;
  insufficient_depth = false;
}
unfolding fill_to_notional fill_loop
fill_run = refl

bps_run : fill_to_bps asks 100 false ≡ record {
  vwap = 10_050_000_000;
  limit_price = 10_100_000_000;
  cum_qty = 200_000_000;
  cum_notional = 20_100_000_000;
  level_count = 2;
  insufficient_depth = false;
}
unfolding fill_to_bps
bps_run = refl

abbrev targets : List ℕ
targets = 0 ∷ 15_050_000_000 ∷ 15_050_000_000 ∷ 90_000_000_000 ∷ []

fill_to_notional_bands-map_example :
    fill_to_notional_bands asks targets ≡ map (fill_to_notional asks) targets
fill_to_notional_bands-map_example = fill_to_notional_bands-map asks targets (omega arith)

fill_to_notional-IsFill_example :
    IsFill
      (15_050_000_000 * scale_factor)
      (total_notional asks)
      (total_qty asks)
      (fill_to_notional asks 15_050_000_000)
fill_to_notional-IsFill_example =
    fill_to_notional-IsFill asks 15_050_000_000 (omega arith)
      ((omega arith, omega arith), ((omega arith, omega arith), ((omega arith, omega arith), tt)))

fill_to_bps_bands-map_example :
    fill_to_bps_bands asks (50 ∷ 100 ∷ []) false
    ≡ map (λ b. fill_to_bps asks b false) (50 ∷ 100 ∷ [])
fill_to_bps_bands-map_example =
    fill_to_bps_bands-map asks (50 ∷ 100 ∷ []) false (omega arith) (omega arith)
