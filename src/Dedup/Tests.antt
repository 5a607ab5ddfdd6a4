-- ===== src/Dedup/Tests.antt =====
-- Two connections, the second one ahead after the first message; and a venue whose ids fell back.
use aggregated_order_book.Base.{
  ℕ, ◌≤◌, ◌≡◌, refl, true, false, List, [], ◌∷◌, ◌++◌, arith, length, replicate, All,
}
use aggregated_order_book.Dedup.{SeqDedup, new_dedup, looks_stuck, Delivery, passed, run}
use aggregated_order_book.Dedup.Once.{passed-deliveries}
use aggregated_order_book.Dedup.Marks.{Ascending, deliveries, reached}
use aggregated_order_book.Dedup.Ascend.{passed-Ascending}
use aggregated_order_book.Dedup.Health.{passed-IsStale}

abbrev ids : List ℕ
ids = 7 ∷ 9 ∷ 10 ∷ []

abbrev turns : List ℕ
turns = 0 ∷ 1 ∷ 1 ∷ 0 ∷ 1 ∷ 0 ∷ []

ids-Ascending : Ascending ids
ids-Ascending = ((omega arith, (omega arith, tt)), ((omega arith, tt), (tt, tt)))

passed_test : passed new_dedup (deliveries ids (replicate 2 0) turns) ≡ ids
unfolding passed deliveries
passed_test = refl

passed-deliveries_example :
    ((rest : List ℕ) × (ids ≡ passed new_dedup (deliveries ids (replicate 2 0) turns) ++ rest))
    × All
        (λ p. p ≤ length (passed new_dedup (deliveries ids (replicate 2 0) turns)))
        (reached ids (replicate 2 0) turns)
passed-deliveries_example = passed-deliveries ids turns 2 ids-Ascending

abbrev delivery : ℕ → ℕ → Delivery
delivery id c = record { id = id; conn_index = c; is_reset = false }

abbrev mixed : List Delivery
mixed = delivery 5 0 ∷ delivery 4 1 ∷ delivery 5 1 ∷ delivery 8 1 ∷ []

passed-Ascending_example : Ascending (passed new_dedup mixed)
passed-Ascending_example = passed-Ascending new_dedup mixed (refl, (refl, (refl, (refl, tt))))

abbrev marked : SeqDedup
marked = record new_dedup { last = 100; seen = true }

abbrev fallen : List Delivery
fallen = delivery 1 0 ∷ delivery 2 0 ∷ []

passed-IsStale_example :
    (passed marked fallen ≡ [])
    × ((run marked fallen).last ≡ 100)
    × (looks_stuck (run marked fallen) ≡ false)
passed-IsStale_example =
    passed-IsStale marked fallen refl refl ((refl, omega arith), ((refl, omega arith), tt))
      (omega arith)
