-- ===== src/Spsc/Tests.antt =====
-- A ring of two slots whose consumer pops one of three values while the producer pushes.
use aggregated_order_book.Base.{
  ℕ, ◌+◌, ◌^◌, ◌≤◌, ◌<◌, ◌≡◌, refl, some, List, [], ◌∷◌, arith, length, get_elem?,
}
use aggregated_order_book.Spsc.{
  produce, consume, Capacity, Turn, run_turns, new_threads, produce, consume,
}
use aggregated_order_book.Spsc.Fifo.{run_turns-Fifo}

abbrev two_slots : Capacity
two_slots = record {
  size = 2;
  count = 2 ^ 63;
  product = refl;
  positive = omega arith;
  small = omega arith;
}

abbrev p : ℕ → Turn ℕ
p v = produce v

abbrev turns : List (Turn ℕ)
turns =
    p 7
    ∷ p 0
    ∷ consume
    ∷ p 0
    ∷ p 8
    ∷ consume
    ∷ p 0
    ∷ consume
    ∷ p 0
    ∷ consume
    ∷ p 9
    ∷ p 0
    ∷ p 0
    ∷ p 1
    ∷ []

turns_test : (run_turns two_slots turns (new_threads two_slots 0)).sent ≡ 7 ∷ 8 ∷ 9 ∷ []
unfolding run_turns
turns_test = refl

run_turns-Fifo_example :
    (length (run_turns two_slots turns (new_threads two_slots 0)).received
      ≤ length (run_turns two_slots turns (new_threads two_slots 0)).sent)
    × (length (run_turns two_slots turns (new_threads two_slots 0)).sent
        ≤ length (run_turns two_slots turns (new_threads two_slots 0)).received + 2)
    × ((j : ℕ)
        → j < length (run_turns two_slots turns (new_threads two_slots 0)).received
        → get_elem? (run_turns two_slots turns (new_threads two_slots 0)).received j
          ≡ some (get_elem? (run_turns two_slots turns (new_threads two_slots 0)).sent j))
run_turns-Fifo_example = run_turns-Fifo two_slots 0 turns
