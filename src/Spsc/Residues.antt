-- ===== src/Spsc/Residues.antt =====
-- Slots of the ring: cursors modulo 2^64 address the same slots as the counts they stand for.
use aggregated_order_book.Base.{
  ℕ, ◌+◌, ◌-◌, ◌%◌, ◌^◌, ◌<◌, ◌≡◌, ap, ◌∙◌, ◌≢◌, inl, inr, arith, le-cases,
}
use native.Mathlib.Nat.{
  mod-mod_of_dvd, mod-add-mod, mod-lt, mod-eq_of_lt, mod-eq-sub-mod, dvd_of_mod-eq-zero,
  mul-mod_right,
}
use aggregated_order_book.Spsc.{Capacity}

pub slot_of : (c : Capacity) (n : ℕ) → n % 2 ^ 64 % c.size ≡ n % c.size
slot_of c n =
    mod-mod_of_dvd c.size n
      (dvd_of_mod-eq-zero c.size (ap (λ m. m % c.size) c.product ∙ mul-mod_right c.size c.count))

remainder_moves : (r d s : ℕ) → r < s → 0 < d → d < s → (r + d) % s ≢ r
remainder_moves r d s h k l = elim (le-cases s (r + d)) [
  | inl a ↦ λ e.
      let back : (r + d) % s ≡ r + d - s =
        mod-eq-sub-mod a ∙ mod-eq_of_lt (omega (arith, h, l, a)) in
      absurd (omega (arith, back, e, l, a, k))
  | inr a ↦ λ e. absurd (omega (arith, mod-eq_of_lt a, e, k))
]

-- Two counts less than the capacity apart have different slots.
pub slots_differ : (c : Capacity) (i j : ℕ) → i < j → j < i + c.size → j % c.size ≢ i % c.size
slots_differ c i j h k e =
    let d : ℕ = j - i in
    let sum : i + d ≡ j = omega (arith, h) in
    remainder_moves (i % c.size) d c.size (mod-lt i c.positive) (omega (arith, h))
      (omega (arith, h, k)) (mod-add-mod i c.size d ∙ ap (λ n. n % c.size) sum ∙ e)
