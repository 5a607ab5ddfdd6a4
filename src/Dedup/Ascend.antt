-- ===== src/Dedup/Ascend.antt =====
-- What any deliveries without a reset leave: ids in ascending order.
use aggregated_order_book.Base.{
  ℕ, ◌<◌, ◌≡◌, refl, ap, ◌∙◌, ◌⊎◌, inl, inr, true, false, List, [], ◌∷◌, arith, Bool-cases, All,
  All-map,
}
use aggregated_order_book.Dedup.{
  SeqDedup, rotate, drop_copy, is_duplicate, accept, Delivery, passed,
}
use aggregated_order_book.Dedup.Once.{passed-cons}
use aggregated_order_book.Dedup.Marks.{Ascending}

abbrev Above : SeqDedup → List ℕ → Type 0
Above s xs = (s.seen ≡ true → All (λ y. s.last < y) xs) × Ascending xs

accept-cases :
    (s : SeqDedup) (id c : ℕ)
    → (accept s id c false ≡ (false, drop_copy s c))
      ⊎ ((accept s id c false ≡ (true, rotate s id c)) × (s.seen ≡ true → s.last < id))
unfolding accept is_duplicate
accept-cases s id c = elim (Bool-cases (is_duplicate s id false)) [
  | inl e ↦ inl (rw e refl)
  | inr e ↦ inr (rw e refl, λ h. ground (arith, h, e))
]

Above-cons :
    (s : SeqDedup) (m : Delivery) (ms : List Delivery)
    → m.is_reset ≡ false
    → ((t : SeqDedup) → Above t (passed t ms))
    → Above s (passed s (m ∷ ms))
unfolding rotate
Above-cons s m ms h ih =
    let call : accept s m.id m.conn_index m.is_reset ≡ accept s m.id m.conn_index false =
      ap (accept s m.id m.conn_index) h in
    elim (accept-cases s m.id m.conn_index) [
      | inl e ↦
          rw (passed-cons s (drop_copy s m.conn_index) m ms false (call ∙ e))
            (ih (drop_copy s m.conn_index))
      | inr (e, l) ↦
          let t = rotate s m.id m.conn_index in
          let (above, asc) = ih t in
          rw (passed-cons s t m ms true (call ∙ e)) (
            (λ k. (
              l k,
              All-map (λ y. m.id < y) (λ y. s.last < y) (λ y b. omega (arith, l k)) (passed t ms)
                  (above refl),
            )),
            (above refl, asc),
          )
    ]

passed-Above :
    (ms : List Delivery) → All (λ m. m.is_reset ≡ false) ms → (s : SeqDedup) → Above s (passed s ms)
unfolding passed
passed-Above [] h s = (λ k. tt, tt)
passed-Above (m ∷ ms) h s = Above-cons s m ms h.0 (passed-Above ms h.1)

-- With no reset, whatever ids the connections deliver, those that pass strictly ascend: none passes
-- twice, and none after a later one.
pub passed-Ascending :
    (s : SeqDedup) (ms : List Delivery) → All (λ m. m.is_reset ≡ false) ms → Ascending (passed s ms)
passed-Ascending s ms h = (passed-Above ms h s).1
