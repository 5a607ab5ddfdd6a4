-- ===== src/Merged/Unique.antt =====
-- A side of the consolidated book is determined by what it attributes to each venue at each price.
use aggregated_order_book.Base.{
  ℕ, ◌%◌, ◌^◌, ◌≡◌, refl, sym, ap, ap₂, subst, ◌∙◌, ◌≢◌, inl, inr, false, List, [], ◌∷◌, arith,
  ◌==◌, Bool-cases,
}
use aggregated_order_book.Book.Order.{StorageLess, storage_less}
use aggregated_order_book.Bbo.Venues.{VenueQuote, find_slot, qty_or_zero, sum_qty}
use aggregated_order_book.Merged.{MergedLevel}
use aggregated_order_book.Merged.Held.{
  held, RanksAhead, SlotsFrom, IsLevel, IsMergedSide, SlotsFrom-unique, held_ahead,
  RanksAhead-trans,
}

abbrev SameHeld : List MergedLevel → List MergedLevel → Type 0
SameHeld ls ms = (i p : ℕ) → held ls i p ≡ held ms i p

level_ext : (l m : MergedLevel) → l.price ≡ m.price → l.venues ≡ m.venues → l.qty ≡ m.qty → l ≡ m
level_ext l m s v q =
    ap₂ (λ (x : ℕ) (r : List VenueQuote × ℕ). record { price = x; venues = r.0; qty = r.1 }) s
      (ap₂ (λ x y. (x, y)) v q)

-- A venue of an attribution, and of a level.
attributed_venue :
    (vs : List VenueQuote) → SlotsFrom 0 vs → vs ≢ [] → (i : ℕ) × (qty_or_zero (find_slot vs i) ≢ 0)
unfolding find_slot
attributed_venue [] k e = absurd (e refl)
attributed_venue (v ∷ vs) k e = (v.slot, ground (arith, k.2.0))

attributed_lem : (l : MergedLevel) → IsLevel l → (i : ℕ) × (qty_or_zero (find_slot l.venues i) ≢ 0)
attributed_lem l h = attributed_venue l.venues h.slots h.attributed

not_ahead :
    (t : StorageLess) (l m : MergedLevel) (ls ms : List MergedLevel)
    → IsLevel l
    → RanksAhead t m.price ms
    → SameHeld (l ∷ ls) (m ∷ ms)
    → storage_less t l.price m.price ≡ false
not_ahead t l m ls ms h r e = elim (Bool-cases (storage_less t l.price m.price)) [
  | inr a ↦ a
  | inl a ↦
      let (i, n) = attributed_lem l h in
      let far = held_ahead t l.price ms i (RanksAhead-trans t l.price m.price ms a r) in
      absurd (n (ground (arith, e i l.price, far, a)))
]

tail_same :
    (t : StorageLess) (l m : MergedLevel) (ls ms : List MergedLevel)
    → RanksAhead t l.price ls
    → RanksAhead t m.price ms
    → l.price ≡ m.price
    → SameHeld (l ∷ ls) (m ∷ ms)
    → SameHeld ls ms
tail_same t l m ls ms h k s e i p = elim (Bool-cases (l.price == p)) [
  | inl a ↦
      let b : l.price ≡ p = ground (arith, a) in
      held_ahead t p ls i (subst (λ x. RanksAhead t x ls) b h)
      ∙ sym (held_ahead t p ms i (subst (λ x. RanksAhead t x ms) (sym s ∙ b) k))
  | inr a ↦ ground (arith, e i p, s, a)
]

-- Two well-formed sides that attribute the same quantities are equal, level by level.
pub IsMergedSide-unique :
    (t : StorageLess) (ls ms : List MergedLevel)
    → IsMergedSide t ls
    → IsMergedSide t ms
    → ((i p : ℕ) → held ls i p ≡ held ms i p)
    → ls ≡ ms
IsMergedSide-unique t [] [] h k e = refl
IsMergedSide-unique t [] (m ∷ ms) h k e =
    let (i, n) = attributed_lem m k.levels.0 in absurd (n (ground (arith, e i m.price)))
IsMergedSide-unique t (l ∷ ls) [] h k e =
    let (i, n) = attributed_lem l h.levels.0 in absurd (n (ground (arith, e i l.price)))
IsMergedSide-unique t (l ∷ ls) (m ∷ ms) h k e =
    let a = not_ahead t l m ls ms h.levels.0 k.sorted.0 e in
    let b = not_ahead t m l ms ls k.levels.0 h.sorted.0 (λ i p. sym (e i p)) in
    let s : l.price ≡ m.price = ground (arith, a, b) in
    let v : l.venues ≡ m.venues =
      SlotsFrom-unique 0 0 l.venues m.venues h.levels.0.slots k.levels.0.slots
        (λ i. ground (arith, e i l.price, s)) in
    let q : l.qty ≡ m.qty =
      h.levels.0.total ∙ ap (λ vs. sum_qty vs % 2 ^ 64) v ∙ sym k.levels.0.total in
    let rest =
      IsMergedSide-unique t ls ms (record { sorted = h.sorted.1; levels = h.levels.1 })
        (record { sorted = k.sorted.1; levels = k.levels.1 })
        (tail_same t l m ls ms h.sorted.0 k.sorted.0 s e) in
    ap₂ (λ x xs. x ∷ xs) (level_ext l m s v q) rest
