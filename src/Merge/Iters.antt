-- ===== src/Merge/Iters.antt =====
-- The iterators of the merge: what they still hold, which price is best, and one step of them.
use aggregated_order_book.Base.{
  ℕ, ◌≡◌, refl, subst, ◌⊎◌, inl, inr, true, false, Option, none, some, List, [], ◌∷◌, arith, ◌==◌,
  if◌then◌else◌, Bool-cases, All,
}
use aggregated_order_book.Types.{PriceLevel}
use aggregated_order_book.Book.Prices.{qty_at, qty_at_absent}
use aggregated_order_book.Book.Order.{
  StorageLess, storage_less, Before, Sorted, Before-trans, Before-absent,
}
use aggregated_order_book.Bbo.Venues.{qty_or_zero}
use aggregated_order_book.Merged.Held.{IsQty}
use aggregated_order_book.Merge.{pick_best}

-- A venue's levels: best first, no price twice, each with a uint64_t quantity.
abbrev pub IsIter : StorageLess → List PriceLevel → Type 0
IsIter t it = Sorted t it × All (λ l. IsQty l.qty) it

-- The quantity at the price that is being merged.
abbrev pub entry : ℕ → List PriceLevel → Option ℕ
entry p [] = none
entry p (l ∷ ls) = if l.price == p then some l.qty else none

-- The iterator after that level.
abbrev pub advanced : ℕ → List PriceLevel → List PriceLevel
advanced p [] = []
advanced p (l ∷ ls) = if l.price == p then ls else l ∷ ls

abbrev pub advance_all : ℕ → List (List PriceLevel) → List (List PriceLevel)
advance_all p [] = []
advance_all p (it ∷ its) = advanced p it ∷ advance_all p its

-- `p` is nowhere behind the next level.
abbrev pub Floor : StorageLess → ℕ → List PriceLevel → Type 0
Floor t p [] = Unit
Floor t p (l ∷ ls) = storage_less t l.price p ≡ false

-- The next level of some venue has the price `p`.
abbrev pub Hit : ℕ → List (List PriceLevel) → Type 0
Hit p [] = ⊥
Hit p ([] ∷ its) = Hit p its
Hit p ((l ∷ ls) ∷ its) = (l.price ≡ p) ⊎ Hit p its

-- A best price so far is only replaced by better ones.
picked_some :
    (t : StorageLess) (b : ℕ) (its : List (List PriceLevel))
    → (p : ℕ) × (pick_best t (some b) its ≡ some p)
      × All (Floor t p) its
      × (storage_less t b p ≡ false)
      × ((b ≡ p) ⊎ Hit p its)
unfolding pick_best
picked_some t b [] = (b, refl, tt, ground arith, inl refl)
picked_some t b ([] ∷ its) = let (p, e, f, a, g) = picked_some t b its in (p, e, (tt, f), a, g)
picked_some t b ((l ∷ ls) ∷ its) = elim (Bool-cases (storage_less t l.price b)) [
  | inl k ↦
      let (p, e, f, a, g) = picked_some t l.price its in
      rw (k, pick_best) (p, e, (a, f), ground (arith, k, a), inr g)
  | inr k ↦
      let (p, e, f, a, g) = picked_some t b its in
      rw (k, pick_best)
        (p, e, (ground (arith, k, a), f), a, elim g [ inl x ↦ inl x | inr x ↦ inr (inr x) ])
]

-- The best price of all: none when every venue is exhausted.
pub pick_best_lem :
    (t : StorageLess) (its : List (List PriceLevel))
    → ((pick_best t none its ≡ none) × All (λ it. it ≡ []) its)
      ⊎ ((p : ℕ) × (pick_best t none its ≡ some p) × All (Floor t p) its × Hit p its)
unfolding pick_best
pick_best_lem t [] = inl (refl, tt)
pick_best_lem t ([] ∷ its) = elim (pick_best_lem t its) [
  | inl (e, f) ↦ inl (e, (refl, f))
  | inr (p, e, f, g) ↦ inr (p, e, (tt, f), g)
]
pick_best_lem t ((l ∷ ls) ∷ its) =
    let (p, e, f, a, g) = picked_some t l.price its in inr (p, e, (a, f), g)

module _ (t : StorageLess) (p : ℕ) where
  pub advanced-IsIter : (it : List PriceLevel) → IsIter t it → IsIter t (advanced p it)
  advanced-IsIter [] h = (tt, tt)
  advanced-IsIter (l ∷ ls) h = elim (Bool-cases (l.price == p)) [
    | inl e ↦ rw e (h.0.1, h.1.1)
    | inr e ↦ rw e h
  ]

  -- Behind the step every price ranks behind the one that was merged.
  pub advanced-Before :
      (it : List PriceLevel) → IsIter t it → Floor t p it → Before t p (advanced p it)
  advanced-Before [] h f = tt
  advanced-Before (l ∷ ls) h f = elim (Bool-cases (l.price == p)) [
    | inl e ↦ rw e (subst (λ x. Before t x ls) (ground (arith, e)) h.0.0)
    | inr e ↦
        let a : storage_less t p l.price ≡ true = ground (arith, e, f) in
        rw e (a, Before-trans t p l.price ls a h.0.0)
  ]

  Before-zero : (x q : ℕ) (ls : List PriceLevel) → Before t x ls → x ≡ q → qty_at ls q ≡ 0
  Before-zero x q ls h e =
      qty_at_absent ls q (Before-absent t q ls (subst (λ y. Before t y ls) e h))

  -- The merged price has the entry's quantity, any other price what the rest has.
  pub entry-qty_at :
      (it : List PriceLevel) (q : ℕ)
      → IsIter t it
      → Floor t p it
      → qty_at it q ≡ (if p == q then qty_or_zero (entry p it) else qty_at (advanced p it) q)
  entry-qty_at [] q h f = ground arith
  entry-qty_at (l ∷ ls) q h f = elim (Bool-cases (l.price == p)) [
    | inl e ↦
        let same_price : l.price ≡ p = ground (arith, e) in
        rw e (elim (Bool-cases (p == q)) [
          | inl g ↦
              rw g (ground (arith, g, e, Before-zero l.price q ls h.0.0 (ground (arith, e, g))))
          | inr g ↦ rw g (ground (arith, g, e))
        ])
    | inr e ↦
        let a : storage_less t p l.price ≡ true = ground (arith, e, f) in
        rw e (elim (Bool-cases (p == q)) [
          | inl g ↦ rw g (
              ground (
                arith,
                g,
                e,
                Before-zero p q ls (Before-trans t p l.price ls a h.0.0) (ground (arith, g)),
              ))
          | inr g ↦ rw g refl
        ])
  ]

  pub entry-IsQty : (it : List PriceLevel) (q : ℕ) → IsIter t it → entry p it ≡ some q → IsQty q
  entry-IsQty [] q h e = absurd (cc)
  entry-IsQty (l ∷ ls) q h e = elim (Bool-cases (l.price == p)) [
    | inl k ↦ ground (arith, h.1.0, e, k)
    | inr k ↦ absurd (ground (arith, e, k))
  ]
