-- ===== src/Merge/Loop.antt =====
-- The merge loop: the whole side, and that the venues' levels suffice as its fuel.
use aggregated_order_book.Base.{
  ℕ, zero, suc, ◌+◌, ◌≤◌, ◌<◌, ◌≡◌, refl, sym, ap, subst, inl, inr, true, List, [], ◌∷◌, arith,
  ◌==◌, Bool-cases, length, get_or, All, get_or-All,
}
use aggregated_order_book.Types.{PriceLevel}
use aggregated_order_book.Book.Prices.{qty_at}
use aggregated_order_book.Book.Order.{StorageLess, storage_less, Before}
use aggregated_order_book.Merged.{MergedLevel}
use aggregated_order_book.Merged.Held.{held, RanksAhead, IsMergedSide}
use aggregated_order_book.Merge.Iters.{
  advanced-IsIter, advanced-Before, IsIter, advanced, advance_all, Floor, Hit,
}

-- How many levels the iterators still hold.
abbrev pub total : List (List PriceLevel) → ℕ
total [] = 0
total (it ∷ its) = length it + total its

total-advanced : (p : ℕ) (it : List PriceLevel) → length (advanced p it) ≤ length it
total-advanced p [] = omega arith
total-advanced p (l ∷ ls) = ground arith

total-advance_all : (p : ℕ) (its : List (List PriceLevel)) → total (advance_all p its) ≤ total its
total-advance_all p [] = omega arith
total-advance_all p (it ∷ its) = omega (arith, total-advanced p it, total-advance_all p its)

-- Every turn of the loop consumes a level.
pub total-Hit :
    (p : ℕ) (its : List (List PriceLevel)) → Hit p its → total (advance_all p its) < total its
total-Hit p [] h = absurd h
total-Hit p ([] ∷ its) h = omega (arith, total-Hit p its h)
total-Hit p ((l ∷ ls) ∷ its) (inl e) =
    let m : (l.price == p) ≡ true = ground (arith, e) in
    rw m (omega (arith, total-advance_all p its))
total-Hit p ((l ∷ ls) ∷ its) (inr h) = omega (arith, total-advanced p (l ∷ ls), total-Hit p its h)

pub get_or-advance_all :
    (p : ℕ) (its : List (List PriceLevel)) (i : ℕ)
    → get_or (advance_all p its) i [] ≡ advanced p (get_or its i [])
get_or-advance_all p [] i = refl
get_or-advance_all p (it ∷ its) zero = refl
get_or-advance_all p (it ∷ its) (suc i) = get_or-advance_all p its i

pub length-advance_all :
    (p : ℕ) (its : List (List PriceLevel)) → length (advance_all p its) ≡ length its
length-advance_all p [] = refl
length-advance_all p (it ∷ its) = ap suc (length-advance_all p its)

module _ (t : StorageLess) (p : ℕ) where
  pub advance_all-IsIter :
      (its : List (List PriceLevel)) → All (IsIter t) its → All (IsIter t) (advance_all p its)
  advance_all-IsIter [] h = tt
  advance_all-IsIter (it ∷ its) h = (advanced-IsIter t p it h.0, advance_all-IsIter its h.1)

  pub advance_all-Before :
      (its : List (List PriceLevel))
      → All (IsIter t) its
      → All (Floor t p) its
      → All (Before t p) (advance_all p its)
  advance_all-Before [] h f = tt
  advance_all-Before (it ∷ its) h f =
      (advanced-Before t p it h.0 f.0, advance_all-Before its h.1 f.1)

  advanced_behind : (b : ℕ) (it : List PriceLevel) → Before t b it → Before t b (advanced p it)
  advanced_behind b [] h = tt
  advanced_behind b (l ∷ ls) h = elim (Bool-cases (l.price == p)) [
    | inl e ↦ rw e h.1
    | inr e ↦ rw e h
  ]

  pub advance_all_behind :
      (b : ℕ) (its : List (List PriceLevel))
      → All (Before t b) its
      → All (Before t b) (advance_all p its)
  advance_all_behind b [] h = tt
  advance_all_behind b (it ∷ its) h = (advanced_behind b it h.0, advance_all_behind b its h.1)

  pub Hit-Before :
      (b : ℕ) (its : List (List PriceLevel))
      → All (Before t b) its
      → Hit p its
      → storage_less t b p ≡ true
  Hit-Before b [] h g = absurd g
  Hit-Before b ([] ∷ its) h g = Hit-Before b its h.1 g
  Hit-Before b ((l ∷ ls) ∷ its) h (inl e) = subst (λ x. storage_less t b x ≡ true) e h.0.0
  Hit-Before b ((l ∷ ls) ∷ its) h (inr g) = Hit-Before b its h.1 g

exhausted_lem :
    (its : List (List PriceLevel)) (i q : ℕ)
    → All (λ it. it ≡ []) its
    → 0 ≡ qty_at (get_or its i []) q
exhausted_lem its i q h = sym (ap (λ it. qty_at it q) (get_or-All (λ it. it ≡ []) its i [] h refl))

pub total-exhausted : (its : List (List PriceLevel)) → total its ≤ 0 → All (λ it. it ≡ []) its
total-exhausted [] h = tt
total-exhausted ([] ∷ its) h = (refl, total-exhausted its (omega (arith, h)))
total-exhausted ((l ∷ ls) ∷ its) h = absurd (omega (arith, h))

-- What the loop makes of the iterators.
pub record IsMergeOf (t : StorageLess) (its : List (List PriceLevel)) (out : List MergedLevel)
    : Type 0 where
  pub side : IsMergedSide t out
  pub quantities : (i q : ℕ) → held out i q ≡ qty_at (get_or its i []) q
  pub behind : (b : ℕ) → All (Before t b) its → RanksAhead t b out

pub exhausted-IsMergeOf :
    (t : StorageLess) (its : List (List PriceLevel)) → All (λ it. it ≡ []) its → IsMergeOf t its []
exhausted-IsMergeOf t its h = record {
  side = record { sorted = tt; levels = tt };
  quantities = λ i q. exhausted_lem its i q h;
  behind = λ b k. tt;
}
