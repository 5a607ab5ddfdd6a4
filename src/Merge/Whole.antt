-- ===== src/Merge/Whole.antt =====
-- The merge of one side, and of the whole book.
use aggregated_order_book.Base.{
  ℕ, zero, suc, ◌≤◌, ◌≡◌, refl, sym, ap, ap₂, subst, ◌∙◌, inl, inr, true, none, some, List, [], ◌∷◌,
  arith, ◌==◌, if◌then◌else◌, length, get_or, All, get_or-All,
}
use aggregated_order_book.Types.{PriceLevel, max_venues}
use aggregated_order_book.Book.Prices.{qty_at}
use aggregated_order_book.Book.Order.{StorageLess, storage_less, Before}
use aggregated_order_book.Bbo.Venues.{qty_or_zero}
use aggregated_order_book.Merged.{MergedLevel}
use aggregated_order_book.Merged.Held.{held, RanksAhead}
use aggregated_order_book.Merge.{pick_best, fill_level, new_level, merge_loop}
use aggregated_order_book.Merge.Iters.{
  entry-qty_at, IsIter, entry, advanced, Floor, Hit, pick_best_lem,
}
use aggregated_order_book.Merge.Level.{IsFilled, fill_level-IsFilled}
use aggregated_order_book.Merge.Loop.{
  advance_all-IsIter, advance_all-Before, advance_all_behind, Hit-Before, total, total-Hit,
  get_or-advance_all, length-advance_all, total-exhausted, IsMergeOf, exhausted-IsMergeOf,
}

turn_at :
    (t : StorageLess) (p : ℕ) (its : List (List PriceLevel)) (level : MergedLevel)
    (its' : List (List PriceLevel)) (out : List MergedLevel) (i q : ℕ)
    → All (IsIter t) its
    → All (Floor t p) its
    → IsFilled p its level its'
    → IsMergeOf t its' out
    → held (level ∷ out) i q ≡ qty_at (get_or its i []) q
turn_at t p its level its' out i q a f r m =
    let it = get_or its i [] in
    let here =
      entry-qty_at t p it q (get_or-All (IsIter t) its i [] a (tt, tt))
        (get_or-All (Floor t p) its i [] f tt) in
    let rest : held out i q ≡ qty_at (advanced p it) q =
      m.quantities i q
      ∙ ap (λ xs. qty_at (get_or xs i []) q) r.left
      ∙ ap (λ x. qty_at x q) (get_or-advance_all p its i) in
    ap₂ (λ x o. if x == q then qty_or_zero o else held out i q) r.price (r.find i)
    ∙ ap (λ x. if p == q then qty_or_zero (entry p it) else x) rest
    ∙ sym here

turn-IsMergeOf :
    (t : StorageLess) (p : ℕ) (its : List (List PriceLevel)) (level : MergedLevel)
    (its' : List (List PriceLevel)) (out : List MergedLevel)
    → All (IsIter t) its
    → All (Floor t p) its
    → Hit p its
    → IsFilled p its level its'
    → IsMergeOf t its' out
    → IsMergeOf t its (level ∷ out)
turn-IsMergeOf t p its level its' out a f g r m =
    let ahead : RanksAhead t p out =
      m.behind p (subst (All (Before t p)) (sym r.left) (advance_all-Before t p its a f)) in
    record {
      side = record {
        sorted = (subst (λ x. RanksAhead t x out) (sym r.price) ahead, m.side.sorted);
        levels = (r.ok, m.side.levels);
      };
      quantities = λ i q. turn_at t p its level its' out i q a f r m;
      behind = λ b h. (
        subst (λ x. storage_less t b x ≡ true) (sym r.price) (Hit-Before t p b its h g),
        m.behind b (subst (All (Before t b)) (sym r.left) (advance_all_behind t p b its h)),
      );
    }

module _ (t : StorageLess) (room : ℕ) (its : List (List PriceLevel)) where
  merge_loop-none : pick_best t none its ≡ none → merge_loop t (suc room) its ≡ []
  unfolding merge_loop
  merge_loop-none e = rw (e, merge_loop) refl

  merge_loop-some :
      (p : ℕ)
      → pick_best t none its ≡ some p
      → merge_loop t (suc room) its
        ≡ (fill_level 0 (new_level p) its).0 ∷ merge_loop t room (fill_level 0 (new_level p) its).1
  unfolding merge_loop
  merge_loop-some p e = rw (e, merge_loop) refl

-- With room for all the levels there are, the loop merges everything.
pub merge_loop-IsMergeOf :
    (t : StorageLess) (room : ℕ) (its : List (List PriceLevel))
    → length its ≤ max_venues
    → All (IsIter t) its
    → total its ≤ room
    → IsMergeOf t its (merge_loop t room its)
unfolding merge_loop
merge_loop-IsMergeOf t zero its h a n = exhausted-IsMergeOf t its (total-exhausted its n)
merge_loop-IsMergeOf t (suc room) its h a n = elim (pick_best_lem t its) [
  | inl (e, f) ↦ rw (merge_loop-none t room its e) (exhausted-IsMergeOf t its f)
  | inr (p, e, f, g) ↦
      let level = (fill_level 0 (new_level p) its).0 in
      let its' = (fill_level 0 (new_level p) its).1 in
      let r : IsFilled p its level its' = fill_level-IsFilled t p its h a g in
      let fewer = total-Hit p its g in
      rw (merge_loop-some t room its p e) (
        turn-IsMergeOf t p its level its' (merge_loop t room its') a f g r (
          merge_loop-IsMergeOf t room its'
            (omega (arith, h, ap length r.left, length-advance_all p its))
            (subst (All (IsIter t)) (sym r.left) (advance_all-IsIter t p its a))
            (omega (arith, n, fewer, ap total r.left))))
]
