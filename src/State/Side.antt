-- ===== src/State/Side.antt =====
-- One side: the incremental repair is the full merge of the books after the transition.
use aggregated_order_book.Base.{
  ℕ, ◌≤◌, ◌<◌, ◌≡◌, sym, ap, ◌∙◌, inl, inr, List, [], arith, ◌==◌, Bool-cases, length, get_or, set,
  All, get_or-set_self, get_or-set_ne,
}
use aggregated_order_book.Types.{PriceLevel, LevelChange, max_venues}
use aggregated_order_book.Book.Prices.{qty_at}
use aggregated_order_book.Book.Order.{StorageLess}
use aggregated_order_book.Book.Changes.{replay_at}
use aggregated_order_book.Merged.{MergedLevel}
use aggregated_order_book.Merged.Held.{held}
use aggregated_order_book.Merged.Unique.{IsMergedSide-unique}
use aggregated_order_book.Merge.{merge_loop}
use aggregated_order_book.Merge.Iters.{IsIter}
use aggregated_order_book.Merge.Loop.{total, IsMergeOf}
use aggregated_order_book.Merge.Whole.{merge_loop-IsMergeOf}
use aggregated_order_book.State.{apply_changes}
use aggregated_order_book.State.Change.{IsChange}
use aggregated_order_book.State.Delta.{replayed, apply_changes-IsMergedSide}

-- Iterators that the merge can take, with `room` for all their levels.
pub record Mergeable (t : StorageLess) (room : ℕ) (its : List (List PriceLevel)) : Type 0 where
  pub venues : length its ≤ max_venues
  pub iters : All (IsIter t) its
  pub fits : total its ≤ room

Mergeable-IsMergeOf :
    (t : StorageLess) (room : ℕ) (its : List (List PriceLevel))
    → Mergeable t room its
    → IsMergeOf t its (merge_loop t room its)
Mergeable-IsMergeOf t room its m = merge_loop-IsMergeOf t room its m.venues m.iters m.fits

replayed-set :
    (side : List MergedLevel) (its : List (List PriceLevel)) (it : List PriceLevel) (slot : ℕ)
    (cs : List LevelChange) (i p : ℕ)
    → slot < length its
    → ((j q : ℕ) → held side j q ≡ qty_at (get_or its j []) q)
    → ((q : ℕ) → replay_at cs q (qty_at (get_or its slot []) q) ≡ qty_at it q)
    → replayed side slot cs i p ≡ qty_at (get_or (set its slot it) i []) p
replayed-set side its it slot cs i p l h r = elim (Bool-cases (i == slot)) [
  | inl e ↦
      let here : get_or (set its slot it) i [] ≡ it =
        ap (λ x. get_or (set its slot it) x []) (ground (arith, e))
        ∙ get_or-set_self its slot it [] l in
      rw e (ap (replay_at cs p) (h slot p) ∙ r p ∙ sym (ap (λ x. qty_at x p) here))
  | inr e ↦
      let other : get_or (set its slot it) i [] ≡ get_or its i [] =
        get_or-set_ne its slot i it [] (λ x. ground (arith, e, x)) in
      rw e (h i p ∙ sym (ap (λ x. qty_at x p) other))
]

-- If the changes of venue `slot` lead from its levels to new ones, then applied to the merge of all
-- venues they give the merge with the new levels in its place.
pub apply_changes-merge_loop :
    (t : StorageLess) (room : ℕ) (its : List (List PriceLevel)) (it : List PriceLevel) (slot : ℕ)
    (cs : List LevelChange)
    → Mergeable t room its
    → Mergeable t room (set its slot it)
    → slot < length its
    → All (IsChange slot) cs
    → ((q : ℕ) → replay_at cs q (qty_at (get_or its slot []) q) ≡ qty_at it q)
    → (apply_changes t slot (merge_loop t room its) cs).0 ≡ merge_loop t room (set its slot it)
apply_changes-merge_loop t room its it slot cs m n l h r =
    let before_it = Mergeable-IsMergeOf t room its m in
    let after_it = Mergeable-IsMergeOf t room (set its slot it) n in
    let side = merge_loop t room its in
    let (ok, q) = apply_changes-IsMergedSide t slot side cs h before_it.side in
    IsMergedSide-unique t (apply_changes t slot side cs).0 (merge_loop t room (set its slot it)) ok
      after_it.side
      (λ i p.
        q i p
        ∙ replayed-set side its it slot cs i p l before_it.quantities r
        ∙ sym (after_it.quantities i p))
