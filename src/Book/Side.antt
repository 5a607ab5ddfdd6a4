-- ===== src/Book/Side.antt =====
-- `ApplySide` as a whole: a side stays sorted and filled, and each price holds what the delta says
-- of it, or what it held before.
use aggregated_order_book.Base.{
  ℕ, Bool, false, List, [], ◌∷◌, ◌++◌, ◌≡◌, refl, ◌∙◌, subst, arith, if◌then◌else◌, ◌==◌, reverse,
  reverse-append, reverse-reverse, Bool-cases, inl, inr, ◌&&◌, length, length-reverse,
  take-append_length, drop-append_length, All-append, All-append_left, All-append_right,
}
use aggregated_order_book.Types.{PriceLevel}
use aggregated_order_book.Book.Prices.{
  qty_at, has_price, Distinct, NonZero, qty_at-reverse, has_price-reverse, qty_at-append,
  qty_at_absent,
}
use aggregated_order_book.Book.Order.{
  StorageLess, flip, flip-flip, Sorted, Across, Sorted-reverse, Sorted-append, Sorted-left,
  Sorted-right, Sorted-Across, Across-absent, Across-reverse, All-reverse,
}
use aggregated_order_book.Book.Merge.{
  overridden, qty_at-merge_region, Sorted-merge_region, NonZero-merge_region, All-merge_region,
}
use aggregated_order_book.Book.Passed.{
  written, Sorted-walk, NonZero-walk, Across-rest, qty_at-walk_absent, qty_at-walk_in_place,
}
use aggregated_order_book.Book.Resolve.{
  has_price-resolve_order, qty_at-resolve_order, Sorted-resolve_order,
}
use aggregated_order_book.Book.{
  Walk, walk, relocate, merge_region, resolve_order, finish_side, apply_side,
}

-- A side of the book: strictly sorted in storage order, with no empty level.
pub record IsValidSide (s : StorageLess) (side : List PriceLevel) : Type 0 where
  pub sorted : Sorted s side
  pub filled : NonZero side

-- `Relocate` on the side that the walk has written, with the region cut where the walk stopped.
relocate_lem :
    (s : StorageLess) (w : Walk) (delta : List PriceLevel)
    → (relocate s (reverse (written w)) (length w.rest) delta).0
      ≡ reverse w.rest ++ merge_region s (reverse w.seen) delta
unfolding relocate
relocate_lem s w delta = rw (
  reverse-append w.seen w.rest,
  ← length-reverse w.rest,
  take-append_length (reverse w.rest) (reverse w.seen),
  drop-append_length (reverse w.rest) (reverse w.seen),
)

unflip : (s : StorageLess) (ls : List PriceLevel) → Sorted (flip s) ls → Sorted s (reverse ls)
unflip s ls h = subst (λ t. Sorted t (reverse ls)) (flip-flip s) (Sorted-reverse (flip s) ls h)

module _ (s : StorageLess) (c : Bool) (side delta : List PriceLevel) (hs : Sorted s side)
    (hd : Sorted s delta) where
  w : Walk
  w = walk s c (reverse side) (reverse delta)

  Sorted-written : Sorted (flip s) (written w)
  unfolding w
  Sorted-written =
      Sorted-walk s (flip s) c (reverse side) (reverse delta) (Sorted-reverse s side hs)

  across : Across (flip s) (reverse delta) w.rest
  unfolding w
  across =
      Across-rest s c (reverse side) (reverse delta) (Sorted-reverse s side hs)
        (Sorted-reverse s delta hd)

  seen-Sorted : Sorted (flip s) w.seen
  seen-Sorted = Sorted-left (flip s) w.seen w.rest Sorted-written

  filled_written : NonZero side → NonZero (written w)
  unfolding w
  filled_written n = NonZero-walk s c (reverse side) (reverse delta) (All-reverse _ side n)

  written_absent :
      (p : ℕ) → has_price (reverse delta) p ≡ false → qty_at (written w) p ≡ qty_at (reverse side) p
  unfolding w
  written_absent p h = qty_at-walk_absent s c (reverse side) (reverse delta) p h

  in_place :
      (p : ℕ)
      → w.inserts ≡ 0
      → w.erases ≡ 0
      → qty_at (written w) p ≡ overridden (reverse side) (reverse delta) p
  unfolding w
  in_place p i x =
      qty_at-walk_in_place s c (reverse side) (reverse delta) p (Sorted-reverse s side hs)
        (Sorted-reverse s delta hd) i x

  Across-merge_region :
      (xs : List PriceLevel)
      → Across s xs (reverse w.seen)
      → Across s xs delta
      → Across s xs (merge_region s (reverse w.seen) delta)
  Across-merge_region [] a b = tt
  Across-merge_region (x ∷ xs) a b =
      (All-merge_region _ s (reverse w.seen) delta a.0 b.0, Across-merge_region xs a.1 b.1)

  relocated_qty :
      (p : ℕ)
      → qty_at (reverse w.rest ++ merge_region s (reverse w.seen) delta) p ≡ overridden side delta p
  relocated_qty p =
      let m = qty_at-merge_region s (reverse w.seen) delta p (unflip s w.seen seen-Sorted) hd in
      rw
        (
          qty_at-append (reverse w.rest) (merge_region s (reverse w.seen) delta) p,
          qty_at-reverse w.rest p,
          m,
          qty_at-reverse w.seen p,
        )
        (ground (
          arith,
          has_price-reverse delta p,
          Across-absent (flip s) (reverse delta) w.rest p across,
          qty_at_absent w.rest p,
          written_absent p,
          qty_at-append w.seen w.rest p,
          qty_at-reverse side p,
        ))

  -- Relocating the region leaves the whole side sorted.
  relocated-Sorted : Sorted s (reverse w.rest ++ merge_region s (reverse w.seen) delta)
  relocated-Sorted =
      Sorted-append s (reverse w.rest) (merge_region s (reverse w.seen) delta)
        (unflip s w.rest (Sorted-right (flip s) w.seen w.rest Sorted-written))
        (Sorted-merge_region s (reverse w.seen) delta (unflip s w.seen seen-Sorted) hd)
        (Across-merge_region (reverse w.rest)
          (Across-reverse s w.seen w.rest (Sorted-Across (flip s) w.seen w.rest Sorted-written))
          (subst (Across s (reverse w.rest)) (reverse-reverse delta)
            (Across-reverse s (reverse delta) w.rest across)))

  relocated_filled :
      NonZero side → NonZero (reverse w.rest ++ merge_region s (reverse w.seen) delta)
  relocated_filled n =
      All-append _ (reverse w.rest) (merge_region s (reverse w.seen) delta)
        (All-reverse _ w.rest (All-append_right _ w.seen w.rest (filled_written n)))
        (NonZero-merge_region s (reverse w.seen) delta
          (All-reverse _ w.seen (All-append_left _ w.seen w.rest (filled_written n))))

  finish_qty : (p : ℕ) → qty_at (finish_side s delta w).side p ≡ overridden side delta p
  unfolding finish_side
  finish_qty p = elim (Bool-cases (w.inserts == 0 && w.erases == 0)) [
    | inl e ↦
        rw (e, qty_at-reverse (written w) p)
          (in_place p (ground arith) (ground arith)
            ∙ ground
                (arith, has_price-reverse delta p, qty_at-reverse delta p, qty_at-reverse side p))
    | inr e ↦ rw (e, relocate_lem s w delta) (relocated_qty p)
  ]

  finish_valid : NonZero side → IsValidSide s (finish_side s delta w).side
  unfolding finish_side
  finish_valid n = elim (Bool-cases (w.inserts == 0 && w.erases == 0)) [
    | inl e ↦ rw e (record {
      sorted = unflip s (written w) Sorted-written;
      filled = All-reverse _ (written w) (filled_written n);
    })
    | inr e ↦
        rw (e, relocate_lem s w delta)
          (record { sorted = relocated-Sorted; filled = relocated_filled n })
  ]

-- On a side that is sorted and filled, with a delta that names no price twice, in any order:
-- afterwards each price that the delta names holds the delta's quantity (none, where that is 0), and
-- each other price holds what it held.
pub qty_at-apply_side :
    (s : StorageLess) (c : Bool) (side levels : List PriceLevel) (p : ℕ)
    → IsValidSide s side
    → Distinct levels
    → qty_at (apply_side s c side levels).side p
      ≡ (if has_price levels p then qty_at levels p else qty_at side p)
unfolding apply_side w
qty_at-apply_side s c side [] p v d = refl
qty_at-apply_side s c side (l ∷ ls) p v d =
    finish_qty s c side (resolve_order s (l ∷ ls)) v.sorted (Sorted-resolve_order s (l ∷ ls) d) p
    ∙ rw (has_price-resolve_order s (l ∷ ls) p, qty_at-resolve_order s (l ∷ ls) p)

-- `ApplySide` keeps a side strictly sorted and without empty levels, if the delta names no price
-- twice.
pub IsValidSide-apply_side :
    (s : StorageLess) (c : Bool) (side levels : List PriceLevel)
    → IsValidSide s side
    → Distinct levels
    → IsValidSide s (apply_side s c side levels).side
unfolding apply_side w
IsValidSide-apply_side s c side [] v d = v
IsValidSide-apply_side s c side (l ∷ ls) v d =
    finish_valid s c side (resolve_order s (l ∷ ls)) v.sorted (Sorted-resolve_order s (l ∷ ls) d)
      v.filled
