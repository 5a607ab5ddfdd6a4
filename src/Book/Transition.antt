-- ===== src/Book/Transition.antt =====
-- The change list of one `ApplySide` is exactly the difference between the two sides.
use aggregated_order_book.Base.{
  ℕ, true, false, List, [], ◌∷◌, ◌≡◌, ◌≢◌, refl, sym, ◌∙◌, arith, if◌then◌else◌, ◌==◌, reverse,
  Bool-cases, inl, inr, All,
}
use aggregated_order_book.Types.{PriceLevel, LevelChange}
use aggregated_order_book.Book.Prices.{
  qty_at, has_price, Distinct, NonZero, qty_at-reverse, has_price-reverse, qty_at_absent,
}
use aggregated_order_book.Book.Order.{
  StorageLess, flip, Sorted, Before-trans, Before-absent, Sorted-reverse, All-reverse,
}
use aggregated_order_book.Book.Merge.{overridden}
use aggregated_order_book.Book.Turns.{walk-Turn, absent, insert, pass, erase, update}
use aggregated_order_book.Book.Resolve.{
  has_price-resolve_order, qty_at-resolve_order, Sorted-resolve_order,
}
use aggregated_order_book.Book.Side.{IsValidSide, qty_at-apply_side}
use aggregated_order_book.Book.Changes.{
  replay_at, ChangesBehind, ChangesSorted, Honest, update_changes, walk-Behind, walk-ChangesSorted,
  walk-replay, replay_behind,
}
use aggregated_order_book.Book.{Walk, walk, walk_rest, finish_side, resolve_order, apply_side}

-- A change that starts from the quantity of the book and moves it.
abbrev Moves : List PriceLevel → LevelChange → Type 0
Moves bs c = (c.old_qty ≡ qty_at bs c.price) × (c.old_qty ≢ c.new_qty)

-- A level ahead of every change is no part of them.
Moves-skip :
    (t : StorageLess) (b : PriceLevel) (bs : List PriceLevel) (cs : List LevelChange)
    → ChangesBehind t b.price cs
    → All (Moves bs) cs
    → All (Moves (b ∷ bs)) cs
Moves-skip t b bs [] h a = tt
Moves-skip t b bs (c ∷ cs) h a = ((ground (arith, h.0, a.0.0), a.0.1), Moves-skip t b bs cs h.1 a.1)

walk_rest-Moves : (ds : List PriceLevel) → All (Moves []) (walk_rest true ds).changes
unfolding walk_rest
walk_rest-Moves [] = tt
walk_rest-Moves (d ∷ ds) = elim (Bool-cases (d.qty == 0)) [
  | inl e ↦ rw e (walk_rest-Moves ds)
  | inr e ↦ rw e ((refl, ground arith), walk_rest-Moves ds)
]

walk-Moves :
    (s : StorageLess) (bs ds : List PriceLevel)
    → Sorted (flip s) bs
    → NonZero bs
    → Sorted (flip s) ds
    → All (Moves bs) (walk s true bs ds).changes
unfolding walk
walk-Moves s [] ds hb n hd = walk_rest-Moves ds
walk-Moves s (b ∷ bs) [] hb n hd = tt
walk-Moves s (b ∷ bs) (d ∷ ds) hb n hd = elim (walk-Turn s true b bs d ds) [
  | absent o z e ↦ rw e (walk-Moves s (b ∷ bs) ds hb n hd.1)
  | insert o z e ↦
      let front : has_price (b ∷ bs) d.price ≡ false =
        Before-absent (flip s) d.price (b ∷ bs)
          (o, Before-trans (flip s) d.price b.price bs o hb.0) in
      rw e (
        (sym (qty_at_absent (b ∷ bs) d.price front), λ q. z (sym q)),
        walk-Moves s (b ∷ bs) ds hb n hd.1,
      )
  | pass o e ↦ rw e (
      Moves-skip (flip s) b bs _
        (walk-Behind s (flip s) b.price bs (d ∷ ds)
          (o, Before-trans (flip s) b.price d.price ds o hd.0))
        (walk-Moves s bs (d ∷ ds) hb.1 n.1 hd))
  | erase o z e ↦ rw e ((own, n.0), later o (walk-Moves s bs ds hb.1 n.1 hd.1))
  | update o z e ↦ elim (update_changes b d.qty (walk s true bs ds)) [
    | inl (q, f) ↦ rw (e, f) (later o (walk-Moves s bs ds hb.1 n.1 hd.1))
    | inr (q, f) ↦ rw (e, f) ((own, q), later o (walk-Moves s bs ds hb.1 n.1 hd.1))
  ]
]
  where
    later :
        b.price ≡ d.price
        → All (Moves bs) (walk s true bs ds).changes
        → All (Moves (b ∷ bs)) (walk s true bs ds).changes
    later o = Moves-skip (flip s) b bs _ (walk-Behind s (flip s) b.price bs ds (rw o hd.0))

    own : b.qty ≡ qty_at (b ∷ bs) b.price
    own = ground (arith, qty_at_absent bs b.price, Before-absent (flip s) b.price bs hb.0)

-- In a sorted list of changes each price ends at the quantity of its own change, from any start.
Honest-All :
    (t : StorageLess) (old start new : ℕ → ℕ) (cs : List LevelChange)
    → ChangesSorted t cs
    → ((p : ℕ) → replay_at cs p (start p) ≡ new p)
    → All (λ c. (c.old_qty ≡ old c.price) × (c.old_qty ≢ c.new_qty)) cs
    → All (Honest old new) cs
Honest-All t old start new [] s r h = tt
Honest-All t old start new (c ∷ cs) s r h = (
  (h.0.0, ground (arith, r c.price, replay_behind t c.price c.new_qty cs s.0), h.0.1),
  Honest-All t old (λ p. if c.price == p then c.new_qty else start p) new cs s.1 r h.1,
)

-- The changes turn the old side into the new one.
pub record IsTransition (s : StorageLess) (old new : List PriceLevel) (cs : List LevelChange)
    : Type 0 where
  pub ordered : ChangesSorted (flip s) cs
  pub exact : All (Honest (qty_at old) (qty_at new)) cs
  pub complete : (p : ℕ) → replay_at cs p (qty_at old p) ≡ qty_at new p

changes-finish_side :
    (s : StorageLess) (delta : List PriceLevel) (w : Walk)
    → (finish_side s delta w).changes ≡ w.changes
unfolding finish_side
changes-finish_side s delta w = ground arith

All-equal {κ} :
    (P Q : LevelChange → Type κ) (cs : List LevelChange)
    → ((c : LevelChange) → P c → Q c)
    → All P cs
    → All Q cs
All-equal P Q [] f h = tt
All-equal P Q (c ∷ cs) f h = (f c h.0, All-equal P Q cs f h.1)

module _ (s : StorageLess) (side delta : List PriceLevel) (v : IsValidSide s side)
    (hd : Sorted s delta) where
  w : Walk
  w = walk s true (reverse side) (reverse delta)

  walk_ordered : ChangesSorted (flip s) w.changes
  unfolding w
  walk_ordered =
      walk-ChangesSorted s (flip s) (reverse side) (reverse delta) (Sorted-reverse s delta hd)

  walk_complete : (p : ℕ) → replay_at w.changes p (qty_at side p) ≡ overridden side delta p
  unfolding w
  walk_complete p =
      let r =
        walk-replay s (reverse side) (reverse delta) p (Sorted-reverse s side v.sorted)
          (Sorted-reverse s delta hd) in
      ground (arith, r, qty_at-reverse side p, qty_at-reverse delta p, has_price-reverse delta p)

  walk-Moves_side : All (Moves side) w.changes
  unfolding w
  walk-Moves_side =
      All-equal _ _ w.changes (λ c m. (m.0 ∙ qty_at-reverse side c.price, m.1))
        (walk-Moves s (reverse side) (reverse delta) (Sorted-reverse s side v.sorted)
          (All-reverse _ side v.filled) (Sorted-reverse s delta hd))

no_changes : (s : StorageLess) (side : List PriceLevel) → IsTransition s side side []
no_changes s side = record { ordered = tt; exact = tt; complete = λ p. refl }

-- On a side that is sorted and filled, with a delta that names no price twice: the changes come best
-- first, no price twice; each holds the quantity of its price before and after, which differ; and
-- replaying them gives every price, named or not, its new quantity.
pub apply_side-IsTransition :
    (s : StorageLess) (side levels : List PriceLevel)
    → IsValidSide s side
    → Distinct levels
    → IsTransition s side
        (apply_side s true side levels).side
        (apply_side s true side levels).changes
unfolding apply_side w
apply_side-IsTransition s side [] v d = no_changes s side
apply_side-IsTransition s side (l ∷ ls) v d =
    rw (changes-finish_side s delta (w s side delta v hd))
      (record { ordered = walk_ordered s side delta v hd; exact = exact; complete = complete })
  where
    delta : List PriceLevel
    delta = resolve_order s (l ∷ ls)

    hd : Sorted s delta
    hd = Sorted-resolve_order s (l ∷ ls) d

    complete :
        (p : ℕ)
        → replay_at (w s side delta v hd).changes p (qty_at side p)
          ≡ qty_at (apply_side s true side (l ∷ ls)).side p
    complete p =
        walk_complete s side delta v hd p
        ∙ rw (has_price-resolve_order s (l ∷ ls) p, qty_at-resolve_order s (l ∷ ls) p)
            (sym (qty_at-apply_side s true side (l ∷ ls) p v d))

    exact :
        All
          (Honest (qty_at side) (qty_at (apply_side s true side (l ∷ ls)).side))
          (w s side delta v hd).changes
    exact =
        Honest-All (flip s) (qty_at side) (qty_at side) _ _ (walk_ordered s side delta v hd)
          complete (walk-Moves_side s side delta v hd)
