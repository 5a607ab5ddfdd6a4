-- ===== src/State/Refine.antt =====
-- `State::ApplyDepthDelta` against `State::FullRebuild`: the standing book after a venue's delta is
-- the book that a rebuild from the venues' books would give.
use aggregated_order_book.Base.{
  ℕ, ◌+◌, ◌^◌, ◌≤◌, ◌<◌, ◌≡◌, sym, ap, ap₂, subst, ◌∙◌, inl, inr, true, false, Option, some, List,
  [], ◌∷◌, reverse, arith, ◌==◌, Bool-cases, length, get_elem?, set, take, All, length-set, All-map,
  All-set,
}
use aggregated_order_book.Types.{PriceLevel, LevelChange, BookUpdate, VenueHealthArray, max_venues}
use aggregated_order_book.Book.{FlatOrderBook, bids_view, asks_view, apply_update}
use aggregated_order_book.Book.Prices.{qty_at, has_price, Distinct, qty_at-reverse, qty_at_absent}
use aggregated_order_book.Book.Order.{StorageLess, less, greater, Sorted, Sorted-Distinct}
use aggregated_order_book.Book.Changes.{replay_at, Honest}
use aggregated_order_book.Book.Transition.{IsTransition}
use aggregated_order_book.Book.Update.{IsWellFormed, apply_update_delta, apply_update-IsValidBook}
use aggregated_order_book.Bbo.{admits}
use aggregated_order_book.Merge.{FlatBookArray, merge_side, FlatBookArray, views, merge_books}
use aggregated_order_book.Merge.Iters.{IsIter}
use aggregated_order_book.Merge.Loop.{total}
use aggregated_order_book.Merge.Books.{
  length-begin_all, begin_all-IsIter, begin_all-at, begin_all-set, iterators, merge_side-merge_loop,
  IsUint, IsSound, bids_view-IsIter, asks_view-IsIter,
}
use aggregated_order_book.State.{
  State, apply_changes, apply_depth_delta, full_rebuild, unbounded_depth,
}
use aggregated_order_book.State.Change.{IsChange}
use aggregated_order_book.State.Side.{Mergeable, apply_changes-merge_loop}

-- The venues' levels fit the depth of a rebuild.
pub record Fits (health : Option VenueHealthArray) (n : ℕ) (books : FlatBookArray) : Type 0 where
  pub bids : total (iterators bids_view health n books) ≤ unbounded_depth
  pub asks : total (iterators asks_view health n books) ≤ unbounded_depth

module _ (health : Option VenueHealthArray) (view : FlatOrderBook → List PriceLevel)
    (t : StorageLess) (ok : (b : FlatOrderBook) → IsSound (some b) → IsIter t (view b)) where
  iterators-Mergeable :
      (n depth : ℕ) (books : FlatBookArray)
      → length books ≤ max_venues
      → All IsSound books
      → total (iterators view health n books) ≤ depth
      → Mergeable t depth (iterators view health n books)
  iterators-Mergeable n depth books h k f = record {
    venues = omega (arith, h, length-begin_all health view t ok 0 n books);
    iters = begin_all-IsIter health view t ok 0 n books k;
    fits = f;
  }

  side_refines :
      (n depth : ℕ) (books : FlatBookArray) (slot : ℕ) (old new : FlatOrderBook)
      (cs : List LevelChange)
      → length books ≤ max_venues
      → All IsSound books
      → IsSound (some new)
      → get_elem? (take n books) slot ≡ some (some old)
      → admits health slot ≡ true
      → total (iterators view health n books) ≤ depth
      → total (iterators view health n (set books slot (some new))) ≤ depth
      → All (IsChange slot) cs
      → ((q : ℕ) → replay_at cs q (qty_at (view old) q) ≡ qty_at (view new) q)
      → (apply_changes t slot (merge_side t health depth (views view (take n books))) cs).0
        ≡ merge_side t health depth (views view (take n (set books slot (some new))))
  side_refines n depth books slot old new cs h k kn e a f f' c r =
      let its = iterators view health n books in
      let b : admits health (0 + slot) ≡ true = ap (admits health) (omega arith) ∙ a in
      let (at, l) = begin_all-at health view t ok 0 n books slot old e b in
      let replaced = begin_all-set health view t ok 0 n books slot new b in
      let after_it : Mergeable t depth (set its slot (view new)) =
        subst (Mergeable t depth) replaced (
          iterators-Mergeable n depth (set books slot (some new))
            (omega (arith, h, length-set books slot (some new)))
            (All-set IsSound books slot (some new) k kn) f') in
      rw
        (
          merge_side-merge_loop t view health depth n books,
          merge_side-merge_loop t view health depth n (set books slot (some new)),
          replaced,
        )
        (apply_changes-merge_loop t depth its (view new) slot cs
          (iterators-Mergeable n depth books h k f) after_it l c
          (λ q. ap (λ x. replay_at cs q (qty_at x q)) at ∙ r q))

-- A sorted side's quantity at any price is one of its levels', or 0.
IsUint-qty_at : (ls : List PriceLevel) (p : ℕ) → Distinct ls → IsUint ls → qty_at ls p < 2 ^ 64
IsUint-qty_at [] p d h = omega arith
IsUint-qty_at (l ∷ ls) p d h = elim (Bool-cases (l.price == p)) [
  | inl e ↦
      let none_left : qty_at ls p ≡ 0 =
        qty_at_absent ls p (subst (λ x. has_price ls x ≡ false) (ground (arith, e)) d.0) in
      rw e (omega (arith, h.0, none_left))
  | inr e ↦ rw e (omega (arith, IsUint-qty_at ls p d.1 h.1))
]

transition-IsChange :
    (s : StorageLess) (old new : List PriceLevel) (cs : List LevelChange) (slot : ℕ)
    → slot < max_venues
    → Sorted s new
    → IsUint new
    → IsTransition s old new cs
    → All (IsChange slot) cs
transition-IsChange s old new cs slot h d u r =
    All-map (Honest (qty_at old) (qty_at new)) (IsChange slot)
      (λ c k. (h, omega (arith, k.1, IsUint-qty_at new c.price (Sorted-Distinct s new d) u))) cs
      r.exact

-- The changes between two books are changes between their views, best first.
view_complete :
    (s : StorageLess) (old new : List PriceLevel) (cs : List LevelChange) (q : ℕ)
    → IsTransition s old new cs
    → replay_at cs q (qty_at (reverse old) q) ≡ qty_at (reverse new) q
view_complete s old new cs q r =
    ap (replay_at cs q) (qty_at-reverse old q) ∙ r.complete q ∙ sym (qty_at-reverse new q)

-- A sound book that the standing state is built from, and the venue's next message.
pub record IsStep (health : Option VenueHealthArray) (n : ℕ) (books : FlatBookArray) (slot : ℕ)
    (old : FlatOrderBook) (u : BookUpdate) : Type 0 where
  pub size : length books ≤ max_venues
  pub sound : All IsSound books
  pub old_sound : IsSound (some old)
  pub stands : get_elem? (take n books) slot ≡ some (some old)
  pub admitted : admits health slot ≡ true
  pub delta : u.is_snapshot ≡ false
  pub well_formed : IsWellFormed u
  pub new_bids : IsUint (apply_update old u).bids
  pub new_asks : IsUint (apply_update old u).asks
  pub fits : Fits health n books
  pub new_fits : Fits health n (set books slot (some (apply_update old u)))

-- For a state rebuilt from sound books, and a well-formed delta of an admitted venue, where the books
-- before and after the delta fit the depth of a rebuild: repairing the state by the changes that the
-- venue's book reports for the delta gives the same consolidated book, level by level, as a full
-- rebuild from the books after the delta.
pub apply_depth_delta-full_rebuild :
    (s : State) (health : Option VenueHealthArray) (n : ℕ) (books : FlatBookArray) (slot : ℕ)
    (old : FlatOrderBook) (u : BookUpdate)
    → IsStep health n books slot old u
    → (apply_depth_delta
        (full_rebuild s books n health)
        slot
        (apply_update old u).last_bid_changes
        (apply_update old u).last_ask_changes).book
      ≡ (full_rebuild s (set books slot (some (apply_update old u))) n health).book
unfolding apply_depth_delta full_rebuild merge_books bids_view asks_view
apply_depth_delta-full_rebuild s health n books slot old u h =
    let new = apply_update old u in
    let valid = apply_update-IsValidBook old u h.old_sound.0 h.well_formed in
    let sound : IsSound (some new) = (valid, h.new_bids, h.new_asks) in
    let r = apply_update_delta old u h.delta h.old_sound.0 h.well_formed in
    let (at, l) =
      begin_all-at health bids_view greater bids_view-IsIter 0 n books slot old h.stands
        (ap (admits health) (omega arith) ∙ h.admitted) in
    let small : slot < max_venues =
      omega
        (arith, l, h.size, length-begin_all health bids_view greater bids_view-IsIter 0 n books) in
    let b =
      side_refines health bids_view greater bids_view-IsIter n unbounded_depth books slot old new
        new.last_bid_changes h.size h.sound sound h.stands h.admitted h.fits.bids h.new_fits.bids
        (transition-IsChange less old.bids new.bids new.last_bid_changes slot small
          valid.bids.sorted h.new_bids r.bids)
        (λ q. view_complete less old.bids new.bids new.last_bid_changes q r.bids) in
    let a =
      side_refines health asks_view less asks_view-IsIter n unbounded_depth books slot old new
        new.last_ask_changes h.size h.sound sound h.stands h.admitted h.fits.asks h.new_fits.asks
        (transition-IsChange greater old.asks new.asks new.last_ask_changes slot small
          valid.asks.sorted h.new_asks r.asks)
        (λ q. view_complete greater old.asks new.asks new.last_ask_changes q r.asks) in
    ap₂ (λ x y. record s.book { bids = x; asks = y }) b a
