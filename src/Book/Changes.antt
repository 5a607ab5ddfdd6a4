-- ===== src/Book/Changes.antt =====
-- The change lists of `ApplySide`, the input of the incremental consolidated merge.
use aggregated_order_book.Base.{
  ℕ, ◌+◌, true, List, [], ◌∷◌, ◌≡◌, ◌≢◌, refl, ◌∙◌, arith, if◌then◌else◌, ◌==◌, Bool-cases, ◌⊎◌,
  inl, inr, All,
}
use aggregated_order_book.Types.{PriceLevel, LevelChange}
use aggregated_order_book.Book.Prices.{qty_at, qty_at_absent}
use aggregated_order_book.Book.Order.{
  StorageLess, storage_less, flip, Before, Sorted, Before-trans, Before-absent,
}
use aggregated_order_book.Book.Merge.{overridden}
use aggregated_order_book.Book.Turns.{walk-Turn, absent, insert, pass, erase, update}
use aggregated_order_book.Book.{Walk, walk, walk_rest, count_update}

-- The quantity at `p` after the changes, from the one before them.
abbrev pub replay_at : List LevelChange → ℕ → ℕ → ℕ
replay_at [] p q = q
replay_at (c ∷ cs) p q = replay_at cs p (if c.price == p then c.new_qty else q)

-- Every change stands at a price that ranks behind `p`.
abbrev pub ChangesBehind : StorageLess → ℕ → List LevelChange → Type 0
ChangesBehind t p = All (λ c. storage_less t p c.price ≡ true)

-- Best first, no price twice.
abbrev pub ChangesSorted : StorageLess → List LevelChange → Type 0
ChangesSorted t [] = Unit
ChangesSorted t (c ∷ cs) = ChangesBehind t c.price cs × ChangesSorted t cs

-- A change with the quantities before and after it, which differ.
abbrev pub Honest : (ℕ → ℕ) → (ℕ → ℕ) → LevelChange → Type 0
Honest old new c = (c.old_qty ≡ old c.price) × (c.new_qty ≡ new c.price) × (c.old_qty ≢ c.new_qty)

pub update_changes :
    (b : PriceLevel) (q : ℕ) (w : Walk)
    → ((b.qty ≡ q) × ((count_update true b q w).changes ≡ w.changes))
      ⊎ ((b.qty ≢ q)
          × ((count_update true b q w).changes
              ≡ record { price = b.price; old_qty = b.qty; new_qty = q } ∷ w.changes))
update_changes b q w = elim (Bool-cases (b.qty == q)) [
  | inl e ↦ inl (ground arith, rw e)
  | inr e ↦ inr (ground arith, rw e)
]

walk_rest-Behind :
    (t : StorageLess) (p : ℕ) (ds : List PriceLevel)
    → Before t p ds
    → ChangesBehind t p (walk_rest true ds).changes
unfolding walk_rest
walk_rest-Behind t p [] h = tt
walk_rest-Behind t p (d ∷ ds) h = elim (Bool-cases (d.qty == 0)) [
  | inl e ↦ rw e (walk_rest-Behind t p ds h.1)
  | inr e ↦ rw e (h.0, walk_rest-Behind t p ds h.1)
]

pub walk-Behind :
    (s t : StorageLess) (p : ℕ) (bs ds : List PriceLevel)
    → Before t p ds
    → ChangesBehind t p (walk s true bs ds).changes
unfolding walk
walk-Behind s t p [] ds h = walk_rest-Behind t p ds h
walk-Behind s t p (b ∷ bs) [] h = tt
walk-Behind s t p (b ∷ bs) (d ∷ ds) h = elim (walk-Turn s true b bs d ds) [
  | absent o z e ↦ rw e (walk-Behind s t p (b ∷ bs) ds h.1)
  | insert o z e ↦ rw e (h.0, walk-Behind s t p (b ∷ bs) ds h.1)
  | pass o e ↦ rw e (walk-Behind s t p bs (d ∷ ds) h)
  | erase o z e ↦ rw (e, o) (h.0, walk-Behind s t p bs ds h.1)
  | update o z e ↦ elim (update_changes b d.qty (walk s true bs ds)) [
    | inl (_, f) ↦ rw (e, f) (walk-Behind s t p bs ds h.1)
    | inr (_, f) ↦ rw (e, f, o) (h.0, walk-Behind s t p bs ds h.1)
  ]
]

walk_rest-ChangesSorted :
    (t : StorageLess) (ds : List PriceLevel)
    → Sorted t ds
    → ChangesSorted t (walk_rest true ds).changes
unfolding walk_rest
walk_rest-ChangesSorted t [] h = tt
walk_rest-ChangesSorted t (d ∷ ds) h = elim (Bool-cases (d.qty == 0)) [
  | inl e ↦ rw e (walk_rest-ChangesSorted t ds h.1)
  | inr e ↦ rw e (walk_rest-Behind t d.price ds h.0, walk_rest-ChangesSorted t ds h.1)
]

pub walk-ChangesSorted :
    (s t : StorageLess) (bs ds : List PriceLevel)
    → Sorted t ds
    → ChangesSorted t (walk s true bs ds).changes
unfolding walk
walk-ChangesSorted s t [] ds h = walk_rest-ChangesSorted t ds h
walk-ChangesSorted s t (b ∷ bs) [] h = tt
walk-ChangesSorted s t (b ∷ bs) (d ∷ ds) h = elim (walk-Turn s true b bs d ds) [
  | absent o z e ↦ rw e (walk-ChangesSorted s t (b ∷ bs) ds h.1)
  | insert o z e ↦
      rw e (walk-Behind s t d.price (b ∷ bs) ds h.0, walk-ChangesSorted s t (b ∷ bs) ds h.1)
  | pass o e ↦ rw e (walk-ChangesSorted s t bs (d ∷ ds) h)
  | erase o z e ↦ rw (e, o) (walk-Behind s t d.price bs ds h.0, walk-ChangesSorted s t bs ds h.1)
  | update o z e ↦ elim (update_changes b d.qty (walk s true bs ds)) [
    | inl (_, f) ↦ rw (e, f) (walk-ChangesSorted s t bs ds h.1)
    | inr (_, f) ↦
        rw (e, f, o) (walk-Behind s t d.price bs ds h.0, walk-ChangesSorted s t bs ds h.1)
  ]
]

-- Replaying changes that stand behind a price leaves that price alone.
pub replay_behind :
    (t : StorageLess) (p q : ℕ) (cs : List LevelChange)
    → ChangesBehind t p cs
    → replay_at cs p q ≡ q
replay_behind t p q [] h = refl
replay_behind t p q (c ∷ cs) h = ground (arith, replay_behind t p q cs h.1)

walk_rest-replay :
    (s : StorageLess) (ds : List PriceLevel) (p : ℕ)
    → Sorted s ds
    → replay_at (walk_rest true ds).changes p 0 ≡ qty_at ds p
unfolding walk_rest
walk_rest-replay s [] p h = refl
walk_rest-replay s (d ∷ ds) p h = elim (Bool-cases (d.qty == 0)) [
  | inl e ↦ rw e (ground (arith, walk_rest-replay s ds p h.1))
  | inr e ↦ rw e (
      ground (
        arith,
        walk_rest-replay s ds p h.1,
        replay_behind s d.price d.qty _ (walk_rest-Behind s d.price ds h.0),
        qty_at_absent ds p,
        Before-absent s d.price ds h.0,
      ))
]

-- The changes lead each price of the book to what the delta makes of it.
pub walk-replay :
    (s : StorageLess) (bs ds : List PriceLevel) (p : ℕ)
    → Sorted (flip s) bs
    → Sorted (flip s) ds
    → replay_at (walk s true bs ds).changes p (qty_at bs p) ≡ overridden bs ds p
unfolding walk
walk-replay s [] ds p hb hd = walk_rest-replay (flip s) ds p hd ∙ ground (arith, qty_at_absent ds p)
walk-replay s (b ∷ bs) [] p hb hd = refl
walk-replay s (b ∷ bs) (d ∷ ds) p hb hd = elim (walk-Turn s true b bs d ds) [
  | absent o z e ↦ rw e (
      ground (
        arith,
        walk-replay s (b ∷ bs) ds p hb hd.1,
        qty_at_absent (b ∷ bs) p,
        qty_at_absent ds p,
        Before-absent (flip s) d.price ds hd.0,
        Before-absent (flip s) d.price (b ∷ bs)
            (o, Before-trans (flip s) d.price b.price bs o hb.0),
      ))
  | insert o z e ↦ rw e (
      ground (
        arith,
        walk-replay s (b ∷ bs) ds p hb hd.1,
        replay_behind (flip s) d.price d.qty _ (walk-Behind s (flip s) d.price (b ∷ bs) ds hd.0),
        qty_at_absent ds p,
        Before-absent (flip s) d.price ds hd.0,
      ))
  | pass o e ↦ rw e (
      ground (
        arith,
        walk-replay s bs (d ∷ ds) p hb.1 hd,
        replay_behind (flip s) b.price (b.qty + qty_at bs b.price) _ (
            walk-Behind s (flip s) b.price bs (d ∷ ds)
              (o, Before-trans (flip s) b.price d.price ds o hd.0)),
        Before-absent (flip s) b.price (d ∷ ds)
            (o, Before-trans (flip s) b.price d.price ds o hd.0),
      ))
  | erase o z e ↦ rw e (
      ground (
        arith,
        walk-replay s bs ds p hb.1 hd.1,
        replay_behind (flip s) d.price 0 _ (walk-Behind s (flip s) d.price bs ds hd.0),
        qty_at_absent ds p,
        Before-absent (flip s) d.price ds hd.0,
      ))
  | update o z e ↦ elim (update_changes b d.qty (walk s true bs ds)) [
    | inl (q, f) ↦
        rw (e, f)
          (ground (
            arith,
            walk-replay s bs ds p hb.1 hd.1,
            replay_behind (flip s) d.price (d.qty + qty_at bs d.price) _
                (walk-Behind s (flip s) d.price bs ds hd.0),
            qty_at_absent ds p,
            qty_at_absent bs p,
            Before-absent (flip s) b.price bs hb.0,
            Before-absent (flip s) d.price ds hd.0,
          ))
    | inr (q, f) ↦
        rw (e, f)
          (ground (
            arith,
            walk-replay s bs ds p hb.1 hd.1,
            replay_behind (flip s) d.price d.qty _ (walk-Behind s (flip s) d.price bs ds hd.0),
            qty_at_absent ds p,
            Before-absent (flip s) d.price ds hd.0,
          ))
  ]
]
