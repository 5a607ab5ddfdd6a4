-- ===== src/Book/Turns.antt =====
-- The walk of `ApplySide` over the book and the delta, both best first: what it keeps, what it
-- rewrites, and how far it reads. Best first is the storage order flipped.
use aggregated_order_book.Base.{
  Bool, true, List, ◌∷◌, ◌≡◌, ◌≢◌, ◌∙◌, arith, ◌==◌, Bool-cases, inl, inr,
}
use aggregated_order_book.Types.{PriceLevel}
use aggregated_order_book.Book.Order.{
  StorageLess, storage_less, flip, less_flip, Order-cases, before, after, same,
}
use aggregated_order_book.Book.{Walk, walk, count_insert, count_erase, count_update}

-- One turn of the loop, as an equation for what it leaves.
pub data Turn (s : StorageLess) (c : Bool) (b : PriceLevel) (bs : List PriceLevel) (d : PriceLevel)
    (ds : List PriceLevel) (w : Walk) : Type 0 where
  absent :
      storage_less (flip s) d.price b.price ≡ true
      → d.qty ≡ 0
      → w ≡ walk s c (b ∷ bs) ds
      → Turn s c b bs d ds w
  insert :
      storage_less (flip s) d.price b.price ≡ true
      → d.qty ≢ 0
      → w ≡ count_insert c d (walk s c (b ∷ bs) ds)
      → Turn s c b bs d ds w
  pass :
      storage_less (flip s) b.price d.price ≡ true
      → w ≡ (let v = walk s c bs (d ∷ ds) in record v { seen = b ∷ v.seen })
      → Turn s c b bs d ds w
  erase :
      b.price ≡ d.price → d.qty ≡ 0 → w ≡ count_erase c b (walk s c bs ds) → Turn s c b bs d ds w
  update :
      b.price ≡ d.price
      → d.qty ≢ 0
      → w ≡ count_update c b d.qty (walk s c bs ds)
      → Turn s c b bs d ds w

pub walk-Turn :
    (s : StorageLess) (c : Bool) (b : PriceLevel) (bs : List PriceLevel) (d : PriceLevel)
    (ds : List PriceLevel)
    → Turn s c b bs d ds (walk s c (b ∷ bs) (d ∷ ds))
unfolding walk
walk-Turn s c b bs d ds = elim (Order-cases s b.price d.price) [
  | before e ↦ elim (Bool-cases (d.qty == 0)) [
    | inl z ↦ absent (less_flip s _ _ ∙ e) (ground arith) (rw (e, z))
    | inr z ↦ insert (less_flip s _ _ ∙ e) (ground arith) (rw (e, z))
  ]
  | after e f ↦ pass (less_flip s _ _ ∙ f) (rw (e, f))
  | same e f q ↦ elim (Bool-cases (d.qty == 0)) [
    | inl z ↦ erase q (ground arith) (rw (e, f, z))
    | inr z ↦ update q (ground arith) (rw (e, f, z))
  ]
]
