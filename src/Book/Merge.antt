-- ===== src/Book/Merge.antt =====
-- The merge of `Relocate`: what the merged region holds at each price, and that it stays sorted.
use aggregated_order_book.Base.{
  ℕ, ◌+◌, List, [], ◌∷◌, ◌≡◌, refl, arith, if◌then◌else◌, ◌==◌, All, Bool-cases, inl, inr,
}
use aggregated_order_book.Types.{PriceLevel}
use aggregated_order_book.Book.Prices.{qty_at, has_price, NonZero, qty_at_absent}
use aggregated_order_book.Book.Order.{
  StorageLess, Before, Sorted, Before-trans, Before-absent, Order-cases, before, after, same,
}
use aggregated_order_book.Book.{push_nonzero, push_rest, merge_region}

qty_at-push_rest : (ds : List PriceLevel) (p : ℕ) → qty_at (push_rest ds) p ≡ qty_at ds p
unfolding push_rest
qty_at-push_rest [] p = refl
qty_at-push_rest (d ∷ ds) p = ground (arith, qty_at-push_rest ds p)

All-push_nonzero {κ} :
    (P : PriceLevel → Type κ) (l : PriceLevel) (ls : List PriceLevel)
    → P l
    → All P ls
    → All P (push_nonzero l ls)
All-push_nonzero P l ls h k = elim (Bool-cases (l.qty == 0)) [
  | inl e ↦ rw e k
  | inr e ↦ rw e (h, k)
]

Sorted-push_nonzero :
    (s : StorageLess) (l : PriceLevel) (ls : List PriceLevel)
    → Before s l.price ls
    → Sorted s ls
    → Sorted s (push_nonzero l ls)
Sorted-push_nonzero s l ls h k = elim (Bool-cases (l.qty == 0)) [
  | inl e ↦ rw e k
  | inr e ↦ rw e (h, k)
]

NonZero-push_nonzero :
    (l : PriceLevel) (ls : List PriceLevel) → NonZero ls → NonZero (push_nonzero l ls)
NonZero-push_nonzero l ls k = ground arith

All-push_rest {κ} :
    (P : PriceLevel → Type κ) (ds : List PriceLevel) → All P ds → All P (push_rest ds)
unfolding push_rest
All-push_rest P [] h = tt
All-push_rest P (d ∷ ds) h = All-push_nonzero P d _ h.0 (All-push_rest P ds h.1)

Sorted-push_rest : (s : StorageLess) (ds : List PriceLevel) → Sorted s ds → Sorted s (push_rest ds)
unfolding push_rest
Sorted-push_rest s [] h = tt
Sorted-push_rest s (d ∷ ds) h =
    Sorted-push_nonzero s d _ (All-push_rest _ ds h.0) (Sorted-push_rest s ds h.1)

NonZero-push_rest : (ds : List PriceLevel) → NonZero (push_rest ds)
unfolding push_rest
NonZero-push_rest [] = tt
NonZero-push_rest (d ∷ ds) = ground (arith, NonZero-push_rest ds)

-- The value at `p` of a book overridden by a delta.
abbrev pub overridden : List PriceLevel → List PriceLevel → ℕ → ℕ
overridden bs ds p = if has_price ds p then qty_at ds p else qty_at bs p

-- A book level that ranks before the rest of both lists stays as it is.
pub overridden_keep :
    (s : StorageLess) (b : PriceLevel) (bs ds : List PriceLevel) (p x : ℕ)
    → Before s b.price ds
    → x ≡ overridden bs ds p
    → (if b.price == p then b.qty else 0) + x ≡ overridden (b ∷ bs) ds p
overridden_keep s b bs ds p x h e = ground (arith, Before-absent s b.price ds h, qty_at_absent ds p)

-- A new price is taken from the delta.
pub overridden_new :
    (s : StorageLess) (d : PriceLevel) (bs ds : List PriceLevel) (p x : ℕ)
    → Before s d.price bs
    → Before s d.price ds
    → x ≡ overridden bs ds p
    → (if d.price == p then d.qty else 0) + x ≡ overridden bs (d ∷ ds) p
overridden_new s d bs ds p x h k e = ground (
  arith,
  Before-absent s d.price bs h,
  Before-absent s d.price ds k,
  qty_at_absent bs p,
  qty_at_absent ds p,
)

-- A price of both is replaced.
pub overridden_replace :
    (s : StorageLess) (b d : PriceLevel) (bs ds : List PriceLevel) (p x : ℕ)
    → b.price ≡ d.price
    → Before s d.price bs
    → Before s d.price ds
    → x ≡ overridden bs ds p
    → (if d.price == p then d.qty else 0) + x ≡ overridden (b ∷ bs) (d ∷ ds) p
overridden_replace s b d bs ds p x q h k e = ground (
  arith,
  Before-absent s d.price bs h,
  Before-absent s d.price ds k,
  qty_at_absent bs p,
  qty_at_absent ds p,
)

qty_at-push_nonzero :
    (l : PriceLevel) (ls : List PriceLevel) (p : ℕ)
    → qty_at (push_nonzero l ls) p ≡ (if l.price == p then l.qty else 0) + qty_at ls p
qty_at-push_nonzero l ls p = ground arith

-- The delta's quantity where the delta names the price, the book's everywhere else.
pub qty_at-merge_region :
    (s : StorageLess) (bs ds : List PriceLevel) (p : ℕ)
    → Sorted s bs
    → Sorted s ds
    → qty_at (merge_region s bs ds) p ≡ overridden bs ds p
unfolding merge_region
qty_at-merge_region s [] ds p hb hd = ground (arith, qty_at-push_rest ds p, qty_at_absent ds p)
qty_at-merge_region s (b ∷ bs) [] p hb hd = refl
qty_at-merge_region s (b ∷ bs) (d ∷ ds) p hb hd = elim (Order-cases s b.price d.price) [
  | before e ↦ rw e (
      overridden_keep s b bs (d ∷ ds) p _ (e, Before-trans s b.price d.price ds e hd.0)
        (qty_at-merge_region s bs (d ∷ ds) p hb.1 hd))
  | after e f ↦
      rw (e, f, qty_at-push_nonzero)
        (overridden_new s d (b ∷ bs) ds p _ (f, Before-trans s d.price b.price bs f hb.0) hd.0
          (qty_at-merge_region s (b ∷ bs) ds p hb hd.1))
  | same e f q ↦
      rw (e, f, qty_at-push_nonzero)
        (overridden_replace s b d bs ds p _ q (rw (← q) hb.0) hd.0
          (qty_at-merge_region s bs ds p hb.1 hd.1))
]

pub All-merge_region {κ} :
    (P : PriceLevel → Type κ) (s : StorageLess) (bs ds : List PriceLevel)
    → All P bs
    → All P ds
    → All P (merge_region s bs ds)
unfolding merge_region
All-merge_region P s [] ds hb hd = All-push_rest P ds hd
All-merge_region P s (b ∷ bs) [] hb hd = hb
All-merge_region P s (b ∷ bs) (d ∷ ds) hb hd = elim (Order-cases s b.price d.price) [
  | before e ↦ rw e (hb.0, All-merge_region P s bs (d ∷ ds) hb.1 hd)
  | after e f ↦ rw (e, f) (All-push_nonzero P d _ hd.0 (All-merge_region P s (b ∷ bs) ds hb hd.1))
  | same e f q ↦ rw (e, f) (All-push_nonzero P d _ hd.0 (All-merge_region P s bs ds hb.1 hd.1))
]

pub Sorted-merge_region :
    (s : StorageLess) (bs ds : List PriceLevel)
    → Sorted s bs
    → Sorted s ds
    → Sorted s (merge_region s bs ds)
unfolding merge_region
Sorted-merge_region s [] ds hb hd = Sorted-push_rest s ds hd
Sorted-merge_region s (b ∷ bs) [] hb hd = hb
Sorted-merge_region s (b ∷ bs) (d ∷ ds) hb hd = elim (Order-cases s b.price d.price) [
  | before e ↦ rw e (
    All-merge_region _ s bs (d ∷ ds) hb.0 (e, Before-trans s b.price d.price ds e hd.0),
    Sorted-merge_region s bs (d ∷ ds) hb.1 hd,
  )
  | after e f ↦
      rw (e, f)
        (Sorted-push_nonzero s d _
          (All-merge_region _ s (b ∷ bs) ds (f, Before-trans s d.price b.price bs f hb.0) hd.0)
          (Sorted-merge_region s (b ∷ bs) ds hb hd.1))
  | same e f q ↦
      rw (e, f)
        (Sorted-push_nonzero s d _ (All-merge_region _ s bs ds (rw (← q) hb.0) hd.0)
          (Sorted-merge_region s bs ds hb.1 hd.1))
]

pub NonZero-merge_region :
    (s : StorageLess) (bs ds : List PriceLevel) → NonZero bs → NonZero (merge_region s bs ds)
unfolding merge_region
NonZero-merge_region s [] ds hb = NonZero-push_rest ds
NonZero-merge_region s (b ∷ bs) [] hb = hb
NonZero-merge_region s (b ∷ bs) (d ∷ ds) hb = elim (Order-cases s b.price d.price) [
  | before e ↦ rw e (hb.0, NonZero-merge_region s bs (d ∷ ds) hb.1)
  | after e f ↦ rw (e, f) (NonZero-push_nonzero d _ (NonZero-merge_region s (b ∷ bs) ds hb))
  | same e f q ↦ rw (e, f) (NonZero-push_nonzero d _ (NonZero-merge_region s bs ds hb.1))
]
