-- ===== src/Book/Order.antt =====
-- The two storage orders of a book side: std::less for bids, std::greater for asks.
use aggregated_order_book.Base.{
  ℕ, Bool, true, false, List, [], ◌∷◌, ◌++◌, ◌≡◌, ltb, arith, All, All-append, All-append_left,
  All-append_right, reverse, reverse-cons, refl, sym, ◌∙◌, Bool-cases, inl, inr,
}
use aggregated_order_book.Types.{PriceLevel}
use aggregated_order_book.Book.Prices.{has_price, Distinct}

-- The comparator that `ApplySide` is instantiated with.
pub data StorageLess : Type 0 where
  less greater : StorageLess

abbrev pub storage_less : StorageLess → ℕ → ℕ → Bool
storage_less less a b = ltb a b
storage_less greater a b = ltb b a

-- The order read from the other end.
abbrev pub flip : StorageLess → StorageLess
flip less = greater
flip greater = less

pub less_flip : (s : StorageLess) (a b : ℕ) → storage_less (flip s) a b ≡ storage_less s b a
less_flip less a b = ground arith
less_flip greater a b = ground arith

pub less_trans :
    (s : StorageLess) (a b c : ℕ)
    → storage_less s a b ≡ true
    → storage_less s b c ≡ true
    → storage_less s a c ≡ true
less_trans s a b c h k = ground arith

-- The three branches of a merge step.
pub data Trichotomy (s : StorageLess) (a b : ℕ) : Type 0 where
  before : storage_less s a b ≡ true → Trichotomy s a b
  after : storage_less s a b ≡ false → storage_less s b a ≡ true → Trichotomy s a b
  same : storage_less s a b ≡ false → storage_less s b a ≡ false → a ≡ b → Trichotomy s a b

less_tri :
    (s : StorageLess) (a b : ℕ) → storage_less s a b ≡ false → storage_less s b a ≡ false → a ≡ b
less_tri s a b h k = ground arith

pub Order-cases : (s : StorageLess) (a b : ℕ) → Trichotomy s a b
Order-cases s a b = elim (Bool-cases (storage_less s a b)) [
  | inl e ↦ before e
  | inr e ↦ elim (Bool-cases (storage_less s b a)) [
    | inl f ↦ after e f
    | inr f ↦ same e f (less_tri s a b e f)
  ]
]

-- `x` ranks before every level of the list.
abbrev pub Before : StorageLess → ℕ → List PriceLevel → Type 0
Before s x = All (λ l. storage_less s x l.price ≡ true)

-- Strictly sorted: no price twice.
abbrev pub Sorted : StorageLess → List PriceLevel → Type 0
Sorted s [] = Unit
Sorted s (l ∷ ls) = Before s l.price ls × Sorted s ls

-- Every level of the first list ranks before every level of the second.
abbrev pub Across : StorageLess → List PriceLevel → List PriceLevel → Type 0
Across s xs ys = All (λ x. Before s x.price ys) xs

pub Before-trans :
    (s : StorageLess) (a b : ℕ) (ls : List PriceLevel)
    → storage_less s a b ≡ true
    → Before s b ls
    → Before s a ls
Before-trans s a b [] h k = tt
Before-trans s a b (l ∷ ls) h k = (less_trans s a b l.price h k.0, Before-trans s a b ls h k.1)

-- A price that ranks before a list is not in it.
pub Before-absent :
    (s : StorageLess) (p : ℕ) (ls : List PriceLevel) → Before s p ls → has_price ls p ≡ false
Before-absent s p [] h = refl
Before-absent s p (l ∷ ls) h = ground (arith, Before-absent s p ls h.1)

pub Sorted-Distinct : (s : StorageLess) (ls : List PriceLevel) → Sorted s ls → Distinct ls
Sorted-Distinct s [] h = tt
Sorted-Distinct s (l ∷ ls) h = (Before-absent s l.price ls h.0, Sorted-Distinct s ls h.1)

pub Sorted-append :
    (s : StorageLess) (xs ys : List PriceLevel)
    → Sorted s xs
    → Sorted s ys
    → Across s xs ys
    → Sorted s (xs ++ ys)
Sorted-append s [] ys h k a = k
Sorted-append s (x ∷ xs) ys h k a = (All-append _ xs ys h.0 a.0, Sorted-append s xs ys h.1 k a.1)

pub Sorted-left : (s : StorageLess) (xs ys : List PriceLevel) → Sorted s (xs ++ ys) → Sorted s xs
Sorted-left s [] ys h = tt
Sorted-left s (x ∷ xs) ys h = (All-append_left _ xs ys h.0, Sorted-left s xs ys h.1)

pub Sorted-right : (s : StorageLess) (xs ys : List PriceLevel) → Sorted s (xs ++ ys) → Sorted s ys
Sorted-right s [] ys h = h
Sorted-right s (x ∷ xs) ys h = Sorted-right s xs ys h.1

pub Sorted-Across :
    (s : StorageLess) (xs ys : List PriceLevel) → Sorted s (xs ++ ys) → Across s xs ys
Sorted-Across s [] ys h = tt
Sorted-Across s (x ∷ xs) ys h = (All-append_right _ xs ys h.0, Sorted-Across s xs ys h.1)

pub All-reverse {κ} :
    (P : PriceLevel → Type κ) (xs : List PriceLevel) → All P xs → All P (reverse xs)
All-reverse P [] h = tt
All-reverse P (x ∷ xs) h =
    rw (reverse-cons x xs) (All-append P (reverse xs) (x ∷ []) (All-reverse P xs h.1) (h.0, tt))

Before-flip :
    (s : StorageLess) (x : PriceLevel) (ls : List PriceLevel)
    → Before s x.price ls
    → Across (flip s) ls (x ∷ [])
Before-flip s x [] h = tt
Before-flip s x (l ∷ ls) h = ((less_flip s l.price x.price ∙ h.0, tt), Before-flip s x ls h.1)

-- A sorted list read from the other end is sorted the other way.
pub Sorted-reverse :
    (s : StorageLess) (ls : List PriceLevel) → Sorted s ls → Sorted (flip s) (reverse ls)
Sorted-reverse s [] h = tt
Sorted-reverse s (l ∷ ls) h = rw (reverse-cons l ls) (
    Sorted-append (flip s) (reverse ls) (l ∷ []) (Sorted-reverse s ls h.1) (tt, tt)
      (All-reverse _ ls (Before-flip s l ls h.0)))

pub flip-flip : (s : StorageLess) → flip (flip s) ≡ s
flip-flip less = refl
flip-flip greater = refl

pub Across-absent :
    (s : StorageLess) (xs ys : List PriceLevel) (p : ℕ)
    → Across s xs ys
    → has_price xs p ≡ true
    → has_price ys p ≡ false
Across-absent s [] ys p a h = cc
Across-absent s (x ∷ xs) ys p a h =
    ground (arith, Before-absent s x.price ys a.0, Across-absent s xs ys p a.1)

Across-nil : (s : StorageLess) (xs : List PriceLevel) → Across s xs []
Across-nil s [] = tt
Across-nil s (x ∷ xs) = (tt, Across-nil s xs)

Across-cons :
    (s : StorageLess) (x : PriceLevel) (ys xs : List PriceLevel)
    → Before (flip s) x.price ys
    → Across s ys xs
    → Across s ys (x ∷ xs)
Across-cons s x [] xs h a = tt
Across-cons s x (y ∷ ys) xs h a =
    ((sym (less_flip s x.price y.price) ∙ h.0, a.0), Across-cons s x ys xs h.1 a.1)

pub Across-flip :
    (s : StorageLess) (xs ys : List PriceLevel) → Across (flip s) xs ys → Across s ys xs
Across-flip s [] ys a = Across-nil s ys
Across-flip s (x ∷ xs) ys a = Across-cons s x ys xs a.0 (Across-flip s xs ys a.1)

Across-reverse_inner :
    (s : StorageLess) (xs ys : List PriceLevel) → Across s xs ys → Across s xs (reverse ys)
Across-reverse_inner s [] ys a = tt
Across-reverse_inner s (x ∷ xs) ys a = (All-reverse _ ys a.0, Across-reverse_inner s xs ys a.1)

-- Reading the better list and the worse list from their other ends.
pub Across-reverse :
    (s : StorageLess) (xs ys : List PriceLevel)
    → Across (flip s) xs ys
    → Across s (reverse ys) (reverse xs)
Across-reverse s xs ys a = All-reverse _ ys (Across-reverse_inner s ys xs (Across-flip s xs ys a))
