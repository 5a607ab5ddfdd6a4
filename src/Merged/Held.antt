-- ===== src/Merged/Held.antt =====
-- What a side of the consolidated book says of one venue at one price, and its well-formedness.
use aggregated_order_book.Base.{
  ℕ, suc, ◌%◌, ◌^◌, ◌≤◌, ◌<◌, ◌≡◌, refl, sym, ap₂, ◌≢◌, inl, inr, true, none, some, List, [], ◌∷◌,
  arith, ◌==◌, if◌then◌else◌, Bool-cases, le-cases, All, All-map,
}
use aggregated_order_book.Types.{max_venues}
use aggregated_order_book.Book.Order.{StorageLess, storage_less, less_trans}
use aggregated_order_book.Bbo.Venues.{VenueQuote, find_slot, qty_or_zero, sum_qty}
use aggregated_order_book.Merged.{MergedLevel}

-- The quantity that the side attributes to venue `i` at price `p`, 0 where it has none.
abbrev pub held : List MergedLevel → ℕ → ℕ → ℕ
held [] i p = 0
held (l ∷ ls) i p = if l.price == p then qty_or_zero (find_slot l.venues i) else held ls i p

-- The price `p` ranks ahead of every level.
abbrev pub RanksAhead : StorageLess → ℕ → List MergedLevel → Type 0
RanksAhead t p = All (λ l. storage_less t p l.price ≡ true)

-- Strictly best first.
abbrev pub RankSorted : StorageLess → List MergedLevel → Type 0
RankSorted t [] = Unit
RankSorted t (l ∷ ls) = RanksAhead t l.price ls × RankSorted t ls

-- A quantity that is there, as uint64_t.
abbrev pub IsQty : ℕ → Type 0
IsQty q = (q ≢ 0) × (q < 2 ^ 64)

-- Slots above `i`, strictly ascending, each with a quantity.
abbrev pub SlotsFrom : ℕ → List VenueQuote → Type 0
SlotsFrom i [] = Unit
SlotsFrom i (v ∷ vs) =
    (i ≤ v.slot) × (v.slot < max_venues) × IsQty v.qty × SlotsFrom (suc v.slot) vs

-- A level: attributed to one venue at least, its quantity their sum as uint64_t.
pub record IsLevel (l : MergedLevel) : Type 0 where
  pub slots : SlotsFrom 0 l.venues
  pub attributed : l.venues ≢ []
  pub total : l.qty ≡ sum_qty l.venues % 2 ^ 64

pub record IsMergedSide (t : StorageLess) (ls : List MergedLevel) : Type 0 where
  pub sorted : RankSorted t ls
  pub levels : All IsLevel ls

-- A slot below all those that are listed is not found.
pub find_slot-SlotsFrom :
    (i j : ℕ) (vs : List VenueQuote) → i < j → SlotsFrom j vs → find_slot vs i ≡ none
unfolding find_slot
find_slot-SlotsFrom i j [] h k = refl
find_slot-SlotsFrom i j (v ∷ vs) h (a, b, c, k) =
    ground (arith, h, a, find_slot-SlotsFrom i (suc v.slot) vs (omega (arith, a, h)) k)

-- The first entries of two attributions that agree.
head_slot :
    (i j : ℕ) (v w : VenueQuote) (vs ws : List VenueQuote)
    → SlotsFrom i (v ∷ vs)
    → SlotsFrom j (w ∷ ws)
    → ((k : ℕ) → qty_or_zero (find_slot (v ∷ vs) k) ≡ qty_or_zero (find_slot (w ∷ ws) k))
    → w.slot ≤ v.slot
unfolding find_slot
head_slot i j v w vs ws h k e = elim (le-cases w.slot v.slot) [
  | inl l ↦ l
  | inr l ↦
      let gone = find_slot-SlotsFrom v.slot (suc w.slot) ws (omega (arith, l)) k.3 in
      absurd (ground (arith, e v.slot, h.2.0, gone, l))
]

tail_agrees :
    (i j : ℕ) (v w : VenueQuote) (vs ws : List VenueQuote)
    → SlotsFrom i (v ∷ vs)
    → SlotsFrom j (w ∷ ws)
    → v.slot ≡ w.slot
    → ((k : ℕ) → qty_or_zero (find_slot (v ∷ vs) k) ≡ qty_or_zero (find_slot (w ∷ ws) k))
    → (k : ℕ) → qty_or_zero (find_slot vs k) ≡ qty_or_zero (find_slot ws k)
unfolding find_slot
tail_agrees i j v w vs ws h g s e k = elim (le-cases k v.slot) [
  | inl l ↦
      rw
        (
          find_slot-SlotsFrom k (suc v.slot) vs (omega (arith, l)) h.3,
          find_slot-SlotsFrom k (suc w.slot) ws (omega (arith, l, s)) g.3,
        )
        refl
  | inr l ↦ ground (arith, e k, s, l)
]

-- Attributions that say the same of every slot are the same.
pub SlotsFrom-unique :
    (i j : ℕ) (vs ws : List VenueQuote)
    → SlotsFrom i vs
    → SlotsFrom j ws
    → ((k : ℕ) → qty_or_zero (find_slot vs k) ≡ qty_or_zero (find_slot ws k))
    → vs ≡ ws
unfolding find_slot
SlotsFrom-unique i j [] [] h k e = refl
SlotsFrom-unique i j [] (w ∷ ws) h k e = absurd (ground (arith, e w.slot, k.2.0))
SlotsFrom-unique i j (v ∷ vs) [] h k e = absurd (ground (arith, e v.slot, h.2.0))
SlotsFrom-unique i j (v ∷ vs) (w ∷ ws) h k e =
    let a : w.slot ≤ v.slot = head_slot i j v w vs ws h k e in
    let b : v.slot ≤ w.slot = head_slot j i w v ws vs k h (λ n. sym (e n)) in
    let s : v.slot ≡ w.slot = omega (arith, a, b) in
    let q : v.qty ≡ w.qty = ground (arith, e v.slot, s) in
    let t : vs ≡ ws =
      SlotsFrom-unique (suc v.slot) (suc w.slot) vs ws h.3 k.3
        (tail_agrees i j v w vs ws h k s e) in
    ap₂ (λ x xs. x ∷ xs) (ap₂ (λ x y. record { slot = x; qty = y }) s q) t

-- A price that ranks ahead of a side has nothing in it.
pub held_ahead :
    (t : StorageLess) (p : ℕ) (ls : List MergedLevel) (i : ℕ) → RanksAhead t p ls → held ls i p ≡ 0
held_ahead t p [] i h = refl
held_ahead t p (l ∷ ls) i h = ground (arith, h.0, held_ahead t p ls i h.1)

pub RanksAhead-trans :
    (t : StorageLess) (p q : ℕ) (ls : List MergedLevel)
    → storage_less t p q ≡ true
    → RanksAhead t q ls
    → RanksAhead t p ls
RanksAhead-trans t p q ls h =
    All-map (λ l. storage_less t q l.price ≡ true) (λ l. storage_less t p l.price ≡ true)
      (λ l k. less_trans t p q l.price h k) ls

-- The quantity of a slot that is listed.
pub find_slot-IsQty :
    (i s q : ℕ) (vs : List VenueQuote) → SlotsFrom i vs → find_slot vs s ≡ some q → IsQty q
unfolding find_slot
find_slot-IsQty i s q [] h e = absurd (cc)
find_slot-IsQty i s q (v ∷ vs) (a, b, c, h) e = elim (Bool-cases (v.slot == s)) [
  | inl k ↦ ground (arith, c, e, k)
  | inr k ↦ find_slot-IsQty (suc v.slot) s q vs h (ground (arith, e, k))
]

pub SlotsFrom-le : (i j : ℕ) (vs : List VenueQuote) → i ≤ j → SlotsFrom j vs → SlotsFrom i vs
SlotsFrom-le i j [] l h = tt
SlotsFrom-le i j (v ∷ vs) l (a, b, c, h) = (omega (arith, l, a), b, c, h)
