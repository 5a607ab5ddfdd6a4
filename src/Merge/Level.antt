-- ===== src/Merge/Level.antt =====
-- One level of the merge: which venues join it, and with what.
use aggregated_order_book.Base.{
  ℕ, zero, suc, ◌+◌, ◌%◌, ◌^◌, ◌≤◌, ◌<◌, ◌≡◌, refl, sym, ap, subst, ◌∙◌, ◌≢◌, inl, inr, true,
  Option, none, some, List, [], ◌∷◌, ◌++◌, append-nil, append_assoc, arith, ltb, ◌==◌, lt→ltb,
  Bool-cases, Option-cases, length, get_or, All, length-append,
}
use aggregated_order_book.Types.{PriceLevel, max_venues}
use aggregated_order_book.Book.Order.{StorageLess}
use aggregated_order_book.Bbo.Venues.{VenueQuote, find_slot, sum_qty}
use aggregated_order_book.Bbo.{add64}
use aggregated_order_book.Merged.{MergedLevel}
use aggregated_order_book.Merged.Held.{SlotsFrom-le, SlotsFrom, IsLevel, find_slot-SlotsFrom}
use aggregated_order_book.Merge.{join_level, fill_level, new_level}
use aggregated_order_book.Merge.Iters.{entry-IsQty, IsIter, entry, advance_all, Hit}

abbrev pub add_entry : ℕ → Option ℕ → List VenueQuote → List VenueQuote
add_entry i none vs = vs
add_entry i (some q) vs = record { slot = i; qty = q } ∷ vs

-- The attribution of the level at `p`, from slot `i` on.
abbrev pub entries : ℕ → ℕ → List (List PriceLevel) → List VenueQuote
entries i p [] = []
entries i p (it ∷ its) = add_entry i (entry p it) (entries (i + 1) p its)

abbrev pub filled : MergedLevel → List VenueQuote → MergedLevel
filled l [] = l
filled l (v ∷ vs) = filled (record l { venues = l.venues ++ v ∷ []; qty = add64 l.qty v.qty }) vs

pub fill_level-filled :
    (i : ℕ) (level : MergedLevel) (its : List (List PriceLevel))
    → length level.venues ≤ i
    → i + length its ≤ max_venues
    → fill_level i level its
      ≡ (filled level (entries i level.price its), advance_all level.price its)
unfolding fill_level join_level
fill_level-filled i level [] h k = refl
fill_level-filled i level ([] ∷ its) h k =
    let ih = fill_level-filled (i + 1) level its (omega (arith, h)) (omega (arith, k)) in
    ap (λ r. (r.0, [] ∷ r.1)) ih
fill_level-filled i level ((l ∷ ls) ∷ its) h k = elim (Bool-cases (l.price == level.price)) [
  | inl e ↦
      let room : ltb (length level.venues) max_venues ≡ true =
        lt→ltb (length level.venues) max_venues (omega (arith, h, k)) in
      let next : MergedLevel = record level {
        venues = level.venues ++ record { slot = i; qty = l.qty } ∷ [];
        qty = add64 level.qty l.qty;
      } in
      let ih =
        fill_level-filled (i + 1) next its
          (omega (arith, h, length-append level.venues (record { slot = i; qty = l.qty } ∷ [])))
          (omega (arith, k)) in
      rw (e, room, fill_level) (ap (λ r. (r.0, ls ∷ r.1)) ih)
  | inr e ↦
      let ih = fill_level-filled (i + 1) level its (omega (arith, h)) (omega (arith, k)) in
      rw (e, fill_level) (ap (λ r. (r.0, (l ∷ ls) ∷ r.1)) ih)
]

filled_lem :
    (l : MergedLevel) (vs : List VenueQuote)
    → l.qty < 2 ^ 64
    → ((filled l vs).venues ≡ l.venues ++ vs)
      × ((filled l vs).price ≡ l.price)
      × ((filled l vs).qty ≡ (l.qty + sum_qty vs) % 2 ^ 64)
filled_lem l [] h = (sym (append-nil l.venues), refl, omega (arith, h))
filled_lem l (v ∷ vs) h =
    let (a, b, c) =
      filled_lem (record l { venues = l.venues ++ v ∷ []; qty = add64 l.qty v.qty }) vs
        (omega arith) in
    (a ∙ append_assoc l.venues (v ∷ []) vs, b, c ∙ omega arith)

entries-SlotsFrom :
    (t : StorageLess) (i p : ℕ) (its : List (List PriceLevel))
    → i + length its ≤ max_venues
    → All (IsIter t) its
    → SlotsFrom i (entries i p its)
entries-SlotsFrom t i p [] h k = tt
entries-SlotsFrom t i p (it ∷ its) h k =
    let rest = entries-SlotsFrom t (i + 1) p its (omega (arith, h)) k.1 in
    elim (Option-cases (entry p it)) [
      | inl e ↦ rw e (SlotsFrom-le i (i + 1) (entries (i + 1) p its) (omega arith) rest)
      | inr (q, e) ↦ rw e (
        omega arith,
        omega (arith, h),
        entry-IsQty t p it q k.0 e,
        subst (λ j. SlotsFrom j (entries (i + 1) p its)) (omega arith) rest,
      )
    ]

add_entry_here :
    (i : ℕ) (o : Option ℕ) (vs : List VenueQuote)
    → find_slot vs i ≡ none
    → find_slot (add_entry i o vs) i ≡ o
unfolding find_slot
add_entry_here i none vs h = h
add_entry_here i (some q) vs h = ground arith

add_entry_other :
    (i j : ℕ) (o : Option ℕ) (vs : List VenueQuote)
    → i < j
    → find_slot (add_entry i o vs) j ≡ find_slot vs j
unfolding find_slot
add_entry_other i j none vs h = refl
add_entry_other i j (some q) vs h = ground (arith, h)

find_slot-entries :
    (t : StorageLess) (i p : ℕ) (its : List (List PriceLevel)) (k : ℕ)
    → i + length its ≤ max_venues
    → All (IsIter t) its
    → find_slot (entries i p its) (i + k) ≡ entry p (get_or its k [])
unfolding find_slot
find_slot-entries t i p [] k h a = refl
find_slot-entries t i p (it ∷ its) zero h a =
    let rest = entries-SlotsFrom t (i + 1) p its (omega (arith, h)) a.1 in
    subst (λ j. find_slot (add_entry i (entry p it) (entries (i + 1) p its)) j ≡ entry p it)
      (omega arith)
      (add_entry_here i (entry p it) (entries (i + 1) p its)
        (find_slot-SlotsFrom i (i + 1) (entries (i + 1) p its) (omega arith) rest))
find_slot-entries t i p (it ∷ its) (suc k) h a =
    add_entry_other i (i + suc k) (entry p it) (entries (i + 1) p its) (omega arith)
    ∙ subst (λ j. find_slot (entries (i + 1) p its) j ≡ entry p (get_or its k [])) (omega arith)
        (find_slot-entries t (i + 1) p its k (omega (arith, h)) a.1)

entries-Hit : (i p : ℕ) (its : List (List PriceLevel)) → Hit p its → entries i p its ≢ []
entries-Hit i p [] h = absurd h
entries-Hit i p ([] ∷ its) h = entries-Hit (i + 1) p its h
entries-Hit i p ((l ∷ ls) ∷ its) (inl e) =
    let m : (l.price == p) ≡ true = ground (arith, e) in rw m (λ x. cc)
entries-Hit i p ((l ∷ ls) ∷ its) (inr h) = elim (Bool-cases (l.price == p)) [
  | inl e ↦ rw e (λ x. cc)
  | inr e ↦ rw e (entries-Hit (i + 1) p its h)
]

-- The level that the loop at the best price `p` builds, and the iterators that it leaves.
pub record IsFilled (p : ℕ) (its : List (List PriceLevel)) (level : MergedLevel)
    (its' : List (List PriceLevel)) : Type 0 where
  pub price : level.price ≡ p
  pub ok : IsLevel level
  pub find : (i : ℕ) → find_slot level.venues i ≡ entry p (get_or its i [])
  pub left : its' ≡ advance_all p its

pub fill_level-IsFilled :
    (t : StorageLess) (p : ℕ) (its : List (List PriceLevel))
    → length its ≤ max_venues
    → All (IsIter t) its
    → Hit p its
    → IsFilled p its (fill_level 0 (new_level p) its).0 (fill_level 0 (new_level p) its).1
fill_level-IsFilled t p its h a g =
    let vs = entries 0 p its in
    let (v, w, q) = filled_lem (new_level p) vs (omega arith) in
    rw (fill_level-filled 0 (new_level p) its (omega arith) (omega (arith, h))) (record {
      price = w;
      ok = record {
        slots = rw v (entries-SlotsFrom t 0 p its (omega (arith, h)) a);
        attributed = rw v (entries-Hit 0 p its g);
        total = rw v (q ∙ omega arith);
      };
      find = λ i.
          ap (λ x. find_slot x i) v
          ∙ subst (λ j. find_slot vs j ≡ entry p (get_or its i [])) (omega arith)
              (find_slot-entries t 0 p its i (omega (arith, h)) a);
      left = refl;
    })
