-- ===== src/State/Repair.antt =====
-- `ApplyOneChange` over a whole side: the level found by rank, repaired, and the rest untouched.
use aggregated_order_book.Base.{
  ℕ, ◌≡◌, refl, sym, subst, ◌≢◌, inl, inr, true, Option, none, some, List, [], ◌∷◌, arith, ◌==◌,
  Bool-cases, Option-cases,
}
use aggregated_order_book.Types.{LevelChange}
use aggregated_order_book.Book.Order.{StorageLess, storage_less}
use aggregated_order_book.Bbo.Venues.{VenueQuote, find_slot, qty_or_zero}
use aggregated_order_book.Merged.{MergedLevel}
use aggregated_order_book.Merged.Held.{held, RanksAhead, IsMergedSide}
use aggregated_order_book.State.{keep_level, change_from, put_venue, remove_venue}
use aggregated_order_book.State.Level.{
  Attributes, put_venue-Attributes, remove_venue-Attributes, Attributes-IsLevel,
  put_venue_attributed,
}
use aggregated_order_book.State.Change.{changed_at, IsChanged, IsChange, nothing_at, level_at}

module _ (t : StorageLess) (l : MergedLevel) (ls : List MergedLevel) (slot : ℕ)
    (c : LevelChange) where
  -- The level replaced by one that is well-formed.
  replaced-IsChanged :
      (l' : MergedLevel) (o : Option ℕ)
      → IsMergedSide t (l ∷ ls)
      → l.price ≡ c.price
      → Attributes l slot o l'
      → qty_or_zero o ≡ c.new_qty
      → l'.venues ≢ []
      → IsChanged t (l ∷ ls) slot c (l' ∷ ls)
  replaced-IsChanged l' o k e a q n =
      let s : l.price ≡ l'.price = sym a.price in
      record {
        side_ok = record {
          sorted = (subst (λ x. RanksAhead t x ls) s k.sorted.0, k.sorted.1);
          levels = (Attributes-IsLevel l slot o l' a n, k.levels.1);
        };
        quantities = λ i p. level_at l l' ls slot c o i p a e q;
        behind = λ b h r. (subst (λ x. storage_less t b x ≡ true) s r.0, r.1);
      }

  -- The level gone with its last venue.
  gone_at :
      (l' : MergedLevel) (i p : ℕ)
      → RanksAhead t l.price ls
      → l.price ≡ c.price
      → Attributes l slot none l'
      → c.new_qty ≡ 0
      → l'.venues ≡ []
      → held ls i p ≡ changed_at (l ∷ ls) slot c i p
  unfolding find_slot
  gone_at l' i p h e a z v =
      let none_left : find_slot l'.venues i ≡ none = rw v refl in
      elim (Bool-cases (l.price == p)) [
        | inl f ↦ ground (arith, f, e, z, nothing_at t ls l.price i p h f, a.find i, none_left)
        | inr f ↦ ground (arith, f, e)
      ]

  gone-IsChanged :
      (l' : MergedLevel)
      → IsMergedSide t (l ∷ ls)
      → l.price ≡ c.price
      → Attributes l slot none l'
      → c.new_qty ≡ 0
      → l'.venues ≡ []
      → IsChanged t (l ∷ ls) slot c ls
  gone-IsChanged l' k e a z v = record {
    side_ok = record { sorted = k.sorted.1; levels = k.levels.1 };
    quantities = λ i p. gone_at l' i p k.sorted.0 e a z v;
    behind = λ b h r. r.1;
  }

  -- A removal by a venue that is not there.
  absent_at :
      (i p : ℕ)
      → l.price ≡ c.price
      → c.new_qty ≡ 0
      → find_slot l.venues slot ≡ none
      → held (l ∷ ls) i p ≡ changed_at (l ∷ ls) slot c i p
  absent_at i p e z f = elim (Bool-cases (i == slot)) [
    | inl g ↦
        let here : find_slot l.venues i ≡ none =
          subst (λ x. find_slot l.venues x ≡ none) (ground (arith, g)) f in
        rw here (ground (arith, e, z, g))
    | inr g ↦ ground (arith, g)
  ]

  absent-IsChanged :
      IsMergedSide t (l ∷ ls)
      → l.price ≡ c.price
      → c.new_qty ≡ 0
      → find_slot l.venues slot ≡ none
      → IsChanged t (l ∷ ls) slot c (l ∷ ls)
  absent-IsChanged k e z f = record {
    side_ok = k;
    quantities = λ i p. absent_at i p e z f;
    behind = λ b h r. r;
  }

  kept-IsChanged :
      (l' : MergedLevel)
      → IsMergedSide t (l ∷ ls)
      → l.price ≡ c.price
      → Attributes l slot none l'
      → c.new_qty ≡ 0
      → (vs : List VenueQuote) → l'.venues ≡ vs
      → IsChanged t (l ∷ ls) slot c (keep_level l' ls).0
  unfolding keep_level
  kept-IsChanged l' k e a z [] v = rw (v, keep_level) (gone-IsChanged l' k e a z v)
  kept-IsChanged l' k e a z (w ∷ ws) v =
      rw (v, keep_level) (replaced-IsChanged l' none k e a (sym z) (λ x. cc))

  -- The level of the price is there.
  pub match-IsChanged :
      IsChange slot c
      → IsMergedSide t (l ∷ ls)
      → l.price ≡ c.price
      → IsChanged t (l ∷ ls) slot c (change_from (l ∷ ls) slot c).0
  unfolding change_from
  match-IsChanged h k e =
      let m : (l.price == c.price) ≡ true = ground (arith, e) in
      elim (Bool-cases (c.new_qty == 0)) [
        | inl z ↦ elim (Option-cases (find_slot l.venues slot)) [
          | inl f ↦ rw (m, z, f, change_from) (absent-IsChanged k e (ground (arith, z)) f)
          | inr (old, f) ↦
              rw (m, z, f, change_from)
                (kept-IsChanged (remove_venue l slot) k e
                  (remove_venue-Attributes l slot old k.levels.0 f) (ground (arith, z))
                  (remove_venue l slot).venues refl)
        ]
        | inr z ↦
            let a = put_venue-Attributes l slot c.new_qty k.levels.0 h.0 (ground (arith, z), h.1) in
            rw (m, z, change_from)
              (replaced-IsChanged (put_venue l slot c.new_qty) (some c.new_qty) k e a refl
                (put_venue_attributed l slot c.new_qty a))
      ]
