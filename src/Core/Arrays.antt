-- ===== src/Core/Arrays.antt =====
-- The venues' books of one instrument as an array: what stands in a slot, and beyond the registered ones.
use aggregated_order_book.Base.{
  get_or-set_default, ℕ, zero, suc, ◌≤◌, ◌<◌, ◌≡◌, refl, sym, ◌∙◌, ◌≢◌, ◌⊎◌, inl, inr, Option, none,
  some, [], ◌∷◌, arith, ◌==◌, Bool-cases, length, get_elem?, get_or, set, take, All, length-set,
  get_or-set_ne, All-set,
}
use aggregated_order_book.Types.{max_venues}
use aggregated_order_book.Book.{FlatOrderBook}
use aggregated_order_book.Merge.{FlatBookArray}
use aggregated_order_book.Merge.Books.{IsSound}

-- The venues' books of one instrument: an array of eight, empty from the registered slots on.
pub record AreBooks (n : ℕ) (books : FlatBookArray) : Type 0 where
  pub size : length books ≡ max_venues
  pub sound : All IsSound books
  pub beyond : (i : ℕ) → n ≤ i → get_or books i none ≡ none

pub get_or-take :
    (n : ℕ) (books : FlatBookArray) (i : ℕ)
    → ((j : ℕ) → n ≤ j → get_or books j none ≡ none)
    → get_or (take n books) i none ≡ get_or books i none
get_or-take zero books i h = sym (h i (omega arith))
get_or-take (suc n) [] i h = refl
get_or-take (suc n) (b ∷ books) zero h = refl
get_or-take (suc n) (b ∷ books) (suc i) h =
    get_or-take n books i (λ j k. h (suc j) (omega (arith, k)))

pub get_elem?-take :
    (n : ℕ) (books : FlatBookArray) (i : ℕ) (b : FlatOrderBook)
    → ((j : ℕ) → n ≤ j → get_or books j none ≡ none)
    → get_elem? books i ≡ some (some b)
    → get_elem? (take n books) i ≡ some (some b)
get_elem?-take n [] i b h e = absurd (cc)
get_elem?-take zero (x ∷ books) zero b h e = absurd (ground (arith, h 0 (omega arith), e))
get_elem?-take zero (x ∷ books) (suc i) b h e =
    absurd (get_elem?-nothing books i b (λ j. h (suc j) (omega arith)) e)
  where
    get_elem?-nothing :
        (books : FlatBookArray) (i : ℕ) (b : FlatOrderBook)
        → ((j : ℕ) → get_or books j none ≡ none)
        → get_elem? books i ≢ some (some b)
    get_elem?-nothing [] i b h e = absurd (cc)
    get_elem?-nothing (x ∷ books) zero b h e = absurd (ground (arith, h 0, e))
    get_elem?-nothing (x ∷ books) (suc i) b h e = get_elem?-nothing books i b (λ j. h (suc j)) e
get_elem?-take (suc n) (x ∷ books) zero b h e = e
get_elem?-take (suc n) (x ∷ books) (suc i) b h e =
    get_elem?-take n books i b (λ j k. h (suc j) (omega (arith, k))) e

pub get_or-some :
    (books : FlatBookArray) (i : ℕ) (b : FlatOrderBook)
    → get_elem? books i ≡ some (some b)
    → (get_or books i none ≡ some b) × (i < length books)
get_or-some [] i b e = absurd (cc)
get_or-some (x ∷ books) zero b e = (cc, omega arith)
get_or-some (x ∷ books) (suc i) b e = let (v, l) = get_or-some books i b e in (v, omega (arith, l))

emptied :
    (books : FlatBookArray) (i slot : ℕ) (b : Option FlatOrderBook)
    → i ≡ slot
    → b ≡ none
    → get_or (set books slot b) i none ≡ none
emptied books i slot b e f = rw (e, f) (get_or-set_default books slot none)

pub set-AreBooks :
    (n : ℕ) (books : FlatBookArray) (slot : ℕ) (b : Option FlatOrderBook)
    → slot < n ⊎ (b ≡ none)
    → IsSound b
    → AreBooks n books
    → AreBooks n (set books slot b)
set-AreBooks n books slot b inside k h = record {
  size = length-set books slot b ∙ h.size;
  sound = All-set IsSound books slot b h.sound k;
  beyond = λ i l. elim (Bool-cases (i == slot)) [
    | inl e ↦ elim inside [
      | inl a ↦ absurd (ground (arith, a, e, l))
      | inr a ↦ emptied books i slot b (ground (arith, e)) a
    ]
    | inr e ↦ get_or-set_ne books slot i b none (ground (arith, e)) ∙ h.beyond i l
  ];
}
