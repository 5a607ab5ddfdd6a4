-- ===== src/Registry/Register.antt =====
-- `Register` on every branch: a known name, a new one, a full registry.
use aggregated_order_book.Base.{
  ℕ, zero, suc, ◌≤◌, ◌<◌, ◌≡◌, refl, ap, ◌⊎◌, inl, inr, none, some, List, [], ◌∷◌, ◌++◌, arith, leb,
  Bool-cases, Option-cases, length, get_elem?, get_or, length-append,
}
use aggregated_order_book.Base.Text.{Text}
use aggregated_order_book.Registry.{
  VenueRegistry, registered, find_name, find, add_name, register_in, register, name_at,
}
use aggregated_order_book.Registry.Find.{
  find_name-append, find_name-get_elem?, find_name-append_old, IsDense, IsRegistry,
}
use aggregated_order_book.Types.{max_venues}

pub data RegisterCase (capacity : ℕ) (names : List Text) (name : Text) : Type 0 where
  known :
      (i : ℕ)
      → find_name names name ≡ some i
      → register_in capacity names name ≡ (some i, names)
      → RegisterCase capacity names name
  full :
      find_name names name ≡ none
      → capacity ≤ length names
      → register_in capacity names name ≡ (none, names)
      → RegisterCase capacity names name
  added :
      find_name names name ≡ none
      → length names < capacity
      → register_in capacity names name ≡ (some (length names), names ++ name ∷ [])
      → RegisterCase capacity names name

pub register_case :
    (capacity : ℕ) (names : List Text) (name : Text) → RegisterCase capacity names name
unfolding register_in add_name
register_case capacity names name = elim (Option-cases (find_name names name)) [
  | inr (i, e) ↦ known i e (rw (register_in, e) refl)
  | inl e ↦ elim (Bool-cases (leb capacity (length names))) [
    | inl f ↦ full e (ground (arith, f)) (rw (register_in, e, add_name, f) refl)
    | inr f ↦ added e (ground (arith, f)) (rw (register_in, e, add_name, f) refl)
  ]
]

-- The cells of a list with one more.
get_elem?-snoc :
    (names : List Text) (name n : Text) (i : ℕ)
    → get_elem? (names ++ name ∷ []) i ≡ some n
    → (get_elem? names i ≡ some n) ⊎ ((i ≡ length names) × (n ≡ name))
get_elem?-snoc [] name n zero h = inr (refl, cc)
get_elem?-snoc [] name n (suc i) h = absurd (cc)
get_elem?-snoc (m ∷ names) name n zero h = inl h
get_elem?-snoc (m ∷ names) name n (suc i) h = elim (get_elem?-snoc names name n i h) [
  | inl a ↦ inl a
  | inr (a, b) ↦ inr (ap suc a, b)
]

append-IsDense :
    (names : List Text) (name : Text)
    → find_name names name ≡ none
    → IsDense names
    → IsDense (names ++ name ∷ [])
append-IsDense names name e d i n h = elim (get_elem?-snoc names name n i h) [
  | inl a ↦ find_name-append_old names n name i (d i n a)
  | inr (a, b) ↦ rw (a, b) (find_name-append names name e)
]

pub register_in-IsRegistry :
    (capacity : ℕ) (names : List Text) (name : Text)
    → IsRegistry capacity names
    → IsRegistry capacity (register_in capacity names name).1
register_in-IsRegistry capacity names name h = elim (register_case capacity names name) [
  | known i e r ↦ rw r h
  | full e f r ↦ rw r h
  | added e f r ↦ rw r (record {
    bounded = omega (arith, f, length-append names (name ∷ []));
    dense = append-IsDense names name e h.dense;
  })
]

-- Registering a name keeps a registry well-formed: at most eight names, each found at the slot it
-- stands in, so that no name has two slots and no slot two names.
pub register-IsRegistry :
    (r : VenueRegistry) (name : Text)
    → IsRegistry max_venues r.names
    → IsRegistry max_venues (register r name).1.names
unfolding register
register-IsRegistry r name h = register_in-IsRegistry max_venues r.names name h

get_or-snoc :
    (names : List Text) (name : Text) → get_or (names ++ name ∷ []) (length names) [] ≡ name
get_or-snoc [] name = refl
get_or-snoc (n ∷ ns) name = get_or-snoc ns name

get_elem?→get_or :
    (names : List Text) (i : ℕ) (n : Text) → get_elem? names i ≡ some n → get_or names i [] ≡ n
get_elem?→get_or [] i n h = absurd (cc)
get_elem?→get_or (m ∷ names) zero n h = cc
get_elem?→get_or (m ∷ names) (suc i) n h = get_elem?→get_or names i n h

-- What a registration that gave slot `i` has done.
pub record IsRegistered (names : List Text) (name : Text) (i : ℕ) : Type 0 where
  pub found : find_name names name ≡ some i
  pub named : get_or names i [] ≡ name
  pub inside : i < length names

find_name-inside :
    (names : List Text) (name : Text) (i : ℕ) → find_name names name ≡ some i → i < length names
find_name-inside names name i e = get_elem?-inside names name i (find_name-get_elem? names name i e)
  where
    get_elem?-inside :
        (names : List Text) (n : Text) (i : ℕ) → get_elem? names i ≡ some n → i < length names
    get_elem?-inside [] n i h = absurd (cc)
    get_elem?-inside (m ∷ names) n zero h = omega arith
    get_elem?-inside (m ∷ names) n (suc i) h = omega (arith, get_elem?-inside names n i h)

pub register_in-IsRegistered :
    (capacity : ℕ) (names : List Text) (name : Text) (i : ℕ)
    → (register_in capacity names name).0 ≡ some i
    → IsRegistered (register_in capacity names name).1 name i
register_in-IsRegistered capacity names name i h = elim (register_case capacity names name) [
  | known j e r ↦
      let same : i ≡ j = cc in
      rw (same, r)
        (record {
          found = e;
          named = get_elem?→get_or names j name (find_name-get_elem? names name j e);
          inside = find_name-inside names name j e;
        })
  | full e f r ↦ absurd (cc)
  | added e f r ↦
      let same : i ≡ length names = cc in
      rw (same, r)
        (record {
          found = find_name-append names name e;
          named = get_or-snoc names name;
          inside = omega (arith, length-append names (name ∷ []));
        })
]

-- A registration that returns a slot has the name at that slot: `Find` on the name gives the slot and
-- `Name` on the slot gives the name.
pub register-find :
    (r : VenueRegistry) (name : Text) (i : ℕ)
    → (register r name).0 ≡ some i
    → (find (register r name).1 name ≡ some i) × (name_at (register r name).1 i ≡ name)
unfolding register
register-find r name i h =
    let k = register_in-IsRegistered max_venues r.names name i h in (k.found, k.named)

pub register_in-find_old :
    (capacity : ℕ) (names : List Text) (name other : Text) (j : ℕ)
    → find_name names other ≡ some j
    → find_name (register_in capacity names name).1 other ≡ some j
register_in-find_old capacity names name other j h = elim (register_case capacity names name) [
  | known i e r ↦ rw r h
  | full e f r ↦ rw r h
  | added e f r ↦ rw r (find_name-append_old names other name j h)
]

-- Slots are never taken back.
pub register-grows :
    (r : VenueRegistry) (name : Text) → registered r ≤ registered (register r name).1
unfolding register
register-grows r name = elim (register_case max_venues r.names name) [
  | known i e k ↦ rw k (omega arith)
  | full e f k ↦ rw k (omega arith)
  | added e f k ↦ rw k (omega (arith, length-append r.names (name ∷ [])))
]
