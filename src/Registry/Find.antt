-- ===== src/Registry/Find.antt =====
-- The registry's numbering: what is registered is found, at the slot it was given, for good.
use aggregated_order_book.Base.{
  ℕ, suc, ◌≤◌, ◌≡◌, refl, ap, inl, inr, false, none, some, List, [], ◌∷◌, ◌++◌, arith, Bool-cases,
  Option-cases, length, get_elem?,
}
use aggregated_order_book.Base.Text.{Text, text_eq, text_eq_refl, text_eq→≡}
use aggregated_order_book.Registry.{find_name}

-- Each name has its own slot: the one it stands in.
abbrev pub IsDense : List Text → Type 0
IsDense names = (i : ℕ) (n : Text) → get_elem? names i ≡ some n → find_name names n ≡ some i

-- The state of a registry of this capacity.
pub record IsRegistry (capacity : ℕ) (names : List Text) : Type 0 where
  pub bounded : length names ≤ capacity
  pub dense : IsDense names

absent_head :
    (n name : Text) (ns : List Text) → find_name (n ∷ ns) name ≡ none → text_eq n name ≡ false
unfolding find_name
absent_head n name ns h = elim (Bool-cases (text_eq n name)) [
  | inl e ↦ absurd (ground (arith, h, e))
  | inr e ↦ e
]

pub find_name-get_elem? :
    (names : List Text) (name : Text) (i : ℕ)
    → find_name names name ≡ some i
    → get_elem? names i ≡ some name
unfolding find_name
find_name-get_elem? [] name i h = absurd (cc)
find_name-get_elem? (n ∷ ns) name i h = elim (Bool-cases (text_eq n name)) [
  | inl e ↦ let at : i ≡ 0 = ground (arith, h, e) in rw at (ap some (text_eq→≡ n name e))
  | inr e ↦ elim (Option-cases (find_name ns name)) [
    | inl a ↦ absurd (ground (arith, h, e, a))
    | inr (j, a) ↦
        let at : i ≡ suc j = ground (arith, h, e, a) in rw at (find_name-get_elem? ns name j a)
  ]
]

-- A new name, at the end.
pub find_name-append :
    (names : List Text) (name : Text)
    → find_name names name ≡ none
    → find_name (names ++ name ∷ []) name ≡ some (length names)
unfolding find_name
find_name-append [] name h = rw (text_eq_refl name) refl
find_name-append (n ∷ ns) name h = elim (Option-cases (find_name ns name)) [
  | inl a ↦ ground (arith, h, find_name-append ns name a)
  | inr (j, a) ↦ absurd (ground (arith, h, a))
]

-- Names that are there keep their slot.
pub find_name-append_old :
    (names : List Text) (name new : Text) (i : ℕ)
    → find_name names name ≡ some i
    → find_name (names ++ new ∷ []) name ≡ some i
unfolding find_name
find_name-append_old [] name new i h = absurd (cc)
find_name-append_old (n ∷ ns) name new i h = elim (Bool-cases (text_eq n name)) [
  | inl e ↦ ground (arith, h, e)
  | inr e ↦ elim (Option-cases (find_name ns name)) [
    | inl a ↦ absurd (ground (arith, h, e, a))
    | inr (j, a) ↦ ground (arith, h, e, a, find_name-append_old ns name new j a)
  ]
]
