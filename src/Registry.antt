-- ===== src/Registry.antt =====
-- types/venue_registry.h: names handed dense numbers in the order they are registered, up to a fixed
-- capacity. `names` is the part of `names_` below `size_`; a slot is an index into it. One thread
-- registers, so that each call is one step.
pub mod Find
pub mod Register
pub mod Symbols
mod Tests
use aggregated_order_book.Base.{
  ℕ, suc, Option, none, some, List, [], ◌∷◌, ◌++◌, leb, if◌then◌else◌, length, get_or,
}
use aggregated_order_book.Types.{max_venues}
use aggregated_order_book.Base.Text.{Text, text_eq}

pub record VenueRegistry : Type 0 where
  pub names : List Text

abbrev pub new_registry : VenueRegistry
new_registry = record { names = [] }

-- `size`
abbrev pub registered : VenueRegistry → ℕ
registered r = length r.names

-- The loop of `Find`, from the first name on.
unfoldable pub find_name : List Text → Text → Option ℕ
find_name [] name = none
find_name (n ∷ ns) name =
    let rest = find_name ns name in
    if text_eq n name then some 0 else elim rest [ none ↦ none | some i ↦ some (suc i) ]

abbrev pub find : VenueRegistry → Text → Option ℕ
find r name = find_name r.names name

-- `Register` on a name that `Find` has missed.
unfoldable pub add_name : ℕ → List Text → Text → Option ℕ × List Text
add_name capacity names name =
    if leb capacity (length names) then (none, names) else (some (length names), names ++ name ∷ [])

unfoldable pub register_in : ℕ → List Text → Text → Option ℕ × List Text
register_in capacity names name = elim (find_name names name) [
  | none ↦ add_name capacity names name
  | some i ↦ (some i, names)
]

unfoldable pub register : VenueRegistry → Text → Option ℕ × VenueRegistry
register r name =
    let (slot, names) = register_in max_venues r.names name in (slot, record { names = names })

-- `Name`, empty for a slot that is not registered.
abbrev pub name_at : VenueRegistry → ℕ → Text
name_at r slot = get_or r.names slot []
