-- ===== src/Registry/Tests.antt =====
-- Two venues registered, one of them twice.
use aggregated_order_book.Base.{◌≡◌, refl, some, [], ◌∷◌, arith}
use aggregated_order_book.Base.Text.{text_eq}
use aggregated_order_book.Types.{max_venues}
use aggregated_order_book.Registry.{
  VenueRegistry, new_registry, find_name, find, add_name, register_in, register, name_at,
}
use aggregated_order_book.Registry.Find.{IsRegistry}
use aggregated_order_book.Registry.Register.{register-IsRegistry, register-find}

abbrev one_name : VenueRegistry
one_name = (register new_registry (79 ∷ 75 ∷ [])).1

one-IsRegistry : IsRegistry max_venues one_name.names
one-IsRegistry =
    register-IsRegistry new_registry (79 ∷ 75 ∷ [])
      (record { bounded = omega arith; dense = λ i n e. absurd (cc) })

register-IsRegistry_example : IsRegistry max_venues (register one_name (66 ∷ [])).1.names
register-IsRegistry_example = register-IsRegistry one_name (66 ∷ []) one-IsRegistry

second_run : (register one_name (66 ∷ [])).0 ≡ some 1
unfolding register register_in add_name find_name text_eq
second_run = refl

again_run : (register (register one_name (66 ∷ [])).1 (79 ∷ 75 ∷ [])).0 ≡ some 0
unfolding register register_in add_name find_name text_eq
again_run = refl

register-find_example :
    (find (register one_name (66 ∷ [])).1 (66 ∷ []) ≡ some 1)
    × (name_at (register one_name (66 ∷ [])).1 1 ≡ 66 ∷ [])
register-find_example = register-find one_name (66 ∷ []) 1 second_run
