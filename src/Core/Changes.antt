-- ===== src/Core/Changes.antt =====
-- The tables of venues and slots through any sequence of names, registrations and removals.
use aggregated_order_book.Base.{
  ℕ, zero, suc, ◌<◌, ◌≡◌, refl, sym, ap, ◌∙◌, Bool, none, some, List, [], ◌∷◌, ◌++◌, arith, length,
  get_or, get_or-replicate,
}
use aggregated_order_book.Base.Text.{Text}
use aggregated_order_book.Types.{VenueId, max_venues, binance, bybit, okx, count}
use aggregated_order_book.Venues.{venue_index, to_venue_id}
use aggregated_order_book.Registry.{register_in, register, name_at}
use aggregated_order_book.Core.{Core, new_core, slot_for}
use aggregated_order_book.Core.Membership.{
  activate_as, register_as, register_venue_name, process_registration, remove_venue,
}
use aggregated_order_book.Registry.Register.{
  register_case, register_in-IsRegistry, known, full, added,
}
use aggregated_order_book.Core.Members.{named-inside}
use aggregated_order_book.Core.Routing.{activate-IsRouted, IsRouted}
use aggregated_order_book.Core.Removal.{remove_venue-IsRouted}

activate_as-IsRouted :
    (v : VenueId) (slot : ℕ) (c : Core)
    → to_venue_id (name_at c.venue_registry slot) ≡ v
    → IsRouted c
    → IsRouted (activate_as v slot c)
unfolding activate_as
activate_as-IsRouted count slot c e h = h
activate_as-IsRouted binance slot c e h = activate-IsRouted binance slot c h (λ x. absurd (cc)) e
activate_as-IsRouted bybit slot c e h = activate-IsRouted bybit slot c h (λ x. absurd (cc)) e
activate_as-IsRouted okx slot c e h = activate-IsRouted okx slot c h (λ x. absurd (cc)) e

process_registration-IsRouted :
    (slot : ℕ) (c : Core) → IsRouted c → IsRouted (process_registration slot c)
unfolding process_registration
process_registration-IsRouted slot c h =
    activate_as-IsRouted (to_venue_id (name_at c.venue_registry slot)) slot c refl h

pub new_core-IsRouted :
    (publishes_bbo publishes_book : Bool) → IsRouted (new_core publishes_bbo publishes_book)
unfolding slot_for venue_index
new_core-IsRouted publishes_bbo publishes_book = record {
  registry = record { bounded = omega arith; dense = λ i n e. absurd (cc) };
  actives = refl;
  slots = refl;
  named = λ i v e. absurd (cc (sym e ∙ get_or-replicate max_venues i none));
  proper = λ i e. absurd (cc (sym e ∙ get_or-replicate max_venues i none));
  forth = λ v i e. absurd (cc (sym e ∙ get_or-replicate 3 (venue_index v) none));
  back = λ i v e. absurd (cc (sym e ∙ get_or-replicate max_venues i none));
}

-- A name more leaves the names before it where they are.
name_at-register :
    (names : List Text) (name : Text) (i : ℕ)
    → i < length names
    → get_or (register_in max_venues names name).1 i [] ≡ get_or names i []
name_at-register names name i l = elim (register_case max_venues names name) [
  | known j e r ↦ rw r refl
  | full e f r ↦ rw r refl
  | added e f r ↦ rw r (get_or-append names (name ∷ []) i l)
]
  where
    get_or-append :
        (xs ys : List Text) (i : ℕ) → i < length xs → get_or (xs ++ ys) i [] ≡ get_or xs i []
    get_or-append [] ys i l = absurd (omega (arith, l))
    get_or-append (x ∷ xs) ys zero l = refl
    get_or-append (x ∷ xs) ys (suc i) l = get_or-append xs ys i (omega (arith, l))

grow-IsRouted :
    (name : Text) (c : Core)
    → IsRouted c
    → IsRouted (record c { venue_registry = (register c.venue_registry name).1 })
unfolding register slot_for
grow-IsRouted name c h = record {
  registry = register_in-IsRegistry max_venues c.venue_registry.names name h.registry;
  actives = h.actives;
  slots = h.slots;
  named = λ i v e.
      let l : i < length c.venue_registry.names =
        named-inside c.venue_registry.names i
          (λ z. h.proper i (e ∙ ap some (sym (h.named i v e) ∙ z))) in
      ap to_venue_id (name_at-register c.venue_registry.names name i l) ∙ h.named i v e;
  proper = h.proper;
  forth = h.forth;
  back = h.back;
}

register_as-IsRouted :
    (v : VenueId) (name : Text) (c : Core) → IsRouted c → IsRouted (register_as v name c).1
unfolding register_as
register_as-IsRouted count name c h = h
register_as-IsRouted binance name c h = grow-IsRouted name c h
register_as-IsRouted bybit name c h = grow-IsRouted name c h
register_as-IsRouted okx name c h = grow-IsRouted name c h

-- A venue's name registered, its registration and its removal.
pub data Change : Type 0 where
  name_registered : Text → Change
  venue_activated venue_removed : ℕ → Change

pub change : Change → Core → Core
change (name_registered name) c = (register_venue_name name c).1
change (venue_activated slot) c = process_registration slot c
change (venue_removed slot) c = remove_venue slot c

unfoldable pub run_changes : List Change → Core → Core
unfolding change
run_changes [] c = c
run_changes (x ∷ xs) c = run_changes xs (change x c)

change-IsRouted : (x : Change) (c : Core) → IsRouted c → IsRouted (change x c)
unfolding change register_venue_name
change-IsRouted (name_registered name) c h = register_as-IsRouted (to_venue_id name) name c h
change-IsRouted (venue_activated slot) c h = process_registration-IsRouted slot c h
change-IsRouted (venue_removed slot) c h = remove_venue-IsRouted slot c h

-- After any sequence of names registered, registrations and removals, for any slots, from a new Core:
-- a venue has a slot exactly when that slot has the venue and its name, and no name has two slots.
pub run_changes-IsRouted :
    (xs : List Change) (publishes_bbo publishes_book : Bool)
    → IsRouted (run_changes xs (new_core publishes_bbo publishes_book))
unfolding run_changes
run_changes-IsRouted xs a b = go xs (new_core a b) (new_core-IsRouted a b)
  where
    go : (xs : List Change) (c : Core) → IsRouted c → IsRouted (run_changes xs c)
    go [] c h = h
    go (x ∷ xs) c h = go xs (change x c) (change-IsRouted x c h)
