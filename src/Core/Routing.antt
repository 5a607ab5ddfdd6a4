-- ===== src/Core/Routing.antt =====
-- The two tables of Core: a venue has a slot exactly when the slot has the venue.
use aggregated_order_book.Base.{
  ℕ, zero, suc, ◌<◌, ◌≡◌, refl, sym, ap, ◌∙◌, ◌≢◌, ◌⊎◌, inl, inr, false, Option, none, some, List,
  [], ◌∷◌, arith, ◌==◌, Bool-cases, length, get_elem?, get_or, set, length-set, get_or-set_self,
  get_or-set_ne,
}
use aggregated_order_book.Base.Text.{Text}
use aggregated_order_book.Types.{VenueId, max_venues, binance, bybit, okx, count}
use aggregated_order_book.Venues.{venue_index, to_venue_id}
use aggregated_order_book.Registry.{find_name, name_at}
use aggregated_order_book.Core.{Core, slot_for}
use aggregated_order_book.Core.Maps.{some-injective}
use aggregated_order_book.Core.Ingest.{mark_all_for_rebuild}
use aggregated_order_book.Core.Membership.{activate}
use aggregated_order_book.Venues.Names.{to_venue_id_iff}
use aggregated_order_book.Registry.Find.{IsRegistry}
use aggregated_order_book.Core.Members.{named-inside}

venue_index_injective : (v w : VenueId) → venue_index v ≡ venue_index w → v ≡ w
unfolding venue_index
venue_index_injective binance binance e = refl
venue_index_injective binance bybit e = absurd (omega (arith, e))
venue_index_injective binance okx e = absurd (omega (arith, e))
venue_index_injective binance count e = absurd (omega (arith, e))
venue_index_injective bybit binance e = absurd (omega (arith, e))
venue_index_injective bybit bybit e = refl
venue_index_injective bybit okx e = absurd (omega (arith, e))
venue_index_injective bybit count e = absurd (omega (arith, e))
venue_index_injective okx binance e = absurd (omega (arith, e))
venue_index_injective okx bybit e = absurd (omega (arith, e))
venue_index_injective okx okx e = refl
venue_index_injective okx count e = absurd (omega (arith, e))
venue_index_injective count binance e = absurd (omega (arith, e))
venue_index_injective count bybit e = absurd (omega (arith, e))
venue_index_injective count okx e = absurd (omega (arith, e))
venue_index_injective count count e = refl

-- `active_venues_` at a slot.
abbrev pub venue_at : Core → ℕ → Option VenueId
venue_at c slot = get_or c.active_venues slot none

-- The tables and the registry of a Core.
pub record IsRouted (c : Core) : Type 0 where
  pub registry : IsRegistry max_venues c.venue_registry.names
  pub actives : length c.active_venues ≡ max_venues
  pub slots : length c.venue_id_to_slot ≡ 3
  pub named :
      (i : ℕ) (v : VenueId) → venue_at c i ≡ some v → to_venue_id (name_at c.venue_registry i) ≡ v
  pub proper : (i : ℕ) → venue_at c i ≢ some count
  pub forth : (v : VenueId) (i : ℕ) → slot_for c v ≡ some i → venue_at c i ≡ some v
  pub back : (i : ℕ) (v : VenueId) → venue_at c i ≡ some v → slot_for c v ≡ some i

-- Two slots of one venue are one slot, since no name is registered twice.
same_slot :
    (names : List Text) (i j : ℕ) (v : VenueId)
    → IsRegistry max_venues names
    → v ≢ count
    → to_venue_id (get_or names i []) ≡ v
    → to_venue_id (get_or names j []) ≡ v
    → i ≡ j
same_slot names i j v h p a b =
    let x = (to_venue_id_iff (get_or names i []) v p).0 a in
    let y = (to_venue_id_iff (get_or names j []) v p).0 b in
    let k = at_slot names i (named-inside names i (λ e. p (sym a ∙ e))) in
    let l = at_slot names j (named-inside names j (λ e. p (sym b ∙ e))) in
    let m = h.dense i _ k in
    let n = h.dense j _ l in some-injective (sym m ∙ ap (find_name names) (sym x ∙ y) ∙ n)
  where
    at_slot :
        (names : List Text) (i : ℕ)
        → i < length names
        → get_elem? names i ≡ some (get_or names i [])
    at_slot [] i h = absurd (omega (arith, h))
    at_slot (n ∷ names) zero h = refl
    at_slot (n ∷ names) (suc i) h = at_slot names i (omega (arith, h))

pub get_or-set_other :
    {A : Type 0}
    → (xs : List (Option A)) (i j : ℕ) (v : Option A) → (i == j) ≡ false
    → get_or (set xs j v) i none ≡ get_or xs i none
get_or-set_other xs i j v e = get_or-set_ne xs j i v none (ground (arith, e))

-- The table by venue after a write for one venue.
pub slot_for-other :
    (slots : List (Option ℕ)) (v w : VenueId) (o : Option ℕ)
    → w ≢ v
    → get_or (set slots (venue_index v) o) (venue_index w) none ≡ get_or slots (venue_index w) none
slot_for-other slots v w o h =
    get_or-set_ne slots (venue_index v) (venue_index w) o none
      (λ e. h (venue_index_injective w v (sym e)))

index-inside : (v : VenueId) → v ≢ count → venue_index v < 3
unfolding venue_index
index-inside binance h = omega arith
index-inside bybit h = omega arith
index-inside okx h = omega arith
index-inside count h = absurd (h refl)

pub venue_eq : (v w : VenueId) → (v ≡ w) ⊎ (v ≢ w)
venue_eq v w = elim (Bool-cases (venue_index v == venue_index w)) [
  | inl e ↦ inl (venue_index_injective v w (ground (arith, e)))
  | inr e ↦ inr (λ k. ground (arith, e, ap venue_index k))
]

-- A venue's slot, and the slots after the activation of `slot` for `v`.
module _ (v : VenueId) (slot : ℕ) (c : Core) (h : IsRouted c) (proper_v : v ≢ count)
    (names : to_venue_id (name_at c.venue_registry slot) ≡ v) where
  slot_small : slot < max_venues
  slot_small = omega (
    arith,
    h.registry.bounded,
    named-inside c.venue_registry.names slot (λ e. proper_v (sym names ∙ e)),
  )

  here : get_or (set c.active_venues slot (some v)) slot none ≡ some v
  here = get_or-set_self c.active_venues slot (some v) none (omega (arith, h.actives, slot_small))

  there :
      get_or (set c.venue_id_to_slot (venue_index v) (some slot)) (venue_index v) none ≡ some slot
  there =
      get_or-set_self c.venue_id_to_slot (venue_index v) (some slot) none
        (omega (arith, h.slots, index-inside v proper_v))

  activate-named :
      (i : ℕ) (w : VenueId)
      → venue_at (activate slot v c) i ≡ some w
      → to_venue_id (name_at c.venue_registry i) ≡ w
  unfolding activate mark_all_for_rebuild
  activate-named i w e = elim (Bool-cases (i == slot)) [
    | inl a ↦
        let same : i ≡ slot = ground (arith, a) in
        ap (λ j. to_venue_id (name_at c.venue_registry j)) same
        ∙ names
        ∙ some-injective
            (sym here ∙ ap (λ j. get_or (set c.active_venues slot (some v)) j none) (sym same) ∙ e)
    | inr a ↦ h.named i w (sym (get_or-set_other c.active_venues i slot (some v) a) ∙ e)
  ]

  activate-proper : (i : ℕ) → venue_at (activate slot v c) i ≢ some count
  unfolding activate mark_all_for_rebuild
  activate-proper i e = elim (Bool-cases (i == slot)) [
    | inl a ↦
        let same : i ≡ slot = ground (arith, a) in
        proper_v (
          some-injective
            (sym here ∙ ap (λ j. get_or (set c.active_venues slot (some v)) j none) (sym same) ∙ e))
    | inr a ↦ h.proper i (sym (get_or-set_other c.active_venues i slot (some v) a) ∙ e)
  ]

  activate-forth :
      (w : VenueId) (i : ℕ)
      → slot_for (activate slot v c) w ≡ some i
      → venue_at (activate slot v c) i ≡ some w
  unfolding activate mark_all_for_rebuild slot_for
  activate-forth w i e = elim (venue_eq w v) [
    | inl a ↦
        let at : i ≡ slot = some-injective (
          sym e
          ∙ ap
              (λ x.
                get_or (set c.venue_id_to_slot (venue_index v) (some slot)) (venue_index x) none)
              a
          ∙ there) in
        ap (λ j. get_or (set c.active_venues slot (some v)) j none) at ∙ here ∙ ap some (sym a)
    | inr a ↦
        let old = h.forth w i (sym (slot_for-other c.venue_id_to_slot v w (some slot) a) ∙ e) in
        elim (Bool-cases (i == slot)) [
          | inl b ↦
              let same : i ≡ slot = ground (arith, b) in
              absurd (
                a (
                  sym (h.named i w old)
                  ∙ ap (λ j. to_venue_id (name_at c.venue_registry j)) same
                  ∙ names))
          | inr b ↦ get_or-set_other c.active_venues i slot (some v) b ∙ old
        ]
  ]

  activate-back :
      (i : ℕ) (w : VenueId)
      → venue_at (activate slot v c) i ≡ some w
      → slot_for (activate slot v c) w ≡ some i
  unfolding activate mark_all_for_rebuild slot_for
  activate-back i w e = elim (Bool-cases (i == slot)) [
    | inl a ↦
        let same : i ≡ slot = ground (arith, a) in
        let venue : w ≡ v =
          some-injective
            (sym e ∙ ap (λ j. get_or (set c.active_venues slot (some v)) j none) same ∙ here) in
        ap (λ x. get_or (set c.venue_id_to_slot (venue_index v) (some slot)) (venue_index x) none)
          venue
        ∙ there
        ∙ ap some (sym same)
    | inr a ↦
        let old = sym (get_or-set_other c.active_venues i slot (some v) a) ∙ e in
        elim (venue_eq w v) [
          | inl b ↦
              let clash =
                same_slot c.venue_registry.names i slot v h.registry proper_v (h.named i w old ∙ b)
                  names in
              absurd (ground (arith, a, clash))
          | inr b ↦ slot_for-other c.venue_id_to_slot v w (some slot) b ∙ h.back i w old
        ]
  ]

  pub activate-IsRouted : IsRouted (activate slot v c)
  unfolding activate mark_all_for_rebuild
  activate-IsRouted = record {
    registry = h.registry;
    actives = length-set c.active_venues slot (some v) ∙ h.actives;
    slots = length-set c.venue_id_to_slot (venue_index v) (some slot) ∙ h.slots;
    named = activate-named;
    proper = activate-proper;
    forth = activate-forth;
    back = activate-back;
  }
