-- ===== src/Core/Removal.antt =====
-- `RemoveVenue`: the tables of venues and slots after it.
use aggregated_order_book.Base.{
  ℕ, ◌≡◌, refl, sym, ap, ◌∙◌, inl, inr, false, none, some, arith, leb, ◌==◌, Bool-cases,
  Option-cases, get_or, set, length-set, get_or-set_default,
}
use aggregated_order_book.Types.{VenueId, count}
use aggregated_order_book.Venues.{venue_index}
use aggregated_order_book.Core.{Core, venue_count, slot_for}
use aggregated_order_book.Core.Maps.{some-injective}
use aggregated_order_book.Core.Ingest.{mark_all_for_rebuild}
use aggregated_order_book.Core.Membership.{deactivate_as, deactivate, remove_venue}
use aggregated_order_book.Core.Routing.{
  venue_at, IsRouted, get_or-set_other, slot_for-other, venue_eq,
}

-- The removal of the venue of an active slot.
module _ (v : VenueId) (slot : ℕ) (c : Core) (h : IsRouted c)
    (active : venue_at c slot ≡ some v) where
  deactivate-kept :
      (i : ℕ) (w : VenueId)
      → get_or (set c.active_venues slot none) i none ≡ some w
      → (venue_at c i ≡ some w) × (i == slot ≡ false)
  deactivate-kept i w e = elim (Bool-cases (i == slot)) [
    | inl a ↦
        let same : i ≡ slot = ground (arith, a) in
        absurd (
          cc (
            sym e
            ∙ ap (λ j. get_or (set c.active_venues slot none) j none) same
            ∙ get_or-set_default c.active_venues slot none))
    | inr a ↦ (sym (get_or-set_other c.active_venues i slot none a) ∙ e, a)
  ]

  deactivate-forth :
      (w : VenueId) (i : ℕ)
      → slot_for (deactivate slot v c) w ≡ some i
      → venue_at (deactivate slot v c) i ≡ some w
  unfolding deactivate mark_all_for_rebuild slot_for
  deactivate-forth w i e = elim (venue_eq w v) [
    | inl a ↦ absurd (
        cc (
          sym e
          ∙ ap (λ x. get_or (set c.venue_id_to_slot (venue_index v) none) (venue_index x) none) a
          ∙ get_or-set_default c.venue_id_to_slot (venue_index v) none))
    | inr a ↦
        let old = h.forth w i (sym (slot_for-other c.venue_id_to_slot v w none a) ∙ e) in
        elim (Bool-cases (i == slot)) [
          | inl b ↦
              let same : i ≡ slot = ground (arith, b) in
              absurd (a (some-injective (sym old ∙ ap (venue_at c) same ∙ active)))
          | inr b ↦ get_or-set_other c.active_venues i slot none b ∙ old
        ]
  ]

  deactivate-back :
      (i : ℕ) (w : VenueId)
      → venue_at (deactivate slot v c) i ≡ some w
      → slot_for (deactivate slot v c) w ≡ some i
  unfolding deactivate mark_all_for_rebuild slot_for
  deactivate-back i w e =
      let (old, other) = deactivate-kept i w e in
      elim (venue_eq w v) [
        | inl a ↦
            let clash : i ≡ slot =
              some-injective (sym (h.back i w old) ∙ ap (slot_for c) a ∙ h.back slot v active) in
            absurd (ground (arith, other, clash))
        | inr a ↦ slot_for-other c.venue_id_to_slot v w none a ∙ h.back i w old
      ]

  deactivate-IsRouted : IsRouted (deactivate slot v c)
  unfolding deactivate mark_all_for_rebuild
  deactivate-IsRouted = record {
    registry = h.registry;
    actives = length-set c.active_venues slot none ∙ h.actives;
    slots = length-set c.venue_id_to_slot (venue_index v) none ∙ h.slots;
    named = λ i w e. h.named i w (deactivate-kept i w e).0;
    proper = λ i e. h.proper i (deactivate-kept i count e).0;
    forth = deactivate-forth;
    back = deactivate-back;
  }

-- The cases of a removal.
pub data RemovalCase (slot : ℕ) (c : Core) : Type 0 where
  ignored : remove_venue slot c ≡ c → RemovalCase slot c
  removed :
      (v : VenueId)
      → venue_at c slot ≡ some v
      → remove_venue slot c ≡ deactivate slot v c
      → RemovalCase slot c

pub removal_case : (slot : ℕ) (c : Core) → RemovalCase slot c
unfolding remove_venue deactivate_as
removal_case slot c = elim (Bool-cases (leb (venue_count c) slot)) [
  | inl a ↦ ignored (rw (remove_venue, a) refl)
  | inr a ↦ elim (Option-cases (venue_at c slot)) [
    | inl b ↦ ignored (rw (remove_venue, a, b) refl)
    | inr (v, b) ↦ removed v b (rw (remove_venue, a, b) refl)
  ]
]

pub remove_venue-IsRouted : (slot : ℕ) (c : Core) → IsRouted c → IsRouted (remove_venue slot c)
remove_venue-IsRouted slot c h = elim (removal_case slot c) [
  | ignored r ↦ rw r h
  | removed v a r ↦ rw r (deactivate-IsRouted v slot c h a)
]
