-- ===== src/State/Level.antt =====
-- A level of the consolidated book under one venue's transition.
use aggregated_order_book.Base.{
  ℕ, ◌%◌, ◌^◌, ◌<◌, ◌≡◌, refl, subst, ◌∙◌, ◌≢◌, inl, inr, Option, none, some, [], arith, ◌==◌,
  if◌then◌else◌, Option-cases,
}
use aggregated_order_book.Types.{max_venues}
use aggregated_order_book.Bbo.Venues.{
  find_slot, sum_qty, find_slot-set_slot, sum_qty-set_slot, find_slot-erase_slot,
  sum_qty-erase_slot,
}
use aggregated_order_book.Merged.{MergedLevel}
use aggregated_order_book.Merged.Held.{IsQty, SlotsFrom, IsLevel, find_slot-IsQty}
use aggregated_order_book.State.{put_venue, remove_venue}
use aggregated_order_book.State.Slots.{
  SlotsFrom-DistinctSlots, SlotsFrom-erase_slot, SlotsFrom-set_slot, SlotsFrom-insert_slot,
  find_slot-insert_slot, sum_qty-insert_slot, room_lem,
}

-- The level `l` after venue `s` has the quantity that `o` says there, if any.
pub record Attributes (l : MergedLevel) (s : ℕ) (o : Option ℕ) (l' : MergedLevel) : Type 0 where
  pub price : l'.price ≡ l.price
  pub slots : SlotsFrom 0 l'.venues
  pub find : (i : ℕ) → find_slot l'.venues i ≡ (if i == s then o else find_slot l.venues i)
  pub total : l'.qty ≡ sum_qty l'.venues % 2 ^ 64

pub put_venue-Attributes :
    (l : MergedLevel) (s q : ℕ)
    → IsLevel l
    → s < max_venues
    → IsQty q
    → Attributes l s (some q) (put_venue l s q)
unfolding put_venue
put_venue-Attributes l s q h u n = elim (Option-cases (find_slot l.venues s)) [
  | inl e ↦
      rw (e, room_lem l.venues s u e h.slots, put_venue)
        (record {
          price = refl;
          slots = SlotsFrom-insert_slot 0 l.venues s q (omega arith) u n e h.slots;
          find = λ i. find_slot-insert_slot l.venues s q i e;
          total = omega (arith, h.total, sum_qty-insert_slot l.venues s q);
        })
  | inr (old, e) ↦
      let small = (find_slot-IsQty 0 s old l.venues h.slots e).1 in
      rw (e, put_venue)
        (record {
          price = refl;
          slots = SlotsFrom-set_slot 0 l.venues s q n h.slots;
          find = λ i. find_slot-set_slot l.venues s q old i e;
          total = omega (arith, small, h.total, sum_qty-set_slot l.venues s q old e);
        })
]

pub remove_venue-Attributes :
    (l : MergedLevel) (s old : ℕ)
    → IsLevel l
    → find_slot l.venues s ≡ some old
    → Attributes l s none (remove_venue l s)
unfolding remove_venue
remove_venue-Attributes l s old h e =
    let small = (find_slot-IsQty 0 s old l.venues h.slots e).1 in
    rw (e, remove_venue)
      (record {
        price = refl;
        slots = SlotsFrom-erase_slot 0 l.venues s h.slots;
        find = λ i. find_slot-erase_slot l.venues s i (SlotsFrom-DistinctSlots 0 l.venues h.slots);
        total = omega (arith, small, h.total, sum_qty-erase_slot l.venues s old e);
      })

-- A level that still has a venue is well-formed.
pub Attributes-IsLevel :
    (l : MergedLevel) (s : ℕ) (o : Option ℕ) (l' : MergedLevel)
    → Attributes l s o l'
    → l'.venues ≢ []
    → IsLevel l'
Attributes-IsLevel l s o l' a e = record { slots = a.slots; attributed = e; total = a.total }

find_nothing : (s q : ℕ) → find_slot [] s ≢ some q
unfolding find_slot
find_nothing s q e = cc

pub put_venue_attributed :
    (l : MergedLevel) (s q : ℕ)
    → Attributes l s (some q) (put_venue l s q)
    → (put_venue l s q).venues ≢ []
put_venue_attributed l s q a e =
    let found : find_slot [] s ≡ some q =
      subst (λ vs. find_slot vs s ≡ some q) e (a.find s ∙ ground arith) in
    absurd (find_nothing s q found)
