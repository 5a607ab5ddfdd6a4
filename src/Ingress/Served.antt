-- ===== src/Ingress/Served.antt =====
-- Every message that is handed over stands in the queue of a registered slot.
use aggregated_order_book.Base.{
  ℕ, ◌≤◌, ◌<◌, ◌≡◌, refl, sym, ap, subst, ◌∙◌, ◌⊎◌, inl, inr, Bool, true, false, Option, none, some,
  List, [], arith, leb, ◌==◌, Bool-cases, Option-cases, length, get_or, get_or-set_ne,
}
use aggregated_order_book.Base.Text.{Text, text_eq}
use aggregated_order_book.Types.{
  VenueId, BookUpdate, BboQuote, max_venues, VenueHealthEvent, binance, bybit, okx, count,
}
use aggregated_order_book.Registry.{registered, register}
use aggregated_order_book.Registry.Register.{register-grows, register_in-IsRegistered}
use aggregated_order_book.Wire.{book_type, bbo_type}
use aggregated_order_book.Wire.Codec.{decode_book_update}
use aggregated_order_book.Wire.Events.{decode_bbo_quote, decode_health}
use aggregated_order_book.Core.{
  ProviderMessage, Core, venue_count, book_update, bbo_quote, health_event, venue_registration,
}
use aggregated_order_book.Core.Membership.{register_as}
use aggregated_order_book.Core.Queues.{
  spin_attempts, try_enqueue_bounded, offer_message, note_quote_drop, enqueue, enqueue_quote,
}
use aggregated_order_book.Core.Enqueue.{enqueue-EnqueueCase, no_queue, taken, overflow}
use aggregated_order_book.Ingress.{
  handed, Identities, slot_of, bind_slot, Ingress, decode_venue, hand_over, note_early, greeted,
  on_book_update, on_quote, on_health, on_data,
}

-- The slots of the peers are registered, and no other slot's queue holds anything.
pub record IsServed (s : Ingress) : Type 0 where
  pub mapped :
      (id : Text) (slot : ℕ) → slot_of s.identity_to_slot id ≡ some slot → slot < venue_count s.core
  pub quiet : (i : ℕ) → venue_count s.core ≤ i → get_or s.core.queues i [] ≡ []

-- A call for a registered slot leaves the other slots' queues and the registry alone.
pub record IsOffered (slot : ℕ) (c c' : Core) : Type 0 where
  pub registry : c'.venue_registry ≡ c.venue_registry
  pub others : (i : ℕ) → (i == slot) ≡ false → get_or c'.queues i [] ≡ get_or c.queues i []

enqueue-IsOffered :
    (slot : ℕ) (m : ProviderMessage) (c : Core) → IsOffered slot c (enqueue slot m c).1
enqueue-IsOffered slot m c = elim (enqueue-EnqueueCase slot m c) [
  | no_queue a r ↦ rw r (record { registry = refl; others = λ i e. refl })
  | taken a b r ↦ rw r (record {
    registry = refl;
    others = λ i e. get_or-set_ne c.queues slot i _ [] (ground (arith, e));
  })
  | overflow a b r ↦ rw r (record { registry = refl; others = λ i e. refl })
]

offered-quiet :
    (slot : ℕ) (c c' : Core)
    → IsOffered slot c c'
    → slot < venue_count c
    → ((i : ℕ) → venue_count c ≤ i → get_or c.queues i [] ≡ [])
    → (i : ℕ) → venue_count c' ≤ i
    → get_or c'.queues i [] ≡ []
offered-quiet slot c c' o l q i k =
    let same_count : venue_count c' ≡ venue_count c = ap registered o.registry in
    o.others i (ground (arith, same_count, k, l)) ∙ q i (omega (arith, same_count, k))

handed-IsServed :
    (slot : ℕ) (out : Bool × Core) (s : Ingress)
    → IsOffered slot s.core out.1
    → slot < venue_count s.core
    → IsServed s
    → IsServed (handed out s)
unfolding handed
handed-IsServed slot (true, c) s o l h = record {
  mapped = λ id x e. subst (λ n. x < n) (sym (ap registered o.registry)) (h.mapped id x e);
  quiet = offered-quiet slot s.core c o l h.quiet;
}
handed-IsServed slot (false, c) s o l h = record {
  mapped = λ id x e. subst (λ n. x < n) (sym (ap registered o.registry)) (h.mapped id x e);
  quiet = offered-quiet slot s.core c o l h.quiet;
}

pub hand_over-IsServed :
    (slot : ℕ) (m : ProviderMessage) (s : Ingress)
    → slot < venue_count s.core
    → IsServed s
    → IsServed (hand_over slot m s)
unfolding hand_over
hand_over-IsServed slot m s l h =
    handed-IsServed slot (enqueue slot m s.core) s (enqueue-IsOffered slot m s.core) l h

enqueue_quote-IsOffered :
    (slot : ℕ) (q : BboQuote) (c : Core) → IsOffered slot c (enqueue_quote slot q c)
unfolding enqueue_quote note_quote_drop
enqueue_quote-IsOffered slot q c = elim (Bool-cases (leb (length c.queues) slot)) [
  | inl a ↦ rw (enqueue_quote, a) (record { registry = refl; others = λ i e. refl })
  | inr a ↦
      elim (Option-cases
        (try_enqueue_bounded spin_attempts (get_or c.queues slot []) (bbo_quote q))) [
          | inl b ↦
              rw (enqueue_quote, a, offer_message, b)
                (record { registry = refl; others = λ i e. refl })
          | inr (queue, b) ↦
              rw (enqueue_quote, a, offer_message, b)
                (record {
                  registry = refl;
                  others = λ i e. get_or-set_ne c.queues slot i queue [] (ground (arith, e));
                })
        ]
]

on_quote-IsServed :
    (slot : ℕ) (o : Option BboQuote) (s : Ingress)
    → slot < venue_count s.core
    → IsServed s
    → IsServed (on_quote slot o s)
unfolding on_quote
on_quote-IsServed slot none s l h = h
on_quote-IsServed slot (some q) s l h =
    let o = enqueue_quote-IsOffered slot q s.core in
    record {
      mapped = λ id x e. subst (λ n. x < n) (sym (ap registered o.registry)) (h.mapped id x e);
      quiet = offered-quiet slot s.core (enqueue_quote slot q s.core) o l h.quiet;
    }

on_book_update-IsServed :
    (slot : ℕ) (o : Option BookUpdate) (s : Ingress)
    → slot < venue_count s.core
    → IsServed s
    → IsServed (on_book_update slot o s)
unfolding on_book_update
on_book_update-IsServed slot none s l h = h
on_book_update-IsServed slot (some u) s l h = hand_over-IsServed slot (book_update u) s l h

on_health-IsServed :
    (slot : ℕ) (o : Option VenueHealthEvent) (s : Ingress)
    → slot < venue_count s.core
    → IsServed s
    → IsServed (on_health slot o s)
unfolding on_health
on_health-IsServed slot none s l h = h
on_health-IsServed slot (some e) s l h = hand_over-IsServed slot (health_event e) s l h

pub on_data-IsServed :
    (type : ℕ) (bytes : List ℕ) (o : Option ℕ) (s : Ingress)
    → ((slot : ℕ) → o ≡ some slot → slot < venue_count s.core)
    → IsServed s
    → IsServed (on_data type bytes o s)
unfolding on_data note_early
on_data-IsServed type bytes none s l h = record { mapped = h.mapped; quiet = h.quiet }
on_data-IsServed type bytes (some slot) s l h = elim (Bool-cases (type == book_type)) [
  | inl a ↦
      rw a (on_book_update-IsServed slot (decode_book_update decode_venue bytes) s (l slot refl) h)
  | inr a ↦ elim (Bool-cases (type == bbo_type)) [
    | inl b ↦
        rw (a, b) (on_quote-IsServed slot (decode_bbo_quote decode_venue bytes) s (l slot refl) h)
    | inr b ↦
        rw (a, b) (on_health-IsServed slot (decode_health decode_venue bytes) s (l slot refl) h)
  ]
]

-- Names registered.
pub record IsNamedSlot (c : Core) (out : Option ℕ × Core) : Type 0 where
  pub queues : out.1.queues ≡ c.queues
  pub grows : venue_count c ≤ venue_count out.1
  pub slot : (i : ℕ) → out.0 ≡ some i → i < venue_count out.1

pub register_as-IsNamedSlot :
    (v : VenueId) (name : Text) (c : Core) → IsNamedSlot c (register_as v name c)
unfolding register_as register
register_as-IsNamedSlot count name c = record {
  queues = refl;
  grows = omega arith;
  slot = λ i e. absurd (cc);
}
register_as-IsNamedSlot binance name c = record {
  queues = refl;
  grows = register-grows c.venue_registry name;
  slot = λ i e. (register_in-IsRegistered max_venues c.venue_registry.names name i e).inside;
}
register_as-IsNamedSlot bybit name c = record {
  queues = refl;
  grows = register-grows c.venue_registry name;
  slot = λ i e. (register_in-IsRegistered max_venues c.venue_registry.names name i e).inside;
}
register_as-IsNamedSlot okx name c = record {
  queues = refl;
  grows = register-grows c.venue_registry name;
  slot = λ i e. (register_in-IsRegistered max_venues c.venue_registry.names name i e).inside;
}

bound-IsServed :
    (c : Core) (s : Ingress)
    → c.queues ≡ s.core.queues
    → venue_count s.core ≤ venue_count c
    → IsServed s
    → IsServed (record s { core = c })
bound-IsServed c s q g h = record {
  mapped = λ id x e. omega (arith, g, h.mapped id x e);
  quiet = λ i k. ap (λ qs. get_or qs i []) q ∙ h.quiet i (omega (arith, g, k));
}

slot_of-bind_slot :
    (m : Identities) (id other : Text) (slot x : ℕ)
    → slot_of (bind_slot m id slot) other ≡ some x
    → (x ≡ slot) ⊎ (slot_of m other ≡ some x)
unfolding slot_of
slot_of-bind_slot m id other slot x e = elim (Bool-cases (text_eq id other)) [
  | inl a ↦ inl (ground (arith, e, a))
  | inr a ↦ inr (ground (arith, e, a))
]

pub greeted-IsServed :
    (id : Text) (out : Option ℕ × Core) (s : Ingress)
    → IsNamedSlot s.core out
    → IsServed s
    → IsServed (greeted id out s)
unfolding greeted
greeted-IsServed id (none, c) s n h = bound-IsServed c s n.queues n.grows h
greeted-IsServed id (some slot, c) s n h =
    let b = bound-IsServed c s n.queues n.grows h in
    hand_over-IsServed slot venue_registration _ (n.slot slot refl) (record {
      mapped = λ other x e. elim (slot_of-bind_slot s.identity_to_slot id other slot x e) [
        | inl a ↦ subst (λ y. y < venue_count c) (sym a) (n.slot slot refl)
        | inr a ↦ b.mapped other x a
      ];
      quiet = b.quiet;
    })
