-- ===== src/Core/Emptied.antt =====
-- The queues after a pass: nothing that stood in them when it began is left.
use aggregated_order_book.Base.{
  set-set, set-get_or, get_or-set_default, ℕ, zero, suc, ◌+◌, ◌≤◌, ◌<◌, ◌≡◌, refl, sym, ap, ◌∙◌,
  ◌⊎◌, inl, inr, false, List, [], ◌∷◌, arith, ◌==◌, Bool-cases, get_or, set,
}
use aggregated_order_book.Registry.{registered}
use aggregated_order_book.Core.{ProviderMessage, Core, venue_count}
use aggregated_order_book.Core.Queues.{
  dispatch, drain_queue, drain_slots, drain_once, has_pending_from, has_pending,
}
use aggregated_order_book.Core.Frames.{dispatch-Keeps}

abbrev Queues : Type 0
Queues = List (List ProviderMessage)

-- A queue that is not empty is one of the queues.
get_or-set_queue :
    (qs : Queues) (i : ℕ) (m : ProviderMessage) (ms b : List ProviderMessage)
    → get_or qs i [] ≡ m ∷ ms
    → get_or (set qs i b) i [] ≡ b
get_or-set_queue [] i m ms b e = absurd (cc)
get_or-set_queue (q ∷ qs) zero m ms b e = refl
get_or-set_queue (q ∷ qs) (suc i) m ms b e = get_or-set_queue qs i m ms b e

-- One queue's loop empties that queue and keeps the others.
pub record IsDrained (slot : ℕ) (c c' : Core) : Type 0 where
  pub queues : c'.queues ≡ set c.queues slot []
  pub registry : c'.venue_registry ≡ c.venue_registry

drain_queue-IsDrained :
    (slot : ℕ) (ms : List ProviderMessage) (c : Core)
    → get_or c.queues slot [] ≡ ms
    → IsDrained slot c (drain_queue slot ms c).0
unfolding drain_queue
drain_queue-IsDrained slot [] c e = record {
  queues = sym (ap (set c.queues slot) (sym e) ∙ set-get_or c.queues slot []);
  registry = refl;
}
drain_queue-IsDrained slot (m ∷ ms) c e =
    let c' = record c { queues = set c.queues slot ms } in
    let k = dispatch-Keeps slot m c' in
    let rest =
      drain_queue-IsDrained slot ms (dispatch slot m c').0
        (ap (λ qs. get_or qs slot []) k.queues ∙ get_or-set_queue c.queues slot m ms ms e) in
    record {
      queues = rest.queues ∙ ap (λ qs. set qs slot []) k.queues ∙ set-set c.queues slot ms [];
      registry = rest.registry ∙ k.registry;
    }

-- A queue stays empty through the loop over another.
stays_empty : (qs : Queues) (i j : ℕ) → get_or qs i [] ≡ [] → get_or (set qs j []) i [] ≡ []
stays_empty [] i j e = refl
stays_empty (q ∷ qs) zero zero e = refl
stays_empty (q ∷ qs) zero (suc j) e = e
stays_empty (q ∷ qs) (suc i) zero e = e
stays_empty (q ∷ qs) (suc i) (suc j) e = stays_empty qs i j e

drain_slots-empty :
    (todo slot : ℕ) (c : Core) (i : ℕ)
    → (slot ≤ i × i < slot + todo) ⊎ (get_or c.queues i [] ≡ [])
    → get_or (drain_slots todo slot c).1.0.queues i [] ≡ []
unfolding drain_slots
drain_slots-empty zero slot c i (inl (a, b)) = absurd (omega (arith, a, b))
drain_slots-empty zero slot c i (inr e) = e
drain_slots-empty (suc todo) slot c i h =
    let c' = (drain_queue slot (get_or c.queues slot []) c).0 in
    let d = drain_queue-IsDrained slot (get_or c.queues slot []) c refl in
    drain_slots-empty todo (suc slot) c' i (next c' d h)
  where
    next :
        (c' : Core)
        → IsDrained slot c c'
        → (slot ≤ i × i < slot + suc todo) ⊎ (get_or c.queues i [] ≡ [])
        → (suc slot ≤ i × i < suc slot + todo) ⊎ (get_or c'.queues i [] ≡ [])
    next c' d (inr e) = inr (ap (λ qs. get_or qs i []) d.queues ∙ stays_empty c.queues i slot e)
    next c' d (inl (a, b)) = elim (Bool-cases (i == slot)) [
      | inl e ↦
          let same : i ≡ slot = ground (arith, e) in
          inr (
            ap (λ qs. get_or qs i []) d.queues
            ∙ ap (λ j. get_or (set c.queues slot []) j []) same
            ∙ get_or-set_default c.queues slot [])
      | inr e ↦ inl (ground (arith, a, e), omega (arith, b))
    ]

drain_slots-registry :
    (todo slot : ℕ) (c : Core) → (drain_slots todo slot c).1.0.venue_registry ≡ c.venue_registry
unfolding drain_slots
drain_slots-registry zero slot c = refl
drain_slots-registry (suc todo) slot c =
    drain_slots-registry todo (suc slot) (drain_queue slot (get_or c.queues slot []) c).0
    ∙ (drain_queue-IsDrained slot (get_or c.queues slot []) c refl).registry

has_pending_from-none :
    (n : ℕ) (qs : Queues) → ((i : ℕ) → i < n → get_or qs i [] ≡ []) → has_pending_from n qs ≡ false
unfolding has_pending_from
has_pending_from-none zero qs h = refl
has_pending_from-none (suc n) [] h = refl
has_pending_from-none (suc n) ([] ∷ qs) h =
    has_pending_from-none n qs (λ i l. h (suc i) (omega (arith, l)))
has_pending_from-none (suc n) ((m ∷ ms) ∷ qs) h = absurd (cc (h 0 (omega arith)))

-- A pass, with nothing pushed meanwhile, ends with no message left in a registered slot's queue,
-- whatever the messages did.
pub drain_once-has_pending : (c : Core) → has_pending (drain_once c).1.0 ≡ false
unfolding drain_once has_pending
drain_once-has_pending c =
    let after = (drain_slots (venue_count c) 0 c).1.0 in
    ap (λ r. has_pending_from (registered r) after.queues)
      (drain_slots-registry (venue_count c) 0 c)
    ∙ has_pending_from-none (venue_count c) after.queues
        (λ i l. drain_slots-empty (venue_count c) 0 c i (inl (omega arith, omega (arith, l))))
