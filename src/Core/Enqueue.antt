-- ===== src/Core/Enqueue.antt =====
-- A message offered to a slot's queue: taken at the end of the queue, or refused and counted.
use aggregated_order_book.Base.{
  ℕ, zero, suc, ◌+◌, ◌%◌, ◌^◌, ◌≤◌, ◌<◌, ◌≡◌, refl, ◌∙◌, inl, inr, Bool, true, false, List, [], ◌∷◌,
  ◌++◌, arith, ltb, leb, Bool-cases, Option-cases, length, get_or, set, All, length-append, All-set,
}
use aggregated_order_book.Core.{ProviderMessage, Core}
use aggregated_order_book.Core.Queues.{
  queue_capacity, try_push, try_enqueue_bounded, offer_message, note_overflow, enqueue, overflows,
}

-- A queue that has room takes the message on the first attempt; a full one on none.
try_enqueue_bounded-try_push :
    (n : ℕ) (queue : List ProviderMessage) (m : ProviderMessage)
    → try_enqueue_bounded (suc n) queue m ≡ try_push queue m
unfolding try_enqueue_bounded
try_enqueue_bounded-try_push zero queue m = elim (Option-cases (try_push queue m)) [
  | inl a ↦ rw (try_enqueue_bounded, a) refl
  | inr (q, a) ↦ rw (try_enqueue_bounded, a) refl
]
try_enqueue_bounded-try_push (suc n) queue m = elim (Option-cases (try_push queue m)) [
  | inl a ↦ rw (try_enqueue_bounded, a) (try_enqueue_bounded-try_push n queue m ∙ a)
  | inr (q, a) ↦ rw (try_enqueue_bounded, a) refl
]

-- The three outcomes of a call.
pub data EnqueueCase (slot : ℕ) (m : ProviderMessage) (c : Core) (out : Bool × Core) : Type 0 where
  no_queue : length c.queues ≤ slot → out ≡ (false, c) → EnqueueCase slot m c out
  taken :
      slot < length c.queues
      → length (get_or c.queues slot []) < queue_capacity
      → out ≡ (true, record c { queues = set c.queues slot (get_or c.queues slot [] ++ m ∷ []) })
      → EnqueueCase slot m c out
  overflow :
      slot < length c.queues
      → queue_capacity ≤ length (get_or c.queues slot [])
      → out ≡ (
        false,
        record c { overflow_count = set c.overflow_count slot ((overflows c slot + 1) % 2 ^ 64) },
      )
      → EnqueueCase slot m c out

-- A depth update, a verdict, a registration or a disconnect is refused without a trace for a slot that
-- has no queue; is taken behind what stands in the slot's queue when fewer than 256 messages do; and
-- otherwise is refused, with the slot's overflows counted one up modulo 2^64. Nothing else changes.
pub enqueue-EnqueueCase :
    (slot : ℕ) (m : ProviderMessage) (c : Core) → EnqueueCase slot m c (enqueue slot m c)
unfolding enqueue offer_message note_overflow try_push
enqueue-EnqueueCase slot m c = elim (Bool-cases (leb (length c.queues) slot)) [
  | inl a ↦ no_queue (ground (arith, a)) (rw (enqueue, a) refl)
  | inr a ↦ elim (Bool-cases (ltb (length (get_or c.queues slot [])) queue_capacity)) [
    | inl b ↦ taken (ground (arith, a)) (ground (arith, b)) (
        rw
          (
            enqueue,
            a,
            offer_message,
            try_enqueue_bounded-try_push 63 (get_or c.queues slot []) m,
            try_push,
            b,
          )
          refl)
    | inr b ↦ overflow (ground (arith, a)) (ground (arith, b)) (
        rw
          (
            enqueue,
            a,
            offer_message,
            try_enqueue_bounded-try_push 63 (get_or c.queues slot []) m,
            try_push,
            b,
          )
          refl)
  ]
]

-- Every queue holds at most 256 messages.
abbrev pub AreBounded : Core → Type 0
AreBounded c = All (λ q. length q ≤ queue_capacity) c.queues

-- A call keeps every queue within its capacity.
pub enqueue-AreBounded :
    (slot : ℕ) (m : ProviderMessage) (c : Core) → AreBounded c → AreBounded (enqueue slot m c).1
enqueue-AreBounded slot m c h = elim (enqueue-EnqueueCase slot m c) [
  | no_queue a r ↦ rw r h
  | taken a b r ↦ rw r (
      All-set (λ q. length q ≤ queue_capacity) c.queues slot _ h
        (omega (arith, b, length-append (get_or c.queues slot []) (m ∷ []))))
  | overflow a b r ↦ rw r h
]
