-- ===== src/Core/Queues.antt =====
-- md_core/md_core.cpp: the queued path. A provider's messages stand in its slot's queue until the
-- consolidator's pass takes them out, slot by slot, each queue until it is empty.
--
-- A call runs to its end before the next begins: between the attempts of one call nothing is popped,
-- and during a pass nothing is pushed.
use aggregated_order_book.Base.{
  ℕ, zero, suc, ◌+◌, ◌%◌, ◌^◌, Bool, true, false, Option, none, some, List, [], ◌∷◌, ◌++◌, ltb, leb,
  if◌then◌else◌, length, get_or, set,
}
use aggregated_order_book.Types.{BboQuote}
use aggregated_order_book.Core.{
  ProviderMessage, Published, Core, venue_count, book_update, bbo_quote, health_event,
  venue_registration, venue_disconnect,
}
use aggregated_order_book.Core.Ingest.{process_update, process_quote, process_health}
use aggregated_order_book.Core.Membership.{process_registration, remove_venue}

-- `kProviderQueueCapacity` and `kEnqueueSpinAttempts`
abbrev pub queue_capacity : ℕ
queue_capacity = 256

abbrev pub spin_attempts : ℕ
spin_attempts = 64

-- `TryPush` on the messages that stand in a queue.
unfoldable pub try_push : List ProviderMessage → ProviderMessage → Option (List ProviderMessage)
try_push queue message =
    if ltb (length queue) queue_capacity then some (queue ++ message ∷ []) else none

-- The loop of `TryEnqueueBounded`.
unfoldable pub try_enqueue_bounded :
    ℕ → List ProviderMessage → ProviderMessage → Option (List ProviderMessage)
try_enqueue_bounded zero queue message = none
try_enqueue_bounded (suc attempts) queue message =
    let again = try_enqueue_bounded attempts queue message in
    elim (try_push queue message) [ none ↦ again | some pushed ↦ some pushed ]

-- A call for a slot that has a queue: whether the message stands in it.
unfoldable pub offer_message : ℕ → ProviderMessage → Core → Bool × Core
offer_message slot message c =
    elim (try_enqueue_bounded spin_attempts (get_or c.queues slot []) message) [
      | none ↦ (false, c)
      | some queue ↦ (true, record c { queues = set c.queues slot queue })
    ]

-- A failure that is counted as an overflow, as a lost quote.
unfoldable pub note_overflow : ℕ → Core → Core
note_overflow slot c = record c {
  overflow_count = set c.overflow_count slot ((get_or c.overflow_count slot 0 + 1) % 2 ^ 64);
}

unfoldable pub note_quote_drop : ℕ → Core → Core
note_quote_drop slot c = record c {
  quote_drop_count = set c.quote_drop_count slot ((get_or c.quote_drop_count slot 0 + 1) % 2 ^ 64);
}

-- `EnqueueUpdate`, `EnqueueHealth`, `EnqueueRegistration` and `EnqueueDisconnect`, which differ in the
-- message.
unfoldable pub enqueue : ℕ → ProviderMessage → Core → Bool × Core
unfolding offer_message note_overflow
enqueue slot message c =
    if leb (length c.queues) slot
    then (false, c)
    else (let (accepted, c') = offer_message slot message c in
        if accepted then (true, c') else (false, note_overflow slot c'))

-- `EnqueueQuote`, which tells its caller nothing.
unfoldable pub enqueue_quote : ℕ → BboQuote → Core → Core
unfolding offer_message note_quote_drop
enqueue_quote slot q c =
    if leb (length c.queues) slot
    then c
    else (let (accepted, c') = offer_message slot (bbo_quote q) c in
        if accepted then c' else note_quote_drop slot c')

-- `OverflowCount` and `QuoteDropCount`
abbrev pub overflows : Core → ℕ → ℕ
overflows c slot = get_or c.overflow_count slot 0

abbrev pub quote_drops : Core → ℕ → ℕ
quote_drops c slot = get_or c.quote_drop_count slot 0

-- The dispatch of `DrainOnce`.
unfoldable pub dispatch : ℕ → ProviderMessage → Core → Core × List Published
dispatch slot (book_update u) c = process_update slot u c
dispatch slot (bbo_quote q) c = process_quote slot q c
dispatch slot (health_event e) c = (process_health slot e c, [])
dispatch slot venue_registration c = (process_registration slot c, [])
dispatch slot venue_disconnect c = (remove_venue slot c, [])

-- The inner loop of `DrainOnce` over what stands in one queue.
unfoldable pub drain_queue : ℕ → List ProviderMessage → Core → Core × List Published
unfolding dispatch
drain_queue slot [] c = (c, [])
drain_queue slot (m ∷ ms) c =
    let (c', out) = dispatch slot m (record c { queues = set c.queues slot ms }) in
    let (c'', rest) = drain_queue slot ms c' in (c'', out ++ rest)

-- The outer loop, over `todo` slots from `slot` on.
unfoldable pub drain_slots : ℕ → ℕ → Core → ℕ × (Core × List Published)
unfolding drain_queue
drain_slots zero slot c = (0, (c, []))
drain_slots (suc todo) slot c =
    let queue = get_or c.queues slot [] in
    let (c', out) = drain_queue slot queue c in
    let (drained, (c'', rest)) = drain_slots todo (suc slot) c' in
    (length queue + drained, (c'', out ++ rest))

-- `DrainOnce`
unfoldable pub drain_once : Core → ℕ × (Core × List Published)
unfolding drain_slots
drain_once c = drain_slots (venue_count c) 0 c

-- `HasPending`
unfoldable pub has_pending_from : ℕ → List (List ProviderMessage) → Bool
has_pending_from zero queues = false
has_pending_from (suc todo) [] = false
has_pending_from (suc todo) ([] ∷ queues) = has_pending_from todo queues
has_pending_from (suc todo) ((m ∷ ms) ∷ queues) = true

unfoldable pub has_pending : Core → Bool
unfolding has_pending_from
has_pending c = has_pending_from (venue_count c) c.queues
