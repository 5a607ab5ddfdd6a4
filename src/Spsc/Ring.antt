-- ===== src/Spsc/Ring.antt =====
-- The invariant of the ring under every atomic step of the two threads.
use aggregated_order_book.Base.{
  ℕ, ◌+◌, ◌%◌, ◌^◌, ◌≤◌, ◌<◌, ◌≡◌, refl, sym, ap, ◌∙◌, inl, inr, true, Option, some, List, [], ◌∷◌,
  ◌++◌, arith, leb, leb→le, le-cases, length, get_elem?, set, length-append, length-set,
  length-replicate, get_elem?-append, get_elem?-append_length, get_elem?-set_self, get_elem?-set_ne,
}
use native.Mathlib.Nat.{mod-lt}
use aggregated_order_book.Spsc.{
  Capacity, next_cursor, distance, has_room, Producer, Consumer, Threads, new_threads, outside_push,
  to_write, to_store, outside_pop, to_read, to_free,
}
use aggregated_order_book.Spsc.Residues.{slot_of, slots_differ}

-- The producer may write the slot of the next count.
abbrev pub ProducerOk : {A : Type 0} → Capacity → List A → ℕ → ℕ → Producer A → Type 0
ProducerOk c buffer h t outside_push = Unit
ProducerOk c buffer h t (to_write v) = h < t + c.size
ProducerOk c buffer h t (to_store v) = (h < t + c.size) × (get_elem? buffer (h % c.size) ≡ some v)

-- The consumer may read the slot of its count, or has read it.
abbrev pub ConsumerOk : {A : Type 0} → List A → ℕ → ℕ → Consumer A → Type 0
ConsumerOk sent h t outside_pop = Unit
ConsumerOk sent h t to_read = t < h
ConsumerOk sent h t (to_free o) = (t < h) × (o ≡ get_elem? sent t)

-- The cursors are the counts, and the slots between them hold what was sent and not yet received.
pub record IsQueue {A : Type 0} (c : Capacity) (m : Threads A) : Type 0 where
  pub head_ok : m.queue.head ≡ length m.sent % 2 ^ 64
  pub tail_ok : m.queue.tail ≡ length m.received % 2 ^ 64
  pub order : length m.received ≤ length m.sent
  pub bound : length m.sent ≤ length m.received + c.size
  pub ring : length m.queue.buffer ≡ c.size
  pub contents :
      (j : ℕ)
      → length m.received ≤ j
      → j < length m.sent
      → get_elem? m.queue.buffer (j % c.size) ≡ get_elem? m.sent j
  pub in_order :
      (j : ℕ) → j < length m.received → get_elem? m.received j ≡ some (get_elem? m.sent j)
  pub producer_ok : ProducerOk c m.queue.buffer (length m.sent) (length m.received) m.producer
  pub consumer_ok : ConsumerOk m.sent (length m.sent) (length m.received) m.consumer

pub new_threads-IsQueue : {A : Type 0} → (c : Capacity) (a : A) → IsQueue c (new_threads c a)
new_threads-IsQueue c a = record {
  head_ok = refl;
  tail_ok = refl;
  order = omega arith;
  bound = omega arith;
  ring = length-replicate c.size a;
  contents = λ j h k. absurd (omega (arith, k));
  in_order = λ j h. absurd (omega (arith, h));
  producer_ok = tt;
  consumer_ok = tt;
}

-- The load of `tail_` that finds room.
pub room_lem :
    {A : Type 0}
    → (c : Capacity) (m : Threads A) → IsQueue c m
    → has_room c m.queue ≡ true
    → length m.sent < length m.received + c.size
unfolding has_room
room_lem c m q e =
    let k : leb (distance (next_cursor m.queue.head) m.queue.tail) c.size ≡ true =
      ground (arith, e) in
    omega (arith, q.head_ok, q.tail_ok, q.order, q.bound, c.small, leb→le _ _ k)

module _ {A : Type 0} (c : Capacity) (m : Threads A) (q : IsQueue c m) where
  pub head_slot : m.queue.head % c.size ≡ length m.sent % c.size
  head_slot = ap (λ n. n % c.size) q.head_ok ∙ slot_of c (length m.sent)

  pub tail_slot : m.queue.tail % c.size ≡ length m.received % c.size
  tail_slot = ap (λ n. n % c.size) q.tail_ok ∙ slot_of c (length m.received)

  -- The write of the slot, which the consumer is not about to read.
  pub write_lem :
      (v : A)
      → length m.sent < length m.received + c.size
      → IsQueue c (record m {
        queue = record m.queue { buffer = set m.queue.buffer (length m.sent % c.size) v };
        producer = to_store v;
      })
  write_lem v l = record {
    head_ok = q.head_ok;
    tail_ok = q.tail_ok;
    order = q.order;
    bound = q.bound;
    ring = length-set m.queue.buffer (length m.sent % c.size) v ∙ q.ring;
    contents = λ j a b.
        get_elem?-set_ne m.queue.buffer (length m.sent % c.size) (j % c.size) v
          (slots_differ c j (length m.sent) b (omega (arith, a, l)))
        ∙ q.contents j a b;
    in_order = q.in_order;
    producer_ok = (
      l,
      get_elem?-set_self m.queue.buffer (length m.sent % c.size) v
          (omega (arith, q.ring, mod-lt (length m.sent) c.positive)),
    );
    consumer_ok = q.consumer_ok;
  }

  ConsumerOk-sent :
      (v : A) (k : Consumer A)
      → ConsumerOk m.sent (length m.sent) (length m.received) k
      → ConsumerOk (m.sent ++ v ∷ []) (length (m.sent ++ v ∷ [])) (length m.received) k
  ConsumerOk-sent v outside_pop k = tt
  ConsumerOk-sent v to_read k = omega (arith, k, length-append m.sent (v ∷ []))
  ConsumerOk-sent v (to_free o) (k, e) = (
    omega (arith, k, length-append m.sent (v ∷ [])),
    e ∙ sym (get_elem?-append m.sent (v ∷ []) (length m.received) k),
  )

  sent_at :
      (v : A) (j : ℕ)
      → get_elem? m.queue.buffer (length m.sent % c.size) ≡ some v
      → length m.received ≤ j
      → j < length (m.sent ++ v ∷ [])
      → get_elem? m.queue.buffer (j % c.size) ≡ get_elem? (m.sent ++ v ∷ []) j
  sent_at v j e a b = elim (le-cases (length m.sent) j) [
    | inl k ↦
        let last : j ≡ length m.sent = omega (arith, k, b, length-append m.sent (v ∷ [])) in
        ap (λ i. get_elem? m.queue.buffer (i % c.size)) last
        ∙ e
        ∙ sym (get_elem?-append_length m.sent v)
        ∙ ap (get_elem? (m.sent ++ v ∷ [])) (sym last)
    | inr k ↦ q.contents j a k ∙ sym (get_elem?-append m.sent (v ∷ []) j k)
  ]

  -- The store of `head_`, which publishes the slot.
  pub publish_lem :
      (v : A)
      → length m.sent < length m.received + c.size
      → get_elem? m.queue.buffer (length m.sent % c.size) ≡ some v
      → IsQueue c (record m {
        queue = record m.queue { head = next_cursor m.queue.head };
        producer = outside_push;
        sent = m.sent ++ v ∷ [];
      })
  publish_lem v l e =
      let count = length-append m.sent (v ∷ []) in
      record {
        head_ok = omega (arith, q.head_ok, count);
        tail_ok = q.tail_ok;
        order = omega (arith, q.order, count);
        bound = omega (arith, l, count);
        ring = q.ring;
        contents = λ j a b. sent_at v j e a b;
        in_order = λ j a.
            q.in_order j a
            ∙ ap some (sym (get_elem?-append m.sent (v ∷ []) j (omega (arith, a, q.order))));
        producer_ok = tt;
        consumer_ok = ConsumerOk-sent v m.consumer q.consumer_ok;
      }

  ProducerOk-received :
      (o : Option A) (p : Producer A)
      → ProducerOk c m.queue.buffer (length m.sent) (length m.received) p
      → ProducerOk c m.queue.buffer (length m.sent) (length (m.received ++ o ∷ [])) p
  ProducerOk-received o outside_push k = tt
  ProducerOk-received o (to_write v) k = omega (arith, k, length-append m.received (o ∷ []))
  ProducerOk-received o (to_store v) (k, e) =
      (omega (arith, k, length-append m.received (o ∷ [])), e)

  received_at :
      (o : Option A) (j : ℕ)
      → o ≡ get_elem? m.sent (length m.received)
      → j < length (m.received ++ o ∷ [])
      → get_elem? (m.received ++ o ∷ []) j ≡ some (get_elem? m.sent j)
  received_at o j e b = elim (le-cases (length m.received) j) [
    | inl k ↦
        let last : j ≡ length m.received = omega (arith, k, b, length-append m.received (o ∷ [])) in
        ap (get_elem? (m.received ++ o ∷ [])) last
        ∙ get_elem?-append_length m.received o
        ∙ ap some (e ∙ ap (get_elem? m.sent) (sym last))
    | inr k ↦ get_elem?-append m.received (o ∷ []) j k ∙ q.in_order j k
  ]

  -- The store of `tail_`, which frees the slot.
  pub free_lem :
      (o : Option A)
      → length m.received < length m.sent
      → o ≡ get_elem? m.sent (length m.received)
      → IsQueue c (record m {
        queue = record m.queue { tail = next_cursor m.queue.tail };
        consumer = outside_pop;
        received = m.received ++ o ∷ [];
      })
  free_lem o l e =
      let count = length-append m.received (o ∷ []) in
      record {
        head_ok = q.head_ok;
        tail_ok = omega (arith, q.tail_ok, count);
        order = omega (arith, l, count);
        bound = omega (arith, q.bound, count);
        ring = q.ring;
        contents = λ j a b. q.contents j (omega (arith, a, count)) b;
        in_order = λ j a. received_at o j e a;
        producer_ok = ProducerOk-received o m.producer q.producer_ok;
        consumer_ok = tt;
      }
