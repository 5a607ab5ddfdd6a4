-- ===== src/Spsc/Fifo.antt =====
-- The queue is first in, first out under every interleaving of the two threads' steps.
use aggregated_order_book.Base.{
  ℕ, ◌+◌, ◌%◌, ◌^◌, ◌≤◌, ◌<◌, ◌≡◌, sym, ap, ◌∙◌, inl, inr, false, some, List, [], ◌∷◌, arith, ◌==◌,
  Bool-cases, le-cases, length, get_elem?,
}
use aggregated_order_book.Spsc.{
  outside_push, to_write, to_store, outside_pop, to_read, to_free, produce, consume, Capacity,
  has_room, Producer, Consumer, Threads, push_step, pop_step, Turn, step, run_turns, new_threads,
  outside_push, to_write, to_store, outside_pop, to_read, to_free, produce, consume,
}
use aggregated_order_book.Spsc.Ring.{
  head_slot, tail_slot, write_lem, publish_lem, free_lem, room_lem, ProducerOk, ConsumerOk, IsQueue,
  new_threads-IsQueue, room_lem,
}

push_step-IsQueue :
    {A : Type 0}
    → (c : Capacity) (m : Threads A) (value : A) (p : Producer A) → IsQueue c m
    → ProducerOk c m.queue.buffer (length m.sent) (length m.received) p
    → IsQueue c (push_step c value p m)
unfolding push_step
push_step-IsQueue c m value outside_push q k = elim (Bool-cases (has_room c m.queue)) [
  | inl e ↦
      rw (e, push_step)
        (record {
          head_ok = q.head_ok;
          tail_ok = q.tail_ok;
          order = q.order;
          bound = q.bound;
          ring = q.ring;
          contents = q.contents;
          in_order = q.in_order;
          producer_ok = room_lem c m q e;
          consumer_ok = q.consumer_ok;
        })
  | inr e ↦ rw (e, push_step) q
]
push_step-IsQueue c m value (to_write v) q k = rw (head_slot c m q) (write_lem c m q v k)
push_step-IsQueue c m value (to_store v) q (k, e) = publish_lem c m q v k e

not_empty_lem :
    {A : Type 0}
    → (c : Capacity) (m : Threads A) → IsQueue c m
    → (m.queue.tail == m.queue.head) ≡ false
    → length m.received < length m.sent
not_empty_lem c m q e = elim (le-cases (length m.sent) (length m.received)) [
  | inl k ↦
      let same_count : length m.received ≡ length m.sent = omega (arith, k, q.order) in
      let same_cursor : m.queue.tail ≡ m.queue.head =
        q.tail_ok ∙ ap (λ n. n % 2 ^ 64) same_count ∙ sym q.head_ok in
      absurd (ground (arith, e, same_cursor))
  | inr k ↦ k
]

pop_step-IsQueue :
    {A : Type 0}
    → (c : Capacity) (m : Threads A) (k : Consumer A) → IsQueue c m
    → ConsumerOk m.sent (length m.sent) (length m.received) k
    → IsQueue c (pop_step c k m)
unfolding pop_step
pop_step-IsQueue c m outside_pop q k = elim (Bool-cases (m.queue.tail == m.queue.head)) [
  | inl e ↦ rw (e, pop_step) q
  | inr e ↦
      rw (e, pop_step)
        (record {
          head_ok = q.head_ok;
          tail_ok = q.tail_ok;
          order = q.order;
          bound = q.bound;
          ring = q.ring;
          contents = q.contents;
          in_order = q.in_order;
          producer_ok = q.producer_ok;
          consumer_ok = not_empty_lem c m q e;
        })
]
pop_step-IsQueue c m to_read q k = record {
  head_ok = q.head_ok;
  tail_ok = q.tail_ok;
  order = q.order;
  bound = q.bound;
  ring = q.ring;
  contents = q.contents;
  in_order = q.in_order;
  producer_ok = q.producer_ok;
  consumer_ok = (
    k,
    ap (get_elem? m.queue.buffer) (tail_slot c m q)
        ∙ q.contents (length m.received) (omega arith) k,
  );
}
pop_step-IsQueue c m (to_free o) q (k, e) = free_lem c m q o k e

step-IsQueue :
    {A : Type 0}
    → (c : Capacity) (t : Turn A) (m : Threads A) → IsQueue c m
    → IsQueue c (step c t m)
unfolding step
step-IsQueue c (produce value) m q = push_step-IsQueue c m value m.producer q q.producer_ok
step-IsQueue c consume m q = pop_step-IsQueue c m m.consumer q q.consumer_ok

run_turns-IsQueue :
    {A : Type 0}
    → (c : Capacity) (ts : List (Turn A)) (m : Threads A) → IsQueue c m
    → IsQueue c (run_turns c ts m)
unfolding run_turns
run_turns-IsQueue c [] m q = q
run_turns-IsQueue c (t ∷ ts) m q = run_turns-IsQueue c ts (step c t m) (step-IsQueue c t m q)

-- From the empty queue, after any interleaving of the atomic steps of one producer and one consumer:
-- no more has been popped than pushed, at most the capacity is pushed and not yet popped, and the
-- j-th value popped is the j-th value pushed, whatever the cursors' wrap.
pub run_turns-Fifo :
    {A : Type 0}
    → (c : Capacity) (a : A) (ts : List (Turn A))
    → (length (run_turns c ts (new_threads c a)).received
        ≤ length (run_turns c ts (new_threads c a)).sent)
      × (length (run_turns c ts (new_threads c a)).sent
          ≤ length (run_turns c ts (new_threads c a)).received + c.size)
      × ((j : ℕ)
          → j < length (run_turns c ts (new_threads c a)).received
          → get_elem? (run_turns c ts (new_threads c a)).received j
            ≡ some (get_elem? (run_turns c ts (new_threads c a)).sent j))
run_turns-Fifo c a ts =
    let q = run_turns-IsQueue c ts (new_threads c a) (new_threads-IsQueue c a) in
    (q.order, q.bound, q.in_order)
