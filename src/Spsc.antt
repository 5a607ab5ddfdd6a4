-- ===== src/Spsc.antt =====
-- md_core/spsc_queue.h: the bounded queue between one producer and one consumer thread. The cursors
-- count modulo 2^64 (size_t). Each call is the sequence of its atomic steps: the load of the other
-- side's cursor, the access to the ring, the store of the own cursor; the steps of the two threads
-- interleave. Acquire and release are taken to make the steps happen one at a time.
pub mod Residues
pub mod Ring
pub mod Fifo
mod Tests
use aggregated_order_book.Base.{
  ℕ, ◌+◌, ◌-◌, ◌*◌, ◌%◌, ◌^◌, ◌≤◌, ◌<◌, ◌≡◌, Bool, not, Option, List, [], ◌∷◌, ◌++◌, ltb, ◌==◌,
  if◌then◌else◌, get_elem?, set, replicate,
}

-- Capacity, a power of two: a divisor of 2^64 other than 2^64 itself, so that `& kMask` is the
-- remainder.
pub record Capacity : Type 0 where
  pub size : ℕ
  pub count : ℕ
  pub product : 2 ^ 64 ≡ size * count
  pub positive : 0 < size
  pub small : size + size ≤ 2 ^ 64

-- `head_`, `tail_` and `buffer_`.
pub record SpscQueue (A : Type 0) : Type 0 where
  pub head : ℕ
  pub tail : ℕ
  pub buffer : List A

-- `head + 1` and `head - tail` on size_t.
abbrev pub next_cursor : ℕ → ℕ
next_cursor cursor = (cursor + 1) % 2 ^ 64

abbrev pub distance : ℕ → ℕ → ℕ
distance head tail = (head + 2 ^ 64 - tail) % 2 ^ 64

-- The test of `TryPush` after its load of `tail_`.
pub has_room : {A : Type 0} → Capacity → SpscQueue A → Bool
has_room c q = not (ltb c.size (distance (next_cursor q.head) q.tail))

-- Where the producer stands in `TryPush`: outside, before the write, before the store.
pub data Producer (A : Type 0) : Type 0 where
  outside_push : Producer A
  to_write : A → Producer A
  to_store : A → Producer A

-- Where the consumer stands in `TryPop`: outside, before the read, before the store.
pub data Consumer (A : Type 0) : Type 0 where
  outside_pop : Consumer A
  to_read : Consumer A
  to_free : Option A → Consumer A

-- The queue, the two threads, and what has been pushed and popped so far.
pub record Threads (A : Type 0) : Type 0 where
  pub queue : SpscQueue A
  pub producer : Producer A
  pub consumer : Consumer A
  pub sent : List A
  pub received : List (Option A)

-- One atomic step of `TryPush`, with `value` as the argument of a new call. A full queue returns
-- false at once.
pub push_step : {A : Type 0} → Capacity → A → Producer A → Threads A → Threads A
unfolding has_room
push_step c value outside_push m =
    if has_room c m.queue then record m { producer = to_write value } else m
push_step c value (to_write v) m = record m {
  queue = record m.queue { buffer = set m.queue.buffer (m.queue.head % c.size) v };
  producer = to_store v;
}
push_step c value (to_store v) m = record m {
  queue = record m.queue { head = next_cursor m.queue.head };
  producer = outside_push;
  sent = m.sent ++ v ∷ [];
}

-- One atomic step of `TryPop`. An empty queue returns false at once.
pub pop_step : {A : Type 0} → Capacity → Consumer A → Threads A → Threads A
pop_step c outside_pop m =
    if m.queue.tail == m.queue.head then m else record m { consumer = to_read }
pop_step c to_read m = record m {
  consumer = to_free (get_elem? m.queue.buffer (m.queue.tail % c.size));
}
pop_step c (to_free o) m = record m {
  queue = record m.queue { tail = next_cursor m.queue.tail };
  consumer = outside_pop;
  received = m.received ++ o ∷ [];
}

-- Which thread moves next.
pub data Turn (A : Type 0) : Type 0 where
  produce : A → Turn A
  consume : Turn A

pub step : {A : Type 0} → Capacity → Turn A → Threads A → Threads A
unfolding push_step pop_step
step c (produce value) m = push_step c value m.producer m
step c consume m = pop_step c m.consumer m

pub run_turns : {A : Type 0} → Capacity → List (Turn A) → Threads A → Threads A
unfolding step
run_turns c [] m = m
run_turns c (t ∷ ts) m = run_turns c ts (step c t m)

-- The initial state, with the ring's value-initialised slots.
abbrev pub new_threads : {A : Type 0} → Capacity → A → Threads A
new_threads c a = record {
  queue = record { head = 0; tail = 0; buffer = replicate c.size a };
  producer = outside_push;
  consumer = outside_pop;
  sent = [];
  received = [];
}
