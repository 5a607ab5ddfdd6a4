-- ===== src/Dedup.antt =====
-- md_provider/seq_dedup.h and .cpp: duplicate rejection for redundant connections that carry the
-- same messages. The state is the record, `Accept` and its `Rotate` are functions on it. A mask of
-- eight bits is the list of its bits, lowest first.
pub mod Marks
pub mod Once
pub mod Ascend
pub mod Health
mod Tests
use aggregated_order_book.Base.{
  ℕ, suc, ◌+◌, ◌%◌, ◌^◌, Bool, true, false, ◌&&◌, ◌||◌, List, [], ◌∷◌, ltb, leb, ◌==◌,
  if◌then◌else◌, replicate, set,
}

abbrev pub no_mask : List Bool
no_mask = replicate 8 false

pub record SeqDedup : Type 0 where
  pub last : ℕ
  pub seen : Bool
  pub seen_mask : List Bool
  pub last_mask : List Bool
  pub consecutive_drops : ℕ

abbrev pub new_dedup : SeqDedup
new_dedup = record {
  last = 0;
  seen = false;
  seen_mask = no_mask;
  last_mask = no_mask;
  consecutive_drops = 0;
}

-- `mask |= bit`: an index of 8 or more has no bit.
abbrev pub set_bit : List Bool → ℕ → List Bool
set_bit mask conn_index = set mask conn_index true

-- `Rotate`
unfoldable pub rotate : SeqDedup → ℕ → ℕ → SeqDedup
rotate s id conn_index = record {
  last = id;
  seen = true;
  seen_mask = set_bit no_mask conn_index;
  last_mask = s.seen_mask;
  consecutive_drops = 0;
}

-- The two rejecting branches: the connection is noted and the drop is counted.
abbrev pub drop_copy : SeqDedup → ℕ → SeqDedup
drop_copy s conn_index = record s {
  seen_mask = set_bit s.seen_mask conn_index;
  consecutive_drops = (s.consecutive_drops + 1) % 2 ^ 32;
}

-- What `Accept` compares: a reset only with its own copies, any other message with all before it.
unfoldable pub is_duplicate : SeqDedup → ℕ → Bool → Bool
is_duplicate s id is_reset = s.seen && (if is_reset then id == s.last else leb id s.last)

-- `Accept`: the verdict, and the state it leaves.
unfoldable pub accept : SeqDedup → ℕ → ℕ → Bool → Bool × SeqDedup
unfolding is_duplicate rotate
accept s id conn_index is_reset =
    if is_duplicate s id is_reset
    then (false, drop_copy s conn_index)
    else (true, rotate s id conn_index)

-- `std::popcount`
pub popcount : List Bool → ℕ
popcount [] = 0
popcount (true ∷ bs) = suc (popcount bs)
popcount (false ∷ bs) = popcount bs

-- `LastConnectionCount`
pub last_connection_count : SeqDedup → ℕ
unfolding popcount
last_connection_count s = popcount s.last_mask

-- `LooksStuck`, with kSuspiciousDropStreak.
pub looks_stuck : SeqDedup → Bool
looks_stuck s = leb 1000 s.consecutive_drops

-- A message as one of the connections delivers it.
pub record Delivery : Type 0 where
  pub id : ℕ
  pub conn_index : ℕ
  pub is_reset : Bool

-- The provider's loop: the ids that pass, in order.
pub passed : SeqDedup → List Delivery → List ℕ
unfolding accept
passed s [] = []
passed s (m ∷ ms) =
    let (ok, s') = accept s m.id m.conn_index m.is_reset in
    let rest = passed s' ms in if ok then m.id ∷ rest else rest

-- The state after a series of deliveries.
pub run : SeqDedup → List Delivery → SeqDedup
unfolding accept
run s [] = s
run s (m ∷ ms) = run (accept s m.id m.conn_index m.is_reset).1 ms
