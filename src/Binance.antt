-- ===== src/Binance.antt =====
-- The depth stream of md_provider/binance/binance_provider.cpp: events are buffered until a REST
-- snapshot joins them, then each must continue the chain. The parser, the clock, the fetching thread
-- and the sockets are outside: a handler takes the parsed event (with the `pu` of a futures event)
-- or the parsed snapshot, and what it emits, whether it asks for a snapshot and whether it asks for a
-- resync are fields of the state. The time stamps that `Emit` sets are the clock's and left as they
-- came.
mod Tests
pub mod Joined
pub mod Live
use aggregated_order_book.Base.{
  ℕ, ◌+◌, Bool, true, false, Option, none, some, List, [], ◌∷◌, ◌++◌, leb, if◌then◌else◌, length,
  drop,
}
use aggregated_order_book.Types.{BookUpdate, MarketType, spot, futures}
use aggregated_order_book.Continuity.{
  ContinuityAction, check_binance_spot, check_binance_futures, reconcile_binance_snapshot, gap,
}
use aggregated_order_book.Dedup.{SeqDedup, accept}

pub data SyncState : Type 0 where
  syncing live : SyncState

pub record BinanceDepth : Type 0 where
  pub market : MarketType
  pub sync_state : SyncState
  pub dedup : SeqDedup
  pub snapshot_requested : Bool
  pub snapshot_attempts : ℕ
  pub pending : List BookUpdate
  pub last_depth_u : ℕ
  pub emitted : List BookUpdate
  pub resync_requested : Bool

-- kMaxPendingEvents
abbrev pub max_pending_events : ℕ
max_pending_events = 2000

-- `RequestResync`, as far as this state goes.
abbrev pub request_resync : BinanceDepth → BinanceDepth
request_resync s = record s { resync_requested = true }

-- `FetchSnapshotAsync`: the start of a fetch.
abbrev pub fetch_snapshot : BinanceDepth → BinanceDepth
fetch_snapshot s = record s {
  snapshot_requested = true;
  snapshot_attempts = s.snapshot_attempts + 1;
}

abbrev pub emit : BookUpdate → BinanceDepth → BinanceDepth
emit u s = record s { emitted = s.emitted ++ u ∷ [] }

-- `OnDepthMessage` while syncing.
pub buffer_event : BookUpdate → BinanceDepth → BinanceDepth
buffer_event u s =
    let s' = if s.snapshot_requested then s else fetch_snapshot s in
    if leb max_pending_events (length s'.pending)
    then request_resync s'
    else record s' { pending = s'.pending ++ u ∷ [] }

-- The rule of the market; a futures event without `pu` is a gap.
unfoldable pub live_verdict : MarketType → BookUpdate → Option ℕ → ℕ → ContinuityAction × ℕ
live_verdict spot u chain_seq last = check_binance_spot u last
live_verdict futures u none last = (gap, last)
live_verdict futures u (some c) last = check_binance_futures c u.seq last

-- `action == ContinuityAction::kGap`
abbrev pub is_gap : ContinuityAction → Bool
is_gap gap = true
is_gap _ = false

-- `OnDepthMessage` once live.
pub live_event : BookUpdate → Option ℕ → BinanceDepth → BinanceDepth
unfolding live_verdict
live_event u chain_seq s =
    let v = live_verdict s.market u chain_seq s.last_depth_u in
    if is_gap v.0
    then request_resync (record s { last_depth_u = v.1 })
    else emit u (record s { last_depth_u = v.1 })

-- What follows the duplicate filter in `OnDepthMessage`.
pub accepted_event : SyncState → BookUpdate → Option ℕ → BinanceDepth → BinanceDepth
unfolding buffer_event live_event
accepted_event syncing u chain_seq s = buffer_event u s
accepted_event live u chain_seq s = live_event u chain_seq s

-- `OnDepthMessage`, from the parsed event.
pub on_depth_message : BookUpdate → ℕ → Option ℕ → BinanceDepth → BinanceDepth
unfolding accepted_event
on_depth_message u conn_index chain_seq s =
    let r = accept s.dedup u.seq conn_index false in
    let s' = record s { dedup = r.1 } in
    if r.0 then accepted_event s.sync_state u chain_seq s' else s'

-- The replay loop of `ReconcileSnapshot`.
pub replay : List BookUpdate → BinanceDepth → BinanceDepth
replay [] s = s
replay (u ∷ us) s = replay us (emit u (record s { last_depth_u = u.seq }))

abbrev pub last_seq : List BookUpdate → Option ℕ
last_seq [] = none
last_seq (u ∷ []) = some u.seq
last_seq (u ∷ v ∷ us) = last_seq (v ∷ us)

-- The correction for futures: the `u` of the last event that was buffered.
pub anchor : MarketType → Option ℕ → BinanceDepth → BinanceDepth
anchor futures (some n) s = record s { last_depth_u = n }
anchor _ _ s = s

-- `ReconcileSnapshot`: false when the snapshot cannot join the buffer.
pub reconcile_snapshot : BookUpdate → BinanceDepth → Bool × BinanceDepth
unfolding replay anchor
reconcile_snapshot snapshot s = elim (reconcile_binance_snapshot snapshot.seq s.pending) [
  | none ↦ (false, s)
  | some first ↦
      let joined = emit snapshot (record s { last_depth_u = snapshot.seq }) in
      let s' = anchor s.market (last_seq s.pending) (replay (drop first s.pending) joined) in
      (true, record s' { pending = []; sync_state = live })
]

-- kMaxSnapshotAttempts
abbrev pub max_snapshot_attempts : ℕ
max_snapshot_attempts = 5

-- Another fetch, unless there have been too many.
abbrev pub retry : BinanceDepth → BinanceDepth
retry s =
    if leb max_snapshot_attempts s.snapshot_attempts then request_resync s else fetch_snapshot s

-- The callback of `FetchSnapshotAsync`, with the parsed snapshot if the fetch has succeeded.
pub on_snapshot : Option BookUpdate → BinanceDepth → BinanceDepth
unfolding reconcile_snapshot
on_snapshot none s = retry s
on_snapshot (some snapshot) s =
    let (joined, s') = reconcile_snapshot snapshot s in if joined then s' else retry s'

-- `OnReconnect`
pub on_reconnect : BinanceDepth → BinanceDepth
on_reconnect s = record s {
  sync_state = syncing;
  snapshot_requested = false;
  snapshot_attempts = 0;
  pending = [];
  last_depth_u = 0;
}
