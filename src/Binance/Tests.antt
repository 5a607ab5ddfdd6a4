-- ===== src/Binance/Tests.antt =====
-- A spot stream with three buffered events, and snapshots in the middle of them and ahead of them.
use aggregated_order_book.Base.{
  ℕ, ◌≤◌, ◌≡◌, refl, true, false, none, some, List, [], ◌∷◌, arith, All,
}
use aggregated_order_book.Base.Int.{pos}
use aggregated_order_book.Types.{BookUpdate, spot, binance}
use aggregated_order_book.Continuity.{
  ignore, check_binance_spot, reconcile_binance_snapshot, ignore,
}
use aggregated_order_book.Continuity.Chains.{Steps, SpotStep}
use aggregated_order_book.Continuity.Snapshot.{Contiguous}
use aggregated_order_book.Dedup.{rotate, is_duplicate, accept, new_dedup}
use aggregated_order_book.Binance.{
  live_event, live_verdict, accepted_event, syncing, live, BinanceDepth, on_depth_message,
  reconcile_snapshot, syncing,
}
use aggregated_order_book.Binance.Live.{Event, run_events, IsCovered, run_events-IsCovered}
use aggregated_order_book.Binance.Joined.{
  IsJoined, reconcile_snapshot-Steps, on_depth_message-ignored,
}

abbrev event : ℕ → ℕ → BookUpdate
event from to = record {
  venue = binance;
  instrument = record { packed = 256 };
  seq = to;
  prev_seq = pos from;
  recv_ts_ns = pos 0;
  exch_ts_ns = pos 0;
  recv_mono_ns = pos 0;
  is_snapshot = false;
  bids = [];
  asks = [];
}

abbrev snapshot_at : ℕ → BookUpdate
snapshot_at id = record (event 0 id) { is_snapshot = true }

abbrev buffering : BinanceDepth
buffering = record {
  market = spot;
  sync_state = syncing;
  dedup = record new_dedup { last = 107; seen = true };
  snapshot_requested = true;
  snapshot_attempts = 1;
  pending = event 95 99 ∷ event 100 104 ∷ event 105 107 ∷ [];
  last_depth_u = 0;
  emitted = [];
  resync_requested = false;
}

buffering-Contiguous : Contiguous buffering.pending
buffering-Contiguous =
    (104, (refl, omega arith, omega arith), (107, (refl, omega arith, omega arith), tt))

joins_at : reconcile_binance_snapshot 101 buffering.pending ≡ some 1
unfolding reconcile_binance_snapshot
joins_at = refl

reconcile_snapshot-Steps_example :
    All (λ u. u.seq ≤ 101) (event 95 99 ∷ [])
    × Steps SpotStep 101 (event 100 104 ∷ event 105 107 ∷ [])
    × IsJoined (snapshot_at 101) 1 buffering (reconcile_snapshot (snapshot_at 101) buffering).1
reconcile_snapshot-Steps_example =
    reconcile_snapshot-Steps (snapshot_at 101) 1 buffering refl buffering-Contiguous joins_at

on_depth_message-ignored_example :
    ((on_depth_message
        (event 108 110)
        0
        none
        (reconcile_snapshot (snapshot_at 120) buffering).1).emitted
      ≡ snapshot_at 120 ∷ event 108 110 ∷ [])
    × ((check_binance_spot
          (event 108 110)
          (reconcile_snapshot (snapshot_at 120) buffering).1.last_depth_u).0
        ≡ ignore)
on_depth_message-ignored_example =
    on_depth_message-ignored (snapshot_at 120) (event 108 110) 0 none buffering refl
      (omega arith, (omega arith, (omega arith, tt))) (omega arith) (omega arith)

-- Live at 107: a copy of 107, the next event from two connections, one that overlaps it, and a gap.
abbrev live_stream : BinanceDepth
live_stream = record buffering { sync_state = live; pending = []; last_depth_u = 107 }

abbrev later_events : List Event
later_events =
    delivered 105 107 1
    ∷ delivered 108 110 0
    ∷ delivered 108 110 1
    ∷ delivered 109 115 0
    ∷ delivered 120 121 0
    ∷ []
  where
    delivered : ℕ → ℕ → ℕ → Event
    delivered from to conn_index = record {
      update = event from to;
      conn_index = conn_index;
      chain_seq = none;
    }

run_events_run : (run_events later_events live_stream).last_depth_u ≡ 115
unfolding run_events on_depth_message accept is_duplicate rotate accepted_event live_event
    live_verdict check_binance_spot
run_events_run = refl

run_events-IsCovered_example : IsCovered live_stream (run_events later_events live_stream)
run_events-IsCovered_example =
    run_events-IsCovered later_events live_stream (record { market = refl; state = refl })
