-- ===== src/Continuity/Tests.antt =====
-- A snapshot that joins three buffered events, and one that is too old.
use aggregated_order_book.Base.{ℕ, ◌≡◌, refl, false, none, some, List, [], ◌∷◌, arith}
use aggregated_order_book.Base.Int.{pos}
use aggregated_order_book.Types.{BookUpdate, binance}
use aggregated_order_book.Continuity.{reconcile_binance_snapshot}
use aggregated_order_book.Continuity.Snapshot.{
  Contiguous, Replays, reconcile_binance_snapshot-Replays,
}

abbrev event : ℕ → ℕ → BookUpdate
event from to = record {
  venue = binance;
  instrument = record { packed = 256 };
  seq = to;
  prev_seq = pos from;
  recv_ts_ns = pos 0;
  exch_ts_ns = pos 0;
  recv_mono_ns = pos 0;
  is_snapshot = false;
  bids = [];
  asks = [];
}

abbrev buffered : List BookUpdate
buffered = event 95 99 ∷ event 100 104 ∷ event 105 107 ∷ []

buffered-Contiguous : Contiguous buffered
buffered-Contiguous =
    (104, (refl, omega arith, omega arith), (107, (refl, omega arith, omega arith), tt))

reconcile_test : reconcile_binance_snapshot 101 buffered ≡ some 1
unfolding reconcile_binance_snapshot
reconcile_test = refl

too_old_test : reconcile_binance_snapshot 90 buffered ≡ none
unfolding reconcile_binance_snapshot
too_old_test = refl

reconcile_binance_snapshot-Replays_example :
    Replays 101 buffered (reconcile_binance_snapshot 101 buffered)
reconcile_binance_snapshot-Replays_example =
    reconcile_binance_snapshot-Replays 101 buffered buffered-Contiguous
