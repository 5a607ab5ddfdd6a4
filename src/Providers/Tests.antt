-- ===== src/Providers/Tests.antt =====
-- A Bybit stream from two connections: a snapshot, two updates with their copies, a service restart.
use aggregated_order_book.Base.{ℕ, ◌≡◌, refl, Bool, true, false, List, [], ◌∷◌, map}
use aggregated_order_book.Base.Int.{pos}
use aggregated_order_book.Types.{bybit}
use aggregated_order_book.Continuity.{check_bybit}
use aggregated_order_book.Dedup.{new_dedup, accept, is_duplicate, rotate}
use aggregated_order_book.Providers.{DepthStream, on_verdict, on_accepted, on_bybit_message}
use aggregated_order_book.Providers.Chained.{
  Message, run_messages, IsChained, on_bybit, handler_of, StepOf, run_messages-IsChained,
}

abbrev message : ℕ → Bool → ℕ → Message
message seq is_snapshot conn_index = record {
  update = record {
    venue = bybit;
    instrument = record { packed = 256 };
    seq = seq;
    prev_seq = pos 0;
    recv_ts_ns = pos 0;
    exch_ts_ns = pos 0;
    recv_mono_ns = pos 0;
    is_snapshot = is_snapshot;
    bids = [];
    asks = [];
  };
  conn_index = conn_index;
}

abbrev stream : DepthStream
stream = record { dedup = new_dedup; last_depth = 0; emitted = []; resync_requested = false }

abbrev messages : List Message
messages =
    message 10 true 0
    ∷ message 11 false 0
    ∷ message 10 true 1
    ∷ message 11 false 1
    ∷ message 12 false 1
    ∷ message 1 true 0
    ∷ message 2 false 0
    ∷ []

chained_run :
    map (λ u. u.seq) (run_messages on_bybit_message messages stream).emitted
    ≡ 10 ∷ 11 ∷ 12 ∷ 1 ∷ 2 ∷ []
unfolding run_messages on_bybit_message on_accepted on_verdict accept is_duplicate rotate
    check_bybit
chained_run = refl

no_resync : (run_messages (handler_of on_bybit) messages stream).resync_requested ≡ false
unfolding run_messages on_bybit_message on_accepted on_verdict accept is_duplicate rotate
    check_bybit
no_resync = refl

run_messages-IsChained_example :
    IsChained (StepOf on_bybit) stream (run_messages (handler_of on_bybit) messages stream)
run_messages-IsChained_example = run_messages-IsChained on_bybit messages stream no_resync
