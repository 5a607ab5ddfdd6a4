-- ===== src/Providers.antt =====
-- The depth handlers of md_provider/bybit/bybit_provider.cpp and md_provider/okx/okx_provider.cpp:
-- duplicates are dropped, then the venue's rule decides. The parser, the clock and the sockets are
-- outside: a handler takes the parsed message, and what it emits and whether it asks for a resync are
-- fields of the state. The time stamps that `Emit` sets are left as they came.
pub mod Chained
mod Tests
use aggregated_order_book.Base.{ℕ, Bool, true, false, List, [], ◌∷◌, ◌++◌, ◌&&◌, ltb, ◌==◌}
use aggregated_order_book.Base.Int.{pos, ltb_ℤ, to_uint64}
use aggregated_order_book.Types.{BookUpdate}
use aggregated_order_book.Continuity.{
  ContinuityAction, check_bybit, check_okx, apply, reset, ignore, gap,
}
use aggregated_order_book.Dedup.{SeqDedup, accept}

pub record DepthStream : Type 0 where
  pub dedup : SeqDedup
  pub last_depth : ℕ
  pub emitted : List BookUpdate
  pub resync_requested : Bool

-- The switch on the verdict, with the number that the rule has left.
unfoldable pub on_verdict : ContinuityAction × ℕ → BookUpdate → DepthStream → DepthStream
on_verdict (ignore, n) u s = record s { last_depth = n }
on_verdict (gap, n) u s = record s { last_depth = 0; resync_requested = true }
on_verdict (reset, n) u s = record s { last_depth = n; emitted = s.emitted ++ u ∷ [] }
on_verdict (apply, n) u s = record s { last_depth = n; emitted = s.emitted ++ u ∷ [] }

-- `venue_reset`: where the number moves backwards at a service restart of Bybit, and at a maintenance
-- reset of OKX.
abbrev pub bybit_reset : BookUpdate → Bool
bybit_reset u = u.seq == 1

abbrev pub okx_reset : BookUpdate → Bool
okx_reset u = ltb_ℤ (pos 0) u.prev_seq && ltb u.seq (to_uint64 u.prev_seq)

-- What `OnDepthMessage` does with the answer of `AcceptDepth`.
unfoldable pub on_accepted :
    (BookUpdate → ℕ → ContinuityAction × ℕ)
    → BookUpdate
    → Bool × SeqDedup
    → DepthStream
    → DepthStream
on_accepted check u (accepted, dedup) s =
    let s' = record s { dedup = dedup } in
    let next = on_verdict (check u s.last_depth) u s' in elim accepted [ true ↦ next | false ↦ s' ]

-- `BybitProvider::OnDepthMessage` and `OKXProvider::OnDepthMessage`, from the parsed message.
unfoldable pub on_bybit_message : BookUpdate → ℕ → DepthStream → DepthStream
on_bybit_message u conn_index s =
    on_accepted check_bybit u (accept s.dedup u.seq conn_index (bybit_reset u)) s

unfoldable pub on_okx_message : BookUpdate → ℕ → DepthStream → DepthStream
on_okx_message u conn_index s =
    on_accepted check_okx u (accept s.dedup u.seq conn_index (okx_reset u)) s
