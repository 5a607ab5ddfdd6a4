-- ===== src/Continuity.antt =====
-- md_provider/continuity.h and .cpp: each venue's sequencing rule, as a function of the message and
-- of the last sequence number, which it returns beside its verdict; and the join of a REST snapshot
-- to the buffered events of Binance. `prev_seq` is an int64_t that the rules compare after a cast.
pub mod Chains
pub mod Snapshot
mod Tests
use aggregated_order_book.Base.{
  ℕ, suc, ◌+◌, ◌%◌, ◌^◌, not, ◌||◌, Option, none, some, List, [], ◌∷◌, ltb, leb, ◌==◌,
  if◌then◌else◌,
}
use aggregated_order_book.Base.Int.{pos, ltb_ℤ, to_uint64}
use aggregated_order_book.Types.{BookUpdate}

pub data ContinuityAction : Type 0 where
  apply reset ignore gap : ContinuityAction

-- uint64_t successor.
abbrev pub next64 : ℕ → ℕ
next64 n = (n + 1) % 2 ^ 64

-- `CheckBybitContinuity`
unfoldable pub check_bybit : BookUpdate → ℕ → ContinuityAction × ℕ
check_bybit u last_u =
    if u.is_snapshot
    then (reset, u.seq)
    else if u.seq == last_u
    then (ignore, last_u)
    else if u.seq == next64 last_u
    then (apply, u.seq)
    else (gap, last_u)

-- `CheckOkxContinuity`
unfoldable pub check_okx : BookUpdate → ℕ → ContinuityAction × ℕ
check_okx u last_seq =
    if u.is_snapshot
    then (reset, u.seq)
    else if ltb_ℤ u.prev_seq (pos 0) || not (to_uint64 u.prev_seq == last_seq)
    then (gap, last_seq)
    else if u.seq == to_uint64 u.prev_seq
    then (ignore, last_seq)
    else (apply, u.seq)

-- `CheckBinanceSpotContinuity`
unfoldable pub check_binance_spot : BookUpdate → ℕ → ContinuityAction × ℕ
check_binance_spot u last_u =
    if leb u.seq last_u
    then (ignore, last_u)
    else if leb (to_uint64 u.prev_seq) (next64 last_u)
    then (apply, u.seq)
    else (gap, last_u)

-- `CheckBinanceFuturesContinuity`
pub check_binance_futures : ℕ → ℕ → ℕ → ContinuityAction × ℕ
check_binance_futures chain_seq event_seq last_u =
    if leb event_seq last_u
    then (ignore, last_u)
    else if chain_seq == last_u
    then (apply, event_seq)
    else (gap, last_u)

-- The loop of `ReconcileBinanceSnapshot`: `first`, and the events from there on.
pub skip_contained : ℕ → List BookUpdate → ℕ × List BookUpdate
skip_contained last_update_id [] = (0, [])
skip_contained last_update_id (u ∷ us) =
    let rest = skip_contained last_update_id us in
    if leb u.seq last_update_id then (suc rest.0, rest.1) else (0, u ∷ us)

-- The test of the first survivor.
abbrev pub join_at : ℕ → ℕ × List BookUpdate → Option ℕ
join_at last_update_id (first, []) = some first
join_at last_update_id (first, u ∷ us) =
    if ltb (next64 last_update_id) (to_uint64 u.prev_seq) then none else some first

-- `ReconcileBinanceSnapshot`
unfoldable pub reconcile_binance_snapshot : ℕ → List BookUpdate → Option ℕ
unfolding skip_contained
reconcile_binance_snapshot last_update_id pending =
    join_at last_update_id (skip_contained last_update_id pending)
