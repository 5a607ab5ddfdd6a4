-- ===== src/Binance/Joined.antt =====
-- What the core has received once a snapshot has joined the buffered events.
use aggregated_order_book.Base.{
  ℕ, ◌≤◌, ◌<◌, ◌≡◌, refl, sym, ap, subst, ◌∙◌, Bool, Option, none, some, List, [], ◌∷◌, ◌++◌,
  append-nil, append_assoc, arith, if◌then◌else◌, length, take, drop, All,
}
use aggregated_order_book.Types.{BookUpdate, MarketType, spot, futures}
use aggregated_order_book.Continuity.{
  ignore, check_binance_spot, reconcile_binance_snapshot, ignore,
}
use aggregated_order_book.Continuity.Chains.{Steps, SpotStep, final}
use aggregated_order_book.Continuity.Snapshot.{
  Contiguous, Replays, AllApply-Steps, reconcile_binance_snapshot-Replays,
  reconcile_binance_snapshot-All, check_binance_spot-ignore,
}
use aggregated_order_book.Dedup.Marks.{accept-above}
use aggregated_order_book.Dedup.{SeqDedup, rotate}
use aggregated_order_book.Binance.{
  accepted_event, live, BinanceDepth, emit, live_verdict, live_event, on_depth_message, replay,
  last_seq, anchor, reconcile_snapshot, live,
}

drop_whole : (us : List BookUpdate) → drop (length us) us ≡ []
drop_whole [] = refl
drop_whole (u ∷ us) = drop_whole us

replay_lem :
    (us : List BookUpdate) (s : BinanceDepth)
    → ((replay us s).emitted ≡ s.emitted ++ us)
      × ((replay us s).last_depth_u ≡ final s.last_depth_u us)
      × ((replay us s).market ≡ s.market)
      × ((replay us s).dedup ≡ s.dedup)
unfolding replay
replay_lem [] s = (sym (append-nil s.emitted), refl, refl, refl)
replay_lem (u ∷ us) s =
    let (e, l, k, d) = replay_lem us (emit u (record s { last_depth_u = u.seq })) in
    (e ∙ append_assoc s.emitted (u ∷ []) us, l, k, d)

-- What `ReconcileSnapshot` of a spot stream leaves when the snapshot joins at `first`.
pub record IsJoined (snapshot : BookUpdate) (first : ℕ) (s s' : BinanceDepth) : Type 0 where
  pub emitted : s'.emitted ≡ s.emitted ++ snapshot ∷ drop first s.pending
  pub last : s'.last_depth_u ≡ final snapshot.seq (drop first s.pending)
  pub state : s'.sync_state ≡ live
  pub market : s'.market ≡ s.market
  pub dedup : s'.dedup ≡ s.dedup

anchor_spot : (m : MarketType) (o : Option ℕ) (s : BinanceDepth) → m ≡ spot → anchor m o s ≡ s
unfolding anchor
anchor_spot spot none s e = refl
anchor_spot spot (some n) s e = refl
anchor_spot futures o s e = absurd (cc)

reconcile_snapshot-IsJoined :
    (snapshot : BookUpdate) (first : ℕ) (s : BinanceDepth)
    → s.market ≡ spot
    → reconcile_binance_snapshot snapshot.seq s.pending ≡ some first
    → IsJoined snapshot first s (reconcile_snapshot snapshot s).1
unfolding reconcile_snapshot
reconcile_snapshot-IsJoined snapshot first s m e =
    let joined = emit snapshot (record s { last_depth_u = snapshot.seq }) in
    let (x, l, k, d) = replay_lem (drop first s.pending) joined in
    rw
      (
        e,
        reconcile_snapshot,
        anchor_spot s.market (last_seq s.pending) (replay (drop first s.pending) joined) m,
      )
      (record {
        emitted = x ∙ append_assoc s.emitted (snapshot ∷ []) (drop first s.pending);
        last = l;
        state = refl;
        market = k;
        dedup = d;
      })

-- If the snapshot joins the buffer of a spot stream whose events follow each other, the core receives
-- the snapshot and then the buffered events from the join on, each of which continues the chain from
-- the snapshot's id; the events left out are contained in the snapshot; and the stream goes live at
-- the number of the last event.
pub reconcile_snapshot-Steps :
    (snapshot : BookUpdate) (first : ℕ) (s : BinanceDepth)
    → s.market ≡ spot
    → Contiguous s.pending
    → reconcile_binance_snapshot snapshot.seq s.pending ≡ some first
    → All (λ u. u.seq ≤ snapshot.seq) (take first s.pending)
      × Steps SpotStep snapshot.seq (drop first s.pending)
      × IsJoined snapshot first s (reconcile_snapshot snapshot s).1
reconcile_snapshot-Steps snapshot first s m h e =
    let rest = drop first s.pending in
    let (bound, contained, taken) : Replays snapshot.seq s.pending (some first) =
      subst (Replays snapshot.seq s.pending) e
        (reconcile_binance_snapshot-Replays snapshot.seq s.pending h) in
    (
      contained,
      AllApply-Steps snapshot.seq rest taken,
      reconcile_snapshot-IsJoined snapshot first s m e,
    )

live_event-spot :
    (u : BookUpdate) (o : Option ℕ) (s : BinanceDepth) (last : ℕ)
    → s.market ≡ spot
    → check_binance_spot u s.last_depth_u ≡ (ignore, last)
    → (live_event u o s).emitted ≡ s.emitted ++ u ∷ []
unfolding live_event live_verdict
live_event-spot u o s last m e =
    let v : live_verdict s.market u o s.last_depth_u ≡ (ignore, last) =
      ap (λ k. live_verdict k u o s.last_depth_u) m ∙ e in
    rw (v, live_event) refl

on_depth_message-live :
    (u : BookUpdate) (c : ℕ) (o : Option ℕ) (s : BinanceDepth)
    → s.sync_state ≡ live
    → s.dedup.last < u.seq
    → on_depth_message u c o s ≡ live_event u o (record s { dedup = rotate s.dedup u.seq c })
unfolding on_depth_message accepted_event
on_depth_message-live u c o s l h =
    let go : Bool × SeqDedup → BinanceDepth = λ r.
      if r.0
      then accepted_event s.sync_state u o (record s { dedup = r.1 })
      else record s { dedup = r.1 } in
    ap go (accept-above s.dedup u.seq c h)
    ∙ ap (λ k. accepted_event k u o (record s { dedup = rotate s.dedup u.seq c })) l

-- If a spot snapshot contains every buffered event, then an event that comes after the stream has
-- gone live, above the last buffered one but still contained in the snapshot, is emitted behind the
-- snapshot, although the rule's verdict on it is to ignore it.
pub on_depth_message-ignored :
    (snapshot u : BookUpdate) (c : ℕ) (o : Option ℕ) (s : BinanceDepth)
    → s.market ≡ spot
    → All (λ e. e.seq ≤ snapshot.seq) s.pending
    → s.dedup.last < u.seq
    → u.seq ≤ snapshot.seq
    → ((on_depth_message u c o (reconcile_snapshot snapshot s).1).emitted
        ≡ s.emitted ++ snapshot ∷ u ∷ [])
      × ((check_binance_spot u (reconcile_snapshot snapshot s).1.last_depth_u).0 ≡ ignore)
on_depth_message-ignored snapshot u c o s m h a b =
    let s' = (reconcile_snapshot snapshot s).1 in
    let j : IsJoined snapshot (length s.pending) s s' =
      reconcile_snapshot-IsJoined snapshot (length s.pending) s m
        (reconcile_binance_snapshot-All snapshot.seq s.pending h) in
    let nothing : drop (length s.pending) s.pending ≡ [] = drop_whole s.pending in
    let last : s'.last_depth_u ≡ snapshot.seq = j.last ∙ ap (final snapshot.seq) nothing in
    let verdict : check_binance_spot u s'.last_depth_u ≡ (ignore, s'.last_depth_u) =
      check_binance_spot-ignore s'.last_depth_u u (omega (arith, last, b)) in
    let mark : s'.dedup.last < u.seq = subst (λ d. d.last < u.seq) (sym j.dedup) a in
    let t : BinanceDepth = record s' { dedup = rotate s'.dedup u.seq c } in
    (
      ap (λ x. x.emitted) (on_depth_message-live u c o s' j.state mark)
          ∙ live_event-spot u o t s'.last_depth_u (j.market ∙ m) verdict
          ∙ ap (λ xs. xs ++ u ∷ []) (j.emitted ∙ ap (λ xs. s.emitted ++ snapshot ∷ xs) nothing)
          ∙ append_assoc s.emitted (snapshot ∷ []) (u ∷ []),
      ap (λ v. v.0) verdict,
    )
