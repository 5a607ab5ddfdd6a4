-- ===== src/Binance/Live.antt =====
-- A spot stream that is live: the events of any number of connections, one after the other.
use aggregated_order_book.Base.{
  ℕ, ◌≤◌, ◌<◌, ◌≡◌, refl, sym, ap, subst, ◌∙◌, inl, inr, false, Option, List, [], ◌∷◌, ◌++◌,
  append-nil, append_assoc, arith, le-cases, Bool-cases, leb,
}
use aggregated_order_book.Base.Int.{to_uint64}
use aggregated_order_book.Types.{BookUpdate, spot}
use aggregated_order_book.Continuity.{next64, check_binance_spot, apply, ignore, gap}
use aggregated_order_book.Continuity.Chains.{Covers, Covers-left, Covers-right}
use aggregated_order_book.Dedup.{accept}
use aggregated_order_book.Binance.{
  BinanceDepth, live, live_verdict, live_event, accepted_event, on_depth_message,
}

-- An event as one of the connections delivers it, with the `pu` that a futures event has.
pub record Event : Type 0 where
  pub update : BookUpdate
  pub conn_index : ℕ
  pub chain_seq : Option ℕ

unfoldable pub run_events : List Event → BinanceDepth → BinanceDepth
run_events [] s = s
run_events (e ∷ es) s = run_events es (on_depth_message e.update e.conn_index e.chain_seq s)

pub record IsLiveSpot (s : BinanceDepth) : Type 0 where
  pub market : s.market ≡ spot
  pub state : s.sync_state ≡ live

-- What has been emitted from `s` to `s'` covers the numbers that the stream has moved past.
pub record IsCovered (s s' : BinanceDepth) : Type 0 where
  pub new : List BookUpdate
  pub emitted : s'.emitted ≡ s.emitted ++ new
  pub onward : s.last_depth_u ≤ s'.last_depth_u
  pub covered : (n : ℕ) → s.last_depth_u < n → n ≤ s'.last_depth_u → Covers n new
  pub still : IsLiveSpot s'

still-IsCovered :
    (s s' : BinanceDepth)
    → s'.emitted ≡ s.emitted
    → s'.last_depth_u ≡ s.last_depth_u
    → IsLiveSpot s'
    → IsCovered s s'
still-IsCovered s s' e l k = record {
  new = [];
  emitted = e ∙ sym (append-nil s.emitted);
  onward = omega (arith, l);
  covered = λ n a b. absurd (omega (arith, l, a, b));
  still = k;
}

IsCovered-trans : (s t r : BinanceDepth) → IsCovered s t → IsCovered t r → IsCovered s r
IsCovered-trans s t r h k = record {
  new = h.new ++ k.new;
  emitted = k.emitted ∙ ap (λ xs. xs ++ k.new) h.emitted ∙ append_assoc s.emitted h.new k.new;
  onward = omega (arith, h.onward, k.onward);
  covered = λ n a b. elim (le-cases n t.last_depth_u) [
    | inl c ↦ Covers-left n h.new k.new (h.covered n a c)
    | inr c ↦ Covers-right n h.new k.new (k.covered n c b)
  ];
  still = k.still;
}

-- The three verdicts of the rule on an event.
data SpotCase (u : BookUpdate) (last : ℕ) : Type 0 where
  old : check_binance_spot u last ≡ (ignore, last) → SpotCase u last
  next :
      last < u.seq
      → to_uint64 u.prev_seq ≤ next64 last
      → check_binance_spot u last ≡ (apply, u.seq)
      → SpotCase u last
  late : check_binance_spot u last ≡ (gap, last) → SpotCase u last

spot_case : (u : BookUpdate) (last : ℕ) → SpotCase u last
unfolding check_binance_spot
spot_case u last = elim (Bool-cases (leb u.seq last)) [
  | inl a ↦ old (rw (check_binance_spot, a) refl)
  | inr a ↦ elim (Bool-cases (leb (to_uint64 u.prev_seq) (next64 last))) [
    | inl b ↦ next (ground (arith, a)) (ground (arith, b)) (rw (check_binance_spot, a, b) refl)
    | inr b ↦ late (rw (check_binance_spot, a, b) refl)
  ]
]

live_event-IsCovered :
    (u : BookUpdate) (o : Option ℕ) (s : BinanceDepth)
    → IsLiveSpot s
    → IsCovered s (live_event u o s)
unfolding live_event live_verdict
live_event-IsCovered u o s k =
    let verdict : live_verdict s.market u o s.last_depth_u ≡ check_binance_spot u s.last_depth_u =
      ap (λ m. live_verdict m u o s.last_depth_u) k.market in
    elim (spot_case u s.last_depth_u) [
      | old e ↦
          rw (live_event, verdict ∙ e)
            (record {
              new = u ∷ [];
              emitted = refl;
              onward = omega arith;
              covered = λ n a b. absurd (omega (arith, a, b));
              still = record { market = k.market; state = k.state };
            })
      | next a b e ↦
          rw (live_event, verdict ∙ e)
            (record {
              new = u ∷ [];
              emitted = refl;
              onward = omega (arith, a);
              covered = λ n c d. inl (omega (arith, b, c), d);
              still = record { market = k.market; state = k.state };
            })
      | late e ↦
          rw (live_event, verdict ∙ e)
            (still-IsCovered s _ refl refl (record { market = k.market; state = k.state }))
    ]

on_depth_message-IsCovered :
    (e : Event) (s : BinanceDepth)
    → IsLiveSpot s
    → IsCovered s (on_depth_message e.update e.conn_index e.chain_seq s)
unfolding on_depth_message accepted_event
on_depth_message-IsCovered e s k =
    let r = accept s.dedup e.update.seq e.conn_index false in
    let s' : BinanceDepth = record s { dedup = r.1 } in
    let k' : IsLiveSpot s' = record { market = k.market; state = k.state } in
    elim (Bool-cases r.0) [
      | inl a ↦
          rw (on_depth_message, a)
            (subst (λ st. IsCovered s (accepted_event st e.update e.chain_seq s')) (sym k.state)
              (IsCovered-trans s s' (live_event e.update e.chain_seq s')
                (still-IsCovered s s' refl refl k')
                (live_event-IsCovered e.update e.chain_seq s' k')))
      | inr a ↦ rw (on_depth_message, a) (still-IsCovered s s' refl refl k')
    ]

-- A spot stream that is live, and any events of any connections, in any order, with copies, old
-- events and gaps among them: every number above the last one of the stream, up to the one where it
-- stands afterwards, lies in the range of an event that the handler has emitted meanwhile, so that
-- the stream never moves past a number that the core has not received; and it is never moved back.
pub run_events-IsCovered :
    (es : List Event) (s : BinanceDepth) → IsLiveSpot s → IsCovered s (run_events es s)
unfolding run_events
run_events-IsCovered [] s k = still-IsCovered s s refl refl k
run_events-IsCovered (e ∷ es) s k =
    let first = on_depth_message-IsCovered e s k in
    IsCovered-trans s (on_depth_message e.update e.conn_index e.chain_seq s) _ first
      (run_events-IsCovered es _ first.still)
