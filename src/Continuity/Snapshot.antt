-- ===== src/Continuity/Snapshot.antt =====
-- `ReconcileBinanceSnapshot`: where a REST snapshot joins the events buffered meanwhile, and the
-- replay from there under the live rule.
use aggregated_order_book.Base.{
  ℕ, zero, suc, ◌≤◌, ◌<◌, ◌≡◌, refl, sym, ap, subst, inl, inr, true, Option, none, some, List, [],
  ◌∷◌, arith, ltb, leb, ltb→lt, leb→le, Bool-cases, length, take, drop, All,
}
use aggregated_order_book.Base.Int.{to_uint64}
use aggregated_order_book.Types.{BookUpdate}
use aggregated_order_book.Continuity.{
  ignore, next64, check_binance_spot, skip_contained, join_at, reconcile_binance_snapshot, apply,
}
use aggregated_order_book.Continuity.Chains.{Steps, SpotStep}

-- The first event that the snapshot does not contain, if any, and whether it can follow it.
abbrev pub StartsAbove : ℕ → List BookUpdate → Type 0
StartsAbove last [] = Unit
StartsAbove last (u ∷ us) = last < u.seq

abbrev pub Joins : ℕ → List BookUpdate → Type 0
Joins last [] = Unit
Joins last (u ∷ us) = to_uint64 u.prev_seq ≤ next64 last

-- The cut of the buffer at the first event that the snapshot does not contain.
pub record Cut (last : ℕ) (pending : List BookUpdate) (first : ℕ) (rest : List BookUpdate)
    : Type 0 where
  pub bound : first ≤ length pending
  pub contained : All (λ u. u.seq ≤ last) (take first pending)
  pub tail : drop first pending ≡ rest
  pub above : StartsAbove last rest

skip_contained-Cut :
    (last : ℕ) (pending : List BookUpdate)
    → Cut last pending (skip_contained last pending).0 (skip_contained last pending).1
unfolding skip_contained
skip_contained-Cut last [] = record { bound = omega arith; contained = tt; tail = refl; above = tt }
skip_contained-Cut last (u ∷ us) = elim (Bool-cases (leb u.seq last)) [
  | inl e ↦
      let c = skip_contained-Cut last us in
      rw (e, skip_contained)
        (record {
          bound = omega (arith, c.bound);
          contained = (leb→le u.seq last e, c.contained);
          tail = c.tail;
          above = c.above;
        })
  | inr e ↦
      rw (e, skip_contained)
        (record { bound = omega arith; contained = tt; tail = refl; above = ground (arith, e) })
]

-- Events each of which follows the one before it.
abbrev pub Contiguous : List BookUpdate → Type 0
Contiguous [] = Unit
Contiguous (u ∷ us) = Steps SpotStep u.seq us

Contiguous-drop : (n : ℕ) (us : List BookUpdate) → Contiguous us → Contiguous (drop n us)
Contiguous-drop zero us h = h
Contiguous-drop (suc n) [] h = tt
Contiguous-drop (suc n) (u ∷ []) h = Contiguous-drop n [] tt
Contiguous-drop (suc n) (u ∷ v ∷ us) (next, s, h) =
    Contiguous-drop n (v ∷ us) (subst (λ x. Steps SpotStep x us) s.0 h)

check_binance_spot-apply :
    (last : ℕ) (u : BookUpdate)
    → last < u.seq
    → to_uint64 u.prev_seq ≤ next64 last
    → check_binance_spot u last ≡ (apply, u.seq)
unfolding check_binance_spot
check_binance_spot-apply last u h k = ground (arith, h, k)

-- The live rule applies every event, the first after `last`.
abbrev pub AllApply : ℕ → List BookUpdate → Type 0
AllApply last [] = Unit
AllApply last (u ∷ us) = (check_binance_spot u last ≡ (apply, u.seq)) × AllApply u.seq us

Steps-AllApply : (last : ℕ) (us : List BookUpdate) → Steps SpotStep last us → AllApply last us
Steps-AllApply last [] h = tt
Steps-AllApply last (u ∷ us) (next, (e, a, b), h) = (
  check_binance_spot-apply last u a b,
  Steps-AllApply u.seq us (subst (λ x. Steps SpotStep x us) e h),
)

-- What the join decides of a cut.
data Join (last : ℕ) (pending : List BookUpdate) : Option ℕ → Type 0 where
  joined :
      (first : ℕ) (rest : List BookUpdate)
      → Cut last pending first rest
      → Joins last rest
      → Join last pending (some first)
  missed :
      (first : ℕ) (u : BookUpdate) (us : List BookUpdate)
      → Cut last pending first (u ∷ us)
      → next64 last < to_uint64 u.prev_seq
      → Join last pending none

join_at-Join :
    (last : ℕ) (pending : List BookUpdate) (first : ℕ) (rest : List BookUpdate)
    → Cut last pending first rest
    → Join last pending (join_at last (first, rest))
join_at-Join last pending first [] c = joined first [] c tt
join_at-Join last pending first (u ∷ us) c =
    elim (Bool-cases (ltb (next64 last) (to_uint64 u.prev_seq))) [
      | inl e ↦ rw e (missed first u us c (ltb→lt _ _ e))
      | inr e ↦ rw e (joined first (u ∷ us) c (ground (arith, e)))
    ]

reconcile_binance_snapshot-Join :
    (last : ℕ) (pending : List BookUpdate)
    → Join last pending (reconcile_binance_snapshot last pending)
unfolding reconcile_binance_snapshot
reconcile_binance_snapshot-Join last pending =
    join_at-Join last pending (skip_contained last pending).0 (skip_contained last pending).1
      (skip_contained-Cut last pending)

Contiguous-Steps :
    (last : ℕ) (us : List BookUpdate)
    → StartsAbove last us
    → Joins last us
    → Contiguous us
    → Steps SpotStep last us
Contiguous-Steps last [] a j h = tt
Contiguous-Steps last (u ∷ us) a j h = (u.seq, (refl, a, j), h)

-- What the provider relies on when a snapshot joins the buffer, or does not.
abbrev pub Replays : ℕ → List BookUpdate → Option ℕ → Type 0
Replays last pending none =
    (first : ℕ) × (u : BookUpdate) × (us : List BookUpdate) × All (λ e. e.seq ≤ last)
      (take first pending)
    × (drop first pending ≡ u ∷ us)
    × (last < u.seq)
    × (next64 last < to_uint64 u.prev_seq)
Replays last pending (some first) =
    (first ≤ length pending)
    × All (λ e. e.seq ≤ last) (take first pending)
    × AllApply last (drop first pending)

-- Events that survive the cut and follow each other from the snapshot on.
pub AllApply-Steps : (last : ℕ) (us : List BookUpdate) → AllApply last us → Steps SpotStep last us
unfolding check_binance_spot
AllApply-Steps last [] h = tt
AllApply-Steps last (u ∷ us) (e, h) = (u.seq, ground (arith, e), AllApply-Steps u.seq us h)

Join-Replays :
    (last : ℕ) (pending : List BookUpdate) (o : Option ℕ)
    → Contiguous pending
    → Join last pending o
    → Replays last pending o
Join-Replays last pending _ h (joined first rest c j) = (
  c.bound,
  c.contained,
  Steps-AllApply last (drop first pending) (
      Contiguous-Steps last (drop first pending) (subst (StartsAbove last) (sym c.tail) c.above)
        (subst (Joins last) (sym c.tail) j) (Contiguous-drop first pending h)),
)
Join-Replays last pending _ h (missed first u us c l) =
    (first, u, us, c.contained, c.tail, c.above, l)

-- For buffered events each of which follows the one before it: if `ReconcileBinanceSnapshot` gives an
-- index, every event before it is contained in the snapshot, and the live rule applies each of the
-- events from it on, the first after the snapshot's own id; if it gives none, the snapshot contains
-- all events before some event that it does not contain, and that first one starts beyond the id
-- after the snapshot's, so that ids are missing.
pub reconcile_binance_snapshot-Replays :
    (last : ℕ) (pending : List BookUpdate)
    → Contiguous pending
    → Replays last pending (reconcile_binance_snapshot last pending)
reconcile_binance_snapshot-Replays last pending h =
    Join-Replays last pending (reconcile_binance_snapshot last pending) h
      (reconcile_binance_snapshot-Join last pending)

-- A snapshot that contains every buffered event joins the buffer behind its end.
pub skip_contained-All :
    (last : ℕ) (pending : List BookUpdate)
    → All (λ u. u.seq ≤ last) pending
    → skip_contained last pending ≡ (length pending, [])
unfolding skip_contained
skip_contained-All last [] h = refl
skip_contained-All last (u ∷ us) h =
    let e : leb u.seq last ≡ true = ground (arith, h.0) in
    rw (e, skip_contained) (ap (λ r. (suc r.0, r.1)) (skip_contained-All last us h.1))

pub reconcile_binance_snapshot-All :
    (last : ℕ) (pending : List BookUpdate)
    → All (λ u. u.seq ≤ last) pending
    → reconcile_binance_snapshot last pending ≡ some (length pending)
unfolding reconcile_binance_snapshot
reconcile_binance_snapshot-All last pending h =
    ap (join_at last) (skip_contained-All last pending h)

pub check_binance_spot-ignore :
    (last : ℕ) (u : BookUpdate) → u.seq ≤ last → check_binance_spot u last ≡ (ignore, last)
unfolding check_binance_spot
check_binance_spot-ignore last u h = ground (arith, h)
