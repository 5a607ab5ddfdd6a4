-- ===== src/Providers/Chained.antt =====
-- What the core receives of a depth stream of Bybit or OKX, from any number of connections.
use aggregated_order_book.Base.{
  ℕ, ◌≡◌, refl, sym, ap, subst, ◌∙◌, Bool, true, false, List, [], ◌∷◌, ◌++◌, append-nil,
  append_assoc,
}
use aggregated_order_book.Types.{BookUpdate}
use aggregated_order_book.Continuity.{
  ContinuityAction, check_bybit, check_okx, apply, reset, ignore, gap,
}
use aggregated_order_book.Continuity.Chains.{
  Steps, Sound, BybitStep, OkxStep, check_bybit-Sound, check_okx-Sound, final, Steps-append,
  final-append,
}
use aggregated_order_book.Dedup.{SeqDedup, accept}
use aggregated_order_book.Providers.{
  DepthStream, on_verdict, bybit_reset, okx_reset, on_accepted, on_bybit_message, on_okx_message,
}

-- A message as one of the connections delivers it.
pub record Message : Type 0 where
  pub update : BookUpdate
  pub conn_index : ℕ

unfoldable pub run_messages :
    (BookUpdate → ℕ → DepthStream → DepthStream) → List Message → DepthStream → DepthStream
run_messages handler [] s = s
run_messages handler (m ∷ ms) s = run_messages handler ms (handler m.update m.conn_index s)

-- What has been emitted from `s` to `s'` follows each other from the last number of `s` on, and ends
-- at the one of `s'`.
pub record IsChained (R : ℕ → BookUpdate → ℕ → Type 0) (s s' : DepthStream) : Type 0 where
  pub new : List BookUpdate
  pub emitted : s'.emitted ≡ s.emitted ++ new
  pub chain : Steps R s.last_depth new
  pub last : s'.last_depth ≡ final s.last_depth new

-- A step relation that moves to the number of the message.
abbrev pub ToSeq : (ℕ → BookUpdate → ℕ → Type 0) → Type 0
ToSeq R = (l n : ℕ) (u : BookUpdate) → R l u n → n ≡ u.seq

module _ (R : ℕ → BookUpdate → ℕ → Type 0) (seq : ToSeq R) where
  IsChained-trans : (s t r : DepthStream) → IsChained R s t → IsChained R t r → IsChained R s r
  IsChained-trans s t r h k = record {
    new = h.new ++ k.new;
    emitted = k.emitted ∙ ap (λ xs. xs ++ k.new) h.emitted ∙ append_assoc s.emitted h.new k.new;
    chain =
        Steps-append R h.new k.new s.last_depth seq h.chain
          (subst (λ l. Steps R l k.new) h.last k.chain);
    last = k.last ∙ ap (λ l. final l k.new) h.last ∙ sym (final-append h.new k.new s.last_depth);
  }

  -- Until a resync is asked for.
  abbrev pub Chains : DepthStream → DepthStream → Type 0
  Chains s s' = (s'.resync_requested ≡ false) → (s.resync_requested ≡ false) × IsChained R s s'

  still-Chains :
      (s s' : DepthStream)
      → s'.resync_requested ≡ s.resync_requested
      → s'.emitted ≡ s.emitted
      → s'.last_depth ≡ s.last_depth
      → Chains s s'
  still-Chains s s' q e l off = (
    sym q ∙ off,
    record { new = []; emitted = e ∙ sym (append-nil s.emitted); chain = tt; last = l },
  )

  taken-Chains :
      (u : BookUpdate) (n : ℕ) (s s' : DepthStream)
      → R s.last_depth u n
      → s'.resync_requested ≡ s.resync_requested
      → s'.emitted ≡ s.emitted ++ u ∷ []
      → s'.last_depth ≡ n
      → Chains s s'
  taken-Chains u n s s' r q e l off = (
    sym q ∙ off,
    record { new = u ∷ []; emitted = e; chain = (n, r, tt); last = l ∙ seq s.last_depth n u r },
  )

  on_verdict-Chains :
      (u : BookUpdate) (v : ContinuityAction × ℕ) (d : SeqDedup) (s : DepthStream)
      → Sound R s.last_depth u v
      → Chains s (on_verdict v u (record s { dedup = d }))
  unfolding on_verdict
  on_verdict-Chains u (ignore, n) d s h = still-Chains s _ refl refl h
  on_verdict-Chains u (gap, n) d s h = λ off. absurd (cc)
  on_verdict-Chains u (reset, n) d s h = taken-Chains u n s _ h refl refl refl
  on_verdict-Chains u (apply, n) d s h = taken-Chains u n s _ h refl refl refl

  module _ (check : BookUpdate → ℕ → ContinuityAction × ℕ)
      (sound : (last : ℕ) (u : BookUpdate) → Sound R last u (check u last)) where
    on_accepted-Chains :
        (u : BookUpdate) (a : Bool × SeqDedup) (s : DepthStream)
        → Chains s (on_accepted check u a s)
    unfolding on_accepted
    on_accepted-Chains u (true, d) s =
        on_verdict-Chains u (check u s.last_depth) d s (sound s.last_depth u)
    on_accepted-Chains u (false, d) s = still-Chains s _ refl refl refl

  run_messages-Chains :
      (handler : BookUpdate → ℕ → DepthStream → DepthStream)
      → ((u : BookUpdate) (c : ℕ) (s : DepthStream) → Chains s (handler u c s))
      → (ms : List Message) (s : DepthStream) → Chains s (run_messages handler ms s)
  unfolding run_messages
  run_messages-Chains handler step [] s off = still-Chains s s refl refl refl off
  run_messages-Chains handler step (m ∷ ms) s off =
      let t = handler m.update m.conn_index s in
      let (early, rest) = run_messages-Chains handler step ms t off in
      let (start, first) = step m.update m.conn_index s early in
      (start, IsChained-trans s t (run_messages handler ms t) first rest)

BybitStep-ToSeq : ToSeq BybitStep
BybitStep-ToSeq l n u h = h.0

OkxStep-ToSeq : ToSeq OkxStep
OkxStep-ToSeq l n u h = h.0

bybit-Chains :
    (u : BookUpdate) (c : ℕ) (s : DepthStream)
    → Chains BybitStep BybitStep-ToSeq s (on_bybit_message u c s)
unfolding on_bybit_message
bybit-Chains u c s =
    on_accepted-Chains BybitStep BybitStep-ToSeq check_bybit (λ l v. check_bybit-Sound l v) u
      (accept s.dedup u.seq c (bybit_reset u)) s

okx-Chains :
    (u : BookUpdate) (c : ℕ) (s : DepthStream)
    → Chains OkxStep OkxStep-ToSeq s (on_okx_message u c s)
unfolding on_okx_message
okx-Chains u c s =
    on_accepted-Chains OkxStep OkxStep-ToSeq check_okx (λ l v. check_okx-Sound l v) u
      (accept s.dedup u.seq c (okx_reset u)) s

-- The two venues whose streams have a number for each message.
pub data DepthVenue : Type 0 where
  on_bybit on_okx : DepthVenue

abbrev pub handler_of : DepthVenue → BookUpdate → ℕ → DepthStream → DepthStream
handler_of on_bybit = on_bybit_message
handler_of on_okx = on_okx_message

abbrev pub StepOf : DepthVenue → ℕ → BookUpdate → ℕ → Type 0
StepOf on_bybit = BybitStep
StepOf on_okx = OkxStep

-- Any messages of any connections of one stream, in any order, with copies, keepalives, resets and
-- snapshots among them, after which no resync has been asked for: on Bybit each message that the
-- handler has emitted meanwhile is a snapshot or has the number after the one emitted before it (the
-- first: after the last number of the stream), on OKX each is a snapshot or names the number of the one
-- emitted before it; nothing else has been emitted, and the stream stands at the number of the last
-- message emitted.
pub run_messages-IsChained :
    (v : DepthVenue) (ms : List Message) (s : DepthStream)
    → (run_messages (handler_of v) ms s).resync_requested ≡ false
    → IsChained (StepOf v) s (run_messages (handler_of v) ms s)
run_messages-IsChained on_bybit ms s off =
    (run_messages-Chains BybitStep BybitStep-ToSeq on_bybit_message bybit-Chains ms s off).1
run_messages-IsChained on_okx ms s off =
    (run_messages-Chains OkxStep OkxStep-ToSeq on_okx_message okx-Chains ms s off).1
