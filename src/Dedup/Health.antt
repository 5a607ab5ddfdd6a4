-- ===== src/Dedup/Health.antt =====
-- What the telemetry of SeqDedup reports: the streak of drops, and the connections that delivered.
use aggregated_order_book.Base.{
  ℕ, ◌+◌, ◌%◌, ◌^◌, ◌≤◌, ◌<◌, ◌≡◌, refl, ap, ◌∙◌, true, false, List, [], ◌∷◌, arith, leb, length,
  All,
}
use aggregated_order_book.Dedup.{
  SeqDedup, drop_copy, is_duplicate, accept, looks_stuck, Delivery, passed, run,
}

accept-reject :
    (s : SeqDedup) (id c : ℕ)
    → s.seen ≡ true
    → id ≤ s.last
    → accept s id c false ≡ (false, drop_copy s c)
unfolding accept is_duplicate
accept-reject s id c h l = ground (arith, h, l)

passed-reject :
    (s : SeqDedup) (m : Delivery) (ms : List Delivery)
    → s.seen ≡ true
    → m.is_reset ≡ false
    → m.id ≤ s.last
    → (passed s (m ∷ ms) ≡ passed (drop_copy s m.conn_index) ms)
      × (run s (m ∷ ms) ≡ run (drop_copy s m.conn_index) ms)
unfolding passed run
passed-reject s m ms h r l =
    let e : accept s m.id m.conn_index m.is_reset ≡ (false, drop_copy s m.conn_index) =
      ap (accept s m.id m.conn_index) r ∙ accept-reject s m.id m.conn_index h l in
    rw e (refl, refl)

-- A message that the filter takes for a copy: no reset, and not above the mark.
abbrev pub IsStale : ℕ → Delivery → Type 0
IsStale last m = (m.is_reset ≡ false) × (m.id ≤ last)

stuck_lem :
    (ms : List Delivery) (s : SeqDedup)
    → s.seen ≡ true
    → All (IsStale s.last) ms
    → s.consecutive_drops + length ms < 2 ^ 32
    → (passed s ms ≡ [])
      × ((run s ms).last ≡ s.last)
      × ((run s ms).consecutive_drops ≡ s.consecutive_drops + length ms)
unfolding passed run
stuck_lem [] s h k b = (refl, refl, omega arith)
stuck_lem (m ∷ ms) s h k b =
    let count : (s.consecutive_drops + 1) % 2 ^ 32 ≡ s.consecutive_drops + 1 = omega arith in
    let (none_passes, mark, drops) =
      stuck_lem ms (drop_copy s m.conn_index) h k.1 (omega (arith, count)) in
    let (e, f) = passed-reject s m ms h k.0.0 k.0.1 in
    (
      e ∙ none_passes,
      ap (λ t. t.last) f ∙ mark,
      ap (λ t. t.consecutive_drops) f ∙ drops ∙ omega (arith, count),
    )

-- The silent failure that `LooksStuck` guards against: if the venue's ids fall back below the mark
-- and no reset is told, nothing passes and the mark stays, however many messages come; and once
-- 1000 have come since the last accepted one (fewer than 2^32), `LooksStuck` says so.
pub passed-IsStale :
    (s : SeqDedup) (ms : List Delivery)
    → s.seen ≡ true
    → s.consecutive_drops ≡ 0
    → All (IsStale s.last) ms
    → length ms < 2 ^ 32
    → (passed s ms ≡ [])
      × ((run s ms).last ≡ s.last)
      × (looks_stuck (run s ms) ≡ leb 1000 (length ms))
unfolding looks_stuck
passed-IsStale s ms h z k b =
    let (none_passes, mark, drops) = stuck_lem ms s h k (omega (arith, z)) in
    (none_passes, mark, ap (leb 1000) (drops ∙ omega (arith, z)))
