-- ===== src/Continuity/Chains.antt =====
-- What each venue's rule says of the messages that it lets pass, and of series of them.
use aggregated_order_book.Base.{
  ℕ, ◌≤◌, ◌<◌, ◌≡◌, refl, sym, subst, ◌⊎◌, inl, inr, true, List, [], ◌∷◌, ◌++◌, arith,
}
use aggregated_order_book.Base.Int.{to_uint64}
use aggregated_order_book.Types.{BookUpdate}
use aggregated_order_book.Continuity.{
  ContinuityAction, next64, check_bybit, check_okx, apply, reset, ignore, gap,
}

-- A series of messages, each of which takes the last number to the next.
abbrev pub Steps : {A : Type 0} → (ℕ → A → ℕ → Type 0) → ℕ → List A → Type 0
Steps R last [] = Unit
Steps R last (m ∷ ms) = (next : ℕ) × R last m next × Steps R next ms

-- What the verdict of a rule says of its message.
abbrev pub Sound : (ℕ → BookUpdate → ℕ → Type 0) → ℕ → BookUpdate → ContinuityAction × ℕ → Type 0
Sound R last u (apply, next) = R last u next
Sound R last u (reset, next) = R last u next
Sound R last u (ignore, next) = next ≡ last
Sound R last u (gap, next) = next ≡ last

-- Bybit: a snapshot, or the very next number.
abbrev pub BybitStep : ℕ → BookUpdate → ℕ → Type 0
BybitStep last u next = (next ≡ u.seq) × ((u.is_snapshot ≡ true) ⊎ (u.seq ≡ next64 last))

pub check_bybit-Sound : (last : ℕ) (u : BookUpdate) → Sound BybitStep last u (check_bybit u last)
unfolding check_bybit
check_bybit-Sound last u = ground arith

-- OKX: a snapshot, or a message that names the number before it.
abbrev pub OkxStep : ℕ → BookUpdate → ℕ → Type 0
OkxStep last u next = (next ≡ u.seq) × ((u.is_snapshot ≡ true) ⊎ (to_uint64 u.prev_seq ≡ last))

pub check_okx-Sound : (last : ℕ) (u : BookUpdate) → Sound OkxStep last u (check_okx u last)
unfolding check_okx
check_okx-Sound last u = ground arith

-- Binance spot: an event that ends above the last number and starts at most one above it.
abbrev pub SpotStep : ℕ → BookUpdate → ℕ → Type 0
SpotStep last u next = (next ≡ u.seq) × (last < u.seq) × (to_uint64 u.prev_seq ≤ next64 last)

-- A number lies in the range of one of the events.
abbrev pub Covers : ℕ → List BookUpdate → Type 0
Covers n [] = ⊥
Covers n (u ∷ us) = ((to_uint64 u.prev_seq ≤ n) × (n ≤ u.seq)) ⊎ Covers n us

-- The number after a series.
abbrev pub final : ℕ → List BookUpdate → ℕ
final last [] = last
final last (u ∷ us) = final u.seq us

pub Covers-left : (n : ℕ) (us vs : List BookUpdate) → Covers n us → Covers n (us ++ vs)
Covers-left n [] vs h = absurd h
Covers-left n (u ∷ us) vs (inl h) = inl h
Covers-left n (u ∷ us) vs (inr h) = inr (Covers-left n us vs h)

pub Covers-right : (n : ℕ) (us vs : List BookUpdate) → Covers n vs → Covers n (us ++ vs)
Covers-right n [] vs h = h
Covers-right n (u ∷ us) vs h = inr (Covers-right n us vs h)

-- Series end to end.
pub Steps-append :
    (R : ℕ → BookUpdate → ℕ → Type 0) (us vs : List BookUpdate) (last : ℕ)
    → ((l n : ℕ) (u : BookUpdate) → R l u n → n ≡ u.seq)
    → Steps R last us
    → Steps R (final last us) vs
    → Steps R last (us ++ vs)
Steps-append R [] vs last seq h k = k
Steps-append R (u ∷ us) vs last seq (next, r, h) k = (
  next,
  r,
  subst (λ x. Steps R x (us ++ vs)) (sym (seq last next u r))
      (Steps-append R us vs u.seq seq (subst (λ x. Steps R x us) (seq last next u r) h) k),
)

pub final-append :
    (us vs : List BookUpdate) (last : ℕ) → final last (us ++ vs) ≡ final (final last us) vs
final-append [] vs last = refl
final-append (u ∷ us) vs last = final-append us vs u.seq
