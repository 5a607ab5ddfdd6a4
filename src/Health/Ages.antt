-- ===== src/Health/Ages.antt =====
-- A feed that has gone silent past its backstop is not admitted again by the passing of time.
use aggregated_order_book.Base.{
  ◌+◌, ◌≤◌, ◌≡◌, refl, sym, ◌∙◌, inl, inr, Bool, true, false, arith, Bool-cases,
}
use aggregated_order_book.Base.Int.{ℤ, pos_part, neg_part, ◌-ℤ◌, ltb_ℤ, is_zero_ℤ}
use aggregated_order_book.Types.{no_data, disconnected, live, stale}
use aggregated_order_book.Health.{classify_venue, classify_feed}

-- `a <= b`
abbrev pub Leq : ℤ → ℤ → Type 0
Leq a b = pos_part a + neg_part b ≤ pos_part b + neg_part a

older :
    (a now later last : ℤ)
    → Leq now later
    → ltb_ℤ a (now -ℤ last) ≡ true
    → ltb_ℤ a (later -ℤ last) ≡ true
older a now later last l h = ground (arith, l, h)

-- The branches of the policy.
data FeedCase (connected : Bool) (last now backstop : ℤ) : Type 0 where
  down :
      classify_feed connected last now backstop ≡ disconnected
      → FeedCase connected last now backstop
  silent :
      classify_feed connected last now backstop ≡ no_data → FeedCase connected last now backstop
  old :
      connected ≡ true
      → is_zero_ℤ last ≡ false
      → ltb_ℤ backstop (now -ℤ last) ≡ true
      → FeedCase connected last now backstop
  fresh : classify_feed connected last now backstop ≡ live → FeedCase connected last now backstop

feed_case : (connected : Bool) (last now backstop : ℤ) → FeedCase connected last now backstop
unfolding classify_feed classify_venue
feed_case false last now backstop = down refl
feed_case true last now backstop = elim (Bool-cases (is_zero_ℤ last)) [
  | inl a ↦ silent (rw (classify_feed, classify_venue, a) refl)
  | inr a ↦ elim (Bool-cases (ltb_ℤ backstop (now -ℤ last))) [
    | inl b ↦ old refl a b
    | inr b ↦ fresh (rw (classify_feed, classify_venue, a, b) refl)
  ]
]

old_feed :
    (connected : Bool) (last now backstop : ℤ)
    → connected ≡ true
    → is_zero_ℤ last ≡ false
    → ltb_ℤ backstop (now -ℤ last) ≡ true
    → classify_feed connected last now backstop ≡ stale
unfolding classify_feed classify_venue
old_feed connected last now backstop a b c = rw (a, classify_feed, classify_venue, b, c) refl

-- With no message in between, a feed that the policy calls stale stays so as time goes on.
pub classify_feed_later :
    (connected : Bool) (last now later backstop : ℤ)
    → Leq now later
    → classify_feed connected last now backstop ≡ stale
    → classify_feed connected last later backstop ≡ stale
classify_feed_later connected last now later backstop l h =
    elim (feed_case connected last now backstop) [
      | down e ↦ absurd (cc (sym e ∙ h))
      | silent e ↦ absurd (cc (sym e ∙ h))
      | old a b c ↦ old_feed connected last later backstop a b (older backstop now later last l c)
      | fresh e ↦ absurd (cc (sym e ∙ h))
    ]
