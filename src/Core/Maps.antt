-- ===== src/Core/Maps.antt =====
-- The maps by instrument: what is found after a write and after a loop over all entries.
use aggregated_order_book.Base.{
  ℕ, ◌≡◌, refl, sym, ap, ap₂, subst, inl, inr, true, false, Option, none, some, [], ◌∷◌, arith,
  if◌then◌else◌, Bool-cases, Option-cases,
}
use aggregated_order_book.Types.{InstrumentKey, key_eq}
use aggregated_order_book.Core.{KeyMap}

-- `find`
unfoldable pub lookup : {A : Type 0} → KeyMap A → InstrumentKey → Option A
lookup [] k = none
lookup (e ∷ m) k = let rest = lookup m k in if key_eq e.0 k then some e.1 else rest

-- `operator[]` that is read: a key that is not there stands for a new value.
abbrev pub value_or : {A : Type 0} → Option A → A → A
value_or none d = d
value_or (some v) d = v

-- A write to the entry of `k`, which is made when there is none.
unfoldable pub assign : {A : Type 0} → KeyMap A → InstrumentKey → A → KeyMap A
assign [] k v = (k, v) ∷ []
assign (e ∷ m) k v = let rest = assign m k v in if key_eq e.0 k then (e.0, v) ∷ m else e ∷ rest

-- `for (auto& [instrument, value] : map)`
unfoldable pub for_each : {A : Type 0} → (InstrumentKey → A → A) → KeyMap A → KeyMap A
for_each f [] = []
for_each f (e ∷ m) = (e.0, f e.0 e.1) ∷ for_each f m

pub some-injective : {A : Type 0} → {a b : A} → some a ≡ some b → a ≡ b
some-injective e = cc

pub key_eq_refl : (k : InstrumentKey) → key_eq k k ≡ true
key_eq_refl k = ground arith

pub key_eq→≡ : (j k : InstrumentKey) → key_eq j k ≡ true → j ≡ k
key_eq→≡ j k h =
    let packed_eq : j.packed ≡ k.packed = ground (arith, h) in
    ap (λ (p : ℕ). record { packed = p }) packed_eq

module _ {A : Type 0} where
  pub lookup-assign_self :
      (m : KeyMap A) (k : InstrumentKey) (v : A) → lookup (assign m k v) k ≡ some v
  unfolding lookup assign
  lookup-assign_self [] k v = rw (key_eq_refl k) refl
  lookup-assign_self (e ∷ m) k v = elim (Bool-cases (key_eq e.0 k)) [
    | inl a ↦ rw (assign, a, lookup, a) refl
    | inr a ↦ rw (assign, a, lookup, a) (lookup-assign_self m k v)
  ]

  pub lookup-assign_ne :
      (m : KeyMap A) (k j : InstrumentKey) (v : A)
      → key_eq k j ≡ false
      → lookup (assign m k v) j ≡ lookup m j
  unfolding lookup assign
  lookup-assign_ne [] k j v h = rw h refl
  lookup-assign_ne (e ∷ m) k j v h = elim (Bool-cases (key_eq e.0 k)) [
    | inl a ↦
        let b : key_eq e.0 j ≡ false = subst (λ x. key_eq x j ≡ false) (sym (key_eq→≡ e.0 k a)) h in
        rw (assign, a, lookup, b) refl
    | inr a ↦ elim (Bool-cases (key_eq e.0 j)) [
      | inl b ↦ rw (assign, a, lookup, b) refl
      | inr b ↦ rw (assign, a, lookup, b) (lookup-assign_ne m k j v h)
    ]
  ]

  pub lookup-for_each-some :
      (f : InstrumentKey → A → A) (m : KeyMap A) (k : InstrumentKey) (v : A)
      → lookup m k ≡ some v
      → lookup (for_each f m) k ≡ some (f k v)
  unfolding lookup for_each
  lookup-for_each-some f [] k v h = absurd (cc)
  lookup-for_each-some f (e ∷ m) k v h = elim (Bool-cases (key_eq e.0 k)) [
    | inl a ↦
        let same_key : e.0 ≡ k = key_eq→≡ e.0 k a in
        let same_value : e.1 ≡ v = ground (arith, h, a) in
        rw a (ap₂ (λ x y. some (f x y)) same_key same_value)
    | inr a ↦
        let below : lookup m k ≡ some v = ground (arith, h, a) in
        rw a (lookup-for_each-some f m k v below)
  ]

  pub lookup-for_each-none :
      (f : InstrumentKey → A → A) (m : KeyMap A) (k : InstrumentKey)
      → lookup m k ≡ none
      → lookup (for_each f m) k ≡ none
  unfolding lookup for_each
  lookup-for_each-none f [] k h = refl
  lookup-for_each-none f (e ∷ m) k h = elim (Bool-cases (key_eq e.0 k)) [
    | inl a ↦ absurd (ground (arith, h, a))
    | inr a ↦
        let below : lookup m k ≡ none = ground (arith, h, a) in
        rw a (lookup-for_each-none f m k below)
  ]

  -- What is found after the loop was there before it.
  pub lookup-for_each_inv :
      (f : InstrumentKey → A → A) (m : KeyMap A) (k : InstrumentKey) (v : A)
      → lookup (for_each f m) k ≡ some v
      → (w : A) × (lookup m k ≡ some w) × (v ≡ f k w)
  lookup-for_each_inv f m k v h = elim (Option-cases (lookup m k)) [
    | inl a ↦ absurd (ground (arith, h, lookup-for_each-none f m k a))
    | inr (w, a) ↦ (w, a, ground (arith, h, lookup-for_each-some f m k w a))
  ]
