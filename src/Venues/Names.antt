-- ===== src/Venues/Names.antt =====
-- Names and enumerators are in step: each name is read back as the enumerator that is written as it.
use aggregated_order_book.Base.{◌≡◌, refl, sym, ap, ◌∙◌, ◌≢◌, ◌↔◌, inl, inr, Bool-cases}
use aggregated_order_book.Base.Text.{Text, text_eq, text_eq→≡}
use aggregated_order_book.Types.{VenueId, binance, bybit, okx, count}
use aggregated_order_book.Venues.{binance_name, bybit_name, okx_name, to_venue_string, to_venue_id}

-- Which venue a text names.
data NameCase (name : Text) : Type 0 where
  is_binance : name ≡ binance_name → to_venue_id name ≡ binance → NameCase name
  is_bybit : name ≡ bybit_name → to_venue_id name ≡ bybit → NameCase name
  is_okx : name ≡ okx_name → to_venue_id name ≡ okx → NameCase name
  is_unknown : to_venue_id name ≡ count → NameCase name

name_case : (name : Text) → NameCase name
unfolding to_venue_id
name_case name = elim (Bool-cases (text_eq name binance_name)) [
  | inl a ↦ is_binance (text_eq→≡ name _ a) (rw (to_venue_id, a) refl)
  | inr a ↦ elim (Bool-cases (text_eq name bybit_name)) [
    | inl b ↦ is_bybit (text_eq→≡ name _ b) (rw (to_venue_id, a, b) refl)
    | inr b ↦ elim (Bool-cases (text_eq name okx_name)) [
      | inl c ↦ is_okx (text_eq→≡ name _ c) (rw (to_venue_id, a, b, c) refl)
      | inr c ↦ is_unknown (rw (to_venue_id, a, b, c) refl)
    ]
  ]
]

pub to_venue_id-to_venue_string : (v : VenueId) → to_venue_id (to_venue_string v) ≡ v
unfolding to_venue_id to_venue_string text_eq
to_venue_id-to_venue_string binance = refl
to_venue_id-to_venue_string bybit = refl
to_venue_id-to_venue_string okx = refl
to_venue_id-to_venue_string count = refl

named : (name : Text) → to_venue_id name ≢ count → name ≡ to_venue_string (to_venue_id name)
unfolding to_venue_string
named name h = elim (name_case name) [
  | is_binance e r ↦ rw r e
  | is_bybit e r ↦ rw r e
  | is_okx e r ↦ rw r e
  | is_unknown r ↦ absurd (h r)
]

-- For each of the three venues, `ToVenueId` reads a name as the venue exactly when `ToVenueString`
-- writes the venue as that name.
pub to_venue_id_iff :
    (name : Text) (v : VenueId) → v ≢ count → (to_venue_id name ≡ v) ↔ (to_venue_string v ≡ name)
to_venue_id_iff name v h = (
  λ e. ap to_venue_string (sym e) ∙ sym (named name (λ c. h (sym e ∙ c))),
  λ e. ap to_venue_id (sym e) ∙ to_venue_id-to_venue_string v,
)
