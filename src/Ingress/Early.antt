-- ===== src/Ingress/Early.antt =====
-- Peers that have not greeted, or have gone.
use aggregated_order_book.Base.{
  ◌<◌, ◌≢◌, All, if◌then◌else◌, ℕ, ◌+◌, ◌%◌, ◌^◌, ◌≡◌, refl, ap, ◌∙◌, inl, inr, false, Option, none,
  some, List, [], ◌∷◌, arith, ◌==◌, Bool-cases, Option-cases,
}
use aggregated_order_book.Base.Text.{Text}
use aggregated_order_book.Wire.{hello_type}
use aggregated_order_book.Wire.Codec.{decode_header}
use aggregated_order_book.Ingress.{
  Identities, slot_of, Ingress, handle_notify, note_early, on_data, is_data, on_type,
  handle_payload, handle_frame, run_frames,
}
use aggregated_order_book.Wire.{read_fields, read_le}

-- A frame that is no greeting, from a peer without a slot.
pub record IsEarly (m : Identities) (f : Text × List ℕ) : Type 0 where
  pub stranger : slot_of m f.0 ≡ none
  pub no_greeting : decode_header f.1 ≢ some hello_type

-- The data frames among them.
abbrev pub has_data : Option ℕ → ℕ
has_data none = 0
has_data (some type) = if is_data type then 1 else 0

abbrev pub data_frames : List (Text × List ℕ) → ℕ
data_frames [] = 0
data_frames (f ∷ fs) = has_data (decode_header f.1) + data_frames fs

-- `n` data frames more.
abbrev pub counted : ℕ → Ingress → Ingress
counted n s = record s { data_before_hello = (s.data_before_hello + n) % 2 ^ 64 }

counted_zero : (s : Ingress) → s.data_before_hello < 2 ^ 64 → some s ≡ some (counted 0 s)
counted_zero s l =
    ap (λ n. some (record s { data_before_hello = n })) (the_same s.data_before_hello l)
  where
    the_same : (n : ℕ) → n < 2 ^ 64 → n ≡ (n + 0) % 2 ^ 64
    the_same n l = omega arith

sum_wrapped : (x a b : ℕ) → ((x + a) % 2 ^ 64 + b) % 2 ^ 64 ≡ (x + (a + b)) % 2 ^ 64
sum_wrapped x a b = omega arith

no_header : decode_header [] ≡ none
unfolding decode_header read_fields read_le
no_header = refl

handle_frame-counted :
    (f : Text × List ℕ) (s : Ingress)
    → s.data_before_hello < 2 ^ 64
    → IsEarly s.identity_to_slot f
    → handle_frame f.0 f.1 s ≡ some (counted (has_data (decode_header f.1)) s)
unfolding handle_frame handle_notify handle_payload on_type on_data note_early
handle_frame-counted (id, []) s l h = rw (handle_notify, h.stranger, no_header) (counted_zero s l)
handle_frame-counted (id, b ∷ bytes) s l h = elim (Option-cases (decode_header (b ∷ bytes))) [
  | inl a ↦ rw (handle_payload, a) (counted_zero s l)
  | inr (type, a) ↦
      let other : (type == hello_type) ≡ false = elim (Bool-cases (type == hello_type)) [
        | inl x ↦ absurd (h.no_greeting (a ∙ ap some (ground (arith, x))))
        | inr x ↦ x
      ] in
      elim (Bool-cases (is_data type)) [
        | inl d ↦ rw (handle_payload, a, on_type, other, d, h.stranger) refl
        | inr d ↦ rw (handle_payload, a, on_type, other, d) (counted_zero s l)
      ]
]

-- Any frames, none of them a greeting, from peers that have not greeted or have gone: garbage, data,
-- goodbyes and disconnects reach neither Core nor a queue and bind no peer; the data frames among
-- them are counted, modulo 2^64, and nothing else changes.
pub run_frames-counted :
    (fs : List (Text × List ℕ)) (s : Ingress)
    → s.data_before_hello < 2 ^ 64
    → All (IsEarly s.identity_to_slot) fs
    → run_frames fs s ≡ some (counted (data_frames fs) s)
unfolding run_frames
run_frames-counted [] s l h = counted_zero s l
run_frames-counted (f ∷ fs) s l h =
    rw (run_frames, handle_frame-counted f s l h.0)
      (run_frames-counted fs (counted (has_data (decode_header f.1)) s) (omega arith) h.1
        ∙ ap (λ n. some (record s { data_before_hello = n }))
            (sum_wrapped s.data_before_hello (has_data (decode_header f.1)) (data_frames fs)))
