-- ===== src/Wire/Bytes.antt =====
-- Fields that fit are read back as they were written, whatever follows them.
use aggregated_order_book.Base.{
  ℕ, zero, suc, ◌+◌, ◌*◌, ◌/◌, ◌%◌, ◌<◌, ◌≡◌, refl, sym, ap, ◌∙◌, inl, inr, Option, none, some,
  List, [], ◌∷◌, ◌++◌, append_assoc, arith, Option-cases, length,
}
use aggregated_order_book.Wire.{le_bytes, read_le, Fields, write_fields, read_fields}

-- 256 ^ width
abbrev pub bound : ℕ → ℕ
bound zero = 1
bound (suc width) = 256 * bound width

pub read_le-le_bytes :
    (width value : ℕ) (rest : List ℕ)
    → value < bound width
    → read_le width (le_bytes width value ++ rest) ≡ some (value, rest)
unfolding read_le le_bytes
read_le-le_bytes zero value rest h =
    let none_left : 0 ≡ value = omega (arith, h) in ap (λ v. some (v, rest)) none_left
read_le-le_bytes (suc width) value rest h =
    let below : value / 256 < bound width = omega (arith, h) in
    let whole : value % 256 + 256 * (value / 256) ≡ value = omega arith in
    rw (read_le-le_bytes width (value / 256) rest below) (ap (λ v. some (v, rest)) whole)

-- Values that fit their fields.
abbrev pub FitFields : (ws : List ℕ) → Fields ws → Type 0
FitFields [] vs = Unit
FitFields (w ∷ ws) vs = (vs.0 < bound w) × FitFields ws vs.1

pub read_fields-write_fields :
    (ws : List ℕ) (vs : Fields ws) (rest : List ℕ)
    → FitFields ws vs
    → read_fields ws (write_fields ws vs ++ rest) ≡ some (vs, rest)
unfolding read_fields write_fields
read_fields-write_fields [] vs rest h = refl
read_fields-write_fields (w ∷ ws) vs rest h =
    rw
      (
        append_assoc (le_bytes w vs.0) (write_fields ws vs.1) rest,
        read_fields,
        read_le-le_bytes w vs.0 (write_fields ws vs.1 ++ rest) h.0,
        read_fields-write_fields ws vs.1 rest h.1,
      )
      refl

-- A read succeeds exactly when the bytes are there.
abbrev pub total_width : List ℕ → ℕ
total_width [] = 0
total_width (w ∷ ws) = w + total_width ws

pub rest_eq : {A : Type 0} → (p q : A × List ℕ) → some p ≡ some q → length p.1 ≡ length q.1
rest_eq {A} p q h = ap left h
  where
    left : Option (A × List ℕ) → ℕ
    left none = 0
    left (some p) = length p.1

-- What a read takes is what is missing afterwards.
pub read_le-length :
    (width : ℕ) (bytes : List ℕ) (value : ℕ) (rest : List ℕ)
    → read_le width bytes ≡ some (value, rest)
    → length bytes ≡ width + length rest
unfolding read_le
read_le-length zero bytes value rest h = omega (arith, rest_eq _ _ h)
read_le-length (suc width) [] value rest h = absurd (cc)
read_le-length (suc width) (b ∷ bytes) value rest h = elim (Option-cases (read_le width bytes)) [
  | inl a ↦ absurd (ground (arith, h, a))
  | inr ((v, r), a) ↦
      let whole : read_le (suc width) (b ∷ bytes) ≡ some (b + 256 * v, r) = rw (read_le, a) refl in
      omega (arith, read_le-length width bytes v r a, rest_eq _ _ (sym whole ∙ h))
]

pub read_fields-length :
    (ws : List ℕ) (bytes : List ℕ) (vs : Fields ws) (rest : List ℕ)
    → read_fields ws bytes ≡ some (vs, rest)
    → length bytes ≡ total_width ws + length rest
unfolding read_fields
read_fields-length [] bytes vs rest h = omega (arith, rest_eq _ _ h)
read_fields-length (w ∷ ws) bytes vs rest h = elim (Option-cases (read_le w bytes)) [
  | inl a ↦
      let nothing : read_fields (w ∷ ws) bytes ≡ none = rw (read_fields, a) refl in
      absurd (cc (sym nothing ∙ h))
  | inr ((v, r), a) ↦ elim (Option-cases (read_fields ws r)) [
    | inl b ↦
        let nothing : read_fields (w ∷ ws) bytes ≡ none =
          rw (read_fields, a, read_fields, b) refl in
        absurd (cc (sym nothing ∙ h))
    | inr ((us, r'), b) ↦
        let whole : read_fields (w ∷ ws) bytes ≡ some ((v, us), r') =
          rw (read_fields, a, read_fields, b) refl in
        omega (
          arith,
          read_le-length w bytes v r a,
          read_fields-length ws r us r' b,
          rest_eq _ _ (sym whole ∙ h),
        )
  ]
]
