-- ===== src/Wire/Extent.antt =====
-- How far the decoder of a depth update reads.
use aggregated_order_book.Base.{
  ℕ, zero, suc, ◌+◌, ◌*◌, ◌≤◌, ◌≡◌, refl, sym, ap, ◌∙◌, inl, inr, not, none, some, List, [], ◌∷◌,
  arith, ◌==◌, Bool-cases, Option-cases, length,
}
use aggregated_order_book.Types.{PriceLevel, BookUpdate, VenueId}
use aggregated_order_book.Wire.{
  Fields, read_fields, header_widths, book_widths, level_widths, book_type,
}
use aggregated_order_book.Wire.Bytes.{total_width, read_fields-length}
use aggregated_order_book.Wire.Codec.{
  read_body, of_uint64, read_levels, asks_of, sides_of, decode_book_update,
}

some_eq : {A : Type 0} → (p q : A) → some p ≡ some q → p ≡ q
some_eq p q h = cc

read_levels-length :
    (n : ℕ) (bytes : List ℕ) (ls : List PriceLevel) (rest : List ℕ)
    → read_levels n bytes ≡ some (ls, rest)
    → (length ls ≡ n) × (length bytes ≡ 16 * n + length rest)
unfolding read_levels
read_levels-length zero bytes ls rest h =
    let e = some_eq ([], bytes) (ls, rest) h in
    (
      omega (arith, ap (λ (p : List PriceLevel × List ℕ). length p.0) e),
      omega (arith, ap (λ (p : List PriceLevel × List ℕ). length p.1) e),
    )
read_levels-length (suc n) bytes ls rest h = elim (Option-cases (read_fields level_widths bytes)) [
  | inl a ↦
      let nothing : read_levels (suc n) bytes ≡ none = rw (read_levels, a) refl in
      absurd (cc (sym nothing ∙ h))
  | inr ((vs, r), a) ↦ elim (Option-cases (read_levels n r)) [
    | inl b ↦
        let nothing : read_levels (suc n) bytes ≡ none = rw (read_levels, a, read_levels, b) refl in
        absurd (cc (sym nothing ∙ h))
    | inr ((ms, r'), b) ↦
        let l : PriceLevel = record { price = vs.0; qty = vs.1.0 } in
        let whole : read_levels (suc n) bytes ≡ some (l ∷ ms, r') =
          rw (read_levels, a, read_levels, b) refl in
        let e = some_eq (l ∷ ms, r') (ls, rest) (sym whole ∙ h) in
        let (k, m) = read_levels-length n r ms r' b in
        let fixed = read_fields-length level_widths bytes vs r a in
        (
          omega (arith, k, ap (λ (p : List PriceLevel × List ℕ). length p.0) e),
          omega (
            arith,
            m,
            level_width (length bytes) (length r) fixed,
            ap (λ (p : List PriceLevel × List ℕ). length p.1) e,
          ),
        )
  ]
]
  where
    level_width : (x y : ℕ) → x ≡ total_width level_widths + y → x ≡ 16 + y
    level_width x y e = omega (arith, e)

read_body-length :
    (type : ℕ) (ws : List ℕ) (bytes : List ℕ) (vs : Fields ws) (rest : List ℕ)
    → read_body type ws bytes ≡ some (vs, rest)
    → length bytes ≡ total_width header_widths + (total_width ws + length rest)
unfolding read_body
read_body-length type ws bytes vs rest h = elim (Option-cases (read_fields header_widths bytes)) [
  | inl a ↦
      let nothing : read_body type ws bytes ≡ none = rw (read_body, a) refl in
      absurd (cc (sym nothing ∙ h))
  | inr ((hs, r), a) ↦ elim (Bool-cases (hs.0 == type)) [
    | inr b ↦
        let nothing : read_body type ws bytes ≡ none = rw (read_body, a, b) refl in
        absurd (cc (sym nothing ∙ h))
    | inl b ↦
        let body : read_body type ws bytes ≡ read_fields ws r = rw (read_body, a, b) refl in
        read_fields-length header_widths bytes hs r a
        ∙ ap (λ n. total_width header_widths + n) (read_fields-length ws r vs rest (sym body ∙ h))
  ]
]

-- The update that the decoder has read.
abbrev update_of : VenueId → Fields book_widths → List PriceLevel → List PriceLevel → BookUpdate
update_of v vs bids asks = record {
  venue = v;
  instrument = record { packed = vs.0 };
  seq = vs.1.1.0;
  prev_seq = of_uint64 vs.1.1.1.0;
  recv_ts_ns = of_uint64 vs.1.1.1.1.0;
  exch_ts_ns = of_uint64 vs.1.1.1.1.1.0;
  recv_mono_ns = of_uint64 vs.1.1.1.1.1.1.0;
  is_snapshot = not (vs.1.1.1.1.1.1.1.1.1.0 == 0);
  bids = bids;
  asks = asks;
}

-- A frame that decodes to a depth update is long enough to hold it: header, fixed part and 16 bytes
-- for each level of the update. No level is made of bytes behind the frame.
pub decode_book_update-length :
    (v : VenueId) (bytes : List ℕ) (u : BookUpdate)
    → decode_book_update v bytes ≡ some u
    → 68 + 16 * (length u.bids + length u.asks) ≤ length bytes
unfolding decode_book_update sides_of asks_of
decode_book_update-length v bytes u h =
    elim (Option-cases (read_body book_type book_widths bytes)) [
      | inl a ↦
          let nothing : decode_book_update v bytes ≡ none = rw (decode_book_update, a) refl in
          absurd (cc (sym nothing ∙ h))
      | inr ((vs, r), a) ↦ elim (Option-cases (read_levels vs.1.1.1.1.1.1.1.0 r)) [
        | inl b ↦
            let nothing : decode_book_update v bytes ≡ none =
              rw (decode_book_update, a, sides_of, b) refl in
            absurd (cc (sym nothing ∙ h))
        | inr ((bids, r'), b) ↦ elim (Option-cases (read_levels vs.1.1.1.1.1.1.1.1.0 r')) [
          | inl c ↦
              let nothing : decode_book_update v bytes ≡ none =
                rw (decode_book_update, a, sides_of, b, asks_of, c) refl in
              absurd (cc (sym nothing ∙ h))
          | inr ((asks, r''), c) ↦
              let w : BookUpdate = update_of v vs bids asks in
              let whole : decode_book_update v bytes ≡ some w =
                rw (decode_book_update, a, sides_of, b, asks_of, c) refl in
              let e = some_eq w u (sym whole ∙ h) in
              let (bl, bn) = read_levels-length _ r bids r' b in
              let (al, an) = read_levels-length _ r' asks r'' c in
              omega (
                arith,
                bl,
                bn,
                al,
                an,
                read_body-length book_type book_widths bytes vs r a,
                ap (λ (x : BookUpdate). length x.bids) e,
                ap (λ (x : BookUpdate). length x.asks) e,
              )
        ]
      ]
    ]
