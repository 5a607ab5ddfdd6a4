-- ===== src/Wire/Codec.antt =====
-- md_wire/wire_codec.cpp: encoders and decoders. A decoder that returns false is `none`: what it has
-- written into its out parameter by then is not read. The out parameter's venue, which no frame holds,
-- is an argument.
use aggregated_order_book.Base.{
  ℕ, zero, suc, ◌-◌, ◌%◌, ◌^◌, Bool, not, Option, none, some, List, [], ◌∷◌, ◌++◌, ltb, ◌==◌,
  if◌then◌else◌, length, take, replicate,
}
use aggregated_order_book.Base.Int.{ℤ, to_uint64, pos, negsuc}
use aggregated_order_book.Base.Text.{Text}
use aggregated_order_book.Types.{VenueId, InstrumentKey, PriceLevel, BookUpdate}
use aggregated_order_book.Wire.{
  Fields, write_fields, read_fields, header_widths, hello_widths, venue_name_capacity,
  goodbye_widths, book_widths, level_widths, hello_type, book_type, goodbye_type, wire_version,
}

-- `WriteHeader`
abbrev pub write_header : ℕ → List ℕ
write_header type = write_fields header_widths (type, (wire_version, tt))

-- `DecodeHeader`: the message type.
unfoldable pub decode_header : List ℕ → Option ℕ
decode_header bytes = elim (read_fields header_widths bytes) [
  | none ↦ none
  | some (vs, rest) ↦ some vs.0
]

-- How every decoder starts: the header, its type, the fixed part of the payload.
unfoldable pub read_body : ℕ → (ws : List ℕ) → List ℕ → Option (Fields ws × List ℕ)
read_body type ws bytes = elim (read_fields header_widths bytes) [
  | none ↦ none
  | some (vs, rest) ↦ if vs.0 == type then read_fields ws rest else none
]

-- A signed field as the unsigned one of the same bits, and back.
abbrev pub of_uint64 : ℕ → ℤ
of_uint64 v = if ltb v (2 ^ 63) then pos v else negsuc (2 ^ 64 - 1 - v)

-- The characters before the terminator; none if there is no terminator, which `assign` then looks for
-- behind the payload.
unfoldable pub c_string : List ℕ → Option Text
c_string [] = none
c_string (c ∷ cs) =
    let rest = c_string cs in
    if c == 0 then some [] else elim rest [ none ↦ none | some name ↦ some (c ∷ name) ]

-- `ReadBytes` on a name's field.
unfoldable pub read_name : ℕ → List ℕ → Option (List ℕ)
read_name zero bytes = some []
read_name (suc n) [] = none
read_name (suc n) (b ∷ bytes) = elim (read_name n bytes) [ none ↦ none | some bs ↦ some (b ∷ bs) ]

-- The field of a name: at most capacity - 1 characters, the terminator, zeros.
unfoldable pub write_name : Text → List ℕ
write_name name =
    let kept = take (venue_name_capacity - 1) name in
    kept ++ replicate (venue_name_capacity - length kept) 0

-- `EncodeHello`
unfoldable pub encode_hello : InstrumentKey → Text → List ℕ
encode_hello instrument venue_name =
    write_header hello_type
    ++ (write_fields hello_widths (instrument.packed, tt) ++ write_name venue_name)

-- What `DecodeHello` does: false, a read beyond the payload, or the two values.
pub data Hello : Type 0 where
  refused beyond : Hello
  hello : InstrumentKey → Text → Hello

unfoldable pub hello_of : ℕ → Option (List ℕ) → Hello
hello_of packed none = refused
hello_of packed (some field) = elim (c_string field) [
  | none ↦ beyond
  | some name ↦ hello (record { packed = packed }) name
]

unfoldable pub decode_hello : List ℕ → Hello
decode_hello bytes = elim (read_body hello_type hello_widths bytes) [
  | none ↦ refused
  | some (vs, rest) ↦ hello_of vs.0 (read_name venue_name_capacity rest)
]

-- `EncodeGoodbye` and `DecodeGoodbye`, with the reason as its number.
unfoldable pub encode_goodbye : ℕ → List ℕ
encode_goodbye reason = write_header goodbye_type ++ write_fields goodbye_widths (reason, tt)

unfoldable pub decode_goodbye : List ℕ → Option ℕ
decode_goodbye bytes = elim (read_body goodbye_type goodbye_widths bytes) [
  | none ↦ none
  | some (vs, rest) ↦ some vs.0
]

-- `AppendBytes` and `ReadBytes` on the levels of a side.
unfoldable pub write_levels : List PriceLevel → List ℕ
write_levels [] = []
write_levels (l ∷ ls) = write_fields level_widths (l.price, (l.qty, tt)) ++ write_levels ls

unfoldable pub read_levels : ℕ → List ℕ → Option (List PriceLevel × List ℕ)
read_levels zero bytes = some ([], bytes)
read_levels (suc n) bytes = elim (read_fields level_widths bytes) [
  | none ↦ none
  | some (vs, rest) ↦ elim (read_levels n rest) [
    | none ↦ none
    | some (ls, rest') ↦ some (record { price = vs.0; qty = vs.1.0 } ∷ ls, rest')
  ]
]

abbrev pub flag : Bool → ℕ
flag b = if b then 1 else 0

-- `EncodeBookUpdate`: the header's fields, then the sides.
unfoldable pub book_fields : BookUpdate → Fields book_widths
book_fields u = (
  u.instrument.packed,
  (
    0,
    (
      u.seq,
      (
        to_uint64 u.prev_seq,
        (
          to_uint64 u.recv_ts_ns,
          (
            to_uint64 u.exch_ts_ns,
            (
              to_uint64 u.recv_mono_ns,
              (length u.bids % 2 ^ 32, (length u.asks % 2 ^ 32, (flag u.is_snapshot, (0, tt)))),
            ),
          ),
        ),
      ),
    ),
  ),
)

unfoldable pub encode_book_update : BookUpdate → List ℕ
encode_book_update u =
    write_header book_type
    ++ (write_fields book_widths (book_fields u) ++ (write_levels u.bids ++ write_levels u.asks))

-- `DecodeBookUpdate` after the bids.
unfoldable pub asks_of : VenueId → Fields book_widths → List PriceLevel → List ℕ → Option BookUpdate
asks_of v
      (packed, (pad, (seq, (prev, (recv, (exch, (mono, (nb, (na, (snapshot, (reserved, e)))))))))))
      bids rest =
    elim (read_levels na rest) [
      | none ↦ none
      | some (asks, rest') ↦ some (record {
        venue = v;
        instrument = record { packed = packed };
        seq = seq;
        prev_seq = of_uint64 prev;
        recv_ts_ns = of_uint64 recv;
        exch_ts_ns = of_uint64 exch;
        recv_mono_ns = of_uint64 mono;
        is_snapshot = not (snapshot == 0);
        bids = bids;
        asks = asks;
      })
    ]

unfoldable pub sides_of : VenueId → Fields book_widths → List ℕ → Option BookUpdate
sides_of v vs rest = elim (read_levels vs.1.1.1.1.1.1.1.0 rest) [
  | none ↦ none
  | some (bids, rest') ↦ asks_of v vs bids rest'
]

-- `DecodeBookUpdate`
unfoldable pub decode_book_update : VenueId → List ℕ → Option BookUpdate
decode_book_update v bytes = elim (read_body book_type book_widths bytes) [
  | none ↦ none
  | some (vs, rest) ↦ sides_of v vs rest
]
