-- ===== src/Wire.antt =====
-- md_wire/wire_format.h and wire_codec.cpp: the frames between provider and core. A frame is the list
-- of its bytes. A struct of the format is the list of the widths of its fields, padding included, and
-- is copied in and out little end first, as on the machines that the program is built for.
pub mod Codec
pub mod Events
pub mod Bytes
pub mod RoundTrip
pub mod Hello
pub mod Extent
mod Tests
use aggregated_order_book.Base.{
  ℕ, zero, suc, ◌+◌, ◌*◌, ◌/◌, ◌%◌, Option, none, some, List, [], ◌∷◌, ◌++◌,
}

-- The bytes of a value in a field of `width` bytes, and the value of a field's bytes with what follows.
unfoldable pub le_bytes : ℕ → ℕ → List ℕ
le_bytes zero value = []
le_bytes (suc width) value = value % 256 ∷ le_bytes width (value / 256)

unfoldable pub read_le : ℕ → List ℕ → Option (ℕ × List ℕ)
read_le zero bytes = some (0, bytes)
read_le (suc width) [] = none
read_le (suc width) (b ∷ bytes) = elim (read_le width bytes) [
  | none ↦ none
  | some (value, rest) ↦ some (b + 256 * value, rest)
]

-- The values of a struct's fields.
abbrev pub Fields : List ℕ → Type 0
Fields [] = Unit
Fields (w ∷ ws) = ℕ × Fields ws

-- `AppendPod` and `ReadPod`: fields are read one by one, which fails exactly when the whole is short.
unfoldable pub write_fields : (ws : List ℕ) → Fields ws → List ℕ
write_fields [] vs = []
write_fields (w ∷ ws) vs = le_bytes w vs.0 ++ write_fields ws vs.1

unfoldable pub read_fields : (ws : List ℕ) → List ℕ → Option (Fields ws × List ℕ)
read_fields [] bytes = some (tt, bytes)
read_fields (w ∷ ws) bytes = elim (read_le w bytes) [
  | none ↦ none
  | some (v, rest) ↦ elim (read_fields ws rest) [
    | none ↦ none
    | some (vs, rest') ↦ some ((v, vs), rest')
  ]
]

-- `WireHeader`: msg_type, wire_version.
abbrev pub header_widths : List ℕ
header_widths = 2 ∷ 2 ∷ []

-- `WireHelloPayload` before the name, and the capacity of the name.
abbrev pub hello_widths : List ℕ
hello_widths = 4 ∷ []

abbrev pub venue_name_capacity : ℕ
venue_name_capacity = 16

-- `WireGoodbyePayload`
abbrev pub goodbye_widths : List ℕ
goodbye_widths = 4 ∷ []

-- `WireBookUpdateHeader`: instrument_packed and 4 bytes of padding, seq, prev_seq, recv_ts_ns,
-- exch_ts_ns, provider_mono_ns, bid_count, ask_count, is_snapshot, reserved.
abbrev pub book_widths : List ℕ
book_widths = 4 ∷ 4 ∷ 8 ∷ 8 ∷ 8 ∷ 8 ∷ 8 ∷ 4 ∷ 4 ∷ 1 ∷ 7 ∷ []

-- `PriceLevel`
abbrev pub level_widths : List ℕ
level_widths = 8 ∷ 8 ∷ []

-- `WireBboQuotePayload`: instrument_packed and 4 bytes of padding, seq, three times, four prices and
-- quantities.
abbrev pub bbo_widths : List ℕ
bbo_widths = 4 ∷ 4 ∷ 8 ∷ 8 ∷ 8 ∷ 8 ∷ 8 ∷ 8 ∷ 8 ∷ 8 ∷ []

-- `WireHealthPayload`: stream, health, reserved, decided_mono_ns.
abbrev pub health_widths : List ℕ
health_widths = 1 ∷ 1 ∷ 6 ∷ 8 ∷ []

-- `WireMsgType` and `kWireVersion`
abbrev pub hello_type : ℕ
hello_type = 1

abbrev pub book_type : ℕ
book_type = 2

abbrev pub bbo_type : ℕ
bbo_type = 3

abbrev pub health_type : ℕ
health_type = 4

abbrev pub goodbye_type : ℕ
goodbye_type = 5

abbrev pub wire_version : ℕ
wire_version = 1
