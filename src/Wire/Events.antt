-- ===== src/Wire/Events.antt =====
-- md_wire/wire_codec.cpp: encoders and decoders of the frames of fixed size, quotes and verdicts.
use aggregated_order_book.Base.{ℕ, Option, none, some, List, ◌++◌, ◌==◌, if◌then◌else◌}
use aggregated_order_book.Base.Int.{to_uint64}
use aggregated_order_book.Types.{
  unnamed_stream, unnamed_health, VenueId, BboQuote, VenueHealth, StreamKind, VenueHealthEvent,
  no_data, live, disconnected, resyncing, stale, depth, bbo,
}
use aggregated_order_book.Wire.{
  Fields, write_fields, bbo_widths, health_widths, bbo_type, health_type,
}
use aggregated_order_book.Wire.Codec.{write_header, read_body, of_uint64}

-- `EncodeBboQuote` and `DecodeBboQuote`
unfoldable pub encode_bbo_quote : BboQuote → List ℕ
encode_bbo_quote q =
    write_header bbo_type
    ++ write_fields bbo_widths (
      q.instrument.packed,
      (
        0,
        (
          q.seq,
          (
            to_uint64 q.recv_ts_ns,
            (
              to_uint64 q.exch_ts_ns,
              (
                to_uint64 q.recv_mono_ns,
                (q.bid_price, (q.bid_qty, (q.ask_price, (q.ask_qty, tt)))),
              ),
            ),
          ),
        ),
      ),
    )

unfoldable pub quote_of : VenueId → Fields bbo_widths → BboQuote
quote_of v
      (
        packed,
        (pad, (seq, (recv, (exch, (mono, (bid_price, (bid_qty, (ask_price, (ask_qty, e))))))))),
      ) =
    record {
      venue = v;
      instrument = record { packed = packed };
      seq = seq;
      recv_ts_ns = of_uint64 recv;
      exch_ts_ns = of_uint64 exch;
      recv_mono_ns = of_uint64 mono;
      bid_price = bid_price;
      bid_qty = bid_qty;
      ask_price = ask_price;
      ask_qty = ask_qty;
    }

unfoldable pub decode_bbo_quote : VenueId → List ℕ → Option BboQuote
decode_bbo_quote v bytes = elim (read_body bbo_type bbo_widths bytes) [
  | none ↦ none
  | some (vs, rest) ↦ some (quote_of v vs)
]

-- The enumerators' numbers and the unchecked casts to them.
abbrev pub stream_value : StreamKind → ℕ
stream_value depth = 0
stream_value bbo = 1
stream_value (unnamed_stream n) = n

abbrev pub stream_of : ℕ → StreamKind
stream_of n = if n == 0 then depth else if n == 1 then bbo else unnamed_stream n

abbrev pub health_byte : VenueHealth → ℕ
health_byte no_data = 0
health_byte live = 1
health_byte disconnected = 2
health_byte resyncing = 3
health_byte stale = 4
health_byte (unnamed_health n) = n

abbrev pub health_of : ℕ → VenueHealth
health_of n =
    if n == 0
    then no_data
    else if n == 1
    then live
    else if n == 2
    then disconnected
    else if n == 3
    then resyncing
    else if n == 4
    then stale
    else unnamed_health n

-- `EncodeHealth` and `DecodeHealth`
unfoldable pub encode_health : VenueHealthEvent → List ℕ
encode_health e =
    write_header health_type
    ++ write_fields health_widths
        (stream_value e.stream, (health_byte e.health, (0, (to_uint64 e.decided_mono_ns, tt))))

unfoldable pub event_of : VenueId → Fields health_widths → VenueHealthEvent
event_of v (stream, (health, (reserved, (decided, e)))) = record {
  venue = v;
  stream = stream_of stream;
  health = health_of health;
  decided_mono_ns = of_uint64 decided;
}

unfoldable pub decode_health : VenueId → List ℕ → Option VenueHealthEvent
decode_health v bytes = elim (read_body health_type health_widths bytes) [
  | none ↦ none
  | some (vs, rest) ↦ some (event_of v vs)
]
