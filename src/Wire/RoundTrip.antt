-- ===== src/Wire/RoundTrip.antt =====
-- What one side encodes the other decodes.
use aggregated_order_book.Base.{
  ℕ, suc, ◌-◌, ◌%◌, ◌^◌, ◌<◌, ◌≡◌, refl, sym, ap, ◌∙◌, Bool, true, false, not, some, List, [], ◌∷◌,
  ◌++◌, append-nil, append_assoc, arith, ltb, ◌==◌, length, All,
}
use aggregated_order_book.Base.Int.{ℤ, to_uint64, pos, negsuc}
use aggregated_order_book.Types.{VenueId, PriceLevel, BookUpdate, BboQuote, VenueHealthEvent}
use aggregated_order_book.Wire.{
  Fields, write_fields, header_widths, book_widths, level_widths, bbo_widths, health_widths,
  book_type, bbo_type, health_type, wire_version,
}
use aggregated_order_book.Wire.Bytes.{FitFields, read_fields-write_fields}
use aggregated_order_book.Wire.Codec.{
  flag, write_header, read_body, of_uint64, write_levels, read_levels, book_fields,
  encode_book_update, asks_of, sides_of, decode_book_update,
}
use aggregated_order_book.Wire.Events.{
  encode_bbo_quote, quote_of, decode_bbo_quote, stream_value, stream_of, health_byte, health_of,
  encode_health, event_of, decode_health,
}

pub read_body-written :
    (type : ℕ) (ws : List ℕ) (vs : Fields ws) (rest : List ℕ)
    → type < 2 ^ 16
    → FitFields ws vs
    → read_body type ws (write_header type ++ (write_fields ws vs ++ rest)) ≡ some (vs, rest)
unfolding read_body
read_body-written type ws vs rest h f =
    let same_type : (type == type) ≡ true = ground arith in
    rw
      (
        read_body,
        read_fields-write_fields header_widths (type, (wire_version, tt))
            (write_fields ws vs ++ rest) (omega (arith, h), (omega arith, tt)),
        same_type,
        read_fields-write_fields ws vs rest f,
      )
      refl

-- int64_t
abbrev pub IsInt64 : ℤ → Type 0
IsInt64 (pos n) = n < 2 ^ 63
IsInt64 (negsuc n) = n < 2 ^ 63

of_uint64-to_uint64 : (z : ℤ) → IsInt64 z → of_uint64 (to_uint64 z) ≡ z
of_uint64-to_uint64 (pos n) h =
    let small : ltb (n % 2 ^ 64) (2 ^ 63) ≡ true = ground (arith, h) in
    let same : n % 2 ^ 64 ≡ n = omega (arith, h) in rw small (ap pos same)
of_uint64-to_uint64 (negsuc n) h =
    let large : ltb ((2 ^ 64 - suc n % 2 ^ 64) % 2 ^ 64) (2 ^ 63) ≡ false = ground (arith, h) in
    let same : 2 ^ 64 - 1 - (2 ^ 64 - suc n % 2 ^ 64) % 2 ^ 64 ≡ n = omega (arith, h) in
    rw large (ap negsuc same)

to_uint64-fits : (z : ℤ) → to_uint64 z < 2 ^ 64
to_uint64-fits (pos n) = omega arith
to_uint64-fits (negsuc n) = omega arith

abbrev pub IsLevel64 : PriceLevel → Type 0
IsLevel64 l = (l.price < 2 ^ 64) × (l.qty < 2 ^ 64)

read_levels-write_levels :
    (ls : List PriceLevel) (rest : List ℕ)
    → All IsLevel64 ls
    → read_levels (length ls) (write_levels ls ++ rest) ≡ some (ls, rest)
unfolding read_levels write_levels
read_levels-write_levels [] rest h = refl
read_levels-write_levels (l ∷ ls) rest h =
    rw
      (
        append_assoc (write_fields level_widths (l.price, (l.qty, tt))) (write_levels ls) rest,
        read_levels,
        read_fields-write_fields level_widths (l.price, (l.qty, tt)) (write_levels ls ++ rest)
            (h.0.0, (h.0.1, tt)),
        read_levels-write_levels ls rest h.1,
      )
      refl

-- A message whose members are in the range of their types.
pub record IsWireUpdate (u : BookUpdate) : Type 0 where
  pub instrument : u.instrument.packed < 2 ^ 32
  pub seq : u.seq < 2 ^ 64
  pub prev_seq : IsInt64 u.prev_seq
  pub recv_ts_ns : IsInt64 u.recv_ts_ns
  pub exch_ts_ns : IsInt64 u.exch_ts_ns
  pub recv_mono_ns : IsInt64 u.recv_mono_ns
  pub bid_count : length u.bids < 2 ^ 32
  pub ask_count : length u.asks < 2 ^ 32
  pub bids : All IsLevel64 u.bids
  pub asks : All IsLevel64 u.asks

fits_flag : (b : Bool) → flag b < 256
fits_flag true = omega arith
fits_flag false = omega arith

flag_read : (b : Bool) → not (flag b == 0) ≡ b
flag_read true = refl
flag_read false = refl

book_fields-FitFields : (u : BookUpdate) → IsWireUpdate u → FitFields book_widths (book_fields u)
unfolding book_fields
book_fields-FitFields u h = (
  omega (arith, h.instrument),
  (
    omega arith,
    (
      omega (arith, h.seq),
      (
        to_uint64-fits u.prev_seq,
        (
          to_uint64-fits u.recv_ts_ns,
          (
            to_uint64-fits u.exch_ts_ns,
            (
              to_uint64-fits u.recv_mono_ns,
              (omega arith, (omega arith, (fits_flag u.is_snapshot, (omega arith, tt)))),
            ),
          ),
        ),
      ),
    ),
  ),
)

-- A frame of a message whose members are in the range of their types decodes to the message, with the
-- venue that the decoder was given.
pub decode_book_update-encode_book_update :
    (v : VenueId) (u : BookUpdate)
    → IsWireUpdate u
    → decode_book_update v (encode_book_update u) ≡ some (record u { venue = v })
unfolding decode_book_update encode_book_update sides_of asks_of book_fields
decode_book_update-encode_book_update v u h =
    let bids : length u.bids % 2 ^ 32 ≡ length u.bids = omega (arith, h.bid_count) in
    let asks : length u.asks % 2 ^ 32 ≡ length u.asks = omega (arith, h.ask_count) in
    let whole : read_levels (length u.asks) (write_levels u.asks) ≡ some (u.asks, []) =
      ap (read_levels (length u.asks)) (sym (append-nil (write_levels u.asks)))
      ∙ read_levels-write_levels u.asks [] h.asks in
    rw
      (
        decode_book_update,
        read_body-written book_type book_widths (book_fields u)
            (write_levels u.bids ++ write_levels u.asks) (omega arith) (book_fields-FitFields u h),
        sides_of,
        bids,
        read_levels-write_levels u.bids (write_levels u.asks) h.bids,
        asks_of,
        asks,
        whole,
        of_uint64-to_uint64 u.prev_seq h.prev_seq,
        of_uint64-to_uint64 u.recv_ts_ns h.recv_ts_ns,
        of_uint64-to_uint64 u.exch_ts_ns h.exch_ts_ns,
        of_uint64-to_uint64 u.recv_mono_ns h.recv_mono_ns,
        flag_read u.is_snapshot,
      )
      refl

pub record IsWireQuote (q : BboQuote) : Type 0 where
  pub instrument : q.instrument.packed < 2 ^ 32
  pub seq : q.seq < 2 ^ 64
  pub recv_ts_ns : IsInt64 q.recv_ts_ns
  pub exch_ts_ns : IsInt64 q.exch_ts_ns
  pub recv_mono_ns : IsInt64 q.recv_mono_ns
  pub bid_price : q.bid_price < 2 ^ 64
  pub bid_qty : q.bid_qty < 2 ^ 64
  pub ask_price : q.ask_price < 2 ^ 64
  pub ask_qty : q.ask_qty < 2 ^ 64

-- A quote whose members are in the range of their types decodes to itself, with the venue that the
-- decoder was given.
pub decode_bbo_quote-encode_bbo_quote :
    (v : VenueId) (q : BboQuote)
    → IsWireQuote q
    → decode_bbo_quote v (encode_bbo_quote q) ≡ some (record q { venue = v })
unfolding decode_bbo_quote encode_bbo_quote quote_of
decode_bbo_quote-encode_bbo_quote v q h =
    let vs : Fields bbo_widths = (
      q.instrument.packed,
      (
        0,
        (
          q.seq,
          (
            to_uint64 q.recv_ts_ns,
            (
              to_uint64 q.exch_ts_ns,
              (
                to_uint64 q.recv_mono_ns,
                (q.bid_price, (q.bid_qty, (q.ask_price, (q.ask_qty, tt)))),
              ),
            ),
          ),
        ),
      ),
    ) in
    rw
      (
        decode_bbo_quote,
        sym (append-nil (write_fields bbo_widths vs)),
        read_body-written bbo_type bbo_widths vs [] (omega arith) (
          omega (arith, h.instrument),
          (
            omega arith,
            (
              omega (arith, h.seq),
              (
                to_uint64-fits q.recv_ts_ns,
                (
                  to_uint64-fits q.exch_ts_ns,
                  (
                    to_uint64-fits q.recv_mono_ns,
                    (
                      omega (arith, h.bid_price),
                      (
                        omega (arith, h.bid_qty),
                        (omega (arith, h.ask_price), (omega (arith, h.ask_qty), tt)),
                      ),
                    ),
                  ),
                ),
              ),
            ),
          ),
        ),
        quote_of,
        of_uint64-to_uint64 q.recv_ts_ns h.recv_ts_ns,
        of_uint64-to_uint64 q.exch_ts_ns h.exch_ts_ns,
        of_uint64-to_uint64 q.recv_mono_ns h.recv_mono_ns,
      )
      refl

-- A verdict whose stream and verdict have names.
pub record IsWireEvent (e : VenueHealthEvent) : Type 0 where
  pub stream : stream_of (stream_value e.stream) ≡ e.stream
  pub health : health_of (health_byte e.health) ≡ e.health
  pub stream_byte : stream_value e.stream < 256
  pub health_byte_fits : health_byte e.health < 256
  pub decided_mono_ns : IsInt64 e.decided_mono_ns

-- A verdict whose members are in range decodes to itself, with the venue that the decoder was given.
pub decode_health-encode_health :
    (v : VenueId) (e : VenueHealthEvent)
    → IsWireEvent e
    → decode_health v (encode_health e) ≡ some (record e { venue = v })
unfolding decode_health encode_health event_of
decode_health-encode_health v e h =
    let vs : Fields health_widths =
      (stream_value e.stream, (health_byte e.health, (0, (to_uint64 e.decided_mono_ns, tt)))) in
    rw
      (
        decode_health,
        sym (append-nil (write_fields health_widths vs)),
        read_body-written health_type health_widths vs [] (omega arith) (
          h.stream_byte,
          (h.health_byte_fits, (omega arith, (to_uint64-fits e.decided_mono_ns, tt))),
        ),
        event_of,
        h.stream,
        h.health,
        of_uint64-to_uint64 e.decided_mono_ns h.decided_mono_ns,
      )
      refl
