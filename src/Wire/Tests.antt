-- ===== src/Wire/Tests.antt =====
-- A depth update, a quote, a verdict and a greeting through the codec.
use aggregated_order_book.Base.{
  ◌+◌, ◌*◌, ◌≤◌, ◌≡◌, refl, true, some, [], ◌∷◌, ◌++◌, arith, length, take, replicate,
}
use aggregated_order_book.Base.Int.{pos, negsuc}
use aggregated_order_book.Base.Text.{Text}
use aggregated_order_book.Types.{BookUpdate, BboQuote, binance, bybit, okx}
use aggregated_order_book.Wire.{
  le_bytes, read_le, write_fields, read_fields, hello_widths, hello_type,
}
use aggregated_order_book.Wire.Codec.{
  write_header, read_body, c_string, read_name, encode_hello, hello_of, decode_hello,
  encode_book_update, decode_book_update, beyond, hello,
}
use aggregated_order_book.Wire.Events.{encode_bbo_quote, decode_bbo_quote}
use aggregated_order_book.Wire.RoundTrip.{
  IsWireUpdate, decode_book_update-encode_book_update, decode_bbo_quote-encode_bbo_quote,
}
use aggregated_order_book.Wire.Hello.{decode_hello-encode_hello}
use aggregated_order_book.Wire.Extent.{decode_book_update-length}

abbrev update : BookUpdate
update = record {
  venue = okx;
  instrument = record { packed = 513 };
  seq = 70000;
  prev_seq = negsuc 0;
  recv_ts_ns = pos 1700000000000000000;
  exch_ts_ns = pos 5;
  recv_mono_ns = pos 9;
  is_snapshot = true;
  bids =
      record { price = 6500000000000; qty = 12 } ∷ record { price = 6400000000000; qty = 1 } ∷ [];
  asks = record { price = 6600000000000; qty = 7 } ∷ [];
}

update-IsWireUpdate : IsWireUpdate update
update-IsWireUpdate = record {
  instrument = omega arith;
  seq = omega arith;
  prev_seq = omega arith;
  recv_ts_ns = omega arith;
  exch_ts_ns = omega arith;
  recv_mono_ns = omega arith;
  bid_count = omega arith;
  ask_count = omega arith;
  bids = ((omega arith, omega arith), ((omega arith, omega arith), tt));
  asks = ((omega arith, omega arith), tt);
}

decode_book_update-encode_book_update_example :
    decode_book_update binance (encode_book_update update)
    ≡ some (record update { venue = binance })
decode_book_update-encode_book_update_example =
    decode_book_update-encode_book_update binance update update-IsWireUpdate

decode_book_update-length_example :
    68 + 16 * (length update.bids + length update.asks) ≤ length (encode_book_update update)
decode_book_update-length_example =
    decode_book_update-length binance (encode_book_update update)
      (record update { venue = binance }) decode_book_update-encode_book_update_example

abbrev quote : BboQuote
quote = record {
  venue = bybit;
  instrument = record { packed = 256 };
  seq = 3;
  recv_ts_ns = pos 1;
  exch_ts_ns = pos 0;
  recv_mono_ns = pos 2;
  bid_price = 100;
  bid_qty = 5;
  ask_price = 101;
  ask_qty = 6;
}

quote_run :
    decode_bbo_quote binance (encode_bbo_quote quote) ≡ some (record quote { venue = binance })
quote_run = decode_bbo_quote-encode_bbo_quote binance quote (record {
  instrument = omega arith;
  seq = omega arith;
  recv_ts_ns = omega arith;
  exch_ts_ns = omega arith;
  recv_mono_ns = omega arith;
  bid_price = omega arith;
  bid_qty = omega arith;
  ask_price = omega arith;
  ask_qty = omega arith;
})

-- A name of seventeen characters arrives with fifteen.
abbrev long_name : Text
long_name = replicate 17 65

decode_hello-encode_hello_example :
    decode_hello (encode_hello (record { packed = 256 }) long_name)
    ≡ hello (record { packed = 256 }) (take 15 long_name)
decode_hello-encode_hello_example =
    decode_hello-encode_hello (record { packed = 256 }) long_name (omega arith)
      (
        refl,
        (
          refl,
          (
            refl,
            (
              refl,
              (
                refl,
                (
                  refl,
                  (
                    refl,
                    (
                      refl,
                      (refl, (refl, (refl, (refl, (refl, (refl, (refl, (refl, (refl, tt))))))))),
                    ),
                  ),
                ),
              ),
            ),
          ),
        ),
      )

-- A field without a terminator is read beyond its end.
no_terminator_run :
    decode_hello
      (write_header hello_type ++ (write_fields hello_widths (256, tt) ++ replicate 16 65))
    ≡ beyond
unfolding decode_hello read_body read_fields write_fields read_le le_bytes hello_of c_string
    read_name
no_terminator_run = refl
