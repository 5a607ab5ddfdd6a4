-- ===== src/Sink.antt =====
-- md_wire/zmq_provider_sink.h and .cpp: a provider's end of the connection to Core. The socket is
-- libzmq's: whether it takes a frame is an argument of every call that sends, and the frames that it
-- has taken are kept here. The provider's hook is kept as the number of its calls. The log, and with it
-- the use of ever_sent_successfully_, is left out.
use aggregated_order_book.Base.{
  ℕ, ◌+◌, ◌%◌, ◌^◌, Bool, true, false, List, [], ◌∷◌, ◌++◌, if◌then◌else◌,
}
use aggregated_order_book.Base.Text.{Text}
use aggregated_order_book.Types.{InstrumentKey, BookUpdate, BboQuote, VenueHealthEvent}
use aggregated_order_book.Wire.Codec.{encode_hello, encode_goodbye, encode_book_update}
use aggregated_order_book.Wire.Events.{encode_bbo_quote, encode_health}
pub mod Calls
pub mod Delivery
mod Tests

-- The members of `ZmqProviderSink`, the frames that its socket has taken, oldest first, and the calls
-- of `resync_hook_`.
pub record Sink : Type 0 where
  pub instrument : InstrumentKey
  pub venue_name : Text
  pub encode_buf : List ℕ
  pub has_resync_hook : Bool
  pub ever_sent_successfully : Bool
  pub overflow_count : ℕ
  pub quote_drop_count : ℕ
  pub sent : List (List ℕ)
  pub resyncs : ℕ

-- The constructor.
abbrev pub new_sink : InstrumentKey → Text → Sink
new_sink instrument venue_name = record {
  instrument = instrument;
  venue_name = venue_name;
  encode_buf = [];
  has_resync_hook = false;
  ever_sent_successfully = false;
  overflow_count = 0;
  quote_drop_count = 0;
  sent = [];
  resyncs = 0;
}

-- `SetResyncHook`
abbrev pub set_resync_hook : Sink → Sink
set_resync_hook k = record k { has_resync_hook = true }

-- An encoder writes the frame into `encode_buf_`.
abbrev pub encoded : List ℕ → Sink → Sink
encoded bytes k = record k { encode_buf = bytes }

-- `SendFrame`
unfoldable pub send_frame : Bool → Sink → Bool × Sink
send_frame true k =
    (true, record k { sent = k.sent ++ k.encode_buf ∷ []; ever_sent_successfully = true })
send_frame false k = (false, k)

-- `SendHello` and `SendGoodbye`, whose failure is only logged or not even that.
unfoldable pub send_hello : Bool → Sink → Sink
send_hello takes k = (send_frame takes (encoded (encode_hello k.instrument k.venue_name) k)).1

unfoldable pub send_goodbye : Bool → ℕ → Sink → Sink
send_goodbye takes reason k = (send_frame takes (encoded (encode_goodbye reason) k)).1

-- How `SendUpdate` and `SendHealth` end.
unfoldable pub count_overflow : Bool × Sink → Bool × Sink
count_overflow (true, k) = (true, k)
count_overflow (false, k) = (false, record k { overflow_count = (k.overflow_count + 1) % 2 ^ 64 })

-- `SendUpdate` and `SendHealth`
unfoldable pub send_update : Bool → BookUpdate → Sink → Bool × Sink
send_update takes u k = count_overflow (send_frame takes (encoded (encode_book_update u) k))

unfoldable pub send_health : Bool → VenueHealthEvent → Sink → Bool × Sink
send_health takes e k = count_overflow (send_frame takes (encoded (encode_health e) k))

-- How `OnUpdate` and `OnHealth` end.
unfoldable pub escalate : Bool × Sink → Sink
escalate (true, k) = k
escalate (false, k) = if k.has_resync_hook then record k { resyncs = k.resyncs + 1 } else k

-- `OnUpdate` and `OnHealth`
unfoldable pub on_update : Bool → BookUpdate → Sink → Sink
on_update takes u k = escalate (send_update takes u k)

unfoldable pub on_health_event : Bool → VenueHealthEvent → Sink → Sink
on_health_event takes e k = escalate (send_health takes e k)

-- `OnQuote`
unfoldable pub count_drop : Bool × Sink → Sink
count_drop (true, k) = k
count_drop (false, k) = record k { quote_drop_count = (k.quote_drop_count + 1) % 2 ^ 64 }

unfoldable pub on_bbo_quote : Bool → BboQuote → Sink → Sink
on_bbo_quote takes q k = count_drop (send_frame takes (encoded (encode_bbo_quote q) k))
