-- ===== src/Ingress.antt =====
-- md_wire/zmq_core_ingress.h and .cpp: the thread that receives the providers' frames and hands their
-- messages to Core. The socket is libzmq's: here a frame is the identity of its sender and its bytes,
-- in the order in which the socket yields them; no bytes are a notification that a peer has connected
-- or gone. Logging is left out. `none` stands for a read beyond the frame.
pub mod Served
pub mod Frames
pub mod Early
pub mod Delivery
pub mod Tests
use aggregated_order_book.Base.{
  ℕ, ◌+◌, ◌%◌, ◌^◌, Bool, true, false, ◌||◌, Option, none, some, List, [], ◌∷◌, ◌==◌, if◌then◌else◌,
}
use aggregated_order_book.Base.Text.{Text, text_eq}
use aggregated_order_book.Types.{
  VenueId, InstrumentKey, key_eq, BookUpdate, BboQuote, VenueHealthEvent, binance,
}
use aggregated_order_book.Wire.{hello_type, book_type, bbo_type, health_type}
use aggregated_order_book.Wire.Codec.{
  decode_header, Hello, decode_hello, decode_book_update, refused, beyond, hello,
}
use aggregated_order_book.Wire.Events.{decode_bbo_quote, decode_health}
use aggregated_order_book.Core.{
  ProviderMessage, Core, book_update, health_event, venue_registration, venue_disconnect,
}
use aggregated_order_book.Core.Membership.{register_venue_name}
use aggregated_order_book.Core.Queues.{enqueue, enqueue_quote}

-- `identity_to_slot_`, read by its first entry under an identity.
abbrev pub Identities : Type 0
Identities = List (Text × ℕ)

unfoldable pub slot_of : Identities → Text → Option ℕ
slot_of [] id = none
slot_of (e ∷ m) id = let rest = slot_of m id in if text_eq e.0 id then some e.1 else rest

-- `identity_to_slot_[identity] = slot`: the entry in front hides an older one.
abbrev pub bind_slot : Identities → Text → ℕ → Identities
bind_slot m id slot = (id, slot) ∷ m

-- `erase`
unfoldable pub forget : Identities → Text → Identities
forget [] id = []
forget (e ∷ m) id = let rest = forget m id in if text_eq e.0 id then rest else e ∷ rest

-- The members of `ZmqCoreIngress` and the Core that it refers to. `decode_venue` is the venue that
-- `decode_update_` and its like hold from their construction on.
pub record Ingress : Type 0 where
  pub core : Core
  pub expected_instrument : InstrumentKey
  pub identity_to_slot : Identities
  pub data_before_hello : ℕ
  pub enqueue_overflow : ℕ

abbrev pub decode_venue : VenueId
decode_venue = binance

-- A message handed to Core; a refusal is counted.
unfoldable pub handed : Bool × Core → Ingress → Ingress
handed (true, core) s = record s { core = core }
handed (false, core) s = record s {
  core = core;
  enqueue_overflow = (s.enqueue_overflow + 1) % 2 ^ 64;
}

unfoldable pub hand_over : ℕ → ProviderMessage → Ingress → Ingress
hand_over slot m s = handed (enqueue slot m s.core) s

-- `HandleNotify`: a peer that has no slot has connected, or gone without a greeting.
unfoldable pub handle_notify : Text → Ingress → Ingress
handle_notify id s = elim (slot_of s.identity_to_slot id) [
  | none ↦ s
  | some slot ↦
      hand_over slot venue_disconnect (record s { identity_to_slot = forget s.identity_to_slot id })
]

-- `note_early`
unfoldable pub note_early : Ingress → Ingress
note_early s = record s { data_before_hello = (s.data_before_hello + 1) % 2 ^ 64 }

-- A greeting for this core's instrument.
unfoldable pub greeted : Text → Option ℕ × Core → Ingress → Ingress
greeted id (none, core) s = record s { core = core }
greeted id (some slot, core) s =
    hand_over slot venue_registration
      (record s { core = core; identity_to_slot = bind_slot s.identity_to_slot id slot })

unfoldable pub on_hello : Text → Hello → Ingress → Option Ingress
on_hello id refused s = some s
on_hello id beyond s = none
on_hello id (hello k name) s =
    if key_eq k s.expected_instrument
    then some (greeted id (register_venue_name name s.core) s)
    else some s

-- A data frame from the peer of a slot; a frame that does not decode is dropped.
unfoldable pub on_book_update : ℕ → Option BookUpdate → Ingress → Ingress
on_book_update slot none s = s
on_book_update slot (some u) s = hand_over slot (book_update u) s

unfoldable pub on_quote : ℕ → Option BboQuote → Ingress → Ingress
on_quote slot none s = s
on_quote slot (some q) s = record s { core = enqueue_quote slot q s.core }

unfoldable pub on_health : ℕ → Option VenueHealthEvent → Ingress → Ingress
on_health slot none s = s
on_health slot (some e) s = hand_over slot (health_event e) s

-- A data frame by its type, before a greeting and after.
unfoldable pub on_data : ℕ → List ℕ → Option ℕ → Ingress → Ingress
on_data type bytes none s = note_early s
on_data type bytes (some slot) s =
    if type == book_type
    then on_book_update slot (decode_book_update decode_venue bytes) s
    else if type == bbo_type
    then on_quote slot (decode_bbo_quote decode_venue bytes) s
    else on_health slot (decode_health decode_venue bytes) s

abbrev pub is_data : ℕ → Bool
is_data type = type == book_type || type == bbo_type || type == health_type

-- The switch of `HandlePayload`: a goodbye and an unknown type are only logged.
unfoldable pub on_type : Text → List ℕ → ℕ → Ingress → Option Ingress
on_type id bytes type s =
    if type == hello_type
    then on_hello id (decode_hello bytes) s
    else if is_data type
    then some (on_data type bytes (slot_of s.identity_to_slot id) s)
    else some s

-- `HandlePayload`: a frame without a header is dropped.
unfoldable pub handle_payload : Text → List ℕ → Ingress → Option Ingress
handle_payload id bytes s = elim (decode_header bytes) [
  | none ↦ some s
  | some type ↦ on_type id bytes type s
]

-- The body of the loop in `Run`, and the loop over the frames received.
unfoldable pub handle_frame : Text → List ℕ → Ingress → Option Ingress
handle_frame id [] s = some (handle_notify id s)
handle_frame id (b ∷ bytes) s = handle_payload id (b ∷ bytes) s

unfoldable pub run_frames : List (Text × List ℕ) → Ingress → Option Ingress
run_frames [] s = some s
run_frames (f ∷ fs) s = elim (handle_frame f.0 f.1 s) [ none ↦ none | some s' ↦ run_frames fs s' ]

-- The constructor.
abbrev pub new_ingress : Core → InstrumentKey → Ingress
new_ingress core expected = record {
  core = core;
  expected_instrument = expected;
  identity_to_slot = [];
  data_before_hello = 0;
  enqueue_overflow = 0;
}
