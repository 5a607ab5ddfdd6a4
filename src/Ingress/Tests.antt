-- ===== src/Ingress/Tests.antt =====
-- A provider that greets and sends, and one that sends before it has greeted.
use aggregated_order_book.Base.{
  All, ◌≢◌, ℕ, zero, suc, ◌≡◌, refl, true, false, some, List, [], ◌∷◌, arith, get_or, replicate,
}
use aggregated_order_book.Base.Text.{Text, text_eq}
use aggregated_order_book.Types.{InstrumentKey, BookUpdate, max_venues, okx}
use aggregated_order_book.Venues.{to_venue_id}
use aggregated_order_book.Registry.{find_name, add_name, register_in, register}
use aggregated_order_book.Wire.{le_bytes, write_fields, hello_type, read_le, read_fields}
use aggregated_order_book.Wire.Codec.{
  decode_header, encode_goodbye, encode_hello, encode_book_update,
}
use aggregated_order_book.Core.{ProviderMessage, new_core, book_update, venue_registration}
use aggregated_order_book.Core.Membership.{register_as, register_venue_name}
use aggregated_order_book.Ingress.{
  slot_of, bind_slot, Ingress, decode_venue, handle_frame, run_frames, new_ingress,
}
use aggregated_order_book.Wire.RoundTrip.{IsWireUpdate}
use aggregated_order_book.Ingress.Served.{IsServed}
use aggregated_order_book.Venues.{okx_name}
use aggregated_order_book.Ingress.Frames.{RunEnd, run_frames-IsServed}
use aggregated_order_book.Ingress.Early.{IsEarly, counted, data_frames, run_frames-counted}
use aggregated_order_book.Ingress.Delivery.{
  HasRoom, queued, handle_frame-encode_book_update, handle_frame-encode_hello,
}
use aggregated_order_book.Base.Int.{pos}

abbrev pub key : InstrumentKey
key = record { packed = 256 }

abbrev start : Ingress
start = new_ingress (new_core true true) key

start-IsServed : IsServed start
unfolding slot_of
start-IsServed = record { mapped = λ id slot e. absurd (cc); quiet = λ i l. empty max_venues i }
  where
    empty : (n i : ℕ) → get_or {A = List ProviderMessage} (replicate n []) i [] ≡ []
    empty zero i = refl
    empty (suc n) zero = refl
    empty (suc n) (suc i) = empty n i

abbrev pub peer : Text
peer = 7 ∷ []

abbrev pub update : BookUpdate
update = record {
  venue = okx;
  instrument = key;
  seq = 4;
  prev_seq = pos 3;
  recv_ts_ns = pos 0;
  exch_ts_ns = pos 0;
  recv_mono_ns = pos 0;
  is_snapshot = false;
  bids = record { price = 100; qty = 5 } ∷ [];
  asks = [];
}

pub update-IsWireUpdate : IsWireUpdate update
update-IsWireUpdate = record {
  instrument = omega arith;
  seq = omega arith;
  prev_seq = omega arith;
  recv_ts_ns = omega arith;
  exch_ts_ns = omega arith;
  recv_mono_ns = omega arith;
  bid_count = omega arith;
  ask_count = omega arith;
  bids = ((omega arith, omega arith), tt);
  asks = tt;
}

abbrev session : List (Text × List ℕ)
session = (peer, encode_hello key okx_name) ∷ (peer, encode_book_update update) ∷ (peer, []) ∷ []

run_frames-IsServed_example : RunEnd session start (run_frames session start)
run_frames-IsServed_example = run_frames-IsServed session start start-IsServed

-- A data frame, a frame of no header, a goodbye and a disconnect.
abbrev early : List (Text × List ℕ)
early = (peer, 2 ∷ 0 ∷ 1 ∷ 0 ∷ 9 ∷ []) ∷ (peer, 7 ∷ []) ∷ (peer, encode_goodbye 0) ∷ (peer, []) ∷ []

early-IsEarly : All (IsEarly start.identity_to_slot) early
unfolding decode_header encode_goodbye read_fields read_le write_fields le_bytes slot_of
early-IsEarly = (
  stranger (λ e. absurd (cc)),
  (stranger (λ e. absurd (cc)), (stranger (λ e. absurd (cc)), (stranger (λ e. absurd (cc)), tt))),
)
  where
    stranger :
        {frame : List ℕ}
        → decode_header frame ≢ some hello_type
        → IsEarly start.identity_to_slot (peer, frame)
    stranger other = record { stranger = refl; no_greeting = other }

run_frames-counted_example : run_frames early start ≡ some (counted (data_frames early) start)
run_frames-counted_example = run_frames-counted early start (omega arith) early-IsEarly

okx_slot : (register_venue_name okx_name start.core).0 ≡ some 0
unfolding register_venue_name register_as to_venue_id text_eq register register_in add_name
    find_name
okx_slot = refl

okx-HasRoom : HasRoom 0 (register_venue_name okx_name start.core).1
unfolding register_venue_name register_as to_venue_id text_eq register register_in add_name
    find_name
okx-HasRoom = record { inside = omega arith; room = omega arith }

abbrev pub greeted_state : Ingress
greeted_state = record start {
  core = queued 0 venue_registration (register_venue_name okx_name start.core).1;
  identity_to_slot = bind_slot [] peer 0;
}

greeting_run : handle_frame peer (encode_hello key okx_name) start ≡ some greeted_state
greeting_run =
    handle_frame-encode_hello peer okx_name 0 start (omega arith) (refl, (refl, (refl, tt))) refl
      okx_slot okx-HasRoom

greeted-HasRoom : HasRoom 0 greeted_state.core
unfolding register_venue_name register_as to_venue_id text_eq register register_in add_name
    find_name
greeted-HasRoom = record { inside = omega arith; room = omega arith }

pub peer_slot : slot_of greeted_state.identity_to_slot peer ≡ some 0
unfolding slot_of text_eq
peer_slot = refl

handle_frame-encode_book_update_example :
    handle_frame peer (encode_book_update update) greeted_state
    ≡ some (record greeted_state {
      core = queued 0 (book_update (record update { venue = decode_venue })) greeted_state.core;
    })
handle_frame-encode_book_update_example =
    handle_frame-encode_book_update peer 0 update greeted_state peer_slot greeted-HasRoom
      update-IsWireUpdate
