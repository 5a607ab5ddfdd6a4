-- ===== src/Sink/Tests.antt =====
-- A provider that has greeted sends three updates; the socket refuses the second.
use aggregated_order_book.Base.{refl, true, false, [], ◌∷◌, arith, map}
use aggregated_order_book.Types.{VenueHealthEvent, okx, stale, depth}
use aggregated_order_book.Base.Int.{pos}
use aggregated_order_book.Venues.{to_venue_id, okx_name}
use aggregated_order_book.Sink.{Sink, new_sink, set_resync_hook}
use aggregated_order_book.Sink.Calls.{
  IsAccounted, HasCounters, run_calls, run_calls-IsAccounted, greeting, verdict, update, farewell,
}
use aggregated_order_book.Sink.Delivery.{
  Updates, attempt, accepted, HasRoomFor, IsDelivered, run_frames-run_calls,
}
use aggregated_order_book.Ingress.Tests.{key, peer, greeted_state, peer_slot, update-IsWireUpdate}
use aggregated_order_book.Ingress.Tests.{update as delta}
use aggregated_order_book.Core.Membership.{register_as, register_venue_name}
use aggregated_order_book.Base.Text.{text_eq}
use aggregated_order_book.Registry.{find_name, add_name, register_in, register}

abbrev sink : Sink
sink = set_resync_hook (new_sink key okx_name)

sink-HasCounters : HasCounters sink
sink-HasCounters = record { overflow = omega arith; dropped = omega arith }

abbrev stale_event : VenueHealthEvent
stale_event = record { venue = okx; stream = depth; health = stale; decided_mono_ns = pos 9 }

run_calls-IsAccounted_example :
    IsAccounted
      ((greeting, true)
        ∷ (update delta, false)
        ∷ (verdict stale_event, true)
        ∷ (farewell 0, true)
        ∷ [])
      sink
      (run_calls
        ((greeting, true)
          ∷ (update delta, false)
          ∷ (verdict stale_event, true)
          ∷ (farewell 0, true)
          ∷ [])
        sink)
run_calls-IsAccounted_example =
    run_calls-IsAccounted
      ((greeting, true)
        ∷ (update delta, false)
        ∷ (verdict stale_event, true)
        ∷ (farewell 0, true)
        ∷ [])
      sink refl sink-HasCounters

abbrev three : Updates
three = (delta, true) ∷ (delta, false) ∷ (delta, true) ∷ []

three-HasRoomFor : HasRoomFor 2 0 greeted_state.core
unfolding register_venue_name register_as to_venue_id text_eq register register_in add_name
    find_name
three-HasRoomFor = record { inside = omega arith; room = omega arith }

run_frames-run_calls_example :
    IsDelivered peer 0 three sink (run_calls (map attempt three) sink) greeted_state
unfolding accepted
run_frames-run_calls_example =
    run_frames-run_calls peer 0 three sink greeted_state refl refl sink-HasCounters peer_slot
      three-HasRoomFor (update-IsWireUpdate, (update-IsWireUpdate, tt))
