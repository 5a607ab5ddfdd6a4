-- ===== src/Sink/Delivery.antt =====
-- The sink and the ingress together: depth updates from a provider to the queue of its slot.
use aggregated_order_book.Base.{
  ℕ, ◌+◌, ◌<◌, ◌≤◌, ◌≡◌, refl, sym, ap, subst, ◌∙◌, Bool, true, false, some, List, [], ◌∷◌, ◌++◌,
  map, arith, append-nil, append_assoc, length, get_or, set, All, length-append, length-set,
  get_or-set_self, set-set, set-get_or,
}
use aggregated_order_book.Base.Text.{Text}
use aggregated_order_book.Types.{BookUpdate}
use aggregated_order_book.Wire.Codec.{encode_book_update}
use aggregated_order_book.Wire.RoundTrip.{IsWireUpdate}
use aggregated_order_book.Core.{ProviderMessage, Core, book_update}
use aggregated_order_book.Core.Queues.{queue_capacity}
use aggregated_order_book.Ingress.{slot_of, Ingress, decode_venue, run_frames}
use aggregated_order_book.Ingress.Delivery.{queued, handle_frame-encode_book_update}
use aggregated_order_book.Sink.{Sink}
use aggregated_order_book.Sink.Calls.{
  Attempt, update, run_calls, frames_taken, tally, needs_resync, HasCounters, run_calls-IsAccounted,
}

abbrev pub Updates : Type 0
Updates = List (BookUpdate × Bool)

abbrev pub attempt : BookUpdate × Bool → Attempt
attempt (u, takes) = (update u, takes)

-- The updates whose frames the socket takes, and the number of the others.
unfoldable pub accepted : Updates → List BookUpdate
accepted [] = []
accepted ((u, true) ∷ us) = u ∷ accepted us
accepted ((u, false) ∷ us) = accepted us

unfoldable pub refused : Updates → ℕ
refused [] = 0
refused ((u, true) ∷ us) = refused us
refused ((u, false) ∷ us) = 1 + refused us

-- The message of Core that an update becomes.
abbrev pub as_message : BookUpdate → ProviderMessage
as_message u = book_update (record u { venue = decode_venue })

-- Messages behind the others of a slot.
abbrev pub all_queued : ℕ → List ProviderMessage → Core → Core
all_queued slot ms c = record c { queues = set c.queues slot (get_or c.queues slot [] ++ ms) }

-- Frames from one peer.
abbrev pub from : Text → List (List ℕ) → List (Text × List ℕ)
from id = map (λ bytes. (id, bytes))

-- Room in the slot's queue for n messages.
pub record HasRoomFor (n slot : ℕ) (c : Core) : Type 0 where
  pub inside : slot < length c.queues
  pub room : length (get_or c.queues slot []) + n ≤ queue_capacity

module _ (slot : ℕ) (m : ProviderMessage) (c : Core) (inside : slot < length c.queues) where
  queued-get_or : get_or (queued slot m c).queues slot [] ≡ get_or c.queues slot [] ++ m ∷ []
  queued-get_or = get_or-set_self c.queues slot (get_or c.queues slot [] ++ m ∷ []) [] inside

  queued-HasRoomFor :
      (n : ℕ)
      → length (get_or c.queues slot []) + (1 + n) ≤ queue_capacity
      → HasRoomFor n slot (queued slot m c)
  queued-HasRoomFor n h = record {
    inside =
        subst (λ k. slot < k) (sym (length-set c.queues slot (get_or c.queues slot [] ++ m ∷ [])))
          inside;
    room =
        let size = ap length queued-get_or ∙ length-append (get_or c.queues slot []) (m ∷ []) in
        omega (arith, size, h);
  }

  all_queued-queued :
      (ms : List ProviderMessage)
      → all_queued slot ms (queued slot m c) ≡ all_queued slot (m ∷ ms) c
  all_queued-queued ms =
      ap (λ qs. record c { queues = qs })
        (ap (λ q. set (queued slot m c).queues slot (q ++ ms)) queued-get_or
          ∙ set-set c.queues slot (get_or c.queues slot [] ++ m ∷ [])
              ((get_or c.queues slot [] ++ m ∷ []) ++ ms)
          ∙ ap (set c.queues slot) (append_assoc (get_or c.queues slot []) (m ∷ []) ms))

run_frames-updates :
    (id : Text) (slot : ℕ) (us : List BookUpdate) (s : Ingress)
    → slot_of s.identity_to_slot id ≡ some slot
    → HasRoomFor (length us) slot s.core
    → All IsWireUpdate us
    → run_frames (from id (map encode_book_update us)) s
      ≡ some (record s { core = all_queued slot (map as_message us) s.core })
unfolding run_frames
run_frames-updates id slot [] s e r w =
    ap (λ qs. some (record s { core = record s.core { queues = qs } }))
      (sym (
        ap (set s.core.queues slot) (append-nil (get_or s.core.queues slot []))
        ∙ set-get_or s.core.queues slot []))
run_frames-updates id slot (u ∷ us) s e r w =
    let first =
      handle_frame-encode_book_update id slot u s e
        (record { inside = r.inside; room = omega (arith, r.room) }) w.0 in
    rw (run_frames, first)
      (run_frames-updates id slot us (record s { core = queued slot (as_message u) s.core }) e
          (queued-HasRoomFor slot (as_message u) s.core r.inside (length us)
            (omega (arith, r.room)))
          w.1
        ∙ ap (λ c. some (record s { core = c }))
            (all_queued-queued slot (as_message u) s.core r.inside (map as_message us)))

frames_taken-accepted :
    (k : Sink) (us : Updates)
    → frames_taken k (map attempt us) ≡ map encode_book_update (accepted us)
unfolding frames_taken accepted
frames_taken-accepted k [] = refl
frames_taken-accepted k ((u, true) ∷ us) =
    ap (λ fs. encode_book_update u ∷ fs) (frames_taken-accepted k us)
frames_taken-accepted k ((u, false) ∷ us) = frames_taken-accepted k us

tally-refused : (us : Updates) → tally needs_resync (map attempt us) ≡ refused us
unfolding tally refused
tally-refused [] = refl
tally-refused ((u, true) ∷ us) = omega (arith, tally-refused us)
tally-refused ((u, false) ∷ us) = ap (λ n. 1 + n) (tally-refused us)

-- Every update reaches the slot's queue or is answered with a resync.
pub record IsDelivered (id : Text) (slot : ℕ) (us : Updates) (k k' : Sink) (s : Ingress)
    : Type 0 where
  pub delivered :
      run_frames (from id k'.sent) s
      ≡ some (record s { core = all_queued slot (map as_message (accepted us)) s.core })
  pub asked : k'.resyncs ≡ k.resyncs + refused us

-- A provider whose sink has a hook and has sent nothing since its greeting was received calls OnUpdate
-- on updates, of which its socket takes some, in range, and refuses others. If the slot's queue has room
-- for the accepted ones, the ingress that receives the frames taken, in order and without others
-- between, adds exactly the accepted updates to the slot's queue, in order and whole but for the venue,
-- and changes nothing else; and the hook has been called once for each refused update.
pub run_frames-run_calls :
    (id : Text) (slot : ℕ) (us : Updates) (k : Sink) (s : Ingress)
    → k.sent ≡ []
    → k.has_resync_hook ≡ true
    → HasCounters k
    → slot_of s.identity_to_slot id ≡ some slot
    → HasRoomFor (length (accepted us)) slot s.core
    → All IsWireUpdate (accepted us)
    → IsDelivered id slot us k (run_calls (map attempt us) k) s
run_frames-run_calls id slot us k s none_sent hooked counters e r w =
    let h = run_calls-IsAccounted (map attempt us) k hooked counters in
    record {
      delivered =
          ap (λ fs. run_frames (from id fs) s)
            (h.frames
              ∙ ap (λ fs. fs ++ frames_taken k (map attempt us)) none_sent
              ∙ frames_taken-accepted k us)
          ∙ run_frames-updates id slot (accepted us) s e r w;
      asked = h.asked ∙ ap (λ n. k.resyncs + n) (tally-refused us);
    }
