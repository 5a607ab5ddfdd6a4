-- ===== src/Ingress/Delivery.antt =====
-- A provider's encoded message, received from a peer that has greeted: the message stands behind the
-- slot's others.
use aggregated_order_book.Base.{
  ℕ, ◌^◌, ◌<◌, ◌≡◌, refl, ap, ◌∙◌, true, Option, none, some, List, [], ◌∷◌, ◌++◌, arith, length,
  get_or, set, take,
}
use aggregated_order_book.Base.Text.{Text}
use aggregated_order_book.Types.{key_eq, BookUpdate}
use aggregated_order_book.Wire.{
  read_le, read_fields, header_widths, hello_type, book_type, wire_version,
}
use aggregated_order_book.Wire.Codec.{write_header, decode_header, encode_hello, encode_book_update}
use aggregated_order_book.Core.{ProviderMessage, Core, book_update, venue_registration}
use aggregated_order_book.Core.Membership.{register_venue_name}
use aggregated_order_book.Core.Queues.{queue_capacity, enqueue}
use aggregated_order_book.Core.Enqueue.{enqueue-EnqueueCase, no_queue, taken, overflow}
use aggregated_order_book.Ingress.{
  handed, slot_of, bind_slot, Ingress, decode_venue, hand_over, greeted, on_hello, on_book_update,
  on_data, on_type, handle_payload, handle_frame,
}
use aggregated_order_book.Wire.RoundTrip.{IsWireUpdate, decode_book_update-encode_book_update}
use aggregated_order_book.Wire.Bytes.{read_fields-write_fields}
use aggregated_order_book.Wire.Bytes.{read_fields-write_fields}
use aggregated_order_book.Wire.Hello.{IsCText, decode_hello-encode_hello}

decode_header-written :
    (type : ℕ) (rest : List ℕ)
    → type < 2 ^ 16
    → decode_header (write_header type ++ rest) ≡ some type
unfolding decode_header
decode_header-written type rest h =
    rw
      (
        decode_header,
        read_fields-write_fields header_widths (type, (wire_version, tt)) rest
            (omega (arith, h), (omega arith, tt)),
      )
      refl

handle_frame_payload :
    (id : Text) (bytes : List ℕ) (type : ℕ) (s : Ingress)
    → decode_header bytes ≡ some type
    → handle_frame id bytes s ≡ on_type id bytes type s
unfolding handle_frame handle_payload decode_header read_fields read_le
handle_frame_payload id [] type s e = absurd (cc)
handle_frame_payload id (b ∷ bytes) type s e = rw (handle_payload, e) refl

-- Room in the slot's queue.
pub record HasRoom (slot : ℕ) (c : Core) : Type 0 where
  pub inside : slot < length c.queues
  pub room : length (get_or c.queues slot []) < queue_capacity

abbrev pub queued : ℕ → ProviderMessage → Core → Core
queued slot m c = record c { queues = set c.queues slot (get_or c.queues slot [] ++ m ∷ []) }

enqueue-queued :
    (slot : ℕ) (m : ProviderMessage) (c : Core)
    → HasRoom slot c
    → enqueue slot m c ≡ (true, queued slot m c)
enqueue-queued slot m c h = elim (enqueue-EnqueueCase slot m c) [
  | no_queue a r ↦ absurd (omega (arith, a, h.inside))
  | taken a b r ↦ r
  | overflow a b r ↦ absurd (omega (arith, b, h.room))
]

hand_over-queued :
    (slot : ℕ) (m : ProviderMessage) (s : Ingress)
    → HasRoom slot s.core
    → hand_over slot m s ≡ record s { core = queued slot m s.core }
unfolding hand_over handed
hand_over-queued slot m s h = rw (hand_over, enqueue-queued slot m s.core h) refl

-- From a peer with a slot whose queue has room, the frame of a depth update in range puts the update
-- behind what stands in that queue, with every member but the venue, and changes nothing else.
pub handle_frame-encode_book_update :
    (id : Text) (slot : ℕ) (u : BookUpdate) (s : Ingress)
    → slot_of s.identity_to_slot id ≡ some slot
    → HasRoom slot s.core
    → IsWireUpdate u
    → handle_frame id (encode_book_update u) s
      ≡ some
          (record s { core = queued slot (book_update (record u { venue = decode_venue })) s.core })
unfolding encode_book_update on_type on_data on_book_update
handle_frame-encode_book_update id slot u s e r h =
    let header : decode_header (encode_book_update u) ≡ some book_type =
      decode_header-written book_type _ (omega arith) in
    handle_frame_payload id (encode_book_update u) book_type s header
    ∙ rw (on_type, e, on_data, decode_book_update-encode_book_update decode_venue u h)
        (ap some (hand_over-queued slot (book_update (record u { venue = decode_venue })) s r))

-- The greeting of a provider for this core's instrument, with a venue's name of at most fifteen
-- characters that the registry takes: the peer is bound to the name's slot, and the registration
-- stands in the slot's queue.
pub handle_frame-encode_hello :
    (id : Text) (name : Text) (slot : ℕ) (s : Ingress)
    → s.expected_instrument.packed < 2 ^ 32
    → IsCText name
    → take 15 name ≡ name
    → (register_venue_name name s.core).0 ≡ some slot
    → HasRoom slot (register_venue_name name s.core).1
    → handle_frame id (encode_hello s.expected_instrument name) s
      ≡ some (record s {
        core = queued slot venue_registration (register_venue_name name s.core).1;
        identity_to_slot = bind_slot s.identity_to_slot id slot;
      })
unfolding encode_hello on_type on_hello greeted
handle_frame-encode_hello id name slot s k t short e r =
    let header : decode_header (encode_hello s.expected_instrument name) ≡ some hello_type =
      decode_header-written hello_type _ (omega arith) in
    let own_key : key_eq s.expected_instrument s.expected_instrument ≡ true = ground arith in
    handle_frame_payload id (encode_hello s.expected_instrument name) hello_type s header
    ∙ rw
        (
          on_type,
          decode_hello-encode_hello s.expected_instrument name k t,
          short,
          on_hello,
          own_key,
        )
        (ap some (greeted_queued id (register_venue_name name s.core) slot s e r))
  where
    greeted_queued :
        (id : Text) (out : Option ℕ × Core) (slot : ℕ) (s : Ingress)
        → out.0 ≡ some slot
        → HasRoom slot out.1
        → greeted id out s ≡ record s {
          core = queued slot venue_registration out.1;
          identity_to_slot = bind_slot s.identity_to_slot id slot;
        }
    greeted_queued id (none, c) slot s e r = absurd (cc)
    greeted_queued id (some x, c) slot s e r =
        let same : x ≡ slot = cc in rw same (hand_over-queued slot venue_registration _ r)
