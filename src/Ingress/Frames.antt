-- ===== src/Ingress/Frames.antt =====
-- The frames of a run, one after the other: who reaches Core, and where its messages stand.
use aggregated_order_book.Base.{
  ◌++◌, ℕ, ◌≡◌, refl, sym, ap, subst, ◌∙◌, inl, inr, Option, none, some, List, [], ◌∷◌, arith, ◌==◌,
  Bool-cases, Option-cases,
}
use aggregated_order_book.Base.Text.{Text, text_eq, text_eq→≡}
use aggregated_order_book.Types.{key_eq}
use aggregated_order_book.Venues.{to_venue_id}
use aggregated_order_book.Wire.{hello_type}
use aggregated_order_book.Wire.Codec.{decode_header, Hello, decode_hello, refused, beyond, hello}
use aggregated_order_book.Core.{venue_disconnect}
use aggregated_order_book.Core.Membership.{register_venue_name}
use aggregated_order_book.Ingress.{
  Identities, slot_of, forget, Ingress, handle_notify, on_hello, is_data, on_type, handle_payload,
  handle_frame, run_frames,
}
use aggregated_order_book.Ingress.Served.{
  register_as-IsNamedSlot, hand_over-IsServed, on_data-IsServed, greeted-IsServed, IsServed,
}

slot_of_forgotten : (m : Identities) (id : Text) → slot_of (forget m id) id ≡ none
unfolding slot_of forget
slot_of_forgotten [] id = refl
slot_of_forgotten (p ∷ m) id = elim (Bool-cases (text_eq p.0 id)) [
  | inl a ↦ rw a (slot_of_forgotten m id)
  | inr a ↦ rw (forget, a, slot_of, a) (slot_of_forgotten m id)
]

-- What a lookup finds after `erase` was there before.
slot_of-forget :
    (m : Identities) (id other : Text) (x : ℕ)
    → slot_of (forget m id) other ≡ some x
    → slot_of m other ≡ some x
unfolding slot_of forget
slot_of-forget [] id other x e = e
slot_of-forget (p ∷ m) id other x e = elim (Bool-cases (text_eq p.0 id)) [
  | inl a ↦
      let gone : slot_of (forget m id) other ≡ some x = ground (arith, e, a) in
      elim (Bool-cases (text_eq p.0 other)) [
        | inl b ↦
            let same : other ≡ id = sym (text_eq→≡ p.0 other b) ∙ text_eq→≡ p.0 id a in
            absurd (cc (sym gone ∙ ap (slot_of (forget m id)) same ∙ slot_of_forgotten m id))
        | inr b ↦ rw b (slot_of-forget m id other x gone)
      ]
  | inr a ↦
      let kept : slot_of (p ∷ forget m id) other ≡ some x = ground (arith, e, a) in
      elim (Bool-cases (text_eq p.0 other)) [
        | inl b ↦ rw b (ground (arith, kept, b))
        | inr b ↦
            let below : slot_of (forget m id) other ≡ some x = ground (arith, kept, b) in
            rw b (slot_of-forget m id other x below)
      ]
]

pub handle_notify-IsServed : (id : Text) (s : Ingress) → IsServed s → IsServed (handle_notify id s)
unfolding handle_notify
handle_notify-IsServed id s h = elim (Option-cases (slot_of s.identity_to_slot id)) [
  | inl a ↦ rw (handle_notify, a) h
  | inr (slot, a) ↦
      rw (handle_notify, a)
        (hand_over-IsServed slot venue_disconnect _ (h.mapped id slot a) (record {
          mapped = λ other x e. h.mapped other x (slot_of-forget s.identity_to_slot id other x e);
          quiet = h.quiet;
        }))
]

-- The outcome of a frame or of a run of frames, where there is one.
abbrev pub IsServedAfter : Option Ingress → Type 0
IsServedAfter none = Unit
IsServedAfter (some s) = IsServed s

on_hello-IsServed :
    (id : Text) (o : Hello) (s : Ingress) → IsServed s → IsServedAfter (on_hello id o s)
unfolding on_hello register_venue_name
on_hello-IsServed id refused s h = h
on_hello-IsServed id beyond s h = tt
on_hello-IsServed id (hello k name) s h = elim (Bool-cases (key_eq k s.expected_instrument)) [
  | inl a ↦ rw a (
      greeted-IsServed id (register_venue_name name s.core) s
        (register_as-IsNamedSlot (to_venue_id name) name s.core) h)
  | inr a ↦ rw a h
]

on_type-IsServed :
    (id : Text) (bytes : List ℕ) (type : ℕ) (s : Ingress)
    → IsServed s
    → IsServedAfter (on_type id bytes type s)
unfolding on_type
on_type-IsServed id bytes type s h = elim (Bool-cases (type == hello_type)) [
  | inl a ↦ rw a (on_hello-IsServed id (decode_hello bytes) s h)
  | inr a ↦ elim (Bool-cases (is_data type)) [
    | inl b ↦
        rw (a, b) (on_data-IsServed type bytes (slot_of s.identity_to_slot id) s (h.mapped id) h)
    | inr b ↦ rw (a, b) h
  ]
]

handle_frame-IsServed :
    (id : Text) (bytes : List ℕ) (s : Ingress)
    → IsServed s
    → IsServedAfter (handle_frame id bytes s)
unfolding handle_frame handle_payload
handle_frame-IsServed id [] s h = handle_notify-IsServed id s h
handle_frame-IsServed id (b ∷ bytes) s h = elim (Option-cases (decode_header (b ∷ bytes))) [
  | inl a ↦ rw (handle_payload, a) h
  | inr (type, a) ↦ rw (handle_payload, a) (on_type-IsServed id (b ∷ bytes) type s h)
]

-- Only a greeting whose name has no terminator has no outcome.
abbrev pub IsEndless : List ℕ → Type 0
IsEndless bytes = (decode_header bytes ≡ some hello_type) × (decode_hello bytes ≡ beyond)

on_hello-beyond : (id : Text) (o : Hello) (s : Ingress) → on_hello id o s ≡ none → o ≡ beyond
unfolding on_hello
on_hello-beyond id refused s e = absurd (cc)
on_hello-beyond id beyond s e = refl
on_hello-beyond id (hello k name) s e = absurd (ground (arith, e))

on_type-IsEndless :
    (id : Text) (bytes : List ℕ) (type : ℕ) (s : Ingress)
    → decode_header bytes ≡ some type
    → on_type id bytes type s ≡ none
    → IsEndless bytes
unfolding on_type
on_type-IsEndless id bytes type s h e = elim (Bool-cases (type == hello_type)) [
  | inl a ↦
      let greeting : on_hello id (decode_hello bytes) s ≡ none = ground (arith, e, a) in
      let same : type ≡ hello_type = ground (arith, a) in
      (h ∙ ap some same, on_hello-beyond id (decode_hello bytes) s greeting)
  | inr a ↦ absurd (ground (arith, e, a))
]

handle_frame-IsEndless :
    (id : Text) (bytes : List ℕ) (s : Ingress) → handle_frame id bytes s ≡ none → IsEndless bytes
unfolding handle_frame handle_payload
handle_frame-IsEndless id [] s e = absurd (cc)
handle_frame-IsEndless id (b ∷ bytes) s e = elim (Option-cases (decode_header (b ∷ bytes))) [
  | inl a ↦
      let kept : handle_frame id (b ∷ bytes) s ≡ some s = rw (handle_payload, a) refl in
      absurd (cc (sym kept ∙ e))
  | inr (type, a) ↦
      let sorted : handle_frame id (b ∷ bytes) s ≡ on_type id (b ∷ bytes) type s =
        rw (handle_payload, a) refl in
      on_type-IsEndless id (b ∷ bytes) type s a (sym sorted ∙ e)
]

-- The end of a run: a state that is served, or a greeting without a terminator, met in such a state
-- that the frames before it have left.
pub data RunEnd (fs : List (Text × List ℕ)) (s : Ingress) : Option Ingress → Type 0 where
  finished : (s' : Ingress) → IsServed s' → RunEnd fs s (some s')
  stopped :
      (before after : List (Text × List ℕ)) (id : Text) (bytes : List ℕ) (s' : Ingress)
      → fs ≡ before ++ (id, bytes) ∷ after
      → run_frames before s ≡ some s'
      → IsServed s'
      → IsEndless bytes
      → RunEnd fs s none

RunEnd-later :
    (f : Text × List ℕ) (fs : List (Text × List ℕ)) (s t : Ingress) (o : Option Ingress)
    → handle_frame f.0 f.1 s ≡ some t
    → RunEnd fs t o
    → RunEnd (f ∷ fs) s o
unfolding run_frames
RunEnd-later f fs s t _ a (finished s' h) = finished s' h
RunEnd-later f fs s t _ a (stopped before after id bytes s' e r h k) =
    stopped (f ∷ before) after id bytes s' (ap (λ xs. f ∷ xs) e) (rw (run_frames, a) r) h k

-- Whatever frames the peers send, greetings, data, garbage and disconnects in any order, from a state
-- where it is so: the slots of the peers stay registered and no message stands in the queue of a slot
-- that is not, where the consolidator's pass would never find it. This holds at the end of the run, or
-- else, if a greeting has a name without a terminator, in the state that the frames before it leave;
-- no other frame stops the run.
pub run_frames-IsServed :
    (fs : List (Text × List ℕ)) (s : Ingress) → IsServed s → RunEnd fs s (run_frames fs s)
unfolding run_frames
run_frames-IsServed [] s h = finished s h
run_frames-IsServed (f ∷ fs) s h = elim (Option-cases (handle_frame f.0 f.1 s)) [
  | inl a ↦
      rw (run_frames, a) (stopped [] fs f.0 f.1 s refl refl h (handle_frame-IsEndless f.0 f.1 s a))
  | inr (t, a) ↦
      rw (run_frames, a)
        (RunEnd-later f fs s t (run_frames fs t) a
          (run_frames-IsServed fs t (subst IsServedAfter a (handle_frame-IsServed f.0 f.1 s h))))
]
