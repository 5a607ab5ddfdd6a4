-- ===== src/Sink/Calls.antt =====
-- Any sequence of a provider's calls of its sink, with any answers of the socket.
use aggregated_order_book.Base.{
  ℕ, ◌+◌, ◌%◌, ◌^◌, ◌<◌, ◌≡◌, refl, sym, ap, ap₂, subst, ◌∙◌, inl, inr, Bool-cases, Bool, true,
  false, List, [], ◌∷◌, ◌++◌, arith, append-nil, append_assoc,
}
use aggregated_order_book.Types.{BookUpdate, BboQuote, VenueHealthEvent}
use aggregated_order_book.Wire.Codec.{encode_hello, encode_goodbye, encode_book_update}
use aggregated_order_book.Wire.Events.{encode_bbo_quote, encode_health}
use aggregated_order_book.Sink.{
  Sink, send_frame, send_hello, send_goodbye, count_overflow, send_update, send_health, escalate,
  on_update, on_health_event, count_drop, on_bbo_quote,
}

pub data Call : Type 0 where
  greeting : Call
  farewell : ℕ → Call
  update : BookUpdate → Call
  quote : BboQuote → Call
  verdict : VenueHealthEvent → Call

-- A call and whether the socket takes its frame.
abbrev pub Attempt : Type 0
Attempt = Call × Bool

unfoldable pub call : Attempt → Sink → Sink
call (greeting, takes) k = send_hello takes k
call (farewell reason, takes) k = send_goodbye takes reason k
call (update u, takes) k = on_update takes u k
call (quote q, takes) k = on_bbo_quote takes q k
call (verdict e, takes) k = on_health_event takes e k

unfoldable pub run_calls : List Attempt → Sink → Sink
run_calls [] k = k
run_calls (x ∷ xs) k = run_calls xs (call x k)

-- What a sequence of attempts ought to do: the frames taken, the losses that need a resync, the quotes
-- lost.
abbrev pub frame_of : Sink → Call → List ℕ
frame_of k greeting = encode_hello k.instrument k.venue_name
frame_of k (farewell reason) = encode_goodbye reason
frame_of k (update u) = encode_book_update u
frame_of k (quote q) = encode_bbo_quote q
frame_of k (verdict e) = encode_health e

abbrev pub needs_resync : Attempt → ℕ
needs_resync (update u, false) = 1
needs_resync (verdict e, false) = 1
needs_resync x = 0

abbrev pub loses_quote : Attempt → ℕ
loses_quote (quote q, false) = 1
loses_quote x = 0

abbrev pub taken_frame : Sink → Attempt → List (List ℕ)
taken_frame k (c, true) = frame_of k c ∷ []
taken_frame k (c, false) = []

unfoldable pub frames_taken : Sink → List Attempt → List (List ℕ)
frames_taken k [] = []
frames_taken k (x ∷ xs) = taken_frame k x ++ frames_taken k xs

unfoldable pub tally : (Attempt → ℕ) → List Attempt → ℕ
tally f [] = 0
tally f (x ∷ xs) = f x + tally f xs

-- What the sink holds after the attempts.
pub record IsAccounted (xs : List Attempt) (k k' : Sink) : Type 0 where
  pub frames : k'.sent ≡ k.sent ++ frames_taken k xs
  pub asked : k'.resyncs ≡ k.resyncs + tally needs_resync xs
  pub overflow : k'.overflow_count ≡ (k.overflow_count + tally needs_resync xs) % 2 ^ 64
  pub dropped : k'.quote_drop_count ≡ (k.quote_drop_count + tally loses_quote xs) % 2 ^ 64
  pub instrument : k'.instrument ≡ k.instrument
  pub venue_name : k'.venue_name ≡ k.venue_name
  pub hooked : k'.has_resync_hook ≡ true

-- The counters are uint64_t.
pub record HasCounters (k : Sink) : Type 0 where
  pub overflow : k.overflow_count < 2 ^ 64
  pub dropped : k.quote_drop_count < 2 ^ 64

taken-IsAccounted :
    (c : Call) (k k' : Sink)
    → k.has_resync_hook ≡ true
    → HasCounters k
    → needs_resync (c, true) ≡ 0
    → loses_quote (c, true) ≡ 0
    → k' ≡ record k {
      encode_buf = frame_of k c;
      ever_sent_successfully = true;
      sent = k.sent ++ frame_of k c ∷ [];
    }
    → IsAccounted ((c, true) ∷ []) k k'
unfolding frames_taken tally
taken-IsAccounted c k k' h b n q e = rw e (record {
  frames = refl;
  asked = omega (arith, n);
  overflow = omega (arith, n, b.overflow);
  dropped = omega (arith, q, b.dropped);
  instrument = refl;
  venue_name = refl;
  hooked = h;
})

-- Only counters change.
lost-IsAccounted :
    (c : Call) (k : Sink) (bytes : List ℕ) (n m r : ℕ)
    → k.has_resync_hook ≡ true
    → n ≡ (k.overflow_count + needs_resync (c, false)) % 2 ^ 64
    → m ≡ (k.quote_drop_count + loses_quote (c, false)) % 2 ^ 64
    → r ≡ k.resyncs + needs_resync (c, false)
    → IsAccounted
        ((c, false) ∷ [])
        k
        (record k { encode_buf = bytes; overflow_count = n; quote_drop_count = m; resyncs = r })
unfolding frames_taken tally
lost-IsAccounted c k bytes n m r h e f g = record {
  frames = sym (append-nil k.sent);
  asked = omega (arith, g);
  overflow = omega (arith, e);
  dropped = omega (arith, f);
  instrument = refl;
  venue_name = refl;
  hooked = h;
}

escalate-hook :
    (k : Sink)
    → k.has_resync_hook ≡ true
    → escalate (false, k) ≡ record k { resyncs = k.resyncs + 1 }
unfolding escalate
escalate-hook k h = elim (Bool-cases k.has_resync_hook) [
  | inl a ↦ simp (a) refl
  | inr a ↦ absurd (cc)
]

call-IsAccounted :
    (x : Attempt) (k : Sink)
    → k.has_resync_hook ≡ true
    → HasCounters k
    → IsAccounted (x ∷ []) k (call x k)
unfolding call send_hello send_goodbye on_update on_bbo_quote on_health_event send_update
    send_health send_frame count_overflow count_drop escalate frames_taken tally
call-IsAccounted (greeting, true) k h b = taken-IsAccounted greeting k _ h b refl refl refl
call-IsAccounted (farewell r, true) k h b = taken-IsAccounted (farewell r) k _ h b refl refl refl
call-IsAccounted (update u, true) k h b = taken-IsAccounted (update u) k _ h b refl refl refl
call-IsAccounted (quote q, true) k h b = taken-IsAccounted (quote q) k _ h b refl refl refl
call-IsAccounted (verdict e, true) k h b = taken-IsAccounted (verdict e) k _ h b refl refl refl
call-IsAccounted (greeting, false) k h b =
    lost-IsAccounted greeting k _ _ _ _ h (omega (arith, b.overflow)) (omega (arith, b.dropped))
      (omega arith)
call-IsAccounted (farewell r, false) k h b =
    lost-IsAccounted (farewell r) k _ _ _ _ h (omega (arith, b.overflow)) (omega (arith, b.dropped))
      (omega arith)
call-IsAccounted (update u, false) k h b =
    subst (IsAccounted ((update u, false) ∷ []) k) (sym (escalate-hook _ h))
      (lost-IsAccounted (update u) k _ _ _ _ h refl (omega (arith, b.dropped)) refl)
call-IsAccounted (quote q, false) k h b =
    lost-IsAccounted (quote q) k _ _ _ _ h (omega (arith, b.overflow)) refl (omega arith)
call-IsAccounted (verdict e, false) k h b =
    subst (IsAccounted ((verdict e, false) ∷ []) k) (sym (escalate-hook _ h))
      (lost-IsAccounted (verdict e) k _ _ _ _ h refl (omega (arith, b.dropped)) refl)

IsAccounted-HasCounters : (xs : List Attempt) (k k' : Sink) → IsAccounted xs k k' → HasCounters k'
IsAccounted-HasCounters xs k k' h = record {
  overflow = omega (arith, h.overflow);
  dropped = omega (arith, h.dropped);
}

frames_taken-same :
    (k k' : Sink) (xs : List Attempt)
    → k'.instrument ≡ k.instrument
    → k'.venue_name ≡ k.venue_name
    → frames_taken k' xs ≡ frames_taken k xs
unfolding frames_taken
frames_taken-same k k' [] e f = refl
frames_taken-same k k' ((greeting, true) ∷ xs) e f = rw (e, f, frames_taken-same k k' xs e f) refl
frames_taken-same k k' ((farewell r, true) ∷ xs) e f = rw (frames_taken-same k k' xs e f) refl
frames_taken-same k k' ((update u, true) ∷ xs) e f = rw (frames_taken-same k k' xs e f) refl
frames_taken-same k k' ((quote q, true) ∷ xs) e f = rw (frames_taken-same k k' xs e f) refl
frames_taken-same k k' ((verdict v, true) ∷ xs) e f = rw (frames_taken-same k k' xs e f) refl
frames_taken-same k k' ((c, false) ∷ xs) e f = frames_taken-same k k' xs e f

-- After any sequence of calls of a sink with a hook, with any answers of the socket: the frames that
-- the socket has taken are the accepted calls', in order, every update and every verdict that was
-- refused has called the hook once, and the two counters count these and the quotes refused, modulo
-- 2^64.
pub run_calls-IsAccounted :
    (xs : List Attempt) (k : Sink)
    → k.has_resync_hook ≡ true
    → HasCounters k
    → IsAccounted xs k (run_calls xs k)
unfolding run_calls frames_taken tally
run_calls-IsAccounted [] k h b = record {
  frames = sym (append-nil k.sent);
  asked = omega arith;
  overflow = omega (arith, b.overflow);
  dropped = omega (arith, b.dropped);
  instrument = refl;
  venue_name = refl;
  hooked = h;
}
run_calls-IsAccounted (x ∷ xs) k h b =
    let first = call-IsAccounted x k h b in
    let rest =
      run_calls-IsAccounted xs (call x k) first.hooked
        (IsAccounted-HasCounters (x ∷ []) k (call x k) first) in
    record {
      frames =
          rest.frames
          ∙ ap₂ (λ sent new. sent ++ new)
              (first.frames ∙ ap (λ new. k.sent ++ new) (append-nil (taken_frame k x)))
              (frames_taken-same k (call x k) xs first.instrument first.venue_name)
          ∙ append_assoc k.sent (taken_frame k x) (frames_taken k xs);
      asked = omega (arith, first.asked, rest.asked);
      overflow = omega (arith, first.overflow, rest.overflow);
      dropped = omega (arith, first.dropped, rest.dropped);
      instrument = rest.instrument ∙ first.instrument;
      venue_name = rest.venue_name ∙ first.venue_name;
      hooked = rest.hooked;
    }
