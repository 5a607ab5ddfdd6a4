-- ===== src/Dedup/Once.antt =====
-- Line arbitration (md_provider/seq_dedup.h): connections that carry the same stream, each at its own
-- pace, in any interleaving.
use aggregated_order_book.Base.{
  All-set, get_or-All, ℕ, zero, suc, ◌+◌, ◌≤◌, ◌≡◌, refl, sym, ap, subst, ◌∙◌, inl, Bool, true,
  false, Option, none, some, List, [], ◌∷◌, ◌++◌, append_assoc, arith, if◌then◌else◌, length,
  get_elem?, get_or, set, replicate, All, length-append, All-map,
}
use aggregated_order_book.Dedup.{SeqDedup, new_dedup, rotate, drop_copy, accept, Delivery, passed}
use aggregated_order_book.Dedup.Marks.{
  ended, old, fresh, Next, Ascending, deliveries, reached, Mark, Next, next_lem, accept-old,
  accept-fresh, Mark-rotate, ended, old,
}

-- Of what is left of the stream, the ids that pass are the next ones, and no connection is ahead.
abbrev Outcome : List ℕ → List ℕ → List ℕ → List ℕ → Type 0
Outcome done todo xs positions =
    ((rest : List ℕ) × (todo ≡ xs ++ rest)) × All (λ p. p ≤ length done + length xs) positions

-- A turn whose connection has the message `id` next.
module _ (stream positions : List ℕ) (c : ℕ) (cs : List ℕ) (id : ℕ) where
  deliveries-next :
      get_elem? stream (get_or positions c 0) ≡ some id
      → deliveries stream positions (c ∷ cs)
        ≡ record { id = id; conn_index = c; is_reset = false }
          ∷ deliveries stream (set positions c (suc (get_or positions c 0))) cs
  unfolding deliveries
  deliveries-next e = rw (e, deliveries) refl

  reached-next :
      get_elem? stream (get_or positions c 0) ≡ some id
      → reached stream positions (c ∷ cs)
        ≡ reached stream (set positions c (suc (get_or positions c 0))) cs
  unfolding reached
  reached-next e = rw (e, reached) refl

module _ (stream positions : List ℕ) (c : ℕ) (cs : List ℕ) where
  deliveries-silent :
      get_elem? stream (get_or positions c 0) ≡ none
      → deliveries stream positions (c ∷ cs) ≡ deliveries stream positions cs
  unfolding deliveries
  deliveries-silent e = rw (e, deliveries) refl

  reached-silent :
      get_elem? stream (get_or positions c 0) ≡ none
      → reached stream positions (c ∷ cs) ≡ reached stream positions cs
  unfolding reached
  reached-silent e = rw (e, reached) refl

pub passed-cons :
    (s s' : SeqDedup) (m : Delivery) (ms : List Delivery) (ok : Bool)
    → accept s m.id m.conn_index m.is_reset ≡ (ok, s')
    → passed s (m ∷ ms) ≡ (if ok then m.id ∷ passed s' ms else passed s' ms)
unfolding passed
passed-cons s s' m ms ok e = rw e refl

Outcome-fresh :
    (done todo todo' : List ℕ) (id : ℕ) (xs positions : List ℕ)
    → todo ≡ id ∷ todo'
    → Outcome (done ++ id ∷ []) todo' xs positions
    → Outcome done todo (id ∷ xs) positions
Outcome-fresh done todo todo' id xs positions g ((rest, e), h) = (
  (rest, g ∙ ap (◌∷◌ id) e),
  All-map (λ p. p ≤ length (done ++ id ∷ []) + length xs) (λ p. p ≤ length done + suc (length xs))
      (λ p l. omega (arith, length-append done (id ∷ []))) positions h,
)

Within-snoc :
    (done : List ℕ) (id : ℕ) (positions : List ℕ)
    → All (λ p. p ≤ length done) positions
    → All (λ p. p ≤ length (done ++ id ∷ [])) positions
Within-snoc done id positions =
    All-map (λ p. p ≤ length done) (λ p. p ≤ length (done ++ id ∷ []))
      (λ p l. omega (arith, length-append done (id ∷ []))) positions

All-zero : (n : ℕ) → All (λ p. p ≤ 0) (replicate n 0)
All-zero zero = tt
All-zero (suc n) = (omega arith, All-zero n)

-- The state and the split of the stream at any moment.
Claim : List ℕ → List ℕ → Type 0
Claim stream cs =
    (done todo : List ℕ) (s : SeqDedup) (positions : List ℕ)
    → stream ≡ done ++ todo
    → Ascending todo
    → Mark s done todo
    → All (λ p. p ≤ length done) positions
    → Outcome done todo (passed s (deliveries stream positions cs)) (reached stream positions cs)

arbitrate-turn :
    (stream : List ℕ) (c : ℕ) (cs : List ℕ) (done todo : List ℕ) (s : SeqDedup) (positions : List ℕ)
    → Claim stream cs
    → stream ≡ done ++ todo
    → Ascending todo
    → Mark s done todo
    → All (λ p. p ≤ length done) positions
    → (o : Option ℕ) → get_elem? stream (get_or positions c 0) ≡ o
    → Next done todo (get_or positions c 0) o
    → Outcome done todo
        (passed s (deliveries stream positions (c ∷ cs)))
        (reached stream positions (c ∷ cs))
unfolding Claim
arbitrate-turn stream c cs done todo s positions ih e a k h _ f ended =
    rw (deliveries-silent stream positions c cs f, reached-silent stream positions c cs f)
      (ih done todo s positions e a k h)
arbitrate-turn stream c cs done todo s positions ih e a k h _ f (old id h' g) =
    rw
      (
        deliveries-next stream positions c cs id f,
        reached-next stream positions c cs id f,
        passed-cons s (drop_copy s c) (record { id = id; conn_index = c; is_reset = false })
            (deliveries stream (set positions c (suc (get_or positions c 0))) cs) false
            (accept-old s done todo (get_or positions c 0) id c k g),
      )
      (ih done todo (drop_copy s c) (set positions c (suc (get_or positions c 0))) e a k
        (All-set (λ p. p ≤ length done) positions c (suc (get_or positions c 0)) h h'))
arbitrate-turn stream c cs done todo s positions ih e a k h _ f (fresh id todo' h' g) =
    rw
      (
        deliveries-next stream positions c cs id f,
        reached-next stream positions c cs id f,
        passed-cons s (rotate s id c) (record { id = id; conn_index = c; is_reset = false })
            (deliveries stream (set positions c (suc (get_or positions c 0))) cs) true
            (accept-fresh s done todo' id c (subst (Mark s done) g k)),
      )
      (Outcome-fresh done todo todo' id _ _ g (
        ih (done ++ id ∷ []) todo' (rotate s id c) (set positions c (suc (get_or positions c 0)))
          (e ∙ ap (◌++◌ done) g ∙ sym (append_assoc done (id ∷ []) todo')) (subst Ascending g a).1
          (Mark-rotate s done todo' id c (subst (Mark s done) g k) (subst Ascending g a))
          (All-set (λ p. p ≤ length (done ++ id ∷ [])) positions c (suc (get_or positions c 0))
            (Within-snoc done id positions h) (omega (arith, h', length-append done (id ∷ []))))))

arbitrate : (stream cs : List ℕ) → Claim stream cs
unfolding Claim deliveries reached passed
arbitrate stream [] done todo s positions e a k h = (
  (todo, refl),
  All-map (λ p. p ≤ length done) (λ p. p ≤ length done + 0) (λ p l. omega arith) positions h,
)
arbitrate stream (c ∷ cs) done todo s positions e a k h =
    arbitrate-turn stream c cs done todo s positions (arbitrate stream cs) e a k h
      (get_elem? stream (get_or positions c 0)) refl
      (subst (λ xs. Next done todo (get_or positions c 0) (get_elem? xs (get_or positions c 0)))
        (sym e)
        (next_lem done todo (get_or positions c 0)
          (get_or-All (λ p. p ≤ length done) positions c 0 h (omega arith))))

-- However the deliveries of any number of connections that carry the same strictly ascending stream
-- interleave, the ids that `Accept` lets pass are a prefix of the stream, each id once and none left
-- out, and everything that any connection has delivered is in it.
pub passed-deliveries :
    (stream cs : List ℕ) (n : ℕ)
    → Ascending stream
    → ((rest : List ℕ) × (stream ≡ passed new_dedup (deliveries stream (replicate n 0) cs) ++ rest))
      × All
          (λ p. p ≤ length (passed new_dedup (deliveries stream (replicate n 0) cs)))
          (reached stream (replicate n 0) cs)
unfolding Claim
passed-deliveries stream cs n a =
    let xs = passed new_dedup (deliveries stream (replicate n 0) cs) in
    let (whole, within) =
      arbitrate stream cs [] stream new_dedup (replicate n 0) refl a (inl (refl, refl))
        (All-zero n) in
    (
      whole,
      All-map (λ p. p ≤ 0 + length xs) (λ p. p ≤ length xs) (λ p l. omega arith)
          (reached stream (replicate n 0) cs) within,
    )
