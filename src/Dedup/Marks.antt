-- ===== src/Dedup/Marks.antt =====
-- Streams of ids, the turns in which connections deliver them, and the mark of SeqDedup among them.
use aggregated_order_book.Base.{
  All-get_elem?, ℕ, zero, suc, ◌≤◌, ◌<◌, ◌≡◌, refl, sym, ap, subst, ◌⊎◌, inl, inr, true, false,
  Option, none, some, List, [], ◌∷◌, ◌++◌, arith, length, get_elem?, get_or, set, All, All-append,
  All-map,
}
use aggregated_order_book.Dedup.{SeqDedup, rotate, drop_copy, is_duplicate, accept, Delivery}

-- Ids that strictly ascend.
abbrev pub Ascending : List ℕ → Type 0
Ascending [] = Unit
Ascending (x ∷ xs) = All (λ y. x < y) xs × Ascending xs

-- What reaches the provider when the connection of each turn delivers its next message of `stream`.
-- A connection that has delivered all of it stays silent.
unfoldable pub deliveries : List ℕ → List ℕ → List ℕ → List Delivery
deliveries stream positions [] = []
deliveries stream positions (c ∷ cs) =
    let p = get_or positions c 0 in
    let silent = deliveries stream positions cs in
    let next = deliveries stream (set positions c (suc p)) cs in
    elim (get_elem? stream p) [
      | none ↦ silent
      | some id ↦ record { id = id; conn_index = c; is_reset = false } ∷ next
    ]

-- Where those turns leave the connections.
unfoldable pub reached : List ℕ → List ℕ → List ℕ → List ℕ
reached stream positions [] = positions
reached stream positions (c ∷ cs) =
    let p = get_or positions c 0 in
    let silent = reached stream positions cs in
    let next = reached stream (set positions c (suc p)) cs in
    elim (get_elem? stream p) [ none ↦ silent | some id ↦ next ]

-- The high-water mark stands between what has passed and what has not.
abbrev pub Mark : SeqDedup → List ℕ → List ℕ → Type 0
Mark s done todo =
    ((s.seen ≡ false) × (done ≡ []))
    ⊎ ((s.seen ≡ true) × All (λ y. y ≤ s.last) done × All (λ y. s.last < y) todo)

-- The next message of a connection: an old one, or the first that has not passed.
pub data Next (done todo : List ℕ) (p : ℕ) : Option ℕ → Type 0 where
  ended : Next done todo p none
  old : (id : ℕ) → suc p ≤ length done → get_elem? done p ≡ some id → Next done todo p (some id)
  fresh :
      (id : ℕ) (todo' : List ℕ) → p ≡ length done → todo ≡ id ∷ todo' → Next done todo p (some id)

Next-cons :
    (x : ℕ) (done todo : List ℕ) (p : ℕ) (o : Option ℕ)
    → Next done todo p o
    → Next (x ∷ done) todo (suc p) o
Next-cons x done todo p _ ended = ended
Next-cons x done todo p _ (old id h e) = old id (omega arith) e
Next-cons x done todo p _ (fresh id todo' h e) = fresh id todo' (ap suc h) e

pub next_lem :
    (done todo : List ℕ) (p : ℕ) → p ≤ length done → Next done todo p (get_elem? (done ++ todo) p)
next_lem [] [] p h = ended
next_lem [] (x ∷ todo) zero h = fresh x todo refl refl
next_lem [] (x ∷ todo) (suc p) h = absurd (omega arith)
next_lem (x ∷ done) todo zero h = old x (omega arith) refl
next_lem (x ∷ done) todo (suc p) h =
    Next-cons x done todo p (get_elem? (done ++ todo) p) (next_lem done todo p (omega arith))

-- An old id is at most the mark, so that it is dropped.
pub accept-old :
    (s : SeqDedup) (done todo : List ℕ) (p id c : ℕ)
    → Mark s done todo
    → get_elem? done p ≡ some id
    → accept s id c false ≡ (false, drop_copy s c)
unfolding accept is_duplicate
accept-old s done todo p id c (inl (h, e)) g =
    let none_id : none ≡ some id = subst (λ d. get_elem? d p ≡ some id) e g in absurd (cc)
accept-old s done todo p id c (inr (h, k, _)) g =
    let le : id ≤ s.last = All-get_elem? (λ y. y ≤ s.last) done p id k g in ground (arith, h, le)

-- The first id that has not passed is above it.
pub accept-fresh :
    (s : SeqDedup) (done todo : List ℕ) (id c : ℕ)
    → Mark s done (id ∷ todo)
    → accept s id c false ≡ (true, rotate s id c)
unfolding accept is_duplicate
accept-fresh s done todo id c (inl (h, e)) = ground (arith, h)
accept-fresh s done todo id c (inr (h, _, k)) = ground (arith, h, k.0)

pub Mark-rotate :
    (s : SeqDedup) (done todo : List ℕ) (id c : ℕ)
    → Mark s done (id ∷ todo)
    → Ascending (id ∷ todo)
    → Mark (rotate s id c) (done ++ id ∷ []) todo
unfolding rotate
Mark-rotate s done todo id c (inl (h, e)) a =
    inr (refl, subst (λ d. All (λ y. y ≤ id) (d ++ id ∷ [])) (sym e) (omega arith, tt), a.0)
Mark-rotate s done todo id c (inr (h, k, k')) a = inr (
  refl,
  All-append (λ y. y ≤ id) done (id ∷ [])
      (All-map (λ y. y ≤ s.last) (λ y. y ≤ id) (λ y e. omega (arith, k'.0)) done k)
      (omega arith, tt),
  a.0,
)

-- An id above the mark passes, whatever came before.
pub accept-above :
    (s : SeqDedup) (id c : ℕ) → s.last < id → accept s id c false ≡ (true, rotate s id c)
unfolding accept is_duplicate
accept-above s id c h = ground (arith, h)
