-- ===== src/State/Delta.antt =====
-- `ApplyOneChange` by induction on the side, and `ApplyDepthDelta`.
use aggregated_order_book.Base.{
  ℕ, ◌≡◌, refl, sym, ap, subst, ◌∙◌, inl, inr, true, false, List, [], ◌∷◌, arith, ◌==◌,
  if◌then◌else◌, Bool-cases, All,
}
use aggregated_order_book.Types.{LevelChange}
use aggregated_order_book.Book.Order.{StorageLess, storage_less, before, after, same, Order-cases}
use aggregated_order_book.Book.Changes.{replay_at}
use aggregated_order_book.Merged.{MergedLevel}
use aggregated_order_book.Merged.Held.{held, IsMergedSide, RanksAhead-trans}
use aggregated_order_book.State.{
  insert_change, change_from, lower_bound, apply_one_change, apply_changes,
}
use aggregated_order_book.State.Change.{changed_at, IsChanged, IsChange, insert_change-IsChanged}
use aggregated_order_book.State.Repair.{match-IsChanged}

module _ (t : StorageLess) (l : MergedLevel) (ls : List MergedLevel) (slot : ℕ)
    (c : LevelChange) where
  apply_one_change-ahead :
      storage_less t l.price c.price ≡ true
      → (apply_one_change t (l ∷ ls) slot c).0 ≡ l ∷ (apply_one_change t ls slot c).0
  unfolding apply_one_change lower_bound
  apply_one_change-ahead e = rw (e, lower_bound) refl

  apply_one_change-here :
      storage_less t l.price c.price ≡ false
      → (apply_one_change t (l ∷ ls) slot c).0 ≡ (change_from (l ∷ ls) slot c).0
  unfolding apply_one_change lower_bound
  apply_one_change-here e = rw (e, lower_bound) refl

  change_from-insert :
      (l.price == c.price) ≡ false
      → (change_from (l ∷ ls) slot c).0 ≡ (insert_change (l ∷ ls) slot c).0
  unfolding change_from
  change_from-insert e = rw (e, change_from) refl

  ahead-IsChanged :
      (out : List MergedLevel)
      → IsMergedSide t (l ∷ ls)
      → storage_less t l.price c.price ≡ true
      → IsChanged t ls slot c out
      → IsChanged t (l ∷ ls) slot c (l ∷ out)
  ahead-IsChanged out k e r = record {
    side_ok = record {
      sorted = (r.behind l.price e k.sorted.0, r.side_ok.sorted);
      levels = (k.levels.0, r.side_ok.levels);
    };
    quantities = λ i p. ground (arith, e, r.quantities i p);
    behind = λ b h g. (g.0, r.behind b h g.1);
  }

apply_one_change-IsChanged :
    (t : StorageLess) (side : List MergedLevel) (slot : ℕ) (c : LevelChange)
    → IsChange slot c
    → IsMergedSide t side
    → IsChanged t side slot c (apply_one_change t side slot c).0
unfolding apply_one_change lower_bound change_from
apply_one_change-IsChanged t [] slot c h k = insert_change-IsChanged t [] slot c h tt k
apply_one_change-IsChanged t (l ∷ ls) slot c h k = elim (Order-cases t l.price c.price) [
  | before e ↦ rw (apply_one_change-ahead t l ls slot c e) (
      ahead-IsChanged t l ls slot c (apply_one_change t ls slot c).0 k e (
        apply_one_change-IsChanged t ls slot c h
          (record { sorted = k.sorted.1; levels = k.levels.1 })))
  | after e f ↦
      rw
        (
          apply_one_change-here t l ls slot c e,
          change_from-insert t l ls slot c (ground (arith, f)),
        )
        (insert_change-IsChanged t (l ∷ ls) slot c h
          (f, RanksAhead-trans t c.price l.price ls f k.sorted.0) k)
  | same e f g ↦ rw (apply_one_change-here t l ls slot c e) (match-IsChanged t l ls slot c h k g)
]

-- The quantities after the changes of venue `slot`, in turn.
abbrev pub replayed : List MergedLevel → ℕ → List LevelChange → ℕ → ℕ → ℕ
replayed side slot cs i p = if i == slot then replay_at cs p (held side slot p) else held side i p

replayed_none : (side : List MergedLevel) (slot i p : ℕ) → held side i p ≡ replayed side slot [] i p
replayed_none side slot i p = elim (Bool-cases (i == slot)) [
  | inl e ↦ rw e (subst (λ x. held side x p ≡ held side slot p) (sym (ground (arith, e))) refl)
  | inr e ↦ rw e refl
]

replayed_cons :
    (side out : List MergedLevel) (slot : ℕ) (c : LevelChange) (cs : List LevelChange) (i p : ℕ)
    → ((i p : ℕ) → held out i p ≡ changed_at side slot c i p)
    → replayed out slot cs i p ≡ replayed side slot (c ∷ cs) i p
replayed_cons side out slot c cs i p h = elim (Bool-cases (i == slot)) [
  | inl e ↦
      let same_slot : (slot == slot) ≡ true = ground arith in
      let now : held out slot p ≡ (if c.price == p then c.new_qty else held side slot p) =
        h slot p ∙ rw same_slot refl in
      rw e (ap (replay_at cs p) now)
  | inr e ↦ rw e (h i p ∙ rw e refl)
]

-- The changes keep a side well-formed, and give venue `slot` the quantities that they lead to.
pub apply_changes-IsMergedSide :
    (t : StorageLess) (slot : ℕ) (side : List MergedLevel) (cs : List LevelChange)
    → All (IsChange slot) cs
    → IsMergedSide t side
    → IsMergedSide t (apply_changes t slot side cs).0
      × ((i p : ℕ) → held (apply_changes t slot side cs).0 i p ≡ replayed side slot cs i p)
unfolding apply_changes
apply_changes-IsMergedSide t slot side [] h k = (k, λ i p. replayed_none side slot i p)
apply_changes-IsMergedSide t slot side (c ∷ cs) h k =
    let r = apply_one_change-IsChanged t side slot c h.0 k in
    let (ok, q) =
      apply_changes-IsMergedSide t slot (apply_one_change t side slot c).0 cs h.1 r.side_ok in
    (
      ok,
      λ i p.
          q i p ∙ replayed_cons side (apply_one_change t side slot c).0 slot c cs i p r.quantities,
    )
