-- ===== src/State/Change.antt =====
-- `ApplyOneChange`: one venue's transition at one price, and everything else as it was.
use aggregated_order_book.Base.{
  ℕ, ◌^◌, ◌<◌, ◌≡◌, subst, ◌≢◌, inl, inr, true, ◌&&◌, Option, List, [], ◌∷◌, arith, ◌==◌,
  if◌then◌else◌, Bool-cases,
}
use aggregated_order_book.Types.{LevelChange, max_venues}
use aggregated_order_book.Book.Order.{StorageLess, storage_less}
use aggregated_order_book.Bbo.Venues.{find_slot, qty_or_zero}
use aggregated_order_book.Merged.{MergedLevel}
use aggregated_order_book.Merged.Held.{held, RanksAhead, IsLevel, IsMergedSide, held_ahead}
use aggregated_order_book.State.{insert_change}
use aggregated_order_book.State.Level.{Attributes}

-- The quantities after a change of venue `slot`.
abbrev pub changed_at : List MergedLevel → ℕ → LevelChange → ℕ → ℕ → ℕ
changed_at side slot c i p = if (i == slot) && (c.price == p) then c.new_qty else held side i p

pub record IsChanged (t : StorageLess) (side : List MergedLevel) (slot : ℕ) (c : LevelChange)
    (out : List MergedLevel) : Type 0 where
  pub side_ok : IsMergedSide t out
  pub quantities : (i p : ℕ) → held out i p ≡ changed_at side slot c i p
  pub behind : (b : ℕ) → storage_less t b c.price ≡ true → RanksAhead t b side → RanksAhead t b out

-- A change that a uint64_t quantity of one of the eight venues can make.
abbrev pub IsChange : ℕ → LevelChange → Type 0
IsChange slot c = (slot < max_venues) × (c.new_qty < 2 ^ 64)

abbrev fresh_level : ℕ → LevelChange → MergedLevel
fresh_level slot c = record {
  price = c.price;
  venues = record { slot = slot; qty = c.new_qty } ∷ [];
  qty = c.new_qty;
}

fresh_level-IsLevel :
    (slot : ℕ) (c : LevelChange) → IsChange slot c → c.new_qty ≢ 0 → IsLevel (fresh_level slot c)
fresh_level-IsLevel slot c h n = record {
  slots = (omega arith, h.0, (n, h.1), tt);
  attributed = λ e. cc;
  total = omega (arith, h.1);
}

pub nothing_at :
    (t : StorageLess) (side : List MergedLevel) (x i p : ℕ)
    → RanksAhead t x side
    → (x == p) ≡ true
    → held side i p ≡ 0
nothing_at t side x i p a e =
    held_ahead t p side i (subst (λ y. RanksAhead t y side) (ground (arith, e)) a)

unchanged_at :
    (t : StorageLess) (side : List MergedLevel) (slot : ℕ) (c : LevelChange) (i p : ℕ)
    → RanksAhead t c.price side
    → c.new_qty ≡ 0
    → held side i p ≡ changed_at side slot c i p
unchanged_at t side slot c i p a e = elim (Bool-cases (c.price == p)) [
  | inl f ↦ ground (arith, e, f, nothing_at t side c.price i p a f)
  | inr f ↦ ground (arith, e, f)
]

fresh_at :
    (t : StorageLess) (side : List MergedLevel) (slot : ℕ) (c : LevelChange) (i p : ℕ)
    → RanksAhead t c.price side
    → held (fresh_level slot c ∷ side) i p ≡ changed_at side slot c i p
unfolding find_slot
fresh_at t side slot c i p a = elim (Bool-cases (c.price == p)) [
  | inl f ↦ ground (arith, f, nothing_at t side c.price i p a f)
  | inr f ↦ ground (arith, f)
]

-- A price that no level has.
pub insert_change-IsChanged :
    (t : StorageLess) (side : List MergedLevel) (slot : ℕ) (c : LevelChange)
    → IsChange slot c
    → RanksAhead t c.price side
    → IsMergedSide t side
    → IsChanged t side slot c (insert_change side slot c).0
unfolding insert_change find_slot
insert_change-IsChanged t side slot c h a k = elim (Bool-cases (c.new_qty == 0)) [
  | inl e ↦
      rw (e, insert_change)
        (record {
          side_ok = k;
          quantities = λ i p. unchanged_at t side slot c i p a (ground (arith, e));
          behind = λ b l r. r;
        })
  | inr e ↦
      rw (e, insert_change)
        (record {
          side_ok = record {
            sorted = (a, k.sorted);
            levels = (fresh_level-IsLevel slot c h (ground (arith, e)), k.levels);
          };
          quantities = λ i p. fresh_at t side slot c i p a;
          behind = λ b l r. (l, r);
        })
]

-- A level whose venue's quantity is written: what the side says then.
pub level_at :
    (l l' : MergedLevel) (ls : List MergedLevel) (slot : ℕ) (c : LevelChange) (o : Option ℕ)
    (i p : ℕ)
    → Attributes l slot o l'
    → l.price ≡ c.price
    → qty_or_zero o ≡ c.new_qty
    → held (l' ∷ ls) i p ≡ changed_at (l ∷ ls) slot c i p
level_at l l' ls slot c o i p a e q = elim (Bool-cases (i == slot)) [
  | inl f ↦ rw (a.find i, f) (ground (arith, a.price, e, q, f))
  | inr f ↦ rw (a.find i, f) (ground (arith, a.price, e, q, f))
]
