-- ===== src/Core/Standing.antt =====
-- The standing book of one instrument: after every depth update it is the merge of the venues' books,
-- whichever way `ProcessUpdate` has taken.
use aggregated_order_book.Base.{
  ℕ, ◌-◌, ◌^◌, ◌<◌, ◌≡◌, refl, sym, ap, subst, ◌∙◌, inl, inr, true, false, not, ◌||◌, Option, none,
  some, List, arith, ltb, ◌==◌, Bool-cases, get_elem?, get_or, set, get_or-set_ne, All-get_elem?,
}
use aggregated_order_book.Types.{PriceLevel, BookUpdate, VenueHealthArray, is_admissible, no_data}
use aggregated_order_book.Book.{FlatOrderBook, bids_view, asks_view, apply_update}
use aggregated_order_book.Book.Order.{StorageLess, less, greater}
use aggregated_order_book.Book.Update.{IsWellFormed, apply_update-IsValidBook}
use aggregated_order_book.Bbo.{admits}
use aggregated_order_book.Merged.{MergedLevel, MergedBook}
use aggregated_order_book.Merged.Unique.{IsMergedSide-unique}
use aggregated_order_book.Merge.{FlatBookArray, merge_books}
use aggregated_order_book.Merge.Books.{IsSound, IsUint}
use aggregated_order_book.Merge.Result.{brought, Merges, merge_books-Merges}
use aggregated_order_book.State.{State, apply_changes, apply_depth_delta, full_rebuild}
use aggregated_order_book.State.Refine.{Fits, apply_depth_delta-full_rebuild}
use aggregated_order_book.Core.Arrays.{
  AreBooks, get_or-take, get_elem?-take, get_or-some, set-AreBooks,
}
use aggregated_order_book.Core.Ingest.{consolidate}

-- Both sides of a consolidated book are the merge of the admitted venues' books.
pub record IsMergeOf (health : VenueHealthArray) (books : FlatBookArray) (b : MergedBook)
    : Type 0 where
  pub bids : Merges greater bids_view (some health) books b.bids
  pub asks : Merges less asks_view (some health) books b.asks

-- The same slots bring in the same quantities.
Merges-ext :
    (t : StorageLess) (view : FlatOrderBook → List PriceLevel)
    (health health' : Option VenueHealthArray) (books books' : FlatBookArray)
    (side : List MergedLevel)
    → ((i p : ℕ)
        → brought view health i (get_or books i none) p
          ≡ brought view health' i (get_or books' i none) p)
    → Merges t view health books side
    → Merges t view health' books' side
Merges-ext t view health health' books books' side e m = record {
  side_ok = m.side_ok;
  quantities = λ i p. m.quantities i p ∙ e i p;
}

pub merge_books-IsMergeOf :
    (out : MergedBook) (n : ℕ) (health : VenueHealthArray) (books : FlatBookArray)
    → AreBooks n books
    → Fits (some health) n books
    → IsMergeOf health books (merge_books out books n (2 ^ 64 - 1) (some health))
merge_books-IsMergeOf out n health books h f =
    let (b, a) =
      merge_books-Merges out books n (2 ^ 64 - 1) (some health) (omega (arith, h.size)) h.sound
        f.bids f.asks in
    record {
      bids =
          Merges-ext greater bids_view _ _ _ _ _
            (λ i p.
              ap (λ x. brought bids_view (some health) i x p) (get_or-take n books i h.beyond))
            b;
      asks =
          Merges-ext less asks_view _ _ _ _ _
            (λ i p.
              ap (λ x. brought asks_view (some health) i x p) (get_or-take n books i h.beyond))
            a;
    }

Merges-unique :
    (t : StorageLess) (view : FlatOrderBook → List PriceLevel) (health : Option VenueHealthArray)
    (books : FlatBookArray) (a b : List MergedLevel)
    → Merges t view health books a
    → Merges t view health books b
    → a ≡ b
Merges-unique t view health books a b h k =
    IsMergedSide-unique t a b h.side_ok k.side_ok (λ i p. h.quantities i p ∙ sym (k.quantities i p))

complete_lem :
    (old : FlatOrderBook) (u : BookUpdate)
    → (apply_update old u).last_changes_complete ≡ not u.is_snapshot
unfolding apply_update
complete_lem old u = refl

-- The books before and after a depth update, and what the update and the books have to be.
pub record IsUpdate (n : ℕ) (health : VenueHealthArray) (books : FlatBookArray) (slot : ℕ)
    (old : FlatOrderBook) (u : BookUpdate) : Type 0 where
  pub books_ok : AreBooks n books
  pub stands : get_elem? books slot ≡ some (some old)
  pub well_formed : IsWellFormed u
  pub new_bids : IsUint (apply_update old u).bids
  pub new_asks : IsUint (apply_update old u).asks
  pub fits : Fits (some health) n books
  pub new_fits : Fits (some health) n (set books slot (some (apply_update old u)))

brought_excluded :
    (view : FlatOrderBook → List PriceLevel) (health : Option VenueHealthArray) (i p : ℕ)
    (b : Option FlatOrderBook)
    → admits health i ≡ false
    → brought view health i b p ≡ 0
brought_excluded view health i p none a = refl
brought_excluded view health i p (some b) a = rw a refl

-- A venue that is not admitted brings in nothing, whatever its book.
pub brought-set_excluded :
    (view : FlatOrderBook → List PriceLevel) (health : Option VenueHealthArray)
    (books : FlatBookArray) (slot : ℕ) (b : Option FlatOrderBook) (i p : ℕ)
    → admits health slot ≡ false
    → brought view health i (get_or books i none) p
      ≡ brought view health i (get_or (set books slot b) i none) p
brought-set_excluded view health books slot b i p a = elim (Bool-cases (i == slot)) [
  | inl e ↦
      let x : admits health i ≡ false = ap (admits health) (ground (arith, e)) ∙ a in
      brought_excluded view health i p (get_or books i none) x
      ∙ sym (brought_excluded view health i p (get_or (set books slot b) i none) x)
  | inr e ↦
      ap (λ x. brought view health i x p)
        (sym (get_or-set_ne books slot i b none (ground (arith, e))))
]

module _ (n : ℕ) (health : VenueHealthArray) (books : FlatBookArray) (slot : ℕ)
    (old : FlatOrderBook) (u : BookUpdate) (h : IsUpdate n health books slot old u) where
  update-IsSound : IsSound (some (apply_update old u))
  update-IsSound =
      let k = All-get_elem? IsSound books slot (some old) h.books_ok.sound h.stands in
      (apply_update-IsValidBook old u k.0 h.well_formed, h.new_bids, h.new_asks)

  delta-IsMergeOf :
      (s : State)
      → u.is_snapshot ≡ false
      → admits (some health) slot ≡ true
      → IsMergeOf health books s.book
      → AreBooks n (set books slot (some (apply_update old u)))
      → IsMergeOf health
          (set books slot (some (apply_update old u)))
          (apply_depth_delta s slot
            (apply_update old u).last_bid_changes
            (apply_update old u).last_ask_changes).book
  unfolding apply_depth_delta full_rebuild
  delta-IsMergeOf s d a m k =
      let new = apply_update old u in
      let start = merge_books-IsMergeOf s.book n health books h.books_ok h.fits in
      let target = merge_books-IsMergeOf s.book n health (set books slot (some new)) k h.new_fits in
      let same_bids = Merges-unique greater bids_view (some health) books _ _ m.bids start.bids in
      let same_asks = Merges-unique less asks_view (some health) books _ _ m.asks start.asks in
      let step = apply_depth_delta-full_rebuild s (some health) n books slot old u (record {
        size = omega (arith, h.books_ok.size);
        sound = h.books_ok.sound;
        old_sound = All-get_elem? IsSound books slot (some old) h.books_ok.sound h.stands;
        stands = get_elem?-take n books slot old h.books_ok.beyond h.stands;
        admitted = a;
        delta = d;
        well_formed = h.well_formed;
        new_bids = h.new_bids;
        new_asks = h.new_asks;
        fits = h.fits;
        new_fits = h.new_fits;
      }) in
      let bids_eq =
        ap (λ x. (apply_changes greater slot x new.last_bid_changes).0) same_bids
        ∙ ap (λ (b : MergedBook). b.bids) step in
      let asks_eq =
        ap (λ x. (apply_changes less slot x new.last_ask_changes).0) same_asks
        ∙ ap (λ (b : MergedBook). b.asks) step in
      record {
        bids = subst (Merges greater bids_view (some health) _) (sym bids_eq) target.bids;
        asks = subst (Merges less asks_view (some health) _) (sym asks_eq) target.asks;
      }

  excluded-IsMergeOf :
      (b : MergedBook)
      → admits (some health) slot ≡ false
      → IsMergeOf health books b
      → IsMergeOf health (set books slot (some (apply_update old u))) b
  excluded-IsMergeOf b a m = record {
    bids =
        Merges-ext greater bids_view _ _ _ _ _
          (λ i p. brought-set_excluded bids_view (some health) books slot _ i p a) m.bids;
    asks =
        Merges-ext less asks_view _ _ _ _ _
          (λ i p. brought-set_excluded asks_view (some health) books slot _ i p a) m.asks;
  }

  slot_inside : slot < n
  slot_inside = elim (Bool-cases (ltb slot n)) [
    | inl e ↦ ground (arith, e)
    | inr e ↦
        let (v, l) = get_or-some books slot old h.stands in
        absurd (ground (arith, v, h.books_ok.beyond slot (ground (arith, e))))
  ]

  pub update-AreBooks : AreBooks n (set books slot (some (apply_update old u)))
  update-AreBooks =
      set-AreBooks n books slot (some (apply_update old u)) (inl slot_inside) update-IsSound
        h.books_ok

  -- What the branches of the hot path leave.
  pub record IsConsolidated (s : State) : Type 0 where
    pub merged : IsMergeOf health (set books slot (some (apply_update old u))) s.book
    pub settled : s.needs_rebuild ≡ false

  pub consolidate-IsConsolidated :
      (s : State)
      → (s.needs_rebuild ≡ false → IsMergeOf health books s.book)
      → IsConsolidated (
          consolidate s
            (set books slot (some (apply_update old u)))
            n
            health
            slot
            (apply_update old u))
  unfolding consolidate full_rebuild apply_depth_delta
  consolidate-IsConsolidated s m =
      elim (Bool-cases (not (apply_update old u).last_changes_complete || s.needs_rebuild)) [
        | inl a ↦
            rw (consolidate, a)
              (record {
                merged = merge_books-IsMergeOf s.book n health _ update-AreBooks h.new_fits;
                settled = refl;
              })
        | inr a ↦
            let is_delta : u.is_snapshot ≡ false = ground (arith, a, complete_lem old u) in
            elim (Bool-cases (is_admissible (get_or health slot no_data))) [
              | inl b ↦
                  rw (consolidate, a, b)
                    (record {
                      merged = delta-IsMergeOf s is_delta b (m (ground (arith, a))) update-AreBooks;
                      settled = ground (arith, a);
                    })
              | inr b ↦
                  rw (consolidate, a, b)
                    (record {
                      merged = excluded-IsMergeOf s.book b (m (ground (arith, a)));
                      settled = ground (arith, a);
                    })
            ]
      ]
