-- ===== src/Core/Verdicts.antt =====
-- The tops of book through verdicts, registrations and removals.
use aggregated_order_book.Base.{
  false, true, Bool, ℕ, ◌+◌, ◌%◌, ◌^◌, ◌<◌, ◌≡◌, sym, subst, ◌∙◌, inl, inr, Option, none, some,
  arith, leb, ◌==◌, Bool-cases, get_or, set, length-set,
}
use aggregated_order_book.Base.Text.{Text}
use aggregated_order_book.Types.{
  unnamed_stream, VenueId, no_quote, VenueQuoteArray, VenueHealth, VenueHealthArray, StreamKind,
  VenueHealthEvent, binance, bybit, okx, count, no_data, depth, bbo,
}
use aggregated_order_book.Venues.{to_venue_id}
use aggregated_order_book.Registry.{name_at}
use aggregated_order_book.Core.{Core, venue_count}
use aggregated_order_book.Core.Maps.{lookup-for_each_inv}
use aggregated_order_book.Core.Ingest.{
  verdict, set_verdict, mark_all_for_rebuild, health_value, process_health,
}
use aggregated_order_book.Core.Membership.{
  deactivate_as, activate_as, register_as, register_venue_name, activate, process_registration,
  deactivate, remove_venue,
}
use aggregated_order_book.Bbo.{Bbo}
use aggregated_order_book.Bbo.Update.{FitsQuotes-set}
use aggregated_order_book.Core.Quotes.{AreQuoted, HasVersion, seen_of, bbo_of, IsQuoted}

-- A quote verdict or a removal: the counter has moved past what every instrument has seen.
moved-IsQuoted :
    (health health' : VenueHealthArray) (version seen : ℕ) (quotes : VenueQuoteArray) (b : Bbo)
    → version + 1 < 2 ^ 64
    → IsQuoted health version seen quotes b
    → IsQuoted health' ((version + 1) % 2 ^ 64) seen quotes b
moved-IsQuoted health health' version seen quotes b l h = record {
  size = h.size;
  fits = h.fits;
  known = omega (arith, h.known, l);
  top = λ e. absurd (omega (arith, h.known, l, e));
}

-- A stream with a name.
abbrev pub is_named : StreamKind → Bool
is_named depth = true
is_named bbo = true
is_named (unnamed_stream n) = false

set_verdict-AreQuoted :
    (stream : StreamKind) (slot : ℕ) (health : VenueHealth) (c : Core)
    → is_named stream ≡ true
    → HasVersion c
    → AreQuoted c
    → AreQuoted (set_verdict stream slot health c)
unfolding set_verdict mark_all_for_rebuild
set_verdict-AreQuoted (unnamed_stream n) slot health c k l h key quotes e = absurd (cc)
set_verdict-AreQuoted depth slot health c k l h key quotes e = h key quotes e
set_verdict-AreQuoted bbo slot health c k l h key quotes e =
    moved-IsQuoted _ _ _ _ _ _ l (h key quotes e)

pub process_health-AreQuoted :
    (slot : ℕ) (e : VenueHealthEvent) (c : Core)
    → is_named e.stream ≡ true
    → HasVersion c
    → AreQuoted c
    → AreQuoted (process_health slot e c)
unfolding process_health
process_health-AreQuoted slot e c k l h =
    elim (Bool-cases (health_value (verdict e.stream c slot) == health_value e.health)) [
      | inl a ↦ rw (process_health, a) h
      | inr a ↦ rw (process_health, a) (set_verdict-AreQuoted e.stream slot e.health c k l h)
    ]

activate_as-AreQuoted :
    (v : VenueId) (slot : ℕ) (c : Core) → AreQuoted c → AreQuoted (activate_as v slot c)
unfolding activate_as activate mark_all_for_rebuild
activate_as-AreQuoted count slot c h = h
activate_as-AreQuoted binance slot c h = h
activate_as-AreQuoted bybit slot c h = h
activate_as-AreQuoted okx slot c h = h

pub process_registration-AreQuoted :
    (slot : ℕ) (c : Core) → AreQuoted c → AreQuoted (process_registration slot c)
unfolding process_registration
process_registration-AreQuoted slot c h =
    activate_as-AreQuoted (to_venue_id (name_at c.venue_registry slot)) slot c h

register_as-AreQuoted :
    (v : VenueId) (name : Text) (c : Core) → AreQuoted c → AreQuoted (register_as v name c).1
unfolding register_as
register_as-AreQuoted count name c h = h
register_as-AreQuoted binance name c h = h
register_as-AreQuoted bybit name c h = h
register_as-AreQuoted okx name c h = h

pub register_venue_name-AreQuoted :
    (name : Text) (c : Core) → AreQuoted c → AreQuoted (register_venue_name name c).1
unfolding register_venue_name
register_venue_name-AreQuoted name c h = register_as-AreQuoted (to_venue_id name) name c h

emptied-IsQuoted :
    (health : VenueHealthArray) (version seen slot : ℕ) (quotes : VenueQuoteArray) (b : Bbo)
    → version + 1 < 2 ^ 64
    → IsQuoted health version seen quotes b
    → IsQuoted (set health slot no_data) ((version + 1) % 2 ^ 64) seen (set quotes slot no_quote) b
emptied-IsQuoted health version seen slot quotes b l h = record {
  size = length-set quotes slot no_quote ∙ h.size;
  fits = FitsQuotes-set quotes slot no_quote h.fits (omega arith) (omega arith);
  known = omega (arith, h.known, l);
  top = λ e. absurd (omega (arith, h.known, l, e));
}

deactivate_as-AreQuoted :
    (v : Option VenueId) (slot : ℕ) (c : Core)
    → HasVersion c
    → AreQuoted c
    → AreQuoted (deactivate_as v slot c)
unfolding deactivate_as deactivate mark_all_for_rebuild
deactivate_as-AreQuoted none slot c l h key quotes e = h key quotes e
deactivate_as-AreQuoted (some v) slot c l h key quotes e =
    let (old, a, b) =
      lookup-for_each_inv (λ k quotes. set quotes slot no_quote) c.venue_quotes key quotes e in
    subst
      (λ x.
        IsQuoted (set c.bbo_health slot no_data) ((c.bbo_health_version + 1) % 2 ^ 64)
          (seen_of c key) x (bbo_of c key))
      (sym b) (emptied-IsQuoted _ _ _ slot old _ l (h key old a))

pub remove_venue-AreQuoted :
    (slot : ℕ) (c : Core) → HasVersion c → AreQuoted c → AreQuoted (remove_venue slot c)
unfolding remove_venue
remove_venue-AreQuoted slot c l h = elim (Bool-cases (leb (venue_count c) slot)) [
  | inl a ↦ rw (remove_venue, a) h
  | inr a ↦
      rw (remove_venue, a) (deactivate_as-AreQuoted (get_or c.active_venues slot none) slot c l h)
]
