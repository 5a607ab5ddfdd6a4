-- ===== src/Venues/Tests.antt =====
-- The name of one venue.
use aggregated_order_book.Base.{◌≡◌, ◌↔◌}
use aggregated_order_book.Types.{okx}
use aggregated_order_book.Venues.{okx_name, to_venue_string, to_venue_id}
use aggregated_order_book.Venues.Names.{to_venue_id_iff}

to_venue_id_iff_example : (to_venue_id okx_name ≡ okx) ↔ (to_venue_string okx ≡ okx_name)
to_venue_id_iff_example = to_venue_id_iff okx_name okx (λ e. absurd (cc))
