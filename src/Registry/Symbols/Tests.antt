-- ===== src/Registry/Symbols/Tests.antt =====
-- "btc-usdt" registered, "BTC/usdt" looked up.
use aggregated_order_book.Base.{◌≡◌, refl, none, some, [], ◌∷◌}
use aggregated_order_book.Base.Text.{Text}
use aggregated_order_book.Registry.{find_name, add_name, register_in}
use aggregated_order_book.Registry.Symbols.{
  is_separator, to_upper, normalize_symbol, is_symbol_char, all_alnum, validate_symbol,
  register_valid, register_symbol, find_symbol, symbol_name,
}
use aggregated_order_book.Registry.Symbols.Canonical.{register_symbol-find_symbol}

abbrev dashed : Text
dashed = 98 ∷ 116 ∷ 99 ∷ 45 ∷ 117 ∷ 115 ∷ 100 ∷ 116 ∷ []

abbrev slashed : Text
slashed = 66 ∷ 84 ∷ 67 ∷ 47 ∷ 117 ∷ 115 ∷ 100 ∷ 116 ∷ []

dashed_run : (register_symbol dashed []).0 ≡ some 0
unfolding register_symbol register_valid validate_symbol normalize_symbol is_separator to_upper
    all_alnum is_symbol_char register_in add_name find_name
dashed_run = refl

same_form : normalize_symbol slashed ≡ normalize_symbol dashed
unfolding normalize_symbol is_separator to_upper
same_form = refl

register_symbol-find_symbol_example :
    (find_symbol (register_symbol dashed []).1 slashed ≡ some 0)
    × (symbol_name (register_symbol dashed []).1 0 ≡ normalize_symbol dashed)
register_symbol-find_symbol_example =
    register_symbol-find_symbol dashed slashed [] 0 dashed_run same_form

bad_run : (register_symbol (66 ∷ 46 ∷ []) []).0 ≡ none
unfolding register_symbol register_valid validate_symbol normalize_symbol is_separator to_upper
    all_alnum is_symbol_char
bad_run = refl
