-- ===== src/Registry/Symbols.antt =====
-- types/instrument_registry.h: symbols in their canonical form, and their numbers. The registry is the
-- venue registry's in design; `names` is the part of `names_` below `size_`. Characters are classed as
-- in the C locale.
pub mod Canonical
mod Tests
use aggregated_order_book.Base.{
  ℕ, ◌-◌, Bool, true, ◌&&◌, ◌||◌, Option, none, List, [], ◌∷◌, leb, ◌==◌, if◌then◌else◌, get_or,
}
use aggregated_order_book.Base.Text.{Text}
use aggregated_order_book.Registry.{find_name, register_in}

-- `kMaxInstruments`
abbrev pub max_instruments : ℕ
max_instruments = 64

-- '-', '_', '/' and what isspace holds for.
unfoldable pub is_separator : ℕ → Bool
is_separator c = c == 45 || c == 95 || c == 47 || c == 32 || (leb 9 c && leb c 13)

-- toupper
unfoldable pub to_upper : ℕ → ℕ
to_upper c = if leb 97 c && leb c 122 then c - 32 else c

-- `NormalizeSymbol`
unfoldable pub normalize_symbol : Text → Text
normalize_symbol [] = []
normalize_symbol (c ∷ cs) =
    let rest = normalize_symbol cs in if is_separator c then rest else to_upper c ∷ rest

-- The characters of a symbol: A-Z and 0-9.
unfoldable pub is_symbol_char : ℕ → Bool
is_symbol_char c = (leb 65 c && leb c 90) || (leb 48 c && leb c 57)

unfoldable pub all_alnum : Text → Bool
all_alnum [] = true
all_alnum (c ∷ cs) = is_symbol_char c && all_alnum cs

pub data SymbolStatus : Type 0 where
  ok_symbol empty_symbol bad_character : SymbolStatus

-- `ValidateSymbol`
unfoldable pub validate_symbol : Text → SymbolStatus
validate_symbol [] = empty_symbol
validate_symbol (c ∷ cs) = if all_alnum (c ∷ cs) then ok_symbol else bad_character

-- `Register` by the status of the canonical form.
unfoldable pub register_valid : SymbolStatus → Text → List Text → Option ℕ × List Text
register_valid ok_symbol normalized names = register_in max_instruments names normalized
register_valid empty_symbol normalized names = (none, names)
register_valid bad_character normalized names = (none, names)

-- `Register`, `Find` and `Name`
unfoldable pub register_symbol : Text → List Text → Option ℕ × List Text
register_symbol symbol names =
    register_valid (validate_symbol (normalize_symbol symbol)) (normalize_symbol symbol) names

abbrev pub find_symbol : List Text → Text → Option ℕ
find_symbol names symbol = find_name names (normalize_symbol symbol)

abbrev pub symbol_name : List Text → ℕ → Text
symbol_name names instrument = get_or names instrument []
