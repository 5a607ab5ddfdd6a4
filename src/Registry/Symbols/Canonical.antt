-- ===== src/Registry/Symbols/Canonical.antt =====
-- The canonical form is canonical, and the registry holds nothing else.
use aggregated_order_book.Base.{
  ℕ, ◌≡◌, refl, ap, ◌∙◌, inl, inr, false, some, List, [], ◌∷◌, arith, Bool-cases, All, All-append,
}
use aggregated_order_book.Base.Text.{Text}
use aggregated_order_book.Registry.{find_name, register_in}
use aggregated_order_book.Registry.Find.{IsRegistry}
use aggregated_order_book.Registry.Register.{
  register_case, register_in-IsRegistry, IsRegistered, register_in-IsRegistered, known, full, added,
}
use aggregated_order_book.Registry.Symbols.{
  max_instruments, is_separator, to_upper, normalize_symbol, SymbolStatus, validate_symbol,
  register_valid, register_symbol, find_symbol, symbol_name, ok_symbol, empty_symbol, bad_character,
}

upper_separator : (c : ℕ) → is_separator c ≡ false → is_separator (to_upper c) ≡ false
unfolding is_separator to_upper
upper_separator c h = ground (arith, h)

upper_upper : (c : ℕ) → to_upper (to_upper c) ≡ to_upper c
unfolding to_upper
upper_upper c = ground arith

-- Normalising a canonical form changes nothing, so that a symbol and its canonical form name the same
-- instrument.
pub normalize_symbol_idempotent :
    (s : Text) → normalize_symbol (normalize_symbol s) ≡ normalize_symbol s
unfolding normalize_symbol
normalize_symbol_idempotent [] = refl
normalize_symbol_idempotent (c ∷ cs) = elim (Bool-cases (is_separator c)) [
  | inl a ↦ rw a (normalize_symbol_idempotent cs)
  | inr a ↦
      rw (a, normalize_symbol, upper_separator c a, upper_upper c)
        (ap (λ x. to_upper c ∷ x) (normalize_symbol_idempotent cs))
]

-- The names are canonical symbols, each with its own number.
pub record AreSymbols (names : List Text) : Type 0 where
  pub registry : IsRegistry max_instruments names
  pub valid : All (λ n. validate_symbol n ≡ ok_symbol) names

register_in-valid :
    (names : List Text) (n : Text)
    → validate_symbol n ≡ ok_symbol
    → All (λ m. validate_symbol m ≡ ok_symbol) names
    → All (λ m. validate_symbol m ≡ ok_symbol) (register_in max_instruments names n).1
register_in-valid names n v h = elim (register_case max_instruments names n) [
  | known i e r ↦ rw r h
  | full e f r ↦ rw r h
  | added e f r ↦ rw r (All-append (λ m. validate_symbol m ≡ ok_symbol) names (n ∷ []) h (v, tt))
]

register_valid-AreSymbols :
    (t : SymbolStatus) (n : Text) (names : List Text)
    → validate_symbol n ≡ t
    → AreSymbols names
    → AreSymbols (register_valid t n names).1
unfolding register_valid
register_valid-AreSymbols ok_symbol n names e h = record {
  registry = register_in-IsRegistry max_instruments names n h.registry;
  valid = register_in-valid names n e h.valid;
}
register_valid-AreSymbols empty_symbol n names e h = h
register_valid-AreSymbols bad_character n names e h = h

-- Whatever text is registered, the registry keeps at most 64 names, all of them non-empty and of A-Z
-- and 0-9, each found at the number it has.
pub register_symbol-AreSymbols :
    (s : Text) (names : List Text) → AreSymbols names → AreSymbols (register_symbol s names).1
unfolding register_symbol
register_symbol-AreSymbols s names h =
    register_valid-AreSymbols (validate_symbol (normalize_symbol s)) (normalize_symbol s) names refl
      h

register_valid-IsRegistered :
    (t : SymbolStatus) (n : Text) (names : List Text) (i : ℕ)
    → (register_valid t n names).0 ≡ some i
    → IsRegistered (register_valid t n names).1 n i
unfolding register_valid
register_valid-IsRegistered ok_symbol n names i e =
    register_in-IsRegistered max_instruments names n i e
register_valid-IsRegistered empty_symbol n names i e = absurd (cc)
register_valid-IsRegistered bad_character n names i e = absurd (cc)

-- A symbol that has been given a number is found under it by every spelling of the same canonical form,
-- and the number's name is that form.
pub register_symbol-find_symbol :
    (s other : Text) (names : List Text) (i : ℕ)
    → (register_symbol s names).0 ≡ some i
    → normalize_symbol other ≡ normalize_symbol s
    → (find_symbol (register_symbol s names).1 other ≡ some i)
      × (symbol_name (register_symbol s names).1 i ≡ normalize_symbol s)
unfolding register_symbol
register_symbol-find_symbol s other names i e n =
    let k =
      register_valid-IsRegistered (validate_symbol (normalize_symbol s)) (normalize_symbol s) names
        i e in
    (ap (find_name (register_symbol s names).1) n ∙ k.found, k.named)
