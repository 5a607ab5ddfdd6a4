-- ===== src/Base/Text.antt =====
-- `std::string` as its bytes, with the comparison `==`.
use aggregated_order_book.Base.{
  ℕ, ◌≡◌, refl, ap₂, Bool, true, false, ◌&&◌, List, [], ◌∷◌, arith, ◌==◌,
}

abbrev pub Text : Type 0
Text = List ℕ

unfoldable pub text_eq : Text → Text → Bool
text_eq [] [] = true
text_eq [] (d ∷ ds) = false
text_eq (c ∷ cs) [] = false
text_eq (c ∷ cs) (d ∷ ds) = c == d && text_eq cs ds

pub text_eq_refl : (a : Text) → text_eq a a ≡ true
unfolding text_eq
text_eq_refl [] = refl
text_eq_refl (c ∷ cs) = ground (arith, text_eq_refl cs)

pub text_eq→≡ : (a b : Text) → text_eq a b ≡ true → a ≡ b
unfolding text_eq
text_eq→≡ [] [] h = refl
text_eq→≡ [] (d ∷ ds) h = absurd (cc)
text_eq→≡ (c ∷ cs) [] h = absurd (cc)
text_eq→≡ (c ∷ cs) (d ∷ ds) h =
    let head_eq : c ≡ d = ground (arith, h) in
    ap₂ (λ x xs. x ∷ xs) head_eq (text_eq→≡ cs ds (ground (arith, h)))
