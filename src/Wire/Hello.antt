-- ===== src/Wire/Hello.antt =====
-- The greeting: the name that arrives is the name that was sent, cut to fifteen characters.
use aggregated_order_book.Base.{
  ℕ, zero, suc, ◌-◌, ◌^◌, ◌≤◌, ◌<◌, ◌≡◌, refl, subst, false, some, List, [], ◌∷◌, ◌++◌, arith, ◌==◌,
  length, take, replicate, All, length-append, length-replicate,
}
use aggregated_order_book.Base.Text.{Text}
use aggregated_order_book.Types.{InstrumentKey}
use aggregated_order_book.Wire.{hello_widths, venue_name_capacity, hello_type}
use aggregated_order_book.Wire.Codec.{
  c_string, read_name, write_name, encode_hello, hello_of, decode_hello, hello,
}
use aggregated_order_book.Wire.RoundTrip.{read_body-written}

-- No character of the name is the terminator.
abbrev pub IsCText : Text → Type 0
IsCText = All (λ c. (c == 0) ≡ false)

c_string-terminated :
    (name : Text) (n : ℕ) → IsCText name → c_string (name ++ replicate (suc n) 0) ≡ some name
unfolding c_string
c_string-terminated [] n h = refl
c_string-terminated (c ∷ cs) n h = rw (c_string, h.0, c_string-terminated cs n h.1) refl

read_name_lem : (bytes : List ℕ) → read_name (length bytes) bytes ≡ some bytes
unfolding read_name
read_name_lem [] = refl
read_name_lem (b ∷ bytes) = rw (read_name_lem bytes) refl

take-length : (n : ℕ) (name : Text) → length (take n name) ≤ n
take-length zero name = omega arith
take-length (suc n) [] = omega arith
take-length (suc n) (c ∷ cs) = omega (arith, take-length n cs)

take-IsCText : (n : ℕ) (name : Text) → IsCText name → IsCText (take n name)
take-IsCText zero name h = tt
take-IsCText (suc n) [] h = tt
take-IsCText (suc n) (c ∷ cs) h = (h.0, take-IsCText n cs h.1)

length-write_name : (name : Text) → length (write_name name) ≡ venue_name_capacity
unfolding write_name
length-write_name name = omega (
  arith,
  take-length 15 name,
  length-append (take 15 name) (replicate (16 - length (take 15 name)) 0),
  length-replicate {A = ℕ} (16 - length (take 15 name)) 0,
)

c_string-write_name :
    (name : Text) → IsCText name → c_string (write_name name) ≡ some (take 15 name)
unfolding write_name
c_string-write_name name h =
    let room : 16 - length (take 15 name) ≡ suc (15 - length (take 15 name)) =
      omega (arith, take-length 15 name) in
    rw room
      (c_string-terminated (take 15 name) (15 - length (take 15 name)) (take-IsCText 15 name h))

-- A greeting for an instrument, with a name of no terminator, decodes to the instrument and the first
-- fifteen characters of the name: the whole name if it is no longer, a shorter one otherwise.
pub decode_hello-encode_hello :
    (k : InstrumentKey) (name : Text)
    → k.packed < 2 ^ 32
    → IsCText name
    → decode_hello (encode_hello k name) ≡ hello k (take 15 name)
unfolding decode_hello encode_hello hello_of
decode_hello-encode_hello k name h t =
    let field : read_name venue_name_capacity (write_name name) ≡ some (write_name name) =
      subst (λ n. read_name n (write_name name) ≡ some (write_name name)) (length-write_name name)
        (read_name_lem (write_name name)) in
    rw
      (
        decode_hello,
        read_body-written hello_type hello_widths (k.packed, tt) (write_name name) (omega arith)
            (omega (arith, h), tt),
        field,
        hello_of,
        c_string-write_name name t,
      )
      refl
