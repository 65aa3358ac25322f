-- ===== src/Doge/Hex.antt =====
-- doge-rust/src/main.rs, `mod hex`.
use rust_samples.Prelude.{
  ℕ, ◌+◌, ◌-◌, ◌≤◌, ◌==◌, ◌*◌, ◌%◌, ◌<◌, ◌≡◌, refl, List, [], ◌∷◌, ◌++◌, Option, none, some, Bool,
  true, false, ◌&&◌, arith, ◌⊎◌, inl, inr, length, All,
}
use rust_samples.Prelude.Text.{
  is_boundary, hex_digit, hex_byte, from_str_radix_hex, from_str_radix-hex_byte,
}

unfoldable pub encode : List ℕ → List ℕ
unfolding hex_byte
encode [] = []
encode (b ∷ bs) = hex_byte b ++ encode bs

-- `Err` of a digit that is none, and the panic of a slice that is out of range or cuts a character.
pub data Decoded : Type 0 where
  decoded : List ℕ → Decoded
  parse_error panicked : Decoded

abbrev pub decoded_cons : ℕ → Decoded → Decoded
decoded_cons b (decoded bs) = decoded (b ∷ bs)
decoded_cons b parse_error = parse_error
decoded_cons b panicked = panicked

-- One slice, whether it cuts no character, and what it parses to.
abbrev pub decode_pair : Bool → Option ℕ → Decoded → Decoded
decode_pair true (some n) more = decoded_cons n more
decode_pair true none more = parse_error
decode_pair false digits more = panicked

-- The slices `s[i..i + 2]` in turn; the first error ends `collect`.
unfoldable pub decode : List ℕ → Decoded
unfolding from_str_radix_hex
decode [] = decoded []
decode (a ∷ []) = panicked
decode (a ∷ b ∷ rest) =
    decode_pair (is_boundary (a ∷ b ∷ rest) && is_boundary rest) (from_str_radix_hex (a ∷ b ∷ []))
      (decode rest)

hex_byte_boundary : (b : ℕ) (rest : List ℕ) → b < 256 → is_boundary (hex_byte b ++ rest) ≡ true
unfolding hex_byte
hex_byte_boundary b rest h = ground arith

encode_boundary : (bs : List ℕ) → All (λ b. b < 256) bs → is_boundary (encode bs) ≡ true
unfolding encode
encode_boundary [] h = refl
encode_boundary (b ∷ bs) h = hex_byte_boundary b (encode bs) h.0

-- Any bytes are read back from their hexadecimal text.
pub decode-encode : (bs : List ℕ) → All (λ b. b < 256) bs → decode (encode bs) ≡ decoded bs
unfolding encode decode
decode-encode [] h = refl
decode-encode (b ∷ bs) h =
    rw
      (
        hex_byte_boundary b (encode bs) h.0,
        encode_boundary bs h.1,
        from_str_radix-hex_byte b h.0,
        decode-encode bs h.1,
      )
      refl

-- A digit of a hexadecimal text as `encode` writes it.
abbrev pub IsDigit : ℕ → Type 0
IsDigit c = ((b'0' ≤ c) × (c ≤ b'9')) ⊎ ((b'a' ≤ c) × (c ≤ b'f'))

digit_value : (c : ℕ) → IsDigit c → (d : ℕ) × (hex_digit c ≡ some d) × (d < 16)
unfolding hex_digit
digit_value c (inl h) = (c - b'0', ground arith, omega arith)
digit_value c (inr h) = (c - b'a' + 10, ground arith, omega arith)

pair_parses :
    (a b : ℕ) → IsDigit a → IsDigit b → (n : ℕ) × (from_str_radix_hex (a ∷ b ∷ []) ≡ some n)
unfolding from_str_radix_hex
pair_parses a b ha hb =
    let (d, ed, ld) = digit_value a ha in
    let (f, ef, lf) = digit_value b hb in
    let not_plus : (a == b'+') ≡ false = ground arith in
    (d * 16 + f, rw not_plus (ground (arith, ed, ef)))

boundary_of_digits : (s : List ℕ) → All IsDigit s → is_boundary s ≡ true
boundary_of_digits [] h = refl
boundary_of_digits (c ∷ cs) (h, _) = ground arith

-- A text of digits whose length is odd makes the last slice panic.
pub decode_odd : (s : List ℕ) → All IsDigit s → length s % 2 ≡ 1 → decode s ≡ panicked
unfolding decode
decode_odd [] hs h = absurd (omega arith)
decode_odd (a ∷ []) hs h = refl
decode_odd (a ∷ b ∷ rest) (ha, (hb, hs)) h =
    let (n, e) = pair_parses a b ha hb in
    let first : is_boundary (a ∷ b ∷ rest) ≡ true =
      boundary_of_digits (a ∷ b ∷ rest) (ha, (hb, hs)) in
    rw (first, boundary_of_digits rest hs, e, decode_odd rest hs (omega arith)) refl

pub length-encode : (bs : List ℕ) → length (encode bs) ≡ 2 * length bs
unfolding encode
length-encode [] = refl
length-encode (b ∷ bs) = omega (arith, length-encode bs)
