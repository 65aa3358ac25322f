-- ===== src/XdpRouter/Mac.antt =====
-- The textual form of a MAC address and its parser.
use rust_samples.Prelude.{
  ℕ, ◌<◌, ◌≡◌, refl, ap, ◌∙◌, length-map, List, [], ◌∷◌, ◌++◌, map, length, All, arith,
}
use rust_samples.Prelude.Text.{
  split, split-Lacks, split-append, hex_byte, hex_byte-Lacks_colon, from_str_radix-hex_byte,
}
use rust_samples.XdpRouter.Control.{parse_mac, part_value}

-- The bytes in lower-case hexadecimal, two digits each, with colons between them.
unfoldable pub format_mac : List ℕ → List ℕ
format_mac [] = []
format_mac (b ∷ []) = hex_byte b
format_mac (b ∷ c ∷ bs) = hex_byte b ++ b':' ∷ format_mac (c ∷ bs)

split-format_mac :
    (b : ℕ) (bs : List ℕ)
    → All (λ x. x < 256) (b ∷ bs)
    → split b':' (format_mac (b ∷ bs)) ≡ map hex_byte (b ∷ bs)
unfolding format_mac
split-format_mac b [] h = split-Lacks b':' (hex_byte b) (hex_byte-Lacks_colon b h.0)
split-format_mac b (c ∷ bs) h =
    split-append b':' (hex_byte b) (format_mac (c ∷ bs)) (hex_byte-Lacks_colon b h.0)
    ∙ ap (◌∷◌ (hex_byte b)) (split-format_mac c bs h.1)

part_values : (bs : List ℕ) → All (λ x. x < 256) bs → map part_value (map hex_byte bs) ≡ bs
part_values [] h = refl
part_values (b ∷ bs) h = rw (from_str_radix-hex_byte b h.0, part_values bs h.1) refl

-- Six bytes are read back from their text.
pub parse_mac-format_mac :
    (mac : List ℕ) → length mac ≡ 6 → All (λ x. x < 256) mac → parse_mac (format_mac mac) ≡ mac
unfolding parse_mac
parse_mac-format_mac [] n h = absurd (omega arith)
parse_mac-format_mac (b ∷ bs) n h =
    rw (split-format_mac b bs h) (ground (arith, length-map bs hex_byte, part_values (b ∷ bs) h))
