-- ===== src/Prelude/Text.antt =====
-- Text and bytes of Rust's standard library, as the program uses them: a text is its list of
-- bytes.
use Prim.Native.Char.{code}
use Prim.Native.String.{String}
use rust_samples.Prelude.{
  ℕ, zero, suc, ◌+◌, ◌-◌, ◌*◌, ◌≤◌, ◌<◌, ◌≡◌, refl, Bool, true, false, not, ◌&&◌, List, [], ◌∷◌,
  ◌++◌, Option, none, some, arith, ◌==◌, leb, ltb, if◌then◌else◌, ◌||◌, ◌/◌, ◌%◌, ◌≢◌, All,
}

-- The bytes of an ASCII literal.
abbrev pub codes : String → List ℕ
codes String.[] = []
codes (String.◌∷◌ c s) = code c ∷ codes s

-- `char::to_digit(16)` of one byte.
unfoldable pub hex_digit : ℕ → Option ℕ
hex_digit c =
    if leb b'0' c && leb c b'9'
    then some (c - b'0')
    else if leb b'a' c && leb c b'f'
    then some (c - b'a' + 10)
    else if leb b'A' c && leb c b'F'
    then some (c - b'A' + 10)
    else none

-- The digits of `u8::from_str_radix(_, 16)`, with its checked multiplication and addition.
unfoldable pub from_digits : ℕ → List ℕ → Option ℕ
unfolding hex_digit
from_digits acc [] = some acc
from_digits acc (c ∷ cs) = elim (hex_digit c) [
  | none ↦ none
  | some d ↦ if ltb (acc * 16 + d) 256 then from_digits (acc * 16 + d) cs else none
]

-- `u8::from_str_radix(s, 16)`: a leading `+` is allowed, and the empty text is an error.
unfoldable pub from_str_radix_hex : List ℕ → Option ℕ
unfolding from_digits
from_str_radix_hex [] = none
from_str_radix_hex (c ∷ []) = from_digits 0 (c ∷ [])
from_str_radix_hex (c ∷ d ∷ cs) =
    if c == b'+' then from_digits 0 (d ∷ cs) else from_digits 0 (c ∷ d ∷ cs)

abbrev push_head : ℕ → List (List ℕ) → List (List ℕ)
push_head c [] = (c ∷ []) ∷ []
push_head c (p ∷ ps) = (c ∷ p) ∷ ps

-- `str::split` by one byte: always at least one part.
unfoldable pub split : ℕ → List ℕ → List (List ℕ)
split sep [] = [] ∷ []
split sep (c ∷ cs) = let rest = split sep cs in if c == sep then [] ∷ rest else push_head c rest

-- No element of the text is the byte.
abbrev pub Lacks : ℕ → List ℕ → Type 0
Lacks sep = All (λ c. c ≢ sep)

-- A text without the separator is one part; with it, the part before it is split off.
pub split-Lacks : (sep : ℕ) (s : List ℕ) → Lacks sep s → split sep s ≡ s ∷ []
unfolding split
split-Lacks sep [] h = refl
split-Lacks sep (c ∷ cs) h = ground (arith, split-Lacks sep cs h.1)

pub split-append :
    (sep : ℕ) (s t : List ℕ) → Lacks sep s → split sep (s ++ sep ∷ t) ≡ s ∷ split sep t
unfolding split
split-append sep [] t h = ground arith
split-append sep (c ∷ cs) t h = ground (arith, split-append sep cs t h.1)

-- One lower-case hexadecimal digit, and the two of `{:02x}`.
unfoldable pub hex_lower : ℕ → ℕ
hex_lower d = if ltb d 10 then b'0' + d else b'a' + d - 10

unfoldable pub hex_byte : ℕ → List ℕ
unfolding hex_lower
hex_byte b = hex_lower (b / 16) ∷ hex_lower (b % 16) ∷ []

pub hex_digit-hex_lower : (d : ℕ) → d < 16 → hex_digit (hex_lower d) ≡ some d
unfolding hex_digit hex_lower
hex_digit-hex_lower d h = ground arith

hex_lower_bounds :
    (d : ℕ) → d < 16 → (b'0' ≤ hex_lower d) × (hex_lower d ≤ b'f') × (hex_lower d ≢ b':')
unfolding hex_lower
hex_lower_bounds d h = ground arith

-- Parsing the two digits of a byte gives the byte.
pub from_str_radix-hex_byte : (b : ℕ) → b < 256 → from_str_radix_hex (hex_byte b) ≡ some b
unfolding from_str_radix_hex hex_byte
from_str_radix-hex_byte b h =
    let lo : b / 16 < 16 = omega arith in
    let hi : b % 16 < 16 = omega arith in
    ground (
      arith,
      hex_digit-hex_lower (b / 16) lo,
      hex_digit-hex_lower (b % 16) hi,
      hex_lower_bounds (b / 16) lo,
    )

pub hex_byte-Lacks_colon : (b : ℕ) → b < 256 → Lacks b':' (hex_byte b)
unfolding hex_byte
hex_byte-Lacks_colon b h =
    let low : b % 16 < 16 = omega arith in
    ((hex_lower_bounds (b / 16) (omega arith)).2, ((hex_lower_bounds (b % 16) low).2, tt))

-- The white space of `trim` and `split_whitespace`, for ASCII.
unfoldable pub is_whitespace : ℕ → Bool
is_whitespace c = leb 9 c && leb c 13 || c == 32

unfoldable pub trim_start : List ℕ → List ℕ
unfolding is_whitespace
trim_start [] = []
trim_start (c ∷ cs) = if is_whitespace c then trim_start cs else c ∷ cs

abbrev pub is_empty {ℓ} : {A : Type ℓ} → List A → Bool
is_empty [] = true
is_empty (x ∷ xs) = false

unfoldable pub trim_end : List ℕ → List ℕ
unfolding is_whitespace
trim_end [] = []
trim_end (c ∷ cs) =
    let rest = trim_end cs in if is_whitespace c && is_empty rest then [] else c ∷ rest

unfoldable pub trim : List ℕ → List ℕ
unfolding trim_start trim_end
trim s = trim_end (trim_start s)

-- A carriage return at the end.
strip_cr : List ℕ → List ℕ
strip_cr [] = []
strip_cr (c ∷ []) = if c == 13 then [] else c ∷ []
strip_cr (c ∷ d ∷ cs) = c ∷ strip_cr (d ∷ cs)

join_lines : List (List ℕ) → List (List ℕ)
unfolding strip_cr
join_lines [] = []
join_lines ([] ∷ []) = []
join_lines ((c ∷ cs) ∷ []) = (c ∷ cs) ∷ []
join_lines (p ∷ q ∷ ps) = strip_cr p ∷ join_lines (q ∷ ps)

-- `str::lines`: a line feed ends a line, a carriage return before it goes with it.
unfoldable pub lines : List ℕ → List (List ℕ)
unfolding join_lines split
lines s = join_lines (split 10 s)

abbrev pub starts_with_byte : ℕ → List ℕ → Bool
starts_with_byte b [] = false
starts_with_byte b (c ∷ cs) = c == b

-- The decimal digits of a number, as `{}` prints it; twenty digits are enough for a u64.
unfoldable pub decimal_digits : ℕ → ℕ → List ℕ → List ℕ
decimal_digits zero n acc = acc
decimal_digits (suc fuel) n acc =
    let digits = (b'0' + n % 10) ∷ acc in
    let rest = decimal_digits fuel (n / 10) digits in if ltb n 10 then digits else rest

unfoldable pub decimal : ℕ → List ℕ
unfolding decimal_digits
decimal n = decimal_digits 20 n []

-- `str::starts_with` of a text.
abbrev pub starts_with : List ℕ → List ℕ → Bool
starts_with [] s = true
starts_with (c ∷ cs) [] = false
starts_with (c ∷ cs) (d ∷ ds) = c == d && starts_with cs ds

-- A byte that continues a character of UTF-8.
abbrev pub is_continuation : ℕ → Bool
is_continuation b = leb 0x80 b && ltb b 0xC0

abbrev pub is_boundary : List ℕ → Bool
is_boundary [] = true
is_boundary (b ∷ bs) = not (is_continuation b)
