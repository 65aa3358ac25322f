-- ===== src/DlpHooks/Utf8.antt =====
-- `std::str::from_utf8`, which dlp/dlp_fanotify_hooks/src/main.rs asks about the bytes of a file.
use rust_samples.Prelude.{
  ℕ, ◌≤◌, ◌<◌, ◌≡◌, refl, ap, sym, ◌∙◌, append-nil, if_false, List, [], ◌∷◌, ◌++◌, Bool, true,
  false, ◌&&◌, leb, ltb, ◌==◌, if◌then◌else◌, if_true, lt→ltb, All, arith,
}

abbrev pub any_tail : ℕ × ℕ
any_tail = (128, 191)

-- The ranges of the bytes that have to follow a first byte; `[]` for one that begins no character.
abbrev pub tails : ℕ → List (ℕ × ℕ)
tails b =
    if leb 194 b && leb b 223
    then any_tail ∷ []
    else if b == 224
    then (160, 191) ∷ any_tail ∷ []
    else if leb 225 b && leb b 236
    then any_tail ∷ any_tail ∷ []
    else if b == 237
    then (128, 159) ∷ any_tail ∷ []
    else if leb 238 b && leb b 239
    then any_tail ∷ any_tail ∷ []
    else if b == 240
    then (144, 191) ∷ any_tail ∷ any_tail ∷ []
    else if leb 241 b && leb b 243
    then any_tail ∷ any_tail ∷ any_tail ∷ []
    else if b == 244
    then (128, 143) ∷ any_tail ∷ any_tail ∷ []
    else []

-- The bytes still due for the character that has begun, and the rest.
unfoldable pub validate : List (ℕ × ℕ) → List ℕ → Bool
validate [] [] = true
validate (range ∷ ranges) [] = false
validate ((low, high) ∷ ranges) (b ∷ bytes) = leb low b && leb b high && validate ranges bytes
validate [] (b ∷ bytes) =
    let ascii = validate [] bytes in
    let longer : Bool = elim (tails b) [
      | [] ↦ false
      | range ∷ ranges ↦ validate (range ∷ ranges) bytes
    ] in
    if ltb b 128 then ascii else longer

unfoldable pub from_utf8 : List ℕ → Bool
unfolding validate
from_utf8 bytes = validate [] bytes

pub validate-ascii :
    (text bytes : List ℕ)
    → All (λ b. b < 128) text
    → validate [] (text ++ bytes) ≡ validate [] bytes
unfolding validate
validate-ascii [] bytes h = refl
validate-ascii (b ∷ text) bytes h =
    if_true (validate [] (text ++ bytes)) _ (lt→ltb b 128 h.0) ∙ validate-ascii text bytes h.1

-- A character that ends before its last byte.
pub from_utf8-ascii : (text : List ℕ) → All (λ b. b < 128) text → from_utf8 text ≡ true
unfolding from_utf8 validate
from_utf8-ascii text h = ap (validate []) (sym (append-nil text)) ∙ validate-ascii text [] h

pub from_utf8-cut :
    (text : List ℕ) (lead : ℕ)
    → All (λ b. b < 128) text
    → 128 ≤ lead
    → from_utf8 (text ++ lead ∷ []) ≡ false
unfolding from_utf8 validate
from_utf8-cut text lead h l =
    validate-ascii text (lead ∷ []) h
    ∙ if_false {b = ltb lead 128} (validate [] []) _ (ground arith)
    ∙ unfinished (tails lead)
  where
    unfinished :
        (due : List (ℕ × ℕ))
        → elim due [ [] ↦ false | range ∷ ranges ↦ validate (range ∷ ranges) [] ] ≡ false
    unfinished [] = refl
    unfinished (range ∷ ranges) = refl
