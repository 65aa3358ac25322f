-- ===== src/Dlp/Luhn.antt =====
-- dlp/dlp_analyzer/src/main.rs, `validate_luhn`. At most 19 digits are summed, so no u32 overflows.
use rust_samples.Prelude.{
  ℕ, suc, ◌+◌, ◌-◌, ◌*◌, ◌%◌, ◌≤◌, ◌<◌, ◌≡◌, ◌≢◌, refl, ap, sym, ◌∙◌, List, [], ◌∷◌, ◌++◌, Bool,
  true, false, ◌&&◌, ◌||◌, arith, ◌==◌, ltb, leb, if◌then◌else◌, length, length-append, All,
  Bool-cases, inl, inr, append_assoc, append-nil,
}

-- `is_ascii_digit`; a byte of a longer character is none.
abbrev pub is_digit : ℕ → Bool
is_digit c = leb b'0' c && leb c b'9'

-- `filter(is_ascii_digit).filter_map(to_digit(10))`.
unfoldable pub digits_of : List ℕ → List ℕ
digits_of [] = []
digits_of (c ∷ cs) = let rest = digits_of cs in if is_digit c then (c - b'0') ∷ rest else rest

-- `rev`.
abbrev pub reverse {ℓ} : {A : Type ℓ} → List A → List A
reverse [] = []
reverse (x ∷ xs) = reverse xs ++ x ∷ []

unfoldable pub luhn_term : ℕ → ℕ → ℕ
luhn_term idx digit =
    if idx % 2 == 1 then (if ltb 9 (digit * 2) then digit * 2 - 9 else digit * 2) else digit

-- The sum from an index of the enumeration on.
unfoldable pub luhn_sum : ℕ → List ℕ → ℕ
unfolding luhn_term
luhn_sum idx [] = 0
luhn_sum idx (d ∷ ds) = luhn_term idx d + luhn_sum (suc idx) ds

unfoldable pub valid_digits : List ℕ → Bool
unfolding luhn_sum
valid_digits digits =
    if ltb (length digits) 13 || ltb 19 (length digits)
    then false
    else luhn_sum 0 (reverse digits) % 10 == 0

unfoldable pub validate_luhn : List ℕ → Bool
unfolding valid_digits digits_of
validate_luhn card_number = valid_digits (digits_of card_number)

-- The sums of u32 stay small.
luhn_term_bound : (idx d : ℕ) → d < 10 → luhn_term idx d ≤ 9
unfolding luhn_term
luhn_term_bound idx d h = ground arith

pub luhn_sum_bound :
    (idx : ℕ) (ds : List ℕ) → All (λ d. d < 10) ds → luhn_sum idx ds ≤ 9 * length ds
unfolding luhn_sum
luhn_sum_bound idx [] h = omega arith
luhn_sum_bound idx (d ∷ ds) h =
    omega (arith, luhn_term_bound idx d h.0, luhn_sum_bound (suc idx) ds h.1)

luhn_sum-append :
    (idx : ℕ) (xs ys : List ℕ)
    → luhn_sum idx (xs ++ ys) ≡ luhn_sum idx xs + luhn_sum (idx + length xs) ys
unfolding luhn_sum
luhn_sum-append idx [] ys = omega (arith, ap (λ i. luhn_sum i ys) (by_zero idx))
  where
    by_zero : (idx : ℕ) → idx + 0 ≡ idx
    by_zero idx = omega arith
luhn_sum-append idx (x ∷ xs) ys =
    let shift : suc idx + length xs ≡ idx + suc (length xs) = omega arith in
    rw (← shift) (omega (arith, luhn_sum-append (suc idx) xs ys))

reverse-append {ℓ} : {A : Type ℓ} (xs ys : List A) → reverse (xs ++ ys) ≡ reverse ys ++ reverse xs
reverse-append [] ys = sym (append-nil (reverse ys))
reverse-append (x ∷ xs) ys =
    ap (λ z. z ++ x ∷ []) (reverse-append xs ys) ∙ append_assoc (reverse ys) (reverse xs) (x ∷ [])

digits_of-append : (s t : List ℕ) → digits_of (s ++ t) ≡ digits_of s ++ digits_of t
unfolding digits_of
digits_of-append [] t = refl
digits_of-append (c ∷ cs) t = elim (Bool-cases (is_digit c)) [
  | inl digit ↦ rw digit (ap (λ z. (c - b'0') ∷ z) (digits_of-append cs t))
  | inr other ↦ rw other (digits_of-append cs t)
]

luhn_sum_single : (idx d : ℕ) → luhn_sum idx (d ∷ []) ≡ luhn_term idx d
unfolding luhn_sum
luhn_sum_single idx d = omega arith

from_zero : (n : ℕ) → 0 + n ≡ n
from_zero n = omega arith

-- The sum around one digit.
luhn_sum-reverse :
    (xs ys : List ℕ) (d : ℕ)
    → luhn_sum 0 (reverse (xs ++ d ∷ ys))
      ≡ luhn_sum 0 (reverse ys)
        + luhn_term (length (reverse ys)) d
        + luhn_sum (suc (length (reverse ys))) (reverse xs)
luhn_sum-reverse xs ys d =
    let n = length (reverse ys) in
    let turned : luhn_sum 0 (reverse (xs ++ d ∷ ys))
        ≡ luhn_sum 0 ((reverse ys ++ d ∷ []) ++ reverse xs) =
      ap (luhn_sum 0) (reverse-append xs (d ∷ ys)) in
    let size : 0 + length (reverse ys ++ d ∷ []) ≡ suc n =
      omega (arith, length-append (reverse ys) (d ∷ [])) in
    let tail_ : luhn_sum (0 + length (reverse ys ++ d ∷ [])) (reverse xs)
        ≡ luhn_sum (suc n) (reverse xs) =
      ap (λ i. luhn_sum i (reverse xs)) size in
    omega (
      arith,
      turned,
      luhn_sum-append 0 (reverse ys ++ d ∷ []) (reverse xs),
      tail_,
      luhn_sum-append 0 (reverse ys) (d ∷ []),
      luhn_sum_single n d,
      ap (λ i. luhn_sum i (d ∷ [])) (from_zero n),
    )

luhn_term-injective :
    (idx d e rest : ℕ)
    → d < 10
    → e < 10
    → d ≢ e
    → (rest + luhn_term idx d) % 10 ≡ 0
    → (rest + luhn_term idx e) % 10 ≢ 0
unfolding luhn_term
luhn_term-injective idx d e rest hd he ne h = ground arith

digits_around :
    (before after : List ℕ) (c : ℕ)
    → is_digit c ≡ true
    → digits_of (before ++ c ∷ after) ≡ digits_of before ++ (c - b'0') ∷ digits_of after
unfolding digits_of
digits_around before after c h = rw (digits_of-append before (c ∷ after), h) refl

valid_digits_lem :
    (xs ys : List ℕ) (d e : ℕ)
    → d < 10
    → e < 10
    → d ≢ e
    → valid_digits (xs ++ d ∷ ys) ≡ true
    → valid_digits (xs ++ e ∷ ys) ≡ false
unfolding valid_digits
valid_digits_lem xs ys d e hd he ne valid =
    let rest = luhn_sum 0 (reverse ys) + luhn_sum (suc (length (reverse ys))) (reverse xs) in
    let other : (rest + luhn_term (length (reverse ys)) d) % 10 ≡ 0
        → (rest + luhn_term (length (reverse ys)) e) % 10 ≢ 0 =
      luhn_term-injective (length (reverse ys)) d e rest hd he ne in
    let sum_d = luhn_sum-reverse xs ys d in let sum_e = luhn_sum-reverse xs ys e in ground arith

-- Two card numbers that differ in one digit, with any other characters around the digits, are
-- never both valid.
pub validate_luhn_lem :
    (before after : List ℕ) (c c' : ℕ)
    → is_digit c ≡ true
    → is_digit c' ≡ true
    → c ≢ c'
    → validate_luhn (before ++ c ∷ after) ≡ true
    → validate_luhn (before ++ c' ∷ after) ≡ false
unfolding validate_luhn
validate_luhn_lem before after c c' hc hc' ne valid = rw (digits_around before after c' hc') (
    valid_digits_lem (digits_of before) (digits_of after) (c - b'0') (c' - b'0') (ground arith)
      (ground arith) (ground arith) (rw (digits_around before after c hc) at valid))
