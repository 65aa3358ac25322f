-- ===== src/Dns/Ipv4.antt =====
-- dns_server/src/main.rs: `Ipv4Addr::from_str` and `to_string` of the standard library, which the
-- server stores addresses with.
use rust_samples.Prelude.{
  ℕ, zero, suc, ◌+◌, ◌-◌, ◌*◌, ◌<◌, ◌≡◌, refl, ap, ◌∙◌, List, [], ◌∷◌, ◌++◌, Option, none, some,
  Bool, true, false, ◌&&◌, arith, leb, ltb, ◌==◌, ==_iff, if◌then◌else◌, and_then, Bool-cases, inl,
  inr, not,
}
use rust_samples.Prelude.Text.{split, split-append, split-Lacks, Lacks, decimal, decimal_digits}

abbrev pub digit_value : ℕ → Option ℕ
digit_value c = if leb b'0' c && leb c b'9' then some (c - b'0') else none

-- A number of at most three digits below 256, with no zero in front of another digit.
abbrev pub small_octet : ℕ → Option ℕ
small_octet n = if ltb n 256 then some n else none

unfoldable pub parse_octet : List ℕ → Option ℕ
parse_octet [] = none
parse_octet (a ∷ []) = digit_value a
parse_octet (a ∷ b ∷ []) =
    if a == b'0'
    then none
    else and_then (digit_value a) λ x. and_then (digit_value b) λ y. some (10 * x + y)
parse_octet (a ∷ b ∷ c ∷ []) =
    if a == b'0'
    then none
    else and_then (digit_value a) λ x.
      and_then (digit_value b) λ y. and_then (digit_value c) λ z. small_octet (100 * x + 10 * y + z)
parse_octet (a ∷ b ∷ c ∷ d ∷ r) = none

abbrev pub four_octets : List (List ℕ) → Option (List ℕ)
four_octets (p ∷ q ∷ r ∷ s ∷ []) = and_then (parse_octet p) λ a.
    and_then (parse_octet q)
      λ b. and_then (parse_octet r) λ c. and_then (parse_octet s) λ d. some (a ∷ b ∷ c ∷ d ∷ [])
four_octets other = none

unfoldable pub from_str : List ℕ → Option (List ℕ)
unfolding split parse_octet
from_str s = four_octets (split b'.' s)

unfoldable pub to_string : List ℕ → List ℕ
unfolding decimal
to_string [] = []
to_string (a ∷ []) = decimal a
to_string (a ∷ b ∷ rest) = decimal a ++ b'.' ∷ to_string (b ∷ rest)

-- A check of every number below a bound.
abbrev check_below : (ℕ → Bool) → ℕ → Bool
check_below p zero = true
check_below p (suc n) = p n && check_below p n

check_below_lem : (p : ℕ → Bool) (n k : ℕ) → check_below p n ≡ true → k < n → p k ≡ true
check_below_lem p zero k h l = absurd (omega arith)
check_below_lem p (suc n) k h l = elim (Bool-cases (k == n)) [
  | inl same ↦ rw ((==_iff k n).0 same) (ground arith)
  | inr other ↦ check_below_lem p n k (ground arith) (ground arith)
]

abbrev option_is : ℕ → Option ℕ → Bool
option_is n none = false
option_is n (some m) = m == n

abbrev no_dot : List ℕ → Bool
no_dot [] = true
no_dot (c ∷ cs) = not (c == b'.') && no_dot cs

octets_back :
    check_below (λ b. option_is b (parse_octet (decimal b)) && no_dot (decimal b)) 256 ≡ true
unfolding parse_octet decimal decimal_digits
octets_back = refl

&&_left : (a b : Bool) → (a && b) ≡ true → a ≡ true
&&_left a b h = ground arith

&&_right : (a b : Bool) → (a && b) ≡ true → b ≡ true
&&_right a b h = ground arith

octet_back :
    (b : ℕ) → b < 256 → (option_is b (parse_octet (decimal b)) && no_dot (decimal b)) ≡ true
octet_back b h =
    check_below_lem (λ b. option_is b (parse_octet (decimal b)) && no_dot (decimal b)) 256 b
      octets_back h

option_is-some : (n : ℕ) (o : Option ℕ) → option_is n o ≡ true → o ≡ some n
option_is-some n none h = cc
option_is-some n (some m) h = ap some ((==_iff m n).0 h)

no_dot-Lacks : (s : List ℕ) → no_dot s ≡ true → Lacks b'.' s
no_dot-Lacks [] h = tt
no_dot-Lacks (c ∷ cs) h = (ground (arith, h), no_dot-Lacks cs (ground (arith, h)))

parse_octet-decimal : (b : ℕ) → b < 256 → parse_octet (decimal b) ≡ some b
parse_octet-decimal b h = option_is-some b _ (&&_left _ _ (octet_back b h))

decimal-Lacks_dot : (b : ℕ) → b < 256 → Lacks b'.' (decimal b)
decimal-Lacks_dot b h =
    no_dot-Lacks (decimal b) (&&_right (option_is b (parse_octet (decimal b))) _ (octet_back b h))

-- An address is read back from its text.
pub from_str-to_string :
    (a b c d : ℕ)
    → a < 256
    → b < 256
    → c < 256
    → d < 256
    → from_str (to_string (a ∷ b ∷ c ∷ d ∷ [])) ≡ some (a ∷ b ∷ c ∷ d ∷ [])
unfolding from_str to_string
from_str-to_string a b c d ha hb hc hd =
    let parts : split b'.' (to_string (a ∷ b ∷ c ∷ d ∷ []))
        ≡ decimal a ∷ decimal b ∷ decimal c ∷ decimal d ∷ [] =
      rw
        (
          split-append b'.' (decimal a) (to_string (b ∷ c ∷ d ∷ [])) (decimal-Lacks_dot a ha),
          split-append b'.' (decimal b) (to_string (c ∷ d ∷ [])) (decimal-Lacks_dot b hb),
          split-append b'.' (decimal c) (decimal d) (decimal-Lacks_dot c hc),
          split-Lacks b'.' (decimal d) (decimal-Lacks_dot d hd),
        )
        refl in
    ap four_octets parts
    ∙ rw
        (
          parse_octet-decimal a ha,
          parse_octet-decimal b hb,
          parse_octet-decimal c hc,
          parse_octet-decimal d hd,
        )
        refl
