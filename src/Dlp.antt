-- ===== src/Dlp.antt =====
-- dlp/dlp_analyzer/src/main.rs: the types of the engine that looks for leaks in documents. Regular
-- expressions are a parameter.
pub mod Luhn
pub mod Engine
pub mod Matches
pub mod Scores
pub mod Totality
mod Tests
use rust_samples.Prelude.{ℕ, List, ◌+◌, ◌%◌, ◌^◌, Bool, true, false}

pub data LeakType : Type 0 where
  passport credit_card confidential_keyword source_code : LeakType

-- `==` of the derived PartialEq with `CreditCard`.
abbrev pub is_credit_card : LeakType → Bool
is_credit_card passport = false
is_credit_card credit_card = true
is_credit_card confidential_keyword = false
is_credit_card source_code = false

pub data Severity : Type 0 where
  low medium high critical : Severity

pub record Detection : Type 0 where
  pub leak_type : LeakType
  pub matched_text : List ℕ
  pub score_impact : ℕ

pub record AnalysisResult : Type 0 where
  pub is_violation : Bool
  pub total_score : ℕ
  pub severity : Severity
  pub detections : List Detection

-- A dictionary is listed in the order in which its HashMap is visited.
pub data Rule (Regex : Type 0) : Type 0 where
  signature : Regex → LeakType → ℕ → Rule Regex
  dictionary : List (List ℕ × ℕ) → LeakType → Rule Regex

pub record DlpEngine (Regex : Type 0) : Type 0 where
  pub rules : List (Rule Regex)
  pub threshold : ℕ

-- `out_of_fuel` is a loop that has not ended yet.
pub data Run {ℓ} (A : Type ℓ) : Type ℓ where
  returned : A → Run A
  panicked out_of_fuel : Run A

infixl 5 ◌>>=◌
abbrev pub ◌>>=◌ {ℓ κ} : {A : Type ℓ} {B : Type κ} → Run A → (A → Run B) → Run B
returned a >>= f = f a
panicked >>= f = panicked
out_of_fuel >>= f = out_of_fuel

-- `u32` addition of a release build.
abbrev pub add32 : ℕ → ℕ → ℕ
add32 a b = (a + b) % 2 ^ 32
