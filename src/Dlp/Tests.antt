-- ===== src/Dlp/Tests.antt =====
-- The theorems on the engine at concrete documents.
use rust_samples.Prelude.{
  ℕ, ◌≡◌, ◌↔◌, ◌≤◌, ◌<◌, ◌%◌, ◌^◌, refl, arith, List, [], ◌∷◌, ◌++◌, true, false, drop, map, All,
}
use rust_samples.Prelude.Text.{codes}
use rust_samples.Dlp.{
  LeakType, credit_card, confidential_keyword, Severity, critical, Detection, AnalysisResult,
  signature, dictionary, DlpEngine, returned,
}
use rust_samples.Dlp.Luhn.{
  validate_luhn, validate_luhn_lem, digits_of, valid_digits, luhn_sum, luhn_term,
}
use rust_samples.Dlp.Engine.{
  Tally, scan_word, analyze, push_detection, scan_words, scan_matches, apply_rule, apply_rules,
  severity_of,
}
use rust_samples.Dlp.Matches.{ascii_lower, Matches, push_all, scan_word_from}
use rust_samples.Dlp.Scores.{total_impact, CardIsValid, analyze_cards}
use rust_samples.Dlp.Totality.{analyze_lem}

abbrev lowercase : List ℕ → List ℕ
lowercase = map ascii_lower

-- A regular expression here is the list of texts that it finds.
abbrev find_iter : List (List ℕ) → List ℕ → List (List ℕ)
find_iter found text = found

abbrev engine : DlpEngine (List (List ℕ))
engine = record {
  rules =
      signature (codes "4000-1234-5678-9017" ∷ codes "4000-1234-5678-9010" ∷ []) credit_card 15
      ∷ dictionary ((codes "NDA", 5) ∷ []) confidential_keyword
      ∷ [];
  threshold = 20;
}

abbrev document : List ℕ
document = codes "nda, NdA"

card_valid : validate_luhn (codes "4000-1234-5678-901" ++ b'7' ∷ []) ≡ true
unfolding validate_luhn valid_digits digits_of luhn_sum luhn_term
card_valid = refl

validate_luhn_lem_example : validate_luhn (codes "4000-1234-5678-901" ++ b'0' ∷ []) ≡ false
validate_luhn_lem_example =
    validate_luhn_lem (codes "4000-1234-5678-901") [] b'7' b'0' refl refl (λ e. omega (arith, e))
      card_valid

abbrev empty_tally : Tally
empty_tally = record { detections = []; total_score = 0 }

scan_word_from_example :
    (ms : List (List ℕ)) × Matches (map ascii_lower (codes "NDA")) (drop 0 document) ms
    × (scan_word 9 confidential_keyword document
          (map ascii_lower document)
          (codes "NDA")
          (map ascii_lower (codes "NDA"))
          5
          0
          empty_tally
        ≡ returned (push_all confidential_keyword 5 ms empty_tally))
scan_word_from_example =
    scan_word_from confidential_keyword document (codes "NDA") 5 9 0 empty_tally (ground arith)
      (ground arith) (omega arith) (omega arith) (omega arith)

analyze_lem_example :
    (r : AnalysisResult) × (analyze find_iter lowercase 9 engine document ≡ returned r)
    × (r.total_score ≡ total_impact r.detections % 2 ^ 32)
    × ((r.is_violation ≡ true) ↔ (20 ≤ r.total_score))
    × ((r.severity ≡ critical) ↔ (30 < r.total_score))
analyze_lem_example =
    analyze_lem find_iter lowercase 9 engine document (λ s h. refl) (ground arith) (omega arith)
      (tt, (((ground arith, omega arith), tt), tt))

abbrev detection : LeakType → List ℕ → ℕ → Detection
detection leak_type matched score = record {
  leak_type = leak_type;
  matched_text = matched;
  score_impact = score;
}

abbrev report : AnalysisResult
report = record {
  is_violation = true;
  total_score = 25;
  severity = Severity.high;
  detections =
      detection credit_card (codes "4000-1234-5678-9017") 15
      ∷ detection confidential_keyword (codes "nda") 5
      ∷ detection confidential_keyword (codes "NdA") 5
      ∷ [];
}

report_lem : analyze find_iter lowercase 9 engine document ≡ returned report
unfolding analyze apply_rules apply_rule scan_words scan_word scan_matches push_detection
    validate_luhn valid_digits digits_of luhn_sum luhn_term severity_of
report_lem = refl

analyze_cards_example : All CardIsValid report.detections
analyze_cards_example =
    analyze_cards find_iter lowercase 9 engine document report (tt, ((λ e. cc), tt)) report_lem
