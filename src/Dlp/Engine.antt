-- ===== src/Dlp/Engine.antt =====
-- dlp/dlp_analyzer/src/main.rs, `DlpEngine::analyze` and `analyze_parallel`. The search for a word
-- runs on fuel. `find_iter` gives the texts that a regular expression matches, and `to_lowercase`
-- is the standard library's, with its tables.
use rust_samples.Prelude.{
  ℕ, zero, suc, ◌+◌, ◌-◌, List, [], ◌∷◌, ◌++◌, Option, none, some, not, ◌&&◌, leb, ◌==◌,
  if◌then◌else◌, length, take, drop,
}
use rust_samples.Prelude.Text.{is_boundary, starts_with}
use rust_samples.Dlp.{
  LeakType, is_credit_card, Severity, low, medium, high, critical, Detection, AnalysisResult, Rule,
  signature, dictionary, DlpEngine, Run, returned, panicked, out_of_fuel, ◌>>=◌, add32,
}
use rust_samples.Dlp.Luhn.{validate_luhn}

-- `str::find`: the first place where the pattern stands.
abbrev pub find : List ℕ → List ℕ → Option ℕ
find p [] = if starts_with p [] then some 0 else none
find p (c ∷ cs) =
    if starts_with p (c ∷ cs)
    then some 0
    else (elim (find p cs) [ none ↦ none | some i ↦ some (suc i) ])

-- `&s[i..]` and `&s[i..j]`.
abbrev pub slice_from : ℕ → List ℕ → Run (List ℕ)
slice_from i s =
    if leb i (length s) && is_boundary (drop i s) then returned (drop i s) else panicked

abbrev pub slice : ℕ → ℕ → List ℕ → Run (List ℕ)
slice i j s =
    if leb i j && leb j (length s) && is_boundary (drop i s) && is_boundary (drop j s)
    then returned (take (j - i) (drop i s))
    else panicked

-- The variables `detections` and `total_score`.
pub record Tally : Type 0 where
  pub detections : List Detection
  pub total_score : ℕ

unfoldable pub push_detection : LeakType → List ℕ → ℕ → Tally → Tally
push_detection leak_type matched score tally = record {
  detections =
      tally.detections
      ++ record { leak_type = leak_type; matched_text = matched; score_impact = score } ∷ [];
  total_score = add32 tally.total_score score;
}

-- The loop over the matches of a regular expression.
unfoldable pub scan_matches : LeakType → ℕ → List (List ℕ) → Tally → Tally
unfolding push_detection validate_luhn
scan_matches leak_type score [] tally = tally
scan_matches leak_type score (mat ∷ mats) tally =
    if is_credit_card leak_type && not (validate_luhn mat)
    then scan_matches leak_type score mats tally
    else scan_matches leak_type score mats (push_detection leak_type mat score tally)

-- The `while let` loop for one word: the text, the text in lower case, the word and the word in
-- lower case.
unfoldable pub scan_word :
    ℕ → LeakType → List ℕ → List ℕ → List ℕ → List ℕ → ℕ → ℕ → Tally → Run Tally
unfolding push_detection
scan_word zero leak_type text lower_text word lower_word score pos tally = out_of_fuel
scan_word (suc fuel) leak_type text lower_text word lower_word score pos tally =
    slice_from pos lower_text >>= λ rest. elim (find lower_word rest) [
      | none ↦ returned tally
      | some index ↦ slice (pos + index) (pos + index + length word) text >>= λ exact_match.
          scan_word fuel leak_type text lower_text word lower_word score
            (pos + (index + length word)) (push_detection leak_type exact_match score tally)
    ]

unfoldable pub severity_of : ℕ → Severity
severity_of total =
    if total == 0
    then low
    else if leb total 10
    then medium
    else if leb total 30
    then high
    else critical

module _ {Regex : Type 0} (find_iter : Regex → List ℕ → List (List ℕ))
    (to_lowercase : List ℕ → List ℕ) where
  unfoldable pub scan_words : ℕ → LeakType → List ℕ → List ℕ → List (List ℕ × ℕ) → Tally → Run Tally
  unfolding scan_word
  scan_words fuel leak_type text lower_text [] tally = returned tally
  scan_words fuel leak_type text lower_text ((word, score) ∷ dict) tally =
      scan_word fuel leak_type text lower_text word (to_lowercase word) score 0 tally >>= λ found.
      scan_words fuel leak_type text lower_text dict found

  unfoldable pub apply_rule : ℕ → List ℕ → Rule Regex → Tally → Run Tally
  unfolding scan_matches scan_words
  apply_rule fuel text (signature regex leak_type score) tally =
      returned (scan_matches leak_type score (find_iter regex text) tally)
  apply_rule fuel text (dictionary dict leak_type) tally =
      scan_words fuel leak_type text (to_lowercase text) dict tally

  unfoldable pub apply_rules : ℕ → List ℕ → List (Rule Regex) → Tally → Run Tally
  unfolding apply_rule
  apply_rules fuel text [] tally = returned tally
  apply_rules fuel text (rule ∷ rules) tally =
      apply_rule fuel text rule tally >>= λ found. apply_rules fuel text rules found

  unfoldable pub analyze : ℕ → DlpEngine Regex → List ℕ → Run AnalysisResult
  unfolding apply_rules severity_of
  analyze fuel engine text =
      apply_rules fuel text engine.rules (record { detections = []; total_score = 0 }) >>= λ tally.
      returned (record {
        is_violation = leb engine.threshold tally.total_score;
        total_score = tally.total_score;
        severity = severity_of tally.total_score;
        detections = tally.detections;
      })

  -- One thread for each document, joined in order; `unwrap` passes a panic on.
  unfoldable pub analyze_parallel : ℕ → DlpEngine Regex → List (List ℕ) → Run (List AnalysisResult)
  unfolding analyze
  analyze_parallel fuel engine [] = returned []
  analyze_parallel fuel engine (doc ∷ docs) = analyze fuel engine doc >>= λ result.
      analyze_parallel fuel engine docs >>= λ results. returned (result ∷ results)
