-- ===== src/Dlp/Totality.antt =====
-- dlp/dlp_analyzer/src/main.rs: the loops of `analyze` and their fuel.
use rust_samples.Prelude.{
  leb, true, some, ◌%◌, ◌^◌, ◌≤◌, ◌↔◌, ℕ, zero, suc, ◌<◌, ◌≡◌, refl, List, [], ◌∷◌, length, map,
  All, arith,
}
use rust_samples.Dlp.Scores.{total_impact, analyze_scores}
use rust_samples.Dlp.{
  LeakType, critical, AnalysisResult, Rule, signature, dictionary, DlpEngine, returned, out_of_fuel,
  ◌>>=◌,
}
use rust_samples.Dlp.Engine.{
  Tally, scan_word, scan_words, apply_rule, apply_rules, analyze, find, severity_of, slice,
  slice_from, push_detection,
}
use rust_samples.Prelude.Text.{is_boundary}
use rust_samples.Dlp.Matches.{ascii_lower, Ascii, push_all, scan_word_from}

-- The words of a dictionary whose search is known to end.
abbrev pub IsSearchable : {Regex : Type 0} → Rule Regex → Type 0
IsSearchable (signature regex leak_type score) = Unit
IsSearchable (dictionary dict leak_type) = All (λ entry. Ascii entry.0 × (0 < length entry.0)) dict

-- What the standard library documents of `to_lowercase` on ASCII.
abbrev pub LowersAscii : (List ℕ → List ℕ) → Type 0
LowersAscii to_lowercase = (s : List ℕ) → Ascii s → to_lowercase s ≡ map ascii_lower s

module _ {Regex : Type 0} (find_iter : Regex → List ℕ → List (List ℕ))
    (to_lowercase : List ℕ → List ℕ) where
  scan_words_returns :
      (fuel : ℕ) (leak_type : LeakType) (text : List ℕ) (dict : List (List ℕ × ℕ)) (t : Tally)
      → LowersAscii to_lowercase
      → Ascii text
      → length text < fuel
      → All (λ entry. Ascii entry.0 × (0 < length entry.0)) dict
      → (t' : Tally) × (scan_words find_iter to_lowercase fuel leak_type text
            (map ascii_lower text)
            dict
            t
          ≡ returned t')
  unfolding scan_words
  scan_words_returns fuel leak_type text [] t lower ht enough words = (t, refl)
  scan_words_returns fuel leak_type text ((word, score) ∷ dict) t lower ht enough words =
      let (ms, _, found) =
        scan_word_from leak_type text word score fuel 0 t ht words.0.0 words.0.1 (omega arith)
          (omega arith) in
      let (t', more) =
        scan_words_returns fuel leak_type text dict (push_all leak_type score ms t) lower ht enough
          words.1 in
      (t', rw (lower word words.0.0) (rw (found, ◌>>=◌) more))

  apply_rules_returns :
      (fuel : ℕ) (text : List ℕ) (rules : List (Rule Regex)) (t : Tally)
      → LowersAscii to_lowercase
      → Ascii text
      → length text < fuel
      → All IsSearchable rules
      → (t' : Tally) × (apply_rules find_iter to_lowercase fuel text rules t ≡ returned t')
  unfolding apply_rules apply_rule
  apply_rules_returns fuel text [] t lower ht enough words = (t, refl)
  apply_rules_returns fuel text (signature regex leak_type score ∷ rules) t lower ht enough words =
      apply_rules_returns fuel text rules _ lower ht enough words.1
  apply_rules_returns fuel text (dictionary dict leak_type ∷ rules) t lower ht enough words =
      let (found, one) = scan_words_returns fuel leak_type text dict t lower ht enough words.0 in
      let (t', more) = apply_rules_returns fuel text rules found lower ht enough words.1 in
      (t', rw (lower text ht) (rw (one, ◌>>=◌) more))

  pub analyze_returns :
      (fuel : ℕ) (engine : DlpEngine Regex) (text : List ℕ)
      → LowersAscii to_lowercase
      → Ascii text
      → length text < fuel
      → All IsSearchable engine.rules
      → (r : AnalysisResult) × (analyze find_iter to_lowercase fuel engine text ≡ returned r)
  unfolding analyze
  analyze_returns fuel engine text lower ht enough words =
      let (t, e) =
        apply_rules_returns fuel text engine.rules (record { detections = []; total_score = 0 })
          lower ht enough words in
      (
        record {
          is_violation = leb engine.threshold t.total_score;
          total_score = t.total_score;
          severity = severity_of t.total_score;
          detections = t.detections;
        },
        rw (e, ◌>>=◌) refl,
      )

  -- The analysis of an ASCII document ends without a panic when no dictionary has an empty or a
  -- non-ASCII word: a unit of fuel for each byte and one more are enough. Its total score is the
  -- sum of the weights of the detections that it lists, as a u32 that wraps; the document is in
  -- violation exactly when the score reaches the threshold, and critical exactly when the score is
  -- above 30.
  pub analyze_lem :
      (fuel : ℕ) (engine : DlpEngine Regex) (text : List ℕ)
      → LowersAscii to_lowercase
      → Ascii text
      → length text < fuel
      → All IsSearchable engine.rules
      → (r : AnalysisResult) × (analyze find_iter to_lowercase fuel engine text ≡ returned r)
        × (r.total_score ≡ total_impact r.detections % 2 ^ 32)
        × ((r.is_violation ≡ true) ↔ (engine.threshold ≤ r.total_score))
        × ((r.severity ≡ critical) ↔ (30 < r.total_score))
  analyze_lem fuel engine text lower ht enough words =
      let (r, e) = analyze_returns fuel engine text lower ht enough words in
      let (total, violation, severe) = analyze_scores find_iter to_lowercase fuel engine text r e in
      (r, e, total, violation, severe)

find_empty : (s : List ℕ) → find [] s ≡ some 0
find_empty [] = refl
find_empty (c ∷ cs) = refl

slice_from_zero : (s : List ℕ) → is_boundary s ≡ true → slice_from 0 s ≡ returned s
slice_from_zero s h = let fits : leb 0 (length s) ≡ true = ground arith in rw (fits, h) refl

slice_zero : (s : List ℕ) → is_boundary s ≡ true → slice 0 0 s ≡ returned []
slice_zero s h = let fits : leb 0 (length s) ≡ true = ground arith in rw (fits, h) refl

-- The search for an empty word never ends, in any text and whatever is recorded already.
pub scan_word_endless :
    (fuel : ℕ) (leak_type : LeakType) (text lower_text : List ℕ) (score : ℕ) (t : Tally)
    → is_boundary text ≡ true
    → is_boundary lower_text ≡ true
    → scan_word fuel leak_type text lower_text [] [] score 0 t ≡ out_of_fuel
unfolding scan_word
scan_word_endless zero leak_type text lower_text score t ht hl = refl
scan_word_endless (suc fuel) leak_type text lower_text score t ht hl =
    rw (slice_from_zero lower_text hl, ◌>>=◌)
      (rw (find_empty lower_text, ◌>>=◌)
        (rw (slice_zero text ht, ◌>>=◌)
          (scan_word_endless fuel leak_type text lower_text score
            (push_detection leak_type [] score t) ht hl)))
