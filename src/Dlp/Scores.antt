-- ===== src/Dlp/Scores.antt =====
-- dlp/dlp_analyzer/src/main.rs: the score and the detections of an analysis.
use rust_samples.Prelude.{
  ℕ, zero, suc, ◌+◌, ◌%◌, ◌^◌, ◌≤◌, ◌<◌, ◌≡◌, ◌≢◌, ◌↔◌, refl, sym, List, [], ◌∷◌, ◌++◌, true, false,
  not, ◌&&◌, arith, leb, length, All, All-append, inl, inr, Bool-cases, Option-cases, subst,
}
use rust_samples.Dlp.{
  LeakType, credit_card, is_credit_card, critical, Detection, AnalysisResult, Rule, signature,
  dictionary, DlpEngine, Run, returned, panicked, out_of_fuel, ◌>>=◌,
}
use rust_samples.Dlp.Luhn.{validate_luhn}
use rust_samples.Dlp.Engine.{
  find, slice, slice_from, Tally, push_detection, scan_matches, scan_word, severity_of, scan_words,
  apply_rule, apply_rules, analyze,
}

bind-eq-returned {ℓ κ} :
    {A : Type ℓ} {B : Type κ} (r : Run A) (f : A → Run B) {b : B}
    → (r >>= f) ≡ returned b
    → (a : A) × (r ≡ returned a) × (f a ≡ returned b)
bind-eq-returned (returned a) f h = (a, refl, h)
bind-eq-returned panicked f h = cc
bind-eq-returned out_of_fuel f h = cc

returned-injective {ℓ} : {A : Type ℓ} {a b : A} → returned a ≡ returned b → a ≡ b
returned-injective e = cc

-- A dictionary's leak type is as `Q` says.
abbrev pub HasDictionary : {Regex : Type 0} → (LeakType → Type 0) → Rule Regex → Type 0
HasDictionary Q (signature regex leak_type score) = Unit
HasDictionary Q (dictionary dict leak_type) = Q leak_type

-- What every recorded match keeps holds in the end.
module _ (P : Tally → Type 0) (Q : LeakType → Type 0)
    (keeps_signature : (leak_type : LeakType) (m : List ℕ) (score : ℕ) (t : Tally)
      → (is_credit_card leak_type && not (validate_luhn m)) ≡ false
      → P t
      → P (push_detection leak_type m score t))
    (keeps_dictionary : (leak_type : LeakType) (m : List ℕ) (score : ℕ) (t : Tally)
      → Q leak_type
      → P t
      → P (push_detection leak_type m score t)) where
  scan_matches_keeps :
      (leak_type : LeakType) (score : ℕ) (ms : List (List ℕ)) (t : Tally)
      → P t
      → P (scan_matches leak_type score ms t)
  unfolding scan_matches
  scan_matches_keeps leak_type score [] t h = h
  scan_matches_keeps leak_type score (m ∷ ms) t h =
      elim (Bool-cases (is_credit_card leak_type && not (validate_luhn m))) [
        | inl skipped ↦ rw skipped (scan_matches_keeps leak_type score ms t h)
        | inr taken ↦ rw taken (
            scan_matches_keeps leak_type score ms (push_detection leak_type m score t)
              (keeps_signature leak_type m score t taken h))
      ]

  scan_word_keeps :
      (fuel : ℕ) (leak_type : LeakType) (text lower_text word lower_word : List ℕ) (score pos : ℕ)
      (t t' : Tally)
      → Q leak_type
      → P t
      → scan_word fuel leak_type text lower_text word lower_word score pos t ≡ returned t'
      → P t'
  unfolding scan_word
  scan_word_keeps zero leak_type text lower_text word lower_word score pos t t' q h e = cc
  scan_word_keeps (suc fuel) leak_type text lower_text word lower_word score pos t t' q h e =
      let (rest, cut, found) = bind-eq-returned (slice_from pos lower_text) _ e in
      elim (Option-cases (find lower_word rest)) [
        | inl missing ↦ subst P (returned-injective (rw missing at found)) h
        | inr (i, at_i) ↦
            let (m, sliced, more) =
              bind-eq-returned (slice (pos + i) (pos + i + length word) text) _
                (rw at_i at found) in
            scan_word_keeps fuel leak_type text lower_text word lower_word score
              (pos + (i + length word)) (push_detection leak_type m score t) t' q
              (keeps_dictionary leak_type m score t q h) more
      ]

  module _ {Regex : Type 0} (find_iter : Regex → List ℕ → List (List ℕ))
      (to_lowercase : List ℕ → List ℕ) where
    scan_words_keeps :
        (fuel : ℕ) (leak_type : LeakType) (text lower_text : List ℕ) (dict : List (List ℕ × ℕ))
        (t t' : Tally)
        → Q leak_type
        → P t
        → scan_words find_iter to_lowercase fuel leak_type text lower_text dict t ≡ returned t'
        → P t'
    unfolding scan_words
    scan_words_keeps fuel leak_type text lower_text [] t t' q h e = subst P (returned-injective e) h
    scan_words_keeps fuel leak_type text lower_text ((word, score) ∷ dict) t t' q h e =
        let (found, one, more) =
          bind-eq-returned
            (scan_word fuel leak_type text lower_text word (to_lowercase word) score 0 t) _ e in
        scan_words_keeps fuel leak_type text lower_text dict found t' q
          (scan_word_keeps fuel leak_type text lower_text word (to_lowercase word) score 0 t found q
            h one)
          more

    apply_rules_keeps :
        (fuel : ℕ) (text : List ℕ) (rules : List (Rule Regex)) (t t' : Tally)
        → All (HasDictionary Q) rules
        → P t
        → apply_rules find_iter to_lowercase fuel text rules t ≡ returned t'
        → P t'
    unfolding apply_rules apply_rule
    apply_rules_keeps fuel text [] t t' q h e = subst P (returned-injective e) h
    apply_rules_keeps fuel text (signature regex leak_type score ∷ rules) t t' q h e =
        apply_rules_keeps fuel text rules _ t' q.1
          (scan_matches_keeps leak_type score (find_iter regex text) t h) e
    apply_rules_keeps fuel text (dictionary dict leak_type ∷ rules) t t' q h e =
        let (found, one, more) =
          bind-eq-returned
            (scan_words find_iter to_lowercase fuel leak_type text (to_lowercase text) dict t) _
            e in
        apply_rules_keeps fuel text rules found t' q.1
          (scan_words_keeps fuel leak_type text (to_lowercase text) dict t found q.0 h one) more

    -- The tally that an analysis ends with.
    analyze_keeps :
        (fuel : ℕ) (engine : DlpEngine Regex) (text : List ℕ) (r : AnalysisResult)
        → All (HasDictionary Q) engine.rules
        → P (record { detections = []; total_score = 0 })
        → analyze find_iter to_lowercase fuel engine text ≡ returned r
        → (t : Tally) × P t
          × (r ≡ record {
            is_violation = leb engine.threshold t.total_score;
            total_score = t.total_score;
            severity = severity_of t.total_score;
            detections = t.detections;
          })
    unfolding analyze
    analyze_keeps fuel engine text r q h e =
        let (t, runs, same) =
          bind-eq-returned
            (apply_rules find_iter to_lowercase fuel text engine.rules
              (record { detections = []; total_score = 0 }))
            _ e in
        (
          t,
          apply_rules_keeps fuel text engine.rules (record { detections = []; total_score = 0 }) t q
              h runs,
          sym (returned-injective same),
        )

-- The weights of the detections together.
abbrev pub total_impact : List Detection → ℕ
total_impact [] = 0
total_impact (d ∷ ds) = d.score_impact + total_impact ds

total_impact-append :
    (xs ys : List Detection) → total_impact (xs ++ ys) ≡ total_impact xs + total_impact ys
total_impact-append [] ys = omega arith
total_impact-append (x ∷ xs) ys = omega (arith, total_impact-append xs ys)

abbrev IsScored : Tally → Type 0
IsScored t = t.total_score ≡ total_impact t.detections % 2 ^ 32

push-IsScored :
    (leak_type : LeakType) (m : List ℕ) (score : ℕ) (t : Tally)
    → IsScored t
    → IsScored (push_detection leak_type m score t)
unfolding push_detection
push-IsScored leak_type m score t h =
    let d : Detection = record { leak_type = leak_type; matched_text = m; score_impact = score } in
    omega (arith, h, total_impact-append t.detections (d ∷ []))

-- A detection that is called a bank card passes the Luhn check.
abbrev pub CardIsValid : Detection → Type 0
CardIsValid d = d.leak_type ≡ credit_card → validate_luhn d.matched_text ≡ true

abbrev pub NotCard : LeakType → Type 0
NotCard leak_type = leak_type ≢ credit_card

abbrev AllCardsValid : Tally → Type 0
AllCardsValid t = All CardIsValid t.detections

push-AllCardsValid :
    (leak_type : LeakType) (m : List ℕ) (score : ℕ) (t : Tally)
    → (leak_type ≡ credit_card → validate_luhn m ≡ true)
    → AllCardsValid t
    → AllCardsValid (push_detection leak_type m score t)
unfolding push_detection
push-AllCardsValid leak_type m score t valid h = All-append CardIsValid t.detections _ h (valid, tt)

taken-valid :
    (leak_type : LeakType) (m : List ℕ)
    → (is_credit_card leak_type && not (validate_luhn m)) ≡ false
    → leak_type ≡ credit_card
    → validate_luhn m ≡ true
taken-valid leak_type m taken card =
    let plain : (is_credit_card credit_card && not (validate_luhn m)) ≡ false =
      subst (λ l. (is_credit_card l && not (validate_luhn m)) ≡ false) card taken in
    ground arith

All-dictionaries :
    {Regex : Type 0} (rules : List (Rule Regex)) → All (HasDictionary (λ l. Unit)) rules
All-dictionaries [] = tt
All-dictionaries (signature regex leak_type score ∷ rules) = (tt, All-dictionaries rules)
All-dictionaries (dictionary dict leak_type ∷ rules) = (tt, All-dictionaries rules)

severity_of_critical : (n : ℕ) → (severity_of n ≡ critical) ↔ (30 < n)
unfolding severity_of
severity_of_critical n = ground arith

module _ {Regex : Type 0} (find_iter : Regex → List ℕ → List (List ℕ))
    (to_lowercase : List ℕ → List ℕ) where
  -- The total score of an analysis is the sum of the weights of the detections that it lists, as
  -- a u32 that wraps; the document is in violation exactly when the score reaches the threshold,
  -- and critical exactly when the score is above 30.
  pub analyze_scores :
      (fuel : ℕ) (engine : DlpEngine Regex) (text : List ℕ) (r : AnalysisResult)
      → analyze find_iter to_lowercase fuel engine text ≡ returned r
      → (r.total_score ≡ total_impact r.detections % 2 ^ 32)
        × ((r.is_violation ≡ true) ↔ (engine.threshold ≤ r.total_score))
        × ((r.severity ≡ critical) ↔ (30 < r.total_score))
  analyze_scores fuel engine text r e =
      let threshold_iff : (n : ℕ) → (leb engine.threshold n ≡ true) ↔ (engine.threshold ≤ n) =
        λ n. ground arith in
      let (t, scored, same) =
        analyze_keeps IsScored (λ l. Unit) (λ l m s t skip h. push-IsScored l m s t h)
          (λ l m s t q h. push-IsScored l m s t h) find_iter to_lowercase fuel engine text r
          (All-dictionaries engine.rules) refl e in
      rw same (scored, threshold_iff t.total_score, severity_of_critical t.total_score)

  -- No bank card is reported that fails the Luhn check, unless a dictionary is declared to list
  -- bank cards.
  pub analyze_cards :
      (fuel : ℕ) (engine : DlpEngine Regex) (text : List ℕ) (r : AnalysisResult)
      → All (HasDictionary NotCard) engine.rules
      → analyze find_iter to_lowercase fuel engine text ≡ returned r
      → All CardIsValid r.detections
  analyze_cards fuel engine text r q e =
      let (t, cards, same) =
        analyze_keeps AllCardsValid NotCard
          (λ l m s t skip h. push-AllCardsValid l m s t (taken-valid l m skip) h)
          (λ l m s t q h. push-AllCardsValid l m s t (λ e. absurd (q e)) h) find_iter to_lowercase
          fuel engine text r q tt e in
      rw same cards
