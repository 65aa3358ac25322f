-- ===== src/LsmHooks/Lines.antt =====
-- lsm_hooks/userspace/src/main.rs: the rule of a line of text.
use rust_samples.Prelude.{
  ℕ, ◌≡◌, refl, ap, sym, subst, ◌∙◌, none, List, [], ◌∷◌, ◌++◌, some, Bool, true, false, ◌==◌, ◌||◌,
  All, if_false, arith,
}
use rust_samples.Prelude.Text.{
  is_whitespace, is_empty, trim, trim_start, trim_end, starts_with_byte,
}
use rust_samples.LsmHooks.{
  split_words, drop_empty, split_whitespace, is_one, rule_mask, path_key, parse_parts, parse_rule,
}

-- A digit of a line, and the line of a rule: the path, and whether the file may be opened at all,
-- and for reading, for writing and for execution.
abbrev pub digit : Bool → ℕ
digit true = b'1'
digit false = b'0'

abbrev pub rule_line : List ℕ → Bool → Bool → Bool → Bool → List ℕ
rule_line path o r w e = path ++ 32 ∷ digit o ∷ 32 ∷ digit r ∷ 32 ∷ digit w ∷ 32 ∷ digit e ∷ []

abbrev pub IsWord : List ℕ → Type 0
IsWord = All (λ c. is_whitespace c ≡ false)

-- The path of a file that a rule can name.
pub record IsPath (path : List ℕ) : Type 0 where
  pub first : ℕ
  pub others : List ℕ
  pub parts : path ≡ first ∷ others
  pub no_comment : first == b'#' ≡ false
  pub is_word : IsWord path

split_words-word : (w s : List ℕ) → IsWord w → split_words (w ++ 32 ∷ s) ≡ w ∷ split_words s
unfolding split_words is_whitespace
split_words-word [] s h = refl
split_words-word (c ∷ w) s (h, hs) = rw (split_words-word w s hs, split_words) (if_false _ _ h)

digit-IsWord : (b : Bool) → IsWord (digit b ∷ [])
unfolding is_whitespace
digit-IsWord true = (refl, tt)
digit-IsWord false = (refl, tt)

split_words-digit : (b : Bool) → split_words (digit b ∷ []) ≡ (digit b ∷ []) ∷ []
unfolding split_words is_whitespace
split_words-digit true = refl
split_words-digit false = refl

is_one-digit : (b : Bool) → is_one (digit b ∷ []) ≡ b
is_one-digit true = refl
is_one-digit false = refl

rule_words :
    (path : List ℕ) (o r w e : Bool)
    → IsWord path
    → split_words (rule_line path o r w e)
      ≡ path ∷ (digit o ∷ []) ∷ (digit r ∷ []) ∷ (digit w ∷ []) ∷ (digit e ∷ []) ∷ []
rule_words path o r w e h =
    split_words-word path (digit o ∷ 32 ∷ digit r ∷ 32 ∷ digit w ∷ 32 ∷ digit e ∷ []) h
    ∙ ap (λ l. path ∷ l)
        (split_words-word (digit o ∷ []) (digit r ∷ 32 ∷ digit w ∷ 32 ∷ digit e ∷ [])
          (digit-IsWord o))
    ∙ ap (λ l. path ∷ (digit o ∷ []) ∷ l)
        (split_words-word (digit r ∷ []) (digit w ∷ 32 ∷ digit e ∷ []) (digit-IsWord r))
    ∙ ap (λ l. path ∷ (digit o ∷ []) ∷ (digit r ∷ []) ∷ l)
        (split_words-word (digit w ∷ []) (digit e ∷ []) (digit-IsWord w))
    ∙ ap (λ l. path ∷ (digit o ∷ []) ∷ (digit r ∷ []) ∷ (digit w ∷ []) ∷ l) (split_words-digit e)

trim-word : (c : ℕ) (cs : List ℕ) → is_whitespace c ≡ false → is_empty (trim (c ∷ cs)) ≡ false
unfolding trim trim_start trim_end
trim-word c cs h = ground (arith, h)

parsed :
    (c : ℕ) (cs : List ℕ) (o r w e : Bool)
    → c == b'#' ≡ false
    → IsWord (c ∷ cs)
    → parse_rule (rule_line (c ∷ cs) o r w e) ≡ some (path_key (c ∷ cs), rule_mask o r w e)
unfolding parse_rule parse_parts split_whitespace
parsed c cs o r w e no_comment h =
    let line = rule_line (c ∷ cs) o r w e in
    let sets : (is_empty (trim line) || starts_with_byte b'#' line) ≡ false =
      ap (λ b. b || c == b'#')
        (trim-word c (cs ++ 32 ∷ digit o ∷ 32 ∷ digit r ∷ 32 ∷ digit w ∷ 32 ∷ digit e ∷ []) h.0)
      ∙ no_comment in
    if_false none (parse_parts (split_whitespace line)) sets
    ∙ ap (λ ws. parse_parts (drop_empty ws)) (rule_words (c ∷ cs) o r w e h)
    ∙ rw (is_one-digit o, is_one-digit r, is_one-digit w, is_one-digit e) refl

-- The digits of a line are its rule.
pub parse_rule-rule_line :
    (path : List ℕ) (o r w e : Bool)
    → IsPath path
    → parse_rule (rule_line path o r w e) ≡ some (path_key path, rule_mask o r w e)
parse_rule-rule_line path o r w e p =
    subst (λ l. parse_rule (rule_line l o r w e) ≡ some (path_key l, rule_mask o r w e))
      (sym p.parts) (parsed p.first p.others o r w e p.no_comment (subst IsWord p.parts p.is_word))
