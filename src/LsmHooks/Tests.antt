-- ===== src/LsmHooks/Tests.antt =====
-- The rules' theorems at a concrete line, with a bpf_d_path that pads the buffer with NULs and one
-- that leaves the path at its end.
use rust_samples.Prelude.{
  ℕ, ◌-◌, ◌≡◌, refl, List, [], ◌∷◌, ◌++◌, Option, some, true, false, replicate, length, arith,
  bytes_key,
}
use rust_samples.Prelude.Text.{codes, is_whitespace}
use rust_samples.Prelude.Maps.{lookup}
use rust_samples.BpfMap.{BpfMap, bounded_map, bounded_put}
use rust_samples.LsmHooks.{
  FileRuleKey, FileRuleValue, OpenedFile, granted, eacces, file_open, reload_rules,
}
use rust_samples.LsmHooks.Lines.{rule_line, IsWord, IsPath}
use rust_samples.LsmHooks.Keys.{HasNoNul, moved_to_front}
use rust_samples.LsmHooks.Enforced.{rule_is_enforced, short_path_granted}

abbrev rules_map : BpfMap FileRuleKey FileRuleValue bytes_key
rules_map = bounded_map bytes_key 1024

abbrev shadow : List ℕ
shadow = codes "/etc/shadow"

-- It may be opened for reading only.
abbrev line : List ℕ
line = rule_line shadow true true false false

abbrev padding : List ℕ → List ℕ → Option (List ℕ)
padding path buffer = some (path ++ 0 ∷ replicate (256 - length path - 1) 0)

abbrev moving : List ℕ → List ℕ → Option (List ℕ)
moving path buffer = some (moved_to_front path buffer)

shadow-IsWord : IsWord shadow
unfolding is_whitespace
shadow-IsWord =
    (refl, (refl, (refl, (refl, (refl, (refl, (refl, (refl, (refl, (refl, (refl, tt)))))))))))

shadow-IsPath : IsPath shadow
shadow-IsPath = record {
  first = b'/';
  others = codes "etc/shadow";
  parts = refl;
  no_comment = refl;
  is_word = shadow-IsWord;
}

shadow-HasNoNul : HasNoNul shadow
shadow-HasNoNul = omega arith

has_room :
    (key : FileRuleKey) (value : FileRuleValue)
    → (m : List (FileRuleKey × FileRuleValue)) × (bounded_put bytes_key 1024 key value [] ≡ some m)
unfolding bounded_put
has_room key value = ((key, value) ∷ [], refl)

-- O_WRONLY.
abbrev writer : OpenedFile
writer = record { f_path = shadow; f_flags = 1 }

rule_is_enforced_example :
    file_open (λ key. lookup key (reload_rules rules_map (some line ∷ []) [])) padding (some writer)
    ≡ eacces
unfolding reload_rules
rule_is_enforced_example =
    rule_is_enforced rules_map padding [] shadow (replicate 244 0) true true false false 1 [] tt
      shadow-IsPath shadow-HasNoNul refl refl has_room (λ e. refl)

short_path_granted_example :
    file_open (λ key. lookup key (reload_rules rules_map (some line ∷ []) [])) moving (some writer)
    ≡ granted
short_path_granted_example =
    short_path_granted rules_map moving (line ∷ []) shadow 1 [] (λ path buffer h. refl)
      (omega arith, tt) shadow-HasNoNul (omega arith) (omega arith) (λ key. refl)
