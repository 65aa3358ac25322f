-- ===== src/LsmHooks/Keys.antt =====
-- lsm_hooks: the keys of rules, and the buffers with which the hook looks them up.
use rust_samples.Prelude.{
  ℕ, zero, suc, ◌+◌, ◌-◌, ◌≤◌, ◌<◌, ◌≡◌, ◌≢◌, refl, ap, sym, ◌∙◌, List, [], ◌∷◌, ◌++◌, none, some,
  some_inj, Bool, true, false, ◌==◌, ◌&&◌, ◌||◌, All, length, length-take, length-replicate, take,
  drop, replicate, list_eq, list_eq_iff, arith, Bool-cases, inl, inr, if_true, if_false,
  if◌then◌else◌,
}
use rust_samples.Prelude.Text.{is_whitespace, is_empty, trim, starts_with_byte}
use rust_samples.LsmHooks.{
  FileRuleKey, FileRuleValue, split_words, grow_word, drop_empty, split_whitespace, path_key,
  parse_parts, parse_rule,
}

abbrev pub HasNoNul : List ℕ → Type 0
HasNoNul = All (λ c. c ≢ 0)

-- Only NULs.
abbrev pub all_nul : List ℕ → Bool
all_nul [] = true
all_nul (b ∷ bs) = b == 0 && all_nul bs

take-HasNoNul : (n : ℕ) (xs : List ℕ) → HasNoNul xs → HasNoNul (take n xs)
take-HasNoNul zero xs h = tt
take-HasNoNul (suc n) [] h = tt
take-HasNoNul (suc n) (x ∷ xs) h = (h.0, take-HasNoNul n xs h.1)

replicate-all_nul : (n : ℕ) (xs : List ℕ) → replicate n 0 ≡ xs → all_nul xs ≡ true
replicate-all_nul n xs e = ap all_nul (sym e) ∙ go n
  where
    go : (n : ℕ) → all_nul (replicate n 0) ≡ true
    go zero = refl
    go (suc n) = go n

head_eq : {x y : ℕ} {xs ys : List ℕ} → x ∷ xs ≡ y ∷ ys → x ≡ y
head_eq e = cc

tail_eq : {x y : ℕ} {xs ys : List ℕ} → x ∷ xs ≡ y ∷ ys → xs ≡ ys
tail_eq e = cc

take_all : (n : ℕ) (xs : List ℕ) → length xs ≤ n → take n xs ≡ xs
take_all zero [] h = refl
take_all zero (x ∷ xs) h = absurd (omega arith)
take_all (suc n) [] h = refl
take_all (suc n) (x ∷ xs) h = ap (◌∷◌ x) (take_all n xs (omega arith))

second : (a b : Bool) → (a && b) ≡ true → b ≡ true
second true b h = h
second false b h = cc

nul_suffix : (path stale : List ℕ) → all_nul (path ++ 0 ∷ stale) ≡ true → all_nul stale ≡ true
nul_suffix [] stale h = h
nul_suffix (p ∷ path) stale h =
    nul_suffix path stale (second (p == 0) (all_nul (path ++ 0 ∷ stale)) h)

-- Where a name, NULs, is a name, a NUL and more, these are NULs too.
padded_tail :
    (xs path stale : List ℕ) (n : ℕ)
    → HasNoNul xs
    → HasNoNul path
    → xs ++ replicate n 0 ≡ path ++ 0 ∷ stale
    → all_nul stale ≡ true
padded_tail [] path stale n hx hp e =
    nul_suffix path stale (replicate-all_nul n (path ++ 0 ∷ stale) e)
padded_tail (x ∷ xs) [] stale n (hx, hxs) hp e = absurd (hx (head_eq e))
padded_tail (x ∷ xs) (p ∷ path) stale n (hx, hxs) (hp, hps) e =
    padded_tail xs path stale n hxs hps (tail_eq e)

-- No key of a path without NULs is a buffer that has more than NULs behind its path.
pub path_key-other :
    (q path stale : List ℕ)
    → HasNoNul q
    → HasNoNul path
    → all_nul stale ≡ false
    → list_eq (path_key q) (path ++ 0 ∷ stale) ≡ false
unfolding path_key
path_key-other q path stale hq hp remains =
    elim (Bool-cases (list_eq (path_key q) (path ++ 0 ∷ stale))) [
      | inr other ↦ other
      | inl same ↦ absurd (
          differ
            (padded_tail (take 255 q) path stale _ (take-HasNoNul 255 q hq) hp
              ((list_eq_iff (path_key q) (path ++ 0 ∷ stale)).0 same))
            remains)
    ]
  where
    differ : {b : Bool} → b ≡ true → b ≡ false → ⊥
    differ h k = cc

replicate-nuls : (xs : List ℕ) → all_nul xs ≡ true → replicate (length xs) 0 ≡ xs
replicate-nuls [] h = refl
replicate-nuls (x ∷ xs) h = ground (arith, replicate-nuls xs)

-- A buffer that is padded with NULs is the key of its path.
pub path_key-padded :
    (path stale : List ℕ)
    → length path + 1 + length stale ≡ 256
    → all_nul stale ≡ true
    → path_key path ≡ path ++ 0 ∷ stale
unfolding path_key
path_key-padded path stale size padded =
    let short : take 255 path ≡ path = take_all 255 path (omega (arith, size)) in
    let rest : 256 - length path ≡ suc (length stale) = omega (arith, size) in
    ap (λ p. p ++ replicate (256 - length p) 0) short
    ∙ ap (λ n. path ++ replicate n 0) rest
    ∙ ap (λ l. path ++ 0 ∷ l) (replicate-nuls stale padded)

-- The words of a line without NULs have none.
abbrev AllWords : List (List ℕ) → Type 0
AllWords = All HasNoNul

grow_word-AllWords : (c : ℕ) (ws : List (List ℕ)) → c ≢ 0 → AllWords ws → AllWords (grow_word c ws)
grow_word-AllWords c [] h hs = ((h, tt), tt)
grow_word-AllWords c (w ∷ ws) h hs = ((h, hs.0), hs.1)

split_words-AllWords : (line : List ℕ) → HasNoNul line → AllWords (split_words line)
unfolding split_words
split_words-AllWords [] h = (tt, tt)
split_words-AllWords (c ∷ cs) (h, hs) =
    either (is_whitespace c) (split_words cs) (split_words-AllWords cs hs)
  where
    either :
        (b : Bool) (rest : List (List ℕ))
        → AllWords rest
        → AllWords (if b then [] ∷ rest else grow_word c rest)
    either true rest r = (tt, r)
    either false rest r = grow_word-AllWords c rest h r

drop_empty-AllWords : (ws : List (List ℕ)) → AllWords ws → AllWords (drop_empty ws)
drop_empty-AllWords [] h = tt
drop_empty-AllWords ([] ∷ ws) h = drop_empty-AllWords ws h.1
drop_empty-AllWords ((c ∷ w) ∷ ws) h = (h.0, drop_empty-AllWords ws h.1)

-- The key of a rule is that of a path without NULs.
abbrev pub IsPathKey : FileRuleKey × FileRuleValue → Type 0
IsPathKey rule = (q : List ℕ) × HasNoNul q × (rule.0 ≡ path_key q)

none≢some {ℓ} : {A : Type ℓ} {a : A} → none ≡ some a → ⊥
none≢some e = cc

parse_parts-IsPathKey :
    (ws : List (List ℕ)) (rule : FileRuleKey × FileRuleValue)
    → AllWords ws
    → parse_parts ws ≡ some rule
    → IsPathKey rule
unfolding parse_parts
parse_parts-IsPathKey [] rule h e = absurd (none≢some e)
parse_parts-IsPathKey (a ∷ []) rule h e = absurd (none≢some e)
parse_parts-IsPathKey (a ∷ b ∷ []) rule h e = absurd (none≢some e)
parse_parts-IsPathKey (a ∷ b ∷ c ∷ []) rule h e = absurd (none≢some e)
parse_parts-IsPathKey (a ∷ b ∷ c ∷ d ∷ []) rule h e = absurd (none≢some e)
parse_parts-IsPathKey (a ∷ b ∷ c ∷ d ∷ f ∷ []) rule h e =
    (a, h.0, ap (λ x. x.0) (sym (some_inj.0 e)))
parse_parts-IsPathKey (a ∷ b ∷ c ∷ d ∷ f ∷ g ∷ ws) rule h e = absurd (none≢some e)

pub parse_rule-IsPathKey :
    (line : List ℕ) (rule : FileRuleKey × FileRuleValue)
    → HasNoNul line
    → parse_rule line ≡ some rule
    → IsPathKey rule
unfolding parse_rule split_whitespace
parse_rule-IsPathKey line rule h e =
    elim (Bool-cases (is_empty (trim line) || starts_with_byte b'#' line)) [
      | inl skipped ↦
          absurd (none≢some (sym (if_true none (parse_parts (split_whitespace line)) skipped) ∙ e))
      | inr kept ↦
          parse_parts-IsPathKey (split_whitespace line) rule
            (drop_empty-AllWords (split_words line) (split_words-AllWords line h))
            (sym (if_false none (parse_parts (split_whitespace line)) kept) ∙ e)
    ]

-- The buffer after the kernel's bpf_d_path: the path and its NUL are built at its end, and moved to
-- its front; this is what then stands behind them.
abbrev pub left_behind : List ℕ → List ℕ → List ℕ
left_behind path buffer =
    drop (length path + 1) (take (length buffer - (length path + 1)) buffer ++ (path ++ 0 ∷ []))

abbrev pub moved_to_front : List ℕ → List ℕ → List ℕ
moved_to_front path buffer = path ++ 0 ∷ left_behind path buffer

remains_lem :
    (k : ℕ) (front path : List ℕ)
    → HasNoNul path
    → 0 < length path
    → k < length front + length path
    → all_nul (drop k (front ++ (path ++ 0 ∷ []))) ≡ false
remains_lem k [] [] h ne less = absurd (omega (arith, less))
remains_lem zero [] (p ∷ path) h ne less = ground (arith, h.0)
remains_lem (suc k) [] (p ∷ path) h ne less =
    remains_lem k [] path h.1 (omega (arith, less)) (omega (arith, less))
remains_lem zero (x ∷ front) path h ne less =
    ground (arith, remains_lem zero front path h ne (omega (arith, ne)))
remains_lem (suc k) (x ∷ front) path h ne less = remains_lem k front path h ne (omega (arith, less))

abbrev pub zeros : List ℕ
zeros = replicate 256 0

-- A path of at most 253 bytes, built in the buffer of zeros, still has its last byte at the end.
pub left_behind_lem :
    (path : List ℕ)
    → HasNoNul path
    → 0 < length path
    → length path ≤ 253
    → all_nul (left_behind path zeros) ≡ false
left_behind_lem path h ne short =
    let size : length zeros ≡ 256 = length-replicate {A = ℕ} 256 0 in
    remains_lem (length path + 1) (take (length zeros - (length path + 1)) zeros) path h ne
      (ground (arith, size, length-take (length zeros - (length path + 1)) zeros))
