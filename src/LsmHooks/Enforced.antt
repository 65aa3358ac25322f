-- ===== src/LsmHooks/Enforced.antt =====
-- lsm_hooks/bpf/src/main.rs under the rules that lsm_hooks/userspace/src/main.rs loads.
use rust_samples.Prelude.{
  ℕ, ◌≡◌, refl, sym, ap, ◌∙◌, List, [], ◌∷◌, ◌++◌, some, Bool, true, false, not, ◌&&◌, ◌||◌,
  bit_and, ◌==◌, if◌then◌else◌, if_true, map, unwrap_or, bytes_key, list_eq, list_eq_iff, arith,
  All, ◌≤◌, ◌<◌, length-replicate, Option, none, inl, inr, Option-cases, Bool-cases, if_false,
  replicate, length, ◌+◌,
}
use rust_samples.BpfMap.{BpfMap}
use rust_samples.LsmHooks.{
  FileRuleKey, FileRuleValue, granted, eacces, requested, requested_mask, file_open, rule_mask,
  parse_rule, apply_rule, reload_rules, path_key,
}
use rust_samples.LsmHooks.Lines.{rule_line, IsPath, parse_rule-rule_line}
use rust_samples.LsmHooks.Keys.{
  HasNoNul, all_nul, path_key-other, path_key-padded, parse_rule-IsPathKey, IsPathKey,
  moved_to_front, left_behind, left_behind_lem, zeros,
}

-- What a rule allows, said without masks: the open itself, and each operation that the file is
-- opened for.
abbrev pub allows : Bool → Bool → Bool → Bool → Bool → Bool → Bool → Bool → Bool
allows opens reads writes executes read_only write_only read_write exec =
    opens
    && (not read_only || reads)
    && (not write_only || writes)
    && (not read_write || (reads && writes))
    && (not exec || executes)

-- Whether the file is opened for reading, writing or both, and for execution.
abbrev pub allows_flags : Bool → Bool → Bool → Bool → ℕ → Bool
allows_flags opens reads writes executes f_flags =
    allows opens reads writes executes (bit_and f_flags 3 == 0) (bit_and f_flags 3 == 1)
      (bit_and f_flags 3 == 2) (not (bit_and f_flags 0x20 == 0))

abbrev mask_test : Bool → Bool → Bool → Bool → Bool → Bool → Bool → Bool → Bool
mask_test o r w e ro wo rw_ x =
    bit_and (rule_mask o r w e) (requested ro wo rw_ x) == requested ro wo rw_ x

abbrev same : Bool → Bool → Bool
same true b = b
same false b = not b

same_eq : (a b : Bool) → same a b ≡ true → a ≡ b
same_eq true true h = refl
same_eq true false h = sym h
same_eq false true h = h
same_eq false false h = refl

-- A check of both truth values.
abbrev both : (Bool → Bool) → Bool
both p = p true && p false

both_lem : (p : Bool → Bool) (b : Bool) → both p ≡ true → p b ≡ true
both_lem p true h = ground arith
both_lem p false h = ground arith

masks_checked :
    both (λ o. both (λ r. both (λ w. both (λ e. both (λ a.
      both (λ b.
        both (λ c. both (λ x. same (mask_test o r w e a b c x) (allows o r w e a b c x)))))))))
    ≡ true
unfolding rule_mask requested
masks_checked = refl

-- The mask's test is that of the operations.
mask_test_lem : (o r w e a b c x : Bool) → mask_test o r w e a b c x ≡ allows o r w e a b c x
mask_test_lem o r w e a b c x =
    let p = λ (o r w e a b c x : Bool). same (mask_test o r w e a b c x) (allows o r w e a b c x) in
    same_eq (mask_test o r w e a b c x) (allows o r w e a b c x) (
      both_lem (λ x. p o r w e a b c x) x
        (both_lem (λ c. both (λ x. p o r w e a b c x)) c
          (both_lem (λ b. both (λ c. both (λ x. p o r w e a b c x))) b
            (both_lem (λ a. both (λ b. both (λ c. both (λ x. p o r w e a b c x)))) a
              (both_lem (λ e. both (λ a. both (λ b. both (λ c. both (λ x. p o r w e a b c x))))) e
                (both_lem
                  (λ w.
                    both (λ e. both (λ a. both (λ b. both (λ c. both (λ x. p o r w e a b c x))))))
                  w
                  (both_lem
                    (λ r. both (λ w.
                      both
                        (λ e. both (λ a. both (λ b. both (λ c. both (λ x. p o r w e a b c x)))))))
                    r
                    (both_lem
                      (λ o. both (λ r. both (λ w.
                        both (λ e.
                          both (λ a. both (λ b. both (λ c. both (λ x. p o r w e a b c x))))))))
                      o masks_checked))))))))

module _ (map_ : BpfMap FileRuleKey FileRuleValue bytes_key) where
  open map_ use {State, get, put, get-put}

  reload_rules-append :
      (earlier : List (List ℕ)) (line : List ℕ) (s : State)
      → reload_rules map_ (map some earlier ++ some line ∷ []) s
        ≡ apply_rule map_ (parse_rule line) (reload_rules map_ (map some earlier) s)
  unfolding reload_rules
  reload_rules-append [] line s = refl
  reload_rules-append (l ∷ ls) line s =
      reload_rules-append ls line (apply_rule map_ (parse_rule l) s)

  -- A buffer that is no key of a path is found by no rule.
  apply_rule-missed :
      (rule : FileRuleKey × FileRuleValue) (path stale : List ℕ) (s : State)
      → IsPathKey rule
      → HasNoNul path
      → all_nul stale ≡ false
      → get (path ++ 0 ∷ stale) (apply_rule map_ (some rule) s) ≡ get (path ++ 0 ∷ stale) s
  unfolding apply_rule
  apply_rule-missed rule path stale s (q, hq, is_key) hp remains =
      let other : list_eq rule.0 (path ++ 0 ∷ stale) ≡ false =
        ap (λ k. list_eq k (path ++ 0 ∷ stale)) is_key
        ∙ path_key-other q path stale hq hp remains in
      elim (Option-cases (put rule.0 rule.1 s)) [
        | inl e ↦ rw e refl
        | inr (s', e) ↦ rw e (
            get-put rule.0 (path ++ 0 ∷ stale) rule.1 s s' e
            ∙ if_false (some rule.1) (get (path ++ 0 ∷ stale) s) other)
      ]

  reload_rules-missed :
      (lines : List (List ℕ)) (path stale : List ℕ) (s : State)
      → All HasNoNul lines
      → HasNoNul path
      → all_nul stale ≡ false
      → get (path ++ 0 ∷ stale) (reload_rules map_ (map some lines) s) ≡ get (path ++ 0 ∷ stale) s
  unfolding reload_rules apply_rule
  reload_rules-missed [] path stale s h hp remains = refl
  reload_rules-missed (l ∷ ls) path stale s (h, hs) hp remains =
      reload_rules-missed ls path stale (apply_rule map_ (parse_rule l) s) hs hp remains
      ∙ elim (Option-cases (parse_rule l)) [
        | inl e ↦ rw e refl
        | inr (rule, e) ↦
            ap (λ x. get (path ++ 0 ∷ stale) (apply_rule map_ x s)) e
            ∙ apply_rule-missed rule path stale s (parse_rule-IsPathKey l rule h e) hp remains
      ]

  -- The last line's entry is found under its key.
  reload_rules-found :
      (earlier : List (List ℕ)) (path : List ℕ) (o r w e : Bool) (s s' : State)
      → IsPath path
      → put (path_key path) (rule_mask o r w e) (reload_rules map_ (map some earlier) s) ≡ some s'
      → get
          (path_key path)
          (reload_rules map_ (map some earlier ++ some (rule_line path o r w e) ∷ []) s)
        ≡ some (rule_mask o r w e)
  unfolding apply_rule
  reload_rules-found earlier path o r w e s s' is_path fits =
      let key = path_key path in
      let before = reload_rules map_ (map some earlier) s in
      ap (get key) (
        reload_rules-append earlier (rule_line path o r w e) s
        ∙ ap (λ rule. apply_rule map_ rule before) (parse_rule-rule_line path o r w e is_path)
        ∙ ap (λ o. unwrap_or o before) fits)
      ∙ get-put key key (rule_mask o r w e) before s' fits
      ∙ if_true (some (rule_mask o r w e)) (get key before) ((list_eq_iff key key).1 refl)

  -- The hook with the entry that it finds.
  file_open-found :
      (rules : FileRuleKey → Option FileRuleValue) (d_path : List ℕ → List ℕ → Option (List ℕ))
      (path buffer : List ℕ) (o r w e : Bool) (f_flags : ℕ)
      → d_path path (replicate 256 0) ≡ some buffer
      → rules buffer ≡ some (rule_mask o r w e)
      → file_open rules d_path (some (record { f_path = path; f_flags = f_flags }))
        ≡ (if not (allows_flags o r w e f_flags) then eacces else granted)
  unfolding file_open requested_mask
  file_open-found rules d_path path buffer o r w e f_flags given found =
      rw (given, file_open)
        (rw found (
          ap (λ b. if not b then eacces else granted)
            (mask_test_lem o r w e (bit_and f_flags 3 == 0) (bit_and f_flags 3 == 1)
              (bit_and f_flags 3 == 2) (not (bit_and f_flags 0x20 == 0)))))

  -- The hook with a buffer that no rule has for its key.
  file_open-missed :
      (rules : FileRuleKey → Option FileRuleValue) (d_path : List ℕ → List ℕ → Option (List ℕ))
      (path buffer : List ℕ) (f_flags : ℕ)
      → d_path path (replicate 256 0) ≡ some buffer
      → rules buffer ≡ none
      → file_open rules d_path (some (record { f_path = path; f_flags = f_flags })) ≡ granted
  unfolding file_open
  file_open-missed rules d_path path buffer f_flags given missing =
      rw (given, file_open) (rw missing refl)

  -- Let the last line of the rules name a path, which has no white space and begins with no `#`,
  -- with a digit for each of the four permissions; let the path and the earlier lines have no NUL,
  -- and let the map have room. bpf_d_path writes the path and a NUL to the front of the buffer of
  -- 256 bytes. If only NULs stand behind them, the hook refuses to open the file exactly when the
  -- line forbids to open it or forbids an operation that the flags ask for, whatever the map and
  -- the earlier lines hold. If more stands behind them, and the map did not already have that
  -- buffer for a key, the line is not found and the file is opened, whatever the line says.
  pub rule_is_enforced :
      (bpf_d_path : List ℕ → List ℕ → Option (List ℕ)) (earlier : List (List ℕ))
      (path stale : List ℕ) (o r w e : Bool) (f_flags : ℕ) (s : State)
      → All HasNoNul earlier
      → IsPath path
      → HasNoNul path
      → bpf_d_path path (replicate 256 0) ≡ some (path ++ 0 ∷ stale)
      → length path + 1 + length stale ≡ 256
      → ((key : FileRuleKey) (value : FileRuleValue)
          → (s' : State) × (put key value (reload_rules map_ (map some earlier) s) ≡ some s'))
      → (all_nul stale ≡ false → get (path ++ 0 ∷ stale) s ≡ none)
      → file_open
          (λ key.
            get key (reload_rules map_ (map some earlier ++ some (rule_line path o r w e) ∷ []) s))
          bpf_d_path
          (some (record { f_path = path; f_flags = f_flags }))
        ≡ (if all_nul stale && not (allows_flags o r w e f_flags) then eacces else granted)
  rule_is_enforced bpf_d_path earlier path stale o r w e f_flags s texts is_path no_nul given size
        room fresh =
      let line = rule_line path o r w e in
      let before = reload_rules map_ (map some earlier) s in
      let rules =
        λ (key : FileRuleKey). get key (reload_rules map_ (map some earlier ++ some line ∷ []) s) in
      elim (Bool-cases (all_nul stale)) [
        | inl padded ↦
            let (s', fits) = room (path_key path) (rule_mask o r w e) in
            let found : rules (path ++ 0 ∷ stale) ≡ some (rule_mask o r w e) =
              ap rules (sym (path_key-padded path stale size padded))
              ∙ reload_rules-found earlier path o r w e s s' is_path fits in
            file_open-found rules bpf_d_path path (path ++ 0 ∷ stale) o r w e f_flags given found
            ∙ rw padded refl
        | inr remains ↦
            let missing : rules (path ++ 0 ∷ stale) ≡ none =
              ap (get (path ++ 0 ∷ stale)) (
                reload_rules-append earlier line s
                ∙ ap (λ rule. apply_rule map_ rule before)
                    (parse_rule-rule_line path o r w e is_path))
              ∙ apply_rule-missed (path_key path, rule_mask o r w e) path stale before
                  (path, no_nul, refl) no_nul remains
              ∙ reload_rules-missed earlier path stale s texts no_nul remains
              ∙ fresh remains in
            file_open-missed rules bpf_d_path path (path ++ 0 ∷ stale) f_flags given missing
            ∙ rw remains refl
      ]

  -- Let bpf_d_path build the path and its NUL at the end of the buffer and then move them to the
  -- front, as the kernel does. Then a file whose path has 1 to 253 bytes is opened, whatever the
  -- lines without a NUL say that are loaded into an empty map: its path still stands at the end of
  -- the buffer, which is no rule's key.
  pub short_path_granted :
      (bpf_d_path : List ℕ → List ℕ → Option (List ℕ)) (lines : List (List ℕ)) (path : List ℕ)
      (f_flags : ℕ) (s : State)
      → ((path buffer : List ℕ)
          → length path + 1 ≤ length buffer
          → bpf_d_path path buffer ≡ some (moved_to_front path buffer))
      → All HasNoNul lines
      → HasNoNul path
      → 0 < length path
      → length path ≤ 253
      → ((key : FileRuleKey) → get key s ≡ none)
      → file_open
          (λ key. get key (reload_rules map_ (map some lines) s))
          bpf_d_path
          (some (record { f_path = path; f_flags = f_flags }))
        ≡ granted
  short_path_granted bpf_d_path lines path f_flags s moves texts no_nul ne short empty =
      let stale = left_behind path zeros in
      let room : length path + 1 ≤ length zeros = omega (arith, length-replicate {A = ℕ} 256 0) in
      file_open-missed (λ key. get key (reload_rules map_ (map some lines) s)) bpf_d_path path
        (path ++ 0 ∷ stale) f_flags (moves path zeros room)
        (reload_rules-missed lines path stale s texts no_nul (left_behind_lem path no_nul ne short)
          ∙ empty (path ++ 0 ∷ stale))
