-- ===== src/LsmHooks.antt =====
-- lsm_hooks: common/src/lib.rs, the hook of bpf/src/main.rs and the rules of userspace/src/main.rs.
-- The map RULES and bpf_d_path are parameters. A path and a line of the rules are ASCII.
pub mod Lines
pub mod Keys
pub mod Enforced
mod Tests
use rust_samples.Prelude.{
  ℕ, zero, suc, ◌+◌, ◌-◌, ◌%◌, List, [], ◌∷◌, ◌++◌, Option, none, some, Bool, true, false, not,
  ◌&&◌, ◌||◌, bit_and, bit_or, min, length, take, replicate, list_eq, list_eq_iff, ◌==◌,
  if◌then◌else◌, unwrap_or, ◌≡◌, ◌↔◌, arith, Key, bytes_key, and_then,
}
use rust_samples.Prelude.Text.{is_whitespace, is_empty, trim, starts_with_byte}
use rust_samples.BpfMap.{BpfMap}

abbrev pub max_path_len : ℕ
max_path_len = 256

abbrev pub auth_open : ℕ
auth_open = 1

abbrev pub auth_read : ℕ
auth_read = 2

abbrev pub auth_write : ℕ
auth_write = 4

abbrev pub auth_exec : ℕ
auth_exec = 8

-- `FileRuleKey` is its path's bytes, and `FileRuleValue` its mask.
abbrev pub FileRuleKey : Type 0
FileRuleKey = List ℕ

abbrev pub FileRuleValue : Type 0
FileRuleValue = ℕ

-- `|=` under a condition.
abbrev pub or_if : Bool → ℕ → ℕ → ℕ
or_if test flag mask = if test then bit_or mask flag else mask

-- The operations that the flags of an open file ask for, by what their tests say.
unfoldable pub requested : Bool → Bool → Bool → Bool → ℕ
requested read_only write_only read_write executes =
    bit_or
      (or_if executes auth_exec (
        or_if read_write (bit_or auth_read auth_write)
          (or_if write_only auth_write (or_if read_only auth_read 0))))
      auth_open

unfoldable pub requested_mask : ℕ → ℕ
unfolding requested
requested_mask f_flags =
    requested (bit_and f_flags 3 == 0) (bit_and f_flags 3 == 1) (bit_and f_flags 3 == 2)
      (not (bit_and f_flags 0x20 == 0))

-- What the hook returns: 0, or -13.
pub data Decision : Type 0 where
  granted eacces : Decision

-- A `struct file`.
pub record OpenedFile : Type 0 where
  pub f_path : List ℕ
  pub f_flags : ℕ

-- `bpf_d_path` gets a path and the buffer, and gives the buffer as it leaves it, or `none` where the
-- length that it returns is not positive. A null pointer is no file.
unfoldable pub file_open :
    (FileRuleKey → Option FileRuleValue)
    → (List ℕ → List ℕ → Option (List ℕ))
    → Option OpenedFile
    → Decision
unfolding requested_mask
file_open rules bpf_d_path none = granted
file_open rules bpf_d_path (some f) =
    elim (and_then (bpf_d_path f.f_path (replicate max_path_len 0)) rules) [
      | none ↦ granted
      | some allowed_mask ↦
          if not (bit_and allowed_mask (requested_mask f.f_flags) == requested_mask f.f_flags)
          then eacces
          else granted
    ]

-- `split_whitespace`.
abbrev pub grow_word : ℕ → List (List ℕ) → List (List ℕ)
grow_word c [] = (c ∷ []) ∷ []
grow_word c (w ∷ ws) = (c ∷ w) ∷ ws

unfoldable pub split_words : List ℕ → List (List ℕ)
unfolding is_whitespace
split_words [] = [] ∷ []
split_words (c ∷ cs) =
    let rest = split_words cs in if is_whitespace c then [] ∷ rest else grow_word c rest

abbrev pub drop_empty : List (List ℕ) → List (List ℕ)
drop_empty [] = []
drop_empty ([] ∷ ws) = drop_empty ws
drop_empty ((c ∷ w) ∷ ws) = (c ∷ w) ∷ drop_empty ws

unfoldable pub split_whitespace : List ℕ → List (List ℕ)
unfolding split_words
split_whitespace s = drop_empty (split_words s)

abbrev pub is_one : List ℕ → Bool
is_one s = list_eq s (b'1' ∷ [])

unfoldable pub rule_mask : Bool → Bool → Bool → Bool → ℕ
rule_mask opens reads writes executes =
    or_if executes auth_exec
      (or_if writes auth_write (or_if reads auth_read (or_if opens auth_open 0)))

unfoldable pub path_key : List ℕ → FileRuleKey
path_key path =
    take (max_path_len - 1) path
    ++ replicate (max_path_len - length (take (max_path_len - 1) path)) 0

-- The rule of the five parts of a line.
unfoldable pub parse_parts : List (List ℕ) → Option (FileRuleKey × FileRuleValue)
unfolding rule_mask path_key
parse_parts (path ∷ o ∷ r ∷ w ∷ e ∷ []) =
    some (path_key path, rule_mask (is_one o) (is_one r) (is_one w) (is_one e))
parse_parts other = none

-- `none` is a line that sets no rule.
unfoldable pub parse_rule : List ℕ → Option (FileRuleKey × FileRuleValue)
unfolding split_whitespace parse_parts trim
parse_rule line =
    if is_empty (trim line) || starts_with_byte b'#' line
    then none
    else parse_parts (split_whitespace line)

module _ (map_ : BpfMap FileRuleKey FileRuleValue bytes_key) where
  open map_ use {State, put}

  -- A failed insert is reported and passed over.
  unfoldable pub apply_rule : Option (FileRuleKey × FileRuleValue) → State → State
  apply_rule none s = s
  apply_rule (some rule) s = unwrap_or (put rule.0 rule.1 s) s

  -- The lines of the file; `none` is a read error, which ends the loading.
  unfoldable pub reload_rules : List (Option (List ℕ)) → State → State
  unfolding apply_rule parse_rule
  reload_rules [] s = s
  reload_rules (none ∷ lines) s = s
  reload_rules (some line ∷ lines) s = reload_rules lines (apply_rule (parse_rule line) s)
