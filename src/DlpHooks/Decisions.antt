-- ===== src/DlpHooks/Decisions.antt =====
-- dlp/dlp_fanotify_hooks/src/main.rs: the decision on a file by the bytes at its start.
use rust_samples.Prelude.{
  ℕ, ◌+◌, ◌≤◌, ◌<◌, ◌≡◌, refl, ap, sym, ◌∙◌, List, [], ◌∷◌, ◌++◌, some, false, zero, suc, length,
  take, take_append, length-append, append_assoc, All, if_true, if_false, if◌then◌else◌, arith,
}
use rust_samples.DlpHooks.{Kernel, fan_allow, fan_deny, decide, evaluate_file_safety}
use rust_samples.DlpHooks.Utf8.{from_utf8, from_utf8-ascii, from_utf8-cut}

abbrev pub IsAscii : List ℕ → Type 0
IsAscii = All (λ b. b < 128)

-- The file has the content, and the kernel reads all that the buffer has room for.
abbrev pub Has : Kernel → ℕ → List ℕ → Type 0
Has kernel fd content = kernel.pread fd 1024 ≡ some (take 1024 content)

ascii_decides :
    (kernel : Kernel) (bytes : List ℕ)
    → IsAscii bytes
    → kernel.matches_pattern [] ≡ false
    → decide kernel bytes ≡ (if kernel.matches_pattern bytes then fan_deny else fan_allow)
ascii_decides kernel [] h e = sym (if_false fan_deny fan_allow e)
ascii_decides kernel (b ∷ bytes) h e = if_true _ fan_allow (from_utf8-ascii (b ∷ bytes) h)

cut_allows :
    (kernel : Kernel) (bytes : List ℕ) → from_utf8 bytes ≡ false → decide kernel bytes ≡ fan_allow
cut_allows kernel [] h = refl
cut_allows kernel (b ∷ bytes) h = if_false _ fan_allow h

All-take : (n : ℕ) (xs : List ℕ) → IsAscii xs → IsAscii (take n xs)
All-take zero xs h = tt
All-take (suc n) [] h = tt
All-take (suc n) (x ∷ xs) h = (h.0, All-take n xs h.1)

take_through :
    (n : ℕ) (xs rest : List ℕ) (x : ℕ) → length xs + 1 ≡ n → take n (xs ++ x ∷ rest) ≡ xs ++ x ∷ []
take_through n xs rest x e =
    ap (take n) (sym (append_assoc xs (x ∷ []) rest))
    ∙ take_append n (xs ++ x ∷ []) rest (omega (arith, e, length-append xs (x ∷ [])))

decided :
    (kernel : Kernel) (fd : ℕ) (content : List ℕ)
    → Has kernel fd content
    → evaluate_file_safety kernel fd ≡ decide kernel (take 1024 content)
unfolding evaluate_file_safety
decided kernel fd content has = rw (has, evaluate_file_safety) refl

-- Where no pattern matches the empty text, a file of ASCII text is denied when a pattern matches
-- its first 1024 bytes, and allowed otherwise.
pub ascii_file_decided :
    (kernel : Kernel) (fd : ℕ) (content : List ℕ)
    → kernel.matches_pattern [] ≡ false
    → Has kernel fd content
    → IsAscii content
    → evaluate_file_safety kernel fd
      ≡ (if kernel.matches_pattern (take 1024 content) then fan_deny else fan_allow)
ascii_file_decided kernel fd content e has ascii =
    decided kernel fd content has
    ∙ ascii_decides kernel (take 1024 content) (All-take 1024 content ascii) e

-- A file whose first 1023 bytes are ASCII and whose next byte is not, so that the end of the
-- buffer cuts a character, is allowed, whatever the patterns and the text are.
pub cut_file_allowed :
    (kernel : Kernel) (fd : ℕ) (text rest : List ℕ) (lead : ℕ)
    → Has kernel fd (text ++ lead ∷ rest)
    → length text ≡ 1023
    → IsAscii text
    → 128 ≤ lead
    → evaluate_file_safety kernel fd ≡ fan_allow
cut_file_allowed kernel fd text rest lead has n ascii high =
    decided kernel fd (text ++ lead ∷ rest) has
    ∙ cut_allows kernel (take 1024 (text ++ lead ∷ rest)) (
        ap from_utf8 (take_through 1024 text rest lead (omega (arith, n)))
        ∙ from_utf8-cut text lead ascii high)
