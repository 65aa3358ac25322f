-- ===== src/Dlp/Matches.antt =====
-- dlp/dlp_analyzer/src/main.rs: the loop that searches for a word of a dictionary.
use rust_samples.Prelude.{
  ℕ, zero, suc, ◌+◌, ◌-◌, ◌≤◌, ◌<◌, ◌≡◌, ◌≢◌, refl, ap, sym, ◌∙◌, List, [], ◌∷◌, none, some, true,
  false, ◌&&◌, arith, leb, ◌==◌, if◌then◌else◌, length, take, drop, map, All, inl, inr, Bool-cases,
  Option-cases, length-map, drop-drop, length-drop, subst, some_inj,
}
use rust_samples.Prelude.Text.{is_boundary, starts_with}
use rust_samples.Dlp.{LeakType, returned, ◌>>=◌}
use rust_samples.Dlp.Engine.{find, slice, slice_from, Tally, push_detection, scan_word}

abbrev pub ascii_lower : ℕ → ℕ
ascii_lower c = if leb b'A' c && leb c b'Z' then c + 32 else c

abbrev pub Ascii : List ℕ → Type 0
Ascii = All (λ b. b < 128)

-- The words of a text, from left to right and none across another: before each one the pattern
-- stands nowhere, and after the last one neither.
pub data Matches (p : List ℕ) : List ℕ → List (List ℕ) → Type 0 where
  no_more :
      {t : List ℕ} → ((j : ℕ) → starts_with p (map ascii_lower (drop j t)) ≡ false) → Matches p t []
  next_at :
      {t : List ℕ} {ms : List (List ℕ)} (i : ℕ)
      → starts_with p (map ascii_lower (drop i t)) ≡ true
      → ((j : ℕ) → j < i → starts_with p (map ascii_lower (drop j t)) ≡ false)
      → Matches p (drop (i + length p) t) ms
      → Matches p t (take (length p) (drop i t) ∷ ms)

-- Each of the texts recorded in turn.
abbrev pub push_all : LeakType → ℕ → List (List ℕ) → Tally → Tally
push_all leak_type score [] tally = tally
push_all leak_type score (m ∷ ms) tally =
    push_all leak_type score ms (push_detection leak_type m score tally)

pub record Found (p s : List ℕ) (i : ℕ) : Type 0 where
  pub here : starts_with p (drop i s) ≡ true
  pub first : (j : ℕ) → j < i → starts_with p (drop j s) ≡ false
  pub inside : i + length p ≤ length s

true≢false : true ≢ false
true≢false e = cc

none≢some {ℓ} : {A : Type ℓ} {a : A} → none ≢ some a
none≢some e = cc

drop_nil {ℓ} : {A : Type ℓ} (j : ℕ) → ◌≡◌ {A = List A} (drop j []) []
drop_nil zero = refl
drop_nil (suc j) = refl

starts_with_inside : (p s : List ℕ) → starts_with p s ≡ true → length p ≤ length s
starts_with_inside [] s h = omega arith
starts_with_inside (c ∷ p) [] h = cc
starts_with_inside (c ∷ p) (d ∷ s) h = elim (Bool-cases (c == d)) [
  | inl same ↦ omega (arith, starts_with_inside p s (rw same at h))
  | inr other ↦ absurd (true≢false (sym (rw other at h)))
]

Found-zero : (p s : List ℕ) → starts_with p s ≡ true → Found p s 0
Found-zero p s e = record {
  here = e;
  first = λ j l. absurd (omega arith);
  inside = omega (arith, starts_with_inside p s e);
}

Found-suc :
    (p s : List ℕ) (c i : ℕ) → starts_with p (c ∷ s) ≡ false → Found p s i → Found p (c ∷ s) (suc i)
Found-suc p s c i e found = record {
  here = found.here;
  first = before;
  inside = omega (arith, found.inside);
}
  where
    before : (j : ℕ) → j < suc i → starts_with p (drop j (c ∷ s)) ≡ false
    before zero l = e
    before (suc j) l = found.first j (omega arith)

find-some : (p s : List ℕ) (i : ℕ) → find p s ≡ some i → Found p s i
find-some p [] i h = elim (Bool-cases (starts_with p [])) [
  | inl e ↦ subst (Found p []) (some_inj.0 (rw e at h)) (Found-zero p [] e)
  | inr e ↦ absurd (none≢some (rw e at h))
]
find-some p (c ∷ cs) i h = elim (Bool-cases (starts_with p (c ∷ cs))) [
  | inl e ↦ subst (Found p (c ∷ cs)) (some_inj.0 (rw e at h)) (Found-zero p (c ∷ cs) e)
  | inr e ↦ elim (Option-cases (find p cs)) [
    | inl f ↦ absurd (none≢some (rw (e, f) at h))
    | inr (k, f) ↦
        subst (Found p (c ∷ cs)) (some_inj.0 (rw (e, f) at h))
          (Found-suc p cs c k e (find-some p cs k f))
  ]
]

find-none : (p s : List ℕ) → find p s ≡ none → (j : ℕ) → starts_with p (drop j s) ≡ false
find-none p [] h j = elim (Bool-cases (starts_with p [])) [
  | inl e ↦ absurd (none≢some (sym (rw e at h)))
  | inr e ↦ rw (drop_nil j) e
]
find-none p (c ∷ cs) h j = elim (Bool-cases (starts_with p (c ∷ cs))) [
  | inl e ↦ absurd (none≢some (sym (rw e at h)))
  | inr e ↦ elim (Option-cases (find p cs)) [
    | inr (k, f) ↦ absurd (none≢some (sym (rw (e, f) at h)))
    | inl f ↦ each j e (λ k. find-none p cs f k)
  ]
]
  where
    each :
        (j : ℕ)
        → starts_with p (c ∷ cs) ≡ false
        → ((k : ℕ) → starts_with p (drop k cs) ≡ false)
        → starts_with p (drop j (c ∷ cs)) ≡ false
    each zero e f = e
    each (suc j) e f = f j

Ascii-boundary : (s : List ℕ) (i : ℕ) → Ascii s → is_boundary (drop i s) ≡ true
Ascii-boundary [] zero h = refl
Ascii-boundary [] (suc i) h = refl
Ascii-boundary (c ∷ cs) zero h = ground arith
Ascii-boundary (c ∷ cs) (suc i) h = Ascii-boundary cs i h.1

Ascii-lower : (s : List ℕ) → Ascii s → Ascii (map ascii_lower s)
Ascii-lower [] h = tt
Ascii-lower (c ∷ cs) h = (ground arith, Ascii-lower cs h.1)

drop-map {ℓ κ} :
    {A : Type ℓ} {B : Type κ} (f : A → B) (i : ℕ) (s : List A) → drop i (map f s) ≡ map f (drop i s)
drop-map f zero s = refl
drop-map f (suc i) [] = refl
drop-map f (suc i) (c ∷ cs) = drop-map f i cs

slice_from-Ascii :
    (s : List ℕ) (i : ℕ) → Ascii s → i ≤ length s → slice_from i s ≡ returned (drop i s)
slice_from-Ascii s i h inside =
    let fits : leb i (length s) ≡ true = ground arith in rw (fits, Ascii-boundary s i h) refl

slice-Ascii :
    (s : List ℕ) (i n : ℕ)
    → Ascii s
    → i + n ≤ length s
    → slice i (i + n) s ≡ returned (take n (drop i s))
slice-Ascii s i n h inside =
    let starts : leb i (i + n) ≡ true = ground arith in
    let fits : leb (i + n) (length s) ≡ true = ground arith in
    let size : i + n - i ≡ n = omega arith in
    rw (starts, fits, Ascii-boundary s i h, Ascii-boundary s (i + n) h, size) refl

-- The matches from the place that `find` gives.
Matches-Found :
    (word t : List ℕ) (i : ℕ) (ms : List (List ℕ))
    → Found (map ascii_lower word) (map ascii_lower t) i
    → Matches (map ascii_lower word) (drop (i + length word) t) ms
    → Matches (map ascii_lower word) t (take (length word) (drop i t) ∷ ms)
Matches-Found word t i ms found rest =
    let p = map ascii_lower word in
    let size : length p ≡ length word = length-map word ascii_lower in
    subst (λ n. Matches p t (take n (drop i t) ∷ ms)) size
      (next_at i (subst (λ z. starts_with p z ≡ true) (drop-map ascii_lower i t) found.here)
        (λ j l. subst (λ z. starts_with p z ≡ false) (drop-map ascii_lower j t) (found.first j l))
        (subst (λ n. Matches p (drop (i + n) t) ms) (sym size) rest))

Matches-none :
    (word t : List ℕ)
    → find (map ascii_lower word) (map ascii_lower t) ≡ none
    → Matches (map ascii_lower word) t []
Matches-none word t h = no_more λ j.
    subst (λ z. starts_with (map ascii_lower word) z ≡ false) (drop-map ascii_lower j t)
      (find-none (map ascii_lower word) (map ascii_lower t) h j)

-- The part of a lowered text from a position on.
slice_from_lower :
    (text : List ℕ) (pos : ℕ)
    → Ascii text
    → pos ≤ length text
    → slice_from pos (map ascii_lower text) ≡ returned (map ascii_lower (drop pos text))
slice_from_lower text pos h inside =
    slice_from-Ascii (map ascii_lower text) pos (Ascii-lower text h)
      (omega (arith, length-map text ascii_lower))
    ∙ ap returned (drop-map ascii_lower pos text)

module _ (leak_type : LeakType) (text word : List ℕ) (score : ℕ) where
  -- The loop over an ASCII text that looks for an ASCII word which is not empty, from any position
  -- and with a unit of fuel for each byte left and one more, ends without a panic; it records, in
  -- order, the text of each leftmost place where the word stands in any letter case and that begins
  -- behind the one recorded before, so no two of them overlap.
  pub scan_word_from :
      (fuel pos : ℕ) (tally : Tally)
      → Ascii text
      → Ascii word
      → 0 < length word
      → pos ≤ length text
      → length text < pos + fuel
      → (ms : List (List ℕ)) × Matches (map ascii_lower word) (drop pos text) ms
        × (scan_word fuel leak_type text
              (map ascii_lower text)
              word
              (map ascii_lower word)
              score
              pos
              tally
            ≡ returned (push_all leak_type score ms tally))
  unfolding scan_word
  scan_word_from zero pos tally ht hw ne inside enough = absurd (omega arith)
  scan_word_from (suc fuel) pos tally ht hw ne inside enough =
      elim (Option-cases (find (map ascii_lower word) (map ascii_lower (drop pos text)))) [
        | inl missing ↦ (
          [],
          Matches-none word (drop pos text) missing,
          rw (slice_from_lower text pos ht inside) (rw (missing, ◌>>=◌) refl),
        )
        | inr (i, at_i) ↦
            let found = find-some (map ascii_lower word) (map ascii_lower (drop pos text)) i at_i in
            let fits : pos + i + length word ≤ length text = omega (
              arith,
              found.inside,
              length-map word ascii_lower,
              length-map (drop pos text) ascii_lower,
              length-drop pos text,
            ) in
            let matched = take (length word) (drop i (drop pos text)) in
            let (ms, more, runs) =
              scan_word_from fuel (pos + (i + length word))
                (push_detection leak_type matched score tally) ht hw ne (omega arith)
                (omega arith) in
            let same : take (length word) (drop (pos + i) text) ≡ matched =
              ap (take (length word)) (sym (drop-drop pos i (pos + i) text refl)) in
            (
              matched ∷ ms,
              Matches-Found word (drop pos text) i ms found (
                  subst (λ z. Matches (map ascii_lower word) z ms)
                    (sym (drop-drop pos (i + length word) (pos + (i + length word)) text refl))
                    more),
              rw (slice_from_lower text pos ht inside) (
                  rw (at_i, ◌>>=◌)
                    (rw (slice-Ascii text (pos + i) (length word) ht fits, ◌>>=◌) (rw same runs))),
            )
      ]
