-- ===== src/DlpHooks/Layout.antt =====
-- dlp/dlp_fanotify_hooks/src/main.rs: the bytes of the events as the kernel lays them out.
use rust_samples.Prelude.{
  ℕ, zero, suc, ◌+◌, ◌/◌, ◌%◌, ◌^◌, ◌<◌, ◌≡◌, refl, ap, List, [], ◌∷◌, ◌++◌, length, arith,
}
use rust_samples.DlpHooks.{FanotifyEventMetadata, from_le, metadata_at}

abbrev pub to_le : ℕ → ℕ → List ℕ
to_le zero n = []
to_le (suc width) n = n % 256 ∷ to_le width (n / 256)

length-to_le : (width n : ℕ) → length (to_le width n) ≡ width
length-to_le zero n = refl
length-to_le (suc width) n = ap suc (length-to_le width (n / 256))

from_le-to_le : (width n : ℕ) → n < 256 ^ width → from_le (to_le width n) ≡ n
from_le-to_le zero n h = ground arith
from_le-to_le (suc width) n h = omega (arith, from_le-to_le width (n / 256) (omega (arith, h)))

-- The fields in their order.
abbrev pub fields : FanotifyEventMetadata → List (ℕ × ℕ)
fields m =
    (4, m.event_len)
    ∷ (1, m.vers)
    ∷ (1, m.reserved)
    ∷ (2, m.metadata_len)
    ∷ (8, m.mask)
    ∷ (4, m.fd)
    ∷ (4, m.pid)
    ∷ []

-- The fields' bytes, and what stands behind them.
abbrev pub laid_out : List (ℕ × ℕ) → List ℕ → List ℕ
laid_out [] rest = rest
laid_out ((width, n) ∷ more) rest = to_le width n ++ laid_out more rest

-- Each field in its width.
abbrev pub Fits : List (ℕ × ℕ) → Type 0
Fits [] = Unit
Fits ((width, n) ∷ more) = (n < 256 ^ width) × Fits more

pub length-laid_out :
    (m : FanotifyEventMetadata) (rest : List ℕ)
    → length (laid_out (fields m) rest) ≡ 24 + length rest
length-laid_out m rest = omega arith

-- The cast reads the fields that were laid out.
pub metadata_at-laid_out :
    (m : FanotifyEventMetadata) (rest : List ℕ)
    → Fits (fields m)
    → metadata_at (laid_out (fields m) rest) ≡ m
unfolding metadata_at
metadata_at-laid_out m rest (h0, (h1, (h2, (h3, (h4, (h5, (h6, h7))))))) = λ i. record {
  event_len = from_le-to_le 4 m.event_len h0 i;
  vers = from_le-to_le 1 m.vers h1 i;
  reserved = from_le-to_le 1 m.reserved h2 i;
  metadata_len = from_le-to_le 2 m.metadata_len h3 i;
  mask = from_le-to_le 8 m.mask h4 i;
  fd = from_le-to_le 4 m.fd h5 i;
  pid = from_le-to_le 4 m.pid h6 i;
}
