-- ===== src/DnsTelemetry/Sublists.antt =====
-- Lists with some elements left out, for what dns_telemetry/src/main.rs may lose.
use rust_samples.Prelude.{List, [], ◌∷◌, ◌++◌}

-- The elements of the first list are in the second in the same order, each as often at most.
pub data Sublist {ℓ} {A : Type ℓ} : List A → List A → Type ℓ where
  empty : Sublist [] []
  keep : {xs ys : List A} (x : A) → Sublist xs ys → Sublist (x ∷ xs) (x ∷ ys)
  skip : {xs ys : List A} (y : A) → Sublist xs ys → Sublist xs (y ∷ ys)

module _ {ℓ} {A : Type ℓ} where
  pub Sublist-refl : (xs : List A) → Sublist xs xs
  Sublist-refl [] = empty
  Sublist-refl (x ∷ xs) = keep x (Sublist-refl xs)

  through : {ys zs : List A} → Sublist ys zs → {xs : List A} → Sublist xs ys → Sublist xs zs
  through empty a = a
  through (skip z b) a = skip z (through b a)
  through (keep y b) (keep x a) = keep x (through b a)
  through (keep y b) (skip x a) = skip x (through b a)

  pub Sublist-trans : {xs ys zs : List A} → Sublist xs ys → Sublist ys zs → Sublist xs zs
  Sublist-trans a b = through b a

  -- Both behind a common front, and both before a common end.
  pub Sublist-front : (xs : List A) {ys zs : List A} → Sublist ys zs → Sublist (xs ++ ys) (xs ++ zs)
  Sublist-front [] a = a
  Sublist-front (x ∷ xs) a = keep x (Sublist-front xs a)

  pub Sublist-back : {xs ys : List A} (zs : List A) → Sublist xs ys → Sublist (xs ++ zs) (ys ++ zs)
  Sublist-back zs empty = Sublist-refl zs
  Sublist-back zs (keep x a) = keep x (Sublist-back zs a)
  Sublist-back zs (skip x a) = skip x (Sublist-back zs a)

  pub Sublist-skipped : (xs ys : List A) → Sublist ys (xs ++ ys)
  Sublist-skipped [] ys = Sublist-refl ys
  Sublist-skipped (x ∷ xs) ys = skip x (Sublist-skipped xs ys)
