-- ===== src/AntiDdos/Counts.antt =====
-- anti_ddos/src/main.rs: the counts of the registry's entries and of the handlers.
use rust_samples.Prelude.{
  ℕ, zero, suc, ◌+◌, ◌-◌, ◌<◌, ◌≡◌, refl, ap, sym, ◌∙◌, some_inj, List, [], ◌∷◌, Option, none, some,
  Bool, true, arith, get_elem?, length, if◌then◌else◌, Bool-cases, Option-cases, inl, inr, ltb,
  lt→ltb,
}
use rust_samples.AntiDdos.{
  SocketAddr, IpStats, AntiDdosShield, addr_eq, addr_eq_iff, set_entry, or_insert, cleanup,
  count_request, is_retained, keep_if,
}
use rust_samples.AntiDdos.Handlers.{Task, remove_at, set_at}

-- The count of an address's entry.
abbrev pub connections : Option IpStats → ℕ
connections none = 0
connections (some stats) = stats.connection_count

abbrev pub one_if : Bool → ℕ
one_if b = if b then 1 else 0

-- The handlers of an address.
abbrev pub handlers : SocketAddr → List Task → ℕ
handlers a [] = 0
handlers a (t ∷ ts) = one_if (addr_eq a t.client) + handlers a ts

-- An entry is found under its own address only.
pub set_entry_same :
    (a b : SocketAddr) (stats : IpStats) (registry : SocketAddr → Option IpStats)
    → stats.connection_count ≡ connections (registry a)
    → connections (set_entry a stats registry b) ≡ connections (registry b)
set_entry_same a b stats registry e = elim (Bool-cases (addr_eq b a)) [
  | inl same ↦ rw same (e ∙ ap (λ c. connections (registry c)) (sym ((addr_eq_iff b a).0 same)))
  | inr other ↦ rw other refl
]

pub set_entry_more :
    (a b : SocketAddr) (stats : IpStats) (registry : SocketAddr → Option IpStats)
    → stats.connection_count ≡ suc (connections (registry a))
    → connections (set_entry a stats registry b) ≡ one_if (addr_eq b a) + connections (registry b)
set_entry_more a b stats registry e = elim (Bool-cases (addr_eq b a)) [
  | inl same ↦
      let at_b = ap (λ c. connections (registry c)) ((addr_eq_iff b a).0 same) in
      rw same (omega (arith, e, at_b))
  | inr other ↦ rw other (omega arith)
]

pub set_entry_less :
    (a b : SocketAddr) (stats : IpStats) (registry : SocketAddr → Option IpStats)
    → suc stats.connection_count ≡ connections (registry a)
    → one_if (addr_eq b a) + connections (set_entry a stats registry b) ≡ connections (registry b)
set_entry_less a b stats registry e = elim (Bool-cases (addr_eq b a)) [
  | inl same ↦
      let at_b = ap (λ c. connections (registry c)) ((addr_eq_iff b a).0 same) in
      rw same (omega (arith, e, at_b))
  | inr other ↦ rw other (omega arith)
]

pub or_insert_count :
    (o : Option IpStats) (now : ℕ)
    → (or_insert o
        (record { connection_count = 0; rps_count = 0; last_request_time = now })).connection_count
      ≡ connections o
or_insert_count none now = refl
or_insert_count (some stats) now = refl

-- The handlers without the one at a place.
pub handlers-remove_at :
    (a : SocketAddr) (i : ℕ) (ts : List Task) (t : Task)
    → get_elem? ts i ≡ some t
    → handlers a ts ≡ one_if (addr_eq a t.client) + handlers a (remove_at i ts)
handlers-remove_at a i [] t e = cc
handlers-remove_at a zero (x ∷ ts) t e =
    ap (λ x. one_if (addr_eq a x.client) + handlers a ts) (some_inj.0 e)
handlers-remove_at a (suc i) (x ∷ ts) t e = omega (arith, handlers-remove_at a i ts t e)

pub length-remove_at {ℓ} :
    {A : Type ℓ} (i : ℕ) (xs : List A) (x : A)
    → get_elem? xs i ≡ some x
    → length xs ≡ suc (length (remove_at i xs))
length-remove_at i [] x e = cc
length-remove_at zero (y ∷ xs) x e = refl
length-remove_at (suc i) (y ∷ xs) x e = ap suc (length-remove_at i xs x e)

pub handlers-set_at :
    (a : SocketAddr) (i : ℕ) (ts : List Task) (t u : Task)
    → get_elem? ts i ≡ some t
    → u.client ≡ t.client
    → handlers a (set_at i u ts) ≡ handlers a ts
handlers-set_at a i [] t u e c = refl
handlers-set_at a zero (x ∷ ts) t u e c =
    ap (λ y. one_if (addr_eq a y) + handlers a ts) (c ∙ ap (λ x. x.client) (sym (some_inj.0 e)))
handlers-set_at a (suc i) (x ∷ ts) t u e c = omega (arith, handlers-set_at a i ts t u e c)

pub length-set_at {ℓ} :
    {A : Type ℓ} (i : ℕ) (y : A) (xs : List A) → length (set_at i y xs) ≡ length xs
length-set_at i y [] = refl
length-set_at zero y (x ∷ xs) = refl
length-set_at (suc i) y (x ∷ xs) = ap suc (length-set_at i y xs)

pub addr_eq_refl : (a : SocketAddr) → addr_eq a a ≡ true
addr_eq_refl a = (addr_eq_iff a a).1 refl

pub cleanup_lem :
    (a : SocketAddr) (s : AntiDdosShield)
    → 0 < connections (s.ip_registry a)
    → ((cleanup a s).global_connections ≡ s.global_connections)
      × ((b : SocketAddr)
          → one_if (addr_eq b a) + connections ((cleanup a s).ip_registry b)
            ≡ connections (s.ip_registry b))
unfolding cleanup
cleanup_lem a s some_of = elim (Option-cases (s.ip_registry a)) [
  | inl missing ↦ absurd (omega (arith, ap connections missing))
  | inr (stats, e) ↦
      let full : ltb 0 stats.connection_count ≡ true =
        lt→ltb 0 stats.connection_count (omega (arith, ap connections e)) in
      let less = record stats { connection_count = stats.connection_count - 1 } in
      rw (e, full, cleanup)
        (refl, λ b. set_entry_less a b less s.ip_registry (omega (arith, ap connections e)))
]

pub rate_limit_count :
    (now : ℕ) (o : Option IpStats)
    → 0 < connections o
    → (count_request now (
        or_insert o (record {
          connection_count = 1;
          rps_count = 0;
          last_request_time = now;
        }))).0.connection_count
      ≡ connections o
unfolding count_request
rate_limit_count now none some_of = absurd (omega arith)
rate_limit_count now (some stats) some_of = ground arith

pub keep_if_count :
    (now : ℕ) (o : Option IpStats) → connections (keep_if (is_retained now) o) ≡ connections o
unfolding is_retained
keep_if_count now none = refl
keep_if_count now (some stats) = ground arith
