-- ===== src/EbpfProtect/Daemon.antt =====
-- ebpf_protect/src/main.rs: `setup_whitelist_map` and the loop of `main`.
use rust_samples.Prelude.{
  ℕ, ◌+◌, ◌^◌, ◌≡◌, refl, ap, sym, ◌∙◌, inl, inr, List, [], ◌∷◌, ◌++◌, none, some, some_inj, true,
  false, arith, Bool-cases, Option-cases, list_eq, and_then,
}
use rust_samples.EbpfProtect.{
  Pin, Kernel, Service, MapCalls, whitelist_map_pin_path, whitelist_pin, pin_at,
  create_whitelist_map, setup_whitelist_map, scans, main,
}
use rust_samples.EbpfProtect.Pins.{Mem, is_pin_of}
use rust_samples.EbpfProtect.Enforce.{Visited, IsUnauthorized, check_and_enforce-Enforced}

none≢some {ℓ} : {A : Type ℓ} {a : A} → none ≡ some a → ⊥
none≢some e = cc

pin_at-append :
    (path : List ℕ) (pin : Pin) (pins : List Pin)
    → list_eq pin.path path ≡ true
    → (p : Pin) × (pin_at path (pins ++ pin ∷ []) ≡ some p)
pin_at-append path pin [] same = (pin, rw same refl)
pin_at-append path pin (q ∷ pins) same = elim (Bool-cases (list_eq q.path path)) [
  | inl here ↦ (q, rw here refl)
  | inr other ↦ let (p, found) = pin_at-append path pin pins same in (p, rw other found)
]

-- The whitelist map is open and pinned.
pub record IsSetUp (s s' : Service) : Type 0 where
  pub fds : s'.open_fds ≡ s.open_fds + 1
  pub own_pin : (p : Pin) × (pin_at whitelist_map_pin_path s'.pins ≡ some p)

create_whitelist_map-IsSetUp :
    (calls : MapCalls) (s s' : Service) → create_whitelist_map calls s ≡ some s' → IsSetUp s s'
unfolding create_whitelist_map
create_whitelist_map-IsSetUp calls s s' e = elim (Option-cases calls.created) [
  | inl failed ↦ absurd (none≢some (rw (failed, create_whitelist_map) at e))
  | inr (id, made) ↦ elim (Bool-cases calls.pins) [
    | inl pinned ↦
        let same = some_inj.0 (rw (made, pinned, create_whitelist_map) at e) in
        record {
          fds = ap (λ t. t.open_fds) (sym same);
          own_pin =
              let (p, found) =
                pin_at-append whitelist_map_pin_path (whitelist_pin id) s.pins refl in
              (p, ap (λ t. pin_at whitelist_map_pin_path t.pins) (sym same) ∙ found);
        }
    | inr unpinned ↦ absurd (none≢some (rw (made, unpinned, create_whitelist_map) at e))
  ]
]

setup_whitelist_map-IsSetUp :
    (calls : MapCalls) (s s' : Service) → setup_whitelist_map calls s ≡ some s' → IsSetUp s s'
unfolding setup_whitelist_map
setup_whitelist_map-IsSetUp calls s s' e =
    elim (Option-cases (pin_at whitelist_map_pin_path s.pins)) [
      | inl missing ↦
          create_whitelist_map-IsSetUp calls s s' (rw (missing, setup_whitelist_map) at e)
      | inr (pin, found) ↦ elim (Bool-cases pin.opens) [
        | inl opened ↦
            let same = some_inj.0 (rw (found, opened, setup_whitelist_map) at e) in
            record {
              fds = ap (λ t. t.open_fds) (sym same);
              own_pin = (pin, ap (λ t. pin_at whitelist_map_pin_path t.pins) (sym same) ∙ found);
            }
        | inr shut ↦
            create_whitelist_map-IsSetUp calls s s' (rw (found, shut, setup_whitelist_map) at e)
      ]
    ]

-- What scans keep, and what the last one achieves.
pub record Guarded (last : Kernel) (s s' : Service) : Type 0 where
  pub fds : s'.open_fds ≡ s.open_fds
  pub pins : (p : Pin) → Mem p s'.pins → Mem p s.pins
  pub own_pin : pin_at whitelist_map_pin_path s'.pins ≡ pin_at whitelist_map_pin_path s.pins
  pub unpinned :
      (p : Pin) (j : ℕ)
      → Mem p s'.pins
      → Visited last 0 j
      → IsUnauthorized last j
      → is_pin_of j p ≡ false

scans-Guarded :
    (kernels : List Kernel) (last : Kernel) (s : Service)
    → (s' : Service) × (scans (kernels ++ last ∷ []) s ≡ some s') × Guarded last s s'
unfolding scans
scans-Guarded [] last s =
    let (s', runs, done) =
      check_and_enforce-Enforced last (2 ^ 32) 0 s (omega arith) (omega arith) in
    (
      s',
      ap (λ r. and_then r (λ t. some t)) runs,
      record { fds = done.fds; pins = done.pins; own_pin = done.own_pin; unpinned = done.unpinned },
    )
scans-Guarded (kernel ∷ kernels) last s =
    let (s1, runs, done) =
      check_and_enforce-Enforced kernel (2 ^ 32) 0 s (omega arith) (omega arith) in
    let (s', more, kept) = scans-Guarded kernels last s1 in
    (
      s',
      ap (λ r. and_then r (λ t. scans (kernels ++ last ∷ []) t)) runs ∙ more,
      record {
        fds = kept.fds ∙ done.fds;
        pins = λ p m. done.pins p (kept.pins p m);
        own_pin = kept.own_pin ∙ done.own_pin;
        unpinned = kept.unpinned;
      },
    )

-- Where the whitelist map is loaded or created, every number of scans ends, whatever the kernel
-- holds at each. The map's descriptor is then the one that is open besides those of the start, the
-- map is still pinned, no pin is new, and no program that the last scan comes to and that the
-- whitelist does not allow keeps a pin which can be opened and removed.
pub main_lem :
    (calls : MapCalls) (kernels : List Kernel) (last : Kernel) (s s1 : Service)
    → setup_whitelist_map calls s ≡ some s1
    → (s' : Service) × (main calls (kernels ++ last ∷ []) s ≡ some s')
      × IsSetUp s s'
      × Guarded last s1 s'
unfolding main
main_lem calls kernels last s s1 ready =
    let (s', runs, kept) = scans-Guarded kernels last s1 in
    let begun = setup_whitelist_map-IsSetUp calls s s1 ready in
    let (p, found) = begun.own_pin in
    (
      s',
      ap (λ r. and_then r (λ t. scans (kernels ++ last ∷ []) t)) ready ∙ runs,
      record { fds = kept.fds ∙ begun.fds; own_pin = (p, kept.own_pin ∙ found) },
      kept,
    )
