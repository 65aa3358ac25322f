-- ===== src/EbpfProtect/Enforce.antt =====
-- ebpf_protect/src/main.rs: a scan of the kernel's programs and its fuel.
use rust_samples.Prelude.{
  ℕ, zero, suc, ◌+◌, ◌≤◌, ◌<◌, ◌^◌, ◌≡◌, refl, ap, sym, ◌∙◌, none, some, some_inj, true, false,
  arith, Bool-cases, Option-cases, inl, inr, ◌⊎◌, subst,
}
use rust_samples.EbpfProtect.{
  Pin, ProgInfo, Kernel, Service, unauthorized, open_fd, report, is_prog_allowed,
  force_unload_bpf_program, enforce, check_program, check_and_enforce, whitelist_map_pin_path,
  pin_at,
}
use rust_samples.EbpfProtect.Pins.{
  Mem, is_pin_of, remove_bpf_pins-Mem, remove_bpf_pins-fds, remove_bpf_pins-pin_at,
}

module _ (kernel : Kernel) where
  -- The scan from an id comes to a program.
  pub data Visited : ℕ → ℕ → Type 0 where
    now_at : {id j : ℕ} → kernel.next_id id ≡ some j → Visited id j
    later_at : {id k j : ℕ} → kernel.next_id id ≡ some k → Visited k j → Visited id j

  -- A program that can be looked at and that the whitelist does not hold.
  pub record IsUnauthorized (j : ℕ) : Type 0 where
    pub opens : kernel.opens_by_id j ≡ true
    pub info : ProgInfo
    pub is_info : kernel.info_by_id j ≡ some info
    pub refused : is_prog_allowed kernel info.name info.prog_type ≡ false

  enforce-Mem :
      (id : ℕ) (info : ProgInfo) (p : Pin) (s : Service)
      → Mem p (enforce kernel id info s).pins
      → Mem p s.pins
        × (is_prog_allowed kernel info.name info.prog_type ≡ false → is_pin_of id p ≡ false)
  unfolding enforce force_unload_bpf_program
  enforce-Mem id info p s h = elim (Bool-cases (is_prog_allowed kernel info.name info.prog_type)) [
    | inl allowed ↦ (rw (allowed, enforce) at h, λ e. absurd (true≢false (sym allowed ∙ e)))
    | inr refused ↦
        let (inside, gone) =
          remove_bpf_pins-Mem id p (report (unauthorized id info.name info.prog_type) s)
            (rw (refused, enforce) at h) in
        (inside, λ e. gone)
  ]
    where
      true≢false : true ≡ false → ⊥
      true≢false e = cc

  check_program-Mem :
      (id : ℕ) (p : Pin) (s : Service)
      → Mem p (check_program kernel id s).pins
      → Mem p s.pins × (IsUnauthorized id → is_pin_of id p ≡ false)
  unfolding check_program
  check_program-Mem id p s h = elim (Bool-cases (kernel.opens_by_id id)) [
    | inr shut ↦ (rw (shut, check_program) at h, λ u. absurd (shut_open shut u.opens))
    | inl opened ↦ elim (Option-cases (kernel.info_by_id id)) [
      | inl missing ↦ (
        rw (opened, missing, check_program) at h,
        λ u. absurd (none_some (sym missing ∙ u.is_info)),
      )
      | inr (info, e) ↦
          let (inside, gone) =
            enforce-Mem id info p (open_fd s) (rw (opened, e, check_program) at h) in
          (
            inside,
            λ u. gone (
                ap (λ i. is_prog_allowed kernel i.name i.prog_type) (some_inj.0 (sym e ∙ u.is_info))
                ∙ u.refused),
          )
    ]
  ]
    where
      shut_open : kernel.opens_by_id id ≡ false → kernel.opens_by_id id ≡ true → ⊥
      shut_open a b = cc

      none_some : {info : ProgInfo} → none ≡ some info → ⊥
      none_some e = cc

  enforce-fds :
      (id : ℕ) (info : ProgInfo) (s : Service)
      → (enforce kernel id info (open_fd s)).open_fds ≡ s.open_fds
  unfolding enforce force_unload_bpf_program
  enforce-fds id info s = elim (Bool-cases (is_prog_allowed kernel info.name info.prog_type)) [
    | inl allowed ↦ rw (allowed, enforce) (omega arith)
    | inr refused ↦
        let reported = report (unauthorized id info.name info.prog_type) (open_fd s) in
        let same = remove_bpf_pins-fds id reported in rw (refused, enforce) (omega (arith, same))
  ]

  check_program-fds : (id : ℕ) (s : Service) → (check_program kernel id s).open_fds ≡ s.open_fds
  unfolding check_program
  check_program-fds id s = elim (Bool-cases (kernel.opens_by_id id)) [
    | inr shut ↦ rw (shut, check_program) refl
    | inl opened ↦ elim (Option-cases (kernel.info_by_id id)) [
      | inl missing ↦ rw (opened, missing, check_program) (omega arith)
      | inr (info, e) ↦ rw (opened, e, check_program) (enforce-fds id info s)
    ]
  ]

  enforce-pin_at :
      (id : ℕ) (info : ProgInfo) (s : Service)
      → pin_at whitelist_map_pin_path (enforce kernel id info s).pins
        ≡ pin_at whitelist_map_pin_path s.pins
  unfolding enforce force_unload_bpf_program
  enforce-pin_at id info s = elim (Bool-cases (is_prog_allowed kernel info.name info.prog_type)) [
    | inl allowed ↦ rw (allowed, enforce) refl
    | inr refused ↦
        rw (refused, enforce)
          (remove_bpf_pins-pin_at id (report (unauthorized id info.name info.prog_type) s))
  ]

  check_program-pin_at :
      (id : ℕ) (s : Service)
      → pin_at whitelist_map_pin_path (check_program kernel id s).pins
        ≡ pin_at whitelist_map_pin_path s.pins
  unfolding check_program
  check_program-pin_at id s = elim (Bool-cases (kernel.opens_by_id id)) [
    | inr shut ↦ rw (shut, check_program) refl
    | inl opened ↦ elim (Option-cases (kernel.info_by_id id)) [
      | inl missing ↦ rw (opened, missing, check_program) refl
      | inr (info, e) ↦ rw (opened, e, check_program) (enforce-pin_at id info (open_fd s))
    ]
  ]

  Visited-none : (id j : ℕ) → kernel.next_id id ≡ none → Visited id j → ⊥
  Visited-none id j e (now_at f) = no_next (sym e ∙ f)
    where
      no_next : {k : ℕ} → none ≡ some k → ⊥
      no_next e = cc
  Visited-none id j e (later_at f v) = no_next (sym e ∙ f)
    where
      no_next : {k : ℕ} → none ≡ some k → ⊥
      no_next e = cc

  Visited-some : (id k j : ℕ) → kernel.next_id id ≡ some k → Visited id j → (k ≡ j) ⊎ Visited k j
  Visited-some id k j e (now_at f) = inl (some_inj.0 (sym e ∙ f))
  Visited-some id k j e (later_at f v) =
      inr (subst (λ n. Visited n j) (sym (some_inj.0 (sym e ∙ f))) v)

  -- What a scan achieves.
  pub record Enforced (id : ℕ) (s s' : Service) : Type 0 where
    pub fds : s'.open_fds ≡ s.open_fds
    pub pins : (p : Pin) → Mem p s'.pins → Mem p s.pins
    pub own_pin : pin_at whitelist_map_pin_path s'.pins ≡ pin_at whitelist_map_pin_path s.pins
    pub unpinned :
        (p : Pin) (j : ℕ) → Mem p s'.pins → Visited id j → IsUnauthorized j → is_pin_of j p ≡ false

  Enforced-step :
      (id k : ℕ) (s s' : Service)
      → kernel.next_id id ≡ some k
      → Enforced k (check_program kernel k s) s'
      → Enforced id s s'
  Enforced-step id k s s' e more = record {
    fds = more.fds ∙ check_program-fds k s;
    own_pin = more.own_pin ∙ check_program-pin_at k s;
    pins = λ p m. (check_program-Mem k p s (more.pins p m)).0;
    unpinned = λ p j m v u. elim (Visited-some id k j e v) [
      | inl same ↦
          ap (λ n. is_pin_of n p) (sym same)
          ∙ (check_program-Mem k p s (more.pins p m)).1 (subst IsUnauthorized (sym same) u)
      | inr later ↦ more.unpinned p j m later u
    ];
  }

  -- A scan from an id ends, 2 ^ 32 turns being enough in all; it closes every descriptor that it
  -- opens, adds no pin, keeps the whitelist's own, and leaves no pin of an unauthorized program that it comes to.
  pub check_and_enforce-Enforced :
      (fuel id : ℕ) (s : Service)
      → id < 2 ^ 32
      → 2 ^ 32 ≤ fuel + id
      → (s' : Service) × (check_and_enforce kernel fuel id s ≡ some s') × Enforced id s s'
  unfolding check_and_enforce
  check_and_enforce-Enforced zero id s below enough = absurd (omega arith)
  check_and_enforce-Enforced (suc fuel) id s below enough =
      elim (Option-cases (kernel.next_id id)) [
        | inl last ↦ (
          s,
          rw (last, check_and_enforce) refl,
          record {
            fds = refl;
            pins = λ p m. m;
            own_pin = refl;
            unpinned = λ p j m v u. absurd (Visited-none id j last v);
          },
        )
        | inr (k, e) ↦
            let (above, small) = kernel.next-above id k e in
            let (s', runs, more) =
              check_and_enforce-Enforced fuel k (check_program kernel k s) small (omega arith) in
            (s', rw (e, check_and_enforce) runs, Enforced-step id k s s' e more)
      ]
