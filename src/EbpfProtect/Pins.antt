-- ===== src/EbpfProtect/Pins.antt =====
-- ebpf_protect/src/main.rs: the removal of pinned files.
use rust_samples.Prelude.{
  ℕ, ◌≡◌, ◌≢◌, refl, ap, sym, ◌∙◌, ◌⊎◌, inl, inr, List, [], ◌∷◌, Option, none, some, Bool, true,
  false, not, ◌&&◌, arith, list_eq, list_eq_iff, ◌==◌, if◌then◌else◌, if_true, if_false, Bool-cases,
  Option-cases, subst,
}
use rust_samples.EbpfProtect.{
  Pin, Service, whitelist_map_pin_path, without, pin_at, handle_object, visit_pin, visit_pins,
  remove_bpf_pins_by_id,
}

abbrev pub Mem : Pin → List Pin → Type 0
Mem x [] = ⊥
Mem x (y ∷ ys) = (x ≡ y) ⊎ Mem x ys

abbrev pub has_id : ℕ → Option ℕ → Bool
has_id prog_id none = false
has_id prog_id (some id) = id == prog_id

-- A pinned file of a program, other than the whitelist's own and one that can be opened and
-- removed.
abbrev pub is_pin_of : ℕ → Pin → Bool
is_pin_of prog_id pin =
    pin.is_file
    && not (list_eq pin.path whitelist_map_pin_path)
    && not pin.has_nul
    && pin.opens
    && has_id prog_id pin.info_id
    && pin.removable

-- What a visit does to the pins and the descriptors.
visit_pin-pins :
    (prog_id : ℕ) (pin : Pin) (s : Service)
    → (visit_pin prog_id pin s).pins
      ≡ (if is_pin_of prog_id pin then without pin.path s.pins else s.pins)
unfolding visit_pin handle_object
visit_pin-pins prog_id pin s = elim (Option-cases pin.info_id) [
  | inl e ↦ ground (arith, e)
  | inr (id, e) ↦ ground (arith, e)
]

true≢false : true ≢ false
true≢false e = cc

Mem-without :
    (p : Pin) (path : List ℕ) (pins : List Pin)
    → Mem p (without path pins)
    → Mem p pins × (list_eq p.path path ≡ false)
Mem-without p path [] h = absurd h
Mem-without p path (q ∷ pins) h = elim (Bool-cases (list_eq q.path path)) [
  | inl same ↦
      let (inside, differs) = Mem-without p path pins (rw same at h) in (inr inside, differs)
  | inr other ↦ elim (mem_at other h) [
    | inl e ↦ (inl e, ap (λ x. list_eq x.path path) e ∙ other)
    | inr deeper ↦ let (inside, differs) = Mem-without p path pins deeper in (inr inside, differs)
  ]
]
  where
    mem_at :
        list_eq q.path path ≡ false
        → Mem p (without path (q ∷ pins))
        → (p ≡ q) ⊎ Mem p (without path pins)
    mem_at other h = rw other at h

visit_pin-Mem :
    (prog_id : ℕ) (q p : Pin) (s : Service)
    → Mem p (visit_pin prog_id q s).pins
    → Mem p s.pins × (is_pin_of prog_id q ≡ true → list_eq p.path q.path ≡ false)
visit_pin-Mem prog_id q p s h =
    let h' = subst (Mem p) (visit_pin-pins prog_id q s) h in
    elim (Bool-cases (is_pin_of prog_id q)) [
      | inl its_pin ↦
          let (inside, differs) =
            Mem-without p q.path s.pins
              (subst (Mem p) (if_true (without q.path s.pins) s.pins its_pin) h') in
          (inside, λ e. differs)
      | inr other ↦ (
        subst (Mem p) (if_false (without q.path s.pins) s.pins other) h',
        λ e. absurd (true≢false (sym e ∙ other)),
      )
    ]

visit_pins-Mem :
    (prog_id : ℕ) (entries : List Pin) (p : Pin) (s : Service)
    → Mem p (visit_pins prog_id entries s).pins
    → Mem p s.pins
      × ((q : Pin) → Mem q entries → is_pin_of prog_id q ≡ true → list_eq p.path q.path ≡ false)
unfolding visit_pins
visit_pins-Mem prog_id [] p s h = (h, λ q m e. absurd m)
visit_pins-Mem prog_id (r ∷ entries) p s h =
    let (later, others) = visit_pins-Mem prog_id entries p (visit_pin prog_id r s) h in
    let (inside, this) = visit_pin-Mem prog_id r p s later in
    (
      inside,
      λ q m e. elim m [
        | inl same ↦
            subst (λ z. list_eq p.path z.path ≡ false) (sym same)
              (this (ap (is_pin_of prog_id) (sym same) ∙ e))
        | inr deeper ↦ others q deeper e
      ],
    )

-- The pins that are left were there, and none is the program's.
pub remove_bpf_pins-Mem :
    (prog_id : ℕ) (p : Pin) (s : Service)
    → Mem p (remove_bpf_pins_by_id prog_id s).pins
    → Mem p s.pins × (is_pin_of prog_id p ≡ false)
unfolding remove_bpf_pins_by_id
remove_bpf_pins-Mem prog_id p s h =
    let (inside, others) = visit_pins-Mem prog_id s.pins p s h in
    elim (Bool-cases (is_pin_of prog_id p)) [
      | inr other ↦ (inside, other)
      | inl its_pin ↦
          absurd (true≢false (sym ((list_eq_iff p.path p.path).1 refl) ∙ others p inside its_pin))
    ]

-- Descriptors that a visit opens are closed.
visit_pin-fds :
    (prog_id : ℕ) (pin : Pin) (s : Service) → (visit_pin prog_id pin s).open_fds ≡ s.open_fds
unfolding visit_pin handle_object
visit_pin-fds prog_id pin s = elim (Option-cases pin.info_id) [
  | inl e ↦ ground (arith, e)
  | inr (id, e) ↦ ground (arith, e)
]

visit_pins-fds :
    (prog_id : ℕ) (entries : List Pin) (s : Service)
    → (visit_pins prog_id entries s).open_fds ≡ s.open_fds
unfolding visit_pins
visit_pins-fds prog_id [] s = refl
visit_pins-fds prog_id (pin ∷ entries) s =
    visit_pins-fds prog_id entries (visit_pin prog_id pin s) ∙ visit_pin-fds prog_id pin s

pub remove_bpf_pins-fds :
    (prog_id : ℕ) (s : Service) → (remove_bpf_pins_by_id prog_id s).open_fds ≡ s.open_fds
unfolding remove_bpf_pins_by_id
remove_bpf_pins-fds prog_id s = visit_pins-fds prog_id s.pins s

-- The whitelist's own pin stays.
pin_at-without :
    (path other : List ℕ) (pins : List Pin)
    → list_eq other path ≡ false
    → pin_at path (without other pins) ≡ pin_at path pins
pin_at-without path other [] differ = refl
pin_at-without path other (q ∷ pins) differ = elim (Bool-cases (list_eq q.path other)) [
  | inl same ↦
      let differs : list_eq q.path path ≡ false =
        ap (λ x. list_eq x path) ((list_eq_iff q.path other).0 same) ∙ differ in
      rw (same, differs) (pin_at-without path other pins differ)
  | inr apart ↦
      rw apart (
        ap (λ z. if list_eq q.path path then some q else z) (pin_at-without path other pins differ))
]

visit_pin-pin_at :
    (prog_id : ℕ) (pin : Pin) (s : Service)
    → pin_at whitelist_map_pin_path (visit_pin prog_id pin s).pins
      ≡ pin_at whitelist_map_pin_path s.pins
visit_pin-pin_at prog_id pin s =
    ap (pin_at whitelist_map_pin_path) (visit_pin-pins prog_id pin s)
    ∙ elim (Bool-cases (is_pin_of prog_id pin)) [
      | inl its_pin ↦
          rw its_pin
            (pin_at-without whitelist_map_pin_path pin.path s.pins (ground (arith, its_pin)))
      | inr other ↦ rw other refl
    ]

visit_pins-pin_at :
    (prog_id : ℕ) (entries : List Pin) (s : Service)
    → pin_at whitelist_map_pin_path (visit_pins prog_id entries s).pins
      ≡ pin_at whitelist_map_pin_path s.pins
unfolding visit_pins
visit_pins-pin_at prog_id [] s = refl
visit_pins-pin_at prog_id (pin ∷ entries) s =
    visit_pins-pin_at prog_id entries (visit_pin prog_id pin s) ∙ visit_pin-pin_at prog_id pin s

pub remove_bpf_pins-pin_at :
    (prog_id : ℕ) (s : Service)
    → pin_at whitelist_map_pin_path (remove_bpf_pins_by_id prog_id s).pins
      ≡ pin_at whitelist_map_pin_path s.pins
unfolding remove_bpf_pins_by_id
remove_bpf_pins-pin_at prog_id s = visit_pins-pin_at prog_id s.pins s
