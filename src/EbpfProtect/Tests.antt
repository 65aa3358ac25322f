-- ===== src/EbpfProtect/Tests.antt =====
-- The service's theorem at a concrete kernel.
use rust_samples.Prelude.{
  refl, ℕ, ◌<◌, ◌^◌, ◌≡◌, arith, [], ◌∷◌, Option, none, some, true, false, if◌then◌else◌, ltb,
  Bool-cases, inl, inr, some_inj,
}
use rust_samples.Prelude.Text.{codes}
use rust_samples.EbpfProtect.{
  Pin, Kernel, Service, MapCalls, whitelist_pin, setup_whitelist_map, main,
}
use rust_samples.EbpfProtect.Daemon.{IsSetUp, Guarded, main_lem}

-- One program, which nothing allows.
abbrev next_of : ℕ → Option ℕ
next_of id = if ltb id 7 then some 7 else none

next_of-above : (id j : ℕ) → next_of id ≡ some j → (id < j) × (j < 2 ^ 32)
next_of-above id j e = elim (Bool-cases (ltb id 7)) [
  | inl below ↦
      let seven : 7 ≡ j = some_inj.0 (rw below at e) in
      let less : id < 7 = ground arith in (omega arith, omega arith)
  | inr above ↦ absurd (no_next (rw above at e))
]
  where
    no_next : none ≡ some j → ⊥
    no_next e = cc

abbrev one_program : Kernel
one_program = record {
  next_id = next_of;
  opens_by_id = λ id. true;
  info_by_id = λ id. some (record { name = codes "rootkit"; prog_type = 2 });
  whitelisted = λ key. false;
  next-above = next_of-above;
}

abbrev pin_of_seven : Pin
pin_of_seven = record {
  path = codes "/sys/fs/bpf/hook";
  is_file = true;
  has_nul = false;
  opens = true;
  info_id = some 7;
  removable = true;
}

abbrev service : Service
service = record { pins = pin_of_seven ∷ []; open_fds = 3; syslog = [] }

abbrev map_calls : MapCalls
map_calls = record { created = some 41; pins = true }

abbrev set_up : Service
set_up = record { pins = pin_of_seven ∷ whitelist_pin 41 ∷ []; open_fds = 4; syslog = [] }

setup_whitelist_map_lem : setup_whitelist_map map_calls service ≡ some set_up
unfolding setup_whitelist_map
setup_whitelist_map_lem = refl

main_lem_example :
    (s' : Service) × (main map_calls (one_program ∷ one_program ∷ []) service ≡ some s')
    × IsSetUp service s'
    × Guarded one_program set_up s'
main_lem_example =
    main_lem map_calls (one_program ∷ []) one_program service set_up setup_whitelist_map_lem
