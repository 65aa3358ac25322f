-- ===== src/DlpHooks/Tests.antt =====
-- The theorems on the fanotify hooks at concrete files and events.
use rust_samples.Prelude.{
  ℕ, zero, suc, ◌<◌, ◌≡◌, refl, arith, List, [], ◌∷◌, ◌++◌, none, some, true, take, replicate, map,
  length-replicate,
}
use rust_samples.Prelude.Text.{codes, starts_with}
use rust_samples.DlpHooks.{
  FanotifyEventMetadata, Kernel, respond, close, file_access, fan_allow, fan_deny, handle,
  evaluate_file_safety, get_path_from_fd, monitored, run_fanotify_monitor,
}
use rust_samples.DlpHooks.Utf8.{from_utf8}
use rust_samples.DlpHooks.Layout.{fields, Fits}
use rust_samples.DlpHooks.Answers.{given, run_fanotify_monitor_lem}
use rust_samples.DlpHooks.Decisions.{IsAscii, ascii_file_decided, cut_file_allowed}

abbrev secret : List ℕ
secret = codes "secret plan"

abbrev long_text : List ℕ
long_text = replicate 1023 b'a' ++ 195 ∷ 169 ∷ []

-- Every descriptor has the one content.
abbrev holding : List ℕ → Kernel
holding content = record {
  pread = λ fd len. some (take len content);
  read_link = λ fd. none;
  matches_pattern = λ text. starts_with (codes "secret") text;
}

ascii_file_decided_example : evaluate_file_safety (holding secret) 7 ≡ fan_deny
ascii_file_decided_example = ascii_file_decided (holding secret) 7 secret refl refl (
  omega arith,
  (
    omega arith,
    (
      omega arith,
      (
        omega arith,
        (
          omega arith,
          (
            omega arith,
            (omega arith, (omega arith, (omega arith, (omega arith, (omega arith, tt))))),
          ),
        ),
      ),
    ),
  ),
)

replicate-IsAscii : (n : ℕ) → IsAscii (replicate n b'a')
replicate-IsAscii zero = tt
replicate-IsAscii (suc n) = (omega arith, replicate-IsAscii n)

cut_file_allowed_example : evaluate_file_safety (holding long_text) 7 ≡ fan_allow
cut_file_allowed_example =
    cut_file_allowed (holding long_text) 7 (replicate 1023 b'a') (169 ∷ []) 195 refl
      (length-replicate {A = ℕ} 1023 b'a') (replicate-IsAscii 1023) (omega arith)

abbrev opening : ℕ → FanotifyEventMetadata
opening fd = record {
  event_len = 24;
  vers = 3;
  reserved = 0;
  metadata_len = 24;
  mask = 65536;
  fd = fd;
  pid = 4242;
}

abbrev overflow : FanotifyEventMetadata
overflow = record (opening 4294967295) { event_len = 32; mask = 16384 }

-- After the first round the number 7 stands for another file.
abbrev at_round : ℕ → Kernel
at_round zero = holding secret
at_round (suc round) = holding (codes "plans")

-- An event with a file, one with a record behind it and no file, and a failed `read` between.
run_fanotify_monitor_lem_example :
    run_fanotify_monitor
      (λ round offset. at_round round)
      true
      true
      171
      (map given (
        some ((opening 7, []) ∷ (overflow, replicate 8 1) ∷ [])
        ∷ none
        ∷ some ((opening 7, []) ∷ [])
        ∷ []))
    ≡ monitored (
        some (
          respond (record { fd = 7; response = 2 })
          ∷ close 7
          ∷ file_access 4242 (codes "Unknown") 7
          ∷ respond (record { fd = 7; response = 1 })
          ∷ close 7
          ∷ file_access 4242 (codes "Unknown") 7
          ∷ []))
unfolding handle get_path_from_fd evaluate_file_safety from_utf8
run_fanotify_monitor_lem_example =
    run_fanotify_monitor_lem (λ round offset. at_round round)
      (some ((opening 7, []) ∷ (overflow, replicate 8 1) ∷ [])
        ∷ none
        ∷ some ((opening 7, []) ∷ [])
        ∷ [])
      (
        (((fits 7 (omega arith), refl), ((overflow_fits, refl), tt)), omega arith),
        (tt, ((((fits 7 (omega arith), refl), tt), omega arith), tt)),
      )
  where
    fits : (fd : ℕ) → fd < 4294967296 → Fits (fields (opening fd))
    fits fd h = (
      omega arith,
      (omega arith, (omega arith, (omega arith, (omega arith, (h, (omega arith, tt)))))),
    )

    overflow_fits : Fits (fields overflow)
    overflow_fits = (
      omega arith,
      (omega arith, (omega arith, (omega arith, (omega arith, (omega arith, (omega arith, tt)))))),
    )
