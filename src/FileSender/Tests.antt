-- ===== src/FileSender/Tests.antt =====
-- The theorem on the transfer of a file, with a copy that fails on the way.
use rust_samples.Prelude.{List, ℕ, ◌≡◌, refl, [], ◌∷◌, none, some, true}
use rust_samples.Prelude.Text.{codes}
use rust_samples.FileSender.{
  ok, ClientSystem, ServerSystem, server, command, run_client, run_server,
}
use rust_samples.FileSender.Transfer.{IsSent, IsReceived, run_server-run_client}

command_server :
    command (codes "file_sender" ∷ codes "0.0.0.0:1" ∷ codes "out" ∷ codes "server" ∷ [])
    ≡ server (codes "0.0.0.0:1") (codes "out")
unfolding command
command_server = refl

abbrev broken_client : ClientSystem
broken_client = record {
  content = some (codes "hello");
  opens = true;
  connects = true;
  copy_fails = some 2;
  shuts_down = true;
}

abbrev good_server : ServerSystem
good_server = record {
  binds = true;
  accepts = true;
  creates = true;
  copy_fails = none;
  flushes = true;
}

-- The client fails after two bytes, and the server reports two bytes saved.
run_server-run_client_example :
    (content : List ℕ) × (broken_client.content ≡ some content)
    × IsSent content (run_client broken_client).0 (codes "he")
    × IsReceived
        (codes "he")
        (some (codes "old"))
        (run_server good_server (codes "he") (some (codes "old")))
    × ((run_server good_server (codes "he") (some (codes "old"))).0 ≡ ok 2)
unfolding run_client
run_server-run_client_example =
    run_server-run_client broken_client good_server (codes "he") (some (codes "old")) refl
