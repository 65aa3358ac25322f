-- ===== src/FileSender.antt =====
-- file_sender/src/main.rs: the arguments, the client and the server. The system's answers are the
-- records ClientSystem and ServerSystem.
pub mod Transfer
mod Tests
use rust_samples.Prelude.{
  ℕ, ◌≤◌, List, [], ◌∷◌, ◌++◌, Option, none, some, Bool, true, false, length, take, ltb, list_eq,
  get_or, if◌then◌else◌,
}
use rust_samples.Prelude.Text.{codes}

-- What `main` does: it stops with the usage or an error, or runs a mode.
pub data Command : Type 0 where
  usage : Command
  bad_mode : Command
  server : (addr path : List ℕ) → Command
  client : (addr path : List ℕ) → Command

unfoldable pub command : List (List ℕ) → Command
command args =
    if ltb (length args) 4
    then usage
    else if list_eq (get_or args 3 []) (codes "server")
    then server (get_or args 1 []) (get_or args 2 [])
    else if list_eq (get_or args 3 []) (codes "client")
    then client (get_or args 1 []) (get_or args 2 [])
    else bad_mode

pub data IoResult : Type 0 where
  ok : (bytes_copied : ℕ) → IoResult
  not_found : IoResult
  failed : IoResult

-- `io::copy` moves all bytes, or fails after some of them.
abbrev pub moved : Option ℕ → List ℕ → List ℕ
moved none source = source
moved (some k) source = take k source

-- The file with its content, if it exists; whether it opens and the server is reached; after how
-- many bytes the copy fails, if it does; and whether the socket shuts down.
pub record ClientSystem : Type 0 where
  pub content : Option (List ℕ)
  pub opens : Bool
  pub connects : Bool
  pub copy_fails : Option ℕ
  pub shuts_down : Bool

abbrev pub copy_result : Option ℕ → ℕ → Bool → IoResult
copy_result (some k) n rest = failed
copy_result none n true = ok n
copy_result none n false = failed

-- The result, and what has gone into the connection, if there was one. The socket is closed
-- whichever way the function returns, so the stream ends there.
unfoldable pub run_client : ClientSystem → IoResult × Option (List ℕ)
run_client system = elim system.content [
  | none ↦ (not_found, none)
  | some bytes ↦
      if system.opens
      then (if system.connects
          then (
            copy_result system.copy_fails (length (moved system.copy_fails bytes))
                system.shuts_down,
            some (moved system.copy_fails bytes),
          )
          else (failed, none))
      else (failed, none)
]

pub record ServerSystem : Type 0 where
  pub binds : Bool
  pub accepts : Bool
  pub creates : Bool
  pub copy_fails : Option ℕ
  pub flushes : Bool

-- The result, and the file at the output path, over the stream of the first client.
unfoldable pub run_server : ServerSystem → List ℕ → Option (List ℕ) → IoResult × Option (List ℕ)
run_server system stream file =
    if system.binds
    then (if system.accepts
        then (if system.creates
            then (
              copy_result system.copy_fails (length (moved system.copy_fails stream))
                  system.flushes,
              some (moved system.copy_fails stream),
            )
            else (failed, file))
        else (failed, file))
    else (failed, file)
