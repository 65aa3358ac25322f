-- ===== src/Siem.antt =====
-- siem_clickhouse_processor/src/main.rs: the events, and what ClickHouse, serde_json and the disk
-- do, which is a parameter.
pub mod Writer
pub mod Manager
pub mod Traffic
pub mod Saved
pub mod Flow
pub mod Bounds
mod Tests
use rust_samples.Prelude.{ℕ, List, Option, Bool}

pub record SiemEvent : Type 0 where
  pub event_id : ℕ
  pub timestamp : ℕ
  pub event_type : List ℕ
  pub source_ip : List ℕ
  pub destination_ip : List ℕ
  pub severity : List ℕ
  pub message : List ℕ

-- A time is in milliseconds.
pub record Config : Type 0 where
  pub max_batch_size : ℕ
  pub batch_timeout : ℕ
  pub wal_path : List ℕ

-- How the crates answer during one `write_batch`: whether the insert begins, each event is taken
-- and the batch is committed; whether the file opens, what an event is as JSON, how many
-- `write_all` calls the disk takes, and whether it flushes.
pub record Attempt : Type 0 where
  pub insert_begins : Bool
  pub event_written : SiemEvent → Bool
  pub insert_ends : Bool
  pub wal_opens : Bool
  pub to_string : SiemEvent → Option (List ℕ)
  pub disk_writes : ℕ
  pub flushes : Bool

-- The table `siem_events` and the bytes of the write-ahead log.
pub record Store : Type 0 where
  pub table : List SiemEvent
  pub wal : List ℕ
