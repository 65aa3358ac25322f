-- ===== src/DnsTelemetry.antt =====
-- dns_telemetry/src/main.rs: the capture of packets, the parsing loop, the worker and its batches.
-- pcap, etherparse, hickory and ClickHouse are parameters, and so is the clock, in milliseconds.
pub mod Service
pub mod Sublists
pub mod Accounts
pub mod Runs
pub mod Batches
mod Tests
use rust_samples.Prelude.{ℕ, List, Option, Bool}

pub record DnsRecord : Type 0 where
  pub timestamp : ℕ
  pub tx_id : ℕ
  pub msg_type : List ℕ
  pub query_type : List ℕ
  pub domain : List ℕ
  pub answers : List (List ℕ)

pub data MessageType : Type 0 where
  query : MessageType
  response : MessageType

-- What the methods of hickory's `Message` give: the name and the type of a query and the data of
-- an answer as text, where `none` is an answer without data.
pub record Message : Type 0 where
  pub id : ℕ
  pub message_type : MessageType
  pub queries : List (List ℕ × List ℕ)
  pub answers : List (Option (List ℕ))

-- `SlicedPacket::from_ethernet`, with the payload where the transport is UDP, and
-- `Message::from_bytes`.
pub record Parsers : Type 0 where
  pub udp_payload : List ℕ → Option (List ℕ)
  pub from_bytes : List ℕ → Option Message

-- How ClickHouse answers during one `flush_to_clickhouse`.
pub record Attempt : Type 0 where
  pub insert_begins : Bool
  pub write_ok : DnsRecord → Bool
  pub end_ok : Bool

-- The two channels, the worker's batch and time of its last flush, and the table.
pub record Telemetry : Type 0 where
  pub packets : List (List ℕ)
  pub logs : List DnsRecord
  pub batch : List DnsRecord
  pub last_flush : ℕ
  pub table : List DnsRecord

-- A packet at the interface; the parsing loop takes a packet; the worker takes a record, or its
-- sleep ends.
pub data Event : Type 0 where
  captures : (packet : List ℕ) → Event
  parses : (now : ℕ) → Event
  receives : (now : ℕ) → Attempt → Event
  wakes : (now : ℕ) → Attempt → Event
