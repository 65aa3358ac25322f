-- ===== src/Dns.antt =====
-- dns_server/src/main.rs: records, answers, and the two tables of the database. Time is in
-- nanoseconds.
pub mod Ipv4
pub mod Server
pub mod Answers
pub mod Cleanup
mod Tests
use rust_samples.Prelude.{
  ℕ, ◌<◌, ◌≡◌, List, [], ◌∷◌, Option, some, Bool, true, false, ◌==◌, ltb, if◌then◌else◌,
}

-- `WHERE a < b` of two texts.
abbrev pub text_lt : List ℕ → List ℕ → Bool
text_lt s [] = false
text_lt [] (d ∷ t) = true
text_lt (c ∷ s) (d ∷ t) = if c == d then text_lt s t else ltb c d

-- What chrono documents of RFC 3339 texts in UTC: they are read back, and sort as their times.
pub record Chrono : Type 0 where
  pub to_rfc3339 : ℕ → List ℕ
  pub parse_from_rfc3339 : List ℕ → Option ℕ
  pub read_back : (t : ℕ) → parse_from_rfc3339 (to_rfc3339 t) ≡ some t
  pub sorted : (s t : ℕ) → text_lt (to_rfc3339 s) (to_rfc3339 t) ≡ ltb s t

pub data RecordType : Type 0 where
  type_a : RecordType
  type_other : ℕ → RecordType

pub data RecordData : Type 0 where
  data_a : List ℕ → RecordData
  data_other : List ℕ → RecordData

pub record Record : Type 0 where
  pub name : List ℕ
  pub ttl : ℕ
  pub data_ : RecordData

pub data ResponseCode : Type 0 where
  no_error nx_domain : ResponseCode

pub record Response : Type 0 where
  pub authoritative : Bool
  pub rcode : ResponseCode
  pub answers : List Record

-- A row of `dns_cache`. Both tables hold records of type A only, one for a domain.
pub record CacheRow : Type 0 where
  pub ip_address : List ℕ
  pub expires_at : List ℕ

pub record Database : Type 0 where
  pub dns_records : List (List ℕ × List ℕ)
  pub dns_cache : List (List ℕ × CacheRow)
