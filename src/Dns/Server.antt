-- ===== src/Dns/Server.antt =====
-- dns_server/src/main.rs: the handlers of DNS requests and of updates, and the clearing of the
-- cache. `works` is whether SQLite answers, and `forwarder` the upstream resolver.
use rust_samples.Prelude.{
  ℕ, ◌+◌, ◌*◌, List, [], ◌∷◌, Option, none, some, Bool, true, false, ltb, if◌then◌else◌, and_then,
  bytes_key,
}
use rust_samples.Prelude.Text.{is_empty}
use rust_samples.Prelude.Maps.{lookup, insert}
use rust_samples.Prelude.{◌&&◌, ◌==◌}
use rust_samples.Dns.{
  text_lt, Chrono, RecordType, type_a, type_other, data_a, data_other, Record, Response, no_error,
  nx_domain, CacheRow, Database,
}
use rust_samples.Dns.Ipv4.{from_str, to_string}

-- `trim_end_matches('.')`.
unfoldable pub trim_dots : List ℕ → List ℕ
trim_dots [] = []
trim_dots (c ∷ cs) = let rest = trim_dots cs in if c == b'.' && is_empty rest then [] else c ∷ rest

unfoldable pub lookup_local_a_record : Bool → List ℕ → Database → Option (List ℕ)
unfolding trim_dots
lookup_local_a_record works domain db =
    if works then and_then (lookup (trim_dots domain) db.dns_records) from_str else none

-- What the text of an address stands for while `now` is before the end of its time.
unfoldable pub unless_expired : Chrono → ℕ → CacheRow → Option (List ℕ)
unless_expired chrono now row = elim (chrono.parse_from_rfc3339 row.expires_at) [
  | none ↦ none
  | some expires_at ↦ if ltb now expires_at then from_str row.ip_address else none
]

unfoldable pub lookup_cache_a_record : Chrono → Bool → ℕ → List ℕ → Database → Option (List ℕ)
unfolding trim_dots unless_expired
lookup_cache_a_record chrono works now domain db =
    if works
    then and_then (lookup (trim_dots domain) db.dns_cache) (unless_expired chrono now)
    else none

unfoldable pub save_to_cache : Chrono → Bool → ℕ → List ℕ → List ℕ → ℕ → Database → Database
unfolding trim_dots
save_to_cache chrono works now domain ip ttl db =
    if works
    then record db {
      dns_cache =
          insert (trim_dots domain)
            (record { ip_address = ip; expires_at = chrono.to_rfc3339 (now + ttl * 1000000000) })
            db.dns_cache;
    }
    else db

abbrev pub respond_with_a : List ℕ → List ℕ → ℕ → Bool → Response
respond_with_a name ip ttl auth = record {
  authoritative = auth;
  rcode = no_error;
  answers = record { name = name; ttl = ttl; data_ = data_a ip } ∷ [];
}

-- The first record of type A is cached.
unfoldable pub cache_first_a : Chrono → Bool → ℕ → List ℕ → List Record → Database → Database
unfolding save_to_cache to_string
cache_first_a chrono works now name [] db = db
cache_first_a chrono works now name (r ∷ records) db = elim r.data_ [
  | data_a ip ↦ save_to_cache chrono works now name (to_string ip) r.ttl db
  | data_other bytes ↦ cache_first_a chrono works now name records db
]

abbrev pub is_a : RecordType → Bool
is_a type_a = true
is_a (type_other n) = false

unfoldable pub forward :
    Chrono → Bool → ℕ → List ℕ → RecordType → Option (List Record) → Database → Database × Response
unfolding cache_first_a
forward chrono works now name record_type none db =
    (db, record { authoritative = false; rcode = nx_domain; answers = [] })
forward chrono works now name record_type (some records) db = (
  if is_a record_type then cache_first_a chrono works now name records db else db,
  record { authoritative = false; rcode = no_error; answers = records },
)

-- What `handle_request` answers to the name that hickory gives it.
unfoldable pub answer_query :
    Chrono
    → Bool
    → (List ℕ → RecordType → Option (List Record))
    → ℕ
    → List ℕ
    → RecordType
    → Database
    → Database × Response
unfolding lookup_local_a_record lookup_cache_a_record forward
answer_query chrono works forwarder now name record_type db =
    let local = if is_a record_type then lookup_local_a_record works name db else none in
    let cached =
      if is_a record_type then lookup_cache_a_record chrono works now name db else none in
    elim local [
      | some ip ↦ (db, respond_with_a name ip 60 true)
      | none ↦ elim cached [
        | some ip ↦ (db, respond_with_a name ip 300 false)
        | none ↦ forward chrono works now name record_type (forwarder name record_type) db
      ]
    ]

-- `lower_name` is hickory's reading of the name that a client sends: it comes in lower case.
unfoldable pub handle_request :
    Chrono
    → Bool
    → (List ℕ → List ℕ)
    → (List ℕ → RecordType → Option (List Record))
    → ℕ
    → List ℕ
    → RecordType
    → Database
    → Database × Response
unfolding answer_query
handle_request chrono works lower_name forwarder now name record_type db =
    answer_query chrono works forwarder now (lower_name name) record_type db

pub data StatusCode : Type 0 where
  bad_request ok internal_server_error : StatusCode

unfoldable pub handle_ddns_update : Bool → List ℕ → List ℕ → Database → Database × StatusCode
unfolding trim_dots
handle_ddns_update works domain ip db = elim (from_str ip) [
  | none ↦ (db, bad_request)
  | some octets ↦
      if works
      then (record db { dns_records = insert (trim_dots domain) ip db.dns_records }, ok)
      else (db, internal_server_error)
]

-- `DELETE FROM dns_cache WHERE expires_at < now`.
abbrev pub delete_expired : List ℕ → List (List ℕ × CacheRow) → List (List ℕ × CacheRow)
delete_expired now_str [] = []
delete_expired now_str ((domain, row) ∷ rows) =
    let rest = delete_expired now_str rows in
    if text_lt row.expires_at now_str then rest else (domain, row) ∷ rest

unfoldable pub cleanup : Chrono → Bool → ℕ → Database → Database
cleanup chrono works now db =
    if works
    then record db { dns_cache = delete_expired (chrono.to_rfc3339 now) db.dns_cache }
    else db
