-- ===== src/Dns/Answers.antt =====
-- dns_server/src/main.rs: the answers after an update and after a forwarded request.
use rust_samples.Prelude.{
  ℕ, ◌+◌, ◌*◌, ◌<◌, ◌≡◌, refl, ap, ◌∙◌, List, [], ◌∷◌, ◌++◌, Option, none, some, Bool, true, false,
  ltb, lt→ltb, and_then, bytes_key, All, list_eq, list_eq_iff,
}
use rust_samples.Prelude.Maps.{lookup, insert, lookup-insert}
use rust_samples.Dns.{
  Chrono, RecordType, type_a, data_a, data_other, Record, no_error, CacheRow, Database,
}
use rust_samples.Dns.Ipv4.{from_str, to_string, from_str-to_string}
use rust_samples.Dns.Server.{
  trim_dots, lookup_local_a_record, unless_expired, lookup_cache_a_record, save_to_cache,
  respond_with_a, cache_first_a, forward, answer_query, handle_request, handle_ddns_update,
}

lookup-insert_same {ℓ} :
    {V : Type ℓ} (k : List ℕ) (v : V) (m : List (List ℕ × V)) → lookup k (insert k v m) ≡ some v
lookup-insert_same k v m = lookup-insert k k v m ∙ rw ((list_eq_iff k k).1 refl) refl

lookup-insert_other {ℓ} :
    {V : Type ℓ} (k j : List ℕ) (v : V) (m : List (List ℕ × V))
    → list_eq k j ≡ false
    → lookup j (insert k v m) ≡ lookup j m
lookup-insert_other k j v m e = lookup-insert k j v m ∙ rw e refl

module _ (chrono : Chrono) (works : Bool)
    (forwarder : List ℕ → RecordType → Option (List Record)) where
  -- The three ways in which a request for an address is answered.
  local_hit :
      (now : ℕ) (name ip : List ℕ) (db : Database)
      → lookup_local_a_record works name db ≡ some ip
      → answer_query chrono works forwarder now name type_a db
        ≡ (db, respond_with_a name ip 60 true)
  unfolding answer_query
  local_hit now name ip db e = rw (e, answer_query) refl

  cache_hit :
      (now : ℕ) (name ip : List ℕ) (db : Database)
      → lookup_local_a_record works name db ≡ none
      → lookup_cache_a_record chrono works now name db ≡ some ip
      → answer_query chrono works forwarder now name type_a db
        ≡ (db, respond_with_a name ip 300 false)
  unfolding answer_query
  cache_hit now name ip db e f = rw (e, f, answer_query) refl

  both_miss :
      (now : ℕ) (name : List ℕ) (db : Database)
      → lookup_local_a_record works name db ≡ none
      → lookup_cache_a_record chrono works now name db ≡ none
      → answer_query chrono works forwarder now name type_a db
        ≡ forward chrono works now name type_a (forwarder name type_a) db
  unfolding answer_query
  both_miss now name db e f = rw (e, f, answer_query) refl

-- An accepted update of a domain is what the next request for an address is answered with whose
-- name, as hickory reads it in lower case, is the domain, as an authority and with or without dots
-- at the end of either name, whatever was in the tables before; every other domain's record is kept.
pub update_is_answered :
    (chrono : Chrono) (lower_name : List ℕ → List ℕ)
    (forwarder : List ℕ → RecordType → Option (List Record)) (now : ℕ)
    (domain name ip octets : List ℕ) (db : Database)
    → from_str ip ≡ some octets
    → trim_dots (lower_name name) ≡ trim_dots domain
    → let updated = (handle_ddns_update true domain ip db).0 in
      (handle_request chrono true lower_name forwarder now name type_a updated
        ≡ (updated, respond_with_a (lower_name name) octets 60 true))
      × ((other : List ℕ)
          → list_eq (trim_dots domain) (trim_dots other) ≡ false
          → lookup_local_a_record true other updated ≡ lookup_local_a_record true other db)
unfolding handle_ddns_update lookup_local_a_record handle_request
update_is_answered chrono lower_name forwarder now domain name ip octets db parsed same =
    let stored : Database = record db {
      dns_records = insert (trim_dots domain) ip db.dns_records;
    } in
    let found : and_then (lookup (trim_dots (lower_name name)) stored.dns_records) from_str
        ≡ some octets =
      ap (λ d. and_then (lookup d stored.dns_records) from_str) same
      ∙ ap (λ o. and_then o from_str) (lookup-insert_same (trim_dots domain) ip db.dns_records)
      ∙ parsed in
    rw (parsed, handle_ddns_update)
      (
        local_hit chrono true forwarder now (lower_name name) octets stored found,
        λ other e.
            ap (λ o. and_then o from_str)
              (lookup-insert_other (trim_dots domain) (trim_dots other) ip db.dns_records e),
      )

-- Records of other types, which the cache passes over.
abbrev pub IsOther : Record → Type 0
IsOther r = (bytes : List ℕ) × (r.data_ ≡ data_other bytes)

abbrev pub IsIpv4 : List ℕ → Type 0
IsIpv4 (a ∷ b ∷ c ∷ d ∷ []) = (a < 256) × (b < 256) × (c < 256) × (d < 256)
IsIpv4 other = ⊥

from_str-to_string_ipv4 : (ip : List ℕ) → IsIpv4 ip → from_str (to_string ip) ≡ some ip
from_str-to_string_ipv4 (a ∷ b ∷ c ∷ d ∷ []) h = from_str-to_string a b c d h.0 h.1 h.2 h.3
from_str-to_string_ipv4 [] h = absurd h
from_str-to_string_ipv4 (a ∷ []) h = absurd h
from_str-to_string_ipv4 (a ∷ b ∷ []) h = absurd h
from_str-to_string_ipv4 (a ∷ b ∷ c ∷ []) h = absurd h
from_str-to_string_ipv4 (a ∷ b ∷ c ∷ d ∷ e ∷ r) h = absurd h

cache_first_a_lem :
    (chrono : Chrono) (now : ℕ) (name ip : List ℕ) (others more : List Record) (r : Record)
    (db : Database)
    → All IsOther others
    → r.data_ ≡ data_a ip
    → cache_first_a chrono true now name (others ++ r ∷ more) db
      ≡ save_to_cache chrono true now name (to_string ip) r.ttl db
unfolding cache_first_a
cache_first_a_lem chrono now name ip [] more r db others e = rw (e, cache_first_a) refl
cache_first_a_lem chrono now name ip (o ∷ os) more r db others e =
    rw (others.0.1, cache_first_a) (cache_first_a_lem chrono now name ip os more r db others.1 e)

saved_is_found :
    (chrono : Chrono) (now later ttl : ℕ) (name ip : List ℕ) (db : Database)
    → IsIpv4 ip
    → later < now + ttl * 1000000000
    → lookup_cache_a_record chrono true later name
        (save_to_cache chrono true now name (to_string ip) ttl db)
      ≡ some ip
unfolding lookup_cache_a_record save_to_cache unless_expired
saved_is_found chrono now later ttl name ip db four fresh =
    let in_time : ltb later (now + ttl * 1000000000) ≡ true =
      lt→ltb later (now + ttl * 1000000000) fresh in
    let row : CacheRow = record {
      ip_address = to_string ip;
      expires_at = chrono.to_rfc3339 (now + ttl * 1000000000);
    } in
    ap (λ o. and_then o (unless_expired chrono later))
      (lookup-insert_same (trim_dots name) row db.dns_cache)
    ∙ rw (chrono.read_back (now + ttl * 1000000000), in_time, unless_expired)
        (from_str-to_string_ipv4 ip four)

local_kept :
    (chrono : Chrono) (now : ℕ) (name ip : List ℕ) (ttl : ℕ) (db : Database)
    → lookup_local_a_record true name db ≡ none
    → lookup_local_a_record true name (save_to_cache chrono true now name (to_string ip) ttl db)
      ≡ none
unfolding lookup_local_a_record save_to_cache
local_kept chrono now name ip ttl db h = h

-- A forwarded request for an address puts the first address of the answer into the cache, and
-- until its time to live is over the same request is answered from there, whatever the resolver
-- would say; but with a time to live of 300 seconds.
pub forwarded_is_cached :
    (chrono : Chrono) (lower_name : List ℕ → List ℕ)
    (forwarder resolver : List ℕ → RecordType → Option (List Record)) (now later : ℕ)
    (name ip : List ℕ) (others more : List Record) (r : Record) (db : Database)
    → lookup_local_a_record true (lower_name name) db ≡ none
    → lookup_cache_a_record chrono true now (lower_name name) db ≡ none
    → forwarder (lower_name name) type_a ≡ some (others ++ r ∷ more)
    → All IsOther others
    → r.data_ ≡ data_a ip
    → IsIpv4 ip
    → later < now + r.ttl * 1000000000
    → let first = handle_request chrono true lower_name forwarder now name type_a db in
      (first.1.answers ≡ others ++ r ∷ more)
      × (handle_request chrono true lower_name resolver later name type_a first.0
          ≡ (first.0, respond_with_a (lower_name name) ip 300 false))
unfolding forward handle_request
forwarded_is_cached chrono lower_name forwarder resolver now later sent ip others more r db local
      cached answer passed_over first four fresh =
    let name = lower_name sent in
    let saved = save_to_cache chrono true now name (to_string ip) r.ttl db in
    let done : answer_query chrono true forwarder now name type_a db ≡ (
      saved,
      record { authoritative = false; rcode = no_error; answers = others ++ r ∷ more },
    ) =
      both_miss chrono true forwarder now name db local cached
      ∙ rw answer (
          ap
            (λ d.
              (d, record { authoritative = false; rcode = no_error; answers = others ++ r ∷ more }))
            (cache_first_a_lem chrono now name ip others more r db passed_over first)) in
    rw done (
      refl,
      cache_hit chrono true resolver later name ip saved
          (local_kept chrono now name ip r.ttl db local)
          (saved_is_found chrono now later r.ttl name ip db four fresh),
    )
