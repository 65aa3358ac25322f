-- ===== src/Dns/Tests.antt =====
-- The theorems on the server at concrete requests.
use rust_samples.Prelude.{
  ◌+◌, ◌&&◌, leb, if◌then◌else◌, ℕ, suc, zero, ◌≡◌, refl, ap, arith, List, [], ◌∷◌, Option, none,
  some, true, false, replicate, length, ltb, list_eq, length-replicate,
}
use rust_samples.Prelude.Text.{codes, split}
use rust_samples.Dns.{text_lt, Chrono, RecordType, type_a, data_a, data_other, Record, Database}
use rust_samples.Dns.Ipv4.{from_str, to_string, from_str-to_string, parse_octet}
use rust_samples.Dns.Server.{
  trim_dots, lookup_local_a_record, lookup_cache_a_record, respond_with_a, handle_request,
  handle_ddns_update, cleanup,
}
use rust_samples.Dns.Answers.{update_is_answered, forwarded_is_cached}
use rust_samples.Dns.Cleanup.{served, cleanup-served}

-- Times as texts of that length.
text_lt-replicate : (s t : ℕ) → text_lt (replicate s 49) (replicate t 49) ≡ ltb s t
text_lt-replicate zero zero = ground arith
text_lt-replicate zero (suc t) = ground arith
text_lt-replicate (suc s) zero = ground arith
text_lt-replicate (suc s) (suc t) = ground (arith, text_lt-replicate s t)

abbrev tally_marks : Chrono
tally_marks = record {
  to_rfc3339 = λ t. replicate t 49;
  parse_from_rfc3339 = λ s. some (length s);
  read_back = λ t. ap some (length-replicate t 49);
  sorted = text_lt-replicate;
}

-- Capital letters become small.
abbrev lower_name : List ℕ → List ℕ
lower_name [] = []
lower_name (c ∷ cs) = (if leb 65 c && leb c 90 then c + 32 else c) ∷ lower_name cs

abbrev silent : List ℕ → RecordType → Option (List Record)
silent name record_type = none

abbrev empty_tables : Database
empty_tables = record { dns_records = []; dns_cache = [] }

abbrev home_octets : List ℕ
home_octets = 10 ∷ 0 ∷ 0 ∷ 7 ∷ []

from_str-to_string_example : from_str (to_string home_octets) ≡ some home_octets
from_str-to_string_example =
    from_str-to_string 10 0 0 7 (omega arith) (omega arith) (omega arith) (omega arith)

home_parsed : from_str (codes "10.0.0.7") ≡ some home_octets
unfolding from_str split parse_octet
home_parsed = refl

same_name : trim_dots (codes "home.example.") ≡ trim_dots (codes "home.example")
unfolding trim_dots
same_name = refl

update_is_answered_example :
    let updated =
      (handle_ddns_update true (codes "home.example") (codes "10.0.0.7") empty_tables).0 in
    (handle_request tally_marks true lower_name silent 5 (codes "Home.example.") type_a updated
      ≡ (updated, respond_with_a (codes "home.example.") home_octets 60 true))
    × ((other : List ℕ)
        → list_eq (trim_dots (codes "home.example")) (trim_dots other) ≡ false
        → lookup_local_a_record true other updated ≡ lookup_local_a_record true other empty_tables)
update_is_answered_example =
    update_is_answered tally_marks lower_name silent 5 (codes "home.example")
      (codes "Home.example.") (codes "10.0.0.7") home_octets empty_tables home_parsed same_name

abbrev alias : Record
alias = record { name = codes "a."; ttl = 9; data_ = data_other [] }

abbrev address : Record
address = record { name = codes "b."; ttl = 30; data_ = data_a home_octets }

abbrev upstream : List ℕ → RecordType → Option (List Record)
upstream name record_type = some (alias ∷ address ∷ [])

no_local : lookup_local_a_record true (codes "a.") empty_tables ≡ none
unfolding lookup_local_a_record trim_dots
no_local = refl

no_cached : lookup_cache_a_record tally_marks true 5 (codes "a.") empty_tables ≡ none
unfolding lookup_cache_a_record trim_dots
no_cached = refl

forwarded_is_cached_example :
    let first =
      handle_request tally_marks true lower_name upstream 5 (codes "a.") type_a empty_tables in
    (first.1.answers ≡ alias ∷ address ∷ [])
    × (handle_request tally_marks true lower_name silent 29000000000 (codes "a.") type_a first.0
        ≡ (first.0, respond_with_a (codes "a.") home_octets 300 false))
forwarded_is_cached_example =
    forwarded_is_cached tally_marks lower_name upstream silent 5 29000000000 (codes "a.")
      home_octets (alias ∷ []) [] address empty_tables no_local no_cached refl (([], refl), tt) refl
      (omega arith, omega arith, omega arith, omega arith) (omega arith)

abbrev two_requests : List (ℕ × (List ℕ) × RecordType)
two_requests = (5, codes "a.", type_a) ∷ (6, codes "b.", type_a) ∷ []

cleanup-served_example :
    let db = served tally_marks lower_name upstream two_requests empty_tables in
    lookup_cache_a_record tally_marks true 9 (codes "b") (cleanup tally_marks true 8 db)
    ≡ lookup_cache_a_record tally_marks true 9 (codes "b") db
cleanup-served_example =
    cleanup-served tally_marks lower_name upstream two_requests empty_tables 8 9 (codes "b") refl
      (omega arith)
