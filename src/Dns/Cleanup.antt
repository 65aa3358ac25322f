-- ===== src/Dns/Cleanup.antt =====
-- dns_server/src/main.rs: the clearing of the cache, over the cache that requests build.
use rust_samples.Prelude.{
  ℕ, ◌+◌, ◌*◌, ◌≤◌, ◌≡◌, refl, ap, sym, subst, ◌∙◌, List, [], ◌∷◌, Option, none, some, Bool, true,
  false, arith, ltb, if_true, if_false, and_then, bytes_key, list_eq, list_eq_iff, Bool-cases,
  Option-cases, inl, inr, ◌⊎◌,
}
use rust_samples.Prelude.Maps.{lookup, insert, lookup-insert}
use rust_samples.Dns.{
  text_lt, Chrono, RecordType, type_a, type_other, RecordData, data_a, data_other, Record, CacheRow,
  Database,
}
use rust_samples.Dns.Ipv4.{to_string}
use rust_samples.Dns.Server.{
  trim_dots, unless_expired, lookup_cache_a_record, save_to_cache, cache_first_a, forward,
  answer_query, handle_request, delete_expired, cleanup, lookup_local_a_record,
}

abbrev Rows : Type 0
Rows = List (List ℕ × CacheRow)

-- A row's time was written by chrono.
abbrev IsStamped : Chrono → CacheRow → Type 0
IsStamped chrono row = (t : ℕ) × (row.expires_at ≡ chrono.to_rfc3339 t)

-- Each domain has one row.
abbrev pub IsCache : Chrono → Rows → Type 0
IsCache chrono [] = Unit
IsCache chrono ((domain, row) ∷ rows) =
    IsStamped chrono row × (lookup domain rows ≡ none) × IsCache chrono rows

delete_expired-none :
    (now_str k : List ℕ) (rows : Rows)
    → lookup k rows ≡ none
    → lookup k (delete_expired now_str rows) ≡ none
delete_expired-none now_str k [] h = refl
delete_expired-none now_str k ((d, row) ∷ rows) h = elim (Bool-cases (list_eq d k)) [
  | inl same ↦ absurd (none≢some (sym (if_true (some row) (lookup k rows) same) ∙ h))
  | inr other ↦
      let more =
        delete_expired-none now_str k rows (sym (if_false (some row) (lookup k rows) other) ∙ h) in
      elim (Bool-cases (text_lt row.expires_at now_str)) [
        | inl expired ↦ rw expired more
        | inr kept ↦ rw kept (rw other more)
      ]
]
  where
    none≢some : some row ≡ none → ⊥
    none≢some e = cc

expired_row :
    (chrono : Chrono) (now later : ℕ) (row : CacheRow)
    → IsStamped chrono row
    → text_lt row.expires_at (chrono.to_rfc3339 now) ≡ true
    → now ≤ later
    → unless_expired chrono later row ≡ none
unfolding unless_expired
expired_row chrono now later row (t, e) expired le =
    let before : ltb t now ≡ true =
      sym (chrono.sorted t now) ∙ ap (λ s. text_lt s (chrono.to_rfc3339 now)) (sym e) ∙ expired in
    let over : ltb later t ≡ false = ground arith in
    rw (e, chrono.read_back t, over, unless_expired) refl

delete_expired_lem :
    (chrono : Chrono) (now later : ℕ) (k : List ℕ) (rows : Rows)
    → IsCache chrono rows
    → now ≤ later
    → and_then
        (lookup k (delete_expired (chrono.to_rfc3339 now) rows))
        (unless_expired chrono later)
      ≡ and_then (lookup k rows) (unless_expired chrono later)
delete_expired_lem chrono now later k [] h le = refl
delete_expired_lem chrono now later k ((d, row) ∷ rows) h le =
    let more = delete_expired_lem chrono now later k rows h.2 le in
    elim (Bool-cases (text_lt row.expires_at (chrono.to_rfc3339 now))) [
      | inr kept ↦ elim (Bool-cases (list_eq d k)) [
        | inl same ↦ rw kept (rw same refl)
        | inr other ↦ rw kept (rw other more)
      ]
      | inl expired ↦ elim (Bool-cases (list_eq d k)) [
        | inr other ↦ rw expired (rw other more)
        | inl same ↦
            let gone : lookup k (delete_expired (chrono.to_rfc3339 now) rows) ≡ none =
              delete_expired-none (chrono.to_rfc3339 now) k rows
                (ap (λ z. lookup z rows) (sym ((list_eq_iff d k).0 same)) ∙ h.1) in
            rw expired (
              ap (λ o. and_then o (unless_expired chrono later)) gone
              ∙ sym (expired_row chrono now later row h.0 expired le)
              ∙ ap (λ o. and_then o (unless_expired chrono later))
                  (sym (if_true (some row) (lookup k rows) same)))
      ]
    ]

-- The clearing of the cache at one time changes no lookup at that time or later: it deletes only
-- rows that a lookup would ignore.
pub cleanup_keeps_answers :
    (chrono : Chrono) (works : Bool) (now later : ℕ) (name : List ℕ) (db : Database)
    → IsCache chrono db.dns_cache
    → now ≤ later
    → lookup_cache_a_record chrono true later name (cleanup chrono works now db)
      ≡ lookup_cache_a_record chrono true later name db
unfolding lookup_cache_a_record cleanup
cleanup_keeps_answers chrono false now later name db h le = refl
cleanup_keeps_answers chrono true now later name db h le =
    delete_expired_lem chrono now later (trim_dots name) db.dns_cache h le

insert-IsCache :
    (chrono : Chrono) (k : List ℕ) (row : CacheRow) (rows : Rows)
    → IsStamped chrono row
    → IsCache chrono rows
    → IsCache chrono (insert k row rows)
insert-IsCache chrono k row [] s h = (s, refl, tt)
insert-IsCache chrono k row ((d, other) ∷ rows) s h = elim (Bool-cases (list_eq d k)) [
  | inl same ↦ rw same (s, ap (λ z. lookup z rows) (sym ((list_eq_iff d k).0 same)) ∙ h.1, h.2)
  | inr differs ↦ rw differs (
    h.0,
    lookup-insert k d row rows ∙ if_false (some row) (lookup d rows) (flipped differs) ∙ h.1,
    insert-IsCache chrono k row rows s h.2,
  )
]
  where
    flipped : list_eq d k ≡ false → list_eq k d ≡ false
    flipped e = ground (arith, list_eq_iff d k, list_eq_iff k d)

save_to_cache-IsCache :
    (chrono : Chrono) (works : Bool) (now ttl : ℕ) (name ip : List ℕ) (db : Database)
    → IsCache chrono db.dns_cache
    → IsCache chrono (save_to_cache chrono works now name ip ttl db).dns_cache
unfolding save_to_cache
save_to_cache-IsCache chrono false now ttl name ip db h = h
save_to_cache-IsCache chrono true now ttl name ip db h =
    insert-IsCache chrono (trim_dots name)
      (record { ip_address = ip; expires_at = chrono.to_rfc3339 (now + ttl * 1000000000) })
      db.dns_cache (now + ttl * 1000000000, refl) h

RecordData-cases :
    (d : RecordData)
    → ((ip : List ℕ) × (d ≡ data_a ip)) ⊎ ((bytes : List ℕ) × (d ≡ data_other bytes))
RecordData-cases (data_a ip) = inl (ip, refl)
RecordData-cases (data_other bytes) = inr (bytes, refl)

cache_first_a-IsCache :
    (chrono : Chrono) (works : Bool) (now : ℕ) (name : List ℕ) (records : List Record)
    (db : Database)
    → IsCache chrono db.dns_cache
    → IsCache chrono (cache_first_a chrono works now name records db).dns_cache
unfolding cache_first_a
cache_first_a-IsCache chrono works now name [] db h = h
cache_first_a-IsCache chrono works now name (r ∷ records) db h = elim (RecordData-cases r.data_) [
  | inl (ip, e) ↦
      rw (e, cache_first_a) (save_to_cache-IsCache chrono works now r.ttl name (to_string ip) db h)
  | inr (bytes, e) ↦
      rw (e, cache_first_a) (cache_first_a-IsCache chrono works now name records db h)
]

forward-IsCache :
    (chrono : Chrono) (works : Bool) (now : ℕ) (name : List ℕ) (record_type : RecordType)
    (answer : Option (List Record)) (db : Database)
    → IsCache chrono db.dns_cache
    → IsCache chrono (forward chrono works now name record_type answer db).0.dns_cache
unfolding forward
forward-IsCache chrono works now name record_type none db h = h
forward-IsCache chrono works now name type_a (some records) db h =
    cache_first_a-IsCache chrono works now name records db h
forward-IsCache chrono works now name (type_other n) (some records) db h = h

-- A request leaves the cache with one row for a domain and times that chrono wrote.
pub answer_query-IsCache :
    (chrono : Chrono) (works : Bool) (forwarder : List ℕ → RecordType → Option (List Record))
    (now : ℕ) (name : List ℕ) (record_type : RecordType) (db : Database)
    → IsCache chrono db.dns_cache
    → IsCache chrono (answer_query chrono works forwarder now name record_type db).0.dns_cache
unfolding answer_query
answer_query-IsCache chrono works forwarder now name (type_other n) db h =
    forward-IsCache chrono works now name (type_other n) (forwarder name (type_other n)) db h
answer_query-IsCache chrono works forwarder now name type_a db h =
    elim (Option-cases (lookup_local_a_record works name db)) [
      | inr (ip, e) ↦ rw (e, answer_query) h
      | inl e ↦ elim (Option-cases (lookup_cache_a_record chrono works now name db)) [
        | inr (ip, f) ↦ rw (e, f, answer_query) h
        | inl f ↦
            rw (e, f, answer_query)
              (forward-IsCache chrono works now name type_a (forwarder name type_a) db h)
      ]
    ]

-- The requests of clients in turn, each with its time, name and type.
abbrev pub served :
    Chrono
    → (List ℕ → List ℕ)
    → (List ℕ → RecordType → Option (List Record))
    → List (ℕ × (List ℕ) × RecordType)
    → Database
    → Database
served chrono lower_name forwarder [] db = db
served chrono lower_name forwarder ((now, name, record_type) ∷ requests) db =
    served chrono lower_name forwarder requests
      (handle_request chrono true lower_name forwarder now name record_type db).0

served-IsCache :
    (chrono : Chrono) (lower_name : List ℕ → List ℕ)
    (forwarder : List ℕ → RecordType → Option (List Record))
    (requests : List (ℕ × (List ℕ) × RecordType)) (db : Database)
    → IsCache chrono db.dns_cache
    → IsCache chrono (served chrono lower_name forwarder requests db).dns_cache
unfolding handle_request
served-IsCache chrono lower_name forwarder [] db h = h
served-IsCache chrono lower_name forwarder ((now, name, record_type) ∷ requests) db h =
    served-IsCache chrono lower_name forwarder requests
      (handle_request chrono true lower_name forwarder now name record_type db).0
      (answer_query-IsCache chrono true forwarder now (lower_name name) record_type db h)

-- Take a server that began with an empty cache, after any requests. The clearing of its cache at
-- one time changes no lookup at that time or later: it deletes only rows that a lookup would
-- ignore.
pub cleanup-served :
    (chrono : Chrono) (lower_name : List ℕ → List ℕ)
    (forwarder : List ℕ → RecordType → Option (List Record))
    (requests : List (ℕ × (List ℕ) × RecordType)) (start : Database) (now later : ℕ) (name : List ℕ)
    → start.dns_cache ≡ []
    → now ≤ later
    → let db = served chrono lower_name forwarder requests start in
      lookup_cache_a_record chrono true later name (cleanup chrono true now db)
      ≡ lookup_cache_a_record chrono true later name db
cleanup-served chrono lower_name forwarder requests start now later name e le =
    cleanup_keeps_answers chrono true now later name
      (served chrono lower_name forwarder requests start)
      (served-IsCache chrono lower_name forwarder requests start
        (subst (IsCache chrono) (sym e) tt))
      le
