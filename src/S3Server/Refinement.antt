-- ===== src/S3Server/Refinement.antt =====
-- s3_server/src/main.rs: the same answers from a function of bucket and key.
use rust_samples.Prelude.{
  ◌≡◌, fun_ext, refl, ap, ◌∙◌, List, [], ◌∷◌, Option, none, some, true, false, Option-cases, inl,
  inr, Bool, if◌then◌else◌, list_eq, bytes_key, length,
}
use rust_samples.Prelude.Maps.{lookup, insert, lookup-insert}
use rust_samples.S3Server.{
  Bytes, bucket_already_exists, no_such_bucket, invalid_request_body, internal_error, no_such_key,
  InMemoryS3, CreateBucketInput, PutObjectInput, GetObjectInput, ok, err, create_bucket, put_body,
  put_object, get_object, Request, create, put, get, Answer, created, uploaded, creation, upload,
  object, handle, serve,
}

-- A store as a function: no bucket, or the objects of the bucket by key.
abbrev pub Objects : Type 0
Objects = Bytes → Option Bytes

abbrev pub Store : Type 0
Store = Bytes → Option Objects

abbrev pub update {ℓ} : {A : Type ℓ} → Bytes → A → (Bytes → Option A) → Bytes → Option A
update k a f j = if list_eq k j then some a else f j

abbrev pub no_objects : Objects
no_objects key = none

abbrev pub put_into : Bytes → Bytes → Option (Option Bytes) → Objects → Store → Answer × Store
put_into bucket key none objects store = (upload (err invalid_request_body), store)
put_into bucket key (some none) objects store = (upload (err internal_error), store)
put_into bucket key (some (some bytes)) objects store =
    (upload (ok uploaded), update bucket (update key bytes objects) store)

abbrev pub get_from : Option Bytes → Answer
get_from none = object (err no_such_key)
get_from (some bytes) = object (ok (record { body = bytes; content_length = length bytes }))

-- What the service promises for a request.
abbrev pub promised : Request → Store → Answer × Store
promised (create req) store = elim (store req.bucket) [
  | some objects ↦ (creation (err bucket_already_exists), store)
  | none ↦ (creation (ok created), update req.bucket no_objects store)
]
promised (put req) store = elim (store req.bucket) [
  | none ↦ (upload (err no_such_bucket), store)
  | some objects ↦ put_into req.bucket req.key req.body objects store
]
promised (get req) store = elim (store req.bucket) [
  | none ↦ (object (err no_such_bucket), store)
  | some objects ↦ (get_from (objects req.key), store)
]

abbrev pub replay : List Request → Store → List Answer × Store
replay [] store = ([], store)
replay (request ∷ requests) store =
    let (answer, next) = promised request store in
    let (answers, last) = replay requests next in (answer ∷ answers, last)

-- The maps of the code, read as functions.
abbrev pub objects_of : Option (List (Bytes × Bytes)) → Option Objects
objects_of none = none
objects_of (some bucket) = some (λ key. lookup key bucket)

abbrev pub view : InMemoryS3 → Store
view s3 bucket = objects_of (lookup bucket s3.buckets)

objects-insert :
    (key data_bytes : Bytes) (bucket : List (Bytes × Bytes))
    → ◌≡◌ {A = Objects}
        (λ k. lookup k (insert key data_bytes bucket))
        (update key data_bytes (λ k. lookup k bucket))
objects-insert key data_bytes bucket = fun_ext λ k. lookup-insert key k data_bytes bucket

view-insert :
    (name : Bytes) (bucket : List (Bytes × Bytes)) (s3 : InMemoryS3)
    → view (record s3 { buckets = insert name bucket s3.buckets })
      ≡ update name (λ k. lookup k bucket) (view s3)
view-insert name bucket s3 = fun_ext λ j.
    ap objects_of (lookup-insert name j bucket s3.buckets)
    ∙ opened (list_eq name j) (lookup j s3.buckets)
  where
    opened :
        (b : Bool) (rest : Option (List (Bytes × Bytes)))
        → objects_of (if b then some bucket else rest)
          ≡ (if b then some (λ k. lookup k bucket) else objects_of rest)
    opened true rest = refl
    opened false rest = refl

abbrev Keeps : Answer × InMemoryS3 → Answer × Store → Type 0
Keeps (answer, s3) (promise, store) = (answer ≡ promise) × (view s3 ≡ store)

create_bucket-Keeps :
    (req : CreateBucketInput) (s3 : InMemoryS3)
    → Keeps (handle (create req) s3) (promised (create req) (view s3))
unfolding handle create_bucket
create_bucket-Keeps req s3 = elim (Option-cases (lookup req.bucket s3.buckets)) [
  | inr (bucket, found) ↦ rw (found, promised, create_bucket) (refl, refl)
  | inl missing ↦ rw (missing, promised, create_bucket) (refl, view-insert req.bucket [] s3)
]

-- In a bucket that is there.
put_into-Keeps :
    (name key : Bytes) (body : Option (Option Bytes)) (bucket : List (Bytes × Bytes))
    (s3 : InMemoryS3)
    → let result = put_body name key body bucket s3 in
      Keeps (upload result.0, result.1) (put_into name key body (λ k. lookup k bucket) (view s3))
unfolding put_body
put_into-Keeps name key none bucket s3 = (refl, refl)
put_into-Keeps name key (some none) bucket s3 = (refl, refl)
put_into-Keeps name key (some (some data_bytes)) bucket s3 = (
  refl,
  view-insert name (insert key data_bytes bucket) s3
      ∙ ap (λ objects. update name objects (view s3)) (objects-insert key data_bytes bucket),
)

put_object-Keeps :
    (req : PutObjectInput) (s3 : InMemoryS3)
    → Keeps (handle (put req) s3) (promised (put req) (view s3))
unfolding handle put_object
put_object-Keeps req s3 = elim (Option-cases (lookup req.bucket s3.buckets)) [
  | inl missing ↦ rw (missing, promised, put_object) (refl, refl)
  | inr (bucket, found) ↦
      rw (found, promised, put_object) (put_into-Keeps req.bucket req.key req.body bucket s3)
]

get_object-Keeps :
    (req : GetObjectInput) (s3 : InMemoryS3)
    → Keeps (handle (get req) s3) (promised (get req) (view s3))
unfolding handle get_object
get_object-Keeps req s3 = elim (Option-cases (lookup req.bucket s3.buckets)) [
  | inl missing ↦ rw (missing, promised, get_object) (refl, refl)
  | inr (bucket, found) ↦ elim (Option-cases (lookup req.key bucket)) [
    | inl no_key ↦ rw (found, promised, get_object) (rw (no_key, get_from) (refl, refl))
    | inr (data_bytes, there) ↦ rw (found, promised, get_object) (rw (there, get_from) (refl, refl))
  ]
]

handle-Keeps :
    (request : Request) (s3 : InMemoryS3) → Keeps (handle request s3) (promised request (view s3))
handle-Keeps (create req) s3 = create_bucket-Keeps req s3
handle-Keeps (put req) s3 = put_object-Keeps req s3
handle-Keeps (get req) s3 = get_object-Keeps req s3

-- The requests, served one after the other from any buckets, are answered as the abstract store
-- answers them, in which a bucket is a function of the key and an update changes one point, and
-- the buckets read as that store afterwards: errors, overwritten objects and lengths included.
pub serve-refines :
    (requests : List Request) (s3 : InMemoryS3)
    → ((serve requests s3).0 ≡ (replay requests (view s3)).0)
      × (view (serve requests s3).1 ≡ (replay requests (view s3)).1)
unfolding serve
serve-refines [] s3 = (refl, refl)
serve-refines (request ∷ requests) s3 =
    let (same_answer, same_store) = handle-Keeps request s3 in
    let (same_answers, same_last) = serve-refines requests (handle request s3).1 in
    (
      ap (λ answer. answer ∷ (serve requests (handle request s3).1).0) same_answer
          ∙ ap (λ answers. (promised request (view s3)).0 ∷ answers)
              (same_answers ∙ ap (λ store. (replay requests store).0) same_store),
      same_last ∙ ap (λ store. (replay requests store).1) same_store,
    )
