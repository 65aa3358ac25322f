-- ===== src/S3Server/Durability.antt =====
-- s3_server/src/main.rs: an object between its upload and its download.
use rust_samples.Prelude.{
  ◌≡◌, refl, ap, sym, ◌∙◌, List, [], ◌∷◌, Option, none, some, Bool, true, false, ◌&&◌, Bool-cases,
  Option-cases, inl, inr, if◌then◌else◌, if_true, if_false, list_eq, list_eq_iff, bytes_key, length,
  All, and_then, and_then-eq-some,
}
use rust_samples.Prelude.Maps.{lookup, insert, lookup-insert}
use rust_samples.S3Server.{
  Bytes, InMemoryS3, CreateBucketInput, PutObjectInput, GetObjectInput, ok, uploaded, create_bucket,
  put_body, put_object, get_object, Request, create, put, get, handle, serve,
}

-- The object under a name and a key.
abbrev pub find : Bytes → Bytes → InMemoryS3 → Option Bytes
find name key s3 = and_then (lookup name s3.buckets) (λ bucket. lookup key bucket)

-- Not an upload to this name and key.
abbrev pub Leaves : Bytes → Bytes → Request → Type 0
Leaves name key (create req) = Unit
Leaves name key (get req) = Unit
Leaves name key (put req) = (list_eq req.bucket name && list_eq req.key key) ≡ false

find-insert :
    (name key other : Bytes) (bucket : List (Bytes × Bytes)) (s3 : InMemoryS3)
    → find name key (record s3 { buckets = insert other bucket s3.buckets })
      ≡ (if list_eq other name then lookup key bucket else find name key s3)
find-insert name key other bucket s3 =
    ap (λ o. and_then o (λ b. lookup key b)) (lookup-insert other name bucket s3.buckets)
    ∙ opened (list_eq other name)
  where
    opened :
        (b : Bool)
        → and_then (if b then some bucket else lookup name s3.buckets) (λ c. lookup key c)
          ≡ (if b then lookup key bucket else find name key s3)
    opened true = refl
    opened false = refl

module _ (name key : Bytes) (data_bytes : Bytes) where
  create-find :
      (req : CreateBucketInput) (s3 : InMemoryS3)
      → find name key s3 ≡ some data_bytes
      → find name key (create_bucket req s3).1 ≡ some data_bytes
  unfolding create_bucket
  create-find req s3 h = elim (Option-cases (lookup req.bucket s3.buckets)) [
    | inr (bucket, found) ↦ rw (found, create_bucket) h
    | inl missing ↦
        rw (missing, create_bucket) (find-insert name key req.bucket [] s3 ∙ fresh missing)
  ]
    where
      fresh :
          lookup req.bucket s3.buckets ≡ none
          → (if list_eq req.bucket name then lookup key [] else find name key s3) ≡ some data_bytes
      fresh missing = elim (Bool-cases (list_eq req.bucket name)) [
        | inr other ↦ if_false none (find name key s3) other ∙ h
        | inl same ↦
            let none_found : find name key s3 ≡ none =
              ap (λ o. and_then o (λ b. lookup key b))
                (ap (λ n. lookup n s3.buckets) (sym ((list_eq_iff req.bucket name).0 same))
                  ∙ missing) in
            absurd (cc (none_found, h))
      ]

  put_body-find :
      (req : PutObjectInput) (bucket : List (Bytes × Bytes)) (s3 : InMemoryS3)
      → Leaves name key (put req)
      → lookup req.bucket s3.buckets ≡ some bucket
      → find name key s3 ≡ some data_bytes
      → (body : Option (Option Bytes))
      → find name key (put_body req.bucket req.key body bucket s3).1 ≡ some data_bytes
  unfolding put_body
  put_body-find req bucket s3 leaves found h none = h
  put_body-find req bucket s3 leaves found h (some none) = h
  put_body-find req bucket s3 leaves found h (some (some bytes)) =
      find-insert name key req.bucket (insert req.key bytes bucket) s3
      ∙ elim (Bool-cases (list_eq req.bucket name)) [
        | inr other ↦
            if_false (lookup key (insert req.key bytes bucket)) (find name key s3) other ∙ h
        | inl same ↦
            if_true (lookup key (insert req.key bytes bucket)) (find name key s3) same
            ∙ lookup-insert req.key key bytes bucket
            ∙ if_false (some bytes) (lookup key bucket)
                (sym (ap (λ b. b && list_eq req.key key) same) ∙ leaves)
            ∙ sym (
                ap (λ o. and_then o (λ b. lookup key b))
                  (ap (λ n. lookup n s3.buckets) (sym ((list_eq_iff req.bucket name).0 same))
                    ∙ found))
            ∙ h
      ]

  put-find :
      (req : PutObjectInput) (s3 : InMemoryS3)
      → Leaves name key (put req)
      → find name key s3 ≡ some data_bytes
      → find name key (put_object req s3).1 ≡ some data_bytes
  unfolding put_object
  put-find req s3 leaves h = elim (Option-cases (lookup req.bucket s3.buckets)) [
    | inl missing ↦ rw (missing, put_object) h
    | inr (bucket, found) ↦
        rw (found, put_object) (put_body-find req bucket s3 leaves found h req.body)
  ]

  get_same : (req : GetObjectInput) (s3 : InMemoryS3) → (get_object req s3).1 ≡ s3
  unfolding get_object
  get_same req s3 = elim (Option-cases (lookup req.bucket s3.buckets)) [
    | inl missing ↦ rw (missing, get_object) refl
    | inr (bucket, found) ↦ elim (Option-cases (lookup req.key bucket)) [
      | inl no_key ↦ rw (found, get_object) (rw no_key refl)
      | inr (bytes, there) ↦ rw (found, get_object) (rw there refl)
    ]
  ]

  serve-find :
      (requests : List Request) (s3 : InMemoryS3)
      → All (Leaves name key) requests
      → find name key s3 ≡ some data_bytes
      → find name key (serve requests s3).1 ≡ some data_bytes
  unfolding serve handle
  serve-find [] s3 leaves h = h
  serve-find (create req ∷ requests) s3 leaves h =
      serve-find requests (create_bucket req s3).1 leaves.1 (create-find req s3 h)
  serve-find (put req ∷ requests) s3 leaves h =
      serve-find requests (put_object req s3).1 leaves.1 (put-find req s3 leaves.0 h)
  serve-find (get req ∷ requests) s3 leaves h =
      serve-find requests (get_object req s3).1 leaves.1 (ap (find name key) (get_same req s3) ∙ h)

  found_object :
      (s3 : InMemoryS3)
      → find name key s3 ≡ some data_bytes
      → (get_object (record { bucket = name; key = key }) s3).0
        ≡ ok (record { body = data_bytes; content_length = length data_bytes })
  unfolding get_object
  found_object s3 h =
      let (bucket, found, there) =
        and_then-eq-some (lookup name s3.buckets) (λ b. lookup key b) h in
      rw (found, get_object) (rw there refl)

  uploaded_is_found :
      (s3 : InMemoryS3)
      → let req : PutObjectInput = record {
        bucket = name;
        key = key;
        body = some (some data_bytes);
      } in
        (put_object req s3).0 ≡ ok uploaded → find name key (put_object req s3).1 ≡ some data_bytes
  unfolding put_object put_body
  uploaded_is_found s3 h = elim (Option-cases (lookup name s3.buckets)) [
    | inl missing ↦ let refused = rw (missing, put_object) at h in absurd (cc refused)
    | inr (bucket, found) ↦
        rw (found, put_object)
          (find-insert name key name (insert key data_bytes bucket) s3
            ∙ if_true (lookup key (insert key data_bytes bucket)) (find name key s3)
                ((list_eq_iff name name).1 refl)
            ∙ lookup-insert key key data_bytes bucket
            ∙ if_true (some data_bytes) (lookup key bucket) ((list_eq_iff key key).1 refl))
  ]

-- An object whose upload was answered without an error is downloaded with the same bytes and their
-- number as its length, after any further requests that do not upload to its bucket and key.
pub get_object-put_object :
    (name key data_bytes : Bytes) (requests : List Request) (s3 : InMemoryS3)
    → (put_object (record { bucket = name; key = key; body = some (some data_bytes) }) s3).0
      ≡ ok uploaded
    → All (Leaves name key) requests
    → let stored =
        put_object (record { bucket = name; key = key; body = some (some data_bytes) }) s3 in
      (get_object (record { bucket = name; key = key }) (serve requests stored.1).1).0
      ≡ ok (record { body = data_bytes; content_length = length data_bytes })
get_object-put_object name key data_bytes requests s3 h leaves =
    let stored : InMemoryS3 =
      (put_object (record { bucket = name; key = key; body = some (some data_bytes) }) s3).1 in
    found_object name key data_bytes (serve requests stored).1 (
      serve-find name key data_bytes requests stored leaves
        (uploaded_is_found name key data_bytes s3 h))
