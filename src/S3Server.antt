-- ===== src/S3Server.antt =====
-- s3_server/src/main.rs: the buckets in memory and the three handlers of the trait `S3`. The crate
-- s3s parses the requests and carries the answers; the stream of a body ends with its bytes or
-- with an error.
pub mod Refinement
pub mod Durability
mod Tests
use rust_samples.Prelude.{ℕ, List, [], ◌∷◌, Option, none, some, bytes_key, length}
use rust_samples.Prelude.Maps.{lookup, insert}

abbrev pub Bytes : Type 0
Bytes = List ℕ

pub data S3Error : Type 0 where
  bucket_already_exists no_such_bucket invalid_request_body internal_error no_such_key : S3Error

-- `buckets`: the name of a bucket, the key of an object and its data.
pub record InMemoryS3 : Type 0 where
  pub buckets : List (Bytes × List (Bytes × Bytes))

-- What a body stream ends with: `none` is an error.
abbrev pub BodyStream : Type 0
BodyStream = Option Bytes

pub record CreateBucketInput : Type 0 where
  pub bucket : Bytes

pub record PutObjectInput : Type 0 where
  pub bucket : Bytes
  pub key : Bytes
  pub body : Option BodyStream

pub record GetObjectInput : Type 0 where
  pub bucket : Bytes
  pub key : Bytes

-- A length is below 2 ^ 63 for a `Bytes`, and is the same as an `i64`.
pub record GetObjectOutput : Type 0 where
  pub body : Bytes
  pub content_length : ℕ

pub data CreateBucketOutput : Type 0 where
  created : CreateBucketOutput

pub data PutObjectOutput : Type 0 where
  uploaded : PutObjectOutput

pub data S3Result {ℓ} (A : Type ℓ) : Type ℓ where
  ok : A → S3Result A
  err : S3Error → S3Result A

unfoldable pub create_bucket :
    CreateBucketInput → InMemoryS3 → S3Result CreateBucketOutput × InMemoryS3
create_bucket req s3 = elim (lookup req.bucket s3.buckets) [
  | some bucket ↦ (err bucket_already_exists, s3)
  | none ↦ (ok created, record s3 { buckets = insert req.bucket [] s3.buckets })
]

-- The rest of `put_object`, on the bucket that it found.
unfoldable pub put_body :
    Bytes
    → Bytes
    → Option BodyStream
    → List (Bytes × Bytes)
    → InMemoryS3
    → S3Result PutObjectOutput × InMemoryS3
put_body name key none bucket s3 = (err invalid_request_body, s3)
put_body name key (some none) bucket s3 = (err internal_error, s3)
put_body name key (some (some data_bytes)) bucket s3 =
    (ok uploaded, record s3 { buckets = insert name (insert key data_bytes bucket) s3.buckets })

unfoldable pub put_object : PutObjectInput → InMemoryS3 → S3Result PutObjectOutput × InMemoryS3
unfolding put_body
put_object req s3 = elim (lookup req.bucket s3.buckets) [
  | none ↦ (err no_such_bucket, s3)
  | some bucket ↦ put_body req.bucket req.key req.body bucket s3
]

unfoldable pub get_object : GetObjectInput → InMemoryS3 → S3Result GetObjectOutput × InMemoryS3
get_object req s3 = elim (lookup req.bucket s3.buckets) [
  | none ↦ (err no_such_bucket, s3)
  | some bucket ↦ elim (lookup req.key bucket) [
    | none ↦ (err no_such_key, s3)
    | some data_bytes ↦ (ok (record { body = data_bytes; content_length = length data_bytes }), s3)
  ]
]

-- The requests, one after the other as the mutex lets them in.
pub data Request : Type 0 where
  create : CreateBucketInput → Request
  put : PutObjectInput → Request
  get : GetObjectInput → Request

pub data Answer : Type 0 where
  creation : S3Result CreateBucketOutput → Answer
  upload : S3Result PutObjectOutput → Answer
  object : S3Result GetObjectOutput → Answer

unfoldable pub handle : Request → InMemoryS3 → Answer × InMemoryS3
unfolding create_bucket put_object get_object
handle (create req) s3 = (creation (create_bucket req s3).0, (create_bucket req s3).1)
handle (put req) s3 = (upload (put_object req s3).0, (put_object req s3).1)
handle (get req) s3 = (object (get_object req s3).0, (get_object req s3).1)

unfoldable pub serve : List Request → InMemoryS3 → List Answer × InMemoryS3
unfolding handle
serve [] s3 = ([], s3)
serve (request ∷ requests) s3 =
    let (answer, next) = handle request s3 in
    let (answers, last) = serve requests next in (answer ∷ answers, last)

abbrev pub new_s3 : InMemoryS3
new_s3 = record { buckets = [] }
