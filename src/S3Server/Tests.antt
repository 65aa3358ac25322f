-- ===== src/S3Server/Tests.antt =====
-- The theorems on the S3 server at concrete requests.
use rust_samples.Prelude.{◌≡◌, refl, List, [], ◌∷◌, some}
use rust_samples.Prelude.Text.{codes}
use rust_samples.S3Server.{
  Bytes, InMemoryS3, PutObjectInput, GetObjectInput, ok, err, created, uploaded,
  bucket_already_exists, no_such_bucket, Request, create, put, get, creation, upload, object,
  create_bucket, put_body, put_object, get_object, handle, serve, new_s3,
}
use rust_samples.S3Server.Refinement.{view, replay, serve-refines}
use rust_samples.S3Server.Durability.{get_object-put_object}

abbrev photos : Bytes
photos = codes "photos"

abbrev upload_of : Bytes → Bytes → PutObjectInput
upload_of key data_bytes = record { bucket = photos; key = key; body = some (some data_bytes) }

abbrev download_of : Bytes → GetObjectInput
download_of key = record { bucket = photos; key = key }

abbrev requests : List Request
requests =
    put (upload_of (codes "a") (codes "early"))
    ∷ create (record { bucket = photos })
    ∷ put (upload_of (codes "a") (codes "cat"))
    ∷ create (record { bucket = photos })
    ∷ get (download_of (codes "a"))
    ∷ []

-- The upload before the bucket exists fails, and the second creation.
serve_answers :
    (serve requests new_s3).0
    ≡ upload (err no_such_bucket)
      ∷ creation (ok created)
      ∷ upload (ok uploaded)
      ∷ creation (err bucket_already_exists)
      ∷ object (ok (record { body = codes "cat"; content_length = 3 }))
      ∷ []
unfolding serve handle create_bucket put_object put_body get_object
serve_answers = refl

serve-refines_example :
    ((serve requests new_s3).0 ≡ (replay requests (view new_s3)).0)
    × (view (serve requests new_s3).1 ≡ (replay requests (view new_s3)).1)
serve-refines_example = serve-refines requests new_s3

abbrev with_photos : InMemoryS3
with_photos = record { buckets = (photos, []) ∷ [] }

get_object-put_object_example :
    (get_object
      (download_of (codes "a"))
      (serve
        (put (upload_of (codes "b") (codes "dog")) ∷ get (download_of (codes "b")) ∷ [])
        (put_object (upload_of (codes "a") (codes "cat")) with_photos).1).1).0
    ≡ ok (record { body = codes "cat"; content_length = 3 })
unfolding put_object put_body
get_object-put_object_example =
    get_object-put_object photos (codes "a") (codes "cat")
      (put (upload_of (codes "b") (codes "dog")) ∷ get (download_of (codes "b")) ∷ []) with_photos
      refl (refl, (tt, tt))
