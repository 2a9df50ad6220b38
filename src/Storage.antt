-- ===== src/Storage.antt =====
-- runtime/src/argus/services/storage.py: the buckets and objects of the frame sequences, and the URI that
-- names a stored object. The S3 client is outside, so it is an interface: what its calls answer, and that an
-- object that was put is there. How the routes read such a URI (runtime/src/argus/api/triage/decisions.py)
-- stands here too.
pub mod Uris
mod Tests
use Prim.Native.Char.{code}
use Prim.Native.String
use argus_services.Prelude.{
  ℕ, zero, suc, ◌==◌, ◌≡◌, String, Bool, true, Option, none, some, List, [], ◌∷◌, str_eq,
  if◌then◌else◌,
}
use argus_services.Exec.{Exec, Exn, Result, ok, raised, service_error, ◌>>=◌}

-- `head_bucket` returns, or raises a `ClientError` with a code, or something else.
pub data BucketAnswer : Type 0 where
  found : BucketAnswer
  client_error : String → BucketAnswer
  fails : Exn → BucketAnswer

pub record ObjectStore : Type 1 where
  pub State : Type 0
  pub head_bucket : String → State → BucketAnswer
  pub create_bucket : String → Exec State (Unit {0})
  -- bucket, key, body and content type
  pub put_object : String → String → List ℕ → String → Exec State (Unit {0})
  pub upload_fileobj : String → String → List ℕ → String → Exec State (Unit {0})
  -- `get_object`: bucket, key and seconds
  pub generate_presigned_url : String → String → ℕ → Result String
  pub object_at : String → String → State → Option (List ℕ)
  pub object_at-put :
      (bucket key : String) (body : List ℕ) (content_type : String) (s : State)
      → (put_object bucket key body content_type s).0 ≡ ok tt
      → object_at bucket key (put_object bucket key body content_type s).1 ≡ some body

abbrev pub is_missing : String → Bool
is_missing c =
    if str_eq c "404" then true else if str_eq c "NoSuchBucket" then true else str_eq c "NotFound"

-- `f"s3://{bucket_name}/{key}"`
abbrev pub object_uri : String → String → String
object_uri bucket key = String.◌++◌ "s3://" (String.◌++◌ bucket (String.◌++◌ "/" key))

module _ (S : ObjectStore) (s3_bucket_name : String) where
  -- `bucket or settings.s3_bucket_name`
  abbrev pub bucket_or : Option String → String
  bucket_or none = s3_bucket_name
  bucket_or (some b) = if str_eq b "" then s3_bucket_name else b

  unfoldable pub ensure_bucket_exists : Option String → Exec S.State Bool
  ensure_bucket_exists bucket s = elim (S.head_bucket (bucket_or bucket) s) [
    | found ↦ (ok true, s)
    | fails e ↦ (raised e, s)
    | client_error c ↦
        if is_missing c
        then (S.create_bucket (bucket_or bucket) >>= λ _ v. (ok true, v)) s
        else (raised (service_error c), s)
  ]

  unfoldable pub upload_bytes : String → List ℕ → String → Option String → Exec S.State String
  upload_bytes key data_of content_type bucket =
      S.put_object (bucket_or bucket) key data_of content_type >>= λ _ v.
      (ok (object_uri (bucket_or bucket) key), v)

  unfoldable pub upload_fileobj : String → List ℕ → String → Option String → Exec S.State String
  upload_fileobj key fileobj content_type bucket =
      S.upload_fileobj (bucket_or bucket) key fileobj content_type >>= λ _ v.
      (ok (object_uri (bucket_or bucket) key), v)

  unfoldable pub generate_presigned_get_url : String → ℕ → Option String → Result String
  generate_presigned_get_url key expires_in bucket =
      S.generate_presigned_url (bucket_or bucket) key expires_in

-- The text behind the first slash.
unfoldable pub after_slash : String → Option String
after_slash String.[] = none
after_slash (String.◌∷◌ c s) = let rest = after_slash s in if code c == 47 then some s else rest

-- `uri.split("/", n)[-1]`
unfoldable pub split_last : ℕ → String → String
split_last zero s = s
split_last (suc n) s = elim (after_slash s) [ none ↦ s | some rest ↦ split_last n rest ]

abbrev pub playback_key : String → String
playback_key uri = split_last 3 uri
