-- ===== src/Storage/Uris.antt =====
-- The URI of a stored object, written by runtime/src/argus/services/storage.py, as the routes of
-- runtime/src/argus/api/triage/decisions.py read it.
use Prim.Native.Char.{code}
use Prim.Native.String
use text.Mathlib.TextLemmas.{nil-append, cons-append}
use argus_services.Prelude.{
  ℕ, arith, ◌≡◌, refl, String, Bool-cases, inl, inr, none, some, suc, List, ◌==◌, ap, ap₂, ◌∙◌, sym,
}
use argus_services.Exec.{Result, ok, raised, continue}
use argus_services.Storage.{
  ObjectStore, object_uri, upload_bytes, generate_presigned_get_url, after_slash, split_last,
  playback_key,
}

after_slash-append :
    (s t : String) → after_slash s ≡ none → after_slash (String.◌++◌ s t) ≡ after_slash t
unfolding after_slash
after_slash-append String.[] t h = ap after_slash (nil-append t)
after_slash-append (String.◌∷◌ c s) t h =
    ap after_slash (cons-append c s t) ∙ elim (Bool-cases (code c == 47)) [
      | inl slash ↦ (let no = rw slash at h in cc)
      | inr other ↦ rw other (after_slash-append s t (rw other at h))
    ]

found_at :
    (s t : String) {rest : String}
    → some s ≡ some rest
    → some (String.◌++◌ s t) ≡ some (String.◌++◌ rest t)
found_at s t {rest} h =
    let same : s ≡ rest = ground (arith, h) in ap (λ r. some (String.◌++◌ r t)) same

after_slash-found :
    (s t : String) {rest : String}
    → after_slash s ≡ some rest
    → after_slash (String.◌++◌ s t) ≡ some (String.◌++◌ rest t)
unfolding after_slash
after_slash-found String.[] t h = cc
after_slash-found (String.◌∷◌ c s) t h =
    ap after_slash (cons-append c s t) ∙ elim (Bool-cases (code c == 47)) [
      | inl slash ↦ (let same = rw slash at h in rw slash (found_at s t same))
      | inr other ↦ rw other (after_slash-found s t (rw other at h))
    ]

split_last-found :
    (n : ℕ) (s rest : String) → after_slash s ≡ some rest → split_last (suc n) s ≡ split_last n rest
unfolding split_last
split_last-found n s rest h = rw (h, split_last) refl

scheme : after_slash "s3://" ≡ some "/"
unfolding after_slash
scheme = refl

slash : after_slash "/" ≡ some ""
unfolding after_slash
slash = refl

zero_split : (s : String) → split_last 0 s ≡ s
unfolding split_last
zero_split s = refl

-- The key is read back from the URI of an object, whatever the key is, slashes included, when the name of
-- the bucket has no slash.
pub playback_key-object_uri :
    (bucket key : String) → after_slash bucket ≡ none → playback_key (object_uri bucket key) ≡ key
playback_key-object_uri bucket key h =
    split_last-found 2 (object_uri bucket key) _ (after_slash-found "s3://" _ scheme)
    ∙ split_last-found 1 _ _ (after_slash-found "/" _ slash)
    ∙ ap (split_last 1) (nil-append _)
    ∙ split_last-found 0 _ _ (after_slash-append bucket _ h ∙ after_slash-found "/" key slash)
    ∙ zero_split (String.◌++◌ "" key)
    ∙ nil-append key

put_returns :
    {V : Type 0} (bucket key uri : String) (put : Result (Unit {0}) × V)
    → (continue put.0 (λ _ v. (ok (object_uri bucket key), v)) put.1).0 ≡ ok uri
    → (put.0 ≡ ok tt)
      × (object_uri bucket key ≡ uri)
      × ((continue put.0 (λ _ v. (ok (object_uri bucket key), v)) put.1).1 ≡ put.1)
put_returns bucket key uri (ok _, v) h = (refl, ground (arith, h), refl)
put_returns bucket key uri (raised e, v) h = cc

module _ (S : ObjectStore) (s3_bucket_name : String) where
  -- An upload that returns, to the default bucket, whose name has no slash, returns a URI whose key is the
  -- uploaded one: the object stands there in the default bucket, and the URL that a route signs for that URI
  -- is the one of this object.
  pub upload_bytes-played :
      (key : String) (body : List ℕ) (content_type uri : String) (s : S.State)
      → after_slash s3_bucket_name ≡ none
      → (upload_bytes S s3_bucket_name key body content_type none s).0 ≡ ok uri
      → (playback_key uri ≡ key)
        × (S.object_at s3_bucket_name
              (playback_key uri)
              (upload_bytes S s3_bucket_name key body content_type none s).1
            ≡ some body)
        × (generate_presigned_get_url S s3_bucket_name (playback_key uri) 3600 none
            ≡ S.generate_presigned_url s3_bucket_name key 3600)
  unfolding upload_bytes generate_presigned_get_url
  upload_bytes-played key body content_type uri s plain_name h =
      let (put, same, after) =
        put_returns s3_bucket_name key uri (S.put_object s3_bucket_name key body content_type s)
          h in
      let read =
        ap playback_key (sym same) ∙ playback_key-object_uri s3_bucket_name key plain_name in
      (
        read,
        ap₂ (S.object_at s3_bucket_name) read after
            ∙ S.object_at-put s3_bucket_name key body content_type s put,
        ap (λ k. S.generate_presigned_url s3_bucket_name k 3600) read,
      )
