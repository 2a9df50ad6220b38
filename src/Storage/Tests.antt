-- ===== src/Storage/Tests.antt =====
-- One object is put in a store that is a list.
use text.Mathlib.TextPositions.{eq_refl}
use argus_services.Prelude.{
  ℕ, ◌&&◌, ◌≡◌, refl, String, Option, none, some, List, [], ◌∷◌, str_eq, if◌then◌else◌,
}
use argus_services.Exec.{ok}
use argus_services.Storage.{
  ObjectStore, found, playback_key, after_slash, upload_bytes, generate_presigned_get_url,
}
use argus_services.Storage.Uris.{upload_bytes-played}

abbrev Object : Type 0
Object = String × String × List ℕ

abbrev object_in : String → String → List Object → Option (List ℕ)
object_in bucket key [] = none
object_in bucket key ((b, k, body) ∷ rest) =
    let older = object_in bucket key rest in
    if str_eq b bucket && str_eq k key then some body else older

object_in-put :
    (bucket key : String) (body : List ℕ) (s : List Object)
    → object_in bucket key ((bucket, key, body) ∷ s) ≡ some body
object_in-put bucket key body s = rw (eq_refl bucket, eq_refl key) refl

abbrev store : ObjectStore
store = record {
  State = List Object;
  head_bucket = λ b s. found;
  create_bucket = λ b s. (ok tt, s);
  put_object = λ b k body content_type s. (ok tt, (b, k, body) ∷ s);
  upload_fileobj = λ b k body content_type s. (ok tt, (b, k, body) ∷ s);
  generate_presigned_url = λ b k seconds. ok k;
  object_at = object_in;
  object_at-put = λ b k body content_type s _. object_in-put b k body s;
}

abbrev uri : String
uri = "s3://argus-frames/7/3/11/0.bin"

upload_bytes-played_example :
    (playback_key uri ≡ "7/3/11/0.bin")
    × (object_in "argus-frames" (playback_key uri) (("argus-frames", "7/3/11/0.bin", 5 ∷ []) ∷ [])
        ≡ some (5 ∷ []))
    × (generate_presigned_get_url store "argus-frames" (playback_key uri) 3600 none
        ≡ ok "7/3/11/0.bin")
unfolding upload_bytes after_slash
upload_bytes-played_example =
    upload_bytes-played store "argus-frames" "7/3/11/0.bin" (5 ∷ []) "application/octet-stream" uri
      [] refl refl
