-- ===== src/Triage/Embedding.antt =====
-- runtime/src/argus/services/feedback.py: the vector that is stored with a feedback. It comes from OpenAI, or,
-- without a key or when the call fails, from the SHA-256 of the text. The call, the hash and the floats are
-- parameters.
use argus_services.Prelude.{
  ℕ, zero, suc, ◌+◌, ◌%◌, ◌<◌, ◌≡◌, refl, String, Option, none, some, List, [], ◌∷◌, str_eq, length,
  All, arith, Bool-cases, inl, inr, ◌⊎◌, if◌then◌else◌, ◌==◌, ap,
}
use argus_services.Exec.{Result, ok, raised, index_error, zero_division_error}
use argus_services.Exec.Fallible.{◌>>=◌}

pub record EmbeddingServices (F : Type 0) : Type 0 where
  pub openai_api_key : String
  -- `list(client.embeddings.create(...).data[0].embedding)`
  pub embed : String → Result (List F)
  -- `hashlib.sha256(text.encode()).digest()`
  pub digest_of : String → List ℕ
  -- `(byte / 255.0) * 2 - 1`
  pub scaled : ℕ → F

abbrev pub embedding_dim : ℕ
embedding_dim = 1536

abbrev pub get_elem? : List ℕ → ℕ → Option ℕ
get_elem? [] i = none
get_elem? (x ∷ xs) zero = some x
get_elem? (x ∷ xs) (suc i) = get_elem? xs i

-- `digest[i % len(digest)]`
unfoldable pub byte_at : List ℕ → ℕ → Result ℕ
byte_at digest i =
    if length digest == 0
    then raised zero_division_error
    else elim (get_elem? digest (i % length digest)) [ none ↦ raised index_error | some b ↦ ok b ]

module _ {F : Type 0} (S : EmbeddingServices F) where
  -- The entries from `i`, `n` of them.
  unfoldable pub entries_from : List ℕ → ℕ → ℕ → Result (List F)
  entries_from digest zero i = ok []
  entries_from digest (suc n) i = do
    b ← byte_at digest i
    rest ← entries_from digest n (i + 1)
    ok (S.scaled b ∷ rest)

  unfoldable pub fallback : String → Result (List F)
  fallback text = entries_from (S.digest_of text) embedding_dim 0

  unfoldable pub generate_embedding : String → Result (List F)
  generate_embedding text =
      if str_eq S.openai_api_key ""
      then fallback text
      else elim (S.embed text) [ ok v ↦ ok v | raised _ ↦ fallback text ]

abbrev pub AreBytes : List ℕ → Type 0
AreBytes = All (λ b. b < 256)

get_elem?-in :
    (xs : List ℕ) (i : ℕ)
    → i < length xs
    → AreBytes xs
    → (b : ℕ) × (get_elem? xs i ≡ some b) × (b < 256)
get_elem?-in [] i h bytes = absurd (omega arith)
get_elem?-in (x ∷ xs) zero h bytes = (x, refl, bytes.0)
get_elem?-in (x ∷ xs) (suc i) h bytes = get_elem?-in xs i (omega arith) bytes.1

byte_at-in :
    (digest : List ℕ) (i : ℕ)
    → length digest ≡ 32
    → AreBytes digest
    → (b : ℕ) × (byte_at digest i ≡ ok b) × (b < 256)
unfolding byte_at
byte_at-in digest i h bytes =
    let inside : i % 32 < length digest = omega (arith, h) in
    let (b, found, small) = get_elem?-in digest (i % 32) inside bytes in
    (b, rw (h, found, byte_at) refl, small)

module _ {F : Type 0} (S : EmbeddingServices F) where
  abbrev pub IsScaled : F → Type 0
  IsScaled x = (b : ℕ) × (b < 256) × (x ≡ S.scaled b)

  entries_from-in :
      (digest : List ℕ) (n i : ℕ)
      → length digest ≡ 32
      → AreBytes digest
      → (v : List F) × (entries_from S digest n i ≡ ok v) × (length v ≡ n) × All IsScaled v
  unfolding entries_from
  entries_from-in digest zero i h bytes = ([], refl, refl, tt)
  entries_from-in digest (suc n) i h bytes =
      let (b, found, small) = byte_at-in digest i h bytes in
      let (v, made, n_of, scaled) = entries_from-in digest n (i + 1) h bytes in
      (S.scaled b ∷ v, rw (found, made) refl, ap suc n_of, ((b, small, refl), scaled))

  -- When a digest has 32 bytes, an embedding is always made: it is the one that OpenAI returned, or it has
  -- exactly 1536 entries, each the scaled value of a byte.
  pub generate_embedding_made :
      (text : String)
      → length (S.digest_of text) ≡ 32
      → AreBytes (S.digest_of text)
      → (v : List F) × (generate_embedding S text ≡ ok v)
        × ((S.embed text ≡ ok v) ⊎ ((length v ≡ 1536) × All IsScaled v))
  unfolding generate_embedding fallback
  generate_embedding_made text h bytes =
      let (v, made, n, scaled) = entries_from-in (S.digest_of text) embedding_dim 0 h bytes in
      elim (Bool-cases (str_eq S.openai_api_key "")) [
        | inl no_key ↦ rw no_key (v, made, inr (n, scaled))
        | inr key ↦ rw key (from_answer (S.embed text) v made n scaled)
      ]
    where
      from_answer :
          (answer : Result (List F)) (v : List F)
          → entries_from S (S.digest_of text) embedding_dim 0 ≡ ok v
          → length v ≡ 1536
          → All IsScaled v
          → (u : List F) × ((elim answer [
            | ok w ↦ ok w
            | raised _ ↦ entries_from S (S.digest_of text) embedding_dim 0
          ])
              ≡ ok u)
            × ((answer ≡ ok u) ⊎ ((length u ≡ 1536) × All IsScaled u))
      from_answer (ok w) v made n scaled = (w, refl, inl refl)
      from_answer (raised e) v made n scaled = (v, made, inr (n, scaled))
