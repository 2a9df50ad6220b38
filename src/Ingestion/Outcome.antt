-- ===== src/Ingestion/Outcome.antt =====
-- What one sequence leaves behind, on every path through `accept_sequence`.
use argus_services.Prelude.{
  ℕ, String, Bool, true, false, ◌≡◌, refl, sym, ap, subst, ◌∙◌, Option, none, some, List, [], ◌∷◌,
  ◌++◌, Bool-cases, Option-cases, inl, inr, if◌then◌else◌,
}
use argus_services.Exec.{Result, ok, raised}
use argus_services.Domain.Json.{Text, plain}
use argus_services.World.Redis.{
  KeyStore, Key, active_mode, ingest_idem, key_eq, key_eq_refl, key_eq_sound, set_key_nx,
}
use argus_services.Auth.{EdgeAuthContext}
use argus_services.Ingestion.{
  IngestSequenceRequest, IngestAcceptedResponse, IngestServices, EdgeState, queued, duplicate,
  validate_claims, accept_sequence, process, finish, claim_key, enqueue_ingest_event, after_claims,
  upload_and_enqueue, enqueue_uris, validate_active_mode, frame_uris, stored, event_of,
}

abbrev pub idem_key : IngestSequenceRequest → Key
idem_key r = ingest_idem r.tenant_id r.ingestion_id

module _ {K : KeyStore} where
  abbrev pub read_key : Key → EdgeState K → Option Text
  read_key k w = KeyStore.get_key K k w.redis

module _ {K : KeyStore} (S : IngestServices) (r : IngestSequenceRequest) where
  -- The sequence is on its way: its frames are stored, and the stream has one more event, with a URI
  -- for each frame.
  abbrev pub Sent : EdgeState K → EdgeState K → Type 0
  Sent w v =
      (uris : List String) × (frame_uris S r ≡ ok uris)
      × (v.stream ≡ w.stream ++ event_of r uris ∷ [])
      × (v.objects ≡ w.objects ++ stored S r r.frames)

  abbrev Processed : EdgeState K → Result (Unit {0}) → EdgeState K → Type 0
  Processed w (raised e) v = (v.redis ≡ w.redis) × (v.stream ≡ w.stream)
  Processed w (ok _) v =
      (v.redis ≡ w.redis)
      × (validate_active_mode r (read_key (active_mode r.camera_id) w) ≡ ok tt)
      × Sent w v

  enqueue-Processed :
      (uris : Result (List String)) (w : EdgeState K)
      → validate_active_mode r (read_key (active_mode r.camera_id) w) ≡ ok tt
      → frame_uris S r ≡ uris
      → Processed w
          (enqueue_uris S r uris (record w { objects = w.objects ++ stored S r r.frames })).0
          (enqueue_uris S r uris (record w { objects = w.objects ++ stored S r r.frames })).1
  unfolding enqueue_uris enqueue_ingest_event
  enqueue-Processed (raised e) w m h = (refl, refl)
  enqueue-Processed (ok uris) w m h = elim (Bool-cases (S.takes_event (event_of r uris))) [
    | inl taken ↦ rw taken (refl, m, (uris, h, refl, refl))
    | inr refused ↦ rw refused (refl, refl)
  ]

  mode-Processed :
      (mode : Result (Unit {0})) (w : EdgeState K)
      → validate_active_mode r (read_key (active_mode r.camera_id) w) ≡ mode
      → Processed w (upload_and_enqueue S r mode w).0 (upload_and_enqueue S r mode w).1
  unfolding upload_and_enqueue
  mode-Processed (raised e) w h = (refl, refl)
  mode-Processed (ok u) w h = enqueue-Processed (frame_uris S r) w h refl

  process-Processed : (w : EdgeState K) → Processed w (process S r w).0 (process S r w).1
  unfolding process
  process-Processed w = mode-Processed _ w refl

  -- What `accept_sequence` leaves behind, by what it answers. A failure: nothing that a reader of Redis
  -- or of the stream could tell. A duplicate: the key was there, and nothing changes. Accepted: the key
  -- was not there and is now for a day, every other key is as it was, the camera's active mode is the mode of the
  -- request, and the sequence is on its way.
  abbrev pub Accepted : ℕ → EdgeState K → Result IngestAcceptedResponse → EdgeState K → Type 0
  Accepted now w (raised e) v = (v.stream ≡ w.stream) × ((k : Key) → read_key k v ≡ read_key k w)
  Accepted now w (ok x) v =
      (x.ingestion_id ≡ r.ingestion_id) × (x.queued_at ≡ now) × (elim x.status [
        | duplicate ↦ ((t : Text) × (read_key (idem_key r) w ≡ some t)) × (v ≡ w)
        | queued ↦
            (read_key (idem_key r) w ≡ none)
            × ((k : Key)
                → read_key k v ≡ (if key_eq (idem_key r) k then some (plain "1") else read_key k w))
            × (KeyStore.held_for K (idem_key r) v.redis ≡ some 86400)
            × (validate_active_mode r (read_key (active_mode r.camera_id) w) ≡ ok tt)
            × Sent w v
      ])

  abbrev claimed : EdgeState K → EdgeState K
  claimed w = record w { redis = KeyStore.set_key K (idem_key r) (plain "1") 86400 w.redis }

  -- The key is given back: a reader finds every key as before.
  given_back :
      (w : EdgeState K) (k : Key)
      → read_key (idem_key r) w ≡ none
      → KeyStore.get_key K k (KeyStore.delete_key K (idem_key r) (claimed w).redis) ≡ read_key k w
  given_back w k free = elim (Bool-cases (key_eq (idem_key r) k)) [
    | inl same ↦
        KeyStore.get-delete K (idem_key r) k _
        ∙ rw same (sym free ∙ ap (λ j. read_key j w) (key_eq_sound (idem_key r) k same))
    | inr other ↦
        KeyStore.get-delete K (idem_key r) k _
        ∙ rw other (KeyStore.get-set K (idem_key r) k _ _ _ ∙ rw other refl)
  ]

  finish-Accepted :
      (now : ℕ) (w : EdgeState K) (x : Result (Unit {0})) (v : EdgeState K)
      → read_key (idem_key r) w ≡ none
      → Processed (claimed w) x v
      → Accepted now w (finish S r now x v).0 (finish S r now x v).1
  unfolding finish
  finish-Accepted now w (ok u) v free (same, mode, sent) = (
    refl,
    refl,
    (
      free,
      λ k. ap (KeyStore.get_key K k) same ∙ KeyStore.get-set K (idem_key r) k _ _ _,
      ap (KeyStore.held_for K (idem_key r)) same
          ∙ KeyStore.held-set K (idem_key r) (idem_key r) _ _ _
          ∙ rw key_eq_refl refl,
      subst (λ m. validate_active_mode r m ≡ ok tt)
          (KeyStore.get-set K (idem_key r) (active_mode r.camera_id) _ _ _) mode,
      sent,
    ),
  )
  finish-Accepted now w (raised e) v free (same, stream) = (
    stream,
    λ k.
        ap (λ x. KeyStore.get_key K k (KeyStore.delete_key K (idem_key r) x)) same
        ∙ given_back w k free,
  )

  abbrev pub claim : EdgeState K → Bool × KeyStore.State K
  claim w = set_key_nx K (idem_key r) (plain "1") 86400 w.redis

  claim_free :
      (w : EdgeState K) → read_key (idem_key r) w ≡ none → claim w ≡ (true, (claimed w).redis)
  unfolding set_key_nx
  claim_free w free = rw (free, set_key_nx) refl

  pub claim_taken :
      (w : EdgeState K) {t : Text} → read_key (idem_key r) w ≡ some t → claim w ≡ (false, w.redis)
  unfolding set_key_nx
  claim_taken w taken = rw (taken, set_key_nx) refl

  claim-Accepted :
      (now : ℕ) (w : EdgeState K)
      → Accepted now w (claim_key S r now (claim w) w).0 (claim_key S r now (claim w) w).1
  unfolding claim_key
  claim-Accepted now w = elim (Option-cases (read_key (idem_key r) w)) [
    | inl free ↦
        subst (λ c. Accepted now w (claim_key S r now c w).0 (claim_key S r now c w).1)
          (sym (claim_free w free)) (finish-Accepted now w _ _ free (process-Processed (claimed w)))
    | inr (t, taken) ↦
        subst (λ c. Accepted now w (claim_key S r now c w).0 (claim_key S r now c w).1)
          (sym (claim_taken w taken)) (refl, refl, ((t, taken), refl))
  ]

  after-Accepted :
      (now : ℕ) (claims : Result (Unit {0})) (w : EdgeState K)
      → Accepted now w (after_claims S r now claims w).0 (after_claims S r now claims w).1
  unfolding after_claims
  after-Accepted now (raised e) w = (refl, λ k. refl)
  after-Accepted now (ok u) w = claim-Accepted now w

  pub accept_sequence-Accepted :
      (auth : EdgeAuthContext) (now : ℕ) (w : EdgeState K)
      → Accepted now w (accept_sequence S auth r now w).0 (accept_sequence S auth r now w).1
  unfolding accept_sequence
  accept_sequence-Accepted auth now w = after-Accepted now (validate_claims auth r) w
