-- ===== src/Ingestion/Idempotency.antt =====
-- A sequence that an edge device sends again.
use argus_services.Prelude.{ℕ, ◌≡◌, refl, sym, ap, ◌∙◌, subst, none, some}
use argus_services.Exec.{ok}
use argus_services.Domain.Json.{Text, plain}
use argus_services.World.Redis.{KeyStore, ingest_idem, key_eq_refl}
use argus_services.Auth.{EdgeAuthContext}
use argus_services.Ingestion.Outcome.{
  idem_key, read_key, Accepted, accept_sequence-Accepted, claim_taken,
}
use argus_services.Ingestion.{
  IngestSequenceRequest, IngestAcceptedResponse, IngestServices, EdgeState, queued, duplicate,
  IngestStatus, validate_claims, accept_sequence, claim_key, after_claims,
}

abbrev pub duplicate_of : IngestSequenceRequest → ℕ → IngestAcceptedResponse
duplicate_of r now = record { ingestion_id = r.ingestion_id; status = duplicate; queued_at = now }

module _ {K : KeyStore} (S : IngestServices) where
  -- Whatever was answered, the key is there.
  key_taken :
      (r : IngestSequenceRequest) (now : ℕ) (w v : EdgeState K) (x : IngestAcceptedResponse)
      → Accepted S r now w (ok x) v
      → (t : Text) × (read_key (idem_key r) v ≡ some t)
  key_taken r now w v x h = by_status x.status refl
    where
      by_status :
          (s : IngestStatus) → x.status ≡ s → (t : Text) × (read_key (idem_key r) v ≡ some t)
      by_status queued e =
          let q = rw e at h in (plain "1", q.2.1 (idem_key r) ∙ rw key_eq_refl refl)
      by_status duplicate e =
          let q = rw e at h in (q.2.0.0, ap (read_key (idem_key r)) q.2.1 ∙ q.2.0.1)

  held_back :
      (auth : EdgeAuthContext) (r : IngestSequenceRequest) (now : ℕ) (w : EdgeState K) {t : Text}
      → validate_claims auth r ≡ ok tt
      → read_key (idem_key r) w ≡ some t
      → accept_sequence S auth r now w ≡ (ok (duplicate_of r now), w)
  unfolding accept_sequence after_claims claim_key
  held_back auth r now w claims taken =
      rw claims (ap (λ c. claim_key S r now c w) (claim_taken S r w taken))

  -- After a sequence was answered with a response, its key is held. In each later state in which it
  -- still is, that is, until Redis lets it lapse after its 86400 seconds, a sequence with the same ids of
  -- tenant and ingestion, whatever else it says and whoever of that tenant sends it, is answered as a
  -- duplicate and changes nothing: no frame is stored and no event is queued twice.
  pub accept_sequence_again :
      (auth auth' : EdgeAuthContext) (r r' : IngestSequenceRequest) (now now' : ℕ)
      (w v : EdgeState K) (x : IngestAcceptedResponse)
      → (accept_sequence S auth r now w).0 ≡ ok x
      → read_key (idem_key r) v ≡ read_key (idem_key r) (accept_sequence S auth r now w).1
      → r'.tenant_id ≡ r.tenant_id
      → r'.ingestion_id ≡ r.ingestion_id
      → validate_claims auth' r' ≡ ok tt
      → accept_sequence S auth' r' now' v ≡ (ok (duplicate_of r' now'), v)
  accept_sequence_again auth auth' r r' now now' w v x h held same_tenant same_id claims =
      let (t, k) = key_taken r now w _ x (
        subst (λ y. Accepted S r now w y (accept_sequence S auth r now w).1) h
          (accept_sequence-Accepted S r auth now w)) in
      held_back auth' r' now' v claims (
        subst (λ i. read_key (ingest_idem i r'.ingestion_id) v ≡ some t) (sym same_tenant)
          (subst (λ i. read_key (ingest_idem r.tenant_id i) v ≡ some t) (sym same_id) (held ∙ k)))

  -- After the key has lapsed the same ids are accepted anew: what is answered is not a duplicate.
  accept_sequence_lapsed :
      (auth : EdgeAuthContext) (r : IngestSequenceRequest) (now : ℕ) (v : EdgeState K)
      (x : IngestAcceptedResponse)
      → read_key (idem_key r) v ≡ none
      → (accept_sequence S auth r now v).0 ≡ ok x
      → x.status ≡ queued
  accept_sequence_lapsed auth r now v x lapsed h = by_status x.status refl
    where
      accepted : Accepted S r now v (ok x) (accept_sequence S auth r now v).1
      accepted =
          subst (λ y. Accepted S r now v y (accept_sequence S auth r now v).1) h
            (accept_sequence-Accepted S r auth now v)

      by_status : (s : IngestStatus) → x.status ≡ s → x.status ≡ queued
      by_status queued e = e
      by_status duplicate e = (let q = rw e at accepted in cc (lapsed, q.2.0.1))
