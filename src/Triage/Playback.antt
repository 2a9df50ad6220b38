-- ===== src/Triage/Playback.antt =====
-- What the detail of a decision shows of its evidence, beside the route that plays one piece of it.
use text.Mathlib.Text.{starts_with}
use argus_services.Prelude.{
  ℕ, ◌≡◌, refl, sym, ap, subst, ◌∙◌, String, Bool, true, false, ◌&&◌, ◌==◌, Option, none, some,
  List, [], ◌∷◌, find?, All, Bool-cases, inl, inr, arith, Option-cases, All-select, select-passes,
}
use argus_services.Exec.{Result, ok}
use argus_services.Exec.Fallible.{>>=-eq-ok}
use argus_services.Domain.Models.{Decision, Evidence}
use argus_services.World.{Db}
use argus_services.World.Session.{Context}
use argus_services.Aggregation.Decisions.{get_decision}
use argus_services.Storage.{playback_key}
use argus_services.Triage.Details.{
  EvidenceDetail, DecisionDetail, detail_of_evidence, detail_of_decision, is_shown, evidences_of,
  playback_of, evidence_details, get_decision_detail, get_evidence_playback,
}

-- The primary key of the evidence: an id finds its own row.
abbrev pub ByKey : List Evidence → Type 0
ByKey xs = All (λ (x : Evidence). find? (λ (y : Evidence). y.id == x.id) xs ≡ some x) xs

abbrev pub Plays : Option String → Result String → Type 0
Plays none r = Unit
Plays (some url) r = r ≡ ok url

and-false : (b : Bool) → (b && false) ≡ false
and-false true = refl
and-false false = refl

-- A search that asks for more finds the same row, if that row passes.
find?-more_tests :
    (p q : Evidence → Bool) (xs : List Evidence) {x : Evidence}
    → find? q xs ≡ some x
    → p x ≡ true
    → find? (λ y. p y && q y) xs ≡ some x
find?-more_tests p q [] h passes = cc
find?-more_tests p q (y ∷ xs) {x} h passes = elim (Bool-cases (q y)) [
  | inl hit ↦
      let same : y ≡ x = ground (arith, h, hit) in rw (hit, ap p same ∙ passes) (ap some same)
  | inr miss ↦ rw (miss, and-false (p y)) (find?-more_tests p q xs (rw miss at h) passes)
]

module _ (sign : String → Result String) (c : Context) (decision_id : ℕ) (db : Db) where
  -- A shown piece of evidence is a visible one of the decision, and where it has a URL, the route that plays
  -- it gives that URL.
  abbrev pub Shown : EvidenceDetail → Type 0
  Shown d =
      (x : Evidence) × (x.id ≡ d.id)
      × (is_shown c decision_id db x ≡ true)
      × Plays d.playback_url (get_evidence_playback sign decision_id d.id c db)

  get_evidence_playback-found :
      (x : Evidence)
      → find? (λ (y : Evidence). y.id == x.id) db.evidences ≡ some x
      → is_shown c decision_id db x ≡ true
      → get_evidence_playback sign decision_id x.id c db ≡ sign (playback_key x.frame_storage_uri)
  unfolding get_evidence_playback
  get_evidence_playback-found x found shown =
      rw
        (
          find?-more_tests (is_shown c decision_id db) (λ (y : Evidence). y.id == x.id) db.evidences
              found shown,
          get_evidence_playback,
        )
        refl

  playback_of-Plays :
      (x : Evidence) {url : Option String}
      → playback_of sign x ≡ ok url
      → Plays url (sign (playback_key x.frame_storage_uri))
  unfolding playback_of
  playback_of-Plays x h = elim (Bool-cases (starts_with x.frame_storage_uri "s3://")) [
    | inl s3 ↦
        let (signed, is_signed, same) =
          >>=-eq-ok (sign (playback_key x.frame_storage_uri)) _ (rw s3 at h) in
        subst (λ u. Plays u (sign (playback_key x.frame_storage_uri))) {x = some signed}
          (ground (arith, same)) is_signed
    | inr other ↦
        subst (λ u. Plays u (sign (playback_key x.frame_storage_uri))) {x = none}
          (ground (arith, rw other at h)) tt
  ]

  evidence_details-Shown :
      (xs : List Evidence) {details : List EvidenceDetail}
      → evidence_details sign xs ≡ ok details
      → All (λ (x : Evidence). find? (λ (y : Evidence). y.id == x.id) db.evidences ≡ some x) xs
      → All (λ (x : Evidence). is_shown c decision_id db x ≡ true) xs
      → All Shown details
  unfolding evidence_details
  evidence_details-Shown [] h keys shown = subst (All Shown) {x = []} (ground (arith, h)) tt
  evidence_details-Shown (x ∷ xs) h keys shown =
      let (url, plays, h1) = >>=-eq-ok (playback_of sign x) _ h in
      let (rest, more, h2) = >>=-eq-ok (evidence_details sign xs) _ h1 in
      let this =
        subst (Plays url) (sym (get_evidence_playback-found x keys.0 shown.0))
          (playback_of-Plays x plays) in
      subst (All Shown) {x = detail_of_evidence x url ∷ rest} (ground (arith, h2))
        ((x, refl, shown.0, this), evidence_details-Shown xs more keys.1 shown.1)

-- When ids find their own rows, a decision is shown only if the caller may see it, with its own fields and with
-- pieces of evidence that are linked to it and visible; a piece that has a URL has the one under which the
-- playback route plays it.
pub get_decision_detail_shows :
    (sign : String → Result String) (c : Context) (decision_id : ℕ) (db : Db)
    (detail : DecisionDetail)
    → ByKey db.evidences
    → get_decision_detail sign decision_id c db ≡ ok detail
    → (d : Decision) × (get_decision c decision_id db ≡ some d)
      × (detail ≡ detail_of_decision d detail.evidences)
      × All (Shown sign c d.id db) detail.evidences
unfolding get_decision_detail
get_decision_detail_shows sign c decision_id db detail keys h =
    elim (Option-cases (get_decision c decision_id db)) [
      | inl missing ↦ (let no = rw (missing, get_decision_detail) at h in cc)
      | inr (d, found) ↦
          let (details, all, same) =
            >>=-eq-ok (evidence_details sign (evidences_of c d.id db)) _
              (rw (found, get_decision_detail) at h) in
          let shown =
            evidence_details-Shown sign c d.id db (evidences_of c d.id db) all
              (All-select _ (is_shown c d.id db) db.evidences keys)
              (select-passes (is_shown c d.id db) db.evidences) in
          subst
            (λ t.
              (e : Decision) × (get_decision c decision_id db ≡ some e)
              × (t ≡ detail_of_decision e t.evidences)
              × All (Shown sign c e.id db) t.evidences)
            {x = detail_of_decision d details} (ground (arith, same)) (d, found, refl, shown)
    ]
