-- ===== src/Aggregation/Totals.antt =====
-- The totals of a decision and the evidence that is linked to it.
use argus_services.Prelude.{
  ℕ, ℤ, pos, ◌+ℤ◌, ◌==◌, ◌≡◌, refl, false, none, some, List, [], ◌∷◌, ◌++◌, arith, All, All-update,
  find?, find?-passes, ==_iff, subst, sym, count, count-append, if◌then◌else◌, +ℤ_comm, +ℤ_assoc,
}
use argus_services.Domain.Models.{Evidence, Decision, DecisionEvidence}
use argus_services.World.{Db}
use argus_services.Aggregation.Decisions.{save_decision, link_of, add_evidence}

-- The score of the evidence of that id; 0 if there is none.
pub score_of : ℕ → List Evidence → ℤ
score_of id es = elim (find? (λ e. e.id == id) es) [ none ↦ pos 0 | some e ↦ e.severity_score ]

-- The scores of the evidence that is linked to a decision, added up.
pub total_score : ℕ → List Evidence → List DecisionEvidence → ℤ
total_score d es [] = pos 0
total_score d es (l ∷ ls) =
    if l.decision_id == d
    then score_of l.evidence_id es +ℤ total_score d es ls
    else total_score d es ls

abbrev pub links_to : ℕ → List DecisionEvidence → ℕ
links_to d = count (λ l. l.decision_id == d)

pub record IsCounted (db : Db) (d : Decision) : Type 0 where
  pub counted : d.evidence_count ≡ links_to d.id db.links
  pub scored : d.cumulative_severity ≡ total_score d.id db.evidences db.links

-- Every decision has as many pieces of evidence, and the severity, as its links say.
abbrev pub HasTotals : Db → Type 0
HasTotals db = All (IsCounted db) db.decisions

total_score-append :
    (d : ℕ) (es : List Evidence) (ls : List DecisionEvidence) (l : DecisionEvidence)
    → total_score d es (ls ++ l ∷ []) ≡ (
        if l.decision_id == d
        then total_score d es ls +ℤ score_of l.evidence_id es
        else total_score d es ls)
unfolding total_score
total_score-append d es [] l = ground (arith, +ℤ_comm (score_of l.evidence_id es) (pos 0))
total_score-append d es (k ∷ ls) l = ground (
  arith,
  total_score-append d es ls l,
  +ℤ_assoc (score_of k.evidence_id es) (total_score d es ls) (score_of l.evidence_id es),
)

-- A decision with no link has no severity.
pub total_score_unlinked :
    (d : ℕ) (es : List Evidence) (ls : List DecisionEvidence)
    → links_to d ls ≡ 0
    → total_score d es ls ≡ pos 0
unfolding total_score
total_score_unlinked d es [] h = refl
total_score_unlinked d es (l ∷ ls) h = ground (arith, total_score_unlinked d es ls)

module _ (now : ℕ) (db : Db) (d : Decision) (e : Evidence) where
  abbrev linked_db : Db
  linked_db =
      save_decision (add_evidence now d e) (record db { links = db.links ++ link_of d e ∷ [] })

  -- Linking adds one to the count and the score to the severity of its own decision.
  pub add_evidence-IsCounted :
      IsCounted db d
      → score_of e.id db.evidences ≡ e.severity_score
      → IsCounted linked_db (add_evidence now d e)
  unfolding save_decision
  add_evidence-IsCounted h s = record {
    counted =
        ground
          (arith, count-append (λ l. l.decision_id == d.id) db.links (link_of d e ∷ []), h.counted);
    scored =
        ground (arith, total_score-append d.id db.evidences db.links (link_of d e), h.scored, s);
  }

  others-IsCounted :
      (x : Decision) → IsCounted db x → (x.id == d.id) ≡ false → IsCounted linked_db x
  unfolding save_decision
  others-IsCounted x h other = record {
    counted =
        ground
          (arith, count-append (λ l. l.decision_id == x.id) db.links (link_of d e ∷ []), h.counted);
    scored = ground (arith, total_score-append x.id db.evidences db.links (link_of d e), h.scored);
  }

  pub link-HasTotals :
      HasTotals db
      → IsCounted db d
      → score_of e.id db.evidences ≡ e.severity_score
      → HasTotals linked_db
  unfolding save_decision
  link-HasTotals h c s =
      All-update (IsCounted db) (IsCounted linked_db) _ _ db.decisions
        (λ x _ _. add_evidence-IsCounted c s) others-IsCounted h

pub score_of_found :
    (id : ℕ) (es : List Evidence) (e : Evidence)
    → find? (λ x. x.id == id) es ≡ some e
    → score_of e.id es ≡ e.severity_score
unfolding score_of
score_of_found id es e h =
    let same : e.id ≡ id = (==_iff e.id id).0 (find?-passes (λ x. x.id == id) es h) in
    subst (λ k. score_of k es ≡ e.severity_score) (sym same) (rw (h, score_of) refl)
