-- ===== src/Audit/Aggregating.antt =====
-- The audit records that runtime/src/argus/services/aggregation.py writes, and the trails.
use argus_services.Prelude.{
  ℕ, true, false, ◌==◌, ==_refl, ◌≡◌, refl, ◌∙◌, some, arith, All-append, All-update, All-find?,
  List, [], ◌∷◌, ◌++◌,
}
use argus_services.Domain.Enums.{DecisionState, state_eq_refl, normal}
use argus_services.Domain.Models.{Evidence, Decision, AuditRecord}
use argus_services.World.{World, Db}
use argus_services.World.Redis.{KeyStore}
use argus_services.World.Session.{Context}
use argus_services.Events.{EventSettings}
use argus_services.Aggregation.Decisions.{
  Draws, new_decision, add_evidence, link_of, write_transition, save_decision, get_decision,
  change_record,
}
use argus_services.Aggregation.Preserving.{Preserving, aggregate-Holds}
use argus_services.Aggregation.{aggregate}
use argus_services.Audit.{
  follow, replay, IsTrailed, HasTrails, records_of, replay-append, replay_none_of,
}

-- A record of another decision adds nothing to a trail.
pub other_trail :
    (audit : List AuditRecord) (r : AuditRecord) (x : Decision)
    → (x.id == r.decision_id) ≡ false
    → IsTrailed audit x
    → IsTrailed (audit ++ r ∷ []) x
other_trail audit r x other h =
    let not_it : (r.decision_id == x.id) ≡ false = ground (arith, other) in
    replay-append x.id audit r (some normal) ∙ rw not_it h

-- A record of its own takes a decision to where the record leads.
pub own_trail :
    (audit : List AuditRecord) (r : AuditRecord) (d : Decision) {new : DecisionState}
    → r.decision_id ≡ d.id
    → IsTrailed audit d
    → follow r.payload d.state ≡ some new
    → replay d.id (audit ++ r ∷ []) (some normal) ≡ some new
own_trail audit r d own h leads =
    let it_is : (r.decision_id == d.id) ≡ true = rw own (==_refl d.id) in
    replay-append d.id audit r (some normal) ∙ rw it_is (rw h leads)

record Ready (new_id : ℕ) (db : Db) : Type 0 where
  trails : HasTrails db
  fresh : records_of new_id db.audit ≡ 0

record Settled (d : Decision) (db : Db) : Type 0 where
  trails : HasTrails db
  current : IsTrailed db.audit d

found-IsTrailed :
    (c : Context) (id : ℕ) (db : Db) (d : Decision)
    → HasTrails db
    → get_decision c id db ≡ some d
    → IsTrailed db.audit d
unfolding get_decision
found-IsTrailed c id db d h e = All-find? (IsTrailed db.audit) _ db.decisions h e

link-HasTrails :
    (now : ℕ) (e : Evidence) (d : Decision) (db : Db)
    → Settled d db
    → Settled
        (add_evidence now d e)
        (save_decision (add_evidence now d e) (record db { links = db.links ++ link_of d e ∷ [] }))
unfolding save_decision
link-HasTrails now e d db h = record {
  trails =
      All-update (IsTrailed db.audit) (IsTrailed db.audit) _ _ db.decisions (λ x _ _. h.current)
        (λ x k _. k) h.trails;
  current = h.current;
}

change_follows :
    (s : Draws) (d : Decision) (new : DecisionState)
    → follow (change_record s d new).payload d.state ≡ some new
unfolding follow
change_follows s d new = rw (state_eq_refl d.state) refl

transition-HasTrails :
    (s : Draws) (d : Decision) (new : DecisionState) (db : Db)
    → Settled d db
    → HasTrails (write_transition s d new db)
unfolding write_transition save_decision
transition-HasTrails s d new db h =
    All-update (IsTrailed db.audit) (IsTrailed (db.audit ++ change_record s d new ∷ [])) _ _
      db.decisions
      (λ x _ _.
        own_trail db.audit (change_record s d new) d refl h.current (change_follows s d new))
      (λ x k other. other_trail db.audit (change_record s d new) x other k) h.trails

abbrev trails : Preserving
trails = record {
  Holds = HasTrails;
  IsReady = λ e. Ready;
  IsLinkable = λ e. Settled;
  IsSettled = Settled;
  found = λ c e new_id id db d r h. record {
    trails = r.trails;
    current = found-IsTrailed c id db d r.trails h;
  };
  created = λ s e t db r.
      let new : IsTrailed db.audit (new_decision s.now s.decision_id e t) =
        replay_none_of s.decision_id db.audit (some normal) r.fresh in
      record {
        trails = All-append (IsTrailed db.audit) db.decisions _ r.trails (new, tt);
        current = new;
      };
  kept = λ e d db h. h;
  linked = link-HasTrails;
  settled = λ d db h. h.trails;
  changed = transition-HasTrails;
}

-- A run of `aggregate`, whether it returns or raises, keeps the trails right, if no record is of the id
-- that it draws for a new decision.
pub aggregate-HasTrails :
    {K : KeyStore} (S : EventSettings) (s : Draws) (id : ℕ) (w : World K)
    → HasTrails w.db
    → records_of s.decision_id w.db.audit ≡ 0
    → HasTrails (aggregate S s id w).1.db
aggregate-HasTrails S s id w h fresh =
    aggregate-Holds trails S s id w h (λ e found. record { trails = h; fresh = fresh })
