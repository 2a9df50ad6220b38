-- ===== src/Aggregation/Accounting.antt =====
-- The totals of the decisions along runtime/src/argus/services/aggregation.py.
use argus_services.Prelude.{ℕ, ◌≡◌, none, some, All-append, All-update, All-find?, All-mono, sym}
use argus_services.Domain.Enums.{DecisionState, root_admin}
use argus_services.Domain.Models.{Evidence, Decision, Tenant}
use argus_services.World.{World, Db}
use argus_services.World.Redis.{KeyStore}
use argus_services.World.Session.{Context, no_context, allows, set_session_context}
use argus_services.Events.{EventSettings}
use argus_services.Aggregation.Decisions.{
  Draws, save_decision, new_decision, write_transition, get_decision, get_evidence,
}
use argus_services.Aggregation.Totals.{
  HasTotals, score_of_found, IsCounted, links_to, score_of, total_score_unlinked, link-HasTotals,
  add_evidence-IsCounted,
}
use argus_services.Aggregation.Preserving.{Preserving, aggregate-Holds}
use argus_services.Aggregation.{aggregate}

-- The evidence is in its table, and no link names the id that a new decision would have.
record Ready (e : Evidence) (new_id : ℕ) (db : Db) : Type 0 where
  totals : HasTotals db
  stored : score_of e.id db.evidences ≡ e.severity_score
  fresh : links_to new_id db.links ≡ 0

record Settled (d : Decision) (db : Db) : Type 0 where
  totals : HasTotals db
  current : IsCounted db d

-- The decision in hand, and evidence that may be linked to it.
record Linkable (e : Evidence) (d : Decision) (db : Db) : Type 0 where
  settled : Settled d db
  stored : score_of e.id db.evidences ≡ e.severity_score

found-IsCounted :
    (c : Context) (id : ℕ) (db : Db) (d : Decision)
    → HasTotals db
    → get_decision c id db ≡ some d
    → IsCounted db d
unfolding get_decision
found-IsCounted c id db d h e = All-find? (IsCounted db) _ db.decisions h e

transition-HasTotals :
    (s : Draws) (d : Decision) (new : DecisionState) (db : Db)
    → Settled d db
    → HasTotals (write_transition s d new db)
unfolding write_transition save_decision
transition-HasTotals s d new db h =
    All-update (IsCounted db) (IsCounted (write_transition s d new db)) _ _ db.decisions
      (λ x _ _. record { counted = h.current.counted; scored = h.current.scored })
      (λ x k _. record { counted = k.counted; scored = k.scored }) h.totals

-- Root reads every row, so what it finds by id is what the table has under that id.
root_evidence :
    (id : ℕ) (db : Db) (e : Evidence)
    → get_evidence (set_session_context no_context none (some root_admin)) id db ≡ some e
    → score_of e.id db.evidences ≡ e.severity_score
unfolding get_evidence set_session_context allows
root_evidence id db e h = score_of_found id db.evidences e h

-- What a new decision starts with.
new-IsCounted :
    (now id : ℕ) (e : Evidence) (t : Tenant) (db : Db)
    → links_to id db.links ≡ 0
    → IsCounted db (new_decision now id e t)
new-IsCounted now id e t db fresh = record {
  counted = sym fresh;
  scored = sym (total_score_unlinked id db.evidences db.links fresh);
}

abbrev totals : Preserving
totals = record {
  Holds = HasTotals;
  IsReady = Ready;
  IsLinkable = Linkable;
  IsSettled = Settled;
  found = λ c e new_id id db d r h. record {
    settled = record { totals = r.totals; current = found-IsCounted c id db d r.totals h };
    stored = r.stored;
  };
  created = λ s e t db r. record {
    settled = record {
      totals =
          All-append (IsCounted _) db.decisions _
            (All-mono {P = IsCounted db} (λ x k. record { counted = k.counted; scored = k.scored })
              db.decisions r.totals)
            (let new = new-IsCounted s.now s.decision_id e t db r.fresh in
              (record { counted = new.counted; scored = new.scored }, tt));
      current =
          (let new = new-IsCounted s.now s.decision_id e t db r.fresh in
            record { counted = new.counted; scored = new.scored });
    };
    stored = r.stored;
  };
  kept = λ e d db l. l.settled;
  linked = λ now e d db l. record {
    totals = link-HasTotals now db d e l.settled.totals l.settled.current l.stored;
    current = add_evidence-IsCounted now db d e l.settled.current l.stored;
  };
  settled = λ d db h. h.totals;
  changed = transition-HasTotals;
}

module _ {K : KeyStore} where
  -- A run of `aggregate`, whether it returns or raises, keeps the totals of every decision right: each
  -- decision's `evidence_count` is the number of its links, and its `cumulative_severity` the sum of
  -- the scores of the evidence that they name. The id drawn for a new decision is not yet in use.
  pub aggregate-HasTotals :
      (S : EventSettings) (s : Draws) (id : ℕ) (w : World K)
      → HasTotals w.db
      → links_to s.decision_id w.db.links ≡ 0
      → HasTotals (aggregate S s id w).1.db
  aggregate-HasTotals S s id w h fresh =
      aggregate-Holds totals S s id w h
        (λ e found. record { totals = h; stored = root_evidence id w.db e found; fresh = fresh })
