-- ===== src/Notifier/Deliveries.antt =====
-- What the deliveries say of the messages that were sent.
use argus_services.Prelude.{
  ℕ, String, ◌≡◌, ◌≢◌, refl, sym, ap, ◌∙◌, subst, Option, none, some, List, [], ◌∷◌, ◌++◌, All,
  All-append, append_assoc, append-nil, map,
}
use argus_services.Exec.{pure}
use argus_services.Exec.Triple.{Post, Post-mono, continue-Post}
use argus_services.Domain.Enums.{sent, failed, root_admin}
use argus_services.Domain.Models.{Decision, NotificationConfig, NotificationDelivery}
use argus_services.World.{World, Db}
use argus_services.World.Redis.{KeyStore}
use argus_services.World.Session.{Context, tenant_session-keeps}
use argus_services.Access.{root_context}
use argus_services.Aggregation.Decisions.{get_decision}
use argus_services.Notifier.{
  SendResult, sid, error, NotifierDraws, message_for, delivery_of, active_configs, record_answer,
  deliver, deliver_all, notify_found, notify_block, notify_warning,
}

-- The id that the provider gave.
abbrev sid_of : SendResult → Option String
sid_of (sid id) = some id
sid_of (error text) = none

abbrev pub receipt : NotifierDraws → Decision → NotificationConfig → NotificationDelivery
receipt s d c = delivery_of s d c sent (sid_of (s.send (message_for d c))) none

receipts_sent :
    (s : NotifierDraws) (d : Decision) (cs : List NotificationConfig)
    → All (λ (x : NotificationDelivery). x.status ≢ failed) (map (receipt s d) cs)
receipts_sent s d [] = tt
receipts_sent s d (c ∷ cs) = ((λ e. cc), receipts_sent s d cs)

module _ {K : KeyStore} where
  -- Each config has its message and its row.
  abbrev pub Delivered :
      NotifierDraws → Decision → List NotificationConfig → World K → World K → Type 0
  Delivered s d cs w v =
      (v.sent ≡ w.sent ++ map (message_for d) cs)
      × (v.db ≡ record w.db { deliveries = w.db.deliveries ++ map (receipt s d) cs })

  answer-Delivered :
      (s : NotifierDraws) (d : Decision) (c : NotificationConfig) (w : World K) (a : SendResult)
      → s.send (message_for d c) ≡ a
      → Post (λ _. Delivered s d (c ∷ []) w) (record_answer s d c a w).0 (record_answer s d c a w).1
  unfolding record_answer
  answer-Delivered s d c w (sid id) e = (refl, rw e refl)
  answer-Delivered s d c w (error text) e = tt

  Delivered-then :
      (s : NotifierDraws) (d : Decision) (c : NotificationConfig) (rest : List NotificationConfig)
      (w v u : World K)
      → Delivered s d (c ∷ []) w v
      → Delivered s d rest v u
      → Delivered s d (c ∷ rest) w u
  Delivered-then s d c rest w v u (sent1, db1) (sent2, db2) = (
    sent2
        ∙ ap (λ x. x ++ map (message_for d) rest) sent1
        ∙ append_assoc w.sent (message_for d c ∷ []) _,
    db2
        ∙ ap (λ (x : Db). record x { deliveries = x.deliveries ++ map (receipt s d) rest }) db1
        ∙ ap (λ x. record w.db { deliveries = x })
            (append_assoc w.db.deliveries (receipt s d c ∷ []) _),
  )

  pub deliver_all-Delivered :
      (s : NotifierDraws) (d : Decision) (cs : List NotificationConfig) (w : World K)
      → Post (λ _. Delivered s d cs w) (deliver_all s d cs w).0 (deliver_all s d cs w).1
  unfolding deliver_all deliver
  deliver_all-Delivered s d [] w = (
    sym (append-nil w.sent),
    ap (λ x. record w.db { deliveries = x }) (sym (append-nil w.db.deliveries)),
  )
  deliver_all-Delivered s d (c ∷ rest) w =
      continue-Post (λ _. Delivered s d (c ∷ []) w) (λ _. Delivered s d (c ∷ rest) w)
        (λ _. deliver_all s d rest) _ _
        (λ _. record {
          run = λ v h.
              Post-mono _ _ (λ _ u k. Delivered-then s d c rest w v u h k)
                (deliver_all-Delivered s d rest v);
        })
        (answer-Delivered s d c w _ refl)

  found-Delivered :
      (s : NotifierDraws) (c : Context) (found : Option Decision) (w : World K)
      → Post
          (λ n v.
            (d : Decision) × (found ≡ some d)
            × (n ≡ d.id)
            × Delivered s d (active_configs c d w.db) w v)
          (notify_found s c found w).0
          (notify_found s c found w).1
  unfolding notify_found
  found-Delivered s c none w = tt
  found-Delivered s c (some d) w =
      continue-Post (λ _. Delivered s d (active_configs c d w.db) w) _ (λ _. pure d.id) _ _
        (λ _. record { run = λ v h. (d, refl, refl, h) }) (deliver_all-Delivered s d _ w)

  -- No run stores a delivery as FAILED: a send that fails raises, and with it the session takes back the
  -- row of the failure and the rows of the messages that were sent before it.
  pub notify_warning_never_failed :
      (s : NotifierDraws) (id : ℕ) (w : World K)
      → All (λ (x : NotificationDelivery). x.status ≢ failed) w.db.deliveries
      → All
          (λ (x : NotificationDelivery). x.status ≢ failed)
          (notify_warning s id w).1.db.deliveries
  unfolding notify_warning notify_block
  notify_warning_never_failed s id w h =
      tenant_session-keeps
        (λ db. All (λ (x : NotificationDelivery). x.status ≢ failed) db.deliveries) none
        (some root_admin) (notify_block s id) w
        (Post-mono
          {P = λ n v.
            (d : Decision) × (get_decision root_context id w.db ≡ some d)
            × (n ≡ d.id)
            × Delivered s d (active_configs root_context d w.db) w v}
          _ _
          (λ n v found.
            let (d, _, _, sent_all) = found in
            subst (λ (x : Db). All (λ (y : NotificationDelivery). y.status ≢ failed) x.deliveries)
              (sym sent_all.1)
              (All-append _ w.db.deliveries _ h
                (receipts_sent s d (active_configs root_context d w.db))))
          (found-Delivered s root_context (get_decision root_context id w.db) w))
        h
