-- ===== src/Gateway/Delivery.antt =====
-- An event from its publication to the sockets of its tenant: runtime/src/argus/services/ws_events.py,
-- runtime/src/argus/ws/pubsub.py and runtime/src/argus/ws/gateway.py.
use argus_services.Prelude.{
  ℕ, ◌≡◌, refl, sym, ap, ◌∙◌, Bool, true, false, not, ◌&&◌, ◌==◌, Option, none, some, List, [], ◌∷◌,
  ◌++◌, select, find?, All, All-find?, ==_refl, Bool-cases, inl, inr, arith, if◌then◌else◌,
  append_assoc, append-nil,
}
use argus_services.Domain.Json.{Json}
use argus_services.Gateway.{
  WebSocket, ConnectionManager, disconnect, disconnect_all, broadcast, remove_socket, leave_room,
  has_socket,
}
use argus_services.Gateway.Leaving.{All-leave, has_id}
use argus_services.Gateway.Channels.{rsplit_last-channel}
use argus_services.Gateway.Pubsub.{
  Texts, PubsubMessage, Feed, behind_colon, send_to_room, broadcast_to, published, decoded,
  load_content, read_message, forward_read, forward, run_pubsub_listener,
}

-- Rooms from which sockets leave keep one that is none of them.
find?-remove :
    (ws d : WebSocket) (rooms : List WebSocket)
    → (d.id == ws.id) ≡ false
    → find? (has_id ws.id) (remove_socket d rooms) ≡ find? (has_id ws.id) rooms
unfolding remove_socket
find?-remove ws d [] other = refl
find?-remove ws d (x ∷ xs) other = elim (Bool-cases (x.id == d.id)) [
  | inl leaves ↦ ground (arith, leaves, other)
  | inr stays ↦ rw stays (ground (arith, find?-remove ws d xs other))
]

find?-leave :
    (ws d : WebSocket) (rooms : List WebSocket)
    → (d.id == ws.id) ≡ false
    → find? (has_id ws.id) (leave_room d rooms) ≡ find? (has_id ws.id) rooms
unfolding leave_room
find?-leave ws d rooms other = elim (Bool-cases (has_socket d rooms)) [
  | inl there ↦ rw there (find?-remove ws d rooms other)
  | inr gone ↦ rw gone refl
]

find?-disconnect_all :
    (ws : WebSocket) (dead : List WebSocket) (m : ConnectionManager)
    → All (λ (d : WebSocket). (d.id == ws.id) ≡ false) dead
    → find? (has_id ws.id) (disconnect_all dead m).rooms ≡ find? (has_id ws.id) m.rooms
unfolding disconnect_all disconnect
find?-disconnect_all ws [] m h = refl
find?-disconnect_all ws (d ∷ dead) m h =
    find?-disconnect_all ws dead (disconnect d m) h.1 ∙ find?-leave ws d m.rooms h.0

All-disconnect_all :
    (P : WebSocket → Type 0) (dead : List WebSocket) (m : ConnectionManager)
    → All P m.rooms
    → All P (disconnect_all dead m).rooms
unfolding disconnect_all disconnect
All-disconnect_all P [] m h = h
All-disconnect_all P (d ∷ dead) m h =
    All-disconnect_all P dead (disconnect d m) (All-leave P d m.rooms h)

module _ (takes : WebSocket → Bool) (ws : WebSocket) where
  -- The socket of this id takes what it is sent.
  abbrev pub TakesAll : List WebSocket → Type 0
  TakesAll = All (λ (x : WebSocket). (x.id == ws.id) ≡ true → takes x ≡ true)

  dead_others :
      (t : ℕ) (rooms : List WebSocket)
      → TakesAll rooms
      → All
          (λ (d : WebSocket). (d.id == ws.id) ≡ false)
          (select (λ (x : WebSocket). x.tenant_id == t && not (takes x)) rooms)
  dead_others t [] h = tt
  dead_others t (x ∷ xs) h = elim (Bool-cases (x.tenant_id == t && not (takes x))) [
    | inl dead ↦ rw dead (ground (arith, dead, h.0), dead_others t xs h.1)
    | inr kept ↦ rw kept (dead_others t xs h.1)
  ]

  find?-broadcast :
      (t : ℕ) (m : ConnectionManager)
      → TakesAll m.rooms
      → find? (has_id ws.id) (broadcast takes t m).rooms ≡ find? (has_id ws.id) m.rooms
  unfolding broadcast
  find?-broadcast t m h = find?-disconnect_all ws _ m (dead_others t m.rooms h)

  TakesAll-broadcast :
      (t : ℕ) (m : ConnectionManager) → TakesAll m.rooms → TakesAll (broadcast takes t m).rooms
  unfolding broadcast
  TakesAll-broadcast t m h = All-disconnect_all _ _ m h

-- The library functions on what is published: the texts are read back, and no id is written with a colon.
pub record Reads (C : Texts) (tenant_id : ℕ) (message : Json) : Type 0 where
  pub loads-dumps : C.loads (C.dumps message) ≡ some message
  pub id_of-text : C.id_of (C.id_text tenant_id) ≡ some tenant_id
  pub no_colon : behind_colon (C.id_text tenant_id) ≡ none

module _ (C : Texts) (takes : WebSocket → Bool) where
  forward-published :
      (t : ℕ) (message : Json) (f : Feed)
      → Reads C t message
      → forward C takes (some (published C t message)) f ≡ broadcast_to takes t message f
  unfolding forward forward_read read_message decoded load_content
  forward-published t message f h =
      rw h.loads-dumps (rw (rsplit_last-channel (C.id_text t) h.no_colon, h.id_of-text) refl)

  -- What is published: of which tenant, and the envelope.
  abbrev pub polls_of : List (ℕ × Json) → List (Option PubsubMessage)
  polls_of [] = []
  polls_of ((t, message) ∷ events) = some (published C t message) ∷ polls_of events

  abbrev pub addressed : ℕ → List (ℕ × Json) → List Json
  addressed t [] = []
  addressed t ((u, message) ∷ events) =
      let rest = addressed t events in if t == u then message ∷ rest else rest

  after_one :
      (ws : WebSocket) (t : ℕ) (message : Json) (f : Feed) (events : List (ℕ × Json))
      → find? (has_id ws.id) f.manager.rooms ≡ some ws
      → takes ws ≡ true
      → send_to_room takes t message f.manager f.inbox ws.id ++ addressed ws.tenant_id events
        ≡ f.inbox ws.id ++ addressed ws.tenant_id ((t, message) ∷ events)
  unfolding send_to_room
  after_one ws t message f events found taken =
      rw (found, send_to_room)
        (elim (Bool-cases (ws.tenant_id == t)) [
          | inl own ↦
              rw (own, taken)
                (append_assoc (f.inbox ws.id) (message ∷ []) (addressed ws.tenant_id events))
          | inr other ↦ rw other refl
        ])

  -- While the socket of an id takes what it is sent, it gets every event that is published for its tenant, in
  -- order and once each, and none of another tenant, when the library functions read back what is published.
  pub run_pubsub_listener-delivers :
      (ws : WebSocket) (events : List (ℕ × Json)) (f : Feed)
      → find? (has_id ws.id) f.manager.rooms ≡ some ws
      → TakesAll takes ws f.manager.rooms
      → All (λ (e : ℕ × Json). Reads C e.0 e.1) events
      → (run_pubsub_listener C takes (polls_of events) f).inbox ws.id
        ≡ f.inbox ws.id ++ addressed ws.tenant_id events
  unfolding run_pubsub_listener broadcast_to
  run_pubsub_listener-delivers ws [] f found takes_all reads = sym (append-nil (f.inbox ws.id))
  run_pubsub_listener-delivers ws ((t, message) ∷ events) f found takes_all reads =
      let taken : takes ws ≡ true =
        All-find? (λ (x : WebSocket). (x.id == ws.id) ≡ true → takes x ≡ true) (has_id ws.id)
          f.manager.rooms takes_all found (==_refl ws.id) in
      ap (λ (g : Feed). (run_pubsub_listener C takes (polls_of events) g).inbox ws.id)
        (forward-published t message f reads.0)
      ∙ run_pubsub_listener-delivers ws events (broadcast_to takes t message f)
          (find?-broadcast takes ws t f.manager takes_all ∙ found)
          (TakesAll-broadcast takes ws t f.manager takes_all) reads.1
      ∙ after_one ws t message f events found taken
