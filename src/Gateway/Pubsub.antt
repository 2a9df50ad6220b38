-- ===== src/Gateway/Pubsub.antt =====
-- runtime/src/argus/ws/pubsub.py: the events that Redis publishes are broadcast to the room of their
-- tenant; runtime/src/argus/services/ws_events.py and `publish` of services/redis.py: how they are published.
-- The texts of ids and of JSON are parameters, and so is what Redis delivers: a list of polls.
use Prim.Native.Char.{code}
use Prim.Native.String
use argus_services.Prelude.{
  ℕ, String, Bool, not, ◌&&◌, ◌==◌, str_eq, Option, none, some, List, [], ◌∷◌, ◌++◌, find?,
  if◌then◌else◌,
}
use argus_services.Exec.{Result, ok, raised, value_error, type_error}
use argus_services.Exec.Fallible.{◌>>=◌}
use argus_services.Domain.Json.{Json, str, obj, Fields, end, field}
use argus_services.Gateway.{WebSocket, ConnectionManager, broadcast}

-- `json`, `str` of a UUID, the id whose `str` a text is (the rooms are named by that text), and UTF-8.
pub record Texts : Type 0 where
  pub dumps : Json → String
  pub loads : String → Option Json
  pub id_text : ℕ → String
  pub id_of : String → Option ℕ
  pub decode : List ℕ → Option String

pub data Wire : Type 0 where
  str_wire : String → Wire
  bytes_wire : List ℕ → Wire

pub record PubsubMessage : Type 0 where
  pub kind : String
  pub channel : Wire
  pub content : Option Wire

-- The sockets, and what each was sent.
pub record Feed : Type 0 where
  pub manager : ConnectionManager
  pub inbox : ℕ → List Json

-- The text behind the last colon, if there is one.
unfoldable pub behind_colon : String → Option String
behind_colon String.[] = none
behind_colon (String.◌∷◌ c s) = elim (behind_colon s) [
  | some r ↦ some r
  | none ↦ if code c == 58 then some s else none
]

-- `channel.rsplit(":", 1)[-1]`
unfoldable pub rsplit_last : String → String
rsplit_last s = elim (behind_colon s) [ none ↦ s | some r ↦ r ]

-- What `send_text` delivers: `takes ws` as in `broadcast`; a room is a set, so an id has one socket.
unfoldable pub send_to_room :
    (WebSocket → Bool) → ℕ → Json → ConnectionManager → (ℕ → List Json) → ℕ → List Json
send_to_room takes tenant_id message m inbox i =
    elim (find? (λ (x : WebSocket). x.id == i) m.rooms) [
      | none ↦ inbox i
      | some ws ↦ if ws.tenant_id == tenant_id && takes ws then inbox i ++ message ∷ [] else inbox i
    ]

unfoldable pub broadcast_to : (WebSocket → Bool) → ℕ → Json → Feed → Feed
broadcast_to takes tenant_id message f = record {
  manager = broadcast takes tenant_id f.manager;
  inbox = send_to_room takes tenant_id message f.manager f.inbox;
}

module _ (C : Texts) where
  abbrev pub envelope : ℕ → String → String → Fields → Json
  envelope tenant_id event_type timestamp payload = obj (
      field "type" (str event_type) (
        field "tenant_id" (str (C.id_text tenant_id))
          (field "timestamp" (str timestamp) (field "payload" (obj payload) end))))

  -- `publish(WS_ROOM_CHANNEL.format(tenant_id=tenant_id), envelope)`, as a subscriber with decoded
  -- responses gets it.
  abbrev pub published : ℕ → Json → PubsubMessage
  published tenant_id message = record {
    kind = "pmessage";
    channel = str_wire (String.◌++◌ "ws:room:" (C.id_text tenant_id));
    content = some (str_wire (C.dumps message));
  }

  unfoldable pub decoded : Wire → Result String
  decoded (str_wire s) = ok s
  decoded (bytes_wire b) = elim (C.decode b) [
    | none ↦ raised (value_error "invalid utf-8")
    | some s ↦ ok s
  ]

  unfoldable pub load_content : Option Wire → Result Json
  load_content none = raised (type_error "the JSON object must be str, bytes or bytearray")
  load_content (some w) = do
    s ← decoded w
    elim (C.loads s) [ none ↦ raised (value_error "not JSON") | some v ↦ ok v ]

  -- The body of the `try`, up to the broadcast: the room and the message.
  unfoldable pub read_message : PubsubMessage → Result (String × Json)
  read_message p = do
    channel ← decoded p.channel
    message ← load_content p.content
    ok (rsplit_last channel, message)

  unfoldable pub forward_read : (WebSocket → Bool) → Result (String × Json) → Feed → Feed
  forward_read takes (raised _) f = f
  forward_read takes (ok (room, message)) f = elim (C.id_of room) [
    | none ↦ f
    | some tenant_id ↦ broadcast_to takes tenant_id message f
  ]

  -- One turn of the loop: a poll times out, or gives a message.
  unfoldable pub forward : (WebSocket → Bool) → Option PubsubMessage → Feed → Feed
  forward takes none f = f
  forward takes (some p) f =
      if not (str_eq p.kind "pmessage") then f else forward_read takes (read_message p) f

  -- `run_pubsub_listener`, over the polls that it has made.
  unfoldable pub run_pubsub_listener :
      (WebSocket → Bool) → List (Option PubsubMessage) → Feed → Feed
  run_pubsub_listener takes [] f = f
  run_pubsub_listener takes (p ∷ polls) f = run_pubsub_listener takes polls (forward takes p f)
