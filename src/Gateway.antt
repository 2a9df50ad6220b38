-- ===== src/Gateway.antt =====
-- runtime/src/argus/ws/gateway.py: the open sockets of each tenant, and how many each subject has. The
-- lock makes `connect` and `disconnect` single steps. The rooms are one list; a socket carries the
-- attributes that its connection set, so a socket that was never connected is no value here. Whether
-- the client accepts a handshake and takes a message are parameters.
pub mod Counting
pub mod Running
pub mod Messages
pub mod Leaving
pub mod Occupancy
pub mod Ending
pub mod Dropping
pub mod Handshake
pub mod Pubsub
pub mod Channels
pub mod Delivery
mod Tests
use argus_services.Prelude.{
  ℕ, String, Bool, true, false, not, ◌&&◌, ◌==◌, ◌+◌, ◌-◌, leb, ltb, str_eq, List, [], ◌∷◌, ◌++◌,
  find?, select, is_some, Option, none, some, if◌then◌else◌,
}
use argus_services.Exec.{Exec, Result, ok, raised, service_error}

pub record WebSocket : Type 0 where
  pub id : ℕ
  pub tenant_id : ℕ
  pub sub : String

pub record ConnectionManager : Type 0 where
  pub rooms : List WebSocket
  -- `defaultdict(int)`
  pub subs : String → ℕ

abbrev pub max_connections_per_sub : ℕ
max_connections_per_sub = 5

abbrev pub set_sub : String → ℕ → (String → ℕ) → String → ℕ
set_sub sub n subs s = if str_eq s sub then n else subs s

abbrev pub has_socket : WebSocket → List WebSocket → Bool
has_socket ws rooms = is_some (find? (λ (x : WebSocket). x.id == ws.id) rooms)

-- `set.add` and `set.remove`
abbrev pub add_socket : WebSocket → List WebSocket → List WebSocket
add_socket ws rooms = if has_socket ws rooms then rooms else rooms ++ ws ∷ []

pub remove_socket : WebSocket → List WebSocket → List WebSocket
remove_socket ws [] = []
remove_socket ws (x ∷ xs) = let rest = remove_socket ws xs in if x.id == ws.id then xs else x ∷ rest

-- `True` for a socket that was taken in.
unfoldable pub connect : Bool → WebSocket → Exec ConnectionManager Bool
connect accepts ws m =
    if leb max_connections_per_sub (m.subs ws.sub)
    then (ok false, m)
    else if accepts
    then (
      ok true,
      record { rooms = add_socket ws m.rooms; subs = set_sub ws.sub (m.subs ws.sub + 1) m.subs },
    )
    else (raised (service_error "accept"), m)

unfoldable pub leave_room : WebSocket → List WebSocket → List WebSocket
unfolding remove_socket
leave_room ws rooms = if has_socket ws rooms then remove_socket ws rooms else rooms

unfoldable pub release : String → (String → ℕ) → String → ℕ
release sub subs =
    if not (str_eq sub "") && ltb 0 (subs sub) then set_sub sub (subs sub - 1) subs else subs

unfoldable pub disconnect : WebSocket → ConnectionManager → ConnectionManager
disconnect ws m = record { rooms = leave_room ws m.rooms; subs = release ws.sub m.subs }

unfoldable pub disconnect_all : List WebSocket → ConnectionManager → ConnectionManager
disconnect_all [] m = m
disconnect_all (ws ∷ dead) m = disconnect_all dead (disconnect ws m)

-- `takes ws`: the socket is connected and the send does not fail.
unfoldable pub broadcast : (WebSocket → Bool) → ℕ → ConnectionManager → ConnectionManager
broadcast takes tenant_id m =
    disconnect_all
      (select (λ (ws : WebSocket). ws.tenant_id == tenant_id && not (takes ws)) m.rooms) m
