-- ===== src/Gateway/Running.antt =====
-- runtime/src/argus/ws/handlers.py, the life of the sockets: a handler takes its socket in, and takes it
-- out when it ends; in between, events are broadcast. Which sockets do what, and in which order, is open.
-- A broadcast awaits each send, and each `disconnect` takes the lock anew: `drops` is one such
-- `disconnect`, between any other steps, and `broadcasts` a whole broadcast that nothing interrupts.
use argus_services.Prelude.{ℕ, Bool, true, false, ◌||◌, ◌==◌, ◌≡◌, [], if◌then◌else◌}
use argus_services.Exec.{Result, ok, raised}
use argus_services.Gateway.{WebSocket, ConnectionManager, connect, disconnect, broadcast}

-- The manager, and the sockets whose handlers are past `connect` and have not ended.
pub record Gateway : Type 0 where
  pub manager : ConnectionManager
  pub is_running : ℕ → Bool
  -- the sockets that were in a room at some time
  pub has_come : ℕ → Bool

abbrev pub at_start : Gateway
at_start = record {
  manager = record { rooms = []; subs = λ s. 0 };
  is_running = λ i. false;
  has_come = λ i. false;
}

abbrev pub set_running : ℕ → Bool → (ℕ → Bool) → ℕ → Bool
set_running i b running j = if j == i then b else running j

-- A refused or failed handshake ends the handler before its `try`.
abbrev pub was_taken_in : Result Bool → Bool
was_taken_in (ok taken) = taken
was_taken_in (raised e) = false

-- The socket with an id, as its handshake sets it up.
module _ (socket : ℕ → WebSocket) where
  pub data Step : Gateway → Gateway → Type 0 where
    enters :
        (g : Gateway) (i : ℕ) (accepts : Bool)
        → g.is_running i ≡ false
        → Step g (record {
          manager = (connect accepts (socket i) g.manager).1;
          is_running =
              set_running i (was_taken_in (connect accepts (socket i) g.manager).0) g.is_running;
          has_come =
              set_running i
                (was_taken_in (connect accepts (socket i) g.manager).0 || g.has_come i)
                g.has_come;
        })
    -- `finally: await manager.disconnect(websocket)`
    leaves :
        (g : Gateway) (i : ℕ)
        → g.is_running i ≡ true
        → Step g (record g {
          manager = disconnect (socket i) g.manager;
          is_running = set_running i false g.is_running;
        })
    -- `await self.disconnect(ws)` for a socket whose send failed in a broadcast under way: it was in the
    -- room when the broadcast began, and may have left since
    drops :
        (g : Gateway) (i : ℕ)
        → g.has_come i ≡ true
        → Step g (record g { manager = disconnect (socket i) g.manager })
    broadcasts :
        (g : Gateway) (takes : WebSocket → Bool) (tenant_id : ℕ)
        → Step g (record g { manager = broadcast takes tenant_id g.manager })

  pub data Reachable : Gateway → Type 0 where
    starts : Reachable at_start
    goes_on : {g h : Gateway} → Reachable g → Step g h → Reachable h
