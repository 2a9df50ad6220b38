-- ===== src/Gateway/Dropping.antt =====
-- runtime/src/argus/ws/gateway.py and handlers.py: a socket that a broadcast drops and whose handler then
-- ends.
use argus_services.Prelude.{
  ℕ, Bool, true, false, not, ◌&&◌, ◌==◌, ◌+◌, ◌-◌, ◌≤◌, ◌≡◌, ◌∙◌, ap, subst, sym, str_eq, none,
  some, Option-cases, List, [], ◌∷◌, find?, find?-passes, All, All-find?, is_some, ==_iff, count,
  select, inl, inr, arith,
}
use argus_services.Gateway.{
  WebSocket, has_socket, disconnect, disconnect_all, broadcast, leave_room, release,
}
use argus_services.Gateway.Counting.{
  Counted, of_sub, release_own, disconnect-Counted, disconnect_absent,
}
use argus_services.Gateway.Leaving.{has_id, none_found}
use argus_services.Gateway.Running.{Gateway, Reachable}
use argus_services.Gateway.Occupancy.{IsOccupied, left_room, Reachable-IsOccupied}

module _ (socket : ℕ → WebSocket) (named : (i : ℕ) → (socket i).id ≡ i) where
  -- The socket that is found for an id is the one of that id.
  found_own :
      (i : ℕ) (rooms : List WebSocket)
      → All (λ (x : WebSocket). x ≡ socket x.id) rooms
      → has_socket (socket i) rooms ≡ true
      → find? (has_id (socket i).id) rooms ≡ some (socket i)
  found_own i rooms are there = elim (Option-cases (find? (has_id (socket i).id) rooms)) [
    | inl gone ↦ (let absent = rw gone at there in cc)
    | inr (x, found) ↦
        let found_id : x.id ≡ i =
          (==_iff x.id (socket i).id).0 (find?-passes (has_id (socket i).id) rooms found)
          ∙ named i in
        found
        ∙ ap some (
            All-find? (λ (y : WebSocket). y ≡ socket y.id) (has_id (socket i).id) rooms are found
            ∙ ap socket found_id)
  ]

  drop_twice :
      (g : Gateway) (i : ℕ)
      → IsOccupied socket g
      → Counted g.manager
      → has_socket (socket i) g.manager.rooms ≡ true
      → str_eq (socket i).sub "" ≡ false
      → 2 ≤ g.manager.subs (socket i).sub
      → (disconnect (socket i) (disconnect (socket i) g.manager)).subs (socket i).sub + 1
        ≡ count
            (of_sub (socket i).sub)
            (disconnect (socket i) (disconnect (socket i) g.manager)).rooms
  unfolding disconnect
  drop_twice g i o counted there filled two =
      let own = found_own i g.manager.rooms o.are_sockets there in
      let once : count (has_id i) g.manager.rooms ≤ 1 =
        (let at_most = o.are_running i in ground (arith, at_most)) in
      let out = (left_room socket named i g.manager.rooms (has_id i) o.are_sockets).2 once in
      let gone : find? (has_id (socket i).id) (leave_room (socket i) g.manager.rooms) ≡ none =
        subst (λ j. find? (has_id j) (leave_room (socket i) g.manager.rooms) ≡ none) (sym (named i))
          (none_found i (leave_room (socket i) g.manager.rooms) out) in
      let left : 1 ≤ release (socket i).sub g.manager.subs (socket i).sub =
        (let own_count =
            release_own g.manager.subs (socket i).sub (g.manager.subs (socket i).sub - 1) filled
              (omega (arith, two)) in
          omega (arith, own_count, two)) in
      disconnect_absent (socket i) (disconnect (socket i) g.manager) (ap is_some gone) filled left
        (disconnect-Counted (socket i) g.manager own counted)

  -- In each state that the sockets can come to in which the counts are right: a broadcast whose
  -- sends fail for one socket of the room alone drops it, its handler then ends and drops it again, and
  -- if its subject, which has a name, had two sockets or more, the subject is from then on counted with
  -- one socket less than it has in the rooms.
  pub dropped_twice :
      (g : Gateway) (i : ℕ) (takes : WebSocket → Bool)
      → Reachable socket g
      → Counted g.manager
      → has_socket (socket i) g.manager.rooms ≡ true
      → select
          (λ (x : WebSocket). x.tenant_id == (socket i).tenant_id && not (takes x))
          g.manager.rooms
        ≡ socket i ∷ []
      → str_eq (socket i).sub "" ≡ false
      → 2 ≤ g.manager.subs (socket i).sub
      → (disconnect (socket i) (broadcast takes (socket i).tenant_id g.manager)).subs (socket i).sub
          + 1
        ≡ count
            (of_sub (socket i).sub)
            (disconnect (socket i) (broadcast takes (socket i).tenant_id g.manager)).rooms
  unfolding broadcast disconnect_all
  dropped_twice g i takes reached counted there alone filled two =
      rw alone (drop_twice g i (Reachable-IsOccupied socket named reached) counted there filled two)
