-- ===== src/Gateway/Ending.antt =====
-- runtime/src/argus/ws/gateway.py, for the next socket of a subject after others came and went.
use argus_services.Prelude.{
  ℕ, Bool, true, false, ◌≤◌, ◌≡◌, refl, ==_refl, leb, str_eq, List, [], ◌∷◌, count, Bool-cases, inl,
  inr, arith,
}
use argus_services.Exec.{ok}
use argus_services.Gateway.{WebSocket, connect, max_connections_per_sub}
use argus_services.Gateway.Counting.{of_sub}
use argus_services.Gateway.Leaving.{has_id}
use argus_services.Gateway.Running.{Gateway, Reachable}
use argus_services.Gateway.Occupancy.{Reachable-IsOccupied}

module _ (socket : ℕ → WebSocket) (named : (i : ℕ) → (socket i).id ≡ i) where
  nobody : (rooms : List WebSocket) → ((i : ℕ) → count (has_id i) rooms ≤ 0) → rooms ≡ []
  nobody [] h = refl
  nobody (x ∷ xs) h = (let own = rw (==_refl x.id) at (h x.id) in absurd (omega (arith, own)))

  -- However sockets came, left and were dropped: when no handler runs any more, no socket is in the rooms
  -- and every subject with a name is taken in again, if its client accepts.
  pub all_ended :
      (g : Gateway)
      → Reachable socket g
      → ((i : ℕ) → g.is_running i ≡ false)
      → (g.manager.rooms ≡ [])
        × ((i : ℕ)
            → str_eq (socket i).sub "" ≡ false
            → (connect true (socket i) g.manager).0 ≡ ok true)
  unfolding connect
  all_ended g reached ended =
      let o = Reachable-IsOccupied socket named reached in
      let empty : g.manager.rooms ≡ [] =
        nobody g.manager.rooms (λ i. rw (ended i) at (o.are_running i)) in
      (
        empty,
        λ i filled.
            let none_left : g.manager.subs (socket i).sub ≤ 0 =
              rw empty at (o.are_counted (socket i).sub filled) in
            let room : leb 5 (g.manager.subs (socket i).sub) ≡ false = ground (arith, none_left) in
            rw room refl,
      )

  -- However sockets came, left and were dropped: a subject with a name is refused only while five of its
  -- sockets are in the rooms.
  pub refused_only_full :
      (g : Gateway) (i : ℕ) (accepts : Bool)
      → Reachable socket g
      → str_eq (socket i).sub "" ≡ false
      → (connect accepts (socket i) g.manager).0 ≡ ok false
      → max_connections_per_sub ≤ count (of_sub (socket i).sub) g.manager.rooms
  unfolding connect
  refused_only_full g i true reached filled h =
      let counted = (Reachable-IsOccupied socket named reached).are_counted (socket i).sub filled in
      elim (Bool-cases (leb 5 (g.manager.subs (socket i).sub))) [
        | inl full ↦ ground (arith, full, counted)
        | inr room ↦ (let taken = rw room at h in cc)
      ]
  refused_only_full g i false reached filled h =
      let counted = (Reachable-IsOccupied socket named reached).are_counted (socket i).sub filled in
      elim (Bool-cases (leb 5 (g.manager.subs (socket i).sub))) [
        | inl full ↦ ground (arith, full, counted)
        | inr room ↦ (let taken = rw room at h in cc)
      ]
