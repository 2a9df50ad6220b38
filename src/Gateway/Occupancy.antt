-- ===== src/Gateway/Occupancy.antt =====
-- Rooms, counts and running handlers of runtime/src/argus/ws/gateway.py, along the steps of the sockets.
use argus_services.Prelude.{
  All-select, ℕ, String, Bool, true, false, not, ◌&&◌, ◌==◌, ==_refl, ==_iff, ◌+◌, ◌≤◌, ◌≡◌, sym,
  ap, subst, ◌∙◌, leb, str_eq, none, some, Option-cases, List, [], ◌∷◌, ◌++◌, find?, find?-passes,
  All-find?, All, All-append, count, count-append, Bool-cases, inl, inr, arith, if◌then◌else◌,
}
use argus_services.Gateway.{
  WebSocket, set_sub, connect, leave_room, disconnect, disconnect_all, broadcast,
}
use argus_services.Gateway.Counting.{of_sub, same_sub, count-remove}
use argus_services.Gateway.Running.{
  Gateway, at_start, set_running, was_taken_in, enters, leaves, drops, broadcasts, Reachable,
  starts, goes_on,
}
use argus_services.Gateway.Leaving.{has_id, All-leave, none_counted, none_found, release_bound}

module _ (socket : ℕ → WebSocket) where
  -- A socket in the rooms is the one of its id, and there once and only while its handler runs; a count
  -- is at most the number of its subject's sockets.
  pub record IsOccupied (g : Gateway) : Type 0 where
    pub are_sockets : All (λ (x : WebSocket). x ≡ socket x.id) g.manager.rooms
    pub are_running : (i : ℕ) → count (has_id i) g.manager.rooms ≤ (if g.is_running i then 1 else 0)
    pub are_counted :
        (s : String) → str_eq s "" ≡ false → g.manager.subs s ≤ count (of_sub s) g.manager.rooms

  at_start-IsOccupied : IsOccupied at_start
  at_start-IsOccupied = record {
    are_sockets = tt;
    are_running = λ i. omega arith;
    are_counted = λ s f. omega arith;
  }

  module _ (named : (i : ℕ) → (socket i).id ≡ i) where
    -- What leaves the rooms with a socket.
    pub left_room :
        (i : ℕ) (rooms : List WebSocket) (p : WebSocket → Bool)
        → All (λ (x : WebSocket). x ≡ socket x.id) rooms
        → (count p (leave_room (socket i) rooms) ≤ count p rooms)
          × (count p rooms
              ≤ (if p (socket i) then 1 else 0) + count p (leave_room (socket i) rooms))
          × (count (has_id i) rooms ≤ 1 → count (has_id i) (leave_room (socket i) rooms) ≡ 0)
    unfolding leave_room
    left_room i rooms p are = elim (Option-cases (find? (has_id (socket i).id) rooms)) [
      | inl gone ↦ rw gone (
        omega arith,
        omega arith,
        λ _. none_counted i rooms (subst (λ j. find? (has_id j) rooms ≡ none) (named i) gone),
      )
      | inr (x, found) ↦
          let found_id : x.id ≡ i =
            (==_iff x.id (socket i).id).0 (find?-passes (has_id (socket i).id) rooms found)
            ∙ named i in
          let own : x ≡ socket i =
            All-find? (λ (y : WebSocket). y ≡ socket y.id) (has_id (socket i).id) rooms are found
            ∙ ap socket found_id in
          let found_own : find? (has_id (socket i).id) rooms ≡ some (socket i) =
            found ∙ ap some own in
          let less = count-remove p (socket i) (socket i) rooms found_own in
          let one_less = count-remove (has_id i) (socket i) (socket i) rooms found_own in
          let it_is : has_id i (socket i) ≡ true = rw (named i) (==_refl i) in
          let only = rw it_is at one_less in
          rw found (omega (arith, less), omega (arith, less), λ once. omega (arith, once, only))
    ]

    disconnect-IsOccupied :
        (i : ℕ) (g : Gateway)
        → IsOccupied g
        → IsOccupied (record g { manager = disconnect (socket i) g.manager })
    unfolding disconnect
    disconnect-IsOccupied i g h = record {
      are_sockets = All-leave _ (socket i) g.manager.rooms h.are_sockets;
      are_running = λ j.
          let left = left_room i g.manager.rooms (has_id j) h.are_sockets in
          let before = h.are_running j in omega (arith, left.0, before);
      are_counted = λ s filled.
          let left = left_room i g.manager.rooms (of_sub s) h.are_sockets in
          let before = h.are_counted s filled in
          release_bound (socket i).sub g.manager.subs s
            (count (of_sub s) (leave_room (socket i) g.manager.rooms)) filled
            (omega (arith, left.1, before));
    }

    disconnect_all-IsOccupied :
        (dead : List WebSocket) (g : Gateway)
        → All (λ (x : WebSocket). x ≡ socket x.id) dead
        → IsOccupied g
        → IsOccupied (record g { manager = disconnect_all dead g.manager })
    unfolding disconnect_all
    disconnect_all-IsOccupied [] g are h = h
    disconnect_all-IsOccupied (x ∷ dead) g are h =
        disconnect_all-IsOccupied dead (record g { manager = disconnect x g.manager }) are.1
          (subst (λ y. IsOccupied (record g { manager = disconnect y g.manager })) (sym are.0)
            (disconnect-IsOccupied x.id g h))

    broadcast-IsOccupied :
        (takes : WebSocket → Bool) (tenant_id : ℕ) (g : Gateway)
        → IsOccupied g
        → IsOccupied (record g { manager = broadcast takes tenant_id g.manager })
    unfolding broadcast
    broadcast-IsOccupied takes tenant_id g h =
        disconnect_all-IsOccupied _ g
          (All-select (λ (x : WebSocket). x ≡ socket x.id)
            (λ (x : WebSocket). x.tenant_id == tenant_id && not (takes x)) g.manager.rooms
            h.are_sockets)
          h

    leaves-IsOccupied :
        (i : ℕ) (g : Gateway)
        → IsOccupied g
        → IsOccupied (record g {
          manager = disconnect (socket i) g.manager;
          is_running = set_running i false g.is_running;
        })
    unfolding disconnect
    leaves-IsOccupied i g h =
        let d = disconnect-IsOccupied i g h in
        record {
          are_sockets = d.are_sockets;
          are_running = λ j. elim (Bool-cases (j == i)) [
            | inl same ↦
                let once : count (has_id i) g.manager.rooms ≤ 1 =
                  (let at_most = h.are_running i in ground (arith, at_most)) in
                let left = left_room i g.manager.rooms (has_id i) h.are_sockets in
                let out = left.2 once in
                rw same (
                  subst (λ k. count (has_id k) (leave_room (socket i) g.manager.rooms) ≤ 0)
                    (sym ((==_iff j i).0 same)) (omega (arith, out)))
            | inr other ↦ rw other (d.are_running j)
          ];
          are_counted = d.are_counted;
        }

    not_there :
        (i : ℕ) (g : Gateway)
        → g.is_running i ≡ false
        → IsOccupied g
        → count (has_id i) g.manager.rooms ≡ 0
    not_there i g new h = (let at_most = rw new at (h.are_running i) in omega (arith, at_most))

    stays_out-IsOccupied :
        (i : ℕ) (g : Gateway)
        → g.is_running i ≡ false
        → IsOccupied g
        → IsOccupied (record g { is_running = set_running i false g.is_running })
    stays_out-IsOccupied i g new h = record {
      are_sockets = h.are_sockets;
      are_running = λ j. elim (Bool-cases (j == i)) [
        | inl same ↦
            let none_yet = not_there i g new h in
            rw same (
              subst (λ k. count (has_id k) g.manager.rooms ≤ 0) (sym ((==_iff j i).0 same))
                (omega (arith, none_yet)))
        | inr other ↦ rw other (h.are_running j)
      ];
      are_counted = h.are_counted;
    }

    comes_in-IsOccupied :
        (i : ℕ) (g : Gateway)
        → g.is_running i ≡ false
        → IsOccupied g
        → IsOccupied (record g {
          manager = record {
            rooms = g.manager.rooms ++ socket i ∷ [];
            subs = set_sub (socket i).sub (g.manager.subs (socket i).sub + 1) g.manager.subs;
          };
          is_running = set_running i true g.is_running;
        })
    comes_in-IsOccupied i g new h = record {
      are_sockets =
          All-append (λ (x : WebSocket). x ≡ socket x.id) g.manager.rooms _ h.are_sockets
            (ap socket (sym (named i)), tt);
      are_running = λ j. elim (Bool-cases (j == i)) [
        | inl same ↦
            let none_yet = not_there i g new h in
            let both = count-append (has_id i) g.manager.rooms (socket i ∷ []) in
            rw same (
              subst (λ k. count (has_id k) (g.manager.rooms ++ socket i ∷ []) ≤ 1)
                (sym ((==_iff j i).0 same)) (ground (arith, none_yet, both)))
        | inr other ↦
            let id_of = named i in
            let not_it : has_id j (socket i) ≡ false = ground (arith, id_of, other) in
            let both = rw not_it at (count-append (has_id j) g.manager.rooms (socket i ∷ [])) in
            let before = h.are_running j in rw other (omega (arith, both, before))
      ];
      are_counted = λ s filled.
          let before = h.are_counted s filled in
          let both = count-append (of_sub s) g.manager.rooms (socket i ∷ []) in
          elim (Bool-cases (str_eq s (socket i).sub)) [
            | inl same ↦
                let equal = same_sub g.manager.subs s (socket i).sub same in
                let one_more = rw same at both in rw same (omega (arith, before, one_more, equal))
            | inr other ↦
                let no_more = rw other at both in rw other (omega (arith, before, no_more))
          ];
    }

    enters-IsOccupied :
        (i : ℕ) (accepts : Bool) (g : Gateway)
        → g.is_running i ≡ false
        → IsOccupied g
        → IsOccupied (record g {
          manager = (connect accepts (socket i) g.manager).1;
          is_running =
              set_running i (was_taken_in (connect accepts (socket i) g.manager).0) g.is_running;
        })
    unfolding connect
    enters-IsOccupied i false g new h = elim (Bool-cases (leb 5 (g.manager.subs (socket i).sub))) [
      | inl full ↦ rw full (stays_out-IsOccupied i g new h)
      | inr room ↦ rw room (stays_out-IsOccupied i g new h)
    ]
    enters-IsOccupied i true g new h = elim (Bool-cases (leb 5 (g.manager.subs (socket i).sub))) [
      | inl full ↦ rw full (stays_out-IsOccupied i g new h)
      | inr room ↦
          let gone : find? (has_id (socket i).id) g.manager.rooms ≡ none =
            subst (λ k. find? (has_id k) g.manager.rooms ≡ none) (sym (named i))
              (none_found i g.manager.rooms (not_there i g new h)) in
          rw room (rw gone (comes_in-IsOccupied i g new h))
    ]

    -- Which sockets have come is not asked.
    come-IsOccupied :
        (g : Gateway) (has_come : ℕ → Bool)
        → IsOccupied g
        → IsOccupied (record g { has_come = has_come })
    come-IsOccupied g has_come h = record {
      are_sockets = h.are_sockets;
      are_running = h.are_running;
      are_counted = h.are_counted;
    }

    pub Reachable-IsOccupied : {g : Gateway} → Reachable socket g → IsOccupied g
    Reachable-IsOccupied starts = at_start-IsOccupied
    Reachable-IsOccupied (goes_on before (enters g i accepts new)) =
        come-IsOccupied _ _ (enters-IsOccupied i accepts g new (Reachable-IsOccupied before))
    Reachable-IsOccupied (goes_on before (leaves g i running)) =
        leaves-IsOccupied i g (Reachable-IsOccupied before)
    Reachable-IsOccupied (goes_on before (drops g i came)) =
        disconnect-IsOccupied i g (Reachable-IsOccupied before)
    Reachable-IsOccupied (goes_on before (broadcasts g takes tenant_id)) =
        broadcast-IsOccupied takes tenant_id g (Reachable-IsOccupied before)
