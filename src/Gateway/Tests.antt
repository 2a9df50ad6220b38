-- ===== src/Gateway/Tests.antt =====
-- Two sockets of one subject.
use argus_services.Prelude.{
  Bool, not, some, none, ◌∷◌, ◌==◌, if◌then◌else◌, ℕ, zero, suc, ◌≡◌, ◌≤◌, refl, ◌+◌, arith, true,
  false, ◌||◌, [], count, str_eq,
}
use argus_services.Exec.{ok}
use argus_services.Domain.Json.{Json, str}
use argus_services.Gateway.Pubsub.{Texts, Feed, behind_colon, run_pubsub_listener}
use argus_services.Gateway.Delivery.{Reads, polls_of, run_pubsub_listener-delivers}
use argus_services.Gateway.{WebSocket, connect, disconnect, broadcast}
use argus_services.Gateway.Running.{
  Gateway, at_start, set_running, was_taken_in, enters, leaves, Reachable, starts, goes_on,
}
use argus_services.Gateway.Ending.{all_ended, refused_only_full}
use argus_services.Gateway.Dropping.{dropped_twice}
use argus_services.Gateway.Counting.{Counted, of_sub, connect-Counted}

abbrev socket : ℕ → WebSocket
socket id = record { id = id; tenant_id = 7; sub = "jo" }

-- The gateway after so many sockets of the subject came in.
abbrev after : ℕ → Gateway
after zero = at_start
after (suc n) =
    let before = after n in
    record {
      manager = (connect true (socket n) before.manager).1;
      is_running =
          set_running n (was_taken_in (connect true (socket n) before.manager).0) before.is_running;
      has_come =
          set_running n
            (was_taken_in (connect true (socket n) before.manager).0 || before.has_come n)
            before.has_come;
    }

in_twice : Reachable socket (after 2)
unfolding connect
in_twice = goes_on (goes_on starts (enters (after 0) 0 true refl)) (enters (after 1) 1 true refl)

after-Counted : Counted (after 2).manager
unfolding connect
after-Counted =
    connect-Counted (socket 1) (after 1).manager true refl
      (connect-Counted (socket 0) (after 0).manager true refl ((λ s h. refl), λ s. omega arith))

abbrev but_one : WebSocket → Bool
but_one x = not (x.id == 1)

dropped_twice_example :
    (disconnect (socket 1) (broadcast but_one 7 (after 2).manager)).subs "jo" + 1
    ≡ count (of_sub "jo") (disconnect (socket 1) (broadcast but_one 7 (after 2).manager)).rooms
unfolding connect
dropped_twice_example =
    dropped_twice socket (λ i. refl) (after 2) 1 but_one in_twice after-Counted refl refl refl
      (omega arith)

-- The first socket comes in and its handler ends.
abbrev come_and_gone : Gateway
come_and_gone = record (after 1) {
  manager = disconnect (socket 0) (after 1).manager;
  is_running = set_running 0 false (after 1).is_running;
}

came_and_went : Reachable socket come_and_gone
unfolding connect
came_and_went = goes_on (goes_on starts (enters at_start 0 true refl)) (leaves (after 1) 0 refl)

all_over : (i : ℕ) → come_and_gone.is_running i ≡ false
all_over i = ground arith

all_ended_example :
    (come_and_gone.manager.rooms ≡ [])
    × ((i : ℕ)
        → str_eq (socket i).sub "" ≡ false
        → (connect true (socket i) come_and_gone.manager).0 ≡ ok true)
all_ended_example = all_ended socket (λ i. refl) come_and_gone came_and_went all_over

-- Five sockets of the subject, and a sixth.
five_in : Reachable socket (after 5)
unfolding connect
five_in =
    goes_on
      (goes_on
        (goes_on
          (goes_on (goes_on starts (enters (after 0) 0 true refl)) (enters (after 1) 1 true refl))
          (enters (after 2) 2 true refl))
        (enters (after 3) 3 true refl))
      (enters (after 4) 4 true refl)

sixth : (connect true (socket 5) (after 5).manager).0 ≡ ok false
unfolding connect
sixth = refl

refused_only_full_example : 5 ≤ count (of_sub "jo") (after 5).manager.rooms
refused_only_full_example = refused_only_full socket (λ i. refl) (after 5) 5 true five_in refl sixth

abbrev note : Json
note = str "warning"

abbrev wire : Texts
wire = record {
  dumps = λ v. "w";
  loads = λ s. some note;
  id_text = λ t. if t == 7 then "7" else "8";
  id_of = λ s. if str_eq s "7" then some 7 else some 8;
  decode = λ b. none;
}

abbrev watcher_socket : WebSocket
watcher_socket = record { id = 1; tenant_id = 7; sub = "jo" }

abbrev open_feed : Feed
open_feed = record {
  manager = record { rooms = watcher_socket ∷ []; subs = λ s. 1 };
  inbox = λ i. [];
}

run_pubsub_listener-delivers_example :
    (run_pubsub_listener wire
        (λ s. true)
        (polls_of wire (λ s. true) ((7, note) ∷ (8, note) ∷ (7, note) ∷ []))
        open_feed).inbox
      1
    ≡ note ∷ note ∷ []
unfolding behind_colon
run_pubsub_listener-delivers_example =
    run_pubsub_listener-delivers wire (λ s. true) watcher_socket
      ((7, note) ∷ (8, note) ∷ (7, note) ∷ []) open_feed refl ((λ h. refl), tt)
      (seven, (eight, (seven, tt)))
  where
    seven : Reads wire 7 note
    seven = record { loads-dumps = refl; id_of-text = refl; no_colon = refl }

    eight : Reads wire 8 note
    eight = record { loads-dumps = refl; id_of-text = refl; no_colon = refl }
