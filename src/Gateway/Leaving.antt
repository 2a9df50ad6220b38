-- ===== src/Gateway/Leaving.antt =====
-- Rooms and counts of runtime/src/argus/ws/gateway.py when a socket leaves.
use argus_services.Prelude.{
  ℕ, String, Bool, false, ◌==◌, ◌+◌, ◌≤◌, ◌≡◌, refl, subst, ltb, str_eq, eq_iff, none, List, [],
  ◌∷◌, find?, All, count, Bool-cases, inl, inr, arith, if◌then◌else◌,
}
use argus_services.Gateway.{WebSocket, has_socket, remove_socket, leave_room, release}
use argus_services.Gateway.Counting.{same_sub}

abbrev pub has_id : ℕ → WebSocket → Bool
has_id i ws = ws.id == i

pub All-remove :
    (P : WebSocket → Type 0) (ws : WebSocket) (rooms : List WebSocket)
    → All P rooms
    → All P (remove_socket ws rooms)
unfolding remove_socket
All-remove P ws [] h = tt
All-remove P ws (x ∷ xs) h = elim (Bool-cases (x.id == ws.id)) [
  | inl found ↦ rw found h.1
  | inr other ↦ rw other (h.0, All-remove P ws xs h.1)
]

pub All-leave :
    (P : WebSocket → Type 0) (ws : WebSocket) (rooms : List WebSocket)
    → All P rooms
    → All P (leave_room ws rooms)
unfolding leave_room
All-leave P ws rooms h = elim (Bool-cases (has_socket ws rooms)) [
  | inl there ↦ rw there (All-remove P ws rooms h)
  | inr gone ↦ rw gone h
]

pub none_counted :
    (i : ℕ) (rooms : List WebSocket) → find? (has_id i) rooms ≡ none → count (has_id i) rooms ≡ 0
none_counted i [] h = refl
none_counted i (x ∷ xs) h = ground (arith, h, none_counted i xs)

pub none_found :
    (i : ℕ) (rooms : List WebSocket) → count (has_id i) rooms ≡ 0 → find? (has_id i) rooms ≡ none
none_found i [] h = refl
none_found i (x ∷ xs) h = ground (arith, h, none_found i xs)

pub release_less : (sub : String) (subs : String → ℕ) (s : String) → release sub subs s ≤ subs s
unfolding release
release_less sub subs s = elim (Bool-cases (str_eq s sub)) [
  | inl same ↦ ground (arith, same, same_sub subs s sub same)
  | inr other ↦ ground (arith, other)
]

pub release_one_less :
    (subs : String → ℕ) (s : String) (n : ℕ)
    → str_eq s "" ≡ false
    → subs s ≤ 1 + n
    → release s subs s ≤ n
unfolding release
release_one_less subs s n filled h = elim (Bool-cases (ltb 0 (subs s))) [
  | inl some_left ↦ rw filled (rw some_left (rw ((eq_iff s s).1 refl) (omega (arith, h))))
  | inr none_left ↦ rw filled (rw none_left (ground (arith, none_left)))
]

-- At most one less for the subject, and none less for the others.
pub release_bound :
    (sub : String) (subs : String → ℕ) (s : String) (n : ℕ)
    → str_eq s "" ≡ false
    → subs s ≤ (if str_eq s sub then 1 else 0) + n
    → release sub subs s ≤ n
release_bound sub subs s n filled h = elim (Bool-cases (str_eq s sub)) [
  | inl same ↦
      subst (λ t. release t subs s ≤ n) ((eq_iff s sub).0 same)
        (release_one_less subs s n filled (rw same at h))
  | inr other ↦
      let less = release_less sub subs s in let bound = rw other at h in omega (arith, less, bound)
]
