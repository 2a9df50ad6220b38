-- ===== src/Gateway/Counting.antt =====
-- The counts of the subjects against the sockets in the rooms.
use argus_services.Prelude.{
  ℕ, String, Bool, true, false, ◌==◌, ◌+◌, ◌-◌, ◌≤◌, ◌<◌, ◌≡◌, refl, sym, ap, subst, suc, ◌∙◌, leb,
  ltb, str_eq, eq_iff, List, [], ◌∷◌, ◌++◌, find?, some, count, count-append, Bool-cases, inl, inr,
  arith, if◌then◌else◌,
}
use argus_services.Gateway.{
  WebSocket, ConnectionManager, set_sub, has_socket, remove_socket, connect, leave_room, release,
  disconnect, max_connections_per_sub,
}

abbrev pub of_sub : String → WebSocket → Bool
of_sub s ws = str_eq s ws.sub

-- Each subject is counted with the number of its sockets, and with no more than the limit.
abbrev pub Counted : ConnectionManager → Type 0
Counted m =
    ((s : String) → str_eq s "" ≡ false → m.subs s ≡ count (of_sub s) m.rooms)
    × ((s : String) → m.subs s ≤ max_connections_per_sub)

pub same_sub : (subs : String → ℕ) (s t : String) → str_eq s t ≡ true → subs t ≡ subs s
same_sub subs s t h = ap subs (sym ((eq_iff s t).0 h))

-- One more socket of a subject, and one more in its count.
counted_in :
    (ws : WebSocket) (subs : String → ℕ) (rooms : List WebSocket) (s : String)
    → subs s ≡ count (of_sub s) rooms
    → set_sub ws.sub (subs ws.sub + 1) subs s ≡ count (of_sub s) (rooms ++ ws ∷ [])
counted_in ws subs rooms s h = elim (Bool-cases (str_eq s ws.sub)) [
  | inl same ↦ rw same (
      rw (count-append (of_sub s) rooms (ws ∷ []))
        (rw same (rw (same_sub subs s ws.sub same) (omega (arith, h)))))
  | inr other ↦
      rw other (rw (count-append (of_sub s) rooms (ws ∷ [])) (rw other (omega (arith, h))))
]

within_limit :
    (sub : String) (n : ℕ) (subs : String → ℕ) (s : String)
    → n ≤ 5
    → subs s ≤ 5
    → set_sub sub n subs s ≤ 5
within_limit sub n subs s h k = ground arith

-- What one socket out of the rooms takes off a count.
pub count-remove :
    (p : WebSocket → Bool) (ws x : WebSocket) (rooms : List WebSocket)
    → find? (λ (y : WebSocket). y.id == ws.id) rooms ≡ some x
    → count p rooms ≡ (if p x then 1 else 0) + count p (remove_socket ws rooms)
unfolding remove_socket
count-remove p ws x [] h = cc
count-remove p ws x (y ∷ ys) h = elim (Bool-cases (y.id == ws.id)) [
  | inl found ↦
      (let k = rw found at h in
        let same : y ≡ x = cc in
        rw found (
          subst
            (λ z.
              (if p y then suc (count p ys) else count p ys) ≡ (if p z then 1 else 0) + count p ys)
            same (ground arith)))
  | inr later ↦ rw later (ground (arith, count-remove p ws x ys (rw later at h)))
]

-- A handshake that the rules allow and one that they refuse both leave the counts right, if the socket
-- is a new one.
pub connect-Counted :
    (ws : WebSocket) (m : ConnectionManager) (accepts : Bool)
    → has_socket ws m.rooms ≡ false
    → Counted m
    → Counted (connect accepts ws m).1
unfolding connect
connect-Counted ws m false new counted = elim (Bool-cases (leb 5 (m.subs ws.sub))) [
  | inl full ↦ rw full counted
  | inr room ↦ rw room counted
]
connect-Counted ws m true new counted = elim (Bool-cases (leb 5 (m.subs ws.sub))) [
  | inl full ↦ rw full counted
  | inr room ↦ rw room (
    λ s filled. rw new (counted_in ws m.subs m.rooms s (counted.0 s filled)),
    λ s. within_limit ws.sub (m.subs ws.sub + 1) m.subs s (ground arith) (counted.1 s),
  )
]

release_within :
    (sub : String) (subs : String → ℕ) (s : String)
    → ((t : String) → subs t ≤ 5)
    → release sub subs s ≤ 5
unfolding release
release_within sub subs s h = ground (arith, h s, h sub)

release_other :
    (sub : String) (subs : String → ℕ) (s : String)
    → str_eq s sub ≡ false
    → release sub subs s ≡ subs s
unfolding release
release_other sub subs s h = ground arith

pub release_own :
    (subs : String → ℕ) (s : String) (n : ℕ)
    → str_eq s "" ≡ false
    → subs s ≡ 1 + n
    → release s subs s ≡ n
unfolding release
release_own subs s n filled h =
    let some_left : ltb 0 (subs s) ≡ true = ground arith in
    rw filled (rw some_left (rw ((eq_iff s s).1 refl) (omega arith)))

counted_out :
    (ws : WebSocket) (subs : String → ℕ) (rooms : List WebSocket) (s : String)
    → str_eq s "" ≡ false
    → find? (λ (y : WebSocket). y.id == ws.id) rooms ≡ some ws
    → subs s ≡ count (of_sub s) rooms
    → release ws.sub subs s ≡ count (of_sub s) (leave_room ws rooms)
unfolding release leave_room
counted_out ws subs rooms s filled h k =
    let removed = count-remove (of_sub s) ws ws rooms h in
    rw h (elim (Bool-cases (str_eq s ws.sub)) [
      | inl same ↦
          let e = (eq_iff s ws.sub).0 same in
          subst (λ t. release t subs s ≡ count (of_sub s) (remove_socket ws rooms)) e
            (release_own subs s _ filled (k ∙ (rw same at removed)))
      | inr other ↦
          let out : subs s ≡ count (of_sub s) (remove_socket ws rooms) =
            (let c = rw other at removed in omega (arith, k, c)) in
          release_other ws.sub subs s other ∙ out
    ])

-- A socket that is in the rooms and leaves them once leaves the counts right.
pub disconnect-Counted :
    (ws : WebSocket) (m : ConnectionManager)
    → find? (λ (y : WebSocket). y.id == ws.id) m.rooms ≡ some ws
    → Counted m
    → Counted (disconnect ws m)
unfolding disconnect
disconnect-Counted ws m h counted = (
  λ s filled. counted_out ws m.subs m.rooms s filled h (counted.0 s filled),
  λ s. release_within ws.sub m.subs s counted.1,
)

-- A socket that `broadcast` has dropped is disconnected once more when its handler ends. If its subject
-- still has sockets, the count is then one less than their number.
pub disconnect_absent :
    (ws : WebSocket) (m : ConnectionManager)
    → has_socket ws m.rooms ≡ false
    → str_eq ws.sub "" ≡ false
    → 0 < m.subs ws.sub
    → Counted m
    → (disconnect ws m).subs ws.sub + 1 ≡ count (of_sub ws.sub) (disconnect ws m).rooms
unfolding disconnect leave_room
disconnect_absent ws m gone filled some_left counted = rw gone (
    let own = release_own m.subs ws.sub (m.subs ws.sub - 1) filled (omega arith) in
    omega (arith, own, counted.0 ws.sub filled))
