-- ===== src/World/Redis.antt =====
-- runtime/src/argus/services/redis.py: the keys that the code uses and the client that it calls. The
-- server is not part of the repository, so it is an interface: what a read returns right after a
-- write, within the seconds that the write gives its key. A key may lapse between two calls: then the
-- later call starts from a state in which the key is read as `none`, as after `delete`.
use argus_services.Prelude.{
  ℕ, ◌==◌, ◌≡◌, refl, ap, Bool, true, false, ◌&&◌, eq_opt, Option, none, some, List, [], ◌∷◌, arith,
  if◌then◌else◌,
}
use argus_services.Domain.Json.{Text}

-- The formatted keys: ACTIVE_MODE_KEY, IDEMPOTENCY_KEY and OPEN_DECISION_KEY.
pub data Key : Type 0 where
  active_mode : ℕ → Key
  ingest_idem : ℕ → ℕ → Key
  decision_open : ℕ → ℕ → Option ℕ → Key

abbrev pub key_eq : Key → Key → Bool
key_eq (active_mode c) (active_mode c') = c == c'
key_eq (ingest_idem t i) (ingest_idem t' i') = t == t' && i == i'
key_eq (decision_open t c r) (decision_open t' c' r') = t == t' && c == c' && eq_opt r r'
key_eq _ _ = false

pub record KeyStore : Type 1 where
  pub State : Type 0
  pub get_key : Key → State → Option Text
  -- `set_key(key, value, ex=seconds)`
  pub set_key : Key → Text → ℕ → State → State
  pub delete_key : Key → State → State
  -- the seconds that a key is held for, as of its last write
  pub held_for : Key → State → Option ℕ
  pub get-set :
      (k j : Key) (v : Text) (ex : ℕ) (s : State)
      → get_key j (set_key k v ex s) ≡ (if key_eq k j then some v else get_key j s)
  pub get-delete :
      (k j : Key) (s : State)
      → get_key j (delete_key k s) ≡ (if key_eq k j then none else get_key j s)
  pub held-set :
      (k j : Key) (v : Text) (ex : ℕ) (s : State)
      → held_for j (set_key k v ex s) ≡ (if key_eq k j then some ex else held_for j s)

module _ (K : KeyStore) where
  open K use {State, get_key, set_key}

  -- `set_key_nx`: SET with NX, and whether the key was set.
  unfoldable pub set_key_nx : Key → Text → ℕ → State → Bool × State
  set_key_nx k v ex s = elim (get_key k s) [ none ↦ (true, set_key k v ex s) | some _ ↦ (false, s) ]

-- A store that meets the laws: an association list.
unfoldable pub get_assoc : Key → List (Key × Text × ℕ) → Option Text
get_assoc k [] = none
get_assoc k ((j, v, ex) ∷ rest) = if key_eq j k then some v else get_assoc k rest

unfoldable pub without : Key → List (Key × Text × ℕ) → List (Key × Text × ℕ)
without k [] = []
without k ((j, v, ex) ∷ rest) =
    let others = without k rest in if key_eq j k then others else (j, v, ex) ∷ others

pub get_assoc-set :
    (k j : Key) (v : Text) (ex : ℕ) (s : List (Key × Text × ℕ))
    → get_assoc j ((k, v, ex) ∷ s) ≡ (if key_eq k j then some v else get_assoc j s)
unfolding get_assoc
get_assoc-set k j v ex s = refl

unfoldable pub held_assoc : Key → List (Key × Text × ℕ) → Option ℕ
held_assoc k [] = none
held_assoc k ((j, v, ex) ∷ rest) = if key_eq j k then some ex else held_assoc k rest

pub held_assoc-set :
    (k j : Key) (v : Text) (ex : ℕ) (s : List (Key × Text × ℕ))
    → held_assoc j ((k, v, ex) ∷ s) ≡ (if key_eq k j then some ex else held_assoc j s)
unfolding held_assoc
held_assoc-set k j v ex s = refl

eq_opt_sound : (a b : Option ℕ) → eq_opt a b ≡ true → a ≡ b
eq_opt_sound none none h = refl
eq_opt_sound (some a) (some b) h = ground arith
eq_opt_sound none (some b) h = cc
eq_opt_sound (some a) none h = cc

pub key_eq_sound : (i k : Key) → key_eq i k ≡ true → i ≡ k
key_eq_sound (active_mode c) (active_mode c') h = ground arith
key_eq_sound (ingest_idem t i) (ingest_idem t' i') h = ground arith
key_eq_sound (decision_open t c r) (decision_open t' c' r') h = ground (arith, eq_opt_sound r r')
key_eq_sound (active_mode _) (ingest_idem _ _) h = cc
key_eq_sound (active_mode _) (decision_open _ _ _) h = cc
key_eq_sound (ingest_idem _ _) (active_mode _) h = cc
key_eq_sound (ingest_idem _ _) (decision_open _ _ _) h = cc
key_eq_sound (decision_open _ _ _) (active_mode _) h = cc
key_eq_sound (decision_open _ _ _) (ingest_idem _ _) h = cc

pub eq_opt_refl : (a : Option ℕ) → eq_opt a a ≡ true
eq_opt_refl none = refl
eq_opt_refl (some a) = ground arith

pub key_eq_refl : (k : Key) → key_eq k k ≡ true
key_eq_refl (active_mode c) = ground arith
key_eq_refl (ingest_idem t i) = ground arith
key_eq_refl (decision_open t c r) = ground (arith, eq_opt_refl r)

-- Equal keys are equal to the same keys.
key_eq_trans : (i k j : Key) → key_eq i k ≡ true → key_eq i j ≡ key_eq k j
key_eq_trans i k j h = ap (λ x. key_eq x j) (key_eq_sound i k h)

pub get_assoc-without :
    (k j : Key) (s : List (Key × Text × ℕ))
    → get_assoc j (without k s) ≡ (if key_eq k j then none else get_assoc j s)
unfolding get_assoc without
get_assoc-without k j [] = ground arith
get_assoc-without k j ((i, v, ex) ∷ s) = ground (arith, get_assoc-without k j s, key_eq_trans i k j)

-- The witnesses run on this store.
abbrev pub assoc_store : KeyStore
assoc_store = record {
  State = List (Key × Text × ℕ);
  get_key = get_assoc;
  set_key = λ k v ex s. (k, v, ex) ∷ s;
  delete_key = without;
  held_for = held_assoc;
  get-set = get_assoc-set;
  get-delete = get_assoc-without;
  held-set = held_assoc-set;
}
