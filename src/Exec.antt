-- ===== src/Exec.antt =====
-- How the handlers, services and workers run: an action over a state returns a value or raises. What
-- was written before a raise stays written, so the state comes back beside the exception too.
pub mod Triple
pub mod Fallible
use argus_services.Prelude.{ℕ, String}

-- The exceptions that the modelled code raises or lets pass.
pub data Exn : Type 0 where
  -- `HTTPException(status_code, detail)`
  http_exception : ℕ → String → Exn
  value_error : String → Exn
  type_error : String → Exn
  attribute_error : String → Exn
  key_error : String → Exn
  runtime_error : String → Exn
  integrity_error : String → Exn
  index_error zero_division_error : Exn
  -- `jwt.ExpiredSignatureError`, the other `jwt.InvalidTokenError`s, and `jwt.PyJWKClientError`
  expired_signature invalid_token jwk_client_error : Exn
  -- raised by a service outside the repository
  service_error : String → Exn

pub data Result {ℓ} (A : Type ℓ) : Type ℓ where
  ok : A → Result A
  raised : Exn → Result A

abbrev pub Exec {ℓ} : Type ℓ → Type ℓ → Type ℓ
Exec S A = S → Result A × S

module _ {ℓ} {S A : Type ℓ} where
  abbrev pub pure : A → Exec S A
  pure a s = (ok a, s)

  abbrev pub raise : Exn → Exec S A
  raise e s = (raised e, s)

  abbrev pub lift : Result A → Exec S A
  lift r s = (r, s)

  abbrev pub gets : (S → A) → Exec S A
  gets f s = (ok (f s), s)

module _ {ℓ} {S A B : Type ℓ} where
  abbrev pub continue : Result A → (A → Exec S B) → Exec S B
  continue (ok a) f s = f a s
  continue (raised e) f s = (raised e, s)

  infixl 10 ◌>>=◌ ◌>>◌
  abbrev pub ◌>>=◌ : Exec S A → (A → Exec S B) → Exec S B
  ◌>>=◌ m f s = continue (m s).0 f (m s).1

  abbrev pub ◌>>◌ : Exec S A → Exec S B → Exec S B
  m >> n = m >>= λ _. n

-- `self.x = f(self.x)`
abbrev pub modify : {S : Type 0} → (S → S) → Exec S Unit
modify f s = (ok tt, f s)
