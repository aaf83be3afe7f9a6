-- ===== src/Platform.antt =====
-- What surrounds one request: the settings, the request, the clock, the session, and the parts of
-- the platform that the repository calls and does not implement.
--
-- Times are seconds, and the clock stands still while one request is served.
use power_adapter_blogs.Shared.{ℕ, String, Bool, Option}
use power_adapter_blogs.Models.{User, ClientCertificateBinding, Database}

-- A setting or a session entry as `int(value)` or `float(value)` finds it.
pub data Field : Type 0 where
  absent malformed : Field
  value : ℕ → Field

pub record Settings : Type 0 where
  pub mfa_enforcement_enabled : Bool
  pub mtls_enforcement_enabled : Bool
  pub mfa_privileged_session_ttl : ℕ
  pub mfa_super_admin_idle_ttl : ℕ
  pub mfa_dashboard_remember_ttl : ℕ
  pub mfa_challenge_ttl : ℕ
  pub mfa_totp_binding_ttl : ℕ
  pub membership_step_up_ttl : Field

-- The dictionaries that accounts/authn/mfa_session.py keeps in the session. A device's
-- or a certificate's key is written by the code alone, as the text of a key, or left out; another text,
-- which `str` reads and at which the query raises, is left out of the model.
pub record PrivilegedValue : Type 0 where
  pub user_id : Field
  pub device_id : Option ℕ
  pub auth_version : Field
  pub verified_at : Field
  pub certificate_binding_id : Option ℕ
  pub certificate_auth_version : Field
  pub last_seen_at : Field

pub record RememberValue : Type 0 where
  pub user_id : Field
  pub device_id : Option ℕ
  pub auth_version : Field
  pub verified_at : Field
  pub expires_at : Field

pub record RecoveryValue : Type 0 where
  pub user_id : Field
  pub auth_version : Field
  pub issued_at : Field

pub record EnrollmentValue : Type 0 where
  pub user_id : Field
  pub issued_at : Field

-- `PENDING_KEY` holds the user whose second factor is awaited, and since when.
pub record PendingValue : Type 0 where
  pub user_id : Field
  pub issued_at : Field

pub record Session : Type 0 where
  pub session_key : Option String
  pub privileged : Option PrivilegedValue
  pub dashboard_remember : Option RememberValue
  pub recovery : Option RecoveryValue
  pub enrollment : Option EnrollmentValue
  pub pending : Option PendingValue

-- One request. `fresh_session_key` is the key that saving a session without one gives it.
pub record Request : Type 0 where
  pub user : User
  pub client_certificate_binding : Option ClientCertificateBinding
  pub fresh_session_key : String
  pub settings : Settings
  pub now : ℕ

-- The payload of a step-up token; a number stands for its text.
pub record Payload : Type 0 where
  pub user_id : ℕ
  pub session : String
  pub action : String
  pub target : String
  pub nonce : String
  pub verified_at : ℕ

-- `loads token max_age now` is `signing.loads` at the time `now`, `none` where it raises
-- `BadSignature`. `cache_add key timeout now` is `cache.add` at the time `now`.
pub record Platform : Type 1 where
  pub Token : Type 0
  pub Cache : Type 0
  pub has_perm : User → String → Bool
  pub loads : Token → ℕ → ℕ → Option Payload
  pub sha256 : String → String
  pub cache_add : String → ℕ → ℕ → Cache → Bool × Cache

-- The state that a request works on.
pub record World (p : Platform) : Type 0 where
  pub db : Database
  pub cache : p.Cache
  pub session : Session
