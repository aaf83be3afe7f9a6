-- ===== src/Totp.antt =====
-- accounts/authn/mfa_services.py: the life of a user's TOTP device and its recovery codes.
--
-- An account is what the services read and write of one user. A service whose body is a transaction
-- is `atomically`; the others raise after theirs. Random values and the clock are arguments. The services
-- write values that `full_clean` accepts.
pub mod Enrollment
pub mod Challenge
pub mod Calls
pub mod Moves
pub mod EnrollmentMoves
pub mod ChallengeMoves
pub mod Lifecycle
pub mod Replay
pub mod Refusals
use power_adapter_blogs.Shared.{
  ℕ, suc, zero, ◌+◌, ◌-◌, String, Bool, true, false, not, ◌&&◌, ◌||◌, Option, none, some, List, [],
  ◌∷◌, ◌++◌, ◌==◌, leb, ltb, if◌then◌else◌, any, find, select, update, text_eq,
}
use power_adapter_blogs.Text.{is_empty, strip}
use power_adapter_blogs.Access.{manager, role_eq}
use power_adapter_blogs.Models.{
  User, BoardMembership, Database, DeviceStatus, device_pending, device_active, device_revoked,
}
use power_adapter_blogs.Session.{status_is_active, status_is_revoked}

-- `_decrypt_seed`: it raises for a keyring that is not there, and for a secret it cannot decrypt.
pub data Decrypted (Seed : Type 0) : Type 0 where
  keyring_missing unreadable : Decrypted Seed
  seed : Seed → Decrypted Seed

-- `mfa_crypto`, pyotp, with its `strings_equal`, and the password hasher. A secret is decrypted for a user and a device.
pub record Crypto : Type 1 where
  pub Secret : Type 0
  pub Seed : Type 0
  pub encrypt : Seed → (user_id device_id : ℕ) → Secret
  pub decrypt : Secret → (user_id device_id : ℕ) → Decrypted Seed
  pub timecode : ℕ → ℕ
  pub generate_otp : Seed → ℕ → String
  pub codes_equal : String → String → Bool
  pub check_password : String → String → Bool

-- The settings; `none` is a value that `int()` refuses, or no text, and a negative number.
pub record MfaSettings : Type 0 where
  pub keyring_ids : Option (List String)
  pub active_key_id : String
  pub binding_ttl : Option ℕ
  pub valid_window : Option ℕ
  pub recovery_code_count : Option ℕ
  pub issuer : Option String

unfoldable pub integer_setting : Option ℕ → ℕ → ℕ → Option ℕ
integer_setting none low high = none
integer_setting (some n) low high = if leb low n && leb n high then some n else none

unfoldable pub text_length : String → ℕ
text_length String.[] = 0
text_length (String.◌∷◌ c s) = suc (text_length s)

unfoldable pub has_issuer : Option String → Bool
unfolding text_length
has_issuer none = false
has_issuer (some s) = not (is_empty (strip s)) && leb (text_length s) 64

-- `MfaTotpDevice`
pub record TotpDevice (crypto : Crypto) : Type 0 where
  pub pk : ℕ
  pub user_id : ℕ
  pub status : DeviceStatus
  pub secret : crypto.Secret
  pub binding_expires_at : ℕ
  pub confirmed_at : Option ℕ
  pub revoked_at : Option ℕ
  pub last_accepted_step : Option ℕ
  pub auth_version : ℕ

pub record MfaRecoveryCode : Type 0 where
  pub pk : ℕ
  pub code_digest : String
  pub used_at : Option ℕ

-- An event of `_audit`, with its reason as the service gives it
pub record MfaAudit : Type 0 where
  pub name : String
  pub device_id : ℕ
  pub status : DeviceStatus
  pub auth_version : ℕ
  pub reason : String

pub record Account (crypto : Crypto) : Type 0 where
  pub device : Option (TotpDevice crypto)
  pub recovery_codes : List MfaRecoveryCode
  pub audit : List MfaAudit

-- A service raises `MfaServiceError` with this reason, or returns; the account is what it leaves.
pub data Served (crypto : Crypto) (B : Type 0) : Type 0 where
  raises : String → Account crypto → Served crypto B
  returns : B → Account crypto → Served crypto B

unfoldable pub account_after : {crypto : Crypto} {B : Type 0} → Served crypto B → Account crypto
account_after (raises reason a) = a
account_after (returns b a) = a

-- `@transaction.atomic`: an exception that leaves the block takes back what it has written, the rows
-- of the audit outbox included.
unfoldable pub atomically :
    {crypto : Crypto} {B : Type 0} → Account crypto → Served crypto B → Served crypto B
atomically a (raises reason b) = raises reason a
atomically a (returns r b) = returns r b

-- `_is_enrollment_eligible`
unfoldable pub is_enrollment_eligible : Database → User → Bool
is_enrollment_eligible db user =
    user.is_active
    && ((user.is_superuser || user.is_dashboard_user)
        || any
            (λ (m : BoardMembership).
              m.user_id == user.pk && (role_eq m.role manager && m.is_active))
            db.memberships)

-- `_require_self_service_actor` does not raise.
unfoldable pub is_self_service : Database → User → User → Bool
unfolding is_enrollment_eligible
is_self_service db user actor = actor.pk == user.pk && is_enrollment_eligible db user

unfoldable pub is_unused : MfaRecoveryCode → Bool
is_unused code = elim code.used_at [ none ↦ true | some t ↦ false ]

-- `_matching_step` raises `config_invalid`, or returns.
pub data Matched : Type 0 where
  bad_window no_match : Matched
  match_at : ℕ → Matched

-- The steps from a first one on
unfoldable pub steps_from : ℕ → ℕ → List ℕ
steps_from first zero = []
steps_from first (suc n) = first ∷ steps_from (first + 1) n

-- `range(-window, window + 1)` about the current step, the negative steps left out
unfoldable pub window_steps : ℕ → ℕ → List ℕ
unfolding steps_from
window_steps current window =
    steps_from (current - window) (suc (current + window) - (current - window))

unfoldable pub matched : Option ℕ → Matched
matched none = no_match
matched (some step) = match_at step

-- The recovery codes that `_new_recovery_codes` and `bulk_create` make
unfoldable pub new_recovery_codes : (ℕ → String) → ℕ → ℕ → List MfaRecoveryCode
new_recovery_codes digest first zero = []
new_recovery_codes digest first (suc n) =
    record { pk = first; code_digest = digest first; used_at = none }
    ∷ new_recovery_codes digest (first + 1) n

-- The step has been accepted before: `matched_step <= device.last_accepted_step`.
unfoldable pub is_replay : ℕ → Option ℕ → Bool
is_replay step none = false
is_replay step (some last) = leb step last

unfoldable pub matching_step : (crypto : Crypto) → MfaSettings → crypto.Seed → String → ℕ → Matched
unfolding integer_setting window_steps matched
matching_step crypto settings s code now = elim (integer_setting settings.valid_window 0 1) [
  | none ↦ bad_window
  | some window ↦ matched (
      find (λ step. crypto.codes_equal (crypto.generate_otp s step) code)
        (window_steps (crypto.timecode now) window))
]

unfoldable pub is_pending_device : DeviceStatus → Bool
is_pending_device device_pending = true
is_pending_device _ = false

-- The settings that an enrollment reads: the reason for which it raises, or the time to live
pub data EnrollmentSettings : Type 0 where
  refused_settings : String → EnrollmentSettings
  accepted_settings : (binding_ttl : ℕ) → EnrollmentSettings

unfoldable pub enrollment_limits : MfaSettings → EnrollmentSettings
unfolding integer_setting has_issuer
enrollment_limits settings = elim (integer_setting settings.binding_ttl 60 3600) [
  | none ↦ refused_settings "config_invalid"
  | some ttl ↦ elim (integer_setting settings.valid_window 0 1) [
    | none ↦ refused_settings "config_invalid"
    | some window ↦ elim (integer_setting settings.recovery_code_count 10 10) [
      | none ↦ refused_settings "config_invalid"
      | some count ↦
          if has_issuer settings.issuer
          then accepted_settings ttl
          else refused_settings "config_invalid"
    ]
  ]
]

unfoldable pub enrollment_settings : MfaSettings → EnrollmentSettings
unfolding enrollment_limits
enrollment_settings settings = elim settings.keyring_ids [
  | none ↦ refused_settings "keyring_unavailable"
  | some ids ↦
      if is_empty settings.active_key_id
      then refused_settings "keyring_unavailable"
      else if not (any (text_eq settings.active_key_id) ids)
      then refused_settings "keyring_unavailable"
      else enrollment_limits settings
]

module _ {crypto : Crypto} where
  open crypto use {Secret, Seed}

  unfoldable pub decrypt_seed : TotpDevice crypto → Decrypted Seed
  decrypt_seed d = crypto.decrypt d.secret d.user_id d.pk

  unfoldable pub with_audit : TotpDevice crypto → String → String → Account crypto → Account crypto
  with_audit d name reason a = record a {
    audit =
        a.audit
        ++ record {
          name = name;
          device_id = d.pk;
          status = d.status;
          auth_version = d.auth_version;
          reason = reason;
        }
          ∷ [];
  }

  unfoldable pub erased : TotpDevice crypto → Secret → ℕ → TotpDevice crypto
  erased d noise now = record d {
    status = device_revoked;
    revoked_at = some now;
    last_accepted_step = none;
    auth_version = d.auth_version + 1;
    secret = noise;
  }

  -- `_erase_device_secret`; `noise` is the random nonce and ciphertext.
  unfoldable pub erase_device_secret :
      TotpDevice crypto → Secret → ℕ → Account crypto → Account crypto
  unfolding erased
  erase_device_secret d noise now a = record a {
    device = some (erased d noise now);
    recovery_codes = [];
  }
