-- ===== src/Totp/Enrollment.antt =====
-- accounts/authn/mfa_services.py: the enrollment of a device, started and confirmed.
use power_adapter_blogs.Shared.{
  ℕ, ◌+◌, String, not, Option, none, some, [], ◌++◌, leb, if◌then◌else◌,
}
use power_adapter_blogs.Models.{User, Database, device_pending, device_active}
use power_adapter_blogs.Session.{status_is_active}
use power_adapter_blogs.Totp.{
  Crypto, Decrypted, keyring_missing, unreadable, seed, MfaSettings, integer_setting, TotpDevice,
  Account, Served, raises, returns, atomically, is_self_service, Matched, bad_window, no_match,
  match_at, new_recovery_codes, matching_step, is_pending_device, refused_settings,
  accepted_settings, enrollment_settings, decrypt_seed, with_audit, erased, erase_device_secret,
}

module _ {crypto : Crypto} where
  open crypto use {Secret, Seed}

  -- `start_totp_enrollment` for the device of the user, or a new one
  unfoldable pub enrolled : TotpDevice crypto → Seed → ℕ → TotpDevice crypto
  enrolled d s expires_at = record d {
    status = device_pending;
    secret = crypto.encrypt s d.user_id d.pk;
    binding_expires_at = expires_at;
    confirmed_at = none;
    revoked_at = none;
    last_accepted_step = none;
  }

  unfoldable pub begin_enrollment : TotpDevice crypto → Seed → ℕ → Account crypto → Served crypto ℕ
  unfolding enrolled with_audit
  begin_enrollment d s expires_at a =
      let e : TotpDevice crypto = enrolled d s expires_at in
      returns e.pk (
        with_audit e "enrollment_started" "none"
          (record a { device = some e; recovery_codes = [] }))

  -- `MfaTotpDevice(id=…, user=…)`; the enrollment sets the fields that are not there.
  unfoldable pub new_device : ℕ → ℕ → Secret → ℕ → TotpDevice crypto
  new_device id user_id secret expires_at = record {
    pk = id;
    user_id = user_id;
    status = device_pending;
    secret = secret;
    binding_expires_at = expires_at;
    confirmed_at = none;
    revoked_at = none;
    last_accepted_step = none;
    auth_version = 1;
  }

  -- The device that the enrollment replaces; `fresh` is the one it would make.
  unfoldable pub enroll :
      Option (TotpDevice crypto) → TotpDevice crypto → Seed → ℕ → Account crypto → Served crypto ℕ
  unfolding begin_enrollment
  enroll none fresh s expires_at a = begin_enrollment fresh s expires_at a
  enroll (some d) fresh s expires_at a =
      if status_is_active d.status
      then raises "already_active" a
      else begin_enrollment d s expires_at a

  unfoldable pub start_totp_enrollment :
      MfaSettings → Database → User → User → ℕ → Seed → ℕ → Account crypto → Served crypto ℕ
  unfolding atomically enrollment_settings enroll new_device
  start_totp_enrollment settings db user actor device_id s now a = atomically a (
      if not (is_self_service db user actor)
      then raises "not_allowed" a
      else elim (enrollment_settings settings) [
        | refused_settings reason ↦ raises reason a
        | accepted_settings ttl ↦
            enroll a.device
              (new_device device_id user.pk (crypto.encrypt s user.pk device_id) (now + ttl)) s
              (now + ttl) a
      ])

  unfoldable pub confirmed : TotpDevice crypto → ℕ → ℕ → TotpDevice crypto
  confirmed d step now = record d {
    status = device_active;
    confirmed_at = some now;
    last_accepted_step = some step;
  }

  -- A matching code: the device is activated, and its codes are made.
  unfoldable pub activate :
      MfaSettings → TotpDevice crypto → ℕ → (ℕ → String) → ℕ → Account crypto → Served crypto ℕ
  unfolding integer_setting confirmed with_audit new_recovery_codes
  activate settings d step digest now a =
      elim (integer_setting settings.recovery_code_count 10 10) [
        | none ↦ raises "config_invalid" a
        | some count ↦
            let active : TotpDevice crypto = confirmed d step now in
            returns d.pk (
              with_audit active "enrollment_confirmed" "none" (record a {
                device = some active;
                recovery_codes = a.recovery_codes ++ new_recovery_codes digest 0 count;
              }))
      ]

  unfoldable pub confirm_match :
      MfaSettings
      → TotpDevice crypto
      → Matched
      → (ℕ → String)
      → ℕ
      → Account crypto
      → Served crypto ℕ
  unfolding activate with_audit
  confirm_match settings d bad_window digest now a = raises "config_invalid" a
  confirm_match settings d no_match digest now a =
      raises "invalid_code" (with_audit d "enrollment_failed" "invalid_code" a)
  confirm_match settings d (match_at step) digest now a = activate settings d step digest now a

  -- A pending device, which its time has not run out for
  unfoldable pub confirm_seed :
      MfaSettings
      → TotpDevice crypto
      → Decrypted Seed
      → String
      → (ℕ → String)
      → Secret
      → ℕ
      → Account crypto
      → Served crypto ℕ
  unfolding confirm_match erase_device_secret with_audit matching_step
  confirm_seed settings d keyring_missing code digest noise now a = raises "secret_unavailable" (
      with_audit (erased d noise now) "enrollment_failed" "secret_unavailable"
        (erase_device_secret d noise now a))
  confirm_seed settings d unreadable code digest noise now a = raises "secret_unavailable" (
      with_audit (erased d noise now) "enrollment_failed" "secret_unavailable"
        (erase_device_secret d noise now a))
  confirm_seed settings d (seed s) code digest noise now a =
      confirm_match settings d (matching_step crypto settings s code now) digest now a

  unfoldable pub confirm_device :
      MfaSettings
      → Option (TotpDevice crypto)
      → String
      → (ℕ → String)
      → Secret
      → ℕ
      → Account crypto
      → Served crypto ℕ
  unfolding confirm_seed decrypt_seed is_pending_device
  confirm_device settings none code digest noise now a = raises "not_pending" a
  confirm_device settings (some d) code digest noise now a =
      if not (is_pending_device d.status)
      then raises "not_pending" a
      else if leb d.binding_expires_at now
      then raises "binding_expired" (
          with_audit (erased d noise now) "enrollment_expired" "binding_expired"
            (erase_device_secret d noise now a))
      else confirm_seed settings d (decrypt_seed d) code digest noise now a

  unfoldable pub confirm_totp_enrollment :
      MfaSettings
      → Database
      → User
      → User
      → String
      → (ℕ → String)
      → Secret
      → ℕ
      → Account crypto
      → Served crypto ℕ
  unfolding confirm_device
  confirm_totp_enrollment settings db user actor code digest noise now a =
      if not (is_self_service db user actor)
      then raises "not_allowed" a
      else confirm_device settings a.device code digest noise now a
