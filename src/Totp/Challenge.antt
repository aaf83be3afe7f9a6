-- ===== src/Totp/Challenge.antt =====
-- accounts/authn/mfa_services.py: the codes that an active device accepts, and its revocation.
use power_adapter_blogs.Shared.{
  ℕ, String, Bool, true, false, not, ◌&&◌, ◌||◌, Option, none, some, List, ◌==◌, find, count,
  select, update, text_eq, if◌then◌else◌,
}
use power_adapter_blogs.Text.{is_empty}
use power_adapter_blogs.Models.{User, Database}
use power_adapter_blogs.Session.{status_is_active, status_is_revoked}
use power_adapter_blogs.Totp.{
  Crypto, Decrypted, keyring_missing, unreadable, seed, MfaSettings, TotpDevice, MfaRecoveryCode,
  Account, Served, raises, returns, atomically, is_self_service, is_unused, Matched, bad_window,
  no_match, match_at, is_replay, matching_step, decrypt_seed, with_audit, erased,
  erase_device_secret,
}

unfoldable pub is_reset_reason : String → Bool
is_reset_reason reason =
    text_eq reason "operator_reset"
    || (text_eq reason "self_reset"
        || (text_eq reason "device_lost" || text_eq reason "compromised"))

-- The first unused recovery code with this digest
unfoldable pub matching_code :
    (String → String → Bool) → String → List MfaRecoveryCode → Option MfaRecoveryCode
unfolding is_unused
matching_code check code codes =
    find (λ (c : MfaRecoveryCode). check code c.code_digest) (select is_unused codes)

-- `filter(pk=matched.pk, used_at__isnull=True).update(used_at=…)`
unfoldable pub use_code : ℕ → ℕ → List MfaRecoveryCode → List MfaRecoveryCode
unfolding is_unused
use_code id now codes =
    update (λ (c : MfaRecoveryCode). c.pk == id && is_unused c)
      (λ (c : MfaRecoveryCode). record c { used_at = some now }) codes

-- `_can_reset`; `password_ok` is the answer of the actor's `check_password`.
abbrev pub can_reset : User → User → String → Bool → Bool
can_reset target_user actor current_password password_ok =
    if not actor.is_active || not actor.is_superuser
    then false
    else if not (actor.pk == target_user.pk)
    then true
    else not (is_empty current_password) && password_ok

module _ {crypto : Crypto} where
  open crypto use {Secret, Seed, check_password}

  -- What both ways to consume a recovery code do with the device; `used` is the number of rows changed.
  unfoldable pub consume_match :
      TotpDevice crypto → Option MfaRecoveryCode → ℕ → Account crypto → Served crypto Bool
  unfolding with_audit use_code is_unused
  consume_match d none now a = returns false (with_audit d "recovery_failed" "invalid_code" a)
  consume_match d (some m) now a =
      let used : ℕ =
        count (λ (c : MfaRecoveryCode). c.pk == m.pk && is_unused c) a.recovery_codes in
      let b : Account crypto = record a { recovery_codes = use_code m.pk now a.recovery_codes } in
      if used == 1
      then returns true (with_audit d "recovery_consumed" "none" b)
      else returns false b

  unfoldable pub consume_device :
      Option (TotpDevice crypto) → String → ℕ → Account crypto → Served crypto Bool
  unfolding consume_match matching_code
  consume_device none code now a = raises "device_inactive" a
  consume_device (some d) code now a =
      if status_is_active d.status
      then consume_match d (matching_code check_password code a.recovery_codes) now a
      else raises "device_inactive" a

  unfoldable pub consume_recovery_code :
      Database → User → User → String → ℕ → Account crypto → Served crypto Bool
  unfolding atomically consume_device
  consume_recovery_code db user actor code now a = atomically a (
      if not (is_self_service db user actor)
      then raises "not_allowed" a
      else consume_device a.device code now a)

  -- What `consume_recovery_code_for_rebind` adds to a code that it has consumed
  unfoldable pub erase_for_rebind :
      TotpDevice crypto → Secret → ℕ → Served crypto Bool → Served crypto Bool
  unfolding with_audit erase_device_secret
  erase_for_rebind d noise now (raises reason a) = raises reason a
  erase_for_rebind d noise now (returns false a) = returns false a
  erase_for_rebind d noise now (returns true a) = returns true (
      with_audit (erased d noise now) "recovery_rebind_required" "none"
        (erase_device_secret d noise now a))

  unfoldable pub rebind_device :
      Option (TotpDevice crypto) → String → Secret → ℕ → Account crypto → Served crypto Bool
  unfolding erase_for_rebind consume_match matching_code
  rebind_device none code noise now a = raises "device_inactive" a
  rebind_device (some d) code noise now a =
      if status_is_active d.status
      then erase_for_rebind d noise now
          (consume_match d (matching_code check_password code a.recovery_codes) now a)
      else raises "device_inactive" a

  -- `true` stands for the device that it returns.
  unfoldable pub consume_recovery_code_for_rebind :
      Database → User → User → String → Secret → ℕ → Account crypto → Served crypto Bool
  unfolding atomically rebind_device
  consume_recovery_code_for_rebind db user actor code noise now a = atomically a (
      if not (is_self_service db user actor)
      then raises "not_allowed" a
      else rebind_device a.device code noise now a)

  abbrev pub accepting : TotpDevice crypto → ℕ → TotpDevice crypto
  accepting d step = record d { last_accepted_step = some step }

  -- `verify_active_totp` returns the device; here, the step that it has accepted.
  unfoldable pub verify_match : TotpDevice crypto → Matched → Account crypto → Served crypto ℕ
  unfolding is_replay with_audit
  verify_match d bad_window a = raises "config_invalid" a
  verify_match d no_match a =
      raises "invalid_code" (with_audit d "challenge_failed" "invalid_code" a)
  verify_match d (match_at step) a =
      if is_replay step d.last_accepted_step
      then raises "replayed_code" (with_audit d "challenge_failed" "replayed_code" a)
      else returns step (
          with_audit (accepting d step) "challenge_verified" "none"
            (record a { device = some (accepting d step) }))

  unfoldable pub verify_seed :
      MfaSettings
      → TotpDevice crypto
      → Decrypted Seed
      → String
      → ℕ
      → Account crypto
      → Served crypto ℕ
  unfolding verify_match matching_step
  verify_seed settings d keyring_missing code now a = raises "keyring_unavailable" a
  verify_seed settings d unreadable code now a = raises "secret_unavailable" a
  verify_seed settings d (seed s) code now a =
      verify_match d (matching_step crypto settings s code now) a

  unfoldable pub verify_device :
      MfaSettings → Option (TotpDevice crypto) → String → ℕ → Account crypto → Served crypto ℕ
  unfolding verify_seed decrypt_seed
  verify_device settings none code now a = raises "device_inactive" a
  verify_device settings (some d) code now a =
      if status_is_active d.status
      then verify_seed settings d (decrypt_seed d) code now a
      else raises "device_inactive" a

  unfoldable pub verify_active_totp :
      MfaSettings → Database → User → User → String → ℕ → Account crypto → Served crypto ℕ
  unfolding verify_device
  verify_active_totp settings db user actor code now a =
      if not (is_self_service db user actor)
      then raises "not_allowed" a
      else verify_device settings a.device code now a

  -- The erasure at the end of `revoke_totp_device`
  unfoldable pub finish_revocation :
      TotpDevice crypto → String → Secret → ℕ → Account crypto → Served crypto Bool
  unfolding with_audit erase_device_secret is_reset_reason
  finish_revocation d reason noise now a = returns true (
      with_audit (erased d noise now) "device_revoked"
        (if is_reset_reason reason then reason else "operator_reset")
        (erase_device_secret d noise now a))

  -- What the actor's own code comes to; `revoke_totp_device` takes back the rows of a refusal.
  unfoldable pub revoke_match :
      TotpDevice crypto → Matched → String → Secret → ℕ → Account crypto → Served crypto Bool
  unfolding is_replay with_audit finish_revocation
  revoke_match d bad_window reason noise now a = raises "config_invalid" a
  revoke_match d no_match reason noise now a =
      raises "invalid_code" (with_audit d "device_revoke_failed" "invalid_code" a)
  revoke_match d (match_at step) reason noise now a =
      if is_replay step d.last_accepted_step
      then raises "replayed_code" (with_audit d "device_revoke_failed" "replayed_code" a)
      else finish_revocation d reason noise now
          (with_audit d "device_revoke_step_up_verified" "none" a)

  unfoldable pub revoke_seed :
      MfaSettings
      → TotpDevice crypto
      → Decrypted Seed
      → String
      → String
      → Secret
      → ℕ
      → Account crypto
      → Served crypto Bool
  unfolding revoke_match matching_step
  revoke_seed settings d keyring_missing code reason noise now a = raises "keyring_unavailable" a
  revoke_seed settings d unreadable code reason noise now a = raises "secret_unavailable" a
  revoke_seed settings d (seed s) code reason noise now a =
      revoke_match d (matching_step crypto settings s code now) reason noise now a

  -- `self` says whether the actor is the target.
  unfoldable pub revoke_device :
      MfaSettings
      → Option (TotpDevice crypto)
      → Bool
      → String
      → String
      → Secret
      → ℕ
      → Account crypto
      → Served crypto Bool
  unfolding revoke_seed decrypt_seed finish_revocation
  revoke_device settings none self totp_code reason noise now a = raises "device_inactive" a
  revoke_device settings (some d) self totp_code reason noise now a =
      if status_is_revoked d.status
      then raises "device_inactive" a
      else if self
      then revoke_seed settings d (decrypt_seed d) totp_code reason noise now a
      else finish_revocation d reason noise now a

  -- The block of `revoke_totp_device`
  unfoldable pub revoke_body :
      MfaSettings
      → User
      → User
      → String
      → Bool
      → String
      → String
      → Secret
      → ℕ
      → Account crypto
      → Served crypto Bool
  unfolding revoke_device
  revoke_body settings target_user actor current_password password_ok totp_code reason noise now a =
      if not (can_reset target_user actor current_password password_ok)
      then raises "reset_not_allowed" a
      else revoke_device settings a.device (actor.pk == target_user.pk) totp_code reason noise now a

  unfoldable pub revoke_totp_device :
      MfaSettings
      → User
      → User
      → String
      → Bool
      → String
      → String
      → Secret
      → ℕ
      → Account crypto
      → Served crypto Bool
  unfolding atomically revoke_body
  revoke_totp_device settings target_user actor current_password password_ok totp_code reason noise
        now a =
      atomically a (
        revoke_body settings target_user actor current_password password_ok totp_code reason noise
          now a)
