-- ===== src/Totp/ChallengeMoves.antt =====
-- accounts/authn/mfa_services.py: the calls that read a code, and any call, as moves.
use power_adapter_blogs.Shared.{
  ℕ, ◌&&◌, String, ◌≡◌, refl, inl, inr, Bool, true, false, Option, none, some, ◌==◌, Bool-cases,
  count, update,
}
use power_adapter_blogs.Models.{User, Database}
use power_adapter_blogs.Session.{status_is_active, status_is_revoked}
use power_adapter_blogs.Totp.{
  Crypto, Decrypted, keyring_missing, unreadable, seed, MfaSettings, TotpDevice, MfaRecoveryCode,
  Account, Served, raises, returns, account_after, atomically, is_self_service, is_unused, Matched,
  bad_window, no_match, match_at, is_replay, matching_step, decrypt_seed, with_audit,
  erase_device_secret,
}
use power_adapter_blogs.Totp.Challenge.{
  matching_code, consume_device, rebind_device, verify_device, revoke_device, use_code,
  consume_match, consume_recovery_code, erase_for_rebind, consume_recovery_code_for_rebind,
  verify_match, verify_seed, verify_active_totp, can_reset, finish_revocation, revoke_match,
  revoke_seed, revoke_body, revoke_totp_device,
}
use power_adapter_blogs.Totp.Calls.{
  Call, starts, confirms, consumes, rebinds, verifies, revokes, call,
}
use power_adapter_blogs.Totp.Moves.{Move, kept, accepts, erases, stays, Moves, atomically-Moves}
use power_adapter_blogs.Totp.EnrollmentMoves.{start-Move, confirm-Move}

module _ {crypto : Crypto} where
  consume_match-Move :
      (d : TotpDevice crypto) (m : Option MfaRecoveryCode) (now : ℕ) (a : Account crypto)
      → Moves a (consume_match d m now a)
  unfolding consume_match account_after with_audit use_code update
  consume_match-Move d none now a = kept refl (λ h. h)
  consume_match-Move d (some m) now a =
      elim (Bool-cases
        (count (λ (c : MfaRecoveryCode). c.pk == m.pk && is_unused c) a.recovery_codes == 1)) [
          | inl one ↦ rw one (kept refl (λ h. rw h refl))
          | inr other ↦ rw other (kept refl (λ h. rw h refl))
        ]

  consume_device-Move :
      (o : Option (TotpDevice crypto)) (code : String) (now : ℕ) (a : Account crypto)
      → Moves a (consume_device o code now a)
  unfolding consume_device account_after
  consume_device-Move none code now a = stays a
  consume_device-Move (some d) code now a = elim (Bool-cases (status_is_active d.status)) [
    | inl active ↦ rw active (consume_match-Move d _ now a)
    | inr inactive ↦ rw inactive (stays a)
  ]

  consume-Move :
      (db : Database) (user actor : User) (code : String) (now : ℕ) (a : Account crypto)
      → Moves a (consume_recovery_code db user actor code now a)
  unfolding consume_recovery_code atomically account_after
  consume-Move db user actor code now a = elim (Bool-cases (is_self_service db user actor)) [
    | inl self ↦ rw self (
        atomically-Moves a (consume_device a.device code now a)
          (consume_device-Move a.device code now a))
    | inr other ↦ rw other (stays a)
  ]

  erase_for_rebind-Move :
      (d : TotpDevice crypto) (noise : crypto.Secret) (now : ℕ) (r : Served crypto Bool)
      (a : Account crypto)
      → a.device ≡ some d
      → Moves a r
      → Moves a (erase_for_rebind d noise now r)
  unfolding erase_for_rebind account_after with_audit erase_device_secret
  erase_for_rebind-Move d noise now (raises reason b) a e m = m
  erase_for_rebind-Move d noise now (returns false b) a e m = m
  erase_for_rebind-Move d noise now (returns true b) a e m = erases d noise now e refl refl

  rebind_device-Move :
      (o : Option (TotpDevice crypto)) (code : String) (noise : crypto.Secret) (now : ℕ)
      (a : Account crypto)
      → a.device ≡ o
      → Moves a (rebind_device o code noise now a)
  unfolding rebind_device account_after
  rebind_device-Move none code noise now a e = stays a
  rebind_device-Move (some d) code noise now a e = elim (Bool-cases (status_is_active d.status)) [
    | inl active ↦
        let m : Option MfaRecoveryCode =
          matching_code crypto.check_password code a.recovery_codes in
        rw active (
          erase_for_rebind-Move d noise now (consume_match d m now a) a e
            (consume_match-Move d m now a))
    | inr inactive ↦ rw inactive (stays a)
  ]

  rebind-Move :
      (db : Database) (user actor : User) (code : String) (noise : crypto.Secret) (now : ℕ)
      (a : Account crypto)
      → Moves a (consume_recovery_code_for_rebind db user actor code noise now a)
  unfolding consume_recovery_code_for_rebind atomically account_after
  rebind-Move db user actor code noise now a = elim (Bool-cases (is_self_service db user actor)) [
    | inl self ↦ rw self (
        atomically-Moves a (rebind_device a.device code noise now a)
          (rebind_device-Move a.device code noise now a refl))
    | inr other ↦ rw other (stays a)
  ]

  verify_match-Move :
      (d : TotpDevice crypto) (m : Matched) (a : Account crypto)
      → a.device ≡ some d
      → status_is_active d.status ≡ true
      → Moves a (verify_match d m a)
  unfolding verify_match account_after with_audit
  verify_match-Move d bad_window a e active = stays a
  verify_match-Move d no_match a e active = kept refl (λ h. h)
  verify_match-Move d (match_at step) a e active =
      elim (Bool-cases (is_replay step d.last_accepted_step)) [
        | inl old ↦ rw old (kept refl (λ h. h))
        | inr new ↦ rw new (accepts d step e active new refl)
      ]

  verify_seed-Move :
      (settings : MfaSettings) (d : TotpDevice crypto) (r : Decrypted crypto.Seed) (code : String)
      (now : ℕ) (a : Account crypto)
      → a.device ≡ some d
      → status_is_active d.status ≡ true
      → Moves a (verify_seed settings d r code now a)
  unfolding verify_seed account_after
  verify_seed-Move settings d keyring_missing code now a e active = stays a
  verify_seed-Move settings d unreadable code now a e active = stays a
  verify_seed-Move settings d (seed s) code now a e active =
      verify_match-Move d (matching_step crypto settings s code now) a e active

  verify_device-Move :
      (settings : MfaSettings) (o : Option (TotpDevice crypto)) (code : String) (now : ℕ)
      (a : Account crypto)
      → a.device ≡ o
      → Moves a (verify_device settings o code now a)
  unfolding verify_device account_after
  verify_device-Move settings none code now a e = stays a
  verify_device-Move settings (some d) code now a e =
      elim (Bool-cases (status_is_active d.status)) [
        | inl active ↦ rw active (verify_seed-Move settings d (decrypt_seed d) code now a e active)
        | inr inactive ↦ rw inactive (stays a)
      ]

  verify-Move :
      (settings : MfaSettings) (db : Database) (user actor : User) (code : String) (now : ℕ)
      (a : Account crypto)
      → Moves a (verify_active_totp settings db user actor code now a)
  unfolding verify_active_totp account_after
  verify-Move settings db user actor code now a =
      elim (Bool-cases (is_self_service db user actor)) [
        | inl self ↦ rw self (verify_device-Move settings a.device code now a refl)
        | inr other ↦ rw other (stays a)
      ]

  revoke_match-Move :
      (d : TotpDevice crypto) (m : Matched) (reason : String) (noise : crypto.Secret) (now : ℕ)
      (a : Account crypto)
      → a.device ≡ some d
      → Moves a (revoke_match d m reason noise now a)
  unfolding revoke_match finish_revocation account_after with_audit erase_device_secret
  revoke_match-Move d bad_window reason noise now a e = stays a
  revoke_match-Move d no_match reason noise now a e = kept refl (λ h. h)
  revoke_match-Move d (match_at step) reason noise now a e =
      elim (Bool-cases (is_replay step d.last_accepted_step)) [
        | inl old ↦ rw old (kept refl (λ h. h))
        | inr new ↦ rw new (erases d noise now e refl refl)
      ]

  revoke_seed-Move :
      (settings : MfaSettings) (d : TotpDevice crypto) (r : Decrypted crypto.Seed)
      (code reason : String) (noise : crypto.Secret) (now : ℕ) (a : Account crypto)
      → a.device ≡ some d
      → Moves a (revoke_seed settings d r code reason noise now a)
  unfolding revoke_seed account_after
  revoke_seed-Move settings d keyring_missing code reason noise now a e = stays a
  revoke_seed-Move settings d unreadable code reason noise now a e = stays a
  revoke_seed-Move settings d (seed s) code reason noise now a e =
      revoke_match-Move d (matching_step crypto settings s code now) reason noise now a e

  revoke_device-Move :
      (settings : MfaSettings) (o : Option (TotpDevice crypto)) (self : Bool) (code reason : String)
      (noise : crypto.Secret) (now : ℕ) (a : Account crypto)
      → a.device ≡ o
      → Moves a (revoke_device settings o self code reason noise now a)
  unfolding revoke_device finish_revocation account_after with_audit erase_device_secret
  revoke_device-Move settings none self code reason noise now a e = stays a
  revoke_device-Move settings (some d) self code reason noise now a e =
      elim (Bool-cases (status_is_revoked d.status)) [
        | inl gone ↦ rw gone (stays a)
        | inr there ↦ elim (Bool-cases self) [
          | inl own ↦
              rw (there, own)
                (revoke_seed-Move settings d (decrypt_seed d) code reason noise now a e)
          | inr other ↦ rw (there, other) (erases d noise now e refl refl)
        ]
      ]

  revoke_body-Move :
      (settings : MfaSettings) (target actor : User) (password : String) (ok : Bool)
      (code reason : String) (noise : crypto.Secret) (now : ℕ) (a : Account crypto)
      → Moves a (revoke_body settings target actor password ok code reason noise now a)
  unfolding revoke_body account_after
  revoke_body-Move settings target actor password ok code reason noise now a =
      elim (Bool-cases (can_reset target actor password ok)) [
        | inl can ↦ rw can (
            revoke_device-Move settings a.device (actor.pk == target.pk) code reason noise now a
              refl)
        | inr cannot ↦ rw cannot (stays a)
      ]

  revoke-Move :
      (settings : MfaSettings) (target actor : User) (password : String) (ok : Bool)
      (code reason : String) (noise : crypto.Secret) (now : ℕ) (a : Account crypto)
      → Moves a (revoke_totp_device settings target actor password ok code reason noise now a)
  unfolding revoke_totp_device
  revoke-Move settings target actor password ok code reason noise now a =
      atomically-Moves a (revoke_body settings target actor password ok code reason noise now a)
        (revoke_body-Move settings target actor password ok code reason noise now a)

  pub call-Move : (c : Call crypto) (a : Account crypto) → Move a (call c a)
  unfolding call
  call-Move (starts settings db user actor id s now) a =
      start-Move settings db user actor id s now a
  call-Move (confirms settings db user actor code digest noise now) a =
      confirm-Move settings db user actor code digest noise now a
  call-Move (consumes db user actor code now) a = consume-Move db user actor code now a
  call-Move (rebinds db user actor code noise now) a = rebind-Move db user actor code noise now a
  call-Move (verifies settings db user actor code now) a =
      verify-Move settings db user actor code now a
  call-Move (revokes settings user actor password ok code reason noise now) a =
      revoke-Move settings user actor password ok code reason noise now a
