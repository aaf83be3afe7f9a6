-- ===== src/Totp/EnrollmentMoves.antt =====
-- accounts/authn/mfa_services.py: the enrollment's calls, as moves.
use power_adapter_blogs.Shared.{
  ℕ, ◌+◌, String, ◌≡◌, refl, inl, inr, true, Option, none, some, leb, Bool-cases, Option-cases,
}
use power_adapter_blogs.Models.{User, Database}
use power_adapter_blogs.Session.{status_is_active}
use power_adapter_blogs.Totp.{
  Crypto, Decrypted, keyring_missing, unreadable, seed, MfaSettings, integer_setting, TotpDevice,
  Account, raises, account_after, atomically, is_self_service, Matched, bad_window, no_match,
  match_at, matching_step, is_pending_device, EnrollmentSettings, refused_settings,
  accepted_settings, enrollment_settings, decrypt_seed, with_audit, erase_device_secret,
}
use power_adapter_blogs.Totp.Enrollment.{
  new_device, begin_enrollment, enroll, start_totp_enrollment, activate, confirm_match,
  confirm_seed, confirm_device, confirm_totp_enrollment,
}
use power_adapter_blogs.Totp.Moves.{
  kept, started, restarted, confirms_at, erases, stays, Moves, atomically-Moves,
}

module _ {crypto : Crypto} where
  enroll-Move :
      (o : Option (TotpDevice crypto)) (id user_id : ℕ) (secret : crypto.Secret) (s : crypto.Seed)
      (t u : ℕ) (a : Account crypto)
      → a.device ≡ o
      → Moves a (enroll o (new_device id user_id secret u) s t a)
  unfolding enroll begin_enrollment with_audit account_after new_device
  enroll-Move none id user_id secret s t u a e =
      started (new_device id user_id secret u) s t e refl refl refl
  enroll-Move (some d) id user_id secret s t u a e = elim (Bool-cases (status_is_active d.status)) [
    | inl active ↦ rw active (stays a)
    | inr inactive ↦ rw inactive (restarted d s t e inactive refl refl)
  ]

  pub start-Move :
      (settings : MfaSettings) (db : Database) (user actor : User) (id : ℕ) (s : crypto.Seed)
      (now : ℕ) (a : Account crypto)
      → Moves a (start_totp_enrollment settings db user actor id s now a)
  unfolding start_totp_enrollment atomically account_after
  start-Move settings db user actor id s now a = elim (Bool-cases (is_self_service db user actor)) [
    | inl self ↦ rw self (go (enrollment_settings settings))
    | inr other ↦ rw other (stays a)
  ]
    where
      go :
          (r : EnrollmentSettings)
          → Moves a (
              atomically a (elim r [
                | refused_settings reason ↦ raises reason a
                | accepted_settings ttl ↦
                    enroll a.device
                      (new_device id user.pk (crypto.encrypt s user.pk id) (now + ttl))
                      s
                      (now + ttl)
                      a
              ]))
      go (refused_settings reason) = stays a
      go (accepted_settings ttl) =
          atomically-Moves a
            (enroll a.device (new_device id user.pk (crypto.encrypt s user.pk id) (now + ttl)) s
              (now + ttl) a)
            (enroll-Move a.device id user.pk _ s (now + ttl) (now + ttl) a refl)

  activate-Move :
      (settings : MfaSettings) (d : TotpDevice crypto) (step : ℕ) (digest : ℕ → String) (now : ℕ)
      (a : Account crypto)
      → a.device ≡ some d
      → is_pending_device d.status ≡ true
      → Moves a (activate settings d step digest now a)
  unfolding activate account_after with_audit
  activate-Move settings d step digest now a e p =
      elim (Option-cases (integer_setting settings.recovery_code_count 10 10)) [
        | inl n ↦ rw (n, activate) (stays a)
        | inr (c, n) ↦ rw (n, activate) (confirms_at d step now e p refl)
      ]

  confirm_match-Move :
      (settings : MfaSettings) (d : TotpDevice crypto) (m : Matched) (digest : ℕ → String) (now : ℕ)
      (a : Account crypto)
      → a.device ≡ some d
      → is_pending_device d.status ≡ true
      → Moves a (confirm_match settings d m digest now a)
  unfolding confirm_match account_after with_audit
  confirm_match-Move settings d bad_window digest now a e p = stays a
  confirm_match-Move settings d no_match digest now a e p = kept refl (λ h. h)
  confirm_match-Move settings d (match_at step) digest now a e p =
      activate-Move settings d step digest now a e p

  confirm_seed-Move :
      (settings : MfaSettings) (d : TotpDevice crypto) (r : Decrypted crypto.Seed) (code : String)
      (digest : ℕ → String) (noise : crypto.Secret) (now : ℕ) (a : Account crypto)
      → a.device ≡ some d
      → is_pending_device d.status ≡ true
      → Moves a (confirm_seed settings d r code digest noise now a)
  unfolding confirm_seed account_after with_audit erase_device_secret
  confirm_seed-Move settings d keyring_missing code digest noise now a e p =
      erases d noise now e refl refl
  confirm_seed-Move settings d unreadable code digest noise now a e p =
      erases d noise now e refl refl
  confirm_seed-Move settings d (seed s) code digest noise now a e p =
      confirm_match-Move settings d (matching_step crypto settings s code now) digest now a e p

  confirm_device-Move :
      (settings : MfaSettings) (o : Option (TotpDevice crypto)) (code : String)
      (digest : ℕ → String) (noise : crypto.Secret) (now : ℕ) (a : Account crypto)
      → a.device ≡ o
      → Moves a (confirm_device settings o code digest noise now a)
  unfolding confirm_device account_after with_audit erase_device_secret
  confirm_device-Move settings none code digest noise now a e = stays a
  confirm_device-Move settings (some d) code digest noise now a e =
      elim (Bool-cases (is_pending_device d.status)) [
        | inl p ↦ elim (Bool-cases (leb d.binding_expires_at now)) [
          | inl late ↦ rw (p, late) (erases d noise now e refl refl)
          | inr early ↦
              rw (p, early)
                (confirm_seed-Move settings d (decrypt_seed d) code digest noise now a e p)
        ]
        | inr other ↦ rw other (stays a)
      ]

  pub confirm-Move :
      (settings : MfaSettings) (db : Database) (user actor : User) (code : String)
      (digest : ℕ → String) (noise : crypto.Secret) (now : ℕ) (a : Account crypto)
      → Moves a (confirm_totp_enrollment settings db user actor code digest noise now a)
  unfolding confirm_totp_enrollment account_after
  confirm-Move settings db user actor code digest noise now a =
      elim (Bool-cases (is_self_service db user actor)) [
        | inl self ↦ rw self (confirm_device-Move settings a.device code digest noise now a refl)
        | inr other ↦ rw other (stays a)
      ]
