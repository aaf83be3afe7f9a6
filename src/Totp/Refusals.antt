-- ===== src/Totp/Refusals.antt =====
-- accounts/authn/mfa_services.py: what a revocation that returns has checked, and what it leaves.
use power_adapter_blogs.Shared.{
  ℕ, String, ◌≡◌, refl, sym, ap, inl, inr, Bool, true, false, Option, none, some, [], ◌==◌, arith,
  Bool-cases,
}
use power_adapter_blogs.Text.{is_empty}
use power_adapter_blogs.Models.{User}
use power_adapter_blogs.Session.{status_is_revoked}
use power_adapter_blogs.Totp.{
  Crypto, Decrypted, keyring_missing, unreadable, seed, MfaSettings, TotpDevice, Account, Served,
  raises, returns, atomically, account_after, Matched, bad_window, no_match, match_at, is_replay,
  matching_step, decrypt_seed, erased, with_audit, erase_device_secret,
}
use power_adapter_blogs.Totp.Challenge.{
  can_reset, finish_revocation, revoke_match, revoke_seed, revoke_device, revoke_body,
  revoke_totp_device,
}

module _ {crypto : Crypto} where
  -- The code names a step that the device has not accepted.
  pub record Proves (settings : MfaSettings) (d : TotpDevice crypto) (code : String) (now : ℕ)
      : Type 0 where
    pub secret : crypto.Seed
    pub step : ℕ
    pub decrypted : decrypt_seed d ≡ seed secret
    pub matches : matching_step crypto settings secret code now ≡ match_at step
    pub fresh : is_replay step d.last_accepted_step ≡ false

  -- The device is erased, and so are its recovery codes.
  pub record Erased (d : TotpDevice crypto) (noise : crypto.Secret) (now : ℕ) (b : Account crypto)
      : Type 0 where
    pub device : b.device ≡ some (erased d noise now)
    pub codes : b.recovery_codes ≡ []

  pub record Revoked (settings : MfaSettings) (target actor : User) (password : String) (ok : Bool)
      (code : String) (noise : crypto.Secret) (now : ℕ) (a b : Account crypto) : Type 0 where
    pub device : TotpDevice crypto
    pub before : a.device ≡ some device
    pub unrevoked : status_is_revoked device.status ≡ false
    pub active : actor.is_active ≡ true
    pub superuser : actor.is_superuser ≡ true
    pub password_checked :
        (actor.pk == target.pk) ≡ true → (is_empty password ≡ false) × (ok ≡ true)
    pub code_checked : (actor.pk == target.pk) ≡ true → Proves settings device code now
    pub after : Erased device noise now b

  finish-Erased :
      (d : TotpDevice crypto) (reason : String) (noise : crypto.Secret) (now : ℕ)
      (a b : Account crypto) (r : Bool)
      → finish_revocation d reason noise now a ≡ returns r b
      → Erased d noise now b
  unfolding finish_revocation with_audit erase_device_secret account_after
  finish-Erased d reason noise now a b r h =
      let e = ap account_after h in
      record {
        device = ap (λ (x : Account crypto). x.device) (sym e);
        codes = ap (λ (x : Account crypto). x.recovery_codes) (sym e);
      }

  revoke_match-Proves :
      (settings : MfaSettings) (d : TotpDevice crypto) (s : crypto.Seed) (code : String)
      (m : Matched) (reason : String) (noise : crypto.Secret) (now : ℕ) (a b : Account crypto)
      (r : Bool)
      → decrypt_seed d ≡ seed s
      → matching_step crypto settings s code now ≡ m
      → revoke_match d m reason noise now a ≡ returns r b
      → Proves settings d code now × Erased d noise now b
  unfolding revoke_match
  revoke_match-Proves settings d s code bad_window reason noise now a b r e f h = absurd cc
  revoke_match-Proves settings d s code no_match reason noise now a b r e f h = absurd cc
  revoke_match-Proves settings d s code (match_at step) reason noise now a b r e f h =
      elim (Bool-cases (is_replay step d.last_accepted_step)) [
        | inl old ↦ absurd (let q = rw old at h in cc)
        | inr new ↦ (
          record { secret = s; step = step; decrypted = e; matches = f; fresh = new },
          finish-Erased d reason noise now (with_audit d "device_revoke_step_up_verified" "none" a)
              b r (rw new at h),
        )
      ]

  revoke_seed-Proves :
      (settings : MfaSettings) (d : TotpDevice crypto) (x : Decrypted crypto.Seed)
      (code reason : String) (noise : crypto.Secret) (now : ℕ) (a b : Account crypto) (r : Bool)
      → decrypt_seed d ≡ x
      → revoke_seed settings d x code reason noise now a ≡ returns r b
      → Proves settings d code now × Erased d noise now b
  unfolding revoke_seed
  revoke_seed-Proves settings d keyring_missing code reason noise now a b r e h = absurd cc
  revoke_seed-Proves settings d unreadable code reason noise now a b r e h = absurd cc
  revoke_seed-Proves settings d (seed s) code reason noise now a b r e h =
      revoke_match-Proves settings d s code (matching_step crypto settings s code now) reason noise
        now a b r e refl h

  -- The device part of a revocation
  record Checked (settings : MfaSettings) (self : Bool) (code : String) (noise : crypto.Secret)
      (now : ℕ) (a b : Account crypto) : Type 0 where
    device : TotpDevice crypto
    before : a.device ≡ some device
    unrevoked : status_is_revoked device.status ≡ false
    code_checked : self ≡ true → Proves settings device code now
    after : Erased device noise now b

  revoke_device-Checked :
      (settings : MfaSettings) (o : Option (TotpDevice crypto)) (self : Bool) (code reason : String)
      (noise : crypto.Secret) (now : ℕ) (a b : Account crypto) (r : Bool)
      → a.device ≡ o
      → revoke_device settings o self code reason noise now a ≡ returns r b
      → Checked settings self code noise now a b
  unfolding revoke_device
  revoke_device-Checked settings none self code reason noise now a b r e h = absurd cc
  revoke_device-Checked settings (some d) self code reason noise now a b r e h =
      elim (Bool-cases (status_is_revoked d.status)) [
        | inl gone ↦ absurd (let q = rw gone at h in cc)
        | inr there ↦ elim (Bool-cases self) [
          | inl own ↦
              let (proof, erasure) =
                revoke_seed-Proves settings d (decrypt_seed d) code reason noise now a b r refl
                  (rw (there, own) at h) in
              record {
                device = d;
                before = e;
                unrevoked = there;
                code_checked = λ s. proof;
                after = erasure;
              }
          | inr other ↦ record {
            device = d;
            before = e;
            unrevoked = there;
            code_checked = λ s. absurd cc;
            after = finish-Erased d reason noise now a b r (rw (there, other) at h);
          }
        ]
      ]

  body_of :
      (a b : Account crypto) (x : Served crypto Bool) (r : Bool)
      → atomically a x ≡ returns r b
      → x ≡ returns r b
  unfolding atomically
  body_of a b (raises why c) r h = absurd cc
  body_of a b (returns s c) r h = h

  revoke_body-Revoked :
      (settings : MfaSettings) (target actor : User) (password : String) (ok : Bool)
      (code reason : String) (noise : crypto.Secret) (now : ℕ) (a b : Account crypto) (r : Bool)
      → revoke_body settings target actor password ok code reason noise now a ≡ returns r b
      → Revoked settings target actor password ok code noise now a b
  unfolding revoke_body
  revoke_body-Revoked settings target actor password ok code reason noise now a b r h =
      elim (Bool-cases (can_reset target actor password ok)) [
        | inl can ↦
            let c : Checked settings (actor.pk == target.pk) code noise now a b =
              revoke_device-Checked settings a.device (actor.pk == target.pk) code reason noise now
                a b r refl (rw can at h) in
            record {
              device = c.device;
              before = c.before;
              unrevoked = c.unrevoked;
              active = ground arith;
              superuser = ground arith;
              password_checked = λ s. (ground arith, ground arith);
              code_checked = c.code_checked;
              after = c.after;
            }
        | inr cannot ↦ absurd (let q = rw cannot at h in cc)
      ]

  -- A revocation that returns was asked for by an active superuser, of a device that was not
  -- revoked; where the actor is the device's user, with a password that is right and with a
  -- code that names a step of the window that the device has not accepted. It leaves the
  -- device erased at the next authentication version and no recovery code.
  pub revoke_totp_device-Revoked :
      (settings : MfaSettings) (target actor : User) (password : String) (ok : Bool)
      (code reason : String) (noise : crypto.Secret) (now : ℕ) (a b : Account crypto) (r : Bool)
      → revoke_totp_device settings target actor password ok code reason noise now a ≡ returns r b
      → Revoked settings target actor password ok code noise now a b
  unfolding revoke_totp_device
  revoke_totp_device-Revoked settings target actor password ok code reason noise now a b r h =
      revoke_body-Revoked settings target actor password ok code reason noise now a b r
        (body_of a b (revoke_body settings target actor password ok code reason noise now a) r h)

  -- A refused code of the actor's own is recorded in the transaction, and taken back with it.
  pub revoke_totp_device-unrecorded :
      (settings : MfaSettings) (target actor : User) (password : String) (ok : Bool)
      (code reason why : String) (noise : crypto.Secret) (now : ℕ) (a b : Account crypto)
      → revoke_body settings target actor password ok code reason noise now a ≡ raises why b
      → revoke_totp_device settings target actor password ok code reason noise now a ≡ raises why a
  unfolding revoke_totp_device atomically
  revoke_totp_device-unrecorded settings target actor password ok code reason why noise now a b h =
      rw h refl
