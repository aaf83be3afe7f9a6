-- ===== src/Totp/Lifecycle.antt =====
-- accounts/authn/mfa_services.py and accounts/models.py: what holds of a device after any calls.
use power_adapter_blogs.Shared.{
  ℕ, ◌≤◌, ◌≡◌, refl, sym, ◌∙◌, Bool, true, false, not, ◌&&◌, Option, none, some, List, [], ◌∷◌,
  arith, is_some,
}
use power_adapter_blogs.Models.{DeviceStatus, device_pending, device_active, device_revoked}
use power_adapter_blogs.Session.{status_is_active}
use power_adapter_blogs.Totp.{Crypto, TotpDevice, Account, is_pending_device, erased}
use power_adapter_blogs.Totp.Enrollment.{enrolled, confirmed}
use power_adapter_blogs.Totp.Challenge.{accepting}
use power_adapter_blogs.Totp.Calls.{Call, call, call_all}
use power_adapter_blogs.Totp.ChallengeMoves.{call-Move}
use power_adapter_blogs.Totp.Moves.{Move, kept, started, restarted, confirms_at, accepts, erases}

-- The check constraints of `MfaTotpDevice`.
unfoldable pub dates_valid : DeviceStatus → (confirmed_at revoked_at : Option ℕ) → Bool
dates_valid device_pending confirmed_at revoked_at =
    not (is_some confirmed_at) && not (is_some revoked_at)
dates_valid device_active confirmed_at revoked_at = is_some confirmed_at && not (is_some revoked_at)
dates_valid device_revoked confirmed_at revoked_at = is_some revoked_at

pending_dates :
    (status : DeviceStatus) (c r : Option ℕ)
    → is_pending_device status ≡ true
    → dates_valid status c r ≡ true
    → not (is_some r) ≡ true
unfolding is_pending_device dates_valid
pending_dates device_pending c r p h = ground arith
pending_dates device_active c r p h = cc
pending_dates device_revoked c r p h = cc

module _ {crypto : Crypto} where
  pub record IsSoundDevice (d : TotpDevice crypto) : Type 0 where
    pub dates : dates_valid d.status d.confirmed_at d.revoked_at ≡ true
    pub version : 1 ≤ d.auth_version
    pub step : is_some d.last_accepted_step ≡ status_is_active d.status

  -- What holds of an account: of its device, and that codes are there for an active device only.
  pub record IsSoundAccount (a : Account crypto) : Type 0 where
    pub device : (d : TotpDevice crypto) → a.device ≡ some d → IsSoundDevice d
    pub codes_of_inactive :
        (d : TotpDevice crypto)
        → a.device ≡ some d
        → status_is_active d.status ≡ false
        → a.recovery_codes ≡ []
    pub codes_of_none : a.device ≡ none → a.recovery_codes ≡ []

  -- The account has the device `d`.
  with_device :
      (b : Account crypto) (d : TotpDevice crypto)
      → b.device ≡ some d
      → IsSoundDevice d
      → (status_is_active d.status ≡ false → b.recovery_codes ≡ [])
      → IsSoundAccount b
  with_device b d e sound codes = record {
    device = λ d' e'. let same : d ≡ d' = cc in rw (← same) sound;
    codes_of_inactive = λ d' e' h. let same : d ≡ d' = cc in codes (rw same h);
    codes_of_none = λ e'. absurd cc;
  }

  enrolled-IsSoundDevice :
      (d : TotpDevice crypto) (s : crypto.Seed) (t : ℕ)
      → 1 ≤ d.auth_version
      → IsSoundDevice (enrolled d s t)
  unfolding enrolled dates_valid status_is_active
  enrolled-IsSoundDevice d s t h = record { dates = refl; version = h; step = refl }

  confirmed-IsSoundDevice :
      (d : TotpDevice crypto) (step now : ℕ)
      → IsSoundDevice d
      → is_pending_device d.status ≡ true
      → IsSoundDevice (confirmed d step now)
  unfolding confirmed dates_valid status_is_active is_pending_device
  confirmed-IsSoundDevice d step now h p = record {
    dates = pending_dates d.status d.confirmed_at d.revoked_at p h.dates;
    version = h.version;
    step = refl;
  }

  accepting-IsSoundDevice :
      (d : TotpDevice crypto) (step : ℕ)
      → IsSoundDevice d
      → status_is_active d.status ≡ true
      → IsSoundDevice (accepting d step)
  accepting-IsSoundDevice d step h active = record {
    dates = h.dates;
    version = h.version;
    step = sym active;
  }

  erased-IsSoundDevice :
      (d : TotpDevice crypto) (noise : crypto.Secret) (now : ℕ)
      → IsSoundDevice d
      → IsSoundDevice (erased d noise now)
  unfolding erased dates_valid status_is_active
  erased-IsSoundDevice d noise now h = record {
    dates = refl;
    version = let v : 1 ≤ d.auth_version = h.version in omega arith;
    step = refl;
  }

  confirmed_active :
      (d : TotpDevice crypto) (step now : ℕ) → status_is_active (confirmed d step now).status ≡ true
  unfolding confirmed status_is_active
  confirmed_active d step now = refl

  pub Move-IsSoundAccount : (a b : Account crypto) → Move a b → IsSoundAccount a → IsSoundAccount b
  Move-IsSoundAccount a b (kept e codes) h = record {
    device = λ d e'. h.device d (sym e ∙ e');
    codes_of_inactive = λ d e' f. codes (h.codes_of_inactive d (sym e ∙ e') f);
    codes_of_none = λ e'. codes (h.codes_of_none (sym e ∙ e'));
  }
  Move-IsSoundAccount a b (started d s t e v e' codes) h =
      with_device b (enrolled d s t) e' (enrolled-IsSoundDevice d s t (omega arith)) (λ f. codes)
  Move-IsSoundAccount a b (restarted d s t e inactive e' codes) h =
      with_device b (enrolled d s t) e' (enrolled-IsSoundDevice d s t (h.device d e).version)
        (λ f. codes)
  Move-IsSoundAccount a b (confirms_at d step now e p e') h =
      with_device b (confirmed d step now) e' (confirmed-IsSoundDevice d step now (h.device d e) p)
        (λ f. absurd (let t = confirmed_active d step now in cc))
  Move-IsSoundAccount a b (accepts d step e active new e') h =
      with_device b (accepting d step) e' (accepting-IsSoundDevice d step (h.device d e) active)
        (λ f. absurd cc)
  Move-IsSoundAccount a b (erases d noise now e e' codes) h =
      with_device b (erased d noise now) e' (erased-IsSoundDevice d noise now (h.device d e))
        (λ f. codes)

  -- From a sound account, after any calls of the device's services the device keeps the check
  -- constraints of its dates and its version, has an accepted step exactly while it is active,
  -- and there are recovery codes of an active device only.
  pub call_all-IsSoundAccount :
      (calls : List (Call crypto)) (a : Account crypto)
      → IsSoundAccount a
      → IsSoundAccount (call_all calls a)
  unfolding call_all
  call_all-IsSoundAccount [] a h = h
  call_all-IsSoundAccount (c ∷ cs) a h =
      call_all-IsSoundAccount cs (call c a) (Move-IsSoundAccount a (call c a) (call-Move c a) h)
