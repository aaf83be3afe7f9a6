-- ===== src/Totp/Moves.antt =====
-- accounts/authn/mfa_services.py: what one call does to the device and to the recovery codes.
use power_adapter_blogs.Shared.{ℕ, ◌≡◌, refl, true, false, none, some, []}
use power_adapter_blogs.Session.{status_is_active}
use power_adapter_blogs.Totp.{
  Crypto, TotpDevice, Account, Served, raises, returns, account_after, atomically, is_replay,
  is_pending_device, erased,
}
use power_adapter_blogs.Totp.Enrollment.{enrolled, confirmed}
use power_adapter_blogs.Totp.Challenge.{accepting}

module _ {crypto : Crypto} where
  pub data Move (a b : Account crypto) : Type 0 where
    kept : b.device ≡ a.device → (a.recovery_codes ≡ [] → b.recovery_codes ≡ []) → Move a b
    started :
        (d : TotpDevice crypto) (s : crypto.Seed) (t : ℕ)
        → a.device ≡ none
        → d.auth_version ≡ 1
        → b.device ≡ some (enrolled d s t)
        → b.recovery_codes ≡ []
        → Move a b
    restarted :
        (d : TotpDevice crypto) (s : crypto.Seed) (t : ℕ)
        → a.device ≡ some d
        → status_is_active d.status ≡ false
        → b.device ≡ some (enrolled d s t)
        → b.recovery_codes ≡ []
        → Move a b
    confirms_at :
        (d : TotpDevice crypto) (step now : ℕ)
        → a.device ≡ some d
        → is_pending_device d.status ≡ true
        → b.device ≡ some (confirmed d step now)
        → Move a b
    accepts :
        (d : TotpDevice crypto) (step : ℕ)
        → a.device ≡ some d
        → status_is_active d.status ≡ true
        → is_replay step d.last_accepted_step ≡ false
        → b.device ≡ some (accepting d step)
        → Move a b
    erases :
        (d : TotpDevice crypto) (noise : crypto.Secret) (now : ℕ)
        → a.device ≡ some d
        → b.device ≡ some (erased d noise now)
        → b.recovery_codes ≡ []
        → Move a b

  pub stays : (a : Account crypto) → Move a a
  stays a = kept refl (λ h. h)

  -- A service that comes to a move
  abbrev pub Moves : {B : Type 0} → Account crypto → Served crypto B → Type 0
  Moves a r = Move a (account_after r)

  -- A block that raises comes to no move.
  pub atomically-Moves :
      {B : Type 0} (a : Account crypto) (r : Served crypto B) → Moves a r → Moves a (atomically a r)
  unfolding atomically account_after
  atomically-Moves a (raises reason b) m = stays a
  atomically-Moves a (returns x b) m = m
