-- ===== src/Totp/Calls.antt =====
-- accounts/authn/mfa_services.py: any calls of the services for one user, in any order.
use power_adapter_blogs.Shared.{ℕ, String, Bool, List, [], ◌∷◌}
use power_adapter_blogs.Models.{User, Database}
use power_adapter_blogs.Totp.{Crypto, MfaSettings, Account, account_after}
use power_adapter_blogs.Totp.Enrollment.{start_totp_enrollment, confirm_totp_enrollment}
use power_adapter_blogs.Totp.Challenge.{
  consume_recovery_code, consume_recovery_code_for_rebind, verify_active_totp, revoke_totp_device,
}

-- A call: the service and its arguments, the settings, the database and the clock as it finds them.
pub data Call (crypto : Crypto) : Type 0 where
  starts :
      (settings : MfaSettings) (db : Database) (user actor : User) (device_id : ℕ)
      (seed : crypto.Seed) (now : ℕ)
      → Call crypto
  confirms :
      (settings : MfaSettings) (db : Database) (user actor : User) (code : String)
      (digest : ℕ → String) (noise : crypto.Secret) (now : ℕ)
      → Call crypto
  consumes : (db : Database) (user actor : User) (code : String) (now : ℕ) → Call crypto
  rebinds :
      (db : Database) (user actor : User) (code : String) (noise : crypto.Secret) (now : ℕ)
      → Call crypto
  verifies :
      (settings : MfaSettings) (db : Database) (user actor : User) (code : String) (now : ℕ)
      → Call crypto
  revokes :
      (settings : MfaSettings) (user actor : User) (password : String) (password_ok : Bool)
      (code reason : String) (noise : crypto.Secret) (now : ℕ)
      → Call crypto

module _ {crypto : Crypto} where
  unfoldable pub call : Call crypto → Account crypto → Account crypto
  unfolding account_after start_totp_enrollment confirm_totp_enrollment consume_recovery_code
      consume_recovery_code_for_rebind verify_active_totp revoke_totp_device
  call (starts settings db user actor device_id seed now) a =
      account_after (start_totp_enrollment settings db user actor device_id seed now a)
  call (confirms settings db user actor code digest noise now) a =
      account_after (confirm_totp_enrollment settings db user actor code digest noise now a)
  call (consumes db user actor code now) a =
      account_after (consume_recovery_code db user actor code now a)
  call (rebinds db user actor code noise now) a =
      account_after (consume_recovery_code_for_rebind db user actor code noise now a)
  call (verifies settings db user actor code now) a =
      account_after (verify_active_totp settings db user actor code now a)
  call (revokes settings user actor password password_ok code reason noise now) a =
      account_after
        (revoke_totp_device settings user actor password password_ok code reason noise now a)

  unfoldable pub call_all : List (Call crypto) → Account crypto → Account crypto
  unfolding call
  call_all [] a = a
  call_all (c ∷ cs) a = call_all cs (call c a)
