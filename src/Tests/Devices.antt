-- ===== src/Tests/Devices.antt =====
-- accounts/authn/mfa_services.py at concrete inputs: a secret is its seed, and a code is a step's name.
use power_adapter_blogs.Shared.{
  ℕ, String, ◌<◌, ◌≡◌, refl, true, Option, none, some, List, [], ◌∷◌, arith, ◌==◌, any, find,
  select, text_eq, if◌then◌else◌,
}
use power_adapter_blogs.Text.{is_empty}
use power_adapter_blogs.Models.{device_active, device_revoked}
use power_adapter_blogs.Session.{status_is_active, status_is_revoked}
use power_adapter_blogs.Totp.{
  Crypto, seed, MfaSettings, integer_setting, TotpDevice, MfaAudit, Account, raises, returns,
  account_after, is_enrollment_eligible, is_self_service, is_unused, steps_from, window_steps,
  matched, is_replay, matching_step, decrypt_seed, with_audit, atomically, erased,
  erase_device_secret,
}
use power_adapter_blogs.Totp.Challenge.{
  matching_code, consume_match, consume_device, consume_recovery_code, verify_match, verify_seed,
  verify_device, verify_active_totp, revoke_match, revoke_seed, revoke_device, revoke_body,
  revoke_totp_device, finish_revocation, is_reset_reason,
}
use power_adapter_blogs.Totp.Calls.{Call, consumes, verifies, call, call_all}
use power_adapter_blogs.Totp.Lifecycle.{dates_valid, IsSoundAccount, call_all-IsSoundAccount}
use power_adapter_blogs.Totp.Replay.{version_of, verify_active_totp-increases}
use power_adapter_blogs.Totp.Refusals.{
  Revoked, revoke_totp_device-Revoked, revoke_totp_device-unrecorded,
}
use power_adapter_blogs.Tests.Samples.{root, some_db}

abbrev step_name : ℕ → String
step_name step = if step == 50 then "fifty" else if step == 60 then "sixty" else ""

abbrev some_crypto : Crypto
some_crypto = record {
  Secret = ℕ;
  Seed = ℕ;
  encrypt = λ s user_id device_id. s;
  decrypt = λ secret user_id device_id. seed secret;
  timecode = λ now. now;
  generate_otp = λ s step. step_name step;
  codes_equal = λ a b. text_eq a b;
  check_password = λ code digest. text_eq code digest;
}

abbrev some_settings : MfaSettings
some_settings = record {
  keyring_ids = some ("k" ∷ []);
  active_key_id = "k";
  binding_ttl = some 600;
  valid_window = some 1;
  recovery_code_count = some 10;
  issuer = some "blog";
}

abbrev active_device : Option ℕ → TotpDevice some_crypto
active_device last = record {
  pk = 7;
  user_id = 4;
  status = device_active;
  secret = 3;
  binding_expires_at = 20;
  confirmed_at = some 10;
  revoked_at = none;
  last_accepted_step = last;
  auth_version = 1;
}

abbrev audited : String → String → MfaAudit
audited name reason = record {
  name = name;
  device_id = 7;
  status = device_active;
  auth_version = 1;
  reason = reason;
}

abbrev account_at : Option ℕ → List MfaAudit → Account some_crypto
account_at last audit = record {
  device = some (active_device last);
  recovery_codes = record { pk = 1; code_digest = "code"; used_at = none } ∷ [];
  audit = audit;
}

start_IsSoundAccount : IsSoundAccount (account_at (some 40) [])
unfolding dates_valid status_is_active
start_IsSoundAccount = record {
  device = λ d e.
      let same : active_device (some 40) ≡ d = cc in
      rw (← same) (record { dates = refl; version = omega arith; step = refl });
  codes_of_inactive = λ d e h.
      absurd (let same : active_device (some 40) ≡ d = cc in let q = rw (← same) at h in cc);
  codes_of_none = λ e. absurd cc;
}

abbrev verified : MfaAudit
verified = audited "challenge_verified" "none"

first_verified :
    verify_active_totp some_settings some_db root root "fifty" 50 (account_at (some 40) [])
    ≡ returns 50 (account_at (some 50) (verified ∷ []))
unfolding verify_active_totp verify_device verify_seed verify_match decrypt_seed matching_step
    integer_setting window_steps steps_from matched is_self_service is_enrollment_eligible
    status_is_active with_audit is_replay find any
first_verified = refl

-- Between the two, a recovery code that nobody has.
abbrev one_failure : List (Call some_crypto)
one_failure = consumes some_db root root "wrong" 55 ∷ []

abbrev failed_recovery : MfaAudit
failed_recovery = audited "recovery_failed" "invalid_code"

after_failure :
    call_all one_failure (account_at (some 50) (verified ∷ []))
    ≡ account_at (some 50) (verified ∷ failed_recovery ∷ [])
unfolding call_all call account_after atomically consume_recovery_code consume_device consume_match
    matching_code select is_unused is_self_service is_enrollment_eligible status_is_active
    with_audit find any
after_failure = refl

second_verified :
    verify_active_totp some_settings some_db root root "sixty" 60
      (call_all one_failure (account_at (some 50) (verified ∷ [])))
    ≡ returns 60 (account_at (some 60) (verified ∷ failed_recovery ∷ verified ∷ []))
unfolding verify_active_totp verify_device verify_seed verify_match decrypt_seed matching_step
    integer_setting window_steps steps_from matched is_self_service is_enrollment_eligible
    status_is_active with_audit is_replay find any call_all call account_after atomically
    consume_recovery_code consume_device consume_match matching_code select is_unused
second_verified = refl

same_version :
    version_of (account_at (some 50) (verified ∷ [])).device
    ≡ version_of (call_all one_failure (account_at (some 50) (verified ∷ []))).device
unfolding version_of call_all call account_after atomically consume_recovery_code consume_device
    consume_match matching_code select is_unused is_self_service is_enrollment_eligible
    status_is_active with_audit find any
same_version = refl

verify_active_totp-increases_example : 50 < 60
verify_active_totp-increases_example =
    verify_active_totp-increases some_settings some_settings some_db some_db root root root root
      "fifty" "sixty" 50 60 one_failure (account_at (some 40) [])
      (account_at (some 50) (verified ∷ []))
      (account_at (some 60) (verified ∷ failed_recovery ∷ verified ∷ [])) 50 60 start_IsSoundAccount
      first_verified second_verified same_version

call_all-IsSoundAccount_example : IsSoundAccount (
    call_all
      (verifies some_settings some_db root root "fifty" 50 ∷ one_failure)
      (account_at (some 40) []))
call_all-IsSoundAccount_example =
    call_all-IsSoundAccount (verifies some_settings some_db root root "fifty" 50 ∷ one_failure)
      (account_at (some 40) []) start_IsSoundAccount

-- The refusal is recorded in the block, and taken back with it.
refusal_recorded :
    revoke_body some_settings root root "pw" true "wrong" "self_reset" 9 50
      (account_at (some 40) [])
    ≡ raises "invalid_code"
        (account_at (some 40) (audited "device_revoke_failed" "invalid_code" ∷ []))
unfolding revoke_body revoke_device revoke_seed revoke_match decrypt_seed matching_step
    integer_setting window_steps steps_from matched is_empty status_is_revoked find with_audit
refusal_recorded = refl

refusal_unrecorded :
    revoke_totp_device some_settings root root "pw" true "wrong" "self_reset" 9 50
      (account_at (some 40) [])
    ≡ raises "invalid_code" (account_at (some 40) [])
refusal_unrecorded =
    revoke_totp_device-unrecorded some_settings root root "pw" true "wrong" "self_reset"
      "invalid_code" 9 50 (account_at (some 40) []) _ refusal_recorded

abbrev revoked_account : Account some_crypto
unfolding erased
revoked_account = record {
  device = some (erased (active_device (some 40)) 9 50);
  recovery_codes = [];
  audit =
      audited "device_revoke_step_up_verified" "none"
      ∷ record {
        name = "device_revoked";
        device_id = 7;
        status = device_revoked;
        auth_version = 2;
        reason = "self_reset";
      }
      ∷ [];
}

root_revoked :
    revoke_totp_device some_settings root root "pw" true "fifty" "self_reset" 9 50
      (account_at (some 40) [])
    ≡ returns true revoked_account
unfolding revoke_totp_device atomically revoke_body revoke_device revoke_seed revoke_match
    decrypt_seed matching_step integer_setting window_steps steps_from matched is_empty
    status_is_revoked find with_audit finish_revocation erase_device_secret erased is_replay
    is_reset_reason
root_revoked = refl

revoke_totp_device-Revoked_example :
    Revoked some_settings root root "pw" true "fifty" 9 50 (account_at (some 40) []) revoked_account
revoke_totp_device-Revoked_example =
    revoke_totp_device-Revoked some_settings root root "pw" true "fifty" "self_reset" 9 50
      (account_at (some 40) []) revoked_account true root_revoked
