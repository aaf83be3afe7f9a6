-- ===== src/Totp/Replay.antt =====
-- accounts/authn/mfa_services.py: the steps that `verify_active_totp` accepts, over any calls.
use power_adapter_blogs.Shared.{
  ℕ, ◌+◌, ◌≤◌, ◌<◌, String, ◌≡◌, refl, sym, ap, ◌∙◌, ◌⊎◌, inl, inr, true, false, Option, none, some,
  List, [], ◌∷◌, arith, Bool-cases, Option-cases,
}
use power_adapter_blogs.Models.{
  User, Database, DeviceStatus, device_pending, device_active, device_revoked,
}
use power_adapter_blogs.Session.{status_is_active}
use power_adapter_blogs.Totp.{
  Crypto, Decrypted, keyring_missing, unreadable, seed, MfaSettings, TotpDevice, Account, Served,
  returns, account_after, is_self_service, Matched, bad_window, no_match, match_at, is_replay,
  erased, matching_step, decrypt_seed, with_audit, is_pending_device,
}
use power_adapter_blogs.Totp.Enrollment.{enrolled, confirmed}
use power_adapter_blogs.Totp.Challenge.{
  accepting, verify_match, verify_seed, verify_device, verify_active_totp,
}
use power_adapter_blogs.Totp.Calls.{Call, call, call_all}
use power_adapter_blogs.Totp.ChallengeMoves.{call-Move}
use power_adapter_blogs.Totp.Moves.{Move, kept, started, restarted, confirms_at, accepts, erases}
use power_adapter_blogs.Totp.Lifecycle.{IsSoundDevice, IsSoundAccount, Move-IsSoundAccount}

-- The accepted step, with none before every step
unfoldable pub rank : Option ℕ → ℕ
rank none = 0
rank (some step) = step + 1

pending_inactive : (s : DeviceStatus) → is_pending_device s ≡ true → status_is_active s ≡ false
unfolding is_pending_device status_is_active
pending_inactive device_pending h = refl
pending_inactive device_active h = cc
pending_inactive device_revoked h = cc

not_replay : (step : ℕ) (last : Option ℕ) → is_replay step last ≡ false → rank last ≤ step
unfolding is_replay rank
not_replay step none h = omega arith
not_replay step (some l) h = ground arith

module _ {crypto : Crypto} where
  -- `e` is the device `d` at a later time, or the one that replaced it.
  Later : TotpDevice crypto → TotpDevice crypto → Type 0
  Later d e =
      (d.auth_version < e.auth_version)
      ⊎ ((d.auth_version ≡ e.auth_version)
          × (rank d.last_accepted_step ≤ rank e.last_accepted_step))

  LaterAccount : TotpDevice crypto → Account crypto → Type 0
  LaterAccount d b = (e : TotpDevice crypto) × (b.device ≡ some e) × Later d e

  Later-refl : (d : TotpDevice crypto) → Later d d
  unfolding Later
  Later-refl d = inr (refl, omega arith)

  Later-trans : (d e f : TotpDevice crypto) → Later d e → Later e f → Later d f
  unfolding Later
  Later-trans d e f (inl p) (inl q) = inl (omega arith)
  Later-trans d e f (inl p) (inr (q, r)) = inl (omega arith)
  Later-trans d e f (inr (p, r)) (inl q) = inl (omega arith)
  Later-trans d e f (inr (p, r)) (inr (q, s)) = inr (omega arith, omega arith)

  inactive_rank :
      (d : TotpDevice crypto)
      → IsSoundDevice d
      → status_is_active d.status ≡ false
      → rank d.last_accepted_step ≡ 0
  unfolding rank
  inactive_rank d h f = elim (Option-cases d.last_accepted_step) [
    | inl e ↦ rw e refl
    | inr (s, e) ↦ absurd (let q = h.step in ground arith)
  ]

  enrolled-Later :
      (d : TotpDevice crypto) (s : crypto.Seed) (t : ℕ)
      → rank d.last_accepted_step ≡ 0
      → Later d (enrolled d s t)
  unfolding Later enrolled rank
  enrolled-Later d s t h = inr (refl, omega arith)

  confirmed-Later :
      (d : TotpDevice crypto) (step now : ℕ)
      → rank d.last_accepted_step ≡ 0
      → Later d (confirmed d step now)
  unfolding Later confirmed
  confirmed-Later d step now h = inr (refl, omega arith)

  accepting-Later :
      (d : TotpDevice crypto) (step : ℕ)
      → is_replay step d.last_accepted_step ≡ false
      → Later d (accepting d step)
  unfolding Later rank
  accepting-Later d step h = inr (refl, omega (arith, not_replay step d.last_accepted_step h))

  erased-Later :
      (d : TotpDevice crypto) (noise : crypto.Secret) (now : ℕ) → Later d (erased d noise now)
  unfolding Later erased
  erased-Later d noise now = inl (omega arith)

  Move-Later :
      (a b : Account crypto) (d : TotpDevice crypto)
      → Move a b
      → IsSoundAccount a
      → a.device ≡ some d
      → LaterAccount d b
  unfolding LaterAccount
  Move-Later a b d (kept e codes) h at = (d, e ∙ at, Later-refl d)
  Move-Later a b d (started x s t e v e' codes) h at = absurd cc
  Move-Later a b d (restarted x s t e inactive e' codes) h at =
      let same : x ≡ d = cc in
      (
        enrolled x s t,
        e',
        rw (← same) (enrolled-Later x s t (inactive_rank x (h.device x e) inactive)),
      )
  Move-Later a b d (confirms_at x step now e p e') h at =
      let same : x ≡ d = cc in
      (
        confirmed x step now,
        e',
        rw (← same) (
            confirmed-Later x step now
              (inactive_rank x (h.device x e) (pending_inactive x.status p))),
      )
  Move-Later a b d (accepts x step e active new e') h at =
      let same : x ≡ d = cc in (accepting x step, e', rw (← same) (accepting-Later x step new))
  Move-Later a b d (erases x noise now e e' codes) h at =
      let same : x ≡ d = cc in (erased x noise now, e', rw (← same) (erased-Later x noise now))

  calls-Later :
      (calls : List (Call crypto)) (a : Account crypto) (d : TotpDevice crypto)
      → IsSoundAccount a
      → a.device ≡ some d
      → LaterAccount d (call_all calls a)
  unfolding call_all LaterAccount
  calls-Later [] a d h at = (d, at, Later-refl d)
  calls-Later (c ∷ cs) a d h at =
      let (e, at', l) = Move-Later a (call c a) d (call-Move c a) h at in
      let (f, at'', l') =
        calls-Later cs (call c a) e (Move-IsSoundAccount a (call c a) (call-Move c a) h) at' in
      (f, at'', Later-trans d e f l l')

  -- What a verification has done that returned a step.
  record Accepted (a b : Account crypto) (step : ℕ) : Type 0 where
    device : TotpDevice crypto
    before : a.device ≡ some device
    fresh : is_replay step device.last_accepted_step ≡ false
    after : b.device ≡ some (accepting device step)

  verify_match-Accepted :
      (d : TotpDevice crypto) (m : Matched) (a b : Account crypto) (step : ℕ)
      → a.device ≡ some d
      → verify_match d m a ≡ returns step b
      → Accepted a b step
  unfolding verify_match with_audit account_after
  verify_match-Accepted d bad_window a b step e h = absurd cc
  verify_match-Accepted d no_match a b step e h = absurd cc
  verify_match-Accepted d (match_at t) a b step e h =
      elim (Bool-cases (is_replay t d.last_accepted_step)) [
        | inl old ↦ absurd (let q = rw old at h in cc)
        | inr new ↦
            let same : t ≡ step = let q = rw new at h in cc in
            record {
              device = d;
              before = e;
              fresh = rw (← same) new;
              after =
                  let q = rw new at h in
                  rw (← same) (ap (λ (r : Served crypto ℕ). (account_after r).device) (sym q));
            }
      ]

  verify_seed-Accepted :
      (settings : MfaSettings) (d : TotpDevice crypto) (r : Decrypted crypto.Seed) (code : String)
      (now : ℕ) (a b : Account crypto) (step : ℕ)
      → a.device ≡ some d
      → verify_seed settings d r code now a ≡ returns step b
      → Accepted a b step
  unfolding verify_seed
  verify_seed-Accepted settings d keyring_missing code now a b step e h = absurd cc
  verify_seed-Accepted settings d unreadable code now a b step e h = absurd cc
  verify_seed-Accepted settings d (seed s) code now a b step e h =
      verify_match-Accepted d (matching_step crypto settings s code now) a b step e h

  verify_device-Accepted :
      (settings : MfaSettings) (o : Option (TotpDevice crypto)) (code : String) (now : ℕ)
      (a b : Account crypto) (step : ℕ)
      → a.device ≡ o
      → verify_device settings o code now a ≡ returns step b
      → Accepted a b step
  unfolding verify_device
  verify_device-Accepted settings none code now a b step e h = absurd cc
  verify_device-Accepted settings (some d) code now a b step e h =
      elim (Bool-cases (status_is_active d.status)) [
        | inl active ↦
            verify_seed-Accepted settings d (decrypt_seed d) code now a b step e (rw active at h)
        | inr inactive ↦ absurd (let q = rw inactive at h in cc)
      ]

  verify-Accepted :
      (settings : MfaSettings) (db : Database) (user actor : User) (code : String) (now : ℕ)
      (a b : Account crypto) (step : ℕ)
      → verify_active_totp settings db user actor code now a ≡ returns step b
      → Accepted a b step
  unfolding verify_active_totp
  verify-Accepted settings db user actor code now a b step h =
      elim (Bool-cases (is_self_service db user actor)) [
        | inl self ↦ verify_device-Accepted settings a.device code now a b step refl (rw self at h)
        | inr other ↦ absurd (let q = rw other at h in cc)
      ]

  unfoldable pub version_of : Option (TotpDevice crypto) → ℕ
  version_of none = 0
  version_of (some d) = d.auth_version

  Accepted-increases :
      (a a' b b' : Account crypto) (step step' : ℕ) (x : Accepted a a' step)
      (y : Accepted b b' step')
      → LaterAccount (accepting x.device step) b
      → version_of a'.device ≡ version_of b.device
      → step < step'
  unfolding LaterAccount Later version_of rank
  Accepted-increases a a' b b' step step' x y (e, at, inl newer) h = absurd (
      let d : version_of a'.device ≡ x.device.auth_version = rw x.after refl in
      let v : version_of b.device ≡ e.auth_version = rw at refl in omega arith)
  Accepted-increases a a' b b' step step' x y (e, at, inr (same, order)) h =
      let k : rank y.device.last_accepted_step ≤ step' =
        not_replay step' y.device.last_accepted_step y.fresh in
      let q : e ≡ y.device = let z = sym at ∙ y.before in cc in
      let r : rank e.last_accepted_step ≡ rank y.device.last_accepted_step =
        ap (λ (d : TotpDevice crypto). rank d.last_accepted_step) q in
      omega arith

  -- From a sound account, where a verification accepts a step and a later one, after any calls
  -- of the device's services, accepts a step at the same authentication version, the later
  -- step is greater: no code step is accepted twice.
  pub verify_active_totp-increases :
      (settings settings' : MfaSettings) (db db' : Database) (user user' actor actor' : User)
      (code code' : String) (now now' : ℕ) (calls : List (Call crypto)) (a a' b : Account crypto)
      (step step' : ℕ)
      → IsSoundAccount a
      → verify_active_totp settings db user actor code now a ≡ returns step a'
      → verify_active_totp settings' db' user' actor' code' now' (call_all calls a')
        ≡ returns step' b
      → version_of a'.device ≡ version_of (call_all calls a').device
      → step < step'
  unfolding call account_after
  verify_active_totp-increases settings settings' db db' user user' actor actor' code code' now now'
        calls a a' b step step' sound first second version =
      let x : Accepted a a' step =
        verify-Accepted settings db user actor code now a a' step first in
      let y : Accepted (call_all calls a') b step' =
        verify-Accepted settings' db' user' actor' code' now' (call_all calls a') b step' second in
      let sound' : IsSoundAccount a' = rw (ap account_after first) at (
        Move-IsSoundAccount a (call (Call.verifies settings db user actor code now) a)
          (call-Move (Call.verifies settings db user actor code now) a) sound) in
      Accepted-increases a a' (call_all calls a') b step step' x y
        (calls-Later calls a' (accepting x.device step) sound' x.after) version
