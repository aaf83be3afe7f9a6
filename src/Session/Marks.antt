-- ===== src/Session/Marks.antt =====
-- accounts/authn/mfa_session.py: what the checks of the marks accept, and what they leave.
use power_adapter_blogs.Shared.{
  ℕ, ◌+◌, ◌≤◌, ◌≡◌, Bool, true, false, Option, none, some, arith, Option-cases, inl, inr,
}
use power_adapter_blogs.Models.{MfaTotpDevice, Database}
use power_adapter_blogs.Platform.{
  Field, absent, malformed, value, PrivilegedValue, Session, Request,
}
use power_adapter_blogs.Session.{
  within_ttl, mark_privileged_session, fields₄, device_matches, binding_matches, presented_matches,
  certificate_is_valid, last_seen, is_idle_within, check_privileged, privileged_session_is_valid,
}

module _ (request : Request) (db : Database) (require_certificate : Bool) (s s' : Session) where
  -- What a check that succeeds has seen.
  pub record Verified (v : PrivilegedValue) : Type 0 where
    pub verified_at : ℕ
    pub device_id : ℕ
    pub version : ℕ
    pub signed_in : request.user.is_authenticated ≡ true
    pub entry : s.privileged ≡ some v
    pub read :
        fields₄ v.verified_at v.user_id v.device_id v.auth_version
        ≡ some (verified_at, request.user.pk, device_id, version)
    pub since : verified_at ≤ request.now
    pub in_time : request.now ≤ verified_at + request.settings.mfa_privileged_session_ttl
    pub by_device : device_matches db device_id request.user.pk version ≡ true
    pub by_certificate :
        certificate_is_valid request db require_certificate v.certificate_binding_id
          v.certificate_auth_version
        ≡ true

  verified_guards :
      (v : PrivilegedValue) (at user_id device_id version : ℕ)
      → check_privileged request db require_certificate s v (at, user_id, device_id, version)
        ≡ (true, s')
      → (user_id ≡ request.user.pk)
        × (at ≤ request.now)
        × (request.now ≤ at + request.settings.mfa_privileged_session_ttl)
        × (device_matches db device_id user_id version ≡ true)
        × (certificate_is_valid request db require_certificate v.certificate_binding_id
              v.certificate_auth_version
            ≡ true)
  unfolding check_privileged within_ttl
  verified_guards v at user_id device_id version h = ground arith

  -- Where the privileged check succeeds, the user is signed in, the session's entry is the
  -- user's and at most the configured time old, it names an active device of the user at its
  -- present version, and the certificate's part of the check holds.
  pub privileged-Verified :
      privileged_session_is_valid request db require_certificate s ≡ (true, s')
      → (v : PrivilegedValue) × Verified v
  unfolding privileged_session_is_valid
  privileged-Verified h = elim (Option-cases s.privileged) [
    | inl none_there ↦ ground arith
    | inr (v, e) ↦
        elim (Option-cases (fields₄ v.verified_at v.user_id v.device_id v.auth_version)) [
          | inl f ↦ ground arith
          | inr ((at, user_id, device_id, version), f) ↦
              let signed_in : request.user.is_authenticated ≡ true = ground arith in
              let (own, a, b, c, d) =
                verified_guards v at user_id device_id version (ground arith) in
              (
                v,
                record {
                  verified_at = at;
                  device_id = device_id;
                  version = version;
                  signed_in = signed_in;
                  entry = e;
                  read = rw (← own) f;
                  since = a;
                  in_time = b;
                  by_device = rw (← own) c;
                  by_certificate = d;
                },
              )
        ]
  ]

-- The certificate that an entry was made with is still good for the request.
pub data IsCertified (request : Request) (db : Database) : Option ℕ → Type 0 where
  certified :
      (id version : ℕ)
      → binding_matches request db id version ≡ true
      → presented_matches request id ≡ true
      → IsCertified request db (some id)

required-IsCertified :
    (request : Request) (db : Database) (binding : Option ℕ) (version : Field)
    → certificate_is_valid request db true binding version ≡ true
    → IsCertified request db binding
unfolding certificate_is_valid
required-IsCertified request db none absent h = ground arith
required-IsCertified request db none malformed h = ground arith
required-IsCertified request db none (value n) h = ground arith
required-IsCertified request db (some id) absent h = ground arith
required-IsCertified request db (some id) malformed h = ground arith
required-IsCertified request db (some id) (value version) h =
    certified id version (ground arith) (ground arith)

-- A check that requires a certificate accepts no entry made without one: the entry's certificate
-- is an active one of the user that has not expired, and where the request presents a
-- certificate it is that one.
pub privileged-IsCertified :
    (request : Request) (db : Database) (s s' : Session)
    → privileged_session_is_valid request db true s ≡ (true, s')
    → (v : PrivilegedValue) × ((s.privileged ≡ some v)
        × IsCertified request db v.certificate_binding_id)
privileged-IsCertified request db s s' h =
    let (v, k) = privileged-Verified request db true s s' h in
    (v, (k.entry, required-IsCertified request db _ _ k.by_certificate))

-- Where a device was verified without a certificate, a signed-in request of its user passes the
-- check that requires none, within the configured time, as long as the device is active at that
-- version.
pub mark-privileged :
    (request later : Request) (device : MfaTotpDevice) (db : Database) (remember : Option Bool)
    (s : Session)
    → later.user.pk ≡ device.user_id
    → later.user.is_authenticated ≡ true
    → request.now ≤ later.now
    → later.now ≤ request.now + later.settings.mfa_privileged_session_ttl
    → device_matches db device.pk device.user_id device.auth_version ≡ true
    → (privileged_session_is_valid later db false
        (mark_privileged_session request device none remember s)).0
      ≡ true
unfolding privileged_session_is_valid mark_privileged_session check_privileged within_ttl fields₄
    certificate_is_valid last_seen is_idle_within
mark-privileged request later device db remember s own signed_in a b found = ground arith
