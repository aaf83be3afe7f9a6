-- ===== src/Session.antt =====
-- accounts/authn/mfa_session.py: the second factor's marks in the session, and their checks.
--
-- A check returns its answer with the session that it leaves: an entry that fails is dropped.
pub mod Marks
use power_adapter_blogs.Shared.{
  ℕ, ◌+◌, ◌-◌, Bool, true, false, not, ◌&&◌, ◌||◌, Option, none, some, ◌==◌, leb, ltb,
  if◌then◌else◌, any, is_some,
}
use power_adapter_blogs.Access.{manager, role_eq}
use power_adapter_blogs.Models.{
  User, BoardMembership, MfaTotpDevice, device_active, device_revoked, DeviceStatus,
  ClientCertificateBinding, Database,
}
use power_adapter_blogs.Platform.{
  Field, absent, malformed, value, PrivilegedValue, RememberValue, Session, Request,
}

unfoldable pub status_is_active : DeviceStatus → Bool
status_is_active device_active = true
status_is_active _ = false

unfoldable pub status_is_revoked : DeviceStatus → Bool
status_is_revoked device_revoked = true
status_is_revoked _ = false

unfoldable pub mfa_required_for_user : Database → User → Bool
mfa_required_for_user db user =
    if not user.is_authenticated || not user.is_active
    then false
    else if user.is_superuser
    then true
    else if user.is_dashboard_user
    then true
    else any
        (λ (m : BoardMembership). m.user_id == user.pk && (role_eq m.role manager && m.is_active))
        db.memberships

-- `active_mfa_device(user) is not None`
unfoldable pub has_active_mfa_device : Database → User → Bool
has_active_mfa_device db user =
    any (λ (d : MfaTotpDevice). d.user_id == user.pk && status_is_active d.status) db.mfa_devices

-- `low <= now - since <= ttl` with `low = 0`
unfoldable pub within_ttl : ℕ → ℕ → ℕ → Bool
within_ttl since ttl now = leb since now && leb (now - since) ttl

unfoldable pub mark_privileged_session :
    Request → MfaTotpDevice → Option ClientCertificateBinding → Option Bool → Session → Session
mark_privileged_session request device certificate_binding remember s =
    let v : PrivilegedValue = record {
      user_id = value device.user_id;
      device_id = some device.pk;
      auth_version = value device.auth_version;
      verified_at = value request.now;
      certificate_binding_id = elim certificate_binding [
        | none ↦ none
        | some binding ↦ some binding.pk
      ];
      certificate_auth_version = elim certificate_binding [
        | none ↦ absent
        | some binding ↦ value binding.auth_version
      ];
      last_seen_at = elim certificate_binding [ none ↦ absent | some binding ↦ value request.now ];
    } in
    let r : RememberValue = record {
      user_id = v.user_id;
      device_id = v.device_id;
      auth_version = v.auth_version;
      verified_at = v.verified_at;
      expires_at = value (request.now + request.settings.mfa_dashboard_remember_ttl);
    } in
    record s {
      privileged = some v;
      dashboard_remember = elim remember [
        | none ↦ s.dashboard_remember
        | some wanted ↦ if wanted && not (is_some certificate_binding) then some r else none
      ];
      pending = none;
      recovery = none;
      enrollment = none;
    }

-- `int(…)`, `float(…)` and `str(…)` of all the entries at once; `none` is the `except` branch.
unfoldable pub fields₄ : Field → Field → Option ℕ → Field → Option (ℕ × ℕ × ℕ × ℕ)
fields₄ (value a) (value b) (some c) (value d) = some (a, b, c, d)
fields₄ _ _ _ _ = none

unfoldable pub drop_privileged : Session → Session
drop_privileged s = record s { privileged = none }

-- An active device of this key, user and version.
unfoldable pub device_matches : Database → ℕ → ℕ → ℕ → Bool
device_matches db device_id user_id auth_version =
    any
      (λ (d : MfaTotpDevice).
        (d.pk == device_id && d.user_id == user_id)
        && (status_is_active d.status && d.auth_version == auth_version))
      db.mfa_devices

unfoldable pub binding_matches : Request → Database → ℕ → ℕ → Bool
binding_matches request db id version =
    any
      (λ (b : ClientCertificateBinding).
        (b.pk == id && b.user_id == request.user.pk)
        && (b.is_active && (b.auth_version == version && ltb request.now b.expires_at)))
      db.certificate_bindings

unfoldable pub presented_matches : Request → ℕ → Bool
presented_matches request id = elim request.client_certificate_binding [
  | none ↦ true
  | some binding ↦ binding.pk == id
]

-- The certificate's part of the check: `none` and a version, or a key and none, is invalid.
unfoldable pub certificate_is_valid : Request → Database → Bool → Option ℕ → Field → Bool
certificate_is_valid request db require_certificate none absent = not require_certificate
certificate_is_valid request db require_certificate none version = false
certificate_is_valid request db require_certificate (some id) (value version) =
    binding_matches request db id version && presented_matches request id
certificate_is_valid request db require_certificate (some id) version = false

-- When the session was last seen, by default when it was verified.
unfoldable pub last_seen : Field → ℕ → Option ℕ
last_seen absent verified_at = some verified_at
last_seen malformed verified_at = none
last_seen (value t) verified_at = some t

unfoldable pub is_idle_within : Request → Option ℕ → Bool
is_idle_within request none = false
is_idle_within request (some t) = within_ttl t request.settings.mfa_super_admin_idle_ttl request.now

-- The check of an entry whose numbers were read.
unfoldable pub check_privileged :
    Request → Database → Bool → Session → PrivilegedValue → ℕ × ℕ × ℕ × ℕ → Bool × Session
unfolding within_ttl device_matches certificate_is_valid binding_matches presented_matches
    is_idle_within last_seen drop_privileged
check_privileged request db require_certificate s v (verified_at, user_id, device_id, version) =
    let in_time : Bool =
      within_ttl verified_at request.settings.mfa_privileged_session_ttl request.now in
    let device : Bool = device_matches db device_id user_id version && user_id == request.user.pk in
    let certificate : Bool =
      certificate_is_valid request db require_certificate v.certificate_binding_id
        v.certificate_auth_version in
    let idle : Bool = is_idle_within request (last_seen v.last_seen_at verified_at) in
    if not in_time
    then (false, drop_privileged s)
    else if not (device && certificate)
    then (false, drop_privileged s)
    else if not require_certificate
    then (true, s)
    else if idle
    then (true, record s { privileged = some (record v { last_seen_at = value request.now }) })
    else (false, drop_privileged s)

unfoldable pub privileged_session_is_valid : Request → Database → Bool → Session → Bool × Session
unfolding check_privileged fields₄ drop_privileged
privileged_session_is_valid request db require_certificate s = elim s.privileged [
  | none ↦ (false, s)
  | some v ↦
      if not request.user.is_authenticated
      then (false, s)
      else elim (fields₄ v.verified_at v.user_id v.device_id v.auth_version) [
        | none ↦ (false, drop_privileged s)
        | some read ↦ check_privileged request db require_certificate s v read
      ]
]

unfoldable pub drop_remember : Session → Session
drop_remember s = record s { dashboard_remember = none }

unfoldable pub remember_is_valid : Request → Database → ℕ → ℕ × ℕ × ℕ × ℕ → Bool
unfolding within_ttl device_matches
remember_is_valid request db expires_at (verified_at, user_id, device_id, version) =
    within_ttl verified_at request.settings.mfa_dashboard_remember_ttl request.now
    && ((leb request.now expires_at
          && leb expires_at (verified_at + request.settings.mfa_dashboard_remember_ttl))
        && (request.user.pk == user_id
            && ((request.user.is_dashboard_user || request.user.is_superuser)
                && device_matches db device_id user_id version)))

unfoldable pub read_remember : RememberValue → Option (ℕ × (ℕ × ℕ × ℕ × ℕ))
unfolding fields₄
read_remember v = elim v.expires_at [
  | absent ↦ none
  | malformed ↦ none
  | value e ↦ elim (fields₄ v.verified_at v.user_id v.device_id v.auth_version) [
    | none ↦ none
    | some read ↦ some (e, read)
  ]
]

unfoldable pub dashboard_remembered_session_is_valid : Request → Database → Session → Bool × Session
unfolding read_remember remember_is_valid drop_remember
dashboard_remembered_session_is_valid request db s = elim s.dashboard_remember [
  | none ↦ (false, s)
  | some v ↦ if not request.user.is_authenticated then (false, s) else elim (read_remember v) [
    | none ↦ (false, drop_remember s)
    | some (e, read) ↦
        if remember_is_valid request db e read then (true, s) else (false, drop_remember s)
  ]
]

-- `or` calls the second check only where the first fails.
unfoldable pub dashboard_session_is_valid : Request → Database → Session → Bool × Session
dashboard_session_is_valid request db s =
    let (fresh, s') = privileged_session_is_valid request db false s in
    if fresh then (true, s') else dashboard_remembered_session_is_valid request db s'

unfoldable pub mark_recovery_session : Request → MfaTotpDevice → Session → Session
mark_recovery_session request device s = record s {
  recovery = some (record {
    user_id = value device.user_id;
    auth_version = value device.auth_version;
    issued_at = value request.now;
  });
  pending = none;
  privileged = none;
  enrollment = none;
}

unfoldable pub mark_enrollment_session : Request → User → Session → Session
mark_enrollment_session request user s = record s {
  enrollment = some (record { user_id = value user.pk; issued_at = value request.now });
  pending = none;
  privileged = none;
  recovery = none;
}

unfoldable pub enrollment_is_valid : Request → Database → Field → Field → Bool
unfolding within_ttl
enrollment_is_valid request db (value issued_at) (value user_id) =
    within_ttl issued_at request.settings.mfa_totp_binding_ttl request.now
    && (request.user.pk == user_id
        && (mfa_required_for_user db request.user && not (has_active_mfa_device db request.user)))
enrollment_is_valid request db _ _ = false

unfoldable pub enrollment_session_is_valid : Request → Database → Session → Bool × Session
unfolding enrollment_is_valid
enrollment_session_is_valid request db s = elim s.enrollment [
  | none ↦ (false, s)
  | some v ↦
      if not request.user.is_authenticated
      then (false, s)
      else if enrollment_is_valid request db v.issued_at v.user_id
      then (true, s)
      else (false, record s { enrollment = none })
]

unfoldable pub recovery_is_valid : Request → Database → Field → Field → Field → Bool
unfolding within_ttl
recovery_is_valid request db (value issued_at) (value user_id) (value auth_version) =
    within_ttl issued_at request.settings.mfa_challenge_ttl request.now
    && (request.user.pk == user_id
        && any
            (λ (d : MfaTotpDevice).
              d.user_id == user_id
              && (status_is_revoked d.status && d.auth_version == auth_version))
            db.mfa_devices)
recovery_is_valid request db _ _ _ = false

unfoldable pub recovery_session_is_valid : Request → Database → Session → Bool × Session
unfolding recovery_is_valid
recovery_session_is_valid request db s = elim s.recovery [
  | none ↦ (false, s)
  | some v ↦
      if not request.user.is_authenticated
      then (false, s)
      else if recovery_is_valid request db v.issued_at v.user_id v.auth_version
      then (true, s)
      else (false, record s { recovery = none })
]
