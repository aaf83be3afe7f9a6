-- ===== src/StepUp.antt =====
-- boards/membership_step_up.py: a one-shot capability for one membership change.
--
-- Issuing it verifies a TOTP code, which is not modelled: here a capability is any token, and
-- `loads` says what the signature lets through.
pub mod Consume
pub mod OneShot
use power_adapter_blogs.Shared.{
  ℕ, String, Bool, false, not, ◌&&◌, ◌||◌, Option, none, some, ◌==◌, leb, if◌then◌else◌, text_eq,
}
use power_adapter_blogs.Models.{User}
use power_adapter_blogs.Platform.{
  absent, malformed, value, Settings, Session, Request, Payload, Platform, World,
}
use power_adapter_blogs.Session.{dashboard_session_is_valid}
use power_adapter_blogs.Text.{is_empty, ◌++◌}
use power_adapter_blogs.Exec.{
  step_up_error, StepUpReason, not_allowed, config_invalid, session_unavailable,
  privileged_session_required, invalid_or_expired, binding_mismatch, already_consumed, ok, err,
  Exec, refuse_if, ◌>>=◌, ◌>>◌,
}

abbrev pub manage_membership_permission : String
manage_membership_permission = "boards.manage_all_board_memberships"

-- PowerAdapterBlogs/base_admin.py
unfoldable pub has_dashboard_access : User → Bool
has_dashboard_access user =
    if not user.is_authenticated || not user.is_active
    then false
    else user.is_dashboard_user || user.is_superuser

-- `_ttl_seconds`, `none` where it raises `config_invalid`
unfoldable pub ttl_seconds : Settings → Option ℕ
ttl_seconds settings = elim settings.membership_step_up_ttl [
  | absent ↦ some 300
  | malformed ↦ none
  | value n ↦ if leb 60 n && leb n 300 then some n else none
]

module _ (p : Platform) where
  open p use {Token, has_perm, loads, sha256, cache_add}

  unfoldable pub can_manage : User → Bool
  can_manage user = has_dashboard_access user && has_perm user manage_membership_permission

  -- A session that has no key is saved, which gives it one.
  unfoldable pub session_with_key : Request → Session → Session
  session_with_key request s = elim s.session_key [
    | none ↦ record s { session_key = some request.fresh_session_key }
    | some key ↦ s
  ]

  unfoldable pub key_text : Session → String
  key_text s = elim s.session_key [ none ↦ "" | some key ↦ key ]

  unfoldable pub session_digest : Request → Exec (World p) String
  unfolding session_with_key key_text
  session_digest request w =
      let s : Session = session_with_key request w.session in
      if is_empty (key_text s)
      then (err (step_up_error session_unavailable), record w { session = s })
      else (ok (sha256 (key_text s)), record w { session = s })

  unfoldable pub check_dashboard_session : Request → Exec (World p) (Unit {0})
  check_dashboard_session request w =
      let (valid, s) = dashboard_session_is_valid request w.db w.session in
      if valid
      then (ok tt, record w { session = s })
      else (err (step_up_error privileged_session_required), record w { session = s })

  unfoldable pub get_or_refuse {ℓ} : {A : Type ℓ} → StepUpReason → Option A → Exec (World p) A
  get_or_refuse reason none w = (err (step_up_error reason), w)
  get_or_refuse reason (some a) w = (ok a, w)

  -- The loop over `expected`: every binding of the payload is the expected one.
  unfoldable pub bindings_match : Payload → User → String → String → String → Bool
  bindings_match payload actor digest action target =
      payload.user_id == actor.pk
      && (text_eq payload.session digest
          && (text_eq payload.action action && text_eq payload.target target))

  abbrev pub used_key : String → String
  used_key nonce = "membership-step-up:used:" ++ sha256 nonce

  -- `cache.add`, refused where the key is there
  unfoldable pub mark_used : Request → String → ℕ → Exec (World p) (Unit {0})
  mark_used request nonce ttl w =
      let (added, cache) = cache_add (used_key nonce) ttl request.now w.cache in
      if added
      then (ok tt, record w { cache = cache })
      else (err (step_up_error already_consumed), record w { cache = cache })

  unfoldable pub consume_membership_step_up :
      Request → Token → User → String → String → Exec (World p) (Unit {0})
  unfolding ◌>>=◌ get_or_refuse check_dashboard_session session_digest mark_used
  consume_membership_step_up request token actor action target = do
    refuse_if (not (actor.pk == request.user.pk) || not (can_manage actor))
        (step_up_error not_allowed)
    check_dashboard_session request
    max_age ← get_or_refuse config_invalid (ttl_seconds request.settings)
    payload ← get_or_refuse invalid_or_expired (loads token max_age request.now)
    digest ← session_digest request
    refuse_if (not (bindings_match payload actor digest action target))
        (step_up_error binding_mismatch)
    refuse_if (is_empty payload.nonce) (step_up_error invalid_or_expired)
    timeout ← get_or_refuse config_invalid (ttl_seconds request.settings)
    mark_used request payload.nonce timeout
