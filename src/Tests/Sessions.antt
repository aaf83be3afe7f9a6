-- ===== src/Tests/Sessions.antt =====
-- accounts/authn/mfa_session.py and boards/membership_step_up.py at concrete inputs.
use power_adapter_blogs.Shared.{ℕ, ◌≡◌, refl, true, false, none, some, [], ◌∷◌, arith, any}
use power_adapter_blogs.Platform.{PrivilegedValue, Session, World}
use power_adapter_blogs.Exec.{ok, refuse_if, ◌>>=◌}
use power_adapter_blogs.Text.{is_empty, ◌++◌}
use power_adapter_blogs.Session.{
  status_is_active, within_ttl, mark_privileged_session, fields₄, device_matches, binding_matches,
  presented_matches, certificate_is_valid, last_seen, is_idle_within, check_privileged,
  privileged_session_is_valid, dashboard_session_is_valid,
}
use power_adapter_blogs.Session.Marks.{
  Verified, IsCertified, privileged-Verified, privileged-IsCertified, mark-privileged,
}
use power_adapter_blogs.StepUp.{
  has_dashboard_access, can_manage, ttl_seconds, session_with_key, key_text, session_digest,
  check_dashboard_session, get_or_refuse, bindings_match, mark_used, consume_membership_step_up,
}
use power_adapter_blogs.StepUp.Consume.{Consumed, consumed}
use power_adapter_blogs.StepUp.OneShot.{added, untouched, consumed_once}
use power_adapter_blogs.Tests.Samples.{
  root, some_db, some_device, some_session, some_platform, some_laws, some_token, some_world,
  request_at,
}

-- The session after a check at the time `now`: it was last seen then.
abbrev seen_at : ℕ → Session
seen_at now = (privileged_session_is_valid (request_at now) some_db true some_session).1

root_verified :
    privileged_session_is_valid (request_at 800) some_db true some_session ≡ (true, seen_at 800)
unfolding privileged_session_is_valid check_privileged within_ttl fields₄ device_matches
    status_is_active certificate_is_valid binding_matches presented_matches last_seen is_idle_within
    any
root_verified = refl

privileged-Verified_example :
    (v : PrivilegedValue) × Verified (request_at 800) some_db true some_session (seen_at 800) v
privileged-Verified_example =
    privileged-Verified (request_at 800) some_db true some_session (seen_at 800) root_verified

privileged-IsCertified_example :
    (v : PrivilegedValue) × ((some_session.privileged ≡ some v)
      × IsCertified (request_at 800) some_db v.certificate_binding_id)
privileged-IsCertified_example =
    privileged-IsCertified (request_at 800) some_db some_session (seen_at 800) root_verified

root_device : device_matches some_db 7 4 1 ≡ true
unfolding device_matches status_is_active any
root_device = refl

mark-privileged_example :
    (privileged_session_is_valid
      (request_at 900)
      some_db
      false
      (mark_privileged_session (request_at 700) some_device none (some true) some_session)).0
    ≡ true
mark-privileged_example =
    mark-privileged (request_at 700) (request_at 900) some_device some_db (some true) some_session
      refl refl (omega arith) (omega arith) root_device

-- Too late: the entry is dropped.
abbrev dropped : Session
dropped = record some_session { privileged = none }

abbrev spent_world : World some_platform
spent_world = record some_world {
  cache = ("membership-step-up:used:" ++ "n", 1100) ∷ [];
  session = (dashboard_session_is_valid (request_at 800) some_db some_session).1;
}

root_consumes :
    consume_membership_step_up some_platform
      (request_at 800)
      (some_token "grant" "t" "n")
      root
      "grant"
      "t"
      some_world
    ≡ (ok tt, spent_world)
unfolding consume_membership_step_up ◌>>=◌ get_or_refuse check_dashboard_session session_digest
    session_with_key key_text mark_used refuse_if ttl_seconds bindings_match can_manage
    has_dashboard_access is_empty any dashboard_session_is_valid privileged_session_is_valid
    check_privileged within_ttl fields₄ device_matches status_is_active certificate_is_valid
    binding_matches presented_matches last_seen is_idle_within
root_consumes = refl

consumed_example :
    Consumed some_platform
      (request_at 800)
      (some_token "grant" "t" "n")
      root
      "grant"
      "t"
      some_world
      spent_world
consumed_example =
    consumed some_platform (request_at 800) (some_token "grant" "t" "n") root "grant" "t" some_world
      spent_world root_consumes

abbrev later_world : World some_platform
later_world = record spent_world {
  cache = (some_platform.cache_add "membership-step-up:used:m" 300 820 spent_world.cache).1;
}

consumed_once_example : ¬ (
    consume_membership_step_up some_platform
      (request_at 900)
      (some_token "grant" "t" "n")
      root
      "grant"
      "t"
      later_world
    ≡ (ok tt, later_world))
consumed_once_example =
    consumed_once some_platform some_laws (some_token "grant" "t" "n") (request_at 800)
      (request_at 900) root root "grant" "grant" "t" "t" some_world spent_world later_world
      later_world (unfold some_laws in omega arith) (omega arith) refl
      (added "membership-step-up:used:m" 300 820 untouched) root_consumes
