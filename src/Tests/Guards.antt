-- ===== src/Tests/Guards.antt =====
-- boards/services.py at concrete inputs: a rejected request, a withdrawal and a break-glass.
use power_adapter_blogs.Shared.{
  ◌≡◌, refl, ◌⊎◌, true, false, none, some, [], ◌∷◌, ◌==◌, count, find, any,
}
use power_adapter_blogs.Access.{contributor, manager, role_eq, is_known, allows_board_action}
use power_adapter_blogs.Models.{BoardAccessRequest, pending, rejected, Database}
use power_adapter_blogs.Exec.{ok, refuse_if, get_or_raise, ◌>>=◌}
use power_adapter_blogs.Text.{
  is_ascii, is_empty, strip, strip_left, strip_right, is_space, text_of_number,
}
use power_adapter_blogs.Session.{
  status_is_active, within_ttl, fields₄, device_matches, binding_matches, presented_matches,
  certificate_is_valid, last_seen, is_idle_within, check_privileged, privileged_session_is_valid,
  dashboard_session_is_valid,
}
use power_adapter_blogs.StepUp.{
  has_dashboard_access, can_manage, ttl_seconds, session_with_key, key_text, session_digest,
  check_dashboard_session, get_or_refuse, bindings_match, mark_used, consume_membership_step_up,
}
use power_adapter_blogs.Policies.{
  is_active_authenticated, is_active_superuser, get_active_membership, is_active_member_of, allows,
  allows_member, can_manage_board_members,
}
use power_adapter_blogs.Policies.Querysets.{board_row}
use power_adapter_blogs.Membership.{
  is_pending, is_member, is_super_admin, is_active_manager, manages, active_managers,
  breaks_continuity, check_target, has_other_pending, current_membership, event_type_of,
  transition_event_type, apply_change, write_membership, set_membership,
  transition_board_membership,
}
use power_adapter_blogs.Membership.Requests.{
  atomic, user_row, locked_row, LockedRequest, locked_request, lock_request, is_manager_grantable,
  can_review_board_access_request, is_reserved, decided_request, save_decision, carry_out,
  decide_body, decide_board_access_request,
}
use power_adapter_blogs.Membership.Dashboard.{
  atomic_world, fetch, reads, required_reason, reject_pending_membership_request, transition, on_db,
  break_glass_change, membership_target,
}
use power_adapter_blogs.Membership.Dashboard.Changes.{
  usable_binding, check_privileged_session, require_membership_break_glass_context, locked_binding,
  is_listed_manager, break_glass_confirmation, break_glass_target, break_glass_body,
  break_glass_deactivate_last_manager,
}
use power_adapter_blogs.Membership.Guards.{decide_by_another, break_glass-needs_superuser}
use power_adapter_blogs.Membership.Dashboard.{
  dashboard_change, consume_dashboard_step_up, require_dashboard_membership_actor,
}
use power_adapter_blogs.Membership.Dashboard.Changes.{deactivate_body, deactivate_board_membership}
use power_adapter_blogs.Membership.Calls.{Call, deactivates, call}
use power_adapter_blogs.Membership.Authority.{IsAuthorized, call-IsAuthorized}
use power_adapter_blogs.Tests.Samples.{
  alice, dora, root, member, tech, some_binding, some_db, some_session, some_platform, some_token,
  some_world, request_at,
}

abbrev doras_request : BoardAccessRequest
doras_request = record {
  pk = 1;
  board_id = 1;
  applicant_id = 5;
  requested_role = contributor;
  reason = "please";
  status = pending;
  previous_role = none;
  reviewed_by = none;
  decision_note = "";
  reviewed_at = none;
}

abbrev asked_db : Database
asked_db = record some_db { requests = doras_request ∷ [] }

abbrev doras_locked : LockedRequest
doras_locked = record { row = doras_request; board = tech; applicant = dora }

doras_locked_found : locked_request asked_db 1 ≡ some doras_locked
unfolding locked_request board_row user_row find
doras_locked_found = refl

alice_rejects :
    (decide_board_access_request 1 alice false "no" 800 asked_db).0
    ≡ ok (decided_request doras_locked alice rejected "no" 800 none)
unfolding decide_board_access_request decide_body atomic lock_request locked_request board_row
    user_row find get_or_raise refuse_if ◌>>=◌ is_pending can_review_board_access_request
    is_active_authenticated is_manager_grantable can_manage_board_members allows is_active_superuser
    get_active_membership is_active_member_of allows_member allows_board_action is_member
    is_reserved carry_out save_decision
alice_rejects = refl

decide_by_another_example :
    (is_pending doras_request.status ≡ true)
    × (is_active_authenticated alice ≡ true)
    × ((alice.pk == doras_request.applicant_id) ≡ false)
    × ((alice.is_superuser ≡ true)
        ⊎ ((is_manager_grantable contributor ≡ true)
            × (can_manage_board_members asked_db alice tech ≡ true)))
decide_by_another_example =
    decide_by_another 1 alice false "no" 800 asked_db doras_locked
      (decided_request doras_locked alice rejected "no" 800 none) doras_locked_found alice_rejects

root_breaks_glass :
    (break_glass_deactivate_last_manager some_platform
      (request_at 800)
      (some_token "break_glass_deactivate" "break_glass_deactivate:membership:1:certificate:9:2"
        "n")
      root
      1
      "r"
      "DEACTIVATE tech alice"
      some_world).0
    ≡ ok (set_membership manager false 800 (member 1 1 manager))
unfolding break_glass_deactivate_last_manager break_glass_body atomic_world required_reason is_empty
    strip strip_left strip_right is_space refuse_if get_or_raise ◌>>=◌
    require_membership_break_glass_context is_active_authenticated usable_binding
    check_privileged_session privileged_session_is_valid check_privileged within_ttl fields₄
    device_matches status_is_active certificate_is_valid binding_matches presented_matches last_seen
    is_idle_within any fetch locked_binding locked_row board_row user_row find is_ascii
    break_glass_confirmation is_active_manager role_eq reads reject_pending_membership_request
    active_managers count manages is_listed_manager consume_membership_step_up get_or_refuse
    check_dashboard_session session_digest session_with_key key_text mark_used ttl_seconds
    bindings_match can_manage has_dashboard_access dashboard_session_is_valid break_glass_target
    membership_target text_of_number transition on_db break_glass_change transition_board_membership
    check_target is_known has_other_pending breaks_continuity is_super_admin current_membership
    event_type_of transition_event_type apply_change write_membership set_membership
root_breaks_glass = refl

break_glass-needs_superuser_example :
    ((request_at 800).settings.mfa_enforcement_enabled ≡ true)
    × ((request_at 800).settings.mtls_enforcement_enabled ≡ true)
    × (is_active_authenticated root ≡ true)
    × (root.is_superuser ≡ true)
    × (usable_binding some_platform
          (request_at 800)
          (some_token "break_glass_deactivate" "break_glass_deactivate:membership:1:certificate:9:2"
            "n")
          root
          (some some_binding)
        ≡ true)
    × ((privileged_session_is_valid (request_at 800) some_db true some_session).0 ≡ true)
break_glass-needs_superuser_example =
    break_glass-needs_superuser some_platform (request_at 800)
      (some_token "break_glass_deactivate" "break_glass_deactivate:membership:1:certificate:9:2"
        "n")
      root 1 "r" "DEACTIVATE tech alice" some_world
      (set_membership manager false 800 (member 1 1 manager)) root_breaks_glass

abbrev carols_deactivation : Call some_platform
carols_deactivation =
    deactivates (request_at 800) (some_token "deactivate" "deactivate:membership:3:" "n") root 3 "r"

root_deactivates :
    call some_platform carols_deactivation some_world
    ≡ (none, (call some_platform carols_deactivation some_world).1)
unfolding call deactivate_board_membership deactivate_body consume_dashboard_step_up
    require_dashboard_membership_actor atomic_world required_reason is_empty strip strip_left
    strip_right is_space refuse_if get_or_raise ◌>>=◌ is_active_authenticated
    privileged_session_is_valid check_privileged within_ttl fields₄ device_matches status_is_active
    certificate_is_valid binding_matches presented_matches last_seen is_idle_within any fetch
    locked_row board_row user_row find is_active_manager role_eq reads
    reject_pending_membership_request active_managers count manages consume_membership_step_up
    get_or_refuse check_dashboard_session session_digest session_with_key key_text mark_used
    ttl_seconds bindings_match can_manage has_dashboard_access dashboard_session_is_valid
    membership_target text_of_number transition on_db dashboard_change transition_board_membership
    check_target is_known has_other_pending breaks_continuity is_super_admin current_membership
    event_type_of transition_event_type apply_change write_membership set_membership
root_deactivates = refl

call-IsAuthorized_example : IsAuthorized some_platform root
call-IsAuthorized_example =
    call-IsAuthorized some_platform carols_deactivation root some_world
      (call some_platform carols_deactivation some_world).1 refl root_deactivates
