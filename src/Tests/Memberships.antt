-- ===== src/Tests/Memberships.antt =====
-- boards/services.py at concrete inputs.
use power_adapter_blogs.Shared.{
  ◌<◌, ◌≡◌, refl, true, false, none, some, List, [], ◌∷◌, ◌++◌, arith, count, find, any,
}
use power_adapter_blogs.Access.{contributor, manager, is_known, role_eq}
use power_adapter_blogs.Models.{BoardMembership, BoardMembershipEvent, dashboard, granted, Database}
use power_adapter_blogs.Text.{is_ascii, is_empty, strip, strip_left, strip_right, is_space}
use power_adapter_blogs.Platform.{World}
use power_adapter_blogs.Exec.{ok, validation_error, last_manager, refuse_if, ◌>>=◌}
use power_adapter_blogs.Membership.{
  Transition, transition_board_membership, new_membership, transition_event, append_event,
  active_managers, manages, is_active_manager, check_target, has_other_pending, breaks_continuity,
  current_membership, event_type_of, transition_event_type, apply_change, write_membership,
  create_membership, is_member, is_super_admin,
}
use power_adapter_blogs.Membership.Consistency.{IsConsistent}
use power_adapter_blogs.Membership.Continuity.{transition-keeps_manager}
use power_adapter_blogs.Membership.History.{
  IsLogged, transition-IsLogged, member_state, state_before, state_after, transition-member_state,
}
use power_adapter_blogs.Membership.Requests.{Locked, locked_row, user_row}
use power_adapter_blogs.Policies.Querysets.{board_row}
use power_adapter_blogs.Membership.Dashboard.{
  deactivate, atomic_world, fetch, reads, required_reason, reject_pending_membership_request,
}
use power_adapter_blogs.Membership.Dashboard.Changes.{
  deactivate_body, deactivate_board_membership, break_glass_confirmation,
  break_glass_deactivate_last_manager,
}
use power_adapter_blogs.Membership.Dashboard.BreakGlass.{break_glass-needs_ascii}
use power_adapter_blogs.Membership.Calls.{
  Call, grants, deactivates, transfers, withdraws, decides, call, calls, calls-IsConsistent,
  calls-keep_manager, calls-IsLogged, call-unchanged,
}
use power_adapter_blogs.Tests.Samples.{
  carol, dora, root, some_user, member, tech, some_db, some_db-IsConsistent, some_db-IsLogged,
  some_platform, some_token, some_world, request_at,
}

abbrev granting : Transition
granting = record {
  board = tech;
  user = dora;
  actor = root;
  target_role = contributor;
  target_is_active = true;
  source = dashboard;
  reason = "r";
  access_request = none;
  membership = none;
  event_type_override = none;
}

abbrev dora_row : BoardMembership
dora_row = new_membership granting 800 4

abbrev dora_event : BoardMembershipEvent
dora_event = transition_event granting granted none 4

abbrev granted_db : Database
granted_db =
    append_event dora_event
      (record some_db { memberships = some_db.memberships ++ dora_row ∷ []; membership_seq = 5 })

dora_granted :
    transition_board_membership granting 800 some_db ≡ (ok (dora_row, dora_event), granted_db)
unfolding transition_board_membership check_target refuse_if ◌>>=◌ is_known has_other_pending
    breaks_continuity current_membership event_type_of transition_event_type apply_change
    write_membership create_membership is_member find any new_membership
dora_granted = refl

abbrev is_handed : find (is_member 1 5) some_db.memberships ≡ current_membership granting some_db
is_handed = unfold current_membership in refl

tech_has_manager : 0 < active_managers 1 some_db
unfolding active_managers count manages is_active_manager role_eq
tech_has_manager = ground arith

transition-keeps_manager_example : 0 < active_managers 1 granted_db
transition-keeps_manager_example =
    transition-keeps_manager granting 800 some_db granted_db dora_row dora_event 1
      some_db-IsConsistent is_handed (unfold is_super_admin in refl) dora_granted tech_has_manager

transition-IsLogged_example : IsLogged granted_db
transition-IsLogged_example =
    transition-IsLogged granting 800 some_db granted_db dora_row dora_event some_db-IsConsistent
      some_db-IsLogged is_handed dora_granted

transition-member_state_example :
    (member_state 1 5 granted_db ≡ some (granting.target_role, granting.target_is_active))
    × (state_before dora_event ≡ member_state 1 5 some_db)
    × (state_after dora_event ≡ member_state 1 5 granted_db)
    × (granted_db.events ≡ some_db.events ++ dora_event ∷ [])
transition-member_state_example =
    transition-member_state granting 800 some_db granted_db dora_row dora_event 1 5
      some_db-IsConsistent is_handed dora_granted

-- A grant to a user who has no row, a refused deactivation of the last manager, a transfer, a
-- withdrawal and the decision of a request that does not exist.
abbrev some_calls : List (Call some_platform)
some_calls =
    grants (request_at 800) (some_token "grant" "grant:board:1:user:5:" "n") root 1 5 contributor
      "r"
    ∷ deactivates (request_at 810) (some_token "deactivate" "deactivate:membership:1:" "m") root 1
        "r"
    ∷ transfers (request_at 820)
        (some_token "transfer_manager" "transfer_manager:membership:1:to:2:deactivate" "l") root 1 2
        deactivate "r"
    ∷ withdraws 3 carol 830
    ∷ decides 1 root true "ok" 840
    ∷ []

calls-IsConsistent_example : IsConsistent (calls some_platform some_calls some_world).db
calls-IsConsistent_example =
    calls-IsConsistent some_platform some_calls some_world some_db-IsConsistent

calls-keep_manager_example : 0 < active_managers 1 (calls some_platform some_calls some_world).db
calls-keep_manager_example =
    calls-keep_manager some_platform some_calls some_world 1 some_db-IsConsistent tech_has_manager

calls-IsLogged_example : IsLogged (calls some_platform some_calls some_world).db
calls-IsLogged_example =
    calls-IsLogged some_platform some_calls some_world some_db-IsConsistent some_db-IsLogged

abbrev last_deactivation : Call some_platform
last_deactivation =
    deactivates (request_at 810) (some_token "deactivate" "deactivate:membership:1:" "m") root 1 "r"

last_deactivation_refused :
    call some_platform last_deactivation some_world
    ≡ (some (validation_error last_manager), some_world)
unfolding call deactivate_board_membership required_reason is_empty strip strip_left strip_right
    is_space atomic_world deactivate_body fetch locked_row board_row user_row find ◌>>=◌ refuse_if
    reads reject_pending_membership_request any breaks_continuity active_managers count manages
    is_active_manager role_eq is_super_admin
last_deactivation_refused = refl

call-unchanged_example : some_world.db ≡ some_db
call-unchanged_example =
    call-unchanged some_platform last_deactivation some_world some_world
      (validation_error last_manager) last_deactivation_refused

-- A manager whose name is not ASCII.
abbrev named_db : Database
named_db = record some_db { users = some_user 1 "é" false ∷ [] }

abbrev named : Locked
named = record { row = member 1 1 manager; board = tech; user = some_user 1 "é" false }

abbrev named_world : World some_platform
named_world = record some_world { db = named_db }

break_glass-needs_ascii_example : ¬ (
    (break_glass_deactivate_last_manager some_platform
      (request_at 800)
      (some_token "break_glass_deactivate" "t" "n")
      root
      1
      "r"
      "DEACTIVATE tech é"
      named_world).0
    ≡ ok (member 1 1 manager))
break_glass-needs_ascii_example =
    break_glass-needs_ascii some_platform (request_at 800)
      (some_token "break_glass_deactivate" "t" "n") root 1 "r" "DEACTIVATE tech é" named_world named
      (member 1 1 manager) (unfold locked_row board_row user_row find in refl)
      (unfold break_glass_confirmation is_ascii in refl)
