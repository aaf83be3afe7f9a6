-- ===== src/Membership/Dashboard.antt =====
-- boards/services.py: the Dashboard's membership changes, each behind a one-shot step-up capability,
-- and the break-glass deactivation of a last manager.
--
-- A service works on the database, the cache and the session; what raises leaves the database as it
-- was, and keeps what it did to the cache and to the session.
pub mod Changes
pub mod BreakGlass
use power_adapter_blogs.Shared.{
  ℕ, String, Bool, true, false, not, ◌&&◌, ◌||◌, Option, none, some, ◌==◌, if◌then◌else◌, leb, any,
  find, text_eq,
}
use power_adapter_blogs.Text.{strip, is_empty, text_of_number, ◌++◌}
use power_adapter_blogs.Access.{
  BoardRole, contributor, editor, reviewer, manager, role_eq, text_of_role,
}
use power_adapter_blogs.Models.{
  User, Board, BoardMembership, Source, dashboard, super_admin, ClientCertificateBinding,
  manager_transferred, Database,
}
use power_adapter_blogs.Platform.{Platform, World, Request}
use power_adapter_blogs.Session.{privileged_session_is_valid}
use power_adapter_blogs.StepUp.{manage_membership_permission, consume_membership_step_up}
use power_adapter_blogs.Exec.{
  not_signed_in, no_dashboard_access, no_membership_permission, break_glass_disabled,
  break_glass_superuser_only, break_glass_certificate, break_glass_session, last_manager,
  request_pending, reason_missing, already_member, membership_inactive, membership_active,
  role_unchanged, already_inactive, unknown_disposition, not_a_manager, transfer_to_self,
  target_is_manager, confirmation_mismatch, not_last_manager, permission_denied, validation_error,
  does_not_exist, Error, Result, ok, err, Exec, continue, pure, gets, get_or_raise, refuse_if,
  ◌>>=◌, ◌>>◌,
}
use power_adapter_blogs.Policies.{is_active_authenticated}
use power_adapter_blogs.Policies.Querysets.{board_row}
use power_adapter_blogs.Membership.{
  is_pending_for, is_member, is_active_manager, active_managers, breaks_continuity, Transition,
  transition_board_membership,
}
use power_adapter_blogs.Membership.Requests.{user_row, Locked, locked_row}

-- `membership_step_up_target` of a membership, and of a board and a user
unfoldable pub membership_target : String → ℕ → String → String
membership_target action membership_id extra =
    action ++ (":membership:" ++ (text_of_number membership_id ++ (":" ++ extra)))

unfoldable pub pair_target : String → ℕ → ℕ → String → String
pair_target action board_id user_id extra =
    action
    ++ (":board:"
        ++ (text_of_number board_id ++ (":user:" ++ (text_of_number user_id ++ (":" ++ extra)))))

-- `old_disposition` of a transfer: what becomes of the old manager. Any other text is `other`.
pub data Disposition : Type 0 where
  deactivate : Disposition
  demote : BoardRole → Disposition

unfoldable pub is_allowed_disposition : Disposition → Bool
is_allowed_disposition deactivate = true
is_allowed_disposition (demote contributor) = true
is_allowed_disposition (demote editor) = true
is_allowed_disposition (demote reviewer) = true
is_allowed_disposition (demote _) = false

unfoldable pub disposition_text : Disposition → String
disposition_text deactivate = "deactivate"
disposition_text (demote role) = text_of_role role

-- A change of the Dashboard: what the transition helper is handed.
unfoldable pub dashboard_change :
    Board → User → User → BoardRole → Bool → String → Option BoardMembership → Transition
dashboard_change board user actor role is_active reason membership = record {
  board = board;
  user = user;
  actor = actor;
  target_role = role;
  target_is_active = is_active;
  source = dashboard;
  reason = reason;
  access_request = none;
  membership = membership;
  event_type_override = none;
}

unfoldable pub handed_over : Transition → Transition
handed_over t = record t { event_type_override = some manager_transferred }

unfoldable pub break_glass_change : Locked → User → String → Transition
break_glass_change locked actor reason = record {
  board = locked.board;
  user = locked.user;
  actor = actor;
  target_role = locked.row.role;
  target_is_active = false;
  source = super_admin;
  reason = reason;
  access_request = none;
  membership = some locked.row;
  event_type_override = none;
}

module _ (p : Platform) where
  open p use {Token, has_perm}

  -- A step that works on the database alone.
  unfoldable pub on_db {ℓ} : {A : Type ℓ} → Exec Database A → Exec (World p) A
  on_db m w = ((m w.db).0, record w { db = (m w.db).1 })

  -- `transaction.atomic()`
  unfoldable pub atomic_world {ℓ} : {A : Type ℓ} → Exec (World p) A → Exec (World p) A
  atomic_world m w = elim (m w).0 [
    | ok a ↦ (ok a, (m w).1)
    | err e ↦ (err e, record (m w).1 { db = w.db })
  ]

  unfoldable pub reads : {A : Type 0} → (Database → A) → Exec (World p) A
  reads f w = (ok (f w.db), w)

  unfoldable pub fetch : {A : Type 0} → (Database → Option A) → Exec (World p) A
  unfolding get_or_raise
  fetch f w = get_or_raise does_not_exist (f w.db) w

  abbrev pub lock : ℕ → Exec (World p) Locked
  lock id = fetch (λ db. locked_row db id)

  -- `_required_reason`
  unfoldable pub required_reason : String → Exec (World p) String
  required_reason reason w =
      if is_empty (strip reason)
      then (err (validation_error reason_missing), w)
      else (ok (strip reason), w)

  unfoldable pub require_dashboard_membership_actor : User → Exec (World p) (Unit {0})
  require_dashboard_membership_actor actor = do
    refuse_if (not (is_active_authenticated actor)) (permission_denied not_signed_in)
    refuse_if (not (actor.is_dashboard_user || actor.is_superuser))
        (permission_denied no_dashboard_access)
    refuse_if (not (has_perm actor manage_membership_permission))
        (permission_denied no_membership_permission)

  unfoldable pub consume_dashboard_step_up :
      Request → Token → User → String → String → Exec (World p) (Unit {0})
  consume_dashboard_step_up request capability actor action target = do
    require_dashboard_membership_actor actor
    consume_membership_step_up p request capability actor action target

  unfoldable pub reject_pending_membership_request : ℕ → ℕ → Exec (World p) (Unit {0})
  unfolding refuse_if
  reject_pending_membership_request board_id user_id w =
      refuse_if (any (is_pending_for board_id user_id) w.db.requests)
        (validation_error request_pending) w

  -- `membership, _event = _transition_board_membership(…)`
  unfoldable pub transition : Transition → ℕ → Exec (World p) BoardMembership
  unfolding on_db ◌>>=◌
  transition t now = do (row, event) ← on_db (transition_board_membership t now); pure row
