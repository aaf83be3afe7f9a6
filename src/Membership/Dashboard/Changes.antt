-- ===== src/Membership/Dashboard/Changes.antt =====
-- boards/services.py: the public services of the Dashboard, and break-glass.
use power_adapter_blogs.Shared.{
  ℕ, String, Bool, true, false, not, ◌&&◌, ◌||◌, Option, none, some, ◌==◌, ltb, if◌then◌else◌, any,
  find, text_eq,
}
use power_adapter_blogs.Text.{is_ascii, text_of_number, ◌++◌}
use power_adapter_blogs.Access.{BoardRole, manager, role_eq}
use power_adapter_blogs.Models.{
  User, BoardMembership, dashboard, ClientCertificateBinding, Database,
}
use power_adapter_blogs.Platform.{Platform, World, Request}
use power_adapter_blogs.Session.{privileged_session_is_valid}
use power_adapter_blogs.StepUp.{consume_membership_step_up}
use power_adapter_blogs.Exec.{
  break_glass_disabled, break_glass_superuser_only, break_glass_certificate, break_glass_session,
  last_manager, already_member, membership_inactive, membership_active, role_unchanged,
  already_inactive, unknown_disposition, not_a_manager, transfer_to_self, target_is_manager,
  confirmation_mismatch, not_last_manager, permission_denied, validation_error, type_error, ok, err,
  Exec, get_or_raise, pure, refuse_if, ◌>>=◌, ◌>>◌,
}
use power_adapter_blogs.Policies.{is_active_authenticated}
use power_adapter_blogs.Policies.Querysets.{board_row}
use power_adapter_blogs.Membership.{
  is_member, is_active_manager, manages, active_managers, breaks_continuity,
}
use power_adapter_blogs.Membership.Requests.{user_row, Locked}
use power_adapter_blogs.Membership.Dashboard.{
  membership_target, pair_target, Disposition, deactivate, demote, is_allowed_disposition,
  disposition_text, dashboard_change, handed_over, break_glass_change, atomic_world, reads, fetch,
  lock, required_reason, consume_dashboard_step_up, reject_pending_membership_request, transition,
}

module _ (p : Platform) (request : Request) (capability : p.Token) (actor : User) where
  unfoldable pub grant_body : ℕ → ℕ → BoardRole → String → Exec (World p) BoardMembership
  grant_body board_id user_id role reason = do
    board ← fetch p (λ db. board_row db board_id)
    user ← fetch p (λ db. user_row db user_id)
    reject_pending_membership_request p board.pk user.pk
    exists ← reads p (λ db. any (is_member board.pk user.pk) db.memberships)
    refuse_if exists (validation_error already_member)
    consume_dashboard_step_up p request capability actor "grant"
        (pair_target "grant" board.pk user.pk "")
    transition p (dashboard_change board user actor role true reason none) request.now

  unfoldable pub grant_board_membership :
      ℕ → ℕ → BoardRole → String → Exec (World p) BoardMembership
  grant_board_membership board_id user_id role reason = do
    given ← required_reason p reason
    atomic_world p (grant_body board_id user_id role given)

  unfoldable pub change_role_body : ℕ → BoardRole → String → Exec (World p) BoardMembership
  change_role_body id role reason = do
    locked ← lock p id
    refuse_if (not locked.row.is_active) (validation_error membership_inactive)
    reject_pending_membership_request p locked.row.board_id locked.row.user_id
    refuse_if (role_eq locked.row.role role) (validation_error role_unchanged)
    last ← reads p (λ db. breaks_continuity (some locked.row) role true dashboard db)
    refuse_if last (validation_error last_manager)
    consume_dashboard_step_up p request capability actor "change_role"
        (membership_target "change_role" locked.row.pk "")
    transition p
        (dashboard_change locked.board locked.user actor role true reason (some locked.row))
        request.now

  unfoldable pub change_board_membership_role :
      ℕ → BoardRole → String → Exec (World p) BoardMembership
  change_board_membership_role id role reason = do
    given ← required_reason p reason
    atomic_world p (change_role_body id role given)

  unfoldable pub deactivate_body : ℕ → String → Exec (World p) BoardMembership
  deactivate_body id reason = do
    locked ← lock p id
    refuse_if (not locked.row.is_active) (validation_error already_inactive)
    reject_pending_membership_request p locked.row.board_id locked.row.user_id
    last ← reads p (λ db. breaks_continuity (some locked.row) locked.row.role false dashboard db)
    refuse_if last (validation_error last_manager)
    consume_dashboard_step_up p request capability actor "deactivate"
        (membership_target "deactivate" locked.row.pk "")
    transition p
        (dashboard_change locked.board locked.user actor locked.row.role false reason
          (some locked.row))
        request.now

  unfoldable pub deactivate_board_membership : ℕ → String → Exec (World p) BoardMembership
  deactivate_board_membership id reason = do
    given ← required_reason p reason
    atomic_world p (deactivate_body id given)

  unfoldable pub reactivate_body : ℕ → BoardRole → String → Exec (World p) BoardMembership
  reactivate_body id role reason = do
    locked ← lock p id
    refuse_if locked.row.is_active (validation_error membership_active)
    reject_pending_membership_request p locked.row.board_id locked.row.user_id
    consume_dashboard_step_up p request capability actor "reactivate"
        (membership_target "reactivate" locked.row.pk "")
    transition p
        (dashboard_change locked.board locked.user actor role true reason (some locked.row))
        request.now

  unfoldable pub reactivate_board_membership :
      ℕ → BoardRole → String → Exec (World p) BoardMembership
  reactivate_board_membership id role reason = do
    given ← required_reason p reason
    atomic_world p (reactivate_body id role given)

  unfoldable pub is_current_manager : Option BoardMembership → Bool
  is_current_manager none = false
  is_current_manager (some m) = is_active_manager m

  -- The role that the old manager is left with, and whether the membership stays active.
  unfoldable pub old_role : BoardMembership → Disposition → BoardRole
  old_role old deactivate = old.role
  old_role old (demote role) = role

  unfoldable pub stays_active : Disposition → Bool
  stays_active deactivate = false
  stays_active (demote role) = true

  unfoldable pub transfer_body :
      ℕ → ℕ → Disposition → String → Exec (World p) (BoardMembership × BoardMembership)
  transfer_body id target_user_id old_disposition reason = do
    old ← lock p id
    refuse_if (not (is_active_manager old.row)) (validation_error not_a_manager)
    replacement_user ← fetch p (λ db. user_row db target_user_id)
    reject_pending_membership_request p old.row.board_id old.row.user_id
    reject_pending_membership_request p old.row.board_id replacement_user.pk
    refuse_if (replacement_user.pk == old.row.user_id) (validation_error transfer_to_self)
    replacement ←
        reads p (λ db. find (is_member old.row.board_id replacement_user.pk) db.memberships)
    refuse_if (is_current_manager replacement) (validation_error target_is_manager)
    consume_dashboard_step_up p request capability actor "transfer_manager" (
        membership_target "transfer_manager" old.row.pk (
          "to:"
          ++ (text_of_number replacement_user.pk ++ (":" ++ disposition_text old_disposition))))
    promoted ←
        transition p
          (handed_over
            (dashboard_change old.board replacement_user actor manager true reason replacement))
          request.now
    left ←
        transition p
          (handed_over (
            dashboard_change old.board old.user actor (old_role old.row old_disposition)
              (stays_active old_disposition) reason (some old.row)))
          request.now
    pure (promoted, left)

  unfoldable pub transfer_board_manager :
      ℕ → ℕ → Disposition → String → Exec (World p) (BoardMembership × BoardMembership)
  transfer_board_manager id target_user_id old_disposition reason = do
    given ← required_reason p reason
    refuse_if (not (is_allowed_disposition old_disposition)) (validation_error unknown_disposition)
    atomic_world p (transfer_body id target_user_id old_disposition given)

  -- `require_membership_break_glass_context`: the request's certificate binding, checked
  unfoldable pub usable_binding : Option ClientCertificateBinding → Bool
  usable_binding none = false
  usable_binding (some binding) =
      binding.user_id == actor.pk && (binding.is_active && ltb request.now binding.expires_at)

  unfoldable pub check_privileged_session : Exec (World p) (Unit {0})
  check_privileged_session w =
      let (valid, s) = privileged_session_is_valid request w.db true w.session in
      if valid
      then (ok tt, record w { session = s })
      else (err (permission_denied break_glass_session), record w { session = s })

  unfoldable pub require_membership_break_glass_context : Exec (World p) ClientCertificateBinding
  require_membership_break_glass_context = do
    refuse_if
        (not
          (request.settings.mfa_enforcement_enabled && request.settings.mtls_enforcement_enabled))
        (permission_denied break_glass_disabled)
    refuse_if (not (is_active_authenticated actor) || not actor.is_superuser)
        (permission_denied break_glass_superuser_only)
    refuse_if (not (usable_binding request.client_certificate_binding))
        (permission_denied break_glass_certificate)
    check_privileged_session
    get_or_raise (permission_denied break_glass_certificate) request.client_certificate_binding

  -- `ClientCertificateBinding.objects.select_for_update().get(…)`
  unfoldable pub locked_binding : ℕ → Database → Option ClientCertificateBinding
  locked_binding id db =
      find
        (λ (b : ClientCertificateBinding).
          b.pk == id && (b.user_id == actor.pk && (b.is_active && ltb request.now b.expires_at)))
        db.certificate_bindings

  -- `locked.pk in active_manager_ids`, of one row
  unfoldable pub is_listed_manager : BoardMembership → BoardMembership → Bool
  is_listed_manager locked m = manages locked.board_id m && m.pk == locked.pk

  unfoldable pub break_glass_confirmation : Locked → String
  break_glass_confirmation locked =
      "DEACTIVATE " ++ (locked.board.slug ++ (" " ++ locked.user.username))

  unfoldable pub break_glass_target : Locked → ClientCertificateBinding → String
  break_glass_target locked binding = membership_target "break_glass_deactivate" locked.row.pk (
      "certificate:" ++ (text_of_number binding.pk ++ (":" ++ text_of_number binding.auth_version)))

  -- `secrets.compare_digest` of two texts raises `TypeError` unless both are ASCII.
  unfoldable pub break_glass_body : ℕ → String → String → Exec (World p) BoardMembership
  break_glass_body id reason confirmation = do
    presented ← require_membership_break_glass_context
    binding ← fetch p (locked_binding presented.pk)
    locked ← lock p id
    refuse_if (not (is_ascii confirmation && is_ascii (break_glass_confirmation locked))) type_error
    refuse_if (not (text_eq confirmation (break_glass_confirmation locked)))
        (validation_error confirmation_mismatch)
    refuse_if (not (is_active_manager locked.row)) (validation_error not_a_manager)
    reject_pending_membership_request p locked.row.board_id locked.row.user_id
    managers ← reads p (active_managers locked.row.board_id)
    listed ← reads p (λ db. any (is_listed_manager locked.row) db.memberships)
    refuse_if (not (managers == 1) || not listed) (validation_error not_last_manager)
    consume_membership_step_up p request capability actor "break_glass_deactivate"
        (break_glass_target locked binding)
    transition p (break_glass_change locked actor reason) request.now

  unfoldable pub break_glass_deactivate_last_manager :
      ℕ → String → String → Exec (World p) BoardMembership
  break_glass_deactivate_last_manager id reason confirmation = do
    given ← required_reason p reason
    atomic_world p (break_glass_body id given confirmation)
