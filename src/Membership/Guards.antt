-- ===== src/Membership/Guards.antt =====
-- boards/services.py: who may decide a request, who may withdraw, and what break-glass asks for.
use power_adapter_blogs.Shared.{ℕ, String, ◌≡◌, ◌⊎◌, Bool, true, false, some, refl, ◌==◌, arith}
use power_adapter_blogs.Text.{strip}
use power_adapter_blogs.Session.{privileged_session_is_valid}
use power_adapter_blogs.Access.{manager, role_eq}
use power_adapter_blogs.Models.{
  ClientCertificateBinding, User, BoardMembership, BoardAccessRequest, Database,
}
use power_adapter_blogs.Platform.{Platform, World, Request}
use power_adapter_blogs.Exec.{Result, ok, err, Exec, continue, get_or_raise, refuse_if, ◌>>=◌}
use power_adapter_blogs.Policies.{is_active_authenticated, can_manage_board_members}
use power_adapter_blogs.Membership.{is_pending}
use power_adapter_blogs.Membership.Requests.{
  Locked, locked_row, lock_membership, LockedRequest, locked_request, lock_request,
  is_manager_grantable, can_review_board_access_request, decide_body, decide_board_access_request,
  withdraw_body, withdraw_board_membership, atomic,
}
use power_adapter_blogs.Membership.Dashboard.{atomic_world, required_reason}
use power_adapter_blogs.Membership.Dashboard.Changes.{
  usable_binding, check_privileged_session, require_membership_break_glass_context,
  break_glass_body, break_glass_deactivate_last_manager,
}

reviewer_rules :
    (db : Database) (actor : User) (locked : LockedRequest)
    → can_review_board_access_request db actor locked.row locked.board ≡ true
    → (is_active_authenticated actor ≡ true)
      × ((actor.pk == locked.row.applicant_id) ≡ false)
      × ((actor.is_superuser ≡ true)
          ⊎ ((is_manager_grantable locked.row.requested_role ≡ true)
              × (can_manage_board_members db actor locked.board ≡ true)))
unfolding can_review_board_access_request
reviewer_rules db actor locked h = (ground arith, ground arith, ground arith)

decide_guards :
    (id : ℕ) (actor : User) (approve : Bool) (note : String) (now : ℕ) (db : Database)
    (locked : LockedRequest) (row : BoardAccessRequest)
    → locked_request db id ≡ some locked
    → (decide_board_access_request id actor approve note now db).0 ≡ ok row
    → (is_pending locked.row.status ≡ true)
      × (can_review_board_access_request db actor locked.row locked.board ≡ true)
unfolding decide_board_access_request decide_body atomic lock_request get_or_raise refuse_if ◌>>=◌
decide_guards id actor approve note now db locked row found h = ground arith

-- A request that was decided was pending, and who decided it is active and signed in, is not the
-- applicant, and is a superuser or a manager of the board deciding on a role below manager.
pub decide_by_another :
    (id : ℕ) (actor : User) (approve : Bool) (note : String) (now : ℕ) (db : Database)
    (locked : LockedRequest) (row : BoardAccessRequest)
    → locked_request db id ≡ some locked
    → (decide_board_access_request id actor approve note now db).0 ≡ ok row
    → (is_pending locked.row.status ≡ true)
      × (is_active_authenticated actor ≡ true)
      × ((actor.pk == locked.row.applicant_id) ≡ false)
      × ((actor.is_superuser ≡ true)
          ⊎ ((is_manager_grantable locked.row.requested_role ≡ true)
              × (can_manage_board_members db actor locked.board ≡ true)))
decide_by_another id actor approve note now db locked row found h =
    let (p, r) = decide_guards id actor approve note now db locked row found h in
    let (signed_in, apart, may) = reviewer_rules db actor locked r in (p, signed_in, apart, may)

-- A membership that was withdrawn is the actor's own, was active and is no manager's.
pub withdraw_own :
    (id : ℕ) (actor : User) (now : ℕ) (db : Database) (locked : Locked) (row : BoardMembership)
    → locked_row db id ≡ some locked
    → (withdraw_board_membership id actor now db).0 ≡ ok row
    → (locked.row.user_id ≡ actor.pk)
      × (locked.row.is_active ≡ true)
      × (role_eq locked.row.role manager ≡ false)
unfolding withdraw_board_membership withdraw_body atomic lock_membership get_or_raise refuse_if
    ◌>>=◌
withdraw_own id actor now db locked row found h = (ground arith, ground arith, ground arith)

-- Where two steps return, the first one does.
returns_first {ℓ} :
    {S : Type ℓ} {A B : Type 0} (m : Exec S A) (f : A → Exec S B) (s : S) (b : B)
    → ((m >>= f) s).0 ≡ ok b
    → (a : A) × ((m s).0 ≡ ok a)
unfolding ◌>>=◌
returns_first {S = S} {A = A} m f s b h = go (m s) h
  where
    go : (r : Result A × S) → (continue r f).0 ≡ ok b → (a : A) × (r.0 ≡ ok a)
    go (ok a, t) e = (a, refl)
    go (err x, t) e = cc

module _ (p : Platform) (request : Request) (capability : p.Token) (actor : User) where
  body_returns :
      (id : ℕ) (reason confirmation : String) (w : World p) (row : BoardMembership)
      → (break_glass_deactivate_last_manager p request capability actor id reason confirmation w).0
        ≡ ok row
      → (break_glass_body p request capability actor id (strip reason) confirmation w).0 ≡ ok row
  unfolding break_glass_deactivate_last_manager atomic_world required_reason ◌>>=◌
  body_returns id reason confirmation w row h = ground arith

  context_returns :
      (id : ℕ) (reason confirmation : String) (w : World p) (row : BoardMembership)
      → (break_glass_body p request capability actor id reason confirmation w).0 ≡ ok row
      → (binding : ClientCertificateBinding) × ((require_membership_break_glass_context p request
            capability actor w).0
          ≡ ok binding)
  unfolding break_glass_body
  context_returns id reason confirmation w row h = returns_first _ _ w row h

  context_guards :
      (w : World p) (binding : ClientCertificateBinding)
      → (require_membership_break_glass_context p request capability actor w).0 ≡ ok binding
      → (request.settings.mfa_enforcement_enabled ≡ true)
        × (request.settings.mtls_enforcement_enabled ≡ true)
        × (is_active_authenticated actor ≡ true)
        × (actor.is_superuser ≡ true)
        × (usable_binding p request capability actor request.client_certificate_binding ≡ true)
        × ((privileged_session_is_valid request w.db true w.session).0 ≡ true)
  unfolding require_membership_break_glass_context check_privileged_session refuse_if ◌>>=◌
  context_guards w binding h =
      (ground arith, ground arith, ground arith, ground arith, ground arith, ground arith)

  -- Where break-glass returns, MFA and mTLS are enforced, the actor is an active, signed-in
  -- superuser, the request presents an active certificate of the actor that has not expired,
  -- and the session passes the privileged check that requires a certificate.
  pub break_glass-needs_superuser :
      (id : ℕ) (reason confirmation : String) (w : World p) (row : BoardMembership)
      → (break_glass_deactivate_last_manager p request capability actor id reason confirmation w).0
        ≡ ok row
      → (request.settings.mfa_enforcement_enabled ≡ true)
        × (request.settings.mtls_enforcement_enabled ≡ true)
        × (is_active_authenticated actor ≡ true)
        × (actor.is_superuser ≡ true)
        × (usable_binding p request capability actor request.client_certificate_binding ≡ true)
        × ((privileged_session_is_valid request w.db true w.session).0 ≡ true)
  break_glass-needs_superuser id reason confirmation w row h =
      let (binding, e) =
        context_returns id (strip reason) confirmation w row
          (body_returns id reason confirmation w row h) in
      context_guards w binding e
