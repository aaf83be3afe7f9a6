-- ===== src/Membership/Authority.antt =====
-- boards/services.py: the Dashboard's services, each of which consumes a capability on its way.
use power_adapter_blogs.Shared.{ℕ, String, ◌≡◌, true, arith, ◌||◌, refl, none}
use power_adapter_blogs.Access.{BoardRole}
use power_adapter_blogs.Models.{User}
use power_adapter_blogs.Platform.{Platform, World, Request}
use power_adapter_blogs.Exec.{Result, ok, err, Exec, continue, refuse_if, ◌>>=◌}
use power_adapter_blogs.StepUp.{manage_membership_permission}
use power_adapter_blogs.Policies.{is_active_authenticated}
use power_adapter_blogs.Membership.Dashboard.{
  Disposition, atomic_world, require_dashboard_membership_actor, consume_dashboard_step_up,
}
use power_adapter_blogs.Membership.Dashboard.Changes.{
  grant_body, change_role_body, deactivate_body, reactivate_body, transfer_body,
  grant_board_membership, change_board_membership_role, deactivate_board_membership,
  reactivate_board_membership, transfer_board_manager,
}
use power_adapter_blogs.Membership.Calls.{
  Call, grants, changes_role, deactivates, reactivates, transfers, submits, decides, withdraws,
  call, outcome,
}
use mathlib.Core.Path.{subst}

module _ (p : Platform) (actor : User) where
  -- Who may change memberships on the Dashboard.
  pub record IsAuthorized : Type 0 where
    pub signed_in : is_active_authenticated actor ≡ true
    pub has_access : (actor.is_dashboard_user || actor.is_superuser) ≡ true
    pub permitted : p.has_perm actor manage_membership_permission ≡ true

  -- A part of a service that returns for an authorized actor alone.
  record IsGuarded {A : Type 0} (m : Exec (World p) A) : Type 0 where
    at : (w : World p) (a : A) → (m w).0 ≡ ok a → IsAuthorized

  module _ {A B : Type 0} (m : Exec (World p) A) (f : A → Exec (World p) B) where
    IsGuarded-after : ((a : A) → IsGuarded (f a)) → IsGuarded (m >>= f)
    unfolding ◌>>=◌
    IsGuarded-after rest = record { at = λ w b h. go (m w) b h }
      where
        go : (r : Result A × World p) (b : B) → (continue r f).0 ≡ ok b → IsAuthorized
        go (ok a, w) b h = (rest a).at w b h
        go (err x, w) b h = cc

    IsGuarded-here : IsGuarded m → IsGuarded (m >>= f)
    unfolding ◌>>=◌
    IsGuarded-here guarded = record { at = λ w b h. go w (m w) (guarded.at w) b h }
      where
        go :
            (w : World p) (r : Result A × World p)
            → ((a : A) → r.0 ≡ ok a → IsAuthorized)
            → (b : B) → (continue r f).0 ≡ ok b
            → IsAuthorized
        go w (ok a, w') rest b h = rest a refl
        go w (err x, w') rest b h = cc

  IsGuarded-atomic :
      {A : Type 0} (m : Exec (World p) A) → IsGuarded m → IsGuarded (atomic_world p m)
  unfolding atomic_world
  IsGuarded-atomic {A} m guarded = record { at = λ w a h. go w (m w).0 (guarded.at w) a h }
    where
      go :
          (w : World p) (r : Result A)
          → ((a : A) → r ≡ ok a → IsAuthorized)
          → (a : A)
          → (elim r as (λ _. Result A × World p) [
            | ok a ↦ (ok a, (m w).1)
            | err e ↦ (err e, record (m w).1 { db = w.db })
          ]).0
            ≡ ok a
          → IsAuthorized
      go w (ok b) rest a h = rest b refl
      go w (err x) rest a h = cc

  actor_guards :
      (w : World p) (a : Unit {0})
      → (require_dashboard_membership_actor p actor w).0 ≡ ok a
      → IsAuthorized
  unfolding require_dashboard_membership_actor refuse_if ◌>>=◌
  actor_guards w a h = record {
    signed_in = ground arith;
    has_access = ground arith;
    permitted = ground arith;
  }

  consume-IsGuarded :
      (request : Request) (token : p.Token) (action target : String)
      → IsGuarded (consume_dashboard_step_up p request token actor action target)
  unfolding consume_dashboard_step_up
  consume-IsGuarded request token action target = IsGuarded-here _ _ (record { at = actor_guards })

  module _ (request : Request) (token : p.Token) where
    grant-IsGuarded :
        (b u : ℕ) (role : BoardRole) (reason : String)
        → IsGuarded (grant_board_membership p request token actor b u role reason)
    unfolding grant_board_membership grant_body
    grant-IsGuarded b u role reason = IsGuarded-after _ _ λ given. IsGuarded-atomic _ (
        IsGuarded-after _ _ λ board. IsGuarded-after _ _ λ user. IsGuarded-after _ _ λ _.
          IsGuarded-after _ _ λ exists.
            IsGuarded-after _ _ λ _. IsGuarded-here _ _ (consume-IsGuarded request token _ _))

    change_role-IsGuarded :
        (id : ℕ) (role : BoardRole) (reason : String)
        → IsGuarded (change_board_membership_role p request token actor id role reason)
    unfolding change_board_membership_role change_role_body
    change_role-IsGuarded id role reason = IsGuarded-after _ _ λ given. IsGuarded-atomic _ (
        IsGuarded-after _ _ λ locked. IsGuarded-after _ _ λ _. IsGuarded-after _ _ λ _.
          IsGuarded-after _ _ λ _. IsGuarded-after _ _ λ last.
            IsGuarded-after _ _ λ _. IsGuarded-here _ _ (consume-IsGuarded request token _ _))

    deactivate-IsGuarded :
        (id : ℕ) (reason : String)
        → IsGuarded (deactivate_board_membership p request token actor id reason)
    unfolding deactivate_board_membership deactivate_body
    deactivate-IsGuarded id reason = IsGuarded-after _ _ λ given. IsGuarded-atomic _ (
        IsGuarded-after _ _ λ locked. IsGuarded-after _ _ λ _. IsGuarded-after _ _ λ _.
          IsGuarded-after _ _ λ last.
            IsGuarded-after _ _ λ _. IsGuarded-here _ _ (consume-IsGuarded request token _ _))

    reactivate-IsGuarded :
        (id : ℕ) (role : BoardRole) (reason : String)
        → IsGuarded (reactivate_board_membership p request token actor id role reason)
    unfolding reactivate_board_membership reactivate_body
    reactivate-IsGuarded id role reason = IsGuarded-after _ _ λ given. IsGuarded-atomic _ (
        IsGuarded-after _ _ λ locked.
          IsGuarded-after _ _
            λ _. IsGuarded-after _ _ λ _. IsGuarded-here _ _ (consume-IsGuarded request token _ _))

    transfer-IsGuarded :
        (id u : ℕ) (disposition : Disposition) (reason : String)
        → IsGuarded (transfer_board_manager p request token actor id u disposition reason)
    unfolding transfer_board_manager transfer_body
    transfer-IsGuarded id u disposition reason = IsGuarded-after _ _ λ given.
        IsGuarded-after _ _ λ _. IsGuarded-atomic _ (
          IsGuarded-after _ _ λ old. IsGuarded-after _ _ λ _. IsGuarded-after _ _ λ user.
            IsGuarded-after _ _ λ _. IsGuarded-after _ _ λ _. IsGuarded-after _ _ λ _.
              IsGuarded-after _ _ λ replacement.
                IsGuarded-after _ _ λ _. IsGuarded-here _ _ (consume-IsGuarded request token _ _))

-- The actor of a call of the Dashboard.
abbrev pub IsByDashboard : {p : Platform} → Call p → User → Type 0
IsByDashboard {p} (grants request token actor b u role reason) user = actor ≡ user
IsByDashboard {p} (changes_role request token actor id role reason) user = actor ≡ user
IsByDashboard {p} (deactivates request token actor id reason) user = actor ≡ user
IsByDashboard {p} (reactivates request token actor id role reason) user = actor ≡ user
IsByDashboard {p} (transfers request token actor id u disposition reason) user = actor ≡ user
IsByDashboard {p} (submits has_perm applicant board role reason) user = ⊥
IsByDashboard {p} (decides id actor approve note now) user = ⊥
IsByDashboard {p} (withdraws id actor now) user = ⊥

returned :
    {p : Platform} {A : Type 0} {actor : User} (m : Exec (World p) A) (w w' : World p)
    → IsGuarded p actor m
    → outcome p (m w) ≡ (none, w')
    → IsAuthorized p actor
returned {p} {A} {actor} m w w' guarded h = go (m w) (guarded.at w) h
  where
    go :
        (r : Result A × World p)
        → ((a : A) → r.0 ≡ ok a → IsAuthorized p actor)
        → outcome p r ≡ (none, w')
        → IsAuthorized p actor
    go (ok a, v) rest e = rest a refl
    go (err x, v) rest e = cc

-- A call of one of the Dashboard's five services that returns was made by an actor who is active
-- and signed in, is a Dashboard user or a superuser, and has the permission to manage all
-- memberships.
pub call-IsAuthorized :
    (p : Platform) (c : Call p) (actor : User) (w w' : World p)
    → IsByDashboard c actor
    → call p c w ≡ (none, w')
    → IsAuthorized p actor
unfolding call
call-IsAuthorized p (grants request token user b u role reason) actor w w' by h =
    subst (IsAuthorized p) by
      (returned _ w w' (grant-IsGuarded p user request token b u role reason) h)
call-IsAuthorized p (changes_role request token user id role reason) actor w w' by h =
    subst (IsAuthorized p) by
      (returned _ w w' (change_role-IsGuarded p user request token id role reason) h)
call-IsAuthorized p (deactivates request token user id reason) actor w w' by h =
    subst (IsAuthorized p) by
      (returned _ w w' (deactivate-IsGuarded p user request token id reason) h)
call-IsAuthorized p (reactivates request token user id role reason) actor w w' by h =
    subst (IsAuthorized p) by
      (returned _ w w' (reactivate-IsGuarded p user request token id role reason) h)
call-IsAuthorized p (transfers request token user id u disposition reason) actor w w' by h =
    subst (IsAuthorized p) by
      (returned _ w w' (transfer-IsGuarded p user request token id u disposition reason) h)
call-IsAuthorized p (submits has_perm applicant board role reason) actor w w' by h = absurd by
call-IsAuthorized p (decides id user approve note now) actor w w' by h = absurd by
call-IsAuthorized p (withdraws id user now) actor w w' by h = absurd by
