-- ===== src/Exec.antt =====
-- A service call: it works on the state of one request and returns or raises. What was written
-- before a raise stays written, so the state comes back beside the error too.
use power_adapter_blogs.Shared.{Bool, true, false, Option, none, some}

-- The texts that `PermissionDenied` and `ValidationError` carry, one constructor for each.
pub data Reason : Type 0 where
  not_signed_in cannot_apply cannot_review only_superuser_reviews not_own_membership : Reason
  manager_cannot_withdraw no_dashboard_access no_membership_permission : Reason
  break_glass_disabled break_glass_superuser_only break_glass_certificate : Reason
  break_glass_session : Reason
  unknown_role board_closed same_role_held duplicate_request : Reason
  nothing_to_deactivate no_change last_manager inactive_target superuser_target : Reason
  request_pending request_must_be_decided reason_missing already_member : Reason
  membership_inactive membership_active role_unchanged already_inactive : Reason
  unknown_disposition not_a_manager transfer_to_self target_is_manager : Reason
  confirmation_mismatch not_last_manager already_decided : Reason

-- The reason codes of `MembershipStepUpError`.
pub data StepUpReason : Type 0 where
  not_allowed config_invalid session_unavailable privileged_session_required : StepUpReason
  locked invalid_code invalid_or_expired binding_mismatch already_consumed : StepUpReason

pub data Error : Type 0 where
  permission_denied : Reason → Error
  validation_error : Reason → Error
  step_up_error : StepUpReason → Error
  does_not_exist : Error
  integrity_error : Error
  type_error : Error

pub data Result {ℓ} (A : Type ℓ) : Type ℓ where
  ok : A → Result A
  err : Error → Result A

abbrev pub Exec {ℓ κ} : Type ℓ → Type κ → Type (ℓ ⊔ κ)
Exec S A = S → Result A × S

module _ {ℓ κ} {S : Type ℓ} {A : Type κ} where
  unfoldable pub pure : A → Exec S A
  pure a s = (ok a, s)

  unfoldable pub gets : (S → A) → Exec S A
  gets f s = (ok (f s), s)

  -- The row of a `.get(...)`, which raises where there is none.
  unfoldable pub get_or_raise : Error → Option A → Exec S A
  get_or_raise e none s = (err e, s)
  get_or_raise e (some a) s = (ok a, s)

-- `if test: raise e`
unfoldable pub refuse_if {ℓ} : {S : Type ℓ} → Bool → Error → Exec S (Unit {0})
refuse_if true e s = (err e, s)
refuse_if false e s = (ok tt, s)

module _ {ℓ κ μ} {S : Type ℓ} {A : Type κ} {B : Type μ} where
  abbrev pub continue : Result A × S → (A → Exec S B) → Result B × S
  continue (ok a, s) f = f a s
  continue (err e, s) f = (err e, s)

  infixl 10 ◌>>=◌ ◌>>◌
  -- opening this opens `pure`, `gets`, `get_or_raise` and `refuse_if` too
  unfoldable pub ◌>>=◌ : Exec S A → (A → Exec S B) → Exec S B
  unfolding pure gets get_or_raise refuse_if
  ◌>>=◌ m f s = continue (m s) f

  abbrev pub ◌>>◌ : Exec S A → Exec S B → Exec S B
  m >> n = m >>= λ _. n
