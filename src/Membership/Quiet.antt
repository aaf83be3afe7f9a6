-- ===== src/Membership/Quiet.antt =====
-- boards/services.py: the steps before a transition, which leave the database alone.
use power_adapter_blogs.Shared.{ℕ, String, ◌≡◌, arith, Bool, Option}
use power_adapter_blogs.Models.{User, Database}
use power_adapter_blogs.Platform.{Platform, World, Request}
use power_adapter_blogs.Exec.{Error, refuse_if, ◌>>=◌}
use power_adapter_blogs.StepUp.{consume_membership_step_up}
use power_adapter_blogs.Membership.Dashboard.{
  require_dashboard_membership_actor, consume_dashboard_step_up, reject_pending_membership_request,
  required_reason, fetch,
}

module _ (p : Platform) where
  pub db-refuse_if : (b : Bool) (e : Error) (w : World p) → (refuse_if b e w).1.db ≡ w.db
  unfolding refuse_if
  db-refuse_if b e w = ground arith

  pub db-fetch : {A : Type 0} (f : Database → Option A) (w : World p) → (fetch p f w).1.db ≡ w.db
  unfolding fetch
  db-fetch f w = ground arith

  pub db-reject_pending :
      (b u : ℕ) (w : World p) → (reject_pending_membership_request p b u w).1.db ≡ w.db
  unfolding reject_pending_membership_request
  db-reject_pending b u w = ground arith

  pub db-required_reason : (r : String) (w : World p) → (required_reason p r w).1.db ≡ w.db
  unfolding required_reason
  db-required_reason r w = ground arith

  pub db-consume :
      (request : Request) (token : p.Token) (actor : User) (action target : String) (w : World p)
      → (consume_membership_step_up p request token actor action target w).1.db ≡ w.db
  unfolding consume_membership_step_up
  db-consume request token actor action target w = ground arith

  pub db-consume_dashboard :
      (request : Request) (token : p.Token) (actor : User) (action target : String) (w : World p)
      → (consume_dashboard_step_up p request token actor action target w).1.db ≡ w.db
  unfolding consume_dashboard_step_up require_dashboard_membership_actor ◌>>=◌
  db-consume_dashboard request token actor action target w =
      ground (arith, db-consume request token actor action target w)
