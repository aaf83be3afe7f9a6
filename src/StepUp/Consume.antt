-- ===== src/StepUp/Consume.antt =====
-- boards/membership_step_up.py: what `consume_membership_step_up` has checked when it returns.
use power_adapter_blogs.Shared.{
  ℕ, String, ◌≡◌, true, some, arith, text_eq_iff, Option, none, refl, Option-cases, inl, inr,
}
use power_adapter_blogs.Models.{User}
use power_adapter_blogs.Platform.{Payload, Platform, World, Request}
use power_adapter_blogs.Session.{dashboard_session_is_valid}
use power_adapter_blogs.Exec.{ok, refuse_if, ◌>>=◌}
use power_adapter_blogs.StepUp.{
  can_manage, has_dashboard_access, manage_membership_permission, ttl_seconds, key_text,
  session_with_key, bindings_match, used_key, get_or_refuse, check_dashboard_session,
  session_digest, mark_used, consume_membership_step_up,
}

bindings_match-inversion :
    (p : Platform) (actor : User) (payload : Payload) (action target digest : String)
    → bindings_match p payload actor digest action target ≡ true
    → (payload.user_id ≡ actor.pk)
      × ((payload.session ≡ digest) × ((payload.action ≡ action) × (payload.target ≡ target)))
unfolding bindings_match
bindings_match-inversion p actor payload action target digest h = (
  ground arith,
  (
    (text_eq_iff payload.session digest).0 (ground arith),
    (
      (text_eq_iff payload.action action).0 (ground arith),
      (text_eq_iff payload.target target).0 (ground arith),
    ),
  ),
)

module _ (p : Platform) (request : Request) (token : p.Token) (actor : User)
    (action target : String) (w w' : World p) where
  open p use {has_perm, loads, sha256, cache_add}

  -- The guards that a consumed token has passed, with the timeout and the payload that they saw.
  pub record Consumed : Type 0 where
    pub timeout : ℕ
    pub payload : Payload
    pub by_requester : actor.pk ≡ request.user.pk
    pub has_access : has_dashboard_access actor ≡ true
    pub permitted : has_perm actor manage_membership_permission ≡ true
    pub session_checked : (dashboard_session_is_valid request w.db w.session).0 ≡ true
    pub configured : ttl_seconds request.settings ≡ some timeout
    pub signed : loads token timeout request.now ≡ some payload
    pub for_user : payload.user_id ≡ actor.pk
    pub for_session :
        payload.session
        ≡ sha256 (
            key_text p
              (session_with_key p request (dashboard_session_is_valid request w.db w.session).1))
    pub for_action : payload.action ≡ action
    pub for_target : payload.target ≡ target
    pub marked : cache_add (used_key p payload.nonce) timeout request.now w.cache ≡ (true, w'.cache)

  module _ (timeout : ℕ) (payload : Payload)
      (configured : ttl_seconds request.settings ≡ some timeout)
      (signed : loads token timeout request.now ≡ some payload)
      (h : consume_membership_step_up p request token actor action target w ≡ (ok tt, w')) where
    consumed-guards :
        (actor.pk ≡ request.user.pk)
        × (can_manage p actor ≡ true)
        × ((dashboard_session_is_valid request w.db w.session).0 ≡ true)
        × (bindings_match p payload actor
              (sha256 (
                key_text p (
                  session_with_key p request
                    (dashboard_session_is_valid request w.db w.session).1)))
              action
              target
            ≡ true)
        × (cache_add (used_key p payload.nonce) timeout request.now w.cache ≡ (true, w'.cache))
    unfolding consume_membership_step_up ◌>>=◌ get_or_refuse check_dashboard_session session_digest
        mark_used refuse_if
    consumed-guards = ground arith

  -- Where a token is consumed, the actor is the requester, has Dashboard access and the
  -- permission, and a valid Dashboard session; the signature holds at the configured timeout;
  -- the payload names this user, session, action and target; and the nonce's key was added to
  -- the cache.
  pub consumed :
      consume_membership_step_up p request token actor action target w ≡ (ok tt, w') → Consumed
  unfolding consume_membership_step_up ◌>>=◌ get_or_refuse check_dashboard_session session_digest
      mark_used refuse_if
  consumed h = go (ttl_seconds request.settings) refl
    where
      go : (o : Option ℕ) → ttl_seconds request.settings ≡ o → Consumed
      go none e = ground arith
      go (some timeout) e = elim (Option-cases (loads token timeout request.now)) [
        | inl f ↦ ground arith
        | inr (payload, f) ↦
            let (a, b, c, d, g) = consumed-guards timeout payload e f h in
            let same = bindings_match-inversion p actor payload action target _ d in
            record {
              timeout = timeout;
              payload = payload;
              by_requester = a;
              has_access = unfold can_manage in ground arith;
              permitted = unfold can_manage in ground arith;
              session_checked = c;
              configured = e;
              signed = f;
              for_user = same.0;
              for_session = same.1.0;
              for_action = same.1.1.0;
              for_target = same.1.1.1;
              marked = g;
            }
      ]
