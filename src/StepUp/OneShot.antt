-- ===== src/StepUp/OneShot.antt =====
-- boards/membership_step_up.py: one capability, presented a second time.
use power_adapter_blogs.Shared.{
  ℕ, ◌+◌, ◌≤◌, ◌<◌, String, ◌≡◌, sym, ap, ◌∙◌, Bool, true, false, some, arith,
}
use power_adapter_blogs.Models.{User}
use power_adapter_blogs.Platform.{Payload, Platform, World, Request}
use power_adapter_blogs.Exec.{ok}
use power_adapter_blogs.StepUp.{ttl_seconds, used_key, consume_membership_step_up}
use power_adapter_blogs.StepUp.Consume.{Consumed, consumed}

-- What Django documents of the two functions that the code relies on: `cache.add` adds only a key that
-- is not there, an added key stays for its timeout, and adding a key takes no other away;
-- `signing.loads` gives the one payload that was signed, and refuses it more than `max_age` seconds
-- after its signature.
pub record PlatformLaws (p : Platform) : Type 0 where
  pub has : p.Cache → String → ℕ → Bool
  pub issued_at : p.Token → ℕ
  pub added_stays :
      (key : String) (timeout now later : ℕ) (cache cache' : p.Cache)
      → p.cache_add key timeout now cache ≡ (true, cache')
      → now ≤ later
      → later < now + timeout
      → has cache' key later ≡ true
  pub others_stay :
      (key other : String) (timeout now later : ℕ) (cache : p.Cache)
      → has cache other later ≡ true
      → has (p.cache_add key timeout now cache).1 other later ≡ true
  pub refused :
      (key : String) (timeout now : ℕ) (cache : p.Cache)
      → has cache key now ≡ true
      → (p.cache_add key timeout now cache).0 ≡ false
  pub signed_once :
      (token : p.Token) (max_age max_age' now now' : ℕ) (payload payload' : Payload)
      → p.loads token max_age now ≡ some payload
      → p.loads token max_age' now' ≡ some payload'
      → payload ≡ payload'
  pub expires :
      (token : p.Token) (max_age now : ℕ) (payload : Payload)
      → p.loads token max_age now ≡ some payload
      → now ≤ issued_at token + max_age

-- The cache after any additions to it, by any requests.
pub data CacheAfter (p : Platform) (cache : p.Cache) : p.Cache → Type 0 where
  untouched : CacheAfter p cache cache
  added :
      {cache' : p.Cache} (key : String) (timeout now : ℕ)
      → CacheAfter p cache cache'
      → CacheAfter p cache (p.cache_add key timeout now cache').1

module _ (p : Platform) (laws : PlatformLaws p) where
  open laws use {has, added_stays, others_stay, refused, signed_once, expires, issued_at}

  stays :
      {cache cache' : p.Cache} (key : String) (later : ℕ)
      → CacheAfter p cache cache'
      → has cache key later ≡ true
      → has cache' key later ≡ true
  stays key later untouched h = h
  stays key later (added {cache'} k timeout now after) h =
      others_stay k key timeout now later cache' (stays key later after h)

  -- The timeouts of both requests are the one that the settings give.
  same_timeout :
      (request request' : Request) (timeout timeout' : ℕ)
      → ttl_seconds request'.settings ≡ ttl_seconds request.settings
      → ttl_seconds request.settings ≡ some timeout
      → ttl_seconds request'.settings ≡ some timeout'
      → timeout' ≡ timeout
  same_timeout request request' timeout timeout' e f g = ground arith

  -- A step-up token that was consumed is not consumed again, by any user, for any action and
  -- target and at any later time, whatever keys are added to the cache in between, where the
  -- platform does as documented, the timeout's setting is the same and the token was issued
  -- before its use.
  pub consumed_once :
      (token : p.Token) (request request' : Request) (actor actor' : User)
      (action action' target target' : String) (w w' v v' : World p)
      → issued_at token < request.now
      → request.now ≤ request'.now
      → ttl_seconds request'.settings ≡ ttl_seconds request.settings
      → CacheAfter p w'.cache v.cache
      → consume_membership_step_up p request token actor action target w ≡ (ok tt, w')
      → ¬ (consume_membership_step_up p request' token actor' action' target' v ≡ (ok tt, v'))
  consumed_once token request request' actor actor' action action' target target' w w' v v' issued
        later settings after h h' =
      let c : Consumed p request token actor action target w w' = consumed _ _ _ _ _ _ _ _ h in
      let d : Consumed p request' token actor' action' target' v v' = consumed _ _ _ _ _ _ _ _ h' in
      let t : d.timeout ≡ c.timeout =
        same_timeout request request' c.timeout d.timeout settings c.configured d.configured in
      let q : c.payload ≡ d.payload = signed_once token _ _ _ _ _ _ c.signed d.signed in
      let in_time : request'.now ≤ issued_at token + d.timeout =
        expires token d.timeout request'.now d.payload d.signed in
      let kept : has v.cache (used_key p c.payload.nonce) request'.now ≡ true =
        stays _ request'.now after
          (added_stays _ _ _ request'.now _ _ c.marked later (omega arith)) in
      let no : (p.cache_add (used_key p d.payload.nonce) d.timeout request'.now v.cache).0 ≡ false =
        refused _ d.timeout request'.now v.cache
          (ap (λ (x : Payload). has v.cache (used_key p x.nonce) request'.now) (sym q) ∙ kept) in
      let yes : (p.cache_add (used_key p d.payload.nonce) d.timeout request'.now v.cache).0 ≡ true =
        ap (λ r. r.0) d.marked in
      cc
