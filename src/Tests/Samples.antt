-- ===== src/Tests/Samples.antt =====
-- A small database, a request, a session and a platform, for the tests.
use power_adapter_blogs.Shared.{
  ℕ, ◌+◌, String, Bool, true, false, ◌&&◌, Option, none, some, List, [], ◌∷◌, arith, leb, ltb, any,
  count, find, text_eq, text_eq_refl, if◌then◌else◌,
}
use power_adapter_blogs.Access.{BoardRole, contributor, reviewer, manager}
use power_adapter_blogs.Models.{
  User, Board, BoardMembership, BoardMembershipEvent, Post, MfaTotpDevice, device_active,
  ClientCertificateBinding, granted, system_migration, Database, status_draft, status_review,
  status_normal, visibility_public,
}
use power_adapter_blogs.Platform.{value, Settings, Session, Request, Payload, Platform, World}
use power_adapter_blogs.Policies.Scopes.{KeysUnique}
use power_adapter_blogs.Membership.{is_member}
use power_adapter_blogs.Membership.Consistency.{IsConsistent}
use power_adapter_blogs.Membership.History.{IsLogged, replay}
use power_adapter_blogs.StepUp.OneShot.{PlatformLaws}

abbrev pub some_user : ℕ → String → Bool → User
some_user pk username is_superuser = record {
  pk = pk;
  username = username;
  is_authenticated = true;
  is_active = true;
  is_superuser = is_superuser;
  is_dashboard_user = is_superuser;
}

abbrev pub alice : User
alice = some_user 1 "alice" false

abbrev pub bob : User
bob = some_user 2 "bob" false

abbrev pub carol : User
carol = some_user 3 "carol" false

abbrev pub root : User
root = some_user 4 "root" true

abbrev pub dora : User
dora = some_user 5 "dora" false

abbrev pub tech : Board
tech = record { pk = 1; slug = "tech"; category_id = some 10; is_active = true }

abbrev pub member : ℕ → ℕ → BoardRole → BoardMembership
member pk user_id role = record {
  pk = pk;
  board_id = 1;
  user_id = user_id;
  role = role;
  is_active = true;
  created_by = none;
  updated_at = 0;
}

abbrev pub first_event : ℕ → ℕ → BoardRole → BoardMembershipEvent
first_event pk user_id role = record {
  membership_id = pk;
  access_request_id = none;
  event_type = granted;
  source = system_migration;
  previous_role = none;
  new_role = role;
  previous_is_active = none;
  new_is_active = true;
  reason = "start";
  board_id_snapshot = 1;
  board_slug_snapshot = "tech";
  user_id_snapshot = user_id;
  username_snapshot = "someone";
  actor_id_snapshot = 4;
  actor_username_snapshot = "root";
}

abbrev pub some_device : MfaTotpDevice
some_device = record { pk = 7; user_id = 4; status = device_active; auth_version = 1 }

abbrev pub some_binding : ClientCertificateBinding
some_binding = record { pk = 9; user_id = 4; is_active = true; auth_version = 2; expires_at = 5000 }

abbrev pub some_db : Database
some_db = record {
  membership_seq = 4;
  request_seq = 1;
  mfa_devices = some_device ∷ [];
  certificate_bindings = some_binding ∷ [];
  users = alice ∷ bob ∷ carol ∷ root ∷ dora ∷ [];
  categories = record { pk = 10; status = status_normal } ∷ [];
  boards = tech ∷ [];
  memberships = member 1 1 manager ∷ member 2 2 reviewer ∷ member 3 3 contributor ∷ [];
  requests = [];
  events = first_event 1 1 manager ∷ first_event 2 2 reviewer ∷ first_event 3 3 contributor ∷ [];
  audit_outbox = [];
}

abbrev pub some_post : ℕ → ℕ → ℕ → Post
some_post pk status owner_id = record {
  pk = pk;
  status = status;
  visibility = visibility_public;
  category_id = some 10;
  owner_id = owner_id;
}

abbrev pub some_posts : List Post
some_posts =
    some_post 1 status_draft 3 ∷ some_post 2 status_review 3 ∷ some_post 3 status_normal 2 ∷ []

pub some_db-KeysUnique : KeysUnique some_db
unfolding count
some_db-KeysUnique = record { boards = λ id. ground arith; members = λ b u. ground arith }

pub some_db-IsConsistent : IsConsistent some_db
unfolding count is_member
some_db-IsConsistent = record {
  member_keys = λ b u. ground arith;
  row_keys = λ id. ground arith;
  row_bound = λ id le. ground arith;
}

pub some_db-IsLogged : IsLogged some_db
unfolding find is_member replay
some_db-IsLogged = record { told = λ b u. ground arith }

abbrev pub some_settings : Settings
some_settings = record {
  mfa_enforcement_enabled = true;
  mtls_enforcement_enabled = true;
  mfa_privileged_session_ttl = 900;
  mfa_super_admin_idle_ttl = 600;
  mfa_dashboard_remember_ttl = 86400;
  mfa_challenge_ttl = 300;
  mfa_totp_binding_ttl = 600;
  membership_step_up_ttl = value 300;
}

abbrev pub request_at : ℕ → Request
request_at now = record {
  user = root;
  client_certificate_binding = some some_binding;
  fresh_session_key = "fresh";
  settings = some_settings;
  now = now;
}

-- A session whose entry was made by the device, with the certificate.
abbrev pub some_session : Session
some_session = record {
  session_key = some "k";
  privileged = some (record {
    user_id = value 4;
    device_id = some 7;
    auth_version = value 1;
    verified_at = value 700;
    certificate_binding_id = some 9;
    certificate_auth_version = value 2;
    last_seen_at = value 700;
  });
  dashboard_remember = none;
  recovery = none;
  enrollment = none;
  pending = none;
}

-- A cache that keeps every key with the time at which it expires; a token is its payload with the
-- time of its signature, and a text is its own digest.
abbrev pub is_live : String → ℕ → String × ℕ → Bool
is_live key now (other, until) = text_eq other key && ltb now until

abbrev pub some_add : String → ℕ → ℕ → List (String × ℕ) → Bool × List (String × ℕ)
some_add key timeout now cache =
    if any (is_live key now) cache then (false, cache) else (true, (key, now + timeout) ∷ cache)

abbrev pub some_loads : Payload × ℕ → ℕ → ℕ → Option Payload
some_loads (payload, issued) max_age now = if leb now (issued + max_age) then some payload else none

abbrev pub some_platform : Platform
some_platform = record {
  Token = Payload × ℕ;
  Cache = List (String × ℕ);
  has_perm = λ user permission. user.is_dashboard_user;
  loads = some_loads;
  sha256 = λ text. text;
  cache_add = some_add;
}

unfoldable pub some_laws : PlatformLaws some_platform
unfolding any
some_laws = record {
  has = λ cache key now. any (is_live key now) cache;
  issued_at = λ token. token.1;
  added_stays = λ key timeout now later cache cache' h a b. ground (arith, text_eq_refl key);
  others_stay = λ key other timeout now later cache h. ground arith;
  refused = λ key timeout now cache h. ground arith;
  signed_once = λ token a b c d y z h k. ground arith;
  expires = λ token max_age now payload h. ground arith;
}

abbrev pub some_token : String → String → String → Payload × ℕ
some_token action target nonce = (
  record {
    user_id = 4;
    session = "k";
    action = action;
    target = target;
    nonce = nonce;
    verified_at = 750;
  },
  750,
)

abbrev pub some_world : World some_platform
some_world = record { db = some_db; cache = []; session = some_session }
