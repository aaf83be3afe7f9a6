-- ===== src/Models.antt =====
-- The rows that the authorization code reads and writes: boards/models.py, and the fields of
-- accounts/models.py, Blogs/models.py and comment/models.py that it looks at.
--
-- A model's primary key and a foreign key are numbers. A table is the list of its rows, oldest
-- first; a `UniqueConstraint` is enforced where a row is inserted.
use power_adapter_blogs.Shared.{ℕ, String, Bool, Option, List}
use power_adapter_blogs.Access.{BoardRole}

-- A user object as the code sees one. `None` and Django's `AnonymousUser` are users whose
-- `is_authenticated` and `is_active` are false; the code tests these two before it uses `pk`.
pub record User : Type 0 where
  pub pk : ℕ
  pub username : String
  pub is_authenticated : Bool
  pub is_active : Bool
  pub is_superuser : Bool
  pub is_dashboard_user : Bool

pub record Category : Type 0 where
  pub pk : ℕ
  pub status : ℕ

pub record Board : Type 0 where
  pub pk : ℕ
  pub slug : String
  pub category_id : Option ℕ
  pub is_active : Bool

pub record BoardMembership : Type 0 where
  pub pk : ℕ
  pub board_id : ℕ
  pub user_id : ℕ
  pub role : BoardRole
  pub is_active : Bool
  pub created_by : Option ℕ
  pub updated_at : ℕ

-- `BoardAccessRequest.Status`
pub data RequestStatus : Type 0 where
  pending approved rejected : RequestStatus

-- An empty `previous_role` is `none`.
pub record BoardAccessRequest : Type 0 where
  pub pk : ℕ
  pub board_id : ℕ
  pub applicant_id : ℕ
  pub requested_role : BoardRole
  pub reason : String
  pub status : RequestStatus
  pub previous_role : Option BoardRole
  pub reviewed_by : Option ℕ
  pub decision_note : String
  pub reviewed_at : Option ℕ

-- `BoardMembershipEvent.EventType`
pub data EventType : Type 0 where
  granted role_changed deactivated reactivated manager_transferred : EventType

-- `BoardMembershipEvent.Source`
pub data Source : Type 0 where
  access_request self_service dashboard super_admin system_migration : Source

-- An event keeps its snapshots; its foreign keys may later be set to null and are not read.
pub record BoardMembershipEvent : Type 0 where
  pub membership_id : ℕ
  pub access_request_id : Option ℕ
  pub event_type : EventType
  pub source : Source
  pub previous_role : Option BoardRole
  pub new_role : BoardRole
  pub previous_is_active : Option Bool
  pub new_is_active : Bool
  pub reason : String
  pub board_id_snapshot : ℕ
  pub board_slug_snapshot : String
  pub user_id_snapshot : ℕ
  pub username_snapshot : String
  pub actor_id_snapshot : ℕ
  pub actor_username_snapshot : String

pub record Post : Type 0 where
  pub pk : ℕ
  pub status : ℕ
  pub visibility : ℕ
  pub category_id : Option ℕ
  pub owner_id : ℕ

-- A `Comment` and a `PostRevision` are seen through their post.
pub record Comment : Type 0 where
  pub pk : ℕ
  pub post : Option Post

pub record PostRevision : Type 0 where
  pub pk : ℕ
  pub post : Post

-- `Category.STATUS_NORMAL`, `Post.STATUS_…`, `Post.VISIBILITY_…`
abbrev pub status_delete : ℕ
status_delete = 0

abbrev pub status_normal : ℕ
status_normal = 1

abbrev pub status_draft : ℕ
status_draft = 2

abbrev pub status_review : ℕ
status_review = 3

abbrev pub visibility_public : ℕ
visibility_public = 0

abbrev pub visibility_staff_only : ℕ
visibility_staff_only = 1

-- `MfaTotpDevice.Status`
pub data DeviceStatus : Type 0 where
  device_pending device_active device_revoked : DeviceStatus

-- An `MfaTotpDevice`, as the session checks see one.
pub record MfaTotpDevice : Type 0 where
  pub pk : ℕ
  pub user_id : ℕ
  pub status : DeviceStatus
  pub auth_version : ℕ

-- A `ClientCertificateBinding`; `is_active` is `status == Status.ACTIVE`.
pub record ClientCertificateBinding : Type 0 where
  pub pk : ℕ
  pub user_id : ℕ
  pub is_active : Bool
  pub auth_version : ℕ
  pub expires_at : ℕ

-- What `enqueue_audit_event` is handed for a membership event and for a decided request.
pub data AuditEvent : Type 0 where
  membership_event : BoardMembershipEvent → AuditEvent
  request_decided : BoardAccessRequest → AuditEvent

-- The tables. `membership_seq` and `request_seq` are the keys that the next inserted rows get.
pub record Database : Type 0 where
  pub membership_seq : ℕ
  pub request_seq : ℕ
  pub mfa_devices : List MfaTotpDevice
  pub certificate_bindings : List ClientCertificateBinding
  pub users : List User
  pub categories : List Category
  pub boards : List Board
  pub memberships : List BoardMembership
  pub requests : List BoardAccessRequest
  pub events : List BoardMembershipEvent
  pub audit_outbox : List AuditEvent
