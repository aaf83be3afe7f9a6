-- ===== src/Membership.antt =====
-- boards/services.py: one locked change of a board membership, with its event and its audit record.
pub mod Effects
pub mod Consistency
pub mod Continuity
pub mod History
pub mod Requests
pub mod Dashboard
pub mod Evolution
pub mod Quiet
pub mod Services
pub mod Reviews
pub mod Calls
pub mod Guards
pub mod Authority
use power_adapter_blogs.Shared.{
  ℕ, suc, String, Bool, true, false, not, ◌&&◌, ◌||◌, Option, none, some, [], ◌∷◌, ◌++◌, ◌==◌,
  if◌then◌else◌, leb, any, find, count, update,
}
use power_adapter_blogs.Text.{strip}
use power_adapter_blogs.Access.{BoardRole, manager, is_known, role_eq}
use power_adapter_blogs.Models.{
  User, Board, BoardMembership, BoardAccessRequest, RequestStatus, pending, EventType, granted,
  role_changed, deactivated, reactivated, Source, super_admin, BoardMembershipEvent,
  membership_event, Database,
}
use power_adapter_blogs.Exec.{
  unknown_role, nothing_to_deactivate, no_change, last_manager, inactive_target, superuser_target,
  request_must_be_decided, validation_error, integrity_error, Result, ok, err, Exec, continue,
  refuse_if, ◌>>=◌, ◌>>◌,
}

unfoldable pub is_pending : RequestStatus → Bool
is_pending pending = true
is_pending _ = false

unfoldable pub is_super_admin : Source → Bool
is_super_admin super_admin = true
is_super_admin _ = false

-- `filter(board_id=…, user_id=…)`
unfoldable pub is_member : ℕ → ℕ → BoardMembership → Bool
is_member board_id user_id m = m.board_id == board_id && m.user_id == user_id

unfoldable pub is_active_manager : BoardMembership → Bool
is_active_manager m = role_eq m.role manager && m.is_active

-- `filter(board_id=…, role=MANAGER, is_active=True)`
unfoldable pub manages : ℕ → BoardMembership → Bool
unfolding is_active_manager
manages board_id m = m.board_id == board_id && is_active_manager m

unfoldable pub active_managers : ℕ → Database → ℕ
active_managers board_id db = count (manages board_id) db.memberships

-- `filter(board_id=…, applicant_id=…, status=PENDING)`
unfoldable pub is_pending_for : ℕ → ℕ → BoardAccessRequest → Bool
is_pending_for board_id user_id r =
    (r.board_id == board_id && r.applicant_id == user_id) && is_pending r.status

-- `exclude(pk=access_request.pk)`, where there is one
unfoldable pub is_other_request : Option BoardAccessRequest → BoardAccessRequest → Bool
is_other_request none r = true
is_other_request (some except) r = not (r.pk == except.pk)

-- The arguments of `_transition_board_membership`.
pub record Transition : Type 0 where
  pub board : Board
  pub user : User
  pub actor : User
  pub target_role : BoardRole
  pub target_is_active : Bool
  pub source : Source
  pub reason : String
  pub access_request : Option BoardAccessRequest
  pub membership : Option BoardMembership
  pub event_type_override : Option EventType

unfoldable pub transition_event_type : Option BoardMembership → BoardRole → Bool → Result EventType
transition_event_type none target_role target_is_active =
    if not target_is_active then err (validation_error nothing_to_deactivate) else ok granted
transition_event_type (some m) target_role target_is_active =
    if not m.is_active && target_is_active
    then ok reactivated
    else if m.is_active && not target_is_active
    then ok deactivated
    else if not (role_eq m.role target_role)
    then ok role_changed
    else err (validation_error no_change)

-- `_assert_manager_continuity`: whether the change is refused
unfoldable pub breaks_continuity :
    Option BoardMembership → BoardRole → Bool → Source → Database → Bool
breaks_continuity none target_role target_is_active source db = false
breaks_continuity (some m) target_role target_is_active source db =
    let removes_manager : Bool =
      is_active_manager m && (not target_is_active || not (role_eq target_role manager)) in
    if not removes_manager || is_super_admin source
    then false
    else leb (active_managers m.board_id db) 1

-- `membership.save(update_fields=["role", "is_active", "updated_at"])` of the changed object
unfoldable pub set_membership : BoardRole → Bool → ℕ → BoardMembership → BoardMembership
set_membership role is_active now m = record m {
  role = role;
  is_active = is_active;
  updated_at = now;
}

unfoldable pub save_membership : ℕ → BoardRole → Bool → ℕ → Database → Database
save_membership pk role is_active now db = record db {
  memberships =
      update (λ (m : BoardMembership). m.pk == pk) (set_membership role is_active now)
        db.memberships;
}

-- `BoardMembership.objects.create(…)`: `unique_board_member` refuses a second row.
unfoldable pub new_membership : Transition → ℕ → ℕ → BoardMembership
new_membership t now pk = record {
  pk = pk;
  board_id = t.board.pk;
  user_id = t.user.pk;
  role = t.target_role;
  is_active = t.target_is_active;
  created_by = some t.actor.pk;
  updated_at = now;
}

unfoldable pub create_membership : Transition → ℕ → Exec Database BoardMembership
create_membership t now db =
    let row : BoardMembership = new_membership t now db.membership_seq in
    if any (is_member t.board.pk t.user.pk) db.memberships then (err integrity_error, db) else (
      ok row,
      record db {
        memberships = db.memberships ++ row ∷ [];
        membership_seq = suc db.membership_seq;
      },
    )

unfoldable pub write_membership :
    Transition → ℕ → Option BoardMembership → Exec Database BoardMembership
write_membership t now none db = create_membership t now db
write_membership t now (some m) db = (
  ok (set_membership t.target_role t.target_is_active now m),
  save_membership m.pk t.target_role t.target_is_active now db,
)

unfoldable pub transition_event :
    Transition → EventType → Option BoardMembership → ℕ → BoardMembershipEvent
transition_event t event_type previous membership_id = record {
  membership_id = membership_id;
  access_request_id = elim t.access_request [ none ↦ none | some r ↦ some r.pk ];
  event_type = event_type;
  source = t.source;
  previous_role = elim previous [ none ↦ none | some m ↦ some m.role ];
  new_role = t.target_role;
  previous_is_active = elim previous [ none ↦ none | some m ↦ some m.is_active ];
  new_is_active = t.target_is_active;
  reason = strip t.reason;
  board_id_snapshot = t.board.pk;
  board_slug_snapshot = t.board.slug;
  user_id_snapshot = t.user.pk;
  username_snapshot = t.user.username;
  actor_id_snapshot = t.actor.pk;
  actor_username_snapshot = t.actor.username;
}

-- `BoardMembershipEvent.objects.create(…)` and `_enqueue_membership_event_audit(event)`
unfoldable pub append_event : BoardMembershipEvent → Database → Database
append_event event db = record db {
  events = db.events ++ event ∷ [];
  audit_outbox = db.audit_outbox ++ membership_event event ∷ [];
}

-- The row that the transition changes: the one that it is handed, else the one in the table.
unfoldable pub current_membership : Transition → Database → Option BoardMembership
current_membership t db = elim t.membership [
  | none ↦ find (is_member t.board.pk t.user.pk) db.memberships
  | some m ↦ some m
]

unfoldable pub event_type_of : Transition → Option BoardMembership → Result EventType
event_type_of t current = elim t.event_type_override [
  | none ↦ transition_event_type current t.target_role t.target_is_active
  | some event_type ↦ ok event_type
]

abbrev pub from_result : {A : Type 0} → Result A → Exec Database A
from_result r db = (r, db)

-- The guards before the row is looked up.
unfoldable pub check_target : Transition → Exec Database (Unit {0})
unfolding ◌>>=◌
check_target t = do
  refuse_if (not (is_known t.target_role)) (validation_error unknown_role)
  refuse_if (t.target_is_active && (not t.board.is_active || not t.user.is_active))
      (validation_error inactive_target)
  refuse_if t.user.is_superuser (validation_error superuser_target)

unfoldable pub has_other_pending : Transition → Database → Bool
has_other_pending t db =
    any
      (λ (r : BoardAccessRequest).
        is_pending_for t.board.pk t.user.pk r && is_other_request t.access_request r)
      db.requests

-- What is done once the guards have passed.
unfoldable pub apply_change :
    Transition
    → ℕ
    → Option BoardMembership
    → EventType
    → Exec Database (BoardMembership × BoardMembershipEvent)
apply_change t now current event_type db = continue (write_membership t now current db) λ row db'.
    let event : BoardMembershipEvent = transition_event t event_type current row.pk in
    (ok (row, event), append_event event db')

-- `_transition_board_membership`, at the time `now`
unfoldable pub transition_board_membership :
    Transition → ℕ → Exec Database (BoardMembership × BoardMembershipEvent)
transition_board_membership t now db = continue (check_target t db) λ _ db.
    if has_other_pending t db
    then (err (validation_error request_must_be_decided), db)
    else if breaks_continuity (current_membership t db) t.target_role t.target_is_active t.source db
    then (err (validation_error last_manager), db)
    else continue (from_result (event_type_of t (current_membership t db)) db)
        λ event_type db. apply_change t now (current_membership t db) event_type db
