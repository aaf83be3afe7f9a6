-- ===== src/Membership/Requests.antt =====
-- boards/services.py: access requests, their review, and a member's own withdrawal.
use power_adapter_blogs.Shared.{
  ℕ, suc, String, Bool, true, false, not, ◌&&◌, ◌||◌, Option, none, some, [], ◌∷◌, ◌++◌, ◌==◌,
  if◌then◌else◌, any, find, update,
}
use power_adapter_blogs.Text.{strip, is_empty}
use power_adapter_blogs.Access.{
  BoardRole, contributor, editor, reviewer, manager, is_known, role_eq,
}
use power_adapter_blogs.Models.{
  User, Board, BoardMembership, BoardAccessRequest, RequestStatus, pending, approved, rejected,
  access_request, self_service, request_decided, Database,
}
use power_adapter_blogs.Exec.{
  not_signed_in, cannot_apply, cannot_review, only_superuser_reviews, not_own_membership,
  manager_cannot_withdraw, unknown_role, board_closed, same_role_held, duplicate_request,
  already_inactive, already_decided, permission_denied, validation_error, does_not_exist, ok, err,
  Exec, pure, gets, get_or_raise, refuse_if, ◌>>=◌, ◌>>◌,
}
use power_adapter_blogs.Policies.{is_active_authenticated, can_manage_board_members}
use power_adapter_blogs.Policies.Querysets.{board_row}
use power_adapter_blogs.Membership.{
  is_pending, is_pending_for, is_member, Transition, transition_board_membership,
}

-- `transaction.atomic()`: what raises leaves the database as it was.
unfoldable pub atomic {ℓ} : {A : Type ℓ} → Exec Database A → Exec Database A
atomic m db = elim (m db).0 [ ok a ↦ (ok a, (m db).1) | err e ↦ (err e, db) ]

unfoldable pub user_row : Database → ℕ → Option User
user_row db id = find (λ (u : User). u.pk == id) db.users

-- A membership row that is locked, with its board and its user.
pub record Locked : Type 0 where
  pub row : BoardMembership
  pub board : Board
  pub user : User

unfoldable pub locked_row : Database → ℕ → Option Locked
locked_row db id = elim (find (λ (m : BoardMembership). m.pk == id) db.memberships) [
  | none ↦ none
  | some m ↦ elim (board_row db m.board_id) [
    | none ↦ none
    | some board ↦ elim (user_row db m.user_id) [
      | none ↦ none
      | some user ↦ some (record { row = m; board = board; user = user })
    ]
  ]
]

-- `select_for_update().select_related("board", "user").get(pk=…)`
unfoldable pub lock_membership : ℕ → Exec Database Locked
unfolding get_or_raise
lock_membership id db = get_or_raise does_not_exist (locked_row db id) db

unfoldable pub new_request : User → Board → BoardRole → String → ℕ → BoardAccessRequest
new_request applicant board requested_role reason pk = record {
  pk = pk;
  board_id = board.pk;
  applicant_id = applicant.pk;
  requested_role = requested_role;
  reason = strip reason;
  status = pending;
  previous_role = none;
  reviewed_by = none;
  decision_note = "";
  reviewed_at = none;
}

-- `create`, whose `IntegrityError` on a second pending request becomes a `ValidationError`
unfoldable pub create_request : BoardAccessRequest → Exec Database BoardAccessRequest
create_request row db =
    if any (is_pending_for row.board_id row.applicant_id) db.requests
    then (err (validation_error duplicate_request), db)
    else (
      ok row,
      record db { requests = db.requests ++ row ∷ []; request_seq = suc db.request_seq },
    )

unfoldable pub holds_role : BoardRole → Option BoardMembership → Bool
holds_role role none = false
holds_role role (some m) = m.is_active && role_eq m.role role

-- `has_perm` is the user's `has_perm("boards.apply_board_access")`.
unfoldable pub submit_board_access_request :
    (has_perm : User → Bool) → User → Board → BoardRole → String → Exec Database BoardAccessRequest
submit_board_access_request has_perm applicant board requested_role reason = do
  refuse_if (not (is_active_authenticated applicant)) (permission_denied not_signed_in)
  refuse_if (not (has_perm applicant)) (permission_denied cannot_apply)
  refuse_if (not board.is_active) (validation_error board_closed)
  refuse_if (not (is_known requested_role)) (validation_error unknown_role)
  current ← gets (λ (db : Database). find (is_member board.pk applicant.pk) db.memberships)
  refuse_if (holds_role requested_role current) (validation_error same_role_held)
  pk ← gets (λ (db : Database). db.request_seq)
  atomic (create_request (new_request applicant board requested_role reason pk))

-- `MANAGER_GRANTABLE_ROLES`
unfoldable pub is_manager_grantable : BoardRole → Bool
is_manager_grantable contributor = true
is_manager_grantable editor = true
is_manager_grantable reviewer = true
is_manager_grantable _ = false

unfoldable pub can_review_board_access_request : Database → User → BoardAccessRequest → Board → Bool
can_review_board_access_request db actor request board =
    if not (is_active_authenticated actor) || actor.pk == request.applicant_id
    then false
    else if actor.is_superuser
    then true
    else is_manager_grantable request.requested_role && can_manage_board_members db actor board

-- An access request that is locked, with its board and its applicant.
pub record LockedRequest : Type 0 where
  pub row : BoardAccessRequest
  pub board : Board
  pub applicant : User

unfoldable pub locked_request : Database → ℕ → Option LockedRequest
locked_request db id = elim (find (λ (r : BoardAccessRequest). r.pk == id) db.requests) [
  | none ↦ none
  | some r ↦ elim (board_row db r.board_id) [
    | none ↦ none
    | some board ↦ elim (user_row db r.applicant_id) [
      | none ↦ none
      | some user ↦ some (record { row = r; board = board; applicant = user })
    ]
  ]
]

unfoldable pub lock_request : ℕ → Exec Database LockedRequest
unfolding get_or_raise
lock_request id db = get_or_raise does_not_exist (locked_request db id) db

-- A membership that only a superuser may change by a request.
unfoldable pub is_reserved : Option BoardMembership → Bool
is_reserved none = false
is_reserved (some m) = not m.is_active || role_eq m.role manager

-- `note.strip() or locked.reason`
unfoldable pub decision_reason : String → String → String
decision_reason note reason = if is_empty (strip note) then reason else strip note

unfoldable pub approval : LockedRequest → User → String → Option BoardMembership → Transition
approval locked actor note membership = record {
  board = locked.board;
  user = locked.applicant;
  actor = actor;
  target_role = locked.row.requested_role;
  target_is_active = true;
  source = access_request;
  reason = decision_reason note locked.row.reason;
  access_request = some locked.row;
  membership = membership;
  event_type_override = none;
}

unfoldable pub decided_request :
    LockedRequest → User → RequestStatus → String → ℕ → Option BoardMembership → BoardAccessRequest
decided_request locked actor status note now membership = record locked.row {
  status = status;
  previous_role = elim membership [ none ↦ none | some m ↦ some m.role ];
  reviewed_by = some actor.pk;
  reviewed_at = some now;
  decision_note = strip note;
}

-- `locked.save(update_fields=[…])` and `_enqueue_access_decision_audit(locked)`
unfoldable pub save_decision : BoardAccessRequest → Exec Database BoardAccessRequest
save_decision decided db = (
  ok decided,
  record db {
    requests =
        update (λ (r : BoardAccessRequest). r.pk == decided.pk)
          (λ (r : BoardAccessRequest). record r {
            status = decided.status;
            previous_role = decided.previous_role;
            reviewed_by = decided.reviewed_by;
            reviewed_at = decided.reviewed_at;
            decision_note = decided.decision_note;
          })
          db.requests;
    audit_outbox = db.audit_outbox ++ request_decided decided ∷ [];
  },
)

-- The branch on `approve`: what is done to the membership, and the status that the request gets.
unfoldable pub carry_out :
    LockedRequest → User → Bool → String → ℕ → Option BoardMembership → Exec Database RequestStatus
carry_out locked actor true note now membership = do
  change ← transition_board_membership (approval locked actor note membership) now
  pure approved
carry_out locked actor false note now membership = pure rejected

unfoldable pub decide_body : ℕ → User → Bool → String → ℕ → Exec Database BoardAccessRequest
decide_body id actor approve note now = do
  locked ← lock_request id
  refuse_if (not (is_pending locked.row.status)) (validation_error already_decided)
  allowed ← gets (λ db. can_review_board_access_request db actor locked.row locked.board)
  refuse_if (not allowed) (permission_denied cannot_review)
  membership ←
      gets (λ (db : Database). find (is_member locked.board.pk locked.applicant.pk) db.memberships)
  refuse_if (not actor.is_superuser && is_reserved membership)
      (permission_denied only_superuser_reviews)
  status ← carry_out locked actor approve note now membership
  save_decision (decided_request locked actor status note now membership)

unfoldable pub decide_board_access_request :
    ℕ → User → Bool → String → ℕ → Exec Database BoardAccessRequest
unfolding atomic
decide_board_access_request id actor approve note now =
    atomic (decide_body id actor approve note now)

unfoldable pub approve_board_access_request :
    ℕ → User → String → ℕ → Exec Database BoardAccessRequest
approve_board_access_request id actor note now = decide_board_access_request id actor true note now

unfoldable pub reject_board_access_request :
    ℕ → User → String → ℕ → Exec Database BoardAccessRequest
reject_board_access_request id actor note now = decide_board_access_request id actor false note now

unfoldable pub withdrawal : Locked → User → Transition
withdrawal locked actor = record {
  board = locked.board;
  user = locked.user;
  actor = actor;
  target_role = locked.row.role;
  target_is_active = false;
  source = self_service;
  reason = "成员通过短时邮箱验证主动退出板块。";
  access_request = none;
  membership = some locked.row;
  event_type_override = none;
}

unfoldable pub withdraw_body : ℕ → User → ℕ → Exec Database BoardMembership
withdraw_body id actor now = do
  locked ← lock_membership id
  refuse_if (not (locked.row.user_id == actor.pk)) (permission_denied not_own_membership)
  refuse_if (not locked.row.is_active) (validation_error already_inactive)
  refuse_if (role_eq locked.row.role manager) (permission_denied manager_cannot_withdraw)
  (row, event) ← transition_board_membership (withdrawal locked actor) now
  pure row

unfoldable pub withdraw_board_membership : ℕ → User → ℕ → Exec Database BoardMembership
unfolding atomic
withdraw_board_membership id actor now = do
  refuse_if (not (is_active_authenticated actor)) (permission_denied not_signed_in)
  atomic (withdraw_body id actor now)
