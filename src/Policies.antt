-- ===== src/Policies.antt =====
-- boards/policies.py: the decisions about one object. Each function takes the database first, which
-- the source reaches through `Board.objects` and `BoardMembership.objects`.
pub mod Querysets
pub mod Scopes
pub mod Agreement
pub mod Selected
pub mod Duties
pub mod Creation
use power_adapter_blogs.Shared.{
  ℕ, Bool, true, false, not, ◌&&◌, ◌||◌, Option, none, some, List, [], ◌∷◌, ◌==◌, if◌then◌else◌,
  select, find, any, length,
}
use power_adapter_blogs.Access.{
  BoardRole, contributor, editor, reviewer, manager, BoardAction, create_post, edit_own_draft,
  edit_own_post, edit_any_post, submit_post, view_review_queue, review_post, publish_post,
  moderate_comment, change_board_settings, manage_board_members, role_eq, allows_board_action,
}
use power_adapter_blogs.Models.{
  User, Category, Board, BoardMembership, Post, Comment, PostRevision, Database, status_normal,
  status_draft, status_review, visibility_public,
}

unfoldable pub is_active_authenticated : User → Bool
is_active_authenticated user = user.is_authenticated && user.is_active

unfoldable pub is_active_superuser : User → Bool
unfolding is_active_authenticated
is_active_superuser user = is_active_authenticated user && user.is_superuser

-- `role in roles`
unfoldable pub role_in : List BoardRole → BoardRole → Bool
role_in roles role = any (λ r. role_eq role r) roles

-- `board.category_id = c` in a filter; a null matches nothing.
unfoldable pub has_category : ℕ → Board → Bool
has_category c board = elim board.category_id [ none ↦ false | some d ↦ d == c ]

-- The one row of a list that has one row.
unfoldable pub sole {ℓ} : {A : Type ℓ} → List A → Option A
sole [] = none
sole (x ∷ []) = some x
sole (x ∷ y ∷ rest) = none

unfoldable pub board_for_category : Database → Option ℕ → Option Board
board_for_category db none = none
board_for_category db (some c) = sole (select (has_category c) db.boards)

unfoldable pub board_for_post : Database → Post → Option Board
board_for_post db post = board_for_category db post.category_id

unfoldable pub board_for_comment : Database → Comment → Option Board
board_for_comment db comment = elim comment.post [
  | none ↦ none
  | some post ↦ board_for_post db post
]

-- `filter(board=board, user=user, is_active=True)`
unfoldable pub is_active_member_of : Board → User → BoardMembership → Bool
is_active_member_of board user m = (m.board_id == board.pk && m.user_id == user.pk) && m.is_active

unfoldable pub get_active_membership : Database → User → Option Board → Option BoardMembership
get_active_membership db user none = none
get_active_membership db user (some board) =
    if not (is_active_authenticated user) || not board.is_active
    then none
    else find (is_active_member_of board user) db.memberships

-- `_allows` once the board's membership is looked up
unfoldable pub allows_member : Option BoardMembership → Option Board → BoardAction → Bool → Bool
allows_member (some m) (some board) action owns_object =
    allows_board_action (some m.role) action m.is_active (m.board_id == board.pk) owns_object
allows_member _ _ action owns_object = false

unfoldable pub allows : Database → User → Option Board → BoardAction → Bool → Bool
allows db user board action owns_object =
    if not (is_active_authenticated user)
    then false
    else if is_active_superuser user
    then true
    else allows_member (get_active_membership db user board) board action owns_object

unfoldable pub can_create_board : User → Bool
can_create_board user = is_active_superuser user

unfoldable pub can_delete_board : User → Bool
can_delete_board user = is_active_superuser user

unfoldable pub can_change_board_structure : User → Bool
can_change_board_structure user = is_active_superuser user

unfoldable pub can_change_board_settings : Database → User → Board → Bool
can_change_board_settings db user board = allows db user (some board) change_board_settings false

unfoldable pub can_manage_board_members : Database → User → Board → Bool
can_manage_board_members db user board = allows db user (some board) manage_board_members false

unfoldable pub can_manage_board_content : Database → User → Board → Bool
can_manage_board_content db user board = allows db user (some board) change_board_settings false

unfoldable pub can_create_post : Database → User → Board → Bool
can_create_post db user board = allows db user (some board) create_post false

-- `board.category` for a key that may be null
unfoldable pub category_row : Database → ℕ → Option Category
category_row db c = find (λ (row : Category). row.pk == c) db.categories

unfoldable pub category_is_usable : Database → Option ℕ → Bool
unfolding category_row
category_is_usable db none = false
category_is_usable db (some c) = elim (category_row db c) [
  | none ↦ false
  | some row ↦ row.status == status_normal && length (select (has_category c) db.boards) == 1
]

unfoldable pub can_create_post_for_board_category : Database → User → Option Board → Bool
can_create_post_for_board_category db user none = false
can_create_post_for_board_category db user (some board) =
    if not board.is_active
    then false
    else if not (category_is_usable db board.category_id)
    then false
    else can_create_post db user board

unfoldable pub owns_post : User → Post → Bool
owns_post user post = post.owner_id == user.pk

unfoldable pub member_can_view : Option BoardMembership → Bool → Bool
member_can_view none owns = false
member_can_view (some m) owns =
    if role_in (reviewer ∷ manager ∷ []) m.role
    then true
    else role_in (contributor ∷ editor ∷ []) m.role && owns

unfoldable pub can_view_post : Database → User → Post → Bool
can_view_post db user post =
    if is_active_superuser user
    then true
    else member_can_view (get_active_membership db user (board_for_post db post))
        (owns_post user post)

unfoldable pub can_view_published_post : Database → User → Post → Bool
can_view_published_post db user post =
    if not (post.status == status_normal)
    then false
    else if post.visibility == visibility_public
    then true
    else can_view_post db user post

unfoldable pub can_view_post_detail : Database → User → Post → Bool
can_view_post_detail db user post =
    if post.status == status_normal
    then can_view_published_post db user post
    else if not (post.status == status_draft || post.status == status_review)
    then false
    else is_active_authenticated user && owns_post user post

unfoldable pub edit_action : Bool → Post → BoardAction
edit_action owns post =
    if not owns
    then edit_any_post
    else if post.status == status_draft
    then edit_own_draft
    else edit_own_post

unfoldable pub can_edit_post : Database → User → Post → Bool
can_edit_post db user post =
    allows db user (board_for_post db post) (edit_action (owns_post user post) post)
      (owns_post user post)

unfoldable pub can_submit_post : Database → User → Post → Bool
can_submit_post db user post =
    allows db user (board_for_post db post) submit_post (owns_post user post)

unfoldable pub can_view_review_queue : Database → User → Board → Bool
can_view_review_queue db user board = allows db user (some board) view_review_queue false

unfoldable pub can_review_post : Database → User → Post → Bool
can_review_post db user post =
    allows db user (board_for_post db post) review_post (owns_post user post)

unfoldable pub can_publish_post : Database → User → Post → Bool
can_publish_post db user post =
    allows db user (board_for_post db post) publish_post (owns_post user post)

unfoldable pub can_moderate_comment : Database → User → Comment → Bool
can_moderate_comment db user comment =
    allows db user (board_for_comment db comment) moderate_comment false

unfoldable pub can_view_post_revision : Database → User → PostRevision → Bool
can_view_post_revision db user revision = can_view_post db user revision.post
