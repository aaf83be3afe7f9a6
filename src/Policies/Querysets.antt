-- ===== src/Policies/Querysets.antt =====
-- boards/policies.py: the decisions about a whole queryset, made by one query and not row by row.
-- A queryset is the list of its rows, and a nested `values(...)` query the list of its values.
use power_adapter_blogs.Shared.{
  ℕ, Bool, true, false, not, ◌&&◌, ◌||◌, Option, none, some, List, [], ◌∷◌, ◌==◌, if◌then◌else◌,
  select, find, any, count, filter_map,
}
use power_adapter_blogs.Access.{BoardRole, contributor, editor, reviewer, manager, role_eq}
use power_adapter_blogs.Models.{
  User, Category, Board, BoardMembership, Post, Comment, PostRevision, Database, status_normal,
  status_draft, visibility_public, visibility_staff_only,
}
use power_adapter_blogs.Policies.{
  is_active_authenticated, is_active_superuser, role_in, has_category, owns_post,
}

-- `value in values`
unfoldable pub in_list : ℕ → List ℕ → Bool
in_list c values = any (λ d. d == c) values

-- `category_id in values`; a null is in no list.
unfoldable pub category_in : Option ℕ → List ℕ → Bool
unfolding in_list
category_in none values = false
category_in (some c) values = in_list c values

unfoldable pub sole_category : Database → Board → Option ℕ
sole_category db board = elim board.category_id [
  | none ↦ none
  | some c ↦ if count (has_category c) db.boards == 1 then some c else none
]

unfoldable pub unambiguous_category_ids : Database → List ℕ
unfolding sole_category
unambiguous_category_ids db = filter_map (sole_category db) db.boards

-- `board__is_active`, `board__category_id__isnull` and `board__category_id__in` of one board
unfoldable pub scope_category : Database → Board → Option ℕ
scope_category db board = if not board.is_active then none else elim board.category_id [
  | none ↦ none
  | some c ↦ if in_list c (unambiguous_category_ids db) then some c else none
]

unfoldable pub board_row : Database → ℕ → Option Board
board_row db id = find (λ (board : Board). board.pk == id) db.boards

-- The category that one membership row contributes.
unfoldable pub membership_category : Database → User → List BoardRole → BoardMembership → Option ℕ
membership_category db user roles m =
    if not (m.user_id == user.pk && (m.is_active && role_in roles m.role))
    then none
    else elim (board_row db m.board_id) [ none ↦ none | some board ↦ scope_category db board ]

unfoldable pub membership_category_ids : Database → User → List BoardRole → List ℕ
unfolding membership_category
membership_category_ids db user roles =
    if not (is_active_authenticated user)
    then []
    else filter_map (membership_category db user roles) db.memberships

unfoldable pub has_scoped_role : Database → User → List BoardRole → Bool
has_scoped_role db user roles =
    if is_active_superuser user
    then true
    else any (λ _. true) (membership_category_ids db user roles)

abbrev pub post_roles : List BoardRole
post_roles = contributor ∷ editor ∷ reviewer ∷ manager ∷ []

abbrev pub author_roles : List BoardRole
author_roles = contributor ∷ editor ∷ manager ∷ []

abbrev pub review_roles : List BoardRole
review_roles = reviewer ∷ manager ∷ []

abbrev pub own_roles : List BoardRole
own_roles = contributor ∷ editor ∷ []

unfoldable pub can_access_post_admin : Database → User → Bool
can_access_post_admin db user = has_scoped_role db user post_roles

unfoldable pub can_change_posts_in_admin : Database → User → Bool
can_change_posts_in_admin db user = has_scoped_role db user author_roles

unfoldable pub can_create_post_in_any_board : Database → User → Bool
can_create_post_in_any_board db user = can_change_posts_in_admin db user

unfoldable pub can_review_posts_in_admin : Database → User → Bool
can_review_posts_in_admin db user = has_scoped_role db user review_roles

unfoldable pub can_access_comment_admin : Database → User → Bool
can_access_comment_admin db user = has_scoped_role db user review_roles

-- A manager's active row on an active board.
unfoldable pub manages_row : Database → User → BoardMembership → Bool
manages_row db user m =
    (m.user_id == user.pk && (m.is_active && role_eq m.role manager))
    && elim (board_row db m.board_id) [ none ↦ false | some board ↦ board.is_active ]

unfoldable pub can_access_board_admin : Database → User → Bool
can_access_board_admin db user =
    if is_active_superuser user
    then true
    else if not (is_active_authenticated user)
    then false
    else any (manages_row db user) db.memberships

-- `memberships__user`, `memberships__role` and `memberships__is_active`, on one related row
unfoldable pub has_manager_row : Database → User → Board → Bool
has_manager_row db user board =
    any
      (λ (m : BoardMembership).
        m.board_id == board.pk && (m.user_id == user.pk && (role_eq m.role manager && m.is_active)))
      db.memberships

-- A queryset narrowed for a user: all of it for a superuser, none of it for who is not signed in.
unfoldable pub narrowed {ℓ} : {A : Type ℓ} → User → (A → Bool) → List A → List A
narrowed user test queryset =
    if is_active_superuser user
    then queryset
    else if not (is_active_authenticated user)
    then []
    else select test queryset

unfoldable pub boards_manageable_by : Database → User → List Board → List Board
boards_manageable_by db user queryset =
    narrowed user (λ board. board.is_active && has_manager_row db user board) queryset

unfoldable pub categories_among : List ℕ → User → List Category → List Category
categories_among ids user queryset =
    if is_active_superuser user then queryset else select (λ row. in_list row.pk ids) queryset

unfoldable pub categories_available_to : Database → User → List Category → List Category
categories_available_to db user queryset =
    categories_among (membership_category_ids db user post_roles) user queryset

unfoldable pub categories_for_post_creation : Database → User → List Category → List Category
categories_for_post_creation db user queryset =
    categories_among (membership_category_ids db user author_roles) user queryset

-- The test of `posts_visible_to` and of `post_revisions_visible_to`.
unfoldable pub in_view_scope : Database → User → Post → Bool
in_view_scope db user post =
    category_in post.category_id (membership_category_ids db user review_roles)
    || (category_in post.category_id (membership_category_ids db user own_roles)
        && owns_post user post)

unfoldable pub posts_visible_to : Database → User → List Post → List Post
posts_visible_to db user queryset = narrowed user (in_view_scope db user) queryset

unfoldable pub in_edit_scope : Database → User → Post → Bool
in_edit_scope db user post =
    category_in post.category_id (membership_category_ids db user (manager ∷ []))
    || ((category_in post.category_id (membership_category_ids db user (editor ∷ []))
          && owns_post user post)
        || (category_in post.category_id (membership_category_ids db user (contributor ∷ []))
            && (owns_post user post && post.status == status_draft)))

unfoldable pub posts_editable_by : Database → User → List Post → List Post
posts_editable_by db user queryset = narrowed user (in_edit_scope db user) queryset

-- `filter(category_id__in=…).exclude(owner=user)`
unfoldable pub in_publish_scope : Database → User → Post → Bool
in_publish_scope db user post =
    category_in post.category_id (membership_category_ids db user review_roles)
    && not (owns_post user post)

unfoldable pub posts_publishable_by : Database → User → List Post → List Post
posts_publishable_by db user queryset = narrowed user (in_publish_scope db user) queryset

unfoldable pub published : List Post → List Post
published queryset = select (λ post. post.status == status_normal) queryset

-- `values("pk")` of the internal posts within the user's scope
unfoldable pub scoped_internal_ids : Database → User → List Post → List ℕ
scoped_internal_ids db user queryset =
    filter_map (λ (post : Post). some post.pk)
      (posts_visible_to db user
        (select (λ (post : Post). post.visibility == visibility_staff_only) (published queryset)))

unfoldable pub published_posts_visible_to : Database → User → List Post → List Post
published_posts_visible_to db user queryset =
    if is_active_superuser user
    then published queryset
    else if not (is_active_authenticated user)
    then select (λ (post : Post). post.visibility == visibility_public) (published queryset)
    else select
        (λ (post : Post).
          post.visibility == visibility_public
          || in_list post.pk (scoped_internal_ids db user queryset))
        (published queryset)

unfoldable pub in_moderation_scope : Database → User → Comment → Bool
in_moderation_scope db user comment = elim comment.post [
  | none ↦ false
  | some post ↦ category_in post.category_id (membership_category_ids db user review_roles)
]

unfoldable pub comments_visible_to_moderator : Database → User → List Comment → List Comment
comments_visible_to_moderator db user queryset =
    narrowed user (in_moderation_scope db user) queryset

unfoldable pub post_revisions_visible_to : Database → User → List PostRevision → List PostRevision
post_revisions_visible_to db user queryset =
    narrowed user (λ revision. in_view_scope db user revision.post) queryset
