-- ===== src/Policies/Selected.antt =====
-- boards/policies.py: the queryset methods against the decisions about one object.
use power_adapter_blogs.Shared.{
  ◌≡◌, refl, ◌∙◌, ◌⊎◌, inl, inr, Bool-cases, Bool, true, false, ◌&&◌, Option, none, some, List,
  arith, ◌==◌, select, find, any-congr, holds,
}
use power_adapter_blogs.Access.{
  BoardRole, BoardAction, manager, manage_board_members, role_eq, allows_known_role,
}
use power_adapter_blogs.Models.{User, Board, BoardMembership, Post, Comment, PostRevision, Database}
use power_adapter_blogs.Policies.{
  is_active_authenticated, is_active_superuser, is_active_member_of, board_for_post,
  get_active_membership, allows_member, allows, owns_post, can_view_post, member_can_view,
  can_edit_post, can_publish_post, can_moderate_comment, can_view_post_revision,
  can_manage_board_members,
}
use power_adapter_blogs.Policies.Querysets.{
  posts_visible_to, posts_editable_by, posts_publishable_by, comments_visible_to_moderator,
  post_revisions_visible_to, boards_manageable_by, has_manager_row, in_view_scope, in_edit_scope,
  in_publish_scope, in_moderation_scope,
}
use power_adapter_blogs.Policies.Scopes.{KeysUnique, any-find}
use power_adapter_blogs.Policies.Agreement.{
  narrowed-select, in_publish_scope-eq-allows, in_edit_scope-eq-allows, in_view_scope-eq-member,
  in_moderation_scope-eq-allows, allows_member-eq-role,
}

-- The three kinds of user that a decision meets.
module _ (db : Database) (user : User) (board : Option Board) (action : BoardAction)
    (owns : Bool) where
  allows-superuser : is_active_superuser user ≡ true → allows db user board action owns ≡ true
  unfolding allows is_active_superuser
  allows-superuser h = ground arith

  allows-nobody : is_active_authenticated user ≡ false → allows db user board action owns ≡ false
  unfolding allows
  allows-nobody h = rw h refl

  allows-member :
      is_active_superuser user ≡ false
      → is_active_authenticated user ≡ true
      → allows_member (get_active_membership db user board) board action owns
        ≡ allows db user board action owns
  unfolding allows
  allows-member s t = rw (s, t) refl

no_membership :
    (db : Database) (user : User) (board : Option Board)
    → is_active_authenticated user ≡ false
    → get_active_membership db user board ≡ none
unfolding get_active_membership
no_membership db user none f = refl
no_membership db user (some b) f = rw f refl

module _ (db : Database) (user : User) (post : Post) where
  view-superuser : is_active_superuser user ≡ true → can_view_post db user post ≡ true
  unfolding can_view_post
  view-superuser s = rw s refl

  view-nobody : is_active_authenticated user ≡ false → can_view_post db user post ≡ false
  unfolding can_view_post member_can_view is_active_superuser
  view-nobody f = rw (f, no_membership db user (board_for_post db post) f) refl

  view-member :
      is_active_superuser user ≡ false
      → member_can_view
          (get_active_membership db user (board_for_post db post))
          (owns_post user post)
        ≡ can_view_post db user post
  unfolding can_view_post
  view-member s = rw s refl

module _ (db : Database) (user : User) (unique : KeysUnique db) where
  -- The posts that a user may edit are the rows that `can_edit_post` allows, over a database
  -- whose board keys are unique and in which a board and a user have at most one membership.
  pub posts_editable_by-eq-select :
      (queryset : List Post)
      → posts_editable_by db user queryset ≡ select (can_edit_post db user) queryset
  unfolding posts_editable_by can_edit_post
  posts_editable_by-eq-select queryset =
      narrowed-select user (in_edit_scope db user) (can_edit_post db user) queryset
        (λ s post. allows-superuser db user _ _ _ s) (λ f post. allows-nobody db user _ _ _ f)
        (λ s t post. in_edit_scope-eq-allows db user unique post ∙ allows-member db user _ _ _ s t)

  -- The posts that a user may publish are the rows that `can_publish_post` allows, over a
  -- database whose board keys are unique and in which a board and a user have at most one
  -- membership.
  pub posts_publishable_by-eq-select :
      (queryset : List Post)
      → posts_publishable_by db user queryset ≡ select (can_publish_post db user) queryset
  unfolding posts_publishable_by can_publish_post
  posts_publishable_by-eq-select queryset =
      narrowed-select user (in_publish_scope db user) (can_publish_post db user) queryset
        (λ s post. allows-superuser db user _ _ _ s) (λ f post. allows-nobody db user _ _ _ f)
        (λ s t post.
          in_publish_scope-eq-allows db user unique post ∙ allows-member db user _ _ _ s t)

  -- The posts that a user sees are the rows that `can_view_post` allows, over a database whose
  -- board keys are unique and in which a board and a user have at most one membership.
  pub posts_visible_to-eq-select :
      (queryset : List Post)
      → posts_visible_to db user queryset ≡ select (can_view_post db user) queryset
  unfolding posts_visible_to
  posts_visible_to-eq-select queryset =
      narrowed-select user (in_view_scope db user) (can_view_post db user) queryset
        (λ s post. view-superuser db user post s) (λ f post. view-nobody db user post f)
        (λ s t post. in_view_scope-eq-member db user unique post ∙ view-member db user post s)

  -- The revisions that a user sees are the rows that `can_view_post_revision` allows, over a
  -- database whose board keys are unique and in which a board and a user have at most one
  -- membership.
  pub post_revisions_visible_to-eq-select :
      (queryset : List PostRevision)
      → post_revisions_visible_to db user queryset
        ≡ select (can_view_post_revision db user) queryset
  unfolding post_revisions_visible_to can_view_post_revision
  post_revisions_visible_to-eq-select queryset =
      narrowed-select user (λ (r : PostRevision). in_view_scope db user r.post)
        (can_view_post_revision db user) queryset (λ s r. view-superuser db user r.post s)
        (λ f r. view-nobody db user r.post f)
        (λ s t r. in_view_scope-eq-member db user unique r.post ∙ view-member db user r.post s)

  -- The comments that a moderator sees are the rows that `can_moderate_comment` allows, over a
  -- database whose board keys are unique and in which a board and a user have at most one
  -- membership.
  pub comments_visible_to_moderator-eq-select :
      (queryset : List Comment)
      → comments_visible_to_moderator db user queryset
        ≡ select (can_moderate_comment db user) queryset
  unfolding comments_visible_to_moderator can_moderate_comment
  comments_visible_to_moderator-eq-select queryset =
      narrowed-select user (in_moderation_scope db user) (can_moderate_comment db user) queryset
        (λ s c. allows-superuser db user _ _ _ s) (λ f c. allows-nobody db user _ _ _ f)
        (λ s t c. in_moderation_scope-eq-allows db user unique c ∙ allows-member db user _ _ _ s t)

-- The related rows that a query over a board's members looks at, against its one membership.
module _ (db : Database) (user : User) (unique : KeysUnique db) (board : Board) where
  has_manager_row-eq-role :
      has_manager_row db user board
      ≡ holds
          (λ (m : BoardMembership). role_eq m.role manager)
          (find (is_active_member_of board user) db.memberships)
  unfolding has_manager_row is_active_member_of
  has_manager_row-eq-role =
      any-congr _
        (λ (m : BoardMembership).
          (m.board_id == board.pk && m.user_id == user.pk)
          && (m.is_active && role_eq m.role manager))
        db.memberships (λ m. ground arith)
      ∙ any-find (λ (m : BoardMembership). m.board_id == board.pk && m.user_id == user.pk)
          (λ (m : BoardMembership). m.is_active) (λ (m : BoardMembership). role_eq m.role manager)
          db.memberships (unique.members board.pk user.pk)

  manager_allows :
      (r : BoardRole) → role_eq r manager ≡ allows_known_role r manage_board_members false
  unfolding role_eq allows_known_role
  manager_allows r = ground arith

  manageable-eq-allows :
      is_active_authenticated user ≡ true
      → (board.is_active && has_manager_row db user board)
        ≡ allows_member
            (get_active_membership db user (some board))
            (some board)
            manage_board_members
            false
  manageable-eq-allows t =
      rw (has_manager_row-eq-role, allows_member-eq-role db user (some board))
        (at (Bool-cases board.is_active))
    where
      go :
          (m : Option BoardMembership)
          → holds (λ (n : BoardMembership). role_eq n.role manager) m
            ≡ holds (λ (n : BoardMembership). allows_known_role n.role manage_board_members false) m
      go none = refl
      go (some m) = manager_allows m.role

      at :
          (board.is_active ≡ true) ⊎ (board.is_active ≡ false)
          → (board.is_active
              && holds
                  (λ (m : BoardMembership). role_eq m.role manager)
                  (find (is_active_member_of board user) db.memberships))
            ≡ holds
                (λ (n : BoardMembership). allows_known_role n.role manage_board_members false)
                (get_active_membership db user (some board))
      at (inl on) =
          unfold get_active_membership in
          simp (t, on) (go (find (is_active_member_of board user) db.memberships))
      at (inr off) = unfold get_active_membership in simp (t, off)

-- The boards that a user may manage are the rows that `can_manage_board_members` allows, over a
-- database whose board keys are unique and in which a board and a user have at most one
-- membership.
pub boards_manageable_by-eq-select :
    (db : Database) (user : User) (queryset : List Board)
    → KeysUnique db
    → boards_manageable_by db user queryset ≡ select (can_manage_board_members db user) queryset
unfolding boards_manageable_by can_manage_board_members
boards_manageable_by-eq-select db user queryset unique =
    narrowed-select user (λ (board : Board). board.is_active && has_manager_row db user board)
      (can_manage_board_members db user) queryset (λ s board. allows-superuser db user _ _ _ s)
      (λ f board. allows-nobody db user _ _ _ f)
      (λ s t board. manageable-eq-allows db user unique board t ∙ allows-member db user _ _ _ s t)
