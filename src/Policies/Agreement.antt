-- ===== src/Policies/Agreement.antt =====
-- boards/policies.py: what a queryset method selects, against what the decision about one object
-- says of each row. Both have their own queries in the source.
use power_adapter_blogs.Shared.{
  ℕ, ◌≡◌, refl, sym, ◌⊎◌, inl, inr, Bool, true, false, not, ◌&&◌, ◌||◌, Option, none, some, List,
  [], ◌∷◌, arith, ◌==◌, Bool-cases, Option-cases, select, select-congr, select-all, select-none,
  find-passes, any, holds,
}
use power_adapter_blogs.Access.{
  BoardRole, contributor, editor, manager, role_eq, publish_post, moderate_comment, BoardAction,
  allows_known_role, allows_board_action,
}
use power_adapter_blogs.Models.{User, Board, BoardMembership, Post, Comment, Database, status_draft}
use power_adapter_blogs.Policies.{
  is_active_authenticated, is_active_superuser, role_in, board_for_category, board_for_post,
  board_for_comment, get_active_membership, allows_member, owns_post, member_can_view, edit_action,
  is_active_member_of,
}
use power_adapter_blogs.Policies.Querysets.{
  category_in, membership_category_ids, review_roles, own_roles, narrowed, in_view_scope,
  in_edit_scope, in_publish_scope, in_moderation_scope,
}
use power_adapter_blogs.Policies.Scopes.{KeysUnique, scoped_role, in_list-scoped_role}

-- Rows narrowed by a test are the rows that a decision allows, where the decision admits every
-- superuser, refuses who is not signed in, and agrees with the test on all others.
pub narrowed-select {ℓ} :
    {A : Type ℓ} (user : User) (test decide : A → Bool) (rows : List A)
    → (is_active_superuser user ≡ true → (x : A) → decide x ≡ true)
    → (is_active_authenticated user ≡ false → (x : A) → decide x ≡ false)
    → (is_active_superuser user ≡ false
        → is_active_authenticated user ≡ true
        → (x : A) → test x ≡ decide x)
    → narrowed user test rows ≡ select decide rows
unfolding narrowed
narrowed-select user test decide rows all nobody same =
    elim (Bool-cases (is_active_superuser user)) [
      | inl s ↦ rw s (sym (select-all decide rows (all s)))
      | inr s ↦ elim (Bool-cases (is_active_authenticated user)) [
        | inl t ↦ rw (s, t) (select-congr test decide rows (same s t))
        | inr f ↦ rw (s, f) (sym (select-none decide rows (nobody f)))
      ]
    ]

category_in-scoped_role :
    (db : Database) (user : User) (roles : List BoardRole) (category : Option ℕ)
    → KeysUnique db
    → category_in category (membership_category_ids db user roles)
      ≡ scoped_role db user roles (board_for_category db category)
unfolding category_in board_for_category get_active_membership
category_in-scoped_role db user roles none unique = refl
category_in-scoped_role db user roles (some c) unique = in_list-scoped_role db user roles c unique

-- The active membership is active, and stands on the board that it was looked up for.
pub membership_facts :
    (db : Database) (user : User) (board : Board) (m : BoardMembership)
    → get_active_membership db user (some board) ≡ some m
    → (m.is_active ≡ true) × ((m.board_id == board.pk) ≡ true)
unfolding get_active_membership is_active_member_of
membership_facts db user board m h =
    ground
      (arith, find-passes (is_active_member_of board user) db.memberships {y = m} (ground arith))

-- With a membership that was looked up, `_allows` asks its role alone.
pub allows_member-eq-role :
    (db : Database) (user : User) (board : Option Board) (action : BoardAction) (owns : Bool)
    → allows_member (get_active_membership db user board) board action owns
      ≡ holds
          (λ (m : BoardMembership). allows_known_role m.role action owns)
          (get_active_membership db user board)
unfolding get_active_membership allows_member allows_board_action
allows_member-eq-role db user none action owns = refl
allows_member-eq-role db user (some b) action owns =
    go (Option-cases (get_active_membership db user (some b)))
  where
    go :
        (get_active_membership db user (some b) ≡ none)
          ⊎ ((m : BoardMembership) × (get_active_membership db user (some b) ≡ some m))
        → allows_member (get_active_membership db user (some b)) (some b) action owns
          ≡ holds
              (λ (m : BoardMembership). allows_known_role m.role action owns)
              (get_active_membership db user (some b))
    go (inl e) = rw e refl
    go (inr (m, e)) = rw e (ground (arith, membership_facts db user b m e))

-- For each kind of queryset, the roles that its query names against the rules of the action.
module _ (r : BoardRole) where
  publish_roles_agree :
      (owns : Bool) → (role_in review_roles r && not owns) ≡ allows_known_role r publish_post owns
  unfolding role_in role_eq any allows_known_role
  publish_roles_agree owns = ground arith

  moderate_roles_agree : role_in review_roles r ≡ allows_known_role r moderate_comment false
  unfolding role_in role_eq any allows_known_role
  moderate_roles_agree = ground arith

  edit_roles_agree :
      (owns : Bool) (post : Post)
      → (role_in (manager ∷ []) r
          || ((role_in (editor ∷ []) r && owns)
              || (role_in (contributor ∷ []) r && (owns && post.status == status_draft))))
        ≡ allows_known_role r (edit_action owns post) owns
  unfolding role_in role_eq any allows_known_role edit_action
  edit_roles_agree owns post = ground arith

-- The tests of the querysets, read through the membership that decides about one row.
module _ (db : Database) (user : User) (unique : KeysUnique db) where
  pub in_publish_scope-eq-allows :
      (post : Post)
      → in_publish_scope db user post
        ≡ allows_member
            (get_active_membership db user (board_for_post db post))
            (board_for_post db post)
            publish_post
            (owns_post user post)
  unfolding in_publish_scope board_for_post
  in_publish_scope-eq-allows post =
      rw
        (
          category_in-scoped_role db user review_roles post.category_id unique,
          allows_member-eq-role db user (board_for_category db post.category_id),
        )
        (go (get_active_membership db user (board_for_category db post.category_id)))
    where
      go :
          (m : Option BoardMembership)
          → (holds (λ (n : BoardMembership). role_in review_roles n.role) m
              && not (owns_post user post))
            ≡ holds
                (λ (n : BoardMembership).
                  allows_known_role n.role publish_post (owns_post user post))
                m
      go none = refl
      go (some m) = publish_roles_agree m.role (owns_post user post)

  pub in_edit_scope-eq-allows :
      (post : Post)
      → in_edit_scope db user post
        ≡ allows_member
            (get_active_membership db user (board_for_post db post))
            (board_for_post db post)
            (edit_action (owns_post user post) post)
            (owns_post user post)
  unfolding in_edit_scope board_for_post
  in_edit_scope-eq-allows post =
      simp
        (
          category_in-scoped_role db user (manager ∷ []) post.category_id unique,
          category_in-scoped_role db user (editor ∷ []) post.category_id unique,
          category_in-scoped_role db user (contributor ∷ []) post.category_id unique,
          allows_member-eq-role db user (board_for_category db post.category_id),
        )
        (go (get_active_membership db user (board_for_category db post.category_id)))
    where
      go :
          (m : Option BoardMembership)
          → (holds (λ (n : BoardMembership). role_in (manager ∷ []) n.role) m
              || ((holds (λ (n : BoardMembership). role_in (editor ∷ []) n.role) m
                    && owns_post user post)
                  || (holds (λ (n : BoardMembership). role_in (contributor ∷ []) n.role) m
                      && (owns_post user post && post.status == status_draft))))
            ≡ holds
                (λ (n : BoardMembership).
                  allows_known_role n.role
                    (edit_action (owns_post user post) post)
                    (owns_post user post))
                m
      go none = refl
      go (some m) = edit_roles_agree m.role (owns_post user post) post

  pub in_view_scope-eq-member :
      (post : Post)
      → in_view_scope db user post
        ≡ member_can_view
            (get_active_membership db user (board_for_post db post))
            (owns_post user post)
  unfolding in_view_scope board_for_post
  in_view_scope-eq-member post =
      simp
        (
          category_in-scoped_role db user review_roles post.category_id unique,
          category_in-scoped_role db user own_roles post.category_id unique,
        )
        (go (get_active_membership db user (board_for_category db post.category_id)))
    where
      go :
          (m : Option BoardMembership)
          → (holds (λ (n : BoardMembership). role_in review_roles n.role) m
              || (holds (λ (n : BoardMembership). role_in own_roles n.role) m
                  && owns_post user post))
            ≡ member_can_view m (owns_post user post)
      go none = unfold member_can_view in refl
      go (some m) = unfold member_can_view in ground arith

  pub in_moderation_scope-eq-allows :
      (comment : Comment)
      → in_moderation_scope db user comment
        ≡ allows_member
            (get_active_membership db user (board_for_comment db comment))
            (board_for_comment db comment)
            moderate_comment
            false
  unfolding in_moderation_scope board_for_comment
  in_moderation_scope-eq-allows comment = at comment.post
    where
      at :
          (p : Option Post)
          → (elim p [
            | none ↦ false
            | some post ↦
                category_in post.category_id (membership_category_ids db user review_roles)
          ])
            ≡ (let board : Option Board = elim p [
              | none ↦ none
              | some post ↦ board_for_post db post
            ] in
                allows_member (get_active_membership db user board) board moderate_comment false)
      at none = unfold get_active_membership allows_member in refl
      at (some post) =
          unfold board_for_post in
          rw
            (
              category_in-scoped_role db user review_roles post.category_id unique,
              allows_member-eq-role db user (board_for_category db post.category_id),
            )
            (go (get_active_membership db user (board_for_category db post.category_id)))
        where
          go :
              (m : Option BoardMembership)
              → holds (λ (n : BoardMembership). role_in review_roles n.role) m
                ≡ holds (λ (n : BoardMembership). allows_known_role n.role moderate_comment false) m
          go none = refl
          go (some m) = moderate_roles_agree m.role
