-- ===== src/Policies/Creation.antt =====
-- boards/policies.py: the categories offered for a new post, against the decision about a board.
use power_adapter_blogs.Shared.{
  any, ◌≡◌, refl, sym, ◌∙◌, inl, inr, Bool-cases, Bool, true, false, ◌||◌, Option, none, some, List,
  arith, select, select-all, select-congr, holds,
}
use power_adapter_blogs.Access.{create_post, role_eq, allows_known_role}
use power_adapter_blogs.Models.{User, Board, BoardMembership, Category, Database}
use power_adapter_blogs.Policies.{
  is_active_authenticated, is_active_superuser, role_in, board_for_category, get_active_membership,
  allows, can_create_post,
}
use power_adapter_blogs.Policies.Querysets.{
  in_list, membership_category_ids, author_roles, categories_among, categories_for_post_creation,
}
use power_adapter_blogs.Policies.Scopes.{KeysUnique, scoped_role, in_list-scoped_role}
use power_adapter_blogs.Policies.Agreement.{allows_member-eq-role}

create_roles :
    (m : Option BoardMembership)
    → holds (λ (x : BoardMembership). role_in author_roles x.role) m
      ≡ holds (λ (x : BoardMembership). allows_known_role x.role create_post false) m
unfolding role_in role_eq allows_known_role any
create_roles none = refl
create_roles (some m) = ground arith

module _ (db : Database) (user : User) where
  -- The single board of the category lets the user create posts.
  abbrev pub board_lets_create : Category → Bool
  board_lets_create row =
      is_active_superuser user
      || holds (can_create_post db user) (board_for_category db (some row.pk))

  scoped_role-eq-create :
      (board : Option Board)
      → is_active_superuser user ≡ false
      → scoped_role db user author_roles board ≡ holds (can_create_post db user) board
  unfolding get_active_membership can_create_post allows
  scoped_role-eq-create none s = refl
  scoped_role-eq-create (some b) s = elim (Bool-cases (is_active_authenticated user)) [
    | inl t ↦
        create_roles (get_active_membership db user (some b))
        ∙ sym (allows_member-eq-role db user (some b) create_post false)
        ∙ rw (t, s) refl
    | inr f ↦ rw f refl
  ]

  -- The categories offered for a new post are the rows whose single board can_create_post
  -- allows to the user, and every row for a superuser, over a database whose board keys are
  -- unique and in which a board and a user have at most one membership.
  pub categories_for_post_creation-eq-select :
      (queryset : List Category)
      → KeysUnique db
      → categories_for_post_creation db user queryset ≡ select board_lets_create queryset
  unfolding categories_for_post_creation categories_among
  categories_for_post_creation-eq-select queryset unique =
      elim (Bool-cases (is_active_superuser user)) [
        | inl s ↦ all_of s ∙ sym (select-all board_lets_create queryset (λ row. rw s refl))
        | inr s ↦
            rest_of s
            ∙ select-congr
                (λ (row : Category). in_list row.pk (membership_category_ids db user author_roles))
                board_lets_create queryset
                (λ row.
                  in_list-scoped_role db user author_roles row.pk unique
                  ∙ scoped_role-eq-create (board_for_category db (some row.pk)) s
                  ∙ rw s refl)
      ]
    where
      all_of :
          is_active_superuser user ≡ true
          → categories_among (membership_category_ids db user author_roles) user queryset ≡ queryset
      all_of s = rw s refl

      rest_of :
          is_active_superuser user ≡ false
          → categories_among (membership_category_ids db user author_roles) user queryset
            ≡ select
                (λ (row : Category). in_list row.pk (membership_category_ids db user author_roles))
                queryset
      rest_of s = rw s refl
