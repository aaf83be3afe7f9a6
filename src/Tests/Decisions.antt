-- ===== src/Tests/Decisions.antt =====
-- boards/access_rules.py and boards/policies.py at concrete inputs.
use power_adapter_blogs.Shared.{
  ◌≡◌, refl, true, false, ◌||◌, some, [], ◌∷◌, ◌==◌, select, count, find,
}
use power_adapter_blogs.Access.{reviewer, manager, allows_board_action}
use power_adapter_blogs.Models.{BoardMembership, Post, Database, status_review}
use power_adapter_blogs.Policies.{
  is_active_authenticated, is_active_superuser, role_in, has_category, get_active_membership,
  board_for_post, owns_post, allows, sole, board_for_category, is_active_member_of, allows_member,
  can_edit_post, can_view_post, can_publish_post, can_submit_post, can_review_post,
}
use power_adapter_blogs.Policies.Querysets.{
  categories_for_post_creation, posts_editable_by, posts_publishable_by, posts_visible_to,
}
use power_adapter_blogs.Policies.Selected.{
  posts_editable_by-eq-select, posts_publishable_by-eq-select, posts_visible_to-eq-select,
}
use power_adapter_blogs.Policies.Creation.{
  board_lets_create, categories_for_post_creation-eq-select,
}
use power_adapter_blogs.Policies.Duties.{review_by_another, shared_category_closes}
use power_adapter_blogs.Tests.Samples.{
  alice, bob, carol, tech, some_db, some_post, some_posts, some_db-KeysUnique,
}

posts_editable_by_example :
    posts_editable_by some_db carol some_posts ≡ select (can_edit_post some_db carol) some_posts
posts_editable_by_example = posts_editable_by-eq-select some_db carol some_db-KeysUnique some_posts

posts_publishable_by_example :
    posts_publishable_by some_db bob some_posts ≡ select (can_publish_post some_db bob) some_posts
posts_publishable_by_example =
    posts_publishable_by-eq-select some_db bob some_db-KeysUnique some_posts

posts_visible_to_example :
    posts_visible_to some_db carol some_posts ≡ select (can_view_post some_db carol) some_posts
posts_visible_to_example = posts_visible_to-eq-select some_db carol some_db-KeysUnique some_posts

abbrev carols_post : Post
carols_post = some_post 2 status_review 3

bob_reviews :
    (can_publish_post some_db bob carols_post || can_review_post some_db bob carols_post) ≡ true
unfolding can_publish_post can_review_post board_for_post board_for_category has_category select
    sole owns_post allows is_active_superuser is_active_authenticated get_active_membership
    is_active_member_of allows_member allows_board_action find
bob_reviews = refl

review_by_another_example :
    (owns_post bob carols_post ≡ false)
    × ((m : BoardMembership) × (get_active_membership some_db bob
            (board_for_post some_db carols_post)
          ≡ some m)
        × (role_in (reviewer ∷ manager ∷ []) m.role ≡ true))
review_by_another_example =
    review_by_another some_db bob carols_post bob_reviews
      (unfold is_active_superuser is_active_authenticated in refl)

-- Two boards of one category.
abbrev shared_db : Database
shared_db = record some_db {
  boards = tech ∷ record { pk = 2; slug = "art"; category_id = some 10; is_active = true } ∷ [];
}

shared_count : (count (has_category 10) shared_db.boards == 1) ≡ false
unfolding count has_category
shared_count = refl

shared_category_closes_example :
    (can_view_post shared_db alice carols_post ≡ false)
    × (can_edit_post shared_db alice carols_post ≡ false)
    × (can_submit_post shared_db alice carols_post ≡ false)
    × (can_review_post shared_db alice carols_post ≡ false)
    × (can_publish_post shared_db alice carols_post ≡ false)
shared_category_closes_example =
    shared_category_closes shared_db alice carols_post 10 refl shared_count
      (unfold is_active_superuser is_active_authenticated in refl)

categories_for_post_creation_example :
    categories_for_post_creation some_db carol some_db.categories
    ≡ select (board_lets_create some_db carol) some_db.categories
categories_for_post_creation_example =
    categories_for_post_creation-eq-select some_db carol some_db.categories some_db-KeysUnique
