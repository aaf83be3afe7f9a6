-- ===== src/Policies/Duties.antt =====
-- boards/access_rules.py and boards/policies.py: what every decision guarantees, whoever asks.
use power_adapter_blogs.Shared.{
  ℕ, ◌≡◌, refl, inl, inr, ◌⊎◌, Bool, true, false, ◌||◌, Option, none, some, List, [], ◌∷◌, arith,
  ◌==◌, Bool-cases, Option-cases, any, holds, select, count, length, length-select, ap,
}
use power_adapter_blogs.Access.{
  BoardRole, BoardAction, reviewer, manager, review_post, publish_post, role_eq, allows_known_role,
  allows_board_action,
}
use power_adapter_blogs.Models.{User, Board, BoardMembership, Post, Database}
use power_adapter_blogs.Policies.{
  is_active_authenticated, is_active_superuser, role_in, has_category, sole, board_for_category,
  board_for_post, get_active_membership, allows_member, allows, owns_post, can_publish_post,
  can_review_post, can_submit_post, can_edit_post, can_view_post, member_can_view,
}
use power_adapter_blogs.Policies.Scopes.{sole-count}
use power_adapter_blogs.Policies.Agreement.{allows_member-eq-role}

-- What one role may do on one object, a manager may do on it too.
pub allows_board_action-manager :
    (role : BoardRole) (action : BoardAction) (active same owns : Bool)
    → allows_board_action (some role) action active same owns ≡ true
    → allows_board_action (some manager) action active same owns ≡ true
unfolding allows_board_action
allows_board_action-manager role action active same owns h = ground arith

holds-inversion {ℓ} :
    {A : Type ℓ} (p : A → Bool) (o : Option A)
    → holds p o ≡ true
    → (a : A) × (o ≡ some a) × (p a ≡ true)
holds-inversion p none h = cc
holds-inversion p (some a) h = (a, refl, h)

module _ (r : BoardRole) (owns : Bool) where
  publish_needs :
      allows_known_role r publish_post owns ≡ true
      → (owns ≡ false) × (role_in (reviewer ∷ manager ∷ []) r ≡ true)
  unfolding allows_known_role role_in role_eq any
  publish_needs h = ground arith

  review_needs :
      allows_known_role r review_post owns ≡ true
      → (owns ≡ false) × (role_in (reviewer ∷ manager ∷ []) r ≡ true)
  unfolding allows_known_role role_in role_eq any
  review_needs h = ground arith

-- A decision in the affirmative is about an active, signed-in user who is a superuser or has an
-- active membership whose role allows the action.
pub allows-inversion :
    (db : Database) (user : User) (board : Option Board) (action : BoardAction) (owns : Bool)
    → allows db user board action owns ≡ true
    → (is_active_authenticated user ≡ true)
      × ((is_active_superuser user ≡ true)
          ⊎ ((m : BoardMembership) × (get_active_membership db user board ≡ some m)
              × (allows_known_role m.role action owns ≡ true)))
unfolding allows
allows-inversion db user board action owns h = elim (Bool-cases (is_active_authenticated user)) [
  | inr f ↦ cc (rw f at h)
  | inl t ↦ (
    t,
    elim (Bool-cases (is_active_superuser user)) [
      | inl s ↦ inl s
      | inr s ↦ inr (
          holds-inversion (λ (m : BoardMembership). allows_known_role m.role action owns)
            (get_active_membership db user board)
            (rw (allows_member-eq-role db user board action owns) at (rw (t, s) at h)))
    ],
  )
]

-- Who may publish or review a post, and is no superuser, did not write it and holds an active
-- reviewer's or manager's membership of the post's board.
pub review_by_another :
    (db : Database) (user : User) (post : Post)
    → (can_publish_post db user post || can_review_post db user post) ≡ true
    → is_active_superuser user ≡ false
    → (owns_post user post ≡ false)
      × ((m : BoardMembership) × (get_active_membership db user (board_for_post db post) ≡ some m)
          × (role_in (reviewer ∷ manager ∷ []) m.role ≡ true))
unfolding can_publish_post can_review_post
review_by_another db user post h s =
    elim (Bool-cases (allows db user (board_for_post db post) publish_post (owns_post user post))) [
      | inl p ↦ go publish_post (λ r. publish_needs r (owns_post user post)) p
      | inr p ↦ go review_post (λ r. review_needs r (owns_post user post)) (rw p at h)
    ]
  where
    go :
        (action : BoardAction)
        → ((r : BoardRole)
            → allows_known_role r action (owns_post user post) ≡ true
            → (owns_post user post ≡ false) × (role_in (reviewer ∷ manager ∷ []) r ≡ true))
        → allows db user (board_for_post db post) action (owns_post user post) ≡ true
        → (owns_post user post ≡ false)
          × ((m : BoardMembership) × (get_active_membership db user (board_for_post db post)
                ≡ some m)
              × (role_in (reviewer ∷ manager ∷ []) m.role ≡ true))
    go action needs a =
        elim (allows-inversion db user (board_for_post db post) action (owns_post user post) a).1 [
          | inl t ↦ cc
          | inr (m, e, r) ↦ ((needs m.role r).0, (m, e, (needs m.role r).1))
        ]

-- No board is resolved for a category that another board has too, or that none has.
board_for_category-shared :
    (db : Database) (c : ℕ)
    → (count (has_category c) db.boards == 1) ≡ false
    → board_for_category db (some c) ≡ none
unfolding board_for_category
board_for_category-shared db c h = elim (Option-cases (sole (select (has_category c) db.boards))) [
  | inl e ↦ e
  | inr (b, e) ↦
      let one : length (select (has_category c) db.boards) ≡ 1 =
        ap length (sole-count (has_category c) (select (has_category c) db.boards) e) in
      absurd (ground (arith, length-select (has_category c) db.boards))
]

-- For a post whose category has no board, or more than one, can_view_post, can_edit_post,
-- can_submit_post, can_review_post and can_publish_post refuse everyone but superusers.
pub shared_category_closes :
    (db : Database) (user : User) (post : Post) (c : ℕ)
    → post.category_id ≡ some c
    → (count (has_category c) db.boards == 1) ≡ false
    → is_active_superuser user ≡ false
    → (can_view_post db user post ≡ false)
      × (can_edit_post db user post ≡ false)
      × (can_submit_post db user post ≡ false)
      × (can_review_post db user post ≡ false)
      × (can_publish_post db user post ≡ false)
unfolding can_view_post can_edit_post can_submit_post can_review_post can_publish_post allows
    allows_member member_can_view get_active_membership
shared_category_closes db user post c at shared s =
    let e : board_for_post db post ≡ none =
      unfold board_for_post in rw at (board_for_category-shared db c shared) in
    rw (e, s) (refl, ground arith, ground arith, ground arith, ground arith)

sole-of_length {ℓ} : {A : Type ℓ} (xs : List A) → length xs ≡ 1 → (x : A) × (xs ≡ x ∷ [])
sole-of_length [] h = absurd (omega arith)
sole-of_length (x ∷ []) h = (x, refl)
sole-of_length (x ∷ y ∷ rest) h = absurd (omega arith)
