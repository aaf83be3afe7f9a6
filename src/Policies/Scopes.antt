-- ===== src/Policies/Scopes.antt =====
-- The categories that a user's memberships open, against the membership that decides about one
-- post: over a database that keeps its keys unique, the two are one test.
use power_adapter_blogs.Shared.{
  ℕ, ◌≤◌, ◌<◌, ◌≡◌, refl, sym, ap, ◌∙◌, ◌⊎◌, inl, inr, Bool, true, false, ◌&&◌, Option, none, some,
  List, [], ◌∷◌, arith, ◌==◌, if◌then◌else◌, ==→≡, Bool-cases, Option-cases, length, select, find,
  any, count, holds, filter_map, any-filter_map, any-congr, any-const, any-eq-true, any-none,
  find-passes, count-pos_of_find, length-select,
}
use power_adapter_blogs.Access.{BoardRole}
use power_adapter_blogs.Models.{User, Board, BoardMembership, Database}
use power_adapter_blogs.Policies.{
  is_active_authenticated, role_in, has_category, sole, board_for_category, is_active_member_of,
  get_active_membership,
}
use power_adapter_blogs.Policies.Querysets.{
  in_list, sole_category, unambiguous_category_ids, scope_category, board_row, membership_category,
  membership_category_ids,
}

-- What the database's constraints keep: a primary key is unique, and so is a board's member.
pub record KeysUnique (db : Database) : Type 0 where
  pub boards : (id : ℕ) → count (λ (b : Board). b.pk == id) db.boards ≤ 1
  pub members :
      (board_id user_id : ℕ)
      → count
          (λ (m : BoardMembership). m.board_id == board_id && m.user_id == user_id)
          db.memberships
        ≤ 1

-- The row of the active membership, if its role is among `roles`.
abbrev pub scoped_role : Database → User → List BoardRole → Option Board → Bool
scoped_role db user roles board =
    holds (λ (m : BoardMembership). role_in roles m.role) (get_active_membership db user board)

module _ {ℓ} {A : Type ℓ} (q : A → Bool) where
  select-nil : (xs : List A) → count q xs ≡ 0 → select q xs ≡ []
  unfolding select count
  select-nil [] h = refl
  select-nil (x ∷ xs) h = ground (arith, select-nil xs)

  count-of_select_nil : (xs : List A) → select q xs ≡ [] → count q xs ≡ 0
  count-of_select_nil xs h = sym (length-select q xs) ∙ ap length h

  pub sole-count : (xs : List A) {x : A} → sole xs ≡ some x → xs ≡ x ∷ []
  unfolding sole
  sole-count [] h = cc
  sole-count (y ∷ []) h = cc
  sole-count (y ∷ z ∷ rest) h = cc

  sole-none : (xs : List A) → sole xs ≡ none → (length xs == 1) ≡ false
  unfolding sole
  sole-none [] h = refl
  sole-none (y ∷ []) h = cc
  sole-none (y ∷ z ∷ rest) h = ground arith

  find-not : (p : A → Bool) (xs : List A) (x : A) → find p xs ≡ some x → q x ≡ true → 0 < count q xs
  unfolding find count
  find-not p [] x f t = cc
  find-not p (z ∷ zs) x f t = elim (Bool-cases (p z)) [
    | inl e ↦ ground arith
    | inr e ↦ ground (arith, find-not p zs x (ground arith))
  ]

  -- A row that `find` returns, and that passes the test which one row alone passes, is that row.
  pub find-sole :
      (p : A → Bool) (xs : List A) (x y : A)
      → find p xs ≡ some y
      → q y ≡ true
      → select q xs ≡ x ∷ []
      → y ≡ x
  unfolding find select
  find-sole p [] x y f t s = cc
  find-sole p (z ∷ zs) x y f t s = elim (Bool-cases (p z)) [
    | inl e ↦ ground arith
    | inr e ↦ elim (Bool-cases (q z)) [
      | inl u ↦
          let empty : select q zs ≡ [] = ground arith in
          absurd (omega (arith, find-not p zs y (ground arith) t, count-of_select_nil zs empty))
      | inr u ↦ find-sole p zs x y (ground arith) t (ground arith)
    ]
  ]

  select-passes : (xs : List A) (x : A) → select q xs ≡ x ∷ [] → q x ≡ true
  unfolding select
  select-passes [] x s = cc
  select-passes (z ∷ zs) x s = elim (Bool-cases (q z)) [
    | inl u ↦ ground arith
    | inr u ↦ select-passes zs x (ground arith)
  ]

  -- A row with a unique key is found by its key.
  find-key :
      (key : A → ℕ) (xs : List A) (x : A)
      → select q xs ≡ x ∷ []
      → count (λ y. key y == key x) xs ≤ 1
      → find (λ y. key y == key x) xs ≡ some x
  unfolding find select count
  find-key key [] x s u = cc
  find-key key (z ∷ zs) x s u = elim (Bool-cases (q z)) [
    | inl e ↦ ground arith
    | inr e ↦ ground (
      arith,
      find-key key zs x (ground arith),
      count-pos_of_find (λ y. key y == key x) zs {y = x},
    )
  ]

yields : ℕ → Option ℕ → Bool
yields c value = holds (λ d. d == c) value

-- A test on `d` that is made after `d == c` is a test on `c`.
same_at : (k : ℕ → Bool) (c d : ℕ) → yields c (if k d then some d else none) ≡ ((d == c) && k c)
unfolding yields
same_at k c d = elim (Bool-cases (d == c)) [
  | inl e ↦ rw (==→≡ d c e) (ground arith)
  | inr e ↦ ground arith
]

same_category :
    (k : ℕ → Bool) (c : ℕ) (o : Option ℕ)
    → yields c (elim o [ none ↦ none | some d ↦ if k d then some d else none ])
      ≡ (elim o [ none ↦ false | some d ↦ d == c ] && k c)
same_category k c none = unfold yields in refl
same_category k c (some d) = same_at k c d

module _ (db : Database) (c : ℕ) where
  -- The list of unambiguous categories holds `c` just when one board has it.
  in_list-unambiguous :
      in_list c (unambiguous_category_ids db) ≡ (count (has_category c) db.boards == 1)
  unfolding in_list unambiguous_category_ids yields sole_category
  in_list-unambiguous =
      any-filter_map (λ d. d == c) (sole_category db) db.boards
      ∙ any-congr (λ b. yields c (sole_category db b))
          (λ b. has_category c b && (count (has_category c) db.boards == 1)) db.boards same
      ∙ any-const (has_category c) (count (has_category c) db.boards == 1) db.boards
      ∙ collapse
    where
      same :
          (b : Board)
          → yields c (sole_category db b)
            ≡ (has_category c b && (count (has_category c) db.boards == 1))
      same b =
          unfold has_category in
          same_category (λ d. count (has_category d) db.boards == 1) c b.category_id

      collapse :
          (any (has_category c) db.boards && (count (has_category c) db.boards == 1))
          ≡ (count (has_category c) db.boards == 1)
      collapse = ground (arith, any-eq-true (has_category c) db.boards)

  scope-yields :
      (b : Board)
      → yields c (scope_category db b)
        ≡ (b.is_active && (has_category c b && (count (has_category c) db.boards == 1)))
  unfolding scope_category has_category yields
  scope-yields b =
      let inner = same_category (λ d. in_list d (unambiguous_category_ids db)) c b.category_id in
      ground (arith, inner, in_list-unambiguous)

module _ {ℓ} {A : Type ℓ} (key : A → Bool) where
  any-none_of_key :
      (p : A → Bool) (xs : List A) → count key xs ≡ 0 → any (λ x. key x && p x) xs ≡ false
  unfolding any count
  any-none_of_key p [] h = refl
  any-none_of_key p (x ∷ xs) h = ground (arith, any-none_of_key p xs)

  find-none_of_key :
      (p : A → Bool) (xs : List A) → count key xs ≡ 0 → find (λ x. key x && p x) xs ≡ none
  unfolding find count
  find-none_of_key p [] h = refl
  find-none_of_key p (x ∷ xs) h = ground (arith, find-none_of_key p xs)

-- Of the rows with one key, at most one: a test of any of them is a test of the first active one.
pub any-find {ℓ} :
    {A : Type ℓ} (key active wanted : A → Bool) (xs : List A)
    → count key xs ≤ 1
    → any (λ x. key x && (active x && wanted x)) xs
      ≡ holds wanted (find (λ x. key x && active x) xs)
unfolding any find count
any-find key active wanted [] h = refl
any-find key active wanted (x ∷ xs) h = ground (
  arith,
  any-none_of_key key (λ y. active y && wanted y) xs,
  find-none_of_key key active xs,
  any-find key active wanted xs,
)

-- One board has the category `c`, and it is `b`.
module _ (db : Database) (unique : KeysUnique db) (c : ℕ) (b : Board)
    (sole : select (has_category c) db.boards ≡ b ∷ []) where
  one_board : (count (has_category c) db.boards == 1) ≡ true
  one_board = rw (← length-select (has_category c) db.boards) (rw sole)

  row-of-key : board_row db b.pk ≡ some b
  unfolding board_row
  row-of-key = find-key (has_category c) (λ (x : Board). x.pk) db.boards b sole (unique.boards b.pk)

  found_of_key : (id : ℕ) → (id == b.pk) ≡ true → board_row db id ≡ some b
  found_of_key id t = rw (==→≡ id b.pk t) row-of-key

  absent-yields : (id : ℕ) → board_row db id ≡ none → false ≡ ((id == b.pk) && b.is_active)
  absent-yields id e = elim (Bool-cases (id == b.pk)) [
    | inl t ↦ cc (found_of_key id t)
    | inr f ↦ ground arith
  ]

  found-category :
      (id : ℕ) (b' : Board) → board_row db id ≡ some b' → has_category c b' ≡ true → b' ≡ b
  found-category id b' e t =
      find-sole (has_category c) (λ (x : Board). x.pk == id) db.boards b b' (unfold board_row in e)
        t sole

  found-key : (id : ℕ) (b' : Board) → board_row db id ≡ some b' → (b'.pk == id) ≡ true
  unfolding board_row
  found-key id b' e = find-passes (λ (x : Board). x.pk == id) db.boards e

  present-yields :
      (id : ℕ) (b' : Board)
      → board_row db id ≡ some b'
      → (b'.is_active && (has_category c b' && (count (has_category c) db.boards == 1)))
        ≡ ((id == b.pk) && b.is_active)
  present-yields id b' e = elim (Bool-cases (has_category c b')) [
    | inl t ↦
        let same : b' ≡ b = found-category id b' e t in
        let at : b'.pk ≡ b.pk = ap (λ (x : Board). x.pk) same in
        let active : b'.is_active ≡ b.is_active = ap (λ (x : Board). x.is_active) same in
        ground (arith, found-key id b' e, one_board)
    | inr f ↦ elim (Bool-cases (id == b.pk)) [
      | inl u ↦
          let same : some b' ≡ some b = sym e ∙ found_of_key id u in
          cc (select-passes (has_category c) db.boards b sole)
      | inr u ↦ ground arith
    ]
  ]

  row-yields :
      (id : ℕ)
      → yields c (elim (board_row db id) [ none ↦ none | some board ↦ scope_category db board ])
        ≡ ((id == b.pk) && b.is_active)
  row-yields id = elim (Option-cases (board_row db id)) [
    | inl e ↦ rw e (unfold yields in absent-yields id e)
    | inr (b', e) ↦ rw (e, scope-yields db c b') (present-yields id b' e)
  ]

  member-yields :
      (user : User) (roles : List BoardRole) (m : BoardMembership)
      → yields c (membership_category db user roles m) ≡ (
          (m.board_id == b.pk && m.user_id == user.pk)
          && (m.is_active && (role_in roles m.role && b.is_active)))
  unfolding membership_category yields
  member-yields user roles m = ground (arith, row-yields m.board_id)

  any-member :
      (user : User) (roles : List BoardRole)
      → any
          (λ (m : BoardMembership).
            (m.board_id == b.pk && m.user_id == user.pk) && (m.is_active && role_in roles m.role))
          db.memberships
        ≡ holds
            (λ (m : BoardMembership). role_in roles m.role)
            (find (is_active_member_of b user) db.memberships)
  unfolding is_active_member_of
  any-member user roles =
      any-find (λ (m : BoardMembership). m.board_id == b.pk && m.user_id == user.pk)
        (λ (m : BoardMembership). m.is_active) (λ (m : BoardMembership). role_in roles m.role)
        db.memberships (unique.members b.pk user.pk)

  -- The rows' categories, once the board is known to be active or not.
  any-yields :
      (user : User) (roles : List BoardRole)
      → any (λ d. d == c) (filter_map (membership_category db user roles) db.memberships)
        ≡ any
            (λ (m : BoardMembership).
              (m.board_id == b.pk && m.user_id == user.pk)
              && (m.is_active && (role_in roles m.role && b.is_active)))
            db.memberships
  unfolding yields
  any-yields user roles =
      any-filter_map (λ d. d == c) (membership_category db user roles) db.memberships
      ∙ any-congr (λ m. yields c (membership_category db user roles m))
          (λ (m : BoardMembership).
            (m.board_id == b.pk && m.user_id == user.pk)
            && (m.is_active && (role_in roles m.role && b.is_active)))
          db.memberships (member-yields user roles)

  on_active_board :
      (user : User) (roles : List BoardRole)
      → b.is_active ≡ true
      → any (λ d. d == c) (filter_map (membership_category db user roles) db.memberships)
        ≡ holds
            (λ (m : BoardMembership). role_in roles m.role)
            (find (is_active_member_of b user) db.memberships)
  on_active_board user roles on =
      any-yields user roles
      ∙ any-congr _
          (λ (m : BoardMembership).
            (m.board_id == b.pk && m.user_id == user.pk) && (m.is_active && role_in roles m.role))
          db.memberships (λ m. ground arith)
      ∙ any-member user roles

  on_inactive_board :
      (user : User) (roles : List BoardRole)
      → b.is_active ≡ false
      → any (λ d. d == c) (filter_map (membership_category db user roles) db.memberships) ≡ false
  on_inactive_board user roles off =
      any-yields user roles ∙ any-none _ db.memberships (λ m. ground arith)

  in_list-sole :
      (user : User) (roles : List BoardRole)
      → in_list c (membership_category_ids db user roles) ≡ scoped_role db user roles (some b)
  unfolding membership_category_ids get_active_membership in_list is_active_member_of
  in_list-sole user roles = elim (Bool-cases (is_active_authenticated user)) [
    | inl t ↦ elim (Bool-cases b.is_active) [
      | inl on ↦ rw (t, on) (on_active_board user roles on)
      | inr off ↦ rw (t, off) (on_inactive_board user roles off)
    ]
    | inr f ↦ rw f (unfold any in refl)
  ]

-- No board, or more than one, has the category.
module _ (db : Database) (c : ℕ) (shared : (count (has_category c) db.boards == 1) ≡ false) where
  scope-closed :
      (id : ℕ)
      → yields c (elim (board_row db id) [ none ↦ none | some board ↦ scope_category db board ])
        ≡ false
  scope-closed id = elim (Option-cases (board_row db id)) [
    | inl e ↦ rw e (unfold yields in refl)
    | inr (b', e) ↦ rw (e, scope-yields db c b') (ground arith)
  ]

  in_list-shared :
      (user : User) (roles : List BoardRole)
      → in_list c (membership_category_ids db user roles) ≡ false
  unfolding membership_category_ids in_list any
  in_list-shared user roles = elim (Bool-cases (is_active_authenticated user)) [
    | inl t ↦ rw t (
        any-filter_map (λ d. d == c) (membership_category db user roles) db.memberships
        ∙ any-none _ db.memberships
            (λ m. unfold membership_category yields in ground (arith, scope-closed m.board_id)))
    | inr f ↦ rw f refl
  ]

-- A category is among those that the user's roles open just when the membership that decides about
-- a post of that category has one of the roles.
pub in_list-scoped_role :
    (db : Database) (user : User) (roles : List BoardRole) (c : ℕ)
    → KeysUnique db
    → in_list c (membership_category_ids db user roles)
      ≡ scoped_role db user roles (board_for_category db (some c))
unfolding board_for_category
in_list-scoped_role db user roles c unique =
    go (Option-cases (sole (select (has_category c) db.boards)))
  where
    go :
        (sole (select (has_category c) db.boards) ≡ none)
          ⊎ ((b : Board) × (sole (select (has_category c) db.boards) ≡ some b))
        → in_list c (membership_category_ids db user roles)
          ≡ scoped_role db user roles (sole (select (has_category c) db.boards))
    go (inl e) = rw e (
        unfold get_active_membership in
        in_list-shared db c
          (rw (← length-select (has_category c) db.boards)
            (sole-none (has_category c) (select (has_category c) db.boards) e))
          user roles)
    go (inr (b, e)) = rw e (
        in_list-sole db unique c b
          (sole-count (has_category c) (select (has_category c) db.boards) e) user roles)
