-- ===== src/Access.antt =====
-- boards/access_rules.py: which role of a Board allows which action.
--
-- A role and an action are texts in the source, read by the enumerations `BoardRole` and
-- `BoardAction`; a text that is no member makes the enumeration raise `ValueError`. Here such a text
-- is the constructor `other`, so that a row of the database with an unknown role stays a value.
use power_adapter_blogs.Shared.{
  String, Bool, true, false, not, ◌&&◌, ◌||◌, Option, none, some, text_eq, if◌then◌else◌,
}

pub data BoardRole : Type 0 where
  contributor editor reviewer manager : BoardRole
  other : String → BoardRole

pub data BoardAction : Type 0 where
  create_post edit_own_draft edit_own_post edit_any_post submit_post : BoardAction
  view_review_queue review_post publish_post moderate_comment : BoardAction
  change_board_settings manage_board_members : BoardAction
  unknown_action : String → BoardAction

-- `BoardRole(value)` of a text; `other` stands for its `ValueError`.
pub role_of_text : String → BoardRole
role_of_text t =
    if text_eq t "contributor"
    then contributor
    else if text_eq t "editor"
    then editor
    else if text_eq t "reviewer"
    then reviewer
    else if text_eq t "manager"
    then manager
    else other t

pub text_of_role : BoardRole → String
text_of_role contributor = "contributor"
text_of_role editor = "editor"
text_of_role reviewer = "reviewer"
text_of_role manager = "manager"
text_of_role (other t) = t

unfoldable pub is_known : BoardRole → Bool
is_known (other t) = false
is_known _ = true

-- `==` of two role texts.
unfoldable pub role_eq : BoardRole → BoardRole → Bool
role_eq contributor contributor = true
role_eq editor editor = true
role_eq reviewer reviewer = true
role_eq manager manager = true
role_eq (other s) (other t) = text_eq s t
role_eq _ _ = false

-- `_CONTRIBUTOR_ACTIONS`
unfoldable pub contributor_actions : BoardAction → Bool
contributor_actions create_post = true
contributor_actions edit_own_draft = true
contributor_actions submit_post = true
contributor_actions _ = false

-- `ROLE_ACTIONS[role]`, as a membership test
unfoldable pub role_actions : BoardRole → BoardAction → Bool
unfolding contributor_actions
role_actions contributor a = contributor_actions a
role_actions editor edit_own_post = true
role_actions editor a = contributor_actions a
role_actions reviewer view_review_queue = true
role_actions reviewer review_post = true
role_actions reviewer publish_post = true
role_actions reviewer moderate_comment = true
role_actions reviewer _ = false
role_actions manager (unknown_action t) = false
role_actions manager _ = true
role_actions (other t) a = false

-- The actions that are allowed on one's own objects alone.
unfoldable pub needs_ownership : BoardAction → Bool
needs_ownership edit_own_draft = true
needs_ownership edit_own_post = true
needs_ownership submit_post = true
needs_ownership _ = false

-- The actions that are refused on one's own objects.
unfoldable pub forbids_ownership : BoardAction → Bool
forbids_ownership review_post = true
forbids_ownership publish_post = true
forbids_ownership _ = false

unfoldable pub allows_known_role : BoardRole → BoardAction → Bool → Bool
unfolding role_actions needs_ownership forbids_ownership
allows_known_role role action owns_object =
    if not (role_actions role action)
    then false
    else if needs_ownership action && not owns_object
    then false
    else if forbids_ownership action
    then not owns_object
    else true

unfoldable pub allows_board_action : Option BoardRole → BoardAction → Bool → Bool → Bool → Bool
unfolding allows_known_role
allows_board_action none action membership_is_active same_board owns_object = false
allows_board_action (some role) action membership_is_active same_board owns_object =
    if not membership_is_active || not same_board
    then false
    else allows_known_role role action owns_object
