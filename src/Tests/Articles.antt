-- ===== src/Tests/Articles.antt =====
-- Blogs/services.py and Blogs/revisions.py at concrete inputs.
use power_adapter_blogs.Shared.{
  ℕ, ◌≡◌, refl, true, false, none, some, List, [], ◌∷◌, arith, find, select,
}
use power_adapter_blogs.Access.{reviewer, manager, allows_board_action}
use power_adapter_blogs.Models.{BoardMembership, status_draft, status_normal, status_review}
use power_adapter_blogs.Policies.{
  is_active_authenticated, is_active_superuser, can_publish_post, owns_post, get_active_membership,
  is_active_member_of, allows_member, allows, board_for_post, board_for_category, has_category,
  sole, role_in,
}
use power_adapter_blogs.Posts.{
  major_change, minor_change, Revision, Article, gives, refuses, revision_conflict,
  workflow_event_type_for_transition, is_newer, latest_revision, revision_id, get_next_version,
  is_supported, new_revision, create_revision, record_post_workflow_event, move_post, approve_post,
  PostForm, same_id, log_form, then_log, commit_post_form, PostCall, commits, approves, post_calls,
}
use power_adapter_blogs.Posts.Versions.{IsSoundArticle, post_calls-IsSoundArticle}
use power_adapter_blogs.Posts.Workflow.{IsTold, post_calls-IsTold}
use power_adapter_blogs.Posts.Concurrency.{commit_post_form-conflict}
use power_adapter_blogs.Posts.Approval.{Approved, approve_post-by_another}
use power_adapter_blogs.Tests.Samples.{bob, some_db, some_post}

abbrev first_revision : Revision ℕ
first_revision = record {
  pk = 1;
  major = 1;
  minor = 0;
  snapshot = 100;
  editor_id = 3;
  change_type = major_change;
  edit_summary = "";
  compared_with = none;
}

-- Carol's article, in review; its text is a number.
abbrev in_review : Article ℕ
in_review = record {
  post = some_post 2 status_review 3;
  text = 100;
  revisions = first_revision ∷ [];
  events = [];
  revision_seq = 2;
}

abbrev carols_form : PostForm ℕ
carols_form = record {
  saved_post = some_post 2 status_draft 3;
  saved_text = 101;
  editor_id = 3;
  change = minor_change;
  summary = "typo";
  expected_revision_id = some 1;
}

in_review-IsSoundArticle : IsSoundArticle in_review
in_review-IsSoundArticle = (omega arith, tt, tt)

abbrev some_calls : List (PostCall ℕ)
some_calls = commits carols_form ∷ approves some_db bob ∷ []

post_calls-IsSoundArticle_example : IsSoundArticle (post_calls some_calls in_review)
post_calls-IsSoundArticle_example =
    post_calls-IsSoundArticle some_calls in_review in_review-IsSoundArticle

post_calls-IsTold_example : IsTold status_review (post_calls some_calls in_review)
post_calls-IsTold_example = post_calls-IsTold status_review some_calls in_review refl

abbrev saved : Article ℕ
saved = record {
  post = some_post 2 status_draft 3;
  text = 101;
  revisions =
      record {
        pk = 2;
        major = 1;
        minor = 1;
        snapshot = 101;
        editor_id = 3;
        change_type = minor_change;
        edit_summary = "typo";
        compared_with = some 1;
      }
      ∷ first_revision
      ∷ [];
  events =
      record {
        event_type = workflow_event_type_for_transition status_review status_draft;
        actor_id = 3;
        from_status = status_review;
        to_status = status_draft;
        revision_id = some 2;
        note = "内容编辑触发状态回退";
      }
      ∷ [];
  revision_seq = 3;
}

form_saved : commit_post_form carols_form in_review ≡ gives saved
unfolding commit_post_form same_id revision_id latest_revision is_newer get_next_version
    new_revision create_revision is_supported then_log log_form record_post_workflow_event
form_saved = refl

commit_post_form-conflict_example :
    commit_post_form carols_form (post_calls (approves some_db bob ∷ []) saved)
    ≡ refuses revision_conflict
commit_post_form-conflict_example =
    commit_post_form-conflict carols_form carols_form (approves some_db bob ∷ []) in_review saved
      in_review-IsSoundArticle form_saved refl

abbrev bob_approved : Article ℕ
bob_approved = record in_review {
  post = some_post 2 status_normal 3;
  events =
      record {
        event_type = workflow_event_type_for_transition status_review status_normal;
        actor_id = 2;
        from_status = status_review;
        to_status = status_normal;
        revision_id = some 1;
        note = "";
      }
      ∷ [];
}

bob_approves : approve_post some_db bob in_review ≡ gives bob_approved
unfolding approve_post move_post record_post_workflow_event revision_id latest_revision
    can_publish_post board_for_post board_for_category has_category select sole owns_post allows
    is_active_superuser is_active_authenticated get_active_membership is_active_member_of
    allows_member allows_board_action find
bob_approves = refl

approve_post-by_another_example :
    Approved some_db bob in_review bob_approved
    × (owns_post bob in_review.post ≡ false)
    × ((m : BoardMembership) × (get_active_membership some_db bob
            (board_for_post some_db in_review.post)
          ≡ some m)
        × (role_in (reviewer ∷ manager ∷ []) m.role ≡ true))
approve_post-by_another_example =
    approve_post-by_another some_db bob in_review bob_approved bob_approves
      (unfold is_active_superuser is_active_authenticated in refl)
