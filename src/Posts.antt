-- ===== src/Posts.antt =====
-- Blogs/services.py and Blogs/revisions.py: a post, its revisions and its workflow events.
--
-- An article is what the services read and write of one post, the last revision and the last event
-- first. A service that raises leaves the article as it was. The post's texts are of any type, and so
-- are the diffs, of which a revision only tells what it was compared with.
pub mod Versions
pub mod Workflow
pub mod Concurrency
pub mod Approval
use power_adapter_blogs.Shared.{
  ℕ, suc, ◌+◌, String, Bool, true, false, not, ◌&&◌, ◌||◌, Option, none, some, List, [], ◌∷◌, ◌==◌,
  ltb, if◌then◌else◌,
}
use power_adapter_blogs.Models.{
  Database, User, Post, status_delete, status_normal, status_draft, status_review,
}
use power_adapter_blogs.Policies.{can_submit_post, can_review_post, can_publish_post}

-- `change_type`, with any other text
pub data ChangeType : Type 0 where
  major_change minor_change other_change : ChangeType

pub record Revision (T : Type 0) : Type 0 where
  pub pk : ℕ
  pub major : ℕ
  pub minor : ℕ
  pub snapshot : T
  pub editor_id : ℕ
  pub change_type : ChangeType
  pub edit_summary : String
  pub compared_with : Option ℕ

-- `PostWorkflowEvent.EventType`
pub data WorkflowEventType : Type 0 where
  submitted approved rejected unpublished returned_to_draft status_changed : WorkflowEventType

pub record PostWorkflowEvent : Type 0 where
  pub event_type : WorkflowEventType
  pub actor_id : ℕ
  pub from_status : ℕ
  pub to_status : ℕ
  pub revision_id : Option ℕ
  pub note : String

pub record Article (T : Type 0) : Type 0 where
  pub post : Post
  pub text : T
  pub revisions : List (Revision T)
  pub events : List PostWorkflowEvent
  pub revision_seq : ℕ

-- `PermissionDenied`, `ValidationError` and `RevisionConflict`
pub data PostError : Type 0 where
  permission_denied validation_error revision_conflict : PostError

pub data Edited (T : Type 0) : Type 0 where
  refuses : PostError → Edited T
  gives : Article T → Edited T

unfoldable pub article_after : {T : Type 0} → Article T → Edited T → Article T
article_after a (refuses e) = a
article_after a (gives b) = b

unfoldable pub workflow_event_type_for_transition : ℕ → ℕ → WorkflowEventType
workflow_event_type_for_transition from_status to_status =
    if from_status == status_draft && to_status == status_review
    then submitted
    else if from_status == status_review && to_status == status_normal
    then approved
    else if from_status == status_review && to_status == status_draft
    then rejected
    else if from_status == status_normal && to_status == status_delete
    then unpublished
    else if to_status == status_draft
    then returned_to_draft
    else status_changed

unfoldable pub is_supported : ChangeType → Bool
is_supported other_change = false
is_supported _ = true

-- A validated `PostForm`: what `form.save()` writes, by whom, and the revision it was opened at
pub record PostForm (T : Type 0) : Type 0 where
  pub saved_post : Post
  pub saved_text : T
  pub editor_id : ℕ
  pub change : ChangeType
  pub summary : String
  pub expected_revision_id : Option ℕ

unfoldable pub same_id : Option ℕ → Option ℕ → Bool
same_id none none = true
same_id (some i) (some j) = i == j
same_id _ _ = false

pub data PostCall (T : Type 0) : Type 0 where
  submits approves rejects unpublishes : Database → User → PostCall T
  commits : PostForm T → PostCall T

module _ {T : Type 0} where
  -- `order_by("-major", "-minor")`
  unfoldable pub is_newer : Revision T → Revision T → Bool
  is_newer a b = ltb b.major a.major || (a.major == b.major && ltb b.minor a.minor)

  unfoldable pub latest_revision : List (Revision T) → Option (Revision T)
  unfolding is_newer
  latest_revision [] = none
  latest_revision (x ∷ xs) = elim (latest_revision xs) [
    | none ↦ some x
    | some y ↦ if is_newer y x then some y else some x
  ]

  unfoldable pub revision_id : Option (Revision T) → Option ℕ
  revision_id none = none
  revision_id (some r) = some r.pk

  unfoldable pub get_next_version : Option (Revision T) → ChangeType → ℕ × ℕ
  get_next_version none change = (1, 0)
  get_next_version (some last) major_change = (last.major + 1, 0)
  get_next_version (some last) minor_change = (last.major, last.minor + 1)
  get_next_version (some last) other_change = (last.major, last.minor + 1)

  unfoldable pub new_revision : Article T → ℕ → ChangeType → String → Revision T
  unfolding latest_revision get_next_version revision_id
  new_revision a editor_id change summary =
      let last : Option (Revision T) = latest_revision a.revisions in
      record {
        pk = a.revision_seq;
        major = (get_next_version last change).0;
        minor = (get_next_version last change).1;
        snapshot = a.text;
        editor_id = editor_id;
        change_type = change;
        edit_summary = summary;
        compared_with = revision_id last;
      }

  unfoldable pub create_revision : Article T → ℕ → ChangeType → String → Edited T
  unfolding new_revision is_supported
  create_revision a editor_id change summary =
      if not (is_supported change)
      then refuses validation_error
      else gives (record a {
        revisions = new_revision a editor_id change summary ∷ a.revisions;
        revision_seq = a.revision_seq + 1;
      })

  -- The article is as it is after the change of the status.
  unfoldable pub record_post_workflow_event : Article T → ℕ → ℕ → Option ℕ → String → Edited T
  unfolding workflow_event_type_for_transition
  record_post_workflow_event a actor_id from_status revision note =
      if from_status == a.post.status
      then refuses validation_error
      else gives (record a {
        events =
            record {
              event_type = workflow_event_type_for_transition from_status a.post.status;
              actor_id = actor_id;
              from_status = from_status;
              to_status = a.post.status;
              revision_id = revision;
              note = note;
            }
            ∷ a.events;
      })

  abbrev pub with_status : ℕ → Article T → Article T
  with_status status a = record a { post = record a.post { status = status } }

  -- The four services from one status to another
  unfoldable pub move_post : Bool → ℕ → ℕ → User → Article T → Edited T
  unfolding record_post_workflow_event revision_id latest_revision
  move_post allowed from_status to_status user a =
      if not allowed
      then refuses permission_denied
      else if not (a.post.status == from_status)
      then refuses validation_error
      else record_post_workflow_event (with_status to_status a) user.pk a.post.status
          (revision_id (latest_revision a.revisions)) ""

  unfoldable pub submit_post_for_review : Database → User → Article T → Edited T
  unfolding move_post
  submit_post_for_review db user a =
      move_post (can_submit_post db user a.post) status_draft status_review user a

  unfoldable pub approve_post : Database → User → Article T → Edited T
  unfolding move_post
  approve_post db user a =
      move_post (can_publish_post db user a.post) status_review status_normal user a

  unfoldable pub reject_post : Database → User → Article T → Edited T
  unfolding move_post
  reject_post db user a =
      move_post (can_review_post db user a.post) status_review status_draft user a

  unfoldable pub unpublish_post : Database → User → Article T → Edited T
  unfolding move_post
  unpublish_post db user a =
      move_post (can_publish_post db user a.post) status_normal status_delete user a

  -- The event of a form that has changed the status; `revision` is the new one.
  unfoldable pub log_form : ℕ → PostForm T → Option ℕ → Article T → Edited T
  unfolding record_post_workflow_event
  log_form previous_status form revision a =
      if previous_status == a.post.status
      then gives a
      else record_post_workflow_event a form.editor_id previous_status revision "内容编辑触发状态回退"

  unfoldable pub then_log : ℕ → PostForm T → Option ℕ → Edited T → Edited T
  unfolding log_form
  then_log previous_status form revision (refuses e) = refuses e
  then_log previous_status form revision (gives a) = log_form previous_status form revision a

  abbrev pub with_form : PostForm T → Article T → Article T
  with_form form a = record a { post = form.saved_post; text = form.saved_text }

  -- `commit_post_form` for a post that exists
  unfoldable pub commit_post_form : PostForm T → Article T → Edited T
  unfolding same_id then_log create_revision latest_revision revision_id
  commit_post_form form a =
      if not (same_id (revision_id (latest_revision a.revisions)) form.expected_revision_id)
      then refuses revision_conflict
      else then_log a.post.status form (some a.revision_seq)
          (create_revision (with_form form a) form.editor_id form.change form.summary)

  -- and for a new one, with the first revision's key
  unfoldable pub commit_new_post : PostForm T → ℕ → Edited T
  unfolding create_revision
  commit_new_post form seq =
      create_revision
        (record {
          post = form.saved_post;
          text = form.saved_text;
          revisions = [];
          events = [];
          revision_seq = seq;
        })
        form.editor_id form.change form.summary

  unfoldable pub post_call : PostCall T → Article T → Article T
  unfolding article_after submit_post_for_review approve_post reject_post unpublish_post
      commit_post_form
  post_call (submits db user) a = article_after a (submit_post_for_review db user a)
  post_call (approves db user) a = article_after a (approve_post db user a)
  post_call (rejects db user) a = article_after a (reject_post db user a)
  post_call (unpublishes db user) a = article_after a (unpublish_post db user a)
  post_call (commits form) a = article_after a (commit_post_form form a)

  unfoldable pub post_calls : List (PostCall T) → Article T → Article T
  unfolding post_call
  post_calls [] a = a
  post_calls (c ∷ cs) a = post_calls cs (post_call c a)
