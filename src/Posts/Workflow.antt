-- ===== src/Posts/Workflow.antt =====
-- Blogs/services.py: a post's status and its workflow events.
use power_adapter_blogs.Shared.{
  ℕ, String, ◌≡◌, refl, inl, inr, Bool, true, false, Option, some, List, [], ◌∷◌, arith, ◌==◌,
  Bool-cases,
}
use power_adapter_blogs.Models.{User}
use power_adapter_blogs.Posts.{
  PostWorkflowEvent, Article, Edited, refuses, gives, workflow_event_type_for_transition,
  latest_revision, revision_id, is_supported, create_revision, record_post_workflow_event,
  with_status, move_post, PostForm, same_id, log_form, then_log, with_form, commit_post_form,
  PostCall, post_calls,
}
use power_adapter_blogs.Posts.Versions.{Gives, post_calls-keeps}

-- The events lead from the status `first` to the status `last`, each from the one before, to another
-- status and with the type of this change.
abbrev pub Leads : ℕ → List PostWorkflowEvent → ℕ → Type 0
Leads first [] last = first ≡ last
Leads first (e ∷ es) last =
    (e.to_status ≡ last)
    × ((e.from_status == e.to_status) ≡ false)
    × (e.event_type ≡ workflow_event_type_for_transition e.from_status e.to_status)
    × Leads first es e.from_status

module _ {T : Type 0} (first : ℕ) where
  abbrev pub IsTold : Article T → Type 0
  IsTold a = Leads first a.events a.post.status

  -- A new status with the event of the change
  record_event-IsTold :
      (a : Article T) (actor_id from_status : ℕ) (revision : Option ℕ) (note : String)
      → Leads first a.events from_status
      → Gives IsTold (record_post_workflow_event a actor_id from_status revision note)
  unfolding record_post_workflow_event
  record_event-IsTold a actor_id from_status revision note h =
      elim (Bool-cases (from_status == a.post.status)) [
        | inl t ↦ rw t tt
        | inr f ↦ rw f (refl, f, refl, h)
      ]

  move_post-IsTold :
      (allowed : Bool) (from_status to_status : ℕ) (user : User) (a : Article T)
      → IsTold a
      → Gives IsTold (move_post allowed from_status to_status user a)
  unfolding move_post
  move_post-IsTold false from_status to_status user a h = tt
  move_post-IsTold true from_status to_status user a h =
      elim (Bool-cases (a.post.status == from_status)) [
        | inl t ↦ rw t (
            record_event-IsTold (with_status to_status a) user.pk a.post.status
              (revision_id (latest_revision a.revisions)) "" h)
        | inr f ↦ rw f tt
      ]

  -- An article whose events lead to `previous`, and whose form may have changed the status
  log_form-IsTold :
      (previous : ℕ) (form : PostForm T) (revision : Option ℕ) (a : Article T)
      → Leads first a.events previous
      → Gives IsTold (log_form previous form revision a)
  unfolding log_form record_post_workflow_event
  log_form-IsTold previous form revision a h = elim (Bool-cases (previous == a.post.status)) [
    | inl t ↦ let same : previous ≡ a.post.status = ground arith in rw t (rw same at h)
    | inr f ↦ rw f (refl, f, refl, h)
  ]

  then_log-IsTold :
      (previous : ℕ) (form : PostForm T) (revision : Option ℕ) (r : Edited T)
      → Gives (λ b. Leads first b.events previous) r
      → Gives IsTold (then_log previous form revision r)
  unfolding then_log
  then_log-IsTold previous form revision (refuses e) h = tt
  then_log-IsTold previous form revision (gives a) h = log_form-IsTold previous form revision a h

  create_revision-told :
      (previous : ℕ) (a : Article T) (form : PostForm T)
      → Leads first a.events previous
      → Gives
          (λ b. Leads first b.events previous)
          (create_revision (with_form form a) form.editor_id form.change form.summary)
  unfolding create_revision
  create_revision-told previous a form h = elim (Bool-cases (is_supported form.change)) [
    | inl s ↦ rw s h
    | inr s ↦ rw s tt
  ]

  commit-IsTold :
      (form : PostForm T) (a : Article T) → IsTold a → Gives IsTold (commit_post_form form a)
  unfolding commit_post_form
  commit-IsTold form a h =
      elim (Bool-cases
        (same_id (revision_id (latest_revision a.revisions)) form.expected_revision_id)) [
          | inl t ↦ rw t (
              then_log-IsTold a.post.status form (some a.revision_seq)
                (create_revision (with_form form a) form.editor_id form.change form.summary)
                (create_revision-told a.post.status a form h))
          | inr f ↦ rw f tt
        ]

  -- From an article whose events lead so from the first status to its own, after any calls of
  -- the workflow and of the form, the post's events lead from the first status to the present
  -- one, each from where the one before it led, to another status and with the type of that
  -- change.
  pub post_calls-IsTold :
      (calls : List (PostCall T)) (a : Article T) → IsTold a → IsTold (post_calls calls a)
  post_calls-IsTold = post_calls-keeps IsTold move_post-IsTold commit-IsTold
