-- ===== src/Posts/Versions.antt =====
-- Blogs/revisions.py and Blogs/services.py: the versions of a post's revisions, over any calls.
use power_adapter_blogs.Shared.{
  ℕ, ◌<◌, String, ◌≡◌, refl, ap, ◌∙◌, inl, inr, Bool, true, false, Option, some, List, [], ◌∷◌,
  arith, ◌==◌, Bool-cases,
}
use power_adapter_blogs.Models.{User, status_delete, status_normal, status_draft, status_review}
use power_adapter_blogs.Policies.{can_submit_post, can_review_post, can_publish_post}
use power_adapter_blogs.Posts.{
  ChangeType, major_change, minor_change, other_change, Revision, Article, Edited, refuses, gives,
  article_after, is_newer, latest_revision, revision_id, get_next_version, is_supported,
  new_revision, create_revision, record_post_workflow_event, with_status, move_post,
  submit_post_for_review, approve_post, reject_post, unpublish_post, PostForm, same_id, log_form,
  then_log, with_form, commit_post_form, PostCall, submits, approves, rejects, unpublishes, commits,
  post_call, post_calls,
}

module _ {T : Type 0} where
  abbrev pub IsNewest : Revision T → List (Revision T) → Type 0
  IsNewest x [] = Unit
  IsNewest x (y ∷ ys) = is_newer x y ≡ true

  -- Each revision is newer than the one after it, and the keys go down from the next one to give.
  abbrev pub Descending : ℕ → List (Revision T) → Type 0
  Descending bound [] = Unit
  Descending bound (x ∷ xs) = (x.pk < bound) × IsNewest x xs × Descending x.pk xs

  pub newer_once : (x y : Revision T) → is_newer x y ≡ true → is_newer y x ≡ false
  unfolding is_newer
  newer_once x y h = ground arith

  -- The last revision made is the latest one.
  pub first_latest :
      (bound : ℕ) (x : Revision T) (xs : List (Revision T))
      → Descending bound (x ∷ xs)
      → latest_revision (x ∷ xs) ≡ some x
  unfolding latest_revision
  first_latest bound x [] h = refl
  first_latest bound x (y ∷ ys) (below, newer, rest) =
      rw (first_latest x.pk y ys rest, newer_once x y newer) refl

  abbrev pub IsSoundArticle : Article T → Type 0
  IsSoundArticle a = Descending a.revision_seq a.revisions

  -- What a service gives
  abbrev pub Gives : (Article T → Type 0) → Edited T → Type 0
  Gives P (refuses e) = Unit
  Gives P (gives a) = P a

  pub Gives-after :
      (P : Article T → Type 0) (a : Article T) (r : Edited T)
      → P a
      → Gives P r
      → P (article_after a r)
  unfolding article_after
  Gives-after P a (refuses e) h g = h
  Gives-after P a (gives b) h g = g

  -- What every change of status and every form keeps, any calls keep.
  pub post_call-keeps :
      (P : Article T → Type 0)
      → ((allowed : Bool) (from_status to_status : ℕ) (user : User) (a : Article T)
          → P a
          → Gives P (move_post allowed from_status to_status user a))
      → ((form : PostForm T) (a : Article T) → P a → Gives P (commit_post_form form a))
      → (c : PostCall T) (a : Article T) → P a
      → P (post_call c a)
  unfolding post_call submit_post_for_review approve_post reject_post unpublish_post
  post_call-keeps P moves saves (submits db user) a h =
      Gives-after P a (submit_post_for_review db user a) h
        (moves (can_submit_post db user a.post) status_draft status_review user a h)
  post_call-keeps P moves saves (approves db user) a h =
      Gives-after P a (approve_post db user a) h
        (moves (can_publish_post db user a.post) status_review status_normal user a h)
  post_call-keeps P moves saves (rejects db user) a h =
      Gives-after P a (reject_post db user a) h
        (moves (can_review_post db user a.post) status_review status_draft user a h)
  post_call-keeps P moves saves (unpublishes db user) a h =
      Gives-after P a (unpublish_post db user a) h
        (moves (can_publish_post db user a.post) status_normal status_delete user a h)
  post_call-keeps P moves saves (commits form) a h =
      Gives-after P a (commit_post_form form a) h (saves form a h)

  pub post_calls-keeps :
      (P : Article T → Type 0)
      → ((allowed : Bool) (from_status to_status : ℕ) (user : User) (a : Article T)
          → P a
          → Gives P (move_post allowed from_status to_status user a))
      → ((form : PostForm T) (a : Article T) → P a → Gives P (commit_post_form form a))
      → (calls : List (PostCall T)) (a : Article T) → P a
      → P (post_calls calls a)
  unfolding post_calls
  post_calls-keeps P moves saves [] a h = h
  post_calls-keeps P moves saves (c ∷ cs) a h =
      post_calls-keeps P moves saves cs (post_call c a) (post_call-keeps P moves saves c a h)

  next_is_newer :
      (r x : Revision T) (change : ChangeType)
      → r.major ≡ (get_next_version (some x) change).0
      → r.minor ≡ (get_next_version (some x) change).1
      → is_newer r x ≡ true
  unfolding is_newer get_next_version
  next_is_newer r x major_change h k = ground arith
  next_is_newer r x minor_change h k = ground arith
  next_is_newer r x other_change h k = ground arith

  new_is_newer :
      (a : Article T) (editor_id : ℕ) (change : ChangeType) (summary : String)
      → IsSoundArticle a
      → IsNewest (new_revision a editor_id change summary) a.revisions
  unfolding new_revision
  new_is_newer a editor_id change summary h = go a.revisions refl h
    where
      go :
          (xs : List (Revision T))
          → a.revisions ≡ xs
          → Descending a.revision_seq xs
          → IsNewest (new_revision a editor_id change summary) xs
      go [] e d = tt
      go (x ∷ xs) e d =
          (let l : latest_revision a.revisions ≡ some x =
              ap (λ ys. latest_revision ys) e ∙ first_latest a.revision_seq x xs d in
            next_is_newer (new_revision a editor_id change summary) x change
              (ap (λ o. (get_next_version o change).0) l)
              (ap (λ o. (get_next_version o change).1) l))

  create_revision-IsSoundArticle :
      (a : Article T) (editor_id : ℕ) (change : ChangeType) (summary : String)
      → IsSoundArticle a
      → Gives IsSoundArticle (create_revision a editor_id change summary)
  unfolding create_revision
  create_revision-IsSoundArticle a editor_id change summary h =
      elim (Bool-cases (is_supported change)) [
        | inl s ↦
            rw s (unfold new_revision in omega arith, new_is_newer a editor_id change summary h, h)
        | inr s ↦ rw s tt
      ]

  -- An event, recorded or not, leaves the revisions.
  pub record_event-Gives :
      (P : Article T → Type 0) (a : Article T) (actor_id from_status : ℕ) (revision : Option ℕ)
      (note : String)
      → ((b : Article T) → b.revisions ≡ a.revisions → b.revision_seq ≡ a.revision_seq → P b)
      → Gives P (record_post_workflow_event a actor_id from_status revision note)
  unfolding record_post_workflow_event
  record_event-Gives P a actor_id from_status revision note h =
      elim (Bool-cases (from_status == a.post.status)) [
        | inl t ↦ rw t tt
        | inr f ↦ rw f (h _ refl refl)
      ]

  same-IsSoundArticle :
      (a b : Article T)
      → IsSoundArticle a
      → b.revisions ≡ a.revisions
      → b.revision_seq ≡ a.revision_seq
      → IsSoundArticle b
  same-IsSoundArticle a b h r s = rw (r, s) h

  move_post-IsSoundArticle :
      (allowed : Bool) (from_status to_status : ℕ) (user : User) (a : Article T)
      → IsSoundArticle a
      → Gives IsSoundArticle (move_post allowed from_status to_status user a)
  unfolding move_post
  move_post-IsSoundArticle false from_status to_status user a h = tt
  move_post-IsSoundArticle true from_status to_status user a h =
      elim (Bool-cases (a.post.status == from_status)) [
        | inl t ↦ rw t (
            record_event-Gives IsSoundArticle (with_status to_status a) user.pk a.post.status
              (revision_id (latest_revision a.revisions)) ""
              (λ b r s. same-IsSoundArticle a b h r s))
        | inr f ↦ rw f tt
      ]

  then_log-IsSoundArticle :
      (previous : ℕ) (form : PostForm T) (revision : Option ℕ) (r : Edited T)
      → Gives IsSoundArticle r
      → Gives IsSoundArticle (then_log previous form revision r)
  unfolding then_log log_form
  then_log-IsSoundArticle previous form revision (refuses e) h = tt
  then_log-IsSoundArticle previous form revision (gives a) h =
      elim (Bool-cases (previous == a.post.status)) [ inl t ↦ rw t h | inr f ↦ rw f h ]

  pub commit-IsSoundArticle :
      (form : PostForm T) (a : Article T)
      → IsSoundArticle a
      → Gives IsSoundArticle (commit_post_form form a)
  unfolding commit_post_form
  commit-IsSoundArticle form a h =
      elim (Bool-cases
        (same_id (revision_id (latest_revision a.revisions)) form.expected_revision_id)) [
          | inl t ↦ rw t (
              then_log-IsSoundArticle a.post.status form (some a.revision_seq)
                (create_revision (with_form form a) form.editor_id form.change form.summary)
                (create_revision-IsSoundArticle (with_form form a) form.editor_id form.change
                  form.summary h))
          | inr f ↦ rw f tt
        ]

  -- After any calls, each revision of a sound article has a newer version and a greater key
  -- than the one made before it: no version is given twice, and the last revision made is the
  -- latest one.
  pub post_calls-IsSoundArticle :
      (calls : List (PostCall T)) (a : Article T)
      → IsSoundArticle a
      → IsSoundArticle (post_calls calls a)
  post_calls-IsSoundArticle =
      post_calls-keeps IsSoundArticle move_post-IsSoundArticle commit-IsSoundArticle
