-- ===== src/Posts/Concurrency.antt =====
-- Blogs/services.py: two forms that were opened at the same revision.
use power_adapter_blogs.Shared.{
  ℕ, ◌≤◌, ◌<◌, ◌≡◌, refl, sym, ap, ◌∙◌, inl, inr, Bool, true, false, Option, none, some, List, [],
  ◌∷◌, arith, ◌==◌, Bool-cases,
}
use mathlib.Core.Path.{subst}
use power_adapter_blogs.Models.{User}
use power_adapter_blogs.Posts.{
  Revision, Article, Edited, refuses, gives, revision_conflict, latest_revision, revision_id,
  is_supported, new_revision, create_revision, record_post_workflow_event, with_status, move_post,
  PostForm, same_id, log_form, then_log, with_form, commit_post_form, PostCall, post_calls,
}
use power_adapter_blogs.Posts.Versions.{
  Gives, post_calls-keeps, Descending, IsSoundArticle, first_latest, record_event-Gives,
  post_calls-IsSoundArticle, commit-IsSoundArticle,
}

-- The key of the first revision
abbrev first_pk : {T : Type 0} → List (Revision T) → Option ℕ
first_pk [] = none
first_pk (x ∷ xs) = some x.pk

-- A first revision is there, with a key of at least `n`.
abbrev From : {T : Type 0} → ℕ → List (Revision T) → Type 0
From n [] = ⊥
From n (x ∷ xs) = n ≤ x.pk

not_expected :
    (n i : ℕ) (expected : Option ℕ)
    → n ≤ i
    → ((j : ℕ) → expected ≡ some j → j < n)
    → same_id (some i) expected ≡ false
unfolding same_id
not_expected n i none le old = refl
not_expected n i (some j) le old = let less : j < n = old j refl in ground arith

module _ {T : Type 0} where
  IsPast : ℕ → Article T → Type 0
  IsPast n a = From n a.revisions × (n ≤ a.revision_seq)

  same-IsPast :
      (n : ℕ) (a b : Article T)
      → IsPast n a
      → b.revisions ≡ a.revisions
      → b.revision_seq ≡ a.revision_seq
      → IsPast n b
  unfolding IsPast
  same-IsPast n a b h r s = rw (r, s) h

  move_post-IsPast :
      (n : ℕ) (allowed : Bool) (from_status to_status : ℕ) (user : User) (a : Article T)
      → IsPast n a
      → Gives (IsPast n) (move_post allowed from_status to_status user a)
  unfolding move_post
  move_post-IsPast n false from_status to_status user a h = tt
  move_post-IsPast n true from_status to_status user a h =
      elim (Bool-cases (a.post.status == from_status)) [
        | inl t ↦ rw t (
            record_event-Gives (IsPast n) (with_status to_status a) user.pk a.post.status
              (revision_id (latest_revision a.revisions)) "" (λ b r s. same-IsPast n a b h r s))
        | inr f ↦ rw f tt
      ]

  then_log-IsPast :
      (n previous : ℕ) (form : PostForm T) (revision : Option ℕ) (r : Edited T)
      → Gives (IsPast n) r
      → Gives (IsPast n) (then_log previous form revision r)
  unfolding then_log log_form record_post_workflow_event IsPast
  then_log-IsPast n previous form revision (refuses e) h = tt
  then_log-IsPast n previous form revision (gives a) h =
      elim (Bool-cases (previous == a.post.status)) [ inl t ↦ rw t h | inr f ↦ rw f h ]

  create_revision-IsPast :
      (n : ℕ) (a : Article T) (form : PostForm T)
      → n ≤ a.revision_seq
      → Gives
          (IsPast n)
          (create_revision (with_form form a) form.editor_id form.change form.summary)
  unfolding create_revision new_revision IsPast
  create_revision-IsPast n a form h = elim (Bool-cases (is_supported form.change)) [
    | inl s ↦ rw s (h, omega arith)
    | inr s ↦ rw s tt
  ]

  commit-IsPast :
      (n : ℕ) (form : PostForm T) (a : Article T)
      → n ≤ a.revision_seq
      → Gives (IsPast n) (commit_post_form form a)
  unfolding commit_post_form
  commit-IsPast n form a h =
      elim (Bool-cases
        (same_id (revision_id (latest_revision a.revisions)) form.expected_revision_id)) [
          | inl t ↦ rw t (
              then_log-IsPast n a.post.status form (some a.revision_seq)
                (create_revision (with_form form a) form.editor_id form.change form.summary)
                (create_revision-IsPast n a form h))
          | inr f ↦ rw f tt
        ]

  commit-IsPast_again :
      (n : ℕ) (form : PostForm T) (a : Article T)
      → IsPast n a
      → Gives (IsPast n) (commit_post_form form a)
  unfolding IsPast
  commit-IsPast_again n form a h = commit-IsPast n form a h.1

  post_calls-IsPast :
      (n : ℕ) (calls : List (PostCall T)) (a : Article T)
      → IsPast n a
      → IsPast n (post_calls calls a)
  post_calls-IsPast n =
      post_calls-keeps (IsPast n)
        (λ allowed from_status to_status user a h.
          move_post-IsPast n allowed from_status to_status user a h)
        (commit-IsPast_again n)

  -- A revision older than the first one is not the latest.
  expected_gone :
      (a : Article T) (n : ℕ)
      → IsSoundArticle a
      → IsPast n a
      → (expected : Option ℕ) → ((i : ℕ) → expected ≡ some i → i < n)
      → same_id (revision_id (latest_revision a.revisions)) expected ≡ false
  unfolding IsPast
  expected_gone a n sound past expected old = go a.revisions refl sound past.0
    where
      go :
          (xs : List (Revision T))
          → a.revisions ≡ xs
          → Descending a.revision_seq xs
          → From n xs
          → same_id (revision_id (latest_revision a.revisions)) expected ≡ false
      go [] e d f = absurd f
      go (x ∷ xs) e d f =
          let l : latest_revision a.revisions ≡ some x =
            ap (λ ys. latest_revision ys) e ∙ first_latest a.revision_seq x xs d in
          ap (λ o. same_id (revision_id o) expected) l
          ∙ unfold revision_id in not_expected n x.pk expected f old

  -- The revision that a form was opened at, where the form is saved
  opened_at :
      (form : PostForm T) (a b : Article T)
      → commit_post_form form a ≡ gives b
      → same_id (revision_id (latest_revision a.revisions)) form.expected_revision_id ≡ true
  unfolding commit_post_form
  opened_at form a b h =
      elim (Bool-cases
        (same_id (revision_id (latest_revision a.revisions)) form.expected_revision_id)) [
          | inl t ↦ t
          | inr f ↦ absurd (let q = rw f at h in cc)
        ]

  expected_old :
      (a : Article T) (expected : Option ℕ)
      → IsSoundArticle a
      → same_id (revision_id (latest_revision a.revisions)) expected ≡ true
      → (i : ℕ) → expected ≡ some i
      → i < a.revision_seq
  unfolding same_id revision_id
  expected_old a expected sound h i e = go a.revisions refl sound
    where
      go :
          (xs : List (Revision T))
          → a.revisions ≡ xs
          → Descending a.revision_seq xs
          → i < a.revision_seq
      go [] f d = absurd (
          let l : latest_revision a.revisions ≡ none =
            ap (λ ys. latest_revision ys) f ∙ unfold latest_revision in refl in
          let q = rw (l, e) at h in cc)
      go (x ∷ xs) f d =
          let l : latest_revision a.revisions ≡ some x =
            ap (λ ys. latest_revision ys) f ∙ first_latest a.revision_seq x xs d in
          let q : (x.pk == i) ≡ true = rw (l, e) at h in
          let below : x.pk < a.revision_seq = d.0 in ground arith

  saved-IsPast :
      (form : PostForm T) (a b : Article T)
      → commit_post_form form a ≡ gives b
      → IsPast a.revision_seq b
  saved-IsPast form a b h = rw h at (commit-IsPast a.revision_seq form a (omega arith))

  saved-IsSoundArticle :
      (form : PostForm T) (a b : Article T)
      → IsSoundArticle a
      → commit_post_form form a ≡ gives b
      → IsSoundArticle b
  saved-IsSoundArticle form a b sound h =
      subst (λ r. Gives IsSoundArticle r) h (commit-IsSoundArticle form a sound)

  -- From a sound article: once a form is committed, a form that was opened at the same
  -- revision is refused as a conflict, after any calls in between, so that no edit is
  -- overwritten unseen.
  pub commit_post_form-conflict :
      (form form' : PostForm T) (calls : List (PostCall T)) (a b : Article T)
      → IsSoundArticle a
      → commit_post_form form a ≡ gives b
      → form'.expected_revision_id ≡ form.expected_revision_id
      → commit_post_form form' (post_calls calls b) ≡ refuses revision_conflict
  unfolding commit_post_form
  commit_post_form-conflict form form' calls a b sound h same =
      let c : Article T = post_calls calls b in
      let gone : same_id (revision_id (latest_revision c.revisions)) form'.expected_revision_id
          ≡ false =
        expected_gone c a.revision_seq
          (post_calls-IsSoundArticle calls b (saved-IsSoundArticle form a b sound h))
          (post_calls-IsPast a.revision_seq calls b (saved-IsPast form a b h))
          form'.expected_revision_id
          (λ i e.
            expected_old a form.expected_revision_id sound (opened_at form a b h) i
              (sym same ∙ e)) in
      rw gone refl
