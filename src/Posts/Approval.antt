-- ===== src/Posts/Approval.antt =====
-- Blogs/services.py and boards/policies.py: how a post comes to be approved_article.
use power_adapter_blogs.Shared.{
  ◌≡◌, refl, sym, ap, ◌∙◌, inl, inr, true, false, some, [], ◌∷◌, arith, ◌==◌, ==→≡, Bool-cases,
}
use power_adapter_blogs.Access.{reviewer, manager}
use power_adapter_blogs.Models.{User, BoardMembership, Database, status_normal, status_review}
use power_adapter_blogs.Policies.{
  is_active_superuser, can_publish_post, owns_post, get_active_membership, board_for_post, role_in,
}
use power_adapter_blogs.Policies.Duties.{review_by_another}
use power_adapter_blogs.Posts.{
  approved, Article, gives, latest_revision, revision_id, workflow_event_type_for_transition,
  record_post_workflow_event, move_post, approve_post,
}

module _ {T : Type 0} where
  -- What an approval has found and written
  pub record Approved (db : Database) (user : User) (a b : Article T) : Type 0 where
    pub may_publish : can_publish_post db user a.post ≡ true
    pub was_in_review : a.post.status ≡ status_review
    pub is_published : b.post ≡ record a.post { status = status_normal }
    pub same_revisions : b.revisions ≡ a.revisions
    pub is_approval : workflow_event_type_for_transition a.post.status status_normal ≡ approved
    pub logged :
        b.events
        ≡ record {
          event_type = workflow_event_type_for_transition a.post.status status_normal;
          actor_id = user.pk;
          from_status = a.post.status;
          to_status = status_normal;
          revision_id = revision_id (latest_revision a.revisions);
          note = "";
        }
          ∷ a.events

  abbrev approved_article : User → Article T → Article T
  approved_article user a = record a {
    post = record a.post { status = status_normal };
    events =
        record {
          event_type = workflow_event_type_for_transition a.post.status status_normal;
          actor_id = user.pk;
          from_status = a.post.status;
          to_status = status_normal;
          revision_id = revision_id (latest_revision a.revisions);
          note = "";
        }
        ∷ a.events;
  }

  approve_post-published :
      (db : Database) (user : User) (a : Article T)
      → can_publish_post db user a.post ≡ true
      → (a.post.status == status_review) ≡ true
      → approve_post db user a ≡ gives (approved_article user a)
  unfolding approve_post move_post record_post_workflow_event
  approve_post-published db user a may t =
      let f : (a.post.status == status_normal) ≡ false =
        let s : a.post.status ≡ status_review = ==→≡ a.post.status status_review t in
        ground arith in
      rw (may, t, f) refl

  approve_post-Approved :
      (db : Database) (user : User) (a b : Article T)
      → approve_post db user a ≡ gives b
      → Approved db user a b
  unfolding approve_post move_post workflow_event_type_for_transition
  approve_post-Approved db user a b h = elim (Bool-cases (can_publish_post db user a.post)) [
    | inl may ↦ elim (Bool-cases (a.post.status == status_review)) [
      | inl t ↦
          let s : a.post.status ≡ status_review = ==→≡ a.post.status status_review t in
          let g : gives (approved_article user a) ≡ gives b =
            sym (approve_post-published db user a may t) ∙ h in
          let e : approved_article user a ≡ b = cc in
          record {
            may_publish = may;
            was_in_review = s;
            is_published = ap (λ (x : Article T). x.post) (sym e);
            same_revisions = ap (λ (x : Article T). x.revisions) (sym e);
            is_approval = ap (λ n. workflow_event_type_for_transition n status_normal) s;
            logged = ap (λ (x : Article T). x.events) (sym e);
          }
      | inr f ↦ absurd (let q = rw (may, f) at h in cc)
    ]
    | inr f ↦ absurd (let q = rw f at h in cc)
  ]

  -- Where approve_post returns to a user who is no superuser, the post was in review and is
  -- published with an approval event of this user and with the latest revision; the user may
  -- publish it, did not write it and has an active reviewer's or manager's membership of its
  -- board.
  pub approve_post-by_another :
      (db : Database) (user : User) (a b : Article T)
      → approve_post db user a ≡ gives b
      → is_active_superuser user ≡ false
      → Approved db user a b
        × (owns_post user a.post ≡ false)
        × ((m : BoardMembership) × (get_active_membership db user (board_for_post db a.post)
              ≡ some m)
            × (role_in (reviewer ∷ manager ∷ []) m.role ≡ true))
  approve_post-by_another db user a b h s =
      let done : Approved db user a b = approve_post-Approved db user a b h in
      let (not_own, m) = review_by_another db user a.post (rw done.may_publish refl) s in
      (done, not_own, m)
