-- ===== src/Membership/Services.antt =====
-- boards/services.py: the services of the Dashboard but break-glass, read as moves of the database.
use power_adapter_blogs.Shared.{
  ◌∙◌, ap, true, ◌&&◌, ℕ, String, ◌≡◌, refl, Bool, false, Option, none, some, arith, ◌==◌, find,
  find-passes, find_unique, ==→≡,
}
use power_adapter_blogs.Access.{BoardRole, manager}
use power_adapter_blogs.Exec.{ok}
use power_adapter_blogs.Models.{User, Board, BoardMembership, BoardMembershipEvent, Database}
use power_adapter_blogs.Platform.{Platform, Request}
use power_adapter_blogs.Policies.Querysets.{board_row}
use power_adapter_blogs.Membership.{
  Transition, transition_board_membership, is_member, is_super_admin, current_membership,
}
use power_adapter_blogs.Membership.Effects.{Written, transition-Written}
use power_adapter_blogs.Membership.History.{rows-other}
use power_adapter_blogs.Membership.Consistency.{IsConsistent, IsHanded, has_pk}
use power_adapter_blogs.Membership.Evolution.{
  Leads, Leads-quiet, Leads-refuse, Leads-reads, Leads-fetch, Leads-transition,
  Leads-transition_then, Leads-pure, Leads-atomic,
}
use power_adapter_blogs.Membership.Quiet.{
  db-reject_pending, db-required_reason, db-consume_dashboard,
}
use power_adapter_blogs.Membership.Requests.{user_row, Locked, locked_row}
use power_adapter_blogs.Membership.Dashboard.{
  dashboard_change, handed_over, Disposition, reject_pending_membership_request,
}
use power_adapter_blogs.Membership.Dashboard.Changes.{
  grant_body, change_role_body, deactivate_body, reactivate_body, transfer_body,
  grant_board_membership, change_board_membership_role, deactivate_board_membership,
  reactivate_board_membership, transfer_board_manager,
}

-- A locked row, with what its lookup has shown.
pub record IsLocked (db : Database) (locked : Locked) : Type 0 where
  pub on_board : locked.board.pk ≡ locked.row.board_id
  pub of_user : locked.user.pk ≡ locked.row.user_id
  pub current : find (is_member locked.board.pk locked.user.pk) db.memberships ≡ some locked.row

locked_row-inversion :
    (db : Database) (id : ℕ) (locked : Locked)
    → locked_row db id ≡ some locked
    → (find (has_pk id) db.memberships ≡ some locked.row)
      × (board_row db locked.row.board_id ≡ some locked.board)
      × (user_row db locked.row.user_id ≡ some locked.user)
unfolding locked_row
locked_row-inversion db id locked h = ground arith

pub lock-IsLocked :
    (db : Database) (id : ℕ) (locked : Locked)
    → IsConsistent db
    → locked_row db id ≡ some locked
    → IsLocked db locked
unfolding board_row user_row
lock-IsLocked db id locked consistent h =
    let (row, board, user) = locked_row-inversion db id locked h in
    let b : locked.board.pk ≡ locked.row.board_id = ==→≡ _ _ (
      find-passes (λ (x : Board). x.pk == locked.row.board_id) db.boards {y = locked.board}
        board) in
    let u : locked.user.pk ≡ locked.row.user_id =
      ==→≡ _ _
        (find-passes (λ (x : User). x.pk == locked.row.user_id) db.users {y = locked.user} user) in
    record {
      on_board = b;
      of_user = u;
      current =
          find_unique (has_pk id) (is_member locked.board.pk locked.user.pk) db.memberships
            locked.row row (unfold is_member in ground arith)
            (consistent.member_keys locked.board.pk locked.user.pk);
    }

-- A change of a locked row hands the transition the row that the table holds.
handed :
    (db : Database) (id : ℕ) (locked : Locked) (actor : User) (role : BoardRole) (is_active : Bool)
    (reason : String)
    → IsConsistent db
    → locked_row db id ≡ some locked
    → IsHanded
        (dashboard_change locked.board locked.user actor role is_active reason (some locked.row))
        db
unfolding dashboard_change current_membership
handed db id locked actor role is_active reason consistent h =
    (lock-IsLocked db id locked consistent h).current

not_break_glass :
    (board : Board) (user actor : User) (role : BoardRole) (is_active : Bool) (reason : String)
    (membership : Option BoardMembership)
    → is_super_admin (dashboard_change board user actor role is_active reason membership).source
      ≡ false
unfolding dashboard_change is_super_admin
not_break_glass board user actor role is_active reason membership = refl

-- A transition that is handed what the table's lookup gives is handed the current row.
pub found-IsHanded :
    (t : Transition) (db : Database) (found : Option BoardMembership)
    → t.membership ≡ found
    → find (is_member t.board.pk t.user.pk) db.memberships ≡ found
    → IsHanded t db
unfolding current_membership
found-IsHanded t db none given e = rw given refl
found-IsHanded t db (some m) given e = rw given e

module _ (p : Platform) (request : Request) (capability : p.Token) (actor : User) (db : Database)
    (consistent : IsConsistent db) where
  grant_body-Leads :
      (board_id user_id : ℕ) (role : BoardRole) (reason : String)
      → Leads p db (grant_body p request capability actor board_id user_id role reason)
  unfolding grant_body
  grant_body-Leads board_id user_id role reason = Leads-fetch p _ _ λ board _.
      Leads-fetch p _ _ λ user _. Leads-quiet p _ _ (db-reject_pending p _ _) λ _.
        Leads-reads p _ _ (
          Leads-refuse p _ _ _ λ _.
            Leads-quiet p _ _ (db-consume_dashboard p request capability actor _ _) λ _.
              Leads-transition p _ _ (not_break_glass _ _ _ _ _ _ _)
                (unfold dashboard_change current_membership in refl))

  change_role_body-Leads :
      (id : ℕ) (role : BoardRole) (reason : String)
      → Leads p db (change_role_body p request capability actor id role reason)
  unfolding change_role_body
  change_role_body-Leads id role reason = Leads-fetch p _ _ λ locked found.
      Leads-refuse p _ _ _ λ _. Leads-quiet p _ _ (db-reject_pending p _ _) λ _.
        Leads-refuse p _ _ _ λ _. Leads-reads p _ _ (
          Leads-refuse p _ _ _ λ _.
            Leads-quiet p _ _ (db-consume_dashboard p request capability actor _ _) λ _.
              Leads-transition p _ _ (not_break_glass _ _ _ _ _ _ _)
                (handed db id locked actor _ _ _ consistent found))

  deactivate_body-Leads :
      (id : ℕ) (reason : String) → Leads p db (deactivate_body p request capability actor id reason)
  unfolding deactivate_body
  deactivate_body-Leads id reason = Leads-fetch p _ _ λ locked found. Leads-refuse p _ _ _ λ _.
      Leads-quiet p _ _ (db-reject_pending p _ _) λ _. Leads-reads p _ _ (
        Leads-refuse p _ _ _ λ _.
          Leads-quiet p _ _ (db-consume_dashboard p request capability actor _ _) λ _.
            Leads-transition p _ _ (not_break_glass _ _ _ _ _ _ _)
              (handed db id locked actor _ _ _ consistent found))

  reactivate_body-Leads :
      (id : ℕ) (role : BoardRole) (reason : String)
      → Leads p db (reactivate_body p request capability actor id role reason)
  unfolding reactivate_body
  reactivate_body-Leads id role reason = Leads-fetch p _ _ λ locked found. Leads-refuse p _ _ _ λ _.
      Leads-quiet p _ _ (db-reject_pending p _ _) λ _.
        Leads-quiet p _ _ (db-consume_dashboard p request capability actor _ _) λ _.
          Leads-transition p _ _ (not_break_glass _ _ _ _ _ _ _)
            (handed db id locked actor _ _ _ consistent found)

-- After a change of another user's row, a locked row is still the one that the table holds.
still_current :
    (t : Transition) (now : ℕ) (db db' : Database) (row : BoardMembership)
    (event : BoardMembershipEvent) (locked : Locked)
    → IsConsistent db
    → IsLocked db locked
    → IsHanded t db
    → (t.user.pk == locked.row.user_id) ≡ false
    → transition_board_membership t now db ≡ (ok (row, event), db')
    → find (is_member locked.board.pk locked.user.pk) db'.memberships ≡ some locked.row
still_current t now db db' row event locked consistent held handed_t other h =
    let w : Written t now event db db' = transition-Written t now db db' row event h in
    let apart : (t.board.pk == locked.board.pk && t.user.pk == locked.user.pk) ≡ false =
      ground (arith, held.of_user) in
    rw w.rows (
      rows-other t now db locked.board.pk locked.user.pk (current_membership t db) consistent
        handed_t apart)
    ∙ held.current

handover_source :
    (board : Board) (user actor : User) (role : BoardRole) (is_active : Bool) (reason : String)
    (membership : Option BoardMembership)
    → is_super_admin
        (handed_over (dashboard_change board user actor role is_active reason membership)).source
      ≡ false
unfolding handed_over dashboard_change is_super_admin
handover_source board user actor role is_active reason membership = refl

handover-IsHanded :
    (db : Database) (locked : Locked) (actor : User) (role : BoardRole) (is_active : Bool)
    (reason : String)
    → find (is_member locked.board.pk locked.user.pk) db.memberships ≡ some locked.row
    → IsHanded
        (handed_over
          (dashboard_change locked.board locked.user actor role is_active reason (some locked.row)))
        db
unfolding handed_over dashboard_change current_membership
handover-IsHanded db locked actor role is_active reason h = h

-- The change that promotes the replacement of a manager.
abbrev promotion : Locked → User → User → String → Option BoardMembership → Transition
promotion old user actor reason replacement =
    handed_over (dashboard_change old.board user actor manager true reason replacement)

promotion-IsHanded :
    (db : Database) (old : Locked) (user actor : User) (reason : String)
    → IsLocked db old
    → IsHanded
        (promotion old user actor reason (find (is_member old.row.board_id user.pk) db.memberships))
        db
unfolding handed_over dashboard_change
promotion-IsHanded db old user actor reason held =
    found-IsHanded _ db _ refl
      (ap (λ (i : ℕ). find (is_member i user.pk) db.memberships) held.on_board)

-- Promoting another user leaves the row of the old manager for the second change.
left_behind :
    (db db' : Database) (old : Locked) (user actor : User) (reason : String) (now : ℕ)
    (row : BoardMembership) (event : BoardMembershipEvent)
    → IsConsistent db
    → IsLocked db old
    → (user.pk == old.row.user_id) ≡ false
    → transition_board_membership
        (promotion old user actor reason (find (is_member old.row.board_id user.pk) db.memberships))
        now
        db
      ≡ (ok (row, event), db')
    → find (is_member old.board.pk old.user.pk) db'.memberships ≡ some old.row
left_behind db db' old user actor reason now row event consistent held apart h =
    still_current _ now db db' row event old consistent held
      (promotion-IsHanded db old user actor reason held)
      (unfold handed_over dashboard_change in apart) h

module _ (p : Platform) (request : Request) (capability : p.Token) (actor : User) (db : Database)
    (consistent : IsConsistent db) where
  transfer_body-Leads :
      (id target_user_id : ℕ) (disposition : Disposition) (reason : String)
      → Leads p db (transfer_body p request capability actor id target_user_id disposition reason)
  unfolding transfer_body
  transfer_body-Leads id target_user_id disposition reason = Leads-fetch p _ _ λ old found.
      let held : IsLocked db old = lock-IsLocked db id old consistent found in
      Leads-refuse p _ _ _ λ _. Leads-fetch p _ _ λ replacement _.
        Leads-quiet p (reject_pending_membership_request p old.row.board_id old.row.user_id) _
          (db-reject_pending p _ _)
          λ _.
            Leads-quiet p (reject_pending_membership_request p old.row.board_id replacement.pk) _
              (db-reject_pending p _ _)
              λ _. Leads-refuse p (replacement.pk == old.row.user_id) _ _ λ apart.
                Leads-reads p _ _ (
                  Leads-refuse p _ _ _ λ _.
                    Leads-quiet p _ _ (db-consume_dashboard p request capability actor _ _) λ _.
                      Leads-transition_then p (promotion old replacement actor reason _) _ _
                        (handover_source _ _ _ _ _ _ _)
                        (promotion-IsHanded db old replacement actor reason held)
                        λ row event db' moved.
                          Leads-transition_then p _ _ _ (handover_source _ _ _ _ _ _ _)
                            (handover-IsHanded db' old _ _ _ _ (
                              left_behind db db' old replacement actor reason _ row event consistent
                                held apart moved))
                            λ left event' db'' _. Leads-pure p _)

  pub grant_board_membership-Leads :
      (board_id user_id : ℕ) (role : BoardRole) (reason : String)
      → Leads p db (grant_board_membership p request capability actor board_id user_id role reason)
  unfolding grant_board_membership
  grant_board_membership-Leads board_id user_id role reason =
      Leads-quiet p _ _ (db-required_reason p _)
        λ _. Leads-atomic p _ (grant_body-Leads p request capability actor db consistent _ _ _ _)

  pub change_board_membership_role-Leads :
      (id : ℕ) (role : BoardRole) (reason : String)
      → Leads p db (change_board_membership_role p request capability actor id role reason)
  unfolding change_board_membership_role
  change_board_membership_role-Leads id role reason =
      Leads-quiet p _ _ (db-required_reason p _) λ _.
        Leads-atomic p _ (change_role_body-Leads p request capability actor db consistent _ _ _)

  pub deactivate_board_membership-Leads :
      (id : ℕ) (reason : String)
      → Leads p db (deactivate_board_membership p request capability actor id reason)
  unfolding deactivate_board_membership
  deactivate_board_membership-Leads id reason =
      Leads-quiet p _ _ (db-required_reason p _)
        λ _. Leads-atomic p _ (deactivate_body-Leads p request capability actor db consistent _ _)

  pub reactivate_board_membership-Leads :
      (id : ℕ) (role : BoardRole) (reason : String)
      → Leads p db (reactivate_board_membership p request capability actor id role reason)
  unfolding reactivate_board_membership
  reactivate_board_membership-Leads id role reason =
      Leads-quiet p _ _ (db-required_reason p _)
        λ _. Leads-atomic p _ (reactivate_body-Leads p request capability actor db consistent _ _ _)

  pub transfer_board_manager-Leads :
      (id target_user_id : ℕ) (disposition : Disposition) (reason : String)
      → Leads p db
          (transfer_board_manager p request capability actor id target_user_id disposition reason)
  unfolding transfer_board_manager
  transfer_board_manager-Leads id target_user_id disposition reason =
      Leads-quiet p _ _ (db-required_reason p _)
        λ _. Leads-refuse p _ _ _ λ _. Leads-atomic p _ (transfer_body-Leads _ _ _ _)
