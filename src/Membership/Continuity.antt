-- ===== src/Membership/Continuity.antt =====
-- boards/services.py: `_assert_manager_continuity` seen from outside.
use power_adapter_blogs.Shared.{
  ℕ, ◌+◌, ◌<◌, ◌≡◌, refl, ap, inl, inr, true, false, Option, none, some, arith, ◌==◌, ==→≡, find,
  count, Bool-cases, count-update_one, find-by_key, bit,
}
use power_adapter_blogs.Models.{BoardMembership, BoardMembershipEvent, Database}
use power_adapter_blogs.Exec.{ok}
use power_adapter_blogs.Membership.{
  Transition, is_member, is_super_admin, is_active_manager, manages, active_managers,
  breaks_continuity, set_membership, transition_board_membership,
}
use power_adapter_blogs.Membership.Effects.{
  Written, Passed, written_rows, transition-Written, transition-Passed,
}
use power_adapter_blogs.Membership.Consistency.{IsConsistent, IsHanded, has_pk, count-written_none}

module _ (t : Transition) (now : ℕ) (db : Database) (b : ℕ) where
  -- What the transition makes of the count of a board's managers, row by row.
  managers-written_some :
      (m : BoardMembership)
      → IsConsistent db
      → find (is_member t.board.pk t.user.pk) db.memberships ≡ some m
      → count (manages b) (written_rows t now (some m) db) + bit (manages b m)
        ≡ active_managers b db
          + bit (manages b (set_membership t.target_role t.target_is_active now m))
  unfolding active_managers
  managers-written_some m consistent handed =
      count-update_one (has_pk m.pk) (set_membership t.target_role t.target_is_active now)
        (manages b) db.memberships m (consistent.row_keys m.pk)
        (find-by_key (λ (x : BoardMembership). x.pk) (is_member t.board.pk t.user.pk) db.memberships
          m handed (consistent.row_keys m.pk))

  same_board :
      (m : BoardMembership)
      → (m.board_id == b) ≡ true
      → active_managers m.board_id db ≡ active_managers b db
  same_board m h = ap (λ (i : ℕ). active_managers i db) (==→≡ m.board_id b h)

  -- The arithmetic of one change: a manager is taken away only from a board that has two.
  change_keeps_manager :
      (m : BoardMembership) (before after : ℕ)
      → after + bit (manages b m)
        ≡ before + bit (manages b (set_membership t.target_role t.target_is_active now m))
      → active_managers b db ≡ before
      → is_super_admin t.source ≡ false
      → breaks_continuity (some m) t.target_role t.target_is_active t.source db ≡ false
      → 0 < before
      → 0 < after
  unfolding breaks_continuity manages set_membership is_active_manager
  change_keeps_manager m before after count at source kept h = elim (Bool-cases (m.board_id == b)) [
    | inl e ↦ ground (arith, same_board m e)
    | inr e ↦ ground arith
  ]

  rows-keep_manager :
      (current : Option BoardMembership)
      → IsConsistent db
      → find (is_member t.board.pk t.user.pk) db.memberships ≡ current
      → is_super_admin t.source ≡ false
      → breaks_continuity current t.target_role t.target_is_active t.source db ≡ false
      → 0 < active_managers b db
      → 0 < count (manages b) (written_rows t now current db)
  rows-keep_manager none consistent handed source kept h =
      rw (count-written_none t now db (manages b)) (unfold active_managers in omega arith)
  rows-keep_manager (some m) consistent handed source kept h =
      change_keeps_manager m (active_managers b db) _ (managers-written_some m consistent handed)
        refl source kept h

-- A transition that returns, from any source but the break-glass one, handed the current row,
-- leaves a manager on every board that had one, where the keys are unique.
pub transition-keeps_manager :
    (t : Transition) (now : ℕ) (db db' : Database) (row : BoardMembership)
    (event : BoardMembershipEvent) (b : ℕ)
    → IsConsistent db
    → IsHanded t db
    → is_super_admin t.source ≡ false
    → transition_board_membership t now db ≡ (ok (row, event), db')
    → 0 < active_managers b db
    → 0 < active_managers b db'
transition-keeps_manager t now db db' row event b consistent handed source h had =
    let w : Written t now event db db' = transition-Written t now db db' row event h in
    let p : Passed t db = transition-Passed t now db db' row event h in
    unfold active_managers in
    rw w.rows (
      rows-keep_manager t now db b _ consistent handed source p.continuous
        (unfold active_managers in had))
