-- ===== src/Membership/Consistency.antt =====
-- boards/models.py and boards/services.py: the keys of the memberships table.
use power_adapter_blogs.Shared.{
  ℕ, ◌+◌, ◌≤◌, ◌≡◌, refl, Bool, true, ◌&&◌, Option, none, some, [], ◌∷◌, arith, ◌==◌, find, count,
  count-append, count-update_same, count-of_find-none, bit,
}
use power_adapter_blogs.Models.{BoardMembership, BoardMembershipEvent, Database}
use power_adapter_blogs.Exec.{ok}
use power_adapter_blogs.Membership.{
  Transition, is_member, current_membership, set_membership, new_membership,
  transition_board_membership,
}
use power_adapter_blogs.Membership.Effects.{Written, written_rows, written_seq, transition-Written}

abbrev pub has_pk : ℕ → BoardMembership → Bool
has_pk id m = m.pk == id

-- One row for each board and user, one for each key, and no key that is yet to be given.
pub record IsConsistent (db : Database) : Type 0 where
  pub member_keys : (b u : ℕ) → count (is_member b u) db.memberships ≤ 1
  pub row_keys : (id : ℕ) → count (has_pk id) db.memberships ≤ 1
  pub row_bound : (id : ℕ) → db.membership_seq ≤ id → count (has_pk id) db.memberships ≡ 0

-- The row that a transition is handed is the table's row of its board and user.
abbrev pub IsHanded : Transition → Database → Type 0
IsHanded t db = find (is_member t.board.pk t.user.pk) db.memberships ≡ current_membership t db

-- How a count of rows changes: by the new row, or by the row that is written over.
module _ (t : Transition) (now : ℕ) (db : Database) where
  pub count-written_none :
      (q : BoardMembership → Bool)
      → count q (written_rows t now none db)
        ≡ count q db.memberships + bit (q (new_membership t now db.membership_seq))
  unfolding count
  count-written_none q =
      ground (arith, count-append q db.memberships (new_membership t now db.membership_seq ∷ []))

  pub count-written_same :
      (q : BoardMembership → Bool) (m : BoardMembership)
      → ((x : BoardMembership) → q (set_membership t.target_role t.target_is_active now x) ≡ q x)
      → count q (written_rows t now (some m) db) ≡ count q db.memberships
  count-written_same q m =
      count-update_same (has_pk m.pk) (set_membership t.target_role t.target_is_active now) q
        db.memberships

  pub is_member-new :
      (b u pk : ℕ) → is_member b u (new_membership t now pk) ≡ (t.board.pk == b && t.user.pk == u)
  unfolding is_member new_membership
  is_member-new b u pk = refl

  pub has_pk-new : (id pk : ℕ) → has_pk id (new_membership t now pk) ≡ (pk == id)
  unfolding new_membership
  has_pk-new id pk = refl

  -- A new row of another key adds nothing; one of this key is the first.
  absent-is_member :
      (b u : ℕ)
      → find (is_member t.board.pk t.user.pk) db.memberships ≡ none
      → (t.board.pk == b && t.user.pk == u) ≡ true
      → count (is_member b u) db.memberships ≡ 0
  absent-is_member b u h e =
      let p : t.board.pk ≡ b = ground arith in
      let q : t.user.pk ≡ u = ground arith in
      rw (← p, ← q) (count-of_find-none (is_member t.board.pk t.user.pk) db.memberships h)

module _ (t : Transition) (now : ℕ) (db : Database) (consistent : IsConsistent db) where
  open consistent use {member_keys, row_keys, row_bound}

  rows-member_keys :
      (current : Option BoardMembership) (b u : ℕ)
      → find (is_member t.board.pk t.user.pk) db.memberships ≡ current
      → count (is_member b u) (written_rows t now current db) ≤ 1
  rows-member_keys none b u h =
      rw (count-written_none t now db (is_member b u), is_member-new t now db b u)
        (ground (arith, absent-is_member t now db b u h, member_keys b u))
  rows-member_keys (some m) b u h =
      rw
        (count-written_same t now db (is_member b u) m
          (λ x. unfold is_member set_membership in refl))
        (member_keys b u)

  rows-row_keys :
      (current : Option BoardMembership) (id : ℕ)
      → count (has_pk id) (written_rows t now current db) ≤ 1
  rows-row_keys none id =
      rw (count-written_none t now db (has_pk id), has_pk-new t now db id)
        (ground (arith, row_keys id, row_bound id))
  rows-row_keys (some m) id =
      rw (count-written_same t now db (has_pk id) m (λ x. unfold set_membership in refl))
        (row_keys id)

  rows-row_bound :
      (current : Option BoardMembership) (id : ℕ)
      → written_seq current db ≤ id
      → count (has_pk id) (written_rows t now current db) ≡ 0
  rows-row_bound none id h =
      rw (count-written_none t now db (has_pk id), has_pk-new t now db id)
        (ground (arith, row_bound id))
  rows-row_bound (some m) id h =
      rw (count-written_same t now db (has_pk id) m (λ x. unfold set_membership in refl))
        (row_bound id h)

-- A transition that returns keeps the keys of the table.
pub transition-IsConsistent :
    (t : Transition) (now : ℕ) (db db' : Database) (row : BoardMembership)
    (event : BoardMembershipEvent)
    → IsConsistent db
    → IsHanded t db
    → transition_board_membership t now db ≡ (ok (row, event), db')
    → IsConsistent db'
transition-IsConsistent t now db db' row event consistent handed h =
    let w : Written t now event db db' = transition-Written t now db db' row event h in
    record {
      member_keys = λ b u. rw w.rows (rows-member_keys t now db consistent _ b u handed);
      row_keys = λ id. rw w.rows (rows-row_keys t now db consistent _ id);
      row_bound = λ id le. rw w.rows (rows-row_bound t now db consistent _ id (rw w.seq at le));
    }
