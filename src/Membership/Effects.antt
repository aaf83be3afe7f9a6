-- ===== src/Membership/Effects.antt =====
-- boards/services.py: what a membership transition that returned has checked and written.
use power_adapter_blogs.Shared.{
  ℕ, suc, ◌≡◌, refl, ◌⊎◌, inl, inr, true, false, not, ◌&&◌, ◌||◌, Option, none, some, List, [], ◌∷◌,
  ◌++◌, arith, ◌==◌, update,
}
use power_adapter_blogs.Access.{is_known}
use power_adapter_blogs.Models.{
  BoardMembership, BoardMembershipEvent, EventType, Database, membership_event,
}
use power_adapter_blogs.Exec.{Error, Result, ok, err}
use power_adapter_blogs.Membership.{
  Transition, has_other_pending, breaks_continuity, current_membership, event_type_of,
  set_membership, new_membership, save_membership, create_membership, write_membership,
  append_event, transition_event, apply_change, check_target, transition_board_membership,
}

-- The guards that a transition has passed.
pub record Passed (t : Transition) (db : Database) : Type 0 where
  pub known : is_known t.target_role ≡ true
  pub is_open : (t.target_is_active && (not t.board.is_active || not t.user.is_active)) ≡ false
  pub plain : t.user.is_superuser ≡ false
  pub settled : has_other_pending t db ≡ false
  pub continuous :
      breaks_continuity (current_membership t db) t.target_role t.target_is_active t.source db
      ≡ false

-- The table of memberships after the change.
abbrev pub written_rows : Transition → ℕ → Option BoardMembership → Database → List BoardMembership
written_rows t now none db = db.memberships ++ new_membership t now db.membership_seq ∷ []
written_rows t now (some m) db =
    update (λ (x : BoardMembership). x.pk == m.pk)
      (set_membership t.target_role t.target_is_active now) db.memberships

abbrev pub written_seq : Option BoardMembership → Database → ℕ
written_seq none db = suc db.membership_seq
written_seq (some m) db = db.membership_seq

abbrev pub written_pk : Option BoardMembership → Database → ℕ
written_pk none db = db.membership_seq
written_pk (some m) db = m.pk

-- What a transition that returned has written.
pub record Written (t : Transition) (now : ℕ) (event : BoardMembershipEvent) (db db' : Database)
    : Type 0 where
  pub rows : db'.memberships ≡ written_rows t now (current_membership t db) db
  pub seq : db'.membership_seq ≡ written_seq (current_membership t db) db
  pub events : db'.events ≡ db.events ++ event ∷ []
  pub audit : db'.audit_outbox ≡ db.audit_outbox ++ membership_event event ∷ []
  pub requests : db'.requests ≡ db.requests
  pub boards : db'.boards ≡ db.boards

Result-cases : {A : Type 0} (r : Result A) → ((a : A) × (r ≡ ok a)) ⊎ ((e : Error) × (r ≡ err e))
Result-cases (ok a) = inl (a, refl)
Result-cases (err e) = inr (e, refl)

module _ (t : Transition) (now : ℕ) (db db' : Database) (row : BoardMembership)
    (event : BoardMembershipEvent) where
  -- A transition that returned has a known role, an active board and user where it activates,
  -- a user who is no superuser, no other pending request of the user on the board, and does
  -- not take a board's last manager away.
  pub transition-Passed :
      transition_board_membership t now db ≡ (ok (row, event), db') → Passed t db
  unfolding transition_board_membership check_target
  transition-Passed h = ground arith

  -- The event type that the transition records.
  transition-event_type :
      transition_board_membership t now db ≡ (ok (row, event), db')
      → (event_type : EventType) × (event_type_of t (current_membership t db) ≡ ok event_type)
        × (apply_change t now (current_membership t db) event_type db ≡ (ok (row, event), db'))
  unfolding transition_board_membership check_target
  transition-event_type h = elim (Result-cases (event_type_of t (current_membership t db))) [
    | inl (event_type, e) ↦ (event_type, e, ground arith)
    | inr (error, e) ↦ absurd (ground arith)
  ]

  apply_change-Written :
      (event_type : EventType)
      → apply_change t now (current_membership t db) event_type db ≡ (ok (row, event), db')
      → Written t now event db db'
  unfolding apply_change write_membership create_membership save_membership append_event
  apply_change-Written event_type h = ground arith

  apply_change-event :
      (event_type : EventType)
      → apply_change t now (current_membership t db) event_type db ≡ (ok (row, event), db')
      → event
        ≡ transition_event t event_type
            (current_membership t db)
            (written_pk (current_membership t db) db)
  unfolding apply_change write_membership create_membership set_membership new_membership
  apply_change-event event_type h = ground arith

  -- A transition that returned has written one membership, appended one event and one audit
  -- record of it, and left the requests and the boards.
  pub transition-Written :
      transition_board_membership t now db ≡ (ok (row, event), db') → Written t now event db db'
  transition-Written h =
      let (event_type, e, a) = transition-event_type h in apply_change-Written event_type a

  -- The event that a transition appended carries the type that the change has, the row's key,
  -- and the state before and after the change.
  pub transition-event :
      transition_board_membership t now db ≡ (ok (row, event), db')
      → (event_type : EventType) × (event_type_of t (current_membership t db) ≡ ok event_type)
        × (event
            ≡ transition_event t event_type
                (current_membership t db)
                (written_pk (current_membership t db) db))
  transition-event h =
      let (event_type, e, a) = transition-event_type h in
      (event_type, e, apply_change-event event_type a)

-- A transition that raises has written nothing.
pub transition_error_unchanged :
    (t : Transition) (now : ℕ) (db : Database) {e : Error}
    → (transition_board_membership t now db).0 ≡ err e
    → (transition_board_membership t now db).1 ≡ db
unfolding transition_board_membership check_target apply_change write_membership create_membership
transition_error_unchanged t now db h = ground arith
