-- ===== src/Membership/History.antt =====
-- boards/services.py: the append-only events, replayed, against the table of memberships.
use power_adapter_blogs.Shared.{
  ℕ, ◌≡◌, refl, sym, ◌∙◌, ap, inl, inr, Bool, true, false, ◌&&◌, Option, none, some, List, [], ◌∷◌,
  ◌++◌, arith, ◌==◌, if◌then◌else◌, ==→≡, ==-refl, find, Bool-cases, find-append, find-update,
  find-by_key, find-passes, changed,
}
use mathlib.Core.Option
use power_adapter_blogs.Access.{BoardRole}
use power_adapter_blogs.Models.{BoardMembership, BoardMembershipEvent, EventType, Database}
use power_adapter_blogs.Exec.{ok}
use power_adapter_blogs.Membership.{
  Transition, is_member, current_membership, set_membership, new_membership, transition_event,
  transition_board_membership,
}
use power_adapter_blogs.Membership.Effects.{
  Written, written_rows, written_pk, transition-Written, transition-event,
}
use power_adapter_blogs.Membership.Consistency.{is_member-new, IsConsistent, IsHanded, has_pk}

-- A membership's role and whether it is active.
abbrev pub State : Type 0
State = BoardRole × Bool

abbrev pub state_of : BoardMembership → State
state_of m = (m.role, m.is_active)

-- What the table says of a user on a board.
abbrev pub member_state : ℕ → ℕ → Database → Option State
member_state b u db = Option.map state_of (find (is_member b u) db.memberships)

-- What the events say: the last one about the user and the board.
unfoldable pub replay : ℕ → ℕ → Option State → List BoardMembershipEvent → Option State
replay b u s [] = s
replay b u s (e ∷ es) =
    replay b u
      (if e.board_id_snapshot == b && e.user_id_snapshot == u
        then some (e.new_role, e.new_is_active)
        else s)
      es

-- The events account for the table.
pub record IsLogged (db : Database) : Type 0 where
  pub told : (b u : ℕ) → member_state b u db ≡ replay b u none db.events

replay-append :
    (b u : ℕ) (s : Option State) (es : List BoardMembershipEvent) (e : BoardMembershipEvent)
    → replay b u s (es ++ e ∷ []) ≡ (
        if e.board_id_snapshot == b && e.user_id_snapshot == u
        then some (e.new_role, e.new_is_active)
        else replay b u s es)
unfolding replay
replay-append b u s [] e = refl
replay-append b u s (x ∷ es) e =
    replay-append b u
      (if x.board_id_snapshot == b && x.user_id_snapshot == u
        then some (x.new_role, x.new_is_active)
        else s)
      es e

clash :
    (b u b' u' : ℕ) (m n : BoardMembership)
    → some n ≡ some m
    → is_member b u m ≡ true
    → is_member b' u' n ≡ true
    → (b == b' && u == u') ≡ false
    → ⊥
unfolding is_member
clash b u b' u' m n e p q f = ground arith

module _ (t : Transition) (now : ℕ) (db : Database) (b u : ℕ) where
  -- The row of the transition's board and user is the row of `b` and `u`, where the keys agree.
  same_keys :
      (current : Option BoardMembership)
      → find (is_member t.board.pk t.user.pk) db.memberships ≡ current
      → (t.board.pk == b && t.user.pk == u) ≡ true
      → find (is_member b u) db.memberships ≡ current
  same_keys current handed e =
      let p : t.board.pk ≡ b = ground arith in
      let q : t.user.pk ≡ u = ground arith in rw (← p, ← q) handed

  -- Another row does not have the key of the row that is written over.
  other_row :
      (m n : BoardMembership)
      → IsConsistent db
      → find (is_member t.board.pk t.user.pk) db.memberships ≡ some m
      → find (is_member b u) db.memberships ≡ some n
      → (t.board.pk == b && t.user.pk == u) ≡ false
      → has_pk m.pk n ≡ false
  other_row m n consistent handed found e = elim (Bool-cases (has_pk m.pk n)) [
    | inr f ↦ f
    | inl t' ↦
        let key : BoardMembership → ℕ = λ (x : BoardMembership). x.pk in
        let at_m : find (has_pk m.pk) db.memberships ≡ some m =
          find-by_key key (is_member t.board.pk t.user.pk) db.memberships m handed
            (consistent.row_keys m.pk) in
        let at_n : find (has_pk n.pk) db.memberships ≡ some n =
          find-by_key key (is_member b u) db.memberships n found (consistent.row_keys n.pk) in
        let same : n.pk ≡ m.pk = ==→≡ n.pk m.pk t' in
        let equal : some n ≡ some m =
          sym at_n ∙ ap (λ (i : ℕ). find (has_pk i) db.memberships) same ∙ at_m in
        absurd (
          clash _ _ _ _ m n equal
            (find-passes (is_member t.board.pk t.user.pk) db.memberships handed)
            (find-passes (is_member b u) db.memberships found) e)
  ]

  -- The appended row is found where no row stood before it.
  new_state :
      (found : Option BoardMembership)
      → ((t.board.pk == b && t.user.pk == u) ≡ true → found ≡ none)
      → Option.map state_of (elim found [
        | none ↦
            if is_member b u (new_membership t now db.membership_seq)
            then some (new_membership t now db.membership_seq)
            else none
        | some x ↦ some x
      ])
        ≡ (if t.board.pk == b && t.user.pk == u
            then some (t.target_role, t.target_is_active)
            else Option.map state_of found)
  unfolding is_member new_membership
  new_state none absent = ground arith
  new_state (some x) absent = ground (arith, absent)

  -- The row that is written over is found as it was written, and every other row as it was.
  old_state :
      (m : BoardMembership) (found : Option BoardMembership)
      → ((t.board.pk == b && t.user.pk == u) ≡ true → found ≡ some m)
      → ((n : BoardMembership)
          → found ≡ some n
          → (t.board.pk == b && t.user.pk == u) ≡ false
          → has_pk m.pk n ≡ false)
      → Option.map state_of (
          Option.map
            (changed (has_pk m.pk) (set_membership t.target_role t.target_is_active now))
            found)
        ≡ (if t.board.pk == b && t.user.pk == u
            then some (t.target_role, t.target_is_active)
            else Option.map state_of found)
  unfolding set_membership
  old_state m none same other = ground (arith, same)
  old_state m (some n) same other = ground (arith, same, other n)

  rows-state :
      (current : Option BoardMembership)
      → IsConsistent db
      → find (is_member t.board.pk t.user.pk) db.memberships ≡ current
      → Option.map state_of (find (is_member b u) (written_rows t now current db)) ≡ (
          if t.board.pk == b && t.user.pk == u
          then some (t.target_role, t.target_is_active)
          else member_state b u db)
  rows-state none consistent handed =
      rw (find-append (is_member b u) db.memberships (new_membership t now db.membership_seq))
        (new_state (find (is_member b u) db.memberships) (same_keys none handed))
  rows-state (some m) consistent handed =
      rw
        (find-update (has_pk m.pk) (set_membership t.target_role t.target_is_active now)
          (is_member b u) db.memberships (λ x. unfold is_member set_membership in refl))
        (old_state m (find (is_member b u) db.memberships) (same_keys (some m) handed)
          (λ n found e. other_row m n consistent handed found e))

  -- The rows of other boards and users are as they were.
  pub rows-other :
      (current : Option BoardMembership)
      → IsConsistent db
      → find (is_member t.board.pk t.user.pk) db.memberships ≡ current
      → (t.board.pk == b && t.user.pk == u) ≡ false
      → find (is_member b u) (written_rows t now current db) ≡ find (is_member b u) db.memberships
  rows-other none consistent handed e =
      rw (find-append (is_member b u) db.memberships (new_membership t now db.membership_seq))
        (at (find (is_member b u) db.memberships))
    where
      at :
          (found : Option BoardMembership)
          → (elim found [
            | none ↦
                if is_member b u (new_membership t now db.membership_seq)
                then some (new_membership t now db.membership_seq)
                else none
            | some x ↦ some x
          ])
            ≡ found
      at none = rw (is_member-new t now db b u db.membership_seq, e) refl
      at (some x) = refl
  rows-other (some m) consistent handed e =
      rw
        (find-update (has_pk m.pk) (set_membership t.target_role t.target_is_active now)
          (is_member b u) db.memberships (λ x. unfold is_member set_membership in refl))
        (at (find (is_member b u) db.memberships)
          (λ n found. other_row m n consistent handed found e))
    where
      at :
          (found : Option BoardMembership)
          → ((n : BoardMembership) → found ≡ some n → has_pk m.pk n ≡ false)
          → Option.map
              (changed (has_pk m.pk) (set_membership t.target_role t.target_is_active now))
              found
            ≡ found
      at none other = refl
      at (some n) other = rw (other n refl) refl

-- Where the keys are unique and the events, replayed, account for the table, they do after every
-- transition that returns and was handed the current row.
pub transition-IsLogged :
    (t : Transition) (now : ℕ) (db db' : Database) (row : BoardMembership)
    (event : BoardMembershipEvent)
    → IsConsistent db
    → IsLogged db
    → IsHanded t db
    → transition_board_membership t now db ≡ (ok (row, event), db')
    → IsLogged db'
unfolding transition_event
transition-IsLogged t now db db' row event consistent logged handed h =
    let w : Written t now event db db' = transition-Written t now db db' row event h in
    let (event_type, _, e) = transition-event t now db db' row event h in
    record {
      told = λ b u.
          rw
            (
              w.rows,
              rows-state t now db b u (current_membership t db) consistent handed,
              w.events,
              replay-append b u none db.events event,
              e,
              logged.told b u,
            )
            refl;
    }

-- The state that an event names: the role and the activity before it, and after it.
abbrev pub state_before : BoardMembershipEvent → Option State
state_before e = elim e.previous_role [
  | none ↦ none
  | some role ↦ elim e.previous_is_active [ none ↦ none | some active ↦ some (role, active) ]
]

abbrev pub state_after : BoardMembershipEvent → Option State
state_after e = some (e.new_role, e.new_is_active)

event-states :
    (t : Transition) (event_type : EventType) (current : Option BoardMembership) (id : ℕ)
    → state_before (transition_event t event_type current id) ≡ Option.map state_of current
unfolding transition_event
event-states t event_type none id = refl
event-states t event_type (some m) id = refl

-- Where the keys are unique, a transition that returns and was handed the current row gives its
-- user on its board the role and the activity asked for and leaves those of every other user and
-- board; it appends one event, which names the state before and the state after.
pub transition-member_state :
    (t : Transition) (now : ℕ) (db db' : Database) (row : BoardMembership)
    (event : BoardMembershipEvent) (b u : ℕ)
    → IsConsistent db
    → IsHanded t db
    → transition_board_membership t now db ≡ (ok (row, event), db')
    → (member_state b u db' ≡ (
        if t.board.pk == b && t.user.pk == u
        then some (t.target_role, t.target_is_active)
        else member_state b u db))
      × (state_before event ≡ member_state t.board.pk t.user.pk db)
      × (state_after event ≡ member_state t.board.pk t.user.pk db')
      × (db'.events ≡ db.events ++ event ∷ [])
unfolding transition_event
transition-member_state t now db db' row event b u consistent handed h =
    let w : Written t now event db db' = transition-Written t now db db' row event h in
    let (event_type, _, e) = transition-event t now db db' row event h in
    (
      rw w.rows (rows-state t now db b u (current_membership t db) consistent handed),
      rw (e, handed)
          (event-states t event_type (current_membership t db)
            (written_pk (current_membership t db) db)),
      rw
          (
            w.rows,
            rows-state t now db t.board.pk t.user.pk (current_membership t db) consistent handed,
            e,
            ==-refl t.board.pk,
            ==-refl t.user.pk,
          )
          refl,
      w.events,
    )
