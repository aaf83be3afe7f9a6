-- ===== src/Membership/Evolution.antt =====
-- boards/services.py as a state machine: the moves of the database, and the rules by which a part of a
-- service is read as moves.
use power_adapter_blogs.Shared.{Option, none, some, ℕ, ◌≡◌, refl, sym, ap, ◌∙◌, Bool, true, false}
use mathlib.Core.Path.{subst}
use power_adapter_blogs.Models.{BoardMembership, BoardMembershipEvent, Database}
use power_adapter_blogs.Platform.{Platform, World}
use power_adapter_blogs.Exec.{
  Error, Result, ok, err, Exec, continue, pure, get_or_raise, refuse_if, does_not_exist, ◌>>=◌,
}
use power_adapter_blogs.Membership.Dashboard.{transition, fetch, reads, atomic_world}
use power_adapter_blogs.Membership.{Transition, is_super_admin, transition_board_membership}
use power_adapter_blogs.Membership.Effects.{transition_error_unchanged}
use power_adapter_blogs.Membership.Consistency.{IsHanded}

-- The memberships, their events and the next key are as before.
pub record IsQuiet (db db' : Database) : Type 0 where
  pub rows : db'.memberships ≡ db.memberships
  pub seq : db'.membership_seq ≡ db.membership_seq
  pub events : db'.events ≡ db.events

-- One move. A transition is handed the current row of its board and user, and is not break-glass.
pub data Move (db db' : Database) : Type 0 where
  changed :
      (t : Transition) (now : ℕ) (row : BoardMembership) (event : BoardMembershipEvent)
      → is_super_admin t.source ≡ false
      → IsHanded t db
      → transition_board_membership t now db ≡ (ok (row, event), db')
      → Move db db'
  quiet : IsQuiet db db' → Move db db'

pub data Evolves (db : Database) : Database → Type 0 where
  here : Evolves db db
  next : {db' db'' : Database} → Evolves db db' → Move db' db'' → Evolves db db''

pub Evolves-trans : {a b c : Database} → Evolves a b → Evolves b c → Evolves a c
Evolves-trans e here = e
Evolves-trans e (next f m) = next (Evolves-trans e f) m

-- From a database whose keys are unique, the moves keep what every single move keeps.
pub Evolves-induction :
    (P : Database → Type 0)
    → ((db db' : Database) → P db → Move db db' → P db')
    → {db db' : Database} → Evolves db db'
    → P db
    → P db'
Evolves-induction P step here h = h
Evolves-induction P step (next {db'} {db''} e m) h = step db' db'' (Evolves-induction P step e h) m

module _ (p : Platform) where
  -- A part of a service, started on the database `db`, makes moves alone.
  pub record Leads {ℓ} {A : Type ℓ} (db : Database) (m : Exec (World p) A) : Type 0 where
    pub at : (w : World p) → w.db ≡ db → Evolves db (m w).1.db

  moved : {db : Database} (w : World p) → w.db ≡ db → Evolves db w.db
  moved {db} w e = subst (Evolves db) (sym e) here

  -- A part that leaves the database alone, and what follows where it returns.
  pub Leads-quiet {ℓ κ} :
      {A : Type ℓ} {B : Type κ} {db : Database} (m : Exec (World p) A) (f : A → Exec (World p) B)
      → ((w : World p) → (m w).1.db ≡ w.db)
      → ((a : A) → Leads db (f a))
      → Leads db (m >>= f)
  unfolding ◌>>=◌
  Leads-quiet {A = A} {db = db} m f kept rest = record { at = λ w e. go (m w) (kept w ∙ e) }
    where
      go : (r : Result A × World p) → r.1.db ≡ db → Evolves db (continue r f).1.db
      go (ok a, w) e = (rest a).at w e
      go (err x, w) e = moved w e

  -- A guard, and what follows where it does not refuse.
  pub Leads-refuse {κ} :
      {B : Type κ} {db : Database} (b : Bool) (x : Error) (f : Unit {0} → Exec (World p) B)
      → (b ≡ false → Leads db (f tt))
      → Leads db (refuse_if b x >>= f)
  unfolding ◌>>=◌
  Leads-refuse true x f rest = record { at = λ w e. moved w e }
  Leads-refuse false x f rest = rest refl

  pub Leads-reads {κ} :
      {A : Type 0} {B : Type κ} {db : Database} (g : Database → A) (f : A → Exec (World p) B)
      → Leads db (f (g db))
      → Leads db (reads p g >>= f)
  unfolding ◌>>=◌ reads
  Leads-reads {db = db} g f rest = record {
    at = λ w e. subst (λ (d : Database). Evolves db (f (g d) w).1.db) (sym e) (rest.at w e);
  }

  -- What `fetch` returns is what it has found in the database.
  pub Leads-fetch {κ} :
      {A : Type 0} {B : Type κ} {db : Database} (g : Database → Option A) (f : A → Exec (World p) B)
      → ((a : A) → g db ≡ some a → Leads db (f a))
      → Leads db (fetch p g >>= f)
  unfolding ◌>>=◌ fetch
  Leads-fetch {A = A} {B = B} {db = db} g f rest = record {
    at = λ w e.
        subst (λ (d : Database). Evolves db (continue (get_or_raise does_not_exist (g d) w) f).1.db)
          (sym e) (go w e (g db) refl);
  }
    where
      go :
          (w : World p)
          → w.db ≡ db
          → (o : Option A) → g db ≡ o
          → Evolves db (continue (get_or_raise does_not_exist o w) f).1.db
      go w e none h = moved w e
      go w e (some a) h = (rest a h).at w e

  -- A transition, and what follows on the database that it leaves where it returns.
  pub Leads-transition_then {κ} :
      {B : Type κ} {db : Database} (t : Transition) (now : ℕ)
      (f : BoardMembership → Exec (World p) B)
      → is_super_admin t.source ≡ false
      → IsHanded t db
      → ((row : BoardMembership) (event : BoardMembershipEvent) (db' : Database)
          → transition_board_membership t now db ≡ (ok (row, event), db')
          → Leads db' (f row))
      → Leads db (transition p t now >>= f)
  unfolding ◌>>=◌ transition
  Leads-transition_then {B = B} {db = db} t now f source handed rest = record {
    at = λ w e.
        subst
          (λ (d : Database).
            Evolves db
              (continue
                (continue {A = BoardMembership × BoardMembershipEvent}
                  (
                    (transition_board_membership t now d).0,
                    record w { db = (transition_board_membership t now d).1 },
                  )
                  (λ x. pure x.0))
                f).1.db)
          (sym e) (go w (transition_board_membership t now db) refl);
  }
    where
      go :
          (w : World p) (r : Result (BoardMembership × BoardMembershipEvent) × Database)
          → transition_board_membership t now db ≡ r
          → Evolves db
              (continue
                (continue {A = BoardMembership × BoardMembershipEvent}
                  (r.0, record w { db = r.1 })
                  (λ x. pure x.0))
                f).1.db
      go w (ok (row, event), db') e =
          Evolves-trans (next here (changed t now row event source handed e))
            ((rest row event db' e).at (record w { db = db' }) refl)
      go w (err x, db') e =
          subst (Evolves db)
            (sym (transition_error_unchanged t now db {e = x} (ap (λ r. r.0) e)) ∙ ap (λ r. r.1) e)
            here

  pub Leads-pure {ℓ} : {A : Type ℓ} {db : Database} (a : A) → Leads db (pure {S = World p} a)
  unfolding pure
  Leads-pure a = record { at = λ w e. moved w e }

  -- A last step that is a transition.
  pub Leads-transition :
      {db : Database} (t : Transition) (now : ℕ)
      → is_super_admin t.source ≡ false
      → IsHanded t db
      → Leads db (transition p t now)
  unfolding transition ◌>>=◌
  Leads-transition {db = db} t now source handed = record {
    at = λ w e.
        subst
          (λ (d : Database).
            Evolves db
              (continue {A = BoardMembership × BoardMembershipEvent}
                (
                  (transition_board_membership t now d).0,
                  record w { db = (transition_board_membership t now d).1 },
                )
                (λ x. pure x.0)).1.db)
          (sym e) (go w (transition_board_membership t now db) refl);
  }
    where
      go :
          (w : World p) (r : Result (BoardMembership × BoardMembershipEvent) × Database)
          → transition_board_membership t now db ≡ r
          → Evolves db
              (continue {A = BoardMembership × BoardMembershipEvent}
                (r.0, record w { db = r.1 })
                (λ x. pure x.0)).1.db
      go w (ok (row, event), db') e = next here (changed t now row event source handed e)
      go w (err x, db') e =
          subst (Evolves db)
            (sym (transition_error_unchanged t now db {e = x} (ap (λ r. r.0) e)) ∙ ap (λ r. r.1) e)
            here

  -- Inside `transaction.atomic()`.
  pub Leads-atomic {ℓ} :
      {A : Type ℓ} {db : Database} (m : Exec (World p) A) → Leads db m → Leads db (atomic_world p m)
  unfolding atomic_world
  Leads-atomic {A = A} {db = db} m leads = record { at = λ w e. go w e (m w).0 }
    where
      go :
          (w : World p)
          → w.db ≡ db
          → (r : Result A)
          → Evolves db
              (elim r as (λ _. Result A × World p) [
                | ok a ↦ (ok a, (m w).1)
                | err e ↦ (err e, record (m w).1 { db = w.db })
              ]).1.db
      go w e (ok a) = leads.at w e
      go w e (err x) = moved w e
