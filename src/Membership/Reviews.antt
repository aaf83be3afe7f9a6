-- ===== src/Membership/Reviews.antt =====
-- boards/services.py: submitting and deciding an access request, and withdrawing from a board, as
-- sequences of moves of the database.
use mathlib.Core.Path.{subst}
use power_adapter_blogs.Shared.{
  ℕ, String, ◌≡◌, refl, sym, ap, ◌∙◌, Bool, true, false, Option, none, some, find, any, suc, ◌++◌,
  [], ◌∷◌, if◌then◌else◌,
}
use power_adapter_blogs.Access.{BoardRole}
use power_adapter_blogs.Models.{
  User, Board, BoardMembership, BoardAccessRequest, BoardMembershipEvent, Database, RequestStatus,
  approved, rejected,
}
use power_adapter_blogs.Exec.{
  Error, Result, ok, err, Exec, continue, pure, gets, get_or_raise, refuse_if, does_not_exist,
  validation_error, duplicate_request, ◌>>=◌,
}
use power_adapter_blogs.Membership.{
  Transition, is_member, is_pending_for, is_super_admin, current_membership,
  transition_board_membership,
}
use power_adapter_blogs.Membership.Effects.{transition_error_unchanged}
use power_adapter_blogs.Membership.Consistency.{IsConsistent, IsHanded}
use power_adapter_blogs.Membership.Evolution.{Evolves, here, next, changed, quiet, Evolves-trans}
use power_adapter_blogs.Membership.Services.{found-IsHanded, lock-IsLocked}
use power_adapter_blogs.Membership.Requests.{
  atomic, Locked, locked_row, lock_membership, LockedRequest, locked_request, lock_request,
  create_request, submit_board_access_request, save_decision, carry_out, approval, decide_body,
  withdrawal, decide_board_access_request, withdraw_body, withdraw_board_membership,
}

-- A part of a service, run on the database `db`, makes moves alone.
record Goes {ℓ} {A : Type ℓ} (db : Database) (m : Exec Database A) : Type 0 where
  at : Evolves db (m db).1

module _ {ℓ} {B : Type ℓ} {db : Database} where
  Goes-refuse :
      (b : Bool) (x : Error) (f : Unit {0} → Exec Database B)
      → (b ≡ false → Goes db (f tt))
      → Goes db (refuse_if b x >>= f)
  unfolding ◌>>=◌
  Goes-refuse true x f rest = record { at = here }
  Goes-refuse false x f rest = record { at = (rest refl).at }

  Goes-gets :
      {A : Type 0} (g : Database → A) (f : A → Exec Database B)
      → Goes db (f (g db))
      → Goes db (gets g >>= f)
  unfolding ◌>>=◌
  Goes-gets g f rest = record { at = rest.at }

  Goes-lock :
      (id : ℕ) (f : Locked → Exec Database B)
      → ((a : Locked) → locked_row db id ≡ some a → Goes db (f a))
      → Goes db (lock_membership id >>= f)
  unfolding ◌>>=◌ lock_membership
  Goes-lock id f rest = record { at = go (locked_row db id) refl }
    where
      go :
          (o : Option Locked)
          → locked_row db id ≡ o
          → Evolves db (continue (get_or_raise does_not_exist o db) f).1
      go none e = here
      go (some a) e = (rest a e).at

  Goes-lock_request :
      (id : ℕ) (f : LockedRequest → Exec Database B)
      → ((a : LockedRequest) → Goes db (f a))
      → Goes db (lock_request id >>= f)
  unfolding ◌>>=◌ lock_request
  Goes-lock_request id f rest = record { at = go (locked_request db id) }
    where
      go : (o : Option LockedRequest) → Evolves db (continue (get_or_raise does_not_exist o db) f).1
      go none = here
      go (some a) = (rest a).at

  Goes-transition :
      (t : Transition) (now : ℕ) (f : BoardMembership × BoardMembershipEvent → Exec Database B)
      → is_super_admin t.source ≡ false
      → IsHanded t db
      → ((row : BoardMembership) (event : BoardMembershipEvent) (db' : Database)
          → Goes db' (f (row, event)))
      → Goes db (transition_board_membership t now >>= f)
  unfolding ◌>>=◌
  Goes-transition t now f source handed rest = record {
    at = go (transition_board_membership t now db) refl;
  }
    where
      go :
          (r : Result (BoardMembership × BoardMembershipEvent) × Database)
          → transition_board_membership t now db ≡ r
          → Evolves db (continue r f).1
      go (ok (row, event), db') e =
          Evolves-trans (next here (changed t now row event source handed e))
            (rest row event db').at
      go (err x, db') e =
          subst (Evolves db)
            (sym (transition_error_unchanged t now db {e = x} (ap (λ r. r.0) e)) ∙ ap (λ r. r.1) e)
            here

  Goes-nested :
      {A C : Type 0} (m : Exec Database A) (g : A → Exec Database C) (f : C → Exec Database B)
      → Goes db (m >>= λ a. g a >>= f)
      → Goes db ((m >>= g) >>= f)
  unfolding ◌>>=◌
  Goes-nested {A = A} m g f rest = record { at = go (m db) rest.at }
    where
      go :
          (r : Result A × Database)
          → Evolves db (continue r (λ a. g a >>= f)).1
          → Evolves db (continue (continue r g) f).1
      go (ok a, d) e = e
      go (err x, d) e = e

  Goes-pure_then :
      {A : Type 0} (a : A) (f : A → Exec Database B) → Goes db (f a) → Goes db (pure a >>= f)
  unfolding ◌>>=◌
  Goes-pure_then a f rest = record { at = rest.at }

  Goes-atomic : (m : Exec Database B) → Goes db m → Goes db (atomic m)
  unfolding atomic
  Goes-atomic m goes = record { at = go (m db).0 }
    where
      go :
          (r : Result B)
          → Evolves db
              (elim r as (λ _. Result B × Database) [
                | ok a ↦ (ok a, (m db).1)
                | err e ↦ (err e, db)
              ]).1
      go (ok a) = goes.at
      go (err x) = here

  Goes-pure : (a : B) → Goes db (pure {S = Database} a)
  unfolding pure
  Goes-pure a = record { at = here }

-- The writes that touch no membership.
Goes-create_request : (db : Database) (row : BoardAccessRequest) → Goes db (create_request row)
unfolding create_request
Goes-create_request db row = record {
  at = go (any (is_pending_for row.board_id row.applicant_id) db.requests);
}
  where
    go :
        (b : Bool)
        → Evolves db
            (if◌then◌else◌ {A = Result BoardAccessRequest × Database} b
              (err (validation_error duplicate_request), db)
              (
                ok row,
                record db { requests = db.requests ++ row ∷ []; request_seq = suc db.request_seq },
              )).1
    go true = here
    go false = next here (quiet (record { rows = refl; seq = refl; events = refl }))

Goes-save_decision : (db : Database) (row : BoardAccessRequest) → Goes db (save_decision row)
unfolding save_decision
Goes-save_decision db row = record {
  at = next here (quiet (record { rows = refl; seq = refl; events = refl }));
}

-- A request changes no membership.
pub submit_board_access_request-Evolves :
    (has_perm : User → Bool) (applicant : User) (board : Board) (role : BoardRole) (reason : String)
    (db : Database)
    → Evolves db (submit_board_access_request has_perm applicant board role reason db).1
unfolding submit_board_access_request
submit_board_access_request-Evolves has_perm applicant board role reason db =
    (Goes-refuse {db = db} _ _ _ λ _. Goes-refuse _ _ _ λ _. Goes-refuse _ _ _ λ _.
      Goes-refuse _ _ _ λ _.
        Goes-gets _ _
          (Goes-refuse _ _ _ λ _. Goes-gets _ _ (Goes-atomic _ (Goes-create_request _ _)))).at

-- What is handed to the transition by an approval and by a withdrawal.
approval-IsHanded :
    (db : Database) (locked : LockedRequest) (actor : User) (note : String)
    → IsHanded
        (approval locked actor note
          (find (is_member locked.board.pk locked.applicant.pk) db.memberships))
        db
unfolding approval
approval-IsHanded db locked actor note = found-IsHanded _ db _ refl refl

withdrawal-IsHanded :
    (db : Database) (id : ℕ) (locked : Locked) (actor : User)
    → IsConsistent db
    → locked_row db id ≡ some locked
    → IsHanded (withdrawal locked actor) db
unfolding withdrawal current_membership
withdrawal-IsHanded db id locked actor consistent found =
    (lock-IsLocked db id locked consistent found).current

approval-source :
    (locked : LockedRequest) (actor : User) (note : String) (m : Option BoardMembership)
    → is_super_admin (approval locked actor note m).source ≡ false
unfolding approval is_super_admin
approval-source locked actor note m = refl

withdrawal-source :
    (locked : Locked) (actor : User) → is_super_admin (withdrawal locked actor).source ≡ false
unfolding withdrawal is_super_admin
withdrawal-source locked actor = refl

Goes-carry_out :
    {B : Type 0} (db : Database) (locked : LockedRequest) (actor : User) (approve : Bool)
    (note : String) (now : ℕ) (f : RequestStatus → Exec Database B)
    → ((status : RequestStatus) (db' : Database) → Goes db' (f status))
    → Goes db (
        carry_out locked actor approve note now
          (find (is_member locked.board.pk locked.applicant.pk) db.memberships)
        >>= f)
unfolding carry_out
Goes-carry_out db locked actor true note now f rest = Goes-nested _ _ _ (
    Goes-transition _ _ _ (approval-source locked actor note _)
      (approval-IsHanded db locked actor note)
      λ row event db'. Goes-pure_then _ _ (rest approved db'))
Goes-carry_out db locked actor false note now f rest = Goes-pure_then _ _ (rest rejected db)

-- Deciding a request makes at most the one change of the applicant's membership.
pub decide_board_access_request-Evolves :
    (id : ℕ) (actor : User) (approve : Bool) (note : String) (now : ℕ) (db : Database)
    → Evolves db (decide_board_access_request id actor approve note now db).1
decide_board_access_request-Evolves id actor approve note now db =
    unfold decide_board_access_request in (Goes-atomic _ decided).at
  where
    decided : Goes db (decide_body id actor approve note now)
    decided =
        unfold decide_body in
        Goes-lock_request _ _ λ locked. Goes-refuse _ _ _ λ _. Goes-gets _ _ (
          Goes-refuse _ _ _ λ _. Goes-gets _ _ (
            Goes-refuse _ _ _ λ _.
              Goes-carry_out db locked actor approve note now _
                λ status db'. Goes-save_decision _ _))

-- Withdrawing changes the membership of the one who withdraws, and no other.
pub withdraw_board_membership-Evolves :
    (id : ℕ) (actor : User) (now : ℕ) (db : Database)
    → IsConsistent db
    → Evolves db (withdraw_board_membership id actor now db).1
unfolding withdraw_board_membership
withdraw_board_membership-Evolves id actor now db consistent =
    (Goes-refuse {db = db} _ _ _ λ _. Goes-atomic _ withdrawn).at
  where
    withdrawn : Goes db (withdraw_body id actor now)
    withdrawn =
        unfold withdraw_body in
        Goes-lock _ _ λ locked found. Goes-refuse _ _ _ λ _. Goes-refuse _ _ _ λ _.
          Goes-refuse _ _ _ λ _.
            Goes-transition _ _ _ (withdrawal-source locked actor)
              (withdrawal-IsHanded db id locked actor consistent found) λ row event db'. Goes-pure _
