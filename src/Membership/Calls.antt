-- ===== src/Membership/Calls.antt =====
-- boards/services.py from outside: any sequence of its services' calls but break-glass, made by any
-- users, whether each returns or raises.
use power_adapter_blogs.Shared.{
  ℕ, ◌<◌, String, Bool, List, [], ◌∷◌, Option, none, some, ◌≡◌, refl, arith,
}
use power_adapter_blogs.Access.{BoardRole}
use power_adapter_blogs.Models.{User, Board, Database}
use power_adapter_blogs.Platform.{Platform, World, Request}
use power_adapter_blogs.Exec.{Error, Result, ok, err, Exec, refuse_if, ◌>>=◌}
use power_adapter_blogs.Membership.{active_managers}
use power_adapter_blogs.Membership.Consistency.{IsConsistent, transition-IsConsistent}
use power_adapter_blogs.Membership.Continuity.{transition-keeps_manager}
use power_adapter_blogs.Membership.History.{IsLogged, transition-IsLogged}
use power_adapter_blogs.Membership.Evolution.{Move, changed, quiet, Evolves, Evolves-induction}
use power_adapter_blogs.Membership.Requests.{
  submit_board_access_request, decide_board_access_request, withdraw_board_membership, atomic,
}
use power_adapter_blogs.Membership.Dashboard.{Disposition, on_db, atomic_world, required_reason}
use power_adapter_blogs.Membership.Dashboard.Changes.{
  grant_board_membership, change_board_membership_role, deactivate_board_membership,
  reactivate_board_membership, transfer_board_manager,
}
use power_adapter_blogs.Membership.Services.{
  grant_board_membership-Leads, change_board_membership_role-Leads,
  deactivate_board_membership-Leads, reactivate_board_membership-Leads,
  transfer_board_manager-Leads,
}
use power_adapter_blogs.Membership.Reviews.{
  submit_board_access_request-Evolves, decide_board_access_request-Evolves,
  withdraw_board_membership-Evolves,
}

-- A Dashboard's call comes with its request, its step-up token and its actor.
pub data Call (p : Platform) : Type 0 where
  grants : Request → p.Token → User → ℕ → ℕ → BoardRole → String → Call p
  changes_role : Request → p.Token → User → ℕ → BoardRole → String → Call p
  deactivates : Request → p.Token → User → ℕ → String → Call p
  reactivates : Request → p.Token → User → ℕ → BoardRole → String → Call p
  transfers : Request → p.Token → User → ℕ → ℕ → Disposition → String → Call p
  submits : (User → Bool) → User → Board → BoardRole → String → Call p
  decides : ℕ → User → Bool → String → ℕ → Call p
  withdraws : ℕ → User → ℕ → Call p

module _ (p : Platform) where
  -- What a call raised, if it did, and the state it left.
  abbrev pub outcome : {A : Type 0} → Result A × World p → Option Error × World p
  outcome (ok a, w) = (none, w)
  outcome (err e, w) = (some e, w)

  unfoldable pub call : Call p → World p → Option Error × World p
  unfolding on_db
  call (grants request token actor b u role reason) w =
      outcome (grant_board_membership p request token actor b u role reason w)
  call (changes_role request token actor id role reason) w =
      outcome (change_board_membership_role p request token actor id role reason w)
  call (deactivates request token actor id reason) w =
      outcome (deactivate_board_membership p request token actor id reason w)
  call (reactivates request token actor id role reason) w =
      outcome (reactivate_board_membership p request token actor id role reason w)
  call (transfers request token actor id user_id disposition reason) w =
      outcome (transfer_board_manager p request token actor id user_id disposition reason w)
  call (submits has_perm applicant board role reason) w =
      outcome (on_db p (submit_board_access_request has_perm applicant board role reason) w)
  call (decides id actor approve note now) w =
      outcome (on_db p (decide_board_access_request id actor approve note now) w)
  call (withdraws id actor now) w = outcome (on_db p (withdraw_board_membership id actor now) w)

  -- The calls one after another; what one of them raises ends that call alone.
  unfoldable pub calls : List (Call p) → World p → World p
  unfolding call
  calls [] w = w
  calls (c ∷ cs) w = calls cs (call c w).1

  outcome-Evolves :
      {A : Type 0} (db : Database) (r : Result A × World p)
      → Evolves db r.1.db
      → Evolves db (outcome r).1.db
  outcome-Evolves db (ok a, w) h = h
  outcome-Evolves db (err e, w) h = h

  call-Evolves : (c : Call p) (w : World p) → IsConsistent w.db → Evolves w.db (call c w).1.db
  unfolding call on_db
  call-Evolves (grants request token actor b u role reason) w h =
      outcome-Evolves w.db _
        ((grant_board_membership-Leads p request token actor w.db h b u role reason).at w refl)
  call-Evolves (changes_role request token actor id role reason) w h =
      outcome-Evolves w.db _
        ((change_board_membership_role-Leads p request token actor w.db h id role reason).at w refl)
  call-Evolves (deactivates request token actor id reason) w h =
      outcome-Evolves w.db _
        ((deactivate_board_membership-Leads p request token actor w.db h id reason).at w refl)
  call-Evolves (reactivates request token actor id role reason) w h =
      outcome-Evolves w.db _
        ((reactivate_board_membership-Leads p request token actor w.db h id role reason).at w refl)
  call-Evolves (transfers request token actor id user_id disposition reason) w h =
      outcome-Evolves w.db _ (
        (transfer_board_manager-Leads p request token actor w.db h id user_id disposition reason).at
          w refl)
  call-Evolves (submits has_perm applicant board role reason) w h =
      outcome-Evolves w.db _
        (submit_board_access_request-Evolves has_perm applicant board role reason w.db)
  call-Evolves (decides id actor approve note now) w h =
      outcome-Evolves w.db _ (decide_board_access_request-Evolves id actor approve note now w.db)
  call-Evolves (withdraws id actor now) w h =
      outcome-Evolves w.db _ (withdraw_board_membership-Evolves id actor now w.db h)

-- What the moves keep, beside the keys: the log of the table, and a manager where there was one.
move-IsConsistent : (db db' : Database) → IsConsistent db → Move db db' → IsConsistent db'
move-IsConsistent db db' h (changed t now row event source handed e) =
    transition-IsConsistent t now db db' row event h handed e
move-IsConsistent db db' h (quiet q) = record {
  member_keys = λ b u. rw q.rows (h.member_keys b u);
  row_keys = λ id. rw q.rows (h.row_keys id);
  row_bound = λ id le. rw q.rows (h.row_bound id (rw q.seq at le));
}

move-IsLogged :
    (db db' : Database)
    → IsConsistent db × IsLogged db
    → Move db db'
    → IsConsistent db' × IsLogged db'
move-IsLogged db db' (h, l) m = (move-IsConsistent db db' h m, log m)
  where
    log : Move db db' → IsLogged db'
    log (changed t now row event source handed e) =
        transition-IsLogged t now db db' row event h l handed e
    log (quiet q) = record { told = λ b u. rw (q.rows, q.events) (l.told b u) }

move-keeps_manager :
    (b : ℕ) (db db' : Database)
    → IsConsistent db × (0 < active_managers b db)
    → Move db db'
    → IsConsistent db' × (0 < active_managers b db')
move-keeps_manager b db db' (h, had) m = (move-IsConsistent db db' h m, kept m)
  where
    kept : Move db db' → 0 < active_managers b db'
    kept (changed t now row event source handed e) =
        transition-keeps_manager t now db db' row event b h handed source e had
    kept (quiet q) = unfold active_managers in rw q.rows (unfold active_managers in had)

module _ (p : Platform) where
  -- What every move keeps, the calls keep.
  calls-induction :
      (P : Database → Type 0)
      → ((db : Database) → P db → IsConsistent db)
      → ((db db' : Database) → P db → Move db db' → P db')
      → (cs : List (Call p)) (w : World p) → P w.db
      → P (calls p cs w).db
  unfolding calls
  calls-induction P keys step [] w h = h
  calls-induction P keys step (c ∷ cs) w h =
      calls-induction P keys step cs (call p c w).1
        (Evolves-induction P step (call-Evolves p c w (keys w.db h)) h)

-- Any sequence of calls of the services (break-glass apart) leaves each board and user with at
-- most one membership, each primary key with at most one row, and no row with a key that is yet
-- to be given, where that held before.
pub calls-IsConsistent :
    (p : Platform) (cs : List (Call p)) (w : World p)
    → IsConsistent w.db
    → IsConsistent (calls p cs w).db
calls-IsConsistent p cs w h = calls-induction p IsConsistent (λ db h. h) move-IsConsistent cs w h

-- From a table with unique keys, a board that has an active manager has one after any sequence
-- of calls of the Dashboard's services (break-glass apart), of submitting, deciding and
-- withdrawing, whether or not they raise.
pub calls-keep_manager :
    (p : Platform) (cs : List (Call p)) (w : World p) (b : ℕ)
    → IsConsistent w.db
    → 0 < active_managers b w.db
    → 0 < active_managers b (calls p cs w).db
calls-keep_manager p cs w b h had =
    (calls-induction p (λ db. IsConsistent db × (0 < active_managers b db)) (λ db h. h.0)
      (move-keeps_manager b) cs w (h, had)).1

-- From a table with unique keys that its events account for, after any sequence of calls of the
-- services (break-glass apart) replaying the events still gives the role and the activity of
-- every user on every board.
pub calls-IsLogged :
    (p : Platform) (cs : List (Call p)) (w : World p)
    → IsConsistent w.db
    → IsLogged w.db
    → IsLogged (calls p cs w).db
calls-IsLogged p cs w h l =
    (calls-induction p (λ db. IsConsistent db × IsLogged db) (λ db h. h.0) move-IsLogged cs w
      (h, l)).1

atomic_world-unchanged :
    {A : Type 0} (p : Platform) (m : Exec (World p) A) (w w' : World p) (e : Error)
    → outcome p (atomic_world p m w) ≡ (some e, w')
    → w'.db ≡ w.db
unfolding atomic_world
atomic_world-unchanged p m w w' e h = ground arith

-- A call of the Dashboard's five membership services (break-glass apart), or of submitting,
-- deciding or withdrawing, that raises leaves the database as it was.
pub call-unchanged :
    (p : Platform) (c : Call p) (w w' : World p) (e : Error)
    → call p c w ≡ (some e, w')
    → w'.db ≡ w.db
unfolding call grant_board_membership change_board_membership_role deactivate_board_membership
    reactivate_board_membership transfer_board_manager required_reason refuse_if ◌>>=◌ atomic_world
    on_db submit_board_access_request decide_board_access_request withdraw_board_membership atomic
call-unchanged p (grants request token actor b u role reason) w w' e h = ground arith
call-unchanged p (changes_role request token actor id role reason) w w' e h = ground arith
call-unchanged p (deactivates request token actor id reason) w w' e h = ground arith
call-unchanged p (reactivates request token actor id role reason) w w' e h = ground arith
call-unchanged p (transfers request token actor id user_id disposition reason) w w' e h =
    ground arith
call-unchanged p (submits has_perm applicant board role reason) w w' e h = ground arith
call-unchanged p (decides id actor approve note now) w w' e h = ground arith
call-unchanged p (withdraws id actor now) w w' e h = ground arith
