-- ===== src/Outbox/Enqueue.antt =====
-- security/outbox.py, `enqueue_audit_event`: one event bound to one content.
--
-- The canonical event and its time are of any types: what it holds beside them is the call's `body`.
use power_adapter_blogs.Shared.{
  ℕ, String, ◌≡◌, refl, sym, ap, ◌∙◌, Bool, true, ◌&&◌, Option, none, some, List, [], ◌∷◌, ◌++◌,
  arith, ◌==◌, find, if◌then◌else◌, text_eq, text_eq_refl, ==-refl, find-append,
}
use mathlib.Core.Path.{subst}
use power_adapter_blogs.Text.{is_empty}
use power_adapter_blogs.Outbox.{OutboxRow, outbox_pending}

-- The arguments of a call. `partition` and `event_id` may be left out, and so may the time.
pub record Enqueued (E O : Type 0) : Type 0 where
  pub event_id : Option ℕ
  pub event_type : String
  pub body : ℕ → O → E
  pub occurred_at : Option O
  pub partition : Option String

-- `_canonical_value` of a time and `_partition_for` of it, `event.get("occurred_at")`, and the
-- equality of events in Python
pub record Events (E O : Type 0) : Type 0 where
  pub occurred_at_of : E → O
  pub partition_for : String → O → String
  pub equal_events : E → E → Bool

-- `AuditEventCollision`, or the row with the table
pub data Queued (E : Type 0) : Type 0 where
  collision : Queued E
  queued : OutboxRow E → List (OutboxRow E) → Queued E

abbrev pub has_event_id : {E : Type 0} → ℕ → OutboxRow E → Bool
has_event_id id row = row.event_id == id

-- `partition or …`
unfoldable pub given_partition : Option String → String → String
given_partition none other = other
given_partition (some p) other = if is_empty p then other else p

-- `UUID(str(event_id)) if event_id else uuid4()`; `fresh` is what `uuid4()` gives.
unfoldable pub identifier_of : Option ℕ → ℕ → ℕ
identifier_of none fresh = fresh
identifier_of (some id) fresh = id

-- `occurred_at or …`
unfoldable pub time_or : {O : Type 0} → O → Option O → O
time_or other none = other
time_or other (some o) = o

-- The row that is made, with the model's defaults
unfoldable pub new_row : {E : Type 0} → ℕ → ℕ → ℕ → String → String → E → OutboxRow E
new_row pk identifier now event_type partition event = record {
  pk = pk;
  event_id = identifier;
  event_type = event_type;
  partition = partition;
  event = event;
  status = outbox_pending;
  attempts = 0;
  next_attempt_at = now;
  locked_at = none;
  lock_token = none;
  last_error_code = "";
  created_at = now;
  delivered_at = none;
  delivery_sequence = none;
  delivery_mac = "";
}

module _ {E O : Type 0} (events : Events E O) where
  open events use {occurred_at_of, partition_for, equal_events}

  -- The partition where none is given: of the time that is given, or else of the row that is there
  unfoldable pub partition_of_time : String → Option O → OutboxRow E → String
  partition_of_time event_type none row = row.partition
  partition_of_time event_type (some o) row = partition_for event_type o

  unfoldable pub insert_row : Enqueued E O → ℕ → ℕ → ℕ → O → List (OutboxRow E) → Queued E
  unfolding given_partition time_or new_row
  insert_row c identifier pk now now_value table =
      let o : O = time_or now_value c.occurred_at in
      let row : OutboxRow E =
        new_row pk identifier now c.event_type
          (given_partition c.partition (partition_for c.event_type o)) (c.body identifier o) in
      queued row (table ++ row ∷ [])

  unfoldable pub compare_row : Enqueued E O → ℕ → OutboxRow E → List (OutboxRow E) → Queued E
  unfolding given_partition time_or partition_of_time
  compare_row c identifier row table =
      if text_eq row.partition
          (given_partition c.partition (partition_of_time c.event_type c.occurred_at row))
        && equal_events row.event
            (c.body identifier (time_or (occurred_at_of row.event) c.occurred_at))
      then queued row table
      else collision

  unfoldable pub enqueue_identified : Enqueued E O → ℕ → ℕ → ℕ → O → List (OutboxRow E) → Queued E
  unfolding insert_row compare_row
  enqueue_identified c identifier pk now now_value table =
      elim (find (has_event_id identifier) table) [
        | none ↦ insert_row c identifier pk now now_value table
        | some row ↦ compare_row c identifier row table
      ]

  unfoldable pub enqueue_audit_event : Enqueued E O → ℕ → ℕ → ℕ → O → List (OutboxRow E) → Queued E
  unfolding enqueue_identified identifier_of
  enqueue_audit_event c fresh pk now now_value table =
      enqueue_identified c (identifier_of c.event_id fresh) pk now now_value table

  given_twice :
      (p : Option String) (s : String)
      → given_partition p (given_partition p s) ≡ given_partition p s
  unfolding given_partition
  given_twice none s = refl
  given_twice (some p) s = ground arith

  same_partition :
      (event_type : String) (p : Option String) (o : Option O) (now : O) (row : OutboxRow E)
      → row.partition ≡ given_partition p (partition_for event_type (time_or now o))
      → given_partition p (partition_of_time event_type o row) ≡ row.partition
  unfolding time_or partition_of_time
  same_partition event_type p none now row h = rw h (given_twice p (partition_for event_type now))
  same_partition event_type p (some o) now row h = sym h

  same_time :
      (o : Option O) (now : O) (e : E)
      → occurred_at_of e ≡ time_or now o
      → time_or (occurred_at_of e) o ≡ time_or now o
  unfolding time_or
  same_time none now e h = h
  same_time (some o) now e h = refl

  found :
      (id : ℕ) (table : List (OutboxRow E)) (row : OutboxRow E)
      → find (has_event_id id) table ≡ none
      → row.event_id ≡ id
      → find (has_event_id id) (table ++ row ∷ []) ≡ some row
  found id table row h e = rw (find-append (has_event_id id) table row, h, e, ==-refl id) refl

  identified :
      (c : Enqueued E O) (id fresh pk now : ℕ) (t : O) (table : List (OutboxRow E))
      → c.event_id ≡ some id
      → enqueue_audit_event c fresh pk now t table ≡ enqueue_identified c id pk now t table
  unfolding enqueue_audit_event identifier_of
  identified c id fresh pk now t table e =
      ap (λ o. enqueue_identified c (identifier_of o fresh) pk now t table) e

  enqueue-new :
      (c : Enqueued E O) (id pk now : ℕ) (t : O) (table : List (OutboxRow E))
      → find (has_event_id id) table ≡ none
      → enqueue_identified c id pk now t table ≡ insert_row c id pk now t table
  unfolding enqueue_identified
  enqueue-new c id pk now t table h = rw (h, enqueue_identified) refl

  enqueue-known :
      (c : Enqueued E O) (id pk now : ℕ) (t : O) (table : List (OutboxRow E)) (row : OutboxRow E)
      → find (has_event_id id) table ≡ some row
      → enqueue_identified c id pk now t table ≡ compare_row c id row table
  unfolding enqueue_identified
  enqueue-known c id pk now t table row h = rw (h, enqueue_identified) refl

  abbrev made : Enqueued E O → ℕ → ℕ → ℕ → O → OutboxRow E
  made c id pk now t =
      new_row pk id now c.event_type
        (given_partition c.partition (partition_for c.event_type (time_or t c.occurred_at)))
        (c.body id (time_or t c.occurred_at))

  compare_made :
      (c : Enqueued E O) (id pk now : ℕ) (t : O) (table : List (OutboxRow E))
      → ((e : E) → equal_events e e ≡ true)
      → ((i : ℕ) (o : O) → occurred_at_of (c.body i o) ≡ o)
      → compare_row c id (made c id pk now t) table ≡ queued (made c id pk now t) table
  unfolding compare_row new_row
  compare_made c id pk now t table same reads =
      rw
        (
          same_partition c.event_type c.partition c.occurred_at t (made c id pk now t) refl,
          same_time c.occurred_at t (c.body id (time_or t c.occurred_at))
              (reads id (time_or t c.occurred_at)),
          text_eq_refl
              (given_partition c.partition (partition_for c.event_type (time_or t c.occurred_at))),
          same (c.body id (time_or t c.occurred_at)),
        )
        refl

  -- Where an event equals itself and holds the time that it was made for: a call with an event
  -- id that no row has queues a row, and the same call later, at any time, returns this row
  -- and leaves the table as it is.
  pub enqueue_audit_event-again :
      (c : Enqueued E O) (id fresh fresh' pk pk' now now' : ℕ) (t t' : O)
      (table after : List (OutboxRow E)) (row : OutboxRow E)
      → ((e : E) → equal_events e e ≡ true)
      → ((i : ℕ) (o : O) → occurred_at_of (c.body i o) ≡ o)
      → c.event_id ≡ some id
      → find (has_event_id id) table ≡ none
      → enqueue_audit_event c fresh pk now t table ≡ queued row after
      → enqueue_audit_event c fresh' pk' now' t' after ≡ queued row after
  unfolding insert_row new_row
  enqueue_audit_event-again c id fresh fresh' pk pk' now now' t t' table after row same reads e new
        h =
      let q : queued (made c id pk now t) (table ++ made c id pk now t ∷ []) ≡ queued row after =
        sym (enqueue-new c id pk now t table new)
        ∙ sym (identified c id fresh pk now t table e)
        ∙ h in
      let k : find (has_event_id id) (table ++ made c id pk now t ∷ [])
          ≡ some (made c id pk now t) =
        found id table (made c id pk now t) new refl in
      subst
        (λ r. elim r [
          | queued x xs ↦ enqueue_audit_event c fresh' pk' now' t' xs ≡ queued x xs
          | collision ↦ Unit
        ])
        q
        (identified c id fresh' pk' now' t' (table ++ made c id pk now t ∷ []) e
          ∙ enqueue-known c id pk' now' t' (table ++ made c id pk now t ∷ []) (made c id pk now t) k
          ∙ compare_made c id pk now t (table ++ made c id pk now t ∷ []) same reads)
