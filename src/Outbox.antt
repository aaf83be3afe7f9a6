-- ===== src/Outbox.antt =====
-- security/outbox.py: events wait in a table, a worker claims one under a lease, and the lease's token
-- guards what it writes back.
--
-- A table is the list of its rows. `uuid4()` and the clock are arguments: the token and the time.
pub mod Health
pub mod Batch
pub mod Enqueue
pub mod System
pub mod Leases
pub mod Final
pub mod Attempts
pub mod Progress
use power_adapter_blogs.Shared.{
  ℕ, zero, suc, ◌+◌, ◌^◌, min, max, String, Bool, true, false, not, ◌&&◌, ◌||◌, Option, none, some,
  List, [], ◌∷◌, ◌==◌, leb, ltb, if◌then◌else◌, any, select, update, text_eq,
}
use power_adapter_blogs.Text.{is_empty}

-- `AuditOutbox.Status`
pub data OutboxStatus : Type 0 where
  outbox_pending processing delivered dead : OutboxStatus

unfoldable pub is_waiting : OutboxStatus → Bool
is_waiting outbox_pending = true
is_waiting _ = false

unfoldable pub is_processing : OutboxStatus → Bool
is_processing processing = true
is_processing _ = false

unfoldable pub is_delivered : OutboxStatus → Bool
is_delivered delivered = true
is_delivered _ = false

unfoldable pub is_dead : OutboxStatus → Bool
is_dead dead = true
is_dead _ = false

-- A row of `AuditOutbox`. `event` is the canonical JSON value, of any type `E`.
pub record OutboxRow (E : Type 0) : Type 0 where
  pub pk : ℕ
  pub event_id : ℕ
  pub event_type : String
  pub partition : String
  pub event : E
  pub status : OutboxStatus
  pub attempts : ℕ
  pub next_attempt_at : ℕ
  pub locked_at : Option ℕ
  pub lock_token : Option ℕ
  pub last_error_code : String
  pub created_at : ℕ
  pub delivered_at : Option ℕ
  pub delivery_sequence : Option ℕ
  pub delivery_mac : String

-- What the writer returns: `none` for a sequence that is no integer or a negative one, and for a text
-- that is none.
pub data Receipt : Type 0 where
  no_mapping no_integrity : Receipt
  integrity : (sequence : Option ℕ) (mac partition : Option String) → Receipt

-- `writer.insert_event(…)`: it raises an exception of this class, or returns.
pub data Answer : Type 0 where
  raised : String → Answer
  returned : Receipt → Answer

-- `_validated_receipt`, with the text that `InvalidAuditReceipt` carries
pub data Validated : Type 0 where
  invalid : String → Validated
  valid : (sequence : ℕ) (mac : String) → Validated

unfoldable pub validated_receipt : Receipt → String → Validated
validated_receipt no_mapping expected_partition = invalid "missing_receipt"
validated_receipt no_integrity expected_partition = invalid "missing_integrity"
validated_receipt (integrity none mac partition) expected_partition = invalid "invalid_sequence"
validated_receipt (integrity (some n) none partition) expected_partition =
    if ltb n 1 then invalid "invalid_sequence" else invalid "invalid_mac"
validated_receipt (integrity (some n) (some mac) none) expected_partition =
    if ltb n 1
    then invalid "invalid_sequence"
    else if is_empty mac
    then invalid "invalid_mac"
    else invalid "partition_mismatch"
validated_receipt (integrity (some n) (some mac) (some partition)) expected_partition =
    if ltb n 1
    then invalid "invalid_sequence"
    else if is_empty mac
    then invalid "invalid_mac"
    else if not (text_eq partition expected_partition)
    then invalid "partition_mismatch"
    else valid n mac

-- `text[:n]`
unfoldable pub take_text : ℕ → String → String
take_text zero s = String.[]
take_text (suc n) String.[] = String.[]
take_text (suc n) (String.◌∷◌ c s) = String.◌∷◌ c (take_text n s)

-- How a delivery went: the receipt's numbers, or the class of the exception.
pub data Delivery : Type 0 where
  succeeded : (sequence : ℕ) (mac : String) → Delivery
  failed_with : String → Delivery

unfoldable pub delivery_of : Answer → String → Delivery
unfolding validated_receipt
delivery_of (raised name) partition = failed_with name
delivery_of (returned receipt) partition = elim (validated_receipt receipt partition) [
  | invalid reason ↦ failed_with "InvalidAuditReceipt"
  | valid sequence mac ↦ succeeded sequence mac
]

-- `min(3600, 2 ** min(attempts, 12))`
unfoldable pub backoff_seconds : ℕ → ℕ
backoff_seconds attempts = min 3600 (2 ^ min attempts 12)

-- The lease is over: `t <= now - max(30, lease_seconds)`, or there is no time.
unfoldable pub is_stale : ℕ → ℕ → Option ℕ → Bool
is_stale now lease_seconds none = true
is_stale now lease_seconds (some t) = leb (t + max 30 lease_seconds) now

unfoldable pub has_token : ℕ → Option ℕ → Bool
has_token token none = false
has_token token (some t) = t == token

unfoldable pub is_terminal : ℕ → ℕ → Bool
is_terminal attempts max_attempts = leb (max 1 max_attempts) attempts

module _ {E : Type 0} where
  -- The filter of `_claim_one`
  unfoldable pub is_claimable : ℕ → ℕ → OutboxRow E → Bool
  unfolding is_waiting is_processing is_stale
  is_claimable now lease_seconds row =
      (is_waiting row.status && leb row.next_attempt_at now)
      || (is_processing row.status && is_stale now lease_seconds row.locked_at)

  -- `order_by("created_at", "pk")`
  unfoldable pub is_before : OutboxRow E → OutboxRow E → Bool
  is_before a b = ltb a.created_at b.created_at || (a.created_at == b.created_at && ltb a.pk b.pk)

  unfoldable pub earliest : List (OutboxRow E) → Option (OutboxRow E)
  earliest [] = none
  earliest (x ∷ xs) = elim (earliest xs) [
    | none ↦ some x
    | some y ↦ if is_before y x then some y else some x
  ]

  unfoldable pub lease : ℕ → ℕ → OutboxRow E → OutboxRow E
  lease now token row = record row {
    status = processing;
    locked_at = some now;
    lock_token = some token;
  }

  abbrev pub has_row_pk : ℕ → OutboxRow E → Bool
  has_row_pk id row = row.pk == id

  -- `_claim_one`: the claimed row as the worker holds it, and the table.
  unfoldable pub claim_one :
      ℕ → ℕ → ℕ → List (OutboxRow E) → Option (OutboxRow E × List (OutboxRow E))
  claim_one now lease_seconds token table =
      elim (earliest (select (is_claimable now lease_seconds) table)) [
        | none ↦ none
        | some row ↦ some (lease now token row, update (has_row_pk row.pk) (lease now token) table)
      ]

  -- `filter(pk=row.pk, status=PROCESSING, lock_token=token)`
  unfoldable pub holds_lease : ℕ → ℕ → OutboxRow E → Bool
  unfolding is_processing has_token
  holds_lease id token row =
      row.pk == id && (is_processing row.status && has_token token row.lock_token)

  -- The values that an `update` of a claimed row writes, after a failure and after a success
  unfoldable pub write_failure : OutboxRow E → String → ℕ → ℕ → OutboxRow E → OutboxRow E
  unfolding is_terminal backoff_seconds take_text
  write_failure claimed name max_attempts later row =
      let attempts : ℕ = claimed.attempts + 1 in
      record row {
        status = if is_terminal attempts max_attempts then dead else outbox_pending;
        attempts = attempts;
        last_error_code = take_text 64 name;
        lock_token = none;
        locked_at = none;
        next_attempt_at = later + backoff_seconds attempts;
      }

  unfoldable pub write_success : OutboxRow E → ℕ → String → ℕ → OutboxRow E → OutboxRow E
  write_success claimed sequence mac later row = record row {
    status = delivered;
    attempts = claimed.attempts + 1;
    last_error_code = "";
    lock_token = none;
    locked_at = none;
    delivered_at = some later;
    delivery_sequence = some sequence;
    delivery_mac = mac;
  }

  unfoldable pub write_back : OutboxRow E → Delivery → ℕ → ℕ → OutboxRow E → OutboxRow E
  unfolding write_failure write_success
  write_back claimed (failed_with name) max_attempts later =
      write_failure claimed name max_attempts later
  write_back claimed (succeeded sequence mac) max_attempts later =
      write_success claimed sequence mac later

  -- What follows a claim: the guarded update, and whether it found its row.
  unfoldable pub settle :
      OutboxRow E → ℕ → Delivery → ℕ → ℕ → List (OutboxRow E) → Bool × List (OutboxRow E)
  settle claimed token delivery max_attempts later table = (
    any (holds_lease claimed.pk token) table,
    update (holds_lease claimed.pk token) (write_back claimed delivery max_attempts later) table,
  )
