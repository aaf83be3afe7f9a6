-- ===== src/AuditChain/Insertion.antt =====
-- security/mongo_client.py: `insert_event`, one canonical event appended to its partition, once, and
-- the query of a partition that `audit_partition` verifies.
--
-- JSON values, their equality in Python and `_normalize` are parameters. A call is a transaction: one
-- that raises leaves the store as it was. `keyring.keys[keyring.active_key_id]` is there, since
-- `AuditKeyring` refuses an active key id without a key. The unique indexes are left out.
use power_adapter_blogs.Shared.{
  min, max, take, select, ℕ, ◌+◌, String, Bool, true, false, not, ◌&&◌, ◌||◌, Option, none, some,
  List, [], ◌∷◌, ◌++◌, ◌==◌, if◌then◌else◌, any, find, update, text_eq,
}
use power_adapter_blogs.AuditChain.{
  ℤ, int_gt, Checkpoint, ChainVerificationResult, verify_chain, pos, Unsigned, Document, legacy,
  foreign, incomplete, event, Signing, text_is, integrity_of, algorithm_name, verify_document,
}

-- `outcome or {…}` and `context or {}` read `is_falsy`.
pub record Json : Type 1 where
  pub Value : Type 0
  pub json_eq : Value → Value → Bool
  pub normalize : Value → Value
  pub is_falsy : Value → Bool
  pub no_context : Value
  pub success_outcome : Value

-- The event of an outbox row
pub record CanonicalEvent (json : Json) : Type 0 where
  pub event_id : String
  pub event_type : String
  pub occurred_at : json.Value
  pub actor : json.Value
  pub target : json.Value
  pub context : json.Value
  pub change : json.Value
  pub outcome : json.Value

-- What a stored event holds beside its ids and its integrity; `ingested_at` is the insertion's time.
pub record Content (json : Json) : Type 0 where
  pub event_type : String
  pub occurred_at : json.Value
  pub ingested_at : ℕ
  pub actor : json.Value
  pub target : json.Value
  pub context : json.Value
  pub change : json.Value
  pub outcome : json.Value

-- A document of the head collection
pub record Head : Type 0 where
  pub partition : String
  pub sequence : ℕ
  pub last_mac : Option String

pub record Stored (json : Json) : Type 0 where
  pub id : String
  pub document : Document (Content json)

pub record Store (json : Json) : Type 0 where
  pub documents : List (Stored json)
  pub heads : List Head

-- What a call comes to: `AuditDeliveryConflict`, another exception, or the document returned.
pub data Inserted (json : Json) : Type 0 where
  conflict failed : Inserted json
  inserted : Document (Content json) → Store json → Inserted json

abbrev pub has_partition : String → Head → Bool
has_partition partition head = text_eq head.partition partition

abbrev pub is_head : String → ℕ → Head → Bool
is_head partition sequence head = text_eq head.partition partition && (head.sequence == sequence)

-- The head's fields as the previous document's, with none there
unfoldable pub sequence_of : Option Head → ℕ
sequence_of none = 0
sequence_of (some head) = head.sequence

unfoldable pub mac_of : Option Head → Option String
mac_of none = none
mac_of (some head) = head.last_mac

-- `find_one_and_update(…, {"$inc": {"sequence": 1}}, upsert=True)`
unfoldable pub increment : String → List Head → List Head
increment partition heads = elim (find (has_partition partition) heads) [
  | none ↦ heads ++ record { partition = partition; sequence = 1; last_mac = none } ∷ []
  | some head ↦
      update (has_partition partition) (λ (h : Head). record h { sequence = h.sequence + 1 }) heads
]

-- `update_one(…, {"$set": {"last_mac": …}})`
unfoldable pub set_last_mac : String → ℕ → Option String → List Head → List Head
set_last_mac partition sequence mac heads =
    update (is_head partition sequence) (λ (h : Head). record h { last_mac = mac }) heads

module _ {json : Json} where
  open json use {json_eq, normalize, is_falsy, no_context, success_outcome}

  abbrev pub has_id : String → Stored json → Bool
  has_id id stored = text_eq stored.id id

  abbrev pub in_partition : String → Stored json → Bool
  in_partition partition stored = text_is (integrity_of stored.document).partition (some partition)

  -- The equality of the `IMMUTABLE_EVENT_FIELDS`. A document with no `event_type`, or with another
  -- schema version, differs.
  unfoldable pub same_event : Document (Content json) → CanonicalEvent json → Bool
  same_event (legacy complete content hmac i) e = false
  same_event (foreign i) e = false
  same_event (incomplete i) e = false
  same_event (event u mac) e =
      text_eq u.event_id e.event_id
      && (text_eq u.content.event_type e.event_type
          && (json_eq u.content.occurred_at e.occurred_at
              && (json_eq u.content.actor e.actor
                  && (json_eq u.content.target e.target
                      && (json_eq u.content.context e.context
                          && (json_eq u.content.change e.change
                              && json_eq u.content.outcome e.outcome))))))

  -- `create_signed_event`, without the MAC
  unfoldable pub unsigned_event :
      String → ℕ → String → ℕ → Option String → CanonicalEvent json → Unsigned (Content json)
  unsigned_event active_key_id now partition sequence previous_mac e = record {
    stored_id = e.event_id;
    event_id = e.event_id;
    content = record {
      event_type = e.event_type;
      occurred_at = normalize e.occurred_at;
      ingested_at = now;
      actor = normalize e.actor;
      target = normalize e.target;
      context = normalize (if is_falsy e.context then no_context else e.context);
      change = normalize e.change;
      outcome = normalize (if is_falsy e.outcome then success_outcome else e.outcome);
    };
    algorithm = algorithm_name;
    key_id = active_key_id;
    partition = some partition;
    sequence = some (pos sequence);
    previous_mac = previous_mac;
  }

module _ {json : Json} (signing : Signing (Content json)) (active_key_id : String)
    (active_key : signing.Key) where
  open signing use {event_mac}

  -- The branch of `append` for an event that is there
  unfoldable pub confirm : Stored json → CanonicalEvent json → String → Store json → Inserted json
  unfolding same_event
  confirm existing e partition store =
      if not (verify_document signing existing.document).valid
        || (not (same_event existing.document e) || not (in_partition partition existing))
      then conflict
      else inserted existing.document store

  -- Its other branch, for a document that is signed
  unfoldable pub append_signed :
      Unsigned (Content json) → String → String → ℕ → Store json → Inserted json
  unfolding increment set_last_mac
  append_signed u mac partition sequence store =
      let heads : List Head = increment partition store.heads in
      if any (is_head partition sequence) heads
      then inserted (event u (some mac)) (record {
        documents =
            store.documents ++ record { id = u.stored_id; document = event u (some mac) } ∷ [];
        heads = set_last_mac partition sequence (some mac) heads;
      })
      else conflict

  unfoldable pub append : ℕ → String → CanonicalEvent json → Store json → Inserted json
  unfolding append_signed unsigned_event sequence_of mac_of
  append now partition e store =
      let previous : Option Head = find (has_partition partition) store.heads in
      let sequence : ℕ = sequence_of previous + 1 in
      let u : Unsigned (Content json) =
        unsigned_event active_key_id now partition sequence (mac_of previous) e in
      elim (event_mac active_key u) [
        | none ↦ failed
        | some mac ↦ append_signed u mac partition sequence store
      ]

  unfoldable pub insert_event : ℕ → String → CanonicalEvent json → Store json → Inserted json
  unfolding confirm append
  insert_event now partition e store = elim (find (has_id e.event_id) store.documents) [
    | some existing ↦ confirm existing e partition store
    | none ↦ append now partition e store
  ]

  -- The store after a call
  unfoldable pub store_after : Inserted json → Store json → Store json
  store_after conflict store = store
  store_after failed store = store
  store_after (inserted document after) store = after

  pub record Insertion : Type 0 where
    pub now : ℕ
    pub partition : String
    pub entry : CanonicalEvent json

  unfoldable pub insert_events : List Insertion → Store json → Store json
  unfolding insert_event store_after
  insert_events [] store = store
  insert_events (c ∷ cs) store =
      insert_events cs (store_after (insert_event c.now c.partition c.entry store) store)

abbrev pub empty_store : {json : Json} → Store json
empty_store = record { documents = []; heads = [] }

-- `find({"integrity.partition": …})`, in the order of the insertion
unfoldable pub chain : {json : Json} → String → List (Stored json) → List (Document (Content json))
chain partition [] = []
chain partition (x ∷ xs) =
    let rest = chain partition xs in if in_partition partition x then x.document ∷ rest else rest

-- The order of the sequences, a missing one first
unfoldable pub comes_after : Option ℤ → Option ℤ → Bool
comes_after (some m) (some n) = int_gt m n
comes_after (some m) none = true
comes_after none n = false

-- `max(1, min(limit, 100000))`; a negative limit comes to what 0 does.
abbrev pub bounded : ℕ → ℕ
bounded limit = max 1 (min limit 100000)

module _ {C : Type 0} where
  -- `"integrity.sequence": {"$gt": …}`
  unfoldable pub is_after : ℕ → Document C → Bool
  is_after after document = elim (integrity_of document).sequence [
    | none ↦ false
    | some n ↦ int_gt n (pos after)
  ]

  unfoldable pub put_in_order : Document C → List (Document C) → List (Document C)
  unfolding comes_after
  put_in_order x [] = x ∷ []
  put_in_order x (y ∷ ys) =
      let rest = put_in_order x ys in
      if comes_after (integrity_of x).sequence (integrity_of y).sequence
      then y ∷ rest
      else x ∷ y ∷ ys

  -- `.sort("integrity.sequence", ASCENDING)`
  unfoldable pub in_order : List (Document C) → List (Document C)
  unfolding put_in_order
  in_order [] = []
  in_order (x ∷ xs) = put_in_order x (in_order xs)

module _ {json : Json} where
  unfoldable pub iter_partition : String → ℕ → ℕ → Store json → List (Document (Content json))
  unfolding chain is_after in_order
  iter_partition partition limit after_sequence store =
      take (bounded limit)
        (in_order (select (is_after after_sequence) (chain partition store.documents)))

  unfoldable pub audit_partition :
      (signing : Signing (Content json))
      → String
      → ℕ
      → Option (Checkpoint signing)
      → Store json
      → ChainVerificationResult
  unfolding iter_partition
  audit_partition signing partition limit checkpoint store =
      verify_chain signing (iter_partition partition limit 0 store) checkpoint
