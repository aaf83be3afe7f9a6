-- ===== src/AuditChain.antt =====
-- security/audit.py: signed audit documents, and the verification of a partition's chain.
--
-- A document is JSON, seen as far as the verification looks at it. The HMAC of a document's canonical
-- bytes is a parameter, and so are the keys.
pub mod Whole
pub mod Evidence
pub mod Checkpoints
pub mod Forgery
pub mod Insertion
pub mod Heads
pub mod Intact
pub mod Ordered
pub mod Built
use power_adapter_blogs.Shared.{
  ℕ, zero, suc, String, Bool, true, false, not, ◌&&◌, ◌||◌, Option, none, some, List, [], ◌∷◌, ◌++◌,
  ◌==◌, ltb, if◌then◌else◌, any, text_eq,
}

-- An integer of a JSON document: `negsuc n` is `-1 - n`.
pub data ℤ : Type 0 where
  pos negsuc : ℕ → ℤ

unfoldable pub next_int : ℤ → ℤ
next_int (pos n) = pos (suc n)
next_int (negsuc zero) = pos zero
next_int (negsuc (suc n)) = negsuc n

unfoldable pub int_eq : ℤ → ℤ → Bool
int_eq (pos m) (pos n) = m == n
int_eq (negsuc m) (negsuc n) = m == n
int_eq _ _ = false

unfoldable pub int_gt : ℤ → ℤ → Bool
int_gt (pos m) (pos n) = ltb n m
int_gt (pos m) (negsuc n) = true
int_gt (negsuc m) (pos n) = false
int_gt (negsuc m) (negsuc n) = ltb m n

-- The `integrity` mapping, where an entry of another type, or none, is `none`. An `integrity` that is
-- no mapping, at which the source raises, is left out.
pub record Integrity : Type 0 where
  pub partition : Option String
  pub sequence : Option ℤ
  pub previous_mac : Option String
  pub mac : Option String

-- The fields that the MAC is computed over: the document without its MAC. `C` holds the rest.
pub record Unsigned (C : Type 0) : Type 0 where
  pub stored_id : String
  pub event_id : String
  pub content : C
  pub algorithm : String
  pub key_id : String
  pub partition : Option String
  pub sequence : Option ℤ
  pub previous_mac : Option String

pub data Document (C : Type 0) : Type 0 where
  -- no `schema_version`; whether `action`, `data` and `hmac` are there, the latter two, and the
  -- `integrity` that such a document may hold as well
  legacy : (complete : Bool) (content : C) (hmac : String) → Integrity → Document C
  -- a `schema_version` that is not supported
  foreign : Integrity → Document C
  -- a required field of the document or of its `integrity` is missing
  incomplete : Integrity → Document C
  event : Unsigned C → (mac : Option String) → Document C

-- `AuditKeyring` and the HMAC; `none` is the `TypeError` or `ValueError` of the canonical encoding.
pub record Signing (C : Type 0) : Type 1 where
  pub Key : Type 0
  pub key_of : String → Option Key
  pub legacy_key : Option Key
  pub event_mac : Key → Unsigned C → Option String
  pub legacy_mac : Key → C → Option String

abbrev pub algorithm_name : String
algorithm_name = "HMAC-SM3"

unfoldable pub text_is : Option String → Option String → Bool
text_is none none = true
text_is (some s) (some t) = text_eq s t
text_is _ _ = false

module _ {C : Type 0} where
  unfoldable pub integrity_of : Document C → Integrity
  integrity_of (legacy complete content hmac i) = i
  integrity_of (foreign i) = i
  integrity_of (incomplete i) = i
  integrity_of (event u mac) = record {
    partition = u.partition;
    sequence = u.sequence;
    previous_mac = u.previous_mac;
    mac = mac;
  }

-- `VerificationResult.valid` and `.reason`
pub record VerificationResult : Type 0 where
  pub valid : Bool
  pub reason : String

abbrev pub refused : String → VerificationResult
refused reason = record { valid = false; reason = reason }

abbrev pub compared : Bool → VerificationResult
compared valid = record { valid = valid; reason = if valid then "ok" else "mac_mismatch" }

pub record ChainVerificationResult : Type 0 where
  pub valid : Bool
  pub errors : List String
  pub last_sequence : ℤ
  pub last_mac : Option String

-- `tuple(dict.fromkeys(errors))`
unfoldable pub unique_texts : List String → List String → List String
unique_texts seen [] = []
unique_texts seen (x ∷ xs) =
    if any (text_eq x) seen then unique_texts seen xs else x ∷ unique_texts (x ∷ seen) xs

unfoldable pub is_nil : List String → Bool
is_nil [] = true
is_nil (x ∷ xs) = false

module _ {C : Type 0} (signing : Signing C) where
  open signing use {Key, key_of, legacy_key, event_mac, legacy_mac}

  unfoldable pub verify_legacy : C → String → Option Key → VerificationResult
  verify_legacy content hmac none = refused "unknown_key_id"
  verify_legacy content hmac (some key) = elim (legacy_mac key content) [
    | none ↦ refused "invalid_encoding"
    | some expected ↦ compared (text_eq hmac expected)
  ]

  unfoldable pub verify_event : Unsigned C → Option String → Option Key → VerificationResult
  verify_event u mac none = refused "unknown_key_id"
  verify_event u mac (some key) = elim (event_mac key u) [
    | none ↦ refused "invalid_encoding"
    | some expected ↦ elim mac [
      | none ↦ refused "invalid_mac"
      | some supplied ↦ compared (text_eq supplied expected)
    ]
  ]

  unfoldable pub verify_document : Document C → VerificationResult
  unfolding verify_legacy verify_event
  verify_document (legacy complete content hmac i) =
      if not complete then refused "missing_fields" else verify_legacy content hmac legacy_key
  verify_document (foreign i) = refused "unsupported_schema"
  verify_document (incomplete i) = refused "missing_fields"
  verify_document (event u mac) =
      if not (text_eq u.stored_id u.event_id)
      then refused "id_mismatch"
      else if not (text_eq u.algorithm algorithm_name)
      then refused "unsupported_algorithm"
      else verify_event u mac (key_of u.key_id)

  -- The variables of the loop of `verify_chain`
  pub record ChainState : Type 0 where
    pub errors : List String
    pub previous_mac : Option String
    pub previous_sequence : ℤ
    pub partition : Option String
    pub observed_mac : Option String

  abbrev pub start : ChainState
  start = record {
    errors = [];
    previous_mac = none;
    previous_sequence = pos 0;
    partition = none;
    observed_mac = none;
  }

  -- The errors that one document adds, in order
  unfoldable pub document_errors : VerificationResult → List String
  document_errors result = if not result.valid then result.reason ∷ [] else []

  unfoldable pub partition_errors : Option String → Option String → List String
  partition_errors none current = []
  partition_errors (some p) current =
      if text_is current (some p) then [] else "partition_mismatch" ∷ []

  unfoldable pub partition_after : Option String → Option String → Option String
  partition_after none current = current
  partition_after (some p) current = some p

  unfoldable pub sequence_errors : ℤ → Option ℤ → List String
  sequence_errors previous none = "sequence_mismatch" ∷ []
  sequence_errors previous (some n) =
      if int_eq n (next_int previous)
      then []
      else (if int_gt n previous then "sequence_gap" else "sequence_mismatch") ∷ []

  unfoldable pub sequence_after : ℤ → Option ℤ → ℤ
  sequence_after previous none = previous
  sequence_after previous (some n) = n

  unfoldable pub link_errors : Option String → Option String → List String
  link_errors previous current =
      if text_is current previous then [] else "previous_mac_mismatch" ∷ []

  unfoldable pub is_sequence : Option ℤ → Option ℤ → Bool
  is_sequence none none = true
  is_sequence (some m) (some n) = int_eq m n
  is_sequence _ _ = false

  -- One round of the loop; `checkpoint` is the checkpoint's sequence.
  unfoldable pub check_document : Option ℤ → ChainState → Document C → ChainState
  unfolding document_errors partition_errors partition_after sequence_errors sequence_after
      link_errors is_sequence integrity_of
  check_document checkpoint st document =
      let i : Integrity = integrity_of document in
      record {
        errors =
            st.errors
            ++ (document_errors (verify_document document)
                ++ (partition_errors st.partition i.partition
                    ++ (sequence_errors st.previous_sequence i.sequence
                        ++ link_errors st.previous_mac i.previous_mac)));
        previous_mac = i.mac;
        previous_sequence = sequence_after st.previous_sequence i.sequence;
        partition = partition_after st.partition i.partition;
        observed_mac = if is_sequence i.sequence checkpoint then i.mac else st.observed_mac;
      }

  unfoldable pub check_documents : Option ℤ → ChainState → List (Document C) → ChainState
  check_documents checkpoint st [] = st
  check_documents checkpoint st (d ∷ ds) =
      check_documents checkpoint (check_document checkpoint st d) ds

  -- A checkpoint; a sequence that is no integer is `none`, and so is a MAC that is not there.
  pub record Checkpoint : Type 0 where
    pub partition : Option String
    pub sequence : Option ℤ
    pub mac : String

  unfoldable pub mac_errors : String → Option String → List String
  mac_errors mac none = "checkpoint_sequence_missing" ∷ []
  mac_errors mac (some observed) =
      if text_eq mac observed then [] else "checkpoint_mac_mismatch" ∷ []

  unfoldable pub checkpoint_sequence_errors : Option ℤ → String → ChainState → List String
  unfolding mac_errors
  checkpoint_sequence_errors none mac st = "checkpoint_sequence_invalid" ∷ []
  checkpoint_sequence_errors (some n) mac st =
      if not (int_gt n (pos 0))
      then "checkpoint_sequence_invalid" ∷ []
      else if int_gt n st.previous_sequence
      then "tail_truncated" ∷ []
      else mac_errors mac st.observed_mac

  unfoldable pub checkpoint_errors : Option Checkpoint → ChainState → List String
  unfolding checkpoint_sequence_errors
  checkpoint_errors none st = []
  checkpoint_errors (some c) st =
      (if text_is c.partition st.partition then [] else "checkpoint_partition_mismatch" ∷ [])
      ++ checkpoint_sequence_errors c.sequence c.mac st

  unfoldable pub checkpoint_sequence : Option Checkpoint → Option ℤ
  checkpoint_sequence none = none
  checkpoint_sequence (some c) = c.sequence

  unfoldable pub verify_chain : List (Document C) → Option Checkpoint → ChainVerificationResult
  unfolding checkpoint_errors checkpoint_sequence check_documents is_nil unique_texts
  verify_chain documents checkpoint =
      let st : ChainState = check_documents (checkpoint_sequence checkpoint) start documents in
      let errors : List String = unique_texts [] (st.errors ++ checkpoint_errors checkpoint st) in
      record {
        valid = is_nil errors;
        errors = errors;
        last_sequence = st.previous_sequence;
        last_mac = st.previous_mac;
      }
