-- ===== src/Tests/Chains.antt =====
-- security/audit.py and security/mongo_client.py at concrete inputs.
--
-- The MACs are the names of two documents: no other document has one.
use power_adapter_blogs.Shared.{
  ℕ, String, ◌≡◌, refl, sym, ap, ◌∙◌, ◌⊎◌, inl, inr, Bool, true, false, ◌&&◌, Option, none, some,
  List, [], ◌∷◌, ◌++◌, arith, any, find, update, text_eq, text_eq_iff, if◌then◌else◌, Bool-cases,
}
use power_adapter_blogs.AuditChain.{
  ℤ, pos, negsuc, int_eq, int_gt, next_int, Unsigned, Document, event, Signing, text_is,
  unique_texts, is_nil, integrity_of, verify_document, verify_event, document_errors,
  partition_errors, partition_after, sequence_errors, sequence_after, link_errors, is_sequence,
  check_document, check_documents, Checkpoint, mac_errors, checkpoint_sequence_errors,
  checkpoint_errors, checkpoint_sequence, verify_chain,
}
use power_adapter_blogs.AuditChain.Whole.{text_is-eq}
use power_adapter_blogs.AuditChain.Evidence.{NoCollisions, same_last_mac}
use power_adapter_blogs.AuditChain.Checkpoints.{checkpoint-kept}
use power_adapter_blogs.AuditChain.Insertion.{
  Json, CanonicalEvent, Content, Head, Insertion, has_partition, sequence_of, mac_of, increment,
  set_last_mac, unsigned_event, confirm, same_event, append_signed, append, insert_event,
  store_after, insert_events, empty_store, audit_partition,
}
use power_adapter_blogs.AuditChain.Built.{insert_events-verify}

abbrev numbered : String → ℕ → Option String → Unsigned Unit
numbered id sequence previous_mac = record {
  stored_id = id;
  event_id = id;
  content = tt;
  algorithm = "HMAC-SM3";
  key_id = "k";
  partition = some "mfa";
  sequence = some (pos sequence);
  previous_mac = previous_mac;
}

abbrev first : Unsigned Unit
first = numbered "a" 1 none

abbrev second : Unsigned Unit
second = numbered "b" 2 (some "mac-a")

same_sequence : Option ℤ → Option ℤ → Bool
same_sequence none none = true
same_sequence (some m) (some n) = int_eq m n
same_sequence _ _ = false

same_sequence-eq : (m n : Option ℤ) → same_sequence m n ≡ true → m ≡ n
unfolding same_sequence int_eq
same_sequence-eq none none h = refl
same_sequence-eq none (some n) h = cc
same_sequence-eq (some m) none h = cc
same_sequence-eq (some (pos m)) (some (pos n)) h =
    let e : m ≡ n = ground arith in ap (λ k. some (pos k)) e
same_sequence-eq (some (pos m)) (some (negsuc n)) h = cc
same_sequence-eq (some (negsuc m)) (some (pos n)) h = cc
same_sequence-eq (some (negsuc m)) (some (negsuc n)) h =
    let e : m ≡ n = ground arith in ap (λ k. some (negsuc k)) e

is_document : Unsigned Unit → Unsigned Unit → Bool
unfolding same_sequence
is_document u v =
    text_eq u.stored_id v.stored_id
    && (text_eq u.event_id v.event_id
        && (text_eq u.algorithm v.algorithm
            && (text_eq u.key_id v.key_id
                && (text_is u.partition v.partition
                    && (same_sequence u.sequence v.sequence
                        && text_is u.previous_mac v.previous_mac)))))

both : (a b : Bool) → (a && b) ≡ true → (a ≡ true) × (b ≡ true)
both a b h = (ground arith, ground arith)

is_document-eq : (u v : Unsigned Unit) → is_document u v ≡ true → u ≡ v
unfolding is_document
is_document-eq u v h =
    let (a, h₁) = both _ _ h in
    let (b, h₂) = both _ _ h₁ in
    let (c, h₃) = both _ _ h₂ in
    let (d, h₄) = both _ _ h₃ in
    let (e, h₅) = both _ _ h₄ in
    let (f, g) = both _ _ h₅ in
    λ i. record {
      stored_id = (text_eq_iff u.stored_id v.stored_id).0 a i;
      event_id = (text_eq_iff u.event_id v.event_id).0 b i;
      content = tt;
      algorithm = (text_eq_iff u.algorithm v.algorithm).0 c i;
      key_id = (text_eq_iff u.key_id v.key_id).0 d i;
      partition = text_is-eq u.partition v.partition e i;
      sequence = same_sequence-eq u.sequence v.sequence f i;
      previous_mac = text_is-eq u.previous_mac v.previous_mac g i;
    }

two_macs : Unsigned Unit → Option String
two_macs u =
    if is_document u first
    then some "mac-a"
    else if is_document u second
    then some "mac-b"
    else none

abbrev some_signing : Signing Unit
some_signing = record {
  Key = Unit;
  key_of = λ id. some tt;
  legacy_key = none;
  event_mac = λ key u. two_macs u;
  legacy_mac = λ key content. none;
}

mac_cases :
    (u : Unsigned Unit) (mac : String)
    → two_macs u ≡ some mac
    → ((u ≡ first) × (mac ≡ "mac-a")) ⊎ ((u ≡ second) × (mac ≡ "mac-b"))
unfolding two_macs
mac_cases u mac h = elim (Bool-cases (is_document u first)) [
  | inl a ↦ inl (is_document-eq u first a, let q = rw a at h in cc)
  | inr a ↦ elim (Bool-cases (is_document u second)) [
    | inl b ↦ inr (is_document-eq u second b, let q = rw (a, b) at h in cc)
    | inr b ↦ absurd (let q = rw (a, b) at h in cc)
  ]
]

other_mac : (mac : String) → mac ≡ "mac-a" → mac ≡ "mac-b" → ⊥
other_mac mac a b =
    let q : text_eq "mac-a" "mac-b" ≡ true = (text_eq_iff "mac-a" "mac-b").1 (sym a ∙ b) in cc

some_signing-NoCollisions : NoCollisions some_signing
some_signing-NoCollisions key key' u u' mac h h' = elim (mac_cases u mac h) [
  | inl (e, m) ↦ elim (mac_cases u' mac h') [
    | inl (e', m') ↦ e ∙ sym e'
    | inr (e', m') ↦ absurd (other_mac mac m m')
  ]
  | inr (e, m) ↦ elim (mac_cases u' mac h') [
    | inl (e', m') ↦ absurd (other_mac mac m' m)
    | inr (e', m') ↦ e ∙ sym e'
  ]
]

abbrev one_document : List (Document Unit)
one_document = event first (some "mac-a") ∷ []

abbrev two_documents : List (Document Unit)
two_documents = event first (some "mac-a") ∷ event second (some "mac-b") ∷ []

abbrev first_checkpoint : Checkpoint some_signing
first_checkpoint = record { partition = some "mfa"; sequence = some (pos 1); mac = "mac-a" }

one_verified : (verify_chain some_signing one_document none).valid ≡ true
unfolding verify_chain check_documents check_document checkpoint_sequence checkpoint_errors
    verify_document verify_event two_macs is_document same_sequence text_is integrity_of
    document_errors partition_errors partition_after sequence_errors sequence_after link_errors
    is_sequence int_eq int_gt next_int unique_texts is_nil
one_verified = refl

one_last_mac : (verify_chain some_signing one_document none).last_mac ≡ some "mac-a"
unfolding verify_chain check_documents check_document integrity_of
one_last_mac = refl

two_verified : (verify_chain some_signing two_documents (some first_checkpoint)).valid ≡ true
unfolding verify_chain check_documents check_document checkpoint_sequence checkpoint_errors
    checkpoint_sequence_errors mac_errors verify_document verify_event two_macs is_document
    same_sequence text_is integrity_of document_errors partition_errors partition_after
    sequence_errors sequence_after link_errors is_sequence int_eq int_gt next_int unique_texts
    is_nil
two_verified = refl

checkpoint-kept_example : (tail : List (Document Unit)) × (two_documents ≡ one_document ++ tail)
checkpoint-kept_example =
    checkpoint-kept some_signing some_signing-NoCollisions refl one_document two_documents none
      first_checkpoint one_verified one_last_mac two_verified

same_last_mac_example : one_document ≡ one_document
same_last_mac_example =
    same_last_mac some_signing some_signing-NoCollisions refl one_document one_document none none
      one_verified one_verified refl

abbrev texts : Json
texts = record {
  Value = String;
  json_eq = λ a b. text_eq a b;
  normalize = λ a. a;
  is_falsy = λ a. text_eq a "";
  no_context = "{}";
  success_outcome = "success";
}

abbrev text_signing : Signing (Content texts)
text_signing = record {
  Key = Unit;
  key_of = λ id. some tt;
  legacy_key = none;
  event_mac = λ key u. some u.stored_id;
  legacy_mac = λ key content. none;
}

abbrev text_event : String → CanonicalEvent texts
text_event id = record {
  event_id = id;
  event_type = "mfa.challenge_verified";
  occurred_at = "2026-07-01";
  actor = "4";
  target = "7";
  context = "mfa-service";
  change = "";
  outcome = "success";
}

-- The second event is inserted twice.
abbrev insertions : List (Insertion text_signing "k" tt)
insertions =
    record { now = 1; partition = "mfa"; entry = text_event "a" }
    ∷ record { now = 2; partition = "mfa"; entry = text_event "b" }
    ∷ record { now = 3; partition = "mfa"; entry = text_event "b" }
    ∷ []

abbrev two_events : Head
two_events = record { partition = "mfa"; sequence = 2; last_mac = some "b" }

head_found :
    find (has_partition "mfa") (insert_events text_signing "k" tt insertions empty_store).heads
    ≡ some two_events
unfolding insert_events insert_event append append_signed unsigned_event store_after sequence_of
    mac_of increment set_last_mac find any update confirm same_event verify_document verify_event
    text_is integrity_of
head_found = refl

-- With the default limit
insert_events-verify_example :
    (audit_partition text_signing "mfa" 10000
      (some (record { partition = some "mfa"; sequence = some (pos 2); mac = "b" }))
      (insert_events text_signing "k" tt insertions empty_store)).valid
    ≡ true
insert_events-verify_example =
    insert_events-verify text_signing "k" tt insertions "mfa" 10000 two_events "b" refl head_found
      refl (omega arith)
