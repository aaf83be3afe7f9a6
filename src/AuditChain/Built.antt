-- ===== src/AuditChain/Built.antt =====
-- security/mongo_client.py and security/audit.py: any calls of `insert_event`, and the verification of
-- what they have stored.
use power_adapter_blogs.Shared.{
  ℕ, ◌+◌, ◌<◌, ◌≤◌, String, ◌≡◌, refl, sym, inl, inr, true, false, Option, none, some, List, [],
  ◌∷◌, arith, any, find, text_eq, text_eq_iff, text_eq_refl, Bool-cases, Option-cases,
}
use mathlib.Core.Path.{subst}
use power_adapter_blogs.AuditChain.{
  ℤ, pos, Unsigned, Signing, ChainState, check_documents, is_nil, unique_texts, int_gt, mac_errors,
  checkpoint_errors, checkpoint_sequence_errors, checkpoint_sequence, verify_chain,
}
use power_adapter_blogs.AuditChain.Whole.{text_is_refl}
use power_adapter_blogs.AuditChain.Insertion.{
  Json, CanonicalEvent, Content, Head, Stored, Store, has_partition, is_head, sequence_of, mac_of,
  unsigned_event, chain, has_id, increment, Inserted, confirm, append_signed, append, insert_event,
  store_after, insert_events, Insertion, empty_store, bounded, audit_partition,
}
use power_adapter_blogs.AuditChain.Ordered.{iter_partition-chain}
use power_adapter_blogs.AuditChain.Intact.{
  Follows, Intact, appended, own_appended, other_appended, partition_of,
}

module _ {json : Json} (signing : Signing (Content json)) (active_key_id : String)
    (active_key : signing.Key) (known : signing.key_of active_key_id ≡ some active_key) where
  open signing use {event_mac}

  append_signed-Intact :
      (p q : String) (n : ℕ) (k : Option ℤ) (u : Unsigned (Content json)) (mac : String)
      (store : Store json)
      → Intact signing p k store
      → Intact signing p k (appended signing q n u mac store)
      → Intact signing p k (
          store_after signing active_key_id active_key
            (append_signed signing active_key_id active_key u mac q n store)
            store)
  unfolding append_signed store_after appended
  append_signed-Intact p q n k u mac store before after =
      elim (Bool-cases (any (is_head q n) (increment q store.heads))) [
        | inl t ↦ rw t after
        | inr f ↦ rw f before
      ]

  abbrev next_event : ℕ → String → CanonicalEvent json → Store json → Unsigned (Content json)
  next_event now q e store =
      unsigned_event active_key_id now q (sequence_of (find (has_partition q) store.heads) + 1)
        (mac_of (find (has_partition q) store.heads)) e

  abbrev next_store : ℕ → String → CanonicalEvent json → String → Store json → Store json
  next_store now q e mac store =
      appended signing q (sequence_of (find (has_partition q) store.heads) + 1)
        (next_event now q e store) mac store

  own-Intact :
      (p : String) (now : ℕ) (k : Option ℤ) (e : CanonicalEvent json) (mac : String)
      (store : Store json)
      → event_mac active_key (next_event now p e store) ≡ some mac
      → Intact signing p k store
      → Intact signing p k (next_store now p e mac store)
  unfolding unsigned_event
  own-Intact p now k e mac store signed before =
      own_appended signing p k (next_event now p e store) mac store before (record {
        same_id = refl;
        algorithm = refl;
        key = active_key;
        known_key = known;
        signed = signed;
        partition = refl;
        sequence = refl;
        previous_mac = refl;
      })

  appended-Intact :
      (p q : String) (now : ℕ) (k : Option ℤ) (e : CanonicalEvent json) (mac : String)
      (store : Store json)
      → event_mac active_key (next_event now q e store) ≡ some mac
      → Intact signing p k store
      → Intact signing p k (next_store now q e mac store)
  unfolding unsigned_event
  appended-Intact p q now k e mac store signed before = elim (Bool-cases (text_eq q p)) [
    | inl t ↦
        let same : q ≡ p = (text_eq_iff q p).0 t in
        subst
          (λ r.
            event_mac active_key (next_event now r e store) ≡ some mac
            → Intact signing p k (next_store now r e mac store))
          (sym same) (λ h. own-Intact p now k e mac store h before) signed
    | inr f ↦ other_appended signing p q _ k _ mac store f refl before
  ]

  append-failed :
      (q : String) (now : ℕ) (e : CanonicalEvent json) (store : Store json)
      → event_mac active_key (next_event now q e store) ≡ none
      → append signing active_key_id active_key now q e store ≡ Inserted.failed
  unfolding append
  append-failed q now e store h = rw (h, append) refl

  append-signed :
      (q : String) (now : ℕ) (e : CanonicalEvent json) (mac : String) (store : Store json)
      → event_mac active_key (next_event now q e store) ≡ some mac
      → append signing active_key_id active_key now q e store
        ≡ append_signed signing active_key_id active_key
            (next_event now q e store)
            mac
            q
            (sequence_of (find (has_partition q) store.heads) + 1)
            store
  unfolding append
  append-signed q now e mac store h = rw (h, append) refl

  append-Intact :
      (p q : String) (now : ℕ) (k : Option ℤ) (e : CanonicalEvent json) (store : Store json)
      → Intact signing p k store
      → Intact signing p k (
          store_after signing active_key_id active_key
            (append signing active_key_id active_key now q e store)
            store)
  unfolding store_after
  append-Intact p q now k e store before =
      elim (Option-cases (event_mac active_key (next_event now q e store))) [
        | inl n ↦ rw (append-failed q now e store n) before
        | inr (mac, signed) ↦ rw (append-signed q now e mac store signed) (
            append_signed-Intact p q _ k _ mac store before
              (appended-Intact p q now k e mac store signed before))
      ]

  confirm-same :
      (existing : Stored json) (e : CanonicalEvent json) (q : String) (store : Store json)
      → store_after signing active_key_id active_key
          (confirm signing active_key_id active_key existing e q store)
          store
        ≡ store
  unfolding confirm store_after
  confirm-same existing e q store = ground arith

  insert-new :
      (q : String) (now : ℕ) (e : CanonicalEvent json) (store : Store json)
      → find (has_id e.event_id) store.documents ≡ none
      → insert_event signing active_key_id active_key now q e store
        ≡ append signing active_key_id active_key now q e store
  unfolding insert_event
  insert-new q now e store h = rw (h, insert_event) refl

  insert-known :
      (q : String) (now : ℕ) (e : CanonicalEvent json) (existing : Stored json) (store : Store json)
      → find (has_id e.event_id) store.documents ≡ some existing
      → insert_event signing active_key_id active_key now q e store
        ≡ confirm signing active_key_id active_key existing e q store
  unfolding insert_event
  insert-known q now e existing store h = rw (h, insert_event) refl

  insert-Intact :
      (p q : String) (now : ℕ) (k : Option ℤ) (e : CanonicalEvent json) (store : Store json)
      → Intact signing p k store
      → Intact signing p k (
          store_after signing active_key_id active_key
            (insert_event signing active_key_id active_key now q e store)
            store)
  insert-Intact p q now k e store before =
      elim (Option-cases (find (has_id e.event_id) store.documents)) [
        | inl n ↦ rw (insert-new q now e store n) (append-Intact p q now k e store before)
        | inr (existing, found) ↦
            rw (insert-known q now e existing store found, confirm-same existing e q store) before
      ]

  inserts-Intact :
      (p : String) (k : Option ℤ) (calls : List (Insertion signing active_key_id active_key))
      (store : Store json)
      → Intact signing p k store
      → Intact signing p k (insert_events signing active_key_id active_key calls store)
  unfolding insert_events
  inserts-Intact p k [] store before = before
  inserts-Intact p k (c ∷ cs) store before =
      inserts-Intact p k cs
        (store_after signing active_key_id active_key
          (insert_event signing active_key_id active_key c.now c.partition c.entry store) store)
        (insert-Intact p c.partition c.now k c.entry store before)

  empty-Intact : (p : String) (k : Option ℤ) → Intact signing p k (empty_store {json = json})
  unfolding chain check_documents sequence_of mac_of partition_of find
  empty-Intact p k = record {
    no_errors = refl;
    mac = refl;
    sequence = refl;
    partition = refl;
    observed = λ e. refl;
    counted = λ g e. absurd cc;
  }

int_gt-pos : (n : ℕ) → 0 < n → int_gt (pos n) (pos 0) ≡ true
unfolding int_gt
int_gt-pos n h = ground arith

int_gt-same : (n : ℕ) → int_gt (pos n) (pos n) ≡ false
unfolding int_gt
int_gt-same n = ground arith

own_checkpoint :
    {json : Json} (signing : Signing (Content json)) (p : String) (st : ChainState signing)
    (h : Head) (mac : String)
    → Follows signing p (some (pos h.sequence)) st (some h)
    → h.last_mac ≡ some mac
    → checkpoint_errors signing
        (some (record { partition = some p; sequence = some (pos h.sequence); mac = mac }))
        st
      ≡ []
unfolding checkpoint_errors checkpoint_sequence_errors mac_errors partition_of sequence_of mac_of
own_checkpoint signing p st h mac f m =
    rw
      (
        f.partition,
        text_is_refl (some p),
        int_gt-pos h.sequence (f.counted h refl),
        f.sequence,
        int_gt-same h.sequence,
        f.observed refl,
        m,
        text_eq_refl mac,
      )
      refl

-- Where the active key is in the keyring, what any calls of insert_event have stored of a
-- partition, from an empty store, passes audit_partition with the checkpoint of the partition's
-- head, whether or not some of the calls raise or repeat an event, as long as the head's
-- sequence is at most max(1, min(limit, 100000)).
pub insert_events-verify :
    {json : Json} (signing : Signing (Content json)) (active_key_id : String)
    (active_key : signing.Key) (calls : List (Insertion signing active_key_id active_key))
    (p : String) (limit : ℕ) (h : Head) (mac : String)
    → signing.key_of active_key_id ≡ some active_key
    → find
        (has_partition p)
        (insert_events signing active_key_id active_key calls empty_store).heads
      ≡ some h
    → h.last_mac ≡ some mac
    → h.sequence ≤ bounded limit
    → ((audit_partition signing p limit
          (some (record { partition = some p; sequence = some (pos h.sequence); mac = mac }))
          (insert_events signing active_key_id active_key calls empty_store)).valid
        ≡ true)
unfolding audit_partition verify_chain checkpoint_sequence is_nil unique_texts sequence_of
insert_events-verify {json} signing active_key_id active_key calls p limit h mac known found m
      small =
    let store : Store json = insert_events signing active_key_id active_key calls empty_store in
    let k : Option ℤ = some (pos h.sequence) in
    let f : Intact signing p k store =
      inserts-Intact signing active_key_id active_key known p k calls empty_store
        (empty-Intact signing active_key_id active_key known p k) in
    let g : Follows signing p k _ (some h) = rw found at f in
    rw
      (
        iter_partition-chain signing k p limit h.sequence store g.no_errors g.sequence small,
        g.no_errors,
        own_checkpoint signing p _ h mac g m,
      )
      refl
