-- ===== src/AuditChain/Intact.antt =====
-- security/mongo_client.py and security/audit.py: the chains that `insert_event` builds, verified.
use power_adapter_blogs.Shared.{
  ℕ, ◌+◌, ◌<◌, String, ◌≡◌, refl, sym, ap, inl, inr, true, false, Option, none, some, List, [], ◌∷◌,
  ◌++◌, arith, find, text_eq, text_eq_refl, Bool-cases, ==-refl,
}
use power_adapter_blogs.AuditChain.{
  ℤ, pos, Unsigned, event, Signing, text_is, integrity_of, verify_document, verify_event,
  ChainState, start, document_errors, partition_errors, sequence_errors, link_errors,
  check_document, int_eq, next_int, is_sequence, partition_after, sequence_after,
}
use power_adapter_blogs.AuditChain.Whole.{check_documents-append, checked, text_is_refl}
use power_adapter_blogs.AuditChain.Heads.{own_increment, own_set, other_increment, other_set}
use power_adapter_blogs.AuditChain.Insertion.{
  Json, Content, Head, Stored, Store, has_partition, sequence_of, mac_of, increment, set_last_mac,
  in_partition, chain,
}

-- The chain of partition `p` and its head, after the documents so far.
module _ {json : Json} (signing : Signing (Content json)) where
  open signing use {Key, key_of, event_mac}

  unfoldable pub partition_of : String → Option Head → Option String
  partition_of p none = none
  partition_of p (some h) = some p

  pub record Follows (p : String) (k : Option ℤ) (st : ChainState signing) (h : Option Head)
      : Type 0 where
    pub no_errors : st.errors ≡ []
    pub mac : st.previous_mac ≡ mac_of h
    pub sequence : st.previous_sequence ≡ pos (sequence_of h)
    pub partition : st.partition ≡ partition_of p h
    pub observed : k ≡ some (pos (sequence_of h)) → st.observed_mac ≡ mac_of h
    pub counted : (g : Head) → h ≡ some g → 0 < g.sequence

  pub record Signs (p : String) (h : Option Head) (u : Unsigned (Content json)) (mac : String)
      : Type 0 where
    pub same_id : u.stored_id ≡ u.event_id
    pub algorithm : u.algorithm ≡ "HMAC-SM3"
    pub key : Key
    pub known_key : key_of u.key_id ≡ some key
    pub signed : event_mac key u ≡ some mac
    pub partition : u.partition ≡ some p
    pub sequence : u.sequence ≡ some (pos (sequence_of h + 1))
    pub previous_mac : u.previous_mac ≡ mac_of h

  event_valid :
      (key : Key) (u : Unsigned (Content json)) (mac : String)
      → event_mac key u ≡ some mac
      → (verify_event signing u (some mac) (some key)).valid ≡ true
  unfolding verify_event
  event_valid key u mac e = rw (e, verify_event, text_eq_refl mac) refl

  signed_valid :
      (p : String) (h : Option Head) (u : Unsigned (Content json)) (mac : String)
      → Signs p h u mac
      → (verify_document signing (event u (some mac))).valid ≡ true
  unfolding verify_document
  signed_valid p h u mac s =
      let same : text_eq u.stored_id u.event_id ≡ true = rw s.same_id (text_eq_refl u.event_id) in
      let algorithm : text_eq u.algorithm "HMAC-SM3" ≡ true = rw s.algorithm refl in
      rw (same, algorithm, s.known_key) (event_valid s.key u mac s.signed)

  next_sequence : (n : ℕ) → int_eq (pos (n + 1)) (next_int (pos n)) ≡ true
  unfolding int_eq next_int
  next_sequence n = ground arith

  partition_errors-same :
      (p : String) (h : Option Head) → partition_errors signing (partition_of p h) (some p) ≡ []
  unfolding partition_errors partition_of
  partition_errors-same p none = refl
  partition_errors-same p (some h) = rw (text_is_refl (some p)) refl

  partition_after-same :
      (p : String) (h : Option Head) → partition_after signing (partition_of p h) (some p) ≡ some p
  unfolding partition_after partition_of
  partition_after-same p none = refl
  partition_after-same p (some h) = refl

  no_new_errors :
      (p : String) (k : Option ℤ) (st : ChainState signing) (h : Option Head)
      (u : Unsigned (Content json)) (mac : String)
      → Follows p k st h
      → Signs p h u mac
      → (check_document signing k st (event u (some mac))).errors ≡ []
  unfolding check_document integrity_of document_errors sequence_errors link_errors
  no_new_errors p k st h u mac f s =
      rw
        (
          f.no_errors,
          signed_valid p h u mac s,
          f.partition,
          s.partition,
          partition_errors-same p h,
          f.sequence,
          s.sequence,
          next_sequence (sequence_of h),
          f.mac,
          s.previous_mac,
          text_is_refl (mac_of h),
        )
        refl

  pub check-Follows :
      (p : String) (k : Option ℤ) (st : ChainState signing) (h : Option Head)
      (u : Unsigned (Content json)) (mac : String) (g : Head)
      → Follows p k st h
      → Signs p h u mac
      → g.sequence ≡ sequence_of h + 1
      → g.last_mac ≡ some mac
      → Follows p k (check_document signing k st (event u (some mac))) (some g)
  unfolding check_document integrity_of sequence_after sequence_of mac_of is_sequence int_eq
      partition_of
  check-Follows p k st h u mac g f s n m = record {
    no_errors = no_new_errors p k st h u mac f s;
    mac = sym m;
    sequence = rw (s.sequence, n) refl;
    partition = rw (f.partition, s.partition) (partition_after-same p h);
    observed = λ e. rw (e, s.sequence, n, ==-refl (sequence_of h + 1)) (sym m);
    counted = λ g' e. let same : g.sequence ≡ g'.sequence = cc in omega arith;
  }

  abbrev pub Intact : String → Option ℤ → Store json → Type 0
  Intact p k store =
      Follows p k (checked signing k (chain p store.documents)) (find (has_partition p) store.heads)

  chain-inside :
      (p : String) (xs : List (Stored json)) (y : Stored json)
      → in_partition p y ≡ true
      → chain p (xs ++ y ∷ []) ≡ chain p xs ++ y.document ∷ []
  unfolding chain
  chain-inside p [] y h = rw h refl
  chain-inside p (x ∷ xs) y h = elim (Bool-cases (in_partition p x)) [
    | inl t ↦ rw t (ap (λ ds. x.document ∷ ds) (chain-inside p xs y h))
    | inr f ↦ rw f (chain-inside p xs y h)
  ]

  chain-outside :
      (p : String) (xs : List (Stored json)) (y : Stored json)
      → in_partition p y ≡ false
      → chain p (xs ++ y ∷ []) ≡ chain p xs
  unfolding chain
  chain-outside p [] y h = rw h refl
  chain-outside p (x ∷ xs) y h = elim (Bool-cases (in_partition p x)) [
    | inl t ↦ rw t (ap (λ ds. x.document ∷ ds) (chain-outside p xs y h))
    | inr f ↦ rw f (chain-outside p xs y h)
  ]

  unfoldable pub appended : String → ℕ → Unsigned (Content json) → String → Store json → Store json
  appended q n u mac store = record {
    documents = store.documents ++ record { id = u.stored_id; document = event u (some mac) } ∷ [];
    heads = set_last_mac q n (some mac) (increment q store.heads);
  }

  pub own_appended :
      (p : String) (k : Option ℤ) (u : Unsigned (Content json)) (mac : String) (store : Store json)
      → Intact p k store
      → Signs p (find (has_partition p) store.heads) u mac
      → Intact p k (appended p (sequence_of (find (has_partition p) store.heads) + 1) u mac store)
  unfolding appended integrity_of
  own_appended p k u mac store f s =
      let h : Option Head = find (has_partition p) store.heads in
      let (g, found, n, t) = own_increment p store.heads in
      let inside : text_is u.partition (some p) ≡ true = rw s.partition (text_is_refl (some p)) in
      rw
        (
          chain-inside p store.documents
              (record { id = u.stored_id; document = event u (some mac) }) inside,
          check_documents-append signing k (start signing) (chain p store.documents)
              (event u (some mac)),
          own_set p (sequence_of h + 1) (some mac) (increment p store.heads) g found n t,
        )
        (check-Follows p k (checked signing k (chain p store.documents)) h u mac
          (record g { last_mac = some mac }) f s n refl)

  pub other_appended :
      (p q : String) (n : ℕ) (k : Option ℤ) (u : Unsigned (Content json)) (mac : String)
      (store : Store json)
      → text_eq q p ≡ false
      → u.partition ≡ some q
      → Intact p k store
      → Intact p k (appended q n u mac store)
  unfolding appended integrity_of
  other_appended p q n k u mac store other e f =
      let outside : text_is u.partition (some p) ≡ false = rw e (unfold text_is in other) in
      rw
        (
          chain-outside p store.documents
              (record { id = u.stored_id; document = event u (some mac) }) outside,
          other_set p q other n (some mac) (increment q store.heads),
          other_increment p q other store.heads,
        )
        f
