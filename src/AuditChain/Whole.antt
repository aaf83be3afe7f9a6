-- ===== src/AuditChain/Whole.antt =====
-- security/audit.py: what the verification of a chain without errors has seen of each document.
use power_adapter_blogs.Shared.{
  String, ◌≡◌, refl, ap, ◌∙◌, inl, inr, Bool, true, false, Option, none, some, List, [], ◌∷◌, ◌++◌,
  arith, any, text_eq, text_eq_iff, text_eq_refl, Option-cases,
}
use power_adapter_blogs.AuditChain.{
  ℤ, Integrity, Unsigned, Document, legacy, foreign, incomplete, event, Signing, text_is,
  integrity_of, unique_texts, is_nil, verify_legacy, verify_event, verify_document, ChainState,
  start, document_errors, partition_errors, sequence_errors, link_errors, check_document,
  check_documents, checkpoint_errors, checkpoint_sequence, Checkpoint, verify_chain,
}

pub append-nil : (xs ys : List String) → xs ++ ys ≡ [] → (xs ≡ []) × (ys ≡ [])
append-nil [] ys h = (refl, h)
append-nil (x ∷ xs) ys h = cc

pub text_is-eq : (s t : Option String) → text_is s t ≡ true → s ≡ t
unfolding text_is
text_is-eq none none h = refl
text_is-eq none (some t) h = cc
text_is-eq (some s) none h = cc
text_is-eq (some s) (some t) h = ap some ((text_eq_iff s t).0 h)

pub text_is_refl : (s : Option String) → text_is s s ≡ true
unfolding text_is
text_is_refl none = refl
text_is_refl (some s) = text_eq_refl s

-- A list that is not empty, with its last document split off.
pub data Snoc {A : Type 0} (xs : List A) : Type 0 where
  nil : xs ≡ [] → Snoc xs
  snoc : (before : List A) (last : A) → xs ≡ before ++ last ∷ [] → Snoc xs

pub split_last : {A : Type 0} (xs : List A) → Snoc xs
split_last [] = nil refl
split_last (x ∷ xs) = go (split_last xs)
  where
    go : Snoc xs → Snoc (x ∷ xs)
    go (nil e) = snoc [] x (ap (λ ys. x ∷ ys) e)
    go (snoc before last e) = snoc (x ∷ before) last (ap (λ ys. x ∷ ys) e)

module _ {C : Type 0} (signing : Signing C) where
  open signing use {Key, key_of, event_mac}

  pub check_documents-append :
      (k : Option ℤ) (st : ChainState signing) (xs : List (Document C)) (d : Document C)
      → check_documents signing k st (xs ++ d ∷ [])
        ≡ check_document signing k (check_documents signing k st xs) d
  unfolding check_documents
  check_documents-append k st [] d = refl
  check_documents-append k st (x ∷ xs) d =
      check_documents-append k (check_document signing k st x) xs d

  -- What a document without errors is, after the documents before it.
  pub record Links (st : ChainState signing) (d : Document C) : Type 0 where
    pub body : Unsigned C
    pub mac : String
    pub key : Key
    pub is_event : d ≡ event body (some mac)
    pub known_key : key_of body.key_id ≡ some key
    pub signed : event_mac key body ≡ some mac
    pub linked : body.previous_mac ≡ st.previous_mac
    pub numbered : sequence_errors signing st.previous_sequence body.sequence ≡ []

  -- A document that verifies is an event under a known key.
  verified_event :
      (u : Unsigned C) (mac : Option String)
      → (verify_document signing (event u mac)).valid ≡ true
      → (key : Key) × (m : String) × (key_of u.key_id ≡ some key)
        × (event_mac key u ≡ some m)
        × (mac ≡ some m)
  unfolding verify_document verify_event
  verified_event u mac h = elim (Option-cases (key_of u.key_id)) [
    | inl e ↦ absurd (ground arith)
    | inr (key, e) ↦ elim (Option-cases (event_mac key u)) [
      | inl f ↦ absurd (ground arith)
      | inr (m, f) ↦ elim (Option-cases mac) [
        | inl g ↦ absurd (ground arith)
        | inr (supplied, g) ↦
            let same : text_eq supplied m ≡ true = ground arith in
            (key, m, e, f, g ∙ ap some ((text_eq_iff supplied m).0 same))
      ]
    ]
  ]

  verify_event-Links :
      (st : ChainState signing) (u : Unsigned C) (mac : Option String)
      → (verify_document signing (event u mac)).valid ≡ true
      → sequence_errors signing st.previous_sequence u.sequence ≡ []
      → u.previous_mac ≡ st.previous_mac
      → Links st (event u mac)
  verify_event-Links st u mac valid numbered linked =
      let (key, m, e, f, g) = verified_event u mac valid in
      record {
        body = u;
        mac = m;
        key = key;
        is_event = ap (λ (o : Option String). event u o) g;
        known_key = e;
        signed = f;
        linked = linked;
        numbered = numbered;
      }

  valid_of :
      (d : Document C)
      → document_errors signing (verify_document signing d) ≡ []
      → (verify_document signing d).valid ≡ true
  unfolding document_errors
  valid_of d h = ground arith

  -- Without a legacy key no legacy document verifies.
  legacy_refused :
      (complete : Bool) (content : C) (hmac : String) (i : Integrity)
      → signing.legacy_key ≡ none
      → (verify_document signing (legacy complete content hmac i)).valid ≡ false
  unfolding verify_document verify_legacy
  legacy_refused true content hmac i strict = rw strict refl
  legacy_refused false content hmac i strict = refl

  verify_document-Links :
      signing.legacy_key ≡ none
      → (st : ChainState signing) (d : Document C) → (verify_document signing d).valid ≡ true
      → sequence_errors signing st.previous_sequence (integrity_of d).sequence ≡ []
      → link_errors signing st.previous_mac (integrity_of d).previous_mac ≡ []
      → Links st d
  unfolding integrity_of
  verify_document-Links strict st (legacy complete content hmac i) valid numbered linked =
      absurd (let f = legacy_refused complete content hmac i strict in cc)
  verify_document-Links strict st (foreign i) valid numbered linked =
      absurd (unfold verify_document in cc)
  verify_document-Links strict st (incomplete i) valid numbered linked =
      absurd (unfold verify_document in cc)
  verify_document-Links strict st (event u mac) valid numbered linked =
      verify_event-Links st u mac valid numbered
        (text_is-eq u.previous_mac st.previous_mac (unfold link_errors in ground arith))

  -- A round that leaves no error began with none.
  pub check_document-Links :
      signing.legacy_key ≡ none
      → (k : Option ℤ) (st : ChainState signing) (d : Document C)
      → (check_document signing k st d).errors ≡ []
      → (st.errors ≡ []) × Links st d
  unfolding check_document
  check_document-Links strict k st d h =
      let (before, rest) = append-nil st.errors _ h in
      let (invalid, rest') =
        append-nil (document_errors signing (verify_document signing d)) _ rest in
      let (partition, rest'') =
        append-nil (partition_errors signing st.partition (integrity_of d).partition) _ rest' in
      let (numbered, linked) =
        append-nil (sequence_errors signing st.previous_sequence (integrity_of d).sequence) _
          rest'' in
      (before, verify_document-Links strict st d (valid_of d invalid) numbered linked)

  -- The documents that leave no error.
  abbrev pub checked : Option ℤ → List (Document C) → ChainState signing
  checked k xs = check_documents signing k (start signing) xs

  unique_texts-nil : (xs : List String) → is_nil (unique_texts [] xs) ≡ true → xs ≡ []
  unfolding unique_texts is_nil any
  unique_texts-nil [] h = refl
  unique_texts-nil (x ∷ xs) h = cc

  pub verify_chain-whole :
      (xs : List (Document C)) (checkpoint : Option (Checkpoint signing))
      → (verify_chain signing xs checkpoint).valid ≡ true
      → ((checked (checkpoint_sequence signing checkpoint) xs).errors ≡ [])
        × (checkpoint_errors signing checkpoint
              (checked (checkpoint_sequence signing checkpoint) xs)
            ≡ [])
  unfolding verify_chain
  verify_chain-whole xs checkpoint h = append-nil _ _ (unique_texts-nil _ h)
