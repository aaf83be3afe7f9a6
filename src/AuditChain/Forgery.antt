-- ===== src/AuditChain/Forgery.antt =====
-- security/audit.py: the MAC of a legacy document does not cover the `integrity` that `verify_chain`
-- reads of it.
use power_adapter_blogs.Shared.{
  String, ◌≡◌, refl, ap, ◌∙◌, true, Option, none, some, List, [], ◌∷◌, ◌++◌, arith, text_eq_refl,
}
use power_adapter_blogs.AuditChain.{
  ℤ, pos, negsuc, next_int, int_eq, Integrity, Document, legacy, Signing, integrity_of, is_nil,
  unique_texts, verify_legacy, verify_document, ChainState, start, document_errors,
  partition_errors, sequence_errors, link_errors, check_document, checkpoint_errors,
  checkpoint_sequence, verify_chain,
}
use power_adapter_blogs.AuditChain.Whole.{
  text_is_refl, check_documents-append, checked, verify_chain-whole,
}

int_eq_refl : (n : ℤ) → int_eq n n ≡ true
unfolding int_eq
int_eq_refl (pos n) = ground arith
int_eq_refl (negsuc n) = ground arith

module _ {C : Type 0} (signing : Signing C) where
  open signing use {Key, legacy_key, legacy_mac}

  -- The integrity that continues a list of documents, with any MAC
  abbrev pub forged_integrity : List (Document C) → String → Integrity
  forged_integrity xs mac = record {
    partition = (checked signing none xs).partition;
    sequence = some (next_int (checked signing none xs).previous_sequence);
    previous_mac = (checked signing none xs).previous_mac;
    mac = some mac;
  }

  legacy_valid :
      (key : Key) (content : C) (hmac : String) (i : Integrity)
      → legacy_key ≡ some key
      → legacy_mac key content ≡ some hmac
      → (verify_document signing (legacy true content hmac i)).valid ≡ true
  unfolding verify_document verify_legacy
  legacy_valid key content hmac i k h = rw (k, verify_legacy, h, text_eq_refl hmac) refl

  own_partition : (p : Option String) → partition_errors signing p p ≡ []
  unfolding partition_errors
  own_partition none = refl
  own_partition (some p) = rw (text_is_refl (some p)) refl

  forged_check :
      (st : ChainState signing) (key : Key) (content : C) (hmac mac : String)
      → legacy_key ≡ some key
      → legacy_mac key content ≡ some hmac
      → st.errors ≡ []
      → (check_document signing none st (
          legacy true content hmac (record {
            partition = st.partition;
            sequence = some (next_int st.previous_sequence);
            previous_mac = st.previous_mac;
            mac = some mac;
          }))).errors
        ≡ []
  unfolding check_document integrity_of document_errors sequence_errors link_errors
  forged_check st key content hmac mac k h e =
      rw
        (
          e,
          legacy_valid key content hmac _ k h,
          own_partition st.partition,
          int_eq_refl (next_int st.previous_sequence),
          text_is_refl st.previous_mac,
        )
        refl

  -- With a legacy key, a legacy document with an integrity of one's choice continues any list that
  -- verifies, and its MAC is the last one.
  verify_chain-forged :
      (xs : List (Document C)) (key : Key) (content : C) (hmac mac : String)
      → legacy_key ≡ some key
      → legacy_mac key content ≡ some hmac
      → (verify_chain signing xs none).valid ≡ true
      → ((verify_chain signing
            (xs ++ legacy true content hmac (forged_integrity xs mac) ∷ [])
            none).valid
          ≡ true)
        × ((verify_chain signing
              (xs ++ legacy true content hmac (forged_integrity xs mac) ∷ [])
              none).last_mac
            ≡ some mac)
  unfolding verify_chain checkpoint_sequence checkpoint_errors is_nil unique_texts check_document
      integrity_of
  verify_chain-forged xs key content hmac mac k h valid =
      let e : (checked signing none xs).errors ≡ [] =
        (verify_chain-whole signing xs none valid).0 in
      let d : Document C = legacy true content hmac (forged_integrity xs mac) in
      let at : checked signing none (xs ++ d ∷ [])
          ≡ check_document signing none (checked signing none xs) d =
        check_documents-append signing none (start signing) xs d in
      let f : (checked signing none (xs ++ d ∷ [])).errors ≡ [] =
        ap (λ (s : ChainState signing). s.errors) at
        ∙ forged_check (checked signing none xs) key content hmac mac k h e in
      (rw f refl, ap (λ (s : ChainState signing). s.previous_mac) at)
