-- ===== src/AuditChain/Checkpoints.antt =====
-- security/audit.py: what a list that verifies against a checkpoint keeps of the documents before it.
use power_adapter_blogs.Shared.{
  ℕ, zero, suc, ◌+◌, String, ◌≡◌, refl, sym, ap, ◌∙◌, ◌⊎◌, inl, inr, true, Option, none, some, List,
  [], ◌∷◌, ◌++◌, arith, length, text_eq, text_eq_iff, Bool-cases, if◌then◌else◌,
}
use power_adapter_blogs.AuditChain.{
  ℤ, Document, Signing, integrity_of, ChainState, start, is_sequence, check_document,
  check_documents, mac_errors, checkpoint_sequence_errors, checkpoint_errors, checkpoint_sequence,
  Checkpoint, verify_chain,
}
use power_adapter_blogs.AuditChain.Whole.{
  Snoc, nil, snoc, split_last, append-nil, check_documents-append, checked, verify_chain-whole,
}
use power_adapter_blogs.AuditChain.Evidence.{
  none-some, NoCollisions, length-snoc, shorter, same_chain, snoc_whole,
}

module _ {C : Type 0} (signing : Signing C) where
  module _ (injective : NoCollisions signing) (strict : signing.legacy_key ≡ none) where
    append_assoc : (xs ys zs : List (Document C)) → (xs ++ ys) ++ zs ≡ xs ++ (ys ++ zs)
    append_assoc [] ys zs = refl
    append_assoc (x ∷ xs) ys zs = ap (λ ws. x ∷ ws) (append_assoc xs ys zs)

    append_nil_right : (xs : List (Document C)) → xs ++ [] ≡ xs
    append_nil_right [] = refl
    append_nil_right (x ∷ xs) = ap (λ ws. x ∷ ws) (append_nil_right xs)

    -- The part of a list up to the document with the checkpoint's sequence.
    record UpTo (k : Option ℤ) (ys : List (Document C)) (mac : String) : Type 0 where
      prefix : List (Document C)
      tail : List (Document C)
      split : ys ≡ prefix ++ tail
      whole : (checked signing k prefix).errors ≡ []
      ends : (checked signing k prefix).previous_mac ≡ some mac

    observed_snoc :
        (k : Option ℤ) (ys before : List (Document C)) (last : Document C) (mac : String)
        → ys ≡ before ++ last ∷ []
        → (checked signing k ys).errors ≡ []
        → (checked signing k ys).observed_mac ≡ some mac
        → ((checked signing k ys).previous_mac ≡ some mac)
          ⊎ ((checked signing k before).observed_mac ≡ some mac)
    unfolding check_document
    observed_snoc k ys before last mac e h o =
        let at : checked signing k ys ≡ check_document signing k (checked signing k before) last =
          ap (λ zs. checked signing k zs) e
          ∙ check_documents-append signing k (start signing) before last in
        elim (Bool-cases (is_sequence signing (integrity_of last).sequence k)) [
          | inl t ↦ inl (
              ap (λ (s : ChainState signing). s.previous_mac) at
              ∙ sym (
                  ap
                    (λ b.
                      if b
                      then (integrity_of last).mac
                      else (checked signing k before).observed_mac)
                    t)
              ∙ sym (ap (λ (s : ChainState signing). s.observed_mac) at)
              ∙ o)
          | inr f ↦ inr (
              sym (
                ap
                  (λ b.
                    if b then (integrity_of last).mac else (checked signing k before).observed_mac)
                  f)
              ∙ sym (ap (λ (s : ChainState signing). s.observed_mac) at)
              ∙ o)
        ]

    nil_observed :
        (k : Option ℤ) (xs : List (Document C))
        → xs ≡ []
        → (checked signing k xs).observed_mac ≡ none
    unfolding check_documents
    nil_observed k xs e = ap (λ ys. (checked signing k ys).observed_mac) e

    add_tail :
        (k : Option ℤ) (ys before : List (Document C)) (last : Document C) (mac : String)
        → ys ≡ before ++ last ∷ []
        → UpTo k before mac
        → UpTo k ys mac
    add_tail k ys before last mac e u = record {
      prefix = u.prefix;
      tail = u.tail ++ last ∷ [];
      split = e ∙ ap (λ zs. zs ++ last ∷ []) u.split ∙ append_assoc u.prefix u.tail (last ∷ []);
      whole = u.whole;
      ends = u.ends;
    }

    walk_back :
        (k : Option ℤ) (ys : List (Document C)) (mac : String)
        → ((before : List (Document C)) (last : Document C)
            → ys ≡ before ++ last ∷ []
            → (checked signing k before).errors ≡ []
            → (checked signing k before).observed_mac ≡ some mac
            → UpTo k before mac)
        → (checked signing k ys).errors ≡ []
        → (checked signing k ys).observed_mac ≡ some mac
        → UpTo k ys mac
    walk_back k ys mac rest h o = go (split_last ys)
      where
        go : Snoc ys → UpTo k ys mac
        go (nil e) = absurd (none-some (sym (nil_observed k ys e) ∙ o))
        go (snoc before last e) = elim (observed_snoc k ys before last mac e h o) [
          | inl here ↦ record {
            prefix = ys;
            tail = [];
            split = sym (append_nil_right ys);
            whole = h;
            ends = here;
          }
          | inr earlier ↦ add_tail k ys before last mac e (
              rest before last e (snoc_whole signing injective strict k ys before last e h) earlier)
        ]

    up_to :
        (n : ℕ) (k : Option ℤ) (ys : List (Document C)) (mac : String)
        → length ys ≡ n
        → (checked signing k ys).errors ≡ []
        → (checked signing k ys).observed_mac ≡ some mac
        → UpTo k ys mac
    up_to zero k ys mac len h o =
        walk_back k ys mac
          (λ before last e w b. absurd (
            let q : length ys ≡ length before + 1 = ap length e ∙ length-snoc signing before last in
            omega arith))
          h o
    up_to (suc n) k ys mac len h o =
        walk_back k ys mac
          (λ before last e w b. up_to n k before mac (shorter signing n ys before last len e) w b) h
          o

    mac_errors-nil :
        (mac : String) (observed : Option String)
        → mac_errors signing mac observed ≡ []
        → observed ≡ some mac
    unfolding mac_errors
    mac_errors-nil mac none h = cc
    mac_errors-nil mac (some m) h = elim (Bool-cases (text_eq mac m)) [
      | inl t ↦ ap some (sym ((text_eq_iff mac m).0 t))
      | inr f ↦ absurd (ground arith)
    ]

    sequence_errors-nil :
        (sequence : Option ℤ) (mac : String) (st : ChainState signing)
        → checkpoint_sequence_errors signing sequence mac st ≡ []
        → st.observed_mac ≡ some mac
    unfolding checkpoint_sequence_errors
    sequence_errors-nil none mac st h = cc
    sequence_errors-nil (some n) mac st h = mac_errors-nil mac st.observed_mac (ground arith)

    checkpoint_observed :
        (c : Checkpoint signing) (st : ChainState signing)
        → checkpoint_errors signing (some c) st ≡ []
        → st.observed_mac ≡ some c.mac
    unfolding checkpoint_errors
    checkpoint_observed c st h = sequence_errors-nil c.sequence c.mac st (append-nil _ _ h).1

    -- Where the keyring has no legacy key and no two documents have one MAC: a list that
    -- verifies against a checkpoint with the last MAC of a list that verified before is that
    -- list with more documents after it.
    pub checkpoint-kept :
        (xs ys : List (Document C)) (earlier : Option (Checkpoint signing)) (c : Checkpoint signing)
        → (verify_chain signing xs earlier).valid ≡ true
        → (verify_chain signing xs earlier).last_mac ≡ some c.mac
        → (verify_chain signing ys (some c)).valid ≡ true
        → (tail : List (Document C)) × (ys ≡ xs ++ tail)
    unfolding verify_chain checkpoint_sequence
    checkpoint-kept xs ys earlier c hx m hy =
        let (whole, checkpoint) = verify_chain-whole signing ys (some c) hy in
        let u : UpTo c.sequence ys c.mac =
          up_to (length ys) c.sequence ys c.mac refl whole
            (checkpoint_observed c (checked signing c.sequence ys) checkpoint) in
        let same : xs ≡ u.prefix =
          same_chain signing injective strict (length xs) (checkpoint_sequence signing earlier)
            c.sequence xs u.prefix refl (verify_chain-whole signing xs earlier hx).0 u.whole
            (m ∙ sym u.ends) in
        (u.tail, u.split ∙ ap (λ zs. zs ++ u.tail) (sym same))
