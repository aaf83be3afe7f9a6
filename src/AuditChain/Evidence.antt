-- ===== src/AuditChain/Evidence.antt =====
-- security/audit.py: what a verified chain is evidence of, where no two documents have the same MAC.
use power_adapter_blogs.Shared.{
  ℕ, zero, suc, ◌+◌, String, ◌≡◌, refl, sym, ap, ◌∙◌, true, Option, none, some, List, [], ◌∷◌, ◌++◌,
  arith, length,
}
use mathlib.Core.Path.{ap₂}
use power_adapter_blogs.AuditChain.{
  ℤ, Unsigned, Document, event, Signing, integrity_of, ChainState, start, check_document,
  check_documents, checkpoint_sequence, Checkpoint, verify_chain,
}
use power_adapter_blogs.AuditChain.Whole.{
  Snoc, nil, snoc, split_last, Links, check_documents-append, check_document-Links, checked,
  verify_chain-whole,
}

pub none-some : {A : Type 0} {a : A} → ◌≡◌ {A = Option A} none (some a) → ⊥
none-some h = cc

module _ {C : Type 0} (signing : Signing C) where
  open signing use {Key, event_mac}

  -- No two documents have one MAC, whatever the keys.
  abbrev pub NoCollisions : Type 0
  NoCollisions =
      (key key' : Key) (u u' : Unsigned C) (mac : String)
      → event_mac key u ≡ some mac
      → event_mac key' u' ≡ some mac
      → u ≡ u'

  mac_after :
      (k : Option ℤ) (st : ChainState signing) (d : Document C) (l : Links signing st d)
      → (check_document signing k st d).previous_mac ≡ some l.mac
  unfolding check_document integrity_of
  mac_after k st d l = rw l.is_event refl

  -- The last document of a list without errors.
  record Ends (k : Option ℤ) (xs : List (Document C)) : Type 0 where
    before : List (Document C)
    last : Document C
    split : xs ≡ before ++ last ∷ []
    whole : (checked signing k before).errors ≡ []
    links : Links signing (checked signing k before) last
    last_mac : (checked signing k xs).previous_mac ≡ some links.mac

  snoc_ends :
      signing.legacy_key ≡ none
      → (k : Option ℤ) (xs before : List (Document C)) (last : Document C)
      → xs ≡ before ++ last ∷ []
      → (checked signing k xs).errors ≡ []
      → Ends k xs
  snoc_ends strict k xs before last e h =
      let at : checked signing k xs ≡ check_document signing k (checked signing k before) last =
        ap (λ ys. checked signing k ys) e
        ∙ check_documents-append signing k (start signing) before last in
      let (whole, links) =
        check_document-Links signing strict k (checked signing k before) last
          (sym (ap (λ (s : ChainState signing). s.errors) at) ∙ h) in
      record {
        before = before;
        last = last;
        split = e;
        whole = whole;
        links = links;
        last_mac =
            ap (λ (s : ChainState signing). s.previous_mac) at
            ∙ mac_after k (checked signing k before) last links;
      }

  nil_mac :
      (k : Option ℤ) (xs : List (Document C)) → xs ≡ [] → (checked signing k xs).previous_mac ≡ none
  unfolding check_documents
  nil_mac k xs e = ap (λ ys. (checked signing k ys).previous_mac) e

  pub length-snoc :
      (xs : List (Document C)) (d : Document C) → length (xs ++ d ∷ []) ≡ length xs + 1
  length-snoc [] d = refl
  length-snoc (x ∷ xs) d = omega (arith, length-snoc xs d)

  pub shorter :
      (n : ℕ) (xs before : List (Document C)) (last : Document C)
      → length xs ≡ suc n
      → xs ≡ before ++ last ∷ []
      → length before ≡ n
  shorter n xs before last e h = omega (arith, sym e ∙ ap length h, length-snoc before last)

  no_mac :
      (k k' : Option ℤ) (xs ys : List (Document C))
      → (checked signing k xs).previous_mac ≡ none
      → (checked signing k xs).previous_mac ≡ (checked signing k' ys).previous_mac
      → Ends k' ys
      → ⊥
  no_mac k k' xs ys e h ends = none-some (sym e ∙ h ∙ ends.last_mac)

  module _ (injective : NoCollisions) (strict : signing.legacy_key ≡ none) where
    -- Two last documents with one MAC are one document after one MAC.
    same_last :
        (k k' : Option ℤ) (xs ys : List (Document C)) (a : Ends k xs) (b : Ends k' ys)
        → (checked signing k xs).previous_mac ≡ (checked signing k' ys).previous_mac
        → (a.last ≡ b.last)
          × ((checked signing k a.before).previous_mac ≡ (checked signing k' b.before).previous_mac)
    same_last k k' xs ys a b h =
        let macs : some a.links.mac ≡ some b.links.mac = sym a.last_mac ∙ h ∙ b.last_mac in
        let mac : a.links.mac ≡ b.links.mac = cc in
        let body : a.links.body ≡ b.links.body =
          injective a.links.key b.links.key a.links.body b.links.body b.links.mac
            (a.links.signed ∙ macs) b.links.signed in
        (
          a.links.is_event ∙ ap₂ event body macs ∙ sym b.links.is_event,
          sym a.links.linked ∙ ap (λ (u : Unsigned C). u.previous_mac) body ∙ b.links.linked,
        )

    abbrev Agrees : ℕ → Option ℤ → Option ℤ → Type 0
    Agrees n k k' =
        (xs ys : List (Document C))
        → length xs ≡ n
        → (checked signing k xs).errors ≡ []
        → (checked signing k' ys).errors ≡ []
        → (checked signing k xs).previous_mac ≡ (checked signing k' ys).previous_mac
        → xs ≡ ys

    ends_agree :
        (n : ℕ) (k k' : Option ℤ) (xs ys : List (Document C)) (a : Ends k xs) (b : Ends k' ys)
        → Agrees n k k'
        → length xs ≡ suc n
        → (checked signing k xs).previous_mac ≡ (checked signing k' ys).previous_mac
        → xs ≡ ys
    ends_agree n k k' xs ys a b shorter_agree len h =
        let (last, macs) = same_last k k' xs ys a b h in
        let before : a.before ≡ b.before =
          shorter_agree a.before b.before (shorter n xs a.before a.last len a.split) a.whole b.whole
            macs in
        a.split ∙ ap₂ (λ zs z. zs ++ z ∷ []) before last ∙ sym b.split

    agree_step :
        (n : ℕ) (k k' : Option ℤ) (xs ys : List (Document C))
        → ((a : Ends k xs) (b : Ends k' ys) → length xs ≡ n → xs ≡ ys)
        → length xs ≡ n
        → (checked signing k xs).errors ≡ []
        → (checked signing k' ys).errors ≡ []
        → (checked signing k xs).previous_mac ≡ (checked signing k' ys).previous_mac
        → xs ≡ ys
    agree_step n k k' xs ys by_ends len hx hy h = go (split_last xs) (split_last ys)
      where
        go : Snoc xs → Snoc ys → xs ≡ ys
        go (nil e) (nil f) = e ∙ sym f
        go (nil e) (snoc before last f) =
            absurd (no_mac k k' xs ys (nil_mac k xs e) h (snoc_ends strict k' ys before last f hy))
        go (snoc before last e) (nil f) =
            absurd
              (no_mac k' k ys xs (nil_mac k' ys f) (sym h) (snoc_ends strict k xs before last e hx))
        go (snoc before last e) (snoc before' last' f) =
            by_ends (snoc_ends strict k xs before last e hx)
              (snoc_ends strict k' ys before' last' f hy) len

    not_empty : (xs : List (Document C)) (k : Option ℤ) → Ends k xs → length xs ≡ 0 → ⊥
    not_empty xs k a len =
        let e : length xs ≡ length a.before + 1 = ap length a.split ∙ length-snoc a.before a.last in
        omega arith

    pub same_chain : (n : ℕ) (k k' : Option ℤ) → Agrees n k k'
    same_chain zero k k' xs ys len hx hy h =
        agree_step zero k k' xs ys (λ a b l. absurd (not_empty xs k a l)) len hx hy h
    same_chain (suc n) k k' xs ys len hx hy h =
        agree_step (suc n) k k' xs ys (λ a b l. ends_agree n k k' xs ys a b (same_chain n k k') l h)
          len hx hy h

    pub snoc_whole :
        (k : Option ℤ) (ys before : List (Document C)) (last : Document C)
        → ys ≡ before ++ last ∷ []
        → (checked signing k ys).errors ≡ []
        → (checked signing k before).errors ≡ []
    unfolding snoc_ends
    snoc_whole k ys before last e h = (snoc_ends strict k ys before last e h).whole

    -- Where the keyring has no legacy key and no two documents have one MAC: two lists that
    -- verify, whatever the checkpoints, and of which verify_chain reports the same last MAC,
    -- are the same list.
    pub same_last_mac :
        (xs ys : List (Document C)) (c c' : Option (Checkpoint signing))
        → (verify_chain signing xs c).valid ≡ true
        → (verify_chain signing ys c').valid ≡ true
        → (verify_chain signing xs c).last_mac ≡ (verify_chain signing ys c').last_mac
        → xs ≡ ys
    unfolding verify_chain
    same_last_mac xs ys c c' hx hy h =
        same_chain (length xs) (checkpoint_sequence signing c) (checkpoint_sequence signing c') xs
          ys refl (verify_chain-whole signing xs c hx).0 (verify_chain-whole signing ys c' hy).0 h
