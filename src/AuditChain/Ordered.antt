-- ===== src/AuditChain/Ordered.antt =====
-- security/audit.py and security/mongo_client.py: the query of `iter_partition` reads a chain without
-- errors whole, up to its limit, and in the order of the insertions.
use power_adapter_blogs.Shared.{
  ℕ, suc, ◌+◌, ◌≤◌, ◌<◌, String, ◌≡◌, refl, sym, inl, inr, ◌==◌, ap, ◌∙◌, true, false, Option, none,
  some, List, [], ◌∷◌, arith, length, ==→≡, Bool-cases, select, take, take-all,
}
use power_adapter_blogs.AuditChain.{
  ℤ, pos, negsuc, Document, Signing, integrity_of, int_eq, int_gt, next_int, ChainState, start,
  sequence_after, sequence_errors, check_document, check_documents,
}
use power_adapter_blogs.AuditChain.Whole.{append-nil}
use power_adapter_blogs.AuditChain.Insertion.{
  Json, Content, Store, chain, is_after, comes_after, put_in_order, in_order, bounded,
  iter_partition,
}

-- The sequences follow `n` without a gap.
abbrev Numbered : {C : Type 0} → ℕ → List (Document C) → Type 0
Numbered n [] = Unit
Numbered n (d ∷ ds) = ((integrity_of d).sequence ≡ some (pos (suc n))) × Numbered (suc n) ds

module _ {C : Type 0} (signing : Signing C) where
  sequence_errors-next :
      (n : ℕ) (s : Option ℤ) → sequence_errors signing (pos n) s ≡ [] → s ≡ some (pos (suc n))
  unfolding sequence_errors int_eq next_int
  sequence_errors-next n none h = cc
  sequence_errors-next n (some (negsuc m)) h = ground arith
  sequence_errors-next n (some (pos m)) h = elim (Bool-cases (m == suc n)) [
    | inl t ↦ ap (λ i. some (pos i)) (==→≡ m (suc n) t)
    | inr f ↦ absurd (ground arith)
  ]

  check_document-errors :
      (k : Option ℤ) (st : ChainState signing) (d : Document C)
      → (check_document signing k st d).errors ≡ []
      → (st.errors ≡ [])
        × (sequence_errors signing st.previous_sequence (integrity_of d).sequence ≡ [])
  unfolding check_document
  check_document-errors k st d h =
      let (before, rest) = append-nil st.errors _ h in
      let (valid, rest') = append-nil _ _ rest in
      let (partition, rest'') = append-nil _ _ rest' in
      let (numbered, linked) = append-nil _ _ rest'' in (before, numbered)

  check_documents-errors :
      (k : Option ℤ) (st : ChainState signing) (ds : List (Document C))
      → (check_documents signing k st ds).errors ≡ []
      → st.errors ≡ []
  unfolding check_documents
  check_documents-errors k st [] h = h
  check_documents-errors k st (d ∷ ds) h =
      (check_document-errors k st d
        (check_documents-errors k (check_document signing k st d) ds h)).0

  check_documents-Numbered :
      (k : Option ℤ) (n : ℕ) (st : ChainState signing) (ds : List (Document C))
      → st.previous_sequence ≡ pos n
      → (check_documents signing k st ds).errors ≡ []
      → Numbered n ds × ((check_documents signing k st ds).previous_sequence ≡ pos (length ds + n))
  unfolding check_documents check_document sequence_after
  check_documents-Numbered k n st [] e h = (tt, e ∙ ap pos (omega arith))
  check_documents-Numbered k n st (d ∷ ds) e h =
      let (before, numbered) =
        check_document-errors k st d
          (check_documents-errors k (check_document signing k st d) ds h) in
      let here : (integrity_of d).sequence ≡ some (pos (suc n)) =
        sequence_errors-next n (integrity_of d).sequence (rw e at numbered) in
      let (there, last) =
        check_documents-Numbered k (suc n) (check_document signing k st d) ds (rw here refl) h in
      ((here, there), last ∙ ap pos (omega arith))

int_gt-less : (m n : ℕ) → m < n → int_gt (pos n) (pos m) ≡ true
unfolding int_gt
int_gt-less m n h = ground arith

comes_after-next : (n : ℕ) → comes_after (some (pos n)) (some (pos (suc n))) ≡ false
unfolding comes_after int_gt
comes_after-next n = ground arith

pos-injective : {m n : ℕ} → pos m ≡ pos n → m ≡ n
pos-injective e = cc

module _ {C : Type 0} where
  is_after-Numbered :
      (n : ℕ) (d : Document C)
      → (integrity_of d).sequence ≡ some (pos (suc n))
      → is_after 0 d ≡ true
  unfolding is_after int_gt
  is_after-Numbered n d h = rw (h, is_after) (int_gt-less 0 (suc n) (omega arith))

  select-Numbered : (n : ℕ) (ds : List (Document C)) → Numbered n ds → select (is_after 0) ds ≡ ds
  unfolding select
  select-Numbered n [] h = refl
  select-Numbered n (d ∷ ds) (here, there) =
      rw (is_after-Numbered n d here) (ap (λ ys. d ∷ ys) (select-Numbered (suc n) ds there))

  put_in_order-next :
      (n : ℕ) (d e : Document C) (ds : List (Document C))
      → (integrity_of d).sequence ≡ some (pos n)
      → (integrity_of e).sequence ≡ some (pos (suc n))
      → put_in_order d (e ∷ ds) ≡ d ∷ e ∷ ds
  unfolding put_in_order
  put_in_order-next n d e ds h g = rw (h, g, comes_after-next n) refl

  in_order-Numbered : (n : ℕ) (ds : List (Document C)) → Numbered n ds → in_order ds ≡ ds
  unfolding in_order put_in_order
  in_order-Numbered n [] h = refl
  in_order-Numbered n (d ∷ []) h = refl
  in_order-Numbered n (d ∷ e ∷ ds) (here, there) =
      ap (put_in_order d) (in_order-Numbered (suc n) (e ∷ ds) there)
      ∙ put_in_order-next (suc n) d e ds here there.0

  -- The query of a chain with these numbers
  query-Numbered :
      (m : ℕ) (ds : List (Document C))
      → Numbered 0 ds
      → length ds ≤ m
      → take m (in_order (select (is_after 0) ds)) ≡ ds
  query-Numbered m ds h small =
      ap (λ ys. take m (in_order ys)) (select-Numbered 0 ds h)
      ∙ ap (take m) (in_order-Numbered 0 ds h)
      ∙ take-all m ds small

-- A chain that a round of the verification leaves without errors is what the query reads.
pub iter_partition-chain :
    {json : Json} (signing : Signing (Content json)) (k : Option ℤ) (p : String) (limit n : ℕ)
    (store : Store json)
    → (check_documents signing k (start signing) (chain p store.documents)).errors ≡ []
    → (check_documents signing k (start signing) (chain p store.documents)).previous_sequence
      ≡ pos n
    → n ≤ bounded limit
    → iter_partition p limit 0 store ≡ chain p store.documents
unfolding iter_partition
iter_partition-chain {json} signing k p limit n store whole ends small =
    let (numbered, last) =
      check_documents-Numbered signing k 0 (start signing) (chain p store.documents) refl whole in
    let same : length (chain p store.documents) + 0 ≡ n = pos-injective (sym last ∙ ends) in
    query-Numbered (bounded limit) (chain p store.documents) numbered (omega arith)
