-- ===== src/Outbox/Final.antt =====
-- security/outbox.py: rows that are delivered or dead, and leases that were lost, over any steps.
use power_adapter_blogs.Shared.{
  ℕ, ◌≤◌, ◌≡◌, any-eq-false, update-absent, refl, ◌∙◌, ap, inl, inr, Bool, true, false, ◌||◌, some,
  List, [], ◌∷◌, arith, ◌==◌, find, In, Bool-cases, count,
}
use power_adapter_blogs.Outbox.{
  OutboxStatus, OutboxRow, Delivery, succeeded, failed_with, is_waiting, is_processing,
  is_delivered, is_dead, is_claimable, has_row_pk, has_token, lease, settle, holds_lease,
  write_back, write_failure, write_success, delivery_of,
}
use power_adapter_blogs.Outbox.System.{
  Claim, System, Step, enqueues, takes, settles, Reach, here, then_step, PksUnique, Step-PksUnique,
}
use power_adapter_blogs.Outbox.Leases.{RowMove, kept, leased, written, Step-RowMove}

abbrev pub is_final : OutboxStatus → Bool
is_final status = is_delivered status || is_dead status

module _ {E : Type 0} (m : ℕ) where
  Reach-PksUnique : (s t : System E) → PksUnique s.table → Reach m s t → PksUnique t.table
  Reach-PksUnique s t unique here = unique
  Reach-PksUnique s t unique (then_step {t = u} {u = v} r step) =
      Step-PksUnique m u v (Reach-PksUnique s u unique r) step

  RowMove-final :
      (s : System E) (row row' : OutboxRow E)
      → is_final row.status ≡ true
      → RowMove m s row row'
      → row' ≡ row
  unfolding is_delivered is_dead is_claimable is_waiting is_processing holds_lease
  RowMove-final s row row' h kept = refl
  RowMove-final s row row' h (leased now seconds token claimable new) = ground arith
  RowMove-final s row row' h (written c answer later there held) = ground arith

  -- Where the keys are unique, a row that is delivered or dead is never changed, by any steps
  -- of any workers.
  pub Reach-final :
      (s t : System E) (id : ℕ) (row : OutboxRow E)
      → PksUnique s.table
      → find (has_row_pk id) s.table ≡ some row
      → is_final row.status ≡ true
      → Reach m s t
      → find (has_row_pk id) t.table ≡ some row
  Reach-final s t id row unique h final here = h
  Reach-final s t id row unique h final (then_step {t = u} {u = v} r step) =
      let (row', there, move) =
        Step-RowMove m u v id row (Reach-PksUnique s u unique r)
          (Reach-final s u id row unique h final r) step in
      there ∙ ap some (RowMove-final u row row' final move)

  -- The lease of a claim: the row, if it is still under the claim's token.
  pub record Lost (s : System E) (c : Claim E) : Type 0 where
    pub known : In c s.claims
    pub row : OutboxRow E
    pub there : find (has_row_pk c.row.pk) s.table ≡ some row
    pub free : holds_lease c.row.pk c.token row ≡ false

  RowMove-free :
      (s : System E) (c : Claim E) (row row' : OutboxRow E)
      → In c s.claims
      → holds_lease c.row.pk c.token row ≡ false
      → RowMove m s row row'
      → holds_lease c.row.pk c.token row' ≡ false
  unfolding holds_lease lease is_processing has_token write_back write_failure write_success
  RowMove-free s c row row' known h kept = h
  RowMove-free s c row row' known h (leased now seconds token claimable new) =
      ground (arith, new c known)
  RowMove-free s c row row' known h (written d answer later there held) =
      not_held (delivery_of answer d.row.partition)
    where
      not_held :
          (delivery : Delivery)
          → holds_lease c.row.pk c.token (write_back d.row delivery m later row) ≡ false
      not_held (succeeded sequence mac) = ground arith
      not_held (failed_with name) = ground arith

  kept_claim : (s t : System E) (c : Claim E) → Step m s t → In c s.claims → In c t.claims
  kept_claim s t c (enqueues row a b d f g) h = h
  kept_claim s t c (takes now seconds token row table new e) h = inr h
  kept_claim s t c (settles d answer later there) h = h

  Step-Lost : (s t : System E) (c : Claim E) → PksUnique s.table → Lost s c → Step m s t → Lost t c
  Step-Lost s t c unique lost step =
      let (row', there, move) = Step-RowMove m s t c.row.pk lost.row unique lost.there step in
      record {
        known = kept_claim s t c step lost.known;
        row = row';
        there = there;
        free = RowMove-free s c lost.row row' lost.known lost.free move;
      }

  Reach-Lost :
      (s t : System E) (c : Claim E) → PksUnique s.table → Lost s c → Reach m s t → Lost t c
  Reach-Lost s t c unique lost here = lost
  Reach-Lost s t c unique lost (then_step {t = u} {u = v} r step) =
      Step-Lost u v c (Reach-PksUnique s u unique r) (Reach-Lost s u c unique lost r) step

  count_holds-le :
      (table : List (OutboxRow E)) (id token : ℕ)
      → count (holds_lease id token) table ≤ count (has_row_pk id) table
  unfolding count holds_lease
  count_holds-le [] id token = omega arith
  count_holds-le (x ∷ xs) id token = ground (arith, count_holds-le xs id token)

  -- No row passes the guard of an update whose lease is lost.
  guard_fails :
      (table : List (OutboxRow E)) (id token : ℕ) (row : OutboxRow E)
      → count (has_row_pk id) table ≤ 1
      → find (has_row_pk id) table ≡ some row
      → holds_lease id token row ≡ false
      → count (holds_lease id token) table ≡ 0
  unfolding count find
  guard_fails [] id token row unique h free = refl
  guard_fails (x ∷ xs) id token row unique h free = elim (Bool-cases (x.pk == id)) [
    | inl e ↦
        let same : x ≡ row = ground arith in
        let x_free : holds_lease id token x ≡ false = rw same free in
        ground (arith, count_holds-le xs id token)
    | inr f ↦
        let x_free : holds_lease id token x ≡ false = unfold holds_lease in ground arith in
        ground (arith, guard_fails xs id token row)
  ]

  -- Where the keys are unique and a worker's claim no longer holds its row's lease, the
  -- worker's update finds no row and leaves the table as it is, after any further steps of any
  -- workers.
  pub settle-Lost :
      (s t : System E) (c : Claim E) (delivery : Delivery) (max_attempts later : ℕ)
      → PksUnique s.table
      → Lost s c
      → Reach m s t
      → settle c.row c.token delivery max_attempts later t.table ≡ (false, t.table)
  unfolding settle
  settle-Lost s t c delivery max_attempts later unique lost r =
      let after : Lost t c = Reach-Lost s t c unique lost r in
      let nothing : count (holds_lease c.row.pk c.token) t.table ≡ 0 =
        guard_fails t.table c.row.pk c.token after.row (Reach-PksUnique s t unique r c.row.pk)
          after.there after.free in
      rw
        (
          any-eq-false (holds_lease c.row.pk c.token) t.table nothing,
          update-absent (holds_lease c.row.pk c.token)
              (write_back c.row delivery max_attempts later) t.table nothing,
        )
        refl
