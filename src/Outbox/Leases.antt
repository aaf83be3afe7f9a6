-- ===== src/Outbox/Leases.antt =====
-- security/outbox.py: what one step does to one row of the table.

use mathlib.Core.Option
use power_adapter_blogs.Shared.{
  ℕ, ◌≡◌, refl, sym, ◌∙◌, ap, Bool, true, false, some, [], ◌∷◌, ◌++◌, arith, ◌==◌, find, update, In,
  ==→≡, if◌then◌else◌, changed, find-update, find-append, find-passes,
}
use power_adapter_blogs.Outbox.{
  OutboxRow, Answer, Delivery, delivery_of, is_claimable, has_row_pk, lease, settle, holds_lease,
  write_back,
}
use power_adapter_blogs.Outbox.System.{
  Claim, System, Step, enqueues, takes, settles, IsNewToken, PksUnique, claim_one-Claims,
  pk-write_back,
}

module _ {E : Type 0} (max_attempts : ℕ) (s : System E) where
  pub data RowMove (row : OutboxRow E) : OutboxRow E → Type 0 where
    kept : RowMove row row
    leased :
        (now lease_seconds token : ℕ)
        → is_claimable now lease_seconds row ≡ true
        → ((c : Claim E) → In c s.claims → IsNewToken token c)
        → RowMove row (lease now token row)
    written :
        (c : Claim E) (answer : Answer) (later : ℕ)
        → In c s.claims
        → holds_lease c.row.pk c.token row ≡ true
        → RowMove row (write_back c.row (delivery_of answer c.row.partition) max_attempts later row)

  -- The row after an update: changed if it passes the test.
  after_update :
      (p : OutboxRow E → Bool) (f : OutboxRow E → OutboxRow E) (id : ℕ) (row : OutboxRow E)
      → ((x : OutboxRow E) → (f x).pk ≡ x.pk)
      → find (has_row_pk id) s.table ≡ some row
      → find (has_row_pk id) (update p f s.table) ≡ some (changed p f row)
  after_update p f id row same h =
      find-update p f (has_row_pk id) s.table (λ x. ap (λ (k : ℕ). k == id) (same x))
      ∙ ap (λ o. Option.map (changed p f) o) h

  changed_move :
      (p : OutboxRow E → Bool) (f : OutboxRow E → OutboxRow E) (row : OutboxRow E)
      → (p row ≡ true → RowMove row (f row))
      → RowMove row (changed p f row)
  changed_move p f row move = go (p row) refl
    where
      go : (b : Bool) → p row ≡ b → RowMove row (if b then f row else row)
      go true e = move e
      go false e = kept

  found_append :
      (id : ℕ) (row new : OutboxRow E)
      → find (has_row_pk id) s.table ≡ some row
      → find (has_row_pk id) (s.table ++ new ∷ []) ≡ some row
  found_append id row new h = find-append (has_row_pk id) s.table new ∙ ground arith

  -- A row of the table stays there, and changes by a claim or by the update of its lease's holder.
  pub Step-RowMove :
      (t : System E) (id : ℕ) (row : OutboxRow E)
      → PksUnique s.table
      → find (has_row_pk id) s.table ≡ some row
      → Step max_attempts s t
      → (row' : OutboxRow E) × (find (has_row_pk id) t.table ≡ some row') × RowMove row row'
  unfolding settle
  Step-RowMove t id row unique h (enqueues new waiting attempts token time fresh) =
      (row, found_append id row new h, kept)
  Step-RowMove t id row unique h (takes now seconds token held table new e) =
      let c = claim_one-Claims now seconds token held s.table table unique e in
      let f : OutboxRow E → OutboxRow E = lease now token in
      let p : OutboxRow E → Bool = has_row_pk c.chosen.pk in
      (
        changed p f row,
        rw c.written (after_update p f id row (λ x. unfold lease in refl) h),
        changed_move p f row λ at.
            let same_key : c.chosen.pk ≡ id =
              sym (==→≡ row.pk c.chosen.pk at)
              ∙ ==→≡ row.pk id (find-passes (has_row_pk id) s.table h) in
            let same : some c.chosen ≡ some row =
              sym c.found ∙ ap (λ (k : ℕ). find (has_row_pk k) s.table) same_key ∙ h in
            leased now seconds token (claimable_row c.chosen row now seconds same c.claimable) new,
      )
    where
      claimable_row :
          (a b : OutboxRow E) (now seconds : ℕ)
          → some a ≡ some b
          → is_claimable now seconds a ≡ true
          → is_claimable now seconds b ≡ true
      claimable_row a b now seconds e h = cc
  Step-RowMove t id row unique h (settles c answer later there) =
      let delivery : Delivery = delivery_of answer c.row.partition in
      let f : OutboxRow E → OutboxRow E = write_back c.row delivery max_attempts later in
      let p : OutboxRow E → Bool = holds_lease c.row.pk c.token in
      (
        changed p f row,
        after_update p f id row (pk-write_back c.row delivery max_attempts later) h,
        changed_move p f row λ at. written c answer later there at,
      )
