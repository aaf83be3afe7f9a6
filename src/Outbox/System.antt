-- ===== src/Outbox/System.antt =====
-- security/outbox.py with any number of workers: their claims, their updates and the insertions of
-- events, in any order. A worker that crashes takes no further step.
use power_adapter_blogs.Shared.{
  ℕ, ◌≤◌, ◌≡◌, refl, sym, ◌∙◌, ap, inl, inr, true, false, none, some, List, [], ◌∷◌, ◌++◌, arith,
  ◌==◌, find, count, select, update, In, In-select, find-In, Option-cases, count-update_same,
  count-append, ==-refl, ==→≡, ◌+◌, Bool-cases,
}
use power_adapter_blogs.Outbox.{
  OutboxRow, Answer, Delivery, delivery_of, outbox_pending, is_before, earliest, is_claimable,
  has_row_pk, lease, claim_one, settle, holds_lease, write_back, write_failure, write_success,
  succeeded, failed_with,
}

-- What a worker keeps of its claim.
pub record Claim (E : Type 0) : Type 0 where
  pub row : OutboxRow E
  pub token : ℕ

pub record System (E : Type 0) : Type 0 where
  pub table : List (OutboxRow E)
  pub claims : List (Claim E)

abbrev pub IsNewToken : {E : Type 0} → ℕ → Claim E → Type 0
IsNewToken token claim = (claim.token == token) ≡ false

-- All workers are run with one number of attempts.
pub data Step {E : Type 0} (max_attempts : ℕ) (s : System E) : System E → Type 0 where
  -- `enqueue_audit_event` inserts a row under a new key.
  enqueues :
      (row : OutboxRow E)
      → row.status ≡ outbox_pending
      → row.attempts ≡ 0
      → row.lock_token ≡ none
      → row.locked_at ≡ none
      → count (has_row_pk row.pk) s.table ≡ 0
      → Step max_attempts s (record s { table = s.table ++ row ∷ [] })
  -- A worker claims a row with a token that `uuid4()` has not given before.
  takes :
      (now lease_seconds token : ℕ) (row : OutboxRow E) (table : List (OutboxRow E))
      → ((c : Claim E) → In c s.claims → IsNewToken token c)
      → claim_one now lease_seconds token s.table ≡ some (row, table)
      → Step max_attempts s
          (record { table = table; claims = record { row = row; token = token } ∷ s.claims })
  -- A worker writes back how its delivery went.
  settles :
      (c : Claim E) (answer : Answer) (later : ℕ)
      → In c s.claims
      → Step max_attempts s (record s {
        table =
            (settle c.row c.token
              (delivery_of answer c.row.partition)
              max_attempts
              later
              s.table).1;
      })

pub data Reach {E : Type 0} (max_attempts : ℕ) (s : System E) : System E → Type 0 where
  here : Reach max_attempts s s
  then_step :
      {t u : System E} → Reach max_attempts s t → Step max_attempts t u → Reach max_attempts s u

module _ {E : Type 0} where
  abbrev pub PksUnique : List (OutboxRow E) → Type 0
  PksUnique table = (id : ℕ) → count (has_row_pk id) table ≤ 1

  earliest-In :
      (rows : List (OutboxRow E)) (row : OutboxRow E) → earliest rows ≡ some row → In row rows
  unfolding earliest
  earliest-In [] row h = cc
  earliest-In (x ∷ xs) row h = elim (Option-cases (earliest xs)) [
    | inl e ↦ inl (ground arith)
    | inr (y, e) ↦ elim (Bool-cases (is_before y x)) [
      | inl t ↦ inr (earliest-In xs row (ground arith))
      | inr f ↦ inl (ground arith)
    ]
  ]

  -- What a claim has chosen and written.
  pub record Claims (now lease_seconds token : ℕ) (row : OutboxRow E)
      (table table' : List (OutboxRow E)) : Type 0 where
    pub chosen : OutboxRow E
    pub claimable : is_claimable now lease_seconds chosen ≡ true
    pub held : row ≡ lease now token chosen
    pub found : find (has_row_pk chosen.pk) table ≡ some chosen
    pub written : table' ≡ update (has_row_pk chosen.pk) (lease now token) table

  pub claim_one-Claims :
      (now lease_seconds token : ℕ) (row : OutboxRow E) (table table' : List (OutboxRow E))
      → PksUnique table
      → claim_one now lease_seconds token table ≡ some (row, table')
      → Claims now lease_seconds token row table table'
  unfolding claim_one
  claim_one-Claims now lease_seconds token row table table' unique h =
      elim (Option-cases (earliest (select (is_claimable now lease_seconds) table))) [
        | inl e ↦ absurd (ground arith)
        | inr (x, e) ↦
            let (there, ok) =
              In-select (is_claimable now lease_seconds) table x (earliest-In _ x e) in
            record {
              chosen = x;
              claimable = ok;
              held = ground arith;
              found = find-In (has_row_pk x.pk) table x there (==-refl x.pk) (unique x.pk);
              written = ground arith;
            }
      ]

  pub pk-lease : (now token : ℕ) (row : OutboxRow E) → (lease now token row).pk ≡ row.pk
  unfolding lease
  pk-lease now token row = refl

  pub pk-write_back :
      (row' : OutboxRow E) (delivery : Delivery) (max_attempts later : ℕ) (row : OutboxRow E)
      → (write_back row' delivery max_attempts later row).pk ≡ row.pk
  unfolding write_back write_failure write_success
  pk-write_back row' (succeeded sequence mac) max_attempts later row = refl
  pk-write_back row' (failed_with name) max_attempts later row = refl

  fresh_key :
      (table : List (OutboxRow E)) (row : OutboxRow E) (id : ℕ)
      → PksUnique table
      → count (has_row_pk row.pk) table ≡ 0
      → count (has_row_pk id) table + count (has_row_pk id) (row ∷ []) ≤ 1
  unfolding count
  fresh_key table row id unique fresh = elim (Bool-cases (row.pk == id)) [
    | inl e ↦
        let none_there : count (has_row_pk id) table ≡ 0 =
          ap (λ (k : ℕ). count (has_row_pk k) table) (sym (==→≡ row.pk id e)) ∙ fresh in
        ground arith
    | inr f ↦ ground (arith, unique id)
  ]

  -- Every step keeps the primary keys apart.
  pub Step-PksUnique :
      (max_attempts : ℕ) (s t : System E)
      → PksUnique s.table
      → Step max_attempts s t
      → PksUnique t.table
  unfolding settle
  Step-PksUnique m s t unique (enqueues row waiting attempts token time fresh) = λ id.
      rw (count-append (has_row_pk id) s.table (row ∷ [])) (fresh_key s.table row id unique fresh)
  Step-PksUnique m s t unique (takes now seconds token row table new e) = λ id.
      let c = claim_one-Claims now seconds token row s.table table unique e in
      rw
        (
          c.written,
          count-update_same (has_row_pk c.chosen.pk) (lease now token) (has_row_pk id) s.table
              (λ x. unfold lease in refl),
        )
        (unique id)
  Step-PksUnique m s t unique (settles c answer later there) = λ id.
      let delivery : Delivery = delivery_of answer c.row.partition in
      rw
        (count-update_same (holds_lease c.row.pk c.token) (write_back c.row delivery m later)
          (has_row_pk id) s.table
          (λ x. ap (λ (k : ℕ). k == id) (pk-write_back c.row delivery m later x)))
        (unique id)
