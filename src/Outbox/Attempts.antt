-- ===== src/Outbox/Attempts.antt =====
-- security/outbox.py: what the rows of the table look like, over any steps.
use power_adapter_blogs.Shared.{
  ℕ, String, ◌≤◌, ◌<◌, max, ◌≡◌, refl, sym, ◌∙◌, ap, inl, inr, Bool, true, false, ◌||◌, Option,
  none, some, List, arith, ◌==◌, find, In, is_some, if◌then◌else◌, find-append, find-update,
  find-passes, changed, update, ==→≡, ==-refl, Option-cases,
}
use mathlib.Core.Option
use power_adapter_blogs.Text.{is_empty}
use power_adapter_blogs.Outbox.{
  outbox_pending, OutboxRow, no_mapping, no_integrity, integrity, Answer, raised, returned,
  Delivery, succeeded, failed_with, validated_receipt, delivery_of, is_waiting, is_processing,
  is_delivered, is_claimable, has_row_pk, has_token, lease, holds_lease, write_back, write_failure,
  write_success, is_terminal, claim_one, settle,
}
use power_adapter_blogs.Outbox.System.{
  Claim, System, Step, enqueues, takes, settles, Reach, here, then_step, PksUnique, Step-PksUnique,
  claim_one-Claims, pk-write_back,
}
use power_adapter_blogs.Outbox.Leases.{RowMove, kept, leased, written, Step-RowMove}

abbrev pub sequence_of : Option ℕ → ℕ
sequence_of none = 0
sequence_of (some n) = n

receipt_sound :
    (answer : Answer) (partition : String) (sequence : ℕ) (mac : String)
    → delivery_of answer partition ≡ succeeded sequence mac
    → (0 < sequence) × (is_empty mac ≡ false)
unfolding delivery_of validated_receipt
receipt_sound (raised name) partition sequence mac h = cc
receipt_sound (returned no_mapping) partition sequence mac h = cc
receipt_sound (returned no_integrity) partition sequence mac h = cc
receipt_sound (returned (integrity n x y)) partition sequence mac h = ground arith

module _ {E : Type 0} (m : ℕ) where
  -- Only a row under a lease has a token and a time; an open row has attempts left; a delivered row has
  -- the writer's receipt.
  pub record IsSoundRow (row : OutboxRow E) : Type 0 where
    pub bounded : row.attempts ≤ max 1 m
    pub attempts_left :
        (is_waiting row.status || is_processing row.status) ≡ true → row.attempts < max 1 m
    pub under_token : is_some row.lock_token ≡ is_processing row.status
    pub under_time : is_some row.locked_at ≡ is_processing row.status
    pub receipt :
        is_delivered row.status ≡ true
        → (0 < sequence_of row.delivery_sequence) × (is_empty row.delivery_mac ≡ false)

  -- Keys are unique, rows are sound, and a worker that holds a lease knows the row's attempts.
  pub record IsSoundTable (s : System E) : Type 0 where
    pub unique : PksUnique s.table
    pub rows :
        (id : ℕ) (row : OutboxRow E) → find (has_row_pk id) s.table ≡ some row → IsSoundRow row
    pub honest :
        (c : Claim E) (row : OutboxRow E)
        → In c s.claims
        → find (has_row_pk c.row.pk) s.table ≡ some row
        → holds_lease c.row.pk c.token row ≡ true
        → row.attempts ≡ c.row.attempts

  row-lease :
      (row : OutboxRow E) (now seconds token : ℕ)
      → is_claimable now seconds row ≡ true
      → IsSoundRow row
      → IsSoundRow (lease now token row)
  unfolding lease is_claimable is_processing is_delivered is_waiting
  row-lease row now seconds token claimable sound = record {
    bounded = sound.bounded;
    attempts_left = λ _. sound.attempts_left (ground arith);
    under_token = refl;
    under_time = refl;
    receipt = λ h. cc;
  }

  row-write_back :
      (row row' : OutboxRow E) (delivery : Delivery) (later : ℕ)
      → row'.attempts < max 1 m
      → ((sequence : ℕ) (mac : String)
          → delivery ≡ succeeded sequence mac
          → (0 < sequence) × (is_empty mac ≡ false))
      → IsSoundRow (write_back row' delivery m later row)
  unfolding write_back write_success write_failure is_terminal is_waiting is_processing is_delivered
  row-write_back row row' (succeeded sequence mac) later left ok = record {
    bounded = omega arith;
    attempts_left = λ h. cc;
    under_token = refl;
    under_time = refl;
    receipt = λ h. ok sequence mac refl;
  }
  row-write_back row row' (failed_with name) later left ok = record {
    bounded = omega arith;
    attempts_left = λ h. ground arith;
    under_token = ground arith;
    under_time = ground arith;
    receipt = λ h. ground arith;
  }

  pub record IsEnqueued (row : OutboxRow E) : Type 0 where
    pub waiting : row.status ≡ outbox_pending
    pub attempts : row.attempts ≡ 0
    pub token : row.lock_token ≡ none
    pub time : row.locked_at ≡ none

  row-enqueued : (row : OutboxRow E) → IsEnqueued row → IsSoundRow row
  unfolding is_waiting is_processing is_delivered
  row-enqueued row new = record {
    bounded = omega (arith, new.attempts);
    attempts_left = λ h. omega (arith, new.attempts);
    under_token = rw (new.token, new.waiting) refl;
    under_time = rw (new.time, new.waiting) refl;
    receipt = λ h. let e = new.waiting in ground arith;
  }

  not_enqueued :
      (row : OutboxRow E) (id token : ℕ) → IsEnqueued row → holds_lease id token row ≡ true → ⊥
  unfolding holds_lease is_processing
  not_enqueued row id token new h = let e = new.waiting in ground arith

  own_key : (row : OutboxRow E) (id token : ℕ) → holds_lease id token row ≡ true → row.pk ≡ id
  unfolding holds_lease
  own_key row id token h = ground arith

  attempts_of :
      (row : OutboxRow E) (id token attempts : ℕ)
      → holds_lease id token row ≡ true
      → IsSoundRow row
      → row.attempts ≡ attempts
      → attempts < max 1 m
  unfolding holds_lease
  attempts_of row id token attempts held sound e =
      let left : row.attempts < max 1 m = sound.attempts_left (ground arith) in omega arith

  -- A row that was written back is under no lease.
  released :
      (row' : OutboxRow E) (delivery : Delivery) (later : ℕ) (row : OutboxRow E) (id token : ℕ)
      → holds_lease id token (write_back row' delivery m later row) ≡ true
      → ⊥
  unfolding holds_lease is_processing has_token write_back write_failure write_success
  released row' (succeeded sequence mac) later row id token h = ground arith
  released row' (failed_with name) later row id token h = ground arith

  module _ (s : System E) (sound : IsSoundTable s) where
    RowMove-IsSoundRow :
        (id : ℕ) (row row' : OutboxRow E)
        → find (has_row_pk id) s.table ≡ some row
        → RowMove m s row row'
        → IsSoundRow row'
    RowMove-IsSoundRow id row row' h kept = sound.rows id row h
    RowMove-IsSoundRow id row row' h (leased now seconds token claimable new) =
        row-lease row now seconds token claimable (sound.rows id row h)
    RowMove-IsSoundRow id row row' h (written c answer later there held) =
        row-write_back row c.row (delivery_of answer c.row.partition) later left
          (λ sequence mac e. receipt_sound answer c.row.partition sequence mac e)
      where
        own : find (has_row_pk c.row.pk) s.table ≡ some row
        own =
            ap (λ (k : ℕ). find (has_row_pk k) s.table)
              (sym (own_key row c.row.pk c.token held)
                ∙ ==→≡ row.pk id (find-passes (has_row_pk id) s.table h))
            ∙ h

        left : c.row.attempts < max 1 m
        left =
            attempts_of row c.row.pk c.token c.row.attempts held (sound.rows id row h)
              (sound.honest c row there own held)

    -- A row that was not there is one that was enqueued.
    Step-new :
        (t : System E) (id : ℕ) (row : OutboxRow E)
        → find (has_row_pk id) s.table ≡ none
        → find (has_row_pk id) t.table ≡ some row
        → Step m s t
        → IsEnqueued row
    unfolding settle
    Step-new t id row h h' (enqueues new waiting attempts token time fresh) =
        is_new (sym (find-append (has_row_pk id) s.table new) ∙ h')
      where
        is_new :
            (elim (find (has_row_pk id) s.table) [
              | none ↦ if has_row_pk id new then some new else none
              | some x ↦ some x
            ])
              ≡ some row
            → IsEnqueued row
        is_new e =
            let same : new ≡ row = ground arith in
            record {
              waiting = rw (← same) waiting;
              attempts = rw (← same) attempts;
              token = rw (← same) token;
              time = rw (← same) time;
            }
    Step-new t id row h h' (takes now seconds token held table new e) =
        let c = claim_one-Claims now seconds token held s.table table sound.unique e in
        let nothing : find (has_row_pk id) table ≡ none = rw c.written (
          find-update (has_row_pk c.chosen.pk) (lease now token) (has_row_pk id) s.table
            (λ x. unfold lease in refl)
          ∙ ap (λ o. Option.map (changed (has_row_pk c.chosen.pk) (lease now token)) o) h) in
        absurd (ground arith)
    Step-new t id row h h' (settles c answer later there) =
        let delivery : Delivery = delivery_of answer c.row.partition in
        let f : OutboxRow E → OutboxRow E = write_back c.row delivery m later in
        let p : OutboxRow E → Bool = holds_lease c.row.pk c.token in
        let nothing : find (has_row_pk id) (update p f s.table) ≡ none =
          find-update p f (has_row_pk id) s.table
            (λ x. ap (λ (k : ℕ). k == id) (pk-write_back c.row delivery m later x))
          ∙ ap (λ o. Option.map (changed p f) o) h in
        absurd (ground arith)

    Step-rows :
        (t : System E) (id : ℕ) (row : OutboxRow E)
        → Step m s t
        → find (has_row_pk id) t.table ≡ some row
        → IsSoundRow row
    Step-rows t id row step h' = elim (Option-cases (find (has_row_pk id) s.table)) [
      | inl e ↦ row-enqueued row (Step-new t id row e h' step)
      | inr (old, e) ↦
          let (row', there, move) = Step-RowMove m s t id old sound.unique e step in
          let same : row' ≡ row = ground arith in
          rw (← same) (RowMove-IsSoundRow id old row' e move)
    ]

    moved :
        (c : Claim E) (old row' : OutboxRow E)
        → In c s.claims
        → find (has_row_pk c.row.pk) s.table ≡ some old
        → RowMove m s old row'
        → holds_lease c.row.pk c.token row' ≡ true
        → row'.attempts ≡ c.row.attempts
    unfolding holds_lease lease has_token is_processing
    moved c old row' known e kept held = sound.honest c old known e held
    moved c old row' known e (leased now seconds token claimable new) held =
        absurd (ground (arith, new c known))
    moved c old row' known e (written d answer later there k) held =
        absurd (released d.row (delivery_of answer d.row.partition) later old c.row.pk c.token held)

    -- A worker whose claim is older than the step.
    honest_before :
        (t : System E) (c : Claim E) (row : OutboxRow E)
        → Step m s t
        → In c s.claims
        → find (has_row_pk c.row.pk) t.table ≡ some row
        → holds_lease c.row.pk c.token row ≡ true
        → row.attempts ≡ c.row.attempts
    honest_before t c row step known h' held =
        elim (Option-cases (find (has_row_pk c.row.pk) s.table)) [
          | inl e ↦
              absurd (not_enqueued row c.row.pk c.token (Step-new t c.row.pk row e h' step) held)
          | inr (old, e) ↦
              let (row', there, move) = Step-RowMove m s t c.row.pk old sound.unique e step in
              let same : row' ≡ row = ground arith in
              ap (λ (r : OutboxRow E). r.attempts) (sym same)
              ∙ moved c old row' known e move (rw same held)
        ]

    -- The new claim knows the row that it has just written.
    honest_claim :
        (now seconds token : ℕ) (row row' : OutboxRow E) (table : List (OutboxRow E))
        → claim_one now seconds token s.table ≡ some (row, table)
        → find (has_row_pk row.pk) table ≡ some row'
        → row'.attempts ≡ row.attempts
    honest_claim now seconds token row row' table e h' =
        let c = claim_one-Claims now seconds token row s.table table sound.unique e in
        let key : row.pk ≡ c.chosen.pk =
          ap (λ (r : OutboxRow E). r.pk) c.held ∙ unfold lease in refl in
        let there : find (has_row_pk row.pk) table
            ≡ Option.map (changed (has_row_pk c.chosen.pk) (lease now token)) (some c.chosen) =
          rw (c.written, key)
            (find-update (has_row_pk c.chosen.pk) (lease now token) (has_row_pk c.chosen.pk) s.table
                (λ x. unfold lease in refl)
              ∙ ap (λ o. Option.map (changed (has_row_pk c.chosen.pk) (lease now token)) o)
                  c.found) in
        let hit : changed (has_row_pk c.chosen.pk) (lease now token) c.chosen
            ≡ lease now token c.chosen =
          rw (==-refl c.chosen.pk) refl in
        let both : some row' ≡ some (lease now token c.chosen) = sym h' ∙ there ∙ ap some hit in
        let same : row' ≡ lease now token c.chosen = cc in
        ap (λ (r : OutboxRow E). r.attempts) (same ∙ sym c.held)

    Step-honest :
        (t : System E) (c : Claim E) (row : OutboxRow E)
        → Step m s t
        → In c t.claims
        → find (has_row_pk c.row.pk) t.table ≡ some row
        → holds_lease c.row.pk c.token row ≡ true
        → row.attempts ≡ c.row.attempts
    Step-honest t c row (enqueues new waiting attempts token time fresh) known h held =
        honest_before t c row (enqueues new waiting attempts token time fresh) known h held
    Step-honest t c row (takes now seconds token claimed table new e) (inl same) h held =
        honest_claim now seconds token claimed row table e
          (ap (λ (d : Claim E). find (has_row_pk d.row.pk) table) (sym same) ∙ h)
        ∙ ap (λ (d : Claim E). d.row.attempts) (sym same)
    Step-honest t c row (takes now seconds token claimed table new e) (inr known) h held =
        honest_before t c row (takes now seconds token claimed table new e) known h held
    Step-honest t c row (settles d answer later there) known h held =
        honest_before t c row (settles d answer later there) known h held

    Step-IsSoundTable : (t : System E) → Step m s t → IsSoundTable t
    Step-IsSoundTable t step = record {
      unique = Step-PksUnique m s t sound.unique step;
      rows = λ id row h. Step-rows t id row step h;
      honest = λ c row known h held. Step-honest t c row step known h held;
    }

  -- From a sound table and honest claims, after any steps of any workers the keys are unique,
  -- a row has at most max(1, max_attempts) attempts and fewer while it waits or is leased, a
  -- token and a time exactly while it is leased, and a receipt where it is delivered, and a
  -- worker that holds a lease knows its row's attempts.
  pub Reach-IsSoundTable : (s t : System E) → IsSoundTable s → Reach m s t → IsSoundTable t
  Reach-IsSoundTable s t sound here = sound
  Reach-IsSoundTable s t sound (then_step {t = u} {u = v} r step) =
      Step-IsSoundTable u (Reach-IsSoundTable s u sound r) v step
