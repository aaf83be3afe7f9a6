-- ===== src/Outbox/Progress.antt =====
-- security/outbox.py: a row that is not final is claimed again.
use power_adapter_blogs.Shared.{
  ℕ, ◌+◌, ◌≤◌, max, ◌≡◌, refl, inl, inr, Bool, true, false, ◌&&◌, ◌||◌, Option, none, some, List,
  [], ◌∷◌, arith, leb, is_some, select, In, Bool-cases, Option-cases,
}
use power_adapter_blogs.Outbox.{
  OutboxStatus, outbox_pending, processing, delivered, dead, is_waiting, is_processing,
  is_delivered, is_dead, OutboxRow, is_stale, is_claimable, is_before, earliest, claim_one,
}

-- The time from which on a row can be claimed
unfoldable pub due_time : ℕ → OutboxStatus → ℕ → Option ℕ → ℕ
due_time lease_seconds outbox_pending next_attempt_at locked_at = next_attempt_at
due_time lease_seconds processing next_attempt_at none = 0
due_time lease_seconds processing next_attempt_at (some t) = t + max 30 lease_seconds
due_time lease_seconds delivered next_attempt_at locked_at = 0
due_time lease_seconds dead next_attempt_at locked_at = 0

due_claimable :
    (now lease_seconds : ℕ) (status : OutboxStatus) (next_attempt_at : ℕ) (locked_at : Option ℕ)
    → (is_delivered status || is_dead status) ≡ false
    → due_time lease_seconds status next_attempt_at locked_at ≤ now
    → ((is_waiting status && leb next_attempt_at now)
        || (is_processing status && is_stale now lease_seconds locked_at))
      ≡ true
unfolding is_delivered is_dead is_waiting is_processing is_stale due_time
due_claimable now lease_seconds outbox_pending next_attempt_at locked_at h t = ground arith
due_claimable now lease_seconds processing next_attempt_at none h t = refl
due_claimable now lease_seconds processing next_attempt_at (some l) h t = ground arith
due_claimable now lease_seconds delivered next_attempt_at locked_at h t = cc
due_claimable now lease_seconds dead next_attempt_at locked_at h t = cc

module _ {E : Type 0} where
  selected :
      (p : OutboxRow E → Bool) (xs : List (OutboxRow E)) (x : OutboxRow E)
      → In x xs
      → p x ≡ true
      → In x (select p xs)
  unfolding select
  selected p [] x h t = absurd h
  selected p (y ∷ ys) x (inl e) t = let t' : p y ≡ true = rw (← e) t in rw t' (inl e)
  selected p (y ∷ ys) x (inr h) t = elim (Bool-cases (p y)) [
    | inl k ↦ rw k (inr (selected p ys x h t))
    | inr k ↦ rw k (selected p ys x h t)
  ]

  pub earliest_there :
      (xs : List (OutboxRow E)) (x : OutboxRow E) → In x xs → is_some (earliest xs) ≡ true
  unfolding earliest
  earliest_there [] x h = absurd h
  earliest_there (y ∷ ys) x h = elim (Option-cases (earliest ys)) [
    | inl e ↦ rw e refl
    | inr (z, e) ↦ elim (Bool-cases (is_before z y)) [
      | inl b ↦ rw (e, b) refl
      | inr b ↦ rw (e, b) refl
    ]
  ]

  claim_there :
      (now lease_seconds token : ℕ) (table : List (OutboxRow E))
      → is_some (earliest (select (is_claimable now lease_seconds) table)) ≡ true
      → is_some (claim_one now lease_seconds token table) ≡ true
  unfolding claim_one
  claim_there now lease_seconds token table h =
      elim (Option-cases (earliest (select (is_claimable now lease_seconds) table))) [
        | inl e ↦ absurd (let q = rw e at h in cc)
        | inr (x, e) ↦ rw (e, claim_one) refl
      ]

  -- While a row of the table is neither delivered nor dead, a claim finds a row, from the
  -- row's next attempt on where it waits, and from the end of its lease on where it is leased.
  pub claim_one-finds :
      (lease_seconds : ℕ) (table : List (OutboxRow E)) (row : OutboxRow E) (now token : ℕ)
      → In row table
      → (is_delivered row.status || is_dead row.status) ≡ false
      → due_time lease_seconds row.status row.next_attempt_at row.locked_at ≤ now
      → is_some (claim_one now lease_seconds token table) ≡ true
  unfolding is_claimable
  claim_one-finds lease_seconds table row now token h open_ due =
      claim_there now lease_seconds token table (
        earliest_there _ row (
          selected (is_claimable now lease_seconds) table row h (
            due_claimable now lease_seconds row.status row.next_attempt_at row.locked_at open_
              due)))
