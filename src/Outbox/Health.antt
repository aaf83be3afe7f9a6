-- ===== src/Outbox/Health.antt =====
-- security/outbox.py, `collect_outbox_health`: the counts of the table, and what they are judged by.
use power_adapter_blogs.Shared.{
  ℕ, ◌-◌, min, String, ◌≡◌, refl, sym, ap, ◌∙◌, inl, inr, Bool, true, false, not, ◌&&◌, ◌||◌,
  Option, none, some, List, [], ◌∷◌, ◌++◌, arith, ◌==◌, leb, ltb, if◌then◌else◌, any, count,
  Bool-cases, Option-cases,
}
use power_adapter_blogs.Outbox.{OutboxRow, is_waiting, is_processing, is_dead, is_stale}

pub record OutboxHealth : Type 0 where
  pub healthy : Bool
  pub pending : ℕ
  pub due_pending : ℕ
  pub processing : ℕ
  pub stale_processing : ℕ
  pub dead : ℕ
  pub oldest_pending_seconds : ℕ
  pub reason_codes : List String

unfoldable pub reasons : (dead stale pending max_pending oldest max_oldest : ℕ) → List String
reasons dead stale pending max_pending oldest max_oldest =
    (if dead == 0 then [] else "dead_letters" ∷ [])
    ++ ((if stale == 0 then [] else "stale_processing" ∷ [])
        ++ ((if ltb max_pending pending then "pending_count_exceeded" ∷ [] else [])
            ++ (if ltb max_oldest oldest then "oldest_pending_exceeded" ∷ [] else [])))

unfoldable pub no_reasons : List String → Bool
no_reasons [] = true
no_reasons (x ∷ xs) = false

-- `max(0, int((now - oldest_created_at).total_seconds()))`
unfoldable pub seconds_since : ℕ → Option ℕ → ℕ
seconds_since now none = 0
seconds_since now (some t) = now - t

seconds_since-min :
    (now limit a b : ℕ) → ltb limit (now - min a b) ≡ (ltb limit (now - a) || ltb limit (now - b))
seconds_since-min now limit a b = elim (Bool-cases (leb a b)) [
  | inl t ↦ ground arith
  | inr f ↦ ground arith
]

or-false : (b : Bool) → b ≡ (b || false)
or-false true = refl
or-false false = refl

module _ {E : Type 0} where
  -- `aggregate(value=Min("created_at"))` of the pending rows
  unfoldable pub oldest_created_at : List (OutboxRow E) → Option ℕ
  unfolding is_waiting
  oldest_created_at [] = none
  oldest_created_at (x ∷ xs) =
      let rest = oldest_created_at xs in
      if is_waiting x.status
      then elim rest [ none ↦ some x.created_at | some t ↦ some (min x.created_at t) ]
      else rest

  unfoldable pub is_stale_processing : ℕ → ℕ → OutboxRow E → Bool
  unfolding is_processing is_stale
  is_stale_processing now lease_seconds row =
      is_processing row.status && is_stale now lease_seconds row.locked_at

  unfoldable pub collect_outbox_health : ℕ → ℕ → ℕ → ℕ → List (OutboxRow E) → OutboxHealth
  unfolding reasons no_reasons oldest_created_at seconds_since is_stale_processing is_waiting
      is_processing is_dead
  collect_outbox_health now max_pending max_oldest_pending_seconds lease_seconds table =
      let oldest : ℕ = seconds_since now (oldest_created_at table) in
      let pending : ℕ = count (λ (row : OutboxRow E). is_waiting row.status) table in
      let stale : ℕ = count (is_stale_processing now lease_seconds) table in
      let dead : ℕ = count (λ (row : OutboxRow E). is_dead row.status) table in
      let codes : List String =
        reasons dead stale pending max_pending oldest max_oldest_pending_seconds in
      record {
        healthy = no_reasons codes;
        pending = pending;
        due_pending =
            count (λ (row : OutboxRow E). is_waiting row.status && leb row.next_attempt_at now)
              table;
        processing = count (λ (row : OutboxRow E). is_processing row.status) table;
        stale_processing = stale;
        dead = dead;
        oldest_pending_seconds = oldest;
        reason_codes = codes;
      }

  abbrev pub is_late : ℕ → ℕ → OutboxRow E → Bool
  is_late now limit row = is_waiting row.status && ltb limit (now - row.created_at)

  late-any :
      (now limit : ℕ) (table : List (OutboxRow E))
      → ltb limit (seconds_since now (oldest_created_at table)) ≡ any (is_late now limit) table
  unfolding oldest_created_at any seconds_since
  late-any now limit [] = ground arith
  late-any now limit (x ∷ xs) = elim (Bool-cases (is_waiting x.status)) [
    | inl w ↦ elim (Option-cases (oldest_created_at xs)) [
      | inl e ↦
          let r : ltb limit (seconds_since now (oldest_created_at xs))
              ≡ any (is_late now limit) xs =
            late-any now limit xs in
          let z : ltb limit 0 ≡ false = ground arith in
          let q : any (is_late now limit) xs ≡ false = sym (rw e at r) ∙ z in
          rw (w, e) (rw q (or-false (ltb limit (now - x.created_at))))
      | inr (t, e) ↦
          let r : ltb limit (seconds_since now (oldest_created_at xs))
              ≡ any (is_late now limit) xs =
            late-any now limit xs in
          rw (w, e)
            (seconds_since-min now limit x.created_at t
              ∙ ap (λ b. ltb limit (now - x.created_at) || b) (rw e at r))
    ]
    | inr n ↦ rw n (late-any now limit xs)
  ]

count-zero : {A : Type 0} (p : A → Bool) (xs : List A) → (count p xs == 0) ≡ not (any p xs)
unfolding count any
count-zero p [] = refl
count-zero p (x ∷ xs) = ground (arith, count-zero p xs)

no_reasons-eq :
    (dead stale pending max_pending oldest max_oldest : ℕ)
    → no_reasons (reasons dead stale pending max_pending oldest max_oldest)
      ≡ ((dead == 0) && ((stale == 0) && (leb pending max_pending && not (ltb max_oldest oldest))))
unfolding no_reasons reasons
no_reasons-eq dead stale pending max_pending oldest max_oldest = ground arith

-- The outbox is healthy exactly where no row is dead, no lease is over, no more rows wait than
-- allowed, and none of them waits longer than allowed.
pub collect_outbox_health-healthy :
    {E : Type 0} (now max_pending max_oldest lease_seconds : ℕ) (table : List (OutboxRow E))
    → (collect_outbox_health now max_pending max_oldest lease_seconds table).healthy ≡ (
        not (any (λ (row : OutboxRow E). is_dead row.status) table)
        && (not (any (is_stale_processing now lease_seconds) table)
            && (leb (count (λ (row : OutboxRow E). is_waiting row.status) table) max_pending
                && not (any (is_late now max_oldest) table))))
unfolding collect_outbox_health
collect_outbox_health-healthy now max_pending max_oldest lease_seconds table =
    rw
      (
        ← late-any now max_oldest table,
        ← count-zero (λ row. is_dead row.status) table,
        ← count-zero (is_stale_processing now lease_seconds) table,
      )
      (no_reasons-eq (count (λ row. is_dead row.status) table)
        (count (is_stale_processing now lease_seconds) table)
        (count (λ row. is_waiting row.status) table) max_pending
        (seconds_since now (oldest_created_at table)) max_oldest)
