-- ===== src/Outbox/Batch.antt =====
-- security/outbox.py: `deliver_outbox_batch`, a bounded number of claims and deliveries.
use power_adapter_blogs.Shared.{
  ℕ, zero, suc, ◌+◌, ◌≤◌, min, ◌≡◌, Bool, true, false, none, some, List, arith, if◌then◌else◌,
  Option-cases, inl, inr,
}
use power_adapter_blogs.Outbox.{
  OutboxRow, Answer, Delivery, succeeded, failed_with, delivery_of, claim_one, is_terminal, settle,
}

pub record DeliveryBatchResult : Type 0 where
  pub delivered : ℕ
  pub failed : ℕ
  pub dead : ℕ
  pub lost_leases : ℕ

-- What one run of the worker meets: in each round the time and the token of its claim, what the writer
-- answers and what other workers make of the table meanwhile, and the time of the update.
pub record Rounds (E : Type 0) : Type 0 where
  pub claim_time : ℕ → ℕ
  pub token : ℕ → ℕ
  pub writer : ℕ → OutboxRow E → List (OutboxRow E) → Answer × List (OutboxRow E)
  pub settle_time : ℕ → ℕ

-- The counters after one round: whether the update found its row, and how the delivery went.
unfoldable pub counted : Bool → Delivery → Bool → DeliveryBatchResult → DeliveryBatchResult
counted false delivery terminal r = record r { lost_leases = r.lost_leases + 1 }
counted true (succeeded sequence mac) terminal r = record r { delivered = r.delivered + 1 }
counted true (failed_with name) terminal r = record r {
  failed = r.failed + 1;
  dead = if terminal then r.dead + 1 else r.dead;
}

abbrev pub handled : DeliveryBatchResult → ℕ
handled r = r.delivered + (r.failed + r.lost_leases)

counted-handled :
    (updated terminal : Bool) (delivery : Delivery) (r : DeliveryBatchResult)
    → handled (counted updated delivery terminal r) ≡ handled r + 1
unfolding counted
counted-handled updated terminal delivery r = ground arith

counted-dead :
    (updated terminal : Bool) (delivery : Delivery) (r : DeliveryBatchResult)
    → r.dead ≤ r.failed
    → (counted updated delivery terminal r).dead ≤ (counted updated delivery terminal r).failed
unfolding counted
counted-dead updated terminal delivery r h = ground arith

module _ {E : Type 0} (rounds : Rounds E) (max_attempts lease_seconds : ℕ) where
  open rounds use {claim_time, token, writer, settle_time}

  -- One round of the loop once a row is claimed.
  unfoldable pub deliver_one :
      ℕ
      → OutboxRow E
      → List (OutboxRow E)
      → DeliveryBatchResult
      → DeliveryBatchResult × List (OutboxRow E)
  unfolding counted
  deliver_one i row table result =
      let (answer, table') = writer i row table in
      let delivery : Delivery = delivery_of answer row.partition in
      let (updated, table'') = settle row (token i) delivery max_attempts (settle_time i) table' in
      (counted updated delivery (is_terminal (row.attempts + 1) max_attempts) result, table'')

  -- The loop, from round `i` on
  unfoldable pub deliver_rounds :
      ℕ → ℕ → DeliveryBatchResult → List (OutboxRow E) → DeliveryBatchResult × List (OutboxRow E)
  unfolding deliver_one
  deliver_rounds zero i result table = (result, table)
  deliver_rounds (suc n) i result table =
      elim (claim_one (claim_time i) lease_seconds (token i) table) [
        | none ↦ (result, table)
        | some (row, table') ↦
            deliver_rounds n (suc i) (deliver_one i row table' result).0
              (deliver_one i row table' result).1
      ]

  unfoldable pub deliver_outbox_batch :
      ℕ → List (OutboxRow E) → DeliveryBatchResult × List (OutboxRow E)
  deliver_outbox_batch limit table =
      deliver_rounds (min limit 1000) 0
        (record { delivered = 0; failed = 0; dead = 0; lost_leases = 0 }) table

  deliver_one-handled :
      (i : ℕ) (row : OutboxRow E) (table : List (OutboxRow E)) (r : DeliveryBatchResult)
      → handled (deliver_one i row table r).0 ≡ handled r + 1
  unfolding deliver_one
  deliver_one-handled i row table r = counted-handled _ _ _ r

  deliver_one-dead :
      (i : ℕ) (row : OutboxRow E) (table : List (OutboxRow E)) (r : DeliveryBatchResult)
      → r.dead ≤ r.failed
      → (deliver_one i row table r).0.dead ≤ (deliver_one i row table r).0.failed
  unfolding deliver_one
  deliver_one-dead i row table r h = counted-dead _ _ _ r h

  rounds_bounded :
      (n i : ℕ) (r : DeliveryBatchResult) (table : List (OutboxRow E))
      → r.dead ≤ r.failed
      → (handled (deliver_rounds n i r table).0 ≤ handled r + n)
        × ((deliver_rounds n i r table).0.dead ≤ (deliver_rounds n i r table).0.failed)
  unfolding deliver_rounds
  rounds_bounded zero i r table h = (omega arith, h)
  rounds_bounded (suc n) i r table h =
      elim (Option-cases (claim_one (claim_time i) lease_seconds (token i) table)) [
        | inl e ↦ rw (e, deliver_rounds) (omega arith, h)
        | inr ((row, table'), e) ↦
            let one = deliver_one i row table' r in
            let (a, b) = rounds_bounded n (suc i) one.0 one.1 (deliver_one-dead i row table' r h) in
            rw (e, deliver_rounds) (omega (arith, a, deliver_one-handled i row table' r), b)
      ]

  -- A batch handles at most as many rows as its limit says and at most a thousand, and counts
  -- no more rows dead than failed.
  pub deliver_outbox_batch-bounds :
      (limit : ℕ) (table : List (OutboxRow E))
      → (handled (deliver_outbox_batch limit table).0 ≤ limit)
        × (handled (deliver_outbox_batch limit table).0 ≤ 1000)
        × ((deliver_outbox_batch limit table).0.dead ≤ (deliver_outbox_batch limit table).0.failed)
  unfolding deliver_outbox_batch
  deliver_outbox_batch-bounds limit table =
      let start : DeliveryBatchResult = record {
        delivered = 0;
        failed = 0;
        dead = 0;
        lost_leases = 0;
      } in
      let (a, b) = rounds_bounded (min limit 1000) 0 start table (omega arith) in
      (omega (arith, a), omega (arith, a), b)
