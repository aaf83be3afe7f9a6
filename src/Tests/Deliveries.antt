-- ===== src/Tests/Deliveries.antt =====
-- security/outbox.py at concrete inputs.
use power_adapter_blogs.Shared.{
  ℕ, ◌+◌, ◌≤◌, ◌≡◌, refl, inl, inr, true, false, not, ◌&&◌, ◌||◌, none, some, List, [], ◌∷◌, arith,
  ◌==◌, ==-refl, leb, any, count, find, select, update, is_some,
}
use power_adapter_blogs.Outbox.{
  outbox_pending, processing, delivered, is_waiting, is_processing, is_delivered, is_dead,
  OutboxRow, raised, is_stale, has_token, is_claimable, is_before, earliest, lease, claim_one,
  holds_lease, failed_with, settle,
}
use power_adapter_blogs.Outbox.Batch.{
  Rounds, handled, deliver_outbox_batch, deliver_outbox_batch-bounds,
}
use power_adapter_blogs.Outbox.System.{
  Claim, System, enqueues, takes, Reach, here, then_step, PksUnique,
}
use power_adapter_blogs.Outbox.Final.{Lost, Reach-final, settle-Lost}
use power_adapter_blogs.Outbox.Attempts.{IsSoundTable, Reach-IsSoundTable}
use power_adapter_blogs.Outbox.Progress.{due_time, claim_one-finds}
use power_adapter_blogs.Outbox.Health.{
  collect_outbox_health, is_stale_processing, is_late, collect_outbox_health-healthy,
}
use power_adapter_blogs.Outbox.Enqueue.{
  Enqueued, Events, queued, given_partition, identifier_of, time_or, new_row, insert_row,
  enqueue_identified, enqueue_audit_event, enqueue_audit_event-again,
}

abbrev waiting_row : OutboxRow ℕ
waiting_row = record {
  pk = 1;
  event_id = 11;
  event_type = "mfa.device_revoked";
  partition = "mfa:2026-07";
  event = 500;
  status = outbox_pending;
  attempts = 0;
  next_attempt_at = 100;
  locked_at = none;
  lock_token = none;
  last_error_code = "";
  created_at = 90;
  delivered_at = none;
  delivery_sequence = none;
  delivery_mac = "";
}

abbrev done_row : OutboxRow ℕ
done_row = record waiting_row {
  pk = 2;
  event_id = 12;
  status = delivered;
  attempts = 1;
  created_at = 80;
  delivered_at = some 85;
  delivery_sequence = some 1;
  delivery_mac = "m";
}

abbrev two_rows : List (OutboxRow ℕ)
two_rows = done_row ∷ waiting_row ∷ []

abbrev leased_row : ℕ → ℕ → OutboxRow ℕ
leased_row now token = record waiting_row {
  status = processing;
  locked_at = some now;
  lock_token = some token;
}

claimed : claim_one 100 300 8 two_rows ≡ some (leased_row 100 8, done_row ∷ leased_row 100 8 ∷ [])
unfolding claim_one select is_claimable is_waiting is_processing is_stale is_before earliest lease
    update
claimed = refl

two_rows-PksUnique : PksUnique two_rows
unfolding count
two_rows-PksUnique id = ground arith

-- A worker, with a claim under token 7 that the table does not know any more, and one that claims.
abbrev stale_claim : Claim ℕ
stale_claim = record { row = leased_row 50 7; token = 7 }

abbrev before_claim : System ℕ
before_claim = record { table = two_rows; claims = stale_claim ∷ [] }

abbrev after_claim : System ℕ
after_claim = record {
  table = done_row ∷ leased_row 100 8 ∷ [];
  claims = record { row = leased_row 100 8; token = 8 } ∷ stale_claim ∷ [];
}

token_new : (token : ℕ) → (token == 7) ≡ true → (token == 8) ≡ false
token_new token h = ground arith

one_claim : Reach 3 before_claim after_claim
one_claim = then_step here (
    takes 100 300 8 (leased_row 100 8) (done_row ∷ leased_row 100 8 ∷ [])
      (λ c h. elim h [ inl e ↦ rw e refl | inr none_ ↦ absurd none_ ]) claimed)

done_found : find (λ (row : OutboxRow ℕ). row.pk == 2) two_rows ≡ some done_row
unfolding find
done_found = refl

done_final : (is_delivered done_row.status || is_dead done_row.status) ≡ true
unfolding is_delivered
done_final = refl

Reach-final_example : find (λ (row : OutboxRow ℕ). row.pk == 2) after_claim.table ≡ some done_row
Reach-final_example =
    Reach-final 3 before_claim after_claim 2 done_row two_rows-PksUnique done_found done_final
      one_claim

stale_claim-Lost : Lost 3 before_claim stale_claim
unfolding find holds_lease is_processing has_token
stale_claim-Lost = record { known = inl refl; row = waiting_row; there = refl; free = refl }

settle-Lost_example :
    settle (leased_row 50 7) 7 (failed_with "OSError") 12 200 after_claim.table
    ≡ (false, after_claim.table)
settle-Lost_example =
    settle-Lost 3 before_claim after_claim stale_claim (failed_with "OSError") 12 200
      two_rows-PksUnique stale_claim-Lost one_claim

abbrev no_rows : System ℕ
no_rows = record { table = []; claims = [] }

no_rows-IsSoundTable : IsSoundTable 3 no_rows
unfolding count find
no_rows-IsSoundTable = record {
  unique = λ id. omega arith;
  rows = λ id row h. absurd cc;
  honest = λ c row h. absurd h;
}

abbrev one_row : System ℕ
one_row = record { table = waiting_row ∷ []; claims = [] }

one_insertion : Reach 3 no_rows one_row
unfolding count
one_insertion = then_step here (enqueues waiting_row refl refl refl refl refl)

Reach-IsSoundTable_example : IsSoundTable 3 one_row
Reach-IsSoundTable_example = Reach-IsSoundTable 3 no_rows one_row no_rows-IsSoundTable one_insertion

abbrev failing_rounds : Rounds ℕ
failing_rounds = record {
  claim_time = λ i. 100 + i;
  token = λ i. i;
  writer = λ i row table. (raised "OSError", table);
  settle_time = λ i. 200 + i;
}

deliver_outbox_batch-bounds_example :
    (handled (deliver_outbox_batch failing_rounds 3 300 5 two_rows).0 ≤ 5)
    × (handled (deliver_outbox_batch failing_rounds 3 300 5 two_rows).0 ≤ 1000)
    × ((deliver_outbox_batch failing_rounds 3 300 5 two_rows).0.dead
        ≤ (deliver_outbox_batch failing_rounds 3 300 5 two_rows).0.failed)
deliver_outbox_batch-bounds_example = deliver_outbox_batch-bounds failing_rounds 3 300 5 two_rows

waiting_open : (is_delivered waiting_row.status || is_dead waiting_row.status) ≡ false
unfolding is_delivered is_dead
waiting_open = refl

waiting_due :
    due_time 300 waiting_row.status waiting_row.next_attempt_at waiting_row.locked_at ≤ 120
unfolding due_time
waiting_due = omega arith

claim_one-finds_example : is_some (claim_one 120 300 9 two_rows) ≡ true
claim_one-finds_example =
    claim_one-finds 300 two_rows waiting_row 120 9 (inr (inl refl)) waiting_open waiting_due

collect_outbox_health-healthy_example : (collect_outbox_health 120 10 300 300 two_rows).healthy ≡ (
    not (any (λ (row : OutboxRow ℕ). is_dead row.status) two_rows)
    && (not (any (is_stale_processing 120 300) two_rows)
        && (leb (count (λ (row : OutboxRow ℕ). is_waiting row.status) two_rows) 10
            && not (any (is_late 120 300) two_rows))))
collect_outbox_health-healthy_example = collect_outbox_health-healthy 120 10 300 300 two_rows

-- An event is its time.
abbrev some_events : Events ℕ ℕ
some_events = record {
  occurred_at_of = λ e. e;
  partition_for = λ event_type o. event_type;
  equal_events = λ a b. a == b;
}

abbrev some_call : Enqueued ℕ ℕ
some_call = record {
  event_id = some 11;
  event_type = "mfa";
  body = λ i o. o;
  occurred_at = none;
  partition = none;
}

abbrev queued_row : OutboxRow ℕ
queued_row = record waiting_row { event_type = "mfa"; partition = "mfa"; next_attempt_at = 90 }

queued_once :
    enqueue_audit_event some_events some_call 0 1 90 500 [] ≡ queued queued_row (queued_row ∷ [])
unfolding enqueue_audit_event enqueue_identified insert_row new_row given_partition time_or
    identifier_of find
queued_once = refl

nothing_there : find (λ (row : OutboxRow ℕ). row.event_id == 11) [] ≡ none
unfolding find
nothing_there = refl

enqueue_audit_event-again_example :
    enqueue_audit_event some_events some_call 0 2 95 505 (queued_row ∷ [])
    ≡ queued queued_row (queued_row ∷ [])
enqueue_audit_event-again_example =
    enqueue_audit_event-again some_events some_call 11 0 0 1 2 90 95 500 505 [] (queued_row ∷ [])
      queued_row (λ e. ==-refl e) (λ i o. refl) refl nothing_there queued_once
