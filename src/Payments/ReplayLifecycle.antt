-- ===== src/Payments/ReplayLifecycle.antt =====
-- Idempotency of capture, cancellation and refund: what a key returns once a call under it has
-- committed.
use payment_platform_quality.Prelude.{
  Option, none, some, List, ◌≡◌, ◌∙◌, inl, inr, refl, String, arith,
}
use payment_platform_quality.Failure.{FailurePoint, ok, err, simulated_timeout, Result-cases}
use payment_platform_quality.Database.Types.{Payment, IdempotencyRecord}
use payment_platform_quality.Database.Store.{Db, find_claim}
use payment_platform_quality.Payments.Commands.{
  LifecycleCommand, Dictionary, lifecycle_payload, operation_value, Fresh,
}
use payment_platform_quality.Payments.Claims.{Claim, claim_idempotency_key}
use payment_platform_quality.Payments.Commit.{stage_outcome, conclude}
use payment_platform_quality.Payments.Lifecycle.{apply_lifecycle_operation, stage_lifecycle}
use payment_platform_quality.Payments.Staged.{stage_lifecycle_claim}
use payment_platform_quality.Payments.Keys.{
  Leaves, held_claim, claim_replays, completed-Leaves, first_answer, replayed_answer,
}

module _ (digest : Dictionary → String) (others : Db → Db) (loaded : List Payment)
    (command : LifecycleCommand) (key : String) (fresh : Fresh) (db : Db) where
  abbrev lifecycle_print : String
  lifecycle_print = digest (lifecycle_payload command)

  abbrev lifecycle_claim : Claim
  lifecycle_claim =
      claim_idempotency_key key lifecycle_print (operation_value command.operation) fresh.now others
        db

  abbrev HasStaged : Option FailurePoint → Db → Payment → Type 0
  HasStaged point db' p =
      (c : IdempotencyRecord) × (d : Db) × (lifecycle_claim ≡ Claim.held c d)
      × (stage_lifecycle loaded command c point fresh d ≡ ok (p, db'))

  answered_lifecycle :
      (point : Option FailurePoint) (db' : Db) (p : Payment)
      → apply_lifecycle_operation digest others loaded command key point fresh db
        ≡ (ok (first_answer p), db')
      → HasStaged point db' p
  unfolding apply_lifecycle_operation conclude
  answered_lifecycle point db' p h = go lifecycle_claim refl
    where
      go : (k : Claim) → lifecycle_claim ≡ k → HasStaged point db' p
      go (Claim.raises e d) claimed = absurd (ground arith)
      go (Claim.replays s d) claimed = absurd (ground arith)
      go (Claim.held c d) claimed =
          elim (Result-cases (stage_lifecycle loaded command c point fresh d)) [
            | inr (e, failed) ↦ absurd (ground arith)
            | inl ((q, d'), staged) ↦ (c, d, claimed, ground arith)
          ]

  lifecycle-Leaves :
      (db' : Db) (p : Payment) → HasStaged none db' p → Leaves key lifecycle_print p db'
  lifecycle-Leaves db' p (c, d, claimed, staged) =
      completed-Leaves key lifecycle_print (operation_value command.operation) fresh.now others db c
        d db' p claimed
        (stage_lifecycle_claim loaded command c none fresh d p db'
          (held_claim key lifecycle_print (operation_value command.operation) fresh.now others db c
            d claimed).1
          staged)

  stage_point :
      (c : IdempotencyRecord) (d : Db)
      → stage_lifecycle loaded command c (some FailurePoint.after_commit) fresh d
        ≡ stage_lifecycle loaded command c none fresh d
  unfolding stage_lifecycle stage_outcome
  stage_point c d = refl

  stage_before :
      (c : IdempotencyRecord) (d : Db) (x : Payment × Db)
      → stage_lifecycle loaded command c none fresh d ≡ ok x
      → stage_lifecycle loaded command c (some FailurePoint.before_commit) fresh d
        ≡ err (simulated_timeout FailurePoint.before_commit)
  unfolding stage_lifecycle stage_outcome
  stage_before c d x h = ground arith

  -- A capture, cancellation or refund that commits is done once: on every later database that has
  -- the same record under the key, whatever has become of the payment and of all other rows, a
  -- call with this key and command is answered with a copy of the payment as it was written then,
  -- and writes nothing.
  pub lifecycle_replays :
      (db' later_db : Db) (p : Payment)
      → apply_lifecycle_operation digest others loaded command key none fresh db
        ≡ (ok (first_answer p), db')
      → find_claim key later_db ≡ find_claim key db'
      → (others' : Db → Db) (loaded' : List Payment) (point : Option FailurePoint) (later : Fresh)
      → apply_lifecycle_operation digest others' loaded' command key point later later_db
        ≡ (ok (replayed_answer p), later_db)
  unfolding apply_lifecycle_operation
  lifecycle_replays db' later_db p h kept others' loaded' point later =
      let (c, found, same) = lifecycle-Leaves db' p (answered_lifecycle none db' p h) in
      rw
        (claim_replays key lifecycle_print (operation_value command.operation) later.now others'
          later_db c p (kept ∙ found) same)
        refl

  -- The same call with the failure after the commit raises its timeout and leaves the same
  -- database, so that a retry finds the payment; with the failure before the commit it raises its
  -- timeout and commits nothing.
  pub lifecycle_faults :
      (db' : Db) (p : Payment)
      → apply_lifecycle_operation digest others loaded command key none fresh db
        ≡ (ok (first_answer p), db')
      → (apply_lifecycle_operation digest others loaded command key
            (some FailurePoint.after_commit)
            fresh
            db
          ≡ (err (simulated_timeout FailurePoint.after_commit), db'))
        × (apply_lifecycle_operation digest others loaded command key
              (some FailurePoint.before_commit)
              fresh
              db
            ≡ (err (simulated_timeout FailurePoint.before_commit), others db))
  unfolding apply_lifecycle_operation conclude
  lifecycle_faults db' p h =
      let (c, d, claimed, staged) = answered_lifecycle none db' p h in
      (
        rw (claimed, stage_point c d, staged) refl,
        rw (claimed, stage_before c d (p, db') staged) refl,
      )
