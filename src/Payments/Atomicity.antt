-- ===== src/Payments/Atomicity.antt =====
-- A call that raises has committed nothing of its own, the timeout after the commit apart.
use payment_platform_quality.Prelude.{Option, List, ◌≡◌, ◌≢◌, ◌⊎◌, String, arith}
use payment_platform_quality.Failure.{FailurePoint, Failure, err, simulated_timeout}
use payment_platform_quality.Database.Types.{Payment}
use payment_platform_quality.Database.Store.{Db}
use payment_platform_quality.Payments.Commands.{
  AuthorizationCommand, LifecycleCommand, Dictionary, Fresh,
}
use payment_platform_quality.Payments.Claims.{claim_idempotency_key}
use payment_platform_quality.Payments.Commit.{conclude}
use payment_platform_quality.Payments.Authorize.{authorize_at}
use payment_platform_quality.Payments.Lifecycle.{apply_lifecycle_operation}

abbrev after_commit : Failure
after_commit = simulated_timeout FailurePoint.after_commit

-- An authorization that raises anything but the timeout after the commit leaves the database as
-- it was, or as the other sessions left it.
pub authorize_atomic :
    (digest : Dictionary → String) (others : Db → Db) (command : AuthorizationCommand)
    (key : String) (point : Option FailurePoint) (fresh : Fresh) (db : Db) {db' : Db} {e : Failure}
    → authorize_at digest others command key point fresh db ≡ (err e, db')
    → e ≢ after_commit
    → (db' ≡ db) ⊎ (db' ≡ others db)
unfolding authorize_at claim_idempotency_key conclude
authorize_atomic digest others command key point fresh db h ne = ground arith

-- A lifecycle call that raises anything but the timeout after the commit leaves the database as it
-- was, or as the other sessions left it.
pub lifecycle_atomic :
    (digest : Dictionary → String) (others : Db → Db) (loaded : List Payment)
    (command : LifecycleCommand) (key : String) (point : Option FailurePoint) (fresh : Fresh)
    (db : Db) {db' : Db} {e : Failure}
    → apply_lifecycle_operation digest others loaded command key point fresh db ≡ (err e, db')
    → e ≢ after_commit
    → (db' ≡ db) ⊎ (db' ≡ others db)
unfolding apply_lifecycle_operation claim_idempotency_key conclude
lifecycle_atomic digest others loaded command key point fresh db h ne = ground arith
