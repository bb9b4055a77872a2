-- ===== src/Payments/Replay.antt =====
-- Idempotency: what a key returns once a call under it has committed.
use payment_platform_quality.Prelude.{
  Option, none, some, ◌≡◌, ◌≢◌, ◌∙◌, inl, inr, refl, sym, String, arith,
}
use payment_platform_quality.Failure.{
  FailurePoint, ok, err, simulated_timeout, idempotency_conflict, Result-cases,
}
use payment_platform_quality.Database.Types.{Payment, IdempotencyRecord}
use payment_platform_quality.Database.Store.{Db, find_claim}
use payment_platform_quality.Payments.Commands.{
  AuthorizationCommand, Dictionary, authorization_payload, Fresh,
}
use payment_platform_quality.Payments.Claims.{Claim, claim_idempotency_key}
use payment_platform_quality.Payments.Commit.{stage_outcome, conclude}
use payment_platform_quality.Payments.Authorize.{authorize_at, stage_authorization}
use payment_platform_quality.Payments.Staged.{stage_authorization_claim}
use payment_platform_quality.Payments.Keys.{
  held_claim, claim_replays, claim_conflicts, completed-Leaves, first_answer, replayed_answer,
}

module _ (digest : Dictionary → String) (others : Db → Db) (key : String) (fresh : Fresh)
    (db : Db) where
  module _ (command : AuthorizationCommand) where
    abbrev authorization_claim : Claim
    authorization_claim =
        claim_idempotency_key key (digest (authorization_payload command)) "AUTHORIZE" fresh.now
          others db

    -- An authorization that is answered, and not by a replay, has staged its payment.
    answered_authorization :
        (point : Option FailurePoint) (db' : Db) (p : Payment)
        → authorize_at digest others command key point fresh db ≡ (ok (first_answer p), db')
        → (c : IdempotencyRecord) × (d : Db) × (authorization_claim ≡ Claim.held c d)
          × (stage_authorization command c point fresh d ≡ ok (p, db'))
    unfolding authorize_at conclude
    answered_authorization point db' p h = go authorization_claim refl
      where
        go :
            (k : Claim)
            → authorization_claim ≡ k
            → (c : IdempotencyRecord) × (d : Db) × (authorization_claim ≡ Claim.held c d)
              × (stage_authorization command c point fresh d ≡ ok (p, db'))
        go (Claim.raises e d) claimed = absurd (ground arith)
        go (Claim.replays s d) claimed = absurd (ground arith)
        go (Claim.held c d) claimed =
            elim (Result-cases (stage_authorization command c point fresh d)) [
              | inr (e, failed) ↦ absurd (ground arith)
              | inl ((q, d'), staged) ↦ (c, d, claimed, ground arith)
            ]

    stage_point :
        (c : IdempotencyRecord) (d : Db)
        → stage_authorization command c (some FailurePoint.after_commit) fresh d
          ≡ stage_authorization command c none fresh d
    unfolding stage_authorization stage_outcome
    stage_point c d = refl

    stage_before :
        (c : IdempotencyRecord) (d : Db) (x : Payment × Db)
        → stage_authorization command c none fresh d ≡ ok x
        → stage_authorization command c (some FailurePoint.before_commit) fresh d
          ≡ err (simulated_timeout FailurePoint.before_commit)
    unfolding stage_authorization stage_outcome
    stage_before c d x h = ground arith

    -- An authorization that commits leaves its result under the key: on every later database that
    -- has the same record under the key, whatever has become of the payment and of all other rows,
    -- a call with this key and command is answered with a copy of the payment as it was first
    -- answered, and writes nothing, whatever its clock, its identifiers, its failure point and the
    -- other sessions.
    pub authorize_replays :
        (db' later_db : Db) (p : Payment)
        → authorize_at digest others command key none fresh db ≡ (ok (first_answer p), db')
        → find_claim key later_db ≡ find_claim key db'
        → (others' : Db → Db) (point : Option FailurePoint) (later : Fresh)
        → authorize_at digest others' command key point later later_db
          ≡ (ok (replayed_answer p), later_db)
    unfolding authorize_at
    authorize_replays db' later_db p h kept others' point later =
        let (c, d, claimed, staged) = answered_authorization none db' p h in
        let (new, there) =
          held_claim key (digest (authorization_payload command)) "AUTHORIZE" fresh.now others db c
            d claimed in
        let (c', found, same) =
          completed-Leaves key (digest (authorization_payload command)) "AUTHORIZE" fresh.now others
            db c d db' p claimed
            (stage_authorization_claim command c none fresh d p db' there staged) in
        rw
          (claim_replays key (digest (authorization_payload command)) "AUTHORIZE" later.now others'
            later_db c' p (kept ∙ found) same)
          refl

    -- The same call with the failure after the commit raises its timeout and leaves the same
    -- database, so that a retry finds the payment; with the failure before the commit it raises
    -- its timeout and commits nothing.
    pub authorize_faults :
        (db' : Db) (p : Payment)
        → authorize_at digest others command key none fresh db ≡ (ok (first_answer p), db')
        → (authorize_at digest others command key (some FailurePoint.after_commit) fresh db
            ≡ (err (simulated_timeout FailurePoint.after_commit), db'))
          × (authorize_at digest others command key (some FailurePoint.before_commit) fresh db
              ≡ (err (simulated_timeout FailurePoint.before_commit), others db))
    unfolding authorize_at conclude
    authorize_faults db' p h =
        let (c, d, claimed, staged) = answered_authorization none db' p h in
        (
          rw (claimed, stage_point c d, staged) refl,
          rw (claimed, stage_before c d (p, db') staged) refl,
        )

    -- A key that has committed one command is refused for another whose fingerprint differs, and
    -- nothing is written.
    pub authorize_conflicts :
        (db' : Db) (p : Payment)
        → authorize_at digest others command key none fresh db ≡ (ok (first_answer p), db')
        → (command' : AuthorizationCommand)
        → digest (authorization_payload command) ≢ digest (authorization_payload command')
        → (others' : Db → Db) (point : Option FailurePoint) (later : Fresh)
        → authorize_at digest others' command' key point later db' ≡ (err idempotency_conflict, db')
    unfolding authorize_at
    authorize_conflicts db' p h command' differ others' point later =
        let (c, d, claimed, staged) = answered_authorization none db' p h in
        let (c', found, same) =
          completed-Leaves key (digest (authorization_payload command)) "AUTHORIZE" fresh.now others
            db c d db' p claimed
            (stage_authorization_claim command c none fresh d p db'
              (held_claim key (digest (authorization_payload command)) "AUTHORIZE" fresh.now others
                db c d claimed).1
              staged) in
        rw
          (claim_conflicts key (digest (authorization_payload command')) "AUTHORIZE" later.now
            others' db' c' p found (λ e. differ (sym same ∙ e)))
          refl
