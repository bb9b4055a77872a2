-- ===== src/Payments/Endings.antt =====
-- The three databases in which a call can end: the one it began with, the one that the other
-- sessions left, or the one that it has staged and committed.
use payment_platform_quality.Prelude.{
  ℕ, Option, List, ◌≡◌, ◌⊎◌, inl, inr, refl, sym, ap, ◌∙◌, String, arith,
}
use payment_platform_quality.Failure.{FailurePoint, Failure, Result, ok, Result-cases}
use payment_platform_quality.Database.Types.{Payment, PaymentSnapshot, IdempotencyRecord}
use payment_platform_quality.Database.Store.{Db}
use payment_platform_quality.Payments.Commands.{
  AuthorizationCommand, LifecycleCommand, Dictionary, authorization_payload, lifecycle_payload,
  operation_value, Fresh,
}
use payment_platform_quality.Payments.Claims.{Claim, claim_idempotency_key}
use payment_platform_quality.Payments.Commit.{conclude}
use mathlib.Core.Path.{subst}
use payment_platform_quality.Payments.Authorize.{
  as_written, finish_authorization, authorize_at, stage_authorization,
}
use payment_platform_quality.Payments.Lifecycle.{
  finish_lifecycle, apply_lifecycle_operation, stage_lifecycle,
}

-- `claim` is the claim of the call, and `stage` its staged work on a held claim.
abbrev pub EndsIn : Claim → (IdempotencyRecord → Db → Result (Payment × Db)) → Db → Db → Db → Type 0
EndsIn claim stage db between end =
    (end ≡ db)
    ⊎ (end ≡ between)
    ⊎ ((c : IdempotencyRecord) × (d : Db) × (p : Payment) × (claim ≡ Claim.held c d)
        × (stage c d ≡ ok (p, end)))

claim_db :
    (key fingerprint operation : String) (created_at : ℕ) (others : Db → Db) (db d : Db)
    → ((e : Failure) × (claim_idempotency_key key fingerprint operation created_at others db
          ≡ Claim.raises e d))
      ⊎ ((s : PaymentSnapshot) × (claim_idempotency_key key fingerprint operation created_at others
              db
            ≡ Claim.replays s d))
    → (d ≡ db) ⊎ (d ≡ others db)
unfolding claim_idempotency_key
claim_db key fingerprint operation created_at others db d (inl (e, h)) = ground arith
claim_db key fingerprint operation created_at others db d (inr (s, h)) = ground arith

widen : {A B C : Type 0} → A ⊎ B → A ⊎ B ⊎ C
widen (inl a) = inl a
widen (inr b) = inr (inl b)

-- A commit, answered or lost to the timeout, leaves the staged database.
conclude_committed :
    (payment_id : String) (point : Option FailurePoint) (committed : Db) (p : Payment) (d : Db)
    → (as_written (conclude payment_id point committed (ok (p, d)))).1 ≡ d
unfolding conclude
conclude_committed payment_id point committed p d = ground arith

-- A held claim ends with the other sessions' database, or with the staged one.
held-EndsIn :
    (claim : Claim) (stage : IdempotencyRecord → Db → Result (Payment × Db)) (payment_id : String)
    (point : Option FailurePoint) (db between : Db) (c : IdempotencyRecord) (d : Db)
    → claim ≡ Claim.held c d
    → EndsIn claim stage db between (as_written (conclude payment_id point between (stage c d))).1
unfolding conclude
held-EndsIn claim stage payment_id point db between c d claimed = elim (Result-cases (stage c d)) [
  | inr (e, failed) ↦ rw failed (inr (inl refl))
  | inl ((p, d'), staged) ↦ inr (
      inr (
        c,
        d,
        p,
        claimed,
        staged
            ∙ ap (λ x. ok (p, x))
                (sym (
                  ap (λ r. (as_written (conclude payment_id point between r)).1) staged
                  ∙ conclude_committed payment_id point between p d')),
      ))
]

module _ (digest : Dictionary → String) (others : Db → Db) (key : String)
    (point : Option FailurePoint) (fresh : Fresh) (db : Db) where
  pub authorize-EndsIn :
      (command : AuthorizationCommand)
      → EndsIn
          (claim_idempotency_key key
            (digest (authorization_payload command))
            "AUTHORIZE"
            fresh.now
            others
            db)
          (λ c d. stage_authorization command c point fresh d)
          db
          (others db)
          (authorize_at digest others command key point fresh db).1
  unfolding authorize_at conclude
  authorize-EndsIn command = go claim refl
    where
      claim : Claim
      claim =
          claim_idempotency_key key (digest (authorization_payload command)) "AUTHORIZE" fresh.now
            others db

      go :
          (k : Claim)
          → claim ≡ k
          → EndsIn claim
              (λ c d. stage_authorization command c point fresh d)
              db
              (others db)
              (authorize_at digest others command key point fresh db).1
      go (Claim.raises e d) claimed = rw claimed (
          widen (
            claim_db key (digest (authorization_payload command)) "AUTHORIZE" fresh.now others db d
              (inl (e, claimed))))
      go (Claim.replays s d) claimed = rw claimed (
          widen (
            claim_db key (digest (authorization_payload command)) "AUTHORIZE" fresh.now others db d
              (inr (s, claimed))))
      go (Claim.held c d) claimed =
          subst
            (λ k.
              EndsIn claim (λ c' d'. stage_authorization command c' point fresh d') db (others db)
                (finish_authorization command point fresh (others db) k).1)
            (sym claimed)
            (held-EndsIn claim (λ c' d'. stage_authorization command c' point fresh d')
              fresh.payment_id point db (others db) c d claimed)

  pub lifecycle-EndsIn :
      (loaded : List Payment) (command : LifecycleCommand)
      → EndsIn
          (claim_idempotency_key key
            (digest (lifecycle_payload command))
            (operation_value command.operation)
            fresh.now
            others
            db)
          (λ c d. stage_lifecycle loaded command c point fresh d)
          db
          (others db)
          (apply_lifecycle_operation digest others loaded command key point fresh db).1
  unfolding apply_lifecycle_operation conclude
  lifecycle-EndsIn loaded command = go claim refl
    where
      print : String
      print = digest (lifecycle_payload command)

      operation : String
      operation = operation_value command.operation

      claim : Claim
      claim = claim_idempotency_key key print operation fresh.now others db

      go :
          (k : Claim)
          → claim ≡ k
          → EndsIn claim
              (λ c d. stage_lifecycle loaded command c point fresh d)
              db
              (others db)
              (apply_lifecycle_operation digest others loaded command key point fresh db).1
      go (Claim.raises e d) claimed =
          rw claimed (widen (claim_db key print operation fresh.now others db d (inl (e, claimed))))
      go (Claim.replays s d) claimed =
          rw claimed (widen (claim_db key print operation fresh.now others db d (inr (s, claimed))))
      go (Claim.held c d) claimed =
          subst
            (λ k.
              EndsIn claim (λ c' d'. stage_lifecycle loaded command c' point fresh d') db
                (others db) (finish_lifecycle loaded command point fresh (others db) k).1)
            (sym claimed)
            (held-EndsIn claim (λ c' d'. stage_lifecycle loaded command c' point fresh d')
              command.payment_id point db (others db) c d claimed)
