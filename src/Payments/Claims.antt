-- ===== src/Payments/Claims.antt =====
-- The claim of an idempotency key, before anything else of a transaction is written.
use payment_platform_quality.Prelude.{ℕ, Option, none, some, not, String, str_eq}
use payment_platform_quality.Failure.{
  Failure, Result, ok, err, idempotency_conflict, runtime_error, integrity_error, ◌>>=◌, ◌>>◌,
  raise_if, or_raise,
}
use payment_platform_quality.Database.Types.{PaymentSnapshot, IdempotencyRecord}
use payment_platform_quality.Database.Store.{Db, find_claim, insert_claim}

-- `_find_idempotent_snapshot` on the record that the key finds.
unfoldable pub replay_of : String → Option IdempotencyRecord → Result (Option PaymentSnapshot)
replay_of fingerprint none = ok none
replay_of fingerprint (some r) = do
  raise_if (not (str_eq r.request_fingerprint fingerprint)) idempotency_conflict
  s ← or_raise r.response_snapshot (runtime_error "Idempotency record has no completed response")
  ok (some s)

unfoldable pub find_idempotent_snapshot : String → String → Db → Result (Option PaymentSnapshot)
unfolding replay_of
find_idempotent_snapshot key fingerprint db = replay_of fingerprint (find_claim key db)

abbrev pub new_claim : String → String → String → ℕ → IdempotencyRecord
new_claim key fingerprint operation created_at = record {
  key = key;
  request_fingerprint = fingerprint;
  operation = operation;
  payment_id = none;
  response_snapshot = none;
  created_at = created_at;
}

-- How a claim ends, with the database as the session sees it: the key is held by the open
-- transaction, a committed result is replayed, or an exception is raised.
pub data Claim : Type 0 where
  held : IdempotencyRecord → Db → Claim
  replays : PaymentSnapshot → Db → Claim
  raises : Failure → Db → Claim

-- The second look, after the insertion was refused and rolled back.
after_refusal : Result (Option PaymentSnapshot) → Db → Claim
after_refusal (ok none) db = Claim.raises integrity_error db
after_refusal (ok (some s)) db = Claim.replays s db
after_refusal (err e) db = Claim.raises e db

flush_claim : IdempotencyRecord → Result Db → Db → Claim
unfolding after_refusal
flush_claim c (ok staged) db = Claim.held c staged
flush_claim c (err e) db =
    after_refusal (find_idempotent_snapshot c.key c.request_fingerprint db) db

first_look : Result (Option PaymentSnapshot) → IdempotencyRecord → (Db → Db) → Db → Claim
unfolding flush_claim
first_look (err e) c others db = Claim.raises e db
first_look (ok (some s)) c others db = Claim.replays s db
first_look (ok none) c others db = flush_claim c (insert_claim c (others db)) (others db)

-- `_claim_idempotency_key`. Until the insertion takes the write lock other sessions may commit:
-- `others` is what they do to the database between the first look and the insertion.
unfoldable pub claim_idempotency_key : String → String → String → ℕ → (Db → Db) → Db → Claim
unfolding first_look
claim_idempotency_key key fingerprint operation created_at others db =
    first_look (find_idempotent_snapshot key fingerprint db)
      (new_claim key fingerprint operation created_at) others db
