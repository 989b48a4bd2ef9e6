-- ===== src/Postgres/Idempotency.antt =====
-- `postgresIdempotencyStore` of internal/http/postgres.go. `create` runs on the same connection, inside
-- the transaction when there is a key. `json.Marshal` and `json.Unmarshal` of a response and the
-- conversion of a parameter to jsonb are parameters.
use gitrdone.Common.{true, false, Option, none, some, [], ◌==◌, nat_eq, list_eq, if◌then◌else◌}
use gitrdone.Common.Int.{◌+ℤ◌}
use gitrdone.Idempotency.{
  IdempotencyInput, IdempotencyResult, lookup_key, default_idempotency_record_ttl,
}
use gitrdone.Postgres.Session.{
  Query, pure, fail, lift, ◌>>=◌, ◌>>◌, check, statement, commit, in_transaction,
}
use gitrdone.Postgres.Tables.{
  IdempotencyRow, select_idempotency, delete_idempotency, insert_idempotency,
}
use gitrdone.Result.{Error, idempotency_conflict, Result, ok}
use gitrdone.Text.{Bytes}
use gitrdone.Time.{Time, before}

module _ {Files Response : Type 0} (stamp : Time → Time) (encode : Response → Result Bytes)
    (jsonb : Bytes → Result Bytes) (decode : Bytes → Result Response) where
  -- the response of `create`, kept under the key; the transaction is committed
  unfoldable pub create_recorded :
      IdempotencyInput → Time → Query Files Response → Query Files (IdempotencyResult Response)
  create_recorded input now create = do
    response ← create
    raw ← lift (encode response)
    let row : IdempotencyRow = record {
      request_hash = input.request_hash;
      response = raw;
      expires_at = now +ℤ default_idempotency_record_ttl;
    }
    statement (insert_idempotency jsonb stamp (lookup_key input) row)
    commit
    pure (record { response = response; replayed = false })

  -- a record that has not expired
  unfoldable pub replay :
      IdempotencyInput → IdempotencyRow → Response → Query Files (IdempotencyResult Response)
  replay input row response = do
    check (row.request_hash == input.request_hash) idempotency_conflict
    commit
    pure (record { response = response; replayed = true })

  -- behind the `SELECT` of `selectIdempotencyRecord`
  unfoldable pub keyed :
      IdempotencyInput
      → Time
      → Query Files Response
      → Option IdempotencyRow
      → Query Files (IdempotencyResult Response)
  unfolding create_recorded replay
  keyed input now create none = create_recorded input now create
  keyed input now create (some row) = lift (decode row.response) >>= λ response.
      if before now row.expires_at
      then replay input row response
      else (statement (delete_idempotency (lookup_key input)) >> create_recorded input now create)

  abbrev without_key : Query Files Response → Query Files (IdempotencyResult Response)
  without_key create =
      create >>= λ response. pure (record { response = response; replayed = false })

  -- `Do`; the advisory lock keeps out the sessions that hold the same key
  unfoldable pub do_once :
      Option Error
      → IdempotencyInput
      → Time
      → Query Files Response
      → Query Files (IdempotencyResult Response)
  unfolding in_transaction keyed
  do_once (some e) input now create = fail e
  do_once none input now create =
      if input.key == []
      then without_key create
      else in_transaction (do
        statement (λ t. ok (tt, t))
        found ← statement (select_idempotency (lookup_key input))
        keyed input now create found)
