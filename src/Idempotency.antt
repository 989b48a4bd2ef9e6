-- ===== src/Idempotency.antt =====
-- internal/http/idempotency.go: `memoryIdempotencyStore`. `Do` holds the mutex while it looks up,
-- creates and records, so a call is one step. The response and the state that `create` works on are
-- parameters.
pub mod Replay
use gitrdone.Common.{
  ℕ, ◌*◌, Bool, true, false, not, Option, none, some, [], ◌==◌, nat_eq, list_eq, pair_eq,
  if◌then◌else◌,
}
use gitrdone.Common.Dict.{Dict, lookup, insert, erase}
use gitrdone.Common.Int.{ℤ, pos, ◌+ℤ◌}
use gitrdone.Result.{Error, idempotency_conflict, Result, ok, err}
use gitrdone.Text.{Bytes}
use gitrdone.Time.{Time, before, second}

-- 24 hours
abbrev pub default_idempotency_record_ttl : ℤ
default_idempotency_record_ttl = pos (24 * 3600 * second)

pub record IdempotencyInput : Type 0 where
  pub scope : Bytes
  pub key : Bytes
  pub request_hash : Bytes

pub record IdempotencyResult (Response : Type 0) : Type 0 where
  pub response : Response
  pub replayed : Bool

-- `idempotencyLookupKey`
abbrev pub LookupKey : Type 0
LookupKey = Bytes × Bytes

pub record IdempotencyRecord (Response : Type 0) : Type 0 where
  pub request_hash : Bytes
  pub response : Response
  pub expires_at : Time

abbrev pub Records : Type 0 → Type 0
Records Response = Dict LookupKey (IdempotencyRecord Response)

-- `newMemoryIdempotencyStore`: no records, and the default ttl
abbrev pub new_memory_idempotency_store : {Response : Type 0} → Records Response
new_memory_idempotency_store = []

abbrev pub lookup_key : IdempotencyInput → LookupKey
lookup_key input = (input.scope, input.key)

module _ {Response S : Type 0} where
  -- what `create` gives, with no record kept
  without_record :
      Records Response
      → Result Response × S
      → Result (IdempotencyResult Response) × Records Response × S
  without_record records (err e, state) = (err e, records, state)
  without_record records (ok response, state) =
      (ok (record { response = response; replayed = false }), records, state)

  -- behind the lookup
  create_and_record :
      IdempotencyInput
      → Time
      → Records Response
      → Result Response × S
      → Result (IdempotencyResult Response) × Records Response × S
  create_and_record input now records (err e, state) = (err e, records, state)
  create_and_record input now records (ok response, state) = (
    ok (record { response = response; replayed = false }),
    insert (lookup_key input)
        (record {
          request_hash = input.request_hash;
          response = response;
          expires_at = now +ℤ default_idempotency_record_ttl;
        })
        records,
    state,
  )

  found_record :
      IdempotencyInput
      → IdempotencyRecord Response
      → Records Response
      → S
      → Result (IdempotencyResult Response) × Records Response × S
  found_record input found records state =
      if not (found.request_hash == input.request_hash)
      then (err idempotency_conflict, records, state)
      else (ok (record { response = found.response; replayed = true }), records, state)

  keyed :
      IdempotencyInput
      → Time
      → (S → Result Response × S)
      → Records Response
      → S
      → Option (IdempotencyRecord Response)
      → Result (IdempotencyResult Response) × Records Response × S
  unfolding create_and_record found_record
  keyed input now create records state none = create_and_record input now records (create state)
  keyed input now create records state (some found) =
      if before now found.expires_at
      then found_record input found records state
      else create_and_record input now (erase (lookup_key input) records) (create state)

  -- `Do`; the context's error, if it has one, comes first
  unfoldable pub do_once :
      Option Error
      → IdempotencyInput
      → Time
      → (S → Result Response × S)
      → Records Response
      → S
      → Result (IdempotencyResult Response) × Records Response × S
  unfolding without_record keyed
  do_once (some e) input now create records state = (err e, records, state)
  do_once none input now create records state =
      if input.key == []
      then without_record records (create state)
      else keyed input now create records state (lookup (lookup_key input) records)
