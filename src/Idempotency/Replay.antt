-- ===== src/Idempotency/Replay.antt =====
-- Keyed calls of `Do` (internal/http/idempotency.go), and others between them.
use gitrdone.Common.{
  ◌≡◌, refl, sym, ap, ap₂, ◌∙◌, ◌≢◌, ◌⊎◌, inl, inr, true, false, Option, none, some, List, [], ◌∷◌,
  arith, ◌==◌, ==_iff, ==_ne, nat_eq, list_eq, pair_eq, Bool-cases, Option-cases, All,
  if◌then◌else◌,
}
use gitrdone.Common.Dict.{lookup, erase, lookup-insert_self, lookup-insert_ne, lookup-erase_ne}
use gitrdone.Common.Int.{◌+ℤ◌}
use gitrdone.Idempotency.{
  IdempotencyInput, IdempotencyResult, IdempotencyRecord, LookupKey, Records, lookup_key,
  without_record, create_and_record, found_record, keyed, do_once, default_idempotency_record_ttl,
}
use gitrdone.Result.{Error, idempotency_conflict, Result, ok, err}
use gitrdone.Text.{Bytes}
use gitrdone.Time.{Time, before}

abbrev record_of :
    {Response : Type 0} → IdempotencyInput → Time → Response → IdempotencyRecord Response
record_of input now response = record {
  request_hash = input.request_hash;
  response = response;
  expires_at = now +ℤ default_idempotency_record_ttl;
}

-- One call, as the client makes it: the error of its context, its input, the clock, and what it
-- creates.
pub record Call (Response S : Type 0) : Type 0 where
  pub context : Option Error
  pub input : IdempotencyInput
  pub now : Time
  pub create : S → Result Response × S

-- A retry, or another use of the key: a call that reads the record.
pub record Retries {Response S : Type 0} (c d : Call Response S) : Type 0 where
  pub alive : d.context ≡ none
  pub same_scope : d.input.scope ≡ c.input.scope
  pub same_key : d.input.key ≡ c.input.key

module _ {Response S : Type 0} where
  abbrev pub call :
      Call Response S
      → Records Response
      → S
      → Result (IdempotencyResult Response) × Records Response × S
  call c records state = do_once c.context c.input c.now c.create records state

  pub run : List (Call Response S) → Records Response → S → Records Response × S
  run [] records state = (records, state)
  run (c ∷ cs) records state = let out = call c records state in run cs out.1 out.2

  -- either an error, or a response that is recorded
  create_and_record-cases :
      (input : IdempotencyInput) (now : Time) (records : Records Response)
      (made : Result Response × S) (result : IdempotencyResult Response)
      → (create_and_record input now records made).0 ≡ ok result
      → lookup (lookup_key input) (create_and_record input now records made).1
        ≡ some (record_of input now result.response)
  unfolding create_and_record
  create_and_record-cases input now records (err e, state) result h = cc
  create_and_record-cases input now records (ok r, state) result h =
      lookup-insert_self (lookup_key input) (record_of input now r) records
      ∙ ap (λ x. some (record_of input now x)) (ground arith)

  create_and_record-other :
      (input : IdempotencyInput) (now : Time) (records : Records Response)
      (made : Result Response × S) (k : LookupKey)
      → lookup_key input ≢ k
      → lookup k (create_and_record input now records made).1 ≡ lookup k records
  unfolding create_and_record
  create_and_record-other input now records (err e, state) k h = refl
  create_and_record-other input now records (ok r, state) k h =
      lookup-insert_ne (lookup_key input) k (record_of input now r) records h

  without_record-kept :
      (records : Records Response) (made : Result Response × S)
      → (without_record records made).1 ≡ records
  unfolding without_record
  without_record-kept records (err e, state) = refl
  without_record-kept records (ok r, state) = refl

  found_record-kept :
      (input : IdempotencyInput) (found : IdempotencyRecord Response) (records : Records Response)
      (state : S)
      → (found_record input found records state).1 ≡ records
  unfolding found_record
  found_record-kept input found records state = ground arith

  found_record-replayed :
      (input : IdempotencyInput) (found : IdempotencyRecord Response) (records : Records Response)
      (state : S) (result : IdempotencyResult Response)
      → (found_record input found records state).0 ≡ ok result
      → result.replayed ≡ true
  unfolding found_record
  found_record-replayed input found records state result h = ground arith

  keyed-stored :
      (c : Call Response S) (records : Records Response) (state : S)
      (found : Option (IdempotencyRecord Response)) (result : IdempotencyResult Response)
      → (keyed c.input c.now c.create records state found).0 ≡ ok result
      → result.replayed ≡ false
      → lookup (lookup_key c.input) (keyed c.input c.now c.create records state found).1
        ≡ some (record_of c.input c.now result.response)
  unfolding keyed
  keyed-stored c records state none result h new =
      create_and_record-cases c.input c.now records (c.create state) result h
  keyed-stored c records state (some r) result h new =
      elim (Bool-cases (before c.now r.expires_at)) [
        | inl live ↦
            cc (new, found_record-replayed c.input r records state result (rw (live, keyed) at h))
        | inr dead ↦
            rw (dead, keyed)
              (create_and_record-cases c.input c.now (erase (lookup_key c.input) records)
                (c.create state) result (rw (dead, keyed) at h))
      ]

  keyed-other :
      (c : Call Response S) (records : Records Response) (state : S)
      (found : Option (IdempotencyRecord Response)) (k : LookupKey)
      → lookup_key c.input ≢ k
      → lookup k (keyed c.input c.now c.create records state found).1 ≡ lookup k records
  unfolding keyed
  keyed-other c records state none k h =
      create_and_record-other c.input c.now records (c.create state) k h
  keyed-other c records state (some r) k h = elim (Bool-cases (before c.now r.expires_at)) [
    | inl live ↦ rw (live, keyed) (ap (λ x. lookup k x) (found_record-kept c.input r records state))
    | inr dead ↦
        rw (dead, keyed)
          (create_and_record-other c.input c.now (erase (lookup_key c.input) records)
              (c.create state) k h
            ∙ lookup-erase_ne (lookup_key c.input) k records h)
  ]

  keyed-live :
      (c : Call Response S) (records : Records Response) (state : S)
      (r : IdempotencyRecord Response)
      → before c.now r.expires_at ≡ true
      → keyed c.input c.now c.create records state (some r) ≡ found_record c.input r records state
  unfolding keyed
  keyed-live c records state r live = rw (live, keyed) refl

  keyed-keeps :
      (c : Call Response S) (records : Records Response) (state : S) (k : LookupKey)
      (kept : IdempotencyRecord Response)
      → lookup k records ≡ some kept
      → (lookup_key c.input ≢ k) ⊎ (before c.now kept.expires_at ≡ true)
      → lookup k
          (keyed c.input c.now c.create records state (lookup (lookup_key c.input) records)).1
        ≡ some kept
  keyed-keeps c records state k kept e (inl other) =
      keyed-other c records state (lookup (lookup_key c.input) records) k other ∙ e
  keyed-keeps c records state k kept e (inr live) = elim (Bool-cases (lookup_key c.input == k)) [
    | inl same ↦
        let is_k = (==_iff (lookup_key c.input) k).0 same in
        let found = ap (λ x. lookup x records) is_k ∙ e in
        ap (λ o. lookup k (keyed c.input c.now c.create records state o).1) found
        ∙ ap (λ (o : Result (IdempotencyResult Response) × Records Response × S). lookup k o.1)
            (keyed-live c records state kept live)
        ∙ ap (λ x. lookup k x) (found_record-kept c.input kept records state)
        ∙ e
    | inr other ↦
        keyed-other c records state (lookup (lookup_key c.input) records) k
          (λ q. cc (other, (==_iff (lookup_key c.input) k).1 q))
        ∙ e
  ]

  call-keeps :
      (c : Call Response S) (records : Records Response) (state : S) (k : LookupKey)
      (kept : IdempotencyRecord Response)
      → lookup k records ≡ some kept
      → (lookup_key c.input ≢ k) ⊎ (before c.now kept.expires_at ≡ true)
      → lookup k (call c records state).1 ≡ some kept
  unfolding do_once
  call-keeps c records state k kept e h = elim (Option-cases c.context) [
    | inr (x, cancelled) ↦ rw (cancelled, do_once) e
    | inl alive ↦
        rw (alive, do_once)
          (elim (Bool-cases (c.input.key == [])) [
            | inl no_key ↦
                rw no_key (ap (λ x. lookup k x) (without_record-kept records (c.create state)) ∙ e)
            | inr has_key ↦ rw has_key (keyed-keeps c records state k kept e h)
          ])
  ]

  run-keeps :
      (cs : List (Call Response S)) (records : Records Response) (state : S) (k : LookupKey)
      (kept : IdempotencyRecord Response)
      → lookup k records ≡ some kept
      → All (λ c. (lookup_key c.input ≢ k) ⊎ (before c.now kept.expires_at ≡ true)) cs
      → lookup k (run cs records state).0 ≡ some kept
  unfolding run
  run-keeps [] records state k kept e h = e
  run-keeps (c ∷ cs) records state k kept e h =
      run-keeps cs _ _ k kept (call-keeps c records state k kept e h.0) h.1

  call-keyed :
      (c : Call Response S) (records : Records Response) (state : S)
      → c.context ≡ none
      → c.input.key ≢ []
      → call c records state
        ≡ keyed c.input c.now c.create records state (lookup (lookup_key c.input) records)
  unfolding do_once
  call-keyed c records state alive has_key = rw (alive, do_once, ==_ne c.input.key [] has_key) refl

  call-alive :
      (c : Call Response S) (records : Records Response) (state : S)
      (result : IdempotencyResult Response)
      → (call c records state).0 ≡ ok result
      → c.context ≡ none
  unfolding do_once
  call-alive c records state result h = elim (Option-cases c.context) [
    | inr (x, cancelled) ↦ cc (rw (cancelled, do_once) at h)
    | inl alive ↦ alive
  ]

  found_record_lem :
      (input : IdempotencyInput) (found : IdempotencyRecord Response) (records : Records Response)
      (state : S)
      → found_record input found records state ≡ (
        if found.request_hash == input.request_hash
            then ok (record { response = found.response; replayed = true })
            else err idempotency_conflict,
        records,
        state,
      )
  unfolding found_record
  found_record_lem input found records state =
      elim (Bool-cases (found.request_hash == input.request_hash)) [
        | inl e ↦ rw e refl
        | inr e ↦ rw e refl
      ]

  -- After a keyed call created a response, every call of the same scope and key, before the record
  -- expires, leaves the records and the state of the program alone: with the same request hash it
  -- returns that response, marked as replayed, and with another it fails with the conflict error.
  -- This holds whatever calls come between, as long as those of the same scope and key are made
  -- before the expiry too, and whatever the later call would create.
  pub call-once :
      (c d : Call Response S) (between : List (Call Response S)) (records : Records Response)
      (state : S) (result : IdempotencyResult Response)
      → c.input.key ≢ []
      → (call c records state).0 ≡ ok result
      → result.replayed ≡ false
      → All
          (λ b.
            (lookup_key b.input ≢ lookup_key c.input)
            ⊎ (before b.now (c.now +ℤ default_idempotency_record_ttl) ≡ true))
          between
      → Retries c d
      → before d.now (c.now +ℤ default_idempotency_record_ttl) ≡ true
      → let first = call c records state in
        let middle = run between first.1 first.2 in
        call d middle.0 middle.1 ≡ (
          if c.input.request_hash == d.input.request_hash
              then ok (record { response = result.response; replayed = true })
              else err idempotency_conflict,
          middle.0,
          middle.1,
        )
  call-once c d between records state result has_key made new h retry live =
      let first = call c records state in
      let middle = run between first.1 first.2 in
      let as_keyed = call-keyed c records state (call-alive c records state result made) has_key in
      let stored =
        ap
          (λ (o : Result (IdempotencyResult Response) × Records Response × S).
            lookup (lookup_key c.input) o.1)
          as_keyed
        ∙ keyed-stored c records state (lookup (lookup_key c.input) records) result
            (sym (
                ap (λ (o : Result (IdempotencyResult Response) × Records Response × S). o.0)
                  as_keyed)
              ∙ made)
            new in
      let kept = run-keeps between first.1 first.2 (lookup_key c.input) _ stored h in
      let found =
        ap (λ (k : LookupKey). lookup k middle.0)
          (ap₂ (λ (a b : Bytes). let p : LookupKey = (a, b) in p) retry.same_scope retry.same_key)
        ∙ kept in
      call-keyed d middle.0 middle.1 retry.alive (λ e. has_key (sym retry.same_key ∙ e))
      ∙ ap (keyed d.input d.now d.create middle.0 middle.1) found
      ∙ keyed-live d middle.0 middle.1 (record_of c.input c.now result.response) live
      ∙ found_record_lem d.input (record_of c.input c.now result.response) middle.0 middle.1
