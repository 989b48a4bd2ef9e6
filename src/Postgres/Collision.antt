-- ===== src/Postgres/Collision.antt =====
-- The loop of `createRepoTokenWithQueryer` in internal/http/postgres.go where a token that it draws has
-- the hash of one that is stored.
use gitrdone.Common.{
  ◌≡◌, refl, sym, ap, subst, ◌∙◌, ℕ, zero, suc, true, false, none, some, ◌∷◌, nat_eq, list_eq,
  Bool-cases, inl, inr, equal,
}
use gitrdone.Memory.{token_record}
use gitrdone.Postgres.Session.{World, statement, bound, next, later}
use gitrdone.Postgres.Store.{insert_rounds, insert_round}
use gitrdone.Postgres.Tables.{
  Tables, find_row, token_has_id, token_has_hash, insert_token_row, unique_violation,
  is_postgres_unique_violation,
}
use gitrdone.Repository.{CreateRepoTokenInput, RepoRecord, RepoTokenRecord}
use gitrdone.Result.{Result, ok, err}
use gitrdone.Secrets.{Reads, draw, new_uuid, generate_repo_token, hash_repo_token}
use gitrdone.Text.{Bytes, is_some}
use gitrdone.Time.{Time}

abbrev pub Fails : {A : Type 0} → Result A → Type 0
Fails (ok a) = ⊥
Fails (err e) = Unit

insert_token_row-taken :
    (cast : Bytes → Result Bytes) (stamp : Time → Time) (token : RepoTokenRecord) (t : Tables)
    → cast token.id ≡ ok token.id
    → cast token.repo_id ≡ ok token.repo_id
    → is_some (find_row (token_has_hash token.token_hash) t.repo_tokens) ≡ true
    → insert_token_row cast stamp token t ≡ err unique_violation
unfolding insert_token_row
insert_token_row-taken cast stamp token t ci co taken =
    elim (Bool-cases (is_some (find_row (token_has_id token.id) t.repo_tokens))) [
      | inl used ↦ rw (ci, co, used) refl
      | inr fresh ↦ rw (ci, co, fresh, taken) refl
    ]

module _ {Files : Type 0} (cast : Bytes → Result Bytes) (stamp : Time → Time)
    (sha256 : Bytes → Bytes) (input : CreateRepoTokenInput) (repo : RepoRecord)
    (now : ℕ → Time) where
  read-Fails :
      {A B : Type 0} (r : Result A) (next : A → World Files → Result B × World Files)
      (w : World Files)
      → ((a : A) → Fails (next a w).0)
      → Fails (bound next (r, w)).0
  read-Fails (err e) next w fails = tt
  read-Fails (ok a) next w fails = fails a

  insert_round-aborted :
      (at : Time) (again : World Files → Result RepoTokenRecord × World Files) (w : World Files)
      → w.aborted ≡ true
      → Fails (insert_round cast stamp sha256 input repo at again w).0
  unfolding insert_round statement is_postgres_unique_violation
  insert_round-aborted at again w aborted =
      read-Fails (generate_repo_token (draw w.reads).0) _ _ λ generated.
        read-Fails (new_uuid (draw (draw w.reads).1).0) _ _
          λ token_id. rw aborted (unfold equal in tt)

  insert_rounds-aborted :
      (rounds : ℕ) (w : World Files)
      → w.aborted ≡ true
      → Fails (insert_rounds cast stamp sha256 input repo now rounds w).0
  unfolding insert_rounds
  insert_rounds-aborted zero w aborted = tt
  insert_rounds-aborted (suc rounds) w aborted = insert_round-aborted (now rounds) _ w aborted

  -- a token whose hash is stored
  pub record Taken (w : World Files) (a b : Bytes) (rest : Reads) : Type 0 where
    pub reads : w.reads ≡ some a ∷ some b ∷ rest
    pub generated : Bytes
    pub is_generated : generate_repo_token (some a) ≡ ok generated
    pub id : Bytes
    pub is_id : new_uuid (some b) ≡ ok id
    pub cast_id : cast id ≡ ok id
    pub cast_repo_id : cast repo.id ≡ ok repo.id
    pub taken :
        is_some (find_row (token_has_hash (hash_repo_token sha256 generated)) w.tables.repo_tokens)
        ≡ true

  abbrev pub after_collision : World Files → Reads → World Files
  after_collision w rest = record w {
    aborted = is_some w.saved;
    outcomes = later w.outcomes;
    reads = rest;
  }

  insert_round-Taken :
      (at : Time) (again : World Files → Result RepoTokenRecord × World Files) (w : World Files)
      (a b : Bytes) (rest : Reads)
      → w.aborted ≡ false
      → Taken w a b rest
      → insert_round cast stamp sha256 input repo at again w ≡ again (after_collision w rest)
  unfolding insert_round statement is_postgres_unique_violation draw
  insert_round-Taken at again w a b rest open_ k =
      let refused =
        insert_token_row-taken cast stamp (token_record sha256 input repo at k.generated k.id)
          w.tables k.cast_id k.cast_repo_id k.taken in
      rw (k.reads, k.is_generated, k.is_id, open_, refused) (unfold equal in refl)

  -- Outside a transaction, a round that draws a token whose hash is stored is followed by the next
  -- round, on the same tables and with the later random bytes.
  insert_rounds-Taken_outside :
      (rounds : ℕ) (w : World Files) (a b : Bytes) (rest : Reads)
      → w.saved ≡ none
      → w.aborted ≡ false
      → Taken w a b rest
      → insert_rounds cast stamp sha256 input repo now (suc rounds) w
        ≡ insert_rounds cast stamp sha256 input repo now rounds
            (record w { aborted = false; outcomes = later w.outcomes; reads = rest })
  unfolding insert_rounds
  insert_rounds-Taken_outside rounds w a b rest outside open_ k =
      insert_round-Taken (now rounds) (insert_rounds cast stamp sha256 input repo now rounds) w a b
        rest open_ k
      ∙ ap
          (λ saved.
            insert_rounds cast stamp sha256 input repo now rounds
              (record w { aborted = is_some saved; outcomes = later w.outcomes; reads = rest }))
          outside

  -- Inside a transaction, as under an idempotency key, a round that draws a token whose hash is stored
  -- makes the whole call fail, however many rounds may follow and whatever they draw.
  pub insert_rounds-Taken_inside :
      (rounds : ℕ) (w : World Files) (a b : Bytes) (rest : Reads) {t : Tables}
      → w.saved ≡ some t
      → w.aborted ≡ false
      → Taken w a b rest
      → Fails (insert_rounds cast stamp sha256 input repo now (suc rounds) w).0
  unfolding insert_rounds
  insert_rounds-Taken_inside rounds w a b rest inside open_ k =
      subst (λ out. Fails out.0)
        (sym (
          insert_round-Taken (now rounds) (insert_rounds cast stamp sha256 input repo now rounds) w
            a b rest open_ k))
        (insert_rounds-aborted rounds (after_collision w rest) (ap is_some inside))
